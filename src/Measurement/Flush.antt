-- ===== src/Measurement/Flush.antt =====
-- FlushCacheRange of common/measurement/measurement_harness.h: which offsets it flushes.
use hotpathcplusplus.Base.{ℕ, zero, suc, ◌+◌, ◌-◌, ◌*◌, ◌/◌, ◌≤◌, ◌<◌, ◌≡◌, length, get_or, arith}
use hotpathcplusplus.Measurement.Generator.{flush_cache_range}

-- With enough rounds the loop flushes one offset for each begun line of the buffer, and ends.
pub length-flush_cache_range :
    (fuel offset bytes : ℕ)
    → bytes ≤ offset + 64 * fuel
    → length (flush_cache_range fuel offset bytes) ≡ (bytes - offset + 63) / 64
unfolding flush_cache_range
length-flush_cache_range zero offset bytes h = omega arith
length-flush_cache_range (suc fuel) offset bytes h =
    ground (arith, length-flush_cache_range fuel (offset + 64) bytes (omega arith))

-- The offsets are the starts of lines, 64 bytes apart.
pub get_or-flush_cache_range :
    (fuel offset bytes k : ℕ)
    → bytes ≤ offset + 64 * fuel
    → offset + 64 * k < bytes
    → get_or (flush_cache_range fuel offset bytes) k 0 ≡ offset + 64 * k
unfolding flush_cache_range
get_or-flush_cache_range zero offset bytes k h low = absurd (omega arith)
get_or-flush_cache_range (suc fuel) offset bytes zero h low = ground arith
get_or-flush_cache_range (suc fuel) offset bytes (suc k) h low =
    ground (arith, get_or-flush_cache_range fuel (offset + 64) bytes k (omega arith) (omega arith))
