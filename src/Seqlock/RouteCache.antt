-- ===== src/Seqlock/RouteCache.antt =====
-- SeqlockRouteCache: its Write as a sequence of stores, and the loop of its Read.
use hotpathcplusplus.Base.{
  ℕ, zero, suc, ◌+◌, ◌%◌, ◌<◌, ◌≡◌, not, List, [], ◌∷◌, Option, none, some, bit_and, bit_xor, ◌==◌,
  if◌then◌else◌, add64, u64_mod, arith,
}
use hotpathcplusplus.Base.Bits.{bit_and-one}

pub record RouteEntry : Type 0 where
  pub upstream_ip : ℕ
  pub timeout_ms : ℕ
  pub weight : ℕ
  pub checksum : ℕ

abbrev pub default_entry : RouteEntry
default_entry = record {
  upstream_ip = 0x0A000001;
  timeout_ms = 250;
  weight = 100;
  checksum = bit_xor (bit_xor 0x0A000001 250) 100;
}

pub record RouteCache : Type 0 where
  pub seq : ℕ
  pub entry : RouteEntry

-- The memory after each store of `Write(next)`: the odd counter, the four words, the even counter.
unfoldable pub write_at : RouteCache → RouteEntry → ℕ → RouteCache
write_at c next zero = c
write_at c next (suc zero) = record c { seq = add64 c.seq 1 }
write_at c next (suc (suc zero)) = record {
  seq = add64 c.seq 1;
  entry = record c.entry { upstream_ip = next.upstream_ip };
}
write_at c next (suc (suc (suc zero))) = record {
  seq = add64 c.seq 1;
  entry = record next { weight = c.entry.weight; checksum = c.entry.checksum };
}
write_at c next (suc (suc (suc (suc zero)))) = record {
  seq = add64 c.seq 1;
  entry = record next { checksum = c.entry.checksum };
}
write_at c next (suc (suc (suc (suc (suc zero))))) = record { seq = add64 c.seq 1; entry = next }
write_at c next (suc (suc (suc (suc (suc (suc n)))))) = record { seq = add64 c.seq 2; entry = next }

-- the whole call
unfoldable pub write : RouteCache → RouteEntry → RouteCache
unfolding write_at
write c next = write_at c next 6

-- What one round of Read's loop loads: the first counter, the copy and the second counter.
pub record Look : Type 0 where
  pub first : ℕ
  pub copy : RouteEntry
  pub second : ℕ

-- `do … while (s0 != s1)`, where `continue` goes to the test with the `s1` of the round before.
-- `none` if the reader is still in the loop after the rounds given.
unfoldable pub read_loop : ℕ → RouteEntry → List Look → Option RouteEntry
read_loop s1 copy [] = none
read_loop s1 copy (l ∷ ls) =
    let skipped = read_loop s1 copy ls in
    let looked = read_loop l.second l.copy ls in
    if not (bit_and l.first 1 == 0)
    then if l.first == s1 then some copy else skipped
    else if l.first == l.second
    then some l.copy
    else looked

-- the copy starts as a RouteEntry{}, and s1 as 0
unfoldable pub read : List Look → Option RouteEntry
read ls = read_loop 0 default_entry ls

-- A round of the reader against a write in progress: the copy at one moment, the counters at two.
abbrev pub look_during : RouteCache → RouteEntry → ℕ → ℕ → ℕ → Look
look_during c next t0 t1 t2 = record {
  first = (write_at c next t0).seq;
  copy = (write_at c next t1).entry;
  second = (write_at c next t2).seq;
}

-- Read can return a torn entry: a round that sees the write begin during its copy, then a round that
-- finds the counter still odd, leaves the loop with a mix of the old and the new entry. This holds
-- for every even counter below 2 ^ 64 - 2 and any two entries.
pub read_torn :
    (c : RouteCache) (next : RouteEntry)
    → c.seq % 2 ≡ 0
    → c.seq + 2 < u64_mod
    → read (look_during c next 0 2 2 ∷ look_during c next 2 3 4 ∷ [])
      ≡ some (record c.entry { upstream_ip = next.upstream_ip })
unfolding read read_loop write_at
read_torn c next even room = ground (arith, bit_and-one c.seq, bit_and-one (add64 c.seq 1))

-- A write that has finished is seen whole by the next round.
pub read-write :
    (c : RouteCache) (next : RouteEntry) (ls : List Look)
    → c.seq % 2 ≡ 0
    → read (
        record {
          first = (write c next).seq;
          copy = (write c next).entry;
          second = (write c next).seq;
        }
        ∷ ls)
      ≡ some next
unfolding read read_loop write
read-write c next ls even = ground (arith, bit_and-one (add64 c.seq 2))
