-- ===== src/Examples/Mappings.antt =====
-- Mappings and rings on a small kernel.
use hotpathcplusplus.Base.{
  ℕ, ◌+◌, ◌*◌, ◌≡◌, refl, sym, ap, subst, inl, inr, true, false, some, arith,
}
use hotpathcplusplus.Status.{StatusOr, value, error}
use hotpathcplusplus.Shm.Kernel.{create_excl_rdwr, prot_read_write, SameNames}
use hotpathcplusplus.Shm.MemoryMap.{MemoryMap, create, do_map}
use hotpathcplusplus.Shm.Mirror.{Outcome}
use hotpathcplusplus.Shm.DoMap.{do_map-Outcome}
use hotpathcplusplus.Shm.Ownership.{HoldsSame}
use hotpathcplusplus.Shm.Acquire.{CreateOutcome, create-Outcome}
use hotpathcplusplus.Ring.Memory.{Memory}
use hotpathcplusplus.Ring.Types.{BroadcastHeader}
use hotpathcplusplus.Ring.Lifecycle.{
  BroadcastRingBuffer, create_ring, attach_ring, destroy_ring, init_header, new_buffer, header_size,
}
use hotpathcplusplus.Ring.Holdings.{
  OwnsRing, CreateRingOutcome, AttachRingOutcome, create_ring-Outcome, attach_ring-Outcome,
  destroy_ring-OwnsRing,
}
use hotpathcplusplus.Examples.TinyKernel.{Tiny, boot, view, os, laws, may_unlink}

-- A name 7 is created and its object mapped twice.
do_map-Outcome_example :
    let (r, s) = os.shm_open 7 create_excl_rdwr boot in
    Outcome os view 4096 prot_read_write true 0 s (do_map os 3 4096 prot_read_write true s)
do_map-Outcome_example =
    do_map-Outcome os view laws 3 4096 prot_read_write true 0
      (os.shm_open 7 create_excl_rdwr boot).1 (omega arith) (λ e. refl) refl

create-Outcome_example : CreateOutcome os view 7 4096 boot (create os 7 4096 true boot)
create-Outcome_example = create-Outcome os view laws 7 4096 true boot (omega arith) (may_unlink 7)

-- The second time, the name is taken.
abbrev after_create : Tiny
unfolding create
after_create = (create os 7 4096 true boot).1

-- Rings: the two suffixes, and contents that are all zero.
abbrev meta_name : ℕ → ℕ
meta_name n = 2 * n

abbrev data_name : ℕ → ℕ
data_name n = 2 * n + 1

abbrev header_of : MemoryMap → Tiny → BroadcastHeader
unfolding init_header
header_of m s = init_header 4096

abbrev zeros : MemoryMap → Tiny → Memory
zeros m s x = 0

abbrev after_ring : Tiny
unfolding create_ring
after_ring = (create_ring os meta_name data_name header_of zeros 5 4096 0 boot).1

create_ring-Outcome_example :
    CreateRingOutcome os view 5 4096 boot
      (create_ring os meta_name data_name header_of zeros 5 4096 0 boot)
create_ring-Outcome_example =
    create_ring-Outcome os view meta_name data_name header_of zeros laws 5 4096 0 boot (omega arith)
      (may_unlink (meta_name 5)) (may_unlink (data_name 5))

attach_ring-Outcome_example :
    AttachRingOutcome os view false after_ring
      (attach_ring os meta_name data_name header_of zeros 5 false after_ring)
attach_ring-Outcome_example =
    attach_ring-Outcome os view meta_name data_name header_of zeros laws 5 false after_ring

owned_ring :
    (name capacity : ℕ) (s s' : Tiny) (b : BroadcastRingBuffer)
    → CreateRingOutcome os view name capacity s (value b, s')
    → OwnsRing os view b true s s'
owned_ring name capacity s s' b (inl (c, e, holds, names)) = absurd (ground (arith, e))
owned_ring name capacity s s' b (inr (b', e, owns, fresh, sized)) =
    subst (λ x. OwnsRing os view x true s s') (sym (value_inj e)) owns
  where
    value_inj :
        {x y : BroadcastRingBuffer}
        → ◌≡◌ {A = StatusOr BroadcastRingBuffer} (value x) (value y)
        → x ≡ y
    value_inj {x} q =
        ap (λ (r : StatusOr BroadcastRingBuffer). elim r [ value z ↦ z | error c ↦ x ]) q

abbrev handle : BroadcastRingBuffer
unfolding new_buffer
handle =
    new_buffer
      (record { name = 10; fd = some 3; addr = 4096; size = header_size; is_mirrored = false })
      (record { name = 11; fd = some 4; addr = 12288; size = 4096; is_mirrored = true })
      (init_header 4096) (λ x. 0) true 0

ring_is_handle :
    create_ring os meta_name data_name header_of zeros 5 4096 0 boot ≡ (value handle, after_ring)
unfolding create_ring handle new_buffer
ring_is_handle = refl

destroy_ring-OwnsRing_example :
    HoldsSame os view boot (destroy_ring os handle after_ring)
    × SameNames view after_ring (destroy_ring os handle after_ring)
destroy_ring-OwnsRing_example = destroy_ring-OwnsRing os view laws handle true boot after_ring (
    owned_ring 5 4096 boot after_ring handle (
      subst (CreateRingOutcome os view 5 4096 boot) ring_is_handle (
        create_ring-Outcome os view meta_name data_name header_of zeros laws 5 4096 0 boot
          (omega arith) (may_unlink (meta_name 5)) (may_unlink (data_name 5)))))
