-- ===== src/StoreBuffers/Pending.antt =====
-- The stores that a producer's buffer still holds: what memory will be after each of them.
use hotpathcplusplus.Base.{
  ℕ, ◌+◌, ◌-◌, ◌<◌, ◌≤◌, ◌≡◌, ◌≢◌, refl, sym, subst, ◌∙◌, List, [], ◌∷◌, ◌++◌, arith, ==-off,
  if_false, ℕ_discrete,
}
use hotpathcplusplus.Base.Modular.{mod-ne}
use hotpathcplusplus.StoreBuffers.Handoff.{
  Shared, Store, store_a, store_b, store_write, apply_store, payload, slot_of,
}

-- memory when the buffer has drained
abbrev pub final : Shared → List Store → Shared
final mem [] = mem
final mem (s ∷ rest) = final (apply_store mem s) rest

pub final-append :
    (mem : Shared) (pending : List Store) (s : Store)
    → final mem (pending ++ s ∷ []) ≡ apply_store (final mem pending) s
final-append mem [] s = refl
final-append mem (t ∷ pending) s = final-append (apply_store mem t) pending s

module _ (ring_size : ℕ) where
  -- Every message from the `from`-th on that memory shows as written is there.
  abbrev pub Shows : ℕ → Shared → Type 0
  Shows from mem =
      (k : ℕ) → from ≤ k → 0 < k → k ≤ mem.write_idx → mem.buffer (slot_of ring_size k) ≡ payload k

  -- It is so whenever the buffer drains, and the index only grows.
  abbrev pub Drains : ℕ → Shared → List Store → Type 0
  Drains from mem [] = Unit × Shows from mem
  Drains from mem (s ∷ rest) =
      Shows from mem
      × (mem.write_idx ≤ (apply_store mem s).write_idx)
      × Drains from (apply_store mem s) rest

  pub Drains-Shows :
      (from : ℕ) (mem : Shared) (pending : List Store) → Drains from mem pending → Shows from mem
  Drains-Shows from mem [] d = d.1
  Drains-Shows from mem (s ∷ rest) d = d.0

  pub Drains-le :
      (from : ℕ) (mem : Shared) (pending : List Store)
      → Drains from mem pending
      → mem.write_idx ≤ (final mem pending).write_idx
  Drains-le from mem [] d = omega arith
  Drains-le from mem (s ∷ rest) (shows, le, d) =
      omega (arith, le, Drains-le from (apply_store mem s) rest d)

  pub Drains-later :
      (from : ℕ) (mem : Shared) (pending : List Store)
      → Drains from mem pending
      → Drains (from + 1) mem pending
  Drains-later from mem [] d = (tt, λ k le pos up. d.1 k (omega arith) pos up)
  Drains-later from mem (s ∷ rest) (shows, le, d) = (
    λ k le' pos up. shows k (omega arith) pos up,
    le,
    Drains-later from (apply_store mem s) rest d,
  )

  pub Drains-append :
      (from : ℕ) (mem : Shared) (pending : List Store) (s : Store)
      → Drains from mem pending
      → (final mem pending).write_idx ≤ (apply_store (final mem pending) s).write_idx
      → Shows from (apply_store (final mem pending) s)
      → Drains from mem (pending ++ s ∷ [])
  Drains-append from mem [] s d le shows = (d.1, le, (tt, shows))
  Drains-append from mem (t ∷ rest) s (shows', le', d) le shows =
      (shows', le', Drains-append from (apply_store mem t) rest s d le shows)

  pub Drains-final :
      (from : ℕ) (mem : Shared) (pending : List Store)
      → Drains from mem pending
      → Shows from (final mem pending)
  Drains-final from mem [] d = d.1
  Drains-final from mem (s ∷ rest) (shows, le, d) = Drains-final from (apply_store mem s) rest d

  -- A store into the slot of the next message leaves the messages before it that are less than a ring
  -- away.
  other_slot :
      (k i : ℕ) → 0 < k → k < i → i < k + ring_size → slot_of ring_size i ≢ slot_of ring_size k
  other_slot k i pos lt near e =
      mod-ne ring_size (k - 1) (i - 1) (omega arith) (omega arith) (sym e)

  module _ (from i : ℕ) (mem : Shared) (shows : Shows from mem) (next : mem.write_idx + 1 ≡ i)
      (near : i < from + ring_size) where
    pub Shows-a : (v : ℕ) → Shows from (apply_store mem (store_a (slot_of ring_size i) v))
    Shows-a v k le pos up =
        if_false _ _ (==-off (other_slot k i pos (omega (arith, next)) (omega (arith, near))))
        ∙ shows k le pos up

    pub Shows-b : (v : ℕ) → Shows from (apply_store mem (store_b (slot_of ring_size i) v))
    Shows-b v k le pos up =
        if_false _ _ (==-off (other_slot k i pos (omega (arith, next)) (omega (arith, near))))
        ∙ shows k le pos up

    pub Shows-write :
        mem.buffer (slot_of ring_size i) ≡ payload i → Shows from (apply_store mem (store_write i))
    Shows-write filled k le pos up = elim (ℕ_discrete k i) [
      | yes e ↦ subst (λ j. mem.buffer (slot_of ring_size j) ≡ payload j) (sym e) filled
      | no d ↦ shows k le pos (omega (arith, next, up, d))
    ]
