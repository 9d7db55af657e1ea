-- ===== src/Ring/Generations.antt =====
-- Generations of a slot: no two consumers share one, so that the test in Advance passes for at most
-- one of them at a time.
use hotpathcplusplus.Base.{
  ℕ, suc, ◌+◌, ◌^◌, ◌≤◌, ◌<◌, ◌≡◌, ◌≢◌, refl, sym, ap, subst, ◌∙◌, Bool-cases, inl, inr, Option,
  none, some, ◌==◌, update, add32, arith, ℕ_discrete, ==-self, ==-off, some_inj,
}
use hotpathcplusplus.Ring.Types.{ReaderSlot}
use hotpathcplusplus.Ring.Producer.{visit_slot}
use hotpathcplusplus.Ring.Registration.{
  Claim, unbound, claimed, counted, identified, placed, registered, SharedSlot, fresh_slot, goes,
  fetch_add, compare_generation, Step, exchange, count_up, store_pid, store_cursor, store_heartbeat,
  advancing, beating, move_cursor, compare, move, beat, unregister, visit, Reach, here, next,
}

-- the generation that a consumer has
abbrev pub gen_of : Claim → Option ℕ
gen_of unbound = none
gen_of claimed = none
gen_of (counted gen) = some gen
gen_of (identified gen) = some gen
gen_of (placed gen) = some gen
gen_of (registered gen) = some gen
gen_of (advancing gen cursor) = some gen
gen_of (beating gen) = some gen

-- The slot has counted without a wrap, and gave every generation to one consumer.
record IsCounted (s : SharedSlot) : Type 0 where
  generation : s.slot.generation_id ≡ s.counts
  given : (i g : ℕ) → gen_of (s.at i) ≡ some g → g ≤ s.counts
  once : (i j g : ℕ) → i ≢ j → gen_of (s.at i) ≡ some g → gen_of (s.at j) ≢ some g

-- A step that keeps the generation of the slot, and of a consumer or takes it away.
goes-IsCounted :
    (s : SharedSlot) (i : ℕ) (c : Claim) (slot : ReaderSlot)
    → slot.generation_id ≡ s.slot.generation_id
    → ((g : ℕ) → gen_of c ≡ some g → gen_of (s.at i) ≡ some g)
    → IsCounted s
    → IsCounted (goes s i c slot)
unfolding goes
goes-IsCounted s i c slot same keeps v = record {
  generation = same ∙ v.generation;
  given = λ j g h. v.given j g (was j g h);
  once = λ j k g w h e. v.once j k g w (was j g h) (was k g e);
}
  where
    was : (j g : ℕ) → gen_of (update s.at i c j) ≡ some g → gen_of (s.at j) ≡ some g
    was j g h = elim (ℕ_discrete i j) [
      | yes e ↦ subst (λ k. gen_of (s.at k) ≡ some g) e (keeps g (rw (e, ==-self j) at h))
      | no w ↦ rw (==-off w) at h
    ]

fetch_add-IsCounted :
    (s : SharedSlot) (i : ℕ) → s.counts + 1 < 2 ^ 32 → IsCounted s → IsCounted (fetch_add s i)
unfolding fetch_add
fetch_add-IsCounted s i room v = record {
  generation = gen;
  given = λ j g h. at_most j g h;
  once = λ j k g w h e. apart j k g w h e;
}
  where
    gen : add32 s.slot.generation_id 1 ≡ suc s.counts
    gen = omega (arith, v.generation, room)

    new : ℕ → Claim
    new = update s.at i (counted (add32 s.slot.generation_id 1))

    at_i : (g : ℕ) → gen_of (new i) ≡ some g → g ≡ suc s.counts
    at_i g h = sym (some_inj (rw (==-self i) at h)) ∙ gen

    at_other : (j g : ℕ) → i ≢ j → gen_of (new j) ≡ some g → gen_of (s.at j) ≡ some g
    at_other j g w h = rw (==-off w) at h

    at_most : (j g : ℕ) → gen_of (new j) ≡ some g → g ≤ suc s.counts
    at_most j g h = elim (ℕ_discrete i j) [
      | yes e ↦ omega (arith, at_i g (subst (λ k. gen_of (new k) ≡ some g) (sym e) h))
      | no w ↦ omega (arith, v.given j g (at_other j g w h))
    ]

    apart : (j k g : ℕ) → j ≢ k → gen_of (new j) ≡ some g → gen_of (new k) ≢ some g
    apart j k g w h e = elim (ℕ_discrete i j) [
      | yes q ↦
          let other = λ (z : i ≡ k). w (sym q ∙ z) in
          absurd (
            omega (
              arith,
              at_i g (subst (λ m. gen_of (new m) ≡ some g) (sym q) h),
              v.given k g (at_other k g other e),
            ))
      | no y ↦ elim (ℕ_discrete i k) [
        | yes q ↦ absurd (
            omega (
              arith,
              at_i g (subst (λ m. gen_of (new m) ≡ some g) (sym q) e),
              v.given j g (at_other j g y h),
            ))
        | no z ↦ v.once j k g w (at_other j g y h) (at_other k g z e)
      ]
    ]

compare_generation-IsCounted :
    (s : SharedSlot) (i gen cursor : ℕ)
    → s.at i ≡ registered gen
    → IsCounted s
    → IsCounted (compare_generation s i gen cursor)
unfolding compare_generation
compare_generation-IsCounted s i gen cursor e v = elim (Bool-cases (s.slot.generation_id == gen)) [
  | inl mine ↦ rw mine (goes-IsCounted s i (advancing gen cursor) _ refl (λ g h. ap gen_of e ∙ h) v)
  | inr lost ↦ rw lost (goes-IsCounted s i unbound _ refl (λ g h. absurd (ground (arith, h))) v)
]

visit-generation :
    (now timeout : ℕ) (s : ReaderSlot) → (visit_slot now timeout s).generation_id ≡ s.generation_id
unfolding visit_slot
visit-generation now timeout s = ground arith

Step-counts : {s t : SharedSlot} → Step s t → s.counts ≤ t.counts
unfolding goes fetch_add compare_generation move_cursor
Step-counts (exchange i e f) = omega arith
Step-counts (count_up i e) = omega arith
Step-counts (store_pid i gen pid e) = omega arith
Step-counts (store_cursor i gen cursor e) = omega arith
Step-counts (store_heartbeat i gen now e) = omega arith
Step-counts {s} (compare i gen cursor e) = ground arith
Step-counts (move i gen cursor e) = omega arith
Step-counts (beat i gen now e) = omega arith
Step-counts (unregister i gen e) = omega arith
Step-counts (visit now timeout) = omega arith

Step-IsCounted : {s t : SharedSlot} → t.counts < 2 ^ 32 → Step s t → IsCounted s → IsCounted t
unfolding fetch_add move_cursor
Step-IsCounted {s} room (exchange i e f) v =
    goes-IsCounted s i claimed _ refl (λ g h. absurd (ground (arith, h))) v
Step-IsCounted {s} room (count_up i e) v = fetch_add-IsCounted s i (omega arith) v
Step-IsCounted {s} room (store_pid i gen pid e) v =
    goes-IsCounted s i (identified gen) _ refl (λ g h. ap gen_of e ∙ h) v
Step-IsCounted {s} room (store_cursor i gen cursor e) v =
    goes-IsCounted s i (placed gen) _ refl (λ g h. ap gen_of e ∙ h) v
Step-IsCounted {s} room (store_heartbeat i gen now e) v =
    goes-IsCounted s i (registered gen) _ refl (λ g h. ap gen_of e ∙ h) v
Step-IsCounted {s} room (compare i gen cursor e) v = compare_generation-IsCounted s i gen cursor e v
Step-IsCounted {s} room (move i gen cursor e) v =
    goes-IsCounted s i (beating gen) _ refl (λ g h. ap gen_of e ∙ h) v
Step-IsCounted {s} room (beat i gen now e) v =
    goes-IsCounted s i (registered gen) _ refl (λ g h. ap gen_of e ∙ h) v
Step-IsCounted {s} room (unregister i gen e) v =
    goes-IsCounted s i unbound _ refl (λ g h. absurd (ground (arith, h))) v
Step-IsCounted {s} room (visit now timeout) v = record {
  generation = visit-generation now timeout s.slot ∙ v.generation;
  given = v.given;
  once = v.once;
}

fresh_slot-IsCounted : IsCounted fresh_slot
fresh_slot-IsCounted = record {
  generation = refl;
  given = λ i g h. absurd (ground (arith, h));
  once = λ i j g w h e. ground (arith, h);
}

Reach-IsCounted : {s : SharedSlot} → Reach fresh_slot s → s.counts < 2 ^ 32 → IsCounted s
Reach-IsCounted here room = fresh_slot-IsCounted
Reach-IsCounted (next r t) room =
    Step-IsCounted room t (Reach-IsCounted r (omega (arith, Step-counts t)))

-- However the atomic accesses of consumers that register, advance and unregister on a slot are
-- mixed, and the producer's evictions with them, the test of the generation in Advance passes for at
-- most one of two registered consumers at a time: where the slot has the generation of one, the
-- compare-exchange of the other fails, leaves the slot as it is and unbinds that consumer, as long
-- as fewer than 2^32 registrations have been counted. Nothing is said of the stores that follow a
-- test that has passed.
pub compare_generation-registered :
    (s : SharedSlot) (i j g g' cursor : ℕ)
    → Reach fresh_slot s
    → s.counts < 2 ^ 32
    → i ≢ j
    → s.at i ≡ registered g
    → s.at j ≡ registered g'
    → s.slot.generation_id ≡ g
    → compare_generation s j g' cursor ≡ goes s j unbound s.slot
unfolding compare_generation
compare_generation-registered s i j g g' cursor r room w e f mine = rw (==-off other) refl
  where
    other : s.slot.generation_id ≢ g'
    other same =
        (Reach-IsCounted r room).once i j g w (ap gen_of e)
          (ap gen_of f ∙ ap some (sym same ∙ mine))
