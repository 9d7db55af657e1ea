-- ===== src/Ring/Displaced.antt =====
-- Consumers that the producer evicts in the middle of RegisterReader or of Advance.
use hotpathcplusplus.Base.{
  ℕ, ◌≡◌, ◌≢◌, refl, sym, subst, ◌∙◌, true, false, update, add32, arith, ==-self, ==-off,
}
use hotpathcplusplus.Ring.Types.{ReaderSlot}
use hotpathcplusplus.Ring.Producer.{visit_slot, is_stale}
use hotpathcplusplus.Ring.Registration.{
  Claim, unbound, claimed, counted, identified, placed, registered, advancing, SharedSlot, goes,
  fetch_add, compare_generation, move_cursor, Step, exchange, count_up, store_pid, store_cursor,
  store_heartbeat, compare, move, visit, Reach, here, next,
}

update-at : (f : ℕ → Claim) (i : ℕ) (c : Claim) → update f i c i ≡ c
update-at f i c = ground (arith, ==-self i)

update-off : (f : ℕ → Claim) (i j : ℕ) (c : Claim) → i ≢ j → update f i c j ≡ f j
update-off f i j c w = rw (==-off w) refl

visited_inactive :
    (now timeout : ℕ) (s : ReaderSlot)
    → s.active ≡ true
    → is_stale now timeout s ≡ true
    → (visit_slot now timeout s).active ≡ false
unfolding visit_slot
visited_inactive now timeout s act h = rw (act, h) refl

-- the states of a consumer's registration after the exchange, and the last of them
module _ (s : SharedSlot) (i pid cursor now : ℕ) where
  abbrev gen : ℕ
  gen = add32 s.slot.generation_id 1

  abbrev with_gen : SharedSlot
  unfolding fetch_add
  with_gen = fetch_add s i

  abbrev with_pid : SharedSlot
  unfolding goes
  with_pid = goes with_gen i (identified gen) (record with_gen.slot { pid = pid })

  abbrev with_cursor : SharedSlot
  unfolding goes
  with_cursor = goes with_pid i (placed gen) (record with_pid.slot { cursor = cursor })

  abbrev with_heartbeat : SharedSlot
  unfolding goes
  with_heartbeat =
      goes with_cursor i (registered gen) (record with_cursor.slot { heartbeat_ts = now })

  registering : s.at i ≡ claimed → Reach s with_heartbeat
  unfolding goes fetch_add
  registering e =
      let one : Reach s with_gen = next here (count_up i e) in
      let two : Reach s with_pid =
        next one (store_pid i gen pid (update-at s.at i (counted gen))) in
      let three : Reach s with_cursor =
        next two (store_cursor i gen cursor (update-at with_gen.at i (identified gen))) in
      next three (store_heartbeat i gen now (update-at with_pid.at i (placed gen)))

Reach-trans : {s t u : SharedSlot} → Reach s t → Reach t u → Reach s u
Reach-trans r here = r
Reach-trans r (next q st) = next (Reach-trans r q) st

-- RegisterReader can report success for a slot that the producer took from it half way. On a slot
-- with a stale heartbeat and nobody on it, `u` is the state after a consumer's exchange and `v` the
-- state after the producer's look at `u`, which evicts the consumer. The rest of RegisterReader,
-- whose heartbeat is of the same instant as that look, ends with the consumer registered and the
-- slot inactive.
pub register_evicted :
    (s : SharedSlot) (i now timeout : ℕ)
    → s.at i ≡ unbound
    → s.slot.active ≡ false
    → is_stale now timeout s.slot ≡ true
    → let u = goes s i claimed (record s.slot { active = true }) in
      let v : SharedSlot = record u { slot = visit_slot now timeout u.slot } in
      (gen : ℕ) × (t : SharedSlot) × Step s u
      × Step u v
      × (v.slot.active ≡ false)
      × Reach v t
      × (t.at i ≡ registered gen)
      × (t.slot.heartbeat_ts ≡ now)
      × (t.slot.active ≡ false)
unfolding goes fetch_add
register_evicted s i now timeout e idle stale =
    let u = goes s i claimed (record s.slot { active = true }) in
    let v : SharedSlot = record u { slot = visit_slot now timeout u.slot } in
    let gone = visited_inactive now timeout u.slot refl stale in
    (
      gen v i 0 0 now,
      with_heartbeat v i 0 0 now,
      exchange i e idle,
      visit now timeout,
      gone,
      registering v i 0 0 now (update-at s.at i claimed),
      update-at (with_cursor v i 0 0 now).at i _,
      refl,
      gone,
    )

passes :
    (s : SharedSlot) (g mine i : ℕ)
    → s.at i ≡ registered g
    → s.slot.generation_id ≡ g
    → Step s (goes s i (advancing g mine) s.slot)
unfolding compare_generation
passes s g mine i e same = subst (Step s) (rw (same, ==-self g) refl) (compare i g mine e)

kept :
    (i j : ℕ) (f : ℕ → Claim) {c : Claim} (a b d x y : Claim)
    → f i ≡ c
    → j ≢ i
    → update (update (update (update (update f j a) j b) j d) j x) j y i ≡ c
kept i j f a b d x y h z = rw (==-off z) h

-- Advance can overwrite the cursor of another consumer's registration. Consumer `i` is registered
-- on an active slot with a stale heartbeat, and its test of the generation passes. Before its store
-- of the cursor the producer evicts it and consumer `j` registers, which is the reachable state `u`.
-- The store of `i` then puts its own cursor in the place of that of `j`, on a slot that is active
-- and has the generation of `j`.
pub move_cursor-registered :
    (s : SharedSlot) (i j g now timeout : ℕ) (mine theirs : ℕ)
    → i ≢ j
    → s.at i ≡ registered g
    → s.at j ≡ unbound
    → s.slot.generation_id ≡ g
    → s.slot.active ≡ true
    → is_stale now timeout s.slot ≡ true
    → (gen : ℕ) × (u : SharedSlot) × Reach s u
      × (u.at i ≡ advancing g mine)
      × (u.at j ≡ registered gen)
      × (u.slot.generation_id ≡ gen)
      × (u.slot.active ≡ true)
      × (u.slot.cursor ≡ theirs)
      × Step u (move_cursor u i g mine)
      × ((move_cursor u i g mine).at j ≡ registered gen)
      × ((move_cursor u i g mine).slot.generation_id ≡ gen)
      × ((move_cursor u i g mine).slot.active ≡ true)
      × ((move_cursor u i g mine).slot.cursor ≡ mine)
unfolding goes fetch_add move_cursor
move_cursor-registered s i j g now timeout mine theirs w e f same act stale =
    let s1 = goes s i (advancing g mine) s.slot in
    let s2 : SharedSlot = record s1 { slot = visit_slot now timeout s1.slot } in
    let s3 = goes s2 j claimed (record s2.slot { active = true }) in
    let u = with_heartbeat s3 j 0 theirs now in
    let off : s1.at j ≡ unbound = update-off s.at i j (advancing g mine) w ∙ f in
    let other : j ≢ i = λ z. w (sym z) in
    let tested : Reach s s1 = next here (passes s g mine i e same) in
    let evicted : Reach s s2 = next tested (visit now timeout) in
    let entered : Reach s s3 =
      next evicted (exchange j off (visited_inactive now timeout s.slot act stale)) in
    let in_advance : u.at i ≡ advancing g mine =
      kept i j s1.at _ _ _ _ _ (update-at s.at i _) other in
    (
      gen s3 j 0 theirs now,
      u,
      Reach-trans entered (registering s3 j 0 theirs now (update-at s2.at j claimed)),
      in_advance,
      update-at (with_cursor s3 j 0 theirs now).at j _,
      refl,
      refl,
      refl,
      move i g mine in_advance,
      update-off u.at i j _ w ∙ update-at (with_cursor s3 j 0 theirs now).at j _,
      refl,
      refl,
      refl,
    )
