-- ===== src/Examples/Registrations.antt =====
-- Two consumers on one slot, the second after the first was evicted.
use hotpathcplusplus.Base.{ℕ, ◌≡◌, refl, true, false, arith}
use hotpathcplusplus.Ring.Producer.{visit_slot}
use hotpathcplusplus.Ring.Registration.{
  claimed, identified, placed, registered, advancing, SharedSlot, fresh_slot, goes, fetch_add,
  compare_generation, move_cursor, Step, unbound, exchange, count_up, store_pid, store_cursor,
  store_heartbeat, visit, Reach, here, next,
}
use hotpathcplusplus.Ring.Generations.{compare_generation-registered}
use hotpathcplusplus.Ring.Displaced.{register_evicted, move_cursor-registered}

-- the slot and the consumers along the run
abbrev s1 : SharedSlot
unfolding goes
s1 = goes fresh_slot 0 claimed (record fresh_slot.slot { active = true })

abbrev s2 : SharedSlot
unfolding fetch_add
s2 = fetch_add s1 0

abbrev s3 : SharedSlot
unfolding goes
s3 = goes s2 0 (identified 1) (record s2.slot { pid = 70 })

abbrev s4 : SharedSlot
unfolding goes
s4 = goes s3 0 (placed 1) (record s3.slot { cursor = 0 })

abbrev s5 : SharedSlot
unfolding goes
s5 = goes s4 0 (registered 1) (record s4.slot { heartbeat_ts = 5 })

abbrev s6 : SharedSlot
unfolding visit_slot
s6 = record s5 { slot = visit_slot 900 100 s5.slot }

abbrev s7 : SharedSlot
unfolding goes
s7 = goes s6 1 claimed (record s6.slot { active = true })

abbrev s8 : SharedSlot
unfolding fetch_add
s8 = fetch_add s7 1

abbrev s9 : SharedSlot
unfolding goes
s9 = goes s8 1 (identified 2) (record s8.slot { pid = 71 })

abbrev s10 : SharedSlot
unfolding goes
s10 = goes s9 1 (placed 2) (record s9.slot { cursor = 0 })

abbrev s11 : SharedSlot
unfolding goes
s11 = goes s10 1 (registered 2) (record s10.slot { heartbeat_ts = 901 })

s6-Reach : Reach fresh_slot s6
unfolding s1 s2 s3 s4 s5 s6 goes fetch_add visit_slot
s6-Reach =
    next
      (next
        (next
          (next (next (next here (exchange 0 refl refl)) (count_up 0 refl)) (store_pid 0 1 70 refl))
          (store_cursor 0 1 0 refl))
        (store_heartbeat 0 1 5 refl))
      (visit 900 100)

s11-Reach : Reach fresh_slot s11
unfolding s1 s2 s3 s4 s5 s6 s7 s8 s9 s10 s11 goes fetch_add visit_slot
s11-Reach =
    next
      (next
        (next (next (next s6-Reach (exchange 1 refl refl)) (count_up 1 refl))
          (store_pid 1 2 71 refl))
        (store_cursor 1 2 0 refl))
      (store_heartbeat 1 2 901 refl)

-- The first consumer does not know yet that it was evicted.
compare_generation-registered_example : compare_generation s11 0 1 64 ≡ goes s11 0 unbound s11.slot
unfolding s1 s2 s3 s4 s5 s6 s7 s8 s9 s10 s11 goes fetch_add visit_slot
compare_generation-registered_example =
    compare_generation-registered s11 1 0 2 1 64 s11-Reach (omega arith) (omega arith) refl refl
      refl

register_evicted_example :
    let u = goes fresh_slot 0 claimed (record fresh_slot.slot { active = true }) in
    let v : SharedSlot = record u { slot = visit_slot 900 100 u.slot } in
    (gen : ℕ) × (t : SharedSlot) × Step fresh_slot u
    × Step u v
    × (v.slot.active ≡ false)
    × Reach v t
    × (t.at 0 ≡ registered gen)
    × (t.slot.heartbeat_ts ≡ 900)
    × (t.slot.active ≡ false)
register_evicted_example = register_evicted fresh_slot 0 900 100 refl refl refl

-- Consumer 0 is in Advance when it is evicted, and consumer 1 registers.
move_cursor-registered_example :
    (gen : ℕ) × (u : SharedSlot) × Reach s5 u
    × (u.at 0 ≡ advancing 1 64)
    × (u.at 1 ≡ registered gen)
    × (u.slot.generation_id ≡ gen)
    × (u.slot.active ≡ true)
    × (u.slot.cursor ≡ 512)
    × Step u (move_cursor u 0 1 64)
    × ((move_cursor u 0 1 64).at 1 ≡ registered gen)
    × ((move_cursor u 0 1 64).slot.generation_id ≡ gen)
    × ((move_cursor u 0 1 64).slot.active ≡ true)
    × ((move_cursor u 0 1 64).slot.cursor ≡ 64)
unfolding s1 s2 s3 s4 s5 goes fetch_add
move_cursor-registered_example =
    move_cursor-registered s5 0 1 1 900 100 64 512 (omega arith) refl refl refl refl refl
