-- ===== src/Examples/Rings.antt =====
-- The broadcast ring at a small capacity.
use hotpathcplusplus.Base.{
  ℕ, zero, suc, ◌+◌, ◌-◌, ◌^◌, ◌≤◌, ◌<◌, ◌≡◌, refl, ◌⊎◌, inl, Bool, true, false, List, [], ◌∷◌,
  Option, none, some, map, All, replicate, get_elem?, add64, arith,
}
use hotpathcplusplus.Status.{StatusOr, value, not_found}
use hotpathcplusplus.Ring.Types.{
  ReaderSlot, BroadcastReader, RingBuffer, empty_slot, no_reservation, new_reader,
  aligned_payload_size, total_frame_size, SafeMessage,
}
use hotpathcplusplus.Ring.Producer.{
  Environment, visit_min, required_space, backpressure, wait_for_readers, claim, reserve, commit,
  write_payload,
}
use hotpathcplusplus.Ring.Consumer.{
  claimed_slot, claim_slot, register_reader, unregister_reader, poll_copy,
}
use hotpathcplusplus.Ring.Memory.{load, store}
use hotpathcplusplus.Ring.Batch.{
  Look, poll_copy_batch, batch_loop, batch_done, copied, next_frame, advance_batch,
}
use hotpathcplusplus.Ring.Bounds.{poll_copy_batch-value}
use hotpathcplusplus.Ring.Log.{Entry, entry_size, Logged, finish, publish}
use hotpathcplusplus.Ring.Drain.{drain, drain-Logged, message_of}
use hotpathcplusplus.Ring.Refine.{publish-Logged, poll_copy-Logged, quiet, answer}
use hotpathcplusplus.Ring.Backpressure.{From, IsTracked, reserve-From}
use hotpathcplusplus.Ring.Progress.{Clears, reserve-Clears}
use hotpathcplusplus.Ring.Roster.{Displaced, unregister_reader-register_reader}

abbrev slot_at : Bool → ℕ → ℕ → ReaderSlot
slot_at active cursor gen = record {
  active = active;
  cursor = cursor;
  heartbeat_ts = 100;
  pid = 41;
  generation_id = gen;
}

abbrev ring_at : ℕ → ReaderSlot → RingBuffer
ring_at cursor slot = record {
  header = record {
    producer_cursor = cursor;
    commit_cursor = cursor;
    buffer_capacity = 64;
    readers = slot ∷ replicate 15 empty_slot;
  };
  data_buffer = λ a. 0;
  capacity = 64;
  is_producer = true;
  evict_timeout_ns = 5000000000;
  reservation = no_reservation;
  cached_min_cursor = 0;
}

abbrev env : Environment
env = record {
  now = 200;
  tsc = 0;
  rounds = record { tsc = 10; clock = 300; others = λ rs. rs } ∷ [];
  stamp = 400;
}

abbrev empty_ring : RingBuffer
empty_ring = ring_at 0 (slot_at true 0 1)

abbrev words : List ℕ
words = 1 ∷ 2 ∷ 3 ∷ []

abbrev entry : Entry
entry = record { pos = 0; type = 7; stamp = 400; payload = words }

abbrev ring_of : Option (StatusOr (Unit {0}) × RingBuffer) → RingBuffer
ring_of none = empty_ring
ring_of (some (s, r)) = r

abbrev one_frame : RingBuffer
one_frame = ring_of (publish empty_ring 7 words env)

empty-Logged : Logged empty_ring []
empty-Logged = record { roomy = omega arith; settled = refl; entries = tt }

publishes : publish empty_ring 7 words env ≡ some (value tt, one_frame)
unfolding publish finish reserve required_space aligned_payload_size backpressure
publishes = refl

one_frame-Logged : Logged one_frame (entry ∷ [])
one_frame-Logged =
    publish-Logged empty_ring [] 7 words env empty-Logged (omega arith) (omega arith) (omega arith)
      (omega arith) publishes

publish-Logged_example : Logged one_frame (entry ∷ [])
publish-Logged_example =
    publish-Logged empty_ring [] 7 words env empty-Logged (omega arith) (omega arith) (omega arith)
      (omega arith) publishes

one_frame_cursor : one_frame.header.producer_cursor < 2 ^ 64
unfolding publish finish reserve required_space aligned_payload_size backpressure claim commit
    write_payload
one_frame_cursor = omega arith

new_reader_cursor : (new_reader 0).cursor ≡ 0
unfolding new_reader
new_reader_cursor = refl

poll_copy-Logged_example :
    poll_copy one_frame (new_reader 0) (quiet one_frame ∷ []) ≡ some (answer one_frame entry)
poll_copy-Logged_example =
    poll_copy-Logged one_frame (entry ∷ []) entry (new_reader 0) [] one_frame-Logged
      one_frame_cursor (inl refl) new_reader_cursor

-- Two polls read the frame and find the end.
one_frame_end : one_frame.header.producer_cursor ≡ 0 + entry_size words
unfolding publish finish reserve required_space aligned_payload_size backpressure claim commit
    write_payload
one_frame_end = refl

drain-Logged_example : drain 2 one_frame (new_reader 0) ≡ record {
  messages = map message_of (entry ∷ []);
  ended = some not_found;
  reader = record (new_reader 0) { cursor = one_frame.header.producer_cursor };
}
unfolding publish reserve aligned_payload_size backpressure commit write_payload claim
drain-Logged_example =
    drain-Logged one_frame (entry ∷ []) 2 (new_reader 0) one_frame-Logged one_frame_cursor
      (omega arith) new_reader_cursor (omega (arith, one_frame_end, new_reader_cursor))
      (omega arith)

From-replicate : (low n : ℕ) → From low (replicate n empty_slot)
From-replicate low zero = tt
From-replicate low (suc n) = (λ e. ground arith, From-replicate low n)

abbrev full : RingBuffer
full = ring_at 64 (slot_at true 64 1)

full-IsTracked : IsTracked full
full-IsTracked = record { behind = omega arith; tracked = (λ e. omega arith, From-replicate 0 15) }

abbrev reserved_ring : Option (StatusOr ℕ × RingBuffer) → RingBuffer
reserved_ring none = full
reserved_ring (some (s, r)) = r

abbrev after_reserve : RingBuffer
after_reserve = reserved_ring (reserve full 3 7 env)

reserves : reserve full 3 7 env ≡ some (value 24, after_reserve)
unfolding reserve required_space aligned_payload_size backpressure wait_for_readers visit_min
reserves = refl

full_room : full.header.producer_cursor + required_space 3 < 2 ^ 64
unfolding required_space aligned_payload_size
full_room = omega arith

reserve-From_example :
    IsTracked after_reserve
    × (after_reserve.header.producer_cursor ≡ full.header.producer_cursor + required_space 3)
    × All
        (λ s. s.active ≡ true → after_reserve.header.producer_cursor ≤ s.cursor + full.capacity)
        after_reserve.header.readers
reserve-From_example = reserve-From full 3 7 env full-IsTracked full_room reserves

replicate-clear :
    (n : ℕ)
    → All
        (λ s. s.active ≡ true → ((96 ≤ s.cursor + 64) ⊎ (5000000000 < 200 - s.heartbeat_ts)))
        (replicate n empty_slot)
replicate-clear zero = tt
replicate-clear (suc n) = (λ e. ground arith, replicate-clear n)

full_fits : required_space 3 ≤ full.capacity
unfolding required_space aligned_payload_size
full_fits = omega arith

full-Clears :
    Clears full.capacity
      (add64 full.header.producer_cursor (required_space 3))
      full.evict_timeout_ns
      env.now
      env.tsc
      full.header.readers
      env.rounds
unfolding required_space aligned_payload_size
full-Clears = inl ((λ e. inl (omega arith)), replicate-clear 15)

reserve-Clears_example : (a : ℕ) × (r1 : RingBuffer) × (reserve full 3 7 env ≡ some (value a, r1))
reserve-Clears_example = reserve-Clears full 3 7 env refl full_fits full-Clears

-- A reader that was evicted from slot 0, and a new one that registers.
abbrev evicted_ring : RingBuffer
evicted_ring = ring_at 64 (slot_at false 0 1)

abbrev old_reader : BroadcastReader
old_reader = record { cursor = 8; slot_index = some 0; generation_id = 1 }

abbrev fresh_reader : BroadcastReader
fresh_reader = record { cursor = 64; slot_index = none; generation_id = 0 }

abbrev registration : StatusOr (Unit {0}) × RingBuffer × BroadcastReader
registration = register_reader evicted_ring fresh_reader 42 500

registers : registration ≡ (value tt, registration.1, registration.2)
unfolding register_reader claim_slot
registers = refl

registers_here : registration.2.slot_index ≡ some 0
unfolding register_reader claim_slot
registers_here = refl

old-Displaced : Displaced evicted_ring old_reader (slot_at false 0 1) 0
old-Displaced = record { holds = refl; slot = refl; same = refl; fits = omega arith }

unregister_reader-register_reader_example :
    (get_elem? registration.1.header.readers 0 ≡ some (claimed_slot (slot_at false 0 1) 64 42 500))
    × (get_elem? (unregister_reader registration.1 old_reader).0.header.readers 0
        ≡ some (record (claimed_slot (slot_at false 0 1) 64 42 500) { active = false }))
unregister_reader-register_reader_example =
    unregister_reader-register_reader evicted_ring old_reader fresh_reader (slot_at false 0 1) 0 42
      500 registration.1 registration.2 old-Displaced (omega arith) registers registers_here

abbrev two_slots : List ReaderSlot
two_slots = slot_at true 8 1 ∷ slot_at false 0 1 ∷ []

abbrev glance : Look
glance = record {
  prod = one_frame.header.producer_cursor;
  seen = one_frame.data_buffer;
  after = one_frame.data_buffer;
  late = one_frame.data_buffer;
}

abbrev batch_of :
    Option (StatusOr ℕ × RingBuffer × BroadcastReader × List SafeMessage)
    → StatusOr ℕ × RingBuffer × BroadcastReader × List SafeMessage
batch_of none = (value 0, one_frame, new_reader 0, [])
batch_of (some q) = q

abbrev batch : StatusOr ℕ × RingBuffer × BroadcastReader × List SafeMessage
batch = batch_of (poll_copy_batch one_frame (new_reader 0) 5 [] (glance ∷ []) 700)

batch_polls : poll_copy_batch one_frame (new_reader 0) 5 [] (glance ∷ []) 700 ≡ some batch
unfolding publish finish reserve required_space aligned_payload_size backpressure claim commit
    write_payload new_reader poll_copy_batch batch_loop load store next_frame copied
    total_frame_size
batch_polls = refl

batch_counts : batch.0 ≡ value 1
unfolding publish finish reserve required_space aligned_payload_size backpressure claim commit
    write_payload new_reader poll_copy_batch batch_loop batch_done copied next_frame advance_batch
    load store total_frame_size
batch_counts = refl

poll_copy_batch-value_example : (0 < 1) × (1 ≤ 5)
poll_copy_batch-value_example =
    poll_copy_batch-value one_frame (new_reader 0) 5 [] (glance ∷ []) 700 1 batch_polls batch_counts
