-- ===== src/Examples/Queues.antt =====
-- A push beside a pop on a ring of four.
use hotpathcplusplus.Base.{ℕ, ◌^◌, ◌≤◌, ◌≡◌, refl, [], ◌∷◌, ◌++◌, length, u64_mod, arith}
use native.Mathlib.Nat.{dvd_of_mod-eq-zero}
use hotpathcplusplus.Spsc.Ring.{new_ring}
use hotpathcplusplus.Spsc.Window.{contents}
use hotpathcplusplus.Spsc.Threads.{
  System, outside, loaded_read, initial, Reach, start, step, load_write, load_read_acquire, fill,
  release_write, load_read, check_room, fill_slot, store_write,
}
use hotpathcplusplus.Spsc.Fifo.{received-sent}

-- The consumer has looked at its index, and the producer has pushed 9.
abbrev pushed : System ℕ
pushed = record {
  ring = record { write_idx = 1; read_idx = 0; slots = 9 ∷ 0 ∷ 0 ∷ 0 ∷ [] };
  pushing = outside;
  popping = loaded_read 0;
  sent = 9 ∷ [];
  received = [];
}

pushed-Reach : Reach {T = ℕ} 2 0 pushed
unfolding initial new_ring check_room fill_slot store_write
pushed-Reach =
    step
      (step
        (step (step (step start (load_write 9 refl)) (load_read refl)) (load_read_acquire 0 9 refl))
        (fill 0 9 refl))
      (release_write 0 9 refl)

received-sent_example :
    (pushed.sent ≡ pushed.received ++ contents 2 0 pushed.ring)
    × (length (contents 2 0 pushed.ring) ≤ 2 ^ 2)
received-sent_example =
    received-sent 2 0 pushed (dvd_of_mod-eq-zero 4 {n = u64_mod} refl) (omega arith) pushed-Reach
