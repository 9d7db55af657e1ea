-- ===== src/StoreBuffers/Handoff.antt =====
-- RunProducerConsumerHandoff (common/store_buffer/challenge.cc) on the machine of
-- StoreBuffers.Litmus: the stores of each thread reach the other in order, and late. The indices of
-- the two loops are fields, and a failed test of a `while` loop leaves the state as it is.
use hotpathcplusplus.Base.{
  ℕ, suc, zero, ◌+◌, ◌-◌, ◌%◌, ◌<◌, ◌≤◌, ◌≡◌, Bool, true, false, List, [], ◌∷◌, ◌++◌, bit_xor,
  add64, sub64, mul64, update,
}

pub record Slot : Type 0 where
  pub payload_a : ℕ
  pub payload_b : ℕ

-- What the producer writes and the consumer reads.
pub record Shared : Type 0 where
  pub buffer : ℕ → Slot
  pub write_idx : ℕ

pub data Store : Type 0 where
  store_a store_b : (slot value : ℕ) → Store
  store_write : ℕ → Store

abbrev pub apply_store : Shared → Store → Shared
apply_store mem (store_a s v) = record mem {
  buffer = update mem.buffer s (record (mem.buffer s) { payload_a = v });
}
apply_store mem (store_b s v) = record mem {
  buffer = update mem.buffer s (record (mem.buffer s) { payload_b = v });
}
apply_store mem (store_write v) = record mem { write_idx = v }

-- In the loop of the producer: before the test for room, each of the three stores.
pub data Producing : Type 0 where
  waiting filling_a filling_b publishing : Producing

-- In the loop of the consumer: before the test for a message, the loads of the two payloads, and
-- the store of `read_idx`.
pub data Consuming : Type 0 where
  polling reading_a : Consuming
  reading_b : (a : ℕ) → Consuming
  acknowledging : Consuming

pub record Handoff : Type 0 where
  pub mem : Shared
  pub read_idx : ℕ
  pub pending : List Store
  pub acks : List ℕ
  pub sending : ℕ
  pub producing : Producing
  pub receiving : ℕ
  pub consuming : Consuming
  pub checksum : ℕ

abbrev pub empty_slot : Slot
empty_slot = record { payload_a = 0; payload_b = 0 }

abbrev pub initial : Handoff
initial = record {
  mem = record { buffer = λ s. empty_slot; write_idx = 0 };
  read_idx = 0;
  pending = [];
  acks = [];
  sending = 1;
  producing = waiting;
  receiving = 1;
  consuming = polling;
  checksum = 0;
}

-- `i * 3` and `i ^ 0x5A5A5A5AULL`
abbrev pub payload : ℕ → Slot
payload i = record { payload_a = mul64 i 3; payload_b = bit_xor i 1515870810 }

-- `(i - 1) & (kRingSize - 1)`, for a power of two
abbrev pub slot_of : (ring_size i : ℕ) → ℕ
slot_of ring_size i = (i - 1) % ring_size

-- One step, in a ring of `ring_size` slots and for `message_count` messages.
module _ (ring_size message_count : ℕ) where
  pub data Step (use_acquire_release : Bool) (m : Handoff) : Handoff → Type 0 where
    has_room :
        m.producing ≡ waiting
        → m.sending ≤ message_count
        → sub64 (sub64 m.sending 1) m.read_idx < ring_size
        → Step use_acquire_release m (record m { producing = filling_a })
    fill_a :
        m.producing ≡ filling_a
        → Step use_acquire_release m (record m {
          producing = filling_b;
          pending =
              m.pending ++ store_a (slot_of ring_size m.sending) (payload m.sending).payload_a ∷ [];
        })
    fill_b :
        m.producing ≡ filling_b
        → Step use_acquire_release m (record m {
          producing = publishing;
          pending =
              m.pending ++ store_b (slot_of ring_size m.sending) (payload m.sending).payload_b ∷ [];
        })
    publish_release :
        use_acquire_release ≡ true
        → m.producing ≡ publishing
        → Step use_acquire_release m (record m {
          producing = waiting;
          sending = m.sending + 1;
          pending = m.pending ++ store_write m.sending ∷ [];
        })
    publish_seq_cst :
        use_acquire_release ≡ false
        → m.producing ≡ publishing
        → m.pending ≡ []
        → Step use_acquire_release m (record m {
          producing = waiting;
          sending = m.sending + 1;
          mem = apply_store m.mem (store_write m.sending);
        })
    has_message :
        m.consuming ≡ polling
        → m.receiving ≤ message_count
        → m.receiving ≤ m.mem.write_idx
        → Step use_acquire_release m (record m { consuming = reading_a })
    read_a :
        m.consuming ≡ reading_a
        → Step use_acquire_release m (record m {
          consuming = reading_b (m.mem.buffer (slot_of ring_size m.receiving)).payload_a;
        })
    read_b :
        (a : ℕ)
        → m.consuming ≡ reading_b a
        → Step use_acquire_release m (record m {
          consuming = acknowledging;
          checksum =
              add64 m.checksum (bit_xor a (m.mem.buffer (slot_of ring_size m.receiving)).payload_b);
        })
    acknowledge_release :
        use_acquire_release ≡ true
        → m.consuming ≡ acknowledging
        → Step use_acquire_release m (record m {
          consuming = polling;
          receiving = m.receiving + 1;
          acks = m.acks ++ m.receiving ∷ [];
        })
    acknowledge_seq_cst :
        use_acquire_release ≡ false
        → m.consuming ≡ acknowledging
        → m.acks ≡ []
        → Step use_acquire_release m
            (record m { consuming = polling; receiving = m.receiving + 1; read_idx = m.receiving })
    drain_store :
        (s : Store) (rest : List Store)
        → m.pending ≡ s ∷ rest
        → Step use_acquire_release m (record m { mem = apply_store m.mem s; pending = rest })
    drain_ack :
        (r : ℕ) (rest : List ℕ)
        → m.acks ≡ r ∷ rest
        → Step use_acquire_release m (record m { read_idx = r; acks = rest })

  pub data Reach (use_acquire_release : Bool) : Handoff → Type 0 where
    start : Reach use_acquire_release initial
    step :
        {m n : Handoff}
        → Reach use_acquire_release m
        → Step use_acquire_release m n
        → Reach use_acquire_release n

-- The checksum of the first `n` messages.
unfoldable pub expected : ℕ → ℕ
expected zero = 0
expected (suc i) =
    add64 (expected i) (bit_xor (payload (suc i)).payload_a (payload (suc i)).payload_b)
