-- ===== src/StoreBuffers/Checksum.antt =====
-- The consumer's steps of the hand-off, and what its checksum is.
use hotpathcplusplus.Base.{
  ℕ, ◌+◌, ◌-◌, ◌<◌, ◌≤◌, ◌≡◌, refl, sym, ap, ap₂, subst, ◌∙◌, Bool, List, [], ◌∷◌, ◌++◌, bit_xor,
  add64, u64_mod, All, arith,
}
use hotpathcplusplus.StoreBuffers.Handoff.{
  Slot, Store, store_write, apply_store, waiting, publishing, Consuming, polling, reading_a,
  reading_b, acknowledging, Handoff, payload, slot_of, Step, has_room, fill_a, fill_b,
  publish_release, publish_seq_cst, has_message, read_a, read_b, acknowledge_release,
  acknowledge_seq_cst, drain_store, drain_ack, Reach, start, step, expected,
}
use hotpathcplusplus.StoreBuffers.Pending.{final, Drains-Shows, Drains-later}
use hotpathcplusplus.StoreBuffers.Delivery.{
  last_ack, last_ack-append, All-append, All-later, expected-next, ConsumingAt, InOrder,
  ProducingAt-later, has_room-InOrder, appended, fill_a-InOrder, fill_b-InOrder, publish-InOrder,
  drain_store-InOrder,
}

module _ (ring_size message_count : ℕ) where
  module _ (m : Handoff) (v : InOrder ring_size message_count m) where
    -- The consumer looks or loads.
    consume-InOrder :
        (c : Consuming) (checksum : ℕ)
        → ConsumingAt ring_size message_count m.receiving m.mem.write_idx checksum c
        → InOrder ring_size message_count (record m { consuming = c; checksum = checksum })
    consume-InOrder c checksum at = record {
      drains = v.drains;
      published = v.published;
      read_before = v.read_before;
      acks_before = v.acks_before;
      acked = v.acked;
      received = v.received;
      within = v.within;
      producing_at = v.producing_at;
      consuming_at = at;
    }

    pub knows :
        (c : Consuming)
        → m.consuming ≡ c
        → ConsumingAt ring_size message_count m.receiving m.mem.write_idx m.checksum c
    knows c e =
        subst (ConsumingAt ring_size message_count m.receiving m.mem.write_idx m.checksum) e
          v.consuming_at

    -- the message in its slot
    message_there :
        m.receiving ≤ m.mem.write_idx
        → m.mem.buffer (slot_of ring_size m.receiving) ≡ payload m.receiving
    message_there le =
        Drains-Shows ring_size m.receiving m.mem m.pending v.drains m.receiving (omega arith)
          (omega (arith, v.read_before)) le

    has_message-InOrder :
        m.consuming ≡ polling
        → m.receiving ≤ m.mem.write_idx
        → InOrder ring_size message_count (record m { consuming = reading_a })
    has_message-InOrder e le = consume-InOrder reading_a m.checksum (le, (knows polling e).1)

    read_a-InOrder :
        m.consuming ≡ reading_a
        → InOrder ring_size message_count (record m {
          consuming = reading_b (m.mem.buffer (slot_of ring_size m.receiving)).payload_a;
        })
    read_a-InOrder e =
        let (le, sum) = knows reading_a e in
        consume-InOrder (reading_b (m.mem.buffer (slot_of ring_size m.receiving)).payload_a)
          m.checksum (le, sum, ap (λ (s : Slot). s.payload_a) (message_there le))

    read_b-InOrder :
        (a : ℕ)
        → m.consuming ≡ reading_b a
        → InOrder ring_size message_count (record m {
          consuming = acknowledging;
          checksum =
              add64 m.checksum (bit_xor a (m.mem.buffer (slot_of ring_size m.receiving)).payload_b);
        })
    read_b-InOrder a e =
        let (le, sum, first) = knows (reading_b a) e in
        consume-InOrder acknowledging _ (
          le,
          ap₂ add64 sum (ap₂ bit_xor first (ap (λ (s : Slot). s.payload_b) (message_there le)))
              ∙ sym (expected-next m.receiving (omega (arith, v.read_before))),
        )

    abbrev acknowledged : Handoff
    acknowledged = record m {
      consuming = polling;
      receiving = m.receiving + 1;
      acks = m.acks ++ m.receiving ∷ [];
    }

    acknowledge-InOrder : m.consuming ≡ acknowledging → InOrder ring_size message_count acknowledged
    acknowledge-InOrder e =
        let (le, sum) = knows acknowledging e in
        record {
          drains = Drains-later ring_size m.receiving m.mem m.pending v.drains;
          published = v.published;
          read_before = omega (arith, v.read_before);
          acks_before =
              All-append (m.receiving + 1) m.receiving m.acks (omega arith)
                (All-later m.receiving m.acks v.acks_before);
          acked = ap (λ (a : ℕ). a + 1) (last_ack-append m.read_idx m.receiving m.acks);
          received = omega arith;
          within = v.within;
          producing_at =
              ProducingAt-later ring_size message_count m.sending m.receiving
                (final m.mem m.pending) m.producing v.producing_at;
          consuming_at = (tt, sum ∙ ap expected (omega arith));
        }

    drain_ack-InOrder :
        (r : ℕ) (rest : List ℕ)
        → m.acks ≡ r ∷ rest
        → InOrder ring_size message_count (record m { read_idx = r; acks = rest })
    drain_ack-InOrder r rest e =
        let (here, there) = subst (All (λ (a : ℕ). a < m.receiving)) e v.acks_before in
        record {
          drains = v.drains;
          published = v.published;
          read_before = here;
          acks_before = there;
          acked = sym (ap (λ (acks : List ℕ). last_ack m.read_idx acks + 1) e) ∙ v.acked;
          received = v.received;
          within = v.within;
          producing_at = v.producing_at;
          consuming_at = v.consuming_at;
        }

  -- A sequentially consistent store is one that drains at once from an empty buffer.
  publish_seq_cst-InOrder :
      (m : Handoff)
      → InOrder ring_size message_count m
      → m.producing ≡ publishing
      → m.pending ≡ []
      → InOrder ring_size message_count (record m {
        producing = waiting;
        sending = m.sending + 1;
        mem = apply_store m.mem (store_write m.sending);
      })
  publish_seq_cst-InOrder m v e empty =
      subst
        (λ (p : List Store). InOrder ring_size message_count (record m {
          producing = waiting;
          sending = m.sending + 1;
          mem = apply_store m.mem (store_write m.sending);
          pending = p;
        }))
        (sym empty)
        (drain_store-InOrder ring_size message_count
          (appended ring_size message_count m v (store_write m.sending) (m.sending + 1) waiting)
          (publish-InOrder ring_size message_count m v e) (store_write m.sending) []
          (ap (λ (p : List Store). p ++ store_write m.sending ∷ []) empty))

  acknowledge_seq_cst-InOrder :
      (m : Handoff)
      → InOrder ring_size message_count m
      → m.consuming ≡ acknowledging
      → m.acks ≡ []
      → InOrder ring_size message_count
          (record m { consuming = polling; receiving = m.receiving + 1; read_idx = m.receiving })
  acknowledge_seq_cst-InOrder m v e empty =
      subst
        (λ (acks : List ℕ). InOrder ring_size message_count (record m {
          consuming = polling;
          receiving = m.receiving + 1;
          read_idx = m.receiving;
          acks = acks;
        }))
        (sym empty)
        (drain_ack-InOrder (acknowledged m v) (acknowledge-InOrder m v e) m.receiving []
          (ap (λ (acks : List ℕ). acks ++ m.receiving ∷ []) empty))

  module _ (small : message_count < u64_mod) where
    pub Step-InOrder :
        {b : Bool} {m t : Handoff}
        → Step ring_size message_count b m t
        → InOrder ring_size message_count m
        → InOrder ring_size message_count t
    Step-InOrder {m} (has_room p le room) v =
        has_room-InOrder ring_size message_count m v le small room
    Step-InOrder {m} (fill_a p) v = fill_a-InOrder ring_size message_count m v p
    Step-InOrder {m} (fill_b p) v = fill_b-InOrder ring_size message_count m v p
    Step-InOrder {m} (publish_release b p) v = publish-InOrder ring_size message_count m v p
    Step-InOrder {m} (publish_seq_cst b p e) v = publish_seq_cst-InOrder m v p e
    Step-InOrder {m} (has_message p le up) v = has_message-InOrder m v p up
    Step-InOrder {m} (read_a p) v = read_a-InOrder m v p
    Step-InOrder {m} (read_b a p) v = read_b-InOrder m v a p
    Step-InOrder {m} (acknowledge_release b p) v = acknowledge-InOrder m v p
    Step-InOrder {m} (acknowledge_seq_cst b p e) v = acknowledge_seq_cst-InOrder m v p e
    Step-InOrder {m} (drain_store s rest e) v =
        drain_store-InOrder ring_size message_count m v s rest e
    Step-InOrder {m} (drain_ack r rest e) v = drain_ack-InOrder m v r rest e

    pub Reach-InOrder :
        {b : Bool} {m : Handoff}
        → Reach ring_size message_count b m
        → InOrder ring_size message_count m
    unfolding expected
    Reach-InOrder start = record {
      drains = (tt, λ k le pos up. absurd (omega arith));
      published = refl;
      read_before = omega arith;
      acks_before = tt;
      acked = refl;
      received = omega arith;
      within = omega arith;
      producing_at = tt;
      consuming_at = (tt, refl);
    }
    Reach-InOrder (step r s) = Step-InOrder s (Reach-InOrder r)

  -- The consumer waits for a message, after any interleaving with the producer and any delay of their
  -- stores, with either kind of store: its checksum is that of the messages before, each taken once and
  -- in order. The number of messages is below 2^64.
  pub checksum-expected :
      (b : Bool) (m : Handoff)
      → message_count < u64_mod
      → Reach ring_size message_count b m
      → m.consuming ≡ polling
      → m.checksum ≡ expected (m.receiving - 1)
  checksum-expected b m small r e = (knows m (Reach-InOrder small r) polling e).1
