-- ===== src/StoreBuffers/Delivery.antt =====
-- The hand-off delivers every message once and in order, with either kind of store.
use hotpathcplusplus.Base.{
  ℕ, suc, zero, ◌+◌, ◌-◌, ◌<◌, ◌≤◌, ◌≡◌, refl, sym, ap, subst, ◌∙◌, List, [], ◌∷◌, ◌++◌, bit_xor,
  add64, sub64, u64_mod, All, arith, ==-self, if_true,
}
use hotpathcplusplus.StoreBuffers.Handoff.{
  Slot, Shared, Store, store_a, store_b, store_write, apply_store, Producing, waiting, filling_a,
  filling_b, publishing, Consuming, polling, reading_a, reading_b, acknowledging, Handoff, payload,
  slot_of, expected,
}
use hotpathcplusplus.StoreBuffers.Pending.{
  final, final-append, Shows, Drains, Drains-le, Drains-append, Drains-final, Shows-a, Shows-b,
  Shows-write,
}

-- the value of `read_idx` when the consumer's buffer has drained
abbrev pub last_ack : ℕ → List ℕ → ℕ
last_ack r [] = r
last_ack r (a ∷ acks) = last_ack a acks

pub last_ack-append : (r a : ℕ) (acks : List ℕ) → last_ack r (acks ++ a ∷ []) ≡ a
last_ack-append r a [] = refl
last_ack-append r a (b ∷ acks) = last_ack-append b a acks

pub All-append :
    (n a : ℕ) (acks : List ℕ) → a < n → All (λ r. r < n) acks → All (λ r. r < n) (acks ++ a ∷ [])
All-append n a [] h all = (h, tt)
All-append n a (b ∷ acks) h (here, there) = (here, All-append n a acks h there)

pub All-later : (n : ℕ) (acks : List ℕ) → All (λ r. r < n) acks → All (λ r. r < n + 1) acks
All-later n [] all = tt
All-later n (b ∷ acks) (here, there) = (omega arith, All-later n acks there)

-- the next message in the checksum
pub expected-next :
    (i : ℕ)
    → 0 < i
    → expected i ≡ add64 (expected (i - 1)) (bit_xor (payload i).payload_a (payload i).payload_b)
unfolding expected
expected-next zero h = absurd (omega arith)
expected-next (suc i) h =
    ap
      (λ (j : ℕ).
        add64 (expected j) (bit_xor (payload (suc i)).payload_a (payload (suc i)).payload_b))
      (omega arith)

module _ (ring_size message_count : ℕ) where
  -- What the producer knows of the slot that it fills, with its buffer drained.
  abbrev pub ProducingAt : (sending receiving : ℕ) → Shared → Producing → Type 0
  ProducingAt sending receiving mem waiting = Unit
  ProducingAt sending receiving mem filling_a =
      (sending ≤ message_count) × (sending < receiving + ring_size)
  ProducingAt sending receiving mem filling_b =
      (sending ≤ message_count)
      × (sending < receiving + ring_size)
      × ((mem.buffer (slot_of ring_size sending)).payload_a ≡ (payload sending).payload_a)
  ProducingAt sending receiving mem publishing =
      (sending ≤ message_count)
      × (sending < receiving + ring_size)
      × (mem.buffer (slot_of ring_size sending) ≡ payload sending)

  -- What the consumer knows of the message that it takes.
  abbrev pub ConsumingAt : (receiving write_idx checksum : ℕ) → Consuming → Type 0
  ConsumingAt receiving write_idx checksum polling =
      Unit {0} × (checksum ≡ expected (receiving - 1))
  ConsumingAt receiving write_idx checksum reading_a =
      (receiving ≤ write_idx) × (checksum ≡ expected (receiving - 1))
  ConsumingAt receiving write_idx checksum (reading_b a) =
      (receiving ≤ write_idx)
      × (checksum ≡ expected (receiving - 1))
      × (a ≡ (payload receiving).payload_a)
  ConsumingAt receiving write_idx checksum acknowledging =
      (receiving ≤ write_idx) × (checksum ≡ expected receiving)

  pub record InOrder (m : Handoff) : Type 0 where
    pub drains : Drains ring_size m.receiving m.mem m.pending
    pub published : (final m.mem m.pending).write_idx + 1 ≡ m.sending
    pub read_before : m.read_idx < m.receiving
    pub acks_before : All (λ r. r < m.receiving) m.acks
    pub acked : last_ack m.read_idx m.acks + 1 ≡ m.receiving
    pub received : m.receiving ≤ m.mem.write_idx + 1
    pub within : m.sending ≤ message_count + 1
    pub producing_at : ProducingAt m.sending m.receiving (final m.mem m.pending) m.producing
    pub consuming_at : ConsumingAt m.receiving m.mem.write_idx m.checksum m.consuming

  -- The consumer goes on, or more is published.
  pub ProducingAt-later :
      (sending receiving : ℕ) (mem : Shared) (p : Producing)
      → ProducingAt sending receiving mem p
      → ProducingAt sending (receiving + 1) mem p
  ProducingAt-later sending receiving mem waiting h = tt
  ProducingAt-later sending receiving mem filling_a (a, b) = (a, omega arith)
  ProducingAt-later sending receiving mem filling_b (a, b, c) = (a, omega arith, c)
  ProducingAt-later sending receiving mem publishing (a, b, c) = (a, omega arith, c)

  pub ConsumingAt-grow :
      (receiving write_idx write_idx' checksum : ℕ) (c : Consuming)
      → write_idx ≤ write_idx'
      → ConsumingAt receiving write_idx checksum c
      → ConsumingAt receiving write_idx' checksum c
  ConsumingAt-grow receiving w w' checksum polling le h = h
  ConsumingAt-grow receiving w w' checksum reading_a le (a, b) = (omega arith, b)
  ConsumingAt-grow receiving w w' checksum (reading_b x) le (a, b, c) = (omega arith, b, c)
  ConsumingAt-grow receiving w w' checksum acknowledging le (a, b) = (omega arith, b)

  module _ (m : Handoff) (v : InOrder m) where
    pub has_room-InOrder :
        m.sending ≤ message_count
        → message_count < u64_mod
        → sub64 (sub64 m.sending 1) m.read_idx < ring_size
        → InOrder (record m { producing = filling_a })
    has_room-InOrder le small room = record {
      drains = v.drains;
      published = v.published;
      read_before = v.read_before;
      acks_before = v.acks_before;
      acked = v.acked;
      received = v.received;
      within = v.within;
      producing_at = (
        le,
        omega (
          arith,
          v.published,
          v.received,
          v.read_before,
          Drains-le ring_size m.receiving m.mem m.pending v.drains,
        ),
      );
      consuming_at = v.consuming_at;
    }

    -- A store is appended to the producer's buffer.
    module _ (s : Store) (sending : ℕ) (p : Producing) where
      abbrev pub appended : Handoff
      appended = record m { producing = p; sending = sending; pending = m.pending ++ s ∷ [] }

      append-InOrder :
          (final m.mem m.pending).write_idx ≤ (apply_store (final m.mem m.pending) s).write_idx
          → Shows ring_size m.receiving (apply_store (final m.mem m.pending) s)
          → (apply_store (final m.mem m.pending) s).write_idx + 1 ≡ sending
          → sending ≤ message_count + 1
          → ProducingAt sending m.receiving (apply_store (final m.mem m.pending) s) p
          → InOrder appended
      append-InOrder grows shows next le at = record {
        drains = Drains-append ring_size m.receiving m.mem m.pending s v.drains grows shows;
        published = ap (λ (f : Shared). f.write_idx + 1) (final-append m.mem m.pending s) ∙ next;
        read_before = v.read_before;
        acks_before = v.acks_before;
        acked = v.acked;
        received = v.received;
        within = le;
        producing_at =
            subst (λ (f : Shared). ProducingAt sending m.receiving f p)
              (sym (final-append m.mem m.pending s)) at;
        consuming_at = v.consuming_at;
      }

    pub fill_a-InOrder :
        m.producing ≡ filling_a
        → InOrder (
            appended
              (store_a (slot_of ring_size m.sending) (payload m.sending).payload_a)
              m.sending
              filling_b)
    fill_a-InOrder e =
        let (le, near) =
          subst (ProducingAt m.sending m.receiving (final m.mem m.pending)) e v.producing_at in
        append-InOrder (store_a (slot_of ring_size m.sending) (payload m.sending).payload_a)
          m.sending filling_b (omega arith)
          (Shows-a ring_size m.receiving m.sending (final m.mem m.pending)
            (Drains-final ring_size m.receiving m.mem m.pending v.drains) v.published near
            (payload m.sending).payload_a)
          v.published v.within
          (
            le,
            near,
            ap (λ (s : Slot). s.payload_a) (if_true _ _ (==-self (slot_of ring_size m.sending))),
          )

    pub fill_b-InOrder :
        m.producing ≡ filling_b
        → InOrder (
            appended
              (store_b (slot_of ring_size m.sending) (payload m.sending).payload_b)
              m.sending
              publishing)
    fill_b-InOrder e =
        let (le, near, filled) =
          subst (ProducingAt m.sending m.receiving (final m.mem m.pending)) e v.producing_at in
        append-InOrder (store_b (slot_of ring_size m.sending) (payload m.sending).payload_b)
          m.sending publishing (omega arith)
          (Shows-b ring_size m.receiving m.sending (final m.mem m.pending)
            (Drains-final ring_size m.receiving m.mem m.pending v.drains) v.published near
            (payload m.sending).payload_b)
          v.published v.within
          (
            le,
            near,
            if_true _ _ (==-self (slot_of ring_size m.sending))
                ∙ ap
                    (λ (a : ℕ). record { payload_a = a; payload_b = (payload m.sending).payload_b })
                    filled,
          )

    pub publish-InOrder :
        m.producing ≡ publishing
        → InOrder (appended (store_write m.sending) (m.sending + 1) waiting)
    publish-InOrder e =
        let (le, near, filled) =
          subst (ProducingAt m.sending m.receiving (final m.mem m.pending)) e v.producing_at in
        append-InOrder (store_write m.sending) (m.sending + 1) waiting (omega (arith, v.published))
          (Shows-write ring_size m.receiving m.sending (final m.mem m.pending)
            (Drains-final ring_size m.receiving m.mem m.pending v.drains) v.published near filled)
          refl (omega arith) tt

    pub drain_store-InOrder :
        (s : Store) (rest : List Store)
        → m.pending ≡ s ∷ rest
        → InOrder (record m { mem = apply_store m.mem s; pending = rest })
    drain_store-InOrder s rest e =
        let (shows, grows, later) = subst (Drains ring_size m.receiving m.mem) e v.drains in
        record {
          drains = later;
          published = sym (ap (λ (p : List Store). (final m.mem p).write_idx + 1) e) ∙ v.published;
          read_before = v.read_before;
          acks_before = v.acks_before;
          acked = v.acked;
          received = omega (arith, v.received, grows);
          within = v.within;
          producing_at =
              subst
                (λ (p : List Store). ProducingAt m.sending m.receiving (final m.mem p) m.producing)
                e v.producing_at;
          consuming_at =
              ConsumingAt-grow m.receiving m.mem.write_idx (apply_store m.mem s).write_idx
                m.checksum m.consuming grows v.consuming_at;
        }
