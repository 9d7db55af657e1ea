-- ===== src/StoreBuffers/Completion.antt =====
-- The hand-off comes to its end: it is never stuck, and each step leaves less to do.
use hotpathcplusplus.Base.{
  ℕ, ◌+◌, ◌-◌, ◌*◌, ◌<◌, ◌≤◌, ◌≡◌, ◌≢◌, ◌⊎◌, inl, inr, refl, sym, ap, subst, ◌∙◌, Bool, Bool-cases,
  List, [], ◌∷◌, length, length-append, sub64, u64_mod, arith, dec_lt,
}
use hotpathcplusplus.StoreBuffers.Handoff.{
  Store, store_a, store_b, store_write, Producing, waiting, filling_a, filling_b, publishing,
  Consuming, polling, reading_a, reading_b, acknowledging, Handoff, initial, payload, slot_of, Step,
  has_room, fill_a, fill_b, publish_release, publish_seq_cst, has_message, read_a, read_b,
  acknowledge_release, acknowledge_seq_cst, drain_store, drain_ack, Reach, start, step, expected,
}
use hotpathcplusplus.StoreBuffers.Pending.{final, Drains-le}
use hotpathcplusplus.StoreBuffers.Delivery.{last_ack, InOrder, ProducingAt}
use hotpathcplusplus.StoreBuffers.Checksum.{knows, Reach-InOrder}

-- Steps of the current message that are behind.
abbrev produced : Producing → ℕ
produced waiting = 0
produced filling_a = 1
produced filling_b = 3
produced publishing = 5

abbrev consumed : Consuming → ℕ
consumed polling = 0
consumed reading_a = 1
consumed (reading_b a) = 2
consumed acknowledging = 3

module _ (ring_size message_count : ℕ) where
  -- Seven steps for each message to send, with the draining of its stores, and five to receive it.
  abbrev work : Handoff → ℕ
  work m =
      (7 * (message_count + 1 - m.sending) - produced m.producing)
      + length m.pending
      + (5 * (message_count + 1 - m.receiving) - consumed m.consuming)
      + length m.acks

  Producing-cases :
      (p : Producing) → (p ≡ waiting) ⊎ (p ≡ filling_a) ⊎ (p ≡ filling_b) ⊎ (p ≡ publishing)
  Producing-cases waiting = inl refl
  Producing-cases filling_a = inr (inl refl)
  Producing-cases filling_b = inr (inr (inl refl))
  Producing-cases publishing = inr (inr (inr refl))

  module _ (m : Handoff) (v : InOrder ring_size message_count m) where
    busy : (p : Producing) → p ≢ waiting → m.producing ≡ p → m.sending ≤ message_count
    busy waiting w e = absurd (w refl)
    busy filling_a w e =
        (subst (ProducingAt ring_size message_count m.sending m.receiving (final m.mem m.pending)) e
          v.producing_at).0
    busy filling_b w e =
        (subst (ProducingAt ring_size message_count m.sending m.receiving (final m.mem m.pending)) e
          v.producing_at).0
    busy publishing w e =
        (subst (ProducingAt ring_size message_count m.sending m.receiving (final m.mem m.pending)) e
          v.producing_at).0

    published_le : m.mem.write_idx ≤ message_count
    published_le =
        omega
          (arith, v.published, v.within, Drains-le ring_size m.receiving m.mem m.pending v.drains)

    taking : (c : Consuming) → c ≢ polling → m.consuming ≡ c → m.receiving ≤ message_count
    taking polling w e = absurd (w refl)
    taking reading_a w e =
        omega (arith, (knows ring_size message_count m v reading_a e).0, published_le)
    taking (reading_b a) w e =
        omega (arith, (knows ring_size message_count m v (reading_b a) e).0, published_le)
    taking acknowledging w e =
        omega (arith, (knows ring_size message_count m v acknowledging e).0, published_le)

  Step-work :
      {b : Bool} {m t : Handoff}
      → Step ring_size message_count b m t
      → InOrder ring_size message_count m
      → work t < work m
  Step-work {m} (has_room p le room) v = omega (arith, ap produced p)
  Step-work {m} (fill_a p) v = omega (
    arith,
    ap produced p,
    busy m v filling_a (λ e. cc) p,
    length-append m.pending
        (store_a (slot_of ring_size m.sending) (payload m.sending).payload_a ∷ []),
  )
  Step-work {m} (fill_b p) v = omega (
    arith,
    ap produced p,
    busy m v filling_b (λ e. cc) p,
    length-append m.pending
        (store_b (slot_of ring_size m.sending) (payload m.sending).payload_b ∷ []),
  )
  Step-work {m} (publish_release b p) v = omega (
    arith,
    ap produced p,
    busy m v publishing (λ e. cc) p,
    length-append m.pending (store_write m.sending ∷ []),
  )
  Step-work {m} (publish_seq_cst b p e) v =
      omega (arith, ap produced p, busy m v publishing (λ e. cc) p)
  Step-work {m} (has_message p le up) v = omega (arith, ap consumed p)
  Step-work {m} (read_a p) v = omega (arith, ap consumed p, taking m v reading_a (λ e. cc) p)
  Step-work {m} (read_b a p) v = omega (arith, ap consumed p, taking m v (reading_b a) (λ e. cc) p)
  Step-work {m} (acknowledge_release b p) v = omega (
    arith,
    ap consumed p,
    taking m v acknowledging (λ e. cc) p,
    length-append m.acks (m.receiving ∷ []),
  )
  Step-work {m} (acknowledge_seq_cst b p e) v =
      omega (arith, ap consumed p, taking m v acknowledging (λ e. cc) p)
  Step-work {m} (drain_store s rest e) v = omega (arith, ap (λ (p : List Store). length p) e)
  Step-work {m} (drain_ack r rest e) v = omega (arith, ap (λ (p : List ℕ). length p) e)

  List-cases {ℓ} :
      {A : Type ℓ} (xs : List A) → (xs ≡ []) ⊎ ((x : A) × (rest : List A) × (xs ≡ x ∷ rest))
  List-cases [] = inl refl
  List-cases (x ∷ rest) = inr (x, rest, refl)

  Consuming-cases :
      (c : Consuming)
      → (c ≡ polling) ⊎ (c ≡ reading_a) ⊎ ((a : ℕ) × (c ≡ reading_b a)) ⊎ (c ≡ acknowledging)
  Consuming-cases polling = inl refl
  Consuming-cases reading_a = inr (inl refl)
  Consuming-cases (reading_b a) = inr (inr (inl (a, refl)))
  Consuming-cases acknowledging = inr (inr (inr refl))

  module _ (b : Bool) (m : Handoff) (v : InOrder ring_size message_count m) (room : 0 < ring_size)
      (small : message_count < u64_mod) where
    abbrev CanStep : Type 0
    CanStep = (t : Handoff) × Step ring_size message_count b m t

    abbrev IsFinished : Type 0
    IsFinished = (m.receiving ≡ message_count + 1) × (m.consuming ≡ polling)

    -- With drained buffers and every published message taken, the producer can go on.
    produce :
        m.pending ≡ []
        → m.acks ≡ []
        → m.mem.write_idx < m.receiving
        → m.receiving ≤ message_count
        → CanStep
    produce e f short le = elim (Producing-cases m.producing) [
      | inl p ↦ (record m { producing = filling_a }, has_room p (omega (arith, level)) free)
      | inr (inl p) ↦ (_, fill_a p)
      | inr (inr (inl p)) ↦ (_, fill_b p)
      | inr (inr (inr p)) ↦ elim (Bool-cases b) [
        | inl t ↦ (_, publish_release t p)
        | inr t ↦ (_, publish_seq_cst t p e)
      ]
    ]
      where
        level : m.sending ≡ m.receiving
        level = omega (
          arith,
          sym (ap (λ (p : List Store). (final m.mem p).write_idx + 1) e) ∙ v.published,
          v.received,
        )

        free : sub64 (sub64 m.sending 1) m.read_idx < ring_size
        free =
            omega
              (arith, level, sym (ap (λ (acks : List ℕ). last_ack m.read_idx acks + 1) f) ∙ v.acked)

    consume : m.pending ≡ [] → m.acks ≡ [] → IsFinished ⊎ CanStep
    consume e f = elim (Consuming-cases m.consuming) [
      | inl c ↦ elim (dec_lt m.mem.write_idx m.receiving) [
        | yes short ↦ elim (dec_lt message_count m.receiving) [
          | yes over ↦ inl (omega (arith, v.received, published_le m v), c)
          | no more ↦ inr (produce e f short (omega (arith, more)))
        ]
        | no there ↦
            inr (_, has_message c (omega (arith, there, published_le m v)) (omega (arith, there)))
      ]
      | inr (inl c) ↦ inr (_, read_a c)
      | inr (inr (inl (a, c))) ↦ inr (_, read_b a c)
      | inr (inr (inr c)) ↦ inr (elim (Bool-cases b) [
        | inl t ↦ (_, acknowledge_release t c)
        | inr t ↦ (_, acknowledge_seq_cst t c f)
      ])
    ]

    advance : IsFinished ⊎ CanStep
    advance = elim (List-cases m.pending) [
      | inl e ↦ elim (List-cases m.acks) [
        | inl f ↦ consume e f
        | inr (r, rest, f) ↦ inr (_, drain_ack r rest f)
      ]
      | inr (s, rest, e) ↦ inr (_, drain_store s rest e)
    ]

  -- runs by their number of steps
  pub data Run (b : Bool) : ℕ → Handoff → Type 0 where
    begin : Run b 0 initial
    next :
        {k : ℕ} {m t : Handoff} → Run b k m → Step ring_size message_count b m t → Run b (k + 1) t

  Run-Reach : {b : Bool} {k : ℕ} {m : Handoff} → Run b k m → Reach ring_size message_count b m
  Run-Reach begin = start
  Run-Reach (next r s) = step (Run-Reach r) s

  module _ (small : message_count < u64_mod) where
    Run-work : {b : Bool} {k : ℕ} {m : Handoff} → Run b k m → k + work m ≤ 12 * message_count
    Run-work begin = omega arith
    Run-work (next r s) =
        omega (
          arith,
          Run-work r,
          Step-work s (Reach-InOrder ring_size message_count small (Run-Reach r)),
        )

  -- A run of the hand-off of fewer than 2^64 messages through a ring of at least one slot, with either
  -- kind of store, has at most twelve steps for each message beside failed tests of its waiting loops.
  -- Where it can go no further, the consumer has taken every message and has the checksum of all.
  pub handoff_completes :
      (b : Bool) (k : ℕ) (m : Handoff)
      → 0 < ring_size
      → message_count < u64_mod
      → Run b k m
      → (k ≤ 12 * message_count)
        × (((m.receiving ≡ message_count + 1) × (m.checksum ≡ expected message_count))
            ⊎ ((t : Handoff) × Step ring_size message_count b m t))
  handoff_completes b k m room small r =
      let v = Reach-InOrder ring_size message_count small (Run-Reach r) in
      (
        omega (arith, Run-work small r),
        elim (advance b m v room small) [
          | inl (all, p) ↦ inl (
            all,
            (knows ring_size message_count m v polling p).1 ∙ ap expected (omega (arith, all)),
          )
          | inr s ↦ inr s
        ],
      )
