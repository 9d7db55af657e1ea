-- ===== src/Spsc/Moves.antt =====
-- What each thread of Spsc.Threads knows while the other goes on, and what the three stores that the
-- threads share do to it.
use hotpathcplusplus.Base.{
  ℕ, true, false, ◌⊎◌, suc, ◌+◌, ◌%◌, ◌^◌, ◌<◌, ◌≡◌, ◌≢◌, sym, ap, ◌∙◌, inl, inr, [], ◌∷◌, ◌++◌,
  get_or, set, length-set, leb, ◌==◌, add64, sub64, u64_mod, arith, Bool-cases,
}
use hotpathcplusplus.Spsc.Ring.{SpscRingBuffer}
use hotpathcplusplus.Spsc.Window.{
  window, contents, window-set, window-set_before, window_pos, window-tail, window-head,
}
use hotpathcplusplus.Spsc.Refine.{IsRing}
use hotpathcplusplus.Spsc.Threads.{
  Pushing, outside, loaded_write, has_room, filled_slot, Popping, away, loaded_read, has_item,
  copied_item,
}

module _ {ℓ} {T : Type ℓ} (k : ℕ) (d : T) where
  abbrev pub used : SpscRingBuffer T → ℕ
  used b = sub64 b.write_idx b.read_idx

  -- What the producer knows: its index is current; there is room, also when the consumer has gone on
  -- since it looked; and the slot past the contents holds the item.
  abbrev pub PushingAt : SpscRingBuffer T → Pushing T → Type ℓ
  PushingAt b outside = Unit
  PushingAt b (loaded_write w item) = Unit {ℓ} × (w ≡ b.write_idx)
  PushingAt b (has_room w item) = Unit {ℓ} × (w ≡ b.write_idx) × (used b < 2 ^ k)
  PushingAt b (filled_slot w item) =
      (w ≡ b.write_idx)
      × (used b < 2 ^ k)
      × (window k d b.slots b.read_idx (suc (used b)) ≡ contents k d b ++ item ∷ [])

  -- What the consumer knows.
  abbrev pub PoppingAt : SpscRingBuffer T → Popping T → Type ℓ
  PoppingAt b away = Unit
  PoppingAt b (loaded_read r) = Unit {ℓ} × (r ≡ b.read_idx)
  PoppingAt b (has_item r) = Unit {ℓ} × (r ≡ b.read_idx) × (0 < used b)
  PoppingAt b (copied_item r x) =
      (r ≡ b.read_idx) × (0 < used b) × (x ≡ get_or b.slots (b.read_idx % 2 ^ k) d)

  abbrev pub filled : SpscRingBuffer T → T → SpscRingBuffer T
  filled b item = record b { slots = set b.slots (b.write_idx % 2 ^ k) item }

  -- Filling the slot past the contents.
  module _ (b : SpscRingBuffer T) (item : T) (v : IsRing k d b) (room : used b < 2 ^ k) where
    pub filled-IsRing : IsRing k d (filled b item)
    filled-IsRing = record {
      width = length-set b.slots (b.write_idx % 2 ^ k) item ∙ v.width;
      divides = v.divides;
      small = v.small;
      write_in = v.write_in;
      read_in = v.read_in;
      bounded = v.bounded;
    }

    ends : b.write_idx ≡ (b.read_idx + used b) % u64_mod
    ends = omega (arith, v.write_in, v.read_in)

    pub filled-contents : contents k d (filled b item) ≡ contents k d b
    filled-contents =
        window-set_before k d b.slots b.read_idx b.write_idx (used b) (used b) item v.width
          v.divides room (omega arith) ends

    pub filled-past :
        window k d (filled b item).slots b.read_idx (suc (used b)) ≡ contents k d b ++ item ∷ []
    filled-past =
        window-set k d b.slots b.read_idx b.write_idx (used b) item v.width v.divides v.read_in room
          ends

    pub filled-PoppingAt : (p : Popping T) → PoppingAt b p → PoppingAt (filled b item) p
    filled-PoppingAt away h = h
    filled-PoppingAt (loaded_read r) h = h
    filled-PoppingAt (has_item r) h = h
    filled-PoppingAt (copied_item r x) (at, some_used, e) = (
      at,
      some_used,
      e
          ∙ sym (
              window-head k d b.slots (filled b item).slots b.read_idx (
                window-set_before k d b.slots b.read_idx b.write_idx (used b) 1 item v.width
                  v.divides room some_used ends)),
    )

  -- `write_idx_.store`.
  module _ (b : SpscRingBuffer T) (v : IsRing k d b) (room : used b < 2 ^ k) where
    abbrev pub published : SpscRingBuffer T
    published = record b { write_idx = add64 b.write_idx 1 }

    pub used-published : used published ≡ suc (used b)
    used-published = omega (arith, v.write_in, v.read_in, v.bounded, v.small)

    pub published-IsRing : IsRing k d published
    published-IsRing = record {
      width = v.width;
      divides = v.divides;
      small = v.small;
      write_in = omega arith;
      read_in = v.read_in;
      bounded = omega (arith, used-published);
    }

    pub published-PoppingAt : (p : Popping T) → PoppingAt b p → PoppingAt published p
    published-PoppingAt away h = h
    published-PoppingAt (loaded_read r) h = h
    published-PoppingAt (has_item r) (_, at, some_used) = (tt, at, omega (arith, used-published))
    published-PoppingAt (copied_item r x) (at, some_used, e) =
        (at, omega (arith, used-published), e)

  -- `read_idx_.store`.
  module _ (b : SpscRingBuffer T) (v : IsRing k d b) (some_used : 0 < used b) where
    abbrev pub taken : SpscRingBuffer T
    taken = record b { read_idx = add64 b.read_idx 1 }

    pub used-taken : used b ≡ suc (used taken)
    used-taken = omega (arith, v.write_in, v.read_in, some_used)

    pub taken-IsRing : IsRing k d taken
    taken-IsRing = record {
      width = v.width;
      divides = v.divides;
      small = v.small;
      write_in = v.write_in;
      read_in = omega arith;
      bounded = omega (arith, used-taken, v.bounded);
    }

    pub contents-taken : contents k d b ≡ get_or b.slots (b.read_idx % 2 ^ k) d ∷ contents k d taken
    contents-taken =
        window_pos k d b.slots b.read_idx (used b) some_used
        ∙ ap
            (λ (m : ℕ).
              get_or b.slots (b.read_idx % 2 ^ k) d ∷ window k d b.slots (add64 b.read_idx 1) m)
            (omega (arith, used-taken))

    pub taken-PushingAt : (p : Pushing T) → PushingAt b p → PushingAt taken p
    taken-PushingAt outside h = h
    taken-PushingAt (loaded_write w item) h = h
    taken-PushingAt (has_room w item) (_, at, room) = (tt, at, omega (arith, used-taken))
    taken-PushingAt (filled_slot w item) (at, room, past) = (
      at,
      omega (arith, used-taken),
      window-tail k d b.slots b.read_idx (used b) (used taken) item used-taken past,
    )

  pub room_or_full : (n : ℕ) → (leb (2 ^ k) n ≡ true) ⊎ ((leb (2 ^ k) n ≡ false) × (n < 2 ^ k))
  room_or_full n = elim (Bool-cases (leb (2 ^ k) n)) [
    | inl e ↦ inl e
    | inr e ↦ inr (e, ground (arith, e))
  ]

  pub empty_or_not :
      (b : SpscRingBuffer T)
      → IsRing k d b
      → ((b.read_idx == b.write_idx) ≡ true)
        ⊎ (((b.read_idx == b.write_idx) ≡ false) × (0 < used b))
  empty_or_not b v = elim (Bool-cases (b.read_idx == b.write_idx)) [
    | inl e ↦ inl e
    | inr e ↦ inr (e, apart (ground (arith, e)))
  ]
    where
      apart : b.read_idx ≢ b.write_idx → 0 < used b
      apart w = omega (arith, v.write_in, v.read_in, w)
