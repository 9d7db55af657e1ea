-- ===== src/Spsc/Refine.antt =====
-- The ring refines a queue of at most `2 ^ k` items, also where the 64-bit indices wrap.
use hotpathcplusplus.Base.{
  ℕ, suc, ◌-◌, ◌%◌, ◌^◌, ◌≤◌, ◌<◌, ◌≡◌, ◌≢◌, refl, ap, ◌∙◌, true, false, [], ◌∷◌, ◌++◌, none, some,
  get_or, set, length, length-set, leb, ltb, ◌==◌, if◌then◌else◌, add64, sub64, u64_mod, arith,
  some_inj, if_true, dec_lt, ℕ_discrete, lt→ltb,
}
use Prim.Native.Nat.{◌∣◌}
use hotpathcplusplus.Spsc.Window.{window, contents, length-window, window-set, window_pos}
use hotpathcplusplus.Spsc.Ring.{SpscRingBuffer, try_push_acquire_release, try_pop_acquire_release}

module _ {ℓ} {T : Type ℓ} (k : ℕ) (d : T) where
  pub record IsRing (b : SpscRingBuffer T) : Type ℓ where
    pub width : length b.slots ≡ 2 ^ k
    pub divides : 2 ^ k ∣ u64_mod
    pub small : 2 ^ k < u64_mod
    pub write_in : b.write_idx < u64_mod
    pub read_in : b.read_idx < u64_mod
    pub bounded : sub64 b.write_idx b.read_idx ≤ 2 ^ k

  -- TryPush refuses exactly when the queue holds `2 ^ k` items, and otherwise appends the item; the
  -- ring stays well formed.
  pub try_push-contents :
      (b : SpscRingBuffer T) (item : T)
      → IsRing b
      → let (done, b') = try_push_acquire_release k d b item in
        IsRing b'
        × (done ≡ ltb (length (contents k d b)) (2 ^ k))
        × (contents k d b' ≡ (
            if ltb (length (contents k d b)) (2 ^ k)
            then contents k d b ++ item ∷ []
            else contents k d b))
  unfolding try_push_acquire_release
  try_push-contents b item v = elim (dec_lt n (2 ^ k)) [
    | yes room ↦
        rw
          (
            counted,
            free room,
            if_true (contents k d b ++ item ∷ []) (contents k d b) (lt→ltb n (2 ^ k) room),
            lt→ltb n (2 ^ k) room,
          )
          (
            record {
              width = length-set b.slots (b.write_idx % 2 ^ k) item ∙ v.width;
              divides = v.divides;
              small = v.small;
              write_in = omega arith;
              read_in = v.read_in;
              bounded = omega (arith, v.bounded);
            },
            refl,
            ap (window k d (set b.slots (b.write_idx % 2 ^ k) item) b.read_idx) (next room)
                ∙ window-set k d b.slots b.read_idx b.write_idx n item v.width v.divides v.read_in
                    room (omega (arith, v.write_in, v.read_in)),
          )
    | no full ↦ rw (counted, stuck full, at_most full) (v, refl, refl)
  ]
    where
      n : ℕ
      n = sub64 b.write_idx b.read_idx

      counted : length (contents k d b) ≡ n
      counted = length-window k d b.slots b.read_idx n

      free : n < 2 ^ k → leb (2 ^ k) n ≡ false
      free h = ground arith

      stuck : ¬ (n < 2 ^ k) → leb (2 ^ k) n ≡ true
      stuck h = ground arith

      at_most : ¬ (n < 2 ^ k) → ltb n (2 ^ k) ≡ false
      at_most h = ground arith

      next : n < 2 ^ k → sub64 (add64 b.write_idx 1) b.read_idx ≡ suc n
      next h = omega (arith, v.write_in, v.read_in, v.bounded, v.small)

  -- TryPop answers none only when the queue is empty, and otherwise takes its oldest item; the ring
  -- stays well formed.
  pub try_pop-contents :
      (b : SpscRingBuffer T)
      → IsRing b
      → let (out, b') = try_pop_acquire_release k d b in
        IsRing b'
        × (out ≡ none → contents k d b ≡ [])
        × ((x : T) → out ≡ some x → contents k d b ≡ x ∷ contents k d b')
  unfolding try_pop_acquire_release
  try_pop-contents b v = elim (ℕ_discrete b.read_idx b.write_idx) [
    | yes e ↦ rw (test e) (v, (λ _. empty e), (λ x h. absurd (ground arith)))
    | no ne ↦ rw (test_not ne) (
      record {
        width = v.width;
        divides = v.divides;
        small = v.small;
        write_in = v.write_in;
        read_in = omega arith;
        bounded = omega (arith, v.bounded, ne);
      },
      (λ h. absurd (ground arith)),
      (λ x h.
          taken ne
          ∙ ap
              (λ y.
                y
                ∷ window k d b.slots (add64 b.read_idx 1) (sub64 b.write_idx (add64 b.read_idx 1)))
              (some_inj h)),
    )
  ]
    where
      n : ℕ
      n = sub64 b.write_idx b.read_idx

      test : b.read_idx ≡ b.write_idx → (b.read_idx == b.write_idx) ≡ true
      test e = ground arith

      test_not : b.read_idx ≢ b.write_idx → (b.read_idx == b.write_idx) ≡ false
      test_not e = ground arith

      empty : b.read_idx ≡ b.write_idx → contents k d b ≡ []
      empty e = ap (window k d b.slots b.read_idx) (zeroed e) ∙ unfold window in refl
        where
          zeroed : b.read_idx ≡ b.write_idx → n ≡ 0
          zeroed q = omega arith

      fewer : b.read_idx ≢ b.write_idx → n - 1 ≡ sub64 b.write_idx (add64 b.read_idx 1)
      fewer e = omega (arith, v.write_in, v.read_in)

      taken :
          b.read_idx ≢ b.write_idx
          → contents k d b
            ≡ get_or b.slots (b.read_idx % 2 ^ k) d
              ∷ window k d b.slots (add64 b.read_idx 1) (sub64 b.write_idx (add64 b.read_idx 1))
      taken e =
          window_pos k d b.slots b.read_idx n (omega (arith, v.write_in, v.read_in))
          ∙ ap
              (λ (m : ℕ).
                get_or b.slots (b.read_idx % 2 ^ k) d ∷ window k d b.slots (add64 b.read_idx 1) m)
              (fewer e)
