-- ===== src/Spsc/Window.antt =====
-- The items of the ring from an index on, and what a write past them does.
use native.Mathlib.Nat.{mod-mod_of_dvd, mod-lt, one-le-pow}
use hotpathcplusplus.Base.{
  ℕ, zero, suc, ◌+◌, ◌-◌, ◌%◌, ◌^◌, ◌≤◌, ◌<◌, ◌≡◌, ◌≢◌, refl, ap, ap₂, subst, ◌∙◌, false, List, [],
  ◌∷◌, ◌++◌, get_or, set, length, get_or-set, ◌==◌, add64, sub64, u64_mod, arith, ==-self, if_true,
  if_false,
}
use Prim.Native.Nat.{◌∣◌}
use hotpathcplusplus.Base.Modular.{mod-ne}
use hotpathcplusplus.Spsc.Ring.{SpscRingBuffer}

module _ {ℓ} {T : Type ℓ} (k : ℕ) (d : T) where
  -- the `n` items from index `r` on
  unfoldable pub window : List T → ℕ → ℕ → List T
  window slots r zero = []
  window slots r (suc n) = get_or slots (r % 2 ^ k) d ∷ window slots (add64 r 1) n

  abbrev pub contents : SpscRingBuffer T → List T
  contents b = window b.slots b.read_idx (sub64 b.write_idx b.read_idx)

  pub length-window : (slots : List T) (r n : ℕ) → length (window slots r n) ≡ n
  unfolding window
  length-window slots r zero = refl
  length-window slots r (suc n) = ap suc (length-window slots (add64 r 1) n)

  pub pos : 0 < 2 ^ k
  pos = one-le-pow k 2 (omega arith)

  pub slot-ne :
      (r n w : ℕ)
      → 2 ^ k ∣ u64_mod
      → suc n < 2 ^ k
      → w ≡ (r + suc n) % u64_mod
      → r % 2 ^ k ≢ w % 2 ^ k
  slot-ne r n w dvd h e =
      rw (e, mod-mod_of_dvd (2 ^ k) (r + suc n) dvd)
        (mod-ne (2 ^ k) r (r + suc n) (omega arith) (omega arith))

  pub shift : (r n w : ℕ) → w ≡ (r + suc n) % u64_mod → w ≡ (add64 r 1 + n) % u64_mod
  shift r n w e = omega arith

  -- Writing just past a window that is not full extends it by the item.
  pub window-set :
      (slots : List T) (r w n : ℕ) (item : T)
      → length slots ≡ 2 ^ k
      → 2 ^ k ∣ u64_mod
      → r < u64_mod
      → n < 2 ^ k
      → w ≡ (r + n) % u64_mod
      → window (set slots (w % 2 ^ k) item) r (suc n) ≡ window slots r n ++ item ∷ []
  unfolding window
  window-set slots r w zero item wide dvd low h e =
      ap (λ x. x ∷ [])
        (get_or-set slots (w % 2 ^ k) (r % 2 ^ k) item d (rw wide (mod-lt w pos))
          ∙ rw (same e) (if_true _ _ (==-self (r % 2 ^ k))))
    where
      same : w ≡ (r + 0) % u64_mod → w ≡ r
      same q = omega arith
  window-set slots r w (suc n) item wide dvd low h e =
      ap₂ ◌∷◌
        (get_or-set slots (w % 2 ^ k) (r % 2 ^ k) item d (rw wide (mod-lt w pos))
          ∙ if_false _ _ (other (slot-ne r n w dvd h e)))
        (window-set slots (add64 r 1) w n item wide dvd (omega arith) (omega arith) (shift r n w e))
    where
      other : {x y : ℕ} → x ≢ y → (y == x) ≡ false
      other q = ground arith

  -- The items before it stay.
  pub window-set_before :
      (slots : List T) (r w n m : ℕ) (item : T)
      → length slots ≡ 2 ^ k
      → 2 ^ k ∣ u64_mod
      → n < 2 ^ k
      → m ≤ n
      → w ≡ (r + n) % u64_mod
      → window (set slots (w % 2 ^ k) item) r m ≡ window slots r m
  unfolding window
  window-set_before slots r w n zero item wide dvd h low e = refl
  window-set_before slots r w zero (suc m) item wide dvd h low e = absurd (omega arith)
  window-set_before slots r w (suc n) (suc m) item wide dvd h low e =
      ap₂ ◌∷◌
        (get_or-set slots (w % 2 ^ k) (r % 2 ^ k) item d (rw wide (mod-lt w pos))
          ∙ if_false _ _ (other (slot-ne r n w dvd h e)))
        (window-set_before slots (add64 r 1) w n m item wide dvd (omega arith) (omega arith)
          (shift r n w e))
    where
      other : {x y : ℕ} → x ≢ y → (y == x) ≡ false
      other q = ground arith

  pub window_pos :
      (slots : List T) (r n : ℕ)
      → 0 < n
      → window slots r n ≡ get_or slots (r % 2 ^ k) d ∷ window slots (add64 r 1) (n - 1)
  unfolding window
  window_pos slots r zero h = absurd (omega arith)
  window_pos slots r (suc n) h =
      ap (λ x. get_or slots (r % 2 ^ k) d ∷ window slots (add64 r 1) x) (omega arith)

  -- What is stored past a window is stored past its tail.
  pub window-tail :
      (slots : List T) (r n m : ℕ) (item : T)
      → n ≡ suc m
      → window slots r (suc n) ≡ window slots r n ++ item ∷ []
      → window slots (add64 r 1) (suc m) ≡ window slots (add64 r 1) m ++ item ∷ []
  unfolding window
  window-tail slots r n m item e h = ap tail (subst at e h)
    where
      tail : List T → List T
      tail [] = []
      tail (x ∷ xs) = xs

      at : ℕ → Type ℓ
      at i = window slots r (suc i) ≡ window slots r i ++ item ∷ []

  -- The first item of windows that agree.
  pub window-head :
      (slots slots' : List T) (r : ℕ)
      → window slots' r 1 ≡ window slots r 1
      → get_or slots' (r % 2 ^ k) d ≡ get_or slots (r % 2 ^ k) d
  unfolding window
  window-head slots slots' r h = ap head h
    where
      head : List T → T
      head [] = d
      head (x ∷ xs) = x
