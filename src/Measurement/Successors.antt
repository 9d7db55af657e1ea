-- ===== src/Measurement/Successors.antt =====
-- The successor that GeneratePointerChaseRing gives to each element of its order.
use hotpathcplusplus.Base.{
  ℕ, zero, suc, ◌+◌, ◌-◌, ◌≤◌, ◌<◌, ◌≡◌, ◌≢◌, refl, sym, ap, ◌∙◌, List, [], ◌∷◌, get_or, get_or-set,
  set, length, length-set, length-replicate, replicate, ==-self, ==-off, if_true, if_false, arith,
  ℕ_discrete, count,
}
use hotpathcplusplus.Measurement.Generator.{link, close_ring}

-- A shuffle keeps the length, and how often each value stands in the list.
pub record IsShuffle (shuffle : List ℕ → List ℕ) : Type 0 where
  pub same_length : (xs : List ℕ) → length (shuffle xs) ≡ length xs
  pub same_count : (xs : List ℕ) (x : ℕ) → count x (shuffle xs) ≡ count x xs

-- Each of the numbers below the length stands in the list once, and no other.
pub record IsOrder (xs : List ℕ) : Type 0 where
  pub below : (x : ℕ) → x < length xs → count x xs ≡ 1
  pub above : (x : ℕ) → length xs ≤ x → count x xs ≡ 0

count-get_or : (xs : List ℕ) (i : ℕ) → i < length xs → 0 < count (get_or xs i 0) xs
count-get_or [] i h = absurd (omega arith)
count-get_or (x ∷ xs) zero h = ground (arith, ==-self x)
count-get_or (x ∷ xs) (suc i) h = omega (arith, count-get_or xs i (omega arith))

count_twice :
    (xs : List ℕ) (i j : ℕ)
    → i < j
    → j < length xs
    → get_or xs i 0 ≡ get_or xs j 0
    → 1 < count (get_or xs j 0) xs
count_twice [] i j h k e = absurd (omega arith)
count_twice (x ∷ xs) zero zero h k e = absurd (omega arith)
count_twice (x ∷ xs) zero (suc j) h k e = ground (arith, count-get_or xs j (omega arith), e)
count_twice (x ∷ xs) (suc i) zero h k e = absurd (omega arith)
count_twice (x ∷ xs) (suc i) (suc j) h k e =
    omega (arith, count_twice xs i j (omega arith) (omega arith) e)

pub find_index :
    (xs : List ℕ) (x : ℕ) → 0 < count x xs → (i : ℕ) × (i < length xs) × (get_or xs i 0 ≡ x)
find_index [] x h = absurd (omega arith)
find_index (y ∷ xs) x h = elim (ℕ_discrete y x) [
  | yes e ↦ (0, omega arith, e)
  | no w ↦ let (i, low, e) = find_index xs x (rest w) in (suc i, omega arith, e)
]
  where
    rest : y ≢ x → 0 < count x xs
    rest w = ground (arith, h, w)

module _ (xs : List ℕ) (o : IsOrder xs) where
  order-lt : (i : ℕ) → i < length xs → get_or xs i 0 < length xs
  order-lt i h = ground (arith, count-get_or xs i h, o.above (get_or xs i 0))

  order-ne : (i j : ℕ) → i < j → j < length xs → get_or xs i 0 ≢ get_or xs j 0
  order-ne i j h k e =
      ground (arith, count_twice xs i j h k e, o.below (get_or xs j 0) (order-lt j k))

length-link : (next xs : List ℕ) (i m : ℕ) → length (link next xs i m) ≡ length next
unfolding link
length-link next xs i zero = refl
length-link next xs i (suc m) =
    length-link (set next (get_or xs i 0) (get_or xs (i + 1) 0)) xs (i + 1) m
    ∙ length-set next (get_or xs i 0) (get_or xs (i + 1) 0)

module _ (xs : List ℕ) (o : IsOrder xs) where
  -- A write at an element of the order shows at that element and at no earlier one.
  write-at :
      (next : List ℕ) (i v : ℕ)
      → length next ≡ length xs
      → i < length xs
      → get_or (set next (get_or xs i 0) v) (get_or xs i 0) 0 ≡ v
  write-at next i v wide h =
      get_or-set next (get_or xs i 0) (get_or xs i 0) v 0 (omega (arith, order-lt xs o i h))
      ∙ if_true _ _ (==-self (get_or xs i 0))

  write-before :
      (next : List ℕ) (q i v : ℕ)
      → length next ≡ length xs
      → i < length xs
      → q < i
      → get_or (set next (get_or xs i 0) v) (get_or xs q 0) 0 ≡ get_or next (get_or xs q 0) 0
  write-before next q i v wide h low =
      get_or-set next (get_or xs i 0) (get_or xs q 0) v 0 (omega (arith, order-lt xs o i h))
      ∙ if_false _ _ (==-off (λ e. order-ne xs o q i low h (sym e)))

  -- Rounds from `i` on leave the successors of earlier elements.
  link-before :
      (next : List ℕ) (q i m : ℕ)
      → length next ≡ length xs
      → i + m ≤ length xs
      → q < i
      → get_or (link next xs i m) (get_or xs q 0) 0 ≡ get_or next (get_or xs q 0) 0
  unfolding link
  link-before next q i zero wide fits low = refl
  link-before next q i (suc m) wide fits low =
      link-before (set next (get_or xs i 0) (get_or xs (i + 1) 0)) q (i + 1) m
        (length-set next (get_or xs i 0) (get_or xs (i + 1) 0) ∙ wide) (omega arith) (omega arith)
      ∙ write-before next q i (get_or xs (i + 1) 0) wide (omega arith) low

  link-at :
      (next : List ℕ) (q i m : ℕ)
      → length next ≡ length xs
      → i + m ≤ length xs
      → i ≤ q
      → q < i + m
      → get_or (link next xs i m) (get_or xs q 0) 0 ≡ get_or xs (q + 1) 0
  unfolding link
  link-at next q i zero wide fits low high = absurd (omega arith)
  link-at next q i (suc m) wide fits low high =
      let next' = set next (get_or xs i 0) (get_or xs (i + 1) 0) in
      let wide' = length-set next (get_or xs i 0) (get_or xs (i + 1) 0) ∙ wide in
      elim (ℕ_discrete i q) [
        | yes e ↦
            link-before next' q (i + 1) m wide' (omega arith) (omega (arith, e))
            ∙ ap
                (λ (j : ℕ).
                  get_or (set next (get_or xs j 0) (get_or xs (j + 1) 0)) (get_or xs q 0) 0)
                e
            ∙ write-at next q (get_or xs (q + 1) 0) wide (omega arith)
        | no w ↦ link-at next' q (i + 1) m wide' (omega arith) (omega (arith, w)) (omega arith)
      ]

  pub length-close_ring : length (close_ring (length xs) xs) ≡ length xs
  unfolding close_ring
  length-close_ring =
      length-set (link (replicate {A = ℕ} (length xs) 0) xs 0 (length xs - 1)) _ _
      ∙ length-link (replicate {A = ℕ} (length xs) 0) xs 0 (length xs - 1)
      ∙ length-replicate {A = ℕ} (length xs) 0

  -- The successor of each element but the last, and that of the last.
  pub close_ring-next :
      (q : ℕ)
      → q + 1 < length xs
      → get_or (close_ring (length xs) xs) (get_or xs q 0) 0 ≡ get_or xs (q + 1) 0
  unfolding close_ring
  close_ring-next q h =
      let wide = length-replicate {A = ℕ} (length xs) 0 in
      write-before (link (replicate {A = ℕ} (length xs) 0) xs 0 (length xs - 1)) q (length xs - 1)
        (get_or xs 0 0) (length-link (replicate {A = ℕ} (length xs) 0) xs 0 (length xs - 1) ∙ wide)
        (omega arith) (omega arith)
      ∙ link-at (replicate {A = ℕ} (length xs) 0) q 0 (length xs - 1) wide (omega arith)
          (omega arith) (omega arith)

  pub close_ring-last :
      0 < length xs
      → get_or (close_ring (length xs) xs) (get_or xs (length xs - 1) 0) 0 ≡ get_or xs 0 0
  unfolding close_ring
  close_ring-last h =
      write-at (link (replicate {A = ℕ} (length xs) 0) xs 0 (length xs - 1)) (length xs - 1)
        (get_or xs 0 0)
        (length-link (replicate {A = ℕ} (length xs) 0) xs 0 (length xs - 1)
          ∙ length-replicate {A = ℕ} (length xs) 0)
        (omega arith)
