-- ===== src/Measurement/Cycle.antt =====
-- GeneratePointerChaseRing makes one cycle through all elements.
use hotpathcplusplus.Base.{
  ℕ, zero, suc, ◌+◌, ◌^◌, ◌≤◌, ◌<◌, ◌≡◌, refl, sym, ap, ◌∙◌, Bool, true, false, List, [], ◌∷◌,
  get_or, length, ltb, ◌==◌, if◌then◌else◌, arith, count,
}
use hotpathcplusplus.Measurement.Generator.{
  num_elements, iota, shuffle_tail, close_ring, generate_pointer_chase_ring,
}
use hotpathcplusplus.Measurement.Successors.{
  IsShuffle, IsOrder, find_index, length-close_ring, close_ring-next, close_ring-last,
}

-- the element reached from `j` by `k` loads, as the pointer chase does them
unfoldable pub follow : List ℕ → ℕ → ℕ → ℕ
follow next zero j = j
follow next (suc k) j = get_or next (follow next k j) 0

module _ (xs : List ℕ) (o : IsOrder xs) where
  follow-close_ring :
      (k : ℕ) → k < length xs → follow (close_ring (length xs) xs) k (get_or xs 0 0) ≡ get_or xs k 0
  unfolding follow
  follow-close_ring zero h = refl
  follow-close_ring (suc k) h =
      ap (λ (j : ℕ). get_or (close_ring (length xs) xs) j 0) (follow-close_ring k (omega arith))
      ∙ close_ring-next xs o k (omega arith)
      ∙ ap (λ (j : ℕ). get_or xs j 0) (omega arith)

  follow-length :
      (n : ℕ)
      → n ≡ length xs
      → 0 < n
      → follow (close_ring (length xs) xs) n (get_or xs 0 0) ≡ get_or xs 0 0
  unfolding follow
  follow-length zero e h = absurd (omega arith)
  follow-length (suc k) e h =
      ap (λ (j : ℕ). get_or (close_ring (length xs) xs) j 0)
        (follow-close_ring k (omega arith) ∙ ap (λ (j : ℕ). get_or xs j 0) (omega (arith, e)))
      ∙ close_ring-last xs o (omega arith)

  -- Along an order that starts at 0.
  close_ring-cycle :
      (j n : ℕ)
      → n ≡ length xs
      → get_or xs 0 0 ≡ 0
      → j < n
      → (length (close_ring n xs) ≡ n)
        × ((k : ℕ) × (k < n) × (follow (close_ring n xs) k 0 ≡ j))
        × (follow (close_ring n xs) n 0 ≡ 0)
  close_ring-cycle j n e first h =
      let m = length xs in
      let (k, low, at) = find_index xs j (omega (arith, o.below j (omega (arith, e)))) in
      let from = λ (i : ℕ). ap (follow (close_ring m xs) i) (sym first) in
      rw e (
        length-close_ring xs o,
        (k, low, from k ∙ follow-close_ring k low ∙ at),
        from m ∙ follow-length m refl (omega (arith, e)) ∙ first,
      )

length-iota : (a n : ℕ) → length (iota a n) ≡ n
unfolding iota
length-iota a zero = refl
length-iota a (suc n) = ap suc (length-iota (a + 1) n)

count-iota :
    (x a n : ℕ)
    → a + n ≤ 2 ^ 32
    → count x (iota a n) ≡ (if ltb x a then 0 else if ltb x (a + n) then 1 else 0)
unfolding iota
count-iota x a zero h = ground arith
count-iota x a (suc n) h = ground (arith, count-iota x (a + 1) n (omega arith))

-- The order of the elements, shuffled behind its first one or not.
abbrev order : (List ℕ → List ℕ) → Bool → ℕ → List ℕ
order shuffle randomized n = if randomized then shuffle_tail shuffle (iota 0 n) else iota 0 n

iota-IsOrder : (n : ℕ) → n ≤ 2 ^ 32 → IsOrder (iota 0 n)
iota-IsOrder n h = record {
  below = λ x low. ground (arith, count-iota x 0 n (omega arith), length-iota 0 n);
  above = λ x high. ground (arith, count-iota x 0 n (omega arith), length-iota 0 n);
}

bounded : (size_bytes : ℕ) → size_bytes < 2 ^ 33 → num_elements size_bytes ≤ 2 ^ 32
unfolding num_elements
bounded size_bytes h = ground arith

module _ (shuffle : List ℕ → List ℕ) (s : IsShuffle shuffle) where
  length-shuffle_tail : (xs : List ℕ) → length (shuffle_tail shuffle xs) ≡ length xs
  unfolding shuffle_tail
  length-shuffle_tail [] = refl
  length-shuffle_tail (x ∷ xs) = ap suc (s.same_length xs)

  count-shuffle_tail : (xs : List ℕ) (y : ℕ) → count y (shuffle_tail shuffle xs) ≡ count y xs
  unfolding shuffle_tail
  count-shuffle_tail [] y = refl
  count-shuffle_tail (x ∷ xs) y = ap (λ (c : ℕ). (if x == y then 1 else 0) + c) (s.same_count xs y)

  order-IsOrder : (randomized : Bool) (n : ℕ) → n ≤ 2 ^ 32 → IsOrder (order shuffle randomized n)
  order-IsOrder true n h = record {
    below = λ x low.
        count-shuffle_tail (iota 0 n) x
        ∙ (iota-IsOrder n h).below x (omega (arith, length-shuffle_tail (iota 0 n)));
    above = λ x high.
        count-shuffle_tail (iota 0 n) x
        ∙ (iota-IsOrder n h).above x (omega (arith, length-shuffle_tail (iota 0 n)));
  }
  order-IsOrder false n h = iota-IsOrder n h

  length-order : (randomized : Bool) (n : ℕ) → length (order shuffle randomized n) ≡ n
  length-order true n = length-shuffle_tail (iota 0 n) ∙ length-iota 0 n
  length-order false n = length-iota 0 n

  order-first : (randomized : Bool) (n : ℕ) → 0 < n → get_or (order shuffle randomized n) 0 0 ≡ 0
  unfolding iota shuffle_tail
  order-first randomized zero h = absurd (omega arith)
  order-first true (suc n) h = refl
  order-first false (suc n) h = refl

  -- The loads of a pointer chase from element 0 reach every element of the ring within as many loads
  -- as it has elements, and are back at element 0 after exactly that many: it is one cycle. The
  -- shuffle reorders, and the ring is smaller than 8 GiB.
  pub generate_pointer_chase_ring-cycle :
      (size_bytes : ℕ) (randomized : Bool) (j : ℕ)
      → size_bytes < 2 ^ 33
      → j < num_elements size_bytes
      → let next = generate_pointer_chase_ring shuffle size_bytes randomized in
        let n = num_elements size_bytes in
        (length next ≡ n) × ((k : ℕ) × (k < n) × (follow next k 0 ≡ j)) × (follow next n 0 ≡ 0)
  unfolding generate_pointer_chase_ring
  generate_pointer_chase_ring-cycle size_bytes randomized j small h =
      let n = num_elements size_bytes in
      close_ring-cycle (order shuffle randomized n)
        (order-IsOrder randomized n (bounded size_bytes small)) j n
        (sym (length-order randomized n)) (order-first randomized n (omega arith)) h
