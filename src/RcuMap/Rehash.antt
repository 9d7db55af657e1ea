-- ===== src/RcuMap/Rehash.antt =====
-- The copy of all nodes into a new table, as Resize makes it.
use hotpathcplusplus.Base.{
  ℕ, zero, suc, ◌+◌, ◌≤◌, ◌<◌, ◌≡◌, ◌≢◌, refl, ◌∙◌, inl, inr, List, [], ◌∷◌, ◌++◌, Option, none,
  some, get_or, set, length, get_or-set, length-set, if◌then◌else◌, ◌==◌, arith, Option-cases,
}
use hotpathcplusplus.RcuMap.Table.{Key, Node, bucket_index, find, copy_chain, copy_all, ◌>>=◌}
use hotpathcplusplus.RcuMap.Walks.{occurrences, find-eq-none}
use hotpathcplusplus.RcuMap.View.{home, home-lt, home_congr, bucket_index-home}

abbrev pub or_else {ℓ} : {A : Type ℓ} → Option A → Option A → Option A
or_else none b = b
or_else (some a) b = some a

-- all the nodes of a table, bucket by bucket
abbrev pub flat {ℓ} : {A : Type ℓ} → List (List A) → List A
flat [] = []
flat (c ∷ cs) = c ++ flat cs

module _ {ℓ} {K V : Type ℓ} ⦃k : Key K⦄ where
  find-append :
      (q : K) (xs ys : List (Node K V)) → find q (xs ++ ys) ≡ or_else (find q xs) (find q ys)
  unfolding find
  find-append q [] ys = refl
  find-append q (n ∷ xs) ys = ground (arith, find-append q xs ys)

  occurrences-append :
      (q : K) (xs ys : List (Node K V))
      → occurrences q (xs ++ ys) ≡ occurrences q xs + occurrences q ys
  unfolding occurrences
  occurrences-append q [] ys = omega arith
  occurrences-append q (n ∷ xs) ys = ground (arith, occurrences-append q xs ys)

  -- A key that only bucket `i` can hold is found in the table where it is found in that bucket.
  pub occurrences-flat :
      (q : K) (i : ℕ) (cs : List (List (Node K V)))
      → ((j : ℕ) → i ≢ j → occurrences q (get_or cs j []) ≡ 0)
      → occurrences q (flat cs) ≡ occurrences q (get_or cs i [])
  occurrences-flat q i [] h = refl
  occurrences-flat q zero (c ∷ cs) h =
      omega (arith, occurrences-append q c (flat cs), nowhere cs (λ j. h (suc j) (omega arith)))
    where
      nowhere :
          (cs : List (List (Node K V)))
          → ((j : ℕ) → occurrences q (get_or cs j []) ≡ 0)
          → occurrences q (flat cs) ≡ 0
      nowhere [] g = unfold occurrences in refl
      nowhere (d ∷ ds) g =
          omega (arith, occurrences-append q d (flat ds), g 0, nowhere ds (λ j. g (suc j)))
  occurrences-flat q (suc i) (c ∷ cs) h = omega (
    arith,
    occurrences-append q c (flat cs),
    h 0 (omega arith),
    occurrences-flat q i cs (λ j d. h (suc j) (omega arith)),
  )

  pub find-flat :
      (q : K) (i : ℕ) (cs : List (List (Node K V)))
      → ((j : ℕ) → i ≢ j → occurrences q (get_or cs j []) ≡ 0)
      → find q (flat cs) ≡ find q (get_or cs i [])
  find-flat q i [] h = refl
  find-flat q zero (c ∷ cs) h = ground (
    arith,
    find-append q c (flat cs),
    find-eq-none q (flat cs),
    occurrences-append q c (flat cs),
    occurrences-flat q 0 (c ∷ cs) h,
  )
  find-flat q (suc i) (c ∷ cs) h = ground (
    arith,
    find-append q c (flat cs),
    find-eq-none q c (h 0 (omega arith)),
    find-flat q i cs (λ j d. h (suc j) (omega arith)),
  )

  -- What a copy of the nodes `ns` adds to the buckets `bs`.
  pub record Copied (size : ℕ) (ns : List (Node K V)) (bs bs' : List (List (Node K V)))
      : Type ℓ where
    pub width : length bs' ≡ size
    pub counts :
        (q : K) (i : ℕ)
        → occurrences q (get_or bs' i [])
          ≡ occurrences q (get_or bs i []) + (if home q size == i then occurrences q ns else 0)
    pub finds :
        (q : K)
        → occurrences q ns ≤ 1
        → find q (get_or bs' (home q size) [])
          ≡ or_else (find q ns) (find q (get_or bs (home q size) []))

  -- one copied node in front of its new bucket
  abbrev push : ℕ → ℕ → Node K V → List (List (Node K V)) → List (List (Node K V))
  push size fresh n bs =
      let i = home n.key size in
      set bs i (record { address = fresh; key = n.key; value = n.value } ∷ get_or bs i [])

  push-Copied :
      (size fresh : ℕ) (n : Node K V) (bs : List (List (Node K V)))
      → 0 < size
      → length bs ≡ size
      → Copied size (n ∷ []) bs (push size fresh n bs)
  unfolding find occurrences
  push-Copied size fresh n bs pos w =
      let i = home n.key size in
      let c = record { address = fresh; key = n.key; value = n.value } ∷ get_or bs i [] in
      record {
        width = length-set bs i c ∙ w;
        counts = λ q j.
            ground
              (arith, get_or-set bs i j c [], home-lt n.key size pos, home_congr n.key q size, w);
        finds = λ q once. ground (
          arith,
          get_or-set bs i (home q size) c [],
          home-lt n.key size pos,
          home_congr n.key q size,
          w,
        );
      }

  -- One node, and then the others.
  Copied-cons :
      (size : ℕ) (n : Node K V) (ns : List (Node K V)) (bs bs' bs'' : List (List (Node K V)))
      → Copied size (n ∷ []) bs bs'
      → Copied size ns bs' bs''
      → Copied size (n ∷ ns) bs bs''
  unfolding find occurrences
  Copied-cons size n ns bs bs' bs'' one more = record {
    width = more.width;
    counts = λ q i. ground (arith, one.counts q i, more.counts q i);
    finds = λ q once. ground (arith, one.finds q, more.finds q, find-eq-none q ns);
  }

  pub copy_chain-Copied :
      (size fresh : ℕ) (ns : List (Node K V)) (bs : List (List (Node K V)))
      → 0 < size
      → length bs ≡ size
      → (fresh' : ℕ) × (bs' : List (List (Node K V))) × (copy_chain size ns (fresh, bs)
          ≡ some (fresh', bs'))
        × Copied size ns bs bs'
  unfolding copy_chain
  copy_chain-Copied size fresh [] bs pos w = (
    fresh,
    bs,
    refl,
    (unfold find occurrences in
        record { width = w; counts = λ q i. ground arith; finds = λ q once. refl }),
  )
  copy_chain-Copied size fresh (n ∷ ns) bs pos w =
      let one = push-Copied size fresh n bs pos w in
      let (f', bs', e, more) =
        copy_chain-Copied size (suc fresh) ns (push size fresh n bs) pos one.width in
      (
        f',
        bs',
        rw (bucket_index-home n.key size pos) e,
        Copied-cons size n ns bs (push size fresh n bs) bs' one more,
      )

  copy_chain-append :
      (size : ℕ) (xs ys : List (Node K V)) (acc : ℕ × List (List (Node K V)))
      → copy_chain size (xs ++ ys) acc ≡ (copy_chain size xs acc >>= copy_chain size ys)
  unfolding copy_chain
  copy_chain-append size [] ys acc = refl
  copy_chain-append size (n ∷ xs) ys (fresh, bs) = elim (Option-cases (bucket_index n.key size)) [
    | inl e ↦ rw e refl
    | inr (i, e) ↦ rw e (copy_chain-append size xs ys _)
  ]

  -- The loop over the buckets is one copy of all the nodes.
  pub copy_all-flat :
      (size : ℕ) (cs : List (List (Node K V))) (acc : ℕ × List (List (Node K V)))
      → copy_all size cs acc ≡ copy_chain size (flat cs) acc
  unfolding copy_all
  copy_all-flat size [] acc = unfold copy_chain in refl
  copy_all-flat size (c ∷ cs) acc = elim (Option-cases (copy_chain size c acc)) [
    | inl e ↦ rw (copy_chain-append size c (flat cs) acc, e)
    | inr (b, e) ↦ rw (copy_chain-append size c (flat cs) acc, e) (copy_all-flat size cs b)
  ]
