-- ===== src/RcuMap/Walks.antt =====
-- The walks of Put and Remove along one chain.
use hotpathcplusplus.Base.{
  ℕ, suc, ◌≤◌, ◌≡◌, refl, inl, inr, true, List, [], ◌∷◌, none, some, if◌then◌else◌, arith,
  Bool-cases, Option-cases,
}
use hotpathcplusplus.RcuMap.Table.{Key, Node, same, find, replace, unlink}

module _ {ℓ} {K : Type ℓ} ⦃k : Key K⦄ where
  pub same_congr : (a b c : K) → same a b ≡ true → same a c ≡ same b c
  same_congr a b c e = rw ((k.equal_iff a b).0 e)

  pub same_symm : (a b : K) → same a b ≡ same b a
  same_symm a b = elim (Bool-cases (same a b)) [
    | inl e ↦ elim (Bool-cases (same b a)) [
      | inl f ↦ rw (e, f)
      | inr f ↦ rw ((k.equal_iff a b).0 e)
    ]
    | inr e ↦ elim (Bool-cases (same b a)) [
      | inl f ↦ rw ((k.equal_iff b a).0 f)
      | inr f ↦ rw (e, f)
    ]
  ]

module _ {ℓ} {K V : Type ℓ} ⦃k : Key K⦄ where
  -- the number of nodes with the key
  unfoldable pub occurrences : K → List (Node K V) → ℕ
  occurrences q [] = 0
  occurrences q (n ∷ ns) = if same n.key q then suc (occurrences q ns) else occurrences q ns

  pub occurrences_congr :
      (a b : K) (ns : List (Node K V)) → same a b ≡ true → occurrences b ns ≡ occurrences a ns
  occurrences_congr a b ns e = rw ((k.equal_iff a b).0 e)

  pub find-replace :
      (q : K) (new old : Node K V) (ns ns' : List (Node K V))
      → replace new ns ≡ some (old, ns')
      → find q ns' ≡ (if same new.key q then some new.value else find q ns)
  unfolding find replace
  find-replace q new old [] ns' h = cc
  find-replace q new old (n ∷ ns) ns' h = elim (Option-cases (replace new ns)) [
    | inl e ↦ ground (arith, same_congr n.key new.key q)
    | inr ((o, rest), e) ↦ ground (
      arith,
      same_congr n.key new.key q,
      same_symm n.key new.key,
      same_congr new.key q n.key,
      same_symm q n.key,
      same_congr n.key q new.key,
      same_symm new.key q,
      find-replace q new o ns rest e,
    )
  ]

  pub find-replace-none :
      (new : Node K V) (ns : List (Node K V)) → replace new ns ≡ none → find new.key ns ≡ none
  unfolding find replace
  find-replace-none new [] h = refl
  find-replace-none new (n ∷ ns) h = elim (Option-cases (replace new ns)) [
    | inl e ↦ ground (arith, find-replace-none new ns e)
    | inr ((o, rest), e) ↦ ground arith
  ]

  pub occurrences-replace :
      (q : K) (new old : Node K V) (ns ns' : List (Node K V))
      → replace new ns ≡ some (old, ns')
      → occurrences q ns' ≡ occurrences q ns
  unfolding occurrences replace
  occurrences-replace q new old [] ns' h = cc
  occurrences-replace q new old (n ∷ ns) ns' h = elim (Option-cases (replace new ns)) [
    | inl e ↦ ground (arith, same_congr n.key new.key q)
    | inr ((o, rest), e) ↦
        ground (arith, same_congr n.key new.key q, occurrences-replace q new o ns rest e)
  ]

  pub find-eq-none : (q : K) (ns : List (Node K V)) → occurrences q ns ≡ 0 → find q ns ≡ none
  unfolding find occurrences
  find-eq-none q [] h = refl
  find-eq-none q (n ∷ ns) h = ground (arith, find-eq-none q ns)

  pub occurrences-eq-zero : (q : K) (ns : List (Node K V)) → find q ns ≡ none → occurrences q ns ≡ 0
  unfolding find occurrences
  occurrences-eq-zero q [] h = refl
  occurrences-eq-zero q (n ∷ ns) h = ground (arith, occurrences-eq-zero q ns)

  -- Removing the first node with the key removes the key, if it was there once.
  pub find-unlink :
      (q key : K) (old : Node K V) (ns ns' : List (Node K V))
      → occurrences q ns ≤ 1
      → unlink key ns ≡ some (old, ns')
      → find q ns' ≡ (if same key q then none else find q ns)
  unfolding find occurrences unlink
  find-unlink q key old [] ns' u h = cc
  find-unlink q key old (n ∷ ns) ns' u h = elim (Option-cases (unlink key ns)) [
    | inl e ↦ ground (arith, same_congr n.key key q, find-eq-none q ns)
    | inr ((o, rest), e) ↦ ground (
      arith,
      same_congr n.key key q,
      same_congr key q n.key,
      same_symm key n.key,
      same_symm q n.key,
      same_congr n.key q key,
      same_symm key q,
      find-eq-none q ns,
      find-unlink q key o ns rest,
    )
  ]

  pub find-unlink-none :
      (key : K) (ns : List (Node K V)) → unlink key ns ≡ none → find key ns ≡ none
  unfolding find unlink
  find-unlink-none key [] h = refl
  find-unlink-none key (n ∷ ns) h = elim (Option-cases (unlink key ns)) [
    | inl e ↦ ground (arith, find-unlink-none key ns e)
    | inr ((o, rest), e) ↦ ground arith
  ]

  pub occurrences-unlink :
      (q key : K) (old : Node K V) (ns ns' : List (Node K V))
      → unlink key ns ≡ some (old, ns')
      → occurrences q ns' ≤ occurrences q ns
  unfolding occurrences unlink
  occurrences-unlink q key old [] ns' h = cc
  occurrences-unlink q key old (n ∷ ns) ns' h = elim (Option-cases (unlink key ns)) [
    | inl e ↦ ground (arith, same_congr n.key key q)
    | inr ((o, rest), e) ↦
        ground (arith, same_congr n.key key q, occurrences-unlink q key o ns rest e)
  ]
