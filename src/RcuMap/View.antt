-- ===== src/RcuMap/View.antt =====
-- The abstract map behind a table, and what Get, Put and Remove do to it.
use native.Mathlib.Nat.{mod-lt}
use hotpathcplusplus.Base.{
  ℕ, zero, suc, ◌%◌, ◌≤◌, ◌<◌, ◌≡◌, ◌≢◌, refl, subst, ◌∙◌, inl, inr, Bool, true, List, [], ◌∷◌,
  Option, none, some, get_or, set, if◌then◌else◌, length, get_or-set, length-set, arith, Bool-cases,
}
use hotpathcplusplus.RcuMap.Table.{
  Key, Node, Table, RcuHashMap, same, bucket_index, find, get, replace, unlink, finish_put, put_at,
  put, grow, finish_remove, remove,
}
use hotpathcplusplus.RcuMap.Walks.{
  occurrences, occurrences_congr, find-replace, find-replace-none, occurrences-replace,
  occurrences-eq-zero, find-unlink, find-unlink-none, occurrences-unlink,
}

module _ {ℓ} {K : Type ℓ} ⦃k : Key K⦄ where
  -- where a key belongs in a table of `n` buckets
  pub home : K → ℕ → ℕ
  home key n = k.hash key % n

  pub home-lt : (key : K) (n : ℕ) → 0 < n → home key n < n
  unfolding home
  home-lt key n h = mod-lt (k.hash key) h

  pub home_congr : (a b : K) (n : ℕ) → same a b ≡ true → home a n ≡ home b n
  unfolding home
  home_congr a b n e = rw ((k.equal_iff a b).0 e)

  pub bucket_index-home : (key : K) (n : ℕ) → 0 < n → bucket_index key n ≡ some (home key n)
  unfolding bucket_index home
  bucket_index-home key zero h = absurd (omega arith)
  bucket_index-home key (suc n) h = refl

module _ {ℓ} {K V : Type ℓ} ⦃k : Key K⦄ where
  abbrev pub chain_at : Table K V → ℕ → List (Node K V)
  chain_at t i = get_or t.buckets i []

  unfoldable pub view : Table K V → K → Option V
  view t q = find q (chain_at t (home q t.size))

  -- The table has its buckets; a key stands at most once, and only in the bucket where it belongs.
  pub record IsTable (t : Table K V) : Type ℓ where
    pub width : length t.buckets ≡ t.size
    pub roomy : 0 < t.size
    pub once : (q : K) (i : ℕ) → occurrences q (chain_at t i) ≤ 1
    pub placed : (q : K) (i : ℕ) → home q t.size ≢ i → occurrences q (chain_at t i) ≡ 0

  pub get-view : (m : RcuHashMap K V) (q : K) → IsTable m.table → get m q ≡ some (view m.table q)
  unfolding get view
  get-view m q v = rw (bucket_index-home q m.table.size v.roomy)

  -- Both writes put a chain back into the home bucket of the key.
  set-home :
      (t : Table K V) (key q : K) (c : List (Node K V)) (new : Option V)
      → IsTable t
      → find q c ≡ (if same key q then new else find q (chain_at t (home key t.size)))
      → view (record t { buckets = set t.buckets (home key t.size) c }) q
        ≡ (if same key q then new else view t q)
  unfolding view
  set-home t key q c new v h = ground (
    arith,
    get_or-set t.buckets (home key t.size) (home q t.size) c [],
    home-lt key t.size v.roomy,
    v.width,
    home_congr key q t.size,
  )

  set-home-IsTable :
      (t : Table K V) (key : K) (c : List (Node K V))
      → IsTable t
      → ((q : K) → occurrences q c ≤ 1)
      → ((q : K) → home q t.size ≢ home key t.size → occurrences q c ≡ 0)
      → IsTable (record t { buckets = set t.buckets (home key t.size) c })
  set-home-IsTable t key c v once placed = record {
    width = length-set t.buckets (home key t.size) c ∙ v.width;
    roomy = v.roomy;
    once = λ q i. ground (
      arith,
      get_or-set t.buckets (home key t.size) i c [],
      home-lt key t.size v.roomy,
      v.width,
      v.once q i,
      once q,
    );
    placed = λ q i far. ground (
      arith,
      get_or-set t.buckets (home key t.size) i c [],
      home-lt key t.size v.roomy,
      v.width,
      v.placed q i,
      placed q,
    );
  }

  finish_put-view :
      (m : RcuHashMap K V) (new : Node K V) (o : Option (Node K V × List (Node K V)))
      → IsTable m.table
      → let i = home new.key m.table.size in
        replace new (chain_at m.table i) ≡ o
        → let t = (finish_put m i new (chain_at m.table i) o).table in
          IsTable t
          × ((q : K) → view t q ≡ (if same new.key q then some new.value else view m.table q))
  unfolding finish_put
  finish_put-view m new none v e =
      let i = home new.key m.table.size in
      let chain = chain_at m.table i in
      let absent : occurrences new.key chain ≡ 0 =
        occurrences-eq-zero new.key chain (find-replace-none new chain e) in
      (
        set-home-IsTable m.table new.key (new ∷ chain) v
            (λ q.
              unfold occurrences in
              ground (arith, absent, occurrences_congr new.key q chain, v.once q i))
            (λ q far.
              unfold occurrences in
              ground (arith, home_congr new.key q m.table.size, v.placed q i)),
        λ q. set-home m.table new.key q (new ∷ chain) (some new.value) v (unfold find in refl),
      )
  finish_put-view m new (some (old, c)) v e =
      let i = home new.key m.table.size in
      let chain = chain_at m.table i in
      (
        set-home-IsTable m.table new.key c v
            (λ q. rw (occurrences-replace q new old chain c e) (v.once q i))
            (λ q far. rw (occurrences-replace q new old chain c e) (v.placed q i far)),
        λ q. set-home m.table new.key q c (some new.value) v (find-replace q new old chain c e),
      )

  -- Put in the key's bucket updates the abstract map at the key alone, and keeps the table's shape.
  pub put_at-view :
      (m : RcuHashMap K V) (key : K) (value : V)
      → IsTable m.table
      → let t = (put_at m key value (home key m.table.size)).table in
        IsTable t × ((q : K) → view t q ≡ (if same key q then some value else view m.table q))
  unfolding put_at
  put_at-view m key value v =
      finish_put-view m (record { address = m.fresh; key = key; value = value }) _ v refl

  finish_remove-view :
      (m : RcuHashMap K V) (key : K) (o : Option (Node K V × List (Node K V)))
      → IsTable m.table
      → let i = home key m.table.size in
        unlink key (chain_at m.table i) ≡ o
        → let t = (finish_remove m i o).1.table in
          IsTable t × ((q : K) → view t q ≡ (if same key q then none else view m.table q))
  unfolding finish_remove
  finish_remove-view m key none v e = (
    v,
    λ q. elim (Bool-cases (same key q)) [
      | inl e' ↦ rw e' (
          subst (λ x. view m.table x ≡ none) ((k.equal_iff key q).0 e')
            (unfold view in find-unlink-none key _ e))
      | inr e' ↦ rw e'
    ],
  )
  finish_remove-view m key (some (old, c)) v e =
      let i = home key m.table.size in
      let chain = chain_at m.table i in
      (
        set-home-IsTable m.table key c v
            (λ q. omega (arith, occurrences-unlink q key old chain c e, v.once q i))
            (λ q far. omega (arith, occurrences-unlink q key old chain c e, v.placed q i far)),
        λ q. set-home m.table key q c none v (find-unlink q key old chain c (v.once q i) e),
      )

  grow-room : (m : RcuHashMap K V) → m.count < m.table.size → grow m ≡ some m
  unfolding grow
  grow-room m room = ground arith

  -- Put, while the table need not grow, succeeds and stores the value under the key: every Get then
  -- sees it there, and every other key as before. The table keeps its shape.
  pub put-get :
      (m : RcuHashMap K V) (key : K) (value : V)
      → IsTable m.table
      → m.count < m.table.size
      → (m' : RcuHashMap K V) × (put m key value ≡ some m')
        × IsTable m'.table
        × ((q : K) → get m' q ≡ (if same key q then some (some value) else get m q))
  unfolding put
  put-get m key value v room =
      let (v', sees) = put_at-view m key value v in
      (
        put_at m key value (home key m.table.size),
        rw (grow-room m room, bucket_index-home key m.table.size v.roomy),
        v',
        λ q.
            rw (get-view (put_at m key value (home key m.table.size)) q v', get-view m q v, sees q)
              (ground arith),
      )

  -- Remove is defined on a well-formed table: every Get then finds nothing under its key and every
  -- other key as before, and the table stays well formed.
  pub remove-get :
      (m : RcuHashMap K V) (key : K)
      → IsTable m.table
      → (done : Bool) × (m' : RcuHashMap K V) × (remove m key ≡ some (done, m'))
        × IsTable m'.table
        × ((q : K) → get m' q ≡ (if same key q then some none else get m q))
  unfolding remove
  remove-get m key v =
      let i = home key m.table.size in
      let (v', sees) = finish_remove-view m key (unlink key (chain_at m.table i)) v refl in
      (
        (finish_remove m i (unlink key (chain_at m.table i))).0,
        (finish_remove m i (unlink key (chain_at m.table i))).1,
        rw (bucket_index-home key m.table.size v.roomy),
        v',
        λ q.
            rw
              (
                get-view (finish_remove m i (unlink key (chain_at m.table i))).1 q v',
                get-view m q v,
                sees q,
              )
              (ground arith),
      )
