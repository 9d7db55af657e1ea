-- ===== src/RcuMap/Growth.antt =====
-- Resize keeps the abstract map, and so Put does what it should on a full table too.
use hotpathcplusplus.Base.{
  ℕ, ◌*◌, ◌^◌, ◌<◌, ◌≡◌, refl, ◌∙◌, inl, inr, List, [], ◌∷◌, Option, none, some, get_or, replicate,
  length-replicate, get_or-replicate, leb, mul64, if◌then◌else◌, arith, Bool-cases,
}
use hotpathcplusplus.RcuMap.Table.{
  Key, Node, Table, Retired, RcuHashMap, same, find, get, put_at, put, resize, grow,
}
use hotpathcplusplus.RcuMap.Walks.{occurrences}
use hotpathcplusplus.RcuMap.View.{
  home, bucket_index-home, chain_at, view, IsTable, get-view, put_at-view,
}
use hotpathcplusplus.RcuMap.Rehash.{
  or_else, flat, occurrences-flat, find-flat, Copied, copy_chain-Copied, copy_all-flat,
}

module _ {ℓ} {K V : Type ℓ} ⦃k : Key K⦄ where
  -- A copy of a well formed table into empty buckets.
  Copied-IsTable :
      (t : Table K V) (size : ℕ) (bs : List (List (Node K V)))
      → 0 < size
      → IsTable t
      → Copied size (flat t.buckets) (replicate size []) bs
      → IsTable (record { buckets = bs; size = size })
        × ((q : K) → view (record { buckets = bs; size = size }) q ≡ view t q)
  unfolding view find occurrences
  Copied-IsTable t size bs pos v c = (
    record {
      width = c.width;
      roomy = pos;
      once = λ q i. ground (arith, c.counts q i, empty q i, all q, v.once q (home q t.size));
      placed = λ q i far. ground (arith, c.counts q i, empty q i);
    },
    λ q.
        c.finds q (omega (arith, all q, v.once q (home q t.size)))
        ∙ rw (get_or-replicate {A = List (Node K V)} size (home q size) [])
            (nothing (find q (flat t.buckets)))
        ∙ find-flat q (home q t.size) t.buckets (λ j d. v.placed q j d),
  )
    where
      nothing : (o : Option V) → or_else o none ≡ o
      nothing none = refl
      nothing (some a) = refl

      all : (q : K) → occurrences q (flat t.buckets) ≡ occurrences q (chain_at t (home q t.size))
      all q = occurrences-flat q (home q t.size) t.buckets (λ j d. v.placed q j d)

      empty :
          (q : K) (i : ℕ)
          → occurrences q (get_or (replicate {A = List (Node K V)} size []) i []) ≡ 0
      empty q i = rw (get_or-replicate {A = List (Node K V)} size i []) refl

  -- Resize to a size above 0 succeeds, and every key is found as before.
  pub resize-view :
      (m : RcuHashMap K V) (size : ℕ)
      → 0 < size
      → IsTable m.table
      → (m' : RcuHashMap K V) × (resize m size ≡ some m')
        × IsTable m'.table
        × ((q : K) → view m'.table q ≡ view m.table q)
  unfolding resize
  resize-view m size pos v =
      let (fresh, bs, e, c) =
        copy_chain-Copied size m.fresh (flat m.table.buckets) (replicate size []) pos
          (length-replicate {A = List (Node K V)} size []) in
      let (v', sees) = Copied-IsTable m.table size bs pos v c in
      (
        record m {
          table = record { buckets = bs; size = size };
          fresh = fresh;
          retired = Retired.table ∷ m.retired;
        },
        rw (copy_all-flat size m.table.buckets (m.fresh, replicate size []), e),
        v',
        sees,
      )

  grow-view :
      (m : RcuHashMap K V)
      → m.table.size * 2 < 2 ^ 64
      → IsTable m.table
      → (m' : RcuHashMap K V) × (grow m ≡ some m')
        × IsTable m'.table
        × ((q : K) → view m'.table q ≡ view m.table q)
  unfolding grow
  grow-view m room v = elim (Bool-cases (leb m.table.size m.count)) [
    | inl full ↦ rw full (resize-view m (mul64 m.table.size 2) (omega (arith, v.roomy)) v)
    | inr spare ↦ rw spare (m, refl, v, (λ q. refl))
  ]

  -- Put succeeds, also where the table has to grow first: every Get then sees the value under the key,
  -- and every other key as before. The table keeps its shape; its size doubled fits in 64 bits.
  pub get-put :
      (m : RcuHashMap K V) (key : K) (value : V)
      → IsTable m.table
      → m.table.size * 2 < 2 ^ 64
      → (m' : RcuHashMap K V) × (put m key value ≡ some m')
        × IsTable m'.table
        × ((q : K) → get m' q ≡ (if same key q then some (some value) else get m q))
  unfolding put
  get-put m key value v room =
      let (g, e, w, as_before) = grow-view m room v in
      let (v', sees) = put_at-view g key value w in
      (
        put_at g key value (home key g.table.size),
        rw (e, bucket_index-home key g.table.size w.roomy),
        v',
        λ q.
            rw
              (
                get-view (put_at g key value (home key g.table.size)) q v',
                get-view m q v,
                sees q,
                as_before q,
              )
              (ground arith),
      )
