-- ===== src/Learning/Tiles.antt =====
-- The tiled matrix product computes each cell with the additions of the plain one, in its order.
use hotpathcplusplus.Base.{
  ℕ, ◌+◌, ◌*◌, ◌/◌, ◌%◌, ◌<◌, ◌≤◌, ◌≡◌, ◌≢◌, refl, sym, ap, subst, ◌∙◌, List, get_or, length,
  length-replicate, get_or-replicate, replicate, for_from, for_from-tiles, for_from-keeps,
  length-set, Maps, loop_idle, loop_once, loop_every, range_once, range_idle, arith, dec_lt,
  ℕ_discrete,
}
use native.Mathlib.Nat.{div-lt_iff_lt-mul, div-mul-le_self, lt-div-mul-add, div-add-mod', mod-lt}
use hotpathcplusplus.Base.Cells.{
  same_row, same_column, cell-lt, get_or-ext, IsSized, cell, set-here, set-away,
}
use hotpathcplusplus.Learning.Gemm.{add_product, gemv_cell, gemv, tile_cell, tiled_gemm}

module _ {ℓ} {D : Type ℓ} (plus times : D → D → D) (zero_value : D)
    (batch tile in_tiles out_tiles : ℕ) (w x : List D) where
  abbrev width : ℕ
  width = out_tiles * tile

  abbrev size : ℕ
  size = batch * width

  abbrev product : (b o : ℕ) → ℕ → D → D
  product b o =
      add_product plus times zero_value w x (o * (in_tiles * tile)) (b * (in_tiles * tile))

  -- The dot product of a sample with the weights of an output.
  abbrev dot : (b o : ℕ) → D
  dot b o = for_from (in_tiles * tile) 1 0 (product b o) zero_value

  abbrev plain_round : (b o : ℕ) → List D → List D
  plain_round = gemv_cell plus times zero_value batch tile in_tiles out_tiles w x

  abbrev tile_round : (i0 b o : ℕ) → List D → List D
  tile_round = tile_cell plus times zero_value batch tile in_tiles out_tiles w x

  tile_end : (r n : ℕ) → r < n → r * tile + tile ≤ n * tile
  tile_end r n h = grind arith

  -- One cell, for sample `b` and output `o`.
  module _ (b o : ℕ) (in_batch : b < batch) (in_width : o < width) where
    abbrev here : ℕ
    here = b * width + o

    abbrev OnCell : (D → D) → (List D → List D) → Type ℓ
    OnCell = Maps (IsSized zero_value size here) (cell zero_value size here)

    here-lt : here < size
    here-lt = cell-lt batch width b o in_batch in_width

    -- The index of another sample or output is another.
    elsewhere : (b' o' : ℕ) → o' < width → (b' ≡ b → o' ≢ o) → b' * width + o' ≢ here
    elsewhere b' o' lt d e =
        d (same_row width b' o' b o lt in_width e) (same_column width b' o' b o lt in_width e)

    plain_round-away :
        (b' o' : ℕ)
        → b' < batch
        → o' < width
        → (b' ≡ b → o' ≢ o)
        → OnCell (λ v. v) (plain_round b' o')
    unfolding gemv_cell
    plain_round-away b' o' lt lt' d =
        set-away zero_value size here (b' * width + o') (λ out. dot b' o') (elsewhere b' o' lt' d)
          (cell-lt batch width b' o' lt lt')

    plain_round-here : OnCell (λ v. dot b o) (plain_round b o)
    unfolding gemv_cell
    plain_round-here = set-here zero_value size here here (λ v. dot b o) refl here-lt

    tile_round-away :
        (i0 b' o' : ℕ)
        → b' < batch
        → o' < width
        → (b' ≡ b → o' ≢ o)
        → OnCell (λ v. v) (tile_round i0 b' o')
    unfolding tile_cell
    tile_round-away i0 b' o' lt lt' d =
        set-away zero_value size here (b' * width + o')
          (λ out. for_from tile 1 i0 (product b' o') (get_or out (b' * width + o') zero_value))
          (elsewhere b' o' lt' d) (cell-lt batch width b' o' lt lt')

    tile_round-here : (i0 : ℕ) → OnCell (for_from tile 1 i0 (product b o)) (tile_round i0 b o)
    unfolding tile_cell
    tile_round-here i0 =
        set-here zero_value size here here (for_from tile 1 i0 (product b o)) refl here-lt

    -- The loops over samples and over a range of outputs that holds `o`.
    sweep-here :
        (n o0 : ℕ) (round : (b' o' : ℕ) → List D → List D) (g : D → D)
        → o0 ≤ o
        → o < o0 + n
        → o0 + n ≤ width
        → OnCell g (round b o)
        → ((b' o' : ℕ)
            → b' < batch
            → o' < width
            → (b' ≡ b → o' ≢ o)
            → OnCell (λ v. v) (round b' o'))
        → OnCell g (for_from batch 1 0 (λ b'. for_from n 1 o0 (round b')))
    sweep-here n o0 round g from upto inside touch away =
        range_once (IsSized zero_value size here) (cell zero_value size here) batch 0
          (λ b'. for_from n 1 o0 (round b')) g b (omega arith) (omega arith)
          (range_once (IsSized zero_value size here) (cell zero_value size here) n o0 (round b) g o
            from upto touch (λ o' le lt d. away b o' in_batch (omega arith) (λ e. d)))
          (λ b' le lt d.
            range_idle (IsSized zero_value size here) (cell zero_value size here) n o0 (round b')
              (λ o' le' lt'. away b' o' (omega arith) (omega arith) (λ e. absurd (d e))))

    -- And over a range that does not.
    sweep-away :
        (n o0 : ℕ) (round : (b' o' : ℕ) → List D → List D)
        → (o0 ≤ o → o0 + n ≤ o)
        → o0 + n ≤ width
        → ((b' o' : ℕ)
            → b' < batch
            → o' < width
            → (b' ≡ b → o' ≢ o)
            → OnCell (λ v. v) (round b' o'))
        → OnCell (λ v. v) (for_from batch 1 0 (λ b'. for_from n 1 o0 (round b')))
    sweep-away n o0 round outside inside away =
        range_idle (IsSized zero_value size here) (cell zero_value size here) batch 0
          (λ b'. for_from n 1 o0 (round b'))
          (λ b' le lt.
            range_idle (IsSized zero_value size here) (cell zero_value size here) n o0 (round b')
              (λ o' le' lt'. away b' o' (omega arith) (omega arith) (λ _ e. apart o' le' lt' e)))
      where
        apart : (o' : ℕ) → o0 ≤ o' → o' < o0 + n → o' ≢ o
        apart o' le lt e = absurd (omega (arith, outside (omega arith)))

    gemv-cell : OnCell (λ v. dot b o) (gemv plus times zero_value batch tile in_tiles out_tiles w x)
    unfolding gemv
    gemv-cell =
        sweep-here width 0 plain_round (λ v. dot b o) (omega arith) (omega arith) (omega arith)
          plain_round-here plain_round-away

    -- The tile of the output.
    abbrev round_of : ℕ
    round_of = o / tile

    tile_bounds : (round_of < out_tiles) × (round_of * tile ≤ o) × (o < round_of * tile + tile)
    tile_bounds =
        ((div-lt_iff_lt-mul tile_pos).1 in_width, div-mul-le_self o tile, lt-div-mul-add tile_pos)
      where
        tile_pos : 0 < tile
        tile_pos = elim (ℕ_discrete tile 0) [
          | yes e ↦ absurd (omega (arith, subst (λ k. o < out_tiles * k) e in_width))
          | no d ↦ omega (arith, d)
        ]

    other_tile : (t : ℕ) → t ≢ round_of → t * tile ≤ o → t * tile + tile ≤ o
    other_tile t d le = elim (dec_lt t round_of) [
      | yes lt ↦ omega (arith, tile_end t round_of lt, tile_bounds)
      | no ge ↦ absurd (omega (arith, tile_end round_of t (omega (arith, d, ge)), tile_bounds))
    ]

    abbrev tile_sum : ℕ → D → D
    tile_sum i0 = for_from tile 1 i0 (product b o)

    tiles-cell : OnCell (for_from in_tiles tile 0 tile_sum) (
        for_from out_tiles tile 0 (λ o0.
          for_from in_tiles tile 0
            (λ i0. for_from batch 1 0 (λ b'. for_from tile 1 o0 (tile_round i0 b')))))
    tiles-cell =
        loop_once (IsSized zero_value size here) (cell zero_value size here) out_tiles tile 0
          (λ o0.
            for_from in_tiles tile 0
              (λ i0. for_from batch 1 0 (λ b'. for_from tile 1 o0 (tile_round i0 b'))))
          (for_from in_tiles tile 0 tile_sum) round_of tile_bounds.0
          (loop_every (IsSized zero_value size here) (cell zero_value size here) in_tiles tile 0
            (λ i0.
              for_from batch 1 0 (λ b'. for_from tile 1 (0 + round_of * tile) (tile_round i0 b')))
            tile_sum
            (λ t lt.
              sweep-here tile (0 + round_of * tile) (tile_round (0 + t * tile))
                (tile_sum (0 + t * tile)) (omega (arith, tile_bounds)) (omega (arith, tile_bounds))
                (omega (arith, tile_end round_of out_tiles tile_bounds.0))
                (tile_round-here (0 + t * tile)) (tile_round-away (0 + t * tile))))
          (λ r lt d.
            loop_idle (IsSized zero_value size here) (cell zero_value size here) in_tiles tile 0
              (λ i0. for_from batch 1 0 (λ b'. for_from tile 1 (0 + r * tile) (tile_round i0 b')))
              (λ t lt'.
                sweep-away tile (0 + r * tile) (tile_round (0 + t * tile))
                  (λ le. omega (arith, other_tile r d (omega (arith, le))))
                  (omega (arith, tile_end r out_tiles lt)) (tile_round-away (0 + t * tile))))

    tiled_gemm-cell :
        (out : List D)
        → length out ≡ size
        → (length (tiled_gemm plus times zero_value batch tile in_tiles out_tiles w x out) ≡ size)
          × (get_or
                (tiled_gemm plus times zero_value batch tile in_tiles out_tiles w x out)
                here
                zero_value
              ≡ dot b o)
    unfolding tiled_gemm
    tiled_gemm-cell out h =
        let (sized, seen) =
          tiles-cell (replicate (length out) zero_value)
            (tt, length-replicate (length out) zero_value ∙ h) in
        (
          sized.1,
          seen
              ∙ ap (for_from in_tiles tile 0 tile_sum)
                  (get_or-replicate (length out) here zero_value)
              ∙ for_from-tiles in_tiles tile 0 (product b o) zero_value,
        )

  loop-length :
      (n stride i : ℕ) (body : ℕ → List D → List D)
      → ((k : ℕ) (out : List D) → length (body k out) ≡ length out)
      → (out : List D) → length (for_from n stride i body out) ≡ length out
  loop-length n stride i body keep out =
      for_from-keeps (λ t u. length u ≡ length out) n stride i body
        (λ t u lt e. keep (i + t * stride) u ∙ e) out refl

  gemv-length :
      (out : List D)
      → length (gemv plus times zero_value batch tile in_tiles out_tiles w x out) ≡ length out
  unfolding gemv gemv_cell
  gemv-length =
      loop-length batch 1 0 (λ b. for_from width 1 0 (plain_round b))
        (λ b.
          loop-length width 1 0 (plain_round b) (λ o out. length-set out (b * width + o) (dot b o)))

  tiled_gemm-length :
      (out : List D)
      → length (tiled_gemm plus times zero_value batch tile in_tiles out_tiles w x out) ≡ length out
  unfolding tiled_gemm tile_cell
  tiled_gemm-length out =
      loop-length out_tiles tile 0
        (λ o0.
          for_from in_tiles tile 0
            (λ i0. for_from batch 1 0 (λ b. for_from tile 1 o0 (tile_round i0 b))))
        (λ o0.
          loop-length in_tiles tile 0
            (λ i0. for_from batch 1 0 (λ b. for_from tile 1 o0 (tile_round i0 b)))
            (λ i0.
              loop-length batch 1 0 (λ b. for_from tile 1 o0 (tile_round i0 b))
                (λ b. loop-length tile 1 o0 (tile_round i0 b) (λ o u.
                  length-set u (b * width + o)
                    (for_from tile 1 i0 (product b o) (get_or u (b * width + o) zero_value))))))
        (replicate (length out) zero_value)
      ∙ length-replicate (length out) zero_value

  -- An index below the size is a cell.
  index_cell :
      (p : ℕ) → p < size → (b : ℕ) × (o : ℕ) × (b < batch) × (o < width) × (b * width + o ≡ p)
  index_cell p h = (
    p / width,
    p % width,
    (div-lt_iff_lt-mul width_pos).1 h,
    mod-lt p width_pos,
    div-add-mod' p width,
  )
    where
      width_pos : 0 < width
      width_pos = elim (ℕ_discrete width 0) [
        | yes e ↦ absurd (omega (arith, subst (λ k. p < batch * k) e h))
        | no d ↦ omega (arith, d)
      ]

  -- The tiled product fills the output as the plain one does, cell by cell with the same additions in
  -- the same order, so that not even rounding tells them apart: from any two outputs of the right
  -- length, and over any arithmetic.
  pub tiled_gemm-gemv :
      (out out' : List D)
      → length out ≡ batch * (out_tiles * tile)
      → length out' ≡ batch * (out_tiles * tile)
      → tiled_gemm plus times zero_value batch tile in_tiles out_tiles w x out
        ≡ gemv plus times zero_value batch tile in_tiles out_tiles w x out'
  tiled_gemm-gemv out out' h h' =
      get_or-ext zero_value (tiled_gemm plus times zero_value batch tile in_tiles out_tiles w x out)
        (gemv plus times zero_value batch tile in_tiles out_tiles w x out')
        (tiled_gemm-length out ∙ h ∙ sym (gemv-length out' ∙ h')) cells
    where
      cells :
          (p : ℕ)
          → p < length (tiled_gemm plus times zero_value batch tile in_tiles out_tiles w x out)
          → get_or
              (tiled_gemm plus times zero_value batch tile in_tiles out_tiles w x out)
              p
              zero_value
            ≡ get_or
                (gemv plus times zero_value batch tile in_tiles out_tiles w x out')
                p
                zero_value
      cells p lt =
          let (b, o, in_batch, in_width, e) =
            index_cell p (subst (λ n. p < n) (tiled_gemm-length out ∙ h) lt) in
          subst
            (λ q.
              get_or (tiled_gemm plus times zero_value batch tile in_tiles out_tiles w x out) q
                zero_value
              ≡ get_or (gemv plus times zero_value batch tile in_tiles out_tiles w x out') q
                  zero_value)
            e
            ((tiled_gemm-cell b o in_batch in_width out h).1
              ∙ sym (gemv-cell b o in_batch in_width out' (tt, h')).1)
