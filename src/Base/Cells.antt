-- ===== src/Base/Cells.antt =====
-- Row-major matrices in flat vectors: a cell's index, and what a store into one cell does to another.
use Prim.Native.Nat.{ℕ, suc, ◌+◌, ◌*◌, ◌/◌, ◌<◌}
use mathlib.Core.Path.{◌≡◌, refl, sym, ap, ap₂, subst, ◌∙◌}
use mathlib.Core.Logic.{◌≢◌}
use mathlib.Core.List.{List, [], ◌∷◌}
use native.Mathlib.Nat.{mul-add-div_right, div-eq_of_lt}
use native.Mathlib.Omega.{arith}
use hotpathcplusplus.Base.Tests.{==-at, ==-off}
use hotpathcplusplus.Base.Lists.{length, get_or, set, length-set, get_or-set}
use hotpathcplusplus.Base.Loops.{Maps, for_from, for_from-keeps, range_once, range_idle}

-- The row of a cell is the quotient of its index.
cell_row : (width row col : ℕ) → col < width → (row * width + col) / width ≡ row
cell_row width row col h = mul-add-div_right (omega arith) row col ∙ omega (arith, div-eq_of_lt h)

pub same_row :
    (width row col row' col' : ℕ)
    → col < width
    → col' < width
    → row * width + col ≡ row' * width + col'
    → row ≡ row'
same_row width row col row' col' h h' e =
    sym (cell_row width row col h) ∙ ap (λ (p : ℕ). p / width) e ∙ cell_row width row' col' h'

pub same_column :
    (width row col row' col' : ℕ)
    → col < width
    → col' < width
    → row * width + col ≡ row' * width + col'
    → col ≡ col'
same_column width row col row' col' h h' e = apart (
    subst (λ r. row * width + col ≡ r * width + col')
      (sym (same_row width row col row' col' h h' e)) e)
  where
    apart : row * width + col ≡ row * width + col' → col ≡ col'
    apart q = omega arith

-- A cell lies inside the matrix.
pub cell-lt :
    (height width row col : ℕ) → row < height → col < width → row * width + col < height * width
cell-lt height width row col h k = grind arith

module _ {ℓ} {D : Type ℓ} (d : D) where
  -- Vectors of one length with the same cells are equal.
  pub get_or-ext :
      (xs ys : List D)
      → length xs ≡ length ys
      → ((i : ℕ) → i < length xs → get_or xs i d ≡ get_or ys i d)
      → xs ≡ ys
  get_or-ext [] [] e h = refl
  get_or-ext [] (y ∷ ys) e h = absurd (omega arith)
  get_or-ext (x ∷ xs) [] e h = absurd (omega arith)
  get_or-ext (x ∷ xs) (y ∷ ys) e h =
      ap₂ (λ (a : D) (zs : List D). a ∷ zs) (h 0 (omega arith))
        (get_or-ext xs ys (omega arith) (λ i lt. h (suc i) (omega arith)))

  module _ (size p : ℕ) where
    abbrev pub IsSized : List D → Type ℓ
    IsSized xs = Unit {ℓ} × (length xs ≡ size)

    abbrev pub cell : List D → D
    cell xs = get_or xs p d

    -- A store into the observed cell, computed from what it holds.
    pub set-here :
        (q : ℕ) (g : D → D)
        → q ≡ p
        → p < size
        → Maps IsSized cell g (λ xs. set xs q (g (get_or xs q d)))
    set-here q g e h xs v = (
      (tt, length-set xs q _ ∙ v.1),
      get_or-set xs q p _ d (omega (arith, v.1, e)) ∙ grind (arith, ==-at e, e),
    )

    -- A store elsewhere.
    pub set-away :
        (q : ℕ) (value : List D → D)
        → q ≢ p
        → q < size
        → Maps IsSized cell (λ v. v) (λ xs. set xs q (value xs))
    set-away q value w h xs v = (
      (tt, length-set xs q _ ∙ v.1),
      get_or-set xs q p _ d (omega (arith, v.1)) ∙ grind (arith, ==-off w),
    )

  -- A loop that stores a value computed from the index alone, as the copying loops do.
  abbrev pub stores : (n : ℕ) → (ℕ → D) → List D → List D
  stores n f = for_from n 1 0 (λ i xs. set xs i (f i))

  pub stores-length : (n : ℕ) (f : ℕ → D) (xs : List D) → length (stores n f xs) ≡ length xs
  stores-length n f xs =
      for_from-keeps (λ t u. length u ≡ length xs) n 1 0 (λ i u. set u i (f i))
        (λ t u lt e. length-set u (0 + t * 1) (f (0 + t * 1)) ∙ e) xs refl

  pub stores-cell :
      (n : ℕ) (f : ℕ → D) (xs : List D) (p : ℕ)
      → p < n
      → length xs ≡ n
      → get_or (stores n f xs) p d ≡ f p
  stores-cell n f xs p lt h =
      (range_once (IsSized n p) (cell n p) n 0 (λ i u. set u i (f i)) (λ v. f p) p (omega arith)
        (omega arith) (set-here n p p (λ v. f p) refl lt)
        (λ k le lt' w. set-away n p k (λ u. f k) w (omega arith)) xs (tt, h)).1

  -- A loop that stores one row of a matrix, seen from the cell in row `row` and column `col`.
  module _ (height width row col : ℕ) (in_height : row < height) (in_width : col < width) where
    abbrev pub OnRow : (D → D) → (List D → List D) → Type ℓ
    OnRow =
        Maps (IsSized (height * width) (row * width + col))
          (cell (height * width) (row * width + col))

    abbrev pub fill_row : (r : ℕ) (f : ℕ → D) → List D → List D
    fill_row r f = for_from width 1 0 (λ c xs. set xs (r * width + c) (f c))

    pub row-here : (f : ℕ → D) → OnRow (λ v. f col) (fill_row row f)
    row-here f =
        range_once (IsSized (height * width) (row * width + col))
          (cell (height * width) (row * width + col)) width 0
          (λ c xs. set xs (row * width + c) (f c)) (λ v. f col) col (omega arith) (omega arith)
          (set-here (height * width) (row * width + col) (row * width + col) (λ v. f col) refl
            (cell-lt height width row col in_height in_width))
          (λ c le lt w.
            set-away (height * width) (row * width + col) (row * width + c) (λ xs. f c)
              (λ e. w (same_column width row c row col (omega arith) in_width e))
              (cell-lt height width row c in_height (omega arith)))

    pub row-away : (r : ℕ) (f : ℕ → D) → r < height → r ≢ row → OnRow (λ v. v) (fill_row r f)
    row-away r f in_r w =
        range_idle (IsSized (height * width) (row * width + col))
          (cell (height * width) (row * width + col)) width 0 (λ c xs. set xs (r * width + c) (f c))
          (λ c le lt.
            set-away (height * width) (row * width + col) (r * width + c) (λ xs. f c)
              (λ e. w (same_row width r c row col (omega arith) in_width e))
              (cell-lt height width r c in_r (omega arith)))
