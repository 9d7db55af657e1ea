-- ===== src/Base/Sums.antt =====
-- Sums of a count over the numbers below a bound.
use Prim.Native.Nat.{ℕ, zero, suc, ◌+◌, ◌*◌, ◌≤◌, ◌<◌}
use mathlib.Core.Path.{◌≡◌, refl, subst, ◌∙◌}
use mathlib.Core.Logic.{◌≢◌}
use mathlib.Core.List.{List, [], ◌∷◌}
use native.Mathlib.Decide.{ℕ_discrete}
use native.Mathlib.Omega.{arith}
use hotpathcplusplus.Base.Lists.{length, count}

-- the sum of a count over the numbers below a bound, such as the threads of a program
abbrev pub sum_below : (ℕ → ℕ) → ℕ → ℕ
sum_below f zero = 0
sum_below f (suc n) = sum_below f n + f n

pub sum_below-congr :
    (f g : ℕ → ℕ) (n : ℕ) → ((j : ℕ) → j < n → f j ≡ g j) → sum_below f n ≡ sum_below g n
sum_below-congr f g zero h = refl
sum_below-congr f g (suc n) h =
    omega (arith, sum_below-congr f g n (λ j lt. h j (omega arith)), h n (omega arith))

pub sum_below-le : (f g : ℕ → ℕ) (n : ℕ) → ((j : ℕ) → f j ≤ g j) → sum_below f n ≤ sum_below g n
sum_below-le f g zero h = omega arith
sum_below-le f g (suc n) h = omega (arith, sum_below-le f g n h, h n)

pub le-sum_below : (f : ℕ → ℕ) (n i : ℕ) → i < n → f i ≤ sum_below f n
le-sum_below f zero i lt = absurd (omega arith)
le-sum_below f (suc n) i lt = elim (ℕ_discrete i n) [
  | yes e ↦ rw e (omega arith)
  | no d ↦ omega (arith, le-sum_below f n i (omega (arith, d)))
]

pub sum_below-bump :
    (f g : ℕ → ℕ) (n i : ℕ)
    → i < n
    → g i ≡ f i + 1
    → ((j : ℕ) → i ≢ j → g j ≡ f j)
    → sum_below g n ≡ sum_below f n + 1
sum_below-bump f g zero i lt one rest = absurd (omega arith)
sum_below-bump f g (suc n) i lt one rest = elim (ℕ_discrete i n) [
  | yes e ↦ omega (
    arith,
    sum_below-congr g f n (λ j low. rest j (omega arith)),
    subst (λ k. g k ≡ f k + 1) e one,
  )
  | no d ↦ omega (arith, sum_below-bump f g n i (omega (arith, d)) one rest, rest n d)
]

pub sum_below-const : (f : ℕ → ℕ) (n a : ℕ) → ((j : ℕ) → j < n → f j ≡ a) → sum_below f n ≡ n * a
sum_below-const f zero a h = omega arith
sum_below-const f (suc n) a h =
    let rest = sum_below-const f n a (λ j lt. h j (omega arith)) in
    let last = h n (omega arith) in grind arith

-- A list of numbers below a bound is as long as it has occurrences of them.
pub sum_below-count :
    (xs : List ℕ) (n : ℕ)
    → ((j : ℕ) → n ≤ j → count j xs ≡ 0)
    → sum_below (λ j. count j xs) n ≡ length xs
sum_below-count [] n h = sum_below-const (λ j. 0) n 0 (λ j lt. refl) ∙ omega arith
sum_below-count (x ∷ xs) n h =
    sum_below-bump (λ j. count j xs) (λ j. count j (x ∷ xs)) n x (below x xs n h) (ground arith)
      (λ j d. ground arith)
    ∙ omega (arith, sum_below-count xs n (λ j le. ground (arith, h j le)))
  where
    below : (y : ℕ) (ys : List ℕ) (m : ℕ) → ((j : ℕ) → m ≤ j → count j (y ∷ ys) ≡ 0) → y < m
    below y ys m none = ground (arith, λ (le : m ≤ y). none y le)
