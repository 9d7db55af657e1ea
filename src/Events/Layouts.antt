-- ===== src/Events/Layouts.antt =====
-- RunBattle2Suite of common/cpp_vs_java_jit/challenge.cc without its clocks: the exposure of the same
-- orders through a shuffled array of pointers, in a vector of structures, and in columns. A pointer
-- is the index of its order in the storage; std::shuffle is a parameter.
use hotpathcplusplus.Base.{
  ℕ, zero, suc, ◌+◌, ◌-◌, ◌%◌, ◌≤◌, ◌<◌, ◌≡◌, refl, ap, ap₂, ◌∙◌, List, [], ◌∷◌, get_or, bit_and,
  ◌==◌, if◌then◌else◌, add64, mul64, u64_mod, arith,
}
use hotpathcplusplus.Base.Bits.{bit_and-ones}
use hotpathcplusplus.Events.Slab.{Order, column, new_book}
use mathlib.Core.List.{Perm, Permᴰ}
use mathlib.Core.Logic.{∥∥₁_elim}
use native.Mathlib.Nat.{ℕ_set}

-- order `i` of every layout
unfoldable pub make_order : ℕ → Order
make_order i = record {
  order_id = i;
  price = 1000 + i % 1024;
  qty = 1 + i % 32;
  symbol_id = i % 256;
  flags = 1;
}

-- `n` orders from order `i` on: the vector of structures, and the storage behind the pointers
unfoldable pub orders_from : ℕ → ℕ → List Order
orders_from i zero = []
orders_from i (suc n) = make_order i ∷ orders_from (i + 1) n

-- `if (o.flags == kOrderFlagActiveBuy) total_exposure += o.price * o.qty`
unfoldable pub add_exposure : ℕ → Order → ℕ
add_exposure total o = if o.flags == 1 then add64 total (mul64 o.price o.qty) else total

-- a pass over a vector of orders, from a total
unfoldable pub scan_orders : ℕ → List Order → ℕ
scan_orders total [] = total
scan_orders total (o ∷ os) = scan_orders (add_exposure total o) os

-- a pass over an array of pointers into a storage
unfoldable pub scan_pointers : List Order → ℕ → List ℕ → ℕ
scan_pointers storage total [] = total
scan_pointers storage total (p ∷ ps) =
    scan_pointers storage (add_exposure total (get_or storage p (make_order 0))) ps

-- a pass over the columns: `total_exposure += (px[i] * qt[i]) & mk[i]`
unfoldable pub scan_columns : ℕ → (prices qtys masks : List ℕ) → ℕ
scan_columns total (p ∷ ps) (q ∷ qs) (m ∷ ms) =
    scan_columns (add64 total (bit_and (mul64 p q) m)) ps qs ms
scan_columns total _ _ _ = total

-- one pass of each of the three blocks, over `n` orders
unfoldable pub pointer_array_exposure : (List ℕ → List ℕ) → ℕ → ℕ
pointer_array_exposure shuffle n = scan_pointers (orders_from 0 n) 0 (shuffle (column (λ i. i) 0 n))

unfoldable pub vector_exposure : ℕ → ℕ
vector_exposure n = scan_orders 0 (orders_from 0 n)

unfoldable pub book_exposure : ℕ → ℕ
book_exposure n = let soa = new_book n in scan_columns 0 soa.prices soa.qtys soa.masks

-- Two orders may be added in either order.
add_exposure_comm :
    (total : ℕ) (a b : Order)
    → add_exposure (add_exposure total a) b ≡ add_exposure (add_exposure total b) a
unfolding add_exposure
add_exposure_comm total a b = ground arith

scan_pointers-perm :
    (storage : List Order) (total : ℕ) {ps qs : List ℕ}
    → Permᴰ ps qs
    → scan_pointers storage total ps ≡ scan_pointers storage total qs
unfolding scan_pointers
scan_pointers-perm storage total Permᴰ.nil = refl
scan_pointers-perm storage total (Permᴰ.cons {a = a} {l₂ = qs} e d) =
    scan_pointers-perm storage (add_exposure total (get_or storage a (make_order 0))) d
    ∙ ap
        (λ (p : ℕ). scan_pointers storage (add_exposure total (get_or storage p (make_order 0))) qs)
        e
scan_pointers-perm storage total (Permᴰ.swap {a = a} {b = b} {l = ps} e f) =
    let order = λ (p : ℕ). get_or storage p (make_order 0) in
    ap (λ (t : ℕ). scan_pointers storage t ps) (add_exposure_comm total (order a) (order b))
    ∙ ap₂
        (λ (p q : ℕ).
          scan_pointers storage (add_exposure (add_exposure total (order p)) (order q)) ps)
        f e
scan_pointers-perm storage total (Permᴰ.trans d d') =
    scan_pointers-perm storage total d ∙ scan_pointers-perm storage total d'

get_or-orders_from :
    (i n j : ℕ) → j < n → get_or (orders_from i n) j (make_order 0) ≡ make_order (i + j)
unfolding orders_from
get_or-orders_from i zero j h = absurd (omega arith)
get_or-orders_from i (suc n) zero h = ap make_order (omega arith)
get_or-orders_from i (suc n) (suc j) h =
    get_or-orders_from (i + 1) n j (omega arith) ∙ ap make_order (omega arith)

scan_pointers-column :
    (storage : List Order) (total i n : ℕ)
    → ((j : ℕ) → i ≤ j → j < i + n → get_or storage j (make_order 0) ≡ make_order j)
    → scan_pointers storage total (column (λ k. k) i n) ≡ scan_orders total (orders_from i n)
unfolding scan_pointers scan_orders column orders_from
scan_pointers-column storage total i zero h = refl
scan_pointers-column storage total i (suc n) h =
    ap
      (λ (o : Order).
        scan_pointers storage (add_exposure total o) (column (λ (k : ℕ). k) (i + 1) n))
      (h i (omega arith) (omega arith))
    ∙ scan_pointers-column storage (add_exposure total (make_order i)) (i + 1) n
        (λ j le lt. h j (omega arith) (omega arith))

scan_columns-orders :
    (total i n : ℕ)
    → scan_columns total
        (column (λ k. 1000 + k % 1024) i n)
        (column (λ k. 1 + k % 32) i n)
        (column (λ k. u64_mod - 1) i n)
      ≡ scan_orders total (orders_from i n)
unfolding scan_columns scan_orders column orders_from add_exposure make_order
scan_columns-orders total i zero = refl
scan_columns-orders total i (suc n) =
    rw (bit_and-ones 64 (mul64 (1000 + i % 1024) (1 + i % 32)) (omega arith))
      (scan_columns-orders (add64 total (mul64 (1000 + i % 1024) (1 + i % 32))) (i + 1) n)

-- A shuffled array of pointers, the vector and the columns have the same exposure, for any number of
-- orders and any shuffle that reorders the pointers.
pub exposures_agree :
    (shuffle : List ℕ → List ℕ) (n : ℕ)
    → ((ps : List ℕ) → Perm (shuffle ps) ps)
    → (pointer_array_exposure shuffle n ≡ vector_exposure n) × (book_exposure n ≡ vector_exposure n)
unfolding pointer_array_exposure vector_exposure book_exposure new_book
exposures_agree shuffle n reorders =
    let storage = orders_from 0 n in
    let ps = column (λ i. i) 0 n in
    (
      ∥∥₁_elim (reorders ps) (ℕ_set _ _) (scan_pointers-perm storage 0)
          ∙ scan_pointers-column storage 0 0 n
              (λ j le lt. get_or-orders_from 0 n j (omega arith) ∙ ap make_order (omega arith)),
      scan_columns-orders 0 0 n,
    )
