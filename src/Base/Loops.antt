-- ===== src/Base/Loops.antt =====
-- Counting loops over a mutable state, `for (i = start; ...; i += stride)`, and what a loop does to
-- one observed place of that state.
use Prim.Native.Nat.{ℕ, zero, suc, ◌+◌, ◌-◌, ◌*◌, ◌<◌, ◌≤◌}
use mathlib.Core.Path.{◌≡◌, refl, subst, sym, ap, ap₂, ◌∙◌}
use mathlib.Core.Logic.{◌≢◌}
use native.Mathlib.Decide.{ℕ_discrete}
use native.Mathlib.Nat.{suc-add}
use native.Mathlib.Omega.{arith}

-- `n` rounds, the first at index `i`
unfoldable pub for_from {ℓ} : {S : Type ℓ} (n stride i : ℕ) → (ℕ → S → S) → S → S
for_from zero stride i body s = s
for_from (suc n) stride i body s = for_from n stride (i + stride) body (body i s)

-- A loop keeps what each of its rounds keeps; round `t` is at index `i + t * stride`.
pub for_from-keeps {ℓ κ} :
    {S : Type ℓ} (P : ℕ → S → Type κ) (n stride i : ℕ) (body : ℕ → S → S)
    → ((t : ℕ) (s : S) → t < n → P t s → P (suc t) (body (i + t * stride) s))
    → (s : S) → P 0 s
    → P n (for_from n stride i body s)
unfolding for_from
for_from-keeps P zero stride i body keep s p = p
for_from-keeps {S} P (suc n) stride i body keep s p =
    for_from-keeps (λ t. P (suc t)) n stride (i + stride) body later (body i s) first
  where
    first : P 1 (body i s)
    first = subst (λ j. P 1 (body j s)) (omega arith) (keep 0 s (omega arith) p)

    later :
        (t : ℕ) (u : S) → t < n → P (suc t) u → P (suc (suc t)) (body (i + stride + t * stride) u)
    later t u lt q =
        subst (λ j. P (suc (suc t)) (body j u)) (omega arith) (keep (suc t) u (omega arith) q)

module _ {ℓ κ} {S : Type ℓ} {D : Type κ} (Inv : S → Type ℓ) (view : S → D) where
  -- `f` keeps the invariant, and takes what is seen of the state along `g`.
  abbrev pub Maps : (D → D) → (S → S) → Type (ℓ ⊔ κ)
  Maps g f = (s : S) → Inv s → Inv (f s) × (view (f s) ≡ g (view s))

  -- No round touches the place.
  pub loop_idle :
      (n stride i : ℕ) (body : ℕ → S → S)
      → ((t : ℕ) → t < n → Maps (λ v. v) (body (i + t * stride)))
      → Maps (λ v. v) (for_from n stride i body)
  loop_idle n stride i body idle s v =
      for_from-keeps (λ t u. Inv u × (view u ≡ view s)) n stride i body
        (λ t u lt (w, e). let (w', e') = idle t lt u w in (w', e' ∙ e)) s (v, refl)

  -- One round of the loop takes the place along `g`, and no other touches it.
  pub loop_once :
      (n stride i : ℕ) (body : ℕ → S → S) (g : D → D) (r : ℕ)
      → r < n
      → Maps g (body (i + r * stride))
      → ((t : ℕ) → t < n → t ≢ r → Maps (λ v. v) (body (i + t * stride)))
      → Maps g (for_from n stride i body)
  loop_once n stride i body g r here touch idle s v =
      let (kept, before, after) =
        for_from-keeps (λ t u. Inv u × (t ≤ r → view u ≡ view s) × (r < t → view u ≡ g (view s))) n
          stride i body round s (v, λ le. refl, λ lt. absurd (omega arith)) in
      (kept, after here)
    where
      round :
          (t : ℕ) (u : S)
          → t < n
          → Inv u × (t ≤ r → view u ≡ view s) × (r < t → view u ≡ g (view s))
          → Inv (body (i + t * stride) u)
            × (suc t ≤ r → view (body (i + t * stride) u) ≡ view s)
            × (r < suc t → view (body (i + t * stride) u) ≡ g (view s))
      round t u lt (w, before, after) = elim (ℕ_discrete t r) [
        | yes e ↦
            let (w', e') = subst (λ j. Maps g (body (i + j * stride))) (sym e) touch u w in
            (w', λ le. absurd (omega arith), λ _. e' ∙ ap g (before (omega arith)))
        | no d ↦
            let (w', e') = idle t lt d u w in
            (w', λ le. e' ∙ before (omega arith), λ gt. e' ∙ after (omega arith))
      ]

  -- The same for a loop over the indices from `i`, told by the index.
  pub range_idle :
      (n i : ℕ) (body : ℕ → S → S)
      → ((k : ℕ) → i ≤ k → k < i + n → Maps (λ v. v) (body k))
      → Maps (λ v. v) (for_from n 1 i body)
  range_idle n i body idle =
      loop_idle n 1 i body (λ t lt. idle (i + t * 1) (omega arith) (omega arith))

  pub range_once :
      (n i : ℕ) (body : ℕ → S → S) (g : D → D) (j : ℕ)
      → i ≤ j
      → j < i + n
      → Maps g (body j)
      → ((k : ℕ) → i ≤ k → k < i + n → k ≢ j → Maps (λ v. v) (body k))
      → Maps g (for_from n 1 i body)
  range_once n i body g j le lt touch idle =
      loop_once n 1 i body g (j - i) (omega arith)
        (subst (λ k. Maps g (body k)) (omega arith) touch)
        (λ t in_loop d. idle (i + t * 1) (omega arith) (omega arith) (omega arith))

  -- Every round takes the place along its own map.
  pub loop_every :
      (n stride i : ℕ) (body : ℕ → S → S) (g : ℕ → D → D)
      → ((t : ℕ) → t < n → Maps (g (i + t * stride)) (body (i + t * stride)))
      → Maps (for_from n stride i g) (for_from n stride i body)
  unfolding for_from
  loop_every zero stride i body g touch s v = (v, refl)
  loop_every (suc n) stride i body g touch s v =
      let (w, e) = first s v in
      let (w', e') = loop_every n stride (i + stride) body g later (body i s) w in
      (w', e' ∙ ap (for_from n stride (i + stride) g) e)
    where
      first : Maps (g i) (body i)
      first = subst (λ j. Maps (g j) (body j)) (omega arith) (touch 0 (omega arith))

      later : (t : ℕ) → t < n → Maps (g (i + stride + t * stride)) (body (i + stride + t * stride))
      later t lt = subst (λ j. Maps (g j) (body j)) (omega arith) (touch (suc t) (omega arith))

-- the same number of rounds from the same index
for_from-at {ℓ} :
    {S : Type ℓ} (m n i j : ℕ) (body : ℕ → S → S) (s : S)
    → m ≡ n
    → i ≡ j
    → for_from m 1 i body s ≡ for_from n 1 j body s
for_from-at m n i j body s e f = ap₂ (λ (a b : ℕ). for_from a 1 b body s) e f

for_from-append {ℓ} :
    {S : Type ℓ} (m n i : ℕ) (body : ℕ → S → S) (s : S)
    → for_from (m + n) 1 i body s ≡ for_from n 1 (i + m) body (for_from m 1 i body s)
unfolding for_from
for_from-append zero n i body s = for_from-at (0 + n) n i (i + 0) body s (omega arith) (omega arith)
for_from-append (suc m) n i body s =
    for_from-at (suc m + n) (suc (m + n)) i i body s (suc-add m n) refl
    ∙ for_from-append m n (i + 1) body (body i s)
    ∙ for_from-at n n (i + 1 + m) (i + suc m) body (for_from m 1 (i + 1) body (body i s)) refl
        (omega arith)

-- A loop over tiles that loops over the indices of its tile is the loop over all indices.
pub for_from-tiles {ℓ} :
    {S : Type ℓ} (n tile i : ℕ) (body : ℕ → S → S) (s : S)
    → for_from n tile i (λ j. for_from tile 1 j body) s ≡ for_from (n * tile) 1 i body s
unfolding for_from
for_from-tiles zero tile i body s = for_from-at 0 (0 * tile) i i body s (omega arith) refl
for_from-tiles (suc n) tile i body s =
    for_from-tiles n tile (i + tile) body (for_from tile 1 i body s)
    ∙ sym (for_from-append tile (n * tile) i body s)
    ∙ for_from-at (tile + n * tile) (suc n * tile) i i body s (omega arith) refl

-- Bodies that agree on the indices of a loop give the same loop.
pub for_from-congr {ℓ} :
    {S : Type ℓ} (n i : ℕ) (f g : ℕ → S → S) (s : S)
    → ((k : ℕ) (u : S) → i ≤ k → k < i + n → f k u ≡ g k u)
    → for_from n 1 i f s ≡ for_from n 1 i g s
unfolding for_from
for_from-congr zero i f g s h = refl
for_from-congr (suc n) i f g s h =
    ap (for_from n 1 (i + 1) f) (h i s (omega arith) (omega arith))
    ∙ for_from-congr n (i + 1) f g (g i s) (λ k u le lt. h k u (omega arith) (omega arith))
