-- ===== src/Mesi/Magazine.antt =====
-- ThreadMagazine: the buffers that a thread keeps, as an array and a count. A buffer is known by its
-- address, and 0 is the null pointer.
use hotpathcplusplus.Base.{
  ℕ, zero, suc, ◌+◌, ◌-◌, ◌<◌, ◌≤◌, ◌≡◌, ◌≢◌, ◌⊎◌, inl, inr, refl, sym, subst, true, false, Bool,
  List, [], ◌∷◌, Option, none, some, length, get_or, set, replicate, length-set, get_or-set, ◌==◌,
  if◌then◌else◌, ℕ_discrete, arith,
}

pub record ThreadMagazine : Type 0 where
  pub slots : List ℕ
  pub count : ℕ

abbrev pub new_magazine : ℕ → ThreadMagazine
new_magazine capacity = record { slots = replicate capacity 0; count = 0 }

-- `none` for nullptr
unfoldable pub try_pop_local : ThreadMagazine → Option ℕ × ThreadMagazine
try_pop_local m =
    if m.count == 0
    then (none, m)
    else (some (get_or m.slots (m.count - 1) 0), record m { count = m.count - 1 })

-- false and no change if the magazine is full
unfoldable pub try_push_local : ThreadMagazine → ℕ → Bool × ThreadMagazine
try_push_local m buf =
    if m.count == length m.slots
    then (false, m)
    else (true, record { slots = set m.slots m.count buf; count = m.count + 1 })

-- The buffers that the magazine holds, the last one in first.
unfoldable pub held_below : List ℕ → ℕ → List ℕ
held_below slots zero = []
held_below slots (suc n) = get_or slots n 0 ∷ held_below slots n

unfoldable pub held : ThreadMagazine → List ℕ
held m = held_below m.slots m.count

held_below-set :
    (slots : List ℕ) (n i v : ℕ)
    → n ≤ i
    → i < length slots
    → held_below (set slots i v) n ≡ held_below slots n
unfolding held_below
held_below-set slots zero i v h l = refl
held_below-set slots (suc n) i v h l =
    ground (arith, get_or-set slots i n v 0 l, held_below-set slots n i v (omega arith) l)

-- The magazine is a stack of bounded height: a push that succeeds puts the buffer on top, one that
-- meets a full array is refused and changes nothing.
pub try_push_local-held :
    (m : ThreadMagazine) (buf : ℕ)
    → m.count ≤ length m.slots
    → ((try_push_local m buf ≡ (false, m)) × (m.count ≡ length m.slots))
      ⊎ (((try_push_local m buf).0 ≡ true)
          × (held (try_push_local m buf).1 ≡ buf ∷ held m)
          × ((try_push_local m buf).1.count ≤ length (try_push_local m buf).1.slots))
unfolding try_push_local held held_below
try_push_local-held m buf h = elim (ℕ_discrete m.count (length m.slots)) [
  | yes e ↦ inl (ground arith, e)
  | no d ↦ inr (
    ground arith,
    ground (
      arith,
      get_or-set m.slots m.count m.count buf 0 (omega arith),
      held_below-set m.slots m.count m.count buf (omega arith) (omega arith),
    ),
    ground (arith, length-set m.slots m.count buf),
  )
]

held_below-pred :
    (slots : List ℕ) (n : ℕ)
    → n ≢ 0
    → held_below slots n ≡ get_or slots (n - 1) 0 ∷ held_below slots (n - 1)
unfolding held_below
held_below-pred slots zero d = absurd (d refl)
held_below-pred slots (suc n) d =
    subst (λ (k : ℕ). held_below slots (suc n) ≡ get_or slots k 0 ∷ held_below slots k)
      (omega arith) refl

-- A pop takes the top of the stack, and gives null exactly if it is empty.
pub try_pop_local-held :
    (m : ThreadMagazine)
    → ((try_pop_local m ≡ (none, m)) × (held m ≡ []))
      ⊎ ((b : ℕ) × ((try_pop_local m).0 ≡ some b) × (held m ≡ b ∷ held (try_pop_local m).1))
unfolding try_pop_local held held_below
try_pop_local-held m = elim (ℕ_discrete m.count 0) [
  | yes e ↦ inl (ground arith, subst (λ (n : ℕ). held_below m.slots n ≡ []) (sym e) refl)
  | no d ↦ inr (
    get_or m.slots (m.count - 1) 0,
    ground arith,
    ground (arith, held_below-pred m.slots m.count d),
  )
]
