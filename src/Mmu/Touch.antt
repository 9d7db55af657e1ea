-- ===== src/Mmu/Touch.antt =====
-- TouchPages4KiB writes one byte of each page.
use hotpathcplusplus.Base.{
  ℕ, ◌/◌, ◌%◌, ltb, ◌&&◌, Bool, true, false, Bool-cases, if_true, if_false, sym, zero, suc, ◌+◌,
  ◌*◌, ◌≤◌, ◌<◌, ◌≡◌, ◌≢◌, refl, ap, ◌∙◌, bit_and, update, arith, ◌==◌, if◌then◌else◌, inl, inr,
  ℕ_discrete,
}
use hotpathcplusplus.Base.Bits.{bit_and-le}
use hotpathcplusplus.Mmu.Paging.{touch_from, touch_pages, page_size}

-- the byte of page `p` that is written
abbrev pub touched : ℕ → ℕ
touched p = p * page_size + bit_and p 63 * 64

-- It lies in its page.
pub touched-page : (p : ℕ) → (p * page_size ≤ touched p) × (touched p < (p + 1) * page_size)
touched-page p = (omega arith, omega (arith, bit_and-le p 63))

-- Pages from `p` on keep what is before them.
touch_from-below :
    (buf : ℕ → ℕ) (p n value x : ℕ) → x < p * page_size → touch_from buf p n value x ≡ buf x
unfolding touch_from
touch_from-below buf p zero value x h = refl
touch_from-below buf p (suc n) value x h =
    touch_from-below (update buf (touched p) value) (p + 1) n value x (omega arith)
    ∙ ground (arith, touched-page p)

touch_from-touched :
    (buf : ℕ → ℕ) (p n value q : ℕ)
    → p ≤ q
    → q < p + n
    → touch_from buf p n value (touched q) ≡ value
unfolding touch_from
touch_from-touched buf p zero value q low high = absurd (omega arith)
touch_from-touched buf p (suc n) value q low high = elim (ℕ_discrete p q) [
  | yes e ↦ rw e (
      touch_from-below (update buf (touched q) value) (q + 1) n value (touched q) (touched-page q).1
      ∙ ground arith)
  | no w ↦
      touch_from-touched (update buf (touched p) value) (p + 1) n value q (omega (arith, w))
        (omega arith)
]

touch_from-other :
    (buf : ℕ → ℕ) (p n value x : ℕ)
    → ((q : ℕ) → q < p + n → x ≢ touched q)
    → touch_from buf p n value x ≡ buf x
unfolding touch_from
touch_from-other buf p zero value x h = refl
touch_from-other buf p (suc n) value x h =
    touch_from-other (update buf (touched p) value) (p + 1) n value x (λ q l. h q (omega arith))
    ∙ ground (arith, h p (omega arith))

-- whether address `x` is the byte of its page that is written, in one of the pages
abbrev pub is_touched : ℕ → ℕ → Bool
is_touched num_pages x =
    ltb (x / page_size) num_pages && x % page_size == bit_and (x / page_size) 63 * 64

is_touched-touched :
    (n x : ℕ) → is_touched n x ≡ true → (x / page_size < n) × (x ≡ touched (x / page_size))
is_touched-touched n x h = ground (arith, h)

touched-is_touched : (n q : ℕ) → q < n → is_touched n (touched q) ≡ true
touched-is_touched n q h = at (touched q / page_size) (touched q % page_size) same rest
  where
    same : touched q / page_size ≡ q
    same = omega (arith, bit_and-le q 63)

    rest : touched q % page_size ≡ bit_and q 63 * 64
    rest = omega (arith, bit_and-le q 63)

    at : (d r : ℕ) → d ≡ q → r ≡ bit_and q 63 * 64 → (ltb d n && r == bit_and d 63 * 64) ≡ true
    at d r e f = rw (e, f) (ground (arith, h))

-- TouchPages4KiB stores the value at the skewed offset of each of the pages, and changes no other
-- byte of memory.
pub touch_pages-is_touched :
    (buf : ℕ → ℕ) (num_pages value x : ℕ)
    → touch_pages buf num_pages value x ≡ (if is_touched num_pages x then value else buf x)
unfolding touch_pages
touch_pages-is_touched buf num_pages value x = elim (Bool-cases (is_touched num_pages x)) [
  | inl yes_touched ↦
      let (low, e) = is_touched-touched num_pages x yes_touched in
      ap (touch_from buf 0 num_pages value) e
      ∙ touch_from-touched buf 0 num_pages value (x / page_size) (omega arith) (omega (arith, low))
      ∙ sym (if_true value (buf x) yes_touched)
  | inr not_touched ↦
      touch_from-other buf 0 num_pages value x (λ q l e. differ (
        sym not_touched
        ∙ ap (is_touched num_pages) e
        ∙ touched-is_touched num_pages q (omega (arith, l))))
      ∙ sym (if_false value (buf x) not_touched)
]
  where
    differ : false ≢ true
    differ e = ground (arith, e)
