-- ===== src/Base/Modular.antt =====
-- Remainders of positions in an unbounded stream.
use Prim.Native.Nat.{ℕ, ◌+◌, ◌%◌, ◌<◌}
use mathlib.Core.Path.{◌≡◌, sym, ap, ◌∙◌}
use mathlib.Core.Logic.{◌≢◌}
use native.Mathlib.Nat.{mod-add-mod}
use native.Mathlib.Omega.{arith}

-- Two stream positions less than a buffer apart are different places in it.
pub mod-ne : (capacity p q : ℕ) → p < q → q < p + capacity → p % capacity ≢ q % capacity
mod-ne capacity p q h k e = grind arith

pub mod_add_congr :
    (capacity a b k : ℕ) → a % capacity ≡ b % capacity → (a + k) % capacity ≡ (b + k) % capacity
mod_add_congr capacity a b k e =
    sym (mod-add-mod a capacity k) ∙ ap (λ (t : ℕ). (t + k) % capacity) e ∙ mod-add-mod b capacity k
