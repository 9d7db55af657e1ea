-- ===== src/Events/Slab.antt =====
-- The orders of common/cpp_vs_java_jit/cpp_vs_java_jit.h: OrderBookSoA, and the slab of
-- RunBattle3SlabTailLatencyAndDeoptCheck without its clocks. A power of two minus one as a mask is
-- a remainder; the signed fields are never negative here, so their words are their values.
use hotpathcplusplus.Base.{
  ℕ, zero, suc, ◌+◌, ◌-◌, ◌*◌, ◌%◌, ◌^◌, ◌≤◌, ◌<◌, ◌≡◌, sym, List, [], ◌∷◌, update, add64, mul64,
  u64_mod, arith, ℕ_discrete, ==-self, ==-off,
}
use hotpathcplusplus.Base.Modular.{mod-ne}

pub record Order : Type 0 where
  pub order_id : ℕ
  pub price : ℕ
  pub qty : ℕ
  pub symbol_id : ℕ
  pub flags : ℕ

pub record OrderBookSoA : Type 0 where
  pub prices : List ℕ
  pub qtys : List ℕ
  pub masks : List ℕ

-- one column: `n` values from index `i` on
unfoldable pub column : (ℕ → ℕ) → ℕ → ℕ → List ℕ
column f i zero = []
column f i (suc n) = f i ∷ column f (i + 1) n

-- the constructor; -1 as a mask is the word of ones
unfoldable pub new_book : ℕ → OrderBookSoA
unfolding column
new_book n = record {
  prices = column (λ i. 1000 + i % 1024) 0 n;
  qtys = column (λ i. 1 + i % 32) 0 n;
  masks = column (λ i. u64_mod - 1) 0 n;
}

abbrev pub slab_capacity : ℕ
slab_capacity = 2097152

pub record Slab : Type 0 where
  pub orders : ℕ → Order
  pub cursor : ℕ
  pub rolling_checksum : ℕ

-- the memory after memset, and the two counters
abbrev pub empty_slab : Slab
empty_slab = record {
  orders = λ i. record { order_id = 0; price = 0; qty = 0; symbol_id = 0; flags = 0 };
  cursor = 0;
  rolling_checksum = 0;
}

-- one round of the inner loop: message `m` of batch `b`
unfoldable pub push_message : Slab → ℕ → ℕ → Slab
push_message s b m =
    let slot = s.cursor % slab_capacity in
    let cursor = add64 s.cursor 1 in
    let order : Order = record {
      order_id = cursor;
      price = 1000 + m % 64;
      qty = 10 + m % 16;
      symbol_id = b % 256;
      flags = 1;
    } in
    let orders = update s.orders slot order in
    let match_slot = (slot + 1024) % slab_capacity in
    record {
      orders = orders;
      cursor = cursor;
      rolling_checksum = add64 s.rolling_checksum (mul64 (orders match_slot).price order.qty);
    }

-- `n` more messages of a batch, from message `m` on
unfoldable pub push_batch : Slab → ℕ → ℕ → ℕ → Slab
unfolding push_message
push_batch s b m zero = s
push_batch s b m (suc n) = push_batch (push_message s b m) b (m + 1) n

-- `n` more batches of 256 messages, from batch `b` on
unfoldable pub push_batches : Slab → ℕ → ℕ → Slab
unfolding push_batch
push_batches s b zero = s
push_batches s b (suc n) = push_batches (push_batch s b 0 256) (b + 1) n

-- The slab holds the last orders, each at its identifier minus one modulo the capacity.
pub record IsRecent (s : Slab) : Type 0 where
  pub recent :
      (p : ℕ)
      → p < s.cursor
      → s.cursor ≤ p + slab_capacity
      → (s.orders (p % slab_capacity)).order_id ≡ p + 1

push_message-IsRecent :
    (s : Slab) (b m : ℕ) → s.cursor + 1 < 2 ^ 64 → IsRecent s → IsRecent (push_message s b m)
unfolding push_message
push_message-IsRecent s b m room v = record { recent = λ p low near. after p low near }
  where
    after :
        (p : ℕ)
        → p < add64 s.cursor 1
        → add64 s.cursor 1 ≤ p + slab_capacity
        → ((push_message s b m).orders (p % slab_capacity)).order_id ≡ p + 1
    after p low near = elim (ℕ_discrete p s.cursor) [
      | yes e ↦ rw (e, ==-self (s.cursor % slab_capacity)) (omega arith)
      | no w ↦
          rw
            (==-off (λ q.
              mod-ne slab_capacity p s.cursor (omega (arith, w)) (omega (arith, near)) (sym q)))
            (v.recent p (omega (arith, w)) (omega (arith, near)))
    ]

push_batch-IsRecent :
    (s : Slab) (b m n : ℕ)
    → s.cursor + n < 2 ^ 64
    → IsRecent s
    → IsRecent (push_batch s b m n) × ((push_batch s b m n).cursor ≡ s.cursor + n)
unfolding push_batch push_message
push_batch-IsRecent s b m zero room v = (v, omega arith)
push_batch-IsRecent s b m (suc n) room v =
    let (w, e) =
      push_batch-IsRecent (push_message s b m) b (m + 1) n (omega arith)
        (push_message-IsRecent s b m (omega arith) v) in
    (w, omega (arith, e))

room_after : (a c n : ℕ) → a + 256 * suc n < 2 ^ 64 → c ≡ a + 256 → c + 256 * n < 2 ^ 64
room_after a c n h e = omega (arith, h, e)

total_after : (a c d n : ℕ) → c ≡ a + 256 → d ≡ c + 256 * n → d ≡ a + 256 * suc n
total_after a c d n e f = omega (arith, e, f)

first_batch : (a n : ℕ) → a + 256 * suc n < 2 ^ 64 → a + 256 < 2 ^ 64
first_batch a n h = omega (arith, h)

-- A slab that holds the last orders, as many as fit, still does after any number of batches, and its
-- cursor has counted their messages, below 2^64.
pub push_batches-IsRecent :
    (s : Slab) (b n : ℕ)
    → s.cursor + 256 * n < 2 ^ 64
    → IsRecent s
    → IsRecent (push_batches s b n) × ((push_batches s b n).cursor ≡ s.cursor + 256 * n)
unfolding push_batches
push_batches-IsRecent s b zero room v = (v, omega arith)
push_batches-IsRecent s b (suc n) room v =
    let (w, e) = push_batch-IsRecent s b 0 256 (first_batch s.cursor n room) v in
    let t = push_batch s b 0 256 in
    let (w', e') = push_batches-IsRecent t (b + 1) n (room_after s.cursor t.cursor n room e) w in
    (w', total_after s.cursor t.cursor (push_batches t (b + 1) n).cursor n e e')

pub empty_slab-IsRecent : IsRecent empty_slab
empty_slab-IsRecent = record { recent = λ p low near. absurd (omega arith) }
