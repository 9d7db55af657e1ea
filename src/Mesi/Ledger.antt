-- ===== src/Mesi/Ledger.antt =====
-- ProtectedState of locks_under_the_hood.h and SharedOrderBookLedger of mesi_coherency.h: the state
-- that critical sections update, as 64-bit words.
use hotpathcplusplus.Base.{
  ℕ, ◌+◌, ◌<◌, ◌≡◌, refl, ap, ap₂, ◌∙◌, List, [], ◌∷◌, length, bit_xor, add64, sub64, mul64,
  u64_mod, All, arith,
}

pub record ProtectedState : Type 0 where
  pub sequence : ℕ
  pub balance_a : ℕ
  pub balance_b : ℕ
  pub checksum : ℕ
  pub buckets : List ℕ

abbrev pub new_state : ProtectedState
new_state = record {
  sequence = 0;
  balance_a = 1000000;
  balance_b = 1000000;
  checksum = 2000000;
  buckets = 0 ∷ 0 ∷ 0 ∷ 0 ∷ 0 ∷ [];
}

-- the loop over the buckets, from an index
unfoldable pub mix_buckets : ℕ → ℕ → List ℕ → List ℕ
mix_buckets seq idx [] = []
mix_buckets seq idx (b ∷ bs) =
    add64 (mul64 (bit_xor b (add64 seq idx)) 6364136223846793005) 1442695040888963407
    ∷ mix_buckets seq (idx + 1) bs

unfoldable pub update_invariants : ProtectedState → ℕ → ProtectedState
update_invariants s delta =
    let seq = add64 s.sequence 1 in
    let a = add64 s.balance_a delta in
    let b = sub64 s.balance_b delta in
    record {
      sequence = seq;
      balance_a = a;
      balance_b = b;
      checksum = bit_xor (add64 a b) (mul64 seq 0x9E3779B97F4A7C15);
      buckets = mix_buckets seq 0 s.buckets;
    }

-- no new checksum here
unfoldable pub apply_transfer : ProtectedState → ℕ → ProtectedState
apply_transfer s amount =
    let seq = add64 s.sequence 1 in
    record s {
      sequence = seq;
      balance_a = add64 s.balance_a amount;
      balance_b = sub64 s.balance_b amount;
      buckets = mix_buckets seq 0 s.buckets;
    }

pub record SharedOrderBookLedger : Type 0 where
  pub sequence : ℕ
  pub total_fill_qty : ℕ
  pub rolling_notional : ℕ
  pub venue_buckets : List ℕ

unfoldable pub record_execution : SharedOrderBookLedger → ℕ → ℕ → SharedOrderBookLedger
record_execution l qty price_ticks =
    let seq = add64 l.sequence 1 in
    record {
      sequence = seq;
      total_fill_qty = add64 l.total_fill_qty qty;
      rolling_notional = add64 l.rolling_notional (mul64 qty price_ticks);
      venue_buckets = mix_buckets seq 0 l.venue_buckets;
    }

-- critical sections, one after the other
unfoldable pub run_updates : ProtectedState → List ℕ → ProtectedState
run_updates s [] = s
run_updates s (delta ∷ deltas) = run_updates (update_invariants s delta) deltas

unfoldable pub run_transfers : ProtectedState → List ℕ → ProtectedState
run_transfers s [] = s
run_transfers s (amount ∷ amounts) = run_transfers (apply_transfer s amount) amounts

-- the money in the two accounts
abbrev pub funds : ProtectedState → ℕ
funds s = add64 s.balance_a s.balance_b

-- Transfers of any 64-bit amounts keep the funds and count themselves, wrap-around included.
pub run_transfers-funds :
    (s : ProtectedState) (amounts : List ℕ)
    → s.sequence < u64_mod
    → All (λ x. x < u64_mod) amounts
    → (funds (run_transfers s amounts) ≡ funds s)
      × ((run_transfers s amounts).sequence ≡ add64 s.sequence (length amounts))
unfolding run_transfers apply_transfer
run_transfers-funds s [] h a = (refl, omega arith)
run_transfers-funds s (x ∷ amounts) h (b, a) =
    let (f, n) = run_transfers-funds (apply_transfer s x) amounts (omega arith) a in
    (omega (arith, f), omega (arith, n))

-- After any critical sections, one or more, the checksum is that of the funds at the start and of
-- the sequence number: no update has been lost.
pub run_updates-checksum :
    (s : ProtectedState) (delta : ℕ) (deltas : List ℕ)
    → s.sequence < u64_mod
    → All (λ x. x < u64_mod) (delta ∷ deltas)
    → (run_updates s (delta ∷ deltas)).checksum
      ≡ bit_xor (funds s) (mul64 (add64 s.sequence (length (delta ∷ deltas))) 0x9E3779B97F4A7C15)
unfolding run_updates update_invariants
run_updates-checksum s delta [] h (b, a) = ap₂ bit_xor (omega arith) refl
run_updates-checksum s delta (x ∷ deltas) h (b, a) =
    let rest = run_updates-checksum (update_invariants s delta) x deltas (omega arith) a in
    rest ∙ ap₂ bit_xor (omega arith) (ap (λ n. mul64 n 0x9E3779B97F4A7C15) (omega arith))
