-- ===== src/Seqlock/Protocol.antt =====
-- SeqLock of common/concurrency/seqlock.h, with the writer and reader protocols that its comment
-- lays down, for a payload of any number of words. Atomics are sequentially consistent here.
use hotpathcplusplus.Base.{
  ℕ, ◌+◌, ◌%◌, ◌≤◌, ◌<◌, ◌≡◌, refl, ◌⊎◌, inl, inr, ap, Bool, false, ◌||◌, not, bit_and, ◌==◌,
  update, add64, u64_mod, arith,
}
use hotpathcplusplus.Base.Bits.{bit_and-one}

pub record SeqLock : Type 0 where
  pub sequence : ℕ

unfoldable pub write_begin : SeqLock → SeqLock
write_begin l = record { sequence = add64 l.sequence 1 }

unfoldable pub write_end : SeqLock → SeqLock
write_end l = record { sequence = add64 l.sequence 1 }

unfoldable pub read_begin : SeqLock → ℕ
read_begin l = l.sequence

-- `(start_seq & 1ULL) || (start_seq != end_seq)`
unfoldable pub read_retry : SeqLock → ℕ → Bool
read_retry l start_seq = not (bit_and start_seq 1 == 0) || not (start_seq == l.sequence)

unfoldable pub raw_sequence : SeqLock → ℕ
raw_sequence l = l.sequence

-- the lock and the words that it guards
pub record Shared : Type 0 where
  pub lock : SeqLock
  pub words : ℕ → ℕ

-- The writer protocol: words are stored between WriteBegin and WriteEnd. The counter does not pass
-- 2 ^ 64 within a run.
pub data WriterStep (s : Shared) : Shared → Type 0 where
  begin :
      s.lock.sequence % 2 ≡ 0
      → s.lock.sequence + 1 < u64_mod
      → WriterStep s (record s { lock = write_begin s.lock })
  store :
      (i v : ℕ) → s.lock.sequence % 2 ≡ 1 → WriterStep s (record s { words = update s.words i v })
  finish :
      s.lock.sequence % 2 ≡ 1
      → s.lock.sequence + 1 < u64_mod
      → WriterStep s (record s { lock = write_end s.lock })

pub data WriterRun (s : Shared) : Shared → Type 0 where
  here : WriterRun s s
  next : {t u : Shared} → WriterRun s t → WriterStep t u → WriterRun s u

-- From an even counter the writer either has not moved or has moved the counter up.
abbrev Moved : Shared → Shared → Type 0
Moved s u = (u ≡ s) ⊎ (s.lock.sequence < u.lock.sequence)

step-Moved :
    (s : Shared) {t u : Shared} → s.lock.sequence % 2 ≡ 0 → Moved s t → WriterStep t u → Moved s u
unfolding write_begin write_end
step-Moved s even (inl e) (begin p q) = inr (ground arith)
step-Moved s even (inl e) (store i v p) = absurd (ground arith)
step-Moved s even (inl e) (finish p q) = absurd (ground arith)
step-Moved s even (inr h) (begin p q) = inr (omega arith)
step-Moved s even (inr h) (store i v p) = inr h
step-Moved s even (inr h) (finish p q) = inr (omega arith)

run-Moved : (s : Shared) {u : Shared} → s.lock.sequence % 2 ≡ 0 → WriterRun s u → Moved s u
run-Moved s even here = inl refl
run-Moved s even (next r st) = step-Moved s even (run-Moved s even r) st

step-le : {t u : Shared} → WriterStep t u → t.lock.sequence ≤ u.lock.sequence
unfolding write_begin write_end
step-le (begin p q) = omega arith
step-le (store i v p) = omega arith
step-le (finish p q) = omega arith

run-le : {t u : Shared} → WriterRun t u → t.lock.sequence ≤ u.lock.sequence
run-le here = omega arith
run-le (next r st) = omega (arith, run-le r, step-le st)

-- When ReadRetry accepts, every word that the reader copied since ReadBegin is the word that stood
-- there at ReadBegin: the copy is one snapshot, whatever the writer did meanwhile.
pub read_retry-snapshot :
    {s t u : Shared}
    → WriterRun s t
    → WriterRun t u
    → read_retry u.lock (read_begin s.lock) ≡ false
    → (i : ℕ) → t.words i ≡ s.words i
unfolding read_retry read_begin
read_retry-snapshot {s} {t} {u} r r' ok i =
    let even : s.lock.sequence % 2 ≡ 0 = ground (arith, bit_and-one s.lock.sequence) in
    let same : s.lock.sequence ≡ u.lock.sequence = ground arith in
    elim (run-Moved s even r) [
      | inl e ↦ ap (λ (x : Shared). x.words i) e
      | inr h ↦ absurd (omega (arith, run-le r'))
    ]
