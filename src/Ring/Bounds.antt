-- ===== src/Ring/Bounds.antt =====
-- How many messages a batch has.
use hotpathcplusplus.Base.{
  ℕ, suc, ◌+◌, ◌≤◌, ◌<◌, ◌≡◌, ◌%◌, refl, subst, ap, inl, inr, Bool, true, false, List, [], ◌∷◌,
  Option, none, some, ltb, leb, ◌==◌, if◌then◌else◌, not, ◌&&◌, bit_and, sub64, arith, Bool-cases,
  Option-cases,
}
use hotpathcplusplus.Status.{Code, StatusOr, value, error, resource_exhausted, data_loss}
use hotpathcplusplus.Ring.Memory.{load}
use hotpathcplusplus.Ring.Types.{BroadcastReader, SafeMessage, RingBuffer}
use hotpathcplusplus.Ring.Batch.{
  Look, Batch, batch_done, batch_failed, copied, next_frame, retried, batch_loop, new_batch,
  advance_batch, poll_copy_batch,
}

-- A count is at least one and at most the maximum.
abbrev Counted : ℕ → StatusOr ℕ → Type 0
Counted max (value n) = (0 < n) × (n ≤ max)
Counted max (error e) = Unit

abbrev Ends : ℕ → Option (StatusOr ℕ × Batch) → Type 0
Ends max none = Unit
Ends max (some p) = Counted max p.0

if-Ends :
    (max : ℕ) (c : Bool) (x y : Option (StatusOr ℕ × Batch))
    → (c ≡ true → Ends max x)
    → (c ≡ false → Ends max y)
    → Ends max (if c then x else y)
if-Ends max true x y f g = f refl
if-Ends max false x y f g = g refl

batch_done-Counted : (max : ℕ) (b : Batch) → b.messages_read ≤ max → Counted max (batch_done b).0
unfolding batch_done
batch_done-Counted max b h = elim (Bool-cases (ltb 0 b.messages_read)) [
  | inl e ↦ rw e (ground arith, h)
  | inr e ↦ rw e tt
]

batch_failed-Counted :
    (max : ℕ) (b : Batch) (e : Code)
    → b.messages_read ≤ max
    → Counted max (batch_failed b (error e)).0
unfolding batch_failed
batch_failed-Counted max b e h = elim (Bool-cases (ltb 0 b.messages_read)) [
  | inl t ↦ rw t (ground arith, h)
  | inr t ↦ rw t tt
]

next_frame_room :
    (capacity commit max : ℕ) (b : Batch) (l : Look)
    → not (ltb b.messages_read max && ltb b.current commit) ≡ false
    → (next_frame capacity (copied capacity b l) l).messages_read ≤ max
unfolding next_frame copied
next_frame_room capacity commit max b l e = ground arith

copied_room :
    (capacity max : ℕ) (b : Batch) (l : Look)
    → b.messages_read ≤ max
    → (retried (copied capacity b l)).messages_read ≤ max
unfolding copied
copied_room capacity max b l h = h

batch_loop-Ends :
    (capacity commit max : ℕ) (b : Batch) (looks : List Look)
    → b.messages_read ≤ max
    → Ends max (batch_loop capacity commit max b looks)
unfolding batch_loop
batch_loop-Ends capacity commit max b [] h =
    if-Ends max (ltb b.messages_read max && ltb b.current commit) none (some (batch_done b))
      (λ e. tt) (λ e. batch_done-Counted max b h)
batch_loop-Ends capacity commit max b (l ∷ looks) h =
    let version = load capacity l.seen (b.current % capacity) 4 in
    let waited = batch_loop capacity commit max (retried b) looks in
    let again = batch_loop capacity commit max (retried (copied capacity b l)) looks in
    let onward =
      batch_loop capacity commit max (next_frame capacity (copied capacity b l) l) looks in
    let going = ltb b.messages_read max && ltb b.current commit in
    let lapped = ltb capacity (sub64 l.prod b.current) in
    let odd = not (bit_and version 1 == 0) in
    let tired = ltb 1000 (suc b.retry_count) in
    let corrupt = ltb capacity (load capacity l.seen (b.current % capacity + 4) 4) in
    let same = version == load capacity l.after (b.current % capacity) 4 in
    let compare_versions : Option (StatusOr ℕ × Batch) = if same then onward else again in
    let check_length : Option (StatusOr ℕ × Batch) =
      if corrupt then some (batch_failed b (error data_loss)) else compare_versions in
    let wait : Option (StatusOr ℕ × Batch) =
      if tired then some (batch_done (retried b)) else waited in
    let look : Option (StatusOr ℕ × Batch) = if odd then wait else check_length in
    let frame : Option (StatusOr ℕ × Batch) =
      if lapped then some (batch_failed b (error resource_exhausted)) else look in
    if-Ends max (not going) (some (batch_done b)) frame (λ e. batch_done-Counted max b h)
      (λ on.
        if-Ends max lapped (some (batch_failed b (error resource_exhausted))) look
          (λ e. batch_failed-Counted max b resource_exhausted h)
          (λ e.
            if-Ends max odd wait check_length
              (λ o.
                if-Ends max tired (some (batch_done (retried b))) waited
                  (λ t. batch_done-Counted max (retried b) h)
                  (λ t. batch_loop-Ends capacity commit max (retried b) looks h))
              (λ o.
                if-Ends max corrupt (some (batch_failed b (error data_loss))) compare_versions
                  (λ t. batch_failed-Counted max b data_loss h)
                  (λ t.
                    if-Ends max same onward again
                      (λ q.
                        batch_loop-Ends capacity commit max
                          (next_frame capacity (copied capacity b l) l) looks
                          (next_frame_room capacity commit max b l on))
                      (λ q.
                        batch_loop-Ends capacity commit max (retried (copied capacity b l)) looks
                          (copied_room capacity max b l h))))))

advance_batch-value :
    (max : ℕ) (r : RingBuffer) (reader : BroadcastReader) (now n : ℕ) (p : StatusOr ℕ × Batch)
    → Counted max p.0
    → (advance_batch r reader now p).0 ≡ value n
    → (0 < n) × (n ≤ max)
unfolding advance_batch
advance_batch-value max r reader now n (value m, b) c e =
    let same : m ≡ n = ap (λ (x : StatusOr ℕ). elim x [ value k ↦ k | error _ ↦ m ]) e in
    subst (λ (k : ℕ). (0 < k) × (k ≤ max)) same c
advance_batch-value max r reader now n (error x, b) c e = absurd (ground arith)

-- A successful PollCopyBatch reports at least one message and at most the maximum asked for,
-- whatever the producer does during its looks.
pub poll_copy_batch-value :
    (r : RingBuffer) (reader : BroadcastReader) (max_messages : ℕ) (out : List SafeMessage)
    (looks : List Look) (now n : ℕ)
    {q : StatusOr ℕ × RingBuffer × BroadcastReader × List SafeMessage}
    → poll_copy_batch r reader max_messages out looks now ≡ some q
    → q.0 ≡ value n
    → (0 < n) × (n ≤ max_messages)
unfolding poll_copy_batch
poll_copy_batch-value r reader max out looks now n {q} h e =
    elim (Bool-cases (leb r.header.commit_cursor reader.cursor)) [
      | inl none_new ↦ absurd (ground arith)
      | inr new ↦
          elim (Option-cases (
            batch_loop r.capacity r.header.commit_cursor max (new_batch reader.cursor out) looks)) [
              | inl running ↦ absurd (ground arith)
              | inr (p, ended) ↦
                  advance_batch-value max r reader now n p
                    (subst (Ends max) ended (
                      batch_loop-Ends r.capacity r.header.commit_cursor max
                        (new_batch reader.cursor out) looks (omega arith)))
                    (ground arith)
            ]
    ]
