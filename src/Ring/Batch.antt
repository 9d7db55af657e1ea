-- ===== src/Ring/Batch.antt =====
-- PollCopyBatch of common/shared_memory/broadcast_ring_buffer.cc: one loop over the looks at a frame,
-- which also starts the next frame after each copy that succeeded.
use hotpathcplusplus.Base.{
  ℕ, suc, ◌+◌, ◌%◌, List, [], ◌∷◌, ◌++◌, Option, none, some, length, set, ltb, leb, ◌==◌,
  if◌then◌else◌, not, ◌&&◌, bit_and, add64, sub64,
}
use hotpathcplusplus.Status.{StatusOr, value, error, not_found, resource_exhausted, data_loss}
use hotpathcplusplus.Ring.Memory.{Memory, load, read_bytes}
use hotpathcplusplus.Ring.Types.{
  BroadcastReader, SafeMessage, RingBuffer, frame_header_size, total_frame_size,
}
use hotpathcplusplus.Ring.Consumer.{advance}

-- What one round of the inner loop sees. The size of the frame is computed from a length that is
-- loaded once more after the second look at the version: `late` has the bytes of that moment.
pub record Look : Type 0 where
  pub prod : ℕ
  pub seen : Memory
  pub after : Memory
  pub late : Memory

-- the local variables, and the messages put out so far
pub record Batch : Type 0 where
  pub current : ℕ
  pub messages_read : ℕ
  pub total_bytes_advanced : ℕ
  pub retry_count : ℕ
  pub messages_out : List SafeMessage

-- `messages_out[i] = msg`, after an emplace_back if there is no such element
unfoldable pub put_message : List SafeMessage → ℕ → SafeMessage → List SafeMessage
put_message out i msg = if leb (length out) i then out ++ msg ∷ [] else set out i msg

-- `batch_done`: the count and the batch, if any message was read
unfoldable pub batch_done : Batch → StatusOr ℕ × Batch
batch_done b = if ltb 0 b.messages_read then (value b.messages_read, b) else (error not_found, b)

-- a failure ends a batch that has messages as a success
unfoldable pub batch_failed : Batch → StatusOr ℕ → StatusOr ℕ × Batch
batch_failed b failure = if ltb 0 b.messages_read then (value b.messages_read, b) else (failure, b)

-- the message copied in a round
unfoldable pub copied : ℕ → Batch → Look → Batch
copied capacity b l =
    let offset = b.current % capacity in
    let msg : SafeMessage = record {
      type = load capacity l.seen (offset + 8) 4;
      timestamp = load capacity l.seen (offset + 16) 8;
      payload =
          read_bytes capacity l.seen (offset + frame_header_size)
            (load capacity l.seen (offset + 4) 4);
    } in
    record b { messages_out = put_message b.messages_out b.messages_read msg }

-- the step to the next frame
unfoldable pub next_frame : ℕ → Batch → Look → Batch
next_frame capacity b l =
    let n = total_frame_size (load capacity l.late (b.current % capacity + 4) 4) in
    record b {
      current = add64 b.current n;
      total_bytes_advanced = add64 b.total_bytes_advanced n;
      messages_read = suc b.messages_read;
      retry_count = 0;
    }

abbrev pub retried : Batch → Batch
retried b = record b { retry_count = suc b.retry_count }

-- Both loops over the rounds given; `none` if they are still running after the last.
unfoldable pub batch_loop : ℕ → ℕ → ℕ → Batch → List Look → Option (StatusOr ℕ × Batch)
batch_loop capacity commit max b [] =
    if ltb b.messages_read max && ltb b.current commit then none else some (batch_done b)
batch_loop capacity commit max b (l ∷ looks) =
    let version_before = load capacity l.seen (b.current % capacity) 4 in
    let waited = batch_loop capacity commit max (retried b) looks in
    let again = batch_loop capacity commit max (retried (copied capacity b l)) looks in
    let onward =
      batch_loop capacity commit max (next_frame capacity (copied capacity b l) l) looks in
    if not (ltb b.messages_read max && ltb b.current commit)
    then some (batch_done b)
    else if ltb capacity (sub64 l.prod b.current)
    then some (batch_failed b (error resource_exhausted))
    else if not (bit_and version_before 1 == 0)
    then if ltb 1000 (suc b.retry_count) then some (batch_done (retried b)) else waited
    else if ltb capacity (load capacity l.seen (b.current % capacity + 4) 4)
    then some (batch_failed b (error data_loss))
    else if version_before == load capacity l.after (b.current % capacity) 4
    then onward
    else again

abbrev pub new_batch : ℕ → List SafeMessage → Batch
new_batch current out = record {
  current = current;
  messages_read = 0;
  total_bytes_advanced = 0;
  retry_count = 0;
  messages_out = out;
}

-- a batch with messages advances the reader
unfoldable pub advance_batch :
    RingBuffer
    → BroadcastReader
    → ℕ
    → StatusOr ℕ × Batch
    → StatusOr ℕ × RingBuffer × BroadcastReader × List SafeMessage
advance_batch r reader now (value n, b) =
    let (r', reader') = advance r reader b.total_bytes_advanced now in
    (value n, r', reader', b.messages_out)
advance_batch r reader now (error e, b) = (error e, r, reader, b.messages_out)

unfoldable pub poll_copy_batch :
    RingBuffer
    → BroadcastReader
    → ℕ
    → List SafeMessage
    → List Look
    → ℕ
    → Option (StatusOr ℕ × RingBuffer × BroadcastReader × List SafeMessage)
poll_copy_batch r reader max_messages messages_out looks now =
    if leb r.header.commit_cursor reader.cursor
    then some (error not_found, r, reader, messages_out)
    else elim (batch_loop r.capacity r.header.commit_cursor max_messages
        (new_batch reader.cursor messages_out) looks) [
          | none ↦ none
          | some p ↦ some (advance_batch r reader now p)
        ]
