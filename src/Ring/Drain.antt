-- ===== src/Ring/Drain.antt =====
-- A consumer's loop over a quiet ring: PollCopy, Advance past the frame, until PollCopy answers that
-- nothing is there.
use hotpathcplusplus.Base.{
  ℕ, true, zero, suc, ◌+◌, ◌^◌, ◌≤◌, ◌<◌, ◌≡◌, refl, sym, ap, ◌∙◌, List, [], ◌∷◌, Option, none,
  some, map, length, leb, arith,
}
use hotpathcplusplus.Status.{Code, StatusOr, value, error, not_found}
use hotpathcplusplus.Ring.Memory.{Memory}
use hotpathcplusplus.Ring.Types.{
  RingBuffer, BroadcastReader, FrameHeader, SafeMessage, advance_past, total_frame_size,
  aligned_payload_size,
}
use hotpathcplusplus.Ring.Consumer.{poll_copy}
use hotpathcplusplus.Ring.Log.{Entry, entry_size, Stored, Entries, Logged}
use hotpathcplusplus.Ring.Refine.{quiet, copy_loop-Stored}

-- The messages read, why the loop ended (`none` where the rounds ran out), and the reader after it.
pub record Drained : Type 0 where
  pub messages : List SafeMessage
  pub ended : Option Code
  pub reader : BroadcastReader

abbrev pub stop : BroadcastReader → Option Code → Drained
stop reader c = record { messages = []; ended = c; reader = reader }

-- One poll has answered; `go` is the rest of the loop from a reader.
unfoldable pub drain_answer :
    (BroadcastReader → Drained)
    → BroadcastReader
    → Option (StatusOr (FrameHeader × SafeMessage))
    → Drained
unfolding advance_past
drain_answer go reader none = stop reader none
drain_answer go reader (some (error c)) = stop reader (some c)
drain_answer go reader (some (value (h, message))) =
    let rest = go (advance_past reader h) in record rest { messages = message ∷ rest.messages }

unfoldable pub drain : ℕ → RingBuffer → BroadcastReader → Drained
unfolding drain_answer poll_copy
drain zero r reader = stop reader none
drain (suc rounds) r reader =
    drain_answer (drain rounds r) reader (poll_copy r reader (quiet r ∷ []))

-- what a reader gets for an entry
abbrev pub message_of : Entry → SafeMessage
message_of e = record { type = e.type; timestamp = e.stamp; payload = e.payload }

-- the log oldest first, before `acc`, and where it starts
abbrev pub oldest_first : List Entry → List Entry → List Entry
oldest_first [] acc = acc
oldest_first (e ∷ es) acc = oldest_first es (e ∷ acc)

abbrev pub bottom : ℕ → List Entry → ℕ
bottom top [] = top
bottom top (e ∷ es) = bottom e.pos es

-- Entries end to end from `at` up to the producer, all stored.
abbrev Chain : ℕ → Memory → ℕ → ℕ → List Entry → Type 0
Chain capacity m prod at [] = Unit {0} × (at ≡ prod)
Chain capacity m prod at (e ∷ es) =
    (e.pos ≡ at)
    × (at + entry_size e.payload ≤ prod)
    × Stored capacity m e
    × Chain capacity m prod (at + entry_size e.payload) es

bottom-le :
    (capacity : ℕ) (m : Memory) (prod top : ℕ) (log : List Entry)
    → Entries capacity m prod top log
    → bottom top log ≤ top
bottom-le capacity m prod top [] h = omega arith
bottom-le capacity m prod top (e ∷ es) (end, stored, rest) =
    omega (arith, end, bottom-le capacity m prod e.pos es rest)

Entries-Chain :
    (capacity : ℕ) (m : Memory) (prod top : ℕ) (log acc : List Entry)
    → Entries capacity m prod top log
    → top ≤ prod
    → prod ≤ bottom top log + capacity
    → Chain capacity m prod top acc
    → Chain capacity m prod (bottom top log) (oldest_first log acc)
Entries-Chain capacity m prod top [] acc h low near c = c
Entries-Chain capacity m prod top (e ∷ es) acc (end, stored, rest) low near c =
    let under = bottom-le capacity m prod e.pos es rest in
    Entries-Chain capacity m prod e.pos es (e ∷ acc) rest (omega (arith, end)) near
      (refl, omega (arith, end), stored (omega (arith, under)), rw end c)

-- A poll at a stored entry below the commit cursor.
poll_copy-Stored :
    (r : RingBuffer) (e : Entry) (reader : BroadcastReader)
    → Stored r.capacity r.data_buffer e
    → r.header.commit_cursor ≡ r.header.producer_cursor
    → r.header.producer_cursor < 2 ^ 64
    → reader.cursor ≡ e.pos
    → e.pos + entry_size e.payload ≤ r.header.producer_cursor
    → r.header.producer_cursor ≤ e.pos + r.capacity
    → poll_copy r reader (quiet r ∷ [])
      ≡ some (
          value (
            record { length = length e.payload; type = e.type; timestamp = e.stamp },
            message_of e,
          ))
unfolding poll_copy
poll_copy-Stored r e reader s settled room at below near =
    rw
      (
        at,
        copy_loop-Stored r.capacity r.header.producer_cursor r.data_buffer e [] s room (omega arith)
            near,
      )
      (ground arith)

-- Frames of rings below 4 GiB have the size that the log gives them.
total_frame_size-entry_size :
    (payload : List ℕ)
    → entry_size payload < 2 ^ 32
    → total_frame_size (length payload) ≡ entry_size payload
unfolding total_frame_size aligned_payload_size
total_frame_size-entry_size payload h = omega arith

module _ (r : RingBuffer) (settled : r.header.commit_cursor ≡ r.header.producer_cursor)
    (room : r.header.producer_cursor < 2 ^ 64) (small : r.capacity < 2 ^ 32) where
  -- At the end of the chain there is nothing to read.
  drain_end :
      (rounds : ℕ) (reader : BroadcastReader)
      → 0 < rounds
      → reader.cursor ≡ r.header.producer_cursor
      → drain rounds r reader ≡ stop reader (some not_found)
  unfolding drain poll_copy
  drain_end zero reader h e = absurd (omega arith)
  drain_end (suc rounds) reader h e =
      rw (nothing_there r.header.commit_cursor reader.cursor (settled ∙ sym e)) refl
    where
      nothing_there : (a b : ℕ) → a ≡ b → leb a b ≡ true
      nothing_there a b q = ground (arith, q)

  drain-Chain :
      (es : List Entry) (rounds at : ℕ) (reader : BroadcastReader)
      → length es < rounds
      → reader.cursor ≡ at
      → r.header.producer_cursor ≤ at + r.capacity
      → Chain r.capacity r.data_buffer r.header.producer_cursor at es
      → drain rounds r reader ≡ record {
        messages = map message_of es;
        ended = some not_found;
        reader = record reader { cursor = r.header.producer_cursor };
      }
  unfolding drain advance_past
  drain-Chain [] rounds at reader h e near (_, end) =
      drain_end rounds reader (omega arith) (e ∙ end)
      ∙ ap (λ (c : ℕ). stop (record reader { cursor = c }) (some not_found)) (e ∙ end)
  drain-Chain (x ∷ es) zero at reader h e near c = absurd (omega arith)
  drain-Chain (x ∷ es) (suc rounds) at reader h e near (here, below, stored, rest) =
      let head : FrameHeader = record {
        length = length x.payload;
        type = x.type;
        timestamp = x.stamp;
      } in
      rw
        (poll_copy-Stored r x reader stored settled room (e ∙ sym here) (omega (arith, here, below))
          (omega (arith, here, near)))
        (ap (λ (d : Drained). record d { messages = message_of x ∷ d.messages })
          (drain-Chain es rounds (at + entry_size x.payload) (advance_past reader head)
            (omega (arith, h))
            (omega
              (arith, e, below, total_frame_size-entry_size x.payload (omega (arith, stored.fits))))
            (omega (arith, near)) rest))

-- A consumer without a slot that starts at the oldest entry of a log of which nothing is lapped, on a
-- quiet ring below 4 GiB, reads every entry once, in the order of publication, and then finds nothing
-- more, with its cursor at the producer's: one poll for each entry and one more suffice.
pub drain-Logged :
    (r : RingBuffer) (log : List Entry) (rounds : ℕ) (reader : BroadcastReader)
    → Logged r log
    → r.header.producer_cursor < 2 ^ 64
    → r.capacity < 2 ^ 32
    → reader.cursor ≡ bottom r.header.producer_cursor log
    → r.header.producer_cursor ≤ reader.cursor + r.capacity
    → length (oldest_first log []) < rounds
    → drain rounds r reader ≡ record {
      messages = map message_of (oldest_first log []);
      ended = some not_found;
      reader = record reader { cursor = r.header.producer_cursor };
    }
drain-Logged r log rounds reader v room small at near enough =
    let prod = r.header.producer_cursor in
    drain-Chain r v.settled room small (oldest_first log []) rounds (bottom prod log) reader enough
      at (omega (arith, at, near))
      (Entries-Chain r.capacity r.data_buffer prod prod log [] v.entries (omega arith)
        (omega (arith, at, near)) (tt, refl))
