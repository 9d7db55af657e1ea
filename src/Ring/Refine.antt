-- ===== src/Ring/Refine.antt =====
-- Reserve, the producer's copy and Commit append to the log; a poll reads an entry of the log back.
use hotpathcplusplus.Base.{
  ℕ, ◌+◌, ◌%◌, ◌^◌, ◌≤◌, ◌<◌, ◌≡◌, refl, sym, subst, ◌∙◌, ◌⊎◌, inl, inr, List, [], ◌∷◌, some,
  length, leb, if◌then◌else◌, add64, arith, Option-cases, dec_lt,
}
use hotpathcplusplus.Base.Bits.{bit_and-one}
use hotpathcplusplus.Status.{StatusOr, value, error, resource_exhausted}
use hotpathcplusplus.Ring.Memory.{Memory}
use hotpathcplusplus.Ring.Words.{places}
use hotpathcplusplus.Ring.Types.{
  ReaderSlot, RingBuffer, BroadcastReader, FrameHeader, SafeMessage, frame_header_size,
  aligned_payload_size,
}
use hotpathcplusplus.Ring.Producer.{
  Environment, backpressure, required_space, claim, reserve, commit, write_payload,
}
use hotpathcplusplus.Ring.Consumer.{Attempt, frame_header, copy_loop, poll_copy}
use hotpathcplusplus.Ring.Log.{
  Entry, entry_size, Stored, Entries, Logged, finish-value, publish, Entries-same,
}
use hotpathcplusplus.Ring.Publish.{image, image_congr, image-Stored, image-SameBelow}

-- What a successful Reserve has done.
pub record Reserved (r : RingBuffer) (n type_id : ℕ) (env : Environment) (a : ℕ) (r1 : RingBuffer)
    : Type 0 where
  pub min_c : ℕ
  pub readers : List ReaderSlot
  pub within : required_space n ≤ r.capacity
  pub waited :
      backpressure r (add64 r.header.producer_cursor (required_space n)) env ≡ some (min_c, readers)
  pub address : a ≡ r.header.producer_cursor % r.capacity + frame_header_size
  pub claimed :
      r1
      ≡ claim r n type_id
          (add64 r.header.producer_cursor (required_space n))
          env.stamp
          min_c
          readers

pub reserve-Reserved :
    (r : RingBuffer) (n type_id : ℕ) (env : Environment) (a : ℕ) (r1 : RingBuffer)
    → reserve r n type_id env ≡ some (value a, r1)
    → Reserved r n type_id env a r1
unfolding reserve
reserve-Reserved r n type_id env a r1 h =
    elim (Option-cases (backpressure r (add64 r.header.producer_cursor (required_space n)) env)) [
      | inl e ↦ absurd (ground arith)
      | inr ((m, rs), e) ↦ record {
        min_c = m;
        readers = rs;
        within = ground arith;
        waited = e;
        address = ground arith;
        claimed = ground arith;
      }
    ]

-- Without the wrap of `payload_size + 7` the claimed space is the entry's size.
pub required_space-entry_size :
    (payload : List ℕ)
    → length payload + 7 < 2 ^ 32
    → required_space (length payload) ≡ entry_size payload
unfolding required_space aligned_payload_size
required_space-entry_size payload h = omega arith

-- What publishing leaves, once Reserve has claimed.
published : RingBuffer → ℕ → List ℕ → Environment → ℕ → List ReaderSlot → RingBuffer
unfolding claim commit write_payload
published r type_id payload env min_c readers =
    let target = add64 r.header.producer_cursor (required_space (length payload)) in
    commit (
      write_payload (claim r (length payload) type_id target env.stamp min_c readers)
        (r.header.producer_cursor % r.capacity + frame_header_size) payload)

-- A completed publication is a claim that succeeded, with the copy and Commit after it.
publish-published :
    (r : RingBuffer) (type_id : ℕ) (payload : List ℕ) (env : Environment) (r' : RingBuffer)
    → publish r type_id payload env ≡ some (value tt, r')
    → (min_c : ℕ) × (readers : List ReaderSlot) × (required_space (length payload) ≤ r.capacity)
      × (r' ≡ published r type_id payload env min_c readers)
unfolding publish
publish-published r type_id payload env r' h =
    let (a, r1, e, e') = finish-value payload (reserve r (length payload) type_id env) h in
    let p = reserve-Reserved r (length payload) type_id env a r1 e in
    (
      p.min_c,
      p.readers,
      p.within,
      e' ∙ rw (p.address, p.claimed) (unfold published claim commit write_payload in refl),
    )

-- The new frame in front of the log, at stream positions.
Entries-image :
    (capacity : ℕ) (m : Memory) (c type stamp : ℕ) (payload : List ℕ) (log : List Entry)
    → entry_size payload ≤ capacity
    → length payload + 7 < 2 ^ 32
    → type < 2 ^ 32
    → stamp < 2 ^ 64
    → Entries capacity m c c log
    → Entries capacity
        (image capacity m c type stamp payload)
        (c + entry_size payload)
        (c + entry_size payload)
        (record { pos = c; type = type; stamp = stamp; payload = payload } ∷ log)
Entries-image capacity m c type stamp payload log fits small typed stamped h = (
  refl,
  λ _. image-Stored capacity m c type stamp payload fits small typed stamped,
  Entries-same capacity m (image capacity m c type stamp payload) c (c + entry_size payload) c
      (omega arith) (image-SameBelow capacity m c type stamp payload fits) c log (omega arith) h,
)

-- A publication appends its entry to the log: the entries that the producer has not lapped are kept
-- as they were, and the new one is stored whole, wherever it lies around the end of the buffer.
-- The payload is shorter than 2 ^ 32 - 7 bytes, and the cursor has not reached 2 ^ 64.
pub publish-Logged :
    (r : RingBuffer) (log : List Entry) (type_id : ℕ) (payload : List ℕ) (env : Environment)
    {r' : RingBuffer}
    → Logged r log
    → length payload + 7 < 2 ^ 32
    → type_id < 2 ^ 32
    → env.stamp < 2 ^ 64
    → r.header.producer_cursor + entry_size payload < 2 ^ 64
    → publish r type_id payload env ≡ some (value tt, r')
    → Logged r' (
        record {
          pos = r.header.producer_cursor;
          type = type_id;
          stamp = env.stamp;
          payload = payload;
        }
        ∷ log)
publish-Logged r log type_id payload env {r'} v small typed stamped room h =
    let (min_c, readers, within, e) = publish-published r type_id payload env r' h in
    let size = required_space-entry_size payload small in
    let target : add64 c (required_space (length payload)) ≡ c + entry_size payload =
      omega (arith, size) in
    subst (λ x. Logged x (entry ∷ log)) (sym e)
      (unfold published in
        record {
          roomy = v.roomy;
          settled = refl;
          entries =
              subst
                (λ m.
                  Entries r.capacity m (add64 c (required_space (length payload)))
                    (add64 c (required_space (length payload))) (entry ∷ log))
                (sym (image_congr r.capacity r.data_buffer c type_id env.stamp payload))
                (subst
                  (λ t.
                    Entries r.capacity (image r.capacity r.data_buffer c type_id env.stamp payload)
                      t t (entry ∷ log))
                  (sym target)
                  (Entries-image r.capacity r.data_buffer c type_id env.stamp payload log
                    (omega (arith, size)) small typed stamped v.entries));
        })
  where
    c : ℕ
    c = r.header.producer_cursor

    entry : Entry
    entry = record { pos = c; type = type_id; stamp = env.stamp; payload = payload }

-- What a quiet moment shows a consumer: nothing is written while it looks.
abbrev pub quiet : RingBuffer → Attempt
quiet r = record { prod = r.header.producer_cursor; seen = r.data_buffer; after = r.data_buffer }

abbrev pub InLog : Entry → List Entry → Type 0
InLog e [] = ⊥
InLog e (x ∷ xs) = (e ≡ x) ⊎ InLog e xs

-- Where an entry of a log stands.
Entries-at :
    (capacity : ℕ) (m : Memory) (prod top : ℕ) (es : List Entry) (e : Entry)
    → Entries capacity m prod top es
    → InLog e es
    → (e.pos + entry_size e.payload ≤ top) × (prod ≤ e.pos + capacity → Stored capacity m e)
Entries-at capacity m prod top [] e h i = absurd i
Entries-at capacity m prod top (x ∷ xs) e (end, stored, rest) (inl same) =
    rw same (omega arith, stored)
Entries-at capacity m prod top (x ∷ xs) e (end, stored, rest) (inr later) =
    let (low, s) = Entries-at capacity m prod x.pos xs e rest later in (omega arith, s)

-- What a poll of an entry should answer.
abbrev pub answer : RingBuffer → Entry → StatusOr (FrameHeader × SafeMessage)
answer r e =
    if leb r.header.producer_cursor (e.pos + r.capacity)
    then value (
      record { length = length e.payload; type = e.type; timestamp = e.stamp },
      record { type = e.type; timestamp = e.stamp; payload = e.payload },
    )
    else error resource_exhausted

frame_header-Stored :
    (capacity : ℕ) (m : Memory) (e : Entry)
    → Stored capacity m e
    → frame_header capacity m (e.pos % capacity)
      ≡ record { length = length e.payload; type = e.type; timestamp = e.stamp }
unfolding frame_header
frame_header-Stored capacity m e s =
    simp places (ground (arith, s.length_field, s.type_field, s.stamp_field))

-- One look at an entry that is stored and not lapped.
pub copy_loop-Stored :
    (capacity prod : ℕ) (m : Memory) (e : Entry) (rounds : List Attempt)
    → Stored capacity m e
    → prod < 2 ^ 64
    → e.pos ≤ prod
    → prod ≤ e.pos + capacity
    → copy_loop capacity e.pos (record { prod = prod; seen = m; after = m } ∷ rounds)
      ≡ some (
          value (
            record { length = length e.payload; type = e.type; timestamp = e.stamp },
            record { type = e.type; timestamp = e.stamp; payload = e.payload },
          ))
unfolding copy_loop
copy_loop-Stored capacity prod m e rounds s room low near =
    simp
      (places, s.length_field, s.type_field, s.stamp_field, s.payload_bytes, bit_and-one, s.version)
      (ground (arith, s.fits))

-- A lapped reader is told so at the first look.
copy_loop_lapped :
    (capacity pos : ℕ) (a : Attempt) (rounds : List Attempt)
    → a.prod < 2 ^ 64
    → pos + capacity < a.prod
    → copy_loop capacity pos (a ∷ rounds) ≡ some (error resource_exhausted)
unfolding copy_loop
copy_loop_lapped capacity pos a rounds room lapped = ground arith

-- A reader at the position of any logged entry gets that entry back whole when the ring is quiet,
-- or is told that it was lapped, and never anything else.
pub poll_copy-Logged :
    (r : RingBuffer) (log : List Entry) (e : Entry) (reader : BroadcastReader)
    (rounds : List Attempt)
    → Logged r log
    → r.header.producer_cursor < 2 ^ 64
    → InLog e log
    → reader.cursor ≡ e.pos
    → poll_copy r reader (quiet r ∷ rounds) ≡ some (answer r e)
unfolding poll_copy
poll_copy-Logged r log e reader rounds v room i at =
    let (low, stored) =
      Entries-at r.capacity r.data_buffer r.header.producer_cursor r.header.producer_cursor log e
        v.entries i in
    elim (dec_lt (e.pos + r.capacity) r.header.producer_cursor) [
      | yes lapped ↦
          rw (at, copy_loop_lapped r.capacity e.pos (quiet r) rounds room lapped) (ground arith)
      | no near ↦
          rw
            (
              at,
              copy_loop-Stored r.capacity r.header.producer_cursor r.data_buffer e rounds
                  (stored (omega arith)) room (omega arith) (omega arith),
            )
            (ground arith)
    ]
