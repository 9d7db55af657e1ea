-- ===== src/Ring/Log.antt =====
-- The abstract view: the log of published messages, newest first, each at its stream position.
use hotpathcplusplus.Base.{
  ℕ, ◌+◌, ◌*◌, ◌/◌, ◌%◌, ◌^◌, ◌≤◌, ◌<◌, ◌≡◌, refl, List, [], ◌∷◌, length, arith, ◌∙◌, Option, none,
  some,
}
use hotpathcplusplus.Status.{StatusOr, value, error}
use hotpathcplusplus.Ring.Memory.{Memory, load, read_bytes}
use hotpathcplusplus.Ring.Words.{load_eq}
use hotpathcplusplus.Ring.Types.{RingBuffer}
use hotpathcplusplus.Ring.Producer.{Environment, reserve, commit, write_payload}

pub record Entry : Type 0 where
  pub pos : ℕ
  pub type : ℕ
  pub stamp : ℕ
  pub payload : List ℕ

abbrev pub entry_size : List ℕ → ℕ
entry_size payload = 24 + (length payload + 7) / 8 * 8

-- The bytes at the entry's position are its frame, with an even version.
pub record Stored (capacity : ℕ) (m : Memory) (e : Entry) : Type 0 where
  pub fits : entry_size e.payload ≤ capacity
  pub small : length e.payload + 7 < 2 ^ 32
  pub version : load capacity m e.pos 4 % 2 ≡ 0
  pub length_field : load capacity m (e.pos + 4) 4 ≡ length e.payload
  pub type_field : load capacity m (e.pos + 8) 4 ≡ e.type
  pub stamp_field : load capacity m (e.pos + 16) 8 ≡ e.stamp
  pub payload_bytes : read_bytes capacity m (e.pos + 24) (length e.payload) ≡ e.payload

-- The entries lie end to end below `top`, and those not lapped by the producer are stored.
abbrev pub Entries : ℕ → Memory → ℕ → ℕ → List Entry → Type 0
Entries capacity m prod top [] = Unit
Entries capacity m prod top (e ∷ es) =
    (e.pos + entry_size e.payload ≡ top)
    × (prod ≤ e.pos + capacity → Stored capacity m e)
    × Entries capacity m prod e.pos es

-- A ring between two publications, with its log.
pub record Logged (r : RingBuffer) (log : List Entry) : Type 0 where
  pub roomy : 24 ≤ r.capacity
  pub settled : r.header.commit_cursor ≡ r.header.producer_cursor
  pub entries :
      Entries r.capacity r.data_buffer r.header.producer_cursor r.header.producer_cursor log

-- How a producer publishes: Reserve, a copy of the payload through the pointer, Commit.
unfoldable pub finish :
    List ℕ → Option (StatusOr ℕ × RingBuffer) → Option (StatusOr (Unit {0}) × RingBuffer)
finish payload none = none
finish payload (some (error e, r)) = some (error e, r)
finish payload (some (value address, r)) = some (value tt, commit (write_payload r address payload))

unfoldable pub publish :
    RingBuffer → ℕ → List ℕ → Environment → Option (StatusOr (Unit {0}) × RingBuffer)
unfolding finish
publish r type_id payload env = finish payload (reserve r (length payload) type_id env)

pub finish-value :
    (payload : List ℕ) (o : Option (StatusOr ℕ × RingBuffer)) {r' : RingBuffer}
    → finish payload o ≡ some (value tt, r')
    → (a : ℕ) × (r1 : RingBuffer) × (o ≡ some (value a, r1))
      × (r' ≡ commit (write_payload r1 a payload))
unfolding finish
finish-value payload none h = cc
finish-value payload (some (error e, r)) h = cc
finish-value payload (some (value a, r1)) h = (a, r1, refl, ground arith)

-- Reads below `top` that the producer has not lapped are the same in both memories.
abbrev pub SameBelow : ℕ → Memory → Memory → ℕ → ℕ → Type 0
SameBelow capacity m m' prod top =
    (b n : ℕ)
    → b + n ≤ top
    → prod ≤ b + capacity
    → read_bytes capacity m' b n ≡ read_bytes capacity m b n

module _ (capacity : ℕ) (m m' : Memory) (prod prod' top : ℕ) (later : prod ≤ prod') where
  Stored-same :
      SameBelow capacity m m' prod' top
      → (e : Entry) → e.pos + entry_size e.payload ≤ top
      → prod' ≤ e.pos + capacity
      → Stored capacity m e
      → Stored capacity m' e
  Stored-same same e below near s = record {
    fits = s.fits;
    small = s.small;
    version = rw (word e.pos (omega arith) near) s.version;
    length_field = rw (word (e.pos + 4) (omega arith) (omega arith)) s.length_field;
    type_field = rw (word (e.pos + 8) (omega arith) (omega arith)) s.type_field;
    stamp_field =
        load_eq capacity m' m (e.pos + 16) 8 (same (e.pos + 16) 8 (omega arith) (omega arith))
        ∙ s.stamp_field;
    payload_bytes =
        same (e.pos + 24) (length e.payload) (omega arith) (omega arith) ∙ s.payload_bytes;
  }
    where
      word :
          (b : ℕ) → b + 4 ≤ top → prod' ≤ b + capacity → load capacity m' b 4 ≡ load capacity m b 4
      word b low high = load_eq capacity m' m b 4 (same b 4 low high)

  pub Entries-same :
      SameBelow capacity m m' prod' top
      → (at : ℕ) (es : List Entry) → at ≤ top
      → Entries capacity m prod at es
      → Entries capacity m' prod' at es
  Entries-same same at [] low h = tt
  Entries-same same at (e ∷ es) low (end, stored, rest) = (
    end,
    λ near. Stored-same same e (omega arith) near (stored (omega arith)),
    Entries-same same e.pos es (omega arith) rest,
  )
