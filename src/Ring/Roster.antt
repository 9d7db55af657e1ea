-- ===== src/Ring/Roster.antt =====
-- The roster under RegisterReader, UnregisterReader and Advance: which slot each of them touches,
-- and what becomes of a reader whose slot was given to another.
use hotpathcplusplus.Base.{
  ℕ, zero, suc, ◌^◌, ◌<◌, ◌≡◌, refl, sym, subst, ap, ◌∙◌, inl, inr, false, List, [], ◌∷◌, Option,
  none, some, get_elem?, set, add64, add32, arith, Bool-cases, Option-cases, some_inj, if_true,
  if_false,
}
use hotpathcplusplus.Status.{StatusOr, value}
use hotpathcplusplus.Ring.Types.{ReaderSlot, RingBuffer, BroadcastReader, max_readers}
use hotpathcplusplus.Ring.Consumer.{
  claimed_slot, skip_slot, claim_slot, with_readers, register_reader, unregister_reader, advance,
}

get_elem?-set {ℓ} :
    {A : Type ℓ} (xs : List A) (i : ℕ) (x y : A)
    → get_elem? xs i ≡ some x
    → get_elem? (set xs i y) i ≡ some y
get_elem?-set [] i x y h = cc
get_elem?-set (a ∷ xs) zero x y h = refl
get_elem?-set (a ∷ xs) (suc i) x y h = get_elem?-set xs i x y h

-- A claimed slot was free; it alone is rewritten, and its generation is the next one.
record Claimed (cursor pid now : ℕ) (ss : List ReaderSlot) (p : ℕ × ℕ × List ReaderSlot)
    : Type 0 where
  slot : ReaderSlot
  found : get_elem? ss p.0 ≡ some slot
  free : slot.active ≡ false
  next : p.1 ≡ add32 slot.generation_id 1
  written : p.2 ≡ set ss p.0 (claimed_slot slot cursor pid now)

skip_slot-Claimed :
    (cursor pid now : ℕ) (s : ReaderSlot) (ss : List ReaderSlot)
    (o : Option (ℕ × ℕ × List ReaderSlot)) (p : ℕ × ℕ × List ReaderSlot)
    → ((q : ℕ × ℕ × List ReaderSlot) → o ≡ some q → Claimed cursor pid now ss q)
    → skip_slot s o ≡ some p
    → Claimed cursor pid now (s ∷ ss) p
unfolding skip_slot
skip_slot-Claimed cursor pid now s ss none p rest h = cc
skip_slot-Claimed cursor pid now s ss (some (i, gen, ss')) p rest h =
    let c = rest (i, gen, ss') refl in
    subst (Claimed cursor pid now (s ∷ ss)) (some_inj h) (record {
      slot = c.slot;
      found = c.found;
      free = c.free;
      next = c.next;
      written = ap (λ xs. s ∷ xs) c.written;
    })

claim_slot-Claimed :
    (cursor pid now : ℕ) (ss : List ReaderSlot) (p : ℕ × ℕ × List ReaderSlot)
    → claim_slot cursor pid now ss ≡ some p
    → Claimed cursor pid now ss p
unfolding claim_slot
claim_slot-Claimed cursor pid now [] p h = cc
claim_slot-Claimed cursor pid now (s ∷ ss) p h = elim (Bool-cases s.active) [
  | inr idle ↦
      subst (Claimed cursor pid now (s ∷ ss)) (some_inj (sym (if_false _ _ idle) ∙ h))
        (record { slot = s; found = refl; free = idle; next = refl; written = refl })
  | inl busy ↦
      skip_slot-Claimed cursor pid now s ss (claim_slot cursor pid now ss) p
        (claim_slot-Claimed cursor pid now ss) (sym (if_true _ _ busy) ∙ h)
]

-- What a successful registration has done.
record Registered (r : RingBuffer) (b : BroadcastReader) (pid now : ℕ) (r' : RingBuffer)
    (b' : BroadcastReader) : Type 0 where
  i : ℕ
  gen : ℕ
  readers : List ReaderSlot
  claimed : Claimed b.cursor pid now r.header.readers (i, gen, readers)
  ring : r' ≡ with_readers r readers
  reader : b' ≡ record b { slot_index = some i; generation_id = gen }

abbrev Registration : Type 0
Registration = StatusOr (Unit {0}) × RingBuffer × BroadcastReader

register_reader-Registered :
    (r : RingBuffer) (b : BroadcastReader) (pid now : ℕ) (r' : RingBuffer) (b' : BroadcastReader)
    → register_reader r b pid now ≡ (value tt, r', b')
    → Registered r b pid now r' b'
unfolding register_reader
register_reader-Registered r b pid now r' b' h = elim (Option-cases b.slot_index) [
  | inr (i, e) ↦ absurd (ground arith)
  | inl e ↦ elim (Option-cases (claim_slot b.cursor pid now r.header.readers)) [
    | inl full ↦ absurd (ground arith)
    | inr ((i, gen, readers), c) ↦ record {
      i = i;
      gen = gen;
      readers = readers;
      claimed = claim_slot-Claimed b.cursor pid now r.header.readers (i, gen, readers) c;
      ring = ground arith;
      reader = ground arith;
    }
  ]
]

-- A reader that lost its slot to another: it holds slot `i` under an older generation.
pub record Displaced (r : RingBuffer) (a : BroadcastReader) (s : ReaderSlot) (i : ℕ) : Type 0 where
  pub holds : a.slot_index ≡ some i
  pub slot : get_elem? r.header.readers i ≡ some s
  pub same : s.generation_id ≡ a.generation_id
  pub fits : a.generation_id < 2 ^ 32

-- The registration that was given slot `i` has rewritten it.
taken :
    (r : RingBuffer) (b : BroadcastReader) (s : ReaderSlot) (i pid now : ℕ) (r' : RingBuffer)
    (b' : BroadcastReader)
    → get_elem? r.header.readers i ≡ some s
    → Registered r b pid now r' b'
    → b'.slot_index ≡ some i
    → get_elem? r'.header.readers i ≡ some (claimed_slot s b.cursor pid now)
taken r b s i pid now r' b' found g here =
    let e : g.i ≡ i = some_inj (sym (ap (λ (x : BroadcastReader). x.slot_index) g.reader) ∙ here) in
    let same : g.claimed.slot ≡ s =
      some_inj (sym g.claimed.found ∙ ap (λ (k : ℕ). get_elem? r.header.readers k) e ∙ found) in
    ap (λ (x : RingBuffer). get_elem? x.header.readers i) g.ring
    ∙ ap (λ (rs : List ReaderSlot). get_elem? rs i) g.claimed.written
    ∙ rw (e, same) (get_elem?-set r.header.readers i s (claimed_slot s b.cursor pid now) found)

-- After eviction and a registration that took the slot over, Advance of the old reader moves only
-- its own cursor, leaves the ring as it is and unbinds the reader.
pub advance-register_reader :
    (r : RingBuffer) (a b : BroadcastReader) (s : ReaderSlot) (i pid now n now' : ℕ)
    (r' : RingBuffer) (b' : BroadcastReader)
    → Displaced r a s i
    → register_reader r b pid now ≡ (value tt, r', b')
    → b'.slot_index ≡ some i
    → advance r' a n now' ≡ (r', record a { cursor = add64 a.cursor n; slot_index = none })
unfolding advance
advance-register_reader r a b s i pid now n now' r' b' d h here =
    let t =
      taken r b s i pid now r' b' d.slot (register_reader-Registered r b pid now r' b' h) here in
    ground (arith, t, d.holds, d.same, d.fits)

-- UnregisterReader makes no such check: the old reader frees the slot of the new one.
pub unregister_reader-register_reader :
    (r : RingBuffer) (a b : BroadcastReader) (s : ReaderSlot) (i pid now : ℕ) (r' : RingBuffer)
    (b' : BroadcastReader)
    → Displaced r a s i
    → i < max_readers
    → register_reader r b pid now ≡ (value tt, r', b')
    → b'.slot_index ≡ some i
    → (get_elem? r'.header.readers i ≡ some (claimed_slot s b.cursor pid now))
      × (get_elem? (unregister_reader r' a).0.header.readers i
          ≡ some (record (claimed_slot s b.cursor pid now) { active = false }))
unfolding unregister_reader
unregister_reader-register_reader r a b s i pid now r' b' d low h here =
    let t =
      taken r b s i pid now r' b' d.slot (register_reader-Registered r b pid now r' b' h) here in
    (
      t,
      ground (
        arith,
        t,
        d.holds,
        get_elem?-set r'.header.readers i (claimed_slot s b.cursor pid now)
            (record (claimed_slot s b.cursor pid now) { active = false }) t,
      ),
    )
