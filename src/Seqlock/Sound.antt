-- ===== src/Seqlock/Sound.antt =====
-- What holds of the cache and its threads throughout RunRouteCacheTrial, and that readers keep it.
use hotpathcplusplus.Base.{
  ℕ, ◌+◌, ◌%◌, ◌≤◌, ◌<◌, ◌≡◌, ◌≢◌, refl, sym, subst, ◌∙◌, Bool, false, Option, none, some, some_inj,
  bit_and, ◌==◌, ◌||◌, if◌then◌else◌, ==-at, ==-off, update, mul64, u64_mod, ℕ_discrete, arith,
}
use hotpathcplusplus.Base.Bits.{bit_and-one}
use hotpathcplusplus.Seqlock.Trial.{
  words_of, updated_entry, is_torn, Pc, between, updating, storing, unlocking, looking, copying,
  CacheTrial, look, look_again,
}

-- The words of an entry whose quota belongs to its version.
abbrev pub Whole : (ℕ → ℕ) → Type 0
Whole words = words 2 ≡ mul64 (words 1) 1024

-- What holds of a thread that stands at a place, beside the cache.
abbrev pub Fits : Option ℕ → ℕ → (ℕ → ℕ) → ℕ → Pc → Type 0
Fits owner seq payload t between = Unit
Fits owner seq payload t (updating seq0 next) =
    (owner ≡ some t) × (seq ≡ seq0) × (seq0 % 2 ≡ 0) × (seq0 + 2 < u64_mod) × Whole next
Fits owner seq payload t (storing seq0 next) =
    (owner ≡ some t) × (seq ≡ seq0 + 1) × (seq0 % 2 ≡ 0) × (seq0 + 2 < u64_mod) × Whole next
Fits owner seq payload t unlocking = (owner ≡ some t) × (seq % 2 ≡ 0)
Fits owner seq payload t looking = Unit
Fits owner seq payload t (copying seq1 copy) =
    (seq1 % 2 ≡ 0) × (seq1 ≤ seq) × (seq1 ≡ seq → (w v : ℕ) → copy w ≡ some v → v ≡ payload w)

pub record IsSound (s : CacheTrial) : Type 0 where
  pub fits : (t : ℕ) → Fits s.owner s.seq s.payload t (s.pc t)
  pub resting : s.owner ≡ none → s.seq % 2 ≡ 0
  pub whole : s.seq % 2 ≡ 0 → Whole s.payload
  pub quiet : s.torn_detected ≡ false

-- A thread that does not own the mutex stands as well after a change of the cache that moves the
-- counter up, or leaves the payload of an even counter alone.
pub bystander :
    (owner owner' : Option ℕ) (seq seq' : ℕ) (payload payload' : ℕ → ℕ) (t : ℕ) (p : Pc)
    → owner ≢ some t
    → seq ≤ seq'
    → (seq % 2 ≡ 0 → seq ≡ seq' → (w : ℕ) → payload' w ≡ payload w)
    → Fits owner seq payload t p
    → Fits owner' seq' payload' t p
bystander owner owner' seq seq' payload payload' t between out up same f = tt
bystander owner owner' seq seq' payload payload' t (updating seq0 next) out up same f =
    absurd (out f.0)
bystander owner owner' seq seq' payload payload' t (storing seq0 next) out up same f =
    absurd (out f.0)
bystander owner owner' seq seq' payload payload' t unlocking out up same f = absurd (out f.0)
bystander owner owner' seq seq' payload payload' t looking out up same f = tt
bystander owner owner' seq seq' payload payload' t (copying seq1 copy) out up same (even, le, ok) =
    (
      even,
      omega arith,
      λ e w v q. ok (omega arith) w v q ∙ sym (same (omega arith) (omega arith) w),
    )

module _ (F : ℕ → Pc → Type 0) (pc : ℕ → Pc) (t : ℕ) (p : Pc) where
  -- one thread moves on
  pub moved : F t p → ((j : ℕ) → t ≢ j → F j (pc j)) → (j : ℕ) → F j (update pc t p j)
  moved here there j = elim (ℕ_discrete t j) [
    | yes e ↦ rw (==-at e) (subst (λ k. F k p) e here)
    | no d ↦ rw (==-off d) (there j d)
  ]

-- A step of a thread that leaves the cache alone.
pub reader-IsSound :
    (s : CacheTrial) (t : ℕ) (p : Pc) (round : ℕ → ℕ) (torn : Bool)
    → torn ≡ false
    → Fits s.owner s.seq s.payload t p
    → IsSound s
    → IsSound (record s { pc = update s.pc t p; round = round; torn_detected = torn })
reader-IsSound s t p round torn q f v = record {
  fits = moved (Fits s.owner s.seq s.payload) s.pc t p f (λ j d. v.fits j);
  resting = v.resting;
  whole = v.whole;
  quiet = q;
}

pub owned : {o : Option ℕ} {t j : ℕ} → o ≡ some t → t ≢ j → o ≢ some j
owned e d q = d (some_inj (sym e ∙ q))

-- Every round writes an entry whose quota belongs to its version.
pub updated_entry-Whole : (t i : ℕ) → Whole (words_of (updated_entry t i))
unfolding words_of updated_entry
updated_entry-Whole t i = refl

-- What a second look finds at an unchanged counter is not torn.
snapshot-whole :
    (s : CacheTrial) (t seq1 : ℕ) (copy : ℕ → Option ℕ) (snap : ℕ → ℕ)
    → s.pc t ≡ copying seq1 copy
    → ((w : ℕ) → w < 4 → copy w ≡ some (snap w))
    → seq1 ≡ s.seq
    → IsSound s
    → is_torn snap ≡ false
unfolding is_torn
snapshot-whole s t seq1 copy snap e all same v =
    let (even, le, ok) = subst (Fits s.owner s.seq s.payload t) e (v.fits t) in
    let first = ok same 1 (snap 1) (all 1 (omega arith)) in
    let second = ok same 2 (snap 2) (all 2 (omega arith)) in
    let whole = v.whole (omega arith) in ground (arith, first, second, whole)

pub look_again-IsSound :
    (s : CacheTrial) (t seq1 : ℕ) (copy : ℕ → Option ℕ) (snap : ℕ → ℕ)
    → s.pc t ≡ copying seq1 copy
    → ((w : ℕ) → w < 4 → copy w ≡ some (snap w))
    → IsSound s
    → IsSound (look_again s t seq1 snap)
unfolding look_again
look_again-IsSound s t seq1 copy snap e all v = elim (ℕ_discrete seq1 s.seq) [
  | yes same ↦ rw (==-at same) (
      reader-IsSound s t between (update s.round t (s.round t + 1))
        (s.torn_detected || is_torn snap)
        (rw (v.quiet) (snapshot-whole s t seq1 copy snap e all same v)) tt v)
  | no differs ↦
      rw (==-off differs) (reader-IsSound s t looking s.round s.torn_detected v.quiet tt v)
]

pub look-IsSound : (s : CacheTrial) (t : ℕ) → IsSound s → IsSound (look s t)
unfolding look
look-IsSound s t v = reader-IsSound s t _ s.round s.torn_detected v.quiet fits v
  where
    fits :
        Fits s.owner s.seq s.payload t
          (if bit_and s.seq 1 == 0 then copying s.seq (λ w. none) else looking)
    fits = elim (ℕ_discrete (bit_and s.seq 1) 0) [
      | yes e ↦ rw (==-at e) (omega (arith, bit_and-one s.seq), omega arith, λ q w x h. cc)
      | no d ↦ rw (==-off d) tt
    ]

pub copy_word-IsSound :
    (s : CacheTrial) (t seq1 w : ℕ) (copy : ℕ → Option ℕ)
    → s.pc t ≡ copying seq1 copy
    → IsSound s
    → IsSound (record s { pc = update s.pc t (copying seq1 (update copy w (some (s.payload w)))) })
copy_word-IsSound s t seq1 w copy e v =
    let (even, le, ok) = subst (Fits s.owner s.seq s.payload t) e (v.fits t) in
    reader-IsSound s t _ s.round s.torn_detected v.quiet
      (
        even,
        le,
        λ q j x h. elim (ℕ_discrete w j) [
          | yes at ↦ ground arith
          | no off ↦ ground (arith, ok q j x)
        ],
      )
      v
