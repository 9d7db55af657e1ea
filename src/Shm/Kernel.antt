-- ===== src/Shm/Kernel.antt =====
-- The POSIX calls that memory_map.cc makes, over a kernel state `S`: their results are those of the
-- kernel, and `Laws` is what their manual pages promise. A null pointer is 0, and a descriptor of -1
-- is `none`.
use hotpathcplusplus.Base.{
  ℕ, ◌+◌, ◌-◌, ◌%◌, ◌≤◌, ◌<◌, ◌≡◌, ◌≢◌, ◌⊎◌, inl, inr, Bool, true, Option, none, some, u64_mod,
  arith, dec_lt,
}

-- MAP_FAILED is `(void*)-1`.
abbrev pub map_failed : ℕ
map_failed = u64_mod - 1

pub data OpenFlags : Type 0 where
  create_excl_rdwr rdwr rdonly : OpenFlags

pub data Prot : Type 0 where
  prot_none prot_read prot_read_write : Prot

-- the address argument: nullptr, or a place with MAP_FIXED
pub data Placement : Type 0 where
  anywhere : Placement
  fixed : ℕ → Placement

-- MAP_PRIVATE | MAP_ANONYMOUS, or MAP_SHARED with a descriptor and offset 0
pub data Source : Type 0 where
  anonymous : Source
  shared_file : ℕ → Source

-- what a byte of the address space is: nothing, reserved, or a byte of a shared memory object
pub data Backing : Type 0 where
  unmapped reserved : Backing
  shared : ℕ → ℕ → Prot → Backing

pub record Kernel (S : Type 0) : Type 0 where
  pub page_size : ℕ
  pub errno : S → ℕ
  pub shm_open : ℕ → OpenFlags → S → Option ℕ × S
  -- true is the result 0
  pub ftruncate : ℕ → ℕ → S → Bool × S
  pub mmap : Placement → ℕ → Prot → Source → S → ℕ × S
  pub munmap : ℕ → ℕ → S → S
  pub close : ℕ → S → S
  pub shm_unlink : ℕ → S → Bool × S

-- What can be observed of the kernel's state: the object of a descriptor, the object of a name, the
-- backing of an address; and how many bytes the pages of a length have.
pub record View (S : Type 0) : Type 0 where
  pub descriptor : S → ℕ → Option ℕ
  pub named : S → ℕ → Option ℕ
  pub byte : S → ℕ → Backing
  pub extent : ℕ → ℕ

-- `x` is not among the `n` addresses from `a` on.
abbrev pub Outside : ℕ → ℕ → ℕ → Type 0
Outside a n x = (x < a) ⊎ (a + n ≤ x)

pub inside_or_Outside : (a n x : ℕ) → ((k : ℕ) × (k < n) × (x ≡ a + k)) ⊎ Outside a n x
inside_or_Outside a n x = elim (dec_lt x a) [
  | yes below ↦ inr (inl below)
  | no above ↦ elim (dec_lt (x - a) n) [
    | yes near ↦ inl (x - a, near, omega (arith, above))
    | no far ↦ inr (inr (omega (arith, above, far)))
  ]
]

module _ {S : Type 0} (v : View S) where
  abbrev pub SameDescriptors : S → S → Type 0
  SameDescriptors s s' = (f : ℕ) → v.descriptor s' f ≡ v.descriptor s f

  abbrev pub SameNames : S → S → Type 0
  SameNames s s' = (m : ℕ) → v.named s' m ≡ v.named s m

  abbrev pub SameBytes : S → S → Type 0
  SameBytes s s' = (x : ℕ) → v.byte s' x ≡ v.byte s x

  -- Only the name `n` may have changed.
  abbrev pub SameOtherNames : ℕ → S → S → Type 0
  SameOtherNames n s s' = (m : ℕ) → m ≢ n → v.named s' m ≡ v.named s m

  abbrev pub SameOutside : ℕ → ℕ → S → S → Type 0
  SameOutside a n s s' = (x : ℕ) → Outside a n x → v.byte s' x ≡ v.byte s x

  pub record Same (s s' : S) : Type 0 where
    pub descriptors : SameDescriptors s s'
    pub names : SameNames s s'
    pub bytes : SameBytes s s'

  -- A new descriptor of the object that the name has afterwards.
  pub record Opened (n fd : ℕ) (s s' : S) : Type 0 where
    pub obj : ℕ
    pub fresh : v.descriptor s fd ≡ none
    pub opened : v.descriptor s' fd ≡ some obj
    pub bound : v.named s' n ≡ some obj
    pub others : (f : ℕ) → f ≢ fd → v.descriptor s' f ≡ v.descriptor s f
    pub bytes : SameBytes s s'

  abbrev pub backing : Prot → Source → S → ℕ → Backing
  backing prot anonymous s k = reserved
  backing prot (shared_file fd) s k = elim (v.descriptor s fd) [
    | none ↦ unmapped
    | some obj ↦ shared obj k prot
  ]

  -- Where a mapping of `n` bytes landed: on free addresses, or where it was asked to.
  abbrev pub Lands : Placement → ℕ → ℕ → S → Type 0
  Lands anywhere n a s = (k : ℕ) → k < n → v.byte s (a + k) ≡ unmapped
  Lands (fixed b) n a s = a ≡ b

  -- A mapping that failed may already have removed what was at a fixed place.
  abbrev pub Failed : Placement → ℕ → S → S → Type 0
  Failed anywhere n s s' = SameBytes s s'
  Failed (fixed b) n s s' = SameOutside b n s s'

  pub record Placed (page : ℕ) (at : Placement) (len : ℕ) (prot : Prot) (src : Source) (a : ℕ)
      (s s' : S) : Type 0 where
    pub nonempty : 0 < len
    pub nonnull : 0 < a
    pub valid : a ≢ map_failed
    pub aligned : a % page ≡ 0
    pub lands : Lands at (v.extent len) a s
    pub maps : (k : ℕ) → k < v.extent len → v.byte s' (a + k) ≡ backing prot src s k
    pub outside : SameOutside a (v.extent len) s s'

  pub record Laws (os : Kernel S) : Type 0 where
    -- The pages of a length hold it, and no more when it is a multiple of the page size.
    pub extent_ge : (n : ℕ) → n ≤ v.extent n
    pub extent_aligned : (n : ℕ) → n % os.page_size ≡ 0 → v.extent n ≡ n
    -- O_CREAT | O_EXCL binds a name that was free; the other flags leave the names alone.
    pub open_create :
        (n : ℕ) (s : S)
        → let (r, s') = os.shm_open n create_excl_rdwr s in
          ((r ≡ none) × Same s s')
          ⊎ ((fd : ℕ) × (r ≡ some fd)
              × Opened n fd s s'
              × (v.named s n ≡ none)
              × (v.named s' n ≢ none)
              × SameOtherNames n s s')
    pub open_existing :
        (n : ℕ) (flags : OpenFlags) (s : S)
        → flags ≢ create_excl_rdwr
        → let (r, s') = os.shm_open n flags s in
          ((r ≡ none) × Same s s') ⊎ ((fd : ℕ) × (r ≡ some fd) × Opened n fd s s' × SameNames s s')
    pub truncates : (fd len : ℕ) (s : S) → Same s (os.ftruncate fd len s).1
    pub closes :
        (fd : ℕ) (s : S)
        → let s' = os.close fd s in
          (v.descriptor s' fd ≡ none)
          × ((f : ℕ) → f ≢ fd → v.descriptor s' f ≡ v.descriptor s f)
          × SameNames s s'
          × SameBytes s s'
    -- A name that could not be removed stays.
    pub unlinks :
        (n : ℕ) (s : S)
        → let (done, s') = os.shm_unlink n s in
          SameDescriptors s s'
          × SameBytes s s'
          × SameOtherNames n s s'
          × (done ≡ true → v.named s' n ≡ none)
    pub mmaps :
        (at : Placement) (len : ℕ) (prot : Prot) (src : Source) (s : S)
        → let (a, s') = os.mmap at len prot src s in
          SameDescriptors s s'
          × SameNames s s'
          × (((a ≡ map_failed) × Failed at (v.extent len) s s')
              ⊎ Placed os.page_size at len prot src a s s')
    -- It leaves out the manual's ENOMEM, which is for a range in the middle of a mapping, which munmap
    -- would have to split: every range that the code unmaps is made of whole mappings.
    pub munmaps :
        (a len : ℕ) (s : S)
        → 0 < len
        → a % os.page_size ≡ 0
        → let s' = os.munmap a len s in
          SameDescriptors s s'
          × SameNames s s'
          × SameOutside a (v.extent len) s s'
          × ((k : ℕ) → k < v.extent len → v.byte s' (a + k) ≡ unmapped)
