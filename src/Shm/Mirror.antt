-- ===== src/Shm/Mirror.antt =====
-- DoMap of common/shared_memory/memory_map.cc: what the address space is after it, on every branch.
use hotpathcplusplus.Base.{
  ℕ, ◌+◌, ◌-◌, ◌*◌, ◌%◌, ◌^◌, ◌<◌, ◌≡◌, ◌≢◌, refl, sym, ap, subst, ◌∙◌, ◌⊎◌, inl, inr, Bool, true,
  false, Option, none, some, if◌then◌else◌, mul64, arith, ==-at, ==-off, dec_lt,
}
use hotpathcplusplus.Status.{Code, StatusOr, value, error}
use hotpathcplusplus.Shm.Kernel.{
  Kernel, View, Laws, Prot, Placement, anywhere, fixed, anonymous, shared_file, map_failed,
  prot_none, unmapped, shared, Placed, SameDescriptors, SameNames, SameBytes, SameOutside, Outside,
  inside_or_Outside,
}
use hotpathcplusplus.Shm.MemoryMap.{give_up, map_plain, map_second_half}

abbrev pub span : Bool → ℕ → ℕ
span mirror size = if mirror then mul64 2 size else size

mod-of-lt : (k n : ℕ) → k < n → k ≡ k % n
mod-of-lt k n h = grind arith

-- In the second half of a mirror.
mod-second : (k n : ℕ) → ¬ (k < n) → k < 2 * n → k - n ≡ k % n
mod-second k n h g = grind arith

module _ {S : Type 0} (os : Kernel S) (v : View S) where
  -- `span` bytes at `a` were free, and are now the object's bytes, from the start again at `size`.
  pub record Mapped (a size : ℕ) (prot : Prot) (mirror : Bool) (obj : ℕ) (s s' : S) : Type 0 where
    pub nonempty : 0 < span mirror size
    pub nonnull : 0 < a
    pub valid : a ≢ map_failed
    pub aligned : a % os.page_size ≡ 0
    pub free : (k : ℕ) → k < v.extent (span mirror size) → v.byte s (a + k) ≡ unmapped
    pub maps : (k : ℕ) → k < span mirror size → v.byte s' (a + k) ≡ shared obj (k % size) prot
    pub outside : SameOutside v a (v.extent (span mirror size)) s s'

  -- DoMap leaves descriptors and names alone; it fails and maps nothing, or it maps the object.
  abbrev pub Outcome : ℕ → Prot → Bool → ℕ → S → StatusOr ℕ × S → Type 0
  Outcome size prot mirror obj s (r, s') =
      SameDescriptors v s s'
      × SameNames v s s'
      × (((c : Code) × (r ≡ error c) × SameBytes v s s')
          ⊎ ((a : ℕ) × (r ≡ value a) × Mapped a size prot mirror obj s s'))

  module _ (laws : Laws v os) where
    -- A file mapping shows the object.
    pub file_bytes :
        (at : Placement) (fd size : ℕ) (prot : Prot) (obj a : ℕ) (s s' : S)
        → Placed v os.page_size at size prot (shared_file fd) a s s'
        → v.descriptor s fd ≡ some obj
        → (k : ℕ) → k < size
        → v.byte s' (a + k) ≡ shared obj k prot
    file_bytes at fd size prot obj a s s' p d k h =
        p.maps k (omega (arith, laws.extent_ge size))
        ∙ ap (λ (o : Option ℕ). elim o [ none ↦ unmapped | some b ↦ shared b k prot ]) d

    pub map_plain-Outcome :
        (fd size : ℕ) (prot : Prot) (obj : ℕ) (s : S)
        → v.descriptor s fd ≡ some obj
        → Outcome size prot false obj s (map_plain os fd size prot s)
    unfolding map_plain
    map_plain-Outcome fd size prot obj s d =
        let (same, names, out) = laws.mmaps anywhere size prot (shared_file fd) s in
        elim out [
          | inl (e, bytes) ↦ rw (==-at e) (same, names, inl (_, refl, bytes))
          | inr p ↦ rw (==-off p.valid) (
            same,
            names,
            inr (
              _,
              refl,
              record {
                nonempty = p.nonempty;
                nonnull = p.nonnull;
                valid = p.valid;
                aligned = p.aligned;
                free = p.lands;
                maps = λ k h.
                    file_bytes anywhere fd size prot obj _ s _ p d k h
                    ∙ ap (λ (j : ℕ). shared obj j prot) (mod-of-lt k size h);
                outside = p.outside;
              },
            ),
          )
        ]

    -- What is left of a reservation goes with it.
    pub give_up-Outcome :
        (base size : ℕ) (prot : Prot) (obj : ℕ) (s s1 s2 : S)
        → Placed v os.page_size anywhere (mul64 2 size) prot_none anonymous base s s1
        → SameDescriptors v s s2
        → SameNames v s s2
        → SameOutside v base (v.extent (mul64 2 size)) s1 s2
        → Outcome size prot true obj s (give_up os base (mul64 2 size) s2)
    unfolding give_up
    give_up-Outcome base size prot obj s s1 s2 p same names outside =
        let (d, n, out, gone) = laws.munmaps base (mul64 2 size) s2 p.nonempty p.aligned in
        (
          (λ f. d f ∙ same f),
          (λ m. n m ∙ names m),
          inl (
            _,
            refl,
            λ x. elim (inside_or_Outside base (v.extent (mul64 2 size)) x) [
              | inl (k, h, e) ↦ rw e (gone k h ∙ sym (p.lands k h))
              | inr o ↦ out x o ∙ outside x o ∙ p.outside x o
            ],
          ),
        )

    -- The second half over the first: the object once more from its start.
    pub map_second_half-Outcome :
        (base fd size : ℕ) (prot : Prot) (obj : ℕ) (s s1 s2 : S)
        → size < 2 ^ 63
        → v.extent size ≡ size
        → v.extent (mul64 2 size) ≡ mul64 2 size
        → v.descriptor s2 fd ≡ some obj
        → SameDescriptors v s s2
        → SameNames v s s2
        → Placed v os.page_size anywhere (mul64 2 size) prot_none anonymous base s s1
        → Placed v os.page_size (fixed base) size prot (shared_file fd) base s1 s2
        → ((k : ℕ) → k < size → v.byte s2 (base + k) ≡ shared obj k prot)
        → Outcome size prot true obj s (map_second_half os base fd size prot s2)
    unfolding map_second_half
    map_second_half-Outcome base fd size prot obj s s1 s2 small once twice d same names p q first =
        let (d3, n3, out) = laws.mmaps (fixed (base + size)) size prot (shared_file fd) s2 in
        elim out [
          | inl (e, o) ↦ rw (==-at e) (
              give_up-Outcome base size prot obj s s1 _ p (λ f. d3 f ∙ same f) (λ m. n3 m ∙ names m)
                (λ x h. o x (second x h) ∙ q.outside x (first_half x h)))
          | inr r ↦
              let at_half =
                subst
                  (λ a.
                    Placed v os.page_size (fixed (base + size)) size prot (shared_file fd) a s2
                      (os.mmap (fixed (base + size)) size prot (shared_file fd) s2).1)
                  r.lands r in
              rw (==-off r.valid) (
                (λ f. d3 f ∙ same f),
                (λ m. n3 m ∙ names m),
                inr (
                  _,
                  refl,
                  record {
                    nonempty = p.nonempty;
                    nonnull = p.nonnull;
                    valid = p.valid;
                    aligned = p.aligned;
                    free = p.lands;
                    maps = λ k h. elim (dec_lt k size) [
                      | yes near ↦
                          at_half.outside (base + k) (inl (omega arith))
                          ∙ first k near
                          ∙ ap (λ (j : ℕ). shared obj j prot) (mod-of-lt k size near)
                      | no far ↦
                          ap
                            (v.byte (os.mmap (fixed (base + size)) size prot (shared_file fd) s2).1)
                            (past k far)
                          ∙ file_bytes (fixed (base + size)) fd size prot obj (base + size) s2 _
                              at_half d (k - size) (omega (arith, far, h))
                          ∙ ap (λ (j : ℕ). shared obj j prot)
                              (mod-second k size far (omega (arith, h)))
                    ];
                    outside = λ x h.
                        at_half.outside x (second x h)
                        ∙ q.outside x (first_half x h)
                        ∙ p.outside x h;
                  },
                ),
              )
        ]
      where
        second :
            (x : ℕ)
            → Outside base (v.extent (mul64 2 size)) x
            → Outside (base + size) (v.extent size) x
        second x h = ground (arith, once, twice, small)

        first_half :
            (x : ℕ) → Outside base (v.extent (mul64 2 size)) x → Outside base (v.extent size) x
        first_half x h = ground (arith, once, twice, small)

        past : (k : ℕ) → ¬ (k < size) → base + k ≡ base + size + (k - size)
        past k far = omega (arith, far)
