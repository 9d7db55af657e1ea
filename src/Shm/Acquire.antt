-- ===== src/Shm/Acquire.antt =====
-- Create, Open and CreateOrOpen of memory_map.cc on every branch.
use hotpathcplusplus.Base.{
  ℕ, ◌%◌, ◌^◌, ◌<◌, ◌≡◌, ◌≢◌, refl, sym, ◌∙◌, ◌⊎◌, inl, inr, Bool, true, false, none, if◌then◌else◌,
  arith, ℕ_discrete, some,
}
use hotpathcplusplus.Status.{Code, StatusOr, value, error}
use hotpathcplusplus.Shm.Kernel.{
  Kernel, View, Laws, Same, prot_read, prot_read_write, create_excl_rdwr, rdwr, rdonly, Opened,
  SameDescriptors, SameNames, SameBytes, SameOtherNames,
}
use hotpathcplusplus.Shm.MemoryMap.{
  MemoryMap, created, create_sized, create_opened, create, attached, open_opened, open_map,
  misaligned,
}
use hotpathcplusplus.Shm.Mirror.{Outcome}
use hotpathcplusplus.Shm.DoMap.{do_map-Outcome}
use hotpathcplusplus.Shm.Ownership.{Owns, HoldsSame, own, close-Opened}

module _ {S : Type 0} (os : Kernel S) (v : View S) where
  -- The process may remove the name as long as it is bound.
  abbrev pub MayUnlink : ℕ → Type 0
  MayUnlink n = (t : S) → v.named t n ≢ none → (os.shm_unlink n t).0 ≡ true

  -- An error, with everything as before; or a mapping that owns what was gained, under a name that
  -- was free.
  abbrev pub CreateOutcome : ℕ → ℕ → S → StatusOr MemoryMap × S → Type 0
  CreateOutcome n size s (r, s') =
      ((c : Code) × (r ≡ error c) × HoldsSame os v s s' × SameNames v s s')
      ⊎ ((m : MemoryMap) × (r ≡ value m)
          × (m.name ≡ n)
          × (m.size ≡ size)
          × (owns : Owns os v m prot_read_write s s') × (v.named s n ≡ none)
          × (v.named s' n ≡ some owns.obj)
          × SameOtherNames v n s s')

  -- An error, or a mapping that owns what was gained; the names stay.
  abbrev pub OpenOutcome : ℕ → ℕ → Bool → S → StatusOr MemoryMap × S → Type 0
  OpenOutcome n size readonly s (r, s') =
      SameNames v s s'
      × (((c : Code) × (r ≡ error c) × HoldsSame os v s s')
          ⊎ ((m : MemoryMap) × (r ≡ value m)
              × (m.name ≡ n)
              × (m.size ≡ size)
              × (owns : Owns os v m (if readonly then prot_read else prot_read_write) s s')
              × (v.named s' n ≡ some owns.obj)))

  aligned_or_error :
      (size : ℕ) (mirror : Bool)
      → (misaligned os size mirror ≡ true)
        ⊎ ((misaligned os size mirror ≡ false) × (mirror ≡ true → size % os.page_size ≡ 0))
  unfolding misaligned
  aligned_or_error size true = elim (ℕ_discrete (size % os.page_size) 0) [
    | yes e ↦ inr (ground (arith, e), λ t. e)
    | no w ↦ inl (ground (arith, w))
  ]
  aligned_or_error size false = inr (refl, λ t. absurd (ground (arith, t)))

  module _ (laws : Laws v os) where
    -- The cleanup of a Create that fails: close, then shm_unlink.
    undo :
        (n fd : ℕ) (s s1 s2 : S)
        → MayUnlink n
        → Opened v n fd s s1
        → v.named s n ≡ none
        → v.named s1 n ≢ none
        → SameOtherNames v n s s1
        → SameDescriptors v s1 s2
        → SameNames v s1 s2
        → SameBytes v s1 s2
        → let t = (os.shm_unlink n (os.close fd s2)).1 in HoldsSame os v s t × SameNames v s t
    undo n fd s s1 s2 may o free bound others d nm b =
        let (shut, d3, n3, b3) = laws.closes fd s2 in
        let (d4, b4, n4, gone) = laws.unlinks n (os.close fd s2) in
        let (hd, hb) = close-Opened os v laws n fd s s1 s2 o d b in
        (
          ((λ f. d4 f ∙ hd f), (λ x. b4 x ∙ hb x)),
          (λ m. elim (ℕ_discrete m n) [
            | yes e ↦
                rw e (gone (may (os.close fd s2) (λ q. bound (sym (n3 n ∙ nm n) ∙ q))) ∙ sym free)
            | no w ↦ n4 m w ∙ n3 m ∙ nm m ∙ others m w
          ]),
        )

    created-Outcome :
        (n fd size : ℕ) (mirror : Bool) (s s1 s2 : S) (o : Opened v n fd s s1) (r : StatusOr ℕ)
        (s3 : S)
        → MayUnlink n
        → v.named s n ≡ none
        → v.named s1 n ≢ none
        → SameOtherNames v n s s1
        → SameDescriptors v s1 s2
        → SameNames v s1 s2
        → SameBytes v s1 s2
        → Outcome os v size prot_read_write mirror o.obj s2 (r, s3)
        → CreateOutcome n size s (created os n fd size mirror (r, s3))
    unfolding created own
    created-Outcome n fd size mirror s s1 s2 o r s3 may free bound others d nm b (d3, n3, out) =
        elim out [
          | inl (c, e, b3) ↦
              let (holds, names) =
                undo n fd s s1 s3 may o free bound others (λ f. d3 f ∙ d f) (λ m. n3 m ∙ nm m)
                  (λ x. b3 x ∙ b x) in
              rw e (inl (c, refl, holds, names))
          | inr (a, e, mapped) ↦ rw e (
              inr (
                _,
                refl,
                refl,
                refl,
                own os v laws n fd size a prot_read_write mirror s s1 s2 s3 o d b d3 mapped,
                free,
                n3 n ∙ nm n ∙ o.bound,
                λ m w. n3 m ∙ nm m ∙ others m w,
              ))
        ]

    sized-Outcome :
        (n fd size : ℕ) (mirror : Bool) (s s1 : S) (o : Opened v n fd s s1) (done : Bool) (s2 : S)
        → size < 2 ^ 63
        → (mirror ≡ true → size % os.page_size ≡ 0)
        → MayUnlink n
        → v.named s n ≡ none
        → v.named s1 n ≢ none
        → SameOtherNames v n s s1
        → Same v s1 s2
        → CreateOutcome n size s (create_sized os n fd size mirror (done, s2))
    unfolding create_sized
    sized-Outcome n fd size mirror s s1 o true s2 small whole may free bound others same =
        created-Outcome n fd size mirror s s1 s2 o _ _ may free bound others same.descriptors
          same.names same.bytes
          (do_map-Outcome os v laws fd size prot_read_write mirror o.obj s2 small whole
            (same.descriptors fd ∙ o.opened))
    sized-Outcome n fd size mirror s s1 o false s2 small whole may free bound others same =
        let (holds, names) =
          undo n fd s s1 s2 may o free bound others same.descriptors same.names same.bytes in
        inl (_, refl, holds, names)

    -- Create either fails, and leaves descriptors, address space and names as they were, or succeeds,
    -- and owns one new descriptor and one new mapping of the object that its name, free before, now
    -- stands for. The size is below 2^63, and the process may remove the name.
    pub create-Outcome :
        (n size : ℕ) (mirror : Bool) (s : S)
        → size < 2 ^ 63
        → MayUnlink n
        → CreateOutcome n size s (create os n size mirror s)
    unfolding create create_opened create_sized
    create-Outcome n size mirror s small may = elim (aligned_or_error size mirror) [
      | inl bad ↦ rw bad (inl (_, refl, ((λ f. refl), (λ x. refl)), (λ m. refl)))
      | inr (good, whole) ↦ rw good (elim (laws.open_create n s) [
        | inl (e, same) ↦ rw e (inl (_, refl, (same.descriptors, same.bytes), same.names))
        | inr (fd, e, o, free, bound, others) ↦ rw e (
            sized-Outcome n fd size mirror s _ o _ _ small whole may free bound others
              (laws.truncates fd size (os.shm_open n create_excl_rdwr s).1))
      ])
    ]

    attached-Outcome :
        (n fd size : ℕ) (readonly mirror : Bool) (s s1 : S) (o : Opened v n fd s s1)
        (r : StatusOr ℕ) (s2 : S)
        → SameNames v s s1
        → Outcome os v size
            (if readonly then prot_read else prot_read_write)
            mirror
            o.obj
            s1
            (r, s2)
        → OpenOutcome n size readonly s (attached os n fd size mirror (r, s2))
    unfolding attached own
    attached-Outcome n fd size readonly mirror s s1 o r s2 names (d2, n2, out) =
        let prot = if readonly then prot_read else prot_read_write in
        elim out [
          | inl (c, e, b2) ↦
              let (_, _, n3, _) = laws.closes fd s2 in
              rw e (
                (λ m. n3 m ∙ n2 m ∙ names m),
                inl (c, refl, close-Opened os v laws n fd s s1 s2 o d2 b2),
              )
          | inr (a, e, mapped) ↦ rw e (
            (λ m. n2 m ∙ names m),
            inr (
              _,
              refl,
              refl,
              refl,
              own os v laws n fd size a prot mirror s s1 s1 s2 o (λ f. refl) (λ x. refl) d2 mapped,
              n2 n ∙ o.bound,
            ),
          )
        ]

    flags-ne : (readonly : Bool) → (if readonly then rdonly else rdwr) ≢ create_excl_rdwr
    flags-ne true e = ground (arith, e)
    flags-ne false e = ground (arith, e)

    -- Open either fails, and leaves descriptors and address space as they were, or succeeds, and owns
    -- one new descriptor and one new mapping of the object that its name stands for. It changes no name.
    -- The size is below 2^63.
    pub open_map-Outcome :
        (n size : ℕ) (readonly mirror : Bool) (s : S)
        → size < 2 ^ 63
        → OpenOutcome n size readonly s (open_map os n size readonly mirror s)
    unfolding open_map open_opened
    open_map-Outcome n size readonly mirror s small =
        let flags = if readonly then rdonly else rdwr in
        let prot = if readonly then prot_read else prot_read_write in
        elim (aligned_or_error size mirror) [
          | inl bad ↦ rw bad ((λ m. refl), inl (_, refl, ((λ f. refl), (λ x. refl))))
          | inr (good, whole) ↦ rw good (elim (laws.open_existing n flags s (flags-ne readonly)) [
            | inl (e, same) ↦ rw e (same.names, inl (_, refl, (same.descriptors, same.bytes)))
            | inr (fd, e, o, names) ↦ rw e (
                attached-Outcome n fd size readonly mirror s _ o _ _ names (
                  do_map-Outcome os v laws fd size prot mirror o.obj (os.shm_open n flags s).1 small
                    whole o.opened))
          ])
        ]
