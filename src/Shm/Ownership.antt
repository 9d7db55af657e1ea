-- ===== src/Shm/Ownership.antt =====
-- Who holds what after Create, Open and the destructor of memory_map.cc: a failed call holds nothing,
-- a mapping holds one descriptor and its pages, and the destructor gives both back.
use hotpathcplusplus.Base.{
  ℕ, ◌+◌, ◌<◌, ◌≡◌, ◌≢◌, refl, sym, ◌∙◌, inl, inr, Bool, false, none, some, arith, ==-off, ◌==◌,
  ℕ_discrete,
}
use hotpathcplusplus.Shm.Kernel.{
  Kernel, View, Laws, Prot, Opened, SameDescriptors, SameNames, SameBytes, inside_or_Outside,
}
use hotpathcplusplus.Shm.MemoryMap.{MemoryMap, destroy, unmap, close_fd, mapped_size}
use hotpathcplusplus.Shm.Mirror.{span, Mapped}

module _ {S : Type 0} (os : Kernel S) (v : View S) where
  -- From `s` to `s'` the process has gained what `m` names: a descriptor that was free, and a mapping
  -- of its object on addresses that were free; its other descriptors and addresses are untouched.
  pub record Owns (m : MemoryMap) (prot : Prot) (s s' : S) : Type 0 where
    pub fd : ℕ
    pub obj : ℕ
    pub holds : m.fd ≡ some fd
    pub fresh : v.descriptor s fd ≡ none
    pub opened : v.descriptor s' fd ≡ some obj
    pub others : (f : ℕ) → f ≢ fd → v.descriptor s' f ≡ v.descriptor s f
    pub mapped : Mapped os v m.addr m.size prot m.is_mirrored obj s s'

  -- The process holds in `s'` what it held in `s`.
  abbrev pub HoldsSame : S → S → Type 0
  HoldsSame s s' = SameDescriptors v s s' × SameBytes v s s'

  module _ (laws : Laws v os) where
    -- The destructor of a mapping gives back its descriptor and its addresses, and keeps every name.
    pub destroy-Owns :
        (m : MemoryMap) (prot : Prot) (s s' : S)
        → Owns m prot s s'
        → HoldsSame s (destroy os m s') × SameNames v s' (destroy os m s')
    unfolding destroy unmap close_fd mapped_size
    destroy-Owns m prot s s' o =
        let len = span m.is_mirrored m.size in
        let p = o.mapped in
        let (d1, n1, out, gone) = laws.munmaps m.addr len s' p.nonempty p.aligned in
        let (shut, d2, n2, b2) = laws.closes o.fd (os.munmap m.addr len s') in
        rw (o.holds, ==-off p.valid, nonnull m.addr p.nonnull)
          (
            (
              (λ f. elim (ℕ_discrete f o.fd) [
                | yes e ↦ rw e (shut ∙ sym o.fresh)
                | no w ↦ d2 f w ∙ d1 f ∙ o.others f w
              ]),
              (λ x. b2 x ∙ elim (inside_or_Outside m.addr (v.extent len) x) [
                | inl (k, h, e) ↦ rw e (gone k h ∙ sym (p.free k h))
                | inr w ↦ out x w ∙ p.outside x w
              ]),
            ),
            (λ n. n2 n ∙ n1 n),
          )
      where
        nonnull : (a : ℕ) → 0 < a → (a == 0) ≡ false
        nonnull a h = ground arith

    -- The next step in one process that leaves descriptors and bytes alone changes nothing here.
    pub holds_then : {s t u : S} → HoldsSame s t → HoldsSame t u → HoldsSame s u
    holds_then (d, b) (e, c) = ((λ f. e f ∙ d f), (λ x. c x ∙ b x))

    -- Closing a descriptor that was opened since, over the same addresses.
    pub close-Opened :
        (n fd : ℕ) (s s1 s2 : S)
        → Opened v n fd s s1
        → SameDescriptors v s1 s2
        → SameBytes v s1 s2
        → HoldsSame s (os.close fd s2)
    close-Opened n fd s s1 s2 o d b =
        let (shut, d3, n3, b3) = laws.closes fd s2 in
        (
          (λ f. elim (ℕ_discrete f fd) [
            | yes e ↦ rw e (shut ∙ sym o.fresh)
            | no w ↦ d3 f w ∙ d f ∙ o.others f w
          ]),
          (λ x. b3 x ∙ b x ∙ o.bytes x),
        )

    -- What DoMap gives after an Opened step is owned.
    unfoldable pub own :
        (n fd size addr : ℕ) (prot : Prot) (mirror : Bool) (s s1 s2 s3 : S)
        → (o : Opened v n fd s s1) → SameDescriptors v s1 s2
        → SameBytes v s1 s2
        → SameDescriptors v s2 s3
        → Mapped os v addr size prot mirror o.obj s2 s3
        → Owns
            (record { name = n; fd = some fd; addr = addr; size = size; is_mirrored = mirror })
            prot
            s
            s3
    own n fd size addr prot mirror s s1 s2 s3 o d2 b2 d3 p = record {
      fd = fd;
      obj = o.obj;
      holds = refl;
      fresh = o.fresh;
      opened = d3 fd ∙ d2 fd ∙ o.opened;
      others = λ f w. d3 f ∙ d2 f ∙ o.others f w;
      mapped = record {
        nonempty = p.nonempty;
        nonnull = p.nonnull;
        valid = p.valid;
        aligned = p.aligned;
        free = λ k h. sym (o.bytes (addr + k)) ∙ sym (b2 (addr + k)) ∙ p.free k h;
        maps = p.maps;
        outside = λ x h. p.outside x h ∙ b2 x ∙ o.bytes x;
      };
    }
