-- ===== src/Shm/CreateOrOpen.antt =====
-- CreateOrOpen of memory_map.cc: Create, and Open where the name was taken.
use hotpathcplusplus.Base.{ℕ, ◌^◌, ◌<◌, ◌≡◌, refl, sym, ◌∙◌, ◌⊎◌, inl, inr, Bool, false, ◌+◌, some}
use hotpathcplusplus.Status.{
  Code, StatusOr, value, error, not_found, already_exists, permission_denied, resource_exhausted,
  invalid_argument, data_loss, internal,
}
use hotpathcplusplus.Shm.Kernel.{
  Kernel, View, Laws, prot_read_write, SameNames, SameOtherNames, Prot,
}
use hotpathcplusplus.Shm.MemoryMap.{MemoryMap, or_open, create_or_open}
use hotpathcplusplus.Shm.Ownership.{Owns, HoldsSame, holds_then}
use hotpathcplusplus.Shm.Acquire.{MayUnlink, CreateOutcome, create-Outcome, open_map-Outcome}

module _ {S : Type 0} (os : Kernel S) (v : View S) where
  -- Whoever holds the same before an acquisition owns the same after it.
  unfoldable pub Owns_from :
      (m : MemoryMap) (prot : Prot) {s t u : S}
      → HoldsSame os v s t
      → Owns os v m prot t u
      → Owns os v m prot s u
  Owns_from m prot (d, b) o = record {
    fd = o.fd;
    obj = o.obj;
    holds = o.holds;
    fresh = sym (d o.fd) ∙ o.fresh;
    opened = o.opened;
    others = λ f w. o.others f w ∙ d f;
    mapped = record {
      nonempty = o.mapped.nonempty;
      nonnull = o.mapped.nonnull;
      valid = o.mapped.valid;
      aligned = o.mapped.aligned;
      free = λ k h. sym (b (m.addr + k)) ∙ o.mapped.free k h;
      maps = o.mapped.maps;
      outside = λ x h. o.mapped.outside x h ∙ b x;
    };
  }

  pub Owns_to :
      (m : MemoryMap) (prot : Prot) {s t u : S}
      → HoldsSame os v t u
      → Owns os v m prot s t
      → Owns os v m prot s u
  Owns_to m prot (d, b) o = record {
    fd = o.fd;
    obj = o.obj;
    holds = o.holds;
    fresh = o.fresh;
    opened = d o.fd ∙ o.opened;
    others = λ f w. d f ∙ o.others f w;
    mapped = record {
      nonempty = o.mapped.nonempty;
      nonnull = o.mapped.nonnull;
      valid = o.mapped.valid;
      aligned = o.mapped.aligned;
      free = o.mapped.free;
      maps = λ k h. b (m.addr + k) ∙ o.mapped.maps k h;
      outside = λ x h. b x ∙ o.mapped.outside x h;
    };
  }

  -- An error, with everything as before; or an owned, writable mapping, with other names as before.
  abbrev pub EitherOutcome : ℕ → ℕ → S → StatusOr MemoryMap × S → Type 0
  EitherOutcome n size s (r, s') =
      ((c : Code) × (r ≡ error c) × HoldsSame os v s s' × SameNames v s s')
      ⊎ ((m : MemoryMap) × (r ≡ value m)
          × (m.name ≡ n)
          × (m.size ≡ size)
          × (owns : Owns os v m prot_read_write s s') × (v.named s' n ≡ some owns.obj)
          × SameOtherNames v n s s')

  or_open-cases :
      (n size : ℕ) (mirror : Bool) (c : Code)
      → (c ≡ already_exists) ⊎ ((s : S) → or_open os n size mirror (error c, s) ≡ (error c, s))
  unfolding or_open
  or_open-cases n size mirror not_found = inr (λ s. refl)
  or_open-cases n size mirror already_exists = inl refl
  or_open-cases n size mirror permission_denied = inr (λ s. refl)
  or_open-cases n size mirror resource_exhausted = inr (λ s. refl)
  or_open-cases n size mirror invalid_argument = inr (λ s. refl)
  or_open-cases n size mirror data_loss = inr (λ s. refl)
  or_open-cases n size mirror internal = inr (λ s. refl)

  module _ (laws : Laws v os) where
    or_open-Outcome :
        (n size : ℕ) (mirror : Bool) (s : S) (r : StatusOr MemoryMap) (s1 : S)
        → size < 2 ^ 63
        → CreateOutcome os v n size s (r, s1)
        → EitherOutcome n size s (or_open os n size mirror (r, s1))
    unfolding or_open Owns_from
    or_open-Outcome n size mirror s r s1 small
          (inr (m, e, named, sized, owns, free, bound, others)) =
        rw e (inr (m, refl, named, sized, owns, bound, others))
    or_open-Outcome n size mirror s r s1 small (inl (c, e, holds, names)) =
        elim (or_open-cases n size mirror c) [
          | inr same ↦ rw (e, same s1) (inl (c, refl, holds, names))
          | inl taken ↦
              let (n2, out) = open_map-Outcome os v laws n size false mirror s1 small in
              rw (e, taken)
                (elim out [
                  | inl (c2, e2, h2) ↦
                      rw e2 (inl (c2, refl, holds_then os v laws holds h2, (λ m. n2 m ∙ names m)))
                  | inr (m, e2, named, sized, owns, bound) ↦ rw e2 (
                      inr (
                        m,
                        refl,
                        named,
                        sized,
                        Owns_from m prot_read_write holds owns,
                        bound,
                        (λ k w. n2 k ∙ names k),
                      ))
                ])
        ]

    -- CreateOrOpen either fails, and leaves descriptors, address space and names as they were, or owns
    -- one new descriptor and one new writable mapping of the object under its name.
    -- The size is below 2^63, and the process may remove the name.
    pub create_or_open-Outcome :
        (n size : ℕ) (mirror : Bool) (s : S)
        → size < 2 ^ 63
        → MayUnlink os v n
        → EitherOutcome n size s (create_or_open os n size mirror s)
    unfolding create_or_open
    create_or_open-Outcome n size mirror s small may =
        or_open-Outcome n size mirror s _ _ small
          (create-Outcome os v laws n size mirror s small may)
