-- ===== src/Ring/Holdings.antt =====
-- What Create and Attach of BroadcastRingBuffer hold: both mappings or nothing.
use hotpathcplusplus.Base.{
  ℕ, ◌^◌, ◌<◌, ◌≤◌, ◌≡◌, ◌≢◌, refl, sym, ◌∙◌, ◌⊎◌, inl, inr, Bool, true, false, not, none, ltb,
  if◌then◌else◌, arith, Bool-cases, ℕ_discrete, some, Option,
}
use hotpathcplusplus.Status.{Code, StatusOr, value, error}
use hotpathcplusplus.Shm.Kernel.{
  Kernel, View, Laws, prot_read, prot_read_write, SameNames, SameOtherNames,
}
use hotpathcplusplus.Shm.MemoryMap.{MemoryMap, destroy, unlink}
use hotpathcplusplus.Shm.Ownership.{Owns, HoldsSame, holds_then, destroy-Owns}
use hotpathcplusplus.Shm.Acquire.{
  MayUnlink, CreateOutcome, OpenOutcome, create-Outcome, open_map-Outcome,
}
use hotpathcplusplus.Shm.CreateOrOpen.{Owns_to}
use hotpathcplusplus.Ring.Memory.{Memory}
use hotpathcplusplus.Ring.Types.{BroadcastHeader}
use hotpathcplusplus.Ring.Lifecycle.{
  BroadcastRingBuffer, create_data, create_meta, create_ring, attach_data, attach_meta, attach_ring,
  destroy_ring, max_capacity, header_size, init_header, new_buffer,
}

unbound_not : {x : ℕ} → ◌≢◌ {A = Option ℕ} none (some x)
unbound_not e = ground (arith, e)

module _ {S : Type 0} (os : Kernel S) (v : View S) where
  -- The process gained the two mappings of the handle, one after the other.
  pub record OwnsRing (b : BroadcastRingBuffer) (writable : Bool) (s s' : S) : Type 0 where
    pub between : S
    pub metadata : Owns os v b.metadata_map prot_read_write s between
    pub contents : Owns os v b.data_map (if writable then prot_read_write else prot_read) between s'

  -- An error, with everything as before; or a handle that owns both mappings, with a fresh header.
  abbrev pub CreateRingOutcome : ℕ → ℕ → S → StatusOr BroadcastRingBuffer × S → Type 0
  CreateRingOutcome name capacity s (r, s') =
      ((c : Code) × (r ≡ error c) × HoldsSame os v s s' × SameNames v s s')
      ⊎ ((b : BroadcastRingBuffer) × (r ≡ value b)
          × OwnsRing b true s s'
          × (b.ring.header ≡ init_header capacity)
          × (b.ring.capacity ≡ capacity))

  -- An error, with descriptors and address space as before; or a handle that owns both mappings, of
  -- at most a gigabyte.
  abbrev pub AttachRingOutcome : Bool → S → StatusOr BroadcastRingBuffer × S → Type 0
  AttachRingOutcome writable s (r, s') =
      SameNames v s s'
      × (((c : Code) × (r ≡ error c) × HoldsSame os v s s')
          ⊎ ((b : BroadcastRingBuffer) × (r ≡ value b)
              × OwnsRing b writable s s'
              × (b.ring.capacity ≤ max_capacity)))

  module _ (laws : Laws v os) where
    -- The destructor of a ring gives back both descriptors and both mappings, and keeps the names.
    pub destroy_ring-OwnsRing :
        (b : BroadcastRingBuffer) (writable : Bool) (s s' : S)
        → OwnsRing b writable s s'
        → HoldsSame os v s (destroy_ring os b s') × SameNames v s' (destroy_ring os b s')
    unfolding destroy_ring
    destroy_ring-OwnsRing b writable s s' o =
        let prot = if writable then prot_read_write else prot_read in
        let (h1, n1) = destroy-Owns os v laws b.data_map prot o.between s' o.contents in
        let (h2, n2) =
          destroy-Owns os v laws b.metadata_map prot_read_write s (destroy os b.data_map s')
            (Owns_to os v b.metadata_map prot_read_write h1 o.metadata) in
        (h2, λ m. n2 m ∙ n1 m)

  module _ (meta_name data_name : ℕ → ℕ) (header_of : MemoryMap → S → BroadcastHeader)
      (bytes_of : MemoryMap → S → Memory) where
    module _ (laws : Laws v os) where
      create_data-Outcome :
          (name capacity timeout : ℕ) (meta_map : MemoryMap) (s s1 : S) (r : StatusOr MemoryMap)
          (s2 : S)
          → MayUnlink os v (meta_name name)
          → Owns os v meta_map prot_read_write s s1
          → v.named s (meta_name name) ≡ none
          → v.named s1 (meta_name name) ≢ none
          → SameOtherNames v (meta_name name) s s1
          → CreateOutcome os v (data_name name) capacity s1 (r, s2)
          → CreateRingOutcome name capacity s (
              create_data os meta_name data_name header_of bytes_of name capacity timeout meta_map
                (r, s2))
      unfolding create_data unlink new_buffer
      create_data-Outcome name capacity timeout meta_map s s1 r s2 may o free bound others
            (inl (c, e, holds, names)) =
          let n = meta_name name in
          let t = (os.shm_unlink n s2).1 in
          let (d3, b3, n3, gone) = laws.unlinks n s2 in
          let (h4, n4) =
            destroy-Owns os v laws meta_map prot_read_write s t
              (Owns_to os v meta_map prot_read_write (holds_then os v laws holds (d3, b3)) o) in
          rw e (
            inl (
              c,
              refl,
              h4,
              (λ m. elim (ℕ_discrete m n) [
                | yes q ↦ rw q (n4 n ∙ gone (may s2 (λ w. bound (sym (names n) ∙ w))) ∙ sym free)
                | no w ↦ n4 m ∙ n3 m w ∙ names m ∙ others m w
              ]),
            ))
      create_data-Outcome name capacity timeout meta_map s s1 r s2 may o free bound others
            (inr (m, e, named, sized, owns, unbound, bound2, others2)) =
          rw e (inr (_, refl, record { between = s1; metadata = o; contents = owns }, refl, sized))

      create_meta-Outcome :
          (name capacity timeout : ℕ) (s : S) (r : StatusOr MemoryMap) (s1 : S)
          → capacity < 2 ^ 63
          → MayUnlink os v (meta_name name)
          → MayUnlink os v (data_name name)
          → CreateOutcome os v (meta_name name) header_size s (r, s1)
          → CreateRingOutcome name capacity s
              (create_meta os meta_name data_name header_of bytes_of name capacity timeout (r, s1))
      unfolding create_meta
      create_meta-Outcome name capacity timeout s r s1 small may may2 (inl (c, e, holds, names)) =
          rw e (inl (c, refl, holds, names))
      create_meta-Outcome name capacity timeout s r s1 small may may2
            (inr (m, e, named, sized, owns, free, bound, others)) =
          rw e (
            create_data-Outcome name capacity timeout m s s1 _ _ may owns free
              (λ q. unbound_not (sym q ∙ bound)) others
              (create-Outcome os v laws (data_name name) capacity true s1 small may2))

      -- Create of a ring either fails, and leaves descriptors, address space and names as they were,
      -- also when the second of its two segments fails; or it owns both segments, and its header is the
      -- initial one. The capacity is below 2^63, and the process may remove the two names.
      pub create_ring-Outcome :
          (name capacity timeout : ℕ) (s : S)
          → capacity < 2 ^ 63
          → MayUnlink os v (meta_name name)
          → MayUnlink os v (data_name name)
          → CreateRingOutcome name capacity s
              (create_ring os meta_name data_name header_of bytes_of name capacity timeout s)
      unfolding create_ring
      create_ring-Outcome name capacity timeout s small may may2 =
          create_meta-Outcome name capacity timeout s _ _ small may may2
            (create-Outcome os v laws (meta_name name) header_size false s (omega arith) may)

      attach_data-Outcome :
          (writable : Bool) (meta_map : MemoryMap) (name capacity : ℕ) (s s1 : S)
          (r : StatusOr MemoryMap) (s2 : S)
          → capacity ≤ max_capacity
          → SameNames v s s1
          → Owns os v meta_map prot_read_write s s1
          → OpenOutcome os v name capacity (not writable) s1 (r, s2)
          → AttachRingOutcome writable s
              (attach_data os meta_name data_name header_of bytes_of writable meta_map (r, s2))
      unfolding attach_data new_buffer
      attach_data-Outcome writable meta_map name capacity s s1 r s2 low names o
            (n2, inl (c, e, holds)) =
          let (h3, n3) =
            destroy-Owns os v laws meta_map prot_read_write s s2
              (Owns_to os v meta_map prot_read_write holds o) in
          rw e ((λ m. n3 m ∙ n2 m ∙ names m), inl (c, refl, h3))
      attach_data-Outcome writable meta_map name capacity s s1 r s2 low names o
            (n2, inr (m, e, named, sized, owns, bound)) =
          rw e (
            (λ k. n2 k ∙ names k),
            inr (
              _,
              refl,
              record { between = s1; metadata = o; contents = readable writable owns },
              omega (arith, sized),
            ),
          )
        where
          readable :
              (w : Bool)
              → Owns os v m (if not w then prot_read else prot_read_write) s1 s2
              → Owns os v m (if w then prot_read_write else prot_read) s1 s2
          readable true x = x
          readable false x = x

      attach_meta-Outcome :
          (name : ℕ) (writable : Bool) (s : S) (r : StatusOr MemoryMap) (s1 : S)
          → OpenOutcome os v (meta_name name) header_size false s (r, s1)
          → AttachRingOutcome writable s
              (attach_meta os meta_name data_name header_of bytes_of name writable (r, s1))
      unfolding attach_meta
      attach_meta-Outcome name writable s r s1 (names, inl (c, e, holds)) =
          rw e (names, inl (c, refl, holds))
      attach_meta-Outcome name writable s r s1 (names, inr (m, e, named, sized, owns, bound)) =
          let capacity = (header_of m s1).buffer_capacity in
          elim (Bool-cases (ltb max_capacity capacity)) [
            | inl big ↦
                let (h2, n2) = destroy-Owns os v laws m prot_read_write s s1 owns in
                rw (e, big) ((λ k. n2 k ∙ names k), inl (_, refl, h2))
            | inr fine ↦
                rw (e, fine)
                  (attach_data-Outcome writable m (data_name name) capacity s s1 _ _ (within fine)
                    names owns
                    (open_map-Outcome os v laws (data_name name) capacity (not writable) true s1
                      (omega (arith, within fine))))
          ]
        where
          within : {n : ℕ} → ltb max_capacity n ≡ false → n ≤ max_capacity
          within h = ground (arith, h)

      -- Attach either fails, and leaves descriptors and address space as they were, also when the
      -- header's capacity is refused or the data segment fails; or it owns both segments, of at most a
      -- gigabyte. It changes no name.
      pub attach_ring-Outcome :
          (name : ℕ) (writable : Bool) (s : S)
          → AttachRingOutcome writable s
              (attach_ring os meta_name data_name header_of bytes_of name writable s)
      unfolding attach_ring
      attach_ring-Outcome name writable s =
          attach_meta-Outcome name writable s _ _
            (open_map-Outcome os v laws (meta_name name) header_size false false s (omega arith))
