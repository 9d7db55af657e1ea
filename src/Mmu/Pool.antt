-- ===== src/Mmu/Pool.antt =====
-- PrefaultedArenaPool and OrderBookArena over the kernel: the destructor undoes the constructor.
use hotpathcplusplus.Base.{
  ℕ, ◌<◌, ◌≡◌, refl, sym, ◌∙◌, inl, inr, Bool, true, false, not, ◌&&◌, List, ◌==◌, arith, ==-at,
  ==-off, add64,
}
use hotpathcplusplus.Shm.Kernel.{
  Kernel, View, Laws, Same, SameDescriptors, SameNames, Placed, anywhere, anonymous,
  prot_read_write, inside_or_Outside,
}
use hotpathcplusplus.Mmu.Paging.{
  new_pool, destroy_pool, arena_at, new_arena, destroy_arena, round_up, page_size, huge_page_size,
}

nonnull : (a : ℕ) → 0 < a → (a == 0) ≡ false
nonnull a h = ground arith

and_false : (b : Bool) → (not b && false) ≡ false
and_false true = refl
and_false false = refl

module _ {S : Type 0} (os : Kernel S) (v : View S) (laws : Laws v os) where
  -- Unmapping what was mapped anonymously on free addresses, with only harmless calls between.
  unmap-Placed :
      (a len : ℕ) (s s1 s2 : S)
      → SameDescriptors v s s1
      → SameNames v s s1
      → Placed v os.page_size anywhere len prot_read_write anonymous a s s1
      → Same v s1 s2
      → Same v s (os.munmap a len s2)
  unmap-Placed a len s s1 s2 d1 n1 p same =
      let (d3, n3, out, gone) = laws.munmaps a len s2 p.nonempty p.aligned in
      record {
        descriptors = λ f. d3 f ∙ same.descriptors f ∙ d1 f;
        names = λ m. n3 m ∙ same.names m ∙ n1 m;
        bytes = λ x. elim (inside_or_Outside a (v.extent len) x) [
          | inl (k, h, e) ↦ rw e (gone k h ∙ sym (p.lands k h))
          | inr o ↦ out x o ∙ same.bytes x ∙ p.outside x o
        ];
      }

  -- A pool of any size, whether mmap granted it or not, is gone after its destructor: the address
  -- space, the descriptors and the names are as before, if mlock leaves the mappings as they are.
  pub destroy_pool-new_pool :
      (mlock : ℕ → ℕ → S → S) (bytes : ℕ) (mem : ℕ → ℕ) (s : S)
      → ((a n : ℕ) (t : S) → Same v t (mlock a n t))
      → let (pool, mem', s') = new_pool os mlock bytes mem s in
        Same v s (destroy_pool os mlock pool s')
  unfolding new_pool destroy_pool
  destroy_pool-new_pool mlock bytes mem s harmless =
      let size = round_up page_size bytes in
      let (d1, n1, out) = laws.mmaps anywhere size prot_read_write anonymous s in
      elim out [
        | inl (e, same) ↦ rw (==-at e) (record { descriptors = d1; names = n1; bytes = same })
        | inr p ↦
            rw (==-off p.valid, nonnull _ p.nonnull)
              (unmap-Placed _ size s _ _ d1 n1 p (harmless _ size _))
      ]

  -- An order book arena is gone after its destructor, also when mmap failed, if madvise leaves the
  -- mappings as they are.
  pub destroy_arena-new_arena :
      (madvise : ℕ → ℕ → Bool → S → S) (total_bytes : ℕ) (use_hugepages : Bool) (draws : List ℕ)
      (s : S)
      → ((a n : ℕ) (huge : Bool) (t : S) → Same v t (madvise a n huge t))
      → let (arena, s') = new_arena os madvise total_bytes use_hugepages draws s in
        Same v s (destroy_arena os madvise arena s')
  unfolding new_arena destroy_arena arena_at
  destroy_arena-new_arena madvise total_bytes use_hugepages draws s harmless =
      let total = round_up huge_page_size total_bytes in
      let len = add64 total huge_page_size in
      let (d1, n1, out) = laws.mmaps anywhere len prot_read_write anonymous s in
      elim out [
        | inl (e, same) ↦
            rw (==-at e, and_false ((os.mmap anywhere len prot_read_write anonymous s).0 == 0))
              (then_harmless (record { descriptors = d1; names = n1; bytes = same })
                (harmless _ total use_hugepages _))
        | inr p ↦
            rw (==-off p.valid, nonnull _ p.nonnull)
              (unmap-Placed _ len s _ _ d1 n1 p (harmless _ total use_hugepages _))
      ]
    where
      then_harmless : {t u : S} → Same v s t → Same v t u → Same v s u
      then_harmless p q = record {
        descriptors = λ f. q.descriptors f ∙ p.descriptors f;
        names = λ m. q.names m ∙ p.names m;
        bytes = λ x. q.bytes x ∙ p.bytes x;
      }
