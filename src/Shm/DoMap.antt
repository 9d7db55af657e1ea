-- ===== src/Shm/DoMap.antt =====
-- DoMap as a whole: the two halves one after the other, and the choice between the two ways to map.
use native.Mathlib.Nat.{mod-add-mod}
use hotpathcplusplus.Base.{
  ℕ, ◌+◌, ◌%◌, ◌^◌, ◌<◌, ◌≡◌, refl, sym, ap, subst, ◌∙◌, inl, inr, Bool, true, false, some, mul64,
  arith, ==-at, ==-off,
}
use hotpathcplusplus.Shm.Kernel.{
  Kernel, View, Laws, Prot, anywhere, fixed, anonymous, shared_file, prot_none, Placed,
  SameDescriptors, SameNames, Outside,
}
use hotpathcplusplus.Shm.MemoryMap.{map_halves, map_mirror, do_map}
use hotpathcplusplus.Shm.Mirror.{
  Outcome, file_bytes, give_up-Outcome, map_plain-Outcome, map_second_half-Outcome,
}

mul64_twice : (n page : ℕ) → n < 2 ^ 63 → n % page ≡ 0 → mul64 2 n % page ≡ 0
mul64_twice n page small whole = twice n page whole (omega (arith, small))
  where
    twice : (a p : ℕ) {b : ℕ} → a % p ≡ 0 → b ≡ a + a → b % p ≡ 0
    twice a p e q = rw q (
        sym (mod-add-mod a p a)
        ∙ ap (λ (t : ℕ). (t + a) % p) e
        ∙ ap (λ (t : ℕ). t % p) (omega arith)
        ∙ e)

module _ {S : Type 0} (os : Kernel S) (v : View S) (laws : Laws v os) where
  map_halves-Outcome :
      (base fd size : ℕ) (prot : Prot) (obj : ℕ) (s s1 : S)
      → size < 2 ^ 63
      → v.extent size ≡ size
      → v.extent (mul64 2 size) ≡ mul64 2 size
      → v.descriptor s fd ≡ some obj
      → SameDescriptors v s s1
      → SameNames v s s1
      → Placed v os.page_size anywhere (mul64 2 size) prot_none anonymous base s s1
      → Outcome os v size prot true obj s (map_halves os base fd size prot s1)
  unfolding map_halves
  map_halves-Outcome base fd size prot obj s s1 small once twice d same names p =
      let (d2, n2, out) = laws.mmaps (fixed base) size prot (shared_file fd) s1 in
      let s2 = (os.mmap (fixed base) size prot (shared_file fd) s1).1 in
      elim out [
        | inl (e, o) ↦ rw (==-at e) (
            give_up-Outcome os v laws base size prot obj s s1 s2 p (λ f. d2 f ∙ same f)
              (λ m. n2 m ∙ names m) (λ x h. o x (first_half x h)))
        | inr r ↦
            let at_base =
              subst (λ a. Placed v os.page_size (fixed base) size prot (shared_file fd) a s1 s2)
                r.lands r in
            rw (==-off r.valid) (
              map_second_half-Outcome os v laws base fd size prot obj s s1 s2 small once twice
                (d2 fd ∙ same fd ∙ d) (λ f. d2 f ∙ same f) (λ m. n2 m ∙ names m) p at_base
                (file_bytes os v laws (fixed base) fd size prot obj base s1 s2 at_base
                  (same fd ∙ d)))
      ]
    where
      first_half :
          (x : ℕ) → Outside base (v.extent (mul64 2 size)) x → Outside base (v.extent size) x
      first_half x h = ground (arith, once, twice, small)

  map_mirror-Outcome :
      (fd size : ℕ) (prot : Prot) (obj : ℕ) (s : S)
      → size < 2 ^ 63
      → size % os.page_size ≡ 0
      → v.descriptor s fd ≡ some obj
      → Outcome os v size prot true obj s (map_mirror os fd size prot s)
  unfolding map_mirror
  map_mirror-Outcome fd size prot obj s small whole d =
      let (d1, n1, out) = laws.mmaps anywhere (mul64 2 size) prot_none anonymous s in
      elim out [
        | inl (e, bytes) ↦ rw (==-at e) (d1, n1, inl (_, refl, bytes))
        | inr p ↦ rw (==-off p.valid) (
            map_halves-Outcome _ fd size prot obj s _ small (laws.extent_aligned size whole)
              (laws.extent_aligned (mul64 2 size) (mul64_twice size os.page_size small whole)) d d1
              n1 p)
      ]

  -- DoMap of an object that a descriptor names either fails, with the address space as before, or
  -- finds free addresses for the object, twice in a row if it is to be mirrored, and changes no
  -- other address. Descriptors and names stay. A mirror's size is a multiple of the page size and
  -- below 2^63.
  pub do_map-Outcome :
      (fd size : ℕ) (prot : Prot) (mirror : Bool) (obj : ℕ) (s : S)
      → size < 2 ^ 63
      → (mirror ≡ true → size % os.page_size ≡ 0)
      → v.descriptor s fd ≡ some obj
      → Outcome os v size prot mirror obj s (do_map os fd size prot mirror s)
  unfolding do_map
  do_map-Outcome fd size prot true obj s small whole d =
      map_mirror-Outcome fd size prot obj s small (whole refl) d
  do_map-Outcome fd size prot false obj s small whole d =
      map_plain-Outcome os v laws fd size prot obj s d
