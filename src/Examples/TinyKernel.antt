-- ===== src/Examples/TinyKernel.antt =====
-- A small kernel that keeps the promises of Shm.Kernel: pages of 4096 bytes, descriptors and addresses
-- handed out in order and never again.
use hotpathcplusplus.Base.{
  ℕ, ◌+◌, ◌-◌, ◌*◌, ◌/◌, ◌%◌, ◌<◌, ◌≡◌, ◌≢◌, refl, ap, ◌∙◌, ◌⊎◌, inl, inr, Bool, true, false, ◌&&◌,
  ◌||◌, Option, none, some, ltb, leb, ◌==◌, if◌then◌else◌, update, ==-self, arith, Bool-cases,
}
use hotpathcplusplus.Shm.Kernel.{
  Kernel, View, Laws, Same, Opened, Placed, Failed, Lands, OpenFlags, create_excl_rdwr, rdwr,
  rdonly, Prot, Placement, anywhere, fixed, Source, Backing, unmapped, map_failed, Outside, backing,
  SameDescriptors, SameNames,
}

pub record Tiny : Type 0 where
  pub last_error : ℕ
  pub next_fd : ℕ
  pub next_obj : ℕ
  pub top : ℕ
  pub fds : ℕ → Option ℕ
  pub names : ℕ → Option ℕ
  pub bytes : ℕ → Backing

abbrev pub boot : Tiny
boot = record {
  last_error = 0;
  next_fd = 3;
  next_obj = 0;
  top = 0;
  fds = λ f. none;
  names = λ n. none;
  bytes = λ x. unmapped;
}

abbrev extent : ℕ → ℕ
extent n = (n + 4095) / 4096 * 4096

abbrev pub view : View Tiny
view = record {
  descriptor = λ s f. if ltb f s.next_fd then s.fds f else none;
  named = λ s n. s.names n;
  byte = λ s x. if ltb x s.top then s.bytes x else unmapped;
  extent = extent;
}

abbrev fail : ℕ → Tiny → Tiny
fail e s = record s { last_error = e }

abbrev grant : ℕ → Tiny → Option ℕ × Tiny
grant obj s =
    (some s.next_fd, record s { next_fd = s.next_fd + 1; fds = update s.fds s.next_fd (some obj) })

abbrev open_create : ℕ → Option ℕ → Tiny → Option ℕ × Tiny
open_create n (some obj) s = (none, fail 17 s)
open_create n none s =
    grant s.next_obj
      (record s { next_obj = s.next_obj + 1; names = update s.names n (some s.next_obj) })

abbrev open_existing : Option ℕ → Tiny → Option ℕ × Tiny
open_existing (some obj) s = grant obj s
open_existing none s = (none, fail 2 s)

abbrev shm_open : ℕ → OpenFlags → Tiny → Option ℕ × Tiny
shm_open n create_excl_rdwr s = open_create n (s.names n) s
shm_open n rdwr s = open_existing (s.names n) s
shm_open n rdonly s = open_existing (s.names n) s

abbrev shm_unlink_at : ℕ → Option ℕ → Tiny → Bool × Tiny
shm_unlink_at n none s = (false, fail 2 s)
shm_unlink_at n (some obj) s = (true, record s { names = update s.names n none })

-- `n` bytes at `a` become what `g` says.
abbrev place : ℕ → ℕ → (ℕ → Backing) → Tiny → Tiny
place a n g s = record s {
  top = if ltb s.top (a + n) then a + n else s.top;
  bytes = λ x.
      if leb a x && ltb x (a + n) then g (x - a) else if ltb x s.top then s.bytes x else unmapped;
}

abbrev start : Placement → Tiny → ℕ
start anywhere s = s.top / 4096 * 4096 + 4096
start (fixed b) s = b

abbrev refused : ℕ → ℕ → Bool
refused a len = len == 0 || not_aligned a || a == 0 || leb map_failed a
  where
    not_aligned : ℕ → Bool
    not_aligned x = ltb 0 (x % 4096)

abbrev mmap : Placement → ℕ → Prot → Source → Tiny → ℕ × Tiny
mmap at len prot src s =
    if refused (start at s) len
    then (map_failed, fail 12 s)
    else (start at s, place (start at s) (extent len) (backing view prot src s) s)

abbrev pub os : Kernel Tiny
os = record {
  page_size = 4096;
  errno = λ s. s.last_error;
  shm_open = shm_open;
  ftruncate = λ fd len s. (true, s);
  mmap = mmap;
  munmap = λ a len s. place a (extent len) (λ k. unmapped) s;
  close = λ fd s. record s { fds = update s.fds fd none };
  shm_unlink = λ n s. shm_unlink_at n (s.names n) s;
}

place-inside :
    (a n : ℕ) (g : ℕ → Backing) (s : Tiny) (k : ℕ) → k < n → view.byte (place a n g s) (a + k) ≡ g k
place-inside a n g s k h = shown ∙ ap g (omega arith)
  where
    shown : view.byte (place a n g s) (a + k) ≡ g (a + k - a)
    shown = ground (arith, h)

place-Outside :
    (a n : ℕ) (g : ℕ → Backing) (s : Tiny) (x : ℕ)
    → Outside a n x
    → view.byte (place a n g s) x ≡ view.byte s x
place-Outside a n g s x h = ground (arith, h)

grant-Opened :
    (n obj : ℕ) (s : Tiny) → s.names n ≡ some obj → Opened view n s.next_fd s (grant obj s).1
grant-Opened n obj s e = record {
  obj = obj;
  fresh = ground arith;
  opened = ground arith;
  bound = e;
  others = λ f w. ground (arith, w);
  bytes = λ x. refl;
}

unchanged : (e : ℕ) (s : Tiny) → Same view s (fail e s)
unchanged e s = record { descriptors = λ f. refl; names = λ m. refl; bytes = λ x. refl }

opens_new :
    (n : ℕ) (s : Tiny) (o : Option ℕ)
    → s.names n ≡ o
    → let (r, s') = open_create n o s in
      ((r ≡ none) × Same view s s')
      ⊎ ((fd : ℕ) × (r ≡ some fd)
          × Opened view n fd s s'
          × (s.names n ≡ none)
          × (s'.names n ≢ none)
          × ((m : ℕ) → m ≢ n → s'.names m ≡ s.names m))
opens_new n s (some obj) e = inl (refl, unchanged 17 s)
opens_new n s none e = inr (
  s.next_fd,
  refl,
  record {
    obj = s.next_obj;
    fresh = ground arith;
    opened = ground arith;
    bound = ground (arith, ==-self n);
    others = λ f w. ground (arith, w);
    bytes = λ x. refl;
  },
  e,
  (λ q. ground (arith, q)),
  λ m w. ground (arith, w),
)

opens_old :
    (n : ℕ) (s : Tiny) (o : Option ℕ)
    → s.names n ≡ o
    → let (r, s') = open_existing o s in
      ((r ≡ none) × Same view s s')
      ⊎ ((fd : ℕ) × (r ≡ some fd) × Opened view n fd s s' × SameNames view s s')
opens_old n s (some obj) e = inr (s.next_fd, refl, grant-Opened n obj s e, λ m. refl)
opens_old n s none e = inl (refl, unchanged 2 s)

unlinks_at :
    (n : ℕ) (s : Tiny) (o : Option ℕ)
    → s.names n ≡ o
    → let (done, s') = shm_unlink_at n o s in
      SameDescriptors view s s'
      × ((x : ℕ) → view.byte s' x ≡ view.byte s x)
      × ((m : ℕ) → m ≢ n → s'.names m ≡ s.names m)
      × (done ≡ true → s'.names n ≡ none)
unlinks_at n s none e = ((λ f. refl), (λ x. refl), (λ m w. refl), λ q. e)
unlinks_at n s (some obj) e =
    ((λ f. refl), (λ x. refl), (λ m w. ground (arith, w)), λ q. ground arith)

mmaps :
    (at : Placement) (len : ℕ) (prot : Prot) (src : Source) (s : Tiny)
    → let (a, s') = mmap at len prot src s in
      SameDescriptors view s s'
      × SameNames view s s'
      × (((a ≡ map_failed) × Failed view at (extent len) s s')
          ⊎ Placed view 4096 at len prot src a s s')
mmaps at len prot src s = elim (Bool-cases (refused (start at s) len)) [
  | inl bad ↦ rw bad ((λ f. refl), (λ m. refl), inl (refl, failed at))
  | inr good ↦ rw good (
    (λ f. refl),
    (λ m. refl),
    inr (record {
      nonempty = ground (arith, good);
      nonnull = ground (arith, good);
      valid = λ e. ground (arith, good);
      aligned = ground (arith, good);
      lands = lands at;
      maps = place-inside (start at s) (extent len) (backing view prot src s) s;
      outside = place-Outside (start at s) (extent len) (backing view prot src s) s;
    }),
  )
]
  where
    failed : (q : Placement) → Failed view q (extent len) s (fail 12 s)
    failed anywhere = λ x. refl
    failed (fixed b) = λ x h. refl

    lands : (q : Placement) → Lands view q (extent len) (start q s) s
    lands anywhere = λ k h. ground arith
    lands (fixed b) = refl

pub laws : Laws view os
laws = record {
  extent_ge = λ n. omega arith;
  extent_aligned = λ n h. omega arith;
  open_create = λ n s. opens_new n s (s.names n) refl;
  open_existing = existing;
  truncates = λ fd len s. unchanged s.last_error s;
  closes = λ fd s. (ground arith, (λ f w. ground (arith, w)), (λ m. refl), λ x. refl);
  unlinks = λ n s. unlinks_at n s (s.names n) refl;
  mmaps = mmaps;
  munmaps = λ a len s p q. (
    (λ f. refl),
    (λ m. refl),
    place-Outside a (extent len) (λ k. unmapped) s,
    place-inside a (extent len) (λ k. unmapped) s,
  );
}
  where
    existing :
        (n : ℕ) (flags : OpenFlags) (s : Tiny)
        → flags ≢ create_excl_rdwr
        → let (r, s') = shm_open n flags s in
          ((r ≡ none) × Same view s s')
          ⊎ ((fd : ℕ) × (r ≡ some fd) × Opened view n fd s s' × SameNames view s s')
    existing n create_excl_rdwr s w = absurd (w refl)
    existing n rdwr s w = opens_old n s (s.names n) refl
    existing n rdonly s w = opens_old n s (s.names n) refl

-- Every bound name can be removed.
pub may_unlink : (n : ℕ) (t : Tiny) → view.named t n ≢ none → (os.shm_unlink n t).0 ≡ true
may_unlink n t w = at (t.names n) w
  where
    at : (o : Option ℕ) → o ≢ none → (shm_unlink_at n o t).0 ≡ true
    at none h = absurd (h refl)
    at (some obj) h = refl
