-- ===== src/Shm/MemoryMap.antt =====
-- MemoryMap of common/shared_memory/memory_map.cc: one function per member and helper, over the
-- kernel's calls in the order the source makes them. Names are numbers, and messages are left out.
use hotpathcplusplus.Base.{
  ℕ, ◌+◌, ◌%◌, Bool, true, false, not, ◌&&◌, Option, none, some, ◌==◌, if◌then◌else◌, mul64,
}
use hotpathcplusplus.Status.{
  Code, StatusOr, value, error, not_found, already_exists, permission_denied, resource_exhausted,
  invalid_argument, internal,
}
use hotpathcplusplus.Shm.Errno.{eperm, enoent, enomem, eacces, eexist, einval}
use hotpathcplusplus.Shm.Kernel.{
  Kernel, Prot, create_excl_rdwr, rdwr, rdonly, prot_none, prot_read, prot_read_write, anywhere,
  fixed, anonymous, shared_file, map_failed,
}

pub record MemoryMap : Type 0 where
  pub name : ℕ
  pub fd : Option ℕ
  pub addr : ℕ
  pub size : ℕ
  pub is_mirrored : Bool

unfoldable pub errno_to_status : ℕ → Code
errno_to_status e =
    if e == enoent
    then not_found
    else if e == eexist
    then already_exists
    else if e == eacces
    then permission_denied
    else if e == eperm
    then permission_denied
    else if e == enomem
    then resource_exhausted
    else if e == einval
    then invalid_argument
    else internal

-- `is_mirrored_ ? 2 * size_ : size_`
unfoldable pub mapped_size : MemoryMap → ℕ
mapped_size m = if m.is_mirrored then mul64 2 m.size else m.size

module _ {S : Type 0} (os : Kernel S) where
  unfoldable pub close_fd : Option ℕ → S → S
  close_fd none s = s
  close_fd (some fd) s = os.close fd s

  unfoldable pub unmap : MemoryMap → S → S
  unmap m s =
      if not (m.addr == map_failed) && not (m.addr == 0)
      then os.munmap m.addr (mapped_size m) s
      else s

  unfoldable pub destroy : MemoryMap → S → S
  unfolding unmap close_fd
  destroy m s = close_fd m.fd (unmap m s)

  -- A string that was moved from is left empty here; the standard says only that it is valid.
  unfoldable pub moved_from : MemoryMap → MemoryMap
  moved_from m = record { name = 0; fd = none; addr = 0; size = 0; is_mirrored = false }

  -- the new object, and the one moved from
  unfoldable pub move : MemoryMap → MemoryMap × MemoryMap
  unfolding moved_from
  move other = (other, moved_from other)

  -- Assignment to another object; assignment to itself does nothing.
  unfoldable pub move_assign : MemoryMap → MemoryMap → S → MemoryMap × MemoryMap × S
  unfolding moved_from destroy
  move_assign self other s = (other, moved_from other, destroy self s)

  unfoldable pub map_plain : ℕ → ℕ → Prot → S → StatusOr ℕ × S
  map_plain fd size prot s =
      let (addr, s1) = os.mmap anywhere size prot (shared_file fd) s in
      if addr == map_failed then (error (errno_to_status (os.errno s1)), s1) else (value addr, s1)

  -- Give up the reservation; errno is read after munmap.
  unfoldable pub give_up : ℕ → ℕ → S → StatusOr ℕ × S
  unfolding errno_to_status
  give_up base total s =
      let s1 = os.munmap base total s in (error (errno_to_status (os.errno s1)), s1)

  unfoldable pub map_second_half : ℕ → ℕ → ℕ → Prot → S → StatusOr ℕ × S
  unfolding give_up
  map_second_half base fd size prot s =
      let (second_half, s1) = os.mmap (fixed (base + size)) size prot (shared_file fd) s in
      if second_half == map_failed then give_up base (mul64 2 size) s1 else (value base, s1)

  unfoldable pub map_halves : ℕ → ℕ → ℕ → Prot → S → StatusOr ℕ × S
  unfolding give_up map_second_half
  map_halves base fd size prot s =
      let (first_half, s1) = os.mmap (fixed base) size prot (shared_file fd) s in
      if first_half == map_failed
      then give_up base (mul64 2 size) s1
      else map_second_half base fd size prot s1

  unfoldable pub map_mirror : ℕ → ℕ → Prot → S → StatusOr ℕ × S
  unfolding map_halves errno_to_status
  map_mirror fd size prot s =
      let (base, s1) = os.mmap anywhere (mul64 2 size) prot_none anonymous s in
      if base == map_failed
      then (error (errno_to_status (os.errno s1)), s1)
      else map_halves base fd size prot s1

  unfoldable pub do_map : ℕ → ℕ → Prot → Bool → S → StatusOr ℕ × S
  unfolding map_plain map_mirror
  do_map fd size prot use_magic_mirror s =
      if use_magic_mirror then map_mirror fd size prot s else map_plain fd size prot s

  -- The size of a mirror has to be a multiple of the page size.
  unfoldable pub misaligned : ℕ → Bool → Bool
  misaligned size use_magic_mirror = use_magic_mirror && not (size % os.page_size == 0)

  -- the end of Create after DoMap
  unfoldable pub created : ℕ → ℕ → ℕ → Bool → StatusOr ℕ × S → StatusOr MemoryMap × S
  created name fd size mirror (value addr, s) = (
    value (record { name = name; fd = some fd; addr = addr; size = size; is_mirrored = mirror }),
    s,
  )
  created name fd size mirror (error c, s) = (error c, (os.shm_unlink name (os.close fd s)).1)

  unfoldable pub create_sized : ℕ → ℕ → ℕ → Bool → Bool × S → StatusOr MemoryMap × S
  unfolding created do_map errno_to_status
  create_sized name fd size mirror (true, s) =
      created name fd size mirror (do_map fd size prot_read_write mirror s)
  create_sized name fd size mirror (false, s) =
      let s1 = (os.shm_unlink name (os.close fd s)).1 in (error (errno_to_status (os.errno s1)), s1)

  unfoldable pub create_opened : ℕ → ℕ → Bool → Option ℕ × S → StatusOr MemoryMap × S
  unfolding create_sized errno_to_status
  create_opened name size mirror (none, s) = (error (errno_to_status (os.errno s)), s)
  create_opened name size mirror (some fd, s) =
      create_sized name fd size mirror (os.ftruncate fd size s)

  unfoldable pub create : ℕ → ℕ → Bool → S → StatusOr MemoryMap × S
  unfolding misaligned create_opened
  create name size use_magic_mirror s =
      if misaligned size use_magic_mirror
      then (error invalid_argument, s)
      else create_opened name size use_magic_mirror (os.shm_open name create_excl_rdwr s)

  -- the end of Open after DoMap
  unfoldable pub attached : ℕ → ℕ → ℕ → Bool → StatusOr ℕ × S → StatusOr MemoryMap × S
  attached name fd size mirror (value addr, s) = (
    value (record { name = name; fd = some fd; addr = addr; size = size; is_mirrored = mirror }),
    s,
  )
  attached name fd size mirror (error c, s) = (error c, os.close fd s)

  unfoldable pub open_opened : ℕ → ℕ → Bool → Bool → Option ℕ × S → StatusOr MemoryMap × S
  unfolding attached do_map errno_to_status
  open_opened name size readonly mirror (none, s) = (error (errno_to_status (os.errno s)), s)
  open_opened name size readonly mirror (some fd, s) =
      attached name fd size mirror
        (do_map fd size (if readonly then prot_read else prot_read_write) mirror s)

  unfoldable pub open_map : ℕ → ℕ → Bool → Bool → S → StatusOr MemoryMap × S
  unfolding misaligned open_opened
  open_map name size readonly use_magic_mirror s =
      if misaligned size use_magic_mirror
      then (error invalid_argument, s)
      else open_opened name size readonly use_magic_mirror
          (os.shm_open name (if readonly then rdonly else rdwr) s)

  -- CreateOrOpen after Create
  unfoldable pub or_open : ℕ → ℕ → Bool → StatusOr MemoryMap × S → StatusOr MemoryMap × S
  unfolding open_map
  or_open name size mirror (value m, s) = (value m, s)
  or_open name size mirror (error already_exists, s) = open_map name size false mirror s
  or_open name size mirror (error c, s) = (error c, s)

  unfoldable pub create_or_open : ℕ → ℕ → Bool → S → StatusOr MemoryMap × S
  unfolding create or_open
  create_or_open name size use_magic_mirror s =
      or_open name size use_magic_mirror (create name size use_magic_mirror s)

  -- `none` is OkStatus
  unfoldable pub unlink : ℕ → S → Option Code × S
  unfolding errno_to_status
  unlink name s =
      let (done, s1) = os.shm_unlink name s in
      (if done then none else some (errno_to_status (os.errno s1)), s1)
