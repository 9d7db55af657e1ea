-- ===== src/Shm/Errno.antt =====
-- The values of errno.h on Linux that ErrnoToStatus of common/shared_memory/memory_map.cc names.
use hotpathcplusplus.Base.{ℕ}

abbrev pub eperm : ℕ
eperm = 1

abbrev pub enoent : ℕ
enoent = 2

abbrev pub enomem : ℕ
enomem = 12

abbrev pub eacces : ℕ
eacces = 13

abbrev pub eexist : ℕ
eexist = 17

abbrev pub einval : ℕ
einval = 22
