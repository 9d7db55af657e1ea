-- ===== src/Status.antt =====
-- `absl::Status` and `absl::StatusOr`: a value, or the code of an error. Messages are left out.
pub data Code : Type 0 where
  not_found already_exists permission_denied resource_exhausted invalid_argument data_loss : Code
  internal : Code

pub data StatusOr {ℓ} (A : Type ℓ) : Type ℓ where
  value : A → StatusOr A
  error : Code → StatusOr A
