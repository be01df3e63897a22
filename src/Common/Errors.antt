-- ===== src/Common/Errors.antt =====
-- include/localvault/error.hpp: `LocalVaultError` is the code that it carries; the message and the
-- path that go with it are for display. `out_of_fuel` belongs to the model only.
use mathlib.Core.Bool.{Bool, true, false}

pub data ErrorCode : Type 0 where
  invalid_argument repository_not_found invalid_repository : ErrorCode
  unsupported_repository_version repository_busy filesystem_error database_error : ErrorCode
  compression_error hashing_error object_missing object_corrupt : ErrorCode
  unsafe_restore_path destination_exists source_changed cancelled : ErrorCode
  partial_success internal_error : ErrorCode

pub data Result {ℓ} (A : Type ℓ) : Type ℓ where
  ok : A → Result A
  err : ErrorCode → Result A
  out_of_fuel : Result A

-- `throw` unless the test holds.
abbrev pub require : Bool → ErrorCode → Result (Unit {0})
require true e = ok tt
require false e = err e
