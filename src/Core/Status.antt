-- ===== src/Core/Status.antt =====
-- src/core/ErrorCodes.h and src/core/Result.h: the error registry and `Status`.
use nexus_firmware.Prelude.{ℕ, Bool, true, false, String, ◌≡◌, refl, ◌⊎◌, inl, inr}

pub data ErrorCode : Type 0 where
  unknown invalid_arg not_found io_error timeout permission_denied corrupt : ErrorCode
  not_implemented already_exists : ErrorCode
  log_init_failed : ErrorCode
  config_not_found config_parse_error config_validation_failed config_write_failed : ErrorCode
  config_corrupt : ErrorCode
  illegal_state_transition service_start_failed : ErrorCode
  crypto_error identity_missing identity_corrupt key_generation_failed signing_failed : ErrorCode
  secure_store_error : ErrorCode

-- `toInt`: the registered number of a code. A success carries no code here; its number is 0.
unfoldable pub to_int : ErrorCode → ℕ
to_int ErrorCode.unknown = 1000
to_int invalid_arg = 1001
to_int not_found = 1002
to_int io_error = 1003
to_int timeout = 1004
to_int permission_denied = 1005
to_int corrupt = 1006
to_int not_implemented = 1007
to_int already_exists = 1008
to_int log_init_failed = 1100
to_int config_not_found = 1200
to_int config_parse_error = 1201
to_int config_validation_failed = 1202
to_int config_write_failed = 1203
to_int config_corrupt = 1204
to_int illegal_state_transition = 1300
to_int service_start_failed = 1301
to_int crypto_error = 1400
to_int identity_missing = 1401
to_int identity_corrupt = 1402
to_int key_generation_failed = 1403
to_int signing_failed = 1404
to_int secure_store_error = 1405

-- `Status::success()` and `Status::error(code, message)`.
pub data Status : Type 0 where
  success : Status
  error : ErrorCode → String → Status

abbrev pub is_ok : Status → Bool
is_ok success = true
is_ok (error c m) = false

-- `Result<T>`: a value, or the status that is not ok.
pub data Result {ℓ} (A : Type ℓ) : Type ℓ where
  value : A → Result A
  failed : ErrorCode → String → Result A

pub Status-cases :
    (s : Status) → (s ≡ success) ⊎ ((code : ErrorCode) × (msg : String) × (s ≡ error code msg))
Status-cases success = inl refl
Status-cases (error code msg) = inr (code, msg, refl)

pub Result-cases {ℓ} :
    {A : Type ℓ} (r : Result A)
    → ((x : A) × (r ≡ value x)) ⊎ ((c : ErrorCode) × (m : String) × (r ≡ failed c m))
Result-cases (value x) = inl (x, refl)
Result-cases (failed c m) = inr (c, m, refl)

pub failure_of_is_ok :
    (s : Status) → is_ok s ≡ false → (code : ErrorCode) × (msg : String) × (s ≡ error code msg)
failure_of_is_ok success e = cc
failure_of_is_ok (error code msg) e = (code, msg, refl)
