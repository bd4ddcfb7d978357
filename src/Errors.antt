-- ===== src/Errors.antt =====
-- src/lib/errors.h and src/lib/errors.cpp: error codes, errors, Result and Status.
use wsldisk.Base.{ℕ, Bytes, txt, is_empty, ◌++◌, if◌then◌else◌, ◌≡◌, refl, ◌⊎◌, inl, inr}

pub data ErrorCode : Type 0 where
  generic usage preflight needs_elevation partial integrity_check_failed : ErrorCode
  distro_not_found distro_busy : ErrorCode

abbrev pub exit_code_success : ℕ
exit_code_success = 0

-- The enumerators' values, which are the process exit codes.
unfoldable pub exit_code_for : ErrorCode → ℕ
exit_code_for generic = 1
exit_code_for usage = 2
exit_code_for preflight = 3
exit_code_for needs_elevation = 4
exit_code_for partial = 5
exit_code_for integrity_check_failed = 6
exit_code_for distro_not_found = 10
exit_code_for distro_busy = 11

-- The table of names, looked up by its code.
unfoldable pub error_code_name : ErrorCode → Bytes
error_code_name generic = txt "generic"
error_code_name usage = txt "usage"
error_code_name preflight = txt "preflight"
error_code_name needs_elevation = txt "needs-elevation"
error_code_name partial = txt "partial"
error_code_name integrity_check_failed = txt "integrity-check-failed"
error_code_name distro_not_found = txt "distro-not-found"
error_code_name distro_busy = txt "distro-busy"

pub record Error : Type 0 where
  pub code : ErrorCode
  pub message : Bytes
  pub remedy : Bytes

unfoldable pub to_string : Error → Bytes
to_string e = if is_empty e.remedy then e.message else e.message ++ txt " -- " ++ e.remedy

-- std::expected<T, Error>.
pub data Result {ℓ} (A : Type ℓ) : Type ℓ where
  ok : A → Result A
  err : Error → Result A

-- std::expected<void, Error>.
abbrev pub Status : Type 0
Status = Result (Unit {0})

unfoldable pub fail {ℓ} : {A : Type ℓ} → ErrorCode → Bytes → Bytes → Result A
fail c m r = err (record { code = c; message = m; remedy = r })

pub Result-cases {ℓ} :
    {A : Type ℓ} (r : Result A) → ((e : Error) × (r ≡ err e)) ⊎ ((a : A) × (r ≡ ok a))
Result-cases (ok a) = inr (a, refl)
Result-cases (err e) = inl (e, refl)
