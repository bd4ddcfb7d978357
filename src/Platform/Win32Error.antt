-- ===== src/Platform/Win32Error.antt =====
-- src/lib/platform/win32_error.cpp: the program's errors for the error codes of Windows.
use wsldisk.Base.{ℕ, Bytes, txt, fmt, decimal, [], ◌∷◌, ◌==◌, ◌||◌, if◌then◌else◌}
use wsldisk.Errors.{Error, generic, preflight, needs_elevation, distro_busy}

abbrev pub error_success : ℕ
error_success = 0

abbrev pub error_file_not_found : ℕ
error_file_not_found = 2

abbrev pub error_path_not_found : ℕ
error_path_not_found = 3

abbrev pub error_access_denied : ℕ
error_access_denied = 5

abbrev pub error_invalid_drive : ℕ
error_invalid_drive = 15

abbrev pub error_no_more_files : ℕ
error_no_more_files = 18

abbrev pub error_not_ready : ℕ
error_not_ready = 21

abbrev pub error_sharing_violation : ℕ
error_sharing_violation = 32

abbrev pub error_lock_violation : ℕ
error_lock_violation = 33

abbrev pub error_not_supported : ℕ
error_not_supported = 50

abbrev pub error_bad_netpath : ℕ
error_bad_netpath = 53

abbrev pub error_bad_net_name : ℕ
error_bad_net_name = 67

abbrev pub error_disk_full : ℕ
error_disk_full = 112

abbrev pub error_insufficient_buffer : ℕ
error_insufficient_buffer = 122

abbrev pub error_no_more_items : ℕ
error_no_more_items = 259

abbrev pub error_invalid_name : ℕ
error_invalid_name = 123

abbrev pub error_already_exists : ℕ
error_already_exists = 183

abbrev pub error_more_data : ℕ
error_more_data = 234

abbrev pub error_io_pending : ℕ
error_io_pending = 997

unfoldable pub win32_error_name : ℕ → Bytes
win32_error_name code =
    if code == error_file_not_found
    then txt "file not found"
    else if code == error_path_not_found
    then txt "path not found"
    else if code == error_access_denied
    then txt "access denied"
    else if code == error_invalid_drive
    then txt "invalid drive"
    else if code == error_not_ready
    then txt "device not ready"
    else if code == error_sharing_violation
    then txt "file is in use by another process"
    else if code == error_lock_violation
    then txt "file region is locked"
    else if code == error_disk_full
    then txt "disk full"
    else if code == error_not_supported
    then txt "operation not supported on this volume"
    else txt "unexpected Win32 error"

unfoldable pub error_from_win32 : ℕ → Bytes → Error
unfolding win32_error_name
error_from_win32 code context =
    let message = fmt (
      txt "failed to "
      ∷ context
      ∷ txt ": "
      ∷ win32_error_name code
      ∷ txt " (Win32 error "
      ∷ decimal code
      ∷ txt ")"
      ∷ []) in
    if code == error_file_not_found || code == error_path_not_found
    then record {
      code = preflight;
      message = message;
      remedy = txt "check that the path exists and is spelled correctly";
    }
    else if code == error_access_denied
    then record {
      code = needs_elevation;
      message = message;
      remedy = txt "re-run from an elevated prompt, or pass --elevate";
    }
    else if code == error_sharing_violation || code == error_lock_violation
    then record {
      code = distro_busy;
      message = message;
      remedy = txt "close whatever is using the file; `wsldisk lock` names the process";
    }
    else if code == error_invalid_drive || code == error_not_ready
    then record {
      code = preflight;
      message = message;
      remedy = txt "check that the drive is present and ready";
    }
    else if code == error_disk_full
    then record {
      code = preflight;
      message = message;
      remedy = txt "free space on the target volume and retry";
    }
    else record { code = generic; message = message; remedy = [] }
