-- ===== src/Platform/Win32.antt =====
-- src/lib/platform/win32_api.h and scoped_handle.h: the table of the Win32 functions that the platform
-- layer calls, over a world that they read and change, and how their failures become errors. The
-- functions themselves are Windows'. `none` is FALSE, INVALID_HANDLE_VALUE, a null handle, or
-- INVALID_FILE_ATTRIBUTES, whichever the function reports a failure with; the values that it writes
-- through its pointers are its answer.
use wsldisk.Base.{ℕ, Bytes, Bool, Option, none, some, List, if◌then◌else◌}
use wsldisk.Errors.{Result, ok, err}
use wsldisk.Effects.{M}
use wsldisk.WinPath.{Wide, FilePath}
use wsldisk.Interfaces.{AllocatedRange}
use wsldisk.Platform.Win32Error.{error_from_win32}

pub data Disposition : Type 0 where
  open_existing create_new create_always : Disposition

-- What create_file is asked for: its access, its sharing and its disposition.
pub record Opening : Type 0 where
  pub reads : Bool
  pub writes : Bool
  pub share_read : Bool
  pub share_write : Bool
  pub share_delete : Bool
  pub disposition : Disposition

-- WIN32_FIND_DATAW, and the sizes of WIN32_FILE_ATTRIBUTE_DATA.
pub record FindData : Type 0 where
  pub name : Wide
  pub attributes : ℕ
  pub size_high : ℕ
  pub size_low : ℕ

-- WAIT_OBJECT_0, WAIT_FAILED, and any other answer.
pub data Waited : Type 0 where
  signaled failed elapsed : Waited

-- The answer of a function that returns its error code: a code other than ERROR_SUCCESS, or what it
-- wrote through its pointers.
pub data Coded (A : Type 0) : Type 0 where
  code : ℕ → Coded A
  given : A → Coded A

-- The sizes in GET_VIRTUAL_DISK_INFO.
pub record DiskSizes : Type 0 where
  pub virtual_size : ℕ
  pub physical_size : ℕ
  pub block_size : ℕ
  pub sector_size : ℕ

-- VIRTUAL_DISK_PROGRESS.
pub record DiskStatus : Type 0 where
  pub operation_status : ℕ
  pub current_value : ℕ
  pub completion_value : ℕ

pub record Win32 : Type 1 where
  pub World : Type 0
  pub Handle : Type 0
  pub get_last_error : World → ℕ
  pub close_handle : Handle → World → World
  pub get_file_attributes : FilePath → World → Option ℕ × World
  pub get_file_attributes_ex : FilePath → World → Option (ℕ × ℕ) × World
  pub get_compressed_file_size : FilePath → World → (ℕ × ℕ) × World
  pub get_volume_path_name : FilePath → World → Option Wide × World
  pub get_disk_free_space_ex : Wide → World → Option (ℕ × ℕ) × World
  pub get_volume_information : Wide → World → Option Wide × World
  pub find_first_file_ex : FilePath → World → Option (Handle × FindData) × World
  pub find_next_file : Handle → World → Option FindData × World
  pub find_close : Handle → World → World
  pub create_file : FilePath → Opening → World → Option Handle × World
  -- device_io_control with FSCTL_QUERY_ALLOCATED_RANGES for an offset and a length, and with
  -- FSCTL_SET_SPARSE. The ranges are in the buffer also where the answer is FALSE.
  pub query_allocated_ranges : Handle → ℕ → ℕ → World → (Bool × List AllocatedRange) × World
  pub set_sparse : Handle → World → Bool × World
  pub delete_file : FilePath → World → Bool × World
  pub move_file_ex : FilePath → FilePath → World → Bool × World
  pub create_directory : FilePath → World → Bool × World
  -- With the size of the buffer; the answer is the count, and what is in the buffer then.
  pub expand_environment_strings : Wide → ℕ → World → (ℕ × Wide) × World
  pub read_file : Handle → ℕ → World → Option Bytes × World
  pub write_file : Handle → Bytes → World → Option ℕ × World
  -- From FILE_BEGIN.
  pub set_file_pointer_ex : Handle → ℕ → World → Bool × World
  pub set_end_of_file : Handle → World → Bool × World
  pub create_pipe : World → Option (Handle × Handle) × World
  -- Without HANDLE_FLAG_INHERIT from then on.
  pub set_handle_information : Handle → World → Bool × World
  -- With the standard handles of the child where it is given them; its process and its thread.
  pub create_process :
      Wide → Option (Handle × Handle × Handle) → World → Option (Handle × Handle) × World
  pub peek_named_pipe : Handle → World → Option ℕ × World
  pub wait_for_single_object : Handle → ℕ → World → Waited × World
  pub get_exit_code_process : Handle → World → Option ℕ × World
  pub terminate_process : Handle → ℕ → World → World
  pub sleep : ℕ → World → World
  pub create_event : World → Option Handle × World
  pub compact_virtual_disk : Handle → Handle → World → ℕ × World
  pub get_virtual_disk_operation_progress : Handle → World → (ℕ × DiskStatus) × World
  pub cancel_io_ex : Handle → World → World
  pub open_virtual_disk : FilePath → World → Coded Handle × World
  pub create_virtual_disk : FilePath → ℕ → World → Coded Handle × World
  -- get_virtual_disk_information for the sizes, and for the parent with the size of the buffer: the
  -- code, the size that it asks for, and what is in the buffer then.
  pub get_virtual_disk_sizes : Handle → World → Coded DiskSizes × World
  pub get_virtual_disk_parent : Handle → ℕ → World → (ℕ × ℕ × Wide) × World
  -- sizeof(GET_VIRTUAL_DISK_INFO), and where the parent's path starts in it.
  pub info_size : ℕ
  pub info_header : ℕ
  -- The key is opened for setting values, or for reading.
  pub reg_open_key_ex : Handle → Wide → Bool → World → Coded Handle × World
  pub reg_close_key : Handle → World → World
  pub reg_enum_key_ex : Handle → ℕ → World → Coded Wide × World
  -- reg_query_value_ex without a buffer, with the type and the bytes of a value; with a buffer of so
  -- many bytes; and with one for a number.
  pub reg_query_size : Handle → Wide → World → Coded (ℕ × ℕ) × World
  pub reg_query_text : Handle → Wide → ℕ → World → Coded Wide × World
  pub reg_query_number : Handle → Wide → World → Coded (ℕ × ℕ) × World
  -- reg_set_value_ex with a terminated string of type REG_SZ, of which it is told how many bytes to
  -- store; its error code.
  pub reg_set_text : Handle → Wide → Wide → ℕ → World → ℕ × World
  -- path::string, which converts through the active code page of the machine.
  pub path_string : FilePath → Bytes

-- A loop of the source, run for some rounds: `none` if it has not returned by then.
abbrev pub Rounds : Type 0 → Type 0 → Type 0
Rounds W A = W → Option (Result A × W)

module _ (W : Win32) where
  -- `if (call == FALSE) return std::unexpected(error_from_win32(get_last_error(), context))`.
  abbrev pub answered : {A : Type 0} → (W.World → Option A × W.World) → Bytes → M W.World A
  answered call context w =
      let r = call w in
      (
        elim r.0 [ some a ↦ ok a | none ↦ err (error_from_win32 (W.get_last_error r.1) context) ],
        r.1,
      )

  abbrev pub done : (W.World → Bool × W.World) → Bytes → M W.World (Unit {0})
  done call context w =
      let r = call w in
      (if r.0 then ok tt else err (error_from_win32 (W.get_last_error r.1) context), r.1)

  -- The block that a ScopedHandle lives in: the handle is closed on every way out.
  abbrev pub scoped : {A : Type 0} → W.Handle → M W.World A → M W.World A
  scoped handle body w = let r = body w in (r.0, W.close_handle handle r.1)

  abbrev pub scoped_rounds : {A : Type 0} → W.Handle → Rounds W.World A → Rounds W.World A
  scoped_rounds handle body w = elim (body w) [
    | none ↦ none
    | some r ↦ some (r.0, W.close_handle handle r.1)
  ]

  -- `if (code != ERROR_SUCCESS) return std::unexpected(error_from_win32(code, context))`.
  abbrev pub coded : {A : Type 0} → (W.World → Coded A × W.World) → Bytes → M W.World A
  coded call context w =
      let r = call w in
      (elim r.0 [ given a ↦ ok a | code n ↦ err (error_from_win32 n context) ], r.1)
