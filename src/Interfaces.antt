-- ===== src/Interfaces.antt =====
-- src/lib/interfaces.h: the records that cross the interfaces, and the interfaces themselves, as the
-- operations of a platform over a world that they read and change. The platform is a parameter
-- everywhere: its implementation calls Win32 and wsl.exe. Every call may change the world, since
-- other processes run; so two calls of one query may answer differently.
use wsldisk.Base.{ℕ, Bytes, txt, bytes_eq, Bool, false, ◌||◌, Option, List, ◌==◌}
use wsldisk.Base.Int.{ℤ, pos, negsuc}
use wsldisk.Errors.{Result, Status}
use wsldisk.WinPath.{Wide, FilePath}

pub record VolumeInfo : Type 0 where
  pub filesystem_name : Bytes
  pub total_bytes : ℕ
  pub free_bytes : ℕ

unfoldable pub supports_vhdx : VolumeInfo → Bool
supports_vhdx v = bytes_eq v.filesystem_name (txt "NTFS") || bytes_eq v.filesystem_name (txt "ReFS")

pub record VirtualDiskInfo : Type 0 where
  pub virtual_size : ℕ
  pub physical_size : ℕ
  pub block_size : ℕ
  pub sector_size : ℕ
  pub parent_path : Wide

pub record DiskProgress : Type 0 where
  pub current : ℕ
  pub total : ℕ

pub record WslCommandResult : Type 0 where
  pub exit_code : ℤ
  pub standard_output : Bytes
  pub standard_error : Bytes

abbrev pub succeeded : WslCommandResult → Bool
succeeded r = elim r.exit_code [ pos n ↦ n == 0 | negsuc n ↦ false ]

pub record DirectoryEntry : Type 0 where
  pub path : FilePath
  pub size : ℕ
  pub is_directory : Bool

pub record AllocatedRange : Type 0 where
  pub offset : ℕ
  pub length : ℕ

-- IRegistry, IFileSystem, IWslHost, IClock and IVirtualDisk. Times are milliseconds. A progress
-- callback that always asks to go on is the list of its calls.
pub record Platform : Type 1 where
  pub World : Type 0
  pub Handle : Type 0
  pub subkeys : Wide → World → Result (List Wide) × World
  pub read_string : Wide → Wide → World → Result (Option Wide) × World
  pub read_dword : Wide → Wide → World → Result (Option ℕ) × World
  pub write_string : Wide → Wide → Wide → World → Status × World
  pub exists : FilePath → World → Bool × World
  pub file_size : FilePath → World → Result ℕ × World
  pub file_size_on_disk : FilePath → World → Result ℕ × World
  pub is_sparse : FilePath → World → Result Bool × World
  pub volume_info : FilePath → World → Result VolumeInfo × World
  pub list_directory : FilePath → Wide → World → Result (List DirectoryEntry) × World
  pub allocated_ranges : FilePath → World → Result (List AllocatedRange) × World
  pub is_locked : FilePath → World → Result Bool × World
  pub remove : FilePath → World → Status × World
  pub copy_file_sparse : FilePath → FilePath → World → Status × List DiskProgress × World
  pub rename : FilePath → FilePath → World → Status × World
  pub same_volume : FilePath → FilePath → World → Result Bool × World
  pub expand_environment : FilePath → World → Result FilePath × World
  pub read_text_file : FilePath → World → Result Bytes × World
  pub write_text_file : FilePath → Bytes → World → Status × World
  pub create_directories : FilePath → World → Status × World
  pub running : World → Result (List Bytes) × World
  pub terminate : Bytes → World → Status × World
  pub shutdown : World → Status × World
  pub run_as_root : Bytes → List Bytes → ℕ → World → Result WslCommandResult × World
  pub now : World → ℕ × World
  pub sleep_for : ℕ → World → World
  pub open_disk : FilePath → World → Result Handle × World
  pub information : Handle → World → Result VirtualDiskInfo × World
  pub compact : Handle → World → Status × List DiskProgress × World
  pub close : Handle → World → World
  -- path::string, which converts through the active code page of the machine.
  pub path_string : FilePath → Bytes
