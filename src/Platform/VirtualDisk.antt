-- ===== src/Platform/VirtualDisk.antt =====
-- src/lib/platform/virtual_disk.cpp: opening and creating a disk, and what an open one says of itself.
use wsldisk.Base.{ℕ, ◌+◌, ◌-◌, ◌*◌, ◌/◌, ◌%◌, ◌^◌, txt, fmt, [], ◌∷◌, ◌==◌, if◌then◌else◌}
use wsldisk.Errors.{ok}
use wsldisk.Effects.{M, ◌>>=◌, pure}
use wsldisk.WinPath.{Wide, FilePath}
use wsldisk.Interfaces.{VirtualDiskInfo}
use wsldisk.Platform.Win32Error.{error_success, error_insufficient_buffer}
use wsldisk.Platform.Win32.{Win32, coded, scoped}
use wsldisk.Platform.FileSystem.{resized_text}

-- all.substr(0, all.find(NUL)).
unfoldable pub up_to_nul : Wide → Wide
up_to_nul [] = []
up_to_nul (c ∷ text) = let rest = up_to_nul text in if c == 0 then [] else c ∷ rest

module _ (W : Win32) where
  -- How many structures make up a buffer of so many bytes.
  abbrev structures : ℕ → ℕ
  structures size = (size + W.info_size - 1) / W.info_size

  -- The path in a buffer of so many structures.
  unfoldable pub parent_location : ℕ → Wide → Wide
  unfolding resized_text up_to_nul
  parent_location count buffer =
      up_to_nul (resized_text ((count * W.info_size - W.info_header) / 2) buffer)

  -- The parent of a disk; empty if it has none.
  unfoldable pub read_parent : W.Handle → W.World → Wide × W.World
  unfolding parent_location
  read_parent handle w =
      let ((first, asked, buffer), w1) = W.get_virtual_disk_parent handle W.info_size w in
      let count = structures asked in
      let ((second, unused, longer), w2) =
        W.get_virtual_disk_parent handle (count * W.info_size % 2 ^ 32) w1 in
      if first == error_insufficient_buffer
      then (if second == error_success then parent_location count longer else [], w2)
      else (if first == error_success then parent_location 1 buffer else [], w1)

  unfoldable pub information : W.Handle → FilePath → M W.World VirtualDiskInfo
  unfolding read_parent
  information handle path = do
    sizes ←
        coded W (W.get_virtual_disk_sizes handle)
          (fmt (txt "read the size of " ∷ W.path_string path ∷ []))
    (λ w.
        let (parent, later) = read_parent handle w in
        (
          ok (record {
            virtual_size = sizes.virtual_size;
            physical_size = sizes.physical_size;
            block_size = sizes.block_size;
            sector_size = sizes.sector_size;
            parent_path = parent;
          }),
          later,
        ))

  unfoldable pub open_disk : FilePath → M W.World W.Handle
  open_disk path =
      coded W (W.open_virtual_disk path)
        (fmt (txt "open the virtual disk " ∷ W.path_string path ∷ []))

  -- The new disk is closed again.
  unfoldable pub create : FilePath → ℕ → M W.World (Unit {0})
  create path maximum_size = do
    handle ←
        coded W (W.create_virtual_disk path maximum_size)
          (fmt (txt "create the virtual disk " ∷ W.path_string path ∷ []))
    scoped W handle (pure tt)
