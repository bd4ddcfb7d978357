-- ===== src/Platform/FileSystem.antt =====
-- src/lib/platform/filesystem.cpp, but for the sparse copy and the ranges that it is made of.
use wsldisk.Base.{
  ℕ, zero, suc, ◌+◌, ◌-◌, ◌*◌, ◌/◌, ◌%◌, ◌^◌, Bytes, txt, fmt, is_empty, bytes_eq, Bool, true,
  false, not, ◌&&◌, ◌||◌, Option, none, some, List, [], ◌∷◌, ◌++◌, ltb, ◌==◌, if◌then◌else◌, length,
  map,
}
use wsldisk.Errors.{partial, Result, ok, err, fail, Status}
use wsldisk.Effects.{M, ◌>>=◌, pure}
use wsldisk.WinPath.{Wide, FilePath, ◌//◌, parent_path, root_path}
use wsldisk.Interfaces.{VolumeInfo, DirectoryEntry}
use wsldisk.Model.Distro.{lower}
use wsldisk.Platform.Win32Error.{
  error_success, error_file_not_found, error_path_not_found, error_invalid_name, error_bad_netpath,
  error_bad_net_name, error_no_more_files, error_sharing_violation, error_lock_violation,
  error_already_exists, error_from_win32,
}
use wsldisk.Platform.Win32.{
  Win32, Opening, FindData, open_existing, create_always, Rounds, answered, done, scoped,
  scoped_rounds,
}

-- The halves of a 64-bit size.
abbrev pub combine : ℕ → ℕ → ℕ
combine high low = high * 2 ^ 32 + low

abbrev pub ascii_narrow : Wide → Bytes
ascii_narrow text = map (λ c. if ltb c 0x80 then c else b'?') text

abbrev invalid_file_size : ℕ
invalid_file_size = 0xFFFFFFFF

-- FILE_ATTRIBUTE_DIRECTORY and FILE_ATTRIBUTE_SPARSE_FILE.
abbrev has_attribute : ℕ → ℕ → Bool
has_attribute attributes bit = attributes / bit % 2 == 1

abbrev directory_bit : ℕ
directory_bit = 0x10

abbrev sparse_bit : ℕ
sparse_bit = 0x200

-- The codes that mean that a path is not there.
abbrev pub means_absent : ℕ → Bool
means_absent code =
    code == error_file_not_found
    || (code == error_path_not_found
        || (code == error_invalid_name
            || (code == error_bad_netpath || code == error_bad_net_name)))

abbrev pub reading : Opening
reading = record {
  reads = true;
  writes = false;
  share_read = true;
  share_write = false;
  share_delete = false;
  disposition = open_existing;
}

abbrev exclusive : Opening
exclusive = record reading { share_read = false }

abbrev overwriting : Opening
overwriting = record {
  reads = false;
  writes = true;
  share_read = false;
  share_write = false;
  share_delete = false;
  disposition = create_always;
}

-- std::wstring::resize.
unfoldable pub resized_text : ℕ → Wide → Wide
resized_text zero text = []
resized_text (suc n) [] = 0 ∷ resized_text n []
resized_text (suc n) (c ∷ text) = c ∷ resized_text n text

-- The entry of what was found, but for `.` and `..`.
unfoldable pub entry_of : FilePath → FindData → List DirectoryEntry
entry_of directory found =
    if bytes_eq found.name (txt ".") || bytes_eq found.name (txt "..")
    then []
    else record {
      path = directory // found.name;
      size =
          if has_attribute found.attributes directory_bit
          then 0
          else combine found.size_high found.size_low;
      is_directory = has_attribute found.attributes directory_bit;
    }
      ∷ []

-- The levels of a path below its root, the outermost first. The fuel is the length of the path, and
-- a parent path is shorter.
unfoldable pub levels_onto : ℕ → FilePath → List FilePath → List FilePath
levels_onto zero level levels = levels
levels_onto (suc fuel) level levels =
    let more = levels_onto fuel (parent_path level) (level ∷ levels) in
    if is_empty level || bytes_eq level (root_path level)
    then levels
    else if is_empty (parent_path level)
    then level ∷ levels
    else more

abbrev pub levels_of : FilePath → List FilePath
levels_of path = levels_onto (length path) path []

-- std::ranges::equal, ignoring case.
abbrev same_root : Wide → Wide → Bool
same_root first second = bytes_eq (map lower first) (map lower second)

module _ (W : Win32) where
  abbrev about : Bytes → FilePath → Bytes
  about what path = fmt (what ∷ W.path_string path ∷ [])

  unfoldable pub exists : FilePath → W.World → Bool × W.World
  exists path w =
      let r = W.get_file_attributes path w in
      (elim r.0 [ some attributes ↦ true | none ↦ not (means_absent (W.get_last_error r.1)) ], r.1)

  unfoldable pub file_size : FilePath → M W.World ℕ
  file_size path = do
    data_of ← answered W (W.get_file_attributes_ex path) (about (txt "read the size of ") path)
    pure (combine data_of.0 data_of.1)

  -- The low word of the size may be the one that reports a failure.
  unfoldable pub file_size_on_disk : FilePath → M W.World ℕ
  file_size_on_disk path w =
      let ((low, high), w') = W.get_compressed_file_size path w in
      if low == invalid_file_size && not (W.get_last_error w' == error_success)
      then (
        err (error_from_win32 (W.get_last_error w') (about (txt "read the on-disk size of ") path)),
        w',
      )
      else (ok (combine high low), w')

  unfoldable pub is_sparse : FilePath → M W.World Bool
  is_sparse path = do
    attributes ←
        answered W (W.get_file_attributes path) (about (txt "read the attributes of ") path)
    pure (has_attribute attributes sparse_bit)

  unfoldable pub volume_info : FilePath → M W.World VolumeInfo
  volume_info path = do
    root ← answered W (W.get_volume_path_name path) (about (txt "resolve the volume holding ") path)
    space ←
        answered W (W.get_disk_free_space_ex root)
          (fmt (txt "read free space on " ∷ ascii_narrow root ∷ []))
    filesystem ←
        answered W (W.get_volume_information root)
          (fmt (txt "read volume information for " ∷ ascii_narrow root ∷ []))
    pure (record {
      filesystem_name = ascii_narrow filesystem;
      total_bytes = space.1;
      free_bytes = space.0;
    })

  -- The loop of list_directory.
  unfoldable pub listing_loop :
      ℕ
      → W.Handle
      → FilePath
      → FindData
      → List DirectoryEntry
      → W.World
      → Option (List DirectoryEntry × W.World)
  unfolding entry_of
  listing_loop zero search directory found entries w = none
  listing_loop (suc rounds) search directory found entries w =
      let r = W.find_next_file search w in
      elim r.0 [
        | none ↦ some (entries ++ entry_of directory found, r.1)
        | some next ↦
            listing_loop rounds search directory next (entries ++ entry_of directory found) r.1
      ]

  -- A listing is complete only if its end was reached.
  abbrev finished : FilePath → List DirectoryEntry → ℕ → Result (List DirectoryEntry)
  finished directory entries status =
      if status == error_no_more_files
      then ok entries
      else err (error_from_win32 status (about (txt "finish listing ") directory))

  unfoldable pub list_directory : ℕ → FilePath → Wide → Rounds W.World (List DirectoryEntry)
  unfolding listing_loop
  list_directory rounds directory pattern w =
      let first = W.find_first_file_ex (directory // pattern) w in
      elim first.0 [
        | none ↦
            let status = W.get_last_error first.1 in
            some (
              if status == error_file_not_found || status == error_no_more_files
                  then ok []
                  else err (error_from_win32 status (about (txt "list ") directory)),
              first.1,
            )
        | some (search, found) ↦ elim (listing_loop rounds search directory found [] first.1) [
          | none ↦ none
          | some (entries, w') ↦
              some (finished directory entries (W.get_last_error w'), W.find_close search w')
        ]
      ]

  unfoldable pub is_locked : FilePath → M W.World Bool
  is_locked path w =
      let r = W.create_file path exclusive w in
      let status = W.get_last_error r.1 in
      elim r.0 [
        | some handle ↦ (ok false, W.close_handle handle r.1)
        | none ↦ (
          if status == error_sharing_violation || status == error_lock_violation
              then ok true
              else err (
                  error_from_win32 status
                    (fmt (txt "check whether " ∷ W.path_string path ∷ txt " is in use" ∷ []))),
          r.1,
        )
      ]

  unfoldable pub rename : FilePath → FilePath → M W.World (Unit {0})
  rename from to =
      done W (W.move_file_ex from to)
        (fmt (txt "rename " ∷ W.path_string from ∷ txt " to " ∷ W.path_string to ∷ []))

  abbrev root_of : FilePath → M W.World Wide
  root_of path =
      answered W (W.get_volume_path_name path) (about (txt "resolve the volume holding ") path)

  unfoldable pub same_volume : FilePath → FilePath → M W.World Bool
  same_volume first second = do
    first_root ← root_of first
    second_root ← root_of second
    pure (same_root first_root second_root)

  unfoldable pub remove : FilePath → M W.World (Unit {0})
  remove path = done W (W.delete_file path) (about (txt "delete ") path)

  unfoldable pub expand_environment : FilePath → M W.World FilePath
  unfolding resized_text
  expand_environment path w =
      let ((needed, unused), w1) = W.expand_environment_strings path 0 w in
      let ((written, buffer), w2) = W.expand_environment_strings path needed w1 in
      if needed == 0
      then (err (error_from_win32 (W.get_last_error w1) (about (txt "expand ") path)), w1)
      else if written == 0
      then (err (error_from_win32 (W.get_last_error w2) (about (txt "expand ") path)), w2)
      else (ok (resized_text (written - 1) buffer), w2)

  -- The loop of read_text_file.
  unfoldable pub reading_loop : ℕ → W.Handle → FilePath → Bytes → Rounds W.World Bytes
  reading_loop zero file path contents w = none
  reading_loop (suc rounds) file path contents w =
      let r = answered W (W.read_file file 4096) (about (txt "read ") path) w in
      elim r.0 [
        | err e ↦ some (err e, r.1)
        | ok [] ↦ some (ok contents, r.1)
        | ok (c ∷ buffer) ↦ reading_loop rounds file path (contents ++ c ∷ buffer) r.1
      ]

  unfoldable pub read_text_file : ℕ → FilePath → Rounds W.World Bytes
  unfolding reading_loop
  read_text_file rounds path w =
      let r = answered W (W.create_file path reading) (about (txt "open ") path) w in
      elim r.0 [
        | err e ↦ some (err e, r.1)
        | ok file ↦ scoped_rounds W file (reading_loop rounds file path []) r.1
      ]

  -- What a write of some bytes that wrote `written` of them amounts to.
  abbrev wholly : FilePath → Bytes → ℕ → Status
  wholly path contents written =
      if written == length contents
      then ok tt
      else fail partial (fmt (W.path_string path ∷ txt " was only partly written" ∷ []))
          (txt "check there is free space on the volume and try again")

  unfoldable pub write_text_file : FilePath → Bytes → M W.World (Unit {0})
  unfolding fail
  write_text_file path contents = do
    file ← answered W (W.create_file path overwriting) (about (txt "create ") path)
    scoped W file (
        answered W (W.write_file file contents) (about (txt "write ") path) >>= λ written w.
        (wholly path contents written, w))

  -- The loop of create_directories.
  unfoldable pub make_levels : List FilePath → M W.World (Unit {0})
  make_levels [] w = (ok tt, w)
  make_levels (level ∷ levels) w =
      let r = W.create_directory level w in
      let rest = make_levels levels r.1 in
      let status = W.get_last_error r.1 in
      if r.0
      then rest
      else if status == error_already_exists
      then rest
      else (err (error_from_win32 status (about (txt "create ") level)), r.1)

  unfoldable pub create_directories : FilePath → M W.World (Unit {0})
  unfolding make_levels levels_onto
  create_directories path = make_levels (levels_of path)
