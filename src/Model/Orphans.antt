-- ===== src/Model/Orphans.antt =====
-- src/lib/model/orphans.h and orphans.cpp: comparing paths, and disks that no distribution claims.
pub mod Found
use wsldisk.Base.{
  ℕ, Bytes, txt, is_empty, bytes_eq, Bool, true, false, not, Option, none, some, List, [], ◌∷◌,
  ◌++◌, ◌==◌, if◌then◌else◌, map, any,
}
use wsldisk.Errors.{ok, err, to_string}
use wsldisk.Effects.{M, ◌>>=◌, pure}
use wsldisk.WinPath.{Wide, FilePath, ◌//◌, extension, components, drop_trailing_slashes}
use wsldisk.Interfaces.{Platform, DirectoryEntry}
use wsldisk.Model.Distro.{DistroList, strip_extended_prefix, lower}

pub record Orphan : Type 0 where
  pub path : FilePath
  pub size_on_disk : Option ℕ

-- The loop that pops separators stops at one unit.
pop_separators : Wide → Wide
unfolding drop_trailing_slashes
pop_separators [] = []
pop_separators (c ∷ s) = c ∷ drop_trailing_slashes s

-- One round of the loop over the characters.
abbrev pub fold_character : ℕ → ℕ
fold_character c = lower (if c == b'/' then b'\\' else c)

unfoldable pub canonical_path : Wide → Wide
unfolding strip_extended_prefix pop_separators
canonical_path path = map fold_character (pop_separators (strip_extended_prefix path))

unfoldable pub same_path : FilePath → FilePath → Bool
unfolding canonical_path
same_path left right = bytes_eq (canonical_path left) (canonical_path right)

-- std::ranges::find on canonical paths.
abbrev pub contains : List Wide → Wide → Bool
contains paths path = any (λ p. bytes_eq p path) paths

-- is_unclaimed_disk. A disk worth reporting is appended to `seen`.
unfoldable pub is_unclaimed_disk : DirectoryEntry → List Wide → List Wide → Bool × List Wide
unfolding canonical_path
is_unclaimed_disk entry claimed seen =
    let canonical = canonical_path entry.path in
    if entry.is_directory
    then (false, seen)
    else if not (bytes_eq (canonical_path (extension entry.path)) (txt ".vhdx"))
    then (false, seen)
    else if contains claimed canonical
    then (false, seen)
    else if contains seen canonical
    then (false, seen)
    else (true, seen ++ canonical ∷ [])

-- The pattern's components before its first `*`, and those behind it, joined; `none` if it has none.
split_pattern : List Wide → FilePath → Option (FilePath × List Wide)
split_pattern [] before = none
split_pattern (part ∷ parts) before =
    let rest = split_pattern parts (before // part) in
    if bytes_eq part (txt "*") then some (before, parts) else rest

join_parts : List Wide → FilePath → FilePath
join_parts [] path = path
join_parts (part ∷ parts) path = join_parts parts (path // part)

-- The directories among the entries, each with the rest of the pattern.
matching_directories : List DirectoryEntry → FilePath → List FilePath
matching_directories [] after = []
matching_directories (entry ∷ entries) after =
    let rest = matching_directories entries after in
    if not entry.is_directory
    then rest
    else (if is_empty after then entry.path else entry.path // after) ∷ rest

-- What the scan has gathered so far.
pub record Scan : Type 0 where
  pub seen : List Wide
  pub orphans : List Orphan
  pub warnings : List Bytes

module _ (P : Platform) where
  unfoldable pub expand_scan_pattern : FilePath → P.World → List FilePath × P.World
  unfolding split_pattern join_parts matching_directories
  expand_scan_pattern pattern w = elim (split_pattern (components pattern) []) [
    | none ↦ (pattern ∷ [], w)
    | some (before, parts) ↦
        let entries = P.list_directory before (txt "*") w in
        elim entries.0 [
          | err e ↦ ([], entries.1)
          | ok found ↦ (matching_directories found (join_parts parts []), entries.1)
        ]
  ]

  unfoldable pub default_scan_patterns : M P.World (List FilePath)
  default_scan_patterns = do
    local ← P.expand_environment (txt "%LOCALAPPDATA%")
    pure (
        (local // txt "wsl\\*")
        ∷ (local // txt "Packages\\*\\LocalState")
        ∷ (local // txt "Docker\\wsl\\*")
        ∷ [])

  -- The size of a file, where it can be measured.
  abbrev pub measured : FilePath → P.World → Option ℕ × P.World
  measured path w =
      let size = P.file_size_on_disk path w in
      (elim size.0 [ err e ↦ none | ok n ↦ some n ], size.1)

  unfoldable pub collect_unclaimed :
      List DirectoryEntry → List Wide → Scan → P.World → Scan × P.World
  unfolding is_unclaimed_disk
  collect_unclaimed [] claimed scan w = (scan, w)
  collect_unclaimed (entry ∷ entries) claimed scan w =
      let (unclaimed, seen) = is_unclaimed_disk entry claimed scan.seen in
      let skip = collect_unclaimed entries claimed (record scan { seen = seen }) w in
      let size = measured entry.path w in
      let take =
        collect_unclaimed entries claimed
          (record scan {
            seen = seen;
            orphans = scan.orphans ++ record { path = entry.path; size_on_disk = size.0 } ∷ [];
          })
          size.1 in
      if unclaimed then take else skip

  -- The inner loop of find_orphans, over the directories of one pattern.
  unfoldable pub scan_directories : List FilePath → List Wide → Scan → P.World → Scan × P.World
  unfolding collect_unclaimed
  scan_directories [] claimed scan w = (scan, w)
  scan_directories (directory ∷ directories) claimed scan w =
      let entries = P.list_directory directory (txt "*.vhdx") w in
      elim entries.0 [
        | err e ↦
            scan_directories directories claimed
              (record scan { warnings = scan.warnings ++ to_string e ∷ [] }) entries.1
        | ok found ↦
            let (scan', w') = collect_unclaimed found claimed scan entries.1 in
            scan_directories directories claimed scan' w'
      ]

  unfoldable pub scan_patterns : List FilePath → List Wide → Scan → P.World → Scan × P.World
  unfolding expand_scan_pattern scan_directories
  scan_patterns [] claimed scan w = (scan, w)
  scan_patterns (pattern ∷ patterns) claimed scan w =
      let (directories, w') = expand_scan_pattern pattern w in
      let (scan', w'') = scan_directories directories claimed scan w' in
      scan_patterns patterns claimed scan' w''

  -- The orphans, and the warnings that the scan appends.
  unfoldable pub find_orphans :
      DistroList → List FilePath → List Bytes → P.World → List Orphan × List Bytes × P.World
  unfolding scan_patterns canonical_path
  find_orphans distros patterns warnings w =
      let claimed = map (λ d. canonical_path d.vhdx_path) distros.distros in
      let (scan, w') =
        scan_patterns patterns claimed (record { seen = []; orphans = []; warnings = warnings })
          w in
      (scan.orphans, scan.warnings, w')
