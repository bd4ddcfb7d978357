-- ===== src/Model/Orphans/Found.antt =====
-- What the scan of src/lib/model/orphans.cpp finds.
use wsldisk.Base.{
  Bytes, txt, bytes_eq, true, false, List, [], ◌∷◌, ◌++◌, ◌≡◌, refl, sym, arith, map, All,
  All-append, ◌⊎◌, inl, inr,
}
use wsldisk.Errors.{to_string, Result-cases}
use wsldisk.WinPath.{Wide, FilePath, extension}
use wsldisk.Interfaces.{Platform, DirectoryEntry}
use wsldisk.Model.Distro.{DistroList}
use wsldisk.Model.Orphans.{
  Orphan, Scan, canonical_path, same_path, contains, is_unclaimed_disk, measured, collect_unclaimed,
  scan_directories, scan_patterns, find_orphans,
}

-- A .vhdx that is none of the claimed disks.
abbrev pub IsUnclaimed : List Wide → Orphan → Type 0
IsUnclaimed claimed o =
    (bytes_eq (canonical_path (extension o.path)) (txt ".vhdx") ≡ true)
    × (contains claimed (canonical_path o.path) ≡ false)

-- No two of them are the same path.
abbrev pub NoRepeat : List Orphan → Type 0
NoRepeat [] = Unit
NoRepeat (o ∷ os) = All (λ p. same_path o.path p.path ≡ false) os × NoRepeat os

abbrev canonical_paths : List Orphan → List Wide
canonical_paths = map (λ o. canonical_path o.path)

contains-same_path :
    (os : List Orphan) (path : FilePath)
    → contains (canonical_paths os) (canonical_path path) ≡ false
    → All (λ o. same_path o.path path ≡ false) os
unfolding same_path
contains-same_path [] path h = tt
contains-same_path (o ∷ os) path h = (ground arith, contains-same_path os path (ground arith))

NoRepeat-snoc :
    (os : List Orphan) (o : Orphan)
    → NoRepeat os
    → All (λ p. same_path p.path o.path ≡ false) os
    → NoRepeat (os ++ o ∷ [])
NoRepeat-snoc [] o h fresh = (tt, tt)
NoRepeat-snoc (p ∷ ps) o (apart, h) (first, fresh) = (
  All-append (λ q. same_path p.path q.path ≡ false) ps (o ∷ []) apart (first, tt),
  NoRepeat-snoc ps o h fresh,
)

map-snoc :
    (os : List Orphan) (o : Orphan)
    → canonical_paths (os ++ o ∷ []) ≡ canonical_paths os ++ canonical_path o.path ∷ []
map-snoc [] o = refl
map-snoc (p ∷ ps) o = rw (map-snoc ps o) refl

-- What the scan keeps.
record IsSound (claimed : List Wide) (scan : Scan) : Type 0 where
  pub seen : scan.seen ≡ canonical_paths scan.orphans
  pub unclaimed : All (IsUnclaimed claimed) scan.orphans
  pub distinct : NoRepeat scan.orphans

disk-cases :
    (entry : DirectoryEntry) (claimed seen : List Wide)
    → (is_unclaimed_disk entry claimed seen ≡ (false, seen))
      ⊎ ((is_unclaimed_disk entry claimed seen ≡ (true, seen ++ canonical_path entry.path ∷ []))
          × (bytes_eq (canonical_path (extension entry.path)) (txt ".vhdx") ≡ true)
          × (contains claimed (canonical_path entry.path) ≡ false)
          × (contains seen (canonical_path entry.path) ≡ false))
unfolding is_unclaimed_disk
disk-cases entry claimed seen = ground arith

taken :
    (claimed : List Wide) (scan : Scan) (o : Orphan)
    → IsSound claimed scan
    → IsUnclaimed claimed o
    → contains scan.seen (canonical_path o.path) ≡ false
    → IsSound claimed (record scan {
      seen = scan.seen ++ canonical_path o.path ∷ [];
      orphans = scan.orphans ++ o ∷ [];
    })
taken claimed scan o sound new fresh = record {
  seen = rw (map-snoc scan.orphans o, sound.seen) refl;
  unclaimed = All-append (IsUnclaimed claimed) scan.orphans (o ∷ []) sound.unclaimed (new, tt);
  distinct =
      NoRepeat-snoc scan.orphans o sound.distinct
        (contains-same_path scan.orphans o.path (rw (sym sound.seen) fresh));
}

module _ (P : Platform) (claimed : List Wide) where
  collect_unclaimed-IsSound :
      (entries : List DirectoryEntry) (scan : Scan) (w : P.World)
      → IsSound claimed scan
      → IsSound claimed (collect_unclaimed P entries claimed scan w).0
  unfolding collect_unclaimed
  collect_unclaimed-IsSound [] scan w sound = sound
  collect_unclaimed-IsSound (entry ∷ entries) scan w sound =
      elim (disk-cases entry claimed scan.seen) [
        | inl skipped ↦ rw skipped (collect_unclaimed-IsSound entries scan w sound)
        | inr (found, disk, unclaimed, fresh) ↦ rw found (
            collect_unclaimed-IsSound entries _ _ (
              taken claimed scan
                (record { path = entry.path; size_on_disk = (measured P entry.path w).0 }) sound
                (disk, unclaimed) fresh))
      ]

  told-IsSound :
      (scan : Scan) (text : Bytes)
      → IsSound claimed scan
      → IsSound claimed (record scan { warnings = scan.warnings ++ text ∷ [] })
  told-IsSound scan text sound = record {
    seen = sound.seen;
    unclaimed = sound.unclaimed;
    distinct = sound.distinct;
  }

  scan_directories-IsSound :
      (directories : List FilePath) (scan : Scan) (w : P.World)
      → IsSound claimed scan
      → IsSound claimed (scan_directories P directories claimed scan w).0
  unfolding scan_directories
  scan_directories-IsSound [] scan w sound = sound
  scan_directories-IsSound (directory ∷ directories) scan w sound =
      let entries = P.list_directory directory (txt "*.vhdx") w in
      elim (Result-cases entries.0) [
        | inl (e, h) ↦
            rw (scan_directories, h)
              (scan_directories-IsSound directories _ entries.1
                (told-IsSound scan (to_string e) sound))
        | inr (found, h) ↦
            rw (scan_directories, h)
              (scan_directories-IsSound directories _ _
                (collect_unclaimed-IsSound found scan entries.1 sound))
      ]

  scan_patterns-IsSound :
      (patterns : List FilePath) (scan : Scan) (w : P.World)
      → IsSound claimed scan
      → IsSound claimed (scan_patterns P patterns claimed scan w).0
  unfolding scan_patterns
  scan_patterns-IsSound [] scan w sound = sound
  scan_patterns-IsSound (pattern ∷ patterns) scan w sound =
      scan_patterns-IsSound patterns _ _ (scan_directories-IsSound _ scan _ sound)

-- Whatever the directories hold and however often the patterns lead to them, each disk that is found
-- is a .vhdx whose path is none of those of the distributions' disks, and no two of them are the same
-- path.
pub find_orphans-IsUnclaimed :
    (P : Platform) (distros : DistroList) (patterns : List FilePath) (warnings : List Bytes)
    (w : P.World)
    → let found = (find_orphans P distros patterns warnings w).0 in
      All (IsUnclaimed (map (λ d. canonical_path d.vhdx_path) distros.distros)) found
      × NoRepeat found
unfolding find_orphans
find_orphans-IsUnclaimed P distros patterns warnings w =
    let claimed = map (λ d. canonical_path d.vhdx_path) distros.distros in
    let sound =
      scan_patterns-IsSound P claimed patterns
        (record { seen = []; orphans = []; warnings = warnings }) w
        (record { seen = refl; unclaimed = tt; distinct = tt }) in
    (sound.unclaimed, sound.distinct)
