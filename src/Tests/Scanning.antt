-- ===== src/Tests/Scanning.antt =====
-- The scan for orphaned disks, where two patterns lead to one directory.
use wsldisk.Base.{txt, true, false, map, [], ◌∷◌, All}
use wsldisk.Errors.{ok}
use wsldisk.Interfaces.{Platform}
use wsldisk.Model.Distro.{DistroList}
use wsldisk.Model.Orphans.{canonical_path, find_orphans}
use wsldisk.Model.Orphans.Found.{IsUnclaimed, NoRepeat, find_orphans-IsUnclaimed}
use wsldisk.Tests.Machine.{machine, ubuntu, registered}

-- Every directory holds Ubuntu's disk and another one.
abbrev crowded : Platform
crowded = record machine {
  list_directory = λ path pattern w. (
    ok (
        record { path = txt "C:\\wsl\\EXT4.vhdx"; size = 4096; is_directory = false }
        ∷ record { path = txt "C:\\wsl\\old.vhdx"; size = 4096; is_directory = false }
        ∷ []),
    w,
  );
}

abbrev registry : DistroList
registry = record { distros = ubuntu ∷ []; warnings = [] }

find_orphans-IsUnclaimed_example :
    let found =
      (find_orphans crowded registry (txt "C:\\wsl" ∷ txt "C:\\wsl" ∷ []) [] (registered true)).0 in
    All (IsUnclaimed (map (λ d. canonical_path d.vhdx_path) registry.distros)) found
    × NoRepeat found
find_orphans-IsUnclaimed_example =
    find_orphans-IsUnclaimed crowded registry (txt "C:\\wsl" ∷ txt "C:\\wsl" ∷ []) []
      (registered true)
