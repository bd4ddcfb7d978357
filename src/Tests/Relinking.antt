-- ===== src/Tests/Relinking.antt =====
-- RelinkOperation on the small machine.
use wsldisk.Base.{
  Bool, Bytes, txt, bytes_eq, starts_with, fmt, true, false, some, [], ◌∷◌, ◌≡◌, refl, ◌⊎◌,
}
use wsldisk.Errors.{ok}
use wsldisk.WinPath.{FilePath, parent_path, filename}
use wsldisk.Ops.Operation.{Report, no_estimate}
use wsldisk.Ops.Undo.Restore.{undo_failure_told}
use wsldisk.Ops.Observed.Look.{look, repointed}
use wsldisk.Ops.Preflight.{repoint_registry, write_undoably, repoint_name, boots}
use wsldisk.Ops.Relink.{
  plan, planned, State, execute, rollback, intended_base_path, prove_it_boots, point_description,
  smoke_description,
}
use wsldisk.Ops.Relink.Safety.{seen, execute-rollback, execute_relinks}
use wsldisk.Base.{List}
use wsldisk.Model.Distro.{is_wsl2}
use wsldisk.Model.Orphans.{same_path}
use wsldisk.Ops.Runner.{irreversible_steps_are_last}
use wsldisk.Ops.Preflight.{is_among, require_stopped}
use wsldisk.Ops.Relink.Planning.{relink_plan_accepted}
use wsldisk.Tests.Machine.{machine, machine-Observed, ubuntu, registered}

abbrev new_disk : FilePath
new_disk = txt "D:\\disks\\ext4.vhdx"

abbrev at : Bool → State machine ubuntu new_disk
at guest = record { world = registered guest; events = []; self = [] }

-- The guest does not boot, so the relink fails.
execute-rollback_example :
    let after = rollback machine ubuntu new_disk (execute machine ubuntu new_disk (at false)).1 in
    ((seen machine machine-Observed ubuntu new_disk after.world
        ≡ seen machine machine-Observed ubuntu new_disk (registered false))
      ⊎ (undo_failure_told after.events ≡ true))
    × (after.self ≡ [])
unfolding seen look txt bytes_eq
execute-rollback_example =
    execute-rollback machine machine-Observed ubuntu new_disk (at false) refl
      (record { base = refl; vhd = λ h. refl })

relinked : Report
relinked = record {
  completed =
      fmt (txt "point " ∷ txt "Ubuntu" ∷ txt " at " ∷ new_disk ∷ [])
      ∷ fmt (txt "start " ∷ txt "Ubuntu" ∷ txt " to check the new path works" ∷ [])
      ∷ [];
  actual = no_estimate;
}

execute_relinks_example :
    seen machine machine-Observed ubuntu new_disk
      (execute machine ubuntu new_disk (at true)).1.world
    ≡ repointed ubuntu
        (intended_base_path machine ubuntu new_disk)
        (filename new_disk)
        (seen machine machine-Observed ubuntu new_disk (registered true))
unfolding execute relinked txt repoint_registry write_undoably repoint_name prove_it_boots boots fmt
    point_description smoke_description
execute_relinks_example =
    execute_relinks machine machine-Observed ubuntu new_disk (at true) relinked refl

intended_directory : intended_base_path machine ubuntu new_disk ≡ txt "D:\\disks"
unfolding intended_base_path parent_path starts_with txt
intended_directory = refl

-- A machine on which a file stands at the new path.
abbrev found : State machine ubuntu new_disk
found = record { world = record (registered true) { files = λ n. some 8 }; events = []; self = [] }

relink_plan_accepted_example :
    (is_wsl2 ubuntu ≡ true)
    × ((machine.exists new_disk found.world).0 ≡ true)
    × (same_path ubuntu.vhdx_path new_disk ≡ false)
    × ((names : List Bytes) × ((machine.running (machine.exists new_disk found.world).1).0
          ≡ ok names)
        × (is_among ubuntu.name names ≡ false))
    × (irreversible_steps_are_last (planned machine ubuntu new_disk) ≡ true)
    × ((plan machine ubuntu new_disk found).1.self ≡ found.self)
unfolding plan same_path bytes_eq txt require_stopped
relink_plan_accepted_example = relink_plan_accepted machine ubuntu new_disk found refl
