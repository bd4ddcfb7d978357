-- ===== src/Tests/Moving.antt =====
-- MoveOperation on the small machine.
use wsldisk.Base.{Bool, txt, bytes_eq, true, false, [], ◌≡◌, List, ℕ, Bytes, ◌≢◌, refl, ◌⊎◌, arith}
use wsldisk.WinPath.{FilePath, filename, ◌//◌}
use wsldisk.Ops.Undo.Restore.{undo_failure_told}
use wsldisk.Ops.Observed.Look.{look}
use wsldisk.Ops.Preflight.{require_stopped, repoint_registry, write_undoably, repoint_name, boots}
use wsldisk.Ops.Move.{
  plan, planned, State, target, execute, move_and_prove, transfer, repoint_and_prove, repoint,
  prove_it_boots,
}
use wsldisk.Ops.Move.Transfer.{Leftover, made}
use wsldisk.Ops.Move.Seen.{renaming, copying}
use wsldisk.Ops.Move.Safety.{execute_failed-rollback, after}
use wsldisk.Errors.{ok}
use wsldisk.Ops.Preflight.{is_among}
use wsldisk.Ops.Move.{was_renamed}
use wsldisk.Ops.Move.Planning.{listed, compared, measured, HasRoom}
use wsldisk.Model.Distro.{is_wsl2}
use wsldisk.Model.Orphans.{same_path}
use wsldisk.Ops.Runner.{irreversible_steps_are_last}
use wsldisk.Ops.Move.Planning.{move_plan_accepted}
use wsldisk.Tests.Machine.{machine, machine-Observed, ubuntu, registered, place_of}

abbrev folder : FilePath
folder = txt "D:\\elsewhere"

destination : target machine ubuntu folder false ≡ txt "D:\\elsewhere\\ext4.vhdx"
unfolding target filename ◌//◌ txt
destination = refl

-- A rename, then a guest that does not boot.
abbrev at : Bool → State machine ubuntu folder false
at same = record {
  world = registered false;
  events = [];
  self = record { size = 4096; same_volume = same; undo = [] };
}

two_places : place_of ubuntu.vhdx_path ≢ place_of (target machine ubuntu folder false)
unfolding target filename ◌//◌ txt
two_places = omega arith

execute_failed-rollback_example :
    (renaming machine machine-Observed ubuntu folder false two_places
        (after machine machine-Observed ubuntu folder false two_places (at true)).world
      ≡ renaming machine machine-Observed ubuntu folder false two_places (registered false))
    ⊎ ((undo_failure_told
            (after machine machine-Observed ubuntu folder false two_places (at true)).events
          ≡ true)
        ⊎ ((was_renamed machine ubuntu folder false (at true).self ≡ false)
            × Leftover machine machine-Observed ubuntu folder false two_places
                (made machine machine-Observed ubuntu folder false two_places (at true))
            × (copying machine machine-Observed ubuntu folder false two_places
                  (after machine machine-Observed ubuntu folder false two_places (at true)).world
                ≡ copying machine machine-Observed ubuntu folder false two_places
                    (registered false))))
unfolding look execute target filename ◌//◌ txt move_and_prove transfer repoint_and_prove repoint
    repoint_registry write_undoably repoint_name prove_it_boots boots
execute_failed-rollback_example =
    execute_failed-rollback machine machine-Observed ubuntu folder false two_places (at true) refl
      refl (record { base = refl; vhd = λ h. refl }) refl

move_plan_accepted_example :
    (is_wsl2 ubuntu ≡ true)
    × ((machine.exists ubuntu.vhdx_path (at true).world).0 ≡ true)
    × (same_path ubuntu.vhdx_path (target machine ubuntu folder false) ≡ false)
    × ((machine.exists (target machine ubuntu folder false) (at true).world).0 ≡ false)
    × ((names : List Bytes) × ((listed machine ubuntu folder false (registered true)).0 ≡ ok names)
        × (is_among ubuntu.name names ≡ false))
    × ((same : Bool) × (size : ℕ) × ((compared machine ubuntu folder false (registered true)).0
          ≡ ok same)
        × ((measured machine ubuntu folder false (registered true)).0 ≡ ok size)
        × ((plan machine ubuntu folder false (at true)).1.self
            ≡ record (at true).self { same_volume = same; size = size })
        × ((was_renamed machine ubuntu folder false
                (record (at true).self { same_volume = same; size = size })
              ≡ true)
            ⊎ HasRoom machine ubuntu folder false
                (record (at true).self { same_volume = same; size = size })
                (measured machine ubuntu folder false (registered true)).1))
    × (irreversible_steps_are_last (planned machine ubuntu folder false (at true).self) ≡ true)
unfolding plan txt same_path bytes_eq target ◌//◌ require_stopped irreversible_steps_are_last
move_plan_accepted_example = move_plan_accepted machine ubuntu folder false (at true) refl
