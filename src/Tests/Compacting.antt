-- ===== src/Tests/Compacting.antt =====
-- CompactOperation on the small machine, which lets go of the disk when its clock says so.
use wsldisk.Base.{true, false, ℕ, ◌+◌, ◌≤◌, [], ◌∷◌, ◌≡◌, refl, ◌↔◌, none, some, arith}
use wsldisk.Errors.{ok}
use wsldisk.WinPath.{FilePath}
use wsldisk.Ops.Operation.{Report}
use wsldisk.Ops.Compact.{
  others_running_excluding, others_running, reclaimed, CompactOptions, State, compact_step,
  restart_step, stop_step, measure_before, measure_after,
}
use wsldisk.Ops.Compact.Release.{tell_waiting, wait_loop, rounds, release_disk}
use wsldisk.Ops.Compact.Run.{tell_all, prepare, finish, verify, compact_disk, restart_after}
use wsldisk.Ops.Compact.Waiting.{Clocked, Sound, wait_loop-ends}
use wsldisk.Ops.Compact.Laws.{IsFree, prepare-IsFree}
use wsldisk.Ops.Compact.Restart.{restart_told, finish_restarts}
use wsldisk.Ops.Compact.Accounting.{finish_accounts}
use wsldisk.Tests.Machine.{Machine, machine, ubuntu, registered}

asked_passes : (path : FilePath) (w : Machine) → w.clock ≤ (machine.is_locked path w).1.clock
asked_passes path w = omega arith

told_passes : (w : Machine) → w.clock ≤ w.clock
told_passes w = omega arith

slept_passes : (d : ℕ) (w : Machine) → w.clock + d ≤ w.clock + d
slept_passes d w = omega arith

abbrev clocked : Clocked machine
clocked = record {
  time = λ w. w.clock;
  now_tells = told_passes;
  now_passes = told_passes;
  sleep_passes = slept_passes;
  lock_passes = asked_passes;
}

abbrev options : CompactOptions
options = record {
  trim = false;
  shutdown = false;
  restart = true;
  unlock_timeout = 2000;
  trim_timeout = 600000;
}

-- The disk is held for a second more.
abbrev at : State machine (some ubuntu) ubuntu.vhdx_path options
at = record {
  world = record (registered true) { held_until = 1000 };
  events = [];
  self = record {
    before = some 9000;
    after = none;
    trimmed_bytes = none;
    was_running = true;
    running_before = none;
  };
}

wait_loop-ends_example :
    let r =
      wait_loop machine
        (some ubuntu)
        ubuntu.vhdx_path
        options
        (rounds machine (some ubuntu) ubuntu.vhdx_path options)
        true
        (0 + 2000)
        0
        at in
    Sound machine clocked (some ubuntu) ubuntu.vhdx_path options true (0 + 2000) r.0 r.1.world
wait_loop-ends_example =
    wait_loop-ends machine clocked (some ubuntu) ubuntu.vhdx_path options true 0 at (omega arith)

prepare-IsFree_example :
    IsFree machine clocked
      (some ubuntu)
      ubuntu.vhdx_path
      options
      (prepare machine (some ubuntu) ubuntu.vhdx_path options at).1.world
unfolding prepare release_disk wait_loop others_running_excluding others_running tell_waiting
prepare-IsFree_example =
    prepare-IsFree machine clocked ubuntu.vhdx_path options (some ubuntu)
      {steps = (stop_step machine (some ubuntu) ubuntu.vhdx_path options ubuntu).description ∷ []}
      at refl

-- A command was run in a guest.
abbrev Ran : Machine → Type 0
Ran w = 1 ≤ w.runs

finish_restarts_example :
    (restart_told machine ubuntu ubuntu.vhdx_path options
        (finish machine (some ubuntu) ubuntu.vhdx_path options [] at).1.events
      ≡ true)
    × Ran (finish machine (some ubuntu) ubuntu.vhdx_path options [] at).1.world
finish_restarts_example =
    finish_restarts machine ubuntu ubuntu.vhdx_path options Ran (λ w. omega arith) (λ h w ran. ran)
      [] at refl refl

reported : Report
reported = record {
  completed =
      (compact_step machine (some ubuntu) ubuntu.vhdx_path options).description
      ∷ (restart_step machine (some ubuntu) ubuntu.vhdx_path options ubuntu).description
      ∷ [];
  actual = record { bytes_freed = some 0; duration = none };
}

finish_accounts_example :
    let t = (finish machine (some ubuntu) ubuntu.vhdx_path options [] at).1 in
    (((verify machine (some ubuntu) ubuntu.vhdx_path options t).0 ≡ ok tt) ↔ (4096 ≤ 4096))
    × ((verify machine (some ubuntu) ubuntu.vhdx_path options t).1 ≡ t)
    × (4096 ≤ 4096
        → (freed : ℕ) × (reported.actual.bytes_freed ≡ some freed) × (freed + 4096 ≡ 4096))
unfolding finish measure_before measure_after compact_disk restart_after reported tell_all reclaimed
finish_accounts_example =
    finish_accounts machine (some ubuntu) ubuntu.vhdx_path options [] at {report = reported} 4096
      4096 refl refl refl
