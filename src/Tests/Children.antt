-- ===== src/Tests/Children.antt =====
-- Running wsl.exe and compacting a disk, on the small volume.
use wsldisk.Base.{ℕ, ◌<◌, Bytes, Bool, refl, true, [], ◌∷◌, none, ◌≡◌, ◌==◌, ◌≢◌, arith, ◌-◌}
use wsldisk.Interfaces.{DiskProgress}
use wsldisk.Platform.Win32Error.{error_io_pending}
use wsldisk.Platform.WslHost.{drain_once, drain, wait_loop, run_wsl}
use wsldisk.Platform.WslHost.Waiting
use wsldisk.Platform.WslHost.Handles.{Ledger, Returns}
use wsldisk.Platform.WslHost.Closed.{run_wsl-Returns}
use wsldisk.Platform.DiskHandle.{poll_loop}
use wsldisk.Platform.DiskHandle.Pending
use wsldisk.Tests.Volume.{Volume, volume, two_files}

run_dry : (pipe : ℕ) (into : Bytes) (v : Volume) → drain volume 2 pipe into v ≢ none
unfolding drain drain_once
run_dry pipe into v h = ground arith

wait_loop-EndsWell_example :
    Waiting.EndsWell volume 2 102 120 100 101 120 two_files
      (wait_loop volume 4 2 102 100 101 120 120 [] [] two_files)
wait_loop-EndsWell_example =
    Waiting.wait_loop-EndsWell volume 2 102 120 100 101 run_dry 3 120 [] [] two_files (omega arith)

abbrev volume-Ledger : Ledger volume
volume-Ledger = record {
  same = λ k h. k == h;
  held = λ k v. v.held k;
  close_gives_back = λ k h v. refl;
  pipe_takes = λ k v. refl;
  process_takes = λ k line handles v. refl;
  set_keeps = λ k h v. refl;
  peek_keeps = λ k h v. refl;
  read_keeps = λ k h count v. refl;
  wait_keeps = λ k h slice v. refl;
  exit_code_keeps = λ k h v. refl;
  terminate_keeps = λ k h code v. refl;
}

run_wsl-Returns_example :
    Returns volume volume-Ledger 100 0 (run_wsl volume 4 2 ((b'-' ∷ []) ∷ []) 120 two_files)
run_wsl-Returns_example =
    run_wsl-Returns volume volume-Ledger 100 2 run_dry 3 ((b'-' ∷ []) ∷ []) 120 two_files
      (omega arith)

abbrev carry_on : DiskProgress → Volume → Bool × Volume
carry_on told v = (true, v)

nearing :
    (v : Volume)
    → (volume.get_virtual_disk_operation_progress 7 v).0.1.operation_status ≡ error_io_pending
    → v.pending - 1 < v.pending
nearing v h = ground arith

poll_loop-EndsWell_example :
    Pending.EndsWell volume 7 [] carry_on 8 (poll_loop volume 7 [] carry_on 3 8 two_files)
poll_loop-EndsWell_example =
    Pending.poll_loop-EndsWell volume 7 [] carry_on 8 (λ v. v.pending) nearing 2 two_files
      (omega arith)
