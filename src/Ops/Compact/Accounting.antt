-- ===== src/Ops/Compact/Accounting.antt =====
-- What src/lib/ops/compact.cpp reports of the space it freed, and what its plan refuses.
use wsldisk.Base.{ℕ, ◌+◌, ◌-◌, ◌≤◌, List, Bytes, ◌≡◌, arith, Option, some, ◌↔◌, length}
use wsldisk.Errors.{ok}
use wsldisk.Effects.{◌>>◌}
use wsldisk.Effects.Steps.{bind-eq-ok}
use wsldisk.WinPath.{FilePath}
use wsldisk.Interfaces.{Platform}
use wsldisk.Model.Distro.{Distro}
use wsldisk.Ops.Operation.{Report, emit, step_started}
use wsldisk.Ops.Compact.{CompactOptions, State, reclaimed, measure_before, compact_step}
use wsldisk.Ops.Compact.Run.{compact_disk, conclude, finish, verify}

module _ (P : Platform) (distro : Option Distro) (path : FilePath) (options : CompactOptions) where
  Accounted : Report → State P distro path options → Type 0
  Accounted report t = report.actual.bytes_freed ≡ reclaimed t.self

  conclude-Accounted :
      (steps : List Bytes) (s : State P distro path options) {report : Report}
      → (conclude P distro path options steps s).0 ≡ ok report
      → Accounted report (conclude P distro path options steps s).1
  unfolding conclude Accounted
  conclude-Accounted steps s h = ground arith

  finish-Accounted :
      (steps : List Bytes) (s : State P distro path options) {report : Report}
      → (finish P distro path options steps s).0 ≡ ok report
      → Accounted report (finish P distro path options steps s).1
  unfolding finish Accounted
  finish-Accounted steps s h =
      let (u, measured, rest, eq) =
        bind-eq-ok (measure_before P distro path options)
          (λ u.
            emit (step_started (length steps) (compact_step P distro path options))
            >> (compact_disk P distro path options >> conclude P distro path options steps))
          s h in
      let (v, compacted, rest2, eq2) =
        bind-eq-ok (compact_disk P distro path options) (λ v. conclude P distro path options steps)
          _ rest in
      rw (eq, eq2) (conclude-Accounted steps _ rest2)

  -- When a compaction succeeded and both sizes were measured: `verify` accepts it exactly if the
  -- file has not grown, and changes nothing; and if it has not grown, the space reported as
  -- freed and the size after make up the size before.
  pub finish_accounts :
      (steps : List Bytes) (s : State P distro path options) {report : Report} (b a : ℕ)
      → (finish P distro path options steps s).0 ≡ ok report
      → (finish P distro path options steps s).1.self.before ≡ some b
      → (finish P distro path options steps s).1.self.after ≡ some a
      → let t = (finish P distro path options steps s).1 in
        (((verify P distro path options t).0 ≡ ok tt) ↔ (a ≤ b))
        × ((verify P distro path options t).1 ≡ t)
        × (a ≤ b → (freed : ℕ) × (report.actual.bytes_freed ≡ some freed) × (freed + a ≡ b))
  unfolding verify Accounted reclaimed
  finish_accounts steps s b a h before after =
      let accounted = finish-Accounted steps s h in
      ((ground arith, ground arith), ground arith, λ fits. (b - a, ground arith, omega arith))
