-- ===== src/Ops/Relink/Planning.antt =====
-- What the preflight of src/lib/ops/relink.cpp promises.
use wsldisk.Base.{true, false, ◌≡◌, arith, List, Bytes, inl, inr}
use wsldisk.Errors.{ok, Result-cases}
use wsldisk.WinPath.{FilePath}
use wsldisk.Interfaces.{Platform}
use wsldisk.Model.Distro.{Distro, is_wsl2}
use wsldisk.Model.Orphans.{same_path}
use wsldisk.Ops.Operation.{Plan}
use wsldisk.Ops.Runner.{irreversible_steps_are_last}
use wsldisk.Ops.Preflight.{require_stopped, is_among}
use wsldisk.Ops.Relink.{State, plan, planned}

module _ (P : Platform) (distro : Distro) (target : FilePath) where
  -- A plan is made only for a WSL2 distribution that is not running and whose disk is not the target,
  -- and only if the target exists; making it leaves the undo stack alone, and the runner accepts it.
  pub relink_plan_accepted :
      (s : State P distro target) {p : Plan}
      → (plan P distro target s).0 ≡ ok p
      → let found = P.exists target s.world in
        (is_wsl2 distro ≡ true)
        × (found.0 ≡ true)
        × (same_path distro.vhdx_path target ≡ false)
        × ((names : List Bytes) × ((P.running found.1).0 ≡ ok names)
            × (is_among distro.name names ≡ false))
        × (irreversible_steps_are_last p ≡ true)
        × ((plan P distro target s).1.self ≡ s.self)
  unfolding plan require_stopped irreversible_steps_are_last planned
  relink_plan_accepted s h =
      (ground arith, ground arith, ground arith, stopped, ground arith, ground arith)
    where
      stopped :
          (names : List Bytes) × ((P.running (P.exists target s.world).1).0 ≡ ok names)
          × (is_among distro.name names ≡ false)
      stopped = elim (Result-cases (P.running (P.exists target s.world).1).0) [
        | inl (e, r) ↦ absurd (ground arith)
        | inr (names, r) ↦ (names, r, ground arith)
      ]
