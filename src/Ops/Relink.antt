-- ===== src/Ops/Relink.antt =====
-- src/lib/ops/relink.h and relink.cpp: RelinkOperation.
pub mod Safety
pub mod Planning
use wsldisk.Base.{Bytes, txt, fmt, bytes_eq, true, false, not, none, some, List, [], ◌∷◌}
use wsldisk.Errors.{Error, preflight, partial}
use wsldisk.Effects.{M, ◌>>=◌, ◌>>◌, pure, guard}
use wsldisk.WinPath.{Wide, FilePath, parent_path, filename}
use wsldisk.Interfaces.{Platform}
use wsldisk.Model.Distro.{Distro, is_wsl2, registry_key_for, value_or}
use wsldisk.Model.Orphans.{same_path}
use wsldisk.Ops.Operation.{
  StepPlan, Plan, Report, no_estimate, Context, call, ask, emit, step_started, step_finished,
}
use wsldisk.Ops.Undo.{Entry, unwind}
use wsldisk.Ops.Runner.{Operation}
use wsldisk.Ops.Preflight.{
  base_path_value, wsl1_refusal, in_prefix_form, require_stopped, boots, repoint_registry,
}

-- The members that change: the undo stack.
abbrev pub Members : Type 0 → Type 0
Members W = List (Entry W)

module _ (P : Platform) (distro : Distro) (target : FilePath) where
  abbrev pub State : Type 0
  State = Context P.World (Members P.World)

  unfoldable pub intended_base_path : Wide
  unfolding in_prefix_form
  intended_base_path = in_prefix_form distro (parent_path target)

  missing_target : Error
  missing_target = record {
    code = preflight;
    message = fmt (P.path_string target ∷ txt " does not exist" ∷ []);
    remedy = txt "check the path, or run `wsldisk orphans` to see what was found";
  }

  already_there : Error
  already_there = record {
    code = preflight;
    message = fmt (distro.name ∷ txt " already points at " ∷ P.path_string target ∷ []);
    remedy = txt "nothing to do; `wsldisk info` shows where it points";
  }

  did_not_start : Error
  did_not_start = record {
    code = preflight;
    message = fmt (distro.name ∷ txt " did not start from " ∷ P.path_string target ∷ []);
    remedy = txt "the registry entry has been put back; check the path names the right disk";
  }

  not_as_written : Error
  not_as_written = record {
    code = partial;
    message = fmt (distro.name ∷ txt "'s BasePath is not what was written" ∷ []);
    remedy = txt "run `wsldisk info` to see where it points now";
  }

  unfoldable pub point_description : Bytes
  point_description = fmt (txt "point " ∷ distro.name ∷ txt " at " ∷ P.path_string target ∷ [])

  unfoldable pub smoke_description : Bytes
  smoke_description = fmt (txt "start " ∷ distro.name ∷ txt " to check the new path works" ∷ [])

  unfoldable pub planned : Plan
  planned = record {
    steps =
        record {
          description = point_description;
          mutates = true;
          undo_description =
              some (fmt (txt "restore " ∷ distro.name ∷ txt "'s registry entry" ∷ []));
        }
        ∷ record { description = smoke_description; mutates = false; undo_description = none }
        ∷ [];
    estimate = no_estimate;
    warnings =
        record {
          message = txt "this rewrites the WSL registry entry for the distribution";
          remedy = txt "it is put back automatically if the distribution fails to start";
        }
        ∷ [];
  }

  unfoldable pub plan : M State Plan
  unfolding missing_target already_there planned
  plan = do
    guard (is_wsl2 distro) (wsl1_refusal distro)
    found ← ask (P.exists target)
    guard found missing_target
    guard (not (same_path distro.vhdx_path target)) already_there
    require_stopped P distro
    pure planned

  write_step : StepPlan
  write_step = record { description = point_description; mutates = true; undo_description = none }

  smoke_step : StepPlan
  smoke_step = record { description = smoke_description; mutates = false; undo_description = none }

  -- The second half of execute: the first step is finished, and the smoke test runs.
  unfoldable pub prove_it_boots : M State Report
  unfolding write_step smoke_step did_not_start
  prove_it_boots = do
    emit (step_finished 0 write_step)
    emit (step_started 1 smoke_step)
    boots P distro 60000 did_not_start
    emit (step_finished 1 smoke_step)
    pure (record { completed = point_description ∷ smoke_description ∷ []; actual = no_estimate })

  unfoldable pub execute : M State Report
  unfolding write_step
  execute = do
    emit (step_started 0 write_step)
    repoint_registry P (λ f stack. f stack) distro intended_base_path (filename target)
    prove_it_boots

  unfoldable pub verify : M State (Unit {0})
  unfolding not_as_written
  verify = do
    written ← call (P.read_string (registry_key_for distro) base_path_value)
    guard (bytes_eq (value_or written []) intended_base_path) not_as_written

  unfoldable pub rollback : State → State
  unfolding unwind
  rollback s =
      let (world, events) = unwind s.self s.world s.events in
      record { world = world; events = events; self = [] }

  unfoldable pub operation : Operation State
  operation = record { plan = plan; execute = execute; verify = verify; rollback = rollback }
