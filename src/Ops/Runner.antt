-- ===== src/Ops/Runner.antt =====
-- src/lib/ops/runner.h and runner.cpp: the life cycle of an operation.
pub mod Laws
use wsldisk.Base.{
  txt, Bool, true, false, not, ◌&&◌, Option, none, some, List, [], ◌∷◌, if◌then◌else◌,
}
use wsldisk.Errors.{Result, ok, err, Error, generic, fail}
use wsldisk.Effects.{M, ◌>>=◌, ◌>>◌, pure, from_result}
use wsldisk.Ops.Operation.{StepPlan, is_irreversible, Plan, Report}

-- The loop of irreversible_steps_are_last, with `past_no_return` as an argument.
walk_steps : List StepPlan → Bool → Bool
walk_steps [] past = true
walk_steps (step ∷ steps) past =
    let rest = walk_steps steps in
    if is_irreversible step then rest true else if past && step.mutates then false else rest past

unfoldable pub irreversible_steps_are_last : Plan → Bool
unfolding walk_steps
irreversible_steps_are_last plan = walk_steps plan.steps false

pub record RunOutcome : Type 0 where
  pub plan : Plan
  pub report : Option Report

-- IOperation. `rollback` is noexcept and returns nothing.
pub record Operation (S : Type 0) : Type 0 where
  pub plan : M S Plan
  pub execute : M S Report
  pub verify : M S (Unit {0})
  pub rollback : S → S

module _ {S : Type 0} (operation : Operation S) where
  -- Execute, and roll back if that fails; then verify, and leave the changes if that fails.
  perform : Plan → M S RunOutcome
  perform planned s =
      let r = operation.execute s in
      elim r.0 [
        | err e ↦ (err e, operation.rollback r.1)
        | ok report ↦
            ◌>>◌ operation.verify (pure (record { plan = planned; report = some report })) r.1
      ]

  proceed : Bool → Plan → M S RunOutcome
  unfolding perform
  proceed dry_run planned =
      if not (irreversible_steps_are_last planned)
      then from_result (
          fail generic (txt "the operation plans an undoable change after a point of no return")
            (txt "this is a bug in wsldisk; please report it with the command you ran"))
      else if dry_run
      then pure (record { plan = planned; report = none })
      else perform planned

  unfoldable pub run : Bool → M S RunOutcome
  unfolding proceed
  run dry_run = operation.plan >>= proceed dry_run
