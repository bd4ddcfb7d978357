-- ===== src/Ops/Operation.antt =====
-- src/lib/ops/operation.h and operation.cpp: plans, reports, the calls of a progress sink, and what
-- an operation runs over.
use wsldisk.Base.{
  ℕ, Bytes, Bool, true, false, not, ◌&&◌, Option, none, some, List, [], ◌∷◌, ◌++◌, any,
}
use wsldisk.Errors.{Result, ok}
use wsldisk.Effects.{M}
use wsldisk.Interfaces.{DiskProgress}

pub record StepPlan : Type 0 where
  pub description : Bytes
  pub mutates : Bool
  pub undo_description : Option Bytes

abbrev pub has_value {ℓ} : {A : Type ℓ} → Option A → Bool
has_value none = false
has_value (some a) = true

abbrev pub is_irreversible : StepPlan → Bool
is_irreversible step = step.mutates && not (has_value step.undo_description)

pub record Estimate : Type 0 where
  pub bytes_freed : Option ℕ
  pub duration : Option ℕ

pub record Warning : Type 0 where
  pub message : Bytes
  pub remedy : Bytes

pub record Plan : Type 0 where
  pub steps : List StepPlan
  pub estimate : Estimate
  pub warnings : List Warning

unfoldable pub plan_mutates : Plan → Bool
plan_mutates plan = any (λ step. step.mutates) plan.steps

pub record Report : Type 0 where
  pub completed : List Bytes
  pub actual : Estimate

abbrev pub no_estimate : Estimate
no_estimate = record { bytes_freed = none; duration = none }

-- The calls of a ProgressSink, in order.
pub data Event : Type 0 where
  step_started : ℕ → StepPlan → Event
  step_finished : ℕ → StepPlan → Event
  step_progress : DiskProgress → Event
  message : Bytes → Event
  status : Bytes → Event

-- What an operation runs over: the world outside, what the sink was told, and its own members.
pub record Context (W X : Type 0) : Type 0 where
  pub world : W
  pub events : List Event
  pub self : X

module _ {W X : Type 0} where
  -- A call of the platform that can fail.
  abbrev pub call : {A : Type 0} → (W → Result A × W) → M (Context W X) A
  call f s = let r = f s.world in (r.0, record s { world = r.1 })

  -- A call of the platform that cannot fail.
  abbrev pub ask : {A : Type 0} → (W → A × W) → M (Context W X) A
  ask f s = let r = f s.world in (ok r.0, record s { world = r.1 })

  abbrev pub emit : Event → M (Context W X) (Unit {0})
  emit e s = (ok tt, record s { events = s.events ++ e ∷ [] })

  abbrev pub get : M (Context W X) X
  get s = (ok s.self, s)

  abbrev pub modify : (X → X) → M (Context W X) (Unit {0})
  modify f s = (ok tt, record s { self = f s.self })
