-- ===== src/Ops/Runner/Laws.antt =====
-- The life cycle of an operation (src/lib/ops/runner.cpp).
use wsldisk.Base.{true, false, ◌≡◌, refl, ◌↔◌, List, [], ◌∷◌, All, none, arith}
use wsldisk.Errors.{ok, fail}
use wsldisk.Ops.Operation.{StepPlan, is_irreversible, Plan}
use wsldisk.Ops.Runner.{walk_steps, irreversible_steps_are_last, RunOutcome, Operation, run}

-- A step that changes something does so for good.
abbrev IsFinal : StepPlan → Type 0
IsFinal step = step.mutates ≡ true → is_irreversible step ≡ true

-- Behind an irreversible step, nothing that changes anything can be undone.
abbrev pub NoReturnLast : List StepPlan → Type 0
NoReturnLast [] = Unit
NoReturnLast (step ∷ steps) = (is_irreversible step ≡ true → All IsFinal steps) × NoReturnLast steps

walk_steps-past : (steps : List StepPlan) → (walk_steps steps true ≡ true) ↔ All IsFinal steps
unfolding walk_steps
walk_steps-past [] = (λ h. tt, λ h. refl)
walk_steps-past (step ∷ steps) = ground (arith, walk_steps-past steps)

NoReturnLast-of_All : (steps : List StepPlan) → All IsFinal steps → NoReturnLast steps
NoReturnLast-of_All [] h = tt
NoReturnLast-of_All (step ∷ steps) (h, hs) = (λ _. hs, NoReturnLast-of_All steps hs)

walk_steps-start : (steps : List StepPlan) → (walk_steps steps false ≡ true) ↔ NoReturnLast steps
unfolding walk_steps
walk_steps-start [] = (λ h. tt, λ h. refl)
walk_steps-start (step ∷ steps) =
    ground (arith, walk_steps-past steps, walk_steps-start steps, NoReturnLast-of_All steps)

-- The runner accepts a plan exactly when each of its irreversible steps has only steps behind it
-- that change nothing or are irreversible too.
pub irreversible_steps_are_last_iff :
    (plan : Plan) → (irreversible_steps_are_last plan ≡ true) ↔ NoReturnLast plan.steps
unfolding irreversible_steps_are_last
irreversible_steps_are_last_iff plan = walk_steps-start plan.steps

module _ {S : Type 0} (operation : Operation S) where
  -- A dry run does nothing but plan: the state is the one that `plan` leaves, and no report is made.
  pub run_dry :
      (s : S)
      → ((run operation true s).1 ≡ (operation.plan s).1)
        × ((o : RunOutcome)
            → (run operation true s).0 ≡ ok o
            → (o.report ≡ none) × ((operation.plan s).0 ≡ ok o.plan))
  unfolding run fail
  run_dry s = (ground arith, λ o h. ground arith)
