-- ===== src/Tests/Lifecycle.antt =====
-- The runner and the undo stack on small inputs; the operation is a trim of the small machine.
use wsldisk.Base.{Bool, true, false, ℕ, ◌-◌, txt, fmt, List, [], ◌∷◌, ◌≡◌, refl, ◌⊎◌, ◌↔◌, none, ap}
use wsldisk.Errors.{ok}
use wsldisk.Ops.Operation.{Plan, no_estimate}
use wsldisk.Ops.Runner.{irreversible_steps_are_last, RunOutcome, run}
use wsldisk.Ops.Runner.Laws.{NoReturnLast, irreversible_steps_are_last_iff, run_dry}
use wsldisk.Ops.Undo.{Undone, Entry, returned, threw_unknown, unwind}
use wsldisk.Ops.Undo.Restore.{unwind-restores, undo_failure_told}
use wsldisk.Ops.Trim.{State, operation, trim_step}
use wsldisk.Tests.Machine.{machine, ubuntu, registered}

abbrev pub at : Bool → State machine ubuntu 5
at guest = record {
  world = registered guest;
  events = [];
  self = record { trimmed_bytes = none; used_fallback = false };
}

planned : Plan
planned = record {
  steps = trim_step machine ubuntu 5 ∷ [];
  estimate = no_estimate;
  warnings =
      record {
        message = txt "this starts the distribution if it is stopped, and leaves it running";
        remedy =
            fmt (
              txt "run `wsl --terminate " ∷ txt "Ubuntu" ∷ txt "` afterwards if that matters" ∷ []);
      }
      ∷ [];
}

irreversible_steps_are_last_iff_example :
    (irreversible_steps_are_last planned ≡ true) ↔ NoReturnLast planned.steps
irreversible_steps_are_last_iff_example = irreversible_steps_are_last_iff planned

run_dry_example :
    ((run (operation machine ubuntu 5) true (at true)).1
      ≡ ((operation machine ubuntu 5).plan (at true)).1)
    × ((o : RunOutcome)
        → (run (operation machine ubuntu 5) true (at true)).0 ≡ ok o
        → (o.report ≡ none) × (((operation machine ubuntu 5).plan (at true)).0 ≡ ok o.plan))
run_dry_example = run_dry (operation machine ubuntu 5) (at true)

-- A counter of changes, each undone by taking one away; the first to be undone throws.
entries : List (Entry ℕ)
entries =
    record { description = txt "second"; undo = λ w. (threw_unknown, w) }
    ∷ record { description = txt "first"; undo = λ w. (returned (ok tt), w - 1) }
    ∷ []

never_done : ◌≡◌ {A = Undone} threw_unknown (returned (ok tt)) → ⊥
never_done h = cc

unwind-restores_example :
    ((unwind entries 2 []).0 ≡ 0) ⊎ (undo_failure_told (unwind entries 2 []).1 ≡ true)
unfolding entries
unwind-restores_example =
    unwind-restores (λ w. w) entries 2 [] 0
      (1, (λ w p h. absurd (never_done h)), (0, (λ w p h. ap (λ n. n - 1) p), refl))
