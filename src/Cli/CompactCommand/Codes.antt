-- ===== src/Cli/CompactCommand/Codes.antt =====
-- src/cli/compact_command.cpp: its exit codes.
use wsldisk.Base.{
  ℕ, Bytes, true, Option, none, some, List, [], ◌∷◌, ◌++◌, ◌≡◌, ◌∙◌, ◌≢◌, ◌↔◌, inl, inr, refl, sym,
  arith, All, All-append, Option-cases,
}
use wsldisk.WinPath.{FilePath}
use wsldisk.Interfaces.{Platform}
use wsldisk.Model.Config.{Config}
use wsldisk.Model.Distro.{Distro}
use wsldisk.Errors.{Error, ErrorCode, exit_code_for, exit_code_success, Result-cases}
use wsldisk.Ops.Compact.{Members, plan}
use wsldisk.Cli.Session.{operate, JsonObject, GlobalOptions, Session}
use wsldisk.Cli.CompactCommand.{
  CompactCommandOptions, compact_loop, plan_one, members, to_operation_options, compact_each,
}
use wsldisk.Cli.Outcomes.{Outcome, succeeds, first_failure, report_outcomes, report_dry_run}

exit_code_for-ne-zero : (code : ErrorCode) → exit_code_for code ≢ 0
unfolding exit_code_for
exit_code_for-ne-zero code h = ground arith

abbrev pub Succeeds : Outcome → Type 0
Succeeds outcome = succeeds outcome ≡ true

first_failure_iff :
    (outcomes : List Outcome) → (first_failure outcomes ≡ none) ↔ All Succeeds outcomes
unfolding first_failure
first_failure_iff [] = (λ h. tt, λ h. refl)
first_failure_iff (outcome ∷ outcomes) = elim (Option-cases outcome.failure) [
  | inl e ↦ (
    λ h. (ground arith, (first_failure_iff outcomes).0 (ground arith)),
    λ h. ground (arith, (first_failure_iff outcomes).1 h.1),
  )
  | inr (f, e) ↦ (λ h. ground arith, λ h. ground arith)
]

first_failure-at :
    (before after : List Outcome) (outcome : Outcome) (e : Error)
    → All Succeeds before
    → outcome.failure ≡ some e
    → first_failure (before ++ outcome ∷ after) ≡ some e
unfolding first_failure
first_failure-at [] after outcome e h failed = rw (first_failure, failed) refl
first_failure-at (b ∷ before) after outcome e (hb, h) failed =
    ground (arith, first_failure-at before after outcome e h failed)

-- The exit code that a failure, if there is one, stands for.
abbrev pub code_of : Option Error → ℕ
code_of none = exit_code_success
code_of (some e) = exit_code_for e.code

module _ {W : Type 0} (dump : JsonObject → Bytes) where
  report_outcomes-first_failure :
      (outcomes : List Outcome) (global : GlobalOptions) (s : Session W)
      → (report_outcomes dump outcomes global s).0 ≡ code_of (first_failure outcomes)
  unfolding report_outcomes
  report_outcomes-first_failure outcomes global s = elim (Option-cases (first_failure outcomes)) [
    | inl h ↦ rw (report_outcomes, h) refl
    | inr (e, h) ↦ rw (report_outcomes, h) refl
  ]

  -- The exit code of a run over several targets is 0 exactly when each of them was compacted, and else
  -- the one of the first failure: that of an outcome before which all others succeeded.
  pub report_outcomes_code :
      (outcomes : List Outcome) (global : GlobalOptions) (s : Session W)
      → (((report_outcomes dump outcomes global s).0 ≡ exit_code_success) ↔ All Succeeds outcomes)
        × ((before after : List Outcome) (outcome : Outcome) (e : Error)
            → outcomes ≡ before ++ outcome ∷ after
            → All Succeeds before
            → outcome.failure ≡ some e
            → (report_outcomes dump outcomes global s).0 ≡ exit_code_for e.code)
  report_outcomes_code outcomes global s = (
    rw (report_outcomes-first_failure outcomes global s)
        (elim (Option-cases (first_failure outcomes)) [
          | inl h ↦ (λ q. (first_failure_iff outcomes).0 h, λ q. rw h refl)
          | inr (e, h) ↦ (
            λ q. absurd (exit_code_for-ne-zero e.code (ground arith)),
            λ q. rw ((first_failure_iff outcomes).1 q) refl,
          )
        ]),
    λ before after outcome e split h failed.
        report_outcomes-first_failure outcomes global s
        ∙ rw (split, first_failure-at before after outcome e h failed) refl,
  )

abbrev pub Refuses : Outcome → Type 0
Refuses outcome = (e : Error) × (outcome.failure ≡ some e)

refusals_code :
    {W : Type 0} (refusals : List Outcome) (s : Session W)
    → All Refuses refusals
    → (report_dry_run refusals s).0 ≡ code_of (first_failure refusals)
unfolding report_dry_run first_failure
refusals_code [] s h = refl
refusals_code (r ∷ refusals) s ((e, h), hs) = rw h refl

module _ (P : Platform) (dump : JsonObject → Bytes) (narrow_path : Bytes → FilePath)
    (config : Config) (options : CompactCommandOptions) (global : GlobalOptions) where
  plan_one-Refuses :
      (distro : Distro) (m : Members) (s : Session P.World)
      → All Refuses (plan_one P dump narrow_path config options global distro m s).0
  unfolding plan_one
  plan_one-Refuses distro m s =
      let cfg = to_operation_options options config in
      elim (Result-cases
        (operate global.json (plan P (some distro) distro.vhdx_path cfg) m s).0.0) [
          | inl (e, h) ↦ rw (plan_one, h) ((e, refl), tt)
          | inr (p, h) ↦ rw (plan_one, h) tt
        ]

  compact_loop-Refuses :
      (running : Option (List Bytes)) (distros : List Distro) (s : Session P.World)
      → global.dry_run ≡ true
      → All Refuses (compact_loop P dump narrow_path config options global running distros s).0
  unfolding compact_loop
  compact_loop-Refuses running [] s h = tt
  compact_loop-Refuses running (distro ∷ distros) s h = rw h (
      All-append Refuses _ _ (plan_one-Refuses distro (members running) s)
        (compact_loop-Refuses running distros _ h))

  -- In a dry run each outcome that is collected is a refusal, and the exit code is the one that a run
  -- that does the work gives for the same outcomes.
  pub dry_run_code :
      (distros : List Distro) (s : Session P.World)
      → global.dry_run ≡ true
      → let each = compact_each P dump narrow_path config options global distros s in
        All Refuses each.0
        × ((report_dry_run each.0 each.1).0 ≡ (report_outcomes dump each.0 global each.1).0)
  unfolding compact_each
  dry_run_code distros s h =
      let each = compact_each P dump narrow_path config options global distros s in
      let refused : All Refuses each.0 = compact_loop-Refuses _ distros _ h in
      (
        refused,
        refusals_code each.0 each.1 refused
            ∙ sym (report_outcomes-first_failure dump each.0 global each.1),
      )
