-- ===== src/Cli/CompactCommand.antt =====
-- src/cli/compact_command.h and compact_command.cpp.
pub mod Codes
use wsldisk.Base.{
  ℕ, suc, ◌+◌, ◌%◌, ◌^◌, Bytes, txt, fmt, is_empty, Bool, true, false, not, ◌&&◌, ◌||◌, Option,
  none, some, List, [], ◌∷◌, ◌++◌, if◌then◌else◌, ltb, ◌==◌, length,
}
use wsldisk.Errors.{Error, usage, preflight, Result, ok, err, exit_code_for, exit_code_success}
use wsldisk.WinPath.{FilePath}
use wsldisk.Interfaces.{Platform}
use wsldisk.Model.Size.{format_size}
use wsldisk.Model.Config.{Config, unlock_timeout}
use wsldisk.Model.Distro.{Distro, is_wsl2, enumerate}
use wsldisk.Ops.Operation.{Plan}
use wsldisk.Ops.Runner.{run}
use wsldisk.Ops.Compact.{CompactOptions, Members, reclaimed, plan}
use wsldisk.Ops.Compact.Run.{operation}
use wsldisk.Cli.Session.{
  Json, JsonObject, text, number, flag, GlobalOptions, Session, calling, log, verbose, warn_all,
  print, print_error, operate, report, to_human_line, erase_transient,
}
use wsldisk.Cli.Render.{number_if_known, render_dry_run}
use wsldisk.Cli.Lookup.{find_distro}
use wsldisk.Cli.ListCommand.{require_wsl2}
use wsldisk.Cli.Outcomes.{
  Outcome, no_outcome, render_outcome, succeeds, first_failure, json_line, report_dry_run,
  report_outcomes,
}
use wsldisk.Cli.Session.{closing}

pub record CompactCommandOptions : Type 0 where
  pub name : Bytes
  pub all : Bool
  pub file : Bytes
  pub no_trim : Bool
  pub shutdown : Bool
  pub restart : Bool

-- The default of CompactOptions::trim_timeout, in milliseconds.
abbrev trim_timeout : ℕ
trim_timeout = 600000

unfoldable pub to_operation_options : CompactCommandOptions → Config → CompactOptions
unfolding unlock_timeout
to_operation_options options config = record {
  trim = config.compact_trim && not options.no_trim;
  shutdown = options.shutdown;
  restart = config.compact_restart || options.restart;
  unlock_timeout = unlock_timeout config;
  trim_timeout = trim_timeout;
}

unfoldable pub targets_one_thing : CompactCommandOptions → Bool
targets_one_thing options =
    (if is_empty options.name then 0 else 1)
      + (if options.all then 1 else 0)
      + (if is_empty options.file then 0 else 1)
    == 1

abbrev pub members : Option (List Bytes) → Members
members running_before = record {
  before = none;
  after = none;
  trimmed_bytes = none;
  was_running = false;
  running_before = running_before;
}

no_targets_named : Error
no_targets_named = record {
  code = usage;
  message = txt "name one distribution, --all, or --file";
  remedy =
      txt
        "`wsldisk compact Ubuntu`, `wsldisk compact --all`, or `wsldisk compact --file D:\\disks\\data.vhdx`";
}

-- `narrow_path` is std::filesystem::path of a narrow string, which the code page of the machine decides.
module _ (P : Platform) (dump : JsonObject → Bytes) (narrow_path : Bytes → FilePath)
    (config : Config) (options : CompactCommandOptions) (global : GlobalOptions) where
  abbrev S : Type 0
  S = Session P.World

  abbrev operation_options : CompactOptions
  operation_options = to_operation_options options config

  unfoldable pub compact_one : Option Distro → FilePath → Bytes → Members → S → Outcome × S
  compact_one distro path label m s =
      let r =
        operate global.json (run (operation P distro path operation_options) global.dry_run) m s in
      (
        elim r.0.0 [
          | err e ↦ record (no_outcome label) { failure = some e }
          | ok result ↦ if global.dry_run then no_outcome label else record {
            label = label;
            failure = none;
            before = r.0.1.before;
            after = r.0.1.after;
            reclaimed = reclaimed r.0.1;
          }
        ],
        r.1,
      )

  unfoldable pub compactable_loop : List Distro → S → List Distro × S
  compactable_loop [] s = ([], s)
  compactable_loop (distro ∷ distros) s =
      let skipped = compactable_loop distros (
        log (verbose (fmt (distro.name ∷ txt " is WSL1 and has no virtual disk; skipped" ∷ [])))
          s) in
      let (rest, s') = compactable_loop distros s in
      if is_wsl2 distro then (distro ∷ rest, s') else skipped

  unfoldable pub compactable : S → Result (List Distro) × S
  unfolding compactable_loop
  compactable s =
      let (found, s') = calling (enumerate P) s in
      elim found [
        | err e ↦ (err e, s')
        | ok distros ↦
            (let (wsl2, s2) = compactable_loop distros.distros (warn_all distros.warnings s') in
              (ok wsl2, s2))
      ]

  unfoldable pub targets_of : S → Result (List Distro) × S
  unfolding compactable find_distro
  targets_of s =
      if options.all
      then compactable s
      else (let (found, s') = find_distro P options.name s in
          (
            elim found [
              | err e ↦ err e
              | ok distro ↦ elim (require_wsl2 distro) [ err e ↦ err e | ok u ↦ ok (distro ∷ []) ]
            ],
            s',
          ))

  -- A failed target of --file.
  abbrev loose_failure : Error → S → ℕ × S
  loose_failure e s =
      if global.json
      then (
        exit_code_for e.code,
        print (json_line dump (record (no_outcome options.file) { failure = some e })) s,
      )
      else report dump e global s

  unfoldable pub loose_planned : Plan → Outcome → S → ℕ × S
  unfolding render_outcome render_dry_run
  loose_planned planned outcome s = elim outcome.failure [
    | some e ↦ loose_failure e s
    | none ↦ (
      exit_code_success,
      print
          (if global.dry_run
            then render_dry_run dump planned (txt "target") options.file global.json
            else if global.json
            then json_line dump outcome
            else render_outcome outcome)
          s,
    )
  ]

  unfoldable pub compact_loose_file : S → ℕ × S
  unfolding compact_one loose_planned
  compact_loose_file s =
      let path = narrow_path options.file in
      let ((planned, m), s') =
        operate global.json (plan P none path operation_options) (members none) s in
      elim planned [
        | err e ↦ loose_failure e s'
        | ok p ↦
            (let (outcome, s2) = compact_one none path options.file m s' in
              loose_planned p outcome s2)
      ]

  -- One round of compact_each in a dry run: the refusal, if there is one.
  unfoldable pub plan_one : Distro → Members → S → List Outcome × S
  unfolding render_dry_run
  plan_one distro m s =
      let ((planned, m'), s') =
        operate global.json (plan P (some distro) distro.vhdx_path operation_options) m s in
      elim planned [
        | err e ↦ (record (no_outcome distro.name) { failure = some e } ∷ [], s')
        | ok p ↦ (
          [],
          print (render_dry_run dump p (txt "target") distro.name global.json)
              (if global.json then s' else print (fmt (distro.name ∷ txt ":" ∷ (10 ∷ []) ∷ [])) s'),
        )
      ]

  unfoldable pub compact_loop : Option (List Bytes) → List Distro → S → List Outcome × S
  unfolding compact_one plan_one
  compact_loop running_before [] s = ([], s)
  compact_loop running_before (distro ∷ distros) s =
      let (dry, s1) = plan_one distro (members running_before) s in
      let (refusals, s2) = compact_loop running_before distros s1 in
      let (outcome, s3) =
        compact_one (some distro) distro.vhdx_path distro.name (members running_before) s in
      let (outcomes, s4) = compact_loop running_before distros s3 in
      if global.dry_run then (dry ++ refusals, s2) else (outcome ∷ outcomes, s4)

  abbrev snapshot : Result (List Bytes) → Option (List Bytes)
  snapshot (err e) = none
  snapshot (ok names) = some names

  unfoldable pub compact_each : List Distro → S → List Outcome × S
  unfolding compact_loop
  compact_each targets s =
      let (running, s') = calling P.running s in compact_loop (snapshot running) targets s'

  unfoldable pub compact_targets : List Distro → S → ℕ × S
  unfolding compact_each report_dry_run report_outcomes
  compact_targets [] s = (
    exit_code_success,
    if global.json
        then s
        else print (fmt (txt "no WSL2 distributions to compact" ∷ (10 ∷ []) ∷ [])) s,
  )
  compact_targets (d ∷ ds) s =
      let (outcomes, s') = compact_each (d ∷ ds) s in
      if global.dry_run then report_dry_run outcomes s' else report_outcomes dump outcomes global s'

  unfoldable pub run_compact : S → ℕ × S
  unfolding targets_one_thing compact_loose_file targets_of compact_targets no_targets_named
      erase_transient
  run_compact s =
      let (chosen, s') = targets_of s in
      if not (targets_one_thing options)
      then report dump no_targets_named global s
      else if not (is_empty options.file)
      then closing (compact_loose_file s)
      else elim chosen [
        | err e ↦ closing (report dump e global s')
        | ok targets ↦ closing (compact_targets targets s')
      ]
