-- ===== src/Tests/Commands.antt =====
-- The command line of wsl.exe and the commands, on small inputs.
use mathlib.Core.List.{Perm}
use wsldisk.Base.{
  ◌≤◌, Bytes, txt, Bool, true, false, some, none, List, [], ◌∷◌, ◌++◌, ◌≡◌, ◌↔◌, refl, All,
}
use wsldisk.Errors.{Error, preflight, exit_code_for, exit_code_success}
use wsldisk.WinPath.{Wide}
use wsldisk.Platform.CommandLine.{build_command_line}
use wsldisk.Platform.CommandLine.Parsing.{arguments_of, arguments_of-build_command_line}
use wsldisk.Model.Config.{default_config}
use wsldisk.Cli.Session.{JsonObject, GlobalOptions, Session}
use wsldisk.Cli.Lookup.{distance, nearest_names}
use wsldisk.Cli.Lookup.Distance.{Alignment, price, distance-IsLeast}
use wsldisk.Cli.Lookup.Suggestions.{near_names, Nearest, nearest_names-IsNearest}
use wsldisk.Cli.CompactCommand.{CompactCommandOptions, compact_each}
use wsldisk.Cli.Outcomes.{Outcome, no_outcome, report_outcomes, report_dry_run}
use wsldisk.Cli.CompactCommand.Codes.{Succeeds, Refuses, report_outcomes_code, dry_run_code}
use wsldisk.Ops.Trim.{TrimResult, operation}
use wsldisk.Cli.OperationCommands.{run_operation, trim_object, trim_text}
use wsldisk.Cli.OperationCommands.DryRuns.{handed, run_operation_dry}
use wsldisk.Tests.Machine.{Machine, machine, ubuntu, registered}

abbrev spoken : List Wide
spoken = txt "wsl.exe" ∷ txt "-d" ∷ txt "My \"own\" distro\\" ∷ [] ∷ txt "C:\\disks" ∷ []

arguments_of-build_command_line_example : arguments_of (build_command_line spoken) ≡ spoken
arguments_of-build_command_line_example = arguments_of-build_command_line spoken

distance-IsLeast_example :
    ((s : Alignment (txt "Ubunut") (txt "ubuntu")) × (price s
        ≡ distance (txt "Ubunut") (txt "ubuntu")))
    × ((s : Alignment (txt "Ubunut") (txt "ubuntu"))
        → distance (txt "Ubunut") (txt "ubuntu") ≤ price s)
distance-IsLeast_example = distance-IsLeast (txt "Ubunut") (txt "ubuntu")

abbrev names : List Bytes
names = txt "Debian" ∷ txt "Ubuntu-22.04" ∷ txt "Ubuntu" ∷ []

nearest_names-IsNearest_example :
    Perm (nearest_names (txt "ubunut") names) (near_names (txt "ubunut") names)
    × Nearest (txt "ubunut") (nearest_names (txt "ubunut") names)
nearest_names-IsNearest_example = nearest_names-IsNearest (txt "ubunut") names

abbrev no_json : JsonObject → Bytes
no_json object = []

abbrev on_console : Bool → GlobalOptions
on_console dry_run = record { json = false; verbose = false; assume_yes = false; dry_run = dry_run }

abbrev start : Session Machine
start = record { world = registered true; out = []; errors = []; log = []; transient_width = 0 }

abbrev refused : Error
refused = record { code = preflight; message = txt "no"; remedy = [] }

abbrev outcomes : List Outcome
outcomes =
    no_outcome (txt "Debian") ∷ record (no_outcome (txt "Ubuntu")) { failure = some refused } ∷ []

report_outcomes_code_example :
    (((report_outcomes no_json outcomes (on_console false) start).0 ≡ exit_code_success)
      ↔ All Succeeds outcomes)
    × ((before after : List Outcome) (outcome : Outcome) (e : Error)
        → outcomes ≡ before ++ outcome ∷ after
        → All Succeeds before
        → outcome.failure ≡ some e
        → (report_outcomes no_json outcomes (on_console false) start).0 ≡ exit_code_for e.code)
report_outcomes_code_example = report_outcomes_code no_json outcomes (on_console false) start

abbrev everything : CompactCommandOptions
everything = record {
  name = [];
  all = true;
  file = [];
  no_trim = false;
  shutdown = false;
  restart = false;
}

dry_run_code_example :
    All Refuses
      (compact_each machine no_json
        (λ path. path)
        default_config
        everything
        (on_console true)
        (ubuntu ∷ [])
        start).0
    × ((report_dry_run
          (compact_each machine no_json
            (λ path. path)
            default_config
            everything
            (on_console true)
            (ubuntu ∷ [])
            start).0
          (compact_each machine no_json
            (λ path. path)
            default_config
            everything
            (on_console true)
            (ubuntu ∷ [])
            start).1).0
        ≡ (report_outcomes no_json
            (compact_each machine no_json
              (λ path. path)
              default_config
              everything
              (on_console true)
              (ubuntu ∷ [])
              start).0
            (on_console true)
            (compact_each machine no_json
              (λ path. path)
              default_config
              everything
              (on_console true)
              (ubuntu ∷ [])
              start).1).0)
dry_run_code_example =
    dry_run_code machine no_json (λ path. path) default_config everything (on_console true)
      (ubuntu ∷ []) start refl

abbrev nothing_trimmed : TrimResult
nothing_trimmed = record { trimmed_bytes = none; used_fallback = false }

run_operation_dry_example :
    (run_operation machine no_json
      (on_console true)
      (operation machine ubuntu 5)
      nothing_trimmed
      (txt "Ubuntu")
      (λ m. trim_object ubuntu m.trimmed_bytes)
      (λ m. trim_text ubuntu m.trimmed_bytes)
      start).1.world
    ≡ ((operation machine ubuntu 5).plan (handed nothing_trimmed start)).1.world
run_operation_dry_example =
    run_operation_dry machine no_json (on_console true) (operation machine ubuntu 5) nothing_trimmed
      (txt "Ubuntu") (λ m. trim_object ubuntu m.trimmed_bytes)
      (λ m. trim_text ubuntu m.trimmed_bytes) start refl
