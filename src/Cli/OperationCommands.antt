-- ===== src/Cli/OperationCommands.antt =====
-- src/cli/relink_command.cpp, move_command.cpp and trim_command.cpp.
pub mod DryRuns
use wsldisk.Base.{
  ℕ, Bytes, txt, fmt, Bool, true, false, Option, none, some, List, [], ◌∷◌, ◌++◌, if◌then◌else◌,
}
use wsldisk.Errors.{ok, err, exit_code_success}
use wsldisk.WinPath.{FilePath}
use wsldisk.Interfaces.{Platform}
use wsldisk.Model.Size.{format_size}
use wsldisk.Model.Text.{to_utf8}
use wsldisk.Model.Distro.{Distro}
use wsldisk.Ops.Runner.{Operation, run, RunOutcome}
use wsldisk.Ops.Operation.{Context}
use wsldisk.Ops.Trim.{TrimResult}
use wsldisk.Ops.Trim
use wsldisk.Ops.Relink
use wsldisk.Ops.Move
use wsldisk.Cli.Session.{
  Json, JsonObject, text, number, flag, GlobalOptions, Session, print, operate, report,
}
use wsldisk.Cli.Render.{number_if_known, render_dry_run}
use wsldisk.Cli.Lookup.{find_distro}
use wsldisk.Cli.ListCommand.{require_wsl2}
use wsldisk.Cli.Session.{closing}

abbrev line_end : Bytes
line_end = 10 ∷ []

pub record RelinkOptions : Type 0 where
  pub name : Bytes
  pub path : Bytes

pub record MoveOptions : Type 0 where
  pub name : Bytes
  pub destination : Bytes
  pub keep_source : Bool

-- The default timeout of TrimOperation, in milliseconds.
abbrev trim_timeout : ℕ
trim_timeout = 600000

abbrev pub misleading : Bytes
misleading =
    txt
      "that figure is the free extent of the disk, not space reclaimed: compaction is what shrinks the file"

unfoldable pub trim_text : Distro → Option ℕ → Bytes
trim_text distro trimmed = fmt (
    distro.name
    ∷ txt ": trimmed."
    ∷ (elim trimmed [
      | some n ↦ fmt (
          txt " fstrim reported " ∷ format_size n ∷ txt "." ∷ line_end ∷ misleading ∷ line_end ∷ [])
      | none ↦ fmt (txt " fstrim did not say how much." ∷ line_end ∷ [])
    ])
    ∷ txt "run `wsldisk compact "
    ∷ distro.name
    ∷ txt "` to shrink the file itself"
    ∷ line_end
    ∷ [])

unfoldable pub trim_object : Distro → Option ℕ → JsonObject
trim_object distro trimmed =
    (txt "distribution", text distro.name)
    ∷ (txt "trimmed", flag true)
    ∷ (number_if_known (txt "bytes_offered") trimmed ++ (txt "note", text misleading) ∷ [])

module _ (P : Platform) (dump : JsonObject → Bytes) (global : GlobalOptions) where
  abbrev S : Type 0
  S = Session P.World

  -- What the three commands do with an operation: run it, and report its error, its plan in a dry run,
  -- or what `done` prints of the members that it leaves.
  unfoldable pub run_operation :
      {X : Type 0}
      → Operation (Context P.World X)
      → X
      → Bytes
      → (X → JsonObject)
      → (X → Bytes)
      → S
      → ℕ × S
  unfolding render_dry_run
  run_operation operation members name object done s =
      let r = operate global.json (run operation global.dry_run) members s in
      closing (elim r.0.0 [
        | err e ↦ report dump e global r.1
        | ok outcome ↦ (
          exit_code_success,
          print
              (if global.dry_run
                then render_dry_run dump outcome.plan (txt "distribution") name global.json
                else if global.json
                then fmt (dump (object r.0.1) ∷ line_end ∷ [])
                else done r.0.1)
              r.1,
        )
      ])

  unfoldable pub run_relink : (Bytes → FilePath) → RelinkOptions → S → ℕ × S
  unfolding run_operation find_distro
  run_relink narrow_path options s =
      let (found, s') = find_distro P options.name s in
      elim found [
        | err e ↦ report dump e global s'
        | ok distro ↦
            run_operation (Relink.operation P distro (narrow_path options.path)) [] options.name
              (λ m.
                (txt "distribution", text options.name)
                ∷ (txt "vhdx_path", text options.path)
                ∷ (
                  txt "base_path",
                  text (to_utf8 (Relink.intended_base_path P distro (narrow_path options.path))),
                )
                ∷ (txt "relinked", flag true)
                ∷ [])
              (λ m. fmt (options.name ∷ txt " now points at " ∷ options.path ∷ line_end ∷ [])) s'
      ]

  unfoldable pub move_object : Distro → FilePath → MoveOptions → Move.Members P.World → JsonObject
  move_object distro destination options m =
      (txt "distribution", text options.name)
      ∷ (
        txt "vhdx_path",
        text (P.path_string (Move.target P distro destination options.keep_source)),
      )
      ∷ (
        txt "base_path",
        text (to_utf8 (Move.intended_base_path P distro destination options.keep_source)),
      )
      ∷ (txt "moved", flag true)
      ∷ (txt "renamed", flag (Move.was_renamed P distro destination options.keep_source m))
      ∷ (txt "same_volume", flag m.same_volume)
      ∷ (txt "kept_source", flag options.keep_source)
      ∷ (txt "size_on_disk", number m.size)
      ∷ []

  unfoldable pub run_move : (Bytes → FilePath) → MoveOptions → S → ℕ × S
  unfolding run_operation find_distro move_object
  run_move narrow_path options s =
      let (found, s') = find_distro P options.name s in
      let destination = narrow_path options.destination in
      elim found [
        | err e ↦ report dump e global s'
        | ok distro ↦
            run_operation (Move.operation P distro destination options.keep_source)
              (record { size = 0; same_volume = false; undo = [] }) options.name
              (move_object distro destination options)
              (λ m. fmt (
                options.name
                ∷ txt " now lives at "
                ∷ P.path_string (Move.target P distro destination options.keep_source)
                ∷ txt " ("
                ∷ format_size m.size
                ∷ txt ")"
                ∷ line_end
                ∷ []))
              s'
      ]

  unfoldable pub run_trim : Bytes → S → ℕ × S
  unfolding run_operation find_distro trim_object trim_text
  run_trim name s =
      let (found, s') = find_distro P name s in
      elim found [
        | err e ↦ report dump e global s'
        | ok distro ↦ elim (require_wsl2 distro) [
          | err e ↦ report dump e global s'
          | ok u ↦
              run_operation (Trim.operation P distro trim_timeout)
                (record { trimmed_bytes = none; used_fallback = false }) distro.name
                (λ m. trim_object distro m.trimmed_bytes) (λ m. trim_text distro m.trimmed_bytes) s'
        ]
      ]
