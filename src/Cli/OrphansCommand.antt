-- ===== src/Cli/OrphansCommand.antt =====
-- src/cli/orphans_command.h and orphans_command.cpp: disks that no distribution claims, and deleting
-- them. The question to the user is an argument, as it is in the source.
pub mod Deleting
use wsldisk.Base.{
  ℕ, suc, ◌+◌, ◌%◌, ◌^◌, Bytes, txt, fmt, is_empty, bytes_eq, decimal, Bool, true, false, not, ◌&&◌,
  Option, none, some, List, [], ◌∷◌, ◌++◌, ltb, ◌==◌, if◌then◌else◌, length, map,
}
use wsldisk.Errors.{
  Error, distro_busy, partial, Result, ok, err, to_string, exit_code_success, Status,
}
use wsldisk.WinPath.{FilePath}
use wsldisk.Interfaces.{Platform}
use wsldisk.Model.Size.{format_size}
use wsldisk.Model.Text.{path_to_utf8}
use wsldisk.Model.Distro.{DistroList, enumerate, lower}
use wsldisk.Model.Config.{Config}
use wsldisk.Model.Orphans.{Orphan, default_scan_patterns, find_orphans}
use wsldisk.Cli.Session.{
  JsonObject, text, number, flag, GlobalOptions, Session, calling, print, print_error, log, verbose,
  warn_all, report,
}
use wsldisk.Cli.Render.{Cell, no_cell, Table, add_row, render_table, number_if_known}
use wsldisk.Cli.OperationCommands.{RelinkOptions, run_relink}

pub record OrphansOptions : Type 0 where
  pub scan_dirs : List Bytes
  pub remove : Bool
  pub relink_distro : Bytes
  pub relink_path : Bytes

abbrev pub relinking : OrphansOptions → Bool
relinking options = not (is_empty options.relink_distro)

abbrev line_end : Bytes
line_end = 10 ∷ []

-- The sum is a std::uint64_t.
unfoldable pub total_loop : List Orphan → ℕ → ℕ
total_loop [] total = total
total_loop (orphan ∷ orphans) total =
    total_loop orphans ((total + (elim orphan.size_on_disk [ none ↦ 0 | some n ↦ n ])) % 2 ^ 64)

unfoldable pub total_size : List Orphan → ℕ
unfolding total_loop
total_size orphans = total_loop orphans 0

unfoldable pub with_orphans : List Orphan → Table → Table
unfolding add_row
with_orphans [] table = table
with_orphans (orphan ∷ orphans) table = with_orphans orphans (
    add_row
      (record no_cell { bytes = orphan.size_on_disk }
        ∷ record no_cell { text = some (path_to_utf8 orphan.path) }
        ∷ [])
      table)

unfoldable pub render_orphan_table : List Orphan → Bytes
unfolding with_orphans
render_orphan_table orphans =
    render_table
      (with_orphans orphans (record { headers = txt "SIZE ON DISK" ∷ txt "PATH" ∷ []; rows = [] }))

abbrev orphan_object : Orphan → JsonObject
orphan_object orphan =
    (txt "path", text (path_to_utf8 orphan.path))
    ∷ number_if_known (txt "size_on_disk") orphan.size_on_disk

abbrev kept_object : Orphan → JsonObject
kept_object orphan =
    (txt "path", text (path_to_utf8 orphan.path))
    ∷ (txt "dry_run", flag true)
    ∷ (txt "deleted", flag false)
    ∷ []

-- The object of render_deletion_json.
abbrev pub deletion_object : Orphan → Option Bytes → JsonObject
deletion_object orphan none =
    (txt "path", text (path_to_utf8 orphan.path)) ∷ (txt "deleted", flag true) ∷ []
deletion_object orphan (some failure) =
    (txt "path", text (path_to_utf8 orphan.path))
    ∷ (txt "deleted", flag false)
    ∷ (txt "error", text failure)
    ∷ []

-- One JSON object to a line.
unfoldable pub json_lines : (JsonObject → Bytes) → List JsonObject → List Bytes
json_lines dump [] = []
json_lines dump (object ∷ objects) = dump object ∷ line_end ∷ json_lines dump objects

-- ask: what is printed, and whether the answer, if a line could be read, is yes.
unfoldable pub ask : Bytes → Option Bytes → Bytes × Bool
ask question answer = (
  fmt (question ∷ txt " [y/N] " ∷ []),
  elim answer [
    | none ↦ false
    | some line ↦
        if bytes_eq (map lower line) (txt "y") then true else bytes_eq (map lower line) (txt "yes")
  ],
)

abbrev pub docker_warning : Bytes
docker_warning = fmt (
    line_end
    ∷ txt "not every disk here is unused: software other than WSL keeps virtual disks"
    ∷ line_end
    ∷ txt "that no distribution claims. Check what each one is before deleting it."
    ∷ line_end
    ∷ [])

-- The error behind a run in which some files could not be deleted.
unfoldable pub not_all_deleted : ℕ → ℕ → Error
not_all_deleted failures count = record {
  code = if failures == count then distro_busy else partial;
  message =
      fmt
        (decimal failures ∷ txt " of " ∷ decimal count ∷ txt " file(s) could not be deleted" ∷ []);
  remedy =
      txt
        "a disk held open by something else is not an orphan; close whatever is using it -- `wsl --shutdown` for WSL, or quit Docker Desktop -- and try again";
}

module _ (P : Platform) (dump : JsonObject → Bytes) (global : GlobalOptions) where
  abbrev S : Type 0
  S = Session P.World

  -- Why a file could not be deleted; `none` if it was.
  unfoldable pub delete_one : Orphan → P.World → Option Bytes × P.World
  delete_one orphan w =
      let locked = P.is_locked orphan.path w in
      elim locked.0 [
        | err e ↦ (some (to_string e), locked.1)
        | ok busy ↦
            let removed = P.remove orphan.path locked.1 in
            if busy
            then (
              some (fmt (path_to_utf8 orphan.path ∷ txt " is in use by another process" ∷ [])),
              locked.1,
            )
            else (elim removed.0 [ err e ↦ some (to_string e) | ok u ↦ none ], removed.1)
      ]

  -- What is said of one deletion.
  unfoldable pub tell_deletion : Orphan → Option Bytes → S → S
  tell_deletion orphan failure s =
      if global.json
      then print (fmt (dump (deletion_object orphan failure) ∷ line_end ∷ [])) s
      else elim failure [
        | some reason ↦ print_error (fmt (txt "error: " ∷ reason ∷ line_end ∷ [])) s
        | none ↦ print (fmt (txt "deleted " ∷ path_to_utf8 orphan.path ∷ line_end ∷ [])) s
      ]

  abbrev pub counted : Option Bytes → ℕ → ℕ
  counted none failures = failures
  counted (some reason) failures = suc failures

  -- The loop over the files; `failures` counts those that could not be deleted.
  unfoldable pub delete_each : List Orphan → ℕ → S → ℕ × S
  unfolding delete_one tell_deletion
  delete_each [] failures s = (failures, s)
  delete_each (orphan ∷ orphans) failures s =
      let (failure, s1) = calling (delete_one orphan) s in
      delete_each orphans (counted failure failures) (tell_deletion orphan failure s1)

  -- What delete_orphans prints before it deletes anything.
  unfoldable pub announce : List Orphan → S → S
  unfolding render_orphan_table total_size
  announce orphans s =
      if global.json
      then s
      else print
          (fmt (
            render_orphan_table orphans
            ∷ line_end
            ∷ format_size (total_size orphans)
            ∷ txt " would be freed"
            ∷ line_end
            ∷ docker_warning
            ∷ []))
          s

  unfoldable pub tell_dry_run : List Orphan → S → S
  unfolding json_lines
  tell_dry_run orphans s =
      print
        (if global.json
          then fmt (json_lines dump (map kept_object orphans))
          else fmt (txt "--dry-run: nothing was deleted" ∷ line_end ∷ []))
        s

  -- The deletions themselves, and the exit code.
  unfoldable pub delete_confirmed : List Orphan → S → ℕ × S
  unfolding delete_each not_all_deleted
  delete_confirmed orphans s =
      let (failures, s') = delete_each orphans 0 s in
      if ltb 0 failures
      then report dump (not_all_deleted failures (length orphans)) global s'
      else (exit_code_success, s')

  abbrev pub question : List Orphan → Bytes
  question orphans = fmt (txt "delete " ∷ decimal (length orphans) ∷ txt " file(s)?" ∷ [])

  module _ (confirm : Bytes → S → Bool × S) where
    -- `assume_yes`, or the user's answer.
    unfoldable pub agreed : List Orphan → S → Bool × S
    agreed orphans s = if global.assume_yes then (true, s) else confirm (question orphans) s

    unfoldable pub delete_some : List Orphan → S → ℕ × S
    unfolding announce tell_dry_run agreed delete_confirmed
    delete_some orphans s =
        let s1 = announce orphans s in
        if global.dry_run
        then (exit_code_success, tell_dry_run orphans s1)
        else (let (yes_please, s2) = agreed orphans s1 in
            if yes_please then delete_confirmed orphans s2 else (
              exit_code_success,
              if global.json
                  then s2
                  else print (fmt (txt "nothing was deleted" ∷ line_end ∷ [])) s2,
            ))

    unfoldable pub delete_orphans : List Orphan → S → ℕ × S
    unfolding delete_some
    delete_orphans [] s = (
      exit_code_success,
      if global.json then s else print (fmt (txt "nothing to delete" ∷ line_end ∷ [])) s,
    )
    delete_orphans (orphan ∷ orphans) s = delete_some (orphan ∷ orphans) s

  module _ (narrow_path : Bytes → FilePath) (config : Config) where
    abbrev verbose_all : List Bytes → S → S
    verbose_all [] s = s
    verbose_all (note ∷ notes) s = verbose_all notes (log (verbose note) s)

    -- The roots that are built in, those of the configuration, and those of the command line.
    abbrev patterns_of : List FilePath → OrphansOptions → List FilePath
    patterns_of patterns options =
        patterns ++ (map narrow_path config.scan_dirs ++ map narrow_path options.scan_dirs)

    unfoldable pub scan_orphans : OrphansOptions → S → Result (List Orphan) × S
    scan_orphans options s =
        let (found, s1) = calling (enumerate P) s in
        elim found [
          | err e ↦ (err e, s1)
          | ok distros ↦
              let (patterns, s2) =
                calling (default_scan_patterns P) (warn_all distros.warnings s1) in
              elim patterns [
                | err e ↦ (err e, s2)
                | ok roots ↦
                    let scanned = find_orphans P distros (patterns_of roots options) [] s2.world in
                    (ok scanned.0, verbose_all scanned.1 (record s2 { world = scanned.2 }))
              ]
        ]

    -- run_orphans where nothing is to be deleted.
    unfoldable pub list_orphans : List Orphan → Bytes
    unfolding json_lines render_orphan_table total_size
    list_orphans [] =
        if global.json then [] else fmt (txt "no orphaned disks found" ∷ line_end ∷ [])
    list_orphans (orphan ∷ orphans) =
        if global.json
        then fmt (json_lines dump (map orphan_object (orphan ∷ orphans)))
        else fmt (
            render_orphan_table (orphan ∷ orphans)
            ∷ line_end
            ∷ format_size (total_size (orphan ∷ orphans))
            ∷ txt " in "
            ∷ decimal (length (orphan ∷ orphans))
            ∷ txt " file(s) that no distribution claims"
            ∷ line_end
            ∷ [])

    unfoldable pub run_orphans : (Bytes → S → Bool × S) → OrphansOptions → S → ℕ × S
    unfolding scan_orphans delete_orphans list_orphans
    run_orphans confirm options s =
        if relinking options
        then run_relink P dump global narrow_path
            (record { name = options.relink_distro; path = options.relink_path }) s
        else (let (scanned, s') = scan_orphans options s in
            elim scanned [
              | err e ↦ report dump e global s'
              | ok orphans ↦
                  if options.remove
                  then delete_orphans confirm orphans s'
                  else (exit_code_success, print (list_orphans orphans) s')
            ])
