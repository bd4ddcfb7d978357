-- ===== src/Cli/UsageCommand.antt =====
-- src/cli/usage_command.h and usage_command.cpp: where the space inside a distribution went.
use wsldisk.Base.{
  ℕ, Bytes, txt, fmt, is_empty, any, Bool, true, none, some, List, [], ◌∷◌, ◌++◌, ltb, ◌||◌, not,
  if◌then◌else◌, map,
}
use wsldisk.Errors.{ok, err, exit_code_success}
use wsldisk.Interfaces.{Platform}
use wsldisk.Model.Size.{format_size}
use wsldisk.Model.Catalogue.{CacheEntry}
use wsldisk.Ops.Operation.{Event, message}
use wsldisk.Ops.Usage.{UsageEntry, UsageDirectory, UsageReport, UsageOptions}
use wsldisk.Ops.Usage.Measure.{measure, empty_report}
use wsldisk.Cli.Session.{
  JsonObject, Scalar, word, count, truth, text, number, flag, texts, records, GlobalOptions,
  Session, print, print_error, report,
}
use wsldisk.Cli.Render.{no_cell, Table, add_row, render_table}
use wsldisk.Cli.Lookup.{find_distro}

pub record UsageCommandOptions : Type 0 where
  pub name : Bytes
  pub top : ℕ
  pub by_directory : Bool
  pub depth : ℕ

abbrev line_end : Bytes
line_end = 10 ∷ []

-- The default timeout of UsageOptions, in milliseconds.
abbrev usage_timeout : ℕ
usage_timeout = 300000

unfoldable pub with_entries : List UsageEntry → Table → Table
unfolding add_row
with_entries [] table = table
with_entries (entry ∷ entries) table = with_entries entries (
    add_row
      (record no_cell { bytes = some entry.bytes }
        ∷ record no_cell { text = some entry.label }
        ∷ record no_cell { flag = some entry.safe }
        ∷ record no_cell { text = some entry.path }
        ∷ [])
      table)

unfoldable pub with_directories : List UsageDirectory → Table → Table
unfolding add_row
with_directories [] table = table
with_directories (d ∷ directories) table = with_directories directories (
    add_row
      (record no_cell { bytes = some d.bytes }
        ∷ record no_cell { text = some d.path }
        ∷ record no_cell {
          bytes = if ltb 0 d.attributed_bytes then some d.attributed_bytes else none;
        }
        ∷ record no_cell { text = if is_empty d.attributed_to then none else some d.attributed_to }
        ∷ [])
      table)

abbrev entries_part : Bytes → List UsageEntry → Bytes
entries_part distribution [] =
    fmt (distribution ∷ txt ": nothing in the cache catalogue is using space" ∷ line_end ∷ [])
entries_part distribution (entry ∷ entries) = fmt (
    render_table (
      with_entries (entry ∷ entries) (record {
        headers = txt "SIZE" ∷ txt "WHAT" ∷ txt "CLEARABLE" ∷ txt "PATH" ∷ [];
        rows = [];
      }))
    ∷ line_end
    ∷ [])

abbrev unclear_part : List UsageEntry → Bytes
unclear_part entries =
    if any (λ entry. not entry.safe) entries
    then fmt (
        txt
          "rows marked no hold things wsldisk cannot judge -- images you built, logs something may be reading"
        ∷ line_end
        ∷ [])
    else []

unfoldable pub nesting_lines : List UsageEntry → List Bytes
nesting_lines [] = []
nesting_lines (entry ∷ entries) =
    let rest = nesting_lines entries in
    if entry.contains_others
    then entry.path
      ∷ txt " contains other rows above; its size is not added twice"
      ∷ line_end
      ∷ rest
    else rest

abbrev directories_part : List UsageDirectory → Bytes
directories_part [] = []
directories_part (d ∷ directories) = fmt (
    line_end
    ∷ render_table (
        with_directories (d ∷ directories) (record {
          headers = txt "SIZE" ∷ txt "DIRECTORY" ∷ txt "OF WHICH KNOWN" ∷ txt "LARGEST KNOWN" ∷ [];
          rows = [];
        }))
    ∷ line_end
    ∷ txt
        "directories are the whole guest, not extra findings. `of which known` is how much of each row the table above already showed"
    ∷ line_end
    ∷ [])

unfoldable pub note_lines : List Bytes → List Bytes
note_lines [] = []
note_lines (note ∷ notes) = txt "note: " ∷ note ∷ line_end ∷ note_lines notes

unfoldable pub render_usage : UsageReport → Bytes
unfolding with_entries with_directories nesting_lines note_lines
render_usage report = fmt (
    entries_part report.distribution report.entries
    ∷ format_size report.counted
    ∷ txt " found, of "
    ∷ format_size report.guest_used
    ∷ txt " the guest reports in use"
    ∷ line_end
    ∷ unclear_part report.entries
    ∷ fmt (nesting_lines report.entries)
    ∷ directories_part report.directories
    ∷ note_lines report.notes)

abbrev word_if_any : Bytes → Bytes → List (Bytes × Scalar)
word_if_any key value = if is_empty value then [] else (key, word value) ∷ []

abbrev entry_object : UsageEntry → List (Bytes × Scalar)
entry_object entry =
    (txt "path", word entry.path)
    ∷ (txt "label", word entry.label)
    ∷ (txt "bytes", count entry.bytes)
    ∷ (txt "safe", truth entry.safe)
    ∷ (txt "contains_others", truth entry.contains_others)
    ∷ word_if_any (txt "note") entry.note

abbrev directory_object : UsageDirectory → List (Bytes × Scalar)
directory_object d =
    (txt "path", word d.path)
    ∷ (txt "bytes", count d.bytes)
    ∷ (txt "depth", count d.depth)
    ∷ (txt "attributed_bytes", count d.attributed_bytes)
    ∷ word_if_any (txt "attributed_to") d.attributed_to

abbrev directories_if_any : List UsageDirectory → JsonObject
directories_if_any [] = []
directories_if_any (d ∷ directories) =
    (txt "directories", records (map directory_object (d ∷ directories))) ∷ []

abbrev notes_if_any : List Bytes → JsonObject
notes_if_any [] = []
notes_if_any (note ∷ notes) = (txt "notes", texts (note ∷ notes)) ∷ []

-- The object of render_usage_json.
unfoldable pub usage_object : UsageReport → JsonObject
usage_object report =
    (txt "distribution", text report.distribution)
    ∷ (txt "guest_used", number report.guest_used)
    ∷ (txt "guest_free", number report.guest_free)
    ∷ (txt "counted", number report.counted)
    ∷ (txt "entries", records (map entry_object report.entries))
    ∷ (directories_if_any report.directories ++ notes_if_any report.notes)

abbrev only_reads : Bytes
only_reads = txt "usage only reads; there is nothing it would have changed"

abbrev dry_run_object : Bytes → JsonObject
dry_run_object name =
    (txt "distribution", text name)
    ∷ (txt "dry_run", flag true)
    ∷ (txt "note", text only_reads)
    ∷ []

-- The calls of the note, which are all the sink's calls of a measurement.
unfoldable pub measuring_lines : List Event → List Bytes
measuring_lines [] = []
measuring_lines (message path ∷ events) =
    txt "  measuring " ∷ path ∷ line_end ∷ measuring_lines events
measuring_lines (_ ∷ events) = measuring_lines events

module _ (P : Platform) (catalogue : List CacheEntry) (dump : JsonObject → Bytes)
    (global : GlobalOptions) where
  abbrev S : Type 0
  S = Session P.World

  abbrev options_of : UsageCommandOptions → UsageOptions
  options_of options = record {
    top = options.top;
    by_directory = options.by_directory;
    depth = options.depth;
    timeout = usage_timeout;
  }

  unfoldable pub run_usage : UsageCommandOptions → S → ℕ × S
  unfolding render_usage usage_object measuring_lines
  run_usage options s =
      let (found, s1) = find_distro P options.name s in
      elim found [
        | err e ↦ report dump e global s1
        | ok distro ↦
            if global.dry_run
            then (
              exit_code_success,
              print
                  (if global.json
                    then fmt (dump (dry_run_object options.name) ∷ line_end ∷ [])
                    else fmt (only_reads ∷ line_end ∷ []))
                  s1,
            )
            else (let r =
                  measure P catalogue distro (options_of options)
                    (record { world = s1.world; events = []; self = empty_report distro.name }) in
                let s2 =
                  print_error
                    (if global.verbose || global.json then fmt (measuring_lines r.1.events) else [])
                    (record s1 { world = r.1.world }) in
                elim r.0 [
                  | err e ↦ report dump e global s2
                  | ok measured ↦ (
                    exit_code_success,
                    print
                        (if global.json
                          then fmt (dump (usage_object measured) ∷ line_end ∷ [])
                          else render_usage measured)
                        s2,
                  )
                ])
      ]
