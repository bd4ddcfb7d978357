-- ===== src/Cli/Render.antt =====
-- src/cli/render.h and render.cpp.
use wsldisk.Base.{
  ℕ, suc, ◌+◌, ◌-◌, ◌/◌, Bytes, txt, fmt, is_empty, Bool, true, Option, none, some, List, [], ◌∷◌,
  ◌++◌, ltb, ◌==◌, if◌then◌else◌, length, map,
}
use wsldisk.Model.Size.{format_size}
use wsldisk.Model.Text.{path_to_utf8}
use wsldisk.Model.Distro.{Distro}
use wsldisk.Model.DiskInfo.{DiskInfo, reclaimable}
use wsldisk.Ops.Operation.{Plan, StepPlan, Warning}
use wsldisk.Cli.Session.{JsonObject, text, number, flag, texts, objects, blanks}

-- Continuation bytes are 10xxxxxx.
unfoldable pub display_width : Bytes → ℕ
display_width [] = 0
display_width (c ∷ s) = if c / 64 == 2 then display_width s else suc (display_width s)

pub record Cell : Type 0 where
  pub text : Option Bytes
  pub bytes : Option ℕ
  pub flag : Option Bool

abbrev pub no_cell : Cell
no_cell = record { text = none; bytes = none; flag = none }

abbrev pub unknown : Bytes
unknown = txt "-"

abbrev pub column_gap : ℕ
column_gap = 2

unfoldable pub format_cell : Cell → Bytes
unfolding format_size
format_cell cell = elim cell.text [
  | some t ↦ t
  | none ↦ elim cell.bytes [
    | some n ↦ format_size n
    | none ↦ elim cell.flag [ some b ↦ if b then txt "yes" else txt "no" | none ↦ unknown ]
  ]
]

pub record Table : Type 0 where
  pub headers : List Bytes
  pub rows : List (List Cell)

-- std::vector::resize to the number of headers.
unfoldable pub resized : List Bytes → List Cell → List Cell
resized [] cells = []
resized (h ∷ headers) [] = no_cell ∷ resized headers []
resized (h ∷ headers) (c ∷ cells) = c ∷ resized headers cells

unfoldable pub add_row : List Cell → Table → Table
unfolding resized
add_row cells table = record table { rows = table.rows ++ resized table.headers cells ∷ [] }

-- The widths after a row, column by column.
unfoldable pub widened : List ℕ → List Bytes → List ℕ
widened [] cells = []
widened (w ∷ widths) [] = w ∷ widths
widened (w ∷ widths) (c ∷ cells) =
    (if ltb w (display_width c) then display_width c else w) ∷ widened widths cells

unfoldable pub widths_loop : List ℕ → List (List Bytes) → List ℕ
unfolding widened
widths_loop widths [] = widths
widths_loop widths (row ∷ rows) = widths_loop (widened widths row) rows

-- write_row without the newline: no padding behind the last column.
unfoldable pub padded : List ℕ → List Bytes → List Bytes
unfolding blanks
padded (w ∷ widths) (c ∷ d ∷ cells) =
    c ∷ blanks (w - display_width c + column_gap) ∷ padded widths (d ∷ cells)
padded widths (c ∷ []) = c ∷ []
padded _ _ = []

unfoldable pub write_rows : List ℕ → List (List Bytes) → List Bytes
unfolding padded
write_rows widths [] = []
write_rows widths (row ∷ rows) = (fmt (padded widths row) ++ 10 ∷ []) ∷ write_rows widths rows

unfoldable pub render_table : Table → Bytes
unfolding widths_loop write_rows format_cell
render_table table =
    let body = map (map format_cell) table.rows in
    let widths = widths_loop (map length table.headers) body in
    fmt (write_rows widths (table.headers ∷ body))

pub record Details : Type 0 where
  pub lines : List (Bytes × Bytes)
  pub width : ℕ

unfoldable pub add_line : Bytes → Bytes → Details → Details
add_line key value details = record {
  lines = details.lines ++ (key, value) ∷ [];
  width = if ltb details.width (length key) then length key else details.width;
}

unfoldable pub add_bytes : Bytes → Option ℕ → Details → Details
unfolding add_line
add_bytes key bytes details =
    add_line key (elim bytes [ none ↦ txt "-" | some n ↦ format_size n ]) details

unfoldable pub write_lines : ℕ → List (Bytes × Bytes) → List Bytes
unfolding blanks
write_lines width [] = []
write_lines width ((key, value) ∷ lines) =
    (key ++ b':' ∷ (blanks (width - length key + 1) ++ (value ++ 10 ∷ [])))
    ∷ write_lines width lines

unfoldable pub write_details : Details → Bytes
unfolding write_lines
write_details details = fmt (write_lines details.width details.lines)

abbrev pub number_if_known : Bytes → Option ℕ → JsonObject
number_if_known key none = []
number_if_known key (some n) = (key, number n) ∷ []

abbrev pub flag_if_known : Bytes → Option Bool → JsonObject
flag_if_known key none = []
flag_if_known key (some b) = (key, flag b) ∷ []

abbrev text_if_any : Bytes → Bytes → JsonObject
text_if_any key value = if is_empty value then [] else (key, text value) ∷ []

abbrev notes_if_any : List Bytes → JsonObject
notes_if_any [] = []
notes_if_any (note ∷ notes) = (txt "notes", texts (note ∷ notes)) ∷ []

-- to_json_line of a distribution.
unfoldable pub distro_object : Distro → DiskInfo → JsonObject
unfolding reclaimable
distro_object distro info =
    (txt "name", text distro.name)
    ∷ (txt "guid", text distro.guid)
    ∷ (txt "version", number distro.version)
    ∷ (txt "default", flag distro.is_default)
    ∷ (txt "vhdx_path", text (path_to_utf8 distro.vhdx_path))
    ∷ (text_if_any (txt "flavor") distro.flavor
        ++ (text_if_any (txt "os_version") distro.os_version
            ++ (number_if_known (txt "virtual_size") info.virtual_size
                ++ (number_if_known (txt "file_size") info.file_size
                    ++ (number_if_known (txt "size_on_disk") info.size_on_disk
                        ++ (number_if_known (txt "allocated_bytes") info.allocated_bytes
                            ++ (flag_if_known (txt "sparse") info.is_sparse
                                ++ (number_if_known (txt "guest_used") info.guest_used
                                    ++ (number_if_known (txt "guest_free") info.guest_free
                                        ++ (number_if_known (txt "reclaimable") (reclaimable info)
                                            ++ notes_if_any info.notes))))))))))

abbrev dry_run_lines : List StepPlan → List Bytes
dry_run_lines [] = []
dry_run_lines (step ∷ steps) = txt "  " ∷ step.description ∷ (10 ∷ []) ∷ dry_run_lines steps

abbrev warning_object : Warning → List (Bytes × Bytes)
warning_object warning = (txt "message", warning.message) ∷ (txt "remedy", warning.remedy) ∷ []

unfoldable pub dry_run_object : Plan → Bytes → Bytes → JsonObject
dry_run_object plan subject_key subject =
    (subject_key, text subject)
    ∷ (txt "dry_run", flag true)
    ∷ (txt "steps", texts (map (λ step. step.description) plan.steps))
    ∷ (txt "warnings", objects (map warning_object plan.warnings))
    ∷ []

unfoldable pub render_dry_run : (JsonObject → Bytes) → Plan → Bytes → Bytes → Bool → Bytes
unfolding dry_run_object
render_dry_run dump plan subject_key subject json =
    if json
    then fmt (dump (dry_run_object plan subject_key subject) ∷ (10 ∷ []) ∷ [])
    else fmt (
        txt "--dry-run: nothing was changed. It would have:" ∷ (10 ∷ []) ∷ dry_run_lines plan.steps)
