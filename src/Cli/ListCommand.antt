-- ===== src/Cli/ListCommand.antt =====
-- src/cli/list_command.h, list_command.cpp and preflight.cpp.
use wsldisk.Base.{
  ℕ, Bytes, txt, fmt, is_empty, bytes_eq, decimal, Bool, ◌&&◌, ◌||◌, Option, none, some, List, [],
  ◌∷◌, if◌then◌else◌, any,
}
use wsldisk.Errors.{Result, ok, err, to_string, exit_code_success, Status}
use wsldisk.Interfaces.{Platform}
use wsldisk.Model.Text.{path_to_utf8}
use wsldisk.Model.Distro.{Distro, is_wsl2, find_matches, enumerate}
use wsldisk.Model.DiskInfo.{DiskInfo, nothing_measured, reclaimable, measure}
use wsldisk.Ops.Preflight.{wsl1_refusal}
use wsldisk.Cli.Session.{
  JsonObject, GlobalOptions, Session, calling, log, verbose, warn, warn_all, print, report,
}
use wsldisk.Cli.Render.{Cell, no_cell, Table, add_row, render_table, distro_object}

-- require_wsl2 of preflight.cpp.
abbrev pub require_wsl2 : Distro → Status
require_wsl2 distro = if is_wsl2 distro then ok tt else err (wsl1_refusal distro)

pub record ListRow : Type 0 where
  pub distro : Distro
  pub info : DiskInfo
  pub running : Option Bool

-- The default timeout of ProbeOptions, in milliseconds.
abbrev guest_timeout : ℕ
guest_timeout = 30000

abbrev verbose_all : {W : Type 0} → List Bytes → Session W → Session W
verbose_all [] s = s
verbose_all (note ∷ notes) s = verbose_all notes (log (verbose note) s)

abbrev pub is_running : Result (List Bytes) → Distro → Option Bool
is_running (err e) distro = none
is_running (ok names) distro = some (any (λ n. bytes_eq n distro.name) names)

abbrev pub probes : Bool → Bytes → Distro → Bool
probes probe probe_only distro = probe && (is_empty probe_only || find_matches distro probe_only)

module _ (P : Platform) where
  unfoldable pub gather_row :
      Bool → Bytes → Result (List Bytes) → Distro → Session P.World → ListRow × Session P.World
  unfolding measure
  gather_row probe probe_only running distro s =
      if is_wsl2 distro
      then (let (info, s') =
            calling
              (measure P distro (record {
                probe_guest = probes probe probe_only distro;
                guest_timeout = guest_timeout;
              }))
              s in
          (
            record { distro = distro; info = info; running = is_running running distro },
            verbose_all info.notes s',
          ))
      else (
        record { distro = distro; info = nothing_measured; running = is_running running distro },
        s,
      )

  unfoldable pub gather_rows :
      Bool
      → Bytes
      → Result (List Bytes)
      → List Distro
      → Session P.World
      → List ListRow × Session P.World
  unfolding gather_row
  gather_rows probe probe_only running [] s = ([], s)
  gather_rows probe probe_only running (distro ∷ distros) s =
      let (row, s1) = gather_row probe probe_only running distro s in
      let (rows, s2) = gather_rows probe probe_only running distros s1 in (row ∷ rows, s2)

  abbrev warn_of : Result (List Bytes) → Session P.World → Session P.World
  warn_of (err e) s = log (warn (to_string e)) s
  warn_of (ok names) s = s

  unfoldable pub gather : Bool → Bytes → Session P.World → Result (List ListRow) × Session P.World
  unfolding gather_rows
  gather probe probe_only s =
      let (found, s1) = calling (enumerate P) s in
      elim found [
        | err e ↦ (err e, s1)
        | ok distros ↦
            let (running, s2) = calling P.running (warn_all distros.warnings s1) in
            let (rows, s3) =
              gather_rows probe probe_only running distros.distros (warn_of running s2) in
            (ok rows, s3)
      ]

  abbrev state_text : Option Bool → Option Bytes
  state_text none = none
  state_text (some b) = some (if b then txt "running" else txt "stopped")

  unfoldable pub row_cells : ListRow → List Cell
  unfolding reclaimable
  row_cells row =
      record no_cell {
        text = some (
            if row.distro.is_default
            then fmt (row.distro.name ∷ txt " *" ∷ [])
            else row.distro.name);
      }
      ∷ record no_cell { text = some (decimal row.distro.version) }
      ∷ record no_cell { text = state_text row.running }
      ∷ record no_cell { bytes = row.info.size_on_disk }
      ∷ record no_cell { bytes = row.info.guest_used }
      ∷ record no_cell { bytes = reclaimable row.info }
      ∷ record no_cell { text = some (path_to_utf8 row.distro.vhdx_path) }
      ∷ []

  abbrev list_headers : List Bytes
  list_headers =
      txt "NAME"
      ∷ txt "VER"
      ∷ txt "STATE"
      ∷ txt "SIZE ON DISK"
      ∷ txt "GUEST USED"
      ∷ txt "RECLAIMABLE"
      ∷ txt "PATH"
      ∷ []

  unfoldable pub with_rows : List ListRow → Table → Table
  unfolding row_cells add_row
  with_rows [] table = table
  with_rows (row ∷ rows) table = with_rows rows (add_row (row_cells row) table)

  -- render_json: one object to a line.
  unfoldable pub json_lines : (JsonObject → Bytes) → List ListRow → List Bytes
  json_lines dump [] = []
  json_lines dump (row ∷ rows) =
      dump (distro_object row.distro row.info) ∷ (10 ∷ []) ∷ json_lines dump rows

  unfoldable pub run_list :
      (JsonObject → Bytes) → Bool → GlobalOptions → Session P.World → ℕ × Session P.World
  unfolding gather with_rows json_lines
  run_list dump probe global s =
      let (gathered, s') = gather probe [] s in
      elim gathered [
        | err e ↦ report dump e global s'
        | ok rows ↦ (
          exit_code_success,
          print
              (if global.json
                then fmt (json_lines dump rows)
                else render_table (with_rows rows (record { headers = list_headers; rows = [] })))
              s',
        )
      ]
