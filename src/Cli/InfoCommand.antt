-- ===== src/Cli/InfoCommand.antt =====
-- src/cli/info_command.h and info_command.cpp: what is known about one distribution.
use wsldisk.Base.{
  ℕ, zero, suc, ◌+◌, ◌-◌, ◌/◌, ◌%◌, Bytes, txt, fmt, is_empty, decimal, Bool, Option, none, some,
  List, [], ◌∷◌, ◌++◌, ltb, ◌==◌, if◌then◌else◌, map,
}
use wsldisk.Errors.{Result, ok, err, exit_code_success}
use wsldisk.Interfaces.{Platform}
use wsldisk.Model.Size.{format_size}
use wsldisk.Model.Text.{to_utf8, path_to_utf8}
use wsldisk.Model.Distro.{registry_key_for, find_matches}
use wsldisk.Model.DiskInfo.{reclaimable}
use wsldisk.Model.Config.{joined}
use wsldisk.Cli.Session.{JsonObject, text, number, flag, GlobalOptions, Session, print, report}
use wsldisk.Cli.Render.{
  Details, add_line, add_bytes, write_details, number_if_known, flag_if_known, distro_object,
}
use wsldisk.Cli.Lookup.{not_found}
use wsldisk.Cli.ListCommand.{ListRow, gather}

pub record InfoOptions : Type 0 where
  pub name : Bytes
  pub probe : Bool

abbrev line_end : Bytes
line_end = 10 ∷ []

-- The digits of `{:x}`; the fuel, the number itself, exceeds their count.
abbrev hex_digit : ℕ → ℕ
hex_digit d = if ltb d 10 then b'0' + d else b'a' + (d - 10)

hex_onto : ℕ → ℕ → Bytes → Bytes
hex_onto zero n out = out
hex_onto (suc f) n out =
    let more = hex_onto f (n / 16) (hex_digit (n % 16) ∷ out) in
    if ltb n 16 then hex_digit n ∷ out else more

unfoldable pub hex : ℕ → Bytes
unfolding hex_onto
hex n = hex_onto (suc n) n []

-- `flags & bit`, for a power of two.
abbrev pub has_bit : ℕ → ℕ → Bool
has_bit flags bit = flags / bit % 2 == 1

-- `flags & ~7`.
abbrev pub undocumented : ℕ → ℕ
undocumented flags = flags - flags % 8

unfoldable pub flag_names : ℕ → List Bytes
unfolding hex
flag_names flags =
    (if has_bit flags 1 then txt "interop" ∷ [] else [])
    ++ ((if has_bit flags 2 then txt "append-nt-path" ∷ [] else [])
        ++ ((if has_bit flags 4 then txt "drive-mounting" ∷ [] else [])
            ++ (if undocumented flags == 0
                then []
                else fmt (txt "undocumented(0x" ∷ hex (undocumented flags) ∷ txt ")" ∷ []) ∷ [])))

unfoldable pub decode_flags : ℕ → Bytes
unfolding flag_names
decode_flags flags = elim (flag_names flags) [
  | [] ↦ txt "none"
  | name ∷ names ↦ joined (name ∷ names)
]

abbrev running_state : Option Bool → Bytes
running_state none = txt "-"
running_state (some b) = if b then txt "running" else txt "stopped"

abbrev yes_no : Option Bool → Bytes
yes_no none = txt "-"
yes_no (some b) = if b then txt "yes" else txt "no"

abbrev or_dash : Bytes → Bytes
or_dash value = if is_empty value then txt "-" else value

abbrev with_parent : Bytes → Details → Details
with_parent [] details = details
with_parent (c ∷ path) details = add_line (txt "parent disk") (to_utf8 (c ∷ path)) details

-- What is known from the registry: the first lines.
unfoldable pub registry_details : ListRow → Details
unfolding add_line decode_flags
registry_details row =
    let d = row.distro in
    add_line (txt "flags") (fmt (decimal d.flags ∷ txt " (" ∷ decode_flags d.flags ∷ txt ")" ∷ []))
      (add_line (txt "default uid") (decimal d.default_uid) (
        add_line (txt "os version") (or_dash d.os_version) (
          add_line (txt "flavor") (or_dash d.flavor) (
            add_line (txt "modern layout") (yes_no (some d.modern)) (
              add_line (txt "disk path") (path_to_utf8 d.vhdx_path) (
                add_line (txt "vhd file name")
                  (if is_empty d.vhd_file_name
                    then txt "- (absent; defaults to ext4.vhdx)"
                    else to_utf8 d.vhd_file_name)
                  (add_line (txt "base path") (to_utf8 d.base_path) (
                    add_line (txt "state") (running_state row.running) (
                      add_line (txt "default") (yes_no (some d.is_default)) (
                        add_line (txt "wsl version") (decimal d.version) (
                          add_line (txt "registry key") (to_utf8 (registry_key_for d)) (
                            add_line (txt "guid") d.guid (
                              add_line (txt "name") d.name
                                (record { lines = []; width = 0 }))))))))))))))

-- The lines of the disk and the guest, behind those.
unfoldable pub all_details : ListRow → Details
unfolding registry_details add_bytes add_line reclaimable
all_details row =
    let i = row.info in
    add_bytes (txt "reclaimable") (reclaimable i) (
      add_bytes (txt "guest free") i.guest_free (
        add_bytes (txt "guest used") i.guest_used (
          with_parent i.parent_path (
            add_line (txt "sector size")
              (elim i.sector_size [ none ↦ txt "-" | some n ↦ decimal n ])
              (add_line (txt "block size")
                (elim i.block_size [ none ↦ txt "-" | some n ↦ format_size n ])
                (add_line (txt "sparse") (yes_no i.is_sparse) (
                  add_bytes (txt "allocated") i.allocated_bytes (
                    add_bytes (txt "size on disk") i.size_on_disk (
                      add_bytes (txt "file size") i.file_size (
                        add_bytes (txt "virtual size") i.virtual_size
                          (registry_details row)))))))))))

unfoldable pub note_lines : List Bytes → List Bytes
note_lines [] = []
note_lines (note ∷ notes) = txt "note: " ∷ note ∷ line_end ∷ note_lines notes

unfoldable pub render_details : ListRow → Bytes
unfolding all_details note_lines
render_details row = fmt (write_details (all_details row) ∷ note_lines row.info.notes)

abbrev wide_if_any : Bytes → Bytes → JsonObject
wide_if_any key value = if is_empty value then [] else (key, text (to_utf8 value)) ∷ []

-- The object of render_details_json: that of `list --json`, and what only `info` knows.
unfoldable pub details_object : ListRow → JsonObject
unfolding distro_object decode_flags
details_object row =
    let d = row.distro in
    distro_object d row.info
    ++ ((txt "registry_key", text (to_utf8 (registry_key_for d)))
        ∷ (txt "base_path", text (to_utf8 d.base_path))
        ∷ (txt "modern", flag d.modern)
        ∷ (txt "default_uid", number d.default_uid)
        ∷ (txt "flags", number d.flags)
        ∷ (txt "flags_decoded", text (decode_flags d.flags))
        ∷ (wide_if_any (txt "vhd_file_name") d.vhd_file_name
            ++ (flag_if_known (txt "running") row.running
                ++ (number_if_known (txt "block_size") row.info.block_size
                    ++ (number_if_known (txt "sector_size") row.info.sector_size
                        ++ wide_if_any (txt "parent_path") row.info.parent_path)))))

-- std::ranges::find_if over the rows.
unfoldable pub first_named : Bytes → List ListRow → Option ListRow
first_named name [] = none
first_named name (row ∷ rows) =
    let rest = first_named name rows in if find_matches row.distro name then some row else rest

abbrev pub chosen : Bytes → List ListRow → Result ListRow
chosen name rows = elim (first_named name rows) [
  | some row ↦ ok row
  | none ↦ err (not_found name (map (λ row. row.distro.name) rows))
]

module _ (P : Platform) where
  unfoldable pub gather_one : InfoOptions → Session P.World → Result ListRow × Session P.World
  unfolding first_named
  gather_one options s =
      let (gathered, s') = gather P options.probe options.name s in
      (elim gathered [ err e ↦ err e | ok rows ↦ chosen options.name rows ], s')

  unfoldable pub run_info :
      (JsonObject → Bytes) → InfoOptions → GlobalOptions → Session P.World → ℕ × Session P.World
  unfolding gather_one render_details details_object
  run_info dump options global s =
      let (found, s') = gather_one options s in
      elim found [
        | err e ↦ report dump e global s'
        | ok row ↦ (
          exit_code_success,
          print
              (if global.json
                then fmt (dump (details_object row) ∷ line_end ∷ [])
                else render_details row)
              s',
        )
      ]
