-- ===== src/Model/DiskInfo.antt =====
-- src/lib/model/disk_info.h and disk_info.cpp: measuring one disk, from the host and from the guest.
pub mod Measured
use wsldisk.Base.{
  ℕ, ◌+◌, ◌-◌, ◌%◌, ◌^◌, Bytes, txt, fmt, is_empty, Bool, true, false, not, ◌&&◌, Option, none,
  some, List, [], ◌∷◌, ◌++◌, leb, if◌then◌else◌, any, bytes_eq, split, ends_with, remove_suffix,
  from_chars,
}
use wsldisk.Base.Int.{decimal_ℤ}
use wsldisk.Errors.{Result, ok, err, to_string}
use wsldisk.WinPath.{Wide}
use wsldisk.Interfaces.{Platform, AllocatedRange, VirtualDiskInfo, WslCommandResult, succeeded}
use wsldisk.Model.Distro.{Distro}

pub record DiskInfo : Type 0 where
  pub virtual_size : Option ℕ
  pub file_size : Option ℕ
  pub size_on_disk : Option ℕ
  pub allocated_bytes : Option ℕ
  pub is_sparse : Option Bool
  pub block_size : Option ℕ
  pub sector_size : Option ℕ
  pub parent_path : Wide
  pub guest_used : Option ℕ
  pub guest_free : Option ℕ
  pub notes : List Bytes

abbrev pub nothing_measured : DiskInfo
nothing_measured = record {
  virtual_size = none;
  file_size = none;
  size_on_disk = none;
  allocated_bytes = none;
  is_sparse = none;
  block_size = none;
  sector_size = none;
  parent_path = [];
  guest_used = none;
  guest_free = none;
  notes = [];
}

unfoldable pub reclaimable : DiskInfo → Option ℕ
reclaimable info = elim info.size_on_disk [
  | none ↦ none
  | some size ↦ elim info.guest_used [
    | none ↦ none
    | some used ↦ some (if leb size used then 0 else size - used)
  ]
]

pub record ProbeOptions : Type 0 where
  pub probe_guest : Bool
  pub guest_timeout : ℕ

pub record GuestUsage : Type 0 where
  pub used : ℕ
  pub available : ℕ

abbrev pub df_trailing_columns : ℕ
df_trailing_columns = 5

abbrev pub guest_df : Bytes
guest_df = txt "/bin/df"

-- The pieces that are not empty.
unfoldable pub tokens_of : List Bytes → List Bytes
tokens_of [] = []
tokens_of (piece ∷ pieces) =
    let rest = tokens_of pieces in if is_empty piece then rest else piece ∷ rest

-- A carriage return belongs to the line's end.
unfoldable pub without_return : Bytes → Bytes
unfolding remove_suffix
without_return text = if ends_with text 13 then remove_suffix text else text

-- The loop of last_row over the lines; `tokens` is the last row so far that is not empty.
unfoldable pub last_row_loop : List Bytes → List Bytes → List Bytes
unfolding tokens_of without_return
last_row_loop [] tokens = tokens
last_row_loop (line ∷ lines) tokens =
    let row = tokens_of (split (without_return line) 32) in
    last_row_loop lines (elim row [ [] ↦ tokens | t ∷ ts ↦ t ∷ ts ])

unfoldable pub last_row : Bytes → List Bytes
unfolding last_row_loop
last_row output = last_row_loop (split output 10) []

-- The fourth and the third column from the right, of a row of five columns or more.
unfoldable pub used_columns : List Bytes → Option (Bytes × Bytes)
used_columns (a ∷ b ∷ c ∷ d ∷ e ∷ []) = some (b, c)
used_columns (a ∷ b ∷ c ∷ d ∷ e ∷ f ∷ row) = used_columns (b ∷ c ∷ d ∷ e ∷ f ∷ row)
used_columns _ = none

unfoldable pub parse_df : Bytes → Option GuestUsage
unfolding last_row used_columns from_chars
parse_df output = elim (used_columns (last_row output)) [
  | none ↦ none
  | some (used, available) ↦ elim (from_chars used) [
    | none ↦ none
    | some u ↦ elim (from_chars available) [
      | none ↦ none
      | some a ↦ some (record { used = u; available = a })
    ]
  ]
]

-- std::accumulate over the ranges, in std::uint64_t.
unfoldable pub total_length : List AllocatedRange → ℕ → ℕ
total_length [] total = total
total_length (range ∷ ranges) total = total_length ranges ((total + range.length) % 2 ^ 64)

abbrev pub noted : DiskInfo → Bytes → DiskInfo
noted info text = record info { notes = info.notes ++ text ∷ [] }

unfoldable pub not_running : Distro → Bytes
not_running distro =
    fmt (distro.name ∷ txt " is not running; pass --probe to start it and read guest usage" ∷ [])

module _ (P : Platform) (distro : Distro) (options : ProbeOptions) where
  -- What the guest's df said.
  unfoldable pub read_probe : WslCommandResult → DiskInfo → DiskInfo
  unfolding parse_df
  read_probe probe info =
      if succeeded probe
      then elim (parse_df probe.standard_output) [
        | none ↦ noted info (fmt (txt "could not read df output from " ∷ distro.name ∷ []))
        | some usage ↦ record info {
          guest_used = some usage.used;
          guest_free = some usage.available;
        }
      ]
      else noted info
          (fmt (txt "df exited " ∷ decimal_ℤ probe.exit_code ∷ txt " in " ∷ distro.name ∷ []))

  unfoldable pub probe_guest : DiskInfo → P.World → DiskInfo × P.World
  unfolding read_probe
  probe_guest info w =
      let probe =
        P.run_as_root distro.name (guest_df ∷ txt "-B1" ∷ txt "/" ∷ []) options.guest_timeout w in
      (
        elim probe.0 [ err e ↦ noted info (to_string e) | ok result ↦ read_probe result info ],
        probe.1,
      )

  unfoldable pub measure_guest : DiskInfo → P.World → DiskInfo × P.World
  unfolding probe_guest not_running
  measure_guest info w =
      let running = P.running w in
      elim running.0 [
        | err e ↦ (noted info (to_string e), running.1)
        | ok names ↦
            if not (any (λ n. bytes_eq n distro.name) names) && not options.probe_guest
            then (noted info (not_running distro), running.1)
            else probe_guest info running.1
      ]

  unfoldable pub measure_file_size : DiskInfo → P.World → DiskInfo × P.World
  measure_file_size info w =
      let size = P.file_size distro.vhdx_path w in
      (
        elim size.0 [
          | err e ↦ noted info (to_string e)
          | ok n ↦ record info { file_size = some n }
        ],
        size.1,
      )

  unfoldable pub measure_on_disk : DiskInfo → P.World → DiskInfo × P.World
  measure_on_disk info w =
      let size = P.file_size_on_disk distro.vhdx_path w in
      (
        elim size.0 [
          | err e ↦ noted info (to_string e)
          | ok n ↦ record info { size_on_disk = some n }
        ],
        size.1,
      )

  unfoldable pub measure_sparse : DiskInfo → P.World → DiskInfo × P.World
  measure_sparse info w =
      let sparse = P.is_sparse distro.vhdx_path w in
      (
        elim sparse.0 [
          | err e ↦ noted info (to_string e)
          | ok b ↦ record info { is_sparse = some b }
        ],
        sparse.1,
      )

  unfoldable pub measure_allocated : DiskInfo → P.World → DiskInfo × P.World
  unfolding total_length
  measure_allocated info w =
      let ranges = P.allocated_ranges distro.vhdx_path w in
      (
        elim ranges.0 [
          | err e ↦ noted info (to_string e)
          | ok found ↦ record info { allocated_bytes = some (total_length found 0) }
        ],
        ranges.1,
      )

  abbrev pub with_disk : DiskInfo → VirtualDiskInfo → DiskInfo
  with_disk info disk = record info {
    virtual_size = some disk.virtual_size;
    block_size = some disk.block_size;
    sector_size = some disk.sector_size;
    parent_path = disk.parent_path;
  }

  -- The handle is closed at the end of its scope.
  unfoldable pub measure_virtual : DiskInfo → P.World → DiskInfo × P.World
  measure_virtual info w =
      let opened = P.open_disk distro.vhdx_path w in
      elim opened.0 [
        | err e ↦ (noted info (to_string e), opened.1)
        | ok handle ↦
            let disk = P.information handle opened.1 in
            (
              elim disk.0 [ err e ↦ noted info (to_string e) | ok found ↦ with_disk info found ],
              P.close handle disk.1,
            )
      ]

  unfoldable pub disk_is_missing : Bytes
  disk_is_missing = fmt (
      P.path_string distro.vhdx_path
      ∷ txt " does not exist -- "
      ∷ distro.name
      ∷ txt " points at a disk that is not there; `wsldisk relink "
      ∷ distro.name
      ∷ txt " <path>` moves the registry entry to where it went"
      ∷ [])

  -- The five measurements of the file, in order.
  unfoldable pub measure_file : DiskInfo → P.World → DiskInfo × P.World
  unfolding measure_file_size measure_on_disk measure_sparse measure_allocated measure_virtual
  measure_file info w =
      let (info1, w1) = measure_file_size info w in
      let (info2, w2) = measure_on_disk info1 w1 in
      let (info3, w3) = measure_sparse info2 w2 in
      let (info4, w4) = measure_allocated info3 w3 in measure_virtual info4 w4

  unfoldable pub measure : P.World → DiskInfo × P.World
  unfolding measure_guest measure_file disk_is_missing
  measure w =
      let found = P.exists distro.vhdx_path w in
      if found.0
      then (let (info, w') = measure_file nothing_measured found.1 in measure_guest info w')
      else measure_guest (noted nothing_measured disk_is_missing) found.1
