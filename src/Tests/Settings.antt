-- ===== src/Tests/Settings.antt =====
-- The settings, the catalogue, and the measurements, on small inputs.
use wsldisk.Base.{
  ℕ, map, ◌+◌, Bytes, txt, fmt, bytes_eq, starts_with, decimal, true, false, none, some, List, [],
  ◌∷◌, ◌++◌, ◌≡◌, ◌↔◌, refl, if◌then◌else◌, ◌==◌, from_chars, All, InOrder, length, arith,
}
use wsldisk.Errors.{ok}
use wsldisk.Toml.{Toml, parsed}
use wsldisk.Model.Config.{
  Config, default_config, unlock_timeout_key, set_config_value, get_config_value, parse_seconds,
}
use wsldisk.Model.Config.File.{parse_config}
use wsldisk.Model.Config.Settings.{
  IsValid, within, parse_seconds-within, parse_config-IsValid, set_config_value-get_config_value,
}
use wsldisk.Model.Catalogue.{CacheEntry, path_contains, parse_catalogue}
use wsldisk.Model.Catalogue.Nesting.{IsMeasurable, path_contains_iff, parse_catalogue-IsMeasurable}
use wsldisk.Model.DiskInfo.{ProbeOptions, measure}
use wsldisk.Model.DiskInfo.Measured.{lacking, measure_accounts}
use wsldisk.Ops.Usage.{UsageDirectory, breakdown, home_directories, attribute, lines_of}
use mathlib.Core.List.{Perm}
use wsldisk.Ops.Usage.Arranged.{Larger, IsWithoutRoot, shown, breakdown-IsArranged}
use wsldisk.Ops.Usage.Homes.{Before, Has, Named, home_directories-IsSet}
use wsldisk.Tests.Machine.{machine, ubuntu, registered}

parse_seconds-within_example : parse_seconds (txt "3601") ≡ within 3600 (from_chars (txt "3601"))
parse_seconds-within_example = parse_seconds-within (txt "3601")

abbrev two_minutes : Config
two_minutes = record default_config { unlock_timeout_seconds = 120 }

-- A document with one cache entry, of one path.
abbrev pub document : Toml
document = record {
  Node = ℕ;
  parse = λ text. parsed 0;
  at_path = λ node key. none;
  field = λ node key.
      if bytes_eq key (txt "cache")
      then some 1
      else if bytes_eq key (txt "path")
      then some 3
      else if bytes_eq key (txt "label")
      then some 4
      else if bytes_eq key (txt "safe")
      then some 5
      else none;
  as_array = λ node. if node == 1 then some (2 ∷ []) else none;
  as_table = λ node. some node;
  as_string = λ node.
      if node == 3
      then some (txt "/var/cache/apt")
      else if node == 4
      then some (txt "apt")
      else none;
  as_boolean = λ node. if node == 5 then some true else none;
  string_value = λ node. none;
  bool_value = λ node. none;
  uint32_value = λ node. none;
}

parse_config-IsValid_example : IsValid default_config
unfolding parse_config
parse_config-IsValid_example = parse_config-IsValid document (txt "") {config = default_config} refl

set_config_value-get_config_value_example :
    set_config_value two_minutes unlock_timeout_key (txt "120") ≡ ok two_minutes
unfolding get_config_value bytes_eq txt decimal
set_config_value-get_config_value_example =
    set_config_value-get_config_value two_minutes unlock_timeout_key {value = txt "120"}
      (omega arith) refl refl

path_contains_iff_example :
    (path_contains (txt "/var/log") (txt "/var/log/journal") ≡ true)
    ↔ ((rest : Bytes) × (txt "/var/log/journal" ≡ txt "/var/log" ++ b'/' ∷ rest))
path_contains_iff_example = path_contains_iff (txt "/var/log") (txt "/var/log/journal")

abbrev apt : CacheEntry
apt = record { path = txt "/var/cache/apt"; label = txt "apt"; safe = true; note = [] }

parse_catalogue-IsMeasurable_example : All IsMeasurable (apt ∷ [])
unfolding parse_catalogue bytes_eq txt starts_with
parse_catalogue-IsMeasurable_example =
    parse_catalogue-IsMeasurable document (txt "") {catalogue = apt ∷ []} refl

abbrev asking : ProbeOptions
asking = record { probe_guest = false; guest_timeout = 30000 }

measure_accounts_example :
    if (machine.exists ubuntu.vhdx_path (registered true)).0
    then lacking (measure machine ubuntu asking (registered true)).0
      ≡ length (measure machine ubuntu asking (registered true)).0.notes
    else lacking (measure machine ubuntu asking (registered true)).0
      ≡ length (measure machine ubuntu asking (registered true)).0.notes + 4
measure_accounts_example = measure_accounts machine ubuntu asking (registered true)

abbrev directory : Bytes → ℕ → UsageDirectory
directory path bytes = record {
  path = path;
  bytes = bytes;
  depth = 1;
  attributed_bytes = 0;
  attributed_to = [];
}

abbrev two_rows : ℕ
two_rows = 2

abbrev found : List UsageDirectory
found = directory (txt "/etc") 10 ∷ directory (txt "/var") 30 ∷ directory (txt "/usr") 20 ∷ []

breakdown-IsArranged_example :
    (kept left_out : List UsageDirectory) × IsWithoutRoot found kept
    × Perm (breakdown two_rows [] found ++ left_out) (map (attribute []) kept)
    × InOrder Larger (breakdown two_rows [] found ++ left_out)
    × (length (breakdown two_rows [] found) ≡ shown two_rows (length kept))
breakdown-IsArranged_example = breakdown-IsArranged two_rows [] found

abbrev passwd : Bytes
passwd = fmt (
    txt "root:x:0:0::/root:/bin/sh"
    ∷ (10 ∷ [])
    ∷ txt "bin:x:1:1::/:/bin/false"
    ∷ (10 ∷ [])
    ∷ txt "ada:x:1000:1000::/home/ada:/bin/sh"
    ∷ [])

home_directories-IsSet_example :
    InOrder Before (home_directories passwd)
    × ((home : Bytes) → Has (home_directories passwd) home ↔ Named (lines_of passwd) home)
home_directories-IsSet_example = home_directories-IsSet passwd
