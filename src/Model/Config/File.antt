-- ===== src/Model/Config/File.antt =====
-- src/lib/model/config.cpp: reading config.toml and .wslconfig.
use wsldisk.Base.{
  ℕ, Bytes, txt, fmt, is_empty, bytes_eq, decimal, Bool, false, Option, none, some, List, [], ◌∷◌,
  ltb, ◌==◌, ◌||◌, if◌then◌else◌, split, cut_at,
}
use wsldisk.Errors.{Error, usage, Result, ok, err}
use wsldisk.Effects.{M, ◌>>=◌, pure, from_result}
use wsldisk.WinPath.{FilePath, ◌//◌}
use wsldisk.Toml.{Toml, ParseError, parsed, thrown}
use wsldisk.Interfaces.{Platform}
use wsldisk.Model.Config.{
  Config, default_config, trimmed, scan_dirs_key, compact_trim_key, compact_restart_key,
  unlock_timeout_key, max_unlock_timeout_seconds,
}

unfoldable pub wrong_type : Bytes → Bytes → Error
wrong_type key type_name = record {
  code = usage;
  message = fmt (key ∷ txt " is not a " ∷ type_name ∷ []);
  remedy = txt "check the value's type, or delete the line to use the default";
}

unfoldable pub not_toml : ParseError → Error
not_toml e = record {
  code = usage;
  message = fmt (
      txt "config.toml is not valid TOML at line "
      ∷ decimal e.line
      ∷ txt ", column "
      ∷ decimal e.column
      ∷ txt ": "
      ∷ e.description
      ∷ []);
  remedy = txt "fix that line, or delete the file to start again from the defaults";
}

unfoldable pub timeout_too_long : ℕ → Error
timeout_too_long seconds = record {
  code = usage;
  message = fmt (
      unlock_timeout_key
      ∷ txt " is "
      ∷ decimal seconds
      ∷ txt ", which is more than the "
      ∷ decimal max_unlock_timeout_seconds
      ∷ txt " second maximum"
      ∷ []);
  remedy =
      txt
        "the utility VM releases the disk about a minute after the last distribution stops, and never while one is running; use a value under an hour";
}

module _ (T : Toml) where
  -- read_into: what the setting is then, `target` if the key is absent.
  unfoldable pub read_into :
      {A : Type 0} → (T.Node → Option A) → Bytes → T.Node → Bytes → A → Result A
  unfolding wrong_type
  read_into value type_name table key target = elim (T.at_path table key) [
    | none ↦ ok target
    | some node ↦ elim (value node) [ none ↦ err (wrong_type key type_name) | some a ↦ ok a ]
  ]

  unfoldable pub strings_in : List T.Node → List Bytes
  strings_in [] = []
  strings_in (node ∷ nodes) =
      let rest = strings_in nodes in elim (T.string_value node) [ none ↦ rest | some s ↦ s ∷ rest ]

  -- An array's strings; anything else under the key is passed over.
  unfoldable pub read_dirs : T.Node → List Bytes
  unfolding strings_in
  read_dirs table = elim (T.at_path table scan_dirs_key) [
    | none ↦ []
    | some node ↦ elim (T.as_array node) [ none ↦ [] | some nodes ↦ strings_in nodes ]
  ]

  -- The last check of parse_config.
  unfoldable pub checked : Config → Result Config
  unfolding timeout_too_long
  checked config =
      if ltb max_unlock_timeout_seconds config.unlock_timeout_seconds
      then err (timeout_too_long config.unlock_timeout_seconds)
      else ok config

  unfoldable pub read_table : T.Node → Result Config
  unfolding read_into read_dirs checked
  read_table table =
      elim (read_into T.bool_value (txt "true or false") table compact_trim_key
        default_config.compact_trim) [
          | err e ↦ err e
          | ok trim ↦
              elim (read_into T.bool_value (txt "true or false") table compact_restart_key
                default_config.compact_restart) [
                  | err e ↦ err e
                  | ok restart ↦
                      elim (read_into T.uint32_value (txt "whole number") table unlock_timeout_key
                        default_config.unlock_timeout_seconds) [
                          | err e ↦ err e
                          | ok seconds ↦ checked (record {
                            scan_dirs = read_dirs table;
                            compact_trim = trim;
                            compact_restart = restart;
                            unlock_timeout_seconds = seconds;
                          })
                        ]
                ]
        ]

  unfoldable pub parse_config : Bytes → Result Config
  unfolding read_table not_toml
  parse_config text = elim (T.parse text) [
    | thrown e ↦ err (not_toml e)
    | parsed table ↦ read_table table
  ]

  module _ (P : Platform) where
    unfoldable pub config_path : M P.World FilePath
    config_path = P.expand_environment (txt "%APPDATA%") >>= λ appdata.
        pure (appdata // txt "wsldisk" // txt "config.toml")

    -- A missing file is the defaults.
    unfoldable pub load_config : FilePath → M P.World Config
    unfolding parse_config
    load_config path w =
        let found = P.exists path w in
        if found.0
        then (P.read_text_file path >>= λ text. from_result (parse_config text)) found.1
        else (ok default_config, found.1)

pub record WslConfig : Type 0 where
  pub default_vhd_size : Option Bytes
  pub vhd_size : Option Bytes
  pub swap_file : Option Bytes

abbrev pub empty_wslconfig : WslConfig
empty_wslconfig = record { default_vhd_size = none; vhd_size = none; swap_file = none }

-- A setting inside [wsl2].
unfoldable pub set_wsl2 : Bytes → Bytes → WslConfig → WslConfig
set_wsl2 name value config =
    if bytes_eq name (txt "defaultVhdSize")
    then record config { default_vhd_size = some value }
    else if bytes_eq name (txt "vhdSize")
    then record config { vhd_size = some value }
    else if bytes_eq name (txt "swapFile")
    then record config { swap_file = some value }
    else config

abbrev first_is : Bytes → ℕ → Bool
first_is [] c = false
first_is (x ∷ s) c = x == c

-- One line, trimmed, of parse_wslconfig: the configuration, and whether the section is [wsl2].
unfoldable pub wslconfig_line : Bytes → WslConfig → Bool → WslConfig × Bool
unfolding set_wsl2
wslconfig_line line config in_wsl2 =
    if is_empty line || (first_is line b'#' || first_is line b';')
    then (config, in_wsl2)
    else if first_is line b'['
    then (config, bytes_eq line (txt "[wsl2]"))
    else if in_wsl2
    then elim (cut_at b'=' line) [
      | none ↦ (config, in_wsl2)
      | some (name, value) ↦ (set_wsl2 (trimmed name) (trimmed value) config, in_wsl2)
    ]
    else (config, in_wsl2)

wslconfig_loop : List Bytes → WslConfig → Bool → WslConfig
unfolding wslconfig_line
wslconfig_loop [] config in_wsl2 = config
wslconfig_loop (line ∷ lines) config in_wsl2 =
    let (config', in_wsl2') = wslconfig_line (trimmed line) config in_wsl2 in
    wslconfig_loop lines config' in_wsl2'

unfoldable pub parse_wslconfig : Bytes → WslConfig
unfolding wslconfig_loop
parse_wslconfig text = wslconfig_loop (split text 10) empty_wslconfig false

module _ (P : Platform) where
  unfoldable pub wslconfig_path : M P.World FilePath
  wslconfig_path =
      P.expand_environment (txt "%USERPROFILE%") >>= λ profile. pure (profile // txt ".wslconfig")
