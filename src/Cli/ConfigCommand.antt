-- ===== src/Cli/ConfigCommand.antt =====
-- src/cli/config_command.h and config_command.cpp: showing and changing the settings. The editor that
-- `edit` opens is an argument, as it is in the source.
pub mod Reading
use wsldisk.Base.{
  ℕ, Bytes, txt, fmt, is_empty, bytes_eq, any, Bool, true, Option, none, some, List, [], ◌∷◌, ◌++◌,
  ◌==◌, ◌&&◌, ◌||◌, if◌then◌else◌,
}
use wsldisk.Errors.{Error, Result, ok, err, to_string, exit_code_success, Status}
use wsldisk.Effects.{M, ◌>>=◌, ◌>>◌}
use wsldisk.WinPath.{FilePath, parent_path}
use wsldisk.Toml.{Toml}
use wsldisk.Interfaces.{Platform}
use wsldisk.Model.Text.{path_to_utf8}
use wsldisk.Model.Config.{
  Config, default_config, config_keys, get_config_value, set_config_value, render_config,
}
use wsldisk.Model.Config.File.{
  WslConfig, empty_wslconfig, config_path, load_config, wslconfig_path, parse_wslconfig,
}
use wsldisk.Cli.Session.{
  JsonObject, text, flag, nested, GlobalOptions, Session, calling, print, log, verbose, warn,
  report,
}
use wsldisk.Cli.Render.{Details, add_line, write_details}

pub record ConfigOptions : Type 0 where
  pub action : Bytes
  pub key : Bytes
  pub value : Bytes

abbrev line_end : Bytes
line_end = 10 ∷ []

abbrev no_details : Details
no_details = record { lines = []; width = 0 }

-- get_config_value(config, key).value_or("").
abbrev pub value_of : Config → Bytes → Bytes
value_of config key = elim (get_config_value config key) [ none ↦ [] | some value ↦ value ]

-- A setting of .wslconfig as a line, or as a member of an object, where it is there.
abbrev entry_if : Bytes → Option Bytes → List (Bytes × Bytes)
entry_if key none = []
entry_if key (some value) = (key, value) ∷ []

unfoldable pub with_lines : List (Bytes × Bytes) → Details → Details
unfolding add_line
with_lines [] details = details
with_lines ((key, value) ∷ lines) details = with_lines lines (add_line key value details)

unfoldable pub settings_in : Config → List Bytes → List (Bytes × Bytes)
settings_in config [] = []
settings_in config (key ∷ keys) = (key, value_of config key) ∷ settings_in config keys

unfoldable pub wslconfig_lines : WslConfig → List (Bytes × Bytes)
wslconfig_lines wsl =
    entry_if (txt "wsl2.defaultVhdSize") wsl.default_vhd_size
    ++ (entry_if (txt "wsl2.vhdSize") wsl.vhd_size ++ entry_if (txt "wsl2.swapFile") wsl.swap_file)

unfoldable pub wslconfig_members : WslConfig → List (Bytes × Bytes)
wslconfig_members wsl =
    entry_if (txt "defaultVhdSize") wsl.default_vhd_size
    ++ (entry_if (txt "vhdSize") wsl.vhd_size ++ entry_if (txt "swapFile") wsl.swap_file)

-- What stands below the settings if .wslconfig has any.
abbrev wslconfig_section : List (Bytes × Bytes) → Bytes
wslconfig_section [] = []
wslconfig_section (line ∷ lines) = fmt (
    line_end
    ∷ txt "from .wslconfig (read-only):"
    ∷ line_end
    ∷ write_details (with_lines (line ∷ lines) no_details)
    ∷ [])

unfoldable pub render_settings : Config → WslConfig → FilePath → Bytes
unfolding with_lines settings_in wslconfig_lines
render_settings config wsl path = fmt (
    path_to_utf8 path
    ∷ line_end
    ∷ line_end
    ∷ write_details (with_lines (settings_in config config_keys) no_details)
    ∷ wslconfig_section (wslconfig_lines wsl)
    ∷ [])

abbrev nested_if_any : Bytes → List (Bytes × Bytes) → JsonObject
nested_if_any key [] = []
nested_if_any key (member ∷ members) = (key, nested (member ∷ members)) ∷ []

-- The object of render_settings_json.
unfoldable pub settings_object : Config → WslConfig → FilePath → JsonObject
unfolding settings_in wslconfig_members
settings_object config wsl path =
    (txt "path", text (path_to_utf8 path))
    ∷ (nested_if_any (txt "settings") (settings_in config config_keys)
        ++ nested_if_any (txt "wslconfig") (wslconfig_members wsl))

abbrev texts_of : List (Bytes × Bytes) → JsonObject
texts_of [] = []
texts_of ((key, value) ∷ lines) = (key, text value) ∷ texts_of lines

-- `key = value`, line by line.
abbrev assignments : List (Bytes × Bytes) → List Bytes
assignments [] = []
assignments ((key, value) ∷ lines) =
    fmt (key ∷ txt " = " ∷ value ∷ line_end ∷ []) ∷ assignments lines

-- The error of setting a key that is not there; `none` if there is no such error.
abbrev refusal : Result Config → Option Error
refusal (ok config) = none
refusal (err e) = some e

module _ (T : Toml) (P : Platform) where
  unfoldable pub read_wslconfig : P.World → WslConfig × P.World
  read_wslconfig w =
      let path = wslconfig_path P w in
      elim path.0 [
        | err e ↦ (empty_wslconfig, path.1)
        | ok file ↦
            let found = P.exists file path.1 in
            let content = P.read_text_file file found.1 in
            if found.0
            then (elim content.0 [ err e ↦ empty_wslconfig | ok t ↦ parse_wslconfig t ], content.1)
            else (empty_wslconfig, found.1)
      ]

  unfoldable pub save : FilePath → Config → M P.World (Unit {0})
  save path config =
      P.create_directories (parent_path path) >> P.write_text_file path (render_config config)

  unfoldable pub editor_command : P.World → Bytes × P.World
  editor_command w =
      let editor = P.expand_environment (txt "%EDITOR%") w in
      elim editor.0 [
        | err e ↦ (txt "notepad", editor.1)
        | ok command ↦
            if bytes_eq command (txt "%EDITOR%") || is_empty command
            then (txt "notepad", editor.1)
            else if any (λ c. c == b' ') (path_to_utf8 command)
            then (let found = P.exists command editor.1 in
                (
                  if found.0
                      then fmt ((34 ∷ []) ∷ path_to_utf8 command ∷ (34 ∷ []) ∷ [])
                      else path_to_utf8 command,
                  found.1,
                ))
            else (path_to_utf8 command, editor.1)
      ]

  -- The configuration that main loads: the defaults, with a warning, if it cannot be read.
  unfoldable pub load_configuration : Session P.World → Config × Session P.World
  load_configuration s =
      let (path, s1) = calling (config_path T P) s in
      elim path [
        | err e ↦ (
          default_config,
          log (warn (fmt (txt "using the built-in defaults: " ∷ to_string e ∷ []))) s1,
        )
        | ok file ↦
            let (loaded, s2) = calling (load_config T P file) s1 in
            elim loaded [
              | ok config ↦ (config, s2)
              | err e ↦ (
                default_config,
                log (warn (fmt (txt "ignoring " ∷ path_to_utf8 file ∷ txt ": " ∷ to_string e ∷ [])))
                    s2,
              )
            ]
      ]

  module _ (dump : JsonObject → Bytes) (global : GlobalOptions) where
    abbrev S : Type 0
    S = Session P.World

    -- What a command prints as it succeeds, as JSON or as text.
    abbrev pub tell : JsonObject → Bytes → S → ℕ × S
    tell object line s = (
      exit_code_success,
      print (if global.json then fmt (dump object ∷ line_end ∷ []) else line) s,
    )

    unfoldable pub run_get : Config → Bytes → S → ℕ × S
    unfolding settings_in
    run_get config key s =
        if is_empty key
        then tell (texts_of (settings_in config config_keys))
            (fmt (assignments (settings_in config config_keys))) s
        else elim (get_config_value config key) [
          | none ↦ elim (refusal (set_config_value config key [])) [
            | none ↦ (exit_code_success, s)
            | some e ↦ report dump e global s
          ]
          | some value ↦
              tell ((txt "key", text key) ∷ (txt "value", text value) ∷ [])
                (fmt (value ∷ line_end ∷ [])) s
        ]

    unfoldable pub run_set : Config → Bytes → Bytes → FilePath → S → ℕ × S
    unfolding save
    run_set config key value path s = elim (set_config_value config key value) [
      | err e ↦ report dump e global s
      | ok changed ↦
          let stored = value_of changed key in
          if global.dry_run
          then tell
              ((txt "path", text (path_to_utf8 path))
                ∷ (txt "dry_run", flag true)
                ∷ (txt "key", text key)
                ∷ (txt "value", text stored)
                ∷ [])
              (fmt (
                txt "--dry-run: "
                ∷ path_to_utf8 path
                ∷ txt " was not changed. It would have set "
                ∷ key
                ∷ txt " = "
                ∷ stored
                ∷ line_end
                ∷ []))
              s
          else (let (written, s') = calling (save path changed) s in
              elim written [
                | err e ↦ report dump e global s'
                | ok u ↦
                    tell ((txt "key", text key) ∷ (txt "value", text stored) ∷ [])
                      (fmt (key ∷ txt " = " ∷ stored ∷ line_end ∷ [])) s'
              ])
    ]

    -- What run_edit does once the file is there.
    unfoldable pub open_file : (FilePath → P.World → Status × P.World) → FilePath → S → ℕ × S
    open_file launch path s =
        if global.dry_run
        then tell ((txt "path", text (path_to_utf8 path)) ∷ (txt "dry_run", flag true) ∷ [])
            (fmt (txt "--dry-run: would open " ∷ path_to_utf8 path ∷ line_end ∷ [])) s
        else (let (opened, s') = calling (launch path) s in
            elim opened [ err e ↦ report dump e global s' | ok u ↦ (exit_code_success, s') ])

    unfoldable pub run_edit :
        (FilePath → P.World → Status × P.World) → Config → FilePath → S → ℕ × S
    unfolding save open_file
    run_edit launch config path s =
        let (found, s1) = calling (P.exists path) s in
        if found
        then open_file launch path s1
        else (let (written, s2) = calling (save path config) s1 in
            elim written [ err e ↦ report dump e global s2 | ok u ↦ open_file launch path s2 ])

    -- run_config once the file is read.
    unfoldable pub act :
        (FilePath → P.World → Status × P.World) → ConfigOptions → Config → FilePath → S → ℕ × S
    unfolding run_get run_set run_edit read_wslconfig render_settings settings_object
    act launch options config path s =
        if bytes_eq options.action (txt "get")
        then run_get config options.key s
        else if bytes_eq options.action (txt "set")
        then run_set config options.key options.value path s
        else if bytes_eq options.action (txt "edit")
        then run_edit launch config path s
        else (let (wsl, s') = calling read_wslconfig s in
            tell (settings_object config wsl path) (render_settings config wsl path) s')

    unfoldable pub run_config : (FilePath → P.World → Status × P.World) → ConfigOptions → S → ℕ × S
    unfolding act
    run_config launch options s =
        let (found, s1) = calling (config_path T P) s in
        elim found [
          | err e ↦ report dump e global s1
          | ok path ↦
              if bytes_eq options.action (txt "path")
              then tell ((txt "path", text (P.path_string path)) ∷ [])
                  (fmt (P.path_string path ∷ line_end ∷ [])) s1
              else (let (loaded, s2) = calling (load_config T P path) s1 in
                  elim loaded [
                    | err e ↦ report dump e global s2
                    | ok config ↦
                        act launch options config path
                          (log (verbose (fmt (txt "read " ∷ P.path_string path ∷ []))) s2)
                  ])
        ]
