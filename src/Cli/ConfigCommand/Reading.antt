-- ===== src/Cli/ConfigCommand/Reading.antt =====
-- src/cli/config_command.cpp: which runs of `config` only read.
use wsldisk.Base.{
  Bytes, txt, fmt, [], ◌∷◌, is_empty, bytes_eq, Bool, true, false, ◌≡◌, ◌⊎◌, ◌∙◌, refl, inl, inr,
  arith, Bool-cases, Option-cases,
}
use wsldisk.Errors.{Result, Result-cases, Status}
use wsldisk.Effects.{◌>>=◌}
use wsldisk.WinPath.{FilePath}
use wsldisk.Toml.{Toml}
use wsldisk.Interfaces.{Platform}
use wsldisk.Model.Config.{Config, get_config_value, set_config_value}
use wsldisk.Model.Config.File.{config_path, load_config, wslconfig_path}
use wsldisk.Cli.Session.{JsonObject, GlobalOptions, Session, log, verbose}
use wsldisk.Cli.OperationCommands.DryRuns.{report-world}
use wsldisk.Cli.ConfigCommand.{
  ConfigOptions, read_wslconfig, refusal, run_get, run_set, act, run_config,
}

module _ (T : Toml) (P : Platform) {X : Type 0} (look : P.World → X)
    (exists_keeps : (path : FilePath) (w : P.World) → look (P.exists path w).1 ≡ look w)
    (expand_keeps : (path : FilePath) (w : P.World) → look (P.expand_environment path w).1 ≡ look w)
    (read_keeps : (path : FilePath) (w : P.World) → look (P.read_text_file path w).1 ≡ look w) where
  config_path-look : (w : P.World) → look (config_path T P w).1 ≡ look w
  unfolding config_path
  config_path-look w = elim (Result-cases (P.expand_environment (txt "%APPDATA%") w).0) [
    | inl (e, h) ↦ rw (◌>>=◌, h) (expand_keeps (txt "%APPDATA%") w)
    | inr (a, h) ↦ rw (◌>>=◌, h) (expand_keeps (txt "%APPDATA%") w)
  ]

  wslconfig_path-look : (w : P.World) → look (wslconfig_path P w).1 ≡ look w
  unfolding wslconfig_path
  wslconfig_path-look w = elim (Result-cases (P.expand_environment (txt "%USERPROFILE%") w).0) [
    | inl (e, h) ↦ rw (◌>>=◌, h) (expand_keeps (txt "%USERPROFILE%") w)
    | inr (a, h) ↦ rw (◌>>=◌, h) (expand_keeps (txt "%USERPROFILE%") w)
  ]

  load_config-look : (path : FilePath) (w : P.World) → look (load_config T P path w).1 ≡ look w
  unfolding load_config
  load_config-look path w =
      let found : Bool × P.World = P.exists path w in
      elim (Bool-cases found.0) [
        | inr h ↦ rw (load_config, h) (exists_keeps path w)
        | inl h ↦ elim (Result-cases (P.read_text_file path found.1).0) [
          | inl (e, h') ↦
              rw (load_config, h, ◌>>=◌, h') (read_keeps path found.1 ∙ exists_keeps path w)
          | inr (a, h') ↦
              rw (load_config, h, ◌>>=◌, h') (read_keeps path found.1 ∙ exists_keeps path w)
        ]
      ]

  read_wslconfig-look : (w : P.World) → look (read_wslconfig T P w).1 ≡ look w
  unfolding read_wslconfig
  read_wslconfig-look w =
      let path : Result FilePath × P.World = wslconfig_path P w in
      elim (Result-cases path.0) [
        | inl (e, h) ↦ rw (read_wslconfig, h) (wslconfig_path-look w)
        | inr (file, h) ↦ elim (Bool-cases (P.exists file path.1).0) [
          | inr h' ↦ rw (read_wslconfig, h, h') (exists_keeps file path.1 ∙ wslconfig_path-look w)
          | inl h' ↦
              rw (read_wslconfig, h, h')
                (read_keeps file (P.exists file path.1).1
                  ∙ (exists_keeps file path.1 ∙ wslconfig_path-look w))
        ]
      ]

  module _ (dump : JsonObject → Bytes) (global : GlobalOptions) where
    abbrev S : Type 0
    S = Session P.World

    run_get-world :
        (config : Config) (key : Bytes) (s : S)
        → (run_get T P dump global config key s).1.world ≡ s.world
    unfolding run_get
    run_get-world config key s = elim (Bool-cases (is_empty key)) [
      | inl h ↦ rw (run_get, h) refl
      | inr h ↦ elim (Option-cases (get_config_value config key)) [
        | inr (value, h') ↦ rw (run_get, h, h') refl
        | inl h' ↦ elim (Option-cases (refusal (set_config_value config key []))) [
          | inl h'' ↦ rw (run_get, h, h', h'') refl
          | inr (e, h'') ↦ rw (run_get, h, h', h'') (report-world dump e global s)
        ]
      ]
    ]

    run_set-world :
        (config : Config) (key value : Bytes) (path : FilePath) (s : S)
        → global.dry_run ≡ true
        → (run_set T P dump global config key value path s).1.world ≡ s.world
    unfolding run_set
    run_set-world config key value path s dry =
        elim (Result-cases (set_config_value config key value)) [
          | inl (e, h) ↦ rw (run_set, h) (report-world dump e global s)
          | inr (changed, h) ↦ rw (run_set, h, dry) refl
        ]

    -- Nothing is to be written: the action is not `edit`, and if it is `set`, it is a dry run.
    abbrev pub OnlyReads : ConfigOptions → Type 0
    OnlyReads options =
        (bytes_eq options.action (txt "edit") ≡ false)
        × ((bytes_eq options.action (txt "set") ≡ false) ⊎ (global.dry_run ≡ true))

    act-look :
        (launch : FilePath → P.World → Status × P.World) (options : ConfigOptions) (config : Config)
        (path : FilePath) (s : S)
        → OnlyReads options
        → look (act T P dump global launch options config path s).1.world ≡ look s.world
    unfolding act
    act-look launch options config path s (no_edit, no_set) =
        elim (Bool-cases (bytes_eq options.action (txt "get"))) [
          | inl h ↦ rw (act, h, run_get-world config options.key s) refl
          | inr h ↦ elim (Bool-cases (bytes_eq options.action (txt "set"))) [
            | inl h' ↦ elim no_set [
              | inl not_set ↦ absurd (ground arith)
              | inr dry ↦
                  rw (act, h, h', run_set-world config options.key options.value path s dry) refl
            ]
            | inr h' ↦ rw (act, h, h', no_edit) (read_wslconfig-look s.world)
          ]
        ]

    -- Whatever it is that the calls `exists`, `expand_environment` and `read_text_file` leave as it
    -- was, a run of `config` that is not to write anything leaves it as well.
    pub run_config-look :
        (launch : FilePath → P.World → Status × P.World) (options : ConfigOptions) (s : S)
        → OnlyReads options
        → look (run_config T P dump global launch options s).1.world ≡ look s.world
    unfolding run_config
    run_config-look launch options s only =
        let found : Result FilePath × P.World = config_path T P s.world in
        let s1 : S = record s { world = found.1 } in
        elim (Result-cases found.0) [
          | inl (e, h) ↦
              rw (run_config, h, report-world dump e global s1) (config_path-look s.world)
          | inr (path, h) ↦ elim (Bool-cases (bytes_eq options.action (txt "path"))) [
            | inl h' ↦ rw (run_config, h, h') (config_path-look s.world)
            | inr h' ↦
                let loaded : Result Config × P.World = load_config T P path found.1 in
                let s2 : S = record s { world = loaded.1 } in
                let same : look loaded.1 ≡ look s.world =
                  load_config-look path found.1 ∙ config_path-look s.world in
                elim (Result-cases loaded.0) [
                  | inl (e, h'') ↦ rw (run_config, h, h', h'', report-world dump e global s2) same
                  | inr (config, h'') ↦
                      rw (run_config, h, h', h'')
                        (act-look launch options config path
                            (log (verbose (fmt (txt "read " ∷ P.path_string path ∷ []))) s2) only
                          ∙ same)
                ]
          ]
        ]
