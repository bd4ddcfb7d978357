-- ===== src/Tests/Orphans.antt =====
-- Deleting orphans and reading the settings, on the small machine.
use wsldisk.Base.{
  Bytes, txt, Bool, true, false, some, [], ◌∷◌, ◌≡◌, ◌↔◌, ◌⊎◌, inl, inr, refl, All, bytes_eq,
}
use wsldisk.Errors.{exit_code_for, exit_code_success, distro_busy, partial, ok}
use wsldisk.Model.Orphans.{Orphan}
use wsldisk.Cli.Session.{JsonObject, GlobalOptions, Session}
use wsldisk.Cli.OrphansCommand.{delete_confirmed, delete_orphans}
use wsldisk.Cli.OrphansCommand.Deleting.{
  IsDeleted, IsKept, tried, delete_confirmed_accounts, delete_orphans_unagreed,
}
use wsldisk.Cli.ConfigCommand.{ConfigOptions, run_config}
use wsldisk.Cli.ConfigCommand.Reading.{run_config-look}
use wsldisk.Tests.Machine.{Machine, machine, ubuntu, registered}
use wsldisk.Tests.Settings.{document}

abbrev no_json : JsonObject → Bytes
no_json object = []

abbrev carefully : GlobalOptions
carefully = record { json = false; verbose = false; assume_yes = false; dry_run = true }

abbrev boldly : GlobalOptions
boldly = record { json = false; verbose = false; assume_yes = true; dry_run = false }

abbrev start : Session Machine
start = record { world = registered true; out = []; errors = []; log = []; transient_width = 0 }

abbrev left_behind : Orphan
left_behind = record { path = ubuntu.vhdx_path; size_on_disk = some 4096 }

abbrev refuse : Bytes → Session Machine → Bool × Session Machine
refuse text s = (false, s)

delete_confirmed_accounts_example :
    let r = delete_confirmed machine no_json boldly (left_behind ∷ []) start in
    let outcomes = (tried machine no_json boldly (left_behind ∷ []) start.world).0 in
    (r.1.world ≡ (tried machine no_json boldly (left_behind ∷ []) start.world).1)
    × ((r.0 ≡ exit_code_success) ↔ All IsDeleted outcomes)
    × ((r.0 ≡ exit_code_for distro_busy) ↔ All IsKept outcomes)
    × ((r.0 ≡ exit_code_success)
        ⊎ ((r.0 ≡ exit_code_for distro_busy) ⊎ (r.0 ≡ exit_code_for partial)))
delete_confirmed_accounts_example =
    delete_confirmed_accounts machine no_json boldly left_behind [] start

delete_orphans_unagreed_example :
    let r = delete_orphans machine no_json carefully refuse (left_behind ∷ []) start in
    (r.1.world ≡ start.world) × (r.0 ≡ exit_code_success)
delete_orphans_unagreed_example =
    delete_orphans_unagreed machine no_json carefully refuse (λ text s. refl) (left_behind ∷ [])
      start (inl refl)

abbrev setting : ConfigOptions
setting = record { action = b's' ∷ b'e' ∷ b't' ∷ []; key = txt "compact.trim"; value = txt "false" }

run_config-look_example :
    (run_config document machine no_json carefully
      (λ path w. (ok tt, w))
      setting
      start).1.world.files
    ≡ start.world.files
unfolding txt bytes_eq
run_config-look_example =
    run_config-look document machine (λ w. w.files) (λ path w. refl) (λ path w. refl)
      (λ path w. refl) no_json carefully (λ path w. (ok tt, w)) setting start (refl, inr refl)
