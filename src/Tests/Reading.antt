-- ===== src/Tests/Reading.antt =====
-- The registry's keys and the output of fstrim, on the small machine.
use wsldisk.Base.{
  fmt, bytes_eq, txt, true, false, List, [], ◌∷◌, ◌+◌, ◌≡◌, refl, if◌then◌else◌, ◌⊎◌, All, length,
  none, some,
}
use wsldisk.Errors.{ok}
use wsldisk.Model.Text.{to_utf8}
use wsldisk.WinPath.{Wide}
use wsldisk.Interfaces.{Platform, WslCommandResult, succeeded}
use wsldisk.Model.Distro.{DistroList, enumerate, lxss_key}
use wsldisk.Model.Distro.Enumerated.{IsPlaced, enumerate_accounts}
use wsldisk.Ops.Trim.{TrimResult, run_fstrim, rejected_an_option, parse_trimmed_bytes}
use wsldisk.Ops.Trim.Retry.{run_fstrim_rests}
use wsldisk.Tests.Machine.{machine, registered}
use wsldisk.Tests.Lifecycle.{at}

-- A registry with one key, whose BasePath is empty.
abbrev unfinished : Platform
unfinished = record machine {
  subkeys = λ key w. (ok (txt "{4d12}" ∷ []), w);
  read_string = λ key name w.
      (ok (if bytes_eq name (txt "DistributionName") then some (txt "Ubuntu") else none), w);
}

listed : DistroList
listed = record {
  distros = [];
  warnings = txt "distribution Ubuntu has no BasePath and was skipped" ∷ [];
}

enumerate_accounts_example :
    (guids : List Wide) × ((unfinished.subkeys lxss_key (registered true)).0 ≡ ok guids)
    × (length listed.distros + length listed.warnings ≡ length guids)
    × All IsPlaced listed.distros
unfolding enumerate listed bytes_eq txt fmt to_utf8
enumerate_accounts_example = enumerate_accounts unfinished (registered true) {list = listed} refl

abbrev trimmed : TrimResult
trimmed = record { trimmed_bytes = none; used_fallback = false }

run_fstrim_rests_example :
    let first =
      machine.run_as_root
        (txt "Ubuntu")
        (txt "/sbin/fstrim" ∷ txt "-v" ∷ txt "/" ∷ [])
        5
        (registered true) in
    let second = machine.run_as_root (txt "Ubuntu") (txt "/sbin/fstrim" ∷ txt "/" ∷ []) 5 first.1 in
    (verbose : WslCommandResult) × (first.0 ≡ ok verbose)
    × (((trimmed.used_fallback ≡ false)
          × (succeeded verbose ≡ true)
          × (trimmed.trimmed_bytes ≡ parse_trimmed_bytes verbose.standard_output)
          × ((run_fstrim machine (txt "Ubuntu") 5 (at true)).1.world ≡ first.1))
        ⊎ ((trimmed.used_fallback ≡ true)
            × (succeeded verbose ≡ false)
            × (rejected_an_option verbose.standard_error ≡ true)
            × (plain : WslCommandResult) × (second.0 ≡ ok plain)
            × (succeeded plain ≡ true)
            × (trimmed.trimmed_bytes ≡ parse_trimmed_bytes plain.standard_output)))
unfolding run_fstrim parse_trimmed_bytes
run_fstrim_rests_example =
    run_fstrim_rests machine (txt "Ubuntu") 5 (at true) {trimmed = trimmed} refl
