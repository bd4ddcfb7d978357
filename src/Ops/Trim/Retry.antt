-- ===== src/Ops/Trim/Retry.antt =====
-- When run_fstrim of src/lib/ops/trim.cpp tries again, and what it believes.
use wsldisk.Base.{
  ℕ, Bytes, txt, true, false, not, ◌&&◌, [], ◌∷◌, ◌≡◌, arith, ◌⊎◌, inl, inr, Bool-cases,
}
use wsldisk.Errors.{ok, Result-cases}
use wsldisk.Interfaces.{Platform, WslCommandResult, succeeded}
use wsldisk.Ops.Operation.{Context}
use wsldisk.Ops.Trim.{
  TrimResult, fstrim, root, rejected_an_option, parse_trimmed_bytes, conclude, retry_plain,
  run_fstrim,
}

module _ (P : Platform) {X : Type 0} (name : Bytes) (timeout : ℕ) where
  -- A trim that succeeded rests on a run of fstrim that exited 0, whose output is what the count is
  -- read from: the run with -v, or, if the guest refused an option, a run without it, which is made
  -- only then and is marked as the fallback.
  pub run_fstrim_rests :
      (s : Context P.World X) {trimmed : TrimResult}
      → (run_fstrim P name timeout s).0 ≡ ok trimmed
      → let first = P.run_as_root name (fstrim ∷ txt "-v" ∷ root ∷ []) timeout s.world in
        let second = P.run_as_root name (fstrim ∷ root ∷ []) timeout first.1 in
        (verbose : WslCommandResult) × (first.0 ≡ ok verbose)
        × (((trimmed.used_fallback ≡ false)
              × (succeeded verbose ≡ true)
              × (trimmed.trimmed_bytes ≡ parse_trimmed_bytes verbose.standard_output)
              × ((run_fstrim P name timeout s).1.world ≡ first.1))
            ⊎ ((trimmed.used_fallback ≡ true)
                × (succeeded verbose ≡ false)
                × (rejected_an_option verbose.standard_error ≡ true)
                × (plain : WslCommandResult) × (second.0 ≡ ok plain)
                × (succeeded plain ≡ true)
                × (trimmed.trimmed_bytes ≡ parse_trimmed_bytes plain.standard_output)))
  unfolding run_fstrim retry_plain conclude
  run_fstrim_rests s h =
      let first = P.run_as_root name (fstrim ∷ txt "-v" ∷ root ∷ []) timeout s.world in
      let second = P.run_as_root name (fstrim ∷ root ∷ []) timeout first.1 in
      elim (Result-cases first.0) [
        | inl (e, bad) ↦ absurd (ground arith)
        | inr (verbose, good) ↦
            elim (Bool-cases
              (not (succeeded verbose) && rejected_an_option verbose.standard_error)) [
                | inr accepted ↦
                    (verbose, good, inl (ground arith, ground arith, ground arith, ground arith))
                | inl refused ↦ elim (Result-cases second.0) [
                  | inl (e, bad) ↦ absurd (ground arith)
                  | inr (plain, again) ↦ (
                    verbose,
                    good,
                    inr (
                      ground arith,
                      ground arith,
                      ground arith,
                      plain,
                      again,
                      ground arith,
                      ground arith,
                    ),
                  )
                ]
              ]
      ]
