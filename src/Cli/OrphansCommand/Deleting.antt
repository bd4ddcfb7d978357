-- ===== src/Cli/OrphansCommand/Deleting.antt =====
-- src/cli/orphans_command.cpp: what deleting orphans does, and when it does nothing.
use wsldisk.Base.{
  ℕ, suc, ◌+◌, ◌≤◌, Bytes, Bool, true, false, Option, none, some, List, [], ◌∷◌, ltb, ◌==◌,
  if◌then◌else◌, length, All, ◌≡◌, ◌≢◌, ◌↔◌, ◌⊎◌, ◌∙◌, refl, inl, inr, arith, Bool-cases,
}
use wsldisk.Errors.{exit_code_for, distro_busy, partial, exit_code_success}
use wsldisk.Interfaces.{Platform}
use wsldisk.Model.Orphans.{Orphan}
use wsldisk.Cli.Session.{JsonObject, GlobalOptions, Session, report}
use wsldisk.Cli.OperationCommands.DryRuns.{report-world}
use wsldisk.Cli.OrphansCommand.{
  delete_one, tell_deletion, counted, delete_each, not_all_deleted, announce, tell_dry_run,
  delete_confirmed, question, agreed, delete_some, delete_orphans,
}

-- What became of each file: `none`, or why it is still there.
abbrev pub IsDeleted : Option Bytes → Type 0
IsDeleted failure = failure ≡ none

abbrev pub IsKept : Option Bytes → Type 0
IsKept failure = failure ≢ none

failures_in : List (Option Bytes) → ℕ
failures_in [] = 0
failures_in (none ∷ outcomes) = failures_in outcomes
failures_in (some reason ∷ outcomes) = suc (failures_in outcomes)

failures_in-le : (outcomes : List (Option Bytes)) → failures_in outcomes ≤ length outcomes
unfolding failures_in
failures_in-le [] = omega arith
failures_in-le (none ∷ outcomes) = omega (arith, failures_in-le outcomes)
failures_in-le (some reason ∷ outcomes) = omega (arith, failures_in-le outcomes)

failures_in-none :
    (outcomes : List (Option Bytes)) → (failures_in outcomes ≡ 0) ↔ All IsDeleted outcomes
unfolding failures_in
failures_in-none [] = (λ h. tt, λ h. refl)
failures_in-none (none ∷ outcomes) =
    (λ h. (refl, (failures_in-none outcomes).0 h), λ h. (failures_in-none outcomes).1 h.1)
failures_in-none (some reason ∷ outcomes) =
    (λ h. absurd (omega (arith, h)), λ h. absurd (ground (arith, h.0)))

failures_in-length :
    (outcomes : List (Option Bytes))
    → (failures_in outcomes ≡ length outcomes) ↔ All IsKept outcomes
unfolding failures_in
failures_in-length [] = (λ h. tt, λ h. refl)
failures_in-length (none ∷ outcomes) =
    (λ h. absurd (omega (arith, h, failures_in-le outcomes)), λ h. absurd (h.0 refl))
failures_in-length (some reason ∷ outcomes) = (
  λ h. (λ e. ground arith, (failures_in-length outcomes).0 (omega (arith, h))),
  λ h. omega (arith, (failures_in-length outcomes).1 h.1),
)

module _ (P : Platform) (dump : JsonObject → Bytes) (global : GlobalOptions) where
  abbrev S : Type 0
  S = Session P.World

  -- Each file tried once, in order: what became of them, and the world behind that.
  unfoldable pub tried : List Orphan → P.World → List (Option Bytes) × P.World
  tried [] w = ([], w)
  tried (orphan ∷ orphans) w =
      let r = delete_one P dump global orphan w in
      let rest = tried orphans r.1 in (r.0 ∷ rest.0, rest.1)

  length-tried : (orphans : List Orphan) (w : P.World) → length (tried orphans w).0 ≡ length orphans
  unfolding tried
  length-tried [] w = refl
  length-tried (orphan ∷ orphans) w =
      omega (arith, length-tried orphans (delete_one P dump global orphan w).1)

  tell_deletion-world :
      (orphan : Orphan) (failure : Option Bytes) (s : S)
      → (tell_deletion P dump global orphan failure s).world ≡ s.world
  unfolding tell_deletion
  tell_deletion-world orphan none s = ground arith
  tell_deletion-world orphan (some reason) s = ground arith

  counted-plus :
      (failure : Option Bytes) (n : ℕ) (outcomes : List (Option Bytes))
      → counted P dump global failure n + failures_in outcomes
        ≡ n + failures_in (failure ∷ outcomes)
  unfolding failures_in
  counted-plus none n outcomes = refl
  counted-plus (some reason) n outcomes = omega arith

  delete_each-tried :
      (orphans : List Orphan) (n : ℕ) (s : S)
      → ((delete_each P dump global orphans n s).0 ≡ n + failures_in (tried orphans s.world).0)
        × ((delete_each P dump global orphans n s).1.world ≡ (tried orphans s.world).1)
  unfolding delete_each tried failures_in
  delete_each-tried [] n s = (omega arith, refl)
  delete_each-tried (orphan ∷ orphans) n s =
      let r : Option Bytes × P.World = delete_one P dump global orphan s.world in
      let told : S = tell_deletion P dump global orphan r.0 (record s { world = r.1 }) in
      let same : told.world ≡ r.1 = tell_deletion-world orphan r.0 (record s { world = r.1 }) in
      let (count, left) = delete_each-tried orphans (counted P dump global r.0 n) told in
      (count ∙ rw same (counted-plus r.0 n (tried orphans r.1).0), left ∙ rw same refl)

  reported :
      (failures count : ℕ) (s : S)
      → (report dump (not_all_deleted failures count) global s).0
        ≡ (if failures == count then exit_code_for distro_busy else exit_code_for partial)
  unfolding report not_all_deleted
  reported failures count s = elim (Bool-cases (failures == count)) [
    | inl h ↦ rw h refl
    | inr h ↦ rw h refl
  ]

  abbrev verdict : ℕ → ℕ → ℕ
  verdict failures count =
      if ltb 0 failures
      then (if failures == count then exit_code_for distro_busy else exit_code_for partial)
      else exit_code_success

  ran :
      (orphans : List Orphan) (s : S)
      → let r = delete_each P dump global orphans 0 s in
        ((delete_confirmed P dump global orphans s).0 ≡ verdict r.0 (length orphans))
        × ((delete_confirmed P dump global orphans s).1.world ≡ r.1.world)
  unfolding delete_confirmed
  ran orphans s =
      let r : ℕ × S = delete_each P dump global orphans 0 s in
      elim (Bool-cases (ltb 0 r.0)) [
        | inr good ↦ rw (delete_confirmed, good) (refl, refl)
        | inl bad ↦
            rw (delete_confirmed, bad)
              (
                reported r.0 (length orphans) r.1,
                report-world dump (not_all_deleted r.0 (length orphans)) global r.1,
              )
      ]

  -- Deletions that were agreed to: each file is tried once, in order. The exit code is 0 exactly if
  -- all were deleted, and 11 exactly if there were some and none was; else it is 5.
  pub delete_confirmed_accounts :
      (orphan : Orphan) (orphans : List Orphan) (s : S)
      → let r = delete_confirmed P dump global (orphan ∷ orphans) s in
        let outcomes = (tried (orphan ∷ orphans) s.world).0 in
        (r.1.world ≡ (tried (orphan ∷ orphans) s.world).1)
        × ((r.0 ≡ exit_code_success) ↔ All IsDeleted outcomes)
        × ((r.0 ≡ exit_code_for distro_busy) ↔ All IsKept outcomes)
        × ((r.0 ≡ exit_code_success)
            ⊎ ((r.0 ≡ exit_code_for distro_busy) ⊎ (r.0 ≡ exit_code_for partial)))
  unfolding exit_code_for
  delete_confirmed_accounts orphan orphans s =
      let outcomes : List (Option Bytes) = (tried (orphan ∷ orphans) s.world).0 in
      let (code, after) = ran (orphan ∷ orphans) s in
      let (count, left) = delete_each-tried (orphan ∷ orphans) 0 s in
      let many = length-tried (orphan ∷ orphans) s.world in
      let nothing_kept = failures_in-none outcomes in
      let all_kept = failures_in-length outcomes in
      (
        after ∙ left,
        (
          λ h. nothing_kept.0 (ground (arith, code, count)),
          λ h. ground (arith, code, count, nothing_kept.1 h),
        ),
        (
          λ h. all_kept.0 (ground (arith, code, count, many)),
          λ h. ground (arith, code, count, many, all_kept.1 h),
        ),
        ground (arith, code),
      )

  tell_dry_run-world :
      (orphans : List Orphan) (s : S) → (tell_dry_run P dump global orphans s).world ≡ s.world
  unfolding tell_dry_run
  tell_dry_run-world orphans s = refl

  announce-world :
      (orphans : List Orphan) (s : S) → (announce P dump global orphans s).world ≡ s.world
  unfolding announce
  announce-world orphans s = ground arith

  module _ (confirm : Bytes → S → Bool × S)
      (asking_keeps : (text : Bytes) (s : S) → (confirm text s).1.world ≡ s.world) where
    -- The user did not agree to anything: it is a dry run, or `--yes` was not given and the answer
    -- was no.
    abbrev pub NotAgreed : List Orphan → S → Type 0
    NotAgreed orphans s =
        (global.dry_run ≡ true)
        ⊎ ((global.assume_yes ≡ false)
            × ((confirm (question P dump global orphans) (announce P dump global orphans s)).0
                ≡ false))

    -- Where asking changes nothing: as long as the user did not agree, `orphans --delete` leaves the
    -- world alone and exits with 0.
    pub delete_orphans_unagreed :
        (orphans : List Orphan) (s : S)
        → NotAgreed orphans s
        → let r = delete_orphans P dump global confirm orphans s in
          (r.1.world ≡ s.world) × (r.0 ≡ exit_code_success)
    unfolding delete_orphans delete_some agreed
    delete_orphans_unagreed [] s h = ground arith
    delete_orphans_unagreed (orphan ∷ orphans) s h =
        let s1 : S = announce P dump global (orphan ∷ orphans) s in
        elim (Bool-cases global.dry_run) [
          | inl dry ↦
              rw (delete_some, dry)
                (
                  tell_dry_run-world (orphan ∷ orphans) s1 ∙ announce-world (orphan ∷ orphans) s,
                  refl,
                )
          | inr wet ↦ elim h [
            | inl dry ↦ absurd (ground arith)
            | inr (asked, no_thanks) ↦
                let same : (confirm (question P dump global (orphan ∷ orphans)) s1).1.world
                    ≡ s.world =
                  asking_keeps (question P dump global (orphan ∷ orphans)) s1
                  ∙ announce-world (orphan ∷ orphans) s in
                rw (delete_some, wet, agreed, asked, no_thanks) (ground (arith, same), refl)
          ]
        ]
