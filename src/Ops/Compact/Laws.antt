-- ===== src/Ops/Compact/Laws.antt =====
-- What a compaction of src/lib/ops/compact.cpp promises.
use wsldisk.Base.{
  ℕ, ◌+◌, Bool, true, false, List, [], ◌∷◌, ◌++◌, Bytes, ◌≡◌, ◌≢◌, sym, arith, Option, none, some,
  inl, inr, length,
}
use wsldisk.Errors.{ok, Result-cases}
use wsldisk.Effects.{◌>>=◌, ◌>>◌, pure, raise}
use wsldisk.Effects.Steps.{bind-eq-ok}
use wsldisk.WinPath.{FilePath}
use wsldisk.Interfaces.{Platform}
use wsldisk.Model.Distro.{Distro}
use wsldisk.Ops.Operation.{emit, step_started, step_finished}
use wsldisk.Ops.Compact.{others_running, stop_step, CompactOptions, State, others_running_excluding}
use wsldisk.Ops.Compact.Release.{
  still_held, Wait, released, gave_up, out_of_fuel, wait_loop, rounds, none_left, refuse, settle,
  await, stop, release_disk,
}
use wsldisk.Ops.Compact.Run.{trim_guest, stop_guest, run_guest_steps, require_free_file, prepare}
use wsldisk.Ops.Compact.Waiting.{Clocked, Sound, wait_loop-ends}

module _ (P : Platform) (C : Clocked P) (distro : Option Distro) (path : FilePath)
    (options : CompactOptions) where
  -- The world was reached by asking whether the disk is held, and it was not.
  abbrev pub IsFree : P.World → Type 0
  IsFree w = (before : P.World) × (P.is_locked path before ≡ (ok false, w))

  refuse-fails :
      (others : List Bytes) (can_help : Bool) (s : State P distro path options)
      → (refuse P distro path options others can_help s).0 ≢ ok tt
  unfolding refuse
  refuse-fails others true s h =
      let (names, first, second, last) =
        bind-eq-ok (others_running P distro path options)
          (λ o. raise (still_held P distro path options o)) s h in
      cc
  refuse-fails others false s h = cc

  settle-IsFree :
      (blockers : List Bytes) (waited : Wait) (can_help : Bool) (deadline : ℕ)
      (s : State P distro path options)
      → Sound P C distro path options can_help deadline (ok waited) s.world
      → (settle P distro path options blockers waited s).0 ≡ ok tt
      → IsFree (settle P distro path options blockers waited s).1.world
  unfolding settle Sound
  settle-IsFree blockers released can_help deadline s sound h = sound
  settle-IsFree blockers gave_up can_help deadline s sound h =
      absurd (refuse-fails blockers (none_left blockers) s h)
  settle-IsFree blockers out_of_fuel can_help deadline s sound h = absurd sound

  await-IsFree :
      (blockers : List Bytes) (s : State P distro path options)
      → (await P distro path options blockers s).0 ≡ ok tt
      → IsFree (await P distro path options blockers s).1.world
  unfolding await
  await-IsFree blockers s h =
      let asked = record s { world = (P.now s.world).1 } in
      let deadline = (P.now s.world).0 + options.unlock_timeout in
      let ended =
        wait_loop-ends P C distro path options (none_left blockers) (P.now s.world).0 asked
          (C.now_passes s.world) in
      let (waited, first, second, last) =
        bind-eq-ok
          (wait_loop P distro path options (rounds P distro path options) (none_left blockers)
            deadline 0)
          (settle P distro path options blockers) asked h in
      rw last (
        settle-IsFree blockers waited (none_left blockers) deadline _ (rw (sym first) ended) second)

  release_disk-IsFree :
      (d : Distro) (s : State P distro path options)
      → (release_disk P distro path options d s).0 ≡ ok tt
      → IsFree (release_disk P distro path options d s).1.world
  unfolding release_disk
  release_disk-IsFree d s h =
      let (u, stopped, rest, eq) =
        bind-eq-ok (stop P distro path options d)
          (λ u. others_running_excluding P distro path options d >>= await P distro path options) s
          h in
      let (blockers, asked, waited, eq2) =
        bind-eq-ok (others_running_excluding P distro path options d) (await P distro path options)
          _ rest in
      rw (eq, eq2) (await-IsFree blockers _ waited)

  stop_guest-IsFree :
      (d : Distro) (completed : List Bytes) {steps : List Bytes} (s : State P distro path options)
      → (stop_guest P distro path options d completed s).0 ≡ ok steps
      → IsFree (stop_guest P distro path options d completed s).1.world
  unfolding stop_guest
  stop_guest-IsFree d completed s h =
      let begun = record s {
        events =
            s.events ++ step_started (length completed) (stop_step P distro path options d) ∷ [];
      } in
      let (u, freed, rest, eq) =
        bind-eq-ok (release_disk P distro path options d)
          (λ u.
            emit (step_finished (length completed) (stop_step P distro path options d))
            >> pure (completed ++ (stop_step P distro path options d).description ∷ []))
          begun h in
      rw eq (release_disk-IsFree d begun freed)

  run_guest_steps-IsFree :
      (d : Distro) {steps : List Bytes} (s : State P distro path options)
      → (run_guest_steps P distro path options d s).0 ≡ ok steps
      → IsFree (run_guest_steps P distro path options d s).1.world
  unfolding run_guest_steps
  run_guest_steps-IsFree d s h =
      let (completed, trimmed, rest, eq) =
        bind-eq-ok (trim_guest P distro path options d) (stop_guest P distro path options d) s h in
      rw eq (stop_guest-IsFree d completed _ rest)

module _ (P : Platform) (C : Clocked P) (path : FilePath) (options : CompactOptions) where
  -- With a clock that does not run backwards, what comes before the compaction, with a guest to
  -- stop or without one, succeeds only as the question whether the disk is held is answered with
  -- no: nothing is asked of the platform between that answer and its end.
  pub prepare-IsFree :
      (distro : Option Distro) {steps : List Bytes} (s : State P distro path options)
      → (prepare P distro path options s).0 ≡ ok steps
      → IsFree P C distro path options (prepare P distro path options s).1.world
  unfolding prepare require_free_file
  prepare-IsFree (some d) s h = run_guest_steps-IsFree P C (some d) path options d s h
  prepare-IsFree none s h = elim (Result-cases (P.is_locked path s.world).0) [
    | inl (e, r) ↦ absurd (ground arith)
    | inr (true, r) ↦ absurd (ground arith)
    | inr (false, r) ↦ (s.world, ground arith)
  ]
