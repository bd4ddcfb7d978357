-- ===== src/Ops/Compact/Restart.antt =====
-- The promise of --restart in src/lib/ops/compact.cpp.
use wsldisk.Base.{
  bytes_eq, fmt, txt, bytes_eq_refl, ℕ, suc, Bool, true, false, List, [], ◌∷◌, ◌++◌, Bytes, ◌≡◌,
  ◌≢◌, refl, ap, ◌∙◌, arith, some, inl, inr, Bool-cases, any, any-append, length, ◌⊎◌,
}
use wsldisk.Base.Int.{decimal_ℤ}
use wsldisk.Errors.{to_string, ok, Result-cases}
use wsldisk.Effects.{M, ◌>>◌, pure, raise}
use wsldisk.Effects.Steps.{bind-keeps}
use wsldisk.WinPath.{FilePath}
use wsldisk.Ops.Preflight.{smoke_argv}
use wsldisk.Interfaces.{succeeded, WslCommandResult, Platform, DiskProgress}
use wsldisk.Model.Distro.{Distro}
use wsldisk.Ops.Operation.{message, ask, Event, step_started, step_finished}
use wsldisk.Ops.Compact.{
  measure_after, measure_before, CompactOptions, State, compact_step, restart_step,
}
use wsldisk.Ops.Compact.Run.{
  restart_guest, restart_after, restart_if_asked, compact_open, tell_all, compact_disk, conclude,
  finish,
}

-- The sink was told that the distribution is being started again.
unfoldable pub is_restart : Bytes → Event → Bool
is_restart text (step_started index step) = bytes_eq step.description text
is_restart text _ = false

module _ (P : Platform) (d : Distro) (path : FilePath) (options : CompactOptions) where
  -- The restart was tried.
  unfoldable pub restart_told : List Event → Bool
  restart_told = any (is_restart (restart_step P (some d) path options d).description)

  WasRunning : State P (some d) path options → Type 0
  WasRunning s = s.self.was_running ≡ true

  events_of : (xs ys : List Event) → xs ≡ ys → restart_told ys ≡ true → restart_told xs ≡ true
  events_of xs ys eq h = rw eq h

  told_more : (xs ys : List Event) → restart_told xs ≡ true → restart_told (xs ++ ys) ≡ true
  unfolding restart_told
  told_more xs ys h =
      rw (any-append (is_restart (restart_step P (some d) path options d).description) xs ys, h)
        refl

  told_now :
      (index : ℕ) (xs : List Event)
      → restart_told (xs ++ step_started index (restart_step P (some d) path options d) ∷ []) ≡ true
  unfolding restart_told is_restart
  told_now index xs =
      let text = (restart_step P (some d) path options d).description in
      ground (
        arith,
        any-append (is_restart text) xs
            (step_started index (restart_step P (some d) path options d) ∷ []),
        bytes_eq_refl text,
      )

  -- `Up` is any trace in the world that the command in the guest leaves and closing the disk keeps.
  module _ (Up : P.World → Type 0)
      (starts : (w : P.World) → Up (P.run_as_root d.name smoke_argv options.trim_timeout w).1)
      (closes : (h : P.Handle) (w : P.World) → Up w → Up (P.close h w)) where
    Told : State P (some d) path options → Type 0
    Told s = (restart_told s.events ≡ true) × Up s.world

    same-Told :
        (s t : State P (some d) path options)
        → s.events ≡ t.events
        → s.world ≡ t.world
        → Told t
        → Told s
    unfolding Told
    same-Told s t events world (told, up) = (rw events told, rw world up)

    up_of : (w : P.World) {v : P.World} → w ≡ v → Up v → Up w
    up_of w same up = rw same up

    restart_guest-Told :
        (index : ℕ) (s : State P (some d) path options)
        → Told (restart_guest P (some d) path options d index s).1
    unfolding restart_guest Told
    restart_guest-Told index s =
        let begun = s.events ++ step_started index (restart_step P (some d) path options d) ∷ [] in
        elim (Result-cases (P.run_as_root d.name smoke_argv options.trim_timeout s.world).0) [
          | inl (e, h) ↦ (
            events_of _ (begun ++ message (not_again (to_string e)) ∷ []) (ground arith)
                (told_more begun _ (told_now index s.events)),
            up_of _ (ground arith) (starts s.world),
          )
          | inr (result, h) ↦ elim (Bool-cases (succeeded result)) [
            | inl up ↦ (
              events_of _
                  (begun ++ step_finished index (restart_step P (some d) path options d) ∷ [])
                  (ground arith) (told_more begun _ (told_now index s.events)),
              up_of _ (ground arith) (starts s.world),
            )
            | inr down ↦ (
              events_of _ (begun ++ message (did_exit result) ∷ []) (ground arith)
                  (told_more begun _ (told_now index s.events)),
              up_of _ (ground arith) (starts s.world),
            )
          ]
        ]
      where
        not_again : Bytes → Bytes
        not_again e = fmt (txt "could not start " ∷ d.name ∷ txt " again: " ∷ e ∷ [])

        did_exit : WslCommandResult → Bytes
        did_exit result = fmt (
            txt "could not start "
            ∷ d.name
            ∷ txt " again: it exited "
            ∷ decimal_ℤ result.exit_code
            ∷ [])

    restart_after-Told :
        (index : ℕ) (s : State P (some d) path options)
        → options.restart ≡ true
        → WasRunning s
        → Told (restart_after P (some d) path options index s).1
    unfolding restart_after Told WasRunning
    restart_after-Told index s asked was =
        same-Told (restart_after P (some d) path options index s).1
          (restart_guest P (some d) path options d index s).1 (ground arith) (ground arith)
          (restart_guest-Told index s)

    tell_all-self :
        (fs : List DiskProgress) (s : State P (some d) path options)
        → ((tell_all P (some d) path options fs s).1.self ≡ s.self)
          × ((tell_all P (some d) path options fs s).0 ≡ ok tt)
    unfolding tell_all
    tell_all-self [] s = (refl, refl)
    tell_all-self (f ∷ fs) s = tell_all-self fs _

    -- What holds of a failure stays so: the restart is tried first.
    restart_if_asked-Told :
        {A : Type 0} (rest : M (State P (some d) path options) A)
        (s : State P (some d) path options)
        → ((t : State P (some d) path options) → Told t → Told (rest t).1)
        → options.restart ≡ true
        → WasRunning s
        → Told ((restart_if_asked P (some d) path options >> rest) s).1
    unfolding restart_if_asked
    restart_if_asked-Told rest s keeps asked was =
        bind-keeps (restart_if_asked P (some d) path options) (λ u. rest) s Told tried
          λ u h. keeps _ tried
      where
        tried : Told (restart_if_asked P (some d) path options s).1
        tried =
            bind-keeps (restart_after P (some d) path options 0) (λ discard. pure tt) s Told
              (restart_after-Told 0 s asked was) λ u h. restart_after-Told 0 s asked was

    abbrev with_restart :
        M (State P (some d) path options) (Unit {0}) → M (State P (some d) path options) (Unit {0})
    with_restart rest = restart_if_asked P (some d) path options >> rest

    compact_open-Told :
        (handle : P.Handle) (s : State P (some d) path options)
        → options.restart ≡ true
        → WasRunning s
        → let r = compact_open P (some d) path options handle s in
          ((r.0 ≢ ok tt) × Told r.1) ⊎ ((r.0 ≡ ok tt) × WasRunning r.1)
    unfolding compact_open Told WasRunning
    compact_open-Told handle s asked was =
        let r = P.compact handle s.world in
        let told = tell_all-self r.1 (record s { world = r.2 }) in
        elim (Result-cases r.0) [
          | inl (e, h) ↦ inl (
            λ q. ground arith,
            same-Told (compact_open P (some d) path options handle s).1
                (with_restart (ask (λ w. (tt, P.close handle w)) >> raise e)
                  (tell_all P (some d) path options r.1 (record s { world = r.2 })).1).1
                (ground arith) (ground arith)
                (restart_if_asked-Told (ask (λ w. (tt, P.close handle w)) >> raise e) _
                  (λ t kept. (kept.0, closes handle t.world kept.1)) asked
                  (ap (λ m. m.was_running) told.0 ∙ was)),
          )
          | inr (u, h) ↦ inr (ground arith, ground arith)
        ]

    compact_disk-Told :
        (s : State P (some d) path options)
        → options.restart ≡ true
        → WasRunning s
        → let r = compact_disk P (some d) path options s in
          ((r.0 ≢ ok tt) × Told r.1) ⊎ ((r.0 ≡ ok tt) × WasRunning r.1)
    unfolding compact_disk Told WasRunning
    compact_disk-Told s asked was =
        let opened = record s { world = (P.open_disk path s.world).1 } in
        elim (Result-cases (P.open_disk path s.world).0) [
          | inl (e, h) ↦ inl (
            λ q. ground arith,
            same-Told (compact_disk P (some d) path options s).1 (with_restart (raise e) opened).1
                (ground arith) (ground arith)
                (restart_if_asked-Told (raise e) opened (λ t kept. kept) asked was),
          )
          | inr (handle, h) ↦ ground (arith, compact_open-Told handle opened asked was)
        ]

    measure_after-keeps :
        (s : State P (some d) path options)
        → let r = measure_after P (some d) path options s in
          (r.0 ≡ ok tt) × (r.1.self.was_running ≡ s.self.was_running)
    unfolding measure_after
    measure_after-keeps s = ground arith

    measure_before-keeps :
        (s : State P (some d) path options)
        → let r = measure_before P (some d) path options s in
          (r.0 ≡ ok tt) × (r.1.self.was_running ≡ s.self.was_running)
    unfolding measure_before
    measure_before-keeps s = ground arith

    conclude-Told :
        (steps : List Bytes) (s : State P (some d) path options)
        → options.restart ≡ true
        → WasRunning s
        → Told (conclude P (some d) path options steps s).1
    unfolding conclude Told WasRunning
    conclude-Told steps s asked was =
        let (fine, kept) = measure_after-keeps s in
        let t = (measure_after P (some d) path options s).1 in
        let told = record t {
          events =
              t.events ++ step_finished (length steps) (compact_step P (some d) path options) ∷ [];
        } in
        same-Told (conclude P (some d) path options steps s).1
          (restart_after P (some d) path options (suc (length steps)) told).1 (ground arith)
          (ground arith) (restart_after-Told (suc (length steps)) told asked (kept ∙ was))

    -- From the moment the disk is free, if a restart is asked for and the distribution was running, the
    -- command that starts it is run in it, whether the compaction succeeds or fails: whatever trace that
    -- command leaves in every world, and closing the disk keeps, is there at the end. The sink is told
    -- that the distribution is being started again. Whether it then comes up is the guest's.
    pub finish_restarts :
        (steps : List Bytes) (s : State P (some d) path options)
        → options.restart ≡ true
        → s.self.was_running ≡ true
        → (restart_told (finish P (some d) path options steps s).1.events ≡ true)
          × Up (finish P (some d) path options steps s).1.world
    unfolding finish restart_told WasRunning Told
    finish_restarts steps s asked was =
        let (fine, kept) = measure_before-keeps s in
        let t = (measure_before P (some d) path options s).1 in
        let begun = record t {
          events =
              t.events ++ step_started (length steps) (compact_step P (some d) path options) ∷ [];
        } in
        let r = compact_disk P (some d) path options begun in
        elim (Result-cases r.0) [
          | inl (e, h) ↦ elim (compact_disk-Told begun asked (kept ∙ was)) [
            | inl (bad, told) ↦
                same-Told (finish P (some d) path options steps s).1 r.1 (ground arith)
                  (ground arith) told
            | inr (good, was) ↦ absurd (ground arith)
          ]
          | inr (u, h) ↦ elim (compact_disk-Told begun asked (kept ∙ was)) [
            | inl (bad, told) ↦ absurd (bad h)
            | inr (good, was) ↦
                same-Told (finish P (some d) path options steps s).1
                  (conclude P (some d) path options steps r.1).1 (ground arith) (ground arith)
                  (conclude-Told steps r.1 asked was)
          ]
        ]
