-- ===== src/Ops/Compact/Run.antt =====
-- src/lib/ops/compact.cpp: running a compaction, and its checks.
use wsldisk.Base.{
  ℕ, suc, Bytes, txt, fmt, not, ◌&&◌, Option, none, some, List, [], ◌∷◌, ◌++◌, ltb, if◌then◌else◌,
  length,
}
use wsldisk.Base.Int.{decimal_ℤ}
use wsldisk.Errors.{Error, partial, distro_busy, ok, err, to_string}
use wsldisk.Effects.{M, ◌>>=◌, ◌>>◌, pure, raise, guard, attempt}
use wsldisk.WinPath.{FilePath}
use wsldisk.Interfaces.{Platform, DiskProgress, succeeded}
use wsldisk.Model.Distro.{Distro}
use wsldisk.Ops.Operation.{
  Report, no_estimate, call, ask, emit, get, modify, step_started, step_finished, step_progress,
  message,
}
use wsldisk.Ops.Runner.{Operation}
use wsldisk.Ops.Preflight.{smoke_argv}
use wsldisk.Ops.Trim.{run_fstrim}
use wsldisk.Ops.Compact.{
  CompactOptions, State, reclaimed, trim_step, stop_step, compact_step, restart_step,
  measure_before, measure_after, plan,
}
use wsldisk.Ops.Compact.Release.{release_disk}

module _ (P : Platform) (distro : Option Distro) (path : FilePath) (options : CompactOptions) where
  abbrev S : Type 0
  S = State P distro path options

  -- The first guest step, if trimming is asked for.
  unfoldable pub trim_guest : Distro → M S (List Bytes)
  trim_guest d =
      (if options.trim
        then (do
          emit (step_started 0 (trim_step P distro path options d))
          trimmed ← run_fstrim P d.name options.trim_timeout
          modify (λ m. record m { trimmed_bytes = trimmed.trimmed_bytes })
          emit (step_finished 0 (trim_step P distro path options d))
          pure ((trim_step P distro path options d).description ∷ []))
        else pure [])

  -- The last guest step, behind those completed.
  unfoldable pub stop_guest : Distro → List Bytes → M S (List Bytes)
  stop_guest d completed = do
    emit (step_started (length completed) (stop_step P distro path options d))
    release_disk P distro path options d
    emit (step_finished (length completed) (stop_step P distro path options d))
    pure (completed ++ (stop_step P distro path options d).description ∷ [])

  -- The steps inside the distribution. Their number is the index of the step behind them.
  unfoldable pub run_guest_steps : Distro → M S (List Bytes)
  unfolding trim_guest stop_guest
  run_guest_steps d = trim_guest d >>= stop_guest d

  unfoldable pub in_another_process : Error
  in_another_process = record {
    code = distro_busy;
    message = fmt (P.path_string path ∷ txt " is open in another process" ∷ []);
    remedy =
        txt
          "close whatever is using it -- `wsl --shutdown` for WSL, or quit Docker Desktop -- and try again";
  }

  unfoldable pub require_free_file : M S (Unit {0})
  unfolding in_another_process
  require_free_file = do locked ← call (P.is_locked path); guard (not locked) in_another_process

  -- Never fatal: what it completed, which is nothing if the distribution did not start.
  unfoldable pub restart_guest : Distro → ℕ → M S (List Bytes)
  restart_guest d index = do
    emit (step_started index (restart_step P distro path options d))
    started ← attempt (call (P.run_as_root d.name smoke_argv options.trim_timeout))
    elim started [
      | err e ↦ (do
        emit (message (fmt (txt "could not start " ∷ d.name ∷ txt " again: " ∷ to_string e ∷ [])))
        pure [])
      | ok result ↦
          (if succeeded result
            then (do
              emit (step_finished index (restart_step P distro path options d))
              pure ((restart_step P distro path options d).description ∷ []))
            else (do
              emit (
                  message (
                    fmt (
                      txt "could not start "
                      ∷ d.name
                      ∷ txt " again: it exited "
                      ∷ decimal_ℤ result.exit_code
                      ∷ [])))
              pure []))
    ]

  -- The test of restart_if_asked and of the end of execute.
  unfoldable pub restart_after : ℕ → M S (List Bytes)
  unfolding restart_guest
  restart_after index = elim distro [
    | none ↦ pure []
    | some d ↦ (do
      m ← get
      (if options.restart && m.was_running then restart_guest d index else pure []))
  ]

  unfoldable pub restart_if_asked : M S (Unit {0})
  restart_if_asked = restart_after 0 >>= λ discard. pure tt

  unfoldable pub tell_all : List DiskProgress → M S (Unit {0})
  tell_all [] = pure tt
  tell_all (f ∷ fs) = emit (step_progress f) >> tell_all fs

  -- The compaction with the disk open. The handle is closed on either path, after the restart if it
  -- failed.
  unfoldable pub compact_open : P.Handle → M S (Unit {0})
  unfolding restart_if_asked
  compact_open handle s =
      let r = P.compact handle s.world in
      let told = tell_all r.1 (record s { world = r.2 }) in
      elim r.0 [
        | err e ↦ (restart_if_asked >> (ask (λ w. (tt, P.close handle w)) >> raise e)) told.1
        | ok u ↦ ask (λ w. (tt, P.close handle w)) told.1
      ]

  unfoldable pub compact_disk : M S (Unit {0})
  unfolding compact_open restart_if_asked
  compact_disk = do
    opened ← attempt (call (P.open_disk path))
    elim opened [ err e ↦ restart_if_asked >> raise e | ok handle ↦ compact_open handle ]

  -- What comes before the compaction: the steps that it completed.
  unfoldable pub prepare : M S (List Bytes)
  unfolding run_guest_steps require_free_file
  prepare = elim distro [ some d ↦ run_guest_steps d | none ↦ require_free_file >> pure [] ]

  -- What comes behind a compaction that succeeded.
  unfoldable pub conclude : List Bytes → M S Report
  unfolding restart_after
  conclude prepared = do
    measure_after P distro path options
    emit (step_finished (length prepared) (compact_step P distro path options))
    restarted ← restart_after (suc (length prepared))
    m ← get
    pure (record {
      completed = prepared ++ (compact_step P distro path options).description ∷ [] ++ restarted;
      actual = record no_estimate { bytes_freed = reclaimed m };
    })

  -- What comes behind the steps `prepared`.
  unfoldable pub finish : List Bytes → M S Report
  unfolding compact_disk conclude
  finish prepared = do
    measure_before P distro path options
    emit (step_started (length prepared) (compact_step P distro path options))
    compact_disk
    conclude prepared

  unfoldable pub execute : M S Report
  unfolding prepare finish
  execute = prepare >>= finish

  unfoldable pub grew : Error
  grew = record {
    code = partial;
    message = fmt (P.path_string path ∷ txt " grew during compaction" ∷ []);
    remedy = txt "the disk is intact; run `wsldisk info` to see its size now";
  }

  unfoldable pub verify : M S (Unit {0})
  unfolding grew
  verify = do
    m ← get
    elim m.before [
      | none ↦ pure tt
      | some b ↦ elim m.after [ none ↦ pure tt | some a ↦ guard (not (ltb b a)) grew ]
    ]

  -- `rollback` has nothing to undo.
  unfoldable pub operation : Operation S
  operation = record {
    plan = plan P distro path options;
    execute = execute;
    verify = verify;
    rollback = λ s. s;
  }
