-- ===== src/Platform/DiskHandle.antt =====
-- src/lib/platform/virtual_disk.cpp: compacting an open disk. The progress callback may read and change
-- the world; it says whether to go on.
pub mod Pending
use wsldisk.Base.{
  ℕ, zero, suc, Bytes, txt, fmt, Bool, Option, none, some, [], ◌∷◌, ◌==◌, if◌then◌else◌,
}
use wsldisk.Errors.{Error, partial, Result, ok, err}
use wsldisk.WinPath.{FilePath}
use wsldisk.Interfaces.{DiskProgress}
use wsldisk.Platform.Win32Error.{error_success, error_io_pending, error_from_win32}
use wsldisk.Platform.Win32.{Win32, signaled, failed, elapsed, Rounds, answered, scoped_rounds}

abbrev pub progress_poll_interval_ms : ℕ
progress_poll_interval_ms = 250

abbrev cancel_poll_interval_ms : ℕ
cancel_poll_interval_ms = 100

abbrev cancel_poll_attempts : ℕ
cancel_poll_attempts = 100

module _ (W : Win32) where
  -- The rounds of `abandon`.
  unfoldable pub cancel_loop : ℕ → W.Handle → W.Handle → W.World → W.World
  cancel_loop zero handle event w = w
  cancel_loop (suc attempts) handle event w =
      let waited = W.wait_for_single_object event cancel_poll_interval_ms w in
      let polled = W.get_virtual_disk_operation_progress handle waited.1 in
      let again = cancel_loop attempts handle event polled.1 in
      let polled_on =
        if polled.0.0 == error_success
        then (if polled.0.1.operation_status == error_io_pending then again else polled.1)
        else polled.1 in
      elim waited.0 [ signaled ↦ waited.1 | failed ↦ polled_on | elapsed ↦ polled_on ]

  unfoldable pub abandon : W.Handle → W.Handle → W.World → W.World
  unfolding cancel_loop
  abandon handle event w = cancel_loop cancel_poll_attempts handle event (W.cancel_io_ex handle w)

  module _ (handle : W.Handle) (path : FilePath)
      (progress : DiskProgress → W.World → Bool × W.World) where
    abbrev compacting : Bytes
    compacting = fmt (txt "compact " ∷ W.path_string path ∷ [])

    unfoldable pub cancelled : Error
    cancelled = record {
      code = partial;
      message = fmt (txt "compaction of " ∷ W.path_string path ∷ txt " was cancelled" ∷ []);
      remedy = txt "the disk is still usable; re-run to finish reclaiming space";
    }

    -- The end of a compaction that is no longer pending.
    unfoldable pub settle : ℕ → ℕ → W.World → Result (Unit {0}) × W.World
    settle status completion w =
        let told = progress (record { current = completion; total = completion }) w in
        if status == error_success
        then (ok tt, told.1)
        else (err (error_from_win32 status compacting), w)

    -- A round of the loop, behind its wait; `again` is the next round.
    unfoldable pub on_poll : Rounds W.World (Unit {0}) → W.Handle → Rounds W.World (Unit {0})
    unfolding abandon settle cancelled
    on_poll again event w =
        let polled = W.get_virtual_disk_operation_progress handle w in
        let raw = polled.0.1 in
        let told =
          progress (record { current = raw.current_value; total = raw.completion_value })
            polled.1 in
        if polled.0.0 == error_success
        then (if raw.operation_status == error_io_pending
            then (if told.0
                then again told.1
                else some (err cancelled, abandon handle event told.1))
            else some (settle raw.operation_status raw.completion_value polled.1))
        else some (
          err (
              error_from_win32 polled.0.0
                (fmt (txt "read the compaction progress of " ∷ W.path_string path ∷ []))),
          abandon handle event polled.1,
        )

    -- The loop that polls a compaction.
    unfoldable pub poll_loop : ℕ → W.Handle → Rounds W.World (Unit {0})
    unfolding abandon on_poll
    poll_loop zero event w = none
    poll_loop (suc rounds) event w =
        let waited = W.wait_for_single_object event progress_poll_interval_ms w in
        elim waited.0 [
          | failed ↦ some (
            err (
                error_from_win32 (W.get_last_error waited.1)
                  (fmt (txt "wait for the compaction of " ∷ W.path_string path ∷ []))),
            abandon handle event waited.1,
          )
          | signaled ↦ on_poll (poll_loop rounds event) event waited.1
          | elapsed ↦ on_poll (poll_loop rounds event) event waited.1
        ]

    -- What follows the start of the compaction.
    unfoldable pub follow : ℕ → W.Handle → ℕ → Rounds W.World (Unit {0})
    unfolding poll_loop
    follow rounds event started w =
        let told = progress (record { current = 1; total = 1 }) w in
        let polled = poll_loop rounds event w in
        if started == error_success
        then some (ok tt, told.1)
        else if started == error_io_pending
        then polled
        else some (err (error_from_win32 started compacting), w)

    unfoldable pub compact : ℕ → Rounds W.World (Unit {0})
    unfolding follow
    compact rounds w =
        let r = answered W W.create_event (txt "create the event for the compaction") w in
        elim r.0 [
          | err e ↦ some (err e, r.1)
          | ok event ↦
              let started = W.compact_virtual_disk handle event r.1 in
              scoped_rounds W event (follow rounds event started.0) started.1
        ]
