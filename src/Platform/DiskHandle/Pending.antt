-- ===== src/Platform/DiskHandle/Pending.antt =====
-- src/lib/platform/virtual_disk.cpp: a compaction that was started is not left running.
use wsldisk.Base.{
  ℕ, zero, suc, ◌≤◌, ◌<◌, Bool, Option, none, some, ◌==◌, ◌≡◌, ◌≢◌, ◌⊎◌, inl, inr, arith, refl,
  Bool-cases,
}
use wsldisk.Errors.{Result, ok, err}
use wsldisk.WinPath.{FilePath}
use wsldisk.Interfaces.{DiskProgress}
use wsldisk.Platform.Win32Error.{error_success, error_io_pending}
use wsldisk.Platform.Win32.{Win32, DiskStatus, Waited}
use wsldisk.Platform.WslHost.Waiting.{Waited-cases}
use wsldisk.Platform.DiskHandle.{progress_poll_interval_ms, abandon, settle, on_poll, poll_loop}

module _ (W : Win32) (handle : W.Handle) (path : FilePath)
    (progress : DiskProgress → W.World → Bool × W.World) where
  abbrev asked : W.World → (ℕ × DiskStatus) × W.World
  asked w = W.get_virtual_disk_operation_progress handle w

  -- The compaction is over: Windows said so, and at most the callback ran after that.
  abbrev Over : ℕ → W.World → Type 0
  Over status w =
      (before : W.World) × ((asked before).0.0 ≡ error_success)
      × ((asked before).0.1.operation_status ≡ status)
      × ((w ≡ (asked before).1)
          ⊎ ((told : DiskProgress) × (w ≡ (progress told (asked before).1).1)))

  -- How polling may end: with success if the compaction succeeded; with an error if it failed, or if
  -- it was abandoned, with the event that it runs on.
  unfoldable pub EndsWell : W.Handle → Option (Result (Unit {0}) × W.World) → Type 0
  EndsWell event none = ⊥
  EndsWell event (some (ok u, w)) = Over error_success w
  EndsWell event (some (err e, w)) =
      ((status : ℕ) × (status ≢ error_io_pending) × (status ≢ error_success) × Over status w)
      ⊎ ((before : W.World) × (w ≡ abandon W handle event before))

  settle-EndsWell :
      (event : W.Handle) (w : W.World)
      → (asked w).0.0 ≡ error_success
      → (asked w).0.1.operation_status ≢ error_io_pending
      → EndsWell event (
          some (
            settle W handle path progress
              (asked w).0.1.operation_status
              (asked w).0.1.completion_value
              (asked w).1))
  unfolding settle EndsWell
  settle-EndsWell event w answer over =
      let raw : DiskStatus = (asked w).0.1 in
      elim (Bool-cases (raw.operation_status == error_success)) [
        | inl good ↦
            rw (settle, good)
              (
                w,
                answer,
                ground arith,
                inr (record { current = raw.completion_value; total = raw.completion_value }, refl),
              )
        | inr bad ↦
            rw (settle, bad)
              (inl (raw.operation_status, over, (λ e. ground arith), (w, answer, refl, inl refl)))
      ]

  -- The world behind a poll, with the callback told.
  abbrev pub behind : W.World → W.World
  behind w =
      let polled = asked w in
      (progress (record { current = polled.0.1.current_value; total = polled.0.1.completion_value })
        polled.1).1

  on_poll-EndsWell :
      (again : W.World → Option (Result (Unit {0}) × W.World)) (event : W.Handle) (w : W.World)
      → ((asked w).0.1.operation_status ≡ error_io_pending → EndsWell event (again (behind w)))
      → EndsWell event (on_poll W handle path progress again event w)
  unfolding on_poll EndsWell
  on_poll-EndsWell again event w next =
      let raw : DiskStatus = (asked w).0.1 in
      elim (Bool-cases ((asked w).0.0 == error_success)) [
        | inr bad ↦ rw (on_poll, bad) (inr ((asked w).1, refl))
        | inl good ↦ elim (Bool-cases (raw.operation_status == error_io_pending)) [
          | inr over ↦
              rw (on_poll, good, over) (settle-EndsWell event w (ground arith) (λ e. ground arith))
          | inl pending ↦
              let told : Bool × W.World =
                progress (record { current = raw.current_value; total = raw.completion_value })
                  (asked w).1 in
              elim (Bool-cases told.0) [
                | inl on ↦ rw (on_poll, good, pending, on) (next (ground arith))
                | inr stop ↦ rw (on_poll, good, pending, stop) (inr (told.1, refl))
              ]
        ]
      ]

  round :
      (rounds : ℕ) (event : W.Handle) (w : W.World)
      → (let waited = W.wait_for_single_object event progress_poll_interval_ms w in
          (asked waited.1).0.1.operation_status ≡ error_io_pending
          → EndsWell event (poll_loop W handle path progress rounds event (behind waited.1)))
      → EndsWell event (poll_loop W handle path progress (suc rounds) event w)
  unfolding poll_loop EndsWell
  round rounds event w next =
      let waited : Waited × W.World = W.wait_for_single_object event progress_poll_interval_ms w in
      let polled =
        on_poll-EndsWell (poll_loop W handle path progress rounds event) event waited.1 next in
      elim (Waited-cases waited.0) [
        | inr (inl h) ↦ rw (poll_loop, h) (inr (waited.1, refl))
        | inl h ↦ rw (poll_loop, h) polled
        | inr (inr h) ↦ rw (poll_loop, h) polled
      ]

  -- If each poll that finds the compaction pending brings it nearer to its end, polling notices the
  -- end: it returns within as many rounds as are left, and one more. It returns success only behind
  -- a poll that found the compaction successful, and an error only behind one that found it neither
  -- pending nor successful, or after the compaction was abandoned.
  pub poll_loop-EndsWell :
      (event : W.Handle) (left : W.World → ℕ)
      (nears : (w : W.World)
        → let waited = W.wait_for_single_object event progress_poll_interval_ms w in
          (asked waited.1).0.1.operation_status ≡ error_io_pending
          → left (behind waited.1) < left w)
      (rounds : ℕ) (w : W.World)
      → left w ≤ rounds
      → EndsWell event (poll_loop W handle path progress (suc rounds) event w)
  poll_loop-EndsWell event left nears zero w enough =
      round zero event w (λ pending. absurd (omega (arith, nears w pending)))
  poll_loop-EndsWell event left nears (suc rounds) w enough = round (suc rounds) event w (λ pending.
      poll_loop-EndsWell event left nears rounds
        (behind (W.wait_for_single_object event progress_poll_interval_ms w).1)
        (omega (arith, nears w pending)))
