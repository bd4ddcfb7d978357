-- ===== src/Platform/WslHost/Waiting.antt =====
-- src/lib/platform/wsl_host.cpp: the wait for wsl.exe.
use wsldisk.Base.{
  ℕ, zero, suc, ◌-◌, ◌*◌, ◌≤◌, Bytes, false, Option, none, some, ◌==◌, ◌≡◌, ◌≢◌, ◌⊎◌, inl, inr,
  arith, refl, Bool-cases, Option-cases,
}
use wsldisk.Platform.Win32.{Win32, Waited, signaled, failed, elapsed}
use wsldisk.Platform.WslHost.{
  poll_slice_ms, slice_of, did_not_finish, WaitEnd, finished, broken, drain, drain_both, wait_loop,
}

pub Waited-cases : (a : Waited) → (a ≡ signaled) ⊎ ((a ≡ failed) ⊎ (a ≡ elapsed))
Waited-cases signaled = inl refl
Waited-cases failed = inr (inl refl)
Waited-cases elapsed = inr (inr refl)

module _ (W : Win32) (drains : ℕ) (process : W.Handle) (timeout : ℕ)
    (output errors : W.Handle) where
  -- Slices in a row that ran out, of so many milliseconds in all, each behind a reading of both pipes.
  unfoldable pub Lapsed : ℕ → ℕ → W.World → W.World → Type 0
  Lapsed zero ms w later = (ms ≡ 0) × (w ≡ later)
  Lapsed (suc n) ms w later =
      (out_text error_text : Bytes) × (r : Bytes × Bytes × W.World) × (slice : ℕ) × (drain_both W
          drains output errors out_text error_text w
        ≡ some r)
      × ((W.wait_for_single_object process slice r.2).0 ≡ elapsed)
      × (slice ≤ ms)
      × Lapsed n (ms - slice) (W.wait_for_single_object process slice r.2).1 later

  -- How a wait may end: because Windows says that the child has exited, or that the wait has failed;
  -- or with the child told to stop, and the error that says so, once slices of the whole of the
  -- remaining time have run out.
  unfoldable pub EndsWell : ℕ → W.World → Option (WaitEnd × W.World) → Type 0
  EndsWell ms start none = ⊥
  EndsWell ms start (some (finished out_text error_text, w)) =
      (slice : ℕ) × (before : W.World) × (W.wait_for_single_object process slice before
        ≡ (signaled, w))
  EndsWell ms start (some (broken e, w)) =
      ((slice : ℕ) × (before : W.World) × (W.wait_for_single_object process slice before
          ≡ (failed, w)))
      ⊎ ((e ≡ did_not_finish timeout)
          × (slices : ℕ) × (before : W.World) × Lapsed slices ms start before
          × (w ≡ W.terminate_process process 1 before))

  EndsWell-longer :
      (ms slice : ℕ) (out_text error_text : Bytes) (w : W.World) (r : Bytes × Bytes × W.World)
      (o : Option (WaitEnd × W.World))
      → drain_both W drains output errors out_text error_text w ≡ some r
      → (W.wait_for_single_object process slice r.2).0 ≡ elapsed
      → slice ≤ ms
      → EndsWell (ms - slice) (W.wait_for_single_object process slice r.2).1 o
      → EndsWell ms w o
  unfolding EndsWell Lapsed
  EndsWell-longer ms slice out_text error_text w r none e h le ends = ends
  EndsWell-longer ms slice out_text error_text w r (some (finished a b, later)) e h le ends = ends
  EndsWell-longer ms slice out_text error_text w r (some (broken x, later)) e h le (inl ends) =
      inl ends
  EndsWell-longer ms slice out_text error_text w r (some (broken x, later)) e h le
        (inr (same, n, before, lapsed, told)) =
      inr (same, suc n, before, (out_text, error_text, r, slice, e, h, le, lapsed), told)

  module _
      (drains_end : (pipe : W.Handle) (into : Bytes) (w : W.World)
        → drain W drains pipe into w ≢ none) where
    pub both_end :
        (out_text error_text : Bytes) (w : W.World)
        → (r : Bytes × Bytes × W.World) × (drain_both W drains output errors out_text error_text w
            ≡ some r)
    unfolding drain_both
    both_end out_text error_text w = elim (Option-cases (drain W drains output out_text w)) [
      | inl e ↦ absurd (drains_end output out_text w e)
      | inr ((out_read, w1), e) ↦ elim (Option-cases (drain W drains errors error_text w1)) [
        | inl e' ↦ absurd (drains_end errors error_text w1 e')
        | inr ((error_read, w2), e') ↦ ((out_read, error_read, w2), rw (drain_both, e, e') refl)
      ]
    ]

    -- One round, if the rounds that follow it end well.
    round :
        (rounds remaining : ℕ) (out_text error_text : Bytes) (w : W.World)
        → ((out_read error_read : Bytes) (later : W.World)
            → (remaining - slice_of remaining == 0) ≡ false
            → EndsWell (remaining - slice_of remaining) later (
                wait_loop W rounds drains process output errors timeout
                  (remaining - slice_of remaining)
                  out_read
                  error_read
                  later))
        → EndsWell remaining w (
            wait_loop W
              (suc rounds)
              drains
              process
              output
              errors
              timeout
              remaining
              out_text
              error_text
              w)
    unfolding wait_loop EndsWell Lapsed
    round rounds remaining out_text error_text w next =
        let ((out_read, error_read, w1), e) = both_end out_text error_text w in
        let waited : Waited × W.World = W.wait_for_single_object process (slice_of remaining) w1 in
        elim (Waited-cases waited.0) [
          | inl h ↦ rw (wait_loop, e, h) (slice_of remaining, w1, ground arith)
          | inr (inl h) ↦ rw (wait_loop, e, h) (inl (slice_of remaining, w1, ground arith))
          | inr (inr h) ↦ elim (Bool-cases (remaining - slice_of remaining == 0)) [
            | inl over ↦
                rw (wait_loop, e, h, over)
                  (inr (
                    refl,
                    1,
                    waited.1,
                    (
                      out_text,
                      error_text,
                      (out_read, error_read, w1),
                      slice_of remaining,
                      e,
                      h,
                      ground arith,
                      (ground arith, refl),
                    ),
                    refl,
                  ))
            | inr more ↦
                rw (wait_loop, e, h, more)
                  (EndsWell-longer remaining (slice_of remaining) out_text error_text w
                    (out_read, error_read, w1) _ e h (ground arith)
                    (next out_read error_read waited.1 more))
          ]
        ]

    -- If emptying a pipe ends within `drains` rounds in every world, so for a child that never writes on
    -- without a pause, the wait ends within one round for each slice of the timeout, and one more: Windows says that the child has exited, or that the wait has failed, or waits of the whole
    -- of the timeout have run out, and then the child was told to stop.
    pub wait_loop-EndsWell :
        (rounds remaining : ℕ) (out_text error_text : Bytes) (w : W.World)
        → remaining ≤ rounds * poll_slice_ms
        → EndsWell remaining w (
            wait_loop W
              (suc rounds)
              drains
              process
              output
              errors
              timeout
              remaining
              out_text
              error_text
              w)
    wait_loop-EndsWell zero remaining out_text error_text w enough =
        round zero remaining out_text error_text w
          (λ out_read error_read later more. absurd (ground arith))
    wait_loop-EndsWell (suc rounds) remaining out_text error_text w enough =
        round (suc rounds) remaining out_text error_text w (λ out_read error_read later more.
          wait_loop-EndsWell rounds (remaining - slice_of remaining) out_read error_read later
            (ground arith))
