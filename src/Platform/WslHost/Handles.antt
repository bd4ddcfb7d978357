-- ===== src/Platform/WslHost/Handles.antt =====
-- src/lib/platform/wsl_host.cpp: the handles that a run of wsl.exe opens.
use wsldisk.Base.{
  ℕ, zero, suc, ◌+◌, ◌-◌, Bytes, Bool, if◌then◌else◌, Option, none, some, ◌==◌, ◌++◌, ◌≡◌, ◌∙◌, inl,
  inr, arith, Bool-cases, Option-cases,
}
use wsldisk.WinPath.{Wide}
use wsldisk.Platform.Win32.{Win32, Waited}
use wsldisk.Platform.WslHost.{slice_of, WaitEnd, drain_once, drain, drain_both, wait_loop}
use wsldisk.Platform.WslHost.Waiting.{Waited-cases}

-- The handles that the process holds, and which calls change that. `held k w` counts those that are
-- open and have the value of k.
pub record Ledger (W : Win32) : Type 0 where
  pub same : W.Handle → W.Handle → Bool
  pub held : W.Handle → W.World → ℕ
  pub close_gives_back :
      (k h : W.Handle) (w : W.World)
      → held k (W.close_handle h w) ≡ held k w - (if same k h then 1 else 0)
  pub pipe_takes :
      (k : W.Handle) (w : W.World)
      → held k (W.create_pipe w).1 ≡ (elim (W.create_pipe w).0 [
        | none ↦ held k w
        | some (read_end, write_end) ↦
            held k w + (if same k read_end then 1 else 0) + (if same k write_end then 1 else 0)
      ])
  pub process_takes :
      (k : W.Handle) (line : Wide) (handles : Option (W.Handle × W.Handle × W.Handle)) (w : W.World)
      → held k (W.create_process line handles w).1 ≡ (elim (W.create_process line handles w).0 [
        | none ↦ held k w
        | some (process, thread) ↦
            held k w + (if same k process then 1 else 0) + (if same k thread then 1 else 0)
      ])
  pub set_keeps :
      (k h : W.Handle) (w : W.World) → held k (W.set_handle_information h w).1 ≡ held k w
  pub peek_keeps : (k h : W.Handle) (w : W.World) → held k (W.peek_named_pipe h w).1 ≡ held k w
  pub read_keeps :
      (k h : W.Handle) (count : ℕ) (w : W.World) → held k (W.read_file h count w).1 ≡ held k w
  pub wait_keeps :
      (k h : W.Handle) (slice : ℕ) (w : W.World)
      → held k (W.wait_for_single_object h slice w).1 ≡ held k w
  pub exit_code_keeps :
      (k h : W.Handle) (w : W.World) → held k (W.get_exit_code_process h w).1 ≡ held k w
  pub terminate_keeps :
      (k h : W.Handle) (code : ℕ) (w : W.World) → held k (W.terminate_process h code w) ≡ held k w

module _ (W : Win32) (L : Ledger W) (k : W.Handle) where
  -- A loop that returned, with so many handles held.
  unfoldable pub Returns : {A : Type 0} → ℕ → Option (A × W.World) → Type 0
  Returns n none = ⊥
  Returns n (some (a, w)) = L.held k w ≡ n

  drain_once-held : (pipe : W.Handle) (w : W.World) → L.held k (drain_once W pipe w).1 ≡ L.held k w
  unfolding drain_once
  drain_once-held pipe w = elim (Option-cases (W.peek_named_pipe pipe w).0) [
    | inl e ↦ rw (drain_once, e) (L.peek_keeps k pipe w)
    | inr (n, e) ↦ elim (Bool-cases (n == 0)) [
      | inl none_left ↦ rw (drain_once, e, none_left) (L.peek_keeps k pipe w)
      | inr more ↦
          rw (drain_once, e, more)
            (L.read_keeps k pipe _ (W.peek_named_pipe pipe w).1 ∙ L.peek_keeps k pipe w)
    ]
  ]

  drain-held :
      (rounds : ℕ) (pipe : W.Handle) (into : Bytes) (w : W.World) {r : Bytes × W.World}
      → drain W rounds pipe into w ≡ some r
      → L.held k r.1 ≡ L.held k w
  unfolding drain
  drain-held zero pipe into w {r} h = cc
  drain-held (suc rounds) pipe into w {r} h = elim (Option-cases (drain_once W pipe w).0) [
    | inl e ↦ let q = rw (drain, e) at h in ground (arith, drain_once-held pipe w)
    | inr (bytes, e) ↦
        let q = rw (drain, e) at h in
        drain-held rounds pipe (into ++ bytes) (drain_once W pipe w).1 q ∙ drain_once-held pipe w
  ]

  pub drain_both-held :
      (rounds : ℕ) (output errors : W.Handle) (out_text error_text : Bytes) (w : W.World)
      {r : Bytes × Bytes × W.World}
      → drain_both W rounds output errors out_text error_text w ≡ some r
      → L.held k r.2 ≡ L.held k w
  unfolding drain_both
  drain_both-held rounds output errors out_text error_text w {r} h =
      elim (Option-cases (drain W rounds output out_text w)) [
        | inl e ↦ let q = rw (drain_both, e) at h in cc
        | inr ((out_read, w1), e) ↦
            let q = rw (drain_both, e) at h in
            elim (Option-cases (drain W rounds errors error_text w1)) [
              | inl e' ↦ let q' = rw (drain_both, e') at q in cc
              | inr ((error_read, w2), e') ↦
                  let q' = rw (drain_both, e') at q in
                  ground (
                    arith,
                    drain-held rounds output out_text w e,
                    drain-held rounds errors error_text w1 e',
                  )
            ]
      ]

  pub wait_loop-held :
      (rounds drains : ℕ) (process output errors : W.Handle) (timeout remaining : ℕ)
      (out_text error_text : Bytes) (w : W.World) {r : WaitEnd × W.World}
      → wait_loop W rounds drains process output errors timeout remaining out_text error_text w
        ≡ some r
      → L.held k r.1 ≡ L.held k w
  unfolding wait_loop
  wait_loop-held zero drains process output errors timeout remaining out_text error_text w {r} h =
      cc
  wait_loop-held (suc rounds) drains process output errors timeout remaining out_text error_text w
        {r} h =
      elim (Option-cases (drain_both W drains output errors out_text error_text w)) [
        | inl e ↦ let q = rw (wait_loop, e) at h in cc
        | inr ((out_read, error_read, w1), e) ↦
            let q = rw (wait_loop, e) at h in
            let waited : Waited × W.World =
              W.wait_for_single_object process (slice_of remaining) w1 in
            let same : L.held k waited.1 ≡ L.held k w =
              L.wait_keeps k process (slice_of remaining) w1
              ∙ drain_both-held drains output errors out_text error_text w e in
            elim (Waited-cases waited.0) [
              | inl x ↦ let q' = rw x at q in ground (arith, same)
              | inr (inl x) ↦ let q' = rw x at q in ground (arith, same)
              | inr (inr x) ↦
                  let q' = rw x at q in
                  elim (Bool-cases (remaining - slice_of remaining == 0)) [
                    | inl over ↦
                        let q'' = rw over at q' in
                        ground (arith, same, L.terminate_keeps k process 1 waited.1)
                    | inr more ↦
                        let q'' = rw more at q' in
                        wait_loop-held rounds drains process output errors timeout
                          (remaining - slice_of remaining) out_read error_read waited.1 q''
                        ∙ same
                  ]
            ]
      ]
