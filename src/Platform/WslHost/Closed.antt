-- ===== src/Platform/WslHost/Closed.antt =====
-- src/lib/platform/wsl_host.cpp: a run of wsl.exe returns, and holds no handle then.
use wsldisk.Base.{
  ℕ, suc, ◌+◌, ◌-◌, ◌*◌, ◌≤◌, Bytes, txt, Bool, true, false, Option, none, some, List, ◌∷◌,
  if◌then◌else◌, [], ◌≡◌, ◌≢◌, ◌∙◌, inl, inr, arith, refl, sym, Bool-cases, Option-cases,
}
use wsldisk.Errors.{Result, ok, err, Result-cases}
use wsldisk.WinPath.{Wide}
use wsldisk.Platform.CommandLine.{build_command_line}
use wsldisk.Platform.Win32.{Win32, scoped_rounds}
use wsldisk.Platform.WslHost.{
  poll_slice_ms, WaitEnd, finished, broken, Pipe, drain, wait_loop, WslRawResult, conclude, await,
  make_pipe, close_pipe, launch, run_wsl,
}
use wsldisk.Platform.WslHost.Waiting.{both_end, EndsWell, wait_loop-EndsWell}
use wsldisk.Platform.WslHost.Handles.{Ledger, Returns, drain_both-held, wait_loop-held}

module _ (W : Win32) (L : Ledger W) (k : W.Handle) where
  -- What a handle counts for k.
  abbrev one : W.Handle → ℕ
  one h = if L.same k h then 1 else 0

  -- A pipe is two handles, and no pipe is none.
  make_pipe-held :
      (child_reads : Bool) (w : W.World)
      → L.held k (make_pipe W child_reads w).1 ≡ (elim (make_pipe W child_reads w).0 [
        | err e ↦ L.held k w
        | ok pipe ↦ L.held k w + one pipe.read + one pipe.write
      ])
  unfolding make_pipe
  make_pipe-held child_reads w = elim (Option-cases (W.create_pipe w).0) [
    | inl h ↦ let taken = L.pipe_takes k w in rw (make_pipe, h) (rw h at taken)
    | inr ((read_end, write_end), h) ↦
        let taken = L.pipe_takes k w in
        let now = rw h at taken in
        let w1 : W.World = (W.create_pipe w).1 in
        let parent : W.Handle = if child_reads then write_end else read_end in
        let w2 : W.World = (W.set_handle_information parent w1).1 in
        elim (Bool-cases (W.set_handle_information parent w1).0) [
          | inl set ↦ rw (make_pipe, h, set) (L.set_keeps k parent w1 ∙ now)
          | inr unset ↦
              rw (make_pipe, h, unset)
                (omega (
                  arith,
                  now,
                  L.set_keeps k parent w1,
                  L.close_gives_back k write_end w2,
                  L.close_gives_back k read_end (W.close_handle write_end w2),
                ))
        ]
  ]

  module _ (drains : ℕ)
      (drains_end : (pipe : W.Handle) (into : Bytes) (w : W.World)
        → drain W drains pipe into w ≢ none) where
    conclude-Returns :
        (process output errors : W.Handle) (ended : WaitEnd) (w : W.World)
        → Returns W L k (L.held k w) (conclude W drains process output errors ended w)
    unfolding conclude Returns
    conclude-Returns process output errors (broken e) w = refl
    conclude-Returns process output errors (finished out_text error_text) w =
        let ((out_read, error_read, w1), e) =
          both_end W drains process 0 output errors drains_end out_text error_text w in
        rw (conclude, e)
          (L.exit_code_keeps k process w1
            ∙ drain_both-held W L k drains output errors out_text error_text w e)

    await-Returns :
        (rounds : ℕ) (process output errors : W.Handle) (timeout : ℕ) (w : W.World)
        → timeout ≤ rounds * poll_slice_ms
        → Returns W L k (L.held k w) (await W (suc rounds) drains process output errors timeout w)
    unfolding await Returns EndsWell
    await-Returns rounds process output errors timeout w enough =
        let ends =
          wait_loop-EndsWell W drains process timeout output errors drains_end rounds timeout [] []
            w enough in
        elim (Option-cases
          (wait_loop W (suc rounds) drains process output errors timeout timeout [] [] w)) [
            | inl e ↦ absurd (rw (EndsWell, e) at ends)
            | inr ((ended, w1), e) ↦
                rw (await, e)
                  (rw
                    (sym (
                      wait_loop-held W L k (suc rounds) drains process output errors timeout timeout
                        [] [] w e))
                    (conclude-Returns process output errors ended w1))
          ]

    scoped_rounds-Returns :
        {A : Type 0} (n : ℕ) (h : W.Handle) (body : W.World → Option (Result A × W.World))
        (w : W.World)
        → Returns W L k n (body w)
        → Returns W L k (n - one h) (scoped_rounds W h body w)
    unfolding Returns
    scoped_rounds-Returns n h body w r = elim (Option-cases (body w)) [
      | inl e ↦ absurd (rw (Returns, e) at r)
      | inr ((a, later), e) ↦
          let held_then = rw (Returns, e) at r in
          rw (scoped_rounds, e) (omega (arith, held_then, L.close_gives_back k h later))
    ]

    close_pipe-held :
        (write_closed : Bool) (pipe : Pipe W.Handle) (w : W.World)
        → L.held k (close_pipe W write_closed pipe w) ≡ (
            if write_closed
            then L.held k w - one pipe.read
            else L.held k w - one pipe.write - one pipe.read)
    close_pipe-held true pipe w = L.close_gives_back k pipe.read w
    close_pipe-held false pipe w = omega (
      arith,
      L.close_gives_back k pipe.read (W.close_handle pipe.write w),
      L.close_gives_back k pipe.write w,
    )

    -- The end of the three pipes.
    pipes-held :
        (write_closed : Bool) (input output errors : Pipe W.Handle) (n : ℕ) (w : W.World)
        → L.held k w ≡ (
            if write_closed
            then n + one input.read + one output.read + one errors.read
            else n
              + one input.read
              + one output.read
              + one errors.read
              + one input.write
              + one output.write
              + one errors.write)
        → L.held k (
            close_pipe W write_closed input
              (close_pipe W write_closed output (close_pipe W write_closed errors w)))
          ≡ n
    pipes-held write_closed input output errors n w h = ground (
      arith,
      h,
      close_pipe-held write_closed errors w,
      close_pipe-held write_closed output (close_pipe W write_closed errors w),
      close_pipe-held write_closed input
          (close_pipe W write_closed output (close_pipe W write_closed errors w)),
    )

    -- Six handles are held as the child is started.
    launch-Returns :
        (rounds : ℕ) (arguments : List Wide) (timeout n : ℕ) (input output errors : Pipe W.Handle)
        (w : W.World)
        → timeout ≤ rounds * poll_slice_ms
        → L.held k w
          ≡ n
            + one input.read
            + one output.read
            + one errors.read
            + one input.write
            + one output.write
            + one errors.write
        → Returns W L k n (launch W (suc rounds) drains arguments timeout input output errors w)
    unfolding launch Returns
    launch-Returns rounds arguments timeout n input output errors w enough six =
        let line : Wide = build_command_line (txt "wsl.exe" ∷ arguments) in
        let handles : Option (W.Handle × W.Handle × W.Handle) =
          some (input.read, output.write, errors.write) in
        let taken = L.process_takes k line handles w in
        let w1 : W.World = (W.create_process line handles w).1 in
        elim (Option-cases (W.create_process line handles w).0) [
          | inl h ↦
              let now = rw h at taken in
              rw (launch, h) (pipes-held false input output errors n w1 (now ∙ six))
          | inr ((process, thread), h) ↦
              let now = rw h at taken in
              let closed : W.World =
                W.close_handle errors.write
                  (W.close_handle output.write (W.close_handle input.write w1)) in
              let five : L.held k closed
                  ≡ n
                    + one input.read
                    + one output.read
                    + one errors.read
                    + one process
                    + one thread =
                omega (
                  arith,
                  six,
                  now,
                  L.close_gives_back k input.write w1,
                  L.close_gives_back k output.write (W.close_handle input.write w1),
                  L.close_gives_back k errors.write
                      (W.close_handle output.write (W.close_handle input.write w1)),
                ) in
              let ran : W.World → Option (Result WslRawResult × W.World) =
                await W (suc rounds) drains process output.read errors.read timeout in
              let returns =
                scoped_rounds-Returns (L.held k closed - one thread) process
                  (scoped_rounds W thread ran) closed
                  (scoped_rounds-Returns (L.held k closed) thread ran closed
                    (await-Returns rounds process output.read errors.read timeout closed enough)) in
              elim (Option-cases (scoped_rounds W process (scoped_rounds W thread ran) closed)) [
                | inl e ↦ absurd (rw (Returns, e) at returns)
                | inr ((a, later), e) ↦
                    let three = rw (Returns, e) at returns in
                    rw (launch, h, e)
                      (pipes-held true input output errors n later (omega (arith, three, five)))
              ]
        ]

    -- A run of wsl.exe returns within one round for each slice of its timeout and one more, if emptying
    -- a pipe ends within `drains` rounds in every world, so for a child that never writes on without a
    -- pause. However it ends, also where a pipe or the child could not be created, each handle is then
    -- held as often as before: every handle that was opened is closed, and none but those.
    pub run_wsl-Returns :
        (rounds : ℕ) (arguments : List Wide) (timeout : ℕ) (w : W.World)
        → timeout ≤ rounds * poll_slice_ms
        → Returns W L k (L.held k w) (run_wsl W (suc rounds) drains arguments timeout w)
    unfolding run_wsl Returns
    run_wsl-Returns rounds arguments timeout w enough =
        let input : Result (Pipe W.Handle) × W.World = make_pipe W true w in
        let first = make_pipe-held true w in
        elim (Result-cases input.0) [
          | inl (e, h) ↦ rw (run_wsl, h) (rw h at first)
          | inr (input_pipe, h) ↦
              let two = rw h at first in
              let output : Result (Pipe W.Handle) × W.World = make_pipe W false input.1 in
              let second = make_pipe-held false input.1 in
              elim (Result-cases output.0) [
                | inl (e, h') ↦
                    let still = rw h' at second in
                    rw (run_wsl, h, h')
                      (omega (arith, two, still, close_pipe-held false input_pipe output.1))
                | inr (output_pipe, h') ↦
                    let four = rw h' at second in
                    let errors : Result (Pipe W.Handle) × W.World = make_pipe W false output.1 in
                    let third = make_pipe-held false output.1 in
                    elim (Result-cases errors.0) [
                      | inl (e, h'') ↦
                          let still = rw h'' at third in
                          rw (run_wsl, h, h', h'')
                            (omega (
                              arith,
                              two,
                              four,
                              still,
                              close_pipe-held false output_pipe errors.1,
                              close_pipe-held false input_pipe
                                  (close_pipe W false output_pipe errors.1),
                            ))
                      | inr (error_pipe, h'') ↦
                          let six = rw h'' at third in
                          rw (run_wsl, h, h', h'')
                            (launch-Returns rounds arguments timeout (L.held k w) input_pipe
                              output_pipe error_pipe errors.1 enough
                              (omega (arith, two, four, six)))
                    ]
              ]
        ]
