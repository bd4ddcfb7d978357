-- ===== src/Platform/WslHost.antt =====
-- src/lib/platform/wsl_host.cpp: running wsl.exe and reading what it prints.
pub mod Waiting
pub mod Handles
pub mod Closed
use wsldisk.Base.{
  ℕ, zero, suc, ◌+◌, ◌-◌, Bytes, txt, fmt, is_empty, starts_with, any, decimal, Bool, true, false,
  not, ◌&&◌, Option, none, some, List, [], ◌∷◌, ◌++◌, ltb, leb, ◌==◌, if◌then◌else◌, map,
}
use wsldisk.Base.Int.{ℤ, pos, negsuc, decimal_ℤ}
use wsldisk.Errors.{Error, generic, usage, Result, ok, err, fail, Status}
use wsldisk.WinPath.{Wide, FilePath}
use wsldisk.Interfaces.{WslCommandResult}
use wsldisk.Model.Text.{to_wide}
use wsldisk.Model.WslOutput.{decode_utf16le, parse_distribution_list}
use wsldisk.Platform.CommandLine.{build_command_line}
use wsldisk.Platform.Win32Error.{error_from_win32}
use wsldisk.Platform.Win32.{
  Win32, Waited, signaled, failed, elapsed, Rounds, answered, scoped_rounds,
}

abbrev pub poll_slice_ms : ℕ
poll_slice_ms = 50

abbrev pub read_chunk : ℕ
read_chunk = 8192

-- What run_wsl captures, as WslRawResult: the exit code is an int.
abbrev pub WslRawResult : Type 0
WslRawResult = WslCommandResult

-- static_cast<int> of a DWORD.
unfoldable pub to_int : ℕ → ℤ
to_int n = if ltb n 0x80000000 then pos n else negsuc (0xFFFFFFFF - n)

pub record Pipe (H : Type 0) : Type 0 where
  pub read : H
  pub write : H

abbrev control_timeout : ℕ
control_timeout = 60000

unfoldable pub decode_stream : Bytes → Bytes
decode_stream raw = if any (λ c. c == 0) raw then decode_utf16le raw else raw

-- The slice that is waited for next.
abbrev pub slice_of : ℕ → ℕ
slice_of remaining = if ltb remaining poll_slice_ms then remaining else poll_slice_ms

unfoldable pub did_not_finish : ℕ → Error
did_not_finish timeout = record {
  code = generic;
  message = fmt (txt "wsl.exe did not finish within " ∷ decimal timeout ∷ txt " ms" ∷ []);
  remedy =
      txt "re-run with a longer timeout, or check whether WSL is responding with `wsl --status`";
}

-- How the wait for the child ended, with what it had printed.
pub data WaitEnd : Type 0 where
  finished : Bytes → Bytes → WaitEnd
  broken : Error → WaitEnd

module _ (W : Win32) where
  -- A round of the loop of drain: what was read, if there is more to read.
  unfoldable pub drain_once : W.Handle → W.World → Option Bytes × W.World
  drain_once pipe w =
      let peeked = W.peek_named_pipe pipe w in
      elim peeked.0 [
        | none ↦ (none, peeked.1)
        | some available ↦
            let r =
              W.read_file pipe (if ltb available read_chunk then available else read_chunk)
                peeked.1 in
            if available == 0
            then (none, peeked.1)
            else (elim r.0 [ none ↦ none | some [] ↦ none | some (c ∷ s) ↦ some (c ∷ s) ], r.1)
      ]

  unfoldable pub drain : ℕ → W.Handle → Bytes → W.World → Option (Bytes × W.World)
  unfolding drain_once
  drain zero pipe into w = none
  drain (suc rounds) pipe into w =
      let r = drain_once pipe w in
      elim r.0 [ none ↦ some (into, r.1) | some bytes ↦ drain rounds pipe (into ++ bytes) r.1 ]

  -- Both streams, one after the other.
  unfoldable pub drain_both :
      ℕ → W.Handle → W.Handle → Bytes → Bytes → W.World → Option (Bytes × Bytes × W.World)
  unfolding drain
  drain_both rounds output errors out_text error_text w = elim (drain rounds output out_text w) [
    | none ↦ none
    | some (out_read, w1) ↦ elim (drain rounds errors error_text w1) [
      | none ↦ none
      | some (error_read, w2) ↦ some (out_read, error_read, w2)
    ]
  ]

  -- The loop that waits for the child. `remaining` is what is left of the timeout.
  unfoldable pub wait_loop :
      ℕ
      → ℕ
      → W.Handle
      → W.Handle
      → W.Handle
      → ℕ
      → ℕ
      → Bytes
      → Bytes
      → W.World
      → Option (WaitEnd × W.World)
  unfolding drain_both did_not_finish
  wait_loop zero drains process output errors timeout remaining out_text error_text w = none
  wait_loop (suc rounds) drains process output errors timeout remaining out_text error_text w =
      elim (drain_both drains output errors out_text error_text w) [
        | none ↦ none
        | some (out_read, error_read, w1) ↦
            let waited = W.wait_for_single_object process (slice_of remaining) w1 in
            let left = remaining - slice_of remaining in
            let again =
              wait_loop rounds drains process output errors timeout left out_read error_read
                waited.1 in
            elim waited.0 [
              | failed ↦ some (
                broken (
                    error_from_win32 (W.get_last_error waited.1)
                      (txt "wait for wsl.exe to finish")),
                waited.1,
              )
              | signaled ↦ some (finished out_read error_read, waited.1)
              | elapsed ↦
                  if left == 0
                  then some
                      (broken (did_not_finish timeout), W.terminate_process process 1 waited.1)
                  else again
            ]
      ]

  -- What follows the wait.
  unfoldable pub conclude :
      ℕ → W.Handle → W.Handle → W.Handle → WaitEnd → Rounds W.World WslRawResult
  unfolding drain_both to_int
  conclude drains process output errors (broken e) w = some (err e, w)
  conclude drains process output errors (finished out_text error_text) w =
      elim (drain_both drains output errors out_text error_text w) [
        | none ↦ none
        | some (out_read, error_read, w1) ↦
            let r =
              answered W (W.get_exit_code_process process) (txt "read the exit code of wsl.exe")
                w1 in
            some (
              elim r.0 [
                | err e ↦ err e
                | ok code ↦ ok (record {
                  exit_code = to_int code;
                  standard_output = out_read;
                  standard_error = error_read;
                })
              ],
              r.1,
            )
      ]

  unfoldable pub await : ℕ → ℕ → W.Handle → W.Handle → W.Handle → ℕ → Rounds W.World WslRawResult
  unfolding wait_loop conclude
  await rounds drains process output errors timeout w =
      elim (wait_loop rounds drains process output errors timeout timeout [] [] w) [
        | none ↦ none
        | some (ended, w1) ↦ conclude drains process output errors ended w1
      ]

  -- The pipe, or the error. On an error what was opened is closed, the write end first.
  unfoldable pub make_pipe : Bool → W.World → Result (Pipe W.Handle) × W.World
  make_pipe child_reads w =
      let r = answered W W.create_pipe (txt "create a pipe for the wsl.exe output") w in
      elim r.0 [
        | err e ↦ (err e, r.1)
        | ok (read_end, write_end) ↦
            let set = W.set_handle_information (if child_reads then write_end else read_end) r.1 in
            if set.0 then (ok (record { read = read_end; write = write_end }), set.1) else (
              err (
                  error_from_win32 (W.get_last_error set.1)
                    (txt "configure the wsl.exe output pipe")),
              W.close_handle read_end (W.close_handle write_end set.1),
            )
      ]

  -- What destroying a pipe closes, if its write end is open or closed.
  abbrev pub close_pipe : Bool → Pipe W.Handle → W.World → W.World
  close_pipe write_closed pipe w =
      W.close_handle pipe.read (if write_closed then w else W.close_handle pipe.write w)

  abbrev close_pipes : Bool → Pipe W.Handle → Pipe W.Handle → Pipe W.Handle → W.World → W.World
  close_pipes write_closed input output errors w =
      close_pipe write_closed input
        (close_pipe write_closed output (close_pipe write_closed errors w))

  abbrev not_started : ℕ → Error
  not_started code = record (error_from_win32 code (txt "run wsl.exe")) {
    remedy = txt "check that WSL is installed and on PATH; `wsl --status` should answer";
  }

  -- The child, with the three pipes: every handle is closed on the way out.
  unfoldable pub launch :
      ℕ
      → ℕ
      → List Wide
      → ℕ
      → Pipe W.Handle
      → Pipe W.Handle
      → Pipe W.Handle
      → Rounds W.World WslRawResult
  unfolding await
  launch rounds drains arguments timeout input output errors w =
      let started =
        W.create_process (build_command_line (txt "wsl.exe" ∷ arguments))
          (some (input.read, output.write, errors.write)) w in
      elim started.0 [
        | none ↦ some (
          err (not_started (W.get_last_error started.1)),
          close_pipes false input output errors started.1,
        )
        | some (process, thread) ↦
            let closed =
              W.close_handle errors.write
                (W.close_handle output.write (W.close_handle input.write started.1)) in
            elim (scoped_rounds W process
              (scoped_rounds W thread (await rounds drains process output.read errors.read timeout))
              closed) [
                | none ↦ none
                | some r ↦ some (r.0, close_pipes true input output errors r.1)
              ]
      ]

  unfoldable pub run_wsl : ℕ → ℕ → List Wide → ℕ → Rounds W.World WslRawResult
  unfolding make_pipe launch
  run_wsl rounds drains arguments timeout w =
      let input = make_pipe true w in
      elim input.0 [
        | err e ↦ some (err e, input.1)
        | ok input_pipe ↦
            let output = make_pipe false input.1 in
            elim output.0 [
              | err e ↦ some (err e, close_pipe false input_pipe output.1)
              | ok output_pipe ↦
                  let errors = make_pipe false output.1 in
                  elim errors.0 [
                    | err e ↦
                        some (
                          err e,
                          close_pipe false input_pipe (close_pipe false output_pipe errors.1),
                        )
                    | ok error_pipe ↦
                        launch rounds drains arguments timeout input_pipe output_pipe error_pipe
                          errors.1
                  ]
            ]
      ]

  -- A run of wsl.exe, with what is made of its result.
  abbrev with_run :
      {A : Type 0} → ℕ → ℕ → List Wide → ℕ → (WslRawResult → Result A) → Rounds W.World A
  with_run rounds drains arguments timeout made w =
      elim (run_wsl rounds drains arguments timeout w) [
        | none ↦ none
        | some r ↦ some (elim r.0 [ err e ↦ err e | ok raw ↦ made raw ], r.1)
      ]

  abbrev is_zero : ℤ → Bool
  is_zero code = elim code [ pos n ↦ n == 0 | negsuc n ↦ false ]

  unfoldable pub run_for_status : ℕ → ℕ → List Wide → ℕ → Bytes → Rounds W.World (Unit {0})
  unfolding run_wsl fail
  run_for_status rounds drains arguments timeout what =
      with_run rounds drains arguments timeout (λ raw.
        if is_zero raw.exit_code
        then ok tt
        else fail generic
            (fmt (what ∷ txt " failed (wsl.exe exited " ∷ decimal_ℤ raw.exit_code ∷ txt ")" ∷ []))
            (txt "run the same command by hand to see what WSL reports"))

  unfoldable pub running : ℕ → ℕ → Rounds W.World (List Bytes)
  unfolding run_wsl fail
  running rounds drains =
      with_run rounds drains (txt "--list" ∷ txt "--running" ∷ txt "--quiet" ∷ []) control_timeout
        (λ raw.
          if not (is_zero raw.exit_code) && not (is_empty raw.standard_output)
          then fail generic
              (fmt (txt "wsl.exe --list --running exited " ∷ decimal_ℤ raw.exit_code ∷ []))
              (txt "run `wsl --list --running` by hand to see what WSL reports")
          else ok (parse_distribution_list raw.standard_output))

  unfoldable pub terminate : ℕ → ℕ → Bytes → Rounds W.World (Unit {0})
  unfolding run_for_status
  terminate rounds drains name =
      run_for_status rounds drains (txt "--terminate" ∷ to_wide name ∷ []) control_timeout
        (fmt (txt "terminating " ∷ name ∷ []))

  unfoldable pub shutdown : ℕ → ℕ → Rounds W.World (Unit {0})
  unfolding run_for_status
  shutdown rounds drains =
      run_for_status rounds drains (txt "--shutdown" ∷ []) control_timeout (txt "shutting WSL down")

  abbrev no_command : Error
  no_command = record {
    code = usage;
    message = txt "no command was given to run in the distribution";
    remedy = txt "pass the absolute path of the guest program to run";
  }

  abbrev not_absolute : Bytes → Error
  not_absolute program = record {
    code = usage;
    message = fmt (txt "`" ∷ program ∷ txt "` is not an absolute path in the distribution" ∷ []);
    remedy = txt "wsl --exec does not search PATH; pass a full path such as /usr/sbin/fstrim";
  }

  unfoldable pub run_as_root : ℕ → ℕ → Bytes → List Bytes → ℕ → Rounds W.World WslCommandResult
  unfolding run_wsl decode_stream
  run_as_root rounds drains name [] timeout w = some (err no_command, w)
  run_as_root rounds drains name (program ∷ argv) timeout w =
      let ran =
        with_run rounds drains
          (txt "-d"
            ∷ to_wide name
            ∷ txt "-u"
            ∷ txt "root"
            ∷ txt "--exec"
            ∷ map to_wide (program ∷ argv))
          timeout
          (λ raw. ok (record {
            exit_code = raw.exit_code;
            standard_output = decode_stream raw.standard_output;
            standard_error = decode_stream raw.standard_error;
          }))
          w in
      if starts_with program (txt "/") then ran else some (err (not_absolute program), w)

  unfoldable pub mount_bare : ℕ → ℕ → FilePath → Rounds W.World (Unit {0})
  unfolding run_for_status
  mount_bare rounds drains vhdx =
      run_for_status rounds drains (txt "--mount" ∷ vhdx ∷ txt "--vhd" ∷ txt "--bare" ∷ [])
        control_timeout (fmt (txt "attaching " ∷ W.path_string vhdx ∷ []))

  unfoldable pub unmount : ℕ → ℕ → FilePath → Rounds W.World (Unit {0})
  unfolding run_for_status
  unmount rounds drains vhdx =
      run_for_status rounds drains (txt "--unmount" ∷ vhdx ∷ []) control_timeout
        (fmt (txt "detaching " ∷ W.path_string vhdx ∷ []))
