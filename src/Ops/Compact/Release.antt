-- ===== src/Ops/Compact/Release.antt =====
-- The wait of src/lib/ops/compact.cpp for the disk (CompactOperation::release_disk).
use wsldisk.Base.{
  ℕ, zero, suc, ◌+◌, ◌/◌, ◌%◌, Bytes, txt, fmt, decimal, Bool, true, false, Option, List, [], ◌∷◌,
  leb, ◌==◌, if◌then◌else◌,
}
use wsldisk.Errors.{Error, distro_busy}
use wsldisk.Effects.{M, ◌>>=◌, ◌>>◌, pure, raise}
use wsldisk.WinPath.{FilePath}
use wsldisk.Interfaces.{Platform}
use wsldisk.Model.Distro.{Distro}
use wsldisk.Ops.Operation.{call, ask, emit, message, status}
use wsldisk.Ops.Compact.{
  CompactOptions, State, joined, poll_interval, tick_interval, suggested_longer_wait,
  others_running, others_running_excluding,
}

-- How the wait for the disk ends. The last is a limit of the model, which the wait does not meet.
pub data Wait : Type 0 where
  released : Wait
  gave_up : Wait
  out_of_fuel : Wait

abbrev pub none_left : List Bytes → Bool
none_left [] = true
none_left (n ∷ ns) = false

module _ (P : Platform) (distro : Option Distro) (path : FilePath) (options : CompactOptions) where
  -- What is told while the disk is still held, `waited` into the wait.
  unfoldable pub tell_waiting : ℕ → M (State P distro path options) (Unit {0})
  tell_waiting waited = do
    (if waited == 0
        then emit (
            message (
              txt
                "the WSL utility VM still has the disk open; it lets go about a minute after the last distribution stops"))
        else pure tt)
    (if waited % tick_interval == 0
        then emit (
            status (
              fmt (
                txt "waiting for the disk ... "
                ∷ decimal (waited / 1000)
                ∷ txt "s of "
                ∷ decimal (options.unlock_timeout / 1000)
                ∷ txt "s"
                ∷ [])))
        else pure tt)

  -- The loop of release_disk.
  unfoldable pub wait_loop : ℕ → Bool → ℕ → ℕ → M (State P distro path options) Wait
  wait_loop zero can_help deadline waited = pure out_of_fuel
  wait_loop (suc fuel) can_help deadline waited = do
    locked ← call (P.is_locked path)
    elim locked [
      | false ↦ pure released
      | true ↦ elim can_help [
        | false ↦ pure gave_up
        | true ↦ (do
          now ← ask P.now
          elim (leb deadline now) [
            | true ↦ pure gave_up
            | false ↦ (do
              tell_waiting waited
              ask (λ w. (tt, P.sleep_for poll_interval w))
              wait_loop fuel true deadline (waited + poll_interval))
          ])
      ]
    ]

  -- One round for each poll of the timeout, and two more.
  abbrev pub rounds : ℕ
  rounds = suc (options.unlock_timeout / poll_interval + 1)

  unfoldable pub still_held : List Bytes → Error
  unfolding joined suggested_longer_wait
  still_held others = record {
    code = distro_busy;
    message = fmt (
        P.path_string path
        ∷ txt " is "
        ∷ (elim others [
          | [] ↦ txt "still held by the WSL utility VM"
          | n ∷ ns ↦ fmt (txt "still open in " ∷ joined (n ∷ ns) ∷ [])
        ])
        ∷ []);
    remedy =
        if options.shutdown
        then txt
            "WSL has been shut down and something else still has the file open -- a backup agent, an antivirus scanner or Hyper-V Manager are the usual ones"
        else elim others [
          | [] ↦ fmt (
              txt
                "nothing is running, so the VM is still winding down -- it releases the disk about a minute after the last distribution stops. Raise the wait with `wsldisk config set wsl.unlock_timeout_seconds "
              ∷ decimal (suggested_longer_wait options.unlock_timeout)
              ∷ txt "`, or re-run with --shutdown to stop it now"
              ∷ [])
          | n ∷ ns ↦
              txt
                "the WSL utility VM keeps every disk open while any distribution runs; re-run with --shutdown to stop them all, or close them yourself first"
        ];
  }

  -- The refusal after the wait: who is running is asked again only if the wait could help.
  unfoldable pub refuse : List Bytes → Bool → M (State P distro path options) (Unit {0})
  unfolding still_held
  refuse blockers can_help = do
    others ← (if can_help then others_running P distro path options else pure blockers)
    raise (still_held others)

  unfoldable pub stop : Distro → M (State P distro path options) (Unit {0})
  stop d = if options.shutdown then call P.shutdown else call (P.terminate d.name)

  -- How release_disk ends, by how the wait did.
  unfoldable pub settle : List Bytes → Wait → M (State P distro path options) (Unit {0})
  unfolding refuse
  settle blockers released = pure tt
  settle blockers gave_up = refuse blockers (none_left blockers)
  settle blockers out_of_fuel = refuse blockers (none_left blockers)

  -- release_disk from its question to the clock.
  unfoldable pub await : List Bytes → M (State P distro path options) (Unit {0})
  unfolding settle
  await blockers = do
    now ← ask P.now
    waited ← wait_loop rounds (none_left blockers) (now + options.unlock_timeout) 0
    settle blockers waited

  unfoldable pub release_disk : Distro → M (State P distro path options) (Unit {0})
  unfolding stop await
  release_disk d = do
    stop d
    blockers ← others_running_excluding P distro path options d
    await blockers
