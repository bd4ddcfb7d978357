-- ===== src/Ops/Compact/Waiting.antt =====
-- The wait of src/lib/ops/compact.cpp for the disk: that it ends, and what its end means.
use wsldisk.Base.{
  ℕ, zero, suc, ◌+◌, ◌*◌, ◌/◌, ◌≤◌, ◌<◌, Bool, true, false, ◌≡◌, arith, leb, Option, inl, inr, ◌⊎◌,
  Bool-cases,
}
use wsldisk.Errors.{ok, err, Result, Result-cases}
use wsldisk.Effects.{M}
use wsldisk.WinPath.{FilePath}
use wsldisk.Interfaces.{Platform}
use wsldisk.Model.Distro.{Distro}
use wsldisk.Ops.Compact.{CompactOptions, State, poll_interval}
use wsldisk.Ops.Compact.Release.{
  Wait, released, gave_up, out_of_fuel, wait_loop, tell_waiting, rounds,
}

-- A monotonic clock, as IClock documents it: asking the time or the lock takes time at most, and a
-- sleep lasts at least as long as it was asked to.
pub record Clocked (P : Platform) : Type 0 where
  pub time : P.World → ℕ
  pub now_tells : (w : P.World) → time w ≤ (P.now w).0
  pub now_passes : (w : P.World) → (P.now w).0 ≤ time (P.now w).1
  pub sleep_passes : (d : ℕ) (w : P.World) → time w + d ≤ time (P.sleep_for d w)
  pub lock_passes : (path : FilePath) (w : P.World) → time w ≤ time (P.is_locked path w).1

module _ (P : Platform) (C : Clocked P) (distro : Option Distro) (path : FilePath)
    (options : CompactOptions) where
  told_world :
      (waited : ℕ) (s : State P distro path options)
      → ((tell_waiting P distro path options waited s).1.world ≡ s.world)
        × ((tell_waiting P distro path options waited s).0 ≡ ok tt)
  unfolding tell_waiting
  told_world waited s = (ground arith, ground arith)

  -- One round that finds the disk held and the deadline ahead.
  rested : ℕ → State P distro path options → State P distro path options
  rested waited s =
      let t = record s { world = (P.now (P.is_locked path s.world).1).1 } in
      let u = (tell_waiting P distro path options waited t).1 in
      record u { world = P.sleep_for poll_interval u.world }

  rested-time :
      (waited : ℕ) (s : State P distro path options)
      → C.time s.world + poll_interval ≤ C.time (rested waited s).world
  unfolding rested
  rested-time waited s =
      let asked = (P.is_locked path s.world).1 in
      let (told, fine) = told_world waited (record s { world = (P.now asked).1 }) in
      rw told (
        omega (
          arith,
          C.lock_passes path s.world,
          C.now_tells asked,
          C.now_passes asked,
          C.sleep_passes poll_interval (P.now asked).1,
        ))

  -- What the end of the wait says of the world that it leaves: the disk is free as that world was
  -- reached, or it was held and waiting on could not help or the deadline has passed, or it could
  -- not be asked.
  unfoldable pub Sound : Bool → ℕ → Result Wait → P.World → Type 0
  Sound can_help deadline (ok released) w =
      (before : P.World) × (P.is_locked path before ≡ (ok false, w))
  Sound can_help deadline (ok gave_up) w =
      (before : P.World) × ((P.is_locked path before).0 ≡ ok true)
      × ((can_help ≡ false) ⊎ (deadline ≤ C.time w))
  Sound can_help deadline (ok out_of_fuel) w = ⊥
  Sound can_help deadline (err e) w = (before : P.World) × (P.is_locked path before ≡ (err e, w))

  abbrev loop : ℕ → Bool → ℕ → ℕ → M (State P distro path options) Wait
  loop = wait_loop P distro path options

  stops :
      (can_help : Bool) (deadline : ℕ) (m r : Result Wait × State P distro path options)
      → m ≡ r
      → Sound can_help deadline r.0 r.1.world
      → Sound can_help deadline m.0 m.1.world
  stops can_help deadline m r h sound = rw h sound

  round :
      (fuel : ℕ) (can_help : Bool) (deadline waited : ℕ) (s : State P distro path options)
      → (let r = loop (suc fuel) can_help deadline waited s in
          Sound can_help deadline r.0 r.1.world)
        ⊎ ((can_help ≡ true)
            × ((P.now (P.is_locked path s.world).1).0 < deadline)
            × (loop (suc fuel) can_help deadline waited s
                ≡ loop fuel true deadline (waited + poll_interval) (rested waited s)))
  unfolding wait_loop rested Sound
  round fuel can_help deadline waited s =
      let asked = record s { world = (P.is_locked path s.world).1 } in
      let later = record s { world = (P.now asked.world).1 } in
      elim (Result-cases (P.is_locked path s.world).0) [
        | inl (e, h) ↦ inl (
            stops can_help deadline (loop (suc fuel) can_help deadline waited s) (err e, asked)
              (ground arith) (s.world, ground arith))
        | inr (false, h) ↦ inl (
            stops can_help deadline (loop (suc fuel) can_help deadline waited s)
              (ok released, asked) (ground arith) (s.world, ground arith))
        | inr (true, h) ↦ elim (Bool-cases can_help) [
          | inr idle ↦ inl (
              stops can_help deadline (loop (suc fuel) can_help deadline waited s)
                (ok gave_up, asked) (ground arith) (s.world, h, inl idle))
          | inl helps ↦ elim (Bool-cases (leb deadline (P.now asked.world).0)) [
            | inl late ↦ inl (
                stops can_help deadline (loop (suc fuel) can_help deadline waited s)
                  (ok gave_up, later) (ground arith)
                  (s.world, h, inr (ground (arith, C.now_passes asked.world))))
            | inr early ↦ inr (helps, ground arith, ground (arith, told_world waited later))
          ]
        ]
      ]

  wait_loop-Sound :
      (fuel : ℕ) (can_help : Bool) (deadline waited : ℕ) (s : State P distro path options)
      → deadline ≤ C.time s.world + fuel * poll_interval
      → let r = loop (suc fuel) can_help deadline waited s in Sound can_help deadline r.0 r.1.world
  wait_loop-Sound zero can_help deadline waited s h = elim (round zero can_help deadline waited s) [
    | inl ended ↦ ended
    | inr (help, early, again) ↦
        absurd (omega (arith, C.lock_passes path s.world, C.now_tells (P.is_locked path s.world).1))
  ]
  wait_loop-Sound (suc fuel) can_help deadline waited s h =
      elim (round (suc fuel) can_help deadline waited s) [
        | inl ended ↦ ended
        | inr (help, early, again) ↦
            rw (again, help)
              (wait_loop-Sound fuel true deadline (waited + poll_interval) (rested waited s)
                (omega (arith, rested-time waited s)))
      ]

  -- With a clock that does not run backwards, the wait of release_disk ends within its rounds,
  -- its deadline being the timeout behind a moment `start` that has passed. If it says that the
  -- disk is released, the last thing it did was to ask, and the disk was free; if it gives up,
  -- the disk was held, and waiting could not help or the deadline has passed; an error is that
  -- of the asking.
  pub wait_loop-ends :
      (can_help : Bool) (start : ℕ) (s : State P distro path options)
      → start ≤ C.time s.world
      → let r = loop (rounds P distro path options) can_help (start + options.unlock_timeout) 0 s in
        Sound can_help (start + options.unlock_timeout) r.0 r.1.world
  wait_loop-ends can_help start s h =
      wait_loop-Sound (options.unlock_timeout / poll_interval + 1) can_help
        (start + options.unlock_timeout) 0 s (omega arith)
