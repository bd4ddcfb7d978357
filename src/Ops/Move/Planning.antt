-- ===== src/Ops/Move/Planning.antt =====
-- What the preflight of src/lib/ops/move.cpp promises.
use wsldisk.Base.{
  ℕ, ◌+◌, ◌%◌, ◌^◌, ◌≤◌, Bool, true, false, not, ◌&&◌, ◌≡◌, ◌⊎◌, inl, inr, arith, List, Bytes,
  Bool-cases,
}
use wsldisk.Errors.{Result, ok, Result-cases}
use wsldisk.WinPath.{FilePath}
use wsldisk.Interfaces.{Platform, VolumeInfo, supports_vhdx}
use wsldisk.Model.Distro.{Distro, is_wsl2}
use wsldisk.Model.Orphans.{same_path}
use wsldisk.Ops.Operation.{Plan}
use wsldisk.Ops.Runner.{irreversible_steps_are_last}
use wsldisk.Ops.Preflight.{require_stopped, is_among}
use wsldisk.Ops.Move.{
  State, Members, target, plan, planned, check_room, was_renamed, free_space_margin,
}

module _ (P : Platform) (distro : Distro) (destination : FilePath) (keep_source : Bool) where
  planned_last :
      (m : Members P.World)
      → irreversible_steps_are_last (planned P distro destination keep_source m) ≡ true
  unfolding irreversible_steps_are_last planned
  planned_last m = ground arith

  -- The free space on the volume, for a copy: it holds the disk and the margin.
  abbrev pub HasRoom : Members P.World → P.World → Type 0
  HasRoom m w =
      (volume : VolumeInfo) × ((P.volume_info destination w).0 ≡ ok volume)
      × (supports_vhdx volume ≡ true)
      × ((m.size + free_space_margin) % 2 ^ 64 ≤ volume.free_bytes)

  -- What is asked of the platform once nothing was found at the target: who runs, whether the volumes are
  -- one, and what the disk occupies.
  abbrev pub listed : P.World → Result (List Bytes) × P.World
  listed w =
      P.running
        (P.exists (target P distro destination keep_source) (P.exists distro.vhdx_path w).1).1

  abbrev pub compared : P.World → Result Bool × P.World
  compared w = P.same_volume distro.vhdx_path destination (listed w).1

  abbrev pub measured : P.World → Result ℕ × P.World
  measured w = P.file_size_on_disk distro.vhdx_path (compared w).1

  plan-stopped :
      (s : State P distro destination keep_source) {p : Plan}
      → (plan P distro destination keep_source s).0 ≡ ok p
      → (names : List Bytes) × ((listed s.world).0 ≡ ok names)
        × (is_among distro.name names ≡ false)
  unfolding plan require_stopped
  plan-stopped s h = elim (Result-cases (listed s.world).0) [
    | inl (e, r) ↦ absurd (ground arith)
    | inr (names, r) ↦ (names, r, ground arith)
  ]

  -- The members behind a plan: those of the preflight.
  plan-checked :
      (s : State P distro destination keep_source) {p : Plan}
      → (plan P distro destination keep_source s).0 ≡ ok p
      → (same : Bool) × (size : ℕ) × ((compared s.world).0 ≡ ok same)
        × ((measured s.world).0 ≡ ok size)
        × ((plan P distro destination keep_source s).1.self
            ≡ record s.self { same_volume = same; size = size })
        × ((was_renamed P distro destination keep_source
                (record s.self { same_volume = same; size = size })
              ≡ true)
            ⊎ HasRoom (record s.self { same_volume = same; size = size }) (measured s.world).1)
  unfolding plan require_stopped check_room
  plan-checked s h = elim (Result-cases (compared s.world).0) [
    | inl (e, r) ↦ absurd (ground arith)
    | inr (same, r) ↦ elim (Result-cases (measured s.world).0) [
      | inl (e, q) ↦ absurd (ground arith)
      | inr (size, q) ↦ (
        same,
        size,
        r,
        q,
        ground arith,
        elim (Bool-cases (same && not keep_source)) [
          | inl renamed ↦ inl renamed
          | inr copied ↦ elim (Result-cases (P.volume_info destination (measured s.world).1).0) [
            | inl (e, v) ↦ absurd (ground arith)
            | inr (volume, v) ↦ inr (volume, v, ground arith, ground arith)
          ]
        ],
      )
    ]
  ]

  -- A plan is made only for a WSL2 distribution that is not running, whose disk exists and is not the
  -- target, and only if nothing is at the target; and only if the move is a rename, or the volume can
  -- hold a virtual disk and has room for what the disk occupies and the margin. Making it sets the
  -- two measured members and no other, and the runner accepts it: the deletion of the source, where
  -- there is one, comes last.
  pub move_plan_accepted :
      (s : State P distro destination keep_source) {p : Plan}
      → (plan P distro destination keep_source s).0 ≡ ok p
      → let found = P.exists distro.vhdx_path s.world in
        (is_wsl2 distro ≡ true)
        × (found.0 ≡ true)
        × (same_path distro.vhdx_path (target P distro destination keep_source) ≡ false)
        × ((P.exists (target P distro destination keep_source) found.1).0 ≡ false)
        × ((names : List Bytes) × ((listed s.world).0 ≡ ok names)
            × (is_among distro.name names ≡ false))
        × ((same : Bool) × (size : ℕ) × ((compared s.world).0 ≡ ok same)
            × ((measured s.world).0 ≡ ok size)
            × ((plan P distro destination keep_source s).1.self
                ≡ record s.self { same_volume = same; size = size })
            × ((was_renamed P distro destination keep_source
                    (record s.self { same_volume = same; size = size })
                  ≡ true)
                ⊎ HasRoom (record s.self { same_volume = same; size = size }) (measured s.world).1))
        × (irreversible_steps_are_last p ≡ true)
  unfolding plan require_stopped check_room
  move_plan_accepted s h = (
    ground arith,
    ground arith,
    ground arith,
    ground arith,
    plan-stopped s h,
    plan-checked s h,
    ground (arith, planned_last (plan P distro destination keep_source s).1.self),
  )
