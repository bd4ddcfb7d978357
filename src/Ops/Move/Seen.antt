-- ===== src/Ops/Move/Seen.antt =====
-- What the file operations of src/lib/ops/move.cpp do to the view of a distribution and its disk.
use wsldisk.Base.{ℕ, Bool, none, ◌≡◌, ◌≢◌, refl, inl, inr, arith}
use wsldisk.Errors.{ok, err, Error, Result-cases}
use wsldisk.WinPath.{FilePath}
use wsldisk.Interfaces.{Platform}
use wsldisk.Model.Distro.{Distro, registry_key_for}
use wsldisk.Ops.Observed.{Observed}
use wsldisk.Ops.Observed.Look.{View, look}
use wsldisk.Ops.Preflight.{base_path_value, vhd_file_name_value}
use wsldisk.Ops.Move.{target}

module _ (P : Platform) (O : Observed P) (distro : Distro) (destination : FilePath)
    (keep_source : Bool)
    (apart : O.place distro.vhdx_path ≢ O.place (target P distro destination keep_source)) where
  abbrev pub source_place : ℕ
  source_place = O.place distro.vhdx_path

  abbrev pub target_place : ℕ
  target_place = O.place (target P distro destination keep_source)

  -- The view while the file is renamed, and while it is copied: a copy that failed
  -- and could not be removed leaves a part of a file at the target, which `copying` does not look at.
  abbrev pub renaming : P.World → View
  renaming = look P O (registry_key_for distro) source_place target_place

  abbrev pub copying : P.World → View
  copying = look P O (registry_key_for distro) source_place source_place

  pub create_seen :
      (to : ℕ) (w : P.World)
      → look P O (registry_key_for distro) source_place to (P.create_directories destination w).1
        ≡ look P O (registry_key_for distro) source_place to w
  unfolding look
  create_seen to w = ground (
    arith,
    O.create_values destination w (O.slot (registry_key_for distro) base_path_value),
    O.create_values destination w (O.slot (registry_key_for distro) vhd_file_name_value),
    O.create_files destination w source_place,
    O.create_files destination w to,
  )

  pub renamed_seen :
      (w : P.World)
      → (P.rename distro.vhdx_path (target P distro destination keep_source) w).0 ≡ ok tt
      → renaming (P.rename distro.vhdx_path (target P distro destination keep_source) w).1
        ≡ record (renaming w) { source = none; target = (renaming w).source }
  unfolding look
  renamed_seen w h =
      let t = target P distro destination keep_source in
      ground (
        arith,
        apart,
        O.rename_values distro.vhdx_path t w (O.slot (registry_key_for distro) base_path_value),
        O.rename_values distro.vhdx_path t w (O.slot (registry_key_for distro) vhd_file_name_value),
        O.rename_moves distro.vhdx_path t w source_place,
        O.rename_moves distro.vhdx_path t w target_place,
      )

  pub renamed_back_seen :
      (w : P.World)
      → (P.rename (target P distro destination keep_source) distro.vhdx_path w).0 ≡ ok tt
      → renaming (P.rename (target P distro destination keep_source) distro.vhdx_path w).1
        ≡ record (renaming w) { source = (renaming w).target; target = none }
  unfolding look
  renamed_back_seen w h =
      let t = target P distro destination keep_source in
      ground (
        arith,
        apart,
        O.rename_values t distro.vhdx_path w (O.slot (registry_key_for distro) base_path_value),
        O.rename_values t distro.vhdx_path w (O.slot (registry_key_for distro) vhd_file_name_value),
        O.rename_moves t distro.vhdx_path w source_place,
        O.rename_moves t distro.vhdx_path w target_place,
      )

  pub rename_failed_seen :
      (w : P.World) (e : Error)
      → (P.rename distro.vhdx_path (target P distro destination keep_source) w).0 ≡ err e
      → renaming (P.rename distro.vhdx_path (target P distro destination keep_source) w).1
        ≡ renaming w
  unfolding look
  rename_failed_seen w e h =
      let t = target P distro destination keep_source in
      ground (
        arith,
        O.rename_values distro.vhdx_path t w (O.slot (registry_key_for distro) base_path_value),
        O.rename_values distro.vhdx_path t w (O.slot (registry_key_for distro) vhd_file_name_value),
        O.rename_fails distro.vhdx_path t w e source_place,
        O.rename_fails distro.vhdx_path t w e target_place,
      )

  pub copied_seen :
      (w : P.World)
      → copying (P.copy_file_sparse distro.vhdx_path (target P distro destination keep_source) w).2
        ≡ copying w
  unfolding look
  copied_seen w =
      let t = target P distro destination keep_source in
      ground (
        arith,
        apart,
        O.copy_values distro.vhdx_path t w (O.slot (registry_key_for distro) base_path_value),
        O.copy_values distro.vhdx_path t w (O.slot (registry_key_for distro) vhd_file_name_value),
        O.copy_elsewhere distro.vhdx_path t w source_place,
      )

  pub removed_seen :
      (w : P.World) → copying (P.remove (target P distro destination keep_source) w).1 ≡ copying w
  unfolding look
  removed_seen w =
      let t = target P distro destination keep_source in
      elim (Result-cases (P.remove t w).0) [
        | inl (e, h) ↦ ground (
          arith,
          O.remove_values t w (O.slot (registry_key_for distro) base_path_value),
          O.remove_values t w (O.slot (registry_key_for distro) vhd_file_name_value),
          O.remove_fails t w e source_place,
        )
        | inr (u, h) ↦ ground (
          arith,
          apart,
          O.remove_values t w (O.slot (registry_key_for distro) base_path_value),
          O.remove_values t w (O.slot (registry_key_for distro) vhd_file_name_value),
          O.remove_takes t w source_place,
        )
      ]

  -- A copy changes nothing but what is at the target, and a removal that succeeds takes that away.
  pub copied_target :
      (w : P.World)
      → renaming (P.copy_file_sparse distro.vhdx_path (target P distro destination keep_source) w).2
        ≡ record (renaming w) {
          target =
              O.file
                (P.copy_file_sparse distro.vhdx_path (target P distro destination keep_source) w).2
                target_place;
        }
  unfolding look
  copied_target w =
      let t = target P distro destination keep_source in
      ground (
        arith,
        apart,
        O.copy_values distro.vhdx_path t w (O.slot (registry_key_for distro) base_path_value),
        O.copy_values distro.vhdx_path t w (O.slot (registry_key_for distro) vhd_file_name_value),
        O.copy_elsewhere distro.vhdx_path t w source_place,
      )

  pub removed_target :
      (w : P.World)
      → (P.remove (target P distro destination keep_source) w).0 ≡ ok tt
      → renaming (P.remove (target P distro destination keep_source) w).1
        ≡ record (renaming w) { target = none }
  unfolding look
  removed_target w h =
      let t = target P distro destination keep_source in
      ground (
        arith,
        apart,
        O.remove_values t w (O.slot (registry_key_for distro) base_path_value),
        O.remove_values t w (O.slot (registry_key_for distro) vhd_file_name_value),
        O.remove_takes t w source_place,
        O.remove_takes t w target_place,
      )

  pub target_seen : (w : P.World) → (renaming w).target ≡ O.file w target_place
  unfolding look
  target_seen w = refl
