-- ===== src/Ops/Preflight/Written.antt =====
-- What the shared repointing of relink.cpp and move.cpp leaves if it succeeds, and what a smoke test
-- leaves alone.
use wsldisk.Base.{
  ℕ, txt, fmt, is_empty, some, List, [], ◌∷◌, ◌≡◌, inl, inr, ◌∙◌, arith, if◌then◌else◌, Bool-cases,
}
use wsldisk.Errors.{ok, Error}
use wsldisk.Effects.Steps.{bind-eq-ok}
use wsldisk.WinPath.{Wide}
use wsldisk.Interfaces.{Platform}
use wsldisk.Model.Distro.{Distro, registry_key_for}
use wsldisk.Ops.Operation.{Context}
use wsldisk.Ops.Undo.{Entry}
use wsldisk.Ops.Observed.{Observed}
use wsldisk.Ops.Observed.Look.{View, repointed, look, look-write_base, look-write_vhd}
use wsldisk.Ops.Preflight.{
  base_path_value, vhd_file_name_value, write_undoably, repoint_name, repoint_registry, boots,
  smoke_argv,
}
use wsldisk.Ops.Preflight.Undoable.{write_undoably_done, write_undoably_wrote}

module _ (P : Platform) {X : Type 0} (distro : Distro) (timeout : ℕ) (refusal : Error)
    (s : Context P.World X) where
  pub boots_state :
      (boots P distro timeout refusal s).1
      ≡ record s { world = (P.run_as_root distro.name smoke_argv timeout s.world).1 }
  unfolding boots
  boots_state = ground arith

module _ (P : Platform) (O : Observed P) (distro : Distro) (from to : ℕ) {X : Type 0}
    (put_undo : (List (Entry P.World) → List (Entry P.World)) → X → X) where
  seen : P.World → View
  seen = look P O (registry_key_for distro) from to

  repoint_name_wrote :
      (file_name : Wide) (s : Context P.World X)
      → (repoint_name P put_undo distro file_name s).0 ≡ ok tt
      → seen (repoint_name P put_undo distro file_name s).1.world ≡ record (seen s.world) {
        vhd = if is_empty distro.vhd_file_name then (seen s.world).vhd else some file_name;
      }
  unfolding repoint_name seen
  repoint_name_wrote file_name s h = elim (Bool-cases (is_empty distro.vhd_file_name)) [
    | inl absent ↦ rw absent
    | inr present ↦
        let key = registry_key_for distro in
        let d = fmt (txt "restore " ∷ distro.name ∷ txt "'s VhdFileName" ∷ []) in
        let wrote =
          write_undoably_wrote P put_undo key vhd_file_name_value file_name distro.vhd_file_name d s
            (rw present at h) in
        rw present (
          rw
            (write_undoably_done P put_undo key vhd_file_name_value file_name distro.vhd_file_name d
              s wrote)
            (look-write_vhd P O key from to file_name s.world wrote))
  ]

  pub repoint_registry_wrote :
      (base_path file_name : Wide) (s : Context P.World X)
      → (repoint_registry P put_undo distro base_path file_name s).0 ≡ ok tt
      → look P O
          (registry_key_for distro)
          from
          to
          (repoint_registry P put_undo distro base_path file_name s).1.world
        ≡ repointed distro base_path file_name (look P O (registry_key_for distro) from to s.world)
  unfolding repoint_registry seen
  repoint_registry_wrote base_path file_name s h =
      let key = registry_key_for distro in
      let d = fmt (txt "restore " ∷ distro.name ∷ txt "'s BasePath" ∷ []) in
      let (u, first, second, last) =
        bind-eq-ok (write_undoably P put_undo key base_path_value base_path distro.base_path d)
          (λ _. repoint_name P put_undo distro file_name) s h in
      let wrote =
        write_undoably_wrote P put_undo key base_path_value base_path distro.base_path d s first in
      let done =
        write_undoably_done P put_undo key base_path_value base_path distro.base_path d s wrote in
      let after = repoint_name_wrote file_name _ second in
      rw last (after ∙ rw done (rw (look-write_base P O key from to base_path s.world wrote)))
