-- ===== src/Ops/Move/Transfer.antt =====
-- Moving the file in src/lib/ops/move.cpp can be undone at every point, by either route.
use wsldisk.Base.{
  ℕ, txt, fmt, Bool, false, ◌⊎◌, none, [], ◌∷◌, ◌++◌, ◌≡◌, ◌≢◌, refl, inl, inr, arith, ◌∙◌,
  if◌then◌else◌, Bool-cases, map,
}
use wsldisk.Errors.{ok, err, Error, Result-cases}
use wsldisk.Effects.{◌>>=◌}
use wsldisk.WinPath.{FilePath}
use wsldisk.Interfaces.{Platform}
use wsldisk.Model.Distro.{Distro, registry_key_for}
use wsldisk.Ops.Operation.{step_progress}
use wsldisk.Ops.Undo.{push, returning}
use wsldisk.Ops.Observed.{Observed}
use wsldisk.Ops.Observed.Look.{View, IsCurrent, look}
use wsldisk.Ops.Preflight.Undoable.{Undoable}
use wsldisk.Ops.Move.{State, put_undo, was_renamed, target, rename_file, copy_file, transfer}
use wsldisk.Ops.Move.Seen.{
  renaming, copying, create_seen, renamed_seen, renamed_back_seen, rename_failed_seen, copied_seen,
  removed_seen, target_seen, copied_target, removed_target,
}

module _ (P : Platform) (O : Observed P) (distro : Distro) (destination : FilePath)
    (keep_source : Bool)
    (apart : O.place distro.vhdx_path ≢ O.place (target P distro destination keep_source)) where
  abbrev Here : Type 0
  Here = State P distro destination keep_source

  abbrev goal : FilePath
  goal = target P distro destination keep_source

  -- The stack leads back to `start`, and the registry entry is still the distribution's.
  abbrev pub Ready : ℕ → View → Here → Type 0
  Ready to start s =
      Undoable P O (registry_key_for distro) (O.place distro.vhdx_path) to (λ m. m.undo) put_undo
        (λ f m. refl) start s
      × IsCurrent distro (look P O (registry_key_for distro) (O.place distro.vhdx_path) to s.world)

  rename_file_done :
      (s : Here)
      → (P.rename distro.vhdx_path goal s.world).0 ≡ ok tt
      → (rename_file P distro destination keep_source s).1 ≡ record s {
        world = (P.rename distro.vhdx_path goal s.world).1;
        self =
            put_undo
              (push
                (fmt (
                  txt "move "
                  ∷ P.path_string goal
                  ∷ txt " back to "
                  ∷ P.path_string distro.vhdx_path
                  ∷ []))
                (returning (P.rename goal distro.vhdx_path)))
              s.self;
      }
  unfolding rename_file
  rename_file_done s h = rw (h, ◌>>=◌)

  rename_file_failed :
      (s : Here) {e : Error}
      → (P.rename distro.vhdx_path goal s.world).0 ≡ err e
      → (rename_file P distro destination keep_source s).1
        ≡ record s { world = (P.rename distro.vhdx_path goal s.world).1 }
  unfolding rename_file
  rename_file_failed s h = rw (h, ◌>>=◌)

  moved_back :
      (s w : P.World)
      → (renaming P O distro destination keep_source apart s).target ≡ none
      → (P.rename distro.vhdx_path goal s).0 ≡ ok tt
      → renaming P O distro destination keep_source apart w
        ≡ renaming P O distro destination keep_source apart (P.rename distro.vhdx_path goal s).1
      → (P.rename goal distro.vhdx_path w).0 ≡ ok tt
      → renaming P O distro destination keep_source apart (P.rename goal distro.vhdx_path w).1
        ≡ renaming P O distro destination keep_source apart s
  moved_back s w free moved same done =
      rw (renamed_back_seen P O distro destination keep_source apart w done)
        (ground (arith, renamed_seen P O distro destination keep_source apart s moved))

  rename_file-Ready :
      (s : Here)
      → s.self.undo ≡ []
      → (renaming P O distro destination keep_source apart s.world).target ≡ none
      → IsCurrent distro (renaming P O distro destination keep_source apart s.world)
      → Ready
          (O.place goal)
          (renaming P O distro destination keep_source apart s.world)
          (rename_file P distro destination keep_source s).1
  unfolding push
  rename_file-Ready s fresh free current =
      elim (Result-cases (P.rename distro.vhdx_path goal s.world).0) [
        | inl (e, h) ↦ rw (rename_file_failed s h) (
            rw (rename_failed_seen P O distro destination keep_source apart s.world e h)
              (rw fresh refl, current))
        | inr (u, h) ↦ rw (rename_file_done s h) (
          (
            renaming P O distro destination keep_source apart s.world,
            λ w same done. moved_back s.world w free h same (cc),
            rw fresh refl,
          ),
          rw (renamed_seen P O distro destination keep_source apart s.world h)
              (record { base = current.base; vhd = current.vhd }),
        )
      ]

  copy_file_done :
      (s : Here)
      → (P.copy_file_sparse distro.vhdx_path goal s.world).0 ≡ ok tt
      → (copy_file P distro destination keep_source s).1 ≡ record s {
        world = (P.copy_file_sparse distro.vhdx_path goal s.world).2;
        events = s.events ++ map step_progress (P.copy_file_sparse distro.vhdx_path goal s.world).1;
        self =
            put_undo
              (push (fmt (txt "remove " ∷ P.path_string goal ∷ [])) (returning (P.remove goal)))
              s.self;
      }
  unfolding copy_file
  copy_file_done s h = rw (h, ◌>>=◌)

  copy_file_failed :
      (s : Here) {e : Error}
      → (P.copy_file_sparse distro.vhdx_path goal s.world).0 ≡ err e
      → (copy_file P distro destination keep_source s).1 ≡ record s {
        world = (P.remove goal (P.copy_file_sparse distro.vhdx_path goal s.world).2).1;
        events = s.events ++ map step_progress (P.copy_file_sparse distro.vhdx_path goal s.world).1;
      }
  unfolding copy_file
  copy_file_failed s h = rw (h, ◌>>=◌)

  -- Behind the removal of a copy, the view is the one from before the copy.
  copy_removed :
      (s w : P.World)
      → (renaming P O distro destination keep_source apart s).target ≡ none
      → renaming P O distro destination keep_source apart w
        ≡ renaming P O distro destination keep_source apart
            (P.copy_file_sparse distro.vhdx_path goal s).2
      → (P.remove goal w).0 ≡ ok tt
      → renaming P O distro destination keep_source apart (P.remove goal w).1
        ≡ renaming P O distro destination keep_source apart s
  copy_removed s w free same done =
      rw
        (
          removed_target P O distro destination keep_source apart w done,
          same,
          copied_target P O distro destination keep_source apart s,
        )
        (ground arith)

  -- A copy that failed, and could not be removed again.
  abbrev pub Leftover : Here → Type 0
  Leftover s =
      let copied = P.copy_file_sparse distro.vhdx_path goal s.world in
      ((e : Error) × (copied.0 ≡ err e)) × ((e : Error) × ((P.remove goal copied.2).0 ≡ err e))

  copy_file-Ready :
      (s : Here)
      → s.self.undo ≡ []
      → (renaming P O distro destination keep_source apart s.world).target ≡ none
      → IsCurrent distro (renaming P O distro destination keep_source apart s.world)
      → IsCurrent distro (copying P O distro destination keep_source apart s.world)
      → Ready
          (O.place goal)
          (renaming P O distro destination keep_source apart s.world)
          (copy_file P distro destination keep_source s).1
        ⊎ (Leftover s
            × Ready
                (O.place distro.vhdx_path)
                (copying P O distro destination keep_source apart s.world)
                (copy_file P distro destination keep_source s).1)
  unfolding push
  copy_file-Ready s fresh free current currently =
      let copied = P.copy_file_sparse distro.vhdx_path goal s.world in
      elim (Result-cases copied.0) [
        | inr (u, h) ↦ rw (copy_file_done s h) (
            inl (
              (
                renaming P O distro destination keep_source apart s.world,
                λ w same done. copy_removed s.world w free same (cc),
                rw fresh refl,
              ),
              rw (copied_target P O distro destination keep_source apart s.world)
                  (record { base = current.base; vhd = current.vhd }),
            ))
        | inl (e, h) ↦ elim (Result-cases (P.remove goal copied.2).0) [
          | inr (u, r) ↦
              rw (copy_file_failed s h)
                (inl (rw (copy_removed s.world copied.2 free refl r) (rw fresh refl, current)))
          | inl (e', r) ↦ rw (copy_file_failed s h) (
              inr (
                ((e, h), (e', r)),
                rw
                    (
                      removed_seen P O distro destination keep_source apart copied.2,
                      copied_seen P O distro destination keep_source apart s.world,
                    )
                    (rw fresh refl, currently),
              ))
        ]
      ]

  -- The state once the directory has been asked for.
  abbrev pub made : Here → Here
  made s = record s { world = (P.create_directories destination s.world).1 }

  transfer-made :
      (s : Here)
      → (P.create_directories destination s.world).0 ≡ ok tt
      → transfer P distro destination keep_source s
        ≡ (if was_renamed P distro destination keep_source s.self
              then rename_file P distro destination keep_source
              else copy_file P distro destination keep_source)
            (made s)
  unfolding transfer
  transfer-made s h = rw (h, ◌>>=◌)

  transfer_unmade :
      (s : Here) {e : Error}
      → (P.create_directories destination s.world).0 ≡ err e
      → (transfer P distro destination keep_source s).1 ≡ made s
  unfolding transfer
  transfer_unmade s h = rw (h, ◌>>=◌)

  renamed-Ready :
      (s : Here)
      → s.self.undo ≡ []
      → O.file s.world (O.place goal) ≡ none
      → IsCurrent distro (renaming P O distro destination keep_source apart s.world)
      → Ready
          (O.place goal)
          (renaming P O distro destination keep_source apart s.world)
          (rename_file P distro destination keep_source (made s)).1
  renamed-Ready s fresh free current =
      let created = create_seen P O distro destination keep_source apart (O.place goal) s.world in
      rw created at (
        rename_file-Ready (made s) fresh
          (rw created (target_seen P O distro destination keep_source apart s.world ∙ free))
          (rw created current))

  copying-IsCurrent :
      (w : P.World)
      → IsCurrent distro (renaming P O distro destination keep_source apart w)
      → IsCurrent distro (copying P O distro destination keep_source apart w)
  unfolding look
  copying-IsCurrent w current = record { base = current.base; vhd = current.vhd }

  copied-Ready :
      (s : Here)
      → s.self.undo ≡ []
      → O.file s.world (O.place goal) ≡ none
      → IsCurrent distro (renaming P O distro destination keep_source apart s.world)
      → Ready
          (O.place goal)
          (renaming P O distro destination keep_source apart s.world)
          (copy_file P distro destination keep_source (made s)).1
        ⊎ (Leftover (made s)
            × Ready
                (O.place distro.vhdx_path)
                (copying P O distro destination keep_source apart s.world)
                (copy_file P distro destination keep_source (made s)).1)
  copied-Ready s fresh free current =
      let created = create_seen P O distro destination keep_source apart (O.place goal) s.world in
      let alike =
        create_seen P O distro destination keep_source apart (O.place distro.vhdx_path) s.world in
      rw (created, alike) at
        (copy_file-Ready (made s) fresh
          (rw created (target_seen P O distro destination keep_source apart s.world ∙ free))
          (rw created current) (rw alike (copying-IsCurrent s.world current)))

  -- Wherever the transfer stops, the stack leads back to where it started, the target included, and
  -- the registry entry is untouched; but for a copy that failed and could not be removed again, of
  -- which only what is at the target remains.
  pub transfer-Ready :
      (s : Here)
      → s.self.undo ≡ []
      → O.file s.world (O.place goal) ≡ none
      → IsCurrent distro (renaming P O distro destination keep_source apart s.world)
      → Ready
          (O.place goal)
          (renaming P O distro destination keep_source apart s.world)
          (transfer P distro destination keep_source s).1
        ⊎ ((was_renamed P distro destination keep_source s.self ≡ false)
            × Leftover (made s)
            × Ready
                (O.place distro.vhdx_path)
                (copying P O distro destination keep_source apart s.world)
                (transfer P distro destination keep_source s).1)
  transfer-Ready s fresh free current =
      elim (Result-cases (P.create_directories destination s.world).0) [
        | inl (e, h) ↦ rw (transfer_unmade s h) (
            inl (
              rw (create_seen P O distro destination keep_source apart (O.place goal) s.world)
                (rw fresh refl, current)))
        | inr (u, h) ↦
            rw (transfer-made s h)
              (elim (Bool-cases (was_renamed P distro destination keep_source s.self)) [
                | inl ren ↦ rw ren (inl (renamed-Ready s fresh free current))
                | inr cop ↦ rw cop (elim (copied-Ready s fresh free current) [
                  | inl whole ↦ inl whole
                  | inr (left, rest) ↦ inr (refl, left, rest)
                ])
              ])
      ]
