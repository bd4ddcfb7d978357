-- ===== src/Ops/Move/Safety.antt =====
-- What a move of src/lib/ops/move.cpp leaves if it fails and is rolled back.
use wsldisk.Base.{
  ℕ, Bool, Bytes, true, false, none, List, [], ◌∷◌, ◌++◌, ◌≡◌, ◌≢◌, refl, ◌⊎◌, inl, inr, arith,
  Bool-cases,
}
use wsldisk.Errors.{ok, err, Error, Result-cases}
use wsldisk.Effects.{◌>>=◌}
use wsldisk.Effects.Steps.{bind-keeps}
use wsldisk.WinPath.{FilePath, filename}
use wsldisk.Interfaces.{Platform}
use wsldisk.Model.Distro.{Distro, registry_key_for}
use wsldisk.Ops.Operation.{step_started, step_finished}
use wsldisk.Ops.Undo.Restore.{unwind-restores, undo_failure_told}
use wsldisk.Ops.Observed.{Observed}
use wsldisk.Ops.Observed.Look.{View, IsCurrent, look, look-run}
use wsldisk.Ops.Preflight.{boots, smoke_argv}
use wsldisk.Ops.Preflight.Undoable.{Undoable, repoint_registry-Undoable}
use wsldisk.Ops.Move.{
  State, Members, put_undo, was_renamed, target, intended_base_path, step, transfer_description,
  point_description, transfer, repoint, prove_it_boots, repoint_and_prove, move_and_prove, cleanup,
  execute, rollback, deletes_source, delete_description,
}
use wsldisk.Ops.Move.Transfer.{Ready, Leftover, made, transfer-Ready}
use wsldisk.Ops.Move.Seen.{renaming, copying}

module _ (P : Platform) (O : Observed P) (distro : Distro) (destination : FilePath)
    (keep_source : Bool)
    (apart : O.place distro.vhdx_path ≢ O.place (target P distro destination keep_source)) where
  abbrev Here : Type 0
  Here = State P distro destination keep_source

  -- Unwinding the stack leads back to `start`.
  Kept : ℕ → View → Here → Type 0
  Kept to start s =
      Undoable P O (registry_key_for distro) (O.place distro.vhdx_path) to (λ m. m.undo) put_undo
        (λ f m. refl) start s

  prove_it_boots-Kept :
      (to : ℕ) (start : View) (s : Here)
      → Kept to start s
      → Kept to start (prove_it_boots P distro destination keep_source s).1
  unfolding Kept
  prove_it_boots-Kept to start s c = rw (same_stack, same_view) c
    where
      same_stack : (prove_it_boots P distro destination keep_source s).1.self ≡ s.self
      same_stack = unfold prove_it_boots boots in ground arith

      same_view :
          look P O
            (registry_key_for distro)
            (O.place distro.vhdx_path)
            to
            (prove_it_boots P distro destination keep_source s).1.world
          ≡ look P O (registry_key_for distro) (O.place distro.vhdx_path) to s.world
      same_view =
          unfold prove_it_boots boots in
          ground (
            arith,
            look-run P O (registry_key_for distro) (O.place distro.vhdx_path) to distro.name
                smoke_argv 120000 s.world,
          )

  -- The state in which the repointing begins.
  repoint_begun : Members P.World → Here → Here
  unfolding step transfer_description point_description
  repoint_begun m s = record s {
    events =
        (s.events
          ++ step_finished 0 (
              step P distro destination keep_source
                (transfer_description P distro destination keep_source m) true)
            ∷ [])
        ++ step_started 1 (
            step P distro destination keep_source
              (point_description P distro destination keep_source) true)
          ∷ [];
  }

  repoint_and_prove-Kept :
      (m : Members P.World) (to : ℕ) (start : View) (s : Here)
      → Ready P O distro destination keep_source apart to start s
      → Kept to start (repoint_and_prove P distro destination keep_source m s).1
  unfolding repoint_and_prove repoint_begun Kept repoint
  repoint_and_prove-Kept m to start s (c, current) =
      bind-keeps (repoint P distro destination keep_source)
        (λ u. prove_it_boots P distro destination keep_source) (repoint_begun m s) (Kept to start)
        done
        λ u h.
          prove_it_boots-Kept to start
            (repoint P distro destination keep_source (repoint_begun m s)).1 done
    where
      done : Kept to start (repoint P distro destination keep_source (repoint_begun m s)).1
      done =
          repoint_registry-Undoable P O distro (O.place distro.vhdx_path) to (λ m. m.undo) put_undo
            (λ f m. refl) start (intended_base_path P distro destination keep_source)
            (filename (target P distro destination keep_source)) (repoint_begun m s) current c

  transfer_begun : Members P.World → Here → Here
  unfolding step transfer_description
  transfer_begun m s = record s {
    events =
        s.events
        ++ step_started 0 (
            step P distro destination keep_source
              (transfer_description P distro destination keep_source m) true)
          ∷ [];
  }

  move_and_prove-Kept :
      (to : ℕ) (start : View) (s : Here)
      → Ready P O distro destination keep_source apart to start
          (transfer P distro destination keep_source (transfer_begun s.self s)).1
      → Kept to start (move_and_prove P distro destination keep_source s.self s).1
  unfolding move_and_prove transfer_begun Kept
  move_and_prove-Kept to start s ready =
      bind-keeps (transfer P distro destination keep_source)
        (λ u. repoint_and_prove P distro destination keep_source s.self) (transfer_begun s.self s)
        (Kept to start) ready.0
        λ u h.
          repoint_and_prove-Kept s.self to start
            (transfer P distro destination keep_source (transfer_begun s.self s)).1 ready

  -- The deletion of the source is never the reason why a move fails.
  cleanup_ok :
      (m : Members P.World) (s : Here)
      → (deleted : List Bytes) × ((cleanup P distro destination keep_source m s).0 ≡ ok deleted)
  unfolding cleanup
  cleanup_ok m s = elim (Bool-cases (deletes_source P distro destination keep_source m)) [
    | inr kept_source ↦ ([], ground arith)
    | inl deletes ↦ elim (Result-cases (P.remove distro.vhdx_path s.world).0) [
      | inl (e, h) ↦ ([], ground arith)
      | inr (u, h) ↦ (delete_description P distro destination keep_source ∷ [], ground arith)
    ]
  ]

  execute_failed_state :
      (s : Here) {e : Error}
      → (execute P distro destination keep_source s).0 ≡ err e
      → (execute P distro destination keep_source s).1
        ≡ (move_and_prove P distro destination keep_source s.self s).1
  unfolding execute
  execute_failed_state s h =
      elim (Result-cases (move_and_prove P distro destination keep_source s.self s).0) [
        | inl (e, failed) ↦ rw (failed, ◌>>=◌)
        | inr (u, proved) ↦ ground (
          arith,
          (cleanup_ok s.self (move_and_prove P distro destination keep_source s.self s).1).1,
        )
      ]

  -- The state behind the rollback of a move.
  abbrev pub after : Here → Here
  after s = rollback P distro destination keep_source (execute P distro destination keep_source s).1

  rolled_back :
      (to : ℕ) (start : View) (s : Here) {e : Error}
      → (execute P distro destination keep_source s).0 ≡ err e
      → Ready P O distro destination keep_source apart to start
          (transfer P distro destination keep_source (transfer_begun s.self s)).1
      → (look P O (registry_key_for distro) (O.place distro.vhdx_path) to (after s).world ≡ start)
        ⊎ (undo_failure_told (after s).events ≡ true)
  unfolding rollback Kept
  rolled_back to start s h ready =
      let r = (move_and_prove P distro destination keep_source s.self s).1 in
      rw (execute_failed_state s h) (
        unwind-restores (look P O (registry_key_for distro) (O.place distro.vhdx_path) to)
          r.self.undo r.world r.events start (move_and_prove-Kept to start s ready))

  -- If a move fails, rolling it back leaves the registry entry, the source file and the target as they
  -- were before it, so that no copy stays at the target; or the user is told of something that could
  -- not be undone; or it is a copy that itself failed and then could not be removed, and the registry
  -- entry and the source file are as they were. This supposes that the registry entry is the one on
  -- record, that source and target are two places, that the stack is empty at first, and that no file
  -- is at the target.
  pub execute_failed-rollback :
      (s : Here) {e : Error}
      → s.self.undo ≡ []
      → O.file s.world (O.place (target P distro destination keep_source)) ≡ none
      → IsCurrent distro (renaming P O distro destination keep_source apart s.world)
      → (execute P distro destination keep_source s).0 ≡ err e
      → (renaming P O distro destination keep_source apart (after s).world
          ≡ renaming P O distro destination keep_source apart s.world)
        ⊎ ((undo_failure_told (after s).events ≡ true)
            ⊎ ((was_renamed P distro destination keep_source s.self ≡ false)
                × Leftover P O distro destination keep_source apart
                    (made P O distro destination keep_source apart s)
                × (copying P O distro destination keep_source apart (after s).world
                    ≡ copying P O distro destination keep_source apart s.world)))
  unfolding transfer_begun
  execute_failed-rollback s fresh free current h =
      elim (transfer-Ready P O distro destination keep_source apart (transfer_begun s.self s) fresh
        free current) [
          | inl ready ↦ elim (rolled_back _ _ s h ready) [
            | inl back ↦ inl back
            | inr told ↦ inr (inl told)
          ]
          | inr (copied, left, ready) ↦ elim (rolled_back _ _ s h ready) [
            | inl back ↦ inr (inr (copied, left, back))
            | inr told ↦ inr (inl told)
          ]
        ]
