-- ===== src/Ops/Relink/Safety.antt =====
-- What src/lib/ops/relink.cpp leaves in the registry, whether it succeeds or is rolled back.
use wsldisk.Base.{true, [], ◌∷◌, ◌≡◌, refl, ◌⊎◌, ◌∙◌, ◌++◌, arith}
use wsldisk.Errors.{ok}
use wsldisk.Effects.{M}
use wsldisk.Effects.Steps.{bind-keeps, bind-eq-ok}
use wsldisk.WinPath.{FilePath, filename}
use wsldisk.Interfaces.{Platform}
use wsldisk.Model.Distro.{Distro, registry_key_for}
use wsldisk.Ops.Operation.{Report, step_started}
use wsldisk.Ops.Undo.Restore.{unwind-restores, undo_failure_told}
use wsldisk.Ops.Observed.{Observed}
use wsldisk.Ops.Observed.Look.{View, IsCurrent, repointed, look, look-run}
use wsldisk.Ops.Preflight.{repoint_registry, boots, smoke_argv}
use wsldisk.Ops.Preflight.Undoable.{Undoable, repoint_registry-Undoable}
use wsldisk.Ops.Preflight.Written.{repoint_registry_wrote}
use wsldisk.Ops.Relink.{State, write_step, prove_it_boots, execute, rollback, intended_base_path}

module _ (P : Platform) (O : Observed P) (distro : Distro) (target : FilePath) where
  unfoldable pub seen : P.World → View
  seen = look P O (registry_key_for distro) (O.place distro.vhdx_path) (O.place target)

  Kept : View → State P distro target → Type 0
  Kept start =
      Undoable P O (registry_key_for distro) (O.place distro.vhdx_path) (O.place target)
        (λ stack. stack) (λ f stack. f stack) (λ f stack. refl) start

  prove_it_boots_state :
      (s : State P distro target)
      → ((prove_it_boots P distro target s).1.self ≡ s.self)
        × (seen (prove_it_boots P distro target s).1.world ≡ seen s.world)
  unfolding prove_it_boots boots seen
  prove_it_boots_state s = (
    ground arith,
    ground (
      arith,
      look-run P O (registry_key_for distro) (O.place distro.vhdx_path) (O.place target) distro.name
          smoke_argv 60000 s.world,
    ),
  )

  Kept-of :
      (start : View) (s t : State P distro target)
      → t.self ≡ s.self
      → seen t.world ≡ seen s.world
      → Kept start s
      → Kept start t
  unfolding Kept seen
  Kept-of start s t p q c = rw (p, q) c

  -- The state in which the repointing begins.
  begun : State P distro target → State P distro target
  unfolding write_step
  begun s = record s { events = s.events ++ step_started 0 (write_step P distro target) ∷ [] }

  abbrev repoint : M (State P distro target) (Unit {0})
  repoint =
      repoint_registry P (λ f stack. f stack) distro (intended_base_path P distro target)
        (filename target)

  execute-Kept :
      (start : View) (s : State P distro target)
      → IsCurrent distro (seen s.world)
      → Kept start s
      → Kept start (execute P distro target s).1
  unfolding execute seen Kept begun
  execute-Kept start s current c =
      bind-keeps repoint (λ u. prove_it_boots P distro target) (begun s) (Kept start) repointed_kept
        λ u h.
          let booted = prove_it_boots_state (repoint (begun s)).1 in
          Kept-of start (repoint (begun s)).1
            (prove_it_boots P distro target (repoint (begun s)).1).1 booted.0 booted.1
            repointed_kept
    where
      repointed_kept : Kept start (repoint (begun s)).1
      repointed_kept =
          repoint_registry-Undoable P O distro (O.place distro.vhdx_path) (O.place target)
            (λ stack. stack) (λ f stack. f stack) (λ f stack. refl) start
            (intended_base_path P distro target) (filename target) (begun s) current c

  -- From an empty undo stack and a registry entry that is the one on record: wherever `execute`
  -- stops, rolling back puts the registry entry and the files back as they were, or the user is
  -- told of something that could not be undone; and the stack is empty.
  pub execute-rollback :
      (s : State P distro target)
      → s.self ≡ []
      → IsCurrent distro (seen s.world)
      → let after = rollback P distro target (execute P distro target s).1 in
        ((seen after.world ≡ seen s.world) ⊎ (undo_failure_told after.events ≡ true))
        × (after.self ≡ [])
  unfolding rollback seen Kept
  execute-rollback s fresh current =
      let r = (execute P distro target s).1 in
      (
        unwind-restores seen r.self r.world r.events (seen s.world)
            (execute-Kept (seen s.world) s current (rw fresh refl)),
        refl,
      )

  -- A relink that succeeds leaves the intended BasePath, and the target's name as VhdFileName if the
  -- distribution had one; it moves no file.
  pub execute_relinks :
      (s : State P distro target) (report : Report)
      → (execute P distro target s).0 ≡ ok report
      → seen (execute P distro target s).1.world
        ≡ repointed distro (intended_base_path P distro target) (filename target) (seen s.world)
  unfolding execute seen begun
  execute_relinks s report h =
      let (u, first, second, last) =
        bind-eq-ok repoint (λ u. prove_it_boots P distro target) (begun s) h in
      rw last (
        (prove_it_boots_state _).1
        ∙ repoint_registry_wrote P O distro _ _ (λ f stack. f stack) _ _ (begun s) first)
