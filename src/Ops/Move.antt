-- ===== src/Ops/Move.antt =====
-- src/lib/ops/move.h and move.cpp: MoveOperation.
pub mod Seen
pub mod Transfer
pub mod Safety
pub mod Planning
use wsldisk.Base.{
  ℕ, ◌+◌, ◌*◌, ◌%◌, ◌^◌, Bytes, txt, fmt, bytes_eq, Bool, true, false, not, ◌&&◌, Option, none,
  some, List, [], ◌∷◌, ◌++◌, ltb, if◌then◌else◌, map,
}
use wsldisk.Errors.{Error, preflight, partial, ok, err, Status}
use wsldisk.Effects.{M, ◌>>=◌, ◌>>◌, pure, raise, guard, attempt, from_result}
use wsldisk.WinPath.{Wide, FilePath, ◌//◌, filename}
use wsldisk.Interfaces.{Platform, VolumeInfo, supports_vhdx}
use wsldisk.Model.Distro.{Distro, is_wsl2, registry_key_for, value_or}
use wsldisk.Model.Orphans.{same_path}
use wsldisk.Model.Size.{format_size}
use wsldisk.Ops.Operation.{
  StepPlan, Warning, Plan, Report, no_estimate, Context, call, ask, emit, get, modify, Event,
  step_started, step_finished, step_progress, message,
}
use wsldisk.Ops.Undo.{Entry, push, returning, unwind}
use wsldisk.Ops.Runner.{Operation}
use wsldisk.Ops.Preflight.{
  base_path_value, wsl1_refusal, in_prefix_form, require_stopped, boots, repoint_registry,
}

-- The members that change. `options_.keep_source`, which does not, is an argument.
pub record Members (W : Type 0) : Type 0 where
  pub size : ℕ
  pub same_volume : Bool
  pub undo : List (Entry W)

abbrev pub put_undo : {W : Type 0} → (List (Entry W) → List (Entry W)) → Members W → Members W
put_undo f m = record m { undo = f m.undo }

-- 64 MiB of headroom.
abbrev pub free_space_margin : ℕ
free_space_margin = 64 * 1024 * 1024

module _ (P : Platform) (distro : Distro) (destination : FilePath) (keep_source : Bool) where
  abbrev pub State : Type 0
  State = Context P.World (Members P.World)

  unfoldable pub target : FilePath
  target = destination // filename distro.vhdx_path

  unfoldable pub intended_base_path : Wide
  unfolding in_prefix_form
  intended_base_path = in_prefix_form distro destination

  abbrev pub was_renamed : Members P.World → Bool
  was_renamed m = m.same_volume && not keep_source

  refusal : Bytes → Bytes → Error
  refusal what remedy = record { code = preflight; message = what; remedy = remedy }

  missing_disk : Error
  unfolding refusal
  missing_disk =
      refusal (fmt (distro.name ∷ txt "'s disk is not at " ∷ P.path_string distro.vhdx_path ∷ [])) (
        fmt (
          txt "`wsldisk relink "
          ∷ distro.name
          ∷ txt " <path>` repoints it if the file has already moved"
          ∷ []))

  already_there : Error
  unfolding refusal
  already_there =
      refusal (fmt (distro.name ∷ txt " is already at " ∷ P.path_string target ∷ []))
        (txt "nothing to do; `wsldisk info` shows where it is")

  target_exists : Error
  unfolding refusal
  target_exists =
      refusal (fmt (P.path_string target ∷ txt " already exists" ∷ []))
        (txt "move it aside, or choose a different directory")

  cannot_hold : VolumeInfo → Error
  unfolding refusal
  cannot_hold volume =
      refusal
        (fmt (
          P.path_string destination
          ∷ txt " is "
          ∷ volume.filesystem_name
          ∷ txt ", which cannot hold a virtual disk"
          ∷ []))
        (txt
          "FAT and exFAT support neither sparse files nor files over 4 GB; use an NTFS or ReFS volume")

  too_small : VolumeInfo → ℕ → Error
  unfolding refusal
  too_small volume occupied =
      refusal
        (fmt (
          P.path_string destination
          ∷ txt " has "
          ∷ format_size volume.free_bytes
          ∷ txt " free and the disk occupies "
          ∷ format_size occupied
          ∷ []))
        (txt "free some space on the target volume, or `wsldisk compact` the disk first")

  did_not_start : Error
  unfolding refusal
  did_not_start =
      refusal (fmt (distro.name ∷ txt " did not start from " ∷ P.path_string target ∷ []))
        (txt "the registry entry has been put back and the original disk is untouched")

  transfer_description : Members P.World → Bytes
  transfer_description m = fmt (
      txt (if was_renamed m then "move " else "copy ")
      ∷ P.path_string distro.vhdx_path
      ∷ txt " to "
      ∷ P.path_string target
      ∷ [])

  point_description : Bytes
  point_description = fmt (txt "point " ∷ distro.name ∷ txt " at " ∷ P.path_string target ∷ [])

  smoke_description : Bytes
  smoke_description = fmt (txt "start " ∷ distro.name ∷ txt " to check the new path works" ∷ [])

  delete_description : Bytes
  delete_description = fmt (txt "delete " ∷ P.path_string distro.vhdx_path ∷ [])

  -- The source is deleted unless it was renamed away or is to be kept.
  abbrev pub deletes_source : Members P.World → Bool
  deletes_source m = not (was_renamed m) && not keep_source

  -- The room that a copy needs; a rename needs none. The sum is a 64-bit one.
  check_room : Members P.World → M State (Unit {0})
  unfolding cannot_hold too_small
  check_room m = if was_renamed m then pure tt else (do
    volume ← call (P.volume_info destination)
    guard (supports_vhdx volume) (cannot_hold volume)
    guard (not (ltb volume.free_bytes ((m.size + free_space_margin) % 2 ^ 64)))
        (too_small volume m.size))

  unfoldable pub planned : Members P.World → Plan
  unfolding transfer_description point_description smoke_description delete_description
  planned m = record {
    steps =
        record {
          description = transfer_description m;
          mutates = true;
          undo_description = some (fmt (txt "remove " ∷ P.path_string target ∷ []));
        }
        ∷ record {
          description = point_description;
          mutates = true;
          undo_description =
              some (fmt (txt "restore " ∷ distro.name ∷ txt "'s registry entry" ∷ []));
        }
        ∷ record { description = smoke_description; mutates = false; undo_description = none }
        ∷ (if deletes_source m
            then record {
              description = delete_description;
              mutates = true;
              undo_description = none;
            }
              ∷ []
            else []);
    estimate = no_estimate;
    warnings =
        record {
          message = fmt (distro.name ∷ txt "'s registry entry will point at the new location" ∷ []);
          remedy = txt "it is put back automatically if the distribution fails to start";
        }
        ∷ (if deletes_source m
            then record {
              message =
                  txt
                    "the original disk is deleted once the distribution has started from the copy";
              remedy = txt "pass --keep-source to leave it in place";
            }
              ∷ []
            else []);
  }

  unfoldable pub plan : M State Plan
  unfolding missing_disk already_there target_exists check_room planned
  plan = do
    guard (is_wsl2 distro) (wsl1_refusal distro)
    found ← ask (P.exists distro.vhdx_path)
    guard found missing_disk
    guard (not (same_path distro.vhdx_path target)) already_there
    taken ← ask (P.exists target)
    guard (not taken) target_exists
    require_stopped P distro
    same ← call (P.same_volume distro.vhdx_path destination)
    modify (λ m. record m { same_volume = same })
    occupied ← call (P.file_size_on_disk distro.vhdx_path)
    modify (λ m. record m { size = occupied })
    m ← get
    check_room m
    pure (planned m)

  rename_file : M State (Unit {0})
  rename_file = do
    call (P.rename distro.vhdx_path target)
    modify (
        put_undo (
          push
            (fmt (
              txt "move "
              ∷ P.path_string target
              ∷ txt " back to "
              ∷ P.path_string distro.vhdx_path
              ∷ []))
            (returning (P.rename target distro.vhdx_path))))

  -- copy_file_sparse with its calls of the progress callback.
  copy_reporting : M State (Unit {0})
  copy_reporting s =
      let (done, progress, world) = P.copy_file_sparse distro.vhdx_path target s.world in
      (done, record s { world = world; events = s.events ++ map step_progress progress })

  -- A copy that fails is removed, whether or not that works.
  copy_file : M State (Unit {0})
  unfolding copy_reporting
  copy_file = do
    copied ← attempt copy_reporting
    elim copied [
      | err e ↦ (do attempt (call (P.remove target)) >>= λ ignored. raise e)
      | ok u ↦ modify (
          put_undo
            (push (fmt (txt "remove " ∷ P.path_string target ∷ [])) (returning (P.remove target))))
    ]

  unfoldable pub transfer : M State (Unit {0})
  unfolding rename_file copy_file
  transfer = do
    call (P.create_directories destination)
    m ← get
    (if was_renamed m then rename_file else copy_file)

  step : Bytes → Bool → StepPlan
  step description mutates = record {
    description = description;
    mutates = mutates;
    undo_description = none;
  }

  -- The last step, which nothing undoes. A failure of the deletion is told and not returned; the
  -- result says whether the step was completed.
  unfoldable pub cleanup : Members P.World → M State (List Bytes)
  unfolding step delete_description
  cleanup m =
      if deletes_source m
      then (do
        emit (step_started 3 (step delete_description true))
        removed ← attempt (call (P.remove distro.vhdx_path))
        elim removed [
          | err e ↦ (do
            emit (
                message (
                  fmt (
                    P.path_string distro.vhdx_path
                    ∷ txt " could not be deleted: "
                    ∷ e.message
                    ∷ [])))
            emit (message (txt "the move succeeded; the old file can be removed by hand"))
            pure [])
          | ok u ↦ (do
            emit (step_finished 3 (step delete_description true))
            pure (delete_description ∷ []))
        ])
      else pure []

  -- The steps before the point of no return, each with what follows it: the smoke test,
  unfoldable pub prove_it_boots : M State (Unit {0})
  unfolding step point_description smoke_description did_not_start
  prove_it_boots = do
    emit (step_finished 1 (step point_description true))
    emit (step_started 2 (step smoke_description false))
    boots P distro 120000 did_not_start
    emit (step_finished 2 (step smoke_description false))

  -- the repointing,
  unfoldable pub repoint : M State (Unit {0})
  repoint = repoint_registry P put_undo distro intended_base_path (filename target)

  unfoldable pub repoint_and_prove : Members P.World → M State (Unit {0})
  unfolding step transfer_description point_description
  repoint_and_prove m = do
    emit (step_finished 0 (step (transfer_description m) true))
    emit (step_started 1 (step point_description true))
    repoint
    prove_it_boots

  -- and the transfer.
  unfoldable pub move_and_prove : Members P.World → M State (Unit {0})
  unfolding step transfer_description
  move_and_prove m = do
    emit (step_started 0 (step (transfer_description m) true))
    transfer
    repoint_and_prove m

  unfoldable pub execute : M State Report
  unfolding transfer_description point_description smoke_description
  execute = do
    m ← get
    move_and_prove m
    deleted ← cleanup m
    pure (record {
      completed = transfer_description m ∷ point_description ∷ smoke_description ∷ deleted;
      actual = no_estimate;
    })

  not_there : Error
  not_there = record {
    code = partial;
    message = fmt (P.path_string target ∷ txt " is not there after the move" ∷ []);
    remedy = txt "run `wsldisk info` to see where the distribution points";
  }

  not_as_written : Error
  not_as_written = record {
    code = partial;
    message = fmt (distro.name ∷ txt "'s BasePath is not what was written" ∷ []);
    remedy = txt "run `wsldisk info` to see where it points now";
  }

  unfoldable pub verify : M State (Unit {0})
  unfolding not_there not_as_written
  verify = do
    found ← ask (P.exists target)
    guard found not_there
    written ← call (P.read_string (registry_key_for distro) base_path_value)
    guard (bytes_eq (value_or written []) intended_base_path) not_as_written

  unfoldable pub rollback : State → State
  rollback s =
      let (world, events) = unwind s.self.undo s.world s.events in
      record { world = world; events = events; self = record s.self { undo = [] } }

  unfoldable pub operation : Operation State
  operation = record { plan = plan; execute = execute; verify = verify; rollback = rollback }
