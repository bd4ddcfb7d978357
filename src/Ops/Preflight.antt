-- ===== src/Ops/Preflight.antt =====
-- What the operations of src/lib/ops share: the refusals that several plans make in the same words,
-- and the repointing of a registry entry that relink.cpp and move.cpp both write out.
pub mod Undoable
pub mod Written
use wsldisk.Base.{
  ℕ, Bytes, txt, fmt, is_empty, bytes_eq, starts_with, Bool, true, false, not, Option, none, some,
  List, [], ◌∷◌, ◌++◌, if◌then◌else◌, any,
}
use wsldisk.Errors.{Error, ErrorCode, preflight, distro_busy, Result, ok, err, Status, to_string}
use wsldisk.Effects.{M, ◌>>=◌, ◌>>◌, pure, raise, guard, attempt}
use wsldisk.WinPath.{Wide, FilePath}
use wsldisk.Interfaces.{Platform, succeeded}
use wsldisk.Model.Distro.{Distro, extended_prefix, registry_key_for}
use wsldisk.Ops.Operation.{Context, call, modify}
use wsldisk.Ops.Undo.{Entry, push, returning}

abbrev pub base_path_value : Wide
base_path_value = txt "BasePath"

abbrev pub vhd_file_name_value : Wide
vhd_file_name_value = txt "VhdFileName"

unfoldable pub wsl1_refusal : Distro → Error
wsl1_refusal distro = record {
  code = preflight;
  message = fmt (distro.name ∷ txt " is a WSL1 distribution and has no virtual disk" ∷ []);
  remedy =
      fmt
        (txt "convert it with `wsl --set-version " ∷ distro.name ∷ txt " 2`, then try again" ∷ []);
}

-- `directory` in the prefix form that the distribution already used.
unfoldable pub in_prefix_form : Distro → Wide → Wide
in_prefix_form distro directory =
    if starts_with distro.base_path extended_prefix then extended_prefix ++ directory else directory

unfoldable pub cannot_tell_running : Distro → Error → Error
cannot_tell_running distro e = record {
  code = preflight;
  message = fmt (txt "cannot tell whether " ∷ distro.name ∷ txt " is running: " ∷ to_string e ∷ []);
  remedy = fmt (txt "run `wsl --terminate " ∷ distro.name ∷ txt "` and try again" ∷ []);
}

unfoldable pub is_running_refusal : Distro → Error
is_running_refusal distro = record {
  code = distro_busy;
  message = fmt (distro.name ∷ txt " is running" ∷ []);
  remedy = fmt (txt "run `wsl --terminate " ∷ distro.name ∷ txt "` first" ∷ []);
}

-- std::ranges::find on names.
abbrev pub is_among : Bytes → List Bytes → Bool
is_among name names = any (λ n. bytes_eq n name) names

-- The guest command of a smoke test.
abbrev pub smoke_argv : List Bytes
smoke_argv = txt "/bin/sh" ∷ txt "-c" ∷ txt ":" ∷ []

module _ (P : Platform) {X : Type 0} where
  -- A running distribution is refused, and so is a `running()` that fails.
  unfoldable pub require_stopped : Distro → M (Context P.World X) (Unit {0})
  unfolding cannot_tell_running is_running_refusal
  require_stopped distro = do
    running ← attempt (call P.running)
    elim running [
      | err e ↦ raise (cannot_tell_running distro e)
      | ok names ↦ guard (not (is_among distro.name names)) (is_running_refusal distro)
    ]

  -- The distribution boots and runs a command; `refusal` is the error if the command fails.
  unfoldable pub boots : Distro → ℕ → Error → M (Context P.World X) (Unit {0})
  boots distro timeout refusal = do
    started ← call (P.run_as_root distro.name smoke_argv timeout)
    guard (succeeded started) refusal

module _ (P : Platform) {X : Type 0}
    (put_undo : (List (Entry P.World) → List (Entry P.World)) → X → X) where
  -- Writes one value, and pushes the entry that writes the previous one back.
  unfoldable pub write_undoably :
      Wide → Wide → Wide → Wide → Bytes → M (Context P.World X) (Unit {0})
  write_undoably key value data_written previous description = do
    call (P.write_string key value data_written)
    modify (put_undo (push description (returning (P.write_string key value previous))))

  -- The VhdFileName is written only if the distribution had one.
  unfoldable pub repoint_name : Distro → Wide → M (Context P.World X) (Unit {0})
  repoint_name distro file_name =
      if is_empty distro.vhd_file_name
      then pure tt
      else write_undoably (registry_key_for distro) vhd_file_name_value file_name
          distro.vhd_file_name (fmt (txt "restore " ∷ distro.name ∷ txt "'s VhdFileName" ∷ []))

  -- Rewrites BasePath and, if the distribution had one, VhdFileName.
  unfoldable pub repoint_registry : Distro → Wide → Wide → M (Context P.World X) (Unit {0})
  repoint_registry distro base_path file_name = do
    write_undoably (registry_key_for distro) base_path_value base_path distro.base_path
        (fmt (txt "restore " ∷ distro.name ∷ txt "'s BasePath" ∷ []))
    repoint_name distro file_name
