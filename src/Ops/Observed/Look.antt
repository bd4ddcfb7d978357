-- ===== src/Ops/Observed/Look.antt =====
-- One distribution's registry entry and the two places of its disk, seen through `Observed`: how the
-- calls that src/lib/ops makes change that view.
use wsldisk.Base.{
  if◌then◌else◌, false, ℕ, Bytes, is_empty, false, Option, some, List, ◌≡◌, arith, if◌then◌else◌,
}
use wsldisk.Errors.{ok, err, Error}
use wsldisk.WinPath.{Wide}
use wsldisk.Interfaces.{Platform}
use wsldisk.Model.Distro.{Distro}
use wsldisk.Ops.Observed.{Observed}
use wsldisk.Ops.Preflight.{base_path_value, vhd_file_name_value}

-- What a distribution's registry entry and two files look like.
pub record View : Type 0 where
  pub base : Option Wide
  pub vhd : Option Wide
  pub source : Option ℕ
  pub target : Option ℕ

-- The registry entry says what the distribution's record says.
pub record IsCurrent (distro : Distro) (v : View) : Type 0 where
  pub base : v.base ≡ some distro.base_path
  pub vhd : is_empty distro.vhd_file_name ≡ false → v.vhd ≡ some distro.vhd_file_name

-- The entry after a repointing.
abbrev pub repointed : Distro → Wide → Wide → View → View
repointed distro base_path file_name v = record v {
  base = some base_path;
  vhd = if is_empty distro.vhd_file_name then v.vhd else some file_name;
}

module _ (P : Platform) (O : Observed P) (key : Wide) (from to : ℕ) where
  unfoldable pub look : P.World → View
  look w = record {
    base = O.value w (O.slot key base_path_value);
    vhd = O.value w (O.slot key vhd_file_name_value);
    source = O.file w from;
    target = O.file w to;
  }

  pub look-write_base :
      (content : Wide) (w : P.World)
      → (P.write_string key base_path_value content w).0 ≡ ok tt
      → look (P.write_string key base_path_value content w).1
        ≡ record (look w) { base = some content }
  unfolding look
  look-write_base content w h = ground (
    arith,
    O.slots_differ key,
    O.write_sets key base_path_value content w (O.slot key base_path_value),
    O.write_sets key base_path_value content w (O.slot key vhd_file_name_value),
    O.write_files key base_path_value content w from,
    O.write_files key base_path_value content w to,
  )

  pub look-write_vhd :
      (content : Wide) (w : P.World)
      → (P.write_string key vhd_file_name_value content w).0 ≡ ok tt
      → look (P.write_string key vhd_file_name_value content w).1
        ≡ record (look w) { vhd = some content }
  unfolding look
  look-write_vhd content w h = ground (
    arith,
    O.slots_differ key,
    O.write_sets key vhd_file_name_value content w (O.slot key base_path_value),
    O.write_sets key vhd_file_name_value content w (O.slot key vhd_file_name_value),
    O.write_files key vhd_file_name_value content w from,
    O.write_files key vhd_file_name_value content w to,
  )

  pub look-write_failed :
      (name content : Wide) (w : P.World) (e : Error)
      → (P.write_string key name content w).0 ≡ err e
      → look (P.write_string key name content w).1 ≡ look w
  unfolding look
  look-write_failed name content w e h = ground (
    arith,
    O.write_fails key name content w e (O.slot key base_path_value),
    O.write_fails key name content w e (O.slot key vhd_file_name_value),
    O.write_files key name content w from,
    O.write_files key name content w to,
  )

  pub look-run :
      (name : Bytes) (argv : List Bytes) (t : ℕ) (w : P.World)
      → look (P.run_as_root name argv t w).1 ≡ look w
  unfolding look
  look-run name argv t w = ground (
    arith,
    O.run_values name argv t w key,
    O.run_files name argv t w from,
    O.run_files name argv t w to,
  )
