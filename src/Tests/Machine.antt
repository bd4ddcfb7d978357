-- ===== src/Tests/Machine.antt =====
-- A small machine: a platform in memory, for the tests of src/lib/ops, that keeps what `Observed` asks.
use wsldisk.Base.{
  ℕ, ◌+◌, ◌^◌, ltb, txt, bytes_eq, Bool, true, false, Option, none, some, List, [], ◌∷◌, ◌≡◌, ◌≢◌,
  refl, length, ◌==◌, if◌then◌else◌, arith,
}
use wsldisk.Base.Int.{pos}
use wsldisk.Errors.{Error, generic, ok, err, Status}
use wsldisk.WinPath.{Wide, FilePath}
use wsldisk.Interfaces.{Platform, DiskProgress}
use wsldisk.Model.Distro.{Distro}
use wsldisk.Ops.Preflight.{base_path_value, vhd_file_name_value}
use wsldisk.Ops.Observed.{Observed}

-- Registry values by slot, files by the length of their path, whether a guest boots, whether the
-- disk is held open, a clock, and how often a command was run in a guest.
pub record Machine : Type 0 where
  pub values : ℕ → Option Wide
  pub files : ℕ → Option ℕ
  pub boots : Bool
  pub held_until : ℕ
  pub clock : ℕ
  pub runs : ℕ

pub refused : Error
refused = record { code = generic; message = txt "refused"; remedy = [] }

abbrev pub slot_of : Wide → Wide → ℕ
slot_of key name = if bytes_eq name base_path_value then 0 else 1

abbrev pub place_of : FilePath → ℕ
place_of path = length path

abbrev pub with_value : ℕ → Wide → Machine → Machine
with_value k v w = record w { values = λ j. if k == j then some v else w.values j }

abbrev pub with_file : ℕ → Option ℕ → Machine → Machine
with_file n f w = record w { files = λ j. if n == j then f else w.files j }

abbrev exits : Machine → ℕ
exits w = if w.boots then 0 else 1

abbrev pub moved : FilePath → FilePath → Machine → Machine
moved from to w = record w {
  files = λ j.
      if place_of to == j
      then w.files (place_of from)
      else if place_of from == j
      then none
      else w.files j;
}

abbrev present : Option ℕ → Bool
present none = false
present (some n) = true

abbrev pub copied : FilePath → FilePath → Machine → Status × List DiskProgress × Machine
copied from to w = elim (w.files (place_of from)) [
  | none ↦ (err refused, [], w)
  | some f ↦ (ok tt, record { current = 4; total = 4 } ∷ [], with_file (place_of to) (some f) w)
]

abbrev pub machine : Platform
machine = record {
  World = Machine;
  Handle = Unit;
  subkeys = λ key w. (ok [], w);
  read_string = λ key name w. (ok (w.values (slot_of key name)), w);
  read_dword = λ key name w. (ok none, w);
  write_string = λ key name content w. (ok tt, with_value (slot_of key name) content w);
  exists = λ path w. (present (w.files (place_of path)), w);
  file_size = λ path w. (ok 4096, w);
  file_size_on_disk = λ path w. (ok 4096, w);
  is_sparse = λ path w. (ok false, w);
  volume_info = λ path w.
      (ok (record { filesystem_name = txt "NTFS"; total_bytes = 2 ^ 40; free_bytes = 2 ^ 39 }), w);
  list_directory = λ path pattern w. (ok [], w);
  allocated_ranges = λ path w. (ok [], w);
  is_locked = λ path w. (ok (if ltb w.clock w.held_until then true else false), w);
  remove = λ path w. (ok tt, with_file (place_of path) none w);
  copy_file_sparse = copied;
  rename = λ from to w. (ok tt, moved from to w);
  same_volume = λ a b w. (ok true, w);
  expand_environment = λ path w. (ok path, w);
  read_text_file = λ path w. (err refused, w);
  write_text_file = λ path text w. (ok tt, w);
  create_directories = λ path w. (ok tt, w);
  running = λ w. (ok [], w);
  terminate = λ name w. (ok tt, w);
  shutdown = λ w. (ok tt, w);
  run_as_root = λ name argv timeout w. (
    ok (record { exit_code = pos (exits w); standard_output = []; standard_error = [] }),
    record w { runs = w.runs + 1 },
  );
  now = λ w. (w.clock, w);
  sleep_for = λ t w. record w { clock = w.clock + t };
  open_disk = λ path w. (ok tt, w);
  information = λ handle w. (err refused, w);
  compact = λ handle w. (ok tt, [], w);
  close = λ handle w. w;
  path_string = λ path. path;
}

pub slots_apart : (key : Wide) → slot_of key base_path_value ≢ slot_of key vhd_file_name_value
unfolding txt bytes_eq
slots_apart key = omega arith

pub copy_apart :
    (from to : FilePath) (w : Machine) (n : ℕ)
    → place_of to ≢ n
    → (copied from to w).2.files n ≡ w.files n
copy_apart from to w n h = ground arith

pub copy_arrives :
    (from to : FilePath) (w : Machine)
    → (copied from to w).0 ≡ ok tt
    → (copied from to w).2.files (place_of to) ≢ none
copy_arrives from to w h = ground arith

pub copy_keeps :
    (from to : FilePath) (w : Machine) (k : ℕ) → (copied from to w).2.values k ≡ w.values k
copy_keeps from to w k = ground arith

pub never_fails : {e : Error} → ◌≡◌ {A = Status} (ok tt) (err e) → ⊥
never_fails h = cc

abbrev pub machine-Observed : Observed machine
machine-Observed = record {
  slot = slot_of;
  value = λ w. w.values;
  place = place_of;
  file = λ w. w.files;
  slots_differ = slots_apart;
  write_sets = λ key name content w k h. refl;
  write_fails = λ key name content w e k h. absurd (never_fails h);
  write_files = λ key name content w n. refl;
  run_values = λ name argv t w key. (refl, refl);
  run_files = λ name argv t w n. refl;
  rename_moves = λ from to w n h. refl;
  rename_fails = λ from to w e n h. absurd (never_fails h);
  rename_values = λ from to w k. refl;
  remove_takes = λ path w n h. refl;
  remove_fails = λ path w e n h. absurd (never_fails h);
  remove_values = λ path w k. refl;
  copy_elsewhere = copy_apart;
  copy_there = copy_arrives;
  copy_values = copy_keeps;
  create_files = λ path w n. refl;
  create_values = λ path w k. refl;
}

abbrev pub ubuntu : Distro
ubuntu = record {
  name = txt "Ubuntu";
  guid = txt "{4d12}";
  version = 2;
  base_path = txt "C:\\wsl";
  vhd_file_name = txt "ext4.vhdx";
  vhdx_path = txt "C:\\wsl\\ext4.vhdx";
  default_uid = 1000;
  flags = 15;
  state = 1;
  is_default = true;
  modern = true;
  flavor = txt "ubuntu";
  os_version = txt "24.04";
}

-- The registry names Ubuntu's disk, which stands where it says; `guest` says whether it boots.
abbrev pub registered : Bool → Machine
registered guest = record {
  values = λ k. if k == 0 then some (txt "C:\\wsl") else some (txt "ext4.vhdx");
  files = λ n. if n == place_of ubuntu.vhdx_path then some 7 else none;
  boots = guest;
  held_until = 0;
  clock = 0;
  runs = 0;
}
