-- ===== src/Ops/Observed.antt =====
-- What the proofs about the operations assume of the registry and of the file system behind the
-- interfaces of src/lib/interfaces.h: which value a write leaves, and which calls leave it alone.
pub mod Look
use wsldisk.Base.{
  ℕ, Bytes, bytes_eq, Bool, true, false, ◌&&◌, Option, none, some, List, ◌≡◌, ◌≢◌, ◌==◌,
  if◌then◌else◌,
}
use wsldisk.Errors.{Error, ok, err}
use wsldisk.WinPath.{Wide, FilePath}
use wsldisk.Interfaces.{Platform}
use wsldisk.Ops.Preflight.{base_path_value, vhd_file_name_value}

-- A view of the world: the values in the registry, and which file stands where. Value names and
-- paths are compared by Windows, not by their spelling, so they stand for slots. A file that is
-- renamed keeps its identity.
pub record Observed (P : Platform) : Type 0 where
  pub slot : Wide → Wide → ℕ
  pub value : P.World → ℕ → Option Wide
  pub place : FilePath → ℕ
  pub file : P.World → ℕ → Option ℕ
  -- The two values of one key are different ones.
  pub slots_differ : (key : Wide) → slot key base_path_value ≢ slot key vhd_file_name_value
  -- A write that succeeds sets its value and no other; one that fails sets none.
  pub write_sets :
      (key name content : Wide) (w : P.World) (k : ℕ)
      → (P.write_string key name content w).0 ≡ ok tt
      → value (P.write_string key name content w).1 k
        ≡ (if slot key name == k then some content else value w k)
  pub write_fails :
      (key name content : Wide) (w : P.World) (e : Error) (k : ℕ)
      → (P.write_string key name content w).0 ≡ err e
      → value (P.write_string key name content w).1 k ≡ value w k
  pub write_files :
      (key name content : Wide) (w : P.World) (n : ℕ)
      → file (P.write_string key name content w).1 n ≡ file w n
  -- A command in a guest moves no disk and repoints no distribution.
  pub run_values :
      (name : Bytes) (argv : List Bytes) (t : ℕ) (w : P.World) (key : Wide)
      → (value (P.run_as_root name argv t w).1 (slot key base_path_value)
          ≡ value w (slot key base_path_value))
        × (value (P.run_as_root name argv t w).1 (slot key vhd_file_name_value)
            ≡ value w (slot key vhd_file_name_value))
  pub run_files :
      (name : Bytes) (argv : List Bytes) (t : ℕ) (w : P.World) (n : ℕ)
      → file (P.run_as_root name argv t w).1 n ≡ file w n
  -- A rename that succeeds moves the file, a removal takes it away; if they fail, nothing happened.
  pub rename_moves :
      (from to : FilePath) (w : P.World) (n : ℕ)
      → (P.rename from to w).0 ≡ ok tt
      → file (P.rename from to w).1 n ≡ (
          if place to == n then file w (place from) else if place from == n then none else file w n)
  pub rename_fails :
      (from to : FilePath) (w : P.World) (e : Error) (n : ℕ)
      → (P.rename from to w).0 ≡ err e
      → file (P.rename from to w).1 n ≡ file w n
  pub rename_values :
      (from to : FilePath) (w : P.World) (k : ℕ) → value (P.rename from to w).1 k ≡ value w k
  pub remove_takes :
      (path : FilePath) (w : P.World) (n : ℕ)
      → (P.remove path w).0 ≡ ok tt
      → file (P.remove path w).1 n ≡ (if place path == n then none else file w n)
  pub remove_fails :
      (path : FilePath) (w : P.World) (e : Error) (n : ℕ)
      → (P.remove path w).0 ≡ err e
      → file (P.remove path w).1 n ≡ file w n
  pub remove_values :
      (path : FilePath) (w : P.World) (k : ℕ) → value (P.remove path w).1 k ≡ value w k
  -- A copy touches the file at its destination alone, and puts one there if it succeeds.
  pub copy_elsewhere :
      (from to : FilePath) (w : P.World) (n : ℕ)
      → place to ≢ n
      → file (P.copy_file_sparse from to w).2 n ≡ file w n
  pub copy_there :
      (from to : FilePath) (w : P.World)
      → (P.copy_file_sparse from to w).0 ≡ ok tt
      → file (P.copy_file_sparse from to w).2 (place to) ≢ none
  pub copy_values :
      (from to : FilePath) (w : P.World) (k : ℕ)
      → value (P.copy_file_sparse from to w).2 k ≡ value w k
  pub create_files :
      (path : FilePath) (w : P.World) (n : ℕ) → file (P.create_directories path w).1 n ≡ file w n
  pub create_values :
      (path : FilePath) (w : P.World) (k : ℕ) → value (P.create_directories path w).1 k ≡ value w k
