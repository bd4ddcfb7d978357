-- ===== src/Ops/Undo.antt =====
-- UndoStack of src/lib/ops/operation.h and operation.cpp. The list's head is the vector's back.
pub mod Restore
use wsldisk.Base.{ℕ, Bytes, txt, fmt, List, [], ◌∷◌, ◌++◌}
use wsldisk.Errors.{Result, ok, err, Status, to_string}
use wsldisk.Ops.Operation.{Event, message}

-- How a call of an undo function ends: `std::exception` carries its text, `...` nothing.
pub data Undone : Type 0 where
  returned : Status → Undone
  threw : Bytes → Undone
  threw_unknown : Undone

pub record Entry (W : Type 0) : Type 0 where
  pub description : Bytes
  pub undo : W → Undone × W

unfoldable pub push : {W : Type 0} → Bytes → (W → Undone × W) → List (Entry W) → List (Entry W)
push description undo entries = record { description = description; undo = undo } ∷ entries

-- A function that returns a Status, as an undo function.
abbrev pub returning : {W : Type 0} → (W → Status × W) → W → Undone × W
returning f w = let r = f w in (returned r.0, r.1)

-- What the sink is told of one failed entry.
could_not_undo : Bytes → Undone → List Event
could_not_undo description (returned (ok u)) = []
could_not_undo description (returned (err e)) =
    message (fmt (txt "could not undo " ∷ description ∷ txt ": " ∷ to_string e ∷ [])) ∷ []
could_not_undo description (threw what) =
    message (fmt (txt "could not undo " ∷ description ∷ txt ": " ∷ what ∷ [])) ∷ []
could_not_undo description threw_unknown =
    message (fmt (txt "could not undo " ∷ description ∷ txt ": unknown failure" ∷ [])) ∷ []

-- Every entry runs, whatever became of those before it, and the stack is empty afterwards.
unfoldable pub unwind : {W : Type 0} → List (Entry W) → W → List Event → W × List Event
unfolding could_not_undo
unwind [] w events = (w, events)
unwind (entry ∷ rest) w events =
    let undone = entry.undo w in
    unwind rest undone.1 (
      (events ++ message (fmt (txt "undoing: " ∷ entry.description ∷ [])) ∷ [])
      ++ could_not_undo entry.description undone.0)
