-- ===== src/Ops/Undo/Restore.antt =====
-- What unwinding an UndoStack puts back (src/lib/ops/operation.cpp).
use wsldisk.Base.{
  Bytes, txt, fmt, List, [], ◌∷◌, ◌++◌, ◌≡◌, refl, ◌⊎◌, inl, inr, Bool, true, false, any,
  any-append, starts_with, starts_with-append, arith,
}
use wsldisk.Errors.{ok, err, to_string}
use wsldisk.Ops.Operation.{Event, message}
use wsldisk.Ops.Undo.{Undone, returned, threw, threw_unknown, Entry, could_not_undo, unwind}

-- A message that says that something was not undone.
pub is_undo_failure : Event → Bool
is_undo_failure (message text) = starts_with text (txt "could not undo ")
is_undo_failure _ = false

-- The user was told of something that was not undone.
abbrev pub undo_failure_told : List Event → Bool
undo_failure_told = any is_undo_failure

abbrev IsDone : Undone → Type 0
IsDone u = u ≡ returned (ok tt)

message_told :
    (ps : List Bytes) → undo_failure_told (message (fmt (txt "could not undo " ∷ ps)) ∷ []) ≡ true
unfolding is_undo_failure fmt
message_told ps = ground (arith, starts_with-append (txt "could not undo ") (fmt ps))

told :
    (description : Bytes) (u : Undone)
    → IsDone u ⊎ (undo_failure_told (could_not_undo description u) ≡ true)
unfolding could_not_undo
told d (returned (ok u)) = inl refl
told d (returned (err e)) = inr (message_told (d ∷ txt ": " ∷ to_string e ∷ []))
told d (threw what) = inr (message_told (d ∷ txt ": " ∷ what ∷ []))
told d threw_unknown = inr (message_told (d ∷ txt ": unknown failure" ∷ []))

any-append_left :
    (xs ys : List Event) → undo_failure_told xs ≡ true → undo_failure_told (xs ++ ys) ≡ true
any-append_left xs ys h = rw (any-append is_undo_failure xs ys, h)

any-append_right :
    (xs ys : List Event) → undo_failure_told ys ≡ true → undo_failure_told (xs ++ ys) ≡ true
any-append_right xs ys h = rw (any-append is_undo_failure xs ys, h) (ground arith)

module _ {W : Type 0} where
  -- What the sink was told before stays told.
  unwind-keeps_told :
      (es : List (Entry W)) (w : W) (events : List Event)
      → undo_failure_told events ≡ true
      → undo_failure_told (unwind es w events).1 ≡ true
  unfolding unwind
  unwind-keeps_told [] w events h = h
  unwind-keeps_told (e ∷ es) w events h =
      unwind-keeps_told es _ _ (any-append_left _ _ (any-append_left events _ h))

  module _ {V : Type 0} (look : W → V) where
    -- From a world that looks like `v`, running the entries in order, each to success, leads back
    -- to one that looks like `start`.
    abbrev pub Chain : List (Entry W) → V → V → Type 0
    Chain [] v start = v ≡ start
    Chain (e ∷ es) v start =
        (before : V) × ((w : W) → look w ≡ v → IsDone (e.undo w).0 → look (e.undo w).1 ≡ before)
        × Chain es before start

    -- Unwinding a stack whose entries, run in order and each to success, lead back to a world that
    -- looks like `start` restores that look, or the user has been told of something that could not
    -- be undone.
    pub unwind-restores :
        (es : List (Entry W)) (w : W) (events : List Event) (start : V)
        → Chain es (look w) start
        → (look (unwind es w events).0 ≡ start) ⊎ (undo_failure_told (unwind es w events).1 ≡ true)
    unfolding unwind
    unwind-restores [] w events start c = inl c
    unwind-restores (e ∷ es) w events start (before, back, c) =
        elim (told e.description (e.undo w).0) [
          | inl done ↦ unwind-restores es _ _ start (rw (back w refl done) c)
          | inr failed ↦ inr (unwind-keeps_told es _ _ (any-append_right _ _ failed))
        ]
