-- ===== src/Cli/Lookup/Suggestions.antt =====
-- src/cli/lookup.cpp: which names are suggested.
use mathlib.Core.List.{Perm}
use mathlib.Core.List.Perm
use wsldisk.Base.{
  ℕ, ◌≤◌, Bytes, List, [], ◌∷◌, ◌≡◌, refl, ap, arith, map, All, sort, sort-perm, sort-InOrder,
  All-sort, InOrder, leb, if◌then◌else◌, Bool-cases, inl, inr,
}
use wsldisk.Cli.Lookup.{distance, scored, nearest_names, suggestion_limit, pair_lt}

-- The registered names that are near enough.
unfoldable pub near_names : Bytes → List Bytes → List Bytes
near_names name [] = []
near_names name (candidate ∷ registered) =
    let rest = near_names name registered in
    if leb (distance name candidate) suggestion_limit then candidate ∷ rest else rest

-- The score of each pair is the distance of its name.
abbrev Scored : Bytes → ℕ × Bytes → Type 0
Scored name (score, candidate) = score ≡ distance name candidate

scored-Scored :
    (name : Bytes) (registered : List Bytes) → All (Scored name) (scored name registered)
unfolding scored
scored-Scored name [] = tt
scored-Scored name (candidate ∷ registered) =
    elim (Bool-cases (leb (distance name candidate) suggestion_limit)) [
      | inl near ↦ rw near (refl, scored-Scored name registered)
      | inr far ↦ rw far (scored-Scored name registered)
    ]

-- The names of scored pairs.
map-scored :
    (name : Bytes) (registered : List Bytes)
    → map (λ pair. pair.1) (scored name registered) ≡ near_names name registered
unfolding scored near_names
map-scored name [] = refl
map-scored name (candidate ∷ registered) =
    elim (Bool-cases (leb (distance name candidate) suggestion_limit)) [
      | inl near ↦ rw near (ap (λ names. candidate ∷ names) (map-scored name registered))
      | inr far ↦ rw far (map-scored name registered)
    ]

abbrev Closer : ℕ × Bytes → ℕ × Bytes → Type 0
Closer p q = p.0 ≤ q.0

-- Nearest first.
abbrev pub Nearest : Bytes → List Bytes → Type 0
Nearest name = InOrder (λ a b. distance name a ≤ distance name b)

All-Closer :
    (name : Bytes) (p : ℕ × Bytes) (pairs : List (ℕ × Bytes))
    → Scored name p
    → All (Closer p) pairs
    → All (Scored name) pairs
    → All (λ b. distance name p.1 ≤ distance name b) (map (λ pair. pair.1) pairs)
All-Closer name p [] sp _ _ = tt
All-Closer name p (q ∷ pairs) sp (c, cs) (sq, sqs) =
    (omega arith, All-Closer name p pairs sp cs sqs)

InOrder-map :
    (name : Bytes) (pairs : List (ℕ × Bytes))
    → InOrder Closer pairs
    → All (Scored name) pairs
    → Nearest name (map (λ pair. pair.1) pairs)
InOrder-map name [] _ _ = tt
InOrder-map name (p ∷ pairs) (c, cs) (sp, sps) =
    (All-Closer name p pairs sp c sps, InOrder-map name pairs cs sps)

scored-Closer :
    (name : Bytes) (registered : List Bytes)
    → InOrder Closer (sort pair_lt (scored name registered))
scored-Closer name registered =
    sort-InOrder pair_lt Closer (λ a b h. ground arith) (λ a b h. ground arith)
      (λ a b c h h'. omega arith) (scored name registered)

-- The names that are suggested are the registered ones at most four edits away, each as often as it
-- is registered, and no nearer one stands behind one that is further away.
pub nearest_names-IsNearest :
    (name : Bytes) (registered : List Bytes)
    → Perm (nearest_names name registered) (near_names name registered)
      × Nearest name (nearest_names name registered)
unfolding nearest_names
nearest_names-IsNearest name registered = (
  Perm.trans (Perm.map (λ pair. pair.1) (sort-perm pair_lt (scored name registered)))
      (rw (map-scored name registered) Perm.rfl),
  InOrder-map name (sort pair_lt (scored name registered)) (scored-Closer name registered)
      (All-sort pair_lt (Scored name) (scored name registered) (scored-Scored name registered)),
)
