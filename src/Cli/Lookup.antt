-- ===== src/Cli/Lookup.antt =====
-- src/cli/lookup.cpp: finding a distribution by name, and what to suggest for a misspelt one.
pub mod Distance
pub mod Suggestions
use wsldisk.Base.{
  ℕ, zero, suc, ◌+◌, min, Bytes, txt, fmt, is_empty, bytes_eq, bytes_lt, Bool, true, false, ◌&&◌,
  ◌||◌, not, Option, none, some, List, [], ◌∷◌, ◌++◌, ltb, leb, ◌==◌, if◌then◌else◌, map, sort,
}
use wsldisk.Errors.{Error, distro_not_found, Result, ok, err}
use wsldisk.Effects.{M, ◌>>=◌, ◌>>◌, pure, raise}
use wsldisk.Interfaces.{Platform}
use wsldisk.Model.Distro.{Distro, DistroList, enumerate, find, lower}
use wsldisk.Model.Config.{joined}
use wsldisk.Cli.Session.{Session, calling, warn_all}

abbrev pub suggestion_limit : ℕ
suggestion_limit = 4

abbrev pub same_letter : ℕ → ℕ → ℕ
same_letter a b = if lower a == lower b then 0 else 1

-- The row before the first letter of `left`: 0, 1, and so on.
unfoldable pub first_row : Bytes → ℕ → List ℕ
first_row [] index = index ∷ []
first_row (c ∷ right) index = index ∷ first_row right (suc index)

-- The cells of `current` from the column behind `left_cell` on. `previous` starts at the column before.
unfoldable pub row_cells : ℕ → Bytes → List ℕ → ℕ → List ℕ
row_cells a (b ∷ right) (diagonal ∷ above ∷ previous) left_cell =
    let cell = min (left_cell + 1) (min (above + 1) (diagonal + same_letter a b)) in
    cell ∷ row_cells a right (above ∷ previous) cell
row_cells a _ _ left_cell = []

-- One row; the number of the row is its first cell.
unfoldable pub next_row : ℕ → Bytes → List ℕ → ℕ → List ℕ
unfolding row_cells
next_row a right previous row = row ∷ row_cells a right previous row

unfoldable pub rows_loop : Bytes → Bytes → ℕ → List ℕ → List ℕ
unfolding next_row
rows_loop [] right row previous = previous
rows_loop (a ∷ left) right row previous =
    rows_loop left right (suc row) (next_row a right previous row)

-- The last cell of a row.
unfoldable pub last_cell : List ℕ → ℕ
last_cell [] = 0
last_cell (x ∷ []) = x
last_cell (x ∷ y ∷ row) = last_cell (y ∷ row)

unfoldable pub distance : Bytes → Bytes → ℕ
unfolding first_row rows_loop last_cell
distance left right = last_cell (rows_loop left right 1 (first_row right 0))

-- The candidates near enough, with their scores.
unfoldable pub scored : Bytes → List Bytes → List (ℕ × Bytes)
unfolding distance
scored name [] = []
scored name (candidate ∷ registered) =
    let rest = scored name registered in
    if leb (distance name candidate) suggestion_limit
    then (distance name candidate, candidate) ∷ rest
    else rest

-- operator< of std::pair.
abbrev pub pair_lt : ℕ × Bytes → ℕ × Bytes → Bool
pair_lt (m, s) (n, t) = ltb m n || (not (ltb n m) && bytes_lt s t)

unfoldable pub nearest_names : Bytes → List Bytes → List Bytes
unfolding scored
nearest_names name registered = map (λ pair. pair.1) (sort pair_lt (scored name registered))

unfoldable pub not_found : Bytes → List Bytes → Error
unfolding nearest_names
not_found name registered = record {
  code = distro_not_found;
  message = fmt (txt "no distribution named " ∷ name ∷ []);
  remedy = elim (nearest_names name registered) [
    | [] ↦ txt "run `wsldisk list` to see what is registered"
    | first ∷ rest ↦
        fmt
          (txt "did you mean " ∷ joined (first ∷ rest) ∷ txt "? `wsldisk list` shows them all" ∷ [])
  ];
}

abbrev look_up : Bytes → DistroList → Result Distro
look_up name list = elim (find list name) [
  | some found ↦ ok found
  | none ↦ err (not_found name (map (λ distro. distro.name) list.distros))
]

module _ (P : Platform) where
  unfoldable pub find_distro : Bytes → Session P.World → Result Distro × Session P.World
  unfolding not_found
  find_distro name s =
      let (distros, s') = calling (enumerate P) s in
      elim distros [
        | err e ↦ (err e, s')
        | ok list ↦ (look_up name list, warn_all list.warnings s')
      ]
