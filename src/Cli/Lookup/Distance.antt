-- ===== src/Cli/Lookup/Distance.antt =====
-- src/cli/lookup.cpp: the rows of `distance` hold the least cost of making one name into the other.
use wsldisk.Base.{
  ℕ, suc, ◌+◌, ◌≤◌, min, Bytes, List, [], ◌∷◌, ◌++◌, ◌≡◌, ◌∙◌, ap, refl, arith, length, append-nil,
}
use mathlib.Core.Path.{subst}
use native.Mathlib.Decide.{dec_le}
use wsldisk.Cli.Lookup.{same_letter, first_row, row_cells, next_row, rows_loop, last_cell, distance}

-- A way to make one name into another, from the front.
pub data Alignment : Bytes → Bytes → Type 0 where
  done : Alignment [] []
  remove : {left right : Bytes} (a : ℕ) → Alignment left right → Alignment (a ∷ left) right
  insert : {left right : Bytes} (b : ℕ) → Alignment left right → Alignment left (b ∷ right)
  replace : {left right : Bytes} (a b : ℕ) → Alignment left right → Alignment (a ∷ left) (b ∷ right)

-- A removal and an insertion cost 1, a letter in place of another 1, and in place of itself 0.
abbrev pub price : {left right : Bytes} → Alignment left right → ℕ
price done = 0
price (remove a s) = price s + 1
price (insert b s) = price s + 1
price (replace a b s) = price s + same_letter a b

edit : Bytes → Bytes → ℕ
edit [] right = length right
edit (a ∷ left) [] = suc (length left)
edit (a ∷ left) (b ∷ right) =
    min (edit (a ∷ left) right + 1)
      (min (edit left (b ∷ right) + 1) (edit left right + same_letter a b))

edit-nil : (left : Bytes) → edit left [] ≡ length left
unfolding edit
edit-nil [] = refl
edit-nil (a ∷ left) = refl

edit-le-price : {left right : Bytes} (s : Alignment left right) → edit left right ≤ price s
unfolding edit
edit-le-price done = omega arith
edit-le-price (remove {left} {right = []} a s) = omega (arith, edit-le-price s, edit-nil left)
edit-le-price (remove {right = b ∷ right} a s) = ground (arith, edit-le-price s)
edit-le-price (insert {left = []} b s) = omega (arith, edit-le-price s)
edit-le-price (insert {left = a ∷ left} b s) = ground (arith, edit-le-price s)
edit-le-price (replace a b s) = ground (arith, edit-le-price s)

abbrev IsPriced : Bytes → Bytes → ℕ → Type 0
IsPriced left right cost = (s : Alignment left right) × (price s ≡ cost)

inserts : (right : Bytes) → IsPriced [] right (length right)
inserts [] = (done, refl)
inserts (b ∷ right) = let (s, e) = inserts right in (insert b s, omega arith)

removes : (left : Bytes) → IsPriced left [] (length left)
removes [] = (done, refl)
removes (a ∷ left) = let (s, e) = removes left in (remove a s, omega arith)

IsPriced-min :
    {left right : Bytes} {c d : ℕ}
    → IsPriced left right c
    → IsPriced left right d
    → IsPriced left right (min c d)
IsPriced-min {c} {d} s t = elim (dec_le c d) [
  | yes h ↦ (s.0, omega arith)
  | no h ↦ (t.0, omega arith)
]

edit_attained : (left right : Bytes) → IsPriced left right (edit left right)
unfolding edit
edit_attained [] right = inserts right
edit_attained (a ∷ left) [] = removes (a ∷ left)
edit_attained (a ∷ left) (b ∷ right) =
    let (r, er) = edit_attained (a ∷ left) right in
    let (s, es) = edit_attained left (b ∷ right) in
    let (t, et) = edit_attained left right in
    IsPriced-min (insert b r, omega arith)
      (IsPriced-min (remove a s, omega arith) (replace a b t, omega arith))

-- The text backwards, in front of `out`.
turned : Bytes → Bytes → Bytes
turned [] out = out
turned (c ∷ text) out = turned text (c ∷ out)

turned-turned :
    (text out behind : Bytes) → turned (turned text out) behind ≡ turned out (text ++ behind)
unfolding turned
turned-turned [] out behind = refl
turned-turned (c ∷ text) out behind = turned-turned text (c ∷ out) behind

turned_twice : (text : Bytes) → turned (turned text []) [] ≡ text
unfolding turned
turned_twice text = turned-turned text [] [] ∙ append-nil text

-- An alignment backwards, in front of another.
turn :
    {left right left' right' : Bytes} (s : Alignment left right) (t : Alignment left' right')
    → IsPriced (turned left left') (turned right right') (price s + price t)
unfolding turned
turn done t = (t, omega arith)
turn (remove a s) t = let (u, e) = turn s (remove a t) in (u, omega arith)
turn (insert b s) t = let (u, e) = turn s (insert b t) in (u, omega arith)
turn (replace a b s) t = let (u, e) = turn s (replace a b t) in (u, omega arith)

-- The cells of a row behind the one of the column `q`; letters read stand backwards in `p` and `q`.
more : Bytes → Bytes → Bytes → List ℕ
more p q [] = []
more p q (b ∷ right) = edit p (b ∷ q) ∷ more p (b ∷ q) right

first_row-more : (right q : Bytes) → first_row right (length q) ≡ edit [] q ∷ more [] q right
unfolding first_row edit more
first_row-more [] q = refl
first_row-more (b ∷ right) q = ap (λ row. length q ∷ row) (first_row-more right (b ∷ q))

row_cells-more :
    (a : ℕ) (right p q : Bytes)
    → row_cells a right (edit p q ∷ more p q right) (edit (a ∷ p) q) ≡ more (a ∷ p) q right
unfolding row_cells more edit
row_cells-more a [] p q = refl
row_cells-more a (b ∷ right) p q =
    ap (λ row. edit (a ∷ p) (b ∷ q) ∷ row) (row_cells-more a right p (b ∷ q))

rows_loop-more :
    (left right p : Bytes)
    → rows_loop left right (suc (length p)) (edit p [] ∷ more p [] right)
      ≡ edit (turned left p) [] ∷ more (turned left p) [] right
unfolding rows_loop next_row turned edit more
rows_loop-more [] right p = refl
rows_loop-more (a ∷ left) right p =
    rw (row_cells-more a right p []) (rows_loop-more left right (a ∷ p))

last_cell-more :
    (right p q : Bytes) → last_cell (edit p q ∷ more p q right) ≡ edit p (turned right q)
unfolding last_cell more turned
last_cell-more [] p q = refl
last_cell-more (b ∷ right) p q = last_cell-more right p (b ∷ q)

distance-eq-edit :
    (left right : Bytes) → distance left right ≡ edit (turned left []) (turned right [])
unfolding distance
distance-eq-edit left right =
    rw (first_row-more right [], rows_loop-more left right [])
      (last_cell-more right (turned left []) [])

-- The distance of two names is the cost of a way to make one into the other, letter by letter and
-- ignoring case, and no way costs less.
pub distance-IsLeast :
    (left right : Bytes)
    → ((s : Alignment left right) × (price s ≡ distance left right))
      × ((s : Alignment left right) → distance left right ≤ price s)
distance-IsLeast left right = rw (distance-eq-edit left right) (
    (
      let (s, e) = edit_attained (turned left []) (turned right []) in
          let (t, e') = turn s done in
          subst (λ x. IsPriced x right (edit (turned left []) (turned right [])))
            (turned_twice left)
            (subst
              (λ y.
                IsPriced (turned (turned left []) []) y (edit (turned left []) (turned right [])))
              (turned_twice right) (t, omega arith)),
      λ s. (let (t, e) = turn s done in omega (arith, edit-le-price t)),
    ))
