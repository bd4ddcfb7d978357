-- ===== src/Ops/Usage/Arranged.antt =====
-- src/lib/ops/usage.cpp: the order and the rows of a report.
use mathlib.Core.List.{Perm, append-nil}
use wsldisk.Base.{
  ℕ, zero, suc, ◌+◌, Bool, List, [], ◌∷◌, ◌++◌, ◌==◌, if◌then◌else◌, min, map, length, sort,
  sort_insert, sort_all, sort-perm, sort-InOrder, InOrder, ◌≤◌, ◌≡◌, ◌≢◌, ◌⊎◌, inl, inr, refl, sym,
  ap, arith, Bool-cases,
}
use wsldisk.Ops.Usage.{
  UsageEntry, UsageDirectory, without_root, attribute, take, top_of, larger_directory, breakdown,
}

module _ {ℓ} {A : Type ℓ} where
  -- What is behind the first n.
  drop : ℕ → List A → List A
  drop zero items = items
  drop (suc n) [] = []
  drop (suc n) (a ∷ items) = drop n items

  take-drop : (n : ℕ) (items : List A) → take n items ++ drop n items ≡ items
  unfolding take drop
  take-drop zero items = refl
  take-drop (suc n) [] = refl
  take-drop (suc n) (a ∷ items) = ap (λ rest. a ∷ rest) (take-drop n items)

  length-take : (n : ℕ) (items : List A) → length (take n items) ≡ min n (length items)
  unfolding take
  length-take zero items = omega arith
  length-take (suc n) [] = omega arith
  length-take (suc n) (a ∷ items) = omega (arith, length-take n items)

  length-map {κ} : {B : Type κ} (f : A → B) (items : List A) → length (map f items) ≡ length items
  length-map f [] = refl
  length-map f (a ∷ items) = ap suc (length-map f items)

  module _ (before : A → A → Bool) where
    length-sort_insert :
        (a : A) (items : List A) → length (sort_insert before a items) ≡ suc (length items)
    unfolding sort_insert
    length-sort_insert a [] = refl
    length-sort_insert a (b ∷ items) = ground (arith, length-sort_insert a items)

    length-sort_all :
        (items sorted : List A)
        → length (sort_all before items sorted) ≡ length items + length sorted
    unfolding sort_all
    length-sort_all [] sorted = omega arith
    length-sort_all (a ∷ items) sorted =
        omega
          (arith, length-sort_all items (sort_insert before a sorted), length-sort_insert a sorted)

    length-sort : (items : List A) → length (sort before items) ≡ length items
    unfolding sort
    length-sort items = omega (arith, length-sort_all items [])

abbrev pub Larger : UsageDirectory → UsageDirectory → Type 0
Larger left right = right.bytes ≤ left.bytes

-- The directories that were found, in their order, without the rows of the root.
abbrev pub IsWithoutRoot : List UsageDirectory → List UsageDirectory → Type 0
IsWithoutRoot [] kept = kept ≡ []
IsWithoutRoot (d ∷ found) kept =
    ((d.depth ≡ 0) × IsWithoutRoot found kept)
    ⊎ ((d.depth ≢ 0)
        × ((rest : List UsageDirectory) × (kept ≡ d ∷ rest) × IsWithoutRoot found rest))

without_root-IsWithoutRoot :
    (found : List UsageDirectory) → IsWithoutRoot found (without_root found)
unfolding without_root
without_root-IsWithoutRoot [] = refl
without_root-IsWithoutRoot (d ∷ found) = elim (Bool-cases (d.depth == 0)) [
  | inl root ↦ rw root (inl (ground arith, without_root-IsWithoutRoot found))
  | inr other ↦
      inr (λ e. ground arith, (without_root found, rw other refl, without_root-IsWithoutRoot found))
]

-- How many of so many rows are shown.
abbrev pub shown : ℕ → ℕ → ℕ
shown top count = if top == 0 then count else min top count

-- A sorted list cut at so many rows.
top_of-splits :
    (top : ℕ) (items : List UsageDirectory)
    → (left_out : List UsageDirectory) × (top_of top items ++ left_out ≡ items)
      × (length (top_of top items) ≡ shown top (length items))
unfolding top_of
top_of-splits top items = elim (Bool-cases (top == 0)) [
  | inl all ↦ rw all ([], append-nil items, refl)
  | inr cut ↦ rw cut (drop top items, take-drop top items, length-take top items)
]

-- The rows of the breakdown by directory are those of every directory that was found but the root,
-- each with what the entries account for in it: largest first, and as many as were asked for, or all
-- of them if none were; those left out come behind, so none is larger than one that is shown.
pub breakdown-IsArranged :
    (top : ℕ) (entries : List UsageEntry) (found : List UsageDirectory)
    → (kept left_out : List UsageDirectory) × IsWithoutRoot found kept
      × Perm (breakdown top entries found ++ left_out) (map (attribute entries) kept)
      × InOrder Larger (breakdown top entries found ++ left_out)
      × (length (breakdown top entries found) ≡ shown top (length kept))
unfolding breakdown
breakdown-IsArranged top entries found =
    let rows = map (attribute entries) (without_root found) in
    let (left_out, whole, count) = top_of-splits top (sort larger_directory rows) in
    (
      without_root found,
      left_out,
      without_root-IsWithoutRoot found,
      rw whole (sort-perm larger_directory rows),
      rw whole (
          sort-InOrder larger_directory Larger (λ a b h. ground arith) (λ a b h. ground arith)
            (λ a b c h h'. omega arith) rows),
      rw
          (
            sym (length-map (attribute entries) (without_root found)),
            sym (length-sort larger_directory rows),
          )
          count,
    )
