-- ===== src/Base/Sorting.antt =====
-- std::ranges::sort, as an insertion sort that keeps the order of equal elements, which the standard
-- leaves open; and the order of std::string.
use mathlib.Core.Path.{◌≡◌}
use mathlib.Core.Bool.{Bool, true, false, ◌&&◌, ◌||◌}
use mathlib.Core.Logic.{inl, inr}
use mathlib.Core.List.{List, [], ◌∷◌, ◌++◌, append-nil, Perm}
use mathlib.Core.List.Perm
use wsldisk.Base.Tests.{ltb, ◌==◌, if◌then◌else◌, Bool-cases}
use wsldisk.Base.Lists.{All}
use wsldisk.Base.Strings.{Bytes}

-- std::string's operator<, on the bytes.
unfoldable pub bytes_lt : Bytes → Bytes → Bool
bytes_lt xs [] = false
bytes_lt [] (y ∷ ys) = true
bytes_lt (x ∷ xs) (y ∷ ys) = ltb x y || (x == y && bytes_lt xs ys)

-- Each element is related to all behind it.
module _ {ℓ κ} {A : Type ℓ} (R : A → A → Type κ) where
  abbrev pub InOrder : List A → Type κ
  InOrder [] = Unit
  InOrder (a ∷ items) = All (R a) items × InOrder items

module _ {ℓ} {A : Type ℓ} (before : A → A → Bool) where
  -- Behind the elements that `a` does not stand before.
  unfoldable pub sort_insert : A → List A → List A
  sort_insert a [] = a ∷ []
  sort_insert a (b ∷ bs) =
      let rest = sort_insert a bs in if before a b then a ∷ b ∷ bs else b ∷ rest

  -- Element by element; equal elements keep their order.
  unfoldable pub sort_all : List A → List A → List A
  unfolding sort_insert
  sort_all [] sorted = sorted
  sort_all (a ∷ rest) sorted = sort_all rest (sort_insert a sorted)

  unfoldable pub sort : List A → List A
  unfolding sort_all
  sort items = sort_all items []

  sort_insert-perm : (a : A) (bs : List A) → Perm (sort_insert a bs) (a ∷ bs)
  unfolding sort_insert
  sort_insert-perm a [] = Perm.rfl
  sort_insert-perm a (b ∷ bs) = elim (Bool-cases (before a b)) [
    | inl first ↦ rw first Perm.rfl
    | inr later ↦ rw later (Perm.trans (Perm.cons b (sort_insert-perm a bs)) (Perm.swap a b bs))
  ]

  perm_middle : (a : A) (xs ys : List A) → Perm (xs ++ a ∷ ys) (a ∷ (xs ++ ys))
  perm_middle a [] ys = Perm.rfl
  perm_middle a (x ∷ xs) ys =
      Perm.trans (Perm.cons x (perm_middle a xs ys)) (Perm.swap a x (xs ++ ys))

  sort_all-perm : (items sorted : List A) → Perm (sort_all items sorted) (items ++ sorted)
  unfolding sort_all
  sort_all-perm [] sorted = Perm.rfl
  sort_all-perm (a ∷ items) sorted =
      Perm.trans (sort_all-perm items (sort_insert a sorted)) (
        Perm.trans (Perm.append_left items (sort_insert-perm a sorted))
          (perm_middle a items sorted))

  pub sort-perm : (items : List A) → Perm (sort items) items
  unfolding sort
  sort-perm items = Perm.trans (sort_all-perm items []) (rw (append-nil items) Perm.rfl)

  All-sort_insert {κ} :
      (P : A → Type κ) (a : A) (bs : List A) → P a → All P bs → All P (sort_insert a bs)
  unfolding sort_insert
  All-sort_insert P a [] pa h = (pa, tt)
  All-sort_insert P a (b ∷ bs) pa (pb, h) = elim (Bool-cases (before a b)) [
    | inl first ↦ rw first (pa, (pb, h))
    | inr later ↦ rw later (pb, All-sort_insert P a bs pa h)
  ]

  All-sort_all {κ} :
      (P : A → Type κ) (items sorted : List A)
      → All P items
      → All P sorted
      → All P (sort_all items sorted)
  unfolding sort_all
  All-sort_all P [] sorted _ h = h
  All-sort_all P (a ∷ items) sorted (pa, hi) h =
      All-sort_all P items (sort_insert a sorted) hi (All-sort_insert P a sorted pa h)

  pub All-sort {κ} : (P : A → Type κ) (items : List A) → All P items → All P (sort items)
  unfolding sort
  All-sort P items h = All-sort_all P items [] h tt

  module _ {κ} (R : A → A → Type κ) where
    module _ (first_related : (a b : A) → before a b ≡ true → R a b)
        (later_related : (a b : A) → before a b ≡ false → R b a)
        (related_trans : (a b c : A) → R a b → R b c → R a c) where
      All-related : (a b : A) (items : List A) → R a b → All (R b) items → All (R a) items
      All-related a b [] h hs = tt
      All-related a b (c ∷ items) h (hc, hs) =
          (related_trans a b c h hc, All-related a b items h hs)

      sort_insert-InOrder : (a : A) (bs : List A) → InOrder R bs → InOrder R (sort_insert a bs)
      unfolding sort_insert
      sort_insert-InOrder a [] h = (tt, tt)
      sort_insert-InOrder a (b ∷ bs) (hb, h) = elim (Bool-cases (before a b)) [
        | inl first ↦
            rw first
              ((first_related a b first, All-related a b bs (first_related a b first) hb), (hb, h))
        | inr later ↦
            rw later
              (All-sort_insert (R b) a bs (later_related a b later) hb, sort_insert-InOrder a bs h)
      ]

      sort_all-InOrder :
          (items sorted : List A) → InOrder R sorted → InOrder R (sort_all items sorted)
      unfolding sort_all
      sort_all-InOrder [] sorted h = h
      sort_all-InOrder (a ∷ items) sorted h =
          sort_all-InOrder items (sort_insert a sorted) (sort_insert-InOrder a sorted h)

      pub sort-InOrder : (items : List A) → InOrder R (sort items)
      unfolding sort
      sort-InOrder items = sort_all-InOrder items [] tt
