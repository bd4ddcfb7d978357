-- ===== src/Ops/Usage/Homes.antt =====
-- src/lib/ops/usage.cpp: the home directories that are looked into.
use mathlib.Core.Path.{subst}
use wsldisk.Base.{
  Bytes, txt, bytes_lt, bytes_eq, bytes_eq_sound, is_empty, split, starts_with, true, false, not,
  ◌||◌, ◌&&◌, none, some, List, [], ◌∷◌, ◌++◌, if◌then◌else◌, InOrder, All, ◌≡◌, ◌⊎◌, ◌↔◌, ◌∙◌, inl,
  inr, refl, sym, ap, arith, Bool-cases, Option-cases,
}
use wsldisk.Ops.Usage.{is_a_real_home, home_field, set_insert, homes_in, home_directories, lines_of}

bytes_lt_trans : (a b c : Bytes) → bytes_lt a b ≡ true → bytes_lt b c ≡ true → bytes_lt a c ≡ true
unfolding bytes_lt
bytes_lt_trans a b [] h h' = ground arith
bytes_lt_trans [] [] (z ∷ c) h h' = refl
bytes_lt_trans [] (y ∷ b) (z ∷ c) h h' = refl
bytes_lt_trans (x ∷ a) [] (z ∷ c) h h' = ground arith
bytes_lt_trans (x ∷ a) (y ∷ b) (z ∷ c) h h' = elim (Bool-cases (bytes_lt a b && bytes_lt b c)) [
  | inl both ↦ ground (arith, bytes_lt_trans a b c (ground arith) (ground arith))
  | inr neither ↦ ground arith
]

bytes_lt_total : (a b : Bytes) → bytes_lt a b ≡ false → bytes_eq a b ≡ false → bytes_lt b a ≡ true
unfolding bytes_lt bytes_eq
bytes_lt_total [] [] h h' = ground arith
bytes_lt_total [] (y ∷ b) h h' = ground arith
bytes_lt_total (x ∷ a) [] h h' = refl
bytes_lt_total (x ∷ a) (y ∷ b) h h' = elim (Bool-cases (bytes_lt a b || bytes_eq a b)) [
  | inl either ↦ ground arith
  | inr neither ↦ ground (arith, bytes_lt_total a b (ground arith) (ground arith))
]

abbrev pub Before : Bytes → Bytes → Type 0
Before a b = bytes_lt a b ≡ true

All-set_insert :
    (P : Bytes → Type 0) (a : Bytes) (bs : List Bytes) → P a → All P bs → All P (set_insert a bs)
unfolding set_insert
All-set_insert P a [] pa h = (pa, tt)
All-set_insert P a (b ∷ bs) pa (pb, h) = elim (Bool-cases (bytes_lt a b)) [
  | inl first ↦ rw first (pa, (pb, h))
  | inr later ↦ elim (Bool-cases (bytes_eq a b)) [
    | inl same ↦ rw (later, same) (pb, h)
    | inr other ↦ rw (later, other) (pb, All-set_insert P a bs pa h)
  ]
]

All-Before : (a b : Bytes) (bs : List Bytes) → Before a b → All (Before b) bs → All (Before a) bs
All-Before a b [] h hs = tt
All-Before a b (c ∷ bs) h (hc, hs) = (bytes_lt_trans a b c h hc, All-Before a b bs h hs)

set_insert-InOrder :
    (a : Bytes) (bs : List Bytes) → InOrder Before bs → InOrder Before (set_insert a bs)
unfolding set_insert
set_insert-InOrder a [] h = (tt, tt)
set_insert-InOrder a (b ∷ bs) (hb, h) = elim (Bool-cases (bytes_lt a b)) [
  | inl first ↦ rw first ((first, All-Before a b bs first hb), (hb, h))
  | inr later ↦ elim (Bool-cases (bytes_eq a b)) [
    | inl same ↦ rw (later, same) (hb, h)
    | inr other ↦
        rw (later, other)
          (
            All-set_insert (Before b) a bs (bytes_lt_total a b later other) hb,
            set_insert-InOrder a bs h,
          )
  ]
]

-- Membership.
abbrev pub Has : List Bytes → Bytes → Type 0
Has [] a = ⊥
Has (b ∷ bs) a = (a ≡ b) ⊎ Has bs a

Has-set_insert : (a h : Bytes) (bs : List Bytes) → Has (set_insert a bs) h → (h ≡ a) ⊎ Has bs h
unfolding set_insert
Has-set_insert a h [] (inl e) = inl e
Has-set_insert a h [] (inr none_there) = elim none_there [ ]
Has-set_insert a h (b ∷ bs) has = elim (Bool-cases (bytes_lt a b)) [
  | inl first ↦ rw first at has
  | inr later ↦ elim (Bool-cases (bytes_eq a b)) [
    | inl same ↦ inr (rw (later, same) at has)
    | inr other ↦ elim (rw (later, other) at has) [
      | inl e ↦ inr (inl e)
      | inr rest ↦ elim (Has-set_insert a h bs rest) [ inl e ↦ inl e | inr r ↦ inr (inr r) ]
    ]
  ]
]

set_insert-Has : (a h : Bytes) (bs : List Bytes) → (h ≡ a) ⊎ Has bs h → Has (set_insert a bs) h
unfolding set_insert
set_insert-Has a h [] (inl e) = inl e
set_insert-Has a h [] (inr none_there) = elim none_there [ ]
set_insert-Has a h (b ∷ bs) has = elim (Bool-cases (bytes_lt a b)) [
  | inl first ↦ rw first has
  | inr later ↦ elim (Bool-cases (bytes_eq a b)) [
    | inl same ↦
        rw (later, same) (elim has [ inl e ↦ inl (e ∙ bytes_eq_sound a b same) | inr r ↦ r ])
    | inr other ↦
        rw (later, other)
          (elim has [
            | inl e ↦ inr (set_insert-Has a h bs (inl e))
            | inr (inl e) ↦ inl e
            | inr (inr r) ↦ inr (set_insert-Has a h bs (inr r))
          ])
  ]
]

-- The home directory of a user that can have one: the sixth field of a line of passwd, and a path below
-- /home, or one that begins with /root.
abbrev pub IsHomeIn : Bytes → Bytes → Type 0
IsHomeIn line home =
    ((name password uid gid gecos : Bytes) × (rest : List Bytes) × (split line b':'
        ≡ name ∷ password ∷ uid ∷ gid ∷ gecos ∷ home ∷ rest))
    × (((below : Bytes) × (home ≡ txt "/home/" ++ below))
        ⊎ ((below : Bytes) × (home ≡ txt "/root" ++ below)))

home_field-sixth :
    (fields : List Bytes) {home : Bytes}
    → home_field fields ≡ some home
    → (a b c d e : Bytes) × (rest : List Bytes) × (fields ≡ a ∷ b ∷ c ∷ d ∷ e ∷ home ∷ rest)
unfolding home_field
home_field-sixth [] h = absurd (cc)
home_field-sixth (a ∷ []) h = absurd (cc)
home_field-sixth (a ∷ b ∷ []) h = absurd (cc)
home_field-sixth (a ∷ b ∷ c ∷ []) h = absurd (cc)
home_field-sixth (a ∷ b ∷ c ∷ d ∷ []) h = absurd (cc)
home_field-sixth (a ∷ b ∷ c ∷ d ∷ e ∷ []) h = absurd (cc)
home_field-sixth (a ∷ b ∷ c ∷ d ∷ e ∷ f ∷ rest) {home} h =
    let same : f ≡ home = cc in (a, b, c, d, e, rest, rw same refl)

starts_with-split : (s p : Bytes) → starts_with s p ≡ true → (below : Bytes) × (s ≡ p ++ below)
unfolding starts_with
starts_with-split s [] h = (s, refl)
starts_with-split [] (c ∷ p) h = absurd (ground arith)
starts_with-split (x ∷ s) (c ∷ p) h =
    let (below, e) = starts_with-split s p (ground arith) in
    let same : x ≡ c = ground arith in (below, rw (same, e) refl)

-- The set behind one line.
abbrev with_line : Bytes → List Bytes → List Bytes
with_line line homes = elim (home_field (split line b':')) [
  | none ↦ homes
  | some home ↦ if is_empty home || not (is_a_real_home home) then homes else set_insert home homes
]

real_sound :
    (home : Bytes)
    → (is_empty home || not (is_a_real_home home)) ≡ false
    → ((below : Bytes) × (home ≡ txt "/home/" ++ below))
      ⊎ ((below : Bytes) × (home ≡ txt "/root" ++ below))
real_sound home h = elim (Bool-cases (starts_with home (txt "/home/"))) [
  | inl e ↦ inl (starts_with-split home (txt "/home/") e)
  | inr e ↦ inr (starts_with-split home (txt "/root") (ground arith))
]

real_complete :
    (home : Bytes)
    → ((below : Bytes) × (home ≡ txt "/home/" ++ below))
      ⊎ ((below : Bytes) × (home ≡ txt "/root" ++ below))
    → (is_empty home || not (is_a_real_home home)) ≡ false
unfolding starts_with txt
real_complete home (inl (below, e)) = rw e refl
real_complete home (inr (below, e)) = rw e refl

skipped :
    (line : Bytes) (homes : List Bytes)
    → home_field (split line b':') ≡ none
    → with_line line homes ≡ homes
skipped line homes e = rw (with_line, e) refl

unreal :
    (line : Bytes) (homes : List Bytes) {home : Bytes}
    → home_field (split line b':') ≡ some home
    → (is_empty home || not (is_a_real_home home)) ≡ true
    → with_line line homes ≡ homes
unreal line homes e skip = rw (with_line, e, skip) refl

inserted :
    (line : Bytes) (homes : List Bytes) {home : Bytes}
    → home_field (split line b':') ≡ some home
    → (is_empty home || not (is_a_real_home home)) ≡ false
    → with_line line homes ≡ set_insert home homes
inserted line homes e keep = rw (with_line, e, keep) refl

with_line_sound :
    (line h : Bytes) (homes : List Bytes)
    → Has (with_line line homes) h
    → IsHomeIn line h ⊎ Has homes h
with_line_sound line h homes has = elim (Option-cases (home_field (split line b':'))) [
  | inl e ↦ inr (subst (λ bs. Has bs h) (skipped line homes e) has)
  | inr (home, e) ↦ elim (Bool-cases (is_empty home || not (is_a_real_home home))) [
    | inl skip ↦ inr (subst (λ bs. Has bs h) (unreal line homes e skip) has)
    | inr keep ↦
        elim (Has-set_insert home h homes
          (subst (λ bs. Has bs h) (inserted line homes e keep) has)) [
            | inl same ↦ inl (rw same (home_field-sixth (split line b':') e, real_sound home keep))
            | inr r ↦ inr r
          ]
  ]
]

with_line_complete :
    (line h : Bytes) (homes : List Bytes)
    → IsHomeIn line h ⊎ Has homes h
    → Has (with_line line homes) h
unfolding home_field
with_line_complete line h homes (inl ((a, b, c, d, e, rest, fields), real)) =
    subst (λ bs. Has bs h) (sym (inserted line homes (ap home_field fields) (real_complete h real)))
      (set_insert-Has h h homes (inl refl))
with_line_complete line h homes (inr has) = elim (Option-cases (home_field (split line b':'))) [
  | inl e ↦ subst (λ bs. Has bs h) (sym (skipped line homes e)) has
  | inr (home, e) ↦ elim (Bool-cases (is_empty home || not (is_a_real_home home))) [
    | inl skip ↦ subst (λ bs. Has bs h) (sym (unreal line homes e skip)) has
    | inr keep ↦
        subst (λ bs. Has bs h) (sym (inserted line homes e keep))
          (set_insert-Has home h homes (inr has))
  ]
]

-- A line of the text names this home.
abbrev pub Named : List Bytes → Bytes → Type 0
Named lines h = (line : Bytes) × Has lines line × IsHomeIn line h

homes_in_sound :
    (lines homes : List Bytes) (h : Bytes)
    → Has (homes_in lines homes) h
    → Named lines h ⊎ Has homes h
unfolding homes_in
homes_in_sound [] homes h has = inr has
homes_in_sound (line ∷ lines) homes h has =
    elim (homes_in_sound lines (with_line line homes) h has) [
      | inl (l, there, is) ↦ inl (l, inr there, is)
      | inr now ↦ elim (with_line_sound line h homes now) [
        | inl is ↦ inl (line, inl refl, is)
        | inr before ↦ inr before
      ]
    ]

homes_in_complete :
    (lines homes : List Bytes) (h : Bytes)
    → Named lines h ⊎ Has homes h
    → Has (homes_in lines homes) h
unfolding homes_in
homes_in_complete [] homes h (inl (line, there, is)) = elim there [ ]
homes_in_complete [] homes h (inr has) = has
homes_in_complete (line ∷ lines) homes h (inl (l, inl same, is)) =
    homes_in_complete lines (with_line line homes) h
      (inr (with_line_complete line h homes (inl (rw same at is))))
homes_in_complete (line ∷ lines) homes h (inl (l, inr there, is)) =
    homes_in_complete lines (with_line line homes) h (inl (l, there, is))
homes_in_complete (line ∷ lines) homes h (inr has) =
    homes_in_complete lines (with_line line homes) h
      (inr (with_line_complete line h homes (inr has)))

homes_in-InOrder :
    (lines homes : List Bytes) → InOrder Before homes → InOrder Before (homes_in lines homes)
unfolding homes_in
homes_in-InOrder [] homes h = h
homes_in-InOrder (line ∷ lines) homes h = elim (Option-cases (home_field (split line b':'))) [
  | inl e ↦ rw e (homes_in-InOrder lines homes h)
  | inr (home, e) ↦ elim (Bool-cases (is_empty home || not (is_a_real_home home))) [
    | inl skip ↦ rw (e, skip) (homes_in-InOrder lines homes h)
    | inr keep ↦
        rw (e, keep)
          (homes_in-InOrder lines (set_insert home homes) (set_insert-InOrder home homes h))
  ]
]

-- The home directories that are looked into are in order, without repetition; and they are exactly the
-- sixth fields of the lines of passwd that lie below /home, or begin with /root.
pub home_directories-IsSet :
    (passwd : Bytes)
    → InOrder Before (home_directories passwd)
      × ((home : Bytes) → Has (home_directories passwd) home ↔ Named (lines_of passwd) home)
unfolding home_directories
home_directories-IsSet passwd = (
  homes_in-InOrder (lines_of passwd) [] tt,
  λ home. (
    λ has. elim (homes_in_sound (lines_of passwd) [] home has) [
      | inl named ↦ named
      | inr nowhere ↦ absurd nowhere
    ],
    λ named. homes_in_complete (lines_of passwd) [] home (inl named),
  ),
)
