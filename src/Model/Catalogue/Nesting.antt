-- ===== src/Model/Catalogue/Nesting.antt =====
-- src/lib/model/catalogue.cpp: which path contains which, and what a catalogue that parses holds.
use wsldisk.Base.{
  Bytes, txt, starts_with, starts_with-append, bytes_eq, ends_with, Bool, true, false, ◌||◌, List,
  [], ◌∷◌, ◌++◌, ◌≡◌, ◌↔◌, inl, inr, refl, arith, All, suc, ℕ,
}
use wsldisk.Errors.{ok, Result-cases}
use wsldisk.Toml.{Toml}
use wsldisk.Model.Catalogue.{
  CacheEntry, path_contains, follows, checked_entry, parse_entry, parse_entries, parse_catalogue,
}

follows_sound :
    (outer inner : Bytes)
    → starts_with inner outer ≡ true
    → follows outer inner b'/' ≡ true
    → (rest : Bytes) × (inner ≡ outer ++ b'/' ∷ rest)
unfolding follows starts_with
follows_sound [] [] h hf = ground arith
follows_sound [] (x ∷ inner) h hf = (inner, ground arith)
follows_sound (o ∷ outer) [] h hf = ground arith
follows_sound (o ∷ outer) (x ∷ inner) h hf =
    let (rest, e) = follows_sound outer inner (ground arith) hf in
    let same : x ≡ o = ground arith in (rest, rw (same, e) refl)

follows-append : (outer rest : Bytes) → follows outer (outer ++ b'/' ∷ rest) b'/' ≡ true
unfolding follows
follows-append [] rest = refl
follows-append (o ∷ outer) rest = follows-append outer rest

longer_differs : (outer rest : Bytes) → bytes_eq outer (outer ++ b'/' ∷ rest) ≡ false
unfolding bytes_eq
longer_differs [] rest = refl
longer_differs (o ∷ outer) rest = ground (arith, longer_differs outer rest)

-- A path contains another exactly when the other is it, a slash, and something behind.
pub path_contains_iff :
    (outer inner : Bytes)
    → (path_contains outer inner ≡ true) ↔ ((rest : Bytes) × (inner ≡ outer ++ b'/' ∷ rest))
unfolding path_contains
path_contains_iff outer inner = (
  λ h. follows_sound outer inner (ground arith) (ground arith),
  λ (rest, e). rw e (
      ground (
        arith,
        longer_differs outer rest,
        starts_with-append outer (b'/' ∷ rest),
        follows-append outer rest,
      )),
)

-- An entry that the usage report can measure and compare.
abbrev pub IsMeasurable : CacheEntry → Type 0
IsMeasurable entry =
    ((starts_with entry.path (txt "/") || starts_with entry.path (txt "~/")) ≡ true)
    × (ends_with entry.path b'/' ≡ false)

module _ (T : Toml) where
  checked_entry-IsMeasurable :
      (node : T.Node) (index : ℕ) (path label : Bytes) (safe : Bool) {entry : CacheEntry}
      → checked_entry T node index path label safe ≡ ok entry
      → IsMeasurable entry
  unfolding checked_entry
  checked_entry-IsMeasurable node index path label safe h = ground arith

  parse_entry-IsMeasurable :
      (node : T.Node) (index : ℕ) {entry : CacheEntry}
      → parse_entry T node index ≡ ok entry
      → IsMeasurable entry
  unfolding parse_entry checked_entry
  parse_entry-IsMeasurable node index h = ground arith

  parse_entries-IsMeasurable :
      (nodes : List T.Node) (index : ℕ) {catalogue : List CacheEntry}
      → parse_entries T nodes index ≡ ok catalogue
      → All IsMeasurable catalogue
  unfolding parse_entries
  parse_entries-IsMeasurable [] index h = ground arith
  parse_entries-IsMeasurable (node ∷ nodes) index {catalogue} h =
      elim (Result-cases (parse_entry T node index)) [
        | inl (e, he) ↦ ground arith
        | inr (entry, he) ↦ elim (Result-cases (parse_entries T nodes (suc index))) [
          | inl (e, hs) ↦ ground arith
          | inr (entries, hs) ↦
              let same : catalogue ≡ entry ∷ entries = ground arith in
              rw same (
                parse_entry-IsMeasurable node index he,
                parse_entries-IsMeasurable nodes (suc index) hs,
              )
        ]
      ]

  -- Each entry of a catalogue that parses has a path that is absolute or under a home, and that does
  -- not end with a slash.
  pub parse_catalogue-IsMeasurable :
      (text : Bytes) {catalogue : List CacheEntry}
      → parse_catalogue T text ≡ ok catalogue
      → All IsMeasurable catalogue
  unfolding parse_catalogue
  parse_catalogue-IsMeasurable text h = grind (arith, parse_entries-IsMeasurable)
