-- ===== src/Ops/Usage.antt =====
-- src/lib/ops/usage.h and usage.cpp: what a guest's space is used for. A call of `progress` is the
-- event `message`, and the report under construction is the member that changes.
pub mod Measure
pub mod Arranged
pub mod Homes
use wsldisk.Base.{
  ℕ, ◌+◌, ◌-◌, ◌*◌, ◌%◌, ◌^◌, suc, zero, Bytes, txt, fmt, is_empty, bytes_eq, starts_with,
  ends_with, remove_suffix, split, cut_at, from_chars, decimal, Bool, true, false, not, ◌&&◌, ◌||◌,
  Option, none, some, List, [], ◌∷◌, ◌++◌, ltb, ◌==◌, if◌then◌else◌, any, length, sort, sort_insert,
  bytes_lt, map,
}
use wsldisk.Model.DiskInfo.{without_return}
use wsldisk.Model.Catalogue.{path_contains}

pub record UsageEntry : Type 0 where
  pub path : Bytes
  pub label : Bytes
  pub bytes : ℕ
  pub safe : Bool
  pub note : Bytes
  pub contains_others : Bool

pub record UsageDirectory : Type 0 where
  pub path : Bytes
  pub bytes : ℕ
  pub depth : ℕ
  pub attributed_bytes : ℕ
  pub attributed_to : Bytes

pub record UsageReport : Type 0 where
  pub distribution : Bytes
  pub guest_used : ℕ
  pub guest_free : ℕ
  pub entries : List UsageEntry
  pub counted : ℕ
  pub directories : List UsageDirectory
  pub notes : List Bytes

pub record UsageOptions : Type 0 where
  pub top : ℕ
  pub by_directory : Bool
  pub depth : ℕ
  pub timeout : ℕ

abbrev pub is_a_real_home : Bytes → Bool
is_a_real_home home = starts_with home (txt "/home/") || starts_with home (txt "/root")

-- lines_of, on the pieces of the text.
unfoldable pub lines_in : List Bytes → List Bytes
unfolding without_return
lines_in [] = []
lines_in (line ∷ lines) =
    let rest = lines_in lines in
    if is_empty (without_return line) then rest else without_return line ∷ rest

unfoldable pub lines_of : Bytes → List Bytes
unfolding lines_in
lines_of text = lines_in (split text 10)

-- A tab at the very front is no measurement: its digits are the empty text, which is no number.
unfoldable pub parse_du_line : Bytes → Option ℕ
unfolding cut_at from_chars
parse_du_line line = elim (cut_at 9 line) [ none ↦ none | some (digits, rest) ↦ from_chars digits ]

unfoldable pub slashes : Bytes → ℕ
slashes [] = 0
slashes (c ∷ s) = if c == b'/' then suc (slashes s) else slashes s

unfoldable pub path_depth : Bytes → ℕ
unfolding slashes
path_depth path = if bytes_eq path (txt "/") then 0 else slashes path

-- A path loses its trailing slash, the root does not.
unfoldable pub without_slash : Bytes → Bytes
unfolding remove_suffix
without_slash [] = []
without_slash (c ∷ []) = c ∷ []
without_slash (c ∷ d ∷ s) = if ends_with (d ∷ s) b'/' then remove_suffix (c ∷ d ∷ s) else c ∷ d ∷ s

abbrev pub found_directory : Bytes → ℕ → UsageDirectory
found_directory path bytes = record {
  path = path;
  bytes = bytes;
  depth = path_depth path;
  attributed_bytes = 0;
  attributed_to = [];
}

-- The loop of parse_du_listing.
unfoldable pub directories_in : List Bytes → List UsageDirectory
unfolding cut_at from_chars without_slash
directories_in [] = []
directories_in (line ∷ lines) =
    let rest = directories_in lines in
    elim (cut_at 9 line) [
      | none ↦ rest
      | some (digits, path) ↦ elim (from_chars digits) [
        | none ↦ rest
        | some bytes ↦ found_directory (without_slash path) bytes ∷ rest
      ]
    ]

unfoldable pub parse_du_listing : Bytes → List UsageDirectory
unfolding lines_of directories_in
parse_du_listing text = directories_in (lines_of text)

-- The sixth field.
unfoldable pub home_field : List Bytes → Option Bytes
home_field (a ∷ b ∷ c ∷ d ∷ e ∷ home ∷ rest) = some home
home_field _ = none

-- emplace into a std::set, which is in order and holds nothing twice.
unfoldable pub set_insert : Bytes → List Bytes → List Bytes
set_insert a [] = a ∷ []
set_insert a (b ∷ bs) =
    let rest = set_insert a bs in
    if bytes_lt a b then a ∷ b ∷ bs else if bytes_eq a b then b ∷ bs else b ∷ rest

unfoldable pub homes_in : List Bytes → List Bytes → List Bytes
unfolding home_field set_insert
homes_in [] homes = homes
homes_in (line ∷ lines) homes = homes_in lines (elim (home_field (split line b':')) [
  | none ↦ homes
  | some home ↦ if is_empty home || not (is_a_real_home home) then homes else set_insert home homes
])

unfoldable pub home_directories : Bytes → List Bytes
unfolding lines_of homes_in
home_directories passwd = homes_in (lines_of passwd) []

-- Whether an entry contains `path`, and whether one is inside another.
abbrev pub containing : List UsageEntry → Bytes → Bool
containing entries path = any (λ outer. path_contains outer.path path) entries

abbrev pub marked : List UsageEntry → UsageEntry → UsageEntry
marked all outer = record outer {
  contains_others = any (λ inner. path_contains outer.path inner.path) all;
}

-- The second loop of account_for_nesting, in std::uint64_t.
unfoldable pub count_entries : List UsageEntry → List UsageEntry → ℕ → ℕ
count_entries all [] counted = counted
count_entries all (entry ∷ entries) counted =
    count_entries all entries
      (if containing all entry.path then counted else (counted + entry.bytes) % 2 ^ 64)

unfoldable pub account_for_nesting : UsageReport → UsageReport
unfolding count_entries
account_for_nesting report =
    let entries = map (marked report.entries) report.entries in
    record report { entries = entries; counted = count_entries entries entries report.counted }

abbrev pub is_inside : Bytes → Bytes → Bool
is_inside directory path = bytes_eq path directory || path_contains directory path

-- Whether an entry stands for its bytes in a directory: it is there, and in no other entry that is.
abbrev pub stands_in : Bytes → List UsageEntry → UsageEntry → Bool
stands_in directory all entry =
    is_inside directory entry.path
    && not
        (any (λ outer. is_inside directory outer.path && path_contains outer.path entry.path) all)

-- The loop of attribute; `largest` is the largest entry so far.
unfoldable pub attribute_loop :
    List UsageEntry → List UsageEntry → ℕ → UsageDirectory → UsageDirectory
attribute_loop all [] largest directory = directory
attribute_loop all (entry ∷ entries) largest directory =
    let added = record directory {
      attributed_bytes = (directory.attributed_bytes + entry.bytes) % 2 ^ 64;
    } in
    let skipped = attribute_loop all entries largest directory in
    let larger =
      attribute_loop all entries entry.bytes (record added { attributed_to = entry.label }) in
    let smaller = attribute_loop all entries largest added in
    if not (stands_in directory.path all entry)
    then skipped
    else if ltb largest entry.bytes
    then larger
    else smaller

unfoldable pub attribute : List UsageEntry → UsageDirectory → UsageDirectory
unfolding attribute_loop
attribute entries directory = attribute_loop entries entries 0 directory

unfoldable pub take {ℓ} : {A : Type ℓ} → ℕ → List A → List A
take zero items = []
take (suc n) [] = []
take (suc n) (a ∷ items) = a ∷ take n items

-- `top` rows at most, or all of them if it is 0.
unfoldable pub top_of {ℓ} : {A : Type ℓ} → ℕ → List A → List A
unfolding take
top_of top items = if top == 0 then items else take top items

abbrev pub larger_entry : UsageEntry → UsageEntry → Bool
larger_entry left right = ltb right.bytes left.bytes

abbrev pub larger_directory : UsageDirectory → UsageDirectory → Bool
larger_directory left right = ltb right.bytes left.bytes

-- std::erase_if, of the root.
unfoldable pub without_root : List UsageDirectory → List UsageDirectory
without_root [] = []
without_root (d ∷ ds) = if d.depth == 0 then without_root ds else d ∷ without_root ds

-- What measure_directories makes of the listing, on the entries as they are then.
unfoldable pub breakdown : ℕ → List UsageEntry → List UsageDirectory → List UsageDirectory
unfolding without_root attribute top_of
breakdown top entries found =
    top_of top (sort larger_directory (map (attribute entries) (without_root found)))
