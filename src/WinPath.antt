-- ===== src/WinPath.antt =====
-- std::filesystem::path as Microsoft's standard library implements it on Windows, over wide strings:
-- what src/lib/model and src/lib/ops use of it. No file of the repository is modelled here.
use wsldisk.Base.{
  ℕ, zero, suc, ◌+◌, ◌-◌, Bytes, Bool, true, false, ◌&&◌, ◌||◌, not, List, [], ◌∷◌, ◌++◌, leb, ◌==◌,
  if◌then◌else◌, is_empty, length, bytes_eq,
}

abbrev pub Wide : Type 0
Wide = Bytes

abbrev pub FilePath : Type 0
FilePath = Wide

abbrev pub is_slash : ℕ → Bool
is_slash c = c == b'\\' || c == b'/'

is_letter : ℕ → Bool
is_letter c = (leb b'A' c && leb c b'Z') || (leb b'a' c && leb c b'z')

-- How many units stand before the first separator.
until_slash : Wide → ℕ
until_slash [] = 0
until_slash (c ∷ s) = if is_slash c then 0 else suc (until_slash s)

-- The length of the root name: a drive, one of the device prefixes, or a server.
root_name_length : Wide → ℕ
unfolding until_slash is_letter
root_name_length [] = 0
root_name_length (a ∷ []) = 0
root_name_length (a ∷ b ∷ []) = if is_letter a && b == b':' then 2 else 0
root_name_length (a ∷ b ∷ c ∷ []) =
    if is_letter a && b == b':'
    then 2
    else if is_slash a && is_slash b && not (is_slash c)
    then 3
    else 0
root_name_length (a ∷ b ∷ c ∷ d ∷ s) =
    let device = (is_slash b && (c == b'?' || c == b'.')) || (b == b'?' && c == b'?') in
    if is_letter a && b == b':'
    then 2
    else if is_slash a && is_slash d && not (starts_with_slash s) && device
    then 3
    else if is_slash a && is_slash b && not (is_slash c)
    then 3 + until_slash (d ∷ s)
    else 0
  where
    starts_with_slash : Wide → Bool
    starts_with_slash [] = false
    starts_with_slash (x ∷ xs) = is_slash x

unfoldable pub take_units : ℕ → Wide → Wide
take_units zero s = []
take_units (suc n) [] = []
take_units (suc n) (c ∷ s) = c ∷ take_units n s

unfoldable pub drop_units : ℕ → Wide → Wide
drop_units zero s = s
drop_units (suc n) [] = []
drop_units (suc n) (c ∷ s) = drop_units n s

root_name : FilePath → Wide
unfolding root_name_length take_units
root_name p = take_units (root_name_length p) p

after_root_name : FilePath → Wide
unfolding root_name_length drop_units
after_root_name p = drop_units (root_name_length p) p

skip_slashes : Wide → Wide
skip_slashes [] = []
skip_slashes (c ∷ s) = let rest = skip_slashes s in if is_slash c then rest else c ∷ s

relative_path : FilePath → Wide
unfolding after_root_name skip_slashes
relative_path p = skip_slashes (after_root_name p)

has_root_directory : FilePath → Bool
unfolding after_root_name
has_root_directory p = first_is_slash (after_root_name p)
  where
    first_is_slash : Wide → Bool
    first_is_slash [] = false
    first_is_slash (x ∷ xs) = is_slash x

-- A drive alone is not absolute; any other root name is.
is_absolute : FilePath → Bool
unfolding root_name has_root_directory
is_absolute p =
    let name = root_name p in
    if is_empty name then false else if length name == 2 then has_root_directory p else true

-- What follows the last separator.
last_component : Wide → Wide → Wide
last_component s current = go s current
  where
    go : Wide → Wide → Wide
    go [] cur = cur
    go (c ∷ s) cur = go s (if is_slash c then [] else cur ++ c ∷ [])

-- path::filename.
unfoldable pub filename : FilePath → Wide
unfolding relative_path last_component
filename p = last_component (relative_path p) []

without_filename : FilePath → Wide
unfolding filename take_units
without_filename p = take_units (length p - length (filename p)) p

unfoldable pub drop_trailing_slashes : Wide → Wide
drop_trailing_slashes [] = []
drop_trailing_slashes (c ∷ s) =
    let rest = drop_trailing_slashes s in if is_empty rest && is_slash c then [] else c ∷ rest

-- path::parent_path: the root, and the relative part without its last component and the separators
-- before it.
unfoldable pub parent_path : FilePath → FilePath
unfolding relative_path without_filename drop_trailing_slashes take_units
parent_path p =
    let relative = relative_path p in
    take_units (length p - length relative) p ++ drop_trailing_slashes (without_filename relative)

last_dot : Wide → Wide → Wide
last_dot [] found = found
last_dot (c ∷ s) found = last_dot s (if c == b'.' then c ∷ s else found)

-- path::extension, with its dot, for names without an alternate data stream. A leading dot starts no
-- extension, and `..` has none.
unfoldable pub extension : FilePath → Wide
unfolding filename last_dot bytes_eq
extension p = of_name (filename p)
  where
    of_name : Wide → Wide
    of_name [] = []
    of_name (c ∷ s) = if bytes_eq (c ∷ s) (b'.' ∷ b'.' ∷ []) then [] else last_dot s []

-- path::operator/.
infixl 70 ◌//◌
unfoldable pub ◌//◌ : FilePath → FilePath → FilePath
unfolding root_name is_absolute has_root_directory after_root_name relative_path filename bytes_eq
p // q =
    let replaced =
      is_absolute q
      || (not (is_empty (root_name q)) && not (bytes_eq (root_name q) (root_name p))) in
    let separated =
      if not (is_empty (filename p)) || (not (has_root_directory p) && is_absolute p)
      then p ++ b'\\' ∷ []
      else p in
    if replaced
    then q
    else if has_root_directory q
    then root_name p ++ after_root_name q
    else separated ++ after_root_name q

-- path::root_path: the root name, and the separators behind it.
unfoldable pub root_path : FilePath → FilePath
unfolding relative_path take_units
root_path p = take_units (length p - length (relative_path p)) p

split_components : Wide → Wide → List Wide
split_components [] current = current ∷ []
split_components (c ∷ s) current =
    let closed = split_components s [] in
    let longer = split_components s (current ++ c ∷ []) in
    if not (is_slash c) then longer else if is_empty current then closed else current ∷ closed

-- What a loop over a path goes through: the root name, the root directory, the names, and an empty
-- name behind a separator at the end.
unfoldable pub components : FilePath → List Wide
unfolding root_name has_root_directory relative_path split_components
components p =
    let relative = relative_path p in
    (if is_empty (root_name p) then [] else root_name p ∷ [])
    ++ ((if has_root_directory p then (b'\\' ∷ []) ∷ [] else [])
        ++ (if is_empty relative then [] else split_components relative []))
