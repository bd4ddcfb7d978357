-- ===== src/Model/Catalogue.antt =====
-- src/lib/model/catalogue.h and catalogue.cpp: the places that caches live in. The tables that toml++
-- reads are the parameter `Toml`; the text that the build compiles in is an argument.
pub mod Nesting
use wsldisk.Base.{
  ℕ, suc, Bytes, txt, fmt, bytes_eq, starts_with, ends_with, decimal, Bool, true, false, not, ◌&&◌,
  Option, none, some, List, [], ◌∷◌, ◌++◌, ◌==◌, if◌then◌else◌,
}
use wsldisk.Errors.{Error, usage, Result, ok, err}
use wsldisk.Toml.{Toml, parsed, thrown}

pub record CacheEntry : Type 0 where
  pub path : Bytes
  pub label : Bytes
  pub safe : Bool
  pub note : Bytes

abbrev pub is_per_user : CacheEntry → Bool
is_per_user entry = starts_with entry.path (txt "~/")

-- The character behind the prefix `outer` of `inner`, if there is one.
unfoldable pub follows : Bytes → Bytes → ℕ → Bool
follows [] [] c = false
follows [] (x ∷ inner) c = x == c
follows (o ∷ outer) [] c = false
follows (o ∷ outer) (x ∷ inner) c = follows outer inner c

unfoldable pub path_contains : Bytes → Bytes → Bool
unfolding follows
path_contains outer inner =
    if bytes_eq outer inner
    then false
    else if starts_with inner outer
    then follows outer inner b'/'
    else false

unfoldable pub catalogue_bug : Bytes → Error
catalogue_bug text = record {
  code = usage;
  message = text;
  remedy = txt "this is a bug in wsldisk; please report it";
}

-- An entry without one of its keys; entries count from 1.
unfoldable pub no_key : ℕ → Bytes → Error
no_key index key = record {
  code = usage;
  message = fmt (txt "cache entry " ∷ decimal (suc index) ∷ txt " has no `" ∷ key ∷ txt "`" ∷ []);
  remedy = txt "every [[cache]] needs a path, a label and a safe flag";
}

unfoldable pub relative_path : ℕ → Bytes → Error
relative_path index path = record {
  code = usage;
  message = fmt (
      txt "cache entry "
      ∷ decimal (suc index)
      ∷ txt " has a relative path `"
      ∷ path
      ∷ txt "`"
      ∷ []);
  remedy = txt "paths are absolute inside the guest, or start with ~/ for a home directory";
}

unfoldable pub trailing_slash : ℕ → Bytes → Error
trailing_slash index path = record {
  code = usage;
  message = fmt (
      txt "cache entry " ∷ decimal (suc index) ∷ txt " ends with a slash: `" ∷ path ∷ txt "`" ∷ []);
  remedy = txt "write the path without a trailing slash";
}

module _ (T : Toml) where
  unfoldable pub required_string : T.Node → Bytes → ℕ → Result Bytes
  unfolding no_key
  required_string entry key index = elim (T.field entry key) [
    | none ↦ err (no_key index key)
    | some node ↦ elim (T.as_string node) [ none ↦ err (no_key index key) | some s ↦ ok s ]
  ]

  unfoldable pub required_flag : T.Node → Bytes → ℕ → Result Bool
  unfolding no_key
  required_flag entry key index = elim (T.field entry key) [
    | none ↦ err (no_key index key)
    | some node ↦ elim (T.as_boolean node) [ none ↦ err (no_key index key) | some b ↦ ok b ]
  ]

  unfoldable pub optional_string : T.Node → Bytes → Bytes
  optional_string entry key = elim (T.field entry key) [
    | none ↦ []
    | some node ↦ elim (T.as_string node) [ none ↦ [] | some s ↦ s ]
  ]

  -- The checks of a path, and the entry.
  unfoldable pub checked_entry : T.Node → ℕ → Bytes → Bytes → Bool → Result CacheEntry
  unfolding relative_path trailing_slash optional_string
  checked_entry entry index path label safe =
      if not (starts_with path (txt "/")) && not (starts_with path (txt "~/"))
      then err (relative_path index path)
      else if ends_with path b'/'
      then err (trailing_slash index path)
      else ok (record {
        path = path;
        label = label;
        safe = safe;
        note = optional_string entry (txt "note");
      })

  -- One round of the loop of parse_catalogue.
  unfoldable pub parse_entry : T.Node → ℕ → Result CacheEntry
  unfolding required_string required_flag checked_entry catalogue_bug
  parse_entry node index = elim (T.as_table node) [
    | none ↦ err (
        catalogue_bug (fmt (txt "cache entry " ∷ decimal (suc index) ∷ txt " is not a table" ∷ [])))
    | some entry ↦ elim (required_string entry (txt "path") index) [
      | err e ↦ err e
      | ok path ↦ elim (required_string entry (txt "label") index) [
        | err e ↦ err e
        | ok label ↦ elim (required_flag entry (txt "safe") index) [
          | err e ↦ err e
          | ok safe ↦ checked_entry entry index path label safe
        ]
      ]
    ]
  ]

  unfoldable pub parse_entries : List T.Node → ℕ → Result (List CacheEntry)
  unfolding parse_entry
  parse_entries [] index = ok []
  parse_entries (node ∷ nodes) index = elim (parse_entry node index) [
    | err e ↦ err e
    | ok entry ↦ elim (parse_entries nodes (suc index)) [
      | err e ↦ err e
      | ok entries ↦ ok (entry ∷ entries)
    ]
  ]

  unfoldable pub parse_catalogue : Bytes → Result (List CacheEntry)
  unfolding parse_entries catalogue_bug
  parse_catalogue text = elim (T.parse text) [
    | thrown e ↦
        err (catalogue_bug (fmt (txt "the cache catalogue is malformed: " ∷ e.description ∷ [])))
    | parsed table ↦ elim (T.field table (txt "cache")) [
      | none ↦ err (catalogue_bug (txt "the cache catalogue has no [[cache]] entries"))
      | some node ↦ elim (T.as_array node) [
        | none ↦ err (catalogue_bug (txt "the cache catalogue has no [[cache]] entries"))
        | some nodes ↦ parse_entries nodes 0
      ]
    ]
  ]

  -- The catalogue of a text; one that does not parse is empty.
  unfoldable pub cache_catalogue : Bytes → List CacheEntry
  unfolding parse_catalogue
  cache_catalogue embedded_caches_toml = elim (parse_catalogue embedded_caches_toml) [
    | err e ↦ []
    | ok catalogue ↦ catalogue
  ]
