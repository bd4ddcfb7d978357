-- ===== src/Model/Config.antt =====
-- src/lib/model/config.h and config.cpp: the configuration file. The tables that toml++ reads are the
-- parameter `Toml`.
pub mod File
pub mod Settings
use wsldisk.Base.{
  ℕ, ◌+◌, ◌-◌, ◌*◌, Bytes, txt, fmt, is_empty, bytes_eq, decimal, Bool, true, false, not, ◌&&◌,
  ◌||◌, Option, none, some, List, [], ◌∷◌, ◌++◌, ltb, ◌==◌, if◌then◌else◌, isdigit, split,
  strip_front, strip_back, cut_at,
}
use wsldisk.Errors.{Error, usage, Result, ok, err, fail, Status}
use wsldisk.Effects.{M, ◌>>=◌, pure, from_result, attempt}
use wsldisk.WinPath.{FilePath, ◌//◌}
use wsldisk.Toml.{Toml, Parsed, parsed, thrown}
use wsldisk.Interfaces.{Platform}

pub record Config : Type 0 where
  pub scan_dirs : List Bytes
  pub compact_trim : Bool
  pub compact_restart : Bool
  pub unlock_timeout_seconds : ℕ

abbrev pub default_config : Config
default_config = record {
  scan_dirs = [];
  compact_trim = true;
  compact_restart = false;
  unlock_timeout_seconds = 90;
}

-- In milliseconds.
unfoldable pub unlock_timeout : Config → ℕ
unlock_timeout config = config.unlock_timeout_seconds * 1000

abbrev pub max_unlock_timeout_seconds : ℕ
max_unlock_timeout_seconds = 3600

abbrev pub scan_dirs_key : Bytes
scan_dirs_key = txt "scan.dirs"

abbrev pub compact_trim_key : Bytes
compact_trim_key = txt "compact.trim"

abbrev pub compact_restart_key : Bytes
compact_restart_key = txt "compact.restart"

abbrev pub unlock_timeout_key : Bytes
unlock_timeout_key = txt "wsl.unlock_timeout_seconds"

abbrev pub config_keys : List Bytes
config_keys = scan_dirs_key ∷ compact_trim_key ∷ compact_restart_key ∷ unlock_timeout_key ∷ []

unfoldable pub parse_bool : Bytes → Option Bool
parse_bool text =
    if bytes_eq text (txt "true")
    then some true
    else if bytes_eq text (txt "false")
    then some false
    else none

abbrev pub bool_text : Bool → Bytes
bool_text b = if b then txt "true" else txt "false"

-- The loop of parse_seconds. The value before a digit is 3600 at most, so nothing wraps around.
unfoldable pub seconds_loop : Bytes → ℕ → Option ℕ
seconds_loop [] value = some value
seconds_loop (c ∷ s) value =
    let more = seconds_loop s (value * 10 + (c - b'0')) in
    if not (isdigit c)
    then none
    else if ltb max_unlock_timeout_seconds (value * 10 + (c - b'0'))
    then none
    else more

unfoldable pub parse_seconds : Bytes → Option ℕ
unfolding seconds_loop
parse_seconds text = if is_empty text then none else seconds_loop text 0

-- The loop of as_toml_string.
unfoldable pub escaped : Bytes → Bytes
escaped [] = []
escaped (c ∷ s) =
    let rest = escaped s in if c == b'\\' || c == b'"' then b'\\' ∷ c ∷ rest else c ∷ rest

unfoldable pub as_toml_string : Bytes → Bytes
unfolding escaped
as_toml_string text = b'"' ∷ (escaped text ++ b'"' ∷ [])

-- Space, tab and carriage return.
abbrev pub is_blank : ℕ → Bool
is_blank c = c == b' ' || c == 9 || c == 13

unfoldable pub trimmed : Bytes → Bytes
trimmed text = strip_back is_blank (strip_front is_blank text)

-- The names joined by a comma and a space, behind the text so far.
joined_onto : List Bytes → Bytes → Bytes
joined_onto [] text = text
joined_onto (name ∷ names) text =
    joined_onto names (if is_empty text then text ++ name else text ++ (txt ", " ++ name))

unfoldable pub joined : List Bytes → Bytes
unfolding joined_onto
joined names = joined_onto names []

unfoldable pub render_dirs : List Bytes → List Bytes
unfolding as_toml_string
render_dirs [] = []
render_dirs (dir ∷ dirs) = txt ", " ∷ as_toml_string dir ∷ render_dirs dirs

-- The first directory has no comma before it.
abbrev pub rendered_dirs : List Bytes → List Bytes
rendered_dirs [] = []
rendered_dirs (dir ∷ dirs) = as_toml_string dir ∷ render_dirs dirs

abbrev line_end : Bytes
line_end = 10 ∷ []

unfoldable pub render_config : Config → Bytes
unfolding render_dirs
render_config config = fmt (
    txt "# wsldisk configuration. Every value here is a default that the"
    ∷ line_end
    ∷ txt "# matching command-line flag still overrides."
    ∷ line_end
    ∷ line_end
    ∷ txt "[scan]"
    ∷ line_end
    ∷ txt "# Extra roots for `wsldisk orphans` to search, on top of the built-in three."
    ∷ line_end
    ∷ txt "dirs = ["
    ∷ fmt (rendered_dirs config.scan_dirs)
    ∷ txt "]"
    ∷ line_end
    ∷ line_end
    ∷ txt "[compact]"
    ∷ line_end
    ∷ txt "# Run fstrim before compacting. `--no-trim` overrides this."
    ∷ line_end
    ∷ txt "trim = "
    ∷ bool_text config.compact_trim
    ∷ line_end
    ∷ txt "# Start the distribution again afterwards if it was running."
    ∷ line_end
    ∷ txt "restart = "
    ∷ bool_text config.compact_restart
    ∷ line_end
    ∷ line_end
    ∷ txt "[wsl]"
    ∷ line_end
    ∷ txt "# How long `compact` waits for the disk after terminating."
    ∷ line_end
    ∷ txt "unlock_timeout_seconds = "
    ∷ decimal config.unlock_timeout_seconds
    ∷ line_end
    ∷ [])

unfoldable pub get_config_value : Config → Bytes → Option Bytes
unfolding joined
get_config_value config key =
    if bytes_eq key scan_dirs_key
    then some (joined config.scan_dirs)
    else if bytes_eq key compact_trim_key
    then some (bool_text config.compact_trim)
    else if bytes_eq key compact_restart_key
    then some (bool_text config.compact_restart)
    else if bytes_eq key unlock_timeout_key
    then some (decimal config.unlock_timeout_seconds)
    else none

-- The loop over the parts of scan.dirs.
unfoldable pub dirs_in : List Bytes → List Bytes
unfolding trimmed
dirs_in [] = []
dirs_in (part ∷ parts) =
    let rest = dirs_in parts in if is_empty (trimmed part) then rest else trimmed part ∷ rest

unfoldable pub not_a_bool : Bytes → Bytes → Error
not_a_bool key value = record {
  code = usage;
  message = fmt (key ∷ txt " takes true or false, not `" ∷ value ∷ txt "`" ∷ []);
  remedy = txt "write `true` or `false`";
}

unfoldable pub not_seconds : Bytes → Bytes → Error
not_seconds key value = record {
  code = usage;
  message = fmt (
      key
      ∷ txt " takes a whole number of seconds up to "
      ∷ decimal max_unlock_timeout_seconds
      ∷ txt ", not `"
      ∷ value
      ∷ txt "`"
      ∷ []);
  remedy =
      txt
        "the utility VM releases the disk about a minute after the last distribution stops, and never while one is running; use a value under an hour";
}

unfoldable pub no_such_setting : Bytes → Error
no_such_setting key = record {
  code = usage;
  message = fmt (txt "there is no setting called `" ∷ key ∷ txt "`" ∷ []);
  remedy = fmt (txt "the settings are: " ∷ joined config_keys ∷ []);
}

unfoldable pub set_bool : Config → Bytes → Bytes → Result Config
unfolding not_a_bool
set_bool config key value = elim (parse_bool value) [
  | none ↦ err (not_a_bool key value)
  | some b ↦ ok (
      if bytes_eq key compact_trim_key
      then record config { compact_trim = b }
      else record config { compact_restart = b })
]

unfoldable pub set_timeout : Config → Bytes → Bytes → Result Config
unfolding not_seconds
set_timeout config key value = elim (parse_seconds value) [
  | none ↦ err (not_seconds key value)
  | some n ↦ ok (record config { unlock_timeout_seconds = n })
]

-- The configuration that it leaves, where it succeeds; a failure changes nothing.
unfoldable pub set_config_value : Config → Bytes → Bytes → Result Config
unfolding set_bool set_timeout dirs_in no_such_setting
set_config_value config key value =
    if bytes_eq key scan_dirs_key
    then ok (record config { scan_dirs = dirs_in (split value b';') })
    else if bytes_eq key compact_trim_key || bytes_eq key compact_restart_key
    then set_bool config key value
    else if bytes_eq key unlock_timeout_key
    then set_timeout config key value
    else err (no_such_setting key)
