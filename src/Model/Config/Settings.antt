-- ===== src/Model/Config/Settings.antt =====
-- src/lib/model/config.cpp: what the settings promise.
use wsldisk.Base.{
  ℕ, ◌+◌, ◌*◌, ◌-◌, ◌≤◌, ◌<◌, Bytes, txt, bytes_eq, decimal, Bool, true, false, Option, none, some,
  [], ◌∷◌, ltb, if◌then◌else◌, digits_value, from_chars, from_chars-decimal, ◌≡◌, ◌∙◌, inl, inr,
  refl, sym, arith, Bool-cases, Option-cases,
}
use wsldisk.Errors.{ok}
use wsldisk.Toml.{Toml}
use wsldisk.Model.Config.{
  Config, max_unlock_timeout_seconds, scan_dirs_key, compact_trim_key, compact_restart_key,
  unlock_timeout_key, parse_bool, bool_text, seconds_loop, parse_seconds, set_bool, set_timeout,
  set_config_value, get_config_value,
}
use wsldisk.Model.Config.File.{checked, read_table, parse_config}

-- What every configuration that the program accepts keeps.
abbrev pub IsValid : Config → Type 0
IsValid config = config.unlock_timeout_seconds ≤ max_unlock_timeout_seconds

-- The digits read so far only grow.
digits_value-le : (s : Bytes) (value : ℕ) {n : ℕ} → digits_value s value ≡ some n → value ≤ n
unfolding digits_value
digits_value-le [] value h = ground arith
digits_value-le (c ∷ s) value {n} h =
    let rest : digits_value s (value * 10 + (c - b'0')) ≡ some n = ground arith in
    ground (arith, digits_value-le s (value * 10 + (c - b'0')) rest)

-- A number that is small enough.
abbrev pub within : ℕ → Option ℕ → Option ℕ
within limit none = none
within limit (some n) = if ltb limit n then none else some n

refused_alike :
    (s : Bytes) (value : ℕ)
    → max_unlock_timeout_seconds < value
    → within max_unlock_timeout_seconds (digits_value s value) ≡ none
refused_alike s value h = elim (Option-cases (digits_value s value)) [
  | inl e ↦ rw e refl
  | inr (n, e) ↦ rw e (ground (arith, digits_value-le s value e))
]

seconds_loop-within :
    (s : Bytes) (value : ℕ)
    → value ≤ max_unlock_timeout_seconds
    → seconds_loop s value ≡ within max_unlock_timeout_seconds (digits_value s value)
unfolding seconds_loop digits_value
seconds_loop-within [] value h = ground arith
seconds_loop-within (c ∷ s) value h =
    let next : ℕ = value * 10 + (c - b'0') in
    elim (Bool-cases (ltb max_unlock_timeout_seconds next)) [
      | inl e ↦ ground (arith, refused_alike s next (ground arith))
      | inr e ↦ ground (arith, seconds_loop-within s next (ground arith))
    ]

-- A number of seconds is what std::from_chars reads, up to the maximum: stopping early refuses the
-- same texts.
pub parse_seconds-within :
    (text : Bytes) → parse_seconds text ≡ within max_unlock_timeout_seconds (from_chars text)
unfolding parse_seconds from_chars
parse_seconds-within text = elim (Option-cases (digits_value text 0)) [
  | inl e ↦ ground (arith, seconds_loop-within text 0 (omega arith))
  | inr (n, e) ↦ ground (arith, seconds_loop-within text 0 (omega arith))
]

parse_seconds-decimal :
    (n : ℕ) → n ≤ max_unlock_timeout_seconds → parse_seconds (decimal n) ≡ some n
parse_seconds-decimal n h =
    parse_seconds-within (decimal n) ∙ rw (from_chars-decimal n (omega arith)) (ground arith)

parse_seconds-IsValid :
    (text : Bytes) {n : ℕ} → parse_seconds text ≡ some n → n ≤ max_unlock_timeout_seconds
parse_seconds-IsValid text h = elim (Option-cases (from_chars text)) [
  | inl e ↦ ground (arith, parse_seconds-within text)
  | inr (m, e) ↦ ground (arith, parse_seconds-within text)
]

-- Setting any key to any text, where it succeeds, keeps a configuration valid.
pub set_config_value-IsValid :
    (config : Config) (key value : Bytes) {changed : Config}
    → IsValid config
    → set_config_value config key value ≡ ok changed
    → IsValid changed
unfolding set_config_value set_bool set_timeout
set_config_value-IsValid config key value v h = elim (Option-cases (parse_seconds value)) [
  | inl e ↦ ground arith
  | inr (n, e) ↦ ground (arith, parse_seconds-IsValid value e)
]

-- Every configuration that is read from a file is valid.
pub parse_config-IsValid :
    (T : Toml) (text : Bytes) {config : Config} → parse_config T text ≡ ok config → IsValid config
unfolding parse_config read_table checked
parse_config-IsValid T text h = ground arith

parse_bool-bool_text : (b : Bool) → parse_bool (bool_text b) ≡ some b
unfolding parse_bool bytes_eq txt
parse_bool-bool_text true = refl
parse_bool-bool_text false = refl

set_bool-bool_text :
    (config : Config) (key : Bytes) (b : Bool)
    → set_bool config key (bool_text b)
      ≡ ok (
          if bytes_eq key compact_trim_key
          then record config { compact_trim = b }
          else record config { compact_restart = b })
unfolding set_bool
set_bool-bool_text config key b = rw (set_bool, parse_bool-bool_text b) refl

set_timeout-decimal :
    (config : Config) (key : Bytes) (n : ℕ)
    → n ≤ max_unlock_timeout_seconds
    → set_timeout config key (decimal n) ≡ ok (record config { unlock_timeout_seconds = n })
unfolding set_timeout
set_timeout-decimal config key n h = rw (set_timeout, parse_seconds-decimal n h) refl

-- What `get` prints of a valid configuration, for any setting but scan.dirs, `set` takes back, and
-- leaves the configuration as it was.
pub set_config_value-get_config_value :
    (config : Config) (key : Bytes) {value : Bytes}
    → IsValid config
    → bytes_eq key scan_dirs_key ≡ false
    → get_config_value config key ≡ some value
    → set_config_value config key value ≡ ok config
unfolding set_config_value get_config_value
set_config_value-get_config_value config key {value} v hk h =
    elim (Bool-cases (bytes_eq key compact_trim_key)) [
      | inl e ↦
          let printed : bool_text config.compact_trim ≡ value = ground arith in
          rw (hk, e, sym printed) (set_bool-bool_text config key config.compact_trim ∙ rw e refl)
      | inr e ↦ elim (Bool-cases (bytes_eq key compact_restart_key)) [
        | inl e' ↦
            let printed : bool_text config.compact_restart ≡ value = ground arith in
            rw (hk, e, e', sym printed)
              (set_bool-bool_text config key config.compact_restart ∙ rw e refl)
        | inr e' ↦ elim (Bool-cases (bytes_eq key unlock_timeout_key)) [
          | inl e2 ↦
              let printed : decimal config.unlock_timeout_seconds ≡ value = ground arith in
              rw (hk, e, e', e2, sym printed)
                (set_timeout-decimal config key config.unlock_timeout_seconds v)
          | inr e2 ↦ ground arith
        ]
      ]
    ]
