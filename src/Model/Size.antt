-- ===== src/Model/Size.antt =====
-- src/lib/model/size.h and size.cpp: sizes in text. A std::uint64_t is a ℕ below 2 ^ 64.
use wsldisk.Base.{
  ℕ, zero, suc, ◌+◌, ◌-◌, ◌*◌, ◌/◌, ◌%◌, ◌^◌, Bytes, txt, fmt, is_empty, bytes_eq, decimal, Bool,
  true, false, not, ◌&&◌, ◌||◌, Option, none, some, List, [], ◌∷◌, ltb, leb, ◌==◌, if◌then◌else◌,
  map,
}
use wsldisk.Base.Int.{ℤ, pos, negsuc}
use wsldisk.Errors.{usage, Result, ok, fail}
use wsldisk.Model.Distro.{lower}

abbrev pub kib : ℕ
kib = 1024

abbrev pub mib : ℕ
mib = kib * 1024

abbrev pub gib : ℕ
gib = mib * 1024

abbrev pub tib : ℕ
tib = gib * 1024

abbrev pub pib : ℕ
pib = tib * 1024

abbrev pub u64_max : ℕ
u64_max = 2 ^ 64 - 1

-- The table of suffixes, in its order.
unfoldable pub suffixes : List (Bytes × ℕ)
suffixes =
    ([], 1)
    ∷ (txt "b", 1)
    ∷ (txt "k", kib)
    ∷ (txt "kb", kib)
    ∷ (txt "kib", kib)
    ∷ (txt "m", mib)
    ∷ (txt "mb", mib)
    ∷ (txt "mib", mib)
    ∷ (txt "g", gib)
    ∷ (txt "gb", gib)
    ∷ (txt "gib", gib)
    ∷ (txt "t", tib)
    ∷ (txt "tb", tib)
    ∷ (txt "tib", tib)
    ∷ (txt "p", pib)
    ∷ (txt "pib", pib)
    ∷ []

pub record Number : Type 0 where
  pub whole : ℕ
  pub frac_numerator : ℕ
  pub frac_denominator : ℕ

abbrev pub is_space : ℕ → Bool
is_space c = c == b' ' || c == 9 || c == 13 || c == 10

abbrev pub is_digit : ℕ → Bool
is_digit c = leb b'0' c && leb c b'9'

unfoldable pub trim_front : Bytes → Bytes
trim_front [] = []
trim_front (c ∷ s) = let rest = trim_front s in if is_space c then rest else c ∷ s

unfoldable pub trim_back : Bytes → Bytes
trim_back [] = []
trim_back (c ∷ s) = let rest = trim_back s in if is_empty rest && is_space c then [] else c ∷ rest

unfoldable pub trim : Bytes → Bytes
unfolding trim_front trim_back
trim text = trim_back (trim_front text)

unfoldable pub bad_size {ℓ} : {A : Type ℓ} → Bytes → Result A
unfolding fail
bad_size text =
    fail usage (fmt (txt "'" ∷ text ∷ txt "' is not a valid size" ∷ []))
      (txt "use a byte count or a binary suffix, for example 64G, 1.5TiB or 1048576")

unfoldable pub checked_mul : ℕ → ℕ → Option ℕ
checked_mul value factor =
    if ltb (u64_max / factor) value then none else some (value * factor % 2 ^ 64)

unfoldable pub checked_add : ℕ → ℕ → Option ℕ
checked_add a b = if ltb (u64_max - b) a then none else some ((a + b) % 2 ^ 64)

-- A loop over the input returns its result and the input that is left; `pos` is implicit in that.
unfoldable pub whole_loop : Bytes → ℕ → ℕ → Option (ℕ × ℕ × Bytes)
unfolding checked_mul checked_add
whole_loop [] whole digits = some (whole, digits, [])
whole_loop (c ∷ s) whole digits = elim (is_digit c) [
  | false ↦ some (whole, digits, c ∷ s)
  | true ↦ elim (checked_mul whole 10) [
    | none ↦ none
    | some scaled ↦ elim (checked_add scaled (c - b'0')) [
      | none ↦ none
      | some added ↦ whole_loop s added (digits + 1)
    ]
  ]
]

unfoldable pub parse_whole : Bytes → Option (ℕ × Bytes)
unfolding whole_loop
parse_whole input = elim (whole_loop input 0 0) [
  | none ↦ none
  | some (whole, digits, rest) ↦ if digits == 0 then none else some (whole, rest)
]

abbrev pub max_fraction_digits : ℕ
max_fraction_digits = 9

-- The numerator and the denominator take in nine digits at most, so neither wraps around.
unfoldable pub fraction_loop : Bytes → Number → ℕ → Number × ℕ × Bytes
fraction_loop [] n digits = (n, digits, [])
fraction_loop (c ∷ s) n digits =
    let counted =
      fraction_loop s
        (record n {
          frac_numerator = n.frac_numerator * 10 + (c - b'0');
          frac_denominator = n.frac_denominator * 10;
        })
        (digits + 1) in
    let passed = fraction_loop s n digits in
    if not (is_digit c)
    then (n, digits, c ∷ s)
    else if ltb digits max_fraction_digits
    then counted
    else passed

-- `none` stands for false.
unfoldable pub parse_fraction : Bytes → Number → Option (Number × Bytes)
unfolding fraction_loop
parse_fraction [] n = some (n, [])
parse_fraction (c ∷ s) n =
    let (read, digits, rest) = fraction_loop s n 0 in
    if not (c == b'.') then some (n, c ∷ s) else if digits == 0 then none else some (read, rest)

unfoldable pub find_suffix : Bytes → List (Bytes × ℕ) → Option ℕ
find_suffix unit [] = none
find_suffix unit ((name, multiplier) ∷ rest) =
    if bytes_eq name unit then some multiplier else find_suffix unit rest

unfoldable pub parse_multiplier : Bytes → Option ℕ
unfolding trim_front suffixes find_suffix
parse_multiplier input = find_suffix (map lower (trim_front input)) suffixes

unfoldable pub scale_fraction : Number → ℕ → ℕ
scale_fraction n multiplier =
    (n.frac_numerator * (multiplier / n.frac_denominator) % 2 ^ 64
      + n.frac_numerator * (multiplier % n.frac_denominator) % 2 ^ 64 / n.frac_denominator)
    % 2 ^ 64

-- The sum of the two parts, once the whole number and the fraction have been read.
unfoldable pub size_of : Number → ℕ → Option ℕ
unfolding checked_mul scale_fraction
size_of n multiplier = elim (checked_mul n.whole multiplier) [
  | none ↦ none
  | some whole_bytes ↦ some ((whole_bytes + scale_fraction n multiplier) % 2 ^ 64)
]

-- The chain of parse_size; `none` is every `bad_size`.
unfoldable pub parse_trimmed : Bytes → Option ℕ
unfolding parse_whole parse_fraction parse_multiplier size_of
parse_trimmed input = if is_empty input then none else elim (parse_whole input) [
  | none ↦ none
  | some (whole, rest) ↦
      elim (parse_fraction rest
        (record { whole = whole; frac_numerator = 0; frac_denominator = 1 })) [
          | none ↦ none
          | some (n, unit) ↦ elim (parse_multiplier unit) [ none ↦ none | some m ↦ size_of n m ]
        ]
]

unfoldable pub parse_size : Bytes → Result ℕ
unfolding trim parse_trimmed bad_size
parse_size text = elim (parse_trimmed (trim text)) [ none ↦ bad_size text | some n ↦ ok n ]

-- The unit that format_size chooses for a count of at least 1 KiB.
unfoldable pub unit_for : ℕ → ℕ × Bytes
unit_for bytes =
    if leb pib bytes
    then (pib, txt "PiB")
    else if leb tib bytes
    then (tib, txt "TiB")
    else if leb gib bytes
    then (gib, txt "GiB")
    else if leb mib bytes
    then (mib, txt "MiB")
    else (kib, txt "KiB")

unfoldable pub format_size : ℕ → Bytes
unfolding unit_for decimal
format_size bytes =
    let (divisor, name) = unit_for bytes in
    if ltb bytes kib
    then fmt (decimal bytes ∷ txt " B" ∷ [])
    else fmt (
        decimal (bytes / divisor)
        ∷ txt "."
        ∷ decimal (bytes % divisor * 10 % 2 ^ 64 / divisor)
        ∷ txt " "
        ∷ name
        ∷ [])

-- The magnitude is formed in std::uint64_t.
unfoldable pub format_size_delta : ℤ → Bytes
unfolding format_size
format_size_delta (pos zero) = txt "0 B"
format_size_delta (pos (suc n)) = fmt (txt "+" ∷ format_size (suc n) ∷ [])
format_size_delta (negsuc n) = fmt (txt "-" ∷ format_size (suc n) ∷ [])
