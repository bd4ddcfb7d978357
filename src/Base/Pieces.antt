-- ===== src/Base/Pieces.antt =====
-- The parts of <ranges>, <charconv> and std::string_view that cut a text up and read numbers in it.
use Prim.Native.Nat.{ℕ, zero, suc, ◌+◌, ◌-◌, ◌*◌, ◌/◌, ◌%◌, ◌^◌, ◌<◌}
use mathlib.Core.Path.{◌≡◌, refl}
use mathlib.Core.Bool.{Bool, false, ◌&&◌}
use mathlib.Core.Option.{Option, none, some}
use mathlib.Core.List.{List, [], ◌∷◌}
use native.Mathlib.Omega.{arith}
use wsldisk.Base.Tests.{ltb, leb, ◌==◌, if◌then◌else◌}
use wsldisk.Base.Strings.{Bytes, is_empty, decimal, decimal_onto}

-- One character more on the first piece.
abbrev onto_first : ℕ → List Bytes → List Bytes
onto_first c [] = (c ∷ []) ∷ []
onto_first c (piece ∷ pieces) = (c ∷ piece) ∷ pieces

-- The pieces of a text that is not over yet: there is one at least.
abbrev pub pieces_from : ℕ → Bytes → List Bytes
pieces_from delimiter [] = [] ∷ []
pieces_from delimiter (c ∷ s) =
    let rest = pieces_from delimiter s in if c == delimiter then [] ∷ rest else onto_first c rest

-- std::views::split by one character; the empty text has no piece.
unfoldable pub split : Bytes → ℕ → List Bytes
split [] delimiter = []
split (c ∷ s) delimiter = pieces_from delimiter (c ∷ s)

-- The last character and the text before it.
abbrev pub ends_with : Bytes → ℕ → Bool
ends_with [] c = false
ends_with (x ∷ []) c = x == c
ends_with (x ∷ y ∷ s) c = ends_with (y ∷ s) c

unfoldable pub remove_suffix : Bytes → Bytes
remove_suffix [] = []
remove_suffix (x ∷ []) = []
remove_suffix (x ∷ y ∷ s) = x ∷ remove_suffix (y ∷ s)

-- The text before the first occurrence of a character, and the one behind it.
unfoldable pub cut_at : ℕ → Bytes → Option (Bytes × Bytes)
cut_at delimiter [] = none
cut_at delimiter (c ∷ s) =
    if c == delimiter
    then some ([], s)
    else elim (cut_at delimiter s) [ none ↦ none | some (front, back) ↦ some (c ∷ front, back) ]

-- The text without the characters at either end that are to go.
unfoldable pub strip_front : (ℕ → Bool) → Bytes → Bytes
strip_front p [] = []
strip_front p (c ∷ s) = let rest = strip_front p s in if p c then rest else c ∷ s

unfoldable pub strip_back : (ℕ → Bool) → Bytes → Bytes
strip_back p [] = []
strip_back p (c ∷ s) = let rest = strip_back p s in if is_empty rest && p c then [] else c ∷ rest

abbrev pub isdigit : ℕ → Bool
isdigit c = leb b'0' c && leb c b'9'

-- The number that digits spell behind the value so far, if they are all digits.
unfoldable pub digits_value : Bytes → ℕ → Option ℕ
digits_value [] value = some value
digits_value (c ∷ s) value =
    let more = digits_value s (value * 10 + (c - b'0')) in if isdigit c then more else none

-- std::from_chars into a std::uint64_t that must read the whole text.
unfoldable pub from_chars : Bytes → Option ℕ
unfolding digits_value
from_chars text = if is_empty text then none else elim (digits_value text 0) [
  | none ↦ none
  | some n ↦ if ltb n (2 ^ 64) then some n else none
]

digits_value-decimal_onto :
    (f n : ℕ) (out : Bytes) → n < f → digits_value (decimal_onto f n out) 0 ≡ digits_value out n
unfolding digits_value decimal_onto
digits_value-decimal_onto zero n out h = absurd (omega arith)
digits_value-decimal_onto (suc f) n out h =
    ground (arith, digits_value-decimal_onto f (n / 10) ((b'0' + n % 10) ∷ out))

decimal_onto-ne-nil : (f n c : ℕ) (out : Bytes) → is_empty (decimal_onto f n (c ∷ out)) ≡ false
unfolding decimal_onto
decimal_onto-ne-nil zero n c out = refl
decimal_onto-ne-nil (suc f) n c out =
    ground (arith, decimal_onto-ne-nil f (n / 10) (b'0' + n % 10) (c ∷ out))

decimal-ne-nil : (n : ℕ) → is_empty (decimal n) ≡ false
unfolding decimal decimal_onto
decimal-ne-nil n = ground (arith, decimal_onto-ne-nil n (n / 10) (b'0' + n % 10) [])

digits_value-decimal : (n : ℕ) → digits_value (decimal n) 0 ≡ some n
unfolding decimal digits_value
digits_value-decimal n = digits_value-decimal_onto (suc n) n [] (omega arith)

-- Reading back what was printed.
pub from_chars-decimal : (n : ℕ) → n < 2 ^ 64 → from_chars (decimal n) ≡ some n
unfolding from_chars
from_chars-decimal n h = ground (arith, decimal-ne-nil n, digits_value-decimal n)
