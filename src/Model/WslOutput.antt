-- ===== src/Model/WslOutput.antt =====
-- src/lib/model/wsl_output.h and wsl_output.cpp: what `wsl.exe --list` prints.
use wsldisk.Base.{
  ℕ, ◌+◌, ◌*◌, Bytes, Bool, ◌||◌, List, [], ◌∷◌, ◌==◌, if◌then◌else◌, is_empty, split, strip_front,
  strip_back,
}
use wsldisk.WinPath.{Wide}
use wsldisk.Model.Text.{to_utf8}

-- unit_at and the loop of decode_utf16le: a trailing odd byte is dropped.
unfoldable pub units_of : Bytes → Wide
units_of [] = []
units_of (low ∷ []) = []
units_of (low ∷ high ∷ s) = (low + high * 256) ∷ units_of s

-- A byte order mark is passed over.
unfoldable pub without_mark : Bytes → Bytes
without_mark [] = []
without_mark (a ∷ []) = a ∷ []
without_mark (a ∷ b ∷ s) = if a == 0xFF then if b == 0xFE then s else a ∷ b ∷ s else a ∷ b ∷ s

unfoldable pub decode_utf16le : Bytes → Bytes
unfolding units_of without_mark
decode_utf16le bytes = to_utf8 (units_of (without_mark bytes))

-- CR, LF, tab, NUL and the space.
abbrev pub trimmable : ℕ → Bool
trimmable c = c == 13 || c == 10 || c == 9 || c == 0 || c == b' '

unfoldable pub trim : Bytes → Bytes
trim line = strip_back trimmable (strip_front trimmable line)

-- The lines that are more than whitespace, trimmed.
unfoldable pub names_in : List Bytes → List Bytes
unfolding trim
names_in [] = []
names_in (line ∷ lines) =
    let rest = names_in lines in if is_empty (trim line) then rest else trim line ∷ rest

unfoldable pub parse_distribution_list : Bytes → List Bytes
unfolding decode_utf16le names_in
parse_distribution_list bytes = names_in (split (decode_utf16le bytes) 10)
