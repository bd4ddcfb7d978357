-- ===== src/Platform/CommandLine.antt =====
-- build_command_line of src/lib/platform/wsl_host.cpp.
pub mod Parsing
use wsldisk.Base.{
  ℕ, zero, suc, ◌+◌, ◌*◌, Bool, true, false, ◌||◌, List, [], ◌∷◌, ◌++◌, ◌==◌, if◌then◌else◌,
  is_empty, any,
}
use wsldisk.WinPath.{Wide}

-- std::wstring::append of `count` backslashes.
unfoldable pub backslashes : ℕ → Wide
backslashes zero = []
backslashes (suc n) = b'\\' ∷ backslashes n

-- Space, tab, newline, vertical tab and the quote.
abbrev pub is_special : ℕ → Bool
is_special c = c == b' ' || c == 9 || c == 10 || c == 11 || c == b'"'

abbrev pub needs_quotes : Wide → Bool
needs_quotes argument = is_empty argument || any is_special argument

-- The loop over an argument's characters, up to the closing quote. `count` backslashes have been read
-- since the last other character.
unfoldable pub quoted_loop : Wide → ℕ → Wide
unfolding backslashes
quoted_loop [] count = backslashes (count * 2)
quoted_loop (c ∷ rest) count =
    let more = quoted_loop rest 0 in
    let counting = quoted_loop rest (suc count) in
    if c == b'\\'
    then counting
    else if c == b'"'
    then backslashes (count * 2 + 1) ++ c ∷ more
    else backslashes count ++ c ∷ more

-- One argument as the line holds it.
unfoldable pub written : Wide → Wide
unfolding quoted_loop
written argument =
    if needs_quotes argument then b'"' ∷ (quoted_loop argument 0 ++ b'"' ∷ []) else argument

-- The loop over the arguments, behind the line so far.
unfoldable pub command_line_loop : List Wide → Wide → Wide
unfolding written
command_line_loop [] line = line
command_line_loop (argument ∷ arguments) line =
    command_line_loop arguments
      (if is_empty line then written argument else line ++ b' ' ∷ written argument)

unfoldable pub build_command_line : List Wide → Wide
unfolding command_line_loop
build_command_line arguments = command_line_loop arguments []
