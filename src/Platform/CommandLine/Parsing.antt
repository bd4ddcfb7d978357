-- ===== src/Platform/CommandLine/Parsing.antt =====
-- src/lib/platform/wsl_host.cpp: the command line that it builds, read again by the rules that the
-- documentation of CommandLineToArgvW gives.
use wsldisk.Base.{
  ℕ, zero, suc, ◌+◌, ◌*◌, ◌/◌, ◌%◌, Bool, true, false, not, ◌&&◌, ◌||◌, List, [], ◌∷◌, ◌++◌, ◌==◌,
  if◌then◌else◌, is_empty, any, Option, none, some, ◌≡◌, ◌∙◌, ap, refl, sym, arith, inl, inr,
  Bool-cases, append_assoc, append-nil,
}
use wsldisk.WinPath.{Wide}
use wsldisk.Platform.CommandLine.{
  backslashes, is_special, quoted_loop, written, command_line_loop, build_command_line,
}

-- The argument that is being read, if one has begun.
abbrev begun : Option Wide → Wide
begun none = []
begun (some a) = a

-- Twice n backslashes and a quote are n backslashes and a quote that opens or closes; one more are n
-- backslashes and the quote itself; all others stand for themselves. Outside quotes a space or a tab
-- ends an argument. `count` backslashes have been read since the last other character.
unfoldable pub arguments_from : Wide → ℕ → Bool → Option Wide → List Wide
arguments_from [] count quoted none = []
arguments_from [] count quoted (some a) = (a ++ backslashes count) ∷ []
arguments_from (c ∷ line) count quoted pending =
    let counting = arguments_from line (suc count) quoted (some (begun pending)) in
    let switched =
      arguments_from line 0 (not quoted) (some (begun pending ++ backslashes (count / 2))) in
    let literal =
      arguments_from line 0 quoted (some (begun pending ++ (backslashes (count / 2) ++ c ∷ []))) in
    let plain =
      arguments_from line 0 quoted (some (begun pending ++ (backslashes count ++ c ∷ []))) in
    let next = arguments_from line 0 false none in
    if c == b'\\'
    then counting
    else if c == b'"'
    then if count % 2 == 0 then switched else literal
    else if not quoted && (c == b' ' || c == 9)
    then elim pending [ none ↦ next | some a ↦ (a ++ backslashes count) ∷ next ]
    else plain

unfoldable pub arguments_of : Wide → List Wide
unfolding arguments_from
arguments_of line = arguments_from line 0 false none

arguments_from-backslashes :
    (n : ℕ) (line : Wide) (m : ℕ) (q : Bool) (a : Wide)
    → arguments_from (backslashes n ++ line) m q (some a) ≡ arguments_from line (m + n) q (some a)
unfolding arguments_from backslashes
arguments_from-backslashes zero line m q a = ground arith
arguments_from-backslashes (suc n) line m q a =
    ground (arith, arguments_from-backslashes n line (suc m) q a)

from-backslashes :
    (n : ℕ) (line : Wide) (q : Bool) (a : Wide)
    → arguments_from (backslashes n ++ line) 0 q (some a) ≡ arguments_from line n q (some a)
from-backslashes n line q a =
    arguments_from-backslashes n line 0 q a
    ∙ ap (λ m. arguments_from line m q (some a)) (omega arith)

backslashes_snoc : (n : ℕ) (s : Wide) → backslashes n ++ b'\\' ∷ s ≡ backslashes (suc n) ++ s
unfolding backslashes
backslashes_snoc zero s = refl
backslashes_snoc (suc n) s = cc (backslashes_snoc n s)

append-snoc : (a b : Wide) (c : ℕ) (s : Wide) → (a ++ (b ++ c ∷ [])) ++ s ≡ a ++ (b ++ c ∷ s)
append-snoc a b c s = rw (append_assoc a (b ++ c ∷ []) s, append_assoc b (c ∷ []) s) refl

-- One step of the reader.
at_close :
    (line : Wide) (n : ℕ) (q : Bool) (a : Wide)
    → arguments_from (b'"' ∷ line) (n * 2) q (some a)
      ≡ arguments_from line 0 (not q) (some (a ++ backslashes n))
unfolding arguments_from
at_close line n q a =
    let even : n * 2 % 2 ≡ 0 = omega arith in
    let half : n * 2 / 2 ≡ n = omega arith in rw (even, half) refl

at_quote :
    (line : Wide) (n c : ℕ) (q : Bool) (a : Wide)
    → (c == b'"') ≡ true
    → arguments_from (c ∷ line) (n * 2 + 1) q (some a)
      ≡ arguments_from line 0 q (some (a ++ (backslashes n ++ c ∷ [])))
unfolding arguments_from
at_quote line n c q a h =
    let odd : (n * 2 + 1) % 2 ≡ 1 = omega arith in
    let half : (n * 2 + 1) / 2 ≡ n = omega arith in rw (odd, half) ground arith

at_plain :
    (line : Wide) (n c : ℕ) (q : Bool) (a : Wide)
    → (c == b'\\') ≡ false
    → (c == b'"') ≡ false
    → (not q && (c == b' ' || c == 9)) ≡ false
    → arguments_from (c ∷ line) n q (some a)
      ≡ arguments_from line 0 q (some (a ++ (backslashes n ++ c ∷ [])))
unfolding arguments_from
at_plain line n c q a hb hq hs = ground arith

-- What the builder writes between quotes is read as the text itself.
arguments_from-quoted_loop :
    (s : Wide) (n : ℕ) (rest : Wide) (a : Wide)
    → arguments_from (quoted_loop s n ++ b'"' ∷ rest) 0 true (some a)
      ≡ arguments_from rest 0 false (some (a ++ (backslashes n ++ s)))
unfolding quoted_loop
arguments_from-quoted_loop [] n rest a =
    rw
      (
        from-backslashes (n * 2) (b'"' ∷ rest) true a,
        at_close rest n true a,
        append-nil (backslashes n),
      )
      refl
arguments_from-quoted_loop (c ∷ s) n rest a = elim (Bool-cases (c == b'\\')) [
  | inl h ↦ rw h (
      arguments_from-quoted_loop s (suc n) rest a
      ∙ (let e : c ≡ b'\\' = ground arith in
          ap (λ t. arguments_from rest 0 false (some (a ++ t)))
            (rw e (sym (backslashes_snoc n s)))))
  | inr h ↦ elim (Bool-cases (c == b'"')) [
    | inl hq ↦
        rw
          (
            h,
            hq,
            append_assoc (backslashes (n * 2 + 1)) (c ∷ quoted_loop s 0) (b'"' ∷ rest),
            from-backslashes (n * 2 + 1) (c ∷ (quoted_loop s 0 ++ b'"' ∷ rest)) true a,
            at_quote (quoted_loop s 0 ++ b'"' ∷ rest) n c true a hq,
            arguments_from-quoted_loop s 0 rest (a ++ (backslashes n ++ c ∷ [])),
          )
          (ap (λ t. arguments_from rest 0 false (some t)) (append-snoc a (backslashes n) c s))
    | inr hq ↦
        rw
          (
            h,
            hq,
            append_assoc (backslashes n) (c ∷ quoted_loop s 0) (b'"' ∷ rest),
            from-backslashes n (c ∷ (quoted_loop s 0 ++ b'"' ∷ rest)) true a,
            at_plain (quoted_loop s 0 ++ b'"' ∷ rest) n c true a h hq refl,
            arguments_from-quoted_loop s 0 rest (a ++ (backslashes n ++ c ∷ [])),
          )
          (ap (λ t. arguments_from rest 0 false (some t)) (append-snoc a (backslashes n) c s))
  ]
]

-- Of what follows an argument the reader must make `tail`.
abbrev Closes : Wide → List Wide → Type 0
Closes rest tail =
    (n : ℕ) (a : Wide) → arguments_from rest n false (some a) ≡ (a ++ backslashes n) ∷ tail

arguments_from-unquoted :
    (s : Wide) (n : ℕ) (rest : Wide) (tail : List Wide) (a : Wide)
    → Closes rest tail
    → any is_special s ≡ false
    → arguments_from (s ++ rest) n false (some a) ≡ (a ++ (backslashes n ++ s)) ∷ tail
unfolding arguments_from backslashes
arguments_from-unquoted [] n rest tail a h hs = rw (append-nil (backslashes n)) (h n a)
arguments_from-unquoted (c ∷ s) n rest tail a h hs = elim (Bool-cases (c == b'\\')) [
  | inl hb ↦
      let e : c ≡ b'\\' = ground arith in
      rw e (
        arguments_from-unquoted s (suc n) rest tail a h (ground arith)
        ∙ ap (λ t. (a ++ t) ∷ tail) (sym (backslashes_snoc n s)))
  | inr hb ↦
      at_plain (s ++ rest) n c false a hb (ground arith) (ground arith)
      ∙ arguments_from-unquoted s 0 rest tail (a ++ (backslashes n ++ c ∷ [])) h (ground arith)
      ∙ ap (λ t. t ∷ tail) (append-snoc a (backslashes n) c s)
]

from_none :
    (c : ℕ) (line : Wide)
    → (c == b' ' || c == 9) ≡ false
    → arguments_from (c ∷ line) 0 false none ≡ arguments_from (c ∷ line) 0 false (some [])
unfolding arguments_from
from_none c line h = ground arith

from_quoted :
    (argument rest : Wide) (tail : List Wide)
    → Closes rest tail
    → arguments_from ((b'"' ∷ (quoted_loop argument 0 ++ b'"' ∷ [])) ++ rest) 0 false none
      ≡ argument ∷ tail
unfolding arguments_from quoted_loop
from_quoted argument rest tail h = rw (append_assoc (quoted_loop argument 0) (b'"' ∷ []) rest) (
    arguments_from-quoted_loop argument 0 rest []
    ∙ h 0 argument
    ∙ ap (λ t. t ∷ tail) (append-nil argument))

-- An argument as it is written is read as itself.
arguments_from-written :
    (argument rest : Wide) (tail : List Wide)
    → Closes rest tail
    → arguments_from (written argument ++ rest) 0 false none ≡ argument ∷ tail
unfolding written
arguments_from-written [] rest tail h = from_quoted [] rest tail h
arguments_from-written (c ∷ s) rest tail h = elim (Bool-cases (any is_special (c ∷ s))) [
  | inl hs ↦ rw hs (from_quoted (c ∷ s) rest tail h)
  | inr hs ↦
      rw hs (
        from_none c (s ++ rest) (ground arith)
        ∙ arguments_from-unquoted (c ∷ s) 0 rest tail [] h hs)
]

-- The arguments behind the first, each with the space before it.
spaced : List Wide → Wide
spaced [] = []
spaced (argument ∷ arguments) = b' ' ∷ (written argument ++ spaced arguments)

spaced-Closes : (arguments : List Wide) → Closes (spaced arguments) arguments
unfolding spaced arguments_from
spaced-Closes [] n a = refl
spaced-Closes (argument ∷ arguments) n a =
    ap (λ t. (a ++ backslashes n) ∷ t)
      (arguments_from-written argument (spaced arguments) arguments (spaced-Closes arguments))

written-ne-nil : (argument : Wide) → is_empty (written argument) ≡ false
unfolding written
written-ne-nil [] = refl
written-ne-nil (c ∷ s) = elim (Bool-cases (any is_special (c ∷ s))) [
  | inl hs ↦ rw hs refl
  | inr hs ↦ rw hs refl
]

command_line_loop-append :
    (arguments : List Wide) (line : Wide)
    → is_empty line ≡ false
    → command_line_loop arguments line ≡ line ++ spaced arguments
unfolding command_line_loop spaced
command_line_loop-append [] line h = sym (append-nil line)
command_line_loop-append (argument ∷ arguments) (x ∷ line) h =
    command_line_loop-append arguments (x ∷ (line ++ b' ' ∷ written argument)) refl
    ∙ append_assoc (x ∷ line) (b' ' ∷ written argument) (spaced arguments)
command_line_loop-append (argument ∷ arguments) [] h = cc

-- Reading the command line that was built gives back the arguments, whatever spaces, quotes and
-- backslashes they hold, in number and in order.
pub arguments_of-build_command_line :
    (arguments : List Wide) → arguments_of (build_command_line arguments) ≡ arguments
unfolding arguments_of build_command_line command_line_loop
arguments_of-build_command_line [] = refl
arguments_of-build_command_line (argument ∷ arguments) =
    rw (command_line_loop-append arguments (written argument) (written-ne-nil argument))
      (arguments_from-written argument (spaced arguments) arguments (spaced-Closes arguments))
