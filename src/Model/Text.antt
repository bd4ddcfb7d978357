-- ===== src/Model/Text.antt =====
-- src/lib/model/text.h and text.cpp: UTF-16 to UTF-8 and back. A shift by k is `/ 2 ^ k` or
-- `* 2 ^ k`, a mask of the low k bits is `% 2 ^ k`, a test of high bits is a division, and `|` of
-- operands without a common bit is `+`.
use wsldisk.Base.{
  ℕ, zero, suc, ◌+◌, ◌-◌, ◌*◌, ◌/◌, ◌%◌, Bytes, Bool, ◌&&◌, ◌||◌, not, [], ◌∷◌, ◌++◌, ltb, leb,
  ◌==◌, if◌then◌else◌, length,
}
use wsldisk.WinPath.{Wide, FilePath}

abbrev pub replacement_character : ℕ
replacement_character = 0xFFFD

unfoldable pub append_utf8 : ℕ → Bytes
append_utf8 code_point =
    if ltb code_point 0x80
    then code_point ∷ []
    else if ltb code_point 0x800
    then (0xC0 + code_point / 64) ∷ (0x80 + code_point % 64) ∷ []
    else if ltb code_point 0x10000
    then (0xE0 + code_point / 4096) ∷ (0x80 + code_point / 64 % 64) ∷ (0x80 + code_point % 64) ∷ []
    else (0xF0 + code_point / 262144)
      ∷ (0x80 + code_point / 4096 % 64)
      ∷ (0x80 + code_point / 64 % 64)
      ∷ (0x80 + code_point % 64)
      ∷ []

unfoldable pub append_utf16 : ℕ → Wide
append_utf16 code_point =
    if ltb code_point 0x10000
    then code_point ∷ []
    else (0xD800 + (code_point - 0x10000) / 1024) ∷ (0xDC00 + (code_point - 0x10000) % 1024) ∷ []

abbrev pub is_high : ℕ → Bool
is_high u = leb 0xD800 u && leb u 0xDBFF

abbrev pub is_low : ℕ → Bool
is_low u = leb 0xDC00 u && leb u 0xDFFF

-- The length that a lead byte claims, or 0 if the byte is none.
unfoldable pub sequence_length : ℕ → ℕ
sequence_length lead =
    if ltb lead 0x80
    then 1
    else if lead / 32 == 6
    then 2
    else if lead / 16 == 14
    then 3
    else if lead / 8 == 30
    then 4
    else 0

pub record Decoded : Type 0 where
  pub code_point : ℕ
  pub consumed : ℕ

abbrev pub is_continuation : ℕ → Bool
is_continuation c = c / 64 == 2

-- The bytes behind the lead that continue it, and the lead.
continuation_run : Bytes → ℕ → ℕ
continuation_run [] consumed = consumed
continuation_run (c ∷ s) consumed =
    let more = continuation_run s (consumed + 1) in if is_continuation c then more else consumed

-- The loop over the `left` continuation bytes of a sequence.
continue_sequence : ℕ → Bytes → ℕ → ℕ → Decoded
continue_sequence zero s cp consumed = record { code_point = cp; consumed = consumed }
continue_sequence (suc left) [] cp consumed = record { code_point = cp; consumed = consumed }
continue_sequence (suc left) (c ∷ s) cp consumed =
    let more = continue_sequence left s (cp * 64 + c % 64) (consumed + 1) in
    if is_continuation c then more else record { code_point = cp; consumed = consumed }

abbrev lead_bits : ℕ → ℕ → ℕ
lead_bits len lead = if len == 2 then lead % 32 else if len == 3 then lead % 16 else lead % 8

abbrev malformed : ℕ → Decoded
malformed consumed = record { code_point = replacement_character; consumed = consumed }

-- The checks on a sequence that is complete.
check_decoded : ℕ → Decoded → Decoded
check_decoded len d =
    let cp = d.code_point in
    let overlong =
      (len == 2 && ltb cp 0x80) || (len == 3 && ltb cp 0x800) || (len == 4 && ltb cp 0x10000) in
    let surrogate = leb 0xD800 cp && leb cp 0xDFFF in
    if not (d.consumed == len)
    then malformed d.consumed
    else if overlong || surrogate || ltb 0x10FFFF cp
    then malformed len
    else record { code_point = cp; consumed = len }

-- decode_one at the byte `lead`, which `rest` follows.
unfoldable pub decode_one : ℕ → Bytes → Decoded
unfolding sequence_length continuation_run continue_sequence check_decoded
decode_one lead rest =
    let len = sequence_length lead in
    if len == 0
    then malformed 1
    else if ltb (suc (length rest)) len
    then malformed (continuation_run rest 1)
    else if len == 1
    then record { code_point = lead; consumed = 1 }
    else check_decoded len (continue_sequence (len - 1) rest (lead_bits len lead) 1)

-- The code point of a surrogate pair.
abbrev pub from_pair : ℕ → ℕ → ℕ
from_pair unit low = 0x10000 + (unit - 0xD800) * 1024 + (low - 0xDC00)

unfoldable pub to_utf8 : Wide → Bytes
unfolding append_utf8
to_utf8 [] = []
to_utf8 (unit ∷ []) =
    if is_high unit || is_low unit then append_utf8 replacement_character else append_utf8 unit
to_utf8 (unit ∷ low ∷ s) =
    let next = to_utf8 (low ∷ s) in
    let after_pair = to_utf8 s in
    if is_high unit
    then if is_low low
      then append_utf8 (from_pair unit low) ++ after_pair
      else append_utf8 replacement_character ++ next
    else if is_low unit
    then append_utf8 replacement_character ++ next
    else append_utf8 unit ++ next

-- The loop of to_wide: `skip` bytes of the sequence decoded last are still to be passed over.
unfoldable pub wide_loop : Bytes → ℕ → Wide
unfolding append_utf16 decode_one
wide_loop [] skip = []
wide_loop (c ∷ s) (suc skip) = wide_loop s skip
wide_loop (c ∷ s) zero =
    let d = decode_one c s in append_utf16 d.code_point ++ wide_loop s (d.consumed - 1)

unfoldable pub to_wide : Bytes → Wide
unfolding wide_loop
to_wide text = wide_loop text 0

unfoldable pub path_to_utf8 : FilePath → Bytes
unfolding to_utf8
path_to_utf8 path = to_utf8 path
