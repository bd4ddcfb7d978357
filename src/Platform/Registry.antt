-- ===== src/Platform/Registry.antt =====
-- src/lib/platform/registry.cpp: the registry below one root key.
pub mod Stored
use wsldisk.Base.{
  ℕ, zero, suc, ◌/◌, Bytes, txt, fmt, decimal, Bool, true, false, ◌||◌, Option, none, some, List,
  [], ◌∷◌, ◌++◌, ltb, ◌==◌, if◌then◌else◌, map, strip_back, length, ◌+◌, ◌*◌, ◌%◌, ◌^◌,
}
use wsldisk.Errors.{Error, generic, Result, ok, err}
use wsldisk.Effects.{M}
use wsldisk.WinPath.{Wide}
use wsldisk.Platform.Win32Error.{
  error_success, error_file_not_found, error_no_more_items, error_from_win32,
}
use wsldisk.Platform.Win32.{Win32, Coded, code, given, Rounds, coded}
use wsldisk.Platform.FileSystem.{resized_text}

unfoldable pub describe : Wide → Bytes
describe text = map (λ c. if ltb c 0x80 then c else b'?') text

unfoldable pub trim_trailing_nuls : Wide → Wide
trim_trailing_nuls text = strip_back (λ c. c == 0) text

-- REG_SZ and REG_EXPAND_SZ, and REG_DWORD.
abbrev pub is_text : ℕ → Bool
is_text type_of = type_of == 1 || type_of == 2

abbrev is_number : ℕ → Bool
is_number type_of = type_of == 4

unfoldable pub reading : Wide → Wide → Bytes
unfolding describe
reading value key = fmt (txt "read " ∷ describe value ∷ txt " from " ∷ describe key ∷ [])

-- A value of another type than the one that is expected.
unfoldable pub wrong_type : Bytes → Wide → Wide → ℕ → Error
unfolding describe
wrong_type expected value key type_of = record {
  code = generic;
  message = fmt (
      describe value
      ∷ txt " in "
      ∷ describe key
      ∷ txt " is not "
      ∷ expected
      ∷ txt " (registry type "
      ∷ decimal type_of
      ∷ txt ")"
      ∷ []);
  remedy = txt "the WSL registry layout has changed; please report this with `wsl --version`";
}

module _ (W : Win32) (root : W.Handle) where
  -- The block that a ScopedKey lives in, if the key can be opened.
  abbrev pub with_key : {A : Type 0} → Wide → (W.Handle → M W.World A) → M W.World A
  with_key key body w =
      let r =
        coded W (W.reg_open_key_ex root key false)
          (fmt (txt "open the registry key " ∷ describe key ∷ [])) w in
      elim r.0 [
        | err e ↦ (err e, r.1)
        | ok handle ↦ let done = body handle r.1 in (done.0, W.reg_close_key handle done.1)
      ]

  -- The loop of subkeys.
  unfoldable pub subkeys_loop : ℕ → W.Handle → Wide → ℕ → List Wide → Rounds W.World (List Wide)
  subkeys_loop zero handle key index names w = none
  subkeys_loop (suc rounds) handle key index names w =
      let r = W.reg_enum_key_ex handle index w in
      elim r.0 [
        | given name ↦
            subkeys_loop rounds handle key ((index + 1) % 2 ^ 32) (names ++ name ∷ []) r.1
        | code status ↦ some (
          if status == error_no_more_items
              then ok names
              else err (
                  error_from_win32 status
                    (fmt (txt "enumerate the subkeys of " ∷ describe key ∷ []))),
          r.1,
        )
      ]

  unfoldable pub subkeys : ℕ → Wide → Rounds W.World (List Wide)
  unfolding subkeys_loop
  subkeys rounds key w =
      let r =
        coded W (W.reg_open_key_ex root key false)
          (fmt (txt "open the registry key " ∷ describe key ∷ [])) w in
      elim r.0 [
        | err e ↦ some (err e, r.1)
        | ok handle ↦ elim (subkeys_loop rounds handle key 0 [] r.1) [
          | none ↦ none
          | some names ↦ some (names.0, W.reg_close_key handle names.1)
        ]
      ]

  -- A value that is there, of so many bytes.
  unfoldable pub read_text : W.Handle → Wide → Wide → ℕ → ℕ → M W.World (Option Wide)
  unfolding trim_trailing_nuls resized_text reading wrong_type
  read_text handle key value type_of bytes w =
      let r = coded W (W.reg_query_text handle value bytes) (reading value key) w in
      if is_text type_of
      then (
        elim r.0 [
          | err e ↦ err e
          | ok text ↦ ok (some (trim_trailing_nuls (resized_text (bytes / 2) text)))
        ],
        r.1,
      )
      else (err (wrong_type (txt "a string") value key type_of), w)

  -- A value that is not there is no error.
  unfoldable pub missing_or : {A : Type 0} → ℕ → Wide → Wide → Result (Option A)
  unfolding reading
  missing_or status value key =
      if status == error_file_not_found
      then ok none
      else err (error_from_win32 status (reading value key))

  unfoldable pub read_string : Wide → Wide → M W.World (Option Wide)
  unfolding read_text missing_or
  read_string key value = with_key key (λ handle w.
      let sized = W.reg_query_size handle value w in
      elim sized.0 [
        | code status ↦ (missing_or status value key, sized.1)
        | given (type_of, bytes) ↦ read_text handle key value type_of bytes sized.1
      ])

  unfoldable pub read_dword : Wide → Wide → M W.World (Option ℕ)
  unfolding missing_or wrong_type
  read_dword key value = with_key key (λ handle w.
      let read = W.reg_query_number handle value w in
      (
        elim read.0 [
          | code status ↦ missing_or status value key
          | given (type_of, number) ↦
              if is_number type_of
              then ok (some number)
              else err (wrong_type (txt "a DWORD") value key type_of)
        ],
        read.1,
      ))

  unfoldable pub write_string : Wide → Wide → Wide → M W.World (Unit {0})
  unfolding describe
  write_string key value content w =
      let r =
        coded W (W.reg_open_key_ex root key true)
          (fmt (txt "open the registry key " ∷ describe key ∷ txt " for writing" ∷ [])) w in
      elim r.0 [
        | err e ↦ (err e, r.1)
        | ok handle ↦
            let written =
              W.reg_set_text handle value content ((length content + 1) * 2 % 2 ^ 32) r.1 in
            (
              if written.0 == error_success
                  then ok tt
                  else err (
                      error_from_win32 written.0
                        (fmt (txt "write " ∷ describe value ∷ txt " to " ∷ describe key ∷ []))),
              W.reg_close_key handle written.1,
            )
      ]
