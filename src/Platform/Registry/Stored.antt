-- ===== src/Platform/Registry/Stored.antt =====
-- src/lib/platform/registry.cpp: what is written to the registry can be read back.
use mathlib.Core.Path.{subst}
use wsldisk.Base.{
  ℕ, ◌*◌, ◌<◌, ◌%◌, ◌^◌, ◌+◌, ◌/◌, Bool, true, false, Option, some, [], ◌∷◌, ◌++◌, length,
  strip_back, ◌≡◌, ◌≢◌, ◌⊎◌, ◌∙◌, refl, ap, inl, inr, arith,
}
use wsldisk.Errors.{ok}
use wsldisk.WinPath.{Wide}
use wsldisk.Platform.Win32Error.{error_success, error_file_not_found}
use wsldisk.Platform.Win32.{Win32, Coded, code, given}
use wsldisk.Platform.FileSystem.{resized_text}
use wsldisk.Platform.Registry.{trim_trailing_nuls, missing_or, read_text, read_string, write_string}

-- What may be answered when the type and the size of a string that is there are asked for: not that it
-- is missing.
abbrev pub Tells : Wide → Coded (ℕ × ℕ) → Type 0
Tells text (given (type_of, bytes)) = (type_of ≡ 1) × (bytes ≡ length text * 2)
Tells text (code status) = status ≢ error_file_not_found

-- The strings behind the keys, and what the registry functions promise of them. Windows compares the
-- paths of keys, not their spelling, so a key stands for a slot. A handle is open on one key for as
-- long as it lives.
pub record Stored (W : Win32) (root : W.Handle) : Type 0 where
  pub slot : Wide → ℕ
  pub key_of : W.Handle → ℕ
  pub value : ℕ → Wide → W.World → Option Wide
  pub opens :
      (key : Wide) (writing : Bool) (w : W.World) (h : W.Handle)
      → (W.reg_open_key_ex root key writing w).0 ≡ given h
      → key_of h ≡ slot key
  pub open_keeps :
      (key : Wide) (writing : Bool) (w : W.World) (k : ℕ) (name : Wide)
      → value k name (W.reg_open_key_ex root key writing w).1 ≡ value k name w
  pub close_keeps :
      (h : W.Handle) (w : W.World) (k : ℕ) (name : Wide)
      → value k name (W.reg_close_key h w) ≡ value k name w
  -- A string whose terminator is counted in its size is stored with it.
  pub set_stores :
      (h : W.Handle) (name content : Wide) (bytes : ℕ) (w : W.World)
      → bytes ≡ (length content + 1) * 2
      → (W.reg_set_text h name content bytes w).0 ≡ error_success
      → value (key_of h) name (W.reg_set_text h name content bytes w).1 ≡ some (content ++ 0 ∷ [])
  -- Of a string that is there the registry tells the type and the size, and gives the string itself.
  pub size_tells :
      (h : W.Handle) (name text : Wide) (w : W.World)
      → value (key_of h) name w ≡ some text
      → Tells text (W.reg_query_size h name w).0
  pub size_keeps :
      (h : W.Handle) (n : Wide) (w : W.World) (k : ℕ) (name : Wide)
      → value k name (W.reg_query_size h n w).1 ≡ value k name w
  pub text_gives :
      (h : W.Handle) (name text found : Wide) (w : W.World)
      → value (key_of h) name w ≡ some text
      → (W.reg_query_text h name (length text * 2) w).0 ≡ given found
      → found ≡ text

Coded-cases : {A : Type 0} (r : Coded A) → ((n : ℕ) × (r ≡ code n)) ⊎ ((a : A) × (r ≡ given a))
Coded-cases (code n) = inl (n, refl)
Coded-cases (given a) = inr (a, refl)

-- A buffer of the text's own size holds the text.
resized_text-length : (text : Wide) → resized_text (length text) text ≡ text
unfolding resized_text
resized_text-length [] = refl
resized_text-length (c ∷ text) = ap (λ rest. c ∷ rest) (resized_text-length text)

-- The terminator goes with the other trailing NULs.
trim-terminated : (text : Wide) → trim_trailing_nuls (text ++ 0 ∷ []) ≡ trim_trailing_nuls text
unfolding trim_trailing_nuls strip_back
trim-terminated [] = refl
trim-terminated (c ∷ text) = rw (trim-terminated text) refl

module _ (W : Win32) (root : W.Handle) (R : Stored W root) where
  write_string-stores :
      (key name content : Wide) (w : W.World)
      → (length content + 1) * 2 < 2 ^ 32
      → (write_string W root key name content w).0 ≡ ok tt
      → R.value (R.slot key) name (write_string W root key name content w).1
        ≡ some (content ++ 0 ∷ [])
  unfolding write_string
  write_string-stores key name content w fits h =
      let bytes : ℕ = (length content + 1) * 2 % 2 ^ 32 in
      let whole : bytes ≡ (length content + 1) * 2 = omega (arith, fits) in
      let opened : Coded W.Handle × W.World = W.reg_open_key_ex root key true w in
      elim (Coded-cases opened.0) [
        | inl (n, e) ↦ let q = rw (write_string, e) at h in cc
        | inr (handle, e) ↦
            let q = rw (write_string, e) at h in
            let set : ℕ × W.World = W.reg_set_text handle name content bytes opened.1 in
            let stored = R.set_stores handle name content bytes opened.1 whole (ground arith) in
            rw (write_string, e)
              (R.close_keeps handle set.1 (R.slot key) name
                ∙ (rw (R.opens key true w handle e) at stored))
      ]

  read_text-finds :
      (handle : W.Handle) (key name text : Wide) (w : W.World) {found : Option Wide}
      → R.value (R.key_of handle) name w ≡ some text
      → (read_text W root handle key name 1 (length text * 2) w).0 ≡ ok found
      → found ≡ some (trim_trailing_nuls text)
  unfolding read_text
  read_text-finds handle key name text w {found} there h =
      let asked : Coded Wide × W.World = W.reg_query_text handle name (length text * 2) w in
      elim (Coded-cases asked.0) [
        | inl (n, e) ↦ let q = rw (read_text, e) at h in cc
        | inr (got, e) ↦
            let q = rw (read_text, e) at h in
            let same : got ≡ text = R.text_gives handle name text got w there e in
            let half : length text * 2 / 2 ≡ length text = omega arith in
            let q' = rw (same, half, resized_text-length text) at q in cc
      ]

  read_string-finds :
      (key name text : Wide) (w : W.World) {found : Option Wide}
      → R.value (R.slot key) name w ≡ some text
      → (read_string W root key name w).0 ≡ ok found
      → found ≡ some (trim_trailing_nuls text)
  unfolding read_string missing_or
  read_string-finds key name text w {found} there h =
      let opened : Coded W.Handle × W.World = W.reg_open_key_ex root key false w in
      elim (Coded-cases opened.0) [
        | inl (n, e) ↦ let q = rw (read_string, e) at h in cc
        | inr (handle, e) ↦
            let q = rw (read_string, e) at h in
            let named : R.value (R.key_of handle) name opened.1 ≡ some text =
              rw (R.opens key false w handle e)
                (R.open_keeps key false w (R.slot key) name ∙ there) in
            let sized : Coded (ℕ × ℕ) × W.World = W.reg_query_size handle name opened.1 in
            let tells = R.size_tells handle name text opened.1 named in
            elim (Coded-cases sized.0) [
              | inl (status, e') ↦
                  let other = rw e' at tells in let q' = rw e' at q in ground (arith, other)
              | inr ((type_of, bytes), e') ↦
                  let (one, size) = rw e' at tells in
                  let q' = rw e' at q in
                  read_text-finds handle key name text sized.1
                    (R.size_keeps handle name opened.1 (R.key_of handle) name ∙ named)
                    (subst (λ b. (read_text W root handle key name 1 b sized.1).0 ≡ ok found) size
                      (subst (λ t. (read_text W root handle key name t bytes sized.1).0 ≡ ok found)
                        one q'))
            ]
      ]

  -- A string without a NUL at its end whose size fits a DWORD, once written to the registry, is what is
  -- read back, unless reading fails: it is found, and it is not another one.
  pub write_string-read_string :
      (key name content : Wide) (w : W.World) {found : Option Wide}
      → (length content + 1) * 2 < 2 ^ 32
      → trim_trailing_nuls content ≡ content
      → (write_string W root key name content w).0 ≡ ok tt
      → (read_string W root key name (write_string W root key name content w).1).0 ≡ ok found
      → found ≡ some content
  write_string-read_string key name content w {found} fits plain written read =
      read_string-finds key name (content ++ 0 ∷ []) (write_string W root key name content w).1
        (write_string-stores key name content w fits written) read
      ∙ ap (λ text. some text) (trim-terminated content ∙ plain)
