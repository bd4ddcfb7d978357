-- ===== src/Tests/Keys.antt =====
-- Writing to the registry and reading back, on the small volume.
use wsldisk.Base.{Option, some, [], ◌∷◌, length, ◌≡◌, refl, arith, strip_back}
use wsldisk.WinPath.{Wide}
use wsldisk.Platform.Win32.{given}
use wsldisk.Platform.Registry.{trim_trailing_nuls, write_string, read_string}
use wsldisk.Platform.Registry.Stored.{Stored, Tells, write_string-read_string}
use wsldisk.Tests.Volume.{volume, two_files, size_of, text_of}

telling : (text : Wide) (stored : Option Wide) → stored ≡ some text → Tells text (size_of stored)
telling text stored h = rw h (refl, refl)

giving :
    (text found : Wide) (stored : Option Wide)
    → stored ≡ some text
    → text_of stored ≡ given found
    → found ≡ text
giving text found stored h e = let e' = rw h at e in cc

abbrev volume-Stored : Stored volume 9
volume-Stored = record {
  slot = λ key. length key;
  key_of = λ h. h;
  value = λ k name v. v.texts k (length name);
  opens = λ key writing v h e. ground arith;
  open_keeps = λ key writing v k name. refl;
  close_keeps = λ h v k name. refl;
  set_stores = λ h name content bytes v size e. ground arith;
  size_tells = λ h name text v there. telling text (v.texts h (length name)) there;
  size_keeps = λ h n v k name. refl;
  text_gives = λ h name text found v there e. giving text found (v.texts h (length name)) there e;
}

abbrev base_path : Wide
base_path = b'C' ∷ b':' ∷ []

write_string-read_string_example : some (trim_trailing_nuls base_path) ≡ some base_path
unfolding trim_trailing_nuls strip_back write_string read_string
write_string-read_string_example =
    write_string-read_string volume 9 volume-Stored (b'k' ∷ []) (b'v' ∷ b'n' ∷ []) base_path
      two_files {found = some (trim_trailing_nuls base_path)} (omega arith) refl refl refl
