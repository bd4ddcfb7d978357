-- ===== src/Model/Distro/Enumerated.antt =====
-- What `enumerate` of src/lib/model/distro.cpp makes of the registry's keys.
use wsldisk.Base.{
  Bytes, ◌⊎◌, fmt, txt, ℕ, ◌+◌, false, List, [], ◌∷◌, ◌++◌, length, length-append, All, All-append,
  ◌≡◌, refl, arith, is_empty, Option, inl, inr, Bool-cases,
}
use wsldisk.Errors.{ok}
use wsldisk.Effects.{◌>>=◌}
use wsldisk.Effects.Steps.{bind-eq-ok}
use wsldisk.Model.Text.{to_utf8}
use wsldisk.WinPath.{Wide}
use wsldisk.Interfaces.{Platform}
use wsldisk.Model.Distro.{
  Distro, DistroList, KeyValues, vhdx_path_for, add_key, to_distro, is_blank, value_or, read_values,
  read_keys, enumerate, lxss_key,
}

-- The disk is where the registry entry says, and the entry says something.
abbrev pub IsPlaced : Distro → Type 0
IsPlaced d =
    (is_empty d.base_path ≡ false) × (d.vhdx_path ≡ vhdx_path_for d.base_path d.vhd_file_name)

abbrev pub entries : DistroList → ℕ
entries found = length found.distros + length found.warnings

to_distro-IsPlaced :
    (guid : Wide) (default_guid : Option Wide) (v : KeyValues)
    → is_blank v.base_path ≡ false
    → IsPlaced (to_distro guid default_guid v)
unfolding to_distro
to_distro-IsPlaced guid default_guid v h = (ground arith, refl)

add_key-cases :
    (guid : Wide) (default_guid : Option Wide) (v : KeyValues) (found : DistroList)
    → ((text : Bytes) × (add_key guid default_guid v found
          ≡ record found { warnings = found.warnings ++ text ∷ [] }))
      ⊎ ((is_blank v.base_path ≡ false)
          × (add_key guid default_guid v found
              ≡ record found { distros = found.distros ++ to_distro guid default_guid v ∷ [] }))
unfolding add_key
add_key-cases guid default_guid v found = elim (Bool-cases (is_blank v.name)) [
  | inl blank ↦ inl (
    fmt (txt "registry key " ∷ to_utf8 guid ∷ txt " has no DistributionName and was skipped" ∷ []),
    rw blank refl,
  )
  | inr named ↦ elim (Bool-cases (is_blank v.base_path)) [
    | inl blank ↦ inl (
      fmt (
          txt "distribution "
          ∷ to_utf8 (value_or v.name [])
          ∷ txt " has no BasePath and was skipped"
          ∷ []),
      rw (named, blank) refl,
    )
    | inr placed ↦ inr (placed, rw (named, placed) refl)
  ]
]

add_key-entries :
    (guid : Wide) (default_guid : Option Wide) (v : KeyValues) (found : DistroList)
    → All IsPlaced found.distros
    → (entries (add_key guid default_guid v found) ≡ entries found + 1)
      × All IsPlaced (add_key guid default_guid v found).distros
unfolding add_key
add_key-entries guid default_guid v found placed = elim (add_key-cases guid default_guid v found) [
  | inl (text, eq) ↦ (rw eq (omega (arith, length-append found.warnings (text ∷ []))), rw eq placed)
  | inr (named, eq) ↦ (
    rw eq (omega (arith, length-append found.distros (to_distro guid default_guid v ∷ []))),
    rw eq (
        All-append IsPlaced found.distros (to_distro guid default_guid v ∷ []) placed
          (to_distro-IsPlaced guid default_guid v named, tt)),
  )
]

module _ (P : Platform) where
  read_keys-entries :
      (guids : List Wide) (default_guid : Option Wide) (found : DistroList) (w : P.World)
      {list : DistroList}
      → All IsPlaced found.distros
      → (read_keys P guids default_guid found w).0 ≡ ok list
      → (entries list ≡ entries found + length guids) × All IsPlaced list.distros
  unfolding read_keys
  read_keys-entries [] default_guid found w placed h = (ground arith, ground (arith, placed))
  read_keys-entries (guid ∷ guids) default_guid found w placed h =
      let (v, first, second, last) =
        bind-eq-ok (read_values P (fmt (lxss_key ∷ txt "\\" ∷ guid ∷ [])))
          (λ v. read_keys P guids default_guid (add_key guid default_guid v found)) w h in
      let (counted, kept) = add_key-entries guid default_guid v found placed in
      let (more, all) =
        read_keys-entries guids default_guid (add_key guid default_guid v found) _ kept second in
      (omega arith, all)

  -- An enumeration that succeeds has a distribution or a warning for each of the registry's keys, and
  -- each distribution has a base path that is not empty and its disk where vhdx_path_for puts it.
  pub enumerate_accounts :
      (w : P.World) {list : DistroList}
      → (enumerate P w).0 ≡ ok list
      → (guids : List Wide) × ((P.subkeys lxss_key w).0 ≡ ok guids)
        × (length list.distros + length list.warnings ≡ length guids)
        × All IsPlaced list.distros
  unfolding enumerate
  enumerate_accounts w h =
      let (guids, listed, rest, last) =
        bind-eq-ok (P.subkeys lxss_key)
          (λ guids. P.read_string lxss_key (txt "DefaultDistribution") >>= λ default_guid.
            read_keys P guids default_guid (record { distros = []; warnings = [] }))
          w h in
      let (default_guid, read, rest2, last2) =
        bind-eq-ok (P.read_string lxss_key (txt "DefaultDistribution"))
          (λ default_guid. read_keys P guids default_guid (record { distros = []; warnings = [] }))
          _ rest in
      let (counted, placed) =
        read_keys-entries guids default_guid (record { distros = []; warnings = [] }) _ tt rest2 in
      (guids, listed, omega (arith, counted), placed)
