-- ===== src/Model/Distro.antt =====
-- src/lib/model/distro.h and distro.cpp: the registered distributions.
pub mod Enumerated
use wsldisk.Base.{
  ℕ, Bytes, txt, fmt, is_empty, bytes_eq, starts_with, Bool, true, false, not, ◌&&◌, Option, none,
  some, List, [], ◌∷◌, ◌++◌, ◌+◌, leb, ◌==◌, if◌then◌else◌, map,
}
use wsldisk.Errors.{Error, ok, err}
use wsldisk.WinPath.{Wide, FilePath, ◌//◌, drop_units}
use wsldisk.Interfaces.{Platform}
use wsldisk.Model.Text.{to_utf8, to_wide}
use wsldisk.Effects.{M, ◌>>=◌, pure}

abbrev pub lxss_key : Wide
lxss_key = txt "Software\\Microsoft\\Windows\\CurrentVersion\\Lxss"

abbrev pub extended_prefix : Wide
extended_prefix = txt "\\\\?\\"

abbrev pub extended_unc_prefix : Wide
extended_unc_prefix = txt "\\\\?\\UNC\\"

abbrev pub default_vhd_name : Wide
default_vhd_name = txt "ext4.vhdx"

pub record Distro : Type 0 where
  pub name : Bytes
  pub guid : Bytes
  pub version : ℕ
  pub base_path : Wide
  pub vhd_file_name : Wide
  pub vhdx_path : FilePath
  pub default_uid : ℕ
  pub flags : ℕ
  pub state : ℕ
  pub is_default : Bool
  pub modern : Bool
  pub flavor : Bytes
  pub os_version : Bytes

abbrev pub is_wsl2 : Distro → Bool
is_wsl2 d = d.version == 2

-- std::tolower in the C locale, and `lower` of orphans.cpp.
abbrev pub lower : ℕ → ℕ
lower c = if leb b'A' c && leb c b'Z' then c + 32 else c

unfoldable pub equals_ignoring_case : Bytes → Bytes → Bool
unfolding bytes_eq
equals_ignoring_case left right = bytes_eq (map lower left) (map lower right)

unfoldable pub find_matches : Distro → Bytes → Bool
unfolding equals_ignoring_case
find_matches d wanted = equals_ignoring_case d.name wanted

pub record DistroList : Type 0 where
  pub distros : List Distro
  pub warnings : List Bytes

-- std::ranges::find_if; a null pointer is `none`.
unfoldable pub find_if : (Distro → Bool) → List Distro → Option Distro
find_if p [] = none
find_if p (d ∷ ds) = if p d then some d else find_if p ds

unfoldable pub default_distro : DistroList → Option Distro
unfolding find_if
default_distro list = find_if (λ d. d.is_default) list.distros

unfoldable pub find : DistroList → Bytes → Option Distro
unfolding find_if find_matches
find list name = find_if (λ d. find_matches d name) list.distros

unfoldable pub registry_key_for : Distro → Wide
registry_key_for d = fmt (lxss_key ∷ txt "\\" ∷ to_wide d.guid ∷ [])

unfoldable pub strip_extended_prefix : Wide → Wide
unfolding starts_with drop_units
strip_extended_prefix path =
    if starts_with path extended_unc_prefix
    then txt "\\\\" ++ drop_units 8 path
    else if starts_with path extended_prefix
    then drop_units 4 path
    else path

unfoldable pub vhdx_path_for : Wide → Wide → FilePath
unfolding strip_extended_prefix
vhdx_path_for base_path vhd_file_name =
    strip_extended_prefix base_path
    // (if is_empty vhd_file_name then default_vhd_name else vhd_file_name)

-- What a KeyReader has met: the first failure, and the world that its reads leave.
pub record KeyReader (W : Type 0) : Type 0 where
  pub world : W
  pub failure : Option Error

-- The values of one subkey.
pub record KeyValues : Type 0 where
  pub name : Option Wide
  pub base_path : Option Wide
  pub vhd_file_name : Option Wide
  pub flavor : Option Wide
  pub os_version : Option Wide
  pub version : ℕ
  pub default_uid : ℕ
  pub flags : ℕ
  pub state : ℕ
  pub modern : ℕ

-- std::optional::value_or.
abbrev pub value_or {ℓ} : {A : Type ℓ} → Option A → A → A
value_or none d = d
value_or (some a) d = a

abbrev pub is_blank : Option Wide → Bool
is_blank none = true
is_blank (some s) = is_empty s

abbrev pub names_guid : Option Wide → Wide → Bool
names_guid none guid = false
names_guid (some g) guid = bytes_eq g guid

-- The distribution that one subkey's values describe.
unfoldable pub to_distro : Wide → Option Wide → KeyValues → Distro
to_distro guid default_guid v = record {
  name = to_utf8 (value_or v.name []);
  guid = to_utf8 guid;
  version = v.version;
  base_path = value_or v.base_path [];
  vhd_file_name = value_or v.vhd_file_name [];
  vhdx_path = vhdx_path_for (value_or v.base_path []) (value_or v.vhd_file_name []);
  default_uid = v.default_uid;
  flags = v.flags;
  state = v.state;
  is_default = names_guid default_guid guid;
  modern = not (v.modern == 0);
  flavor = to_utf8 (value_or v.flavor []);
  os_version = to_utf8 (value_or v.os_version []);
}

-- What one subkey adds: a warning if it has no name or no base path, absent and empty alike.
unfoldable pub add_key : Wide → Option Wide → KeyValues → DistroList → DistroList
add_key guid default_guid v found =
    if is_blank v.name
    then record found {
      warnings =
          found.warnings
          ++ fmt (
              txt "registry key "
              ∷ to_utf8 guid
              ∷ txt " has no DistributionName and was skipped"
              ∷ [])
            ∷ [];
    }
    else if is_blank v.base_path
    then record found {
      warnings =
          found.warnings
          ++ fmt (
              txt "distribution "
              ∷ to_utf8 (value_or v.name [])
              ∷ txt " has no BasePath and was skipped"
              ∷ [])
            ∷ [];
    }
    else record found { distros = found.distros ++ to_distro guid default_guid v ∷ [] }

module _ (P : Platform) where
  -- KeyReader::text. After a failure it reads nothing more.
  unfoldable pub text : Wide → Wide → KeyReader P.World → Option Wide × KeyReader P.World
  text key value r = elim r.failure [
    | some e ↦ (none, r)
    | none ↦
        let read = P.read_string key value r.world in
        elim read.0 [
          | err e ↦ (none, record { world = read.1; failure = some e })
          | ok found ↦ (found, record { world = read.1; failure = none })
        ]
  ]

  -- KeyReader::number.
  unfoldable pub number : Wide → Wide → ℕ → KeyReader P.World → ℕ × KeyReader P.World
  number key value fallback r = elim r.failure [
    | some e ↦ (fallback, r)
    | none ↦
        let read = P.read_dword key value r.world in
        elim read.0 [
          | err e ↦ (fallback, record { world = read.1; failure = some e })
          | ok found ↦ (value_or found fallback, record { world = read.1; failure = none })
        ]
  ]

  -- The ten reads of one subkey, and the test of the reader's failure behind them.
  unfoldable pub read_values : Wide → M P.World KeyValues
  unfolding text number
  read_values key w =
      let (name, r) = text key (txt "DistributionName") (record { world = w; failure = none }) in
      let (base_path, r) = text key (txt "BasePath") r in
      let (vhd_file_name, r) = text key (txt "VhdFileName") r in
      let (flavor, r) = text key (txt "Flavor") r in
      let (os_version, r) = text key (txt "OsVersion") r in
      let (version, r) = number key (txt "Version") 2 r in
      let (default_uid, r) = number key (txt "DefaultUid") 0 r in
      let (flags, r) = number key (txt "Flags") 0 r in
      let (state, r) = number key (txt "State") 0 r in
      let (modern, r) = number key (txt "Modern") 0 r in
      elim r.failure [
        | some e ↦ (err e, r.world)
        | none ↦ (
          ok (record {
            name = name;
            base_path = base_path;
            vhd_file_name = vhd_file_name;
            flavor = flavor;
            os_version = os_version;
            version = version;
            default_uid = default_uid;
            flags = flags;
            state = state;
            modern = modern;
          }),
          r.world,
        )
      ]

  unfoldable pub read_keys : List Wide → Option Wide → DistroList → M P.World DistroList
  unfolding read_values add_key
  read_keys [] default_guid found = pure found
  read_keys (guid ∷ guids) default_guid found =
      read_values (fmt (lxss_key ∷ txt "\\" ∷ guid ∷ [])) >>= λ v.
      read_keys guids default_guid (add_key guid default_guid v found)

  unfoldable pub enumerate : M P.World DistroList
  unfolding read_keys
  enumerate = do
    guids ← P.subkeys lxss_key
    default_guid ← P.read_string lxss_key (txt "DefaultDistribution")
    read_keys guids default_guid (record { distros = []; warnings = [] })
