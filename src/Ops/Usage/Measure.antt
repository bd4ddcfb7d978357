-- ===== src/Ops/Usage/Measure.antt =====
-- UsageOperation of src/lib/ops/usage.cpp.
use wsldisk.Base.{
  ◌==◌, Bytes, txt, fmt, decimal, Bool, true, false, Option, none, some, List, [], ◌∷◌, ◌++◌,
  if◌then◌else◌, map, sort,
}
use wsldisk.Errors.{Result, ok, err}
use wsldisk.Effects.{M, ◌>>=◌, ◌>>◌, pure, guard, attempt}
use wsldisk.Interfaces.{Platform, WslCommandResult, succeeded}
use wsldisk.Model.Distro.{Distro, is_wsl2}
use wsldisk.Model.DiskInfo.{parse_df, guest_df}
use wsldisk.Model.Catalogue.{CacheEntry, is_per_user}
use wsldisk.Ops.Operation.{Context, call, emit, get, modify, message}
use wsldisk.Ops.Preflight.{wsl1_refusal}
use wsldisk.Ops.Usage.{
  UsageEntry, UsageDirectory, UsageReport, UsageOptions, parse_du_line, parse_du_listing,
  home_directories, account_for_nesting, top_of, larger_entry, breakdown,
}

abbrev guest_du : Bytes
guest_du = txt "/usr/bin/du"

abbrev guest_getent : Bytes
guest_getent = txt "/usr/bin/getent"

-- `home` in place of the `~` of a per-user path.
unfoldable pub at_home : Bytes → Bytes → Bytes
at_home home [] = home
at_home home (c ∷ path) = home ++ path

unfoldable pub paths_for : CacheEntry → List Bytes → List Bytes
unfolding at_home
paths_for entry homes =
    if is_per_user entry then map (λ home. at_home home entry.path) homes else entry.path ∷ []

abbrev pub empty_report : Bytes → UsageReport
empty_report name = record {
  distribution = name;
  guest_used = 0;
  guest_free = 0;
  entries = [];
  counted = 0;
  directories = [];
  notes = [];
}

abbrev noted : Bytes → UsageReport → UsageReport
noted text report = record report { notes = report.notes ++ text ∷ [] }

abbrev more_than_one : List Bytes → Bool
more_than_one (a ∷ b ∷ rest) = true
more_than_one _ = false

-- The entry of a measurement, if there is anything to tell.
unfoldable pub measured_entry : CacheEntry → Bytes → Bool → Bytes → Option UsageEntry
unfolding parse_du_line
measured_entry entry path per_user output = elim (parse_du_line output) [
  | none ↦ none
  | some bytes ↦
      if bytes == 0
      then none
      else some (record {
        path = path;
        label =
            if per_user then fmt (entry.label ∷ txt " (" ∷ path ∷ txt ")" ∷ []) else entry.label;
        bytes = bytes;
        safe = entry.safe;
        note = entry.note;
        contains_others = false;
      })
]

module _ (P : Platform) (catalogue : List CacheEntry) (distro : Distro)
    (options : UsageOptions) where
  abbrev pub State : Type 0
  State = Context P.World UsageReport

  unfoldable pub read_totals : M State (Unit {0})
  read_totals = do
    df ← call (P.run_as_root distro.name (guest_df ∷ txt "-B1" ∷ txt "/" ∷ []) options.timeout)
    elim (parse_df df.standard_output) [
      | none ↦ modify (noted (txt "could not read df output; the totals are unknown"))
      | some usage ↦
          modify (λ report. record report { guest_used = usage.used; guest_free = usage.available })
    ]

  -- The homes that the guest's users have, if it could list any.
  unfoldable pub listed_homes : Result WslCommandResult → List Bytes
  listed_homes (err e) = []
  listed_homes (ok passwd) =
      if succeeded passwd then home_directories passwd.standard_output else []

  unfoldable pub homes_of : M State (List Bytes)
  unfolding listed_homes
  homes_of = do
    passwd ←
        attempt
          (call (P.run_as_root distro.name (guest_getent ∷ txt "passwd" ∷ []) options.timeout))
    elim (listed_homes passwd) [
      | [] ↦ (do
        modify (
            noted (
              txt
                "could not list the guest's users, so only /root was checked for per-user caches"))
        pure (txt "/root" ∷ []))
      | home ∷ homes ↦ pure (home ∷ homes)
    ]

  unfoldable pub measure_path : CacheEntry → Bytes → Bool → M State (Option UsageEntry)
  unfolding measured_entry
  measure_path entry path per_user = do
    measured ← call (P.run_as_root distro.name (guest_du ∷ txt "-sbx" ∷ path ∷ []) options.timeout)
    pure (measured_entry entry path per_user measured.standard_output)

  abbrev pub add_found : Option UsageEntry → UsageReport → UsageReport
  add_found none report = report
  add_found (some entry) report = record report { entries = report.entries ++ entry ∷ [] }

  -- The loop over one catalogue entry's paths.
  unfoldable pub measure_paths : CacheEntry → Bool → List Bytes → M State (Unit {0})
  unfolding measure_path
  measure_paths entry per_user [] = pure tt
  measure_paths entry per_user (path ∷ paths) = do
    emit (message path)
    found ← measure_path entry path per_user
    modify (add_found found)
    measure_paths entry per_user paths

  unfoldable pub measure_entries : List Bytes → List CacheEntry → M State (Unit {0})
  unfolding measure_paths paths_for
  measure_entries homes [] = pure tt
  measure_entries homes (entry ∷ entries) = do
    measure_paths entry (more_than_one (paths_for entry homes)) (paths_for entry homes)
    measure_entries homes entries

  -- Biggest first, accounted for, and cut to the rows that were asked for.
  unfoldable pub arranged : UsageReport → UsageReport
  unfolding account_for_nesting top_of
  arranged report =
      let accounted =
        account_for_nesting (record report { entries = sort larger_entry report.entries }) in
      record accounted { entries = top_of options.top accounted.entries }

  abbrev pub listed : List UsageDirectory → UsageReport → UsageReport
  listed [] report = noted (txt "du reported no directories; the breakdown is empty") report
  listed (d ∷ ds) report = record report {
    directories = breakdown options.top report.entries (d ∷ ds);
  }

  unfoldable pub measure_directories : M State (Unit {0})
  measure_directories = do
    emit (message (txt "walking the filesystem by directory"))
    measured ← call (
        P.run_as_root distro.name
          (guest_du ∷ txt "-bx" ∷ txt "-d" ∷ decimal options.depth ∷ txt "/" ∷ []) options.timeout)
    (if succeeded measured
        then pure tt
        else modify
            (noted (txt "du could not read every directory; some may be missing or undercounted")))
    modify (listed (parse_du_listing measured.standard_output))

  unfoldable pub measure : M State UsageReport
  unfolding read_totals homes_of measure_entries arranged measure_directories
  measure = do
    guard (is_wsl2 distro) (wsl1_refusal distro)
    modify (λ before. empty_report distro.name)
    emit (message (txt "reading the filesystem totals"))
    read_totals
    homes ← homes_of
    measure_entries homes catalogue
    modify arranged
    (if options.by_directory then measure_directories else pure tt)
    get
