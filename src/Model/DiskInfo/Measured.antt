-- ===== src/Model/DiskInfo/Measured.antt =====
-- src/lib/model/disk_info.cpp: what a measurement accounts for, and what it leaves alone.
use wsldisk.Base.{
  ℕ, suc, ◌+◌, Bytes, txt, bytes_eq, not, ◌&&◌, any, Option, none, some, [], ◌∷◌, ◌≡◌, ◌∙◌, inl,
  inr, refl, arith, Bool-cases, Option-cases, length, length-append, if◌then◌else◌,
}
use wsldisk.Errors.{Result-cases}
use wsldisk.Interfaces.{Platform, WslCommandResult, succeeded}
use wsldisk.Model.Distro.{Distro}
use wsldisk.Model.DiskInfo.{
  DiskInfo, nothing_measured, ProbeOptions, parse_df, read_probe, probe_guest, measure_guest,
  measure_file_size, measure_on_disk, measure_sparse, measure_allocated, measure_virtual,
  measure_file, measure, disk_is_missing, noted, guest_df,
}

abbrev pub missing {ℓ} : {A : Type ℓ} → Option A → ℕ
missing none = 1
missing (some a) = 0

-- The measurements that a disk's report lacks; that of the guest is one.
abbrev pub lacking : DiskInfo → ℕ
lacking info =
    missing info.file_size
    + missing info.size_on_disk
    + missing info.is_sparse
    + missing info.allocated_bytes
    + missing info.virtual_size
    + missing info.guest_used

-- One note for each measurement that was tried and is lacking; `ahead` are still to be tried.
abbrev Told : ℕ → DiskInfo → Type 0
Told ahead info = lacking info ≡ length info.notes + ahead

abbrev AheadGuest : ℕ → DiskInfo → Type 0
AheadGuest ahead info = (info.guest_used ≡ none) × Told (suc ahead) info

abbrev Ahead2 : DiskInfo → Type 0
Ahead2 info = (info.virtual_size ≡ none) × (info.guest_used ≡ none) × Told 2 info

abbrev Ahead3 : DiskInfo → Type 0
Ahead3 info =
    (info.allocated_bytes ≡ none)
    × (info.virtual_size ≡ none)
    × (info.guest_used ≡ none)
    × Told 3 info

abbrev Ahead4 : DiskInfo → Type 0
Ahead4 info =
    (info.is_sparse ≡ none)
    × (info.allocated_bytes ≡ none)
    × (info.virtual_size ≡ none)
    × (info.guest_used ≡ none)
    × Told 4 info

abbrev Ahead5 : DiskInfo → Type 0
Ahead5 info =
    (info.size_on_disk ≡ none)
    × (info.is_sparse ≡ none)
    × (info.allocated_bytes ≡ none)
    × (info.virtual_size ≡ none)
    × (info.guest_used ≡ none)
    × Told 5 info

noted-Told :
    (ahead : ℕ) (info : DiskInfo) (note : Bytes)
    → Told (suc ahead) info
    → Told ahead (noted info note)
noted-Told ahead info note h = omega (arith, length-append info.notes (note ∷ []))

module _ (P : Platform) (distro : Distro) (options : ProbeOptions) where
  read_probe-Told :
      (ahead : ℕ) (result : WslCommandResult) (info : DiskInfo)
      → AheadGuest ahead info
      → Told ahead (read_probe P distro options result info)
  unfolding read_probe
  read_probe-Told ahead result info (h, t) = elim (Bool-cases (succeeded result)) [
    | inr q ↦ rw q (noted-Told ahead info _ t)
    | inl q ↦ elim (Option-cases (parse_df result.standard_output)) [
      | inl q' ↦ rw (q, q') (noted-Told ahead info _ t)
      | inr (usage, q') ↦ rw (q, q') (ground arith)
    ]
  ]

  probe_guest-Told :
      (ahead : ℕ) (info : DiskInfo) (w : P.World)
      → AheadGuest ahead info
      → Told ahead (probe_guest P distro options info w).0
  unfolding probe_guest
  probe_guest-Told ahead info w h =
      elim (Result-cases
        (P.run_as_root distro.name (guest_df ∷ txt "-B1" ∷ txt "/" ∷ []) options.guest_timeout
          w).0) [
            | inl (e, q) ↦ rw q (noted-Told ahead info _ h.1)
            | inr (result, q) ↦ rw q (read_probe-Told ahead result info h)
          ]

  measure_guest-Told :
      (ahead : ℕ) (info : DiskInfo) (w : P.World)
      → AheadGuest ahead info
      → Told ahead (measure_guest P distro options info w).0
  unfolding measure_guest
  measure_guest-Told ahead info w h = elim (Result-cases (P.running w).0) [
    | inl (e, q) ↦ rw (measure_guest, q) (noted-Told ahead info _ h.1)
    | inr (names, q) ↦
        elim (Bool-cases
          (not (any (λ n. bytes_eq n distro.name) names) && not options.probe_guest)) [
            | inl q' ↦ rw (measure_guest, q, q') (noted-Told ahead info _ h.1)
            | inr q' ↦ rw (measure_guest, q, q') (probe_guest-Told ahead info (P.running w).1 h)
          ]
  ]

  measure_virtual-Told :
      (info : DiskInfo) (w : P.World)
      → Ahead2 info
      → AheadGuest 0 (measure_virtual P distro options info w).0
  unfolding measure_virtual
  measure_virtual-Told info w (hv, hg, t) = elim (Result-cases (P.open_disk distro.vhdx_path w).0) [
    | inl (e, q) ↦ rw (measure_virtual, q) (hg, noted-Told 1 info _ t)
    | inr (handle, q) ↦
        elim (Result-cases (P.information handle (P.open_disk distro.vhdx_path w).1).0) [
          | inl (e, q') ↦ rw (measure_virtual, q, q') (hg, noted-Told 1 info _ t)
          | inr (disk, q') ↦ rw (measure_virtual, q, q') (hg, ground arith)
        ]
  ]

  measure_allocated-Told :
      (info : DiskInfo) (w : P.World)
      → Ahead3 info
      → Ahead2 (measure_allocated P distro options info w).0
  unfolding measure_allocated
  measure_allocated-Told info w (ha, hv, hg, t) =
      elim (Result-cases (P.allocated_ranges distro.vhdx_path w).0) [
        | inl (e, q) ↦ rw q (hv, hg, noted-Told 2 info _ t)
        | inr (ranges, q) ↦ rw q (hv, hg, ground arith)
      ]

  measure_sparse-Told :
      (info : DiskInfo) (w : P.World)
      → Ahead4 info
      → Ahead3 (measure_sparse P distro options info w).0
  unfolding measure_sparse
  measure_sparse-Told info w (hs, ha, hv, hg, t) =
      elim (Result-cases (P.is_sparse distro.vhdx_path w).0) [
        | inl (e, q) ↦ rw q (ha, hv, hg, noted-Told 3 info _ t)
        | inr (sparse, q) ↦ rw q (ha, hv, hg, ground arith)
      ]

  measure_on_disk-Told :
      (info : DiskInfo) (w : P.World)
      → Ahead5 info
      → Ahead4 (measure_on_disk P distro options info w).0
  unfolding measure_on_disk
  measure_on_disk-Told info w (ho, hs, ha, hv, hg, t) =
      elim (Result-cases (P.file_size_on_disk distro.vhdx_path w).0) [
        | inl (e, q) ↦ rw q (hs, ha, hv, hg, noted-Told 4 info _ t)
        | inr (size, q) ↦ rw q (hs, ha, hv, hg, ground arith)
      ]

  measure_file_size-Told :
      (w : P.World) → Ahead5 (measure_file_size P distro options nothing_measured w).0
  unfolding measure_file_size
  measure_file_size-Told w = elim (Result-cases (P.file_size distro.vhdx_path w).0) [
    | inl (e, q) ↦ rw q (refl, refl, refl, refl, refl, refl)
    | inr (size, q) ↦ rw q (refl, refl, refl, refl, refl, refl)
  ]

  measure_file-Told :
      (w : P.World) → AheadGuest 0 (measure_file P distro options nothing_measured w).0
  unfolding measure_file
  measure_file-Told w = measure_virtual-Told _ _ (
      measure_allocated-Told _ _
        (measure_sparse-Told _ _ (measure_on_disk-Told _ _ (measure_file_size-Told w))))

  -- A report on a disk has as many notes as it lacks of its six measurements; if the disk is missing,
  -- one note stands for the five of the file.
  pub measure_accounts :
      (w : P.World)
      → let info = (measure P distro options w).0 in
        if (P.exists distro.vhdx_path w).0
        then lacking info ≡ length info.notes
        else lacking info ≡ length info.notes + 4
  unfolding measure
  measure_accounts w = elim (Bool-cases (P.exists distro.vhdx_path w).0) [
    | inl q ↦
        rw (measure, q)
          (measure_guest-Told 0 _ _ (measure_file-Told (P.exists distro.vhdx_path w).1)
            ∙ omega arith)
    | inr q ↦
        rw (measure, q)
          (measure_guest-Told 4 (noted nothing_measured (disk_is_missing P distro options)) _
            (refl, refl))
  ]
