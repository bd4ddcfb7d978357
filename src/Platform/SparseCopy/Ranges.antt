-- ===== src/Platform/SparseCopy/Ranges.antt =====
-- src/lib/platform/filesystem.cpp: what the loops of a sparse copy have copied when they return.
use wsldisk.Base.{
  ℕ, zero, suc, ◌+◌, ◌-◌, ◌%◌, ◌^◌, ◌≤◌, ◌<◌, Bool, ◌&&◌, ◌||◌, Option, none, some, List, [], ◌∷◌,
  ltb, leb, min, All, ◌≡◌, ◌≢◌, refl, inl, inr, arith, Bool-cases, Option-cases,
}
use wsldisk.Errors.{Result, ok, err, fail, Result-cases}
use wsldisk.Interfaces.{AllocatedRange}
use wsldisk.Platform.Win32.{Win32}
use wsldisk.Platform.SparseCopy.{
  CopyJob, copy_chunk_bytes, copy_chunk, go_on, copy_loop, copy_range, copy_ranges,
}
use wsldisk.Platform.SparseCopy.Contents.{Contents, within, Fits, covered}
use wsldisk.Platform.SparseCopy.Copied.{
  Copies, Copies-none, Copies-then, Copies-after, copy_chunk-copies,
}

-- A run that returned: if it succeeded, it copied what `copied` names.
module _ (W : Win32) (C : Contents W) (S D : ℕ) where
  unfoldable pub Ended : {A : Type 0} → (ℕ → Bool) → W.World → Option (Result A × W.World) → Type 0
  Ended copied w none = ⊥
  Ended copied w (some (ok a, later)) = Copies W C S D copied w later
  Ended copied w (some (err e, later)) = Unit

  pub Ended-then :
      {A : Type 0} (first second both : ℕ → Bool) (w mid : W.World)
      (r : Option (Result A × W.World))
      → ((i : ℕ) → both i ≡ (first i || second i))
      → Copies W C S D first w mid
      → Ended second mid r
      → Ended both w r
  unfolding Ended
  Ended-then first second both w mid none h c e = e
  Ended-then first second both w mid (some (err x, later)) h c e = tt
  Ended-then first second both w mid (some (ok a, later)) h c e =
      Copies-then W C S D first second w mid later c e both h

  pub Ended-after :
      {A : Type 0} (copied : ℕ → Bool) (w mid : W.World) (r : Option (Result A × W.World))
      → ((n i : ℕ) → C.byte n mid i ≡ C.byte n w i)
      → Ended copied mid r
      → Ended copied w r
  unfolding Ended
  Ended-after copied w mid none h e = e
  Ended-after copied w mid (some (err x, later)) h e = tt
  Ended-after copied w mid (some (ok a, later)) h e = Copies-after W C S D copied w mid later h e

abbrev between : ℕ → ℕ → ℕ → Bool
between start end i = leb start i && ltb i end

module _ (W : Win32) (C : Contents W) (progress : ℕ → ℕ → W.World → Bool × W.World)
    (job : CopyJob W.Handle)
    (steady : (now total : ℕ) (w : W.World) (n i : ℕ)
      → C.byte n (progress now total w).1 i ≡ C.byte n w i)
    (apart : C.file job.source ≢ C.file job.destination) where
  abbrev S : ℕ
  S = C.file job.source

  abbrev D : ℕ
  D = C.file job.destination

  copy_loop-Ended :
      (rounds end offset copied : ℕ) (w : W.World)
      → end ≤ offset + rounds
      → end < 2 ^ 64
      → Ended W C S D (between offset end) w (copy_loop W progress rounds job end offset copied w)
  unfolding copy_loop go_on fail Ended
  copy_loop-Ended zero end offset copied w enough fits = elim (Bool-cases (ltb offset end)) [
    | inl more ↦ absurd (ground arith)
    | inr over ↦ rw over (Copies-none W C S D (between offset end) w (λ i. ground arith))
  ]
  copy_loop-Ended (suc rounds) end offset copied w enough fits =
      elim (Bool-cases (ltb offset end)) [
        | inr over ↦ rw over (Copies-none W C S D (between offset end) w (λ i. ground arith))
        | inl more ↦
            let chunk : ℕ = min (end - offset) copy_chunk_bytes in
            let r : Result ℕ × W.World = copy_chunk W progress job offset chunk w in
            elim (Result-cases r.0) [
              | inl (e, h) ↦ rw (more, h) tt
              | inr (n, h) ↦
                  let (some_read, few, copies) =
                    copy_chunk-copies W C progress job offset chunk w apart h in
                  elim (Bool-cases (progress ((copied + n) % 2 ^ 64) job.total r.1).0) [
                    | inr stop ↦ rw (more, h, stop) tt
                    | inl on ↦
                        rw (more, h, on)
                          (Ended-then W C S D (within offset n) (between (offset + n) end)
                            (between offset end) w r.1 _ (λ i. ground arith) copies
                            (Ended-after W C S D (between (offset + n) end) r.1 _ _
                              (steady ((copied + n) % 2 ^ 64) job.total r.1)
                              (rw (small n (omega (arith, few))) (
                                copy_loop-Ended rounds end (offset + n) ((copied + n) % 2 ^ 64) _
                                  (omega arith) fits))))
                  ]
            ]
      ]
    where
      small : (n : ℕ) → offset + n < 2 ^ 64 → (offset + n) % 2 ^ 64 ≡ offset + n
      small n h = omega arith

  pub copy_ranges-Ended :
      (ranges : List AllocatedRange) (copied : ℕ) (w : W.World)
      → All Fits ranges
      → Ended W C S D (covered ranges) w (copy_ranges W progress job ranges copied w)
  unfolding copy_ranges copy_range Ended
  copy_ranges-Ended [] copied w fit = Copies-none W C S D (covered []) w (λ i. refl)
  copy_ranges-Ended (range ∷ ranges) copied w (fits, fit) =
      let end : ℕ = (range.offset + range.length) % 2 ^ 64 in
      let one =
        copy_loop-Ended range.length end range.offset copied w (omega (arith, fits))
          (omega (arith, fits)) in
      elim (Option-cases (copy_loop W progress range.length job end range.offset copied w)) [
        | inl e ↦ absurd (rw (Ended, e) at one)
        | inr ((err x, later), e) ↦ rw (copy_ranges, Ended, e) tt
        | inr ((ok now, later), e) ↦
            rw (copy_ranges, e)
              (Ended-then W C S D (between range.offset end) (covered ranges)
                (covered (range ∷ ranges)) w later _ (λ i. ground (arith, fits))
                (rw (Ended, e) at one) (copy_ranges-Ended ranges now later fit))
      ]
