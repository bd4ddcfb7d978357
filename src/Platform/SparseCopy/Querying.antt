-- ===== src/Platform/SparseCopy/Querying.antt =====
-- src/lib/platform/filesystem.cpp: the allocated ranges leave out no byte of the file that is not zero.
use wsldisk.Base.{
  ℕ, zero, suc, ◌+◌, ◌-◌, ◌^◌, ◌≤◌, ◌<◌, Bool, false, ap, Option, none, some, List, [], ◌++◌, ltb,
  ◌==◌, All, All-append, ◌≡◌, ◌∙◌, refl, sym, inl, inr, arith, Bool-cases, Option-cases,
}
use wsldisk.Errors.{Result, ok, err, Result-cases}
use wsldisk.WinPath.{FilePath}
use wsldisk.Interfaces.{AllocatedRange}
use wsldisk.Platform.Win32Error.{error_more_data}
use wsldisk.Effects.{◌>>=◌}
use wsldisk.Platform.Win32.{Win32, Rounds, scoped_rounds}
use wsldisk.Platform.FileSystem.{file_size}
use wsldisk.Platform.SparseCopy.{query_loop, sharing, allocated_ranges}
use wsldisk.Platform.SparseCopy.Contents.{
  Contents, Allocations, Fits, present, filled, covered, covered-append,
}

-- Where there is no byte, 0 is read.
absent-filled : (b : Option ℕ) → present b ≡ false → filled b ≡ 0
absent-filled none h = refl
absent-filled (some c) h = cc

module _ (W : Win32) (C : Contents W) (A : Allocations W C) where
  -- What an answer for the file at the place `n`, up to `size`, is: ranges that leave out only zeroes,
  -- or an error. Asking changes no file.
  unfoldable pub Complete :
      ℕ → ℕ → W.World → Option (Result (List AllocatedRange) × W.World) → Type 0
  Complete n size w none = ⊥
  Complete n size w (some (err e, later)) = Unit
  Complete n size w (some (ok ranges, later)) =
      All Fits ranges
      × ((i : ℕ) → i < size → covered ranges i ≡ false → filled (C.byte n w i) ≡ 0)
      × ((m i : ℕ) → C.byte m later i ≡ C.byte m w i)

  -- The ranges so far leave out only zeroes up to `offset`.
  abbrev SoFar : ℕ → ℕ → List AllocatedRange → W.World → Type 0
  SoFar n offset ranges w =
      All Fits ranges
      × ((i : ℕ) → i < offset → covered ranges i ≡ false → filled (C.byte n w i) ≡ 0)

  Complete-after :
      (n size : ℕ) (w mid : W.World) (r : Option (Result (List AllocatedRange) × W.World))
      → ((m i : ℕ) → C.byte m mid i ≡ C.byte m w i)
      → Complete n size mid r
      → Complete n size w r
  unfolding Complete
  Complete-after n size w mid none same c = c
  Complete-after n size w mid (some (err e, later)) same c = tt
  Complete-after n size w mid (some (ok ranges, later)) same (fit, zeroes, kept) =
      (fit, λ i h out. ap filled (sym (same n i)) ∙ zeroes i h out, λ m i. kept m i ∙ same m i)

  module _ (file : W.Handle) (path : FilePath) (size : ℕ) where
    abbrev N : ℕ
    N = C.file file

    -- Another answer, whose ranges leave out only zeroes from `offset` up to `next`.
    extended :
        (offset next : ℕ) (ranges more : List AllocatedRange) (w : W.World)
        → SoFar N offset ranges w
        → All Fits more
        → ((i : ℕ) → offset ≤ i → i < next → covered more i ≡ false → filled (C.byte N w i) ≡ 0)
        → SoFar N next (ranges ++ more) w
    extended offset next ranges more w (fit, zeroes) fits later = (
      All-append Fits ranges more fit fits,
      λ i h out. elim (Bool-cases (ltb i offset)) [
        | inl before ↦ zeroes i (ground arith) (ground (arith, covered-append ranges more i))
        | inr behind ↦ later i (ground arith) h (ground (arith, covered-append ranges more i))
      ],
    )

    query_loop-Complete :
        (rounds offset : ℕ) (ranges : List AllocatedRange) (w : W.World)
        → size ≤ offset + rounds
        → SoFar N offset ranges w
        → Complete N size w (query_loop W rounds file path size offset ranges w)
    unfolding query_loop Complete
    query_loop-Complete zero offset ranges w enough (fit, zeroes) =
        elim (Bool-cases (ltb offset size)) [
          | inl more ↦ absurd (ground arith)
          | inr over ↦ rw over (fit, λ i h out. zeroes i (ground arith) out, λ m i. refl)
        ]
    query_loop-Complete (suc rounds) offset ranges w enough so_far =
        let r : (Bool × List AllocatedRange) × W.World =
          W.query_allocated_ranges file offset (size - offset) w in
        let kept : (m i : ℕ) → C.byte m r.1 i ≡ C.byte m w i =
          C.query_keeps file offset (size - offset) w in
        elim (Bool-cases (ltb offset size)) [
          | inr over ↦ rw over (so_far.0, λ i h out. so_far.1 i (ground arith) out, λ m i. refl)
          | inl more ↦ elim (Bool-cases r.0.0) [
            | inl complete ↦
                let (fit, zeroes) =
                  extended offset size ranges r.0.1 w so_far
                    (A.answers_fit file offset (size - offset) w)
                    (λ i low high out.
                      A.complete_answer file offset (size - offset) w i complete low (ground arith)
                        out) in
                rw (more, complete) (fit, zeroes, kept)
            | inr part ↦ elim (Bool-cases (W.get_last_error r.1 == error_more_data)) [
              | inr other ↦ rw (more, part, other) tt
              | inl status ↦
                  let (next, end, further, zeroes) =
                    A.partial_answer file offset (size - offset) w part (ground arith) in
                  let (fit, so_far') =
                    extended offset next ranges r.0.1 w so_far
                      (A.answers_fit file offset (size - offset) w) zeroes in
                  rw (more, part, status, end)
                    (Complete-after N size w r.1 _ kept (
                      query_loop-Complete rounds next (ranges ++ r.0.1) r.1 (omega arith)
                        (fit, λ i h out. ap filled (kept N i) ∙ so_far' i h out)))
            ]
          ]
        ]

  pub file_size-bounds :
      (path : FilePath) (w : W.World) {size : ℕ}
      → (file_size W path w).0 ≡ ok size
      → (size < 2 ^ 64) × ((i : ℕ) → present (C.byte (C.place path) w i) ≡ ltb i size)
  unfolding file_size
  file_size-bounds path w {size} h = elim (Option-cases (W.get_file_attributes_ex path w).0) [
    | inl e ↦ let q = rw e at h in cc
    | inr ((high, low), e) ↦
        let q = rw e at h in
        let (small, zeroes) = A.sizes path w high low e in
        (ground arith, λ i. ground (arith, zeroes i))
  ]

  pub file_size-keeps :
      (path : FilePath) (w : W.World) (n i : ℕ) → C.byte n (file_size W path w).1 i ≡ C.byte n w i
  unfolding file_size
  file_size-keeps path w n i = elim (Option-cases (W.get_file_attributes_ex path w).0) [
    | inl e ↦ rw (◌>>=◌, e) (C.attributes_keep path w n i)
    | inr (a, e) ↦ rw (◌>>=◌, e) (C.attributes_keep path w n i)
  ]

  -- The handle of the query is closed.
  closed :
      (n size : ℕ) (w : W.World) (file : W.Handle) (body : Rounds W.World (List AllocatedRange))
      → Complete n size w (body w)
      → Complete n size w (scoped_rounds W file body w)
  unfolding Complete
  closed n size w file body c = elim (Option-cases (body w)) [
    | inl e ↦ absurd (rw (Complete, e) at c)
    | inr ((err x, later), e) ↦ rw (scoped_rounds, Complete, e) tt
    | inr ((ok ranges, later), e) ↦
        let (fit, zeroes, kept) = rw (Complete, e) at c in
        rw (scoped_rounds, Complete, e)
          (fit, zeroes, λ m i. C.close_keeps file later m i ∙ kept m i)
  ]

  -- Behind the end of the file there are only zeroes.
  widened :
      (n size extent : ℕ) (w : W.World) (r : Option (Result (List AllocatedRange) × W.World))
      → ((i : ℕ) → size ≤ i → filled (C.byte n w i) ≡ 0)
      → Complete n size w r
      → Complete n extent w r
  unfolding Complete
  widened n size extent w none behind c = c
  widened n size extent w (some (err e, later)) behind c = tt
  widened n size extent w (some (ok ranges, later)) behind (fit, zeroes, kept) = (
    fit,
    λ i less out. elim (Bool-cases (ltb i size)) [
      | inl inside ↦ zeroes i (ground arith) out
      | inr outside ↦ behind i (ground arith)
    ],
    kept,
  )

  -- The query ends, and if it succeeds, every byte of the file that is outside its ranges is zero.
  pub allocated_ranges-Complete :
      (rounds : ℕ) (path : FilePath) (w : W.World) (extent : ℕ)
      → 2 ^ 64 ≤ rounds
      → Complete (C.place path) extent w (allocated_ranges W rounds path w)
  unfolding allocated_ranges Complete
  allocated_ranges-Complete rounds path w extent enough =
      let size : Result ℕ × W.World = file_size W path w in
      let same : (m i : ℕ) → C.byte m size.1 i ≡ C.byte m w i = file_size-keeps path w in
      elim (Result-cases size.0) [
        | inl (e, h) ↦ rw (allocated_ranges, h) tt
        | inr (zero, h) ↦
            rw (allocated_ranges, h)
              (
                tt,
                λ i k out.
                    absent-filled (C.byte (C.place path) w i)
                      (ground (arith, (file_size-bounds path w h).1 i)),
                same,
              )
        | inr (suc n, h) ↦
            let opened : Option W.Handle × W.World = W.create_file path sharing size.1 in
            let kept : (m i : ℕ) → C.byte m opened.1 i ≡ C.byte m size.1 i =
              λ m i. C.opening_keeps path sharing size.1 m i refl in
            elim (Option-cases opened.0) [
              | inl e ↦ rw (allocated_ranges, h, e) tt
              | inr (file, e) ↦
                  let named = C.opens path sharing size.1 file e in
                  rw (allocated_ranges, h, e)
                    (Complete-after (C.place path) extent w opened.1 _ (λ m i. kept m i ∙ same m i)
                      (widened (C.place path) (suc n) extent opened.1 _
                        (λ i k.
                          ap filled (kept (C.place path) i ∙ same (C.place path) i)
                          ∙ absent-filled (C.byte (C.place path) w i)
                              (ground (arith, (file_size-bounds path w h).1 i)))
                        (closed (C.place path) (suc n) opened.1 file
                          (query_loop W rounds file path (suc n) 0 [])
                          (rw (sym named) (
                            query_loop-Complete file path (suc n) rounds 0 [] opened.1
                              (omega (arith, (file_size-bounds path w h).0))
                              (tt, λ i less out. absurd (omega (arith, less))))))))
            ]
      ]
