-- ===== src/Platform/SparseCopy/Whole.antt =====
-- src/lib/platform/filesystem.cpp: a sparse copy as a whole.
use wsldisk.Base.{
  ℕ, ap, ltb, if◌then◌else◌, suc, ◌^◌, ◌≤◌, txt, fmt, Bool, false, Option, none, some, List, [],
  ◌∷◌, All, ◌≡◌, ◌≢◌, ◌∙◌, refl, sym, inl, inr, arith, Bool-cases, Option-cases,
}
use wsldisk.Errors.{Result, ok, err, Result-cases}
use wsldisk.Effects.{◌>>◌}
use wsldisk.Effects.Steps.{bind-eq-ok}
use wsldisk.WinPath.{FilePath}
use wsldisk.Interfaces.{AllocatedRange}
use wsldisk.Platform.Win32.{Win32, Rounds, done, scoped_rounds}
use wsldisk.Platform.FileSystem.{file_size, reading}
use wsldisk.Platform.SparseCopy.{
  CopyJob, seek, resize, creating, total_of, allocated_ranges, fill, create_copy, copy_measured,
  copy_file_sparse,
}
use wsldisk.Platform.SparseCopy.Contents.{Contents, Allocations, Fits, covered, present, filled}
use wsldisk.Platform.SparseCopy.Copied.{Alike, Copies}
use wsldisk.Platform.SparseCopy.Ranges.{Ended, copy_ranges-Ended}
use wsldisk.Platform.SparseCopy.Querying.{
  Complete, file_size-bounds, file_size-keeps, allocated_ranges-Complete,
}

module _ (W : Win32) (C : Contents W) (progress : ℕ → ℕ → W.World → Bool × W.World)
    (steady : (now total : ℕ) (w : W.World) (n i : ℕ)
      → C.byte n (progress now total w).1 i ≡ C.byte n w i) where
  -- Ranges that leave out only zeroes of the file at the place `n`.
  abbrev LeavesZeroes : ℕ → List AllocatedRange → W.World → Type 0
  LeavesZeroes n ranges w =
      All Fits ranges × ((i : ℕ) → covered ranges i ≡ false → filled (C.byte n w i) ≡ 0)

  -- How long the file at the place `n` is.
  abbrev Sized : ℕ → ℕ → W.World → Type 0
  Sized n size w = (i : ℕ) → present (C.byte n w i) ≡ ltb i size

  -- Before the first range is copied.
  prepared :
      (job : CopyJob W.Handle) (size n : ℕ) (w : W.World)
      → C.file job.destination ≢ n
      → ((i : ℕ) → C.byte (C.file job.destination) w i ≡ none)
      → let r =
          (done W
                (W.set_sparse job.destination)
                (fmt (txt "make " ∷ W.path_string job.to ∷ txt " a sparse file" ∷ []))
              >> resize W job.destination size job.to)
            w in
        r.0 ≡ ok tt
        → ((i : ℕ) → C.byte n r.1 i ≡ C.byte n w i)
          × ((i : ℕ)
              → C.byte (C.file job.destination) r.1 i ≡ (if ltb i size then some 0 else none))
  unfolding resize seek
  prepared job size n w apart empty h =
      let (u1, s1, h1, at1) =
        bind-eq-ok
          (done W (W.set_sparse job.destination)
            (fmt (txt "make " ∷ W.path_string job.to ∷ txt " a sparse file" ∷ [])))
          (λ u. resize W job.destination size job.to) w h in
      let w1 : W.World = (W.set_sparse job.destination w).1 in
      let (u2, s2, h2, at2) =
        bind-eq-ok (seek W job.destination size job.to)
          (λ u. done W (W.set_end_of_file job.destination) _) w1 h1 in
      let w2 : W.World = (W.set_file_pointer_ex job.destination size w1).1 in
      (
        λ i.
            rw (at1, at2)
              (C.end_keeps job.destination w2 n i apart
                ∙ (C.seek_keeps job.destination size w1 n i
                    ∙ C.sparse_keeps job.destination w n i)),
        λ i.
            rw (at1, at2)
              (ground (
                arith,
                C.end_sets job.destination w2 i (ground arith),
                C.seek_moves job.destination size w1 (ground arith),
                C.seek_keeps job.destination size w1 (C.file job.destination) i
                    ∙ (C.sparse_keeps job.destination w (C.file job.destination) i ∙ empty i),
              )),
      )

  -- A byte that reads as zero, in a file of so many bytes.
  zeroed :
      (b : Option ℕ) (size i : ℕ)
      → present b ≡ ltb i size
      → filled b ≡ 0
      → (if ltb i size then some 0 else none) ≡ b
  zeroed none size i h z = rw (sym h) refl
  zeroed (some c) size i h z = rw (sym h, z) refl

  -- How a copy may end: if it succeeded, S is as it was, and D has the bytes of S and its length.
  unfoldable pub CopiedWhole : {A : Type 0} → ℕ → ℕ → W.World → Option (Result A × W.World) → Type 0
  CopiedWhole S D w none = ⊥
  CopiedWhole S D w (some (err e, later)) = Unit
  CopiedWhole S D w (some (ok a, later)) =
      ((i : ℕ) → C.byte S later i ≡ C.byte S w i) × ((i : ℕ) → C.byte D later i ≡ C.byte S w i)

  -- The ranges and the zeroes between them make up the whole file.
  completed :
      {A : Type 0} (S D size : ℕ) (ranges : List AllocatedRange) (w mid : W.World)
      (r : Option (Result A × W.World))
      → LeavesZeroes S ranges w
      → Sized S size w
      → ((i : ℕ) → C.byte S mid i ≡ C.byte S w i)
      → ((i : ℕ) → C.byte D mid i ≡ (if ltb i size then some 0 else none))
      → Ended W C S D (covered ranges) mid r
      → CopiedWhole S D w r
  unfolding Ended Copies CopiedWhole
  completed S D size ranges w mid none zeroes sized same empty e = e
  completed S D size ranges w mid (some (err x, later)) zeroes sized same empty e = tt
  completed S D size ranges w mid (some (ok a, later)) (fit, zeroes) sized same empty (s, d) =
      let alike : Alike W C S D mid = λ i. ground (arith, empty i, same i, sized i) in
      (
        λ i. s i ∙ same i,
        λ i. elim (Bool-cases (covered ranges i)) [
          | inl inside ↦ ground (arith, d alike i, same i)
          | inr outside ↦
              ground (arith, d alike i, empty i, sized i)
              ∙ zeroed (C.byte S w i) size i (sized i) (zeroes i outside)
        ],
      )

  fill-Ended :
      (job : CopyJob W.Handle) (size : ℕ) (ranges : List AllocatedRange) (w : W.World)
      → C.file job.source ≢ C.file job.destination
      → LeavesZeroes (C.file job.source) ranges w
      → Sized (C.file job.source) size w
      → ((i : ℕ) → C.byte (C.file job.destination) w i ≡ none)
      → CopiedWhole
          (C.file job.source)
          (C.file job.destination)
          w
          (fill W progress job size ranges w)
  unfolding fill CopiedWhole
  fill-Ended job size ranges w apart zeroes sized empty =
      let r =
        (done W (W.set_sparse job.destination)
              (fmt (txt "make " ∷ W.path_string job.to ∷ txt " a sparse file" ∷ []))
            >> resize W job.destination size job.to)
          w in
      elim (Result-cases r.0) [
        | inl (e, h) ↦ rw (fill, h) tt
        | inr (u, h) ↦
            let (same, still) =
              prepared job size (C.file job.source) w (λ e. apart (sym e)) empty h in
            rw (fill, h)
              (completed (C.file job.source) (C.file job.destination) size ranges w r.1 _ zeroes
                sized same still
                (copy_ranges-Ended W C progress job steady apart ranges 0 r.1 zeroes.0))
      ]

  -- A handle is closed.
  Ended-closed :
      (S D : ℕ) (w : W.World) (file : W.Handle) (body : Rounds W.World (Unit {0}))
      → CopiedWhole S D w (body w)
      → CopiedWhole S D w (scoped_rounds W file body w)
  unfolding CopiedWhole
  Ended-closed S D w file body c = elim (Option-cases (body w)) [
    | inl e ↦ absurd (rw (CopiedWhole, e) at c)
    | inr ((err x, later), e) ↦ rw (scoped_rounds, CopiedWhole, e) tt
    | inr ((ok u, later), e) ↦
        let (s, d) = rw (CopiedWhole, e) at c in
        rw (scoped_rounds, CopiedWhole, e)
          (λ i. C.close_keeps file later S i ∙ s i, λ i. C.close_keeps file later D i ∙ d i)
  ]

  -- Before a copy of everything the source alone matters.
  Ended-before :
      {A : Type 0} (S D : ℕ) (w mid : W.World) (r : Option (Result A × W.World))
      → ((i : ℕ) → C.byte S mid i ≡ C.byte S w i)
      → CopiedWhole S D mid r
      → CopiedWhole S D w r
  unfolding CopiedWhole
  Ended-before S D w mid none same e = e
  Ended-before S D w mid (some (err x, later)) same e = tt
  Ended-before S D w mid (some (ok a, later)) same (s, d) = (λ i. s i ∙ same i, λ i. d i ∙ same i)

  module _ (from to : FilePath) (apart : C.place from ≢ C.place to) where
    create_copy-Ended :
        (source : W.Handle) (size : ℕ) (ranges : List AllocatedRange) (w : W.World)
        → C.file source ≡ C.place from
        → LeavesZeroes (C.place from) ranges w
        → Sized (C.place from) size w
        → CopiedWhole
            (C.place from)
            (C.place to)
            w
            (create_copy W progress source from to size ranges w)
    unfolding create_copy CopiedWhole
    create_copy-Ended source size ranges w named zeroes sized =
        let opened : Option W.Handle × W.World = W.create_file to creating w in
        let kept : (i : ℕ) → C.byte (C.place from) opened.1 i ≡ C.byte (C.place from) w i =
          λ i. C.creating_keeps to creating w (C.place from) i (λ e. apart (sym e)) in
        elim (Option-cases opened.0) [
          | inl e ↦ rw (create_copy, e) tt
          | inr (destination, e) ↦
              let there = C.opens to creating w destination e in
              let job : CopyJob W.Handle = record {
                source = source;
                destination = destination;
                from = from;
                to = to;
                total = total_of ranges 0;
              } in
              rw (create_copy, e)
                (Ended-before (C.place from) (C.place to) w opened.1 _ kept (
                  Ended-closed (C.place from) (C.place to) opened.1 destination
                    (fill W progress job size ranges)
                    (rw (sym named, sym there)
                      (fill-Ended job size ranges opened.1
                        (λ same. apart (sym named ∙ (same ∙ there)))
                        (zeroes.0, λ i out. rw named (ap filled (kept i) ∙ zeroes.1 i out))
                        (λ i. rw named (ap present (kept i) ∙ sized i))
                        (λ i. rw there (C.new_is_empty to creating w destination i refl e))))))
        ]

    copy_measured-Ended :
        (size : ℕ) (ranges : List AllocatedRange) (w : W.World)
        → LeavesZeroes (C.place from) ranges w
        → Sized (C.place from) size w
        → CopiedWhole (C.place from) (C.place to) w (copy_measured W progress from to size ranges w)
    unfolding copy_measured CopiedWhole
    copy_measured-Ended size ranges w zeroes sized =
        let opened : Option W.Handle × W.World = W.create_file from reading w in
        let kept : (i : ℕ) → C.byte (C.place from) opened.1 i ≡ C.byte (C.place from) w i =
          λ i. C.opening_keeps from reading w (C.place from) i refl in
        elim (Option-cases opened.0) [
          | inl e ↦ rw (copy_measured, e) tt
          | inr (source, e) ↦
              rw (copy_measured, e)
                (Ended-before (C.place from) (C.place to) w opened.1 _ kept (
                  Ended-closed (C.place from) (C.place to) opened.1 source
                    (create_copy W progress source from to size ranges)
                    (create_copy-Ended source size ranges opened.1 (C.opens from reading w source e)
                      (zeroes.0, λ i out. ap filled (kept i) ∙ zeroes.1 i out)
                      (λ i. ap present (kept i) ∙ sized i))))
        ]

    -- A sparse copy to another place ends, in whatever world it is started. If it succeeds, the target
    -- is as long as the source, every byte of it is that of the source, holes included, and the source
    -- is as it was.
    pub copy_file_sparse-copies :
        (A : Allocations W C) (rounds : ℕ) (w : W.World)
        → 2 ^ 64 ≤ rounds
        → CopiedWhole (C.place from) (C.place to) w (copy_file_sparse W progress rounds from to w)
    unfolding copy_file_sparse CopiedWhole Complete
    copy_file_sparse-copies A rounds w enough =
        elim (Option-cases (allocated_ranges W rounds from w)) [
          | inl e ↦
              let asked = allocated_ranges-Complete W C A rounds from w 0 enough in
              absurd (rw (Complete, e) at asked)
          | inr ((err x, mid), e) ↦ rw (copy_file_sparse, e) tt
          | inr ((ok ranges, mid), e) ↦
              let zeroes : (extent : ℕ)
                  → Complete W C A (C.place from) extent w (some (ok ranges, mid)) =
                λ extent.
                  let asked = allocated_ranges-Complete W C A rounds from w extent enough in
                  rw (Complete, e) at asked in
              let size : Result ℕ × W.World = file_size W from mid in
              let kept : (i : ℕ) → C.byte (C.place from) size.1 i ≡ C.byte (C.place from) w i = λ i.
                file_size-keeps W C A from mid (C.place from) i ∙ (zeroes 0).2 (C.place from) i in
              elim (Result-cases size.0) [
                | inl (x, h) ↦ rw (copy_file_sparse, e, h) tt
                | inr (n, h) ↦
                    rw (copy_file_sparse, e, h)
                      (Ended-before (C.place from) (C.place to) w size.1 _ kept (
                        copy_measured-Ended n ranges size.1
                          (
                            (zeroes 0).0,
                            λ i out. ap filled (kept i) ∙ (zeroes (suc i)).1 i (omega arith) out,
                          )
                          (λ i.
                            ap present (file_size-keeps W C A from mid (C.place from) i)
                            ∙ (file_size-bounds W C A from mid h).1 i)))
              ]
        ]
