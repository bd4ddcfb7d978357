-- ===== src/Platform/SparseCopy/Copied.antt =====
-- src/lib/platform/filesystem.cpp: what a sparse copy has copied.
use wsldisk.Base.{
  ℕ, ◌-◌, ◌≤◌, ◌<◌, Bytes, txt, fmt, Bool, true, false, ap, ◌||◌, Option, some, [], ◌∷◌,
  if◌then◌else◌, length, ◌≡◌, ◌≢◌, ◌∙◌, refl, sym, inl, inr, arith, Bool-cases, Option-cases,
}
use wsldisk.Errors.{ok, fail}
use wsldisk.Effects.{◌>>◌}
use wsldisk.Effects.Steps.{bind-eq-ok}
use wsldisk.Platform.Win32.{Win32, answered}
use wsldisk.Platform.SparseCopy.{CopyJob, seek, write_chunk, transfer, copy_chunk}
use wsldisk.Platform.SparseCopy.Contents.{Contents, within, present}

module _ (W : Win32) where
  pub answered-ok :
      {A : Type 0} (call : W.World → Option A × W.World) (context : Bytes) (w : W.World) {a : A}
      → (answered W call context w).0 ≡ ok a
      → (call w).0 ≡ some a
  answered-ok call context w h = elim (Option-cases (call w).0) [
    | inl e ↦ let q = rw e at h in cc
    | inr (a, e) ↦ let q = rw e at h in cc
  ]

  module _ (C : Contents W) (S D : ℕ) where
    -- The two files are equally long.
    abbrev pub Alike : W.World → Type 0
    Alike w = (i : ℕ) → present (C.byte D w i) ≡ present (C.byte S w i)

    -- From `w` to `later` the file S did not change; and if D was as long as S, then its bytes at the
    -- offsets that `copied` names became those of S, and no other changed.
    unfoldable pub Copies : (ℕ → Bool) → W.World → W.World → Type 0
    Copies copied w later =
        ((i : ℕ) → C.byte S later i ≡ C.byte S w i)
        × (Alike w → (i : ℕ) → C.byte D later i ≡ (if copied i then C.byte S w i else C.byte D w i))

    pub Copies-none :
        (copied : ℕ → Bool) (w : W.World) → ((i : ℕ) → copied i ≡ false) → Copies copied w w
    unfolding Copies
    Copies-none copied w h = (λ i. refl, λ alike i. rw (h i) refl)

    Copies-Alike :
        (copied : ℕ → Bool) (w later : W.World) → Copies copied w later → Alike w → Alike later
    unfolding Copies
    Copies-Alike copied w later (s, d) alike i = ground (arith, s i, d alike i, alike i)

    pub Copies-then :
        (first second : ℕ → Bool) (w mid later : W.World)
        → Copies first w mid
        → Copies second mid later
        → (both : ℕ → Bool) → ((i : ℕ) → both i ≡ (first i || second i))
        → Copies both w later
    unfolding Copies
    Copies-then first second w mid later (s1, d1) (s2, d2) both h = (
      λ i. s2 i ∙ s1 i,
      λ alike i.
          let still = Copies-Alike first w mid (s1, d1) alike in
          ground (arith, s1 i, d1 alike i, d2 still i, h i),
    )

    -- Nothing changed: a call that keeps the contents may come before or after.
    pub Copies-after :
        (copied : ℕ → Bool) (w mid later : W.World)
        → ((n i : ℕ) → C.byte n mid i ≡ C.byte n w i)
        → Copies copied mid later
        → Copies copied w later
    unfolding Copies
    Copies-after copied w mid later h (s, d) = (
      λ i. s i ∙ h S i,
      λ alike i.
          let still : Alike mid = λ j. ap present (h D j) ∙ (alike j ∙ ap present (sym (h S j))) in
          ground (arith, d still i, h S i, h D i),
    )

module _ (W : Win32) (C : Contents W) (progress : ℕ → ℕ → W.World → Bool × W.World)
    (job : CopyJob W.Handle) where
  abbrev S : ℕ
  S = C.file job.source

  abbrev D : ℕ
  D = C.file job.destination

  -- Both seeks.
  sought :
      (offset : ℕ) (w : W.World)
      → S ≢ D
      → (seek W job.source offset job.from w).0 ≡ ok tt
      → (seek W job.destination offset job.to (seek W job.source offset job.from w).1).0 ≡ ok tt
      → let w2 = (seek W job.destination offset job.to (seek W job.source offset job.from w).1).1 in
        (C.pointer job.source w2 ≡ offset)
        × (C.pointer job.destination w2 ≡ offset)
        × ((n i : ℕ) → C.byte n w2 i ≡ C.byte n w i)
  unfolding seek
  sought offset w apart h1 h2 =
      let w1 : W.World = (W.set_file_pointer_ex job.source offset w).1 in
      (
        C.seek_others job.destination job.source offset w1 (λ e. apart (sym e))
            ∙ C.seek_moves job.source offset w (ground arith),
        C.seek_moves job.destination offset w1 (ground arith),
        λ n i. C.seek_keeps job.destination offset w1 n i ∙ C.seek_keeps job.source offset w n i,
      )

  -- The read and the write of one round, at pointers that both stand at `offset`.
  moved :
      (offset chunk : ℕ) (w : W.World) (text : Bytes)
      → S ≢ D
      → 0 < length text
      → C.pointer job.source w ≡ offset
      → C.pointer job.destination w ≡ offset
      → (W.read_file job.source chunk w).0 ≡ some text
      → let w1 = (W.read_file job.source chunk w).1 in
        (W.write_file job.destination text w1).0 ≡ some (length text)
        → Copies W C S D (within offset (length text)) w (W.write_file job.destination text w1).1
  unfolding Copies
  moved offset chunk w text apart some_read at_source at_destination r =
      let w1 : W.World = (W.read_file job.source chunk w).1 in
      let there : present (C.byte S w offset) ≡ true =
        ground (arith, (C.read_gives job.source chunk w text r).1 0 some_read) in
      let reached : Alike W C S D w
          → (j : ℕ) → j < C.pointer job.destination w1
          → present (C.byte D w1 j) ≡ true =
        λ alike j before. ground (
          arith,
          before,
          C.read_others job.source job.destination chunk w apart,
          C.read_keeps job.source chunk w D j,
          alike j,
          C.contiguous S offset j w there,
        ) in
      λ written. (
        λ i.
            C.write_keeps job.destination text w1 S i (λ e. apart (sym e))
            ∙ C.read_keeps job.source chunk w S i,
        λ alike i. elim (Bool-cases (within offset (length text) i)) [
          | inl inside ↦ ground (
            arith,
            C.write_sets job.destination text w1 i written (reached alike),
            C.read_others job.source job.destination chunk w apart,
            (C.read_gives job.source chunk w text r).1 (i - offset),
          )
          | inr outside ↦ ground (
            arith,
            C.write_sets job.destination text w1 i written (reached alike),
            C.read_others job.source job.destination chunk w apart,
            C.read_keeps job.source chunk w D i,
          )
        ],
      )

  write_chunk-ok :
      (text : Bytes) (w : W.World) {n : ℕ}
      → (write_chunk W progress job text w).0 ≡ ok n
      → (n ≡ length text)
        × (0 < length text)
        × ((W.write_file job.destination text w).0 ≡ some (length text))
        × ((write_chunk W progress job text w).1 ≡ (W.write_file job.destination text w).1)
  unfolding write_chunk fail
  write_chunk-ok [] w h = cc
  write_chunk-ok (c ∷ bytes) w {n} h =
      elim (Option-cases (W.write_file job.destination (c ∷ bytes) w).0) [
        | inl e ↦ let q = rw e at h in cc
        | inr (m, e) ↦ let q = rw e at h in ground (arith, e)
      ]

  transfer-copies :
      (offset chunk : ℕ) (w : W.World) {n : ℕ}
      → S ≢ D
      → C.pointer job.source w ≡ offset
      → C.pointer job.destination w ≡ offset
      → (transfer W progress job chunk w).0 ≡ ok n
      → (0 < n)
        × (n ≤ chunk)
        × Copies W C S D (within offset n) w (transfer W progress job chunk w).1
  unfolding transfer
  transfer-copies offset chunk w {n} apart at_source at_destination h =
      let (text, r, rest, at) =
        bind-eq-ok
          (answered W (W.read_file job.source chunk)
            (fmt (txt "read " ∷ W.path_string job.from ∷ [])))
          (write_chunk W progress job) w h in
      let given = answered-ok W (W.read_file job.source chunk) _ w r in
      let (count, some_read, written, left) = write_chunk-ok text _ rest in
      (
        omega (arith, count, some_read),
        omega (arith, count, (C.read_gives job.source chunk w text given).0),
        rw (at, left, count)
            (moved offset chunk w text apart some_read at_source at_destination given written),
      )

  -- A round that succeeds copies at least one byte, and what it says it copied.
  pub copy_chunk-copies :
      (offset chunk : ℕ) (w : W.World) {n : ℕ}
      → S ≢ D
      → (copy_chunk W progress job offset chunk w).0 ≡ ok n
      → (0 < n)
        × (n ≤ chunk)
        × Copies W C S D (within offset n) w (copy_chunk W progress job offset chunk w).1
  unfolding copy_chunk
  copy_chunk-copies offset chunk w {n} apart h =
      let (u1, s1, h1, at1) =
        bind-eq-ok (seek W job.source offset job.from)
          (λ u. seek W job.destination offset job.to >> transfer W progress job chunk) w h in
      let (u2, s2, h2, at2) =
        bind-eq-ok (seek W job.destination offset job.to) (λ u. transfer W progress job chunk) _
          h1 in
      let (p1, p2, same) = sought offset w apart s1 s2 in
      let (more, few, copied) = transfer-copies offset chunk _ apart p1 p2 h2 in
      (more, few, rw (at1, at2) (Copies-after W C S D (within offset n) w _ _ same copied))
