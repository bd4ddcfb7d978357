-- ===== src/Platform/SparseCopy.antt =====
-- src/lib/platform/filesystem.cpp: the allocated ranges of a file, and a copy that keeps its holes.
-- The progress callback may read and change the world; it says whether to go on.
pub mod Contents
pub mod Querying
pub mod Copied
pub mod Ranges
pub mod Whole
use wsldisk.Base.{
  ℕ, zero, suc, ◌+◌, ◌-◌, ◌%◌, ◌^◌, Bytes, txt, fmt, decimal, Bool, true, false, Option, none, some,
  List, [], ◌∷◌, ◌++◌, ltb, ◌==◌, min, if◌then◌else◌, length,
}
use wsldisk.Errors.{generic, partial, Result, ok, err, fail, Status}
use wsldisk.Effects.{M, ◌>>=◌, ◌>>◌, pure}
use wsldisk.WinPath.{FilePath}
use wsldisk.Interfaces.{AllocatedRange}
use wsldisk.Platform.Win32Error.{error_more_data, error_from_win32}
use wsldisk.Platform.Win32.{
  Win32, Opening, open_existing, create_new, Rounds, answered, done, scoped, scoped_rounds,
}
use wsldisk.Platform.FileSystem.{file_size, reading}

abbrev pub copy_chunk_bytes : ℕ
copy_chunk_bytes = 1048576

-- What is opened to ask for the ranges: it keeps nobody else out.
abbrev pub sharing : Opening
sharing = record reading { share_write = true; share_delete = true }

abbrev pub creating : Opening
creating = record {
  reads = true;
  writes = true;
  share_read = false;
  share_write = false;
  share_delete = false;
  disposition = create_new;
}

-- The end of the last range of an answer; `none` if there is no range.
unfoldable pub last_end : List AllocatedRange → Option ℕ
last_end [] = none
last_end (range ∷ []) = some ((range.offset + range.length) % 2 ^ 64)
last_end (range ∷ next ∷ ranges) = last_end (next ∷ ranges)

-- std::accumulate, on std::uint64_t.
unfoldable pub total_of : List AllocatedRange → ℕ → ℕ
total_of [] sum = sum
total_of (range ∷ ranges) sum = total_of ranges ((sum + range.length) % 2 ^ 64)

-- CopyJob, but for the buffer, which is its length.
pub record CopyJob (H : Type 0) : Type 0 where
  pub source : H
  pub destination : H
  pub from : FilePath
  pub to : FilePath
  pub total : ℕ

module _ (W : Win32) where
  unfoldable pub seek : W.Handle → ℕ → FilePath → M W.World (Unit {0})
  seek file offset path =
      done W (W.set_file_pointer_ex file offset)
        (fmt (txt "seek in " ∷ W.path_string path ∷ txt " to " ∷ decimal offset ∷ []))

  unfoldable pub resize : W.Handle → ℕ → FilePath → M W.World (Unit {0})
  unfolding seek
  resize file length path =
      seek file length path
      >> done W (W.set_end_of_file file)
          (fmt (txt "set the length of " ∷ W.path_string path ∷ txt " to " ∷ decimal length ∷ []))

  -- What a query answered: whether it was complete, the status, and the ranges.
  abbrev status_of : Bool → W.World → ℕ
  status_of complete w = if complete then 0 else W.get_last_error w

  -- The loop of allocated_ranges.
  unfoldable pub query_loop :
      ℕ → W.Handle → FilePath → ℕ → ℕ → List AllocatedRange → Rounds W.World (List AllocatedRange)
  unfolding last_end
  query_loop zero file path size offset ranges w =
      if ltb offset size then none else some (ok ranges, w)
  query_loop (suc rounds) file path size offset ranges w =
      let r = W.query_allocated_ranges file offset (size - offset) w in
      let status = status_of r.0.0 r.1 in
      let more : Option (Result (List AllocatedRange) × W.World) = elim (last_end r.0.1) [
        | none ↦ some (ok (ranges ++ r.0.1), r.1)
        | some next ↦ query_loop rounds file path size next (ranges ++ r.0.1) r.1
      ] in
      if ltb offset size
      then (if r.0.0
          then some (ok (ranges ++ r.0.1), r.1)
          else if status == error_more_data
          then more
          else some (
            err (
                error_from_win32 status
                  (fmt (txt "read the allocated ranges of " ∷ W.path_string path ∷ []))),
            r.1,
          ))
      else some (ok ranges, w)

  unfoldable pub allocated_ranges : ℕ → FilePath → Rounds W.World (List AllocatedRange)
  unfolding query_loop file_size
  allocated_ranges rounds path w =
      let size = file_size W path w in
      elim size.0 [
        | err e ↦ some (err e, size.1)
        | ok zero ↦ some (ok [], size.1)
        | ok (suc n) ↦
            let r =
              answered W (W.create_file path sharing) (fmt (txt "open " ∷ W.path_string path ∷ []))
                size.1 in
            elim r.0 [
              | err e ↦ some (err e, r.1)
              | ok file ↦ scoped_rounds W file (query_loop rounds file path (suc n) 0 []) r.1
            ]
      ]

  module _ (progress : ℕ → ℕ → W.World → Bool × W.World) where
    -- What was read is written, if anything was.
    unfoldable pub write_chunk : CopyJob W.Handle → Bytes → M W.World ℕ
    unfolding fail
    write_chunk job [] w = (
      fail generic (fmt (W.path_string job.from ∷ txt " ended earlier than expected" ∷ []))
          (txt "something else is writing to the file; stop it and try again"),
      w,
    )
    write_chunk job (c ∷ bytes) w =
        let r =
          answered W (W.write_file job.destination (c ∷ bytes))
            (fmt (txt "write " ∷ W.path_string job.to ∷ [])) w in
        (
          elim r.0 [
            | err e ↦ err e
            | ok written ↦
                if written == length (c ∷ bytes)
                then ok written
                else fail generic
                    (fmt (W.path_string job.to ∷ txt " accepted only part of a write" ∷ []))
                    (txt "the volume may be full; check the free space and try again")
          ],
          r.1,
        )

    unfoldable pub transfer : CopyJob W.Handle → ℕ → M W.World ℕ
    unfolding write_chunk
    transfer job chunk =
        answered W (W.read_file job.source chunk) (fmt (txt "read " ∷ W.path_string job.from ∷ []))
        >>= write_chunk job

    -- One round of the loop of copy_range: how much was copied.
    unfoldable pub copy_chunk : CopyJob W.Handle → ℕ → ℕ → M W.World ℕ
    unfolding seek transfer
    copy_chunk job offset chunk =
        seek job.source offset job.from
        >> (seek job.destination offset job.to >> transfer job chunk)

    -- Told of the progress, the callback may stop the copy.
    unfoldable pub go_on : CopyJob W.Handle → ℕ → M W.World (Unit {0})
    unfolding fail
    go_on job copied w =
        let r = progress copied job.total w in
        (
          if r.0
              then ok tt
              else fail partial
                  (fmt (txt "copying " ∷ W.path_string job.from ∷ txt " was cancelled" ∷ []))
                  (fmt (W.path_string job.to ∷ txt " is a partial copy and can be deleted" ∷ [])),
          r.1,
        )

    -- The loop of copy_range, to the end of the range; it returns job.copied.
    unfoldable pub copy_loop : ℕ → CopyJob W.Handle → ℕ → ℕ → ℕ → Rounds W.World ℕ
    unfolding copy_chunk go_on
    copy_loop zero job end offset copied w = if ltb offset end then none else some (ok copied, w)
    copy_loop (suc rounds) job end offset copied w =
        let r = copy_chunk job offset (min (end - offset) copy_chunk_bytes) w in
        let next : Option (Result ℕ × W.World) = elim r.0 [
          | err e ↦ some (err e, r.1)
          | ok read ↦
              let now = (copied + read) % 2 ^ 64 in
              let told = go_on job now r.1 in
              let rest = copy_loop rounds job end ((offset + read) % 2 ^ 64) now told.1 in
              elim told.0 [ err e ↦ some (err e, told.1) | ok u ↦ rest ]
        ] in
        if ltb offset end then next else some (ok copied, w)

    -- The rounds are as many as the range has bytes.
    unfoldable pub copy_range : CopyJob W.Handle → AllocatedRange → ℕ → Rounds W.World ℕ
    unfolding copy_loop
    copy_range job range copied =
        copy_loop range.length job ((range.offset + range.length) % 2 ^ 64) range.offset copied

    unfoldable pub copy_ranges :
        CopyJob W.Handle → List AllocatedRange → ℕ → Rounds W.World (Unit {0})
    unfolding copy_range
    copy_ranges job [] copied w = some (ok tt, w)
    copy_ranges job (range ∷ ranges) copied w = elim (copy_range job range copied w) [
      | none ↦ none
      | some r ↦ elim r.0 [ err e ↦ some (err e, r.1) | ok now ↦ copy_ranges job ranges now r.1 ]
    ]

    -- What is done with the two open files.
    unfoldable pub fill : CopyJob W.Handle → ℕ → List AllocatedRange → Rounds W.World (Unit {0})
    unfolding resize copy_ranges
    fill job size ranges w =
        let r =
          (done W (W.set_sparse job.destination)
                (fmt (txt "make " ∷ W.path_string job.to ∷ txt " a sparse file" ∷ []))
              >> resize job.destination size job.to)
            w in
        elim r.0 [ err e ↦ some (err e, r.1) | ok u ↦ copy_ranges job ranges 0 r.1 ]

    -- The source is open; the destination must be new.
    unfoldable pub create_copy :
        W.Handle → FilePath → FilePath → ℕ → List AllocatedRange → Rounds W.World (Unit {0})
    unfolding fill total_of
    create_copy source from to size ranges w =
        let r =
          answered W (W.create_file to creating) (fmt (txt "create " ∷ W.path_string to ∷ [])) w in
        elim r.0 [
          | err e ↦ some (err e, r.1)
          | ok destination ↦
              scoped_rounds W destination
                (fill
                  (record {
                    source = source;
                    destination = destination;
                    from = from;
                    to = to;
                    total = total_of ranges 0;
                  })
                  size ranges)
                r.1
        ]

    unfoldable pub copy_measured :
        FilePath → FilePath → ℕ → List AllocatedRange → Rounds W.World (Unit {0})
    unfolding create_copy
    copy_measured from to size ranges w =
        let r =
          answered W (W.create_file from reading) (fmt (txt "open " ∷ W.path_string from ∷ [])) w in
        elim r.0 [
          | err e ↦ some (err e, r.1)
          | ok source ↦ scoped_rounds W source (create_copy source from to size ranges) r.1
        ]

    -- `rounds` are those of the query.
    unfoldable pub copy_file_sparse : ℕ → FilePath → FilePath → Rounds W.World (Unit {0})
    unfolding allocated_ranges copy_measured file_size
    copy_file_sparse rounds from to w = elim (allocated_ranges rounds from w) [
      | none ↦ none
      | some r ↦ elim r.0 [
        | err e ↦ some (err e, r.1)
        | ok ranges ↦
            let size = file_size W from r.1 in
            elim size.0 [
              | err e ↦ some (err e, size.1)
              | ok n ↦ copy_measured from to n ranges size.1
            ]
      ]
    ]
