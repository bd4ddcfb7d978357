-- ===== src/Platform/SparseCopy/Contents.antt =====
-- What the proofs about the sparse copy assume of the Win32 functions that it calls: which bytes a
-- file has, and where the pointer of an open handle stands, as Windows documents them.
use wsldisk.Base.{
  ℕ, zero, suc, ◌+◌, ◌-◌, ◌≤◌, ◌<◌, Bytes, Bool, true, false, ◌&&◌, ◌||◌, ◌++◌, ◌^◌, All, refl,
  arith, Option, none, some, List, [], ◌∷◌, ltb, leb, if◌then◌else◌, length, ◌≡◌, ◌≢◌,
}
use wsldisk.WinPath.{FilePath}
use wsldisk.Interfaces.{AllocatedRange}
use wsldisk.Platform.Win32Error.{error_more_data}
use wsldisk.Platform.FileSystem.{combine}
use wsldisk.Platform.SparseCopy.{last_end}
use wsldisk.Platform.Win32.{Win32, Opening, open_existing, create_new}

-- The byte at an index; 0 behind the end.
unfoldable pub byte_at : Bytes → ℕ → ℕ
byte_at [] i = 0
byte_at (c ∷ s) zero = c
byte_at (c ∷ s) (suc i) = byte_at s i

-- The byte at an index; nothing behind the end.
unfoldable pub cell_at : Bytes → ℕ → Option ℕ
cell_at [] i = none
cell_at (c ∷ s) zero = some c
cell_at (c ∷ s) (suc i) = cell_at s i

-- Whether there is a byte, and what it is; 0 where there is none.
abbrev pub present : Option ℕ → Bool
present none = false
present (some c) = true

abbrev pub filled : Option ℕ → ℕ
filled none = 0
filled (some c) = c

-- Whether an offset is one of the `count` from `start` on.
abbrev pub within : ℕ → ℕ → ℕ → Bool
within start count i = leb start i && ltb i (start + count)

-- `byte n w i` is the byte at the offset i of the file that stands at the place n, and `none` behind
-- its end, so that it tells the length of the file as well. A handle names one file for as long as it lives.
pub record Contents (W : Win32) : Type 0 where
  pub place : FilePath → ℕ
  pub file : W.Handle → ℕ
  pub byte : ℕ → W.World → ℕ → Option ℕ
  pub pointer : W.Handle → W.World → ℕ
  pub opens :
      (path : FilePath) (o : Opening) (w : W.World) (h : W.Handle)
      → (W.create_file path o w).0 ≡ some h
      → file h ≡ place path
  pub opening_keeps :
      (path : FilePath) (o : Opening) (w : W.World) (n i : ℕ)
      → o.disposition ≡ open_existing
      → byte n (W.create_file path o w).1 i ≡ byte n w i
  pub creating_keeps :
      (path : FilePath) (o : Opening) (w : W.World) (n i : ℕ)
      → place path ≢ n
      → byte n (W.create_file path o w).1 i ≡ byte n w i
  -- A file that CREATE_NEW made is empty.
  pub new_is_empty :
      (path : FilePath) (o : Opening) (w : W.World) (h : W.Handle) (i : ℕ)
      → o.disposition ≡ create_new
      → (W.create_file path o w).0 ≡ some h
      → byte (place path) (W.create_file path o w).1 i ≡ none
  pub attributes_keep :
      (path : FilePath) (w : W.World) (n i : ℕ)
      → byte n (W.get_file_attributes_ex path w).1 i ≡ byte n w i
  pub query_keeps :
      (h : W.Handle) (offset count : ℕ) (w : W.World) (n i : ℕ)
      → byte n (W.query_allocated_ranges h offset count w).1 i ≡ byte n w i
  pub sparse_keeps :
      (h : W.Handle) (w : W.World) (n i : ℕ) → byte n (W.set_sparse h w).1 i ≡ byte n w i
  pub close_keeps :
      (h : W.Handle) (w : W.World) (n i : ℕ) → byte n (W.close_handle h w) i ≡ byte n w i
  -- The file ends at the pointer: what it gains reads as zero, and what it loses is gone.
  pub end_keeps :
      (h : W.Handle) (w : W.World) (n i : ℕ)
      → file h ≢ n
      → byte n (W.set_end_of_file h w).1 i ≡ byte n w i
  pub end_sets :
      (h : W.Handle) (w : W.World) (i : ℕ)
      → (W.set_end_of_file h w).0 ≡ true
      → byte (file h) (W.set_end_of_file h w).1 i
        ≡ (if ltb i (pointer h w) then some (filled (byte (file h) w i)) else none)
  -- A file has no gap.
  pub contiguous :
      (n i j : ℕ) (w : W.World) → present (byte n w i) ≡ true → j ≤ i → present (byte n w j) ≡ true
  pub seek_moves :
      (h : W.Handle) (offset : ℕ) (w : W.World)
      → (W.set_file_pointer_ex h offset w).0 ≡ true
      → pointer h (W.set_file_pointer_ex h offset w).1 ≡ offset
  pub seek_others :
      (h other : W.Handle) (offset : ℕ) (w : W.World)
      → file h ≢ file other
      → pointer other (W.set_file_pointer_ex h offset w).1 ≡ pointer other w
  pub seek_keeps :
      (h : W.Handle) (offset : ℕ) (w : W.World) (n i : ℕ)
      → byte n (W.set_file_pointer_ex h offset w).1 i ≡ byte n w i
  -- A read gives at most what was asked for, from the pointer on.
  pub read_gives :
      (h : W.Handle) (count : ℕ) (w : W.World) (data_read : Bytes)
      → (W.read_file h count w).0 ≡ some data_read
      → (length data_read ≤ count)
        × ((k : ℕ)
            → k < length data_read
            → some (byte_at data_read k) ≡ byte (file h) w (pointer h w + k))
  pub read_others :
      (h other : W.Handle) (count : ℕ) (w : W.World)
      → file h ≢ file other
      → pointer other (W.read_file h count w).1 ≡ pointer other w
  pub read_keeps :
      (h : W.Handle) (count : ℕ) (w : W.World) (n i : ℕ)
      → byte n (W.read_file h count w).1 i ≡ byte n w i
  -- A write that wrote all it was given, and that began no further than the end of the file, sets those
  -- bytes and no other.
  pub write_sets :
      (h : W.Handle) (text : Bytes) (w : W.World) (i : ℕ)
      → (W.write_file h text w).0 ≡ some (length text)
      → ((j : ℕ) → j < pointer h w → present (byte (file h) w j) ≡ true)
      → byte (file h) (W.write_file h text w).1 i ≡ (
          if within (pointer h w) (length text) i
          then some (byte_at text (i - pointer h w))
          else byte (file h) w i)
  pub write_keeps :
      (h : W.Handle) (text : Bytes) (w : W.World) (n i : ℕ)
      → file h ≢ n
      → byte n (W.write_file h text w).1 i ≡ byte n w i

-- A range as the ioctl answers it: its end is a 64-bit number.
abbrev pub Fits : AllocatedRange → Type 0
Fits range = range.offset + range.length < 2 ^ 64

-- Whether an offset is in one of the ranges.
abbrev pub covered : List AllocatedRange → ℕ → Bool
covered [] i = false
covered (range ∷ ranges) i = within range.offset range.length i || covered ranges i

pub covered-append :
    (first second : List AllocatedRange) (i : ℕ)
    → covered (first ++ second) i ≡ (covered first i || covered second i)
covered-append [] second i = refl
covered-append (range ∷ first) second i = ground (arith, covered-append first second i)

-- What the ioctl that asks for ranges promises, and what the size of a file is.
pub record Allocations (W : Win32) (C : Contents W) : Type 0 where
  pub sizes :
      (path : FilePath) (w : W.World) (high low : ℕ)
      → (W.get_file_attributes_ex path w).0 ≡ some (high, low)
      → (combine high low < 2 ^ 64)
        × ((i : ℕ) → present (C.byte (C.place path) w i) ≡ ltb i (combine high low))
  pub answers_fit :
      (h : W.Handle) (offset count : ℕ) (w : W.World)
      → All Fits (W.query_allocated_ranges h offset count w).0.1
  -- A complete answer leaves out only zeroes.
  pub complete_answer :
      (h : W.Handle) (offset count : ℕ) (w : W.World) (i : ℕ)
      → (W.query_allocated_ranges h offset count w).0.0 ≡ true
      → offset ≤ i
      → i < offset + count
      → covered (W.query_allocated_ranges h offset count w).0.1 i ≡ false
      → filled (C.byte (C.file h) w i) ≡ 0
  -- An answer for which there was no more room has ranges, and leaves out only zeroes up to its end.
  pub partial_answer :
      (h : W.Handle) (offset count : ℕ) (w : W.World)
      → (W.query_allocated_ranges h offset count w).0.0 ≡ false
      → W.get_last_error (W.query_allocated_ranges h offset count w).1 ≡ error_more_data
      → (next : ℕ) × (last_end (W.query_allocated_ranges h offset count w).0.1 ≡ some next)
        × (offset < next)
        × ((i : ℕ)
            → offset ≤ i
            → i < next
            → covered (W.query_allocated_ranges h offset count w).0.1 i ≡ false
            → filled (C.byte (C.file h) w i) ≡ 0)
