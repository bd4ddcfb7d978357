-- ===== src/Tests/Volume.antt =====
-- A small volume: the Win32 functions over files in memory, for the tests of src/lib/platform, that
-- keep what `Contents` and `Allocations` ask.
use wsldisk.Base.{
  ℕ, zero, suc, ◌+◌, ◌-◌, ◌^◌, ◌≤◌, ◌<◌, Bytes, Bool, true, false, Option, none, some, List, [],
  ◌∷◌, ◌++◌, ◌*◌, ltb, ◌==◌, if◌then◌else◌, length, ◌≡◌, ◌≢◌, ◌∙◌, refl, sym, arith, inl, inr,
  Bool-cases, All,
}
use wsldisk.WinPath.{Wide, FilePath, take_units, drop_units}
use wsldisk.Interfaces.{AllocatedRange}
use wsldisk.Platform.Win32Error.{error_io_pending}
use wsldisk.Platform.Win32.{
  Coded, code, given, Win32, Opening, open_existing, create_new, create_always, signaled, elapsed,
  DiskStatus,
}
use wsldisk.Platform.FileSystem.{combine}
use wsldisk.Platform.SparseCopy.{copy_file_sparse}
use wsldisk.Platform.SparseCopy.Contents.{
  Contents, Allocations, Fits, byte_at, cell_at, present, filled, within,
}
use wsldisk.Platform.SparseCopy.Whole.{CopiedWhole, copy_file_sparse-copies}

-- The bytes of each file, and where the pointer of its handle stands; which handles are held,
-- whether a pipe has something to read, how often a compaction is still found pending, and the strings of the registry. A file or a key, and its
-- handle, is the length of its path, and a value the length of its name.
pub record Volume : Type 0 where
  pub files : ℕ → Bytes
  pub pointers : ℕ → ℕ
  pub held : ℕ → ℕ
  pub unread : Bool
  pub pending : ℕ
  pub texts : ℕ → ℕ → Option Wide

unfoldable pub overlay : Bytes → Bytes → Bytes
overlay [] file = file
overlay (c ∷ text) [] = c ∷ overlay text []
overlay (c ∷ text) (x ∷ file) = c ∷ overlay text file

unfoldable pub put : ℕ → Bytes → Bytes → Bytes
unfolding overlay
put zero text file = overlay text file
put (suc p) text [] = 0 ∷ put p text []
put (suc p) text (x ∷ file) = x ∷ put p text file

-- A file cut off, or lengthened with zeroes.
unfoldable pub resized : ℕ → Bytes → Bytes
resized zero file = []
resized (suc n) [] = 0 ∷ resized n []
resized (suc n) (x ∷ file) = x ∷ resized n file

cell_at-resized :
    (n : ℕ) (file : Bytes) (i : ℕ)
    → cell_at (resized n file) i ≡ (if ltb i n then some (filled (cell_at file i)) else none)
unfolding resized cell_at
cell_at-resized zero file i = ground arith
cell_at-resized (suc n) [] zero = ground arith
cell_at-resized (suc n) [] (suc i) = ground (arith, cell_at-resized n [] i)
cell_at-resized (suc n) (x ∷ file) zero = ground arith
cell_at-resized (suc n) (x ∷ file) (suc i) = ground (arith, cell_at-resized n file i)

cell_at-overlay :
    (text file : Bytes) (i : ℕ)
    → cell_at (overlay text file) i
      ≡ (if ltb i (length text) then some (byte_at text i) else cell_at file i)
unfolding overlay byte_at cell_at
cell_at-overlay [] file i = ground arith
cell_at-overlay (c ∷ text) [] zero = ground arith
cell_at-overlay (c ∷ text) [] (suc i) = ground (arith, cell_at-overlay text [] i)
cell_at-overlay (c ∷ text) (x ∷ file) zero = ground arith
cell_at-overlay (c ∷ text) (x ∷ file) (suc i) = ground (arith, cell_at-overlay text file i)

cell_at-put :
    (p : ℕ) (text file : Bytes) (i : ℕ)
    → ((j : ℕ) → j < p → present (cell_at file j) ≡ true)
    → cell_at (put p text file) i
      ≡ (if within p (length text) i then some (byte_at text (i - p)) else cell_at file i)
unfolding put byte_at cell_at
cell_at-put zero text file i h = ground (arith, cell_at-overlay text file i)
cell_at-put (suc p) text [] i h = absurd (ground (arith, h 0 (omega arith)))
cell_at-put (suc p) text (x ∷ file) zero h = ground arith
cell_at-put (suc p) text (x ∷ file) (suc i) h =
    ground (arith, cell_at-put p text file i (λ j less. h (suc j) (omega (arith, less))))

cell_at-contiguous :
    (file : Bytes) (i j : ℕ)
    → present (cell_at file i) ≡ true
    → j ≤ i
    → present (cell_at file j) ≡ true
unfolding cell_at
cell_at-contiguous [] i j h le = absurd (ground arith)
cell_at-contiguous (x ∷ file) i zero h le = refl
cell_at-contiguous (x ∷ file) zero (suc j) h le = absurd (omega (arith, le))
cell_at-contiguous (x ∷ file) (suc i) (suc j) h le =
    cell_at-contiguous file i j h (omega (arith, le))

present-cell_at : (file : Bytes) (i : ℕ) → present (cell_at file i) ≡ ltb i (length file)
unfolding cell_at
present-cell_at [] i = ground arith
present-cell_at (x ∷ file) zero = ground arith
present-cell_at (x ∷ file) (suc i) = ground (arith, present-cell_at file i)

abbrev pub window : ℕ → ℕ → Bytes → Bytes
window p count file = take_units count (drop_units p file)

cell_at-drop : (p : ℕ) (file : Bytes) (k : ℕ) → cell_at (drop_units p file) k ≡ cell_at file (p + k)
unfolding drop_units cell_at
cell_at-drop zero file k = ground arith
cell_at-drop (suc p) [] k = ground arith
cell_at-drop (suc p) (x ∷ file) k = ground (arith, cell_at-drop p file k)

length-take : (count : ℕ) (file : Bytes) → length (take_units count file) ≤ count
unfolding take_units
length-take zero file = omega arith
length-take (suc count) [] = omega arith
length-take (suc count) (x ∷ file) = omega (arith, length-take count file)

byte_at-take :
    (count : ℕ) (file : Bytes) (k : ℕ)
    → k < length (take_units count file)
    → some (byte_at (take_units count file) k) ≡ cell_at file k
unfolding take_units byte_at cell_at
byte_at-take zero file k h = absurd (omega (arith, h))
byte_at-take (suc count) [] k h = absurd (omega (arith, h))
byte_at-take (suc count) (x ∷ file) zero h = refl
byte_at-take (suc count) (x ∷ file) (suc k) h = byte_at-take count file k (omega (arith, h))

abbrev pub with_bytes : ℕ → Bytes → Volume → Volume
with_bytes n bytes v = record v { files = λ m. if n == m then bytes else v.files m }

abbrev pub opened : FilePath → Opening → Volume → Option ℕ × Volume
opened path o v = elim o.disposition [
  | open_existing ↦ (some (length path), v)
  | create_new ↦ (some (length path), with_bytes (length path) [] v)
  | create_always ↦ (none, v)
]

abbrev pub sized : FilePath → Volume → Option (ℕ × ℕ) × Volume
sized path v =
    let size = length (v.files (length path)) in
    (if ltb size (2 ^ 32) then some (0, size) else none, v)

abbrev pub asked : ℕ → ℕ → ℕ → Volume → (Bool × List AllocatedRange) × Volume
asked h offset count v =
    if ltb (offset + count) (2 ^ 64)
    then ((true, record { offset = offset; length = count } ∷ []), v)
    else ((false, []), v)

abbrev pub disk_status : Volume → DiskStatus
disk_status v = record {
  operation_status = if v.pending == 0 then 0 else error_io_pending;
  current_value = 1;
  completion_value = 4;
}

abbrev pub nearer : Volume → Volume
nearer v = record v { pending = v.pending - 1 }

abbrev pub size_of : Option Wide → Coded (ℕ × ℕ)
size_of none = code 2
size_of (some text) = given (1, length text * 2)

abbrev pub text_of : Option Wide → Coded Wide
text_of none = code 2
text_of (some text) = given text

abbrev pub with_text : ℕ → ℕ → Wide → Volume → Volume
with_text k n text v = record v {
  texts = λ j m. if k == j then (if n == m then some text else v.texts j m) else v.texts j m;
}

abbrev pub dropped : ℕ → Volume → Volume
dropped h v = record v { held = λ k. v.held k - (if k == h then 1 else 0) }

abbrev pub taken : ℕ → Volume → Volume
taken h v = record v { held = λ k. v.held k + (if k == h then 1 else 0) }

abbrev pub volume : Win32
volume = record {
  World = Volume;
  Handle = ℕ;
  get_last_error = λ v. 0;
  close_handle = λ h v. dropped h v;
  get_file_attributes = λ path v. (none, v);
  get_file_attributes_ex = sized;
  get_compressed_file_size = λ path v. ((0, 0), v);
  get_volume_path_name = λ path v. (none, v);
  get_disk_free_space_ex = λ root v. (none, v);
  get_volume_information = λ root v. (none, v);
  find_first_file_ex = λ path v. (none, v);
  find_next_file = λ h v. (none, v);
  find_close = λ h v. v;
  create_file = opened;
  query_allocated_ranges = asked;
  set_sparse = λ h v. (true, v);
  delete_file = λ path v. (false, v);
  move_file_ex = λ from to v. (false, v);
  create_directory = λ path v. (false, v);
  expand_environment_strings = λ text count v. ((0, []), v);
  read_file =
      λ h count v. (some (window (v.pointers h) count (v.files h)), record v { unread = false });
  write_file =
      λ h text v. (some (length text), with_bytes h (put (v.pointers h) text (v.files h)) v);
  set_file_pointer_ex =
      λ h offset v. (true, record v { pointers = λ m. if h == m then offset else v.pointers m });
  set_end_of_file = λ h v. (true, with_bytes h (resized (v.pointers h) (v.files h)) v);
  create_pipe = λ v. (some (100, 101), taken 101 (taken 100 v));
  set_handle_information = λ h v. (true, v);
  create_process = λ line handles v. (some (102, 103), taken 103 (taken 102 v));
  peek_named_pipe = λ h v. (if v.unread then some 1 else none, v);
  wait_for_single_object = λ h t v. (if h == 102 then signaled else elapsed, v);
  get_exit_code_process = λ h v. (some 0, v);
  terminate_process = λ h code v. v;
  sleep = λ t v. v;
  create_event = λ v. (none, v);
  compact_virtual_disk = λ h event v. (0, v);
  get_virtual_disk_operation_progress = λ h v. ((0, disk_status v), nearer v);
  cancel_io_ex = λ h v. v;
  open_virtual_disk = λ path v. (code 2, v);
  create_virtual_disk = λ path size v. (code 5, v);
  get_virtual_disk_sizes = λ h v. (code 6, v);
  get_virtual_disk_parent = λ h size v. ((6, 0, []), v);
  info_size = 32;
  info_header = 12;
  reg_open_key_ex = λ root key writing v. (given (length key), v);
  reg_close_key = λ h v. v;
  reg_enum_key_ex = λ h index v. (code 259, v);
  reg_query_size = λ h name v. (size_of (v.texts h (length name)), v);
  reg_query_text = λ h name count v. (text_of (v.texts h (length name)), v);
  reg_query_number = λ h name v. (code 2, v);
  reg_set_text = λ h name content bytes v. (0, with_text h (length name) (content ++ 0 ∷ []) v);
  path_string = λ path. path;
}

names :
    (path : FilePath) (o : Opening) (v : Volume) (h : ℕ)
    → (opened path o v).0 ≡ some h
    → h ≡ length path
names path o v h e = ground arith

keeps_open :
    (path : FilePath) (o : Opening) (v : Volume) (n i : ℕ)
    → o.disposition ≡ open_existing
    → cell_at ((opened path o v).1.files n) i ≡ cell_at (v.files n) i
keeps_open path o v n i e = rw e refl

keeps_others :
    (path : FilePath) (o : Opening) (v : Volume) (n i : ℕ)
    → length path ≢ n
    → cell_at ((opened path o v).1.files n) i ≡ cell_at (v.files n) i
keeps_others path o v n i apart = ground arith

starts_empty :
    (path : FilePath) (o : Opening) (v : Volume) (h i : ℕ)
    → o.disposition ≡ create_new
    → (opened path o v).0 ≡ some h
    → cell_at ((opened path o v).1.files (length path)) i ≡ none
unfolding cell_at
starts_empty path o v h i e _ = rw e (ground arith)

reads :
    (h count : ℕ) (v : Volume) (text : Bytes)
    → (volume.read_file h count v).0 ≡ some text
    → (length text ≤ count)
      × ((k : ℕ) → k < length text → some (byte_at text k) ≡ cell_at (v.files h) (v.pointers h + k))
reads h count v text e =
    let given : window (v.pointers h) count (v.files h) ≡ text = ground arith in
    rw (sym given) (
      length-take count (drop_units (v.pointers h) (v.files h)),
      λ k less.
          byte_at-take count (drop_units (v.pointers h) (v.files h)) k less
          ∙ cell_at-drop (v.pointers h) (v.files h) k,
    )

abbrev volume-Contents : Contents volume
volume-Contents = record {
  place = λ path. length path;
  file = λ h. h;
  byte = λ n v i. cell_at (v.files n) i;
  pointer = λ h v. v.pointers h;
  opens = names;
  opening_keeps = keeps_open;
  creating_keeps = keeps_others;
  new_is_empty = starts_empty;
  attributes_keep = λ path v n i. refl;
  query_keeps = λ h offset count v n i. ground arith;
  sparse_keeps = λ h v n i. refl;
  close_keeps = λ h v n i. refl;
  end_keeps = λ h v n i apart. ground arith;
  end_sets = λ h v i e. ground (arith, cell_at-resized (v.pointers h) (v.files h) i);
  contiguous = λ n i j v. cell_at-contiguous (v.files n) i j;
  seek_moves = λ h offset v e. ground arith;
  seek_others = λ h other offset v apart. ground arith;
  seek_keeps = λ h offset v n i. refl;
  read_gives = reads;
  read_others = λ h other count v apart. refl;
  read_keeps = λ h count v n i. refl;
  write_sets =
      λ h text v i e reached. ground (arith, cell_at-put (v.pointers h) text (v.files h) i reached);
  write_keeps = λ h text v n i apart. ground arith;
}

bounded :
    (path : FilePath) (v : Volume) (high low : ℕ)
    → (sized path v).0 ≡ some (high, low)
    → (combine high low < 2 ^ 64)
      × ((i : ℕ) → present (cell_at (v.files (length path)) i) ≡ ltb i (combine high low))
bounded path v high low e =
    let small : (high ≡ 0) × (low ≡ length (v.files (length path))) × (low < 2 ^ 32) =
      ground arith in
    (omega (arith, small), λ i. ground (arith, small, present-cell_at (v.files (length path)) i))

fitting : (h offset count : ℕ) (v : Volume) → All Fits (asked h offset count v).0.1
fitting h offset count v = elim (Bool-cases (ltb (offset + count) (2 ^ 64))) [
  | inl e ↦ rw e (ground arith, tt)
  | inr e ↦ rw e tt
]

abbrev volume-Allocations : Allocations volume volume-Contents
volume-Allocations = record {
  sizes = bounded;
  answers_fit = fitting;
  complete_answer = λ h offset count v i e low high out. absurd (ground arith);
  partial_answer = λ h offset count v e more. absurd (ground arith);
}

-- A file of five bytes at a path of length 1, and another at one of length 2.
abbrev pub two_files : Volume
two_files = record {
  files = λ n. if n == 1 then 3 ∷ 0 ∷ 0 ∷ 4 ∷ 5 ∷ [] else if n == 100 then 65 ∷ [] else [];
  pointers = λ h. 0;
  held = λ k. 0;
  unread = true;
  pending = 2;
  texts = λ k n. none;
}

abbrev pub here : FilePath
here = b'a' ∷ []

abbrev pub there : FilePath
there = b'b' ∷ b'c' ∷ []

copy_file_sparse-copies_example :
    CopiedWhole volume volume-Contents
      (λ now total v. (true, v))
      (λ now total v n i. refl)
      1
      2
      two_files
      (copy_file_sparse volume (λ now total v. (true, v)) (2 ^ 64) here there two_files)
copy_file_sparse-copies_example =
    copy_file_sparse-copies volume volume-Contents (λ now total v. (true, v))
      (λ now total v n i. refl) here there (omega arith) volume-Allocations (2 ^ 64) two_files
      (omega arith)
