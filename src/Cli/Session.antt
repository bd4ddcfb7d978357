-- ===== src/Cli/Session.antt =====
-- src/cli: what a command runs over, progress.cpp, logger.cpp, preflight.cpp and report of app.cpp.
-- nlohmann::json's dump is the parameter `dump`; the text written to a stream is its list of bytes.
use wsldisk.Base.{
  ℕ, zero, suc, ◌+◌, ◌*◌, ◌/◌, ◌%◌, ◌^◌, Bytes, txt, fmt, is_empty, decimal, Bool, List, [], ◌∷◌,
  ◌++◌, ◌==◌, if◌then◌else◌, length,
}
use wsldisk.Errors.{Error, Result, to_string, error_code_name, exit_code_for}
use wsldisk.Effects.{M}
use wsldisk.Interfaces.{DiskProgress}
use wsldisk.Ops.Operation.{
  Event, step_started, step_finished, step_progress, message, status, Context,
}

-- A value inside an array's object.
pub data Scalar : Type 0 where
  word : Bytes → Scalar
  count : ℕ → Scalar
  truth : Bool → Scalar

-- The values that the commands put in a JSON object.
pub data Json : Type 0 where
  text : Bytes → Json
  number : ℕ → Json
  flag : Bool → Json
  texts : List Bytes → Json
  objects : List (List (Bytes × Bytes)) → Json
  nested : List (Bytes × Bytes) → Json
  records : List (List (Bytes × Scalar)) → Json

-- The keys in the order in which they are set.
abbrev pub JsonObject : Type 0
JsonObject = List (Bytes × Json)

pub record GlobalOptions : Type 0 where
  pub json : Bool
  pub verbose : Bool
  pub assume_yes : Bool
  pub dry_run : Bool

pub data LogEntry : Type 0 where
  verbose : Bytes → LogEntry
  warn : Bytes → LogEntry

-- The world outside, the two streams, the calls of the logger, and how wide a line the console sink
-- has to erase.
pub record Session (W : Type 0) : Type 0 where
  pub world : W
  pub out : Bytes
  pub errors : Bytes
  pub log : List LogEntry
  pub transient_width : ℕ

abbrev line_end : Bytes
line_end = 10 ∷ []

-- One call of StreamLogger: what goes to the console's stream, and to the log file if there is one.
unfoldable pub logged_to_stream : Bool → LogEntry → Bytes
logged_to_stream verbose_enabled (verbose m) =
    if verbose_enabled then fmt (m ∷ line_end ∷ []) else []
logged_to_stream verbose_enabled (warn m) = fmt (txt "warning" ∷ txt ": " ∷ m ∷ line_end ∷ [])

unfoldable pub logged_to_file : LogEntry → Bytes
logged_to_file (verbose m) = fmt (txt "verbose: " ∷ m ∷ line_end ∷ [])
logged_to_file (warn m) = fmt (txt "warning" ∷ txt ": " ∷ m ∷ line_end ∷ [])

unfoldable pub blanks : ℕ → Bytes
blanks zero = []
blanks (suc n) = b' ' ∷ blanks n

-- ConsoleSink: the stream behind what was written so far, and `transient_width_`.
pub record Sink : Type 0 where
  pub out : Bytes
  pub width : ℕ

unfoldable pub erase_transient : Sink → Sink
unfolding blanks
erase_transient sink =
    if sink.width == 0
    then sink
    else record { out = sink.out ++ (13 ∷ (blanks sink.width ++ 13 ∷ [])); width = 0 }

unfoldable pub write_line : Bytes → Sink → Sink
unfolding erase_transient
write_line line sink =
    let erased = erase_transient sink in
    record erased { out = erased.out ++ (b' ' ∷ b' ' ∷ (line ++ 10 ∷ [])) }

unfoldable pub write_transient : Bytes → Sink → Sink
unfolding erase_transient
write_transient line sink =
    let erased = erase_transient sink in
    record { out = erased.out ++ (b' ' ∷ b' ' ∷ (line ++ 13 ∷ [])); width = length line + 2 }

-- The product is a std::uint64_t.
unfoldable pub percent_of : DiskProgress → ℕ
percent_of progress =
    if progress.total == 0 then 0 else progress.current * 100 % 2 ^ 64 / progress.total

unfoldable pub on_event : Event → Sink → Sink
unfolding write_line write_transient percent_of
on_event (step_started index step) sink = write_line (fmt (step.description ∷ txt " ..." ∷ [])) sink
on_event (step_finished index step) sink = sink
on_event (step_progress progress) sink =
    if progress.total == 0
    then sink
    else write_transient (fmt (decimal (percent_of progress) ∷ txt "%" ∷ [])) sink
on_event (message line) sink = write_line line sink
on_event (status line) sink = write_transient line sink

unfoldable pub on_events : List Event → Sink → Sink
unfolding on_event
on_events [] sink = sink
on_events (event ∷ events) sink = on_events events (on_event event sink)

abbrev pub to_human_line : Error → Bytes
to_human_line error = to_string error

-- to_json_line of an error.
unfoldable pub error_object : Error → JsonObject
error_object error =
    (txt "error", text (error_code_name error.code))
    ∷ (txt "exit_code", number (exit_code_for error.code))
    ∷ (txt "message", text error.message)
    ∷ (if is_empty error.remedy then [] else (txt "remedy", text error.remedy) ∷ [])

module _ {W : Type 0} where
  abbrev pub print : Bytes → Session W → Session W
  print line s = record s { out = s.out ++ line }

  abbrev pub print_error : Bytes → Session W → Session W
  print_error line s = record s { errors = s.errors ++ line }

  abbrev pub log : LogEntry → Session W → Session W
  log entry s = record s { log = s.log ++ entry ∷ [] }

  abbrev pub warn_all : List Bytes → Session W → Session W
  warn_all [] s = s
  warn_all (warning ∷ warnings) s = warn_all warnings (log (warn warning) s)

  -- A call of the platform.
  abbrev pub calling : {A : Type 0} → (W → A × W) → Session W → A × Session W
  calling f s = let r = f s.world in (r.0, record s { world = r.1 })

  -- The sink's calls on the console, or on the NullSink if `quiet`.
  unfoldable pub shown : Bool → List Event → Session W → Session W
  unfolding on_events
  shown quiet events s =
      let sink = on_events events (record { out = s.out; width = s.transient_width }) in
      if quiet then s else record s { out = sink.out; transient_width = sink.width }

  -- A part of an operation whose members are `self`: its result, the members that it leaves, and what
  -- it did to the world and told the sink.
  unfoldable pub operate :
      {X A : Type 0} → Bool → M (Context W X) A → X → Session W → (Result A × X) × Session W
  unfolding shown
  operate quiet m self s =
      let r = m (record { world = s.world; events = []; self = self }) in
      ((r.0, r.1.self), shown quiet r.1.events (record s { world = r.1.world }))

  -- report of app.cpp: the exit code.
  unfoldable pub report : (JsonObject → Bytes) → Error → GlobalOptions → Session W → ℕ × Session W
  unfolding error_object
  report dump error options s = (
    exit_code_for error.code,
    if options.json
        then print (fmt (dump (error_object error) ∷ line_end ∷ [])) s
        else print_error (fmt (txt "error: " ∷ to_human_line error ∷ line_end ∷ [])) s,
  )

-- The destructor of the ConsoleSink, as the command returns.
abbrev pub closing : {W : Type 0} → ℕ × Session W → ℕ × Session W
closing (code, s) =
    let sink = erase_transient (record { out = s.out; width = s.transient_width }) in
    (code, record s { out = sink.out; transient_width = sink.width })
