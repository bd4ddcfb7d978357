-- ===== src/Ops/Trim.antt =====
-- src/lib/ops/trim.h and trim.cpp: fstrim in the guest, and TrimOperation.
pub mod Retry
use wsldisk.Base.{
  ℕ, ◌+◌, ◌-◌, ◌*◌, ◌/◌, ◌%◌, ◌^◌, Bytes, txt, fmt, is_empty, starts_with, Bool, true, false, not,
  ◌&&◌, ◌||◌, Option, none, some, [], ◌∷◌, ltb, ◌==◌, if◌then◌else◌,
}
use wsldisk.Errors.{Error, generic}
use wsldisk.Effects.{M, ◌>>=◌, ◌>>◌, pure, guard}
use wsldisk.Interfaces.{Platform, WslCommandResult, succeeded}
use wsldisk.Model.Distro.{Distro, is_wsl2}
use wsldisk.Model.Size.{is_digit, u64_max}
use wsldisk.Ops.Operation.{
  StepPlan, Plan, Report, no_estimate, Context, call, emit, modify, step_started, step_finished,
  message,
}
use wsldisk.Ops.Runner.{Operation}
use wsldisk.Ops.Preflight.{wsl1_refusal}

pub record TrimResult : Type 0 where
  pub trimmed_bytes : Option ℕ
  pub used_fallback : Bool

abbrev fstrim : Bytes
fstrim = txt "/sbin/fstrim"

abbrev root : Bytes
root = txt "/"

-- std::string_view::find, as a test.
unfoldable pub holds : Bytes → Bytes → Bool
holds [] part = starts_with [] part
holds (c ∷ s) part = starts_with (c ∷ s) part || holds s part

unfoldable pub rejected_an_option : Bytes → Bool
unfolding holds
rejected_an_option text =
    holds text (txt "unrecognized option") || holds text (txt "invalid option")

abbrev pub all_digits : Bytes → Bool
all_digits [] = true
all_digits (c ∷ s) = is_digit c && all_digits s

-- The run of digits that ends a text.
unfoldable pub last_digits : Bytes → Bytes
last_digits [] = []
last_digits (c ∷ s) = if all_digits (c ∷ s) then c ∷ s else last_digits s

-- The loop of digits_before over that run.
unfoldable pub read_digits : Bytes → ℕ → Option ℕ
read_digits [] value = some value
read_digits (c ∷ s) value =
    let digit = c - b'0' in
    let more = read_digits s ((value * 10 + digit) % 2 ^ 64) in
    if ltb ((u64_max - digit) / 10) value then none else more

-- digits_before at the end of `text`.
unfoldable pub digits_before : Bytes → Option ℕ
unfolding last_digits read_digits
digits_before text = if is_empty (last_digits text) then none else read_digits (last_digits text) 0

-- The text before the last occurrence that rfind finds.
unfoldable pub before_last : Bytes → Bytes → Option Bytes
before_last [] part = none
before_last (c ∷ s) part = elim (before_last s part) [
  | some front ↦ some (c ∷ front)
  | none ↦ if starts_with (c ∷ s) part then some [] else none
]

unfoldable pub drop_spaces : Bytes → Bytes
drop_spaces [] = []
drop_spaces (c ∷ s) =
    let rest = drop_spaces s in if is_empty rest && c == b' ' then [] else c ∷ rest

unfoldable pub parse_trimmed_bytes : Bytes → Option ℕ
unfolding before_last drop_spaces digits_before
parse_trimmed_bytes output = elim (before_last output (txt "bytes")) [
  | none ↦ none
  | some front ↦ digits_before (drop_spaces front)
]

-- std::erase(detail, '\n').
unfoldable pub without_newlines : Bytes → Bytes
without_newlines [] = []
without_newlines (c ∷ s) = if c == 10 then without_newlines s else c ∷ without_newlines s

-- The guest's own words.
unfoldable pub fstrim_failed : Bytes → WslCommandResult → Error
unfolding without_newlines
fstrim_failed name result = record {
  code = generic;
  message = fmt (
      txt "fstrim failed in "
      ∷ name
      ∷ txt ": "
      ∷ without_newlines
          (if is_empty result.standard_error then result.standard_output else result.standard_error)
      ∷ []);
  remedy = fmt (
      txt "check the distribution starts (`wsl -d "
      ∷ name
      ∷ txt " -- true`) and that /sbin/fstrim exists in it"
      ∷ []);
}

module _ (P : Platform) {X : Type 0} where
  -- The last test of run_fstrim, on the result of the run that counts.
  unfoldable pub conclude : Bytes → Bool → WslCommandResult → M (Context P.World X) TrimResult
  unfolding fstrim_failed
  conclude name fell_back result = do
    guard (succeeded result) (fstrim_failed name result)
    pure (record {
      trimmed_bytes = parse_trimmed_bytes result.standard_output;
      used_fallback = fell_back;
    })

  unfoldable pub retry_plain : Bytes → ℕ → M (Context P.World X) TrimResult
  unfolding conclude
  retry_plain name timeout = do
    emit (message (txt "fstrim does not take -v here; retrying without it"))
    result ← call (P.run_as_root name (fstrim ∷ root ∷ []) timeout)
    conclude name true result

  unfoldable pub run_fstrim : Bytes → ℕ → M (Context P.World X) TrimResult
  unfolding conclude retry_plain
  run_fstrim name timeout = do
    result ← call (P.run_as_root name (fstrim ∷ txt "-v" ∷ root ∷ []) timeout)
    (if not (succeeded result) && rejected_an_option result.standard_error
        then retry_plain name timeout
        else conclude name false result)

module _ (P : Platform) (distro : Distro) (timeout : ℕ) where
  -- `result_` is the one member that changes.
  abbrev pub State : Type 0
  State = Context P.World TrimResult

  unfoldable pub trim_step : StepPlan
  trim_step = record {
    description = fmt (txt "run " ∷ fstrim ∷ txt " " ∷ root ∷ txt " in " ∷ distro.name ∷ []);
    mutates = true;
    undo_description = none;
  }

  unfoldable pub plan : M State Plan
  unfolding trim_step
  plan = do
    guard (is_wsl2 distro) (wsl1_refusal distro)
    pure (record {
      steps = trim_step ∷ [];
      estimate = no_estimate;
      warnings =
          record {
            message = txt "this starts the distribution if it is stopped, and leaves it running";
            remedy = fmt (
                txt "run `wsl --terminate "
                ∷ distro.name
                ∷ txt "` afterwards if that matters"
                ∷ []);
          }
          ∷ [];
    })

  unfoldable pub execute : M State Report
  unfolding trim_step
  execute = do
    emit (step_started 0 trim_step)
    trimmed ← run_fstrim P distro.name timeout
    modify (λ previous. trimmed)
    emit (step_finished 0 trim_step)
    pure (record { completed = trim_step.description ∷ []; actual = no_estimate })

  -- `verify` has nothing to check, and `rollback` nothing to undo.
  unfoldable pub operation : Operation State
  operation = record { plan = plan; execute = execute; verify = pure tt; rollback = λ s. s }
