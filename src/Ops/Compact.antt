-- ===== src/Ops/Compact.antt =====
-- src/lib/ops/compact.h and compact.cpp: CompactOperation. Times are milliseconds.
pub mod Release
pub mod Run
pub mod Waiting
pub mod Laws
pub mod Restart
pub mod Accounting
use wsldisk.Base.{
  ℕ, zero, suc, ◌+◌, ◌-◌, ◌*◌, ◌/◌, ◌%◌, min, Bytes, txt, fmt, is_empty, decimal, Bool, true, false,
  not, ◌&&◌, ◌||◌, Option, none, some, List, [], ◌∷◌, ◌++◌, ltb, leb, ◌==◌, if◌then◌else◌, any, map,
  length,
}
use wsldisk.Base.Int.{decimal_ℤ}
use wsldisk.Errors.{Error, preflight, partial, distro_busy, Result, ok, err, to_string}
use wsldisk.Effects.{M, ◌>>=◌, ◌>>◌, pure, raise, guard, attempt}
use wsldisk.WinPath.{FilePath}
use wsldisk.Interfaces.{Platform, succeeded}
use wsldisk.Model.Config.{max_unlock_timeout_seconds}
use wsldisk.Model.Distro.{Distro, is_wsl2, find_matches}
use wsldisk.Ops.Operation.{
  StepPlan, Warning, Plan, Report, no_estimate, has_value, Context, call, ask, emit, get, modify,
  step_started, step_finished, step_progress, message, status,
}
use wsldisk.Ops.Runner.{Operation}
use wsldisk.Ops.Preflight.{wsl1_refusal, smoke_argv}
use wsldisk.Ops.Trim.{run_fstrim}

pub record CompactOptions : Type 0 where
  pub trim : Bool
  pub shutdown : Bool
  pub restart : Bool
  pub unlock_timeout : ℕ
  pub trim_timeout : ℕ

-- The members that change. `running_before` is set, if at all, before the operation runs.
pub record Members : Type 0 where
  pub before : Option ℕ
  pub after : Option ℕ
  pub trimmed_bytes : Option ℕ
  pub was_running : Bool
  pub running_before : Option (List Bytes)

joined_onto : List Bytes → Bytes → Bytes
joined_onto [] text = text
joined_onto (name ∷ names) text =
    joined_onto names (if is_empty text then text ++ name else text ++ (txt ", " ++ name))

unfoldable pub joined : List Bytes → Bytes
unfolding joined_onto
joined names = joined_onto names []

abbrev pub poll_interval : ℕ
poll_interval = 500

abbrev pub tick_interval : ℕ
tick_interval = 1000

unfoldable pub suggested_longer_wait : ℕ → ℕ
suggested_longer_wait current = min (current / 1000 * 2) max_unlock_timeout_seconds

unfoldable pub reclaimed : Members → Option ℕ
reclaimed m = elim m.before [
  | none ↦ none
  | some b ↦ elim m.after [ none ↦ none | some a ↦ some (if leb b a then 0 else b - a) ]
]

-- std::remove_if and erase.
unfoldable pub without : (Bytes → Bool) → List Bytes → List Bytes
without p [] = []
without p (n ∷ ns) = let rest = without p ns in if p n then rest else n ∷ rest

abbrev pub names_target : Distro → List Bytes → Bool
names_target distro names = any (λ n. find_matches distro n) names

module _ (P : Platform) (distro : Option Distro) (path : FilePath) (options : CompactOptions) where
  abbrev pub State : Type 0
  State = Context P.World Members

  -- A running() that fails names nobody.
  unfoldable pub others_running : M State (List Bytes)
  others_running = attempt (call P.running) >>= λ running. elim running [
    | err e ↦ pure []
    | ok names ↦ pure names
  ]

  unfoldable pub others_running_excluding : Distro → M State (List Bytes)
  unfolding without
  others_running_excluding d = do names ← others_running; pure (without (find_matches d) names)

  -- The caller's snapshot if there is one; a running() that fails counts as not running.
  unfoldable pub note_running : Distro → M State (Unit {0})
  note_running d = do
    m ← get
    elim m.running_before [
      | some names ↦ modify (λ x. record x { was_running = names_target d names })
      | none ↦ (do
        names ← others_running
        modify (λ x. record x { was_running = names_target d names }))
    ]

  unfoldable pub trim_step : Distro → StepPlan
  trim_step d = record {
    description = fmt (txt "run fstrim in " ∷ d.name ∷ []);
    mutates = true;
    undo_description = none;
  }

  unfoldable pub stop_step : Distro → StepPlan
  stop_step d = record {
    description =
        if options.shutdown
        then txt "shut WSL down so the disk is released"
        else fmt (txt "stop " ∷ d.name ∷ txt " and wait for its disk" ∷ []);
    mutates = true;
    undo_description = none;
  }

  unfoldable pub compact_step : StepPlan
  compact_step = record {
    description = fmt (txt "compact " ∷ P.path_string path ∷ []);
    mutates = true;
    undo_description = none;
  }

  unfoldable pub restart_step : Distro → StepPlan
  restart_step d = record {
    description = fmt (txt "start " ∷ d.name ∷ txt " again" ∷ []);
    mutates = true;
    undo_description = none;
  }

  unfoldable pub plan_guest_steps : Distro → M State (List StepPlan)
  unfolding trim_step stop_step
  plan_guest_steps d = do
    note_running d
    pure ((if options.trim then trim_step d ∷ [] else []) ++ stop_step d ∷ [])

  -- A size that cannot be measured leaves the member as it was.
  unfoldable pub measure_before : M State (Unit {0})
  measure_before = attempt (call (P.file_size_on_disk path)) >>= λ size. elim size [
    | err e ↦ pure tt
    | ok n ↦ modify (λ m. record m { before = some n })
  ]

  unfoldable pub measure_after : M State (Unit {0})
  measure_after = attempt (call (P.file_size_on_disk path)) >>= λ size. elim size [
    | err e ↦ pure tt
    | ok n ↦ modify (λ m. record m { after = some n })
  ]

  unfoldable pub missing_disk : Error
  missing_disk = record {
    code = preflight;
    message = fmt (P.path_string path ∷ txt " does not exist" ∷ []);
    remedy =
        if has_value distro
        then txt
            "run `wsldisk info` to see where the distribution points, and `wsldisk orphans --relink` if the disk has moved"
        else txt "check the path";
  }

  unfoldable pub warnings : List Warning
  warnings =
      record {
        message = txt "compaction rewrites the disk file and cannot be undone";
        remedy = txt "nothing inside the distribution changes; only unused blocks go";
      }
      ∷ (if options.shutdown
          then []
          else record {
            message = txt "the disk can only be released by stopping every distribution";
            remedy =
                txt "re-run with --shutdown if this refuses because something else is holding it";
          }
            ∷ [])

  unfoldable pub plan_steps : M State (List StepPlan)
  unfolding plan_guest_steps compact_step restart_step
  plan_steps = elim distro [
    | none ↦ pure (compact_step ∷ [])
    | some d ↦ (do
      guest ← plan_guest_steps d
      m ← get
      pure (
          guest
          ++ (compact_step
              ∷ (if options.restart && m.was_running then restart_step d ∷ [] else []))))
  ]

  unfoldable pub plan : M State Plan
  unfolding missing_disk warnings plan_steps
  plan = do
    elim distro [ none ↦ pure tt | some d ↦ guard (is_wsl2 d) (wsl1_refusal d) ]
    found ← ask (P.exists path)
    guard found missing_disk
    measure_before
    steps ← plan_steps
    pure (record { steps = steps; estimate = no_estimate; warnings = warnings })
