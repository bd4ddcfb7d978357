-- ===== src/Cli/Outcomes.antt =====
-- src/cli/compact_command.cpp: what it reports of the targets that it tried.
use wsldisk.Base.{
  ℕ, ◌+◌, ◌%◌, ◌^◌, Bytes, txt, fmt, Bool, true, false, not, ◌&&◌, Option, none, some, List, [],
  ◌∷◌, ◌++◌, if◌then◌else◌, ltb, length,
}
use wsldisk.Errors.{Error, preflight, exit_code_for, exit_code_success}
use wsldisk.Model.Size.{format_size}
use wsldisk.Cli.Session.{
  JsonObject, text, number, flag, GlobalOptions, Session, print, print_error, to_human_line,
}
use wsldisk.Cli.Render.{number_if_known}

pub record Outcome : Type 0 where
  pub label : Bytes
  pub failure : Option Error
  pub before : Option ℕ
  pub after : Option ℕ
  pub reclaimed : Option ℕ

abbrev pub no_outcome : Bytes → Outcome
no_outcome label = record {
  label = label;
  failure = none;
  before = none;
  after = none;
  reclaimed = none;
}

abbrev value_or : Option ℕ → ℕ → ℕ
value_or none default = default
value_or (some n) default = n

unfoldable pub render_outcome : Outcome → Bytes
render_outcome outcome = elim outcome.failure [
  | some e ↦ fmt (outcome.label ∷ txt ": " ∷ to_human_line e ∷ (10 ∷ []) ∷ [])
  | none ↦ elim outcome.reclaimed [
    | none ↦
        fmt (outcome.label ∷ txt ": compacted. Its size could not be measured." ∷ (10 ∷ []) ∷ [])
    | some n ↦ fmt (
        outcome.label
        ∷ txt ": "
        ∷ format_size n
        ∷ txt " reclaimed ("
        ∷ format_size (value_or outcome.before 0)
        ∷ txt " to "
        ∷ format_size (value_or outcome.after 0)
        ∷ txt ")"
        ∷ (10 ∷ [])
        ∷ [])
  ]
]

abbrev failure_fields : Option Error → JsonObject
failure_fields none = []
failure_fields (some e) =
    (txt "error", text e.message)
    ∷ (txt "remedy", text e.remedy)
    ∷ (txt "exit_code", number (exit_code_for e.code))
    ∷ []

abbrev pub succeeds : Outcome → Bool
succeeds outcome = elim outcome.failure [ none ↦ true | some e ↦ false ]

unfoldable pub outcome_object : Outcome → JsonObject
outcome_object outcome =
    (txt "target", text outcome.label)
    ∷ (txt "compacted", flag (succeeds outcome))
    ∷ (failure_fields outcome.failure
        ++ (number_if_known (txt "size_before") outcome.before
            ++ (number_if_known (txt "size_after") outcome.after
                ++ number_if_known (txt "reclaimed") outcome.reclaimed)))

-- The failure that an exit code tells of, of the outcomes in order.
unfoldable pub first_failure : List Outcome → Option Error
first_failure [] = none
first_failure (outcome ∷ outcomes) = elim outcome.failure [
  | some e ↦ some e
  | none ↦ first_failure outcomes
]

abbrev pub json_line : (JsonObject → Bytes) → Outcome → Bytes
json_line dump outcome = fmt (dump (outcome_object outcome) ∷ (10 ∷ []) ∷ [])

module _ {W : Type 0} where
  unfoldable pub print_refusals : List Outcome → Session W → Session W
  unfolding render_outcome
  print_refusals [] s = s
  print_refusals (outcome ∷ outcomes) s =
      print_refusals outcomes (print_error (render_outcome outcome) s)

  unfoldable pub report_dry_run : List Outcome → Session W → ℕ × Session W
  unfolding print_refusals
  report_dry_run refusals s = (
    elim refusals [
      | [] ↦ exit_code_success
      | first ∷ rest ↦ exit_code_for (elim first.failure [ some e ↦ e.code | none ↦ preflight ])
    ],
    print_refusals refusals s,
  )

module _ {W : Type 0} (dump : JsonObject → Bytes) where
  -- The first loop of report_outcomes, with `total`.
  unfoldable pub render_outcomes : Bool → List Outcome → ℕ → Session W → ℕ × Session W
  unfolding render_outcome outcome_object
  render_outcomes json [] total s = (total, s)
  render_outcomes json (outcome ∷ outcomes) total s =
      let added = (total + value_or outcome.reclaimed 0) % 2 ^ 64 in
      if json
      then render_outcomes json outcomes total (print (json_line dump outcome) s)
      else if succeeds outcome
      then render_outcomes json outcomes added (print (render_outcome outcome) s)
      else render_outcomes json outcomes total (print_error (render_outcome outcome) s)

  unfoldable pub report_outcomes : List Outcome → GlobalOptions → Session W → ℕ × Session W
  unfolding render_outcomes first_failure
  report_outcomes outcomes global s =
      let (total, s') = render_outcomes global.json outcomes 0 s in
      elim (first_failure outcomes) [
        | some e ↦ (exit_code_for e.code, s')
        | none ↦ (
          exit_code_success,
          if not global.json && ltb 1 (length outcomes)
              then print
                  (fmt ((10 ∷ []) ∷ format_size total ∷ txt " reclaimed in total" ∷ (10 ∷ []) ∷ []))
                  s'
              else s',
        )
      ]
