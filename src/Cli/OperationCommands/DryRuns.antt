-- ===== src/Cli/OperationCommands/DryRuns.antt =====
-- src/cli/relink_command.cpp, move_command.cpp and trim_command.cpp: what a dry run does.
use wsldisk.Base.{Bytes, Bool, true, [], ◌≡◌, ◌∙◌, ap, refl, Bool-cases, inl, inr}
use wsldisk.Errors.{Error, Result-cases}
use wsldisk.Interfaces.{Platform}
use wsldisk.Ops.Operation.{Context}
use wsldisk.Ops.Runner.{Operation, run}
use wsldisk.Ops.Runner.Laws.{run_dry}
use wsldisk.Cli.Session.{JsonObject, GlobalOptions, Session, report, operate}
use wsldisk.Cli.OperationCommands.{run_operation}

module _ {W : Type 0} where
  -- The state in which a command hands an operation to the runner.
  abbrev pub handed : {X : Type 0} → X → Session W → Context W X
  handed m s = record { world = s.world; events = []; self = m }

  pub report-world :
      (dump : JsonObject → Bytes) (e : Error) (global : GlobalOptions) (s : Session W)
      → (report dump e global s).1.world ≡ s.world
  unfolding report
  report-world dump e global s = elim (Bool-cases global.json) [
    | inl h ↦ rw (report, h) refl
    | inr h ↦ rw (report, h) refl
  ]

  operate-world :
      {X : Type 0} (quiet : Bool) (operation : Operation (Context W X)) (dry : Bool) (m : X)
      (s : Session W)
      → (operate quiet (run operation dry) m s).1.world ≡ (run operation dry (handed m s)).1.world
  unfolding operate
  operate-world quiet operation dry m s = elim (Bool-cases quiet) [
    | inl h ↦ rw (operate, h) refl
    | inr h ↦ rw (operate, h) refl
  ]

module _ (P : Platform) (dump : JsonObject → Bytes) (global : GlobalOptions) where
  run_operation-world :
      {X : Type 0} (operation : Operation (Context P.World X)) (m : X) (name : Bytes)
      (object : X → JsonObject) (done : X → Bytes) (s : Session P.World)
      → (run_operation P dump global operation m name object done s).1.world
        ≡ (run operation global.dry_run (handed m s)).1.world
  unfolding run_operation
  run_operation-world operation m name object done s =
      let r = operate global.json (run operation global.dry_run) m s in
      elim (Result-cases r.0.0) [
        | inl (e, h) ↦
            rw (run_operation, h)
              (report-world dump e global r.1
                ∙ operate-world global.json operation global.dry_run m s)
        | inr (o, h) ↦
            rw (run_operation, h) (operate-world global.json operation global.dry_run m s)
      ]

  -- A dry run of a command that relinks, moves or trims leaves the world as planning alone does.
  pub run_operation_dry :
      {X : Type 0} (operation : Operation (Context P.World X)) (m : X) (name : Bytes)
      (object : X → JsonObject) (done : X → Bytes) (s : Session P.World)
      → global.dry_run ≡ true
      → (run_operation P dump global operation m name object done s).1.world
        ≡ (operation.plan (handed m s)).1.world
  run_operation_dry operation m name object done s h =
      run_operation-world operation m name object done s
      ∙ (rw h (ap (λ t. t.world) (run_dry operation (handed m s)).0))
