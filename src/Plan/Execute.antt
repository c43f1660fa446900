-- ===== src/Plan/Execute.antt =====
-- `CapabilityPlanService.execute`.
use ai_odoo_assistant.Prelude.{
  ltb, String, Bool, true, false, not, ◌&&◌, ◌||◌, none, some, List, [], ◌∷◌, ◌++◌, any, mem,
  str_eq, length, if◌then◌else◌,
}
use ai_odoo_assistant.Prelude.Json.{Json}
use ai_odoo_assistant.Prelude.Result.{Result, ok, err}
use ai_odoo_assistant.Capability.{Definition}
use ai_odoo_assistant.Turn.{PlanState, plan_authorized, plan_executing, plan_completed}
use ai_odoo_assistant.Plan.{
  Step, RecoveryUnit, EffectPlan, UnitState, step_completed, skipped, prepared, unit_executing,
  unit_completed, is_terminal_step, is_atomic, put_step,
}
use ai_odoo_assistant.Plan.Outcome.{
  Contracts, step_outcome_contracts, step_satisfies_dependencies, dependency_skip_evidence,
  validate_skipped_dependency_evidence, validate_execution_call_budget,
}
use ai_odoo_assistant.Plan.Prepare.{validated_plan}
use ai_odoo_assistant.Plan.Host.{
  Host, M, executing, barrier, before_unit, after_unit, effect, verified, Verification, pure, raise,
  lift, ask, check, check_step, ◌>>=◌, ◌>>◌,
}
use ai_odoo_assistant.Plan.Preflight.{Progress, step_at, preflight_unit}

-- if _step_satisfies_dependencies(step, …): satisfied_ids.add(step_id)
unfoldable pub satisfied_with : Contracts → Step → List String → List String
satisfied_with contracts s ids =
    if step_satisfies_dependencies contracts s then s.step_id ∷ ids else ids

abbrev pub verdict : Result Verification → Bool
verdict (ok v) = v.is_verified
verdict (err code) = false

module _ (host : Host) (human_approved : Bool) where
  -- The branch of a step whose dependency ended incomplete.
  unfoldable pub skip_step : Contracts → Step → Progress → M Progress
  skip_step contracts s g = do
    e ← lift (dependency_skip_evidence contracts s g.steps)
    pure (record g {
      steps =
          put_step
            (record s {
              state = skipped;
              result = some e.result;
              verification = some e.verification;
            })
            g.steps;
      terminal_ids = s.step_id ∷ g.terminal_ids;
    })

  -- definitions[step_id]
  unfoldable pub definition_at : String → List (String × Definition) → M Definition
  definition_at id [] = raise (record { code = "KeyError"; at_step = none })
  definition_at id ((i, d) ∷ rest) = if str_eq i id then pure d else definition_at id rest

  -- `verify`, recorded with whether it verified.
  unfoldable pub verify_step : Definition → Step → Json → M Verification
  verify_step d s result h =
      let answer = host.verify h d.name s.arguments result in
      ask (some (s.step_id, executing)) (verified s.step_id (verdict answer)) (λ _. answer) h

  -- The branch that runs a step, and reads what it did.
  unfoldable pub run_step : Contracts → Definition → Step → Progress → M Progress
  unfolding satisfied_with verify_step
  run_step contracts d s g = do
    result ←
        ask (some (s.step_id, executing)) (effect s.step_id d.name)
          (λ h. host.execute h d.name s.arguments human_approved)
    v ← verify_step d s result
    check_step v.is_verified "capability_plan_verification_failed" s.step_id executing
    let s' = record s {
      state = step_completed;
      result = some result;
      verification = some v.summary;
    }
    pure (record {
      steps = put_step s' g.steps;
      terminal_ids = s.step_id ∷ g.terminal_ids;
      satisfied_ids = satisfied_with contracts s' g.satisfied_ids;
      results = g.results ++ result ∷ [];
    })

  -- One round of the loop over `unit["step_ids"]`.
  unfoldable pub exec_step : Contracts → List (String × Definition) → String → Progress → M Progress
  unfolding step_at skip_step run_step definition_at satisfied_with
  exec_step contracts definitions id g = do
    s ← step_at id g.steps
    if is_terminal_step s.state
        then pure (record g {
          terminal_ids = id ∷ g.terminal_ids;
          satisfied_ids = satisfied_with contracts s g.satisfied_ids;
        })
        else if any (λ d. not (mem d g.satisfied_ids)) s.depends_on
        then skip_step contracts s g
        else do d ← definition_at id definitions; run_step contracts d s g

  unfoldable pub exec_steps :
      Contracts → List (String × Definition) → List String → Progress → M Progress
  exec_steps contracts definitions [] g = pure g
  exec_steps contracts definitions (id ∷ ids) g = do
    g' ← exec_step contracts definitions id g
    exec_steps contracts definitions ids g'

  -- The checkpoint before a unit, or the write barrier before the first: whether it is crossed.
  unfoldable pub cross_barrier : Bool → EffectPlan → RecoveryUnit → Bool → M Bool
  cross_barrier crossed snapshot u is_last =
      if host.checkpoints
      then (do
        ask none (before_unit u.unit_id is_last) (λ h. host.checkpoint_before h snapshot u is_last)
        pure true)
      else if crossed
      then pure true
      else elim host.before_effect [
        | none ↦ pure false
        | some callback ↦ do ask none barrier callback; pure true
      ]

  -- The checkpoint after a unit that is not the last.
  unfoldable pub settle_unit : EffectPlan → RecoveryUnit → Bool → M (Unit {0})
  settle_unit snapshot u is_last =
      if host.checkpoints && not is_last
      then ask none (after_unit u.unit_id) (λ h. host.checkpoint_after h snapshot u)
      else pure tt

  -- `_execution_snapshot`
  unfoldable pub snapshot_of : EffectPlan → List RecoveryUnit → Progress → PlanState → EffectPlan
  snapshot_of p units g state = record p { state = state; steps = g.steps; recovery_units = units }

  abbrev pub is_unit_completed : UnitState → Bool
  is_unit_completed unit_completed = true
  is_unit_completed _ = false

  abbrev pub is_prepared : UnitState → Bool
  is_prepared prepared = true
  is_prepared _ = false

  abbrev pub is_last_unit : List RecoveryUnit → Bool
  is_last_unit [] = true
  is_last_unit (u ∷ us) = false

  -- One unit of the loop; `finished` are the units before it, and `later` those after.
  unfoldable pub exec_unit :
      Contracts
      → EffectPlan
      → List RecoveryUnit
      → RecoveryUnit
      → List RecoveryUnit
      → Bool
      → Progress
      → M (Bool × RecoveryUnit × Progress)
  unfolding cross_barrier settle_unit snapshot_of
  exec_unit contracts p finished u later crossed g =
      if is_unit_completed u.state then pure (crossed, u, g) else do
        check (is_prepared u.state) "capability_plan_recovery_required"
        definitions ← preflight_unit host human_approved u g
        let started = record u { state = unit_executing }
        let last = is_last_unit later
        crossed' ←
            cross_barrier crossed (snapshot_of p (finished ++ started ∷ later) g plan_executing)
              started last
        g' ← exec_steps contracts definitions u.step_ids g
        let ended = record u { state = unit_completed }
        settle_unit
            (snapshot_of p (finished ++ ended ∷ later) g'
              (if last then plan_completed else plan_executing))
            ended last
        pure (crossed', ended, g')

  unfoldable pub exec_units :
      Contracts
      → EffectPlan
      → List RecoveryUnit
      → List RecoveryUnit
      → Bool
      → Progress
      → M (List RecoveryUnit × Progress)
  exec_units contracts p finished [] crossed g = pure (finished, g)
  exec_units contracts p finished (u ∷ later) crossed g = do
    r ← exec_unit contracts p finished u later crossed g
    exec_units contracts p (finished ++ r.1 ∷ []) later r.0 r.2

  abbrev may_execute : PlanState → Bool
  may_execute plan_authorized = true
  may_execute plan_executing = true
  may_execute _ = false

  abbrev is_in_flight : RecoveryUnit → Bool
  is_in_flight u = elim u.state [ unit_executing ↦ true | _ ↦ false ]

  -- A plan of one atomic unit needs no checkpoints.
  unfoldable pub needs_checkpoints : List RecoveryUnit → Bool
  needs_checkpoints units =
      ltb 1 (length units) || any (λ (u : RecoveryUnit). not (is_atomic u.mode)) units

  unfoldable pub ids_where : (Step → Bool) → List Step → List String
  ids_where test [] = []
  ids_where test (s ∷ rest) =
      if test s then s.step_id ∷ ids_where test rest else ids_where test rest

  -- `execute`: the completed plan and the results of the steps that ran.
  unfoldable pub execute : EffectPlan → M (EffectPlan × List Json)
  unfolding exec_units exec_unit exec_steps exec_step needs_checkpoints ids_where snapshot_of
  execute p = do
    lift (validated_plan p)
    check (may_execute p.state) "capability_plan_not_authorized"
    check (not (any is_in_flight p.recovery_units)) "capability_plan_recovery_required"
    check (host.checkpoints || not (needs_checkpoints p.recovery_units))
        "capability_plan_recovery_checkpoint_required"
    contracts ← lift (step_outcome_contracts host.resolve p.steps)
    lift (validate_skipped_dependency_evidence contracts p.steps)
    lift (validate_execution_call_budget host.resolve contracts p.steps)
    r ← exec_units contracts p [] p.recovery_units false (record {
      steps = p.steps;
      terminal_ids = ids_where (λ s. is_terminal_step s.state) p.steps;
      satisfied_ids = ids_where (step_satisfies_dependencies contracts) p.steps;
      results = [];
    })
    pure (snapshot_of p r.0 r.1 plan_completed, r.1.results)
