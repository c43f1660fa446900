-- ===== src/Plan/Tests.antt =====
-- A plan of two steps in two units, the second an external one that depends on the first, and an
-- environment that may fail to verify it.
use ai_odoo_assistant.Prelude.{
  mem, all, ℕ, String, Bool, true, false, Option, none, some, List, [], ◌∷◌, ◌≡◌, refl, str_eq,
  if◌then◌else◌,
}
use ai_odoo_assistant.Prelude.Json.{Json, obj, Fields, end}
use ai_odoo_assistant.Prelude.Result.{Result, ok}
use ai_odoo_assistant.Capability.{Definition, Risk, Effect, Exposure, policy}
use ai_odoo_assistant.Turn.{plan_authorized}
use ai_odoo_assistant.Plan.{
  Step, RecoveryUnit, RecoveryMode, EffectPlan, SemanticGroups, odoo_atomic, external, irreversible,
  external_or_unknown, JournalClass, previewed, prepared,
}
use ai_odoo_assistant.Plan.Host.{
  Host, M, Reply, Failure, Call, History, effect, verified, before_unit, barrier, after_unit,
  raised, done,
}
use ai_odoo_assistant.Plan.Host
use ai_odoo_assistant.Plan.Prepare.{Requested, requested_id, validate_requested_dependencies}
use ai_odoo_assistant.Plan.Requests.{requested_ids, requested_in_order}
use ai_odoo_assistant.Plan.Prepared.{prepare, prepare_without_effects}
use ai_odoo_assistant.Plan.Execute.{execute}
use ai_odoo_assistant.Plan.Order.{has_barrier_callback, is_orderly}
use ai_odoo_assistant.Plan.Effects.{execute_orderly}
use ai_odoo_assistant.Plan.Causal.{work, is_causal}
use ai_odoo_assistant.Plan.Dependencies.{execute_causal}

abbrev definition_of : String → Effect → Definition
definition_of name e = record {
  name = name;
  version = "1";
  risk = Risk.write;
  effect = e;
  exposure = Exposure.plan;
  approval = policy;
  max_calls = 5;
  tags = [];
  partial_failure_semantics = none;
  recovery_mode = none;
  journal_classification = none;
}

abbrev resolve : String → Result Definition
resolve name = ok (
    definition_of name
      (if str_eq name "odoo.mail.send" then Effect.external else Effect.internal_irreversible))

abbrev groups : SemanticGroups
groups = record {
  prepare = "semantic:v1:00000000000000000000000000000000";
  execute = "semantic:v1:00000000000000000000000000000001";
  verify = "semantic:v1:00000000000000000000000000000002";
}

-- The verification that this environment gives to the external step.
abbrev host_verifying : Bool → Host
host_verifying sent = record {
  resolve = resolve;
  preview = λ h name arguments. ok (record { summary = obj end; precondition_fingerprint = "p" });
  approval_required = λ name approved. ok false;
  execute = λ h name arguments approved. ok (obj end);
  verify = λ h name arguments result. ok (record {
    is_verified = if str_eq name "odoo.mail.send" then sent else true;
    summary = obj end;
  });
  before_effect = none;
  checkpoints = true;
  checkpoint_before = λ h p u last. ok tt;
  checkpoint_after = λ h p u. ok tt;
  new_groups = λ h. groups;
  binding_fingerprint = λ name version arguments precondition. "b";
}

abbrev step_of : ℕ → String → List String → String → String → RecoveryMode → JournalClass → Step
step_of position id deps capability unit mode class = record {
  position = position;
  step_id = id;
  depends_on = deps;
  capability = capability;
  version = "1";
  arguments = obj end;
  title = "";
  approval_required = false;
  precondition_fingerprint = "p";
  binding_fingerprint = "b";
  preview = obj end;
  state = previewed;
  result = none;
  verification = none;
  semantic_groups = groups;
  recovery_unit_id = unit;
  recovery_mode = mode;
  journal_classification = class;
}

abbrev two_steps : EffectPlan
two_steps = record {
  state = plan_authorized;
  requires_confirmation = false;
  recovery_units =
      record { unit_id = "unit-1"; mode = odoo_atomic; step_ids = "step-1" ∷ []; state = prepared }
      ∷ record { unit_id = "unit-2"; mode = external; step_ids = "step-2" ∷ []; state = prepared }
      ∷ [];
  steps =
      step_of 0 "step-1" [] "odoo.order.confirm" "unit-1" odoo_atomic irreversible
      ∷ step_of 1 "step-2" ("step-1" ∷ []) "odoo.mail.send" "unit-2" external external_or_unknown
      ∷ [];
}

-- The calls, newest first, when the mail cannot be verified.
abbrev calls_unverified : History
calls_unverified =
    verified "step-2" false
    ∷ effect "step-2" "odoo.mail.send"
    ∷ before_unit "unit-2" true
    ∷ Host.previewed "step-2"
    ∷ after_unit "unit-1"
    ∷ verified "step-1" true
    ∷ effect "step-1" "odoo.order.confirm"
    ∷ before_unit "unit-1" false
    ∷ Host.previewed "step-1"
    ∷ []

two_steps_calls : (execute (host_verifying false) true two_steps []).1 ≡ calls_unverified
unfolding execute ai_odoo_assistant.Plan.Host.◌>>=◌ ai_odoo_assistant.Plan.Host.lift
    ai_odoo_assistant.Plan.Host.ask ai_odoo_assistant.Plan.Host.check
    ai_odoo_assistant.Plan.Host.check_step ai_odoo_assistant.Plan.Host.pure
    ai_odoo_assistant.Plan.Host.raise ai_odoo_assistant.Plan.Prepare.validated_plan
    ai_odoo_assistant.Plan.Prepare.is_semantic_group
    ai_odoo_assistant.Plan.Prepare.journal_classification_of
    ai_odoo_assistant.Plan.Prepare.recovery_mode_of ai_odoo_assistant.Plan.Units.are_distinct
    ai_odoo_assistant.Plan.Units.validated_recovery_units ai_odoo_assistant.Plan.Units.numbered
    ai_odoo_assistant.Plan.Units.same_ids ai_odoo_assistant.Plan.Units.unit_step_ids
    ai_odoo_assistant.Plan.find_step ai_odoo_assistant.Plan.put_step ai_odoo_assistant.Prelude.mem
    ai_odoo_assistant.Prelude.all ai_odoo_assistant.Prelude.any
    ai_odoo_assistant.Plan.Outcome.step_outcome_contracts
    ai_odoo_assistant.Plan.Outcome.validate_skipped_dependency_evidence
    ai_odoo_assistant.Plan.Outcome.validate_execution_call_budget
    ai_odoo_assistant.Plan.Outcome.dependency_skip_evidence
    ai_odoo_assistant.Plan.Outcome.executable_from ai_odoo_assistant.Plan.Outcome.has_contract
    ai_odoo_assistant.Plan.Outcome.reported_outcome
    ai_odoo_assistant.Plan.Outcome.step_satisfies_dependencies
    ai_odoo_assistant.Plan.Outcome.unsatisfied_dependency_outcome
    ai_odoo_assistant.Plan.Execute.cross_barrier ai_odoo_assistant.Plan.Execute.definition_at
    ai_odoo_assistant.Plan.Execute.exec_step ai_odoo_assistant.Plan.Execute.exec_steps
    ai_odoo_assistant.Plan.Execute.exec_unit ai_odoo_assistant.Plan.Execute.exec_units
    ai_odoo_assistant.Plan.Execute.ids_where ai_odoo_assistant.Plan.Execute.needs_checkpoints
    ai_odoo_assistant.Plan.Preflight.preflight_from ai_odoo_assistant.Plan.Preflight.preflight_one
    ai_odoo_assistant.Plan.Preflight.preflight_step ai_odoo_assistant.Plan.Preflight.preflight_unit
    ai_odoo_assistant.Plan.Preflight.remove_all ai_odoo_assistant.Plan.Execute.run_step
    ai_odoo_assistant.Plan.Execute.satisfied_with ai_odoo_assistant.Plan.Execute.settle_unit
    ai_odoo_assistant.Plan.Execute.skip_step ai_odoo_assistant.Plan.Execute.snapshot_of
    ai_odoo_assistant.Plan.Preflight.step_at ai_odoo_assistant.Plan.Execute.verify_step
    ai_odoo_assistant.Prelude.Json.field_count ai_odoo_assistant.Prelude.Json.get
    ai_odoo_assistant.Prelude.Json.json_eq
two_steps_calls = refl

execute_orderly_example :
    is_orderly
      (has_barrier_callback (host_verifying false))
      (execute (host_verifying false) true two_steps []).1
    ≡ true
execute_orderly_example = execute_orderly (host_verifying false) true two_steps

execute_causal_example :
    is_causal two_steps (work (execute (host_verifying true) true two_steps []).1) ≡ true
execute_causal_example = execute_causal (host_verifying true) true two_steps

-- Two proposed steps without an id of their own.
abbrev proposed : String → List String → Requested
proposed capability deps = record {
  capability = capability;
  arguments = obj end;
  summary = "";
  step_id = "";
  depends_on = deps;
}

abbrev confirm : Requested
confirm = proposed "odoo.order.confirm" []

abbrev send : Requested
send = proposed "odoo.mail.send" ("step-1" ∷ [])

requested_in_order_example :
    (mem (requested_id 1 send) (requested_ids 0 (confirm ∷ [])) ≡ false)
    × (all (λ d. mem d (requested_ids 0 (confirm ∷ []))) ("step-1" ∷ []) ≡ true)
unfolding validate_requested_dependencies ai_odoo_assistant.Plan.Prepare.check_requested
    requested_id ai_odoo_assistant.Plan.Units.numbered mem all
requested_in_order_example = requested_in_order (confirm ∷ []) send [] refl

prepare_without_effects_example :
    work (prepare (host_verifying true) (confirm ∷ send ∷ []) (barrier ∷ [])).1
    ≡ work (barrier ∷ [])
prepare_without_effects_example =
    prepare_without_effects (host_verifying true) (confirm ∷ send ∷ []) (barrier ∷ [])
