-- ===== src/Journal/Tests.antt =====
-- A turn with one step in one unit of the database: its plan is journalled, then fails or completes.
use ai_odoo_assistant.Prelude.{
  ℕ, ◌≤◌, ◌+◌, length, true, false, Option, none, some, List, [], ◌∷◌, ◌≡◌, ◌≢◌, refl, All, mem,
  all, arith,
}
use ai_odoo_assistant.Prelude.Json.{
  Json, str, obj, end, field, get, get_value, json_eq, field_count,
}
use ai_odoo_assistant.Prelude.Result.{Result, ok, err}
use ai_odoo_assistant.Turn.{plan_authorized}
use ai_odoo_assistant.Plan.{
  Step, StepState, UnitState, EffectPlan, odoo_atomic, unit_executing, unit_completed, reversible,
  step_completed, previewed,
}
use ai_odoo_assistant.Journal.{rolled_back, Row, TurnIdentity, rows_of, find_row, put_row}
use ai_odoo_assistant.Journal.Payloads.{
  select, before_payload, after_payload, receipt_payload, bounded_payload,
}
use ai_odoo_assistant.Journal.Sync.{
  find_unit, row_of, row_values, live_ids, sync_steps, sync_plan, validate_binding, updated_row,
}
use ai_odoo_assistant.Journal.Failure.{mark_turn_failure, all_turn_effects_rolled_back, units_of}
use ai_odoo_assistant.Journal.Keeps.{Keeps, sync_plan-Keeps}
use ai_odoo_assistant.Journal.Unique.{IsUnique, sync_plan-IsUnique}
use ai_odoo_assistant.Journal.Blocked.{sync_plan-blocked}
use ai_odoo_assistant.Journal.Certified.{
  LeftNoEffect, mark_turn_failure-IsUnique, all_turn_effects_rolled_back-LeftNoEffect,
}
use ai_odoo_assistant.Journal.Reflects.{Reflects, sync_plan-Reflects}
use ai_odoo_assistant.Journal.Cleanup.{cleanup_effect_journal}
use ai_odoo_assistant.Journal.Expiry.{cleanup-live}

abbrev turn_7 : TurnIdentity
turn_7 = record { id = 7; turn_uuid = "u"; user_id = 2; company_id = 1 }

abbrev small : Json → Option ℕ
small value = some 200

abbrev update : StepState → Option Json → Step
update state result = record {
  position = 0;
  step_id = "step-1";
  depends_on = [];
  capability = "odoo.record.patch";
  version = "1";
  arguments = obj end;
  title = "";
  approval_required = false;
  precondition_fingerprint = "p";
  binding_fingerprint = "b";
  preview = obj end;
  state = state;
  result = result;
  verification = result;
  semantic_groups = record { prepare = "a"; execute = "b"; verify = "c" };
  recovery_unit_id = "unit-1";
  recovery_mode = odoo_atomic;
  journal_classification = reversible;
}

abbrev plan_with : UnitState → Step → EffectPlan
plan_with state s = record {
  state = plan_authorized;
  requires_confirmation = false;
  recovery_units =
      record { unit_id = "unit-1"; mode = odoo_atomic; step_ids = "step-1" ∷ []; state = state }
      ∷ [];
  steps = s ∷ [];
}

abbrev started : EffectPlan
started = plan_with unit_executing (update previewed none)

abbrev finished : EffectPlan
finished = plan_with unit_completed (update step_completed (some (obj end)))

-- The rows of a call that does not raise.
abbrev rows : Result (List Row) → List Row
rows (ok journal) = journal
rows (err code) = []

abbrev in_flight : List Row
in_flight = rows (sync_plan small turn_7 started 0 [])

abbrev settled : List Row
settled = rows (sync_plan small turn_7 finished 5 in_flight)

abbrev failed : List Row
failed = mark_turn_failure 7 (some started) in_flight

sync-in_flight : sync_plan small turn_7 started 0 [] ≡ ok in_flight
unfolding sync_plan live_ids sync_steps row_values row_of find_unit before_payload select
    after_payload receipt_payload bounded_payload find_row get get_value put_row mem all
sync-in_flight = refl

sync-settled : sync_plan small turn_7 finished 5 in_flight ≡ ok settled
unfolding sync_plan live_ids sync_steps row_values row_of find_unit before_payload select
    after_payload receipt_payload bounded_payload find_row get get_value put_row validate_binding
    updated_row mem all json_eq field_count
sync-settled = refl

sync_plan-Keeps_example : Keeps in_flight settled
sync_plan-Keeps_example = sync_plan-Keeps small turn_7 finished 5 in_flight settled sync-settled

sync_plan-Reflects_example : All (Reflects turn_7 settled) finished.steps
sync_plan-Reflects_example =
    sync_plan-Reflects small turn_7 finished 5 in_flight settled sync-settled

in_flight-IsUnique : IsUnique in_flight
in_flight-IsUnique = sync_plan-IsUnique small turn_7 started 0 [] in_flight tt sync-in_flight

certified : all_turn_effects_rolled_back 7 failed ≡ true
unfolding all_turn_effects_rolled_back rows_of mark_turn_failure sync_plan sync_steps row_values
    find_unit before_payload after_payload bounded_payload mem live_ids find_row all row_of
certified = refl

all_turn_effects_rolled_back-LeftNoEffect_example :
    All (LeftNoEffect (units_of (some started))) (rows_of 7 in_flight) × (rows_of 7 failed ≢ [])
all_turn_effects_rolled_back-LeftNoEffect_example =
    all_turn_effects_rolled_back-LeftNoEffect 7 (some started) in_flight certified

-- The same step, planned again after it was rolled back.
abbrev undone : Row
undone = record {
  turn_id = 7;
  turn_uuid = "u";
  user_id = 2;
  company_id = 1;
  unit_id = "unit-1";
  step_id = "step-1";
  capability = "odoo.record.patch";
  capability_version = "1";
  recovery_mode = odoo_atomic;
  classification = reversible;
  state = rolled_back;
  before_payload =
      field "precondition_fingerprint" (str "p")
        (field "binding_fingerprint" (str "b") (field "preview" (obj end) end));
  after_payload = end;
  receipt_payload = end;
  expires_at = 604800;
}

undone_found : find_row 7 "step-1" failed ≡ some undone
unfolding rows_of mark_turn_failure sync_plan sync_steps row_values find_unit before_payload
    after_payload receipt_payload bounded_payload mem live_ids find_row all row_of select get
undone_found = refl

sync_plan-blocked_example : sync_plan small turn_7 started 9 failed ≢ ok []
unfolding mem
sync_plan-blocked_example =
    sync_plan-blocked small turn_7 started 9 failed [] "step-1" undone
      (mark_turn_failure-IsUnique 7 (some started) in_flight in_flight-IsUnique) refl undone_found
      refl

settled-IsUnique : IsUnique settled
settled-IsUnique =
    sync_plan-IsUnique small turn_7 finished 5 in_flight settled in_flight-IsUnique sync-settled

-- The one row of `settled`.
abbrev first_of : List Row → Row
first_of [] = undone
first_of (r ∷ rows) = r

settled_found : find_row 7 "step-1" settled ≡ some (first_of settled)
unfolding sync_plan live_ids sync_steps row_values row_of find_unit before_payload select
    after_payload receipt_payload bounded_payload find_row get get_value put_row validate_binding
    updated_row mem all json_eq field_count
settled_found = refl

cleanup-live_example :
    (find_row 7 "step-1" (cleanup_effect_journal 9 settled) ≡ some (first_of settled))
    × (length settled ≤ length (cleanup_effect_journal 9 settled) + 500)
unfolding sync_plan live_ids sync_steps row_values row_of find_unit before_payload select
    after_payload receipt_payload bounded_payload find_row get get_value put_row validate_binding
    updated_row mem all json_eq field_count
cleanup-live_example =
    cleanup-live 9 settled 7 "step-1" (first_of settled) settled-IsUnique settled_found
      (omega arith)
