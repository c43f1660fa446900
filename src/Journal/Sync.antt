-- ===== src/Journal/Sync.antt =====
-- `_sync_plan`: the rows of a turn after one snapshot of its plan.
use ai_odoo_assistant.Prelude.{
  ℕ, ◌+◌, leb, String, Bool, true, false, not, ◌&&◌, Option, none, some, List, [], ◌∷◌, ◌++◌, ◌==◌,
  all, mem, str_eq, length, if◌then◌else◌,
}
use ai_odoo_assistant.Prelude.Json.{Json, obj, Fields, end, json_eq}
use ai_odoo_assistant.Prelude.Result.{Result, ok, err, require, ◌>>=◌, ◌>>◌}
use ai_odoo_assistant.Plan.{
  Step, StepState, RecoveryUnit, EffectPlan, UnitState, RecoveryMode, unit_executing, same_mode,
}
use ai_odoo_assistant.Plan.Prepare.{same_class}
use ai_odoo_assistant.Journal.{
  EffectState, prepared, executing, verified, skipped, rolled_back, reverted, TurnIdentity, Row,
  is_of, find_row, put_row,
}
use ai_odoo_assistant.Journal.Payloads.{
  before_payload, after_payload, receipt_payload, validate_skipped_step_payload, bounded_payload,
}

-- unit_by_id.get(id), where the last unit of an id counts
unfoldable pub find_unit : String → List RecoveryUnit → Option RecoveryUnit
find_unit id [] = none
find_unit id (u ∷ us) = elim (find_unit id us) [
  | none ↦ if str_eq u.unit_id id then some u else none
  | some v ↦ some v
]

abbrev is_executing_unit : UnitState → Bool
is_executing_unit unit_executing = true
is_executing_unit _ = false

-- The state that a step asks of its row.
abbrev pub target_state : Step → StepState → UnitState → Result EffectState
target_state s StepState.step_completed unit = ok verified
target_state s StepState.skipped unit = do validate_skipped_step_payload s; ok skipped
target_state s _ unit = ok (if is_executing_unit unit then executing else prepared)

abbrev unit_of : Option RecoveryUnit → RecoveryMode → Result RecoveryUnit
unit_of none mode = err "effect_journal_plan_invalid"
unit_of (some u) mode = do require (same_mode u.mode mode) "effect_journal_plan_invalid"; ok u

-- The dict of the row's values.
unfoldable pub row_of : TurnIdentity → Step → EffectState → Fields → Fields → Fields → ℕ → Row
row_of turn s state before after receipt expires_at = record {
  turn_id = turn.id;
  turn_uuid = turn.turn_uuid;
  user_id = turn.user_id;
  company_id = turn.company_id;
  unit_id = s.recovery_unit_id;
  step_id = s.step_id;
  capability = s.capability;
  capability_version = s.version;
  recovery_mode = s.recovery_mode;
  classification = s.journal_classification;
  state = state;
  before_payload = before;
  after_payload = after;
  receipt_payload = receipt;
  expires_at = expires_at;
}

-- `_row_values`
unfoldable pub row_values :
    (Json → Option ℕ) → TurnIdentity → List RecoveryUnit → ℕ → Step → Result Row
row_values encoded_length turn units expires_at s = do
  unit ← unit_of (find_unit s.recovery_unit_id units) s.recovery_mode
  before ← before_payload s
  after ← after_payload s
  state ← target_state s s.state unit.state
  before' ← bounded_payload encoded_length before
  after' ← bounded_payload encoded_length after
  receipt' ← bounded_payload encoded_length (receipt_payload s)
  ok (row_of turn s state before' after' receipt' expires_at)

-- `_validate_binding`
unfoldable pub validate_binding : Row → Row → Result (Unit {0})
validate_binding row values =
    require
      (str_eq row.turn_uuid values.turn_uuid
        && row.user_id == values.user_id
        && row.company_id == values.company_id
        && str_eq row.unit_id values.unit_id
        && str_eq row.step_id values.step_id
        && str_eq row.capability values.capability
        && str_eq row.capability_version values.capability_version
        && same_mode row.recovery_mode values.recovery_mode
        && same_class row.classification values.classification
        && json_eq (obj row.before_payload) (obj values.before_payload))
      "effect_journal_binding_mismatch"

-- The state that `_row_updates` leaves a row in, from its state and the one asked for.
abbrev pub kept_state : EffectState → EffectState → EffectState
kept_state reverted target = reverted
kept_state verified target = verified
kept_state skipped target = skipped
kept_state _ target = target

-- new if new and old != new else old
abbrev updated_payload : Fields → Fields → Fields
updated_payload old end = old
updated_payload old new = if json_eq (obj old) (obj new) then old else new

-- row.write(_row_updates(row, values))
unfoldable pub updated_row : Row → Row → Row
updated_row row values = record row {
  expires_at = values.expires_at;
  state = kept_state row.state values.state;
  after_payload = updated_payload row.after_payload values.after_payload;
  receipt_payload = updated_payload row.receipt_payload values.receipt_payload;
}

-- row.state not in {"rolled_back", "reverted"}
abbrev pub is_live : EffectState → Bool
is_live rolled_back = false
is_live reverted = false
is_live _ = true

-- The step ids of `existing`, the turn's live rows: the loop reads a row through its record, so the
-- row is looked up again when its step comes.
unfoldable pub live_ids : ℕ → List Row → List String
live_ids turn [] = []
live_ids turn (r ∷ rows) =
    let rest = live_ids turn rows in
    if is_of turn r && is_live r.state then r.step_id ∷ rest else rest

-- One step of the loop: whether `existing` has the step, and the step's row in the table. The table's
-- constraint refuses a second row of a step.
abbrev pub sync_row : Bool → Row → Option Row → List Row → Result (List Row)
sync_row false values none journal = ok (journal ++ values ∷ [])
sync_row false values (some row) journal = err "IntegrityError"
sync_row true values none journal = err "MissingError"
sync_row true values (some row) journal = do
  validate_binding row values
  ok (put_row (updated_row row values) journal)

module _ (encoded_length : Json → Option ℕ) (turn : TurnIdentity) (units : List RecoveryUnit)
    (expires_at : ℕ) (existing : List String) where
  -- The loop over the steps: the ids seen, and the journal.
  unfoldable pub sync_steps : List Step → List String → List Row → Result (List String × List Row)
  sync_steps [] seen journal = ok (seen, journal)
  sync_steps (s ∷ steps) seen journal = do
    values ← row_values encoded_length turn units expires_at s
    require (not (mem values.step_id seen)) "effect_journal_plan_invalid"
    journal' ←
        sync_row (mem values.step_id existing) values
          (find_row values.turn_id values.step_id journal) journal
    sync_steps steps (values.step_id ∷ seen) journal'

-- _RETENTION_DAYS, in seconds
abbrev retention : ℕ
retention = 604800

abbrev sync_within :
    (Json → Option ℕ) → TurnIdentity → EffectPlan → ℕ → List String → List Row → Result (List Row)
sync_within encoded_length turn plan now existing journal = do
  (seen, journal') ←
      sync_steps encoded_length turn plan.recovery_units (now + retention) existing plan.steps []
        journal
  require (all (λ id. mem id seen) existing) "effect_journal_plan_invalid"
  ok journal'

-- `_sync_plan`, with the time in seconds
unfoldable pub sync_plan :
    (Json → Option ℕ) → TurnIdentity → EffectPlan → ℕ → List Row → Result (List Row)
sync_plan encoded_length turn plan now journal = do
  require
      (leb 1 (length plan.steps) && leb (length plan.steps) 8 && leb 1 (length plan.recovery_units))
      "effect_journal_plan_invalid"
  sync_within encoded_length turn plan now (live_ids turn.id journal) journal
