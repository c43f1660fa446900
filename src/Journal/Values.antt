-- ===== src/Journal/Values.antt =====
-- The values that a step of a plan gives its row.
use ai_odoo_assistant.Prelude.{ℕ, Option, List, ◌≡◌, refl}
use ai_odoo_assistant.Prelude.Json.{Json, Fields}
use ai_odoo_assistant.Prelude.Result.{ok, Ensures, Ensures-bind, Ensures-ok}
use ai_odoo_assistant.Plan.{Step, StepState, UnitState, RecoveryUnit, step_completed}
use ai_odoo_assistant.Journal.{Row, EffectState, verified, TurnIdentity}
use ai_odoo_assistant.Journal.Sync.{row_of, row_values, target_state}

-- A row with the identity of a step of a turn.
pub record IsFor (turn : TurnIdentity) (s : Step) (r : Row) : Type 0 where
  pub turn_id : r.turn_id ≡ turn.id
  pub unit_id : r.unit_id ≡ s.recovery_unit_id
  pub step_id : r.step_id ≡ s.step_id
  pub capability : r.capability ≡ s.capability
  pub capability_version : r.capability_version ≡ s.version
  pub recovery_mode : r.recovery_mode ≡ s.recovery_mode
  pub classification : r.classification ≡ s.journal_classification
  pub done : s.state ≡ step_completed → r.state ≡ verified

target-verified :
    (s : Step) (step : StepState) (unit : UnitState) (state : EffectState)
    → target_state s step unit ≡ ok state
    → step ≡ step_completed
    → state ≡ verified
target-verified s step_completed unit state h e = cc h
target-verified s step unit state h e = cc e

row_of-IsFor :
    (turn : TurnIdentity) (s : Step) (state : EffectState) (before after receipt : Fields)
    (expires_at : ℕ) (unit : UnitState)
    → target_state s s.state unit ≡ ok state
    → Ensures (IsFor turn s) (ok (row_of turn s state before after receipt expires_at))
unfolding row_of
row_of-IsFor turn s state before after receipt expires_at unit h = Ensures-ok _ (record {
  turn_id = refl;
  unit_id = refl;
  step_id = refl;
  capability = refl;
  capability_version = refl;
  recovery_mode = refl;
  classification = refl;
  done = target-verified s s.state unit state h;
})

pub row_values-IsFor :
    (encoded_length : Json → Option ℕ) (turn : TurnIdentity) (units : List RecoveryUnit)
    (expires_at : ℕ) (s : Step)
    → Ensures (IsFor turn s) (row_values encoded_length turn units expires_at s)
unfolding row_values
row_values-IsFor encoded_length turn units expires_at s =
    search (Ensures-bind, row_of-IsFor) depth 40
