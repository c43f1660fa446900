-- ===== src/Journal/Failure.antt =====
-- `_mark_turn_failure`, `_mark_reverted`, `_all_turn_effects_rolled_back` and the hook on `write`.
use ai_odoo_assistant.Prelude.{
  ℕ, leb, Bool, true, false, ◌&&◌, Option, none, some, List, [], map, all, length, if◌then◌else◌,
}
use ai_odoo_assistant.Plan.{
  RecoveryMode, RecoveryUnit, UnitState, EffectPlan, unit_executing, unit_completed, external,
  JournalClass, reversible,
}
use ai_odoo_assistant.Journal.{
  EffectState, executing, verified, skipped, rolled_back, uncertain, reverted, Row, is_of, rows_of,
}
use ai_odoo_assistant.Journal.Sync.{find_unit}
use ai_odoo_assistant.Turn.{State, failed, recovery_required, cancelled}

abbrev is_external : RecoveryMode → Bool
is_external external = true
is_external _ = false

-- The state of an interrupted unit's row.
abbrev pub interrupted : RecoveryMode → EffectState
interrupted mode = if is_external mode then uncertain else rolled_back

abbrev pub if_executing : EffectState → EffectState → EffectState
if_executing executing new = new
if_executing state new = state

-- The state of an unsettled row whose unit has this mode and this state.
abbrev pub unit_failure : RecoveryMode → UnitState → EffectState → EffectState
unit_failure mode unit_completed state = uncertain
unit_failure mode unit_executing state = interrupted mode
unit_failure mode UnitState.prepared state = if_executing state (interrupted mode)

-- row.state in {"verified", "skipped", "reverted"}
abbrev pub is_settled : EffectState → Bool
is_settled verified = true
is_settled skipped = true
is_settled reverted = true
is_settled _ = false

abbrev unsettled_failure : EffectState → Option RecoveryUnit → EffectState
unsettled_failure state none = if_executing state uncertain
unsettled_failure state (some u) = unit_failure u.mode u.state state

-- The state of a row after `_mark_turn_failure`; `unit` is the row's unit in the plan.
unfoldable pub failure_state : EffectState → Option RecoveryUnit → EffectState
failure_state state unit = if is_settled state then state else unsettled_failure state unit

-- The units of the turn's stored plan, where it has one.
abbrev pub units_of : Option EffectPlan → List RecoveryUnit
units_of none = []
units_of (some plan) = plan.recovery_units

unfoldable pub mark_row : ℕ → Option EffectPlan → Row → Row
unfolding failure_state
mark_row turn plan r =
    if is_of turn r
    then record r { state = failure_state r.state (find_unit r.unit_id (units_of plan)) }
    else r

-- `_mark_turn_failure`; `plan` is the plan of the turn's envelope.
unfoldable pub mark_turn_failure : ℕ → Option EffectPlan → List Row → List Row
unfolding mark_row
mark_turn_failure turn plan = map (mark_row turn plan)

abbrev is_verified : EffectState → Bool
is_verified verified = true
is_verified _ = false

abbrev is_reversible : JournalClass → Bool
is_reversible reversible = true
is_reversible _ = false

unfoldable pub revert_row : ℕ → Row → Row
revert_row turn r =
    if is_of turn r && is_reversible r.classification && is_verified r.state
    then record r { state = reverted }
    else r

-- `_mark_reverted`
unfoldable pub mark_reverted : ℕ → List Row → List Row
unfolding revert_row
mark_reverted turn = map (revert_row turn)

-- row.state in {"rolled_back", "skipped"}
abbrev pub is_without_effect : EffectState → Bool
is_without_effect rolled_back = true
is_without_effect skipped = true
is_without_effect _ = false

-- `_all_turn_effects_rolled_back`
unfoldable pub all_turn_effects_rolled_back : ℕ → List Row → Bool
all_turn_effects_rolled_back turn journal =
    let rows = rows_of turn journal in
    leb 1 (length rows) && all (λ (r : Row). is_without_effect r.state) rows

-- terminal in {"failed", "recovery_required", "cancelled"}
abbrev is_interrupted_end : State → Bool
is_interrupted_end failed = true
is_interrupted_end recovery_required = true
is_interrupted_end cancelled = true
is_interrupted_end _ = false

-- What `write` adds when it stores a state in a turn with this barrier and this plan.
unfoldable pub after_write : ℕ → State → Bool → Option EffectPlan → List Row → List Row
after_write turn state write_barrier plan journal =
    if is_interrupted_end state && write_barrier
    then mark_turn_failure turn plan journal
    else journal
