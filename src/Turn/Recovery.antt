-- ===== src/Turn/Recovery.antt =====
-- The writes that follow a plan: its checkpoints behind the barrier (effect_recovery_runtime.py),
-- what the journal's certificate makes of a turn that waits for recovery (embedded_runtime.py), and
-- the compensation that a user asks for (turn_control.py), under
-- addons/odoo_ai_assistant/models/.
use ai_odoo_assistant.Prelude.{
  String, Bool, true, false, ◌&&◌, Option, none, some, List, [], ◌∷◌, if◌then◌else◌,
}
use ai_odoo_assistant.Prelude.Result.{Result, ok, err, require, ◌>>◌, ◌>>=◌}
use ai_odoo_assistant.Turn.{
  State, Turn, Envelope, Response, completed, cancelled, failed, recovery_required, plan_completed,
}
use ai_odoo_assistant.Turn.Lifecycle.{append_optional}
use ai_odoo_assistant.Turn.Handlers.{owns}

-- The plan that a checkpoint, or the end of an execution, stores.
unfoldable pub store_plan : String → Envelope → Turn → Turn
store_plan token envelope t =
    if owns token t then record t { capability_plan_payload = some envelope } else t

abbrev pub is_recovery_required : State → Bool
is_recovery_required recovery_required = true
is_recovery_required _ = false

-- `_reconcile_confirmed_atomic_rollback`; `rolled_back` is the journal's certificate, and `parses`
-- whether the stored failure is an envelope.
unfoldable pub reconcile_confirmed_atomic_rollback : Bool → Bool → Bool → Turn → Turn
unfolding append_optional
reconcile_confirmed_atomic_rollback rolled_back parses lands t =
    if is_recovery_required t.state && (t.write_barrier && (rolled_back && parses))
    then append_optional lands "recovery.rolled_back" (record t { state = failed })
    else t

-- turn.state in {"completed", "cancelled"}
abbrev pub has_settled : State → Bool
has_settled completed = true
has_settled cancelled = true
has_settled _ = false

abbrev is_plan_completed : Option Envelope → Bool
is_plan_completed none = false
is_plan_completed (some e) = elim e.plan_state [ plan_completed ↦ true | _ ↦ false ]

-- The events that the compensators append.
pub append_all : List String → Turn → Turn
unfolding append_optional
append_all [] t = t
append_all (type ∷ types) t = append_all types (append_optional true type t)

revert_row : List String → Response → String → Bool → Turn → Turn
unfolding append_optional
revert_row types response rest lands t =
    let logged = append_all types t in
    append_optional lands "reversion.completed" (record t {
      result_payload = some (record response { rest = rest });
      last_event_sequence = logged.last_event_sequence;
      event_ids = logged.event_ids;
    })

-- `revert_for_current_user`; `available` is whether the row's reversion_state is "available", and
-- `compensated` the rest of the response after the compensation, or the error of it.
unfoldable pub revert_for_current_user :
    Bool → List String → Result String → Bool → Turn → Result Turn
unfolding revert_row
revert_for_current_user available types compensated lands t = do
  require (has_settled t.state) "turn_reversion_not_ready"
  require (t.write_barrier && available) "turn_reversion_unavailable"
  require (is_plan_completed t.capability_plan_payload) "turn_reversion_unavailable"
  rest ← compensated
  elim t.result_payload [
    | none ↦ err "turn_reversion_response_invalid"
    | some response ↦ ok (revert_row types response rest lands t)
  ]
