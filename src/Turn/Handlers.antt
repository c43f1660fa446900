-- ===== src/Turn/Handlers.antt =====
-- The writes of the runtime that works on a claimed turn (models/turn_queue.py,
-- embedded_runtime.py, effect_recovery_runtime.py) and of its user (turn_queue.py,
-- turn_control.py, turn_intervention.py, embedded_runtime.py), under
-- addons/odoo_ai_assistant/.
use ai_odoo_assistant.Prelude.{
  ℕ, ◌+◌, ltb, leb, max, min, String, Bool, true, false, not, ◌&&◌, ◌||◌, Option, none, some,
  length, if◌then◌else◌,
}
use ai_odoo_assistant.Prelude.PyText.{codes, strip}
use ai_odoo_assistant.Prelude.Result.{Result, ok, err, require, ◌>>◌}
use ai_odoo_assistant.Turn.{
  Turn, Envelope, Response, PlanState, queued, awaiting_confirmation, completed, cancelled,
  plan_awaiting, plan_authorized, plan_rejected, is_terminal, is_queued, is_running, is_awaiting,
}
use ai_odoo_assistant.Turn.Lifecycle.{
  Interrupted, append_optional, has_lease, finalize_interrupted_answer, max_attempts_with_redirects,
}

-- CHECK(attempt_count >= 0 AND max_attempts >= 1 AND attempt_count <= max_attempts)
abbrev pub check_attempts : Turn → Bool
check_attempts t = leb 1 t.max_attempts && leb t.attempt_count t.max_attempts

-- turn.state == "running" and turn.lease_token == lease_token
abbrev pub owns : String → Turn → Bool
owns token t = is_running t.state && has_lease token t

-- `_commit_plan_barrier`
unfoldable pub commit_plan_barrier : String → Envelope → ℕ → Bool → Turn → Result Turn
unfolding append_optional
commit_plan_barrier token envelope now lands t = do
  require (owns token t) "agent_turn_lease_lost"
  ok (
      append_optional lands "execution.barrier" (record t {
        capability_plan_payload = some envelope;
        write_barrier = true;
        heartbeat_at = some now;
      }))

-- `_persist_awaiting_plan`
unfoldable pub persist_awaiting_plan : Envelope → Response → ℕ → Bool → Turn → Turn
unfolding append_optional
persist_awaiting_plan envelope response now lands t =
    append_optional lands "approval.required" (record t {
      state = awaiting_confirmation;
      capability_plan_payload = some envelope;
      result_payload = some response;
      assistant_message = some response.answer;
      lease_token = none;
      lease_expires_at = none;
      heartbeat_at = some now;
    })

-- 1 <= len(answer.strip()) <= 16_384
answer_fits : String → Bool
answer_fits answer = let n = length (strip (codes answer)) in leb 1 n && leb n 16384

-- `_stage_completed_turn`, under the test of `_execute_claimed_turn` after the run, and the event
-- after its commit. The last error is that of a run which left the turn in another state.
unfoldable pub complete_claimed_turn : String → Response → ℕ → Bool → Turn → Result Turn
unfolding append_optional answer_fits
complete_claimed_turn token result now lands t =
    if owns token t
    then (do
      require (answer_fits result.answer) "runtime_contract_invalid"
      ok (
          append_optional lands "completed" (record t {
            state = completed;
            assistant_message = some result.answer;
            result_payload = some result;
            completed_at = some now;
            lease_token = none;
            lease_expires_at = none;
            heartbeat_at = some now;
          })))
    else if is_awaiting t.state
    then ok t
    else err "runtime_contract_invalid"

pub data Phase : Type 0 where
  prepare preflight execution : Phase

-- The guards of `_repair_recoverable_plan`: after a failed execution, one atomic unit whose
-- journal shows a whole rollback; before any execution, no barrier.
repairable : Phase → Bool → Bool → Turn → Bool
repairable execution single_atomic rolled_back t = single_atomic && rolled_back
repairable _ single_atomic rolled_back t = not t.write_barrier

-- The write of `_repair_recoverable_plan`, once `_ensure_turn_control_current` has passed; `code` is
-- that of the step's error.
unfoldable pub repair_recoverable_plan : Phase → Bool → Bool → String → Turn → Result Turn
unfolding repairable
repair_recoverable_plan phase single_atomic rolled_back code t = do
  require (repairable phase single_atomic rolled_back t) code
  ok (record t { write_barrier = false; capability_plan_payload = none; error_code = none })

abbrev pub is_plan_awaiting : PlanState → Bool
is_plan_awaiting plan_awaiting = true
is_plan_awaiting _ = false

pub data Decision : Type 0 where
  approve reject : Decision

-- The branches of `decide_capability_plan_for_current_user`, behind its guards.
decide_with : Decision → Envelope → Response → ℕ → Bool → Turn → Turn
unfolding append_optional
decide_with reject envelope response now lands t =
    append_optional lands "approval.rejected" (record t {
      state = completed;
      capability_plan_payload = some (record envelope { plan_state = plan_rejected });
      result_payload = some response;
      assistant_message = some response.answer;
      completed_at = some now;
      lease_token = none;
      lease_expires_at = none;
    })
decide_with approve envelope response now lands t =
    append_optional lands "approval.approved" (record t {
      state = queued;
      queued_at = now;
      max_attempts = max t.max_attempts (t.attempt_count + 1);
      capability_plan_payload =
          some (record { plan_state = plan_authorized; human_approved = true });
      result_payload = none;
      error_code = none;
      lease_token = none;
      lease_expires_at = none;
    })

-- `decide_capability_plan_for_current_user`; `response` is the reply that a rejection stores.
unfoldable pub decide_capability_plan : Decision → Response → ℕ → Bool → Turn → Result Turn
unfolding decide_with
decide_capability_plan decision response now lands t = do
  require (is_awaiting t.state) "plan_not_awaiting"
  elim t.capability_plan_payload [
    | none ↦ err "plan_unavailable"
    | some envelope ↦
        if is_plan_awaiting envelope.plan_state
        then ok (decide_with decision envelope response now lands t)
        else err "plan_unavailable"
  ]

abbrev reject_envelope : Option Envelope → Option Envelope
reject_envelope none = none
reject_envelope (some e) = some (record e { plan_state = plan_rejected })

-- `cancel_for_current_user`, the chain of its overrides. A row that a worker has locked, and a
-- running one, are only flagged.
unfoldable pub cancel_for_current_user : Bool → Interrupted → ℕ → Bool → Turn → Turn
unfolding append_optional finalize_interrupted_answer
cancel_for_current_user row_locked found now lands t =
    if is_terminal t.state
    then t
    else if is_queued t.state
    then (if row_locked
        then record t { control_cancel_requested = true }
        else append_optional lands "cancelled" (record t {
          control_cancel_requested = true;
          state = cancelled;
          cancel_requested_at = some now;
          completed_at = some now;
          lease_token = none;
          lease_expires_at = none;
        }))
    else if is_awaiting t.state
    then append_optional lands "cancelled" (
        finalize_interrupted_answer found (record t {
          state = cancelled;
          capability_plan_payload = reject_envelope t.capability_plan_payload;
          cancel_requested_at = some now;
          completed_at = some now;
          lease_token = none;
          lease_expires_at = none;
        }))
    else record t { control_cancel_requested = true }

-- _MAX_INTERVENTIONS
abbrev pub max_interventions : ℕ
max_interventions = 16

abbrev is_redirectable : Turn → Bool
is_redirectable t = is_queued t.state || is_running t.state || is_awaiting t.state

abbrev pub has_conversation : Turn → Bool
has_conversation t = elim t.conversation_id [ none ↦ false | some _ ↦ true ]

-- The row after a stored redirect: a plan that waits for approval is given up.
redirect_row : ℕ → Bool → Turn → Turn
unfolding append_optional
redirect_row now lands t =
    if is_awaiting t.state
    then record (append_optional lands "approval.rejected" t) {
      state = queued;
      queued_at = now;
      capability_plan_payload = none;
      result_payload = none;
      assistant_message = none;
      error_code = none;
      lease_token = none;
      lease_expires_at = none;
      completed_at = none;
      max_attempts = min max_attempts_with_redirects (max t.max_attempts (t.attempt_count + 2));
    }
    else if is_queued t.state
    then append_optional lands "redirect.requested" t
    else t

-- `redirect_for_current_user` of turn_intervention.py, for a message that is not a repetition;
-- `fits` is the test of `_validate_total_budget`. The last error is the CHECK of the table.
unfoldable pub redirect_for_current_user : Bool → ℕ → Bool → Turn → Result Turn
unfolding redirect_row
redirect_for_current_user fits now lands t = do
  require (not t.write_barrier) "turn_effect_already_committed"
  require (is_redirectable t) "turn_not_redirectable"
  require (has_conversation t) "agent_turn_control_invalid"
  require (ltb t.intervention_count max_interventions) "turn_redirect_limit_exceeded"
  require fits "turn_redirect_budget_exceeded"
  let row = record (redirect_row now lands t) { intervention_count = t.intervention_count + 1 }
  require (check_attempts row) "turn_attempts_nonnegative"
  ok row
