-- ===== src/Agent/Service.antt =====
-- The methods of `AgentTurnService` that record, store and finish, and its checks of decisions and plans:
-- addons/odoo_ai_assistant/runtime/agent/service.py, with decision_validation.py of the same directory.
use ai_odoo_assistant.Prelude.{
  zero, suc, leb, Bool, true, false, not, ◌&&◌, ◌||◌, Option, none, some, String, List, [], ◌∷◌,
  mem, if◌then◌else◌, length, str_eq,
}
use ai_odoo_assistant.Prelude.PyText.{codes, strip, strip_text, has_nul, squeeze}
use ai_odoo_assistant.Prelude.Json.{
  Json, null, bool, str, obj, int, ℤ, pos, negsuc, Fields, end, field, get_value, field_count,
  json_eq,
}
use ai_odoo_assistant.Prelude.Result.{Result, ok, err, require}
use ai_odoo_assistant.Agent.Transcript.{WorkingItem, append_working_item, transcript_payload}
use ai_odoo_assistant.Agent.TaskPlan.{TaskPlan, plan_payload, parse_task_plan}
use ai_odoo_assistant.Agent.Accounting.{
  PlannedCapability, call_state, latest_task_plan, pending_decisions,
}
use ai_odoo_assistant.Agent.Host.{
  NextDecision, final_answer, task_plan_update, reasoning_capability_call, plan_step_proposal,
  Rejected, rejected_decision, Storing, stored, turn_error, other_error, persisted, unpersisted,
  looked_for_cancellation, work_started, telemetry, CapabilityDefinition, AgentHost, M, pure, raise,
  lift, ◌>>=◌, ◌>>◌, cases, items_now, history_now, work_is_started, set_items, start_work, emit,
}

pub record AgentTurnResult : Type 0 where
  pub answer : String
  pub confidence : String
  pub plan : List PlannedCapability
  pub task_plan : Option TaskPlan

-- What `validate_next_decision` returns or raises.
pub data Judgement : Type 0 where
  accepted : NextDecision → Judgement
  rejected : String → Rejected → Judgement

unfoldable pub find_definition : String → List CapabilityDefinition → Option CapabilityDefinition
find_definition name [] = none
find_definition name (d ∷ ds) = if str_eq d.name name then some d else find_definition name ds

-- The code of an error of `parse_task_plan`; a TypeError has none.
abbrev plan_error_code : String → String
plan_error_code code = if str_eq code "TypeError" then "agent_task_plan_invalid" else code

-- The payload of a call or a proposal, as `_record_decision` renames its kind.
unfoldable pub decision_fields : NextDecision → Fields
decision_fields (reasoning_capability_call call_id capability arguments) =
    field "call_id" (str call_id) (
      field "capability" (str capability) (
        field "arguments" (obj arguments)
          (field "decision_kind" (str "reasoning_capability_call") end)))
decision_fields (plan_step_proposal call_id capability arguments user_summary) =
    field "call_id" (str call_id) (
      field "capability" (str capability) (
        field "arguments" (obj arguments) (
          field "user_summary" (str user_summary)
            (field "decision_kind" (str "plan_step_proposal") end))))
decision_fields (final_answer answer confidence) =
    field "answer" (str answer)
      (field "confidence" (str confidence) (field "decision_kind" (str "final_answer") end))
decision_fields (task_plan_update plan) =
    field "task_plan" (obj (plan_payload plan)) (field "decision_kind" (str "task_plan_update") end)

unfoldable pub error_fields : (call_id capability code : String) → Fields
error_fields call_id capability code =
    field "call_id" (str call_id)
      (field "capability" (str capability) (field "code" (str code) end))

-- The answer without the spaces around it.
unfoldable pub validated_answer : (answer confidence : String) → Result String
validated_answer answer confidence =
    let bare = length (strip (codes answer)) in
    if not (leb 1 bare && leb bare 16384 && not (has_nul (codes answer)))
    then err "agent_answer_invalid"
    else if not (mem confidence ("high" ∷ "medium" ∷ "low" ∷ []))
    then err "agent_confidence_invalid"
    else ok (strip_text answer)

module _ (host : AgentHost) where
  -- A capability of the effective list, and its arguments.
  abbrev judge :
      (known unknown : String)
      → List CapabilityDefinition
      → String
      → Fields
      → NextDecision
      → (String → NextDecision)
      → Judgement
  judge bad_arguments unknown definitions capability arguments decision rebuilt =
      elim (find_definition capability definitions) [
        | none ↦ rejected unknown (rejected_decision decision)
        | some d ↦
            elim (host.validate_payload arguments d.input_schema d.max_input_bytes bad_arguments) [
              | some code ↦ rejected code (rejected_decision decision)
              | none ↦ accepted (rebuilt d.name)
            ]
      ]

  unfoldable pub validate_next_decision :
      (reasoning planning : List CapabilityDefinition) → NextDecision → Judgement
  validate_next_decision reasoning planning (final_answer answer confidence) =
      accepted (final_answer answer confidence)
  validate_next_decision reasoning planning (task_plan_update plan) =
      elim (parse_task_plan (obj (plan_payload plan))) [
        | err code ↦ rejected (plan_error_code code) (rejected_decision (task_plan_update plan))
        | ok parsed ↦ accepted (task_plan_update parsed)
      ]
  validate_next_decision reasoning planning
        (reasoning_capability_call call_id capability arguments) =
      judge "agent_capability_arguments_invalid" "agent_reasoning_capability_not_allowed" reasoning
        capability arguments (reasoning_capability_call call_id capability arguments)
        (λ name. reasoning_capability_call call_id name arguments)
  validate_next_decision reasoning planning
        (plan_step_proposal call_id capability arguments summary) =
      judge "agent_plan_arguments_invalid" "agent_plan_capability_not_allowed" planning capability
        arguments (plan_step_proposal call_id capability arguments summary)
        (λ name. plan_step_proposal call_id name arguments (squeeze summary))

  unfoldable pub keep : Result (List WorkingItem) → M (Option String)
  keep (ok combined) = set_items combined >> pure none
  keep (err code) = pure (some code)

  -- self._working_items = append_working_item(self._working_items, kind, data), and the code of the error
  -- where it raises one, for the handler that follows.
  unfoldable pub try_append : String → Fields → M (Option String)
  try_append kind fields = do
    items ← items_now
    keep (append_working_item host.text items kind fields)

  unfoldable pub append : String → Fields → M (Unit {0})
  append kind fields = do error ← try_append kind fields; cases error (pure tt) raise

  abbrev storing_error : Option String → String → String
  storing_error code message =
      let is_lost : Bool = str_eq message "agent_turn_lease_lost" in
      let is_coded : Bool = elim code [
        | none ↦ false
        | some c ↦ str_eq c "agent_turn_lease_lost"
      ] in
      if is_coded || is_lost
      then "agent_turn_lease_lost"
      else "agent_working_transcript_persist_failed"

  unfoldable pub finish_storing : List WorkingItem → Storing → M (Unit {0})
  finish_storing items stored = emit (persisted items)
  finish_storing items (turn_error code) = emit unpersisted >> raise code
  finish_storing items (other_error code message) =
      emit unpersisted >> raise (storing_error code message)

  unfoldable pub persist : M (Unit {0})
  persist = do
    items ← items_now
    lift (transcript_payload host.text items)
    history ← history_now
    cases host.persist (pure tt) (λ callback. finish_storing items (callback history items))

  unfoldable pub record_item : String → Fields → M (Unit {0})
  record_item kind fields = do append kind fields; persist

  unfoldable pub ensure_not_cancelled : M (Unit {0})
  ensure_not_cancelled = do
    history ← history_now
    emit looked_for_cancellation
    if host.is_cancelled history then raise "agent_cancelled" else pure tt

  unfoldable pub mark_work_started : M (Unit {0})
  mark_work_started = do
    is_started ← work_is_started
    if is_started
        then pure tt
        else (do start_work; if host.announces_work then emit work_started else pure tt)

  unfoldable pub record_decision : NextDecision → M (Unit {0})
  record_decision decision = record_item "assistant_decision" (decision_fields decision)

  unfoldable pub record_capability_error :
      (call_id capability code : String) → Fields → M (Unit {0})
  record_capability_error call_id capability code details = do
    let bare = error_fields call_id capability code
    let full = field "call_id" (str call_id) (
        field "capability" (str capability)
          (field "code" (str code) (field "details" (obj details) end)))
    let has_details = leb 1 (field_count details)
    raised ← try_append "capability_error" (if has_details then full else bare)
    cases raised (pure tt) (λ error.
        if not has_details || not (str_eq error "agent_working_item_too_large")
        then raise error
        else append "capability_error" bare)
    persist

  unfoldable pub finish_safely : String → M AgentTurnResult
  finish_safely code = do
    items ← items_now
    let answer = host.safe_failure_answer items code
    record_item "final_answer" (
        field "answer" (str answer) (
          field "confidence" (str "low")
            (field "discard_plan" (bool true) (field "host_fallback_code" (str code) end))))
    pure (record { answer = answer; confidence = "low"; plan = []; task_plan = none })

  abbrev same_int : ℤ → ℤ → Bool
  same_int y z = json_eq (int y) (int z)

  abbrev next_revision : Option TaskPlan → ℤ
  next_revision none = pos 1
  next_revision (some plan) = elim plan.revision [
    | pos n ↦ pos (suc n)
    | negsuc n ↦ elim n [ zero ↦ pos 0 | suc m ↦ negsuc m ]
  ]

  unfoldable pub record_task_plan : TaskPlan → M (Unit {0})
  record_task_plan plan = do
    items ← items_now
    previous ← lift (latest_task_plan items)
    lift (
        require (same_int plan.revision (next_revision previous))
          "agent_task_plan_revision_invalid")
    record_item "task_plan" (plan_payload plan)
    emit telemetry

  unfoldable pub record_rejected_decision :
      NextDecision → (call_id capability code : String) → M (Unit {0})
  record_rejected_decision decision call_id capability code = do
    items ← items_now
    cases (call_state items call_id) (pure tt) (λ s. raise "agent_working_call_id_duplicate")
    record_decision decision
    record_item "capability_error" (error_fields call_id capability code)

  abbrev revision_json : Option ℤ → Json
  revision_json none = null
  revision_json (some z) = int z

  unfoldable pub record_rejected_revision : Option ℤ → String → M (Unit {0})
  record_rejected_revision revision code =
      record_item "task_plan_error"
        (field "code" (str code) (field "rejected_revision" (revision_json revision) end))

  unfoldable pub check_user_input : String → List WorkingItem → M (Unit {0})
  check_user_input message [] = record_item "user_input" (field "message" (str message) end)
  check_user_input message (first ∷ rest) = lift (
      require
        (str_eq first.kind "user_input" && json_eq (get_value "message" first.fields) (str message))
        "agent_working_transcript_request_mismatch")

  unfoldable pub ensure_user_input : String → M (Unit {0})
  ensure_user_input message = do items ← items_now; check_user_input message items

  abbrev interrupted_code : Json → String
  interrupted_code decision_kind =
      if json_eq decision_kind (str "plan_step_proposal")
      then "agent_plan_proposal_interrupted"
      else "agent_capability_call_interrupted"

  abbrev text_or_unknown : Json → String
  text_or_unknown (str s) = s
  text_or_unknown _ = "unknown"

  unfoldable pub close_calls : List (String × Fields) → M (Unit {0})
  close_calls [] = pure tt
  close_calls ((call_id, fields) ∷ pending) = do
    append "capability_error" (
        error_fields call_id (text_or_unknown (get_value "capability" fields))
          (interrupted_code (get_value "decision_kind" fields)))
    close_calls pending

  unfoldable pub close_interrupted_calls : M (Unit {0})
  close_interrupted_calls = do
    items ← items_now
    let pending = pending_decisions items
    close_calls pending
    if leb 1 (length pending) then persist else pure tt
