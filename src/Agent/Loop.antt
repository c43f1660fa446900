-- ===== src/Agent/Loop.antt =====
-- The decision loop of a turn: `run`, `_validate_request`, `_run_decision_loop` and `_resume_terminal` of
-- addons/odoo_ai_assistant/runtime/agent/service.py.
use ai_odoo_assistant.Prelude.{
  ℕ, zero, suc, ◌-◌, leb, ltb, ◌==◌, Bool, false, not, ◌&&◌, ◌||◌, Option, none, some, String, List,
  [], ◌∷◌, reverse, mem, if◌then◌else◌, length, str_eq,
}
use ai_odoo_assistant.Prelude.PyText.{codes, strip, has_nul}
use ai_odoo_assistant.Prelude.Json.{pos, Json, bool, str, obj, Fields, end, field, get_value}
use ai_odoo_assistant.Prelude.Result.{Result, ok, err}
use ai_odoo_assistant.Agent.Budgets.{
  AgentBudgetSet, remaining, provider_decision_limit, resolve_agent_budgets,
}
use ai_odoo_assistant.Agent.Transcript.{WorkingItem, working_transcript_bytes}
use ai_odoo_assistant.Agent.Accounting.{
  PlannedCapability, call_state, provider_decisions_used, capability_calls_used,
  definition_call_count, trailing_failure_count, terminal_error_pending, terminal_call_errors,
  latest_task_plan, proposed_plan,
}
use ai_odoo_assistant.Agent.Host.{
  NextDecision, final_answer, task_plan_update, reasoning_capability_call, plan_step_proposal,
  Rejected, rejected_decision, rejected_revision, nothing_kept, Reply, decided, misjudged, failed,
  Execution, succeeded, refused, broken, asked, executed, CapabilityDefinition, AgentHost, M, pure,
  raise, lift, ◌>>=◌, ◌>>◌, cases, items_now, history_now, emit,
}
use ai_odoo_assistant.Agent.Service.{
  AgentTurnResult, Judgement, accepted, rejected, find_definition, error_fields, validated_answer,
  validate_next_decision, try_append, persist, record_item, ensure_not_cancelled, mark_work_started,
  record_decision, record_capability_error, finish_safely, record_task_plan,
  record_rejected_decision, record_rejected_revision, ensure_user_input, close_interrupted_calls,
}
use ai_odoo_assistant.Agent.Proposal.{validate_plan}

-- The local variables of the loop.
pub record Counters : Type 0 where
  pub provider_decisions : ℕ
  pub capability_calls : ℕ
  pub consecutive_failures : ℕ
  pub terminal_error : Option String

-- An iteration returns from the loop, or goes on with these variables.
pub data Round : Type 0 where
  finished : AgentTurnResult → Round
  again : Counters → Round

abbrev failed_once : Counters → Counters
failed_once c = record {
  provider_decisions = c.provider_decisions;
  capability_calls = c.capability_calls;
  consecutive_failures = suc c.consecutive_failures;
  terminal_error = c.terminal_error;
}

abbrev decided_once : Counters → Counters
decided_once c = record {
  provider_decisions = suc c.provider_decisions;
  capability_calls = c.capability_calls;
  consecutive_failures = c.consecutive_failures;
  terminal_error = c.terminal_error;
}

abbrev called_once : Counters → Counters
called_once c = record {
  provider_decisions = c.provider_decisions;
  capability_calls = suc c.capability_calls;
  consecutive_failures = c.consecutive_failures;
  terminal_error = c.terminal_error;
}

-- No failure in a row any more, and this terminal error.
abbrev settled : Option String → Counters → Counters
settled error c = record {
  provider_decisions = c.provider_decisions;
  capability_calls = c.capability_calls;
  consecutive_failures = 0;
  terminal_error = error;
}

unfoldable pub max_calls_of : List CapabilityDefinition → String → Result ℕ
max_calls_of definitions capability = elim (find_definition capability definitions) [
  | none ↦ err "agent_reasoning_capability_not_allowed"
  | some d ↦ ok d.max_calls
]

abbrev empty_plan : List PlannedCapability → Bool
empty_plan plan = length plan == 0

abbrev text_of : Json → Result String
text_of (str s) = ok s
text_of _ = err "agent_working_transcript_invalid"

abbrev is_true : Json → Bool
is_true (bool b) = b
is_true _ = false

module _ (host : AgentHost) (budgets : AgentBudgetSet) (allow_plan_proposals : Bool)
    (reasoning planning : List CapabilityDefinition) where
  unfoldable pub finish : String → M Round
  finish code = do result ← finish_safely host code; pure (finished result)

  -- One more failure in a row, and the end where they are too many.
  unfoldable pub fail_again : Counters → M Round
  fail_again c =
      if ltb budgets.max_consecutive_failures (suc c.consecutive_failures)
      then finish "agent_correctable_failure_budget_exceeded"
      else pure (again (failed_once c))

  unfoldable pub checked_plan : List WorkingItem → M (List PlannedCapability)
  checked_plan items = if not allow_plan_proposals then pure [] else (do
    proposed ← lift (proposed_plan items)
    if empty_plan proposed then pure [] else lift (validate_plan host budgets planning proposed))

  unfoldable pub answer_turn : (answer confidence : String) → M Round
  answer_turn answer confidence = do
    text ← lift (validated_answer answer confidence)
    record_item host "final_answer"
        (field "answer" (str text) (field "confidence" (str confidence) end))
    items ← items_now
    plan ← checked_plan items
    task_plan ← lift (latest_task_plan items)
    pure (
        finished
          (record { answer = text; confidence = confidence; plan = plan; task_plan = task_plan }))

  -- A decision that was not valid.
  unfoldable pub reject : Counters → String → Rejected → M Round
  reject c code (rejected_decision (reasoning_capability_call call_id capability arguments)) =
      if ltb budgets.max_capability_calls (suc c.capability_calls)
      then finish "agent_capability_call_budget_exceeded"
      else (do
        record_rejected_decision host (reasoning_capability_call call_id capability arguments)
            call_id capability code
        fail_again (called_once c))
  reject c code (rejected_decision (plan_step_proposal call_id capability arguments summary)) = do
    record_rejected_decision host (plan_step_proposal call_id capability arguments summary) call_id
        capability code
    fail_again c
  reject c code (rejected_decision (task_plan_update plan)) = do
    record_rejected_revision host (some plan.revision) code
    fail_again c
  reject c code (rejected_decision (final_answer answer confidence)) = raise code
  reject c code (rejected_revision revision) = do
    record_rejected_revision host revision code
    fail_again c
  reject c code nothing_kept = raise code

  unfoldable pub propose : Counters → (call_id capability : String) → Fields → String → M Round
  propose c call_id capability arguments summary = do
    record_decision host (plan_step_proposal call_id capability arguments summary)
    if not allow_plan_proposals
        then (do
          record_item host "capability_error"
              (error_fields call_id capability "agent_plan_proposal_not_enabled")
          raise "agent_plan_proposal_not_enabled")
        else (do
          before ← items_now
          current ← lift (proposed_plan before)
          if leb budgets.max_effect_steps (length current)
              then (do
                record_item host "capability_error"
                    (error_fields call_id capability "agent_plan_limit_exceeded")
                raise "agent_plan_limit_exceeded")
              else (do
                record_item host "plan_step_proposed" (
                    field "call_id" (str call_id) (
                      field "capability" (str capability) (
                        field "arguments" (obj arguments)
                          (field "user_summary" (str summary) end))))
                if not (budgets.max_effect_steps == 1) then pure (again (settled none c)) else (do
                  items ← items_now
                  proposed ← lift (proposed_plan items)
                  plan ← lift (validate_plan host budgets planning proposed)
                  task_plan ← lift (latest_task_plan items)
                  pure (
                      finished (record {
                        answer = "He preparado la acción solicitada para revisión.";
                        confidence = "high";
                        plan = plan;
                        task_plan = task_plan;
                      })))))

  -- What the result of a call leaves in the transcript.
  unfoldable pub receive : Counters → (call_id capability : String) → Execution → M Round
  receive c call_id capability (refused code details) = do
    record_capability_error host call_id capability code details
    if mem code terminal_call_errors then pure (again (settled (some code) c)) else fail_again c
  receive c call_id capability (broken code) = raise code
  receive c call_id capability (succeeded result) = do
    raised ← try_append host "capability_result" (
        field "call_id" (str call_id)
          (field "capability" (str capability) (field "result" (obj result) end)))
    cases raised (persist host >> pure (again (settled none c))) (λ code.
        if not (str_eq code "agent_working_item_too_large")
        then raise code
        else record_item host "capability_error"
            (error_fields call_id capability "agent_capability_result_too_large")
          >> fail_again c)

  -- The call of a capability: recorded and stored before it is executed.
  unfoldable pub perform : Counters → (call_id capability : String) → Fields → M Round
  perform c call_id capability arguments = do
    record_decision host (reasoning_capability_call call_id capability arguments)
    record_item host "capability_call" (
        field "call_id" (str call_id)
          (field "capability" (str capability) (field "arguments" (obj arguments) end)))
    ensure_not_cancelled host
    history ← history_now
    emit (executed call_id capability arguments)
    receive c call_id capability (host.execute history capability arguments)

  unfoldable pub call : Counters → (call_id capability : String) → Fields → M Round
  call c call_id capability arguments = do
    before ← items_now
    cases (call_state before call_id) (perform c call_id capability arguments)
        (λ s. raise "agent_working_call_id_duplicate")

  unfoldable pub reason : Counters → (call_id capability : String) → Fields → M Round
  reason c call_id capability arguments =
      if ltb budgets.max_capability_calls (suc c.capability_calls)
      then finish "agent_capability_call_budget_exceeded"
      else (do
        items ← items_now
        most ← lift (max_calls_of reasoning capability)
        if leb most (definition_call_count items capability)
            then (do
              record_decision host (reasoning_capability_call call_id capability arguments)
              record_item host "capability_error"
                  (error_fields call_id capability "capability_call_limit_exceeded")
              fail_again (called_once c))
            else call (called_once c) call_id capability arguments)

  -- A valid decision.
  unfoldable pub work_on : Counters → NextDecision → M Round
  work_on c (task_plan_update plan) = record_task_plan host plan >> pure (again c)
  work_on c (plan_step_proposal call_id capability arguments summary) =
      propose c call_id capability arguments summary
  work_on c (reasoning_capability_call call_id capability arguments) =
      reason c call_id capability arguments
  work_on c (final_answer answer confidence) = answer_turn answer confidence

  -- A valid decision.
  unfoldable pub act_on : Counters → NextDecision → M Round
  act_on c (final_answer answer confidence) = answer_turn answer confidence
  act_on c decision = cases c.terminal_error (mark_work_started host >> work_on c decision) finish

  unfoldable pub follow : Counters → Judgement → M Round
  follow c (accepted valid) = act_on c valid
  follow c (rejected code kept) = reject c code kept

  unfoldable pub judge_reply : Counters → Reply → M Round
  judge_reply c (decided decision) =
      follow (decided_once c) (validate_next_decision host reasoning planning decision)
  judge_reply c (misjudged code kept) = reject (decided_once c) code kept
  judge_reply c (failed code) = raise (elim code [ none ↦ "agent_reasoning_failed" | some k ↦ k ])

  -- One iteration of the loop.
  unfoldable pub iterate : Counters → M Round
  iterate c = do
    ensure_not_cancelled host
    items ← items_now
    steps ← if allow_plan_proposals then lift (proposed_plan items) else pure []
    bytes ← lift (working_transcript_bytes host.text items)
    left ← lift (
        remaining budgets (pos c.provider_decisions) (pos c.capability_calls)
          (pos c.consecutive_failures) (pos bytes) (pos (length steps)))
    emit (asked left)
    history ← history_now
    judge_reply c (host.next_decision history items)

  abbrev pub go_on : (Counters → M AgentTurnResult) → Round → M AgentTurnResult
  go_on next (finished result) = pure result
  go_on next (again c) = next c

  -- The loop, on the number of iterations that the limit on decisions leaves.
  unfoldable pub rounds : ℕ → Counters → M AgentTurnResult
  rounds zero c = finish_safely host (elim c.terminal_error [
    | none ↦ "agent_provider_decision_budget_exceeded"
    | some code ↦ code
  ])
  rounds (suc n) c = iterate c >>= go_on (rounds n)

  unfoldable pub loop : Counters → M AgentTurnResult
  loop c = rounds (provider_decision_limit budgets - c.provider_decisions) c

  -- Of the items, newest first.
  unfoldable pub resume_from : List WorkingItem → List WorkingItem → M (Option AgentTurnResult)
  resume_from items [] = pure none
  resume_from items (last ∷ before) =
      if not (str_eq last.kind "final_answer") then pure none else (do
        answer ← lift (text_of (get_value "answer" last.fields))
        confidence ← lift (text_of (get_value "confidence" last.fields))
        let discard_plan = is_true (get_value "discard_plan" last.fields)
        plan ← if discard_plan then pure [] else checked_plan items
        text ← lift (validated_answer answer confidence)
        task_plan ← if discard_plan then pure none else lift (latest_task_plan items)
        pure (
            some (record {
              answer = text;
              confidence = confidence;
              plan = plan;
              task_plan = task_plan;
            })))

  unfoldable pub resume_terminal : M (Option AgentTurnResult)
  resume_terminal = do items ← items_now; resume_from items (reverse items)

  -- The variables of the loop at its start, read off the transcript.
  unfoldable pub starting_counters : List WorkingItem → Counters
  starting_counters items = record {
    provider_decisions = provider_decisions_used items;
    capability_calls = capability_calls_used items;
    consecutive_failures = trailing_failure_count items;
    terminal_error = terminal_error_pending items;
  }

  unfoldable pub start_loop : M AgentTurnResult
  start_loop = do close_interrupted_calls host; items ← items_now; loop (starting_counters items)

  -- `_run_decision_loop`, after the budgets
  unfoldable pub run_decision_loop : String → M AgentTurnResult
  run_decision_loop message = do
    ensure_user_input host message
    resumed ← resume_terminal
    cases resumed (start_loop) pure

-- `_validate_request`, of a context with or without superuser rights.
unfoldable pub validate_request :
    (su : Bool) (message conversation_summary : String) → Result (Unit {0})
validate_request su message conversation_summary =
    let bare = length (strip (codes message)) in
    if su
    then err "agent_superuser_forbidden"
    else if not (leb 1 bare && leb bare 4000 && not (has_nul (codes message)))
    then err "agent_message_invalid"
    else if ltb 8000 (length (codes conversation_summary)) || has_nul (codes conversation_summary)
    then err "agent_history_invalid"
    else ok tt

-- `run`, with a decision engine
unfoldable pub run :
    (host : AgentHost) (su allow_plan_proposals : Bool)
    (reasoning planning : List CapabilityDefinition) (metadata : Fields)
    (message conversation_summary : String)
    → M AgentTurnResult
run host su allow_plan_proposals reasoning planning metadata message conversation_summary = do
  lift (validate_request su message conversation_summary)
  budgets ← lift (resolve_agent_budgets metadata)
  run_decision_loop host budgets allow_plan_proposals reasoning planning message
