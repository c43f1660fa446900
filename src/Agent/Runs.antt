-- ===== src/Agent/Runs.antt =====
-- A turn run twice: the first attempt executes its one call and answers, the second returns the answer.
use ai_odoo_assistant.Agent.Budgets.{
  provider_decision_limit, bounded_int, get_or, family, resolve_agent_budgets, remaining,
}
use ai_odoo_assistant.Agent.Transcript.{
  payload, payloads, load_item, is_call_id, check_call_id, find_decision, mem_json, bounded,
  canonical, validate_item, note_decision, note_terminal, validate_calls, validate_call_ids,
  load_items, check_items, load_working_transcript, append_working_item, transcript_payload,
  working_transcript_bytes,
}
use ai_odoo_assistant.Agent.TaskPlan.{
  effective_revision_kind, step_payload, plan_payload, one_of, is_line, known_ids, all_different,
  parse_step, parse_steps, item_count, has_current_keys, has_legacy_keys, parse_plan_fields,
  parse_task_plan,
}
use ai_odoo_assistant.Agent.Accounting.{
  next_call_state, call_state_from, call_state, until_kind, active_plan_epoch, count,
  is_provider_decision, is_capability_call, provider_decisions_used, capability_calls_used,
  definition_call_count, trailing_failures, trailing_failure_count, terminal_error_from,
  terminal_error_pending, latest_plan_from, latest_task_plan, proposed_from, proposed_plan,
  pending_among, pending_decisions,
}
use ai_odoo_assistant.Agent.Host.{
  pure, raise, lift, ◌>>=◌, ◌>>◌, cases, items_now, history_now, work_is_started, set_items,
  start_work, emit,
}
use ai_odoo_assistant.Agent.Service.{
  find_definition, decision_fields, error_fields, validated_answer, validate_next_decision, keep,
  try_append, append, finish_storing, persist, record_item, ensure_not_cancelled, mark_work_started,
  record_decision, record_capability_error, finish_safely, record_task_plan,
  record_rejected_decision, record_rejected_revision, check_user_input, ensure_user_input,
  close_calls, close_interrupted_calls,
}
use ai_odoo_assistant.Agent.Proposal.{
  find_last, validate_plan_step, validate_plan_steps, validate_plan,
}
use ai_odoo_assistant.Agent.Loop.{
  max_calls_of, finish, fail_again, checked_plan, answer_turn, reject, propose, receive, perform,
  call, reason, work_on, act_on, follow, judge_reply, iterate, rounds, loop, resume_from,
  resume_terminal, starting_counters, start_loop, run_decision_loop, validate_request, run,
}
use ai_odoo_assistant.Agent.Keeps.{executed_ids, stored_items, is_quiet}
use ai_odoo_assistant.Agent.Restart.{run_attempt, restart, after}
use ai_odoo_assistant.Prelude.Json.{
  get, field_count, has_keys, get_value, json_eq, items_eq, fields_eq,
}
use ai_odoo_assistant.Prelude.PyText.{
  is_space, lstrip, strip, has_nul, split, join, squeeze, rstrip_text, lstrip_text, strip_text,
}
use ai_odoo_assistant.Prelude.{[], ◌∷◌, ◌≡◌, refl, mem, any, all}
use ai_odoo_assistant.Agent.Tests.{reading_host, attempt}

executes_c1 : executed_ids (after reading_host (attempt ∷ attempt ∷ [])).history ≡ "c1" ∷ []
unfolding mem any all provider_decision_limit bounded_int get_or family resolve_agent_budgets
    remaining payload payloads load_item is_call_id check_call_id find_decision mem_json bounded
    canonical validate_item note_decision note_terminal validate_calls validate_call_ids load_items
    check_items load_working_transcript append_working_item transcript_payload
    working_transcript_bytes effective_revision_kind step_payload plan_payload one_of is_line
    known_ids all_different parse_step parse_steps item_count has_current_keys has_legacy_keys
    parse_plan_fields parse_task_plan next_call_state call_state_from call_state until_kind
    active_plan_epoch count is_provider_decision is_capability_call provider_decisions_used
    capability_calls_used definition_call_count trailing_failures trailing_failure_count
    terminal_error_from terminal_error_pending latest_plan_from latest_task_plan proposed_from
    proposed_plan pending_among pending_decisions pure raise lift ◌>>=◌ ◌>>◌ cases items_now
    history_now work_is_started set_items start_work emit find_definition decision_fields
    error_fields validated_answer validate_next_decision keep try_append append finish_storing
    persist record_item ensure_not_cancelled mark_work_started record_decision
    record_capability_error finish_safely record_task_plan record_rejected_decision
    record_rejected_revision check_user_input ensure_user_input close_calls close_interrupted_calls
    find_last validate_plan_step validate_plan_steps validate_plan max_calls_of finish fail_again
    checked_plan answer_turn reject propose receive perform call reason work_on act_on follow
    judge_reply iterate rounds loop resume_from resume_terminal starting_counters start_loop
    run_decision_loop validate_request run executed_ids stored_items is_quiet run_attempt restart
    after get field_count has_keys get_value json_eq items_eq fields_eq is_space lstrip strip
    has_nul split join squeeze rstrip_text lstrip_text strip_text
executes_c1 = refl
