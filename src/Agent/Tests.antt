-- ===== src/Agent/Tests.antt =====
-- Runs of the agent's code on concrete inputs, and instances of its theorems.
use ai_odoo_assistant.Prelude.{
  ◌+◌, ◌≤◌, max, Bool, true, false, none, some, List, [], ◌∷◌, ◌++◌, all, any, length, mem, ◌≡◌,
  refl, if◌then◌else◌,
}
use ai_odoo_assistant.Prelude.PyText.{codes, strip, has_nul, squeeze, join, split}
use ai_odoo_assistant.Prelude.Json.{
  Json, int, pos, str, arr, obj, nil, cons, Fields, end, field, get, get_value, has_keys,
  field_count, json_eq, items_eq,
}
use ai_odoo_assistant.Prelude.Result.{ok}
use ai_odoo_assistant.Agent.Budgets.{
  AgentBudgetSet, IsWithin, bounded_int, get_or, family, resolve_agent_budgets,
  resolve_agent_budgets-IsWithin,
}
use ai_odoo_assistant.Agent.TaskPlan.{all_different}
use ai_odoo_assistant.Agent.Transcript.{
  JsonText, WorkingItem, payload, payloads, load_item, validate_item, check_call_id, is_call_id,
  bounded, note_decision, note_terminal, validate_calls, validate_call_ids, load_items, check_items,
  load_working_transcript, append_working_item,
}
use ai_odoo_assistant.Agent.Transcript.RoundTrip.{
  load_working_transcript-payloads, append_working_item-payloads,
}
use ai_odoo_assistant.Agent.Accounting.{PlannedCapability, trailing_failures}
use ai_odoo_assistant.Agent.Host.{
  final_answer, reasoning_capability_call, Reply, decided, succeeded, Storing, stored, Event,
  executed, History, CapabilityDefinition, AgentHost,
}
use ai_odoo_assistant.Agent.Proposal.{
  find_last, validate_plan, validate_plan_steps, validate_plan_step,
}
use ai_odoo_assistant.Agent.Loop.{Counters, loop}
use ai_odoo_assistant.Agent.Failures.{trailing_failures-after_result}
use ai_odoo_assistant.Agent.Ordered.{IsOrdered, validate_plan-IsOrdered}
use ai_odoo_assistant.Agent.Keeps.{executed_ids, stored_items, AllRecorded}
use ai_odoo_assistant.Agent.Once.{IsResumable}
use ai_odoo_assistant.Agent.Pays.{executions}
use ai_odoo_assistant.Agent.Spending.{loop-executions}
use ai_odoo_assistant.Agent.Restart.{Attempt, after, unstarted_turn, executed_once}

abbrev default_budgets : AgentBudgetSet
default_budgets = record {
  max_effect_steps = 1;
  max_consecutive_failures = 3;
  max_provider_decisions = 12;
  max_capability_calls = 8;
  cost_provider_decisions = 12;
  latency_provider_decisions = 12;
  max_transcript_bytes = 131072;
  max_result_bytes = 32768;
}

resolves_defaults : resolve_agent_budgets end ≡ ok default_budgets
unfolding resolve_agent_budgets get_or family bounded_int get
resolves_defaults = refl

resolve_agent_budgets-IsWithin_example : IsWithin default_budgets
resolve_agent_budgets-IsWithin_example =
    resolve_agent_budgets-IsWithin end default_budgets resolves_defaults

-- A text for every value, of the length of what `json.dumps` gives for an empty object.
abbrev short_text : JsonText
short_text = record { dumps = λ value. some "{}"; utf8_length = λ s. some (length (codes s)) }

abbrev request : WorkingItem
request = record { sequence = 1; kind = "user_input"; fields = field "message" (str "hola") end }

abbrev request_json : Json
request_json = arr (
    cons
      (obj (
        field "kind" (str "user_input") (
          field "data" (obj (field "message" (str "hola") end))
            (field "sequence" (int (pos 1)) end))))
      nil)

loads_request : load_working_transcript short_text request_json ≡ ok (request ∷ [])
unfolding load_working_transcript load_items load_item validate_item check_call_id is_call_id
    bounded check_items validate_call_ids validate_calls note_decision note_terminal get get_value
    has_keys field_count json_eq items_eq payloads payload mem
loads_request = refl

load_working_transcript-payloads_example :
    load_working_transcript short_text (arr (payloads (request ∷ []))) ≡ ok (request ∷ [])
load_working_transcript-payloads_example =
    load_working_transcript-payloads short_text request_json (request ∷ []) loads_request

abbrev call_data : Fields
call_data =
    field "call_id" (str "c1")
      (field "capability" (str "odoo.read") (field "arguments" (obj end) end))

abbrev call_item : WorkingItem
call_item = record { sequence = 2; kind = "capability_call"; fields = call_data }

appends_call :
    append_working_item short_text (request ∷ []) "capability_call" call_data
    ≡ ok (request ∷ call_item ∷ [])
unfolding append_working_item validate_item check_call_id is_call_id bounded check_items
    validate_call_ids validate_calls note_decision note_terminal get get_value payloads payload mem
appends_call = refl

append_working_item-payloads_example :
    load_working_transcript short_text (arr (payloads (request ∷ call_item ∷ [])))
    ≡ ok (request ∷ call_item ∷ [])
append_working_item-payloads_example =
    append_working_item-payloads short_text (request ∷ []) (request ∷ call_item ∷ [])
      "capability_call" call_data load_working_transcript-payloads_again appends_call
  where
    load_working_transcript-payloads_again :
        load_working_transcript short_text (arr (payloads (request ∷ []))) ≡ ok (request ∷ [])
    load_working_transcript-payloads_again =
        load_working_transcript-payloads short_text request_json (request ∷ []) loads_request

abbrev read_definition : CapabilityDefinition
read_definition = record {
  name = "odoo.read";
  max_calls = 2;
  input_schema = obj end;
  max_input_bytes = 1024;
}

abbrev was_executed : Event → Bool
was_executed (executed call_id capability arguments) = true
was_executed _ = false

-- A provider that reads once, then answers.
abbrev reader : Reply
reader = decided (reasoning_capability_call "c1" "odoo.read" end)

abbrev storing : History → List WorkingItem → Storing
storing h items = stored

abbrev pub reading_host : AgentHost
reading_host = record {
  text = short_text;
  validate_payload = λ arguments schema most code. none;
  safe_failure_answer = λ items code. "No.";
  next_decision =
      λ h items. if any was_executed h then decided (final_answer "Hecho." "high") else reader;
  execute = λ h capability arguments. succeeded end;
  persist = some storing;
  is_cancelled = λ h. false;
  announces_work = false;
}

abbrev pub attempt : Attempt
attempt = record {
  su = false;
  allow_plan_proposals = false;
  reasoning = read_definition ∷ [];
  planning = [];
  metadata = end;
  message = "hola";
  conversation_summary = "";
}

executed_once_example :
    let h = (after reading_host (attempt ∷ attempt ∷ [])).history in
    (all_different (executed_ids h) ≡ true) × AllRecorded (stored_items h) (executed_ids h)
executed_once_example = executed_once reading_host storing refl (attempt ∷ attempt ∷ [])

abbrev last_decision : Counters
last_decision = record {
  provider_decisions = 11;
  capability_calls = 0;
  consecutive_failures = 0;
  terminal_error = none;
}

starts_resumable : IsResumable unstarted_turn
unfolding executed_ids all_different
starts_resumable = record { distinct = refl; in_transcript = tt; in_store = tt }

loop-executions_example :
    executions
        (loop reading_host default_budgets false
          (read_definition ∷ [])
          []
          last_decision
          unstarted_turn).1
      + 0
    ≤ executions unstarted_turn + max 8 0
loop-executions_example =
    loop-executions reading_host default_budgets false (read_definition ∷ []) [] storing refl
      last_decision unstarted_turn starts_resumable

abbrev failed_item : WorkingItem
failed_item = record { sequence = 4; kind = "capability_error"; fields = end }

abbrev result_item : WorkingItem
result_item = record { sequence = 3; kind = "capability_result"; fields = end }

trailing_failures-after_result_example :
    trailing_failures 0 ((failed_item ∷ failed_item ∷ []) ++ result_item ∷ request ∷ []) ≡ 0
unfolding mem
trailing_failures-after_result_example =
    trailing_failures-after_result 0 (failed_item ∷ failed_item ∷ []) (request ∷ []) result_item
      (refl, (refl, tt)) refl

abbrev proposed_write : PlannedCapability
proposed_write = record {
  capability = "odoo.read";
  arguments = end;
  summary = "Leer";
  step_id = "c2";
  depends_on = [];
}

validates_write :
    validate_plan reading_host default_budgets (read_definition ∷ []) (proposed_write ∷ [])
    ≡ ok (proposed_write ∷ [])
unfolding validate_plan validate_plan_steps validate_plan_step find_last mem all strip has_nul
    squeeze join split
validates_write = refl

validate_plan-IsOrdered_example :
    IsOrdered [] (proposed_write ∷ []) × (length (proposed_write ∷ []) ≤ 1)
validate_plan-IsOrdered_example =
    validate_plan-IsOrdered reading_host (read_definition ∷ []) default_budgets
      (proposed_write ∷ []) (proposed_write ∷ []) validates_write
