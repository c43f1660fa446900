-- ===== src/Agent/Accounting.antt =====
-- What a turn has used, read off its transcript: the functions after the class in
-- addons/odoo_ai_assistant/runtime/agent/service.py, and `call_state` of working_transcript.py.
use ai_odoo_assistant.Prelude.{
  ℕ, suc, Bool, not, ◌&&◌, Option, none, some, String, List, [], ◌∷◌, reverse, mem, if◌then◌else◌,
}
use ai_odoo_assistant.Prelude.Json.{Json, str, obj, Fields, get_value, json_eq}
use ai_odoo_assistant.Prelude.Result.{Result, ok, err, ◌>>=◌}
use ai_odoo_assistant.Agent.Transcript.{WorkingItem, result_kinds}
use ai_odoo_assistant.Agent.TaskPlan.{TaskPlan, parse_task_plan}

pub data CallState : Type 0 where
  pending proposed completed : CallState

abbrev has_call_id : WorkingItem → String → Bool
has_call_id item call_id = json_eq (get_value "call_id" item.fields) (str call_id)

-- One turn of the loop of `call_state`, from the state before the item.
unfoldable pub next_call_state : WorkingItem → String → Option CallState → Option CallState
next_call_state item call_id state =
    if not (has_call_id item call_id)
    then state
    else if mem item.kind result_kinds
    then some completed
    else if mem item.kind ("plan_step_proposed" ∷ [])
    then some proposed
    else if mem item.kind ("assistant_decision" ∷ "capability_call" ∷ [])
    then elim state [ none ↦ some pending | some s ↦ some s ]
    else state

unfoldable pub call_state_from : Option CallState → List WorkingItem → String → Option CallState
call_state_from state [] call_id = state
call_state_from state (item ∷ items) call_id =
    call_state_from (next_call_state item call_id state) items call_id

unfoldable pub call_state : List WorkingItem → String → Option CallState
call_state items call_id = call_state_from none items call_id

-- The items up to the first of this kind.
unfoldable pub until_kind : String → List WorkingItem → List WorkingItem
until_kind kind [] = []
until_kind kind (item ∷ items) =
    if mem item.kind (kind ∷ []) then [] else item ∷ until_kind kind items

-- The items after the last `plan_execution_error`, which is looked for from the end.
unfoldable pub active_plan_epoch : List WorkingItem → List WorkingItem
active_plan_epoch items = reverse (until_kind "plan_execution_error" (reverse items))

unfoldable pub count : (WorkingItem → Bool) → List WorkingItem → ℕ
count p [] = 0
count p (item ∷ items) = if p item then suc (count p items) else count p items

unfoldable pub is_provider_decision : WorkingItem → Bool
is_provider_decision item =
    mem item.kind ("assistant_decision" ∷ "task_plan" ∷ "task_plan_error" ∷ "final_answer" ∷ [])

unfoldable pub is_capability_call : WorkingItem → Bool
is_capability_call item =
    mem item.kind ("assistant_decision" ∷ [])
    && json_eq (get_value "decision_kind" item.fields) (str "reasoning_capability_call")

unfoldable pub provider_decisions_used : List WorkingItem → ℕ
provider_decisions_used items = count is_provider_decision (active_plan_epoch items)

unfoldable pub capability_calls_used : List WorkingItem → ℕ
capability_calls_used items = count is_capability_call (active_plan_epoch items)

unfoldable pub definition_call_count : List WorkingItem → String → ℕ
definition_call_count items capability =
    count
      (λ item.
        is_capability_call item && json_eq (get_value "capability" item.fields) (str capability))
      (active_plan_epoch items)

-- The loop of `_trailing_failure_count`, newest item first.
unfoldable pub trailing_failures : ℕ → List WorkingItem → ℕ
trailing_failures n [] = n
trailing_failures n (item ∷ items) =
    let more = trailing_failures (suc n) items in
    let same = trailing_failures n items in
    if mem item.kind ("capability_error" ∷ "task_plan_error" ∷ [])
    then more
    else if mem item.kind ("capability_result" ∷ [])
    then 0
    else if mem item.kind
        ("assistant_decision" ∷ "capability_call" ∷ "plan_step_proposed" ∷ "task_plan" ∷ [])
    then same
    else n

unfoldable pub trailing_failure_count : List WorkingItem → ℕ
trailing_failure_count items = trailing_failures 0 (reverse (active_plan_epoch items))

abbrev pub terminal_call_errors : List String
terminal_call_errors =
    "access_denied" ∷ "capability_authority_mismatch" ∷ "capability_policy_denied"
    ∷ "capability_plan_approval_required" ∷ []

abbrev terminal_code : Json → Option String
terminal_code (str code) = if mem code terminal_call_errors then some code else none
terminal_code _ = none

unfoldable pub terminal_error_from : List WorkingItem → Option String
terminal_error_from [] = none
terminal_error_from (item ∷ items) =
    let rest = terminal_error_from items in
    if mem item.kind ("capability_result" ∷ [])
    then none
    else if mem item.kind ("capability_error" ∷ [])
    then terminal_code (get_value "code" item.fields)
    else rest

unfoldable pub terminal_error_pending : List WorkingItem → Option String
terminal_error_pending items = terminal_error_from (reverse (active_plan_epoch items))

-- The latest visible plan, newest item first.
unfoldable pub latest_plan_from : List WorkingItem → Result (Option TaskPlan)
latest_plan_from [] = ok none
latest_plan_from (item ∷ items) =
    if not (mem item.kind ("task_plan" ∷ []))
    then latest_plan_from items
    else (do plan ← parse_task_plan (obj item.fields); ok (some plan))

unfoldable pub latest_task_plan : List WorkingItem → Result (Option TaskPlan)
latest_task_plan items = latest_plan_from (reverse items)

pub record PlannedCapability : Type 0 where
  pub capability : String
  pub arguments : Fields
  pub summary : String
  pub step_id : String
  pub depends_on : List String

abbrev string_of : Json → Result String
string_of (str s) = ok s
string_of _ = err "agent_working_transcript_invalid"

abbrev fields_of : Json → Result Fields
fields_of (obj fs) = ok fs
fields_of _ = err "agent_working_transcript_invalid"

-- The loop of `_proposed_plan`, of the step before.
unfoldable pub proposed_from : Option String → List WorkingItem → Result (List PlannedCapability)
proposed_from previous [] = ok []
proposed_from previous (item ∷ items) =
    if not (mem item.kind ("plan_step_proposed" ∷ [])) then proposed_from previous items else (do
      call_id ← string_of (get_value "call_id" item.fields)
      capability ← string_of (get_value "capability" item.fields)
      arguments ← fields_of (get_value "arguments" item.fields)
      summary ← string_of (get_value "user_summary" item.fields)
      steps ← proposed_from (some call_id) items
      ok (
          record {
            capability = capability;
            arguments = arguments;
            summary = summary;
            step_id = call_id;
            depends_on = elim previous [ none ↦ [] | some id ↦ id ∷ [] ];
          }
          ∷ steps))

unfoldable pub proposed_plan : List WorkingItem → Result (List PlannedCapability)
proposed_plan items = proposed_from none (active_plan_epoch items)

-- `_pending_decisions`: the decisions among `items` whose call is pending in `whole`.
unfoldable pub pending_among : List WorkingItem → List WorkingItem → List (String × Fields)
pending_among whole [] = []
pending_among whole (item ∷ items) =
    let rest = pending_among whole items in
    if not (mem item.kind ("assistant_decision" ∷ []))
    then rest
    else elim (get_value "call_id" item.fields) [
      | str call_id ↦ elim (call_state whole call_id) [
        | some pending ↦ (call_id, item.fields) ∷ rest
        | _ ↦ rest
      ]
      | _ ↦ rest
    ]

unfoldable pub pending_decisions : List WorkingItem → List (String × Fields)
pending_decisions items = pending_among items items
