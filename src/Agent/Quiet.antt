-- ===== src/Agent/Quiet.antt =====
-- The methods of `AgentTurnService` that execute no capability keep what is recorded of the calls executed:
-- addons/odoo_ai_assistant/runtime/agent/service.py.
use ai_odoo_assistant.Prelude.{Bool, Option, none, String, List, [], ◌∷◌}
use ai_odoo_assistant.Prelude.Json.{Fields, ℤ}
use ai_odoo_assistant.Agent.Budgets.{AgentBudgetSet}
use ai_odoo_assistant.Agent.TaskPlan.{TaskPlan}
use ai_odoo_assistant.Agent.Transcript.{WorkingItem}
use ai_odoo_assistant.Agent.Host.{
  NextDecision, final_answer, task_plan_update, reasoning_capability_call, plan_step_proposal,
  Rejected, rejected_decision, rejected_revision, nothing_kept, Execution, succeeded, refused,
  broken, CapabilityDefinition, AgentHost,
}
use ai_odoo_assistant.Agent.Service.{
  append, record_item, ensure_not_cancelled, mark_work_started, record_decision,
  record_capability_error, finish_safely, record_task_plan, record_rejected_decision,
  record_rejected_revision, check_user_input, ensure_user_input, close_calls,
  close_interrupted_calls,
}
use ai_odoo_assistant.Agent.Loop.{
  Counters, finish, fail_again, checked_plan, answer_turn, reject, propose, receive, resume_from,
  resume_terminal,
}
use ai_odoo_assistant.Agent.Keeps.{Keeps, keeping_rules, Keeps-pure, Keeps-raise, Keeps-then}

module _ (host : AgentHost) where
  pub Keeps-append : (kind : String) (fields : Fields) → Keeps (append host kind fields)
  unfolding append
  Keeps-append kind fields = search (keeping_rules) depth 40

  pub Keeps-record_item : (kind : String) (fields : Fields) → Keeps (record_item host kind fields)
  unfolding record_item
  Keeps-record_item kind fields = search (keeping_rules, Keeps-append) depth 40

  pub Keeps-ensure_not_cancelled : Keeps (ensure_not_cancelled host)
  unfolding ensure_not_cancelled
  Keeps-ensure_not_cancelled = search (keeping_rules) depth 40

  pub Keeps-mark_work_started : Keeps (mark_work_started host)
  unfolding mark_work_started
  Keeps-mark_work_started = search (keeping_rules) depth 40

  pub Keeps-record_decision : (d : NextDecision) → Keeps (record_decision host d)
  unfolding record_decision
  Keeps-record_decision d = search (keeping_rules, Keeps-record_item) depth 40

  pub Keeps-record_capability_error :
      (call_id capability code : String) (details : Fields)
      → Keeps (record_capability_error host call_id capability code details)
  unfolding record_capability_error
  Keeps-record_capability_error call_id capability code details =
      search (keeping_rules, Keeps-append) depth 40

  pub Keeps-finish_safely : (code : String) → Keeps (finish_safely host code)
  unfolding finish_safely
  Keeps-finish_safely code = search (keeping_rules, Keeps-record_item) depth 40

  pub Keeps-record_task_plan : (plan : TaskPlan) → Keeps (record_task_plan host plan)
  unfolding record_task_plan
  Keeps-record_task_plan plan = search (keeping_rules, Keeps-record_item) depth 40

  pub Keeps-record_rejected_decision :
      (d : NextDecision) (call_id capability code : String)
      → Keeps (record_rejected_decision host d call_id capability code)
  unfolding record_rejected_decision
  Keeps-record_rejected_decision d call_id capability code =
      search (keeping_rules, Keeps-record_item, Keeps-record_decision) depth 40

  pub Keeps-record_rejected_revision :
      (revision : Option ℤ) (code : String) → Keeps (record_rejected_revision host revision code)
  unfolding record_rejected_revision
  Keeps-record_rejected_revision revision code = search (keeping_rules, Keeps-record_item) depth 40

  pub Keeps-check_user_input :
      (message : String) (items : List WorkingItem) → Keeps (check_user_input host message items)
  unfolding check_user_input
  Keeps-check_user_input message [] = search (keeping_rules, Keeps-record_item) depth 40
  Keeps-check_user_input message (first ∷ rest) = search keeping_rules depth 40

  pub Keeps-ensure_user_input : (message : String) → Keeps (ensure_user_input host message)
  unfolding ensure_user_input
  Keeps-ensure_user_input message = search (keeping_rules, Keeps-check_user_input) depth 40

  pub Keeps-close_calls : (pending : List (String × Fields)) → Keeps (close_calls host pending)
  unfolding close_calls
  Keeps-close_calls [] = Keeps-pure tt
  Keeps-close_calls ((call_id, fields) ∷ pending) =
      Keeps-then _ _ (Keeps-append "capability_error" _) (Keeps-close_calls pending)

  pub Keeps-close_interrupted_calls : Keeps (close_interrupted_calls host)
  unfolding close_interrupted_calls
  Keeps-close_interrupted_calls = search (keeping_rules, Keeps-close_calls) depth 40

module _ (host : AgentHost) (budgets : AgentBudgetSet) (allow_plan_proposals : Bool)
    (reasoning planning : List CapabilityDefinition) where
  pub Keeps-finish :
      (code : String) → Keeps (finish host budgets allow_plan_proposals reasoning planning code)
  unfolding finish
  Keeps-finish code = search (keeping_rules, Keeps-finish_safely) depth 40

  pub Keeps-fail_again :
      (c : Counters) → Keeps (fail_again host budgets allow_plan_proposals reasoning planning c)
  unfolding fail_again
  Keeps-fail_again c = search (keeping_rules, Keeps-finish) depth 40

  pub Keeps-checked_plan :
      (items : List WorkingItem)
      → Keeps (checked_plan host budgets allow_plan_proposals reasoning planning items)
  unfolding checked_plan
  Keeps-checked_plan items = search (keeping_rules) depth 40

  pub Keeps-answer_turn :
      (answer confidence : String)
      → Keeps (answer_turn host budgets allow_plan_proposals reasoning planning answer confidence)
  unfolding answer_turn
  Keeps-answer_turn answer confidence =
      search (keeping_rules, Keeps-checked_plan, Keeps-record_item) depth 40

  pub Keeps-propose :
      (c : Counters) (call_id capability : String) (arguments : Fields) (summary : String)
      → Keeps (
          propose host budgets allow_plan_proposals reasoning planning c call_id capability
            arguments summary)
  unfolding propose
  Keeps-propose c call_id capability arguments summary =
      search (keeping_rules, Keeps-record_item, Keeps-record_decision) depth 40

  pub Keeps-reject :
      (c : Counters) (code : String) (r : Rejected)
      → Keeps (reject host budgets allow_plan_proposals reasoning planning c code r)
  unfolding reject
  Keeps-reject c code (rejected_decision (final_answer a k)) = Keeps-raise _
  Keeps-reject c code (rejected_decision (task_plan_update plan)) =
      search
        (
          keeping_rules, Keeps-finish, Keeps-fail_again, Keeps-record_rejected_decision,
          Keeps-record_rejected_revision,
        )
        depth 40
  Keeps-reject c code (rejected_decision (plan_step_proposal i k a s)) =
      search
        (
          keeping_rules, Keeps-finish, Keeps-fail_again, Keeps-record_rejected_decision,
          Keeps-record_rejected_revision,
        )
        depth 40
  Keeps-reject c code (rejected_decision (reasoning_capability_call i k a)) =
      search
        (
          keeping_rules, Keeps-finish, Keeps-fail_again, Keeps-record_rejected_decision,
          Keeps-record_rejected_revision,
        )
        depth 40
  Keeps-reject c code (rejected_revision r) =
      search
        (
          keeping_rules, Keeps-finish, Keeps-fail_again, Keeps-record_rejected_decision,
          Keeps-record_rejected_revision,
        )
        depth 40
  Keeps-reject c code nothing_kept = Keeps-raise _

  pub Keeps-receive :
      (c : Counters) (call_id capability : String) (x : Execution)
      → Keeps (receive host budgets allow_plan_proposals reasoning planning c call_id capability x)
  unfolding receive
  Keeps-receive c call_id capability (succeeded result) =
      search (keeping_rules, Keeps-fail_again, Keeps-record_capability_error, Keeps-record_item)
        depth 40
  Keeps-receive c call_id capability (refused code details) =
      search (keeping_rules, Keeps-fail_again, Keeps-record_capability_error, Keeps-record_item)
        depth 40
  Keeps-receive c call_id capability (broken code) = Keeps-raise _

  pub Keeps-resume_from :
      (items newest : List WorkingItem)
      → Keeps (resume_from host budgets allow_plan_proposals reasoning planning items newest)
  unfolding resume_from
  Keeps-resume_from items [] = Keeps-pure none
  Keeps-resume_from items (last ∷ before) = search (keeping_rules, Keeps-checked_plan) depth 60

  pub Keeps-resume_terminal :
      Keeps (resume_terminal host budgets allow_plan_proposals reasoning planning)
  unfolding resume_terminal
  Keeps-resume_terminal = search (keeping_rules, Keeps-resume_from) depth 40
