-- ===== src/Agent/Host.antt =====
-- What `AgentTurnService` of addons/odoo_ai_assistant/runtime/agent/service.py calls, and its state. The
-- environment (provider, executor, database, cancellation) answers as any function of what happened
-- before, so that a theorem for every `AgentHost` covers every behaviour of it.
use ai_odoo_assistant.Prelude.{ℕ, Bool, true, Option, none, some, String, List, ◌∷◌}
use ai_odoo_assistant.Prelude.Json.{Json, Fields, ℤ}
use ai_odoo_assistant.Prelude.Result.{Result, ok, err}
use ai_odoo_assistant.Agent.Budgets.{Remaining}
use ai_odoo_assistant.Agent.Transcript.{JsonText, WorkingItem}
use ai_odoo_assistant.Agent.TaskPlan.{TaskPlan}

-- The decisions of contracts.py; the field `kind` of each is the constructor.
pub data NextDecision : Type 0 where
  final_answer : (answer confidence : String) → NextDecision
  task_plan_update : (task_plan : TaskPlan) → NextDecision
  reasoning_capability_call : (call_id capability : String) (arguments : Fields) → NextDecision
  plan_step_proposal :
      (call_id capability : String) (arguments : Fields) (user_summary : String) → NextDecision

-- What `NextDecisionValidationError.decision` may hold; `nothing_kept` is None.
pub data Rejected : Type 0 where
  rejected_decision : NextDecision → Rejected
  rejected_revision : Option ℤ → Rejected
  nothing_kept : Rejected

-- `engine.next_decision` decides, raises `NextDecisionValidationError`, or raises another error, with
-- its code where it has one.
pub data Reply : Type 0 where
  decided : NextDecision → Reply
  misjudged : String → Rejected → Reply
  failed : Option String → Reply

-- `executor.execute` returns the data of a result, raises `CapabilityError` with its code and its
-- details, or raises an error that the loop does not catch.
pub data Execution : Type 0 where
  succeeded : Fields → Execution
  refused : String → Fields → Execution
  broken : String → Execution

-- The callback that stores the transcript: it returns, raises `AgentTurnError`, or raises another
-- error, with its code and its text.
pub data Storing : Type 0 where
  stored : Storing
  turn_error : String → Storing
  other_error : Option String → String → Storing

-- What leaves the service, newest first in a history.
pub data Event : Type 0 where
  asked : Remaining → Event
  executed : (call_id capability : String) (arguments : Fields) → Event
  persisted : List WorkingItem → Event
  unpersisted : Event
  looked_for_cancellation : Event
  work_started : Event
  telemetry : Event

abbrev pub History : Type 0
History = List Event

-- The fields of a capability that the loop reads.
pub record CapabilityDefinition : Type 0 where
  pub name : String
  pub max_calls : ℕ
  pub input_schema : Json
  pub max_input_bytes : ℕ

pub record AgentHost : Type 0 where
  pub text : JsonText
  -- `validate_payload` with its code for the error, none where the payload is valid
  pub validate_payload : Fields → Json → ℕ → String → Option String
  -- the text of `_safe_failure_answer`, from the transcript and the code
  pub safe_failure_answer : List WorkingItem → String → String
  pub next_decision : History → List WorkingItem → Reply
  pub execute : History → String → Fields → Execution
  pub persist : Option (History → List WorkingItem → Storing)
  pub is_cancelled : History → Bool
  -- whether the service was given `on_work_started`
  pub announces_work : Bool

pub record ServiceState : Type 0 where
  pub working_items : List WorkingItem
  pub is_work_started : Bool
  pub history : History

abbrev pub M : Type 0 → Type 0
M A = ServiceState → Result A × ServiceState

module _ {A : Type 0} where
  unfoldable pub pure : A → M A
  pure a s = (ok a, s)

  -- raise AgentTurnError(code)
  unfoldable pub raise : String → M A
  raise code s = (err code, s)

  unfoldable pub lift : Result A → M A
  lift r s = (r, s)

module _ {A B : Type 0} where
  abbrev pub continue : Result A → (A → M B) → M B
  continue (ok a) f s = f a s
  continue (err code) f s = (err code, s)

  infixl 5 ◌>>=◌ ◌>>◌
  unfoldable pub ◌>>=◌ : M A → (A → M B) → M B
  ◌>>=◌ m f s = let (r, s') = m s in continue r f s'

  unfoldable pub ◌>>◌ : M A → M B → M B
  ◌>>◌ m k s = let (r, s') = m s in continue r (λ _. k) s'

-- The two cases of a value that may be None.
unfoldable pub cases {ℓ} : {A : Type ℓ} {B : Type 0} → Option A → M B → (A → M B) → M B
cases none m f = m
cases (some a) m f = f a

unfoldable pub items_now : M (List WorkingItem)
items_now s = (ok s.working_items, s)

unfoldable pub history_now : M History
history_now s = (ok s.history, s)

unfoldable pub work_is_started : M Bool
work_is_started s = (ok s.is_work_started, s)

unfoldable pub set_items : List WorkingItem → M (Unit {0})
set_items items s = (
  ok tt,
  record { working_items = items; is_work_started = s.is_work_started; history = s.history },
)

unfoldable pub start_work : M (Unit {0})
start_work s =
    (ok tt, record { working_items = s.working_items; is_work_started = true; history = s.history })

unfoldable pub emit : Event → M (Unit {0})
emit e s = (
  ok tt,
  record {
    working_items = s.working_items;
    is_work_started = s.is_work_started;
    history = e ∷ s.history;
  },
)
