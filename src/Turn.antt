-- ===== src/Turn.antt =====
-- The turn row of addons/odoo_ai_assistant/models/chat_storage.py (`odoo.ai.turn`), with the
-- fields that later models add to it, and of its control row and its interventions the cancel
-- flag and their number.
-- Times are whole seconds. A JSON column is kept as the parts that the lifecycle reads.
pub mod Lifecycle
pub mod Handlers
pub mod Recovery
pub mod Scheduler
pub mod Scan
pub mod Table
pub mod Lost
pub mod Soundness
pub mod Rows
pub mod Transitions
pub mod Admission
pub mod Causality
pub mod Capacity
pub mod Consistency
pub mod Guarantees
pub mod Retries
pub mod Tests
use ai_odoo_assistant.Prelude.{
  ℕ, suc, ◌+◌, ◌<◌, ltb, String, Bool, true, false, not, ◌&&◌, ◌||◌, Option, none, some, List, [],
  ◌∷◌, if◌then◌else◌,
}

pub data State : Type 0 where
  queued running cancel_requested awaiting_confirmation completed failed cancelled : State
  recovery_required : State

pub data PlanState : Type 0 where
  plan_awaiting plan_authorized plan_executing plan_completed plan_rejected : PlanState

-- `capability_plan_payload`: the state of its plan, and whether a human approved it.
pub record Envelope : Type 0 where
  pub plan_state : PlanState
  pub human_approved : Bool

-- `result_payload`: the answer, and the rest of the response as its JSON text.
pub record Response : Type 0 where
  pub answer : String
  pub rest : String

pub record TurnEvent : Type 0 where
  pub sequence : ℕ
  pub event_type : String

pub record Turn : Type 0 where
  pub id : ℕ
  pub conversation_id : Option ℕ
  pub user_id : ℕ
  pub state : State
  pub queued_at : ℕ
  pub started_at : Option ℕ
  pub scheduler_claimed_at : Option ℕ
  pub heartbeat_at : Option ℕ
  pub lease_expires_at : Option ℕ
  pub lease_token : Option String
  pub attempt_count : ℕ
  pub max_attempts : ℕ
  pub write_barrier : Bool
  pub cancel_requested_at : Option ℕ
  pub completed_at : Option ℕ
  pub error_code : Option String
  pub capability_plan_payload : Option Envelope
  pub result_payload : Option Response
  pub assistant_message : Option String
  pub control_cancel_requested : Bool
  pub intervention_count : ℕ  -- redirects stored for the turn
  pub last_event_sequence : ℕ
  pub event_ids : List TurnEvent  -- newest first

-- state IN ('running', 'cancel_requested'): the turn holds one of the runner slots
abbrev pub holds_slot : State → Bool
holds_slot running = true
holds_slot cancel_requested = true
holds_slot _ = false

-- state in {"completed", "failed", "cancelled", "recovery_required"}
abbrev pub is_terminal : State → Bool
is_terminal completed = true
is_terminal failed = true
is_terminal cancelled = true
is_terminal recovery_required = true
is_terminal _ = false

abbrev pub is_queued : State → Bool
is_queued queued = true
is_queued _ = false

abbrev pub is_running : State → Bool
is_running running = true
is_running _ = false

abbrev pub is_awaiting : State → Bool
is_awaiting awaiting_confirmation = true
is_awaiting _ = false

abbrev pub is_cancel_requested : State → Bool
is_cancel_requested cancel_requested = true
is_cancel_requested _ = false

-- state = 'queued' AND attempt_count < max_attempts
abbrev pub is_claimable : Turn → Bool
is_claimable t = is_queued t.state && ltb t.attempt_count t.max_attempts
