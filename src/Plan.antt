-- ===== src/Plan.antt =====
-- Typed effect plans: addons/odoo_ai_assistant/runtime/agent/plan.py. A plan of format 3 is a
-- record, so that the tests on the shape of its JSON hold by construction; the tests on its values
-- are in the modules below.
pub mod Outcome
pub mod Units
pub mod Host
pub mod Prepare
pub mod Preflight
pub mod Execute
pub mod Order
pub mod Conduct
pub mod Effects
pub mod Causal
pub mod Course
pub mod Steps
pub mod Silence
pub mod Begin
pub mod Dependencies
pub mod Requests
pub mod Prepared
pub mod Tests
use ai_odoo_assistant.Prelude.{
  ℕ, String, Bool, true, false, Option, none, some, List, [], ◌∷◌, map, if◌then◌else◌, str_eq,
}
use ai_odoo_assistant.Prelude.Json.{Json}
use ai_odoo_assistant.Turn.{PlanState}

pub data RecoveryMode : Type 0 where
  odoo_atomic segmented external : RecoveryMode

pub data JournalClass : Type 0 where
  unjournalled reversible reconstructable irreversible external_or_unknown : JournalClass

pub data StepState : Type 0 where
  previewed step_executing step_completed skipped : StepState

pub data UnitState : Type 0 where
  prepared unit_executing unit_completed : UnitState

pub record SemanticGroups : Type 0 where
  pub prepare : String
  pub execute : String
  pub verify : String

pub record Step : Type 0 where
  pub position : ℕ
  pub step_id : String
  pub depends_on : List String
  pub capability : String
  pub version : String
  pub arguments : Json
  pub title : String
  pub approval_required : Bool
  pub precondition_fingerprint : String
  pub binding_fingerprint : String
  pub preview : Json
  pub state : StepState
  pub result : Option Json
  pub verification : Option Json
  pub semantic_groups : SemanticGroups
  pub recovery_unit_id : String
  pub recovery_mode : RecoveryMode
  pub journal_classification : JournalClass

pub record RecoveryUnit : Type 0 where
  pub unit_id : String
  pub mode : RecoveryMode
  pub step_ids : List String
  pub state : UnitState

pub record EffectPlan : Type 0 where
  pub state : PlanState
  pub requires_confirmation : Bool
  pub recovery_units : List RecoveryUnit
  pub steps : List Step

-- state in _TERMINAL_STEP_STATES
abbrev pub is_terminal_step : StepState → Bool
is_terminal_step step_completed = true
is_terminal_step skipped = true
is_terminal_step _ = false

abbrev pub is_completed_step : StepState → Bool
is_completed_step step_completed = true
is_completed_step _ = false

abbrev pub is_skipped_step : StepState → Bool
is_skipped_step skipped = true
is_skipped_step _ = false

abbrev pub is_atomic : RecoveryMode → Bool
is_atomic odoo_atomic = true
is_atomic _ = false

abbrev pub same_mode : RecoveryMode → RecoveryMode → Bool
same_mode odoo_atomic odoo_atomic = true
same_mode segmented segmented = true
same_mode external external = true
same_mode _ _ = false

abbrev pub step_ids_of : List Step → List String
step_ids_of = map (λ (s : Step). s.step_id)

-- The step of an id: `_step_index`, and the lookup in `{step["step_id"]: step …}` where ids are
-- distinct.
unfoldable pub find_step : String → List Step → Option Step
find_step id [] = none
find_step id (s ∷ rest) = if str_eq s.step_id id then some s else find_step id rest

-- steps[index] = step, at the first step of that id
unfoldable pub put_step : Step → List Step → List Step
put_step s [] = []
put_step s (t ∷ rest) = if str_eq t.step_id s.step_id then s ∷ rest else t ∷ put_step s rest
