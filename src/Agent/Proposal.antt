-- ===== src/Agent/Proposal.antt =====
-- The check of a proposed effect plan: `_validate_plan` of
-- addons/odoo_ai_assistant/runtime/agent/service.py.
use ai_odoo_assistant.Prelude.{
  ℕ, suc, leb, not, ◌&&◌, Option, none, some, String, List, [], ◌∷◌, all, mem, if◌then◌else◌,
  length, str_eq,
}
use ai_odoo_assistant.Prelude.PyText.{codes, strip, has_nul, squeeze}
use ai_odoo_assistant.Prelude.Result.{Result, ok, err, require, ◌>>=◌, ◌>>◌}
use ai_odoo_assistant.Plan.Units.{numbered}
use ai_odoo_assistant.Agent.Budgets.{AgentBudgetSet}
use ai_odoo_assistant.Agent.Accounting.{PlannedCapability}
use ai_odoo_assistant.Agent.Host.{CapabilityDefinition, AgentHost}

-- The last definition of a name, as a dict keeps it.
unfoldable pub find_last : String → List CapabilityDefinition → Option CapabilityDefinition
find_last name [] = none
find_last name (d ∷ ds) = elim (find_last name ds) [
  | some found ↦ some found
  | none ↦ if str_eq d.name name then some d else none
]

abbrev found : Option CapabilityDefinition → Result CapabilityDefinition
found (some d) = ok d
found none = err "agent_plan_capability_not_allowed"

abbrev unless_error : Option String → Result (Unit {0})
unless_error none = ok tt
unless_error (some code) = err code

module _ (host : AgentHost) where
  -- One step of the loop, of its position from 0 and of the ids of the steps before it.
  unfoldable pub validate_plan_step :
      List CapabilityDefinition → ℕ → List String → PlannedCapability → Result PlannedCapability
  validate_plan_step planning position seen step = do
    d ← found (find_last step.capability planning)
    let bare = length (strip (codes step.summary))
    require (leb 1 bare && leb bare 512 && not (has_nul (codes step.summary))) "agent_plan_invalid"
    let step_id : String =
        if str_eq step.step_id "" then numbered "step-" (suc position) else step.step_id
    require (leb (length (codes step_id)) 256) "agent_plan_invalid"
    require (all (λ id. mem id seen) step.depends_on) "agent_plan_dependency_invalid"
    require (not (mem step_id seen)) "agent_plan_dependency_invalid"
    unless_error (
        host.validate_payload step.arguments d.input_schema d.max_input_bytes
          "agent_plan_arguments_invalid")
    ok (record {
      capability = d.name;
      arguments = step.arguments;
      summary = squeeze step.summary;
      step_id = step_id;
      depends_on = step.depends_on;
    })

  unfoldable pub validate_plan_steps :
      List CapabilityDefinition
      → ℕ
      → List String
      → List PlannedCapability
      → Result (List PlannedCapability)
  validate_plan_steps planning position seen [] = ok []
  validate_plan_steps planning position seen (step ∷ steps) = do
    checked ← validate_plan_step planning position seen step
    rest ← validate_plan_steps planning (suc position) (checked.step_id ∷ seen) steps
    ok (checked ∷ rest)

  unfoldable pub validate_plan :
      AgentBudgetSet
      → List CapabilityDefinition
      → List PlannedCapability
      → Result (List PlannedCapability)
  validate_plan budgets planning plan = do
    require (leb (length plan) budgets.max_effect_steps) "agent_plan_limit_exceeded"
    validate_plan_steps planning 0 [] plan
