-- ===== src/Agent/Ordered.antt =====
-- What `_validate_plan` of addons/odoo_ai_assistant/runtime/agent/service.py lets through.
use ai_odoo_assistant.Prelude.{
  ℕ, suc, ◌≤◌, Bool, true, false, not, String, List, [], ◌∷◌, all, mem, length, ◌≡◌, refl, ap,
  leb→le,
}
use ai_odoo_assistant.Prelude.Json.{Fields}
use ai_odoo_assistant.Prelude.Result.{
  ok, Ensures, Ensures-bind, Ensures-then, Ensures-require, Ensures-ok,
}
use ai_odoo_assistant.Agent.Budgets.{AgentBudgetSet}
use ai_odoo_assistant.Agent.Accounting.{PlannedCapability}
use ai_odoo_assistant.Agent.Host.{CapabilityDefinition, AgentHost}
use ai_odoo_assistant.Agent.Proposal.{validate_plan_step, validate_plan_steps, validate_plan}

-- Each id is new, and each step depends on steps before it; `seen` are the ids before the plan.
abbrev pub IsOrdered : List String → List PlannedCapability → Type 0
IsOrdered seen [] = Unit
IsOrdered seen (step ∷ steps) =
    (mem step.step_id seen ≡ false)
    × (all (λ id. mem id seen) step.depends_on ≡ true)
    × IsOrdered (step.step_id ∷ seen) steps

abbrev Fits : List String → PlannedCapability → Type 0
Fits seen step = (mem step.step_id seen ≡ false) × (all (λ id. mem id seen) step.depends_on ≡ true)

refuted : (b : Bool) → not b ≡ true → b ≡ false
refuted true h = cc h
refuted false h = refl

made :
    (capability summary step_id : String) (arguments : Fields) (depends_on seen : List String)
    → all (λ id. mem id seen) depends_on ≡ true
    → not (mem step_id seen) ≡ true
    → Ensures (Fits seen) (
        ok (record {
          capability = capability;
          arguments = arguments;
          summary = summary;
          step_id = step_id;
          depends_on = depends_on;
        }))
made capability summary step_id arguments depends_on seen d n =
    Ensures-ok
      (record {
        capability = capability;
        arguments = arguments;
        summary = summary;
        step_id = step_id;
        depends_on = depends_on;
      })
      (refuted _ n, d)

module _ (host : AgentHost) (planning : List CapabilityDefinition) where
  validate_plan_step-Fits :
      (position : ℕ) (seen : List String) (step : PlannedCapability)
      → Ensures (Fits seen) (validate_plan_step host planning position seen step)
  unfolding validate_plan_step
  validate_plan_step-Fits position seen step =
      search (Ensures-require, Ensures-then, Ensures-bind, made) depth 40

  validate_plan_steps-IsOrdered :
      (position : ℕ) (seen : List String) (steps : List PlannedCapability)
      → Ensures
          (λ plan. IsOrdered seen plan × (length plan ≡ length steps))
          (validate_plan_steps host planning position seen steps)
  unfolding validate_plan_steps
  validate_plan_steps-IsOrdered position seen [] = Ensures-ok [] (tt, refl)
  validate_plan_steps-IsOrdered position seen (step ∷ steps) =
      Ensures-bind (validate_plan_step host planning position seen step) _ (λ checked e.
        Ensures-bind
          (validate_plan_steps host planning (suc position) (checked.step_id ∷ seen) steps) _
          (λ rest k.
            let fits = (validate_plan_step-Fits position seen step).at checked e in
            let ordered =
              (validate_plan_steps-IsOrdered (suc position) (checked.step_id ∷ seen) steps).at rest
                k in
            Ensures-ok (checked ∷ rest) ((fits.0, fits.1, ordered.0), ap suc ordered.1)))

  accepted :
      (budgets : AgentBudgetSet) (plan : List PlannedCapability)
      → Ensures
          (λ checked. IsOrdered [] checked × (length checked ≤ budgets.max_effect_steps))
          (validate_plan host budgets planning plan)
  unfolding validate_plan
  accepted budgets plan = Ensures-require _ _ _ (λ short. record {
    at = λ checked h.
        let k = (validate_plan_steps-IsOrdered 0 [] plan).at checked h in
        (k.0, rw k.1 (leb→le _ _ short));
  })

  -- A proposed plan that the check lets through has at most the allowed number of effect steps; its step
  -- ids are distinct, and each step depends on steps before it only.
  pub validate_plan-IsOrdered :
      (budgets : AgentBudgetSet) (plan checked : List PlannedCapability)
      → validate_plan host budgets planning plan ≡ ok checked
      → IsOrdered [] checked × (length checked ≤ budgets.max_effect_steps)
  validate_plan-IsOrdered budgets plan checked = (accepted budgets plan).at checked
