-- ===== src/Plan/Prepared.antt =====
-- `CapabilityPlanService.prepare`: the plan of the steps that the model proposes.
use ai_odoo_assistant.Prelude.{
  ℕ, ◌+◌, leb, Bool, false, ◌&&◌, ◌||◌, none, some, List, [], ◌∷◌, ◌≡◌, refl, length, if◌then◌else◌,
}
use ai_odoo_assistant.Turn.{plan_awaiting, plan_authorized}
use ai_odoo_assistant.Plan.{Step, EffectPlan, SemanticGroups}
use ai_odoo_assistant.Plan.Units.{assign_recovery_units}
use ai_odoo_assistant.Plan.Prepare.{
  Requested, requested_id, recovery_mode_of, journal_classification_of, max_effect_steps,
  validate_requested_dependencies,
}
use ai_odoo_assistant.Plan.Host.{
  Host, M, History, preparing, done, pure, lift, ask, check, ◌>>=◌, ◌>>◌,
}
use ai_odoo_assistant.Plan.Host
use ai_odoo_assistant.Plan.Causal.{work, Quiet, quiet_rules, Quiet-pure, Quiet-bind}

module _ (host : Host) where
  -- Three calls of `_new_semantic_group_key`.
  new_groups : M SemanticGroups
  new_groups h = (done (host.new_groups h), h)

  -- One round of the loop over the proposed steps.
  prepare_step : ℕ → Requested → M Step
  unfolding new_groups
  prepare_step position r = do
    d ← lift (host.resolve r.capability)
    groups ← new_groups
    preview ←
        ask (some (requested_id position r, preparing)) (Host.previewed (requested_id position r))
          (λ h. host.preview h d.name r.arguments)
    required ← lift (host.approval_required d.name false)
    mode ← lift (recovery_mode_of d)
    class ← lift (journal_classification_of host.resolve d (some preview.summary))
    pure (record {
      position = position;
      step_id = requested_id position r;
      depends_on = r.depends_on;
      capability = d.name;
      version = d.version;
      arguments = r.arguments;
      title = r.summary;
      approval_required = required;
      precondition_fingerprint = preview.precondition_fingerprint;
      binding_fingerprint =
          host.binding_fingerprint d.name d.version r.arguments preview.precondition_fingerprint;
      preview = preview.summary;
      state = ai_odoo_assistant.Plan.previewed;
      result = none;
      verification = none;
      semantic_groups = groups;
      recovery_unit_id = "";
      recovery_mode = mode;
      journal_classification = class;
    })

  -- The steps from a position on, and whether one of them wants an approval.
  prepare_steps : ℕ → List Requested → M (List Step × Bool)
  unfolding prepare_step
  prepare_steps position [] = pure ([], false)
  prepare_steps position (r ∷ rest) = do
    s ← prepare_step position r
    later ← prepare_steps (position + 1) rest
    pure (s ∷ later.0, s.approval_required || later.1)

  abbrev plan_of : List Step → Bool → EffectPlan
  plan_of steps requires_confirmation =
      let (units, assigned) = assign_recovery_units steps in
      record {
        state = if requires_confirmation then plan_awaiting else plan_authorized;
        requires_confirmation = requires_confirmation;
        recovery_units = units;
        steps = assigned;
      }

  unfoldable pub prepare : List Requested → M EffectPlan
  unfolding prepare_steps
  prepare plan = do
    check (leb 1 (length plan) && leb (length plan) max_effect_steps) "capability_plan_invalid"
    lift (validate_requested_dependencies plan)
    prepared ← prepare_steps 0 plan
    pure (plan_of prepared.0 prepared.1)

  Quiet-new_groups : Quiet new_groups
  unfolding new_groups
  Quiet-new_groups = record { at = λ h. refl }

  Quiet-prepare_step : (position : ℕ) (r : Requested) → Quiet (prepare_step position r)
  unfolding prepare_step
  Quiet-prepare_step position r = search (quiet_rules, Quiet-new_groups) depth 40

  Quiet-prepare_steps : (position : ℕ) (plan : List Requested) → Quiet (prepare_steps position plan)
  unfolding prepare_steps
  Quiet-prepare_steps position [] = Quiet-pure _
  Quiet-prepare_steps position (r ∷ rest) =
      Quiet-bind _ _ (Quiet-prepare_step position r)
        (λ s. Quiet-bind _ _ (Quiet-prepare_steps (position + 1) rest) (λ later. Quiet-pure _))

  Quiet-prepare : (plan : List Requested) → Quiet (prepare plan)
  unfolding prepare
  Quiet-prepare plan = search (quiet_rules, Quiet-prepare_steps) depth 40

-- The preparation of a plan, successful or not, executes and verifies nothing: the effects and
-- verifications among the calls are those from before.
pub prepare_without_effects :
    (host : Host) (plan : List Requested) (h : History) → work (prepare host plan h).1 ≡ work h
prepare_without_effects host plan h = (Quiet-prepare host plan).at h
