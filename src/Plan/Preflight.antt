-- ===== src/Plan/Preflight.antt =====
-- `_preflight_unit` of `CapabilityPlanService`, before a unit runs.
use ai_odoo_assistant.Prelude.{
  String, Bool, true, false, not, ◌||◌, none, some, List, [], ◌∷◌, any, all, mem, str_eq,
  if◌then◌else◌,
}
use ai_odoo_assistant.Prelude.Json.{Json}
use ai_odoo_assistant.Capability.{Definition}
use ai_odoo_assistant.Plan.{
  Step, RecoveryUnit, StepState, previewed, step_executing, is_terminal_step, same_mode, find_step,
}
use ai_odoo_assistant.Plan.Prepare.{recovery_mode_of, journal_classification_of, same_class}
use ai_odoo_assistant.Plan.Host.{
  Host, M, Failure, StepPhase, preflighting, executing, barrier, before_unit, after_unit, effect,
  verified, Preview, Verification, pure, raise, lift, ask, check, check_step, ◌>>=◌, ◌>>◌,
}
use ai_odoo_assistant.Plan.Host
use ai_odoo_assistant.Plan.Host.{Reply}

-- The variables of the loop over the steps: `steps`, `terminal_ids`, `satisfied_ids`, `results`.
pub record Progress : Type 0 where
  pub steps : List Step
  pub terminal_ids : List String
  pub satisfied_ids : List String
  pub results : List Json

abbrev pub invalid : Failure
invalid = record { code = "capability_plan_invalid"; at_step = none }

-- `_step_index` and the read at it
unfoldable pub step_at : String → List Step → M Step
step_at id steps = elim (find_step id steps) [ none ↦ raise invalid | some s ↦ pure s ]

abbrev pub is_open : StepState → Bool
is_open previewed = true
is_open step_executing = true
is_open _ = false

-- The variables of `_preflight_unit`.
pub record Preflight : Type 0 where
  pub unit_seen : List String
  pub known_unsatisfied : List String
  pub definitions : List (String × Definition)

-- set(xs) - set(ys)
unfoldable pub remove_all : List String → List String → List String
remove_all ys [] = []
remove_all ys (x ∷ xs) = if mem x ys then remove_all ys xs else x ∷ remove_all ys xs

module _ (host : Host) (human_approved : Bool) where
  -- The checks of one step that may run.
  unfoldable pub preflight_step : Step → M Definition
  preflight_step s = do
    d ← lift (host.resolve s.capability)
    check (str_eq d.version s.version) "capability_plan_version_mismatch"
    mode ← lift (recovery_mode_of d)
    check (same_mode mode s.recovery_mode) "capability_plan_recovery_binding_mismatch"
    check
        (str_eq (host.binding_fingerprint d.name d.version s.arguments s.precondition_fingerprint)
          s.binding_fingerprint)
        "capability_plan_binding_mismatch"
    current ←
        ask (some (s.step_id, preflighting)) (Host.previewed s.step_id)
          (λ h. host.preview h d.name s.arguments)
    check_step (str_eq current.precondition_fingerprint s.precondition_fingerprint)
        "capability_plan_precondition_changed" s.step_id preflighting
    class ← lift (journal_classification_of host.resolve d (some current.summary))
    check (same_class class s.journal_classification) "capability_plan_journal_binding_mismatch"
    required ← lift (host.approval_required d.name human_approved)
    check (not required) "capability_plan_approval_required"
    pure d

  unfoldable pub preflight_one : List Step → List String → String → Preflight → M Preflight
  unfolding step_at preflight_step
  preflight_one steps terminal_ids id p = do
    s ← step_at id steps
    if is_terminal_step s.state then pure (record p { unit_seen = id ∷ p.unit_seen }) else do
      check (is_open s.state) "capability_plan_invalid"
      check (all (λ d. mem d terminal_ids || mem d p.unit_seen) s.depends_on)
          "capability_plan_dependency_unsatisfied"
      if any (λ d. mem d p.known_unsatisfied) s.depends_on
          then pure (record p {
            known_unsatisfied = id ∷ p.known_unsatisfied;
            unit_seen = id ∷ p.unit_seen;
          })
          else do
            d ← preflight_step s
            pure (record p { definitions = (id, d) ∷ p.definitions; unit_seen = id ∷ p.unit_seen })

  unfoldable pub preflight_from : List Step → List String → List String → Preflight → M Preflight
  preflight_from steps terminal_ids [] p = pure p
  preflight_from steps terminal_ids (id ∷ ids) p = do
    p' ← preflight_one steps terminal_ids id p
    preflight_from steps terminal_ids ids p'

  -- `_preflight_unit`: the definitions of the steps that may run. `known_unsatisfied` starts as
  -- terminal_ids - satisfied_ids.
  unfoldable pub preflight_unit : RecoveryUnit → Progress → M (List (String × Definition))
  unfolding preflight_from preflight_one remove_all
  preflight_unit u g = do
    p ← preflight_from g.steps g.terminal_ids u.step_ids (record {
      unit_seen = [];
      known_unsatisfied = remove_all g.satisfied_ids g.terminal_ids;
      definitions = [];
    })
    pure p.definitions
