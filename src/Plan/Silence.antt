-- ===== src/Plan/Silence.antt =====
-- The actions of `CapabilityPlanService.execute` that call no effect and no verification.
use ai_odoo_assistant.Prelude.{Bool, true, false, List, [], ◌∷◌, refl, String}
use ai_odoo_assistant.Plan.{Step, RecoveryUnit, EffectPlan, find_step}
use ai_odoo_assistant.Plan.Host.{Host, pure}
use ai_odoo_assistant.Plan.Preflight.{
  Progress, Preflight, step_at, preflight_step, preflight_one, preflight_from, preflight_unit,
}
use ai_odoo_assistant.Plan.Execute.{cross_barrier, settle_unit}
use ai_odoo_assistant.Plan.Causal.{
  Quiet, quiet_rules, Quiet-if, Quiet-ask, Quiet-pure, Quiet-bind, Quiet-raise, Quiet-option,
}

module _ (host : Host) (human_approved : Bool) where
  Quiet-step_at : (id : String) (steps : List Step) → Quiet (step_at id steps)
  unfolding step_at
  Quiet-step_at id steps =
      Quiet-option (find_step id steps) _ pure (Quiet-raise _) (λ s. Quiet-pure s)

  Quiet-preflight_step : (s : Step) → Quiet (preflight_step host human_approved s)
  unfolding preflight_step
  Quiet-preflight_step s = search quiet_rules depth 40

  Quiet-preflight_one :
      (steps : List Step) (terminal_ids : List String) (id : String) (f : Preflight)
      → Quiet (preflight_one host human_approved steps terminal_ids id f)
  unfolding preflight_one
  Quiet-preflight_one steps terminal_ids id f =
      search (quiet_rules, Quiet-step_at, Quiet-preflight_step) depth 40

  Quiet-preflight_from :
      (steps : List Step) (terminal_ids ids : List String) (f : Preflight)
      → Quiet (preflight_from host human_approved steps terminal_ids ids f)
  unfolding preflight_from
  Quiet-preflight_from steps terminal_ids [] f = Quiet-pure f
  Quiet-preflight_from steps terminal_ids (id ∷ ids) f =
      Quiet-bind _ _ (Quiet-preflight_one steps terminal_ids id f)
        (Quiet-preflight_from steps terminal_ids ids)

  pub Quiet-preflight_unit :
      (u : RecoveryUnit) (g : Progress) → Quiet (preflight_unit host human_approved u g)
  unfolding preflight_unit
  Quiet-preflight_unit u g = search (quiet_rules, Quiet-preflight_from) depth 40

  pub Quiet-cross_barrier :
      (crossed : Bool) (q : EffectPlan) (u : RecoveryUnit) (is_last : Bool)
      → Quiet (cross_barrier host human_approved crossed q u is_last)
  unfolding cross_barrier
  Quiet-cross_barrier crossed q u is_last =
      Quiet-if host.checkpoints _ _ (Quiet-bind _ _ (Quiet-ask _ _ _ refl) (λ r. Quiet-pure true)) (
        Quiet-if crossed _ _ (Quiet-pure true) (
          Quiet-option host.before_effect _ _ (Quiet-pure false)
            (λ callback. Quiet-bind _ _ (Quiet-ask _ _ _ refl) (λ r. Quiet-pure true))))

  pub Quiet-settle_unit :
      (q : EffectPlan) (u : RecoveryUnit) (is_last : Bool)
      → Quiet (settle_unit host human_approved q u is_last)
  unfolding settle_unit
  Quiet-settle_unit q u is_last = search quiet_rules depth 40
