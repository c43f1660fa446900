-- ===== src/Plan/Conduct.antt =====
-- The order of the calls of `CapabilityPlanService.execute`: the preflight and the steps of a unit.
use ai_odoo_assistant.Prelude.{
  Bool, true, false, some, List, [], ◌∷◌, ◌≡◌, str_eq, String, arith, eq_refl,
}
use ai_odoo_assistant.Prelude.Result.{Result, ok, err}
use ai_odoo_assistant.Prelude.Json.{Json}
use ai_odoo_assistant.Capability.{Definition}
use ai_odoo_assistant.Plan.{Step, RecoveryUnit, find_step}
use ai_odoo_assistant.Plan.Outcome.{Contracts}
use ai_odoo_assistant.Plan.Host.{
  Host, History, executing, verified, Verification, ask, pure, from_result,
}
use ai_odoo_assistant.Plan.Preflight.{
  Progress, Preflight, step_at, preflight_step, preflight_one, preflight_from, preflight_unit,
}
use ai_odoo_assistant.Plan.Execute.{
  skip_step, definition_at, verdict, verify_step, run_step, exec_step, exec_steps,
}
use ai_odoo_assistant.Plan.Order.{
  has_barrier_callback, is_orderly, between, is_awaiting, is_verdict, has_barrier, Runs, Runs-pure,
  Runs-if, Runs-bind, Runs-option, Runs-seq, Runs-return, Runs-raise, Runs-lift, Runs-previewed,
  Runs-after_unit, Runs-barrier, Runs-check, Runs-check_step, Runs-effect, Runs-accept, after,
}

pub ruleset order_rules = (
  Runs-if, Runs-seq, Runs-return, Runs-raise, Runs-lift, Runs-previewed, Runs-after_unit,
  Runs-check, Runs-check_step,
)

module _ (n c : Bool) where
  Runs-step_at :
      (id : String) (steps : List Step) → Runs n (between n c) (step_at id steps) (λ s. between n c)
  unfolding step_at
  Runs-step_at id steps =
      Runs-option n c (find_step id steps) _ pure (Runs-raise n c _) (Runs-return n c)

  Runs-definition_at :
      (host : Host) (human_approved : Bool) (id : String) (definitions : List (String × Definition))
      → Runs n (between n c) (definition_at host human_approved id definitions) (λ d. between n c)
  unfolding definition_at
  Runs-definition_at host human_approved id [] = Runs-raise n c _
  Runs-definition_at host human_approved id ((i, d) ∷ rest) =
      Runs-if n (str_eq i id) _ _ (λ e. Runs-return n c d)
        (λ e. Runs-definition_at host human_approved id rest)

  module _ (host : Host) (human_approved : Bool) where
    Runs-preflight_step :
        (s : Step) → Runs n (between n c) (preflight_step host human_approved s) (λ d. between n c)
    unfolding preflight_step
    Runs-preflight_step s = search order_rules depth 40

    Runs-preflight_one :
        (steps : List Step) (terminal_ids : List String) (id : String) (p : Preflight)
        → Runs n
            (between n c)
            (preflight_one host human_approved steps terminal_ids id p)
            (λ p'. between n c)
    unfolding preflight_one
    Runs-preflight_one steps terminal_ids id p =
        search (order_rules, Runs-step_at, Runs-preflight_step) depth 40

    Runs-preflight_from :
        (steps : List Step) (terminal_ids ids : List String) (p : Preflight)
        → Runs n
            (between n c)
            (preflight_from host human_approved steps terminal_ids ids p)
            (λ p'. between n c)
    unfolding preflight_from
    Runs-preflight_from steps terminal_ids [] p = Runs-return n c p
    Runs-preflight_from steps terminal_ids (id ∷ ids) p =
        Runs-seq n c _ _ (Runs-preflight_one steps terminal_ids id p)
          (Runs-preflight_from steps terminal_ids ids)

    pub Runs-preflight_unit :
        (u : RecoveryUnit) (g : Progress)
        → Runs n (between n c) (preflight_unit host human_approved u g) (λ d. between n c)
    unfolding preflight_unit
    Runs-preflight_unit u g = search (order_rules, Runs-preflight_from) depth 40

  Runs-skip_step :
      (host : Host) (human_approved : Bool) (contracts : Contracts) (s : Step) (g : Progress)
      → Runs n (between n c) (skip_step host human_approved contracts s g) (λ g'. between n c)
  unfolding skip_step
  Runs-skip_step host human_approved contracts s g = search order_rules depth 40

judged :
    (n : Bool) (id : String) (b : Bool) (h : History)
    → is_awaiting n id h ≡ true
    → is_verdict n b (verified id b ∷ h) ≡ true
unfolding is_awaiting is_verdict is_orderly has_barrier
judged n id true h k = ground arith
judged n id false h k = ground arith

module _ (host : Host) (human_approved n : Bool) where
  Runs-verify_step :
      (d : Definition) (s : Step) (result : Json)
      → Runs n
          (is_awaiting n s.step_id)
          (verify_step host human_approved d s result)
          (λ v. is_verdict n v.is_verified)
  unfolding verify_step ask is_awaiting is_verdict is_orderly has_barrier
  Runs-verify_step d s result = record {
    at = λ h k. answered (host.verify h d.name s.arguments result) h k;
  }
    where
      answered :
          (r : Result Verification) (h : History)
          → is_awaiting n s.step_id h ≡ true
          → after n
              (λ v. is_verdict n v.is_verified)
              (from_result (some (s.step_id, executing)) r, verified s.step_id (verdict r) ∷ h)
            ≡ true
      answered (ok v) h k = judged n s.step_id v.is_verified h k
      answered (err code) h k = ground arith

  Runs-run_step :
      (contracts : Contracts) (d : Definition) (s : Step) (g : Progress)
      → Runs n
          (between n true)
          (run_step host human_approved contracts d s g)
          (λ g'. between n true)
  unfolding run_step
  Runs-run_step contracts d s g =
      Runs-bind n _ _ (Runs-effect n _ s.step_id d.name _ (eq_refl s.step_id)) (λ result.
        Runs-bind n _ _ (Runs-verify_step d s result) (λ v.
          Runs-bind n _ _ (Runs-accept n v.is_verified _ s.step_id executing)
            (λ u. Runs-return n true _)))

  Runs-exec_step :
      (contracts : Contracts) (definitions : List (String × Definition)) (id : String)
      (g : Progress)
      → Runs n
          (between n true)
          (exec_step host human_approved contracts definitions id g)
          (λ g'. between n true)
  unfolding exec_step
  Runs-exec_step contracts definitions id g =
      search (order_rules, Runs-step_at, Runs-skip_step, Runs-definition_at, Runs-run_step) depth 40

  pub Runs-exec_steps :
      (contracts : Contracts) (definitions : List (String × Definition)) (ids : List String)
      (g : Progress)
      → Runs n
          (between n true)
          (exec_steps host human_approved contracts definitions ids g)
          (λ g'. between n true)
  unfolding exec_steps
  Runs-exec_steps contracts definitions [] g = Runs-return n true g
  Runs-exec_steps contracts definitions (id ∷ ids) g =
      Runs-seq n true _ _ (Runs-exec_step contracts definitions id g)
        (Runs-exec_steps contracts definitions ids)
