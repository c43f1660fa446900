-- ===== src/Plan/Dependencies.antt =====
-- `CapabilityPlanService.execute` as a whole, and what its effects rest on.
use ai_odoo_assistant.Prelude.{Bool, true, false, List, [], ◌∷◌, ◌++◌, ◌≡◌, refl}
use ai_odoo_assistant.Plan.{RecoveryUnit, EffectPlan, is_terminal_step}
use ai_odoo_assistant.Plan.Outcome.{Contracts, step_satisfies_dependencies}
use ai_odoo_assistant.Plan.Host.{Host, M, Reply, done, raised, History}
use ai_odoo_assistant.Plan.Preflight.{Progress}
use ai_odoo_assistant.Plan.Execute.{exec_unit, exec_units, execute, is_unit_completed, ids_where}
use ai_odoo_assistant.Plan.Causal.{
  work, is_causal, Quiet, Meets, Meets-if, Meets-quiet, Meets-bind, Meets-return, Follows,
  Quiet-lift, Quiet-check,
}
use ai_odoo_assistant.Plan.Course.{IsOnCourse}
use ai_odoo_assistant.Plan.Steps.{IsSafe, Meets-exec_steps}
use ai_odoo_assistant.Plan.Silence.{Quiet-cross_barrier, Quiet-preflight_unit, Quiet-settle_unit}
use ai_odoo_assistant.Plan.Begin.{begun-IsOnCourse}

module _ (p : EffectPlan) (host : Host) (human_approved : Bool) where
  -- A quiet action in the loop over the units.
  stays : {A : Type 0} (g : Progress) (m : M A) → Quiet m → Meets p (IsSafe p g) m (λ a. IsSafe p g)
  stays g m q = Meets-quiet p (IsOnCourse p g) (λ w c. c.causal) m q

  Meets-exec_unit :
      (contracts : Contracts) (q : EffectPlan) (finished : List RecoveryUnit) (u : RecoveryUnit)
      (later : List RecoveryUnit) (crossed : Bool) (g : Progress)
      → Meets p
          (IsSafe p g)
          (exec_unit host human_approved contracts q finished u later crossed g)
          (λ r. IsSafe p r.2)
  unfolding exec_unit
  Meets-exec_unit contracts q finished u later crossed g =
      Meets-if p (is_unit_completed host human_approved u.state) _ _
        (λ e. Meets-return p _ (λ h c. c))
        (λ e. Meets-bind p _ _ (stays g _ (Quiet-check _ _)) (λ r0.
          Meets-bind p _ _ (stays g _ (Quiet-preflight_unit host human_approved u g))
            (λ definitions.
              Meets-bind p _ _ (stays g _ (Quiet-cross_barrier host human_approved crossed _ _ _))
                (λ c.
                  Meets-bind p _ _
                    (Meets-exec_steps p host human_approved contracts definitions u.step_ids g)
                    (λ g'.
                      Meets-bind p _ _ (stays g' _ (Quiet-settle_unit host human_approved _ _ _))
                        (λ r. Meets-return p _ (λ h k. k)))))))

  Meets-exec_units :
      (contracts : Contracts) (q : EffectPlan) (finished units : List RecoveryUnit) (crossed : Bool)
      (g : Progress)
      → Meets p
          (IsSafe p g)
          (exec_units host human_approved contracts q finished units crossed g)
          (λ r h. is_causal p (work h) ≡ true)
  unfolding exec_units
  Meets-exec_units contracts q finished [] crossed g = Meets-return p _ (λ h c. c.causal)
  Meets-exec_units contracts q finished (u ∷ later) crossed g =
      Meets-bind p _ _ (Meets-exec_unit contracts q finished u later crossed g)
        (λ r. Meets-exec_units contracts q (finished ++ r.1 ∷ []) later r.0 r.2)

  Meets-execute :
      Meets p
        (λ h. work h ≡ [])
        (execute host human_approved p)
        (λ r h. is_causal p (work h) ≡ true)
  unfolding execute is_causal
  Meets-execute = Meets-bind p _ _ (waits _ (Quiet-lift _)) (λ u0.
      Meets-bind p _ _ (waits _ (Quiet-check _ _)) (λ u1.
        Meets-bind p _ _ (waits _ (Quiet-check _ _)) (λ u2.
          Meets-bind p _ _ (waits _ (Quiet-check _ _)) (λ u3.
            Meets-bind p _ _ (waits _ (Quiet-lift _)) (λ contracts.
              Meets-bind p _ _ (waits _ (Quiet-lift _)) (λ u4.
                Meets-bind p _ _ (waits _ (Quiet-lift _))
                  (λ u5. Meets-bind p _ _ (runs contracts) (λ r. Meets-return p _ (λ h k. k)))))))))
    where
      waits : {A : Type 0} (m : M A) → Quiet m → Meets p (λ h. work h ≡ []) m (λ a h. work h ≡ [])
      waits m q = Meets-quiet p (λ w. w ≡ []) (λ w e. rw e refl) m q

      runs :
          (contracts : Contracts)
          → Meets p
              (λ h. work h ≡ [])
              (exec_units host human_approved contracts p [] p.recovery_units false (record {
                steps = p.steps;
                terminal_ids =
                    ids_where host human_approved (λ s. is_terminal_step s.state) p.steps;
                satisfied_ids =
                    ids_where host human_approved (step_satisfies_dependencies contracts) p.steps;
                results = [];
              }))
              (λ r h. is_causal p (work h) ≡ true)
      runs contracts = record {
        at = λ h e.
            (Meets-exec_units contracts p [] p.recovery_units false _).at h
              (rw e (begun-IsOnCourse p host human_approved contracts _));
      }

ended :
    (p : EffectPlan) {A : Type 0} (x : Reply A × History)
    → Follows p (λ r h. is_causal p (work h) ≡ true) x
    → is_causal p (work x.1) ≡ true
ended p (done a, h) k = k
ended p (raised e, h) k = k

-- In an execution of a plan, successful or not, that starts from no call, each effect is of a step of
-- the plan that was not called before in the execution, and each step that it depends on was
-- completed when the execution began or has been verified with success before the effect.
pub execute_causal :
    (host : Host) (human_approved : Bool) (p : EffectPlan)
    → is_causal p (work (execute host human_approved p []).1) ≡ true
unfolding work
execute_causal host human_approved p = ended p _ ((Meets-execute p host human_approved).at [] refl)
