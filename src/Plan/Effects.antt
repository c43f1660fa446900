-- ===== src/Plan/Effects.antt =====
-- The order of the calls of `CapabilityPlanService.execute`: the units and the whole.
use ai_odoo_assistant.Prelude.{
  Bool, true, false, Option, none, some, List, [], ◌∷◌, ◌++◌, ◌≡◌, refl, arith,
}
use ai_odoo_assistant.Prelude.Result.{Result}
use ai_odoo_assistant.Plan.{RecoveryUnit, EffectPlan}
use ai_odoo_assistant.Plan.Outcome.{Contracts}
use ai_odoo_assistant.Plan.Host.{Host, Reply, done, raised, History, ◌>>=◌, ask, pure, barrier}
use ai_odoo_assistant.Plan.Preflight.{Progress}
use ai_odoo_assistant.Plan.Execute.{
  cross_barrier, settle_unit, exec_unit, exec_units, execute, is_unit_completed,
}
use ai_odoo_assistant.Plan.Order.{
  has_barrier_callback, is_orderly, between, Runs, Runs-pure, Runs-if, Runs-bind, Runs-lift,
  Runs-barrier, Runs-check, after,
}
use ai_odoo_assistant.Plan.Conduct.{Runs-exec_steps, Runs-preflight_unit, order_rules}

between-is_orderly : (n c : Bool) (h : History) → between n c h ≡ true → is_orderly n h ≡ true
unfolding between
between-is_orderly n c h k = ground arith

started : (n : Bool) → between n false [] ≡ true
unfolding between is_orderly
started n = ground arith

ended :
    (n : Bool) {A : Type 0} (x : Reply A × History)
    → after n (λ a. is_orderly n) x ≡ true
    → is_orderly n x.1 ≡ true
ended n (done a, h) k = k
ended n (raised e, h) k = k

-- The barrier does not expire.
crossed-between : (n c : Bool) (h : History) → between n true h ≡ true → between n c h ≡ true
unfolding between
crossed-between n c h k = ground arith

still-between :
    (n c : Bool) → c ≡ true → (h : History) → between n c h ≡ true → between n true h ≡ true
unfolding between
still-between n c e h k = ground arith

is_given : {A : Type 0} → Option A → Bool
is_given none = false
is_given (some a) = true

no_checkpoints :
    (host : Host)
    → host.checkpoints ≡ false
    → has_barrier_callback host ≡ is_given host.before_effect
unfolding has_barrier_callback is_given
no_checkpoints host e = ground arith

no_barrier :
    (n c : Bool) → n ≡ false → (h : History) → between n c h ≡ true → between n true h ≡ true
unfolding between
no_barrier n c e h k = ground arith

callback_barrier :
    (n crossed : Bool) (o : Option (History → Result (Unit {0})))
    → n ≡ is_given o
    → Runs n
        (between n crossed)
        (elim o [
          | none ↦ pure false
          | some callback ↦ ask none barrier callback >>= (λ _. pure true)
        ])
        (λ c. between n true)
unfolding is_given
callback_barrier n crossed none e = Runs-pure n false (λ h k. no_barrier n crossed e h k)
callback_barrier n crossed (some callback) e =
    Runs-bind n _ _ (Runs-barrier n crossed none _ _ refl) (λ r. Runs-pure n true (λ h k. k))

module _ (host : Host) (human_approved : Bool) where
  abbrev needs : Bool
  needs = has_barrier_callback host

  Runs-cross_barrier :
      (crossed : Bool) (p : EffectPlan) (u : RecoveryUnit) (is_last : Bool)
      → Runs needs
          (between needs crossed)
          (cross_barrier host human_approved crossed p u is_last)
          (λ c. between needs true)
  unfolding cross_barrier has_barrier_callback
  Runs-cross_barrier crossed p u is_last =
      Runs-if needs host.checkpoints _ _
        (λ e.
          Runs-bind needs _ _ (Runs-barrier needs crossed none _ _ refl)
            (λ r. Runs-pure needs true (λ h k. k)))
        (λ e.
          Runs-if needs crossed _ _
            (λ e'. Runs-pure needs true (λ h k. still-between needs crossed e' h k))
            (λ e'. callback_barrier needs crossed host.before_effect (no_checkpoints host e)))

  Runs-settle_unit :
      (p : EffectPlan) (u : RecoveryUnit) (is_last : Bool)
      → Runs needs
          (between needs true)
          (settle_unit host human_approved p u is_last)
          (λ r. between needs true)
  unfolding settle_unit
  Runs-settle_unit p u is_last = search order_rules depth 40

  Runs-exec_unit :
      (contracts : Contracts) (p : EffectPlan) (finished : List RecoveryUnit) (u : RecoveryUnit)
      (later : List RecoveryUnit) (crossed : Bool) (g : Progress)
      → Runs needs
          (between needs crossed)
          (exec_unit host human_approved contracts p finished u later crossed g)
          (λ r. between needs r.0)
  unfolding exec_unit
  Runs-exec_unit contracts p finished u later crossed g =
      Runs-if needs (is_unit_completed host human_approved u.state) _ _
        (λ e. Runs-pure needs _ (λ h k. k))
        (λ e. Runs-bind needs _ _ (Runs-check needs crossed _ _) (λ r.
          Runs-bind needs _ _ (Runs-preflight_unit needs crossed host human_approved u g)
            (λ definitions. Runs-bind needs _ _ (Runs-cross_barrier crossed _ _ _) (λ c.
              Runs-bind needs _ _
                (Runs-exec_steps host human_approved needs contracts definitions u.step_ids g)
                (λ g'.
                  Runs-bind needs _ _ (Runs-settle_unit _ _ _)
                    (λ r'. Runs-pure needs _ (λ h k. crossed-between needs c h k)))))))

  Runs-exec_units :
      (contracts : Contracts) (p : EffectPlan) (finished units : List RecoveryUnit) (crossed : Bool)
      (g : Progress)
      → Runs needs
          (between needs crossed)
          (exec_units host human_approved contracts p finished units crossed g)
          (λ r. is_orderly needs)
  unfolding exec_units
  Runs-exec_units contracts p finished [] crossed g =
      Runs-pure needs _ (λ h k. between-is_orderly needs crossed h k)
  Runs-exec_units contracts p finished (u ∷ later) crossed g =
      Runs-bind needs _ _ (Runs-exec_unit contracts p finished u later crossed g)
        (λ r. Runs-exec_units contracts p (finished ++ r.1 ∷ []) later r.0 r.2)

  Runs-execute :
      (p : EffectPlan)
      → Runs needs (between needs false) (execute host human_approved p) (λ r. is_orderly needs)
  unfolding execute
  Runs-execute p = Runs-bind needs _ _ (Runs-lift needs false _) (λ u0.
      Runs-bind needs _ _ (Runs-check needs false _ _) (λ u1.
        Runs-bind needs _ _ (Runs-check needs false _ _) (λ u2.
          Runs-bind needs _ _ (Runs-check needs false _ _) (λ u3.
            Runs-bind needs _ _ (Runs-lift needs false _) (λ contracts.
              Runs-bind needs _ _ (Runs-lift needs false _) (λ u4.
                Runs-bind needs _ _ (Runs-lift needs false _) (λ u5.
                  Runs-bind needs _ _ (Runs-exec_units contracts p [] p.recovery_units false _)
                    (λ r. Runs-pure needs _ (λ h k. k)))))))))

-- The calls of an execution of a plan, successful or not, start from no call and are in order: an
-- effect is called only when every effect before it was verified with success; its own verification
-- is the next call; after a verification that fails there is no further call; and where the caller
-- gave a checkpoint callback or `before_effect`, a checkpoint or the write barrier came before the
-- effect.
pub execute_orderly :
    (host : Host) (human_approved : Bool) (p : EffectPlan)
    → is_orderly (has_barrier_callback host) (execute host human_approved p []).1 ≡ true
execute_orderly host human_approved p =
    ended _ _ ((Runs-execute host human_approved p).at [] (started _))
