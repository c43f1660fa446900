-- ===== src/Plan/Steps.antt =====
-- The loop over the steps of a unit in `CapabilityPlanService.execute`, and the course of a plan.
use ai_odoo_assistant.Prelude.{
  Bool, true, false, not, Option, none, some, List, [], ◌∷◌, ◌++◌, any, mem, ◌≡◌, refl, str_eq,
  String, arith, eq_iff, Bool-cases, ap, inl, inr,
}
use ai_odoo_assistant.Prelude.Result.{Result, ok, err}
use ai_odoo_assistant.Prelude.Json.{Json}
use ai_odoo_assistant.Capability.{Definition}
use ai_odoo_assistant.Plan.{
  Step, EffectPlan, is_terminal_step, is_completed_step, find_step, put_step, step_completed,
}
use ai_odoo_assistant.Plan.Outcome.{Contracts, step_satisfies_dependencies}
use ai_odoo_assistant.Plan.Host.{
  Host, History, executing, effect, verified, Verification, ask, pure, raise, check_step,
  from_result,
}
use ai_odoo_assistant.Plan.Preflight.{Progress, step_at, invalid}
use ai_odoo_assistant.Plan.Execute.{
  satisfied_with, skip_step, definition_at, verdict, verify_step, run_step, exec_step, exec_steps,
}
use ai_odoo_assistant.Plan.Causal.{
  work, is_done, is_causal, Quiet, Meets, Meets-if, Meets-quiet, Meets-bind, Meets-return,
  Meets-fact, Follows, Quiet-lift, Quiet-if, Quiet-pure, Quiet-raise,
}
use ai_odoo_assistant.Plan.Course.{IsOnCourse, may_call, ran-IsOnCourse, skipped-IsOnCourse}

module _ (p : EffectPlan) where
  abbrev pub IsSafe : Progress → History → Type 0
  IsSafe g h = IsOnCourse p g (work h)

  -- After the calls `calls`, newest first, on a history in course.
  abbrev IsAfter : Progress → (History → History) → History → Type 0
  IsAfter g calls h =
      (w : History) × (work h ≡ calls w) × IsOnCourse p g w × (is_causal p (calls w) ≡ true)

  Meets-found :
      (id : String) (g : Progress) (o : Option Step)
      → find_step id g.steps ≡ o
      → Meets p
          (IsSafe g)
          (elim o [ none ↦ raise invalid | some s ↦ pure s ])
          (λ s h. (find_step id g.steps ≡ some s) × IsSafe g h)
  unfolding raise pure
  Meets-found id g none e = record { at = λ h k. k.causal }
  Meets-found id g (some s) e = record { at = λ h k. (e, k) }

  Meets-step_at :
      (id : String) (g : Progress)
      → Meets p
          (IsSafe g)
          (step_at id g.steps)
          (λ s h. (find_step id g.steps ≡ some s) × IsSafe g h)
  unfolding step_at
  Meets-step_at id g = Meets-found id g (find_step id g.steps) refl

  module _ (host : Host) (human_approved : Bool) (contracts : Contracts) where
    Meets-effect :
        (d : Definition) (s : Step) (id : String) (g : Progress)
        → find_step id g.steps ≡ some s
        → is_terminal_step s.state ≡ false
        → any (λ d. not (mem d g.satisfied_ids)) s.depends_on ≡ false
        → Meets p
            (IsSafe g)
            (ask
              (some (s.step_id, executing))
              (effect s.step_id d.name)
              (λ h. host.execute h d.name s.arguments human_approved))
            (λ result. IsAfter g (λ w. effect s.step_id d.name ∷ w))
    unfolding ask work
    Meets-effect d s id g found running deps = record {
      at = λ h k. answered (host.execute h d.name s.arguments human_approved) h k;
    }
      where
        answered :
            (r : Result Json) (h : History)
            → IsSafe g h
            → Follows p
                (λ result. IsAfter g (λ w. effect s.step_id d.name ∷ w))
                (from_result (some (s.step_id, executing)) r, effect s.step_id d.name ∷ h)
        answered (ok a) h k =
            (work h, refl, k, may_call p g (work h) k id d.name s found running deps)
        answered (err code) h k = may_call p g (work h) k id d.name s found running deps

    Meets-verify_step :
        (d : Definition) (s : Step) (g : Progress) (result : Json)
        → Meets p
            (IsAfter g (λ w. effect s.step_id d.name ∷ w))
            (verify_step host human_approved d s result)
            (λ v. IsAfter g (λ w. verified s.step_id v.is_verified ∷ effect s.step_id d.name ∷ w))
    unfolding verify_step ask work is_causal
    Meets-verify_step d s g result = record {
      at = λ h k. answered (host.verify h d.name s.arguments result) h k;
    }
      where
        answered :
            (r : Result Verification) (h : History)
            → IsAfter g (λ w. effect s.step_id d.name ∷ w) h
            → Follows p
                (λ v.
                  IsAfter g (λ w. verified s.step_id v.is_verified ∷ effect s.step_id d.name ∷ w))
                (from_result (some (s.step_id, executing)) r, verified s.step_id (verdict r) ∷ h)
        answered (ok v) h (w, e, c, k) = (w, ap (λ x. verified s.step_id v.is_verified ∷ x) e, c, k)
        answered (err code) h (w, e, c, k) = rw e k

    Meets-accept :
        (b : Bool) (code : String) (d : Definition) (s : Step) (g : Progress)
        → Meets p
            (IsAfter g (λ w. verified s.step_id b ∷ effect s.step_id d.name ∷ w))
            (check_step b code s.step_id executing)
            (λ u. IsAfter g (λ w. verified s.step_id true ∷ effect s.step_id d.name ∷ w))
    unfolding check_step
    Meets-accept true code d s g = record { at = λ h k. k }
    Meets-accept false code d s g = record { at = λ h k. failed h k }
      where
        failed :
            (h : History)
            → IsAfter g (λ w. verified s.step_id false ∷ effect s.step_id d.name ∷ w) h
            → is_causal p (work h) ≡ true
        failed h (w, e, c, k) = rw e k

    Meets-run_step :
        (d : Definition) (s : Step) (id : String) (g : Progress)
        → find_step id g.steps ≡ some s
        → is_terminal_step s.state ≡ false
        → any (λ d. not (mem d g.satisfied_ids)) s.depends_on ≡ false
        → Meets p (IsSafe g) (run_step host human_approved contracts d s g) IsSafe
    unfolding run_step is_causal
    Meets-run_step d s id g found running deps =
        Meets-bind p _ _ (Meets-effect d s id g found running deps) (λ result.
          Meets-bind p _ _ (Meets-verify_step d s g result) (λ v.
            Meets-bind p _ _ (Meets-accept v.is_verified _ d s g)
              (λ u. Meets-return p _ (λ h x. ended v.summary result h x))))
      where
        ended :
            (summary result : Json) (h : History)
            → IsAfter g (λ w. verified s.step_id true ∷ effect s.step_id d.name ∷ w) h
            → IsSafe
                (record {
                  steps =
                      put_step
                        (record s {
                          state = step_completed;
                          result = some result;
                          verification = some summary;
                        })
                        g.steps;
                  terminal_ids = s.step_id ∷ g.terminal_ids;
                  satisfied_ids =
                      satisfied_with contracts
                        (record s {
                          state = step_completed;
                          result = some result;
                          verification = some summary;
                        })
                        g.satisfied_ids;
                  results = g.results ++ result ∷ [];
                })
                h
        ended summary result h (w, e, c, k) = rw e (
            ran-IsOnCourse p g w c contracts id d.name s (some result) (some summary)
              (s.step_id ∷ g.terminal_ids) (g.results ++ result ∷ []) found k)

    Quiet-definition_at :
        (id : String) (definitions : List (String × Definition))
        → Quiet (definition_at host human_approved id definitions)
    unfolding definition_at
    Quiet-definition_at id [] = Quiet-raise _
    Quiet-definition_at id ((i, d) ∷ rest) =
        Quiet-if (str_eq i id) _ _ (Quiet-pure d) (Quiet-definition_at id rest)

    Meets-skip_step :
        (s : Step) (id : String) (g : Progress)
        → find_step id g.steps ≡ some s
        → Meets p (IsSafe g) (skip_step host human_approved contracts s g) IsSafe
    unfolding skip_step
    Meets-skip_step s id g found =
        Meets-bind p _ _ (Meets-quiet p (IsOnCourse p g) (λ w c. c.causal) _ (Quiet-lift _)) (λ e.
          Meets-return p _ (λ h c.
            skipped-IsOnCourse p g (work h) c id s (some e.result) (some e.verification)
              (s.step_id ∷ g.terminal_ids) found))

    -- A step that is found terminal counts as satisfied when it is.
    counted-IsOnCourse :
        (s : Step) (id : String) (g : Progress) (w : History)
        → find_step id g.steps ≡ some s
        → IsOnCourse p g w
        → IsOnCourse p
            (record g {
              terminal_ids = id ∷ g.terminal_ids;
              satisfied_ids = satisfied_with contracts s g.satisfied_ids;
            })
            w
    unfolding satisfied_with step_satisfies_dependencies mem
    counted-IsOnCourse s id g w found c = record {
      causal = c.causal;
      satisfied = λ i h. elim (Bool-cases (str_eq s.step_id i)) [
        | inl e ↦
            let k = c.steps id s found in
            let at : id ≡ i = cc (k.same, (eq_iff s.step_id i).0 e) in
            elim (Bool-cases (is_completed_step s.state)) [
              | inl d ↦ cc (ap (λ j. is_done p j w) at, k.completed d)
              | inr d ↦ c.satisfied i (ground arith)
            ]
        | inr e ↦ c.satisfied i (ground arith)
      ];
      steps = c.steps;
    }

    Meets-exec_step :
        (definitions : List (String × Definition)) (id : String) (g : Progress)
        → Meets p (IsSafe g) (exec_step host human_approved contracts definitions id g) IsSafe
    unfolding exec_step
    Meets-exec_step definitions id g = Meets-bind p _ _ (Meets-step_at id g) (λ s.
        Meets-fact p _ (λ found.
          Meets-if p (is_terminal_step s.state) _ _
            (λ e. Meets-return p _ (λ h c. counted-IsOnCourse s id g (work h) found c))
            (λ running.
              Meets-if p (any (λ d. not (mem d g.satisfied_ids)) s.depends_on) _ _
                (λ e. Meets-skip_step s id g found)
                (λ deps.
                  Meets-bind p _ _
                    (Meets-quiet p (IsOnCourse p g) (λ w c. c.causal) _
                      (Quiet-definition_at id definitions))
                    (λ d. Meets-run_step d s id g found running deps)))))

    pub Meets-exec_steps :
        (definitions : List (String × Definition)) (ids : List String) (g : Progress)
        → Meets p (IsSafe g) (exec_steps host human_approved contracts definitions ids g) IsSafe
    unfolding exec_steps
    Meets-exec_steps definitions [] g = Meets-return p g (λ h c. c)
    Meets-exec_steps definitions (id ∷ ids) g =
        Meets-bind p _ _ (Meets-exec_step definitions id g) (Meets-exec_steps definitions ids)
