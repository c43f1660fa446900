-- ===== src/Plan/Begin.antt =====
-- Where an execution of a plan begins.
use ai_odoo_assistant.Prelude.{
  Bool, true, false, some, List, [], ◌∷◌, mem, ◌≡◌, refl, str_eq, if◌then◌else◌, String, arith,
  Bool-cases, ap, inl, inr,
}
use ai_odoo_assistant.Plan.{Step, EffectPlan, is_completed_step, find_step}
use ai_odoo_assistant.Plan.Outcome.{Contracts, step_satisfies_dependencies}
use ai_odoo_assistant.Plan.Host.{Host}
use ai_odoo_assistant.Plan.Execute.{ids_where}
use ai_odoo_assistant.Plan.Causal.{was_called, was_verified, is_done, was_completed, is_causal}
use ai_odoo_assistant.Plan.Course.{IsOnCourse, find_step-id}

module _ (p : EffectPlan) (host : Host) (human_approved : Bool) where
  begun-was_completed :
      (contracts : Contracts) (id : String) (steps : List Step)
      → mem id (ids_where host human_approved (step_satisfies_dependencies contracts) steps) ≡ true
      → was_completed id steps ≡ true
  unfolding ids_where was_completed mem step_satisfies_dependencies
  begun-was_completed contracts id [] h = cc
  begun-was_completed contracts id (s ∷ rest) h = elim (Bool-cases (was_completed id rest)) [
    | inl e ↦ ground arith
    | inr e ↦
        elim (Bool-cases
          (mem id (ids_where host human_approved (step_satisfies_dependencies contracts) rest))) [
            | inl m ↦ let k = begun-was_completed contracts id rest m in ground arith
            | inr m ↦ ground arith
          ]
  ]

  picked-was_completed :
      (id : String) (t s : Step) (rest : List Step) (b : Bool)
      → str_eq t.step_id id ≡ b
      → (find_step id rest ≡ some s → was_completed id rest ≡ true)
      → (if b then some t else find_step id rest) ≡ some s
      → is_completed_step s.state ≡ true
      → was_completed id (t ∷ rest) ≡ true
  unfolding was_completed
  picked-was_completed id t s rest true e later h k =
      let q : t ≡ s = cc h in
      let c : is_completed_step t.state ≡ true =
        cc (ap (λ (x : Step). is_completed_step x.state) q, k) in
      ground arith
  picked-was_completed id t s rest false e later h k = let c = later h in ground arith

  found-was_completed :
      (id : String) (steps : List Step) (s : Step)
      → find_step id steps ≡ some s
      → is_completed_step s.state ≡ true
      → was_completed id steps ≡ true
  unfolding find_step was_completed
  found-was_completed id [] s h e = cc
  found-was_completed id (t ∷ rest) s h e =
      picked-was_completed id t s rest (str_eq t.step_id id) refl
        (λ k. found-was_completed id rest s k e) h e

  pub begun-IsOnCourse :
      (contracts : Contracts) (ids : List String)
      → IsOnCourse p
          (record {
            steps = p.steps;
            terminal_ids = ids;
            satisfied_ids =
                ids_where host human_approved (step_satisfies_dependencies contracts) p.steps;
            results = [];
          })
          []
  unfolding is_causal is_done was_called was_verified
  begun-IsOnCourse contracts ids = record {
    causal = refl;
    satisfied = λ id h. let k = begun-was_completed contracts id p.steps h in ground arith;
    steps = λ id s found. record {
      same = find_step-id id p.steps s found;
      before = (s, found, refl);
      completed = λ e. let k = found-was_completed id p.steps s found e in ground arith;
      called = λ e. cc e;
    };
  }
