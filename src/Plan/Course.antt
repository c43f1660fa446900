-- ===== src/Plan/Course.antt =====
-- A step of the loop of `CapabilityPlanService.execute` against the plan that it began with, and
-- what the branches of the loop do to it.
use ai_odoo_assistant.Prelude.{
  Bool, true, false, not, Option, some, List, [], ◌∷◌, all, any, mem, ◌≡◌, refl, str_eq,
  if◌then◌else◌, String, arith, eq_refl, eq_iff, Bool-cases, ap, inl, inr,
}
use ai_odoo_assistant.Prelude.Json.{Json}
use ai_odoo_assistant.Plan.{
  Step, EffectPlan, is_terminal_step, is_completed_step, find_step, put_step, step_completed,
  skipped,
}
use ai_odoo_assistant.Plan.Outcome.{Contracts}
use ai_odoo_assistant.Plan.Host.{History, effect, verified}
use ai_odoo_assistant.Plan.Preflight.{Progress}
use ai_odoo_assistant.Plan.Execute.{satisfied_with}
use ai_odoo_assistant.Plan.Causal.{was_called, was_verified, is_done, is_causal}

picked-id :
    (id : String) (t s : Step) (rest : Option Step) (b : Bool)
    → str_eq t.step_id id ≡ b
    → (rest ≡ some s → s.step_id ≡ id)
    → (if b then some t else rest) ≡ some s
    → s.step_id ≡ id
picked-id id t s rest true e later h =
    let q : t ≡ s = cc h in cc (ap (λ (u : Step). u.step_id) q, (eq_iff t.step_id id).0 e)
picked-id id t s rest false e later h = later h

pub find_step-id :
    (id : String) (steps : List Step) (s : Step) → find_step id steps ≡ some s → s.step_id ≡ id
unfolding find_step
find_step-id id [] s h = cc
find_step-id id (t ∷ rest) s h =
    picked-id id t s (find_step id rest) (str_eq t.step_id id) refl (find_step-id id rest s) h

replaced-same :
    (s u : Step) (rest : List Step) (t : Step) (b : Bool)
    → str_eq u.step_id s.step_id ≡ b
    → (find_step s.step_id rest ≡ some t → find_step s.step_id (put_step s rest) ≡ some s)
    → (if b then some u else find_step s.step_id rest) ≡ some t
    → find_step s.step_id (if b then s ∷ rest else u ∷ put_step s rest) ≡ some s
unfolding find_step
replaced-same s u rest t true e later h = rw (eq_refl s.step_id)
replaced-same s u rest t false e later h = rw e (later h)

put_step-same :
    (s : Step) (steps : List Step) (t : Step)
    → find_step s.step_id steps ≡ some t
    → find_step s.step_id (put_step s steps) ≡ some s
unfolding find_step put_step
put_step-same s [] t h = cc
put_step-same s (u ∷ rest) t h =
    replaced-same s u rest t (str_eq u.step_id s.step_id) refl (put_step-same s rest t) h

replaced-other :
    (s u : Step) (id : String) (rest : List Step) (b : Bool)
    → str_eq s.step_id id ≡ false
    → str_eq u.step_id s.step_id ≡ b
    → find_step id (put_step s rest) ≡ find_step id rest
    → find_step id (if b then s ∷ rest else u ∷ put_step s rest) ≡ find_step id (u ∷ rest)
unfolding find_step
replaced-other s u id rest true n e later =
    let q : u.step_id ≡ s.step_id = (eq_iff u.step_id s.step_id).0 e in rw q (rw n)
replaced-other s u id rest false n e later = rw later

put_step-other :
    (s : Step) (id : String) (steps : List Step)
    → str_eq s.step_id id ≡ false
    → find_step id (put_step s steps) ≡ find_step id steps
unfolding put_step
put_step-other s id [] n = refl
put_step-other s id (u ∷ rest) n =
    replaced-other s u id rest (str_eq u.step_id s.step_id) n refl (put_step-other s id rest n)

-- A step of the loop against the plan that it began with and the calls since.
pub record IsKept (p : EffectPlan) (w : History) (id : String) (s : Step) : Type 0 where
  pub same : s.step_id ≡ id
  pub before : (s0 : Step) × (find_step id p.steps ≡ some s0) × (s0.depends_on ≡ s.depends_on)
  pub completed : is_completed_step s.state ≡ true → is_done p id w ≡ true
  pub called : was_called id w ≡ true → is_terminal_step s.state ≡ true

pub record IsOnCourse (p : EffectPlan) (g : Progress) (w : History) : Type 0 where
  pub causal : is_causal p w ≡ true
  pub satisfied : (id : String) → mem id g.satisfied_ids ≡ true → is_done p id w ≡ true
  pub steps : (id : String) (s : Step) → find_step id g.steps ≡ some s → IsKept p w id s

all_done :
    (p : EffectPlan) (w : History) (satisfied ds : List String)
    → ((id : String) → mem id satisfied ≡ true → is_done p id w ≡ true)
    → any (λ d. not (mem d satisfied)) ds ≡ false
    → all (λ d. is_done p d w) ds ≡ true
unfolding any all
all_done p w satisfied [] k h = refl
all_done p w satisfied (d ∷ ds) k h =
    let m : mem d satisfied ≡ true = ground arith in
    let rest = all_done p w satisfied ds k (ground arith) in rw (k d m) rest

module _ (p : EffectPlan) (g : Progress) (w : History) (c : IsOnCourse p g w) where
  not_called :
      (id : String) (s : Step)
      → find_step id g.steps ≡ some s
      → is_terminal_step s.state ≡ false
      → was_called id w ≡ false
  not_called id s found running = elim (Bool-cases (was_called id w)) [
    | inl e ↦ cc ((c.steps id s found).called e, running)
    | inr e ↦ e
  ]

  pub may_call :
      (id name : String) (s : Step)
      → find_step id g.steps ≡ some s
      → is_terminal_step s.state ≡ false
      → any (λ d. not (mem d g.satisfied_ids)) s.depends_on ≡ false
      → is_causal p (effect s.step_id name ∷ w) ≡ true
  unfolding is_causal
  may_call id name s found running deps =
      let k = c.steps id s found in
      let (s0, e0, de) = k.before in
      rw k.same (
        rw (not_called id s found running) (
          rw e0 (rw de (rw (all_done p w g.satisfied_ids s.depends_on c.satisfied deps) c.causal))))

  -- A step of the loop that ends, in a later history.
  put-IsKept :
      (id : String) (s s' : Step) (w' : History)
      → find_step id g.steps ≡ some s
      → s'.step_id ≡ s.step_id
      → s'.depends_on ≡ s.depends_on
      → is_terminal_step s'.state ≡ true
      → (is_completed_step s'.state ≡ true → is_done p s'.step_id w' ≡ true)
      → ((i : String) → is_done p i w ≡ true → is_done p i w' ≡ true)
      → ((i : String) → str_eq s'.step_id i ≡ false → was_called i w' ≡ was_called i w)
      → (i : String) (t : Step) → find_step i (put_step s' g.steps) ≡ some t
      → IsKept p w' i t
  put-IsKept id s s' w' found same deps terminal completed done_later called_other i t h =
      elim (Bool-cases (str_eq s'.step_id i)) [
        | inl e ↦
            let at : i ≡ s'.step_id = cc ((eq_iff s'.step_id i).0 e) in
            let k = c.steps id s found in
            let sid : s'.step_id ≡ id = cc (same, k.same) in
            let found' : find_step s'.step_id g.steps ≡ some s =
              cc (ap (λ j. find_step j g.steps) sid, found) in
            let r : t ≡ s' = cc (
              h,
              put_step-same s' g.steps s found',
              ap (λ j. find_step j (put_step s' g.steps)) at,
            ) in
            let (s0, e0, de) = k.before in
            rw at (
              rw r (record {
                same = refl;
                before = (s0, cc (ap (λ j. find_step j p.steps) sid, e0), cc (de, deps));
                completed = completed;
                called = λ q. terminal;
              }))
        | inr e ↦
            let k = c.steps i t (cc (put_step-other s' i g.steps e, h)) in
            record {
              same = k.same;
              before = k.before;
              completed = λ q. done_later i (k.completed q);
              called = λ q. k.called (cc (called_other i e, q));
            }
      ]

  pub skipped-IsOnCourse :
      (id : String) (s : Step) (result verification : Option Json) (ids : List String)
      → find_step id g.steps ≡ some s
      → IsOnCourse p
          (record g {
            steps =
                put_step
                  (record s { state = skipped; result = result; verification = verification })
                  g.steps;
            terminal_ids = ids;
          })
          w
  skipped-IsOnCourse id s result verification ids found =
      let s' : Step = record s { state = skipped; result = result; verification = verification } in
      record {
        causal = c.causal;
        satisfied = c.satisfied;
        steps = put-IsKept id s s' w found refl refl refl (λ e. cc e) (λ i k. k) (λ i e. refl);
      }

  satisfied-is_done :
      (contracts : Contracts) (s : Step) (name i : String)
      → mem i (satisfied_with contracts s g.satisfied_ids) ≡ true
      → is_done p i (verified s.step_id true ∷ effect s.step_id name ∷ w) ≡ true
  unfolding satisfied_with is_done was_verified mem
  satisfied-is_done contracts s name i h = elim (Bool-cases (str_eq s.step_id i)) [
    | inl e ↦ ground arith
    | inr e ↦ let k = c.satisfied i (ground arith) in ground arith
  ]

  pub ran-IsOnCourse :
      (contracts : Contracts) (id name : String) (s : Step) (result verification : Option Json)
      (ids : List String) (results : List Json)
      → find_step id g.steps ≡ some s
      → is_causal p (effect s.step_id name ∷ w) ≡ true
      → let s' : Step = record s {
        state = step_completed;
        result = result;
        verification = verification;
      } in
        IsOnCourse p
          (record {
            steps = put_step s' g.steps;
            terminal_ids = ids;
            satisfied_ids = satisfied_with contracts s' g.satisfied_ids;
            results = results;
          })
          (verified s.step_id true ∷ effect s.step_id name ∷ w)
  unfolding is_done was_verified was_called is_causal
  ran-IsOnCourse contracts id name s result verification ids results found causal =
      let s' : Step = record s {
        state = step_completed;
        result = result;
        verification = verification;
      } in
      record {
        causal = causal;
        satisfied = satisfied-is_done contracts s' name;
        steps =
            put-IsKept id s s' (verified s.step_id true ∷ effect s.step_id name ∷ w) found refl refl
              refl (λ e. ground (arith, eq_refl s.step_id)) (λ i k. ground arith)
              (λ i e. ground arith);
      }
