-- ===== src/Plan/Causal.antt =====
-- The effects and verifications of a history, and what an effect may rest on: the rules behind the
-- steps of `CapabilityPlanService.execute`.
use ai_odoo_assistant.Prelude.{
  Bool, true, false, not, ◌&&◌, ◌||◌, Option, none, some, List, [], ◌∷◌, all, ◌≡◌, refl, str_eq,
  if◌then◌else◌, String,
}
use ai_odoo_assistant.Prelude.Result.{Result}
use ai_odoo_assistant.Plan.{Step, EffectPlan, find_step, is_completed_step}
use ai_odoo_assistant.Plan.Host.{
  M, Reply, done, raised, Failure, Call, History, StepPhase, previewed, barrier, before_unit,
  after_unit, effect, verified, pure, raise, lift, ask, check, check_step, ◌>>=◌, continue,
}

-- The effects and the verifications of a history.
unfoldable pub work : History → History
work [] = []
work (effect id name ∷ h) = effect id name ∷ work h
work (verified id verdict ∷ h) = verified id verdict ∷ work h
work (_ ∷ h) = work h

unfoldable pub was_called : String → History → Bool
was_called id [] = false
was_called id (effect i name ∷ h) = str_eq i id || was_called id h
was_called id (_ ∷ h) = was_called id h

unfoldable pub was_verified : String → History → Bool
was_verified id [] = false
was_verified id (verified i true ∷ h) = str_eq i id || was_verified id h
was_verified id (_ ∷ h) = was_verified id h

unfoldable pub was_completed : String → List Step → Bool
was_completed id [] = false
was_completed id (s ∷ rest) =
    str_eq s.step_id id && is_completed_step s.state || was_completed id rest

-- Completed when the execution began, or verified since.
unfoldable pub is_done : EffectPlan → String → History → Bool
is_done p id h = was_completed id p.steps || was_verified id h

abbrev pub dependencies_done : EffectPlan → History → Option Step → Bool
dependencies_done p h none = false
dependencies_done p h (some s) = all (λ d. is_done p d h) s.depends_on

-- Each effect is of a step of the plan that was not called before, and whose dependencies are done.
unfoldable pub is_causal : EffectPlan → History → Bool
is_causal p [] = true
is_causal p (effect id name ∷ h) =
    not (was_called id h) && dependencies_done p h (find_step id p.steps) && is_causal p h
is_causal p (_ ∷ h) = is_causal p h

-- An action that calls no effect and no verification.
pub record Quiet {A : Type 0} (m : M A) : Type 0 where
  pub at : (h : History) → work (m h).1 ≡ work h

abbrev pub is_quiet : Call → Bool
is_quiet (effect id name) = false
is_quiet (verified id verdict) = false
is_quiet _ = true

module _ {A : Type 0} where
  pub Quiet-pure : (a : A) → Quiet (pure a)
  unfolding pure
  Quiet-pure a = record { at = λ h. refl }

  pub Quiet-raise : (e : Failure) → Quiet (raise {A = A} e)
  unfolding raise
  Quiet-raise e = record { at = λ h. refl }

  pub Quiet-lift : (r : Result A) → Quiet (lift r)
  unfolding lift
  Quiet-lift r = record { at = λ h. refl }

  pub Quiet-ask :
      (at : Option (String × StepPhase)) (c : Call) (answer : History → Result A)
      → is_quiet c ≡ true
      → Quiet (ask at c answer)
  unfolding ask work
  Quiet-ask at barrier answer q = record { at = λ h. refl }
  Quiet-ask at (previewed id) answer q = record { at = λ h. refl }
  Quiet-ask at (before_unit id last) answer q = record { at = λ h. refl }
  Quiet-ask at (after_unit id) answer q = record { at = λ h. refl }
  Quiet-ask at (effect id name) answer q = cc
  Quiet-ask at (verified id verdict) answer q = cc

  pub Quiet-if : (b : Bool) (m n : M A) → Quiet m → Quiet n → Quiet (if b then m else n)
  Quiet-if true m n km kn = km
  Quiet-if false m n km kn = kn

  pub Quiet-option :
      {B : Type 0} (o : Option B) (m : M A) (f : B → M A)
      → Quiet m
      → ((b : B) → Quiet (f b))
      → Quiet (elim o [ none ↦ m | some b ↦ f b ])
  Quiet-option none m f km kf = km
  Quiet-option (some b) m f km kf = kf b

pub Quiet-check : (b : Bool) (code : String) → Quiet (check b code)
unfolding check
Quiet-check true code = record { at = λ h. refl }
Quiet-check false code = record { at = λ h. refl }

pub Quiet-check_step :
    (b : Bool) (code id : String) (phase : StepPhase) → Quiet (check_step b code id phase)
unfolding check_step
Quiet-check_step true code id phase = record { at = λ h. refl }
Quiet-check_step false code id phase = record { at = λ h. refl }

module _ {A B : Type 0} where
  pub Quiet-bind : (m : M A) (f : A → M B) → Quiet m → ((a : A) → Quiet (f a)) → Quiet (m >>= f)
  unfolding ◌>>=◌
  Quiet-bind m f km kf = record { at = λ h. let (r, h') = m h in continued r h' h (km.at h) }
    where
      continued :
          (r : Reply A) (h' h : History) → work h' ≡ work h → work (continue r f h').1 ≡ work h
      continued (done a) h' h e = cc ((kf a).at h', e)
      continued (raised x) h' h e = e

pub ruleset quiet_rules = (
  Quiet-pure, Quiet-raise, Quiet-lift, Quiet-ask, Quiet-if, Quiet-option, Quiet-check,
  Quiet-check_step, Quiet-bind,
)

-- The contracts of actions that may call: an action that starts in `P` ends in `Q`, or raises after
-- calls that are causal.
module _ (p : EffectPlan) where
  abbrev pub Follows : {A : Type 0} → (A → History → Type 0) → Reply A × History → Type 0
  Follows Q (done a, h) = Q a h
  Follows Q (raised e, h) = is_causal p (work h) ≡ true

  pub record Meets {A : Type 0} (P : History → Type 0) (m : M A) (Q : A → History → Type 0)
      : Type 0 where
    pub at : (h : History) → P h → Follows Q (m h)

  module _ {A : Type 0} where
    pub Meets-if :
        {P : History → Type 0} {Q : A → History → Type 0} (b : Bool) (m n : M A)
        → (b ≡ true → Meets P m Q)
        → (b ≡ false → Meets P n Q)
        → Meets P (if b then m else n) Q
    Meets-if true m n km kn = km refl
    Meets-if false m n km kn = kn refl

    pub Meets-return :
        {P : History → Type 0} {Q : A → History → Type 0} (a : A)
        → ((h : History) → P h → Q a h)
        → Meets P (pure a) Q
    unfolding pure
    Meets-return a k = record { at = k }

    pub Meets-fact :
        {F : Type 0} {P : History → Type 0} {Q : A → History → Type 0} (m : M A)
        → (F → Meets P m Q)
        → Meets (λ h. F × P h) m Q
    Meets-fact m k = record { at = λ h x. (k x.0).at h x.1 }

    -- A quiet action keeps what holds of the calls before it.
    pub Meets-quiet :
        (R : History → Type 0)
        → ((w : History) → R w → is_causal p w ≡ true)
        → (m : M A) → Quiet m
        → Meets (λ h. R (work h)) m (λ a h. R (work h))
    Meets-quiet R causal m q = record { at = λ h k. let (r, h') = m h in kept r h' h (q.at h) k }
      where
        kept :
            (r : Reply A) (h' h : History)
            → work h' ≡ work h
            → R (work h)
            → Follows (λ a h. R (work h)) (r, h')
        kept (done a) h' h e k = rw e k
        kept (raised x) h' h e k = rw e (causal (work h) k)

  module _ {A B : Type 0} where
    pub Meets-bind :
        {P : History → Type 0} {R : A → History → Type 0} {Q : B → History → Type 0} (m : M A)
        (f : A → M B)
        → Meets P m R
        → ((a : A) → Meets (R a) (f a) Q)
        → Meets P (m >>= f) Q
    unfolding ◌>>=◌
    Meets-bind {R} {Q} m f km kf = record {
      at = λ h k. let (r, h') = m h in continued r h' (km.at h k);
    }
      where
        continued : (r : Reply A) (h' : History) → Follows R (r, h') → Follows Q (continue r f h')
        continued (done a) h' k = (kf a).at h' k
        continued (raised e) h' k = k
