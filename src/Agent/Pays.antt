-- ===== src/Agent/Pays.antt =====
-- Actions of the decision loop whose executed calls are counted within the budget: the loop of
-- addons/odoo_ai_assistant/runtime/agent/service.py.
use ai_odoo_assistant.Prelude.{
  ℕ, ◌+◌, ◌≤◌, max, Bool, true, false, Option, none, some, length, ◌≡◌, refl, ap, arith,
  if◌then◌else◌,
}
use ai_odoo_assistant.Prelude.Result.{Result, ok, err}
use ai_odoo_assistant.Agent.Host.{ServiceState, M, continue, cases, ◌>>=◌, ◌>>◌}
use ai_odoo_assistant.Agent.Loop.{Counters, Round, finished, again}
use ai_odoo_assistant.Agent.Returns.{Returned, Gives, GoesOn, Stands}
use ai_odoo_assistant.Agent.Keeps.{executed_ids, Keeps}
use ai_odoo_assistant.Agent.Once.{IsResumable, Holds-IsResumable, IsResumable-Holds}

-- How many calls were executed.
abbrev pub executions : ServiceState → ℕ
executions s = length (executed_ids s.history)

module _ (most : ℕ) where
  -- From `n` calls counted and `k` executed: what a round executes it counts, within the budget.
  abbrev pub Within : (n k : ℕ) → Result Round × ServiceState → Type 0
  Within n k (ok (again c), s) =
      IsResumable s
      × (executions s + n ≤ k + c.capability_calls)
      × (n ≤ c.capability_calls)
      × (c.capability_calls ≤ max most n)
  Within n k (ok (finished result), s) = IsResumable s × (executions s + n ≤ k + max most n)
  Within n k (err code, s) = IsResumable s × (executions s + n ≤ k + max most n)

  pub record Pays (n : ℕ) (m : M Round) : Type 0 where
    pub at : (s : ServiceState) → IsResumable s → Within n (executions s) (m s)

  abbrev pub Counted : ℕ → Counters → Type 0
  Counted n c = (n ≤ c.capability_calls) × (c.capability_calls ≤ max most n)

  pub kept :
      {A : Type 0} (m : M A)
      → Keeps m
      → (s : ServiceState) → IsResumable s
      → IsResumable (m s).1 × (executions (m s).1 ≡ executions s)
  kept m k s r =
      let h = k.at (executed_ids s.history) s (IsResumable-Holds s r) in
      (Holds-IsResumable (executed_ids s.history) _ r.distinct h, ap length h.executed_now)

  pub Pays-quiet : (n : ℕ) (m : M Round) → Keeps m → Gives (GoesOn (Counted n)) m → Pays n m
  Pays-quiet n m k g = record {
    at = λ s r. paid (executions s) (m s).0 (m s).1 (kept m k s r) (g.at s);
  }
    where
      paid :
          (e : ℕ) (r : Result Round) (s : ServiceState)
          → IsResumable s × (executions s ≡ e)
          → Returned (GoesOn (Counted n)) (r, s)
          → Within n e (r, s)
      paid e (ok (again c)) s h p = (h.0, omega (arith, h.1, p.0), p.0, p.1)
      paid e (ok (finished result)) s h p = (h.0, omega (arith, h.1))
      paid e (err code) s h p = (h.0, omega (arith, h.1))

  pub Pays-bind :
      {A : Type 0} (n : ℕ) (m : M A) (f : A → M Round)
      → Keeps m
      → ((a : A) → Pays n (f a))
      → Pays n (m >>= f)
  unfolding ◌>>=◌
  Pays-bind {A} n m f k p = record {
    at = λ s r. continued (executions s) (m s).0 (m s).1 (kept m k s r);
  }
    where
      continued :
          (e : ℕ) (u : Result A) (t : ServiceState)
          → IsResumable t × (executions t ≡ e)
          → Within n e (continue u f t)
      continued e (ok a) t h = rw⁻¹ h.1 ((p a).at t h.0)
      continued e (err code) t h = (h.0, omega (arith, h.1))

  pub Pays-then :
      {A : Type 0} (n : ℕ) (m : M A) (f : M Round) → Keeps m → Pays n f → Pays n (m >> f)
  unfolding ◌>>◌
  Pays-then {A} n m f k p = record {
    at = λ s r. continued (executions s) (m s).0 (m s).1 (kept m k s r);
  }
    where
      continued :
          (e : ℕ) (u : Result A) (t : ServiceState)
          → IsResumable t × (executions t ≡ e)
          → Within n e (continue u (λ _. f) t)
      continued e (ok a) t h = rw⁻¹ h.1 (p.at t h.0)
      continued e (err code) t h = (h.0, omega (arith, h.1))

  pub Pays-if :
      (n : ℕ) (b : Bool) (x y : M Round) → Pays n x → Pays n y → Pays n (if b then x else y)
  Pays-if n true x y p q = p
  Pays-if n false x y p q = q

  pub Pays-unless :
      (n : ℕ) (b : Bool) (x y : M Round)
      → Pays n x
      → (b ≡ false → Pays n y)
      → Pays n (if b then x else y)
  Pays-unless n true x y p q = p
  Pays-unless n false x y p q = q refl

  pub Pays-cases {ℓ} :
      {B : Type ℓ} (n : ℕ) (o : Option B) (m : M Round) (f : B → M Round)
      → Pays n m
      → ((b : B) → Pays n (f b))
      → Pays n (cases o m f)
  unfolding cases
  Pays-cases n none m f p q = p
  Pays-cases n (some b) m f p q = q b

  pub stands :
      (n : ℕ) (c : Counters)
      → n ≤ c.capability_calls
      → c.capability_calls ≤ max most n
      → Stands (Counted n) c
  stands n c l h = record { whatever = λ failures error. (l, h) }
