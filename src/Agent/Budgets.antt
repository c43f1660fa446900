-- ===== src/Agent/Budgets.antt =====
-- The budgets of one turn: addons/odoo_ai_assistant/runtime/agent/budgets.py.
use ai_odoo_assistant.Prelude.{
  ℕ, suc, Bool, false, ◌+◌, ◌-◌, ◌≤◌, leb, min, true, ◌&&◌, none, some, String, ◌≡◌, if◌then◌else◌,
  arith, leb→le,
}
use ai_odoo_assistant.Prelude.Json.{ℤ, negsuc, Json, int, obj, pos, Fields, end, get}
use ai_odoo_assistant.Prelude.Result.{
  Result, ok, err, require, ◌>>=◌, ◌>>◌, Ensures, Ensures-bind, Ensures-require, Ensures-ok,
}

-- The five families of limits, in one record.
pub record AgentBudgetSet : Type 0 where
  pub max_effect_steps : ℕ
  pub max_consecutive_failures : ℕ
  pub max_provider_decisions : ℕ
  pub max_capability_calls : ℕ
  pub cost_provider_decisions : ℕ
  pub latency_provider_decisions : ℕ
  pub max_transcript_bytes : ℕ
  pub max_result_bytes : ℕ

abbrev pub most_provider_decisions : ℕ
most_provider_decisions = 32

abbrev pub most_capability_calls : ℕ
most_capability_calls = 32

abbrev pub most_consecutive_failures : ℕ
most_consecutive_failures = 8

abbrev pub most_effect_steps : ℕ
most_effect_steps = 5

-- MAX_TRANSCRIPT_BYTES and MAX_RESULT_BYTES of working_transcript.py
abbrev pub most_transcript_bytes : ℕ
most_transcript_bytes = 131072

abbrev pub most_result_bytes : ℕ
most_result_bytes = 32768

-- The code of `AgentBudgetError`.
abbrev invalid {ℓ} : {A : Type ℓ} → Result A
invalid = err "agent_policy_invalid"

unfoldable pub provider_decision_limit : AgentBudgetSet → ℕ
provider_decision_limit b =
    min b.max_provider_decisions (min b.cost_provider_decisions b.latency_provider_decisions)

-- type(value) is not int or not minimum <= value <= maximum
unfoldable pub bounded_int : Json → ℕ → ℕ → Result ℕ
bounded_int (int (pos n)) minimum maximum = if leb minimum n && leb n maximum then ok n else invalid
bounded_int _ minimum maximum = invalid

-- d.get(key, default)
unfoldable pub get_or : String → Json → Fields → Json
unfolding get
get_or key default d = elim (get key d) [ none ↦ default | some v ↦ v ]

-- value if isinstance(value, dict) else raise
abbrev dict_of : Json → Result Fields
dict_of (obj fs) = ok fs
dict_of _ = invalid

unfoldable pub family : Fields → String → Result Fields
unfolding get_or
family overrides name = dict_of (get_or name (obj end) overrides)

-- A policy that is not a dict is taken for an empty one.
abbrev policy_of : Json → Fields
policy_of (obj fs) = fs
policy_of _ = end

abbrev number : ℕ → Json
number n = int (pos n)

-- `resolve_agent_budgets`, of the metadata of the context
unfoldable pub resolve_agent_budgets : Fields → Result AgentBudgetSet
unfolding get_or family bounded_int
resolve_agent_budgets metadata = do
  let policy = policy_of (get_or "capability_policy" (obj end) metadata)
  overrides ← dict_of (get_or "agent_budgets" (obj end) metadata)
  exploration ← family overrides "exploration"
  safety ← family overrides "safety"
  cost ← family overrides "cost"
  latency ← family overrides "latency"
  response ← family overrides "response"
  provider_decisions ←
      bounded_int
        (get_or "max_provider_decisions" (get_or "max_provider_decisions" (number 12) policy)
          exploration)
        1 most_provider_decisions
  capability_calls ←
      bounded_int
        (get_or "max_capability_calls" (get_or "max_capability_calls" (number 8) policy)
          exploration)
        1 most_capability_calls
  failures ←
      bounded_int
        (get_or "max_consecutive_failures"
          (get_or "max_consecutive_correctable_failures"
            (get_or "max_consecutive_failures" (number 3) policy) policy)
          safety)
        1 most_consecutive_failures
  policy_write_steps ←
      bounded_int (get_or "max_write_steps_per_plan" (number most_effect_steps) policy) 0 12
  requested_effect_steps ←
      bounded_int
        (get_or "max_effect_steps" (get_or "max_effect_steps_per_plan" (number 1) policy) safety) 1
        most_effect_steps
  cost_provider ←
      bounded_int (get_or "max_provider_decisions" (number provider_decisions) cost) 1
        most_provider_decisions
  latency_provider ←
      bounded_int (get_or "max_provider_decisions" (number provider_decisions) latency) 1
        most_provider_decisions
  transcript_bytes ←
      bounded_int (get_or "max_transcript_bytes" (number most_transcript_bytes) response) 4096
        most_transcript_bytes
  result_bytes ←
      bounded_int (get_or "max_result_bytes" (number most_result_bytes) response) 1024
        most_result_bytes
  require (leb result_bytes transcript_bytes) "agent_policy_invalid"
  ok (record {
    max_effect_steps = min requested_effect_steps policy_write_steps;
    max_consecutive_failures = failures;
    max_provider_decisions = provider_decisions;
    max_capability_calls = capability_calls;
    cost_provider_decisions = cost_provider;
    latency_provider_decisions = latency_provider;
    max_transcript_bytes = transcript_bytes;
    max_result_bytes = result_bytes;
  })

pub record Remaining : Type 0 where
  pub provider_decisions : ℕ
  pub capability_calls : ℕ
  pub correctable_failures : ℕ
  pub effect_steps : ℕ
  pub cost_provider_decisions : ℕ
  pub latency_provider_decisions : ℕ
  pub transcript_bytes : ℕ
  pub result_bytes : ℕ

-- type(counter) is int and counter >= 0
abbrev is_counter : ℤ → Bool
is_counter (pos n) = true
is_counter (negsuc n) = false

-- limit - used, on integers
difference : ℕ → ℤ → ℤ
difference limit (pos used) =
    if leb used limit then pos (limit - used) else negsuc (used - suc limit)
difference limit (negsuc used) = pos (limit + suc used)

-- max(0, limit - used)
left_of : ℕ → ℤ → ℕ
unfolding difference
left_of limit used = elim (difference limit used) [ pos n ↦ n | negsuc n ↦ 0 ]

unfoldable pub remaining : AgentBudgetSet → ℤ → ℤ → ℤ → ℤ → ℤ → Result Remaining
unfolding provider_decision_limit left_of
remaining b provider_decisions capability_calls consecutive_failures transcript_bytes effect_steps =
    do
      require
          (is_counter provider_decisions
            && (is_counter capability_calls
                && (is_counter consecutive_failures
                    && (is_counter transcript_bytes && is_counter effect_steps))))
          "agent_policy_invalid"
      ok (record {
        provider_decisions = left_of (provider_decision_limit b) provider_decisions;
        capability_calls = left_of b.max_capability_calls capability_calls;
        correctable_failures = left_of b.max_consecutive_failures consecutive_failures;
        effect_steps = left_of b.max_effect_steps effect_steps;
        cost_provider_decisions = left_of b.cost_provider_decisions provider_decisions;
        latency_provider_decisions = left_of b.latency_provider_decisions provider_decisions;
        transcript_bytes = left_of b.max_transcript_bytes transcript_bytes;
        result_bytes = b.max_result_bytes;
      })

-- What every accepted configuration satisfies.
pub record IsWithin (b : AgentBudgetSet) : Type 0 where
  pub effect_steps : b.max_effect_steps ≤ most_effect_steps
  pub failures : (1 ≤ b.max_consecutive_failures) × (b.max_consecutive_failures ≤ 8)
  pub decisions : (1 ≤ provider_decision_limit b) × (provider_decision_limit b ≤ 32)
  pub calls : (1 ≤ b.max_capability_calls) × (b.max_capability_calls ≤ 32)
  pub transcript : (4096 ≤ b.max_transcript_bytes) × (b.max_transcript_bytes ≤ 131072)
  pub result : (1024 ≤ b.max_result_bytes) × (b.max_result_bytes ≤ b.max_transcript_bytes)

bounded_int_bounds :
    (value : Json) (lo hi n : ℕ) → bounded_int value lo hi ≡ ok n → (lo ≤ n) × (n ≤ hi)
unfolding bounded_int
bounded_int_bounds value lo hi n h = ground arith

abbrev of_numbers :
    (steps write_steps failures decisions calls cost latency transcript result : ℕ) → AgentBudgetSet
of_numbers steps write_steps failures decisions calls cost latency transcript result = record {
  max_effect_steps = min steps write_steps;
  max_consecutive_failures = failures;
  max_provider_decisions = decisions;
  max_capability_calls = calls;
  cost_provider_decisions = cost;
  latency_provider_decisions = latency;
  max_transcript_bytes = transcript;
  max_result_bytes = result;
}

settled :
    (steps write_steps failures decisions calls cost latency transcript result : ℕ)
    → (1 ≤ steps) × (steps ≤ 5)
    → (1 ≤ failures) × (failures ≤ 8)
    → (1 ≤ decisions) × (decisions ≤ 32)
    → (1 ≤ calls) × (calls ≤ 32)
    → (1 ≤ cost) × (cost ≤ 32)
    → (1 ≤ latency) × (latency ≤ 32)
    → (4096 ≤ transcript) × (transcript ≤ 131072)
    → (1024 ≤ result) × (result ≤ 32768)
    → leb result transcript ≡ true
    → Ensures IsWithin
        (ok (of_numbers steps write_steps failures decisions calls cost latency transcript result))
unfolding provider_decision_limit
settled steps write_steps failures decisions calls cost latency transcript result s f d c k l t r
      q =
    Ensures-ok
      (of_numbers steps write_steps failures decisions calls cost latency transcript result)
      (record {
        effect_steps = omega arith;
        failures = f;
        decisions = omega arith;
        calls = c;
        transcript = t;
        result = (r.0, leb→le _ _ q);
      })

bounded_int_then :
    {P : AgentBudgetSet → Type 0} (value : Json) (lo hi : ℕ) (next : ℕ → Result AgentBudgetSet)
    → ((n : ℕ) → (lo ≤ n) × (n ≤ hi) → Ensures P (next n))
    → Ensures P (bounded_int value lo hi >>= next)
bounded_int_then value lo hi next k =
    Ensures-bind (bounded_int value lo hi) next (λ n e. k n (bounded_int_bounds value lo hi n e))

family_then :
    {P : AgentBudgetSet → Type 0} (overrides : Fields) (name : String)
    (next : Fields → Result AgentBudgetSet)
    → ((fs : Fields) → Ensures P (next fs))
    → Ensures P (family overrides name >>= next)
family_then overrides name next k = Ensures-bind (family overrides name) next (λ fs e. k fs)

resolved : (metadata : Fields) → Ensures IsWithin (resolve_agent_budgets metadata)
unfolding resolve_agent_budgets
resolved metadata =
    Ensures-bind (dict_of (get_or "agent_budgets" (obj end) metadata)) _
      (λ overrides e. search (bounded_int_then, family_then, Ensures-require, settled) depth 60)

-- Whatever the metadata of the context hold, a turn that gets budgets gets them within the fixed
-- limits: at most five effect steps, one to eight failures in a row, one to 32 provider decisions
-- and capability calls, and a transcript of 4096 to 131072 bytes that can hold a result.
pub resolve_agent_budgets-IsWithin :
    (metadata : Fields) (b : AgentBudgetSet) → resolve_agent_budgets metadata ≡ ok b → IsWithin b
resolve_agent_budgets-IsWithin metadata b = (resolved metadata).at b
