-- ===== src/Plan/Outcome.antt =====
-- Whether a finished step lets the steps that depend on it run, and the evidence of a step that was
-- skipped for it. An `outcome` that cannot be hashed, which the output schemas exclude, is taken for
-- one that is not of the set.
use ai_odoo_assistant.Prelude.{
  ℕ, suc, leb, String, Bool, true, false, not, ◌&&◌, ◌||◌, Option, none, some, List, [], ◌∷◌, any,
  mem, str_eq, if◌then◌else◌,
}
use ai_odoo_assistant.Prelude.Json.{
  Json, bool, str, arr, obj, Items, nil, cons, Fields, end, field, get, json_eq,
}
use ai_odoo_assistant.Prelude.Result.{Result, ok, err, require, ◌>>=◌, ◌>>◌}
use ai_odoo_assistant.Capability.{Definition}
use ai_odoo_assistant.Plan.{Step, is_completed_step, is_skipped_step, is_terminal_step, find_step}

-- _INCOMPLETE_DEPENDENCY_OUTCOMES
incomplete_outcome : Option Json → Option String
incomplete_outcome (some (str s)) =
    if str_eq s "partial" || str_eq s "blocked" then some s else none
incomplete_outcome _ = none

-- The incomplete outcome that a result reports.
unfoldable pub reported_outcome : Option Json → Option String
unfolding incomplete_outcome
reported_outcome (some (obj fs)) = incomplete_outcome (get "outcome" fs)
reported_outcome _ = none

-- `_step_outcome_contracts`: the steps whose capability continues on error. `_by_name` is the
-- registry.
abbrev continues_on_error : Definition → Bool
continues_on_error d = elim d.partial_failure_semantics [
  | none ↦ false
  | some s ↦ str_eq s "continue_on_error"
]

contract_of : (String → Result Definition) → Step → Result Bool
contract_of resolve s = do
  d ← resolve s.capability
  require (str_eq d.version s.version) "capability_plan_version_mismatch"
  ok (continues_on_error d)

abbrev pub Contracts : Type 0
Contracts = List (String × Bool)

unfoldable pub step_outcome_contracts : (String → Result Definition) → List Step → Result Contracts
unfolding contract_of
step_outcome_contracts resolve [] = ok []
step_outcome_contracts resolve (s ∷ rest) = do
  c ← contract_of resolve s
  cs ← step_outcome_contracts resolve rest
  ok ((s.step_id, c) ∷ cs)

-- outcome_contracts.get(step_id) is True
unfoldable pub has_contract : String → Contracts → Bool
has_contract id [] = false
has_contract id ((i, c) ∷ cs) = if str_eq i id then c else has_contract id cs

abbrev is_none {ℓ} : {A : Type ℓ} → Option A → Bool
is_none none = true
is_none (some _) = false

-- `_step_satisfies_dependencies`
unfoldable pub step_satisfies_dependencies : Contracts → Step → Bool
step_satisfies_dependencies contracts s =
    is_completed_step s.state
    && (not (has_contract s.step_id contracts) || is_none (reported_outcome s.result))

-- `_unsatisfied_dependency_outcome`
unfoldable pub unsatisfied_dependency_outcome : Contracts → Option Step → Option String
unsatisfied_dependency_outcome contracts none = none
unsatisfied_dependency_outcome contracts (some s) =
    if is_skipped_step s.state
    then some "skipped"
    else if is_completed_step s.state && has_contract s.step_id contracts
    then reported_outcome s.result
    else none

-- {"step_id": …, "outcome": …}
abbrev dependency_item : String → String → Json
dependency_item id outcome = obj (field "step_id" (str id) (field "outcome" (str outcome) end))

abbrev add_item : String → Option String → Items → Items
add_item id none items = items
add_item id (some outcome) items = cons (dependency_item id outcome) items

dependency_items : Contracts → List Step → List String → Items
dependency_items contracts steps [] = nil
dependency_items contracts steps (d ∷ ds) =
    add_item d (unsatisfied_dependency_outcome contracts (find_step d steps))
      (dependency_items contracts steps ds)

-- `result` and `verification` of a skipped step.
pub record SkipEvidence : Type 0 where
  pub result : Json
  pub verification : Json

abbrev skip_fields : Items → Fields
skip_fields items = field "outcome" (str "skipped") (
    field "reason" (str "dependency_incomplete")
      (field "executed" (bool false) (field "dependencies" (arr items) end)))

evidence_of : Items → Result SkipEvidence
evidence_of nil = err "capability_plan_dependency_unsatisfied"
evidence_of (cons item items) = ok (record {
  result = obj (skip_fields (cons item items));
  verification = obj (field "verified" (bool true) (skip_fields (cons item items)));
})

-- `_dependency_skip_evidence`
unfoldable pub dependency_skip_evidence : Contracts → Step → List Step → Result SkipEvidence
unfolding evidence_of dependency_items
dependency_skip_evidence contracts s steps =
    evidence_of (dependency_items contracts steps s.depends_on)

abbrev same_json : Option Json → Json → Bool
same_json none expected = false
same_json (some v) expected = json_eq v expected

check_skipped : Contracts → List Step → Step → Result (Unit {0})
check_skipped contracts steps s =
    if is_skipped_step s.state
    then (do
      e ← dependency_skip_evidence contracts s steps
      require (same_json s.result e.result && same_json s.verification e.verification)
          "capability_plan_invalid")
    else ok tt

check_all_skipped : Contracts → List Step → List Step → Result (Unit {0})
check_all_skipped contracts steps [] = ok tt
check_all_skipped contracts steps (s ∷ rest) = do
  check_skipped contracts steps s
  check_all_skipped contracts steps rest

-- `_validate_skipped_dependency_evidence`
unfoldable pub validate_skipped_dependency_evidence : Contracts → List Step → Result (Unit {0})
unfolding check_all_skipped check_skipped
validate_skipped_dependency_evidence contracts steps = check_all_skipped contracts steps steps

-- The loop of `_potentially_executable_steps` over the steps left, with the blocked ids so far.
unfoldable pub executable_from : Contracts → List String → List Step → List Step
executable_from contracts blocked [] = []
executable_from contracts blocked (s ∷ rest) =
    let blocked_too = executable_from contracts (s.step_id ∷ blocked) rest in
    let blocked_same = executable_from contracts blocked rest in
    if is_terminal_step s.state
    then (if step_satisfies_dependencies contracts s then blocked_same else blocked_too)
    else if any (λ d. mem d blocked) s.depends_on
    then blocked_too
    else s ∷ blocked_same

count_capability : String → List Step → ℕ
count_capability name [] = 0
count_capability name (s ∷ rest) =
    if str_eq s.capability name
    then suc (count_capability name rest)
    else count_capability name rest

check_budget : (String → Result Definition) → List Step → List Step → Result (Unit {0})
check_budget resolve pending [] = ok tt
check_budget resolve pending (s ∷ rest) = do
  d ← resolve s.capability
  require (leb (count_capability s.capability pending) d.max_calls) "capability_call_limit_exceeded"
  check_budget resolve pending rest

-- `_validate_execution_call_budget`: each capability of the steps that may still run, against the
-- calls that its definition allows.
unfoldable pub validate_execution_call_budget :
    (String → Result Definition) → Contracts → List Step → Result (Unit {0})
unfolding check_budget count_capability
validate_execution_call_budget resolve contracts steps =
    let pending = executable_from contracts [] steps in check_budget resolve pending pending
