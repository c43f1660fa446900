-- ===== src/Agent/TaskPlan.antt =====
-- The visible plan of a turn: addons/odoo_ai_assistant/runtime/agent/task_plan.py.
use ai_odoo_assistant.Prelude.{
  ℕ, suc, leb, Bool, true, false, not, ◌&&◌, ◌||◌, String, List, [], ◌∷◌, mem, if◌then◌else◌,
  length, ◌==◌, str_eq,
}
use ai_odoo_assistant.Prelude.PyText.{codes, strip, has_nul, squeeze}
use ai_odoo_assistant.Prelude.Json.{
  Json, int, str, arr, obj, ℤ, pos, negsuc, Items, nil, cons, Fields, end, field, field_count,
  get_value, has_keys,
}
use ai_odoo_assistant.Prelude.Result.{Result, ok, err, require, ◌>>=◌, ◌>>◌}

pub record TaskPlanStep : Type 0 where
  pub step_id : String
  pub title : String
  pub state : String
  pub depends_on : List String

pub record TaskPlan : Type 0 where
  pub goal : String
  pub revision : ℤ
  pub steps : List TaskPlanStep
  pub revision_kind : String
  pub revision_summary : String

abbrev pub allowed_states : List String
allowed_states = "pending" ∷ "in_progress" ∷ "completed" ∷ "blocked" ∷ "skipped" ∷ []

abbrev pub allowed_revision_kinds : List String
allowed_revision_kinds = "initial" ∷ "progress" ∷ "replan" ∷ []

abbrev is_one : ℤ → Bool
is_one (pos n) = n == 1
is_one (negsuc n) = false

unfoldable pub effective_revision_kind : TaskPlan → String
effective_revision_kind plan =
    if not (str_eq plan.revision_kind "")
    then plan.revision_kind
    else if is_one plan.revision
    then "initial"
    else "progress"

abbrev strings : List String → Items
strings [] = nil
strings (s ∷ ss) = cons (str s) (strings ss)

unfoldable pub step_payload : TaskPlanStep → Json
step_payload step = obj (
    field "step_id" (str step.step_id) (
      field "title" (str step.title)
        (field "state" (str step.state) (field "depends_on" (arr (strings step.depends_on)) end))))

abbrev step_payloads : List TaskPlanStep → Items
step_payloads [] = nil
step_payloads (step ∷ steps) = cons (step_payload step) (step_payloads steps)

-- `TaskPlan.payload`
unfoldable pub plan_payload : TaskPlan → Fields
plan_payload plan = field "goal" (str plan.goal) (
    field "revision" (int plan.revision) (
      field "revision_kind" (str (effective_revision_kind plan)) (
        field "revision_summary" (str plan.revision_summary)
          (field "steps" (arr (step_payloads plan.steps)) end))))

abbrev invalid {ℓ} : {A : Type ℓ} → Result A
invalid = err "agent_task_plan_invalid"

abbrev check : Bool → Result (Unit {0})
check test = require test "agent_task_plan_invalid"

abbrev string_of : Json → Result String
string_of (str s) = ok s
string_of _ = invalid

abbrev list_of : Json → Result Items
list_of (arr xs) = ok xs
list_of _ = invalid

-- type(revision) is int and revision >= 1
abbrev revision_of : Json → Result ℕ
revision_of (int (pos n)) = if leb 1 n then ok n else invalid
revision_of _ = invalid

-- A value in a frozenset of texts; a list or a dict has no hash.
unfoldable pub one_of : List String → Json → Result String
one_of allowed (str s) = if mem s allowed then ok s else invalid
one_of allowed (arr xs) = err "TypeError"
one_of allowed (obj fs) = err "TypeError"
one_of allowed _ = invalid

-- 1 <= len(s.strip()) <= most and "\x00" not in s
unfoldable pub is_line : ℕ → String → Bool
is_line most s =
    let bare = length (strip (codes s)) in leb 1 bare && leb bare most && not (has_nul (codes s))

-- The texts of `depends_on`, each of a known step.
unfoldable pub known_ids : List String → Items → Result (List String)
known_ids known nil = ok []
known_ids known (cons (str s) xs) = do check (mem s known); ids ← known_ids known xs; ok (s ∷ ids)
known_ids known (cons _ xs) = invalid

-- len(set(ids)) == len(ids)
unfoldable pub all_different : List String → Bool
all_different [] = true
all_different (s ∷ ss) = not (mem s ss) && all_different ss

abbrev fields_of : Json → Result Fields
fields_of (obj fs) = ok fs
fields_of _ = invalid

unfoldable pub parse_step : List String → Json → Result TaskPlanStep
parse_step known value = do
  raw ← fields_of value
  check (field_count raw == 4 && has_keys ("step_id" ∷ "title" ∷ "state" ∷ "depends_on" ∷ []) raw)
  step_id ← string_of (get_value "step_id" raw)
  check (
      leb 1 (length (codes step_id)) && leb (length (codes step_id)) 128 && not (mem step_id known))
  title ← string_of (get_value "title" raw)
  check (is_line 512 title)
  state ← one_of allowed_states (get_value "state" raw)
  xs ← list_of (get_value "depends_on" raw)
  depends_on ← known_ids known xs
  check (all_different depends_on)
  ok (record { step_id = step_id; title = squeeze title; state = state; depends_on = depends_on })

-- The loop over the steps; `known` are the ids of those before.
unfoldable pub parse_steps : List String → Items → Result (List TaskPlanStep)
parse_steps known nil = ok []
parse_steps known (cons raw raws) = do
  step ← parse_step known raw
  steps ← parse_steps (step.step_id ∷ known) raws
  ok (step ∷ steps)

unfoldable pub item_count : Items → ℕ
item_count nil = 0
item_count (cons x xs) = suc (item_count xs)

unfoldable pub has_current_keys : Fields → Bool
has_current_keys raw =
    field_count raw == 5
    && has_keys ("goal" ∷ "revision" ∷ "steps" ∷ "revision_kind" ∷ "revision_summary" ∷ []) raw

unfoldable pub has_legacy_keys : Fields → Bool
has_legacy_keys raw = field_count raw == 3 && has_keys ("goal" ∷ "revision" ∷ "steps" ∷ []) raw

unfoldable pub parse_plan_fields : Bool → Fields → Result TaskPlan
parse_plan_fields legacy raw = do
  goal ← string_of (get_value "goal" raw)
  check (is_line 1000 goal)
  revision ← revision_of (get_value "revision" raw)
  revision_kind ← one_of allowed_revision_kinds (
      if legacy
      then (if revision == 1 then str "initial" else str "progress")
      else get_value "revision_kind" raw)
  revision_summary ← string_of (if legacy then str "" else get_value "revision_summary" raw)
  check
      (leb (length (strip (codes revision_summary))) 512 && not (has_nul (codes revision_summary)))
  raw_steps ← list_of (get_value "steps" raw)
  check (leb 1 (item_count raw_steps) && leb (item_count raw_steps) 12)
  require (not (revision == 1) || str_eq revision_kind "initial") "agent_task_plan_revision_invalid"
  require (revision == 1 || not (str_eq revision_kind "initial")) "agent_task_plan_revision_invalid"
  require (not (str_eq revision_kind "replan") || leb 1 (length (strip (codes revision_summary))))
      "agent_task_plan_replan_summary_required"
  steps ← parse_steps [] raw_steps
  ok (record {
    goal = squeeze goal;
    revision = pos revision;
    steps = steps;
    revision_kind = revision_kind;
    revision_summary = squeeze revision_summary;
  })

unfoldable pub parse_task_plan : Json → Result TaskPlan
parse_task_plan (obj raw) =
    if has_legacy_keys raw
    then parse_plan_fields true raw
    else if has_current_keys raw
    then parse_plan_fields false raw
    else invalid
parse_task_plan _ = invalid
