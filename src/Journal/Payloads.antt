-- ===== src/Journal/Payloads.antt =====
-- The payloads of a journal row.
use ai_odoo_assistant.Prelude.{
  ℕ, leb, String, Bool, true, false, ◌&&◌, Option, none, some, List, [], ◌∷◌, ◌==◌, mem,
}
use ai_odoo_assistant.Prelude.Json.{
  Json, null, bool, str, arr, obj, Items, nil, cons, Fields, end, field, get, get_value, has_keys,
  field_count, json_eq,
}
use ai_odoo_assistant.Prelude.Result.{Result, ok, err, require, ◌>>=◌, ◌>>◌}
use ai_odoo_assistant.Capability.Validation.{item_count}
use ai_odoo_assistant.Plan.{Step, StepState, previewed, step_executing, step_completed, skipped}

abbrev pub preview_keys : List String
preview_keys =
    "operation" ∷ "model" ∷ "record_id" ∷ "display_name" ∷ "changes" ∷ "before_active"
    ∷ "after_active" ∷ "values" ∷ "state" ∷ "expected_states" ∷ "reconstruction" ∷ []

-- The entries of `d` under the keys that it has, in the order of the keys.
unfoldable pub select : List String → Fields → Fields
unfolding get
select [] d = end
select (key ∷ keys) d = elim (get key d) [
  | none ↦ select keys d
  | some v ↦ field key v (select keys d)
]

abbrev preview_of : Json → Result Fields
preview_of (obj fs) = ok fs
preview_of _ = err "effect_journal_plan_invalid"

unfoldable pub before_payload : Step → Result Fields
unfolding select
before_payload s = do
  preview ← preview_of s.preview
  ok (
      field "precondition_fingerprint" (str s.precondition_fingerprint) (
        field "binding_fingerprint" (str s.binding_fingerprint)
          (field "preview" (obj (select preview_keys preview)) end)))

-- step.get(key): None where the step has no such value.
abbrev pub or_null : Option Json → Json
or_null none = null
or_null (some v) = v

abbrev after_of : Json → Json → Result Fields
after_of null null = ok end
after_of (obj r) (obj v) = ok (field "result" (obj r) (field "verification" (obj v) end))
after_of _ _ = err "effect_journal_plan_invalid"

unfoldable pub after_payload : Step → Result Fields
after_payload s = after_of (or_null s.result) (or_null s.verification)

abbrev pub state_text : StepState → String
state_text previewed = "previewed"
state_text step_executing = "executing"
state_text step_completed = "completed"
state_text skipped = "skipped"

abbrev receipt_of : Step → Json → Json → Fields
receipt_of s (obj r) (obj v) = field "verified" (bool true) (
    field "step_state" (str (state_text s.state)) (
      field "outcome" (get_value "outcome" r) (
        field "capability" (str s.capability) (
          field "step_id" (str s.step_id) (
            field "record_model" (get_value "model" r)
              (field "record_id" (get_value "record_id" r) (field "verification" (obj v) end)))))))
receipt_of s _ _ = end

unfoldable pub receipt_payload : Step → Fields
unfolding get_value
receipt_payload s = receipt_of s (or_null s.result) (or_null s.verification)

abbrev invalid : Result (Unit {0})
invalid = err "effect_journal_plan_invalid"

-- value in {"partial", "blocked", "skipped"}: a list or a dict has no hash.
abbrev check_outcome : Json → Result (Unit {0})
check_outcome (str s) =
    require (mem s ("partial" ∷ "blocked" ∷ "skipped" ∷ [])) "effect_journal_plan_invalid"
check_outcome (arr xs) = err "TypeError"
check_outcome (obj fs) = err "TypeError"
check_outcome _ = invalid

abbrev is_text : Json → Bool
is_text (str s) = true
is_text _ = false

abbrev check_dependency : Json → Result (Unit {0})
check_dependency (obj d) = do
  require (field_count d == 2 && has_keys ("step_id" ∷ "outcome" ∷ []) d)
      "effect_journal_plan_invalid"
  require (is_text (get_value "step_id" d)) "effect_journal_plan_invalid"
  check_outcome (get_value "outcome" d)
check_dependency _ = invalid

unfoldable pub check_dependencies : Items → Result (Unit {0})
check_dependencies nil = ok tt
check_dependencies (cons x xs) = do check_dependency x; check_dependencies xs

abbrev pub is_false : Json → Bool
is_false (bool false) = true
is_false _ = false

abbrev dependencies_of : Json → Result Items
dependencies_of (arr xs) = ok xs
dependencies_of _ = err "effect_journal_plan_invalid"

abbrev check_skipped : Json → Json → Result (Unit {0})
check_skipped (obj r) verification = do
  require
      (field_count r == 4 && has_keys ("outcome" ∷ "reason" ∷ "executed" ∷ "dependencies" ∷ []) r)
      "effect_journal_plan_invalid"
  require
      (json_eq (get_value "outcome" r) (str "skipped")
        && json_eq (get_value "reason" r) (str "dependency_incomplete")
        && is_false (get_value "executed" r))
      "effect_journal_plan_invalid"
  items ← dependencies_of (get_value "dependencies" r)
  require (leb 1 (item_count items) && leb (item_count items) 5) "effect_journal_plan_invalid"
  check_dependencies items
  require (json_eq verification (obj (field "verified" (bool true) r)))
      "effect_journal_plan_invalid"
check_skipped _ verification = invalid

-- `_validate_skipped_step_payload`
unfoldable pub validate_skipped_step_payload : Step → Result (Unit {0})
validate_skipped_step_payload s = check_skipped (or_null s.result) (or_null s.verification)

abbrev check_length : Fields → Option ℕ → Result Fields
check_length value none = err "effect_journal_payload_invalid"
check_length value (some size) = do
  require (leb size 65536) "effect_journal_payload_too_large"
  ok value

-- `_bounded_payload`; `encoded_length` is the length in bytes of the JSON text of a value, none where
-- the encoding raises.
unfoldable pub bounded_payload : (Json → Option ℕ) → Fields → Result Fields
bounded_payload encoded_length value = check_length value (encoded_length (obj value))
