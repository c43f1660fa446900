-- ===== src/Capability/Validation/Tests.antt =====
-- The validator at a schema of an object with one property.
use ai_odoo_assistant.Prelude.{ℕ, String, false, Option, some, ◌≡◌, refl, ◌↔◌}
use ai_odoo_assistant.Prelude.Json.{
  Json, bool, int, str, arr, obj, pos, nil, cons, Fields, end, field, get, get_value,
}
use ai_odoo_assistant.Prelude.Result.{ok, err}
use ai_odoo_assistant.Capability.Validation.{
  validate_payload, validate_encoded, validate_node, validate_fields, validate_head,
  validate_number, matches_type, has_required,
}
use ai_odoo_assistant.Capability.Validation.Spec.{Conforms}
use ai_odoo_assistant.Capability.Validation.Contract.{
  Fits, RefusedAs, validate_payload-Conforms, validate_payload-refusals,
}
use ai_odoo_assistant.Capability.Validation.Types.{HasType, validate_payload-HasType}

-- {"type": "object", "properties": {"limit": {"type": "integer", "maximum": 80}},
--  "required": ["limit"], "additionalProperties": false}
abbrev schema : Fields
schema = field "type" (str "object") (
    field "properties"
      (obj (
        field "limit" (obj (field "type" (str "integer") (field "maximum" (int (pos 80)) end)))
          end))
      (field "required" (arr (cons (str "limit") nil))
        (field "additionalProperties" (bool false) end)))

abbrev payload_of : ℕ → Json
payload_of limit = obj (field "limit" (int (pos limit)) end)

abbrev code_given : String
code_given = "capability_arguments_invalid"

abbrev encoded : Json → Option ℕ
encoded value = some 12

accepted : validate_payload encoded (payload_of 20) schema 4096 code_given ≡ ok tt
unfolding validate_payload validate_encoded validate_node validate_fields validate_head
    validate_number matches_type has_required get get_value
accepted = refl

refused : validate_payload encoded (payload_of 81) schema 4096 code_given ≡ err code_given
unfolding validate_payload validate_encoded validate_node validate_fields validate_head
    validate_number matches_type has_required get get_value
refused = refl

validate_payload-Conforms_example :
    (validate_payload encoded (payload_of 20) schema 4096 code_given ≡ ok tt)
    ↔ (Fits (encoded (payload_of 20)) 4096 × Conforms 17 schema (payload_of 20))
validate_payload-Conforms_example =
    validate_payload-Conforms encoded (payload_of 20) schema 4096 code_given

validate_payload-refusals_example : RefusedAs code_given 4096 (encoded (payload_of 81)) code_given
validate_payload-refusals_example =
    validate_payload-refusals encoded (payload_of 81) schema 4096 code_given code_given refused

validate_payload-HasType_example : HasType "object" (payload_of 20)
unfolding get get_value
validate_payload-HasType_example =
    validate_payload-HasType encoded (payload_of 20) schema 4096 code_given "object" refl accepted
