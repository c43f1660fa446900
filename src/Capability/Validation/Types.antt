-- ===== src/Capability/Validation/Types.antt =====
-- The types that a schema names, as the shapes of JSON values.
use ai_odoo_assistant.Prelude.{
  ℕ, String, Bool, true, ◌||◌, Option, List, [], ◌∷◌, ◌≡◌, Bool-cases, str_eq, eq_iff, inl, inr,
  All,
}
use ai_odoo_assistant.Prelude.Json.{
  Json, null, bool, int, float, str, arr, obj, ℤ, Items, Fields, get_value,
}
use ai_odoo_assistant.Prelude.Result.{ok}
use ai_odoo_assistant.Capability.Validation.{
  matches_type, get_test, type_table, validate_payload, is_null, is_bool, is_int, is_float, is_str,
  is_arr, is_obj,
}
use ai_odoo_assistant.Capability.Validation.Spec.{Conforms, node}
use ai_odoo_assistant.Capability.Validation.Contract.{validate_payload-Conforms}

pub data HasType : String → Json → Type 0 where
  nothing : HasType "null" null
  boolean : {b : Bool} → HasType "boolean" (bool b)
  integer : {z : ℤ} → HasType "integer" (int z)
  whole : {z : ℤ} → HasType "number" (int z)
  fraction : {z : ℤ} {k : ℕ} → HasType "number" (float z k)
  string : {s : String} → HasType "string" (str s)
  array : {xs : Items} → HasType "array" (arr xs)
  object : {fs : Fields} → HasType "object" (obj fs)

-- A test found in a table is one of the table's.
get_test-All :
    (P : String → Type 0) (table : List (String × Bool)) (key : String)
    → All (λ entry. entry.1 ≡ true → P entry.0) table
    → get_test key table ≡ true
    → P key
unfolding get_test
get_test-All P [] key all h = cc h
get_test-All P ((name, test) ∷ rest) key all h = elim (Bool-cases (str_eq name key)) [
  | inl same ↦ rw (← (eq_iff name key).0 same) (all.0 (rw same at h))
  | inr other ↦ get_test-All P rest key all.1 (rw other at h)
]

is_null-HasType : (v : Json) → is_null v ≡ true → HasType "null" v
is_null-HasType null h = nothing
is_null-HasType v h = cc h

is_bool-HasType : (v : Json) → is_bool v ≡ true → HasType "boolean" v
is_bool-HasType (bool b) h = boolean
is_bool-HasType v h = cc h

is_int-HasType : (v : Json) → is_int v ≡ true → HasType "integer" v
is_int-HasType (int z) h = integer
is_int-HasType v h = cc h

is_number-HasType : (v : Json) → (is_int v || is_float v) ≡ true → HasType "number" v
is_number-HasType (int z) h = whole
is_number-HasType (float z k) h = fraction
is_number-HasType v h = cc h

is_str-HasType : (v : Json) → is_str v ≡ true → HasType "string" v
is_str-HasType (str s) h = string
is_str-HasType v h = cc h

is_arr-HasType : (v : Json) → is_arr v ≡ true → HasType "array" v
is_arr-HasType (arr xs) h = array
is_arr-HasType v h = cc h

is_obj-HasType : (v : Json) → is_obj v ≡ true → HasType "object" v
is_obj-HasType (obj fs) h = object
is_obj-HasType v h = cc h

table-HasType : (v : Json) → All (λ entry. entry.1 ≡ true → HasType entry.0 v) (type_table v)
table-HasType v = (
  is_null-HasType v,
  (
    is_bool-HasType v,
    (
      is_int-HasType v,
      (is_number-HasType v, (is_str-HasType v, (is_arr-HasType v, (is_obj-HasType v, tt)))),
    ),
  ),
)

matches_type-HasType :
    (value : Json) (name : String) → matches_type value name ≡ true → HasType name value
unfolding matches_type
matches_type-HasType value name h =
    get_test-All (λ n. HasType n value) (type_table value) name (table-HasType value) h

-- An accepted payload has the type that its schema names.
pub validate_payload-HasType :
    (encoded_length : Json → Option ℕ) (value : Json) (schema : Fields) (max_bytes : ℕ)
    (code name : String)
    → get_value "type" schema ≡ str name
    → validate_payload encoded_length value schema max_bytes code ≡ ok tt
    → HasType name value
validate_payload-HasType encoded_length value schema max_bytes code name e h =
    typed ((validate_payload-Conforms encoded_length value schema max_bytes code).0 h).1
  where
    typed : {room : ℕ} → Conforms room schema value → HasType name value
    typed (node allows below) = matches_type-HasType value name (allows.types name e)
