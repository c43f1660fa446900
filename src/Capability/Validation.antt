-- ===== src/Capability/Validation.antt =====
-- The validator of capability payloads:
-- addons/odoo_ai_assistant/runtime/capabilities/validation.py.
pub mod Spec
pub mod Parts
mod Sound
mod Complete
mod Contract
mod Types
mod Tests
use ai_odoo_assistant.Prelude.{
  ℕ, suc, ltb, leb, String, Bool, true, false, not, ◌&&◌, ◌||◌, Option, none, some, length,
  if◌then◌else◌, str_eq, List, [], ◌∷◌,
}
use ai_odoo_assistant.Prelude.PyText.{codes}
use ai_odoo_assistant.Prelude.Json.{
  Json, null, bool, int, float, str, arr, obj, ℤ, pos, Items, nil, cons, Fields, end, field, get,
  get_value, json_eq, number, lt_int, lt_number,
}
use ai_odoo_assistant.Prelude.Result.{Result, ok, err, require, ◌>>=◌, ◌>>◌}
use Prim.Native.String.{◌++◌ as append}

abbrev pub is_bool : Json → Bool
is_bool (bool b) = true
is_bool _ = false

-- type(value) is int: a bool is of another type.
abbrev pub is_int : Json → Bool
is_int (int z) = true
is_int _ = false

abbrev pub is_float : Json → Bool
is_float (float z k) = true
is_float _ = false

abbrev pub is_str : Json → Bool
is_str (str s) = true
is_str _ = false

abbrev pub is_arr : Json → Bool
is_arr (arr xs) = true
is_arr _ = false

abbrev pub is_obj : Json → Bool
is_obj (obj fs) = true
is_obj _ = false

abbrev pub is_null : Json → Bool
is_null null = true
is_null _ = false

-- table.get(key, False)
unfoldable pub get_test : String → List (String × Bool) → Bool
get_test key [] = false
get_test key ((name, test) ∷ rest) = if str_eq name key then test else get_test key rest

abbrev pub type_table : Json → List (String × Bool)
type_table value =
    ("null", is_null value)
    ∷ ("boolean", is_bool value)
    ∷ ("integer", is_int value)
    ∷ ("number", is_int value || is_float value)
    ∷ ("string", is_str value)
    ∷ ("array", is_arr value)
    ∷ ("object", is_obj value)
    ∷ []

unfoldable pub matches_type : Json → String → Bool
unfolding get_test
matches_type value expected = get_test expected (type_table value)

-- value in items
unfoldable pub contains : Json → Items → Bool
contains value nil = false
contains value (cons x xs) = json_eq x value || contains value xs

-- not (isinstance(expected, str) and not _matches_type(value, expected))
abbrev pub type_allows : Json → Json → Bool
type_allows (str expected) value = matches_type value expected
type_allows _ value = true

-- not (isinstance(enum, list) and value not in enum)
abbrev pub enum_allows : Json → Json → Bool
enum_allows (arr items) value = contains value items
enum_allows _ value = true

abbrev pub is_key : Json → Fields → Bool
is_key (str key) fs = elim (get key fs) [ none ↦ false | some v ↦ true ]
is_key _ fs = false

-- not any(not isinstance(item, str) or item not in value for item in required)
unfoldable pub has_required : Items → Fields → Bool
has_required nil fs = true
has_required (cons item items) fs = is_key item fs && has_required items fs

-- schema.get("properties", {}), a dict
abbrev pub properties_of : String → Option Json → Result Fields
properties_of code none = ok end
properties_of code (some (obj fs)) = ok fs
properties_of code (some v) = err code

-- schema.get("required", []), a list
abbrev pub required_of : String → Option Json → Result Items
required_of code none = ok nil
required_of code (some (arr xs)) = ok xs
required_of code (some v) = err code

-- schema.get("additionalProperties", True)
abbrev pub additional_of : Option Json → Json
additional_of none = bool true
additional_of (some v) = v

-- The schema for a key that no property names, none where any value may stand.
abbrev pub additional_schema : String → Json → Result (Option Fields)
additional_schema code (bool false) = err code
additional_schema code (obj schema) = ok (some schema)
additional_schema code v = ok none

-- The schema for a key: `property` is properties.get(key).
abbrev pub property_schema : String → Json → Json → Result (Option Fields)
property_schema code null additional = additional_schema code additional
property_schema code (obj schema) additional = ok (some schema)
property_schema code v additional = err code

-- `bound` where it is an int, of which the bools are.
abbrev pub int_of : Json → Option ℤ
int_of (int z) = some z
int_of (bool true) = some (pos 1)
int_of (bool false) = some (pos 0)
int_of _ = none

abbrev pub size_under : Option ℤ → ℕ → Bool
size_under none size = false
size_under (some bound) size = lt_int (pos size) bound

abbrev pub size_over : Option ℤ → ℕ → Bool
size_over none size = false
size_over (some bound) size = lt_int bound (pos size)

unfoldable pub validate_size : String → Json → Json → ℕ → Result (Unit {0})
validate_size code minimum maximum size = do
  require (not (size_under (int_of minimum) size)) code
  require (not (size_over (int_of maximum) size)) code

abbrev pub number_under : Option (ℤ × ℕ) → ℤ × ℕ → Bool
number_under none n = false
number_under (some bound) n = lt_number n bound

abbrev pub number_over : Option (ℤ × ℕ) → ℤ × ℕ → Bool
number_over none n = false
number_over (some bound) n = lt_number bound n

unfoldable pub validate_number : String → Json → Json → ℤ × ℕ → Result (Unit {0})
validate_number code minimum maximum n = do
  require (not (number_under (number minimum) n)) code
  require (not (number_over (number maximum) n)) code

-- len(value) of a list
unfoldable pub item_count : Items → ℕ
item_count nil = 0
item_count (cons x xs) = suc (item_count xs)

-- The schema for the items of a list, where it is a dict.
abbrev pub item_schema : Json → Option Fields
item_schema (obj schema) = some schema
item_schema _ = none

-- The tests of a node before the branches on the kind of its value.
unfoldable pub validate_head : String → Fields → ℕ → Json → Result (Unit {0})
validate_head code schema depth value = do
  require (leb depth 16) code
  require (type_allows (get_value "type" schema) value) code
  require (enum_allows (get_value "enum" schema) value) code

-- `_validate_node`
unfoldable mutual
  pub validate_node : String → Fields → ℕ → Json → Result (Unit {0})
  validate_node code schema depth (obj fs) = do
    validate_head code schema depth (obj fs)
    properties ← properties_of code (get "properties" schema)
    required ← required_of code (get "required" schema)
    require (has_required required fs) code
    validate_fields code properties (additional_of (get "additionalProperties" schema)) depth fs
  validate_node code schema depth (arr xs) = do
    validate_head code schema depth (arr xs)
    validate_size code (get_value "minItems" schema) (get_value "maxItems" schema) (item_count xs)
    validate_items code (item_schema (get_value "items" schema)) depth xs
  validate_node code schema depth (str s) = do
    validate_head code schema depth (str s)
    validate_size code (get_value "minLength" schema) (get_value "maxLength" schema)
        (length (codes s))
  validate_node code schema depth (int z) = do
    validate_head code schema depth (int z)
    validate_number code (get_value "minimum" schema) (get_value "maximum" schema) (z, 0)
  validate_node code schema depth (float z k) = do
    validate_head code schema depth (float z k)
    validate_number code (get_value "minimum" schema) (get_value "maximum" schema) (z, k)
  validate_node code schema depth (bool b) = validate_head code schema depth (bool b)
  validate_node code schema depth null = validate_head code schema depth null

  pub validate_fields : String → Fields → Json → ℕ → Fields → Result (Unit {0})
  validate_fields code properties additional depth end = ok tt
  validate_fields code properties additional depth (field key item fs) = do
    schema ← property_schema code (get_value key properties) additional
    let checked : Result (Unit {0}) = elim schema [
      | none ↦ ok tt
      | some s ↦ validate_node code s (suc depth) item
    ]
    checked
    validate_fields code properties additional depth fs

  pub validate_items : String → Option Fields → ℕ → Items → Result (Unit {0})
  validate_items code schema depth nil = ok tt
  validate_items code schema depth (cons item items) = do
    let checked : Result (Unit {0}) = elim schema [
      | none ↦ ok tt
      | some s ↦ validate_node code s (suc depth) item
    ]
    checked
    validate_items code schema depth items

-- `validate_payload` after the encoding, which gave its length in bytes or raised.
unfoldable pub validate_encoded : Option ℕ → Json → Fields → ℕ → String → Result (Unit {0})
validate_encoded none value schema max_bytes code = err code
validate_encoded (some size) value schema max_bytes code = do
  require (leb size max_bytes) (append code "_too_large")
  validate_node code schema 0 value

-- `encoded_length` is the length in bytes of the value's JSON text, none where the encoding raises.
unfoldable pub validate_payload : (Json → Option ℕ) → Json → Fields → ℕ → String → Result (Unit {0})
validate_payload encoded_length value schema max_bytes code =
    validate_encoded (encoded_length value) value schema max_bytes code
