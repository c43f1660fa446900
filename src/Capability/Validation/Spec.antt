-- ===== src/Capability/Validation/Spec.antt =====
-- What a schema asks of a payload, apart from the order of the validator's tests.
use ai_odoo_assistant.Prelude.{ℕ, suc, String, Bool, true, false, none, some, length, ◌≡◌, ◌≢◌}
use ai_odoo_assistant.Prelude.PyText.{codes}
use ai_odoo_assistant.Prelude.Json.{
  Json, null, bool, int, float, str, arr, obj, ℤ, pos, Items, cons, Fields, end, field, get,
  get_value, json_eq, number, lt_int, lt_number,
}
use ai_odoo_assistant.Capability.Validation.{matches_type, int_of, item_count}

-- An item of a list, and an entry of a dict.
pub data HasItem (item : Json) : Items → Type 0 where
  here : {items : Items} → HasItem item (cons item items)
  there : {x : Json} {items : Items} → HasItem item items → HasItem item (cons x items)

pub data HasField (key : String) (item : Json) : Fields → Type 0 where
  first : {fs : Fields} → HasField key item (field key item fs)
  later :
      {k : String} {v : Json} {fs : Fields}
      → HasField key item fs
      → HasField key item (field k v fs)

-- The dict that `schema` gives its properties by, the empty one by default.
pub data Properties (schema : Fields) : Fields → Type 0 where
  absent : get "properties" schema ≡ none → Properties schema end
  given : {ps : Fields} → get "properties" schema ≡ some (obj ps) → Properties schema ps

-- `child` is an entry of `value` that `schema` puts under the schema `sub`.
pub data Child (schema : Fields) : Json → Json → Fields → Type 0 where
  declared :
      {fs ps sub : Fields} {key : String} {child : Json}
      → HasField key child fs
      → Properties schema ps
      → get_value key ps ≡ obj sub
      → Child schema (obj fs) child sub
  additional :
      {fs ps sub : Fields} {key : String} {child : Json}
      → HasField key child fs
      → Properties schema ps
      → get_value key ps ≡ null
      → get "additionalProperties" schema ≡ some (obj sub)
      → Child schema (obj fs) child sub
  listed :
      {items : Items} {sub : Fields} {child : Json}
      → HasItem child items
      → get_value "items" schema ≡ obj sub
      → Child schema (arr items) child sub

-- An entry that `schema` lets stand in a dict: a key whose property is a dict, or, unless additional
-- properties are refused, a key that no property names.
pub data IsAdmitted (schema ps : Fields) (key : String) : Type 0 where
  by_property : {sub : Fields} → get_value key ps ≡ obj sub → IsAdmitted schema ps key
  by_default :
      get_value key ps ≡ null
      → get "additionalProperties" schema ≢ some (bool false)
      → IsAdmitted schema ps key

pub data IsPresent (fs : Fields) : Json → Type 0 where
  present : {key : String} {v : Json} → get key fs ≡ some v → IsPresent fs (str key)

-- The keys that a dict must have.
pub data HasRequired (schema fs : Fields) : Type 0 where
  no_list : get "required" schema ≡ none → HasRequired schema fs
  every :
      {keys : Items}
      → get "required" schema ≡ some (arr keys)
      → ((key : Json) → HasItem key keys → IsPresent fs key)
      → HasRequired schema fs

pub record AllowsSize (minimum maximum : Json) (size : ℕ) : Type 0 where
  pub least : (bound : ℤ) → int_of minimum ≡ some bound → lt_int (pos size) bound ≡ false
  pub most : (bound : ℤ) → int_of maximum ≡ some bound → lt_int bound (pos size) ≡ false

pub record AllowsNumber (minimum maximum : Json) (n : ℤ × ℕ) : Type 0 where
  pub least : (bound : ℤ × ℕ) → number minimum ≡ some bound → lt_number n bound ≡ false
  pub most : (bound : ℤ × ℕ) → number maximum ≡ some bound → lt_number bound n ≡ false

-- What a schema asks of the value itself.
pub data AllowsShape (schema : Fields) : Json → Type 0 where
  of_null : AllowsShape schema null
  of_bool : {b : Bool} → AllowsShape schema (bool b)
  of_int :
      {z : ℤ}
      → AllowsNumber (get_value "minimum" schema) (get_value "maximum" schema) (z, 0)
      → AllowsShape schema (int z)
  of_float :
      {z : ℤ} {k : ℕ}
      → AllowsNumber (get_value "minimum" schema) (get_value "maximum" schema) (z, k)
      → AllowsShape schema (float z k)
  of_str :
      {s : String}
      → AllowsSize (get_value "minLength" schema) (get_value "maxLength" schema) (length (codes s))
      → AllowsShape schema (str s)
  of_arr :
      {xs : Items}
      → AllowsSize (get_value "minItems" schema) (get_value "maxItems" schema) (item_count xs)
      → AllowsShape schema (arr xs)
  of_obj :
      {fs ps : Fields}
      → Properties schema ps
      → HasRequired schema fs
      → ((key : String) (child : Json) → HasField key child fs → IsAdmitted schema ps key)
      → AllowsShape schema (obj fs)

pub record Allows (schema : Fields) (value : Json) : Type 0 where
  pub types : (name : String) → get_value "type" schema ≡ str name → matches_type value name ≡ true
  pub values :
      (choices : Items)
      → get_value "enum" schema ≡ arr choices
      → (choice : Json) × HasItem choice choices × (json_eq choice value ≡ true)
  pub shape : AllowsShape schema value

-- `value` conforms to `schema` within `room` levels of nesting: the schema allows it, and each of
-- its children conforms to the schema it is put under, one level further down.
pub data Conforms : ℕ → Fields → Json → Type 0 where
  node :
      {room : ℕ} {schema : Fields} {value : Json}
      → Allows schema value
      → ((child : Json) (sub : Fields) → Child schema value child sub → Conforms room sub child)
      → Conforms (suc room) schema value
