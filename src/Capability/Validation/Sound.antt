-- ===== src/Capability/Validation/Sound.antt =====
-- What the validator accepts conforms to the schema.
use ai_odoo_assistant.Prelude.{
  ℕ, zero, suc, leb, ◌+◌, ◌≤◌, String, true, false, Option, none, some, ◌≡◌, refl, sym, ◌∙◌, arith,
  leb→le,
}
use ai_odoo_assistant.Prelude.Json.{
  Json, null, bool, int, float, str, arr, obj, Items, nil, cons, Fields, end, field, get, get_value,
}
use ai_odoo_assistant.Prelude.Result.{ok, bind-ok, require-ok, then-ok}
use ai_odoo_assistant.Capability.Validation.{
  properties_of, required_of, property_schema, additional_of, validate_head, validate_node,
  validate_fields, validate_items, validate_size, item_count, has_required, type_allows,
  enum_allows, matches_type,
}
use ai_odoo_assistant.Capability.Validation.Spec.{
  HasItem, here, there, HasField, first, later, Properties, absent, given, Child, declared,
  additional, listed, IsAdmitted, by_property, by_default, HasRequired, no_list, every, AllowsShape,
  of_null, of_bool, of_int, of_float, of_str, of_arr, of_obj, Conforms, node,
}
use ai_odoo_assistant.Capability.Validation.Parts.{
  Choice, contains-Choice, has_required-IsPresent, validate_size-AllowsSize,
  validate_number-AllowsNumber, Placed, fields_ok-Entered,
}

record Head (schema : Fields) (depth : ℕ) (value : Json) : Type 0 where
  pub shallow : depth ≤ 16
  pub types : (name : String) → get_value "type" schema ≡ str name → matches_type value name ≡ true
  pub values : (choices : Items) → get_value "enum" schema ≡ arr choices → Choice value choices

module _ (code : String) (schema : Fields) where
  validate_head-Head :
      (depth : ℕ) (value : Json)
      → validate_head code schema depth value ≡ ok tt
      → Head schema depth value
  unfolding validate_head
  validate_head-Head depth value h =
      let deep = require-ok (leb depth 16) code _ tt h in
      let typed = require-ok (type_allows (get_value "type" schema) value) code _ tt deep.1 in
      let chosen : enum_allows (get_value "enum" schema) value ≡ true = ground (arith, typed.1) in
      record {
        shallow = leb→le depth 16 deep.0;
        types = λ name e. rw e at typed.0;
        values = λ choices e. contains-Choice value choices (rw e at chosen);
      }

  properties_of-Properties :
      (ps : Fields) (o : Option Json)
      → get "properties" schema ≡ o
      → properties_of code o ≡ ok ps
      → Properties schema ps
  properties_of-Properties ps none e h = let q : end ≡ ps = cc h in rw (← q) (absent e)
  properties_of-Properties ps (some (obj fs)) e h = let q : fs ≡ ps = cc h in rw (← q) (given e)
  properties_of-Properties ps (some v) e h = cc h

  required-HasRequired :
      (fs : Fields) (keys : Items) (o : Option Json)
      → get "required" schema ≡ o
      → required_of code o ≡ ok keys
      → has_required keys fs ≡ true
      → HasRequired schema fs
  required-HasRequired fs keys none e h k = no_list e
  required-HasRequired fs keys (some (arr xs)) e h k =
      let q : xs ≡ keys = cc h in every e (has_required-IsPresent fs xs (rw q k))
  required-HasRequired fs keys (some v) e h k = cc h

  -- The entry's schema, by the property that names its key or by the default.
  chosen-IsAdmitted :
      (ps : Fields) (key : String) (sub : Option Fields) (v : Json) (a : Option Json)
      → get_value key ps ≡ v
      → get "additionalProperties" schema ≡ a
      → property_schema code v (additional_of a) ≡ ok sub
      → IsAdmitted schema ps key
  chosen-IsAdmitted ps key sub (obj s) a e f h = by_property e
  chosen-IsAdmitted ps key sub null (some (bool false)) e f h = cc h
  chosen-IsAdmitted ps key sub null a e f h = by_default e (λ k. cc (sym f ∙ k))
  chosen-IsAdmitted ps key sub v a e f h = cc h

Properties-unique : (schema ps qs : Fields) → Properties schema ps → Properties schema qs → ps ≡ qs
Properties-unique schema _ _ (absent e) (absent f) = refl
Properties-unique schema _ _ (absent e) (given f) = cc (sym e ∙ f)
Properties-unique schema _ _ (given e) (absent f) = cc (sym e ∙ f)
Properties-unique schema _ _ (given e) (given f) = cc (sym e ∙ f)

-- A conforming node, from its tests and its children.
conforming :
    (depth room : ℕ) (schema : Fields) (value : Json)
    → depth + room ≡ 17
    → Head schema depth value
    → AllowsShape schema value
    → ((r : ℕ)
        → suc depth + r ≡ 17
        → (child : Json) (sub : Fields) → Child schema value child sub
        → Conforms r sub child)
    → Conforms room schema value
conforming depth zero schema value e head shape below = absurd (omega (arith, head.shallow))
conforming depth (suc r) schema value e head shape below =
    node (record { types = head.types; values = head.values; shape = shape })
      (below r (omega arith))

fields_ok-IsAdmitted :
    (code : String) (depth : ℕ) (schema ps fs : Fields)
    → validate_fields code ps (additional_of (get "additionalProperties" schema)) depth fs ≡ ok tt
    → (key : String) (child : Json) → HasField key child fs
    → IsAdmitted schema ps key
fields_ok-IsAdmitted code depth schema ps end h key child place = elim place [ ]
fields_ok-IsAdmitted code depth schema ps (field _ v fs) h key child first =
    let entry = fields_ok-Entered code ps _ depth key v fs h in
    chosen-IsAdmitted code schema ps key entry.sub _ _ refl refl entry.chosen
fields_ok-IsAdmitted code depth schema ps (field k v fs) h key child (later place) =
    let entry = fields_ok-Entered code ps _ depth k v fs h in
    fields_ok-IsAdmitted code depth schema ps fs entry.others key child place

-- The entries of a dict.
module _ (code : String) (schema ps : Fields) (r : ℕ) where
  abbrev Entries : Fields → Type 0
  Entries fs =
      (key : String) (child : Json)
      → HasField key child fs
      → Placed schema ps (λ s. Conforms r s child) key code

  Child-Conforms :
      (fs : Fields)
      → Properties schema ps
      → Entries fs
      → (child : Json) (sub : Fields) → Child schema (obj fs) child sub
      → Conforms r sub child
  Child-Conforms fs given_ps all child sub (declared {ps = qs} {key} place given_qs e) =
      let placed = all key child place in
      let e' : get_value key ps ≡ obj sub =
        rw (Properties-unique schema ps qs given_ps given_qs) e in
      let chosen = rw e' at placed.chosen in placed.under sub (cc (sym chosen))
  Child-Conforms fs given_ps all child sub (additional {ps = qs} {key} place given_qs e f) =
      let placed = all key child place in
      let e' : get_value key ps ≡ null = rw (Properties-unique schema ps qs given_ps given_qs) e in
      let chosen = rw (e', f) at placed.chosen in placed.under sub (cc (sym chosen))

listed-Conforms :
    (schema : Fields) (xs : Items) (r : ℕ)
    → ((sub : Fields)
        → get_value "items" schema ≡ obj sub
        → (child : Json) → HasItem child xs
        → Conforms r sub child)
    → (child : Json) (sub : Fields) → Child schema (arr xs) child sub
    → Conforms r sub child
listed-Conforms schema xs r all child sub (listed place e) = all sub e child place

module _ (code : String) where
  mutual
    unfolding validate_node validate_items

    pub validate_node-Conforms :
        (depth room : ℕ) (schema : Fields) (value : Json)
        → depth + room ≡ 17
        → validate_node code schema depth value ≡ ok tt
        → Conforms room schema value
    validate_node-Conforms depth room schema (obj fs) e h =
        let (seen, h1) = then-ok (validate_head code schema depth (obj fs)) _ tt h in
        let (ps, ps_ok, h2) = bind-ok (properties_of code (get "properties" schema)) _ tt h1 in
        let (keys, keys_ok, h3) = bind-ok (required_of code (get "required" schema)) _ tt h2 in
        let (has, fields_ok) = require-ok (has_required keys fs) code _ tt h3 in
        let given_ps = properties_of-Properties code schema ps _ refl ps_ok in
        conforming depth room schema (obj fs) e (validate_head-Head code schema depth (obj fs) seen)
          (of_obj given_ps (required-HasRequired code schema fs keys _ refl keys_ok has)
            (fields_ok-IsAdmitted code depth schema ps fs fields_ok))
          (λ r q.
            Child-Conforms code schema ps r fs given_ps
              (fields_ok-Entries depth r schema ps fs q fields_ok))
    validate_node-Conforms depth room schema (arr xs) e h =
        let (seen, h1) = then-ok (validate_head code schema depth (arr xs)) _ tt h in
        let (sized, items_ok) = then-ok (validate_size code _ _ (item_count xs)) _ tt h1 in
        conforming depth room schema (arr xs) e (validate_head-Head code schema depth (arr xs) seen)
          (of_arr (validate_size-AllowsSize code _ _ _ sized))
          (λ r q.
            listed-Conforms schema xs r
              (λ sub k. items_ok-Conforms depth r sub xs q (rw k at items_ok)))
    validate_node-Conforms depth room schema (str s) e h =
        let (seen, sized) = then-ok (validate_head code schema depth (str s)) _ tt h in
        conforming depth room schema (str s) e (validate_head-Head code schema depth (str s) seen)
          (of_str (validate_size-AllowsSize code _ _ _ sized)) (λ r q child sub c. elim c [ ])
    validate_node-Conforms depth room schema (int z) e h =
        let (seen, sized) = then-ok (validate_head code schema depth (int z)) _ tt h in
        conforming depth room schema (int z) e (validate_head-Head code schema depth (int z) seen)
          (of_int (validate_number-AllowsNumber code _ _ _ sized)) (λ r q child sub c. elim c [ ])
    validate_node-Conforms depth room schema (float z k) e h =
        let (seen, sized) = then-ok (validate_head code schema depth (float z k)) _ tt h in
        conforming depth room schema (float z k) e
          (validate_head-Head code schema depth (float z k) seen)
          (of_float (validate_number-AllowsNumber code _ _ _ sized)) (λ r q child sub c. elim c [ ])
    validate_node-Conforms depth room schema (bool b) e h =
        conforming depth room schema (bool b) e (validate_head-Head code schema depth (bool b) h)
          of_bool (λ r q child sub c. elim c [ ])
    validate_node-Conforms depth room schema null e h =
        conforming depth room schema null e (validate_head-Head code schema depth null h) of_null
          (λ r q child sub c. elim c [ ])

    fields_ok-Entries :
        (depth r : ℕ) (schema ps fs : Fields)
        → suc depth + r ≡ 17
        → validate_fields code ps (additional_of (get "additionalProperties" schema)) depth fs
          ≡ ok tt
        → Entries code schema ps r fs
    fields_ok-Entries depth r schema ps end e h key child place = elim place [ ]
    fields_ok-Entries depth r schema ps (field _ v fs) e h key child first =
        let entry = fields_ok-Entered code ps _ depth key v fs h in
        record {
          sub = entry.sub;
          chosen = entry.chosen;
          under = λ s k. validate_node-Conforms (suc depth) r s v e (entry.under s k);
        }
    fields_ok-Entries depth r schema ps (field k v fs) e h key child (later place) =
        let entry = fields_ok-Entered code ps _ depth k v fs h in
        fields_ok-Entries depth r schema ps fs e entry.others key child place

    items_ok-Conforms :
        (depth r : ℕ) (sub : Fields) (xs : Items)
        → suc depth + r ≡ 17
        → validate_items code (some sub) depth xs ≡ ok tt
        → (child : Json) → HasItem child xs
        → Conforms r sub child
    items_ok-Conforms depth r sub nil e h child place = elim place [ ]
    items_ok-Conforms depth r sub (cons x xs) e h child here =
        let (under, rest) = then-ok (validate_node code sub (suc depth) x) _ tt h in
        validate_node-Conforms (suc depth) r sub x e under
    items_ok-Conforms depth r sub (cons x xs) e h child (there place) =
        let (under, rest) = then-ok (validate_node code sub (suc depth) x) _ tt h in
        items_ok-Conforms depth r sub xs e rest child place
