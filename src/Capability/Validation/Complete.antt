-- ===== src/Capability/Validation/Complete.antt =====
-- What conforms to the schema, the validator accepts.
use ai_odoo_assistant.Prelude.{
  ℕ, suc, leb, ◌+◌, ◌≤◌, String, true, false, Option, none, some, length, ◌≡◌, refl, arith,
}
use ai_odoo_assistant.Prelude.PyText.{codes}
use ai_odoo_assistant.Prelude.Json.{
  Json, null, bool, int, float, str, arr, obj, ℤ, Items, nil, cons, Fields, end, field, get,
  get_value,
}
use ai_odoo_assistant.Prelude.Result.{Result, ok}
use ai_odoo_assistant.Capability.Validation.{
  properties_of, required_of, property_schema, additional_schema, additional_of, validate_head,
  validate_node, validate_fields, validate_items, validate_size, validate_number, item_schema,
  item_count, has_required, type_allows, enum_allows,
}
use ai_odoo_assistant.Capability.Validation.Spec.{
  HasItem, here, there, HasField, first, later, Properties, absent, given, Child, declared,
  additional, listed, IsAdmitted, by_property, by_default, HasRequired, no_list, every, AllowsShape,
  of_int, of_float, of_str, of_arr, of_obj, Allows, Conforms, node,
}
use ai_odoo_assistant.Capability.Validation.Parts.{
  Choice-contains, IsPresent-has_required, AllowsSize-validate_size, AllowsNumber-validate_number,
  Entered-fields_ok, item_schema-obj,
}

module _ (code : String) (schema : Fields) where
  Allows-head :
      (depth : ℕ) (value : Json)
      → depth ≤ 16
      → Allows schema value
      → validate_head code schema depth value ≡ ok tt
  unfolding validate_head
  Allows-head depth value shallow allows =
      let deep : leb depth 16 ≡ true = ground arith in
      rw (deep, typed (get_value "type" schema) refl, chosen (get_value "enum" schema) refl)
    where
      typed : (v : Json) → get_value "type" schema ≡ v → type_allows v value ≡ true
      typed (str name) e = allows.types name e
      typed v e = refl

      chosen : (v : Json) → get_value "enum" schema ≡ v → enum_allows v value ≡ true
      chosen (arr choices) e =
          let (choice, place, same) = allows.values choices e in
          Choice-contains value choices choice place same
      chosen v e = refl

  Properties-properties_of :
      (ps : Fields) → Properties schema ps → properties_of code (get "properties" schema) ≡ ok ps
  Properties-properties_of _ (absent e) = rw e
  Properties-properties_of ps (given e) = rw e

  HasRequired-keys :
      (fs : Fields)
      → HasRequired schema fs
      → (keys : Items) × (required_of code (get "required" schema) ≡ ok keys)
        × (has_required keys fs ≡ true)
  unfolding has_required
  HasRequired-keys fs (no_list e) = (nil, rw e, refl)
  HasRequired-keys fs (every {keys} e h) = (keys, rw e, IsPresent-has_required fs keys h)

  abbrev choice_of : Fields → String → Result (Option Fields)
  choice_of ps key =
      property_schema code (get_value key ps) (additional_of (get "additionalProperties" schema))

  IsAdmitted-choice :
      (ps : Fields) (key : String)
      → IsAdmitted schema ps key
      → (sub : Option Fields) × (choice_of ps key ≡ ok sub)
  IsAdmitted-choice ps key (by_property {sub} e) = (some sub, rw e)
  IsAdmitted-choice ps key (by_default e allowed) =
      let (sub, chosen) = by_additional (get "additionalProperties" schema) refl in
      (sub, rw e chosen)
    where
      by_additional :
          (a : Option Json)
          → get "additionalProperties" schema ≡ a
          → (sub : Option Fields) × (additional_schema code (additional_of a) ≡ ok sub)
      by_additional (some (bool false)) f = absurd (allowed f)
      by_additional (some (obj sub)) f = (some sub, refl)
      by_additional a f = (none, refl)

  choice-Child :
      (ps fs : Fields) (key : String) (child : Json) (sub : Fields)
      → Properties schema ps
      → HasField key child fs
      → choice_of ps key ≡ ok (some sub)
      → Child schema (obj fs) child sub
  choice-Child ps fs key child sub given_ps place chosen =
      placed (get_value key ps) (get "additionalProperties" schema) refl refl chosen
    where
      placed :
          (v : Json) (a : Option Json)
          → get_value key ps ≡ v
          → get "additionalProperties" schema ≡ a
          → property_schema code v (additional_of a) ≡ ok (some sub)
          → Child schema (obj fs) child sub
      placed (obj s) a e f h = let q : s ≡ sub = cc h in declared place given_ps (rw (← q) e)
      placed null (some (obj s)) e f h =
          let q : s ≡ sub = cc h in additional place given_ps e (rw (← q) f)
      placed null (some (bool true)) e f h = cc h
      placed null (some (bool false)) e f h = cc h
      placed null a e f h = cc h
      placed v a e f h = cc h

-- What the schema asks of a dict, of a list, of a text and of a number.
obj-shape :
    (schema fs : Fields)
    → AllowsShape schema (obj fs)
    → (ps : Fields) × Properties schema ps
      × HasRequired schema fs
      × ((key : String) (child : Json) → HasField key child fs → IsAdmitted schema ps key)
obj-shape schema fs (of_obj {ps} given_ps required admitted) = (ps, given_ps, required, admitted)

module _ (code : String) (schema : Fields) where
  arr-size :
      (xs : Items)
      → AllowsShape schema (arr xs)
      → validate_size code
          (get_value "minItems" schema)
          (get_value "maxItems" schema)
          (item_count xs)
        ≡ ok tt
  arr-size xs (of_arr sized) = AllowsSize-validate_size code _ _ _ sized

  str-size :
      (s : String)
      → AllowsShape schema (str s)
      → validate_size code
          (get_value "minLength" schema)
          (get_value "maxLength" schema)
          (length (codes s))
        ≡ ok tt
  str-size s (of_str sized) = AllowsSize-validate_size code _ _ _ sized

  abbrev NumberPasses : ℤ × ℕ → Type 0
  NumberPasses n =
      validate_number code (get_value "minimum" schema) (get_value "maximum" schema) n ≡ ok tt

  int-number : (z : ℤ) → AllowsShape schema (int z) → NumberPasses (z, 0)
  int-number z (of_int sized) = AllowsNumber-validate_number code _ _ _ sized

  float-number : (z : ℤ) (k : ℕ) → AllowsShape schema (float z k) → NumberPasses (z, k)
  float-number z k (of_float sized) = AllowsNumber-validate_number code _ _ _ sized

module _ (code : String) where
  mutual
    unfolding validate_node validate_fields validate_items

    pub Conforms-validate_node :
        (depth room : ℕ) (schema : Fields) (value : Json)
        → depth + room ≡ 17
        → Conforms room schema value
        → validate_node code schema depth value ≡ ok tt
    Conforms-validate_node depth _ schema (obj fs) e (node {room = r} allows below) =
        let head = Allows-head code schema depth (obj fs) (omega arith) allows in
        let (ps, given_ps, required, admitted) = obj-shape schema fs allows.shape in
        let (keys, keys_ok, has) = HasRequired-keys code schema fs required in
        rw (head, Properties-properties_of code schema ps given_ps, keys_ok, has)
          (fields_pass depth r schema ps fs (omega arith) admitted (λ key child place sub chosen.
            below child sub (choice-Child code schema ps fs key child sub given_ps place chosen)))
    Conforms-validate_node depth _ schema (arr xs) e (node {room = r} allows below) =
        let head = Allows-head code schema depth (arr xs) (omega arith) allows in
        rw (head, arr-size code schema xs allows.shape)
          (items_pass depth r xs (item_schema (get_value "items" schema)) (omega arith)
            (λ sub k child place. below child sub (listed place (item_schema-obj _ sub k))))
    Conforms-validate_node depth _ schema (str s) e (node allows below) =
        let head = Allows-head code schema depth (str s) (omega arith) allows in
        rw (head, str-size code schema s allows.shape)
    Conforms-validate_node depth _ schema (int z) e (node allows below) =
        let head = Allows-head code schema depth (int z) (omega arith) allows in
        rw (head, int-number code schema z allows.shape)
    Conforms-validate_node depth _ schema (float z k) e (node allows below) =
        let head = Allows-head code schema depth (float z k) (omega arith) allows in
        rw (head, float-number code schema z k allows.shape)
    Conforms-validate_node depth _ schema (bool b) e (node allows below) =
        Allows-head code schema depth (bool b) (omega arith) allows
    Conforms-validate_node depth _ schema null e (node allows below) =
        Allows-head code schema depth null (omega arith) allows

    fields_pass :
        (depth r : ℕ) (schema ps fs : Fields)
        → suc depth + r ≡ 17
        → ((key : String) (child : Json) → HasField key child fs → IsAdmitted schema ps key)
        → ((key : String) (child : Json)
            → HasField key child fs
            → (sub : Fields) → choice_of code schema ps key ≡ ok (some sub)
            → Conforms r sub child)
        → validate_fields code ps (additional_of (get "additionalProperties" schema)) depth fs
          ≡ ok tt
    fields_pass depth r schema ps end e admitted below = refl
    fields_pass depth r schema ps (field key v fs) e admitted below =
        let (sub, chosen) = IsAdmitted-choice code schema ps key (admitted key v first) in
        Entered-fields_ok code ps _ depth key v fs (record {
          sub = sub;
          chosen = chosen;
          under = λ s k.
              Conforms-validate_node (suc depth) r s v e (below key v first s (rw k at chosen));
          others =
              fields_pass depth r schema ps fs e (λ q c p. admitted q c (later p))
                (λ q c p. below q c (later p));
        })

    items_pass :
        (depth r : ℕ) (xs : Items) (schema : Option Fields)
        → suc depth + r ≡ 17
        → ((sub : Fields)
            → schema ≡ some sub
            → (child : Json) → HasItem child xs
            → Conforms r sub child)
        → validate_items code schema depth xs ≡ ok tt
    items_pass depth r nil schema e below = refl
    items_pass depth r (cons x xs) none e below =
        items_pass depth r xs none e (λ s k c p. below s k c (there p))
    items_pass depth r (cons x xs) (some sub) e below =
        rw (Conforms-validate_node (suc depth) r sub x e (below sub refl x here))
          (items_pass depth r xs (some sub) e (λ s k c p. below s k c (there p)))
