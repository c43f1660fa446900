-- ===== src/Capability/Validation/Parts.antt =====
-- The validator's tests of one node, each against what the schema asks there.
use ai_odoo_assistant.Prelude.{
  ℕ, suc, String, Bool, true, false, not, Option, none, some, ◌≡◌, refl, inl, inr, arith,
  Bool-cases,
}
use ai_odoo_assistant.Prelude.Json.{
  Json, str, obj, ℤ, Items, nil, cons, Fields, field, get, get_value, json_eq, number, pos, lt_int,
  lt_number,
}
use ai_odoo_assistant.Prelude.Result.{Result, ok, require, ◌>>◌, bind-ok, then-ok}
use ai_odoo_assistant.Capability.Validation.{
  contains, has_required, is_key, property_schema, additional_of, validate_size, validate_number,
  validate_node, validate_fields, item_schema, size_under, size_over, number_under, number_over,
  int_of,
}
use ai_odoo_assistant.Capability.Validation.Spec.{
  HasItem, here, there, IsPresent, present, AllowsSize, AllowsNumber,
}

-- An item that equals `value`.
abbrev pub Choice : Json → Items → Type 0
Choice value items = (choice : Json) × HasItem choice items × (json_eq choice value ≡ true)

pub contains-Choice :
    (value : Json) (items : Items) → contains value items ≡ true → Choice value items
unfolding contains
contains-Choice value nil h = cc h
contains-Choice value (cons x xs) h = elim (Bool-cases (json_eq x value)) [
  | inl same ↦ (x, here, same)
  | inr other ↦
      let tail : contains value xs ≡ true = ground arith in
      let (choice, place, same) = contains-Choice value xs tail in (choice, there place, same)
]

pub Choice-contains :
    (value : Json) (items : Items) (choice : Json)
    → HasItem choice items
    → json_eq choice value ≡ true
    → contains value items ≡ true
unfolding contains
Choice-contains value nil choice place same = elim place [ ]
Choice-contains value (cons _ xs) choice here same = rw same
Choice-contains value (cons x xs) choice (there place) same =
    let tail = Choice-contains value xs choice place same in ground arith

key-IsPresent : (fs : Fields) (item : Json) → is_key item fs ≡ true → IsPresent fs item
key-IsPresent fs (str key) h = found (get key fs) refl h
  where
    found :
        (o : Option Json)
        → get key fs ≡ o
        → (let b : Bool = elim o [ none ↦ false | some v ↦ true ] in b ≡ true)
        → IsPresent fs (str key)
    found none e h = cc h
    found (some v) e h = present e
key-IsPresent fs item h = cc h

IsPresent-key : (fs : Fields) (item : Json) → IsPresent fs item → is_key item fs ≡ true
IsPresent-key fs _ (present e) = rw (e, is_key)

pub has_required-IsPresent :
    (fs : Fields) (keys : Items)
    → has_required keys fs ≡ true
    → (key : Json) → HasItem key keys
    → IsPresent fs key
unfolding has_required
has_required-IsPresent fs nil h key place = elim place [ ]
has_required-IsPresent fs (cons _ keys) h key here = key-IsPresent fs key (ground arith)
has_required-IsPresent fs (cons k keys) h key (there place) =
    has_required-IsPresent fs keys (ground arith) key place

pub IsPresent-has_required :
    (fs : Fields) (keys : Items)
    → ((key : Json) → HasItem key keys → IsPresent fs key)
    → has_required keys fs ≡ true
unfolding has_required
IsPresent-has_required fs nil h = refl
IsPresent-has_required fs (cons key keys) h =
    let first = IsPresent-key fs key (h key here) in
    let rest = IsPresent-has_required fs keys (λ k p. h k (there p)) in ground arith

under-false :
    (bound : Option ℤ) (size : ℕ)
    → ((b : ℤ) → bound ≡ some b → lt_int (pos size) b ≡ false)
    → size_under bound size ≡ false
under-false none size h = refl
under-false (some b) size h = h b refl

over-false :
    (bound : Option ℤ) (size : ℕ)
    → ((b : ℤ) → bound ≡ some b → lt_int b (pos size) ≡ false)
    → size_over bound size ≡ false
over-false none size h = refl
over-false (some b) size h = h b refl

number_under-false :
    (bound : Option (ℤ × ℕ)) (n : ℤ × ℕ)
    → ((b : ℤ × ℕ) → bound ≡ some b → lt_number n b ≡ false)
    → number_under bound n ≡ false
number_under-false none n h = refl
number_under-false (some b) n h = h b refl

number_over-false :
    (bound : Option (ℤ × ℕ)) (n : ℤ × ℕ)
    → ((b : ℤ × ℕ) → bound ≡ some b → lt_number b n ≡ false)
    → number_over bound n ≡ false
number_over-false none n h = refl
number_over-false (some b) n h = h b refl

-- Two tests that both pass.
two_required :
    (p q : Bool) (code : String)
    → (require (not p) code >> require (not q) code) ≡ ok tt
    → (p ≡ false) × (q ≡ false)
two_required p q code h = (ground arith, ground arith)

module _ (code : String) where
  pub validate_size-AllowsSize :
      (minimum maximum : Json) (size : ℕ)
      → validate_size code minimum maximum size ≡ ok tt
      → AllowsSize minimum maximum size
  unfolding validate_size
  validate_size-AllowsSize minimum maximum size h =
      let passed =
        two_required (size_under (int_of minimum) size) (size_over (int_of maximum) size) code h in
      record { least = λ bound e. rw e at passed.0; most = λ bound e. rw e at passed.1 }

  pub AllowsSize-validate_size :
      (minimum maximum : Json) (size : ℕ)
      → AllowsSize minimum maximum size
      → validate_size code minimum maximum size ≡ ok tt
  unfolding validate_size
  AllowsSize-validate_size minimum maximum size h =
      rw (under-false (int_of minimum) size h.least, over-false (int_of maximum) size h.most)

  pub validate_number-AllowsNumber :
      (minimum maximum : Json) (n : ℤ × ℕ)
      → validate_number code minimum maximum n ≡ ok tt
      → AllowsNumber minimum maximum n
  unfolding validate_number
  validate_number-AllowsNumber minimum maximum n h =
      let passed =
        two_required (number_under (number minimum) n) (number_over (number maximum) n) code h in
      record { least = λ bound e. rw e at passed.0; most = λ bound e. rw e at passed.1 }

  pub AllowsNumber-validate_number :
      (minimum maximum : Json) (n : ℤ × ℕ)
      → AllowsNumber minimum maximum n
      → validate_number code minimum maximum n ≡ ok tt
  unfolding validate_number
  AllowsNumber-validate_number minimum maximum n h =
      rw
        (number_under-false (number minimum) n h.least, number_over-false (number maximum) n h.most)

-- How a dict's entry is placed: the validator's choice of a schema for it, under which `P`.
module _ {κ} (schema ps : Fields) (P : Fields → Type κ) (key : String) where
  pub record Placed (code : String) : Type κ where
    pub sub : Option Fields
    pub chosen :
        property_schema code (get_value key ps) (additional_of (get "additionalProperties" schema))
        ≡ ok sub
    pub under : (s : Fields) → sub ≡ some s → P s

-- What the loop over a dict's entries found out of its first one.
pub record Entered (code : String) (ps : Fields) (additional : Json) (depth : ℕ) (key : String)
    (item : Json) (fs : Fields) : Type 0 where
  pub sub : Option Fields
  pub chosen : property_schema code (get_value key ps) additional ≡ ok sub
  pub under : (s : Fields) → sub ≡ some s → validate_node code s (suc depth) item ≡ ok tt
  pub others : validate_fields code ps additional depth fs ≡ ok tt

pub fields_ok-Entered :
    (code : String) (ps : Fields) (additional : Json) (depth : ℕ) (key : String) (item : Json)
    (fs : Fields)
    → validate_fields code ps additional depth (field key item fs) ≡ ok tt
    → Entered code ps additional depth key item fs
unfolding validate_fields
fields_ok-Entered code ps additional depth key item fs h =
    let (sub, chosen, h1) = bind-ok (property_schema code (get_value key ps) additional) _ tt h in
    entered sub chosen h1
  where
    entered :
        (sub : Option Fields)
        → property_schema code (get_value key ps) additional ≡ ok sub
        → ((let checked : Result (Unit {0}) = elim sub [
          | none ↦ ok tt
          | some s ↦ validate_node code s (suc depth) item
        ] in
              checked)
            >> validate_fields code ps additional depth fs)
          ≡ ok tt
        → Entered code ps additional depth key item fs
    entered none chosen h1 = record {
      sub = none;
      chosen = chosen;
      under = λ s k. cc k;
      others = h1;
    }
    entered (some s) chosen h1 =
        let (checked, others) = then-ok (validate_node code s (suc depth) item) _ tt h1 in
        record {
          sub = some s;
          chosen = chosen;
          under = λ t k. let q : s ≡ t = cc k in rw (← q) checked;
          others = others;
        }

pub Entered-fields_ok :
    (code : String) (ps : Fields) (additional : Json) (depth : ℕ) (key : String) (item : Json)
    (fs : Fields)
    → Entered code ps additional depth key item fs
    → validate_fields code ps additional depth (field key item fs) ≡ ok tt
unfolding validate_fields
Entered-fields_ok code ps additional depth key item fs entry =
    passes entry.sub entry.chosen entry.under
  where
    passes :
        (sub : Option Fields)
        → property_schema code (get_value key ps) additional ≡ ok sub
        → ((s : Fields) → sub ≡ some s → validate_node code s (suc depth) item ≡ ok tt)
        → validate_fields code ps additional depth (field key item fs) ≡ ok tt
    passes none chosen under = rw chosen entry.others
    passes (some s) chosen under = rw (chosen, under s refl) entry.others

pub item_schema-obj : (v : Json) (sub : Fields) → item_schema v ≡ some sub → v ≡ obj sub
item_schema-obj (obj s) sub h = cc h
item_schema-obj v sub h = cc h
