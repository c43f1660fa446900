-- ===== src/Capability/Validation/Contract.antt =====
-- The contract of `validate_payload`: what it accepts, and how it refuses.
use ai_odoo_assistant.Prelude.{
  ℕ, suc, leb, ◌≤◌, ◌<◌, String, Bool, true, false, Option, none, some, ◌≡◌, refl, inl, inr, ◌↔◌,
  arith, leb→le, Bool-cases,
}
use ai_odoo_assistant.Prelude.Json.{
  Json, null, bool, int, float, str, arr, obj, ℤ, Items, nil, cons, Fields, end, field, get,
  get_value,
}
use ai_odoo_assistant.Prelude.Result.{Result, ok, err, require, ◌>>=◌, ◌>>◌, require-ok}
use ai_odoo_assistant.Capability.Validation.{
  properties_of, required_of, property_schema, additional_schema, additional_of, validate_head,
  validate_node, validate_fields, validate_items, validate_size, validate_number, validate_payload,
  validate_encoded, item_schema, item_count, has_required,
}
use ai_odoo_assistant.Capability.Validation.Spec.{Conforms}
use ai_odoo_assistant.Capability.Validation.Sound.{validate_node-Conforms}
use ai_odoo_assistant.Capability.Validation.Complete.{Conforms-validate_node}
use Prim.Native.String.{◌++◌ as append}

-- Each error of the call is `code`.
record Refuses {ℓ} {A : Type ℓ} (code : String) (m : Result A) : Type ℓ where
  raised : (e : String) → m ≡ err e → e ≡ code

module _ {ℓ} {A : Type ℓ} (code : String) where
  Refuses-ok : (a : A) → Refuses code (ok a)
  Refuses-ok a = record { raised = λ e h. cc h }

  Refuses-err : Refuses {A = A} code (err code)
  Refuses-err = record { raised = λ e h. cc h }

  Refuses-then :
      (m : Result (Unit {0})) (next : Result A)
      → Refuses code m
      → Refuses code next
      → Refuses code (m >> next)
  Refuses-then (err e) next p q = record {
    raised = λ x h. let k : e ≡ x = cc h in p.raised x (rw k);
  }
  Refuses-then (ok tt) next p q = q

  Refuses-bind {κ} :
      {B : Type κ} (m : Result B) (f : B → Result A)
      → Refuses code m
      → ((b : B) → Refuses code (f b))
      → Refuses code (m >>= f)
  Refuses-bind (err e) f p q = record { raised = λ x h. let k : e ≡ x = cc h in p.raised x (rw k) }
  Refuses-bind (ok b) f p q = q b

module _ (code : String) where
  Refuses-require : (b : Bool) → Refuses code (require b code)
  Refuses-require true = Refuses-ok code tt
  Refuses-require false = Refuses-err code

  Refuses-properties_of : (o : Option Json) → Refuses code (properties_of code o)
  Refuses-properties_of none = Refuses-ok code end
  Refuses-properties_of (some (obj fs)) = Refuses-ok code fs
  Refuses-properties_of (some v) = Refuses-err code

  Refuses-required_of : (o : Option Json) → Refuses code (required_of code o)
  Refuses-required_of none = Refuses-ok code nil
  Refuses-required_of (some (arr xs)) = Refuses-ok code xs
  Refuses-required_of (some v) = Refuses-err code

  Refuses-additional_schema : (v : Json) → Refuses code (additional_schema code v)
  Refuses-additional_schema (bool false) = Refuses-err code
  Refuses-additional_schema (bool true) = Refuses-ok code none
  Refuses-additional_schema (obj s) = Refuses-ok code (some s)
  Refuses-additional_schema v = Refuses-ok code none

  Refuses-property_schema : (v a : Json) → Refuses code (property_schema code v a)
  Refuses-property_schema null a = Refuses-additional_schema a
  Refuses-property_schema (obj s) a = Refuses-ok code (some s)
  Refuses-property_schema v a = Refuses-err code

  Refuses-head :
      (schema : Fields) (depth : ℕ) (value : Json)
      → Refuses code (validate_head code schema depth value)
  unfolding validate_head
  Refuses-head schema depth value = search (Refuses-then, Refuses-require)

  Refuses-size :
      (minimum maximum : Json) (size : ℕ) → Refuses code (validate_size code minimum maximum size)
  unfolding validate_size
  Refuses-size minimum maximum size = search (Refuses-then, Refuses-require)

  Refuses-number :
      (minimum maximum : Json) (n : ℤ × ℕ) → Refuses code (validate_number code minimum maximum n)
  unfolding validate_number
  Refuses-number minimum maximum n = search (Refuses-then, Refuses-require)

  mutual
    unfolding validate_node validate_fields validate_items

    Refuses-node :
        (depth : ℕ) (schema : Fields) (value : Json)
        → Refuses code (validate_node code schema depth value)
    Refuses-node depth schema (obj fs) =
        Refuses-then code _ _ (Refuses-head schema depth (obj fs)) (
          Refuses-bind code _ _ (Refuses-properties_of (get "properties" schema)) (λ ps.
            Refuses-bind code _ _ (Refuses-required_of (get "required" schema)) (λ keys.
              Refuses-then code _ _ (Refuses-require (has_required keys fs))
                (Refuses-fields depth ps (additional_of (get "additionalProperties" schema)) fs))))
    Refuses-node depth schema (arr xs) =
        Refuses-then code _ _ (Refuses-head schema depth (arr xs)) (
          Refuses-then code _ _ (Refuses-size _ _ (item_count xs))
            (Refuses-items depth (item_schema (get_value "items" schema)) xs))
    Refuses-node depth schema (str s) =
        Refuses-then code _ _ (Refuses-head schema depth (str s)) (Refuses-size _ _ _)
    Refuses-node depth schema (int z) =
        Refuses-then code _ _ (Refuses-head schema depth (int z)) (Refuses-number _ _ _)
    Refuses-node depth schema (float z k) =
        Refuses-then code _ _ (Refuses-head schema depth (float z k)) (Refuses-number _ _ _)
    Refuses-node depth schema (bool b) = Refuses-head schema depth (bool b)
    Refuses-node depth schema null = Refuses-head schema depth null

    Refuses-fields :
        (depth : ℕ) (ps : Fields) (additional : Json) (fs : Fields)
        → Refuses code (validate_fields code ps additional depth fs)
    Refuses-fields depth ps additional end = Refuses-ok code tt
    Refuses-fields depth ps additional (field key v fs) =
        Refuses-bind code _ _ (Refuses-property_schema (get_value key ps) additional) (λ sub.
          elim sub
            as (λ o. Refuses code (
              (let checked : Result (Unit {0}) = elim o [
                | none ↦ ok tt
                | some s ↦ validate_node code s (suc depth) v
              ] in
                checked)
              >> validate_fields code ps additional depth fs)) [
                | none ↦ Refuses-fields depth ps additional fs
                | some s ↦
                    Refuses-then code _ _ (Refuses-node (suc depth) s v)
                      (Refuses-fields depth ps additional fs)
              ])

    Refuses-items :
        (depth : ℕ) (sub : Option Fields) (xs : Items)
        → Refuses code (validate_items code sub depth xs)
    Refuses-items depth sub nil = Refuses-ok code tt
    Refuses-items depth none (cons x xs) = Refuses-items depth none xs
    Refuses-items depth (some s) (cons x xs) =
        Refuses-then code _ _ (Refuses-node (suc depth) s x) (Refuses-items depth (some s) xs)

-- The encoding of a payload is no longer than the limit.
abbrev pub Fits : Option ℕ → ℕ → Type 0
Fits encoded max_bytes = (size : ℕ) × (encoded ≡ some size) × (size ≤ max_bytes)

-- What a refusal says of the encoding, by its code.
pub data RefusedAs (code : String) (max_bytes : ℕ) (encoded : Option ℕ) (e : String) : Type 0 where
  too_large :
      (size : ℕ)
      → encoded ≡ some size
      → max_bytes < size
      → e ≡ append code "_too_large"
      → RefusedAs code max_bytes encoded e
  not_conforming :
      (size : ℕ)
      → encoded ≡ some size
      → size ≤ max_bytes
      → e ≡ code
      → RefusedAs code max_bytes encoded e
  not_encoded : encoded ≡ none → e ≡ code → RefusedAs code max_bytes encoded e

module _ (value : Json) (schema : Fields) (max_bytes : ℕ) (code : String) where
  encoded-accepted :
      (encoded : Option ℕ)
      → validate_encoded encoded value schema max_bytes code ≡ ok tt
      → Fits encoded max_bytes × Conforms 17 schema value
  unfolding validate_encoded
  encoded-accepted none h = cc h
  encoded-accepted (some size) h =
      let (fits, passed) = require-ok (leb size max_bytes) (append code "_too_large") _ tt h in
      (
        (size, refl, leb→le size max_bytes fits),
        validate_node-Conforms code 0 17 schema value refl passed,
      )

  accepted-encoded :
      (encoded : Option ℕ)
      → Fits encoded max_bytes × Conforms 17 schema value
      → validate_encoded encoded value schema max_bytes code ≡ ok tt
  unfolding validate_encoded
  accepted-encoded none k = cc k.0.1
  accepted-encoded (some size) k =
      let fits : leb size max_bytes ≡ true = ground (arith, k.0.1) in
      rw fits (Conforms-validate_node code 0 17 schema value refl k.1)

  encoded-refused :
      (encoded : Option ℕ) (e : String)
      → validate_encoded encoded value schema max_bytes code ≡ err e
      → RefusedAs code max_bytes encoded e
  unfolding validate_encoded
  encoded-refused none e h = not_encoded refl (cc h)
  encoded-refused (some size) e h = elim (Bool-cases (leb size max_bytes)) [
    | inl small ↦
        not_conforming size refl (ground arith)
          ((Refuses-node code 0 schema value).raised e (rw small at h))
    | inr large ↦ let k = rw large at h in too_large size refl (ground arith) (cc k)
  ]

module _ (encoded_length : Json → Option ℕ) (value : Json) (schema : Fields) (max_bytes : ℕ)
    (code : String) where
  -- The validator accepts a payload exactly when its encoding fits the limit and the payload conforms
  -- to the schema, within 17 levels of nesting.
  pub validate_payload-Conforms :
      (validate_payload encoded_length value schema max_bytes code ≡ ok tt)
      ↔ (Fits (encoded_length value) max_bytes × Conforms 17 schema value)
  unfolding validate_payload
  validate_payload-Conforms = (
    encoded-accepted value schema max_bytes code (encoded_length value),
    accepted-encoded value schema max_bytes code (encoded_length value),
  )

  -- Each refusal of a payload whose encoding is longer than the limit carries the caller's code with
  -- "_too_large" behind it; each refusal of one whose encoding fits, or that has none, carries the
  -- caller's code as it is.
  pub validate_payload-refusals :
      (e : String)
      → validate_payload encoded_length value schema max_bytes code ≡ err e
      → RefusedAs code max_bytes (encoded_length value) e
  unfolding validate_payload
  validate_payload-refusals = encoded-refused value schema max_bytes code (encoded_length value)
