-- ===== src/Agent/Transcript.antt =====
-- The private transcript of a turn: addons/odoo_ai_assistant/runtime/agent/working_transcript.py.
pub mod RoundTrip
use ai_odoo_assistant.Prelude.{
  ℕ, suc, ltb, leb, Bool, true, false, not, ◌&&◌, ◌||◌, Option, none, some, String, List, [], ◌∷◌,
  ◌++◌, mem, if◌then◌else◌, length, ◌==◌,
}
use ai_odoo_assistant.Prelude.PyText.{codes}
use ai_odoo_assistant.Prelude.Json.{
  Json, null, bool, int, float, str, arr, obj, pos, Items, nil, cons, Fields, end, field, get,
  get_value, has_keys, field_count, json_eq,
}
use ai_odoo_assistant.Prelude.Result.{Result, ok, err, require, ◌>>=◌, ◌>>◌}

-- `json.dumps` with the arguments that every call here has, none where it raises, and the length of
-- a text in UTF-8, none where it has no encoding.
pub record JsonText : Type 0 where
  pub dumps : Json → Option String
  pub utf8_length : String → Option ℕ

pub record WorkingItem : Type 0 where
  pub sequence : ℕ
  pub kind : String
  -- `data` in the source
  pub fields : Fields

abbrev pub allowed_kinds : List String
allowed_kinds =
    "user_input" ∷ "assistant_decision" ∷ "task_plan" ∷ "task_plan_error" ∷ "capability_call"
    ∷ "capability_result" ∷ "capability_error" ∷ "plan_step_proposed" ∷ "plan_prepared"
    ∷ "plan_execution_error" ∷ "verified_effect_receipt" ∷ "final_answer" ∷ []

-- `WorkingItem.payload`
unfoldable pub payload : WorkingItem → Json
payload item = obj (
    field "sequence" (int (pos item.sequence))
      (field "kind" (str item.kind) (field "data" (obj item.fields) end)))

unfoldable pub payloads : List WorkingItem → Items
payloads [] = nil
payloads (item ∷ items) = cons (payload item) (payloads items)

abbrev pub invalid {ℓ} : {A : Type ℓ} → Result A
invalid = err "agent_working_transcript_invalid"

-- raw("kind" ∷ []) where it is one of the kinds; a list or a dict has no hash.
abbrev pub kind_of : Json → Result String
kind_of (str kind) = if mem kind allowed_kinds then ok kind else invalid
kind_of (arr xs) = err "TypeError"
kind_of (obj fs) = err "TypeError"
kind_of _ = invalid

abbrev pub fields_of : Json → Result Fields
fields_of (obj fs) = ok fs
fields_of _ = invalid

-- The tests of one entry in `load_working_transcript`, up to `_validate_item`.
unfoldable pub load_item : ℕ → Json → Result WorkingItem
load_item position (obj raw) = do
  require (field_count raw == 3 && has_keys ("sequence" ∷ "kind" ∷ "data" ∷ []) raw)
      "agent_working_transcript_invalid"
  require (json_eq (get_value "sequence" raw) (int (pos position)))
      "agent_working_transcript_invalid"
  kind ← kind_of (get_value "kind" raw)
  fields ← fields_of (get_value "data" raw)
  ok (record { sequence = position; kind = kind; fields = fields })
load_item position _ = invalid

-- [A-Za-z0-9_.:-]
abbrev is_call_id_code : ℕ → Bool
is_call_id_code c =
    leb 65 c && leb c 90
    || leb 97 c && leb c 122
    || leb 48 c && leb c 57
    || c == 95
    || c == 46
    || c == 58
    || c == 45

abbrev all_call_id_codes : List ℕ → Bool
all_call_id_codes [] = true
all_call_id_codes (c ∷ cs) = is_call_id_code c && all_call_id_codes cs

-- _CALL_ID_RE.fullmatch(text) is not None
unfoldable pub is_call_id : String → Bool
is_call_id s = let cs = codes s in leb 1 (length cs) && leb (length cs) 256 && all_call_id_codes cs

abbrev pub large_kinds : List String
large_kinds =
    "capability_result" ∷ "capability_error" ∷ "plan_execution_error" ∷ "verified_effect_receipt"
    ∷ []

abbrev pub call_kinds : List String
call_kinds =
    "assistant_decision" ∷ "capability_call" ∷ "capability_result" ∷ "capability_error"
    ∷ "plan_step_proposed" ∷ []

abbrev pub result_kinds : List String
result_kinds = ("capability_result" ∷ "capability_error" ∷ [])

-- The checks of a call id in `_validate_item`, None being `null`.
unfoldable pub check_call_id : String → Json → Result (Unit {0})
check_call_id kind null = require (not (mem kind call_kinds)) "agent_working_call_id_missing"
check_call_id kind (str call_id) = require (is_call_id call_id) "agent_working_call_id_invalid"
check_call_id kind _ = err "agent_working_call_id_invalid"

-- One entry of `decisions`: the call id, and what the decision was.
pub record Signature : Type 0 where
  pub call_id : Json
  pub decision_kind : Json
  pub capability : Json
  pub arguments : String

unfoldable pub find_decision : Json → List Signature → Option Signature
find_decision call_id [] = none
find_decision call_id (s ∷ ss) =
    if json_eq s.call_id call_id then some s else find_decision call_id ss

abbrev pub same_signature : Signature → Signature → Bool
same_signature s t =
    json_eq s.decision_kind t.decision_kind
    && json_eq s.capability t.capability
    && json_eq (str s.arguments) (str t.arguments)

unfoldable pub mem_json : Json → List Json → Bool
mem_json v [] = false
mem_json v (w ∷ ws) = json_eq w v || mem_json v ws

abbrev is_null : Json → Bool
is_null null = true
is_null _ = false

-- data.get("arguments", {})
abbrev arguments_of : Fields → Json
arguments_of fields = elim (get "arguments" fields) [ none ↦ obj end | some v ↦ v ]

module _ (text : JsonText) where
  unfoldable pub bounded : Json → ℕ → String → Result (Unit {0})
  bounded value maximum code = elim (text.dumps value) [
    | none ↦ err code
    | some raw ↦ elim (text.utf8_length raw) [
      | none ↦ err code
      | some n ↦ if ltb maximum n then err code else ok tt
    ]
  ]

  unfoldable pub canonical : Json → Result String
  canonical value = elim (text.dumps value) [ none ↦ invalid | some raw ↦ ok raw ]

  unfoldable pub validate_item : WorkingItem → Result (Unit {0})
  validate_item item = do
    require (mem item.kind allowed_kinds) "agent_working_item_kind_invalid"
    bounded (obj item.fields) (if mem item.kind large_kinds then 32768 else 16384)
        "agent_working_item_too_large"
    check_call_id item.kind (get_value "call_id" item.fields)

  -- The decision of an item, checked against those before it.
  unfoldable pub note_decision : WorkingItem → List Signature → Result (List Signature)
  note_decision item decisions =
      let call_id = get_value "call_id" item.fields in
      if mem item.kind ("assistant_decision" ∷ []) && not (is_null call_id)
      then (do
        arguments ← canonical (arguments_of item.fields)
        let signature : Signature = record {
          call_id = call_id;
          decision_kind = get_value "decision_kind" item.fields;
          capability = get_value "capability" item.fields;
          arguments = arguments;
        }
        elim (find_decision call_id decisions) [
          | some existing ↦
              if same_signature existing signature
              then err "agent_working_call_id_duplicate"
              else err "agent_working_call_id_conflict"
          | none ↦ ok (signature ∷ decisions)
        ])
      else ok decisions

  unfoldable pub note_terminal : WorkingItem → List Json → Result (List Json)
  note_terminal item terminals =
      let call_id = get_value "call_id" item.fields in
      if mem item.kind result_kinds
      then (if mem_json call_id terminals
          then err "agent_working_call_terminal_duplicate"
          else ok (call_id ∷ terminals))
      else ok terminals

  -- The loop of `_validate_call_ids`, of the entries noted so far.
  unfoldable pub validate_calls : List Signature → List Json → List WorkingItem → Result (Unit {0})
  validate_calls decisions terminals [] = ok tt
  validate_calls decisions terminals (item ∷ items) = do
    more ← note_decision item decisions
    ended ← note_terminal item terminals
    validate_calls more ended items

  unfoldable pub validate_call_ids : List WorkingItem → Result (Unit {0})
  validate_call_ids items = validate_calls [] [] items

  unfoldable pub load_items : ℕ → Items → Result (List WorkingItem)
  load_items position nil = ok []
  load_items position (cons raw raws) = do
    item ← load_item position raw
    validate_item item
    items ← load_items (suc position) raws
    ok (item ∷ items)

  unfoldable pub check_items : List WorkingItem → Result (List WorkingItem)
  check_items items = do
    validate_call_ids items
    bounded (arr (payloads items)) 131072 "agent_working_transcript_too_large"
    ok items

  abbrev pub load_list : Json → Result (List WorkingItem)
  load_list (arr raws) = do items ← load_items 1 raws; check_items items
  load_list _ = invalid

  -- value in (None, False, [])
  unfoldable pub load_working_transcript : Json → Result (List WorkingItem)
  load_working_transcript value =
      if json_eq value null || json_eq value (bool false) || json_eq value (arr nil)
      then ok []
      else load_list value

  unfoldable pub append_working_item :
      List WorkingItem → String → Fields → Result (List WorkingItem)
  append_working_item items kind fields = do
    let candidate : WorkingItem = record {
      sequence = suc (length items);
      kind = kind;
      fields = fields;
    }
    validate_item candidate
    check_items (items ++ candidate ∷ [])

  unfoldable pub transcript_payload : List WorkingItem → Result Items
  transcript_payload items = do load_working_transcript (arr (payloads items)); ok (payloads items)

  unfoldable pub working_transcript_bytes : List WorkingItem → Result ℕ
  working_transcript_bytes items = elim (text.dumps (arr (payloads items))) [
    | none ↦ invalid
    | some raw ↦ elim (text.utf8_length raw) [ none ↦ invalid | some n ↦ ok n ]
  ]
