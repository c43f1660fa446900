-- ===== src/Agent/Calls.antt =====
-- A call that the transcript records stays recorded: `call_state` and `append_working_item` of
-- addons/odoo_ai_assistant/runtime/agent/working_transcript.py.
use ai_odoo_assistant.Prelude.{
  ℕ, suc, Bool, true, false, Option, none, some, String, List, [], ◌∷◌, ◌++◌, length, ◌≡◌, refl,
  mem, eq_refl, arith,
}
use ai_odoo_assistant.Prelude.Json.{str, Fields, get_value, json_eq}
use ai_odoo_assistant.Prelude.Result.{Ensures, Ensures-then}
use ai_odoo_assistant.Agent.Transcript.{JsonText, WorkingItem, validate_item, append_working_item}
use ai_odoo_assistant.Agent.Transcript.RoundTrip.{check_items-same}
use ai_odoo_assistant.Agent.Accounting.{CallState, next_call_state, call_state_from, call_state}

abbrev is_some : Option CallState → Bool
is_some none = false
is_some (some s) = true

-- call_state(items, call_id) is not None
unfoldable pub is_recorded : List WorkingItem → String → Bool
is_recorded items call_id = is_some (call_state items call_id)

next_call_state-is_some :
    (item : WorkingItem) (call_id : String) (s : CallState)
    → is_some (next_call_state item call_id (some s)) ≡ true
unfolding next_call_state
next_call_state-is_some item call_id s = ground arith

call_state_from-append :
    (state : Option CallState) (items : List WorkingItem) (item : WorkingItem) (call_id : String)
    → call_state_from state (items ++ item ∷ []) call_id
      ≡ next_call_state item call_id (call_state_from state items call_id)
unfolding call_state_from
call_state_from-append state [] item call_id = refl
call_state_from-append state (first ∷ items) item call_id =
    call_state_from-append (next_call_state first call_id state) items item call_id

stays :
    (item : WorkingItem) (call_id : String) (o : Option CallState)
    → is_some o ≡ true
    → is_some (next_call_state item call_id o) ≡ true
stays item call_id (some s) h = next_call_state-is_some item call_id s
stays item call_id none h = cc h

pub is_recorded-append :
    (items : List WorkingItem) (item : WorkingItem) (call_id : String)
    → is_recorded items call_id ≡ true
    → is_recorded (items ++ item ∷ []) call_id ≡ true
unfolding is_recorded call_state
is_recorded-append items item call_id h =
    rw (call_state_from-append none items item call_id) (stays item call_id _ h)

same_id : (call_id : String) → json_eq (str call_id) (str call_id) ≡ true
unfolding json_eq
same_id call_id = eq_refl call_id

starts :
    (n : ℕ) (fields : Fields) (call_id : String) (o : Option CallState)
    → get_value "call_id" fields ≡ str call_id
    → is_some (
        next_call_state
          (record { sequence = n; kind = "capability_call"; fields = fields })
          call_id
          o)
      ≡ true
unfolding next_call_state mem
starts n fields call_id none h = rw h (rw (same_id call_id) refl)
starts n fields call_id (some s) h = rw h (rw (same_id call_id) refl)

-- An item of kind `capability_call` records the call whose id it holds.
pub recorded_by :
    (items : List WorkingItem) (n : ℕ) (fields : Fields) (call_id : String)
    → get_value "call_id" fields ≡ str call_id
    → is_recorded
        (items ++ record { sequence = n; kind = "capability_call"; fields = fields } ∷ [])
        call_id
      ≡ true
unfolding is_recorded call_state
recorded_by items n fields call_id h =
    rw (call_state_from-append none items _ call_id) (starts n fields call_id _ h)

pub append_working_item-same :
    (text : JsonText) (items : List WorkingItem) (kind : String) (fields : Fields)
    → Ensures
        (λ combined.
          combined
          ≡ items ++ record { sequence = suc (length items); kind = kind; fields = fields } ∷ [])
        (append_working_item text items kind fields)
unfolding append_working_item
append_working_item-same text items kind fields =
    Ensures-then (validate_item text _) _ (λ v. check_items-same text _)
