-- ===== src/Agent/Once.antt =====
-- A capability call is executed once: a turn stores the call before it executes it, and executes no
-- call that its transcript records, also after any number of restarts from what was stored.
use ai_odoo_assistant.Prelude.{
  Bool, true, false, some, String, List, [], ◌∷◌, suc, ◌≤◌, length, arith, mem, ◌≡◌, refl, ap,
  str_eq, eq_iff, Bool-cases, Option-cases, inl, inr,
}
use ai_odoo_assistant.Prelude.Json.{Fields, Items, str, obj, field, end, get_value, get}
use ai_odoo_assistant.Prelude.Result.{Result, ok, err}
use ai_odoo_assistant.Agent.Budgets.{AgentBudgetSet}
use ai_odoo_assistant.Agent.TaskPlan.{all_different}
use ai_odoo_assistant.Agent.Transcript.{WorkingItem, append_working_item, transcript_payload}
use ai_odoo_assistant.Agent.Accounting.{call_state}
use ai_odoo_assistant.Agent.Calls.{is_recorded, recorded_by, append_working_item-same}
use ai_odoo_assistant.Agent.Host.{
  reasoning_capability_call, Storing, stored, turn_error, other_error, executed,
  looked_for_cancellation, CapabilityDefinition, AgentHost, History, ServiceState, M, continue,
  pure, raise, lift, cases, ◌>>=◌, ◌>>◌, items_now, history_now, set_items, emit,
}
use ai_odoo_assistant.Agent.Service.{
  try_append, keep, append, finish_storing, persist, record_item, record_decision,
  ensure_not_cancelled,
}
use ai_odoo_assistant.Agent.Loop.{Counters, Round, receive, perform, call}
use ai_odoo_assistant.Agent.Keeps.{executed_ids, stored_items, AllRecorded, Holds}
use ai_odoo_assistant.Agent.Quiet.{Keeps-record_decision, Keeps-append, Keeps-receive}

-- What a restart relies on: no call was executed twice, and every call executed is recorded in the
-- transcript and in what was stored of it.
pub record IsResumable (s : ServiceState) : Type 0 where
  pub distinct : all_different (executed_ids s.history) ≡ true
  pub in_transcript : AllRecorded s.working_items (executed_ids s.history)
  pub in_store : AllRecorded (stored_items s.history) (executed_ids s.history)

pub Holds-IsResumable :
    (ids : List String) (s : ServiceState) → all_different ids ≡ true → Holds ids s → IsResumable s
Holds-IsResumable ids s d h = record {
  distinct = rw h.executed_now d;
  in_transcript = rw h.executed_now h.in_transcript;
  in_store = rw h.executed_now h.in_store;
}

pub IsResumable-Holds : (s : ServiceState) → IsResumable s → Holds (executed_ids s.history) s
IsResumable-Holds s r = record {
  executed_now = refl;
  in_transcript = r.in_transcript;
  in_store = r.in_store;
}

-- A call that the transcript does not record is none of the calls that it records.
fresh :
    (items : List WorkingItem) (ids : List String) (id : String)
    → AllRecorded items ids
    → is_recorded items id ≡ false
    → mem id ids ≡ false
unfolding mem
fresh items [] id h n = refl
fresh items (x ∷ ids) id h n = elim (Bool-cases (str_eq x id)) [
  | inl e ↦
      let same : x ≡ id = (eq_iff x id).0 e in
      let again : is_recorded items id ≡ true = rw⁻¹ same h.0 in cc (again, n)
  | inr e ↦ rw e (fresh items ids id h.1 n)
]

-- After it, where it returns, both transcripts record the call.
abbrev Readied : List String → String → Result (Unit {0}) × ServiceState → Type 0
Readied ids id (ok u, s) =
    Holds ids s
    × (is_recorded s.working_items id ≡ true)
    × (is_recorded (stored_items s.history) id ≡ true)
Readied ids id (err code, s) = Holds ids s

module _ (host : AgentHost) (callback : History → List WorkingItem → Storing)
    (persists : host.persist ≡ some callback) where
  stored_ready :
      (ids : List String) (id : String) (s : ServiceState) (r : Storing)
      → Holds ids s
      → is_recorded s.working_items id ≡ true
      → Readied ids id (finish_storing host s.working_items r s)
  unfolding finish_storing emit ◌>>◌ raise executed_ids stored_items
  stored_ready ids id s stored h k = (
    record {
      executed_now = h.executed_now;
      in_transcript = h.in_transcript;
      in_store = h.in_transcript;
    },
    k,
    k,
  )
  stored_ready ids id s (turn_error code) h k = record {
    executed_now = h.executed_now;
    in_transcript = h.in_transcript;
    in_store = h.in_store;
  }
  stored_ready ids id s (other_error code message) h k = record {
    executed_now = h.executed_now;
    in_transcript = h.in_transcript;
    in_store = h.in_store;
  }

  persist_ready :
      (ids : List String) (id : String) (s : ServiceState)
      → Holds ids s
      → is_recorded s.working_items id ≡ true
      → Readied ids id (persist host s)
  unfolding persist items_now history_now lift pure cases finish_storing ◌>>=◌ ◌>>◌
  persist_ready ids id s h k = rw persists (checked (transcript_payload host.text s.working_items))
    where
      checked :
          (r : Result Items)
          → Readied ids id (
              continue r
                (λ payload. history_now >>= λ history.
                  finish_storing host s.working_items (callback history s.working_items))
                s)
      checked (err code) = h
      checked (ok payload) = stored_ready ids id s (callback s.history s.working_items) h k

  -- The item that records the call, stored.
  record_ready :
      (fields : Fields) (id : String) (ids : List String) (s : ServiceState)
      → get_value "call_id" fields ≡ str id
      → Holds ids s
      → Readied ids id (record_item host "capability_call" fields s)
  unfolding record_item append try_append keep items_now set_items pure raise cases ◌>>=◌ ◌>>◌
  record_ready fields id ids s e h =
      appended (append_working_item host.text s.working_items "capability_call" fields)
        ((Keeps-append host "capability_call" fields).at ids s h)
        (λ combined k.
          rw
            ((append_working_item-same host.text s.working_items "capability_call" fields).at
              combined k)
            (recorded_by s.working_items _ fields id e))
    where
      appended :
          (r : Result (List WorkingItem))
          → Holds ids ((keep host r >>= λ error. cases error (pure tt) raise) s).1
          → ((combined : List WorkingItem) → r ≡ ok combined → is_recorded combined id ≡ true)
          → Readied ids id
              (((keep host r >>= λ error. cases error (pure tt) raise) >> persist host) s)
      appended (ok combined) h k =
          persist_ready ids id
            (record {
              working_items = combined;
              is_work_started = s.is_work_started;
              history = s.history;
            })
            h (k combined refl)
      appended (err code) h k = h

-- Resumable, with at most one call more than `ids`.
pub record Extends (ids : List String) (s : ServiceState) : Type 0 where
  pub resumable : IsResumable s
  pub at_most : length (executed_ids s.history) ≤ suc (length ids)

extended :
    (ids more : List String) (s : ServiceState)
    → all_different more ≡ true
    → length more ≤ suc (length ids)
    → Holds more s
    → Extends ids s
extended ids more s d l h = record {
  resumable = Holds-IsResumable more s d h;
  at_most = rw h.executed_now l;
}

abbrev call_fields : (call_id capability : String) → Fields → Fields
call_fields call_id capability arguments =
    field "call_id" (str call_id)
      (field "capability" (str capability) (field "arguments" (obj arguments) end))

module _ (host : AgentHost) (budgets : AgentBudgetSet) (allow_plan_proposals : Bool)
    (reasoning planning : List CapabilityDefinition)
    (callback : History → List WorkingItem → Storing)
    (persists : host.persist ≡ some callback) where
  abbrev executing : Counters → (call_id capability : String) → Fields → M Round
  executing c call_id capability arguments =
      ensure_not_cancelled host
      >> (history_now >>= λ history.
          emit (executed call_id capability arguments)
          >> receive host budgets allow_plan_proposals reasoning planning c call_id capability
              (host.execute history capability arguments))

  -- The execution of a call that both transcripts record, and that was not executed before.
  executing-Extends :
      (ids : List String) (c : Counters) (call_id capability : String) (arguments : Fields)
      (s : ServiceState)
      → all_different ids ≡ true
      → mem call_id ids ≡ false
      → Readied ids call_id (ok tt, s)
      → Extends ids (executing c call_id capability arguments s).1
  unfolding ensure_not_cancelled history_now ◌>>=◌ ◌>>◌ emit raise pure executed_ids stored_items
      all_different
  executing-Extends ids c call_id capability arguments s d m r =
      elim (Bool-cases (host.is_cancelled s.history)) [
        | inl e ↦ rw e (extended ids ids _ d (omega arith) looked)
        | inr e ↦ rw e (
            extended ids (call_id ∷ ids) _ (rw m d) (omega arith) (
              (Keeps-receive host budgets allow_plan_proposals reasoning planning c call_id
                  capability _).at
                (call_id ∷ ids) _ called))
      ]
    where
      looked : Holds ids (record {
        working_items = s.working_items;
        is_work_started = s.is_work_started;
        history = looked_for_cancellation ∷ s.history;
      })
      looked = record {
        executed_now = r.0.executed_now;
        in_transcript = r.0.in_transcript;
        in_store = r.0.in_store;
      }

      called : Holds (call_id ∷ ids) (record {
        working_items = s.working_items;
        is_work_started = s.is_work_started;
        history = executed call_id capability arguments ∷ looked_for_cancellation ∷ s.history;
      })
      called = record {
        executed_now = ap (λ x. call_id ∷ x) r.0.executed_now;
        in_transcript = (r.1, r.0.in_transcript);
        in_store = (r.2, r.0.in_store);
      }

  perform-Extends :
      (c : Counters) (call_id capability : String) (arguments : Fields) (s : ServiceState)
      → IsResumable s
      → is_recorded s.working_items call_id ≡ false
      → Extends
          (executed_ids s.history)
          (perform host budgets allow_plan_proposals reasoning planning c call_id capability
            arguments s).1
  unfolding perform ◌>>◌ get_value get
  perform-Extends c call_id capability arguments s r n =
      recorded (record_decision host (reasoning_capability_call call_id capability arguments) s).0 _
        ((Keeps-record_decision host (reasoning_capability_call call_id capability arguments)).at
          ids s (IsResumable-Holds s r))
    where
      ids : List String
      ids = executed_ids s.history

      is_fresh : mem call_id ids ≡ false
      is_fresh = fresh s.working_items ids call_id r.in_transcript n

      stored_call :
          (u : Result (Unit {0})) (t : ServiceState)
          → Readied ids call_id (u, t)
          → Extends ids (continue u (λ v. executing c call_id capability arguments) t).1
      stored_call (ok u) t k =
          executing-Extends ids c call_id capability arguments t r.distinct is_fresh k
      stored_call (err code) t k = extended ids ids t r.distinct (omega arith) k

      recorded :
          (u : Result (Unit {0})) (t : ServiceState)
          → Holds ids t
          → Extends ids
              (continue u
                (λ v.
                  record_item host "capability_call" (call_fields call_id capability arguments)
                  >> executing c call_id capability arguments)
                t).1
      recorded (ok u) t k =
          stored_call
            (record_item host "capability_call" (call_fields call_id capability arguments) t).0 _
            (record_ready host callback persists (call_fields call_id capability arguments) call_id
              ids t refl k)
      recorded (err code) t k = extended ids ids t r.distinct (omega arith) k

  pub call-Extends :
      (c : Counters) (call_id capability : String) (arguments : Fields) (s : ServiceState)
      → IsResumable s
      → Extends
          (executed_ids s.history)
          (call host budgets allow_plan_proposals reasoning planning c call_id capability arguments
            s).1
  unfolding call items_now cases raise is_recorded ◌>>=◌
  call-Extends c call_id capability arguments s r =
      elim (Option-cases (call_state s.working_items call_id)) [
        | inl e ↦ rw e (perform-Extends c call_id capability arguments s r (rw e refl))
        | inr (k, e) ↦ rw e (record { resumable = r; at_most = omega arith })
      ]
