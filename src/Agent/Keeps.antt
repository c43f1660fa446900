-- ===== src/Agent/Keeps.antt =====
-- The actions of a turn that execute no capability: the calls that were executed stay recorded, in the
-- transcript and in what was stored of it.
use ai_odoo_assistant.Prelude.{
  suc, Bool, true, false, Option, none, some, String, List, [], ◌∷◌, ◌++◌, All, length, ◌≡◌, refl,
  if◌then◌else◌,
}
use ai_odoo_assistant.Prelude.Json.{Fields, Items}
use ai_odoo_assistant.Prelude.Result.{Result, ok, err}
use ai_odoo_assistant.Agent.Budgets.{Remaining}
use ai_odoo_assistant.Agent.Transcript.{WorkingItem, append_working_item, transcript_payload}
use ai_odoo_assistant.Agent.Calls.{is_recorded, is_recorded-append, append_working_item-same}
use ai_odoo_assistant.Agent.Host.{
  Storing, stored, turn_error, other_error, Event, asked, executed, persisted, unpersisted,
  looked_for_cancellation, work_started, telemetry, History, AgentHost, ServiceState, M, continue,
  pure, raise, lift, cases, ◌>>=◌, ◌>>◌, items_now, history_now, work_is_started, set_items,
  start_work, emit,
}
use ai_odoo_assistant.Agent.Service.{try_append, keep, finish_storing, persist}

-- The ids of the calls executed, newest first.
unfoldable pub executed_ids : History → List String
executed_ids [] = []
executed_ids (executed call_id capability arguments ∷ h) = call_id ∷ executed_ids h
executed_ids (_ ∷ h) = executed_ids h

-- The transcript that was stored last.
unfoldable pub stored_items : History → List WorkingItem
stored_items [] = []
stored_items (persisted items ∷ h) = items
stored_items (_ ∷ h) = stored_items h

abbrev pub AllRecorded : List WorkingItem → List String → Type 0
AllRecorded items = All (λ id. is_recorded items id ≡ true)

-- The calls executed are `ids`, and both transcripts record them.
pub record Holds (ids : List String) (s : ServiceState) : Type 0 where
  pub executed_now : executed_ids s.history ≡ ids
  pub in_transcript : AllRecorded s.working_items ids
  pub in_store : AllRecorded (stored_items s.history) ids

pub record Keeps {A : Type 0} (m : M A) : Type 0 where
  pub at : (ids : List String) (s : ServiceState) → Holds ids s → Holds ids (m s).1

module _ {A B : Type 0} where
  pub Keeps-bind : (m : M A) (f : A → M B) → Keeps m → ((a : A) → Keeps (f a)) → Keeps (m >>= f)
  unfolding ◌>>=◌
  Keeps-bind m f km kf = record { at = λ ids s h. continued ids (m s).0 (m s).1 (km.at ids s h) }
    where
      continued :
          (ids : List String) (r : Result A) (s : ServiceState)
          → Holds ids s
          → Holds ids (continue r f s).1
      continued ids (ok a) s h = (kf a).at ids s h
      continued ids (err code) s h = h

  pub Keeps-then : (m : M A) (n : M B) → Keeps m → Keeps n → Keeps (m >> n)
  unfolding ◌>>◌
  Keeps-then m n km kn = record { at = λ ids s h. continued ids (m s).0 (m s).1 (km.at ids s h) }
    where
      continued :
          (ids : List String) (r : Result A) (s : ServiceState)
          → Holds ids s
          → Holds ids (continue r (λ _. n) s).1
      continued ids (ok a) s h = kn.at ids s h
      continued ids (err code) s h = h

module _ {A : Type 0} where
  pub Keeps-pure : (a : A) → Keeps (pure a)
  unfolding pure
  Keeps-pure a = record { at = λ ids s h. h }

  pub Keeps-raise : (code : String) → Keeps (raise {A = A} code)
  unfolding raise
  Keeps-raise code = record { at = λ ids s h. h }

  pub Keeps-lift : (r : Result A) → Keeps (lift r)
  unfolding lift
  Keeps-lift r = record { at = λ ids s h. h }

  pub Keeps-if : (b : Bool) (x y : M A) → Keeps x → Keeps y → Keeps (if b then x else y)
  Keeps-if true x y p q = p
  Keeps-if false x y p q = q

  pub Keeps-cases {ℓ} :
      {B : Type ℓ} (o : Option B) (n : M A) (f : B → M A)
      → Keeps n
      → ((b : B) → Keeps (f b))
      → Keeps (cases o n f)
  unfolding cases
  Keeps-cases none n f p q = p
  Keeps-cases (some b) n f p q = q b

pub Keeps-items_now : Keeps items_now
unfolding items_now
Keeps-items_now = record { at = λ ids s h. h }

pub Keeps-history_now : Keeps history_now
unfolding history_now
Keeps-history_now = record { at = λ ids s h. h }

pub Keeps-work_is_started : Keeps work_is_started
unfolding work_is_started
Keeps-work_is_started = record { at = λ ids s h. h }

pub Keeps-start_work : Keeps start_work
unfolding start_work
Keeps-start_work = record {
  at = λ ids s h. record {
    executed_now = h.executed_now;
    in_transcript = h.in_transcript;
    in_store = h.in_store;
  };
}

-- Neither a call nor a storing.
unfoldable pub is_quiet : Event → Bool
is_quiet (executed call_id capability arguments) = false
is_quiet (persisted items) = false
is_quiet _ = true

quiet-executed_ids :
    (e : Event) (h : History) → is_quiet e ≡ true → executed_ids (e ∷ h) ≡ executed_ids h
unfolding is_quiet executed_ids
quiet-executed_ids (asked r) h q = refl
quiet-executed_ids unpersisted h q = refl
quiet-executed_ids looked_for_cancellation h q = refl
quiet-executed_ids work_started h q = refl
quiet-executed_ids telemetry h q = refl
quiet-executed_ids (executed i k a) h q = cc
quiet-executed_ids (persisted items) h q = cc

quiet-stored_items :
    (e : Event) (h : History) → is_quiet e ≡ true → stored_items (e ∷ h) ≡ stored_items h
unfolding is_quiet stored_items
quiet-stored_items (asked r) h q = refl
quiet-stored_items unpersisted h q = refl
quiet-stored_items looked_for_cancellation h q = refl
quiet-stored_items work_started h q = refl
quiet-stored_items telemetry h q = refl
quiet-stored_items (executed i k a) h q = cc
quiet-stored_items (persisted items) h q = cc

pub Keeps-emit : (e : Event) → is_quiet e ≡ true → Keeps (emit e)
unfolding emit
Keeps-emit e q = record {
  at = λ ids s h. record {
    executed_now = rw (quiet-executed_ids e s.history q) h.executed_now;
    in_transcript = h.in_transcript;
    in_store = rw (quiet-stored_items e s.history q) h.in_store;
  };
}

pub Keeps-asked : (r : Remaining) → Keeps (emit (asked r))
unfolding is_quiet
Keeps-asked r = Keeps-emit (asked r) refl

pub Keeps-looked : Keeps (emit looked_for_cancellation)
unfolding is_quiet
Keeps-looked = Keeps-emit looked_for_cancellation refl

pub Keeps-started : Keeps (emit work_started)
unfolding is_quiet
Keeps-started = Keeps-emit work_started refl

pub Keeps-telemetry : Keeps (emit telemetry)
unfolding is_quiet
Keeps-telemetry = Keeps-emit telemetry refl

All-append-recorded :
    (items : List WorkingItem) (item : WorkingItem) (ids : List String)
    → AllRecorded items ids
    → AllRecorded (items ++ item ∷ []) ids
All-append-recorded items item [] h = tt
All-append-recorded items item (id ∷ ids) h =
    (is_recorded-append items item id h.0, All-append-recorded items item ids h.1)

module _ (host : AgentHost) where
  pub Keeps-try_append : (kind : String) (fields : Fields) → Keeps (try_append host kind fields)
  unfolding try_append keep items_now ◌>>=◌ ◌>>◌ set_items pure
  Keeps-try_append kind fields = record {
    at = λ ids s h.
        appended ids s h (append_working_item host.text s.working_items kind fields)
          ((append_working_item-same host.text s.working_items kind fields).at);
  }
    where
      appended :
          (ids : List String) (s : ServiceState)
          → Holds ids s
          → (r : Result (List WorkingItem))
          → ((combined : List WorkingItem)
              → r ≡ ok combined
              → combined
                ≡ s.working_items
                  ++ record {
                    sequence = suc (length s.working_items);
                    kind = kind;
                    fields = fields;
                  }
                    ∷ [])
          → Holds ids (keep host r s).1
      appended ids s h (ok combined) e = record {
        executed_now = h.executed_now;
        in_transcript =
            rw (e combined refl) (All-append-recorded s.working_items _ ids h.in_transcript);
        in_store = h.in_store;
      }
      appended ids s h (err code) e = h

  stored_now :
      (ids : List String) (s : ServiceState) (r : Storing)
      → Holds ids s
      → Holds ids (finish_storing host s.working_items r s).1
  unfolding finish_storing emit ◌>>◌ raise executed_ids stored_items
  stored_now ids s stored h = record {
    executed_now = h.executed_now;
    in_transcript = h.in_transcript;
    in_store = h.in_transcript;
  }
  stored_now ids s (turn_error code) h = record {
    executed_now = h.executed_now;
    in_transcript = h.in_transcript;
    in_store = h.in_store;
  }
  stored_now ids s (other_error code message) h = record {
    executed_now = h.executed_now;
    in_transcript = h.in_transcript;
    in_store = h.in_store;
  }

  pub Keeps-persist : Keeps (persist host)
  unfolding persist items_now history_now lift pure cases ◌>>=◌ ◌>>◌
  Keeps-persist = record {
    at = λ ids s h. checked ids s h (transcript_payload host.text s.working_items) host.persist;
  }
    where
      checked :
          (ids : List String) (s : ServiceState)
          → Holds ids s
          → (r : Result Items) (o : Option (History → List WorkingItem → Storing))
          → Holds ids
              (continue r
                (λ payload. history_now >>= λ history. cases o (pure tt) (λ callback.
                  finish_storing host s.working_items (callback history s.working_items)))
                s).1
      checked ids s h (err code) o = h
      checked ids s h (ok payload) none = h
      checked ids s h (ok payload) (some callback) =
          stored_now ids s (callback s.history s.working_items) h

pub ruleset keeping_rules = (
  Keeps-bind, Keeps-then, Keeps-pure, Keeps-raise, Keeps-lift, Keeps-if, Keeps-cases,
  Keeps-items_now, Keeps-history_now, Keeps-work_is_started, Keeps-start_work, Keeps-asked,
  Keeps-looked, Keeps-started, Keeps-telemetry, Keeps-try_append, Keeps-persist,
)
