-- ===== src/Agent/Transcript/RoundTrip.antt =====
-- The transcript stored as JSON and loaded again: `load_working_transcript`, `transcript_payload` and
-- `append_working_item` of addons/odoo_ai_assistant/runtime/agent/working_transcript.py.
use ai_odoo_assistant.Prelude.{
  ℕ, suc, ◌+◌, true, String, List, [], ◌∷◌, ◌++◌, mem, length, ◌≡◌, refl, ap, arith, ==_iff,
}
use ai_odoo_assistant.Prelude.Json.{
  Json, get_value, has_keys, null, bool, int, float, str, arr, obj, pos, Items, nil, cons, Fields,
  get, field_count, json_eq, items_eq,
}
use ai_odoo_assistant.Prelude.Result.{
  ok, Ensures, Ensures-bind, Ensures-ok, Ensures-err, Ensures-if, Ensures-then, Ensures-require,
  require-ok,
}
use ai_odoo_assistant.Agent.Transcript.{
  JsonText, WorkingItem, payload, payloads, load_item, validate_item, validate_call_ids, bounded,
  load_items, check_items, load_working_transcript, load_list, append_working_item, allowed_kinds,
}

module _ (text : JsonText) where
  -- The items are numbered from `n` on, and each passes the check of one item.
  abbrev Numbered : ℕ → List WorkingItem → Type 0
  Numbered n [] = Unit
  Numbered n (item ∷ items) =
      (item.sequence ≡ n) × (validate_item text item ≡ ok tt) × Numbered (suc n) items

  made :
      (n : ℕ) (kind : String) (fields : Fields)
      → Ensures {A = WorkingItem}
          (λ item. item.sequence ≡ n)
          (ok (record { sequence = n; kind = kind; fields = fields }))
  made n kind fields = Ensures-ok (record { sequence = n; kind = kind; fields = fields }) refl

  load_item-sequence : (n : ℕ) (raw : Json) → Ensures (λ item. item.sequence ≡ n) (load_item n raw)
  unfolding load_item
  load_item-sequence n (obj raw) = search (Ensures-require, Ensures-bind, made) depth 30
  load_item-sequence n null = Ensures-err _
  load_item-sequence n (bool b) = Ensures-err _
  load_item-sequence n (int b) = Ensures-err _
  load_item-sequence n (float b k) = Ensures-err _
  load_item-sequence n (str b) = Ensures-err _
  load_item-sequence n (arr b) = Ensures-err _

  load_items-Numbered : (n : ℕ) (raws : Items) → Ensures (Numbered n) (load_items text n raws)
  unfolding load_items
  load_items-Numbered n nil = Ensures-ok [] tt
  load_items-Numbered n (cons raw raws) = Ensures-bind (load_item n raw) _ (λ item e.
      Ensures-then (validate_item text item) _ (λ v.
        Ensures-bind (load_items text (suc n) raws) _ (λ items r. Ensures-ok (item ∷ items) (
          (load_item-sequence n raw).at item e,
          v,
          (load_items-Numbered (suc n) raws).at items r,
        ))))

  int_eq : (n : ℕ) → json_eq (int (pos n)) (int (pos n)) ≡ true
  unfolding json_eq
  int_eq n = (==_iff _ _).1 refl

  kind_allowed :
      (item : WorkingItem) → validate_item text item ≡ ok tt → mem item.kind allowed_kinds ≡ true
  unfolding validate_item
  kind_allowed item v =
      (require-ok (mem item.kind allowed_kinds) "agent_working_item_kind_invalid" _ tt v).0

  load_item-payload :
      (item : WorkingItem)
      → validate_item text item ≡ ok tt
      → load_item item.sequence (payload item) ≡ ok item
  unfolding load_item payload get_value has_keys get field_count
  load_item-payload item v = rw (int_eq item.sequence) (rw (kind_allowed item v) refl)

  load_items-payloads :
      (n : ℕ) (items : List WorkingItem)
      → Numbered n items
      → load_items text n (payloads items) ≡ ok items
  unfolding load_items payloads
  load_items-payloads n [] h = refl
  load_items-payloads n (item ∷ items) h =
      let e : load_item n (payload item) ≡ ok item = rw⁻¹ h.0 (load_item-payload item h.1) in
      rw e (rw h.1 (rw (load_items-payloads (suc n) items h.2) refl))

  Numbered-append :
      (n : ℕ) (items : List WorkingItem) (item : WorkingItem)
      → Numbered n items
      → item.sequence ≡ n + length items
      → validate_item text item ≡ ok tt
      → Numbered n (items ++ item ∷ [])
  Numbered-append n [] item h s v = (omega arith, v, tt)
  Numbered-append n (first ∷ items) item h s v =
      (h.0, h.1, Numbered-append (suc n) items item h.2 (omega arith) v)

  -- What is stored of the items loads as the items.
  unfoldable pub IsStored : List WorkingItem → Type 0
  IsStored items = load_working_transcript text (arr (payloads items)) ≡ ok items

  pub check_items-same :
      (items : List WorkingItem) → Ensures (λ checked. checked ≡ items) (check_items text items)
  unfolding check_items
  check_items-same items =
      Ensures-then (validate_call_ids text items) _
        (λ u. Ensures-then (bounded text _ _ _) _ (λ v. Ensures-ok items refl))

  abbrev IsChecked : List WorkingItem → Type 0
  IsChecked items = Numbered 1 items × (check_items text items ≡ ok items)

  load_list-IsChecked : (raws : Items) → Ensures IsChecked (load_list text (arr raws))
  load_list-IsChecked raws = Ensures-bind (load_items text 1 raws) _ (λ items e. record {
    at = λ checked h.
        let same : checked ≡ items = (check_items-same items).at checked h in
        let again : check_items text items ≡ ok items = cc (h, ap ok same) in
        rw same ((load_items-Numbered 1 raws).at items e, again);
  })

  none-IsStored : IsStored []
  unfolding IsStored load_working_transcript json_eq items_eq payloads
  none-IsStored = refl

  IsChecked-IsStored : (items : List WorkingItem) → IsChecked items → IsStored items
  unfolding IsStored load_working_transcript json_eq items_eq payloads payload
  IsChecked-IsStored [] h = none-IsStored
  IsChecked-IsStored (item ∷ items) h = rw (load_items-payloads 1 (item ∷ items) h.0) h.1

  IsStored-Numbered : (items : List WorkingItem) → IsStored items → Numbered 1 items
  unfolding IsStored load_working_transcript json_eq items_eq payloads
  IsStored-Numbered [] h = tt
  IsStored-Numbered (item ∷ items) h =
      ((load_list-IsChecked (payloads (item ∷ items))).at (item ∷ items) h).0

  load_list-IsStored : (value : Json) → Ensures IsStored (load_list text value)
  load_list-IsStored (arr raws) = record {
    at = λ items h. IsChecked-IsStored items ((load_list-IsChecked raws).at items h);
  }
  load_list-IsStored null = Ensures-err _
  load_list-IsStored (bool b) = Ensures-err _
  load_list-IsStored (int z) = Ensures-err _
  load_list-IsStored (float z k) = Ensures-err _
  load_list-IsStored (str s) = Ensures-err _
  load_list-IsStored (obj fs) = Ensures-err _

  loaded : (value : Json) → Ensures IsStored (load_working_transcript text value)
  unfolding load_working_transcript
  loaded value = Ensures-if _ _ _ (Ensures-ok [] none-IsStored) (load_list-IsStored value)

  -- A value that loads as some items has those items stored as what loads as them again.
  pub load_working_transcript-payloads :
      (value : Json) (items : List WorkingItem)
      → load_working_transcript text value ≡ ok items
      → load_working_transcript text (arr (payloads items)) ≡ ok items
  unfolding IsStored
  load_working_transcript-payloads value = (loaded value).at

  appended :
      (items : List WorkingItem) (kind : String) (fields : Fields)
      → IsStored items
      → Ensures IsStored (append_working_item text items kind fields)
  unfolding append_working_item
  appended items kind fields h =
      let candidate : WorkingItem = record {
        sequence = suc (length items);
        kind = kind;
        fields = fields;
      } in
      Ensures-then (validate_item text candidate) _ (λ v. record {
        at = λ combined c.
            let same = (check_items-same (items ++ candidate ∷ [])).at combined c in
            let numbered : Numbered 1 (items ++ candidate ∷ []) =
              Numbered-append 1 items candidate (IsStored-Numbered items h) (omega arith) v in
            rw same (IsChecked-IsStored (items ++ candidate ∷ []) (numbered, cc (c, ap ok same)));
      })

  -- Where items load back from what is stored of them, and an item is appended to them, the items
  -- with the new one load back from what is stored of them.
  pub append_working_item-payloads :
      (items combined : List WorkingItem) (kind : String) (fields : Fields)
      → load_working_transcript text (arr (payloads items)) ≡ ok items
      → append_working_item text items kind fields ≡ ok combined
      → load_working_transcript text (arr (payloads combined)) ≡ ok combined
  unfolding IsStored
  append_working_item-payloads items combined kind fields h =
      (appended items kind fields h).at combined
