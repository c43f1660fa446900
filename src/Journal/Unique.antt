-- ===== src/Journal/Unique.antt =====
-- One row for each step of a turn, and what the table's constraint then refuses.
use ai_odoo_assistant.Prelude.{
  ℕ, String, Bool, true, false, Option, none, some, List, [], ◌∷◌, ◌++◌, map, mem, str_eq, eq_iff,
  ◌==◌, ==_iff, ◌≡◌, refl, sym, ◌∙◌, Bool-cases, inl, inr,
}
use ai_odoo_assistant.Prelude.Json.{Json}
use ai_odoo_assistant.Prelude.Result.{ok, then-ok}
use ai_odoo_assistant.Plan.{Step, RecoveryUnit, EffectPlan}
use ai_odoo_assistant.Journal.{Row, TurnIdentity, is_entry, find_row, put_row}
use ai_odoo_assistant.Journal.Sync.{validate_binding, updated_row, sync_row, sync_steps, sync_plan}
use ai_odoo_assistant.Journal.Rows.{is_entry-eq, find_row-append_none}
use ai_odoo_assistant.Journal.Keeps.{sync_steps-Pass, sync_plan-Synced}

-- No two rows are of the same step of the same turn.
abbrev pub IsUnique : List Row → Type 0
IsUnique [] = Unit {0}
IsUnique (r ∷ rows) = (find_row r.turn_id r.step_id rows ≡ none) × IsUnique rows

entry-of :
    (r : Row) (turn : ℕ) (step : String)
    → r.turn_id ≡ turn
    → r.step_id ≡ step
    → is_entry turn step r ≡ true
entry-of r turn step p q =
    let first : (r.turn_id == turn) ≡ true = (==_iff r.turn_id turn).1 p in
    let second : str_eq r.step_id step ≡ true = (eq_iff r.step_id step).1 q in rw (first, second)

-- Two rows are each an entry of the other's step, or neither is.
entry_away :
    (q r : Row) → is_entry q.turn_id q.step_id r ≡ false → is_entry r.turn_id r.step_id q ≡ false
entry_away q r h = elim (Bool-cases (is_entry r.turn_id r.step_id q)) [
  | inl same ↦
      let at = is_entry-eq r.turn_id r.step_id q same in
      cc (entry-of r q.turn_id q.step_id (sym at.0) (sym at.1), h)
  | inr other ↦ other
]

find_row-none :
    (turn : ℕ) (step : String) (r : Row) (rows : List Row)
    → find_row turn step (r ∷ rows) ≡ none
    → (is_entry turn step r ≡ false) × (find_row turn step rows ≡ none)
unfolding find_row
find_row-none turn step r rows h = elim (Bool-cases (is_entry turn step r)) [
  | inl same ↦ let k = rw same at h in cc k
  | inr other ↦ (other, rw other at h)
]

find_row-skip :
    (turn : ℕ) (step : String) (r : Row) (rows : List Row)
    → is_entry turn step r ≡ false
    → find_row turn step (r ∷ rows) ≡ find_row turn step rows
unfolding find_row
find_row-skip turn step r rows h = rw h

find_row-put_row-none :
    (new : Row) (turn : ℕ) (step : String) (rows : List Row)
    → find_row turn step rows ≡ none
    → find_row turn step (put_row new rows) ≡ none
unfolding put_row
find_row-put_row-none new turn step [] h = h
find_row-put_row-none new turn step (r ∷ rows) h =
    let (away, rest) = find_row-none turn step r rows h in
    elim (Bool-cases (is_entry new.turn_id new.step_id r)) [
      | inl same ↦
          let at = is_entry-eq new.turn_id new.step_id r same in
          rw same (find_row-skip turn step new rows (rw (at.0, at.1) at away) ∙ rest)
      | inr other ↦
          rw other
            (find_row-skip turn step r _ away ∙ find_row-put_row-none new turn step rows rest)
    ]

put_row-IsUnique : (new : Row) (rows : List Row) → IsUnique rows → IsUnique (put_row new rows)
unfolding put_row
put_row-IsUnique new [] h = h
put_row-IsUnique new (r ∷ rows) h = elim (Bool-cases (is_entry new.turn_id new.step_id r)) [
  | inl same ↦
      let at = is_entry-eq new.turn_id new.step_id r same in rw same (rw (at.0, at.1) at h.0, h.1)
  | inr other ↦
      rw other
        (find_row-put_row-none new r.turn_id r.step_id rows h.0, put_row-IsUnique new rows h.1)
]

append-IsUnique :
    (v : Row) (rows : List Row)
    → find_row v.turn_id v.step_id rows ≡ none
    → IsUnique rows
    → IsUnique (rows ++ v ∷ [])
unfolding find_row
append-IsUnique v [] h k = (refl, tt)
append-IsUnique v (r ∷ rows) h k =
    let (away, rest) = find_row-none v.turn_id v.step_id r rows h in
    (
      find_row-append_none r.turn_id r.step_id rows (v ∷ []) k.0
          ∙ find_row-skip r.turn_id r.step_id v [] (entry_away v r away),
      append-IsUnique v rows rest k.1,
    )

sync_row-IsUnique :
    (existing : Bool) (values : Row) (found : Option Row) (journal journal' : List Row)
    → find_row values.turn_id values.step_id journal ≡ found
    → sync_row existing values found journal ≡ ok journal'
    → IsUnique journal
    → IsUnique journal'
sync_row-IsUnique false values none journal journal' e h k =
    let q : journal ++ values ∷ [] ≡ journal' = cc h in
    rw (← q) (append-IsUnique values journal e k)
sync_row-IsUnique false values (some row) journal journal' e h k = cc h
sync_row-IsUnique true values none journal journal' e h k = cc h
sync_row-IsUnique true values (some row) journal journal' e h k =
    let (bound, written) = then-ok (validate_binding row values) _ journal' h in
    let q : put_row (updated_row row values) journal ≡ journal' = cc written in
    rw (← q) (put_row-IsUnique (updated_row row values) journal k)

-- Changing rows otherwise than in their turn and step.
module _ (f : Row → Row) (same_turn : (r : Row) → (f r).turn_id ≡ r.turn_id)
    (same_step : (r : Row) → (f r).step_id ≡ r.step_id) where
  find_row-map-none :
      (turn : ℕ) (step : String) (rows : List Row)
      → find_row turn step rows ≡ none
      → find_row turn step (map f rows) ≡ none
  find_row-map-none turn step [] h = h
  find_row-map-none turn step (r ∷ rows) h =
      let (away, rest) = find_row-none turn step r rows h in
      let away' : is_entry turn step (f r) ≡ false = rw (same_turn r, same_step r) away in
      find_row-skip turn step (f r) _ away' ∙ find_row-map-none turn step rows rest

  pub map-IsUnique : (rows : List Row) → IsUnique rows → IsUnique (map f rows)
  map-IsUnique [] h = h
  map-IsUnique (r ∷ rows) h = (
    rw (same_turn r, same_step r) (find_row-map-none r.turn_id r.step_id rows h.0),
    map-IsUnique rows h.1,
  )

module _ (encoded_length : Json → Option ℕ) (turn : TurnIdentity) (units : List RecoveryUnit)
    (expires_at : ℕ) (existing : List String) where
  sync_steps-IsUnique :
      (steps : List Step) (seen seen' : List String) (journal journal' : List Row)
      → sync_steps encoded_length turn units expires_at existing steps seen journal
        ≡ ok (seen', journal')
      → IsUnique journal
      → IsUnique journal'
  unfolding sync_steps
  sync_steps-IsUnique [] seen seen' journal journal' h k =
      let q : journal ≡ journal' = cc h in rw (← q) k
  sync_steps-IsUnique (s ∷ steps) seen seen' journal journal' h k =
      let pass =
        sync_steps-Pass encoded_length turn units expires_at existing s steps seen seen' journal
          journal' h in
      sync_steps-IsUnique steps (pass.values.step_id ∷ seen) seen' pass.next journal' pass.rest (
        sync_row-IsUnique (mem pass.values.step_id existing) pass.values _ journal pass.next refl
          pass.synced k)

-- Synchronising keeps one row for each step of a turn.
pub sync_plan-IsUnique :
    (encoded_length : Json → Option ℕ) (turn : TurnIdentity) (plan : EffectPlan) (now : ℕ)
    (journal journal' : List Row)
    → IsUnique journal
    → sync_plan encoded_length turn plan now journal ≡ ok journal'
    → IsUnique journal'
sync_plan-IsUnique encoded_length turn plan now journal journal' unique h =
    let parts = sync_plan-Synced encoded_length turn plan now journal journal' h in
    sync_steps-IsUnique encoded_length turn plan.recovery_units _ _ plan.steps [] parts.seen journal
      journal' parts.looped unique
