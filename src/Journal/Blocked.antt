-- ===== src/Journal/Blocked.antt =====
-- What the table's constraint refuses: a second row for a step that was rolled back.
use ai_odoo_assistant.Prelude.{
  ℕ, String, Bool, true, false, ◌&&◌, Option, none, some, List, [], ◌∷◌, mem, str_eq, eq_iff, ◌≡◌,
  ◌≢◌, sym, ◌∙◌, ap, arith, Bool-cases, inl, inr,
}
use ai_odoo_assistant.Prelude.Json.{Json}
use ai_odoo_assistant.Prelude.Result.{ok}
use ai_odoo_assistant.Plan.{Step, RecoveryUnit, EffectPlan, step_ids_of}
use ai_odoo_assistant.Journal.{Row, TurnIdentity, is_of, is_entry, find_row}
use ai_odoo_assistant.Journal.Sync.{is_live, live_ids, sync_row, sync_steps, sync_plan}
use ai_odoo_assistant.Journal.Rows.{is_entry-eq}
use ai_odoo_assistant.Journal.Keeps.{sync_steps-Pass, Pass-Keeps, sync_plan-Synced}
use ai_odoo_assistant.Journal.Values.{row_values-IsFor}
use ai_odoo_assistant.Journal.Unique.{IsUnique}

abbrev HasLive : ℕ → String → List Row → Type 0
HasLive turn id journal = (r : Row) × (find_row turn id journal ≡ some r) × (is_live r.state ≡ true)

live_behind :
    (turn : ℕ) (id : String) (q : Row) (rows : List Row)
    → find_row q.turn_id q.step_id rows ≡ none
    → HasLive turn id rows
    → HasLive turn id (q ∷ rows)
unfolding find_row
live_behind turn id q rows alone (r, found, alive) = elim (Bool-cases (is_entry turn id q)) [
  | inl same ↦
      let at = is_entry-eq turn id q same in
      let none_there = rw (at.0, at.1) at alone in absurd (cc (sym none_there ∙ found))
  | inr other ↦ (r, rw other found, alive)
]

-- A step id of the turn's live rows has a live row.
live_ids-live :
    (turn : ℕ) (id : String) (journal : List Row)
    → IsUnique journal
    → mem id (live_ids turn journal) ≡ true
    → HasLive turn id journal
unfolding live_ids mem find_row
live_ids-live turn id [] unique h = cc h
live_ids-live turn id (q ∷ rows) unique h = elim (Bool-cases (is_of turn q && is_live q.state)) [
  | inl live ↦
      let k = rw live at h in
      elim (Bool-cases (str_eq q.step_id id)) [
        | inl same ↦
            let of_turn : is_of turn q ≡ true = ground arith in
            (q, rw (of_turn, same), ground arith)
        | inr other ↦
            live_behind turn id q rows unique.0
              (live_ids-live turn id rows unique.1 (rw other at k))
      ]
  | inr dead ↦
      let k = rw dead at h in
      live_behind turn id q rows unique.0 (live_ids-live turn id rows unique.1 k)
]

sync_row-blocked :
    (existing : Bool) (values : Row) (found : Option Row) (journal journal' : List Row) (r : Row)
    → existing ≡ false
    → found ≡ some r
    → sync_row existing values found journal ≢ ok journal'
sync_row-blocked false values none journal journal' r e f h = cc f
sync_row-blocked false values (some q) journal journal' r e f h = cc h
sync_row-blocked true values found journal journal' r e f h = cc e

module _ (encoded_length : Json → Option ℕ) (turn : TurnIdentity) (units : List RecoveryUnit)
    (expires_at : ℕ) (existing : List String) where
  -- A step that has a row which is not live.
  sync_steps-blocked :
      (steps : List Step) (seen seen' : List String) (journal journal' : List Row) (id : String)
      (r : Row)
      → mem id existing ≡ false
      → mem id (step_ids_of steps) ≡ true
      → find_row turn.id id journal ≡ some r
      → sync_steps encoded_length turn units expires_at existing steps seen journal
        ≢ ok (seen', journal')
  unfolding mem
  sync_steps-blocked [] seen seen' journal journal' id r away planned found h = cc planned
  sync_steps-blocked (s ∷ steps) seen seen' journal journal' id r away planned found h =
      let pass =
        sync_steps-Pass encoded_length turn units expires_at existing s steps seen seen' journal
          journal' h in
      let named =
        (row_values-IsFor encoded_length turn units expires_at s).at pass.values pass.made in
      elim (Bool-cases (str_eq s.step_id id)) [
        | inl here ↦
            let at : pass.values.step_id ≡ id = named.step_id ∙ (eq_iff s.step_id id).0 here in
            sync_row-blocked _ pass.values _ journal pass.next r
              (ap (λ x. mem x existing) at ∙ away)
              (ap (λ n. find_row n pass.values.step_id journal) named.turn_id
                ∙ ap (λ x. find_row turn.id x journal) at
                ∙ found)
              pass.synced
        | inr other ↦
            let (r', found', c) =
              (Pass-Keeps encoded_length turn units expires_at existing s steps seen seen' journal
                  journal' pass).later
                turn.id id r found in
            sync_steps-blocked steps (pass.values.step_id ∷ seen) seen' pass.next journal' id r'
              away (rw other at planned) found' pass.rest
      ]

-- Where each step of a turn has one row, a plan with a step whose row was rolled back, or reverted,
-- cannot be synchronised: such a row is not among those that are updated, and a second row for the
-- step is refused by the table.
pub sync_plan-blocked :
    (encoded_length : Json → Option ℕ) (turn : TurnIdentity) (plan : EffectPlan) (now : ℕ)
    (journal journal' : List Row) (id : String) (r : Row)
    → IsUnique journal
    → mem id (step_ids_of plan.steps) ≡ true
    → find_row turn.id id journal ≡ some r
    → is_live r.state ≡ false
    → sync_plan encoded_length turn plan now journal ≢ ok journal'
sync_plan-blocked encoded_length turn plan now journal journal' id r unique planned found dead h =
    let parts = sync_plan-Synced encoded_length turn plan now journal journal' h in
    elim (Bool-cases (mem id (live_ids turn.id journal))) [
      | inl live ↦
          let (q, found', alive) = live_ids-live turn.id id journal unique live in
          let same : q ≡ r = cc (sym found' ∙ found) in
          let alive' : is_live r.state ≡ true = rw (← same) alive in cc (sym alive' ∙ dead)
      | inr away ↦
          sync_steps-blocked encoded_length turn plan.recovery_units _ _ plan.steps [] parts.seen
            journal journal' id r away planned found parts.looped
    ]
