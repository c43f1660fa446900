-- ===== src/Journal/Reflects.antt =====
-- What the journal holds of a plan that was synchronised.
use ai_odoo_assistant.Prelude.{
  ℕ, String, Bool, true, false, Option, none, some, List, [], ◌∷◌, ◌++◌, str_eq, All, eq_iff, ◌≡◌,
  refl, sym, ◌∙◌, ap, arith,
}
use ai_odoo_assistant.Prelude.Json.{Json}
use ai_odoo_assistant.Prelude.Result.{ok, then-ok}
use ai_odoo_assistant.Plan.{Step, RecoveryUnit, EffectPlan, step_completed}
use ai_odoo_assistant.Journal.{Row, EffectState, verified, TurnIdentity, find_row, put_row}
use ai_odoo_assistant.Journal.Sync.{
  sync_row, sync_steps, sync_plan, validate_binding, updated_row, kept_state,
}
use ai_odoo_assistant.Journal.Failure.{is_settled}
use ai_odoo_assistant.Journal.Rows.{
  find_row-is_entry, find_row-append_none, find_row-put_row_same, find_row-own,
}
use ai_odoo_assistant.Journal.Keeps.{Keeps, sync_steps-Pass, sync_steps-Keeps, sync_plan-Synced}
use ai_odoo_assistant.Journal.Values.{IsFor, row_values-IsFor}

-- The journal has a row for the step, bound to it, which is settled if the step is completed.
pub record Reflects (turn : TurnIdentity) (journal : List Row) (s : Step) : Type 0 where
  pub row : Row
  pub found : find_row turn.id s.step_id journal ≡ some row
  pub unit_id : row.unit_id ≡ s.recovery_unit_id
  pub capability : row.capability ≡ s.capability
  pub capability_version : row.capability_version ≡ s.version
  pub settled : s.state ≡ step_completed → is_settled row.state ≡ true

-- A later journal reflects the step too.
Keeps-Reflects :
    (turn : TurnIdentity) (journal journal' : List Row) (s : Step)
    → Keeps journal journal'
    → Reflects turn journal s
    → Reflects turn journal' s
Keeps-Reflects turn journal journal' s keeps old =
    let (row, found, c) = keeps.later turn.id s.step_id old.row old.found in
    record {
      row = row;
      found = found;
      unit_id = c.unit_id ∙ old.unit_id;
      capability = c.capability ∙ old.capability;
      capability_version = c.capability_version ∙ old.capability_version;
      settled = λ h. let k = old.settled h in rw (c.settled k) k;
    }

-- What a write or a creation leaves at the step, bound to the values.
record Placed (values : Row) (journal : List Row) : Type 0 where
  row : Row
  found : find_row values.turn_id values.step_id journal ≡ some row
  unit_id : row.unit_id ≡ values.unit_id
  capability : row.capability ≡ values.capability
  capability_version : row.capability_version ≡ values.capability_version
  settled : is_settled values.state ≡ true → is_settled row.state ≡ true

kept_state-target :
    (old target : EffectState)
    → is_settled target ≡ true
    → is_settled (kept_state old target) ≡ true
kept_state-target EffectState.reverted target h = refl
kept_state-target verified target h = refl
kept_state-target EffectState.skipped target h = refl
kept_state-target old target h = h

module _ (row values : Row) (h : validate_binding row values ≡ ok tt) where
  bound-unit_id : row.unit_id ≡ values.unit_id
  unfolding validate_binding
  bound-unit_id =
      let e : str_eq row.unit_id values.unit_id ≡ true = ground arith in
      (eq_iff row.unit_id values.unit_id).0 e

  bound-capability : row.capability ≡ values.capability
  unfolding validate_binding
  bound-capability =
      let e : str_eq row.capability values.capability ≡ true = ground arith in
      (eq_iff row.capability values.capability).0 e

  bound-capability_version : row.capability_version ≡ values.capability_version
  unfolding validate_binding
  bound-capability_version =
      let e : str_eq row.capability_version values.capability_version ≡ true = ground arith in
      (eq_iff row.capability_version values.capability_version).0 e

updated-Placed :
    (values row : Row) (journal : List Row)
    → find_row values.turn_id values.step_id journal ≡ some row
    → validate_binding row values ≡ ok tt
    → Placed values (put_row (updated_row row values) journal)
unfolding updated_row
updated-Placed values row journal e bound =
    let at = find_row-is_entry values.turn_id values.step_id journal row e in
    let own : find_row row.turn_id row.step_id journal ≡ some row =
      ap (λ n. find_row n row.step_id journal) at.0
      ∙ ap (λ x. find_row values.turn_id x journal) at.1
      ∙ e in
    let new = updated_row row values in
    let after = put_row new journal in
    record {
      row = new;
      found =
          ap (λ n. find_row n values.step_id after) (sym at.0)
          ∙ ap (λ x. find_row row.turn_id x after) (sym at.1)
          ∙ find_row-put_row_same new row journal own;
      unit_id = bound-unit_id row values bound;
      capability = bound-capability row values bound;
      capability_version = bound-capability_version row values bound;
      settled = kept_state-target row.state values.state;
    }

created-Placed :
    (values : Row) (journal : List Row)
    → find_row values.turn_id values.step_id journal ≡ none
    → Placed values (journal ++ values ∷ [])
created-Placed values journal e = record {
  row = values;
  found =
      find_row-append_none values.turn_id values.step_id journal (values ∷ []) e
      ∙ find_row-own values;
  unit_id = refl;
  capability = refl;
  capability_version = refl;
  settled = λ h. h;
}

sync_row-Placed :
    (existing : Bool) (values : Row) (found : Option Row) (journal journal' : List Row)
    → find_row values.turn_id values.step_id journal ≡ found
    → sync_row existing values found journal ≡ ok journal'
    → Placed values journal'
sync_row-Placed false values none journal journal' e h =
    let q : journal ++ values ∷ [] ≡ journal' = cc h in rw (← q) (created-Placed values journal e)
sync_row-Placed false values (some row) journal journal' e h = cc h
sync_row-Placed true values none journal journal' e h = cc h
sync_row-Placed true values (some row) journal journal' e h =
    let (bound, written) = then-ok (validate_binding row values) _ journal' h in
    let q : put_row (updated_row row values) journal ≡ journal' = cc written in
    rw (← q) (updated-Placed values row journal e bound)

-- A row placed with the values of a step reflects the step.
Placed-Reflects :
    (turn : TurnIdentity) (s : Step) (values : Row) (journal : List Row)
    → IsFor turn s values
    → Placed values journal
    → Reflects turn journal s
Placed-Reflects turn s values journal for placed = record {
  row = placed.row;
  found =
      ap (λ n. find_row n s.step_id journal) (sym for.turn_id)
      ∙ ap (λ x. find_row values.turn_id x journal) (sym for.step_id)
      ∙ placed.found;
  unit_id = placed.unit_id ∙ for.unit_id;
  capability = placed.capability ∙ for.capability;
  capability_version = placed.capability_version ∙ for.capability_version;
  settled = λ h. placed.settled (rw (for.done h));
}

module _ (encoded_length : Json → Option ℕ) (turn : TurnIdentity) (units : List RecoveryUnit)
    (expires_at : ℕ) (existing : List String) where
  sync_steps-Reflects :
      (steps : List Step) (seen seen' : List String) (journal journal' : List Row)
      → sync_steps encoded_length turn units expires_at existing steps seen journal
        ≡ ok (seen', journal')
      → All (Reflects turn journal') steps
  sync_steps-Reflects [] seen seen' journal journal' h = tt
  sync_steps-Reflects (s ∷ steps) seen seen' journal journal' h =
      let pass =
        sync_steps-Pass encoded_length turn units expires_at existing s steps seen seen' journal
          journal' h in
      let for =
        (row_values-IsFor encoded_length turn units expires_at s).at pass.values pass.made in
      let placed = sync_row-Placed _ pass.values _ journal pass.next refl pass.synced in
      let kept =
        sync_steps-Keeps encoded_length turn units expires_at existing steps
          (pass.values.step_id ∷ seen) seen' pass.next journal' pass.rest in
      (
        Keeps-Reflects turn pass.next journal' s kept
            (Placed-Reflects turn s pass.values pass.next for placed),
        sync_steps-Reflects steps (pass.values.step_id ∷ seen) seen' pass.next journal' pass.rest,
      )

-- After a successful synchronisation the journal has a row for each step of the plan, bound to the
-- step's unit, capability and version, and settled where the step is completed.
pub sync_plan-Reflects :
    (encoded_length : Json → Option ℕ) (turn : TurnIdentity) (plan : EffectPlan) (now : ℕ)
    (journal journal' : List Row)
    → sync_plan encoded_length turn plan now journal ≡ ok journal'
    → All (Reflects turn journal') plan.steps
sync_plan-Reflects encoded_length turn plan now journal journal' h =
    let parts = sync_plan-Synced encoded_length turn plan now journal journal' h in
    sync_steps-Reflects encoded_length turn plan.recovery_units _ _ plan.steps [] parts.seen journal
      journal' parts.looped
