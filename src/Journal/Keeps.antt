-- ===== src/Journal/Keeps.antt =====
-- What a later snapshot leaves of a row.
use ai_odoo_assistant.Prelude.{
  ℕ, String, Bool, true, false, not, ◌&&◌, Option, none, some, List, [], ◌∷◌, ◌++◌, all, mem, ◌≡◌,
  refl, sym, ◌∙◌, ap, Bool-cases, inl, inr, length, leb, ◌+◌,
}
use ai_odoo_assistant.Prelude.Json.{Json}
use ai_odoo_assistant.Prelude.Result.{ok, bind-ok, require-ok, then-ok}
use ai_odoo_assistant.Plan.{Step, RecoveryUnit, EffectPlan}
use ai_odoo_assistant.Journal.{
  EffectState, prepared, executing, verified, skipped, rolled_back, uncertain, reverted,
  TurnIdentity, Row, is_entry, find_row, put_row,
}
use ai_odoo_assistant.Journal.Sync.{
  row_values, validate_binding, updated_row, kept_state, live_ids, sync_row, sync_steps, sync_plan,
}
use ai_odoo_assistant.Journal.Failure.{is_settled}
use ai_odoo_assistant.Journal.Rows.{
  find_row-put_row, find_row-put_row_same, find_row-append, find_row-is_entry, is_entry-eq,
}

-- `new` is a later version of the row `old`: of the same step and bound to the same effect, and in
-- the same state where that was settled.
pub record Continues (old new : Row) : Type 0 where
  pub turn_id : new.turn_id ≡ old.turn_id
  pub turn_uuid : new.turn_uuid ≡ old.turn_uuid
  pub user_id : new.user_id ≡ old.user_id
  pub company_id : new.company_id ≡ old.company_id
  pub unit_id : new.unit_id ≡ old.unit_id
  pub step_id : new.step_id ≡ old.step_id
  pub capability : new.capability ≡ old.capability
  pub capability_version : new.capability_version ≡ old.capability_version
  pub recovery_mode : new.recovery_mode ≡ old.recovery_mode
  pub classification : new.classification ≡ old.classification
  pub before_payload : new.before_payload ≡ old.before_payload
  pub settled : is_settled old.state ≡ true → new.state ≡ old.state

Continues-refl : (r : Row) → Continues r r
Continues-refl r = record {
  turn_id = refl;
  turn_uuid = refl;
  user_id = refl;
  company_id = refl;
  unit_id = refl;
  step_id = refl;
  capability = refl;
  capability_version = refl;
  recovery_mode = refl;
  classification = refl;
  before_payload = refl;
  settled = λ h. refl;
}

Continues-trans : (a b c : Row) → Continues a b → Continues b c → Continues a c
Continues-trans a b c p q = record {
  turn_id = q.turn_id ∙ p.turn_id;
  turn_uuid = q.turn_uuid ∙ p.turn_uuid;
  user_id = q.user_id ∙ p.user_id;
  company_id = q.company_id ∙ p.company_id;
  unit_id = q.unit_id ∙ p.unit_id;
  step_id = q.step_id ∙ p.step_id;
  capability = q.capability ∙ p.capability;
  capability_version = q.capability_version ∙ p.capability_version;
  recovery_mode = q.recovery_mode ∙ p.recovery_mode;
  classification = q.classification ∙ p.classification;
  before_payload = q.before_payload ∙ p.before_payload;
  settled = λ h. let k = p.settled h in q.settled (rw k h) ∙ k;
}

kept_state-settled :
    (old target : EffectState) → is_settled old ≡ true → kept_state old target ≡ old
kept_state-settled verified target h = refl
kept_state-settled skipped target h = refl
kept_state-settled reverted target h = refl
kept_state-settled prepared target h = cc h
kept_state-settled executing target h = cc h
kept_state-settled rolled_back target h = cc h
kept_state-settled uncertain target h = cc h

Continues-updated_row : (row values : Row) → Continues row (updated_row row values)
unfolding updated_row
Continues-updated_row row values = record {
  turn_id = refl;
  turn_uuid = refl;
  user_id = refl;
  company_id = refl;
  unit_id = refl;
  step_id = refl;
  capability = refl;
  capability_version = refl;
  recovery_mode = refl;
  classification = refl;
  before_payload = refl;
  settled = kept_state-settled row.state values.state;
}

-- Every row of the journal has a later version in the other.
pub record Keeps (journal journal' : List Row) : Type 0 where
  pub later :
      (turn : ℕ) (step : String) (r : Row)
      → find_row turn step journal ≡ some r
      → (r' : Row) × (find_row turn step journal' ≡ some r') × Continues r r'

Keeps-refl : (journal : List Row) → Keeps journal journal
Keeps-refl journal = record { later = λ turn step r h. (r, h, Continues-refl r) }

pub Keeps-trans : (i j k : List Row) → Keeps i j → Keeps j k → Keeps i k
Keeps-trans i j k p q = record {
  later = λ turn step r h.
      let (r', h', c) = p.later turn step r h in
      let (r'', h'', d) = q.later turn step r' h' in (r'', h'', Continues-trans r r' r'' c d);
}

Keeps-append : (journal more : List Row) → Keeps journal (journal ++ more)
Keeps-append journal more = record {
  later = λ turn step r h. (r, find_row-append turn step journal more r h, Continues-refl r);
}

-- A write to the row of a step.
Keeps-put_row :
    (journal : List Row) (row new : Row)
    → find_row new.turn_id new.step_id journal ≡ some row
    → Continues row new
    → Keeps journal (put_row new journal)
Keeps-put_row journal row new found c = record {
  later = λ turn step r h. elim (Bool-cases (is_entry turn step new)) [
    | inl same ↦
        let at = is_entry-eq turn step new same in
        let k = rw (at.0, at.1) at found in
        let q : row ≡ r = cc (sym k ∙ h) in
        (new, rw (← at.0, ← at.1) (find_row-put_row_same new row journal found), rw (← q) c)
    | inr other ↦ (r, find_row-put_row new turn step journal other ∙ h, Continues-refl r)
  ];
}

Keeps-updated_row :
    (journal : List Row) (row values : Row)
    → find_row values.turn_id values.step_id journal ≡ some row
    → Keeps journal (put_row (updated_row row values) journal)
unfolding updated_row
Keeps-updated_row journal row values e =
    let at = find_row-is_entry values.turn_id values.step_id journal row e in
    Keeps-put_row journal row (updated_row row values)
      (ap (λ n. find_row n row.step_id journal) at.0
        ∙ ap (λ x. find_row values.turn_id x journal) at.1
        ∙ e)
      (Continues-updated_row row values)

pub sync_row-Keeps :
    (existing : Bool) (values : Row) (journal journal' : List Row)
    → sync_row existing values (find_row values.turn_id values.step_id journal) journal
      ≡ ok journal'
    → Keeps journal journal'
sync_row-Keeps existing values journal journal' =
    from existing (find_row values.turn_id values.step_id journal) refl
  where
    from :
        (existing : Bool) (found : Option Row)
        → find_row values.turn_id values.step_id journal ≡ found
        → sync_row existing values found journal ≡ ok journal'
        → Keeps journal journal'
    from false none e h =
        let q : journal ++ values ∷ [] ≡ journal' = cc h in
        rw (← q) (Keeps-append journal (values ∷ []))
    from false (some row) e h = cc h
    from true none e h = cc h
    from true (some row) e h =
        let (bound, k) = then-ok (validate_binding row values) _ journal' h in
        let q : put_row (updated_row row values) journal ≡ journal' = cc k in
        rw (← q) (Keeps-updated_row journal row values e)

module _ (encoded_length : Json → Option ℕ) (turn : TurnIdentity) (units : List RecoveryUnit)
    (expires_at : ℕ) (existing : List String) where
  -- One pass through the loop that does not raise, and the rest of the loop.
  pub record Pass (s : Step) (steps : List Step) (seen seen' : List String)
      (journal journal' : List Row) : Type 0 where
    pub values : Row
    pub made : row_values encoded_length turn units expires_at s ≡ ok values
    pub fresh : not (mem values.step_id seen) ≡ true
    pub next : List Row
    pub synced :
        sync_row
          (mem values.step_id existing)
          values
          (find_row values.turn_id values.step_id journal)
          journal
        ≡ ok next
    pub rest :
        sync_steps encoded_length turn units expires_at existing steps (values.step_id ∷ seen) next
        ≡ ok (seen', journal')

  pub sync_steps-Pass :
      (s : Step) (steps : List Step) (seen seen' : List String) (journal journal' : List Row)
      → sync_steps encoded_length turn units expires_at existing (s ∷ steps) seen journal
        ≡ ok (seen', journal')
      → Pass s steps seen seen' journal journal'
  unfolding sync_steps
  sync_steps-Pass s steps seen seen' journal journal' h =
      let (values, made, h1) = bind-ok (row_values encoded_length turn units expires_at s) _ _ h in
      let (fresh, h2) = require-ok (not (mem values.step_id seen)) _ _ _ h1 in
      let (next, synced, rest) =
        bind-ok
          (sync_row (mem values.step_id existing) values
            (find_row values.turn_id values.step_id journal) journal)
          _ _ h2 in
      record {
        values = values;
        made = made;
        fresh = fresh;
        next = next;
        synced = synced;
        rest = rest;
      }

  pub Pass-Keeps :
      (s : Step) (steps : List Step) (seen seen' : List String) (journal journal' : List Row)
      (pass : Pass s steps seen seen' journal journal')
      → Keeps journal pass.next
  Pass-Keeps s steps seen seen' journal journal' pass =
      sync_row-Keeps (mem pass.values.step_id existing) pass.values journal pass.next pass.synced

  pub sync_steps-Keeps :
      (steps : List Step) (seen seen' : List String) (journal journal' : List Row)
      → sync_steps encoded_length turn units expires_at existing steps seen journal
        ≡ ok (seen', journal')
      → Keeps journal journal'
  unfolding sync_steps
  sync_steps-Keeps [] seen seen' journal journal' h =
      let q : journal ≡ journal' = cc h in rw (← q) (Keeps-refl journal)
  sync_steps-Keeps (s ∷ steps) seen seen' journal journal' h =
      let pass = sync_steps-Pass s steps seen seen' journal journal' h in
      Keeps-trans journal pass.next journal' (Pass-Keeps s steps seen seen' journal journal' pass)
        (sync_steps-Keeps steps (pass.values.step_id ∷ seen) seen' pass.next journal' pass.rest)

-- The parts of a successful synchronisation.
pub record Synced (encoded_length : Json → Option ℕ) (turn : TurnIdentity) (plan : EffectPlan)
    (now : ℕ) (journal journal' : List Row) : Type 0 where
  pub seen : List String
  pub looped :
      sync_steps encoded_length turn plan.recovery_units
        (now + 604800)
        (live_ids turn.id journal)
        plan.steps
        []
        journal
      ≡ ok (seen, journal')
  pub covered : all (λ id. mem id seen) (live_ids turn.id journal) ≡ true

pub sync_plan-Synced :
    (encoded_length : Json → Option ℕ) (turn : TurnIdentity) (plan : EffectPlan) (now : ℕ)
    (journal journal' : List Row)
    → sync_plan encoded_length turn plan now journal ≡ ok journal'
    → Synced encoded_length turn plan now journal journal'
unfolding sync_plan
sync_plan-Synced encoded_length turn plan now journal journal' h =
    let (shaped, h1) =
      require-ok
        (leb 1 (length plan.steps)
          && leb (length plan.steps) 8
          && leb 1 (length plan.recovery_units))
        _ _ _ h in
    let ((seen, j), looped, h2) =
      bind-ok
        (sync_steps encoded_length turn plan.recovery_units (now + 604800)
          (live_ids turn.id journal) plan.steps [] journal)
        _ _ h1 in
    let (covered, h3) = require-ok (all (λ id. mem id seen) (live_ids turn.id journal)) _ _ _ h2 in
    let q : j ≡ journal' = cc h3 in
    record { seen = seen; looped = rw (← q) looped; covered = covered }

-- A snapshot of the plan never rewrites the journal's past: every row of the table, of this turn or
-- of another, still has its row, bound to the same step, unit, capability, recovery mode,
-- classification and state before the effect; and a row that is verified, skipped or reverted keeps
-- that state, whatever the snapshot says of its step.
pub sync_plan-Keeps :
    (encoded_length : Json → Option ℕ) (turn : TurnIdentity) (plan : EffectPlan) (now : ℕ)
    (journal journal' : List Row)
    → sync_plan encoded_length turn plan now journal ≡ ok journal'
    → Keeps journal journal'
sync_plan-Keeps encoded_length turn plan now journal journal' h =
    let parts = sync_plan-Synced encoded_length turn plan now journal journal' h in
    sync_steps-Keeps encoded_length turn plan.recovery_units _ _ plan.steps [] parts.seen journal
      journal' parts.looped
