-- ===== src/Journal/Certified.antt =====
-- What the journal certifies once a failed turn's rows are marked.
use ai_odoo_assistant.Prelude.{
  ℕ, leb, Bool, true, false, ◌&&◌, Option, none, some, List, [], ◌∷◌, all, All, length,
  if◌then◌else◌, ◌≡◌, ◌≢◌, refl, sym, ◌∙◌, arith, Bool-cases, inl, inr,
}
use ai_odoo_assistant.Plan.{
  RecoveryMode, RecoveryUnit, UnitState, EffectPlan, unit_executing, unit_completed, external,
}
use ai_odoo_assistant.Journal.{
  EffectState, executing, verified, skipped, rolled_back, reverted, Row, is_of, rows_of,
}
use ai_odoo_assistant.Journal.Sync.{find_unit}
use ai_odoo_assistant.Journal.Failure.{
  failure_state, mark_row, mark_turn_failure, all_turn_effects_rolled_back, is_without_effect,
  is_settled, unit_failure, units_of,
}
use ai_odoo_assistant.Journal.Unique.{IsUnique, map-IsUnique}

-- Why a row may be given back as undone: it was skipped, or rolled back before, or its unit, which is
-- neither external nor completed, was executing, whatever the row's state, or the row itself was.
pub data LeftNoEffect (units : List RecoveryUnit) (r : Row) : Type 0 where
  was_skipped : r.state ≡ skipped → LeftNoEffect units r
  was_rolled_back : r.state ≡ rolled_back → LeftNoEffect units r
  in_flight :
      (u : RecoveryUnit)
      → find_unit r.unit_id units ≡ some u
      → u.mode ≢ external
      → u.state ≢ unit_completed
      → (u.state ≢ unit_executing → r.state ≡ executing)
      → LeftNoEffect units r

module _ (units : List RecoveryUnit) (r : Row) where
  in_unit :
      (u : RecoveryUnit) (mode : RecoveryMode) (unit : UnitState) (state : EffectState)
      → find_unit r.unit_id units ≡ some u
      → u.mode ≡ mode
      → u.state ≡ unit
      → r.state ≡ state
      → is_without_effect (if is_settled state then state else unit_failure mode unit state) ≡ true
      → LeftNoEffect units r
  in_unit u mode unit verified e m n k h = cc h
  in_unit u mode unit reverted e m n k h = cc h
  in_unit u mode unit skipped e m n k h = was_skipped k
  in_unit u mode unit rolled_back e m n k h = was_rolled_back k
  in_unit u mode unit_completed state e m n k h = cc h
  in_unit u external unit state e m n k h = cc h
  in_unit u mode unit_executing state e m n k h =
      in_flight u e (λ x. cc (sym m ∙ x)) (λ x. cc (sym n ∙ x)) (λ x. absurd (x n))
  in_unit u mode UnitState.prepared executing e m n k h =
      in_flight u e (λ x. cc (sym m ∙ x)) (λ x. cc (sym n ∙ x)) (λ x. k)
  in_unit u mode UnitState.prepared state e m n k h = cc h

  without_unit :
      (state : EffectState)
      → r.state ≡ state
      → is_without_effect (failure_state state none) ≡ true
      → LeftNoEffect units r
  unfolding failure_state
  without_unit skipped k h = was_skipped k
  without_unit rolled_back k h = was_rolled_back k
  without_unit state k h = cc h

  row-LeftNoEffect :
      (found : Option RecoveryUnit)
      → find_unit r.unit_id units ≡ found
      → is_without_effect (failure_state r.state found) ≡ true
      → LeftNoEffect units r
  unfolding failure_state
  row-LeftNoEffect none e h = without_unit r.state refl h
  row-LeftNoEffect (some u) e h = in_unit u u.mode u.state r.state e refl refl refl h

both : (p q : Bool) → p && q ≡ true → (p ≡ true) × (q ≡ true)
both true q h = (refl, h)
both false q h = cc h

marked-LeftNoEffect :
    (turn : ℕ) (plan : Option EffectPlan) (journal : List Row)
    → all
        (λ (r : Row). is_without_effect r.state)
        (rows_of turn (mark_turn_failure turn plan journal))
      ≡ true
    → All (LeftNoEffect (units_of plan)) (rows_of turn journal)
unfolding mark_turn_failure mark_row rows_of all
marked-LeftNoEffect turn plan [] h = tt
marked-LeftNoEffect turn plan (r ∷ rows) h = elim (Bool-cases (is_of turn r)) [
  | inl own ↦
      let k = rw (own, own) at h in
      let (first, rest) = both _ _ k in
      rw own (
        row-LeftNoEffect (units_of plan) r (find_unit r.unit_id (units_of plan)) refl first,
        marked-LeftNoEffect turn plan rows rest,
      )
  | inr other ↦ let k = rw (other, other) at h in rw other (marked-LeftNoEffect turn plan rows k)
]

-- Where a failed turn's rows, once marked, are certified to be rolled back, each row that the turn had
-- was skipped, or rolled back before, or stood in a unit of the plan that is not external and not
-- completed, and that was executing or had this row executing; so no row of an external or of a
-- completed unit, and none outside the plan's units, is given back as undone unless it was already
-- skipped or rolled back. The turn has at least one row.
pub all_turn_effects_rolled_back-LeftNoEffect :
    (turn : ℕ) (plan : Option EffectPlan) (journal : List Row)
    → all_turn_effects_rolled_back turn (mark_turn_failure turn plan journal) ≡ true
    → All (LeftNoEffect (units_of plan)) (rows_of turn journal)
      × (rows_of turn (mark_turn_failure turn plan journal) ≢ [])
unfolding all_turn_effects_rolled_back
all_turn_effects_rolled_back-LeftNoEffect turn plan journal h =
    let rows = rows_of turn (mark_turn_failure turn plan journal) in
    let (some_row, clean) =
      both (leb 1 (length rows)) (all (λ (r : Row). is_without_effect r.state) rows) h in
    (marked-LeftNoEffect turn plan journal clean, λ e. let k = rw e at some_row in cc k)

mark_row-turn_id :
    (turn : ℕ) (plan : Option EffectPlan) (r : Row) → (mark_row turn plan r).turn_id ≡ r.turn_id
unfolding mark_row
mark_row-turn_id turn plan r = ground arith

mark_row-step_id :
    (turn : ℕ) (plan : Option EffectPlan) (r : Row) → (mark_row turn plan r).step_id ≡ r.step_id
unfolding mark_row
mark_row-step_id turn plan r = ground arith

-- Marking a failed turn keeps one row for each step of a turn.
pub mark_turn_failure-IsUnique :
    (turn : ℕ) (plan : Option EffectPlan) (journal : List Row)
    → IsUnique journal
    → IsUnique (mark_turn_failure turn plan journal)
unfolding mark_turn_failure
mark_turn_failure-IsUnique turn plan journal h =
    map-IsUnique (mark_row turn plan) (mark_row-turn_id turn plan) (mark_row-step_id turn plan)
      journal h
