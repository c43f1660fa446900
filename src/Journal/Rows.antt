-- ===== src/Journal/Rows.antt =====
-- The rows of a journal under a write and a creation.
use ai_odoo_assistant.Prelude.{
  ℕ, String, true, false, none, some, List, [], ◌∷◌, ◌++◌, ◌==◌, str_eq, eq_iff, eq_refl, ◌≡◌, refl,
  arith, Bool-cases, inl, inr, ==_iff,
}
use ai_odoo_assistant.Journal.{Row, is_entry, find_row, put_row}

pub is_entry-eq :
    (turn : ℕ) (step : String) (r : Row)
    → is_entry turn step r ≡ true
    → (r.turn_id ≡ turn) × (r.step_id ≡ step)
is_entry-eq turn step r h =
    let first : (r.turn_id == turn) ≡ true = ground arith in
    let second : str_eq r.step_id step ≡ true = ground arith in
    ((==_iff r.turn_id turn).0 first, (eq_iff r.step_id step).0 second)

-- Two rows of the same step are found together.
pub same_entry :
    (turn : ℕ) (step : String) (q r : Row)
    → (q.turn_id ≡ r.turn_id) × (q.step_id ≡ r.step_id)
    → is_entry turn step q ≡ is_entry turn step r
same_entry turn step q r h = rw (h.0, h.1)

-- A row of another step of the turn, or of another turn, is left.
pub find_row-put_row :
    (new : Row) (turn : ℕ) (step : String) (rows : List Row)
    → is_entry turn step new ≡ false
    → find_row turn step (put_row new rows) ≡ find_row turn step rows
unfolding find_row put_row
find_row-put_row new turn step [] h = refl
find_row-put_row new turn step (r ∷ rows) h =
    elim (Bool-cases (is_entry new.turn_id new.step_id r)) [
      | inl same ↦
          let at = is_entry-eq new.turn_id new.step_id r same in
          let away : is_entry turn step r ≡ false = rw (same_entry turn step r new at) h in
          rw (same, h, away)
      | inr other ↦ rw (other, find_row-put_row new turn step rows h)
    ]

own_entry : (r : Row) → is_entry r.turn_id r.step_id r ≡ true
own_entry r =
    let first : (r.turn_id == r.turn_id) ≡ true = (==_iff r.turn_id r.turn_id).1 refl in
    rw (first, eq_refl r.step_id)

pub find_row-put_row_same :
    (new old : Row) (rows : List Row)
    → find_row new.turn_id new.step_id rows ≡ some old
    → find_row new.turn_id new.step_id (put_row new rows) ≡ some new
unfolding find_row put_row
find_row-put_row_same new old [] h = cc h
find_row-put_row_same new old (r ∷ rows) h =
    elim (Bool-cases (is_entry new.turn_id new.step_id r)) [
      | inl same ↦ rw (same, own_entry new)
      | inr other ↦
          let rest = rw other at h in rw (other, other) (find_row-put_row_same new old rows rest)
    ]

pub find_row-append :
    (turn : ℕ) (step : String) (rows more : List Row) (r : Row)
    → find_row turn step rows ≡ some r
    → find_row turn step (rows ++ more) ≡ some r
unfolding find_row
find_row-append turn step [] more r h = cc h
find_row-append turn step (q ∷ rows) more r h = elim (Bool-cases (is_entry turn step q)) [
  | inl found ↦ let k = rw found at h in rw found k
  | inr other ↦ let k = rw other at h in rw other (find_row-append turn step rows more r k)
]

pub find_row-append_none :
    (turn : ℕ) (step : String) (rows more : List Row)
    → find_row turn step rows ≡ none
    → find_row turn step (rows ++ more) ≡ find_row turn step more
unfolding find_row
find_row-append_none turn step [] more h = refl
find_row-append_none turn step (q ∷ rows) more h = elim (Bool-cases (is_entry turn step q)) [
  | inl found ↦ let k = rw found at h in cc k
  | inr other ↦ let k = rw other at h in rw other (find_row-append_none turn step rows more k)
]

pub find_row-is_entry :
    (turn : ℕ) (step : String) (rows : List Row) (r : Row)
    → find_row turn step rows ≡ some r
    → (r.turn_id ≡ turn) × (r.step_id ≡ step)
unfolding find_row
find_row-is_entry turn step [] r h = cc h
find_row-is_entry turn step (q ∷ rows) r h = elim (Bool-cases (is_entry turn step q)) [
  | inl found ↦
      let q_is : q ≡ r = let k = rw found at h in cc k in
      let at = is_entry-eq turn step q found in rw (← q_is) at
  | inr other ↦ let k = rw other at h in find_row-is_entry turn step rows r k
]

pub find_row-own : (r : Row) → find_row r.turn_id r.step_id (r ∷ []) ≡ some r
unfolding find_row
find_row-own r = rw (own_entry r)
