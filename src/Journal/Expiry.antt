-- ===== src/Journal/Expiry.antt =====
-- What `_cron_cleanup_effect_journal` of addons/odoo_ai_assistant/models/effect_journal.py leaves.
use ai_odoo_assistant.Prelude.{
  ℕ, zero, suc, ◌+◌, ◌≤◌, ltb, leb, String, false, none, some, List, [], ◌∷◌, All, length, ◌≡◌,
  refl, ◌∙◌, arith, Bool-cases, inl, inr,
}
use ai_odoo_assistant.Journal.{Row, is_entry, find_row}
use ai_odoo_assistant.Journal.Rows.{is_entry-eq, same_entry}
use ai_odoo_assistant.Journal.Unique.{IsUnique}
use ai_odoo_assistant.Journal.Cleanup.{
  expired, insert, by_expiry, take, drop_row, unlink, cleanup_effect_journal, cleanup-length,
}

All-insert :
    (P : Row → Type 0) (r : Row) (rows : List Row) → P r → All P rows → All P (insert r rows)
unfolding insert
All-insert P r [] p h = (p, tt)
All-insert P r (q ∷ rows) p h = elim (Bool-cases (leb r.expires_at q.expires_at)) [
  | inl first ↦ rw first (p, h)
  | inr later ↦ rw later (h.0, All-insert P r rows p h.1)
]

All-by_expiry : (P : Row → Type 0) (rows : List Row) → All P rows → All P (by_expiry rows)
unfolding by_expiry
All-by_expiry P [] h = tt
All-by_expiry P (r ∷ rows) h = All-insert P r (by_expiry rows) h.0 (All-by_expiry P rows h.1)

All-take : (P : Row → Type 0) (n : ℕ) (rows : List Row) → All P rows → All P (take n rows)
unfolding take
All-take P zero rows h = tt
All-take P (suc n) [] h = tt
All-take P (suc n) (r ∷ rows) h = (h.0, All-take P n rows h.1)

module _ (turn : ℕ) (step : String) where
  -- The row is of another step.
  abbrev IsAway : Row → Type 0
  IsAway q = is_entry turn step q ≡ false

  drop_row-IsAway :
      (q : Row) (rows : List Row)
      → IsAway q
      → find_row turn step (drop_row q rows) ≡ find_row turn step rows
  unfolding drop_row find_row
  drop_row-IsAway q [] h = refl
  drop_row-IsAway q (r ∷ rows) h = elim (Bool-cases (is_entry q.turn_id q.step_id r)) [
    | inl same ↦
        let at = is_entry-eq q.turn_id q.step_id r same in
        let away : is_entry turn step r ≡ false = rw (same_entry turn step r q at) h in
        rw (same, away) refl
    | inr other ↦ rw (other, drop_row-IsAway q rows h)
  ]

  unlink-IsAway :
      (rows journal : List Row)
      → All IsAway rows
      → find_row turn step (unlink rows journal) ≡ find_row turn step journal
  unfolding unlink
  unlink-IsAway [] journal h = refl
  unlink-IsAway (q ∷ rows) journal h =
      unlink-IsAway rows (drop_row q journal) h.1 ∙ drop_row-IsAway q journal h.0

  none-IsAway :
      (now : ℕ) (rows : List Row) → find_row turn step rows ≡ none → All IsAway (expired now rows)
  unfolding expired find_row
  none-IsAway now [] h = tt
  none-IsAway now (q ∷ rows) h = elim (Bool-cases (is_entry turn step q)) [
    | inl same ↦ let k = rw same at h in cc k
    | inr other ↦
        let k = rw other at h in
        elim (Bool-cases (ltb q.expires_at now)) [
          | inl old ↦ rw old (other, none-IsAway now rows k)
          | inr new ↦ rw new (none-IsAway now rows k)
        ]
  ]

  live-IsAway :
      (now : ℕ) (rows : List Row) (r : Row)
      → IsUnique rows
      → find_row turn step rows ≡ some r
      → ltb r.expires_at now ≡ false
      → All IsAway (expired now rows)
  unfolding expired find_row
  live-IsAway now [] r u h live = tt
  live-IsAway now (q ∷ rows) r u h live = elim (Bool-cases (is_entry turn step q)) [
    | inl same ↦
        let q_is : q ≡ r = let k = rw same at h in cc k in
        let fresh : ltb q.expires_at now ≡ false = rw q_is live in
        let (at_turn, at_step) = is_entry-eq turn step q same in
        let alone = u.0 in
        let absent = rw (at_turn, at_step) at alone in rw fresh (none-IsAway now rows absent)
    | inr other ↦
        let k = rw other at h in
        let rest = live-IsAway now rows r u.1 k live in
        elim (Bool-cases (ltb q.expires_at now)) [
          | inl old ↦ rw old (other, rest)
          | inr new ↦ rw new rest
        ]
  ]

-- In a journal with one row for each step, a run of the cleanup leaves every row that has not expired
-- where it was, and it removes at most 500 rows.
pub cleanup-live :
    (now : ℕ) (journal : List Row) (turn : ℕ) (step : String) (r : Row)
    → IsUnique journal
    → find_row turn step journal ≡ some r
    → now ≤ r.expires_at
    → (find_row turn step (cleanup_effect_journal now journal) ≡ some r)
      × (length journal ≤ length (cleanup_effect_journal now journal) + 500)
unfolding cleanup_effect_journal
cleanup-live now journal turn step r u h live =
    let away = live-IsAway turn step now journal r u h (ground arith) in
    (
      unlink-IsAway turn step (take 500 (by_expiry (expired now journal))) journal
            (All-take _ 500 _ (All-by_expiry _ (expired now journal) away))
          ∙ h,
      cleanup-length now journal,
    )
