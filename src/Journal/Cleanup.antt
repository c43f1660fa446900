-- ===== src/Journal/Cleanup.antt =====
-- `_cron_cleanup_effect_journal`, and what a browser sees of the journal.
use ai_odoo_assistant.Prelude.{
  ℕ, zero, suc, ◌+◌, ◌≤◌, ltb, leb, ◌&&◌, List, [], ◌∷◌, length, if◌then◌else◌, arith,
}
use ai_odoo_assistant.Prelude.Result.{Result, ok, require, ◌>>◌}
use ai_odoo_assistant.Journal.{Row, is_entry, rows_of}

-- search([("expires_at", "<", now)])
unfoldable pub expired : ℕ → List Row → List Row
expired now [] = []
expired now (r ∷ rows) =
    let rest = expired now rows in if ltb r.expires_at now then r ∷ rest else rest

-- order="expires_at, id": the rows come in the order of their ids.
unfoldable pub insert : Row → List Row → List Row
insert r [] = r ∷ []
insert r (q ∷ rows) = if leb r.expires_at q.expires_at then r ∷ q ∷ rows else q ∷ insert r rows

unfoldable pub by_expiry : List Row → List Row
unfolding insert
by_expiry [] = []
by_expiry (r ∷ rows) = insert r (by_expiry rows)

unfoldable pub take : ℕ → List Row → List Row
take zero rows = []
take (suc n) [] = []
take (suc n) (r ∷ rows) = r ∷ take n rows

unfoldable pub drop_row : Row → List Row → List Row
drop_row r [] = []
drop_row r (q ∷ rows) = if is_entry r.turn_id r.step_id q then rows else q ∷ drop_row r rows

-- rows.unlink()
unfoldable pub unlink : List Row → List Row → List Row
unfolding drop_row
unlink [] journal = journal
unlink (r ∷ rows) journal = unlink rows (drop_row r journal)

unfoldable pub cleanup_effect_journal : ℕ → List Row → List Row
cleanup_effect_journal now journal = unlink (take 500 (by_expiry (expired now journal))) journal

-- `_browser_rows`: the first rows of a turn, by id
unfoldable pub browser_rows : ℕ → ℕ → List Row → Result (List Row)
browser_rows turn limit journal = do
  require (leb 1 limit && leb limit 50) "effect_journal_limit_invalid"
  ok (take limit (rows_of turn journal))

take-length : (n : ℕ) (rows : List Row) → length (take n rows) ≤ n
unfolding take
take-length zero rows = omega arith
take-length (suc n) [] = omega arith
take-length (suc n) (r ∷ rows) = omega (arith, take-length n rows)

drop_row-length : (r : Row) (rows : List Row) → length rows ≤ suc (length (drop_row r rows))
unfolding drop_row
drop_row-length r [] = omega arith
drop_row-length r (q ∷ rows) = ground (arith, drop_row-length r rows)

unlink-length :
    (rows journal : List Row) → length journal ≤ length (unlink rows journal) + length rows
unfolding unlink
unlink-length [] journal = omega arith
unlink-length (r ∷ rows) journal =
    omega (arith, drop_row-length r journal, unlink-length rows (drop_row r journal))

-- A run of the cleanup removes at most 500 rows.
pub cleanup-length :
    (now : ℕ) (journal : List Row)
    → length journal ≤ length (cleanup_effect_journal now journal) + 500
unfolding cleanup_effect_journal
cleanup-length now journal =
    let chosen = take 500 (by_expiry (expired now journal)) in
    omega (arith, unlink-length chosen journal, take-length 500 (by_expiry (expired now journal)))
