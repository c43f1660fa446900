-- ===== src/Turn/Scan.antt =====
-- `_recover_stale_turns` of addons/odoo_ai_assistant/models/turn_queue.py: the scan for turns whose
-- lease has run out, one transaction.
use ai_odoo_assistant.Prelude.{
  ℕ, zero, suc, ltb, Bool, not, ◌&&◌, ◌||◌, ◌==◌, List, [], ◌∷◌, if◌then◌else◌,
}
use ai_odoo_assistant.Turn.{Turn, holds_slot}
use ai_odoo_assistant.Turn.Lifecycle.{Interrupted, coalesce, lease_expired, recover_stale_turn}
use ai_odoo_assistant.Turn.Scheduler.{update_where}

-- _STALE_SCAN_LIMIT
abbrev pub stale_scan_limit : ℕ
stale_scan_limit = 25

-- ORDER BY lease_expires_at, id
expires_first : Turn → Turn → Bool
expires_first t u =
    let at = coalesce t.lease_expires_at 0 in
    let other = coalesce u.lease_expires_at 0 in ltb at other || (at == other && ltb t.id u.id)

unfoldable pub insert : Turn → List Turn → List Turn
unfolding expires_first
insert t [] = t ∷ []
insert t (u ∷ us) = let rest = insert t us in if expires_first t u then t ∷ u ∷ us else u ∷ rest

-- The rows of the WHERE that no other transaction has locked, in that order.
unfoldable pub by_lease : ℕ → (ℕ → Bool) → List Turn → List Turn
unfolding insert
by_lease now locked [] = []
by_lease now locked (t ∷ ts) =
    let rest = by_lease now locked ts in
    if holds_slot t.state && (lease_expired now t && not (locked t.id)) then insert t rest else rest

-- LIMIT
unfoldable pub first_turns : ℕ → List Turn → List Turn
first_turns zero ts = []
first_turns (suc n) [] = []
first_turns (suc n) (t ∷ ts) = t ∷ first_turns n ts

-- The loop over the rows that the scan gave.
unfoldable pub recover_each : (ℕ → Interrupted) → (ℕ → Bool) → ℕ → List Turn → List Turn → List Turn
recover_each found stored now [] table = table
recover_each found stored now (t ∷ ts) table =
    recover_each found stored now ts
      (update_where t.id (recover_stale_turn (found t.id) now (stored t.id)) table)

-- `found` and `stored` say, by id, what each turn's interrupted answer is and whether its event lands.
unfoldable pub recover_stale_turns :
    (ℕ → Bool) → (ℕ → Interrupted) → (ℕ → Bool) → ℕ → List Turn → List Turn
unfolding by_lease first_turns
recover_stale_turns locked found stored now table =
    recover_each found stored now (first_turns stale_scan_limit (by_lease now locked table)) table
