-- ===== src/Turn/Lost.antt =====
-- What one scan for lost workers leaves: `_recover_stale_turns` of
-- addons/odoo_ai_assistant/models/turn_queue.py.
use ai_odoo_assistant.Prelude.{
  ℕ, zero, suc, ◌≤◌, Bool, false, not, any, ◌&&◌, ◌||◌, ◌==◌, List, [], ◌∷◌, length, All,
  if◌then◌else◌, ◌≡◌, refl, ==_iff, arith, Bool-cases, inl, inr,
}
use ai_odoo_assistant.Turn.{Turn, holds_slot}
use ai_odoo_assistant.Turn.Lifecycle.{Interrupted, lease_expired, recover_stale_turn}
use ai_odoo_assistant.Turn.Scheduler.{update_where}
use ai_odoo_assistant.Turn.Rows.{In, In-All}
use ai_odoo_assistant.Turn.Scan.{
  stale_scan_limit, insert, by_lease, first_turns, recover_each, recover_stale_turns,
}

-- The turn holds a runner slot under a lease that has run out.
abbrev pub is_lost : ℕ → Turn → Bool
is_lost now t = holds_slot t.state && lease_expired now t

-- Whether a row of the same id is among the rows.
abbrev is_among : Turn → List Turn → Bool
is_among r rows = any (λ (u : Turn). r.id == u.id) rows

module _ (now : ℕ) (locked : ℕ → Bool) where
  -- The row is lost, open to the scan, and not among those that it has still to come to.
  abbrev is_missed : Bool → Turn → Bool
  is_missed later r = is_lost now r && (not (locked r.id) && not later)

  recovers :
      (found : Interrupted) (lands later : Bool) (r : Turn)
      → is_missed later (recover_stale_turn found now lands r) ≡ false
  unfolding recover_stale_turn
  recovers found lands later r = ground arith

  row_recovers :
      (found : Interrupted) (lands : Bool) (t : Turn) (rest : List Turn) (r : Turn)
      → is_missed (is_among r (t ∷ rest)) r ≡ false
      → let new = if r.id == t.id then recover_stale_turn found now lands r else r in
        is_missed (is_among new rest) new ≡ false
  unfolding any
  row_recovers found lands t rest r h = elim (Bool-cases (r.id == t.id)) [
    | inl same ↦ rw same (recovers found lands _ r)
    | inr other ↦ let k = rw other at h in rw other k
  ]

  one_recovers :
      (found : Interrupted) (lands : Bool) (t : Turn) (rest table : List Turn)
      → All (λ r. is_missed (is_among r (t ∷ rest)) r ≡ false) table
      → All
          (λ r. is_missed (is_among r rest) r ≡ false)
          (update_where t.id (recover_stale_turn found now lands) table)
  unfolding update_where
  one_recovers found lands t rest [] h = tt
  one_recovers found lands t rest (r ∷ table) h =
      (row_recovers found lands t rest r h.0, one_recovers found lands t rest table h.1)

  each_recovers :
      (found : ℕ → Interrupted) (stored : ℕ → Bool) (chosen table : List Turn)
      → All (λ r. is_missed (is_among r chosen) r ≡ false) table
      → All (λ r. is_missed false r ≡ false) (recover_each found stored now chosen table)
  unfolding recover_each any
  each_recovers found stored [] table h = h
  each_recovers found stored (t ∷ chosen) table h =
      each_recovers found stored chosen _ (one_recovers (found t.id) (stored t.id) t chosen table h)

  among-insert :
      (r t : Turn) (us : List Turn) → is_among r (insert t us) ≡ (r.id == t.id || is_among r us)
  unfolding insert any
  among-insert r t [] = refl
  among-insert r t (u ∷ us) = ground (arith, among-insert r t us)

  none-missed :
      (ts : List Turn)
      → All (λ r. is_missed false r ≡ false) ts
      → All (λ r. (is_lost now r && not (locked r.id)) ≡ false) ts
  none-missed [] h = tt
  none-missed (r ∷ ts) h = (let k = h.0 in ground arith, none-missed ts h.1)

  more-missed : (a b : Bool) (r : Turn) → is_missed b r ≡ false → is_missed (a || b) r ≡ false
  more-missed a b r h = ground arith

  own-missed : (b : Bool) (r : Turn) → is_missed (r.id == r.id || b) r ≡ false
  own-missed b r = let same = (==_iff r.id r.id).1 refl in rw same (ground arith)

  by_lease-covers :
      (ts : List Turn) (r : Turn)
      → In r ts
      → is_missed (is_among r (by_lease now locked ts)) r ≡ false
  unfolding by_lease
  by_lease-covers [] r m = absurd m
  by_lease-covers (t ∷ ts) r m =
      elim (Bool-cases (holds_slot t.state && (lease_expired now t && not (locked t.id)))) [
        | inl stale ↦
            rw (stale, among-insert r t (by_lease now locked ts))
              (elim m [
                | inl e ↦ rw e (own-missed _ t)
                | inr n ↦ more-missed _ _ r (by_lease-covers ts r n)
              ])
        | inr other ↦
            rw other (elim m [ inl e ↦ rw e (ground arith) | inr n ↦ by_lease-covers ts r n ])
      ]

first_turns-all : (n : ℕ) (ts : List Turn) → length ts ≤ n → first_turns n ts ≡ ts
unfolding first_turns
first_turns-all zero [] h = refl
first_turns-all zero (t ∷ ts) h = absurd (omega arith)
first_turns-all (suc n) [] h = refl
first_turns-all (suc n) (t ∷ ts) h = rw (first_turns-all n ts (omega arith)) refl

-- Where at most 25 turns hold a runner slot under a lease that has run out and are locked by no other
-- transaction, none of these is left after a scan: every turn that then still holds a slot under a
-- lease that has run out is a locked one.
pub recover_stale_turns-leaves :
    (now : ℕ) (locked : ℕ → Bool) (found : ℕ → Interrupted) (stored : ℕ → Bool) (table : List Turn)
    → length (by_lease now locked table) ≤ stale_scan_limit
    → All
        (λ r. (is_lost now r && not (locked r.id)) ≡ false)
        (recover_stale_turns locked found stored now table)
unfolding recover_stale_turns
recover_stale_turns-leaves now locked found stored table h =
    let chosen = by_lease now locked table in
    rw (first_turns-all stale_scan_limit chosen h) (
      none-missed now locked (recover_each found stored now chosen table) (
        each_recovers now locked found stored chosen table
          (In-All _ table (by_lease-covers now locked table))))
