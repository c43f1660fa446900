-- ===== src/Turn/Capacity.antt =====
-- The slots of the runner.
use ai_odoo_assistant.Prelude.{
  ℕ, suc, ◌≤◌, ◌<◌, ◌==◌, ==_iff, ◌≡◌, refl, inl, inr, true, false, List, [], ◌∷◌, map, arith,
  Bool-cases,
}
use ai_odoo_assistant.Turn.{Turn, holds_slot}
use ai_odoo_assistant.Turn.Scheduler.{
  Configured, unset, malformed, below_one, turns, supported_runner_capacity,
  effective_turn_capacity, count_active, update_where,
}
use ai_odoo_assistant.Turn.Rows.{In, Ascending, id_of_In, updated, update_where_lem}

-- Whatever is configured, between one and two turns run at once.
pub effective_turn_capacity_bounds :
    (c : Configured)
    → (1 ≤ effective_turn_capacity c) × (effective_turn_capacity c ≤ supported_runner_capacity)
unfolding effective_turn_capacity
effective_turn_capacity_bounds unset = omega arith
effective_turn_capacity_bounds malformed = omega arith
effective_turn_capacity_bounds below_one = omega arith
effective_turn_capacity_bounds (turns n) = omega arith

count_active-map :
    (g : Turn → Turn) (ts : List Turn)
    → ((t : Turn) → In t ts → holds_slot (g t).state ≡ true → holds_slot t.state ≡ true)
    → count_active (map g ts) ≤ count_active ts
unfolding count_active
count_active-map g [] h = omega arith
count_active-map g (t ∷ ts) h =
    ground (arith, h t (inl refl), count_active-map g ts (λ u m. h u (inr m)))

-- A change that takes no slot.
pub count_active-update :
    (i : ℕ) (f : Turn → Turn) (ts : List Turn)
    → ((t : Turn) → In t ts → holds_slot (f t).state ≡ true → holds_slot t.state ≡ true)
    → count_active (update_where i f ts) ≤ count_active ts
count_active-update i f ts h =
    rw update_where_lem (count_active-map (updated i f) ts (λ t m. at_row t (h t m)))
  where
    at_row :
        (t : Turn)
        → (holds_slot (f t).state ≡ true → holds_slot t.state ≡ true)
        → holds_slot (updated i f t).state ≡ true
        → holds_slot t.state ≡ true
    at_row t k busy = ground arith

-- One UPDATE takes at most one slot.
pub count_active-update_one :
    (i : ℕ) (f : Turn → Turn) (lo hi : ℕ) (ts : List Turn)
    → Ascending lo hi ts
    → count_active (map (updated i f) ts) ≤ suc (count_active ts)
unfolding count_active
count_active-update_one i f lo hi [] a = omega arith
count_active-update_one i f lo hi (t ∷ ts) a = elim (Bool-cases (t.id == i)) [
  | inl e ↦ rw e (
      ground (
        arith,
        count_active-map (updated i f) ts
            (λ u m busy. later u (id_of_In (suc t.id) hi ts u a.1 m) ((==_iff t.id i).0 e) busy),
      ))
  | inr e ↦ rw e (ground (arith, count_active-update_one i f (suc t.id) hi ts a.1))
]
  where
    later :
        (u : Turn)
        → t.id < u.id
        → t.id ≡ i
        → holds_slot (updated i f u).state ≡ true
        → holds_slot u.state ≡ true
    later u lt e busy = let d : (u.id == i) ≡ false = ground arith in rw d at busy
