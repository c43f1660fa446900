-- ===== src/Turn/Soundness.antt =====
-- What holds of a row between two transactions.
use ai_odoo_assistant.Prelude.{ℕ, ◌≤◌, ◌≡◌, Bool, true, false, ◌||◌, String, Option, none, arith}
use ai_odoo_assistant.Turn.{Turn, holds_slot, is_queued, is_awaiting, Response, Envelope}
use ai_odoo_assistant.Turn.Lifecycle.{
  Interrupted, Failure, append_optional, fail_claimed_turn, fail_claimed_turn_with_failure,
  cancel_claimed_turn, recover_stale_turn,
}
use ai_odoo_assistant.Turn.Handlers.{
  execution, approve, reject, commit_plan_barrier, persist_awaiting_plan, complete_claimed_turn,
  repair_recoverable_plan, decide_capability_plan, cancel_for_current_user,
  redirect_for_current_user,
}
use ai_odoo_assistant.Turn.Recovery.{
  store_plan, reconcile_confirmed_atomic_rollback, revert_for_current_user,
}
use ai_odoo_assistant.Turn.Table.{
  Action, fail, fail_with, settle_cancel, recover, barrier, await, complete, repair, decide, cancel,
  redirect, store, reconcile, revert, act, new_turn,
}

pub record IsSound (t : Turn) : Type 0 where
  -- the CHECK of the table
  pub attempts : t.attempt_count ≤ t.max_attempts
  pub positive : 1 ≤ t.max_attempts
  -- only a turn that holds a slot has a lease
  pub lease : holds_slot t.state ≡ false → t.lease_token ≡ none
  -- a turn whose effects may have begun waits for no worker and for no approval
  pub barrier_down : t.write_barrier ≡ true → (is_queued t.state || is_awaiting t.state) ≡ false

pub append_optional-IsSound :
    (lands : Bool) (type : String) (t : Turn) → IsSound t → IsSound (append_optional lands type t)
unfolding append_optional
append_optional-IsSound true type t h = record {
  attempts = h.attempts;
  positive = h.positive;
  lease = h.lease;
  barrier_down = h.barrier_down;
}
append_optional-IsSound false type t h = h

pub fail-IsSound :
    (token code : String) (found : Interrupted) (now : ℕ) (lands : Bool) (t : Turn)
    → IsSound t
    → IsSound (fail_claimed_turn token code found now lands t)
unfolding fail_claimed_turn
fail-IsSound token code found now lands t h = ground arith

pub recover-IsSound :
    (found : Interrupted) (now : ℕ) (lands : Bool) (t : Turn)
    → IsSound t
    → IsSound (recover_stale_turn found now lands t)
unfolding recover_stale_turn
recover-IsSound found now lands t h = ground arith

pub fail_with-IsSound :
    (token code : String) (f : Failure) (found : Interrupted) (now : ℕ) (lands : Bool) (t : Turn)
    → IsSound t
    → IsSound (fail_claimed_turn_with_failure token code f found now lands t)
unfolding fail_claimed_turn_with_failure
fail_with-IsSound token code f found now lands t h = ground arith

settle_cancel-IsSound :
    (token : String) (found : Interrupted) (now : ℕ) (lands : Bool) (t : Turn)
    → IsSound t
    → IsSound (cancel_claimed_turn token found now lands t)
unfolding cancel_claimed_turn
settle_cancel-IsSound token found now lands t h = ground arith

cancel-IsSound :
    (row_locked : Bool) (found : Interrupted) (now : ℕ) (lands : Bool) (t : Turn)
    → IsSound t
    → IsSound (cancel_for_current_user row_locked found now lands t)
unfolding cancel_for_current_user
cancel-IsSound row_locked found now lands t h = ground arith

await-IsSound :
    (e : Envelope) (r : Response) (now : ℕ) (lands : Bool) (t : Turn)
    → t.write_barrier ≡ false
    → IsSound t
    → IsSound (persist_awaiting_plan e r now lands t)
unfolding persist_awaiting_plan
await-IsSound e r now lands t b h = ground arith

-- Every handler keeps a row sound, with whatever its caller supplies.
pub act-IsSound :
    (a : Action) (now : ℕ) (lands : Bool) (t : Turn) → IsSound t → IsSound (act a now lands t)
unfolding act
act-IsSound (fail token code found) now lands t h = fail-IsSound token code found now lands t h
act-IsSound (fail_with token code failure found) now lands t h =
    fail_with-IsSound token code failure found now lands t h
act-IsSound (settle_cancel token found) now lands t h =
    settle_cancel-IsSound token found now lands t h
act-IsSound (recover found) now lands t h = recover-IsSound found now lands t h
act-IsSound (barrier token envelope) now lands t h = unfold commit_plan_barrier in ground arith
act-IsSound (await token envelope response) now lands t h =
    ground (arith, await-IsSound envelope response now lands t)
act-IsSound (complete token result) now lands t h = unfold complete_claimed_turn in ground arith
act-IsSound (repair token execution single_atomic rolled_back code) now lands t h =
    unfold repair_recoverable_plan in ground arith
act-IsSound (repair token phase single_atomic rolled_back code) now lands t h =
    unfold repair_recoverable_plan in ground arith
act-IsSound (decide approve response) now lands t h = unfold decide_capability_plan in ground arith
act-IsSound (decide reject response) now lands t h = unfold decide_capability_plan in ground arith
act-IsSound (cancel row_locked found) now lands t h = cancel-IsSound row_locked found now lands t h
act-IsSound (redirect fits) now lands t h = unfold redirect_for_current_user in ground arith
act-IsSound (store token envelope) now lands t h = unfold store_plan in ground arith
act-IsSound (reconcile rolled_back parses) now lands t h =
    unfold reconcile_confirmed_atomic_rollback in ground arith
act-IsSound (revert available types compensated) now lands t h =
    unfold revert_for_current_user in ground arith

pub new_turn-IsSound :
    (id : ℕ) (conversation : Option ℕ) (user now : ℕ) → IsSound (new_turn id conversation user now)
unfolding new_turn
new_turn-IsSound id conversation user now = ground arith
