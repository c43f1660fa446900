-- ===== src/Turn/Transitions.antt =====
-- The row before and after every handler: terminal states, work in hand, ids and conversations.
use ai_odoo_assistant.Prelude.{ℕ, ◌≡◌, Bool, true, false, ◌||◌, String, arith}
use ai_odoo_assistant.Turn.{Turn, failed, recovery_required, holds_slot, is_terminal, is_awaiting}
use ai_odoo_assistant.Prelude.{List, ◌⊎◌, inl, inr, ◌&&◌, refl, Bool-cases}
use ai_odoo_assistant.Prelude.Result.{Result}
use ai_odoo_assistant.Turn.Lifecycle.{
  append_optional, Interrupted, Failure, fail_claimed_turn, fail_claimed_turn_with_failure,
  cancel_claimed_turn, recover_stale_turn,
}
use ai_odoo_assistant.Turn.Handlers.{
  execution, approve, reject, commit_plan_barrier, persist_awaiting_plan, complete_claimed_turn,
  repair_recoverable_plan, decide_capability_plan, cancel_for_current_user,
  redirect_for_current_user,
}
use ai_odoo_assistant.Turn.Recovery.{
  is_recovery_required, has_settled, store_plan, reconcile_confirmed_atomic_rollback,
  revert_for_current_user,
}
use ai_odoo_assistant.Turn.Scheduler.{is_pending}
use ai_odoo_assistant.Turn.Table.{
  Action, fail, fail_with, settle_cancel, recover, barrier, await, complete, repair, decide, cancel,
  redirect, store, reconcile, revert, act,
}
use ai_odoo_assistant.Turn.Soundness.{IsSound}

-- A turn that a worker or a human has in hand.
abbrev pub in_progress : Turn → Bool
in_progress t = holds_slot t.state || is_awaiting t.state

-- What a handler may do to a row, as the scheduler sees it.
pub record Tame (t u : Turn) : Type 0 where
  pub id : u.id ≡ t.id
  pub conversation : u.conversation_id ≡ t.conversation_id
  pub user : u.user_id ≡ t.user_id
  pub starts_nothing : in_progress u ≡ true → in_progress t ≡ true
  pub takes_no_slot : holds_slot u.state ≡ true → holds_slot t.state ≡ true
  pub revives_nothing : is_pending t ≡ false → is_pending u ≡ false
  pub claims_nothing : u.scheduler_claimed_at ≡ t.scheduler_claimed_at

fail-Tame :
    (token code : String) (found : Interrupted) (now : ℕ) (lands : Bool) (t : Turn)
    → IsSound t
    → Tame t (fail_claimed_turn token code found now lands t)
unfolding fail_claimed_turn
fail-Tame token code found now lands t h = ground arith

fail_with-Tame :
    (token code : String) (f : Failure) (found : Interrupted) (now : ℕ) (lands : Bool) (t : Turn)
    → IsSound t
    → Tame t (fail_claimed_turn_with_failure token code f found now lands t)
unfolding fail_claimed_turn_with_failure
fail_with-Tame token code f found now lands t h = ground arith

recover-Tame :
    (found : Interrupted) (now : ℕ) (lands : Bool) (t : Turn)
    → Tame t (recover_stale_turn found now lands t)
unfolding recover_stale_turn
recover-Tame found now lands t = ground arith

cancel-Tame :
    (row_locked : Bool) (found : Interrupted) (now : ℕ) (lands : Bool) (t : Turn)
    → Tame t (cancel_for_current_user row_locked found now lands t)
unfolding cancel_for_current_user
cancel-Tame row_locked found now lands t = ground arith

redirect-Tame :
    (fits : Bool) (now : ℕ) (lands : Bool) (t : Turn)
    → IsSound t
    → Tame t (act (redirect fits) now lands t)
unfolding act redirect_for_current_user
redirect-Tame fits now lands t h = ground arith

-- Every handler is tame on a sound row.
pub act-Tame :
    (a : Action) (now : ℕ) (lands : Bool) (t : Turn) → IsSound t → Tame t (act a now lands t)
unfolding act
act-Tame (fail token code found) now lands t h = fail-Tame token code found now lands t h
act-Tame (fail_with token code failure found) now lands t h =
    fail_with-Tame token code failure found now lands t h
act-Tame (settle_cancel token found) now lands t h = unfold cancel_claimed_turn in ground arith
act-Tame (recover found) now lands t h = recover-Tame found now lands t
act-Tame (barrier token envelope) now lands t h = unfold commit_plan_barrier in ground arith
act-Tame (await token envelope response) now lands t h =
    unfold persist_awaiting_plan in ground arith
act-Tame (complete token result) now lands t h = unfold complete_claimed_turn in ground arith
act-Tame (repair token execution single_atomic rolled_back code) now lands t h =
    unfold repair_recoverable_plan in ground arith
act-Tame (repair token phase single_atomic rolled_back code) now lands t h =
    unfold repair_recoverable_plan in ground arith
act-Tame (decide approve response) now lands t h = unfold decide_capability_plan in ground arith
act-Tame (decide reject response) now lands t h = unfold decide_capability_plan in ground arith
act-Tame (cancel row_locked found) now lands t h = cancel-Tame row_locked found now lands t
act-Tame (redirect fits) now lands t h = redirect-Tame fits now lands t h
act-Tame (store token envelope) now lands t h = unfold store_plan in ground arith
act-Tame (reconcile rolled_back parses) now lands t h =
    unfold reconcile_confirmed_atomic_rollback in ground arith
act-Tame (revert available types compensated) now lands t h =
    unfold revert_for_current_user in ground arith

-- What a handler makes of a terminal row: it leaves it as it is, or it is the reconciliation of a
-- certified rollback, or a revert.
pub data Aftermath (lands : Bool) (t u : Turn) : Type 0 where
  unchanged : u ≡ t → Aftermath lands t u
  reconciled :
      t.state ≡ recovery_required
      → t.write_barrier ≡ true
      → u ≡ append_optional lands "recovery.rolled_back" (record t { state = failed })
      → Aftermath lands t u
  reverted :
      has_settled t.state ≡ true
      → t.write_barrier ≡ true
      → u ≡ record t {
        result_payload = u.result_payload;
        last_event_sequence = u.last_event_sequence;
        event_ids = u.event_ids;
      }
      → Aftermath lands t u

pub Aftermath-terminal :
    (lands : Bool) (t u : Turn)
    → is_terminal t.state ≡ true
    → Aftermath lands t u
    → is_terminal u.state ≡ true
unfolding append_optional
Aftermath-terminal lands t u e (unchanged k) = rw k e
Aftermath-terminal lands t u e (reconciled s b k) = rw k (ground arith)
Aftermath-terminal lands t u e (reverted s b k) = rw k e

terminal-reconcile :
    (rolled_back parses lands : Bool) (t : Turn)
    → Aftermath lands t (reconcile_confirmed_atomic_rollback rolled_back parses lands t)
unfolding reconcile_confirmed_atomic_rollback
terminal-reconcile rolled_back parses lands t =
    elim (Bool-cases
      (is_recovery_required t.state && (t.write_barrier && (rolled_back && parses)))) [
        | inl holds ↦ reconciled (ground arith) (ground arith) (rw holds refl)
        | inr fails ↦ unchanged (rw fails refl)
      ]

-- What a revert changes in a row.
abbrev IsReverted : Turn → Turn → Type 0
IsReverted t u =
    (has_settled t.state ≡ true)
    × (t.write_barrier ≡ true)
    × (u ≡ record t {
      result_payload = u.result_payload;
      last_event_sequence = u.last_event_sequence;
      event_ids = u.event_ids;
    })

revert-cases :
    (available : Bool) (types : List String) (compensated : Result String) (now : ℕ) (lands : Bool)
    (t : Turn)
    → (act (revert available types compensated) now lands t ≡ t)
      ⊎ IsReverted t (act (revert available types compensated) now lands t)
unfolding act revert_for_current_user
revert-cases available types compensated now lands t = ground arith

terminal-revert :
    (available : Bool) (types : List String) (compensated : Result String) (now : ℕ) (lands : Bool)
    (t : Turn)
    → Aftermath lands t (act (revert available types compensated) now lands t)
terminal-revert available types compensated now lands t =
    elim (revert-cases available types compensated now lands t) [
      | inl same ↦ unchanged same
      | inr k ↦ reverted k.0 k.1 k.2
    ]

pub terminal-act :
    (a : Action) (now : ℕ) (lands : Bool) (t : Turn)
    → IsSound t
    → is_terminal t.state ≡ true
    → Aftermath lands t (act a now lands t)
unfolding act
terminal-act (fail token code found) now lands t h e =
    unchanged (unfold fail_claimed_turn in ground arith)
terminal-act (fail_with token code failure found) now lands t h e =
    unchanged (unfold fail_claimed_turn_with_failure in ground arith)
terminal-act (settle_cancel token found) now lands t h e =
    unchanged (unfold cancel_claimed_turn in ground arith)
terminal-act (recover found) now lands t h e = unchanged (unfold recover_stale_turn in ground arith)
terminal-act (barrier token envelope) now lands t h e =
    unchanged (unfold commit_plan_barrier in ground arith)
terminal-act (await token envelope response) now lands t h e =
    unchanged (unfold persist_awaiting_plan in ground arith)
terminal-act (complete token result) now lands t h e =
    unchanged (unfold complete_claimed_turn in ground arith)
terminal-act (repair token phase single_atomic rolled_back code) now lands t h e =
    unchanged (unfold repair_recoverable_plan in ground arith)
terminal-act (decide decision response) now lands t h e =
    unchanged (unfold decide_capability_plan in ground arith)
terminal-act (cancel row_locked found) now lands t h e =
    unchanged (unfold cancel_for_current_user in ground arith)
terminal-act (redirect fits) now lands t h e =
    unchanged (unfold redirect_for_current_user in ground arith)
terminal-act (store token envelope) now lands t h e = unchanged (unfold store_plan in ground arith)
terminal-act (reconcile rolled_back parses) now lands t h e =
    terminal-reconcile rolled_back parses lands t
terminal-act (revert available types compensated) now lands t h e =
    terminal-revert available types compensated now lands t
