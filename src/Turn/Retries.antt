-- ===== src/Turn/Retries.antt =====
-- Attempts, the write barrier, and what becomes of a turn that fails, is lost or is redirected.
use ai_odoo_assistant.Prelude.{ℕ, ltb, leb, ◌<◌, ◌≡◌, Bool, true, false, arith}
use ai_odoo_assistant.Prelude.Result.{ok}
use ai_odoo_assistant.Turn.{Turn, Response, is_queued, is_awaiting, is_claimable}
use ai_odoo_assistant.Turn.Lifecycle.{
  max_attempts_with_redirects, fail_claimed_turn, fail_claimed_turn_with_failure,
  cancel_claimed_turn, recover_stale_turn,
}
use ai_odoo_assistant.Turn.Handlers.{
  approve, reject, commit_plan_barrier, persist_awaiting_plan, complete_claimed_turn,
  max_interventions, has_conversation, decide_capability_plan, cancel_for_current_user,
  redirect_for_current_user,
}
use ai_odoo_assistant.Turn.Recovery.{
  store_plan, reconcile_confirmed_atomic_rollback, revert_for_current_user,
}
use ai_odoo_assistant.Turn.Table.{
  Action, fail, fail_with, settle_cancel, recover, barrier, await, complete, repair, decide, cancel,
  redirect, store, reconcile, revert, act,
}
use ai_odoo_assistant.Turn.Soundness.{IsSound}

abbrev pub is_repair : Action → Bool
is_repair (repair _ _ _ _ _) = true
is_repair _ = false

-- The barrier stands, and the turn is not offered to a worker again.
pub record IsBarred (u : Turn) : Type 0 where
  pub stands : u.write_barrier ≡ true
  pub not_queued : is_queued u.state ≡ false

-- On a sound turn whose write barrier stands, every handler but the repair of a plan that rolled
-- back leaves the barrier up and the turn out of the queue: effects are never blindly retried.
pub no_blind_retry :
    (a : Action) (now : ℕ) (lands : Bool) (t : Turn)
    → IsSound t
    → t.write_barrier ≡ true
    → is_repair a ≡ false
    → IsBarred (act a now lands t)
unfolding act
no_blind_retry (fail token code found) now lands t h b n = unfold fail_claimed_turn in ground arith
no_blind_retry (fail_with token code failure found) now lands t h b n =
    unfold fail_claimed_turn_with_failure in ground arith
no_blind_retry (settle_cancel token found) now lands t h b n =
    unfold cancel_claimed_turn in ground arith
no_blind_retry (recover found) now lands t h b n = unfold recover_stale_turn in ground arith
no_blind_retry (barrier token envelope) now lands t h b n =
    unfold commit_plan_barrier in ground arith
no_blind_retry (await token envelope response) now lands t h b n =
    unfold persist_awaiting_plan in ground arith
no_blind_retry (complete token result) now lands t h b n =
    unfold complete_claimed_turn in ground arith
no_blind_retry (repair token phase single_atomic rolled_back code) now lands t h b n = cc
no_blind_retry (decide approve response) now lands t h b n =
    unfold decide_capability_plan in ground arith
no_blind_retry (decide reject response) now lands t h b n =
    unfold decide_capability_plan in ground arith
no_blind_retry (cancel row_locked found) now lands t h b n =
    unfold cancel_for_current_user in ground arith
no_blind_retry (redirect fits) now lands t h b n = unfold redirect_for_current_user in ground arith
no_blind_retry (store token envelope) now lands t h b n = unfold store_plan in ground arith
no_blind_retry (reconcile rolled_back parses) now lands t h b n =
    unfold reconcile_confirmed_atomic_rollback in ground arith
no_blind_retry (revert available types compensated) now lands t h b n =
    unfold revert_for_current_user in ground arith

-- An approved plan always has a claim: when the approval of a waiting plan goes through, the turn is
-- queued with an attempt left, whatever attempts it had used.
pub approval_is_claimable :
    (response : Response) (now : ℕ) (lands : Bool) (t u : Turn)
    → decide_capability_plan approve response now lands t ≡ ok u
    → is_claimable u ≡ true
unfolding decide_capability_plan
approval_is_claimable response now lands t u h = ground arith

-- A redirect of a waiting turn that passes every guard but the table's CHECK: below 19 used attempts
-- the turn is queued with an attempt left; at 19 it is queued with none left; beyond 19 the CHECK
-- refuses the row, and the turn waits on.
pub redirect_claimable :
    (now : ℕ) (lands : Bool) (t : Turn)
    → is_awaiting t.state ≡ true
    → t.write_barrier ≡ false
    → has_conversation t ≡ true
    → t.intervention_count < max_interventions
    → (is_claimable (act (redirect true) now lands t)
        ≡ ltb t.attempt_count max_attempts_with_redirects)
      × (is_queued (act (redirect true) now lands t).state
          ≡ leb t.attempt_count max_attempts_with_redirects)
      × (is_awaiting (act (redirect true) now lands t).state
          ≡ ltb max_attempts_with_redirects t.attempt_count)
unfolding act redirect_for_current_user
redirect_claimable now lands t w b c i = ground arith
