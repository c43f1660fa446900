-- ===== src/Turn/Table.antt =====
-- The turn table under any interleaving of its handlers. Each handler commits one row in one
-- transaction, and the scan for lost workers its rows in another, so that an execution of the system
-- is a sequence of them.
use ai_odoo_assistant.Prelude.{
  ℕ, suc, String, Bool, false, not, ◌&&◌, Option, none, List, [], ◌∷◌, ◌++◌, if◌then◌else◌,
}
use ai_odoo_assistant.Prelude.Result.{Result, ok, err}
use ai_odoo_assistant.Turn.{Turn, Envelope, Response, queued}
use ai_odoo_assistant.Turn.Lifecycle.{
  Interrupted, Failure, append_optional, max_attempts_default, fail_claimed_turn,
  fail_claimed_turn_with_failure, cancel_claimed_turn, recover_stale_turn,
}
use ai_odoo_assistant.Turn.Handlers.{
  check_attempts, owns, Phase, Decision, commit_plan_barrier, persist_awaiting_plan,
  complete_claimed_turn, repair_recoverable_plan, decide_capability_plan, cancel_for_current_user,
  redirect_for_current_user,
}
use ai_odoo_assistant.Turn.Recovery.{
  store_plan, reconcile_confirmed_atomic_rollback, revert_for_current_user,
}
use ai_odoo_assistant.Turn.Scan.{recover_stale_turns}
use ai_odoo_assistant.Turn.Scheduler.{Configured, update_where, claim_next_turn}

-- A handler on one row, with what its caller and its environment supply.
pub data Action : Type 0 where
  fail : String → String → Interrupted → Action
  fail_with : String → String → Failure → Interrupted → Action
  settle_cancel : String → Interrupted → Action
  recover : Interrupted → Action
  barrier : String → Envelope → Action
  await : String → Envelope → Response → Action
  complete : String → Response → Action
  repair : String → Phase → Bool → Bool → String → Action
  decide : Decision → Response → Action
  cancel : Bool → Interrupted → Action
  redirect : Bool → Action
  store : String → Envelope → Action
  reconcile : Bool → Bool → Action
  revert : Bool → List String → Result String → Action

-- A handler that raises, or writes a row that the CHECK refuses, rolls its transaction back.
abbrev pub commit : Turn → Result Turn → Turn
commit t (ok u) = if check_attempts u then u else t
commit t (err code) = t

-- The runtime writes a row only as the worker that holds it: its transaction read the row under
-- its lease, and one that has lost it fails on the concurrent update. A plan is left to a human
-- only before the barrier, or after a repair has lowered it.
unfoldable pub act : Action → ℕ → Bool → Turn → Turn
act (fail token code found) now lands t = fail_claimed_turn token code found now lands t
act (fail_with token code failure found) now lands t =
    fail_claimed_turn_with_failure token code failure found now lands t
act (settle_cancel token found) now lands t = cancel_claimed_turn token found now lands t
act (recover found) now lands t = recover_stale_turn found now lands t
act (barrier token envelope) now lands t = commit t (commit_plan_barrier token envelope now lands t)
act (await token envelope response) now lands t =
    if owns token t && not t.write_barrier
    then persist_awaiting_plan envelope response now lands t
    else t
act (complete token result) now lands t = commit t (complete_claimed_turn token result now lands t)
act (repair token phase single_atomic rolled_back code) now lands t =
    if owns token t
    then commit t (repair_recoverable_plan phase single_atomic rolled_back code t)
    else t
act (decide decision response) now lands t =
    commit t (decide_capability_plan decision response now lands t)
act (cancel row_locked found) now lands t = cancel_for_current_user row_locked found now lands t
act (redirect fits) now lands t = commit t (redirect_for_current_user fits now lands t)
act (store token envelope) now lands t = store_plan token envelope t
act (reconcile rolled_back parses) now lands t =
    reconcile_confirmed_atomic_rollback rolled_back parses lands t
act (revert available types compensated) now lands t =
    commit t (revert_for_current_user available types compensated lands t)

-- The row that `enqueue_for_current_user` creates.
unfoldable pub new_turn : ℕ → Option ℕ → ℕ → ℕ → Turn
new_turn id conversation user now = record {
  id = id;
  conversation_id = conversation;
  user_id = user;
  state = queued;
  queued_at = now;
  started_at = none;
  scheduler_claimed_at = none;
  heartbeat_at = none;
  lease_expires_at = none;
  lease_token = none;
  attempt_count = 0;
  max_attempts = max_attempts_default;
  write_barrier = false;
  cancel_requested_at = none;
  completed_at = none;
  error_code = none;
  capability_plan_payload = none;
  result_payload = none;
  assistant_message = none;
  control_cancel_requested = false;
  intervention_count = 0;
  last_event_sequence = 0;
  event_ids = [];
}

-- The next value of the id sequence: above every row.
pub record Database : Type 0 where
  pub next_id : ℕ
  pub turns : List Turn

pub data Op : Type 0 where
  enqueue : Option ℕ → ℕ → Op
  claim : Configured → (ℕ → Bool) → String → Op
  scan : (ℕ → Bool) → (ℕ → Interrupted) → (ℕ → Bool) → Op
  on : ℕ → Action → Op

-- One transaction at time `now`.
unfoldable pub step : Op → ℕ → Bool → Database → Database
step (enqueue conversation user) now lands db = record {
  next_id = suc db.next_id;
  turns =
      db.turns ++ append_optional lands "queued" (new_turn db.next_id conversation user now) ∷ [];
}
step (claim configured locked token) now lands db = record db {
  turns = (claim_next_turn configured locked token now lands db.turns).0;
}
step (scan locked found stored) now lands db = record db {
  turns = recover_stale_turns locked found stored now db.turns;
}
step (on id action) now lands db = record db {
  turns = update_where id (act action now lands) db.turns;
}

-- Every database that transactions can lead to, from the empty one.
pub data Reachable : Database → Type 0 where
  start : Reachable (record { next_id = 1; turns = [] })
  then :
      {db : Database} (op : Op) (now : ℕ) (lands : Bool)
      → Reachable db
      → Reachable (step op now lands db)
