-- ===== src/Turn/Tests.antt =====
-- A short life of two turns of one conversation, and the theorems at it.
use ai_odoo_assistant.Prelude.{
  All, not, ◌&&◌, ℕ, ◌≤◌, ltb, leb, ◌≡◌, refl, inl, inr, Bool, true, false, none, some, List, [],
  ◌∷◌, arith,
}
use ai_odoo_assistant.Prelude.PyText.{strip}
use ai_odoo_assistant.Prelude.Result.{Result, ok}
use ai_odoo_assistant.Turn.{
  State, Turn, Response, recovery_required, is_awaiting, running, awaiting_confirmation,
  plan_awaiting, is_queued, is_claimable,
}
use ai_odoo_assistant.Turn.Lifecycle.{
  Interrupted, append_optional, claim_row, max_attempts_with_redirects,
}
use ai_odoo_assistant.Turn.Handlers.{approve, complete_claimed_turn, decide_capability_plan}
use ai_odoo_assistant.Turn.Scheduler.{
  unset, turns, count_active, supported_runner_capacity, update_where, claim_next_turn,
  effective_turn_capacity, is_eligible, select_from, rank, precedes, is_pending,
}
use ai_odoo_assistant.Turn.Table.{
  Action, redirect, reconcile, complete, fail, act, new_turn, Database, enqueue, claim, on, step,
  Reachable, start, then,
}
use ai_odoo_assistant.Turn.Scan.{insert, by_lease, recover_stale_turns}
use ai_odoo_assistant.Turn.Lost.{is_lost, recover_stale_turns-leaves}
use ai_odoo_assistant.Turn.Recovery.{reconcile_confirmed_atomic_rollback}
use ai_odoo_assistant.Turn.Soundness.{IsSound}
use ai_odoo_assistant.Turn.Guarantees.{
  IsFairClaim, conversation_order, runner_capacity, claim_next_turn_fair,
}
use ai_odoo_assistant.Turn.Retries.{
  IsBarred, no_blind_retry, approval_is_claimable, redirect_claimable,
}

abbrev unlocked : ℕ → Bool
unlocked _ = false

abbrev done : Response
done = record { answer = "Done."; rest = "{}" }

abbrev empty : Database
empty = record { next_id = 1; turns = [] }

abbrev two_queued : Database
two_queued = step (enqueue (some 7) 1) 11 true (step (enqueue (some 7) 1) 10 true empty)

abbrev first_claimed : Database
first_claimed = step (claim unset unlocked "a") 20 true two_queued

abbrev first_done : Database
first_done = step (on 1 (complete "a" done)) 30 true first_claimed

abbrev second_claimed : Database
second_claimed = step (claim (turns 5) unlocked "b") 40 true first_done

two_queued-Reachable : Reachable two_queued
two_queued-Reachable = then (enqueue (some 7) 1) 11 true (then (enqueue (some 7) 1) 10 true start)

second_claimed-Reachable : Reachable second_claimed
second_claimed-Reachable = then (claim (turns 5) unlocked "b") 40 true (
    then (on 1 (complete "a" done)) 30 true
      (then (claim unset unlocked "a") 20 true two_queued-Reachable))

-- The rows of `second_claimed`, at their positions.
abbrev first_row : List Turn → Turn
first_row [] = new_turn 0 none 0 0
first_row (t ∷ ts) = t

abbrev second_row : List Turn → Turn
second_row [] = new_turn 0 none 0 0
second_row (t ∷ ts) = first_row ts

conversation_order_example : is_pending (first_row second_claimed.turns) ≡ false
unfolding step claim_next_turn append_optional new_turn select_from is_eligible rank precedes
    count_active effective_turn_capacity update_where act complete_claimed_turn claim_row strip
conversation_order_example =
    conversation_order second_claimed-Reachable (first_row second_claimed.turns)
      (second_row second_claimed.turns) (inl refl) (inr (inl refl)) (omega arith) refl refl

runner_capacity_example : count_active second_claimed.turns ≤ supported_runner_capacity
runner_capacity_example = runner_capacity second_claimed-Reachable

claim_next_turn_fair_example :
    (t : Turn) × (t.id ≡ 1)
    × IsFairClaim unset unlocked two_queued.turns t
    × ((claim_next_turn unset unlocked "a" 20 true two_queued.turns).0
        ≡ update_where 1 (claim_row "a" 20 true) two_queued.turns)
unfolding step claim_next_turn append_optional new_turn select_from is_eligible rank precedes
    count_active effective_turn_capacity
claim_next_turn_fair_example =
    claim_next_turn_fair unset unlocked "a" 20 true two_queued-Reachable 1 refl

abbrev late_failure : Action
late_failure = fail "a" "runtime_unavailable" (record { existing = none; content = "" })

abbrev fresh : Turn
fresh = new_turn 1 (some 7) 1 10

-- A claimed turn whose barrier stands, with a lease until 320.
abbrev in_effect : Turn
in_effect = record fresh {
  state = running;
  attempt_count = 1;
  lease_token = some "a";
  lease_expires_at = some 320;
  write_barrier = true;
}

in_effect-IsSound : IsSound in_effect
unfolding new_turn
in_effect-IsSound = ground arith

no_blind_retry_example : IsBarred (
    act
      (fail "a" "runtime_unavailable" (record { existing = none; content = "" }))
      50
      true
      in_effect)
no_blind_retry_example =
    no_blind_retry (fail "a" "runtime_unavailable" (record { existing = none; content = "" })) 50
      true in_effect in_effect-IsSound refl refl

-- The same turn, when its journal shows that the operation was rolled back.
abbrev lost : Turn
lost = record in_effect { state = recovery_required; lease_token = none }

reconciles : (act (reconcile true true) 70 true lost).state ≡ State.failed
unfolding act reconcile_confirmed_atomic_rollback
reconciles = refl

-- A turn that waits for a decision after its third and last attempt.
abbrev waiting : Turn
waiting = record fresh {
  state = awaiting_confirmation;
  attempt_count = 3;
  capability_plan_payload = some (record { plan_state = plan_awaiting; human_approved = false });
}

abbrev approved : Result Turn → Turn
approved (ok u) = u
approved _ = fresh

approval_is_claimable_example :
    is_claimable (approved (decide_capability_plan approve done 60 true waiting)) ≡ true
unfolding decide_capability_plan
approval_is_claimable_example =
    approval_is_claimable done 60 true waiting
      (approved (decide_capability_plan approve done 60 true waiting)) refl

-- The same after nineteen attempts.
abbrev worn : Turn
worn = record waiting { attempt_count = 19; max_attempts = 19 }

redirect_claimable_example :
    (is_claimable (act (redirect true) 60 true worn)
      ≡ ltb worn.attempt_count max_attempts_with_redirects)
    × (is_queued (act (redirect true) 60 true worn).state
        ≡ leb worn.attempt_count max_attempts_with_redirects)
    × (is_awaiting (act (redirect true) 60 true worn).state
        ≡ ltb max_attempts_with_redirects worn.attempt_count)
unfolding new_turn
redirect_claimable_example = redirect_claimable 60 true worn refl refl refl (omega arith)

-- A worker that was lost before its barrier, beside the one that was lost behind it.
abbrev lost_turns : List Turn
lost_turns = in_effect ∷ record in_effect { id = 2; write_barrier = false } ∷ []

abbrev nothing_stored : ℕ → Interrupted
nothing_stored _ = record { existing = none; content = "" }

abbrev all_land : ℕ → Bool
all_land _ = true

recover_stale_turns-leaves_example :
    All
      (λ r. (is_lost 400 r && not (unlocked r.id)) ≡ false)
      (recover_stale_turns unlocked nothing_stored all_land 400 lost_turns)
unfolding by_lease insert new_turn
recover_stale_turns-leaves_example =
    recover_stale_turns-leaves 400 unlocked nothing_stored all_land lost_turns (omega arith)
