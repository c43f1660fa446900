-- ===== src/Turn/Lifecycle.antt =====
-- What each handler writes to a turn row: models/turn_queue.py, turn_scheduler.py,
-- turn_failure.py, embedded_runtime.py, turn_control.py and effect_recovery_runtime.py under
-- addons/odoo_ai_assistant/. `now` is the time of the call, `lands` whether the event that follows
-- a transition is stored (it is optional in the source), and a handler whose guard fails leaves
-- the row as it is.
use ai_odoo_assistant.Prelude.{
  ℕ, ◌+◌, ltb, min, String, str_eq, mem, Bool, true, false, not, ◌&&◌, ◌||◌, Option, none, some,
  List, [], ◌∷◌, if◌then◌else◌,
}
use ai_odoo_assistant.Turn.{
  State, Turn, Response, queued, running, completed, failed, cancelled, recovery_required,
  holds_slot, is_cancel_requested,
}

-- `append_for_turn` under `append_optional_for_turn`: the next sequence, or nothing on a failure.
unfoldable pub append_optional : Bool → String → Turn → Turn
append_optional lands event_type t =
    if lands
    then record t {
      last_event_sequence = t.last_event_sequence + 1;
      event_ids =
          record { sequence = t.last_event_sequence + 1; event_type = event_type } ∷ t.event_ids;
    }
    else t

-- The lease of a row: `lease_token == token`.
abbrev pub has_lease : String → Turn → Bool
has_lease token t = elim t.lease_token [ none ↦ false | some held ↦ str_eq held token ]

abbrev pub lease_seconds : ℕ
lease_seconds = 300

-- COALESCE(value, fallback)
abbrev pub coalesce : Option ℕ → ℕ → ℕ
coalesce none fallback = fallback
coalesce (some v) fallback = v

-- The UPDATE of `_claim_next_turn`, and the event after its commit.
unfoldable pub claim_row : String → ℕ → Bool → Turn → Turn
unfolding append_optional
claim_row token now lands t = append_optional lands "started" (record t {
  state = running;
  attempt_count = t.attempt_count + 1;
  started_at = some (coalesce t.started_at now);
  scheduler_claimed_at = some now;
  heartbeat_at = some now;
  lease_expires_at = some (now + lease_seconds);
  lease_token = some token;
})

-- What `_finalize_interrupted_answer` finds: the message that the browser's stop stored for this
-- turn, and the text to store where there is none.
pub record Interrupted : Type 0 where
  pub existing : Option String
  pub content : String

abbrev replace_answer : String → Option Response → Option Response
replace_answer content none = none
replace_answer content (some r) = some (record r { answer = content })

finalize_with : Interrupted → Option ℕ → Option String → Turn → Turn
finalize_with found none existing t = t
finalize_with found (some conversation) none t = record t {
  assistant_message = some found.content;
  result_payload = replace_answer found.content t.result_payload;
}
finalize_with found (some conversation) (some message) t = record t {
  assistant_message = some message;
}

abbrev pub is_some {ℓ} : {A : Type ℓ} → Option A → Bool
is_some none = false
is_some (some a) = true

unfoldable pub finalize_interrupted_answer : Interrupted → Turn → Turn
unfolding finalize_with
finalize_interrupted_answer found t =
    if is_some t.assistant_message
    then t
    else finalize_with found t.conversation_id found.existing t

-- The row of a turn that a worker, or the recovery of its lease, settles as cancelled.
unfoldable pub settle_cancelled : Interrupted → ℕ → Turn → Turn
unfolding finalize_interrupted_answer
settle_cancelled found now t = record (finalize_interrupted_answer found t) {
  state = cancelled;
  completed_at = some now;
  lease_token = none;
  lease_expires_at = none;
}

abbrev requeue_row : ℕ → Turn → Turn
requeue_row now t = record t {
  state = queued;
  queued_at = now;
  lease_token = none;
  lease_expires_at = none;
  error_code = none;
}

abbrev settle_row : State → String → ℕ → Turn → Turn
settle_row target code now t = record t {
  state = target;
  error_code = some code;
  completed_at = some now;
  lease_token = none;
  lease_expires_at = none;
}

-- _MAX_ATTEMPTS, _MAX_ATTEMPTS_WITH_REDIRECTS
abbrev pub max_attempts_default : ℕ
max_attempts_default = 3

abbrev pub max_attempts_with_redirects : ℕ
max_attempts_with_redirects = 19

-- _NON_RETRYABLE_TURN_ERRORS
pub non_retryable_turn_errors : List String
non_retryable_turn_errors =
    "access_denied" ∷ "agent_capability_call_budget_exceeded"
    ∷ "agent_correctable_failure_budget_exceeded" ∷ "agent_provider_decision_budget_exceeded"
    ∷ "agent_task_plan_invalid" ∷ "agent_task_plan_revision_invalid"
    ∷ "capability_authority_mismatch" ∷ "capability_not_available"
    ∷ "capability_plan_approval_required" ∷ "capability_plan_binding_mismatch"
    ∷ "capability_plan_corrupt" ∷ "capability_plan_not_authorized"
    ∷ "capability_plan_precondition_changed" ∷ "capability_plan_version_mismatch"
    ∷ "capability_verification_failed" ∷ "runtime_contract_invalid" ∷ []

unfoldable pub is_retryable : String → Bool
unfolding non_retryable_turn_errors mem
is_retryable code = not (mem code non_retryable_turn_errors)

-- A redirect that a worker met gets one more attempt, up to the ceiling.
redirect_ceiling : String → Turn → Turn
redirect_ceiling code t =
    if str_eq code "agent_redirected"
      && (not t.write_barrier
          && (ltb t.max_attempts max_attempts_with_redirects
              && not (ltb t.attempt_count t.max_attempts)))
    then record t { max_attempts = min max_attempts_with_redirects (t.max_attempts + 1) }
    else t

-- The end of a failed attempt: another one, or a terminal state.
retry_or_settle : Bool → String → ℕ → Bool → Turn → Turn
unfolding append_optional
retry_or_settle retryable code now lands t =
    if retryable && (not t.write_barrier && ltb t.attempt_count t.max_attempts)
    then append_optional lands "requeued" (requeue_row now t)
    else if t.write_barrier
    then append_optional lands "recovery_required" (settle_row recovery_required code now t)
    else append_optional lands "failed" (settle_row failed code now t)

-- turn.state == "cancel_requested" or _control_cancel_requested_in_env(env, turn)
abbrev pub wants_cancel : Turn → Bool
wants_cancel t = is_cancel_requested t.state || t.control_cancel_requested

-- `_fail_claimed_turn`
unfoldable pub fail_claimed_turn : String → String → Interrupted → ℕ → Bool → Turn → Turn
unfolding append_optional settle_cancelled redirect_ceiling retry_or_settle
fail_claimed_turn token code found now lands t =
    if not (has_lease token t)
    then t
    else if wants_cancel t
    then append_optional lands "cancelled" (settle_cancelled found now t)
    else retry_or_settle (is_retryable code) code now lands (redirect_ceiling code t)

-- The fields of a failure envelope that the retry reads, as tests on their values.
pub record Failure : Type 0 where
  pub retryability : String
  pub effect_state : String
  pub user_action : String

unfoldable pub is_safe_failure : Failure → Bool
unfolding mem
is_safe_failure f =
    str_eq f.retryability "safe"
    && (mem f.effect_state ("none" ∷ "not_started" ∷ []) && str_eq f.user_action "retry")

-- `_fail_claimed_turn_with_failure`
unfoldable pub fail_claimed_turn_with_failure :
    String → String → Failure → Interrupted → ℕ → Bool → Turn → Turn
unfolding append_optional settle_cancelled retry_or_settle
fail_claimed_turn_with_failure token code failure found now lands t =
    if not (has_lease token t)
    then t
    else if wants_cancel t
    then append_optional lands "cancelled" (settle_cancelled found now t)
    else retry_or_settle (is_safe_failure failure) code now lands t

-- `_cancel_claimed_turn`, under the test of `_cancellation_requested`
unfoldable pub cancel_claimed_turn : String → Interrupted → ℕ → Bool → Turn → Turn
unfolding append_optional settle_cancelled
cancel_claimed_turn token found now lands t =
    if has_lease token t && wants_cancel t
    then append_optional lands "cancelled" (settle_cancelled found now t)
    else t

-- lease_expires_at IS NOT NULL AND lease_expires_at < now
abbrev pub lease_expired : ℕ → Turn → Bool
lease_expired now t = elim t.lease_expires_at [ none ↦ false | some at ↦ ltb at now ]

-- The loop body of `_recover_stale_turns`, under the WHERE of its scan. Which rows a run
-- reaches, by SKIP LOCKED, the order and the LIMIT, is in Turn/Scan.
unfoldable pub recover_stale_turn : Interrupted → ℕ → Bool → Turn → Turn
unfolding append_optional settle_cancelled
recover_stale_turn found now lands t =
    if not (holds_slot t.state && lease_expired now t)
    then t
    else if wants_cancel t
    then append_optional lands "cancelled" (settle_cancelled found now t)
    else if is_some t.result_payload
    then append_optional lands "completed" (record t {
      state = completed;
      completed_at = some (coalesce t.completed_at now);
      lease_token = none;
      lease_expires_at = none;
    })
    else if t.write_barrier
    then append_optional lands "recovery_required"
        (settle_row recovery_required "worker_lost_after_write_barrier" now t)
    else if ltb t.attempt_count t.max_attempts
    then append_optional lands "requeued" (requeue_row now t)
    else append_optional lands "failed" (settle_row failed "worker_lost" now t)
