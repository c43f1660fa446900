-- ===== src/Agent/Restart.antt =====
-- A turn that is restarted from its stored transcript, any number of times, executes no call twice: `run` of
-- addons/odoo_ai_assistant/runtime/agent/service.py.
use ai_odoo_assistant.Prelude.{
  ℕ, zero, suc, Bool, true, false, Option, none, some, String, List, [], ◌∷◌, ◌≡◌, refl,
  if◌then◌else◌,
}
use ai_odoo_assistant.Prelude.Json.{Fields}
use ai_odoo_assistant.Prelude.Result.{Result, ok, err}
use ai_odoo_assistant.Agent.Budgets.{AgentBudgetSet}
use ai_odoo_assistant.Agent.TaskPlan.{all_different}
use ai_odoo_assistant.Agent.Transcript.{WorkingItem}
use ai_odoo_assistant.Agent.Host.{
  NextDecision, final_answer, task_plan_update, reasoning_capability_call, plan_step_proposal,
  Reply, decided, misjudged, failed, Storing, CapabilityDefinition, AgentHost, History,
  ServiceState, M, continue, cases, ◌>>=◌, ◌>>◌,
}
use ai_odoo_assistant.Agent.Service.{Judgement, accepted, rejected, AgentTurnResult}
use ai_odoo_assistant.Agent.Loop.{
  Counters, Round, finished, again, call, reason, work_on, act_on, follow, judge_reply, iterate,
  go_on, rounds, loop, start_loop, run_decision_loop, run,
}
use ai_odoo_assistant.Agent.Keeps.{
  executed_ids, stored_items, AllRecorded, Keeps, keeping_rules, Keeps-raise, Keeps-pure,
}
use ai_odoo_assistant.Agent.Quiet.{
  Keeps-finish, Keeps-fail_again, Keeps-answer_turn, Keeps-propose, Keeps-reject,
  Keeps-resume_terminal, Keeps-record_item, Keeps-record_decision, Keeps-record_task_plan,
  Keeps-mark_work_started, Keeps-ensure_not_cancelled, Keeps-close_interrupted_calls,
  Keeps-ensure_user_input, Keeps-finish_safely,
}
use ai_odoo_assistant.Agent.Once.{IsResumable, Holds-IsResumable, IsResumable-Holds, call-Extends}

record Guards {A : Type 0} (m : M A) : Type 0 where
  at : (s : ServiceState) → IsResumable s → IsResumable (m s).1

module _ {A : Type 0} where
  Guards-Keeps : (m : M A) → Keeps m → Guards m
  Guards-Keeps m k = record {
    at = λ s r.
        Holds-IsResumable (executed_ids s.history) _ r.distinct (k.at _ s (IsResumable-Holds s r));
  }

  Guards-if : (b : Bool) (x y : M A) → Guards x → Guards y → Guards (if b then x else y)
  Guards-if true x y p q = p
  Guards-if false x y p q = q

  Guards-cases {ℓ} :
      {B : Type ℓ} (o : Option B) (n : M A) (f : B → M A)
      → Guards n
      → ((b : B) → Guards (f b))
      → Guards (cases o n f)
  unfolding cases
  Guards-cases none n f p q = p
  Guards-cases (some b) n f p q = q b

module _ {A B : Type 0} where
  Guards-bind : (m : M A) (f : A → M B) → Guards m → ((a : A) → Guards (f a)) → Guards (m >>= f)
  unfolding ◌>>=◌
  Guards-bind m f km kf = record { at = λ s h. continued (m s).0 (m s).1 (km.at s h) }
    where
      continued : (r : Result A) (s : ServiceState) → IsResumable s → IsResumable (continue r f s).1
      continued (ok a) s h = (kf a).at s h
      continued (err code) s h = h

  Guards-then : (m : M A) (n : M B) → Guards m → Guards n → Guards (m >> n)
  unfolding ◌>>◌
  Guards-then m n km kn = record { at = λ s h. continued (m s).0 (m s).1 (km.at s h) }
    where
      continued :
          (r : Result A) (s : ServiceState) → IsResumable s → IsResumable (continue r (λ _. n) s).1
      continued (ok a) s h = kn.at s h
      continued (err code) s h = h

ruleset guard_rules =
    (Guards-if, Guards-cases, Guards-bind, Guards-then, Guards-Keeps, keeping_rules)

module _ (host : AgentHost) (callback : History → List WorkingItem → Storing)
    (persists : host.persist ≡ some callback) (budgets : AgentBudgetSet)
    (allow_plan_proposals : Bool) (reasoning planning : List CapabilityDefinition) where
  Guards-call :
      (c : Counters) (call_id capability : String) (arguments : Fields)
      → Guards
          (call host budgets allow_plan_proposals reasoning planning c call_id capability arguments)
  Guards-call c call_id capability arguments = record {
    at = λ s r.
        (call-Extends host budgets allow_plan_proposals reasoning planning callback persists c
          call_id capability arguments s r).resumable;
  }

  Guards-reason :
      (c : Counters) (call_id capability : String) (arguments : Fields)
      → Guards (
          reason host budgets allow_plan_proposals reasoning planning c call_id capability
            arguments)
  unfolding reason
  Guards-reason c call_id capability arguments =
      search
        (
          guard_rules, Keeps-finish, Keeps-record_decision, Keeps-record_item, Keeps-fail_again,
          Guards-call,
        )
        depth 40

  Guards-work_on :
      (c : Counters) (d : NextDecision)
      → Guards (work_on host budgets allow_plan_proposals reasoning planning c d)
  unfolding work_on
  Guards-work_on c (task_plan_update plan) = search (guard_rules, Keeps-record_task_plan) depth 20
  Guards-work_on c (plan_step_proposal i k a s) =
      Guards-Keeps _ (Keeps-propose host budgets allow_plan_proposals reasoning planning c i k a s)
  Guards-work_on c (reasoning_capability_call i k a) = Guards-reason c i k a
  Guards-work_on c (final_answer a k) =
      Guards-Keeps _ (Keeps-answer_turn host budgets allow_plan_proposals reasoning planning a k)

  Guards-act_on :
      (c : Counters) (d : NextDecision)
      → Guards (act_on host budgets allow_plan_proposals reasoning planning c d)
  unfolding act_on
  Guards-act_on c (final_answer a k) =
      Guards-Keeps _ (Keeps-answer_turn host budgets allow_plan_proposals reasoning planning a k)
  Guards-act_on c (task_plan_update plan) =
      search (guard_rules, Guards-work_on, Keeps-finish, Keeps-mark_work_started) depth 20
  Guards-act_on c (plan_step_proposal i k a s) =
      search (guard_rules, Guards-work_on, Keeps-finish, Keeps-mark_work_started) depth 20
  Guards-act_on c (reasoning_capability_call i k a) =
      search (guard_rules, Guards-work_on, Keeps-finish, Keeps-mark_work_started) depth 20

  Guards-follow :
      (c : Counters) (j : Judgement)
      → Guards (follow host budgets allow_plan_proposals reasoning planning c j)
  unfolding follow
  Guards-follow c (accepted valid) = Guards-act_on c valid
  Guards-follow c (rejected code kept) =
      Guards-Keeps _ (Keeps-reject host budgets allow_plan_proposals reasoning planning c code kept)

  Guards-judge_reply :
      (c : Counters) (r : Reply)
      → Guards (judge_reply host budgets allow_plan_proposals reasoning planning c r)
  unfolding judge_reply
  Guards-judge_reply c (decided d) = Guards-follow _ _
  Guards-judge_reply c (misjudged code kept) =
      Guards-Keeps _ (Keeps-reject host budgets allow_plan_proposals reasoning planning _ code kept)
  Guards-judge_reply c (failed code) = Guards-Keeps _ (Keeps-raise _)

  Guards-iterate :
      (c : Counters) → Guards (iterate host budgets allow_plan_proposals reasoning planning c)
  unfolding iterate
  Guards-iterate c = search (guard_rules, Guards-judge_reply, Keeps-ensure_not_cancelled) depth 40

  Guards-go_on :
      (next : Counters → M AgentTurnResult) (r : Round)
      → ((c : Counters) → Guards (next c))
      → Guards (go_on host budgets allow_plan_proposals reasoning planning next r)
  Guards-go_on next (finished result) k = Guards-Keeps _ (Keeps-pure result)
  Guards-go_on next (again c) k = k c

  Guards-rounds :
      (n : ℕ) (c : Counters)
      → Guards (rounds host budgets allow_plan_proposals reasoning planning n c)
  unfolding rounds
  Guards-rounds zero c = Guards-Keeps _ (Keeps-finish_safely host _)
  Guards-rounds (suc n) c = Guards-bind _ _ (Guards-iterate c) (λ r.
      Guards-go_on (rounds host budgets allow_plan_proposals reasoning planning n) r
        (Guards-rounds n))

  Guards-start_loop : Guards (start_loop host budgets allow_plan_proposals reasoning planning)
  unfolding start_loop loop
  Guards-start_loop = search (guard_rules, Guards-rounds, Keeps-close_interrupted_calls) depth 40

  Guards-run_decision_loop :
      (message : String)
      → Guards (run_decision_loop host budgets allow_plan_proposals reasoning planning message)
  unfolding run_decision_loop
  Guards-run_decision_loop message =
      search (guard_rules, Guards-start_loop, Keeps-resume_terminal, Keeps-ensure_user_input) depth
        40

-- One start of the turn: what the service is given for it.
pub record Attempt : Type 0 where
  pub su : Bool
  pub allow_plan_proposals : Bool
  pub reasoning : List CapabilityDefinition
  pub planning : List CapabilityDefinition
  pub metadata : Fields
  pub message : String
  pub conversation_summary : String

unfoldable pub run_attempt : AgentHost → Attempt → M AgentTurnResult
run_attempt host a =
    run host a.su a.allow_plan_proposals a.reasoning a.planning a.metadata a.message
      a.conversation_summary

-- A new service, with the transcript that was stored last.
unfoldable pub restart : ServiceState → ServiceState
restart s = record {
  working_items = stored_items s.history;
  is_work_started = false;
  history = s.history;
}

abbrev pub unstarted_turn : ServiceState
unstarted_turn = record { working_items = []; is_work_started = false; history = [] }

-- After the attempts, the last of which comes first.
unfoldable pub after : AgentHost → List Attempt → ServiceState
after host [] = unstarted_turn
after host (a ∷ attempts) = (run_attempt host a (restart (after host attempts))).1

restart-IsResumable : (s : ServiceState) → IsResumable s → IsResumable (restart s)
unfolding restart
restart-IsResumable s r = record {
  distinct = r.distinct;
  in_transcript = r.in_store;
  in_store = r.in_store;
}

module _ (host : AgentHost) (callback : History → List WorkingItem → Storing)
    (persists : host.persist ≡ some callback) where
  Guards-run_attempt : (a : Attempt) → Guards (run_attempt host a)
  unfolding run_attempt run
  Guards-run_attempt a =
      search (guard_rules, Guards-run_decision_loop host callback persists) depth 40

  after-IsResumable : (attempts : List Attempt) → IsResumable (after host attempts)
  unfolding after executed_ids all_different
  after-IsResumable [] = record { distinct = refl; in_transcript = tt; in_store = tt }
  after-IsResumable (a ∷ attempts) =
      (Guards-run_attempt a).at _ (restart-IsResumable _ (after-IsResumable attempts))

  -- Where the service has a callback that stores the transcript, whatever the provider, the executor and
  -- the database answer, and however often the turn is started again from the transcript stored last:
  -- no call id is executed twice, and what is stored records every call that was executed.
  pub executed_once :
      (attempts : List Attempt)
      → let h = (after host attempts).history in
        (all_different (executed_ids h) ≡ true) × AllRecorded (stored_items h) (executed_ids h)
  executed_once attempts =
      ((after-IsResumable attempts).distinct, (after-IsResumable attempts).in_store)
