-- ===== src/Agent/Spending.antt =====
-- The calls that a turn executes stay within its budget: the loop of
-- addons/odoo_ai_assistant/runtime/agent/service.py.
use ai_odoo_assistant.Prelude.{
  ℕ, zero, suc, ◌+◌, ◌≤◌, max, ltb, Bool, false, some, String, List, ◌≡◌, refl, arith,
}
use ai_odoo_assistant.Prelude.Json.{Fields}
use ai_odoo_assistant.Prelude.Result.{Result, ok, err}
use ai_odoo_assistant.Agent.Budgets.{AgentBudgetSet}
use ai_odoo_assistant.Agent.Transcript.{WorkingItem}
use ai_odoo_assistant.Agent.Host.{
  NextDecision, final_answer, task_plan_update, reasoning_capability_call, plan_step_proposal,
  Rejected, Reply, decided, misjudged, failed, Storing, CapabilityDefinition, AgentHost, History,
  ServiceState, continue, pure, ◌>>=◌,
}
use ai_odoo_assistant.Agent.Service.{Judgement, accepted, rejected}
use ai_odoo_assistant.Agent.Loop.{
  Counters, Round, finished, again, finish, fail_again, call, reason, work_on, act_on, follow,
  reject, judge_reply, iterate, go_on, rounds, loop,
}
use ai_odoo_assistant.Agent.Returns.{
  Returned, GoesOn, Stands, Room, Gives-finish, Gives-fail_again, Gives-propose, Gives-answer_turn,
  Gives-reject, Gives-call, Gives-raise, Gives-pure,
}
use ai_odoo_assistant.Agent.Keeps.{keeping_rules, Keeps-raise, Keeps-pure}
use ai_odoo_assistant.Agent.Quiet.{
  Keeps-finish, Keeps-fail_again, Keeps-answer_turn, Keeps-propose, Keeps-reject, Keeps-record_item,
  Keeps-record_decision, Keeps-record_task_plan, Keeps-mark_work_started,
  Keeps-ensure_not_cancelled, Keeps-finish_safely,
}
use ai_odoo_assistant.Agent.Once.{IsResumable, call-Extends}
use ai_odoo_assistant.Agent.Pays.{
  executions, Within, Counted, Pays, kept, stands, Pays-quiet, Pays-bind, Pays-then, Pays-if,
  Pays-unless, Pays-cases,
}

module _ (host : AgentHost) (budgets : AgentBudgetSet) (allow_plan_proposals : Bool)
    (reasoning planning : List CapabilityDefinition)
    (callback : History → List WorkingItem → Storing)
    (persists : host.persist ≡ some callback) where
  abbrev most_calls : ℕ
  most_calls = budgets.max_capability_calls

  -- With room for one more call.
  called :
      (c : Counters)
      → ltb most_calls (suc c.capability_calls) ≡ false
      → Stands (Counted most_calls c.capability_calls) (record {
        provider_decisions = c.provider_decisions;
        capability_calls = suc c.capability_calls;
        consecutive_failures = c.consecutive_failures;
        terminal_error = c.terminal_error;
      })
  called c e =
      let room : suc c.capability_calls ≤ most_calls = ground (arith, e) in
      stands most_calls c.capability_calls
        (record {
          provider_decisions = c.provider_decisions;
          capability_calls = suc c.capability_calls;
          consecutive_failures = c.consecutive_failures;
          terminal_error = c.terminal_error;
        })
        (omega arith) (omega arith)

  -- The call is counted, and may be executed.
  Pays-call :
      (c : Counters) (call_id capability : String) (arguments : Fields)
      → ltb most_calls (suc c.capability_calls) ≡ false
      → Pays most_calls c.capability_calls (
          call host budgets allow_plan_proposals reasoning planning
            (record {
              provider_decisions = c.provider_decisions;
              capability_calls = suc c.capability_calls;
              consecutive_failures = c.consecutive_failures;
              terminal_error = c.terminal_error;
            })
            call_id
            capability
            arguments)
  Pays-call c call_id capability arguments e = record {
    at = λ s r.
        let x =
          call-Extends host budgets allow_plan_proposals reasoning planning callback persists
            (record {
              provider_decisions = c.provider_decisions;
              capability_calls = suc c.capability_calls;
              consecutive_failures = c.consecutive_failures;
              terminal_error = c.terminal_error;
            })
            call_id capability arguments s r in
        let g =
          (Gives-call host budgets allow_plan_proposals reasoning planning
              (λ d. d.capability_calls ≡ suc c.capability_calls)
              (record {
                provider_decisions = c.provider_decisions;
                capability_calls = suc c.capability_calls;
                consecutive_failures = c.consecutive_failures;
                terminal_error = c.terminal_error;
              })
              call_id capability arguments (record { whatever = λ failures error. refl })).at
            s in
        paid (executions s)
          (call host budgets allow_plan_proposals reasoning planning
            (record {
              provider_decisions = c.provider_decisions;
              capability_calls = suc c.capability_calls;
              consecutive_failures = c.consecutive_failures;
              terminal_error = c.terminal_error;
            })
            call_id capability arguments s).0
          _ x.resumable x.at_most g;
  }
    where
      room : suc c.capability_calls ≤ most_calls
      room = ground (arith, e)

      paid :
          (k : ℕ) (u : Result Round) (t : ServiceState)
          → IsResumable t
          → executions t ≤ suc k
          → Returned (GoesOn (λ d. d.capability_calls ≡ suc c.capability_calls)) (u, t)
          → Within most_calls c.capability_calls k (u, t)
      paid k (ok (again d)) t r h p =
          (r, omega (arith, h, p), omega (arith, p), omega (arith, p, room))
      paid k (ok (finished result)) t r h p = (r, omega (arith, h, room))
      paid k (err code) t r h p = (r, omega (arith, h, room))

  -- Nothing more is counted.
  unchanged : (c : Counters) → Stands (Counted most_calls c.capability_calls) c
  unchanged c = stands most_calls c.capability_calls c (omega arith) (omega arith)

  spare : (c : Counters) → Room budgets (Counted most_calls c.capability_calls) c
  spare c = record { same = unchanged c; one_more = called c }

  Pays-finish :
      (n : ℕ) (code : String)
      → Pays most_calls n (finish host budgets allow_plan_proposals reasoning planning code)
  Pays-finish n code =
      Pays-quiet most_calls n _
        (Keeps-finish host budgets allow_plan_proposals reasoning planning code)
        (Gives-finish host budgets allow_plan_proposals reasoning planning _ code)

  Pays-reason :
      (c : Counters) (call_id capability : String) (arguments : Fields)
      → Pays most_calls c.capability_calls (
          reason host budgets allow_plan_proposals reasoning planning c call_id capability
            arguments)
  unfolding reason
  Pays-reason c call_id capability arguments =
      Pays-unless most_calls _ _ _ _ (Pays-finish _ _) (λ e.
        let failing : Pays most_calls c.capability_calls (
            fail_again host budgets allow_plan_proposals reasoning planning (record {
              provider_decisions = c.provider_decisions;
              capability_calls = suc c.capability_calls;
              consecutive_failures = c.consecutive_failures;
              terminal_error = c.terminal_error;
            })) =
          Pays-quiet most_calls c.capability_calls _
            (Keeps-fail_again host budgets allow_plan_proposals reasoning planning (record {
              provider_decisions = c.provider_decisions;
              capability_calls = suc c.capability_calls;
              consecutive_failures = c.consecutive_failures;
              terminal_error = c.terminal_error;
            }))
            (Gives-fail_again host budgets allow_plan_proposals reasoning planning _
              (record {
                provider_decisions = c.provider_decisions;
                capability_calls = suc c.capability_calls;
                consecutive_failures = c.consecutive_failures;
                terminal_error = c.terminal_error;
              })
              (called c e)) in
        let calling = Pays-call c call_id capability arguments e in
        search
          (Pays-bind, Pays-then, Pays-if, keeping_rules, Keeps-record_decision, Keeps-record_item)
          depth 40)

  Pays-work_on :
      (c : Counters) (d : NextDecision)
      → Pays most_calls c.capability_calls
          (work_on host budgets allow_plan_proposals reasoning planning c d)
  unfolding work_on
  Pays-work_on c (task_plan_update plan) =
      Pays-then most_calls _ _ _ (Keeps-record_task_plan host plan) (
        Pays-quiet most_calls _ _ (Keeps-pure (again c))
          (Gives-pure (again c) (omega arith, omega arith)))
  Pays-work_on c (plan_step_proposal i n a s) =
      Pays-quiet most_calls _ _
        (Keeps-propose host budgets allow_plan_proposals reasoning planning c i n a s)
        (Gives-propose host budgets allow_plan_proposals reasoning planning _ c i n a s
          (unchanged c))
  Pays-work_on c (reasoning_capability_call i n a) = Pays-reason c i n a
  Pays-work_on c (final_answer a n) =
      Pays-quiet most_calls _ _
        (Keeps-answer_turn host budgets allow_plan_proposals reasoning planning a n)
        (Gives-answer_turn host budgets allow_plan_proposals reasoning planning _ a n)

  Pays-act_on :
      (c : Counters) (d : NextDecision)
      → Pays most_calls c.capability_calls
          (act_on host budgets allow_plan_proposals reasoning planning c d)
  unfolding act_on
  Pays-act_on c (final_answer a n) =
      Pays-quiet most_calls _ _
        (Keeps-answer_turn host budgets allow_plan_proposals reasoning planning a n)
        (Gives-answer_turn host budgets allow_plan_proposals reasoning planning _ a n)
  Pays-act_on c (task_plan_update plan) =
      search (Pays-cases, Pays-then, Pays-work_on, Pays-finish, Keeps-mark_work_started) depth 20
  Pays-act_on c (plan_step_proposal i n a s) =
      search (Pays-cases, Pays-then, Pays-work_on, Pays-finish, Keeps-mark_work_started) depth 20
  Pays-act_on c (reasoning_capability_call i n a) =
      search (Pays-cases, Pays-then, Pays-work_on, Pays-finish, Keeps-mark_work_started) depth 20

  Pays-reject :
      (c : Counters) (code : String) (kept : Rejected)
      → Pays most_calls c.capability_calls
          (reject host budgets allow_plan_proposals reasoning planning c code kept)
  Pays-reject c code kept =
      Pays-quiet most_calls _ _
        (Keeps-reject host budgets allow_plan_proposals reasoning planning c code kept)
        (Gives-reject host budgets allow_plan_proposals reasoning planning _ c code kept (spare c))

  Pays-follow :
      (c : Counters) (j : Judgement)
      → Pays most_calls c.capability_calls
          (follow host budgets allow_plan_proposals reasoning planning c j)
  unfolding follow
  Pays-follow c (accepted valid) = Pays-act_on c valid
  Pays-follow c (rejected code kept) = Pays-reject c code kept

  Pays-judge_reply :
      (c : Counters) (r : Reply)
      → Pays most_calls c.capability_calls
          (judge_reply host budgets allow_plan_proposals reasoning planning c r)
  unfolding judge_reply
  Pays-judge_reply c (decided d) = Pays-follow _ _
  Pays-judge_reply c (misjudged code kept) = Pays-reject _ code kept
  Pays-judge_reply c (failed code) = Pays-quiet most_calls _ _ (Keeps-raise _) (Gives-raise _)

  Pays-iterate :
      (c : Counters)
      → Pays most_calls c.capability_calls
          (iterate host budgets allow_plan_proposals reasoning planning c)
  unfolding iterate
  Pays-iterate c =
      search (Pays-bind, Pays-then, Pays-judge_reply, keeping_rules, Keeps-ensure_not_cancelled)
        depth 40

  -- From `n` calls counted and `k` executed, at the end of the loop.
  abbrev Ends : (n k : ℕ) → ServiceState → Type 0
  Ends n k s = IsResumable s × (executions s + n ≤ k + max most_calls n)

  over : (n k : ℕ) (s : ServiceState) → IsResumable s → executions s ≡ k → Ends n k s
  over n k s r e = (r, omega (arith, e))

  rounds-Ends :
      (left : ℕ) (c : Counters) (s : ServiceState)
      → IsResumable s
      → Ends c.capability_calls
          (executions s)
          (rounds host budgets allow_plan_proposals reasoning planning left c s).1
  unfolding rounds ◌>>=◌ pure
  rounds-Ends zero c s r =
      let h = kept most_calls _ (Keeps-finish_safely host _) s r in
      over c.capability_calls _ _ h.0 h.1
  rounds-Ends (suc left) c s r =
      went (iterate host budgets allow_plan_proposals reasoning planning c s).0 _
        ((Pays-iterate c).at s r) (λ d t k. rounds-Ends left d t k)
    where
      went :
          (u : Result Round) (t : ServiceState)
          → Within most_calls c.capability_calls (executions s) (u, t)
          → ((d : Counters) (t : ServiceState)
              → IsResumable t
              → Ends d.capability_calls
                  (executions t)
                  (rounds host budgets allow_plan_proposals reasoning planning left d t).1)
          → Ends c.capability_calls
              (executions s)
              (continue u
                (go_on host budgets allow_plan_proposals reasoning planning
                  (rounds host budgets allow_plan_proposals reasoning planning left))
                t).1
      went (ok (finished result)) t h next = h
      went (ok (again d)) t h next =
          let rest = next d t h.0 in (rest.0, omega (arith, rest.1, h.1, h.2, h.3))
      went (err code) t h next = h

  -- Where the service has a callback that stores the transcript, and starts the loop in a state in
  -- which no call was executed twice, and the transcript and what was stored of it record every call
  -- executed: whatever the provider, the executor and the database answer, the loop executes at most
  -- as many calls as the budget has left beside those counted at its start.
  pub loop-executions :
      (c : Counters) (s : ServiceState)
      → IsResumable s
      → executions (loop host budgets allow_plan_proposals reasoning planning c s).1
          + c.capability_calls
        ≤ executions s + max budgets.max_capability_calls c.capability_calls
  unfolding loop
  loop-executions c s r = (rounds-Ends _ c s r).1
