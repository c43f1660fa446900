-- ===== src/Agent/Returns.antt =====
-- What an iteration of the decision loop returns, when it goes on: the loop of
-- addons/odoo_ai_assistant/runtime/agent/service.py.
use ai_odoo_assistant.Prelude.{
  ℕ, suc, ltb, Bool, true, false, Option, none, some, String, List, ◌≡◌, refl, if◌then◌else◌,
}
use ai_odoo_assistant.Prelude.Json.{Fields}
use ai_odoo_assistant.Prelude.Result.{Result, ok, err}
use ai_odoo_assistant.Agent.Budgets.{AgentBudgetSet}
use ai_odoo_assistant.Agent.Host.{
  NextDecision, final_answer, task_plan_update, reasoning_capability_call, plan_step_proposal,
  Rejected, rejected_decision, rejected_revision, nothing_kept, Reply, decided, misjudged, failed,
  Execution, succeeded, refused, broken, CapabilityDefinition, AgentHost, ServiceState, M, continue,
  pure, raise, cases, ◌>>=◌, ◌>>◌,
}
use ai_odoo_assistant.Agent.Service.{AgentTurnResult, Judgement, accepted, rejected}
use ai_odoo_assistant.Agent.Loop.{
  Counters, Round, finished, again, finish, fail_again, answer_turn, reject, propose, receive,
  perform, call, reason, work_on, act_on, follow, judge_reply, iterate,
}

-- `P` of the value of an action, where it returns one.
abbrev pub Returned : {A : Type 0} → (A → Type 0) → Result A × ServiceState → Type 0
Returned P (ok a, s) = P a
Returned P (err code, s) = Unit

pub record Gives {A : Type 0} (P : A → Type 0) (m : M A) : Type 0 where
  pub at : (s : ServiceState) → Returned P (m s)

module _ {A B : Type 0} {P : B → Type 0} where
  pub Gives-bind : (m : M A) (f : A → M B) → ((a : A) → Gives P (f a)) → Gives P (m >>= f)
  unfolding ◌>>=◌
  Gives-bind m f k = record { at = λ s. let (r, s') = m s in continued r s' }
    where
      continued : (r : Result A) (s : ServiceState) → Returned P (continue r f s)
      continued (ok a) s = (k a).at s
      continued (err code) s = tt

  pub Gives-then : (m : M A) (n : M B) → Gives P n → Gives P (m >> n)
  unfolding ◌>>◌
  Gives-then m n k = record { at = λ s. let (r, s') = m s in continued r s' }
    where
      continued : (r : Result A) (s : ServiceState) → Returned P (continue r (λ _. n) s)
      continued (ok a) s = k.at s
      continued (err code) s = tt

module _ {A : Type 0} {P : A → Type 0} where
  pub Gives-pure : (a : A) → P a → Gives P (pure a)
  unfolding pure
  Gives-pure a p = record { at = λ s. p }

  pub Gives-raise : (code : String) → Gives P (raise code)
  unfolding raise
  Gives-raise code = record { at = λ s. tt }

  pub Gives-if : (b : Bool) (x y : M A) → Gives P x → Gives P y → Gives P (if b then x else y)
  Gives-if true x y p q = p
  Gives-if false x y p q = q

  pub Gives-cases {ℓ} :
      {B : Type ℓ} (o : Option B) (n : M A) (f : B → M A)
      → Gives P n
      → ((b : B) → Gives P (f b))
      → Gives P (cases o n f)
  unfolding cases
  Gives-cases none n f p q = p
  Gives-cases (some b) n f p q = q b

  pub Gives-unless :
      (b : Bool) (x y : M A) → Gives P x → (b ≡ false → Gives P y) → Gives P (if b then x else y)
  Gives-unless true x y p q = p
  Gives-unless false x y p q = q refl

-- `P` of the variables with which a round goes on.
abbrev pub GoesOn : (Counters → Type 0) → Round → Type 0
GoesOn P (finished result) = Unit
GoesOn P (again c) = P c

-- `P` of the variables `c`, whatever the failures and the terminal error are.
pub record Stands (P : Counters → Type 0) (c : Counters) : Type 0 where
  pub whatever :
      (failures : ℕ) (error : Option String)
      → P (record {
        provider_decisions = c.provider_decisions;
        capability_calls = c.capability_calls;
        consecutive_failures = failures;
        terminal_error = error;
      })

module _ {P : Counters → Type 0} where
  Gives-finished : (result : AgentTurnResult) → Gives (GoesOn P) (pure (finished result))
  Gives-finished result = Gives-pure (finished result) tt

  Gives-again :
      (c : Counters) (n : ℕ) (error : Option String)
      → Stands P c
      → Gives (GoesOn P) (
          pure (
            again (record {
              provider_decisions = c.provider_decisions;
              capability_calls = c.capability_calls;
              consecutive_failures = n;
              terminal_error = error;
            })))
  Gives-again c n error k =
      Gives-pure
        (again (record {
          provider_decisions = c.provider_decisions;
          capability_calls = c.capability_calls;
          consecutive_failures = n;
          terminal_error = error;
        }))
        (k.whatever n error)

ruleset round_rules =
    (Gives-bind, Gives-then, Gives-if, Gives-cases, Gives-raise, Gives-finished, Gives-again)

-- One more decision; and one more call, where the budget has room for it.
pub record Room (budgets : AgentBudgetSet) (P : Counters → Type 0) (c : Counters) : Type 0 where
  pub same : Stands P c
  pub one_more :
      ltb budgets.max_capability_calls (suc c.capability_calls) ≡ false
      → Stands P (record {
        provider_decisions = c.provider_decisions;
        capability_calls = suc c.capability_calls;
        consecutive_failures = c.consecutive_failures;
        terminal_error = c.terminal_error;
      })

module _ (host : AgentHost) (budgets : AgentBudgetSet) (allow_plan_proposals : Bool)
    (reasoning planning : List CapabilityDefinition) (P : Counters → Type 0) where
  pub Gives-finish :
      (code : String)
      → Gives (GoesOn P) (finish host budgets allow_plan_proposals reasoning planning code)
  unfolding finish
  Gives-finish code = search round_rules depth 30

  pub Gives-fail_again :
      (c : Counters)
      → Stands P c
      → Gives (GoesOn P) (fail_again host budgets allow_plan_proposals reasoning planning c)
  unfolding fail_again
  Gives-fail_again c k = search (round_rules, Gives-finish) depth 40

  pub Gives-answer_turn :
      (answer confidence : String)
      → Gives
          (GoesOn P)
          (answer_turn host budgets allow_plan_proposals reasoning planning answer confidence)
  unfolding answer_turn
  Gives-answer_turn answer confidence = search round_rules depth 30

  pub Gives-propose :
      (c : Counters) (call_id capability : String) (arguments : Fields) (summary : String)
      → Stands P c
      → Gives (GoesOn P) (
          propose host budgets allow_plan_proposals reasoning planning c call_id capability
            arguments summary)
  unfolding propose
  Gives-propose c call_id capability arguments summary k = search (round_rules) depth 40

  Gives-receive :
      (c : Counters) (call_id capability : String) (x : Execution)
      → Stands P c
      → Gives
          (GoesOn P)
          (receive host budgets allow_plan_proposals reasoning planning c call_id capability x)
  unfolding receive
  Gives-receive c call_id capability (succeeded result) k =
      search (round_rules, Gives-fail_again) depth 40
  Gives-receive c call_id capability (refused code details) k =
      search (round_rules, Gives-fail_again) depth 40
  Gives-receive c call_id capability (broken code) k = search (round_rules) depth 40

  pub Gives-call :
      (c : Counters) (call_id capability : String) (arguments : Fields)
      → Stands P c
      → Gives
          (GoesOn P)
          (call host budgets allow_plan_proposals reasoning planning c call_id capability arguments)
  unfolding call perform
  Gives-call c call_id capability arguments k = search (round_rules, Gives-receive) depth 40

  Gives-reason :
      (c : Counters) (call_id capability : String) (arguments : Fields)
      → Room budgets P c
      → Gives (GoesOn P) (
          reason host budgets allow_plan_proposals reasoning planning c call_id capability
            arguments)
  unfolding reason
  Gives-reason c call_id capability arguments k =
      Gives-unless _ _ _ (Gives-finish _) (λ e.
        let more = k.one_more e in search (round_rules, Gives-fail_again, Gives-call) depth 40)

  Gives-work_on :
      (c : Counters) (d : NextDecision)
      → Room budgets P c
      → Gives (GoesOn P) (work_on host budgets allow_plan_proposals reasoning planning c d)
  unfolding work_on
  Gives-work_on c (task_plan_update plan) k =
      Gives-then _ _
        (Gives-pure (again c) (k.same.whatever c.consecutive_failures c.terminal_error))
  Gives-work_on c (plan_step_proposal i n a s) k = Gives-propose c i n a s k.same
  Gives-work_on c (reasoning_capability_call i n a) k = Gives-reason c i n a k
  Gives-work_on c (final_answer a n) k = Gives-answer_turn a n

  Gives-act_on :
      (c : Counters) (d : NextDecision)
      → Room budgets P c
      → Gives (GoesOn P) (act_on host budgets allow_plan_proposals reasoning planning c d)
  unfolding act_on
  Gives-act_on c (final_answer a n) k = Gives-answer_turn a n
  Gives-act_on c (task_plan_update plan) k =
      search (round_rules, Gives-work_on, Gives-finish) depth 20
  Gives-act_on c (plan_step_proposal i n a s) k =
      search (round_rules, Gives-work_on, Gives-finish) depth 20
  Gives-act_on c (reasoning_capability_call i n a) k =
      search (round_rules, Gives-work_on, Gives-finish) depth 20

  pub Gives-reject :
      (c : Counters) (code : String) (r : Rejected)
      → Room budgets P c
      → Gives (GoesOn P) (reject host budgets allow_plan_proposals reasoning planning c code r)
  unfolding reject
  Gives-reject c code (rejected_decision (final_answer a n)) k = Gives-raise _
  Gives-reject c code nothing_kept k = Gives-raise _
  Gives-reject c code (rejected_decision (reasoning_capability_call i n a)) k =
      Gives-unless _ _ _ (Gives-finish _)
        (λ e. let more = k.one_more e in search (round_rules, Gives-fail_again) depth 20)
  Gives-reject c code (rejected_decision (task_plan_update plan)) k =
      let same = k.same in search (round_rules, Gives-fail_again) depth 20
  Gives-reject c code (rejected_decision (plan_step_proposal i n a s)) k =
      let same = k.same in search (round_rules, Gives-fail_again) depth 20
  Gives-reject c code (rejected_revision r) k =
      let same = k.same in search (round_rules, Gives-fail_again) depth 20

  Gives-follow :
      (c : Counters) (j : Judgement)
      → Room budgets P c
      → Gives (GoesOn P) (follow host budgets allow_plan_proposals reasoning planning c j)
  unfolding follow
  Gives-follow c (accepted valid) k = Gives-act_on c valid k
  Gives-follow c (rejected code kept) k = Gives-reject c code kept k

  Gives-judge_reply :
      (c : Counters) (r : Reply)
      → Room budgets P (record {
        provider_decisions = suc c.provider_decisions;
        capability_calls = c.capability_calls;
        consecutive_failures = c.consecutive_failures;
        terminal_error = c.terminal_error;
      })
      → Gives (GoesOn P) (judge_reply host budgets allow_plan_proposals reasoning planning c r)
  unfolding judge_reply
  Gives-judge_reply c (decided d) k = Gives-follow _ _ k
  Gives-judge_reply c (misjudged code kept) k = Gives-reject _ code kept k
  Gives-judge_reply c (failed code) k = Gives-raise _

  -- What holds of the variables after one more decision, and after a call within the budget besides,
  -- holds of those with which an iteration goes on.
  pub Gives-iterate :
      (c : Counters)
      → Room budgets P (record {
        provider_decisions = suc c.provider_decisions;
        capability_calls = c.capability_calls;
        consecutive_failures = c.consecutive_failures;
        terminal_error = c.terminal_error;
      })
      → Gives (GoesOn P) (iterate host budgets allow_plan_proposals reasoning planning c)
  unfolding iterate
  Gives-iterate c k = search (round_rules, Gives-judge_reply) depth 30
