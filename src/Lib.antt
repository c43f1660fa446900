-- ===== src/Lib.antt =====
-- The assistant of addons/odoo_ai_assistant: its durable turns, the loop in which an agent works on
-- a turn, the policy on its capabilities, and the plans of effects that it executes.
--
-- The program's parts. A user's message becomes a turn, a row of the table odoo_ai_turn. Two cron
-- slots claim queued turns, run the reasoning runtime on them, and write what came of it; the user
-- decides on proposed plans, cancels, and redirects. The runtime asks a provider for one decision
-- after another, within budgets, calls capabilities that only read, and keeps all of it in a
-- transcript that is stored before a call is executed, so that a lost worker can be replaced. A plan
-- is a list of steps over capabilities,
-- cut into recovery units; capabilities are allowed by a policy, and each effect is previewed,
-- executed and verified.
--
--   Turn          models/chat_storage.py: `AssistantTurn`, the row.
--   Turn/Lifecycle  models/turn_queue.py, turn_failure.py, turn_control.py and
--                 turn_control_interrupt_persistence.py: a claim's write, `_fail_claimed_turn`,
--                 `_fail_claimed_turn_with_failure`, `_cancel_claimed_turn`, and the loop body of
--                 `_recover_stale_turns`; Turn/Scan, that scan as one transaction.
--   Turn/Handlers models/embedded_runtime.py, effect_recovery_runtime.py, turn_control.py and
--                 turn_intervention.py: `_commit_plan_barrier`, `_persist_awaiting_plan`,
--                 `_stage_completed_turn`, `_repair_recoverable_plan`,
--                 `decide_capability_plan_for_current_user`, `cancel_for_current_user`,
--                 `redirect_for_current_user`.
--   Turn/Recovery models/effect_recovery_runtime.py, embedded_runtime.py and turn_control.py: the
--                 checkpoints of a plan, `_reconcile_confirmed_atomic_rollback` and
--                 `revert_for_current_user`.
--   Turn/Scheduler  models/turn_scheduler.py: `_claim_next_turn` and the capacity.
--   Turn/Table    the table as a list of rows in the order of their ids, a transaction as a step,
--                 and the databases that steps lead to.
--   Turn/Rows, Lost, Soundness, Transitions, Admission, Causality, Capacity, Consistency, Guarantees and
--   Retries       lemmas and theorems on them; Turn/Tests, two turns that run to an end.
--   Capability    runtime/capabilities/policy.py, and of contracts.py what policies and plans read;
--                 Capability/Decisions, the theorems. Capability/Validation, validation.py:
--                 `validate_payload`; its Spec, what a schema asks; Parts, Sound, Complete,
--                 Types and Contract, the theorems; Tests, one schema.
--                 Capability/Registry, registry.py: `CapabilityRegistry`, with `available_for` of
--                 contracts.py; its Ranks, Targets, Accepts, Memoised and Listed, the theorems;
--                 Tests, a registry of three.
--   Plan          runtime/agent/plan.py: steps, units and plans as records; Plan/Outcome, what a
--                 step's outcome means for those that depend on it; Plan/Units, recovery units;
--                 Plan/Prepare and Requests, the binding of a step, the validation of a plan and
--                 of what the model proposes; Plan/Prepared, `prepare`; Plan/Host, the
--                 calls out of the service; Plan/Preflight and Plan/Execute, `_preflight_unit` and
--                 `execute`; Plan/Order, Conduct and Effects, the order of their
--                 calls; Plan/Causal, Course, Steps, Silence, Begin and
--                 Dependencies, what an effect rests on; Plan/Tests, a plan of two units.
--   Agent         runtime/agent. Agent/Budgets, budgets.py; Agent/Business, business_outcome.py, with
--                 Business/Sums and its Tests; Agent/Transcript,
--   working_transcript.py, with
--                 its Transcript/RoundTrip; Agent/TaskPlan, task_plan.py;
--                 Agent/Accounting, what service.py reads off a
--                 transcript; Agent/Host, the calls out of `AgentTurnService` and its state;
--                 Agent/Service, its methods that record, with decision_validation.py;
--                 Agent/Proposal, `_validate_plan`; Agent/Loop, `run` and `_run_decision_loop`;
--                 Agent/Returns, what a round gives; Agent/Pays and
--                 Spending, its budget of calls; Agent/Calls, Keeps, Quiet, Once and
--                 Restart, what
--                 is recorded of the calls executed; Agent/Failures and Ordered, theorems
--                 on the helpers; Agent/Tests and Runs, small transcripts and a turn run twice.
--   Journal       models/effect_journal.py: the rows. Journal/Payloads, what a row stores of a step;
--                 Journal/Sync, `_sync_plan`; Journal/Failure, `_mark_turn_failure`,
--                 `_mark_reverted` and `_all_turn_effects_rolled_back`; Journal/Cleanup, the
--                 cleanup; Journal/Rows, Keeps, Unique, Values, Blocked, Certified, Expiry and
--                 Reflects,
--                 lemmas and theorems; Journal/Tests, a turn of one step.
--   Prelude       names of the libraries, tests on native numbers, text as Python strips it, JSON
--                 values and results.
-- (Paths are under addons/odoo_ai_assistant.)
--
-- How state and operations correspond. A handler that reads one row, tests it and writes it is a
-- function from the row to the row, or to a result where it raises; what it is given besides, and
-- the time, are arguments. `lands` says whether the optional event of the handler is appended, since
-- `append_optional_for_turn` swallows its failures. A transaction that raises, or whose row breaks
-- the CHECK on the attempt counters, leaves the row as it was. A claim is one step of the model,
-- since its transaction holds an advisory lock and reads committed rows; `locked` is any set of rows
-- that SKIP LOCKED passes over. A write by the runtime is a step of the worker that holds the row.
-- The certificate of the journal and the result of a compensation are arguments of the handlers that
-- ask for them, any value; columns that only a browser, the transcript or the reversion reads are no
-- fields of the row.
-- Times are numbers, in seconds, and the ids of rows grow.
--
-- A plan runs in a small monad over the history of the calls that leave the service, newest first.
-- The executor, the registry, the callbacks, random keys and the hash of a binding are the fields of
-- `Host`, any functions of that history: a theorem for every host covers every behaviour of theirs.
-- Sets of step ids are lists. A plan is at format 3, and has the types that `_validated_plan` asks.
--
-- The agent's service runs in a monad over its transcript and the history of what left it; the
-- provider, the executor, the callback that stores the transcript and cancellation are fields of
-- `AgentHost`, any functions of that history. An error is its code, and the state at the error is
-- kept. A restart is a new service with the transcript stored last. The field `data` of an item is
-- `fields`, and None is `null` where a key may be missing. A worker that dies inside a run is
-- covered as far as the run ends there with an error.
--
-- The journal is the list of its rows. A call that raises leaves no journal, since its transaction
-- is rolled back; `existing` is the step ids of the live rows, since the source reads a row through
-- its record. The constraint unique(turn_id, step_id) is the refusal of a creation. The length of a
-- value's JSON text is a parameter of the journal and of the validator, none where encoding raises.
--
-- A registry is the list of its definitions, sorted by name. What a user's groups and a guard answer
-- is given, none where the call raises.
--
-- Bounds and fuel. The attempt ceilings, the lease, the two runner slots and the five steps of a plan
-- are the source's constants. Most recursion is on lists and values. The
-- decimal digits of a unit's number have a fuel above the number, which never runs out; the walks of
-- a registry have what is left of Python's stack, and its theorems say how much is enough. The decision loop recurs on
-- the
-- decisions that its budget leaves.
--
-- Not modelled: the deletion of a turn's row and of the journal's rows with it; `approval_refines` and the upgrade of plans at formats 1 and 2; message rows but for
-- their
-- ids; the protocol of the reasoning provider, `parse_next_decision`, the legacy engine and the
-- texts of
-- fallback answers; the composition of a registry's
-- providers, the capability executor, the providers of
-- capabilities, evidence,
-- knowledge and data import, over Odoo's ORM; source patches and the host
-- broker; controllers, browser views, web client, preferences, migrations and installation.
pub mod Prelude
pub mod Turn
pub mod Agent
pub mod Capability
pub mod Plan
pub mod Journal
