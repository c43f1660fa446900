-- ===== src/Agent/Failures.antt =====
-- The failures in a row that a restarted turn reads off its transcript: `_trailing_failure_count` of
-- addons/odoo_ai_assistant/runtime/agent/service.py.
use ai_odoo_assistant.Prelude.{
  ℕ, suc, true, String, List, [], ◌∷◌, ◌++◌, All, mem, ◌≡◌, refl, arith,
}
use ai_odoo_assistant.Agent.Transcript.{WorkingItem}
use ai_odoo_assistant.Agent.Accounting.{trailing_failures}

-- The kinds at which the loop goes on: the failures, and what stands between them.
abbrev pub passed_kinds : List String
passed_kinds =
    "capability_error" ∷ "task_plan_error" ∷ "assistant_decision" ∷ "capability_call"
    ∷ "plan_step_proposed" ∷ "task_plan" ∷ []

abbrev pub IsPassed : WorkingItem → Type 0
IsPassed item = mem item.kind passed_kinds ≡ true

-- Newest item first: failures that came after a `capability_result`, with nothing but calls, proposals
-- and plans among them, count as none, however many they are.
pub trailing_failures-after_result :
    (n : ℕ) (newer older : List WorkingItem) (result : WorkingItem)
    → All IsPassed newer
    → result.kind ≡ "capability_result"
    → trailing_failures n (newer ++ result ∷ older) ≡ 0
unfolding trailing_failures mem
trailing_failures-after_result n [] older result h r = rw r refl
trailing_failures-after_result n (item ∷ newer) older result h r =
    let more = trailing_failures-after_result (suc n) newer older result h.1 r in
    let same = trailing_failures-after_result n newer older result h.1 r in
    let passed = h.0 in ground arith
