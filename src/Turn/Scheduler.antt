-- ===== src/Turn/Scheduler.antt =====
-- The admission of turns by `_claim_next_turn` of
-- addons/odoo_ai_assistant/models/turn_scheduler.py: capacity, causality and fairness. The table
-- is the list of its rows.
use ai_odoo_assistant.Prelude.{
  ℕ, suc, ltb, leb, ◌==◌, max, min, String, Bool, false, not, ◌&&◌, ◌||◌, Option, none, some, List,
  [], ◌∷◌, map, any, if◌then◌else◌,
}
use ai_odoo_assistant.Turn.{Turn, holds_slot, is_awaiting, is_claimable}
use ai_odoo_assistant.Turn.Lifecycle.{claim_row}

-- The configured number of turns: a value that is no number counts as the default, and `below_one`
-- is any integer under 1.
pub data Configured : Type 0 where
  unset malformed below_one : Configured
  turns : ℕ → Configured

abbrev default_turn_capacity : ℕ
default_turn_capacity = 2

abbrev pub supported_runner_capacity : ℕ
supported_runner_capacity = 2

-- `_effective_turn_capacity`, with `_configured_turn_capacity`
unfoldable pub effective_turn_capacity : Configured → ℕ
effective_turn_capacity unset = default_turn_capacity
effective_turn_capacity malformed = default_turn_capacity
effective_turn_capacity below_one = 1
effective_turn_capacity (turns n) = max 1 (min n supported_runner_capacity)

-- SELECT COUNT(*) … WHERE state IN ('running', 'cancel_requested')
unfoldable pub count_active : List Turn → ℕ
count_active [] = 0
count_active (t ∷ ts) = if holds_slot t.state then suc (count_active ts) else count_active ts

-- `predecessor.conversation_id = candidate.conversation_id`: NULL equals nothing.
abbrev pub same_conversation : Option ℕ → Option ℕ → Bool
same_conversation none _ = false
same_conversation (some c) none = false
same_conversation (some c) (some d) = c == d

-- A state, or a queued turn with attempts left, that keeps its successors waiting.
abbrev pub is_pending : Turn → Bool
is_pending t = holds_slot t.state || is_awaiting t.state || is_claimable t

abbrev pub blocks : Turn → Turn → Bool
blocks candidate predecessor =
    same_conversation predecessor.conversation_id candidate.conversation_id
    && (ltb predecessor.id candidate.id && is_pending predecessor)

-- The WHERE of the candidates.
unfoldable pub is_eligible : List Turn → Turn → Bool
unfolding any
is_eligible table t = is_claimable t && not (any (blocks t) table)

abbrev max_claimed : Option ℕ → Option ℕ → Option ℕ
max_claimed none b = b
max_claimed (some a) none = some a
max_claimed (some a) (some b) = some (max a b)

-- The `service` row of a user: the slots held, and the last claim.
unfoldable pub active_of : ℕ → List Turn → ℕ
active_of user [] = 0
active_of user (t ∷ ts) =
    if t.user_id == user && holds_slot t.state then suc (active_of user ts) else active_of user ts

unfoldable pub last_claimed_of : ℕ → List Turn → Option ℕ
last_claimed_of user [] = none
last_claimed_of user (t ∷ ts) =
    if t.user_id == user
    then max_claimed t.scheduler_claimed_at (last_claimed_of user ts)
    else last_claimed_of user ts

-- The ORDER BY, its second column NULLS FIRST.
pub record Rank : Type 0 where
  pub active : ℕ
  pub last_claimed : ℕ
  pub queued_at : ℕ
  pub id : ℕ

abbrev nulls_first : Option ℕ → ℕ
nulls_first none = 0
nulls_first (some at) = suc at

unfoldable pub rank : List Turn → Turn → Rank
unfolding active_of last_claimed_of
rank table t = record {
  active = active_of t.user_id table;
  last_claimed = nulls_first (last_claimed_of t.user_id table);
  queued_at = t.queued_at;
  id = t.id;
}

unfoldable pub precedes : Rank → Rank → Bool
precedes a b =
    if a.active == b.active
    then (if a.last_claimed == b.last_claimed
        then (if a.queued_at == b.queued_at then ltb a.id b.id else ltb a.queued_at b.queued_at)
        else ltb a.last_claimed b.last_claimed)
    else ltb a.active b.active

-- FOR UPDATE SKIP LOCKED
abbrev pub is_candidate : (ℕ → Bool) → List Turn → Turn → Bool
is_candidate locked table t = is_eligible table t && not (locked t.id)

-- LIMIT 1, over the rows of `rest`.
abbrev pub first_of_two : List Turn → Turn → Option Turn → Option Turn
first_of_two table t none = some t
first_of_two table t (some u) = if precedes (rank table u) (rank table t) then some u else some t

unfoldable pub select_from : (ℕ → Bool) → List Turn → List Turn → Option Turn
select_from locked table [] = none
select_from locked table (t ∷ rest) =
    if is_candidate locked table t
    then first_of_two table t (select_from locked table rest)
    else select_from locked table rest

-- An UPDATE … WHERE id = i.
unfoldable pub update_where : ℕ → (Turn → Turn) → List Turn → List Turn
update_where i f = map (λ t. if t.id == i then f t else t)

claim_selected : String → ℕ → Bool → List Turn → Option Turn → List Turn × Option ℕ
claim_selected token now lands table none = (table, none)
claim_selected token now lands table (some t) =
    (update_where t.id (claim_row token now lands) table, some t.id)

-- `_claim_next_turn`: the table after it, and the claimed turn. The advisory lock makes it one step.
unfoldable pub claim_next_turn :
    Configured → (ℕ → Bool) → String → ℕ → Bool → List Turn → List Turn × Option ℕ
unfolding claim_selected
claim_next_turn configured locked token now lands table =
    if leb (effective_turn_capacity configured) (count_active table)
    then (table, none)
    else claim_selected token now lands table (select_from locked table table)
