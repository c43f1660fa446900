-- ===== src/Turn/Guarantees.antt =====
-- What the queue and the scheduler promise, over every interleaving of their transactions.
use ai_odoo_assistant.Prelude.{
  ℕ, ◌≤◌, ◌<◌, ◌≡◌, refl, Bool, true, false, ◌&&◌, All, String, Option, some, List,
}
use ai_odoo_assistant.Turn.{Turn}
use ai_odoo_assistant.Turn.Lifecycle.{claim_row}
use ai_odoo_assistant.Turn.Scheduler.{
  Configured, rank, precedes, same_conversation, is_pending, is_candidate,
  supported_runner_capacity, effective_turn_capacity, count_active, update_where, claim_next_turn,
}
use ai_odoo_assistant.Turn.Table.{Database, Reachable}
use ai_odoo_assistant.Turn.Rows.{In, All-In, In-All}
use ai_odoo_assistant.Turn.Soundness.{IsSound}
use ai_odoo_assistant.Turn.Transitions.{in_progress}
use ai_odoo_assistant.Turn.Admission.{Claimed, idle, took, claim_next_turn-Claimed}
use ai_odoo_assistant.Turn.Causality.{Causal-In, candidate-eligible, eligible-claimable}
use ai_odoo_assistant.Turn.Consistency.{Reachable-IsConsistent, claimable_below, sound_claimable}

-- In every database that the transactions lead to, a turn that a worker or a human has in hand has
-- no earlier turn of its conversation that is pending: each of those is terminal, or queued with no
-- attempt left.
pub conversation_order :
    {db : Database} (r : Reachable db) (t u : Turn)
    → In t db.turns
    → In u db.turns
    → t.id < u.id
    → same_conversation t.conversation_id u.conversation_id ≡ true
    → in_progress u ≡ true
    → is_pending t ≡ false
conversation_order {db} r t u m n lt =
    let c = Reachable-IsConsistent r in
    Causal-In 1 db.next_id db.turns t u c.ascending c.causal m n lt

-- In every database that the transactions lead to, at most two turns hold a runner slot, whatever
-- capacity was configured at each claim.
pub runner_capacity :
    {db : Database} → Reachable db → count_active db.turns ≤ supported_runner_capacity
runner_capacity r = (Reachable-IsConsistent r).capacity

least_and : (a b : Bool) → (a ≡ true → b ≡ false) → (a && b) ≡ false
least_and true b h = h refl
least_and false b h = refl

-- What a claim of `t` guarantees.
pub record IsFairClaim (configured : Configured) (locked : ℕ → Bool) (table : List Turn) (t : Turn)
    : Type 0 where
  pub member : In t table
  pub room : count_active table < effective_turn_capacity configured
  pub attempt_left : t.attempt_count < t.max_attempts
  pub barrier_down : t.write_barrier ≡ false
  pub first :
      All
        (λ u. (is_candidate locked table u && precedes (rank table u) (rank table t)) ≡ false)
        table

fair_claim :
    (configured : Configured) (locked : ℕ → Bool) (token : String) (now : ℕ) (lands : Bool)
    {db : Database} (r : Reachable db) (after : List Turn × Option ℕ)
    → Claimed configured locked token now lands db.turns after
    → (id : ℕ) → after.1 ≡ some id
    → (t : Turn) × (t.id ≡ id)
      × IsFairClaim configured locked db.turns t
      × (after.0 ≡ update_where id (claim_row token now lands) db.turns)
fair_claim configured locked token now lands r after (idle e) id q = cc (e, q)
fair_claim configured locked token now lands {db} r after (took t room f e) id q =
    let c = Reachable-IsConsistent r in
    let eligible =
      eligible-claimable db.turns t (candidate-eligible locked db.turns t f.candidate) in
    let same : t.id ≡ id = cc (e, q) in
    (
      t,
      same,
      record {
        member = f.member;
        room = room;
        attempt_left = claimable_below t eligible;
        barrier_down = sound_claimable t eligible (All-In IsSound db.turns t c.sound f.member);
        first =
            In-All _ db.turns (λ u m. least_and (is_candidate locked db.turns u) _ (f.least u m));
      },
      rw e (rw same),
    )

-- A claim, in any database that the transactions lead to, takes one queued turn: a slot is free
-- under the configured capacity, the turn has an attempt left and its write barrier is down, and no
-- other eligible and unlocked turn ranks before it by its user's slots, its user's last claim, the
-- time of its queueing and its id. It writes that row alone.
pub claim_next_turn_fair :
    (configured : Configured) (locked : ℕ → Bool) (token : String) (now : ℕ) (lands : Bool)
    {db : Database} (r : Reachable db) (id : ℕ)
    → (claim_next_turn configured locked token now lands db.turns).1 ≡ some id
    → (t : Turn) × (t.id ≡ id)
      × IsFairClaim configured locked db.turns t
      × ((claim_next_turn configured locked token now lands db.turns).0
          ≡ update_where id (claim_row token now lands) db.turns)
claim_next_turn_fair configured locked token now lands {db} r id =
    fair_claim configured locked token now lands r
      (claim_next_turn configured locked token now lands db.turns)
      (claim_next_turn-Claimed configured locked token now lands db.turns) id
