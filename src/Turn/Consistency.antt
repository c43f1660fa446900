-- ===== src/Turn/Consistency.antt =====
-- The invariant of the turn table, and that every transaction keeps it.
use ai_odoo_assistant.Prelude.{
  ℕ, suc, ◌≤◌, ◌<◌, ◌≡◌, refl, Bool, true, false, String, Option, List, [], ◌∷◌, ◌++◌, arith, All,
  All-append,
}
use ai_odoo_assistant.Turn.{Turn, holds_slot, is_claimable}
use ai_odoo_assistant.Turn.Lifecycle.{Interrupted, append_optional, claim_row, recover_stale_turn}
use ai_odoo_assistant.Turn.Scheduler.{
  Configured, supported_runner_capacity, count_active, update_where, is_eligible, claim_next_turn,
}
use ai_odoo_assistant.Turn.Scan.{recover_each, recover_stale_turns}
use ai_odoo_assistant.Turn.Table.{
  scan, recover, Action, act, new_turn, Database, enqueue, claim, on, step, Reachable, start, then,
}
use ai_odoo_assistant.Turn.Rows.{
  In, Ascending, Ascending-map, Ascending-append, All-map-In, All-In, updated, updated_keeps,
  update_where_lem, In-unique,
}
use ai_odoo_assistant.Turn.Soundness.{
  IsSound, append_optional-IsSound, act-IsSound, new_turn-IsSound,
}
use ai_odoo_assistant.Turn.Transitions.{in_progress, act-Tame}
use ai_odoo_assistant.Turn.Admission.{Claimed, idle, took, claim_next_turn-Claimed}
use ai_odoo_assistant.Turn.Causality.{
  Causal, Causal-append, update-Causal, claim-Causal, candidate-eligible, eligible-claimable,
  claim_row-same,
}
use ai_odoo_assistant.Turn.Capacity.{
  effective_turn_capacity_bounds, count_active-update, count_active-update_one,
}

pub record IsConsistent (next_id : ℕ) (turns : List Turn) : Type 0 where
  pub ascending : Ascending 1 next_id turns
  pub sound : All IsSound turns
  pub causal : Causal turns
  pub capacity : count_active turns ≤ supported_runner_capacity

update-Ascending :
    (i : ℕ) (f : Turn → Turn) (lo hi : ℕ) (ts : List Turn)
    → ((t : Turn) → In t ts → (f t).id ≡ t.id)
    → Ascending lo hi ts
    → Ascending lo hi (update_where i f ts)
update-Ascending i f lo hi ts keep a = rw update_where_lem (
    Ascending-map (updated i f) lo hi ts
      (λ t m. updated_keeps (λ u. u.id ≡ t.id) i f t (λ _. keep t m) refl) a)

update-IsSound :
    (i : ℕ) (f : Turn → Turn) (ts : List Turn)
    → ((t : Turn) → In t ts → t.id ≡ i → IsSound t → IsSound (f t))
    → All IsSound ts
    → All IsSound (update_where i f ts)
update-IsSound i f ts keep h = rw update_where_lem (
    All-map-In IsSound (updated i f) ts (λ t m s. updated_keeps IsSound i f t (λ e. keep t m e s) s)
      h)

claim_row-IsSound :
    (token : String) (now : ℕ) (lands : Bool) (t : Turn)
    → t.attempt_count < t.max_attempts
    → t.write_barrier ≡ false
    → IsSound t
    → IsSound (claim_row token now lands t)
unfolding claim_row
claim_row-IsSound token now lands t lt b h = ground arith

pub claimable_below : (t : Turn) → is_claimable t ≡ true → t.attempt_count < t.max_attempts
claimable_below t h = ground arith

-- A turn whose barrier stands is not claimable.
pub sound_claimable : (t : Turn) → is_claimable t ≡ true → IsSound t → t.write_barrier ≡ false
sound_claimable t h s = ground arith

-- The row that a request adds.
new_row : ℕ → Option ℕ → ℕ → ℕ → Bool → Turn
new_row id conversation user now lands =
    append_optional lands "queued" (new_turn id conversation user now)

new_row-fresh :
    (id : ℕ) (conversation : Option ℕ) (user now : ℕ) (lands : Bool)
    → ((new_row id conversation user now lands).id ≡ id)
      × (in_progress (new_row id conversation user now lands) ≡ false)
      × (holds_slot (new_row id conversation user now lands).state ≡ false)
unfolding new_row new_turn append_optional
new_row-fresh id conversation user now lands = ground arith

count_active-append :
    (ts : List Turn) (t : Turn)
    → holds_slot t.state ≡ false
    → count_active (ts ++ t ∷ []) ≡ count_active ts
unfolding count_active
count_active-append [] t h = ground arith
count_active-append (u ∷ us) t h = ground (arith, count_active-append us t h)

enqueue-IsConsistent :
    (conversation : Option ℕ) (user now : ℕ) (lands : Bool) (db : Database)
    → IsConsistent db.next_id db.turns
    → IsConsistent (suc db.next_id) (
        db.turns ++ append_optional lands "queued" (new_turn db.next_id conversation user now) ∷ [])
unfolding new_row
enqueue-IsConsistent conversation user now lands db c =
    let new = new_row db.next_id conversation user now lands in
    let fresh = new_row-fresh db.next_id conversation user now lands in
    record {
      ascending = Ascending-append 1 db.next_id db.turns new fresh.0 c.ascending;
      sound = All-append IsSound db.turns (new ∷ []) c.sound (
        append_optional-IsSound lands "queued" (new_turn db.next_id conversation user now)
            (new_turn-IsSound db.next_id conversation user now),
        tt,
      );
      causal = Causal-append db.turns new fresh.1 c.causal;
      capacity = omega (arith, count_active-append db.turns new fresh.2, c.capacity);
    }

-- The two ways in which the table changes: one row tamely, or by a claim.
act-IsConsistent :
    (i : ℕ) (a : Action) (now : ℕ) (lands : Bool) (next_id : ℕ) (ts : List Turn)
    → IsConsistent next_id ts
    → IsConsistent next_id (update_where i (act a now lands) ts)
act-IsConsistent i a now lands next_id ts c =
    let sound_at = λ (t : Turn) (m : In t ts). All-In IsSound ts t c.sound m in
    let tame = λ (t : Turn) (m : In t ts). act-Tame a now lands t (sound_at t m) in
    record {
      ascending =
          update-Ascending i (act a now lands) 1 next_id ts (λ t m. (tame t m).id) c.ascending;
      sound =
          update-IsSound i (act a now lands) ts (λ t m _ s. act-IsSound a now lands t s) c.sound;
      causal = update-Causal i (act a now lands) 1 next_id ts tame c.ascending c.causal;
      capacity = omega (
        arith,
        count_active-update i (act a now lands) ts (λ t m. (tame t m).takes_no_slot),
        c.capacity,
      );
    }

recover-IsConsistent :
    (i : ℕ) (found : Interrupted) (now : ℕ) (lands : Bool) (next_id : ℕ) (ts : List Turn)
    → IsConsistent next_id ts
    → IsConsistent next_id (update_where i (recover_stale_turn found now lands) ts)
unfolding act
recover-IsConsistent i found now lands next_id ts c =
    act-IsConsistent i (recover found) now lands next_id ts c

recover_each-IsConsistent :
    (found : ℕ → Interrupted) (stored : ℕ → Bool) (now next_id : ℕ) (chosen ts : List Turn)
    → IsConsistent next_id ts
    → IsConsistent next_id (recover_each found stored now chosen ts)
unfolding recover_each
recover_each-IsConsistent found stored now next_id [] ts c = c
recover_each-IsConsistent found stored now next_id (t ∷ chosen) ts c =
    recover_each-IsConsistent found stored now next_id chosen
      (update_where t.id (recover_stale_turn (found t.id) now (stored t.id)) ts)
      (recover-IsConsistent t.id (found t.id) now (stored t.id) next_id ts c)

scan-IsConsistent :
    (locked : ℕ → Bool) (found : ℕ → Interrupted) (stored : ℕ → Bool) (now next_id : ℕ)
    (ts : List Turn)
    → IsConsistent next_id ts
    → IsConsistent next_id (recover_stale_turns locked found stored now ts)
unfolding recover_stale_turns
scan-IsConsistent locked found stored now next_id ts c =
    recover_each-IsConsistent found stored now next_id _ ts c

claim-IsConsistent :
    (configured : Configured) (locked : ℕ → Bool) (token : String) (now : ℕ) (lands : Bool)
    (next_id : ℕ) (ts : List Turn) (r : List Turn × Option ℕ)
    → Claimed configured locked token now lands ts r
    → IsConsistent next_id ts
    → IsConsistent next_id r.0
claim-IsConsistent configured locked token now lands next_id ts r (idle e) c = rw e c
claim-IsConsistent configured locked token now lands next_id ts r (took t room first e) c =
    rw e (record {
      ascending =
          update-Ascending t.id (claim_row token now lands) 1 next_id ts
            (λ u m. (claim_row-same token now lands u).0) c.ascending;
      sound = update-IsSound t.id (claim_row token now lands) ts claim_sound c.sound;
      causal =
          claim-Causal token now lands ts 1 next_id c.ascending t first.member eligible c.causal;
      capacity = rw update_where_lem (
          omega (
            arith,
            count_active-update_one t.id (claim_row token now lands) 1 next_id ts c.ascending,
            effective_turn_capacity_bounds configured,
            room,
          ));
    })
  where
    eligible : is_eligible ts t ≡ true
    eligible = candidate-eligible locked ts t first.candidate

    claim_sound :
        (u : Turn) → In u ts → u.id ≡ t.id → IsSound u → IsSound (claim_row token now lands u)
    claim_sound u m same s =
        let u_is : u ≡ t = In-unique 1 next_id ts u t c.ascending m first.member same in
        let claimable : is_claimable t ≡ true = eligible-claimable ts t eligible in
        rw u_is (
          claim_row-IsSound token now lands t (claimable_below t claimable)
            (sound_claimable t claimable (rw u_is at s)) (rw u_is at s))

-- Every database that transactions can lead to is consistent.
pub Reachable-IsConsistent : {db : Database} → Reachable db → IsConsistent db.next_id db.turns
unfolding step
Reachable-IsConsistent start = unfold count_active in ground arith
Reachable-IsConsistent (then {db} (enqueue conversation user) now lands r) =
    enqueue-IsConsistent conversation user now lands db (Reachable-IsConsistent r)
Reachable-IsConsistent (then {db} (claim configured locked token) now lands r) =
    claim-IsConsistent configured locked token now lands db.next_id db.turns
      (claim_next_turn configured locked token now lands db.turns)
      (claim_next_turn-Claimed configured locked token now lands db.turns)
      (Reachable-IsConsistent r)
Reachable-IsConsistent (then {db} (scan locked found stored) now lands r) =
    scan-IsConsistent locked found stored now db.next_id db.turns (Reachable-IsConsistent r)
Reachable-IsConsistent (then {db} (on id action) now lands r) =
    act-IsConsistent id action now lands db.next_id db.turns (Reachable-IsConsistent r)
