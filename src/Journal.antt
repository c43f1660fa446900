-- ===== src/Journal.antt =====
-- The effect journal: addons/odoo_ai_assistant/models/effect_journal.py. The journal is the list of
-- its rows in the order of their ids.
pub mod Payloads
pub mod Sync
pub mod Failure
pub mod Rows
pub mod Keeps
pub mod Unique
pub mod Values
pub mod Blocked
pub mod Certified
pub mod Reflects
pub mod Cleanup
mod Expiry
mod Tests
use ai_odoo_assistant.Prelude.{
  ℕ, String, Bool, true, false, ◌&&◌, ◌||◌, Option, none, some, List, [], ◌∷◌, ◌==◌, str_eq,
  if◌then◌else◌,
}
use ai_odoo_assistant.Prelude.Json.{Fields}
use ai_odoo_assistant.Plan.{RecoveryMode, JournalClass}

pub data EffectState : Type 0 where
  prepared executing verified skipped rolled_back uncertain reverted : EffectState

-- What the journal reads of a turn.
pub record TurnIdentity : Type 0 where
  pub id : ℕ
  pub turn_uuid : String
  pub user_id : ℕ
  pub company_id : ℕ

pub record Row : Type 0 where
  pub turn_id : ℕ
  pub turn_uuid : String
  pub user_id : ℕ
  pub company_id : ℕ
  pub unit_id : String
  pub step_id : String
  pub capability : String
  pub capability_version : String
  pub recovery_mode : RecoveryMode
  pub classification : JournalClass
  pub state : EffectState
  pub before_payload : Fields
  pub after_payload : Fields
  pub receipt_payload : Fields
  pub expires_at : ℕ

-- ("turn_id", "=", turn.id), and a step of that turn
abbrev pub is_of : ℕ → Row → Bool
is_of turn r = r.turn_id == turn

abbrev pub is_entry : ℕ → String → Row → Bool
is_entry turn step r = r.turn_id == turn && str_eq r.step_id step

-- The row of a step of a turn; unique(turn_id, step_id) is the table's constraint.
unfoldable pub find_row : ℕ → String → List Row → Option Row
find_row turn step [] = none
find_row turn step (r ∷ rows) = if is_entry turn step r then some r else find_row turn step rows

-- row.write: the row of that turn and step is replaced.
unfoldable pub put_row : Row → List Row → List Row
put_row new [] = []
put_row new (r ∷ rows) =
    if is_entry new.turn_id new.step_id r then new ∷ rows else r ∷ put_row new rows

-- search([("turn_id", "=", turn.id)])
unfoldable pub rows_of : ℕ → List Row → List Row
rows_of turn [] = []
rows_of turn (r ∷ rows) = let rest = rows_of turn rows in if is_of turn r then r ∷ rest else rest
