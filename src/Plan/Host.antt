-- ===== src/Plan/Host.antt =====
-- What a plan service calls, and the order of the calls. The environment (executor, callbacks of the
-- runtime, random keys) answers as any function of the calls made before, so that a theorem for
-- every `Host` covers every behaviour of it. Failures carry their code and, where the source binds
-- it, the step.
use ai_odoo_assistant.Prelude.{String, Bool, true, false, Option, none, some, List, ◌∷◌}
use ai_odoo_assistant.Prelude.Json.{Json}
use ai_odoo_assistant.Prelude.Result.{Result, ok, err}
use ai_odoo_assistant.Capability.{Definition}
use ai_odoo_assistant.Plan.{EffectPlan, RecoveryUnit, SemanticGroups}

pub data StepPhase : Type 0 where
  preparing preflighting executing : StepPhase

-- `CapabilityPlanStepError` names its step, `CapabilityPlanError` and the callbacks' do not.
pub record Failure : Type 0 where
  pub code : String
  pub at_step : Option (String × StepPhase)

-- The calls that leave the service, newest first in a history. An executed or verified call is
-- recorded with the step that it serves, a verification with its outcome.
pub data Call : Type 0 where
  previewed : String → Call
  barrier : Call
  before_unit : String → Bool → Call
  after_unit : String → Call
  effect : String → String → Call
  verified : String → Bool → Call

abbrev pub History : Type 0
History = List Call

pub record Preview : Type 0 where
  pub summary : Json
  pub precondition_fingerprint : String

pub record Verification : Type 0 where
  pub is_verified : Bool
  pub summary : Json

pub record Host : Type 0 where
  -- the registry, and the executor over it
  pub resolve : String → Result Definition
  pub preview : History → String → Json → Result Preview
  pub approval_required : String → Bool → Result Bool
  pub execute : History → String → Json → Bool → Result Json
  pub verify : History → String → Json → Json → Result Verification
  -- the callbacks: `before_effect`, and `recovery_checkpoint` at its two phases
  pub before_effect : Option (History → Result (Unit {0}))
  pub checkpoints : Bool
  pub checkpoint_before : History → EffectPlan → RecoveryUnit → Bool → Result (Unit {0})
  pub checkpoint_after : History → EffectPlan → RecoveryUnit → Result (Unit {0})
  -- `secrets.token_hex` in three keys, and the hash of a binding
  pub new_groups : History → SemanticGroups
  pub binding_fingerprint : String → String → Json → String → String

pub data Reply (A : Type 0) : Type 0 where
  done : A → Reply A
  raised : Failure → Reply A

abbrev pub M : Type 0 → Type 0
M A = History → Reply A × History

module _ {A : Type 0} where
  unfoldable pub pure : A → M A
  pure a h = (done a, h)

  unfoldable pub raise : Failure → M A
  raise f h = (raised f, h)

  abbrev pub from_result : Option (String × StepPhase) → Result A → Reply A
  from_result at (ok a) = done a
  from_result at (err code) = raised (record { code = code; at_step = at })

  -- A pure check of the service.
  unfoldable pub lift : Result A → M A
  lift r h = (from_result none r, h)

  -- A call of the environment: its answer depends on the history, and the call joins it.
  unfoldable pub ask : Option (String × StepPhase) → Call → (History → Result A) → M A
  ask at call answer h = (from_result at (answer h), call ∷ h)

module _ {A B : Type 0} where
  abbrev pub continue : Reply A → (A → M B) → M B
  continue (done a) f h = f a h
  continue (raised e) f h = (raised e, h)

  infixl 5 ◌>>=◌ ◌>>◌
  unfoldable pub ◌>>=◌ : M A → (A → M B) → M B
  ◌>>=◌ m f h = let (r, h') = m h in continue r f h'

  abbrev pub ◌>>◌ : M A → M B → M B
  m >> k = m >>= λ _. k

-- if not test: raise CapabilityPlanError(code)
unfoldable pub check : Bool → String → M (Unit {0})
check true code h = (done tt, h)
check false code h = (raised (record { code = code; at_step = none }), h)

-- The same, bound to the step.
unfoldable pub check_step : Bool → String → String → StepPhase → M (Unit {0})
check_step true code id phase h = (done tt, h)
check_step false code id phase h = (raised (record { code = code; at_step = some (id, phase) }), h)
