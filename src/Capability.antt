-- ===== src/Capability.antt =====
-- Capability definitions and the approval policy:
-- addons/odoo_ai_assistant/runtime/capabilities/contracts.py and policy.py.
pub mod Decisions
pub mod Validation
pub mod Registry
pub mod Tests
use ai_odoo_assistant.Prelude.{
  ℕ, ltb, String, Bool, true, false, not, ◌&&◌, ◌||◌, Option, none, some, List, if◌then◌else◌,
}

pub data Risk : Type 0 where
  metadata read write_preview write action_preview action host : Risk

pub data Effect : Type 0 where
  read_only internal_reversible internal_irreversible external host : Effect

pub data Exposure : Type 0 where
  reasoning plan host : Exposure

-- `never` is the source's `NONE`.
pub data Approval : Type 0 where
  never policy always : Approval

pub data Authority : Type 0 where
  reasoning plan host : Authority

-- The fields of a definition that policy and plans read. The metadata entries are the values of
-- `partial_failure_semantics`, `recovery_mode` and `journal_classification`.
pub record Definition : Type 0 where
  pub name : String
  pub version : String
  pub risk : Risk
  pub effect : Effect
  pub exposure : Exposure
  pub approval : Approval
  pub max_calls : ℕ
  pub tags : List String
  pub partial_failure_semantics : Option String
  pub recovery_mode : Option String
  pub journal_classification : Option String

pub data Mode : Type 0 where
  always_confirm risk_based protected_only : Mode

pub data Band : Type 0 where
  low moderate high protected : Band

-- `capability_policy`: `none` is a value that is not of the set which the code tests.
pub record PolicySnapshot : Type 0 where
  pub confirmation_mode : Option Mode
  pub max_auto_risk : Option Band

pub record PolicyDecision : Type 0 where
  pub allowed : Bool
  pub requires_approval : Bool
  pub reason : String

-- authority.value == definition.exposure.value
abbrev pub same_authority : Authority → Exposure → Bool
same_authority Authority.reasoning Exposure.reasoning = true
same_authority Authority.plan Exposure.plan = true
same_authority Authority.host Exposure.host = true
same_authority _ _ = false

-- _RISK_RANK
abbrev pub risk_rank : Band → ℕ
risk_rank low = 0
risk_rank moderate = 1
risk_rank high = 2
risk_rank protected = 3

abbrev pub is_read_only : Effect → Bool
is_read_only Effect.read_only = true
is_read_only _ = false

abbrev risk_band : Risk → Band
risk_band Risk.host = protected
risk_band Risk.action = high
risk_band Risk.write = moderate
risk_band Risk.action_preview = moderate
risk_band _ = low

abbrev band_of : Effect → Risk → Band
band_of Effect.internal_irreversible _ = protected
band_of Effect.external _ = protected
band_of Effect.host _ = protected
band_of _ risk = risk_band risk

-- `_effective_risk`
unfoldable pub effective_risk : Definition → Band
effective_risk d = band_of d.effect d.risk

abbrev by_mode : Mode → Band → Definition → Bool
by_mode always_confirm ceiling d = not (is_read_only d.effect)
by_mode _ ceiling d = ltb (risk_rank ceiling) (risk_rank (effective_risk d))

abbrev by_snapshot : Option Mode → Option Band → Definition → Bool
by_snapshot none _ d = true
by_snapshot (some mode) none d = true
by_snapshot (some mode) (some ceiling) d = by_mode mode ceiling d

-- `_policy_requires_approval`; a context without a policy is `none`
unfoldable pub policy_requires_approval : Definition → Option PolicySnapshot → Bool
unfolding effective_risk
policy_requires_approval d none = not (is_read_only d.effect)
policy_requires_approval d (some p) = by_snapshot p.confirmation_mode p.max_auto_risk d

abbrev approval_required_by : Approval → Definition → Option PolicySnapshot → Bool
approval_required_by never d p = false
approval_required_by always d p = true
approval_required_by policy d p = policy_requires_approval d p

-- `CapabilityPolicy.evaluate`
unfoldable pub evaluate : Definition → Option PolicySnapshot → Authority → Bool → PolicyDecision
unfolding policy_requires_approval
evaluate d p authority approved =
    if not (same_authority authority d.exposure)
    then record {
      allowed = false;
      requires_approval = false;
      reason = "capability_authority_mismatch";
    }
    else if not approved && approval_required_by d.approval d p
    then record {
      allowed = false;
      requires_approval = true;
      reason = "capability_approval_required";
    }
    else record { allowed = true; requires_approval = false; reason = "allowed" }
