-- ===== src/Capability/Decisions.antt =====
-- When a capability may run: the decisions of `CapabilityPolicy`.
use ai_odoo_assistant.Prelude.{
  ◌≤◌, ◌≡◌, refl, ◌⊎◌, inl, inr, Bool, true, false, Option, none, some, arith,
}
use ai_odoo_assistant.Capability.{
  Authority, Definition, Mode, Band, PolicySnapshot, always_confirm, risk_based, protected_only,
  never, policy, risk_rank, is_read_only, effective_risk, policy_requires_approval, evaluate,
}

-- Both fields of a snapshot are of the sets that the policy knows, its mode goes by risk, and the
-- risk of the capability is within its ceiling; or the capability only reads, and no mode forbids it.
pub data CoveredBy (d : Definition) : Option PolicySnapshot → Type 0 where
  no_policy : is_read_only d.effect ≡ true → CoveredBy d none
  confirms_writes :
      {p : PolicySnapshot} (ceiling : Band)
      → p.confirmation_mode ≡ some always_confirm
      → p.max_auto_risk ≡ some ceiling
      → is_read_only d.effect ≡ true
      → CoveredBy d (some p)
  within_ceiling :
      {p : PolicySnapshot} (mode : Mode) (ceiling : Band)
      → p.confirmation_mode ≡ some mode
      → p.max_auto_risk ≡ some ceiling
      → (mode ≡ risk_based) ⊎ (mode ≡ protected_only)
      → risk_rank (effective_risk d) ≤ risk_rank ceiling
      → CoveredBy d (some p)

covered_some :
    (d : Definition) (p : PolicySnapshot) (m : Option Mode) (c : Option Band)
    → p.confirmation_mode ≡ m
    → p.max_auto_risk ≡ c
    → policy_requires_approval d (some p) ≡ false
    → CoveredBy d (some p)
unfolding policy_requires_approval
covered_some d p none c e f h = absurd (ground arith)
covered_some d p (some m) none e f h = absurd (ground arith)
covered_some d p (some always_confirm) (some c) e f h = confirms_writes c e f (ground arith)
covered_some d p (some risk_based) (some c) e f h =
    within_ceiling risk_based c e f (inl refl) (ground arith)
covered_some d p (some protected_only) (some c) e f h =
    within_ceiling protected_only c e f (inr refl) (ground arith)

not_required-CoveredBy :
    (d : Definition) (p : Option PolicySnapshot)
    → policy_requires_approval d p ≡ false
    → CoveredBy d p
not_required-CoveredBy d none h = unfold policy_requires_approval in no_policy (ground arith)
not_required-CoveredBy d (some p) h =
    covered_some d p p.confirmation_mode p.max_auto_risk refl refl h

-- What an allowed call without a human's approval rests on.
pub data IsAutomatic (d : Definition) (p : Option PolicySnapshot) : Type 0 where
  asks_never : d.approval ≡ never → IsAutomatic d p
  covered_by_policy : d.approval ≡ policy → CoveredBy d p → IsAutomatic d p

allowed_not_always :
    (d : Definition) (p : Option PolicySnapshot) (authority : Authority)
    → (evaluate d p authority false).allowed ≡ true
    → (d.approval ≡ never) ⊎ (d.approval ≡ policy)
unfolding evaluate
allowed_not_always d p authority h = ground arith

allowed_policy :
    (d : Definition) (p : Option PolicySnapshot) (authority : Authority)
    → (evaluate d p authority false).allowed ≡ true
    → d.approval ≡ policy
    → policy_requires_approval d p ≡ false
unfolding evaluate
allowed_policy d p authority h e = ground arith

-- A call that the policy allows with no human approval is of a capability that never asks for one,
-- or of one that leaves it to a policy which covers it: no policy and a read, a policy that confirms
-- all but reads and a read, or a policy by risk whose ceiling is not below the capability's risk.
pub evaluate-IsAutomatic :
    (d : Definition) (p : Option PolicySnapshot) (authority : Authority)
    → (evaluate d p authority false).allowed ≡ true
    → IsAutomatic d p
evaluate-IsAutomatic d p authority h = elim (allowed_not_always d p authority h) [
  | inl e ↦ asks_never e
  | inr e ↦ covered_by_policy e (not_required-CoveredBy d p (allowed_policy d p authority h e))
]

-- A policy with a higher ceiling of automatic risk, and the same mode, allows every call that the
-- lower one allows.
pub ceiling_allows :
    (d : Definition) (m : Option Mode) (low_band high_band : Band) (authority : Authority)
    (approved : Bool)
    → risk_rank low_band ≤ risk_rank high_band
    → (evaluate d
        (some (record { confirmation_mode = m; max_auto_risk = some low_band }))
        authority
        approved).allowed
      ≡ true
    → (evaluate d
        (some (record { confirmation_mode = m; max_auto_risk = some high_band }))
        authority
        approved).allowed
      ≡ true
unfolding evaluate policy_requires_approval
ceiling_allows d none a b authority approved le h = ground arith
ceiling_allows d (some always_confirm) a b authority approved le h = ground arith
ceiling_allows d (some risk_based) a b authority approved le h = ground arith
ceiling_allows d (some protected_only) a b authority approved le h = ground arith

-- A call that is refused for want of an approval was not approved, and the same call is allowed
-- once it is.
pub approval_lifts_refusal :
    (d : Definition) (p : Option PolicySnapshot) (authority : Authority) (approved : Bool)
    → (evaluate d p authority approved).requires_approval ≡ true
    → (approved ≡ false) × ((evaluate d p authority true).allowed ≡ true)
unfolding evaluate
approval_lifts_refusal d p authority approved h = ground arith
