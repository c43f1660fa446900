-- ===== src/Capability/Tests.antt =====
-- The approval policy at a capability that writes one record.
use ai_odoo_assistant.Prelude.{◌≡◌, refl, arith, true, false, none, some, []}
use ai_odoo_assistant.Capability.{
  Risk, Effect, Exposure, Authority, Definition, PolicySnapshot, risk_based, moderate, high, policy,
  evaluate,
}
use ai_odoo_assistant.Capability.Decisions.{
  IsAutomatic, evaluate-IsAutomatic, ceiling_allows, approval_lifts_refusal,
}

abbrev update_record : Definition
update_record = record {
  name = "odoo.record.update";
  version = "1";
  risk = Risk.write;
  effect = Effect.internal_reversible;
  exposure = Exposure.plan;
  approval = policy;
  max_calls = 5;
  tags = [];
  partial_failure_semantics = none;
  recovery_mode = none;
  journal_classification = none;
}

abbrev up_to_moderate : PolicySnapshot
up_to_moderate = record { confirmation_mode = some risk_based; max_auto_risk = some moderate }

evaluate-IsAutomatic_example : IsAutomatic update_record (some up_to_moderate)
unfolding evaluate
evaluate-IsAutomatic_example =
    evaluate-IsAutomatic update_record (some up_to_moderate) Authority.plan refl

ceiling_allows_example :
    (evaluate update_record
      (some (record { confirmation_mode = some risk_based; max_auto_risk = some high }))
      Authority.plan
      false).allowed
    ≡ true
unfolding evaluate
ceiling_allows_example =
    ceiling_allows update_record (some risk_based) moderate high Authority.plan false (omega arith)
      refl

approval_lifts_refusal_example :
    (false ≡ false) × ((evaluate update_record none Authority.plan true).allowed ≡ true)
unfolding evaluate
approval_lifts_refusal_example = approval_lifts_refusal update_record none Authority.plan false refl
