-- ===== src/Agent/Business/Tests.antt =====
-- A summary of two steps.
use ai_odoo_assistant.Prelude.{ℕ, ltb, String, true, some, any, mem, ◌≡◌, refl}
use ai_odoo_assistant.Prelude.Json.{Json, arr, obj, nil, cons, end, field, get, get_value}
use ai_odoo_assistant.Prelude.Result.{ok}
use ai_odoo_assistant.Agent.Business.{
  Counts, exact_counts, normalized_business_outcome, incomplete_results, total,
  incomplete_effect_summary, summary_payload,
}
use ai_odoo_assistant.Agent.Business.Sums.{incomplete_effect_summary-normalized}

-- Two steps, one of which applied to three records of five.
abbrev counted : String → ℕ → ℕ → ℕ → Json
counted outcome done wanted failures = obj (
    field "result"
      (summary_payload (
        outcome,
        record {
          count = done;
          requested_count = wanted;
          failed_count = failures;
          excluded_count = 0;
        },
      ))
      end)

abbrev of_five : Counts
of_five = record { count = 3; requested_count = 5; failed_count = 2; excluded_count = 0 }

abbrev in_part : String
in_part = "partial"

summed :
    incomplete_effect_summary
      (arr (cons (counted "completed" 2 2 0) (cons (counted "partial" 3 5 2) nil)))
    ≡ ok (some ("partial", of_five))
unfolding incomplete_effect_summary incomplete_results normalized_business_outcome summary_payload
    exact_counts get_value get total mem any
summed = refl

incomplete_effect_summary-normalized_example :
    (normalized_business_outcome (summary_payload ("partial", of_five))
      ≡ ok (some ("partial", of_five)))
    × (ltb 0 3 ≡ true → in_part ≡ "partial")
incomplete_effect_summary-normalized_example =
    incomplete_effect_summary-normalized
      (arr (cons (counted "completed" 2 2 0) (cons (counted "partial" 3 5 2) nil))) "partial"
      of_five summed
