-- ===== src/Agent/Business.antt =====
-- Verified but incomplete outcomes: addons/odoo_ai_assistant/runtime/agent/business_outcome.py.
mod Sums
mod Tests
use ai_odoo_assistant.Prelude.{
  ℕ, suc, ◌+◌, leb, ltb, ◌==◌, String, Bool, true, false, ◌&&◌, ◌||◌, Option, none, some, List, [],
  ◌∷◌, any, All, mem, str_eq, if◌then◌else◌, ◌≡◌, refl, sym, ◌∙◌, arith, Bool-cases, inl, inr,
}
use ai_odoo_assistant.Prelude.Json.{
  Json, int, str, arr, obj, pos, Items, nil, cons, Fields, end, field, get, get_value,
}
use ai_odoo_assistant.Prelude.Result.{
  Result, ok, err, ◌>>=◌, ◌>>◌, Ensures, Ensures-bind, Ensures-ok, Ensures-err, bind-ok,
}

pub record Counts : Type 0 where
  pub count : ℕ
  pub requested_count : ℕ
  pub failed_count : ℕ
  pub excluded_count : ℕ

-- A value whose type is int, and that is not negative.
abbrev pub count_of : Json → Option ℕ
count_of (int (pos n)) = some n
count_of _ = none

-- The two last tests of `_exact_counts`.
abbrev pub is_exact : Counts → Bool
is_exact c =
    leb 1 c.requested_count && (c.count + c.failed_count + c.excluded_count == c.requested_count)

abbrev pub tested : Counts → Option Counts
tested c = if is_exact c then some c else none

abbrev pub four : Option ℕ → Option ℕ → Option ℕ → Option ℕ → Option Counts
four (some a) (some b) (some c) (some d) =
    tested (record { count = a; requested_count = b; failed_count = c; excluded_count = d })
four _ _ _ _ = none

-- `_exact_counts`
unfoldable pub exact_counts : Fields → Option Counts
exact_counts result =
    four (count_of (get_value "count" result)) (count_of (get_value "requested_count" result))
      (count_of (get_value "failed_count" result)) (count_of (get_value "excluded_count" result))

abbrev pub business_outcomes : List String
business_outcomes = "completed" ∷ "partial" ∷ "blocked" ∷ []

abbrev pub incomplete_outcomes : List String
incomplete_outcomes = "partial" ∷ "blocked" ∷ []

abbrev pub with_counts : String → Option Counts → Option (String × Counts)
with_counts outcome none = none
with_counts outcome (some c) = some (outcome, c)

abbrev pub with_outcome : Json → Option Counts → Result (Option (String × Counts))
with_outcome (str outcome) counts =
    ok (if mem outcome business_outcomes then with_counts outcome counts else none)
with_outcome (arr xs) counts = err "TypeError"
with_outcome (obj fs) counts = err "TypeError"
with_outcome _ counts = ok none

-- `normalized_business_outcome`: a list or a dict has no hash.
unfoldable pub normalized_business_outcome : Json → Result (Option (String × Counts))
normalized_business_outcome (obj result) =
    with_outcome (get_value "outcome" result) (exact_counts result)
normalized_business_outcome _ = ok none

abbrev pub result_of : Json → Json
result_of (obj step) = get_value "result" step
result_of _ = Json.null

abbrev pub if_incomplete :
    Option (String × Counts) → List (String × Counts) → List (String × Counts)
if_incomplete none rest = rest
if_incomplete (some (outcome, c)) rest =
    if mem outcome incomplete_outcomes then (outcome, c) ∷ rest else rest

-- The loop over the steps: the incomplete outcomes with their counts.
unfoldable pub incomplete_results : Items → Result (List (String × Counts))
incomplete_results nil = ok []
incomplete_results (cons step steps) = do
  normalized ← normalized_business_outcome (result_of step)
  rest ← incomplete_results steps
  ok (if_incomplete normalized rest)

abbrev no_counts : Counts
no_counts = record { count = 0; requested_count = 0; failed_count = 0; excluded_count = 0 }

abbrev pub add_counts : Counts → Counts → Counts
add_counts a b = record {
  count = a.count + b.count;
  requested_count = a.requested_count + b.requested_count;
  failed_count = a.failed_count + b.failed_count;
  excluded_count = a.excluded_count + b.excluded_count;
}

-- {key: sum(counts[key] …) …}
unfoldable pub total : List (String × Counts) → Counts
total [] = no_counts
total ((outcome, c) ∷ results) = add_counts c (total results)

abbrev pub is_partial : String × Counts → Bool
is_partial (outcome, c) = str_eq outcome "partial" || ltb 0 c.count

abbrev pub summarised : List (String × Counts) → Option (String × Counts)
summarised [] = none
summarised (r ∷ results) =
    some (if any is_partial (r ∷ results) then "partial" else "blocked", total (r ∷ results))

-- `incomplete_effect_summary`; a value that is no list gives no summary.
unfoldable pub incomplete_effect_summary : Json → Result (Option (String × Counts))
incomplete_effect_summary (arr steps) = do
  results ← incomplete_results steps
  ok (summarised results)
incomplete_effect_summary _ = ok none

-- The summary as the dict that it is.
unfoldable pub summary_payload : String × Counts → Json
summary_payload (outcome, c) = obj (
    field "outcome" (str outcome) (
      field "count" (int (pos c.count)) (
        field "requested_count" (int (pos c.requested_count)) (
          field "failed_count" (int (pos c.failed_count))
            (field "excluded_count" (int (pos c.excluded_count)) end)))))
