-- ===== src/Agent/Business/Sums.antt =====
-- Sums of counts that add up.
use ai_odoo_assistant.Prelude.{
  ℕ, ltb, String, Bool, true, false, Option, none, some, List, [], ◌∷◌, any, All, mem,
  if◌then◌else◌, ◌≡◌, refl, arith, Bool-cases, inl, inr,
}
use ai_odoo_assistant.Prelude.Json.{Json, str, arr, obj, Items, nil, cons, Fields, get, get_value}
use ai_odoo_assistant.Prelude.Result.{ok, Ensures, Ensures-bind, Ensures-ok, Ensures-err, bind-ok}
use ai_odoo_assistant.Agent.Business.{
  Counts, count_of, is_exact, tested, four, exact_counts, business_outcomes, incomplete_outcomes,
  with_counts, with_outcome, normalized_business_outcome, result_of, if_incomplete,
  incomplete_results, total, is_partial, summarised, incomplete_effect_summary, summary_payload,
}

-- Counts that add up.
abbrev IsExact : String × Counts → Type 0
IsExact r = is_exact r.1 ≡ true

tested-IsExact : (c d : Counts) → tested c ≡ some d → is_exact d ≡ true
tested-IsExact c d h = elim (Bool-cases (is_exact c)) [
  | inl exact ↦ let k = rw exact at h in let q : c ≡ d = cc k in rw (← q) exact
  | inr off ↦ let k = rw off at h in cc k
]

four-IsExact : (a b c d : Option ℕ) (e : Counts) → four a b c d ≡ some e → is_exact e ≡ true
four-IsExact (some a) (some b) (some c) (some d) e h =
    tested-IsExact (record { count = a; requested_count = b; failed_count = c; excluded_count = d })
      e h
four-IsExact _ _ _ _ e h = cc h

total-IsExact :
    (r : String × Counts) (results : List (String × Counts))
    → All IsExact (r ∷ results)
    → is_exact (total (r ∷ results)) ≡ true
unfolding total
total-IsExact (o, c) [] h = let k = h.0 in ground arith
total-IsExact (o, c) (r ∷ results) h =
    let k = h.0 in let rest = total-IsExact r results h.1 in ground arith

-- Where no result is partial and none applied to anything, nothing was applied.
none_applied :
    (results : List (String × Counts)) → any is_partial results ≡ false → (total results).count ≡ 0
unfolding total any
none_applied [] h = refl
none_applied ((o, c) ∷ results) h = let rest = none_applied results (ground arith) in ground arith

exact_counts-IsExact :
    (result : Fields) (c : Counts) → exact_counts result ≡ some c → is_exact c ≡ true
unfolding exact_counts
exact_counts-IsExact result c h =
    four-IsExact (count_of (get_value "count" result))
      (count_of (get_value "requested_count" result)) (count_of (get_value "failed_count" result))
      (count_of (get_value "excluded_count" result)) c h

abbrev MaybeExact : Option (String × Counts) → Type 0
MaybeExact none = Unit {0}
MaybeExact (some r) = IsExact r

with_counts-MaybeExact :
    (outcome : String) (o : Option Counts)
    → ((c : Counts) → o ≡ some c → is_exact c ≡ true)
    → MaybeExact (with_counts outcome o)
with_counts-MaybeExact outcome none h = tt
with_counts-MaybeExact outcome (some c) h = h c refl

MaybeExact-if :
    (b : Bool) (o : Option (String × Counts)) → MaybeExact o → MaybeExact (if b then o else none)
MaybeExact-if true o h = h
MaybeExact-if false o h = tt

with_outcome-MaybeExact :
    (v : Json) (o : Option Counts)
    → ((c : Counts) → o ≡ some c → is_exact c ≡ true)
    → Ensures MaybeExact (with_outcome v o)
with_outcome-MaybeExact (str outcome) o h =
    Ensures-ok _
      (MaybeExact-if (mem outcome business_outcomes) _ (with_counts-MaybeExact outcome o h))
with_outcome-MaybeExact (arr xs) o h = Ensures-err "TypeError"
with_outcome-MaybeExact (obj fs) o h = Ensures-err "TypeError"
with_outcome-MaybeExact v o h = Ensures-ok none tt

normalized-MaybeExact : (v : Json) → Ensures MaybeExact (normalized_business_outcome v)
unfolding normalized_business_outcome
normalized-MaybeExact (obj result) =
    with_outcome-MaybeExact (get_value "outcome" result) (exact_counts result)
      (exact_counts-IsExact result)
normalized-MaybeExact v = Ensures-ok none tt

if_incomplete-IsExact :
    (o : Option (String × Counts)) (rest : List (String × Counts))
    → MaybeExact o
    → All IsExact rest
    → All IsExact (if_incomplete o rest)
if_incomplete-IsExact none rest h k = k
if_incomplete-IsExact (some (outcome, c)) rest h k =
    elim (Bool-cases (mem outcome incomplete_outcomes)) [
      | inl incomplete ↦ rw incomplete (h, k)
      | inr complete ↦ rw complete k
    ]

incomplete_results-IsExact : (steps : Items) → Ensures (All IsExact) (incomplete_results steps)
unfolding incomplete_results
incomplete_results-IsExact nil = Ensures-ok [] tt
incomplete_results-IsExact (cons step steps) =
    Ensures-bind (normalized_business_outcome (result_of step)) _ (λ o made.
      Ensures-bind (incomplete_results steps) _ (λ rest found. Ensures-ok (if_incomplete o rest) (
        if_incomplete-IsExact o rest ((normalized-MaybeExact (result_of step)).at o made)
          ((incomplete_results-IsExact steps).at rest found))))

-- Counts that add up are read back from the dict that holds them.
payload-normalized :
    (outcome : String) (c : Counts)
    → mem outcome business_outcomes ≡ true
    → is_exact c ≡ true
    → normalized_business_outcome (summary_payload (outcome, c)) ≡ ok (some (outcome, c))
unfolding normalized_business_outcome summary_payload exact_counts get_value get
payload-normalized outcome c known exact = rw (known, exact)

abbrev aggregate : Bool → String
aggregate applied = if applied then "partial" else "blocked"

aggregate-known : (b : Bool) → mem (aggregate b) business_outcomes ≡ true
unfolding mem
aggregate-known true = refl
aggregate-known false = refl

aggregate-partial :
    (b : Bool) (n : ℕ) → (b ≡ false → n ≡ 0) → ltb 0 n ≡ true → aggregate b ≡ "partial"
aggregate-partial true n h k = refl
aggregate-partial false n h k = let z = h refl in absurd (ground arith)

summarised-normalized :
    (results : List (String × Counts)) (outcome : String) (c : Counts)
    → All IsExact results
    → summarised results ≡ some (outcome, c)
    → (normalized_business_outcome (summary_payload (outcome, c)) ≡ ok (some (outcome, c)))
      × (ltb 0 c.count ≡ true → outcome ≡ "partial")
summarised-normalized [] outcome c exact h = cc h
summarised-normalized (r ∷ results) outcome c exact h =
    let applied = any is_partial (r ∷ results) in
    let p : aggregate applied ≡ outcome = cc h in
    let q : total (r ∷ results) ≡ c = cc h in
    rw (← p, ← q)
      (
        payload-normalized (aggregate applied) (total (r ∷ results)) (aggregate-known applied)
            (total-IsExact r results exact),
        aggregate-partial applied (total (r ∷ results)).count (none_applied (r ∷ results)),
      )

-- A summary of incomplete effects satisfies the contract that its parts satisfied: read as a result it
-- gives the same outcome and the same counts, which add up to those requested; and where anything was
-- applied, it does not say that the operation was blocked but that it was partial.
pub incomplete_effect_summary-normalized :
    (steps : Json) (outcome : String) (c : Counts)
    → incomplete_effect_summary steps ≡ ok (some (outcome, c))
    → (normalized_business_outcome (summary_payload (outcome, c)) ≡ ok (some (outcome, c)))
      × (ltb 0 c.count ≡ true → outcome ≡ "partial")
unfolding incomplete_effect_summary
incomplete_effect_summary-normalized (arr steps) outcome c h =
    let (results, found, h1) = bind-ok (incomplete_results steps) _ _ h in
    summarised-normalized results outcome c ((incomplete_results-IsExact steps).at results found)
      (cc h1)
incomplete_effect_summary-normalized _ outcome c h = cc h
