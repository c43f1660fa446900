-- ===== src/Plan/Units.antt =====
-- Recovery units: how `prepare` cuts a plan into them, and what `_validated_plan` asks of them.
use Prim.Native.Nat.{◌/◌, ◌%◌}
use Prim.Native.String.{◌++◌ as append}
use ai_odoo_assistant.Prelude.{
  ℕ, zero, suc, ◌+◌, leb, ◌==◌, String, Bool, true, false, not, ◌&&◌, ◌||◌, Option, none, some,
  List, [], ◌∷◌, ◌++◌, reverse, all, mem, str_eq, length, if◌then◌else◌,
}
use ai_odoo_assistant.Prelude.Result.{Result, ok, require, ◌>>=◌, ◌>>◌}
use ai_odoo_assistant.Plan.{
  Step, RecoveryUnit, prepared, is_atomic, same_mode, step_ids_of, find_step,
}

digit : ℕ → String
digit n =
    if n == 0
    then "0"
    else if n == 1
    then "1"
    else if n == 2
    then "2"
    else if n == 3
    then "3"
    else if n == 4
    then "4"
    else if n == 5
    then "5"
    else if n == 6
    then "6"
    else if n == 7
    then "7"
    else if n == 8
    then "8"
    else "9"

-- str(n), on fuel above n
decimal : ℕ → ℕ → String
decimal zero n = ""
decimal (suc fuel) n =
    let rest = decimal fuel (n / 10) in if leb n 9 then digit n else append rest (digit (n % 10))

-- f"unit-{n}" and f"step-{n}"
unfoldable pub numbered : String → ℕ → String
unfolding digit decimal
numbered prefix n = append prefix (decimal (suc n) n)

-- One step of `_assign_recovery_units`; the units are newest first.
new_unit : ℕ → Step → RecoveryUnit
new_unit n s = record {
  unit_id = numbered "unit-" (n + 1);
  mode = s.recovery_mode;
  step_ids = s.step_id ∷ [];
  state = prepared;
}

assign_step : Step → List RecoveryUnit → List RecoveryUnit × Step
unfolding new_unit
assign_step s [] = let u = new_unit 0 s in (u ∷ [], record s { recovery_unit_id = u.unit_id })
assign_step s (u ∷ us) =
    if is_atomic s.recovery_mode && is_atomic u.mode
    then (
      record u { step_ids = u.step_ids ++ s.step_id ∷ [] } ∷ us,
      record s { recovery_unit_id = u.unit_id },
    )
    else let v = new_unit (length (u ∷ us)) s in
      (v ∷ u ∷ us, record s { recovery_unit_id = v.unit_id })

unfoldable pub assign_from : List RecoveryUnit → List Step → List RecoveryUnit × List Step
unfolding assign_step
assign_from units [] = (units, [])
assign_from units (s ∷ rest) =
    let (units', s') = assign_step s units in
    let (all_units, rest') = assign_from units' rest in (all_units, s' ∷ rest')

-- `_assign_recovery_units`: the units in order, and the steps with their unit ids.
unfoldable pub assign_recovery_units : List Step → List RecoveryUnit × List Step
assign_recovery_units steps = let (units, steps') = assign_from [] steps in (reverse units, steps')

-- len(set(xs)) == len(xs)
unfoldable pub are_distinct : List String → Bool
are_distinct [] = true
are_distinct (x ∷ xs) = not (mem x xs) && are_distinct xs

fits_unit : RecoveryUnit → List String → String → Option Step → Bool
fits_unit u seen id none = false
fits_unit u seen id (some s) =
    not (mem id seen) && str_eq s.recovery_unit_id u.unit_id && same_mode s.recovery_mode u.mode

-- The loop over the steps of a unit: the ids seen after it.
check_steps : RecoveryUnit → List Step → List String → List String → Result (List String)
check_steps u steps seen [] = ok seen
check_steps u steps seen (id ∷ ids) = do
  require (fits_unit u seen id (find_step id steps)) "capability_plan_invalid"
  check_steps u steps (id ∷ seen) ids

check_unit : ℕ → RecoveryUnit → List Step → List String → Result (List String)
check_unit index u steps seen = do
  require
      (str_eq u.unit_id (numbered "unit-" (index + 1))
        && leb 1 (length u.step_ids)
        && are_distinct u.step_ids)
      "capability_plan_invalid"
  seen' ← check_steps u steps seen u.step_ids
  require (is_atomic u.mode || length u.step_ids == 1) "capability_plan_invalid"
  ok seen'

check_units : ℕ → List RecoveryUnit → List Step → List String → Result (List String)
unfolding check_unit check_steps fits_unit
check_units index [] steps seen = ok seen
check_units index (u ∷ us) steps seen = do
  seen' ← check_unit index u steps seen
  check_units (index + 1) us steps seen'

-- [step_id for unit in normalized for step_id in unit["step_ids"]]
unfoldable pub unit_step_ids : List RecoveryUnit → List String
unit_step_ids [] = []
unit_step_ids (u ∷ us) = u.step_ids ++ unit_step_ids us

unfoldable pub same_ids : List String → List String → Bool
same_ids [] [] = true
same_ids (x ∷ xs) (y ∷ ys) = str_eq x y && same_ids xs ys
same_ids _ _ = false

-- `_validated_recovery_units`
unfoldable pub validated_recovery_units : List RecoveryUnit → List Step → Result (Unit {0})
unfolding check_units
validated_recovery_units units steps = do
  require (leb 1 (length units) && leb (length units) (length steps)) "capability_plan_invalid"
  seen ← check_units 0 units steps []
  require (all (λ id. mem id seen) (step_ids_of steps)) "capability_plan_invalid"
  require (same_ids (unit_step_ids units) (step_ids_of steps)) "capability_plan_invalid"
