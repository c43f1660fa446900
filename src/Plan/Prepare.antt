-- ===== src/Plan/Prepare.antt =====
-- `_validated_plan`, and what binds a step to its capability.
use Prim.Native.String.{◌++◌ as append}
use ai_odoo_assistant.Prelude.{
  ℕ, ◌+◌, leb, ◌==◌, String, Bool, true, false, not, ◌&&◌, ◌||◌, Option, none, some, List, [], ◌∷◌,
  all, mem, str_eq, length, if◌then◌else◌,
}
use ai_odoo_assistant.Prelude.Json.{Json, bool, obj, field, get}
use ai_odoo_assistant.Prelude.PyText.{codes}
use ai_odoo_assistant.Prelude.Result.{Result, ok, err, require, ◌>>=◌, ◌>>◌}
use ai_odoo_assistant.Capability.{Definition, Effect, Exposure}
use ai_odoo_assistant.Plan.{
  Step, RecoveryMode, EffectPlan, SemanticGroups, JournalClass, odoo_atomic, segmented, external,
  unjournalled, reversible, reconstructable, irreversible, external_or_unknown,
}
use ai_odoo_assistant.Plan.Units.{numbered, are_distinct, validated_recovery_units}

abbrev pub same_class : JournalClass → JournalClass → Bool
same_class unjournalled unjournalled = true
same_class reversible reversible = true
same_class reconstructable reconstructable = true
same_class irreversible irreversible = true
same_class external_or_unknown external_or_unknown = true
same_class _ _ = false

-- _RECOVERY_MODES
parse_mode : String → Result RecoveryMode
parse_mode s =
    if str_eq s "odoo_atomic"
    then ok odoo_atomic
    else if str_eq s "segmented"
    then ok segmented
    else if str_eq s "external"
    then ok external
    else err "capability_recovery_metadata_invalid"

abbrev default_mode : Effect → RecoveryMode
default_mode Effect.external = external
default_mode Effect.host = external
default_mode _ = odoo_atomic

-- `_recovery_mode`
unfoldable pub recovery_mode_of : Definition → Result RecoveryMode
unfolding parse_mode
recovery_mode_of d = elim d.recovery_mode [
  | none ↦ ok (default_mode d.effect)
  | some s ↦ parse_mode s
]

-- _JOURNAL_CLASSES
parse_class : String → Result JournalClass
parse_class s =
    if str_eq s "none"
    then ok unjournalled
    else if str_eq s "reversible"
    then ok reversible
    else if str_eq s "reconstructable"
    then ok reconstructable
    else if str_eq s "irreversible"
    then ok irreversible
    else if str_eq s "external_or_unknown"
    then ok external_or_unknown
    else err "capability_journal_metadata_invalid"

abbrev is_reversible_effect : Effect → Bool
is_reversible_effect Effect.internal_reversible = true
is_reversible_effect _ = false

abbrev is_host_exposed : Exposure → Bool
is_host_exposed Exposure.host = true
is_host_exposed _ = false

abbrev is_true : Option Json → Bool
is_true (some (bool true)) = true
is_true _ = false

abbrev is_filled : Option Json → Bool
is_filled (some (obj (field k v rest))) = true
is_filled _ = false

abbrev complete_reconstruction : Option Json → Bool
complete_reconstruction (some (obj r)) =
    is_true (get "required_complete" r) && is_filled (get "values" r)
complete_reconstruction _ = false

-- preview["reconstruction"] has all that a reconstruction needs
reconstructs : Json → Bool
reconstructs (obj fs) = complete_reconstruction (get "reconstruction" fs)
reconstructs _ = false

explicit_class : Definition → Option Json → JournalClass → Result JournalClass
explicit_class d preview reversible =
    if is_reversible_effect d.effect
    then ok reversible
    else err "capability_journal_metadata_invalid"
explicit_class d none reconstructable = ok reconstructable
explicit_class d (some p) reconstructable =
    ok (if reconstructs p then reconstructable else irreversible)
explicit_class d preview class = ok class

-- A host compensation `name.revert` of the same effect.
has_compensation : (String → Result Definition) → Definition → Bool
has_compensation resolve d = elim (resolve (append d.name ".revert")) [
  | ok c ↦ is_host_exposed c.exposure && is_reversible_effect c.effect
  | err code ↦ false
]

abbrev effect_class : Effect → Bool → Bool → JournalClass
effect_class Effect.read_only compensated creates = unjournalled
effect_class Effect.external compensated creates = external_or_unknown
effect_class Effect.host compensated creates = external_or_unknown
effect_class Effect.internal_reversible compensated creates =
    if compensated then reversible else if creates then reconstructable else irreversible
effect_class Effect.internal_irreversible compensated creates = irreversible

-- `_journal_classification`
unfoldable pub journal_classification_of :
    (String → Result Definition) → Definition → Option Json → Result JournalClass
unfolding parse_class explicit_class reconstructs has_compensation
journal_classification_of resolve d preview = elim d.journal_classification [
  | none ↦ ok (effect_class d.effect (has_compensation resolve d) (mem "create" d.tags))
  | some s ↦ parse_class s >>= explicit_class d preview
]

-- `PlannedCapability` of runtime/agent/service.py
pub record Requested : Type 0 where
  pub capability : String
  pub arguments : Json
  pub summary : String
  pub step_id : String
  pub depends_on : List String

-- requested.step_id or f"step-{position + 1}"
unfoldable pub requested_id : ℕ → Requested → String
requested_id position r = if str_eq r.step_id "" then numbered "step-" (position + 1) else r.step_id

unfoldable pub check_requested : ℕ → List String → List Requested → Result (Unit {0})
unfolding requested_id
check_requested position known [] = ok tt
check_requested position known (r ∷ rest) = do
  require (not (mem (requested_id position r) known) && all (λ d. mem d known) r.depends_on)
      "capability_plan_dependency_invalid"
  check_requested (position + 1) (requested_id position r ∷ known) rest

-- `_validate_requested_dependencies`
unfoldable pub validate_requested_dependencies : List Requested → Result (Unit {0})
unfolding check_requested
validate_requested_dependencies plan = check_requested 0 [] plan

-- _MAX_EFFECT_STEPS
abbrev pub max_effect_steps : ℕ
max_effect_steps = 5

is_hex : ℕ → Bool
is_hex c = leb 48 c && leb c 57 || leb 97 c && leb c 102

-- What is left after the literal start of `_SEMANTIC_GROUP_RE`.
after_prefix : List ℕ → List ℕ → Option (List ℕ)
after_prefix [] text = some text
after_prefix (p ∷ ps) [] = none
after_prefix (p ∷ ps) (c ∷ cs) = if p == c then after_prefix ps cs else none

-- _SEMANTIC_GROUP_RE.fullmatch(value)
unfoldable pub is_semantic_group : String → Bool
unfolding after_prefix is_hex
is_semantic_group value = elim (after_prefix (codes "semantic:v1:") (codes value)) [
  | none ↦ false
  | some rest ↦ all is_hex rest && length rest == 32
]

valid_groups : SemanticGroups → Bool
valid_groups g =
    all is_semantic_group (g.prepare ∷ g.execute ∷ g.verify ∷ [])
    && are_distinct (g.prepare ∷ g.execute ∷ g.verify ∷ [])

is_object : Json → Bool
is_object (obj fs) = true
is_object _ = false

-- The tests of `_validated_plan` on one step, with the ids before it.
valid_step : ℕ → List String → Step → Bool
unfolding valid_groups is_object
valid_step position known s =
    leb 1 (length (codes s.step_id))
    && leb (length (codes s.step_id)) 256
    && not (mem s.step_id known)
    && are_distinct s.depends_on
    && all (λ d. mem d known) s.depends_on
    && valid_groups s.semantic_groups
    && s.position == position
    && is_object s.arguments
    && is_object s.preview
    && not (str_eq s.recovery_unit_id "")

check_plan_steps : ℕ → List String → List Step → Result (Unit {0})
check_plan_steps position known [] = ok tt
check_plan_steps position known (s ∷ rest) = do
  require (valid_step position known s) "capability_plan_invalid"
  check_plan_steps (position + 1) (s.step_id ∷ known) rest

-- `_validated_plan`, at format 3
unfoldable pub validated_plan : EffectPlan → Result (Unit {0})
unfolding check_plan_steps valid_step
validated_plan p = do
  require (leb 1 (length p.steps) && leb (length p.steps) max_effect_steps)
      "capability_plan_invalid"
  check_plan_steps 0 [] p.steps
  validated_recovery_units p.recovery_units p.steps
