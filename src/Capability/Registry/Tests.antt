-- ===== src/Capability/Registry/Tests.antt =====
-- A registry of three capabilities, one of which depends on another.
use ai_odoo_assistant.Prelude.{
  ◌<◌, ◌≤◌, String, true, false, none, List, [], ◌∷◌, ◌≡◌, refl, mem, arith,
}
use ai_odoo_assistant.Prelude.Json.{bool, obj, end, field, get, get_value}
use ai_odoo_assistant.Prelude.Result.{ok}
use ai_odoo_assistant.Capability.Registry.{
  Dependency, Entry, Context, find_entry, check_identities, check_targets, check_all_targets,
  visit_each, visit_entry, visit, validate_dependencies, before_dots, namespace_override,
  enabled_by_context, available_for, recall, all_available, available, available_from,
  available_entries, init,
}
use ai_odoo_assistant.Capability.Registry.Ranks.{rank, rank-le, validate_dependencies-rank}
use ai_odoo_assistant.Capability.Registry.Listed.{Chosen, available_entries-Chosen}
use ai_odoo_assistant.Capability.Registry.Memoised.{accepted-target}
use ai_odoo_assistant.Capability.Registry.Accepts.{validate_dependencies-accepts}

abbrev entry : String → String → List Dependency → Entry
entry name namespace dependencies = record {
  name = name;
  namespace = namespace;
  executor_id = name;
  version = 1;
  dependencies = dependencies;
  default_enabled = true;
  required_groups = [];
  guard = none;
}

abbrev catalog : List Entry
catalog =
    entry "odoo.mail.send" "odoo.mail" []
    ∷ entry "odoo.order.confirm" "odoo.order"
        (record { name = "odoo.record.read"; minimum_version = 1 } ∷ [])
    ∷ entry "odoo.record.read" "odoo.record" []
    ∷ []

-- "odoo.mail.*" is turned off.
abbrev quiet : Context
quiet = record { capability_enabled = obj (field "odoo.mail.*" (bool false) end); has_group = none }

abbrev walked : List String
walked = "odoo.order.confirm" ∷ "odoo.record.read" ∷ "odoo.mail.send" ∷ []

accepted : validate_dependencies 4 catalog ≡ ok walked
unfolding validate_dependencies check_all_targets check_targets find_entry visit_each visit
    visit_entry mem
accepted = refl

built : init 4 catalog ≡ ok catalog
unfolding init check_identities validate_dependencies check_all_targets check_targets find_entry
    visit_each visit visit_entry mem
built = refl

two_left :
    available_entries 4 quiet catalog
    ≡ ok (
        entry "odoo.order.confirm" "odoo.order"
          (record { name = "odoo.record.read"; minimum_version = 1 } ∷ [])
        ∷ entry "odoo.record.read" "odoo.record" []
        ∷ [])
unfolding available_entries available_from available all_available recall find_entry
    enabled_by_context namespace_override before_dots get_value get available_for
two_left = refl

validate_dependencies-rank_example :
    (rank walked "odoo.record.read" < rank walked "odoo.order.confirm")
    × (rank walked "odoo.order.confirm" ≤ 3)
unfolding mem find_entry
validate_dependencies-rank_example =
    validate_dependencies-rank 4 catalog walked accepted "odoo.order.confirm" "odoo.record.read"
      (entry "odoo.order.confirm" "odoo.order"
        (record { name = "odoo.record.read"; minimum_version = 1 } ∷ []))
      refl refl refl

available_entries-Chosen_example :
    (es : List Entry) × (available_entries 4 quiet catalog ≡ ok es)
    × Chosen quiet catalog catalog es
available_entries-Chosen_example =
    available_entries-Chosen 4 4 quiet catalog catalog walked built accepted (omega arith)

all_there : check_all_targets catalog catalog ≡ ok tt
unfolding check_all_targets check_targets find_entry
all_there = refl

shallow : (name : String) → rank walked name < 4
shallow name = omega (arith, rank-le walked name)

validate_dependencies-accepts_example :
    (visited : List String) × (validate_dependencies 4 catalog ≡ ok visited)
validate_dependencies-accepts_example =
    validate_dependencies-accepts catalog (rank walked) 4 all_there
      (accepted-target 4 catalog walked accepted) shallow
