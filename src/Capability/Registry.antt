-- ===== src/Capability/Registry.antt =====
-- The catalog of capabilities: `CapabilityRegistry` of
-- addons/odoo_ai_assistant/runtime/capabilities/registry.py, and `available_for` of contracts.py.
pub mod Ranks
pub mod Targets
pub mod Memoised
pub mod Listed
pub mod Accepts
mod Tests
use Prim.Native.Char.{code}
use Prim.Native.String.{String, ◌++◌ as append}
use ai_odoo_assistant.Prelude.{
  ℕ, zero, suc, ltb, Bool, true, false, not, ◌&&◌, ◌||◌, ◌==◌, Option, none, some, List, [], ◌∷◌,
  ◌++◌, map, all, mem, str_eq, length, if◌then◌else◌,
}
use ai_odoo_assistant.Prelude.Json.{Json, bool, obj, Fields, end, get_value}
use ai_odoo_assistant.Prelude.Result.{Result, ok, err, require, ◌>>=◌, ◌>>◌}

-- Versions are the numbers that `int` reads.
pub record Dependency : Type 0 where
  pub name : String
  pub minimum_version : ℕ

-- `capability_enabled` of the context's metadata, and `has_group` of its user, who may be missing:
-- none where the call raises.
pub record Context : Type 0 where
  pub capability_enabled : Json
  pub has_group : Option (String → Option Bool)

-- What the registry reads of a definition. A guard's answer is none where it raises.
pub record Entry : Type 0 where
  pub name : String
  pub namespace : String
  pub executor_id : String
  pub version : ℕ
  pub dependencies : List Dependency
  pub default_enabled : Bool
  pub required_groups : List String
  pub guard : Option (Context → Option Bool)

-- self._by_name.get(name)
unfoldable pub find_entry : String → List Entry → Option Entry
find_entry name [] = none
find_entry name (d ∷ ds) = if str_eq d.name name then some d else find_entry name ds

abbrev pub entry_or : String → Option Entry → Result Entry
entry_or code none = err code
entry_or code (some d) = ok d

-- The loop of `__init__` over the definitions, which are sorted by name.
unfoldable pub check_identities : List String → List String → List Entry → Result (Unit {0})
check_identities names executors [] = ok tt
check_identities names executors (d ∷ ds) = do
  require (not (mem d.name names)) "capability_name_duplicate"
  require (not (mem d.executor_id executors)) "capability_executor_duplicate"
  check_identities (d.name ∷ names) (d.executor_id ∷ executors) ds

unfoldable pub check_targets : List Entry → List Dependency → Result (Unit {0})
check_targets registry [] = ok tt
check_targets registry (dep ∷ deps) = do
  target ← entry_or "capability_dependency_missing" (find_entry dep.name registry)
  require (not (ltb target.version dep.minimum_version)) "capability_dependency_version_mismatch"
  check_targets registry deps

unfoldable pub check_all_targets : List Entry → List Entry → Result (Unit {0})
check_all_targets registry [] = ok tt
check_all_targets registry (d ∷ ds) = do
  check_targets registry d.dependencies
  check_all_targets registry ds

-- A loop that visits names, where a visit gives the visited names after it.
unfoldable pub visit_each :
    (List String → String → Result (List String)) → List String → List String → Result (List String)
visit_each visit [] visited = ok visited
visit_each visit (name ∷ names) visited = do
  visited' ← visit visited name
  visit_each visit names visited'

abbrev pub names_of : List Dependency → List String
names_of = map (λ (dep : Dependency). dep.name)

-- A visit after its two tests, where `go` visits below it.
unfoldable pub visit_entry :
    List Entry
    → (List String → String → Result (List String))
    → List String
    → String
    → Result (List String)
visit_entry registry go visited name = do
  d ← entry_or "KeyError" (find_entry name registry)
  visited' ← visit_each go (names_of d.dependencies) visited
  ok (name ∷ visited')

-- `visit`: the fuel is what is left of the stack.
unfoldable pub visit : ℕ → List Entry → List String → List String → String → Result (List String)
visit zero registry visiting visited name = err "RecursionError"
visit (suc fuel) registry visiting visited name =
    let below = visit fuel registry (name ∷ visiting) in
    if mem name visiting
    then err "capability_dependency_cycle"
    else if mem name visited
    then ok visited
    else visit_entry registry below visited name

abbrev pub entry_names : List Entry → List String
entry_names = map (λ (d : Entry). d.name)

-- `_validate_dependencies`
unfoldable pub validate_dependencies : ℕ → List Entry → Result (List String)
validate_dependencies fuel registry = do
  check_all_targets registry registry
  visit_each (visit fuel registry []) (entry_names registry) []

abbrev is_dot : ℕ → Bool
is_dot c = c == 46

abbrev push_all : String → List String → List String
push_all first [] = []
push_all first (s ∷ ss) = append first s ∷ push_all first ss

-- What rpartition(".")[0] gives, again and again: the text before each dot, the last dot first.
unfoldable pub before_dots : String → List String
before_dots String.[] = []
before_dots (String.◌∷◌ letter rest) =
    let deeper = push_all (String.◌∷◌ letter String.[]) (before_dots rest) in
    if is_dot (code letter) then deeper ++ "" ∷ [] else deeper

-- The loop over the namespaces, up to an empty one.
unfoldable pub namespace_override : Fields → Bool → List String → Bool
namespace_override overrides default_enabled [] = default_enabled
namespace_override overrides default_enabled (ns ∷ rest) =
    if str_eq ns "" then default_enabled else elim (get_value (append ns ".*") overrides) [
      | bool b ↦ b
      | _ ↦ namespace_override overrides default_enabled rest
    ]

abbrev overrides_of : Json → Fields
overrides_of (obj fs) = fs
overrides_of _ = end

-- `_enabled_by_context`
unfoldable pub enabled_by_context : Context → Entry → Bool
enabled_by_context context d =
    let overrides = overrides_of context.capability_enabled in
    elim (get_value d.name overrides) [
      | bool b ↦ b
      | _ ↦ namespace_override overrides d.default_enabled (d.namespace ∷ before_dots d.namespace)
    ]

-- bool(call()), False where it raises
abbrev pub granted : Option Bool → Bool
granted (some true) = true
granted _ = false

abbrev in_groups : List String → Option (String → Option Bool) → Bool
in_groups [] user = true
in_groups groups none = false
in_groups groups (some has_group) = all (λ group. granted (has_group group)) groups

abbrev passes_guard : Context → Option (Context → Option Bool) → Bool
passes_guard context none = true
passes_guard context (some guard) = granted (guard context)

-- `available_for`
unfoldable pub available_for : Context → Entry → Bool
available_for context d =
    in_groups d.required_groups context.has_group && passes_guard context d.guard

abbrev pub Memo : Type 0
Memo = List (String × Bool)

unfoldable pub recall : String → Memo → Option Bool
recall name [] = none
recall name ((key, b) ∷ memo) = if str_eq key name then some b else recall name memo

-- all(self._available(self.resolve(dep.name), context, memo) for dep in dependencies)
unfoldable pub all_available :
    List Entry
    → (Entry → Memo → Result (Bool × Memo))
    → List Dependency
    → Memo
    → Result (Bool × Memo)
all_available registry check [] memo = ok (true, memo)
all_available registry check (dep ∷ deps) memo = do
  d ← entry_or "capability_not_registered" (find_entry dep.name registry)
  (enabled, memo') ← check d memo
  if enabled then all_available registry check deps memo' else ok (false, memo')

-- `_available` after the look at the memo, where `below` asks for what a capability depends on.
abbrev pub settle :
    Context
    → List Entry
    → (Entry → Memo → Result (Bool × Memo))
    → Entry
    → Memo
    → Result (Bool × Memo)
settle context registry below d memo = do
  (enabled, memo') ←
      if enabled_by_context context d && available_for context d
      then all_available registry below d.dependencies memo
      else ok (false, memo)
  ok (enabled, (d.name, enabled) ∷ memo')

abbrev pub recalled : Option Bool → Memo → Result (Bool × Memo) → Result (Bool × Memo)
recalled none memo computed = computed
recalled (some b) memo computed = ok (b, memo)

-- `_available`: the fuel is what is left of the stack.
unfoldable pub available : ℕ → Context → List Entry → Entry → Memo → Result (Bool × Memo)
available zero context registry d memo = err "RecursionError"
available (suc fuel) context registry d memo =
    recalled (recall d.name memo) memo
      (settle context registry (available fuel context registry) d memo)

-- `available`: the loop over the definitions, with one memo.
unfoldable pub available_from : ℕ → Context → List Entry → List Entry → Memo → Result (List Entry)
available_from room context registry [] memo = ok []
available_from room context registry (d ∷ ds) memo = do
  (enabled, memo') ← available room context registry d memo
  rest ← available_from room context registry ds memo'
  ok (if enabled then d ∷ rest else rest)

unfoldable pub available_entries : ℕ → Context → List Entry → Result (List Entry)
available_entries room context registry = available_from room context registry registry []

-- `__init__`, on definitions sorted by name; the statuses of providers are left out.
unfoldable pub init : ℕ → List Entry → Result (List Entry)
init room definitions = do
  check_identities [] [] definitions
  visited ← validate_dependencies room definitions
  ok definitions
