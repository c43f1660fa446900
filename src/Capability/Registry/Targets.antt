-- ===== src/Capability/Registry/Targets.antt =====
-- The entries of a registry by their names, and the dependencies that an accepted one has.
use ai_odoo_assistant.Prelude.{
  ℕ, ltb, String, true, not, Option, none, some, List, [], ◌∷◌, mem, str_eq, eq_iff, ◌≡◌,
  Bool-cases, inl, inr,
}
use ai_odoo_assistant.Prelude.Result.{ok, bind-ok, require-ok, then-ok}
use ai_odoo_assistant.Capability.Registry.{
  Dependency, Entry, find_entry, entry_or, check_targets, check_all_targets, names_of, entry_names,
  validate_dependencies,
}

pub find_entry-name :
    (name : String) (registry : List Entry) (d : Entry)
    → find_entry name registry ≡ some d
    → d.name ≡ name
unfolding find_entry
find_entry-name name [] d h = cc h
find_entry-name name (e ∷ registry) d h = elim (Bool-cases (str_eq e.name name)) [
  | inl same ↦
      let k = rw same at h in
      let q : e ≡ d = cc k in let n : e.name ≡ name = (eq_iff e.name name).0 same in rw (← q) n
  | inr other ↦ find_entry-name name registry d (rw other at h)
]

pub find_entry-mem :
    (name : String) (registry : List Entry) (d : Entry)
    → find_entry name registry ≡ some d
    → mem name (entry_names registry) ≡ true
unfolding find_entry mem
find_entry-mem name [] d h = cc h
find_entry-mem name (e ∷ registry) d h = elim (Bool-cases (str_eq e.name name)) [
  | inl same ↦ rw same
  | inr other ↦ let k = find_entry-mem name registry d (rw other at h) in rw (other, k)
]

entry_or-found :
    (code : String) (o : Option Entry) (d : Entry) → entry_or code o ≡ ok d → o ≡ some d
entry_or-found code none d h = cc h
entry_or-found code (some e) d h = cc h

check_targets-found :
    (registry : List Entry) (deps : List Dependency) (name : String)
    → check_targets registry deps ≡ ok tt
    → mem name (names_of deps) ≡ true
    → (e : Entry) × (find_entry name registry ≡ some e)
unfolding check_targets mem
check_targets-found registry [] name h needs = cc needs
check_targets-found registry (dep ∷ deps) name h needs =
    let (target, found, h1) =
      bind-ok (entry_or "capability_dependency_missing" (find_entry dep.name registry)) _ tt h in
    let (recent, rest) = require-ok (not (ltb target.version dep.minimum_version)) _ _ tt h1 in
    elim (Bool-cases (str_eq dep.name name)) [
      | inl same ↦
          let q : dep.name ≡ name = (eq_iff dep.name name).0 same in
          let k = entry_or-found _ (find_entry dep.name registry) target found in
          (target, rw q at k)
      | inr other ↦ check_targets-found registry deps name rest (rw other at needs)
    ]

check_all_targets-entry :
    (registry ds : List Entry) (name : String) (d : Entry)
    → check_all_targets registry ds ≡ ok tt
    → find_entry name ds ≡ some d
    → check_targets registry d.dependencies ≡ ok tt
unfolding check_all_targets find_entry
check_all_targets-entry registry [] name d h found = cc found
check_all_targets-entry registry (e ∷ ds) name d h found =
    let (first, rest) = then-ok (check_targets registry e.dependencies) _ tt h in
    elim (Bool-cases (str_eq e.name name)) [
      | inl same ↦ let k = rw same at found in let q : e ≡ d = cc k in rw (← q) first
      | inr other ↦ check_all_targets-entry registry ds name d rest (rw other at found)
    ]

-- In an accepted registry each dependency is an entry.
pub validate_dependencies-found :
    (fuel : ℕ) (registry : List Entry) (visited : List String) (name dep : String) (d : Entry)
    → validate_dependencies fuel registry ≡ ok visited
    → find_entry name registry ≡ some d
    → mem dep (names_of d.dependencies) ≡ true
    → (e : Entry) × (find_entry dep registry ≡ some e)
unfolding validate_dependencies
validate_dependencies-found fuel registry visited name dep d h found needs =
    let (targets, walked) = then-ok (check_all_targets registry registry) _ visited h in
    check_targets-found registry d.dependencies dep
      (check_all_targets-entry registry registry name d targets found) needs
