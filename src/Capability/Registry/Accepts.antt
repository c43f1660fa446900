-- ===== src/Capability/Registry/Accepts.antt =====
-- Dependencies that do not lead back are accepted.
use ai_odoo_assistant.Prelude.{
  ℕ, zero, suc, ◌<◌, ◌≤◌, String, true, some, List, [], ◌∷◌, mem, str_eq, eq_iff, eq_refl, ◌≡◌,
  refl, arith, Bool-cases, inl, inr,
}
use ai_odoo_assistant.Prelude.Result.{Result, ok}
use ai_odoo_assistant.Capability.Registry.{
  Entry, find_entry, names_of, entry_names, check_all_targets, visit_each, visit_entry, visit,
  validate_dependencies,
}

-- What is visited stands no lower than the name that comes to it.
above_name :
    (height : String → ℕ) (name : String) (bound : ℕ) (visiting : List String)
    → height name < bound
    → ((x : String) → mem x visiting ≡ true → bound ≤ height x)
    → (x : String) → mem x (name ∷ visiting) ≡ true
    → height name ≤ height x
unfolding mem
above_name height name bound visiting low above x m = elim (Bool-cases (str_eq name x)) [
  | inl same ↦ let at : name ≡ x = (eq_iff name x).0 same in rw at (omega arith)
  | inr other ↦ omega (arith, low, above x (rw other at m))
]

module _ (registry : List Entry) (height : String → ℕ)
    (target : (name dep : String) (d : Entry)
      → find_entry name registry ≡ some d
      → mem dep (names_of d.dependencies) ≡ true
      → (e : Entry) × (find_entry dep registry ≡ some e) × (height dep < height name)) where
  -- The names of a walk are registered and lower than `bound`.
  abbrev Below : ℕ → List String → Type 0
  Below bound names =
      (name : String)
      → mem name names ≡ true
      → (e : Entry) × (find_entry name registry ≡ some e) × (height name < bound)

  abbrev Passes : ℕ → (List String → String → Result (List String)) → Type 0
  Passes bound go =
      (visited : List String) (name : String) (e : Entry)
      → find_entry name registry ≡ some e
      → height name < bound
      → (visited' : List String) × (go visited name ≡ ok visited')

  visit_each-Passes :
      (bound : ℕ) (go : List String → String → Result (List String)) (names visited : List String)
      → Passes bound go
      → Below bound names
      → (visited' : List String) × (visit_each go names visited ≡ ok visited')
  unfolding visit_each mem
  visit_each-Passes bound go [] visited passes below = (visited, refl)
  visit_each-Passes bound go (name ∷ names) visited passes below =
      let (e, found, low) = below name (rw (eq_refl name)) in
      let (mid, first) = passes visited name e found low in
      let (visited', rest) =
        visit_each-Passes bound go names mid passes (λ x m. below x (ground arith)) in
      (visited', rw first rest)

  -- A visit below the names that are being visited.
  visit-Passes :
      (fuel bound : ℕ) (visiting : List String)
      → bound ≤ fuel
      → ((x : String) → mem x visiting ≡ true → bound ≤ height x)
      → Passes bound (visit fuel registry visiting)
  unfolding visit visit_entry mem
  visit-Passes zero bound visiting enough above visited name e found low =
      absurd (omega (arith, enough, low))
  visit-Passes (suc fuel) bound visiting enough above visited name e found low =
      elim (Bool-cases (mem name visiting)) [
        | inl cycle ↦ absurd (omega (arith, above name cycle, low))
        | inr fresh ↦ elim (Bool-cases (mem name visited)) [
          | inl known ↦ (visited, rw (fresh, known))
          | inr unknown ↦
              let (mid, below) =
                visit_each-Passes (height name) (visit fuel registry (name ∷ visiting))
                  (names_of e.dependencies) visited
                  (visit-Passes fuel (height name) (name ∷ visiting) (omega (arith, enough, low))
                    (above_name height name bound visiting low above))
                  (λ dep m. target name dep e found m) in
              (name ∷ mid, rw (fresh, unknown, found, below))
        ]
      ]

names-found :
    (names : List Entry) (name : String)
    → mem name (entry_names names) ≡ true
    → (e : Entry) × (find_entry name names ≡ some e)
unfolding mem find_entry
names-found [] name h = cc h
names-found (d ∷ ds) name h = elim (Bool-cases (str_eq d.name name)) [
  | inl same ↦ (d, rw same)
  | inr other ↦ let (e, found) = names-found ds name (rw other at h) in (e, rw other found)
]

-- Where every dependency is registered in a version that is high enough, and by some measure of the
-- names every dependency is lower than what depends on it, the registry is accepted, on a stack with
-- room above every measure: the walk ends, and it takes nothing for a cycle that is none.
pub validate_dependencies-accepts :
    (registry : List Entry) (height : String → ℕ) (fuel : ℕ)
    → check_all_targets registry registry ≡ ok tt
    → ((name dep : String) (d : Entry)
        → find_entry name registry ≡ some d
        → mem dep (names_of d.dependencies) ≡ true
        → (e : Entry) × (find_entry dep registry ≡ some e) × (height dep < height name))
    → ((name : String) → height name < fuel)
    → (visited : List String) × (validate_dependencies fuel registry ≡ ok visited)
unfolding validate_dependencies mem
validate_dependencies-accepts registry height fuel targets target deep =
    let (visited, walked) =
      visit_each-Passes registry height target fuel (visit fuel registry []) (entry_names registry)
        [] (visit-Passes registry height target fuel fuel [] (omega arith) (λ x m. cc m))
        (λ name m. let (e, found) = names-found registry name m in (e, found, deep name)) in
    (visited, rw targets walked)
