-- ===== src/Capability/Registry/Listed.antt =====
-- The list of the available capabilities.
use ai_odoo_assistant.Prelude.{
  ℕ, ◌<◌, String, true, false, not, none, some, List, [], ◌∷◌, mem, str_eq, eq_iff, eq_refl, length,
  ◌≡◌, refl, sym, ◌∙◌, arith, Bool-cases, inl, inr, All,
}
use ai_odoo_assistant.Prelude.Result.{ok, bind-ok, then-ok, require-ok}
use ai_odoo_assistant.Capability.Registry.{
  Entry, Context, Memo, find_entry, names_of, check_identities, available_from, available_entries,
  init, validate_dependencies, recall,
}
use ai_odoo_assistant.Capability.Registry.Ranks.{rank, rank-le}
use ai_odoo_assistant.Capability.Registry.Memoised.{
  Available, Right, Decides, available-Decides, accepted-target,
}

-- The second list is the available entries of the first, in their order.
pub data Chosen (context : Context) (registry : List Entry) : List Entry → List Entry → Type 0 where
  nothing : Chosen context registry [] []
  taken :
      {d : Entry} {ds es : List Entry}
      → Available context registry d
      → Chosen context registry ds es
      → Chosen context registry (d ∷ ds) (d ∷ es)
  left :
      {d : Entry} {ds es : List Entry}
      → ¬ Available context registry d
      → Chosen context registry ds es
      → Chosen context registry (d ∷ ds) es

-- A name that was seen before the loop is no name of the definitions in it.
seen-absent :
    (names executors : List String) (ds : List Entry) (x : String)
    → check_identities names executors ds ≡ ok tt
    → mem x names ≡ true
    → find_entry x ds ≡ none
unfolding check_identities find_entry mem
seen-absent names executors [] x h seen = refl
seen-absent names executors (d ∷ ds) x h seen =
    let (fresh, h1) = require-ok (not (mem d.name names)) _ _ tt h in
    let (other_executor, h2) = require-ok (not (mem d.executor_id executors)) _ _ tt h1 in
    let rest = seen-absent (d.name ∷ names) (d.executor_id ∷ executors) ds x h2 (ground arith) in
    elim (Bool-cases (str_eq d.name x)) [
      | inl same ↦
          let at : d.name ≡ x = (eq_iff d.name x).0 same in
          let k = rw at at fresh in
          let absent : mem x names ≡ false = ground arith in absurd (cc (sym seen ∙ absent))
      | inr other ↦ rw other rest
    ]

abbrev IsOwn : List Entry → Entry → Type 0
IsOwn registry d = find_entry d.name registry ≡ some d

-- An entry found behind a definition of another name.
IsOwn-later :
    (d : Entry) (ds : List Entry)
    → find_entry d.name ds ≡ none
    → (e : Entry) → IsOwn ds e
    → IsOwn (d ∷ ds) e
unfolding find_entry
IsOwn-later d ds alone e own = elim (Bool-cases (str_eq d.name e.name)) [
  | inl same ↦
      let at : d.name ≡ e.name = (eq_iff d.name e.name).0 same in
      let k = rw at at alone in absurd (cc (sym k ∙ own))
  | inr other ↦ rw other own
]

All-imp :
    {P Q : Entry → Type 0} (f : (e : Entry) → P e → Q e) (es : List Entry) → All P es → All Q es
All-imp f [] h = tt
All-imp f (e ∷ es) h = (f e h.0, All-imp f es h.1)

-- Where no two definitions have one name, each is found by its name.
check_identities-IsOwn :
    (names executors : List String) (ds : List Entry)
    → check_identities names executors ds ≡ ok tt
    → All (IsOwn ds) ds
unfolding check_identities find_entry mem
check_identities-IsOwn names executors [] h = tt
check_identities-IsOwn names executors (d ∷ ds) h =
    let (fresh, h1) = require-ok (not (mem d.name names)) _ _ tt h in
    let (other_executor, h2) = require-ok (not (mem d.executor_id executors)) _ _ tt h1 in
    let alone =
      seen-absent (d.name ∷ names) (d.executor_id ∷ executors) ds d.name h2 (rw (eq_refl d.name)) in
    (
      rw (eq_refl d.name),
      All-imp (IsOwn-later d ds alone) ds
          (check_identities-IsOwn (d.name ∷ names) (d.executor_id ∷ executors) ds h2),
    )

module _ (context : Context) (registry : List Entry) (height : String → ℕ)
    (target : (name dep : String) (d : Entry)
      → find_entry name registry ≡ some d
      → mem dep (names_of d.dependencies) ≡ true
      → (e : Entry) × (find_entry dep registry ≡ some e) × (height dep < height name))
    (room : ℕ) (deep : (name : String) → height name < room) where
  available_from-Chosen :
      (ds : List Entry) (memo : Memo)
      → All (IsOwn registry) ds
      → Right context registry height target memo
      → (es : List Entry) × (available_from room context registry ds memo ≡ ok es)
        × Chosen context registry ds es
  unfolding available_from Decides
  available_from-Chosen [] memo own good = ([], refl, nothing)
  available_from-Chosen (d ∷ ds) memo own good =
      let answer =
        available-Decides context registry height target room d.name d memo own.0 (deep d.name)
          good in
      let (es, listed, chosen) = available_from-Chosen ds answer.memo own.1 answer.remembers in
      elim (Bool-cases answer.says) [
        | inl granted_one ↦ (
          d ∷ es,
          rw (answer.given, listed, granted_one),
          taken (answer.meaning.0 granted_one) chosen,
        )
        | inr denied ↦ (
          es,
          rw (answer.given, listed, denied),
          left (λ a. let k = answer.meaning.1 a in cc (sym denied ∙ k)) chosen,
        )
      ]

init-parts :
    (fuel : ℕ) (definitions registry : List Entry)
    → init fuel definitions ≡ ok registry
    → (check_identities [] [] definitions ≡ ok tt) × (definitions ≡ registry)
unfolding init
init-parts fuel definitions registry h =
    let (unique, h1) = then-ok (check_identities [] [] definitions) _ registry h in
    let (visited, accepted, h2) = bind-ok (validate_dependencies fuel definitions) _ registry h1 in
    (unique, cc h2)

-- Of a registry that was accepted, the list of the available capabilities is computed, on a stack
-- with room for one call for each name visited and one more, and it is exactly the capabilities that
-- are available by the definition, in the registry's order: what one inquiry remembers for the next
-- changes no answer.
pub available_entries-Chosen :
    (fuel room : ℕ) (context : Context) (definitions registry : List Entry) (visited : List String)
    → init fuel definitions ≡ ok registry
    → validate_dependencies fuel registry ≡ ok visited
    → length visited < room
    → (es : List Entry) × (available_entries room context registry ≡ ok es)
      × Chosen context registry registry es
unfolding available_entries recall
available_entries-Chosen fuel room context definitions registry visited h accepted enough =
    let (unique, same) = init-parts fuel definitions registry h in
    let unique' : check_identities [] [] registry ≡ ok tt = rw (← same) unique in
    available_from-Chosen context registry (rank visited)
      (accepted-target fuel registry visited accepted) room
      (λ name. omega (arith, rank-le visited name, enough)) registry []
      (check_identities-IsOwn [] [] registry unique') (record { right = λ name d b f k. cc k })
