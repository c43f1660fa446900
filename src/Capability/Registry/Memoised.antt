-- ===== src/Capability/Registry/Memoised.antt =====
-- What a capability's availability means, and that the memo of one inquiry does not change it.
use ai_odoo_assistant.Prelude.{
  ℕ, zero, suc, ◌<◌, String, Bool, true, false, ◌&&◌, some, List, [], ◌∷◌, mem, str_eq, eq_iff,
  eq_refl, ◌≡◌, refl, sym, ◌∙◌, ◌↔◌, arith, Bool-cases, Option-cases, inl, inr,
}
use ai_odoo_assistant.Prelude.Result.{Result, ok}
use ai_odoo_assistant.Capability.Registry.{
  Dependency, Entry, Context, Memo, find_entry, names_of, enabled_by_context, available_for, recall,
  all_available, available, validate_dependencies,
}
use ai_odoo_assistant.Capability.Registry.Ranks.{rank, validate_dependencies-rank}
use ai_odoo_assistant.Capability.Registry.Targets.{
  find_entry-name, find_entry-mem, validate_dependencies-found,
}

-- A capability is available where the context enables it, its groups and its guard allow it, and
-- every capability that it depends on is available.
pub data Available (context : Context) (registry : List Entry) : Entry → Type 0 where
  all_of :
      {d : Entry}
      → enabled_by_context context d && available_for context d ≡ true
      → ((name : String) (e : Entry)
          → mem name (names_of d.dependencies) ≡ true
          → find_entry name registry ≡ some e
          → Available context registry e)
      → Available context registry d

parts :
    {context : Context} {registry : List Entry} {d : Entry}
    → Available context registry d
    → (enabled_by_context context d && available_for context d ≡ true)
      × ((name : String) (e : Entry)
          → mem name (names_of d.dependencies) ≡ true
          → find_entry name registry ≡ some e
          → Available context registry e)
parts (all_of own below) = (own, below)

module _ (context : Context) (registry : List Entry) (height : String → ℕ)
    (target : (name dep : String) (d : Entry)
      → find_entry name registry ≡ some d
      → mem dep (names_of d.dependencies) ≡ true
      → (e : Entry) × (find_entry dep registry ≡ some e) × (height dep < height name)) where
  -- The memo's answers are right.
  pub record Right (memo : Memo) : Type 0 where
    pub right :
        (name : String) (d : Entry) (b : Bool)
        → find_entry name registry ≡ some d
        → recall name memo ≡ some b
        → (b ≡ true) ↔ Available context registry d

  -- What an inquiry gives: an answer that means P, and a memo that is right.
  pub record Answers (P : Type 0) (answer : Result (Bool × Memo)) : Type 0 where
    pub says : Bool
    pub memo : Memo
    pub given : answer ≡ ok (says, memo)
    pub meaning : (says ≡ true) ↔ P
    pub remembers : Right memo

  unfoldable pub Decides : ℕ → (Entry → Memo → Result (Bool × Memo)) → Type 0
  Decides bound check =
      (name : String) (d : Entry) (memo : Memo)
      → find_entry name registry ≡ some d
      → height name < bound
      → Right memo
      → Answers (Available context registry d) (check d memo)

  abbrev AllAvailable : List String → Type 0
  AllAvailable names =
      (name : String) (e : Entry)
      → mem name names ≡ true
      → find_entry name registry ≡ some e
      → Available context registry e

  abbrev Near : ℕ → List String → Type 0
  Near bound names =
      (name : String)
      → mem name names ≡ true
      → (e : Entry) × (find_entry name registry ≡ some e) × (height name < bound)

  all_cons :
      (dep : Dependency) (deps : List Dependency) (e : Entry)
      → find_entry dep.name registry ≡ some e
      → Available context registry e
      → AllAvailable (names_of deps)
      → AllAvailable (names_of (dep ∷ deps))
  unfolding mem
  all_cons dep deps e found first rest name d m f = elim (Bool-cases (str_eq dep.name name)) [
    | inl same ↦
        let at : dep.name ≡ name = (eq_iff dep.name name).0 same in
        let found' = rw at at found in let q : e ≡ d = cc (sym found' ∙ f) in rw (← q) first
    | inr other ↦ rest name d (rw other at m) f
  ]

  all_available-Answers :
      (bound : ℕ) (check : Entry → Memo → Result (Bool × Memo)) (decides : Decides bound check)
      (deps : List Dependency) (memo : Memo)
      → Near bound (names_of deps)
      → Right memo
      → Answers (AllAvailable (names_of deps)) (all_available registry check deps memo)
  unfolding all_available Decides mem
  all_available-Answers bound check decides [] memo near good = record {
    says = true;
    memo = memo;
    given = refl;
    meaning = (λ h name e m f. cc m, λ h. refl);
    remembers = good;
  }
  all_available-Answers bound check decides (dep ∷ deps) memo near good =
      let one : mem dep.name (names_of (dep ∷ deps)) ≡ true = rw (eq_refl dep.name) in
      let (e, found, low) = near dep.name one in
      let first = decides dep.name e memo found low good in
      elim (Bool-cases first.says) [
        | inl granted_one ↦
            let rest =
              all_available-Answers bound check decides deps first.memo
                (λ name m. near name (ground arith)) first.remembers in
            record {
              says = rest.says;
              memo = rest.memo;
              given = rw (found, first.given, granted_one) rest.given;
              meaning = (
                λ h. all_cons dep deps e found (first.meaning.0 granted_one) (rest.meaning.0 h),
                λ below. rest.meaning.1 (λ name d m f. below name d (ground arith) f),
              );
              remembers = rest.remembers;
            }
        | inr denied ↦ record {
          says = false;
          memo = first.memo;
          given = rw (found, first.given, denied);
          meaning = (
            λ h. cc h,
            λ below. let k = first.meaning.1 (below dep.name e one found) in cc (sym denied ∙ k),
          );
          remembers = first.remembers;
        }
      ]

  -- What an inquiry has answered is remembered.
  remember-Right :
      (name : String) (d : Entry) (b : Bool) (memo : Memo)
      → find_entry name registry ≡ some d
      → ((b ≡ true) ↔ Available context registry d)
      → Right memo
      → Right ((d.name, b) ∷ memo)
  unfolding recall
  remember-Right name d b memo found means good = record {
    right = λ x e c f h. elim (Bool-cases (str_eq d.name x)) [
      | inl same ↦
          let k = rw same at h in
          let answer : b ≡ c = cc k in
          let at : name ≡ x =
            sym (find_entry-name name registry d found) ∙ (eq_iff d.name x).0 same in
          let f' = rw at at found in let q : d ≡ e = cc (sym f' ∙ f) in rw (← q, ← answer) means
      | inr other ↦ good.right x e c f (rw other at h)
    ];
  }

  pub available-Decides : (fuel : ℕ) → Decides fuel (available fuel context registry)
  unfolding available Decides
  available-Decides zero name d memo found low good = absurd (omega (arith, low))
  available-Decides (suc fuel) name d memo found low good =
      elim (Option-cases (recall d.name memo)) [
        | inr (b, known) ↦
            let at = find_entry-name name registry d found in
            record {
              says = b;
              memo = memo;
              given = rw known;
              meaning = good.right name d b found (let k = rw at at known in k);
              remembers = good;
            }
        | inl new ↦ elim (Bool-cases (enabled_by_context context d && available_for context d)) [
          | inl own ↦
              let rest =
                all_available-Answers fuel (available fuel context registry)
                  (available-Decides fuel) d.dependencies memo
                  (λ dep m.
                    let (e, f, lower) = target name dep d found m in
                    (e, f, omega (arith, low, lower)))
                  good in
              let means : (rest.says ≡ true) ↔ Available context registry d =
                (λ h. all_of own (rest.meaning.0 h), λ a. rest.meaning.1 (parts a).1) in
              record {
                says = rest.says;
                memo = (d.name, rest.says) ∷ rest.memo;
                given = rw (new, own, rest.given);
                meaning = means;
                remembers = remember-Right name d rest.says rest.memo found means rest.remembers;
              }
          | inr off ↦
              let means : (false ≡ true) ↔ Available context registry d =
                (λ h. cc h, λ a. cc (sym off ∙ (parts a).0)) in
              record {
                says = false;
                memo = (d.name, false) ∷ memo;
                given = rw (new, off);
                meaning = means;
                remembers = remember-Right name d false memo found means good;
              }
        ]
      ]

-- In an accepted registry each dependency is an entry, of a lower rank.
pub accepted-target :
    (fuel : ℕ) (registry : List Entry) (visited : List String)
    → validate_dependencies fuel registry ≡ ok visited
    → (name dep : String) (d : Entry) → find_entry name registry ≡ some d
    → mem dep (names_of d.dependencies) ≡ true
    → (e : Entry) × (find_entry dep registry ≡ some e) × (rank visited dep < rank visited name)
accepted-target fuel registry visited accepted name dep d found needs =
    let (e, target) =
      validate_dependencies-found fuel registry visited name dep d accepted found needs in
    let ranked =
      validate_dependencies-rank fuel registry visited accepted name dep d
        (find_entry-mem name registry d found) found needs in
    (e, target, ranked.0)
