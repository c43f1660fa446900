-- ===== src/Capability/Registry/Ranks.antt =====
-- What a registry that is accepted knows of its dependencies: none leads back.
use ai_odoo_assistant.Prelude.{
  ℕ, zero, suc, ◌<◌, ◌≤◌, String, true, some, List, [], ◌∷◌, mem, str_eq, eq_iff, eq_refl, length,
  if◌then◌else◌, ◌≡◌, sym, arith, Bool-cases, inl, inr,
}
use ai_odoo_assistant.Prelude.Result.{Result, ok, bind-ok, then-ok}
use ai_odoo_assistant.Capability.Registry.{
  Entry, find_entry, entry_or, check_all_targets, visit_each, visit_entry, visit, names_of,
  entry_names, validate_dependencies,
}

-- Every name of the first list is in the second.
pub record Covers (names visited : List String) : Type 0 where
  pub covered : (name : String) → mem name names ≡ true → mem name visited ≡ true

-- Each visited name comes after what it depends on; the newest name is first.
abbrev pub IsOrdered : List Entry → List String → Type 0
IsOrdered registry [] = Unit {0}
IsOrdered registry (name ∷ visited) =
    ((d : Entry) → find_entry name registry ≡ some d → Covers (names_of d.dependencies) visited)
    × IsOrdered registry visited

-- What a visit of `names` leaves.
record Grown (registry : List Entry) (names visited visited' : List String) : Type 0 where
  ordered : IsOrdered registry visited → IsOrdered registry visited'
  kept : Covers visited visited'
  seen : Covers names visited'

Covers-refl : (names : List String) → Covers names names
Covers-refl names = record { covered = λ name h. h }

Covers-trans : (a b c : List String) → Covers a b → Covers b c → Covers a c
Covers-trans a b c p q = record { covered = λ name h. q.covered name (p.covered name h) }

Covers-later :
    (name : String) (names visited : List String)
    → Covers names visited
    → Covers names (name ∷ visited)
unfolding mem
Covers-later name names visited p = record {
  covered = λ x h. let k = p.covered x h in ground arith;
}

Covers-one :
    (name : String) (visited : List String) → mem name visited ≡ true → Covers (name ∷ []) visited
unfolding mem
Covers-one name visited h = record {
  covered =
      λ x k. let same : str_eq name x ≡ true = ground arith in rw (← (eq_iff name x).0 same) h;
}

Covers-cons :
    (name : String) (names visited : List String)
    → Covers (name ∷ []) visited
    → Covers names visited
    → Covers (name ∷ names) visited
unfolding mem
Covers-cons name names visited p q = record {
  covered = λ x h. elim (Bool-cases (str_eq name x)) [
    | inl same ↦ p.covered x (rw same)
    | inr other ↦ q.covered x (rw other at h)
  ];
}

module _ (registry : List Entry) where
  -- `visit` is a call that visits a name.
  Visits : (List String → String → Result (List String)) → Type 0
  Visits go =
      (visited visited' : List String) (name : String)
      → go visited name ≡ ok visited'
      → Grown registry (name ∷ []) visited visited'

  visit_each-Grown :
      (go : List String → String → Result (List String)) (visits : Visits go)
      (names visited visited' : List String)
      → visit_each go names visited ≡ ok visited'
      → Grown registry names visited visited'
  unfolding visit_each Visits mem
  visit_each-Grown go visits [] visited visited' h =
      let q : visited ≡ visited' = cc h in
      rw (← q) (record {
        ordered = λ k. k;
        kept = Covers-refl visited;
        seen = record { covered = λ x k. cc k };
      })
  visit_each-Grown go visits (name ∷ names) visited visited' h =
      let (mid, first, rest) = bind-ok (go visited name) _ visited' h in
      let one = visits visited mid name first in
      let others = visit_each-Grown go visits names mid visited' rest in
      record {
        ordered = λ k. others.ordered (one.ordered k);
        kept = Covers-trans visited mid visited' one.kept others.kept;
        seen =
            Covers-cons name names visited'
              (Covers-trans (name ∷ []) mid visited' one.seen others.kept) others.seen;
      }

  visit_entry-Grown :
      (go : List String → String → Result (List String)) (visits : Visits go)
      (visited visited' : List String) (name : String)
      → visit_entry registry go visited name ≡ ok visited'
      → Grown registry (name ∷ []) visited visited'
  unfolding visit_entry mem
  visit_entry-Grown go visits visited visited' name h =
      let (d, found, h1) = bind-ok (entry_or "KeyError" (find_entry name registry)) _ visited' h in
      let (mid, below, h2) =
        bind-ok (visit_each go (names_of d.dependencies) visited) _ visited' h1 in
      let q : name ∷ mid ≡ visited' = cc h2 in
      let deps = visit_each-Grown go visits (names_of d.dependencies) visited mid below in
      rw (← q) (record {
        ordered = λ k. (
          (λ e at.
              let f = rw at at found in let same : d ≡ e = cc (sym f) in rw (← same) deps.seen),
          deps.ordered k,
        );
        kept = Covers-later name visited mid deps.kept;
        seen = Covers-one name (name ∷ mid) (rw (eq_refl name));
      })

  visit-Grown : (fuel : ℕ) (visiting : List String) → Visits (visit fuel registry visiting)
  unfolding visit Visits
  visit-Grown zero visiting visited visited' name h = cc h
  visit-Grown (suc fuel) visiting visited visited' name h = elim (Bool-cases (mem name visiting)) [
    | inl cycle ↦ let k = rw cycle at h in cc k
    | inr fresh ↦ elim (Bool-cases (mem name visited)) [
      | inl known ↦
          let k = rw (fresh, known) at h in
          let q : visited ≡ visited' = cc k in
          rw (← q) (record {
            ordered = λ o. o;
            kept = Covers-refl visited;
            seen = Covers-one name visited known;
          })
      | inr unknown ↦
          visit_entry-Grown (visit fuel registry (name ∷ visiting))
            (visit-Grown fuel (name ∷ visiting)) visited visited' name (rw (fresh, unknown) at h)
    ]
  ]

  -- The names that an accepted registry visited, which are those of all its entries.
  pub validate_dependencies-Grown :
      (fuel : ℕ) (visited : List String)
      → validate_dependencies fuel registry ≡ ok visited
      → IsOrdered registry visited × Covers (entry_names registry) visited
  unfolding validate_dependencies
  validate_dependencies-Grown fuel visited h =
      let (targets, walked) = then-ok (check_all_targets registry registry) _ visited h in
      let grown =
        visit_each-Grown (visit fuel registry []) (visit-Grown fuel []) (entry_names registry) []
          visited walked in
      (grown.ordered tt, grown.seen)

-- How deep a name stands among the visited ones.
unfoldable pub rank : List String → String → ℕ
rank [] name = 0
rank (n ∷ visited) name =
    let deeper = rank visited name in
    if mem name visited then deeper else if str_eq n name then suc (length visited) else 0

pub rank-le : (visited : List String) (name : String) → rank visited name ≤ length visited
unfolding rank
rank-le [] name = omega arith
rank-le (n ∷ visited) name = ground (arith, rank-le visited name)

ordered-Covers :
    (registry : List Entry) (visited : List String) (name : String) (d : Entry)
    → IsOrdered registry visited
    → mem name visited ≡ true
    → find_entry name registry ≡ some d
    → Covers (names_of d.dependencies) visited
unfolding mem
ordered-Covers registry [] name d o h found = cc h
ordered-Covers registry (n ∷ visited) name d o h found = elim (Bool-cases (str_eq n name)) [
  | inl same ↦
      let q : n ≡ name = (eq_iff n name).0 same in
      Covers-later n (names_of d.dependencies) visited (o.0 d (rw q found))
  | inr other ↦
      Covers-later n (names_of d.dependencies) visited
        (ordered-Covers registry visited name d o.1 (rw other at h) found)
]

-- A dependency stands deeper than what depends on it.
rank-lt :
    (registry : List Entry) (visited : List String) (name dep : String) (d : Entry)
    → IsOrdered registry visited
    → mem name visited ≡ true
    → find_entry name registry ≡ some d
    → mem dep (names_of d.dependencies) ≡ true
    → rank visited dep < rank visited name
unfolding rank mem
rank-lt registry [] name dep d o h found needs = cc h
rank-lt registry (n ∷ visited) name dep d o h found needs = elim (Bool-cases (mem name visited)) [
  | inl deeper ↦
      let under = (ordered-Covers registry visited name d o.1 deeper found).covered dep needs in
      rw (deeper, under) (rank-lt registry visited name dep d o.1 deeper found needs)
  | inr here ↦
      let same : str_eq n name ≡ true = ground arith in
      let q : n ≡ name = (eq_iff n name).0 same in
      let under = (o.0 d (rw q found)).covered dep needs in
      rw (here, same, under) (omega (arith, rank-le visited dep))
]

-- A registry that is accepted has no cycle of dependencies: there is a rank, at most the number of
-- names visited, by which each entry stands above every capability that it depends on.
pub validate_dependencies-rank :
    (fuel : ℕ) (registry : List Entry) (visited : List String)
    → validate_dependencies fuel registry ≡ ok visited
    → (name dep : String) (d : Entry) → mem name (entry_names registry) ≡ true
    → find_entry name registry ≡ some d
    → mem dep (names_of d.dependencies) ≡ true
    → (rank visited dep < rank visited name) × (rank visited name ≤ length visited)
validate_dependencies-rank fuel registry visited h name dep d known found needs =
    let (ordered, covers) = validate_dependencies-Grown registry fuel visited h in
    (
      rank-lt registry visited name dep d ordered (covers.covered name known) found needs,
      rank-le visited name,
    )
