-- ===== src/Turn/Admission.antt =====
-- Which turn `_claim_next_turn` selects.
use ai_odoo_assistant.Prelude.{
  ℕ, ◌<◌, leb, ◌≡◌, refl, ap, inl, inr, Bool, true, false, String, Option, none, some, List, [],
  ◌∷◌, arith, Bool-cases, Option-cases,
}
use ai_odoo_assistant.Turn.{Turn}
use ai_odoo_assistant.Turn.Lifecycle.{claim_row}
use ai_odoo_assistant.Turn.Scheduler.{
  Configured, Rank, rank, precedes, is_candidate, first_of_two, select_from, update_where,
  effective_turn_capacity, count_active, claim_next_turn,
}
use ai_odoo_assistant.Turn.Rows.{In}

-- The order of the ranks is total, and what it does not put before is transitive.
pub precedes_asym : (a b : Rank) → precedes a b ≡ true → precedes b a ≡ false
unfolding precedes
precedes_asym a b h = ground arith

pub precedes_trans :
    (a b c : Rank) → precedes b a ≡ false → precedes c b ≡ false → precedes c a ≡ false
unfolding precedes
precedes_trans a b c h k = ground arith

precedes_irrefl : (a : Rank) → precedes a a ≡ false
unfolding precedes
precedes_irrefl a = ground arith

module _ (locked : ℕ → Bool) (table : List Turn) where
  -- The row is one of the list, a candidate, and no other candidate of the list ranks before it.
  pub record IsFirst (ts : List Turn) (t : Turn) : Type 0 where
    pub member : In t ts
    pub candidate : is_candidate locked table t ≡ true
    pub least :
        (u : Turn)
        → In u ts
        → is_candidate locked table u ≡ true
        → precedes (rank table u) (rank table t) ≡ false

  IsFirst-skip :
      (t u : Turn) (ts : List Turn)
      → is_candidate locked table u ≡ false
      → IsFirst ts t
      → IsFirst (u ∷ ts) t
  IsFirst-skip t u ts skip f = record {
    member = inr f.member;
    candidate = f.candidate;
    least = λ v m c. least_of v m c;
  }
    where
      least_of :
          (v : Turn)
          → In v (u ∷ ts)
          → is_candidate locked table v ≡ true
          → precedes (rank table v) (rank table t) ≡ false
      least_of v (inl e) c = cc (ap (is_candidate locked table) e)
      least_of v (inr m) c = f.least v m c

  IsFirst-keep :
      (t u : Turn) (ts : List Turn)
      → precedes (rank table t) (rank table u) ≡ true
      → IsFirst ts t
      → IsFirst (u ∷ ts) t
  IsFirst-keep t u ts before f = record {
    member = inr f.member;
    candidate = f.candidate;
    least = λ v m c. least_of v m c;
  }
    where
      least_of :
          (v : Turn)
          → In v (u ∷ ts)
          → is_candidate locked table v ≡ true
          → precedes (rank table v) (rank table t) ≡ false
      least_of v (inl e) c = rw e (precedes_asym (rank table t) (rank table u) before)
      least_of v (inr m) c = f.least v m c

  IsFirst-take :
      (t u : Turn) (ts : List Turn)
      → is_candidate locked table u ≡ true
      → precedes (rank table t) (rank table u) ≡ false
      → IsFirst ts t
      → IsFirst (u ∷ ts) u
  IsFirst-take t u ts candidate after f = record {
    member = inl refl;
    candidate = candidate;
    least = λ v m c. least_of v m c;
  }
    where
      least_of :
          (v : Turn)
          → In v (u ∷ ts)
          → is_candidate locked table v ≡ true
          → precedes (rank table v) (rank table u) ≡ false
      least_of v (inl e) c = rw e (precedes_irrefl (rank table u))
      least_of v (inr m) c =
          precedes_trans (rank table u) (rank table t) (rank table v) after (f.least v m c)

  first_of_two-ne-none : (t : Turn) (o : Option Turn) → first_of_two table t o ≡ none → ⊥
  first_of_two-ne-none t o h = ground arith

  -- Nothing is selected only where there is no candidate.
  select_from-none :
      (ts : List Turn) (u : Turn)
      → select_from locked table ts ≡ none
      → In u ts
      → is_candidate locked table u ≡ false
  unfolding select_from
  select_from-none [] u e m = absurd m
  select_from-none (t ∷ ts) u e (inl p) = elim (Bool-cases (is_candidate locked table t)) [
    | inl c ↦ absurd (first_of_two-ne-none t (select_from locked table ts) (rw c at e))
    | inr c ↦ rw p c
  ]
  select_from-none (t ∷ ts) u e (inr m) = elim (Bool-cases (is_candidate locked table t)) [
    | inl c ↦ absurd (first_of_two-ne-none t (select_from locked table ts) (rw c at e))
    | inr c ↦ select_from-none ts u (rw c at e) m
  ]

  IsFirst-alone :
      (t : Turn) (ts : List Turn)
      → is_candidate locked table t ≡ true
      → select_from locked table ts ≡ none
      → IsFirst (t ∷ ts) t
  IsFirst-alone t ts c e = record {
    member = inl refl;
    candidate = c;
    least = λ v m d. least_of v m d;
  }
    where
      least_of :
          (v : Turn)
          → In v (t ∷ ts)
          → is_candidate locked table v ≡ true
          → precedes (rank table v) (rank table t) ≡ false
      least_of v (inl p) d = rw p (precedes_irrefl (rank table t))
      least_of v (inr m) d = cc (d, select_from-none ts v e m)

  -- The first of two rows, where the second is the choice among the rest.
  IsFirst-choice :
      (t : Turn) (ts : List Turn) (o : Option Turn) (chosen : Turn)
      → is_candidate locked table t ≡ true
      → select_from locked table ts ≡ o
      → ((u : Turn) → o ≡ some u → IsFirst ts u)
      → first_of_two table t o ≡ some chosen
      → IsFirst (t ∷ ts) chosen
  IsFirst-choice t ts none chosen c s rest e =
      let p : t ≡ chosen = cc e in rw (← p) (IsFirst-alone t ts c s)
  IsFirst-choice t ts (some u) chosen c s rest e =
      elim (Bool-cases (precedes (rank table u) (rank table t))) [
        | inl before ↦
            let p : u ≡ chosen = cc (rw before at e) in
            rw (← p) (IsFirst-keep u t ts before (rest u refl))
        | inr after ↦
            let p : t ≡ chosen = cc (rw after at e) in
            rw (← p) (IsFirst-take u t ts c after (rest u refl))
      ]

  -- What is selected is first among the candidates.
  pub select_from-IsFirst :
      (ts : List Turn) (t : Turn) → select_from locked table ts ≡ some t → IsFirst ts t
  unfolding select_from
  select_from-IsFirst [] t e = cc
  select_from-IsFirst (u ∷ ts) t e = elim (Bool-cases (is_candidate locked table u)) [
    | inl c ↦
        IsFirst-choice u ts (select_from locked table ts) t c refl
          (λ v r. select_from-IsFirst ts v r) (rw c at e)
    | inr c ↦ IsFirst-skip t u ts c (select_from-IsFirst ts t (rw c at e))
  ]

-- The two outcomes of `_claim_next_turn`: the table as it was, or one row claimed, below the
-- capacity, the first of the candidates.
pub data Claimed (configured : Configured) (locked : ℕ → Bool) (token : String) (now : ℕ)
    (lands : Bool) (table : List Turn) (r : List Turn × Option ℕ) : Type 0 where
  idle : r ≡ (table, none) → Claimed configured locked token now lands table r
  took :
      (t : Turn)
      → count_active table < effective_turn_capacity configured
      → IsFirst locked table table t
      → r ≡ (update_where t.id (claim_row token now lands) table, some t.id)
      → Claimed configured locked token now lands table r

pub claim_next_turn-Claimed :
    (configured : Configured) (locked : ℕ → Bool) (token : String) (now : ℕ) (lands : Bool)
    (table : List Turn)
    → Claimed configured locked token now lands table
        (claim_next_turn configured locked token now lands table)
unfolding claim_next_turn
claim_next_turn-Claimed configured locked token now lands table =
    elim (Bool-cases (leb (effective_turn_capacity configured) (count_active table))) [
      | inl full ↦ rw full (idle refl)
      | inr free ↦ elim (Option-cases (select_from locked table table)) [
        | inl e ↦ rw (free, e) (idle refl)
        | inr (t, e) ↦
            rw (free, e) (took t (ground arith) (select_from-IsFirst locked table table t e) refl)
      ]
    ]
