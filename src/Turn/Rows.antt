-- ===== src/Turn/Rows.antt =====
-- Lists of rows in the order of their ids, and what an UPDATE of one row leaves true of them.
use ai_odoo_assistant.Prelude.{
  ℕ, suc, ◌≤◌, ◌==◌, ◌≡◌, refl, ap, ◌⊎◌, inl, inr, List, [], ◌∷◌, ◌++◌, map, arith, All, Bool-cases,
  if◌then◌else◌, ==_iff,
}
use ai_odoo_assistant.Turn.{Turn}
use ai_odoo_assistant.Turn.Scheduler.{update_where}

abbrev pub In : Turn → List Turn → Type 0
In t [] = ⊥
In t (u ∷ us) = (t ≡ u) ⊎ In t us

-- The ids rise from `lo`, and stay under `hi`.
abbrev pub Ascending : ℕ → ℕ → List Turn → Type 0
Ascending lo hi [] = lo ≤ hi
Ascending lo hi (t ∷ ts) = (lo ≤ t.id) × Ascending (suc t.id) hi ts

pub id_of_In : (lo hi : ℕ) (ts : List Turn) (t : Turn) → Ascending lo hi ts → In t ts → lo ≤ t.id
id_of_In lo hi [] t a m = absurd m
id_of_In lo hi (u ∷ us) t a (inl e) = omega (arith, a.0, ap (λ (x : Turn). x.id) e)
id_of_In lo hi (u ∷ us) t a (inr m) = omega (arith, a.0, id_of_In (suc u.id) hi us t a.1 m)

-- Two rows of one id are one row.
pub In-unique :
    (lo hi : ℕ) (ts : List Turn) (t u : Turn)
    → Ascending lo hi ts
    → In t ts
    → In u ts
    → t.id ≡ u.id
    → t ≡ u
In-unique lo hi [] t u a m n e = absurd m
In-unique lo hi (v ∷ vs) t u a (inl p) (inl q) e = cc
In-unique lo hi (v ∷ vs) t u a (inl p) (inr n) e =
    absurd (omega (arith, id_of_In (suc v.id) hi vs u a.1 n, ap (λ (x : Turn). x.id) p))
In-unique lo hi (v ∷ vs) t u a (inr m) (inl q) e =
    absurd (omega (arith, id_of_In (suc v.id) hi vs t a.1 m, ap (λ (x : Turn). x.id) q))
In-unique lo hi (v ∷ vs) t u a (inr m) (inr n) e = In-unique (suc v.id) hi vs t u a.1 m n e

pub Ascending-map :
    (g : Turn → Turn) (lo hi : ℕ) (ts : List Turn)
    → ((t : Turn) → In t ts → (g t).id ≡ t.id)
    → Ascending lo hi ts
    → Ascending lo hi (map g ts)
Ascending-map g lo hi [] keep a = a
Ascending-map g lo hi (t ∷ ts) keep a = (
  omega (arith, a.0, keep t (inl refl)),
  rw (keep t (inl refl)) (Ascending-map g (suc t.id) hi ts (λ u m. keep u (inr m)) a.1),
)

pub Ascending-append :
    (lo hi : ℕ) (ts : List Turn) (t : Turn)
    → t.id ≡ hi
    → Ascending lo hi ts
    → Ascending lo (suc hi) (ts ++ t ∷ [])
Ascending-append lo hi [] t e a = (omega (arith, e, a), omega (arith, e))
Ascending-append lo hi (u ∷ us) t e a = (a.0, Ascending-append (suc u.id) hi us t e a.1)

module _ {κ} (P : Turn → Type κ) where
  -- `map` under a fact about the rows of the list.
  pub All-map-In :
      (g : Turn → Turn) (ts : List Turn)
      → ((t : Turn) → In t ts → P t → P (g t))
      → All P ts
      → All P (map g ts)
  All-map-In g [] keep h = tt
  All-map-In g (t ∷ ts) keep h =
      (keep t (inl refl) h.0, All-map-In g ts (λ u m. keep u (inr m)) h.1)

  pub In-All : (ts : List Turn) → ((t : Turn) → In t ts → P t) → All P ts
  In-All [] h = tt
  In-All (u ∷ us) h = (h u (inl refl), In-All us (λ t m. h t (inr m)))

  pub All-In : (ts : List Turn) (t : Turn) → All P ts → In t ts → P t
  All-In [] t h m = absurd m
  All-In (u ∷ us) t h (inl e) = rw e h.0
  All-In (u ∷ us) t h (inr m) = All-In us t h.1 m

-- The row that an UPDATE writes, at one row.
abbrev pub updated : ℕ → (Turn → Turn) → Turn → Turn
updated i f t = if t.id == i then f t else t

pub updated_keeps {κ} :
    (P : Turn → Type κ) (i : ℕ) (f : Turn → Turn) (t : Turn)
    → (t.id ≡ i → P (f t))
    → P t
    → P (updated i f t)
updated_keeps P i f t at h = elim (Bool-cases (t.id == i)) [
  | inl e ↦ rw e (at ((==_iff t.id i).0 e))
  | inr e ↦ rw e h
]

pub update_where_lem :
    (i : ℕ) (f : Turn → Turn) (ts : List Turn) → update_where i f ts ≡ map (updated i f) ts
unfolding update_where
update_where_lem i f ts = refl
