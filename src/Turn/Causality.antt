-- ===== src/Turn/Causality.antt =====
-- Lemmas on the order of the turns of one conversation.
use ai_odoo_assistant.Prelude.{
  ℕ, suc, ◌<◌, ◌==◌, ==_iff, ◌≡◌, refl, ap, inl, inr, Bool, true, false, String, List, [], ◌∷◌,
  ◌++◌, map, any, arith, All, All-append, Bool-cases,
}
use ai_odoo_assistant.Turn.{Turn, is_claimable}
use ai_odoo_assistant.Turn.Lifecycle.{claim_row}
use ai_odoo_assistant.Turn.Scheduler.{
  same_conversation, is_pending, blocks, is_eligible, is_candidate, update_where,
}
use ai_odoo_assistant.Turn.Rows.{
  In, Ascending, id_of_In, In-unique, All-In, updated, update_where_lem,
}
use ai_odoo_assistant.Turn.Transitions.{in_progress, Tame}

-- `u` is in hand only once `t`, an earlier turn of its conversation, waits for nobody.
abbrev pub Behind : Turn → Turn → Type 0
Behind t u =
    same_conversation t.conversation_id u.conversation_id ≡ true
    → in_progress u ≡ true
    → is_pending t ≡ false

abbrev pub Causal : List Turn → Type 0
Causal [] = Unit
Causal (t ∷ ts) = All (Behind t) ts × Causal ts

pub Causal-In :
    (lo hi : ℕ) (ts : List Turn) (t u : Turn)
    → Ascending lo hi ts
    → Causal ts
    → In t ts
    → In u ts
    → t.id < u.id
    → Behind t u
Causal-In lo hi [] t u a c m n lt = absurd m
Causal-In lo hi (v ∷ vs) t u a c (inl p) (inl q) lt =
    absurd (omega (arith, ap (λ (x : Turn). x.id) p, ap (λ (x : Turn). x.id) q))
Causal-In lo hi (v ∷ vs) t u a c (inl p) (inr n) lt = rw p (All-In (Behind v) vs u c.0 n)
Causal-In lo hi (v ∷ vs) t u a c (inr m) (inl q) lt =
    absurd (omega (arith, id_of_In (suc v.id) hi vs t a.1 m, ap (λ (x : Turn). x.id) q))
Causal-In lo hi (v ∷ vs) t u a c (inr m) (inr n) lt = Causal-In (suc v.id) hi vs t u a.1 c.1 m n lt

-- A change of the rows keeps causality if it does so at every two rows.
Causal-map :
    (g : Turn → Turn) (lo hi : ℕ) (ts : List Turn)
    → ((t u : Turn) → In t ts → In u ts → t.id < u.id → Behind t u → Behind (g t) (g u))
    → Ascending lo hi ts
    → Causal ts
    → Causal (map g ts)
Causal-map g lo hi [] keep a c = tt
Causal-map g lo hi (t ∷ ts) keep a c = (
  head_keeps ts (λ u m. m) c.0,
  Causal-map g (suc t.id) hi ts (λ v u m n. keep v u (inr m) (inr n)) a.1 c.1,
)
  where
    head_keeps :
        (us : List Turn)
        → ((u : Turn) → In u us → In u ts)
        → All (Behind t) us
        → All (Behind (g t)) (map g us)
    head_keeps [] sub h = tt
    head_keeps (u ∷ us) sub h = (
      keep t u (inl refl) (inr (sub u (inl refl)))
          (id_of_In (suc t.id) hi ts u a.1 (sub u (inl refl))) h.0,
      head_keeps us (λ v m. sub v (inr m)) h.1,
    )

pub Causal-append :
    (ts : List Turn) (new : Turn) → in_progress new ≡ false → Causal ts → Causal (ts ++ new ∷ [])
Causal-append [] new fresh c = (tt, tt)
Causal-append (t ∷ ts) new fresh c = (
  All-append (Behind t) ts (new ∷ []) c.0 ((λ same busy. cc), tt),
  Causal-append ts new fresh c.1,
)

-- A tame change of one row.
Behind-Tame : (t u t' u' : Turn) → Tame t t' → Tame u u' → Behind t u → Behind t' u'
Behind-Tame t u t' u' p q h same busy =
    p.revives_nothing (h (rw (p.conversation, q.conversation) at same) (q.starts_nothing busy))

Tame-refl : (t : Turn) → Tame t t
Tame-refl t = ground arith

pub Tame-updated :
    (i : ℕ) (f : Turn → Turn) (t : Turn) → (t.id ≡ i → Tame t (f t)) → Tame t (updated i f t)
Tame-updated i f t tame = elim (Bool-cases (t.id == i)) [
  | inl e ↦ rw e (tame ((==_iff t.id i).0 e))
  | inr e ↦ rw e (Tame-refl t)
]

pub update-Causal :
    (i : ℕ) (f : Turn → Turn) (lo hi : ℕ) (ts : List Turn)
    → ((t : Turn) → In t ts → Tame t (f t))
    → Ascending lo hi ts
    → Causal ts
    → Causal (update_where i f ts)
update-Causal i f lo hi ts tame a c = rw update_where_lem (
    Causal-map (updated i f) lo hi ts
      (λ t u m n lt h.
        Behind-Tame t u (updated i f t) (updated i f u) (Tame-updated i f t (λ _. tame t m))
          (Tame-updated i f u (λ _. tame u n)) h)
      a c)

any-In : (p : Turn → Bool) (ts : List Turn) (t : Turn) → any p ts ≡ false → In t ts → p t ≡ false
unfolding any
any-In p [] t e m = absurd m
any-In p (u ∷ us) t e (inl q) = rw q (ground arith)
any-In p (u ∷ us) t e (inr m) = any-In p us t (ground arith) m

-- A candidate is claimable, and no earlier turn of its conversation is pending.
pub eligible-claimable :
    (table : List Turn) (c : Turn) → is_eligible table c ≡ true → is_claimable c ≡ true
unfolding is_eligible
eligible-claimable table c e = ground arith

eligible_no_block :
    (table : List Turn) (c : Turn) → is_eligible table c ≡ true → any (blocks c) table ≡ false
unfolding is_eligible
eligible_no_block table c e = ground arith

pub candidate-eligible :
    (locked : ℕ → Bool) (table : List Turn) (c : Turn)
    → is_candidate locked table c ≡ true
    → is_eligible table c ≡ true
candidate-eligible locked table c e = ground arith

free_predecessor :
    (table : List Turn) (c t : Turn)
    → is_eligible table c ≡ true
    → In t table
    → t.id < c.id
    → same_conversation t.conversation_id c.conversation_id ≡ true
    → is_pending t ≡ false
free_predecessor table c t e m lt same =
    let free : blocks c t ≡ false = any-In (blocks c) table t (eligible_no_block table c e) m in
    ground arith

claimable-pending : (c : Turn) → is_claimable c ≡ true → is_pending c ≡ true
claimable-pending c e = ground arith

-- What the claim writes: the id, the conversation and the user stay.
pub claim_row-same :
    (token : String) (now : ℕ) (lands : Bool) (t : Turn)
    → ((claim_row token now lands t).id ≡ t.id)
      × ((claim_row token now lands t).conversation_id ≡ t.conversation_id)
unfolding claim_row
claim_row-same token now lands t = ground arith

module _ (token : String) (now : ℕ) (lands : Bool) (table : List Turn) (lo hi : ℕ)
    (ascending : Ascending lo hi table) (c : Turn) (member : In c table)
    (eligible : is_eligible table c ≡ true) where
  claimed : Turn → Turn
  claimed = updated c.id (claim_row token now lands)

  -- The pair in which the later turn is the claimed one.
  Behind-claimed : (t : Turn) → In t table → t.id < c.id → Behind t (claim_row token now lands c)
  Behind-claimed t m lt same busy =
      free_predecessor table c t eligible m lt (rw ((claim_row-same token now lands c).1) at same)

  -- The pair in which the earlier turn is the claimed one: the later one is not in hand.
  claimed_Behind : (u : Turn) → Behind c u → Behind (claim_row token now lands c) u
  claimed_Behind u h same busy = cc (
    h (rw ((claim_row-same token now lands c).1) at same) busy,
    claimable-pending c (eligible-claimable table c eligible),
  )

  Behind-claim :
      (t u : Turn)
      → In t table
      → In u table
      → t.id < u.id
      → Behind t u
      → Behind
          (updated c.id (claim_row token now lands) t)
          (updated c.id (claim_row token now lands) u)
  Behind-claim t u m n lt h = elim (Bool-cases (t.id == c.id)) [
    | inl e ↦
        let t_is : t ≡ c = In-unique lo hi table t c ascending m member ((==_iff _ _).0 e) in
        let u_is : (u.id == c.id) ≡ false = ground arith in
        rw (e, u_is) (rw t_is (claimed_Behind u (rw t_is at h)))
    | inr e ↦ elim (Bool-cases (u.id == c.id)) [
      | inl d ↦
          let u_is : u ≡ c = In-unique lo hi table u c ascending n member ((==_iff _ _).0 d) in
          rw (e, d) (rw u_is (Behind-claimed t m (omega (arith, (==_iff _ _).0 d))))
      | inr d ↦ rw (e, d) h
    ]
  ]

  -- A claim keeps causality.
  pub claim-Causal : Causal table → Causal (update_where c.id (claim_row token now lands) table)
  claim-Causal causal = rw update_where_lem (
      Causal-map (updated c.id (claim_row token now lands)) lo hi table Behind-claim ascending
        causal)
