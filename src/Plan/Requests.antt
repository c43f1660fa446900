-- ===== src/Plan/Requests.antt =====
-- What `_validate_requested_dependencies` asks of the steps that the model proposes.
use ai_odoo_assistant.Prelude.{
  ℕ, ◌+◌, Bool, true, false, not, ◌&&◌, ◌||◌, List, [], ◌∷◌, ◌++◌, all, mem, ◌≡◌, refl, String,
  arith, length,
}
use ai_odoo_assistant.Prelude.Result.{Result, ok, require, ◌>>◌}
use ai_odoo_assistant.Plan.Prepare.{
  Requested, requested_id, check_requested, validate_requested_dependencies,
}

-- The ids of the steps from a position on.
unfoldable pub requested_ids : ℕ → List Requested → List String
requested_ids position [] = []
requested_ids position (r ∷ rest) = requested_id position r ∷ requested_ids (position + 1) rest

required :
    {A : Type 0} (b : Bool) (code : String) (k : Result A) {a : A}
    → (require b code >> k) ≡ ok a
    → (b ≡ true) × (k ≡ ok a)
required true code k h = (refl, h)
required false code k h = cc

all-implies :
    (f g : String → Bool) (ds : List String)
    → ((d : String) → f d ≡ true → g d ≡ true)
    → all f ds ≡ true
    → all g ds ≡ true
unfolding all
all-implies f g [] k h = refl
all-implies f g (d ∷ ds) k h =
    let here = k d (ground arith) in let rest = all-implies f g ds k (ground arith) in ground arith

-- Known before: in `known`, or an id of a step since.
abbrev is_known : List String → ℕ → List Requested → String → Bool
is_known known position before id = mem id known || mem id (requested_ids position before)

is_known-step :
    (known : List String) (position : ℕ) (b : Requested) (before : List Requested) (id : String)
    → is_known (requested_id position b ∷ known) (position + 1) before id
      ≡ is_known known position (b ∷ before) id
unfolding requested_ids mem
is_known-step known position b before id = ground arith

checked :
    (position n : ℕ) (known : List String) (before : List Requested) (r : Requested)
    (after : List Requested)
    → n ≡ position + length before
    → check_requested position known (before ++ r ∷ after) ≡ ok tt
    → (is_known known position before (requested_id n r) ≡ false)
      × (all (is_known known position before) r.depends_on ≡ true)
unfolding check_requested requested_ids mem
checked position n known [] r after e h =
    let (c, k) =
      required (not (mem (requested_id position r) known) && all (λ d. mem d known) r.depends_on) _
        (check_requested (position + 1) (requested_id position r ∷ known) after) h in
    let at : n ≡ position = omega arith in
    let fresh : mem (requested_id position r) known ≡ false = ground arith in
    let deps : all (λ d. mem d known) r.depends_on ≡ true = ground arith in
    (
      rw at (rw fresh refl),
      all-implies (λ d. mem d known) (is_known known position []) r.depends_on (λ d m. ground arith)
          deps,
    )
checked position n known (b ∷ before) r after e h =
    let (c, k) =
      required (not (mem (requested_id position b) known) && all (λ d. mem d known) b.depends_on) _
        (check_requested (position + 1) (requested_id position b ∷ known) (before ++ r ∷ after))
        h in
    let (fresh, deps) =
      checked (position + 1) n (requested_id position b ∷ known) before r after (omega arith) k in
    (
      cc (is_known-step known position b before (requested_id n r), fresh),
      all-implies (is_known (requested_id position b ∷ known) (position + 1) before)
          (is_known known position (b ∷ before)) r.depends_on
          (λ d m. cc (is_known-step known position b before d, m)) deps,
    )

-- In a list of proposed steps that passes the check, wherever it is cut, the step after the cut has
-- an id that no step before it has, and depends only on steps before it.
pub requested_in_order :
    (before : List Requested) (r : Requested) (after : List Requested)
    → validate_requested_dependencies (before ++ r ∷ after) ≡ ok tt
    → (mem (requested_id (length before) r) (requested_ids 0 before) ≡ false)
      × (all (λ d. mem d (requested_ids 0 before)) r.depends_on ≡ true)
unfolding validate_requested_dependencies mem
requested_in_order before r after h = checked 0 (length before) [] before r after (omega arith) h
