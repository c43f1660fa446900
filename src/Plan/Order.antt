-- ===== src/Plan/Order.antt =====
-- What a plan may do outside the service, and in which order: the rules behind the calls of
-- `CapabilityPlanService.execute`, as a test on a history and as contracts of actions.
use ai_odoo_assistant.Prelude.{
  Bool, true, false, not, ◌&&◌, ◌||◌, Option, none, some, [], ◌∷◌, ◌≡◌, refl, str_eq, if◌then◌else◌,
  String, arith,
}
use ai_odoo_assistant.Prelude.Result.{Result, ok, err}
use ai_odoo_assistant.Plan.Host.{
  Host, M, Reply, done, raised, Failure, Call, History, StepPhase, previewed, barrier, before_unit,
  after_unit, effect, verified, pure, raise, lift, ask, check, check_step, ◌>>=◌, from_result,
  continue,
}

-- The caller gave a write barrier: a checkpoint callback or `before_effect`.
unfoldable pub has_barrier_callback : Host → Bool
has_barrier_callback host =
    host.checkpoints || elim host.before_effect [ none ↦ false | some callback ↦ true ]

abbrev pub is_barrier : Call → Bool
is_barrier barrier = true
is_barrier (before_unit id last) = true
is_barrier _ = false

unfoldable pub has_barrier : History → Bool
has_barrier [] = false
has_barrier (c ∷ h) = is_barrier c || has_barrier h

-- No effect waits for its verification, and no verification failed.
abbrev pub is_settled : History → Bool
is_settled (effect id name ∷ h) = false
is_settled (verified id false ∷ h) = false
is_settled _ = true

abbrev verifies : String → History → Bool
verifies id (effect id' name ∷ h) = str_eq id' id
verifies id _ = false

-- Whether a call may follow a history. A verification follows the effect of its step; any other
-- call needs a settled history, and an effect the barrier, where there is one.
abbrev allows : Bool → History → Call → Bool
allows needs_barrier h (verified id verdict) = verifies id h
allows needs_barrier h (effect id name) = is_settled h && (not needs_barrier || has_barrier h)
allows needs_barrier h c = is_settled h

unfoldable pub is_orderly : Bool → History → Bool
is_orderly needs_barrier [] = true
is_orderly needs_barrier (c ∷ h) = allows needs_barrier h c && is_orderly needs_barrier h

-- Between two units, once `crossed` of them have passed the barrier.
unfoldable pub between : Bool → Bool → History → Bool
between needs_barrier crossed h =
    is_orderly needs_barrier h && is_settled h && (not (needs_barrier && crossed) || has_barrier h)

module _ (needs_barrier : Bool) where
  module _ {A : Type 0} where
    abbrev pub after : (A → History → Bool) → Reply A × History → Bool
    after Q (done a, h) = Q a h
    after Q (raised e, h) = is_orderly needs_barrier h

    -- From a history in `P`, an action ends in `Q`, or raises after orderly calls.
    pub record Runs (P : History → Bool) (m : M A) (Q : A → History → Bool) : Type 0 where
      pub at : (h : History) → P h ≡ true → after Q (m h) ≡ true

    module _ {P : History → Bool} {Q : A → History → Bool} where
      pub Runs-pure : (a : A) → ((h : History) → P h ≡ true → Q a h ≡ true) → Runs P (pure a) Q
      unfolding pure
      Runs-pure a k = record { at = k }

      pub Runs-if :
          (b : Bool) (m n : M A)
          → (b ≡ true → Runs P m Q)
          → (b ≡ false → Runs P n Q)
          → Runs P (if b then m else n) Q
      Runs-if true m n km kn = km refl
      Runs-if false m n km kn = kn refl

  module _ {A B : Type 0} {P : History → Bool} {Q : B → History → Bool} where
    pub Runs-bind :
        {R : A → History → Bool} (m : M A) (f : A → M B)
        → Runs P m R
        → ((a : A) → Runs (R a) (f a) Q)
        → Runs P (m >>= f) Q
    unfolding ◌>>=◌
    Runs-bind {R} m f km kf = record { at = λ h k. let (r, h') = m h in continued r h' (km.at h k) }
      where
        continued :
            (r : Reply A) (h' : History) → after R (r, h') ≡ true → after Q (continue r f h') ≡ true
        continued (done a) h' k = (kf a).at h' k
        continued (raised e) h' k = k

  -- The contracts of the actions, between two calls.
  module _ (crossed : Bool) where
    abbrev pub steady : {A : Type 0} → A → History → Bool
    steady a = between needs_barrier crossed

    module _ {A : Type 0} where
      pub Runs-raise :
          {Q : A → History → Bool} (e : Failure) → Runs (between needs_barrier crossed) (raise e) Q
      unfolding raise between
      Runs-raise e = record { at = λ h k. ground arith }

      pub Runs-lift : (r : Result A) → Runs (between needs_barrier crossed) (lift r) steady
      unfolding lift between
      Runs-lift (ok a) = record { at = λ h k. k }
      Runs-lift (err code) = record { at = λ h k. ground arith }

      pub Runs-return : (a : A) → Runs (between needs_barrier crossed) (pure a) steady
      Runs-return a = Runs-pure a (λ h k. k)

      pub Runs-option :
          {B : Type 0} {Q : A → History → Bool} {P : History → Bool} (o : Option B) (m : M A)
          (f : B → M A)
          → Runs P m Q
          → ((b : B) → Runs P (f b) Q)
          → Runs P (elim o [ none ↦ m | some b ↦ f b ]) Q
      Runs-option none m f km kf = km
      Runs-option (some b) m f km kf = kf b

      pub Runs-previewed :
          (at : Option (String × StepPhase)) (id : String) (answer : History → Result A)
          → Runs (between needs_barrier crossed) (ask at (previewed id) answer) steady
      unfolding ask between is_orderly has_barrier
      Runs-previewed at id answer = record { at = λ h k. settled (answer h) h k }
        where
          settled :
              (r : Result A) (h : History)
              → between needs_barrier crossed h ≡ true
              → after steady (from_result at r, previewed id ∷ h) ≡ true
          settled (ok a) h k = ground arith
          settled (err code) h k = ground arith

      pub Runs-after_unit :
          (at : Option (String × StepPhase)) (id : String) (answer : History → Result A)
          → Runs (between needs_barrier crossed) (ask at (after_unit id) answer) steady
      unfolding ask between is_orderly has_barrier
      Runs-after_unit at id answer = record { at = λ h k. settled (answer h) h k }
        where
          settled :
              (r : Result A) (h : History)
              → between needs_barrier crossed h ≡ true
              → after steady (from_result at r, after_unit id ∷ h) ≡ true
          settled (ok a) h k = ground arith
          settled (err code) h k = ground arith

      -- A call that is the barrier.
      pub Runs-barrier :
          (at : Option (String × StepPhase)) (c : Call) (answer : History → Result A)
          → is_barrier c ≡ true
          → Runs (between needs_barrier crossed) (ask at c answer) (λ a. between needs_barrier true)
      unfolding ask between is_orderly has_barrier
      Runs-barrier at c answer is_bar = record { at = λ h k. settled c (answer h) h is_bar k }
        where
          settled :
              (c : Call) (r : Result A) (h : History)
              → is_barrier c ≡ true
              → between needs_barrier crossed h ≡ true
              → after (λ a. between needs_barrier true) (from_result at r, c ∷ h) ≡ true
          settled barrier (ok a) h b k = ground arith
          settled barrier (err code) h b k = ground arith
          settled (before_unit id last) (ok a) h b k = ground arith
          settled (before_unit id last) (err code) h b k = ground arith
          settled (previewed id) r h b k = ground arith
          settled (after_unit id) r h b k = ground arith
          settled (effect id name) r h b k = ground arith
          settled (verified id v) r h b k = ground arith

    module _ {A B : Type 0} where
      pub Runs-seq :
          (m : M A) (f : A → M B)
          → Runs (between needs_barrier crossed) m steady
          → ((a : A) → Runs (between needs_barrier crossed) (f a) steady)
          → Runs (between needs_barrier crossed) (m >>= f) steady
      Runs-seq m f km kf = Runs-bind m f km kf

    pub Runs-check :
        (b : Bool) (code : String) → Runs (between needs_barrier crossed) (check b code) steady
    unfolding check between
    Runs-check true code = record { at = λ h k. k }
    Runs-check false code = record { at = λ h k. ground arith }

    pub Runs-check_step :
        (b : Bool) (code id : String) (phase : StepPhase)
        → Runs (between needs_barrier crossed) (check_step b code id phase) steady
    unfolding check_step between
    Runs-check_step true code id phase = record { at = λ h k. k }
    Runs-check_step false code id phase = record { at = λ h k. ground arith }

-- After the effect of a step, while its verification is awaited.
unfoldable pub is_awaiting : Bool → String → History → Bool
is_awaiting needs_barrier id h =
    is_orderly needs_barrier h && verifies id h && (not needs_barrier || has_barrier h)

-- After a verification that found `verdict`.
unfoldable pub is_verdict : Bool → Bool → History → Bool
is_verdict needs_barrier verdict h =
    is_orderly needs_barrier h
    && (not verdict || is_settled h)
    && (not needs_barrier || has_barrier h)

module _ (needs_barrier : Bool) where
  module _ {A : Type 0} where
    pub Runs-effect :
        (at : Option (String × StepPhase)) (id name : String) (answer : History → Result A)
        → str_eq id id ≡ true
        → Runs needs_barrier
            (between needs_barrier true)
            (ask at (effect id name) answer)
            (λ a. is_awaiting needs_barrier id)
    unfolding ask between is_orderly has_barrier is_awaiting
    Runs-effect at id name answer e = record { at = λ h k. settled (answer h) h k }
      where
        settled :
            (r : Result A) (h : History)
            → between needs_barrier true h ≡ true
            → after needs_barrier
                (λ a. is_awaiting needs_barrier id)
                (from_result at r, effect id name ∷ h)
              ≡ true
        settled (ok a) h k = ground arith
        settled (err code) h k = ground arith

  pub Runs-accept :
      (b : Bool) (code id : String) (phase : StepPhase)
      → Runs needs_barrier
          (is_verdict needs_barrier b)
          (check_step b code id phase)
          (λ u. between needs_barrier true)
  unfolding check_step between is_verdict
  Runs-accept true code id phase = record { at = λ h k. ground arith }
  Runs-accept false code id phase = record { at = λ h k. ground arith }
