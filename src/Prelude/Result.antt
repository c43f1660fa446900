-- ===== src/Prelude/Result.antt =====
-- A call that may raise: the source's errors carry a code, and the code is what callers read.
use Prim.Native.String.{String}
use mathlib.Core.Path.{◌≡◌, refl}
use mathlib.Core.Bool.{Bool, true, false}
use ai_odoo_assistant.Prelude.Tests.{if◌then◌else◌}

pub data Result {ℓ} (A : Type ℓ) : Type ℓ where
  err : String → Result A
  ok : A → Result A

module _ {ℓ κ} {A : Type ℓ} {B : Type κ} where
  infixl 5 ◌>>=◌ ◌>>◌
  abbrev pub ◌>>=◌ : Result A → (A → Result B) → Result B
  err code >>= next = err code
  ok value >>= next = next value

  abbrev pub ◌>>◌ : Result A → Result B → Result B
  err code >> next = err code
  ok value >> next = next

-- if not test: raise code
abbrev pub require : Bool → String → Result (Unit {0})
require false code = err code
require true code = ok tt

-- `P` holds of the value of a call that does not raise.
pub record Ensures {ℓ κ} {A : Type ℓ} (P : A → Type κ) (m : Result A) : Type (ℓ ⊔ κ) where
  pub at : (a : A) → m ≡ ok a → P a

module _ {ℓ κ ℓ'} {A : Type ℓ} {B : Type ℓ'} {P : B → Type κ} where
  -- What follows a call may use the value that it gave.
  pub Ensures-bind :
      (m : Result A) (f : A → Result B)
      → ((a : A) → m ≡ ok a → Ensures P (f a))
      → Ensures P (m >>= f)
  Ensures-bind (err code) f k = record { at = λ b h. cc h }
  Ensures-bind (ok a) f k = k a refl

module _ {ℓ κ} {A : Type ℓ} {P : A → Type κ} where
  pub Ensures-ok : (a : A) → P a → Ensures P (ok a)
  Ensures-ok a p = record { at = λ b h. let q : a ≡ b = cc h in rw⁻¹ q p }

  pub Ensures-err : (code : String) → Ensures P (err code)
  Ensures-err code = record { at = λ b h. cc h }

  pub Ensures-if :
      (b : Bool) (x y : Result A) → Ensures P x → Ensures P y → Ensures P (if b then x else y)
  Ensures-if true x y p q = p
  Ensures-if false x y p q = q

  pub Ensures-then :
      (m : Result (Unit {0})) (next : Result A)
      → (m ≡ ok tt → Ensures P next)
      → Ensures P (m >> next)
  Ensures-then (err code) next k = record { at = λ b h. cc h }
  Ensures-then (ok tt) next k = k refl

  pub Ensures-require :
      (b : Bool) (code : String) (m : Result A)
      → (b ≡ true → Ensures P m)
      → Ensures P (require b code >> m)
  Ensures-require true code m k = k refl
  Ensures-require false code m k = record { at = λ b h. cc h }

-- A chain that gives a value is a call that gave one, and what follows it.
pub bind-ok {ℓ κ} :
    {A : Type ℓ} {B : Type κ} (m : Result A) (f : A → Result B) (b : B)
    → (m >>= f) ≡ ok b
    → (a : A) × (m ≡ ok a) × (f a ≡ ok b)
bind-ok (err code) f b h = cc h
bind-ok (ok a) f b h = (a, refl, h)

pub require-ok {ℓ} :
    {A : Type ℓ} (test : Bool) (code : String) (m : Result A) (a : A)
    → (require test code >> m) ≡ ok a
    → (test ≡ true) × (m ≡ ok a)
require-ok true code m a h = (refl, h)
require-ok false code m a h = cc h

pub then-ok {ℓ} :
    {A : Type ℓ} (m : Result (Unit {0})) (next : Result A) (a : A)
    → (m >> next) ≡ ok a
    → (m ≡ ok tt) × (next ≡ ok a)
then-ok (err code) next a h = cc h
then-ok (ok tt) next a h = (refl, h)
