-- ===== src/Prelude/Json.antt =====
-- JSON values as Python holds them, with Python's `==`.
use Prim.Native.Nat.{ℕ, suc, ◌-◌, ◌*◌, ◌^◌}
use Prim.Native.String.{String}
use mathlib.Core.Bool.{Bool, true, false, ◌&&◌}
use mathlib.Core.List.{List, [], ◌∷◌}
use mathlib.Core.Option.{Option, none, some}
use text.Mathlib.Text.{◌==◌ as str_eq}
use ai_odoo_assistant.Prelude.Tests.{ltb, ◌==◌, if◌then◌else◌}

-- `negsuc n` is -(n + 1).
pub data ℤ : Type 0 where
  pos : ℕ → ℤ
  negsuc : ℕ → ℤ

-- `float z k` is the finite double z / 2 ^ k.
mutual
  pub data Json : Type 0 where
    null : Json
    bool : Bool → Json
    int : ℤ → Json
    float : ℤ → ℕ → Json
    str : String → Json
    arr : Items → Json
    obj : Fields → Json

  pub data Items : Type 0 where
    nil : Items
    cons : Json → Items → Items

  pub data Fields : Type 0 where
    end : Fields
    field : String → Json → Fields → Fields

abbrev eq_int : ℤ → ℤ → Bool
eq_int (pos m) (pos n) = m == n
eq_int (negsuc m) (negsuc n) = m == n
eq_int _ _ = false

abbrev pub scale : ℤ → ℕ → ℤ
scale (pos n) s = pos (n * s)
scale (negsuc n) s = negsuc (suc n * s - 1)

-- A number as z / 2 ^ k; True and False are 1 and 0.
abbrev pub number : Json → Option (ℤ × ℕ)
number (bool true) = some (pos 1, 0)
number (bool false) = some (pos 0, 0)
number (int z) = some (z, 0)
number (float z k) = some (z, k)
number _ = none

abbrev pub lt_int : ℤ → ℤ → Bool
lt_int (pos m) (pos n) = ltb m n
lt_int (pos m) (negsuc n) = false
lt_int (negsuc m) (pos n) = true
lt_int (negsuc m) (negsuc n) = ltb n m

-- y / 2 ^ j < z / 2 ^ k
abbrev pub lt_number : ℤ × ℕ → ℤ × ℕ → Bool
lt_number (y, j) (z, k) = lt_int (scale y (2 ^ k)) (scale z (2 ^ j))

abbrev same_number : Option (ℤ × ℕ) → Option (ℤ × ℕ) → Bool
same_number (some (y, j)) (some (z, k)) = eq_int (scale y (2 ^ k)) (scale z (2 ^ j))
same_number _ _ = false

-- d.get(key)
unfoldable pub get : String → Fields → Option Json
get key end = none
get key (field k v fs) = if str_eq k key then some v else get key fs

unfoldable pub field_count : Fields → ℕ
field_count end = 0
field_count (field k v fs) = suc (field_count fs)

-- The keys of a dict are distinct.
unfoldable pub has_keys : List String → Fields → Bool
unfolding get
has_keys [] fs = true
has_keys (k ∷ ks) fs = elim (get k fs) [ none ↦ false | some v ↦ has_keys ks fs ]

-- d.get(key), None where the key is missing
unfoldable pub get_value : String → Fields → Json
get_value key d = elim (get key d) [ none ↦ null | some v ↦ v ]

abbrev same_str : String → Json → Bool
same_str s (str t) = str_eq s t
same_str s _ = false

abbrev is_null : Json → Bool
is_null null = true
is_null _ = false

-- a == b. The keys of a dict are distinct.
unfoldable mutual
  pub json_eq : Json → Json → Bool
  json_eq null b = is_null b
  json_eq (bool p) b = same_number (number (bool p)) (number b)
  json_eq (int z) b = same_number (number (int z)) (number b)
  json_eq (float z k) b = same_number (number (float z k)) (number b)
  json_eq (str s) b = same_str s b
  json_eq (arr xs) b = elim b [ arr ys ↦ items_eq xs ys | _ ↦ false ]
  json_eq (obj fs) b = elim b [
    | obj gs ↦ fields_eq fs gs && field_count fs == field_count gs
    | _ ↦ false
  ]

  pub items_eq : Items → Items → Bool
  items_eq nil ys = elim ys [ nil ↦ true | cons y ys ↦ false ]
  items_eq (cons x xs) ys = elim ys [ nil ↦ false | cons y ys ↦ json_eq x y && items_eq xs ys ]

  pub fields_eq : Fields → Fields → Bool
  fields_eq end gs = true
  fields_eq (field k v fs) gs = elim (get k gs) [
    | none ↦ false
    | some w ↦ json_eq v w && fields_eq fs gs
  ]
