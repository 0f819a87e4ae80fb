-- ===== src/Base/Json.antt =====
-- JSON values as Python holds them. A float is a number of millionths; the infinities and NaN are
-- left out. An object's keys are distinct, as a dict's are.
pub mod Laws
use Prim.Native.Nat.{ℕ, zero, suc, ◌+◌, ◌*◌}
use Prim.Native.String.{String}
use mathlib.Core.Bool.{Bool, true, false, not, ◌&&◌, ◌||◌}
use mathlib.Core.Option.{Option, none, some}
use text.Mathlib.Text.{◌==◌ as str_eq}
use stock_center.Base.Tests.{◌==◌, if◌then◌else◌}
use stock_center.Base.Int.{ℤ, pos, negsuc, eqb_ℤ}

mutual
  pub data Value : Type 0 where
    null : Value
    bool : Bool → Value
    int : ℤ → Value
    float : ℤ → Value
    str : String → Value
    arr : Items → Value
    obj : Fields → Value

  pub data Fields : Type 0 where
    end : Fields
    field : String → Value → Fields → Fields

  pub data Items : Type 0 where
    nil : Items
    cons : Value → Items → Items

-- A whole number in millionths.
abbrev pub millionths : ℤ → ℤ
millionths (pos n) = pos (n * 1000000)
millionths (negsuc n) = negsuc (n * 1000000 + 999999)

-- The number that a value counts as in a comparison: True is 1 and False is 0.
abbrev pub number_of : Value → Option ℤ
number_of (bool true) = some (pos 1000000)
number_of (bool false) = some (pos 0)
number_of (int n) = some (millionths n)
number_of (float x) = some x
number_of _ = none

-- `d.get(key)`.
unfoldable pub get : String → Fields → Option Value
get key end = none
get key (field k v fs) = let rest = get key fs in if str_eq k key then some v else rest

unfoldable pub count : Fields → ℕ
count end = 0
count (field k v fs) = suc (count fs)

abbrev pub option_eq : Option ℤ → Option ℤ → Bool
option_eq (some a) (some b) = eqb_ℤ a b
option_eq _ _ = false

-- Python's `==` on such values: numbers by value whatever their type, objects without regard to
-- order.
unfoldable mutual
  pub py_eq : Value → Value → Bool
  py_eq null null = true
  py_eq (str s) (str t) = str_eq s t
  py_eq (arr xs) (arr ys) = items_eq xs ys
  py_eq (obj fs) (obj gs) = count fs == count gs && fields_in fs gs
  py_eq a b = option_eq (number_of a) (number_of b)

  pub items_eq : Items → Items → Bool
  items_eq nil nil = true
  items_eq (cons x xs) (cons y ys) = py_eq x y && items_eq xs ys
  items_eq xs ys = false

  pub fields_in : Fields → Fields → Bool
  fields_in end gs = true
  fields_in (field k v fs) gs = elim (get k gs) [
    | none ↦ false
    | some w ↦ py_eq v w && fields_in fs gs
  ]

-- `value in items`.
unfoldable pub contains : Items → Value → Bool
unfolding py_eq
contains nil v = false
contains (cons x xs) v = py_eq v x || contains xs v

-- Whether every item is among the options.
unfoldable pub all_in : Items → Items → Bool
unfolding contains
all_in nil options = true
all_in (cons x xs) options = contains options x && all_in xs options

-- `bool(value)`.
unfoldable pub truthy : Value → Bool
truthy null = false
truthy (bool b) = b
truthy (int (pos zero)) = false
truthy (int n) = true
truthy (float (pos zero)) = false
truthy (float x) = true
truthy (str s) = not (str_eq s "")
truthy (arr nil) = false
truthy (arr (cons x xs)) = true
truthy (obj end) = false
truthy (obj (field k v fs)) = true

-- `d.get(key)` with a missing key read as None.
unfoldable pub get_or_null : String → Fields → Value
unfolding get
get_or_null key fs = elim (get key fs) [ none ↦ null | some v ↦ v ]

-- `d[key] = v`: a new key goes to the end.
unfoldable pub set_field : String → Value → Fields → Fields
set_field key v end = field key v end
set_field key v (field k w fs) =
    let rest = set_field key v fs in if str_eq k key then field k v fs else field k w rest

-- `{**fs, **gs}`
unfoldable pub merge : Fields → Fields → Fields
unfolding set_field
merge fs end = fs
merge fs (field key v gs) = merge (set_field key v fs) gs
