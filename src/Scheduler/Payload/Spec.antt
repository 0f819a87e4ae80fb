-- ===== src/Scheduler/Payload/Spec.antt =====
-- What a schema asks of a payload, stated without the validation code.
use stock_center.Base.{◌≡◌, ◌≢◌, true, Option, some, List, ◌⊎◌, String, str_eq, any}
use stock_center.Base.Int.{ℤ, ◌≤ℤ◌}
use stock_center.Base.Json.{
  Value, null, bool, int, float, str, arr, Items, nil, cons, Fields, end, field, get, get_or_null,
  py_eq, truthy, millionths,
}
use stock_center.Scheduler.Payload.{
  Kind, string_kind, number_kind, integer_kind, boolean_kind, array_kind, json_kind, kind_of,
  to_float, spec_of,
}

-- Equal, as Python compares, to one of the items.
pub data OneOf (v : Value) : Items → Type 0 where
  here : {x : Value} {xs : Items} → py_eq v x ≡ true → OneOf v (cons x xs)
  there : {x : Value} {xs : Items} → OneOf v xs → OneOf v (cons x xs)

-- Options restrict a value only where they are a list.
abbrev pub Allowed : Value → Value → Type 0
Allowed (arr options) v = OneOf v options
Allowed _ v = Unit

abbrev pub EachOneOf : Items → Items → Type 0
EachOneOf options nil = Unit
EachOneOf options (cons x xs) = OneOf x options × EachOneOf options xs

abbrev pub ItemsAllowed : Value → Items → Type 0
ItemsAllowed (arr options) xs = EachOneOf options xs
ItemsAllowed _ xs = Unit

module _ (float_text : String → Option ℤ) where
  -- A missing bound is no bound; one that is there is a number that the value respects.
  pub record InRange (spec : Fields) (x : ℤ) : Type 0 where
    pub lower :
        (get_or_null "min" spec ≡ null)
        ⊎ ((m : ℤ) × (to_float float_text (get_or_null "min" spec) ≡ some m) × (m ≤ℤ x))
    pub upper :
        (get_or_null "max" spec ≡ null)
        ⊎ ((m : ℤ) × (to_float float_text (get_or_null "max" spec) ≡ some m) × (x ≤ℤ m))

  -- A bool is neither a number nor an integer here, though Python counts it as an int.
  abbrev pub HasKind : Kind → Fields → Value → Type 0
  HasKind string_kind spec (str s) = Allowed (get_or_null "options" spec) (str s)
  HasKind number_kind spec (int n) = InRange spec (millionths n)
  HasKind number_kind spec (float x) = InRange spec x
  HasKind integer_kind spec (int n) = InRange spec (millionths n)
  HasKind boolean_kind spec (bool b) = Unit
  HasKind array_kind spec (arr xs) = ItemsAllowed (get_or_null "options" spec) xs
  HasKind json_kind spec v = Unit
  HasKind _ spec v = ⊥

  -- A required parameter is present and not None, and a present one has the declared type.
  pub record EntryOk (payload : Fields) (key : String) (spec : Fields) : Type 0 where
    pub required : truthy (get_or_null "required" spec) ≡ true → get_or_null key payload ≢ null
    pub typed :
        get_or_null key payload ≢ null → HasKind (kind_of spec) spec (get_or_null key payload)

  abbrev pub EntriesOk : Fields → Fields → Type 0
  EntriesOk payload end = Unit
  EntriesOk payload (field key definition rest) =
      EntryOk payload key (spec_of definition) × EntriesOk payload rest

abbrev pub AllKnown : Fields → List String → Fields → Type 0
AllKnown schema allowed end = Unit
AllKnown schema allowed (field key v rest) =
    (((d : Value) × (get key schema ≡ some d)) ⊎ (any (str_eq key) allowed ≡ true))
    × AllKnown schema allowed rest
