-- ===== src/Scheduler/Payload.antt =====
-- python-back/app/modules/scheduler_center/validation.py: validate_payload and its helpers. A raised
-- error is a value; the keys of an undefined_parameters error stand in the payload's order, where
-- the message sorts them. A JSON payload always passes json.dumps. Python's `float(text)` is the
-- parameter `float_text`, which gives none where it raises.
pub mod Spec
pub mod Accepts
use stock_center.Base.{
  Bool, true, false, not, Option, none, some, List, [], ◌∷◌, if◌then◌else◌, ◌&&◌, ◌||◌, String,
  str_eq, any,
}
use stock_center.Base.Int.{ℤ, ltb_ℤ}
use stock_center.Base.Json.{
  Value, null, bool, int, float, str, arr, obj, Items, Fields, end, field, get, get_or_null,
  contains, all_in, truthy, number_of, millionths,
}

pub data Reason : Type 0 where
  not_text not_number not_integer not_boolean not_array : Reason
  not_an_option item_not_an_option : Reason
  below_minimum above_maximum : Reason
  unsupported_type : Reason

-- What a validation does: it accepts, raises PayloadValidationError, or lets the error of
-- `float(minimum)` or `float(maximum)` through.
pub data Outcome : Type 0 where
  accepted : Outcome
  undefined_parameters : List String → Outcome
  required_missing : Value → Outcome
  invalid : Value → Reason → Outcome
  bound_not_a_number : Outcome

infixl 5 ◌then_check◌
-- The next check runs only if this one accepts.
abbrev pub ◌then_check◌ : Outcome → Outcome → Outcome
accepted then_check b = b
undefined_parameters keys then_check b = undefined_parameters keys
required_missing l then_check b = required_missing l
invalid l r then_check b = invalid l r
bound_not_a_number then_check b = bound_not_a_number

abbrev pub require : Bool → Outcome → Outcome
require true o = accepted
require false o = o

-- `str(spec.get("type") or "string")`, compared with the names that the code knows. The text of a
-- value that is no text is none of them.
pub data Kind : Type 0 where
  string_kind number_kind integer_kind boolean_kind array_kind json_kind other_kind : Kind

abbrev pub kind_of_name : String → Kind
kind_of_name s =
    if str_eq s "string"
    then string_kind
    else if str_eq s "number"
    then number_kind
    else if str_eq s "integer"
    then integer_kind
    else if str_eq s "boolean"
    then boolean_kind
    else if str_eq s "array"
    then array_kind
    else if str_eq s "json"
    then json_kind
    else other_kind

abbrev pub kind_of_value : Value → Kind
kind_of_value (str s) = kind_of_name s
kind_of_value _ = other_kind

unfoldable pub kind_of : Fields → Kind
unfolding get_or_null truthy
kind_of spec = let t = get_or_null "type" spec in if truthy t then kind_of_value t else string_kind

unfoldable pub label_of : String → Fields → Value
unfolding get_or_null truthy
label_of key spec = let l = get_or_null "label" spec in if truthy l then l else str key

-- `isinstance(options, list) and value not in options` fails.
abbrev pub option_allowed : Value → Value → Bool
option_allowed (arr options) v = contains options v
option_allowed _ v = true

abbrev pub items_allowed : Value → Items → Bool
items_allowed (arr options) xs = all_in xs options
items_allowed _ xs = true

-- `definition if isinstance(definition, dict) else {}`
abbrev pub spec_of : Value → Fields
spec_of (obj fs) = fs
spec_of _ = end

abbrev pub is_null : Value → Bool
is_null null = true
is_null _ = false

abbrev pub known : Fields → List String → String → Bool
known schema allowed key = elim (get key schema) [ some d ↦ true | none ↦ any (str_eq key) allowed ]

-- set(payload) - set(schema) - allowed
unfoldable pub unknown_keys : Fields → List String → Fields → List String
unfolding get any
unknown_keys schema allowed end = []
unknown_keys schema allowed (field key v rest) =
    let others = unknown_keys schema allowed rest in
    if known schema allowed key then others else key ∷ others

abbrev pub none_unknown : List String → Outcome
none_unknown [] = accepted
none_unknown (k ∷ ks) = undefined_parameters (k ∷ ks)

module _ (float_text : String → Option ℤ) where
  -- `float(bound)` for a bound of the schema.
  unfoldable pub to_float : Value → Option ℤ
  to_float (str s) = float_text s
  to_float v = number_of v

  unfoldable pub check_minimum : Value → Value → ℤ → Outcome
  unfolding to_float
  check_minimum label null x = accepted
  check_minimum label minimum x = elim (to_float minimum) [
    | none ↦ bound_not_a_number
    | some m ↦ require (not (ltb_ℤ x m)) (invalid label below_minimum)
  ]

  unfoldable pub check_maximum : Value → Value → ℤ → Outcome
  unfolding to_float
  check_maximum label null x = accepted
  check_maximum label maximum x = elim (to_float maximum) [
    | none ↦ bound_not_a_number
    | some m ↦ require (not (ltb_ℤ m x)) (invalid label above_maximum)
  ]

  -- _validate_number_range
  unfoldable pub validate_number_range : Value → ℤ → Fields → Outcome
  unfolding check_minimum check_maximum get_or_null
  validate_number_range label x spec =
      check_minimum label (get_or_null "min" spec) x
      then_check check_maximum label (get_or_null "max" spec) x

  unfoldable pub validate_kind : Kind → Value → Fields → Value → Outcome
  unfolding validate_number_range contains all_in
  validate_kind string_kind label spec (str s) =
      require (option_allowed (get_or_null "options" spec) (str s)) (invalid label not_an_option)
  validate_kind string_kind label spec v = invalid label not_text
  validate_kind number_kind label spec (int n) = validate_number_range label (millionths n) spec
  validate_kind number_kind label spec (float x) = validate_number_range label x spec
  validate_kind number_kind label spec v = invalid label not_number
  validate_kind integer_kind label spec (int n) = validate_number_range label (millionths n) spec
  validate_kind integer_kind label spec v = invalid label not_integer
  validate_kind boolean_kind label spec (bool b) = accepted
  validate_kind boolean_kind label spec v = invalid label not_boolean
  validate_kind array_kind label spec (arr xs) =
      require (items_allowed (get_or_null "options" spec) xs) (invalid label item_not_an_option)
  validate_kind array_kind label spec v = invalid label not_array
  validate_kind json_kind label spec v = accepted
  validate_kind other_kind label spec v = invalid label unsupported_type

  -- _validate_payload_value
  unfoldable pub validate_payload_value : String → Value → Fields → Outcome
  unfolding validate_kind kind_of label_of
  validate_payload_value key v spec = validate_kind (kind_of spec) (label_of key spec) spec v

  -- The body of the loop over the schema.
  unfoldable pub validate_entry : Fields → String → Fields → Outcome
  unfolding validate_payload_value get_or_null truthy
  validate_entry payload key spec =
      let v = get_or_null key payload in
      if is_null v
      then require (not (truthy (get_or_null "required" spec)))
          (required_missing (label_of key spec))
      else validate_payload_value key v spec

  unfoldable pub validate_entries : Fields → Fields → Outcome
  unfolding validate_entry
  validate_entries payload end = accepted
  validate_entries payload (field key definition rest) =
      validate_entry payload key (spec_of definition) then_check validate_entries payload rest

  unfoldable pub validate_payload : Fields → Fields → List String → Outcome
  unfolding unknown_keys validate_entries
  validate_payload payload schema allowed_unknown_keys =
      none_unknown (unknown_keys schema allowed_unknown_keys payload)
      then_check validate_entries payload schema
