-- ===== src/Scheduler/Payload/Accepts.antt =====
-- A payload is accepted exactly when it meets its schema.
use stock_center.Base.{
  ◌≡◌, ◌↔◌, refl, Bool, true, false, not, Option, none, some, List, arith, Bool-cases, inl, inr,
  ◌⊎◌, ◌&&◌, String, str_eq, any,
}
use stock_center.Base.Int.{ℤ, ltb_ℤ, ◌≤ℤ◌}
use stock_center.Base.Json.{
  Value, null, bool, int, float, str, arr, Items, nil, cons, Fields, end, field, get, get_or_null,
  contains, all_in, py_eq, truthy, millionths,
}
use stock_center.Scheduler.Payload.{
  Outcome, accepted, required_missing, invalid, bound_not_a_number, ◌then_check◌, require, Reason,
  below_minimum, above_maximum, Kind, string_kind, number_kind, integer_kind, boolean_kind,
  array_kind, json_kind, kind_of, label_of, option_allowed, items_allowed, to_float, check_minimum,
  check_maximum, validate_number_range, validate_kind, validate_payload_value, spec_of, is_null,
  validate_entry, validate_entries, known, unknown_keys, none_unknown, validate_payload,
}
use stock_center.Scheduler.Payload.Spec.{
  OneOf, here, there, Allowed, EachOneOf, ItemsAllowed, InRange, HasKind, EntryOk, EntriesOk,
  AllKnown,
}

OneOf-of_contains : (xs : Items) (v : Value) → contains xs v ≡ true → OneOf v xs
unfolding contains
OneOf-of_contains nil v h = cc
OneOf-of_contains (cons x xs) v h = elim (Bool-cases (py_eq v x)) [
  | inl e ↦ here e
  | inr e ↦ there (OneOf-of_contains xs v (ground arith))
]

contains_of_OneOf : {v : Value} {xs : Items} → OneOf v xs → contains xs v ≡ true
unfolding contains
contains_of_OneOf (here e) = ground arith
contains_of_OneOf (there m) = ground (arith, contains_of_OneOf m)

option_allowed_iff : (options v : Value) → (option_allowed options v ≡ true) ↔ Allowed options v
option_allowed_iff (arr options) v = (OneOf-of_contains options v, contains_of_OneOf)
option_allowed_iff _ v = (λ h. tt, λ h. refl)

&&-iff : (a b : Bool) → ((a && b) ≡ true) ↔ ((a ≡ true) × (b ≡ true))
&&-iff a b = ground arith

all_in_iff : (xs options : Items) → (all_in xs options ≡ true) ↔ EachOneOf options xs
unfolding all_in
all_in_iff nil options = (λ h. tt, λ h. refl)
all_in_iff (cons x xs) options =
    let both = &&-iff (contains options x) (all_in xs options) in
    let rest = all_in_iff xs options in
    (
      λ h. (OneOf-of_contains options x (both.0 h).0, rest.0 (both.0 h).1),
      λ (h : OneOf x options × EachOneOf options xs). both.1 (contains_of_OneOf h.0, rest.1 h.1),
    )

items_allowed_iff :
    (options : Value) (xs : Items) → (items_allowed options xs ≡ true) ↔ ItemsAllowed options xs
items_allowed_iff (arr options) xs = all_in_iff xs options
items_allowed_iff _ xs = (λ h. tt, λ h. refl)

require_iff :
    (b : Bool) (label : Value) (r : Reason) → (require b (invalid label r) ≡ accepted) ↔ (b ≡ true)
require_iff b label r = ground arith

then_check_iff : (a b : Outcome) → ((a then_check b) ≡ accepted) ↔ ((a ≡ accepted) × (b ≡ accepted))
then_check_iff accepted b = (λ h. (refl, h), λ h. h.1)
then_check_iff a b = (λ h. cc, λ h. cc)

compose : {A B C : Type 0} → A ↔ B → B ↔ C → A ↔ C
compose f g = (λ a. g.0 (f.0 a), λ c. f.1 (g.1 c))

at_least :
    (label : Value) (x : ℤ) (o : Option ℤ)
    → ((elim o [
      | none ↦ bound_not_a_number
      | some m ↦ require (not (ltb_ℤ x m)) (invalid label below_minimum)
    ])
        ≡ accepted)
      ↔ ((m : ℤ) × (o ≡ some m) × (m ≤ℤ x))
at_least label x none = (λ h. cc, λ (m, p, q). cc)
at_least label x (some m) =
    (λ h. (m, refl, ground arith), λ (n, p, q). let e : m ≡ n = cc in ground arith)

at_most :
    (label : Value) (x : ℤ) (o : Option ℤ)
    → ((elim o [
      | none ↦ bound_not_a_number
      | some m ↦ require (not (ltb_ℤ m x)) (invalid label above_maximum)
    ])
        ≡ accepted)
      ↔ ((m : ℤ) × (o ≡ some m) × (x ≤ℤ m))
at_most label x none = (λ h. cc, λ (m, p, q). cc)
at_most label x (some m) =
    (λ h. (m, refl, ground arith), λ (n, p, q). let e : m ≡ n = cc in ground arith)

optional_iff :
    (b : Bool) (label : Value) → (require (not b) (required_missing label) ≡ accepted) ↔ (b ≡ false)
optional_iff b label = ground arith

module _ (float_text : String → Option ℤ) where
  check_minimum_iff :
      (label minimum : Value) (x : ℤ)
      → (check_minimum float_text label minimum x ≡ accepted)
        ↔ ((minimum ≡ null) ⊎ ((m : ℤ) × (to_float float_text minimum ≡ some m) × (m ≤ℤ x)))
  unfolding check_minimum
  check_minimum_iff label null x = (λ h. inl refl, λ h. refl)
  check_minimum_iff label v x =
      let k = at_least label x (to_float float_text v) in
      (λ h. inr (k.0 h), λ h. elim h [ inl e ↦ cc | inr t ↦ k.1 t ])

  check_maximum_iff :
      (label maximum : Value) (x : ℤ)
      → (check_maximum float_text label maximum x ≡ accepted)
        ↔ ((maximum ≡ null) ⊎ ((m : ℤ) × (to_float float_text maximum ≡ some m) × (x ≤ℤ m)))
  unfolding check_maximum
  check_maximum_iff label null x = (λ h. inl refl, λ h. refl)
  check_maximum_iff label v x =
      let k = at_most label x (to_float float_text v) in
      (λ h. inr (k.0 h), λ h. elim h [ inl e ↦ cc | inr t ↦ k.1 t ])

  range_iff :
      (label : Value) (x : ℤ) (spec : Fields)
      → (validate_number_range float_text label x spec ≡ accepted) ↔ InRange float_text spec x
  unfolding validate_number_range
  range_iff label x spec =
      let low = check_minimum_iff label (get_or_null "min" spec) x in
      let high = check_maximum_iff label (get_or_null "max" spec) x in
      let both =
        then_check_iff (check_minimum float_text label (get_or_null "min" spec) x)
          (check_maximum float_text label (get_or_null "max" spec) x) in
      (
        λ h. record { lower = low.0 (both.0 h).0; upper = high.0 (both.0 h).1 },
        λ (r : InRange float_text spec x). both.1 (low.1 r.lower, high.1 r.upper),
      )

  validate_kind_iff :
      (k : Kind) (label : Value) (spec : Fields) (v : Value)
      → (validate_kind float_text k label spec v ≡ accepted) ↔ HasKind float_text k spec v
  unfolding validate_kind
  validate_kind_iff string_kind label spec (str s) =
      compose (require_iff (option_allowed (get_or_null "options" spec) (str s)) label _)
        (option_allowed_iff (get_or_null "options" spec) (str s))
  validate_kind_iff array_kind label spec (arr xs) =
      compose (require_iff (items_allowed (get_or_null "options" spec) xs) label _)
        (items_allowed_iff (get_or_null "options" spec) xs)
  validate_kind_iff number_kind label spec (int n) = range_iff label (millionths n) spec
  validate_kind_iff number_kind label spec (float x) = range_iff label x spec
  validate_kind_iff integer_kind label spec (int n) = range_iff label (millionths n) spec
  validate_kind_iff boolean_kind label spec (bool b) = (λ h. tt, λ h. refl)
  validate_kind_iff json_kind label spec v = (λ h. tt, λ h. refl)
  validate_kind_iff _ label spec v = (λ h. cc, λ h. absurd h)

  is_null_iff : (v : Value) → (is_null v ≡ true) ↔ (v ≡ null)
  is_null_iff null = (λ h. refl, λ h. refl)
  is_null_iff v = (λ h. cc, λ h. cc)

  entry_iff :
      (payload : Fields) (key : String) (spec : Fields)
      → (validate_entry float_text payload key spec ≡ accepted)
        ↔ EntryOk float_text payload key spec
  unfolding validate_entry validate_payload_value
  entry_iff payload key spec =
      let v = get_or_null key payload in
      let optional = optional_iff (truthy (get_or_null "required" spec)) (label_of key spec) in
      let kind = validate_kind_iff (kind_of spec) (label_of key spec) spec v in
      elim (Bool-cases (is_null v)) [
        | inl e ↦
            let missing : v ≡ null = (is_null_iff v).0 e in
            rw (e) (
              λ h. record { required = λ r. cc (r, optional.0 h); typed = λ n. absurd (n missing) },
              λ (o : EntryOk float_text payload key spec).
                  optional.1 (elim (Bool-cases (truthy (get_or_null "required" spec))) [
                    | inl r ↦ absurd (o.required r missing)
                    | inr f ↦ f
                  ]),
            )
        | inr e ↦ rw (e) (
          λ h. record { required = λ r q. cc (e, (is_null_iff v).1 q); typed = λ n. kind.0 h },
          λ (o : EntryOk float_text payload key spec).
              kind.1 (o.typed (λ q. cc (e, (is_null_iff v).1 q))),
        )
      ]

  entries_iff :
      (payload schema : Fields)
      → (validate_entries float_text payload schema ≡ accepted)
        ↔ EntriesOk float_text payload schema
  unfolding validate_entries
  entries_iff payload end = (λ h. tt, λ h. refl)
  entries_iff payload (field key definition rest) =
      let one = entry_iff payload key (spec_of definition) in
      let others = entries_iff payload rest in
      let both =
        then_check_iff (validate_entry float_text payload key (spec_of definition))
          (validate_entries float_text payload rest) in
      (
        λ h. (one.0 (both.0 h).0, others.0 (both.0 h).1),
        λ (o : EntryOk float_text payload key (spec_of definition)
              × EntriesOk float_text payload rest).
            both.1 (one.1 o.0, others.1 o.1),
      )

known_iff :
    (schema : Fields) (allowed : List String) (key : String)
    → (known schema allowed key ≡ true)
      ↔ (((d : Value) × (get key schema ≡ some d)) ⊎ (any (str_eq key) allowed ≡ true))
known_iff schema allowed key = decided (get key schema) refl
  where
    decided :
        (o : Option Value)
        → get key schema ≡ o
        → (known schema allowed key ≡ true)
          ↔ (((d : Value) × (get key schema ≡ some d)) ⊎ (any (str_eq key) allowed ≡ true))
    decided (some d) e = (λ h. inl (d, e), λ h. rw (e, known))
    decided none e =
        (λ h. inr (rw (e, known) at h), λ h. elim h [ inl (d, p) ↦ cc | inr a ↦ rw (e, known) a ])

unknown_iff :
    (schema : Fields) (allowed : List String) (payload : Fields)
    → (none_unknown (unknown_keys schema allowed payload) ≡ accepted)
      ↔ AllKnown schema allowed payload
unfolding unknown_keys
unknown_iff schema allowed end = (λ h. tt, λ h. refl)
unknown_iff schema allowed (field key v rest) =
    let k = known_iff schema allowed key in
    let r = unknown_iff schema allowed rest in
    elim (Bool-cases (known schema allowed key)) [
      | inl e ↦
          rw (e) (λ h. (k.0 e, r.0 h), λ (a : AllKnown schema allowed (field key v rest)). r.1 a.1)
      | inr e ↦
          rw (e) (λ h. cc, λ (a : AllKnown schema allowed (field key v rest)). cc (e, k.1 a.0))
    ]

-- A payload is accepted exactly when each of its keys is in the schema or among the allowed
-- unknown ones, and for each entry of the schema the parameter is present and not None where it is
-- required, and where it is present and not None it has the entry's type: an allowed text, a
-- number or integer (no bool) in range, a bool, a list of allowed items, or any JSON.
pub validate_payload_iff :
    (float_text : String → Option ℤ) (payload schema : Fields) (allowed : List String)
    → (validate_payload float_text payload schema allowed ≡ accepted)
      ↔ (AllKnown schema allowed payload × EntriesOk float_text payload schema)
unfolding validate_payload
validate_payload_iff float_text payload schema allowed =
    let both =
      then_check_iff (none_unknown (unknown_keys schema allowed payload))
        (validate_entries float_text payload schema) in
    let u = unknown_iff schema allowed payload in
    let e = entries_iff float_text payload schema in
    (
      λ h. (u.0 (both.0 h).0, e.0 (both.0 h).1),
      λ (o : AllKnown schema allowed payload × EntriesOk float_text payload schema).
          both.1 (u.1 o.0, e.1 o.1),
    )
