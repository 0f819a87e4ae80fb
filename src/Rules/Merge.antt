-- ===== src/Rules/Merge.antt =====
-- How a strategy's own configuration stands over the defaults.
use stock_center.Base.{
  ◌≡◌, refl, ◌∙◌, Option, none, some, if◌then◌else◌, Bool-cases, inl, inr, String, str_eq, eq_iff,
}
use stock_center.Base.Json.{
  Value, null, bool, int, float, str, arr, obj, Fields, end, field, get, set_field,
}
use stock_center.Base.Json.Laws.{get-set_field, Distinct}
use stock_center.Rules.{deep_merge}

-- What the override makes of a value of the defaults.
abbrev over_dict : Option Value → Fields → Value
over_dict old gs = elim old [ some (obj fs) ↦ obj (deep_merge fs gs) | _ ↦ obj gs ]

abbrev over_value : Option Value → Value → Value
over_value old (obj gs) = over_dict old gs
over_value old v = v

abbrev pub overridden : Option Value → Option Value → Option Value
overridden old none = old
overridden old (some v) = some (over_value old v)

one_key :
    (j k : String) (base rest : Fields) (v w : Value)
    → w ≡ over_value (get k base) v
    → get k rest ≡ none
    → overridden (get j (set_field k w base)) (get j rest)
      ≡ overridden (get j base) (if str_eq k j then some v else get j rest)
one_key j k base rest v w same absent = elim (Bool-cases (str_eq k j)) [
  | inl e ↦
      let p : k ≡ j = (eq_iff k j).0 e in
      let gone : get j rest ≡ none = rw (p) at absent in
      let old : w ≡ over_value (get j base) v = rw (p) at same in
      rw (get-set_field, e, gone) (rw (old) refl)
  | inr e ↦ rw (get-set_field, e) refl
]

-- A merged dict has at each key what the override makes of the default there: the default where the
-- override has nothing, the two dicts merged in the same way where both are dicts, and the override
-- otherwise.
pub get-deep_merge :
    (j : String) (base override : Fields)
    → Distinct override
    → get j (deep_merge base override) ≡ overridden (get j base) (get j override)
unfolding deep_merge get
get-deep_merge j base end d = refl
get-deep_merge j base (field k null rest) d =
    get-deep_merge j (set_field k null base) rest d.1 ∙ one_key j k base rest null null refl d.0
get-deep_merge j base (field k (bool b) rest) d =
    get-deep_merge j (set_field k (bool b) base) rest d.1
    ∙ one_key j k base rest (bool b) (bool b) refl d.0
get-deep_merge j base (field k (int z) rest) d =
    get-deep_merge j (set_field k (int z) base) rest d.1
    ∙ one_key j k base rest (int z) (int z) refl d.0
get-deep_merge j base (field k (float z) rest) d =
    get-deep_merge j (set_field k (float z) base) rest d.1
    ∙ one_key j k base rest (float z) (float z) refl d.0
get-deep_merge j base (field k (str s) rest) d =
    get-deep_merge j (set_field k (str s) base) rest d.1
    ∙ one_key j k base rest (str s) (str s) refl d.0
get-deep_merge j base (field k (arr vs) rest) d =
    get-deep_merge j (set_field k (arr vs) base) rest d.1
    ∙ one_key j k base rest (arr vs) (arr vs) refl d.0
get-deep_merge j base (field k (obj gs) rest) d =
    let w = over_dict (get k base) gs in
    get-deep_merge j (set_field k w base) rest d.1 ∙ one_key j k base rest (obj gs) w refl d.0
