-- ===== src/Base/Json/Laws.antt =====
-- Reading a dict back after an assignment or a merge.
use stock_center.Base.{
  ◌≡◌, refl, true, false, Option, none, some, arith, if◌then◌else◌, Bool-cases, inl, inr, ◌⊎◌, ◌∙◌,
  String, str_eq, eq_iff,
}
use stock_center.Base.Json.{Value, Fields, end, field, get, set_field, merge}

pub get-set_field :
    (k j : String) (v : Value) (fs : Fields)
    → get j (set_field k v fs) ≡ (if str_eq k j then some v else get j fs)
unfolding get set_field
get-set_field k j v end = refl
get-set_field k j v (field i w fs) =
    ground (arith, eq_iff k j, eq_iff i k, eq_iff i j, get-set_field k j v fs)

-- No key twice, as in a dict.
abbrev pub Distinct : Fields → Type 0
Distinct end = Unit
Distinct (field k v fs) = (get k fs ≡ none) × Distinct fs

abbrev pub or_else : Option Value → Option Value → Option Value
or_else (some v) o = some v
or_else none o = o

pub get-merge :
    (j : String) (fs gs : Fields)
    → Distinct gs
    → get j (merge fs gs) ≡ or_else (get j gs) (get j fs)
unfolding merge get
get-merge j fs end d = refl
get-merge j fs (field k v gs) d =
    get-merge j (set_field k v fs) gs d.1 ∙ step (Bool-cases (str_eq k j))
  where
    step :
        ((str_eq k j ≡ true) ⊎ (str_eq k j ≡ false))
        → or_else (get j gs) (get j (set_field k v fs)) ≡ or_else (get j (field k v gs)) (get j fs)
    step (inl e) =
        let p : k ≡ j = (eq_iff k j).0 e in
        let absent : get j gs ≡ none = rw p at d.0 in rw (get-set_field, e, absent) refl
    step (inr e) = rw (get-set_field, e) refl
