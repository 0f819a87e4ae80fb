-- ===== src/StockPool/Service.antt =====
-- python-back/app/modules/stock_pool/service.py: what the service does to the tables. A call that raises
-- commits nothing, so the tables stay as they are. Race conditions between two calls are left out.
use stock_center.Base.{
  ℕ, ◌-◌, Bool, true, false, not, Option, none, some, List, [], ◌∷◌, leb, if◌then◌else◌, ◌&&◌,
  String, select,
}
use stock_center.Base.Text.{Text, is_space, text_eq, text_leb}
use stock_center.StockPool.{
  DynamicRule, active_a_share, other_rule, StockPool, StockPoolRealtimePolicy, PolicyUpdate, Tables,
  PoolValues, is_one_of,
}
use stock_center.StockPool as Table

-- The code of a StockPoolError, and `database_error` for a statement that raises.
pub data ErrorCode : Type 0 where
  stock_pool_code_exists stock_pool_not_found system_stock_pool_protected : ErrorCode
  dynamic_stock_pool_read_only stock_codes_empty : ErrorCode
  stock_codes_not_found : List Text → ErrorCode
  stock_pool_member_not_found dynamic_universe_realtime_policy_forbidden database_error : ErrorCode

pub data Result (A : Type 0) : Type 0 where
  ok : A → Result A
  error : ErrorCode → Result A

-- What _read returns of a pool and its policy.
pub record PoolRead : Type 0 where
  pub pool : StockPool
  pub policy : Option StockPoolRealtimePolicy

pub record StockPoolCreate : Type 0 where
  pub pool_code : String
  pub pool_name : String
  pub description : Option String
  pub realtime_policy : Option PolicyUpdate

-- A field that is unset is none, and one that is null is some none.
pub record StockPoolUpdate : Type 0 where
  pub pool_name : Option (Option String)
  pub description : Option (Option String)
  pub is_enabled : Option (Option Bool)
  pub realtime_policy : Option PolicyUpdate

abbrev pub is_universe : DynamicRule → Bool
is_universe active_a_share = true
is_universe _ = false

-- Whether _assert_realtime_policy_allowed raises nothing.
unfoldable pub realtime_policy_allowed : StockPool → Option PolicyUpdate → Bool
realtime_policy_allowed pool none = true
realtime_policy_allowed pool (some values) =
    not (pool.is_dynamic && (is_universe pool.dynamic_rule && values.is_enabled))

unfoldable pub custom_pool : ℕ → StockPoolCreate → StockPool
custom_pool now payload = record {
  id = 0;
  pool_code = payload.pool_code;
  pool_name = payload.pool_name;
  pool_type = "custom";
  description = payload.description;
  is_system = false;
  is_enabled = true;
  is_dynamic = false;
  dynamic_rule = other_rule none;
  sort_order = 1000;
  created_at = now;
  updated_at = now;
}

unfoldable pub create_pool : ℕ → StockPoolCreate → Tables → Result PoolRead × Tables
unfolding Table.get_pool Table.create_pool Table.create_realtime_policy realtime_policy_allowed
    custom_pool
create_pool now payload t = elim (Table.get_pool payload.pool_code t) [
  | some pool ↦ (error stock_pool_code_exists, t)
  | none ↦
      let (pool, inserted) = Table.create_pool (custom_pool now payload) t in
      let (policy, after) =
        Table.create_realtime_policy now pool.id payload.realtime_policy inserted in
      if realtime_policy_allowed pool payload.realtime_policy
      then (ok (record { pool = pool; policy = some policy }), after)
      else (error dynamic_universe_realtime_policy_forbidden, t)
]

-- A column that must not be null: none where the statement would set it to null.
abbrev pub not_null {ℓ} : {A : Type ℓ} → Option (Option A) → Option (Option A)
not_null none = some none
not_null (some none) = none
not_null (some (some x)) = some (some x)

abbrev pub is_set {ℓ} : {A : Type ℓ} → Option A → Bool
is_set none = false
is_set (some x) = true

unfoldable pub column_values : StockPoolUpdate → Option PoolValues
column_values payload = elim (not_null payload.pool_name) [
  | none ↦ none
  | some pool_name ↦ elim (not_null payload.is_enabled) [
    | none ↦ none
    | some is_enabled ↦ some (record {
      pool_name = pool_name;
      description = payload.description;
      is_enabled = is_enabled;
    })
  ]
]

abbrev pub or_pool : Option StockPool → StockPool → StockPool
or_pool none pool = pool
or_pool (some updated) pool = updated

-- The policy's part of an update, once the pool is updated.
unfoldable pub update_policy_part :
    ℕ → StockPool → Option StockPool → Option PolicyUpdate → Tables → Result PoolRead × Tables
unfolding Table.update_realtime_policy Table.get_realtime_policy
update_policy_part now pool updated none t =
    (ok (record { pool = or_pool updated pool; policy = Table.get_realtime_policy pool.id t }), t)
update_policy_part now pool updated (some values) t =
    let (policy, after) = Table.update_realtime_policy now pool.id values t in
    (ok (record { pool = or_pool updated pool; policy = policy }), after)

unfoldable pub update_found : ℕ → StockPool → StockPoolUpdate → Tables → Result PoolRead × Tables
unfolding column_values Table.update_pool realtime_policy_allowed update_policy_part
update_found now pool payload t =
    if pool.is_system && is_set payload.pool_name
    then (error system_stock_pool_protected, t)
    else elim (column_values payload) [
      | none ↦ (error database_error, t)
      | some values ↦
          let (updated, after) = Table.update_pool now pool.pool_code values t in
          if realtime_policy_allowed pool payload.realtime_policy
          then update_policy_part now pool updated payload.realtime_policy after
          else (error dynamic_universe_realtime_policy_forbidden, t)
    ]

-- _require_pool, and what follows it.
abbrev pub with_pool :
    {A : Type 0} → String → Tables → (StockPool → Result A × Tables) → Result A × Tables
with_pool pool_code t continue = elim (Table.get_pool pool_code t) [
  | none ↦ (error stock_pool_not_found, t)
  | some pool ↦ continue pool
]

unfoldable pub update_pool : ℕ → String → StockPoolUpdate → Tables → Result PoolRead × Tables
unfolding Table.get_pool update_found
update_pool now pool_code payload t =
    with_pool pool_code t (λ pool. update_found now pool payload t)

unfoldable pub update_realtime_policy :
    ℕ → String → PolicyUpdate → Tables → Result PoolRead × Tables
unfolding Table.get_pool realtime_policy_allowed Table.update_realtime_policy
update_realtime_policy now pool_code values t = with_pool pool_code t (λ pool.
    let (policy, after) = Table.update_realtime_policy now pool.id values t in
    if realtime_policy_allowed pool (some values)
    then (ok (record { pool = pool; policy = policy }), after)
    else (error dynamic_universe_realtime_policy_forbidden, t))

unfoldable pub delete_pool : String → Tables → Result PoolRead × Tables
unfolding Table.get_pool Table.delete_pool
delete_pool pool_code t = with_pool pool_code t (λ pool.
    let (deleted, after) = Table.delete_pool pool_code t in
    if pool.is_system
    then (error system_stock_pool_protected, t)
    else (ok (record { pool = or_pool deleted pool; policy = none }), after))

-- `code.strip()` and `code.upper()`, for ASCII.
unfoldable pub strip_left : Text → Text
unfolding is_space
strip_left [] = []
strip_left (c ∷ s) = let rest = strip_left s in if is_space c then rest else c ∷ s

-- A text without the white space at its end.
unfoldable pub strip_right : Text → Text
unfolding is_space
strip_right [] = []
strip_right (c ∷ s) = elim (strip_right s) [
  | [] ↦ if is_space c then [] else c ∷ []
  | d ∷ r ↦ c ∷ d ∷ r
]

unfoldable pub upper : Text → Text
upper [] = []
upper (c ∷ s) = (if leb b'a' c && leb c b'z' then c - 32 else c) ∷ upper s

abbrev pub is_blank : Text → Bool
is_blank [] = true
is_blank (c ∷ s) = false

-- `list(dict.fromkeys(...))`: the first of equal codes stays.
unfoldable pub unique : List Text → List Text
unfolding select
unique [] = []
unique (c ∷ cs) = c ∷ select (λ d. not (text_eq c d)) (unique cs)

unfoldable pub cleaned : List Text → List Text
unfolding strip_left strip_right upper
cleaned [] = []
cleaned (code ∷ codes) =
    let stripped = strip_right (strip_left code) in
    let rest = cleaned codes in if is_blank stripped then rest else upper stripped ∷ rest

unfoldable pub insert_text : Text → List Text → List Text
unfolding text_leb
insert_text x [] = x ∷ []
insert_text x (y ∷ ys) =
    let rest = insert_text x ys in if text_leb x y then x ∷ y ∷ ys else y ∷ rest

-- `sorted`
unfoldable pub sorted : List Text → List Text
unfolding insert_text
sorted [] = []
sorted (x ∷ xs) = insert_text x (sorted xs)

pub record BatchResult : Type 0 where
  pub added_count : ℕ
  pub existing_codes : List Text
  pub stock_codes : List Text

-- The batch once its codes are cleaned.
unfoldable pub add_codes : ℕ → StockPool → List Text → Tables → Result BatchResult × Tables
unfolding is_one_of Table.existing_stock_codes Table.existing_member_codes Table.add_members sorted
    select
add_codes now pool [] t = (error stock_codes_empty, t)
add_codes now pool (code ∷ codes) t =
    let stock_codes = code ∷ codes in
    let known = Table.existing_stock_codes stock_codes t in
    let present = Table.existing_member_codes pool.id stock_codes t in
    let (added_count, after) =
      Table.add_members now pool.id (select (λ c. not (is_one_of present c)) stock_codes) t in
    elim (select (λ c. not (is_one_of known c)) stock_codes) [
      | [] ↦ (
        ok (record {
          added_count = added_count;
          existing_codes = sorted present;
          stock_codes = stock_codes;
        }),
        after,
      )
      | unknown ∷ more ↦ (error (stock_codes_not_found (unknown ∷ more)), t)
    ]

unfoldable pub add_members : ℕ → String → List Text → Tables → Result BatchResult × Tables
unfolding Table.get_pool unique cleaned add_codes
add_members now pool_code codes t = with_pool pool_code t (λ pool.
    if pool.is_dynamic
    then (error dynamic_stock_pool_read_only, t)
    else add_codes now pool (unique (cleaned codes)) t)

unfoldable pub delete_member : String → Text → Tables → Result (Unit {0}) × Tables
unfolding Table.get_pool Table.delete_member
delete_member pool_code stock_code t = with_pool pool_code t (λ pool.
    let (found, after) = Table.delete_member pool.id stock_code t in
    if pool.is_dynamic
    then (error dynamic_stock_pool_read_only, t)
    else if found
    then (ok tt, after)
    else (error stock_pool_member_not_found, t))
