-- ===== src/StockPool.antt =====
-- python-back/app/modules/stock_pool/models.py and repository.py: the tables of stock pools, of their
-- members and of their realtime policies, and the statements that read and change them. Members and
-- policies go with the pool that a delete removes. Texts are code points; the ids of pools come from a
-- sequence, and the ids of members are left out.
pub mod Service
pub mod Rows
pub mod Calls
pub mod Consistent
pub mod Members
pub mod Protected
use stock_center.Base.{
  ℕ, ◌+◌, Bool, true, false, not, Option, none, some, List, [], ◌∷◌, ◌++◌, map, ◌==◌, if◌then◌else◌,
  ◌&&◌, String, str_eq, any, select, length,
}
use stock_center.Base.Text.{Text, text_eq}
use stock_center.Scheduler.Store.{find, update_where}

-- The rules that the code knows, and any other.
pub data DynamicRule : Type 0 where
  active_a_share strategy_candidates : DynamicRule
  other_rule : Option String → DynamicRule

pub data QuoteLane : Type 0 where
  hot warm off : QuoteLane

pub data MinuteLane : Type 0 where
  guaranteed rotating off : MinuteLane

pub record StockPool : Type 0 where
  pub id : ℕ
  pub pool_code : String
  pub pool_name : String
  pub pool_type : String
  pub description : Option String
  pub is_system : Bool
  pub is_enabled : Bool
  pub is_dynamic : Bool
  pub dynamic_rule : DynamicRule
  pub sort_order : ℕ
  pub created_at : ℕ
  pub updated_at : ℕ

pub record StockPoolMember : Type 0 where
  pub pool_id : ℕ
  pub stock_code : Text
  pub created_at : ℕ

-- StockPoolRealtimePolicyUpdate of schemas.py.
pub record PolicyUpdate : Type 0 where
  pub is_enabled : Bool
  pub priority : ℕ
  pub quote_lane : QuoteLane
  pub minute_lane : MinuteLane

pub record StockPoolRealtimePolicy : Type 0 where
  pub pool_id : ℕ
  pub values : PolicyUpdate
  pub updated_at : ℕ

-- The tables, with the stock codes of t_stock.
pub record Tables : Type 0 where
  pub pools : List StockPool
  pub members : List StockPoolMember
  pub policies : List StockPoolRealtimePolicy
  pub pool_sequence : ℕ
  pub stocks : List Text

abbrev pub code_is : String → StockPool → Bool
code_is code p = str_eq p.pool_code code

abbrev pub id_is : ℕ → StockPool → Bool
id_is id p = p.id == id

abbrev pub policy_of : ℕ → StockPoolRealtimePolicy → Bool
policy_of id y = y.pool_id == id

abbrev pub member_is : ℕ → Text → StockPoolMember → Bool
member_is id code m = m.pool_id == id && text_eq m.stock_code code

unfoldable pub get_pool : String → Tables → Option StockPool
unfolding find
get_pool pool_code t = find (code_is pool_code) t.pools

-- The new row takes the sequence's next number.
unfoldable pub create_pool : StockPool → Tables → StockPool × Tables
create_pool values t =
    let pool = record values { id = t.pool_sequence } in
    (pool, record t { pools = t.pools ++ pool ∷ []; pool_sequence = t.pool_sequence + 1 })

abbrev pub no_policy : PolicyUpdate
no_policy = record {
  is_enabled = false;
  priority = 1000;
  quote_lane = QuoteLane.off;
  minute_lane = MinuteLane.off;
}

unfoldable pub get_realtime_policy : ℕ → Tables → Option StockPoolRealtimePolicy
unfolding find
get_realtime_policy pool_id t = find (policy_of pool_id) t.policies

-- ON CONFLICT DO NOTHING: a policy that is there stays.
unfoldable pub create_realtime_policy :
    ℕ → ℕ → Option PolicyUpdate → Tables → StockPoolRealtimePolicy × Tables
unfolding get_realtime_policy
create_realtime_policy now pool_id values t = elim (get_realtime_policy pool_id t) [
  | some existing ↦ (existing, t)
  | none ↦
      let row : StockPoolRealtimePolicy = record {
        pool_id = pool_id;
        values = elim values [ none ↦ no_policy | some v ↦ v ];
        updated_at = now;
      } in
      (row, record t { policies = t.policies ++ row ∷ [] })
]

-- The row afterwards is none where the update finds no row.
unfoldable pub update_realtime_policy :
    ℕ → ℕ → PolicyUpdate → Tables → Option StockPoolRealtimePolicy × Tables
unfolding create_realtime_policy update_where find
update_realtime_policy now pool_id values t =
    let there = (create_realtime_policy now pool_id none t).1 in
    let after =
      update_where (policy_of pool_id) (λ y. record y { values = values; updated_at = now })
        there.policies in
    (find (policy_of pool_id) after, record there { policies = after })

-- A column that the caller sets, or leaves as it is.
abbrev pub set_or {ℓ} : {A : Type ℓ} → Option A → A → A
set_or none old = old
set_or (some new) old = new

-- The columns of StockPoolUpdate, where they are set.
pub record PoolValues : Type 0 where
  pub pool_name : Option String
  pub description : Option (Option String)
  pub is_enabled : Option Bool

abbrev pub is_unset {ℓ} : {A : Type ℓ} → Option A → Bool
is_unset none = true
is_unset (some x) = false

abbrev pub changed : ℕ → PoolValues → StockPool → StockPool
changed now values p = record p {
  pool_name = set_or values.pool_name p.pool_name;
  description = set_or values.description p.description;
  is_enabled = set_or values.is_enabled p.is_enabled;
  updated_at = now;
}

unfoldable pub update_pool : ℕ → String → PoolValues → Tables → Option StockPool × Tables
unfolding get_pool update_where
update_pool now pool_code values t =
    if is_unset values.pool_name && (is_unset values.description && is_unset values.is_enabled)
    then (get_pool pool_code t, t)
    else let after = record t {
      pools = update_where (code_is pool_code) (changed now values) t.pools;
    } in
      (get_pool pool_code after, after)

-- Whether a row that belongs to a pool goes with the pools of a code.
abbrev pub goes_with : String → List StockPool → ℕ → Bool
goes_with pool_code pools pool_id = any (λ p. code_is pool_code p && id_is pool_id p) pools

-- With ON DELETE CASCADE.
unfoldable pub delete_pool : String → Tables → Option StockPool × Tables
unfolding get_pool select any
delete_pool pool_code t = (
  get_pool pool_code t,
  record t {
    pools = select (λ p. not (code_is pool_code p)) t.pools;
    members = select (λ m. not (goes_with pool_code t.pools m.pool_id)) t.members;
    policies = select (λ y. not (goes_with pool_code t.pools y.pool_id)) t.policies;
  },
)

unfoldable pub is_one_of : List Text → Text → Bool
unfolding any
is_one_of codes code = any (λ c. text_eq c code) codes

unfoldable pub existing_stock_codes : List Text → Tables → List Text
unfolding select is_one_of
existing_stock_codes stock_codes t = select (is_one_of stock_codes) t.stocks

unfoldable pub existing_member_codes : ℕ → List Text → Tables → List Text
unfolding select is_one_of
existing_member_codes pool_id stock_codes t =
    map (λ m. m.stock_code)
      (select (λ m. m.pool_id == pool_id && is_one_of stock_codes m.stock_code) t.members)

unfoldable pub is_member : ℕ → Text → Tables → Bool
unfolding any
is_member pool_id stock_code t = any (member_is pool_id stock_code) t.members

-- ON CONFLICT DO NOTHING, row by row; the count is of the rows that are inserted.
unfoldable pub add_members : ℕ → ℕ → List Text → Tables → ℕ × Tables
unfolding is_member
add_members now pool_id [] t = (0, t)
add_members now pool_id (code ∷ codes) t =
    let row : StockPoolMember = record { pool_id = pool_id; stock_code = code; created_at = now } in
    let here = is_member pool_id code t in
    let rest =
      add_members now pool_id codes
        (if here then t else record t { members = t.members ++ row ∷ [] }) in
    ((if here then 0 else 1) + rest.0, rest.1)

unfoldable pub delete_member : ℕ → Text → Tables → Bool × Tables
unfolding is_member select
delete_member pool_id stock_code t = (
  is_member pool_id stock_code t,
  record t { members = select (λ m. not (member_is pool_id stock_code m)) t.members },
)
