-- ===== src/StockPool/Consistent.antt =====
-- What the constraints of the tables and the checks of the service keep true of the tables of pools.
pub mod Statements
pub mod Policies
pub mod Calls
use stock_center.Base.{
  ℕ, ◌+◌, ◌<◌, ◌≡◌, refl, sym, ap, ◌∙◌, Bool, true, false, not, Option, none, some, List, [], ◌∷◌,
  ◌++◌, All, All-append, All-map_of, Bool-cases, inl, inr, if◌then◌else◌, ◌&&◌, ◌==◌, any, select,
  arith, str_eq, eq_iff, String,
}
use stock_center.Base.Fallible.{some-injective, none≢some}
use stock_center.Base.Text.{Text, text_eq}
use stock_center.Scheduler.Store.{find, update_where}
use stock_center.Scheduler.Store.Rows.{find-update_where, All-update_where}
use stock_center.StockPool.{
  StockPool, StockPoolMember, StockPoolRealtimePolicy, PolicyUpdate, Tables, PoolValues, code_is,
  id_is, policy_of, member_is, no_policy, changed, goes_with, is_one_of, get_pool, create_pool,
  get_realtime_policy, create_realtime_policy, update_realtime_policy, update_pool, delete_pool,
  is_member, add_members, delete_member,
}
use stock_center.StockPool.Service.{realtime_policy_allowed}
use stock_center.StockPool.Rows.{
  Distinct, Distinct-append, Distinct-select, Distinct-update_where, All-select, All-select_test,
  All-both, find-append, find-append_none, find-select, find-any, find-none,
}

abbrev pub same_code : StockPool → StockPool → Bool
same_code a b = str_eq a.pool_code b.pool_code

abbrev pub same_id : StockPool → StockPool → Bool
same_id a b = a.id == b.id

abbrev pub same_owner : StockPoolRealtimePolicy → StockPoolRealtimePolicy → Bool
same_owner a b = a.pool_id == b.pool_id

abbrev pub same_member : StockPoolMember → StockPoolMember → Bool
same_member a b = a.pool_id == b.pool_id && text_eq a.stock_code b.stock_code

-- The id is a pool's, and `P` holds of that pool.
abbrev pub Backed : (StockPool → Type 0) → List StockPool → ℕ → Type 0
Backed P pools id = (pool : StockPool) × (find (id_is id) pools ≡ some pool) × P pool

abbrev pub Editable : StockPool → Type 0
Editable pool = pool.is_dynamic ≡ false

abbrev pub Allows : PolicyUpdate → StockPool → Type 0
Allows values pool = realtime_policy_allowed pool (some values) ≡ true

pub record IsConsistent (t : Tables) : Type 0 where
  -- codes and ids are each a pool's own
  pub codes : Distinct same_code t.pools
  pub ids : Distinct same_id t.pools
  pub fresh : All (λ p. p.id < t.pool_sequence) t.pools
  -- a stock is in a pool once, it is a known stock, and the pool is one of the table that no rule
  -- maintains
  pub memberships : Distinct same_member t.members
  pub known : All (λ m. is_one_of t.stocks m.stock_code ≡ true) t.members
  pub editable : All (λ m. Backed Editable t.pools m.pool_id) t.members
  -- a pool has one policy at most, and the whole market's is not enabled
  pub owners : Distinct same_owner t.policies
  pub allowed : All (λ y. Backed (Allows y.values) t.pools y.pool_id) t.policies

pub Backed-append :
    (P : StockPool → Type 0) (pools : List StockPool) (p : StockPool) (id : ℕ)
    → Backed P pools id
    → Backed P (pools ++ p ∷ []) id
Backed-append P pools p id (pool, e, h) = (pool, find-append (id_is id) pools (p ∷ []) e, h)

pub Backed-changed :
    (P : StockPool → Type 0) (now : ℕ) (code : String) (values : PoolValues)
    (pools : List StockPool) (id : ℕ)
    → ((p : StockPool) → P p → P (changed now values p))
    → Backed P pools id
    → Backed P (update_where (code_is code) (changed now values) pools) id
Backed-changed P now code values pools id keeps (pool, e, h) =
    let after =
      find-update_where (id_is id) (changed now values) (code_is code) (λ p. refl) pools e in
    elim (Bool-cases (code_is code pool)) [
      | inl k ↦ (changed now values pool, rw (k) at after, keeps pool h)
      | inr k ↦ (pool, rw (k) at after, h)
    ]

pub Backed-stays :
    (P : StockPool → Type 0) (code : String) (pools : List StockPool) (id : ℕ)
    → not (goes_with code pools id) ≡ true
    → Backed P pools id
    → Backed P (select (λ p. not (code_is code p)) pools) id
Backed-stays P code pools id stays (pool, e, h) =
    let other : code_is code pool ≡ false =
      find-any (id_is id) (code_is code) pools e (ground (arith, stays)) in
    (pool, find-select (id_is id) (λ p. not (code_is code p)) pools e (rw (other) refl), h)
