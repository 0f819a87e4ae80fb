-- ===== src/StockPool/Protected/Statements.antt =====
-- What the statements on the tables keep of a pool.
use stock_center.Base.{
  ℕ, ◌≡◌, refl, true, false, none, some, Bool-cases, Option-cases, inl, inr, ◌&&◌, arith, String,
}
use stock_center.Scheduler.Store.Rows.{find-update_where}
use stock_center.StockPool.{
  StockPool, PolicyUpdate, Tables, PoolValues, DynamicRule, code_is, is_unset, get_pool, changed,
  is_member, is_one_of, existing_stock_codes, existing_member_codes,
}
use stock_center.StockPool as Table
use stock_center.StockPool.Rows.{find-append}
use stock_center.StockPool.Service.{StockPoolUpdate, column_values, is_set}
use stock_center.StockPool.Consistent.Policies.{create_realtime_policy-pools}

-- What makes a pool the one it is.
pub record SamePool (old new : StockPool) : Type 0 where
  pub id : new.id ≡ old.id
  pub pool_code : new.pool_code ≡ old.pool_code
  pub pool_name : new.pool_name ≡ old.pool_name
  pub pool_type : new.pool_type ≡ old.pool_type
  pub is_system : new.is_system ≡ old.is_system
  pub is_dynamic : new.is_dynamic ≡ old.is_dynamic
  pub dynamic_rule : new.dynamic_rule ≡ old.dynamic_rule

abbrev pub Keeps : String → StockPool → Tables → Type 0
Keeps code old t = (p : StockPool) × (get_pool code t ≡ some p) × SamePool old p

module _ (code : String) (old : StockPool) where
  pub Keeps-pools : (t u : Tables) → u.pools ≡ t.pools → Keeps code old t → Keeps code old u
  unfolding get_pool
  Keeps-pools t u e (p, found, same) = (p, rw (e) found, same)

  pub added-Keeps :
      (values : StockPool) (t : Tables)
      → Keeps code old t
      → Keeps code old (Table.create_pool values t).1
  unfolding Table.create_pool get_pool
  added-Keeps values t (p, found, same) = (p, find-append (code_is code) t.pools _ found, same)

  changed-SamePool :
      (now : ℕ) (values : PoolValues) (p : StockPool)
      → values.pool_name ≡ none
      → SamePool old p
      → SamePool old (changed now values p)
  changed-SamePool now values p e s = record {
    id = s.id;
    pool_code = s.pool_code;
    pool_name = rw (e) s.pool_name;
    pool_type = s.pool_type;
    is_system = s.is_system;
    is_dynamic = s.is_dynamic;
    dynamic_rule = s.dynamic_rule;
  }

  pub update_pool-Keeps :
      (now : ℕ) (other : String) (values : PoolValues) (t : Tables)
      → ((p : StockPool)
          → get_pool code t ≡ some p
          → code_is other p ≡ true
          → values.pool_name ≡ none)
      → Keeps code old t
      → Keeps code old (Table.update_pool now other values t).1
  unfolding Table.update_pool get_pool
  update_pool-Keeps now other values t unnamed (p, found, same) =
      let after =
        find-update_where (code_is code) (changed now values) (code_is other) (λ q. refl) t.pools
          found in
      elim (Bool-cases (
        is_unset values.pool_name && (is_unset values.description && is_unset values.is_enabled))) [
          | inl e ↦ rw (Table.update_pool, e) (p, found, same)
          | inr e ↦
              rw (Table.update_pool, e)
                (elim (Bool-cases (code_is other p)) [
                  | inl k ↦ (
                    changed now values p,
                    rw (k) at after,
                    changed-SamePool now values p (unnamed p found k) same,
                  )
                  | inr k ↦ (p, rw (k) at after, same)
                ])
        ]

  -- An update that sets no name sets no name column.
  pub unset_name :
      (payload : StockPoolUpdate) {values : PoolValues}
      → is_set payload.pool_name ≡ false
      → column_values payload ≡ some values
      → values.pool_name ≡ none
  unfolding column_values
  unset_name payload e v = elim (Option-cases payload.pool_name) [
    | inr (name, k) ↦ absurd (ground (arith, e, k))
    | inl k ↦ ground (arith, k, v)
  ]

  pub update_policy-Keeps :
      (now id : ℕ) (values : PolicyUpdate) (t : Tables)
      → Keeps code old t
      → Keeps code old (Table.update_realtime_policy now id values t).1
  unfolding Table.update_realtime_policy
  update_policy-Keeps now id values t =
      Keeps-pools t (Table.update_realtime_policy now id values t).1
        (create_realtime_policy-pools now id none t)
