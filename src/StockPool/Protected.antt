-- ===== src/StockPool/Protected.antt =====
-- What no call of the service does to a system pool.
pub mod Statements
use stock_center.Base.{
  ℕ, ◌≡◌, refl, sym, ap, ◌∙◌, true, false, not, Option, none, some, List, [], ◌∷◌, Bool-cases,
  Option-cases, inl, inr, ◌&&◌, select, arith, String, eq_iff,
}
use stock_center.Base.Fallible.{some-injective}
use stock_center.Base.Text.{Text}
use stock_center.Scheduler.Store.{find}
use stock_center.Scheduler.Store.Rows.{find-update_where}
use stock_center.StockPool.{
  StockPool, PolicyUpdate, Tables, PoolValues, DynamicRule, code_is, is_unset, get_pool, changed,
  is_member, is_one_of, existing_stock_codes, existing_member_codes,
}
use stock_center.StockPool as Table
use stock_center.StockPool.Rows.{find-append, find-select, find-test, List-cases}
use stock_center.StockPool.Service.{
  StockPoolUpdate, realtime_policy_allowed, column_values, not_null, is_set, unique, cleaned,
  update_policy_part, update_found, add_codes, custom_pool,
}
use stock_center.StockPool.Service as Service
use stock_center.StockPool.Consistent.Policies.{create_realtime_policy-pools}
use stock_center.StockPool.Calls.{
  Call, create_pool, update_pool, update_realtime_policy, delete_pool, add_members, delete_member,
  after_call, after_calls, with_pool-keeps, either-keeps,
}
use stock_center.StockPool.Protected.Statements.{
  SamePool, Keeps, Keeps-pools, added-Keeps, update_pool-Keeps, unset_name, update_policy-Keeps,
}

module _ (code : String) (old : StockPool) (system : old.is_system ≡ true) where
  part-Keeps :
      (now : ℕ) (pool : StockPool) (updated : Option StockPool) (policy : Option PolicyUpdate)
      (t : Tables)
      → Keeps code old t
      → Keeps code old (update_policy_part now pool updated policy t).1
  unfolding update_policy_part
  part-Keeps now pool updated none t k = k
  part-Keeps now pool updated (some values) t k =
      update_policy-Keeps code old now pool.id values t k

  -- The pool of the code is the one that is updated, and so a system pool that is given no name.
  not_named :
      (payload : StockPoolUpdate) (other : String) (pool p : StockPool) (t : Tables)
      → get_pool other t ≡ some pool
      → Keeps code old t
      → get_pool code t ≡ some p
      → code_is pool.pool_code p ≡ true
      → pool.is_system && is_set payload.pool_name ≡ false
      → is_set payload.pool_name ≡ false
  unfolding get_pool
  not_named payload other pool p t e (q, found, same) at own free =
      let its : pool.pool_code ≡ other =
        (eq_iff pool.pool_code other).0 (find-test (code_is other) t.pools e) in
      let mine : p.pool_code ≡ code =
        (eq_iff p.pool_code code).0 (find-test (code_is code) t.pools at) in
      let one : p.pool_code ≡ pool.pool_code = (eq_iff p.pool_code pool.pool_code).0 own in
      let both : code ≡ other = sym mine ∙ one ∙ its in
      let pool_is : pool ≡ q =
        some-injective (sym e ∙ ap (λ c. find (code_is c) t.pools) (sym both) ∙ found) in
      let is_old : pool.is_system ≡ true =
        ap (λ (x : StockPool). x.is_system) pool_is ∙ same.is_system ∙ system in
      ground (arith, is_old, free)

  update_found-Keeps :
      (now : ℕ) (payload : StockPoolUpdate) (other : String) (pool : StockPool) (t : Tables)
      → get_pool other t ≡ some pool
      → Keeps code old t
      → Keeps code old (update_found now pool payload t).1
  unfolding update_found get_pool
  update_found-Keeps now payload other pool t e k =
      either-keeps (Keeps code old) (pool.is_system && is_set payload.pool_name) _ _
        (λ protected. k)
        (λ free. elim (Option-cases (column_values payload)) [
          | inl null ↦ rw (null) k
          | inr (values, v) ↦ rw (v) (
              either-keeps (Keeps code old) (realtime_policy_allowed pool payload.realtime_policy) _
                _
                (λ allows.
                  part-Keeps now pool (Table.update_pool now pool.pool_code values t).0
                    payload.realtime_policy (Table.update_pool now pool.pool_code values t).1
                    (update_pool-Keeps code old now pool.pool_code values t
                      (λ p found own.
                        unset_name code old payload
                          (not_named payload other pool p t e k found own free) v)
                      k))
                (λ forbidden. k))
        ])

  create-Keeps :
      (now : ℕ) (payload : Service.StockPoolCreate) (t : Tables)
      → Keeps code old t
      → Keeps code old (Service.create_pool now payload t).1
  unfolding Service.create_pool
  create-Keeps now payload t k = elim (Option-cases (get_pool payload.pool_code t)) [
    | inr (pool, e) ↦ rw (Service.create_pool, e) k
    | inl absent ↦
        rw (Service.create_pool, absent)
          (either-keeps {A = Service.PoolRead} (Keeps code old)
            (realtime_policy_allowed (Table.create_pool (custom_pool now payload) t).0
              payload.realtime_policy)
            _ _
            (λ allowed.
              Keeps-pools code old (Table.create_pool (custom_pool now payload) t).1
                (Table.create_realtime_policy now
                  (Table.create_pool (custom_pool now payload) t).0.id payload.realtime_policy
                  (Table.create_pool (custom_pool now payload) t).1).1
                (create_realtime_policy-pools now
                  (Table.create_pool (custom_pool now payload) t).0.id payload.realtime_policy
                  (Table.create_pool (custom_pool now payload) t).1)
                (added-Keeps code old (custom_pool now payload) t k))
            (λ forbidden. k))
  ]

  delete-Keeps :
      (other : String) (t : Tables)
      → Keeps code old t
      → Keeps code old (Service.delete_pool other t).1
  unfolding Service.delete_pool Table.delete_pool get_pool
  delete-Keeps other t (q, found, same) =
      with_pool-keeps (Keeps code old) other t _ (q, found, same)
        (λ pool e.
          either-keeps (Keeps code old) pool.is_system _ _ (λ protected. (q, found, same))
            (λ custom. elim (Bool-cases (code_is other q)) [
              | inr apart ↦ (
                q,
                find-select (code_is code) (λ p. not (code_is other p)) t.pools found
                    (rw (apart) refl),
                same,
              )
              | inl own ↦
                  let mine = (eq_iff q.pool_code code).0 (find-test (code_is code) t.pools found) in
                  let both : code ≡ other = sym mine ∙ (eq_iff q.pool_code other).0 own in
                  let pool_is : pool ≡ q =
                    some-injective
                      (sym e ∙ ap (λ c. find (code_is c) t.pools) (sym both) ∙ found) in
                  let is_old : pool.is_system ≡ true =
                    ap (λ (x : StockPool). x.is_system) pool_is ∙ same.is_system ∙ system in
                  absurd (ground (arith, is_old, custom))
            ]))

  add_members-pools :
      (now id : ℕ) (codes : List Text) (t : Tables)
      → (Table.add_members now id codes t).1.pools ≡ t.pools
  unfolding Table.add_members
  add_members-pools now id [] t = refl
  add_members-pools now id (c ∷ cs) t = elim (Bool-cases (is_member id c t)) [
    | inl here ↦ rw (here) (add_members-pools now id cs t)
    | inr absent ↦ rw (absent) (add_members-pools now id cs _)
  ]

  add_codes-Keeps :
      (now : ℕ) (pool : StockPool) (codes : List Text) (t : Tables)
      → Keeps code old t
      → Keeps code old (add_codes now pool codes t).1
  unfolding add_codes
  add_codes-Keeps now pool [] t k = k
  add_codes-Keeps now pool (c ∷ cs) t k =
      elim (List-cases
        (select (λ d. not (is_one_of (existing_stock_codes (c ∷ cs) t) d)) (c ∷ cs))) [
          | inl known ↦
              rw (add_codes, known)
                (Keeps-pools code old t
                  (Table.add_members now pool.id
                    (select (λ d. not (is_one_of (existing_member_codes pool.id (c ∷ cs) t) d))
                      (c ∷ cs))
                    t).1
                  (add_members-pools now pool.id
                    (select (λ d. not (is_one_of (existing_member_codes pool.id (c ∷ cs) t) d))
                      (c ∷ cs))
                    t)
                  k)
          | inr (unknown, more, e) ↦ rw (add_codes, e) k
        ]

  after_call-Keeps :
      (now : ℕ) (c : Call) (t : Tables) → Keeps code old t → Keeps code old (after_call now c t)
  unfolding Service.update_pool Service.update_realtime_policy Service.add_members
      Service.delete_member Table.delete_member
  after_call-Keeps now (create_pool payload) t k = create-Keeps now payload t k
  after_call-Keeps now (update_pool other payload) t k =
      with_pool-keeps (Keeps code old) other t _ k
        (λ pool e. update_found-Keeps now payload other pool t e k)
  after_call-Keeps now (update_realtime_policy other values) t k =
      with_pool-keeps (Keeps code old) other t _ k (λ pool e.
        either-keeps (Keeps code old) (realtime_policy_allowed pool (some values)) _ _
          (λ allows. update_policy-Keeps code old now pool.id values t k) (λ forbidden. k))
  after_call-Keeps now (delete_pool other) t k = delete-Keeps other t k
  after_call-Keeps now (add_members other codes) t k =
      with_pool-keeps (Keeps code old) other t _ k (λ pool e.
        either-keeps (Keeps code old) pool.is_dynamic _ _ (λ ruled. k)
          (λ editable. add_codes-Keeps now pool (unique (cleaned codes)) t k))
  after_call-Keeps now (delete_member other stock_code) t k =
      with_pool-keeps (Keeps code old) other t _ k (λ pool e.
        either-keeps (Keeps code old) pool.is_dynamic _ _ (λ ruled. k)
          (λ editable.
            either-keeps (Keeps code old) (Table.delete_member pool.id stock_code t).0 _ _
              (λ found. k) (λ missing. k)))

calls-Keeps :
    (code : String) (old : StockPool) (system : old.is_system ≡ true) (calls : List (ℕ × Call))
    (t : Tables)
    → Keeps code old t
    → Keeps code old (after_calls calls t)
calls-Keeps code old system [] t k = k
calls-Keeps code old system ((now, c) ∷ cs) t k =
    calls-Keeps code old system cs (after_call now c t) (after_call-Keeps code old system now c t k)

-- Whatever calls the service answers, a system pool stays: it is still found under its code, with the
-- same id, name, type and rule, and is still a system pool.
pub after_calls-Keeps :
    (code : String) (calls : List (ℕ × Call)) (t : Tables) {pool : StockPool}
    → pool.is_system ≡ true
    → get_pool code t ≡ some pool
    → Keeps code pool (after_calls calls t)
after_calls-Keeps code calls t {pool} system found = calls-Keeps code pool system calls t (
  pool,
  found,
  record {
    id = refl;
    pool_code = refl;
    pool_name = refl;
    pool_type = refl;
    is_system = refl;
    is_dynamic = refl;
    dynamic_rule = refl;
  },
)
