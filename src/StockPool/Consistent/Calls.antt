-- ===== src/StockPool/Consistent/Calls.antt =====
-- The calls of the service keep the tables of pools consistent, whether they succeed or raise.
use stock_center.Base.{
  ℕ, ◌<◌, ◌≡◌, refl, ◌∙◌, true, false, not, Option, none, some, List, [], ◌∷◌, ◌++◌, All,
  All-map_of, Bool-cases, Option-cases, inl, inr, ◌&&◌, select, arith, String,
}
use stock_center.Base.Text.{Text}
use stock_center.Scheduler.Store.{find}
use stock_center.StockPool.{
  StockPool, PolicyUpdate, Tables, PoolValues, code_is, id_is, is_unset, no_policy, is_one_of,
  get_pool, changed, existing_stock_codes, existing_member_codes,
}
use stock_center.StockPool as Table
use stock_center.StockPool.Rows.{All-select, find-append_none, find-Distinct, none_left, List-cases}
use stock_center.Base.Slices.{taken_from}
use stock_center.StockPool.Service.{
  Result, StockPoolCreate, StockPoolUpdate, realtime_policy_allowed, custom_pool, with_pool,
  column_values, is_set, unique, cleaned, update_policy_part, update_found, add_codes,
}
use stock_center.StockPool.Service as Service
use stock_center.StockPool.Consistent.{
  same_id, Backed, Editable, Allows, IsConsistent, Backed-changed,
}
use stock_center.StockPool.Consistent.Statements.{
  create_pool-IsConsistent, update_pool-IsConsistent, delete_pool-IsConsistent,
  delete_member-IsConsistent, add_members-IsConsistent,
}
use stock_center.StockPool.Consistent.Policies.{
  policy_values, create_realtime_policy-IsConsistent, update_realtime_policy-IsConsistent,
}
use stock_center.StockPool.Calls.{
  Call, create_pool, update_pool, update_realtime_policy, delete_pool, add_members, delete_member,
  after_call, after_calls, with_pool-keeps, either-keeps,
}

-- The pool that a code names is the pool of its id.
found-Backed :
    (P : StockPool → Type 0) (code : String) (t : Tables) {pool : StockPool}
    → IsConsistent t
    → get_pool code t ≡ some pool
    → P pool
    → Backed P t.pools pool.id
unfolding get_pool
found-Backed P code t {pool} h e p =
    (pool, find-Distinct same_id (code_is code) t.pools (ground arith) h.ids e, p)

not_dynamic :
    (pool : StockPool) (values : Option PolicyUpdate)
    → pool.is_dynamic ≡ false
    → realtime_policy_allowed pool values ≡ true
unfolding realtime_policy_allowed
not_dynamic pool none e = refl
not_dynamic pool (some values) e = rw (e) refl

module _ (now : ℕ) (payload : StockPoolCreate) (t : Tables) (h : IsConsistent t) where
  created : StockPool
  created = record (custom_pool now payload) { id = t.pool_sequence }

  created_found :
      (P : StockPool → Type 0) → P created → Backed P (t.pools ++ created ∷ []) t.pool_sequence
  unfolding find created
  created_found P p = (
    created,
    find-append_none (id_is t.pool_sequence) t.pools (created ∷ []) (
          All-map_of (λ p. p.id < t.pool_sequence) (λ p. id_is t.pool_sequence p ≡ false)
            (λ p k. ground (arith, k)) t.pools h.fresh)
        ∙ ground arith,
    p,
  )

  given_allowed : (values : Option PolicyUpdate) → Allows (policy_values values) created
  unfolding realtime_policy_allowed custom_pool created
  given_allowed none = refl
  given_allowed (some values) = refl

  create_pool-IsConsistent_call : IsConsistent (Service.create_pool now payload t).1
  unfolding Service.create_pool created custom_pool Table.create_pool
  create_pool-IsConsistent_call = elim (Option-cases (get_pool payload.pool_code t)) [
    | inr (pool, e) ↦ rw (Service.create_pool, e) h
    | inl absent ↦
        rw (Service.create_pool, absent, not_dynamic created payload.realtime_policy refl)
          (create_realtime_policy-IsConsistent now t.pool_sequence payload.realtime_policy
            (Table.create_pool (custom_pool now payload) t).1
            (created_found (Allows (policy_values payload.realtime_policy))
              (given_allowed payload.realtime_policy))
            (create_pool-IsConsistent (custom_pool now payload) t absent h))
  ]

module _ (now : ℕ) (t : Tables) (h : IsConsistent t) where
  changed-Allows :
      (w : PolicyUpdate) (values : PoolValues) (p : StockPool)
      → Allows w p
      → Allows w (changed now values p)
  unfolding realtime_policy_allowed
  changed-Allows w values p k = k

  -- The pool with the id is still there after its row is changed.
  update_pool-Backed :
      (P : StockPool → Type 0) (code : String) (values : PoolValues) (id : ℕ)
      → ((p : StockPool) → P p → P (changed now values p))
      → Backed P t.pools id
      → Backed P (Table.update_pool now code values t).1.pools id
  unfolding Table.update_pool
  update_pool-Backed P code values id keeps backed =
      elim (Bool-cases (
        is_unset values.pool_name && (is_unset values.description && is_unset values.is_enabled))) [
          | inl e ↦ rw (Table.update_pool, e) backed
          | inr e ↦
              rw (Table.update_pool, e) (Backed-changed P now code values t.pools id keeps backed)
        ]

  policy_part :
      (pool : StockPool) (updated : Option StockPool) (policy : Option PolicyUpdate)
      (after : Tables)
      → realtime_policy_allowed pool policy ≡ true
      → ((values : PolicyUpdate) → Allows values pool → Backed (Allows values) after.pools pool.id)
      → IsConsistent after
      → IsConsistent (update_policy_part now pool updated policy after).1
  unfolding update_policy_part
  policy_part pool updated none after allows backed k = k
  policy_part pool updated (some values) after allows backed k =
      update_realtime_policy-IsConsistent now pool.id values after (backed values allows) k

  update_found-IsConsistent :
      (payload : StockPoolUpdate) (code : String) (pool : StockPool)
      → get_pool code t ≡ some pool
      → IsConsistent (update_found now pool payload t).1
  unfolding update_found
  update_found-IsConsistent payload code pool e =
      elim (Bool-cases (pool.is_system && is_set payload.pool_name)) [
        | inl protected ↦ rw (update_found, protected) h
        | inr open_to ↦ elim (Option-cases (column_values payload)) [
          | inl null ↦ rw (update_found, open_to, null) h
          | inr (values, v) ↦
              elim (Bool-cases (realtime_policy_allowed pool payload.realtime_policy)) [
                | inl allows ↦
                    rw (update_found, open_to, v, allows)
                      (policy_part pool (Table.update_pool now pool.pool_code values t).0
                        payload.realtime_policy (Table.update_pool now pool.pool_code values t).1
                        allows
                        (λ w k.
                          update_pool-Backed (Allows w) pool.pool_code values pool.id
                            (changed-Allows w values) (found-Backed (Allows w) code t h e k))
                        (update_pool-IsConsistent now pool.pool_code values t h))
                | inr forbidden ↦ rw (update_found, open_to, v, forbidden) h
              ]
        ]
      ]

  set_policy-IsConsistent :
      (code : String) (values : PolicyUpdate)
      → IsConsistent (Service.update_realtime_policy now code values t).1
  unfolding Service.update_realtime_policy
  set_policy-IsConsistent code values = with_pool-keeps IsConsistent code t _ h (λ pool e.
      either-keeps IsConsistent (realtime_policy_allowed pool (some values)) _ _
        (λ allows.
          update_realtime_policy-IsConsistent now pool.id values t
            (found-Backed (Allows values) code t h e allows) h)
        (λ forbidden. h))

  known_codes :
      (codes : List Text)
      → select (λ c. not (is_one_of (existing_stock_codes codes t) c)) codes ≡ []
      → All (λ c. is_one_of t.stocks c ≡ true) codes
  unfolding existing_stock_codes is_one_of
  known_codes codes e =
      All-map_of (λ c. is_one_of (existing_stock_codes codes t) c ≡ true) _
        (λ c k. taken_from _ _ t.stocks k) codes (none_left _ codes e)

  add_codes-IsConsistent :
      (pool : StockPool) (codes : List Text)
      → Backed Editable t.pools pool.id
      → IsConsistent (add_codes now pool codes t).1
  unfolding add_codes
  add_codes-IsConsistent pool [] backed = h
  add_codes-IsConsistent pool (code ∷ codes) backed =
      let stock_codes = code ∷ codes in
      elim (List-cases
        (select (λ c. not (is_one_of (existing_stock_codes stock_codes t) c)) stock_codes)) [
          | inl known ↦
              rw (add_codes, known)
                (add_members-IsConsistent now pool.id
                  (select (λ c. not (is_one_of (existing_member_codes pool.id stock_codes t) c))
                    stock_codes)
                  t
                  (All-select (λ c. is_one_of t.stocks c ≡ true)
                    (λ c. not (is_one_of (existing_member_codes pool.id stock_codes t) c))
                    stock_codes (known_codes stock_codes known))
                  backed h)
          | inr (unknown, more, e) ↦ rw (add_codes, e) h
        ]

  add-IsConsistent :
      (code : String) (codes : List Text) → IsConsistent (Service.add_members now code codes t).1
  unfolding Service.add_members
  add-IsConsistent code codes = with_pool-keeps IsConsistent code t _ h (λ pool e.
      either-keeps IsConsistent pool.is_dynamic _ _ (λ ruled. h)
        (λ editable.
          add_codes-IsConsistent pool (unique (cleaned codes))
            (found-Backed Editable code t h e editable)))

  delete-IsConsistent : (code : String) → IsConsistent (Service.delete_pool code t).1
  unfolding Service.delete_pool
  delete-IsConsistent code = with_pool-keeps IsConsistent code t _ h (λ pool e.
      either-keeps IsConsistent pool.is_system _ _ (λ protected. h)
        (λ custom. delete_pool-IsConsistent code t h))

  remove-IsConsistent :
      (code : String) (stock_code : Text) → IsConsistent (Service.delete_member code stock_code t).1
  unfolding Service.delete_member
  remove-IsConsistent code stock_code = with_pool-keeps IsConsistent code t _ h (λ pool e.
      either-keeps IsConsistent pool.is_dynamic _ _ (λ ruled. h)
        (λ editable.
          either-keeps IsConsistent (Table.delete_member pool.id stock_code t).0 _ _
            (λ found. delete_member-IsConsistent pool.id stock_code t h) (λ missing. h)))

  after_call-IsConsistent : (c : Call) → IsConsistent (after_call now c t)
  unfolding Service.update_pool
  after_call-IsConsistent (create_pool payload) = create_pool-IsConsistent_call now payload t h
  after_call-IsConsistent (update_pool code payload) =
      with_pool-keeps IsConsistent code t _ h (update_found-IsConsistent payload code)
  after_call-IsConsistent (update_realtime_policy code values) = set_policy-IsConsistent code values
  after_call-IsConsistent (delete_pool code) = delete-IsConsistent code
  after_call-IsConsistent (add_members code codes) = add-IsConsistent code codes
  after_call-IsConsistent (delete_member code stock_code) = remove-IsConsistent code stock_code

-- Whatever calls the service answers, one behind the other, and whether they succeed or raise:
-- consistent tables stay consistent. Codes and ids are each a pool's own, a stock is in a pool once,
-- is a known stock, and is in no pool that a rule maintains, a pool has one policy at most, no row
-- belongs to a pool that is gone, and the policy of the whole market's pool is not enabled.
pub after_calls-IsConsistent :
    (calls : List (ℕ × Call)) (t : Tables) → IsConsistent t → IsConsistent (after_calls calls t)
after_calls-IsConsistent [] t h = h
after_calls-IsConsistent ((now, c) ∷ cs) t h =
    after_calls-IsConsistent cs (after_call now c t) (after_call-IsConsistent now t h c)
