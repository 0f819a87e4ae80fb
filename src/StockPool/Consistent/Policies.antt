-- ===== src/StockPool/Consistent/Policies.antt =====
-- The statements on the policies of pools keep the tables consistent.
use stock_center.Base.{
  ℕ, ◌≡◌, refl, ap, ◌∙◌, Option, none, some, [], ◌∷◌, ◌++◌, All-append, Option-cases, ==_iff, inl,
  inr, arith,
}
use stock_center.Scheduler.Store.{find, update_where}
use stock_center.Scheduler.Store.Rows.{All-update_where}
use stock_center.StockPool.{
  StockPool, StockPoolRealtimePolicy, PolicyUpdate, Tables, id_is, policy_of, no_policy,
  get_realtime_policy, create_realtime_policy, update_realtime_policy,
}
use stock_center.StockPool.Service.{realtime_policy_allowed}
use stock_center.StockPool.Rows.{Distinct-append, Distinct-update_where, find-none}
use stock_center.StockPool.Consistent.{same_owner, Backed, Allows, IsConsistent}

add_policy-IsConsistent :
    (row : StockPoolRealtimePolicy) (t : Tables)
    → get_realtime_policy row.pool_id t ≡ none
    → Backed (Allows row.values) t.pools row.pool_id
    → IsConsistent t
    → IsConsistent (record t { policies = t.policies ++ row ∷ [] })
unfolding get_realtime_policy
add_policy-IsConsistent row t absent backed h = record {
  codes = h.codes;
  ids = h.ids;
  fresh = h.fresh;
  memberships = h.memberships;
  known = h.known;
  editable = h.editable;
  owners = Distinct-append same_owner t.policies row h.owners (find-none _ t.policies absent);
  allowed = All-append _ t.policies (row ∷ []) h.allowed (backed, tt);
}

abbrev pub policy_values : Option PolicyUpdate → PolicyUpdate
policy_values none = no_policy
policy_values (some values) = values

new_policy-IsConsistent :
    (now pool_id : ℕ) (values : Option PolicyUpdate) (t : Tables)
    → get_realtime_policy pool_id t ≡ none
    → Backed (Allows (policy_values values)) t.pools pool_id
    → IsConsistent t
    → IsConsistent (record t {
      policies =
          t.policies
          ++ record {
            pool_id = pool_id;
            values = elim values [ none ↦ no_policy | some v ↦ v ];
            updated_at = now;
          }
            ∷ [];
    })
new_policy-IsConsistent now pool_id none t absent backed h =
    add_policy-IsConsistent _ t absent backed h
new_policy-IsConsistent now pool_id (some v) t absent backed h =
    add_policy-IsConsistent _ t absent backed h

not_enabled : (pool : StockPool) → Allows no_policy pool
unfolding realtime_policy_allowed
not_enabled pool = ground arith

pub create_realtime_policy-IsConsistent :
    (now pool_id : ℕ) (values : Option PolicyUpdate) (t : Tables)
    → Backed (Allows (policy_values values)) t.pools pool_id
    → IsConsistent t
    → IsConsistent (create_realtime_policy now pool_id values t).1
unfolding create_realtime_policy
create_realtime_policy-IsConsistent now pool_id values t backed h =
    elim (Option-cases (get_realtime_policy pool_id t)) [
      | inl absent ↦
          rw (create_realtime_policy, absent)
            (new_policy-IsConsistent now pool_id values t absent backed h)
      | inr (row, e) ↦ rw (create_realtime_policy, e) h
    ]

pub create_realtime_policy-pools :
    (now pool_id : ℕ) (values : Option PolicyUpdate) (t : Tables)
    → (create_realtime_policy now pool_id values t).1.pools ≡ t.pools
unfolding create_realtime_policy
create_realtime_policy-pools now pool_id values t =
    elim (Option-cases (get_realtime_policy pool_id t)) [
      | inl absent ↦ rw (create_realtime_policy, absent) refl
      | inr (row, e) ↦ rw (create_realtime_policy, e) refl
    ]

set_policies-IsConsistent :
    (now pool_id : ℕ) (values : PolicyUpdate) (t : Tables)
    → Backed (Allows values) t.pools pool_id
    → IsConsistent t
    → IsConsistent (record t {
      policies =
          update_where
            (policy_of pool_id)
            (λ y. record y { values = values; updated_at = now })
            t.policies;
    })
set_policies-IsConsistent now pool_id values t backed h = record {
  codes = h.codes;
  ids = h.ids;
  fresh = h.fresh;
  memberships = h.memberships;
  known = h.known;
  editable = h.editable;
  owners =
      Distinct-update_where same_owner (policy_of pool_id)
        (λ y. record y { values = values; updated_at = now }) (λ a b. refl) (λ a b. refl) t.policies
        h.owners;
  allowed =
      All-update_where (policy_of pool_id) (λ y. record y { values = values; updated_at = now })
        (λ y. Backed (Allows y.values) t.pools y.pool_id)
        (λ y k own. rw ((==_iff y.pool_id pool_id).0 own) backed) t.policies h.allowed;
}

pub update_realtime_policy-IsConsistent :
    (now pool_id : ℕ) (values : PolicyUpdate) (t : Tables)
    → Backed (Allows values) t.pools pool_id
    → IsConsistent t
    → IsConsistent (update_realtime_policy now pool_id values t).1
unfolding update_realtime_policy
update_realtime_policy-IsConsistent now pool_id values t (pool, e, allows) h =
    let there = create_realtime_policy now pool_id none t in
    let same = create_realtime_policy-pools now pool_id none t in
    set_policies-IsConsistent now pool_id values there.1
      (pool, ap (find (id_is pool_id)) same ∙ e, allows)
      (create_realtime_policy-IsConsistent now pool_id none t (pool, e, not_enabled pool) h)
