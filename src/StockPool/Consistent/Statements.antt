-- ===== src/StockPool/Consistent/Statements.antt =====
-- Each statement on the tables of pools keeps them consistent, under what the service checks before.
use stock_center.Base.{
  ℕ, ◌+◌, ◌<◌, ◌≡◌, refl, true, false, not, none, List, [], ◌∷◌, ◌++◌, All, All-append, All-map_of,
  Bool-cases, inl, inr, ◌&&◌, select, arith, String,
}
use stock_center.Base.Text.{Text}
use stock_center.Scheduler.Store.{update_where}
use stock_center.Scheduler.Store.Rows.{All-update_where}
use stock_center.StockPool.{
  StockPool, StockPoolMember, Tables, PoolValues, code_is, is_unset, changed, goes_with, is_one_of,
  get_pool, create_pool, update_pool, delete_pool, is_member, add_members, delete_member,
}
use stock_center.StockPool.Service.{realtime_policy_allowed}
use stock_center.StockPool.Rows.{
  Distinct-append, Distinct-select, Distinct-update_where, All-select, All-select_test, All-both,
  find-none, none_of,
}
use stock_center.StockPool.Consistent.{
  same_code, same_id, same_owner, same_member, Backed, Editable, Allows, IsConsistent,
  Backed-append, Backed-changed, Backed-stays,
}

pub create_pool-IsConsistent :
    (values : StockPool) (t : Tables)
    → get_pool values.pool_code t ≡ none
    → IsConsistent t
    → IsConsistent (create_pool values t).1
unfolding create_pool get_pool
create_pool-IsConsistent values t absent h =
    let pool = record values { id = t.pool_sequence } in
    record {
      codes = Distinct-append same_code t.pools pool h.codes (find-none _ t.pools absent);
      ids = Distinct-append same_id t.pools pool h.ids (
          All-map_of (λ p. p.id < t.pool_sequence) (λ p. same_id p pool ≡ false)
            (λ p k. ground (arith, k)) t.pools h.fresh);
      fresh =
          All-append _ t.pools (pool ∷ [])
            (All-map_of (λ p. p.id < t.pool_sequence) (λ p. p.id < t.pool_sequence + 1)
              (λ p k. omega (arith, k)) t.pools h.fresh)
            (omega arith, tt);
      memberships = h.memberships;
      known = h.known;
      editable =
          All-map_of _ _ (λ m. Backed-append Editable t.pools pool m.pool_id) t.members h.editable;
      owners = h.owners;
      allowed =
          All-map_of _ _ (λ y. Backed-append (Allows y.values) t.pools pool y.pool_id) t.policies
            h.allowed;
    }

changed-IsConsistent :
    (now : ℕ) (code : String) (values : PoolValues) (t : Tables)
    → IsConsistent t
    → IsConsistent (record t { pools = update_where (code_is code) (changed now values) t.pools })
unfolding realtime_policy_allowed
changed-IsConsistent now code values t h = record {
  codes =
      Distinct-update_where same_code (code_is code) (changed now values) (λ a b. refl)
        (λ a b. refl) t.pools h.codes;
  ids =
      Distinct-update_where same_id (code_is code) (changed now values) (λ a b. refl) (λ a b. refl)
        t.pools h.ids;
  fresh =
      All-update_where (code_is code) (changed now values) (λ p. p.id < t.pool_sequence)
        (λ p k own. k) t.pools h.fresh;
  memberships = h.memberships;
  known = h.known;
  editable =
      All-map_of (λ m. Backed Editable t.pools m.pool_id) _
        (λ m. Backed-changed Editable now code values t.pools m.pool_id (λ p k. k)) t.members
        h.editable;
  owners = h.owners;
  allowed =
      All-map_of (λ y. Backed (Allows y.values) t.pools y.pool_id) _
        (λ y. Backed-changed (Allows y.values) now code values t.pools y.pool_id (λ p k. k))
        t.policies h.allowed;
}

pub update_pool-IsConsistent :
    (now : ℕ) (code : String) (values : PoolValues) (t : Tables)
    → IsConsistent t
    → IsConsistent (update_pool now code values t).1
unfolding update_pool
update_pool-IsConsistent now code values t h =
    elim (Bool-cases
      (is_unset values.pool_name && (is_unset values.description && is_unset values.is_enabled))) [
        | inl e ↦ rw (e) h
        | inr e ↦ rw (e) (changed-IsConsistent now code values t h)
      ]

pub delete_pool-IsConsistent :
    (code : String) (t : Tables) → IsConsistent t → IsConsistent (delete_pool code t).1
unfolding delete_pool
delete_pool-IsConsistent code t h = record {
  codes = Distinct-select same_code _ t.pools h.codes;
  ids = Distinct-select same_id _ t.pools h.ids;
  fresh = All-select _ _ t.pools h.fresh;
  memberships = Distinct-select same_member _ t.members h.memberships;
  known = All-select _ _ t.members h.known;
  editable =
      All-both (λ m. not (goes_with code t.pools m.pool_id) ≡ true)
        (λ m. Backed Editable t.pools m.pool_id) _
        (λ m. Backed-stays Editable code t.pools m.pool_id)
        (select (λ m. not (goes_with code t.pools m.pool_id)) t.members)
        (All-select_test _ t.members) (All-select _ _ t.members h.editable);
  owners = Distinct-select same_owner _ t.policies h.owners;
  allowed =
      All-both (λ y. not (goes_with code t.pools y.pool_id) ≡ true)
        (λ y. Backed (Allows y.values) t.pools y.pool_id) _
        (λ y. Backed-stays (Allows y.values) code t.pools y.pool_id)
        (select (λ y. not (goes_with code t.pools y.pool_id)) t.policies)
        (All-select_test _ t.policies) (All-select _ _ t.policies h.allowed);
}

pub delete_member-IsConsistent :
    (pool_id : ℕ) (code : Text) (t : Tables)
    → IsConsistent t
    → IsConsistent (delete_member pool_id code t).1
unfolding delete_member
delete_member-IsConsistent pool_id code t h = record {
  codes = h.codes;
  ids = h.ids;
  fresh = h.fresh;
  memberships = Distinct-select same_member _ t.members h.memberships;
  known = All-select _ _ t.members h.known;
  editable = All-select _ _ t.members h.editable;
  owners = h.owners;
  allowed = h.allowed;
}

add_member-IsConsistent :
    (row : StockPoolMember) (t : Tables)
    → is_member row.pool_id row.stock_code t ≡ false
    → is_one_of t.stocks row.stock_code ≡ true
    → Backed Editable t.pools row.pool_id
    → IsConsistent t
    → IsConsistent (record t { members = t.members ++ row ∷ [] })
unfolding is_member
add_member-IsConsistent row t absent stock backed h = record {
  codes = h.codes;
  ids = h.ids;
  fresh = h.fresh;
  memberships =
      Distinct-append same_member t.members row h.memberships (none_of _ t.members absent);
  known = All-append _ t.members (row ∷ []) h.known (stock, tt);
  editable = All-append _ t.members (row ∷ []) h.editable (backed, tt);
  owners = h.owners;
  allowed = h.allowed;
}

pub add_members-IsConsistent :
    (now pool_id : ℕ) (codes : List Text) (t : Tables)
    → All (λ c. is_one_of t.stocks c ≡ true) codes
    → Backed Editable t.pools pool_id
    → IsConsistent t
    → IsConsistent (add_members now pool_id codes t).1
unfolding add_members
add_members-IsConsistent now pool_id [] t stocks backed h = h
add_members-IsConsistent now pool_id (code ∷ codes) t stocks backed h =
    let row : StockPoolMember = record { pool_id = pool_id; stock_code = code; created_at = now } in
    elim (Bool-cases (is_member pool_id code t)) [
      | inl here ↦ rw (here) (add_members-IsConsistent now pool_id codes t stocks.1 backed h)
      | inr absent ↦ rw (absent) (
          add_members-IsConsistent now pool_id codes (record t { members = t.members ++ row ∷ [] })
            stocks.1 backed (add_member-IsConsistent row t absent stocks.0 backed h))
    ]
