-- ===== src/Targets/Market/Apart.antt =====
-- The pool of the whole market, from the calls of the stock pool service to the realtime targets.
use stock_center.Base.{
  ℕ, zero, suc, ◌≡◌, ◌≢◌, refl, sym, ap, ◌∙◌, true, false, some, List, [], ◌∷◌, All, All-map_of,
  map, Option-cases, inl, inr, ==_iff, String, str_eq, eq_iff, arith,
}
use stock_center.Base.Int.{ℤ}
use stock_center.Base.Fallible.{some-injective, none≢some}
use stock_center.Base.Slices.{Listed}
use stock_center.Base.Text.{Text, codes, codes-injective}
use stock_center.Scheduler.Store.{find}
use stock_center.StockPool.{
  StockPool, StockPoolRealtimePolicy, Tables, code_is, id_is, policy_of, get_pool,
  get_realtime_policy,
}
use stock_center.StockPool.Rows.{find-Distinct, find-holds, find-test, find_only, All-select}
use stock_center.StockPool.Service.{is_universe, realtime_policy_allowed}
use stock_center.StockPool.Consistent.{IsConsistent, Backed, Allows, same_id, same_code}
use stock_center.StockPool.Calls.{Call, after_calls}
use stock_center.StockPool.Consistent.Calls.{after_calls-IsConsistent}
use stock_center.Targets.{
  Pool, Kind, page_watch, strong, Membership, Target, Quote, Reference, takes_part,
  realtime_targets,
}
use stock_center.Targets.Merge.{
  Because, of_pool, of_page, of_market, Explained, realtime_targets-Explained,
}
use stock_center.Targets.Merge.Grouping.{All-sorted}
use stock_center.Targets.Market.{reference_pool, pool_reference, pool_before}

not_allowed :
    (p : StockPool) (y : StockPoolRealtimePolicy)
    → p.is_dynamic ≡ true
    → is_universe p.dynamic_rule ≡ true
    → Allows y.values p
    → y.values.is_enabled ≡ false
unfolding realtime_policy_allowed
not_allowed p y ruled whole allowed = ground (arith, ruled, whole, allowed)

-- The policy that is found of a pool allows the pool.
policy-Allows :
    (t : Tables) (code : String) (p : StockPool) (y : StockPoolRealtimePolicy)
    → IsConsistent t
    → get_pool code t ≡ some p
    → get_realtime_policy p.id t ≡ some y
    → Allows y.values p
unfolding get_pool get_realtime_policy
policy-Allows t code p y h found policy =
    let (q, by_id, allowed) =
      find-holds (λ y. Backed (Allows y.values) t.pools y.pool_id) (policy_of p.id) t.policies
        h.allowed policy in
    let owner : y.pool_id ≡ p.id =
      (==_iff y.pool_id p.id).0 (find-test (policy_of p.id) t.policies policy) in
    let itself = find-Distinct same_id (code_is code) t.pools (ground arith) h.ids found in
    let same : q ≡ p =
      some-injective (sym by_id ∙ ap (λ id. find (id_is id) t.pools) owner ∙ itself) in
    rw (← same) allowed

str_eq-flip : (a b : String) → str_eq a b ≡ str_eq b a
str_eq-flip a b = ground (arith, eq_iff a b, eq_iff b a)

All-get : {A : Type 0} (P : A → Type 0) (xs : List A) {x : A} → All P xs → Listed x xs → P x
All-get P [] all (i, e) = absurd (none≢some e)
All-get P (y ∷ xs) {x} all (zero, e) = let same : y ≡ x = some-injective e in rw (← same) all.0
All-get P (y ∷ xs) all (suc i, e) = All-get P xs all.1 (i, e)

All-image :
    {A B : Type 0} (P : B → Type 0) (f : A → B) (xs : List A)
    → All (λ x. P (f x)) xs
    → All P (map f xs)
All-image P f [] h = tt
All-image P f (x ∷ xs) h = (h.0, All-image P f xs h.1)

-- A pool that has the code of `p` takes no part.
abbrev Off : StockPool → Pool → Type 0
Off p q = q.pool_code ≡ codes p.pool_code → takes_part q ≡ false

module _ (strategy_members : List (String × Text)) (active : List Text) where
  -- The whole market's pool takes no part.
  reference_pool-off :
      (u : Tables) (code : String) (p : StockPool)
      → IsConsistent u
      → get_pool code u ≡ some p
      → p.is_dynamic ≡ true
      → is_universe p.dynamic_rule ≡ true
      → takes_part (reference_pool strategy_members active u p) ≡ false
  unfolding reference_pool
  reference_pool-off u code p h found ruled whole =
      elim (Option-cases (get_realtime_policy p.id u)) [
        | inl none_there ↦ rw (reference_pool, none_there) refl
        | inr (y, e) ↦
            let off = not_allowed p y ruled whole (policy-Allows u code p y h found e) in
            rw (reference_pool, e) (rw (off) refl)
      ]

  -- Nor does any pool of the reference with its code.
  pool_reference-Off :
      (u : Tables) (code : String) (p : StockPool)
      → IsConsistent u
      → get_pool code u ≡ some p
      → takes_part (reference_pool strategy_members active u p) ≡ false
      → All (Off p) (pool_reference strategy_members active u)
  unfolding pool_reference get_pool reference_pool
  pool_reference-Off u code p h found off =
      All-image (Off p) (reference_pool strategy_members active u) _ (
        All-sorted pool_before _ _ (
          All-select (λ q. Off p (reference_pool strategy_members active u q)) _ u.pools
            (All-map_of (λ q. str_eq q.pool_code p.pool_code ≡ true → q ≡ p)
              (λ q. Off p (reference_pool strategy_members active u q))
              (λ q only named.
                let same = only (
                  (eq_iff q.pool_code p.pool_code).1
                    (codes-injective q.pool_code p.pool_code named)) in
                rw (same) off)
              u.pools
              (find_only same_code (code_is code) u.pools
                (λ a b. str_eq-flip a.pool_code b.pool_code) h.codes found))))

-- A membership that has a cause is of a pool that takes part.
Because-apart :
    (limit : ℕ) (r : Reference) (p : StockPool) (code : Text) (m : Membership)
    → All (Off p) r.pools
    → Because limit r code m
    → m.kind ≢ Kind.pool (codes p.pool_code)
Because-apart limit r p code m off (of_pool q listed part member same) e =
    let in_it : Kind.pool q.pool_code ≡ Kind.pool (codes p.pool_code) =
      sym (ap (λ m. m.kind) same) ∙ e in
    let out = All-get (Off p) r.pools off listed cc in absurd (ground (arith, part, out))
Because-apart limit r p code m off (of_page member same) e =
    absurd
      (let no : page_watch ≡ Kind.pool (codes p.pool_code) = sym (ap (λ m. m.kind) same) ∙ e in cc)
Because-apart limit r p code m off (of_market member same) e =
    absurd (let no : strong ≡ Kind.pool (codes p.pool_code) = sym (ap (λ m. m.kind) same) ∙ e in cc)

-- From consistent tables, whatever calls the stock pool service has answered: in the reference of the
-- realtime runtime, the pool that holds the whole market by its rule takes no part, and whatever pages
-- are open and quotes came in, the merge gives targets of which none has a membership of that pool.
pub market-apart :
    (strategy_members : List (String × Text)) (active : List Text) (calls : List (ℕ × Call))
    (t : Tables) (code : String) (p : StockPool) (signal_score : Text → ℤ) (limit : ℕ)
    (page_targets : List Text) (quotes : List Quote)
    → IsConsistent t
    → get_pool code (after_calls calls t) ≡ some p
    → p.is_dynamic ≡ true
    → is_universe p.dynamic_rule ≡ true
    → let u = after_calls calls t in
      let r : Reference = record {
        active_codes = active;
        pools = pool_reference strategy_members active u;
        page_targets = page_targets;
        market_round_quotes = quotes;
      } in
      (takes_part (reference_pool strategy_members active u p) ≡ false)
      × ((ts : List Target) × (realtime_targets signal_score limit r ≡ some ts)
          × All (λ s. All (λ m. m.kind ≢ Kind.pool (codes p.pool_code)) s.memberships) ts)
market-apart strategy_members active calls t code p signal_score limit page_targets quotes h found
      ruled whole =
    let u = after_calls calls t in
    let r : Reference = record {
      active_codes = active;
      pools = pool_reference strategy_members active u;
      page_targets = page_targets;
      market_round_quotes = quotes;
    } in
    let consistent = after_calls-IsConsistent calls t h in
    let off = reference_pool-off strategy_members active u code p consistent found ruled whole in
    let all_off = pool_reference-Off strategy_members active u code p consistent found off in
    let (ts, e, _, _, explained, _) = realtime_targets-Explained signal_score limit r in
    (
      off,
      (
        ts,
        e,
        All-map_of (Explained limit r)
            (λ s. All (λ m. m.kind ≢ Kind.pool (codes p.pool_code)) s.memberships)
            (λ s x.
              All-map_of (Because limit r s.stock_code)
                (λ m. m.kind ≢ Kind.pool (codes p.pool_code))
                (λ m b. Because-apart limit r p s.stock_code m all_off b) s.memberships x.because)
            ts explained,
      ),
    )
