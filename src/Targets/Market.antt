-- ===== src/Targets/Market.antt =====
-- python-back/app/modules/realtime_market/repository.py: the pools of the realtime runtime, read from the
-- tables of the stock pools. The candidates of strategies on paper, with the code of their pool, are
-- an argument.
pub mod Apart
use stock_center.Base.{
  ℕ, ◌≡◌, refl, sym, ap, ◌∙◌, Bool, true, false, not, Option, none, some, List, [], ◌∷◌, ◌++◌, map,
  select, All, All-map_of, Option-cases, Bool-cases, inl, inr, ltb, leb, ◌==◌, ◌&&◌, ◌||◌, String,
  str_eq, arith, if◌then◌else◌,
}
use stock_center.Base.Text.{Text, codes, text_leb}
use stock_center.Scheduler.Store.{find}
use stock_center.StockPool.{
  DynamicRule, active_a_share, strategy_candidates, other_rule, StockPool, Tables, PolicyUpdate,
  no_policy, is_one_of, get_realtime_policy,
}
use stock_center.StockPool.Service.{unique, is_universe, realtime_policy_allowed}
use stock_center.StockPool.Service as Service
use stock_center.Targets.{Pool, sorted, takes_part}

-- ORDER BY sort_order, pool_code
unfoldable pub pool_before : StockPool → StockPool → Bool
unfolding text_leb
pool_before a b =
    ltb a.sort_order b.sort_order
    || (a.sort_order == b.sort_order && text_leb (codes a.pool_code) (codes b.pool_code))

module _ (strategy_members : List (String × Text)) (active : List Text) where
  -- `member_map.get(pool.pool_code, [])`, of which the active ones are kept.
  unfoldable pub member_codes : StockPool → Tables → List Text
  unfolding select is_one_of
  member_codes p t = select (is_one_of active) (
      map (λ m. m.stock_code) (select (λ m. m.pool_id == p.id) t.members)
      ++ map (λ m. m.1) (select (λ m. str_eq m.0 p.pool_code) strategy_members))

  abbrev pub codes_by_rule : DynamicRule → List Text → List Text
  codes_by_rule active_a_share members = active
  codes_by_rule strategy_candidates members = Service.sorted (unique members)
  codes_by_rule (other_rule rule) members = members

  unfoldable pub reference_pool : Tables → StockPool → Pool
  unfolding member_codes get_realtime_policy
  reference_pool t p = record {
    pool_code = codes p.pool_code;
    realtime_policy = elim (get_realtime_policy p.id t) [ none ↦ no_policy | some y ↦ y.values ];
    stock_codes =
        codes_by_rule (if p.is_dynamic then p.dynamic_rule else other_rule none) (member_codes p t);
  }

  unfoldable pub pool_reference : Tables → List Pool
  unfolding reference_pool sorted pool_before select
  pool_reference t =
      map (reference_pool t) (sorted pool_before (select (λ p. p.is_enabled) t.pools))
