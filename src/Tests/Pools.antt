-- ===== src/Tests/Pools.antt =====
-- Examples for the stock pools.
use stock_center.Base.Int.{pos}
use stock_center.Base.{ℕ, All, ◌≢◌, ◌≡◌, refl, true, false, none, some, List, [], ◌∷◌, arith}
use stock_center.Base.Text.{Text, codes}
use stock_center.StockPool.{active_a_share, other_rule, StockPool, Tables, get_pool}
use stock_center.Targets.{takes_part, Reference, Target, Kind, realtime_targets}
use stock_center.Targets.Market.{reference_pool, pool_reference}
use stock_center.Targets.Market.Apart.{market-apart}
use stock_center.StockPool.Service as Service
use stock_center.StockPool.Service.{ok, BatchResult, unique, cleaned, add_members}
use stock_center.StockPool.Consistent.{IsConsistent}
use stock_center.StockPool.Calls.{Call, create_pool, delete_pool, delete_member, after_calls}
use stock_center.StockPool.Consistent.Calls.{after_calls-IsConsistent}
use stock_center.StockPool.Calls as Calls
use stock_center.StockPool.Protected.{after_calls-Keeps}
use stock_center.StockPool.Protected.Statements.{Keeps}
use stock_center.StockPool.Members.{Added, add_members-Added}

abbrev whole_market : StockPool
whole_market = record {
  id = 1;
  pool_code = "active_a_share";
  pool_name = "whole market";
  pool_type = "monitor";
  description = none;
  is_system = true;
  is_enabled = true;
  is_dynamic = true;
  dynamic_rule = active_a_share;
  sort_order = 1;
  created_at = 0;
  updated_at = 0;
}

abbrev watch : StockPool
watch = record whole_market {
  id = 2;
  pool_code = "watch";
  is_system = false;
  is_dynamic = false;
  dynamic_rule = other_rule none;
}

abbrev two_pools : Tables
two_pools = record {
  pools = whole_market ∷ watch ∷ [];
  members = [];
  policies = [];
  pool_sequence = 3;
  stocks = codes "600000" ∷ codes "000001" ∷ [];
}

abbrev some_calls : List (ℕ × Call)
some_calls =
    (5, Calls.add_members "watch" (codes " 600000" ∷ codes "600000" ∷ []))
    ∷ (6, delete_pool "active_a_share")
    ∷ (
      7,
      create_pool (record {
        pool_code = "mine";
        pool_name = "mine";
        description = none;
        realtime_policy = none;
      }),
    )
    ∷ (8, delete_member "watch" (codes "600000"))
    ∷ []

two_pools-IsConsistent : IsConsistent two_pools
two_pools-IsConsistent = record {
  codes = ((refl, tt), (tt, tt));
  ids = ((refl, tt), (tt, tt));
  fresh = omega arith;
  memberships = tt;
  known = tt;
  editable = tt;
  owners = tt;
  allowed = tt;
}

after_calls-IsConsistent_example : IsConsistent (after_calls some_calls two_pools)
after_calls-IsConsistent_example =
    after_calls-IsConsistent some_calls two_pools two_pools-IsConsistent

market_found : get_pool "active_a_share" two_pools ≡ some whole_market
unfolding get_pool
market_found = refl

after_calls-Keeps_example : Keeps "active_a_share" whole_market (after_calls some_calls two_pools)
after_calls-Keeps_example =
    after_calls-Keeps "active_a_share" some_calls two_pools refl market_found

abbrev batch : List Text
batch = codes " 000001 " ∷ codes "600000" ∷ codes "000001" ∷ []

abbrev added : BatchResult
added = record {
  added_count = 2;
  existing_codes = [];
  stock_codes = codes "000001" ∷ codes "600000" ∷ [];
}

abbrev filled : Tables
filled = record two_pools {
  members =
      record { pool_id = 2; stock_code = codes "000001"; created_at = 5 }
      ∷ record { pool_id = 2; stock_code = codes "600000"; created_at = 5 }
      ∷ [];
}

batch-added : add_members 5 "watch" batch two_pools ≡ (ok added, filled)
unfolding add_members
batch-added = refl

add_members-Added_example :
    (pool : StockPool) × (get_pool "watch" two_pools ≡ some pool)
    × (pool.is_dynamic ≡ false)
    × Added pool two_pools added filled
    × (added.stock_codes ≡ unique (cleaned batch))
add_members-Added_example = add_members-Added 5 "watch" batch two_pools added filled batch-added

still_there : get_pool "active_a_share" (after_calls some_calls two_pools) ≡ some whole_market
unfolding get_pool Service.create_pool Service.add_members Service.delete_pool Service.delete_member
still_there = refl

abbrev watching : Reference
watching = record {
  active_codes = codes "600000" ∷ [];
  pools = pool_reference [] (codes "600000" ∷ []) (after_calls some_calls two_pools);
  page_targets = codes "600000" ∷ [];
  market_round_quotes = [];
}

market-apart_example :
    (takes_part
        (reference_pool [] (codes "600000" ∷ []) (after_calls some_calls two_pools) whole_market)
      ≡ false)
    × ((ts : List Target) × (realtime_targets (λ c. pos 0) 5 watching ≡ some ts)
        × All (λ s. All (λ m. m.kind ≢ Kind.pool (codes "active_a_share")) s.memberships) ts)
market-apart_example =
    market-apart [] (codes "600000" ∷ []) some_calls two_pools "active_a_share" whole_market
      (λ c. pos 0) 5 (codes "600000" ∷ []) [] two_pools-IsConsistent still_there refl refl
