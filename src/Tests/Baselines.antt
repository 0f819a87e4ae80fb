-- ===== src/Tests/Baselines.antt =====
-- Examples for simulated trades and promotions.
use stock_center.Base.{ℕ, ◌≡◌, refl, true, some, List, [], ◌∷◌, leb, if◌then◌else◌, arith}
use stock_center.Base.Int.{pos}
use stock_center.Base.Json.{int, Fields, end, field}
use stock_center.Backtest.{SimulatedTrade, time_exit, simulate_next_open_daily_trade}
use stock_center.Backtest.Causal.{Timeline, simulate-Timeline, simulate-causal}
use stock_center.Backtest.Promotion.{
  backtest_ready, paper, StrategyVersion, Promotion, promoted, promote_version_to_paper,
}
use stock_center.Backtest.Promotion.Only.{Promoted, promote_version_to_paper-only}
use stock_center.Tests.Papers.{plain}

abbrev calendar : List ℕ
calendar = 1 ∷ 2 ∷ 3 ∷ 6 ∷ 7 ∷ []

abbrev flat : ℕ → Fields
flat d = field "open_price" (int (pos 10)) (field "close_price" (int (pos 10)) end)

-- The same facts up to date 6, and none behind it.
abbrev shorter : ℕ → Fields
shorter d = if leb d 6 then flat d else end

abbrev held_two_days : SimulatedTrade
held_two_days = record {
  entry_trade_date = 2;
  exit_trade_date = 6;
  entry_value = 100000000000000000;
  exit_value = 100000000000000000;
  holding_trade_days = 2;
  reason = time_exit;
}

simulate-Timeline_example : Timeline calendar 1 2 held_two_days
unfolding simulate_next_open_daily_trade
simulate-Timeline_example = simulate-Timeline plain calendar flat 0 1 2 end refl

simulate-causal_example :
    simulate_next_open_daily_trade plain calendar shorter 0 1 2 end ≡ some (some held_two_days)
unfolding simulate_next_open_daily_trade
simulate-causal_example =
    simulate-causal plain calendar flat shorter 0 1 2 end held_two_days
      (omega arith, (omega arith, (omega arith, (omega arith, tt))))
      (λ d h. let e : leb d 6 ≡ true = ground arith in rw (e) refl) refl

abbrev first_version : StrategyVersion
first_version = record {
  id = 4;
  strategy_id = 1;
  version_no = 1;
  status = paper;
  qualified_for_paper_review = true;
}

abbrev second_version : StrategyVersion
second_version = record {
  id = 5;
  strategy_id = 1;
  version_no = 2;
  status = backtest_ready;
  qualified_for_paper_review = true;
}

abbrev after_promotion : Promotion → List StrategyVersion
after_promotion (promoted versions) = versions
after_promotion p = []

promote_version_to_paper-only_example :
    Promoted 1 2
      (first_version ∷ second_version ∷ [])
      (after_promotion (promote_version_to_paper 1 2 (first_version ∷ second_version ∷ [])))
unfolding promote_version_to_paper
promote_version_to_paper-only_example =
    promote_version_to_paper-only 1 2 (first_version ∷ second_version ∷ []) refl
