-- ===== src/Tests/Research.antt =====
-- Examples for the parameter research.
use stock_center.Base.{ℕ, ◌+◌, ◌<◌, ◌≡◌, refl, some, List, [], ◌∷◌, arith, length}
use stock_center.Base.Int.{pos}
use stock_center.Base.Json.{end}
use stock_center.Optimization.{
  OptimizationRequirements, Trade, split_train_end_date, train_of, validation_of,
}
use stock_center.Optimization.Split.{split_train_end_date-sides}

abbrev requirements : OptimizationRequirements
requirements = record {
  ratio_num = 7;
  ratio_den = 10;
  min_train_trades = 1;
  min_validation_trades = 1;
  min_train_signal_days = 2;
  min_validation_signal_days = 1;
  min_train_win_rate_pct = pos 48000000;
  min_validation_win_rate_pct = pos 50000000;
  min_average_return_pct = pos 0;
  max_win_rate_drift_pct = pos 8000000;
}

abbrev on : ℕ → Trade
on d = record { signal_trade_date = d; candidate_snapshot = end }

abbrev trades : List Trade
trades = on 5 ∷ on 3 ∷ on 9 ∷ on 3 ∷ []

split_at_five : split_train_end_date trades requirements ≡ some 5
unfolding split_train_end_date
split_at_five = refl

split_train_end_date-sides_example :
    (0 < length (train_of 5 trades))
    × (0 < length (validation_of 5 trades))
    × (length (train_of 5 trades) + length (validation_of 5 trades) ≡ length trades)
split_train_end_date-sides_example =
    split_train_end_date-sides trades requirements 5 split_at_five (omega arith)
