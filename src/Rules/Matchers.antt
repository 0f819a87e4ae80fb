-- ===== src/Rules/Matchers.antt =====
-- builtins.py: the eleven matchers. Each reads its facts, gives up where one is missing, and compares
-- them with the thresholds of the rule.
pub mod Boards
pub mod Audit
use stock_center.Base.{
  ℕ, ◌+◌, ◌-◌, Bool, true, false, not, Option, none, some, List, [], ◌∷◌, length, if◌then◌else◌,
  ◌&&◌, ◌||◌, String, leb,
}
use stock_center.Base.Int.{ℤ, pos, negsuc, ◌+ℤ◌, ◌*ℤ◌}
use stock_center.Base.Json.{Fields}
use stock_center.Paper.{Python}
use stock_center.Rules.{
  ◌>>=◌, Rule, Match, reason, or_missing, at_most, below, num, signal_number, max_num, min_num,
}

-- `history[:-1]` and `rows[-n:]`.
abbrev pub but_last {ℓ} : {A : Type ℓ} → List A → List A
but_last [] = []
but_last (x ∷ []) = []
but_last (x ∷ y ∷ ys) = x ∷ but_last (y ∷ ys)

unfoldable pub last_rows {ℓ} : {A : Type ℓ} → ℕ → List A → List A
last_rows n [] = []
last_rows n (x ∷ xs) = let rest = last_rows n xs in if leb (length (x ∷ xs)) n then x ∷ xs else rest

abbrev pub prior_rows : List Fields → List Fields
prior_rows history = last_rows 20 (but_last history)

-- `level * (1 + pct / 100)`, times a hundred millions.
abbrev pub raised : ℤ → ℤ → ℤ
raised level pct = level *ℤ (pos 100000000 +ℤ pct)

abbrev pub hundred_millions : ℤ → ℤ
hundred_millions z = z *ℤ pos 100000000

-- change_min <= change < change_max
abbrev pub within : ℤ → ℤ → ℤ → Bool
within least change limit = at_most least change && below change limit

module _ (py : Python) (current : Fields) (rule : Rule) where
  abbrev fact : String → Option ℤ
  fact key = num py current key

  abbrev limit : String → ℤ → ℤ
  limit key fallback = signal_number py rule key fallback

  -- The closing price's quotient by the old high, of the score, is not taken.
  unfoldable pub trend_breakout : List Fields → Match
  trend_breakout history = or_missing "trend_breakout_inputs" (do
    prior_high ← max_num py (prior_rows history) "high_price"
    close ← fact "close_price"
    change ← fact "change_pct"
    amount_ratio ← fact "amount_ratio"
    close_position ← fact "close_position"
    let change_ok =
        within (limit "change_min" (pos 2000000)) change (limit "change_max" (pos 9500000))
    let amount_ok = at_most (limit "amount_ratio_min" (pos 1500000)) amount_ratio
    let close_ok = at_most (limit "close_position_min" (pos 650000)) close_position
    some (record {
      matched = at_most prior_high close && change_ok && amount_ok && close_ok;
      reasons =
          reason "breakout_close" (at_most prior_high close)
          ∷ reason "breakout_change" change_ok
          ∷ reason "breakout_amount" amount_ok
          ∷ reason "breakout_close_position" close_ok
          ∷ [];
    }))

  unfoldable pub bullish_alignment : Match
  bullish_alignment = or_missing "bullish_alignment_inputs" (do
    close ← fact "close_price"
    ma5 ← fact "ma5"
    ma10 ← fact "ma10"
    ma20 ← fact "ma20"
    ma60 ← fact "ma60"
    volume_ratio ← fact "volume_ratio"
    change ← fact "change_pct"
    let alignment = below ma5 close && below ma10 ma5 && below ma20 ma10 && below ma60 ma20
    let change_ok = at_most (limit "change_min" (pos 1000000)) change
    let volume_ok = at_most (limit "volume_ratio_min" (pos 1200000)) volume_ratio
    some (record {
      matched = alignment && change_ok && volume_ok;
      reasons =
          reason "bullish_alignment" alignment
          ∷ reason "bullish_change" change_ok
          ∷ reason "bullish_volume" volume_ok
          ∷ [];
    }))

  unfoldable pub ma_golden_cross : Fields → Match
  ma_golden_cross previous = or_missing "ma_golden_cross_inputs" (do
    ma5 ← fact "ma5"
    ma10 ← fact "ma10"
    volume_ratio ← fact "volume_ratio"
    change ← fact "change_pct"
    prev_ma5 ← num py previous "ma5"
    prev_ma10 ← num py previous "ma10"
    let crossed = at_most prev_ma5 prev_ma10 && below ma10 ma5
    let change_ok = below (limit "change_min" (pos 0)) change
    let volume_ok = at_most (limit "volume_ratio_min" (pos 1200000)) volume_ratio
    some (record {
      matched = crossed && change_ok && volume_ok;
      reasons =
          reason "golden_cross" crossed
          ∷ reason "golden_cross_change" change_ok
          ∷ reason "golden_cross_volume" volume_ok
          ∷ [];
    }))

  unfoldable pub volume_price_surge : Match
  volume_price_surge = or_missing "volume_price_surge_inputs" (do
    change ← fact "change_pct"
    volume_ratio ← fact "volume_ratio"
    amount_ratio ← fact "amount_ratio"
    close_position ← fact "close_position"
    let change_ok =
        within (limit "change_min" (pos 3000000)) change (limit "change_max" (pos 9500000))
    let volume_ok = at_most (limit "volume_ratio_min" (pos 1800000)) volume_ratio
    let amount_ok = at_most (limit "amount_ratio_min" (pos 1500000)) amount_ratio
    let close_ok = at_most (limit "close_position_min" (pos 700000)) close_position
    some (record {
      matched = change_ok && volume_ok && amount_ok && close_ok;
      reasons =
          reason "surge_change" change_ok
          ∷ reason "surge_volume" volume_ok
          ∷ reason "surge_amount" amount_ok
          ∷ reason "surge_close_position" close_ok
          ∷ [];
    }))

  unfoldable pub high_turnover_surge : Match
  high_turnover_surge = or_missing "high_turnover_surge_inputs" (do
    change ← fact "change_pct"
    turnover ← fact "turnover_rate"
    close_position ← fact "close_position"
    main_inflow ← fact "main_net_inflow"
    main_ratio ← fact "main_net_ratio"
    let change_ok =
        within (limit "change_min" (pos 3000000)) change (limit "change_max" (pos 9500000))
    let turnover_ok = at_most (limit "turnover_rate_min" (pos 8000000)) turnover
    let inflow_ok = below (pos 0) main_inflow
    let ratio_ok = below (limit "main_net_ratio_min" (pos 0)) main_ratio
    let close_ok = at_most (limit "close_position_min" (pos 650000)) close_position
    some (record {
      matched = change_ok && turnover_ok && inflow_ok && ratio_ok && close_ok;
      reasons =
          reason "turnover_change" change_ok
          ∷ reason "turnover_rate" turnover_ok
          ∷ reason "turnover_main_flow" (inflow_ok && ratio_ok)
          ∷ reason "turnover_close_position" close_ok
          ∷ [];
    }))

  -- The position of the close is compared, and is no reason.
  unfoldable pub low_volatility_leader : Match
  low_volatility_leader = or_missing "low_volatility_leader_inputs" (do
    close ← fact "close_price"
    ma20 ← fact "ma20"
    volatility ← fact "volatility_20d"
    volume_ratio ← fact "volume_ratio"
    close_position ← fact "close_position"
    change ← fact "change_pct"
    let volatility_ok = at_most volatility (limit "volatility_20d_max" (pos 2500000))
    let change_ok = at_most (limit "change_min" (pos 2000000)) change
    let volume_ok = at_most (limit "volume_ratio_min" (pos 1300000)) volume_ratio
    let close_ok = at_most (limit "close_position_min" (pos 650000)) close_position
    some (record {
      matched = below ma20 close && volatility_ok && change_ok && volume_ok && close_ok;
      reasons =
          reason "low_vol_trend" (below ma20 close)
          ∷ reason "low_volatility" volatility_ok
          ∷ reason "low_vol_change" change_ok
          ∷ reason "low_vol_volume" volume_ok
          ∷ [];
    }))

  unfoldable pub pullback_ma20_bounce : Match
  pullback_ma20_bounce = or_missing "pullback_ma20_bounce_inputs" (do
    low ← fact "low_price"
    close ← fact "close_price"
    open_price ← fact "open_price"
    ma5 ← fact "ma5"
    ma10 ← fact "ma10"
    ma20 ← fact "ma20"
    volume_ratio ← fact "volume_ratio"
    close_position ← fact "close_position"
    let touched =
        at_most (hundred_millions low) (raised ma20 (limit "ma20_touch_pct" (pos 1000000)))
    let recovered = at_most ma20 close && below open_price close
    let trend_intact = at_most ma10 ma5 && at_most ma20 ma10
    let volume_ok = at_most (limit "volume_ratio_min" (pos 1000000)) volume_ratio
    let close_ok = at_most (limit "close_position_min" (pos 600000)) close_position
    some (record {
      matched = touched && recovered && trend_intact && volume_ok && close_ok;
      reasons =
          reason "ma20_touch" touched
          ∷ reason "ma20_recovery" recovered
          ∷ reason "ma20_trend" trend_intact
          ∷ reason "ma20_volume" volume_ok
          ∷ reason "ma20_close_position" close_ok
          ∷ [];
    }))

  unfoldable pub n_day_low_reversal : List Fields → Match
  n_day_low_reversal history = or_missing "n_day_low_reversal_inputs" (do
    prior_low ← min_num py (prior_rows history) "low_price"
    low ← fact "low_price"
    close ← fact "close_price"
    open_price ← fact "open_price"
    change ← fact "change_pct"
    close_position ← fact "close_position"
    volume_ratio ← fact "volume_ratio"
    let touched =
        at_most (hundred_millions low) (raised prior_low (limit "n_day_touch_pct" (pos 2000000)))
    let reversal =
        below open_price close
        && at_most (limit "change_min" (pos 2000000)) change
        && at_most (limit "close_position_min" (pos 700000)) close_position
    let volume_ok = at_most (limit "volume_ratio_min" (pos 1200000)) volume_ratio
    some (record {
      matched = touched && reversal && volume_ok;
      reasons =
          reason "low_reversal_touch" touched
          ∷ reason "low_reversal_price" reversal
          ∷ reason "low_reversal_volume" volume_ok
          ∷ [];
    }))
