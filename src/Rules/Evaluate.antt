-- ===== src/Rules/Evaluate.antt =====
-- builtins.py: evaluate_daily_candidate, with the rule and the risk resolved, and what it hands on.
use stock_center.Base.{
  ℕ, Bool, true, false, Option, none, some, List, [], ◌∷◌, if◌then◌else◌, String,
}
use Prim.Native.String as NativeString
use stock_center.Base.Int.{pos, negsuc}
use stock_center.Base.Json.{Value, bool, int, float, str, arr, obj, nil, cons, Fields, end, field}
use stock_center.Base.Fallible.{◌>>=◌}
use stock_center.Paper.{Python}
use stock_center.Rules.{
  Implementation, trend_breakout, bullish_alignment, ma_golden_cross, volume_price_surge,
  high_turnover_surge, low_volatility_leader, pullback_ma20_bounce, n_day_low_reversal,
  theme_first_board_relay, consecutive_limit_up_relay, broken_board_recovery, Context, Rule, Match,
  Reason, reason,
}
use stock_center.Rules.Checks.{
  SkipCode, unsupported_implementation, unsupported_exchange, st_excluded, bj_excluded,
  inactive_stock, listing_history_insufficient, amount_unavailable, liquidity_insufficient,
  market_emotion_unavailable, market_risk_on_below_threshold, market_stage_blocked,
  rule_not_matched, check_universe, check_market_gate,
}
use stock_center.Rules.Matchers as Day
use stock_center.Rules.Matchers.Boards as Boards

pub record EvaluationResult : Type 0 where
  pub matched : Bool
  pub reasons : List Reason
  pub entry_plan : Fields
  pub skip_code : Option SkipCode

-- Entry modes and holding limits, of _SPECS.
unfoldable pub entry_mode_of : Implementation → String
entry_mode_of theme_first_board_relay = "auction"
entry_mode_of consecutive_limit_up_relay = "auction"
entry_mode_of high_turnover_surge = "intraday"
entry_mode_of pullback_ma20_bounce = "intraday"
entry_mode_of broken_board_recovery = "intraday"
entry_mode_of i = "open"

unfoldable pub max_holding_of : Implementation → ℕ
max_holding_of trend_breakout = 5
max_holding_of bullish_alignment = 5
max_holding_of low_volatility_leader = 5
max_holding_of ma_golden_cross = 4
max_holding_of pullback_ma20_bounce = 4
max_holding_of volume_price_surge = 3
max_holding_of high_turnover_surge = 3
max_holding_of n_day_low_reversal = 3
max_holding_of i = 2

abbrev leg : ℕ → ℕ → Value
leg trigger ratio =
    obj (
      field "trigger_return_pct" (float (pos trigger)) (field "sell_ratio" (float (pos ratio)) end))

-- default_risk_config, for the days of its spec.
abbrev pub risk_config_for : ℕ → Fields
risk_config_for days = field "max_holding_trade_days" (int (pos days)) (
    field "initial_quantity" (int (pos 1000)) (
      field "hard_stop_loss_pct" (float (negsuc 3999999)) (
        field "take_profit_legs" (arr (cons (leg 5000000 500000) (cons (leg 8000000 1000000) nil)))
          (field "trailing_stop"
            (obj (
              field "activate_return_pct" (float (pos 6000000))
                (field "drawdown_pct" (float (pos 3000000)) end)))
            (field "time_exit"
              (obj (field "enabled" (bool true) (field "trade_days" (int (pos days)) end)))
              (field "t_plus_one" (bool true) end))))))

unfoldable pub default_risk_config : Implementation → Fields
unfolding max_holding_of
default_risk_config i = risk_config_for (max_holding_of i)

-- _entry_plan, without the disclaimer's text.
unfoldable pub entry_plan_of : Implementation → Rule → Fields → Fields
unfolding entry_mode_of
entry_plan_of i rule risk = field "entry_mode" (str (entry_mode_of i)) (
    field "confirmation" (obj rule.entry_confirmation)
      (field "risk_plan" (obj risk) (field "t_plus_one" (bool true) end)))

-- The texts of the codes.
abbrev pub skip_text : SkipCode → String
skip_text unsupported_implementation = "unsupported_implementation"
skip_text unsupported_exchange = "unsupported_exchange"
skip_text st_excluded = "st_excluded"
skip_text bj_excluded = "bj_excluded"
skip_text inactive_stock = "inactive_stock"
skip_text listing_history_insufficient = "listing_history_insufficient"
skip_text amount_unavailable = "amount_unavailable"
skip_text liquidity_insufficient = "liquidity_insufficient"
skip_text market_emotion_unavailable = "market_emotion_unavailable"
skip_text market_risk_on_below_threshold = "market_risk_on_below_threshold"
skip_text (market_stage_blocked stage) = NativeString.◌++◌ "market_stage_blocked:" stage
skip_text rule_not_matched = "rule_not_matched"

-- _skip, whose only reason is the code itself.
abbrev pub skip_result : SkipCode → EvaluationResult
skip_result code = record {
  matched = false;
  reasons = reason (skip_text code) false ∷ [];
  entry_plan = end;
  skip_code = some code;
}

-- context.get("previous") or (history[-2] if len(history) >= 2 else {})
abbrev pub one_before_last : List Fields → Fields
one_before_last [] = end
one_before_last (x ∷ []) = end
one_before_last (x ∷ y ∷ []) = x
one_before_last (x ∷ y ∷ z ∷ zs) = one_before_last (y ∷ z ∷ zs)

abbrev pub previous_of : Fields → List Fields → Fields
previous_of end history = one_before_last history
previous_of (field k v fs) history = field k v fs

module _ (py : Python) (c : Context) (rule : Rule) where
  -- _MATCHERS
  unfoldable pub matcher : Implementation → Match
  unfolding Day.trend_breakout Day.bullish_alignment Day.ma_golden_cross Day.volume_price_surge
      Day.high_turnover_surge Day.low_volatility_leader Day.pullback_ma20_bounce
      Day.n_day_low_reversal Boards.theme_first_board_relay Boards.consecutive_limit_up_relay
      Boards.broken_board_recovery
  matcher trend_breakout = Day.trend_breakout py c.current rule c.history
  matcher bullish_alignment = Day.bullish_alignment py c.current rule
  matcher ma_golden_cross = Day.ma_golden_cross py c.current rule (previous_of c.previous c.history)
  matcher volume_price_surge = Day.volume_price_surge py c.current rule
  matcher high_turnover_surge = Day.high_turnover_surge py c.current rule
  matcher low_volatility_leader = Day.low_volatility_leader py c.current rule
  matcher pullback_ma20_bounce = Day.pullback_ma20_bounce py c.current rule
  matcher n_day_low_reversal = Day.n_day_low_reversal py c.current rule c.history
  matcher theme_first_board_relay = Boards.theme_first_board_relay py c rule
  matcher consecutive_limit_up_relay = Boards.consecutive_limit_up_relay py c rule
  matcher broken_board_recovery = Boards.broken_board_recovery py c rule

  abbrev pub conclude : Implementation → Fields → Match → EvaluationResult
  conclude i risk m =
      if m.matched
      then record {
        matched = true;
        reasons = m.reasons;
        entry_plan = entry_plan_of i rule risk;
        skip_code = none;
      }
      else record {
        matched = false;
        reasons = m.reasons;
        entry_plan = end;
        skip_code = some rule_not_matched;
      }

  -- A stock that the universe and the gate let through is matched.
  abbrev pub at_gate : Implementation → Fields → Option SkipCode → EvaluationResult
  at_gate i risk (some code) = skip_result code
  at_gate i risk none = conclude i risk (matcher i)

  abbrev pub in_universe : Implementation → Fields → Option SkipCode → EvaluationResult
  in_universe i risk (some code) = skip_result code
  in_universe i risk none = at_gate i risk (check_market_gate py c.emotion rule)

  -- The implementation is `none` where the code names none; a check that raises gives `none`.
  unfoldable pub evaluate_daily_candidate : Option Implementation → Fields → Option EvaluationResult
  unfolding check_universe check_market_gate matcher entry_plan_of
  evaluate_daily_candidate none risk = some (skip_result unsupported_implementation)
  evaluate_daily_candidate (some i) risk =
      check_universe py c rule >>= λ code. some (in_universe i risk code)
