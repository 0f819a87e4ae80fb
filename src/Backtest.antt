-- ===== src/Backtest.antt =====
-- python-back/app/modules/strategy_center/service.py: the simulated trade of a historical baseline. A signal
-- on a date is bought at the next open, and sold at the open behind the first close that an exit
-- confirms. Prices are millionths, and are scaled by ten thousand millions where slippage enters.
-- The returns, rounded quotients of the two values, are left out.
pub mod Causal
pub mod Fast
pub mod Promotion
use stock_center.Base.{
  ℕ, zero, suc, ◌+◌, ◌-◌, ◌*◌, Bool, true, false, Option, none, some, List, [], ◌∷◌, length,
  get_elem?, leb, ltb, ◌==◌, if◌then◌else◌, ◌&&◌, String, max, min,
}
use stock_center.Base.Int.{ℤ, pos, negsuc, leb_ℤ, sub_ℕ}
use stock_center.Base.Json.{Value, obj, Items, nil, cons, Fields, get_or_null}
use stock_center.Base.Fallible.{◌>>=◌}
use stock_center.Scheduler.Payload.{to_float}
use stock_center.Paper.{Python, scale, change, number, dict_or_empty, float_or}
use stock_center.Paper.Exits.{legs_of, return_at_most, return_at_least}

pub data ExitReason : Type 0 where
  hard_stop take_profit trailing_stop time_exit : ExitReason

-- What the loop compares with: the percentages of the plan and the days that a trade is held.
pub record ExitPlan : Type 0 where
  pub stop_loss : ℤ
  pub take_profit_pct : Option ℤ
  pub activate_return : ℤ
  pub trailing_drawdown : ℤ
  pub max_holding : ℕ

abbrev pub less_of : Option ℤ → Option ℤ → Option ℤ
less_of none b = b
less_of (some a) none = some a
less_of (some a) (some b) = some (if leb_ℤ a b then a else b)

-- The threshold of a leg that has one.
abbrev pub threshold : Python → Value → Option ℤ
threshold py (obj leg) = to_float py.float_text (get_or_null "trigger_return_pct" leg)
threshold py v = none

unfoldable pub least_threshold : Python → Items → Option ℤ
unfolding to_float get_or_null
least_threshold py nil = none
least_threshold py (cons v vs) = less_of (threshold py v) (least_threshold py vs)

-- _first_take_profit_pct
unfoldable pub first_take_profit_pct : Python → Fields → Option (Option ℤ)
unfolding legs_of get_or_null least_threshold
first_take_profit_pct py risk =
    legs_of (get_or_null "take_profit_legs" risk) >>= λ legs. some (least_threshold py legs)

unfoldable pub exit_plan : Python → Fields → ℕ → Option ExitPlan
unfolding float_or get_or_null first_take_profit_pct dict_or_empty
exit_plan py risk max_holding =
    float_or py (get_or_null "hard_stop_loss_pct" risk) (negsuc 3999999) >>= λ stop_loss.
    first_take_profit_pct py risk >>= λ take_profit_pct.
    dict_or_empty (get_or_null "trailing_stop" risk) >>= λ trailing.
    float_or py (get_or_null "activate_return_pct" trailing) (pos 6000000) >>= λ activate_return.
    float_or py (get_or_null "drawdown_pct" trailing) (pos 3000000) >>= λ trailing_drawdown.
    some (record {
      stop_loss = stop_loss;
      take_profit_pct = take_profit_pct;
      activate_return = activate_return;
      trailing_drawdown = trailing_drawdown;
      max_holding = max_holding;
    })

abbrev pub reaches : ℕ → ℕ → Option ℤ → Bool
reaches close entry none = false
reaches close entry (some pct) = return_at_least close entry pct

-- The exit that a close confirms, if one does, `held` being the number of the close's day.
unfoldable pub exit_reason : ExitPlan → ℕ → ℕ → ℕ → ℕ → Option ExitReason
exit_reason plan entry highest close held =
    if return_at_most close entry plan.stop_loss
    then some hard_stop
    else if reaches close entry plan.take_profit_pct
    then some take_profit
    else if return_at_least highest entry plan.activate_return
        && leb_ℤ (scale highest plan.trailing_drawdown)
            (sub_ℕ (highest * 100000000) (close * 100000000))
    then some trailing_stop
    else if leb plan.max_holding held
    then some time_exit
    else none

-- The loop over the days after the entry, as many as `left`: `held` counts them from 1. Its result
-- is the number of the day whose close confirms an exit. A day without a close is passed over.
unfoldable pub exit_walk : ExitPlan → ℕ → (ℕ → Option ℕ) → ℕ → ℕ → ℕ → Option (ℕ × ExitReason)
unfolding exit_reason
exit_walk plan entry closes zero held highest = none
exit_walk plan entry closes (suc left) held highest = elim (closes held) [
  | none ↦ exit_walk plan entry closes left (suc held) highest
  | some close ↦ elim (exit_reason plan entry (max highest close) close held) [
    | some r ↦ some (held, r)
    | none ↦ exit_walk plan entry closes left (suc held) (max highest close)
  ]
]

-- The place of a date in the calendar.
unfoldable pub date_index : ℕ → List ℕ → Option ℕ
date_index d [] = none
date_index d (e ∷ es) =
    let rest = date_index d es in if d == e then some 0 else rest >>= λ i. some (suc i)

pub record SimulatedTrade : Type 0 where
  pub entry_trade_date : ℕ
  pub exit_trade_date : ℕ
  pub entry_value : ℕ
  pub exit_value : ℕ
  pub holding_trade_days : ℕ
  pub reason : ExitReason

-- A calendar's date, and a fact of the stock on it; slippage is at most the whole price.
module _ (py : Python) (calendar : List ℕ) (current : ℕ → Fields) (slippage_bps : ℕ) where
  unfoldable pub price_at : String → ℕ → Option ℕ
  unfolding number get_or_null
  price_at key index =
      get_elem? calendar index >>= λ date. number py (get_or_null key (current date))

  abbrev pub scaled : ℕ → ℕ
  scaled price = price * 10000000000

  abbrev pub scaled_close : ℕ → ℕ → Option ℕ
  scaled_close signal held = price_at "close_price" (signal + held) >>= λ close. some (scaled close)

  -- The days from the entry on whose exit the calendar still has a next day for.
  abbrev pub days_left : ℕ → ℕ → ℕ
  days_left signal max_holding = min (length calendar - 1) (signal + max_holding + 1) - (signal + 1)

  -- The sale at the open behind the confirming close.
  unfoldable pub sell_at_open : ℕ → ℕ → ℕ × ExitReason → Option SimulatedTrade
  unfolding price_at
  sell_at_open signal entry_value walked = get_elem? calendar (signal + 1) >>= λ entry_date.
      get_elem? calendar (signal + walked.0 + 1) >>= λ exit_date.
      price_at "open_price" (signal + walked.0 + 1) >>= λ exit_open. some (record {
        entry_trade_date = entry_date;
        exit_trade_date = exit_date;
        entry_value = entry_value;
        exit_value = exit_open * (10000000000 - slippage_bps);
        holding_trade_days = max 1 walked.0;
        reason = walked.1;
      })

  -- The part behind the entry's price. The outer option is the raised error of an unreadable plan.
  unfoldable pub simulate_from : ℕ → ℕ → ℕ → Fields → Option (Option SimulatedTrade)
  unfolding exit_plan exit_walk price_at sell_at_open
  simulate_from signal entry_open max_holding risk =
      let entry_value = entry_open * (10000000000 + slippage_bps) in
      exit_plan py risk max_holding >>= λ plan. some (
        exit_walk plan entry_value (scaled_close signal) (days_left signal max_holding) 1
          entry_value
        >>= λ walked. sell_at_open signal entry_value walked)

  abbrev pub simulate_open : ℕ → Option ℕ → ℕ → Fields → Option (Option SimulatedTrade)
  simulate_open signal none max_holding risk = some none
  simulate_open signal (some entry_open) max_holding risk =
      simulate_from signal entry_open max_holding risk

  abbrev pub simulate_at : Option ℕ → ℕ → Fields → Option (Option SimulatedTrade)
  simulate_at none max_holding risk = some none
  simulate_at (some signal) max_holding risk =
      if leb (length calendar) (signal + 2)
      then some none
      else simulate_open signal (price_at "open_price" (signal + 1)) max_holding risk

  -- _simulate_next_open_daily_trade
  unfoldable pub simulate_next_open_daily_trade : ℕ → ℕ → Fields → Option (Option SimulatedTrade)
  unfolding date_index price_at simulate_from
  simulate_next_open_daily_trade signal_date max_holding risk =
      simulate_at (date_index signal_date calendar) max_holding risk
