-- ===== src/Paper/Exits.antt =====
-- realtime_service.py: when an open paper trade is sold, and how much of it.
pub mod Quantity
pub mod Order
pub mod Priority
use stock_center.Base.{
  ℕ, zero, suc, ◌+◌, ◌-◌, ◌*◌, ◌/◌, Bool, true, false, Option, none, some, List, length, ltb, leb,
  ◌==◌, if◌then◌else◌, ◌&&◌, ◌||◌, String, max, min,
}
use stock_center.Base.Int.{ℤ, pos, negsuc, pos_part, sub_ℕ, leb_ℤ}
use stock_center.Base.Json.{
  Value, null, bool, int, float, str, arr, obj, Items, nil, Fields, end, get, get_or_null, truthy,
  set_field,
}
use stock_center.Base.Fallible.{◌>>=◌}
use stock_center.Scheduler.Payload.{to_float}
use stock_center.Paper.{Python, scale, change, item, dict_or_empty, float_or, int_or}

-- `take_profit k` is f"take_profit_{k}".
pub data ExitCode : Type 0 where
  hard_stop trailing_stop time_exit : ExitCode
  take_profit : ℕ → ExitCode

-- The texts of the codes.
abbrev pub code_text : Python → ExitCode → String
code_text py hard_stop = "hard_stop"
code_text py trailing_stop = "trailing_stop"
code_text py time_exit = "time_exit"
code_text py (take_profit k) = py.take_profit_text k

-- `list(risk.get("take_profit_legs") or [])`, where a text or an object gives texts, none of which
-- has a threshold: they count as no legs. Of a number `list()` raises.
unfoldable pub legs_of : Value → Option Items
unfolding truthy
legs_of (arr items) = some items
legs_of (int z) = if truthy (int z) then none else some nil
legs_of (float z) = if truthy (float z) then none else some nil
legs_of (bool b) = if b then none else some nil
legs_of _ = some nil

abbrev pub place : ℤ → Option ℕ
place (pos n) = some n
place (negsuc n) = none

-- The number that a leg holds under a key; a leg that is no dict, or a place where there is none,
-- raises an error that the callers catch.
abbrev pub leg_number : Python → String → Option Value → Option ℤ
leg_number py key (some (obj leg)) = to_float py.float_text (get_or_null key leg)
leg_number py key _ = none

-- Whether the return is at or below a percentage, or at or above it.
abbrev pub return_at_most : ℕ → ℕ → ℤ → Bool
return_at_most price base pct = leb_ℤ (change price base) (scale base pct)

abbrev pub return_at_least : ℕ → ℕ → ℤ → Bool
return_at_least price base pct = leb_ℤ (scale base pct) (change price base)

-- peak_return >= activate and pullback >= drawdown; a pullback is a fall below the peak.
abbrev pub trails : ℕ → ℕ → ℕ → ℤ → ℤ → Bool
trails entry last peak activate drawdown =
    leb_ℤ (scale (max 1 entry) activate) (change peak (max 1 entry))
    && leb_ℤ (scale (max 1 peak) drawdown) (sub_ℕ (peak * 100000000) (last * 100000000))

-- `time_exit.get("enabled", True)`
abbrev pub enabled : Option Value → Bool
enabled none = true
enabled (some v) = truthy v

-- min(max(ratio, 0), 1.0), in millionths, with 1.0 where the leg has none.
abbrev pub sell_ratio : Option ℤ → ℕ
sell_ratio none = 1000000
sell_ratio (some ratio) = min (pos_part ratio) 1000000

abbrev pub or_all : ℕ → ℕ → ℕ
or_all held zero = held
or_all held (suc q) = suc q

-- Whole lots of the ratio's part, or all where that is none.
abbrev pub leg_quantity : ℕ → ℕ → ℕ
leg_quantity held ratio = min held (or_all held (held * ratio / 100000000 * 100))

module _ (py : Python) where
  -- The number of the leg that is due, counted from 1.
  unfoldable pub take_profit_due : ℕ → ℕ → Items → Option ℕ → Option ℕ
  unfolding to_float get_or_null
  take_profit_due entry last legs none = none
  take_profit_due entry last legs (some next) =
      elim (leg_number py "trigger_return_pct" (item legs next)) [
        | none ↦ none
        | some threshold ↦ if return_at_least last entry threshold then some (next + 1) else none
      ]

  -- `time_exit.get("trade_days") or risk.get("max_holding_trade_days") or 3`
  unfoldable pub max_days : Fields → Fields → Option ℤ
  unfolding int_or get_or_null truthy
  max_days plan risk =
      if truthy (get_or_null "trade_days" plan)
      then int_or py (get_or_null "trade_days" plan) (pos 3)
      else int_or py (get_or_null "max_holding_trade_days" risk) (pos 3)

  unfoldable pub after_days : Fields → Fields → ℕ → Bool → Option (Option ExitCode)
  unfolding max_days
  after_days plan risk holding_trade_days false = some none
  after_days plan risk holding_trade_days true = max_days plan risk >>= λ days.
      some (if leb_ℤ days (pos holding_trade_days) then some time_exit else none)

  unfoldable pub time_exit_due : Fields → ℕ → Option (Option ExitCode)
  unfolding dict_or_empty get_or_null get truthy after_days
  time_exit_due risk holding_trade_days = dict_or_empty (get_or_null "time_exit" risk) >>= λ plan.
      after_days plan risk holding_trade_days (enabled (get "enabled" plan))

  unfoldable pub hard_stop_due : Fields → ℕ → ℕ → Option Bool
  unfolding float_or get_or_null
  hard_stop_due risk entry last =
      float_or py (get_or_null "hard_stop_loss_pct" risk) (negsuc 3999999) >>= λ pct.
      some (return_at_most last entry pct)

  unfoldable pub trailing_due : Fields → ℕ → ℕ → ℕ → Option Bool
  unfolding dict_or_empty float_or get_or_null
  trailing_due risk entry last peak =
      dict_or_empty (get_or_null "trailing_stop" risk) >>= λ trailing.
      float_or py (get_or_null "activate_return_pct" trailing) (pos 6000000) >>= λ activate.
      float_or py (get_or_null "drawdown_pct" trailing) (pos 3000000) >>= λ drawdown.
      some (trails entry last peak activate drawdown)

  unfoldable pub leg_due : Fields → ℕ → ℕ → Option (Option ℕ)
  unfolding legs_of dict_or_empty int_or get_or_null take_profit_due
  leg_due risk entry last = legs_of (get_or_null "take_profit_legs" risk) >>= λ legs.
      dict_or_empty (get_or_null "runtime_state" risk) >>= λ runtime_state.
      int_or py (get_or_null "take_profit_leg_index" runtime_state) (pos 0) >>= λ next.
      some (take_profit_due entry last legs (place next))

  abbrev pub leg_or_time : Fields → ℕ → Option ℕ → Option (Option ExitCode)
  leg_or_time risk holding_trade_days (some k) = some (some (take_profit k))
  leg_or_time risk holding_trade_days none = time_exit_due risk holding_trade_days

  abbrev pub trailing_or_later : Fields → ℕ → ℕ → ℕ → Bool → Option (Option ExitCode)
  trailing_or_later risk entry last holding_trade_days true = some (some trailing_stop)
  trailing_or_later risk entry last holding_trade_days false =
      leg_due risk entry last >>= λ leg. leg_or_time risk holding_trade_days leg

  abbrev pub stop_or_later : Fields → ℕ → ℕ → ℕ → ℕ → Bool → Option (Option ExitCode)
  stop_or_later risk entry last peak holding_trade_days true = some (some hard_stop)
  stop_or_later risk entry last peak holding_trade_days false =
      trailing_due risk entry last peak >>= λ trailed.
      trailing_or_later risk entry last holding_trade_days trailed

  -- The first of the four that is due.
  unfoldable pub exit_trigger : ℕ → ℕ → ℕ → Fields → ℕ → Option (Option ExitCode)
  unfolding hard_stop_due trailing_due leg_due time_exit_due
  exit_trigger entry last peak risk holding_trade_days =
      hard_stop_due risk entry last >>= λ stopped.
      stop_or_later risk entry last peak holding_trade_days stopped

  -- The legs of the plan are a list here, since a leg of it was due; the plan moves on to the next.
  unfoldable pub exit_quantity : ℕ → ExitCode → Fields → Option (ℕ × Fields)
  unfolding legs_of to_float get_or_null dict_or_empty set_field
  exit_quantity held (take_profit k) risk =
      legs_of (get_or_null "take_profit_legs" risk) >>= λ legs.
      dict_or_empty (get_or_null "runtime_state" risk) >>= λ runtime_state. some (
        leg_quantity held (sell_ratio (leg_number py "sell_ratio" (item legs (k - 1)))),
        set_field "runtime_state"
            (obj (set_field "take_profit_leg_index" (int (pos k)) runtime_state)) risk,
      )
  exit_quantity held code risk = some (held, risk)
