-- ===== src/Rules/Defaults.antt =====
-- The default risk plan under the rules of paper exits.
use stock_center.Base.{
  ℕ, suc, ◌≡◌, ◌<◌, refl, sym, Bool, true, false, none, some, arith, if◌then◌else◌,
}
use stock_center.Base.Fallible.{none≢some, some-injective}
use stock_center.Base.Int.{pos, leb_ℤ}
use stock_center.Base.Json.{get, get_or_null, truthy}
use stock_center.Paper.{Python, dict_or_empty, int_or, to_int}
use stock_center.Paper.Exits.{after_days, max_days, time_exit_due, time_exit, exit_trigger}
use stock_center.Paper.Exits.Order.{exit_trigger-Ordered}
use stock_center.Rules.{
  Implementation, trend_breakout, bullish_alignment, ma_golden_cross, volume_price_surge,
  high_turnover_surge, low_volatility_leader, pullback_ma20_bounce, n_day_low_reversal,
  theme_first_board_relay, consecutive_limit_up_relay, broken_board_recovery,
}
use stock_center.Rules.Evaluate.{risk_config_for, max_holding_of, default_risk_config}

not_due : (b : Bool) → (if b then some time_exit else none) ≡ none → b ≡ false
not_due true e = absurd (none≢some (sym e))
not_due false e = refl

held_below :
    (py : Python) (n days : ℕ)
    → time_exit_due py (risk_config_for (suc n)) days ≡ some none
    → days < suc n
unfolding time_exit_due dict_or_empty get_or_null get truthy after_days max_days int_or to_int
held_below py n days e =
    let short : leb_ℤ (pos (suc n)) (pos days) ≡ false = not_due _ (some-injective e) in
    ground arith

at_least_one : (i : Implementation) → (n : ℕ) × (max_holding_of i ≡ suc n)
unfolding max_holding_of
at_least_one trend_breakout = (4, refl)
at_least_one bullish_alignment = (4, refl)
at_least_one low_volatility_leader = (4, refl)
at_least_one ma_golden_cross = (3, refl)
at_least_one pullback_ma20_bounce = (3, refl)
at_least_one volume_price_surge = (2, refl)
at_least_one high_turnover_surge = (2, refl)
at_least_one n_day_low_reversal = (2, refl)
at_least_one theme_first_board_relay = (1, refl)
at_least_one consecutive_limit_up_relay = (1, refl)
at_least_one broken_board_recovery = (1, refl)

-- Under the default plan of an implementation a trade that no rule sells has been held for fewer
-- days than the implementation allows.
pub default_risk_config-held :
    (py : Python) (i : Implementation) (entry last peak days : ℕ)
    → exit_trigger py entry last peak (default_risk_config i) days ≡ some none
    → days < max_holding_of i
unfolding default_risk_config
default_risk_config-held py i entry last peak days e =
    let d = exit_trigger-Ordered py entry last peak (default_risk_config i) days e in
    let (n, q) = at_least_one i in rw (q) (held_below py n days (rw (q) at d.3))
