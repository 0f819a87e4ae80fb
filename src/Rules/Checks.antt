-- ===== src/Rules/Checks.antt =====
-- builtins.py: what a stock and the market are checked for before a matcher runs.
use stock_center.Base.{
  suc, Bool, false, not, Option, none, some, List, [], ◌∷◌, length, if◌then◌else◌, ◌&&◌, ◌||◌,
  String, str_eq,
}
use stock_center.Base.Int.{ℤ, pos, negsuc, ltb_ℤ}
use stock_center.Base.Text.{Text, codes, text_eq}
use stock_center.Base.Json.{Value, str, arr, Fields, get, get_or_null, truthy, contains}
use stock_center.Base.Fallible.{◌>>=◌}
use stock_center.Paper.{Python, float_or, int_or}
use stock_center.Paper.Exits.{enabled}
use stock_center.Rules.{Context, Rule, text_of, below, num, int_at}

pub data SkipCode : Type 0 where
  unsupported_implementation unsupported_exchange st_excluded bj_excluded : SkipCode
  inactive_stock listing_history_insufficient amount_unavailable : SkipCode
  liquidity_insufficient market_emotion_unavailable market_risk_on_below_threshold : SkipCode
  market_stage_blocked : String → SkipCode
  rule_not_matched : SkipCode

unfoldable pub ends_with : Text → Text → Bool
ends_with t [] = text_eq [] t
ends_with t (c ∷ s) = text_eq (c ∷ s) t || ends_with t s

-- `value in set(options or [])` for a text; options that are no list are left out.
abbrev pub among : Value → String → Bool
among (arr options) s = contains options (str s)
among _ s = false

-- `_int(current.get("history_days")) or len(history)`
abbrev pub days_or_length : Option ℤ → List Fields → ℤ
days_or_length (some (pos (suc n))) history = pos (suc n)
days_or_length (some (negsuc n)) history = negsuc n
days_or_length _ history = pos (length history)

module _ (py : Python) where
  unfoldable pub exchange_of : Context → String
  unfolding get_or_null
  exchange_of c = py.upper (text_of (get_or_null "exchange" c.stock))

  -- The listing's checks, in their order: the first that fails gives its code.
  unfoldable pub check_listing : Context → Rule → Option SkipCode
  unfolding exchange_of get_or_null get truthy contains ends_with
  check_listing c rule =
      let exchange = exchange_of c in
      if not (among (get_or_null "markets" rule.universe) exchange)
      then some unsupported_exchange
      else if enabled (get "exclude_st" rule.universe) && truthy (get_or_null "is_st" c.stock)
      then some st_excluded
      else if enabled (get "exclude_bj" rule.universe)
          && (str_eq exchange "BJ"
              || str_eq exchange "BSE"
              || ends_with (codes ".BJ") (codes c.stock_code))
      then some bj_excluded
      else if not (str_eq (text_of (get_or_null "status" c.stock)) "active")
      then some inactive_stock
      else none

  abbrev pub amount_check : Rule → Option ℤ → Option (Option SkipCode)
  amount_check rule none = some (some amount_unavailable)
  amount_check rule (some amount) =
      float_or py (get_or_null "minimum_amount_yuan" rule.universe) (pos 0) >>= λ least.
      some (if below amount least then some liquidity_insufficient else none)

  -- The trading's checks; a minimum that cannot be read raises.
  unfoldable pub check_trading : Context → Rule → Option (Option SkipCode)
  unfolding int_or float_or get_or_null num int_at
  check_trading c rule =
      int_or py (get_or_null "minimum_listing_trade_days" rule.universe) (pos 60) >>= λ days.
      if ltb_ℤ (days_or_length (int_at py c.current "history_days") c.history) days
      then some (some listing_history_insufficient)
      else amount_check rule (num py c.current "amount_yuan")

  abbrev pub or_trading : Context → Rule → Option SkipCode → Option (Option SkipCode)
  or_trading c rule (some code) = some (some code)
  or_trading c rule none = check_trading c rule

  -- _check_universe
  unfoldable pub check_universe : Context → Rule → Option (Option SkipCode)
  unfolding check_listing check_trading
  check_universe c rule = or_trading c rule (check_listing c rule)

  abbrev pub score_check : Option ℤ → Option ℤ → Option SkipCode
  score_check (some score) (some least) =
      if below score least then some market_risk_on_below_threshold else none
  score_check _ _ = none

  -- _check_market_gate
  unfoldable pub check_market_gate : Fields → Rule → Option SkipCode
  unfolding get get_or_null truthy contains num
  check_market_gate emotion rule =
      let gate = rule.market_gate in
      let status = text_of (get_or_null "status" emotion) in
      let usable =
        str_eq status "ready"
        || (str_eq status "degraded" && truthy (get_or_null "accept_degraded_score" gate)) in
      let stage = text_of (get_or_null "primary_stage_code" emotion) in
      if not (enabled (get "enabled" gate))
      then none
      else if not usable
      then (if enabled (get "allow_when_emotion_unavailable" gate)
          then none
          else some market_emotion_unavailable)
      else if among (get_or_null "blocked_primary_stages" gate) stage
      then some (market_stage_blocked stage)
      else score_check (num py emotion "market_risk_on_score")
          (num py gate "minimum_market_risk_on_score")
