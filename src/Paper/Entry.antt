-- ===== src/Paper/Entry.antt =====
-- realtime_service.py: when a candidate may be bought on paper, at what price and how much.
pub mod Bounds
pub mod Checked
use stock_center.Base.{
  ℕ, zero, suc, ◌+◌, ◌*◌, ◌/◌, Bool, true, false, not, Option, none, some, List, length, ltb, leb,
  if◌then◌else◌, ◌&&◌, ◌||◌, String, str_eq, max,
}
use stock_center.Base.Int.{ℤ, pos, negsuc, pos_part, ltb_ℤ}
use stock_center.Base.Text.{Text, codes, partition}
use stock_center.Base.Json.{
  Value, null, bool, int, float, str, arr, obj, Items, Fields, end, get_or_null, truthy,
}
use stock_center.Base.Fallible.{◌>>=◌}
use stock_center.Scheduler.Payload.{to_float}
use stock_center.Optimization.{step_into}
use stock_center.Paper.{
  Python, clock_of, scale, change, item, dict_or_empty, to_int, int_or, number, quote_is_fresh,
  depth_is_fresh, best_ask,
}

pub data WindowState : Type 0 where
  before active after : WindowState

pub data Readiness : Type 0 where
  ready : Readiness
  not_ready : String → Readiness

-- Not triggered for now, not triggered for good, or bought at a price.
pub data EntryTrigger : Type 0 where
  waits : String → EntryTrigger
  ends : String → EntryTrigger
  buys : ℕ → EntryTrigger

abbrev pub window_at : ℕ → ℕ → ℕ → WindowState
window_at current start stop =
    if ltb current start then before else if ltb stop current then after else active

-- What stands before the first hyphen and behind it; the text of a value that is no text is no
-- window, nor is a text that cannot be split or read.
abbrev pub window_of : Python → Value → Option (ℕ × ℕ)
window_of py (str s) =
    let (start, behind) = partition b'-' (codes s) in
    behind >>= λ stop. py.clock_text start >>= λ a. py.clock_text stop >>= λ b. some (a, b)
window_of py _ = none

-- The range of the gap: a list's first two numbers. A text or an object in its place is left out
-- and counts as unreadable; of a number `list()` raises.
abbrev pub range_default : ℤ × ℤ
range_default = (negsuc 1999999, pos 4000000)

abbrev range_of : Option ℤ → Option ℤ → ℤ × ℤ
range_of (some lower) (some upper) = (lower, upper)
range_of _ _ = range_default

abbrev pub value_or_null : Option Value → Value
value_or_null (some v) = v
value_or_null none = null

-- `bool((blocks.get(name) or {}).get("degraded"))`
unfoldable pub block_degraded : String → Fields → Option Bool
unfolding dict_or_empty get_or_null truthy
block_degraded name blocks = dict_or_empty (get_or_null name blocks) >>= λ block.
    some (truthy (get_or_null "degraded" block))

abbrev pub near : ℕ → Option ℕ → Bool
near ask none = false
near ask (some limit_up) = leb (limit_up * 9998) (ask * 10000)

unfoldable pub rejects_queue : Fields → Bool
unfolding get_or_null truthy
rejects_queue confirmation =
    truthy (get_or_null "reject_near_limit_up_queue" confirmation)
    || truthy (get_or_null "avoid_near_limit_up_queue" confirmation)

abbrev lots : Option ℤ → ℕ
lots none = 1000
lots (some z) = max 100 (pos_part z)

module _ (py : Python) where
  unfoldable pub window_state : ℕ → Fields → WindowState
  unfolding get_or_null partition
  window_state now confirmation = elim (window_of py (get_or_null "window" confirmation)) [
    | none ↦ after
    | some w ↦ window_at (clock_of now) w.0 w.1
  ]

  unfoldable pub range_of_value : Value → Option (ℤ × ℤ)
  unfolding truthy to_float
  range_of_value (arr items) =
      if truthy (arr items)
      then some (
          range_of (to_float py.float_text (value_or_null (item items 0)))
            (to_float py.float_text (value_or_null (item items 1))))
      else some range_default
  range_of_value (int z) = if truthy (int z) then none else some range_default
  range_of_value (float z) = if truthy (float z) then none else some range_default
  range_of_value (bool b) = if b then none else some range_default
  range_of_value _ = some range_default

  unfoldable pub gap_range : Fields → Option (ℤ × ℤ)
  unfolding range_of_value get_or_null
  gap_range confirmation = range_of_value (get_or_null "gap_pct_range" confirmation)

  -- The checks of the entry modes, after those that all share.
  unfoldable pub auction_ready : List Fields → Fields → Option Readiness
  unfolding int_or get_or_null
  auction_ready depth_history confirmation =
      int_or py (get_or_null "minimum_depth_snapshots" confirmation) (pos 3) >>= λ required. some (
        if ltb_ℤ (pos (length depth_history)) required
        then not_ready "auction_depth_history_insufficient"
        else ready)

  unfoldable pub intraday_ready : List Fields → Fields → Fields → Option Readiness
  unfolding int_or get_or_null block_degraded
  intraday_ready minute_bars blocks confirmation =
      int_or py (get_or_null "minimum_minute_bars" confirmation) (pos 5) >>= λ required.
      if ltb_ℤ (pos (length minute_bars)) required
      then some (not_ready "minute_history_insufficient")
      else block_degraded "minute" blocks >>= λ degraded.
          some (if degraded then not_ready "minute_block_degraded" else ready)

  unfoldable pub mode_ready :
      String → List Fields → List Fields → Fields → Fields → Option Readiness
  unfolding auction_ready intraday_ready
  mode_ready entry_mode depth_history minute_bars blocks confirmation =
      if str_eq entry_mode "auction"
      then auction_ready depth_history confirmation
      else if str_eq entry_mode "intraday"
      then intraday_ready minute_bars blocks confirmation
      else some ready

  -- _confirmation_readiness from the executable ask on.
  unfoldable pub ask_ready :
      String → Fields → List Fields → List Fields → Fields → Fields → Option Readiness
  unfolding best_ask mode_ready
  ask_ready entry_mode depth depth_history minute_bars blocks confirmation =
      best_ask py depth >>= λ ask. elim ask [
        | none ↦ some (not_ready "executable_ask_missing")
        | some price ↦ mode_ready entry_mode depth_history minute_bars blocks confirmation
      ]

  -- The part from the depth block on.
  unfoldable pub depth_ready :
      String → Fields → List Fields → List Fields → Fields → Fields → Option Readiness
  unfolding block_degraded ask_ready
  depth_ready entry_mode depth depth_history minute_bars blocks confirmation =
      block_degraded "depth" blocks >>= λ degraded.
      if degraded
      then some (not_ready "depth_block_degraded")
      else ask_ready entry_mode depth depth_history minute_bars blocks confirmation

  unfoldable pub confirmation_readiness :
      String → ℕ → Fields → Fields → List Fields → List Fields → Fields → Fields → Option Readiness
  unfolding int_or get_or_null quote_is_fresh depth_is_fresh depth_ready
  confirmation_readiness entry_mode now quote depth depth_history minute_bars blocks confirmation =
      int_or py (get_or_null "minimum_quote_freshness_seconds" confirmation) (pos 15) >>= λ age.
      if not (quote_is_fresh py quote now age)
      then some (not_ready "quote_stale_or_missing")
      else if not (depth_is_fresh py depth now (pos 20))
      then some (not_ready "depth_stale_or_missing")
      else depth_ready entry_mode depth depth_history minute_bars blocks confirmation

  unfoldable pub limit_up_of : Fields → Option ℕ
  unfolding number get_or_null
  limit_up_of quote =
      number py (step_into (step_into (get_or_null "metadata" quote) "ext") "limit_up")

  -- The part of _entry_trigger behind the missing prices.
  unfoldable pub priced_trigger : ℕ → ℕ → ℤ × ℤ → Fields → Fields → EntryTrigger
  unfolding rejects_queue limit_up_of
  priced_trigger ask pre_close range quote confirmation =
      if ltb_ℤ (change ask pre_close) (scale pre_close range.0)
      then waits "gap_below_range"
      else if ltb_ℤ (scale pre_close range.1) (change ask pre_close)
      then ends "gap_above_range"
      else if rejects_queue confirmation && near ask (limit_up_of quote)
      then ends "near_limit_up_queue"
      else buys ask

  -- _entry_trigger for an ask and a previous close, either of which may be missing.
  unfoldable pub trigger_at : Fields → Fields → Option ℕ → Option ℕ → Option EntryTrigger
  unfolding gap_range priced_trigger
  trigger_at quote confirmation (some ask) (some pre_close) = gap_range confirmation >>= λ range.
      some (priced_trigger ask pre_close range quote confirmation)
  trigger_at quote confirmation ask pre_close = some (waits "entry_price_unavailable")

  unfoldable pub entry_trigger : Fields → Fields → Fields → Option EntryTrigger
  unfolding best_ask number get_or_null trigger_at
  entry_trigger quote depth confirmation = best_ask py depth >>= λ ask.
      trigger_at quote confirmation ask (number py (get_or_null "pre_close_price" quote))

  unfoldable pub lot_quantity : Value → ℕ
  unfolding to_int
  lot_quantity v = max 100 (lots (to_int py v) / 100 * 100)
