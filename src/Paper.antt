-- ===== src/Paper.antt =====
-- python-back/app/modules/strategy_center/realtime_service.py: the confirmation of paper trades
-- during the session, and the values that its helpers read. Times are microseconds of UTC, prices
-- and percentages millionths, and sums and products are not rounded. Shanghai is eight hours ahead.
-- Where Python raises, a function gives none. A missing quote or depth is an empty dict, which the
-- code puts in its place.
pub mod Entry
pub mod Exits
pub mod Book
pub mod Session
pub mod Process
use stock_center.Base.{
  ℕ, zero, suc, ◌+◌, ◌-◌, ◌*◌, ◌/◌, ◌%◌, Bool, true, false, Option, none, some, List, ltb, leb,
  if◌then◌else◌, ◌&&◌, ◌||◌, String, max,
}
use stock_center.Base.Int.{ℤ, pos, negsuc, pos_part, neg_part, sub_ℕ, leb_ℤ}
use stock_center.Base.Text.{Text, codes, partition}
use stock_center.Base.Json.{
  Value, null, bool, int, float, str, arr, obj, Items, nil, cons, Fields, end, get_or_null, truthy,
}
use stock_center.Scheduler.Payload.{to_float}

-- Python's readings of texts: float(), int(), time.fromisoformat() as microseconds of the day, each
-- with none where it raises; the instant of a stored time, read as UTC where it has no zone; and the
-- texts that an f-string, isoformat() and upper() make.
pub record Python : Type 0 where
  pub float_text : String → Option ℤ
  pub int_text : String → Option ℤ
  pub clock_text : Text → Option ℕ
  pub instant_of : Value → Option ℕ
  pub take_profit_text : ℕ → String
  pub iso_text : ℕ → String
  pub upper : String → String

abbrev pub day : ℕ
day = 86400000000

abbrev pub hour : ℕ
hour = 3600000000

abbrev pub minute : ℕ
minute = 60000000

abbrev pub shanghai : ℕ → ℕ
shanghai t = t + 8 * hour

abbrev pub date_of : ℕ → ℕ
date_of t = shanghai t / day

abbrev pub clock_of : ℕ → ℕ
clock_of t = shanghai t % day

abbrev pub in_trade_hours : ℕ → Bool
in_trade_hours now =
    (leb (9 * hour + 20 * minute) (clock_of now) && leb (clock_of now) (11 * hour + 30 * minute))
    || (leb (13 * hour) (clock_of now) && leb (clock_of now) (15 * hour))

-- A natural number times an integer.
abbrev pub scale : ℕ → ℤ → ℤ
scale n z = sub_ℕ (n * pos_part z) (n * neg_part z)

-- (price / base - 1) * 100 in millionths, times the base.
abbrev pub change : ℕ → ℕ → ℤ
change price base = sub_ℕ (price * 100000000) (base * 100000000)

-- The items of a list by place.
abbrev pub item : Items → ℕ → Option Value
item nil i = none
item (cons v vs) zero = some v
item (cons v vs) (suc i) = item vs i

-- `value or {}`, of which `.get` or `dict()` is taken: both raise where it is neither missing nor a
-- dict. A list of pairs, which `dict()` accepts, is left out.
unfoldable pub dict_or_empty : Value → Option Fields
unfolding truthy
dict_or_empty (obj fs) = some fs
dict_or_empty v = if truthy v then none else some end

abbrev pub truncated : ℤ → ℤ
truncated (pos n) = pos (n / 1000000)
truncated (negsuc n) = sub_ℕ 0 (suc n / 1000000)

module _ (py : Python) where
  -- `int(value)`
  unfoldable pub to_int : Value → Option ℤ
  to_int (int z) = some z
  to_int (bool true) = some (pos 1)
  to_int (bool false) = some (pos 0)
  to_int (float z) = some (truncated z)
  to_int (str s) = py.int_text s
  to_int _ = none

  -- `float(value or default)` and `int(value or default)`
  unfoldable pub float_or : Value → ℤ → Option ℤ
  unfolding truthy to_float
  float_or v default = if truthy v then to_float py.float_text v else some default

  unfoldable pub int_or : Value → ℤ → Option ℤ
  unfolding truthy to_int
  int_or v default = if truthy v then to_int v else some default

  -- _number: what is positive.
  unfoldable pub number : Value → Option ℕ
  unfolding to_float
  number v = elim (to_float py.float_text v) [ some (pos (suc n)) ↦ some (suc n) | _ ↦ none ]

  -- _timestamp_fresh, _quote_is_fresh and _depth_is_fresh
  unfoldable pub timestamp_fresh : Value → ℕ → ℤ → Bool
  unfolding truthy
  timestamp_fresh v now max_age_seconds = truthy v && elim (py.instant_of v) [
    | none ↦ false
    | some t ↦ leb_ℤ (pos ((now - t) + (t - now))) (scale 1000000 max_age_seconds)
  ]

  unfoldable pub quote_is_fresh : Fields → ℕ → ℤ → Bool
  unfolding timestamp_fresh get_or_null
  quote_is_fresh quote = timestamp_fresh (get_or_null "quote_time" quote)

  unfoldable pub depth_is_fresh : Fields → ℕ → ℤ → Bool
  unfolding timestamp_fresh get_or_null
  depth_is_fresh depth = timestamp_fresh (get_or_null "depth_time" depth)

  -- The price of the first level: none where that is no dict, of which `.get` raises.
  unfoldable pub best_price : Value → Option (Option ℕ)
  unfolding number get_or_null
  best_price (arr (cons (obj level) levels)) = some (number (get_or_null "price" level))
  best_price (arr (cons v levels)) = none
  best_price _ = some none

  unfoldable pub best_ask : Fields → Option (Option ℕ)
  unfolding best_price get_or_null
  best_ask depth = best_price (get_or_null "asks" depth)

  unfoldable pub best_bid : Fields → Option (Option ℕ)
  unfolding best_price get_or_null
  best_bid depth = best_price (get_or_null "bids" depth)

  -- _quote_depth_fresh: the bids are read only where both are fresh.
  unfoldable pub quote_depth_fresh : Fields → Fields → ℕ → Option Bool
  unfolding quote_is_fresh depth_is_fresh best_bid
  quote_depth_fresh quote depth now =
      if quote_is_fresh quote now (pos 20) && depth_is_fresh depth now (pos 20)
      then elim (best_bid depth) [
        | none ↦ none
        | some none ↦ some false
        | some (some bid) ↦ some true
      ]
      else some false
