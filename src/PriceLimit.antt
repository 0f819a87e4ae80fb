-- ===== src/PriceLimit.antt =====
-- python-back/app/modules/realtime_market/a_share_limit.py: AShareLimitPriceService. A Decimal price is
-- a whole number of millionths of a yuan; one that is no number is `none`. Texts are ASCII.
pub mod Bounds
use stock_center.Base.{
  ℕ, zero, suc, ◌+◌, ◌-◌, ◌*◌, ◌/◌, ◌≤◌, ◌<◌, ◌≡◌, Bool, true, false, not, Option, none, some, List,
  [], ◌∷◌, ltb, leb, ◌==◌, if◌then◌else◌, ◌&&◌, ◌||◌, max,
}
use stock_center.Base.Int.{ℤ, pos, negsuc, eqb_ℤ, ◌-ℤ◌, sub_ℕ, pos_part, neg_part}
use stock_center.Base.Text.{Text, codes, text_eq, is_space}

-- 0.01 yuan.
abbrev pub price_tick : ℕ
price_tick = 10000

-- A price with a positive value: quantize(tick, ROUND_HALF_UP) of `hundredths` hundredths of a unit.
abbrev pub quantize : ℕ → ℕ
quantize hundredths = (hundredths + 500000) / 1000000 * 10000

abbrev pub distance : ℕ → ℕ → ℕ
distance a b = (a - b) + (b - a)

pub data Direction : Type 0 where
  up down : Direction

-- The multiplier in hundredths: 1 + ratio or 1 - ratio.
abbrev pub multiplier : Direction → ℕ → ℕ
multiplier up limit_ratio = 100 + limit_ratio
multiplier down limit_ratio = 100 - limit_ratio

abbrev pub one_tick_away : Direction → ℕ → ℕ
one_tick_away up previous_close = previous_close + price_tick
one_tick_away down previous_close = previous_close - price_tick

-- _limit_price for a positive previous close; a ratio is in hundredths. Where the source's
-- difference falls below 0, the last line replaces it by a tick.
unfoldable pub limit_price : ℕ → ℕ → Direction → ℕ
limit_price previous_close limit_ratio direction =
    let candidate = quantize (previous_close * multiplier direction limit_ratio) in
    max price_tick (
      if ltb (distance candidate previous_close) price_tick
      then one_tick_away direction previous_close
      else candidate)

-- quantize of any price, away from 0 at a half.
abbrev pub tick_price : ℤ → ℤ
tick_price (pos n) = pos ((n + 5000) / 10000 * 10000)
tick_price (negsuc n) = negsuc ((n + 1 + 5000) / 10000 * 10000 - 1)

-- A negative price that is rounded to 0 is no positive target either way.
unfoldable pub at_tick_price : ℤ → ℕ → Bool
at_tick_price price target = eqb_ℤ (tick_price price) (pos target)

pub data Board : Type 0 where
  bse star main gem : Board

abbrev pub upper_code : ℕ → ℕ
upper_code c = if leb 97 c && leb c 122 then c - 32 else c

unfoldable pub upper : Text → Text
upper [] = []
upper (c ∷ s) = upper_code c ∷ upper s

abbrev pub space_or_more : ℕ → Text → Text
space_or_more c [] = if is_space c then [] else c ∷ []
space_or_more c (d ∷ s) = c ∷ d ∷ s

unfoldable pub strip_right : Text → Text
unfolding is_space
strip_right [] = []
strip_right (c ∷ s) = space_or_more c (strip_right s)

unfoldable pub strip_left : Text → Text
unfolding is_space
strip_left [] = []
strip_left (c ∷ s) = let rest = strip_left s in if is_space c then rest else c ∷ s

unfoldable pub starts_with : Text → Text → Bool
starts_with [] s = true
starts_with (p ∷ ps) [] = false
starts_with (p ∷ ps) (c ∷ s) = (p == c) && starts_with ps s

abbrev pub text_or_empty : Option Text → Text
text_or_empty none = []
text_or_empty (some t) = t

-- _board_rule: the board and its ratio in hundredths.
unfoldable pub board_rule : Option Text → Option Text → Option (Board × ℕ)
unfolding upper strip_left strip_right starts_with
board_rule stock_code exchange =
    let code = strip_right (strip_left (text_or_empty stock_code)) in
    let normalized = upper (text_or_empty exchange) in
    if text_eq normalized (codes "BJ") || text_eq normalized (codes "BSE")
    then some (bse, 30)
    else if text_eq normalized (codes "SH") || text_eq normalized (codes "SSE")
    then some (if starts_with (codes "688") code then (star, 20) else (main, 10))
    else if text_eq normalized (codes "SZ") || text_eq normalized (codes "SZSE")
    then some (
        if starts_with (codes "300") code || starts_with (codes "301") code
        then (gem, 20)
        else (main, 10))
    else none

pub data Reason : Type 0 where
  security_board_unavailable listing_limit_status_unavailable : Reason
  new_listing_first_five_open_days pre_close_price_unavailable : Reason

-- The keys of the result that the calculation decides.
pub record Limits : Type 0 where
  pub available : Bool
  pub reason : Option Reason
  pub board : Option (Board × ℕ)
  pub limit_up : Option ℕ
  pub limit_down : Option ℕ
  pub is_limit_up : Option Bool
  pub is_limit_down : Option Bool

abbrev pub unavailable : Option (Board × ℕ) → Reason → Limits
unavailable board reason = record {
  available = false;
  reason = some reason;
  board = board;
  limit_up = none;
  limit_down = none;
  is_limit_up = none;
  is_limit_down = none;
}

abbrev pub at_limit : Option ℤ → ℕ → Option Bool
at_limit none target = none
at_limit (some price) target = some (at_tick_price price target)

abbrev pub positive_price : Option ℤ → Option ℕ
positive_price (some (pos (suc n))) = some (suc n)
positive_price _ = none

unfoldable pub calculate : Option Text → Option Text → Option ℤ → Option ℤ → Option Bool → Limits
unfolding board_rule limit_price at_tick_price
calculate stock_code exchange pre_close_price last_price is_new =
    elim (board_rule stock_code exchange) [
      | none ↦ unavailable none security_board_unavailable
      | some (board, ratio) ↦ elim is_new [
        | none ↦ unavailable (some (board, ratio)) listing_limit_status_unavailable
        | some new ↦
            if new
            then unavailable (some (board, ratio)) new_listing_first_five_open_days
            else elim (positive_price pre_close_price) [
              | none ↦ unavailable (some (board, ratio)) pre_close_price_unavailable
              | some previous_close ↦
                  let up_price = limit_price previous_close ratio up in
                  let down_price = limit_price previous_close ratio down in
                  record {
                    available = true;
                    reason = none;
                    board = some (board, ratio);
                    limit_up = some up_price;
                    limit_down = some down_price;
                    is_limit_up = at_limit last_price up_price;
                    is_limit_down = at_limit last_price down_price;
                  }
            ]
      ]
    ]

-- A quotient of whole numbers, to the nearest, halves away from 0.
abbrev pub nearest : ℕ → ℕ → ℕ
nearest a b = (2 * a + b) / (2 * b)

-- _change_metrics: the amount, and the percentage rounded to six digits.
unfoldable pub change_metrics : Option ℤ → Option ℤ → Option (ℤ × ℤ)
unfolding ◌-ℤ◌
change_metrics none pre_close_price = none
change_metrics (some current) pre_close_price = elim (positive_price pre_close_price) [
  | none ↦ none
  | some previous ↦
      let change = current -ℤ pos previous in
      some (
        change,
        sub_ℕ (nearest (pos_part change * 100000000) previous)
            (nearest (neg_part change * 100000000) previous),
      )
]
