-- ===== src/PriceLimit/Bounds.antt =====
-- The limit prices are the rounded ones, kept at least one tick from the previous close.
use stock_center.Base.{
  ℕ, suc, ◌+◌, ◌-◌, ◌*◌, ◌≤◌, ◌<◌, ◌≡◌, refl, Bool, true, false, arith, ltb, if◌then◌else◌, max,
  min,
}
use stock_center.Base.{Option, some, none, ◌↔◌}
use stock_center.Base.Int.{ℤ, pos, negsuc}
use stock_center.Base.Text.{Text}
use native.Mathlib.Nat.{mul-le-mul_left, mul-le-mul_right}
use stock_center.PriceLimit.{
  price_tick, quantize, distance, limit_price, up, down, Board, board_rule, calculate,
  positive_price, at_limit, at_tick_price, at_limit,
}

-- The limit up is the larger of the rounded price and one tick above the previous close, and the
-- limit down the smaller of the rounded price and one tick below it, but never less than a tick.
pub limit_price-min-max :
    (previous_close limit_ratio : ℕ)
    → (limit_price previous_close limit_ratio up
        ≡ max (quantize (previous_close * (100 + limit_ratio))) (previous_close + price_tick))
      × (limit_price previous_close limit_ratio down
          ≡ max price_tick
              (min (quantize (previous_close * (100 - limit_ratio))) (previous_close - price_tick)))
unfolding limit_price
limit_price-min-max p r = (
  up_rounded p (p * (100 + r)) (omega arith),
  down_rounded p (p * (100 - r)) (mul-le-mul_left p (omega arith)),
)
  where
    up_rounded :
        (p x : ℕ)
        → p * 100 ≤ x
        → max price_tick
            (if ltb (distance (quantize x) p) price_tick then p + price_tick else quantize x)
          ≡ max (quantize x) (p + price_tick)
    up_rounded p x h = ground arith

    down_rounded :
        (p x : ℕ)
        → x ≤ p * 100
        → max price_tick
            (if ltb (distance (quantize x) p) price_tick then p - price_tick else quantize x)
          ≡ max price_tick (min (quantize x) (p - price_tick))
    down_rounded p x h = ground arith

-- A higher previous close never gives a lower limit, up or down.
pub limit_price_mono :
    (lower higher limit_ratio : ℕ)
    → lower ≤ higher
    → (limit_price lower limit_ratio up ≤ limit_price higher limit_ratio up)
      × (limit_price lower limit_ratio down ≤ limit_price higher limit_ratio down)
limit_price_mono p q r h =
    let (pu, pd) = limit_price-min-max p r in
    let (qu, qd) = limit_price-min-max q r in
    let above : p * (100 + r) ≤ q * (100 + r) = mul-le-mul_right (100 + r) h in
    let below : p * (100 - r) ≤ q * (100 - r) = mul-le-mul_right (100 - r) h in
    (rw (pu, qu) (omega (arith, above)), rw (pd, qd) (omega (arith, below)))

down-lt-up : (p r : ℕ) → 0 < p → limit_price p r down < limit_price p r up
down-lt-up p r positive = let (u, d) = limit_price-min-max p r in rw (u, d) (omega arith)

at_limit-one :
    (price : Option ℤ) (a b : ℕ)
    → a < b
    → at_limit price a ≡ some true
    → at_limit price b ≡ some true
    → ⊥
unfolding at_tick_price
at_limit-one none a b h e f = cc
at_limit-one (some (pos n)) a b h e f = ground arith
at_limit-one (some (negsuc n)) a b h e f = ground arith

-- No last price is at the limit up and at the limit down.
pub calculate-never_both :
    (stock_code exchange : Option Text) (pre_close_price last_price : Option ℤ)
    (is_new : Option Bool)
    → let limits = calculate stock_code exchange pre_close_price last_price is_new in
      ¬ ((limits.is_limit_up ≡ some true) × (limits.is_limit_down ≡ some true))
unfolding calculate
calculate-never_both stock_code exchange pre_close_price last_price is_new =
    go (board_rule stock_code exchange) refl is_new pre_close_price
  where
    Goal : Option ℤ → Option Bool → Type 0
    Goal pc new =
        let limits = calculate stock_code exchange pc last_price new in
        ¬ ((limits.is_limit_up ≡ some true) × (limits.is_limit_down ≡ some true))

    go :
        (o : Option (Board × ℕ))
        → board_rule stock_code exchange ≡ o
        → (new : Option Bool) (pc : Option ℤ) → Goal pc new
    go none e new pc = rw (e, calculate) (λ h. cc)
    go (some (board, ratio)) e none pc = rw (e, calculate) (λ h. cc)
    go (some (board, ratio)) e (some true) pc = rw (e, calculate) (λ h. cc)
    go (some (board, ratio)) e (some false) (some (pos (suc n))) =
        rw (e, calculate)
          (λ h.
            at_limit-one last_price (limit_price (suc n) ratio down) (limit_price (suc n) ratio up)
              (down-lt-up (suc n) ratio (omega arith)) h.1 h.0)
    go (some (board, ratio)) e (some false) _ = rw (e, calculate) (λ h. cc)

-- The limits are available exactly when the board is known, the stock is known not to be in its
-- first five days, and the previous close is a positive number.
pub calculate-available :
    (stock_code exchange : Option Text) (pre_close_price last_price : Option ℤ)
    (is_new : Option Bool)
    → ((calculate stock_code exchange pre_close_price last_price is_new).available ≡ true) ↔ (
        ((rule : Board × ℕ) × (board_rule stock_code exchange ≡ some rule))
        × (is_new ≡ some false)
        × ((n : ℕ) × (positive_price pre_close_price ≡ some n)))
unfolding calculate
calculate-available stock_code exchange pre_close_price last_price is_new =
    go (board_rule stock_code exchange) refl is_new (positive_price pre_close_price) refl
  where
    Goal : Option Bool → Type 0
    Goal new = ((calculate stock_code exchange pre_close_price last_price new).available ≡ true) ↔ (
        ((rule : Board × ℕ) × (board_rule stock_code exchange ≡ some rule))
        × (new ≡ some false)
        × ((n : ℕ) × (positive_price pre_close_price ≡ some n)))

    go :
        (o : Option (Board × ℕ))
        → board_rule stock_code exchange ≡ o
        → (new : Option Bool) (p : Option ℕ) → positive_price pre_close_price ≡ p
        → Goal new
    go none e new p q = rw (e, calculate) (λ h. cc, λ h. cc (h.0.1))
    go (some rule) e none p q = rw (e, calculate) (λ h. cc, λ h. cc (h.1))
    go (some rule) e (some true) p q = rw (e, calculate) (λ h. cc, λ h. cc (h.1))
    go (some rule) e (some false) none q = rw (e, q, calculate) (λ h. cc, λ h. cc (h.2.1))
    go (some rule) e (some false) (some n) q =
        rw (e, q, calculate) (λ h. ((rule, refl), refl, (n, refl)), λ h. refl)
