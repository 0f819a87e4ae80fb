-- ===== src/Tests/Prices.antt =====
-- Examples for the price limits.
use stock_center.Base.{◌+◌, ◌-◌, ◌*◌, ◌≡◌, max, min}
use stock_center.PriceLimit.{price_tick, quantize, limit_price, up, down}
use stock_center.PriceLimit.Bounds.{limit_price-min-max}

limit_price-min-max_example :
    (limit_price 10050000 10 up ≡ max (quantize (10050000 * 110)) (10050000 + price_tick))
    × (limit_price 10050000 10 down
        ≡ max price_tick (min (quantize (10050000 * 90)) (10050000 - price_tick)))
limit_price-min-max_example = limit_price-min-max 10050000 10
