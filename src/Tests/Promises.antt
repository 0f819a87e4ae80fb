-- ===== src/Tests/Promises.antt =====
-- An example for the promise of the realtime budget.
use stock_center.Base.{◌≡◌, refl, some, List, [], ◌∷◌, arith}
use stock_center.RateLimit.Realtime.{RealtimeRateBudget}
use stock_center.RateLimit.Realtime.Refine.{answers-refine}
use stock_center.RateLimit.Realtime.Refine.Abstract.{
  Call, acquire, limited, poll, answers, promised, promise_of,
}

-- Two requests a minute.
abbrev fresh : RealtimeRateBudget
fresh = record {
  purchased_limit = 2;
  ratio_num = 1;
  ratio_den = 1;
  window_seconds = 60000000;
  request_times = [];
  cooldown_until = 0;
  rate_limited_count = 0;
}

abbrev calls : List Call
calls =
    acquire 0
    ∷ acquire 1000
    ∷ acquire 2000
    ∷ limited 3000 (some 100000000)
    ∷ acquire 60000000
    ∷ poll 110000000
    ∷ []

answers-refine_example : answers calls fresh ≡ promised calls (promise_of fresh)
answers-refine_example =
    answers-refine fresh calls refl
      (omega arith, (omega arith, (omega arith, (omega arith, (omega arith, (omega arith, tt))))))
