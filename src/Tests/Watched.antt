-- ===== src/Tests/Watched.antt =====
-- Examples for the targets of the realtime runtime.
use stock_center.Base.{
  ℕ, ◌+◌, ◌*◌, ◌<◌, ◌≤◌, ◌≡◌, refl, Bool, true, false, List, [], ◌∷◌, length, take, drop, select,
  arith, String,
}
use stock_center.Base.Int.{pos}
use stock_center.Base.Slices.{Listed}
use stock_center.Base.Text.{Text, codes}
use stock_center.RateLimit.Realtime.{RealtimeRateBudget, safe_limit}
use stock_center.StockPool.{hot, MinuteLane, guaranteed, rotating}
use stock_center.Targets.{Pool, Target, page_watch, Reference}
use stock_center.Targets.Plan.{
  RealtimeSettings, is_guaranteed, registered_targets, overflow_of, hot_requests, rounds_per_minute,
  minute_target_plan,
}
use stock_center.Targets.Rotation.{free_slots, cursor_after, rotation-fair}
use stock_center.Targets.Minutes.{overflow-waits}
use stock_center.Scheduler.Store.{count_where}
use stock_center.Targets.Requests.{requests_of, minute_requests-within}

abbrev settings : RealtimeSettings
settings = record {
  quote_batch_size = 2;
  decision_target_limit = 3;
  decision_quote_interval_seconds = 30;
  minute_guaranteed_target_count = 2;
  minute_registered_target_limit = 5;
}

abbrev target : String → MinuteLane → Target
target code lane = record {
  stock_code = codes code;
  reason = page_watch;
  priority = 900;
  signal_score = pos 0;
  quote_lane = hot;
  minute_lane = lane;
  memberships = [];
}

-- One slot is free: three targets take turns.
abbrev one_kept : List Target
one_kept =
    target "600000" guaranteed
    ∷ target "000001" rotating
    ∷ target "000002" rotating
    ∷ target "000004" rotating
    ∷ []

last_waits : Listed (target "000004" rotating) (overflow_of settings one_kept)
unfolding take drop select
last_waits = (2, refl)

one_free : 0 < free_slots settings one_kept
unfolding take select
one_free = omega arith

rotation-fair_example :
    (r : ℕ) × (r * free_slots settings one_kept < length (overflow_of settings one_kept))
    × Listed
        (target "000004" rotating)
        (minute_target_plan settings (cursor_after r settings 7 one_kept) one_kept).selected
rotation-fair_example =
    rotation-fair settings one_kept 7 (target "000004" rotating) one_free last_waits

-- Three are guaranteed, and two are asked for.
abbrev three_kept : List Target
three_kept =
    target "600000" guaranteed ∷ target "000001" guaranteed ∷ target "000002" guaranteed ∷ []

three_registered : 2 ≤ length (select is_guaranteed (registered_targets settings three_kept))
unfolding take select
three_registered = omega arith

overflow-waits_example :
    (minute_target_plan settings 7 three_kept).selected
    ≡ take 2 (select is_guaranteed (registered_targets settings three_kept))
overflow-waits_example = overflow-waits settings three_kept 7 three_registered

abbrev ten_requests : RealtimeRateBudget
ten_requests = record {
  purchased_limit = 10;
  ratio_num = 1;
  ratio_den = 1;
  window_seconds = 60000000;
  request_times = [];
  cooldown_until = 0;
  rate_limited_count = 0;
}

abbrev two_rounds : List (Bool × List Target)
two_rounds = (true, one_kept) ∷ (false, three_kept) ∷ []

one_warm : count_where (λ r. r.0) two_rounds ≤ 1
unfolding count_where
one_warm = omega arith

room : hot_requests settings * rounds_per_minute settings + 6 ≤ safe_limit ten_requests
unfolding safe_limit
room = omega arith

minute_requests-within_example :
    requests_of ten_requests settings two_rounds + 6 ≤ safe_limit ten_requests
minute_requests-within_example =
    minute_requests-within ten_requests settings two_rounds (omega arith) (omega arith) one_warm
      room

-- A pool of two active stocks, one of which a page shows too.
abbrev hot_pool : Pool
hot_pool = record {
  pool_code = codes "hot";
  realtime_policy = record {
    is_enabled = true;
    priority = 10;
    quote_lane = hot;
    minute_lane = rotating;
  };
  stock_codes = codes "000001" ∷ codes "600000" ∷ [];
}

abbrev reference : Reference
reference = record {
  active_codes = codes "600000" ∷ codes "000001" ∷ [];
  pools = hot_pool ∷ [];
  page_targets = codes "600000" ∷ [];
  market_round_quotes =
      record { stock_code = codes "000001"; change_pct = pos 5000000; amount_yuan = pos 10 } ∷ [];
}
