-- ===== src/RateLimit/Realtime.antt =====
-- python-back/app/modules/realtime_market/rate_limit.py: RealtimeRateBudget. A method takes the
-- clock reading that its body makes and returns the new budget; the asyncio lock makes each body
-- one atomic step, and tasks interleave between the steps.
pub mod Safety
pub mod Refine
pub mod Progress
use stock_center.Base.{
  ℕ, zero, suc, ◌+◌, ◌-◌, ◌*◌, ◌/◌, Bool, true, false, Option, none, some, List, [], ◌∷◌, ◌++◌, max,
  ltb, leb, if◌then◌else◌, length, ◌&&◌,
}
use stock_center.RateLimit.Window.{trim}

-- `safety_ratio` is ratio_num / ratio_den.
pub record RealtimeRateBudget : Type 0 where
  pub purchased_limit : ℕ
  pub ratio_num : ℕ
  pub ratio_den : ℕ
  pub window_seconds : ℕ
  pub request_times : List ℕ
  pub cooldown_until : ℕ
  pub rate_limited_count : ℕ

unfoldable pub safe_limit : RealtimeRateBudget → ℕ
safe_limit b = max 1 (b.purchased_limit * b.ratio_num / b.ratio_den)

-- 0.001 seconds.
abbrev pub millisecond : ℕ
millisecond = 1000

abbrev pub trimmed : ℕ → RealtimeRateBudget → RealtimeRateBudget
trimmed now b = record b { request_times = trim b.window_seconds now b.request_times }

-- `max(0.001, self._request_times[0] + self.window_seconds - now)`; the queue is not empty here,
-- since its length has reached a limit of at least 1.
abbrev pub oldest_delay : ℕ → ℕ → List ℕ → ℕ
oldest_delay window now [] = millisecond
oldest_delay window now (t ∷ ts) = max millisecond (t + window - now)

unfoldable pub next_delay : ℕ → RealtimeRateBudget → ℕ × RealtimeRateBudget
next_delay now b =
    let b' = trimmed now b in
    (
      (if ltb now b'.cooldown_until
          then b'.cooldown_until - now
          else if ltb (length b'.request_times) (safe_limit b')
          then 0
          else oldest_delay b'.window_seconds now b'.request_times),
      b',
    )

-- The locked part of `acquire`: the checks made again, and the request recorded.
unfoldable pub try_acquire : ℕ → RealtimeRateBudget → Bool × RealtimeRateBudget
try_acquire now b =
    let b' = trimmed now b in
    if leb b'.cooldown_until now && ltb (length b'.request_times) (safe_limit b')
    then (true, record b' { request_times = b'.request_times ++ now ∷ [] })
    else (false, b')

-- `cooldown_seconds or 0.0`, and negative values count as 0.
unfoldable pub record_rate_limit : ℕ → Option ℕ → RealtimeRateBudget → RealtimeRateBudget
record_rate_limit now cooldown_seconds b = record b {
  rate_limited_count = b.rate_limited_count + 1;
  cooldown_until = max b.cooldown_until (now + elim cooldown_seconds [ none ↦ 0 | some c ↦ c ]);
}

-- Without safety_ratio, a constant of the budget; the remaining cooldown is not rounded.
pub record Snapshot : Type 0 where
  pub purchased_limit_per_minute : ℕ
  pub safe_budget_per_minute : ℕ
  pub used_requests_in_window : ℕ
  pub remaining_requests_in_window : ℕ
  pub cooldown_remaining_seconds : ℕ
  pub rate_limited_count : ℕ

unfoldable pub snapshot : ℕ → RealtimeRateBudget → Snapshot × RealtimeRateBudget
snapshot now b =
    let b' = trimmed now b in
    (
      record {
        purchased_limit_per_minute = b'.purchased_limit;
        safe_budget_per_minute = safe_limit b';
        used_requests_in_window = length b'.request_times;
        remaining_requests_in_window = safe_limit b' - length b'.request_times;
        cooldown_remaining_seconds = b'.cooldown_until - now;
        rate_limited_count = b'.rate_limited_count;
      },
      b',
    )

-- The loop of `acquire` for a task that runs alone, on fuel: `reread now` is the clock at the
-- second lock, `wake t` the clock after a sleep that was to end at `t`. The result is the time of
-- the grant and the budget after it; `none` means that the fuel ran out.
module _ (reread wake : ℕ → ℕ) where
  unfoldable pub acquire : ℕ → ℕ → RealtimeRateBudget → Option (ℕ × RealtimeRateBudget)
  acquire zero now b = none
  acquire (suc fuel) now b =
      let (delay, b') = next_delay now b in
      let (granted, b'') = try_acquire (reread now) b' in
      let again = acquire fuel (reread now) b'' in
      let later = acquire fuel (wake (now + delay)) b' in
      if leb delay 0 then (if granted then some (reread now, b'') else again) else later
