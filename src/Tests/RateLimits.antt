-- ===== src/Tests/RateLimits.antt =====
-- Examples for the rate limits.
use stock_center.Base.{ℕ, ◌+◌, ◌≤◌, ◌≡◌, List, [], ◌∷◌, some, arith, length, ◌==◌, if◌then◌else◌}
use stock_center.RateLimit.Window.{Spaced, trim}
use stock_center.RateLimit.Realtime.{RealtimeRateBudget, safe_limit, try_acquire, snapshot}
use stock_center.RateLimit.Realtime.Safety.{
  System, tried, Reach, here, next, fresh, start, Reach-Spaced,
}
use stock_center.RateLimit.Realtime.Progress.{Succeeds, acquire_solo}
use stock_center.RateLimit.Tushare.{Requests, minute, pass, reserve, granted}
use stock_center.RateLimit.Tushare.Safety as Tokens
use stock_center.RateLimit.Tushare.Progress.{reserve-granted}

-- Two requests a minute, of which half may be used.
abbrev small_budget : RealtimeRateBudget
small_budget = fresh 2 1 2 60000000

abbrev one_grant : System
one_grant = record { budget = (try_acquire 5 small_budget).1; grants = 5 ∷ []; clock = 5 }

one_grant-Reach : Reach (start small_budget) one_grant
unfolding try_acquire safe_limit trim
one_grant-Reach = next here (tried 5 (omega arith))

Reach-Spaced_example :
    Spaced (safe_limit small_budget) 60000000 one_grant.grants
    × ((now : ℕ)
        → let s = (snapshot now one_grant.budget).0 in
          s.used_requests_in_window + s.remaining_requests_in_window ≡ safe_limit small_budget)
Reach-Spaced_example = Reach-Spaced 2 1 2 60000000 one_grant-Reach

acquire_solo_example :
    Succeeds (λ t. t + 1) (λ t. t + 2) (λ t. omega arith) (λ t. omega arith) 3 10 small_budget
acquire_solo_example =
    acquire_solo (λ t. t + 1) (λ t. t + 2) (λ t. omega arith) (λ t. omega arith) 10 small_budget
      (omega arith)

-- Token 1 has had its one request, token 2 has room.
abbrev two_tokens : List (ℕ × ℕ)
two_tokens = (1, 1) ∷ (2, 3) ∷ []

abbrev used : Requests
used j = if j == 1 then 7 ∷ [] else []

abbrev after_one_pass : Tokens.System
after_one_pass = record {
  requests = (pass 4 two_tokens [] (λ j. [])).1;
  grants = Tokens.note 4 (pass 4 two_tokens [] (λ j. [])).0 (λ j. []);
  clock = 4;
}

abbrev limits : ℕ → ℕ
limits j = if j == 1 then 1 else 3

Reach-Spaced_each_example :
    Spaced (limits 1) minute (after_one_pass.grants 1)
    × (length (after_one_pass.requests 1) ≤ limits 1)
Reach-Spaced_each_example =
    Tokens.Reach-Spaced_each limits {t = after_one_pass}
      (Tokens.next Tokens.here
        (Tokens.passed 4 two_tokens (omega arith) (omega arith, (omega arith, tt))))
      1

reserve-granted_example :
    (id : ℕ) × (after : Requests) × (reserve (λ t. t + 1) 2 9 ((1, 1) ∷ []) 60000001 used
      ≡ some (granted id, after))
reserve-granted_example =
    reserve-granted (λ t. t + 1) (λ t. omega arith) ((1, 1) ∷ []) 9 60000001 used (λ e. cc)
      (record { positive = omega arith; within = omega arith; past = (omega arith, tt) }, tt)
      (omega arith)
