-- ===== src/RateLimit/Realtime/Refine/Abstract.antt =====
-- What the budget of realtime_market/service.py promises, without a queue, and the calls that both
-- answer.
use stock_center.Base.{
  ℕ, ◌+◌, ◌≤◌, Bool, true, Option, none, some, List, [], ◌∷◌, ◌++◌, ltb, leb, ◌==◌, if◌then◌else◌,
  ◌&&◌, max,
}
use stock_center.Scheduler.Store.{count_where}
use stock_center.RateLimit.Realtime.{
  RealtimeRateBudget, safe_limit, next_delay, try_acquire, record_rate_limit,
}

-- The abstract budget: it forgets nothing, and has no queue.
pub record Promise : Type 0 where
  pub limit : ℕ
  pub window : ℕ
  pub until : ℕ
  pub grants : List ℕ

unfoldable pub recent : ℕ → ℕ → List ℕ → ℕ
unfolding count_where
recent window now grants = count_where (λ t. ltb now (t + window)) grants

abbrev pub allows : ℕ → Promise → Bool
allows now p = leb p.until now && ltb (recent p.window now p.grants) p.limit

pub data Call : Type 0 where
  acquire : ℕ → Call
  limited : ℕ → Option ℕ → Call
  poll : ℕ → Call

abbrev pub time_of : Call → ℕ
time_of (acquire now) = now
time_of (limited now cooldown) = now
time_of (poll now) = now

abbrev pub Ordered : ℕ → List Call → Type 0
Ordered clock [] = Unit
Ordered clock (c ∷ cs) = (clock ≤ time_of c) × Ordered (time_of c) cs

-- A call's answer, and the budget after it: a poll answers whether there is nothing to wait for.
unfoldable pub step : Call → RealtimeRateBudget → Bool × RealtimeRateBudget
unfolding try_acquire next_delay record_rate_limit
step (acquire now) b = try_acquire now b
step (limited now cooldown) b = (true, record_rate_limit now cooldown b)
step (poll now) b = ((next_delay now b).0 == 0, (next_delay now b).1)

unfoldable pub promise_step : Call → Promise → Bool × Promise
unfolding recent
promise_step (acquire now) p =
    (allows now p, if allows now p then record p { grants = p.grants ++ now ∷ [] } else p)
promise_step (limited now cooldown) p =
    (true, record p { until = max p.until (now + elim cooldown [ none ↦ 0 | some c ↦ c ]) })
promise_step (poll now) p = (allows now p, p)

unfoldable pub answers : List Call → RealtimeRateBudget → List Bool
unfolding step
answers [] b = []
answers (c ∷ cs) b = (step c b).0 ∷ answers cs (step c b).1

unfoldable pub promised : List Call → Promise → List Bool
unfolding promise_step
promised [] p = []
promised (c ∷ cs) p = (promise_step c p).0 ∷ promised cs (promise_step c p).1

-- What a budget that has granted nothing yet promises.
abbrev pub promise_of : RealtimeRateBudget → Promise
promise_of b = record {
  limit = safe_limit b;
  window = b.window_seconds;
  until = b.cooldown_until;
  grants = [];
}
