-- ===== src/RateLimit/Tushare.antt =====
-- python-back/app/modules/market_data/tushare/rate_limit.py: TushareRateCoordinator. The table of
-- queues (a defaultdict) is a function of the token's id. One pass over the candidates under the
-- asyncio lock is one atomic step.
pub mod Safety
pub mod Choice
pub mod Progress
use stock_center.Base.{
  ℕ, zero, suc, ◌+◌, ◌-◌, ◌*◌, Bool, true, false, Option, none, some, List, [], ◌∷◌, ◌++◌, max, min,
  ltb, leb, if◌then◌else◌, length, ◌&&◌, ◌==◌, any,
}
use stock_center.RateLimit.Window.{trim}

-- 60 seconds.
abbrev pub minute : ℕ
minute = 60000000

abbrev pub Requests : Type 0
Requests = ℕ → List ℕ

abbrev pub update : Requests → ℕ → List ℕ → Requests
update reqs id slots j = if id == j then slots else reqs j

-- `while slots and now - slots[0] >= 60: slots.popleft()`.
unfoldable pub pop_expired : ℕ → List ℕ → List ℕ
unfolding trim
pop_expired now slots = trim minute now slots

-- `max(60 - (now - slots[0]), 0)`. The queue is not empty here: its length has reached a
-- per-minute limit of at least 1.
unfoldable pub wait_for : ℕ → List ℕ → ℕ
wait_for now [] = 0
wait_for now (t ∷ ts) = t + minute - now

pub data Pass : Type 0 where
  reserved : ℕ → Pass
  busy : List ℕ → Pass

-- The `for value_id, per_minute in candidates` loop, `waits` being the waits so far.
unfoldable pub pass : ℕ → List (ℕ × ℕ) → List ℕ → Requests → Pass × Requests
unfolding pop_expired wait_for
pass now [] waits reqs = (busy waits, reqs)
pass now ((id, per_minute) ∷ rest) waits reqs =
    let slots = pop_expired now (reqs id) in
    let others = pass now rest (waits ++ wait_for now slots ∷ []) (update reqs id slots) in
    if ltb (length slots) per_minute
    then (reserved id, update reqs id (slots ++ now ∷ []))
    else others

abbrev pub minimum : List ℕ → ℕ
minimum [] = 0
minimum (w ∷ []) = w
minimum (w ∷ v ∷ ws) = min w (minimum (v ∷ ws))

pub data Outcome : Type 0 where
  granted : ℕ → Outcome
  value_error : Outcome
  rate_limit_timeout : ℕ → Outcome

-- The `while True` loop on fuel for a task that runs alone; `none` means that the fuel ran out.
-- `wake t` is the clock at the next reading, `t` or later: after a sleep that was to end at `t`, or
-- between two readings.
module _ (wake : ℕ → ℕ) (candidates : List (ℕ × ℕ)) (deadline : ℕ) where
  unfoldable pub wait_loop : ℕ → ℕ → Requests → Option (Outcome × Requests)
  unfolding pass
  wait_loop zero now reqs = none
  wait_loop (suc fuel) now reqs =
      let (r, reqs') = pass now candidates [] reqs in
      elim r [
        | reserved id ↦ some (granted id, reqs')
        | busy waits ↦
            let wait_seconds = minimum waits in
            let again = wait_loop fuel (wake (now + wait_seconds)) reqs' in
            if ltb deadline (now + wait_seconds)
            then some (rate_limit_timeout wait_seconds, reqs')
            else again
      ]

unfoldable pub reserve : (ℕ → ℕ) → ℕ → ℕ → List (ℕ × ℕ) → ℕ → Requests → Option (Outcome × Requests)
unfolding wait_loop any
reserve wake fuel now [] max_wait_seconds reqs = some (value_error, reqs)
reserve wake fuel now (c ∷ cs) max_wait_seconds reqs =
    let looped = wait_loop wake (c ∷ cs) (now + max_wait_seconds) fuel (wake now) reqs in
    if any (λ (id, per_minute). ltb per_minute 1) (c ∷ cs) then some (value_error, reqs) else looped

unfoldable pub acquire : (ℕ → ℕ) → ℕ → ℕ → ℕ → ℕ → ℕ → Requests → Option (Outcome × Requests)
unfolding reserve
acquire wake fuel now value_id per_minute max_wait_seconds reqs =
    reserve wake fuel now ((value_id, per_minute) ∷ []) max_wait_seconds reqs
