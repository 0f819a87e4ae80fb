-- ===== src/RateLimit/Realtime/Refine.antt =====
-- The budget against what it promises: a request is granted when no cooldown is on and fewer
-- requests than the safe limit were granted within the last window, counted over all grants.
pub mod Abstract
pub mod Order
use stock_center.Base.{
  ℕ, ◌+◌, ◌-◌, ◌≤◌, ◌<◌, ◌≡◌, refl, sym, ap, ◌∙◌, Bool, true, false, Option, none, some, List, [],
  ◌∷◌, ◌++◌, arith, ltb, leb, ◌==◌, if◌then◌else◌, length, All, All-append, All-map_of, Bool-cases,
  inl, inr, ◌&&◌, max,
}
use mathlib.Core.List.{append_assoc}
use stock_center.Scheduler.Store.{count_where}
use stock_center.RateLimit.Window.{trim, popped, popped-append-trim, popped_expired}
use stock_center.RateLimit.Realtime.{
  RealtimeRateBudget, trimmed, safe_limit, oldest_delay, next_delay, try_acquire, record_rate_limit,
}
use stock_center.RateLimit.Realtime.Refine.Abstract.{
  Promise, recent, allows, Call, acquire, limited, poll, time_of, Ordered, step, promise_step,
  answers, promised, promise_of,
}
use stock_center.RateLimit.Realtime.Refine.Order.{
  Rising, recent-append, recent-expired, recent-trim, Rising-weaker, Rising-trim, All-trim,
  Rising-append,
}

-- The queue is what is left of the grants when expired ones are dropped from the front.
record Refines (clock : ℕ) (b : RealtimeRateBudget) (p : Promise) : Type 0 where
  limit : safe_limit b ≡ p.limit
  window : b.window_seconds ≡ p.window
  until : b.cooldown_until ≡ p.until
  old : List ℕ
  split : p.grants ≡ old ++ b.request_times
  expired : All (λ t. t + b.window_seconds ≤ clock) old
  rising : Rising 0 b.request_times
  past : All (λ t. t ≤ clock) b.request_times

module _ {clock : ℕ} {b : RealtimeRateBudget} {p : Promise} (now : ℕ) (later : clock ≤ now)
    (r : Refines clock b p) where
  past_now : All (λ t. t ≤ now) b.request_times
  past_now = All-map_of (λ t. t ≤ clock) (λ t. t ≤ now) (λ t e. omega arith) b.request_times r.past

  expired_now : All (λ t. t + b.window_seconds ≤ now) r.old
  expired_now =
      All-map_of (λ t. t + b.window_seconds ≤ clock) (λ t. t + b.window_seconds ≤ now)
        (λ t e. omega arith) r.old r.expired

  recent-queue : recent p.window now p.grants ≡ length (trim b.window_seconds now b.request_times)
  recent-queue = rw (← r.window) (
      rw (r.split) (
        recent-append b.window_seconds now r.old b.request_times
        ∙ rw (recent-expired b.window_seconds now r.old expired_now)
            (omega (arith, recent-trim b.window_seconds now 0 b.request_times r.rising))))

  allows-queue : allows now p ≡ (
      leb b.cooldown_until now
      && ltb (length (trim b.window_seconds now b.request_times)) (safe_limit b))
  allows-queue = rw (recent-queue) (rw (← r.limit) (rw (← r.until) refl))

  trimmed-Refines : Refines now (trimmed now b) p
  unfolding safe_limit
  trimmed-Refines = record {
    limit = r.limit;
    window = r.window;
    until = r.until;
    old = r.old ++ popped b.window_seconds now b.request_times;
    split =
        r.split
        ∙ ap (λ q. r.old ++ q) (sym (popped-append-trim b.window_seconds now b.request_times))
        ∙ sym (
            append_assoc r.old (popped b.window_seconds now b.request_times)
              (trim b.window_seconds now b.request_times));
    expired =
        All-append _ r.old (popped b.window_seconds now b.request_times) expired_now
          (popped_expired b.window_seconds now b.request_times);
    rising = Rising-trim b.window_seconds now 0 b.request_times r.rising;
    past = All-trim (λ t. t ≤ now) b.window_seconds now b.request_times past_now;
  }

  ready_delay :
      (cool room : Bool) (until : ℕ) (queue : List ℕ)
      → cool ≡ leb until now
      → ((if ltb now until
            then until - now
            else if room
            then 0
            else oldest_delay b.window_seconds now queue)
          == 0)
        ≡ (leb until now && room)
  ready_delay cool true until queue e = ground arith
  ready_delay cool false until [] e = ground arith
  ready_delay cool false until (t ∷ ts) e = ground arith

  admitted-Refines :
      Refines now
        (record b { request_times = trim b.window_seconds now b.request_times ++ now ∷ [] })
        (record p { grants = p.grants ++ now ∷ [] })
  unfolding safe_limit
  admitted-Refines =
      let t = trimmed-Refines in
      let q = trim b.window_seconds now b.request_times in
      record {
        limit = r.limit;
        window = r.window;
        until = r.until;
        old = t.old;
        split = ap (λ g. g ++ now ∷ []) t.split ∙ append_assoc t.old q (now ∷ []);
        expired = t.expired;
        rising = Rising-append 0 now q (omega arith) t.rising t.past;
        past = All-append (λ t. t ≤ now) q (now ∷ []) t.past (omega arith, tt);
      }

  acquire-Refines :
      ((try_acquire now b).0 ≡ allows now p)
      × Refines now (try_acquire now b).1 (promise_step (acquire now) p).1
  unfolding try_acquire promise_step safe_limit
  acquire-Refines =
      let room =
        leb b.cooldown_until now
        && ltb (length (trim b.window_seconds now b.request_times)) (safe_limit b) in
      elim (Bool-cases room) [
        | inl e ↦ rw (allows-queue ∙ e) (rw (e, try_acquire) (refl, admitted-Refines))
        | inr e ↦ rw (allows-queue ∙ e) (rw (e, try_acquire) (refl, trimmed-Refines))
      ]

  poll-Refines : (((next_delay now b).0 == 0) ≡ allows now p) × Refines now (next_delay now b).1 p
  unfolding next_delay safe_limit
  poll-Refines =
      let queue = trim b.window_seconds now b.request_times in
      (
        ready_delay (leb b.cooldown_until now) (ltb (length queue) (safe_limit b)) b.cooldown_until
              queue refl
            ∙ sym allows-queue,
        trimmed-Refines,
      )

  limited-Refines :
      (cooldown : Option ℕ)
      → Refines now (record_rate_limit now cooldown b) (promise_step (limited now cooldown) p).1
  unfolding record_rate_limit promise_step safe_limit
  limited-Refines cooldown = record {
    limit = r.limit;
    window = r.window;
    until = ap (λ u. max u (now + elim cooldown [ none ↦ 0 | some c ↦ c ])) r.until;
    old = r.old;
    split = r.split;
    expired = expired_now;
    rising = r.rising;
    past = past_now;
  }

step-Refines :
    (clock : ℕ) (b : RealtimeRateBudget) (p : Promise) (c : Call)
    → clock ≤ time_of c
    → Refines clock b p
    → ((step c b).0 ≡ (promise_step c p).0) × Refines (time_of c) (step c b).1 (promise_step c p).1
unfolding step promise_step
step-Refines clock b p (acquire now) later r = acquire-Refines now later r
step-Refines clock b p (limited now cooldown) later r = (refl, limited-Refines now later r cooldown)
step-Refines clock b p (poll now) later r = poll-Refines now later r

answers-promised :
    (clock : ℕ) (cs : List Call) (b : RealtimeRateBudget) (p : Promise)
    → Ordered clock cs
    → Refines clock b p
    → answers cs b ≡ promised cs p
unfolding answers promised
answers-promised clock [] b p o r = refl
answers-promised clock (c ∷ cs) b p o r =
    let (same, next) = step-Refines clock b p c o.0 r in
    rw (same) (
      ap (λ l. (promise_step c p).0 ∷ l)
        (answers-promised (time_of c) cs (step c b).1 (promise_step c p).1 o.1 next))

-- A budget that has granted nothing yet gives, to any calls in the order of time, the answers of
-- its promise, which counts all grants of the last window and keeps no queue.
pub answers-refine :
    (b : RealtimeRateBudget) (calls : List Call)
    → b.request_times ≡ []
    → Ordered 0 calls
    → answers calls b ≡ promised calls (promise_of b)
answers-refine b calls e o = answers-promised 0 calls b (promise_of b) o (record {
  limit = refl;
  window = refl;
  until = refl;
  old = [];
  split = sym e;
  expired = tt;
  rising = rw (e) tt;
  past = rw (e) tt;
})
