-- ===== src/RateLimit/Realtime/Progress.antt =====
-- A task that acquires alone is granted its request: after at most one cooldown and one wait for
-- the oldest request to leave the window.
use stock_center.Base.{
  ℕ, zero, suc, ◌+◌, ◌≤◌, ◌<◌, ◌≡◌, refl, ap, true, false, some, List, [], ◌∷◌, ◌++◌, arith, ltb,
  leb, length, Bool-cases, ltb→lt, inl, inr, ◌⊎◌, ◌∙◌,
}
use stock_center.RateLimit.Window.{
  trim, length-trim-le, length-trim_mono, trim-trim, length-trim-lt_expired,
}
use stock_center.RateLimit.Realtime.{
  RealtimeRateBudget, safe_limit, trimmed, oldest_delay, next_delay, try_acquire, acquire,
}

-- The budget is ready at `now`: no cooldown, and room once the queue is trimmed.
pub record IsReady (now : ℕ) (b : RealtimeRateBudget) : Type 0 where
  pub cool : b.cooldown_until ≤ now
  pub room : length (trim b.window_seconds now b.request_times) < safe_limit b

next_delay-IsReady : (now : ℕ) (b : RealtimeRateBudget) → (next_delay now b).0 ≡ 0 → IsReady now b
unfolding next_delay safe_limit trim
next_delay-IsReady now b h = record { cool = ground arith; room = ground arith }

try_acquire-IsReady :
    (now : ℕ) (b : RealtimeRateBudget) → IsReady now b → (try_acquire now b).0 ≡ true
unfolding try_acquire safe_limit trim
try_acquire-IsReady now b r = ground (arith, r.cool, r.room)

-- Readiness outlives a trim and the passing of time.
IsReady-later :
    (now later : ℕ) (b : RealtimeRateBudget)
    → now ≤ later
    → IsReady now b
    → IsReady later (trimmed now b)
unfolding safe_limit
IsReady-later now later b h r = record {
  cool = omega (arith, r.cool);
  room =
      rw (trim-trim b.window_seconds now later b.request_times h)
        (omega (arith, length-trim_mono b.window_seconds now later b.request_times h, r.room));
}

-- Waiting for the oldest request makes room.
room_after :
    (w now later limit : ℕ) (q : List ℕ)
    → now + oldest_delay w now q ≤ later
    → length q ≤ limit
    → 0 < limit
    → length (trim w later q) < limit
unfolding trim
room_after w now later limit [] h fits some_limit = omega arith
room_after w now later limit (t ∷ ts) h fits some_limit =
    omega (arith, length-trim-lt_expired w later t ts (omega arith))

-- After the delay that was asked for, the cooldown is over, and if it was over before, there is
-- room, as long as the queue was within the limit.
next_delay-cool :
    (now later : ℕ) (b : RealtimeRateBudget)
    → now + (next_delay now b).0 ≤ later
    → b.cooldown_until ≤ later
unfolding next_delay safe_limit trim
next_delay-cool now later b h = ground arith

next_delay-room :
    (now later : ℕ) (b : RealtimeRateBudget)
    → b.cooldown_until ≤ now
    → now + (next_delay now b).0 ≤ later
    → length b.request_times ≤ safe_limit b
    → IsReady later (trimmed now b)
unfolding next_delay safe_limit trim
next_delay-room now later b cool h fits = record {
  cool = omega arith;
  room =
      let q = trim b.window_seconds now b.request_times in
      elim (Bool-cases (ltb (length q) (safe_limit b))) [
        | inl e ↦
            omega
              (arith, ltb→lt (length q) (safe_limit b) e, length-trim-le b.window_seconds later q)
        | inr e ↦
            room_after b.window_seconds now later (safe_limit b) q (ground arith)
              (omega (arith, length-trim-le b.window_seconds now b.request_times)) (ground arith)
      ];
}

next_delay-ready : (now : ℕ) (b : RealtimeRateBudget) → IsReady now b → (next_delay now b).0 ≡ 0
unfolding next_delay safe_limit trim
next_delay-ready now b r = ground (arith, r.cool, r.room)

next_delay-budget : (now : ℕ) (b : RealtimeRateBudget) → (next_delay now b).1 ≡ trimmed now b
unfolding next_delay
next_delay-budget now b = refl

-- What a grant at `t` leaves, for a task that began at `now` with the budget `b`: the cooldown is
-- over, and the queue is what is left of the old one at `t`, with `t` behind it.
pub record IsGranted (now : ℕ) (b : RealtimeRateBudget) (t : ℕ) (after : RealtimeRateBudget)
    : Type 0 where
  pub later : now ≤ t
  pub cool : b.cooldown_until ≤ t
  pub queue : after.request_times ≡ trim b.window_seconds t b.request_times ++ t ∷ []

try_acquire-IsGranted :
    (now t : ℕ) (b : RealtimeRateBudget)
    → now ≤ t
    → IsReady t b
    → IsGranted now b t (try_acquire t b).1
unfolding try_acquire safe_limit trim
try_acquire-IsGranted now t b h r = record {
  later = h;
  cool = r.cool;
  queue = ground (arith, r.cool, r.room);
}

-- A grant from the trimmed budget is one from the budget.
IsGranted-trimmed :
    (now mid t : ℕ) (b after : RealtimeRateBudget)
    → now ≤ mid
    → IsGranted mid (trimmed now b) t after
    → IsGranted now b t after
IsGranted-trimmed now mid t b after h g = record {
  later = omega (arith, g.later);
  cool = g.cool;
  queue =
      g.queue
      ∙ ap (λ q. q ++ t ∷ [])
          (trim-trim b.window_seconds now t b.request_times (omega (arith, g.later)));
}

pos→leb-zero : (n : ℕ) → 0 < n → leb n 0 ≡ false
pos→leb-zero n h = ground arith

zero_or_pos : (n : ℕ) → (n ≡ 0) ⊎ (0 < n)
zero_or_pos zero = inl refl
zero_or_pos (suc n) = inr (omega arith)

module _ (reread wake : ℕ → ℕ) (reread_later : (t : ℕ) → t ≤ reread t)
    (wake_later : (t : ℕ) → t ≤ wake t) where
  abbrev pub Succeeds : ℕ → ℕ → RealtimeRateBudget → Type 0
  Succeeds fuel now b =
      (t : ℕ) × (after : RealtimeRateBudget) × (acquire reread wake fuel now b ≡ some (t, after))
      × IsGranted now b t after

  acquire_ready : (f now : ℕ) (b : RealtimeRateBudget) → IsReady now b → Succeeds (suc f) now b
  unfolding acquire
  acquire_ready f now b r =
      let t = reread now in
      let ready = IsReady-later now t b (reread_later now) r in
      (
        t,
        (try_acquire t (trimmed now b)).1,
        rw (
          next_delay-ready now b r,
          next_delay-budget now b,
          try_acquire-IsReady t (trimmed now b) ready,
        ),
        IsGranted-trimmed now now t b (try_acquire t (trimmed now b)).1 (omega arith)
            (try_acquire-IsGranted now t (trimmed now b) (reread_later now) ready),
      )

  -- A round that has to wait goes on from the trimmed budget when the sleep ends.
  acquire_waits :
      (f now : ℕ) (b : RealtimeRateBudget)
      → 0 < (next_delay now b).0
      → Succeeds f (wake (now + (next_delay now b).0)) (trimmed now b)
      → Succeeds (suc f) now b
  unfolding acquire
  acquire_waits f now b delayed (t, after, e, g) =
      let mid = wake (now + (next_delay now b).0) in
      (
        t,
        after,
        rw (pos→leb-zero (next_delay now b).0 delayed, next_delay-budget now b) e,
        IsGranted-trimmed now mid t b after (omega (arith, wake_later (now + (next_delay now b).0)))
            g,
      )

  module _ (b : RealtimeRateBudget) where
    acquire_cool :
        (f now : ℕ)
        → b.cooldown_until ≤ now
        → length b.request_times ≤ safe_limit b
        → Succeeds (suc (suc f)) now b
    acquire_cool f now cool fits = elim (zero_or_pos (next_delay now b).0) [
      | inl z ↦ acquire_ready (suc f) now b (next_delay-IsReady now b z)
      | inr p ↦ acquire_waits (suc f) now b p (
          acquire_ready f (wake (now + (next_delay now b).0)) (trimmed now b) (
            next_delay-room now (wake (now + (next_delay now b).0)) b cool
              (wake_later (now + (next_delay now b).0)) fits))
    ]

  -- With a queue within the safe limit, a task that acquires alone is granted its request within
  -- three rounds, wherever the clock stands: after the cooldown, and with every request in the
  -- queue that has not left the window kept in front of the new one. Sleeps may end late.
  pub acquire_solo :
      (now : ℕ) (b : RealtimeRateBudget) → length b.request_times ≤ safe_limit b → Succeeds 3 now b
  unfolding safe_limit trim
  acquire_solo now b fits = elim (zero_or_pos (next_delay now b).0) [
    | inl z ↦ acquire_ready 2 now b (next_delay-IsReady now b z)
    | inr p ↦
        let mid = wake (now + (next_delay now b).0) in
        acquire_waits 2 now b p (
          acquire_cool (trimmed now b) 0 mid
            (next_delay-cool now mid b (wake_later (now + (next_delay now b).0)))
            (omega (arith, length-trim-le b.window_seconds now b.request_times)))
  ]
