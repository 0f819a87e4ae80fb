-- ===== src/RateLimit/Realtime/Safety.antt =====
-- However the steps of the tasks interleave, the budget never lets more than its safe limit of
-- requests into one window.
use stock_center.Base.{
  ℕ, ◌+◌, ◌≤◌, ◌≡◌, refl, Option, List, [], ◌∷◌, ◌++◌, arith, ltb, leb, if◌then◌else◌, length,
  Bool-cases, inl, inr, ◌&&◌,
}
use stock_center.RateLimit.Window.{
  trim, Accounts, Accounts-trim, Accounts-admit, Accounts-later, Spaced, length-trim-le,
}
use stock_center.RateLimit.Realtime.{
  RealtimeRateBudget, safe_limit, next_delay, try_acquire, record_rate_limit, snapshot,
}

-- The budget, every grant since it was made (oldest first), and the last clock reading.
pub record System : Type 0 where
  pub budget : RealtimeRateBudget
  pub grants : List ℕ
  pub clock : ℕ

-- One locked body, run by any task at a clock reading that is not before the last one.
pub data Step (s : System) : System → Type 0 where
  polled :
      (now : ℕ)
      → s.clock ≤ now
      → Step s (record s { budget = (next_delay now s.budget).1; clock = now })
  tried :
      (now : ℕ)
      → s.clock ≤ now
      → Step s (record s {
        budget = (try_acquire now s.budget).1;
        grants = if (try_acquire now s.budget).0 then s.grants ++ now ∷ [] else s.grants;
        clock = now;
      })
  limited :
      (now : ℕ) (cooldown : Option ℕ)
      → s.clock ≤ now
      → Step s (record s { budget = record_rate_limit now cooldown s.budget; clock = now })
  observed :
      (now : ℕ)
      → s.clock ≤ now
      → Step s (record s { budget = (snapshot now s.budget).1; clock = now })

pub data Reach (s : System) : System → Type 0 where
  here : Reach s s
  next : {t u : System} → Reach s t → Step t u → Reach s u

-- The configuration never changes, and the queue accounts for every grant.
pub record IsSound (limit window : ℕ) (s : System) : Type 0 where
  pub limit_kept : safe_limit s.budget ≡ limit
  pub window_kept : s.budget.window_seconds ≡ window
  pub accounts : Accounts limit window s.clock s.grants s.budget.request_times

module _ {limit window : ℕ} where
  trimmed-IsSound :
      {s : System} (now : ℕ)
      → s.clock ≤ now
      → IsSound limit window s
      → Accounts limit window now s.grants (trim s.budget.window_seconds now s.budget.request_times)
  trimmed-IsSound {s} now h v =
      rw (v.window_kept)
        (Accounts-trim limit window s.clock now s.grants s.budget.request_times h v.accounts)

  tried-IsSound :
      {s : System} (now : ℕ) (h : s.clock ≤ now)
      → IsSound limit window s
      → IsSound limit window (record s {
        budget = (try_acquire now s.budget).1;
        grants = if (try_acquire now s.budget).0 then s.grants ++ now ∷ [] else s.grants;
        clock = now;
      })
  unfolding try_acquire trim safe_limit
  tried-IsSound {s} now h v =
      let a = trimmed-IsSound now h v in
      let q = trim s.budget.window_seconds now s.budget.request_times in
      elim (Bool-cases (leb s.budget.cooldown_until now && ltb (length q) (safe_limit s.budget))) [
        | inl e ↦
            rw (e, try_acquire)
              (record {
                limit_kept = v.limit_kept;
                window_kept = v.window_kept;
                accounts =
                    Accounts-admit limit window now s.grants q (ground (arith, v.limit_kept)) a;
              })
        | inr e ↦
            rw (e, try_acquire)
              (record { limit_kept = v.limit_kept; window_kept = v.window_kept; accounts = a })
      ]

  Step-IsSound : {s t : System} → Step s t → IsSound limit window s → IsSound limit window t
  unfolding next_delay record_rate_limit snapshot safe_limit
  Step-IsSound {s} (polled now h) v = record {
    limit_kept = v.limit_kept;
    window_kept = v.window_kept;
    accounts = trimmed-IsSound now h v;
  }
  Step-IsSound {s} (tried now h) v = tried-IsSound now h v
  Step-IsSound {s} (limited now cooldown h) v = record {
    limit_kept = v.limit_kept;
    window_kept = v.window_kept;
    accounts = Accounts-later limit window s.clock now s.grants s.budget.request_times h v.accounts;
  }
  Step-IsSound {s} (observed now h) v = record {
    limit_kept = v.limit_kept;
    window_kept = v.window_kept;
    accounts = trimmed-IsSound now h v;
  }

  Reach-IsSound : {s t : System} → IsSound limit window s → Reach s t → IsSound limit window t
  Reach-IsSound v here = v
  Reach-IsSound v (next r st) = Step-IsSound st (Reach-IsSound v r)

-- A budget as its class makes it: no request, no cooldown.
abbrev pub fresh : ℕ → ℕ → ℕ → ℕ → RealtimeRateBudget
fresh limit num den window = record {
  purchased_limit = limit;
  ratio_num = num;
  ratio_den = den;
  window_seconds = window;
  request_times = [];
  cooldown_until = 0;
  rate_limited_count = 0;
}

abbrev pub start : RealtimeRateBudget → System
start b = record { budget = b; grants = []; clock = 0 }

start-IsSound :
    (limit num den window : ℕ)
    → IsSound (safe_limit (fresh limit num den window)) window (start (fresh limit num den window))
start-IsSound limit num den window = record {
  limit_kept = refl;
  window_kept = refl;
  accounts = record {
    old = [];
    split = refl;
    expired = tt;
    bounded = omega arith;
    spaced = record { apart = λ i g h e f. cc };
  };
}

-- From a new budget, in whatever order tasks poll, try, report a server limit and take snapshots,
-- with clock readings that never fall: any two granted requests that are `safe_limit` grants apart
-- are at least a window apart, and a snapshot reports used and remaining requests that add up to
-- the safe limit.
pub Reach-Spaced :
    (limit num den window : ℕ) {t : System}
    → Reach (start (fresh limit num den window)) t
    → Spaced (safe_limit (fresh limit num den window)) window t.grants
      × ((now : ℕ)
          → let s = (snapshot now t.budget).0 in
            s.used_requests_in_window + s.remaining_requests_in_window
            ≡ safe_limit (fresh limit num den window))
unfolding snapshot trim safe_limit
Reach-Spaced limit num den window {t} r =
    let v = Reach-IsSound (start-IsSound limit num den window) r in
    (
      v.accounts.spaced,
      λ now. omega (
        arith,
        v.limit_kept,
        v.accounts.bounded,
        length-trim-le t.budget.window_seconds now t.budget.request_times,
      ),
    )
