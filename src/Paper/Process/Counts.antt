-- ===== src/Paper/Process/Counts.antt =====
-- The counters of process that are never raised.
use stock_center.Base.{
  ℕ, ◌+◌, ◌≡◌, refl, Bool, true, false, not, some, List, [], ◌∷◌, ◌==◌, ◌||◌, String, str_eq,
  eq_iff, length, All,
}
use mathlib.Core.Path.{subst}
use stock_center.Base.Fallible.{>>=-eq-some, some-injective}
use stock_center.Scheduler.Store.Rows.{All-update_where}
use stock_center.Paper.{Python, date_of, in_trade_hours}
use stock_center.Paper.Session.{
  Market, RuntimeCandidate, OpenTrade, Outcome, quiet, skipped, degraded, triggered, exit,
  outcome_text, process_candidate, process_open_trade,
}
use stock_center.Paper.Process.{
  Counter, Summary, Progress, bump, count_trade, fresh_summary, list_runtime_candidates,
  list_open_paper_trades, run_candidates, run_trades, run_all, process,
}

-- The keys that process has for purchases and for dropped candidates.
abbrev pub is_entry_key : String → Bool
is_entry_key key = str_eq key "triggered_count" || str_eq key "skipped_count"

abbrev pub AtZero : List Counter → Type 0
AtZero = All (λ c. not (is_entry_key c.key) || c.value == 0 ≡ true)

bump-AtZero :
    (key : String) (f : ℕ → ℕ) (s : Summary)
    → is_entry_key key ≡ false
    → AtZero s.counters
    → AtZero (bump key f s).counters
unfolding bump
bump-AtZero key f s other h =
    All-update_where (λ c. str_eq c.key key) (λ c. record c { value = f c.value })
      (λ c. not (is_entry_key c.key) || c.value == 0 ≡ true)
      (λ c z e. let same : c.key ≡ key = (eq_iff c.key key).0 e in rw (same, other) refl) s.counters
      h

outcome_text-other : (o : Outcome) → is_entry_key (outcome_text o) ≡ false
outcome_text-other quiet = refl
outcome_text-other skipped = refl
outcome_text-other degraded = refl
outcome_text-other triggered = refl
outcome_text-other exit = refl

count_trade-AtZero :
    (o : Outcome) (s : Summary) → AtZero s.counters → AtZero (count_trade o s).counters
count_trade-AtZero exit s h = bump-AtZero "exit_count" (λ n. n + 1) s refl h
count_trade-AtZero degraded s h = bump-AtZero "degraded_count" (λ n. n + 1) s refl h
count_trade-AtZero quiet s h = h
count_trade-AtZero skipped s h = h
count_trade-AtZero triggered s h = h

module _ (py : Python) (now : ℕ) (market : Market) where
  run_candidates-AtZero :
      (is : List RuntimeCandidate) (p : Progress) {r : Progress}
      → AtZero p.summary.counters
      → run_candidates py now market is p ≡ some r
      → AtZero r.summary.counters
  unfolding run_candidates
  run_candidates-AtZero [] p h e = subst (λ r. AtZero r.summary.counters) (some-injective e) h
  run_candidates-AtZero (i ∷ is) p h e =
      let (done, e1, k) = >>=-eq-some (process_candidate py now market i p.book) _ e in
      run_candidates-AtZero is _
        (bump-AtZero (outcome_text done.0) (λ n. n + 1) p.summary (outcome_text-other done.0) h) k

  run_trades-AtZero :
      (os : List OpenTrade) (p : Progress) {r : Progress}
      → AtZero p.summary.counters
      → run_trades py now market os p ≡ some r
      → AtZero r.summary.counters
  unfolding run_trades
  run_trades-AtZero [] p h e = subst (λ r. AtZero r.summary.counters) (some-injective e) h
  run_trades-AtZero (o ∷ os) p h e =
      let (done, e1, k) = >>=-eq-some (process_open_trade py now market o p.book) _ e in
      run_trades-AtZero os _ (count_trade-AtZero done.0 p.summary h) k

  run_all-AtZero :
      (service : Progress) {r : Progress}
      → run_all py now market service.book ≡ some r
      → AtZero r.summary.counters
  unfolding run_all
  run_all-AtZero service e =
      let candidates = list_runtime_candidates (date_of now) service.book in
      let start = bump "candidate_count" (λ n. length candidates) (fresh_summary (some now)) in
      let (p, e1, k) =
        >>=-eq-some
          (run_candidates py now market candidates
            (record { summary = start; book = service.book }))
          _ e in
      let trades = list_open_paper_trades p.book in
      run_trades-AtZero trades _
        (bump-AtZero "open_trade_count" (λ n. length trades) p.summary refl
          (run_candidates-AtZero candidates _
            (bump-AtZero "candidate_count" (λ n. length candidates) (fresh_summary (some now)) refl
              (refl, (refl, (refl, (refl, (refl, (refl, tt)))))))
            e1))
        k

  -- During the trade hours the summary of process reports no purchase and no dropped candidate,
  -- whatever the call did: both counters are zero.
  pub process-AtZero :
      (service : Progress) {r : Progress}
      → in_trade_hours now ≡ true
      → process py now market service ≡ some r
      → All (λ c. not (is_entry_key c.key) || c.value == 0 ≡ true) r.summary.counters
  unfolding process
  process-AtZero service z e = run_all-AtZero service (rw (z) at e)
