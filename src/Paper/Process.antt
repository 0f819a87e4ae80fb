-- ===== src/Paper/Process.antt =====
-- realtime_service.py: StrategyRealtimeService.process over the candidates and trades that the
-- queries of repository.py list. The lock makes a call one step. The summary counts under the keys
-- of its dict.
pub mod Sound
pub mod Counts
use stock_center.Base.{
  ℕ, suc, ◌+◌, Bool, true, false, not, Option, none, some, List, [], ◌∷◌, length, ltb, leb, ◌==◌,
  if◌then◌else◌, ◌&&◌, ◌||◌, String, str_eq, select, ◌++◌,
}
use stock_center.Base.Int.{ℤ, ltb_ℤ}
use stock_center.Base.Fallible.{◌>>=◌}
use stock_center.Scheduler.Store.{find, update_where}
use stock_center.Paper.{Python, date_of, in_trade_hours}
use stock_center.Paper.Book.{
  CandidateStatus, pending_confirmation, watching, StrategyCandidate, StrategyDefinition,
  StrategyVersion, StrategyPaperTrade, Book, is_open,
}
use stock_center.Paper.Session.{
  Market, RuntimeCandidate, OpenTrade, Outcome, quiet, skipped, degraded, triggered, exit,
  outcome_text, process_candidate, process_open_trade,
}

-- sort by a key: `before a b` when a's key is less.
unfoldable pub insert_by {ℓ} : {A : Type ℓ} → (A → A → Bool) → A → List A → List A
insert_by before x [] = x ∷ []
insert_by before x (y ∷ ys) =
    let rest = insert_by before x ys in if before y x then y ∷ rest else x ∷ y ∷ ys

unfoldable pub sort_by {ℓ} : {A : Type ℓ} → (A → A → Bool) → List A → List A
unfolding insert_by
sort_by before [] = []
sort_by before (x ∷ xs) = insert_by before x (sort_by before xs)

-- Ascending with nulls last, and descending with nulls last; `then` the next key where equal.
abbrev rank_before : Option ℕ → Option ℕ → Bool → Bool
rank_before (some a) (some b) tie = ltb a b || (a == b && tie)
rank_before (some a) none tie = true
rank_before none (some b) tie = false
rank_before none none tie = tie

abbrev score_before : Option ℤ → Option ℤ → Bool
score_before (some a) (some b) = ltb_ℤ b a
score_before (some a) none = true
score_before none b = false

abbrev pub candidate_before : RuntimeCandidate → RuntimeCandidate → Bool
candidate_before a b =
    rank_before a.candidate.rank_no b.candidate.rank_no
      (score_before a.candidate.score b.candidate.score)

abbrev pub trade_before : OpenTrade → OpenTrade → Bool
trade_before a b =
    ltb a.paper_trade.entry_at b.paper_trade.entry_at
    || (a.paper_trade.entry_at == b.paper_trade.entry_at && ltb a.paper_trade.id b.paper_trade.id)

abbrev pub is_listed : CandidateStatus → Bool
is_listed pending_confirmation = true
is_listed watching = true
is_listed _ = false

abbrev due_on : ℕ → Option ℕ → Bool
due_on date none = false
due_on date (some d) = d == date

abbrev pub when {ℓ} : {A : Type ℓ} → Bool → A → Option A
when true x = some x
when false x = none

-- The joins: a row whose definition or version is missing, or is not on paper, is dropped.
abbrev pub join_candidate : Book → StrategyCandidate → Option RuntimeCandidate
join_candidate book c = find (λ d. d.id == c.strategy_id) book.definitions >>= λ definition.
    find (λ v. v.id == c.strategy_version_id) book.versions >>= λ version.
    when (definition.is_paper && version.is_paper)
      (record { candidate = c; definition = definition; version = version })

abbrev pub join_trade : Book → StrategyPaperTrade → Option OpenTrade
join_trade book t = find (λ d. d.id == t.strategy_id) book.definitions >>= λ definition.
    find (λ c. c.id == t.candidate_id) book.candidates >>= λ candidate.
    find (λ v. v.id == candidate.strategy_version_id) book.versions >>= λ version.
    when (definition.is_paper && version.is_paper)
      (record { paper_trade = t; candidate = candidate })

abbrev pub push_some {ℓ} : {A : Type ℓ} → Option A → List A → List A
push_some none xs = xs
push_some (some x) xs = x ∷ xs

unfoldable pub joined {ℓ κ} : {A : Type ℓ} {B : Type κ} → (A → Option B) → List A → List B
joined f [] = []
joined f (x ∷ xs) = push_some (f x) (joined f xs)

unfoldable pub list_runtime_candidates : ℕ → Book → List RuntimeCandidate
unfolding joined sort_by select find
list_runtime_candidates trade_date book = sort_by candidate_before (
    joined (join_candidate book) (
      select (λ c. is_listed c.candidate_status && due_on trade_date c.confirmation_deadline)
        book.candidates))

unfoldable pub list_open_paper_trades : Book → List OpenTrade
unfolding joined sort_by select find
list_open_paper_trades book =
    sort_by trade_before (joined (join_trade book) (select is_open book.trades))

pub record Counter : Type 0 where
  pub key : String
  pub value : ℕ

pub record Summary : Type 0 where
  pub as_of : Option ℕ
  pub counters : List Counter

abbrev zeros : List Counter
zeros =
    record { key = "candidate_count"; value = 0 }
    ∷ record { key = "open_trade_count"; value = 0 }
    ∷ record { key = "triggered_count"; value = 0 }
    ∷ record { key = "exit_count"; value = 0 }
    ∷ record { key = "skipped_count"; value = 0 }
    ∷ record { key = "degraded_count"; value = 0 }
    ∷ []

abbrev pub fresh_summary : Option ℕ → Summary
fresh_summary as_of = record { as_of = as_of; counters = zeros }

-- summary[key] = f(summary[key]) where the key is there.
unfoldable pub bump : String → (ℕ → ℕ) → Summary → Summary
unfolding update_where
bump key f s = record s {
  counters = update_where (λ c. str_eq c.key key) (λ c. record c { value = f c.value }) s.counters;
}

-- The key that a trade's outcome counts under.
abbrev pub count_trade : Outcome → Summary → Summary
count_trade exit s = bump "exit_count" (λ n. n + 1) s
count_trade degraded s = bump "degraded_count" (λ n. n + 1) s
count_trade _ s = s

-- What the two loops carry.
pub record Progress : Type 0 where
  pub summary : Summary
  pub book : Book

module _ (py : Python) (now : ℕ) (market : Market) where
  -- `if outcome in summary: summary[outcome] += 1`, the outcome standing for itself.
  unfoldable pub run_candidates : List RuntimeCandidate → Progress → Option Progress
  unfolding process_candidate bump
  run_candidates [] p = some p
  run_candidates (i ∷ is) p = process_candidate py now market i p.book >>= λ done.
      run_candidates is
        (record { summary = bump (outcome_text done.0) (λ n. n + 1) p.summary; book = done.1 })

  unfoldable pub run_trades : List OpenTrade → Progress → Option Progress
  unfolding process_open_trade bump
  run_trades [] p = some p
  run_trades (o ∷ os) p = process_open_trade py now market o p.book >>= λ done.
      run_trades os (record { summary = count_trade done.0 p.summary; book = done.1 })

  -- The trades are listed after the candidates ran.
  unfoldable pub run_all : Book → Option Progress
  unfolding list_runtime_candidates list_open_paper_trades run_candidates run_trades bump
  run_all book =
      let candidates = list_runtime_candidates (date_of now) book in
      let start = bump "candidate_count" (λ n. length candidates) (fresh_summary (some now)) in
      run_candidates candidates (record { summary = start; book = book }) >>= λ p.
      let trades = list_open_paper_trades p.book in
      run_trades trades
        (record p { summary = bump "open_trade_count" (λ n. length trades) p.summary })

  -- The service holds the last summary; the answer is the new one.
  unfoldable pub process : Progress → Option Progress
  unfolding run_all
  process service = if in_trade_hours now then run_all service.book else some service
