-- ===== src/Paper/Process/Sound.antt =====
-- Every call of process keeps all paper trades sound.
use mathlib.Core.Path.{subst}
use stock_center.Base.{
  ℕ, ◌≡◌, ap, Bool, true, false, Option, some, List, [], ◌∷◌, ◌==◌, ◌&&◌, All, All-append,
  Bool-cases, Option-cases, inl, inr, select, arith,
}
use stock_center.Base.Fallible.{>>=-eq-some, none≢some, some-injective}
use stock_center.Scheduler.Store.{find}
use stock_center.Paper.{Python, date_of, in_trade_hours}
use stock_center.Paper.Book.{StrategyPaperTrade, Book, is_open, new_trade}
use stock_center.Paper.Book.Sound.{IsSound, new_trade-IsSound}
use stock_center.Paper.Session.{
  Market, RuntimeCandidate, OpenTrade, Outcome, process_candidate, process_open_trade,
}
use stock_center.Paper.Session.Trades.{BooksSound, process_open_trade_sound}
use stock_center.Paper.Session.Candidates.{
  Effect, kept, watched, dropped, entered, process_candidate-Effect,
}
use stock_center.Paper.Process.{
  insert_by, sort_by, join_trade, joined, when, trade_before, list_runtime_candidates,
  list_open_paper_trades, Progress, run_candidates, run_trades, run_all, process,
}

module _ {A : Type 0} (P : A → Type 0) (precedes : A → A → Bool) where
  All-insert_by : (x : A) (xs : List A) → P x → All P xs → All P (insert_by precedes x xs)
  unfolding insert_by
  All-insert_by x [] p h = (p, tt)
  All-insert_by x (y ∷ ys) p h = elim (Bool-cases (precedes y x)) [
    | inl e ↦ rw (e) (h.0, All-insert_by x ys p h.1)
    | inr e ↦ rw (e) (p, h)
  ]

  All-sort_by : (xs : List A) → All P xs → All P (sort_by precedes xs)
  unfolding sort_by
  All-sort_by [] h = tt
  All-sort_by (x ∷ xs) h = All-insert_by x (sort_by precedes xs) h.0 (All-sort_by xs h.1)

module _ {A : Type 0} where
  All-select :
      (P : A → Type 0) (p : A → Bool) (xs : List A)
      → All P xs
      → All (λ x. P x × (p x ≡ true)) (select p xs)
  unfolding select
  All-select P p [] h = tt
  All-select P p (x ∷ xs) h = elim (Bool-cases (p x)) [
    | inl e ↦ rw (e) ((h.0, e), All-select P p xs h.1)
    | inr e ↦ rw (e) (All-select P p xs h.1)
  ]

  All-joined :
      {B : Type 0} (P : A → Type 0) (Q : B → Type 0) (f : A → Option B)
      → ((a : A) (b : B) → P a → f a ≡ some b → Q b)
      → (xs : List A) → All P xs
      → All Q (joined f xs)
  unfolding joined
  All-joined P Q f step [] h = tt
  All-joined P Q f step (x ∷ xs) h = elim (Option-cases (f x)) [
    | inl e ↦ rw (e) (All-joined P Q f step xs h.1)
    | inr (b, e) ↦ rw (e) (step x b h.0 e, All-joined P Q f step xs h.1)
  ]

-- An open trade as the query lists it.
abbrev Listed : OpenTrade → Type 0
Listed o = IsSound o.paper_trade × (is_open o.paper_trade ≡ true)

when-eq-some : {A : Type 0} (b : Bool) (x : A) {y : A} → when b x ≡ some y → x ≡ y
when-eq-some true x e = some-injective e
when-eq-some false x e = absurd (none≢some e)

join_trade-trade :
    (book : Book) (t : StrategyPaperTrade) (o : OpenTrade)
    → join_trade book t ≡ some o
    → t ≡ o.paper_trade
join_trade-trade book t o e =
    let (d, e1, k1) = >>=-eq-some (find (λ d. d.id == t.strategy_id) book.definitions) _ e in
    let (c, e2, k2) = >>=-eq-some (find (λ c. c.id == t.candidate_id) book.candidates) _ k1 in
    let (v, e3, k3) = >>=-eq-some (find (λ v. v.id == c.strategy_version_id) book.versions) _ k2 in
    ap (λ o. o.paper_trade)
      (when-eq-some (d.is_paper && v.is_paper) (record { paper_trade = t; candidate = c }) k3)

list_open_paper_trades-Listed :
    (book : Book) → BooksSound book → All Listed (list_open_paper_trades book)
unfolding list_open_paper_trades
list_open_paper_trades-Listed book h =
    All-sort_by Listed trade_before (joined (join_trade book) (select is_open book.trades)) (
      All-joined (λ t. IsSound t × (is_open t ≡ true)) Listed (join_trade book)
        (λ t o l e. subst (λ t. IsSound t × (is_open t ≡ true)) (join_trade-trade book t o e) l)
        (select is_open book.trades) (All-select IsSound is_open book.trades h))

module _ (py : Python) (now : ℕ) (market : Market) where
  Effect-sound :
      (i : RuntimeCandidate) (book : Book) {o : Outcome} {b : Book}
      → Effect py now market i book o b
      → BooksSound book
      → BooksSound b
  Effect-sound i book (kept o c same) h = rw (same) h
  Effect-sound i book (watched p c same) h = rw (same) h
  Effect-sound i book (dropped c same) h = rw (same) h
  Effect-sound i book (entered x) h = rw (x.trades) (
      All-append IsSound book.trades
        (new_trade book.next_trade_id i.candidate now x.price x.quantity x.risk_plan ∷ []) h
        (
          new_trade-IsSound book.next_trade_id i.candidate now x.price x.quantity x.risk_plan
              (omega (arith, x.lots.0)),
          tt,
        ))

  run_candidates_sound :
      (is : List RuntimeCandidate) (p : Progress) {r : Progress}
      → BooksSound p.book
      → run_candidates py now market is p ≡ some r
      → BooksSound r.book
  unfolding run_candidates
  run_candidates_sound [] p h e = subst (λ r. BooksSound r.book) (some-injective e) h
  run_candidates_sound (i ∷ is) p h e =
      let (done, e1, k) = >>=-eq-some (process_candidate py now market i p.book) _ e in
      run_candidates_sound is _
        (Effect-sound i p.book (process_candidate-Effect py now market i p.book e1) h) k

  run_trades_sound :
      (os : List OpenTrade) (p : Progress) {r : Progress}
      → All Listed os
      → BooksSound p.book
      → run_trades py now market os p ≡ some r
      → BooksSound r.book
  unfolding run_trades
  run_trades_sound [] p l h e = subst (λ r. BooksSound r.book) (some-injective e) h
  run_trades_sound (o ∷ os) p l h e =
      let (done, e1, k) = >>=-eq-some (process_open_trade py now market o p.book) _ e in
      run_trades_sound os _ l.1 (process_open_trade_sound py now market o p.book l.0.0 l.0.1 h e1) k

  run_all_sound :
      (book : Book) {r : Progress}
      → BooksSound book
      → run_all py now market book ≡ some r
      → BooksSound r.book
  unfolding run_all
  run_all_sound book h e =
      let candidates = list_runtime_candidates (date_of now) book in
      let (p, e1, k) = >>=-eq-some (run_candidates py now market candidates _) _ e in
      let sound = run_candidates_sound candidates _ h e1 in
      run_trades_sound (list_open_paper_trades p.book) _
        (list_open_paper_trades-Listed p.book sound) sound k

  -- A call of process that does not raise keeps every paper trade sound: held and sold quantities
  -- add up to what was bought, the legs are numbered without a gap, no sale is on the date of its
  -- entry, a trade is closed exactly when nothing is held, and its exit amount is what its sales
  -- brought.
  pub process-IsSound :
      (service : Progress) {r : Progress}
      → All IsSound service.book.trades
      → process py now market service ≡ some r
      → All IsSound r.book.trades
  unfolding process
  process-IsSound service h e = elim (Bool-cases (in_trade_hours now)) [
    | inl z ↦ run_all_sound service.book h (rw (z) at e)
    | inr z ↦ subst (λ r. BooksSound r.book) (some-injective (rw (z) at e)) h
  ]
