-- ===== src/Paper/Session/Trades.antt =====
-- What the watch over an open trade leaves of the table of trades.
use mathlib.Core.Path.{subst}
use stock_center.Base.{
  ℕ, ◌≡◌, ◌<◌, ◌≤◌, refl, sym, ap, ◌∙◌, ltb→lt, Bool, true, false, not, Option, none, some, arith,
  leb, ◌==◌, if◌then◌else◌, All, Bool-cases, inl, inr, any,
}
use stock_center.Base.Int.{pos}
use stock_center.Base.Json.{Fields, get_or_null}
use stock_center.Base.Fallible.{◌>>=◌, >>=-eq-some, >>=-elim, none≢some, some-injective}
use stock_center.Scheduler.Store.Rows.{All-update_where}
use stock_center.Paper.{
  Python, date_of, quote_depth_fresh, best_bid, number, dict_or_empty, float_or,
}
use stock_center.Paper.Exits.{ExitCode, exit_trigger, exit_quantity}
use stock_center.Paper.Exits.Quantity.{exit_quantity-bounds}
use stock_center.Paper.Book.{
  StrategyPaperTrade, StrategySignalEvent, Book, same_event, record_signal_event, put_trade,
  is_open, append_paper_sell_leg, count_open_trade_days,
}
use stock_center.Paper.Book.Sound.{IsSound, replan-IsSound, append_paper_sell_leg-IsSound}
use stock_center.Paper.Session.{
  Market, OpenTrade, Outcome, quiet, degraded, sell_leg, act_on_exit, at_prices, peak_noted,
  watch_exit, process_open_trade,
}

abbrev pub BooksSound : Book → Type 0
BooksSound book = All IsSound book.trades

pub record_signal_event-trades :
    (e : StrategySignalEvent) (book : Book) → (record_signal_event e book).trades ≡ book.trades
unfolding record_signal_event
record_signal_event-trades e book = elim (Bool-cases (any (same_event e) book.events)) [
  | inl h ↦ rw (h) refl
  | inr h ↦ rw (h) refl
]

put_trade_sound :
    (t : StrategyPaperTrade) (book : Book)
    → IsSound t
    → BooksSound book
    → BooksSound (put_trade t book)
unfolding put_trade
put_trade_sound t book s h =
    All-update_where (λ u. u.id == t.id) (λ u. t) IsSound (λ u c e. s) book.trades h

module _ (py : Python) (now : ℕ) (market : Market) (o : OpenTrade) (book : Book) where
  sell_leg_sound :
      (t : StrategyPaperTrade) (bid quantity : ℕ) (code : ExitCode) {r : Outcome × Book}
      → IsSound t
      → quantity ≤ t.open_quantity
      → date_of t.entry_at < date_of now
      → BooksSound book
      → sell_leg py now market o t bid quantity code book ≡ some r
      → BooksSound r.1
  unfolding sell_leg
  sell_leg_sound t bid quantity code {r} s le late h e = elim (Bool-cases (quantity == 0)) [
    | inl z ↦
        let same : (quiet, put_trade t book) ≡ r = some-injective (rw (z) at e) in
        subst (λ r. BooksSound r.1) same (put_trade_sound t book s h)
    | inr z ↦
        let (u, e1, k) =
          >>=-eq-some (append_paper_sell_leg py now bid quantity code t) _ (rw (z) at e) in
        subst (λ r. BooksSound r.1) (some-injective k)
          (rw (record_signal_event-trades) (
            put_trade_sound u book
              (append_paper_sell_leg-IsSound py now bid quantity code t s le late e1) h))
  ]

  act_on_exit_sound :
      (t : StrategyPaperTrade) (bid : ℕ) (code : Option ExitCode) {r : Outcome × Book}
      → IsSound t
      → is_open t ≡ true
      → date_of t.entry_at < date_of now
      → BooksSound book
      → act_on_exit py now market o t bid code book ≡ some r
      → BooksSound r.1
  unfolding act_on_exit
  act_on_exit_sound t bid none s yet late h e =
      subst (λ r. BooksSound r.1) (some-injective e) (put_trade_sound t book s h)
  act_on_exit_sound t bid (some code) s yet late h e =
      let some_held : 0 < t.open_quantity = ltb→lt 0 t.open_quantity (sym s.held ∙ yet) in
      let (part, e1, k) = >>=-eq-some (exit_quantity py t.open_quantity code t.risk_plan) _ e in
      let within = exit_quantity-bounds py t.open_quantity code t.risk_plan some_held e1 in
      sell_leg_sound (record t { risk_plan = part.1 }) bid part.0 code (replan-IsSound t part.1 s)
        within.1 late h k

  -- Noting a peak changes the plan alone.
  peak_noted-plan :
      (last : ℕ) (t : StrategyPaperTrade) {noted : ℕ × StrategyPaperTrade}
      → peak_noted py now market last t ≡ some noted
      → (plan : Fields) × (noted.1 ≡ record t { risk_plan = plan })
  unfolding peak_noted
  peak_noted-plan last t e =
      let (state, e1, k1) =
        >>=-eq-some (dict_or_empty (get_or_null "runtime_state" t.risk_plan)) _ e in
      let (seen, e2, k2) =
        >>=-eq-some (float_or py (get_or_null "peak_price" state) (pos t.entry_price)) _ k1 in
      (_, sym (ap (λ x. x.1) (some-injective k2)))

  watch_exit_sound :
      (bid last : ℕ) {r : Outcome × Book}
      → IsSound o.paper_trade
      → is_open o.paper_trade ≡ true
      → date_of o.paper_trade.entry_at < date_of now
      → BooksSound book
      → watch_exit py now market o bid last book ≡ some r
      → BooksSound r.1
  unfolding watch_exit
  watch_exit_sound bid last s yet late h e =
      >>=-elim (λ r. BooksSound r.1) (peak_noted py now market last o.paper_trade) _
        (λ noted e1 r k1.
          let (plan, same) = peak_noted-plan last o.paper_trade e1 in
          elim (Bool-cases (o.paper_trade.entry_price == 0)) [
            | inl z ↦ absurd (none≢some (rw (z) at k1))
            | inr z ↦
                >>=-elim (λ r. BooksSound r.1)
                  (exit_trigger py o.paper_trade.entry_price last noted.0 noted.1.risk_plan (
                    count_open_trade_days (date_of o.paper_trade.entry_at) (date_of now)
                      book.open_dates))
                  (λ code. act_on_exit py now market o noted.1 bid code book)
                  (λ code e2 r k2.
                    act_on_exit_sound (record o.paper_trade { risk_plan = plan }) bid code
                      (replan-IsSound o.paper_trade plan s) yet late h (rw (same) at k2))
                  (rw (z) at k1)
          ])
        e

  at_prices_sound :
      (bid last : Option ℕ) {r : Outcome × Book}
      → IsSound o.paper_trade
      → is_open o.paper_trade ≡ true
      → date_of o.paper_trade.entry_at < date_of now
      → BooksSound book
      → at_prices py now market o bid last book ≡ some r
      → BooksSound r.1
  at_prices_sound (some bid) (some last) s yet late h e = watch_exit_sound bid last s yet late h e
  at_prices_sound (some bid) none s yet late h e = subst (λ r. BooksSound r.1) (some-injective e) h
  at_prices_sound none last s yet late h e = subst (λ r. BooksSound r.1) (some-injective e) h

  -- The watch over an open trade keeps every trade sound.
  pub process_open_trade_sound :
      {r : Outcome × Book}
      → IsSound o.paper_trade
      → is_open o.paper_trade ≡ true
      → BooksSound book
      → process_open_trade py now market o book ≡ some r
      → BooksSound r.1
  unfolding process_open_trade
  process_open_trade_sound {r} s yet h e =
      elim (Bool-cases (leb (date_of now) (date_of o.paper_trade.entry_at))) [
        | inl z ↦ subst (λ r. BooksSound r.1) (some-injective (rw (z) at e)) h
        | inr z ↦
            let late : date_of o.paper_trade.entry_at < date_of now = ground arith in
            let quote = market.quotes o.paper_trade.stock_code in
            let depth = market.depths o.paper_trade.stock_code in
            let (fresh, e1, k1) =
              >>=-eq-some (quote_depth_fresh py quote depth now) _ (rw (z) at e) in
            after_fresh fresh late k1
      ]
    where
      after_fresh :
          (fresh : Bool)
          → date_of o.paper_trade.entry_at < date_of now
          → (if not fresh
              then some (degraded, book)
              else (best_bid py (market.depths o.paper_trade.stock_code) >>= λ bid.
                  at_prices py now market o bid
                    (number py (get_or_null "last_price" (market.quotes o.paper_trade.stock_code)))
                    book))
            ≡ some r
          → BooksSound r.1
      after_fresh false late k = subst (λ r. BooksSound r.1) (some-injective k) h
      after_fresh true late k =
          let (bid, e2, k2) =
            >>=-eq-some (best_bid py (market.depths o.paper_trade.stock_code)) _ k in
          at_prices_sound bid
            (number py (get_or_null "last_price" (market.quotes o.paper_trade.stock_code))) s yet
            late h k2
