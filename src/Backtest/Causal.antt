-- ===== src/Backtest/Causal.antt =====
-- When a simulated trade is bought and sold, and which facts that depends on.
pub mod Walk
pub mod Calendar
use stock_center.Base.{
  ℕ, zero, suc, ◌+◌, ◌*◌, ◌≡◌, ◌≤◌, ◌<◌, refl, sym, ap, ◌∙◌, false, Option, none, some, List, [],
  ◌∷◌, length, get_elem?, leb, ◌==◌, ==_iff, max, arith, Bool-cases, Option-cases, inl, inr, String,
}
use stock_center.Base.Json.{Fields}
use stock_center.Base.Fallible.{◌>>=◌, >>=-eq-some, none≢some, some-injective}
use stock_center.Paper.{Python}
use stock_center.Backtest.{
  ExitReason, ExitPlan, exit_plan, exit_reason, exit_walk, date_index, SimulatedTrade, price_at,
  scaled_close, days_left, sell_at_open, simulate_from, simulate_open, simulate_at,
  simulate_next_open_daily_trade,
}
use stock_center.Backtest.Causal.Walk.{exit_walk-bounds, exit_walk-causal}
use stock_center.Backtest.Causal.Calendar.{Ascending, get_elem?-lt, date_index-get}

-- The dates of a trade: it is bought at the next open date after the signal, and sold one open date
-- behind the close of a day that is at least the entry's own, and at most the last that the plan
-- allows.
pub record Timeline (calendar : List ℕ) (signal_date max_holding : ℕ) (t : SimulatedTrade)
    : Type 0 where
  pub place : ℕ
  pub held : ℕ
  pub signal : get_elem? calendar place ≡ some signal_date
  pub entry : get_elem? calendar (place + 1) ≡ some t.entry_trade_date
  pub exit : get_elem? calendar (place + held + 1) ≡ some t.exit_trade_date
  pub some_day : 1 ≤ held
  pub in_plan : held ≤ max_holding
  pub days : t.holding_trade_days ≡ held

module _ (py : Python) (calendar : List ℕ) (current : ℕ → Fields) (slippage_bps : ℕ) where
  sell_at_open-dates :
      (signal entry_value : ℕ) (w : ℕ × ExitReason) {t : SimulatedTrade}
      → sell_at_open py calendar current slippage_bps signal entry_value w ≡ some t
      → (get_elem? calendar (signal + 1) ≡ some t.entry_trade_date)
        × (get_elem? calendar (signal + w.0 + 1) ≡ some t.exit_trade_date)
        × (t.holding_trade_days ≡ max 1 w.0)
  unfolding sell_at_open
  sell_at_open-dates signal entry_value w {t} e =
      let (entry_date, e1, k1) = >>=-eq-some (get_elem? calendar (signal + 1)) _ e in
      let (exit_date, e2, k2) = >>=-eq-some (get_elem? calendar (signal + w.0 + 1)) _ k1 in
      let (exit_open, e3, k3) =
        >>=-eq-some (price_at py calendar current slippage_bps "open_price" (signal + w.0 + 1)) _
          k2 in
      let done = some-injective k3 in
      (
        e1 ∙ ap (λ t. some t.entry_trade_date) done,
        e2 ∙ ap (λ t. some t.exit_trade_date) done,
        sym (ap (λ t. t.holding_trade_days) done),
      )

  -- The loop and the sale behind a successful simulation.
  record Walked (signal_date max_holding : ℕ) (risk : Fields) (t : SimulatedTrade) : Type 0 where
    place : ℕ
    entry_open : ℕ
    plan : ExitPlan
    walked : ℕ × ExitReason
    found : date_index signal_date calendar ≡ some place
    later : leb (length calendar) (place + 2) ≡ false
    opened : price_at py calendar current slippage_bps "open_price" (place + 1) ≡ some entry_open
    planned : exit_plan py risk max_holding ≡ some plan
    confirmed :
        exit_walk plan
          (entry_open * (10000000000 + slippage_bps))
          (scaled_close py calendar current slippage_bps place)
          (days_left py calendar current slippage_bps place max_holding)
          1
          (entry_open * (10000000000 + slippage_bps))
        ≡ some walked
    closed :
        sell_at_open py calendar current slippage_bps place
          (entry_open * (10000000000 + slippage_bps))
          walked
        ≡ some t

  simulate-Walked :
      (signal_date max_holding : ℕ) (risk : Fields) {t : SimulatedTrade}
      → simulate_next_open_daily_trade py calendar current slippage_bps signal_date max_holding risk
        ≡ some (some t)
      → Walked signal_date max_holding risk t
  unfolding simulate_next_open_daily_trade simulate_from
  simulate-Walked signal_date max_holding risk {t} e =
      at_place (date_index signal_date calendar) refl e
    where
      at_open :
          (place : ℕ) (opened : Option ℕ)
          → date_index signal_date calendar ≡ some place
          → leb (length calendar) (place + 2) ≡ false
          → price_at py calendar current slippage_bps "open_price" (place + 1) ≡ opened
          → simulate_open py calendar current slippage_bps place opened max_holding risk
            ≡ some (some t)
          → Walked signal_date max_holding risk t
      at_open place none f l o k = absurd (none≢some (some-injective k))
      at_open place (some entry_open) f l o k =
          let (plan, e1, k1) = >>=-eq-some (exit_plan py risk max_holding) _ k in
          let (walked, e2, k2) =
            >>=-eq-some
              (exit_walk plan (entry_open * (10000000000 + slippage_bps))
                (scaled_close py calendar current slippage_bps place)
                (days_left py calendar current slippage_bps place max_holding) 1
                (entry_open * (10000000000 + slippage_bps)))
              _ (some-injective k1) in
          record {
            place = place;
            entry_open = entry_open;
            plan = plan;
            walked = walked;
            found = f;
            later = l;
            opened = o;
            planned = e1;
            confirmed = e2;
            closed = k2;
          }

      at_place :
          (place : Option ℕ)
          → date_index signal_date calendar ≡ place
          → simulate_at py calendar current slippage_bps place max_holding risk ≡ some (some t)
          → Walked signal_date max_holding risk t
      at_place none f k = absurd (none≢some (some-injective k))
      at_place (some place) f k = elim (Bool-cases (leb (length calendar) (place + 2))) [
        | inl l ↦ absurd (none≢some (some-injective (rw (l) at k)))
        | inr l ↦
            at_open place (price_at py calendar current slippage_bps "open_price" (place + 1)) f l
              refl (rw (l) at k)
      ]

  -- Every simulated trade has the dates of its timeline: bought on the first open date behind the
  -- signal, sold on a later one, and held for at most the days of the plan.
  pub simulate-Timeline :
      (signal_date max_holding : ℕ) (risk : Fields) {t : SimulatedTrade}
      → simulate_next_open_daily_trade py calendar current slippage_bps signal_date max_holding risk
        ≡ some (some t)
      → Timeline calendar signal_date max_holding t
  simulate-Timeline signal_date max_holding risk e =
      let w = simulate-Walked signal_date max_holding risk e in
      let value = w.entry_open * (10000000000 + slippage_bps) in
      let (entry, exit, days) = sell_at_open-dates w.place value w.walked w.closed in
      let (low, high) =
        exit_walk-bounds w.plan value (scaled_close py calendar current slippage_bps w.place)
          (days_left py calendar current slippage_bps w.place max_holding) 1 value w.confirmed in
      record {
        place = w.place;
        held = w.walked.0;
        signal = date_index-get signal_date calendar w.found;
        entry = entry;
        exit = exit;
        some_day = low;
        in_plan = omega (arith, high);
        days = omega (arith, days, low);
      }

  -- In an ascending calendar the signal, the entry and the exit are on three different dates, in
  -- this order.
  pub simulate-ordered :
      (signal_date max_holding : ℕ) (risk : Fields) {t : SimulatedTrade}
      → Ascending calendar
      → simulate_next_open_daily_trade py calendar current slippage_bps signal_date max_holding risk
        ≡ some (some t)
      → (signal_date < t.entry_trade_date) × (t.entry_trade_date < t.exit_trade_date)
  simulate-ordered signal_date max_holding risk asc e =
      let l = simulate-Timeline signal_date max_holding risk e in
      (
        get_elem?-lt calendar l.place (l.place + 1) asc (omega arith) l.signal l.entry,
        get_elem?-lt calendar (l.place + 1) (l.place + l.held + 1) asc (omega (arith, l.some_day))
            l.entry l.exit,
      )

module _ (py : Python) (calendar : List ℕ) (current other : ℕ → Fields) (slippage_bps : ℕ)
    (last : ℕ) (place : ℕ) (asc : Ascending calendar)
    (at_last : get_elem? calendar place ≡ some last)
    (agree : (d : ℕ) → d ≤ last → current d ≡ other d) where
  price_at-agrees :
      (key : String) (i : ℕ)
      → i ≤ place
      → price_at py calendar current slippage_bps key i
        ≡ price_at py calendar other slippage_bps key i
  unfolding price_at
  price_at-agrees key i le = elim (Option-cases (get_elem? calendar i)) [
    | inl e ↦ rw (e) refl
    | inr (d, e) ↦
        let early : d ≤ last = elim (Bool-cases (i == place)) [
          | inl same ↦
              let p : i ≡ place = (==_iff i place).0 same in
              let q : last ≡ d = some-injective (sym at_last ∙ (rw (p) at e)) in omega (arith, q)
          | inr differ ↦
              let less : i < place = ground arith in
              omega (arith, get_elem?-lt calendar i place asc less e at_last)
        ] in
        rw (e) (rw (agree d early) refl)
  ]

  sell_at_open-agrees :
      (signal entry_value : ℕ) (w : ℕ × ExitReason)
      → signal + w.0 + 1 ≤ place
      → sell_at_open py calendar current slippage_bps signal entry_value w
        ≡ sell_at_open py calendar other slippage_bps signal entry_value w
  unfolding sell_at_open
  sell_at_open-agrees signal entry_value w le =
      rw (price_at-agrees "open_price" (signal + w.0 + 1) le) refl

-- A simulated trade depends on no fact after its exit's date: with any other facts from then on, the
-- same trade is simulated.
pub simulate-causal :
    (py : Python) (calendar : List ℕ) (current other : ℕ → Fields) (slippage_bps : ℕ)
    (signal_date max_holding : ℕ) (risk : Fields) (t : SimulatedTrade)
    → Ascending calendar
    → ((d : ℕ) → d ≤ t.exit_trade_date → current d ≡ other d)
    → simulate_next_open_daily_trade py calendar current slippage_bps signal_date max_holding risk
      ≡ some (some t)
    → simulate_next_open_daily_trade py calendar other slippage_bps signal_date max_holding risk
      ≡ some (some t)
unfolding simulate_next_open_daily_trade simulate_from
simulate-causal py calendar current other slippage_bps signal_date max_holding risk t asc agree e =
    let w = simulate-Walked py calendar current slippage_bps signal_date max_holding risk e in
    let value = w.entry_open * (10000000000 + slippage_bps) in
    let (entry, exit, days) =
      sell_at_open-dates py calendar current slippage_bps w.place value w.walked w.closed in
    let same_price =
      price_at-agrees py calendar current other slippage_bps t.exit_trade_date
        (w.place + w.walked.0 + 1) asc exit agree in
    let same_sale =
      sell_at_open-agrees py calendar current other slippage_bps t.exit_trade_date
        (w.place + w.walked.0 + 1) asc exit agree w.place value w.walked (omega arith) in
    let opened = sym (same_price "open_price" (w.place + 1) (omega arith)) ∙ w.opened in
    let confirmed =
      exit_walk-causal w.plan value (scaled_close py calendar current slippage_bps w.place)
        (scaled_close py calendar other slippage_bps w.place)
        (days_left py calendar current slippage_bps w.place max_holding) 1 value
        (λ k le.
          ap (λ o. o >>= λ close. some (close * 10000000000))
            (same_price "close_price" (w.place + k) (omega (arith, le))))
        w.confirmed in
    rw (w.found) (
      rw (w.later)
        (rw (opened) (rw (w.planned) (rw (confirmed) (ap some (sym same_sale ∙ w.closed))))))
