-- ===== src/Paper/Session.antt =====
-- realtime_service.py: StrategyRealtimeService.process and what it runs for a candidate and for an
-- open trade. A raised error leaves process before its commit, so that nothing is kept: it is
-- none. The audit evidence is left out, and the session is taken to go on after a refused insert.
pub mod Trades
pub mod Candidates
pub mod Events
use stock_center.Base.{
  ℕ, zero, suc, ◌+◌, Bool, true, false, not, Option, none, some, List, [], ◌∷◌, ltb, leb, ◌==◌,
  if◌then◌else◌, ◌&&◌, ◌||◌, String, str_eq, max, select,
}
use stock_center.Base.Int.{ℤ, pos, pos_part, ltb_ℤ}
use stock_center.Base.Json.{float, obj, Fields, get_or_null, truthy, set_field}
use stock_center.Base.Fallible.{◌>>=◌}
use stock_center.Scheduler.Store.{find, update_where}
use stock_center.Paper.{
  Python, date_of, in_trade_hours, dict_or_empty, float_or, number, quote_depth_fresh, best_bid,
}
use stock_center.Paper.Entry.{
  WindowState, before, active, after, Readiness, ready, not_ready, EntryTrigger, waits, ends, buys,
  window_state, confirmation_readiness, entry_trigger, lot_quantity,
}
use stock_center.Paper.Exits.{ExitCode, code_text, exit_trigger, exit_quantity}
use stock_center.Paper.Book.{
  CandidateStatus, pending_confirmation, watching, not_triggered, entry_triggered,
  StrategyCandidate, StrategyDefinition, StrategyVersion, StrategyPaperTrade, StrategySignalEvent,
  Book, record_signal_event, mark_candidate_status, create_paper_trade_with_entry,
  append_paper_sell_leg, put_trade, is_open, count_open_trade_days,
}

-- What the realtime cache holds for a stock, and the states of the polling blocks.
pub record Market : Type 0 where
  pub quotes : String → Fields
  pub depths : String → Fields
  pub depth_history : String → List Fields
  pub minutes : String → List Fields
  pub block_status : Fields

-- A row of the two queries, each joined with the rows that it refers to.
pub record RuntimeCandidate : Type 0 where
  pub candidate : StrategyCandidate
  pub definition : StrategyDefinition
  pub version : StrategyVersion

pub record OpenTrade : Type 0 where
  pub paper_trade : StrategyPaperTrade
  pub candidate : StrategyCandidate

-- `quiet` is None.
pub data Outcome : Type 0 where
  quiet skipped degraded triggered exit : Outcome

abbrev pub outcome_text : Outcome → String
outcome_text quiet = ""
outcome_text skipped = "skipped"
outcome_text degraded = "degraded"
outcome_text triggered = "triggered"
outcome_text exit = "exit"

unfoldable pub phase_for_entry_mode : String → String
phase_for_entry_mode mode =
    if str_eq mode "auction" || str_eq mode "open" || str_eq mode "intraday" then mode else "system"

abbrev pub candidate_event :
    RuntimeCandidate → ℕ → String → String → String → Option ℕ → StrategySignalEvent
candidate_event i now event_type decision reason trade_id = record {
  strategy_version_id = i.version.id;
  candidate_id = i.candidate.id;
  paper_trade_id = trade_id;
  stock_code = i.candidate.stock_code;
  trade_date = date_of now;
  market_phase = phase_for_entry_mode i.definition.entry_mode;
  event_type = event_type;
  decision = decision;
  reason_code = reason;
}

-- _not_triggered
unfoldable pub drop_candidate : RuntimeCandidate → ℕ → String → Book → Book
unfolding mark_candidate_status record_signal_event phase_for_entry_mode
drop_candidate i now reason book =
    record_signal_event (candidate_event i now "entry_not_triggered" "skipped" reason none)
      (mark_candidate_status i.candidate.id not_triggered none book)

abbrev pub is_pending : CandidateStatus → Bool
is_pending pending_confirmation = true
is_pending _ = false

module _ (py : Python) (now : ℕ) (market : Market) where
  abbrev pub quote_of : RuntimeCandidate → Fields
  quote_of i = market.quotes i.candidate.stock_code

  abbrev pub depth_of : RuntimeCandidate → Fields
  depth_of i = market.depths i.candidate.stock_code

  -- `entry_plan.get("risk_plan") or version.risk_config or {}`
  unfoldable pub risk_plan_of : RuntimeCandidate → Option Fields
  unfolding dict_or_empty get_or_null truthy
  risk_plan_of i =
      let v = get_or_null "risk_plan" i.candidate.entry_plan in
      if truthy v then dict_or_empty v else some i.version.risk_config

  -- What follows the insertion of the trade, `none` being the refused insertion.
  unfoldable pub settle_entry : RuntimeCandidate → Book → Option Book → Outcome × Book
  unfolding mark_candidate_status record_signal_event
  settle_entry i book none = (
    degraded,
    record_signal_event
        (candidate_event i now "entry_write_failed" "degraded" "IntegrityError" none) book,
  )
  settle_entry i book (some book') = (
    triggered,
    record_signal_event
        (candidate_event i now "paper_entry_executed" "executed" "entry_confirmation_matched"
          (some book.next_trade_id))
        (mark_candidate_status i.candidate.id entry_triggered (some now) book'),
  )

  -- _process_candidate from the trigger's success on.
  unfoldable pub enter : RuntimeCandidate → ℕ → Book → Option (Outcome × Book)
  unfolding risk_plan_of lot_quantity get_or_null create_paper_trade_with_entry settle_entry
  enter i price book = risk_plan_of i >>= λ risk_plan. some (
      settle_entry i book (
        create_paper_trade_with_entry i.candidate now price
          (lot_quantity py (get_or_null "initial_quantity" risk_plan)) risk_plan book))

  -- _process_candidate from the entry trigger on.
  unfoldable pub act_on : RuntimeCandidate → EntryTrigger → Book → Option (Outcome × Book)
  unfolding enter drop_candidate mark_candidate_status
  act_on i (buys price) book = enter i price book
  act_on i (ends reason) book = some (skipped, drop_candidate i now reason book)
  act_on i (waits reason) book = some (
    quiet,
    if is_pending i.candidate.candidate_status
        then mark_candidate_status i.candidate.id watching none book
        else book,
  )

  unfoldable pub confirmation_of : RuntimeCandidate → Option Fields
  unfolding dict_or_empty get_or_null
  confirmation_of i = dict_or_empty (get_or_null "confirmation" i.candidate.entry_plan)

  unfoldable pub readiness_of : RuntimeCandidate → Fields → Option Readiness
  unfolding confirmation_readiness
  readiness_of i confirmation =
      confirmation_readiness py i.definition.entry_mode now (quote_of i) (depth_of i)
        (market.depth_history i.candidate.stock_code) (market.minutes i.candidate.stock_code)
        market.block_status confirmation

  -- _process_candidate inside the window, once the readiness is known.
  unfoldable pub confirm : RuntimeCandidate → Fields → Readiness → Book → Option (Outcome × Book)
  unfolding entry_trigger act_on record_signal_event
  confirm i confirmation (not_ready reason) book = some (
    degraded,
    record_signal_event (candidate_event i now "entry_data_degraded" "degraded" reason none) book,
  )
  confirm i confirmation ready book =
      entry_trigger py (quote_of i) (depth_of i) confirmation >>= λ t. act_on i t book

  unfoldable pub in_window :
      RuntimeCandidate → Fields → WindowState → Book → Option (Outcome × Book)
  unfolding drop_candidate readiness_of confirm
  in_window i confirmation before book = some (quiet, book)
  in_window i confirmation after book =
      some (skipped, drop_candidate i now "confirmation_window_closed" book)
  in_window i confirmation active book =
      readiness_of i confirmation >>= λ r. confirm i confirmation r book

  unfoldable pub process_candidate : RuntimeCandidate → Book → Option (Outcome × Book)
  unfolding confirmation_of window_state in_window
  process_candidate i book = confirmation_of i >>= λ confirmation.
      in_window i confirmation (window_state py now confirmation) book

  abbrev pub exit_event : OpenTrade → ℕ → ExitCode → StrategySignalEvent
  exit_event o trade_id code = record {
    strategy_version_id = o.candidate.strategy_version_id;
    candidate_id = o.candidate.id;
    paper_trade_id = some trade_id;
    stock_code = o.paper_trade.stock_code;
    trade_date = date_of now;
    market_phase = "exit";
    event_type = "paper_exit_executed";
    decision = "executed";
    reason_code = code_text py code;
  }

  -- The sale of a quantity, the rest of the trade being as it is to be kept.
  unfoldable pub sell_leg :
      OpenTrade → StrategyPaperTrade → ℕ → ℕ → ExitCode → Book → Option (Outcome × Book)
  unfolding append_paper_sell_leg put_trade record_signal_event
  sell_leg o t bid quantity code book =
      if quantity == 0
      then some (quiet, put_trade t book)
      else (append_paper_sell_leg py now bid quantity code t >>= λ sold_trade.
          some (
            exit,
            record_signal_event (exit_event o sold_trade.id code) (put_trade sold_trade book),
          ))

  -- _process_open_trade from the exit's trigger on, the trade having its peak price noted.
  unfoldable pub act_on_exit :
      OpenTrade → StrategyPaperTrade → ℕ → Option ExitCode → Book → Option (Outcome × Book)
  unfolding exit_quantity put_trade sell_leg
  act_on_exit o t bid none book = some (quiet, put_trade t book)
  act_on_exit o t bid (some code) book =
      exit_quantity py t.open_quantity code t.risk_plan >>= λ part.
      sell_leg o (record t { risk_plan = part.1 }) bid part.0 code book

  -- The peak of the last prices, kept in the trade's plan.
  unfoldable pub peak_noted : ℕ → StrategyPaperTrade → Option (ℕ × StrategyPaperTrade)
  unfolding dict_or_empty get_or_null float_or set_field
  peak_noted last t = dict_or_empty (get_or_null "runtime_state" t.risk_plan) >>= λ runtime_state.
      float_or py (get_or_null "peak_price" runtime_state) (pos t.entry_price) >>= λ seen.
      let peak = max (pos_part seen) last in
      some (
        peak,
        record t {
          risk_plan =
              set_field "runtime_state"
                (obj (set_field "peak_price" (float (pos peak)) runtime_state)) t.risk_plan;
        },
      )

  -- _process_open_trade from the two prices on. The return is a quotient by the entry price.
  unfoldable pub watch_exit : OpenTrade → ℕ → ℕ → Book → Option (Outcome × Book)
  unfolding peak_noted exit_trigger count_open_trade_days act_on_exit
  watch_exit o bid last book = peak_noted last o.paper_trade >>= λ noted.
      if o.paper_trade.entry_price == 0
      then none
      else (exit_trigger py o.paper_trade.entry_price last noted.0 noted.1.risk_plan
            (count_open_trade_days (date_of o.paper_trade.entry_at) (date_of now) book.open_dates)
          >>= λ code. act_on_exit o noted.1 bid code book)

  abbrev pub at_prices : OpenTrade → Option ℕ → Option ℕ → Book → Option (Outcome × Book)
  at_prices o (some bid) (some last) book = watch_exit o bid last book
  at_prices o bid last book = some (degraded, book)

  unfoldable pub process_open_trade : OpenTrade → Book → Option (Outcome × Book)
  unfolding quote_depth_fresh best_bid number get_or_null watch_exit
  process_open_trade o book =
      let quote = market.quotes o.paper_trade.stock_code in
      let depth = market.depths o.paper_trade.stock_code in
      if leb (date_of now) (date_of o.paper_trade.entry_at)
      then some (quiet, book)
      else (quote_depth_fresh py quote depth now >>= λ fresh.
          if not fresh
          then some (degraded, book)
          else (best_bid py depth >>= λ bid.
              at_prices o bid (number py (get_or_null "last_price" quote)) book))
