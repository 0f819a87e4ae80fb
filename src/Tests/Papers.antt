-- ===== src/Tests/Papers.antt =====
-- Examples for the confirmation of paper trades.
use stock_center.Base.{
  ℕ, ◌*◌, ◌<◌, ◌≤◌, ◌⊎◌, ◌≡◌, refl, true, not, ◌||◌, ◌==◌, Option, none, some, List, [], ◌∷◌, All,
  if◌then◌else◌, arith,
}
use stock_center.Base.Int.{pos}
use stock_center.Base.Text.{Text, codes, text_eq}
use stock_center.Base.Json.{Value, int, float, str, arr, obj, nil, cons, Fields, end, field}
use stock_center.Paper.{Python, date_of}
use stock_center.Paper.Exits.{hard_stop, exit_trigger, exit_quantity, take_profit}
use stock_center.Paper.Exits.Quantity.{exit_quantity-bounds}
use stock_center.Paper.Exits.Priority.{Decided, exit_trigger-Decided}
use stock_center.Paper.Book.{
  pending_confirmation, StrategyCandidate, StrategyDefinition, StrategyVersion, StrategyPaperTrade,
  Book, new_trade,
}
use stock_center.Paper.Book.Sound.{IsSound, new_trade-IsSound}
use stock_center.Paper.Session.{Market, RuntimeCandidate, Outcome, degraded, process_candidate}
use stock_center.Paper.Session.Candidates.{Effect, process_candidate-Effect}
use stock_center.Paper.Process.{Progress, fresh_summary, process}
use stock_center.Paper.Process.Sound.{process-IsSound}
use stock_center.Paper.Process.Counts.{is_entry_key, process-AtZero}

abbrev pub clock_from : Text → Option ℕ
clock_from t =
    if text_eq t (codes "09:30")
    then some 34200000000
    else if text_eq t (codes "09:35")
    then some 34500000000
    else none

abbrev pub instant_from : Value → Option ℕ
instant_from (int (pos n)) = some n
instant_from v = none

-- Texts are no numbers, and times are stored as whole numbers.
abbrev pub plain : Python
plain = record {
  float_text = λ s. none;
  int_text = λ s. none;
  clock_text = clock_from;
  instant_of = instant_from;
  take_profit_text = λ k. "take_profit";
  iso_text = λ t. "time";
  upper = λ s. s;
}

-- 09:31 in Shanghai, on two days.
abbrev morning : ℕ
morning = 869460000000

abbrev next_morning : ℕ
next_morning = 955860000000

abbrev level : ℕ → Value
level price = arr (cons (obj (field "price" (int (pos price)) end)) nil)

abbrev quote : ℕ → ℕ → Fields
quote now price =
    field "quote_time" (int (pos now))
      (field "last_price" (int (pos price)) (field "pre_close_price" (int (pos 10)) end))

abbrev depth : ℕ → ℕ → Fields
depth now price =
    field "depth_time" (int (pos now)) (field "asks" (level price) (field "bids" (level price) end))

abbrev market : ℕ → ℕ → Market
market now price = record {
  quotes = λ code. quote now price;
  depths = λ code. depth now price;
  depth_history = λ code. [];
  minutes = λ code. [];
  block_status = end;
}

abbrev candidate : StrategyCandidate
candidate = record {
  id = 7;
  strategy_id = 1;
  strategy_version_id = 2;
  stock_code = "600000.SH";
  candidate_status = pending_confirmation;
  rank_no = some 1;
  score = none;
  confirmation_deadline = some (date_of morning);
  entry_plan = field "confirmation" (obj (field "window" (str "09:30-09:35") end)) end;
  confirmed_at = none;
}

abbrev definition : StrategyDefinition
definition = record { id = 1; is_paper = true; entry_mode = "open" }

abbrev version : StrategyVersion
version = record { id = 2; is_paper = true; risk_config = end }

abbrev listed : RuntimeCandidate
listed = record { candidate = candidate; definition = definition; version = version }

abbrev book : List StrategyPaperTrade → Book
book trades = record {
  candidates = candidate ∷ [];
  definitions = definition ∷ [];
  versions = version ∷ [];
  trades = trades;
  events = [];
  open_dates = date_of morning ∷ date_of next_morning ∷ [];
  next_trade_id = 3;
}

abbrev given {ℓ} : {A : Type ℓ} → A → Option A → A
given a none = a
given a (some b) = b

abbrev confirmed : Outcome × Book
confirmed =
    given (degraded, book []) (process_candidate plain morning (market morning 10) listed (book []))

process_candidate-Effect_example :
    Effect plain morning (market morning 10) listed (book []) confirmed.0 confirmed.1
unfolding process_candidate
process_candidate-Effect_example =
    process_candidate-Effect plain morning (market morning 10) listed (book []) refl

abbrev trade : StrategyPaperTrade
trade = new_trade 2 candidate morning 10000000 1000 end

abbrev service : List StrategyPaperTrade → Progress
service trades = record { summary = fresh_summary none; book = book trades }

-- The next morning the price has fallen below the hard stop.
abbrev sold_service : Progress
sold_service =
    given (service []) (process plain next_morning (market next_morning 9) (service (trade ∷ [])))

process-IsSound_example : All IsSound sold_service.book.trades
unfolding process
process-IsSound_example =
    process-IsSound plain next_morning (market next_morning 9) (service (trade ∷ []))
      (new_trade-IsSound 2 candidate morning 10000000 1000 end (omega arith), tt) refl

abbrev entered_service : Progress
entered_service = given (service []) (process plain morning (market morning 10) (service []))

process-AtZero_example :
    All (λ c. not (is_entry_key c.key) || c.value == 0 ≡ true) entered_service.summary.counters
unfolding process
process-AtZero_example = process-AtZero plain morning (market morning 10) (service []) refl refl

abbrev legs : Fields
legs =
    field "take_profit_legs"
      (arr (
        cons
          (obj (
            field "trigger_return_pct" (int (pos 5)) (field "sell_ratio" (float (pos 500000)) end)))
          nil))
      end

exit_trigger-Decided_example : Decided plain 10000000 9000000 10000000 legs 2 (some hard_stop)
unfolding exit_trigger
exit_trigger-Decided_example = exit_trigger-Decided plain 10000000 9000000 10000000 legs 2 refl

-- Half of ten lots.
abbrev sold : ℕ
sold = 500

exit_quantity-bounds_example :
    (0 < sold) × (sold ≤ 1000) × ((sold ≡ 1000) ⊎ ((n : ℕ) × (sold ≡ n * 100)))
unfolding exit_quantity
exit_quantity-bounds_example =
    exit_quantity-bounds plain 1000 (take_profit 1) legs (omega arith) refl
