-- ===== src/Paper/Book.antt =====
-- python-back/app/modules/strategy_center/models.py and repository.py: the rows that the confirmation
-- reads and writes. A candidate's and a trade's evidence and notes are left out, and so are update
-- times. A trade holds its legs, which its id selects.
pub mod Sound
use stock_center.Base.{
  ℕ, zero, suc, ◌+◌, ◌-◌, ◌*◌, ◌/◌, ◌≡◌, Bool, true, false, Option, none, some, List, [], ◌∷◌, ◌++◌,
  ltb, leb, ◌==◌, if◌then◌else◌, ◌&&◌, ◌||◌, String, str_eq, max, min, any, select, length,
}
use stock_center.Base.Int.{ℤ, pos, negsuc, pos_part, neg_part, sub_ℕ, ◌-ℤ◌, leb_ℤ}
use stock_center.Base.Json.{Value, str, obj, Fields, get_or_null, truthy, set_field}
use stock_center.Base.Fallible.{◌>>=◌}
use stock_center.Scheduler.Store.{find, update_where}
use stock_center.Paper.{Python, scale, date_of, dict_or_empty, float_or}
use stock_center.Paper.Exits.{ExitCode, code_text}

pub data CandidateStatus : Type 0 where
  pending_confirmation watching not_triggered entry_triggered : CandidateStatus

pub record StrategyCandidate : Type 0 where
  pub id : ℕ
  pub strategy_id : ℕ
  pub strategy_version_id : ℕ
  pub stock_code : String
  pub candidate_status : CandidateStatus
  pub rank_no : Option ℕ
  pub score : Option ℤ
  pub confirmation_deadline : Option ℕ
  pub entry_plan : Fields
  pub confirmed_at : Option ℕ

-- Statuses of definitions and versions, of which the code compares one.
pub record StrategyDefinition : Type 0 where
  pub id : ℕ
  pub is_paper : Bool
  pub entry_mode : String

pub record StrategyVersion : Type 0 where
  pub id : ℕ
  pub is_paper : Bool
  pub risk_config : Fields

pub data Side : Type 0 where
  buy sell : Side

pub record StrategyPaperTradeLeg : Type 0 where
  pub leg_no : ℕ
  pub side : Side
  pub execution_time : ℕ
  pub price : ℕ
  pub quantity : ℕ
  pub amount : ℕ

-- What a closed trade holds. An amount of money is in millionths, profit and loss in millionths of
-- millionths. The columns exit_price and realized_pnl_pct, quotients of these, are left out.
pub record Closing : Type 0 where
  pub exit_at : ℕ
  pub exit_amount : ℕ
  pub realized_pnl_amount : ℤ

-- `trade_status` is "closed" when `closing` is there.
pub record StrategyPaperTrade : Type 0 where
  pub id : ℕ
  pub candidate_id : ℕ
  pub strategy_id : ℕ
  pub stock_code : String
  pub entry_at : ℕ
  pub entry_price : ℕ
  pub initial_quantity : ℕ
  pub open_quantity : ℕ
  pub entry_amount : ℕ
  pub risk_plan : Fields
  pub legs : List StrategyPaperTradeLeg
  pub closing : Option Closing

-- The fields that an event's fingerprint is made of.
pub record StrategySignalEvent : Type 0 where
  pub strategy_version_id : ℕ
  pub candidate_id : ℕ
  pub paper_trade_id : Option ℕ
  pub stock_code : String
  pub trade_date : ℕ
  pub market_phase : String
  pub event_type : String
  pub decision : String
  pub reason_code : String

pub record Book : Type 0 where
  pub candidates : List StrategyCandidate
  pub definitions : List StrategyDefinition
  pub versions : List StrategyVersion
  pub trades : List StrategyPaperTrade
  pub events : List StrategySignalEvent
  pub open_dates : List ℕ
  pub next_trade_id : ℕ

abbrev pub option_id_eq : Option ℕ → Option ℕ → Bool
option_id_eq none none = true
option_id_eq (some a) (some b) = a == b
option_id_eq _ _ = false

-- Equal fingerprints: the digest is taken to tell different fields apart.
abbrev pub same_event : StrategySignalEvent → StrategySignalEvent → Bool
same_event a b =
    a.strategy_version_id == b.strategy_version_id
    && a.candidate_id == b.candidate_id
    && option_id_eq a.paper_trade_id b.paper_trade_id
    && str_eq a.stock_code b.stock_code
    && a.trade_date == b.trade_date
    && str_eq a.market_phase b.market_phase
    && str_eq a.event_type b.event_type
    && str_eq a.decision b.decision
    && str_eq a.reason_code b.reason_code

-- INSERT ... ON CONFLICT DO NOTHING.
unfoldable pub record_signal_event : StrategySignalEvent → Book → Book
unfolding any
record_signal_event e book =
    if any (same_event e) book.events then book else record book { events = book.events ++ e ∷ [] }

unfoldable pub mark_candidate_status : ℕ → CandidateStatus → Option ℕ → Book → Book
unfolding update_where
mark_candidate_status id status confirmed_at book = record book {
  candidates =
      update_where (λ c. c.id == id)
        (λ c. record c {
          candidate_status = status;
          confirmed_at = elim confirmed_at [ none ↦ c.confirmed_at | some at ↦ some at ];
        })
        book.candidates;
}

abbrev pub bought : ℕ → ℕ → ℕ → StrategyPaperTradeLeg
bought at price quantity = record {
  leg_no = 1;
  side = buy;
  execution_time = at;
  price = price;
  quantity = quantity;
  amount = price * quantity;
}

abbrev pub new_trade : ℕ → StrategyCandidate → ℕ → ℕ → ℕ → Fields → StrategyPaperTrade
new_trade id c at price quantity risk_plan = record {
  id = id;
  candidate_id = c.id;
  strategy_id = c.strategy_id;
  stock_code = c.stock_code;
  entry_at = at;
  entry_price = price;
  initial_quantity = quantity;
  open_quantity = quantity;
  entry_amount = price * quantity;
  risk_plan = risk_plan;
  legs = bought at price quantity ∷ [];
  closing = none;
}

-- `none` where the candidate has a trade already: candidate_id is unique.
unfoldable pub create_paper_trade_with_entry :
    StrategyCandidate → ℕ → ℕ → ℕ → Fields → Book → Option Book
unfolding any
create_paper_trade_with_entry c at price quantity risk_plan book =
    if any (λ t. t.candidate_id == c.id) book.trades
    then none
    else some (record book {
      trades = book.trades ++ new_trade book.next_trade_id c at price quantity risk_plan ∷ [];
      next_trade_id = suc book.next_trade_id;
    })

-- The greatest leg number.
unfoldable pub last_leg : List StrategyPaperTradeLeg → ℕ
last_leg [] = 0
last_leg (l ∷ ls) = max l.leg_no (last_leg ls)

abbrev pub is_sell : Side → Bool
is_sell sell = true
is_sell buy = false

unfoldable pub sold_amount : List StrategyPaperTradeLeg → ℕ
sold_amount [] = 0
sold_amount (l ∷ ls) = (if is_sell l.side then l.amount else 0) + sold_amount ls

abbrev pub sold : ℕ → ℕ → ℕ → List StrategyPaperTradeLeg → StrategyPaperTradeLeg
sold at price quantity legs = record {
  leg_no = last_leg legs + 1;
  side = sell;
  execution_time = at;
  price = price;
  quantity = quantity;
  amount = price * quantity;
}

-- `trade.entry_amount or trade.entry_price * trade.initial_quantity`
abbrev pub entry_amount_of : StrategyPaperTrade → ℕ
entry_amount_of t =
    if t.entry_amount == 0 then t.entry_price * t.initial_quantity else t.entry_amount

module _ (py : Python) where
  unfoldable pub closing_of : ℕ → Fields → StrategyPaperTrade → Option Closing
  unfolding sold_amount float_or get_or_null
  closing_of at risk_plan t =
      float_or py (get_or_null "fee_rate" risk_plan) (pos 500) >>= λ fee_rate. some (record {
        exit_at = at;
        exit_amount = sold_amount t.legs;
        realized_pnl_amount =
            sub_ℕ (sold_amount t.legs * 1000000) (entry_amount_of t * 1000000)
            -ℤ scale (entry_amount_of t + sold_amount t.legs) fee_rate;
      })

  unfoldable pub exit_marked : ℕ → ExitCode → Fields → Option Fields
  unfolding dict_or_empty get_or_null set_field
  exit_marked at code risk_plan =
      dict_or_empty (get_or_null "runtime_state" risk_plan) >>= λ runtime_state. some (
        set_field "runtime_state"
          (obj (
            set_field "last_exit_at" (str (py.iso_text at))
              (set_field "last_exit_trigger_code" (str (code_text py code)) runtime_state)))
          risk_plan)

  unfoldable pub append_paper_sell_leg :
      ℕ → ℕ → ℕ → ExitCode → StrategyPaperTrade → Option StrategyPaperTrade
  unfolding exit_marked closing_of last_leg
  append_paper_sell_leg at price quantity code t = exit_marked at code t.risk_plan >>= λ risk_plan.
      let after : StrategyPaperTrade = record t {
        legs = t.legs ++ sold at price quantity t.legs ∷ [];
        open_quantity = t.open_quantity - quantity;
        risk_plan = risk_plan;
      } in
      if t.open_quantity - quantity == 0
      then (closing_of at risk_plan after >>= λ closing.
          some (record after { closing = some closing }))
      else some after

unfoldable pub put_trade : StrategyPaperTrade → Book → Book
unfolding update_where
put_trade t book = record book { trades = update_where (λ u. u.id == t.id) (λ u. t) book.trades }

abbrev pub is_open : StrategyPaperTrade → Bool
is_open t = elim t.closing [ none ↦ true | some c ↦ false ]

unfoldable pub count_open_trade_days : ℕ → ℕ → List ℕ → ℕ
unfolding select
count_open_trade_days start_date end_date dates =
    length (select (λ d. leb start_date d && leb d end_date) dates)
