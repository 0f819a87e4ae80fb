-- ===== src/Optimization.antt =====
-- python-back/app/modules/strategy_center/optimization.py: how a baseline's trades are split in time, which of
-- them a stricter set of parameters keeps, and what is concluded from the two samples. Dates are
-- natural numbers, percentages and prices whole numbers of millionths. A ratio is a fraction, its
-- product with a count taken without rounding.
pub mod Split
pub mod Trials
pub mod Ranking
use stock_center.Base.{
  ℕ, zero, suc, ◌+◌, ◌-◌, ◌*◌, ◌/◌, Bool, true, false, not, Option, none, some, List, [], ◌∷◌, ltb,
  leb, ◌==◌, if◌then◌else◌, ◌&&◌, ◌||◌, max, min, String, str_eq, select, length, get_elem?,
}
use stock_center.Base.Int.{ℤ, pos, ltb_ℤ, leb_ℤ}
use stock_center.Base.Json.{
  Value, null, bool, str, arr, obj, Items, nil, cons, Fields, end, get_or_null, truthy,
}
use stock_center.Scheduler.Payload.{to_float}

pub record OptimizationRequirements : Type 0 where
  pub ratio_num : ℕ
  pub ratio_den : ℕ
  pub min_train_trades : ℕ
  pub min_validation_trades : ℕ
  pub min_train_signal_days : ℕ
  pub min_validation_signal_days : ℕ
  pub min_train_win_rate_pct : ℤ
  pub min_validation_win_rate_pct : ℤ
  pub min_average_return_pct : ℤ
  pub max_win_rate_drift_pct : ℤ

pub record Trade : Type 0 where
  pub signal_trade_date : ℕ
  pub candidate_snapshot : Fields

-- A date in a sorted list without repetitions.
unfoldable pub add_date : ℕ → List ℕ → List ℕ
add_date d [] = d ∷ []
add_date d (e ∷ es) =
    let rest = add_date d es in if ltb d e then d ∷ e ∷ es else if d == e then e ∷ es else e ∷ rest

-- sorted({item.signal_trade_date for item in trades})
unfoldable pub signal_dates : List Trade → List ℕ
unfolding add_date
signal_dates [] = []
signal_dates (t ∷ ts) = add_date t.signal_trade_date (signal_dates ts)

-- The index of the last date for training; what falls below 0 counts as 0.
abbrev pub train_index : ℕ → OptimizationRequirements → ℕ
train_index n r = max 0 (min (n - 2) (n * r.ratio_num / r.ratio_den - 1))

-- `none` is the ValueError for too few signal dates.
unfoldable pub split_train_end_date : List Trade → OptimizationRequirements → Option ℕ
unfolding signal_dates
split_train_end_date trades r =
    let dates = signal_dates trades in
    if ltb (length dates) (r.min_train_signal_days + r.min_validation_signal_days)
    then none
    else get_elem? dates (train_index (length dates) r)

abbrev pub train_of : ℕ → List Trade → List Trade
train_of end_date trades = select (λ t. leb t.signal_trade_date end_date) trades

abbrev pub validation_of : ℕ → List Trade → List Trade
validation_of end_date trades = select (λ t. ltb end_date t.signal_trade_date) trades

pub data Comparator : Type 0 where
  gte lte lt : Comparator

-- `key` and `source` are split at their dots.
pub record TunableParameterSpec : Type 0 where
  pub key : List String
  pub source : List String
  pub comparator : Comparator

-- `d.get(part)` where the value is a dict, and None where it is not.
abbrev pub step_into : Value → String → Value
step_into (obj fs) part = get_or_null part fs
step_into _ part = null

unfoldable pub nested_get : Value → List String → Value
unfolding get_or_null
nested_get current [] = current
nested_get current (part ∷ parts) = nested_get (step_into current part) parts

abbrev pub is_market_gate : List String → Bool
is_market_gate (p ∷ q ∷ ps) = str_eq p "market_gate"
is_market_gate _ = false

abbrev pub is_text : String → Value → Bool
is_text s (str t) = str_eq t s
is_text s _ = false

-- The emotion score of the snapshot counts: it is ready, or degraded and accepted as such.
unfoldable pub emotion_counts : Fields → Bool
unfolding nested_get truthy
emotion_counts snapshot =
    let status = nested_get (obj snapshot) ("emotion" ∷ "status" ∷ []) in
    is_text "ready" status
    || (is_text "degraded" status
        && truthy (
            nested_get (obj snapshot)
              ("rule_config" ∷ "market_gate" ∷ "accept_degraded_score" ∷ [])))

abbrev pub smaller : Option ℤ → Option ℤ → Option ℤ
smaller none b = b
smaller (some a) none = some a
smaller (some a) (some b) = some (if leb_ℤ a b then a else b)

abbrev pub is_best_heat_rank : List String → Bool
is_best_heat_rank (p ∷ q ∷ []) = str_eq p "concept_context" && str_eq q "best_heat_rank"
is_best_heat_rank _ = false

module _ (float_text : String → Option ℤ) where
  -- The least heat rank of a list of concepts, each a dict.
  unfoldable pub best_heat_rank : Items → Option ℤ
  unfolding to_float
  best_heat_rank nil = none
  best_heat_rank (cons item items) =
      smaller (to_float float_text (step_into item "heat_rank")) (best_heat_rank items)

  abbrev pub best_of : Value → Option ℤ
  best_of (arr items) = best_heat_rank items
  best_of _ = none

  unfoldable pub snapshot_value : Fields → List String → Option ℤ
  unfolding best_heat_rank nested_get to_float
  snapshot_value snapshot source =
      if is_best_heat_rank source
      then best_of (get_or_null "concept_context" snapshot)
      else to_float float_text (nested_get (obj snapshot) source)

  abbrev pub compares : Comparator → ℤ → ℤ → Bool
  compares gte actual expected = not (ltb_ℤ actual expected)
  compares lte actual expected = not (ltb_ℤ expected actual)
  compares lt actual expected = not (leb_ℤ expected actual)

  -- The body of the loop for one spec, `expected` being what the patch has at its key.
  unfoldable pub spec_matches : Fields → Option ℤ → TunableParameterSpec → Bool
  unfolding emotion_counts snapshot_value
  spec_matches snapshot none spec = true
  spec_matches snapshot (some expected) spec =
      if is_market_gate spec.key && not (emotion_counts snapshot)
      then true
      else elim (snapshot_value snapshot spec.source) [
        | none ↦ false
        | some actual ↦ compares spec.comparator actual expected
      ]

  -- _trial_matches, for a patch that is read at the specs' keys.
  unfoldable pub trial_matches :
      Fields → (List String → Option ℤ) → List TunableParameterSpec → Bool
  unfolding spec_matches
  trial_matches snapshot patch [] = true
  trial_matches snapshot patch (spec ∷ specs) =
      spec_matches snapshot (patch spec.key) spec && trial_matches snapshot patch specs

-- The keys of a sample's summary that the verdict reads; a missing rate or return counts as 0.
pub record Summary : Type 0 where
  pub completed_trade_count : ℕ
  pub signal_trade_date_count : ℕ
  pub win_rate_pct : Option ℤ
  pub average_net_return_pct : Option ℤ

abbrev pub or_zero : Option ℤ → ℤ
or_zero none = pos 0
or_zero (some x) = x

pub data Verdict : Type 0 where
  data_insufficient rejected eligible : Verdict

unfoldable pub verdict : Summary → Summary → Option ℤ → OptimizationRequirements → Verdict
verdict train validation drift r =
    if ltb train.completed_trade_count r.min_train_trades
      || (ltb validation.completed_trade_count r.min_validation_trades
          || (ltb train.signal_trade_date_count r.min_train_signal_days
              || ltb validation.signal_trade_date_count r.min_validation_signal_days))
    then data_insufficient
    else if ltb_ℤ (or_zero train.win_rate_pct) r.min_train_win_rate_pct
        || (ltb_ℤ (or_zero validation.win_rate_pct) r.min_validation_win_rate_pct
            || (leb_ℤ (or_zero train.average_net_return_pct) r.min_average_return_pct
                || (leb_ℤ (or_zero validation.average_net_return_pct) r.min_average_return_pct
                    || ltb_ℤ r.max_win_rate_drift_pct (or_zero drift))))
    then rejected
    else eligible
