-- ===== src/Backtest/Promotion.antt =====
-- service.py: what a finished baseline does to its version, and the promotion of a version to paper.
-- Rates are millionths, and the summary of a run is what _execute_backtest would hand on.
pub mod Only
use stock_center.Base.{
  ℕ, zero, suc, ◌+◌, ◌≡◌, ◌≢◌, ◌≤◌, refl, sym, ap, ◌∙◌, Bool, true, false, not, Option, none, some,
  List, [], ◌∷◌, ◌==◌, ==_iff, ◌&&◌, ◌||◌, leb, ltb, if◌then◌else◌, arith, All, map, Bool-cases,
  Option-cases, inl, inr,
}
use stock_center.Base.Int.{ℤ, pos, leb_ℤ, ltb_ℤ, eqb_ℤ}
use stock_center.Base.Fallible.{◌>>=◌, >>=-eq-some, none≢some, some-injective}
use stock_center.Scheduler.Store.{find, update_where}

pub data VersionStatus : Type 0 where
  draft backtest_ready paper retired : VersionStatus

pub record StrategyVersion : Type 0 where
  pub id : ℕ
  pub strategy_id : ℕ
  pub version_no : ℕ
  pub status : VersionStatus
  pub qualified_for_paper_review : Bool

-- A rate or a return that is missing counts as 0.
pub record Summary : Type 0 where
  pub signal_trade_date_count : ℕ
  pub completed_trade_count : ℕ
  pub win_rate_pct : ℤ
  pub average_net_return_pct : ℤ

-- _qualifies_for_paper_review
unfoldable pub qualifies_for_paper_review : Summary → Bool
qualifies_for_paper_review s =
    leb 120 s.signal_trade_date_count
    && leb 300 s.completed_trade_count
    && leb_ℤ (pos 50000000) s.win_rate_pct
    && ltb_ℤ (pos 0) s.average_net_return_pct

-- The key of the run's summary, which asks for the strategy's own limit of candidates as well.
unfoldable pub run_qualified : Summary → ℕ → ℕ → Bool
unfolding qualifies_for_paper_review
run_qualified s candidate_limit live_candidate_limit =
    qualifies_for_paper_review s && candidate_limit == live_candidate_limit

-- The update of the version at the end of run_backtest, for a summary that _execute_backtest hands on;
-- at present it raises a NameError in every run, and these lines are not reached.
unfoldable pub finish_baseline : ℕ → Summary → List StrategyVersion → List StrategyVersion
unfolding qualifies_for_paper_review update_where
finish_baseline id s versions =
    if qualifies_for_paper_review s
    then update_where (λ v. v.id == id)
        (λ v. record v { status = backtest_ready; qualified_for_paper_review = true }) versions
    else versions

abbrev pub is_ready : VersionStatus → Bool
is_ready backtest_ready = true
is_ready s = false

abbrev pub is_paper : VersionStatus → Bool
is_paper paper = true
is_paper s = false

abbrev pub is_version : ℕ → ℕ → StrategyVersion → Bool
is_version strategy_id version_no v = v.strategy_id == strategy_id && v.version_no == version_no

pub data PromotionError : Type 0 where
  strategy_version_not_found strategy_backtest_required : PromotionError

pub data Promotion : Type 0 where
  promoted : List StrategyVersion → Promotion
  refused : PromotionError → Promotion

-- The other versions of the strategy that are on paper, retired.
abbrev pub retire_others : ℕ → ℕ → StrategyVersion → StrategyVersion
retire_others strategy_id id v = record v {
  status =
      if v.strategy_id == strategy_id && (not (v.id == id) && is_paper v.status)
      then retired
      else v.status;
}

abbrev pub publish : ℕ → StrategyVersion → StrategyVersion
publish id v = record v { status = if v.id == id then paper else v.status }

abbrev pub promote_found : ℕ → List StrategyVersion → Option StrategyVersion → Promotion
promote_found strategy_id versions none = refused strategy_version_not_found
promote_found strategy_id versions (some v) =
    if is_ready v.status && v.qualified_for_paper_review
    then promoted (map (publish v.id) (map (retire_others strategy_id v.id) versions))
    else refused strategy_backtest_required

-- promote_version_to_paper, for the table of versions.
unfoldable pub promote_version_to_paper : ℕ → ℕ → List StrategyVersion → Promotion
unfolding find
promote_version_to_paper strategy_id version_no versions =
    promote_found strategy_id versions (find (is_version strategy_id version_no) versions)
