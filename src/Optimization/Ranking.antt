-- ===== src/Optimization/Ranking.antt =====
-- python-back/app/modules/strategy_center/optimization.py: the ranking of trials and the recommendation.
use stock_center.Base.{
  ℕ, ◌+◌, Bool, true, false, not, Option, none, some, List, [], ◌∷◌, ltb, if◌then◌else◌, ◌&&◌, ◌||◌,
  select, length,
}
use stock_center.Base.Int.{ℤ, pos, negsuc, ltb_ℤ, eqb_ℤ}
use stock_center.Optimization.{Verdict, eligible}

-- The keys of a trial's summaries that the ranking reads.
pub record OptimizationTrialResult : Type 0 where
  pub trial_no : ℕ
  pub win_rate_lower_bound_pct : Option ℤ
  pub average_net_return_pct : Option ℤ
  pub median_net_return_pct : Option ℤ
  pub completed_trade_count : ℕ
  pub verdict : Verdict
  pub rank_no : Option ℕ

abbrev pub is_eligible : Verdict → Bool
is_eligible eligible = true
is_eligible _ = false

-- `x or default`: 0 counts as missing.
abbrev pub or_default : ℤ → Option ℤ → ℤ
or_default default none = default
or_default default (some x) = if eqb_ℤ x (pos 0) then default else x

-- -999 in millionths.
abbrev pub no_return : ℤ
no_return = negsuc 998999999

-- The order of the rank keys, False before True.
unfoldable pub key_below : OptimizationTrialResult → OptimizationTrialResult → Bool
key_below a b =
    let e = is_eligible a.verdict in
    let f = is_eligible b.verdict in
    let l = or_default (pos 0) a.win_rate_lower_bound_pct in
    let k = or_default (pos 0) b.win_rate_lower_bound_pct in
    let m = or_default no_return a.average_net_return_pct in
    let n = or_default no_return b.average_net_return_pct in
    let p = or_default no_return a.median_net_return_pct in
    let q = or_default no_return b.median_net_return_pct in
    (not e && f)
    || (((e && f) || not (e || f))
        && (ltb_ℤ l k
            || (eqb_ℤ l k
                && (ltb_ℤ m n
                    || (eqb_ℤ m n
                        && (ltb_ℤ p q
                            || (eqb_ℤ p q
                                && ltb a.completed_trade_count b.completed_trade_count)))))))

-- sorted(results, key=rank_key, reverse=True), which keeps the order of equal keys.
unfoldable pub place :
    OptimizationTrialResult → List OptimizationTrialResult → List OptimizationTrialResult
unfolding key_below
place x [] = x ∷ []
place x (y ∷ ys) = let rest = place x ys in if key_below x y then y ∷ rest else x ∷ y ∷ ys

unfoldable pub ordered : List OptimizationTrialResult → List OptimizationTrialResult
unfolding place
ordered [] = []
ordered (x ∷ xs) = place x (ordered xs)

unfoldable pub numbered : ℕ → List OptimizationTrialResult → List OptimizationTrialResult
numbered index [] = []
numbered index (x ∷ xs) = record x { rank_no = some index } ∷ numbered (index + 1) xs

unfoldable pub rank_trials : List OptimizationTrialResult → List OptimizationTrialResult
unfolding ordered numbered
rank_trials results = numbered 1 (ordered results)

pub record Recommendation : Type 0 where
  pub trial_count : ℕ
  pub eligible_trial_count : ℕ
  pub recommended_trial_no : Option ℕ

abbrev pub first_no : List OptimizationTrialResult → Option ℕ
first_no [] = none
first_no (t ∷ ts) = some t.trial_no

-- The counts and the recommendation of optimization_summary.
unfoldable pub optimization_summary : List OptimizationTrialResult → Recommendation
unfolding select
optimization_summary trials =
    let good = select (λ t. is_eligible t.verdict) trials in
    record {
      trial_count = length trials;
      eligible_trial_count = length good;
      recommended_trial_no = first_no good;
    }
