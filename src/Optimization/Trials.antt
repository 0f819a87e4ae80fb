-- ===== src/Optimization/Trials.antt =====
-- Stricter parameters keep fewer trades, and what an eligible verdict says.
use stock_center.Base.{
  ℕ, ◌≤◌, ◌≡◌, ◌↔◌, refl, Bool, true, false, not, Option, none, some, List, [], ◌∷◌, arith, ltb,
  if◌then◌else◌, ◌&&◌, ◌||◌, All, String, Bool-cases, inl, inr,
}
use stock_center.Base.Int.{ℤ, ◌≤ℤ◌, ◌<ℤ◌, ltb_ℤ, leb_ℤ}
use stock_center.Base.Json.{Fields}
use stock_center.Optimization.{
  OptimizationRequirements, Comparator, gte, lte, lt, TunableParameterSpec, emotion_counts,
  is_market_gate, snapshot_value, compares, spec_matches, trial_matches, Summary, or_zero,
  data_insufficient, rejected, eligible, verdict,
}

-- The expectation `b` is at least as strict as `a`; one that is not there is the least strict.
abbrev pub Stricter : Comparator → Option ℤ → Option ℤ → Type 0
Stricter c none b = Unit
Stricter c (some x) none = ⊥
Stricter gte (some x) (some y) = x ≤ℤ y
Stricter _ (some x) (some y) = y ≤ℤ x

module _ (float_text : String → Option ℤ) where
  compares_mono :
      (c : Comparator) (x y a : ℤ)
      → Stricter c (some x) (some y)
      → compares float_text c a y ≡ true
      → compares float_text c a x ≡ true
  compares_mono gte x y a h k = ground arith
  compares_mono lte x y a h k = ground arith
  compares_mono lt x y a h k = ground arith

  spec_matches_mono :
      (snapshot : Fields) (spec : TunableParameterSpec) (a b : Option ℤ)
      → Stricter spec.comparator a b
      → spec_matches float_text snapshot b spec ≡ true
      → spec_matches float_text snapshot a spec ≡ true
  unfolding spec_matches
  spec_matches_mono snapshot spec none b h k = refl
  spec_matches_mono snapshot spec (some x) none h k = absurd h
  spec_matches_mono snapshot spec (some x) (some y) h k =
      elim (Bool-cases (is_market_gate spec.key && not (emotion_counts snapshot))) [
        | inl e ↦ rw (e) refl
        | inr e ↦ rw (e) (go (snapshot_value float_text snapshot spec.source) (rw (e) at k))
      ]
    where
      go :
          (o : Option ℤ)
          → (elim o [ none ↦ false | some actual ↦ compares float_text spec.comparator actual y ])
            ≡ true
          → (elim o [ none ↦ false | some actual ↦ compares float_text spec.comparator actual x ])
            ≡ true
      go none q = cc
      go (some actual) q = compares_mono spec.comparator x y actual h q

  -- A set of parameters that is at least as strict at every spec keeps no trade that the other one
  -- drops.
  pub trial_matches_mono :
      (snapshot : Fields) (loose strict : List String → Option ℤ)
      (specs : List TunableParameterSpec)
      → All (λ spec. Stricter spec.comparator (loose spec.key) (strict spec.key)) specs
      → trial_matches float_text snapshot strict specs ≡ true
      → trial_matches float_text snapshot loose specs ≡ true
  unfolding trial_matches
  trial_matches_mono snapshot loose strict [] h k = refl
  trial_matches_mono snapshot loose strict (spec ∷ specs) h k =
      let first = spec_matches_mono snapshot spec (loose spec.key) (strict spec.key) h.0 in
      let rest = trial_matches_mono snapshot loose strict specs h.1 in ground (arith, first, rest)

-- What eligible means of the two samples.
pub record Meets (train validation : Summary) (drift : Option ℤ) (r : OptimizationRequirements)
    : Type 0 where
  pub train_trades : r.min_train_trades ≤ train.completed_trade_count
  pub validation_trades : r.min_validation_trades ≤ validation.completed_trade_count
  pub train_days : r.min_train_signal_days ≤ train.signal_trade_date_count
  pub validation_days : r.min_validation_signal_days ≤ validation.signal_trade_date_count
  pub train_wins : r.min_train_win_rate_pct ≤ℤ or_zero train.win_rate_pct
  pub validation_wins : r.min_validation_win_rate_pct ≤ℤ or_zero validation.win_rate_pct
  pub train_return : r.min_average_return_pct <ℤ or_zero train.average_net_return_pct
  pub validation_return : r.min_average_return_pct <ℤ or_zero validation.average_net_return_pct
  pub small_drift : or_zero drift ≤ℤ r.max_win_rate_drift_pct

or-false : (a b : Bool) → ((a || b) ≡ false) ↔ ((a ≡ false) × (b ≡ false))
or-false true b = (λ h. cc, λ h. cc (h.0))
or-false false b = (λ h. (refl, h), λ (h : (false ≡ false) × (b ≡ false)). h.1)

ltb-false : (x y : ℕ) → (ltb x y ≡ false) ↔ (y ≤ x)
ltb-false x y = (λ h. ground arith, λ (h : y ≤ x). ground arith)

ltb_ℤ-false : (x y : ℤ) → (ltb_ℤ x y ≡ false) ↔ (y ≤ℤ x)
ltb_ℤ-false x y = (λ h. ground arith, λ (h : y ≤ℤ x). ground arith)

leb_ℤ-false : (x y : ℤ) → (leb_ℤ x y ≡ false) ↔ (y <ℤ x)
leb_ℤ-false x y = (λ h. ground arith, λ (h : y <ℤ x). ground arith)

-- A chain of two tests that ends in `eligible`.
both_passed :
    (a b : Bool)
    → ((if a then data_insufficient else if b then rejected else eligible) ≡ eligible)
      ↔ ((a ≡ false) × (b ≡ false))
both_passed true b = (λ h. cc, λ h. cc (h.0))
both_passed false true = (λ h. cc, λ h. cc (h.1))
both_passed false false = (λ h. (refl, refl), λ h. refl)

or-false_of : (a b : Bool) → a ≡ false → b ≡ false → (a || b) ≡ false
or-false_of a b h k = (or-false a b).1 (h, k)

-- A trial is eligible exactly when both samples have enough trades on enough days, both win rates
-- reach their minimum, both average returns are above theirs, and the win rates lie close enough.
pub verdict_iff :
    (train validation : Summary) (drift : Option ℤ) (r : OptimizationRequirements)
    → (verdict train validation drift r ≡ eligible) ↔ Meets train validation drift r
unfolding verdict
verdict_iff train validation drift r = (
  λ h.
      let (a, b) = (both_passed _ _).0 h in
      let (a1, a') = (or-false _ _).0 a in
      let (a2, a'') = (or-false _ _).0 a' in
      let (a3, a4) = (or-false _ _).0 a'' in
      let (b1, b') = (or-false _ _).0 b in
      let (b2, b'') = (or-false _ _).0 b' in
      let (b3, b3') = (or-false _ _).0 b'' in
      let (b4, b5) = (or-false _ _).0 b3' in
      record {
        train_trades = (ltb-false _ _).0 a1;
        validation_trades = (ltb-false _ _).0 a2;
        train_days = (ltb-false _ _).0 a3;
        validation_days = (ltb-false _ _).0 a4;
        train_wins = (ltb_ℤ-false (or_zero train.win_rate_pct) r.min_train_win_rate_pct).0 b1;
        validation_wins =
            (ltb_ℤ-false (or_zero validation.win_rate_pct) r.min_validation_win_rate_pct).0 b2;
        train_return =
            (leb_ℤ-false (or_zero train.average_net_return_pct) r.min_average_return_pct).0 b3;
        validation_return =
            (leb_ℤ-false (or_zero validation.average_net_return_pct) r.min_average_return_pct).0 b4;
        small_drift = (ltb_ℤ-false r.max_win_rate_drift_pct (or_zero drift)).0 b5;
      },
  λ (m : Meets train validation drift r). (both_passed _ _).1 (
    or-false_of _ _ ((ltb-false _ _).1 m.train_trades) (
        or-false_of _ _ ((ltb-false _ _).1 m.validation_trades)
          (or-false_of _ _ ((ltb-false _ _).1 m.train_days) ((ltb-false _ _).1 m.validation_days))),
    or-false_of _ _
        ((ltb_ℤ-false (or_zero train.win_rate_pct) r.min_train_win_rate_pct).1 m.train_wins)
        (or-false_of _ _
          ((ltb_ℤ-false (or_zero validation.win_rate_pct) r.min_validation_win_rate_pct).1
            m.validation_wins)
          (or-false_of _ _
            ((leb_ℤ-false (or_zero train.average_net_return_pct) r.min_average_return_pct).1
              m.train_return)
            (or-false_of _ _
              ((leb_ℤ-false (or_zero validation.average_net_return_pct) r.min_average_return_pct).1
                m.validation_return)
              ((ltb_ℤ-false r.max_win_rate_drift_pct (or_zero drift)).1 m.small_drift)))),
  ),
)
