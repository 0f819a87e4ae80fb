-- ===== src/Backtest/Fast.antt =====
-- service.py: the quick test of a stock before the evaluator runs, against the evaluator's own checks,
-- and the number of candidates that a day keeps.
use stock_center.Base.{
  zero, suc, ◌≡◌, ◌≢◌, refl, Bool, true, false, not, Option, none, some, ◌&&◌, if◌then◌else◌, arith,
  Bool-cases, inl, inr,
}
use stock_center.Base.Int.{ℤ, pos, negsuc, ltb_ℤ, leb_ℤ, ◌≤ℤ◌}
use stock_center.Base.Json.{Value, Fields, get_or_null, truthy}
use stock_center.Base.Fallible.{>>=-eq-some, some-injective}
use stock_center.Paper.{Python, to_int, float_or, int_or}
use stock_center.Rules.{Context, Rule, or_default, below, num, int_at}
use stock_center.Rules.Checks.{
  SkipCode, days_or_length, listing_history_insufficient, amount_unavailable,
  liquidity_insufficient, check_listing, amount_check, check_trading, or_trading, check_universe,
}

-- A default in place of a number that cannot be read.
abbrev pub amount_passes : Option ℤ → ℤ → Bool
amount_passes none least = false
amount_passes (some amount) least = not (below amount least)

abbrev pub days_pass : Option ℤ → ℤ → Bool
days_pass none least = true
days_pass (some days) least = leb_ℤ least days

-- `min(max(int(value or 30), 1), 200)`, and 30 where that cannot be read.
abbrev pub clamped : ℤ → ℤ
clamped z = if ltb_ℤ z (pos 1) then pos 1 else if ltb_ℤ (pos 200) z then pos 200 else z

abbrev pub limit_or_default : Option ℤ → ℤ
limit_or_default none = pos 30
limit_or_default (some z) = clamped z

module _ (py : Python) where
  -- _passes_fast_universe_bounds
  unfoldable pub passes_fast_universe_bounds : Fields → Fields → Bool
  unfolding num int_at float_or int_or get_or_null
  passes_fast_universe_bounds current universe =
      amount_passes (num py current "amount_yuan")
        (or_default (pos 0) (float_or py (get_or_null "minimum_amount_yuan" universe) (pos 0)))
      && days_pass (int_at py current "history_days") (
          or_default (pos 0)
            (int_or py (get_or_null "minimum_listing_trade_days" universe) (pos 0)))

  -- _candidate_limit
  unfoldable pub candidate_limit : Fields → ℤ
  unfolding int_or get_or_null
  candidate_limit selection =
      limit_or_default (int_or py (get_or_null "max_candidates" selection) (pos 30))

-- What the trading's checks let through.
record Traded (py : Python) (c : Context) (rule : Rule) : Type 0 where
  days : ℤ
  amount : ℤ
  least : ℤ
  least_days :
      int_or py (get_or_null "minimum_listing_trade_days" rule.universe) (pos 60) ≡ some days
  long_enough : ltb_ℤ (days_or_length (int_at py c.current "history_days") c.history) days ≡ false
  has_amount : num py c.current "amount_yuan" ≡ some amount
  least_amount : float_or py (get_or_null "minimum_amount_yuan" rule.universe) (pos 0) ≡ some least
  enough : below amount least ≡ false

-- The quick test's least number of days is no more than the evaluator's.
least_le_days :
    (py : Python) (v : Value) (days : ℤ)
    → int_or py v (pos 60) ≡ some days
    → or_default (pos 0) (int_or py v (pos 0)) ≤ℤ days
unfolding int_or
least_le_days py v days e = elim (Bool-cases (truthy v)) [
  | inl t ↦ let read : to_int py v ≡ some days = rw (t) at e in rw (t) (rw (read) (omega arith))
  | inr t ↦
      let read : pos 60 ≡ days = some-injective (rw (t) at e) in rw (t) (rw (← read) (omega arith))
]

module _ (py : Python) (c : Context) (rule : Rule) where
  days_enough :
      (recorded : Option ℤ) (days least : ℤ)
      → recorded ≢ some (pos 0)
      → least ≤ℤ days
      → ltb_ℤ (days_or_length recorded c.history) days ≡ false
      → days_pass recorded least ≡ true
  days_enough none days least r l e = refl
  days_enough (some (pos zero)) days least r l e = absurd (r refl)
  days_enough (some (pos (suc n))) days least r l e = ground (arith, l, e)
  days_enough (some (negsuc n)) days least r l e = ground (arith, l, e)

  check_trading-Traded : check_trading py c rule ≡ some none → Traded py c rule
  unfolding check_trading
  check_trading-Traded e =
      let (days, e1, k1) =
        >>=-eq-some (int_or py (get_or_null "minimum_listing_trade_days" rule.universe) (pos 60)) _
          e in
      after_days days e1 k1
    where
      after_amount :
          (days amount least : ℤ)
          → int_or py (get_or_null "minimum_listing_trade_days" rule.universe) (pos 60) ≡ some days
          → ltb_ℤ (days_or_length (int_at py c.current "history_days") c.history) days ≡ false
          → num py c.current "amount_yuan" ≡ some amount
          → float_or py (get_or_null "minimum_amount_yuan" rule.universe) (pos 0) ≡ some least
          → some (if below amount least then some liquidity_insufficient else none) ≡ some none
          → Traded py c rule
      after_amount days amount least d l n f k = elim (Bool-cases (below amount least)) [
        | inl b ↦
            let no : some liquidity_insufficient ≡ none = some-injective (rw (b) at k) in absurd cc
        | inr b ↦ record {
          days = days;
          amount = amount;
          least = least;
          least_days = d;
          long_enough = l;
          has_amount = n;
          least_amount = f;
          enough = b;
        }
      ]

      at_amount :
          (days : ℤ) (amount : Option ℤ)
          → int_or py (get_or_null "minimum_listing_trade_days" rule.universe) (pos 60) ≡ some days
          → ltb_ℤ (days_or_length (int_at py c.current "history_days") c.history) days ≡ false
          → num py c.current "amount_yuan" ≡ amount
          → amount_check py rule amount ≡ some none
          → Traded py c rule
      at_amount days none d l n k =
          absurd (let no : some amount_unavailable ≡ none = some-injective k in cc)
      at_amount days (some amount) d l n k =
          let (least, e2, k2) =
            >>=-eq-some (float_or py (get_or_null "minimum_amount_yuan" rule.universe) (pos 0)) _
              k in
          after_amount days amount least d l n e2 k2

      after_days :
          (days : ℤ)
          → int_or py (get_or_null "minimum_listing_trade_days" rule.universe) (pos 60) ≡ some days
          → (if ltb_ℤ (days_or_length (int_at py c.current "history_days") c.history) days
              then some (some listing_history_insufficient)
              else amount_check py rule (num py c.current "amount_yuan"))
            ≡ some none
          → Traded py c rule
      after_days days d k =
          elim (Bool-cases
            (ltb_ℤ (days_or_length (int_at py c.current "history_days") c.history) days)) [
              | inl l ↦ absurd (
                  let no : some listing_history_insufficient ≡ none =
                    some-injective (rw (l) at k) in
                  cc)
              | inr l ↦ at_amount days (num py c.current "amount_yuan") d l refl (rw (l) at k)
            ]

  -- A stock that the evaluator's universe lets through passes the quick test, where the number of its
  -- days is not recorded as 0.
  pub fast_complete :
      int_at py c.current "history_days" ≢ some (pos 0)
      → check_universe py c rule ≡ some none
      → passes_fast_universe_bounds py c.current rule.universe ≡ true
  unfolding check_universe passes_fast_universe_bounds
  fast_complete recorded e =
      let t = check_trading-Traded (trading (check_listing py c rule) e) in
      rw (t.has_amount) (
        rw (t.least_amount) (
          rw (t.enough) (
            days_enough (int_at py c.current "history_days") t.days _ recorded
              (least_le_days py (get_or_null "minimum_listing_trade_days" rule.universe) t.days
                t.least_days)
              t.long_enough)))
    where
      trading :
          (o : Option SkipCode)
          → or_trading py c rule o ≡ some none
          → check_trading py c rule ≡ some none
      trading none k = k
      trading (some code) k = absurd (let no : some code ≡ none = some-injective k in cc)
