-- ===== src/Rules/Matchers/Audit.antt =====
-- The reasons that a matcher records, against its verdict.
use stock_center.Base.{
  ◌≡◌, refl, sym, ◌∙◌, Bool, true, false, Option, none, some, List, [], ◌∷◌, ◌&&◌, String, arith,
}
use stock_center.Base.Int.{ℤ, pos}
use stock_center.Paper.{Python}
use stock_center.Rules.{
  Implementation, trend_breakout, bullish_alignment, ma_golden_cross, volume_price_surge,
  high_turnover_surge, low_volatility_leader, pullback_ma20_bounce, n_day_low_reversal,
  theme_first_board_relay, consecutive_limit_up_relay, broken_board_recovery, ◌>>=◌, Context, Rule,
  Match, Reason, reason, missing, or_missing, below, signal_number,
}
use stock_center.Rules.Matchers as Day
use stock_center.Rules.Matchers.Boards as Boards
use stock_center.Rules.Evaluate.{matcher, previous_of}

unfoldable pub all_passed : List Reason → Bool
all_passed [] = true
all_passed (r ∷ rs) = r.passed && all_passed rs

-- The verdict is that all recorded reasons passed.
pub record Agrees (m : Match) : Type 0 where
  pub verdict : m.matched ≡ all_passed m.reasons

-- The verdict is that all recorded reasons passed, and one comparison more.
pub record Stricter (m : Match) : Type 0 where
  pub more : Bool
  pub verdict : m.matched ≡ all_passed m.reasons && more

-- What holds where the facts are there.
data Fine (P : Match → Type 0) : Option Match → Type 0 where
  absent : Fine P none
  present : {m : Match} → P m → Fine P (some m)

module _ {P : Match → Type 0} where
  Fine-bind : (o : Option ℤ) (f : ℤ → Option Match) → ((z : ℤ) → Fine P (f z)) → Fine P (o >>= f)
  unfolding ◌>>=◌
  Fine-bind none f h = absent
  Fine-bind (some z) f h = h z

  Fine-holds :
      (code : String) (o : Option Match) → P (missing code) → Fine P o → P (or_missing code o)
  unfolding or_missing
  Fine-holds code none m absent = m
  Fine-holds code (some m) n (present h) = h

missing-Agrees : (code : String) → Agrees (missing code)
unfolding all_passed
missing-Agrees code = record { verdict = refl }

missing-Stricter : (code : String) → Stricter (missing code)
unfolding all_passed
missing-Stricter code = record { more = true; verdict = refl }

and_left : (a b : Bool) → a && b ≡ true → a ≡ true
and_left true b h = refl
and_left false b h = h

module _ (r s t : String) (a b c : Bool) where
  three :
      Agrees (record { reasons = reason r a ∷ reason s b ∷ reason t c ∷ []; matched = a && b && c })
  unfolding all_passed
  three = record { verdict = ground arith }

  four :
      (u : String) (d : Bool)
      → Agrees (record {
        matched = a && b && c && d;
        reasons = reason r a ∷ reason s b ∷ reason t c ∷ reason u d ∷ [];
      })
  unfolding all_passed
  four u d = record { verdict = ground arith }

  five :
      (u v : String) (d e : Bool)
      → Agrees (record {
        matched = a && b && c && d && e;
        reasons = reason r a ∷ reason s b ∷ reason t c ∷ reason u d ∷ reason v e ∷ [];
      })
  unfolding all_passed
  five u v d e = record { verdict = ground arith }

  -- The third reason is two comparisons.
  four_of_five :
      (u : String) (d e : Bool)
      → Agrees (record {
        matched = a && b && c && d && e;
        reasons = reason r a ∷ reason s b ∷ reason t (c && d) ∷ reason u e ∷ [];
      })
  unfolding all_passed
  four_of_five u d e = record { verdict = ground arith }

  -- The first reason is part of the second.
  three_of_four :
      (u : String) (d : Bool)
      → Agrees (record {
        matched = (a && b) && c && d;
        reasons = reason r a ∷ reason s (a && b) ∷ reason t c ∷ reason u d ∷ [];
      })
  unfolding all_passed
  three_of_four u d = record { verdict = ground arith }

module _ (r s t u : String) (a b c d e : Bool) where
  four_and_more : Stricter (record {
    reasons = reason r a ∷ reason s b ∷ reason t c ∷ reason u d ∷ [];
    matched = a && b && c && d && e;
  })
  unfolding all_passed
  four_and_more = record { more = e; verdict = ground arith }

module _ (py : Python) (c : Context) (rule : Rule) where
  trend_breakout-Agrees : Agrees (Day.trend_breakout py c.current rule c.history)
  unfolding Day.trend_breakout
  trend_breakout-Agrees =
      Fine-holds {P = Agrees} "trend_breakout_inputs" _ (missing-Agrees "trend_breakout_inputs") (
        Fine-bind _ _ λ high. Fine-bind _ _ λ close.
          Fine-bind _ _
            λ change. Fine-bind _ _ λ amount. Fine-bind _ _ λ place. present (four _ _ _ _ _ _ _ _))

  bullish_alignment-Agrees : Agrees (Day.bullish_alignment py c.current rule)
  unfolding Day.bullish_alignment
  bullish_alignment-Agrees =
      Fine-holds {P = Agrees} "bullish_alignment_inputs" _
        (missing-Agrees "bullish_alignment_inputs")
        (Fine-bind _ _ λ close. Fine-bind _ _ λ ma5. Fine-bind _ _ λ ma10. Fine-bind _ _ λ ma20.
          Fine-bind _ _
            λ ma60. Fine-bind _ _ λ v. Fine-bind _ _ λ change. present (three _ _ _ _ _ _))

  ma_golden_cross-Agrees :
      Agrees (Day.ma_golden_cross py c.current rule (previous_of c.previous c.history))
  unfolding Day.ma_golden_cross
  ma_golden_cross-Agrees =
      Fine-holds {P = Agrees} "ma_golden_cross_inputs" _ (missing-Agrees "ma_golden_cross_inputs") (
        Fine-bind _ _ λ ma5. Fine-bind _ _ λ ma10. Fine-bind _ _ λ v.
          Fine-bind _ _
            λ change. Fine-bind _ _ λ p5. Fine-bind _ _ λ p10. present (three _ _ _ _ _ _))

  volume_price_surge-Agrees : Agrees (Day.volume_price_surge py c.current rule)
  unfolding Day.volume_price_surge
  volume_price_surge-Agrees =
      Fine-holds {P = Agrees} "volume_price_surge_inputs" _
        (missing-Agrees "volume_price_surge_inputs")
        (Fine-bind _ _ λ change.
          Fine-bind _ _
            λ v. Fine-bind _ _ λ amount. Fine-bind _ _ λ place. present (four _ _ _ _ _ _ _ _))

  high_turnover_surge-Agrees : Agrees (Day.high_turnover_surge py c.current rule)
  unfolding Day.high_turnover_surge
  high_turnover_surge-Agrees =
      Fine-holds {P = Agrees} "high_turnover_surge_inputs" _
        (missing-Agrees "high_turnover_surge_inputs")
        (Fine-bind _ _ λ change. Fine-bind _ _ λ turnover. Fine-bind _ _ λ place.
          Fine-bind _ _ λ inflow. Fine-bind _ _ λ ratio. present (
            four_of_five _ _ _ _ _ (below (pos 0) inflow) _
              (below (signal_number py rule "main_net_ratio_min" (pos 0)) ratio) _))

  low_volatility_leader-Stricter : Stricter (Day.low_volatility_leader py c.current rule)
  unfolding Day.low_volatility_leader
  low_volatility_leader-Stricter =
      Fine-holds {P = Stricter} "low_volatility_leader_inputs" _
        (missing-Stricter "low_volatility_leader_inputs")
        (Fine-bind _ _ λ close. Fine-bind _ _ λ ma20. Fine-bind _ _ λ volatility. Fine-bind _ _ λ v.
          Fine-bind _ _ λ place. Fine-bind _ _ λ change. present (four_and_more _ _ _ _ _ _ _ _ _))

  pullback_ma20_bounce-Agrees : Agrees (Day.pullback_ma20_bounce py c.current rule)
  unfolding Day.pullback_ma20_bounce
  pullback_ma20_bounce-Agrees =
      Fine-holds {P = Agrees} "pullback_ma20_bounce_inputs" _
        (missing-Agrees "pullback_ma20_bounce_inputs")
        (Fine-bind _ _ λ low. Fine-bind _ _ λ close. Fine-bind _ _ λ start. Fine-bind _ _ λ ma5.
          Fine-bind _ _ λ ma10.
            Fine-bind _ _
              λ ma20. Fine-bind _ _ λ v. Fine-bind _ _ λ place. present (five _ _ _ _ _ _ _ _ _ _))

  n_day_low_reversal-Agrees : Agrees (Day.n_day_low_reversal py c.current rule c.history)
  unfolding Day.n_day_low_reversal
  n_day_low_reversal-Agrees =
      Fine-holds {P = Agrees} "n_day_low_reversal_inputs" _
        (missing-Agrees "n_day_low_reversal_inputs")
        (Fine-bind _ _ λ prior. Fine-bind _ _ λ low. Fine-bind _ _ λ close. Fine-bind _ _ λ start.
          Fine-bind _ _
            λ change. Fine-bind _ _ λ place. Fine-bind _ _ λ v. present (three _ _ _ _ _ _))

  broken_board_recovery-Agrees : Agrees (Boards.broken_board_recovery py c rule)
  unfolding Boards.broken_board_recovery
  broken_board_recovery-Agrees =
      Fine-holds {P = Agrees} "broken_board_recovery_inputs" _
        (missing-Agrees "broken_board_recovery_inputs")
        (Fine-bind _ _
          λ place. Fine-bind _ _ λ v. Fine-bind _ _ λ change. present (four _ _ _ _ _ _ _ _))

  theme_first_board_relay-Agrees : Agrees (Boards.theme_first_board_relay py c rule)
  unfolding Boards.theme_first_board_relay
  theme_first_board_relay-Agrees = three_of_four _ _ _ _ _ _ _ _

  consecutive_limit_up_relay-Agrees : Agrees (Boards.consecutive_limit_up_relay py c rule)
  unfolding Boards.consecutive_limit_up_relay
  consecutive_limit_up_relay-Agrees = three_of_four _ _ _ _ _ _ _ _

  -- The one implementation with a comparison that is not recorded.
  abbrev pub is_low_volatility : Implementation → Bool
  is_low_volatility low_volatility_leader = true
  is_low_volatility i = false

  matcher-Agrees : (i : Implementation) → is_low_volatility i ≡ false → Agrees (matcher py c rule i)
  unfolding matcher
  matcher-Agrees trend_breakout h = trend_breakout-Agrees
  matcher-Agrees bullish_alignment h = bullish_alignment-Agrees
  matcher-Agrees ma_golden_cross h = ma_golden_cross-Agrees
  matcher-Agrees volume_price_surge h = volume_price_surge-Agrees
  matcher-Agrees high_turnover_surge h = high_turnover_surge-Agrees
  matcher-Agrees low_volatility_leader h = absurd cc
  matcher-Agrees pullback_ma20_bounce h = pullback_ma20_bounce-Agrees
  matcher-Agrees n_day_low_reversal h = n_day_low_reversal-Agrees
  matcher-Agrees theme_first_board_relay h = theme_first_board_relay-Agrees
  matcher-Agrees consecutive_limit_up_relay h = consecutive_limit_up_relay-Agrees
  matcher-Agrees broken_board_recovery h = broken_board_recovery-Agrees

  -- A matcher's verdict is that all the reasons that it records passed, for every implementation but
  -- the low volatility leader.
  pub matcher-audited :
      (i : Implementation)
      → is_low_volatility i ≡ false
      → (matcher py c rule i).matched ≡ all_passed (matcher py c rule i).reasons
  matcher-audited i h = (matcher-Agrees i h).verdict

  -- Nothing matches, under any implementation, unless all the reasons that are recorded passed.
  pub matcher-passed :
      (i : Implementation)
      → (matcher py c rule i).matched ≡ true
      → all_passed (matcher py c rule i).reasons ≡ true
  unfolding matcher
  matcher-passed low_volatility_leader h =
      and_left _ low_volatility_leader-Stricter.more
        (sym low_volatility_leader-Stricter.verdict ∙ h)
  matcher-passed trend_breakout h = sym (matcher-audited trend_breakout refl) ∙ h
  matcher-passed bullish_alignment h = sym (matcher-audited bullish_alignment refl) ∙ h
  matcher-passed ma_golden_cross h = sym (matcher-audited ma_golden_cross refl) ∙ h
  matcher-passed volume_price_surge h = sym (matcher-audited volume_price_surge refl) ∙ h
  matcher-passed high_turnover_surge h = sym (matcher-audited high_turnover_surge refl) ∙ h
  matcher-passed pullback_ma20_bounce h = sym (matcher-audited pullback_ma20_bounce refl) ∙ h
  matcher-passed n_day_low_reversal h = sym (matcher-audited n_day_low_reversal refl) ∙ h
  matcher-passed theme_first_board_relay h = sym (matcher-audited theme_first_board_relay refl) ∙ h
  matcher-passed consecutive_limit_up_relay h =
      sym (matcher-audited consecutive_limit_up_relay refl) ∙ h
  matcher-passed broken_board_recovery h = sym (matcher-audited broken_board_recovery refl) ∙ h
