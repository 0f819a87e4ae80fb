-- ===== src/Tests/Verdicts.antt =====
-- Examples for the daily rules.
use stock_center.Base.{◌≡◌, refl, true, []}
use stock_center.Base.Int.{pos}
use stock_center.Base.Json.{int, str, arr, nil, cons, Fields, end, field}
use stock_center.Rules.{bullish_alignment, Context, Rule}
use stock_center.Rules.Evaluate.{matcher}
use stock_center.Rules.Matchers.Audit.{all_passed, matcher-audited}
use stock_center.Rules.{int_at}
use stock_center.Rules.Checks.{check_universe}
use stock_center.Backtest.Fast.{passes_fast_universe_bounds, fast_complete}
use stock_center.Tests.Papers.{plain}

abbrev facts : Fields
facts = field "close_price" (int (pos 12)) (
    field "ma5" (int (pos 11)) (
      field "ma10" (int (pos 10)) (
        field "ma20" (int (pos 9)) (
          field "ma60" (int (pos 8)) (
            field "volume_ratio" (int (pos 2)) (
              field "change_pct" (int (pos 3)) (
                field "amount_yuan" (int (pos 100)) (field "history_days" (int (pos 80)) end))))))))

abbrev context : Context
context = record {
  stock_code = "600000.SH";
  stock = field "exchange" (str "SH") (field "status" (str "active") end);
  current = facts;
  previous = end;
  history = [];
  emotion = end;
  limit_event = end;
  limit_evidence = end;
  concept_context = [];
}

abbrev rule : Rule
rule = record {
  universe =
      field "markets" (arr (cons (str "SH") nil)) (field "minimum_amount_yuan" (int (pos 50)) end);
  market_gate = end;
  signal = end;
  entry_confirmation = end;
}

matcher-audited_example :
    (matcher plain context rule bullish_alignment).matched
    ≡ all_passed (matcher plain context rule bullish_alignment).reasons
matcher-audited_example = matcher-audited plain context rule bullish_alignment refl

fast_complete_example : passes_fast_universe_bounds plain context.current rule.universe ≡ true
unfolding check_universe int_at
fast_complete_example = fast_complete plain context rule (λ e. cc) refl
