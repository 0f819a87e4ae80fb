-- ===== src/Rules/Matchers/Boards.antt =====
-- builtins.py: the three matchers of stocks at their price limit.
use stock_center.Base.{Bool, true, false, Option, none, some, [], ◌∷◌, ◌&&◌, String, str_eq}
use stock_center.Base.Int.{ℤ, pos, eqb_ℤ}
use stock_center.Base.Json.{Fields, get_or_null}
use stock_center.Paper.{Python, truncated}
use stock_center.Rules.{
  ◌>>=◌, Rule, Context, Match, reason, or_missing, text_of, at_most, below, num, int_at,
  signal_number, best_heat_rank,
}

-- `str(event.get("event_type") or "") == name`
unfoldable pub event_is : String → Fields → Bool
unfolding get_or_null
event_is name event = str_eq (text_of (get_or_null "event_type" event)) name

-- A count that is known and at most, at least, or equal to another.
abbrev pub known_at_most : Option ℤ → ℤ → Bool
known_at_most none limit = false
known_at_most (some n) limit = at_most n limit

abbrev pub known_at_least : ℤ → Option ℤ → Bool
known_at_least least none = false
known_at_least least (some n) = at_most least n

abbrev pub known_equal : Option ℤ → ℤ → Bool
known_equal none m = false
known_equal (some n) m = eqb_ℤ n m

-- open_count is None or open_count > 0
abbrev pub unknown_or_positive : Option ℤ → Bool
unknown_or_positive none = true
unknown_or_positive (some n) = below (pos 0) n

-- The turnover that the rule asks for: without a minimum an unknown count passes.
abbrev pub turned_over : Option ℤ → Option ℤ → Bool
turned_over none open_count = unknown_or_positive open_count
turned_over (some minimum) open_count = known_at_least (truncated minimum) open_count

module _ (py : Python) (c : Context) (rule : Rule) where
  unfoldable pub theme_first_board_relay : Match
  unfolding event_is int_at num signal_number best_heat_rank
  theme_first_board_relay =
      let is_limit_up = event_is "limit_up" c.limit_event in
      let natural =
        is_limit_up
        && turned_over (num py rule.signal "minimum_open_count")
            (int_at py c.limit_event "open_count") in
      let first = known_equal (int_at py c.limit_evidence "board_count") (pos 1) in
      let ranked =
        known_at_most (best_heat_rank py c.concept_context)
          (truncated (signal_number py rule "max_heat_rank" (pos 20000000))) in
      record {
        matched = natural && first && ranked;
        reasons =
            reason "first_board_limit_up" is_limit_up
            ∷ reason "first_board_natural" natural
            ∷ reason "first_board_count" first
            ∷ reason "first_board_theme" ranked
            ∷ [];
      }

  unfoldable pub consecutive_limit_up_relay : Match
  unfolding event_is int_at signal_number best_heat_rank
  consecutive_limit_up_relay =
      let is_limit_up = event_is "limit_up" c.limit_event in
      let natural = is_limit_up && unknown_or_positive (int_at py c.limit_event "open_count") in
      let boards = int_at py c.limit_evidence "board_count" in
      let counted =
        known_at_least (truncated (signal_number py rule "board_count_min" (pos 2000000))) boards
        && known_at_most boards
            (truncated (signal_number py rule "board_count_max" (pos 4000000))) in
      let ranked =
        known_at_most (best_heat_rank py c.concept_context)
          (truncated (signal_number py rule "max_heat_rank" (pos 10000000))) in
      record {
        matched = natural && counted && ranked;
        reasons =
            reason "relay_limit_up" is_limit_up
            ∷ reason "relay_natural" natural
            ∷ reason "relay_board_count" counted
            ∷ reason "relay_theme" ranked
            ∷ [];
      }

  unfoldable pub broken_board_recovery : Match
  broken_board_recovery =
      let is_break = event_is "limit_break" c.limit_event in
      or_missing "broken_board_recovery_inputs" (do
        close_position ← num py c.current "close_position"
        volume_ratio ← num py c.current "volume_ratio"
        change ← num py c.current "change_pct"
        let change_ok = at_most (signal_number py rule "change_min" (pos 3000000)) change
        let close_ok =
            at_most (signal_number py rule "close_position_min" (pos 720000)) close_position
        let volume_ok =
            at_most (signal_number py rule "volume_ratio_min" (pos 1500000)) volume_ratio
        some (record {
          matched = is_break && change_ok && close_ok && volume_ok;
          reasons =
              reason "broken_board_event" is_break
              ∷ reason "broken_board_change" change_ok
              ∷ reason "broken_board_close" close_ok
              ∷ reason "broken_board_volume" volume_ok
              ∷ [];
        }))
