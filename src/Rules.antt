-- ===== src/Rules.antt =====
-- python-back/app/modules/strategy_center/builtins.py: the daily rules of the builtin strategies. Facts
-- and thresholds are millionths. A stock's facts, and the sections of a rule, are dicts: that is what
-- the callers build and check. The score, which only ranks what matched, is left out.
pub mod Checks
pub mod Matchers
pub mod Evaluate
pub mod Merge
pub mod Defaults
use stock_center.Base.{
  ℕ, zero, suc, ◌+◌, Bool, true, false, not, Option, none, some, List, [], ◌∷◌, if◌then◌else◌, ◌&&◌,
  ◌||◌, String, str_eq,
}
use stock_center.Base.Int.{ℤ, pos, negsuc, leb_ℤ, ltb_ℤ}
use stock_center.Base.Json.{Value, str, obj, Fields, get, get_or_null, set_field}
use stock_center.Scheduler.Payload.{to_float}
use stock_center.Paper.{Python, to_int}

pub data Implementation : Type 0 where
  trend_breakout bullish_alignment ma_golden_cross volume_price_surge : Implementation
  high_turnover_surge low_volatility_leader pullback_ma20_bounce n_day_low_reversal : Implementation
  theme_first_board_relay consecutive_limit_up_relay broken_board_recovery : Implementation

-- The facts of one stock on one date.
pub record Context : Type 0 where
  pub stock_code : String
  pub stock : Fields
  pub current : Fields
  pub previous : Fields
  pub history : List Fields
  pub emotion : Fields
  pub limit_event : Fields
  pub limit_evidence : Fields
  pub concept_context : List Fields

-- The sections of a resolved rule.
pub record Rule : Type 0 where
  pub universe : Fields
  pub market_gate : Fields
  pub signal : Fields
  pub entry_confirmation : Fields

pub record Reason : Type 0 where
  pub code : String
  pub passed : Bool

-- What a matcher gives, without its score.
pub record Match : Type 0 where
  pub reasons : List Reason
  pub matched : Bool

abbrev pub reason : String → Bool → Reason
reason code passed = record { code = code; passed = passed }

-- _missing
abbrev pub missing : String → Match
missing code = record { matched = false; reasons = reason code false ∷ [] }

unfoldable pub or_missing : String → Option Match → Match
or_missing code none = missing code
or_missing code (some m) = m

-- The next fact is looked for where this one is there.
infixl 5 ◌>>=◌
unfoldable pub ◌>>=◌ : Option ℤ → (ℤ → Option Match) → Option Match
none >>= f = none
some z >>= f = f z

-- `str(value or "")` of a value that is a text or missing.
abbrev pub text_of : Value → String
text_of (str s) = s
text_of _ = ""

abbrev pub or_default : ℤ → Option ℤ → ℤ
or_default fallback none = fallback
or_default fallback (some z) = z

-- low <= high
abbrev pub at_most : ℤ → ℤ → Bool
at_most = leb_ℤ

abbrev pub below : ℤ → ℤ → Bool
below = ltb_ℤ

abbrev pub larger : ℤ → Option ℤ → ℤ
larger a none = a
larger a (some b) = if at_most a b then b else a

abbrev pub lesser : ℤ → Option ℤ → ℤ
lesser a none = a
lesser a (some b) = if at_most a b then a else b

abbrev pub joined_by : (ℤ → Option ℤ → ℤ) → Option ℤ → Option ℤ → Option ℤ
joined_by pick none best = best
joined_by pick (some a) best = some (pick a best)

module _ (py : Python) where
  -- _num and _int
  unfoldable pub num : Fields → String → Option ℤ
  unfolding to_float get_or_null
  num values key = to_float py.float_text (get_or_null key values)

  unfoldable pub int_at : Fields → String → Option ℤ
  unfolding to_int get_or_null
  int_at values key = to_int py (get_or_null key values)

  -- _signal_number
  unfoldable pub signal_number : Rule → String → ℤ → ℤ
  unfolding num
  signal_number rule key fallback = or_default fallback (num rule.signal key)

  -- _max_num and _min_num
  unfoldable pub max_num : List Fields → String → Option ℤ
  unfolding num
  max_num [] key = none
  max_num (row ∷ rows) key = joined_by larger (num row key) (max_num rows key)

  unfoldable pub min_num : List Fields → String → Option ℤ
  unfolding num
  min_num [] key = none
  min_num (row ∷ rows) key = joined_by lesser (num row key) (min_num rows key)

  -- _best_heat_rank
  unfoldable pub best_heat_rank : List Fields → Option ℤ
  unfolding int_at
  best_heat_rank [] = none
  best_heat_rank (c ∷ cs) = joined_by lesser (int_at c "heat_rank") (best_heat_rank cs)

-- _deep_merge: dicts are merged key by key, and any other value takes the place of the old one.
unfoldable pub deep_merge : Fields → Fields → Fields
unfolding get set_field
deep_merge base Fields.end = base
deep_merge base (Fields.field k (obj gs) rest) =
    let merged : Value = elim (get k base) [
      | some (obj fs) ↦ obj (deep_merge fs gs)
      | _ ↦ obj gs
    ] in
    deep_merge (set_field k merged base) rest
deep_merge base (Fields.field k v rest) = deep_merge (set_field k v base) rest
