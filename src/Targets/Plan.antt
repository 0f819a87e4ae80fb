-- ===== src/Targets/Plan.antt =====
-- python-back/app/modules/realtime_market/service.py: which targets a round of quotes and a round of minute
-- bars ask for, and how many requests the quotes take. Each quotient is rounded up.
use stock_center.Base.{
  ℕ, zero, suc, ◌+◌, ◌-◌, ◌*◌, ◌/◌, ◌%◌, Bool, true, false, Option, none, some, List, [], ◌∷◌, ◌++◌,
  ◌==◌, if◌then◌else◌, length, max, select, take, drop,
}
use stock_center.StockPool.{hot, warm, guaranteed, rotating}
use stock_center.RateLimit.Realtime.{RealtimeRateBudget, safe_limit}
use stock_center.Targets.{Target}

-- What the code reads of RealtimeSettings.
pub record RealtimeSettings : Type 0 where
  pub quote_batch_size : ℕ
  pub decision_target_limit : ℕ
  pub decision_quote_interval_seconds : ℕ
  pub minute_guaranteed_target_count : ℕ
  pub minute_registered_target_limit : ℕ

abbrev pub is_hot : Target → Bool
is_hot t = elim t.quote_lane [ hot ↦ true | _ ↦ false ]

abbrev pub is_warm : Target → Bool
is_warm t = elim t.quote_lane [ warm ↦ true | _ ↦ false ]

abbrev pub is_guaranteed : Target → Bool
is_guaranteed t = elim t.minute_lane [ guaranteed ↦ true | _ ↦ false ]

abbrev pub is_rotating : Target → Bool
is_rotating t = elim t.minute_lane [ rotating ↦ true | _ ↦ false ]

-- _build_decision_targets of the merged targets: the hot ones and the warm ones of a round.
unfoldable pub build_decision_targets : RealtimeSettings → List Target → List Target × List Target
unfolding select take drop
build_decision_targets s targets =
    let hot_candidates = select is_hot targets in
    (
      take s.decision_target_limit hot_candidates,
      drop s.decision_target_limit hot_candidates ++ select is_warm targets,
    )

-- `math.ceil(a / b)` for a positive b
abbrev pub ceil_div : ℕ → ℕ → ℕ
ceil_div a b = (a + (b - 1)) / b

abbrev pub on_demand_quote_request_reserve : ℕ
on_demand_quote_request_reserve = 5

abbrev pub hot_requests : RealtimeSettings → ℕ
hot_requests s = ceil_div s.decision_target_limit (max 1 s.quote_batch_size)

abbrev pub rounds_per_minute : RealtimeSettings → ℕ
rounds_per_minute s = ceil_div 60 (max 1 s.decision_quote_interval_seconds)

-- The budget is that of `quote_symbols`.
unfoldable pub remaining_requests : RealtimeRateBudget → RealtimeSettings → ℕ
remaining_requests b s =
    safe_limit b - (hot_requests s * rounds_per_minute s) - 1 - on_demand_quote_request_reserve

unfoldable pub warm_quote_symbol_capacity : Option RealtimeRateBudget → RealtimeSettings → ℕ
unfolding remaining_requests
warm_quote_symbol_capacity none s = 0
warm_quote_symbol_capacity (some b) s = remaining_requests b s * s.quote_batch_size

-- The targets that a round of _refresh_decision_quotes asks for.
unfoldable pub round_targets :
    Option RealtimeRateBudget → RealtimeSettings → Bool → List Target → List Target
unfolding build_decision_targets warm_quote_symbol_capacity
round_targets budget s include_warm targets =
    let (hot_ones, warm_ones) = build_decision_targets s targets in
    let warm_capacity = if include_warm then warm_quote_symbol_capacity budget s else 0 in
    hot_ones ++ take warm_capacity warm_ones

-- The requests of _fetch_quote_codes for as many codes, one for each batch; each round of the loop
-- takes a batch of codes off. No more rounds are needed than there are codes.
unfoldable pub batches : ℕ → ℕ → ℕ → ℕ
batches zero size codes = 0
batches (suc fuel) size codes =
    let rest = batches fuel size (codes - size) in if codes == 0 then 0 else suc rest

unfoldable pub request_count : Option RealtimeRateBudget → RealtimeSettings → Bool → List Target → ℕ
unfolding round_targets batches
request_count budget s include_warm targets =
    let codes = length (round_targets budget s include_warm targets) in
    batches codes s.quote_batch_size codes

pub record MinutePlan : Type 0 where
  pub registered : List Target
  pub selected : List Target
  pub guaranteed_selected_count : ℕ
  pub guaranteed_overflow_count : ℕ
  pub rotating_selected_count : ℕ
  pub unregistered_count : ℕ
  -- `_rotation_cursor` afterwards
  pub rotation_cursor : ℕ

-- `(overflow[offset:] + overflow[:offset])[:slots]`, where the offset is the cursor's place in a list
-- that is not empty.
unfoldable pub rotated : ℕ → ℕ → List Target → List Target
unfolding take drop
rotated cursor slots [] = []
rotated cursor slots (t ∷ ts) =
    let offset = cursor % length (t ∷ ts) in
    take slots (drop offset (t ∷ ts) ++ take offset (t ∷ ts))

abbrev pub registered_targets : RealtimeSettings → List Target → List Target
registered_targets s targets =
    take s.minute_registered_target_limit
      (select is_guaranteed targets ++ select is_rotating targets)

-- The registered targets that are not kept in every round.
abbrev pub overflow_of : RealtimeSettings → List Target → List Target
overflow_of s targets =
    let registered = registered_targets s targets in
    drop s.minute_guaranteed_target_count (select is_guaranteed registered)
    ++ select is_rotating registered

-- _minute_target_plan of the merged targets.
unfoldable pub minute_target_plan : RealtimeSettings → ℕ → List Target → MinutePlan
unfolding select take drop rotated
minute_target_plan s cursor targets =
    let registered = registered_targets s targets in
    let selected_guaranteed =
      take s.minute_guaranteed_target_count (select is_guaranteed registered) in
    let slots = s.minute_guaranteed_target_count - length selected_guaranteed in
    let rotating_selected = rotated cursor slots (overflow_of s targets) in
    record {
      registered = registered;
      selected = selected_guaranteed ++ rotating_selected;
      guaranteed_selected_count = length selected_guaranteed;
      guaranteed_overflow_count =
          length (select is_guaranteed targets) - length selected_guaranteed;
      rotating_selected_count = length rotating_selected;
      unregistered_count =
          length (select is_guaranteed targets ++ select is_rotating targets) - length registered;
      rotation_cursor = cursor + length rotating_selected;
    }
