-- ===== src/Targets.antt =====
-- python-back/app/modules/realtime_market/service.py: which stocks the realtime runtime watches, in what
-- order, and which of them a round asks for. Names are left out. The score of a stock's signal, a
-- rounded logarithm of its quote, is an argument.
pub mod Merge
pub mod Plan
pub mod Rotation
pub mod Minutes
pub mod Requests
pub mod Decision
pub mod Market
use stock_center.Base.{
  ℕ, ◌+◌, Bool, true, false, not, Option, none, some, List, [], ◌∷◌, ◌++◌, ltb, leb, ◌==◌,
  if◌then◌else◌, ◌&&◌, ◌||◌, select, take, map,
}
use stock_center.Base.Int.{ℤ, pos_part, neg_part, leb_ℤ}
use stock_center.Base.Text.{Text, codes, text_eq, text_leb}
use stock_center.StockPool.{
  QuoteLane, hot, warm, MinuteLane, guaranteed, rotating, PolicyUpdate, is_one_of,
}
use stock_center.Base.Fallible.{◌>>=◌}

-- A pool of the runtime's reference, with the codes of its members.
pub record Pool : Type 0 where
  pub pool_code : Text
  pub realtime_policy : PolicyUpdate
  pub stock_codes : List Text

pub data Kind : Type 0 where
  pool : Text → Kind
  page_watch strong : Kind

pub record Membership : Type 0 where
  pub kind : Kind
  pub priority : ℕ
  pub quote_lane : QuoteLane
  pub minute_lane : MinuteLane

pub record Target : Type 0 where
  pub stock_code : Text
  pub reason : Kind
  pub priority : ℕ
  pub signal_score : ℤ
  pub quote_lane : QuoteLane
  pub minute_lane : MinuteLane
  pub memberships : List Membership

abbrev pub quote_lane_rank : QuoteLane → ℕ
quote_lane_rank hot = 0
quote_lane_rank warm = 1
quote_lane_rank QuoteLane.off = 2

abbrev pub minute_lane_rank : MinuteLane → ℕ
minute_lane_rank guaranteed = 0
minute_lane_rank rotating = 1
minute_lane_rank MinuteLane.off = 2

-- A dict of lists, in the order in which its keys came in.
abbrev pub Grouped : Type 0
Grouped = List (Text × List Membership)

-- `by_code.setdefault(code, []).append(m)`
unfoldable pub add_to : Text → Membership → Grouped → Grouped
add_to code m [] = (code, m ∷ []) ∷ []
add_to code m ((c, ms) ∷ rest) =
    let later = add_to code m rest in
    if text_eq c code then (c, ms ++ m ∷ []) ∷ rest else (c, ms) ∷ later

-- Each active code of a list becomes a member.
unfoldable pub add_active : List Text → Membership → List Text → Grouped → Grouped
unfolding add_to is_one_of
add_active active m [] d = d
add_active active m (code ∷ codes) d =
    add_active active m codes (if is_one_of active code then add_to code m d else d)

abbrev pub both_off : PolicyUpdate → Bool
both_off policy =
    (quote_lane_rank policy.quote_lane == 2) && (minute_lane_rank policy.minute_lane == 2)

abbrev pub in_pool : Pool → Membership
in_pool p = record {
  kind = pool p.pool_code;
  priority = p.realtime_policy.priority;
  quote_lane = p.realtime_policy.quote_lane;
  minute_lane = p.realtime_policy.minute_lane;
}

abbrev pub watched : Membership
watched = record { kind = page_watch; priority = 900; quote_lane = hot; minute_lane = guaranteed }

abbrev pub moving : Membership
moving = record { kind = strong; priority = 1000; quote_lane = warm; minute_lane = rotating }

abbrev pub takes_part : Pool → Bool
takes_part p = p.realtime_policy.is_enabled && not (both_off p.realtime_policy)

unfoldable pub add_pools : List Text → List Pool → Grouped → Grouped
unfolding add_active
add_pools active [] d = d
add_pools active (p ∷ ps) d =
    add_pools active ps (if takes_part p then add_active active (in_pool p) p.stock_codes d else d)

-- `sorted` by a key, where `before a b` says that the key of `a` is not behind that of `b`; equal
-- keys keep their order.
unfoldable pub insert {ℓ} : {A : Type ℓ} → (A → A → Bool) → A → List A → List A
insert before x [] = x ∷ []
insert before x (y ∷ ys) =
    let rest = insert before x ys in if before x y then x ∷ y ∷ ys else y ∷ rest

unfoldable pub sorted {ℓ} : {A : Type ℓ} → (A → A → Bool) → List A → List A
unfolding insert
sorted before [] = []
sorted before (x ∷ xs) = insert before x (sorted before xs)

-- Of a quote of the market's last round.
pub record Quote : Type 0 where
  pub stock_code : Text
  pub change_pct : ℤ
  pub amount_yuan : ℤ

abbrev pub magnitude : ℤ → ℕ
magnitude z = pos_part z + neg_part z

-- `reverse=True` keeps the order of equal keys too.
abbrev pub stronger : Quote → Quote → Bool
stronger a b =
    ltb (magnitude b.change_pct) (magnitude a.change_pct)
    || (magnitude a.change_pct == magnitude b.change_pct && leb_ℤ b.amount_yuan a.amount_yuan)

unfoldable pub strong_codes : List Text → ℕ → List Quote → List Text
unfolding sorted take select is_one_of
strong_codes active limit quotes =
    map (λ q. q.stock_code)
      (take limit (sorted stronger (select (λ q. is_one_of active q.stock_code) quotes)))

-- `item.get("pool_code") or item["kind"]`
abbrev pub name_of : Kind → Text
name_of (pool []) = codes "pool"
name_of (pool (c ∷ code)) = c ∷ code
name_of page_watch = codes "page_watch"
name_of strong = codes "strong"

unfoldable pub member_before : Membership → Membership → Bool
unfolding text_leb
member_before a b =
    ltb a.priority b.priority
    || (a.priority == b.priority
        && (ltb (quote_lane_rank a.quote_lane) (quote_lane_rank b.quote_lane)
            || (quote_lane_rank a.quote_lane == quote_lane_rank b.quote_lane
                && text_leb (name_of a.kind) (name_of b.kind))))

unfoldable pub best_quote : QuoteLane → List Membership → QuoteLane
best_quote lane [] = lane
best_quote lane (m ∷ ms) =
    best_quote
      (if ltb (quote_lane_rank m.quote_lane) (quote_lane_rank lane) then m.quote_lane else lane) ms

unfoldable pub best_minute : MinuteLane → List Membership → MinuteLane
best_minute lane [] = lane
best_minute lane (m ∷ ms) =
    best_minute
      (if ltb (minute_lane_rank m.minute_lane) (minute_lane_rank lane) then m.minute_lane else lane)
      ms

-- What the runtime holds: the active codes, the pools, the codes of the pages that are open, and the
-- quotes of the market's last round.
pub record Reference : Type 0 where
  pub active_codes : List Text
  pub pools : List Pool
  pub page_targets : List Text
  pub market_round_quotes : List Quote

-- `by_code`, where the page targets that are past their time are gone already.
unfoldable pub by_code : ℕ → Reference → Grouped
unfolding add_pools add_active strong_codes
by_code strong_candidate_limit r =
    add_active r.active_codes moving
      (strong_codes r.active_codes strong_candidate_limit r.market_round_quotes)
      (add_active r.active_codes watched r.page_targets (add_pools r.active_codes r.pools []))

module _ (signal_score : Text → ℤ) where
  unfoldable pub target_before : Target → Target → Bool
  unfolding text_leb
  target_before a b =
      ltb a.priority b.priority
      || (a.priority == b.priority
          && (ltb (quote_lane_rank a.quote_lane) (quote_lane_rank b.quote_lane)
              || (quote_lane_rank a.quote_lane == quote_lane_rank b.quote_lane
                  && (not (leb_ℤ a.signal_score b.signal_score)
                      || (leb_ℤ b.signal_score a.signal_score
                          && text_leb a.stock_code b.stock_code)))))

  -- A target of sorted memberships; none where the list has no first member, which raises.
  unfoldable pub merged : Text → List Membership → Option Target
  unfolding best_quote best_minute
  merged code [] = none
  merged code (primary ∷ others) = some (record {
    stock_code = code;
    reason = primary.kind;
    priority = primary.priority;
    signal_score = signal_score code;
    quote_lane = best_quote primary.quote_lane others;
    minute_lane = best_minute primary.minute_lane others;
    memberships = primary ∷ others;
  })

  unfoldable pub all_merged : Grouped → Option (List Target)
  unfolding merged sorted member_before
  all_merged [] = some []
  all_merged ((code, ms) ∷ rest) =
      merged code (sorted member_before ms) >>= λ t. all_merged rest >>= λ ts. some (t ∷ ts)

  unfoldable pub realtime_targets : ℕ → Reference → Option (List Target)
  unfolding all_merged by_code sorted target_before
  realtime_targets strong_candidate_limit r =
      all_merged (by_code strong_candidate_limit r) >>= λ ts. some (sorted target_before ts)
