-- ===== src/Targets/Merge.antt =====
-- What the merged targets are: which stocks, for which reasons, and in what order.
pub mod Grouping
pub mod Once
pub mod Lanes
use stock_center.Base.{
  ℕ, zero, suc, ◌+◌, ◌≤◌, ◌≡◌, ◌⊎◌, refl, sym, ap, ◌∙◌, Bool, true, false, not, Option, none, some,
  List, [], ◌∷◌, ◌++◌, All, All-append, All-map_of, Bool-cases, if-cases, inl, inr, if◌then◌else◌,
  ◌&&◌, ◌||◌, any, select, arith, ltb, leb, ◌==◌, get_elem?,
}
use stock_center.Base.Int.{ℤ}
use stock_center.Base.Fallible.{◌>>=◌}
use stock_center.Base.Slices.{Listed}
use stock_center.Base.Text.{Text, text_eq, text_eq_sound, text_eq_refl}
use stock_center.StockPool.{QuoteLane, hot, warm, MinuteLane, guaranteed, rotating, is_one_of}
use stock_center.Targets.{
  Pool, Membership, Target, Grouped, Reference, quote_lane_rank, minute_lane_rank, add_to,
  add_active, in_pool, watched, moving, takes_part, add_pools, insert, sorted, strong_codes,
  member_before, best_quote, best_minute, target_before, merged, all_merged, by_code,
  realtime_targets,
}
use stock_center.StockPool.Rows.{Distinct, none_of}
use stock_center.Targets.Merge.Lanes.{
  quote_rank, minute_rank, best_quote-IsLeast, best_minute-IsLeast,
}
use stock_center.Targets.Merge.Once.{
  same_key, has_not, by_code-Distinct, sorted-Distinct, text_eq_sym,
}
use stock_center.Targets.Merge.Grouping.{
  InOrder, All-sorted, sorted-InOrder, NonEmpty, Entry, has, add_active-Entry, add_pools-Entry,
  NonEmpty-sorted, any-sorted, own_codes, All-Listed, has-add_active, has-add_pools,
}

abbrev pub same_stock : Target → Target → Bool
same_stock a b = text_eq b.stock_code a.stock_code

-- Why a stock has a membership.
pub data Because (limit : ℕ) (r : Reference) (code : Text) (m : Membership) : Type 0 where
  of_pool :
      (p : Pool)
      → Listed p r.pools
      → takes_part p ≡ true
      → is_one_of p.stock_codes code ≡ true
      → m ≡ in_pool p
      → Because limit r code m
  of_page : is_one_of r.page_targets code ≡ true → m ≡ watched → Because limit r code m
  of_market :
      is_one_of (strong_codes r.active_codes limit r.market_round_quotes) code ≡ true
      → m ≡ moving
      → Because limit r code m

-- A target is an active stock. Each of its memberships has a cause, its priority is the least of
-- theirs, and each of its lanes is the best of theirs.
pub record Explained (limit : ℕ) (r : Reference) (t : Target) : Type 0 where
  pub active : is_one_of r.active_codes t.stock_code ≡ true
  pub because : All (Because limit r t.stock_code) t.memberships
  pub urgent : All (λ m. t.priority ≤ m.priority) t.memberships
  pub quote : All (λ m. quote_lane_rank t.quote_lane ≤ quote_lane_rank m.quote_lane) t.memberships
  pub quote_held :
      any (λ m. quote_lane_rank m.quote_lane == quote_lane_rank t.quote_lane) t.memberships ≡ true
  pub minute :
      All (λ m. minute_lane_rank t.minute_lane ≤ minute_lane_rank m.minute_lane) t.memberships
  pub minute_held :
      any (λ m. minute_lane_rank m.minute_lane == minute_lane_rank t.minute_lane) t.memberships
      ≡ true

member_first : (a b : Membership) → member_before a b ≡ true → a.priority ≤ b.priority
unfolding member_before
member_first a b h = ground (arith, h)

member_second : (a b : Membership) → member_before a b ≡ false → b.priority ≤ a.priority
unfolding member_before
member_second a b h = ground (arith, h)

module _ (signal_score : Text → ℤ) where
  target_first : (a b : Target) → target_before signal_score a b ≡ true → a.priority ≤ b.priority
  unfolding target_before
  target_first a b h = ground (arith, h)

  target_second : (a b : Target) → target_before signal_score a b ≡ false → b.priority ≤ a.priority
  unfolding target_before
  target_second a b h = ground (arith, h)

  module _ (limit : ℕ) (r : Reference) where
    abbrev Fact : Text → Membership → Type 0
    Fact code m = (is_one_of r.active_codes code ≡ true) × Because limit r code m

    merged-Explained :
        (code : Text) (ms : List Membership)
        → InOrder (λ m. m.priority) ms
        → All (Fact code) ms
        → NonEmpty ms
        → (t : Target) × (merged signal_score code ms ≡ some t)
          × Explained limit r t
          × (t.stock_code ≡ code)
    unfolding merged any quote_rank minute_rank
    merged-Explained code [] order facts filled = absurd filled
    merged-Explained code (m ∷ ms) order facts filled =
        let (quote_le, quote_all, quote_held) = best_quote-IsLeast m.quote_lane ms in
        let (minute_le, minute_all, minute_held) = best_minute-IsLeast m.minute_lane ms in
        (
          _,
          refl,
          record {
            active = facts.0.0;
            because = All-map_of (Fact code) (Because limit r code) (λ x k. k.1) (m ∷ ms) facts;
            urgent = (omega arith, order.0);
            quote = (quote_le, quote_all);
            quote_held = quote_held;
            minute = (minute_le, minute_all);
            minute_held = minute_held;
          },
          refl,
        )

    -- What is merged of grouped memberships: a target for each stock, in the same order.
    all_merged-Explained :
        (d : Grouped)
        → All (Entry Fact) d
        → (ts : List Target) × (all_merged signal_score d ≡ some ts)
          × All (Explained limit r) ts
          × ((code : Text) → any (λ t. text_eq t.stock_code code) ts ≡ has code d)
          × (Distinct same_key d → Distinct same_stock ts)
    unfolding all_merged any
    all_merged-Explained [] h = ([], refl, tt, (λ code. refl), λ d. tt)
    all_merged-Explained ((c, ms) ∷ d) (h, hs) =
        let sorted_ms = sorted member_before ms in
        let (t, e, explained, same) =
          merged-Explained c sorted_ms
            (sorted-InOrder member_before (λ m. m.priority) member_first member_second ms)
            (All-sorted member_before (Fact c) ms h.0) (NonEmpty-sorted ms h.1) in
        let (ts, es, all, keys, once) = all_merged-Explained d hs in
        (
          t ∷ ts,
          rw (e) (rw (es) refl),
          (explained, all),
          (λ code. rw (same) (rw (keys code) refl)),
          λ apart. (
            rw (same) (none_of (λ u. text_eq u.stock_code c) ts (keys c ∙ has_not c d apart.0)),
            once apart.1,
          ),
        )

    Fact-of_pools :
        (ps : List Pool)
        → All (λ p. Listed p r.pools) ps
        → All
            (λ p.
              takes_part p ≡ true
              → All (λ c. is_one_of r.active_codes c ≡ true → Fact c (in_pool p)) p.stock_codes)
            ps
    Fact-of_pools [] h = tt
    Fact-of_pools (p ∷ ps) h = (
      λ part.
          All-map_of (λ c. is_one_of p.stock_codes c ≡ true)
            (λ c. is_one_of r.active_codes c ≡ true → Fact c (in_pool p))
            (λ c k active. (active, of_pool p h.0 part k refl)) p.stock_codes
            (own_codes p.stock_codes),
      Fact-of_pools ps h.1,
    )

    by_code-Entry : All (Entry Fact) (by_code limit r)
    unfolding by_code
    by_code-Entry =
        let quotes = strong_codes r.active_codes limit r.market_round_quotes in
        add_active-Entry Fact r.active_codes moving quotes _
          (All-map_of (λ c. is_one_of quotes c ≡ true)
            (λ c. is_one_of r.active_codes c ≡ true → Fact c moving)
            (λ c k active. (active, of_market k refl)) quotes (own_codes quotes))
          (add_active-Entry Fact r.active_codes watched r.page_targets _
            (All-map_of (λ c. is_one_of r.page_targets c ≡ true)
              (λ c. is_one_of r.active_codes c ≡ true → Fact c watched)
              (λ c k active. (active, of_page k refl)) r.page_targets (own_codes r.page_targets))
            (add_pools-Entry Fact r.active_codes r.pools []
              (Fact-of_pools r.pools (All-Listed r.pools)) tt))

    has-by_code :
        (p : Pool) (code : Text)
        → Listed p r.pools
        → takes_part p ≡ true
        → is_one_of p.stock_codes code ≡ true
        → is_one_of r.active_codes code ≡ true
        → has code (by_code limit r) ≡ true
    unfolding by_code
    has-by_code p code in_pools part member active =
        let pooled = add_pools r.active_codes r.pools [] in
        let paged = add_active r.active_codes watched r.page_targets pooled in
        ground (
          arith,
          has-add_active r.active_codes moving
              (strong_codes r.active_codes limit r.market_round_quotes) code paged,
          has-add_active r.active_codes watched r.page_targets code pooled,
          has-add_pools r.active_codes r.pools p code [] in_pools part member active,
        )

    pub realtime_targets-Explained :
        (ts : List Target) × (realtime_targets signal_score limit r ≡ some ts)
        × InOrder (λ t. t.priority) ts
        × Distinct same_stock ts
        × All (Explained limit r) ts
        × ((p : Pool) (code : Text)
            → Listed p r.pools
            → takes_part p ≡ true
            → is_one_of p.stock_codes code ≡ true
            → is_one_of r.active_codes code ≡ true
            → any (λ t. text_eq t.stock_code code) ts ≡ true)
    unfolding realtime_targets
    realtime_targets-Explained =
        let (ts, e, all, keys, once) = all_merged-Explained (by_code limit r) by_code-Entry in
        let before = target_before signal_score in
        (
          sorted before ts,
          rw (e) refl,
          sorted-InOrder before (λ t. t.priority) target_first target_second ts,
          sorted-Distinct before same_stock (λ a b. text_eq_sym b.stock_code a.stock_code) ts
              (once (by_code-Distinct limit r)),
          All-sorted before (Explained limit r) ts all,
          λ p code in_pools part member active.
              any-sorted before (λ t. text_eq t.stock_code code) ts
              ∙ keys code
              ∙ has-by_code p code in_pools part member active,
        )
