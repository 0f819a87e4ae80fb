-- ===== src/Targets/Merge/Lanes.antt =====
-- The best of the lanes of some memberships.
use stock_center.Base.{
  ℕ, ◌≤◌, ◌≡◌, ◌⊎◌, refl, true, List, [], ◌∷◌, All, if-cases, inl, inr, ◌||◌, any, arith, ltb, ◌==◌,
}
use stock_center.StockPool.{QuoteLane, MinuteLane}
use stock_center.Targets.{Membership, quote_lane_rank, minute_lane_rank, best_quote, best_minute}

-- The least of a first rank and of the ranks of some memberships.
abbrev pub IsLeast : (Membership → ℕ) → ℕ → List Membership → ℕ → Type 0
IsLeast rank start ms best =
    (best ≤ start)
    × All (λ m. best ≤ rank m) ms
    × ((start == best || any (λ m. rank m == best) ms) ≡ true)

IsLeast-step :
    (rank : Membership → ℕ) (start next : ℕ) (m : Membership) (ms : List Membership) (best : ℕ)
    → next ≤ start
    → next ≤ rank m
    → ((next ≡ start) ⊎ (next ≡ rank m))
    → IsLeast rank next ms best
    → IsLeast rank start (m ∷ ms) best
unfolding any
IsLeast-step rank start next m ms best le le' one (low, all, held) =
    (omega (arith, low, le), (omega (arith, low, le'), all), ground (arith, one, held))

unfoldable pub quote_rank : Membership → ℕ
quote_rank m = quote_lane_rank m.quote_lane

unfoldable pub minute_rank : Membership → ℕ
minute_rank m = minute_lane_rank m.minute_lane

pub best_quote-IsLeast :
    (lane : QuoteLane) (ms : List Membership)
    → IsLeast quote_rank (quote_lane_rank lane) ms (quote_lane_rank (best_quote lane ms))
unfolding best_quote quote_rank any
best_quote-IsLeast lane [] = (omega arith, tt, ground arith)
best_quote-IsLeast lane (m ∷ ms) =
    if-cases {A = QuoteLane}
      (λ l. IsLeast quote_rank (quote_lane_rank lane) (m ∷ ms) (quote_lane_rank (best_quote l ms)))
      (ltb (quote_lane_rank m.quote_lane) (quote_lane_rank lane))
      (λ e.
        IsLeast-step quote_rank (quote_lane_rank lane) (quote_lane_rank m.quote_lane) m ms
          (quote_lane_rank (best_quote m.quote_lane ms)) (ground (arith, e)) (omega arith)
          (inr refl) (best_quote-IsLeast m.quote_lane ms))
      (λ e.
        IsLeast-step quote_rank (quote_lane_rank lane) (quote_lane_rank lane) m ms
          (quote_lane_rank (best_quote lane ms)) (omega arith) (ground (arith, e)) (inl refl)
          (best_quote-IsLeast lane ms))

pub best_minute-IsLeast :
    (lane : MinuteLane) (ms : List Membership)
    → IsLeast minute_rank (minute_lane_rank lane) ms (minute_lane_rank (best_minute lane ms))
unfolding best_minute minute_rank any
best_minute-IsLeast lane [] = (omega arith, tt, ground arith)
best_minute-IsLeast lane (m ∷ ms) =
    if-cases {A = MinuteLane}
      (λ l.
        IsLeast minute_rank (minute_lane_rank lane) (m ∷ ms) (minute_lane_rank (best_minute l ms)))
      (ltb (minute_lane_rank m.minute_lane) (minute_lane_rank lane))
      (λ e.
        IsLeast-step minute_rank (minute_lane_rank lane) (minute_lane_rank m.minute_lane) m ms
          (minute_lane_rank (best_minute m.minute_lane ms)) (ground (arith, e)) (omega arith)
          (inr refl) (best_minute-IsLeast m.minute_lane ms))
      (λ e.
        IsLeast-step minute_rank (minute_lane_rank lane) (minute_lane_rank lane) m ms
          (minute_lane_rank (best_minute lane ms)) (omega arith) (ground (arith, e)) (inl refl)
          (best_minute-IsLeast lane ms))
