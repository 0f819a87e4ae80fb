-- ===== src/Backtest/Causal/Walk.antt =====
-- The loop over the closes of a simulated trade: on which days it can stop, and what it reads.
use stock_center.Base.{
  ℕ, zero, suc, ◌+◌, ◌≡◌, ◌≤◌, ◌<◌, sym, ap, ◌∙◌, Option, none, some, max, arith, Option-cases, inl,
  inr,
}
use stock_center.Base.Fallible.{none≢some, some-injective}
use stock_center.Backtest.{ExitReason, ExitPlan, exit_reason, exit_walk}

module _ (plan : ExitPlan) (entry : ℕ) where
  -- The confirming day is one of the loop's.
  pub exit_walk-bounds :
      (closes : ℕ → Option ℕ) (left held highest : ℕ) {w : ℕ × ExitReason}
      → exit_walk plan entry closes left held highest ≡ some w
      → (held ≤ w.0) × (w.0 < held + left)
  unfolding exit_walk
  exit_walk-bounds closes zero held highest e = absurd (none≢some e)
  exit_walk-bounds closes (suc left) held highest {w} e = elim (Option-cases (closes held)) [
    | inl c ↦
        let (a, b) = exit_walk-bounds closes left (suc held) highest (rw (exit_walk, c) at e) in
        (omega (arith, a), omega (arith, b))
    | inr (close, c) ↦ elim (Option-cases (exit_reason plan entry (max highest close) close held)) [
      | inl r ↦
          let (a, b) =
            exit_walk-bounds closes left (suc held) (max highest close)
              (rw (exit_walk, c, r) at e) in
          (omega (arith, a), omega (arith, b))
      | inr (reason, r) ↦
          let same : (held, reason) ≡ w = some-injective (rw (exit_walk, c, r) at e) in
          let at : held ≡ w.0 = ap (λ w. w.0) same in (omega (arith, at), omega (arith, at))
    ]
  ]

  -- It depends on the closes up to it alone.
  pub exit_walk-causal :
      (closes closes' : ℕ → Option ℕ) (left held highest : ℕ) {w : ℕ × ExitReason}
      → ((k : ℕ) → k ≤ w.0 → closes k ≡ closes' k)
      → exit_walk plan entry closes left held highest ≡ some w
      → exit_walk plan entry closes' left held highest ≡ some w
  unfolding exit_walk
  exit_walk-causal closes closes' zero held highest same e = absurd (none≢some e)
  exit_walk-causal closes closes' (suc left) held highest {w} same e =
      let here : closes held ≡ closes' held =
        same held (exit_walk-bounds closes (suc left) held highest e).0 in
      elim (Option-cases (closes held)) [
        | inl c ↦
            let c' : closes' held ≡ none = sym here ∙ c in
            rw (exit_walk, c')
              (exit_walk-causal closes closes' left (suc held) highest same
                (rw (exit_walk, c) at e))
        | inr (close, c) ↦
            let c' : closes' held ≡ some close = sym here ∙ c in
            rw (exit_walk, c')
              (elim (Option-cases (exit_reason plan entry (max highest close) close held)) [
                | inl r ↦ rw (r) (
                    exit_walk-causal closes closes' left (suc held) (max highest close) same
                      (rw (exit_walk, c, r) at e))
                | inr (reason, r) ↦ rw (r) (rw (exit_walk, c, r) at e)
              ])
      ]
