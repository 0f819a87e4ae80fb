-- ===== src/Llm/Context.antt =====
-- How long the context of a question is, and when it is marked as truncated.
use stock_center.Base.{
  ℕ, ◌+◌, ◌-◌, ◌≤◌, ◌<◌, ◌≡◌, ◌↔◌, true, ◌++◌, leb, length, arith, Bool-cases, inl, inr,
  length-append, take, length-take-le,
}
use stock_center.Base.Text.{Text}
use stock_center.Llm.{ending, context_json, context_truncated}

length-cut : (n : ℕ) (s : Text) → length (take n s ++ ending) ≤ n + 24
length-cut n s = omega (arith, length-append (take n s) ending, length-take-le n s)

-- With a bound of 80 characters or more, the context never has more characters than the bound. It
-- is marked as truncated exactly when its text has as many characters as the bound, and so was not
-- cut.
pub context_truncated_iff :
    (max_chars : ℕ) (text : Text)
    → 80 ≤ max_chars
    → (length (context_json max_chars text) ≤ max_chars)
      × (context_truncated max_chars text ≡ true ↔ length text ≡ max_chars)
unfolding context_truncated context_json
context_truncated_iff max_chars text large = elim (Bool-cases (leb (length text) max_chars)) [
  | inl fits ↦ rw (fits) (ground arith, ((λ e. ground arith), (λ e. ground arith)))
  | inr cut ↦
      let short : length (take (max_chars - 80) text ++ ending) < max_chars =
        omega (arith, large, length-cut (max_chars - 80) text) in
      rw (cut) (
        omega (arith, short),
        ((λ e. absurd (ground (arith, short, e))), (λ e. absurd (ground arith))),
      )
]
