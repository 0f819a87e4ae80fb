-- ===== src/Paper/Entry/Checked.antt =====
-- What an open window and ready data mean.
use stock_center.Base.{
  ℕ, ◌≡◌, ◌≤◌, List, refl, ap, ◌∙◌, true, Option, none, some, Bool-cases, inl, inr, ltb, arith,
  String,
}
use stock_center.Base.Int.{ℤ, pos}
use stock_center.Base.Text.{Text, codes, partition}
use stock_center.Base.Json.{Value, str, Fields, get_or_null}
use stock_center.Base.Fallible.{>>=-eq-some, none≢some, some-injective}
use stock_center.Paper.{Python, clock_of, int_or, quote_is_fresh, depth_is_fresh}
use stock_center.Paper.Entry.{
  before, active, after, ready, not_ready, window_at, window_of, window_state,
  confirmation_readiness,
}

-- The plan's window is a text of two clock times around a hyphen, and it is now between them.
pub record IsOpen (py : Python) (now : ℕ) (confirmation : Fields) : Type 0 where
  pub window : String
  pub behind : Text
  pub start : ℕ
  pub stop : ℕ
  pub given : get_or_null "window" confirmation ≡ str window
  pub split : (partition b'-' (codes window)).1 ≡ some behind
  pub first : py.clock_text (partition b'-' (codes window)).0 ≡ some start
  pub second : py.clock_text behind ≡ some stop
  pub begun : start ≤ clock_of now
  pub not_over : clock_of now ≤ stop

-- The quote is as young as the plan asks for, 15 seconds without a rule of its own, and the depth is at
-- most 20 seconds old.
pub record IsFresh (py : Python) (now : ℕ) (quote depth confirmation : Fields) : Type 0 where
  pub age : ℤ
  pub limit :
      int_or py (get_or_null "minimum_quote_freshness_seconds" confirmation) (pos 15) ≡ some age
  pub quote_young : quote_is_fresh py quote now age ≡ true
  pub depth_young : depth_is_fresh py depth now (pos 20) ≡ true

window_at-bounds :
    (current start stop : ℕ)
    → window_at current start stop ≡ active
    → (start ≤ current) × (current ≤ stop)
window_at-bounds current start stop e = elim (Bool-cases (ltb current start)) [
  | inl a ↦ absurd (let no : before ≡ active = rw (a) at e in cc)
  | inr a ↦ elim (Bool-cases (ltb stop current)) [
    | inl b ↦ absurd (let no : after ≡ active = rw (a, b) at e in cc)
    | inr b ↦ (ground (arith, a), ground (arith, b))
  ]
]

-- What a window that can be read was read from.
window_of-parts :
    (py : Python) (v : Value) {w : ℕ × ℕ}
    → window_of py v ≡ some w
    → (window : String) × (behind : Text) × (v ≡ str window)
      × ((partition b'-' (codes window)).1 ≡ some behind)
      × (py.clock_text (partition b'-' (codes window)).0 ≡ some w.0)
      × (py.clock_text behind ≡ some w.1)
window_of-parts py (str window) {w} e =
    let (behind, split, k) = >>=-eq-some (partition b'-' (codes window)).1 _ e in
    let (start, first, k1) = >>=-eq-some (py.clock_text (partition b'-' (codes window)).0) _ k in
    let (stop, second, k2) = >>=-eq-some (py.clock_text behind) _ k1 in
    let both : (start, stop) ≡ w = some-injective k2 in
    (
      window,
      behind,
      refl,
      split,
      first ∙ ap (λ (x : ℕ × ℕ). some x.0) both,
      second ∙ ap (λ (x : ℕ × ℕ). some x.1) both,
    )
window_of-parts py _ e = absurd (none≢some e)

pub window_state-IsOpen :
    (py : Python) (now : ℕ) (confirmation : Fields)
    → window_state py now confirmation ≡ active
    → IsOpen py now confirmation
unfolding window_state
window_state-IsOpen py now confirmation e =
    go (window_of py (get_or_null "window" confirmation)) refl
  where
    go :
        (o : Option (ℕ × ℕ))
        → window_of py (get_or_null "window" confirmation) ≡ o
        → IsOpen py now confirmation
    go none k = absurd (let no : after ≡ active = rw (window_state, k) at e in cc)
    go (some (start, stop)) k =
        let at_now : window_at (clock_of now) start stop ≡ active = rw (window_state, k) at e in
        let (begun, not_over) = window_at-bounds (clock_of now) start stop at_now in
        let (window, behind, given, split, first, second) = window_of-parts py _ k in
        record {
          window = window;
          behind = behind;
          start = start;
          stop = stop;
          given = given;
          split = split;
          first = first;
          second = second;
          begun = begun;
          not_over = not_over;
        }

pub confirmation_readiness-IsFresh :
    (py : Python) (entry_mode : String) (now : ℕ) (quote depth : Fields)
    (depth_history minute_bars : List Fields) (blocks confirmation : Fields)
    → confirmation_readiness py entry_mode now quote depth depth_history minute_bars blocks
        confirmation
      ≡ some ready
    → IsFresh py now quote depth confirmation
unfolding confirmation_readiness
confirmation_readiness-IsFresh py entry_mode now quote depth depth_history minute_bars blocks
      confirmation e =
    let (age, limit, k) =
      >>=-eq-some (int_or py (get_or_null "minimum_quote_freshness_seconds" confirmation) (pos 15))
        _ e in
    elim (Bool-cases (quote_is_fresh py quote now age)) [
      | inr a ↦
          absurd (
            let no : not_ready "quote_stale_or_missing" ≡ ready = some-injective (rw (a) at k) in
            cc)
      | inl a ↦ elim (Bool-cases (depth_is_fresh py depth now (pos 20))) [
        | inr b ↦ absurd (
            let no : not_ready "depth_stale_or_missing" ≡ ready = some-injective (rw (a, b) at k) in
            cc)
        | inl b ↦ record { age = age; limit = limit; quote_young = a; depth_young = b }
      ]
    ]
