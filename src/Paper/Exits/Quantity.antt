-- ===== src/Paper/Exits/Quantity.antt =====
-- How much of a trade an exit sells.
use mathlib.Core.Path.{subst}
use stock_center.Base.{
  ℕ, zero, suc, ◌*◌, ◌/◌, sym, ◌≡◌, ◌≤◌, ◌<◌, refl, ap, some, arith, ◌⊎◌, inl, inr, min, leb,
  leb→le, Bool-cases,
}
use stock_center.Base.Json.{Fields, get_or_null}
use stock_center.Base.Fallible.{>>=-eq-some, some-injective}
use stock_center.Paper.{Python, dict_or_empty}
use stock_center.Paper.Exits.{
  ExitCode, hard_stop, trailing_stop, time_exit, take_profit, legs_of, or_all, leg_quantity,
  exit_quantity,
}

-- Something, no more than is held, and all of it or whole lots.
abbrev IsPart : ℕ → ℕ → Type 0
IsPart held q = (0 < q) × (q ≤ held) × ((q ≡ held) ⊎ ((n : ℕ) × (q ≡ n * 100)))

leg_quantity-IsPart : (held ratio : ℕ) → 0 < held → IsPart held (leg_quantity held ratio)
leg_quantity-IsPart held ratio h = go (held * ratio / 100000000 * 100) (_, refl)
  where
    go : (q : ℕ) → ((n : ℕ) × (q ≡ n * 100)) → IsPart held (min held (or_all held q))
    go zero e = (omega arith, omega arith, inl (omega arith))
    go (suc q) (n, e) = elim (Bool-cases (leb held (suc q))) [
      | inl small ↦
          let le : held ≤ suc q = leb→le held (suc q) small in
          (omega arith, omega arith, inl (omega arith))
      | inr large ↦
          let gt : suc q < held = ground arith in
          (omega arith, omega arith, inr (n, omega (arith, e)))
    ]

all-IsPart : (held : ℕ) {q : ℕ} → 0 < held → held ≡ q → IsPart held q
all-IsPart held h e = (omega (arith, e), omega (arith, e), inl (sym e))

-- An exit of a trade that holds something sells something, never more than is held, and either all
-- of it or a number of whole lots.
pub exit_quantity-bounds :
    (py : Python) (held : ℕ) (code : ExitCode) (risk : Fields) {part : ℕ × Fields}
    → 0 < held
    → exit_quantity py held code risk ≡ some part
    → (0 < part.0) × (part.0 ≤ held) × ((part.0 ≡ held) ⊎ ((n : ℕ) × (part.0 ≡ n * 100)))
unfolding exit_quantity
exit_quantity-bounds py held hard_stop risk h e =
    all-IsPart held h (ap (λ x. x.0) (some-injective e))
exit_quantity-bounds py held trailing_stop risk h e =
    all-IsPart held h (ap (λ x. x.0) (some-injective e))
exit_quantity-bounds py held time_exit risk h e =
    all-IsPart held h (ap (λ x. x.0) (some-injective e))
exit_quantity-bounds py held (take_profit k) risk h e =
    let (legs, e1, k1) = >>=-eq-some (legs_of (get_or_null "take_profit_legs" risk)) _ e in
    let (runtime_state, e2, k2) =
      >>=-eq-some (dict_or_empty (get_or_null "runtime_state" risk)) _ k1 in
    subst (IsPart held) (ap (λ x. x.0) (some-injective k2)) (leg_quantity-IsPart held _ h)
