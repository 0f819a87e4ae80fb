-- ===== src/Paper/Entry/Bounds.antt =====
-- What a paper entry has been checked for: its price and its quantity.
use stock_center.Base.{
  ℕ, ◌*◌, ◌/◌, ◌≡◌, ◌≤◌, refl, false, Option, none, some, arith, ◌&&◌, Bool-cases, inl, inr, max,
}
use stock_center.Base.Int.{ℤ, ◌≤ℤ◌, ltb_ℤ}
use stock_center.Base.Json.{Value, Fields, get_or_null}
use stock_center.Base.Fallible.{>>=-eq-some, some-injective}
use stock_center.Paper.{Python, scale, change, number, best_ask, to_int}
use stock_center.Paper.Entry.{
  waits, ends, buys, near, limit_up_of, rejects_queue, gap_range, priced_trigger, trigger_at,
  entry_trigger, lots, lot_quantity,
}

-- Whole lots, at least one.
abbrev pub IsLots : ℕ → Type 0
IsLots q = (100 ≤ q) × ((n : ℕ) × (q ≡ n * 100))

-- The quantity of an entry is a whole number of lots and at least one, whatever the plan asks for.
pub lot_quantity-IsLots : (py : Python) (v : Value) → IsLots (lot_quantity py v)
unfolding lot_quantity
lot_quantity-IsLots py v = go (lots (to_int py v)) (at_least (to_int py v))
  where
    at_least : (z : Option ℤ) → 100 ≤ lots z
    at_least none = omega arith
    at_least (some z) = omega arith

    go : (q : ℕ) → 100 ≤ q → IsLots (max 100 (q / 100 * 100))
    go q h = (omega arith, (q / 100, omega (arith, h)))

-- What holds of a price at which something is bought.
pub record IsExecutable (py : Python) (quote depth confirmation : Fields) (price : ℕ) : Type 0 where
  pub pre_close : ℕ
  pub range : ℤ × ℤ
  pub ask : best_ask py depth ≡ some (some price)
  pub base : number py (get_or_null "pre_close_price" quote) ≡ some pre_close
  pub limits : gap_range py confirmation ≡ some range
  pub above : scale pre_close range.0 ≤ℤ change price pre_close
  pub below : change price pre_close ≤ℤ scale pre_close range.1
  pub clear : rejects_queue confirmation && near price (limit_up_of py quote) ≡ false

not_less : (a b : ℤ) → ltb_ℤ a b ≡ false → b ≤ℤ a
not_less a b h = ground arith

priced_trigger-buys :
    (py : Python) (ask pre_close : ℕ) (range : ℤ × ℤ) (quote confirmation : Fields) {price : ℕ}
    → priced_trigger py ask pre_close range quote confirmation ≡ buys price
    → (ask ≡ price)
      × (scale pre_close range.0 ≤ℤ change ask pre_close)
      × (change ask pre_close ≤ℤ scale pre_close range.1)
      × (rejects_queue confirmation && near ask (limit_up_of py quote) ≡ false)
unfolding priced_trigger
priced_trigger-buys py ask pre_close range quote confirmation {price} e =
    elim (Bool-cases (ltb_ℤ (change ask pre_close) (scale pre_close range.0))) [
      | inl a ↦ let no : waits "gap_below_range" ≡ buys price = rw (a) at e in absurd cc
      | inr a ↦ elim (Bool-cases (ltb_ℤ (scale pre_close range.1) (change ask pre_close))) [
        | inl b ↦ let no : ends "gap_above_range" ≡ buys price = rw (a, b) at e in absurd cc
        | inr b ↦
            elim (Bool-cases (rejects_queue confirmation && near ask (limit_up_of py quote))) [
              | inl c ↦
                  let no : ends "near_limit_up_queue" ≡ buys price = rw (a, b, c) at e in absurd cc
              | inr c ↦
                  let yes : buys ask ≡ buys price = rw (a, b, c) at e in
                  (
                    cc,
                    not_less (change ask pre_close) (scale pre_close range.0) a,
                    not_less (scale pre_close range.1) (change ask pre_close) b,
                    c,
                  )
            ]
      ]
    ]

-- A trigger that buys has the best ask as its price, which lies within the range of the gap over
-- the previous close, and is not near the limit where that is rejected.
pub entry_trigger-IsExecutable :
    (py : Python) (quote depth confirmation : Fields) (price : ℕ)
    → entry_trigger py quote depth confirmation ≡ some (buys price)
    → IsExecutable py quote depth confirmation price
unfolding entry_trigger trigger_at
entry_trigger-IsExecutable py quote depth confirmation price e =
    let (ask, e1, k1) = >>=-eq-some (best_ask py depth) _ e in
    by_prices ask (number py (get_or_null "pre_close_price" quote)) refl e1 k1
  where
    by_prices :
        (ask pre_close : Option ℕ)
        → number py (get_or_null "pre_close_price" quote) ≡ pre_close
        → best_ask py depth ≡ some ask
        → trigger_at py quote confirmation ask pre_close ≡ some (buys price)
        → IsExecutable py quote depth confirmation price
    by_prices none pre_close p a k =
        absurd (let k : waits "entry_price_unavailable" ≡ buys price = some-injective k in cc)
    by_prices (some ask) none p a k =
        absurd (let k : waits "entry_price_unavailable" ≡ buys price = some-injective k in cc)
    by_prices (some ask) (some pre_close) p a k =
        let (range, e2, k2) = >>=-eq-some (gap_range py confirmation) _ k in
        let (same, above, below, clear) =
          priced_trigger-buys py ask pre_close range quote confirmation (some-injective k2) in
        record {
          pre_close = pre_close;
          range = range;
          ask = rw (← same) a;
          base = p;
          limits = e2;
          above = rw (← same) above;
          below = rw (← same) below;
          clear = rw (← same) clear;
        }
