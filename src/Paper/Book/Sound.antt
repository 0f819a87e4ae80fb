-- ===== src/Paper/Book/Sound.antt =====
-- What is true of every paper trade, and that a new trade and a sale keep it.
use mathlib.Core.Path.{subst}
use stock_center.Base.{
  ℕ, suc, ◌+◌, ◌-◌, ◌≡◌, ◌≤◌, ◌<◌, refl, sym, Bool, true, false, not, Option, none, some, List, [],
  ◌∷◌, ◌++◌, arith, length, ltb, lt→ltb, ◌==◌, if◌then◌else◌, ◌||◌, All, All-append, Bool-cases,
  Option-cases, inl, inr, max,
}
use stock_center.Base.Int.{pos}
use stock_center.Base.Json.{Fields, get_or_null}
use stock_center.Base.Fallible.{◌>>=◌, >>=-eq-some, some-injective}
use stock_center.Paper.{Python, date_of, float_or}
use stock_center.Paper.Exits.{ExitCode}
use stock_center.Paper.Book.{
  StrategyCandidate, StrategyPaperTradeLeg, StrategyPaperTrade, Closing, is_sell, is_open, last_leg,
  sold, sold_amount, new_trade, closing_of, exit_marked, append_paper_sell_leg,
}

unfoldable pub sold_quantity : List StrategyPaperTradeLeg → ℕ
sold_quantity [] = 0
sold_quantity (l ∷ ls) = (if is_sell l.side then l.quantity else 0) + sold_quantity ls

-- The legs are numbered without a gap.
abbrev pub Numbered : ℕ → List StrategyPaperTradeLeg → Type 0
Numbered n [] = Unit
Numbered n (l ∷ ls) = (l.leg_no ≡ n) × Numbered (suc n) ls

-- A sale is on a later date than the entry.
abbrev pub waits_a_day : ℕ → StrategyPaperTradeLeg → Bool
waits_a_day entry_at l = not (is_sell l.side) || ltb (date_of entry_at) (date_of l.execution_time)

abbrev pub Settled : Option Closing → List StrategyPaperTradeLeg → Type 0
Settled none legs = Unit
Settled (some c) legs = c.exit_amount ≡ sold_amount legs

-- What is held and what was sold make up what was bought; legs are numbered from 1; no sale is on
-- the date of the entry; a trade is open exactly while something is held; and what it closed with
-- is what its sales brought.
pub record IsSound (t : StrategyPaperTrade) : Type 0 where
  pub quantities : t.open_quantity + sold_quantity t.legs ≡ t.initial_quantity
  pub numbered : Numbered 1 t.legs
  pub later : All (λ l. waits_a_day t.entry_at l ≡ true) t.legs
  pub held : is_open t ≡ ltb 0 t.open_quantity
  pub settled : Settled t.closing t.legs

sold_quantity-append :
    (ls ms : List StrategyPaperTradeLeg)
    → sold_quantity (ls ++ ms) ≡ sold_quantity ls + sold_quantity ms
unfolding sold_quantity
sold_quantity-append [] ms = omega arith
sold_quantity-append (l ∷ ls) ms = omega (arith, sold_quantity-append ls ms)

last_leg-Numbered :
    (n : ℕ) (ls : List StrategyPaperTradeLeg)
    → Numbered (suc n) ls
    → max n (last_leg ls) ≡ n + length ls
unfolding last_leg
last_leg-Numbered n [] h = omega arith
last_leg-Numbered n (l ∷ ls) h = omega (arith, h.0, last_leg-Numbered (suc n) ls h.1)

Numbered-append :
    (n : ℕ) (ls : List StrategyPaperTradeLeg) (l : StrategyPaperTradeLeg)
    → Numbered n ls
    → l.leg_no ≡ n + length ls
    → Numbered n (ls ++ l ∷ [])
Numbered-append n [] l h e = (omega (arith, e), tt)
Numbered-append n (m ∷ ls) l h e = (h.0, Numbered-append (suc n) ls l h.1 (omega (arith, e)))

-- A trade that was just entered is sound if something was bought.
pub new_trade-IsSound :
    (id : ℕ) (c : StrategyCandidate) (at price quantity : ℕ) (risk_plan : Fields)
    → 0 < quantity
    → IsSound (new_trade id c at price quantity risk_plan)
unfolding sold_quantity
new_trade-IsSound id c at price quantity risk_plan h = record {
  quantities = omega arith;
  numbered = (refl, tt);
  later = (refl, tt);
  held = sym (lt→ltb 0 quantity h);
  settled = tt;
}

-- A change of the plan alone.
pub replan-IsSound :
    (t : StrategyPaperTrade) (plan : Fields) → IsSound t → IsSound (record t { risk_plan = plan })
replan-IsSound t plan s = record {
  quantities = s.quantities;
  numbered = s.numbered;
  later = s.later;
  held = s.held;
  settled = s.settled;
}

closing_of-amount :
    (py : Python) (at : ℕ) (plan : Fields) (t : StrategyPaperTrade) {c : Closing}
    → closing_of py at plan t ≡ some c
    → c.exit_amount ≡ sold_amount t.legs
unfolding closing_of
closing_of-amount py at plan t e =
    let (fee_rate, e1, k1) =
      >>=-eq-some (float_or py (get_or_null "fee_rate" plan) (pos 500)) _ e in
    cc

module _ (py : Python) (at price quantity : ℕ) (code : ExitCode) (t : StrategyPaperTrade) where
  abbrev legs_after : List StrategyPaperTradeLeg
  legs_after = t.legs ++ sold at price quantity t.legs ∷ []

  abbrev after_sale : Fields → Option Closing → StrategyPaperTrade
  after_sale plan closing = record t {
    legs = legs_after;
    open_quantity = t.open_quantity - quantity;
    risk_plan = plan;
    closing = closing;
  }

  after_sale-IsSound :
      (plan : Fields) (closing : Option Closing)
      → IsSound t
      → quantity ≤ t.open_quantity
      → date_of t.entry_at < date_of at
      → is_open (after_sale plan closing) ≡ ltb 0 (t.open_quantity - quantity)
      → Settled closing legs_after
      → IsSound (after_sale plan closing)
  unfolding sold_quantity
  after_sale-IsSound plan closing s le late open_after settled = record {
    quantities =
        rw (sold_quantity-append t.legs (sold at price quantity t.legs ∷ []))
          (omega (arith, s.quantities));
    numbered =
        Numbered-append 1 t.legs (sold at price quantity t.legs) s.numbered
          (omega (arith, last_leg-Numbered 0 t.legs s.numbered));
    later =
        All-append _ t.legs (sold at price quantity t.legs ∷ []) s.later
          (lt→ltb (date_of t.entry_at) (date_of at) late, tt);
    held = open_after;
    settled = settled;
  }

  still_open : IsSound t → (t.open_quantity - quantity == 0) ≡ false → t.closing ≡ none
  still_open s some_left = elim (Option-cases t.closing) [
    | inl e ↦ e
    | inr (c, e) ↦
        let shut : ltb 0 t.open_quantity ≡ false = sym (rw (e) at s.held) in absurd (ground arith)
  ]

  abbrev sold_out : Fields → Option StrategyPaperTrade
  sold_out plan =
      closing_of py at plan (after_sale plan t.closing) >>= λ c. some (after_sale plan (some c))

  sold_out-IsSound :
      (plan : Fields) {u : StrategyPaperTrade}
      → IsSound t
      → quantity ≤ t.open_quantity
      → date_of t.entry_at < date_of at
      → (if t.open_quantity - quantity == 0
          then sold_out plan
          else some (after_sale plan t.closing))
        ≡ some u
      → IsSound u
  sold_out-IsSound plan s le late e = elim (Bool-cases (t.open_quantity - quantity == 0)) [
    | inl z ↦
        let (c, e2, k2) =
          >>=-eq-some (closing_of py at plan (after_sale plan t.closing)) _ (rw (z) at e) in
        subst IsSound (some-injective k2) (
          after_sale-IsSound plan (some c) s le late (ground arith)
            (closing_of-amount py at plan (after_sale plan t.closing) e2))
    | inr z ↦
        let none_yet = still_open s z in
        subst IsSound (some-injective (rw (z) at e)) (
          after_sale-IsSound plan t.closing s le late (rw (none_yet) (ground arith))
            (rw (none_yet) tt))
  ]

  -- A sale on a later date of no more than is held keeps a trade sound.
  pub append_paper_sell_leg-IsSound :
      {u : StrategyPaperTrade}
      → IsSound t
      → quantity ≤ t.open_quantity
      → date_of t.entry_at < date_of at
      → append_paper_sell_leg py at price quantity code t ≡ some u
      → IsSound u
  unfolding append_paper_sell_leg
  append_paper_sell_leg-IsSound s le late e =
      let (plan, e1, k1) = >>=-eq-some (exit_marked py at code t.risk_plan) _ e in
      sold_out-IsSound plan s le late k1
