-- ===== src/Paper/Exits/Priority/Reasons.antt =====
-- What each of the four exit rules says, in terms of prices, percentages and days.
use stock_center.Base.{
  ℕ, ◌+◌, ◌*◌, ◌≡◌, ◌⊎◌, ◌↔◌, refl, sym, ◌∙◌, Bool, true, false, Option, none, some, max, arith,
  if◌then◌else◌, inl, inr, Bool-cases, ◌&&◌,
}
use stock_center.Base.Int.{ℤ, pos, negsuc, sub_ℕ, leb_ℤ, ◌≤ℤ◌}
use stock_center.Base.Json.{Fields, Items, get, get_or_null, truthy}
use stock_center.Base.Fallible.{>>=-eq-some, some-injective, none≢some}
use stock_center.Paper.{Python, scale, change, item, dict_or_empty, float_or, int_or}
use stock_center.Paper.Exits.{
  ExitCode, time_exit, hard_stop_due, trailing_due, leg_due, time_exit_due, legs_of, place,
  leg_number, take_profit_due, max_days, after_days, enabled, trails,
}

leb_iff : (a b : ℤ) → (leb_ℤ a b ≡ true) ↔ (a ≤ℤ b)
leb_iff a b = ground arith

-- A rule that is due exactly when something holds, under another name of its verdict.
as_due : {X : Type 0} {a b : Bool} → a ≡ b → (a ≡ true) ↔ X → (b ≡ true) ↔ X
as_due q (f, g) = ((λ e. f (q ∙ e)), λ x. sym q ∙ g x)

either_way :
    (b : Bool) (x y : Option ℤ) {limit : ℤ}
    → ((if b then x else y) ≡ some limit)
      ↔ (((b ≡ true) × (x ≡ some limit)) ⊎ ((b ≡ false) × (y ≡ some limit)))
either_way true x y = ((λ e. inl (refl, e)), λ h. elim h [ inl (t, e) ↦ e | inr (t, e) ↦ cc ])
either_way false x y = ((λ e. inr (refl, e)), λ h. elim h [ inl (t, e) ↦ cc | inr (t, e) ↦ e ])

module _ (py : Python) (risk : Fields) where
  -- The return is at or below the plan's limit, or -4 % without one.
  pub record HardStop (entry last : ℕ) (due : Bool) : Type 0 where
    pub pct : ℤ
    pub read : float_or py (get_or_null "hard_stop_loss_pct" risk) (negsuc 3999999) ≡ some pct
    pub decides : (due ≡ true) ↔ (change last entry ≤ℤ scale entry pct)

  -- The peak's return has reached the plan's activation, or 6 % without one, and the price has fallen
  -- from the peak by the plan's drawdown, or by 3 % of the peak without one.
  pub record Trailing (entry last peak : ℕ) (due : Bool) : Type 0 where
    pub trailing : Fields
    pub activate : ℤ
    pub drawdown : ℤ
    pub plan : dict_or_empty (get_or_null "trailing_stop" risk) ≡ some trailing
    pub read_activate :
        float_or py (get_or_null "activate_return_pct" trailing) (pos 6000000) ≡ some activate
    pub read_drawdown :
        float_or py (get_or_null "drawdown_pct" trailing) (pos 3000000) ≡ some drawdown
    pub decides : (due ≡ true) ↔ (
        (scale (max 1 entry) activate ≤ℤ change peak (max 1 entry))
        × (scale (max 1 peak) drawdown ≤ℤ sub_ℕ (peak * 100000000) (last * 100000000)))

  -- The leg whose turn it is has a threshold, and the return has reached it.
  abbrev Reached : ℕ → ℕ → Items → ℤ → ℕ → Type 0
  Reached entry last legs next k =
      (i : ℕ) × (threshold : ℤ) × (place next ≡ some i)
      × (leg_number py "trigger_return_pct" (item legs i) ≡ some threshold)
      × (scale entry threshold ≤ℤ change last entry)
      × (k ≡ i + 1)

  abbrev pub Legs : ℕ → ℕ → Items → ℤ → Option ℕ → Type 0
  Legs entry last legs next (some k) = Reached entry last legs next k
  Legs entry last legs next none = ¬ ((k : ℕ) × Reached entry last legs next k)

  pub record Leg (entry last : ℕ) (due : Option ℕ) : Type 0 where
    pub legs : Items
    pub state : Fields
    pub next : ℤ
    pub plan : legs_of (get_or_null "take_profit_legs" risk) ≡ some legs
    pub runtime : dict_or_empty (get_or_null "runtime_state" risk) ≡ some state
    pub turn : int_or py (get_or_null "take_profit_leg_index" state) (pos 0) ≡ some next
    pub decides : Legs entry last legs next due

  -- The days a trade is held for: the rule's own, else the plan's, else three.
  abbrev pub Limit : Fields → ℤ → Type 0
  Limit plan limit =
      ((truthy (get_or_null "trade_days" plan) ≡ true)
        × (int_or py (get_or_null "trade_days" plan) (pos 3) ≡ some limit))
      ⊎ ((truthy (get_or_null "trade_days" plan) ≡ false)
          × (int_or py (get_or_null "max_holding_trade_days" risk) (pos 3) ≡ some limit))

  -- The rule is not switched off, and the trade has been held for its days.
  pub record TimeExit (days : ℕ) (due : Bool) : Type 0 where
    pub plan : Fields
    pub read : dict_or_empty (get_or_null "time_exit" risk) ≡ some plan
    pub decides : (due ≡ true) ↔ (
        (enabled (get "enabled" plan) ≡ true)
        × ((limit : ℤ) × Limit plan limit × (limit ≤ℤ pos days)))

  pub hard_stop_due-HardStop :
      (entry last : ℕ) {due : Bool}
      → hard_stop_due py risk entry last ≡ some due
      → HardStop entry last due
  unfolding hard_stop_due
  hard_stop_due-HardStop entry last {due} e =
      let (pct, read, k) =
        >>=-eq-some (float_or py (get_or_null "hard_stop_loss_pct" risk) (negsuc 3999999)) _ e in
      let q : leb_ℤ (change last entry) (scale entry pct) ≡ due = some-injective k in
      record {
        pct = pct;
        read = read;
        decides = as_due q (leb_iff (change last entry) (scale entry pct));
      }

  both_iff : (a b c d : ℤ) → (leb_ℤ a b && leb_ℤ c d ≡ true) ↔ ((a ≤ℤ b) × (c ≤ℤ d))
  both_iff a b c d = ground (arith, leb_iff a b, leb_iff c d)

  pub trailing_due-Trailing :
      (entry last peak : ℕ) {due : Bool}
      → trailing_due py risk entry last peak ≡ some due
      → Trailing entry last peak due
  unfolding trailing_due
  trailing_due-Trailing entry last peak {due} e =
      let (trailing, plan, k) =
        >>=-eq-some (dict_or_empty (get_or_null "trailing_stop" risk)) _ e in
      let (activate, a, k1) =
        >>=-eq-some (float_or py (get_or_null "activate_return_pct" trailing) (pos 6000000)) _ k in
      let (drawdown, d, k2) =
        >>=-eq-some (float_or py (get_or_null "drawdown_pct" trailing) (pos 3000000)) _ k1 in
      let q : trails entry last peak activate drawdown ≡ due = some-injective k2 in
      record {
        trailing = trailing;
        activate = activate;
        drawdown = drawdown;
        plan = plan;
        read_activate = a;
        read_drawdown = d;
        decides = as_due q (
            both_iff (scale (max 1 entry) activate) (change peak (max 1 entry))
              (scale (max 1 peak) drawdown) (sub_ℕ (peak * 100000000) (last * 100000000)));
      }

  take_profit_due-Legs :
      (entry last : ℕ) (legs : Items) (next : ℤ)
      → Legs entry last legs next (take_profit_due py entry last legs (place next))
  unfolding take_profit_due
  take_profit_due-Legs entry last legs next = go (place next) refl
    where
      threshold_of : ℕ → Option ℤ
      threshold_of i = leg_number py "trigger_return_pct" (item legs i)

      with_threshold :
          (i : ℕ) (o : Option ℤ)
          → place next ≡ some i
          → threshold_of i ≡ o
          → Legs entry last legs next (take_profit_due py entry last legs (some i))
      with_threshold i none p t =
          rw (t, take_profit_due)
            λ (k, (j, x, pj, tj, le, s)).
              let same : i ≡ j = some-injective (sym p ∙ pj) in
              let here : threshold_of i ≡ some x = rw (same) tj in none≢some (sym t ∙ here)
      with_threshold i (some x) p t =
          rw (t, take_profit_due)
            (elim (Bool-cases (leb_ℤ (scale entry x) (change last entry))) [
              | inl b ↦ rw (b) (i, x, p, t, (leb_iff (scale entry x) (change last entry)).0 b, refl)
              | inr b ↦ rw (b) λ (k, (j, y, pj, tj, le, s)).
                  let same : i ≡ j = some-injective (sym p ∙ pj) in
                  let here : threshold_of i ≡ some y = rw (same) tj in
                  let value : x ≡ y = some-injective (sym t ∙ here) in
                  let yes = (leb_iff (scale entry x) (change last entry)).1 (rw (value) le) in
                  absurd (ground (arith, b, yes))
            ])

      go :
          (o : Option ℕ)
          → place next ≡ o
          → Legs entry last legs next (take_profit_due py entry last legs o)
      go none p = λ (k, (j, x, pj, tj, le, s)). none≢some (sym p ∙ pj)
      go (some i) p = with_threshold i (threshold_of i) p refl

  pub leg_due-Leg :
      (entry last : ℕ) {due : Option ℕ} → leg_due py risk entry last ≡ some due → Leg entry last due
  unfolding leg_due
  leg_due-Leg entry last {due} e =
      let (legs, plan, k) = >>=-eq-some (legs_of (get_or_null "take_profit_legs" risk)) _ e in
      let (state, runtime, k1) =
        >>=-eq-some (dict_or_empty (get_or_null "runtime_state" risk)) _ k in
      let (next, turn, k2) =
        >>=-eq-some (int_or py (get_or_null "take_profit_leg_index" state) (pos 0)) _ k1 in
      let q : take_profit_due py entry last legs (place next) ≡ due = some-injective k2 in
      record {
        legs = legs;
        state = state;
        next = next;
        plan = plan;
        runtime = runtime;
        turn = turn;
        decides = rw (← q) (take_profit_due-Legs entry last legs next);
      }

  max_days-Limit :
      (plan : Fields) {limit : ℤ} → (max_days py plan risk ≡ some limit) ↔ Limit plan limit
  unfolding max_days
  max_days-Limit plan =
      either_way (truthy (get_or_null "trade_days" plan))
        (int_or py (get_or_null "trade_days" plan) (pos 3))
        (int_or py (get_or_null "max_holding_trade_days" risk) (pos 3))

  days_iff :
      (plan : Fields) (days : ℕ) (on : Bool) {r : Option ExitCode}
      → after_days py plan risk days on ≡ some r
      → (due : Bool) × (r ≡ (if due then some time_exit else none))
        × ((due ≡ true) ↔ ((on ≡ true) × ((limit : ℤ) × Limit plan limit × (limit ≤ℤ pos days))))
  unfolding after_days
  days_iff plan days false e = (false, sym (some-injective e), ((λ k. cc), λ h. cc))
  days_iff plan days true {r} e =
      let (limit, read, k) = >>=-eq-some (max_days py plan risk) _ e in
      (
        leb_ℤ limit (pos days),
        sym (some-injective k),
        (
          (λ d. (refl, (limit, (max_days-Limit plan).0 read, (leb_iff limit (pos days)).0 d))),
          λ (on, (other, given, le)).
              let same : other ≡ limit =
                some-injective (sym ((max_days-Limit plan).1 given) ∙ read) in
              (leb_iff limit (pos days)).1 (rw (← same) le),
        ),
      )

  pub time_exit_due-TimeExit :
      (days : ℕ) {r : Option ExitCode}
      → time_exit_due py risk days ≡ some r
      → (due : Bool) × (r ≡ (if due then some time_exit else none)) × TimeExit days due
  unfolding time_exit_due
  time_exit_due-TimeExit days e =
      let (plan, read, k) = >>=-eq-some (dict_or_empty (get_or_null "time_exit" risk)) _ e in
      let (due, is, decides) = days_iff plan days (enabled (get "enabled" plan)) k in
      (due, is, record { plan = plan; read = read; decides = decides })
