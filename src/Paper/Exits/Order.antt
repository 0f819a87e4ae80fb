-- ===== src/Paper/Exits/Order.antt =====
-- Which of the rules are asked, and in which order.
use mathlib.Core.Path.{subst}
use stock_center.Base.{
  ℕ, ◌≡◌, ◌⊎◌, sym, Bool, true, false, Option, none, some, if◌then◌else◌, inl, inr,
}
use stock_center.Base.Int.{pos, leb_ℤ}
use stock_center.Base.Json.{Fields, get, get_or_null}
use stock_center.Base.Fallible.{>>=-eq-some, some-injective}
use stock_center.Paper.{Python, dict_or_empty}
use stock_center.Paper.Exits.{
  ExitCode, hard_stop, trailing_stop, time_exit, take_profit, hard_stop_due, trailing_due, leg_due,
  time_exit_due, exit_trigger, leg_or_time, trailing_or_later, stop_or_later, max_days, after_days,
  enabled,
}

-- What the four rules say where an exit is decided on: those before the one taken are not due.
abbrev pub Ordered : Python → ℕ → ℕ → ℕ → Fields → ℕ → Option ExitCode → Type 0
Ordered py entry last peak risk days none =
    (hard_stop_due py risk entry last ≡ some false)
    × (trailing_due py risk entry last peak ≡ some false)
    × (leg_due py risk entry last ≡ some none)
    × (time_exit_due py risk days ≡ some none)
Ordered py entry last peak risk days (some hard_stop) = hard_stop_due py risk entry last ≡ some true
Ordered py entry last peak risk days (some trailing_stop) =
    (hard_stop_due py risk entry last ≡ some false)
    × (trailing_due py risk entry last peak ≡ some true)
Ordered py entry last peak risk days (some (take_profit k)) =
    (hard_stop_due py risk entry last ≡ some false)
    × (trailing_due py risk entry last peak ≡ some false)
    × (leg_due py risk entry last ≡ some (some k))
Ordered py entry last peak risk days (some time_exit) =
    (hard_stop_due py risk entry last ≡ some false)
    × (trailing_due py risk entry last peak ≡ some false)
    × (leg_due py risk entry last ≡ some none)
    × (time_exit_due py risk days ≡ some (some time_exit))

module _ (py : Python) (entry last peak : ℕ) (risk : Fields) (days : ℕ) where
  after_days-only :
      (plan : Fields) (on : Bool) {r : Option ExitCode}
      → after_days py plan risk days on ≡ some r
      → (r ≡ none) ⊎ (r ≡ some time_exit)
  unfolding after_days
  after_days-only plan false e = inl (sym (some-injective e))
  after_days-only plan true {r} e =
      let (limit, e1, k) = >>=-eq-some (max_days py plan risk) _ e in
      by_limit (leb_ℤ limit (pos days)) (some-injective k)
    where
      by_limit :
          (b : Bool) → (if b then some time_exit else none) ≡ r → (r ≡ none) ⊎ (r ≡ some time_exit)
      by_limit true e = inr (sym e)
      by_limit false e = inl (sym e)

  time_exit_due-only :
      {r : Option ExitCode}
      → time_exit_due py risk days ≡ some r
      → (r ≡ none) ⊎ (r ≡ some time_exit)
  unfolding time_exit_due
  time_exit_due-only e =
      let (plan, e1, k) = >>=-eq-some (dict_or_empty (get_or_null "time_exit" risk)) _ e in
      after_days-only plan (enabled (get "enabled" plan)) k

  Ordered-time :
      (r : Option ExitCode)
      → (r ≡ none) ⊎ (r ≡ some time_exit)
      → hard_stop_due py risk entry last ≡ some false
      → trailing_due py risk entry last peak ≡ some false
      → leg_due py risk entry last ≡ some none
      → time_exit_due py risk days ≡ some r
      → Ordered py entry last peak risk days r
  Ordered-time r (inl z) h t l e =
      subst (Ordered py entry last peak risk days) (sym z) (h, t, l, rw (z) at e)
  Ordered-time r (inr z) h t l e =
      subst (Ordered py entry last peak risk days) (sym z) (h, t, l, rw (z) at e)

  Ordered-leg :
      (leg : Option ℕ) {r : Option ExitCode}
      → hard_stop_due py risk entry last ≡ some false
      → trailing_due py risk entry last peak ≡ some false
      → leg_due py risk entry last ≡ some leg
      → leg_or_time py risk days leg ≡ some r
      → Ordered py entry last peak risk days r
  Ordered-leg (some k) h t l e =
      subst (Ordered py entry last peak risk days) (some-injective e) (h, t, l)
  Ordered-leg none {r} h t l e = Ordered-time r (time_exit_due-only e) h t l e

  Ordered-trailing :
      (trailed : Bool) {r : Option ExitCode}
      → hard_stop_due py risk entry last ≡ some false
      → trailing_due py risk entry last peak ≡ some trailed
      → trailing_or_later py risk entry last days trailed ≡ some r
      → Ordered py entry last peak risk days r
  Ordered-trailing true h t e =
      subst (Ordered py entry last peak risk days) (some-injective e) (h, t)
  Ordered-trailing false h t e =
      let (leg, l, k) = >>=-eq-some (leg_due py risk entry last) _ e in Ordered-leg leg h t l k

  Ordered-stop :
      (stopped : Bool) {r : Option ExitCode}
      → hard_stop_due py risk entry last ≡ some stopped
      → stop_or_later py risk entry last peak days stopped ≡ some r
      → Ordered py entry last peak risk days r
  Ordered-stop true h e = subst (Ordered py entry last peak risk days) (some-injective e) h
  Ordered-stop false h e =
      let (trailed, t, k) = >>=-eq-some (trailing_due py risk entry last peak) _ e in
      Ordered-trailing trailed h t k

  -- The rules are asked in the order hard stop, trailing stop, take profit, time exit, up to the first
  -- that is due.
  pub exit_trigger-Ordered :
      {r : Option ExitCode}
      → exit_trigger py entry last peak risk days ≡ some r
      → Ordered py entry last peak risk days r
  unfolding exit_trigger
  exit_trigger-Ordered e =
      let (stopped, h, k) = >>=-eq-some (hard_stop_due py risk entry last) _ e in
      Ordered-stop stopped h k
