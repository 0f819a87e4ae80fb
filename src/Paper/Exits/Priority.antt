-- ===== src/Paper/Exits/Priority.antt =====
-- Which exit is taken, in terms of prices, percentages and days.
pub mod Reasons
use stock_center.Base.{ℕ, ◌≡◌, sym, Bool, true, false, Option, none, some, if◌then◌else◌}
use stock_center.Base.Json.{Fields}
use stock_center.Base.Fallible.{none≢some}
use stock_center.Paper.{Python}
use stock_center.Paper.Exits.{
  ExitCode, hard_stop, trailing_stop, time_exit, take_profit, exit_trigger,
}
use stock_center.Paper.Exits.Order.{Ordered, exit_trigger-Ordered}
use stock_center.Paper.Exits.Priority.Reasons.{
  HardStop, Trailing, Leg, TimeExit, hard_stop_due-HardStop, trailing_due-Trailing, leg_due-Leg,
  time_exit_due-TimeExit,
}

-- What the four rules say where an exit is decided on: those before the one taken are not due.
abbrev pub Decided : Python → ℕ → ℕ → ℕ → Fields → ℕ → Option ExitCode → Type 0
Decided py entry last peak risk days none =
    HardStop py risk entry last false
    × Trailing py risk entry last peak false
    × Leg py risk entry last none
    × TimeExit py risk days false
Decided py entry last peak risk days (some hard_stop) = HardStop py risk entry last true
Decided py entry last peak risk days (some trailing_stop) =
    HardStop py risk entry last false × Trailing py risk entry last peak true
Decided py entry last peak risk days (some (take_profit k)) =
    HardStop py risk entry last false
    × Trailing py risk entry last peak false
    × Leg py risk entry last (some k)
Decided py entry last peak risk days (some time_exit) =
    HardStop py risk entry last false
    × Trailing py risk entry last peak false
    × Leg py risk entry last none
    × TimeExit py risk days true

module _ (py : Python) (entry last peak : ℕ) (risk : Fields) (days : ℕ) where
  abbrev Verdict : Option ExitCode → Bool → Type 0
  Verdict r due = (r ≡ (if due then some time_exit else none)) × TimeExit py risk days due

  off : (due : Bool) → Verdict none due → TimeExit py risk days false
  off false v = v.1
  off true v = absurd (none≢some v.0)

  on : (due : Bool) → Verdict (some time_exit) due → TimeExit py risk days true
  on true v = v.1
  on false v = absurd (none≢some (sym v.0))

  Ordered-Decided :
      (r : Option ExitCode)
      → Ordered py entry last peak risk days r
      → Decided py entry last peak risk days r
  Ordered-Decided none (h, t, l, e) =
      let (due, is, x) = time_exit_due-TimeExit py risk days e in
      (
        hard_stop_due-HardStop py risk entry last h,
        trailing_due-Trailing py risk entry last peak t,
        leg_due-Leg py risk entry last l,
        off due (is, x),
      )
  Ordered-Decided (some hard_stop) h = hard_stop_due-HardStop py risk entry last h
  Ordered-Decided (some trailing_stop) (h, t) =
      (hard_stop_due-HardStop py risk entry last h, trailing_due-Trailing py risk entry last peak t)
  Ordered-Decided (some (take_profit k)) (h, t, l) = (
    hard_stop_due-HardStop py risk entry last h,
    trailing_due-Trailing py risk entry last peak t,
    leg_due-Leg py risk entry last l,
  )
  Ordered-Decided (some time_exit) (h, t, l, e) =
      let (due, is, x) = time_exit_due-TimeExit py risk days e in
      (
        hard_stop_due-HardStop py risk entry last h,
        trailing_due-Trailing py risk entry last peak t,
        leg_due-Leg py risk entry last l,
        on due (is, x),
      )

  -- Where the exit test of a trade does not raise, an exit is taken for the first of four reasons that
  -- holds, and none only where none holds: the return is at or below the hard stop, -4 % by default; the
  -- peak's return has reached the activation, 6 % by default, and the price has fallen by the drawdown,
  -- 3 % by default; the return has reached the threshold of the leg whose turn it is; or the trade,
  -- with the time exit not switched off, has been held for its days, the rule's, the plan's or three.
  pub exit_trigger-Decided :
      {r : Option ExitCode}
      → exit_trigger py entry last peak risk days ≡ some r
      → Decided py entry last peak risk days r
  exit_trigger-Decided {r} e =
      Ordered-Decided r (exit_trigger-Ordered py entry last peak risk days e)
