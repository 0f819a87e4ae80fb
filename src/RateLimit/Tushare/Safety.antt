-- ===== src/RateLimit/Tushare/Safety.antt =====
-- Whatever passes run, each token is granted at most its per-minute limit in any minute.
use stock_center.Base.{
  ℕ, ◌≤◌, ◌<◌, ◌≡◌, refl, List, [], ◌∷◌, ◌++◌, arith, ltb, ◌==◌, length, All, Bool-cases, inl, inr,
  ltb→lt,
}
use mathlib.Core.Path.{subst}
use stock_center.RateLimit.Window.{Accounts, Accounts-trim, Accounts-admit, Accounts-later, Spaced}
use stock_center.RateLimit.Tushare.{
  Requests, update, minute, pop_expired, Pass, reserved, busy, pass, wait_for,
}

-- The table, the grants of each token since the start (oldest first), and the last clock reading.
pub record System : Type 0 where
  pub requests : Requests
  pub grants : ℕ → List ℕ
  pub clock : ℕ

abbrev pub note : ℕ → Pass → (ℕ → List ℕ) → ℕ → List ℕ
note now (reserved id) g = update g id (g id ++ now ∷ [])
note now (busy waits) g = g

-- Within limits: no candidate asks for more than its token's limit.
abbrev pub Within : (ℕ → ℕ) → List (ℕ × ℕ) → Type 0
Within limits candidates = All (λ c. c.1 ≤ limits c.0) candidates

-- One pass over the candidates by any caller, at a clock reading not before the last one.
pub data Step (limits : ℕ → ℕ) (s : System) : System → Type 0 where
  passed :
      (now : ℕ) (candidates : List (ℕ × ℕ))
      → s.clock ≤ now
      → Within limits candidates
      → Step limits s (record {
        requests = (pass now candidates [] s.requests).1;
        grants = note now (pass now candidates [] s.requests).0 s.grants;
        clock = now;
      })

pub data Reach (limits : ℕ → ℕ) (s : System) : System → Type 0 where
  here : Reach limits s s
  next : {t u : System} → Reach limits s t → Step limits t u → Reach limits s u

abbrev Sound : (ℕ → ℕ) → ℕ → (ℕ → List ℕ) → Requests → Type 0
Sound limits clock grants reqs = (j : ℕ) → Accounts (limits j) minute clock (grants j) (reqs j)

module _ (limits : ℕ → ℕ) (now : ℕ) (grants : ℕ → List ℕ) where
  update-Sound :
      (reqs : Requests) (id : ℕ) (slots : List ℕ)
      → Sound limits now grants reqs
      → Accounts (limits id) minute now (grants id) slots
      → Sound limits now grants (update reqs id slots)
  update-Sound reqs id slots s a j = elim (Bool-cases (id == j)) [
    | inl e ↦ let p : id ≡ j = ground arith in rw (e) (rw p at a)
    | inr e ↦ rw (e) (s j)
  ]

  admit-Sound :
      (reqs : Requests) (id : ℕ) (slots : List ℕ)
      → Sound limits now grants reqs
      → length slots < limits id
      → Accounts (limits id) minute now (grants id) slots
      → Sound limits now (note now (reserved id) grants) (update reqs id (slots ++ now ∷ []))
  admit-Sound reqs id slots s room a j = elim (Bool-cases (id == j)) [
    | inl e ↦
        let p : id ≡ j = ground arith in
        rw (e) (
          subst (λ k. Accounts (limits k) minute now (grants id ++ now ∷ []) (slots ++ now ∷ [])) p
            (Accounts-admit (limits id) minute now (grants id) slots room a))
    | inr e ↦ rw (e) (s j)
  ]

  pass-Sound :
      (candidates : List (ℕ × ℕ)) (waits : List ℕ) (reqs : Requests)
      → Within limits candidates
      → Sound limits now grants reqs
      → Sound limits now
          (note now (pass now candidates waits reqs).0 grants)
          (pass now candidates waits reqs).1
  unfolding pass
  pass-Sound [] waits reqs w s = s
  pass-Sound ((id, per_minute) ∷ rest) waits reqs w s =
      let slots = pop_expired now (reqs id) in
      let a : Accounts (limits id) minute now (grants id) slots =
        Accounts-trim (limits id) minute now now (grants id) (reqs id) (omega arith) (s id) in
      elim (Bool-cases (ltb (length slots) per_minute)) [
        | inl e ↦
            rw (e, pass)
              (admit-Sound reqs id slots s (omega (arith, ltb→lt (length slots) per_minute e, w.0))
                a)
        | inr e ↦
            rw (e, pass)
              (pass-Sound rest (waits ++ wait_for now slots ∷ []) (update reqs id slots) w.1
                (update-Sound reqs id slots s a))
      ]

module _ (limits : ℕ → ℕ) where
  Reach-Sound :
      {s t : System}
      → Sound limits s.clock s.grants s.requests
      → Reach limits s t
      → Sound limits t.clock t.grants t.requests
  Reach-Sound v here = v
  Reach-Sound v (next {t} r (passed now candidates h w)) =
      pass-Sound limits now t.grants candidates [] t.requests w (λ j.
        Accounts-later (limits j) minute t.clock now (t.grants j) (t.requests j) h
          (Reach-Sound v r j))

-- A coordinator as its class makes it.
abbrev pub start : System
start = record { requests = λ j. []; grants = λ j. []; clock = 0 }

-- From a new coordinator, whatever callers run passes with whatever candidates, as long as no
-- candidate asks for more than `limits` gives its token and the clock never falls: any two grants
-- of one token that are `limits` apart are at least a minute apart, and its queue never holds
-- more than its limit.
pub Reach-Spaced_each :
    (limits : ℕ → ℕ) {t : System}
    → Reach limits start t
    → (j : ℕ) → Spaced (limits j) minute (t.grants j) × (length (t.requests j) ≤ limits j)
Reach-Spaced_each limits {t} r j =
    let v =
      Reach-Sound limits
        (λ k. record {
          old = [];
          split = refl;
          expired = tt;
          bounded = omega arith;
          spaced = record { apart = λ i g h e f. cc };
        })
        r j in
    (v.spaced, v.bounded)
