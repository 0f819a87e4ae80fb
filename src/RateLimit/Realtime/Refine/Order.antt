-- ===== src/RateLimit/Realtime/Refine/Order.antt =====
-- Grants in the order of time, and how many of them are recent.
use stock_center.Base.{
  ℕ, ◌+◌, ◌≤◌, ◌<◌, ◌≡◌, refl, List, [], ◌∷◌, ◌++◌, arith, leb, length, All, Bool-cases, inl, inr,
}
use stock_center.Scheduler.Store.{count_where}
use stock_center.RateLimit.Window.{trim}
use stock_center.RateLimit.Realtime.Refine.Abstract.{recent}

-- Not before `from`, and in order.
abbrev pub Rising : ℕ → List ℕ → Type 0
Rising from [] = Unit
Rising from (t ∷ ts) = (from ≤ t) × Rising t ts

pub recent-append :
    (w now : ℕ) (xs ys : List ℕ) → recent w now (xs ++ ys) ≡ recent w now xs + recent w now ys
unfolding recent count_where
recent-append w now [] ys = omega arith
recent-append w now (t ∷ xs) ys = omega (arith, recent-append w now xs ys)

pub recent-expired : (w now : ℕ) (xs : List ℕ) → All (λ t. t + w ≤ now) xs → recent w now xs ≡ 0
unfolding recent count_where
recent-expired w now [] h = refl
recent-expired w now (t ∷ xs) h = ground (arith, h.0, recent-expired w now xs h.1)

recent-Rising :
    (w now from : ℕ) (xs : List ℕ) → now < from + w → Rising from xs → recent w now xs ≡ length xs
unfolding recent count_where
recent-Rising w now from [] h r = refl
recent-Rising w now from (t ∷ xs) h r =
    ground (arith, recent-Rising w now t xs (omega (arith, h, r.0)) r.1)

pub recent-trim :
    (w now from : ℕ) (xs : List ℕ) → Rising from xs → recent w now xs ≡ length (trim w now xs)
unfolding recent count_where trim
recent-trim w now from [] r = refl
recent-trim w now from (t ∷ xs) r = elim (Bool-cases (leb (t + w) now)) [
  | inl e ↦ rw (e) (ground (arith, recent-trim w now t xs r.1))
  | inr e ↦ rw (e) (ground (arith, recent-Rising w now t xs (ground arith) r.1))
]

pub Rising-weaker : (from t : ℕ) (xs : List ℕ) → from ≤ t → Rising t xs → Rising from xs
Rising-weaker from t [] h r = tt
Rising-weaker from t (u ∷ xs) h r = (omega (arith, h, r.0), r.1)

pub Rising-trim : (w now from : ℕ) (xs : List ℕ) → Rising from xs → Rising from (trim w now xs)
unfolding trim
Rising-trim w now from [] r = tt
Rising-trim w now from (t ∷ xs) r = elim (Bool-cases (leb (t + w) now)) [
  | inl e ↦ rw (e) (Rising-weaker from t (trim w now xs) r.0 (Rising-trim w now t xs r.1))
  | inr e ↦ rw (e) r
]

pub All-trim : (P : ℕ → Type 0) (w now : ℕ) (xs : List ℕ) → All P xs → All P (trim w now xs)
unfolding trim
All-trim P w now [] h = tt
All-trim P w now (t ∷ xs) h = elim (Bool-cases (leb (t + w) now)) [
  | inl e ↦ rw (e) (All-trim P w now xs h.1)
  | inr e ↦ rw (e) h
]

pub Rising-append :
    (from now : ℕ) (xs : List ℕ)
    → from ≤ now
    → Rising from xs
    → All (λ t. t ≤ now) xs
    → Rising from (xs ++ now ∷ [])
Rising-append from now [] h r a = (h, tt)
Rising-append from now (t ∷ xs) h r a = (r.0, Rising-append t now xs a.0 r.1 a.1)
