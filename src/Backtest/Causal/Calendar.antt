-- ===== src/Backtest/Causal/Calendar.antt =====
-- The calendar of open dates: a list whose dates ascend.
use stock_center.Base.{
  ℕ, zero, suc, ◌≡◌, ◌<◌, refl, some, List, [], ◌∷◌, get_elem?, ◌==◌, ==_iff, arith, Bool-cases,
  inl, inr,
}
use stock_center.Base.Fallible.{>>=-eq-some, none≢some, some-injective}
use stock_center.Backtest.{date_index}

-- Each date is later than the one before it.
abbrev pub Ascending : List ℕ → Type 0
Ascending [] = Unit
Ascending (d ∷ []) = Unit
Ascending (d ∷ e ∷ ds) = (d < e) × Ascending (e ∷ ds)

first-lt :
    (d : ℕ) (ds : List ℕ) (j : ℕ) {b : ℕ} → Ascending (d ∷ ds) → get_elem? ds j ≡ some b → d < b
first-lt d [] j a h = absurd (none≢some h)
first-lt d (e ∷ ds) zero a h = let same : e ≡ _ = some-injective h in omega (arith, a.0, same)
first-lt d (e ∷ ds) (suc j) a h = omega (arith, a.0, first-lt e ds j a.1 h)

tail-Ascending : (d : ℕ) (ds : List ℕ) → Ascending (d ∷ ds) → Ascending ds
tail-Ascending d [] a = tt
tail-Ascending d (e ∷ ds) a = a.1

pub get_elem?-lt :
    (ds : List ℕ) (i j : ℕ) {a b : ℕ}
    → Ascending ds
    → i < j
    → get_elem? ds i ≡ some a
    → get_elem? ds j ≡ some b
    → a < b
get_elem?-lt [] i j asc lt g h = absurd (none≢some g)
get_elem?-lt (d ∷ ds) i zero asc lt g h = absurd (omega (arith, lt))
get_elem?-lt (d ∷ ds) zero (suc j) {a} asc lt g h =
    let same : d ≡ a = some-injective g in omega (arith, same, first-lt d ds j asc h)
get_elem?-lt (d ∷ ds) (suc i) (suc j) asc lt g h =
    get_elem?-lt ds i j (tail-Ascending d ds asc) (omega (arith, lt)) g h

pub date_index-get :
    (d : ℕ) (ds : List ℕ) {i : ℕ} → date_index d ds ≡ some i → get_elem? ds i ≡ some d
unfolding date_index
date_index-get d [] e = absurd (none≢some e)
date_index-get d (f ∷ ds) {i} e = elim (Bool-cases (d == f)) [
  | inl same ↦
      let z : 0 ≡ i = some-injective (rw (same) at e) in
      let q : d ≡ f = (==_iff d f).0 same in rw (← z) (rw (q) refl)
  | inr other ↦
      let (j, e1, k) = >>=-eq-some (date_index d ds) _ (rw (other) at e) in
      let z : suc j ≡ i = some-injective k in rw (← z) (date_index-get d ds e1)
]
