-- ===== src/Optimization/Split.antt =====
-- The split is in time, and both of its sides have trades.
use stock_center.Base.{
  ℕ, zero, suc, ◌+◌, ◌≤◌, ◌<◌, ◌≡◌, refl, none, some, List, [], ◌∷◌, arith, ltb, ◌==◌, All, select,
  length, get_elem?, Bool-cases, inl, inr, ◌⊎◌,
}
use stock_center.Optimization.{
  OptimizationRequirements, Trade, add_date, signal_dates, train_index, split_train_end_date,
  train_of, validation_of,
}

-- Dates that rise.
abbrev Rising : List ℕ → Type 0
Rising [] = Unit
Rising (d ∷ ds) = All (λ e. d < e) ds × Rising ds

All-above : (d e : ℕ) (ds : List ℕ) → d < e → All (λ x. e < x) ds → All (λ x. d < x) ds
All-above d e [] h k = tt
All-above d e (x ∷ xs) h k = (omega (arith, k.0), All-above d e xs h k.1)

All-add_date : (P : ℕ → Type 0) (d : ℕ) (ds : List ℕ) → P d → All P ds → All P (add_date d ds)
unfolding add_date
All-add_date P d [] p h = (p, tt)
All-add_date P d (e ∷ es) p h = elim (Bool-cases (ltb d e)) [
  | inl a ↦ rw (a) (p, h)
  | inr a ↦ rw (a) (elim (Bool-cases (d == e)) [
    | inl b ↦ rw (b) h
    | inr b ↦ rw (b) (h.0, All-add_date P d es p h.1)
  ])
]

add_date-Rising : (d : ℕ) (ds : List ℕ) → Rising ds → Rising (add_date d ds)
unfolding add_date
add_date-Rising d [] h = (tt, tt)
add_date-Rising d (e ∷ es) h = elim (Bool-cases (ltb d e)) [
  | inl a ↦ let less : d < e = ground arith in rw (a) ((less, All-above d e es less h.0), h)
  | inr a ↦ rw (a) (elim (Bool-cases (d == e)) [
    | inl b ↦ rw (b) h
    | inr b ↦
        let more : e < d = ground arith in
        rw (b) (All-add_date (λ x. e < x) d es more h.0, add_date-Rising d es h.1)
  ])
]

signal_dates-Rising : (ts : List Trade) → Rising (signal_dates ts)
unfolding signal_dates
signal_dates-Rising [] = tt
signal_dates-Rising (t ∷ ts) =
    add_date-Rising t.signal_trade_date (signal_dates ts) (signal_dates-Rising ts)

-- Some trade of the list has the property.
abbrev pub Some : (Trade → Type 0) → List Trade → Type 0
Some P [] = ⊥
Some P (t ∷ ts) = P t ⊎ Some P ts

add_date-member :
    (d i x : ℕ) (ds : List ℕ)
    → get_elem? (add_date d ds) i ≡ some x
    → (x ≡ d) ⊎ ((j : ℕ) × (get_elem? ds j ≡ some x))
unfolding add_date
add_date-member d zero x [] h = inl cc
add_date-member d (suc i) x [] h = cc
add_date-member d i x (e ∷ es) h = elim (Bool-cases (ltb d e)) [
  | inl a ↦ first i (rw (a) at h)
  | inr a ↦ elim (Bool-cases (d == e)) [
    | inl b ↦ inr (i, rw (a, b) at h)
    | inr b ↦ later i (λ j. add_date-member d j x es) (rw (a, b) at h)
  ]
]
  where
    first :
        (i : ℕ)
        → get_elem? (d ∷ e ∷ es) i ≡ some x
        → (x ≡ d) ⊎ ((j : ℕ) × (get_elem? (e ∷ es) j ≡ some x))
    first zero q = inl cc
    first (suc i) q = inr (i, q)

    later :
        (i : ℕ)
        → ((i : ℕ)
            → get_elem? (add_date d es) i ≡ some x
            → (x ≡ d) ⊎ ((j : ℕ) × (get_elem? es j ≡ some x)))
        → get_elem? (e ∷ add_date d es) i ≡ some x
        → (x ≡ d) ⊎ ((j : ℕ) × (get_elem? (e ∷ es) j ≡ some x))
    later zero member q = inr (zero, q)
    later (suc i) member q = elim (member i q) [ inl a ↦ inl a | inr (j, b) ↦ inr (suc j, b) ]

signal_dates-member :
    (ts : List Trade) (i x : ℕ)
    → get_elem? (signal_dates ts) i ≡ some x
    → Some (λ t. x ≡ t.signal_trade_date) ts
unfolding signal_dates
signal_dates-member [] i x h = cc
signal_dates-member (t ∷ ts) i x h =
    elim (add_date-member t.signal_trade_date i x (signal_dates ts) h) [
      | inl e ↦ inl e
      | inr (j, e) ↦ inr (signal_dates-member ts j x e)
    ]

get_elem-All : (P : ℕ → Type 0) (ds : List ℕ) (i x : ℕ) → All P ds → get_elem? ds i ≡ some x → P x
get_elem-All P [] i x h e = cc
get_elem-All P (d ∷ ds) zero x h e = let p : d ≡ x = cc in rw (← p) h.0
get_elem-All P (d ∷ ds) (suc i) x h e = get_elem-All P ds i x h.1 e

-- In rising dates the next one is later.
next_later :
    (ds : List ℕ) (i x y : ℕ)
    → Rising ds
    → get_elem? ds i ≡ some x
    → get_elem? ds (suc i) ≡ some y
    → x < y
next_later [] i x y h a b = cc
next_later (d ∷ ds) zero x y h a b =
    let p : d ≡ x = cc in rw (← p) (get_elem-All (λ e. d < e) ds zero y h.0 b)
next_later (d ∷ ds) (suc i) x y h a b = next_later ds i x y h.1 a b

get_elem-exists : (ds : List ℕ) (i : ℕ) → i < length ds → (x : ℕ) × (get_elem? ds i ≡ some x)
get_elem-exists [] i h = absurd (omega arith)
get_elem-exists (d ∷ ds) zero h = (d, refl)
get_elem-exists (d ∷ ds) (suc i) h = get_elem-exists ds i (omega arith)

train_side :
    (end_date : ℕ) (ts : List Trade)
    → Some (λ t. end_date ≡ t.signal_trade_date) ts
    → 0 < length (train_of end_date ts)
unfolding select
train_side end_date [] h = absurd h
train_side end_date (t ∷ ts) (inl e) = ground arith
train_side end_date (t ∷ ts) (inr m) = ground (arith, train_side end_date ts m)

validation_side :
    (end_date later : ℕ) (ts : List Trade)
    → end_date < later
    → Some (λ t. later ≡ t.signal_trade_date) ts
    → 0 < length (validation_of end_date ts)
unfolding select
validation_side end_date later [] l h = absurd h
validation_side end_date later (t ∷ ts) l (inl e) = ground arith
validation_side end_date later (t ∷ ts) l (inr m) =
    ground (arith, validation_side end_date later ts l m)

sides-add :
    (end_date : ℕ) (ts : List Trade)
    → length (train_of end_date ts) + length (validation_of end_date ts) ≡ length ts
unfolding select
sides-add end_date [] = omega arith
sides-add end_date (t ∷ ts) = ground (arith, sides-add end_date ts)

-- Where a split date is found and the requirements ask for two signal dates in all, every trade lies on
-- exactly one side of it, and there are trades on both.
pub split_train_end_date-sides :
    (trades : List Trade) (r : OptimizationRequirements) (end_date : ℕ)
    → split_train_end_date trades r ≡ some end_date
    → 2 ≤ r.min_train_signal_days + r.min_validation_signal_days
    → (0 < length (train_of end_date trades))
      × (0 < length (validation_of end_date trades))
      × (length (train_of end_date trades) + length (validation_of end_date trades) ≡ length trades)
unfolding split_train_end_date
split_train_end_date-sides trades r end_date h two =
    let dates = signal_dates trades in
    elim (Bool-cases
      (ltb (length dates) (r.min_train_signal_days + r.min_validation_signal_days))) [
        | inl e ↦ absurd (let k : none ≡ some end_date = rw (e) at h in cc)
        | inr e ↦
            let picked : get_elem? dates (train_index (length dates) r) ≡ some end_date =
              rw (e) at h in
            let enough : 2 ≤ length dates = ground arith in
            let (later, next) =
              get_elem-exists dates (suc (train_index (length dates) r)) (omega arith) in
            let rises =
              next_later dates (train_index (length dates) r) end_date later
                (signal_dates-Rising trades) picked next in
            (
              train_side end_date trades
                  (signal_dates-member trades (train_index (length dates) r) end_date picked),
              validation_side end_date later trades rises
                  (signal_dates-member trades (suc (train_index (length dates) r)) later next),
              sides-add end_date trades,
            )
      ]
