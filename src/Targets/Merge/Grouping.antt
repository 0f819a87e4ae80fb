-- ===== src/Targets/Merge/Grouping.antt =====
-- The memberships of the stocks, grouped by stock, and the order of sorted lists.
use stock_center.Base.{
  ℕ, zero, suc, ◌≤◌, ◌≡◌, refl, sym, ap, ◌∙◌, Bool, true, false, List, [], ◌∷◌, ◌++◌, All,
  All-append, All-map_of, Bool-cases, if-cases, inl, inr, if◌then◌else◌, ◌&&◌, ◌||◌, any, arith,
}
use stock_center.Base.Fallible.{none≢some, some-injective}
use stock_center.Base.Slices.{Listed}
use stock_center.Base.Text.{Text, text_eq, text_eq_sound, text_eq_refl}
use stock_center.StockPool.{is_one_of}
use stock_center.Targets.{
  Pool, Membership, Grouped, add_to, add_active, in_pool, takes_part, add_pools, insert, sorted,
  member_before,
}

-- Each row's key is at most the keys behind it.
abbrev pub InOrder {ℓ} : {A : Type ℓ} → (A → ℕ) → List A → Type 0
InOrder key [] = Unit
InOrder key (x ∷ xs) = All (λ y. key x ≤ key y) xs × InOrder key xs

module _ {ℓ} {A : Type ℓ} (before : A → A → Bool) where
  pub All-insert {κ} :
      (P : A → Type κ) (x : A) (ys : List A) → P x → All P ys → All P (insert before x ys)
  unfolding insert
  All-insert P x [] h k = (h, tt)
  All-insert P x (y ∷ ys) h k = elim (Bool-cases (before x y)) [
    | inl e ↦ rw (e) (h, k)
    | inr e ↦ rw (e) (k.0, All-insert P x ys h k.1)
  ]

  pub All-sorted {κ} : (P : A → Type κ) (xs : List A) → All P xs → All P (sorted before xs)
  unfolding sorted
  All-sorted P [] h = tt
  All-sorted P (x ∷ xs) h = All-insert P x (sorted before xs) h.0 (All-sorted P xs h.1)

  module _ (key : A → ℕ) (first : (a b : A) → before a b ≡ true → key a ≤ key b)
      (second : (a b : A) → before a b ≡ false → key b ≤ key a) where
    insert-InOrder : (x : A) (ys : List A) → InOrder key ys → InOrder key (insert before x ys)
    unfolding insert
    insert-InOrder x [] h = (tt, tt)
    insert-InOrder x (y ∷ ys) h = elim (Bool-cases (before x y)) [
      | inl e ↦
          let le : key x ≤ key y = first x y e in
          rw (e) (
            (
              le,
              All-map_of (λ z. key y ≤ key z) (λ z. key x ≤ key z) (λ z k. omega (arith, le, k)) ys
                  h.0,
            ),
            h,
          )
      | inr e ↦
          rw (e) (All-insert (λ z. key y ≤ key z) x ys (second x y e) h.0, insert-InOrder x ys h.1)
    ]

    pub sorted-InOrder : (xs : List A) → InOrder key (sorted before xs)
    unfolding sorted
    sorted-InOrder [] = tt
    sorted-InOrder (x ∷ xs) = insert-InOrder x (sorted before xs) (sorted-InOrder xs)

-- The key of each stock's list, and that none of the lists is empty.
abbrev pub NonEmpty : List Membership → Type 0
NonEmpty [] = ⊥
NonEmpty (m ∷ ms) = Unit

abbrev pub Entry : (Text → Membership → Type 0) → Text × List Membership → Type 0
Entry P e = All (P e.0) e.1 × NonEmpty e.1

abbrev pub has : Text → Grouped → Bool
has code d = any (λ e. text_eq e.0 code) d

NonEmpty-append : (ms : List Membership) (m : Membership) → NonEmpty (ms ++ m ∷ [])
NonEmpty-append [] m = tt
NonEmpty-append (x ∷ ms) m = tt

module _ (P : Text → Membership → Type 0) where
  add_to-Entry :
      (code : Text) (m : Membership) (d : Grouped)
      → P code m
      → All (Entry P) d
      → All (Entry P) (add_to code m d)
  unfolding add_to
  add_to-Entry code m [] p h = (((p, tt), tt), tt)
  add_to-Entry code m ((c, ms) ∷ d) p h = elim (Bool-cases (text_eq c code)) [
    | inl e ↦
        let here : P c m = rw (text_eq_sound c code e) p in
        rw (e) ((All-append (P c) ms (m ∷ []) h.0.0 (here, tt), NonEmpty-append ms m), h.1)
    | inr e ↦ rw (e) (h.0, add_to-Entry code m d p h.1)
  ]

  pub add_active-Entry :
      (active : List Text) (m : Membership) (codes : List Text) (d : Grouped)
      → All (λ c. is_one_of active c ≡ true → P c m) codes
      → All (Entry P) d
      → All (Entry P) (add_active active m codes d)
  unfolding add_active
  add_active-Entry active m [] d p h = h
  add_active-Entry active m (c ∷ cs) d p h = elim (Bool-cases (is_one_of active c)) [
    | inl e ↦
        rw (e) (add_active-Entry active m cs (add_to c m d) p.1 (add_to-Entry c m d (p.0 e) h))
    | inr e ↦ rw (e) (add_active-Entry active m cs d p.1 h)
  ]

  pub add_pools-Entry :
      (active : List Text) (ps : List Pool) (d : Grouped)
      → All
          (λ p.
            takes_part p ≡ true
            → All (λ c. is_one_of active c ≡ true → P c (in_pool p)) p.stock_codes)
          ps
      → All (Entry P) d
      → All (Entry P) (add_pools active ps d)
  unfolding add_pools
  add_pools-Entry active [] d h k = k
  add_pools-Entry active (p ∷ ps) d h k = elim (Bool-cases (takes_part p)) [
    | inl e ↦ rw (e) (
        add_pools-Entry active ps (add_active active (in_pool p) p.stock_codes d) h.1
          (add_active-Entry active (in_pool p) p.stock_codes d (h.0 e) k))
    | inr e ↦ rw (e) (add_pools-Entry active ps d h.1 k)
  ]

NonEmpty-insert : (m : Membership) (ms : List Membership) → NonEmpty (insert member_before m ms)
unfolding insert
NonEmpty-insert m [] = tt
NonEmpty-insert m (x ∷ ms) =
    if-cases {A = List Membership} NonEmpty (member_before m x) (λ e. tt) (λ e. tt)

pub NonEmpty-sorted : (ms : List Membership) → NonEmpty ms → NonEmpty (sorted member_before ms)
unfolding sorted
NonEmpty-sorted [] h = h
NonEmpty-sorted (m ∷ ms) h = NonEmpty-insert m (sorted member_before ms)

any-insert {ℓ} :
    {A : Type ℓ} (before : A → A → Bool) (p : A → Bool) (x : A) (ys : List A)
    → any p (insert before x ys) ≡ (p x || any p ys)
unfolding insert any
any-insert before p x [] = refl
any-insert before p x (y ∷ ys) = elim (Bool-cases (before x y)) [
  | inl e ↦ rw (e) refl
  | inr e ↦ rw (e) (ground (arith, any-insert before p x ys))
]

pub any-sorted {ℓ} :
    {A : Type ℓ} (before : A → A → Bool) (p : A → Bool) (xs : List A)
    → any p (sorted before xs) ≡ any p xs
unfolding sorted any
any-sorted before p [] = refl
any-sorted before p (x ∷ xs) =
    any-insert before p x (sorted before xs) ∙ ap (λ b. p x || b) (any-sorted before p xs)

-- Each member of a list is one of its members.
pub own_codes : (codes : List Text) → All (λ c. is_one_of codes c ≡ true) codes
unfolding is_one_of any
own_codes [] = tt
own_codes (c ∷ cs) = (
  ground (arith, text_eq_refl c),
  All-map_of (λ d. is_one_of cs d ≡ true) (λ d. is_one_of (c ∷ cs) d ≡ true)
      (λ d k. ground (arith, k)) cs (own_codes cs),
)

pub All-Listed {ℓ} : {A : Type ℓ} (xs : List A) → All (λ x. Listed x xs) xs
All-Listed [] = tt
All-Listed (x ∷ xs) = (
  (0, refl),
  All-map_of (λ y. Listed y xs) (λ y. Listed y (x ∷ xs)) (λ y (i, e). (suc i, e)) xs
      (All-Listed xs),
)

has-add_to :
    (code c : Text) (m : Membership) (d : Grouped)
    → has c (add_to code m d) ≡ (text_eq code c || has c d)
unfolding add_to any
has-add_to code c m [] = refl
has-add_to code c m ((k, ms) ∷ d) = elim (Bool-cases (text_eq k code)) [
  | inl e ↦
      let same : text_eq k c ≡ text_eq code c =
        ap (λ (x : Text). text_eq x c) (text_eq_sound k code e) in
      rw (e) (ground (arith, same))
  | inr e ↦ rw (e) (ground (arith, has-add_to code c m d))
]

pub has-add_active :
    (active : List Text) (m : Membership) (codes : List Text) (c : Text) (d : Grouped)
    → has c (add_active active m codes d) ≡ (has c d || (is_one_of active c && is_one_of codes c))
unfolding add_active is_one_of any
has-add_active active m [] c d = ground arith
has-add_active active m (x ∷ xs) c d = elim (Bool-cases (is_one_of active x)) [
  | inl e ↦ rw (e) (elim (Bool-cases (text_eq x c)) [
    | inl k ↦
        let there : is_one_of active c ≡ true =
          ap (is_one_of active) (sym (text_eq_sound x c k)) ∙ e in
        ground (arith, k, there, has-add_active active m xs c (add_to x m d), has-add_to x c m d)
    | inr k ↦ ground (arith, k, has-add_active active m xs c (add_to x m d), has-add_to x c m d)
  ])
  | inr e ↦ rw (e) (elim (Bool-cases (text_eq x c)) [
    | inl k ↦
        let absent : is_one_of active c ≡ false =
          ap (is_one_of active) (sym (text_eq_sound x c k)) ∙ e in
        ground (arith, k, absent, has-add_active active m xs c d)
    | inr k ↦ ground (arith, k, has-add_active active m xs c d)
  ])
]

has_stays :
    (active : List Text) (ps : List Pool) (c : Text) (d : Grouped)
    → has c d ≡ true
    → has c (add_pools active ps d) ≡ true
unfolding add_pools
has_stays active [] c d h = h
has_stays active (p ∷ ps) c d h = elim (Bool-cases (takes_part p)) [
  | inl e ↦ rw (e) (
      has_stays active ps c (add_active active (in_pool p) p.stock_codes d)
        (ground (arith, h, has-add_active active (in_pool p) p.stock_codes c d)))
  | inr e ↦ rw (e) (has_stays active ps c d h)
]

pub has-add_pools :
    (active : List Text) (ps : List Pool) (p : Pool) (c : Text) (d : Grouped)
    → Listed p ps
    → takes_part p ≡ true
    → is_one_of p.stock_codes c ≡ true
    → is_one_of active c ≡ true
    → has c (add_pools active ps d) ≡ true
unfolding add_pools
has-add_pools active [] p c d (i, e) part member live = absurd (none≢some e)
has-add_pools active (q ∷ ps) p c d (zero, e) part member live =
    let same : q ≡ p = some-injective e in
    rw (same) (
      simp (part) (
        has_stays active ps c (add_active active (in_pool p) p.stock_codes d)
          (ground (arith, member, live, has-add_active active (in_pool p) p.stock_codes c d))))
has-add_pools active (q ∷ ps) p c d (suc i, e) part member live =
    has-add_pools active ps p c
      (if takes_part q then add_active active (in_pool q) q.stock_codes d else d) (i, e) part member
      live
