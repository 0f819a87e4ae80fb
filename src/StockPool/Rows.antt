-- ===== src/StockPool/Rows.antt =====
-- Rows that differ in a key, and searches for them: after a row is added, some are taken out, or some are
-- changed.
use stock_center.Base.{
  ◌≡◌, ◌⊎◌, refl, sym, ◌∙◌, Bool, true, false, not, none, some, List, [], ◌∷◌, ◌++◌, All,
  All-append, Bool-cases, inl, inr, ◌&&◌, any, select, arith, All-map_of,
}
use stock_center.Base.Fallible.{some-injective, none≢some}
use stock_center.Scheduler.Store.{find, update_where}

module _ {ℓ} {A : Type ℓ} where
  pub List-cases : (xs : List A) → (xs ≡ []) ⊎ ((x : A) × (ys : List A) × (xs ≡ x ∷ ys))
  List-cases [] = inl refl
  List-cases (x ∷ xs) = inr (x, xs, refl)

  -- No two rows have the same key.
  abbrev pub Distinct : (A → A → Bool) → List A → Type 0
  Distinct same [] = Unit
  Distinct same (x ∷ xs) = All (λ y. same x y ≡ false) xs × Distinct same xs

  pub All-select {κ} :
      (P : A → Type κ) (q : A → Bool) (xs : List A) → All P xs → All P (select q xs)
  unfolding select
  All-select P q [] h = tt
  All-select P q (x ∷ xs) h = elim (Bool-cases (q x)) [
    | inl e ↦ rw (e) (h.0, All-select P q xs h.1)
    | inr e ↦ rw (e) (All-select P q xs h.1)
  ]

  -- What is taken is tested.
  pub All-select_test : (q : A → Bool) (xs : List A) → All (λ x. q x ≡ true) (select q xs)
  unfolding select
  All-select_test q [] = tt
  All-select_test q (x ∷ xs) = elim (Bool-cases (q x)) [
    | inl e ↦ rw (e) (e, All-select_test q xs)
    | inr e ↦ rw (e) (All-select_test q xs)
  ]

  pub All-both {κ μ ν} :
      (P : A → Type κ) (Q : A → Type μ) (R : A → Type ν)
      → ((a : A) → P a → Q a → R a)
      → (xs : List A) → All P xs
      → All Q xs
      → All R xs
  All-both P Q R f [] h k = tt
  All-both P Q R f (x ∷ xs) h k = (f x h.0 k.0, All-both P Q R f xs h.1 k.1)

  pub find-none : (p : A → Bool) (xs : List A) → find p xs ≡ none → All (λ x. p x ≡ false) xs
  unfolding find
  find-none p [] h = tt
  find-none p (x ∷ xs) h = elim (Bool-cases (p x)) [
    | inl e ↦ absurd (none≢some (sym (rw (e) at h)))
    | inr e ↦ (e, find-none p xs (rw (e) at h))
  ]

  pub none_of : (p : A → Bool) (xs : List A) → any p xs ≡ false → All (λ x. p x ≡ false) xs
  unfolding any
  none_of p [] h = tt
  none_of p (x ∷ xs) h = elim (Bool-cases (p x)) [
    | inl e ↦ absurd (ground (arith, e, h))
    | inr e ↦ (e, none_of p xs (ground (arith, e, h)))
  ]

  pub none_left :
      (p : A → Bool) (xs : List A) → select (λ x. not (p x)) xs ≡ [] → All (λ x. p x ≡ true) xs
  unfolding select
  none_left p [] h = tt
  none_left p (x ∷ xs) h = elim (Bool-cases (p x)) [
    | inl e ↦ (e, none_left p xs (rw (e) at h))
    | inr e ↦ absurd (ground (arith, e, h))
  ]

  pub find-append :
      (p : A → Bool) (xs ys : List A) {a : A} → find p xs ≡ some a → find p (xs ++ ys) ≡ some a
  unfolding find
  find-append p [] ys h = absurd (none≢some h)
  find-append p (x ∷ xs) ys h = elim (Bool-cases (p x)) [
    | inl e ↦ rw (e) (rw (e) at h)
    | inr e ↦ rw (e) (find-append p xs ys (rw (e) at h))
  ]

  pub find-append_none :
      (p : A → Bool) (xs ys : List A) → All (λ x. p x ≡ false) xs → find p (xs ++ ys) ≡ find p ys
  unfolding find
  find-append_none p [] ys h = refl
  find-append_none p (x ∷ xs) ys h = rw (h.0) (find-append_none p xs ys h.1)

  -- The row that is found is still found when rows that are not it are taken out.
  pub find-select :
      (p q : A → Bool) (xs : List A) {a : A}
      → find p xs ≡ some a
      → q a ≡ true
      → find p (select q xs) ≡ some a
  unfolding find select
  find-select p q [] h k = absurd (none≢some h)
  find-select p q (x ∷ xs) {a} h k = elim (Bool-cases (p x)) [
    | inl e ↦
        let same : x ≡ a = some-injective (rw (e) at h) in
        rw (same) (rw (k) (rw (← same) (rw (e) refl)))
    | inr e ↦ elim (Bool-cases (q x)) [
      | inl taken ↦ rw (taken) (rw (e) (find-select p q xs (rw (e) at h) k))
      | inr out ↦ rw (out) (find-select p q xs (rw (e) at h) k)
    ]
  ]

  pub find-any :
      (p q : A → Bool) (xs : List A) {a : A}
      → find p xs ≡ some a
      → any (λ x. q x && p x) xs ≡ false
      → q a ≡ false
  unfolding find any
  find-any p q [] h k = absurd (none≢some h)
  find-any p q (x ∷ xs) {a} h k = elim (Bool-cases (p x)) [
    | inl e ↦ let same : x ≡ a = some-injective (rw (e) at h) in rw (← same) (ground (arith, e, k))
    | inr e ↦ find-any p q xs (rw (e) at h) (ground (arith, e, k))
  ]

  -- What holds of all rows holds of the one that is found.
  pub find-holds {κ} :
      (P : A → Type κ) (p : A → Bool) (xs : List A) {a : A} → All P xs → find p xs ≡ some a → P a
  unfolding find
  find-holds P p [] all h = absurd (none≢some h)
  find-holds P p (x ∷ xs) {a} all h = elim (Bool-cases (p x)) [
    | inl e ↦ let q : x ≡ a = some-injective (rw (e) at h) in rw (← q) all.0
    | inr e ↦ find-holds P p xs all.1 (rw (e) at h)
  ]

  -- Under distinct keys, a row that is found by one test is found by its key.
  pub find-Distinct :
      (same : A → A → Bool) (p : A → Bool) (xs : List A) {a : A}
      → same a a ≡ true
      → Distinct same xs
      → find p xs ≡ some a
      → find (λ x. same x a) xs ≡ some a
  unfolding find
  find-Distinct same p [] itself d h = absurd (none≢some h)
  find-Distinct same p (x ∷ xs) {a} itself d h = elim (Bool-cases (p x)) [
    | inl e ↦ let q : x ≡ a = some-injective (rw (e) at h) in rw (q) (rw (itself) refl)
    | inr e ↦
        let later : find p xs ≡ some a = rw (e) at h in
        rw (find-holds (λ y. same x y ≡ false) p xs d.0 later)
          (find-Distinct same p xs itself d.1 later)
  ]

  pub find-test : (p : A → Bool) (xs : List A) {a : A} → find p xs ≡ some a → p a ≡ true
  unfolding find
  find-test p [] h = absurd (none≢some h)
  find-test p (x ∷ xs) {a} h = elim (Bool-cases (p x)) [
    | inl e ↦ let q : x ≡ a = some-injective (rw (e) at h) in rw (← q) e
    | inr e ↦ find-test p xs (rw (e) at h)
  ]

  pub Distinct-append :
      (same : A → A → Bool) (xs : List A) (y : A)
      → Distinct same xs
      → All (λ x. same x y ≡ false) xs
      → Distinct same (xs ++ y ∷ [])
  Distinct-append same [] y d h = (tt, tt)
  Distinct-append same (x ∷ xs) y d h =
      (All-append _ xs (y ∷ []) d.0 (h.0, tt), Distinct-append same xs y d.1 h.1)

  pub Distinct-select :
      (same : A → A → Bool) (q : A → Bool) (xs : List A)
      → Distinct same xs
      → Distinct same (select q xs)
  unfolding select
  Distinct-select same q [] d = tt
  Distinct-select same q (x ∷ xs) d = elim (Bool-cases (q x)) [
    | inl e ↦ rw (e) (All-select _ q xs d.0, Distinct-select same q xs d.1)
    | inr e ↦ rw (e) (Distinct-select same q xs d.1)
  ]

  -- A change that keeps the key.
  module _ (same : A → A → Bool) (p : A → Bool) (f : A → A)
      (left : (a b : A) → same (f a) b ≡ same a b)
      (right : (a b : A) → same a (f b) ≡ same a b) where
    apart :
        (a : A) (xs : List A)
        → All (λ y. same a y ≡ false) xs
        → All (λ y. same a y ≡ false) (update_where p f xs)
    unfolding update_where
    apart a [] h = tt
    apart a (x ∷ xs) h = elim (Bool-cases (p x)) [
      | inl e ↦ rw (e) (right a x ∙ h.0, apart a xs h.1)
      | inr e ↦ rw (e) (h.0, apart a xs h.1)
    ]

    pub Distinct-update_where :
        (xs : List A) → Distinct same xs → Distinct same (update_where p f xs)
    unfolding update_where
    Distinct-update_where [] d = tt
    Distinct-update_where (x ∷ xs) d = elim (Bool-cases (p x)) [
      | inl e ↦ rw (e) (
        All-map_of (λ y. same x y ≡ false) (λ y. same (f x) y ≡ false) (λ y k. left x y ∙ k)
            (update_where p f xs) (apart x xs d.0),
        Distinct-update_where xs d.1,
      )
      | inr e ↦ rw (e) (apart x xs d.0, Distinct-update_where xs d.1)
    ]

  -- Under distinct keys, the row that is found by a test is the only one with its key.
  pub find_only :
      (same : A → A → Bool) (p : A → Bool) (xs : List A) {a : A}
      → ((x y : A) → same x y ≡ same y x)
      → Distinct same xs
      → find p xs ≡ some a
      → All (λ x. same x a ≡ true → x ≡ a) xs
  unfolding find
  find_only same p [] flip d h = absurd (none≢some h)
  find_only same p (x ∷ xs) {a} flip d h = elim (Bool-cases (p x)) [
    | inl e ↦
        let first : x ≡ a = some-injective (rw (e) at h) in
        (
          λ k. first,
          All-map_of (λ y. same x y ≡ false) (λ y. same y a ≡ true → y ≡ a)
              (λ y apart k. absurd (
                let no : same y x ≡ true = rw (first) k in
                let yes = flip x y in ground (arith, apart, no, yes)))
              xs d.0,
        )
    | inr e ↦
        let later : find p xs ≡ some a = rw (e) at h in
        (
          λ k.
              absurd (
                let no = find-holds (λ y. same x y ≡ false) p xs d.0 later in
                ground (arith, no, k)),
          find_only same p xs flip d.1 later,
        )
  ]
