-- ===== src/Base/Slices.antt =====
-- Where the members of slices and of joined lists stand.
use Prim.Native.Nat.{ℕ, zero, suc, ◌+◌, ◌-◌, ◌≤◌, ◌<◌, min}
use mathlib.Core.Path.{◌≡◌, refl, sym, ◌∙◌}
use mathlib.Core.Logic.{◌⊎◌, inl, inr}
use mathlib.Core.Bool.{Bool, true}
use mathlib.Core.Option.{some}
use mathlib.Core.List.{List, [], ◌∷◌, ◌++◌}
use native.Mathlib.Omega.{arith}
use stock_center.Base.Fallible.{none≢some, some-injective}
use stock_center.Base.Lists.{length, get_elem?, take, drop, select, any}
use stock_center.Base.Tests.{Bool-cases}

module _ {ℓ} {A : Type ℓ} where
  pub length-take : (n : ℕ) (xs : List A) → length (take n xs) ≡ min n (length xs)
  unfolding take
  length-take zero xs = omega arith
  length-take (suc n) [] = omega arith
  length-take (suc n) (x ∷ xs) = omega (arith, length-take n xs)

  pub length-drop : (n : ℕ) (xs : List A) → length (drop n xs) ≡ length xs - n
  unfolding drop
  length-drop zero xs = omega arith
  length-drop (suc n) [] = omega arith
  length-drop (suc n) (x ∷ xs) = omega (arith, length-drop n xs)

  pub get_elem?-take : (n i : ℕ) (xs : List A) → i < n → get_elem? (take n xs) i ≡ get_elem? xs i
  unfolding take
  get_elem?-take zero i xs h = absurd (omega (arith, h))
  get_elem?-take (suc n) i [] h = refl
  get_elem?-take (suc n) zero (x ∷ xs) h = refl
  get_elem?-take (suc n) (suc i) (x ∷ xs) h = get_elem?-take n i xs (omega (arith, h))

  pub get_elem?-drop : (n i : ℕ) (xs : List A) → get_elem? (drop n xs) i ≡ get_elem? xs (n + i)
  unfolding drop
  get_elem?-drop zero i xs = ground arith
  get_elem?-drop (suc n) i [] = refl
  get_elem?-drop (suc n) i (x ∷ xs) = ground (arith, get_elem?-drop n i xs)

  pub get_elem?-append_left :
      (xs ys : List A) (i : ℕ) → i < length xs → get_elem? (xs ++ ys) i ≡ get_elem? xs i
  get_elem?-append_left [] ys i h = absurd (omega (arith, h))
  get_elem?-append_left (x ∷ xs) ys zero h = refl
  get_elem?-append_left (x ∷ xs) ys (suc i) h = get_elem?-append_left xs ys i (omega (arith, h))

  pub get_elem?-append_right :
      (xs ys : List A) (i : ℕ) → get_elem? (xs ++ ys) (length xs + i) ≡ get_elem? ys i
  get_elem?-append_right [] ys i = ground arith
  get_elem?-append_right (x ∷ xs) ys i = ground (arith, get_elem?-append_right xs ys i)

  -- An index with a member is below the length.
  pub get_elem?-lt : (xs : List A) (i : ℕ) {x : A} → get_elem? xs i ≡ some x → i < length xs
  get_elem?-lt [] i h = absurd (none≢some h)
  get_elem?-lt (x ∷ xs) zero h = omega arith
  get_elem?-lt (x ∷ xs) (suc i) h = omega (arith, get_elem?-lt xs i h)

  pub take_whole : (n : ℕ) (xs : List A) → length xs ≤ n → take n xs ≡ xs
  unfolding take
  take_whole zero [] h = refl
  take_whole zero (x ∷ xs) h = absurd (omega (arith, h))
  take_whole (suc n) [] h = refl
  take_whole (suc n) (x ∷ xs) h = ground (arith, take_whole n xs (omega (arith, h)))

  -- What is taken out of a part is taken out of the whole.
  pub taken_from : (p q : A → Bool) (xs : List A) → any p (select q xs) ≡ true → any p xs ≡ true
  unfolding any select
  taken_from p q [] h = h
  taken_from p q (x ∷ xs) h = ground (arith, taken_from p q xs)

  -- A member of a slice, or of a part, is a member of the whole.
  abbrev pub Listed : A → List A → Type ℓ
  Listed x xs = (i : ℕ) × (get_elem? xs i ≡ some x)

  pub Listed-take : (n : ℕ) (xs : List A) {x : A} → Listed x (take n xs) → Listed x xs
  unfolding take
  Listed-take zero xs (i, e) = absurd (none≢some e)
  Listed-take (suc n) [] (i, e) = absurd (none≢some e)
  Listed-take (suc n) (y ∷ xs) (zero, e) = (zero, e)
  Listed-take (suc n) (y ∷ xs) (suc i, e) = let (j, k) = Listed-take n xs (i, e) in (suc j, k)

  pub Listed-drop : (n : ℕ) (xs : List A) {x : A} → Listed x (drop n xs) → Listed x xs
  Listed-drop n xs (i, e) = (n + i, sym (get_elem?-drop n i xs) ∙ e)

  Listed-cons :
      (x y : A) (xs ys : List A) (i : ℕ)
      → (Listed x xs → Listed x ys)
      → get_elem? (y ∷ xs) i ≡ some x
      → Listed x (y ∷ ys)
  Listed-cons x y xs ys zero f e = (zero, e)
  Listed-cons x y xs ys (suc i) f e = let (j, k) = f (i, e) in (suc j, k)

  pub Listed-select : (p : A → Bool) (xs : List A) (x : A) → Listed x (select p xs) → Listed x xs
  unfolding select
  Listed-select p [] x (i, e) = absurd (none≢some e)
  Listed-select p (y ∷ xs) x (i, e) = elim (Bool-cases (p y)) [
    | inr out ↦ let (j, k) = Listed-select p xs x (i, rw (out) at e) in (suc j, k)
    | inl taken ↦ Listed-cons x y (select p xs) xs i (Listed-select p xs x) (rw (taken) at e)
  ]

  pub Listed-append : (xs ys : List A) {x : A} → Listed x (xs ++ ys) → Listed x xs ⊎ Listed x ys
  Listed-append [] ys h = inr h
  Listed-append (y ∷ xs) ys (zero, e) = inl (zero, e)
  Listed-append (y ∷ xs) ys (suc i, e) = elim (Listed-append xs ys (i, e)) [
    | inl (j, k) ↦ inl (suc j, k)
    | inr h ↦ inr h
  ]

  pub Listed-select_of :
      (p : A → Bool) (xs : List A) (i : ℕ) {x : A}
      → get_elem? xs i ≡ some x
      → p x ≡ true
      → Listed x (select p xs)
  unfolding select
  Listed-select_of p [] i e t = absurd (none≢some e)
  Listed-select_of p (y ∷ xs) zero e t =
      let same : y ≡ _ = some-injective e in rw (same) (rw (t) (0, refl))
  Listed-select_of p (y ∷ xs) (suc i) e t =
      let (j, k) = Listed-select_of p xs i e t in
      elim (Bool-cases (p y)) [ inl taken ↦ rw (taken) (suc j, k) | inr out ↦ rw (out) (j, k) ]

  pub Listed-split :
      (n : ℕ) (xs : List A) (i : ℕ) {x : A}
      → get_elem? xs i ≡ some x
      → Listed x (take n xs) ⊎ Listed x (drop n xs)
  unfolding take drop
  Listed-split zero xs i e = inr (i, e)
  Listed-split (suc n) [] i e = absurd (none≢some e)
  Listed-split (suc n) (y ∷ xs) zero e = inl (0, e)
  Listed-split (suc n) (y ∷ xs) (suc i) e = elim (Listed-split n xs i e) [
    | inl (j, k) ↦ inl (suc j, k)
    | inr h ↦ inr h
  ]

  pub Listed-append_left : (xs ys : List A) {x : A} → Listed x xs → Listed x (xs ++ ys)
  Listed-append_left xs ys (i, e) = (i, get_elem?-append_left xs ys i (get_elem?-lt xs i e) ∙ e)

  pub Listed-append_right : (xs ys : List A) {x : A} → Listed x ys → Listed x (xs ++ ys)
  Listed-append_right xs ys (i, e) = (length xs + i, get_elem?-append_right xs ys i ∙ e)
