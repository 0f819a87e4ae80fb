-- ===== src/Scheduler/Store/Rows.antt =====
-- What an update of the rows that pass a test does to a later search.
use stock_center.Base.{
  ◌≡◌, refl, Bool, true, false, none, some, List, [], ◌∷◌, All, Bool-cases, inl, inr, if◌then◌else◌,
}
use stock_center.Base.Fallible.{some-injective}
use stock_center.Scheduler.Store.{find, update_where}

module _ {ℓ} {A : Type ℓ} (p : A → Bool) (f : A → A) where
  pub find-update_where_self :
      ((a : A) → p (f a) ≡ p a)
      → (xs : List A)
      → find p (update_where p f xs) ≡ elim (find p xs) [ none ↦ none | some a ↦ some (f a) ]
  unfolding find update_where
  find-update_where_self keeps [] = refl
  find-update_where_self keeps (x ∷ xs) = elim (Bool-cases (p x)) [
    | inl e ↦ rw (e) (rw (keeps x, e))
    | inr e ↦ rw (e) (rw (e) (find-update_where_self keeps xs))
  ]

  -- A search by one test over an update by another.
  pub find-update_where :
      (q : A → Bool)
      → ((a : A) → p (f a) ≡ p a)
      → (xs : List A) {a : A} → find p xs ≡ some a
      → find p (update_where q f xs) ≡ some (if q a then f a else a)
  unfolding find update_where
  find-update_where q keeps [] h = cc
  find-update_where q keeps (x ∷ xs) {a} h = elim (Bool-cases (p x)) [
    | inl e ↦
        let same : x ≡ a = some-injective (rw (e) at h) in
        rw (← same) (elim (Bool-cases (q x)) [
          | inl k ↦ rw (k) (rw (keeps x, e) refl)
          | inr k ↦ rw (k) (rw (e) refl)
        ])
    | inr e ↦
        let rest : find p xs ≡ some a = rw (e) at h in
        elim (Bool-cases (q x)) [
          | inl k ↦ rw (k) (rw (keeps x, e) (find-update_where q keeps xs rest))
          | inr k ↦ rw (k) (rw (e) (find-update_where q keeps xs rest))
        ]
  ]

  pub find-update_where_other :
      (q : A → Bool)
      → ((a : A) → p a ≡ true → q a ≡ false)
      → ((a : A) → p a ≡ true → q (f a) ≡ false)
      → (xs : List A) → find q (update_where p f xs) ≡ find q xs
  unfolding find update_where
  find-update_where_other q misses misses_after [] = refl
  find-update_where_other q misses misses_after (x ∷ xs) = elim (Bool-cases (p x)) [
    | inl e ↦
        rw (e)
          (rw (misses x e, misses_after x e) (find-update_where_other q misses misses_after xs))
    | inr e ↦ rw (e) (rw (find-update_where_other q misses misses_after xs))
  ]

  -- What holds of every row, and of every changed row, holds after the update.
  pub All-update_where :
      (P : A → Type 0)
      → ((a : A) → P a → p a ≡ true → P (f a))
      → (xs : List A) → All P xs
      → All P (update_where p f xs)
  unfolding update_where
  All-update_where P step [] h = tt
  All-update_where P step (x ∷ xs) h = elim (Bool-cases (p x)) [
    | inl e ↦ rw (e) (step x h.0 e, All-update_where P step xs h.1)
    | inr e ↦ rw (e) (h.0, All-update_where P step xs h.1)
  ]
