-- ===== src/Tokens/Available.antt =====
-- Which values a call may use, and in which order.
use stock_center.Base.{
  ℕ, ◌≡◌, refl, ap, ◌∙◌, Bool, true, false, List, [], ◌∷◌, map, arith, ◌==◌, if◌then◌else◌, ◌&&◌,
  ◌||◌, All, String, str_eq, select, Bool-cases, inl, inr,
}
use stock_center.Scheduler.Store.{update_where}
use stock_center.Tokens.{
  ConfigValue, is_active, is_cooling, null_or_past, past, available, goes_before, insert, order_by,
  list_values, release_expired_cooldowns, released,
}

-- A value is usable when it is enabled, and active with no cooldown left or in a cooldown that is over.
abbrev pub usable : ℕ → ConfigValue → Bool
usable now v =
    v.is_enabled
    && ((is_cooling v.status && past now v.cooldown_until)
        || (is_active v.status && null_or_past now v.cooldown_until))

available-released :
    (now : ℕ) (v : ConfigValue)
    → available now (if is_cooling v.status && past now v.cooldown_until then released now v else v)
      ≡ usable now v
available-released now v = elim (Bool-cases (is_cooling v.status && past now v.cooldown_until)) [
  | inl e ↦ rw (e) refl
  | inr e ↦ rw (e) refl
]

-- After the expired cooldowns are released, exactly the usable values are available: the enabled ones
-- that were in a cooldown that is over, or are active with no cooldown left. Invalid and disabled
-- values stay unavailable.
pub available-release_expired_cooldowns :
    (now : ℕ) (values : List ConfigValue)
    → map (available now) (release_expired_cooldowns now values) ≡ map (usable now) values
unfolding release_expired_cooldowns update_where
available-release_expired_cooldowns now [] = refl
available-release_expired_cooldowns now (v ∷ vs) =
    ap (λ b. b ∷ map (available now) (release_expired_cooldowns now vs)) (available-released now v)
    ∙ ap (λ bs. usable now v ∷ bs) (available-release_expired_cooldowns now vs)

abbrev pub Ordered : List ConfigValue → Type 0
Ordered [] = Unit
Ordered (v ∷ vs) = All (λ w. goes_before v w ≡ true) vs × Ordered vs

goes_before_total : (a b : ConfigValue) → goes_before a b ≡ false → goes_before b a ≡ true
unfolding goes_before
goes_before_total a b h = ground arith

goes_before_trans :
    (a b c : ConfigValue) → goes_before a b ≡ true → goes_before b c ≡ true → goes_before a c ≡ true
unfolding goes_before
goes_before_trans a b c h k = ground arith

All-weaken :
    (a b : ConfigValue) (vs : List ConfigValue)
    → goes_before a b ≡ true
    → All (λ w. goes_before b w ≡ true) vs
    → All (λ w. goes_before a w ≡ true) vs
All-weaken a b [] h k = tt
All-weaken a b (v ∷ vs) h k = (goes_before_trans a b v h k.0, All-weaken a b vs h k.1)

All-insert :
    (P : ConfigValue → Type 0) (v : ConfigValue) (vs : List ConfigValue)
    → P v
    → All P vs
    → All P (insert v vs)
unfolding insert
All-insert P v [] p h = (p, tt)
All-insert P v (w ∷ ws) p h = elim (Bool-cases (goes_before v w)) [
  | inl e ↦ rw (e) (p, h)
  | inr e ↦ rw (e) (h.0, All-insert P v ws p h.1)
]

insert-Ordered : (v : ConfigValue) (vs : List ConfigValue) → Ordered vs → Ordered (insert v vs)
unfolding insert
insert-Ordered v [] h = (tt, tt)
insert-Ordered v (w ∷ ws) h = elim (Bool-cases (goes_before v w)) [
  | inl e ↦ rw (e) ((e, All-weaken v w ws e h.0), h)
  | inr e ↦ rw (e) (
    All-insert (λ x. goes_before w x ≡ true) v ws (goes_before_total v w e) h.0,
    insert-Ordered v ws h.1,
  )
]

order_by-Ordered : (vs : List ConfigValue) → Ordered (order_by vs)
unfolding order_by
order_by-Ordered [] = tt
order_by-Ordered (v ∷ vs) = insert-Ordered v (order_by vs) (order_by-Ordered vs)

All-order_by : (P : ConfigValue → Type 0) (vs : List ConfigValue) → All P vs → All P (order_by vs)
unfolding order_by
All-order_by P [] h = tt
All-order_by P (v ∷ vs) h = All-insert P v (order_by vs) h.0 (All-order_by P vs h.1)

All-select : (p : ConfigValue → Bool) (vs : List ConfigValue) → All (λ v. p v ≡ true) (select p vs)
unfolding select
All-select p [] = tt
All-select p (v ∷ vs) = elim (Bool-cases (p v)) [
  | inl e ↦ rw (e) (e, All-select p vs)
  | inr e ↦ rw (e) (All-select p vs)
]

-- The listed values come in the order of priority, then falling weight, then the least recently
-- used with unused ones first, then id; and each is available and of the asked kind.
pub list_values-Ordered :
    (now config_id : ℕ) (value_kind : String) (values : List ConfigValue)
    → Ordered (list_values now config_id value_kind values)
      × All
          (λ v.
            ((v.system_config_id == config_id)
              && (str_eq v.value_kind value_kind && available now v))
            ≡ true)
          (list_values now config_id value_kind values)
unfolding list_values
list_values-Ordered now config_id value_kind values =
    let wanted = λ (v : ConfigValue).
      (v.system_config_id == config_id) && (str_eq v.value_kind value_kind && available now v) in
    (
      order_by-Ordered (select wanted values),
      All-order_by (λ v. wanted v ≡ true) (select wanted values) (All-select wanted values),
    )
