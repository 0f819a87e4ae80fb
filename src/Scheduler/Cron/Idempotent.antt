-- ===== src/Scheduler/Cron/Idempotent.antt =====
-- A token that has been rewritten is left as it is by a second rewrite.
use stock_center.Base.{
  ℕ, zero, suc, ◌+◌, ◌-◌, ◌<◌, ◌≡◌, refl, ap, sym, Bool, true, Option, none, some, List, [], ◌∷◌,
  ◌++◌, arith, ltb, leb, ◌==◌, if◌then◌else◌, Bool-cases, Option-cases, inl, inr, ◌⊎◌, ◌∙◌, ◌&&◌,
  ◌||◌, any,
}
use stock_center.Base.Text.{Text, text_eq, codes, int_from, is_alpha, join, partition}
use stock_center.Scheduler.Cron.{
  Result, ok, cron_validation_error, ◌>>=◌, dow_name, range, every, range_values, map_result,
  map_crontab_weekday, expand_crontab_weekday_range, step_of, normalize_range,
  normalize_crontab_weekday_token, all_digits,
}

any-append :
    {A : Type 0} (p : A → Bool) (xs ys : List A) → any p xs ≡ true → any p (xs ++ ys) ≡ true
unfolding any
any-append p [] ys h = cc
any-append p (x ∷ xs) ys h = ground (arith, any-append p xs ys)

-- A text with a letter in it is left alone.
alpha_kept : (t : Text) → any is_alpha t ≡ true → normalize_crontab_weekday_token t ≡ ok t
unfolding normalize_crontab_weekday_token
alpha_kept [] h = refl
alpha_kept (c ∷ s) h = rw (h)

named : (t n : Text) → some t ≡ some n → any is_alpha t ≡ true → any is_alpha n ≡ true
named t n e a = let q : t ≡ n = cc in rw (← q) a

name-alpha : (w : ℕ) (n : Text) → dow_name w ≡ some n → any is_alpha n ≡ true
unfolding any is_alpha
name-alpha zero n h = named (codes "sun") n h refl
name-alpha (suc zero) n h = named (codes "mon") n h refl
name-alpha (suc (suc zero)) n h = named (codes "tue") n h refl
name-alpha (suc (suc (suc zero))) n h = named (codes "wed") n h refl
name-alpha (suc (suc (suc (suc zero)))) n h = named (codes "thu") n h refl
name-alpha (suc (suc (suc (suc (suc zero))))) n h = named (codes "fri") n h refl
name-alpha (suc (suc (suc (suc (suc (suc zero)))))) n h = named (codes "sat") n h refl
name-alpha (suc (suc (suc (suc (suc (suc (suc w))))))) n h = cc

map_crontab_weekday-alpha :
    (v : ℕ) (r : Text) → map_crontab_weekday v ≡ ok r → any is_alpha r ≡ true
unfolding map_crontab_weekday
map_crontab_weekday-alpha v r h =
    let w = if v == 7 then 0 else v in
    elim (Option-cases (dow_name w)) [
      | inl e ↦
          let bad : map_crontab_weekday v ≡ cron_validation_error = rw (e, map_crontab_weekday) in
          cc (bad, h)
      | inr (n, e) ↦
          let good : map_crontab_weekday v ≡ ok n = rw (e, map_crontab_weekday) in
          let same : n ≡ r = cc (good, h) in rw (← same) (name-alpha w n e)
    ]

join-alpha :
    (sep : ℕ) (t : Text) (ts : List Text)
    → any is_alpha t ≡ true
    → any is_alpha (join sep (t ∷ ts)) ≡ true
unfolding join
join-alpha sep t [] h = h
join-alpha sep t (u ∷ us) h = any-append is_alpha t (sep ∷ join sep (u ∷ us)) h

-- A mapped list that is not empty starts with the image of its first item.
map_result-cons :
    {A B : Type 0} (f : A → Result B) (x : A) (xs : List A) (ys : List B)
    → map_result f (x ∷ xs) ≡ ok ys
    → (y : B) × (rest : List B) × (f x ≡ ok y) × (ys ≡ y ∷ rest)
unfolding map_result
map_result-cons {A} {B} f x xs ys h = go (f x) refl (map_result f xs) refl
  where
    go :
        (a : Result B)
        → f x ≡ a
        → (b : Result (List B)) → map_result f xs ≡ b
        → (y : B) × (rest : List B) × (f x ≡ ok y) × (ys ≡ y ∷ rest)
    go (ok y) e (ok rest) e' = (y, rest, e, ground arith)
    go (ok y) e cron_validation_error e' = absurd (ground arith)
    go cron_validation_error e b e' = absurd (ground arith)

range_values-cons :
    (start end : ℕ) → start < 7 → (x : ℕ) × (xs : List ℕ) × (range_values start end ≡ x ∷ xs)
unfolding range_values
range_values-cons start end h = elim (Bool-cases (leb start end)) [
  | inl e ↦
      let p : end + 1 - start ≡ suc (end - start) = ground arith in
      (start, range (start + 1) (end - start), rw (e) (rw (p)))
  | inr e ↦
      let p : 7 - start ≡ suc (6 - start) = omega arith in
      (start, range (start + 1) (6 - start) ++ range 0 (end + 1), rw (e) (rw (p)))
]

every-cons {ℓ} :
    {A : Type ℓ} (step : ℕ) (x : A) (xs : List A)
    → every 0 step (x ∷ xs) ≡ x ∷ every (step - 1) step xs
unfolding every
every-cons step x xs = refl

days-alpha :
    (first last step : ℕ) (names : List Text)
    → first < 7
    → map_result map_crontab_weekday (every 0 step (range_values first last)) ≡ ok names
    → any is_alpha (join b',' names) ≡ true
days-alpha first last step names small h =
    let (x, xs, p) = range_values-cons first last small in
    let q : every 0 step (range_values first last) ≡ x ∷ every (step - 1) step xs =
      ap (every 0 step) p ∙ every-cons step x xs in
    let (y, rest, named_x, r) =
      map_result-cons map_crontab_weekday x (every (step - 1) step xs) names
        (sym (ap (map_result map_crontab_weekday) q) ∙ h) in
    rw (r) (join-alpha b',' y rest (map_crontab_weekday-alpha x y named_x))

expand-alpha :
    (start end step : ℕ) (names : List Text)
    → expand_crontab_weekday_range start end step ≡ ok names
    → any is_alpha (join b',' names) ≡ true
unfolding expand_crontab_weekday_range
expand-alpha start end step names h =
    let first = if start == 7 then 0 else start in
    let last = if end == 7 then 0 else end in
    elim (Bool-cases (ltb 6 first || ltb 6 last)) [
      | inl e ↦ absurd (ground arith)
      | inr e ↦ days-alpha first last step names (ground arith) (rw (e) at h)
    ]

>>=-eq-ok :
    {A B : Type 0} (m : Result A) (next : A → Result B) {b : B}
    → (m >>= next) ≡ ok b
    → (a : A) × (m ≡ ok a) × (next a ≡ ok b)
>>=-eq-ok cron_validation_error next h = cc
>>=-eq-ok (ok a) next h = (a, refl, h)

-- A rewrite that succeeds leaves the token as it is, or puts a name in it.
normalize_range-outcome :
    (token start : Text) (end : Option Text) (step : ℕ) (r : Text)
    → normalize_range token start end step ≡ ok r
    → (r ≡ token) ⊎ (any is_alpha r ≡ true)
unfolding normalize_range
normalize_range-outcome token start none step r h = elim (Bool-cases (all_digits start)) [
  | inl e ↦ inr (map_crontab_weekday-alpha (int_from 0 start) r (rw (e) at h))
  | inr e ↦ inl (ground arith)
]
normalize_range-outcome token start (some end) step r h =
    elim (Bool-cases (all_digits start && all_digits end)) [
      | inr e ↦ inl (ground arith)
      | inl e ↦
          let (names, p, q) =
            >>=-eq-ok (expand_crontab_weekday_range (int_from 0 start) (int_from 0 end) step)
              (λ names. ok (join b',' names)) {b = r} (rw (e) at h) in
          let same : join b',' names ≡ r = cc in
          inr (rw (← same) (expand-alpha (int_from 0 start) (int_from 0 end) step names p))
    ]

token-outcome :
    (t r : Text) → normalize_crontab_weekday_token t ≡ ok r → (r ≡ t) ⊎ (any is_alpha r ≡ true)
unfolding normalize_crontab_weekday_token
token-outcome [] r h = inl (ground arith)
token-outcome (c ∷ s) r h = elim (Bool-cases (any is_alpha (c ∷ s))) [
  | inl e ↦ inl (ground arith)
  | inr e ↦
      let parts = partition b'/' (c ∷ s) in
      let ends = partition b'-' parts.0 in
      let (step, p, q) =
        >>=-eq-ok (step_of parts.1)
          (λ step.
            if text_eq parts.0 (codes "*")
            then ok (c ∷ s)
            else normalize_range (c ∷ s) ends.0 ends.1 step)
          {b = r} (rw (e) at h) in
      elim (Bool-cases (text_eq parts.0 (codes "*"))) [
        | inl star ↦ inl (ground arith)
        | inr other ↦ normalize_range-outcome (c ∷ s) ends.0 ends.1 step r (rw (other) at q)
      ]
]

-- A rewritten token is a fixed point: rewriting it again gives it back.
pub normalize-normalize :
    (t r : Text)
    → normalize_crontab_weekday_token t ≡ ok r
    → normalize_crontab_weekday_token r ≡ ok r
normalize-normalize t r h = elim (token-outcome t r h) [
  | inl e ↦ rw (← e) at h
  | inr a ↦ alpha_kept r a
]
