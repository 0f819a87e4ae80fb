-- ===== src/Scheduler/Cron/Days.antt =====
-- The days that a week-day range with a step names, against arithmetic modulo 7.
use stock_center.Base.{
  ℕ, zero, suc, ◌+◌, ◌-◌, ◌*◌, ◌/◌, ◌%◌, ◌≤◌, ◌<◌, ◌≡◌, refl, ap, sym, Bool, true, false, none,
  some, List, [], ◌∷◌, map, arith, ltb, leb, ◌==◌, if◌then◌else◌, length, Bool-cases, inl, inr, ◌⊎◌,
  ◌∙◌, ◌&&◌, ◌||◌, ltb→lt, length-append, all_below, all_below_holds,
}
use stock_center.Base.Text.{Text, text_eq, text_eq_sound, codes}
use stock_center.Scheduler.Cron.{
  Result, ok, cron_validation_error, dow_name, range, every, range_values,
  expand_crontab_weekday_range,
}

-- How many days after the first one the last one of the range comes, going round the week.
abbrev pub span : ℕ → ℕ → ℕ
span start end = (end % 7 + 7 - start % 7) % 7

-- Every `step`-th day from the first, while the last is not passed.
abbrev pub cyclic_days : ℕ → ℕ → ℕ → List ℕ
cyclic_days start end step = map (λ k. (start + k * step) % 7) (range 0 (span start end / step + 1))

abbrev pub name_of : ℕ → Text
name_of d = elim (dow_name d) [ some name ↦ name | none ↦ [] ]

abbrev pub names_of : List ℕ → Result (List Text)
names_of days = ok (map name_of days)

abbrev texts_eq : List Text → List Text → Bool
texts_eq [] [] = true
texts_eq (s ∷ ss) (t ∷ ts) = text_eq s t && texts_eq ss ts
texts_eq _ _ = false

abbrev results_eq : Result (List Text) → Result (List Text) → Bool
results_eq (ok ss) (ok ts) = texts_eq ss ts
results_eq _ _ = false

texts_eq_sound : (s t : List Text) → texts_eq s t ≡ true → s ≡ t
texts_eq_sound [] [] h = refl
texts_eq_sound (c ∷ s) (d ∷ t) h = ground (arith, text_eq_sound c d, texts_eq_sound s t)
texts_eq_sound [] (d ∷ t) h = cc
texts_eq_sound (c ∷ s) [] h = cc

results_eq_sound : (a b : Result (List Text)) → results_eq a b ≡ true → a ≡ b
results_eq_sound (ok s) (ok t) h = ap ok (texts_eq_sound s t h)
results_eq_sound cron_validation_error _ h = cc
results_eq_sound (ok s) cron_validation_error h = cc

-- Steps up to 7, by evaluation.
agrees : ℕ → ℕ → ℕ → Bool
agrees start end step =
    step == 0
    || results_eq (expand_crontab_weekday_range start end step)
        (names_of (cyclic_days start end step))

table : all_below 8 (λ s. all_below 8 (λ e. all_below 8 (λ k. agrees s e k))) ≡ true
unfolding agrees all_below expand_crontab_weekday_range
table = refl

small_steps :
    (start end step : ℕ)
    → start < 8
    → end < 8
    → step < 8
    → 0 < step
    → expand_crontab_weekday_range start end step ≡ names_of (cyclic_days start end step)
unfolding agrees
small_steps start end step hs he hk pos =
    let t1 =
      all_below_holds start 8 (λ s. all_below 8 (λ e. all_below 8 (λ k. agrees s e k))) table hs in
    let t2 = all_below_holds end 8 (λ e. all_below 8 (λ k. agrees start e k)) t1 he in
    let t3 = all_below_holds step 8 (λ k. agrees start end k) t2 hk in
    results_eq_sound (expand_crontab_weekday_range start end step)
      (names_of (cyclic_days start end step)) (ground arith)

length-range : (start count : ℕ) → length (range start count) ≡ count
length-range start zero = refl
length-range start (suc count) = ap suc (length-range (start + 1) count)

every-skips {ℓ} :
    {A : Type ℓ} (skip step : ℕ) (xs : List A) → length xs ≤ skip → every skip step xs ≡ []
unfolding every
every-skips zero step [] h = refl
every-skips (suc skip) step [] h = refl
every-skips zero step (x ∷ xs) h = absurd (omega arith)
every-skips (suc skip) step (x ∷ xs) h = every-skips skip step xs (omega arith)

-- Past the length of the list, every step takes the first item only.
every-large {ℓ} :
    {A : Type ℓ} (step : ℕ) (xs : List A)
    → length xs ≤ 7
    → 7 ≤ step
    → every 0 step xs ≡ every 0 7 xs
unfolding every
every-large step [] h k = refl
every-large step (x ∷ xs) h k =
    ap (λ l. x ∷ l)
      (every-skips (step - 1) step xs (omega arith) ∙ sym (every-skips 6 7 xs (omega arith)))

length-range_values-le : (start end : ℕ) → start < 7 → end < 7 → length (range_values start end) ≤ 7
unfolding range_values
length-range_values-le start end hs he = elim (Bool-cases (leb start end)) [
  | inl e ↦ rw (e) (omega (arith, length-range start (end + 1 - start)))
  | inr e ↦
      let below : end < start = ground arith in
      rw (e) (
        omega (
          arith,
          length-append (range start (7 - start)) (range 0 (end + 1)),
          length-range start (7 - start),
          length-range 0 (end + 1),
        ))
]

expand-large :
    (start end step : ℕ)
    → start < 8
    → end < 8
    → 7 ≤ step
    → expand_crontab_weekday_range start end step ≡ expand_crontab_weekday_range start end 7
unfolding expand_crontab_weekday_range
expand-large start end step hs he hk =
    let first = if start == 7 then 0 else start in
    let last = if end == 7 then 0 else end in
    rw (
      every-large step (range_values first last)
        (length-range_values-le first last (ground arith) (ground arith)) hk)

cyclic_days-large :
    (start end step : ℕ) → 7 ≤ step → cyclic_days start end step ≡ cyclic_days start end 7
cyclic_days-large start end step h =
    let p : span start end / step ≡ 0 = grind arith in
    let q : span start end / 7 ≡ 0 = omega arith in
    rw (p, q) (ap (λ n. ((start + n) % 7) ∷ []) (let z : 0 * step ≡ 0 = omega arith in z))

-- A range of crontab's day numbers 0 to 7 with any positive step names exactly every step-th day
-- from its first day until its last day is passed, in that order, going round the week, with 7
-- read as 0.
pub expand-cyclic_days :
    (start end step : ℕ)
    → 0 < step
    → start ≤ 7
    → end ≤ 7
    → expand_crontab_weekday_range start end step ≡ names_of (cyclic_days start end step)
unfolding expand_crontab_weekday_range
expand-cyclic_days start end step pos hs he = elim (Bool-cases (ltb step 8)) [
  | inl e ↦ small_steps start end step (omega arith) (omega arith) (ltb→lt step 8 e) pos
  | inr e ↦
      let big : 7 ≤ step = ground arith in
      expand-large start end step (omega arith) (omega arith) big
      ∙ small_steps start end 7 (omega arith) (omega arith) (omega arith) (omega arith)
      ∙ ap names_of (sym (cyclic_days-large start end step big))
]

-- A range with a number above 7 at either end is refused.
pub expand-refused :
    (start end step : ℕ)
    → (7 < start) ⊎ (7 < end)
    → expand_crontab_weekday_range start end step ≡ cron_validation_error
unfolding expand_crontab_weekday_range
expand-refused start end step h = ground arith

cyclic_days-zero_seven : (step : ℕ) → cyclic_days 0 7 step ≡ 0 ∷ []
cyclic_days-zero_seven step =
    let q : span 0 7 / step ≡ 0 = omega arith in
    rw (q) (ap (λ n. (n % 7) ∷ []) (let z : 0 + 0 * step ≡ 0 = omega arith in z))

-- The range 0-7 names Sunday alone, whatever its step.
pub expand-zero_seven :
    (step : ℕ) → 0 < step → expand_crontab_weekday_range 0 7 step ≡ ok (codes "sun" ∷ [])
expand-zero_seven step pos =
    expand-cyclic_days 0 7 step pos (omega arith) (omega arith)
    ∙ ap names_of (cyclic_days-zero_seven step)
