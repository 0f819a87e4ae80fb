-- ===== src/Scheduler/Cron.antt =====
-- python-back/app/modules/scheduler_center/validation.py: the week-day field of five-field cron
-- expressions, rewritten from crontab's numbers to names. Texts are ASCII.
pub mod Days
pub mod Idempotent
use stock_center.Base.{
  ℕ, zero, suc, ◌+◌, ◌-◌, ◌≤◌, ◌≡◌, refl, Bool, true, false, not, Option, none, some, List, [], ◌∷◌,
  ◌++◌, map, ltb, leb, ◌==◌, if◌then◌else◌, length, ◌&&◌, ◌||◌, any,
}
use stock_center.Base.Text.{
  Text, codes, text_eq, is_digit, is_alpha, int_from, split, join, partition, words,
}

pub data Result {ℓ} (A : Type ℓ) : Type ℓ where
  ok : A → Result A
  cron_validation_error : Result A

infixl 5 ◌>>=◌
abbrev pub ◌>>=◌ {ℓ κ} : {B : Type κ} {A : Type ℓ} → Result A → (A → Result B) → Result B
cron_validation_error >>= next = cron_validation_error
ok value >>= next = next value

unfoldable pub map_result {ℓ κ} :
    {A : Type ℓ} {B : Type κ} → (A → Result B) → List A → Result (List B)
map_result f [] = ok []
map_result f (x ∷ xs) = do y ← f x; ys ← map_result f xs; ok (y ∷ ys)

-- _CRONTAB_DOW_NAMES
abbrev pub dow_name : ℕ → Option Text
dow_name zero = some (codes "sun")
dow_name (suc zero) = some (codes "mon")
dow_name (suc (suc zero)) = some (codes "tue")
dow_name (suc (suc (suc zero))) = some (codes "wed")
dow_name (suc (suc (suc (suc zero)))) = some (codes "thu")
dow_name (suc (suc (suc (suc (suc zero))))) = some (codes "fri")
dow_name (suc (suc (suc (suc (suc (suc zero)))))) = some (codes "sat")
dow_name _ = none

-- The callers pass numbers that were read from digits, so none is negative.
unfoldable pub map_crontab_weekday : ℕ → Result Text
map_crontab_weekday value = elim (dow_name (if value == 7 then 0 else value)) [
  | some name ↦ ok name
  | none ↦ cron_validation_error
]

-- range(start, start + count)
abbrev pub range : ℕ → ℕ → List ℕ
range start zero = []
range start (suc count) = start ∷ range (start + 1) count

-- values[::step], `skip` being the values to pass over before the next one taken.
unfoldable pub every {ℓ} : {A : Type ℓ} → ℕ → ℕ → List A → List A
every skip step [] = []
every zero step (x ∷ xs) = x ∷ every (step - 1) step xs
every (suc skip) step (x ∷ xs) = every skip step xs

-- The numbers of the days in a week-day range, before they are named.
unfoldable pub range_values : ℕ → ℕ → List ℕ
range_values start end =
    if leb start end
    then range start (end + 1 - start)
    else range start (7 - start) ++ range 0 (end + 1)

unfoldable pub expand_crontab_weekday_range : ℕ → ℕ → ℕ → Result (List Text)
unfolding range_values every map_crontab_weekday map_result
expand_crontab_weekday_range start end step =
    let first = if start == 7 then 0 else start in
    let last = if end == 7 then 0 else end in
    if ltb 6 first || ltb 6 last
    then cron_validation_error
    else map_result map_crontab_weekday (every 0 step (range_values first last))

abbrev pub all_digits : Text → Bool
all_digits [] = false
all_digits (c ∷ []) = is_digit c
all_digits (c ∷ d ∷ s) = is_digit c && all_digits (d ∷ s)

-- The step behind `/`: 1 where there is none, and an error where it is no positive number.
unfoldable pub step_of : Option Text → Result ℕ
unfolding is_digit int_from
step_of none = ok 1
step_of (some t) =
    if not (all_digits t) || leb (int_from 0 t) 0 then cron_validation_error else ok (int_from 0 t)

-- The part of a token before `/`, when it is a range `start-end`.
unfoldable pub normalize_range : Text → Text → Option Text → ℕ → Result Text
unfolding expand_crontab_weekday_range is_digit int_from join
normalize_range token start_text none step =
    if all_digits start_text then map_crontab_weekday (int_from 0 start_text) else ok token
normalize_range token start_text (some end_text) step =
    if all_digits start_text && all_digits end_text
    then (do
      names ← expand_crontab_weekday_range (int_from 0 start_text) (int_from 0 end_text) step
      ok (join b',' names))
    else ok token

unfoldable pub normalize_crontab_weekday_token : Text → Result Text
unfolding any is_alpha partition step_of normalize_range
normalize_crontab_weekday_token [] = ok []
normalize_crontab_weekday_token (c ∷ s) =
    let token = c ∷ s in
    if any is_alpha token then ok token else (do
      let parts = partition b'/' token
      step ← step_of parts.1
      let ends = partition b'-' parts.0
      if text_eq parts.0 (codes "*") then ok token else normalize_range token ends.0 ends.1 step)

-- Five fields have their last one rewritten; anything else is passed on as it is.
unfoldable pub normalize_fields : Text → List Text → Result Text
unfolding normalize_crontab_weekday_token split join map_result
normalize_fields expr (minute ∷ hour ∷ day ∷ month ∷ weekday ∷ []) =
    if text_eq weekday (codes "*") || text_eq weekday (codes "?")
    then ok (join 32 (minute ∷ hour ∷ day ∷ month ∷ weekday ∷ []))
    else (do
      tokens ← map_result normalize_crontab_weekday_token (split b',' weekday)
      ok (join 32 (minute ∷ hour ∷ day ∷ month ∷ join b',' tokens ∷ [])))
normalize_fields expr _ = ok expr

unfoldable pub normalize_crontab_for_apscheduler : Text → Result Text
unfolding normalize_fields words
normalize_crontab_for_apscheduler cron_expr = normalize_fields cron_expr (words cron_expr)

weekday_range :
    normalize_crontab_for_apscheduler (codes "30 9 * * 5-7/2,1") ≡ ok (codes "30 9 * * fri,sun,mon")
unfolding normalize_crontab_for_apscheduler
weekday_range = refl
