-- ===== src/Targets/Requests.antt =====
-- How many requests the quotes of a minute take, against the budget of realtime_market/rate_limit.py.
use stock_center.Base.{
  ℕ, zero, suc, ◌+◌, ◌-◌, ◌*◌, ◌≤◌, ◌<◌, ◌≡◌, refl, ap, ◌∙◌, Bool, true, false, some, List, [], ◌∷◌,
  ◌++◌, if◌then◌else◌, length, max, take, select, arith, length-append, length-take-le, Bool-cases,
  ◌==◌, inl, inr,
}
use native.Mathlib.Nat.{le-div_iff_mul-le, add-mul, mul-le-mul_right, mul_comm}
use native.Mathlib.Decide.{dec_lt}
use stock_center.Scheduler.Store.{count_where}
use stock_center.RateLimit.Realtime.{RealtimeRateBudget, safe_limit}
use stock_center.Targets.{Target}
use stock_center.Targets.Plan.{
  RealtimeSettings, is_hot, build_decision_targets, ceil_div, hot_requests, rounds_per_minute,
  remaining_requests, warm_quote_symbol_capacity, round_targets, batches, request_count,
}

batches_none : (fuel size : ℕ) → batches fuel size 0 ≡ 0
unfolding batches
batches_none zero size = refl
batches_none (suc fuel) size = refl

-- No more batches than the codes fill, rounded up.
batches-lt : (fuel size n : ℕ) → 0 < size → batches fuel size n * size < n + size
unfolding batches
batches-lt zero size n positive = omega (arith, positive)
batches-lt (suc fuel) size n positive = elim (Bool-cases (n == 0)) [
  | inl e ↦ rw (e) (omega (arith, positive))
  | inr e ↦
      let some_code : 0 < n = ground (arith, e) in
      let rest = batches-lt fuel size (n - size) positive in
      rw (e) (elim (dec_lt size n) [
        | yes p ↦ grind (arith, rest, p)
        | no p ↦
            let last : batches fuel size (n - size) ≡ 0 =
              ap (batches fuel size) (omega (arith, p)) ∙ batches_none fuel size in
            rw (last) (omega (arith, some_code))
      ])
]

-- Every code is in a batch, when there are as many rounds as codes.
batches-enough : (fuel size n : ℕ) → 0 < size → n ≤ fuel → n ≤ batches fuel size n * size
unfolding batches
batches-enough zero size n positive h = omega (arith, h)
batches-enough (suc fuel) size n positive h = elim (Bool-cases (n == 0)) [
  | inl e ↦ rw (e) (ground (arith, e))
  | inr e ↦
      let some_code : 0 < n = ground (arith, e) in
      let rest =
        batches-enough fuel size (n - size) positive (omega (arith, positive, h, some_code)) in
      rw (e) (grind (arith, rest))
]

beyond :
    (b more size total bound : ℕ)
    → b * size < total
    → total ≤ bound + 1 + more * size
    → (b - more) * size ≤ bound
beyond b more size total bound h k = elim (dec_lt more b) [
  | yes p ↦
      let whole : b ≡ more + (b - more) = omega (arith, p) in
      let parts : b * size ≡ more * size + (b - more) * size =
        ap (λ (x : ℕ). x * size) whole ∙ add-mul more (b - more) size in
      omega (arith, parts, h, k)
  | no p ↦ let nothing : b - more ≡ 0 = omega (arith, p) in rw (nothing) (omega arith)
]

-- A batch that starts costs a request; so the codes of `a` full requests and as many as fit `limit`
-- cost at most `a` requests more than those that `limit` costs alone.
batches_bound :
    (size limit more n : ℕ)
    → 0 < size
    → n ≤ limit + more * size
    → batches n size n ≤ ceil_div limit size + more
batches_bound size limit more n positive h =
    let total : batches n size n * size < n + size = batches-lt n size n positive in
    let part : (batches n size n - more) * size ≤ limit + (size - 1) =
      beyond (batches n size n) more size (n + size) (limit + (size - 1)) (omega (arith, total))
        (omega (arith, h, positive)) in
    let low : batches n size n - more ≤ ceil_div limit size =
      (le-div_iff_mul-le {k = size} {x = batches n size n - more} {y = limit + (size - 1)}
          positive).1
        part in
    omega (arith, low)

-- What a round may ask for beside its hot targets.
abbrev pub warm_share : RealtimeRateBudget → RealtimeSettings → Bool → ℕ
warm_share b s include_warm = if include_warm then remaining_requests b s else 0

share-mul : (w : Bool) (x y : ℕ) → (if w then x * y else 0) ≡ (if w then x else 0) * y
share-mul true x y = refl
share-mul false x y = omega arith

round-le :
    (b : RealtimeRateBudget) (s : RealtimeSettings) (include_warm : Bool) (targets : List Target)
    → 0 < s.quote_batch_size
    → request_count (some b) s include_warm targets ≤ hot_requests s + warm_share b s include_warm
unfolding request_count round_targets build_decision_targets warm_quote_symbol_capacity
round-le b s include_warm targets positive =
    let (hot_ones, warm_ones) = build_decision_targets s targets in
    let cap = if include_warm then remaining_requests b s * s.quote_batch_size else 0 in
    let codes : ℕ = length (hot_ones ++ take cap warm_ones) in
    let same_size : max 1 s.quote_batch_size ≡ s.quote_batch_size = omega (arith, positive) in
    let few : codes ≤ s.decision_target_limit + cap = omega (
      arith,
      length-append hot_ones (take cap warm_ones),
      length-take-le s.decision_target_limit (select is_hot targets),
      length-take-le cap warm_ones,
    ) in
    let bound =
      batches_bound s.quote_batch_size s.decision_target_limit (warm_share b s include_warm) codes
        positive
        (omega (arith, few, share-mul include_warm (remaining_requests b s) s.quote_batch_size)) in
    let alone : hot_requests s ≡ ceil_div s.decision_target_limit s.quote_batch_size =
      ap (ceil_div s.decision_target_limit) same_size in
    omega (arith, bound, alone)

-- The requests of rounds, each with its targets, and whether it asks for the warm ones.
unfoldable pub requests_of : RealtimeRateBudget → RealtimeSettings → List (Bool × List Target) → ℕ
unfolding request_count
requests_of b s [] = 0
requests_of b s ((include_warm, targets) ∷ rounds) =
    request_count (some b) s include_warm targets + requests_of b s rounds

requests-le :
    (b : RealtimeRateBudget) (s : RealtimeSettings) (rounds : List (Bool × List Target))
    → 0 < s.quote_batch_size
    → requests_of b s rounds
      ≤ length rounds * hot_requests s + count_where (λ r. r.0) rounds * remaining_requests b s
unfolding requests_of count_where
requests-le b s [] positive = omega arith
requests-le b s ((true, targets) ∷ rounds) positive =
    grind (arith, round-le b s true targets positive, requests-le b s rounds positive)
requests-le b s ((false, targets) ∷ rounds) positive =
    grind (arith, round-le b s false targets positive, requests-le b s rounds positive)

-- The quotes of a minute, with at most as many rounds as the decision interval gives, at most one of
-- which asks for the warm targets, take no more requests than the safe limit of their budget less the
-- one that is kept for the core indexes and the five for page misses, whatever the targets are; this
-- where the hot targets alone leave those six.
pub minute_requests-within :
    (b : RealtimeRateBudget) (s : RealtimeSettings) (rounds : List (Bool × List Target))
    → 0 < s.quote_batch_size
    → length rounds ≤ rounds_per_minute s
    → count_where (λ r. r.0) rounds ≤ 1
    → hot_requests s * rounds_per_minute s + 6 ≤ safe_limit b
    → requests_of b s rounds + 6 ≤ safe_limit b
unfolding remaining_requests
minute_requests-within b s rounds positive few once room =
    let all = requests-le b s rounds positive in
    let hot_part : length rounds * hot_requests s ≤ rounds_per_minute s * hot_requests s =
      mul-le-mul_right (hot_requests s) few in
    let warm_part : count_where (λ r. r.0) rounds * remaining_requests b s
        ≤ 1 * remaining_requests b s =
      mul-le-mul_right (remaining_requests b s) once in
    let turned : rounds_per_minute s * hot_requests s ≡ hot_requests s * rounds_per_minute s =
      mul_comm (rounds_per_minute s) (hot_requests s) in
    omega (arith, all, hot_part, warm_part, turned, room)
