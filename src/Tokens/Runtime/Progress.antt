-- ===== src/Tokens/Runtime/Progress.antt =====
-- The end of the failover, and how many calls it makes.
use stock_center.Base.{
  ◌||◌, ℕ, zero, suc, ◌+◌, ◌*◌, ◌≤◌, ◌<◌, ◌≡◌, ◌≢◌, refl, sym, ◌∙◌, Bool, true, false, not, Option,
  none, some, List, [], ◌∷◌, arith, ltb, ◌==◌, select, length, any, Bool-cases, Option-cases, inl,
  inr, length-select-le,
}
use native.Mathlib.Nat.{mul-le-mul_right}
use stock_center.Tokens.Runtime.{
  Reply, replies, Tables, Outcome, returned, all_failed, rate_limited, stop_iteration, has_id,
  record_failure, rounds, with_provider, call, no_token, endpoint_configuration_error,
}
use stock_center.Tokens.{ConfigValue, list_values, release_expired_cooldowns}
use stock_center.Tokens.Runtime.Attempts.{
  loop, attempts-calls, attempts-served, called, attempts-logged,
}
use stock_center.Base.Slices.{taken_from}

-- Taking a member out makes a list shorter, and keeps the others.
length-select-lt :
    (id : ℕ) (cs : List (ℕ × ℕ))
    → any (has_id id) cs ≡ true
    → length (select (λ d. not (has_id id d)) cs) < length cs
unfolding select any
length-select-lt id [] h = cc
length-select-lt id (c ∷ cs) h =
    ground (arith, length-select-lt id cs, length-select-le (λ d. not (has_id id d)) cs)

any-select :
    (id good : ℕ) (cs : List (ℕ × ℕ))
    → (good == id) ≡ false
    → any (has_id good) cs ≡ true
    → any (has_id good) (select (λ d. not (has_id id d)) cs) ≡ true
unfolding select any
any-select id good [] n h = cc
any-select id good (c ∷ cs) n h = ground (arith, any-select id good cs n)

taken : (n m a : ℕ) → n < m → n * a + a ≤ m * a
taken n m a h = let k : suc n * a ≤ m * a = mul-le-mul_right a h in omega (arith, k)

module _ {T : Type 0} (operation : ℕ → ℕ → Reply T) (clock : ℕ → ℕ → ℕ)
    (cooldown_seconds retry_backoff_seconds : ℕ) (fallback : Bool) where
  module _ (retry_count : ℕ) (reserve : List (ℕ × ℕ) → Option ℕ) where
    abbrev go_on : ℕ → List (ℕ × ℕ) → Tables → Option (Outcome T × Tables)
    go_on =
        rounds operation clock cooldown_seconds retry_backoff_seconds fallback retry_count reserve

    abbrev tried : List (ℕ × ℕ) → ℕ → Tables → Option T × Tables
    tried candidates id t =
        loop operation clock cooldown_seconds retry_backoff_seconds fallback retry_count 0
          (ltb 1 (length candidates)) id t

    round-returned :
        (fuel id : ℕ) (c : ℕ × ℕ) (cs : List (ℕ × ℕ)) (t : Tables) (y : T)
        → reserve (c ∷ cs) ≡ some id
        → any (has_id id) (c ∷ cs) ≡ true
        → (tried (c ∷ cs) id t).0 ≡ some y
        → go_on (suc fuel) (c ∷ cs) t ≡ some (returned id y, (tried (c ∷ cs) id t).1)
    unfolding rounds
    round-returned fuel id c cs t y e m q = rw (e, rounds) (rw (m) (rw (q) refl))

    round-next :
        (fuel id : ℕ) (c : ℕ × ℕ) (cs : List (ℕ × ℕ)) (t : Tables)
        → reserve (c ∷ cs) ≡ some id
        → any (has_id id) (c ∷ cs) ≡ true
        → (tried (c ∷ cs) id t).0 ≡ none
        → go_on (suc fuel) (c ∷ cs) t
          ≡ go_on fuel (select (λ d. not (has_id id d)) (c ∷ cs)) (tried (c ∷ cs) id t).1
    unfolding rounds
    round-next fuel id c cs t e m q = rw (e, rounds) (rw (m) (rw (q) refl))

    -- When the coordinator reserves one of the candidates it is given, and some candidate's first
    -- attempt replies with records, the failover returns a candidate's result: it neither runs out of
    -- tokens nor of fuel, one unit for each candidate being enough.
    pub rounds-returned :
        ((c : ℕ × ℕ) (cs : List (ℕ × ℕ))
          → (id : ℕ) × (reserve (c ∷ cs) ≡ some id) × (any (has_id id) (c ∷ cs) ≡ true))
        → (fuel good : ℕ) (candidates : List (ℕ × ℕ)) (t : Tables) (x : T)
        → operation good 0 ≡ replies false x
        → any (has_id good) candidates ≡ true
        → length candidates ≤ fuel
        → (id : ℕ) × (y : T) × (after : Tables) × (go_on fuel candidates t
            ≡ some (returned id y, after))
          × (any (has_id id) candidates ≡ true)
    unfolding any
    rounds-returned law fuel good [] t x e m h = cc
    rounds-returned law zero good (c ∷ cs) t x e m h = absurd (omega arith)
    rounds-returned law (suc fuel) good (c ∷ cs) t x e m h =
        let (id, picked, member) = law c cs in
        let after = (tried (c ∷ cs) id t).1 in
        elim (Option-cases (tried (c ∷ cs) id t).0) [
          | inr (y, q) ↦ (id, y, after, round-returned fuel id c cs t y picked member q, member)
          | inl q ↦
              let others = select (λ d. not (has_id id d)) (c ∷ cs) in
              elim (Bool-cases (good == id)) [
                | inl same ↦
                    let p : good ≡ id = ground arith in
                    let served =
                      attempts-served operation clock cooldown_seconds retry_backoff_seconds
                        fallback retry_count (ltb 1 (length (c ∷ cs))) id t {x = x} (rw (← p) e) in
                    absurd (let k : none ≡ some x = sym q ∙ served in cc)
                | inr other ↦
                    let (id', y, last, r, m') =
                      rounds-returned law fuel good others after x e
                        (any-select id good (c ∷ cs) other m)
                        (omega (arith, length-select-lt id (c ∷ cs) member)) in
                    (
                      id',
                      y,
                      last,
                      round-next fuel id c cs t picked member q ∙ r,
                      taken_from (has_id id') (λ d. not (has_id id d)) (c ∷ cs) m',
                    )
              ]
        ]

    -- What the end of the failover means. A result is that of a candidate's token. The rate limit is
    -- reached where the coordinator refused candidates of the call. All tokens failed where each
    -- candidate's token has a call on record. It ends in no other way.
    abbrev pub Ended : List (ℕ × ℕ) → Outcome T → Tables → Type 0
    Ended cs (returned id y) after = any (has_id id) cs ≡ true
    Ended cs rate_limited after =
        (rest : List (ℕ × ℕ)) × (rest ≢ [])
        × (reserve rest ≡ none)
        × ((j : ℕ) → any (has_id j) rest ≡ true → any (has_id j) cs ≡ true)
    Ended cs all_failed after =
        (j : ℕ) → any (has_id j) cs ≡ true → any (called j) after.calls ≡ true
    Ended cs _ after = ⊥

    Ended-fine :
        (cs : List (ℕ × ℕ)) (o : Outcome T) (t : Tables) → Ended cs o t → o ≢ stop_iteration
    Ended-fine cs (returned id y) t h e = cc
    Ended-fine cs rate_limited t h e = cc
    Ended-fine cs all_failed t h e = cc
    Ended-fine cs stop_iteration t h e = h
    Ended-fine cs no_token t h e = h

    -- The candidates without one whose token has a call on record.
    Ended-more :
        (id : ℕ) (cs : List (ℕ × ℕ)) (o : Outcome T) (after : Tables)
        → any (called id) after.calls ≡ true
        → Ended (select (λ d. not (has_id id d)) cs) o after
        → Ended cs o after
    Ended-more id cs (returned k y) after l h = taken_from (has_id k) _ cs h
    Ended-more id cs rate_limited after l (rest, some_left, refused, of) =
        (rest, some_left, refused, λ j m. taken_from (has_id j) _ cs (of j m))
    Ended-more id cs all_failed after l h = λ j m. elim (Bool-cases (j == id)) [
      | inl same ↦ let k : j ≡ id = ground arith in rw (k) l
      | inr other ↦ h j (any-select id j cs other m)
    ]
    Ended-more id cs stop_iteration after l h = absurd h
    Ended-more id cs no_token after l h = absurd h

    pub rounds-ends :
        ((c : ℕ × ℕ) (cs : List (ℕ × ℕ)) (id : ℕ)
          → reserve (c ∷ cs) ≡ some id
          → any (has_id id) (c ∷ cs) ≡ true)
        → (fuel : ℕ) (candidates : List (ℕ × ℕ)) (t : Tables) → length candidates < fuel
        → (o : Outcome T) × (after : Tables) × (go_on fuel candidates t ≡ some (o, after))
          × Ended candidates o after
          × ((j : ℕ) → any (called j) t.calls ≡ true → any (called j) after.calls ≡ true)
          × (length after.calls ≤ length t.calls + length candidates * (retry_count + 1))
    unfolding rounds any
    rounds-ends law zero candidates t h = absurd (omega arith)
    rounds-ends law (suc fuel) [] t h = (all_failed, t, refl, (λ j m. cc), (λ j l. l), omega arith)
    rounds-ends law (suc fuel) (c ∷ cs) t h = elim (Option-cases (reserve (c ∷ cs))) [
      | inl e ↦ (
        rate_limited,
        t,
        rw (e, rounds) refl,
        (c ∷ cs, (λ k. cc), e, λ j m. m),
        (λ j l. l),
        omega arith,
      )
      | inr (id, e) ↦
          let member = law c cs id e in
          let after = (tried (c ∷ cs) id t).1 in
          let spent =
            attempts-calls operation clock cooldown_seconds retry_backoff_seconds fallback
              retry_count 0 (ltb 1 (length (c ∷ cs))) id t in
          let shorter = length-select-lt id (c ∷ cs) member in
          let others = select (λ d. not (has_id id d)) (c ∷ cs) in
          let logs : (j : ℕ)
              → (any (called j) t.calls || (id == j)) ≡ true
              → any (called j) after.calls ≡ true =
            λ j k.
              attempts-logged operation clock cooldown_seconds retry_backoff_seconds fallback
                retry_count 0 (ltb 1 (length (c ∷ cs))) id t j k in
          elim (Option-cases (tried (c ∷ cs) id t).0) [
            | inr (y, q) ↦ (
              returned id y,
              after,
              round-returned fuel id c cs t y e member q,
              member,
              (λ j l. logs j (ground (arith, l))),
              omega (arith, spent, taken zero (length (c ∷ cs)) (retry_count + 1) (omega arith)),
            )
            | inl q ↦
                let (o, last, r, ended, kept, few) =
                  rounds-ends law fuel others after (omega (arith, shorter)) in
                (
                  o,
                  last,
                  round-next fuel id c cs t e member q ∙ r,
                  Ended-more id (c ∷ cs) o last (kept id (logs id (ground arith))) ended,
                  (λ j l. kept j (logs j (ground (arith, l)))),
                  omega (
                    arith,
                    few,
                    spent,
                    taken (length others) (length (c ∷ cs)) (retry_count + 1) shorter,
                  ),
                )
          ]
    ]

    module _ (endpoint_ok : ℕ → Bool) (rate_limit_per_minute : ℕ) where
      length-with_provider :
          (vs : List ConfigValue) (t : Tables)
          → length
              (with_provider operation clock cooldown_seconds retry_backoff_seconds fallback
                retry_count reserve endpoint_ok rate_limit_per_minute vs t).0
            ≤ length vs
      unfolding with_provider
      length-with_provider [] t = omega arith
      length-with_provider (v ∷ vs) t = elim (Bool-cases (endpoint_ok v.id)) [
        | inl e ↦ rw (e) (omega (arith, length-with_provider vs t))
        | inr e ↦ rw (e) (
            omega (
              arith,
              length-with_provider vs (
                  record_failure (clock v.id 0) cooldown_seconds v.id 0 endpoint_configuration_error
                    t),
            ))
      ]

      -- A whole call ends, and never asks for a candidate that is not there, when the coordinator only ever
      -- reserves candidates.
      pub call-ends :
          ((c : ℕ × ℕ) (cs : List (ℕ × ℕ)) (id : ℕ)
            → reserve (c ∷ cs) ≡ some id
            → any (has_id id) (c ∷ cs) ≡ true)
          → (now config_id : ℕ) (t : Tables)
          → (o : Outcome T) × (after : Tables) × (call operation clock cooldown_seconds
                retry_backoff_seconds fallback retry_count reserve endpoint_ok rate_limit_per_minute
                now config_id t
              ≡ some (o, after))
            × (o ≢ stop_iteration)
      unfolding call
      call-ends law now config_id t =
          go (list_values now config_id "token" (release_expired_cooldowns now t.values)) refl
        where
          Ends : Type 0
          Ends =
              (o : Outcome T) × (after : Tables) × (call operation clock cooldown_seconds
                  retry_backoff_seconds fallback retry_count reserve endpoint_ok
                  rate_limit_per_minute now config_id t
                ≡ some (o, after))
              × (o ≢ stop_iteration)

          fresh : Tables
          fresh = record t { values = release_expired_cooldowns now t.values }

          go :
              (l : List ConfigValue)
              → list_values now config_id "token" (release_expired_cooldowns now t.values) ≡ l
              → Ends
          go [] e = (no_token, fresh, rw (e, call) refl, λ k. cc)
          go (v ∷ vs) e =
              let made =
                with_provider operation clock cooldown_seconds retry_backoff_seconds fallback
                  retry_count reserve endpoint_ok rate_limit_per_minute (v ∷ vs) fresh in
              let (o, after, r, ended, _, _) =
                rounds-ends law (suc (length (v ∷ vs))) made.0 made.1
                  (omega (arith, length-with_provider (v ∷ vs) fresh)) in
              (o, after, rw (e, call) r, Ended-fine made.0 o after ended)
