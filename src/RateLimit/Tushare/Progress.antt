-- ===== src/RateLimit/Tushare/Progress.antt =====
-- Errors and termination: which arguments are refused, and that a caller who can wait a minute is
-- served in the second round at the latest.
use stock_center.Base.{
  ℕ, suc, ◌+◌, ◌≤◌, ◌≡◌, ◌≢◌, refl, ap, true, false, none, some, List, [], ◌∷◌, arith, ltb, leb,
  length, All, Bool-cases, Option-cases, inl, inr, ◌⊎◌, ◌∙◌, lt→ltb, any,
}
use stock_center.RateLimit.Window.{trim, trim-trim, length-trim-le, length-trim-lt_expired}
use stock_center.RateLimit.Tushare.{
  Requests, minute, pop_expired, Pass, reserved, busy, pass, wait_for, minimum, Outcome, granted,
  value_error, wait_loop, reserve,
}
use stock_center.RateLimit.Tushare.Choice.{
  queue_at, has_room, first_with_room, outcome_of, first_with_room-SameQueues, waits_for,
  SameQueues, SameQueues-later, pass-first_with_room,
}

-- A candidate's queue respects its own limit, which is positive, and holds no time of the future.
pub record Fits (now : ℕ) (reqs : Requests) (c : ℕ × ℕ) : Type 0 where
  pub positive : 1 ≤ c.1
  pub within : length (reqs c.0) ≤ c.1
  pub past : All (λ t. t ≤ now) (reqs c.0)

All-trim : (P : ℕ → Type 0) (w now : ℕ) (q : List ℕ) → All P q → All P (trim w now q)
unfolding trim
All-trim P w now [] h = tt
All-trim P w now (t ∷ ts) h = elim (Bool-cases (leb (t + w) now)) [
  | inl e ↦ rw (e, trim) (All-trim P w now ts h.1)
  | inr e ↦ rw (e, trim) h
]

wait_for-le : (now : ℕ) (q : List ℕ) → All (λ t. t ≤ now) q → wait_for now q ≤ minute
unfolding wait_for
wait_for-le now [] h = omega arith
wait_for-le now (t ∷ ts) h = omega (arith, h.0)

-- A full queue has room once the reported wait is over.
room_after :
    (now later pm : ℕ) (q : List ℕ)
    → 1 ≤ pm
    → length q ≤ pm
    → now + wait_for now q ≤ later
    → ltb (length (trim minute later q)) pm ≡ true
unfolding wait_for trim
room_after now later pm [] positive within h = lt→ltb 0 pm positive
room_after now later pm (t ∷ ts) positive within h =
    lt→ltb (length (trim minute later (t ∷ ts))) pm
      (omega (arith, length-trim-lt_expired minute later t ts (omega arith)))

has_room_after :
    (now later : ℕ) (reqs : Requests) (c : ℕ × ℕ)
    → Fits now reqs c
    → now + wait_for now (queue_at now reqs c.0) ≤ later
    → has_room later reqs c ≡ true
unfolding pop_expired
has_room_after now later reqs (id, pm) f h =
    rw (← trim-trim minute now later (reqs id) (omega arith)) (
      room_after now later pm (trim minute now (reqs id)) f.positive
        (omega (arith, f.within, length-trim-le minute now (reqs id))) h)

-- When the shortest wait is over, some candidate has room.
first_after :
    (now later : ℕ) (reqs : Requests) (c : ℕ × ℕ) (cs : List (ℕ × ℕ))
    → All (Fits now reqs) (c ∷ cs)
    → now + minimum (waits_for now reqs (c ∷ cs)) ≤ later
    → (id : ℕ) × (first_with_room later reqs (c ∷ cs) ≡ some id)
unfolding first_with_room
first_after now later reqs c [] f h = (c.0, rw (has_room_after now later reqs c f.0 h))
first_after now later reqs c (d ∷ cs) f h = elim (Bool-cases (has_room later reqs c)) [
  | inl e ↦ (c.0, rw (e))
  | inr e ↦
      let short : ¬ (now + wait_for now (queue_at now reqs c.0) ≤ later) =
        λ k. cc (e, has_room_after now later reqs c f.0 k) in
      let (id, p) = first_after now later reqs d cs f.1 (omega arith) in (id, rw (e) p)
]

minimum-le :
    (now : ℕ) (reqs : Requests) (c : ℕ × ℕ) (cs : List (ℕ × ℕ))
    → All (Fits now reqs) (c ∷ cs)
    → minimum (waits_for now reqs (c ∷ cs)) ≤ minute
unfolding pop_expired
minimum-le now reqs c [] f =
    wait_for-le now (queue_at now reqs c.0) (All-trim (λ t. t ≤ now) minute now (reqs c.0) f.0.past)
minimum-le now reqs c (d ∷ cs) f = omega (arith, minimum-le now reqs d cs f.1)

le→ltb-false : (a b : ℕ) → b ≤ a → ltb a b ≡ false
le→ltb-false a b h = ground arith

module _ (wake : ℕ → ℕ) (candidates : List (ℕ × ℕ)) (deadline : ℕ) where
  abbrev Ends : ℕ → ℕ → Requests → Outcome → Type 0
  Ends fuel now reqs o =
      (after : Requests) × (wait_loop wake candidates deadline fuel now reqs ≡ some (o, after))

  Ends-first :
      (f now : ℕ) (reqs : Requests) {id : ℕ}
      → first_with_room now reqs candidates ≡ some id
      → Ends (suc f) now reqs (granted id)
  unfolding wait_loop
  Ends-first f now reqs {id} h =
      let (picked, recorded) = pass-first_with_room now candidates reqs in
      go (pass now candidates [] reqs) refl
        (picked ∙ ap (λ o. outcome_of o (waits_for now reqs candidates)) h)
    where
      go :
          (r : Pass × Requests)
          → pass now candidates [] reqs ≡ r
          → r.0 ≡ reserved id
          → Ends (suc f) now reqs (granted id)
      go (reserved j, after) e p = (after, rw (e, wait_loop) (ground arith))
      go (busy waits, after) e p = absurd (ground arith)

  Ends-busy :
      (f now : ℕ) (reqs : Requests) {o : Outcome}
      → first_with_room now reqs candidates ≡ none
      → now + minimum (waits_for now reqs candidates) ≤ deadline
      → ((after : Requests)
          → SameQueues now after reqs
          → Ends f (wake (now + minimum (waits_for now reqs candidates))) after o)
      → Ends (suc f) now reqs o
  unfolding wait_loop
  Ends-busy f now reqs {o} h fits rest =
      let (full, recorded) = pass-first_with_room now candidates reqs in
      let same : SameQueues now (pass now candidates [] reqs).1 reqs = rw h at recorded in
      let (after, e) = rest (pass now candidates [] reqs).1 same in
      (
        after,
        rw
            (
              full ∙ ap (λ o. outcome_of o (waits_for now reqs candidates)) h,
              le→ltb-false deadline (now + minimum (waits_for now reqs candidates)) fits,
              wait_loop,
            )
            e,
      )

-- Candidates whose queues respect their limits, and a deadline a full minute away: the loop ends
-- in at most two passes, and it ends with a grant. `wake` may end a sleep late.
pub wait_loop-granted :
    (wake : ℕ → ℕ)
    → ((t : ℕ) → t ≤ wake t)
    → (c : ℕ × ℕ) (cs : List (ℕ × ℕ)) (deadline now : ℕ) (reqs : Requests)
    → All (Fits now reqs) (c ∷ cs)
    → now + minute ≤ deadline
    → (id : ℕ) × (after : Requests) × (wait_loop wake (c ∷ cs) deadline 2 now reqs
        ≡ some (granted id, after))
wait_loop-granted wake late c cs deadline now reqs fits h =
    elim (Option-cases (first_with_room now reqs (c ∷ cs))) [
      | inr (id, e) ↦
          let (after, p) = Ends-first wake (c ∷ cs) deadline 1 now reqs e in (id, after, p)
      | inl e ↦
          let wait = minimum (waits_for now reqs (c ∷ cs)) in
          let later = wake (now + wait) in
          let (id, q) = first_after now later reqs c cs fits (late (now + wait)) in
          let (after, p) =
            Ends-busy wake (c ∷ cs) deadline 1 now reqs {o = granted id} e
              (omega (arith, minimum-le now reqs c cs fits))
              λ after same. Ends-first wake (c ∷ cs) deadline 0 later after (
                first_with_room-SameQueues later after reqs (c ∷ cs)
                  (SameQueues-later now later after reqs (omega (arith, late (now + wait))) same)
                ∙ q) in
          (id, after, p)
    ]

none_below_one :
    (now : ℕ) (reqs : Requests) (cs : List (ℕ × ℕ))
    → All (Fits now reqs) cs
    → any (λ (id, per_minute). ltb per_minute 1) cs ≡ false
unfolding any
none_below_one now reqs [] f = refl
none_below_one now reqs (c ∷ cs) f = ground (arith, f.0.positive, none_below_one now reqs cs f.1)

-- A call of `reserve` that runs alone, no other task taking a slot between its passes: with a
-- candidate, and a wait budget that covers a minute and the time to its first pass, it is granted a
-- token in at most two passes, when every candidate's queue respects its positive limit, and however
-- late it wakes from its pause.
pub reserve-granted :
    (wake : ℕ → ℕ)
    → ((t : ℕ) → t ≤ wake t)
    → (candidates : List (ℕ × ℕ)) (now max_wait : ℕ) (reqs : Requests) → candidates ≢ []
    → All (Fits (wake now) reqs) candidates
    → wake now + minute ≤ now + max_wait
    → (id : ℕ) × (after : Requests) × (reserve wake 2 now candidates max_wait reqs
        ≡ some (granted id, after))
unfolding reserve
reserve-granted wake late [] now max_wait reqs n f h = absurd (n refl)
reserve-granted wake late (c ∷ cs) now max_wait reqs n f h =
    rw (none_below_one (wake now) reqs (c ∷ cs) f)
      (wait_loop-granted wake late c cs (now + max_wait) (wake now) reqs f h)

-- A call with no candidate, or with a limit below 1 among them, is refused on any fuel, and changes
-- no queue.
pub reserve-refused :
    (wake : ℕ → ℕ) (fuel : ℕ) (candidates : List (ℕ × ℕ)) (now max_wait : ℕ) (reqs : Requests)
    → (candidates ≡ []) ⊎ (any (λ (id, per_minute). ltb per_minute 1) candidates ≡ true)
    → reserve wake fuel now candidates max_wait reqs ≡ some (value_error, reqs)
unfolding reserve
reserve-refused wake fuel [] now max_wait reqs h = refl
reserve-refused wake fuel (c ∷ cs) now max_wait reqs h = ground arith
