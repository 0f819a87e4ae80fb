-- ===== src/RateLimit/Tushare/Choice.antt =====
-- Which token a pass reserves: the first candidate with room, and what a pass leaves in the table.
use stock_center.Base.{
  ℕ, ◌≤◌, ◌≡◌, ◌≢◌, refl, ap, sym, Bool, Option, none, some, List, [], ◌∷◌, ◌++◌, map, arith, ltb,
  ◌==◌, ==_iff, if◌then◌else◌, length, Bool-cases, inl, inr, ◌∙◌,
}
use mathlib.Core.List.{append_assoc, append-nil}
use stock_center.RateLimit.Window.{trim, trim-trim}
use stock_center.RateLimit.Tushare.{
  Requests, update, minute, pop_expired, Pass, reserved, busy, pass, wait_for,
}

-- The candidate's queue at `now`, and whether it has room.
abbrev pub queue_at : ℕ → Requests → ℕ → List ℕ
queue_at now reqs id = pop_expired now (reqs id)

abbrev pub has_room : ℕ → Requests → ℕ × ℕ → Bool
has_room now reqs (id, per_minute) = ltb (length (queue_at now reqs id)) per_minute

-- The independent description: the first candidate with room, and none if there is none.
unfoldable pub first_with_room : ℕ → Requests → List (ℕ × ℕ) → Option ℕ
first_with_room now reqs [] = none
first_with_room now reqs (c ∷ cs) =
    let rest = first_with_room now reqs cs in if has_room now reqs c then some c.0 else rest

abbrev pub chosen : Pass → Option ℕ
chosen (reserved id) = some id
chosen (busy waits) = none

abbrev pub waits_of : Pass → List ℕ
waits_of (reserved id) = []
waits_of (busy waits) = waits

-- Two tables that differ only by expired entries.
abbrev pub SameQueues : ℕ → Requests → Requests → Type 0
SameQueues now a b = (j : ℕ) → queue_at now a j ≡ queue_at now b j

pub SameQueues-later :
    (now later : ℕ) (a b : Requests) → now ≤ later → SameQueues now a b → SameQueues later a b
unfolding pop_expired
SameQueues-later now later a b h s j =
    sym (trim-trim minute now later (a j) h)
    ∙ ap (trim minute later) (s j)
    ∙ trim-trim minute now later (b j) h

SameQueues-update :
    (now : ℕ) (reqs : Requests) (id : ℕ)
    → SameQueues now (update reqs id (queue_at now reqs id)) reqs
unfolding pop_expired
SameQueues-update now reqs id j = elim (Bool-cases (id == j)) [
  | inl e ↦
      let p : id ≡ j = ground arith in
      rw (e) (rw p (trim-trim minute now now (reqs j) (omega arith)))
  | inr e ↦ rw (e)
]

pub first_with_room-SameQueues :
    (now : ℕ) (a b : Requests) (cs : List (ℕ × ℕ))
    → SameQueues now a b
    → first_with_room now a cs ≡ first_with_room now b cs
unfolding first_with_room
first_with_room-SameQueues now a b [] h = refl
first_with_room-SameQueues now a b ((id, pm) ∷ cs) h =
    rw (h id, first_with_room-SameQueues now a b cs h)

pass-chosen :
    (now : ℕ) (cs : List (ℕ × ℕ)) (waits : List ℕ) (reqs : Requests)
    → chosen (pass now cs waits reqs).0 ≡ first_with_room now reqs cs
unfolding pass first_with_room
pass-chosen now [] waits reqs = refl
pass-chosen now ((id, pm) ∷ cs) waits reqs =
    let slots = pop_expired now (reqs id) in
    elim (Bool-cases (ltb (length slots) pm)) [
      | inl e ↦ rw (e, pass)
      | inr e ↦
          rw (e, pass)
            (pass-chosen now cs (waits ++ wait_for now slots ∷ []) (update reqs id slots)
              ∙ first_with_room-SameQueues now (update reqs id slots) reqs cs
                  (SameQueues-update now reqs id))
    ]

-- What the table must hold after the choice: the chosen token's queue gains the time of the
-- grant, and every other queue keeps its unexpired requests.
abbrev pub Recorded : ℕ → Requests → Option ℕ → Requests → Type 0
Recorded now reqs none after = SameQueues now after reqs
Recorded now reqs (some id) after =
    (after id ≡ queue_at now reqs id ++ now ∷ [])
    × ((j : ℕ) → j ≢ id → queue_at now after j ≡ queue_at now reqs j)

Recorded-SameQueues :
    (now : ℕ) (a b : Requests) (o : Option ℕ) (after : Requests)
    → SameQueues now a b
    → Recorded now a o after
    → Recorded now b o after
Recorded-SameQueues now a b none after h r = λ j. r j ∙ h j
Recorded-SameQueues now a b (some id) after h r = (rw (← h id) r.0, λ j n. r.1 j n ∙ h j)

update-Recorded :
    (now : ℕ) (reqs : Requests) (id : ℕ)
    → Recorded now reqs (some id) (update reqs id (queue_at now reqs id ++ now ∷ []))
unfolding pop_expired
update-Recorded now reqs id = (
  rw ((==_iff id id).1 refl),
  λ j n. elim (Bool-cases (id == j)) [
    | inl e ↦ absurd (n (sym ((==_iff id j).0 e)))
    | inr e ↦ rw (e)
  ],
)

pass-Recorded :
    (now : ℕ) (cs : List (ℕ × ℕ)) (waits : List ℕ) (reqs : Requests)
    → Recorded now reqs (chosen (pass now cs waits reqs).0) (pass now cs waits reqs).1
unfolding pass
pass-Recorded now [] waits reqs = λ j. refl
pass-Recorded now ((id, pm) ∷ cs) waits reqs =
    let slots = pop_expired now (reqs id) in
    elim (Bool-cases (ltb (length slots) pm)) [
      | inl e ↦ rw (e, pass) (update-Recorded now reqs id)
      | inr e ↦
          rw (e, pass)
            (Recorded-SameQueues now (update reqs id slots) reqs
              (chosen (pass now cs (waits ++ wait_for now slots ∷ []) (update reqs id slots)).0)
              (pass now cs (waits ++ wait_for now slots ∷ []) (update reqs id slots)).1
              (SameQueues-update now reqs id)
              (pass-Recorded now cs (waits ++ wait_for now slots ∷ []) (update reqs id slots)))
    ]

-- The waits that a pass reports when every candidate is full.
abbrev pub waits_for : ℕ → Requests → List (ℕ × ℕ) → List ℕ
waits_for now reqs = map (λ (id, per_minute). wait_for now (queue_at now reqs id))

waits_for-SameQueues :
    (now : ℕ) (a b : Requests) (cs : List (ℕ × ℕ))
    → SameQueues now a b
    → waits_for now a cs ≡ waits_for now b cs
waits_for-SameQueues now a b [] h = refl
waits_for-SameQueues now a b ((id, pm) ∷ cs) h = rw (h id, waits_for-SameQueues now a b cs h)

pass-busy :
    (now : ℕ) (cs : List (ℕ × ℕ)) (waits : List ℕ) (reqs : Requests)
    → first_with_room now reqs cs ≡ none
    → (pass now cs waits reqs).0 ≡ busy (waits ++ waits_for now reqs cs)
unfolding pass first_with_room
pass-busy now [] waits reqs h = rw append-nil
pass-busy now ((id, pm) ∷ cs) waits reqs h =
    let slots = pop_expired now (reqs id) in
    elim (Bool-cases (ltb (length slots) pm)) [
      | inl e ↦ absurd (ground arith)
      | inr e ↦
          let same = SameQueues-update now reqs id in
          rw (e, pass)
            (pass-busy now cs (waits ++ wait_for now slots ∷ []) (update reqs id slots)
                (first_with_room-SameQueues now (update reqs id slots) reqs cs same ∙ ground arith)
              ∙ ap (λ l. busy ((waits ++ wait_for now slots ∷ []) ++ l))
                  (waits_for-SameQueues now (update reqs id slots) reqs cs same)
              ∙ ap busy (append_assoc waits (wait_for now slots ∷ []) (waits_for now reqs cs)))
    ]

-- What a pass returns for the candidate that it chose.
abbrev pub outcome_of : Option ℕ → List ℕ → Pass
outcome_of none waits = busy waits
outcome_of (some id) waits = reserved id

-- A pass reserves the first candidate with room in the order given, and if none has room it reserves
-- nothing and reports each candidate's wait, in order; it records a grant in that token's queue alone
-- and keeps every unexpired request.
pub pass-first_with_room :
    (now : ℕ) (cs : List (ℕ × ℕ)) (reqs : Requests)
    → ((pass now cs [] reqs).0 ≡ outcome_of (first_with_room now reqs cs) (waits_for now reqs cs))
      × Recorded now reqs (first_with_room now reqs cs) (pass now cs [] reqs).1
pass-first_with_room now cs reqs = (
  told (first_with_room now reqs cs) refl (pass now cs [] reqs).0 refl,
  rw (← pass-chosen now cs [] reqs) (pass-Recorded now cs [] reqs),
)
  where
    told :
        (o : Option ℕ)
        → first_with_room now reqs cs ≡ o
        → (p : Pass) → (pass now cs [] reqs).0 ≡ p
        → p ≡ outcome_of o (waits_for now reqs cs)
    told none e p q = sym q ∙ pass-busy now cs [] reqs e
    told (some id) e (reserved k) q =
        let c : some k ≡ some id = cc (pass-chosen now cs [] reqs, q, e) in cc
    told (some id) e (busy ws) q =
        let c : none ≡ some id = cc (pass-chosen now cs [] reqs, q, e) in cc
