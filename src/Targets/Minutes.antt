-- ===== src/Targets/Minutes.antt =====
-- What bounds a round of minute bars, and when its targets never change.
use stock_center.Base.{
  ℕ, ◌+◌, ◌%◌, ◌≤◌, ◌≡◌, refl, ap, ◌∙◌, List, [], ◌∷◌, ◌++◌, length, take, drop, select, arith, inl,
  inr, length-append, length-take-le,
}
use mathlib.Core.List.{append-nil}
use stock_center.Base.Slices.{
  length-take, Listed, Listed-take, Listed-drop, Listed-select, Listed-append,
}
use stock_center.Targets.{Target}
use stock_center.Targets.Plan.{
  RealtimeSettings, MinutePlan, is_guaranteed, is_rotating, registered_targets, overflow_of,
  rotated, minute_target_plan,
}
use stock_center.Targets.Rotation.{length-rotated, free_slots}

Listed-rotated : (c k : ℕ) (xs : List Target) (t : Target) → Listed t (rotated c k xs) → Listed t xs
unfolding rotated
Listed-rotated c k [] t h = h
Listed-rotated c k (x ∷ xs) t h =
    let o : ℕ = c % length (x ∷ xs) in
    elim (Listed-append (drop o (x ∷ xs)) (take o (x ∷ xs)) (Listed-take k _ h)) [
      | inl d ↦ Listed-drop o (x ∷ xs) d
      | inr u ↦ Listed-take o (x ∷ xs) u
    ]

-- What holds of a plan for minute bars.
pub record Bounded (s : RealtimeSettings) (targets : List Target) (p : MinutePlan) : Type 0 where
  pub few : length p.selected ≤ s.minute_guaranteed_target_count
  pub enough : length p.registered ≤ s.minute_registered_target_limit
  pub known : (t : Target) → Listed t p.selected → Listed t p.registered
  pub wanted : (t : Target) → Listed t p.registered → Listed t targets
  pub counted : length p.selected ≡ p.guaranteed_selected_count + p.rotating_selected_count

module _ (s : RealtimeSettings) (targets : List Target) where
  of_registered :
      (t : Target) → Listed t (overflow_of s targets) → Listed t (registered_targets s targets)
  of_registered t h =
      let registered = registered_targets s targets in
      elim (Listed-append (drop s.minute_guaranteed_target_count (select is_guaranteed registered))
        (select is_rotating registered) h) [
          | inl d ↦
              Listed-select is_guaranteed registered t
                (Listed-drop s.minute_guaranteed_target_count (select is_guaranteed registered) d)
          | inr u ↦ Listed-select is_rotating registered t u
        ]

  of_targets : (t : Target) → Listed t (registered_targets s targets) → Listed t targets
  of_targets t h =
      elim (Listed-append (select is_guaranteed targets) (select is_rotating targets)
        (Listed-take s.minute_registered_target_limit _ h)) [
          | inl g ↦ Listed-select is_guaranteed targets t g
          | inr r ↦ Listed-select is_rotating targets t r
        ]

  -- A round asks for no more targets than its count, and registers no more than its limit. It asks
  -- for registered targets only, and registers only targets of the runtime; its two counts add up to
  -- the targets that it asks for.
  pub minute_target_plan-Bounded :
      (cursor : ℕ) → Bounded s targets (minute_target_plan s cursor targets)
  unfolding minute_target_plan
  minute_target_plan-Bounded cursor =
      let registered = registered_targets s targets in
      let kept = take s.minute_guaranteed_target_count (select is_guaranteed registered) in
      let turns = rotated cursor (free_slots s targets) (overflow_of s targets) in
      record {
        few = omega (
          arith,
          length-append kept turns,
          length-rotated cursor (free_slots s targets) (overflow_of s targets),
          length-take-le s.minute_guaranteed_target_count (select is_guaranteed registered),
        );
        enough = length-take-le s.minute_registered_target_limit _;
        known = λ t h. elim (Listed-append kept turns h) [
          | inl k ↦
              Listed-select is_guaranteed registered t
                (Listed-take s.minute_guaranteed_target_count (select is_guaranteed registered) k)
          | inr r ↦
              of_registered t
                (Listed-rotated cursor (free_slots s targets) (overflow_of s targets) t r)
        ];
        wanted = of_targets;
        counted = length-append kept turns;
      }

  no_turns : (cursor : ℕ) (xs : List Target) → rotated cursor 0 xs ≡ []
  unfolding rotated take
  no_turns cursor [] = refl
  no_turns cursor (x ∷ xs) = refl

  -- Where the registered guaranteed targets are as many as the count, or more, every round, wherever
  -- the cursor stands, asks for the first of them, as many as the count, and for no other: the
  -- overflow never takes a turn.
  pub overflow-waits :
      (cursor : ℕ)
      → s.minute_guaranteed_target_count
        ≤ length (select is_guaranteed (registered_targets s targets))
      → (minute_target_plan s cursor targets).selected
        ≡ take s.minute_guaranteed_target_count
            (select is_guaranteed (registered_targets s targets))
  unfolding minute_target_plan
  overflow-waits cursor full =
      let kept =
        take s.minute_guaranteed_target_count
          (select is_guaranteed (registered_targets s targets)) in
      let none_free : free_slots s targets ≡ 0 = omega (
        arith,
        full,
        length-take s.minute_guaranteed_target_count
            (select is_guaranteed (registered_targets s targets)),
      ) in
      ap (λ k. kept ++ rotated cursor k (overflow_of s targets)) none_free
      ∙ ap (λ l. kept ++ l) (no_turns cursor (overflow_of s targets))
      ∙ append-nil kept
