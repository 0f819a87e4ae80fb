-- ===== src/Targets/Decision.antt =====
-- The two lists that the targets of a round of quotes are split into.
use stock_center.Base.{◌≤◌, ◌≡◌, ◌⊎◌, true, List, length, drop, select, inl, inr, length-take-le}
use stock_center.Base.Slices.{
  Listed, Listed-take, Listed-drop, Listed-select, Listed-select_of, Listed-split, Listed-append,
  Listed-append_left, Listed-append_right,
}
use stock_center.Targets.{Target}
use stock_center.Targets.Plan.{RealtimeSettings, is_hot, is_warm, build_decision_targets}

module _ (s : RealtimeSettings) (targets : List Target) where
  -- The hot list has no more targets than its limit, and both lists have targets of the runtime only.
  -- Every target whose quote lane is hot or warm is in one of the two: no overflow of the hot ones is
  -- lost.
  pub build_decision_targets-Kept :
      (length (build_decision_targets s targets).0 ≤ s.decision_target_limit)
      × ((t : Target)
          → Listed t (build_decision_targets s targets).0
            ⊎ Listed t (build_decision_targets s targets).1
          → Listed t targets)
      × ((t : Target)
          → Listed t targets
          → (is_hot t ≡ true) ⊎ (is_warm t ≡ true)
          → Listed t (build_decision_targets s targets).0
            ⊎ Listed t (build_decision_targets s targets).1)
  unfolding build_decision_targets
  build_decision_targets-Kept =
      let limit = s.decision_target_limit in
      let hot_ones = select is_hot targets in
      let warm_ones = select is_warm targets in
      (
        length-take-le limit hot_ones,
        (λ t h. elim h [
          | inl k ↦ Listed-select is_hot targets t (Listed-take limit hot_ones k)
          | inr k ↦ elim (Listed-append (drop limit hot_ones) warm_ones k) [
            | inl d ↦ Listed-select is_hot targets t (Listed-drop limit hot_ones d)
            | inr w ↦ Listed-select is_warm targets t w
          ]
        ]),
        (λ t (i, e) lane. elim lane [
          | inl heated ↦
              let (j, k) = Listed-select_of is_hot targets i e heated in
              elim (Listed-split limit hot_ones j k) [
                | inl now ↦ inl now
                | inr later ↦ inr (Listed-append_left (drop limit hot_ones) warm_ones later)
              ]
          | inr warmed ↦ inr (
              Listed-append_right (drop limit hot_ones) warm_ones
                (Listed-select_of is_warm targets i e warmed))
        ]),
      )
