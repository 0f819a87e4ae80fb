-- ===== src/Targets/Rotation.antt =====
-- Which targets a round of minute bars asks for, and how the overflow takes turns.
use stock_center.Base.{
  ℕ, zero, suc, ◌+◌, ◌-◌, ◌*◌, ◌/◌, ◌%◌, ◌≤◌, ◌<◌, ◌≡◌, sym, ap, ◌∙◌, some, List, [], ◌∷◌, ◌++◌,
  length, get_elem?, min, take, drop, select, arith, length-append,
}
use stock_center.Base.Slices.{
  length-take, length-drop, get_elem?-take, get_elem?-drop, get_elem?-append_left,
  get_elem?-append_right, get_elem?-lt, Listed,
}
use native.Mathlib.Decide.{dec_lt}
use native.Mathlib.Nat.{mod-lt, mod-add-mod, mod-eq_of_lt, mod-eq-sub-mod, div-add-mod'}
use stock_center.Targets.{Target}
use stock_center.Targets.Plan.{
  RealtimeSettings, is_guaranteed, registered_targets, overflow_of, rotated, minute_target_plan,
}

-- The cursor's place and the next ones, around the list.
place_before : (c j n : ℕ) → c % n + j < n → (c + j) % n ≡ c % n + j
place_before c j n h = sym (mod-add-mod c n j) ∙ mod-eq_of_lt h

place_behind : (c j n : ℕ) → j < n → n ≤ c % n + j → (c + j) % n ≡ c % n + j - n
place_behind c j n h k =
    let below : c % n < n = mod-lt c (omega (arith, h)) in
    sym (mod-add-mod c n j) ∙ mod-eq-sub-mod k ∙ mod-eq_of_lt (omega (arith, below, h, k))

pub length-rotated : (c k : ℕ) (xs : List Target) → length (rotated c k xs) ≡ min k (length xs)
unfolding rotated
length-rotated c k [] = omega arith
length-rotated c k (t ∷ ts) =
    let o : ℕ = c % length (t ∷ ts) in
    omega (
      arith,
      length-take k (drop o (t ∷ ts) ++ take o (t ∷ ts)),
      length-append (drop o (t ∷ ts)) (take o (t ∷ ts)),
      length-drop o (t ∷ ts),
      length-take o (t ∷ ts),
      mod-lt c {m = length (t ∷ ts)} (omega arith),
    )

-- The member that is asked for at each place.
get_elem?-rotated :
    (c k j : ℕ) (xs : List Target)
    → j < k
    → j < length xs
    → get_elem? (rotated c k xs) j ≡ get_elem? xs ((c + j) % length xs)
unfolding rotated
get_elem?-rotated c k j [] h below = absurd (omega (arith, below))
get_elem?-rotated c k j (t ∷ ts) h below =
    let n : ℕ = length (t ∷ ts) in
    let o : ℕ = c % n in
    let xs : List Target = t ∷ ts in
    let o_below : o < n = mod-lt c (omega arith) in
    get_elem?-take k j (drop o xs ++ take o xs) h ∙ elim (dec_lt (o + j) n) [
      | yes p ↦
          get_elem?-append_left (drop o xs) (take o xs) j (omega (arith, p, length-drop o xs))
          ∙ get_elem?-drop o j xs
          ∙ ap (get_elem? xs) (sym (place_before c j n p))
      | no p ↦
          let split : j ≡ length (drop o xs) + (o + j - n) =
            omega (arith, p, o_below, below, length-drop o xs) in
          ap (get_elem? (drop o xs ++ take o xs)) split
          ∙ get_elem?-append_right (drop o xs) (take o xs) (o + j - n)
          ∙ get_elem?-take o (o + j - n) xs (omega (arith, p, o_below, below))
          ∙ ap (get_elem? xs) (sym (place_behind c j n below (omega (arith, p))))
    ]

-- How far a place is behind the cursor's.
distance : (c i n : ℕ) → i < n → (d : ℕ) × (d < n) × ((c + d) % n ≡ i)
distance c i n h =
    let o : ℕ = c % n in
    let below : o < n = mod-lt c (omega (arith, h)) in
    elim (dec_lt i o) [
      | yes p ↦ (
        i + n - o,
        omega (arith, below, h, p),
        place_behind c (i + n - o) n (omega (arith, below, h, p)) (omega (arith, below, h, p))
            ∙ omega (arith, below, h, p),
      )
      | no p ↦ (
        i - o,
        omega (arith, below, h, p),
        place_before c (i - o) n (omega (arith, below, h, p)) ∙ omega (arith, below, h, p),
      )
    ]

-- Rounds of `k` places each come to every place.
place_in_round :
    (c i n k : ℕ)
    → i < n
    → 0 < k
    → (r : ℕ) × (j : ℕ) × (r * k < n) × (j < k) × ((c + r * k + j) % n ≡ i)
place_in_round c i n k h positive =
    let (d, below, there) = distance c i n h in
    let whole : d / k * k + d % k ≡ d = div-add-mod' d k in
    let same : c + d / k * k + d % k ≡ c + d = omega (arith, whole) in
    (
      d / k,
      d % k,
      omega (arith, whole, below),
      mod-lt d positive,
      ap (λ (x : ℕ). x % n) same ∙ there,
    )

rounds_bound : (r f n : ℕ) → 0 < n → r * min f n < n → r * f < n
rounds_bound zero f n positive h = omega (arith, positive)
rounds_bound (suc r) f n positive h = elim (dec_lt n f) [
  | yes p ↦ let whole : min f n ≡ n = omega (arith, p) in absurd (omega (arith, rw (whole) at h))
  | no p ↦ let small : min f n ≡ f = omega (arith, p) in omega (arith, rw (small) at h)
]

-- The slots that the guaranteed targets of a round leave.
abbrev pub free_slots : RealtimeSettings → List Target → ℕ
free_slots s targets =
    s.minute_guaranteed_target_count
    - length (
        take s.minute_guaranteed_target_count (select is_guaranteed (registered_targets s targets)))

-- The cursor after rounds with the same targets.
unfoldable pub cursor_after : ℕ → RealtimeSettings → ℕ → List Target → ℕ
unfolding minute_target_plan
cursor_after zero s cursor targets = cursor
cursor_after (suc r) s cursor targets =
    cursor_after r s (minute_target_plan s cursor targets).rotation_cursor targets

module _ (s : RealtimeSettings) (targets : List Target) where
  abbrev turn : ℕ
  turn = min (free_slots s targets) (length (overflow_of s targets))

  cursor_after_lem : (r cursor : ℕ) → cursor_after r s cursor targets ≡ cursor + r * turn
  unfolding cursor_after minute_target_plan
  cursor_after_lem zero cursor = omega arith
  cursor_after_lem (suc r) cursor =
      let moved : (minute_target_plan s cursor targets).rotation_cursor ≡ cursor + turn =
        ap (λ (x : ℕ). cursor + x)
          (length-rotated cursor (free_slots s targets) (overflow_of s targets)) in
      cursor_after_lem r (minute_target_plan s cursor targets).rotation_cursor
      ∙ ap (λ (x : ℕ). x + r * turn) moved
      ∙ grind arith

  selected_turn :
      (cursor j : ℕ) {t : Target}
      → get_elem? (rotated cursor (free_slots s targets) (overflow_of s targets)) j ≡ some t
      → Listed t (minute_target_plan s cursor targets).selected
  unfolding minute_target_plan
  selected_turn cursor j e =
      let kept =
        take s.minute_guaranteed_target_count
          (select is_guaranteed (registered_targets s targets)) in
      (
        length kept + j,
        get_elem?-append_right kept (rotated cursor (free_slots s targets) (overflow_of s targets))
              j
            ∙ e,
      )

  -- With a slot free in every round, and with the same targets in every round: wherever the cursor
  -- stands, each target of the overflow is asked for after less rounds than it takes to go once
  -- around the overflow.
  pub rotation-fair :
      (cursor : ℕ) (t : Target)
      → 0 < free_slots s targets
      → Listed t (overflow_of s targets)
      → (r : ℕ) × (r * free_slots s targets < length (overflow_of s targets))
        × Listed t (minute_target_plan s (cursor_after r s cursor targets) targets).selected
  rotation-fair cursor t free (i, e) =
      let below : i < length (overflow_of s targets) = get_elem?-lt (overflow_of s targets) i e in
      let positive : 0 < turn = omega (arith, free, below) in
      let (r, j, once, within, there) =
        place_in_round cursor i (length (overflow_of s targets)) turn below positive in
      (
        r,
        rounds_bound r (free_slots s targets) (length (overflow_of s targets))
            (omega (arith, below)) once,
        selected_turn (cursor_after r s cursor targets) j (
            ap (λ c. get_elem? (rotated c (free_slots s targets) (overflow_of s targets)) j)
              (cursor_after_lem r cursor)
            ∙ get_elem?-rotated (cursor + r * turn) (free_slots s targets) j (overflow_of s targets)
                (omega (arith, within)) (omega (arith, within))
            ∙ ap (get_elem? (overflow_of s targets)) there
            ∙ e),
      )
