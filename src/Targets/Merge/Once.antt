-- ===== src/Targets/Merge/Once.antt =====
-- No stock is grouped, and so none is a target, twice.
use stock_center.Base.{
  ℕ, ◌≡◌, refl, ap, ◌∙◌, Bool, true, false, List, [], ◌∷◌, All, Bool-cases, if-cases, inl, inr,
  if◌then◌else◌, any, arith,
}
use stock_center.Base.Text.{Text, text_eq, text_eq_sound, text_eq_refl}
use stock_center.StockPool.{is_one_of}
use stock_center.StockPool.Rows.{Distinct}
use stock_center.Targets.{
  Pool, Membership, Grouped, Reference, add_to, add_active, in_pool, watched, moving, takes_part,
  add_pools, insert, sorted, strong_codes, by_code,
}
use stock_center.Targets.Merge.Grouping.{All-insert, All-sorted, has}

pub text_eq_sym : (s t : Text) → text_eq s t ≡ false → text_eq t s ≡ false
text_eq_sym s t h = elim (Bool-cases (text_eq t s)) [
  | inr e ↦ e
  | inl e ↦
      let same : text_eq s t ≡ true = ap (text_eq s) (text_eq_sound t s e) ∙ text_eq_refl s in
      absurd (ground (arith, same, h))
]

abbrev pub same_key : Text × List Membership → Text × List Membership → Bool
same_key a b = text_eq b.0 a.0

pub has_not :
    (code : Text) (d : Grouped) → All (λ e. text_eq e.0 code ≡ false) d → has code d ≡ false
unfolding any
has_not code [] h = refl
has_not code (e ∷ d) h = ground (arith, h.0, has_not code d h.1)

add_to-apart :
    (q : Text → Bool) (code : Text) (m : Membership) (d : Grouped)
    → q code ≡ false
    → All (λ e. q e.0 ≡ false) d
    → All (λ e. q e.0 ≡ false) (add_to code m d)
unfolding add_to
add_to-apart q code m [] k h = (k, tt)
add_to-apart q code m ((c, ms) ∷ d) k h = elim (Bool-cases (text_eq c code)) [
  | inl e ↦ rw (e) h
  | inr e ↦ rw (e) (h.0, add_to-apart q code m d k h.1)
]

add_to-Distinct :
    (code : Text) (m : Membership) (d : Grouped)
    → Distinct same_key d
    → Distinct same_key (add_to code m d)
unfolding add_to
add_to-Distinct code m [] h = (tt, tt)
add_to-Distinct code m ((c, ms) ∷ d) h = elim (Bool-cases (text_eq c code)) [
  | inl e ↦ rw (e) h
  | inr e ↦ rw (e) (
    add_to-apart (λ s. text_eq s c) code m d (text_eq_sym c code e) h.0,
    add_to-Distinct code m d h.1,
  )
]

add_active-Distinct :
    (active : List Text) (m : Membership) (codes : List Text) (d : Grouped)
    → Distinct same_key d
    → Distinct same_key (add_active active m codes d)
unfolding add_active
add_active-Distinct active m [] d h = h
add_active-Distinct active m (c ∷ cs) d h =
    add_active-Distinct active m cs (if is_one_of active c then add_to c m d else d) (
      if-cases {A = Grouped} (Distinct same_key) (is_one_of active c) (λ e. add_to-Distinct c m d h)
        (λ e. h))

add_pools-Distinct :
    (active : List Text) (ps : List Pool) (d : Grouped)
    → Distinct same_key d
    → Distinct same_key (add_pools active ps d)
unfolding add_pools
add_pools-Distinct active [] d h = h
add_pools-Distinct active (p ∷ ps) d h =
    add_pools-Distinct active ps
      (if takes_part p then add_active active (in_pool p) p.stock_codes d else d)
      (if-cases {A = Grouped} (Distinct same_key) (takes_part p)
        (λ e. add_active-Distinct active (in_pool p) p.stock_codes d h) (λ e. h))

pub by_code-Distinct : (limit : ℕ) (r : Reference) → Distinct same_key (by_code limit r)
unfolding by_code
by_code-Distinct limit r =
    add_active-Distinct r.active_codes moving
      (strong_codes r.active_codes limit r.market_round_quotes) _
      (add_active-Distinct r.active_codes watched r.page_targets _
        (add_pools-Distinct r.active_codes r.pools [] tt))

module _ {ℓ} {A : Type ℓ} (before same : A → A → Bool)
    (turned : (a b : A) → same a b ≡ false → same b a ≡ false) where
  insert-Distinct :
      (x : A) (ys : List A)
      → All (λ y. same x y ≡ false) ys
      → Distinct same ys
      → Distinct same (insert before x ys)
  unfolding insert
  insert-Distinct x [] h d = (tt, tt)
  insert-Distinct x (y ∷ ys) h d = elim (Bool-cases (before x y)) [
    | inl e ↦ rw (e) (h, d)
    | inr e ↦ rw (e) (
      All-insert before (λ z. same y z ≡ false) x ys (turned x y h.0) d.0,
      insert-Distinct x ys h.1 d.1,
    )
  ]

  pub sorted-Distinct : (xs : List A) → Distinct same xs → Distinct same (sorted before xs)
  unfolding sorted
  sorted-Distinct [] d = tt
  sorted-Distinct (x ∷ xs) d =
      insert-Distinct x (sorted before xs) (All-sorted before (λ y. same x y ≡ false) xs d.0)
        (sorted-Distinct xs d.1)
