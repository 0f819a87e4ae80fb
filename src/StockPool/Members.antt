-- ===== src/StockPool/Members.antt =====
-- Who is a member after a batch of stocks is added to a pool.
use stock_center.Base.{
  ℕ, ◌+◌, ◌≡◌, refl, sym, ap, ◌∙◌, Bool, true, false, not, some, List, [], ◌∷◌, ◌++◌, map, All,
  All-map_of, Bool-cases, Option-cases, inl, inr, if◌then◌else◌, ◌&&◌, ◌||◌, ◌==◌, any, select,
  arith, String, length, length-append,
}
use stock_center.Base.Text.{Text, text_eq, text_eq_sound, text_eq_refl}
use stock_center.StockPool.{
  StockPool, StockPoolMember, Tables, member_is, is_one_of, is_member, get_pool,
  existing_stock_codes, existing_member_codes,
}
use stock_center.StockPool as Table
use stock_center.StockPool.Rows.{List-cases, none_left}
use stock_center.Base.Slices.{taken_from}
use stock_center.StockPool.Service.{
  ErrorCode, Result, ok, error, dynamic_stock_pool_read_only, BatchResult, add_codes, with_pool,
  unique, cleaned, add_members,
}

any-append {ℓ} :
    {A : Type ℓ} (p : A → Bool) (xs ys : List A) → any p (xs ++ ys) ≡ (any p xs || any p ys)
unfolding any
any-append p [] ys = refl
any-append p (x ∷ xs) ys = ground (arith, any-append p xs ys)

one_of-select :
    (q : Text → Bool) (xs : List Text) (c : Text)
    → is_one_of (select q xs) c ≡ (is_one_of xs c && q c)
unfolding is_one_of any select
one_of-select q [] c = refl
one_of-select q (x ∷ xs) c = elim (Bool-cases (text_eq x c)) [
  | inr e ↦ ground (arith, e, one_of-select q xs c)
  | inl e ↦ rw (text_eq_sound x c e) (ground (arith, text_eq_refl c, one_of-select q xs c))
]

present_codes :
    (id : ℕ) (codes : List Text) (ms : List StockPoolMember) (c : Text)
    → any
        (λ d. text_eq d c)
        (map (λ m. m.stock_code) (select (λ m. m.pool_id == id && is_one_of codes m.stock_code) ms))
      ≡ (any (member_is id c) ms && is_one_of codes c)
unfolding any select
present_codes id codes [] c = refl
present_codes id codes (m ∷ ms) c = elim (Bool-cases (text_eq m.stock_code c)) [
  | inr e ↦ ground (arith, e, present_codes id codes ms c)
  | inl e ↦
      let same : is_one_of codes m.stock_code ≡ is_one_of codes c =
        ap (is_one_of codes) (text_eq_sound m.stock_code c e) in
      ground (arith, e, same, present_codes id codes ms c)
]

module _ (now id : ℕ) where
  abbrev row_of : Text → StockPoolMember
  row_of code = record { pool_id = id; stock_code = code; created_at = now }

  after_row :
      (code c : Text) (i : ℕ) (t : Tables)
      → is_member i c (record t { members = t.members ++ row_of code ∷ [] })
        ≡ (is_member i c t || (id == i && text_eq code c))
  unfolding is_member any
  after_row code c i t = any-append (member_is i c) t.members (row_of code ∷ []) ∙ ground arith

  add_members-member :
      (codes : List Text) (t : Tables) (c : Text)
      → is_member id c (Table.add_members now id codes t).1
        ≡ (is_member id c t || is_one_of codes c)
  unfolding Table.add_members is_one_of any
  add_members-member [] t c = ground arith
  add_members-member (code ∷ codes) t c = elim (Bool-cases (is_member id code t)) [
    | inl here ↦ rw (here) (elim (Bool-cases (text_eq code c)) [
      | inr e ↦ ground (arith, e, add_members-member codes t c)
      | inl e ↦
          let there : is_member id c t ≡ true =
            ap (λ d. is_member id d t) (sym (text_eq_sound code c e)) ∙ here in
          ground (arith, there, add_members-member codes t c)
    ])
    | inr absent ↦ rw (absent) (
        ground (
          arith,
          add_members-member codes (record t { members = t.members ++ row_of code ∷ [] }) c,
          after_row code c id t,
        ))
  ]

  add_members-other :
      (codes : List Text) (t : Tables) (i : ℕ) (c : Text)
      → (id == i) ≡ false
      → is_member i c (Table.add_members now id codes t).1 ≡ is_member i c t
  unfolding Table.add_members
  add_members-other [] t i c e = refl
  add_members-other (code ∷ codes) t i c e = elim (Bool-cases (is_member id code t)) [
    | inl here ↦ rw (here) (add_members-other codes t i c e)
    | inr absent ↦ rw (absent) (
        add_members-other codes (record t { members = t.members ++ row_of code ∷ [] }) i c e
        ∙ (after_row code c i t ∙ ground (arith, e)))
  ]

  add_members-count :
      (codes : List Text) (t : Tables)
      → length (Table.add_members now id codes t).1.members
        ≡ length t.members + (Table.add_members now id codes t).0
  unfolding Table.add_members
  add_members-count [] t = omega arith
  add_members-count (code ∷ codes) t = elim (Bool-cases (is_member id code t)) [
    | inl here ↦ rw (here) (omega (arith, add_members-count codes t))
    | inr absent ↦
        let next : Tables = record t { members = t.members ++ row_of code ∷ [] } in
        rw (absent)
          (omega (arith, add_members-count codes next, length-append t.members (row_of code ∷ [])))
  ]

-- What a batch that is added to a pool has done.
pub record Added (pool : StockPool) (t : Tables) (r : BatchResult) (after : Tables) : Type 0 where
  -- the stocks of the batch are members now, and no other stock becomes or ceases to be one
  pub member :
      (c : Text) → is_member pool.id c after ≡ (is_member pool.id c t || is_one_of r.stock_codes c)
  pub others :
      (id : ℕ) (c : Text) → (pool.id == id) ≡ false → is_member id c after ≡ is_member id c t
  -- the count is of the rows that are new, and all stocks are known
  pub count : length after.members ≡ length t.members + r.added_count
  pub known : All (λ c. is_one_of t.stocks c ≡ true) r.stock_codes

ok-injective :
    {A : Type 0} {a b : A} {t u : Tables}
    → ◌≡◌ {A = Result A × Tables} (ok a, t) (ok b, u)
    → (a ≡ b) × (t ≡ u)
ok-injective e = (cc, cc)

error≢ok :
    {A : Type 0} {e : ErrorCode} {a : A} {t u : Tables}
    → ◌≡◌ {A = Result A × Tables} (error e, t) (ok a, u)
    → ⊥
error≢ok e = cc

module _ (now : ℕ) (pool : StockPool) (code : Text) (codes : List Text) (t : Tables) where
  new_codes : List Text
  new_codes =
      select (λ c. not (is_one_of (existing_member_codes pool.id (code ∷ codes) t) c))
        (code ∷ codes)

  now_members :
      (c : Text)
      → is_member pool.id c (Table.add_members now pool.id new_codes t).1
        ≡ (is_member pool.id c t || is_one_of (code ∷ codes) c)
  unfolding is_member existing_member_codes is_one_of new_codes
  now_members c =
      add_members-member now pool.id new_codes t c
      ∙ ground (
        arith,
        one_of-select (λ d. not (is_one_of (existing_member_codes pool.id (code ∷ codes) t) d))
            (code ∷ codes) c,
        present_codes pool.id (code ∷ codes) t.members c,
      )

  known_codes :
      select (λ c. not (is_one_of (existing_stock_codes (code ∷ codes) t) c)) (code ∷ codes) ≡ []
      → All (λ c. is_one_of t.stocks c ≡ true) (code ∷ codes)
  unfolding existing_stock_codes is_one_of
  known_codes e =
      All-map_of (λ c. is_one_of (existing_stock_codes (code ∷ codes) t) c ≡ true)
        (λ c. is_one_of t.stocks c ≡ true) (λ c k. taken_from _ _ t.stocks k) (code ∷ codes)
        (none_left _ (code ∷ codes) e)

  add_codes-Added :
      (r : BatchResult) (after : Tables)
      → add_codes now pool (code ∷ codes) t ≡ (ok r, after)
      → Added pool t r after × (r.stock_codes ≡ code ∷ codes)
  unfolding add_codes new_codes
  add_codes-Added r after e =
      elim (List-cases
        (select (λ c. not (is_one_of (existing_stock_codes (code ∷ codes) t) c)) (code ∷ codes))) [
          | inr (unknown, more, u) ↦ absurd (error≢ok (rw (add_codes, u) at e))
          | inl known ↦
              let (same_result, same_tables) = ok-injective (rw (add_codes, known) at e) in
              rw (← same_tables) (
                rw (← same_result) (
                  record {
                    member = now_members;
                    others = λ id c k. add_members-other now pool.id new_codes t id c k;
                    count = add_members-count now pool.id new_codes t;
                    known = known_codes known;
                  },
                  refl,
                ))
        ]

some-Added :
    (now : ℕ) (pool : StockPool) (codes : List Text) (t : Tables) (r : BatchResult) (after : Tables)
    → add_codes now pool codes t ≡ (ok r, after)
    → Added pool t r after × (r.stock_codes ≡ codes)
unfolding add_codes
some-Added now pool [] t r after e = absurd (error≢ok e)
some-Added now pool (c ∷ cs) t r after e = add_codes-Added now pool c cs t r after e

editable-Added :
    (now : ℕ) (pool : StockPool) (codes : List Text) (t : Tables) (r : BatchResult) (after : Tables)
    → (if pool.is_dynamic
        then (error dynamic_stock_pool_read_only, t)
        else add_codes now pool codes t)
      ≡ (ok r, after)
    → (pool.is_dynamic ≡ false) × Added pool t r after × (r.stock_codes ≡ codes)
unfolding add_codes
editable-Added now pool codes t r after e = elim (Bool-cases pool.is_dynamic) [
  | inl ruled ↦ absurd (error≢ok (simp (ruled) at e))
  | inr editable ↦
      let (added, same) = some-Added now pool codes t r after (simp (editable) at e) in
      (editable, added, same)
]

with_pool-ok :
    {A : Type 0} (pool_code : String) (t : Tables) (continue : StockPool → Result A × Tables)
    (a : A) (after : Tables)
    → with_pool pool_code t continue ≡ (ok a, after)
    → (pool : StockPool) × (get_pool pool_code t ≡ some pool) × (continue pool ≡ (ok a, after))
with_pool-ok pool_code t continue a after e = elim (Option-cases (get_pool pool_code t)) [
  | inl absent ↦ absurd (error≢ok (rw (with_pool, absent) at e))
  | inr (pool, found) ↦ (pool, found, rw (with_pool, found) at e)
]

-- A batch that is added without an error has gone to a pool that no rule maintains, and what it has
-- done to the members is: exactly the stocks of the batch, cleaned and each once, are members now
-- besides those that were, in no other pool does anything change, the count is of the rows that are
-- new, and every stock of the batch is known.
pub add_members-Added :
    (now : ℕ) (pool_code : String) (codes : List Text) (t : Tables) (r : BatchResult)
    (after : Tables)
    → add_members now pool_code codes t ≡ (ok r, after)
    → (pool : StockPool) × (get_pool pool_code t ≡ some pool)
      × (pool.is_dynamic ≡ false)
      × Added pool t r after
      × (r.stock_codes ≡ unique (cleaned codes))
unfolding add_members
add_members-Added now pool_code codes t r after e =
    let (pool, found, done) = with_pool-ok pool_code t _ r after e in
    let (editable, added, same) = editable-Added now pool (unique (cleaned codes)) t r after done in
    (pool, found, editable, added, same)
