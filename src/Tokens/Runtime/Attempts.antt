-- ===== src/Tokens/Runtime/Attempts.antt =====
-- The attempts with one token: how many calls they make, and when they serve the call.
use stock_center.Base.{
  Bool, Bool-cases, List, Option, [], any, ap, arith, false, inl, inr, length, length-append, not,
  refl, some, suc, true, zero, ℕ, ◌&&◌, ◌++◌, ◌+◌, ◌==◌, ◌||◌, ◌∷◌, ◌≡◌, ◌≤◌,
}
use stock_center.Tokens.Runtime.{
  Call, Reply, replies, transport_error, raises, Tables, Tried, over, continues, is_transport,
  record_failure, record_success, try_once, attempts,
}

-- A call with the token is on record.
abbrev pub called : ℕ → Call → Bool
called id l = l.config_value_id == id

module _ {T : Type 0} (operation : ℕ → ℕ → Reply T) (clock : ℕ → ℕ → ℕ)
    (cooldown_seconds retry_backoff_seconds : ℕ) (fallback : Bool) where
  abbrev calls_of : Tried T → ℕ
  calls_of (over r t) = length t.calls
  calls_of (continues t) = length t.calls

  abbrev once : Bool → ℕ → Bool → ℕ → Tables → Tried T
  once = try_once operation clock cooldown_seconds retry_backoff_seconds fallback

  abbrev pub loop : ℕ → ℕ → Bool → ℕ → Tables → Option T × Tables
  loop = attempts operation clock cooldown_seconds retry_backoff_seconds fallback

  one_more : (calls : List Call) (c : Call) → length (calls ++ c ∷ []) ≡ length calls + 1
  one_more calls c = length-append calls (c ∷ [])

  try_once-calls :
      (last : Bool) (attempt : ℕ) (several : Bool) (id : ℕ) (t : Tables)
      → calls_of (once last attempt several id t) ≡ length t.calls + 1
  unfolding try_once record_failure record_success
  try_once-calls last attempt several id t = go (operation id attempt) refl
    where
      go :
          (r : Reply T)
          → operation id attempt ≡ r
          → calls_of (once last attempt several id t) ≡ length t.calls + 1
      go (replies empty x) e =
          rw (e, try_once)
            (elim (Bool-cases (fallback && (several && empty))) [
              | inl b ↦ rw (b) (one_more t.calls _)
              | inr b ↦ rw (b) (one_more t.calls _)
            ])
      go raises e = rw (e, try_once) (one_more t.calls _)
      go (transport_error k) e =
          rw (e, try_once)
            (elim (Bool-cases (is_transport k && not last)) [
              | inl b ↦ rw (b) (one_more t.calls _)
              | inr b ↦ rw (b) (one_more t.calls _)
            ])

  pub attempts-calls :
      (left attempt : ℕ) (several : Bool) (id : ℕ) (t : Tables)
      → length (loop left attempt several id t).1.calls ≤ length t.calls + (left + 1)
  unfolding attempts
  attempts-calls zero attempt several id t = go (once true attempt several id t) refl
    where
      go :
          (r : Tried T)
          → once true attempt several id t ≡ r
          → length (loop zero attempt several id t).1.calls ≤ length t.calls + (zero + 1)
      go (over x after) e =
          rw (e, attempts)
            (let q = try_once-calls true attempt several id t in omega (arith, ap calls_of e, q))
      go (continues after) e =
          rw (e, attempts)
            (let q = try_once-calls true attempt several id t in omega (arith, ap calls_of e, q))
  attempts-calls (suc left) attempt several id t =
      go (once false attempt several id t) refl
        (λ after. attempts-calls left (attempt + 1) several id after)
    where
      go :
          (r : Tried T)
          → once false attempt several id t ≡ r
          → ((after : Tables)
              → length (loop left (attempt + 1) several id after).1.calls
                ≤ length after.calls + (left + 1))
          → length (loop (suc left) attempt several id t).1.calls ≤ length t.calls + (suc left + 1)
      go (over x after) e more =
          rw (e, attempts)
            (let q = try_once-calls false attempt several id t in omega (arith, ap calls_of e, q))
      go (continues after) e more =
          rw (e, attempts)
            (let q = try_once-calls false attempt several id t in
              omega (arith, ap calls_of e, q, more after))

  served-once :
      (last several : Bool) (id : ℕ) (t : Tables) {x : T}
      → operation id 0 ≡ replies false x
      → once last 0 several id t ≡ over (some x) (record_success (clock id 0) id 0 t)
  unfolding try_once
  served-once last several id t e = rw (e, try_once) (rw (never fallback several) refl)
    where
      never : (a b : Bool) → (a && (b && false)) ≡ false
      never true true = refl
      never true false = refl
      never false b = refl

  -- A token whose first attempt replies with records serves the call.
  pub attempts-served :
      (left : ℕ) (several : Bool) (id : ℕ) (t : Tables) {x : T}
      → operation id 0 ≡ replies false x
      → (loop left 0 several id t).0 ≡ some x
  unfolding attempts
  attempts-served zero several id t e = rw (served-once true several id t e, attempts) refl
  attempts-served (suc left) several id t e = rw (served-once false several id t e, attempts) refl

  abbrev logged : ℕ → Tried T → Bool
  logged j (over r t) = any (called j) t.calls
  logged j (continues t) = any (called j) t.calls

  kept_or_new :
      (calls : List Call) (c : Call) (j : ℕ)
      → (any (called j) calls || (c.config_value_id == j)) ≡ true
      → any (called j) (calls ++ c ∷ []) ≡ true
  unfolding any
  kept_or_new [] c j h = ground (arith, h)
  kept_or_new (d ∷ calls) c j h = ground (arith, kept_or_new calls c j, h)

  -- An attempt leaves a record of its call, and loses none.
  try_once-logged :
      (last : Bool) (attempt : ℕ) (several : Bool) (id : ℕ) (t : Tables) (j : ℕ)
      → (any (called j) t.calls || (id == j)) ≡ true
      → logged j (once last attempt several id t) ≡ true
  unfolding try_once record_failure record_success
  try_once-logged last attempt several id t j h = go (operation id attempt) refl
    where
      go :
          (r : Reply T)
          → operation id attempt ≡ r
          → logged j (once last attempt several id t) ≡ true
      go (replies empty x) e =
          rw (e, try_once)
            (elim (Bool-cases (fallback && (several && empty))) [
              | inl b ↦ rw (b) (kept_or_new t.calls _ j h)
              | inr b ↦ rw (b) (kept_or_new t.calls _ j h)
            ])
      go raises e = rw (e, try_once) (kept_or_new t.calls _ j h)
      go (transport_error k) e =
          rw (e, try_once)
            (elim (Bool-cases (is_transport k && not last)) [
              | inl b ↦ rw (b) (kept_or_new t.calls _ j h)
              | inr b ↦ rw (b) (kept_or_new t.calls _ j h)
            ])

  pub attempts-logged :
      (left attempt : ℕ) (several : Bool) (id : ℕ) (t : Tables) (j : ℕ)
      → (any (called j) t.calls || (id == j)) ≡ true
      → any (called j) (loop left attempt several id t).1.calls ≡ true
  unfolding attempts
  attempts-logged zero attempt several id t j h =
      go (once true attempt several id t) refl (try_once-logged true attempt several id t j h)
    where
      go :
          (r : Tried T)
          → once true attempt several id t ≡ r
          → logged j (once true attempt several id t) ≡ true
          → any (called j) (loop zero attempt several id t).1.calls ≡ true
      go (over x after) e l = rw (e, attempts) (rw (e) at l)
      go (continues after) e l = rw (e, attempts) (rw (e) at l)
  attempts-logged (suc left) attempt several id t j h =
      go (once false attempt several id t) refl (try_once-logged false attempt several id t j h)
        (λ after k. attempts-logged left (attempt + 1) several id after j k)
    where
      go :
          (r : Tried T)
          → once false attempt several id t ≡ r
          → logged j (once false attempt several id t) ≡ true
          → ((after : Tables)
              → (any (called j) after.calls || (id == j)) ≡ true
              → any (called j) (loop left (attempt + 1) several id after).1.calls ≡ true)
          → any (called j) (loop (suc left) attempt several id t).1.calls ≡ true
      go (over x after) e l more = rw (e, attempts) (rw (e) at l)
      go (continues after) e l more =
          let k : any (called j) after.calls ≡ true = rw (e) at l in
          rw (e, attempts) (more after (ground (arith, k)))
