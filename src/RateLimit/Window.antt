-- ===== src/RateLimit/Window.antt =====
-- The sliding window shared by both limiters: what a trimmed queue keeps and drops, and why
-- admitting a request only below the limit keeps requests apart.
use stock_center.Base.{
  ℕ, zero, suc, ◌+◌, ◌≤◌, ◌<◌, ◌≡◌, refl, ap, sym, some, List, [], ◌∷◌, ◌++◌, arith, leb,
  if◌then◌else◌, length, get_elem?, All, length-append, All-append, All-map_of, Bool-cases, inl,
  inr, ◌⊎◌, ◌∙◌,
}
use mathlib.Core.List.{append_assoc}
use native.Mathlib.Decide.{dec_lt}

-- RealtimeRateBudget._trim: `while times and times[0] <= now - window: times.popleft()`.
unfoldable pub trim : ℕ → ℕ → List ℕ → List ℕ
trim window now [] = []
trim window now (t ∷ ts) =
    let rest = trim window now ts in if leb (t + window) now then rest else t ∷ ts

-- What `trim` pops, oldest first.
pub popped : ℕ → ℕ → List ℕ → List ℕ
popped window now [] = []
popped window now (t ∷ ts) =
    let rest = t ∷ popped window now ts in if leb (t + window) now then rest else []

pub popped-append-trim : (w now : ℕ) (ts : List ℕ) → popped w now ts ++ trim w now ts ≡ ts
unfolding popped trim
popped-append-trim w now [] = refl
popped-append-trim w now (t ∷ ts) = ground (arith, popped-append-trim w now ts)

pub popped_expired : (w now : ℕ) (ts : List ℕ) → All (λ t. t + w ≤ now) (popped w now ts)
unfolding popped
popped_expired w now [] = tt
popped_expired w now (t ∷ ts) = elim (Bool-cases (leb (t + w) now)) [
  | inl e ↦ rw (e, popped) (ground arith, popped_expired w now ts)
  | inr e ↦ rw (e, popped) tt
]

pub length-trim-le : (w now : ℕ) (ts : List ℕ) → length (trim w now ts) ≤ length ts
unfolding trim
length-trim-le w now [] = omega arith
length-trim-le w now (t ∷ ts) = ground (arith, length-trim-le w now ts)

-- Trimming later keeps no more.
pub length-trim_mono :
    (w now later : ℕ) (ts : List ℕ)
    → now ≤ later
    → length (trim w later ts) ≤ length (trim w now ts)
unfolding trim
length-trim_mono w now later [] h = omega arith
length-trim_mono w now later (t ∷ ts) h =
    ground (arith, length-trim_mono w now later ts h, length-trim-le w later ts)

pub trim-trim :
    (w now later : ℕ) (ts : List ℕ) → now ≤ later → trim w later (trim w now ts) ≡ trim w later ts
unfolding trim
trim-trim w now later [] h = refl
trim-trim w now later (t ∷ ts) h = ground (arith, trim-trim w now later ts h)

-- Once the oldest request has left the window, at least that one is dropped.
pub length-trim-lt_expired :
    (w now t : ℕ) (ts : List ℕ) → t + w ≤ now → length (trim w now (t ∷ ts)) ≤ length ts
unfolding trim
length-trim-lt_expired w now t ts h = ground (arith, length-trim-le w now ts)

-- Any two requests that are `limit` places apart are at least a window apart: no window of that
-- length contains more than `limit` requests.
pub record Spaced (limit window : ℕ) (log : List ℕ) : Type 0 where
  pub apart :
      (i g h : ℕ) → get_elem? log i ≡ some g → get_elem? log (i + limit) ≡ some h → g + window ≤ h

-- Every request that was ever admitted is either still queued or has left the window by `clock`,
-- and all were admitted `Spaced`.
pub record Accounts (limit window clock : ℕ) (log queue : List ℕ) : Type 0 where
  pub old : List ℕ
  pub split : log ≡ old ++ queue
  pub expired : All (λ t. t + window ≤ clock) old
  pub bounded : length queue ≤ limit
  pub spaced : Spaced limit window log

All-get_elem :
    (P : ℕ → Type 0) (xs ys : List ℕ) (i g : ℕ)
    → All P xs
    → i < length xs
    → get_elem? (xs ++ ys) i ≡ some g
    → P g
All-get_elem P [] ys i g h lt e = absurd (omega arith)
All-get_elem P (x ∷ xs) ys zero g h lt e = let p : x ≡ g = cc in rw p at h.0
All-get_elem P (x ∷ xs) ys (suc i) g h lt e = All-get_elem P xs ys i g h.1 (omega arith) e

get_elem?-append_left :
    (xs : List ℕ) (x i : ℕ) → i < length xs → get_elem? (xs ++ x ∷ []) i ≡ get_elem? xs i
get_elem?-append_left [] x i h = absurd (omega arith)
get_elem?-append_left (y ∷ ys) x zero h = refl
get_elem?-append_left (y ∷ ys) x (suc i) h = get_elem?-append_left ys x i (omega arith)

get_elem?-append_last :
    (xs : List ℕ) (x i g : ℕ)
    → get_elem? (xs ++ x ∷ []) i ≡ some g
    → length xs ≤ i
    → (i ≡ length xs) × (g ≡ x)
get_elem?-append_last [] x zero g e h = (omega arith, cc)
get_elem?-append_last [] x (suc i) g e h = cc
get_elem?-append_last (y ∷ ys) x zero g e h = absurd (omega arith)
get_elem?-append_last (y ∷ ys) x (suc i) g e h =
    let (p, q) = get_elem?-append_last ys x i g e (omega arith) in (omega arith, q)

lt_or_le : (a b : ℕ) → (a < b) ⊎ (b ≤ a)
lt_or_le a b = elim (dec_lt a b) [ yes h ↦ inl h | no h ↦ inr (omega arith) ]

Spaced-append :
    (limit w now : ℕ) (old queue : List ℕ)
    → Spaced limit w (old ++ queue)
    → All (λ t. t + w ≤ now) old
    → length queue < limit
    → Spaced limit w ((old ++ queue) ++ now ∷ [])
Spaced-append limit w now old queue s expired room = record { apart = apart }
  where
    at_end :
        (i g h : ℕ)
        → get_elem? ((old ++ queue) ++ now ∷ []) i ≡ some g
        → i < length old
        → h ≡ now
        → g + w ≤ h
    at_end i g h e lt q =
        let inside : get_elem? (old ++ queue) i ≡ some g =
          sym (get_elem?-append_left (old ++ queue) now i (omega (arith, length-append old queue)))
          ∙ e in
        rw q (All-get_elem (λ t. t + w ≤ now) old queue i g expired lt inside)

    apart :
        (i g h : ℕ)
        → get_elem? ((old ++ queue) ++ now ∷ []) i ≡ some g
        → get_elem? ((old ++ queue) ++ now ∷ []) (i + limit) ≡ some h
        → g + w ≤ h
    apart i g h eg eh = elim (lt_or_le (i + limit) (length (old ++ queue))) [
      | inl inside ↦
          s.apart i g h (sym (get_elem?-append_left (old ++ queue) now i (omega arith)) ∙ eg)
            (sym (get_elem?-append_left (old ++ queue) now (i + limit) inside) ∙ eh)
      | inr beyond ↦
          let (p, q) = get_elem?-append_last (old ++ queue) now (i + limit) h eh beyond in
          at_end i g h eg (omega (arith, length-append old queue)) q
    ]

-- Trimming keeps the account, whatever the new clock reading.
pub Accounts-trim :
    (limit w clock now : ℕ) (log queue : List ℕ)
    → clock ≤ now
    → Accounts limit w clock log queue
    → Accounts limit w now log (trim w now queue)
Accounts-trim limit w clock now log queue h a = record {
  old = a.old ++ popped w now queue;
  split =
      a.split
      ∙ ap (λ q. a.old ++ q) (sym (popped-append-trim w now queue))
      ∙ sym (append_assoc a.old (popped w now queue) (trim w now queue));
  expired =
      All-append _ a.old (popped w now queue)
        (All-map_of (λ t. t + w ≤ clock) (λ t. t + w ≤ now) (λ t e. omega arith) a.old a.expired)
        (popped_expired w now queue);
  bounded = omega (arith, length-trim-le w now queue, a.bounded);
  spaced = a.spaced;
}

-- Admitting a request at the time of the last trim keeps the account, if the queue has room.
pub Accounts-admit :
    (limit w now : ℕ) (log queue : List ℕ)
    → length queue < limit
    → Accounts limit w now log queue
    → Accounts limit w now (log ++ now ∷ []) (queue ++ now ∷ [])
Accounts-admit limit w now log queue room a = record {
  old = a.old;
  split = ap (λ l. l ++ now ∷ []) a.split ∙ append_assoc a.old queue (now ∷ []);
  expired = a.expired;
  bounded = omega (arith, length-append queue (now ∷ []));
  spaced =
      rw a.split (Spaced-append limit w now a.old queue (rw a.split at a.spaced) a.expired room);
}

-- Time passing keeps the account.
pub Accounts-later :
    (limit w clock now : ℕ) (log queue : List ℕ)
    → clock ≤ now
    → Accounts limit w clock log queue
    → Accounts limit w now log queue
Accounts-later limit w clock now log queue h a = record {
  old = a.old;
  split = a.split;
  expired = All-map_of (λ t. t + w ≤ clock) (λ t. t + w ≤ now) (λ t e. omega arith) a.old a.expired;
  bounded = a.bounded;
  spaced = a.spaced;
}
