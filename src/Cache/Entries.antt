-- ===== src/Cache/Entries.antt =====
-- Entries in memory: what a read finds after writes, and a read of the ttl that loses an entry.
use stock_center.Base.{
  ℕ, ◌+◌, ◌-◌, ◌/◌, ◌<◌, ◌≡◌, refl, ap, ◌∙◌, true, false, Option, none, some, List, [], ◌∷◌, arith,
  leb, if◌then◌else◌, String, str_eq, eq_iff, Bool-cases, inl, inr,
}
use stock_center.Base.Int.{negsuc}
use stock_center.Base.Json.{Value, Fields, field, get}
use stock_center.Base.Json.Laws.{Distinct, or_else, get-merge}
use stock_center.Cache.{
  no_client, RedisClient, expiry, memory_get, memory_set, memory_set_all, memory_hash_get,
  memory_hash_set, fields_or_empty, get_json, set_many_json, hset_many_json, hgetall_json, ttl,
  memory_ttl,
}

-- What an entry is worth at a time.
unfoldable pub live : {A : Type 0} → ℕ → Option (ℕ × A) → Option A
live now none = none
live now (some (expires_at, value)) = if leb expires_at now then none else some value

-- The last of some writes to a key.
unfoldable pub last_write : String → List (String × Value × ℕ) → Option (Value × ℕ)
last_write key [] = none
last_write key ((k, v, ttl_seconds) ∷ items) =
    let rest = last_write key items in
    elim rest [ some w ↦ some w | none ↦ if str_eq k key then some (v, ttl_seconds) else none ]

abbrev pub written : ℕ → Option (Value × ℕ) → Option (ℕ × Value) → Option (ℕ × Value)
written now none old = old
written now (some (v, ttl_seconds)) old = some (expiry now ttl_seconds, v)

memory_get-live :
    (now : ℕ) (key : String) (c : RedisClient)
    → (memory_get now key c).0 ≡ live now (c.memory_cache key)
unfolding memory_get live
memory_get-live now key c = go (c.memory_cache key) refl
  where
    go : (o : Option (ℕ × Value)) → c.memory_cache key ≡ o → (memory_get now key c).0 ≡ live now o
    go none e = rw (e, memory_get) refl
    go (some (expires_at, v)) e =
        rw (e, memory_get)
          (elim (Bool-cases (leb expires_at now)) [ inl b ↦ rw (b) refl | inr b ↦ rw (b) refl ])

memory_hash_get-live :
    (now : ℕ) (key : String) (c : RedisClient)
    → (memory_hash_get now key c).0 ≡ live now (c.memory_hash_cache key)
unfolding memory_hash_get live
memory_hash_get-live now key c = go (c.memory_hash_cache key) refl
  where
    go :
        (o : Option (ℕ × Fields))
        → c.memory_hash_cache key ≡ o
        → (memory_hash_get now key c).0 ≡ live now o
    go none e = rw (e, memory_hash_get) refl
    go (some (expires_at, v)) e =
        rw (e, memory_hash_get)
          (elim (Bool-cases (leb expires_at now)) [ inl b ↦ rw (b) refl | inr b ↦ rw (b) refl ])

memory_set_all-last :
    (now : ℕ) (key : String) (items : List (String × Value × ℕ)) (c : RedisClient)
    → (memory_set_all now items c).memory_cache key
      ≡ written now (last_write key items) (c.memory_cache key)
unfolding memory_set_all last_write memory_set
memory_set_all-last now key [] c = refl
memory_set_all-last now key ((k, v, t) ∷ items) c =
    memory_set_all-last now key items (memory_set now k v t c) ∙ go (last_write key items) refl
  where
    go :
        (o : Option (Value × ℕ))
        → last_write key items ≡ o
        → written now (last_write key items) ((memory_set now k v t c).memory_cache key)
          ≡ written now (last_write key ((k, v, t) ∷ items)) (c.memory_cache key)
    go (some w) e = rw (e, last_write) refl
    go none e =
        rw (e, last_write)
          (elim (Bool-cases (str_eq k key)) [ inl b ↦ rw (b) refl | inr b ↦ rw (b) refl ])

-- Without a server, a read at `later` after one batch of writes at `now` finds what the last write of
-- its key wrote, or, where the batch has none, what was there before, until that expires.
pub get_json-set_many_json :
    (now later : ℕ) (key : String) (items : List (String × Value × ℕ)) (c : RedisClient)
    → (get_json no_client later key (set_many_json no_client now items c).1).0
      ≡ live later (written now (last_write key items) (c.memory_cache key))
unfolding get_json set_many_json last_write
get_json-set_many_json now later key [] c = memory_get-live later key c
get_json-set_many_json now later key (i ∷ items) c =
    memory_get-live later key (memory_set_all now (i ∷ items) c)
    ∙ ap (live later) (memory_set_all-last now key (i ∷ items) c)

unfoldable pub get_in : String → Option Fields → Option Value
unfolding get
get_in j none = none
get_in j (some fs) = get j fs

get-fields_or_empty : (j : String) (o : Option Fields) → get j (fields_or_empty o) ≡ get_in j o
unfolding get get_in
get-fields_or_empty j none = refl
get-fields_or_empty j (some fs) = refl

-- Without a server, a read of a hash before the ttl of the last merge is over finds each merged
-- field's new value, and for every other field the value that the hash had, unless it had expired
-- at the merge.
pub hgetall_json-hset_many_json :
    (now later ttl_seconds : ℕ) (key j : String) (k : String) (v : Value) (fs : Fields)
    (c : RedisClient)
    → Distinct (field k v fs)
    → later < expiry now ttl_seconds
    → get_in j
        (hgetall_json no_client later key
          (hset_many_json no_client now key (field k v fs) ttl_seconds c).1).0
      ≡ or_else (get j (field k v fs)) (get_in j (live now (c.memory_hash_cache key)))
unfolding hgetall_json hset_many_json live get_in
hgetall_json-hset_many_json now later ttl_seconds key j k v fs c d early =
    ap (get_in j)
      (memory_hash_get-live later key (memory_hash_set now key (field k v fs) ttl_seconds c))
    ∙ stored
  where
    stored :
        get_in j (
          live later ((memory_hash_set now key (field k v fs) ttl_seconds c).memory_hash_cache key))
        ≡ or_else (get j (field k v fs)) (get_in j (live now (c.memory_hash_cache key)))
    stored =
        let on_time : leb (expiry now ttl_seconds) later ≡ false = ground arith in
        let merged = get-merge j (fields_or_empty (memory_hash_get now key c).0) (field k v fs) d in
        rw ((eq_iff key key).1 refl) (
          rw (on_time) (
            merged
            ∙ ap (or_else (get j (field k v fs))) (
                get-fields_or_empty j (memory_hash_get now key c).0
                ∙ ap (get_in j) (memory_hash_get-live now key c))))

-- Reading the ttl of an entry in its last second reports -2, as for a missing one, and drops the
-- entry, which a read of its value would have returned.
pub get_json-ttl :
    (now expires_at : ℕ) (key : String) (v : Value) (c : RedisClient)
    → c.memory_cache key ≡ some (expires_at, v)
    → now < expires_at
    → expires_at < now + 1000000
    → ((get_json no_client now key c).0 ≡ some v)
      × ((ttl no_client now key c).0 ≡ some (negsuc 1))
      × ((get_json no_client now key (ttl no_client now key c).1).0 ≡ none)
unfolding get_json ttl memory_ttl memory_get
get_json-ttl now expires_at key v c h live_still soon =
    let on_time : leb expires_at now ≡ false = ground arith in
    let no_second : leb ((expires_at - now) / 1000000) 0 ≡ true = ground arith in
    (
      rw (h, memory_get) (rw (on_time) refl),
      rw (h, memory_ttl) (rw (no_second) refl),
      dropped no_second,
    )
  where
    dropped :
        leb ((expires_at - now) / 1000000) 0 ≡ true
        → (get_json no_client now key (ttl no_client now key c).1).0 ≡ none
    dropped e = rw (h, memory_ttl) (rw (e) (rw ((eq_iff key key).1 refl, memory_get) refl))
