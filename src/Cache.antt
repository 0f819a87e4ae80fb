-- ===== src/Cache.antt =====
-- python-back/app/core/redis_client.py: RedisClient. A call of the Redis server is answered, raises,
-- or is not made since there is no client; its answer is an argument. The two fallback stores in
-- memory are functions of the key. Times are in microseconds; a ttl is in seconds, and a negative
-- one, which max(1, ttl) treats as 1, stands as 0.
pub mod Lease
pub mod Entries
use stock_center.Base.{
  ℕ, zero, suc, ◌+◌, ◌-◌, ◌*◌, ◌/◌, ◌≤◌, ◌<◌, ◌≡◌, Bool, true, false, not, Option, none, some, List,
  [], ◌∷◌, ltb, leb, if◌then◌else◌, ◌&&◌, ◌||◌, max, String, str_eq,
}
use stock_center.Base.Int.{ℤ, pos, negsuc}
use stock_center.Base.Json.{
  Value, null, str, obj, Fields, end, field, get, get_or_null, py_eq, merge,
}

-- What comes of a call of the server.
pub data Answer (A : Type 0) : Type 0 where
  no_client : Answer A
  raised : Answer A
  answered : A → Answer A

-- A store: the time when an entry expires, and its value.
abbrev pub Store : Type 0 → Type 0
Store A = String → Option (ℕ × A)

abbrev pub put : {A : Type 0} → String → Option (ℕ × A) → Store A → Store A
put key item store k = if str_eq key k then item else store k

pub record RedisClient : Type 0 where
  pub memory_cache : Store Value
  pub memory_hash_cache : Store Fields

-- time.time() + max(1, ttl_seconds)
abbrev pub expiry : ℕ → ℕ → ℕ
expiry now ttl_seconds = now + max 1 ttl_seconds * 1000000

-- _memory_get: an expired entry is dropped.
unfoldable pub memory_get : ℕ → String → RedisClient → Option Value × RedisClient
memory_get now key c = elim (c.memory_cache key) [
  | none ↦ (none, c)
  | some (expires_at, value) ↦
      if leb expires_at now
      then (none, record c { memory_cache = put key none c.memory_cache })
      else (some value, c)
]

unfoldable pub memory_set : ℕ → String → Value → ℕ → RedisClient → RedisClient
memory_set now key value ttl_seconds c = record c {
  memory_cache = put key (some (expiry now ttl_seconds, value)) c.memory_cache;
}

-- `int(expires_at - time.time())` drops the fraction of a second.
unfoldable pub memory_ttl : ℕ → String → RedisClient → Option ℤ × RedisClient
memory_ttl now key c = elim (c.memory_cache key) [
  | none ↦ (none, c)
  | some (expires_at, value) ↦
      let ttl = (expires_at - now) / 1000000 in
      if leb ttl 0
      then (some (negsuc 1), record c { memory_cache = put key none c.memory_cache })
      else (some (pos ttl), c)
]

unfoldable pub memory_hash_get : ℕ → String → RedisClient → Option Fields × RedisClient
memory_hash_get now key c = elim (c.memory_hash_cache key) [
  | none ↦ (none, c)
  | some (expires_at, value) ↦
      if leb expires_at now
      then (none, record c { memory_hash_cache = put key none c.memory_hash_cache })
      else (some value, c)
]

abbrev pub fields_or_empty : Option Fields → Fields
fields_or_empty none = end
fields_or_empty (some fs) = fs

unfoldable pub memory_hash_set : ℕ → String → Fields → ℕ → RedisClient → RedisClient
unfolding memory_hash_get merge
memory_hash_set now key fields ttl_seconds c =
    let (current, c') = memory_hash_get now key c in
    record c' {
      memory_hash_cache =
          put key (some (expiry now ttl_seconds, merge (fields_or_empty current) fields))
            c'.memory_hash_cache;
    }

-- The server's answer to GET, decoded.
unfoldable pub get_json :
    Answer (Option Value) → ℕ → String → RedisClient → Option Value × RedisClient
unfolding memory_get
get_json (answered value) now key c = (value, c)
get_json _ now key c = memory_get now key c

unfoldable pub set_json : Answer Unit → ℕ → String → Value → ℕ → RedisClient → Bool × RedisClient
unfolding memory_set
set_json (answered ok) now key value ttl_seconds c = (true, c)
set_json _ now key value ttl_seconds c = (true, memory_set now key value ttl_seconds c)

-- The loop of the fallback: items are a key, a value and a ttl.
unfoldable pub memory_set_all : ℕ → List (String × Value × ℕ) → RedisClient → RedisClient
unfolding memory_set
memory_set_all now [] c = c
memory_set_all now ((key, value, ttl_seconds) ∷ items) c =
    memory_set_all now items (memory_set now key value ttl_seconds c)

unfoldable pub set_many_json :
    Answer Unit → ℕ → List (String × Value × ℕ) → RedisClient → Bool × RedisClient
unfolding memory_set_all
set_many_json answer now [] c = (true, c)
set_many_json (answered ok) now (i ∷ items) c = (true, c)
set_many_json _ now (i ∷ items) c = (true, memory_set_all now (i ∷ items) c)

unfoldable pub hset_many_json :
    Answer Unit → ℕ → String → Fields → ℕ → RedisClient → Bool × RedisClient
unfolding memory_hash_set
hset_many_json answer now key end ttl_seconds c = (true, c)
hset_many_json (answered ok) now key (field k v fs) ttl_seconds c = (true, c)
hset_many_json _ now key (field k v fs) ttl_seconds c =
    (true, memory_hash_set now key (field k v fs) ttl_seconds c)

-- The fallback of hset_many_hashes_json: items without fields are passed over.
unfoldable pub memory_hash_set_all : ℕ → List (String × Fields × ℕ) → RedisClient → RedisClient
unfolding memory_hash_set
memory_hash_set_all now [] c = c
memory_hash_set_all now ((key, end, ttl_seconds) ∷ items) c = memory_hash_set_all now items c
memory_hash_set_all now ((key, field k v fs, ttl_seconds) ∷ items) c =
    memory_hash_set_all now items (memory_hash_set now key (field k v fs) ttl_seconds c)

unfoldable pub hset_many_hashes_json :
    Answer Unit → ℕ → List (String × Fields × ℕ) → RedisClient → Bool × RedisClient
unfolding memory_hash_set_all
hset_many_hashes_json (answered ok) now items c = (true, c)
hset_many_hashes_json _ now items c = (true, memory_hash_set_all now items c)

-- The answer to HGETALL, decoded, `none` for no field that is a dict or a list.
unfoldable pub hgetall_json :
    Answer (Option Fields) → ℕ → String → RedisClient → Option Fields × RedisClient
unfolding memory_hash_get
hgetall_json (answered value) now key c = (value, c)
hgetall_json _ now key c = memory_hash_get now key c

abbrev pub lease_of : String → Value
lease_of owner = obj (field "owner" (str owner) end)

abbrev pub is_none : Value → Bool
is_none null = true
is_none _ = false

-- `isinstance(current, dict) and current.get("owner") not in {None, owner}`
unfoldable pub held_by_other : String → Option Value → Bool
unfolding get_or_null py_eq
held_by_other owner (some (obj fs)) =
    not (is_none (get_or_null "owner" fs) || py_eq (get_or_null "owner" fs) (str owner))
held_by_other owner _ = false

-- `isinstance(current, dict) and current.get("owner") == owner`
unfoldable pub held_by : String → Option Value → Bool
unfolding get_or_null py_eq
held_by owner (some (obj fs)) = py_eq (get_or_null "owner" fs) (str owner)
held_by owner _ = false

-- The three calls of the server: SET NX, GET, and the script that renews the caller's own lease.
pub record LeaseAnswers : Type 0 where
  pub acquired : Answer Bool
  pub current : Answer (Option String)
  pub renewed : Answer Bool

abbrev pub renew : String → Answer (Option String) → Answer Bool → Bool
renew owner (answered (some current)) (answered renewed) = str_eq current owner && renewed
renew owner _ _ = false

unfoldable pub acquire_lease :
    LeaseAnswers → ℕ → String → String → ℕ → RedisClient → Bool × RedisClient
unfolding memory_get memory_set held_by_other
acquire_lease s now key owner ttl_seconds c = elim s.acquired [
  | no_client ↦
      let (current, c') = memory_get now key c in
      if held_by_other owner current
      then (false, c')
      else (true, memory_set now key (lease_of owner) ttl_seconds c')
  | raised ↦ (false, c)
  | answered acquired ↦ ((if acquired then true else renew owner s.current s.renewed), c)
]

unfoldable pub release_lease : Answer Unit → ℕ → String → String → RedisClient → RedisClient
unfolding memory_get held_by
release_lease no_client now key owner c =
    let (current, c') = memory_get now key c in
    if held_by owner current then record c' { memory_cache = put key none c'.memory_cache } else c'
release_lease _ now key owner c = c

unfoldable pub ttl : Answer ℤ → ℕ → String → RedisClient → Option ℤ × RedisClient
unfolding memory_ttl
ttl (answered seconds) now key c = (some seconds, c)
ttl _ now key c = memory_ttl now key c
