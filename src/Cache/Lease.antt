-- ===== src/Cache/Lease.antt =====
-- Leases in memory: while one owner's lease lasts, no other owner is given it.
use stock_center.Base.{ℕ, ◌+◌, ◌≤◌, ◌⊎◌, ◌<◌, ◌≡◌, false, some, String, str_eq}
use stock_center.Base.Json.{Value, Fields}
use stock_center.Cache.{
  no_client, RedisClient, get_json, set_json, hset_many_json, lease_of, LeaseAnswers, acquire_lease,
  release_lease, ttl, hgetall_json,
}

-- The answers of a server that is not configured.
abbrev pub in_memory : LeaseAnswers
in_memory = record { acquired = no_client; current = no_client; renewed = no_client }

-- What anyone but the owner does while the lease on `key` lasts: take leases, give them back, read any
-- entry before `until`, write other entries, and ask how long an entry lasts. That question is not
-- asked of the lease itself in its last second, when it would drop the entry.
pub data Step (key owner : String) (until : ℕ) (c : RedisClient) : RedisClient → Type 0 where
  acquires :
      (now : ℕ) (other : String) (ttl_seconds : ℕ)
      → now < until
      → str_eq owner other ≡ false
      → Step key owner until c (acquire_lease in_memory now key other ttl_seconds c).1
  releases :
      (now : ℕ) (other : String)
      → now < until
      → str_eq owner other ≡ false
      → Step key owner until c (release_lease no_client now key other c)
  elsewhere :
      (now : ℕ) (key' other : String) (ttl_seconds : ℕ)
      → str_eq key' key ≡ false
      → Step key owner until c (acquire_lease in_memory now key' other ttl_seconds c).1
  reads :
      (now : ℕ) (k : String) → now < until → Step key owner until c (get_json no_client now k c).1
  writes :
      (now : ℕ) (k : String) (v : Value) (ttl_seconds : ℕ)
      → str_eq k key ≡ false
      → Step key owner until c (set_json no_client now k v ttl_seconds c).1
  merges :
      (now : ℕ) (k : String) (fs : Fields) (ttl_seconds : ℕ)
      → Step key owner until c (hset_many_json no_client now k fs ttl_seconds c).1
  asks :
      (now : ℕ) (k : String)
      → (str_eq k key ≡ false) ⊎ (now + 1000000 ≤ until)
      → Step key owner until c (ttl no_client now k c).1
  reads_hash : (now : ℕ) (k : String) → Step key owner until c (hgetall_json no_client now k c).1

pub data Reach (key owner : String) (until : ℕ) (c : RedisClient) : RedisClient → Type 0 where
  here : Reach key owner until c c
  next :
      {d e : RedisClient}
      → Reach key owner until c d
      → Step key owner until d e
      → Reach key owner until c e

abbrev Held : String → String → ℕ → RedisClient → Type 0
Held key owner until c = c.memory_cache key ≡ some (until, lease_of owner)
