-- ===== src/Tests/Caches.antt =====
-- Examples for the cache in memory.
use stock_center.Base.{ℕ, ◌≡◌, refl, true, none, List, [], ◌∷◌, String}
use stock_center.Base.Int.{pos}
use stock_center.Base.Json.{Value, int}
use stock_center.Cache.{no_client, RedisClient, get_json, set_many_json, acquire_lease, ttl}
use stock_center.Cache.Lease.{in_memory}
use stock_center.Cache.Entries.{live, written, last_write, get_json-set_many_json}

abbrev empty_client : RedisClient
empty_client = record { memory_cache = λ k. none; memory_hash_cache = λ k. none }

-- In the last second of a lease the question how long it lasts drops it, and another owner is granted.
ttl_drops_lease :
    (acquire_lease in_memory 29500000 "leader" "b" 30
      (ttl no_client 29500000 "leader"
        (acquire_lease in_memory 10 "leader" "a" 30 empty_client).1).1).0
    ≡ true
unfolding acquire_lease ttl
ttl_drops_lease = refl

abbrev two_items : List (String × Value × ℕ)
two_items = ("quote", int (pos 1), 5) ∷ ("quote", int (pos 2), 5) ∷ []

get_json-set_many_json_example :
    (get_json no_client 7 "quote" (set_many_json no_client 3 two_items empty_client).1).0
    ≡ live 7 (written 3 (last_write "quote" two_items) none)
get_json-set_many_json_example = get_json-set_many_json 3 7 "quote" two_items empty_client
