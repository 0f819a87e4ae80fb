-- ===== src/Tests/TokenCalls.antt =====
-- Examples for the tokens and their failover.
use stock_center.Base.{
  ℕ, ◌≡◌, ◌==◌, refl, true, false, Option, none, some, List, [], ◌∷◌, arith, if◌then◌else◌, any,
}
use stock_center.Tokens.{ConfigValue, active, cooldown}
use stock_center.Tokens.Runtime.{
  Reply, replies, transport_error, transport, Tables, returned, rounds, has_id,
}
use stock_center.Tokens.Runtime.Progress.{rounds-returned}

abbrev token : ConfigValue
token = record {
  id = 1;
  system_config_id = 4;
  value_kind = "token";
  priority = 100;
  weight = 100;
  status = active;
  failure_count = 0;
  last_used_at = none;
  cooldown_until = none;
  is_enabled = true;
  updated_at = 0;
}

abbrev tokens : List ConfigValue
tokens = token ∷ record token { id = 2; status = cooldown; cooldown_until = some 9 } ∷ []

-- Token 1 times out on every attempt, token 2 replies.
abbrev operation : ℕ → ℕ → Reply ℕ
operation id attempt = if id == 1 then transport_error transport else replies false 42

abbrev clock : ℕ → ℕ → ℕ
clock id attempt = attempt

abbrev first_one : List (ℕ × ℕ) → Option ℕ
first_one [] = none
first_one (c ∷ cs) = some c.0

abbrev ready : Tables
ready = record { values = tokens; calls = []; sleeps = [] }

abbrev candidates : List (ℕ × ℕ)
candidates = (1, 60) ∷ (2, 60) ∷ []

first_one-picks :
    (c : ℕ × ℕ) (cs : List (ℕ × ℕ))
    → (id : ℕ) × (first_one (c ∷ cs) ≡ some id) × (any (has_id id) (c ∷ cs) ≡ true)
unfolding any
first_one-picks c cs = (c.0, refl, ground arith)

two_there : any (has_id 2) candidates ≡ true
unfolding any
two_there = refl

rounds-returned_example :
    (id : ℕ) × (y : ℕ) × (after : Tables) × (rounds operation clock 60 1 true 1 first_one 2
        candidates ready
      ≡ some (returned id y, after))
    × (any (has_id id) candidates ≡ true)
rounds-returned_example =
    rounds-returned operation clock 60 1 true 1 first_one first_one-picks 2 2 candidates ready 42
      refl two_there (omega arith)
