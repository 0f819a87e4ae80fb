-- ===== src/Tokens/Runtime.antt =====
-- python-back/app/modules/market_data/tushare_runtime.py: TushareProviderFactory.call, which tries the
-- available tokens one after the other. What the token coordinator reserves, what the operation
-- replies for a token on each attempt, whether a token's endpoint is valid, and the clock at each
-- attempt are arguments. The log keeps of a call the token, the attempt and how it ended.
pub mod Attempts
pub mod Progress
use stock_center.Base.{
  ℕ, zero, suc, ◌+◌, ◌-◌, ◌*◌, ◌≤◌, ◌<◌, ◌≡◌, Bool, true, false, not, Option, none, some, List, [],
  ◌∷◌, ◌++◌, ltb, leb, ◌==◌, if◌then◌else◌, ◌&&◌, ◌||◌, max, String, select, length, any,
}
use stock_center.Tokens.{
  ConfigValue, list_values, release_expired_cooldowns, mark_value_used, mark_value_failure,
  mark_value_invalid, mark_value_cooldown,
}

-- The `kind` of a TushareTransportError.
pub data Kind : Type 0 where
  transport token_invalid rate_limit permission endpoint_configuration_error : Kind
  empty_response provider_error other : Kind

-- What the operation replies: a result, with whether it has no records; a TushareTransportError; or
-- any other exception.
pub data Reply (T : Type 0) : Type 0 where
  replies : Bool → T → Reply T
  transport_error : Kind → Reply T
  raises : Reply T

pub record Call : Type 0 where
  pub config_value_id : ℕ
  pub attempt : ℕ
  pub error_kind : Option Kind

pub record Tables : Type 0 where
  pub values : List ConfigValue
  pub calls : List Call
  pub sleeps : List ℕ

pub data Outcome (T : Type 0) : Type 0 where
  returned : ℕ → T → Outcome T
  rate_limited : Outcome T
  all_failed : Outcome T
  -- the reserved token is none of the candidates, and `next` raises
  stop_iteration : Outcome T
  no_token : Outcome T

-- The table after _record_failure's choice of statement.
unfoldable pub note_failure : ℕ → ℕ → ℕ → Kind → List ConfigValue → List ConfigValue
unfolding mark_value_invalid mark_value_cooldown mark_value_failure
note_failure now cooldown_seconds id token_invalid values = mark_value_invalid now id values
note_failure now cooldown_seconds id rate_limit values =
    mark_value_cooldown now id (now + max cooldown_seconds 1) values
note_failure now cooldown_seconds id permission values = values
note_failure now cooldown_seconds id endpoint_configuration_error values = values
note_failure now cooldown_seconds id kind values = mark_value_failure now id values

unfoldable pub record_failure : ℕ → ℕ → ℕ → ℕ → Kind → Tables → Tables
unfolding note_failure
record_failure now cooldown_seconds id attempt kind t = record t {
  values = note_failure now cooldown_seconds id kind t.values;
  calls =
      t.calls ++ record { config_value_id = id; attempt = attempt; error_kind = some kind } ∷ [];
}

-- mark_value_used and the record of a successful call.
unfoldable pub record_success : ℕ → ℕ → ℕ → Tables → Tables
unfolding mark_value_used
record_success now id attempt t = record t {
  values = mark_value_used now id t.values;
  calls = t.calls ++ record { config_value_id = id; attempt = attempt; error_kind = none } ∷ [];
}

abbrev pub slept : ℕ → Tables → Tables
slept seconds t = record t { sleeps = if seconds == 0 then t.sleeps else t.sleeps ++ seconds ∷ [] }

abbrev pub is_transport : Kind → Bool
is_transport transport = true
is_transport _ = false

-- How one attempt ends: the loop is over, or goes on.
pub data Tried (T : Type 0) : Type 0 where
  over : Option T → Tables → Tried T
  continues : Tables → Tried T

abbrev pub has_id : ℕ → ℕ × ℕ → Bool
has_id id c = c.0 == id

-- `operation` and `clock` take a token's id and the attempt.
module _ {T : Type 0} (operation : ℕ → ℕ → Reply T) (clock : ℕ → ℕ → ℕ)
    (cooldown_seconds retry_backoff_seconds : ℕ) (fallback_on_empty_response : Bool) where
  -- The body of the `for attempt` loop for one token; `last` is whether no attempt is left, and
  -- `several` whether there is another candidate.
  unfoldable pub try_once : Bool → ℕ → Bool → ℕ → Tables → Tried T
  unfolding record_failure record_success
  try_once last attempt several id t =
      let now = clock id attempt in
      elim (operation id attempt) [
        | replies empty result ↦
            if fallback_on_empty_response && (several && empty)
            then over none (record_failure now cooldown_seconds id attempt empty_response t)
            else over (some result) (record_success now id attempt t)
        | raises ↦ over none (record_failure now cooldown_seconds id attempt provider_error t)
        | transport_error kind ↦
            let failed = record_failure now cooldown_seconds id attempt kind t in
            if is_transport kind && not last
            then continues (slept (retry_backoff_seconds * (attempt + 1)) failed)
            else over none failed
      ]

  -- The loop, with `left` attempts after this one.
  unfoldable pub attempts : ℕ → ℕ → Bool → ℕ → Tables → Option T × Tables
  unfolding try_once
  attempts zero attempt several id t = elim (try_once true attempt several id t) [
    | over result after ↦ (result, after)
    | continues after ↦ (none, after)
  ]
  attempts (suc left) attempt several id t = elim (try_once false attempt several id t) [
    | over result after ↦ (result, after)
    | continues after ↦ attempts left (attempt + 1) several id after
  ]

  -- The `while candidates` loop on fuel, candidates being a token's id and its limit per minute;
  -- `none` means that the fuel ran out.
  module _ (retry_count : ℕ) (reserve : List (ℕ × ℕ) → Option ℕ) where
    unfoldable pub rounds : ℕ → List (ℕ × ℕ) → Tables → Option (Outcome T × Tables)
    unfolding attempts any select
    rounds zero candidates t = none
    rounds (suc fuel) [] t = some (all_failed, t)
    rounds (suc fuel) (c ∷ cs) t = elim (reserve (c ∷ cs)) [
      | none ↦ some (rate_limited, t)
      | some id ↦
          let (result, after) = attempts retry_count 0 (ltb 1 (length (c ∷ cs))) id t in
          let rest = rounds fuel (select (λ d. not (has_id id d)) (c ∷ cs)) after in
          if any (has_id id) (c ∷ cs)
          then elim result [ some r ↦ some (returned id r, after) | none ↦ rest ]
          else some (stop_iteration, t)
    ]

    -- The loop over the values that builds the candidates, `endpoint_ok` being the check of a
    -- token's endpoint.
    module _ (endpoint_ok : ℕ → Bool) (rate_limit_per_minute : ℕ) where
      unfoldable pub with_provider : List ConfigValue → Tables → List (ℕ × ℕ) × Tables
      unfolding record_failure
      with_provider [] t = ([], t)
      with_provider (v ∷ vs) t =
          if endpoint_ok v.id
          then (let (cs, after) = with_provider vs t in ((v.id, rate_limit_per_minute) ∷ cs, after))
          else with_provider vs
              (record_failure (clock v.id 0) cooldown_seconds v.id 0 endpoint_configuration_error t)

      -- `call`, with one unit of fuel more than there are values.
      unfoldable pub call : ℕ → ℕ → Tables → Option (Outcome T × Tables)
      unfolding list_values release_expired_cooldowns with_provider rounds
      call now config_id t =
          let fresh = record t { values = release_expired_cooldowns now t.values } in
          elim (list_values now config_id "token" fresh.values) [
            | [] ↦ some (no_token, fresh)
            | v ∷ vs ↦
                let (candidates, ready) = with_provider (v ∷ vs) fresh in
                rounds (suc (length (v ∷ vs))) candidates ready
          ]
