-- ===== src/Tokens.antt =====
-- python-back/app/modules/config_center/models.py and repository.py: the table of configured values (API
-- tokens and keys) and the statements that choose one and record how it fared. Times are natural
-- numbers; a statement that stamps a time takes it as `now`.
pub mod Available
pub mod Runtime
pub mod Empty
use stock_center.Base.{
  ℕ, zero, suc, ◌+◌, Bool, true, false, not, Option, none, some, List, [], ◌∷◌, ltb, leb, ◌==◌,
  if◌then◌else◌, ◌&&◌, ◌||◌, String, str_eq, select,
}
use stock_center.Scheduler.Store.{update_where}

-- ValueStatus of schemas.py.
pub data ValueStatus : Type 0 where
  active cooldown invalid disabled : ValueStatus

pub record ConfigValue : Type 0 where
  pub id : ℕ
  pub system_config_id : ℕ
  pub value_kind : String
  pub priority : ℕ
  pub weight : ℕ
  pub status : ValueStatus
  pub failure_count : ℕ
  pub last_used_at : Option ℕ
  pub cooldown_until : Option ℕ
  pub is_enabled : Bool
  pub updated_at : ℕ

abbrev pub is_active : ValueStatus → Bool
is_active active = true
is_active _ = false

abbrev pub is_cooling : ValueStatus → Bool
is_cooling cooldown = true
is_cooling _ = false

-- `cooldown_until IS NULL OR cooldown_until <= now`
abbrev pub null_or_past : ℕ → Option ℕ → Bool
null_or_past now none = true
null_or_past now (some t) = leb t now

-- `cooldown_until IS NOT NULL AND cooldown_until <= now`
abbrev pub past : ℕ → Option ℕ → Bool
past now none = false
past now (some t) = leb t now

abbrev pub available : ℕ → ConfigValue → Bool
available now v = v.is_enabled && (is_active v.status && null_or_past now v.cooldown_until)

-- NULLS FIRST
abbrev pub used_key : Option ℕ → ℕ
used_key none = 0
used_key (some t) = suc t

-- ORDER BY priority, weight DESC, last_used_at NULLS FIRST, id.
unfoldable pub goes_before : ConfigValue → ConfigValue → Bool
goes_before a b =
    if a.priority == b.priority
    then (if a.weight == b.weight
        then (if used_key a.last_used_at == used_key b.last_used_at
            then leb a.id b.id
            else ltb (used_key a.last_used_at) (used_key b.last_used_at))
        else ltb b.weight a.weight)
    else ltb a.priority b.priority

unfoldable pub insert : ConfigValue → List ConfigValue → List ConfigValue
unfolding goes_before
insert v [] = v ∷ []
insert v (w ∷ ws) = let rest = insert v ws in if goes_before v w then v ∷ w ∷ ws else w ∷ rest

unfoldable pub order_by : List ConfigValue → List ConfigValue
unfolding insert
order_by [] = []
order_by (v ∷ vs) = insert v (order_by vs)

-- list_values, of a given kind, available ones only.
unfoldable pub list_values : ℕ → ℕ → String → List ConfigValue → List ConfigValue
unfolding order_by select
list_values now config_id value_kind values = order_by (
    select
      (λ v.
        (v.system_config_id == config_id) && (str_eq v.value_kind value_kind && available now v))
      values)

abbrev pub released : ℕ → ConfigValue → ConfigValue
released now v = record v { status = active; cooldown_until = none; updated_at = now }

unfoldable pub release_expired_cooldowns : ℕ → List ConfigValue → List ConfigValue
unfolding update_where
release_expired_cooldowns now values =
    update_where (λ v. is_cooling v.status && past now v.cooldown_until) (released now) values

abbrev pub value_is : ℕ → ConfigValue → Bool
value_is id v = v.id == id

unfoldable pub mark_value_used : ℕ → ℕ → List ConfigValue → List ConfigValue
unfolding update_where
mark_value_used now id values =
    update_where (value_is id)
      (λ v. record v { last_used_at = some now; failure_count = 0; updated_at = now }) values

unfoldable pub mark_value_failure : ℕ → ℕ → List ConfigValue → List ConfigValue
unfolding update_where
mark_value_failure now id values =
    update_where (value_is id)
      (λ v. record v { failure_count = v.failure_count + 1; updated_at = now }) values

unfoldable pub mark_value_invalid : ℕ → ℕ → List ConfigValue → List ConfigValue
unfolding update_where
mark_value_invalid now id values =
    update_where (value_is id)
      (λ v. record v { status = invalid; failure_count = v.failure_count + 1; updated_at = now })
      values

unfoldable pub mark_value_cooldown : ℕ → ℕ → ℕ → List ConfigValue → List ConfigValue
unfolding update_where
mark_value_cooldown now id until values =
    update_where (value_is id)
      (λ v. record v {
        status = cooldown;
        cooldown_until = some until;
        failure_count = v.failure_count + 1;
        updated_at = now;
      })
      values
