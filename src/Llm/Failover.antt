-- ===== src/Llm/Failover.antt =====
-- How the loop over the keys of a configuration ends, and what it leaves in the tables.
use stock_center.Base.{
  ℕ, ◌≡◌, ◌⊎◌, refl, ap, true, false, Option, none, some, List, [], ◌∷◌, ◌++◌, All, Bool-cases, inl,
  inr,
}
use stock_center.Base.Text.{Text, codes}
use stock_center.Tokens.{ConfigValue, list_values}
use stock_center.Llm.{
  Tables, LlmChatResult, Attempt, replies, raises, llm_key_missing, llm_provider_call_failed,
  should_try_next_key, record_failure, record_success, key_failed, try_keys, with_keys,
  chat_with_profile,
}

Attempt-cases : (a : Attempt) → ((s : Text) × (a ≡ replies s)) ⊎ ((s : Text) × (a ≡ raises s))
Attempt-cases (replies s) = inl (s, refl)
Attempt-cases (raises s) = inr (s, refl)

module _ (attempt : ConfigValue → Attempt) (clock : ConfigValue → ℕ) where
  -- The tables after these keys failed, one after the other.
  abbrev pub all_failed : List ConfigValue → Tables → Tables
  all_failed [] t = t
  all_failed (k ∷ ks) t = all_failed ks (key_failed (clock k) k.id t)

  abbrev pub PassedOn : ConfigValue → Type 0
  PassedOn k = (error : Text) × (attempt k ≡ raises error) × (should_try_next_key error ≡ true)

  -- How a call with these keys goes: the first key that is not passed on decides it.
  pub data Course (keys : List ConfigValue) (t : Tables) (r : LlmChatResult × Tables) : Type 0 where
    answered :
        (before : List ConfigValue) (key : ConfigValue) (after : List ConfigValue) (content : Text)
        → keys ≡ before ++ key ∷ after
        → All PassedOn before
        → attempt key ≡ replies content
        → r ≡ record_success (clock key) key.id content (all_failed before t)
        → Course keys t r
    gave_up :
        (before : List ConfigValue) (key : ConfigValue) (after : List ConfigValue) (error : Text)
        → keys ≡ before ++ key ∷ after
        → All PassedOn before
        → attempt key ≡ raises error
        → (after ≡ []) ⊎ (should_try_next_key error ≡ false)
        → r
          ≡ record_failure llm_provider_call_failed error
              (some key.id)
              (key_failed (clock key) key.id (all_failed before t))
        → Course keys t r

  Course-PassedOn :
      (k : ConfigValue) (ks : List ConfigValue) (t : Tables) (r : LlmChatResult × Tables)
      → PassedOn k
      → Course ks (key_failed (clock k) k.id t) r
      → Course (k ∷ ks) t r
  Course-PassedOn k ks t r p (answered before key after content e all a q) =
      answered (k ∷ before) key after content (ap (λ l. k ∷ l) e) (p, all) a q
  Course-PassedOn k ks t r p (gave_up before key after error e all a last q) =
      gave_up (k ∷ before) key after error (ap (λ l. k ∷ l) e) (p, all) a last q

  first_key-Course :
      (key : ConfigValue) (keys : List ConfigValue) (last_key : Option ℕ) (message : Text)
      (t : Tables)
      → ((error : Text)
          → attempt key ≡ raises error
          → should_try_next_key error ≡ true
          → Course
              (key ∷ keys)
              t
              (try_keys attempt clock keys (some key.id) error (key_failed (clock key) key.id t)))
      → Course (key ∷ keys) t (try_keys attempt clock (key ∷ keys) last_key message t)
  unfolding try_keys
  first_key-Course key keys last_key message t rest = elim (Attempt-cases (attempt key)) [
    | inl (content, a) ↦ rw (try_keys, a) (answered [] key keys content refl tt a refl)
    | inr (error, a) ↦ elim (Bool-cases (should_try_next_key error)) [
      | inl go ↦ rw (try_keys, a) (rw (go) (rest error a go))
      | inr stop ↦
          rw (try_keys, a) (rw (stop) (gave_up [] key keys error refl tt a (inr stop) refl))
    ]
  ]

  try_keys-Course :
      (key : ConfigValue) (keys : List ConfigValue) (last_key : Option ℕ) (message : Text)
      (t : Tables)
      → Course (key ∷ keys) t (try_keys attempt clock (key ∷ keys) last_key message t)
  unfolding try_keys
  try_keys-Course key [] last_key message t =
      first_key-Course key [] last_key message t
        (λ error a go. gave_up [] key [] error refl tt a (inl refl) refl)
  try_keys-Course key (k ∷ keys) last_key message t =
      first_key-Course key (k ∷ keys) last_key message t (λ error a go.
        Course-PassedOn key (k ∷ keys) t _ (error, a, go)
          (try_keys-Course k keys (some key.id) error (key_failed (clock key) key.id t)))

  with_keys-Course :
      (config_code : Text) (keys : List ConfigValue) (t : Tables)
      → ((keys ≡ [])
          × (with_keys attempt clock config_code keys t
              ≡ record_failure llm_key_missing
                  (codes "LLM config has no active key: " ++ config_code)
                  none
                  t))
        ⊎ Course keys t (with_keys attempt clock config_code keys t)
  unfolding with_keys
  with_keys-Course config_code [] t = inl (refl, refl)
  with_keys-Course config_code (key ∷ keys) t =
      inr (try_keys-Course key keys none (codes "LLM provider call failed") t)

  -- A call of the model at `now` fails without an attempt when no key of the configuration is
  -- available. Otherwise the available keys are tried in their order: the first that is not passed
  -- on for an error that calls for another key decides the call. If it replies, the reply is
  -- returned, its key marked as used and one success recorded; if it raises another error, or is the
  -- last, that error is returned, and one failure recorded. Every key before it, and it if it
  -- raised, has a failure counted; nothing else changes.
  pub chat_with_profile-Course :
      (now config_id : ℕ) (config_code : Text) (t : Tables)
      → ((list_values now config_id "api_key" t.values ≡ [])
          × (chat_with_profile attempt clock now config_id config_code t
              ≡ record_failure llm_key_missing
                  (codes "LLM config has no active key: " ++ config_code)
                  none
                  t))
        ⊎ Course
            (list_values now config_id "api_key" t.values)
            t
            (chat_with_profile attempt clock now config_id config_code t)
  unfolding chat_with_profile with_keys
  chat_with_profile-Course now config_id config_code t =
      with_keys-Course config_code (list_values now config_id "api_key" t.values) t
