-- ===== src/Llm.antt =====
-- python-back/app/modules/llm_runtime/service.py: the calls of a language model, which try the keys of a
-- configuration one after the other, and the context that goes with a question. Decrypting a key and
-- asking the provider with it, up to the text of the reply, is an argument, as is the time at which
-- the attempt with a key ends. The log keeps of a call the key and how it ended, and a result whether
-- it succeeded, the text and the error: what both repeat of the request and of the profile is left out,
-- with the usage and the reading of the text as JSON.

pub mod Context
pub mod Failover
use stock_center.Base.{
  ℕ, ◌+◌, ◌-◌, Bool, true, false, Option, none, some, List, [], ◌∷◌, ◌++◌, leb, ◌==◌, if◌then◌else◌,
  ◌&&◌, ◌||◌, length, any, take,
}
use stock_center.Base.Text.{Text, codes}
use stock_center.Tokens.{ConfigValue, list_values, mark_value_used, mark_value_failure}

pub data Status : Type 0 where
  success failed : Status

pub data ErrorCode : Type 0 where
  llm_key_missing llm_provider_call_failed : ErrorCode

pub record CallLog : Type 0 where
  pub status : Status
  pub config_value_id : Option ℕ
  pub error_code : Option ErrorCode

pub record Tables : Type 0 where
  pub values : List ConfigValue
  pub calls : List CallLog

pub record LlmChatResult : Type 0 where
  pub success : Bool
  pub content : Option Text
  pub error : Option (ErrorCode × Text)

-- What decrypting a key and asking the provider with it gives: the reply's text, or the text of what
-- it raises.
pub data Attempt : Type 0 where
  replies : Text → Attempt
  raises : Text → Attempt

-- `str.lower` where it matters: no letter outside ASCII becomes one of the markers'.
abbrev pub lower : Text → Text
lower [] = []
lower (c ∷ s) = (if leb b'A' c && leb c b'Z' then c + 32 else c) ∷ lower s

abbrev pub starts_with : Text → Text → Bool
starts_with [] s = true
starts_with (c ∷ p) [] = false
starts_with (c ∷ p) (d ∷ s) = c == d && starts_with p s

-- `p in s`
abbrev pub occurs : Text → Text → Bool
occurs p [] = starts_with p []
occurs p (c ∷ s) = starts_with p (c ∷ s) || occurs p s

abbrev pub markers : List Text
markers =
    codes "401"
    ∷ codes "403"
    ∷ codes "unauthorized"
    ∷ codes "forbidden"
    ∷ codes "invalid"
    ∷ codes "quota"
    ∷ codes "rate"
    ∷ []

unfoldable pub should_try_next_key : Text → Bool
unfolding any
should_try_next_key text = any (λ marker. occurs marker (lower text)) markers

-- _record_failure
unfoldable pub record_failure : ErrorCode → Text → Option ℕ → Tables → LlmChatResult × Tables
record_failure code message key t = (
  record { success = false; content = none; error = some (code, message) },
  record t {
    calls =
        t.calls ++ record { status = failed; config_value_id = key; error_code = some code } ∷ [];
  },
)

-- The reply, with the key's use and the call recorded.
unfoldable pub record_success : ℕ → ℕ → Text → Tables → LlmChatResult × Tables
unfolding mark_value_used
record_success now key content t = (
  record { success = true; content = some content; error = none },
  record {
    values = mark_value_used now key t.values;
    calls =
        t.calls ++ record { status = success; config_value_id = some key; error_code = none } ∷ [];
  },
)

abbrev pub key_failed : ℕ → ℕ → Tables → Tables
key_failed now key t = record t { values = mark_value_failure now key t.values }

module _ (attempt : ConfigValue → Attempt) (clock : ConfigValue → ℕ) where
  -- The loop over the keys, with the last error and its key.
  unfoldable pub try_keys : List ConfigValue → Option ℕ → Text → Tables → LlmChatResult × Tables
  unfolding record_failure record_success should_try_next_key
  try_keys [] last_key message t = record_failure llm_provider_call_failed message last_key t
  try_keys (key ∷ keys) last_key message t = elim (attempt key) [
    | replies content ↦ record_success (clock key) key.id content t
    | raises error ↦ elim (should_try_next_key error) [
      | true ↦ try_keys keys (some key.id) error (key_failed (clock key) key.id t)
      | false ↦
          record_failure llm_provider_call_failed error (some key.id)
            (key_failed (clock key) key.id t)
    ]
  ]

  unfoldable pub with_keys : Text → List ConfigValue → Tables → LlmChatResult × Tables
  unfolding try_keys
  with_keys config_code [] t =
      record_failure llm_key_missing (codes "LLM config has no active key: " ++ config_code) none t
  with_keys config_code (key ∷ keys) t =
      try_keys (key ∷ keys) none (codes "LLM provider call failed") t

  -- _chat_with_profile at `now`.
  unfoldable pub chat_with_profile : ℕ → ℕ → Text → Tables → LlmChatResult × Tables
  unfolding with_keys list_values
  chat_with_profile now config_id config_code t =
      with_keys config_code (list_values now config_id "api_key" t.values) t

abbrev pub ending : Text
ending = 10 ∷ codes "...<context_truncated>"

unfoldable pub context_json : ℕ → Text → Text
unfolding take
context_json max_chars text =
    if leb (length text) max_chars then text else take (max_chars - 80) text ++ ending

-- Whether the context pack is marked as truncated.
unfoldable pub context_truncated : ℕ → Text → Bool
unfolding context_json
context_truncated max_chars text = leb max_chars (length (context_json max_chars text))
