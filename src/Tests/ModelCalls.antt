-- ===== src/Tests/ModelCalls.antt =====
-- Examples for the calls of a language model.
use stock_center.Base.{
  ℕ, ◌+◌, ◌≡◌, ◌↔◌, ◌≤◌, ◌⊎◌, true, none, some, [], ◌∷◌, ◌++◌, ◌==◌, if◌then◌else◌, length, arith,
  refl,
}
use stock_center.Base.Text.{Text, codes}
use stock_center.Tokens.{ConfigValue, active, list_values}
use stock_center.Llm.{
  Tables, Attempt, replies, raises, llm_key_missing, record_failure, chat_with_profile,
  context_json, context_truncated,
}
use stock_center.Llm.Context.{context_truncated_iff}
use stock_center.Llm.Failover.{Course, chat_with_profile-Course}

abbrev key : ℕ → ConfigValue
key n = record {
  id = n;
  system_config_id = 7;
  value_kind = "api_key";
  priority = n;
  weight = 1;
  status = active;
  failure_count = 0;
  last_used_at = none;
  cooldown_until = none;
  is_enabled = true;
  updated_at = 0;
}

abbrev three_keys : Tables
three_keys = record { values = key 3 ∷ key 1 ∷ key 2 ∷ []; calls = [] }

-- The first key is refused, the second answers.
abbrev second_answers : ConfigValue → Attempt
second_answers k =
    if k.id == 1 then raises (codes "HTTP 401 Unauthorized") else replies (codes "{}")

-- The second key was used.
answer :
    (chat_with_profile second_answers (λ k. 40 + k.id) 30 7 (codes "deepseek") three_keys).0.content
    ≡ some (codes "{}")
unfolding chat_with_profile
answer = refl

chat_with_profile-Course_example :
    ((list_values 30 7 "api_key" three_keys.values ≡ [])
      × (chat_with_profile second_answers (λ k. 40 + k.id) 30 7 (codes "deepseek") three_keys
          ≡ record_failure llm_key_missing
              (codes "LLM config has no active key: " ++ codes "deepseek")
              none
              three_keys))
    ⊎ Course second_answers
        (λ k. 40 + k.id)
        (list_values 30 7 "api_key" three_keys.values)
        three_keys
        (chat_with_profile second_answers (λ k. 40 + k.id) 30 7 (codes "deepseek") three_keys)
chat_with_profile-Course_example =
    chat_with_profile-Course second_answers (λ k. 40 + k.id) 30 7 (codes "deepseek") three_keys

abbrev long_text : Text
long_text =
    codes
      "a context of more than eighty characters, of which none is left, since the cut keeps max_chars - 80"

context_truncated_iff_example :
    (length (context_json 80 long_text) ≤ 80)
    × (context_truncated 80 long_text ≡ true ↔ length long_text ≡ 80)
context_truncated_iff_example = context_truncated_iff 80 long_text (omega arith)
