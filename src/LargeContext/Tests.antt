-- ===== src/LargeContext/Tests.antt =====
-- A request of two messages that is too long for its budget.
use aiephant_ai_gateway.Common.{
  ℕ, zero, suc, ◌*◌, ◌/◌, ◌≤◌, ◌≡◌, ◌≢◌, refl, Bool, true, false, Option, none, some, List, [], ◌∷◌,
  map, length, if◌then◌else◌,
}
use aiephant_ai_gateway.Common.Text.{Text, codes, text_eq, is_whitespace}
use aiephant_ai_gateway.LargeContext.{ChatMessageTextRef, ChatCompletionsPayload}
use aiephant_ai_gateway.LargeContext.Parse.{
  Json, From, parse_chat_completions_payload, parse_chat_completions_payload-From, array_of,
}
use aiephant_ai_gateway.LargeContext.Shorten.{
  normalize_text, truncate_text_to_limit, middle_out_text_to_limit,
}
use aiephant_ai_gateway.LargeContext.Budgets.{
  Floats, budget_chars, message_budget, proportional_char_budgets, total_message_chars,
  compute_input_budget_tokens,
}
use aiephant_ai_gateway.LargeContext.Headers.{text, truncate, resolve}
use aiephant_ai_gateway.LargeContext.Apply.{apply_shortening, apply_truncate, apply_middle_out}
use aiephant_ai_gateway.LargeContext.ApplyLaws.{
  Shortened, apply_truncate-Shortened, apply_middle_out-Shortened,
}
use aiephant_ai_gateway.LargeContext.Transform.{
  truncated, panics, choose, numbers, maybe_transform_unified_api_chat_request,
}
use aiephant_ai_gateway.LargeContext.TransformLaws.{maybe_transform-handled, choose-truncated}

abbrev sentence : Text
sentence = codes "the quick brown fox jumps over"

abbrev user : ℕ → ChatMessageTextRef
user index = record { index = index; role = some (codes "user"); content = sentence }

abbrev two_messages : List ChatMessageTextRef
two_messages = user 0 ∷ user 1 ∷ []

-- Numbers in hundredths.
abbrev floats : Floats
floats = record {
  F32 = ℕ;
  quarter = 25;
  fifth = 20;
  nine_tenths = 90;
  of_u32 = λ n. n * 100;
  div = λ a b. a * 100 / b;
  mul = λ a b. a * b / 100;
  floor = λ a. a / 100;
}

-- A request by its model and contents, and the values inside it.
data Node : Type 0 where
  request : Text → List Text → Node
  contents : List Text → Node
  message : Text → Node
  string : Text → Node

abbrev get_field : Node → Text → Option Node
get_field (request model texts) key =
    if text_eq key (codes "messages")
    then some (contents texts)
    else if text_eq key (codes "model")
    then some (string model)
    else none
get_field (message content) key =
    if text_eq key (codes "content") then some (string content) else none
get_field (contents texts) key = none
get_field (string s) key = none

abbrev set_nth : List Text → ℕ → Text → List Text
set_nth [] n t = []
set_nth (s ∷ ss) zero t = t ∷ ss
set_nth (s ∷ ss) (suc n) t = s ∷ set_nth ss n t

abbrev elements : Node → Option (List Node)
elements (contents texts) = some (map message texts)
elements (request model texts) = none
elements (message content) = none
elements (string s) = none

abbrev is_container : Node → Bool
is_container (request model texts) = true
is_container (message content) = true
is_container (contents texts) = false
is_container (string s) = false

abbrev string_of : Node → Option Text
string_of (string s) = some s
string_of (request model texts) = none
string_of (message content) = none
string_of (contents texts) = none

abbrev set_model : Node → Text → Node
set_model (request model texts) m = request m texts
set_model (message content) m = message content
set_model (contents texts) m = contents texts
set_model (string s) m = string s

abbrev set_text : Node → ℕ → Text → Node
set_text (request model texts) n t = request model (set_nth texts n t)
set_text (message content) n t = message content
set_text (contents texts) n t = contents texts
set_text (string s) n t = string s

abbrev json : Json
json = record {
  Value = Node;
  from_slice = λ body. some (request (codes "openai/gpt-4o") (body ∷ body ∷ []));
  is_object = is_container;
  get = get_field;
  as_array = elements;
  as_str = string_of;
  as_u64 = λ v. none;
  is_null = λ v. false;
  with_model = set_model;
  has_messages = is_container;
  set_content = set_text;
  model_of = λ v. none;
  to_vec = λ v. some sentence;
}

abbrev parsed_request : ChatCompletionsPayload Node
parsed_request = record {
  raw = request (codes "openai/gpt-4o") (sentence ∷ sentence ∷ []);
  model = some (codes "openai/gpt-4o");
  messages =
      record { index = 0; role = none; content = sentence }
      ∷ record { index = 1; role = none; content = sentence }
      ∷ [];
  has_non_text_message_content = false;
  tools = none;
  requested_completion_tokens = none;
}

parses : parse_chat_completions_payload json sentence ≡ some parsed_request
unfolding parse_chat_completions_payload is_whitespace
parses = refl

parse_chat_completions_payload-From_example :
    (messages : List Node) × (array_of json (json.get parsed_request.raw (codes "messages"))
      ≡ some messages)
    × From json 0 (length messages) parsed_request.messages
parse_chat_completions_payload-From_example =
    parse_chat_completions_payload-From json sentence parsed_request parses

-- Most of the context is reserved for the completion.
abbrev payload : ChatCompletionsPayload Node
payload = record parsed_request {
  messages = two_messages;
  requested_completion_tokens = some 127_990;
}

abbrev model : Text
model = codes "openai/gpt-4o"

abbrev truncated_request : Node
truncated_request = request model (codes "the quick..." ∷ codes "the quick..." ∷ [])

truncates : apply_truncate floats json payload model 10 ≡ some truncated_request
unfolding apply_truncate apply_shortening budget_chars is_whitespace total_message_chars
    normalize_text proportional_char_budgets message_budget truncate_text_to_limit
    middle_out_text_to_limit
truncates = refl

apply_truncate-Shortened_example : Shortened floats json payload model 10 truncated_request
apply_truncate-Shortened_example =
    apply_truncate-Shortened floats json payload model 10 truncated_request truncates

abbrev middle_request : Node
middle_request = request model (codes "the quic...ps over" ∷ codes "the quic...ps over" ∷ [])

middles : apply_middle_out floats json payload model 10 ≡ some middle_request
unfolding apply_middle_out apply_shortening budget_chars is_whitespace total_message_chars
    normalize_text proportional_char_budgets message_budget truncate_text_to_limit
    middle_out_text_to_limit
middles = refl

apply_middle_out-Shortened_example : Shortened floats json payload model 10 middle_request
apply_middle_out-Shortened_example =
    apply_middle_out-Shortened floats json payload model 10 middle_request middles

abbrev estimate : ChatCompletionsPayload Node → Text → Option ℕ
estimate p m = some 14

maybe_transform-handled_example :
    maybe_transform_unified_api_chat_request floats json estimate
      (some (text (codes "truncate")))
      none
      sentence
    ≢ panics
maybe_transform-handled_example =
    maybe_transform-handled floats json estimate (some (text (codes "truncate"))) none sentence

chooses :
    choose floats json estimate truncate payload
      (some model)
      model
      (numbers floats json estimate payload model)
      none
    ≡ some (truncated, some truncated_request)
unfolding choose numbers resolve compute_input_budget_tokens apply_truncate apply_shortening
    budget_chars is_whitespace total_message_chars normalize_text proportional_char_budgets
    message_budget truncate_text_to_limit middle_out_text_to_limit
chooses = refl

choose-truncated_example :
    (limit estimated : ℕ) × (resolve model ≡ some limit)
    × (estimate payload model ≡ some estimated)
    × (compute_input_budget_tokens limit (some 127_990) ≤ estimated)
    × (v : Node) × (some truncated_request ≡ some v)
    × Shortened floats json payload model (compute_input_budget_tokens limit (some 127_990)) v
choose-truncated_example =
    choose-truncated floats json estimate payload (some model) model none (some truncated_request)
      chooses
