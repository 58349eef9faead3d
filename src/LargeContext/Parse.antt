-- ===== src/LargeContext/Parse.antt =====
-- middleware/large_context/parse.rs: the text messages of a chat request. serde_json is a parameter.
use aiephant_ai_gateway.Common.{
  ℕ, suc, ◌+◌, ◌^◌, ◌≡◌, refl, ◌<◌, ◌≤◌, Bool, true, false, Option, none, some, List, [], ◌∷◌, ltb,
  length, if◌then◌else◌, arith, Bool-cases, ap, subst, inl, inr,
}
use aiephant_ai_gateway.Common.Text.{Text, codes, trim, is_empty}
use aiephant_ai_gateway.LargeContext.{ChatMessageTextRef, ChatCompletionsPayload}

-- What the code does with a `serde_json::Value`.
pub record Json : Type 1 where
  pub Value : Type 0
  pub from_slice : Text → Option Value
  pub is_object : Value → Bool
  -- `Map::get`; `none` if the value is no object.
  pub get : Value → Text → Option Value
  pub as_array : Value → Option (List Value)
  pub as_str : Value → Option Text
  pub as_u64 : Value → Option ℕ
  pub is_null : Value → Bool
  -- `as_object_mut` and the insertion of "model".
  pub with_model : Value → Text → Value
  -- Whether `get_mut("messages")` is an array.
  pub has_messages : Value → Bool
  -- `messages_array[index]["content"] = ..`.
  pub set_content : Value → ℕ → Text → Value
  -- `get("model")` as a string.
  pub model_of : Value → Option Text
  pub to_vec : Value → Option Text

module _ (j : Json) where
  open j use {Value, from_slice, is_object, get, as_array, as_str, as_u64, is_null}

  not_blank : Option Text → Option Text
  unfolding trim
  not_blank none = none
  not_blank (some s) = if is_empty (trim s) then none else some (trim s)

  trimmed_string : Option Value → Option Text
  unfolding not_blank
  trimmed_string none = none
  trimmed_string (some v) = not_blank (as_str v)

  -- A number that an `u32` holds.
  small : Option ℕ → Option ℕ
  small none = none
  small (some n) = if ltb n (2 ^ 32) then some n else none

  number : Option Value → Option ℕ
  unfolding small
  number none = none
  number (some v) = small (as_u64 v)

  first_number : Value → List Text → Option ℕ
  unfolding number
  first_number object [] = none
  first_number object (key ∷ keys) = elim (number (get object key)) [
    | some n ↦ some n
    | none ↦ first_number object keys
  ]

  completion_budget_from_object : Value → Option ℕ
  unfolding first_number
  completion_budget_from_object object =
      first_number object
        (codes "max_completion_tokens" ∷ codes "max_tokens" ∷ codes "max_output_tokens" ∷ [])

  -- The text messages and whether another content was met.
  abbrev pub Scan : Type 0
  Scan = List ChatMessageTextRef × Bool

  scan_string : ℕ → Option Text → Bool → Option Text → Scan → Scan
  scan_string index role null none (ms, other) = (ms, if null then other else true)
  scan_string index role null (some content) (ms, other) =
      (record { index = index; role = role; content = content } ∷ ms, other)

  scan_content : ℕ → Option Text → Option Value → Scan → Scan
  unfolding scan_string
  scan_content index role none s = s
  scan_content index role (some v) s = scan_string index role (is_null v) (as_str v) s

  scan_message : ℕ → Value → Scan → Scan
  unfolding scan_content trimmed_string
  scan_message index v (ms, other) =
      if is_object v
      then scan_content index (trimmed_string (get v (codes "role"))) (get v (codes "content"))
          (ms, other)
      else (ms, true)

  -- The loop over the messages, from the given index.
  unfoldable pub scan : ℕ → List Value → Scan
  unfolding scan_message
  scan index [] = ([], false)
  scan index (v ∷ vs) = scan_message index v (scan (suc index) vs)

  payload_of : Value → Option (List Value) → Option (ChatCompletionsPayload Value)
  unfolding scan trimmed_string completion_budget_from_object
  payload_of raw none = none
  payload_of raw (some messages) =
      let (texts, other) = scan 0 messages in
      some (record {
        raw = raw;
        model = trimmed_string (get raw (codes "model"));
        messages = texts;
        has_non_text_message_content = other;
        tools = get raw (codes "tools");
        requested_completion_tokens = completion_budget_from_object raw;
      })

  unfoldable pub array_of : Option Value → Option (List Value)
  array_of none = none
  array_of (some v) = as_array v

  parsed : Option Value → Option (ChatCompletionsPayload Value)
  unfolding payload_of array_of
  parsed none = none
  parsed (some raw) =
      if is_object raw then payload_of raw (array_of (get raw (codes "messages"))) else none

  -- `none` for a text that does not parse and for `Ok(None)`, which its caller treats alike.
  unfoldable pub parse_chat_completions_payload : Text → Option (ChatCompletionsPayload Value)
  unfolding parsed
  parse_chat_completions_payload body = parsed (from_slice body)

  -- The indices of the messages are places of the array, in order.
  abbrev pub From : ℕ → ℕ → List ChatMessageTextRef → Type 0
  From low high [] = Unit
  From low high (m ∷ ms) = (low ≤ m.index) × (m.index < high) × From (suc m.index) high ms

  From-weaken :
      (low low' high : ℕ) (ms : List ChatMessageTextRef)
      → low' ≤ low
      → From low high ms
      → From low' high ms
  From-weaken low low' high [] h f = tt
  From-weaken low low' high (m ∷ ms) h (a, b, c) = (omega arith, b, c)

  scan_string-From :
      (index high : ℕ) (role : Option Text) (null : Bool) (content : Option Text) (s : Scan)
      → index < high
      → From (suc index) high s.0
      → From index high (scan_string index role null content s).0
  unfolding scan_string
  scan_string-From index high role null none (ms, other) h f =
      From-weaken (suc index) index high ms (omega arith) f
  scan_string-From index high role null (some content) (ms, other) h f = (omega arith, h, f)

  scan_content-From :
      (index high : ℕ) (role : Option Text) (content : Option Value) (s : Scan)
      → index < high
      → From (suc index) high s.0
      → From index high (scan_content index role content s).0
  unfolding scan_content
  scan_content-From index high role none s h f =
      From-weaken (suc index) index high s.0 (omega arith) f
  scan_content-From index high role (some v) s h f =
      scan_string-From index high role (is_null v) (as_str v) s h f

  scan_message-From :
      (index high : ℕ) (v : Value) (s : Scan)
      → index < high
      → From (suc index) high s.0
      → From index high (scan_message index v s).0
  unfolding scan_message
  scan_message-From index high v (ms, other) h f = elim (Bool-cases (is_object v)) [
    | inl object ↦ rw object (scan_content-From index high _ _ (ms, other) h f)
    | inr value ↦ rw value (From-weaken (suc index) index high ms (omega arith) f)
  ]

  scan-From :
      (index high : ℕ) (vs : List Value)
      → high ≡ index + length vs
      → From index high (scan index vs).0
  unfolding scan
  scan-From index high [] e = tt
  scan-From index high (v ∷ vs) e =
      scan_message-From index high v (scan (suc index) vs) (omega (arith, e))
        (scan-From (suc index) high vs (omega (arith, e)))

  abbrev raw_or : Value → Option (ChatCompletionsPayload Value) → Value
  raw_or v none = v
  raw_or v (some p) = p.raw

  abbrev messages_or :
      List ChatMessageTextRef → Option (ChatCompletionsPayload Value) → List ChatMessageTextRef
  messages_or ms none = ms
  messages_or ms (some p) = p.messages

  abbrev Placed : ChatCompletionsPayload Value → Option (List Value) → Type 0
  Placed payload o =
      (messages : List Value) × (o ≡ some messages) × From 0 (length messages) payload.messages

  payload_of-Placed :
      (raw : Value) (o : Option (List Value)) (payload : ChatCompletionsPayload Value)
      → payload_of raw o ≡ some payload
      → (raw ≡ payload.raw) × Placed payload o
  unfolding payload_of
  payload_of-Placed raw none payload e = cc e
  payload_of-Placed raw (some messages) payload e =
      let texts : (scan 0 messages).0 ≡ payload.messages = ap (messages_or []) e in
      (
        ap (raw_or raw) e,
        (
          messages,
          refl,
          subst (From 0 (length messages)) texts
              (scan-From 0 (length messages) messages (omega arith)),
        ),
      )

  parsed-Placed :
      (o : Option Value) (payload : ChatCompletionsPayload Value)
      → parsed o ≡ some payload
      → Placed payload (array_of (get payload.raw (codes "messages")))
  unfolding parsed
  parsed-Placed none payload e = cc e
  parsed-Placed (some raw) payload e = elim (Bool-cases (is_object raw)) [
    | inl object ↦
        let (same, placed) =
          payload_of-Placed raw (array_of (get raw (codes "messages"))) payload (rw object at e) in
        subst (λ v. Placed payload (array_of (get v (codes "messages")))) same placed
    | inr value ↦ cc (rw value at e)
  ]

  -- The text messages of a request that parses stand at increasing places of its array of messages, so
  -- that their contents can be written back.
  pub parse_chat_completions_payload-From :
      (body : Text) (payload : ChatCompletionsPayload Value)
      → parse_chat_completions_payload body ≡ some payload
      → (messages : List Value) × (array_of (get payload.raw (codes "messages")) ≡ some messages)
        × From 0 (length messages) payload.messages
  unfolding parse_chat_completions_payload
  parse_chat_completions_payload-From body payload e = parsed-Placed (from_slice body) payload e
