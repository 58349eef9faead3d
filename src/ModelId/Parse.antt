-- ===== src/ModelId/Parse.antt =====
-- The parsers of model identifiers.
use aiephant_ai_gateway.Common.{
  ℕ, Bool, true, false, not, ◌&&◌, Option, none, some, option_or, List, [], ◌∷◌, ◌++◌, map, Result,
  ok, err, ◌>>=◌, leb, ◌==◌, ◌+◌, if◌then◌else◌, unwrap_or,
}
use aiephant_ai_gateway.Common.Text.{Text, codes, is_empty, ends_with, eq_ignore_ascii_case}
use aiephant_ai_gateway.Common.Text.Cuts.{split_once, rsplit_once, strip_suffix, option_map}
use aiephant_ai_gateway.Provider.{
  InferenceProvider, open_ai, anthropic, bedrock, ollama, google_gemini, custom, named,
}
use aiephant_ai_gateway.Provider.Codes.{from_str}
use aiephant_ai_gateway.ModelId.{
  DateFormat, year_month_day_dashed, year_month_day, month_day_dashed, month_day, Chrono, Version,
  implicit_latest, latest, preview, date_versioned_preview, date, MapperError, invalid_model_name,
  ModelIdWithVersion, OllamaModelId, BedrockModelId, ModelId, with_version, bedrock_model,
  ollama_model,
}

-- The places where the separator stands with a text after it, the leftmost first.
unfoldable pub candidates : ℕ → Text → List (Text × Text)
candidates sep [] = []
candidates sep (c ∷ s) =
    let rest = map (λ p. (c ∷ p.0, p.1)) (candidates sep s) in
    if c == sep && not (is_empty s) then ([], s) ∷ rest else rest

unfoldable pub not_empty : Text → Option Text
not_empty t = if is_empty t then none else some t

unfoldable pub ollama_parts : Text → Option (Text × Text) → OllamaModelId
unfolding not_empty
ollama_parts s none = record { model = s; tag = none }
ollama_parts s (some (model, tag)) = record { model = model; tag = not_empty tag }

-- `OllamaModelId::from_str`, which never fails.
unfoldable pub ollama_from_str : Text → OllamaModelId
unfolding ollama_parts
ollama_from_str s = ollama_parts s (split_once b':' s)

abbrev pub dots : Text → ℕ
dots [] = 0
dots (c ∷ s) = (if c == b'.' then 1 else 0) + dots s

unfoldable pub provider_and_rest :
    Option Text → Option (Text × Text) → Option (Option Text × Text × Text)
provider_and_rest geo none = none
provider_and_rest geo (some (provider, rest)) = some (geo, provider, rest)

unfoldable pub after_geo : Option (Text × Text) → Option (Option Text × Text × Text)
unfolding provider_and_rest
after_geo none = none
after_geo (some (geo, more)) = provider_and_rest (some geo) (split_once b'.' more)

-- The geo, which only a text with two dots has, the provider and the rest.
unfoldable pub bedrock_parts : Text → Option (Option Text × Text × Text)
unfolding after_geo provider_and_rest
bedrock_parts s =
    if leb 2 (dots s)
    then after_geo (split_once b'.' s)
    else provider_and_rest none (split_once b'.' s)

module _ {D : Type 0} (chrono : Chrono D) where
  -- One format, on the input with what stands before it.
  unfoldable pub try_format : DateFormat → Text → Text → Option (D × DateFormat)
  try_format f pattern input = option_map (λ d. (d, f)) (chrono.parse_from_str input pattern)

  -- Midnight always exists, so `and_hms_opt` gives a time for each date.
  unfoldable pub parse_date : Text → Option (D × DateFormat)
  unfolding try_format
  parse_date input = option_or (try_format year_month_day_dashed (codes "%Y-%m-%d") input) (
      option_or (try_format year_month_day (codes "%Y%m%d") input) (
        option_or
          (try_format month_day_dashed (codes "%Y-%m-%d") (chrono.current_year ++ b'-' ∷ input))
          (try_format month_day (codes "%Y%m%d") (chrono.current_year ++ input))))

  unfoldable pub is_full : DateFormat → Bool
  is_full year_month_day_dashed = true
  is_full year_month_day = true
  is_full month_day_dashed = false
  is_full month_day = false

  -- What a candidate gives: its date if the test holds for the date's format.
  unfoldable pub dated : (DateFormat → Bool) → Option (D × DateFormat) → Option (Version D)
  dated test none = none
  dated test (some (d, f)) = if test f then some (date d f) else none

  -- The first loop: a date with its year.
  unfoldable pub full_date : Text → Option (Version D)
  unfolding dated is_full parse_date
  full_date candidate = dated is_full (parse_date candidate)

  unfoldable pub keyword : Text → Option (Version D)
  keyword candidate =
      if eq_ignore_ascii_case candidate (codes "latest")
      then some latest
      else if eq_ignore_ascii_case candidate (codes "preview")
      then some preview
      else none

  -- The second loop: any date, or a keyword.
  unfoldable pub any_version : Text → Option (Version D)
  unfolding dated parse_date keyword
  any_version candidate = option_or (dated (λ f. true) (parse_date candidate)) (keyword candidate)

  -- The first candidate that gives a version.
  unfoldable pub first_version :
      (Text → Option (Version D)) → List (Text × Text) → Option (Text × Version D)
  first_version reads [] = none
  first_version reads ((model, candidate) ∷ rest) =
      option_or (option_map (λ v. (model, v)) (reads candidate)) (first_version reads rest)

  unfoldable pub preview_dated : Option (Text × Text) → Option (Text × Version D)
  unfolding parse_date
  preview_dated none = none
  preview_dated (some (model, after_preview)) =
      option_map (λ p. (model, date_versioned_preview p.0 p.1)) (parse_date after_preview)

  -- The model and its version, if the text ends with one. The separator is always a dash.
  unfoldable pub parse_version : Text → Option (Text × Version D)
  unfolding preview_dated first_version full_date any_version candidates
  parse_version s = option_or (preview_dated (rsplit_once (codes "-preview-") s)) (
      option_or (option_map (λ m. (m, preview)) (strip_suffix (codes "-preview") s)) (
        option_or (option_map (λ m. (m, latest)) (strip_suffix (codes "-latest") s)) (
          option_or (first_version full_date (candidates b'-' s))
            (first_version any_version (candidates b'-' s)))))

  unfoldable pub parse_model_and_version : Text → Text × Version D
  unfolding parse_version
  parse_model_and_version s = unwrap_or (parse_version s) (s, implicit_latest)

  unfoldable pub id_from_str : Text → Result MapperError (ModelIdWithVersion D)
  unfolding parse_model_and_version
  id_from_str s =
      if is_empty s
      then err (invalid_model_name (codes "Model name cannot be empty"))
      else if ends_with (codes "-") s
      then err (invalid_model_name (codes "Model name cannot end with dash"))
      else if ends_with (codes ".") s
      then err (invalid_model_name (codes "Model name cannot end with dot"))
      else if ends_with (codes "@") s
      then err (invalid_model_name (codes "Model name cannot end with @ symbol"))
      else (let (model, version) = parse_model_and_version s in
          ok (record { model = model; version = version }))

  unfoldable pub with_internal :
      Text → Option Text × Text → Option (Text × Text) → Result MapperError (BedrockModelId D)
  unfolding parse_model_and_version
  with_internal s (geo, provider) none = err (invalid_model_name s)
  with_internal s (geo, provider) (some (model_part, after)) =
      let (model, version) = parse_model_and_version model_part in
      ok (record {
        geo = geo;
        provider = provider;
        model = model;
        version = version;
        bedrock_internal_version = b'v' ∷ after;
      })

  unfoldable pub bedrock_rest :
      Text → Option (Option Text × Text × Text) → Result MapperError (BedrockModelId D)
  unfolding with_internal
  bedrock_rest s none = err (invalid_model_name s)
  bedrock_rest s (some (geo, provider, rest)) =
      with_internal s (geo, provider) (rsplit_once (codes "-v") rest)

  unfoldable pub bedrock_from_str : Text → Result MapperError (BedrockModelId D)
  unfolding bedrock_rest bedrock_parts
  bedrock_from_str s = bedrock_rest s (bedrock_parts s)

  -- The model in the style of the provider.
  unfoldable pub from_str_and_provider : InferenceProvider → Text → Result MapperError (ModelId D)
  unfolding id_from_str bedrock_from_str ollama_from_str
  from_str_and_provider bedrock s = bedrock_from_str s >>= λ id. ok (bedrock_model id)
  from_str_and_provider ollama s = ok (ollama_model (ollama_from_str s))
  from_str_and_provider open_ai s = id_from_str s >>= λ id. ok (with_version open_ai id)
  from_str_and_provider anthropic s = id_from_str s >>= λ id. ok (with_version anthropic id)
  from_str_and_provider google_gemini s = id_from_str s >>= λ id. ok (with_version google_gemini id)
  from_str_and_provider custom s = id_from_str s >>= λ id. ok (with_version custom id)
  from_str_and_provider (named name) s = id_from_str s >>= λ id. ok (with_version (named name) id)

  unfoldable pub of_parts : Text → Option (Text × Text) → Result MapperError (ModelId D)
  unfolding from_str_and_provider from_str
  of_parts s none = err (
      invalid_model_name (
        (codes "Model string must be in format '{provider}/{model_name}', got '" ++ s)
        ++ codes "'"))
  of_parts s (some (provider_str, model_name)) =
      if is_empty model_name
      then err (invalid_model_name (codes "Model name cannot be empty after provider"))
      else from_str_and_provider (from_str provider_str) model_name

  -- `ModelId::from_str`.
  unfoldable pub model_from_str : Text → Result MapperError (ModelId D)
  unfolding of_parts
  model_from_str s = of_parts s (split_once b'/' s)
