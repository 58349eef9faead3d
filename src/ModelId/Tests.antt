-- ===== src/ModelId/Tests.antt =====
-- Identifiers with dates of eight digits, and one per style.
use aiephant_ai_gateway.Common.{
  ◌≡◌, ◌≢◌, refl, ◌↔◌, inl, inr, none, some, [], ok, true, if◌then◌else◌, ◌&&◌, arith, Bool-cases,
  Bool, Option, ◌==◌, ◌++◌, length, drop, subst,
}
use aiephant_ai_gateway.Common.Text.{
  Text, codes, text_eq, is_whitespace, lower, to_ascii_lowercase, ends_with,
}
use aiephant_ai_gateway.Common.Text.Cuts.{split_once, rsplit_once, strip_suffix, option_map}
use aiephant_ai_gateway.Provider.{open_ai, google_gemini, bedrock}
use aiephant_ai_gateway.Provider.Codes.{from_str}
use aiephant_ai_gateway.Upstream.Paths.{all_digits}
use aiephant_ai_gateway.ModelId.Key.{
  eq_without_version, hash, without_version, with_latest_version, eq_without_version-WithoutVersion,
}
use aiephant_ai_gateway.ModelId.Parse.{from_str_and_provider, model_from_str, parse_date}
use aiephant_ai_gateway.ModelId.Print.{display, serialize}
use aiephant_ai_gateway.ModelId.RoundTrip.{
  Printed, DateWritesBack, from_str_and_provider-display, model_from_str-serialize,
}
use aiephant_ai_gateway.ModelId.Shown.{DatesWriteBack}
use aiephant_ai_gateway.ModelId.{
  Chrono, DateFormat, month_day, pattern_of, implicit_latest, latest, preview, date, year_month_day,
  ModelId, with_version, bedrock_model,
}

abbrev day : Text
day = codes "20240229"

abbrev is_day : Text → Bool
is_day t = (length t == 8) && all_digits t

-- Dates are eight digits, whatever the month and the day; other texts are none.
abbrev chrono : Chrono Text
chrono = record {
  parse_from_str =
      λ input format. if text_eq format (codes "%Y%m%d") && is_day input then some input else none;
  format = λ d format. if text_eq format (codes "%m%d") then drop 4 d else d;
  current_year = codes "2026";
}

abbrev claude : ModelId Text
claude = bedrock_model (record {
  geo = some (codes "us");
  provider = codes "anthropic";
  model = codes "claude-3";
  version = date day year_month_day;
  bedrock_internal_version = codes "v1:0";
})

abbrev name : Text
name = codes "us.anthropic.claude-3-20240229-v1:0"

reads : from_str_and_provider chrono bedrock name ≡ ok claude
unfolding from_str_and_provider split_once rsplit_once strip_suffix all_digits
reads = refl

elim_date :
    (t x : Text) (g : DateFormat) (d : Text) (f : DateFormat)
    → ◌≡◌ {A = Option (Text × DateFormat)} (some (x, g)) (some (d, f))
    → chrono.format x (pattern_of g) ≡ t
    → chrono.format d (pattern_of f) ≡ t
elim_date t x g d f e p =
    let same : ◌≡◌ {A = Text × DateFormat} (x, g) (d, f) = ground (arith, e) in
    subst (λ q. chrono.format q.0 (pattern_of q.1) ≡ t) same p

writes_back :
    (t : Text) (d : Text) (f : DateFormat)
    → parse_date chrono t ≡ some (d, f)
    → chrono.format d (pattern_of f) ≡ t
unfolding parse_date option_map
writes_back t d f e = elim (Bool-cases (is_day t)) [
  | inl same ↦ elim_date t t year_month_day d f (rw same at e) refl
  | inr differs ↦ elim (Bool-cases (is_day (codes "2026" ++ t))) [
    | inl same ↦ elim_date t (codes "2026" ++ t) month_day d f (rw (differs, same) at e) refl
    | inr no_ ↦ cc (rw (differs, no_) at e)
  ]
]

dates : (s : Text) → DatesWriteBack chrono s
dates s m d f t parsed which = writes_back t d f parsed

bedrock_dates : DateWritesBack chrono bedrock name
bedrock_dates geo provider rest part after parts cut = dates part

google_dates : DateWritesBack chrono (from_str (codes "google")) (codes "gemini-2-preview")
unfolding from_str is_whitespace lower
google_dates = dates (codes "gemini-2-preview")

from_str_and_provider-display_example : Printed chrono bedrock name claude
from_str_and_provider-display_example =
    from_str_and_provider-display chrono bedrock name claude bedrock_dates reads

-- A keyword in capitals is printed in small letters.
keyword_printed :
    display chrono (with_version open_ai (record { model = codes "gpt-4o"; version = latest }))
    ≡ codes "gpt-4o-latest"
unfolding display
keyword_printed = refl

abbrev gemini : ModelId Text
gemini = with_version google_gemini (record { model = codes "gemini-2"; version = preview })

reads_gemini : model_from_str chrono (codes "google/gemini-2-preview") ≡ ok gemini
unfolding model_from_str split_once rsplit_once strip_suffix is_whitespace ends_with
reads_gemini = refl

cuts :
    split_once b'/' (codes "google/gemini-2-preview")
    ≡ some (codes "google", codes "gemini-2-preview")
unfolding split_once
cuts = refl

small : to_ascii_lowercase (codes "gemini-2-preview") ≡ codes "gemini-2-preview"
unfolding to_ascii_lowercase
small = refl

printed : display chrono gemini ≢ []
unfolding display
printed e = cc e

model_from_str-serialize_example : model_from_str chrono (serialize chrono gemini) ≡ ok gemini
model_from_str-serialize_example =
    model_from_str-serialize chrono (codes "google/gemini-2-preview") (codes "google")
      (codes "gemini-2-preview") gemini cuts google_dates small reads_gemini printed

abbrev older : ModelId Text
older = with_version google_gemini (record { model = codes "gemini-2"; version = implicit_latest })

eq_without_version-WithoutVersion_example :
    ((eq_without_version gemini older ≡ true) ↔ (without_version gemini ≡ without_version older))
    × (without_version gemini ≡ without_version older → hash gemini ≡ hash older)
    × (without_version (with_latest_version gemini) ≡ without_version gemini)
eq_without_version-WithoutVersion_example = eq_without_version-WithoutVersion gemini older
