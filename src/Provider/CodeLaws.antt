-- ===== src/Provider/CodeLaws.antt =====
-- The name of a parsed provider is parsed to it again.
use aiephant_ai_gateway.Common.{
  ◌≡◌, refl, inl, inr, Bool, true, false, Option, none, some, List, [], ◌∷◌, any, All,
  if◌then◌else◌, subst, ◌==◌, arith, Bool-cases, Option-cases,
}
use aiephant_ai_gateway.Common.Text.{
  Text, text_eq, text_eq_iff, trim, to_ascii_lowercase, is_whitespace,
}
use aiephant_ai_gateway.Common.Text.Trim.{trim_idem, All-trim}
use aiephant_ai_gateway.Common.Text.Cuts.{Lacks}
use aiephant_ai_gateway.Provider.{InferenceProvider, named}
use aiephant_ai_gateway.Provider.Codes.{
  as_ref, provider_codes, code_arms, first_arm, provider_of_code, from_provider_code, from_str,
}

known_code :
    (s : Text) (p : InferenceProvider)
    → from_provider_code (trim s) ≡ some p
    → provider_of_code (to_ascii_lowercase (trim (trim s))) ≡ some p
unfolding from_provider_code
known_code s p e = e

-- The name is parsed to the provider, and has no slash.
abbrev Stays : InferenceProvider → Type 0
Stays p = (from_str (as_ref p) ≡ p) × Lacks b'/' (as_ref p)

arms-Stay : (n : Text) → All (λ a. Stays a.1) (code_arms n)
unfolding from_str as_ref is_whitespace
arms-Stay n = ground arith

codes-Stays : All (λ c. Stays (named c)) provider_codes
unfolding from_str as_ref is_whitespace
codes-Stays = ground arith

any-Stays :
    (n : Text) (cs : List Text)
    → All (λ c. Stays (named c)) cs
    → any (text_eq n) cs ≡ true
    → Stays (named n)
any-Stays n [] stay e = cc e
any-Stays n (c ∷ cs) (s, stay) e = elim (Bool-cases (text_eq n c)) [
  | inl same ↦ rw ((text_eq_iff n c).0 same) s
  | inr differs ↦ any-Stays n cs stay (rw differs at e)
]

-- What an option may hold stays.
abbrev Settled : Option InferenceProvider → Type 0
Settled none = Unit
Settled (some p) = Stays p

first_arm-Settled :
    (arms : List (Bool × InferenceProvider)) (otherwise : Option InferenceProvider)
    → All (λ a. Stays a.1) arms
    → Settled otherwise
    → Settled (first_arm arms otherwise)
unfolding first_arm
first_arm-Settled [] otherwise h o = o
first_arm-Settled ((true, p) ∷ arms) otherwise (h, hs) o = h
first_arm-Settled ((false, p) ∷ arms) otherwise (h, hs) o = first_arm-Settled arms otherwise hs o

listed-Settled :
    (n : Text) → Settled (if any (text_eq n) provider_codes then some (named n) else none)
listed-Settled n = elim (Bool-cases (any (text_eq n) provider_codes)) [
  | inl listed ↦ rw listed (any-Stays n provider_codes codes-Stays listed)
  | inr unknown ↦ rw unknown tt
]

provider_of_code-Settled : (n : Text) → Settled (provider_of_code n)
unfolding provider_of_code
provider_of_code-Settled n =
    first_arm-Settled (code_arms n)
      (if any (text_eq n) provider_codes then some (named n) else none) (arms-Stay n)
      (listed-Settled n)

from_str-Stays : (s : Text) → Lacks b'/' s → Stays (from_str s)
from_str-Stays s l = elim (Option-cases (from_provider_code (trim s))) [
  | inr (p, known) ↦
      let parsed : from_str s ≡ p = unfold from_str in rw known refl in
      rw parsed (
        subst Settled (known_code s p known)
          (provider_of_code-Settled (to_ascii_lowercase (trim (trim s)))))
  | inl unknown ↦
      let parsed : from_str s ≡ named (trim s) = unfold from_str in rw unknown refl in
      rw parsed (
        unfold from_str as_ref in rw (trim_idem s, unknown) refl,
        unfold as_ref in All-trim (λ c. c == b'/' ≡ false) s l,
      )
]

-- A provider that was parsed from a text without slashes has a name without slashes that is parsed to
-- the same provider.
pub from_str-as_ref :
    (s : Text)
    → Lacks b'/' s
    → (from_str (as_ref (from_str s)) ≡ from_str s) × Lacks b'/' (as_ref (from_str s))
from_str-as_ref = from_str-Stays
