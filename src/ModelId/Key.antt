-- ===== src/ModelId/Key.antt =====
-- `ModelIdWithoutVersion`: equality and hash of model identifiers that leave the version out.
use mathlib.Core.Quot
use mathlib.Core.Quot.{Quot, Quot-set}
use aiephant_ai_gateway.Common.{
  ◌≡◌, refl, ap, sym, ◌∙◌, ◌↔◌, Bool, true, false, ◌&&◌, Option, none, some, List, [], ◌∷◌, arith,
  ite,
}
use aiephant_ai_gateway.Common.Text.{Text, text_eq, text_eq_iff}
use aiephant_ai_gateway.Provider.{InferenceProvider, InferenceProvider-discrete}
use aiephant_ai_gateway.ModelId.{
  latest, ModelId, with_version, bedrock_model, ollama_model, unknown,
}

unfoldable pub provider_eq : InferenceProvider → InferenceProvider → Bool
provider_eq p q = ite (InferenceProvider-discrete p q) true false

unfoldable pub tag_eq : Option Text → Option Text → Bool
tag_eq none none = true
tag_eq (some s) (some t) = text_eq s t
tag_eq none (some t) = false
tag_eq (some s) none = false

-- What is written to a hasher.
pub data Written : Type 0 where
  written_provider : InferenceProvider → Written
  written_text : Text → Written
  written_tag : Option Text → Written

module _ {D : Type 0} where
  -- `with_latest_version`.
  unfoldable pub with_latest_version : ModelId D → ModelId D
  with_latest_version (with_version provider id) =
      with_version provider (record id { version = latest })
  with_latest_version (bedrock_model id) = bedrock_model (record id { version = latest })
  with_latest_version (ollama_model id) = ollama_model id
  with_latest_version (unknown model) = unknown model

  -- `PartialEq::eq`.
  unfoldable pub eq_without_version : ModelId D → ModelId D → Bool
  unfolding provider_eq tag_eq
  eq_without_version (with_version provider id) (with_version other_provider other_id) =
      provider_eq provider other_provider && text_eq id.model other_id.model
  eq_without_version (bedrock_model this) (bedrock_model other) =
      text_eq this.provider other.provider
      && text_eq this.model other.model
      && text_eq this.bedrock_internal_version other.bedrock_internal_version
  eq_without_version (ollama_model this) (ollama_model other) =
      text_eq this.model other.model && tag_eq this.tag other.tag
  eq_without_version (unknown this) (unknown other) = text_eq this other
  eq_without_version _ _ = false

  -- `Hash::hash`, as the sequence of values that the hasher is given.
  unfoldable pub hash : ModelId D → List Written
  hash (with_version provider id) = written_provider provider ∷ written_text id.model ∷ []
  hash (bedrock_model id) =
      written_text id.provider
      ∷ written_text id.model
      ∷ written_text id.bedrock_internal_version
      ∷ []
  hash (ollama_model id) = written_text id.model ∷ written_tag id.tag ∷ []
  hash (unknown model) = written_text model ∷ []

-- What is left of a model identifier without its version, and without the geo of Bedrock.
pub data Identity : Type 0 where
  of_provider : InferenceProvider → Text → Identity
  of_bedrock : Text → Text → Text → Identity
  of_ollama : Text → Option Text → Identity
  of_unknown : Text → Identity

module _ {D : Type 0} where
  abbrev pub identity : ModelId D → Identity
  identity (with_version provider id) = of_provider provider id.model
  identity (bedrock_model id) = of_bedrock id.provider id.model id.bedrock_internal_version
  identity (ollama_model id) = of_ollama id.model id.tag
  identity (unknown model) = of_unknown model

tag_eq_iff : (s t : Option Text) → (tag_eq s t ≡ true) ↔ (s ≡ t)
unfolding tag_eq
tag_eq_iff none none = ground arith
tag_eq_iff none (some t) = ground arith
tag_eq_iff (some s) none = ground arith
tag_eq_iff (some s) (some t) = ground (arith, text_eq_iff s t)

provider_eq_iff : (p q : InferenceProvider) → (provider_eq p q ≡ true) ↔ (p ≡ q)
unfolding provider_eq
provider_eq_iff p q = ground arith

-- The hash is a function of what is left.
hash_by : Identity → List Written
hash_by (of_provider p m) = written_provider p ∷ written_text m ∷ []
hash_by (of_bedrock p m v) = written_text p ∷ written_text m ∷ written_text v ∷ []
hash_by (of_ollama m t) = written_text m ∷ written_tag t ∷ []
hash_by (of_unknown m) = written_text m ∷ []

Identity-set : IsSet Identity
Identity-set = hlevel

module _ {D : Type 0} where
  eq_without_version_iff :
      (a b : ModelId D) → (eq_without_version a b ≡ true) ↔ (identity a ≡ identity b)
  unfolding eq_without_version
  eq_without_version_iff (with_version p i) (with_version q j) =
      ground (arith, provider_eq_iff p q, text_eq_iff i.model j.model)
  eq_without_version_iff (bedrock_model i) (bedrock_model j) = ground (
    arith,
    text_eq_iff i.provider j.provider,
    text_eq_iff i.model j.model,
    text_eq_iff i.bedrock_internal_version j.bedrock_internal_version,
  )
  eq_without_version_iff (ollama_model i) (ollama_model j) =
      ground (arith, text_eq_iff i.model j.model, tag_eq_iff i.tag j.tag)
  eq_without_version_iff (unknown s) (unknown t) = ground (arith, text_eq_iff s t)
  eq_without_version_iff _ _ = ground arith

  hash-identity : (a : ModelId D) → hash a ≡ hash_by (identity a)
  unfolding hash hash_by
  hash-identity (with_version p i) = refl
  hash-identity (bedrock_model i) = refl
  hash-identity (ollama_model i) = refl
  hash-identity (unknown m) = refl

-- Model identifiers up to the equality of `ModelIdWithoutVersion`.
abbrev pub WithoutVersion : Type 0 → Type 0
WithoutVersion D = Quot (λ (a b : ModelId D). eq_without_version a b ≡ true)

abbrev pub without_version : {D : Type 0} → ModelId D → WithoutVersion D
without_version a = Quot.mk a

module _ {D : Type 0} where
  identity_of : WithoutVersion D → Identity
  identity_of = Quot.lift Identity-set identity (λ a b e. (eq_without_version_iff a b).0 e)

  identity-latest : (a : ModelId D) → identity (with_latest_version a) ≡ identity a
  unfolding with_latest_version
  identity-latest (with_version p i) = refl
  identity-latest (bedrock_model i) = refl
  identity-latest (ollama_model i) = refl
  identity-latest (unknown m) = refl

  -- Two model identifiers compare as equal exactly if they are one in the quotient by that comparison,
  -- which is to say that the comparison is an equivalence; then their hashes agree; and the latest
  -- version of a model compares as equal to it.
  pub eq_without_version-WithoutVersion :
      (a b : ModelId D)
      → ((eq_without_version a b ≡ true) ↔ (without_version a ≡ without_version b))
        × (without_version a ≡ without_version b → hash a ≡ hash b)
        × (without_version (with_latest_version a) ≡ without_version a)
  unfolding identity_of
  eq_without_version-WithoutVersion a b =
      let same = λ (e : without_version a ≡ without_version b). ap identity_of e in
      (
        (λ e. Quot.sound e, λ e. (eq_without_version_iff a b).1 (same e)),
        λ e. hash-identity a ∙ ap hash_by (same e) ∙ sym (hash-identity b),
        Quot.sound ((eq_without_version_iff (with_latest_version a) a).1 (identity-latest a)),
      )
