-- ===== src/ModelId/RoundTrip.antt =====
-- A model identifier prints as it was written.
use mathlib.Core.List.{append_assoc}
use aiephant_ai_gateway.Common.{
  ◌≡◌, ◌≢◌, refl, ap, sym, ◌∙◌, subst, ◌⊎◌, inl, inr, Option, none, some, [], ◌∷◌, ◌++◌, arith,
  Result, ok, ◌>>=◌, Result-cases, Bool-cases, Option-cases, leb,
}
use aiephant_ai_gateway.Common.Text.{Text, codes, to_ascii_lowercase}
use aiephant_ai_gateway.Common.Text.Cuts.{
  split_once, rsplit_once, split_once-joins, rsplit_once-joins, split_once-Lacks, Lacks-split_once,
  split_once-append, Lacks,
}
use aiephant_ai_gateway.ModelId.Parse.{
  not_empty, ollama_parts, ollama_from_str, dots, bedrock_parts, provider_and_rest, after_geo,
  id_from_str, with_internal, bedrock_rest, bedrock_from_str, from_str_and_provider, of_parts,
  model_from_str, parse_model_and_version,
}
use aiephant_ai_gateway.ModelId.Print.{
  display_ollama, with_suffix, display_with_version, display_bedrock, display, after_dot, prefixed,
  serialize, inference_provider,
}
use aiephant_ai_gateway.ModelId.Shown.{
  PrintsAs, PrintsAs-same, PrintsAs-append, DatesWriteBack, parse_model_and_version-shown,
}
use aiephant_ai_gateway.ModelId.{
  Chrono, MapperError, ModelIdWithVersion, BedrockModelId, ModelId, with_version, bedrock_model,
  ollama_model,
}
use aiephant_ai_gateway.Provider.{
  InferenceProvider, open_ai, anthropic, bedrock, ollama, google_gemini, custom, named,
}
use aiephant_ai_gateway.Provider.Codes.{as_ref, from_str}
use aiephant_ai_gateway.Provider.CodeLaws.{from_str-as_ref}

-- The text is printed, or it is an Ollama model with a colon and no tag after it.
abbrev pub OllamaPrints : Text → Text → Type 0
OllamaPrints x s = (x ≡ s) ⊎ ((s ≡ x ++ codes ":") × Lacks b':' x)

ollama_from_str-OllamaPrints : (s : Text) → OllamaPrints (display_ollama (ollama_from_str s)) s
unfolding ollama_from_str ollama_parts display_ollama not_empty
ollama_from_str-OllamaPrints s = elim (Option-cases (split_once b':' s)) [
  | inl none_ ↦ rw none_ (inl refl)
  | inr ((a, []), cut) ↦
      rw cut (inr (split_once-joins b':' s a [] cut, split_once-Lacks b':' s a [] cut))
  | inr ((a, (c ∷ t)), cut) ↦ rw cut (inl (sym (split_once-joins b':' s a (c ∷ t) cut)))
]

colon_dropped : (x : Text) → Lacks b':' x → ollama_from_str (x ++ codes ":") ≡ ollama_from_str x
unfolding ollama_from_str ollama_parts not_empty
colon_dropped x l = rw (split_once-append b':' x [] l, Lacks-split_once b':' x l) refl

-- The colon makes no difference.
ollama_from_str_again :
    (s : Text) → ollama_from_str (display_ollama (ollama_from_str s)) ≡ ollama_from_str s
ollama_from_str_again s = elim (ollama_from_str-OllamaPrints s) [
  | inl same ↦ ap ollama_from_str same
  | inr (colon, l) ↦
      sym (colon_dropped (display_ollama (ollama_from_str s)) l) ∙ ap ollama_from_str (sym colon)
]

abbrev geo_dot : Option Text → Text
geo_dot none = []
geo_dot (some geo) = geo ++ b'.' ∷ []

after_dot-geo_dot : (geo : Option Text) (rest : Text) → after_dot geo rest ≡ geo_dot geo ++ rest
unfolding after_dot
after_dot-geo_dot none rest = refl
after_dot-geo_dot (some geo) rest = sym (append_assoc geo (b'.' ∷ []) rest)

PrintsAs-prefix : (a x s : Text) → PrintsAs x s → PrintsAs (a ++ x) (a ++ s)
PrintsAs-prefix a x s p = PrintsAs-append a a x s (PrintsAs-same a a refl) p

ok_injective : {E A : Type 0} (a b : A) → ◌≡◌ {A = Result E A} (ok a) (ok b) → a ≡ b
ok_injective a b e = ground (arith, e)

provider_and_rest-joins :
    (s : Text) (geo g : Option Text) (provider rest : Text)
    → provider_and_rest geo (split_once b'.' s) ≡ some (g, provider, rest)
    → (geo ≡ g) × (s ≡ provider ++ b'.' ∷ rest)
unfolding provider_and_rest
provider_and_rest-joins s geo g provider rest e = elim (Option-cases (split_once b'.' s)) [
  | inl none_ ↦ cc (rw none_ at e)
  | inr ((a, b), cut) ↦
      let whole : ◌≡◌ {A = Option (Option Text × Text × Text)} (some (geo, a, b))
          (some (g, provider, rest)) =
        rw cut at e in
      (ground (arith, whole), ground (arith, whole, split_once-joins b'.' s a b cut))
]

bedrock_parts-joins :
    (s : Text) (geo : Option Text) (provider rest : Text)
    → bedrock_parts s ≡ some (geo, provider, rest)
    → s ≡ geo_dot geo ++ (provider ++ b'.' ∷ rest)
unfolding bedrock_parts after_geo
bedrock_parts-joins s geo provider rest e = elim (Bool-cases (leb 2 (dots s))) [
  | inr few ↦
      let (none_, joined) = provider_and_rest-joins s none geo provider rest (rw few at e) in
      joined ∙ ap (λ g. geo_dot g ++ (provider ++ b'.' ∷ rest)) none_
  | inl many ↦ elim (Option-cases (split_once b'.' s)) [
    | inl none_ ↦ cc (rw (many, none_) at e)
    | inr ((g, more), cut) ↦
        let (some_, joined) =
          provider_and_rest-joins more (some g) geo provider rest (rw (many, cut) at e) in
        split_once-joins b'.' s g more cut
        ∙ ap (λ l. g ++ b'.' ∷ l) joined
        ∙ sym (append_assoc g (b'.' ∷ []) (provider ++ b'.' ∷ rest))
        ∙ ap (λ o. geo_dot o ++ (provider ++ b'.' ∷ rest)) some_
  ]
]

module _ {D : Type 0} (chrono : Chrono D) where
  -- The part of a Bedrock identifier that ends with its date stands before the internal version.
  abbrev BedrockDates : Text → Type 0
  BedrockDates s =
      (geo : Option Text) (provider rest part after : Text)
      → bedrock_parts s ≡ some (geo, provider, rest)
      → rsplit_once (codes "-v") rest ≡ some (part, after)
      → DatesWriteBack chrono part

  -- The date of the identifier, if it has one, is written as chrono prints it; those of Ollama have none.
  abbrev pub DateWritesBack : InferenceProvider → Text → Type 0
  DateWritesBack ollama s = Unit
  DateWritesBack bedrock s = BedrockDates s
  DateWritesBack open_ai s = DatesWriteBack chrono s
  DateWritesBack anthropic s = DatesWriteBack chrono s
  DateWritesBack google_gemini s = DatesWriteBack chrono s
  DateWritesBack custom s = DatesWriteBack chrono s
  DateWritesBack (named name) s = DatesWriteBack chrono s

  id_from_str-PrintsAs :
      (s : Text) (id : ModelIdWithVersion D)
      → DatesWriteBack chrono s
      → id_from_str chrono s ≡ ok id
      → PrintsAs (display_with_version chrono id) s
  unfolding id_from_str display_with_version
  id_from_str-PrintsAs s id w e =
      let shown = parse_model_and_version-shown chrono s w in
      let read = parse_model_and_version chrono s in
      let same : id ≡ record { model = read.0; version = read.1 } = ground (arith, e) in
      subst (λ i. PrintsAs (with_suffix chrono i.model i.version) s) (sym same) shown

  internal-PrintsAs :
      (geo : Option Text) (provider part after : Text)
      → DatesWriteBack chrono part
      → PrintsAs
          (display_bedrock chrono (record {
            geo = geo;
            provider = provider;
            model = (parse_model_and_version chrono part).0;
            version = (parse_model_and_version chrono part).1;
            bedrock_internal_version = b'v' ∷ after;
          }))
          (geo_dot geo ++ (provider ++ b'.' ∷ (part ++ (codes "-v" ++ after))))
  unfolding display_bedrock
  internal-PrintsAs geo provider part after w =
      let read = parse_model_and_version chrono part in
      let text = with_suffix chrono read.0 read.1 in
      subst (λ x. PrintsAs x (geo_dot geo ++ (provider ++ b'.' ∷ (part ++ (codes "-v" ++ after)))))
        (sym (after_dot-geo_dot geo (provider ++ b'.' ∷ (text ++ (codes "-v" ++ after)))))
        (PrintsAs-prefix (geo_dot geo) _ _ (
          PrintsAs-prefix provider _ _ (
            PrintsAs-prefix (codes ".") _ _ (
              PrintsAs-append text part (codes "-v" ++ after) (codes "-v" ++ after)
                (parse_model_and_version-shown chrono part w) (PrintsAs-same _ _ refl)))))

  bedrock_rest-PrintsAs :
      (s : Text) (geo : Option Text) (provider rest : Text) (id : BedrockModelId D)
      → s ≡ geo_dot geo ++ (provider ++ b'.' ∷ rest)
      → ((part after : Text)
          → rsplit_once (codes "-v") rest ≡ some (part, after)
          → DatesWriteBack chrono part)
      → with_internal chrono s (geo, provider) (rsplit_once (codes "-v") rest) ≡ ok id
      → PrintsAs (display_bedrock chrono id) s
  unfolding with_internal
  bedrock_rest-PrintsAs s geo provider rest id joined w e =
      elim (Option-cases (rsplit_once (codes "-v") rest)) [
        | inl none_ ↦ cc (rw none_ at e)
        | inr ((part, after), cut) ↦
            let whole =
              joined
              ∙ ap (λ r. geo_dot geo ++ (provider ++ b'.' ∷ r))
                  (rsplit_once-joins (codes "-v") rest part after cut) in
            let same = ok_injective _ id (rw cut at e) in
            subst (λ t. PrintsAs (display_bedrock chrono id) t) (sym whole)
              (subst
                (λ i.
                  PrintsAs (display_bedrock chrono i)
                    (geo_dot geo ++ (provider ++ b'.' ∷ (part ++ (codes "-v" ++ after)))))
                same (internal-PrintsAs geo provider part after (w part after cut)))
      ]

  bedrock_from_str-PrintsAs :
      (s : Text) (id : BedrockModelId D)
      → BedrockDates s
      → bedrock_from_str chrono s ≡ ok id
      → PrintsAs (display_bedrock chrono id) s
  unfolding bedrock_from_str bedrock_rest
  bedrock_from_str-PrintsAs s id w e = elim (Option-cases (bedrock_parts s)) [
    | inl none_ ↦ cc (rw none_ at e)
    | inr ((geo, provider, rest), parts) ↦
        bedrock_rest-PrintsAs s geo provider rest id (bedrock_parts-joins s geo provider rest parts)
          (λ part after. w geo provider rest part after parts) (rw parts at e)
  ]

  -- The text is printed, or it is an Ollama model with a colon and no tag after it.
  abbrev pub Printed : InferenceProvider → Text → ModelId D → Type 0
  Printed p s m =
      (inference_provider m ≡ some p)
      × (PrintsAs (display chrono m) s ⊎ ((p ≡ ollama) × (s ≡ display chrono m ++ codes ":")))

  with_version-Printed :
      (p : InferenceProvider) (s : Text) (m : ModelId D)
      → DatesWriteBack chrono s
      → (id_from_str chrono s >>= λ id. ok (with_version p id)) ≡ ok m
      → Printed p s m
  unfolding display inference_provider
  with_version-Printed p s m w e = elim (Result-cases (id_from_str chrono s)) [
    | inr (x, failed) ↦ cc (rw failed at e)
    | inl (id, read) ↦
        subst (Printed p s) (ok_injective (with_version p id) m (rw read at e))
          (refl, inl (id_from_str-PrintsAs s id w read))
  ]

  bedrock-Printed :
      (s : Text) (m : ModelId D)
      → BedrockDates s
      → (bedrock_from_str chrono s >>= λ id. ok (bedrock_model id)) ≡ ok m
      → Printed bedrock s m
  unfolding display inference_provider
  bedrock-Printed s m w e = elim (Result-cases (bedrock_from_str chrono s)) [
    | inr (x, failed) ↦ cc (rw failed at e)
    | inl (id, read) ↦
        subst (Printed bedrock s) (ok_injective (bedrock_model id) m (rw read at e))
          (refl, inl (bedrock_from_str-PrintsAs s id w read))
  ]

  ollama-Printed :
      (s : Text) (m : ModelId D)
      → ◌≡◌ {A = Result MapperError (ModelId D)} (ok (ollama_model (ollama_from_str s))) (ok m)
      → Printed ollama s m
  unfolding display inference_provider
  ollama-Printed s m e =
      subst (Printed ollama s) (ok_injective (ollama_model (ollama_from_str s)) m e) (
        refl,
        elim (ollama_from_str-OllamaPrints s) [
          | inl same ↦ inl (PrintsAs-same _ s same)
          | inr (colon, l) ↦ inr (refl, colon)
        ],
      )

  -- A model identifier that is read in the style of any provider belongs to that provider, and prints
  -- as the text that it was read from, up to the case of a keyword such as `latest`, and exactly if the
  -- text has no capitals; but an Ollama model loses a colon with no tag after it. The date at
  -- the end of the text that is read as its version, if there is one, is taken to be written the way
  -- that chrono prints it; in Bedrock's style the text ends before the internal version.
  pub from_str_and_provider-display :
      (p : InferenceProvider) (s : Text) (m : ModelId D)
      → DateWritesBack p s
      → from_str_and_provider chrono p s ≡ ok m
      → Printed p s m
  unfolding from_str_and_provider
  from_str_and_provider-display open_ai s m w e = with_version-Printed open_ai s m w e
  from_str_and_provider-display anthropic s m w e = with_version-Printed anthropic s m w e
  from_str_and_provider-display bedrock s m w e = bedrock-Printed s m w e
  from_str_and_provider-display ollama s m w e = ollama-Printed s m e
  from_str_and_provider-display google_gemini s m w e = with_version-Printed google_gemini s m w e
  from_str_and_provider-display custom s m w e = with_version-Printed custom s m w e
  from_str_and_provider-display (named name) s m w e = with_version-Printed (named name) s m w e

  ollama_read_again :
      (s : Text) (m : ModelId D)
      → from_str_and_provider chrono ollama s ≡ ok m
      → from_str_and_provider chrono ollama (display chrono m) ≡ ok m
  unfolding from_str_and_provider display
  ollama_read_again s m e =
      let same = ok_injective (ollama_model (ollama_from_str s)) m e in
      subst (λ n. from_str_and_provider chrono ollama (display chrono n) ≡ ok n) same
        (ap (λ o. ok (ollama_model o)) (ollama_from_str_again s))

  -- The printed model is read as before.
  read_again :
      (p : InferenceProvider) (s : Text) (m : ModelId D)
      → DateWritesBack p s
      → to_ascii_lowercase s ≡ s
      → from_str_and_provider chrono p s ≡ ok m
      → from_str_and_provider chrono p (display chrono m) ≡ ok m
  read_again p s m w small e = elim ((from_str_and_provider-display p s m w e).1) [
    | inl (same, exact) ↦ ap (from_str_and_provider chrono p) (exact small) ∙ e
    | inr (style, colon) ↦ rw (sym style) at (ollama_read_again s m (rw style at e))
  ]

  of_parts-read :
      (s provider model : Text) (m : ModelId D)
      → of_parts chrono s (some (provider, model)) ≡ ok m
      → from_str_and_provider chrono (from_str provider) model ≡ ok m
  unfolding of_parts
  of_parts-read s provider [] m e = cc e
  of_parts-read s provider (c ∷ model) m e = e

  read-of_parts :
      (s provider model : Text)
      → model ≢ []
      → of_parts chrono s (some (provider, model))
        ≡ from_str_and_provider chrono (from_str provider) model
  unfolding of_parts
  read-of_parts s provider [] some_ = absurd (some_ refl)
  read-of_parts s provider (c ∷ model) some_ = refl

  serialize-split :
      (p : InferenceProvider) (m : ModelId D)
      → inference_provider m ≡ some p
      → Lacks b'/' (as_ref p)
      → split_once b'/' (serialize chrono m) ≡ some (as_ref p, display chrono m)
  unfolding serialize prefixed
  serialize-split p m owner l = rw owner (split_once-append b'/' (as_ref p) (display chrono m) l)

  -- A model identifier read from `{provider}/{model}`, whose model is written without capitals and with
  -- the date that is its version, if it has one, as chrono prints it, is serialized to a text that is read to the same identifier,
  -- whichever alias of the provider was used; unless it prints as nothing.
  pub model_from_str-serialize :
      (s provider model : Text) (m : ModelId D)
      → split_once b'/' s ≡ some (provider, model)
      → DateWritesBack (from_str provider) model
      → to_ascii_lowercase model ≡ model
      → model_from_str chrono s ≡ ok m
      → display chrono m ≢ []
      → model_from_str chrono (serialize chrono m) ≡ ok m
  unfolding model_from_str of_parts
  model_from_str-serialize s provider model m cut w small e some_ =
      let p = from_str provider in
      let (again, l) = from_str-as_ref provider (split_once-Lacks b'/' s provider model cut) in
      let read = of_parts-read s provider model m (rw cut at e) in
      let owner = (from_str_and_provider-display p model m w read).0 in
      ap (of_parts chrono (serialize chrono m)) (serialize-split p m owner l)
      ∙ read-of_parts (serialize chrono m) (as_ref p) (display chrono m) some_
      ∙ ap (λ q. from_str_and_provider chrono q (display chrono m)) again
      ∙ read_again p model m w small read
