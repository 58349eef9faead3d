-- ===== src/ModelId/Shown.antt =====
-- A version that is found in a text is printed as it was written, up to the case of a keyword.
use aiephant_ai_gateway.Common.{
  ℕ, ◌≡◌, refl, ap, sym, ◌∙◌, subst, ◌⊎◌, inl, inr, Bool, true, false, not, ◌&&◌, Option, none,
  some, option_or, List, [], ◌∷◌, ◌++◌, map, All, arith, Bool-cases, Option-cases, ◌==◌,
  if◌then◌else◌,
}
use aiephant_ai_gateway.Common.Text.{
  Text, codes, is_empty, lower, to_ascii_lowercase, eq_ignore_ascii_case, text_eq_iff,
}
use aiephant_ai_gateway.Common.Text.Cuts.{
  rsplit_once, strip_suffix, option_map, rsplit_once-joins, strip_suffix-joins,
}
use aiephant_ai_gateway.ModelId.Parse.{
  candidates, parse_date, dated, is_full, full_date, keyword, any_version, first_version,
  preview_dated, parse_version, parse_model_and_version,
}
use aiephant_ai_gateway.ModelId.Print.{display_version, with_suffix}
use aiephant_ai_gateway.ModelId.{
  DateFormat, pattern_of, Chrono, Version, latest, preview, date_versioned_preview, date,
}

-- The first text is the second up to the case of ASCII letters, and it is the second if that has no
-- capitals.
abbrev pub PrintsAs : Text → Text → Type 0
PrintsAs x s = (to_ascii_lowercase x ≡ to_ascii_lowercase s) × (to_ascii_lowercase s ≡ s → x ≡ s)

to_ascii_lowercase-append :
    (s t : Text) → to_ascii_lowercase (s ++ t) ≡ to_ascii_lowercase s ++ to_ascii_lowercase t
unfolding to_ascii_lowercase
to_ascii_lowercase-append [] t = refl
to_ascii_lowercase-append (c ∷ s) t = ap (λ l. lower c ∷ l) (to_ascii_lowercase-append s t)

lowercase_parts :
    (s t : Text)
    → to_ascii_lowercase (s ++ t) ≡ s ++ t
    → (to_ascii_lowercase s ≡ s) × (to_ascii_lowercase t ≡ t)
unfolding to_ascii_lowercase
lowercase_parts [] t e = (refl, e)
lowercase_parts (c ∷ s) t e =
    let (hs, ht) = lowercase_parts s t (ground (arith, e)) in (ground (arith, e, hs), ht)

pub PrintsAs-same : (x s : Text) → x ≡ s → PrintsAs x s
PrintsAs-same x s e = (ap to_ascii_lowercase e, λ l. e)

pub PrintsAs-append : (a b s t : Text) → PrintsAs a b → PrintsAs s t → PrintsAs (a ++ s) (b ++ t)
PrintsAs-append a b s t (e, e') (f, f') = (
  to_ascii_lowercase-append a s
      ∙ ap (λ l. l ++ to_ascii_lowercase s) e
      ∙ ap (λ l. to_ascii_lowercase b ++ l) f
      ∙ sym (to_ascii_lowercase-append b t),
  λ l. let (lb, lt) = lowercase_parts b t l in ap (λ x. x ++ s) (e' lb) ∙ ap (λ x. b ++ x) (f' lt),
)

-- A keyword is written in small letters.
keyword_after_dash :
    (model k t : Text)
    → to_ascii_lowercase k ≡ k
    → eq_ignore_ascii_case t k ≡ true
    → PrintsAs (model ++ b'-' ∷ k) (model ++ b'-' ∷ t)
keyword_after_dash model k t small e =
    let same = (text_eq_iff (to_ascii_lowercase t) (to_ascii_lowercase k)).0 e in
    PrintsAs-append model model (b'-' ∷ k) (b'-' ∷ t) (PrintsAs-same model model refl) (
      PrintsAs-append (b'-' ∷ []) (b'-' ∷ []) k t (PrintsAs-same (b'-' ∷ []) (b'-' ∷ []) refl)
        (sym same, λ l. sym small ∙ sym same ∙ l))

-- Each candidate stands after its model and a separator.
abbrev Joined : ℕ → Text → List (Text × Text) → Type 0
Joined sep s = All (λ p. s ≡ p.0 ++ sep ∷ p.1)

shift-Joined :
    (sep c : ℕ) (s : Text) (ps : List (Text × Text))
    → Joined sep s ps
    → Joined sep (c ∷ s) (map (λ p. (c ∷ p.0, p.1)) ps)
shift-Joined sep c s [] j = tt
shift-Joined sep c s (p ∷ ps) (e, j) = (ap (λ l. c ∷ l) e, shift-Joined sep c s ps j)

if-Joined :
    (b : Bool) (sep : ℕ) (s : Text) (p : Text × Text) (ps : List (Text × Text))
    → (b ≡ true → s ≡ p.0 ++ sep ∷ p.1)
    → Joined sep s ps
    → Joined sep s (if b then p ∷ ps else ps)
if-Joined true sep s p ps e j = (e refl, j)
if-Joined false sep s p ps e j = j

candidates-Joined : (sep : ℕ) (s : Text) → Joined sep s (candidates sep s)
unfolding candidates
candidates-Joined sep [] = tt
candidates-Joined sep (c ∷ s) =
    if-Joined (c == sep && not (is_empty s)) sep (c ∷ s) ([], s) _ (λ here. ground (arith, here))
      (shift-Joined sep c s (candidates sep s) (candidates-Joined sep s))

module _ {D : Type 0} (chrono : Chrono D) where
  -- The date that is read from the end of the text is written there as it is printed.
  abbrev pub DatesWriteBack : Text → Type 0
  DatesWriteBack s =
      (m : Text) (d : D) (f : DateFormat) (t : Text)
      → parse_date chrono t ≡ some (d, f)
      → ((parse_version chrono s ≡ some (m, date d f)) × (s ≡ m ++ b'-' ∷ t))
        ⊎ ((parse_version chrono s ≡ some (m, date_versioned_preview d f))
            × (s ≡ m ++ (codes "-preview-" ++ t)))
      → chrono.format d (pattern_of f) ≡ t

  -- The text ends with a date, which is the version.
  abbrev Dated : Text → Version D → Text → Type 0
  Dated m v s =
      (d : D) × (f : DateFormat) × (t : Text) × (parse_date chrono t ≡ some (d, f))
      × (((v ≡ date d f) × (s ≡ m ++ b'-' ∷ t))
          ⊎ ((v ≡ date_versioned_preview d f) × (s ≡ m ++ (codes "-preview-" ++ t))))

  -- It prints as the text, or ends with a date.
  abbrev Shown : Text → Version D → Text → Type 0
  Shown m v s = PrintsAs (with_suffix chrono m v) s ⊎ Dated m v s

  -- A version after a dash.
  abbrev ShownAs : Version D → Text → Type 0
  ShownAs v t = (model : Text) → Shown model v (model ++ b'-' ∷ t)

  dated-ShownAs :
      (test : DateFormat → Bool) (t : Text) (v : Version D)
      → dated chrono test (parse_date chrono t) ≡ some v
      → ShownAs v t
  unfolding dated
  dated-ShownAs test t v e model = elim (Option-cases (parse_date chrono t)) [
    | inl none_ ↦ cc (rw none_ at e)
    | inr ((d, f), parsed) ↦ elim (Bool-cases (test f)) [
      | inr no_ ↦ cc (rw (parsed, no_) at e)
      | inl yes_ ↦
          let same : v ≡ date d f = ground (arith, rw (parsed, yes_) at e) in
          inr (d, f, t, parsed, inl (same, refl))
    ]
  ]

  keyword-ShownAs : (t : Text) (v : Version D) → keyword chrono t ≡ some v → ShownAs v t
  unfolding keyword with_suffix display_version
  keyword-ShownAs t v e model = elim (Bool-cases (eq_ignore_ascii_case t (codes "latest"))) [
    | inl yes_ ↦
        let same : latest ≡ v = ground (arith, rw yes_ at e) in
        inl (
          subst (λ u. PrintsAs (with_suffix chrono model u) (model ++ b'-' ∷ t)) same
            (keyword_after_dash model (codes "latest") t (unfold to_ascii_lowercase in refl) yes_))
    | inr no_ ↦ elim (Bool-cases (eq_ignore_ascii_case t (codes "preview"))) [
      | inr never ↦ cc (rw (no_, never) at e)
      | inl yes_ ↦
          let same : preview ≡ v = ground (arith, rw (no_, yes_) at e) in
          inl (
            subst (λ u. PrintsAs (with_suffix chrono model u) (model ++ b'-' ∷ t)) same
              (keyword_after_dash model (codes "preview") t (unfold to_ascii_lowercase in refl)
                yes_))
    ]
  ]

  full_date-ShownAs : (t : Text) (v : Version D) → full_date chrono t ≡ some v → ShownAs v t
  unfolding full_date
  full_date-ShownAs t v e = dated-ShownAs (is_full chrono) t v e

  any_version-ShownAs : (t : Text) (v : Version D) → any_version chrono t ≡ some v → ShownAs v t
  unfolding any_version
  any_version-ShownAs t v e = elim (Option-cases (dated chrono (λ f. true) (parse_date chrono t))) [
    | inl none_ ↦ keyword-ShownAs t v (rw none_ at e)
    | inr (u, found) ↦ dated-ShownAs (λ f. true) t v (found ∙ (rw found at e))
  ]

  first_version-Shown :
      (reads : Text → Option (Version D)) (s : Text) (cs : List (Text × Text)) (model : Text)
      (v : Version D)
      → ((m t : Text) → s ≡ m ++ b'-' ∷ t → (u : Version D) → reads t ≡ some u → ShownAs u t)
      → Joined b'-' s cs
      → first_version chrono reads cs ≡ some (model, v)
      → Shown model v s
  unfolding first_version option_map
  first_version-Shown reads s [] model v sound joined e = cc e
  first_version-Shown reads s ((m, t) ∷ cs) model v sound (j, joined) e =
      elim (Option-cases (reads t)) [
        | inl none_ ↦ first_version-Shown reads s cs model v sound joined (rw none_ at e)
        | inr (u, found) ↦
            let same : ◌≡◌ {A = Text × Version D} (m, u) (model, v) =
              ground (arith, rw found at e) in
            subst (λ p. Shown p.0 p.1 s) same (subst (Shown m u) (sym j) (sound m t j u found m))
      ]

  preview_dated-Shown :
      (s : Text) (model : Text) (v : Version D)
      → preview_dated chrono (rsplit_once (codes "-preview-") s) ≡ some (model, v)
      → Shown model v s
  unfolding preview_dated option_map
  preview_dated-Shown s model v e = elim (Option-cases (rsplit_once (codes "-preview-") s)) [
    | inl none_ ↦ cc (rw none_ at e)
    | inr ((m, after), cut) ↦ elim (Option-cases (parse_date chrono after)) [
      | inl none_ ↦ cc (rw (cut, none_) at e)
      | inr ((d, f), parsed) ↦
          let same : ◌≡◌ {A = Text × Version D} (m, date_versioned_preview d f) (model, v) =
            ground (arith, rw (cut, parsed) at e) in
          let joined = rsplit_once-joins (codes "-preview-") s m after cut in
          subst (λ q. Shown q.0 q.1 s) same (inr (d, f, after, parsed, inr (refl, joined)))
    ]
  ]

  suffix-Shown :
      (s p : Text) (u : Version D) (model : Text) (v : Version D)
      → ((m : Text) → with_suffix chrono m u ≡ m ++ p)
      → option_map {B = Text × Version D} (λ m. (m, u)) (strip_suffix p s) ≡ some (model, v)
      → Shown model v s
  unfolding option_map
  suffix-Shown s p u model v prints e = elim (Option-cases (strip_suffix p s)) [
    | inl none_ ↦ cc (rw none_ at e)
    | inr (m, cut) ↦
        let same : ◌≡◌ {A = Text × Version D} (m, u) (model, v) = ground (arith, rw cut at e) in
        subst (λ q. Shown q.0 q.1 s) same
          (inl (PrintsAs-same _ s (prints m ∙ sym (strip_suffix-joins p s m cut))))
  ]

  -- Either alternative is printed as the text.
  or-Shown :
      (s : Text) (x y : Option (Text × Version D))
      → ((m : Text) (v : Version D) → x ≡ some (m, v) → Shown m v s)
      → ((m : Text) (v : Version D) → y ≡ some (m, v) → Shown m v s)
      → (m : Text) (v : Version D) → option_or x y ≡ some (m, v)
      → Shown m v s
  or-Shown s none y hx hy m v e = hy m v e
  or-Shown s (some p) y hx hy m v e = hx m v e

  parse_version-Shown :
      (s model : Text) (v : Version D) → parse_version chrono s ≡ some (model, v) → Shown model v s
  unfolding parse_version with_suffix display_version
  parse_version-Shown s =
      or-Shown s (preview_dated chrono (rsplit_once (codes "-preview-") s)) _
        (preview_dated-Shown s)
        (or-Shown s (option_map (λ m. (m, preview)) (strip_suffix (codes "-preview") s)) _
          (λ m v. suffix-Shown s (codes "-preview") preview m v (λ n. refl))
          (or-Shown s (option_map (λ m. (m, latest)) (strip_suffix (codes "-latest") s)) _
            (λ m v. suffix-Shown s (codes "-latest") latest m v (λ n. refl))
            (or-Shown s (first_version chrono (full_date chrono) (candidates b'-' s))
              (first_version chrono (any_version chrono) (candidates b'-' s))
              (λ m v.
                first_version-Shown (full_date chrono) s (candidates b'-' s) m v
                  (λ n t j u f. full_date-ShownAs t u f) (candidates-Joined b'-' s))
              (λ m v.
                first_version-Shown (any_version chrono) s (candidates b'-' s) m v
                  (λ n t j u f. any_version-ShownAs t u f) (candidates-Joined b'-' s)))))

  Dated-PrintsAs :
      (s model : Text) (v : Version D)
      → DatesWriteBack s
      → parse_version chrono s ≡ some (model, v)
      → Shown model v s
      → PrintsAs (with_suffix chrono model v) s
  unfolding with_suffix display_version
  Dated-PrintsAs s model v w found (inl prints) = prints
  Dated-PrintsAs s model v w found (inr (d, f, t, parsed, inl (same, joined))) =
      let read = found ∙ ap (λ u. some (model, u)) same in
      subst (λ u. PrintsAs (with_suffix chrono model u) s) (sym same)
        (PrintsAs-same _ s
          (ap (λ l. model ++ b'-' ∷ l) (w model d f t parsed (inl (read, joined))) ∙ sym joined))
  Dated-PrintsAs s model v w found (inr (d, f, t, parsed, inr (same, joined))) =
      let read = found ∙ ap (λ u. some (model, u)) same in
      subst (λ u. PrintsAs (with_suffix chrono model u) s) (sym same)
        (PrintsAs-same _ s (
          ap (λ l. model ++ (codes "-preview-" ++ l)) (w model d f t parsed (inr (read, joined)))
          ∙ sym joined))

  -- What is read from a text, printed again, is the text but for the case of a keyword.
  pub parse_model_and_version-shown :
      (s : Text)
      → DatesWriteBack s
      → PrintsAs
          (with_suffix chrono
            (parse_model_and_version chrono s).0
            (parse_model_and_version chrono s).1)
          s
  unfolding parse_model_and_version with_suffix
  parse_model_and_version-shown s w = elim (Option-cases (parse_version chrono s)) [
    | inl none_ ↦ rw none_ (PrintsAs-same s s refl)
    | inr ((m, v), found) ↦
        rw found (Dated-PrintsAs s m v w found (parse_version-Shown s m v found))
  ]
