-- ===== src/VirtualKey/Access.antt =====
-- What a virtual key's lists mean.
use aiephant_ai_gateway.Common.{
  ◌≡◌, refl, ◌↔◌, ◌⊎◌, inl, inr, true, Option, none, some, List, [], ◌∷◌, any, ok, err, arith,
  Bool-cases,
}
use aiephant_ai_gateway.Common.Text.{Text, text_eq, text_eq_iff}
use aiephant_ai_gateway.VirtualKey.{
  VkPolicy, model_access_denied, listed, model_access_allowed, check_model_access,
}

module _ (to_lowercase : Text → Text) where
  -- A model that the list has, whatever the case of its letters.
  pub data Lists (model : Text) : List Text → Type 0 where
    here : {m : Text} {ms : List Text} → to_lowercase m ≡ to_lowercase model → Lists model (m ∷ ms)
    there : {m : Text} {ms : List Text} → Lists model ms → Lists model (m ∷ ms)

  abbrev pub ListedIn : Text → Option (List Text) → Type 0
  ListedIn model none = ⊥
  ListedIn model (some ms) = Lists model ms

  any-Lists :
      (model : Text) (ms : List Text)
      → any (λ m. text_eq (to_lowercase m) (to_lowercase model)) ms ≡ true
      → Lists model ms
  any-Lists model [] e = cc e
  any-Lists model (m ∷ ms) e = elim (Bool-cases (text_eq (to_lowercase m) (to_lowercase model))) [
    | inl same ↦ here ((text_eq_iff (to_lowercase m) (to_lowercase model)).0 same)
    | inr differs ↦ there (any-Lists model ms (rw differs at e))
  ]

  Lists-any :
      (model : Text) (ms : List Text)
      → Lists model ms
      → any (λ m. text_eq (to_lowercase m) (to_lowercase model)) ms ≡ true
  Lists-any model [] l = elim l [ ]
  Lists-any model (m ∷ ms) (here e) =
      rw ((text_eq_iff (to_lowercase m) (to_lowercase model)).1 e) refl
  Lists-any model (m ∷ ms) (there l) = ground (arith, Lists-any model ms l)

  pub listed-ListedIn :
      (model : Text) (ms : Option (List Text))
      → (listed to_lowercase (to_lowercase model) ms ≡ true) ↔ ListedIn model ms
  listed-ListedIn model none = (λ e. cc e, λ x. absurd x)
  listed-ListedIn model (some ms) = (any-Lists model ms, Lists-any model ms)

  -- A request under a virtual key is denied exactly if its model, up to case, is on the list of blocked
  -- models and not on the list of allowed ones; the error names the model as it was requested.
  pub check_model_access_iff :
      (policy : VkPolicy) (model : Text)
      → ((check_model_access to_lowercase (some policy) model ≡ err (model_access_denied model))
          ↔ (ListedIn model policy.blocked_models × ¬ ListedIn model policy.allowed_models))
        × ((check_model_access to_lowercase (some policy) model ≡ ok tt)
            ⊎ (check_model_access to_lowercase (some policy) model
                ≡ err (model_access_denied model)))
  unfolding check_model_access model_access_allowed
  check_model_access_iff policy model =
      elim (Bool-cases (listed to_lowercase (to_lowercase model) policy.allowed_models)) [
        | inl allowed ↦ rw allowed (
          (
            λ e. cc e,
            λ (b, a). absurd (a ((listed-ListedIn model policy.allowed_models).0 allowed)),
          ),
          inl refl,
        )
        | inr unlisted ↦
            elim (Bool-cases (listed to_lowercase (to_lowercase model) policy.blocked_models)) [
              | inl blocked ↦
                  rw (unlisted, blocked)
                    (
                      (
                        λ e. (
                          (listed-ListedIn model policy.blocked_models).0 blocked,
                          λ a. cc (unlisted, (listed-ListedIn model policy.allowed_models).1 a),
                        ),
                        λ h. refl,
                      ),
                      inr refl,
                    )
              | inr free ↦
                  rw (unlisted, free)
                    (
                      (
                        λ e. cc e,
                        λ (b, a). cc (free, (listed-ListedIn model policy.blocked_models).1 b),
                      ),
                      inl refl,
                    )
            ]
      ]
