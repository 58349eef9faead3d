-- ===== src/DefaultModel/Best.antt =====
-- default_model/resolve.rs: the price and the name that win, for the laws of f64 that this needs.
use aiephant_ai_gateway.Common.{
  ◌≡◌, refl, ap, sym, subst, ◌∙◌, ◌⊎◌, inl, inr, Bool, true, false, some, List, [], ◌∷◌, All, Any,
  Bool-cases,
}
use aiephant_ai_gateway.Common.Text.{Text}
use aiephant_ai_gateway.DefaultModel.{Doubles}
use aiephant_ai_gateway.DefaultModel.Greatest.{text_le, greatest, Last, greatest-Last, greatest-Any}
use aiephant_ai_gateway.DefaultModel.Prices.{
  fold_max, nearly, names_near, pick_greatest_by_price_and_name,
}

-- The laws of finite numbers in IEEE 754, and that a maximum ignores a number that is none.
pub record PriceLaws {F : Type 0} (f64 : Doubles F) : Type 0 where
  pub is_finite : F → Bool
  pub max-neg_infinity : (a : F) → is_finite a ≡ true → f64.max f64.neg_infinity a ≡ a
  pub max_either :
      (a b : F) → is_finite a ≡ true → is_finite b ≡ true → (f64.max a b ≡ a) ⊎ (f64.max a b ≡ b)
  pub le-max_left :
      (a b : F) → is_finite a ≡ true → is_finite b ≡ true → f64.le a (f64.max a b) ≡ true
  pub le-max_right :
      (a b : F) → is_finite a ≡ true → is_finite b ≡ true → f64.le b (f64.max a b) ≡ true
  pub le_refl : (a : F) → is_finite a ≡ true → f64.le a a ≡ true
  pub le_trans : (a b c : F) → f64.le a b ≡ true → f64.le b c ≡ true → f64.le a c ≡ true
  pub sub_self : (a : F) → is_finite a ≡ true → f64.sub a a ≡ f64.zero
  pub abs-zero : f64.abs f64.zero ≡ f64.zero
  pub zero_le : (a : F) → f64.le f64.zero (f64.max f64.one_billionth a) ≡ true

module _ {F : Type 0} (f64 : Doubles F) (laws : PriceLaws f64) where
  abbrev pub IsFinite : List (Text × F) → Type 0
  IsFinite = All (λ e. laws.is_finite e.1 ≡ true)

  -- A price of the list that no price exceeds.
  abbrev pub IsTop : F → List (Text × F) → Type 0
  IsTop top scored = All (λ e. f64.le e.1 top ≡ true) scored × Any (λ e. e.1 ≡ top) scored

  -- The name has nearly the top price, and no later name has.
  abbrev pub IsBest : Text → List (Text × F) → Type 0
  IsBest m scored =
      (top : F) × IsTop top scored
      × Any (λ e. (e.0 ≡ m) × (nearly f64 e.1 top ≡ true)) scored
      × All (λ e. nearly f64 e.1 top ≡ true → text_le e.0 m ≡ true) scored

  max_finite :
      (a b : F)
      → laws.is_finite a ≡ true
      → laws.is_finite b ≡ true
      → laws.is_finite (f64.max a b) ≡ true
  max_finite a b p q = elim (laws.max_either a b p q) [
    | inl e ↦ subst (λ c. laws.is_finite c ≡ true) (sym e) p
    | inr e ↦ subst (λ c. laws.is_finite c ≡ true) (sym e) q
  ]

  -- A price that bounds the list and the start, and is one of them.
  abbrev Bounds : F → F → List (Text × F) → Type 0
  Bounds top acc scored =
      (laws.is_finite top ≡ true)
      × (f64.le acc top ≡ true)
      × All (λ e. f64.le e.1 top ≡ true) scored
      × ((top ≡ acc) ⊎ Any (λ e. e.1 ≡ top) scored)

  from_max :
      (acc a top : F) (scored : List (Text × F))
      → laws.is_finite acc ≡ true
      → laws.is_finite a ≡ true
      → (top ≡ f64.max acc a) ⊎ Any (λ e. e.1 ≡ top) scored
      → (top ≡ acc) ⊎ ((a ≡ top) ⊎ Any (λ e. e.1 ≡ top) scored)
  from_max acc a top scored p q (inr h) = inr (inr h)
  from_max acc a top scored p q (inl e) = elim (laws.max_either acc a p q) [
    | inl l ↦ inl (e ∙ l)
    | inr r ↦ inr (inl (sym (e ∙ r)))
  ]

  fold_max-Bounds :
      (acc : F) (scored : List (Text × F))
      → laws.is_finite acc ≡ true
      → IsFinite scored
      → Bounds (fold_max f64 acc scored) acc scored
  unfolding fold_max
  fold_max-Bounds acc [] p q = (p, laws.le_refl acc p, tt, inl refl)
  fold_max-Bounds acc ((m, a) ∷ scored) p (q, qs) =
      let top = fold_max f64 (f64.max acc a) scored in
      let (f, l, all, any) = fold_max-Bounds (f64.max acc a) scored (max_finite acc a p q) qs in
      (
        f,
        laws.le_trans acc (f64.max acc a) top (laws.le-max_left acc a p q) l,
        (laws.le_trans a (f64.max acc a) top (laws.le-max_right acc a p q) l, all),
        from_max acc a top scored p q any,
      )

  nearly_self : (a : F) → laws.is_finite a ≡ true → nearly f64 a a ≡ true
  unfolding nearly
  nearly_self a p =
      subst
        (λ d. f64.le d (f64.max f64.one_billionth (f64.mul f64.one_billionth (f64.abs a))) ≡ true)
        (sym (ap f64.abs (laws.sub_self a p) ∙ laws.abs-zero))
        (laws.zero_le (f64.mul f64.one_billionth (f64.abs a)))

  names_near-keeps :
      (top : F) (e : Text × F) (scored : List (Text × F))
      → nearly f64 e.1 top ≡ true
      → names_near f64 top (e ∷ scored) ≡ e.0 ∷ names_near f64 top scored
  unfolding names_near
  names_near-keeps top e scored p = rw p

  names_near-drops :
      (top : F) (e : Text × F) (scored : List (Text × F))
      → nearly f64 e.1 top ≡ false
      → names_near f64 top (e ∷ scored) ≡ names_near f64 top scored
  unfolding names_near
  names_near-drops top e scored p = rw p

  names_near-Any :
      (top : F) (m : Text) (scored : List (Text × F))
      → Any (λ n. n ≡ m) (names_near f64 top scored)
      → Any (λ e. (e.0 ≡ m) × (nearly f64 e.1 top ≡ true)) scored
  unfolding names_near
  names_near-Any top m [] h = h
  names_near-Any top m (e ∷ scored) h = elim (Bool-cases (nearly f64 e.1 top)) [
    | inl p ↦ elim (subst (Any (λ n. n ≡ m)) (names_near-keeps top e scored p) h) [
      | inl q ↦ inl (q, p)
      | inr r ↦ inr (names_near-Any top m scored r)
    ]
    | inr p ↦
        inr (
          names_near-Any top m scored
            (subst (Any (λ n. n ≡ m)) (names_near-drops top e scored p) h))
  ]

  names_near-Last :
      (top : F) (m : Text) (scored : List (Text × F))
      → Last m (names_near f64 top scored)
      → All (λ e. nearly f64 e.1 top ≡ true → text_le e.0 m ≡ true) scored
  unfolding names_near
  names_near-Last top m [] h = tt
  names_near-Last top m (e ∷ scored) h = elim (Bool-cases (nearly f64 e.1 top)) [
    | inl p ↦
        let l = subst (Last m) (names_near-keeps top e scored p) h in
        (λ q. l.0, names_near-Last top m scored l.1)
    | inr p ↦ (
      λ q. cc (p, q),
      names_near-Last top m scored (subst (Last m) (names_near-drops top e scored p) h),
    )
  ]

  -- A list that holds the top price has a name near it.
  names_near-Nonempty :
      (top : F) (scored : List (Text × F))
      → nearly f64 top top ≡ true
      → Any (λ e. e.1 ≡ top) scored
      → (n : Text) × (ns : List Text) × (names_near f64 top scored ≡ n ∷ ns)
  names_near-Nonempty top [] p h = elim h [ ]
  names_near-Nonempty top (e ∷ scored) p (inl q) = (
    e.0,
    names_near f64 top scored,
    names_near-keeps top e scored (subst (λ a. nearly f64 a top ≡ true) (sym q) p),
  )
  names_near-Nonempty top (e ∷ scored) p (inr r) = elim (Bool-cases (nearly f64 e.1 top)) [
    | inl q ↦ (e.0, names_near f64 top scored, names_near-keeps top e scored q)
    | inr q ↦
        let (n, ns, f) = names_near-Nonempty top scored p r in
        (n, ns, names_near-drops top e scored q ∙ f)
  ]

  greatest-IsBest :
      (top : F) (scored : List (Text × F))
      → nearly f64 top top ≡ true
      → IsTop top scored
      → (m : Text) × (greatest (names_near f64 top scored) ≡ some m) × IsBest m scored
  greatest-IsBest top scored p t =
      let (n, ns, e) = names_near-Nonempty top scored p t.1 in
      let (m, f, l) = greatest-Last n ns in
      (
        m,
        ap greatest e ∙ f,
        (
          top,
          t,
          names_near-Any top m scored (subst (Any (λ n'. n' ≡ m)) (sym e) (greatest-Any n ns m f)),
          names_near-Last top m scored (subst (Last m) (sym e) l),
        ),
      )

  abbrev FirstOrLater : F → F → List (Text × F) → Type 0
  FirstOrLater top a scored = (top ≡ a) ⊎ Any (λ e. e.1 ≡ top) scored

  turned :
      (top a : F) (scored : List (Text × F))
      → FirstOrLater top a scored
      → (a ≡ top) ⊎ Any (λ e. e.1 ≡ top) scored
  turned top a scored (inl e) = inl (sym e)
  turned top a scored (inr h) = inr h

  pub pick_greatest-IsBest :
      (m₀ : Text) (a : F) (scored : List (Text × F))
      → IsFinite ((m₀, a) ∷ scored)
      → (m : Text) × (pick_greatest_by_price_and_name f64 ((m₀, a) ∷ scored) ≡ some m)
        × IsBest m ((m₀, a) ∷ scored)
  unfolding pick_greatest_by_price_and_name fold_max
  pick_greatest-IsBest m₀ a scored (p, ps) =
      let top = fold_max f64 a scored in
      let (f, l, all, any) = fold_max-Bounds a scored p ps in
      let (m, e, b) =
        greatest-IsBest top ((m₀, a) ∷ scored) (nearly_self top f)
          ((l, all), turned top a scored any) in
      (
        m,
        ap (λ s. greatest (names_near f64 (fold_max f64 s scored) ((m₀, a) ∷ scored)))
              (laws.max-neg_infinity a p)
            ∙ e,
        b,
      )
