-- ===== src/KvCache/Save.antt =====
-- Saving an entry overwrites none.
use aiephant_ai_gateway.Common.{
  ℕ, ◌≡◌, ◌≢◌, refl, ap, subst, ◌∙◌, inl, inr, true, Option, none, some, List, [], ◌∷◌, Result, ok,
  err, arith, Result-cases,
}
use aiephant_ai_gateway.Common.Text.{Text}
use aiephant_ai_gateway.KvCache.{
  Backend, get_all, first_free, saved, write_entry, save_to, save_slots,
  try_save_to_first_free_slot,
}

module _ {S Entry Error : Type 0} (b : Backend S Entry Error) where
  -- A key of the bucket whose slot is empty, after keys whose slots are not.
  pub data FirstFree (s : S) (key : Text) : List Text → Type 0 where
    here : {ks : List Text} → b.get s key ≡ ok none → FirstFree s key (key ∷ ks)
    there :
        {k : Text} {ks : List Text} (v : Text)
        → b.get s k ≡ ok (some v)
        → FirstFree s key ks
        → FirstFree s key (k ∷ ks)

  first_free-step :
      (s : S) (k key : Text) (ks : List Text) (o : Option Text) (os : List (Option Text))
      → b.get s k ≡ ok o
      → first_free b (k ∷ ks) (o ∷ os) ≡ some key
      → (first_free b ks os ≡ some key → FirstFree s key ks)
      → FirstFree s key (k ∷ ks)
  unfolding first_free
  first_free-step s k key ks none os got e rest =
      let same : k ≡ key = ground arith in subst (λ j. FirstFree s j (k ∷ ks)) same (here got)
  first_free-step s k key ks (some v) os got e rest = there v got (rest e)

  first_free-nil : (outs : List (Option Text)) (key : Text) → first_free b [] outs ≢ some key
  unfolding first_free
  first_free-nil outs key e = cc e

  pub get_all-cons :
      (s : S) (k : Text) (ks : List Text) (outs : List (Option Text))
      → get_all b s (k ∷ ks) ≡ ok outs
      → (o : Option Text) × (os : List (Option Text)) × (b.get s k ≡ ok o)
        × (get_all b s ks ≡ ok os)
        × (outs ≡ o ∷ os)
  unfolding get_all
  get_all-cons s k ks outs g = elim (Result-cases (b.get s k)) [
    | inr (x, failed) ↦ cc (rw failed at g)
    | inl (o, got) ↦ elim (Result-cases (get_all b s ks)) [
      | inr (x, failed) ↦ cc (rw (got, failed) at g)
      | inl (os, rest) ↦ (o, os, got, rest, ground arith)
    ]
  ]

  first_free-FirstFree :
      (s : S) (keys : List Text) (outs : List (Option Text)) (key : Text)
      → get_all b s keys ≡ ok outs
      → first_free b keys outs ≡ some key
      → FirstFree s key keys
  first_free-FirstFree s [] outs key g e = absurd (first_free-nil outs key e)
  first_free-FirstFree s (k ∷ ks) outs key g e =
      let (o, os, got, rest, same) = get_all-cons s k ks outs g in
      first_free-step s k key ks o os got (subst (λ l. first_free b (k ∷ ks) l ≡ some key) same e)
        (first_free-FirstFree s ks os key rest)

  -- A write went to the first free slot of the bucket, or nothing was written.
  abbrev pub Written : S → List Text → Entry → ℕ → S → Type 0
  Written s keys entry ttl s' =
      (key : Text) × (json : Text) × FirstFree s key keys
      × (b.to_string entry ≡ ok json)
      × (b.put s key json ttl ≡ ok s')

  save_to-Written :
      (s s' : S) (keys : List Text) (o : Option Text) (entry : Entry) (ttl : ℕ)
      → ((key : Text) → o ≡ some key → FirstFree s key keys)
      → save_to b s o entry ttl ≡ (ok true, s')
      → Written s keys entry ttl s'
  unfolding save_to write_entry saved
  save_to-Written s s' keys none entry ttl free e = cc (ap (λ r. r.0) e)
  save_to-Written s s' keys (some key) entry ttl free e = elim (Result-cases (b.to_string entry)) [
    | inr (x, failed) ↦ cc (ap (λ r. r.0) (rw failed at e))
    | inl (json, written) ↦ elim (Result-cases (b.put s key json ttl)) [
      | inr (x, failed) ↦ cc (ap (λ r. r.0) (rw (written, failed) at e))
      | inl (s₂, put) ↦
          let same : s₂ ≡ s' = ap (λ r. r.1) (rw (written, put) at e) in
          (key, json, free key refl, written, put ∙ ap ok same)
    ]
  ]

  save_slots-Written :
      (s s' : S) (keys : List Text) (outs : Result Error (List (Option Text))) (entry : Entry)
      (ttl : ℕ)
      → get_all b s keys ≡ outs
      → save_slots b s keys outs entry ttl ≡ (ok true, s')
      → Written s keys entry ttl s'
  unfolding save_slots
  save_slots-Written s s' keys (err x) entry ttl g e = cc (ap (λ r. r.0) e)
  save_slots-Written s s' keys (ok outs) entry ttl g e =
      save_to-Written s s' keys (first_free b keys outs) entry ttl
        (λ key f. first_free-FirstFree s keys outs key g f) e

  -- A save that reports success has put the entry under the first key of the bucket whose slot was
  -- empty, all slots before it being occupied: no entry is overwritten.
  pub try_save_to_first_free_slot-Written :
      (s s' : S) (keys : List Text) (entry : Entry) (ttl : ℕ)
      → try_save_to_first_free_slot b s keys entry ttl ≡ (ok true, s')
      → Written s keys entry ttl s'
  unfolding try_save_to_first_free_slot
  try_save_to_first_free_slot-Written s s' keys entry ttl e =
      save_slots-Written s s' keys (get_all b s keys) entry ttl refl e
