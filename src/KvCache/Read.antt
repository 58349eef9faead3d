-- ===== src/KvCache/Read.antt =====
-- A cached response is served only from a full bucket.
use aiephant_ai_gateway.Common.{
  ℕ, zero, suc, ◌≡◌, refl, ap, sym, ◌∙◌, inl, inr, subst, Bool, true, false, Option, none, some,
  List, [], ◌∷◌, Result, ok, err, All, arith, length, Option-cases,
}
use aiephant_ai_gateway.Common.Text.{Text}
use aiephant_ai_gateway.KvCache.{
  Backend, get_all, parse_slot, full_entries, cons_entry, nth, with_index, entry_at, choose_entry,
  read_slots, read_bucket,
}
use aiephant_ai_gateway.KvCache.Save.{get_all-cons}

module _ {S Entry Error : Type 0} (b : Backend S Entry Error) where
  -- The slot of the key has the entry.
  abbrev pub HasEntry : S → Text → Entry → Type 0
  HasEntry s key e = (v : Text) × (b.get s key ≡ ok (some v)) × (b.from_str v ≡ some e)

  -- The slots of the keys have the entries.
  abbrev HaveEntries : S → List Text → List Entry → Type 0
  HaveEntries s [] [] = Unit
  HaveEntries s (k ∷ ks) (e ∷ es) = HasEntry s k e × HaveEntries s ks es
  HaveEntries s [] (e ∷ es) = ⊥
  HaveEntries s (k ∷ ks) [] = ⊥

  full_entries-cons :
      (o : Option Text) (os : List (Option Text)) (es : List Entry)
      → full_entries b (o ∷ os) ≡ some es
      → (v : Text) × (e : Entry) × (rest : List Entry) × (o ≡ some v)
        × (b.from_str v ≡ some e)
        × (full_entries b os ≡ some rest)
        × (es ≡ e ∷ rest)
  unfolding full_entries cons_entry parse_slot
  full_entries-cons none os es f = cc f
  full_entries-cons (some v) os es f = elim (Option-cases (b.from_str v)) [
    | inl none_ ↦ cc (rw none_ at f)
    | inr (e, parsed) ↦ elim (Option-cases (full_entries b os)) [
      | inl none_ ↦ cc (rw (parsed, none_) at f)
      | inr (rest, full) ↦
          let same : some (e ∷ rest) ≡ some es = rw (parsed, full) at f in
          (v, e, rest, refl, parsed, full, ground arith)
    ]
  ]

  full_entries-nil :
      (s : S) (outs : List (Option Text)) (es : List Entry)
      → get_all b s [] ≡ ok outs
      → full_entries b outs ≡ some es
      → [] ≡ es
  unfolding get_all full_entries
  full_entries-nil s [] es g f = ground arith
  full_entries-nil s (o ∷ os) es g f = absurd (ground arith)

  get_all-HaveEntries :
      (s : S) (keys : List Text) (outs : List (Option Text)) (es : List Entry)
      → get_all b s keys ≡ ok outs
      → full_entries b outs ≡ some es
      → HaveEntries s keys es
  get_all-HaveEntries s (k ∷ ks) outs es g f =
      let (o, os, got, rest, same) = get_all-cons b s k ks outs g in
      let (v, e, es', ov, parsed, full, ees) =
        full_entries-cons o os es (subst (λ l. full_entries b l ≡ some es) same f) in
      let done = get_all-HaveEntries s ks os es' rest full in
      subst (HaveEntries s (k ∷ ks)) (sym ees) ((v, got ∙ ap ok ov, parsed), done)
  get_all-HaveEntries s [] outs es g f =
      subst (HaveEntries s []) (full_entries-nil s outs es g f) tt

  -- A key of the bucket, by its place, whose slot has the entry; and every slot has one.
  abbrev pub Served : S → List Text → Entry → ℕ → Type 0
  Served s keys e i =
      ((key : Text) × (nth b keys i ≡ some key) × HasEntry s key e)
      × All (λ k. (x : Entry) × HasEntry s k x) keys

  nth-HasEntry :
      (s : S) (keys : List Text) (es : List Entry) (i : ℕ) (e : Entry)
      → HaveEntries s keys es
      → nth b es i ≡ some e
      → (key : Text) × (nth b keys i ≡ some key) × HasEntry s key e
  unfolding nth
  nth-HasEntry s [] [] i e h n = cc n
  nth-HasEntry s [] (x ∷ es) i e h n = elim h [ ]
  nth-HasEntry s (k ∷ ks) [] i e h n = elim h [ ]
  nth-HasEntry s (k ∷ ks) (x ∷ es) zero e (h, hs) n =
      let same : x ≡ e = ground arith in (k, refl, subst (HasEntry s k) same h)
  nth-HasEntry s (k ∷ ks) (x ∷ es) (suc i) e (h, hs) n = nth-HasEntry s ks es i e hs n

  each-HasEntry :
      (s : S) (keys : List Text) (es : List Entry)
      → HaveEntries s keys es
      → All (λ k. (x : Entry) × HasEntry s k x) keys
  each-HasEntry s [] [] h = tt
  each-HasEntry s [] (x ∷ es) h = elim h [ ]
  each-HasEntry s (k ∷ ks) [] h = elim h [ ]
  each-HasEntry s (k ∷ ks) (x ∷ es) (h, hs) = ((x, h), each-HasEntry s ks es hs)

  entry_at-nth :
      (o : Option ℕ) (es : List Entry) (e : Entry) (i : ℕ)
      → entry_at b es o ≡ some (e, i)
      → nth b es i ≡ some e
  unfolding entry_at with_index
  entry_at-nth none es e i q = cc q
  entry_at-nth (some j) es e i q = elim (Option-cases (nth b es j)) [
    | inl none_ ↦ cc (rw none_ at q)
    | inr (x, found) ↦
        let same : some (x, j) ≡ some (e, i) = rw found at q in ground (arith, found, same)
  ]

  choose_entry-Served :
      (choose : ℕ → Option ℕ) (s : S) (keys : List Text) (outs : List (Option Text))
      (os : Option (List Entry)) (e : Entry) (i : ℕ)
      → get_all b s keys ≡ ok outs
      → full_entries b outs ≡ os
      → choose_entry b choose os ≡ some (e, i)
      → Served s keys e i
  unfolding choose_entry
  choose_entry-Served choose s keys outs none e i g f q = cc q
  choose_entry-Served choose s keys outs (some es) e i g f q =
      let have = get_all-HaveEntries s keys outs es g f in
      (
        nth-HasEntry s keys es i e have (entry_at-nth (choose (length es)) es e i q),
        each-HasEntry s keys es have,
      )

  read_slots-Served :
      (choose : ℕ → Option ℕ) (s : S) (keys : List Text) (outs : Result Error (List (Option Text)))
      (e : Entry) (i : ℕ)
      → get_all b s keys ≡ outs
      → read_slots b choose outs ≡ some (e, i)
      → Served s keys e i
  unfolding read_slots
  read_slots-Served choose s keys (err x) e i g q = cc q
  read_slots-Served choose s keys (ok outs) e i g q =
      choose_entry-Served choose s keys outs (full_entries b outs) e i g refl q

  -- A cached response is served only if every slot of the bucket holds an entry that parses, and then
  -- it is the entry under the key of the index that is returned with it, whatever the random choice.
  pub read_bucket-Served :
      (timed_out : Bool) (choose : ℕ → Option ℕ) (s : S) (keys : List Text) (e : Entry) (i : ℕ)
      → read_bucket b timed_out choose s keys ≡ some (e, i)
      → Served s keys e i
  unfolding read_bucket
  read_bucket-Served true choose s keys e i q = cc q
  read_bucket-Served false choose s keys e i q =
      read_slots-Served choose s keys (get_all b s keys) e i refl q
