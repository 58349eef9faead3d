-- ===== src/KvCache.antt =====
-- crates/alephant-llm-kv-cache/src/bucket.rs: a bucket of cache slots, read at random once it is full
-- and filled one free slot at a time. The store and serde_json are parameters.
pub mod Save
pub mod Read
pub mod Tests
use aiephant_ai_gateway.Common.{
  ℕ, zero, suc, ◌>>=◌, ◌<◌, ◌≡◌, ◌≢◌, Bool, true, false, Option, none, some, List, [], ◌∷◌, map,
  length, Result, ok, err, any, is_some, not, if◌then◌else◌,
}
use aiephant_ai_gateway.Common.Text.{Text}

-- `LlmKvBackend` on a store of type S, with the entries that serde_json reads and writes.
pub record Backend (S Entry Error : Type 0) : Type 0 where
  pub get : S → Text → Result Error (Option Text)
  pub put : S → Text → Text → (ttl_secs : ℕ) → Result Error S
  pub from_str : Text → Option Entry
  pub to_string : Entry → Result Error Text

module _ {S Entry Error : Type 0} (b : Backend S Entry Error) where
  -- The answers for the keys, or the first error.
  unfoldable pub get_all : S → List Text → Result Error (List (Option Text))
  get_all s [] = ok []
  get_all s (k ∷ ks) = b.get s k >>= λ o. get_all s ks >>= λ os. ok (o ∷ os)

  unfoldable pub parse_slot : Option Text → Option Entry
  parse_slot none = none
  parse_slot (some s) = b.from_str s

  unfoldable pub cons_entry : Option Entry → Option (List Entry) → Option (List Entry)
  cons_entry none es = none
  cons_entry (some e) none = none
  cons_entry (some e) (some es) = some (e ∷ es)

  -- `slots.into_iter().flatten()`, if no slot is `none`.
  unfoldable pub full_entries : List (Option Text) → Option (List Entry)
  unfolding parse_slot cons_entry
  full_entries [] = some []
  full_entries (o ∷ os) = cons_entry (parse_slot o) (full_entries os)

  unfoldable pub nth : {A : Type 0} → List A → ℕ → Option A
  nth [] n = none
  nth (x ∷ xs) zero = some x
  nth (x ∷ xs) (suc n) = nth xs n

  unfoldable pub with_index : ℕ → Option Entry → Option (Entry × ℕ)
  with_index i none = none
  with_index i (some e) = some (e, i)

  unfoldable pub entry_at : List Entry → Option ℕ → Option (Entry × ℕ)
  unfolding nth with_index
  entry_at es none = none
  entry_at es (some i) = with_index i (nth es i)

  -- What `choose` of rand picks from the indices below the number, none of zero.
  unfoldable pub choose_entry : (ℕ → Option ℕ) → Option (List Entry) → Option (Entry × ℕ)
  unfolding entry_at
  choose_entry choose none = none
  choose_entry choose (some es) = entry_at es (choose (length es))

  unfoldable pub read_slots :
      (ℕ → Option ℕ) → Result Error (List (Option Text)) → Option (Entry × ℕ)
  unfolding full_entries choose_entry
  read_slots choose (err e) = none
  read_slots choose (ok outs) = choose_entry choose (full_entries outs)

  -- `timed_out` says that the two seconds pass first.
  unfoldable pub read_bucket : Bool → (ℕ → Option ℕ) → S → List Text → Option (Entry × ℕ)
  unfolding read_slots get_all
  read_bucket timed_out choose s keys =
      if timed_out then none else read_slots choose (get_all s keys)

  -- The first key whose slot is empty.
  unfoldable pub first_free : List Text → List (Option Text) → Option Text
  first_free [] os = none
  first_free (k ∷ ks) [] = none
  first_free (k ∷ ks) (none ∷ os) = some k
  first_free (k ∷ ks) (some v ∷ os) = first_free ks os

  unfoldable pub saved : Result Error S → S → Result Error Bool × S
  saved (err e) s = (err e, s)
  saved (ok s') s = (ok true, s')

  unfoldable pub write_entry : S → Text → ℕ → Result Error Text → Result Error Bool × S
  unfolding saved
  write_entry s key ttl (err e) = (err e, s)
  write_entry s key ttl (ok json) = saved (b.put s key json ttl) s

  unfoldable pub save_to : S → Option Text → Entry → ℕ → Result Error Bool × S
  unfolding write_entry
  save_to s none entry ttl = (ok false, s)
  save_to s (some key) entry ttl = write_entry s key ttl (b.to_string entry)

  unfoldable pub save_slots :
      S → List Text → Result Error (List (Option Text)) → Entry → ℕ → Result Error Bool × S
  unfolding save_to first_free
  save_slots s keys (err e) entry ttl = (ok false, s)
  save_slots s keys (ok outs) entry ttl = save_to s (first_free keys outs) entry ttl

  unfoldable pub try_save_to_first_free_slot : S → List Text → Entry → ℕ → Result Error Bool × S
  unfolding save_slots get_all
  try_save_to_first_free_slot s keys entry ttl = save_slots s keys (get_all s keys) entry ttl
