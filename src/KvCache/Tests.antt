-- ===== src/KvCache/Tests.antt =====
-- A bucket of two slots in an association list, filled and then read.
use aiephant_ai_gateway.Common.{
  ℕ, zero, suc, ◌≡◌, refl, true, false, Option, none, some, List, [], ◌∷◌, ok, if◌then◌else◌,
}
use aiephant_ai_gateway.Common.Text.{Text, codes, text_eq}
use aiephant_ai_gateway.KvCache.{Backend, try_save_to_first_free_slot, read_bucket}
use aiephant_ai_gateway.KvCache.Save.{Written, try_save_to_first_free_slot-Written}
use aiephant_ai_gateway.KvCache.Read.{Served, read_bucket-Served}

abbrev Store : Type 0
Store = List (Text × Text)

abbrev lookup : Store → Text → Option Text
lookup [] key = none
lookup ((k, v) ∷ rest) key = if text_eq k key then some v else lookup rest key

-- Entries are texts; there are no errors.
abbrev backend : Backend Store Text ℕ
backend = record {
  get = λ s k. ok (lookup s k);
  put = λ s k v ttl. ok ((k, v) ∷ s);
  from_str = λ v. some v;
  to_string = λ e. ok e;
}

abbrev keys : List Text
keys = codes "a" ∷ codes "b" ∷ []

abbrev half : Store
half = (codes "a", codes "hello") ∷ []

abbrev full : Store
full = (codes "b", codes "bye") ∷ half

saves : try_save_to_first_free_slot backend half keys (codes "bye") 60 ≡ (ok true, full)
unfolding try_save_to_first_free_slot
saves = refl

try_save_to_first_free_slot-Written_example : Written backend half keys (codes "bye") 60 full
try_save_to_first_free_slot-Written_example =
    try_save_to_first_free_slot-Written backend half full keys (codes "bye") 60 saves

-- The last index.
abbrev last_index : ℕ → Option ℕ
last_index zero = none
last_index (suc n) = some n

reads : read_bucket backend false last_index full keys ≡ some (codes "bye", 1)
unfolding read_bucket
reads = refl

read_bucket-Served_example : Served backend full keys (codes "bye") 1
read_bucket-Served_example =
    read_bucket-Served backend false last_index full keys (codes "bye") 1 reads
