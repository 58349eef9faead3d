-- ===== src/DefaultModel/Candidates.antt =====
-- default_model/choose.rs: the list of candidates, where it comes from and how bare model names are
-- expanded.
use aiephant_ai_gateway.Common.{
  Bool, Option, none, some, List, [], ◌∷◌, ◌++◌, any, Result, ok, err, ◌>>=◌, if◌then◌else◌,
}
use aiephant_ai_gateway.Common.Text.{Text, is_empty, trim, to_ascii_lowercase, text_eq}
use aiephant_ai_gateway.Common.Text.Cuts.{split_once}
use aiephant_ai_gateway.DefaultModel.{Json, RouterStore}
use aiephant_ai_gateway.DefaultModel.Lists.{
  option_bind, non_empty_list, model_ids_from_config_json, model_ids_from_policy_overrides_json,
}
use aiephant_ai_gateway.VirtualKey.{VkPolicy}

unfoldable pub nonempty_allow_list : Option (List Text) → Option (List Text)
unfolding option_bind non_empty_list
nonempty_allow_list allowed = option_bind allowed non_empty_list

-- The list of a row, if it is there and not empty.
unfoldable pub if_not_empty : Option (List Text) → Option (List Text)
if_not_empty none = none
if_not_empty (some []) = none
if_not_empty (some (m ∷ ms)) = some (m ∷ ms)

unfoldable pub or_empty : Option (List Text) → List Text
or_empty none = []
or_empty (some ids) = ids

module _ {Value F Error : Type 0} (json : Json Value F) (store : RouterStore Error Value) where
  -- What a source lists is taken; else the next one is asked.
  unfoldable pub taken_or :
      Option (List Text) → Result Error (Option (List Text)) → Result Error (Option (List Text))
  taken_or none next = next
  taken_or (some ids) next = ok (some ids)

  unfoldable pub first_list :
      Result Error (Option Value)
      → Result Error (Option (List Text))
      → Result Error (Option (List Text))
  unfolding taken_or if_not_empty option_bind model_ids_from_policy_overrides_json
  first_list (err e) next = err e
  first_list (ok row) next =
      taken_or (if_not_empty (option_bind row (model_ids_from_policy_overrides_json json))) next

  unfoldable pub load_overrides_list : Bool → Result Error (Option (List Text))
  unfolding first_list
  load_overrides_list has_department =
      let rest =
        first_list store.overrides_for_virtual_key
          (first_list store.overrides_workspace_default (ok none)) in
      if has_department then first_list store.overrides_for_department rest else rest

  unfoldable pub or_config : Option (List Text) → Result Error (List Text)
  unfolding or_empty option_bind model_ids_from_config_json
  or_config (some ids) = ok ids
  or_config none = do
    row ← store.config_for_workspace
    ok (or_empty (option_bind row (model_ids_from_config_json json)))

  unfoldable pub or_overrides : Bool → Option (List Text) → Result Error (List Text)
  unfolding or_config load_overrides_list
  or_overrides has_department (some ids) = ok ids
  or_overrides has_department none = load_overrides_list has_department >>= or_config

  unfoldable pub resolve_model_id_list : Bool → VkPolicy → Result Error (List Text)
  unfolding or_overrides nonempty_allow_list
  resolve_model_id_list has_department vk =
      or_overrides has_department (nonempty_allow_list vk.allowed_models)

unfoldable pub sides : Option (Text × Text) → Option (Text × Text)
unfolding trim
sides none = none
sides (some (a, b)) =
    if is_empty (trim a) then none else if is_empty (trim b) then none else some (trim a, trim b)

-- The provider and the model around the first slash, trimmed.
unfoldable pub split_provider_model : Text → Option (Text × Text)
unfolding sides split_once
split_provider_model model = sides (split_once b'/' model)

-- The list so far with what was seen, in small letters.
abbrev pub Expanded : Type 0
Expanded = List Text × List Text

unfoldable pub push_new : Expanded → Text → Expanded
unfolding to_ascii_lowercase
push_new (out, seen) full =
    if any (text_eq (to_ascii_lowercase full)) seen
    then (out, seen)
    else (out ++ full ∷ [], to_ascii_lowercase full ∷ seen)

unfoldable pub push_all : Expanded → List Text → Expanded
unfolding push_new
push_all e [] = e
push_all e (g ∷ gs) = push_all (push_new e g) gs

-- `BareModelExpandIndex`: the full names of each bare name in small letters.
abbrev pub BareModelExpandIndex : Type 0
BareModelExpandIndex = List (Text × List Text)

unfoldable pub push_name : List Text → Text → List Text
push_name v full = if any (text_eq full) v then v else v ++ full ∷ []

unfoldable pub push_at : BareModelExpandIndex → Text → Text → BareModelExpandIndex
unfolding push_name
push_at [] key full = (key, full ∷ []) ∷ []
push_at ((k, v) ∷ inner) key full =
    if text_eq k key then (k, push_name v full) ∷ inner else (k, v) ∷ push_at inner key full

unfoldable pub push : BareModelExpandIndex → Text → Text → BareModelExpandIndex
unfolding push_at to_ascii_lowercase
push inner provider_code model_id_in_db =
    if is_empty model_id_in_db
    then inner
    else push_at inner (to_ascii_lowercase model_id_in_db) (provider_code ++ b'/' ∷ model_id_in_db)

unfoldable pub names_at : BareModelExpandIndex → Text → List Text
names_at [] key = []
names_at ((k, v) ∷ inner) key = if text_eq k key then v else names_at inner key

unfoldable pub gateway_models_for_bare_id : BareModelExpandIndex → Text → List Text
unfolding names_at to_ascii_lowercase
gateway_models_for_bare_id inner bare_trimmed = names_at inner (to_ascii_lowercase bare_trimmed)

module _ (index : BareModelExpandIndex) where
  unfoldable pub models_of : Text → Option (Text × Text) → List Text
  unfolding gateway_models_for_bare_id
  models_of m none = gateway_models_for_bare_id index m
  models_of m (some (provider, model)) = (provider ++ b'/' ∷ model) ∷ []

  unfoldable pub expand_entry : Expanded → Text → Expanded
  unfolding models_of push_all split_provider_model trim
  expand_entry e raw =
      if is_empty (trim raw)
      then e
      else push_all e (models_of (trim raw) (split_provider_model (trim raw)))

  unfoldable pub expand_all : Expanded → List Text → Expanded
  unfolding expand_entry
  expand_all e [] = e
  expand_all e (raw ∷ list) = expand_all (expand_entry e raw) list

  unfoldable pub expand_policy_model_list : List Text → List Text
  unfolding expand_all
  expand_policy_model_list list = (expand_all ([], []) list).0
