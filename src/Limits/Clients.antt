-- ===== src/Limits/Clients.antt =====
-- The map of client addresses, and which address a request counts for.
use aiephant_ai_gateway.Common.{
  ℕ, ◌<◌, ◌≡◌, ◌≢◌, refl, ap, sym, ◌∙◌, ◌⊎◌, inl, inr, Bool, true, false, Option, none, some,
  unwrap_or, is_some, List, [], ◌∷◌, length, any, ite, if_pos, if_neg, arith, Bool-cases,
  Option-cases, ◌==◌,
}
use aiephant_ai_gateway.Common.Text.{Text, trim, split_first}
use aiephant_ai_gateway.Limits.{
  Deque, max_tracked_ips, admit, deque_of, set_deque, make_room, check, effective_client_ip,
  forwarded_ip,
}

module _ {Ip : Type 0} (dec : Discrete Ip) where
  deque_of_head :
      (k j : Ip) (d : Deque) (rest : List (Ip × Deque))
      → deque_of dec k ((j, d) ∷ rest) ≡ ite (dec j k) (some d) (deque_of dec k rest)
  unfolding deque_of
  deque_of_head k j d rest = refl

  set_deque_head :
      (ip : Ip) (d e : Deque) (rest : List (Ip × Deque))
      → set_deque dec ip d ((ip, e) ∷ rest) ≡ (ip, d) ∷ rest
  unfolding set_deque
  set_deque_head ip d e rest =
      if_pos (dec ip ip) refl ((ip, d) ∷ rest) ((ip, e) ∷ set_deque dec ip d rest)

  set_deque_tail :
      (ip j : Ip) (d e : Deque) (rest : List (Ip × Deque))
      → j ≢ ip
      → set_deque dec ip d ((j, e) ∷ rest) ≡ (j, e) ∷ set_deque dec ip d rest
  unfolding set_deque
  set_deque_tail ip j d e rest differs =
      if_neg (dec j ip) differs ((j, d) ∷ rest) ((j, e) ∷ set_deque dec ip d rest)

  deque_of-set_deque :
      (ip k : Ip) (d : Deque) (map : List (Ip × Deque))
      → deque_of dec k (set_deque dec ip d map) ≡ ite (dec ip k) (some d) (deque_of dec k map)
  unfolding deque_of set_deque
  deque_of-set_deque ip k d [] = refl
  deque_of-set_deque ip k d ((j, e) ∷ rest) = elim (dec j ip) [
    | yes same ↦
        ap (λ i. deque_of dec k (set_deque dec ip d ((i, e) ∷ rest))) same
        ∙ ap (deque_of dec k) (set_deque_head ip d e rest)
        ∙ ground (arith, deque_of_head k j e rest)
    | no differs ↦
        ap (deque_of dec k) (set_deque_tail ip j d e rest differs)
        ∙ ground (arith, deque_of-set_deque ip k d rest)
  ]

  make_room-kept :
      (ip : Ip) (map : List (Ip × Deque))
      → (length map < max_tracked_ips) ⊎ (is_some (deque_of dec ip map) ≡ true)
      → make_room dec ip map ≡ map
  unfolding make_room
  make_room-kept ip map h = ground (arith, h)

  -- A check with a positive limit, while there is room for the address or it is known, gives the answer
  -- of the address's own deque and changes that deque alone: every other address keeps its.
  pub check-deque_of :
      (limit now : ℕ) (ip : Ip) (map : List (Ip × Deque))
      → 0 < limit
      → (length map < max_tracked_ips) ⊎ (is_some (deque_of dec ip map) ≡ true)
      → (let deque = unwrap_or (deque_of dec ip map) [] in
          ((check dec limit now ip map).0 ≡ (admit limit now deque).0)
          × ((k : Ip)
              → deque_of dec k (check dec limit now ip map).1
                ≡ ite (dec ip k) (some (admit limit now deque).1) (deque_of dec k map)))
  unfolding check
  check-deque_of limit now ip map positive room =
      let kept = make_room-kept ip map room in
      let some_ : limit == 0 ≡ false = ground arith in
      rw (some_, kept) (refl, λ k. deque_of-set_deque ip k _ map)

module _ {Ip Network : Type 0} (in_network : Network → Ip → Bool)
    (parse_ip : Text → Option Ip) where
  -- A request counts for another address than its peer's only if the peer is in a trusted network and
  -- the first entry of its `X-Forwarded-For` is that address.
  pub effective_client_ip-trusted :
      (peer ip : Ip) (header : Option Text) (trusted : List Network)
      → effective_client_ip in_network parse_ip peer header trusted ≡ ip
      → (ip ≡ peer)
        ⊎ ((any (λ n. in_network n peer) trusted ≡ true)
            × (raw : Text) × (header ≡ some raw)
            × (parse_ip (trim (split_first b',' raw)) ≡ some ip))
  unfolding effective_client_ip forwarded_ip
  effective_client_ip-trusted peer ip none trusted e =
      elim (Bool-cases (any (λ n. in_network n peer) trusted)) [
        | inl inside ↦ inl (sym (rw inside at e))
        | inr outside ↦ inl (sym (rw outside at e))
      ]
  effective_client_ip-trusted peer ip (some raw) trusted e =
      elim (Bool-cases (any (λ n. in_network n peer) trusted)) [
        | inl inside ↦ elim (Option-cases (parse_ip (trim (split_first b',' raw)))) [
          | inl none_ ↦ inl (sym (rw (inside, none_) at e))
          | inr (found, some_) ↦ inr (inside, raw, refl, some_ ∙ ap some (rw (inside, some_) at e))
        ]
        | inr outside ↦ inl (sym (rw outside at e))
      ]
