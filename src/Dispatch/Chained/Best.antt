-- ===== src/Dispatch/Chained/Best.antt =====
-- DispatchTypeChainedPrivate::recurseMatch ends, with the best chain that there is.
use cutelyst.Common.{
  ℕ, zero, suc, ◌<◌, Bytes, List, [], ◌∷◌, length, Option, none, some, All, bytes_eq, Bool-cases,
  Option-cases, inl, inr, ◌≡◌, refl, subst, arith,
}
use cutelyst.Dispatch.Actions.{Action}
use cutelyst.Dispatch.Chained.{
  Children, ChildrenOf, BestActionMatch, no_action, children_at, actions_at, insert_key, sort_keys,
  try_keys, recurse_match,
}
use cutelyst.Dispatch.Chained.Laws.{Elem, Chain, end_point, link, IsChain, Leaves}
use cutelyst.Dispatch.Chained.Search.{Returns, IsBest}
use cutelyst.Dispatch.Chained.Loops.{Returns-map, Elem-sort_keys, KeyCovered, try_keys-Returns}

abbrev pub HasNames : Children → Type 0
HasNames children = All (λ entry. 0 < length entry.0) children

-- No path part is empty.
abbrev pub HasParts : ChildrenOf → Type 0
HasParts children_of = All (λ entry. HasNames entry.1) children_of

insert_key-named :
    (key : Bytes) (keys : List Bytes)
    → 0 < length key
    → All (λ k. 0 < length k) keys
    → All (λ k. 0 < length k) (insert_key key keys)
unfolding insert_key
insert_key-named key [] h a = (h, tt)
insert_key-named key (first ∷ keys) h (f, a) = ground (arith, insert_key-named key keys h a)

sort_keys-named :
    (children : Children) → HasNames children → All (λ k. 0 < length k) (sort_keys children)
unfolding sort_keys
sort_keys-named [] h = tt
sort_keys-named ((key, actions) ∷ children) (n, h) =
    insert_key-named key (sort_keys children) n (sort_keys-named children h)

children_at-named :
    (parent : Bytes) (children_of : ChildrenOf) (children : Children)
    → HasParts children_of
    → children_at parent children_of ≡ some children
    → HasNames children
children_at-named parent [] children h e = cc
children_at-named parent ((key, first) ∷ rest) children (n, h) e =
    elim (Bool-cases (bytes_eq key parent)) [
      | inl same ↦ let found : first ≡ children = ground arith in subst (λ c. HasNames c) found n
      | inr other ↦ children_at-named parent rest children h (ground arith)
    ]

module _ (children_of : ChildrenOf) (req : ℕ) (names : HasParts children_of) where
  Chain-covered :
      (parent : Bytes) (parts : List Bytes) (children : Children)
      → children_at parent children_of ≡ some children
      → (b : BestActionMatch)
      → ((key : Bytes)
          → Elem key (sort_keys children)
          → KeyCovered children_of req parent parts children key b)
      → (actions : List Action) (captures rest : List Bytes)
      → Chain children_of req parent parts actions captures rest
      → Leaves (length rest) b
  Chain-covered parent parts children chained b all actions captures rest
        (end_point _ key _ a _ listed tried_key ends fits) =
      let same : listed.children ≡ children = cc (listed.chained) in
      let here = subst (λ (c : Children). Elem a (actions_at key c)) same listed.listed in
      (all key (Elem-sort_keys key a children here) a rest tried_key here).at_end ends fits
  Chain-covered parent parts children chained b all actions captures rest
        (link _ key _ behind taken local a actions' more _ listed tried_key links stripped fits
          chain) =
      let same : listed.children ≡ children = cc (listed.chained) in
      let here = subst (λ (c : Children). Elem a (actions_at key c)) same listed.listed in
      (all key (Elem-sort_keys key a children here) a behind tried_key here).at_link taken local
        actions' more rest links stripped fits chain

  Chain-chained :
      (parent : Bytes) (parts : List Bytes) (actions : List Action) (captures rest : List Bytes)
      → children_at parent children_of ≡ none
      → ¬ Chain children_of req parent parts actions captures rest
  Chain-chained parent parts actions captures rest e (end_point _ _ _ _ _ listed _ _ _) =
      cc (listed.chained)
  Chain-chained parent parts actions captures rest e (link _ _ _ _ _ _ _ _ _ _ listed _ _ _ _ _) =
      cc (listed.chained)

  recurse_match-Returns :
      (fuel : ℕ) (parent : Bytes) (parts : List Bytes)
      → length parts < fuel
      → Returns
          (IsBest children_of req parent parts)
          (recurse_match fuel children_of req parent parts)
  unfolding recurse_match
  recurse_match-Returns zero parent parts h = absurd (omega arith)
  recurse_match-Returns (suc fuel) parent parts h =
      elim (Option-cases (children_at parent children_of)) [
        | inl unchained ↦
            rw (unchained, recurse_match)
              (
                inl (refl, refl),
                λ actions captures rest chain.
                    absurd (Chain-chained parent parts actions captures rest unchained chain),
              )
        | inr (children, chained) ↦
            rw (chained, recurse_match)
              (Returns-map _ (IsBest children_of req parent parts)
                (try_keys req (recurse_match fuel children_of req) children parts
                  (sort_keys children) no_action)
                (λ b ((chain, better), all).
                  (chain, Chain-covered parent parts children chained b all))
                (try_keys-Returns children_of req parent parts children chained
                  (recurse_match fuel children_of req)
                  (λ parent' local l. recurse_match-Returns fuel parent' local (omega arith))
                  (sort_keys children)
                  (sort_keys-named children
                    (children_at-named parent children_of children names chained))
                  no_action (inl (refl, refl))))
      ]

returned :
    (P : BestActionMatch → Type 0) (m : Option BestActionMatch)
    → Returns P m
    → (b : BestActionMatch) × (m ≡ some b) × P b
returned P none h = elim h [ ]
returned P (some b) h = (b, refl, h)

module _ (children_of : ChildrenOf) (req : ℕ) (names : HasParts children_of) (parent : Bytes)
    (parts : List Bytes) where
  pub recurse_match-IsBest :
      (b : BestActionMatch) × (recurse_match (suc (length parts)) children_of req parent parts
        ≡ some b)
      × IsBest children_of req parent parts b
  recurse_match-IsBest =
      returned (IsBest children_of req parent parts) _ (
        recurse_match-Returns children_of req names (suc (length parts)) parent parts (omega arith))

  -- The search ends within as many levels as the path has parts, and what it finds is a chain of
  -- actions that uses the path up.
  pub recurse_match-IsChain :
      (b : BestActionMatch) × (recurse_match (suc (length parts)) children_of req parent parts
        ≡ some b)
      × IsChain children_of req parent parts b
  recurse_match-IsChain = let (b, e, best) = recurse_match-IsBest in (b, e, best.0)

  -- Where there is a chain for the path, the search finds one, and one that leaves no more parts of
  -- the path as arguments than that chain.
  pub recurse_match-least :
      (actions : List Action) (captures rest : List Bytes)
      → Chain children_of req parent parts actions captures rest
      → (b : BestActionMatch) × (recurse_match (suc (length parts)) children_of req parent parts
          ≡ some b)
        × Leaves (length rest) b
  recurse_match-least actions captures rest chain =
      let (b, e, best) = recurse_match-IsBest in (b, e, best.1 actions captures rest chain)
