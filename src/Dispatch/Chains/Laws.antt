-- ===== src/Dispatch/Chains/Laws.antt =====
-- Registering chained actions, and the match of a path by a chain.
use cutelyst.Common.{
  starts_with_byte, ◌≤◌, ◌<◌, Bytes, List, [], ◌∷◌, map, length, drop, Bool, true, false, Option,
  some, bytes_eq, bytes_eq_refl, codes, Bool-cases, inl, inr, ◌≡◌, refl, ap, sym, subst, ◌∙◌, arith,
}
use cutelyst.Common.Int.{ℤ, pos}
use cutelyst.Dispatch.Actions.{Action, Attributes, Context, MatchType, exact_match, values}
use cutelyst.Dispatch.Chained.{Children, ChildrenOf, BestActionMatch, actions_at, first_value}
use cutelyst.Dispatch.Chained.Laws.{Elem, Listed, Chain, IsChain}
use cutelyst.Dispatch.Chained.Search.{Chain-is_found}
use cutelyst.Dispatch.Chained.Best.{HasNames, HasParts, recurse_match-IsChain, recurse_match-IsBest}
use cutelyst.Dispatch.Chains.{
  ChainedActions, split, replace_value, add_child, add_to, check_args_attr, part_of, with_part,
  chained_by, register_action, add_action, decoded, last_reverse, matched_chain, answered, match,
}

-- The check of Args and CaptureArgs refuses no value, since QString::toInt gives 0 where it fails.
check_args_attr-accepts :
    (to_int : Bytes → ℤ × Bool) (attributes : Attributes) (name : Bytes)
    → ((s : Bytes) → (to_int s).1 ≡ false → (to_int s).0 ≡ pos 0)
    → length (values name attributes) ≤ 1
    → check_args_attr to_int attributes name ≡ true
unfolding check_args_attr
check_args_attr-accepts to_int attributes name fails once =
    ground (arith, fails (first_value (values name attributes)))

length-map : (f : Bytes → Bytes) (xs : List Bytes) → length (map f xs) ≡ length xs
length-map f [] = refl
length-map f (x ∷ xs) = omega (arith, length-map f xs)

actions_at-add_child :
    (part : Bytes) (a : Action) (children : Children)
    → Elem a (actions_at part (add_child part a children))
actions_at-add_child part a [] = rw bytes_eq_refl (inl refl)
actions_at-add_child part a ((key, actions) ∷ children) = elim (Bool-cases (bytes_eq key part)) [
  | inl same ↦ rw (same, actions_at) (rw same (inl refl))
  | inr other ↦ rw (other, actions_at) (rw other (actions_at-add_child part a children))
]

Listed-add_to :
    (parent part : Bytes) (a : Action) (children_of : ChildrenOf)
    → Listed (add_to parent part a children_of) parent part a
Listed-add_to parent part a [] = record {
  children = add_child part a [];
  chained = ground (arith, bytes_eq_refl parent);
  listed = actions_at-add_child part a [];
}
Listed-add_to parent part a ((key, children) ∷ children_of) =
    elim (Bool-cases (bytes_eq key parent)) [
      | inl same ↦ rw same (record {
        children = add_child part a children;
        chained = ground arith;
        listed = actions_at-add_child part a children;
      })
      | inr other ↦
          let later = Listed-add_to parent part a children_of in
          rw other (record {
            children = later.children;
            chained = ground (arith, later.chained);
            listed = later.listed;
          })
    ]

HasNames-add_child :
    (part : Bytes) (a : Action) (children : Children)
    → 0 < length part
    → HasNames children
    → HasNames (add_child part a children)
HasNames-add_child part a [] h n = (h, tt)
HasNames-add_child part a ((key, actions) ∷ children) h (k, n) =
    ground (arith, HasNames-add_child part a children h n)

HasParts-add_to :
    (parent part : Bytes) (a : Action) (children_of : ChildrenOf)
    → 0 < length part
    → HasParts children_of
    → HasParts (add_to parent part a children_of)
HasParts-add_to parent part a [] h n = ((h, tt), tt)
HasParts-add_to parent part a ((key, children) ∷ children_of) h (k, n) =
    ground
      (arith, HasParts-add_to parent part a children_of h n, HasNames-add_child part a children h k)

children_of-add_action :
    (to_int : Bytes → ℤ × Bool) (chained_to part : Bytes) (a : Action) (state : ChainedActions)
    → (add_action to_int chained_to part a state).0.children_of
      ≡ add_to chained_to part
          (record a { attributes = replace_value (codes "PathPart") part a.attributes })
          state.children_of
unfolding add_action
children_of-add_action to_int chained_to part a state = ground arith

-- An action is put among the children of its parent whatever its counts are, so that the search
-- finds it also where registerAction refuses it; no path part that is not empty makes one empty.
add_action-Listed :
    (to_int : Bytes → ℤ × Bool) (chained_to part : Bytes) (a : Action) (state : ChainedActions)
    → 0 < length part
    → HasParts state.children_of
    → Listed
        (add_action to_int chained_to part a state).0.children_of
        chained_to
        part
        (record a { attributes = replace_value (codes "PathPart") part a.attributes })
      × HasParts (add_action to_int chained_to part a state).0.children_of
add_action-Listed to_int chained_to part a state h n =
    let a' = record a { attributes = replace_value (codes "PathPart") part a.attributes } in
    let kept = sym (children_of-add_action to_int chained_to part a state) in
    (
      subst (λ (l : ChildrenOf). Listed l chained_to part a') kept
          (Listed-add_to chained_to part a' state.children_of),
      subst (λ (l : ChildrenOf). HasParts l) kept
          (HasParts-add_to chained_to part a' state.children_of h n),
    )

module _ (to_int : Bytes → ℤ × Bool) where
  with_some-HasParts :
      (chained_to part : Bytes) (a : Action) (state : ChainedActions)
      → 0 < length part
      → HasParts state.children_of
      → HasParts (with_part to_int chained_to (some part) a state).0.children_of
  with_some-HasParts chained_to part a state h n = elim (Bool-cases (starts_with_byte 0x2f part)) [
    | inl absolute ↦ rw absolute n
    | inr relative ↦ rw relative (add_action-Listed to_int chained_to part a state h n).1
  ]

  with_part-HasParts :
      (chained_to name : Bytes) (parts : List Bytes) (a : Action) (state : ChainedActions)
      → 0 < length name
      → HasParts state.children_of
      → HasParts (with_part to_int chained_to (part_of to_int name parts) a state).0.children_of
  with_part-HasParts chained_to name [] a state h n = with_some-HasParts chained_to name a state h n
  with_part-HasParts chained_to name ([] ∷ []) a state h n =
      with_some-HasParts chained_to name a state h n
  with_part-HasParts chained_to name ((x ∷ part) ∷ []) a state h n =
      with_some-HasParts chained_to (x ∷ part) a state (omega arith) n
  with_part-HasParts chained_to name (part ∷ next ∷ parts) a state h n = n

  chained_by-HasParts :
      (parents : List Bytes) (a : Action) (state : ChainedActions)
      → 0 < length a.name
      → HasParts state.children_of
      → HasParts (chained_by to_int parents a state).0.children_of
  chained_by-HasParts [] a state h n = n
  chained_by-HasParts (parent ∷ []) a state h n =
      elim (Bool-cases (bytes_eq parent (0x2f ∷ a.name))) [
        | inl own ↦ rw own n
        | inr other ↦
            rw other (
              with_part-HasParts parent a.name (values (codes "PathPart") a.attributes) a state h n)
      ]
  chained_by-HasParts (parent ∷ next ∷ parents) a state h n = n

  -- registerAction makes no path part empty, if no action is without a name.
  register_action-HasParts :
      (a : Action) (state : ChainedActions)
      → 0 < length a.name
      → HasParts state.children_of
      → HasParts (register_action to_int a state).0.children_of
  unfolding register_action
  register_action-HasParts a state h n =
      chained_by-HasParts (values (codes "Chained") a.attributes) a state h n

module _ (from_utf8 to_latin1 : Bytes → Bytes) (children_of : ChildrenOf)
    (names : HasParts children_of) (c : Context) (path : Bytes) where
  abbrev written : BestActionMatch → Context
  written b = record c {
    action = b.actions;
    arguments = map (decoded from_utf8 to_latin1) b.parts;
    captures = b.captures;
    matched = 0x2f ∷ last_reverse b.actions;
  }

  matched_chain-exact :
      (parts : List Bytes) (b : BestActionMatch)
      → IsChain children_of 0 (0x2f ∷ []) parts b
      → b.is_null ≡ false
      → matched_chain from_utf8 to_latin1 b c ≡ (written b, exact_match)
  matched_chain-exact parts b chain found =
      let some_action = Chain-is_found children_of 0 (0x2f ∷ []) parts b chain found in ground arith

  Chain-matched :
      (parts : List Bytes) (b : BestActionMatch) (c' : Context)
      → IsChain children_of 0 (0x2f ∷ []) parts b
      → matched_chain from_utf8 to_latin1 b c ≡ (c', exact_match)
      → (rest : List Bytes) × Chain children_of 0 (0x2f ∷ []) parts c'.action c'.captures rest
        × (c'.arguments ≡ map (decoded from_utf8 to_latin1) rest)
  Chain-matched parts b c' (inl (null, empty)) e = absurd (ground arith)
  Chain-matched parts b c' (inr (found, chain)) e =
      let same : written b ≡ c' =
        ap (λ (p : Context × MatchType). p.0)
          (sym (matched_chain-exact parts b (inr (found, chain)) found) ∙ e) in
      subst
        (λ (x : Context).
          (rest : List Bytes) × Chain children_of 0 (0x2f ∷ []) parts x.action x.captures rest
          × (x.arguments ≡ map (decoded from_utf8 to_latin1) rest))
        same (b.parts, chain, refl)

  -- A path that a chain uses up is matched exactly, with no more arguments than the chain leaves.
  match-Chain :
      (actions : List Action) (captures rest : List Bytes)
      → Chain children_of 0 (0x2f ∷ []) (split (drop 1 path)) actions captures rest
      → (c' : Context) × (match from_utf8 to_latin1 children_of c path [] ≡ some (c', exact_match))
        × (length c'.arguments ≤ length rest)
  unfolding match
  match-Chain actions captures rest chain =
      let parts = split (drop 1 path) in
      let (b, e, found) = recurse_match-IsBest children_of 0 names (0x2f ∷ []) parts in
      let (some_match, fewer) = found.1 actions captures rest chain in
      (
        written b,
        ap (λ (o : Option BestActionMatch). answered from_utf8 to_latin1 o c) e
            ∙ ap (λ (p : Context × MatchType). some p)
                (matched_chain-exact parts b found.0 some_match),
        omega (arith, length-map (decoded from_utf8 to_latin1) b.parts),
      )

  -- What a match writes into the request is a chain that uses the path up: its actions, its captures
  -- and the parts left, decoded, as arguments.
  pub match-exact :
      (c' : Context)
      → match from_utf8 to_latin1 children_of c path [] ≡ some (c', exact_match)
      → (rest : List Bytes) × Chain children_of 0
          (0x2f ∷ [])
          (split (drop 1 path))
          c'.action
          c'.captures
          rest
        × (c'.arguments ≡ map (decoded from_utf8 to_latin1) rest)
  unfolding match
  match-exact c' e =
      let parts = split (drop 1 path) in
      let (b, found, chain) = recurse_match-IsChain children_of 0 names (0x2f ∷ []) parts in
      let answer =
        ap (λ (o : Option BestActionMatch). answered from_utf8 to_latin1 o c) (sym found) ∙ e in
      Chain-matched parts b c' chain (cc (answer))
