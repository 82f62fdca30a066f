-- ===== src/Dispatch/Chained/Loops.antt =====
-- The loops of DispatchTypeChainedPrivate::recurseMatch over the path parts and over the actions, and
-- the recursion.
use cutelyst.Common.{
  ℕ, ◌+◌, ◌≤◌, ◌<◌, ltb, if◌then◌else◌, Bytes, List, [], ◌∷◌, length, Bool, Option, none, some, All,
  bytes_eq, bytes_eq→eq, Bool-cases, inl, inr, ◌≡◌, refl, sym, subst, arith, length-drop,
}
use cutelyst.Dispatch.Actions.{Action}
use cutelyst.Dispatch.Chained.{
  Children, ChildrenOf, BestActionMatch, children_at, actions_at, insert_key, sort_keys,
  count_slashes, try_part, Matching, try_action, try_actions, tried, try_keys,
}
use cutelyst.Dispatch.Chained.Laws.{Elem, Listed, IsChain}
use cutelyst.Dispatch.Chained.Search.{
  Returns, Returns-bind, Improves-trans, IsBest, Covers, Covers-Improves, Kept, Taken,
  try_action-Returns,
}

pub Returns-map :
    (P Q : BestActionMatch → Type 0) (m : Option BestActionMatch)
    → ((b : BestActionMatch) → P b → Q b)
    → Returns P m
    → Returns Q m
Returns-map P Q none f h = elim h [ ]
Returns-map P Q (some b) f h = f b h

-- A path part that is not empty uses up a part.
length-try_part :
    (key : Bytes) (parts behind : List Bytes)
    → 0 < length key
    → try_part key parts ≡ some behind
    → length behind < length parts
unfolding try_part
length-try_part [] parts behind h e = absurd (omega arith)
length-try_part (c ∷ key) [] behind h e = ground arith
length-try_part (c ∷ key) (part ∷ parts) behind h e =
    ground (arith, length-drop {0} (count_slashes (c ∷ key) + 1) (part ∷ parts))

Elem-insert_key_self : (key : Bytes) (keys : List Bytes) → Elem key (insert_key key keys)
unfolding insert_key
Elem-insert_key_self key [] = inl refl
Elem-insert_key_self key (first ∷ keys) = elim (Bool-cases (ltb (length key) (length first))) [
  | inl less ↦ rw less (inr (Elem-insert_key_self key keys))
  | inr more ↦ rw more (inl refl)
]

Elem-insert_key : (key k : Bytes) (keys : List Bytes) → Elem k keys → Elem k (insert_key key keys)
unfolding insert_key
Elem-insert_key key k [] e = absurd e
Elem-insert_key key k (first ∷ keys) e = elim (Bool-cases (ltb (length key) (length first))) [
  | inl less ↦ rw less (elim e [ inl s ↦ inl s | inr r ↦ inr (Elem-insert_key key k keys r) ])
  | inr more ↦ rw more (inr e)
]

-- A key with actions is tried.
pub Elem-sort_keys :
    (key : Bytes) (a : Action) (children : Children)
    → Elem a (actions_at key children)
    → Elem key (sort_keys children)
unfolding sort_keys
Elem-sort_keys key a [] e = absurd e
Elem-sort_keys key a ((k, actions) ∷ children) e = elim (Bool-cases (bytes_eq k key)) [
  | inl same ↦
      subst (λ (x : Bytes). Elem x (insert_key k (sort_keys children))) (bytes_eq→eq k key same)
        (Elem-insert_key_self k (sort_keys children))
  | inr other ↦ Elem-insert_key k key (sort_keys children) (
      Elem-sort_keys key a children
        (subst (λ (b : Bool). Elem a (if b then actions else actions_at key children)) other e))
]

module _ (children_of : ChildrenOf) (req : ℕ) (parent : Bytes) (parts : List Bytes) where
  module _ (key : Bytes) (behind : List Bytes) (tried_key : try_part key parts ≡ some behind)
      (matching : Matching)
      (answers : (parent' : Bytes) (local : List Bytes)
        → length local ≤ length behind
        → Returns (IsBest children_of req parent' local) (matching parent' local)) where
    try_actions-Returns :
        (actions : List Action)
        → ((a : Action) → Elem a actions → Listed children_of parent key a)
        → (best : BestActionMatch) → IsChain children_of req parent parts best
        → Returns
            (λ b.
              Kept children_of req parent parts best b
              × ((a : Action) → Elem a actions → Covers children_of req a behind b))
            (try_actions req matching behind actions best)
    unfolding try_actions
    try_actions-Returns [] listed best chain = ((chain, λ n. (n, omega arith)), λ a e. absurd e)
    try_actions-Returns (a ∷ actions) listed best chain =
        Returns-bind (Taken children_of req parent parts a behind best) _
          (try_action req matching behind a best) (try_actions req matching behind actions)
          (try_action-Returns children_of req parent key parts behind tried_key a
            (listed a (inl refl)) best chain matching (answers (0x2f ∷ a.reverse)))
          (λ b ((chain', better), covers).
            Returns-map _ _ (try_actions req matching behind actions b)
              (λ b' ((chain'', better'), all). (
                (chain'', Improves-trans best b b' better better'),
                λ a' e. elim e [
                  | inl same ↦
                      subst (λ x. Covers children_of req x behind b') same
                        (Covers-Improves children_of req a behind b b' covers better')
                  | inr later ↦ all a' later
                ],
              ))
              (try_actions-Returns actions (λ a' e. listed a' (inr e)) b chain'))

  -- The chains under a key are covered.
  abbrev pub KeyCovered : Children → Bytes → BestActionMatch → Type 0
  KeyCovered children key b =
      (a : Action) (behind : List Bytes)
      → try_part key parts ≡ some behind
      → Elem a (actions_at key children)
      → Covers children_of req a behind b

  module _ (children : Children) (chained : children_at parent children_of ≡ some children)
      (matching : Matching)
      (answers : (parent' : Bytes) (local : List Bytes)
        → length local < length parts
        → Returns (IsBest children_of req parent' local) (matching parent' local)) where
    tried-Returns :
        (key : Bytes) (p : Option (List Bytes)) (best : BestActionMatch)
        → try_part key parts ≡ p
        → 0 < length key
        → IsChain children_of req parent parts best
        → Returns
            (λ b. Kept children_of req parent parts best b × KeyCovered children key b)
            (tried req matching p (actions_at key children) best)
    tried-Returns key none best e h chain =
        ((chain, λ n. (n, omega arith)), λ a behind e' i. absurd (ground arith))
    tried-Returns key (some behind) best e h chain =
        Returns-map _ _ (try_actions req matching behind (actions_at key children) best)
          (λ b (kept, all). (
            kept,
            λ a behind' e' i.
                let same : behind ≡ behind' = cc in
                subst (λ (l : List Bytes). Covers children_of req a l b) same (all a i),
          ))
          (try_actions-Returns key behind e matching
            (λ parent' local l.
              answers parent' local (omega (arith, length-try_part key parts behind h e)))
            (actions_at key children)
            (λ a i. record { children = children; chained = chained; listed = i }) best chain)

    pub try_keys-Returns :
        (keys : List Bytes)
        → All (λ key. 0 < length key) keys
        → (best : BestActionMatch) → IsChain children_of req parent parts best
        → Returns
            (λ b.
              Kept children_of req parent parts best b
              × ((key : Bytes) → Elem key keys → KeyCovered children key b))
            (try_keys req matching children parts keys best)
    unfolding try_keys
    try_keys-Returns [] named best chain = ((chain, λ n. (n, omega arith)), λ key e. absurd e)
    try_keys-Returns (key ∷ keys) (n, named) best chain =
        Returns-bind _ _ (tried req matching (try_part key parts) (actions_at key children) best)
          (try_keys req matching children parts keys)
          (tried-Returns key (try_part key parts) best refl n chain)
          (λ b ((chain', better), covers).
            Returns-map _ _ (try_keys req matching children parts keys b)
              (λ b' ((chain'', better'), all). (
                (chain'', Improves-trans best b b' better better'),
                λ k e a behind t i. elim e [
                  | inl same ↦
                      Covers-Improves children_of req a behind b b'
                        (covers a behind
                          (subst (λ (x : Bytes). try_part x parts ≡ some behind) (sym same) t)
                          (subst (λ (x : Bytes). Elem a (actions_at x children)) (sym same) i))
                        better'
                  | inr later ↦ all k later a behind t i
                ],
              ))
              (try_keys-Returns keys named b chain'))
