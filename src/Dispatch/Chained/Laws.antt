-- ===== src/Dispatch/Chained/Laws.antt =====
-- Chains of actions, and what one round of DispatchTypeChainedPrivate::recurseMatch takes.
use cutelyst.Common.{
  ℕ, ◌+◌, ◌≤◌, ltb, ◌==◌, Bytes, List, [], ◌∷◌, ◌++◌, length, Bool, true, false, not, ◌&&◌, ◌||◌,
  some, is_empty, codes, Bool-cases, inl, inr, ◌⊎◌, ◌≡◌, refl, arith,
}
use cutelyst.Common.Int.{pos, int_eq}
use cutelyst.Dispatch.Actions.{Action, values, contains}
use cutelyst.Dispatch.Chained.{
  Children, ChildrenOf, BestActionMatch, children_at, actions_at, try_part, action_matches,
  match_captures, strip_captures, path_parts, take_link, take_end_point, first_value,
}

abbrev pub Elem : {A : Type 0} → A → List A → Type 0
Elem a [] = ⊥
Elem a (x ∷ xs) = (x ≡ a) ⊎ Elem a xs

abbrev pub is_link : Action → Bool
is_link a = contains (codes "CaptureArgs") a.attributes

-- `a` is chained to `parent` under the path part `key`.
pub record Listed (children_of : ChildrenOf) (parent key : Bytes) (a : Action) : Type 0 where
  pub children : Children
  pub chained : children_at parent children_of ≡ some children
  pub listed : Elem a (actions_at key children)

-- The parts of a path are used up by a chain of actions: each takes its path part and, but for the
-- last, its captures; the last has `rest` as arguments, of which it takes that many.
pub data Chain (children_of : ChildrenOf) (req_args_size : ℕ)
    : Bytes → List Bytes → List Action → List Bytes → List Bytes → Type 0 where
  end_point :
      (parent key : Bytes) (parts : List Bytes) (a : Action) (rest : List Bytes)
      → Listed children_of parent key a
      → try_part key parts ≡ some rest
      → is_link a ≡ false
      → action_matches (req_args_size + length rest) a ≡ true
      → Chain children_of req_args_size parent parts (a ∷ []) [] rest
  link :
      (parent key : Bytes) (parts behind captures local : List Bytes) (a : Action)
      (actions : List Action) (more rest : List Bytes)
      → Listed children_of parent key a
      → try_part key parts ≡ some behind
      → is_link a ≡ true
      → strip_captures a.number_of_captures behind ≡ some (captures, local)
      → match_captures (length captures) a ≡ true
      → Chain children_of req_args_size (0x2f ∷ a.reverse) local actions more rest
      → Chain children_of req_args_size parent parts (a ∷ actions) (captures ++ more) rest

-- A best match is a chain, or none was found.
abbrev pub IsChain : ChildrenOf → ℕ → Bytes → List Bytes → BestActionMatch → Type 0
IsChain children_of req parent parts b =
    ((b.is_null ≡ true) × (b.actions ≡ []))
    ⊎ ((b.is_null ≡ false) × Chain children_of req parent parts b.actions b.captures b.parts)

-- `b` was found, and leaves no more than `n` parts.
abbrev pub Leaves : ℕ → BestActionMatch → Type 0
Leaves n b = (b.is_null ≡ false) × (length b.parts ≤ n)

-- What is taken later leaves no more parts.
abbrev pub Improves : BestActionMatch → BestActionMatch → Type 0
Improves b b' = b.is_null ≡ false → Leaves (length b.parts) b'

abbrev pub is_found : BestActionMatch → Bool
is_found ret = not (is_empty ret.actions)

pub take_link_cases :
    (a : Action) (captures : List Bytes) (ret best : BestActionMatch)
    → ((take_link a captures ret best ≡ best)
        × (is_found ret ≡ true → Leaves (length ret.parts) best))
      ⊎ ((take_link a captures ret best ≡ record {
        actions = a ∷ ret.actions;
        captures = captures ++ ret.captures;
        parts = ret.parts;
        n_path_parts = path_parts a + ret.n_path_parts;
        is_null = false;
      })
          × (is_found ret ≡ true)
          × (best.is_null ≡ false → length ret.parts ≤ length best.parts))
unfolding take_link
take_link_cases a captures ret best =
    elim (Bool-cases (
      is_found ret
      && (best.is_null
          || ltb (length ret.parts) (length best.parts)
          || (length ret.parts == length best.parts)
            && ltb (length ret.captures) (length best.captures)
            && ltb best.n_path_parts ret.n_path_parts))) [
              | inl taken ↦ inr (rw taken refl, ground arith, ground arith)
              | inr left ↦ inl (rw left refl, ground arith)
            ]

abbrev end_match : Action → List Bytes → BestActionMatch
end_match a parts = record {
  actions = a ∷ [];
  captures = [];
  parts = parts;
  n_path_parts = path_parts a;
  is_null = false;
}

length-is_empty : (parts : List Bytes) → is_empty parts ≡ true → length parts ≡ 0
length-is_empty [] h = refl
length-is_empty (p ∷ parts) h = cc

pub take_end_point_cases :
    (req : ℕ) (a : Action) (parts : List Bytes) (best : BestActionMatch)
    → ((take_end_point req a parts best ≡ best)
        × (action_matches (req + length parts) a ≡ true → Leaves (length parts) best))
      ⊎ ((take_end_point req a parts best ≡ end_match a parts)
          × (action_matches (req + length parts) a ≡ true)
          × (best.is_null ≡ false → length parts ≤ length best.parts))
unfolding take_end_point
take_end_point_cases req a parts best = elim (Bool-cases (action_matches (req + length parts) a)) [
  | inr off ↦ inl (rw off refl, λ on. cc)
  | inl on ↦
      elim (Bool-cases (
        best.is_null
        || ltb (length parts) (length best.parts)
        || is_empty parts
          && not (is_empty (first_value (values (codes "Args") a.attributes)))
          && int_eq a.number_of_args (pos 0))) [
            | inl taken ↦ inr (rw (on, taken) refl, on, ground (arith, length-is_empty parts))
            | inr left ↦ inl (rw (on, left) refl, ground arith)
          ]
]
