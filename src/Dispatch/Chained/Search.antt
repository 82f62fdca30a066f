-- ===== src/Dispatch/Chained/Search.antt =====
-- DispatchTypeChainedPrivate::recurseMatch finds a chain where there is one, and one that leaves as
-- few parts as possible.
use cutelyst.Common.{
  ℕ, ◌+◌, ◌≤◌, Bytes, List, ◌∷◌, length, true, false, not, Option, none, some, is_empty, Bool-cases,
  Option-cases, inl, inr, ◌≡◌, refl, subst, arith, length-drop,
}
use cutelyst.Common.Int.{ℤ, pos, negsuc}
use cutelyst.Dispatch.Actions.{Action}
use cutelyst.Dispatch.Chained.{
  ChildrenOf, BestActionMatch, try_part, action_matches, match_captures, strip_captures, take_link,
  take_end_point, Matching, linked, stripped, try_action, bind,
}
use cutelyst.Dispatch.Chained.Laws.{
  is_link, Listed, Chain, end_point, link, IsChain, Leaves, Improves, is_found, take_link_cases,
  take_end_point_cases,
}

abbrev pub Returns : (BestActionMatch → Type 0) → Option BestActionMatch → Type 0
Returns P none = ⊥
Returns P (some b) = P b

pub Returns-bind :
    (P Q : BestActionMatch → Type 0) (m : Option BestActionMatch)
    (f : BestActionMatch → Option BestActionMatch)
    → Returns P m
    → ((b : BestActionMatch) → P b → Returns Q (f b))
    → Returns Q (bind m f)
Returns-bind P Q none f h k = elim h [ ]
Returns-bind P Q (some b) f h k = k b h

pub Improves-trans : (a b c : BestActionMatch) → Improves a b → Improves b c → Improves a c
Improves-trans a b c h k n = let (bn, bl) = h n in let (cn, cl) = k bn in (cn, omega arith)

Leaves-Improves : (n : ℕ) (b c : BestActionMatch) → Leaves n b → Improves b c → Leaves n c
Leaves-Improves n b c (bn, bl) k = let (cn, cl) = k bn in (cn, omega arith)

length-strip_captures :
    (n : ℤ) (parts captures local : List Bytes)
    → strip_captures n parts ≡ some (captures, local)
    → length local ≤ length parts
length-strip_captures (pos n) parts captures local e = ground (arith, length-drop {0} n parts)
length-strip_captures (negsuc n) parts captures local e = ground arith

module _ (children_of : ChildrenOf) (req : ℕ) where
  -- The answer for a parent and parts: a chain that no other beats, or nothing where there is none.
  abbrev pub IsBest : Bytes → List Bytes → BestActionMatch → Type 0
  IsBest parent parts b =
      IsChain children_of req parent parts b
      × ((actions : List Action) (captures rest : List Bytes)
          → Chain children_of req parent parts actions captures rest
          → Leaves (length rest) b)

  IsBest-found :
      (parent : Bytes) (parts : List Bytes) (b : BestActionMatch)
      → IsChain children_of req parent parts b
      → is_found b ≡ true
      → Chain children_of req parent parts b.actions b.captures b.parts
  IsBest-found parent parts b (inl (n, e)) f = absurd (ground arith)
  IsBest-found parent parts b (inr (n, c)) f = c

  pub Chain-is_found :
      (parent : Bytes) (parts : List Bytes) (b : BestActionMatch)
      → IsChain children_of req parent parts b
      → b.is_null ≡ false
      → is_found b ≡ true
  Chain-is_found parent parts b (inl (n, e)) f = cc
  Chain-is_found parent parts b (inr (n, c)) f =
      nonempty parent parts b.actions b.captures b.parts c
    where
      nonempty :
          (parent : Bytes) (parts : List Bytes) (actions : List Action) (captures rest : List Bytes)
          → Chain children_of req parent parts actions captures rest
          → not (is_empty actions) ≡ true
      nonempty parent parts actions captures rest (end_point _ _ _ _ _ _ _ _ _) = refl
      nonempty parent parts actions captures rest (link _ _ _ _ _ _ _ _ _ _ _ _ _ _ _ _) = refl

  -- What `b` owes to the chains that begin with `a`, taken with `behind` left.
  pub record Covers (a : Action) (behind : List Bytes) (b : BestActionMatch) : Type 0 where
    pub at_end :
        is_link a ≡ false → action_matches (req + length behind) a ≡ true → Leaves (length behind) b
    pub at_link :
        (captures local : List Bytes) (actions : List Action) (more rest : List Bytes)
        → is_link a ≡ true
        → strip_captures a.number_of_captures behind ≡ some (captures, local)
        → match_captures (length captures) a ≡ true
        → Chain children_of req (0x2f ∷ a.reverse) local actions more rest
        → Leaves (length rest) b

  pub Covers-Improves :
      (a : Action) (behind : List Bytes) (b c : BestActionMatch)
      → Covers a behind b
      → Improves b c
      → Covers a behind c
  Covers-Improves a behind b c v k = record {
    at_end = λ n m. Leaves-Improves (length behind) b c (v.at_end n m) k;
    at_link = λ captures local actions more rest n s m chain.
        Leaves-Improves (length rest) b c (v.at_link captures local actions more rest n s m chain)
          k;
  }

  -- What a round on `a` makes of the best match so far.
  abbrev pub Kept : Bytes → List Bytes → BestActionMatch → BestActionMatch → Type 0
  Kept parent parts best b = IsChain children_of req parent parts b × Improves best b

  abbrev pub Taken :
      Bytes → List Bytes → Action → List Bytes → BestActionMatch → BestActionMatch → Type 0
  Taken parent parts a behind best b = Kept parent parts best b × Covers a behind b

  module _ (parent key : Bytes) (parts behind : List Bytes)
      (tried_key : try_part key parts ≡ some behind) (a : Action)
      (listed : Listed children_of parent key a) (best : BestActionMatch)
      (chain : IsChain children_of req parent parts best) where
    take_end_point-Taken :
        is_link a ≡ false → Taken parent parts a behind best (take_end_point req a behind best)
    take_end_point-Taken ends = elim (take_end_point_cases req a behind best) [
      | inl (e, least) ↦ rw e (
        (chain, λ n. (n, omega arith)),
        record {
          at_end = λ n m. least m;
          at_link = λ captures local actions more rest n s m c. cc;
        },
      )
      | inr (e, fits, less) ↦ rw e (
        (
          inr (refl, end_point parent key parts a behind listed tried_key ends fits),
          λ n. (refl, less n),
        ),
        record {
          at_end = λ n m. (refl, omega arith);
          at_link = λ captures local actions more rest n s m c. cc;
        },
      )
    ]

    module _ (links : is_link a ≡ true) (captures local : List Bytes)
        (stripped_to : strip_captures a.number_of_captures behind ≡ some (captures, local))
        (fits : match_captures (length captures) a ≡ true) (ret : BestActionMatch)
        (answer : IsBest (0x2f ∷ a.reverse) local ret) where
      covered :
          (b : BestActionMatch)
          → (is_found ret ≡ true → Leaves (length ret.parts) b)
          → Covers a behind b
      covered b least = record {
        at_end = λ n m. cc;
        at_link = λ captures' local' actions more rest n s m c.
            let same : local' ≡ local = cc in
            let same_local =
              subst
                (λ (l : List Bytes). Chain children_of req (0x2f ∷ a.reverse) l actions more rest)
                same c in
            let (found, fewer) = answer.1 actions more rest same_local in
            let (kept, less) = least (Chain-is_found (0x2f ∷ a.reverse) local ret answer.0 found) in
            (kept, omega arith);
      }

      take_link-Taken : Taken parent parts a behind best (take_link a captures ret best)
      take_link-Taken = elim (take_link_cases a captures ret best) [
        | inl (e, least) ↦ rw e ((chain, λ n. (n, omega arith)), covered best least)
        | inr (e, found, less) ↦ rw e (
          (
            inr (
              refl,
              link parent key parts behind captures local a ret.actions ret.captures ret.parts
                  listed tried_key links stripped_to fits
                  (IsBest-found (0x2f ∷ a.reverse) local ret answer.0 found),
            ),
            λ n. (refl, less n),
          ),
          covered _ (λ f. (refl, omega arith)),
        )
      ]

    unchanged :
        is_link a ≡ true
        → ((captures local : List Bytes)
            → strip_captures a.number_of_captures behind ≡ some (captures, local)
            → match_captures (length captures) a ≡ true
            → ⊥)
        → Taken parent parts a behind best best
    unchanged links no_strip = (
      (chain, λ n. (n, omega arith)),
      record {
        at_end = λ n m. cc;
        at_link = λ captures local actions more rest n s m c. absurd (no_strip captures local s m);
      },
    )

    module _ (matching : Matching)
        (answers : (local : List Bytes)
          → length local ≤ length behind
          → Returns (IsBest (0x2f ∷ a.reverse) local) (matching (0x2f ∷ a.reverse) local)) where
      linked-Returns :
          (captures local : List Bytes) (answer : Option BestActionMatch)
          → is_link a ≡ true
          → strip_captures a.number_of_captures behind ≡ some (captures, local)
          → match_captures (length captures) a ≡ true
          → Returns (IsBest (0x2f ∷ a.reverse) local) answer
          → Returns (Taken parent parts a behind best) (linked a captures answer best)
      linked-Returns captures local none links s m r = elim r [ ]
      linked-Returns captures local (some ret) links s m r =
          take_link-Taken links captures local s m ret r

      pub try_action-Returns :
          Returns (Taken parent parts a behind best) (try_action req matching behind a best)
      unfolding try_action
      try_action-Returns = elim (Bool-cases (is_link a)) [
        | inr ends ↦ rw (ends, try_action) (take_end_point-Taken ends)
        | inl links ↦
            rw (links, try_action)
              (elim (Option-cases (strip_captures a.number_of_captures behind)) [
                | inl short ↦ rw (short, stripped) (unchanged links (λ captures local s m. cc))
                | inr ((captures, local), s) ↦
                    rw (s, stripped)
                      (elim (Bool-cases (match_captures (length captures) a)) [
                        | inl fits ↦ rw fits (
                            linked-Returns captures local (matching (0x2f ∷ a.reverse) local) links
                              s fits
                              (answers local (
                                length-strip_captures a.number_of_captures behind captures local
                                  s)))
                        | inr other ↦ rw other (
                            unchanged links
                              (λ captures' local' s' m. let same : captures' ≡ captures = cc in cc))
                      ])
              ])
      ]
