-- ===== src/Dispatch/Uris/Laws.antt =====
-- The URI of a chained action is made of the path parts and captures of its chain; where actions are
-- chained in a circle, the loop does not end.
use cutelyst.Common.{
  ◌⊎◌, inl, inr, All, subst, ℕ, zero, suc, ◌-◌, ◌<◌, ltb, Bytes, List, [], ◌∷◌, ◌++◌, length,
  append-nil, Bool, true, false, none, some, codes, ◌≡◌, refl, sym, ap, ap₂, ◌∙◌, arith,
  length-append, take-length-append, drop-length-append, take-of-le, drop-of-le,
}
use cutelyst.Common.Int.{pos}
use cutelyst.Dispatch.Actions.{Action, values, contains}
use cutelyst.Dispatch.Chained.{join, first_value}
use cutelyst.Dispatch.Uris.{
  action_named, uri, out_of_fuel, parent_of, has_captures, take_captures, prepend_part, finish_uri,
  uri_loop, uri_for_action, expand_loop,
}

-- The actions of a chain with what each captures, the end point first.
abbrev pub Steps : Type 0
Steps = List (Action × List Bytes)

abbrev pub all_captures : Steps → List Bytes
all_captures [] = []
all_captures ((a, captures) ∷ steps) = all_captures steps ++ captures

abbrev pub path_part : Action → Bytes
path_part a = first_value (values (codes "PathPart") a.attributes)

-- What stands in the path, from the root on.
abbrev pub all_parts : Steps → List Bytes → List Bytes
all_parts [] parts = parts
all_parts ((a, captures) ∷ steps) parts =
    all_parts steps (prepend_part (path_part a) (captures ++ parts))

-- An action with CaptureArgs captures as many as it says, any other none.
abbrev pub CapturesOf : Bool → Action → List Bytes → Type 0
CapturesOf true a captures = a.number_of_captures ≡ pos (length captures)
CapturesOf false a captures = captures ≡ []

-- Each action is chained to the next, the last to the root.
abbrev pub IsChainUp : List (Bytes × Action) → Action → List Bytes → Steps → Type 0
IsChainUp actions a captures [] =
    CapturesOf (has_captures a) a captures
    × (parent_of a ≡ 0x2f ∷ [])
    × (action_named (parent_of a) actions ≡ none)
IsChainUp actions a captures ((b, more) ∷ steps) =
    CapturesOf (has_captures a) a captures
    × (action_named (parent_of a) actions ≡ some b)
    × IsChainUp actions b more steps

take_captures_lem :
    (b : Bool) (a : Action) (before captures parts : List Bytes)
    → CapturesOf b a captures
    → take_captures b a.number_of_captures (before ++ captures) parts
      ≡ some (before, captures ++ parts)
take_captures_lem false a before captures parts h =
    rw h (ap (λ (l : List Bytes). some (l, parts)) (append-nil before))
take_captures_lem true a before captures parts h =
    let sum = length-append {0} before captures in
    let enough : ltb (length (before ++ captures)) (length captures) ≡ false = ground arith in
    let front : length (before ++ captures) - length captures ≡ length before = omega arith in
    rw h (
      rw enough (
        rw front (
          ap₂ (λ (x y : List Bytes). some (x, y ++ parts)) (take-length-append before captures)
            (drop-length-append before captures))))

take_captures-none :
    (b : Bool) (a : Action) (captures parts : List Bytes)
    → a.number_of_captures ≡ pos 0
    → take_captures b a.number_of_captures captures parts ≡ some (captures, parts)
take_captures-none false a captures parts h = refl
take_captures-none true a captures parts h =
    let enough : ltb (length captures) 0 ≡ false = ground arith in
    rw h (
      rw enough (
        ap₂ (λ (x y : List Bytes). some (x, y ++ parts))
          (take-of-le (length captures - 0) captures (omega arith))
          (drop-of-le (length captures - 0) captures (omega arith))))

-- No CaptureArgs, or none to take.
abbrev CapturesNone : Action → Type 0
CapturesNone x = (has_captures x ≡ false) ⊎ (x.number_of_captures ≡ pos 0)

take_captures-CapturesNone :
    (x : Action) (captures parts : List Bytes)
    → CapturesNone x
    → take_captures (has_captures x) x.number_of_captures captures parts ≡ some (captures, parts)
take_captures-CapturesNone x captures parts (inl none_asked) =
    ap (λ (b : Bool). take_captures b x.number_of_captures captures parts) none_asked
take_captures-CapturesNone x captures parts (inr zero_asked) =
    take_captures-none (has_captures x) x captures parts zero_asked

abbrev Among : Action → List Action → Type 0
Among x [] = ⊥
Among x (y ∷ ys) = (x ≡ y) ⊎ Among x ys

Among-All : (P : Action → Type 0) (xs : List Action) (x : Action) → All P xs → Among x xs → P x
Among-All P [] x h at = absurd at
Among-All P (y ∷ ys) x (h, rest) (inl e) = subst P (sym e) h
Among-All P (y ∷ ys) x (h, rest) (inr at) = Among-All P ys x rest at

module _ (actions : List (Bytes × Action)) where
  uri_loop-step :
      (fuel : ℕ) (a next : Action) (captures parts captures' parts' : List Bytes)
      → take_captures (has_captures a) a.number_of_captures captures parts
        ≡ some (captures', parts')
      → action_named (parent_of a) actions ≡ some next
      → uri_loop actions (suc fuel) a captures parts
        ≡ uri_loop actions fuel next captures' (prepend_part (path_part a) parts')
  unfolding uri_loop
  uri_loop-step fuel a next captures parts captures' parts' e up = rw (e, uri_loop) (rw up refl)

  uri_loop-last :
      (fuel : ℕ) (a : Action) (captures parts captures' parts' : List Bytes)
      → take_captures (has_captures a) a.number_of_captures captures parts
        ≡ some (captures', parts')
      → action_named (parent_of a) actions ≡ none
      → uri_loop actions (suc fuel) a captures parts
        ≡ finish_uri (parent_of a) captures' (prepend_part (path_part a) parts')
  unfolding uri_loop
  uri_loop-last fuel a captures parts captures' parts' e last = rw (e, uri_loop) (rw last refl)

  uri_loop-chain :
      (fuel : ℕ) (a : Action) (captures : List Bytes) (steps : Steps) (parts : List Bytes)
      → IsChainUp actions a captures steps
      → length steps < fuel
      → uri_loop actions fuel a (all_captures ((a, captures) ∷ steps)) parts
        ≡ uri (0x2f ∷ join (all_parts ((a, captures) ∷ steps) parts))
  uri_loop-chain zero a captures steps parts h f = absurd (omega arith)
  uri_loop-chain (suc fuel) a captures [] parts (h, root, last) f =
      uri_loop-last fuel a captures parts [] (captures ++ parts)
        (take_captures_lem (has_captures a) a [] captures parts h) last
      ∙ ap (λ (p : Bytes). finish_uri p [] (prepend_part (path_part a) (captures ++ parts))) root
  uri_loop-chain (suc fuel) a captures ((b, more) ∷ steps) parts (h, next, up) f =
      uri_loop-step fuel a b (all_captures ((a, captures) ∷ (b, more) ∷ steps)) parts
        (all_captures ((b, more) ∷ steps)) (captures ++ parts)
        (take_captures_lem (has_captures a) a (all_captures ((b, more) ∷ steps)) captures parts h)
        next
      ∙ uri_loop-chain fuel b more steps (prepend_part (path_part a) (captures ++ parts)) up
          (omega arith)

  -- The URI of an end point with the captures of its chain is a slash and the path parts, each with
  -- its captures behind it, from the root on, if the loop may take a round for each action.
  pub uri_for_action-chain :
      (fuel : ℕ) (a : Action) (steps : Steps)
      → contains (codes "Chained") a.attributes ≡ true
      → has_captures a ≡ false
      → IsChainUp actions a [] steps
      → length steps < fuel
      → uri_for_action actions fuel a (all_captures steps)
        ≡ uri (0x2f ∷ join (all_parts ((a, []) ∷ steps) []))
  unfolding uri_for_action
  uri_for_action-chain fuel a steps chained ends up f = rw chained (
      rw ends (
        ap (λ (l : List Bytes). uri_loop actions fuel a l [])
          (sym (append-nil (all_captures steps)))
        ∙ uri_loop-chain fuel a [] steps [] up f))

  -- An action of a circle captures nothing, and is chained to an action of the circle.
  abbrev IsLinked : List Action → Action → Type 0
  IsLinked circle x =
      CapturesNone x × (y : Action) × (action_named (parent_of x) actions ≡ some y) × Among y circle

  uri_loop-circle :
      (fuel : ℕ) (circle : List Action) (x : Action) (captures parts : List Bytes)
      → All (IsLinked circle) circle
      → Among x circle
      → uri_loop actions fuel x captures parts ≡ out_of_fuel
  unfolding uri_loop
  uri_loop-circle zero circle x captures parts linked at = refl
  uri_loop-circle (suc fuel) circle x captures parts linked at =
      let (none_taken, y, up, at') = Among-All (IsLinked circle) circle x linked at in
      uri_loop-step fuel x y captures parts captures parts
        (take_captures-CapturesNone x captures parts none_taken) up
      ∙ uri_loop-circle fuel circle y captures (prepend_part (path_part x) parts) linked at'

  -- For an end point of a circle of actions, none of which captures anything and each of which is
  -- chained to one of them, the loop of uriForAction never ends.
  pub uri_for_action-circle :
      (fuel : ℕ) (circle : List Action) (a : Action) (captures : List Bytes)
      → contains (codes "Chained") a.attributes ≡ true
      → has_captures a ≡ false
      → Among a circle
      → All (IsLinked circle) circle
      → uri_for_action actions fuel a captures ≡ out_of_fuel
  unfolding uri_for_action
  uri_for_action-circle fuel circle a captures chained ends at linked =
      rw chained (rw ends (uri_loop-circle fuel circle a captures [] linked at))

  -- The actions, from the root on.
  abbrev all_actions : Steps → List Action → List Action
  all_actions [] chain = chain
  all_actions ((a, captures) ∷ steps) chain = all_actions steps (a ∷ chain)

  -- The loop of expandAction gives the chain of an action from the root on.
  expand_loop-chain :
      (fuel : ℕ) (a : Action) (captures : List Bytes) (steps : Steps) (chain : List Action)
      → IsChainUp actions a captures steps
      → length steps < fuel
      → expand_loop actions fuel a chain ≡ some (all_actions ((a, captures) ∷ steps) chain)
  unfolding expand_loop
  expand_loop-chain zero a captures steps chain h f = absurd (omega arith)
  expand_loop-chain (suc fuel) a captures [] chain (h, root, last) f = rw (last, expand_loop) refl
  expand_loop-chain (suc fuel) a captures ((b, more) ∷ steps) chain (h, next, up) f =
      rw (next, expand_loop) (expand_loop-chain fuel b more steps (a ∷ chain) up (omega arith))
