-- ===== src/Dispatch/Chained.antt =====
-- Chained actions: Cutelyst/dispatchtypechained.cpp, DispatchTypeChainedPrivate::recurseMatch and
-- DispatchTypeChained::match.
pub mod Laws
pub mod Search
pub mod Loops
pub mod Best
use cutelyst.Common.{
  ℕ, zero, suc, ◌+◌, ltb, ◌==◌, if◌then◌else◌, Bytes, List, [], ◌∷◌, ◌++◌, length, take, drop, Bool,
  true, false, not, ◌&&◌, ◌||◌, Option, none, some, is_empty, bytes_eq, codes,
}
use cutelyst.Common.Int.{ℤ, pos, negsuc, int_eq}
use cutelyst.Dispatch.Actions.{Action, values, contains}

-- The actions chained to an action, by their path part.
abbrev pub Children : Type 0
Children = List (Bytes × List Action)

-- `childrenOf`, in the order in which the hash is read.
abbrev pub ChildrenOf : Type 0
ChildrenOf = List (Bytes × Children)

pub record BestActionMatch : Type 0 where
  pub actions : List Action
  pub captures : List Bytes
  pub parts : List Bytes
  pub n_path_parts : ℕ
  pub is_null : Bool

abbrev pub no_action : BestActionMatch
no_action = record { actions = []; captures = []; parts = []; n_path_parts = 0; is_null = true }

abbrev pub children_at : Bytes → ChildrenOf → Option Children
children_at parent [] = none
children_at parent ((key, children) ∷ rest) =
    if bytes_eq key parent then some children else children_at parent rest

-- `children.value(tryPart)`.
abbrev pub actions_at : Bytes → Children → List Action
actions_at part [] = []
actions_at part ((key, actions) ∷ rest) =
    if bytes_eq key part then actions else actions_at part rest

-- The keys, the longest first.
pub insert_key : Bytes → List Bytes → List Bytes
insert_key key [] = key ∷ []
insert_key key (first ∷ keys) =
    let rest = insert_key key keys in
    if ltb (length key) (length first) then first ∷ rest else key ∷ first ∷ keys

pub sort_keys : Children → List Bytes
unfolding insert_key
sort_keys [] = []
sort_keys ((key, actions) ∷ children) = insert_key key (sort_keys children)

abbrev pub count_slashes : Bytes → ℕ
count_slashes [] = 0
count_slashes (c ∷ s) = (if c == 0x2f then 1 else 0) + count_slashes s

abbrev pub join : List Bytes → Bytes
join [] = []
join (part ∷ []) = part
join (part ∷ next ∷ parts) = part ++ (0x2f ∷ join (next ∷ parts))

-- What is left of the parts behind the path part of an action; `none` is `continue`.
unfoldable pub try_part : Bytes → List Bytes → Option (List Bytes)
try_part [] parts = some parts
try_part (c ∷ part) parts =
    let count = count_slashes (c ∷ part) + 1 in
    if bytes_eq (c ∷ part) (join (take count parts)) then some (drop count parts) else none

abbrev is_any : ℤ → Bool
is_any n = int_eq n (negsuc 0)

-- Action::match and Action::matchCaptures.
abbrev pub action_matches : ℕ → Action → Bool
action_matches n a = is_any a.number_of_args || int_eq a.number_of_args (pos n)

abbrev pub match_captures : ℕ → Action → Bool
match_captures n a = is_any a.number_of_captures || int_eq a.number_of_captures (pos n)

-- `parts.mid(0, captureCount)` and `parts.mid(captureCount)`, both of which are all of the parts for
-- a negative count; `none` where there are too few parts.
abbrev pub strip_captures : ℤ → List Bytes → Option (List Bytes × List Bytes)
strip_captures (pos n) parts =
    if ltb (length parts) n then none else some (take n parts, drop n parts)
strip_captures (negsuc n) parts = some (parts, parts)

abbrev pub path_parts : Action → ℕ
path_parts a = elim (values (codes "PathPart") a.attributes) [
  | [] ↦ 1
  | part ∷ _ ↦ count_slashes part + 1
]

abbrev pub first_value : List Bytes → Bytes
first_value [] = []
first_value (v ∷ _) = v

-- The best match behind an action with captures, given what its children matched.
pub take_link : Action → List Bytes → BestActionMatch → BestActionMatch → BestActionMatch
take_link a captures ret best =
    if not (is_empty ret.actions)
      && (best.is_null
          || ltb (length ret.parts) (length best.parts)
          || (length ret.parts == length best.parts)
            && ltb (length ret.captures) (length best.captures)
            && ltb best.n_path_parts ret.n_path_parts)
    then record {
      actions = a ∷ ret.actions;
      captures = captures ++ ret.captures;
      parts = ret.parts;
      n_path_parts = path_parts a + ret.n_path_parts;
      is_null = false;
    }
    else best

-- The best match behind an action without captures.
pub take_end_point : ℕ → Action → List Bytes → BestActionMatch → BestActionMatch
take_end_point req_args_size a parts best =
    if not (action_matches (req_args_size + length parts) a)
    then best
    else if best.is_null
        || ltb (length parts) (length best.parts)
        || is_empty parts
          && not (is_empty (first_value (values (codes "Args") a.attributes)))
          && int_eq a.number_of_args (pos 0)
    then record {
      actions = a ∷ [];
      captures = [];
      parts = parts;
      n_path_parts = path_parts a;
      is_null = false;
    }
    else best

abbrev pub Matching : Type 0
Matching = Bytes → List Bytes → Option BestActionMatch

-- The best match behind the children's answer; `none` is a recursion that ran out of fuel.
abbrev pub linked :
    Action → List Bytes → Option BestActionMatch → BestActionMatch → Option BestActionMatch
linked a captures none best = none
linked a captures (some ret) best = some (take_link a captures ret best)

-- A round of the loop over the actions; `matching` is the recursive call.
abbrev pub stripped :
    Matching → Action → Option (List Bytes × List Bytes) → BestActionMatch → Option BestActionMatch
stripped matching a none best = some best
stripped matching a (some (captures, local)) best =
    if match_captures (length captures) a
    then linked a captures (matching (0x2f ∷ a.reverse) local) best
    else some best

pub try_action : ℕ → Matching → List Bytes → Action → BestActionMatch → Option BestActionMatch
unfolding take_link take_end_point
try_action req_args_size matching parts a best =
    if contains (codes "CaptureArgs") a.attributes
    then stripped matching a (strip_captures a.number_of_captures parts) best
    else some (take_end_point req_args_size a parts best)

abbrev pub bind :
    Option BestActionMatch → (BestActionMatch → Option BestActionMatch) → Option BestActionMatch
bind none f = none
bind (some best) f = f best

pub try_actions : ℕ → Matching → List Bytes → List Action → BestActionMatch → Option BestActionMatch
unfolding try_action
try_actions req_args_size matching parts [] best = some best
try_actions req_args_size matching parts (a ∷ actions) best =
    bind (try_action req_args_size matching parts a best)
      (try_actions req_args_size matching parts actions)

abbrev pub tried :
    ℕ → Matching → Option (List Bytes) → List Action → BestActionMatch → Option BestActionMatch
tried req_args_size matching none actions best = some best
tried req_args_size matching (some parts) actions best =
    try_actions req_args_size matching parts actions best

-- The loop over the path parts.
pub try_keys :
    ℕ → Matching → Children → List Bytes → List Bytes → BestActionMatch → Option BestActionMatch
unfolding try_actions try_part
try_keys req_args_size matching children parts [] best = some best
try_keys req_args_size matching children parts (key ∷ keys) best =
    bind (tried req_args_size matching (try_part key parts) (actions_at key children) best)
      (try_keys req_args_size matching children parts keys)

-- DispatchTypeChainedPrivate::recurseMatch.
unfoldable pub recurse_match : ℕ → ChildrenOf → ℕ → Bytes → List Bytes → Option BestActionMatch
unfolding try_keys sort_keys
recurse_match zero children_of req_args_size parent parts = none
recurse_match (suc fuel) children_of req_args_size parent parts =
    elim (children_at parent children_of) [
      | none ↦ some no_action
      | some children ↦
          try_keys req_args_size (recurse_match fuel children_of req_args_size) children parts
            (sort_keys children) no_action
    ]
