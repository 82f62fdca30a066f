-- ===== src/Dispatch/Chains.antt =====
-- The chained dispatch type around its search: DispatchTypeChained::registerAction and match and
-- DispatchTypeChainedPrivate::checkArgsAttr of Cutelyst/dispatchtypechained.cpp.
pub mod Laws
use cutelyst.Common.{
  ℕ, suc, ltb, ◌==◌, if◌then◌else◌, Bytes, List, [], ◌∷◌, ◌++◌, map, length, drop, Bool, true,
  false, not, ◌&&◌, ◌||◌, Option, none, some, is_empty, bytes_eq, codes, starts_with_byte,
}
use cutelyst.Common.Int.{ℤ, pos, int_lt}
use cutelyst.Utils.{decode_percent_string}
use cutelyst.Dispatch.Actions.{
  Action, Attributes, Context, MatchType, no_match, exact_match, values, contains,
  setup_matched_action,
}
use cutelyst.Dispatch.Chained.{Children, ChildrenOf, BestActionMatch, first_value, recurse_match}

-- DispatchTypeChainedPrivate.
pub record ChainedActions : Type 0 where
  pub end_points : List Action
  pub actions : List (Bytes × Action)
  pub children_of : ChildrenOf

-- `QString::split` at slashes.
abbrev onto_first : ℕ → List Bytes → List Bytes
onto_first c [] = (c ∷ []) ∷ []
onto_first c (part ∷ parts) = (c ∷ part) ∷ parts

abbrev pub split : Bytes → List Bytes
split [] = [] ∷ []
split (c ∷ s) = let parts = split s in if c == 0x2f then [] ∷ parts else onto_first c parts

-- `attributes.replace(key, value)`.
abbrev pub replace_value : Bytes → Bytes → Attributes → Attributes
replace_value key value [] = (key, value) ∷ []
replace_value key value ((k, v) ∷ rest) =
    let later = replace_value key value rest in
    if bytes_eq k key then (k, value) ∷ rest else (k, v) ∷ later

-- `childrenOf[chainedTo][part]`, with the action put first.
abbrev pub add_child : Bytes → Action → Children → Children
add_child part a [] = (part, a ∷ []) ∷ []
add_child part a ((key, actions) ∷ children) =
    let rest = add_child part a children in
    if bytes_eq key part then (key, a ∷ actions) ∷ children else (key, actions) ∷ rest

abbrev pub add_to : Bytes → Bytes → Action → ChildrenOf → ChildrenOf
add_to parent part a [] = (parent, add_child part a []) ∷ []
add_to parent part a ((key, children) ∷ children_of) =
    let rest = add_to parent part a children_of in
    if bytes_eq key parent
    then (key, add_child part a children) ∷ children_of
    else (key, children) ∷ rest

abbrev set_action : Bytes → Action → List (Bytes × Action) → List (Bytes × Action)
set_action name a [] = (name, a) ∷ []
set_action name a ((key, b) ∷ actions) =
    let rest = set_action name a actions in
    if bytes_eq key name then (key, a) ∷ actions else (key, b) ∷ rest

-- `QString::toInt`, with its value and `ok`, is a parameter.
module _ (to_int : Bytes → ℤ × Bool) where
  -- DispatchTypeChainedPrivate::checkArgsAttr.
  pub check_args_attr : Attributes → Bytes → Bool
  check_args_attr attributes name =
      let args = first_value (values name attributes) in
      if not (contains name attributes)
      then true
      else if ltb 1 (length (values name attributes))
      then false
      else if not (is_empty args) && int_lt (to_int args).0 (pos 0) && not (to_int args).1
      then false
      else true

  -- The part of registerAction behind the tests on the attributes: the action is put into the maps
  -- before its counts are checked.
  pub add_action : Bytes → Bytes → Action → ChainedActions → ChainedActions × Bool
  unfolding check_args_attr
  add_action chained_to part a state =
      let attributes = replace_value (codes "PathPart") part a.attributes in
      let a' = record a { attributes = attributes } in
      let state' = record state {
        children_of = add_to chained_to part a' state.children_of;
        actions = set_action (0x2f ∷ a.reverse) a' state.actions;
      } in
      if not (check_args_attr attributes (codes "Args"))
        || not (check_args_attr attributes (codes "CaptureArgs"))
      then (state', false)
      else if contains (codes "Args") attributes && contains (codes "CaptureArgs") attributes
      then (state', false)
      else if contains (codes "CaptureArgs") attributes
      then (state', true)
      else (record state' { end_points = state.end_points ++ (a' ∷ []) }, true)

  -- The path part that the attributes ask for; `none` where there are several.
  abbrev pub part_of : Bytes → List Bytes → Option Bytes
  part_of name [] = some name
  part_of name (part ∷ []) = some (if is_empty part then name else part)
  part_of name (part ∷ next ∷ parts) = none

  abbrev pub with_part : Bytes → Option Bytes → Action → ChainedActions → ChainedActions × Bool
  with_part chained_to none a state = (state, false)
  with_part chained_to (some part) a state =
      if starts_with_byte 0x2f part then (state, false) else add_action chained_to part a state

  abbrev pub chained_by : List Bytes → Action → ChainedActions → ChainedActions × Bool
  chained_by [] a state = (state, false)
  chained_by (chained_to ∷ []) a state =
      if bytes_eq chained_to (0x2f ∷ a.name)
      then (state, false)
      else with_part chained_to (part_of a.name (values (codes "PathPart") a.attributes)) a state
  chained_by (first ∷ next ∷ rest) a state = (state, false)

  -- DispatchTypeChained::registerAction.
  pub register_action : Action → ChainedActions → ChainedActions × Bool
  unfolding add_action
  register_action a state = chained_by (values (codes "Chained") a.attributes) a state

-- The reverse name of an ActionChain: that of its last action.
abbrev pub last_reverse : List Action → Bytes
last_reverse [] = []
last_reverse (a ∷ []) = a.reverse
last_reverse (a ∷ b ∷ actions) = last_reverse (b ∷ actions)

-- QString::fromUtf8 and toLatin1 are parameters.
module _ (from_utf8 to_latin1 : Bytes → Bytes) where
  abbrev pub decoded : Bytes → Bytes
  decoded arg = decode_percent_string from_utf8 to_latin1 arg

  abbrev pub matched_chain : BestActionMatch → Context → Context × MatchType
  matched_chain ret c = if ret.is_null || is_empty ret.actions then (c, no_match) else (
    setup_matched_action ret.actions (record c {
      arguments = map decoded ret.parts;
      captures = ret.captures;
      matched = 0x2f ∷ last_reverse ret.actions;
    }),
    exact_match,
  )

  abbrev pub answered : Option BestActionMatch → Context → Option (Context × MatchType)
  answered none c = none
  answered (some ret) c = some (matched_chain ret c)

  -- DispatchTypeChained::match; `none` is a search that ran out of fuel.
  unfoldable pub match : ChildrenOf → Context → Bytes → List Bytes → Option (Context × MatchType)
  match children_of c path args =
      let parts = split (drop 1 path) in
      if not (is_empty args)
      then some (c, no_match)
      else answered (recurse_match (suc (length parts)) children_of (length args) (0x2f ∷ []) parts)
          c
