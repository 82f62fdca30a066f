-- ===== src/Dispatch/Paths.antt =====
-- Actions found by their path: Cutelyst/dispatchtypepath.cpp, DispatchTypePath and
-- DispatchTypePathPrivate.
pub mod Laws
pub mod Order
use cutelyst.Common.{
  if◌then◌else◌, Bytes, List, [], ◌∷◌, ◌++◌, length, Bool, true, false, not, ◌&&◌, ◌||◌, Option,
  none, some, is_empty, bytes_eq, codes,
}
use cutelyst.Common.Int.{ℤ, pos, negsuc, int_eq, int_lt}
use cutelyst.Dispatch.Actions.{
  Action, Context, MatchType, no_match, partial_match, exact_match, values, with_slash,
  setup_matched_action,
}

-- DispatchTypePathReplacement.
pub record Replacement : Type 0 where
  pub name : Bytes
  pub actions : List Action

-- The QHash `paths`.
abbrev pub PathMap : Type 0
PathMap = List (Bytes × Replacement)

abbrev pub find : Bytes → PathMap → Option Replacement
find path [] = none
find path ((key, entry) ∷ paths) = if bytes_eq key path then some entry else find path paths

-- `it->actions = actions` at the key that was found.
abbrev pub replace : Bytes → List Action → PathMap → PathMap
replace path actions [] = []
replace path actions ((key, entry) ∷ paths) =
    let rest = replace path actions paths in
    if bytes_eq key path
    then (key, record entry { actions = actions }) ∷ paths
    else (key, entry) ∷ rest

-- `any_of` the actions, the number of arguments being the same.
pub conflicts : ℤ → List Action → Bool
conflicts n [] = false
conflicts n (action ∷ actions) = int_eq action.number_of_args n || conflicts n actions

-- std::ranges::sort by the number of arguments, which differ.
pub insert_sorted : Action → List Action → List Action
insert_sorted action [] = action ∷ []
insert_sorted action (first ∷ actions) =
    let rest = insert_sorted action actions in
    if int_lt first.number_of_args action.number_of_args
    then first ∷ rest
    else action ∷ first ∷ actions

pub sort : List Action → List Action
unfolding insert_sorted
sort [] = []
sort (action ∷ actions) = insert_sorted action (sort actions)

-- DispatchTypePathPrivate::registerPath, with the map behind it and its result.
pub register_path : Bytes → Action → PathMap → PathMap × Bool
unfolding conflicts sort
register_path path action paths =
    let key = with_slash path in
    elim (find key paths) [
      | none ↦ ((key, record { name = key; actions = action ∷ [] }) ∷ paths, true)
      | some entry ↦
          if conflicts action.number_of_args entry.actions
          then (paths, false)
          else (replace key (sort (entry.actions ++ (action ∷ []))) paths, true)
    ]

pub register_all : List Bytes → Action → PathMap × Bool → PathMap × Bool
unfolding register_path
register_all [] action r = r
register_all (path ∷ rest) action (paths, registered) =
    let (paths', done) = register_path path action paths in
    register_all rest action (paths', registered || done)

-- DispatchTypePath::registerAction.
pub register_action : Action → PathMap → PathMap × Bool
unfolding register_all
register_action action paths =
    register_all (values (codes "Path") action.attributes) action (paths, false)

-- What the loop of `match` writes for an action that fits.
abbrev pub setup_match : List Bytes → Bytes → Action → Context → Context
setup_match args name action c =
    setup_matched_action (action ∷ []) (record c { arguments = args; matched = name })

pub match_loop : List Bytes → Bytes → List Action → Context × MatchType → Context × MatchType
match_loop args name [] r = r
match_loop args name (action ∷ actions) (c, ret) =
    let slurps = int_eq action.number_of_args (negsuc 0) && is_empty c.action in
    let rest =
      match_loop args name actions
        (if slurps then (setup_match args name action c, partial_match) else (c, ret)) in
    if int_eq action.number_of_args (pos (length args))
    then (setup_match args name action c, exact_match)
    else rest

-- DispatchTypePath::match.
pub match : PathMap → Context → Bytes → List Bytes → Context × MatchType
unfolding match_loop
match paths c path args = elim (find path paths) [
  | none ↦ (c, no_match)
  | some entry ↦ match_loop args entry.name entry.actions (c, no_match)
]

-- DispatchTypePath::inUse.
abbrev in_use : PathMap → Bool
in_use paths = not (is_empty paths)

abbrev pub first_path : List Bytes → Option Bytes
first_path [] = none
first_path (path ∷ paths) = some (with_slash path)

-- DispatchTypePath::uriForAction; `none` is the null string.
pub uri_for_action : Action → List Bytes → Option Bytes
uri_for_action action captures =
    if is_empty captures then first_path (values (codes "Path") action.attributes) else none
