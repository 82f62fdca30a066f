-- ===== src/Dispatch/Paths/Laws.antt =====
-- DispatchTypePath keeps a map from a path and a number of arguments to an action, and a match looks
-- the action up in it.
use cutelyst.Common.{
  if◌then◌else◌, Bytes, List, [], ◌∷◌, ◌++◌, length, Bool, true, false, not, ◌&&◌, Option, none,
  some, is_empty, bytes_eq, bytes_eq_refl, bytes_eq→eq, Option-cases, inl, inr, All,
  starts_with_byte, ◌≡◌, refl, ap, ◌∙◌, arith,
}
use cutelyst.Common.Int.{ℤ, pos, negsuc, int_eq, int_lt, int_eq→eq, int_lt_irrefl}
use cutelyst.Dispatch.Actions.{
  Action, Context, MatchType, no_match, partial_match, exact_match, with_slash,
}
use cutelyst.Dispatch.Paths.{
  Replacement, PathMap, find, replace, conflicts, insert_sorted, sort, register_path, setup_match,
  match_loop, match,
}

-- The action for a number of arguments.
abbrev pub action_for : ℤ → List Action → Option Action
action_for n [] = none
action_for n (action ∷ actions) =
    if int_eq action.number_of_args n then some action else action_for n actions

abbrev pub actions_of : Option Replacement → List Action
actions_of none = []
actions_of (some entry) = entry.actions

-- The abstract view: the action at a path for a number of arguments.
abbrev pub action_at : PathMap → Bytes → ℤ → Option Action
action_at paths path n = action_for n (actions_of (find path paths))

abbrev pub or_else : Option Action → Option Action → Option Action
or_else none b = b
or_else (some a) b = some a

abbrev pub is_none : Option Action → Bool
is_none none = true
is_none (some a) = false

abbrev is_entry : Option Replacement → Bool
is_entry none = false
is_entry (some entry) = true

action_for-insert_sorted :
    (n : ℤ) (a : Action) (actions : List Action)
    → action_for n (insert_sorted a actions)
      ≡ (if int_eq a.number_of_args n then some a else action_for n actions)
unfolding insert_sorted
action_for-insert_sorted n a [] = refl
action_for-insert_sorted n a (b ∷ actions) = ground (
  arith,
  action_for-insert_sorted n a actions,
  int_eq→eq a.number_of_args n,
  int_eq→eq b.number_of_args n,
  int_lt_irrefl n,
)

pub action_for-sort :
    (n : ℤ) (actions : List Action) → action_for n (sort actions) ≡ action_for n actions
unfolding sort
action_for-sort n [] = refl
action_for-sort n (a ∷ actions) =
    action_for-insert_sorted n a (sort actions)
    ∙ ap (λ (o : Option Action). if int_eq a.number_of_args n then some a else o)
        (action_for-sort n actions)

action_for-append :
    (n : ℤ) (a : Action) (actions : List Action)
    → action_for n (actions ++ (a ∷ [])) ≡ or_else (action_for n actions) (action_for n (a ∷ []))
action_for-append n a [] = refl
action_for-append n a (b ∷ actions) = ground (arith, action_for-append n a actions)

pub conflicts-eq :
    (n : ℤ) (actions : List Action) → conflicts n actions ≡ not (is_none (action_for n actions))
unfolding conflicts
conflicts-eq n [] = refl
conflicts-eq n (b ∷ actions) = ground (arith, conflicts-eq n actions)

find-replace :
    (key path : Bytes) (actions : List Action) (paths : PathMap)
    → actions_of (find key (replace path actions paths)) ≡ (
        if bytes_eq path key && is_entry (find path paths)
        then actions
        else actions_of (find key paths))
find-replace key path actions [] = ground arith
find-replace key path actions ((k, entry) ∷ paths) = ground (
  arith,
  find-replace key path actions paths,
  bytes_eq→eq path key,
  bytes_eq→eq k path,
  bytes_eq→eq k key,
  bytes_eq_refl k,
  bytes_eq_refl path,
)

-- The first registration for a path and a number of arguments stays; nothing else changes.
pub register_path-Inserted :
    (path : Bytes) (a : Action) (paths : PathMap) (key : Bytes) (n : ℤ)
    → (action_at (register_path path a paths).0 key n ≡ (
        if bytes_eq (with_slash path) key && int_eq a.number_of_args n
        then or_else (action_at paths key n) (some a)
        else action_at paths key n))
      × ((register_path path a paths).1
          ≡ is_none (action_at paths (with_slash path) a.number_of_args))
unfolding register_path
register_path-Inserted path a paths key n = elim (Option-cases (find (with_slash path) paths)) [
  | inl e ↦ rw e (ground (arith, bytes_eq→eq (with_slash path) key))
  | inr (entry, e) ↦
      rw (e, register_path)
        (ground (
          arith,
          conflicts-eq a.number_of_args entry.actions,
          find-replace key (with_slash path) (sort (entry.actions ++ (a ∷ []))) paths,
          action_for-sort n (entry.actions ++ (a ∷ [])),
          action_for-append n a entry.actions,
          int_eq→eq a.number_of_args n,
          bytes_eq→eq (with_slash path) key,
        ))
]

-- What a match does, by the actions for the number of arguments and for any number.
abbrev pub matched_by :
    Option Action → Option Action → List Bytes → Bytes → Context × MatchType → Context × MatchType
matched_by (some a) any args path (c, ret) = (setup_match args path a c, exact_match)
matched_by none (some a) args path (c, ret) =
    if is_empty c.action then (setup_match args path a c, partial_match) else (c, ret)
matched_by none none args path (c, ret) = (c, ret)

match_loop_lem :
    (args : List Bytes) (path : Bytes) (actions : List Action) (c : Context) (ret : MatchType)
    → match_loop args path actions (c, ret)
      ≡ matched_by
          (action_for (pos (length args)) actions)
          (action_for (negsuc 0) actions)
          args
          path
          (c, ret)
unfolding match_loop
match_loop_lem args path [] c ret = refl
match_loop_lem args path (a ∷ actions) c ret = ground (
  arith,
  match_loop_lem args path actions c ret,
  match_loop_lem args path actions (setup_match args path a c) partial_match,
  int_eq→eq a.number_of_args (pos (length args)),
  int_eq→eq a.number_of_args (negsuc 0),
)

-- Every entry carries its key, which begins with a slash, and has its actions in the order of their
-- numbers of arguments, none twice.
abbrev pub IsOrdered : List Action → Type 0
IsOrdered [] = Unit
IsOrdered (a ∷ actions) =
    All (λ b. int_lt a.number_of_args b.number_of_args ≡ true) actions × IsOrdered actions

abbrev pub IsEntry : Bytes × Replacement → Type 0
IsEntry (key, entry) =
    (entry.name ≡ key) × (starts_with_byte 0x2f key ≡ true) × IsOrdered entry.actions

abbrev pub IsValid : PathMap → Type 0
IsValid paths = All IsEntry paths

named :
    (path : Bytes) (paths : PathMap)
    → IsValid paths
    → (entry : Replacement) → find path paths ≡ some entry
    → entry.name ≡ path
named path [] v entry e = cc
named path ((key, first) ∷ paths) (v, rest) entry e =
    ground (arith, bytes_eq→eq key path, named path paths rest entry)

-- A match looks the path and the number of arguments up.
pub match-Refines :
    (paths : PathMap) (c : Context) (path : Bytes) (args : List Bytes)
    → IsValid paths
    → match paths c path args
      ≡ matched_by
          (action_at paths path (pos (length args)))
          (action_at paths path (negsuc 0))
          args
          path
          (c, no_match)
unfolding match
match-Refines paths c path args v = elim (Option-cases (find path paths)) [
  | inl e ↦ rw (e, match) refl
  | inr (entry, e) ↦
      rw (e, match)
        (match_loop_lem args entry.name entry.actions c no_match
          ∙ ap
              (λ (name : Bytes).
                matched_by (action_for (pos (length args)) entry.actions)
                  (action_for (negsuc 0) entry.actions) args name (c, no_match))
              (named path paths v entry e))
]
