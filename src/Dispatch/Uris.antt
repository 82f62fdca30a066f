-- ===== src/Dispatch/Uris.antt =====
-- From a chained action to its URI and to its chain: DispatchTypeChained::uriForAction and
-- expandAction of Cutelyst/dispatchtypechained.cpp.
pub mod Laws
use cutelyst.Common.{
  ℕ, zero, suc, ◌-◌, ltb, if◌then◌else◌, Bytes, List, [], ◌∷◌, ◌++◌, length, take, drop, Bool, true,
  false, not, ◌&&◌, Option, none, some, is_empty, bytes_eq, codes,
}
use cutelyst.Common.Int.{ℤ, pos, negsuc}
use cutelyst.Dispatch.Actions.{Action, values, contains}
use cutelyst.Dispatch.Chained.{join, first_value}

-- `d->actions.value(name)`.
abbrev pub action_named : Bytes → List (Bytes × Action) → Option Action
action_named name [] = none
action_named name ((key, a) ∷ actions) =
    if bytes_eq key name then some a else action_named name actions

-- The null string, or a URI.
pub data UriResult : Type 0 where
  null out_of_fuel : UriResult
  uri : Bytes → UriResult

abbrev pub parent_of : Action → Bytes
parent_of a = first_value (values (codes "Chained") a.attributes)

abbrev pub has_captures : Action → Bool
has_captures a = contains (codes "CaptureArgs") a.attributes

-- The captures left and the parts, with the last captures taken; `none` where there are not enough.
-- A negative count takes none.
abbrev pub take_captures : Bool → ℤ → List Bytes → List Bytes → Option (List Bytes × List Bytes)
take_captures false n captures parts = some (captures, parts)
take_captures true (negsuc n) captures parts = some (captures, parts)
take_captures true (pos n) captures parts =
    if ltb (length captures) n
    then none
    else some (take (length captures - n) captures, drop (length captures - n) captures ++ parts)

-- `parts.prepend` of a path part that is not empty.
abbrev pub prepend_part : Bytes → List Bytes → List Bytes
prepend_part [] parts = parts
prepend_part (c ∷ part) parts = (c ∷ part) ∷ parts

-- Behind the loop.
abbrev pub finish_uri : Bytes → List Bytes → List Bytes → UriResult
finish_uri parent captures parts =
    if not (bytes_eq parent (0x2f ∷ []))
    then null
    else if not (is_empty captures)
    then null
    else uri (0x2f ∷ join parts)

module _ (actions : List (Bytes × Action)) where
  pub uri_loop : ℕ → Action → List Bytes → List Bytes → UriResult
  uri_loop zero curr captures parts = out_of_fuel
  uri_loop (suc fuel) curr captures parts =
      elim (take_captures (has_captures curr) curr.number_of_captures captures parts) [
        | none ↦ null
        | some (captures', parts') ↦
            let parts'' =
              prepend_part (first_value (values (codes "PathPart") curr.attributes)) parts' in
            elim (action_named (parent_of curr) actions) [
              | none ↦ finish_uri (parent_of curr) captures' parts''
              | some next ↦ uri_loop fuel next captures' parts''
            ]
      ]

  -- DispatchTypeChained::uriForAction, with the rounds that it may take.
  pub uri_for_action : ℕ → Action → List Bytes → UriResult
  unfolding uri_loop
  uri_for_action fuel a captures =
      if contains (codes "Chained") a.attributes && not (has_captures a)
      then uri_loop fuel a captures []
      else null

  -- The loop of expandAction; `none` is a loop that ran out of fuel.
  pub expand_loop : ℕ → Action → List Action → Option (List Action)
  expand_loop zero curr chain = none
  expand_loop (suc fuel) curr chain = elim (action_named (parent_of curr) actions) [
    | none ↦ some (curr ∷ chain)
    | some next ↦ expand_loop fuel next (curr ∷ chain)
  ]
