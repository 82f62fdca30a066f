-- ===== src/Dispatch/Tests.antt =====
-- Paths through the dispatch types of Cutelyst/dispatchtypepath.cpp and
-- Cutelyst/dispatchtypechained.cpp and through the dispatcher.
use cutelyst.Common.{
  inr, Bytes, List, [], ◌∷◌, map, Bool, true, false, some, codes, inl, ◌≡◌, refl, arith,
}
use cutelyst.Common.Int.{ℤ, pos, negsuc}
use cutelyst.EngineRequest.{set_path}
use cutelyst.Dispatch.Actions.{Action, Context, exact_match}
use cutelyst.Dispatch.Paths.{Replacement, PathMap, register_path}
use cutelyst.Dispatch.Paths
use cutelyst.Dispatch.Paths.Laws.{action_at, register_path-Inserted, IsValid, match-Refines}
use cutelyst.Dispatch.Paths.Order.{register_path-IsValid}
use cutelyst.Dispatch.Prepare.{prepared, prepare_action}
use cutelyst.Dispatch.Prepare.Laws.{IsPath, levels, prepare_action-levels, prepare_action-set_path}
use cutelyst.Dispatch.Chained.{ChildrenOf, BestActionMatch, recurse_match, try_part}
use cutelyst.Dispatch.Chained.Laws.{Listed, Chain, end_point, link, IsChain, Leaves}
use cutelyst.Dispatch.Chained.Best.{HasParts, recurse_match-IsChain, recurse_match-least}
use cutelyst.Dispatch.Chains.{
  ChainedActions, split, replace_value, check_args_attr, add_action, decoded,
}
use cutelyst.Dispatch.Chains
use cutelyst.Dispatch.Chains.Laws.{match-exact}
use cutelyst.Dispatch.Uris.{uri, out_of_fuel, uri_for_action}
use cutelyst.Dispatch.Uris.Laws.{Steps, uri_for_action-chain, uri_for_action-circle}

abbrev same_text : Bytes → Bytes
same_text s = s

-- An action at a path, with a number of arguments.
abbrev page : ℤ → Action
page n = record {
  name = codes "page";
  ns = [];
  reverse = codes "page";
  attributes = (codes "Path", codes "/page") ∷ [];
  number_of_args = n;
  number_of_captures = negsuc 0;
}

abbrev pages : PathMap
pages =
    (codes "/page", record { name = codes "/page"; actions = page (negsuc 0) ∷ page (pos 1) ∷ [] })
    ∷ []

pages-IsValid : IsValid pages
pages-IsValid = ((refl, refl, ((refl, tt), (tt, tt))), tt)

abbrev new_context : Context
new_context = record { action = []; arguments = []; captures = []; matched = [] }

register_path-Inserted_example :
    (action_at (register_path (codes "page") (page (pos 2)) pages).0 (codes "/page") (pos 2)
      ≡ some (page (pos 2)))
    × ((register_path (codes "page") (page (pos 2)) pages).1 ≡ true)
register_path-Inserted_example =
    register_path-Inserted (codes "page") (page (pos 2)) pages (codes "/page") (pos 2)

register_path-IsValid_example : IsValid (register_path (codes "page") (page (pos 0)) pages).0
register_path-IsValid_example =
    register_path-IsValid (codes "page") (page (pos 0)) pages pages-IsValid

match-Refines_example : Paths.match pages new_context (codes "/page") (codes "7" ∷ []) ≡ (
  record {
    action = page (pos 1) ∷ [];
    arguments = codes "7" ∷ [];
    captures = [];
    matched = codes "/page";
  },
  exact_match,
)
match-Refines_example =
    match-Refines pages new_context (codes "/page") (codes "7" ∷ []) pages-IsValid

abbrev deep_path : List Bytes
deep_path = codes "7" ∷ codes "page" ∷ []

deep_path-IsPath : IsPath deep_path
deep_path-IsPath = omega arith

prepare_action-levels_example :
    prepare_action (Paths.match pages ∷ []) new_context (codes "/page/7")
    ≡ prepared (levels (Paths.match pages ∷ []) deep_path [] new_context)
prepare_action-levels_example =
    prepare_action-levels (Paths.match pages ∷ []) deep_path new_context deep_path-IsPath

prepare_action-set_path_example :
    (c' : Context) × (prepare_action
        (Paths.match pages ∷ [])
        new_context
        (set_path same_text (codes "page//7"))
      ≡ prepared c')
prepare_action-set_path_example =
    prepare_action-set_path (Paths.match pages ∷ []) same_text (codes "page//7") new_context

-- `/shop/*` with a capture, and `/shop/*/item/*` chained to it.
abbrev shop : Action
shop = record {
  name = codes "shop";
  ns = [];
  reverse = codes "shop";
  attributes =
      (codes "Chained", codes "/")
      ∷ (codes "PathPart", codes "shop")
      ∷ (codes "CaptureArgs", codes "1")
      ∷ [];
  number_of_args = negsuc 0;
  number_of_captures = pos 1;
}

abbrev item : Action
item = record {
  name = codes "item";
  ns = [];
  reverse = codes "item";
  attributes =
      (codes "Chained", codes "/shop")
      ∷ (codes "PathPart", codes "item")
      ∷ (codes "Args", codes "1")
      ∷ [];
  number_of_args = pos 1;
  number_of_captures = negsuc 0;
}

abbrev shops : ChildrenOf
shops =
    (codes "/", (codes "shop", shop ∷ []) ∷ [])
    ∷ (codes "/shop", (codes "item", item ∷ []) ∷ [])
    ∷ []

shops-HasParts : HasParts shops
shops-HasParts = omega arith

abbrev shop_parts : List Bytes
shop_parts = codes "shop" ∷ codes "7" ∷ codes "item" ∷ codes "red" ∷ []

shop-Listed : Listed shops (codes "/") (codes "shop") shop
shop-Listed = record {
  children = (codes "shop", shop ∷ []) ∷ [];
  chained = refl;
  listed = inl refl;
}

item-Listed : Listed shops (codes "/shop") (codes "item") item
item-Listed = record {
  children = (codes "item", item ∷ []) ∷ [];
  chained = refl;
  listed = inl refl;
}

shop-Chain :
    Chain shops 0 (codes "/") shop_parts (shop ∷ item ∷ []) (codes "7" ∷ []) (codes "red" ∷ [])
unfolding try_part
shop-Chain =
    link (codes "/") (codes "shop") shop_parts (codes "7" ∷ codes "item" ∷ codes "red" ∷ [])
      (codes "7" ∷ []) (codes "item" ∷ codes "red" ∷ []) shop (item ∷ []) [] (codes "red" ∷ [])
      shop-Listed refl refl refl refl
      (end_point (codes "/shop") (codes "item") (codes "item" ∷ codes "red" ∷ []) item
        (codes "red" ∷ []) item-Listed refl refl refl)

recurse_match-IsChain_example :
    (b : BestActionMatch) × (recurse_match 5 shops 0 (codes "/") shop_parts ≡ some b)
    × IsChain shops 0 (codes "/") shop_parts b
recurse_match-IsChain_example = recurse_match-IsChain shops 0 shops-HasParts (codes "/") shop_parts

recurse_match-least_example :
    (b : BestActionMatch) × (recurse_match 5 shops 0 (codes "/") shop_parts ≡ some b) × Leaves 1 b
recurse_match-least_example =
    recurse_match-least shops 0 shops-HasParts (codes "/") shop_parts (shop ∷ item ∷ [])
      (codes "7" ∷ []) (codes "red" ∷ []) shop-Chain

abbrev shop_matched : Context
shop_matched = record {
  action = shop ∷ item ∷ [];
  arguments = map (decoded same_text same_text) (codes "red" ∷ []);
  captures = codes "7" ∷ [];
  matched = codes "/item";
}

shop-match :
    Chains.match same_text same_text shops new_context (codes "/shop/7/item/red") []
    ≡ some (shop_matched, exact_match)
unfolding Chains.match recurse_match
shop-match = refl

match-exact_example :
    (rest : List Bytes) × Chain shops 0
      (codes "/")
      shop_parts
      shop_matched.action
      shop_matched.captures
      rest
    × (shop_matched.arguments ≡ map (decoded same_text same_text) rest)
match-exact_example =
    match-exact same_text same_text shops shops-HasParts new_context (codes "/shop/7/item/red")
      shop_matched shop-match

-- QString::toInt of a text that is no number.
abbrev not_a_number : Bytes → ℤ × Bool
not_a_number s = (pos 0, false)

abbrev no_actions : ChainedActions
no_actions = record { end_points = []; actions = []; children_of = [] }

abbrev named : List (Bytes × Action)
named = (codes "/shop", shop) ∷ (codes "/item", item) ∷ []

abbrev item_steps : Steps
item_steps = (shop, codes "7" ∷ []) ∷ []

uri_for_action-chain_example :
    uri_for_action named 2 item (codes "7" ∷ []) ≡ uri (codes "/shop/7/item")
uri_for_action-chain_example =
    uri_for_action-chain named 2 item item_steps refl refl (refl, refl, (refl, refl, refl))
      (omega arith)

-- `a` is chained to `b`, an action that captures nothing, and `b` to `a`.
abbrev circle_a : Action
circle_a = record item {
  name = codes "a";
  reverse = codes "a";
  attributes = (codes "Chained", codes "/b") ∷ [];
}

abbrev circle_b : Action
circle_b = record shop {
  name = codes "b";
  reverse = codes "b";
  attributes = (codes "Chained", codes "/a") ∷ (codes "CaptureArgs", codes "0") ∷ [];
  number_of_captures = pos 0;
}

abbrev circle : List (Bytes × Action)
circle = (codes "/a", circle_a) ∷ (codes "/b", circle_b) ∷ []

uri_for_action-circle_example : uri_for_action circle 1000 circle_a [] ≡ out_of_fuel
uri_for_action-circle_example =
    uri_for_action-circle circle 1000 (circle_a ∷ circle_b ∷ []) circle_a [] refl refl (inl refl)
      ((inl refl, circle_b, refl, inr (inl refl)), ((inr refl, circle_a, refl, inl refl), tt))
