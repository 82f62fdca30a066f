-- ===== src/Dispatch/Prepare.antt =====
-- How the dispatcher tries a path, from all of it down to the root: DispatcherPrivate::prepareAction
-- of Cutelyst/dispatcher.cpp.
pub mod Laws
use cutelyst.Common.{
  ℕ, zero, suc, ◌+◌, ◌==◌, if◌then◌else◌, Bytes, List, [], ◌∷◌, length, take, drop, Bool, true,
  false, none, some, last_index_of,
}
use cutelyst.Dispatch.Actions.{Context, MatchType, exact_match}

-- DispatchType::match of a dispatch type.
abbrev pub Matcher : Type 0
Matcher = Context → Bytes → List Bytes → Context × MatchType

abbrev is_exact : MatchType → Bool
is_exact exact_match = true
is_exact _ = false

-- `any_of` the dispatch types.
pub any_match : List Matcher → Bytes → List Bytes → Context → Context × Bool
any_match [] path args c = (c, false)
any_match (match ∷ dispatchers) path args c =
    let (c', matched) = match c path args in
    let rest = any_match dispatchers path args c' in if is_exact matched then (c', true) else rest

-- `no_slash` is a call of QStringView::truncate(-1), which is out of range.
pub data Outcome : Type 0 where
  prepared : Context → Outcome
  no_slash out_of_fuel : Outcome

-- `if (pos == 0) path.truncate(pos + 1); else path.truncate(pos);`
abbrev pub truncated : ℕ → Bytes → Bytes
truncated zero path = take 1 path
truncated (suc pos) path = take (suc pos) path

pub prepare_loop : ℕ → List Matcher → Bytes → List Bytes → Context → Outcome
unfolding any_match
prepare_loop zero dispatchers path args c = out_of_fuel
prepare_loop (suc fuel) dispatchers path args c =
    let (c', matched) = any_match dispatchers path args c in
    let shorter : Outcome = elim (last_index_of 0x2f path) [
      | none ↦ no_slash
      | some pos ↦
          prepare_loop fuel dispatchers (truncated pos path) (drop (pos + 1) path ∷ args) c'
    ] in
    if matched then prepared c' else if length path == 1 then prepared c' else shorter

pub prepare_action : List Matcher → Context → Bytes → Outcome
unfolding prepare_loop
prepare_action dispatchers c path = prepare_loop (suc (length path)) dispatchers path [] c
