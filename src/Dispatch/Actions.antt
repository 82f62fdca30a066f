-- ===== src/Dispatch/Actions.antt =====
-- Actions (Cutelyst/action.cpp), what a match writes into the context
-- (DispatchType::setupMatchedAction, Request::setArguments, setMatch and setCaptures), and texts that
-- begin with a slash. Texts are lists of code units.
use cutelyst.Common.{◌==◌, if◌then◌else◌, Bytes, List, [], ◌∷◌, Bool, false, ◌||◌, bytes_eq}
use cutelyst.Common.Int.{ℤ}

-- ParamsMultiMap, in the order in which `values` gives the values of a key.
abbrev pub Attributes : Type 0
Attributes = List (Bytes × Bytes)

-- The members of ActionPrivate; the counts are of type qint8.
pub record Action : Type 0 where
  pub name : Bytes
  pub ns : Bytes
  pub reverse : Bytes
  pub attributes : Attributes
  pub number_of_args : ℤ
  pub number_of_captures : ℤ

-- The context's action is the list of the chained actions, or the only one.
pub record Context : Type 0 where
  pub action : List Action
  pub arguments : List Bytes
  pub captures : List Bytes
  pub matched : Bytes

pub data MatchType : Type 0 where
  no_match partial_match exact_match : MatchType

abbrev pub values : Bytes → Attributes → List Bytes
values key [] = []
values key ((k, v) ∷ rest) = let more = values key rest in if bytes_eq k key then v ∷ more else more

abbrev pub contains : Bytes → Attributes → Bool
contains key [] = false
contains key ((k, v) ∷ rest) = bytes_eq k key || contains key rest

-- The path with a slash before it.
abbrev pub with_slash : Bytes → Bytes
with_slash [] = 0x2f ∷ []
with_slash (c ∷ path) = if c == 0x2f then c ∷ path else 0x2f ∷ c ∷ path

abbrev pub setup_matched_action : List Action → Context → Context
setup_matched_action actions c = record c { action = actions }
