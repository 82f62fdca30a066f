-- ===== src/Dispatch/Paths/Order.antt =====
-- DispatchTypePathPrivate::registerPath keeps the map well formed.
use cutelyst.Common.{
  Bytes, List, [], ◌∷◌, ◌++◌, true, false, not, some, bytes_eq, Option-cases, Bool-cases, inl, inr,
  All, starts_with_byte, codes, Bool, ◌||◌, ◌≡◌, refl, sym, ap, subst, ◌∙◌, arith,
}
use cutelyst.Common.Int.{ℤ, int_eq, int_lt, int_lt_trans, int_lt-or, int_eq_sym, int_lt-ne}
use cutelyst.Dispatch.Actions.{Action, values, with_slash}
use cutelyst.Dispatch.Paths.{
  Replacement, PathMap, find, replace, conflicts, insert_sorted, sort, register_path, register_all,
  register_action, first_path, uri_for_action,
}
use cutelyst.Dispatch.Paths.Laws.{conflicts-eq, action_for-sort, is_none, IsOrdered, IsValid}

-- No two actions have the same number of arguments.
abbrev AreDistinct : List Action → Type 0
AreDistinct [] = Unit
AreDistinct (a ∷ actions) = (conflicts a.number_of_args actions ≡ false) × AreDistinct actions

abbrev Below : Action → List Action → Type 0
Below a actions = All (λ b. int_lt a.number_of_args b.number_of_args ≡ true) actions

Below-insert_sorted :
    (x a : Action) (actions : List Action)
    → int_lt x.number_of_args a.number_of_args ≡ true
    → Below x actions
    → Below x (insert_sorted a actions)
unfolding insert_sorted
Below-insert_sorted x a [] h k = (h, tt)
Below-insert_sorted x a (b ∷ actions) h (kb, k) =
    ground (arith, Below-insert_sorted x a actions h k)

Below-trans :
    (x a : Action) (actions : List Action)
    → int_lt x.number_of_args a.number_of_args ≡ true
    → Below a actions
    → Below x actions
Below-trans x a [] h k = tt
Below-trans x a (b ∷ actions) h (kb, k) = (
  int_lt_trans x.number_of_args a.number_of_args b.number_of_args h kb,
  Below-trans x a actions h k,
)

insert_sorted-IsOrdered :
    (a : Action) (actions : List Action)
    → conflicts a.number_of_args actions ≡ false
    → IsOrdered actions
    → IsOrdered (insert_sorted a actions)
unfolding insert_sorted conflicts
insert_sorted-IsOrdered a [] h o = (tt, tt)
insert_sorted-IsOrdered a (b ∷ actions) h (ob, o) = ground (
  arith,
  insert_sorted-IsOrdered a actions,
  Below-insert_sorted b a actions,
  Below-trans a b actions,
  int_lt-or a.number_of_args b.number_of_args,
)

sort-IsOrdered : (actions : List Action) → AreDistinct actions → IsOrdered (sort actions)
unfolding sort
sort-IsOrdered [] h = tt
sort-IsOrdered (a ∷ actions) (ha, h) =
    insert_sorted-IsOrdered a (sort actions)
      (conflicts-eq a.number_of_args (sort actions)
        ∙ ap (λ o. not (is_none o)) (action_for-sort a.number_of_args actions)
        ∙ sym (conflicts-eq a.number_of_args actions)
        ∙ ha)
      (sort-IsOrdered actions h)

conflicts-Below :
    (x : Action) (actions : List Action)
    → Below x actions
    → conflicts x.number_of_args actions ≡ false
unfolding conflicts
conflicts-Below x [] h = refl
conflicts-Below x (b ∷ actions) (hb, h) =
    ground (arith, conflicts-Below x actions h, int_lt-ne x.number_of_args b.number_of_args)

conflicts-append :
    (n : ℤ) (a : Action) (actions : List Action)
    → conflicts n actions ≡ false
    → int_eq a.number_of_args n ≡ false
    → conflicts n (actions ++ (a ∷ [])) ≡ false
unfolding conflicts
conflicts-append n a [] h k = ground arith
conflicts-append n a (b ∷ actions) h k = ground (arith, conflicts-append n a actions)

AreDistinct-append :
    (a : Action) (actions : List Action)
    → IsOrdered actions
    → conflicts a.number_of_args actions ≡ false
    → AreDistinct (actions ++ (a ∷ []))
unfolding conflicts
AreDistinct-append a [] o h = (refl, tt)
AreDistinct-append a (b ∷ actions) (ob, o) h = (
  conflicts-append b.number_of_args a actions (conflicts-Below b actions ob)
      (ground (arith, int_eq_sym a.number_of_args b.number_of_args)),
  AreDistinct-append a actions o (ground arith),
)

replace-IsValid :
    (path : Bytes) (actions : List Action) (paths : PathMap)
    → IsOrdered actions
    → IsValid paths
    → IsValid (replace path actions paths)
replace-IsValid path actions [] o v = tt
replace-IsValid path actions ((key, entry) ∷ paths) o ((n, s, e), v) =
    ground (arith, replace-IsValid path actions paths o v)

ordered :
    (path : Bytes) (paths : PathMap)
    → IsValid paths
    → (entry : Replacement) → find path paths ≡ some entry
    → IsOrdered entry.actions
ordered path [] v entry e = cc
ordered path ((key, first) ∷ paths) ((n, s, o), v) entry e = elim (Bool-cases (bytes_eq key path)) [
  | inl same ↦ let found : first ≡ entry = ground arith in subst (λ r. IsOrdered r.actions) found o
  | inr other ↦ ordered path paths v entry (ground arith)
]

with_slash_lem : (path : Bytes) → starts_with_byte 0x2f (with_slash path) ≡ true
with_slash_lem [] = refl
with_slash_lem (c ∷ path) = ground arith

-- A registration keeps the map well formed.
pub register_path-IsValid :
    (path : Bytes) (a : Action) (paths : PathMap)
    → IsValid paths
    → IsValid (register_path path a paths).0
unfolding register_path
register_path-IsValid path a paths v = elim (Option-cases (find (with_slash path) paths)) [
  | inl e ↦ rw (e, register_path) ((refl, with_slash_lem path, (tt, tt)), v)
  | inr (entry, e) ↦
      rw (e, register_path)
        (elim (Bool-cases (conflicts a.number_of_args entry.actions)) [
          | inl clash ↦ rw clash v
          | inr free ↦ rw free (
              replace-IsValid (with_slash path) (sort (entry.actions ++ (a ∷ []))) paths
                (sort-IsOrdered (entry.actions ++ (a ∷ [])) (
                  AreDistinct-append a entry.actions (ordered (with_slash path) paths v entry e)
                    free))
                v)
        ])
]

register_all-IsValid :
    (texts : List Bytes) (a : Action) (paths : PathMap) (registered : Bool)
    → IsValid paths
    → IsValid (register_all texts a (paths, registered)).0
unfolding register_all
register_all-IsValid [] a paths registered v = v
register_all-IsValid (path ∷ texts) a paths registered v =
    register_all-IsValid texts a (register_path path a paths).0
      (registered || (register_path path a paths).1) (register_path-IsValid path a paths v)

-- So does registerAction, over every Path attribute of an action.
register_action-IsValid :
    (a : Action) (paths : PathMap) → IsValid paths → IsValid (register_action a paths).0
unfolding register_action
register_action-IsValid a paths v =
    register_all-IsValid (values (codes "Path") a.attributes) a paths false v

first_path-slash :
    (paths : List Bytes) (uri : Bytes)
    → first_path paths ≡ some uri
    → starts_with_byte 0x2f uri ≡ true
first_path-slash [] uri e = cc
first_path-slash (path ∷ paths) uri e =
    let same : with_slash path ≡ uri = cc in
    subst (λ (t : Bytes). starts_with_byte 0x2f t ≡ true) same (with_slash_lem path)

-- The URI of an action begins with a slash.
uri_for_action-slash :
    (a : Action) (uri : Bytes) → uri_for_action a [] ≡ some uri → starts_with_byte 0x2f uri ≡ true
unfolding uri_for_action
uri_for_action-slash a uri e = first_path-slash (values (codes "Path") a.attributes) uri e
