-- ===== src/Dispatch/Prepare/Laws.antt =====
-- What DispatcherPrivate::prepareAction tries, and that it comes to an end.
use cutelyst.Common.{
  ℕ, zero, suc, ◌+◌, ◌<◌, ◌==◌, if◌then◌else◌, Bytes, List, [], ◌∷◌, ◌++◌, length, take, drop, true,
  false, none, some, All, last_index_of, starts_with_byte, Bool-cases, Option-cases, inl, inr, ◌≡◌,
  ◌≢◌, refl, ap, ap₂, ◌∙◌, arith, length-append, length-take, take-length-append,
}
use cutelyst.EngineRequest.{set_path}
use cutelyst.EngineRequest.Paths.{Leads, Leads-set_path}
use cutelyst.Dispatch.Actions.{Context}
use cutelyst.Dispatch.Prepare.{
  Matcher, any_match, prepared, truncated, prepare_loop, prepare_action,
}

-- The parts of a path, the last part first.
abbrev pub text_of : List Bytes → Bytes
text_of [] = []
text_of (part ∷ parts) = text_of parts ++ (0x2f ∷ part)

abbrev pub path_of : List Bytes → Bytes
path_of [] = 0x2f ∷ []
path_of (part ∷ parts) = text_of (part ∷ parts)

-- Parts have no slash, and the first part is not empty.
abbrev pub IsPath : List Bytes → Type 0
IsPath [] = Unit
IsPath (part ∷ []) = All (λ c. c ≢ 0x2f) part × (0 < length part)
IsPath (part ∷ next ∷ parts) = All (λ c. c ≢ 0x2f) part × IsPath (next ∷ parts)

-- Each path in turn, with the parts behind it as arguments, up to the first exact match.
pub levels : List Matcher → List Bytes → List Bytes → Context → Context
levels dispatchers [] args c = (any_match dispatchers (path_of []) args c).0
levels dispatchers (part ∷ parts) args c =
    let (c', matched) = any_match dispatchers (path_of (part ∷ parts)) args c in
    let rest = levels dispatchers parts (part ∷ args) c' in if matched then c' else rest

last_index_of-none : (part : Bytes) → All (λ c. c ≢ 0x2f) part → last_index_of 0x2f part ≡ none
last_index_of-none [] h = refl
last_index_of-none (c ∷ part) (hc, h) = rw (last_index_of-none part h) (ground arith)

last_index_of-append :
    (text part : Bytes)
    → All (λ c. c ≢ 0x2f) part
    → last_index_of 0x2f (text ++ (0x2f ∷ part)) ≡ some (length text)
last_index_of-append [] part h = rw (last_index_of-none part h)
last_index_of-append (c ∷ text) part h = rw (last_index_of-append text part h)

drop-suc-append : (text part : Bytes) → drop (suc (length text)) (text ++ (0x2f ∷ part)) ≡ part
drop-suc-append [] part = refl
drop-suc-append (c ∷ text) part = drop-suc-append text part

drop_part : (text part : Bytes) → drop (length text + 1) (text ++ (0x2f ∷ part)) ≡ part
drop_part text part =
    let next : length text + 1 ≡ suc (length text) = omega arith in
    ap (λ (n : ℕ). drop n (text ++ (0x2f ∷ part))) next ∙ drop-suc-append text part

truncated-pos : (n : ℕ) (path : Bytes) → 0 < n → truncated n path ≡ take n path
truncated-pos zero path h = absurd (omega arith)
truncated-pos (suc n) path h = refl

truncated-text :
    (parts : List Bytes) (part : Bytes)
    → truncated (length (text_of parts)) (text_of (part ∷ parts)) ≡ path_of parts
truncated-text [] part = refl
truncated-text (next ∷ parts) part =
    truncated-pos (length (text_of (next ∷ parts))) (text_of (part ∷ next ∷ parts))
      (omega (arith, length-append {0} (text_of parts) (0x2f ∷ next)))
    ∙ take-length-append (text_of (next ∷ parts)) (0x2f ∷ part)

IsPath-tail : (part : Bytes) (parts : List Bytes) → IsPath (part ∷ parts) → IsPath parts
IsPath-tail part [] h = tt
IsPath-tail part (next ∷ parts) (h, k) = k

IsPath-head :
    (part : Bytes) (parts : List Bytes)
    → IsPath (part ∷ parts)
    → All (λ c. c ≢ 0x2f) part × (1 < length (path_of (part ∷ parts)))
IsPath-head part [] (h, k) = (h, omega arith)
IsPath-head part (next ∷ parts) (h, k) = (
  h,
  omega (
    arith,
    length-append {0} (text_of parts) (0x2f ∷ next),
    length-append {0} (text_of (next ∷ parts)) (0x2f ∷ part),
  ),
)

shorter :
    (part : Bytes) (parts : List Bytes)
    → IsPath (part ∷ parts)
    → length (path_of parts) < length (path_of (part ∷ parts))
shorter part [] h = omega arith
shorter part (next ∷ parts) h =
    omega (arith, length-append {0} (text_of (next ∷ parts)) (0x2f ∷ part))

last_index_of-lt : (c : ℕ) (s : Bytes) (i : ℕ) → last_index_of c s ≡ some i → i < length s
last_index_of-lt c [] i e = cc
last_index_of-lt c (x ∷ s) i e = elim (Option-cases (last_index_of c s)) [
  | inl n ↦ ground arith
  | inr (k, n) ↦ ground (arith, last_index_of-lt c s k n)
]

last_index_of-slash :
    (path : Bytes) → starts_with_byte 0x2f path ≡ true → last_index_of 0x2f path ≢ none
last_index_of-slash [] h = cc
last_index_of-slash (x ∷ path) h = elim (Option-cases (last_index_of 0x2f path)) [
  | inl n ↦ rw n (ground arith)
  | inr (k, n) ↦ rw n (λ e. cc)
]

starts_with_byte-Leads : (path : Bytes) → Leads path → starts_with_byte 0x2f path ≡ true
starts_with_byte-Leads [] h = absurd h
starts_with_byte-Leads (c ∷ path) h = ground arith

truncated-shorter :
    (pos : ℕ) (path : Bytes)
    → pos < length path
    → (length path == 1) ≡ false
    → starts_with_byte 0x2f path ≡ true
    → (starts_with_byte 0x2f (truncated pos path) ≡ true)
      × (length (truncated pos path) < length path)
truncated-shorter pos [] l m h = cc
truncated-shorter zero (x ∷ path) l m h = ground arith
truncated-shorter (suc pos) (x ∷ path) l m h = (h, omega (arith, length-take {0} pos path))

module _ (dispatchers : List Matcher) where
  prepare_loop-levels :
      (parts : List Bytes) (fuel : ℕ) (args : List Bytes) (c : Context)
      → IsPath parts
      → length (path_of parts) < fuel
      → prepare_loop fuel dispatchers (path_of parts) args c
        ≡ prepared (levels dispatchers parts args c)
  unfolding prepare_loop levels
  prepare_loop-levels parts zero args c h f = absurd (omega arith)
  prepare_loop-levels [] (suc fuel) args c h f = ground arith
  prepare_loop-levels (part ∷ parts) (suc fuel) args c h f =
      let path = path_of (part ∷ parts) in
      let (no_slashes, long) = IsPath-head part parts h in
      let found = last_index_of-append (text_of parts) part no_slashes in
      let more : (length path == 1) ≡ false = ground arith in
      elim (Bool-cases (any_match dispatchers path args c).1) [
        | inl yes_match ↦ rw yes_match refl
        | inr no_match ↦
            rw (no_match, more, found)
              (ap₂
                  (λ (p : Bytes) (a : Bytes).
                    prepare_loop fuel dispatchers p (a ∷ args)
                      (any_match dispatchers path args c).0)
                  (truncated-text parts part) (drop_part (text_of parts) part)
                ∙ prepare_loop-levels parts fuel (part ∷ args) (any_match dispatchers path args c).0
                    (IsPath-tail part parts h) (omega (arith, shorter part parts)))
      ]

  -- The paths are tried from the longest to the root, with the parts left behind as arguments in
  -- their order, up to the first exact match; what a partial match wrote before stays unless a later
  -- match writes over it.
  pub prepare_action-levels :
      (parts : List Bytes) (c : Context)
      → IsPath parts
      → prepare_action dispatchers c (path_of parts) ≡ prepared (levels dispatchers parts [] c)
  unfolding prepare_action
  prepare_action-levels parts c h =
      prepare_loop-levels parts (suc (length (path_of parts))) [] c h (omega arith)

  prepare_loop-ends :
      (fuel : ℕ) (path : Bytes) (args : List Bytes) (c : Context)
      → starts_with_byte 0x2f path ≡ true
      → length path < fuel
      → (c' : Context) × (prepare_loop fuel dispatchers path args c ≡ prepared c')
  unfolding prepare_loop
  prepare_loop-ends zero path args c h f = absurd (omega arith)
  prepare_loop-ends (suc fuel) path args c h f =
      elim (Bool-cases (any_match dispatchers path args c).1) [
        | inl yes_match ↦ ((any_match dispatchers path args c).0, rw yes_match refl)
        | inr no_match ↦ elim (Bool-cases (length path == 1)) [
          | inl root ↦ ((any_match dispatchers path args c).0, rw (no_match, root) refl)
          | inr longer ↦ elim (Option-cases (last_index_of 0x2f path)) [
            | inl none_found ↦ absurd (last_index_of-slash path h none_found)
            | inr (pos, found) ↦
                let (leads, less) =
                  truncated-shorter pos path (last_index_of-lt 0x2f path pos found) longer h in
                let (c', e) =
                  prepare_loop-ends fuel (truncated pos path) (drop (pos + 1) path ∷ args)
                    (any_match dispatchers path args c).0 leads (omega arith) in
                (c', rw (no_match, longer, found) e)
          ]
        ]
      ]

  -- Every path that EngineRequest::setPath leaves is tried down to the root at most: the loop ends
  -- and never truncates a path without a slash.
  pub prepare_action-set_path :
      (from_utf8 : Bytes → Bytes) (raw : Bytes) (c : Context)
      → (c' : Context) × (prepare_action dispatchers c (set_path from_utf8 raw) ≡ prepared c')
  unfolding prepare_action
  prepare_action-set_path from_utf8 raw c =
      let path = set_path from_utf8 raw in
      prepare_loop-ends (suc (length path)) path [] c
        (starts_with_byte-Leads path (Leads-set_path from_utf8 raw)) (omega arith)
