-- ===== src/Multipart/Fields.antt =====
-- The searches of the multipart parser in the texts that it is meant for.
use cutelyst.Common.{
  ℕ, suc, ◌+◌, ◌≤◌, Bytes, [], ◌∷◌, ◌++◌, true, some, length, drop, index_of, All, Option-cases,
  Bool-cases, inl, inr, ◌≡◌, ◌≢◌, refl, arith, take-length-append,
}
use cutelyst.Multipart.{name_of, value_of}
use cutelyst.Multipart.Boundary.{is_prefix, index_in, trimmed}

is_prefix-append : (pre rest : Bytes) → is_prefix pre (pre ++ rest) ≡ true
is_prefix-append [] rest = refl
is_prefix-append (x ∷ pre) rest = ground (arith, is_prefix-append pre rest)

is_prefix-longer :
    (pre text rest : Bytes)
    → length pre ≤ length text
    → is_prefix pre (text ++ rest) ≡ is_prefix pre text
is_prefix-longer [] text rest h = refl
is_prefix-longer (x ∷ pre) [] rest h = absurd (omega arith)
is_prefix-longer (x ∷ pre) (y ∷ text) rest h =
    ground (arith, is_prefix-longer pre text rest (omega arith))

is_prefix-le : (pre text : Bytes) → is_prefix pre text ≡ true → length pre ≤ length text
is_prefix-le [] text h = omega arith
is_prefix-le (x ∷ pre) [] h = cc
is_prefix-le (x ∷ pre) (y ∷ text) h = ground (arith, is_prefix-le pre text)

pub index_in-le :
    (pre text : Bytes) (k : ℕ) → index_in pre text ≡ some k → k + length pre ≤ length text
unfolding index_in
index_in-le [] [] k h = ground arith
index_in-le (x ∷ pre) [] k h = cc
index_in-le pre (y ∷ text) k h = elim (Bool-cases (is_prefix pre (y ∷ text))) [
  | inl e ↦ ground (arith, is_prefix-le pre (y ∷ text) e)
  | inr e ↦ elim (Option-cases (index_in pre text)) [
    | inl n ↦ ground arith
    | inr (i, n) ↦ ground (arith, index_in-le pre text i n)
  ]
]

-- What is found stays found where more bytes follow.
pub index_in-append :
    (pre text rest : Bytes) (k : ℕ)
    → index_in pre text ≡ some k
    → index_in pre (text ++ rest) ≡ some k
unfolding index_in
index_in-append [] [] [] k h = h
index_in-append [] [] (y ∷ rest) k h = h
index_in-append (x ∷ pre) [] rest k h = cc
index_in-append pre (y ∷ text) rest k h =
    let fits = index_in-le pre (y ∷ text) k h in
    let same = is_prefix-longer pre (y ∷ text) rest (omega arith) in
    elim (Option-cases (index_in pre text)) [
      | inl n ↦ ground arith
      | inr (i, n) ↦ ground (arith, index_in-append pre text rest i n)
    ]

pub index_in_self : (pre rest : Bytes) → index_in pre (pre ++ rest) ≡ some 0
unfolding index_in
index_in_self [] [] = refl
index_in_self [] (y ∷ rest) = refl
index_in_self (x ∷ pre) rest = rw (is_prefix-append (x ∷ pre) rest) refl

pub index_of-append :
    (c : ℕ) (text rest : Bytes)
    → All (λ x. x ≢ c) text
    → index_of c (text ++ (c ∷ rest)) ≡ some (length text)
index_of-append c [] rest h = ground arith
index_of-append c (x ∷ text) rest (hx, h) = ground (arith, index_of-append c text rest h)

-- A field of a part, and the line for it.
abbrev pub field_line : Bytes → Bytes → Bytes
field_line key value = key ++ (0x3a ∷ 0x20 ∷ value)

pub name_of-field_line :
    (key value : Bytes) → All (λ c. c ≢ 0x3a) key → name_of (field_line key value) ≡ key
unfolding name_of
name_of-field_line key value h =
    rw (index_of-append 0x3a key (0x20 ∷ value) h, name_of)
      (take-length-append key (0x3a ∷ 0x20 ∷ value))

drop-suc : (key value : Bytes) (c : ℕ) → drop (suc (length key)) (key ++ (c ∷ value)) ≡ value
drop-suc [] value c = refl
drop-suc (x ∷ key) value c = drop-suc key value c

pub value_of-field_line :
    (key value : Bytes) → All (λ c. c ≢ 0x3a) key → value_of (field_line key value) ≡ trimmed value
unfolding value_of
value_of-field_line key value h =
    rw (index_of-append 0x3a key (0x20 ∷ value) h, value_of)
      (rw (drop-suc key (0x20 ∷ value) 0x3a) refl)
