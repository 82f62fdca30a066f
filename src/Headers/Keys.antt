-- ===== src/Headers/Keys.antt =====
-- The keys, the removals and the lists of values of Cutelyst/headers.cpp.
use cutelyst.Common.{
  Bytes, List, [], ◌∷◌, ◌++◌, true, false, if◌then◌else◌, same_key, map, ◌≡◌, refl, ◌∙◌, arith,
  Bool-cases, append-nil, append_assoc, inl, inr, ◌||◌,
}
use cutelyst.Headers.{
  Headers, find_header_const, header_or, headers, contains, remove_header, push_header, any_key,
  keys_loop, keys,
}
use cutelyst.Headers.Laws.{same_key_congr, remove_header-other}

-- Two keys that are the same are both in a list, or both not.
any_key_congr : (k j : Bytes) (ks : List Bytes) → same_key k j ≡ true → any_key k ks ≡ any_key j ks
unfolding any_key
any_key_congr k j [] e = refl
any_key_congr k j (x ∷ ks) e = rw (same_key_congr k j x e, any_key_congr k j ks e) refl

any_key-append :
    (k : Bytes) (ks : List Bytes) (j : Bytes)
    → any_key k (ks ++ (j ∷ [])) ≡ (any_key k ks || same_key k j)
unfolding any_key
any_key-append k [] j = ground arith
any_key-append k (x ∷ ks) j = ground (arith, any_key-append k ks j)

contains-nil : (k : Bytes) → contains k [] ≡ false
unfolding contains find_header_const
contains-nil k = refl

contains-cons :
    (k j v : Bytes) (t : Headers) → contains k ((j, v) ∷ t) ≡ (same_key k j || contains k t)
unfolding contains find_header_const
contains-cons k j v t = ground arith

any_key-keys_loop :
    (k : Bytes) (ret : List Bytes) (h : Headers)
    → any_key k (keys_loop ret h) ≡ (any_key k ret || contains k h)
unfolding keys_loop
any_key-keys_loop k ret [] = ground (arith, contains-nil k)
any_key-keys_loop k ret ((j, v) ∷ t) = elim (Bool-cases (any_key j ret)) [
  | inl known ↦
      rw known
        (ground (arith, any_key-keys_loop k ret t, contains-cons k j v t, any_key_congr k j ret))
  | inr new ↦ rw new (
      ground (
        arith,
        any_key-keys_loop k (ret ++ (j ∷ [])) t,
        contains-cons k j v t,
        any_key-append k ret j,
      ))
]

-- keys() has each key of the headers, and no other, up to case.
any_key-keys : (k : Bytes) (h : Headers) → any_key k (keys h) ≡ contains k h
unfolding keys any_key
any_key-keys k h = any_key-keys_loop k [] h

-- No key is the same as one before it.
abbrev pub AreDistinct : List Bytes → List Bytes → Type 0
AreDistinct before [] = Unit
AreDistinct before (k ∷ ks) = (any_key k before ≡ false) × AreDistinct (before ++ (k ∷ [])) ks

AreDistinct-append :
    (before ks : List Bytes) (j : Bytes)
    → AreDistinct before ks
    → any_key j (before ++ ks) ≡ false
    → AreDistinct before (ks ++ (j ∷ []))
AreDistinct-append before [] j d e = (rw append-nil at e, tt)
AreDistinct-append before (k ∷ ks) j (new, d) e =
    (new, AreDistinct-append (before ++ (k ∷ [])) ks j d (rw append_assoc e))

keys_loop-AreDistinct :
    (ret : List Bytes) (h : Headers) → AreDistinct [] ret → AreDistinct [] (keys_loop ret h)
unfolding keys_loop
keys_loop-AreDistinct ret [] d = d
keys_loop-AreDistinct ret ((j, v) ∷ t) d = elim (Bool-cases (any_key j ret)) [
  | inl known ↦ rw known (keys_loop-AreDistinct ret t d)
  | inr new ↦ rw new (keys_loop-AreDistinct (ret ++ (j ∷ [])) t (AreDistinct-append [] ret j d new))
]

-- keys() names no key twice, up to case.
keys-AreDistinct : (h : Headers) → AreDistinct [] (keys h)
unfolding keys
keys-AreDistinct h = keys_loop-AreDistinct [] h tt

remove_header-same :
    (key k d : Bytes) (h : Headers)
    → same_key k key ≡ true
    → header_or k d (remove_header key h) ≡ d
unfolding header_or find_header_const remove_header
remove_header-same key k d [] e = refl
remove_header-same key k d ((j, v) ∷ t) e = elim (Bool-cases (same_key key j)) [
  | inl hit ↦ rw hit (remove_header-same key k d t e)
  | inr miss ↦ rw miss (rw (same_key_congr k key j e ∙ miss) (remove_header-same key k d t e))
]

-- After removeHeader the key reads the default, in any case, and every other key reads what it read
-- before.
header_or-remove_header :
    (key k d : Bytes) (h : Headers)
    → header_or k d (remove_header key h) ≡ (if same_key k key then d else header_or k d h)
header_or-remove_header key k d h = elim (Bool-cases (same_key k key)) [
  | inl same ↦ rw same (remove_header-same key k d h same)
  | inr other ↦ rw other (remove_header-other key k d h other)
]

-- A pushed header is read where the key was not there before; else the first one is, and other keys
-- read what they read before.
header_or-push_header :
    (key value k d : Bytes) (h : Headers)
    → header_or k d (push_header key value h)
      ≡ (if contains k h then header_or k d h else if same_key k key then value else d)
unfolding header_or contains find_header_const push_header
header_or-push_header key value k d [] = ground arith
header_or-push_header key value k d ((j, v) ∷ t) =
    ground (arith, header_or-push_header key value k d t)

-- headers(key) has the value of the first entry with the key, and then the values of all entries
-- behind it, whatever their keys.
headers-append :
    (key j v : Bytes) (front rest : Headers)
    → contains key front ≡ false
    → same_key key j ≡ true
    → headers key (front ++ ((j, v) ∷ rest)) ≡ v ∷ map (λ f. f.1) rest
unfolding headers contains find_header_const
headers-append key j v [] rest miss hit = rw hit refl
headers-append key j v ((k, u) ∷ front) rest miss hit =
    ground (arith, headers-append key j v front rest)
