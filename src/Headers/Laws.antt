-- ===== src/Headers/Laws.antt =====
-- Reading back what was set, pushed and removed: Cutelyst/headers.cpp.
use cutelyst.Common.{
  Bytes, [], ◌∷◌, true, false, if◌then◌else◌, same_key, map, bytes_eq, lower, bytes_eq→eq,
  bytes_eq_refl, ◌≡◌, refl, sym, ◌∙◌, ap, arith, Bool-cases, inl, inr,
}
use cutelyst.Headers.{Headers, find_header_const, header_or, remove_header, set_header}

-- Keys that are the same but for case are interchangeable.
same_key→eq : (a b : Bytes) → same_key a b ≡ true → map lower a ≡ map lower b
same_key→eq a b h = bytes_eq→eq (map lower a) (map lower b) h

pub same_key_refl : (a : Bytes) → same_key a a ≡ true
same_key_refl a = bytes_eq_refl (map lower a)

-- Comparing with either gives the same answer.
pub same_key_congr : (a b c : Bytes) → same_key a b ≡ true → same_key a c ≡ same_key b c
same_key_congr a b c h = ap (λ x. bytes_eq x (map lower c)) (same_key→eq a b h)

same_key_congr_right : (a b c : Bytes) → same_key b c ≡ true → same_key a b ≡ same_key a c
same_key_congr_right a b c h = ap (λ x. bytes_eq (map lower a) x) (same_key→eq b c h)

pub remove_header-other :
    (key k d : Bytes) (h : Headers)
    → same_key k key ≡ false
    → header_or k d (remove_header key h) ≡ header_or k d h
unfolding header_or find_header_const remove_header
remove_header-other key k d [] e = refl
remove_header-other key k d ((j, v) ∷ t) e = elim (Bool-cases (same_key key j)) [
  | inl hit ↦
      let miss : same_key k j ≡ false = sym (same_key_congr_right k key j hit) ∙ e in
      rw hit (rw miss (remove_header-other key k d t e))
  | inr other ↦ elim (Bool-cases (same_key k j)) [
    | inl hit ↦ rw other (rw hit refl)
    | inr miss ↦ rw other (rw miss (remove_header-other key k d t e))
  ]
]

-- One key is not the same as another that differs from what the first is compared with.
apart : (k key j : Bytes) → same_key k j ≡ true → same_key key j ≡ false → same_key k key ≡ false
apart k key j hit other = elim (Bool-cases (same_key k key)) [
  | inl same ↦ ground (arith, same_key_congr k key j same)
  | inr miss ↦ miss
]

-- After setHeader, a key that differs from the one set in case only, or not at all, reads the
-- value; every other key reads what it read before, whatever its default.
pub header_or-set_header :
    (key value k d : Bytes) (h : Headers)
    → header_or k d (set_header key value h) ≡ (if same_key k key then value else header_or k d h)
unfolding header_or find_header_const set_header
header_or-set_header key value k d [] = elim (Bool-cases (same_key k key)) [
  | inl hit ↦ rw hit refl
  | inr miss ↦ rw miss refl
]
header_or-set_header key value k d ((j, v) ∷ t) = elim (Bool-cases (same_key key j)) [
  | inl same ↦ elim (Bool-cases (same_key k key)) [
    | inl hit ↦ rw same (rw hit (rw (sym (same_key_congr_right k key j same) ∙ hit) refl))
    | inr miss ↦ rw same (
        rw miss (
          rw (sym (same_key_congr_right k key j same) ∙ miss) (remove_header-other key k d t miss)))
  ]
  | inr other ↦ elim (Bool-cases (same_key k j)) [
    | inl hit ↦ rw other (rw hit (rw (apart k key j hit other) refl))
    | inr miss ↦ rw other (rw miss (header_or-set_header key value k d t))
  ]
]
