-- ===== src/Common/Int.antt =====
-- Signed integers over the native numbers. `negsuc n` is -(n + 1).
use Prim.Native.Nat.{ℕ, ◌+◌, ◌-◌}
use mathlib.Core.Path.{◌≡◌, refl}
use mathlib.Core.Bool.{Bool, true, false}
use native.Mathlib.Omega.{arith}
use cutelyst.Common.Tests.{leb, ltb, ◌==◌, if◌then◌else◌}

pub data ℤ : Type 0 where
  pos : ℕ → ℤ
  negsuc : ℕ → ℤ

-- a - b, as an integer.
abbrev pub sub_ℕ : ℕ → ℕ → ℤ
sub_ℕ a b = if leb b a then pos (a - b) else negsuc (b - a - 1)

abbrev pub int_add : ℤ → ℤ → ℤ
int_add (pos m) (pos n) = pos (m + n)
int_add (pos m) (negsuc n) = sub_ℕ m (n + 1)
int_add (negsuc m) (pos n) = sub_ℕ n (m + 1)
int_add (negsuc m) (negsuc n) = negsuc (m + n + 1)

abbrev pub int_eq : ℤ → ℤ → Bool
int_eq (pos m) (pos n) = m == n
int_eq (pos m) (negsuc n) = false
int_eq (negsuc m) (pos n) = false
int_eq (negsuc m) (negsuc n) = m == n

abbrev pub int_lt : ℤ → ℤ → Bool
int_lt (pos m) (pos n) = ltb m n
int_lt (pos m) (negsuc n) = false
int_lt (negsuc m) (pos n) = true
int_lt (negsuc m) (negsuc n) = ltb n m

pub int_eq→eq : (y z : ℤ) → int_eq y z ≡ true → y ≡ z
int_eq→eq (pos m) (pos n) h = ground arith
int_eq→eq (pos m) (negsuc n) h = cc
int_eq→eq (negsuc m) (pos n) h = cc
int_eq→eq (negsuc m) (negsuc n) h = ground arith

pub int_lt_irrefl : (z : ℤ) → int_lt z z ≡ false
int_lt_irrefl (pos n) = ground arith
int_lt_irrefl (negsuc n) = ground arith

pub int_lt_trans : (x y z : ℤ) → int_lt x y ≡ true → int_lt y z ≡ true → int_lt x z ≡ true
int_lt_trans (pos l) (pos m) (pos n) h k = ground arith
int_lt_trans (pos l) (pos m) (negsuc n) h k = cc
int_lt_trans (pos l) (negsuc m) z h k = cc
int_lt_trans (negsuc l) (pos m) (pos n) h k = refl
int_lt_trans (negsuc l) (pos m) (negsuc n) h k = cc
int_lt_trans (negsuc l) (negsuc m) (pos n) h k = refl
int_lt_trans (negsuc l) (negsuc m) (negsuc n) h k = ground arith

pub int_lt-or : (x y : ℤ) → int_eq y x ≡ false → int_lt y x ≡ false → int_lt x y ≡ true
int_lt-or (pos m) (pos n) h k = ground arith
int_lt-or (pos m) (negsuc n) h k = cc
int_lt-or (negsuc m) (pos n) h k = refl
int_lt-or (negsuc m) (negsuc n) h k = ground arith

pub int_eq_sym : (x y : ℤ) → int_eq x y ≡ int_eq y x
int_eq_sym (pos m) (pos n) = ground arith
int_eq_sym (pos m) (negsuc n) = refl
int_eq_sym (negsuc m) (pos n) = refl
int_eq_sym (negsuc m) (negsuc n) = ground arith

pub int_lt-ne : (x y : ℤ) → int_lt x y ≡ true → int_eq y x ≡ false
int_lt-ne (pos m) (pos n) h = ground arith
int_lt-ne (pos m) (negsuc n) h = cc
int_lt-ne (negsuc m) (pos n) h = refl
int_lt-ne (negsuc m) (negsuc n) h = ground arith
