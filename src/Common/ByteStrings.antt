-- ===== src/Common/ByteStrings.antt =====
-- Byte strings (QByteArray) as lists of numbers, and the comparisons that the code makes on them.
use Prim.Native.Nat.{ℕ, suc, ◌+◌}
use mathlib.Core.Option.{Option, none, some}
use Prim.Native.Char.{code}
use Prim.Native.String.{String}
use mathlib.Core.Path.{◌≡◌, refl}
use mathlib.Core.Bool.{Bool, true, false, ◌&&◌}
use mathlib.Core.List.{List, [], ◌∷◌, map}
use native.Mathlib.Omega.{arith}
use cutelyst.Common.Tests.{leb, ◌==◌, if◌then◌else◌}

abbrev pub Bytes : Type 0
Bytes = List ℕ

-- The code points of a literal: its bytes, since the literals of the code are ASCII.
abbrev pub codes : String → Bytes
codes String.[] = []
codes (String.◌∷◌ c s) = code c ∷ codes s

-- Equality of byte strings (`compare(…) == 0`).
abbrev pub bytes_eq : Bytes → Bytes → Bool
bytes_eq [] [] = true
bytes_eq [] (y ∷ ys) = false
bytes_eq (x ∷ xs) [] = false
bytes_eq (x ∷ xs) (y ∷ ys) = x == y && bytes_eq xs ys

pub bytes_eq_refl : (xs : Bytes) → bytes_eq xs xs ≡ true
bytes_eq_refl [] = refl
bytes_eq_refl (x ∷ xs) = ground (arith, bytes_eq_refl xs)

pub bytes_eq→eq : (xs ys : Bytes) → bytes_eq xs ys ≡ true → xs ≡ ys
bytes_eq→eq [] [] h = refl
bytes_eq→eq [] (y ∷ ys) h = ground arith
bytes_eq→eq (x ∷ xs) [] h = ground arith
bytes_eq→eq (x ∷ xs) (y ∷ ys) h = ground (arith, bytes_eq→eq xs ys)

-- ASCII case folding, the comparison with `Qt::CaseInsensitive` on byte strings.
abbrev pub lower : ℕ → ℕ
lower c = if leb b'A' c && leb c b'Z' then c + 32 else c

abbrev pub same_key : Bytes → Bytes → Bool
same_key xs ys = bytes_eq (map lower xs) (map lower ys)

-- `startsWith` of one byte.
abbrev pub starts_with_byte : ℕ → Bytes → Bool
starts_with_byte c [] = false
starts_with_byte c (x ∷ xs) = x == c

-- QByteArray::indexOf of one byte; `none` is -1.
abbrev pub index_of : ℕ → Bytes → Option ℕ
index_of c [] = none
index_of c (x ∷ xs) =
    let later : Option ℕ = elim (index_of c xs) [ none ↦ none | some i ↦ some (suc i) ] in
    if x == c then some 0 else later

-- QStringView::lastIndexOf of one code unit.
abbrev pub last_index_of : ℕ → Bytes → Option ℕ
last_index_of c [] = none
last_index_of c (x ∷ xs) = elim (last_index_of c xs) [
  | some i ↦ some (suc i)
  | none ↦ if x == c then some 0 else none
]
