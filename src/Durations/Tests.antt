-- ===== src/Durations/Tests.antt =====
-- Durations through Utils::durationFromString (Cutelyst/utils.cpp).
use cutelyst.Common.{ℕ, ◌+◌, ◌-◌, ◌*◌, ◌≡◌, refl, Bytes, List, [], ◌∷◌, codes, Option, some}
use cutelyst.Durations.{
  take_char, char_loop, split_parts, unit_length, lasts, overflow, sum_parts, duration_from_string,
}

-- The number that the digits spell.
abbrev spelled : ℕ → Bytes → ℕ
spelled n [] = n
spelled n (d ∷ ds) = spelled (n * 10 + (d - 0x30)) ds

abbrev to_number : Bytes → Option ℕ
to_number ds = some (spelled 0 ds)

hour_and_half : duration_from_string to_number (codes "1h 30min") ≡ lasts 5400000000
unfolding duration_from_string split_parts char_loop take_char sum_parts unit_length
hour_and_half = refl

abbrev two_parts : List (Bytes × Bytes)
two_parts = (codes "1", codes "h") ∷ (codes "30", codes "min") ∷ []

too_long : duration_from_string to_number (codes "300000y") ≡ overflow
unfolding duration_from_string split_parts char_loop take_char sum_parts unit_length
too_long = refl
