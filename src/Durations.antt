-- ===== src/Durations.antt =====
-- Durations such as "1h 30min": Cutelyst/utils.cpp, Utils::durationFromString. The sum is a
-- number of microseconds in an int64, whose overflow is a result of its own.
pub mod Laws
pub mod Sums
mod Tests
use cutelyst.Common.{
  ℕ, ◌+◌, ◌*◌, ltb, leb, ◌==◌, if◌then◌else◌, Bytes, List, [], ◌∷◌, ◌++◌, Bool, not, ◌&&◌, ◌||◌,
  is_empty, Option, none, some, codes, bytes_eq,
}

-- The variables of the loop over the characters.
pub record Parts : Type 0 where
  pub parts : List (Bytes × Bytes)
  pub digit_part : Bytes
  pub unit_part : Bytes

abbrev pub is_digit : ℕ → Bool
is_digit c = leb 0x30 c && leb c 0x39

abbrev pub is_unit : ℕ → Bool
is_unit c = (leb 0x61 c && leb c 0x7a) || c == 0x4d

abbrev more_digits : ℕ → Parts → Parts
more_digits c s = record s { digit_part = s.digit_part ++ (c ∷ []) }

-- A round; `none` is the break with `valid = false`.
pub take_char : ℕ → Parts → Option Parts
take_char c s =
    let no_digits = is_empty s.digit_part in
    let no_unit = is_empty s.unit_part in
    if is_digit c
    then (if no_digits && no_unit
        then some (more_digits c s)
        else if no_digits && not no_unit
        then none
        else if not no_digits && no_unit
        then some (more_digits c s)
        else some (record {
          parts = s.parts ++ ((s.digit_part, s.unit_part) ∷ []);
          digit_part = c ∷ [];
          unit_part = [];
        }))
    else if is_unit c
    then (if no_digits then none else some (record s { unit_part = s.unit_part ++ (c ∷ []) }))
    else some s

-- The next rounds, unless there was a break.
abbrev pub unless_broken : Option Parts → (Parts → Option Parts) → Option Parts
unless_broken none next_rounds = none
unless_broken (some s) next_rounds = next_rounds s

pub char_loop : Bytes → Parts → Option Parts
char_loop [] s = some s
char_loop (c ∷ str) s = unless_broken (take_char c s) (char_loop str)

-- The part that is open behind the loop is added.
abbrev close_part : Parts → List (Bytes × Bytes)
close_part s =
    if is_empty s.digit_part then s.parts else s.parts ++ ((s.digit_part, s.unit_part) ∷ [])

abbrev pub close_all : Option Parts → Option (List (Bytes × Bytes))
close_all none = none
close_all (some s) = some (close_part s)

pub split_parts : Bytes → Parts → Option (List (Bytes × Bytes))
split_parts str s = close_all (char_loop str s)

-- The microseconds of a unit; a month and a year are those of std::chrono.
pub unit_length : Bytes → Option ℕ
unit_length u =
    if bytes_eq u (codes "usec") || bytes_eq u (codes "us")
    then some 1
    else if bytes_eq u (codes "msec") || bytes_eq u (codes "ms")
    then some 1000
    else if bytes_eq u (codes "seconds")
        || bytes_eq u (codes "second")
        || bytes_eq u (codes "sec")
        || bytes_eq u (codes "s")
        || is_empty u
    then some 1000000
    else if bytes_eq u (codes "minutes")
        || bytes_eq u (codes "minute")
        || bytes_eq u (codes "min")
        || bytes_eq u (codes "m")
    then some 60000000
    else if bytes_eq u (codes "hours")
        || bytes_eq u (codes "hour")
        || bytes_eq u (codes "hr")
        || bytes_eq u (codes "h")
    then some 3600000000
    else if bytes_eq u (codes "days") || bytes_eq u (codes "day") || bytes_eq u (codes "d")
    then some 86400000000
    else if bytes_eq u (codes "weeks") || bytes_eq u (codes "week") || bytes_eq u (codes "w")
    then some 604800000000
    else if bytes_eq u (codes "months") || bytes_eq u (codes "month") || bytes_eq u (codes "M")
    then some 2629746000000
    else if bytes_eq u (codes "years") || bytes_eq u (codes "year") || bytes_eq u (codes "y")
    then some 31556952000000
    else none

-- A number of microseconds; zero with a false `ok`; or a sum that an int64 does not hold, for which
-- std::chrono gives no meaning.
pub data Duration : Type 0 where
  lasts : ℕ → Duration
  invalid overflow : Duration

abbrev pub int64_max : ℕ
int64_max = 9223372036854775807

-- QString::toULongLong is a parameter; `none` is a false `_ok`.
module _ (to_ulonglong : Bytes → Option ℕ) where
  -- The loop over the parts, with `ms` so far.
  pub sum_parts : List (Bytes × Bytes) → ℕ → Duration
  sum_parts [] ms = lasts ms
  sum_parts ((digits, unit) ∷ parts) ms = elim (to_ulonglong digits) [
    | none ↦ invalid
    | some dur ↦ elim (unit_length unit) [
      | none ↦ invalid
      | some length ↦
          let rest = sum_parts parts (ms + dur * length) in
          if ltb int64_max (ms + dur * length) then overflow else rest
    ]
  ]

  -- Behind the first loop; no parts are an error.
  abbrev pub sum_split : Option (List (Bytes × Bytes)) → Duration
  sum_split none = invalid
  sum_split (some []) = invalid
  sum_split (some (p ∷ parts)) = sum_parts (p ∷ parts) 0

  pub duration_from_string : Bytes → Duration
  duration_from_string str =
      sum_split (split_parts str (record { parts = []; digit_part = []; unit_part = [] }))
