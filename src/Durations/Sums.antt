-- ===== src/Durations/Sums.antt =====
-- What durations add up to in Utils::durationFromString (Cutelyst/utils.cpp).
use cutelyst.Common.{
  ℕ, ◌+◌, ◌*◌, ◌≤◌, ◌<◌, bytes_eq, codes, Bytes, List, [], ◌∷◌, ◌≢◌, ◌⊎◌, false, Option, none, some,
  All, ◌≡◌,
}
use cutelyst.Durations.{Duration, lasts, invalid, overflow, int64_max}

-- The units with their microseconds; a year has 365.2425 days, and a month a twelfth of it.
unfoldable pub units : List (Bytes × ℕ)
units =
    (codes "usec", 1)
    ∷ (codes "us", 1)
    ∷ (codes "msec", 1000)
    ∷ (codes "ms", 1000)
    ∷ (codes "seconds", 1000000)
    ∷ (codes "second", 1000000)
    ∷ (codes "sec", 1000000)
    ∷ (codes "s", 1000000)
    ∷ (codes "minutes", 60000000)
    ∷ (codes "minute", 60000000)
    ∷ (codes "min", 60000000)
    ∷ (codes "m", 60000000)
    ∷ (codes "hours", 3600000000)
    ∷ (codes "hour", 3600000000)
    ∷ (codes "hr", 3600000000)
    ∷ (codes "h", 3600000000)
    ∷ (codes "days", 86400000000)
    ∷ (codes "day", 86400000000)
    ∷ (codes "d", 86400000000)
    ∷ (codes "weeks", 604800000000)
    ∷ (codes "week", 604800000000)
    ∷ (codes "w", 604800000000)
    ∷ (codes "months", 2629746000000)
    ∷ (codes "month", 2629746000000)
    ∷ (codes "M", 2629746000000)
    ∷ (codes "years", 31556952000000)
    ∷ (codes "year", 31556952000000)
    ∷ (codes "y", 31556952000000)
    ∷ []

-- A unit and its length are in the table.
abbrev pub IsAmong : Bytes → ℕ → List (Bytes × ℕ) → Type 0
IsAmong unit length [] = ⊥
IsAmong unit length (u ∷ us) = ((unit ≡ u.0) × (length ≡ u.1)) ⊎ IsAmong unit length us

-- The unit is none of the table.
abbrev IsUnknown : Bytes → Type 0
IsUnknown unit = All (λ (u : Bytes × ℕ). bytes_eq unit u.0 ≡ false) units

-- What parts add up to behind some microseconds.
pub data AddsUp (to_ulonglong : Bytes → Option ℕ)
    : List (Bytes × Bytes) → ℕ → Duration → Type 0 where
  done : {ms : ℕ} → AddsUp to_ulonglong [] ms (lasts ms)
  adds :
      {digits unit : Bytes} {parts : List (Bytes × Bytes)} {ms dur : ℕ} {result : Duration}
      (length : ℕ)
      → to_ulonglong digits ≡ some dur
      → IsAmong unit length units
      → ms + dur * length ≤ int64_max
      → AddsUp to_ulonglong parts (ms + dur * length) result
      → AddsUp to_ulonglong ((digits, unit) ∷ parts) ms result
  exceeds :
      {digits unit : Bytes} {parts : List (Bytes × Bytes)} {ms dur : ℕ} (length : ℕ)
      → to_ulonglong digits ≡ some dur
      → IsAmong unit length units
      → int64_max < ms + dur * length
      → AddsUp to_ulonglong ((digits, unit) ∷ parts) ms overflow
  unread :
      {digits unit : Bytes} {parts : List (Bytes × Bytes)} {ms : ℕ}
      → to_ulonglong digits ≡ none
      → AddsUp to_ulonglong ((digits, unit) ∷ parts) ms invalid
  unknown :
      {digits unit : Bytes} {parts : List (Bytes × Bytes)} {ms dur : ℕ}
      → to_ulonglong digits ≡ some dur
      → unit ≢ []
      → IsUnknown unit
      → AddsUp to_ulonglong ((digits, unit) ∷ parts) ms invalid
