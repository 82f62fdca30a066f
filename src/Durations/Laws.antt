-- ===== src/Durations/Laws.antt =====
-- What Utils::durationFromString (Cutelyst/utils.cpp) makes of durations that are written out.
use cutelyst.Common.{
  ℕ, if◌then◌else◌, Bytes, List, [], ◌∷◌, ◌++◌, true, false, ◌||◌, Option, none, some, All, ◌≡◌,
  refl, sym, ap, ◌∙◌, arith, append_assoc, append-nil, Bool-cases, inl, inr,
}
use cutelyst.Durations.{
  Parts, is_digit, is_unit, take_char, char_loop, close_all, unless_broken, split_parts, sum_parts,
  sum_split, duration_from_string,
}

-- Behind some parts, in the middle of another.
abbrev in_part : List (Bytes × Bytes) → Bytes → Bytes → Parts
in_part parts digits unit = record { parts = parts; digit_part = digits; unit_part = unit }

-- A character that is taken is a round.
char_loop-taken :
    (c : ℕ) (rest : Bytes) (s s' : Parts)
    → take_char c s ≡ some s'
    → char_loop (c ∷ rest) s ≡ char_loop rest s'
unfolding char_loop
char_loop-taken c rest s s' e = ap (λ z. unless_broken z (char_loop rest)) e

split_parts-taken :
    (c : ℕ) (rest : Bytes) (s s' : Parts)
    → take_char c s ≡ some s'
    → split_parts (c ∷ rest) s ≡ split_parts rest s'
unfolding split_parts
split_parts-taken c rest s s' e = ap close_all (char_loop-taken c rest s s' e)

-- A digit at the beginning or behind other digits, a letter of the unit, the digit of a new part.
take_char-digit :
    (d : ℕ) (acc : Bytes) (parts : List (Bytes × Bytes))
    → is_digit d ≡ true
    → take_char d (in_part parts acc []) ≡ some (in_part parts (acc ++ (d ∷ [])) [])
unfolding take_char
take_char-digit d [] parts h = rw h refl
take_char-digit d (a ∷ acc) parts h = rw h refl

take_char-unit :
    (u a : ℕ) (digits acc : Bytes) (parts : List (Bytes × Bytes))
    → is_unit u ≡ true
    → take_char u (in_part parts (a ∷ digits) acc)
      ≡ some (in_part parts (a ∷ digits) (acc ++ (u ∷ [])))
unfolding take_char
take_char-unit u a digits acc parts h = ground arith

take_char-next :
    (d a u : ℕ) (digits unit : Bytes) (parts : List (Bytes × Bytes))
    → is_digit d ≡ true
    → take_char d (in_part parts (a ∷ digits) (u ∷ unit))
      ≡ some (in_part (parts ++ ((a ∷ digits, u ∷ unit) ∷ [])) (d ∷ []) [])
unfolding take_char
take_char-next d a u digits unit parts h = rw h refl

split_parts-digits :
    (ds acc rest : Bytes) (parts : List (Bytes × Bytes))
    → All (λ c. is_digit c ≡ true) ds
    → split_parts (ds ++ rest) (in_part parts acc [])
      ≡ split_parts rest (in_part parts (acc ++ ds) [])
split_parts-digits [] acc rest parts h = rw append-nil refl
split_parts-digits (d ∷ ds) acc rest parts (hd, h) =
    split_parts-taken d (ds ++ rest) _ _ (take_char-digit d acc parts hd)
    ∙ split_parts-digits ds (acc ++ (d ∷ [])) rest parts h
    ∙ rw append_assoc refl

split_parts-unit :
    (us acc rest : Bytes) (a : ℕ) (digits : Bytes) (parts : List (Bytes × Bytes))
    → All (λ c. is_unit c ≡ true) us
    → split_parts (us ++ rest) (in_part parts (a ∷ digits) acc)
      ≡ split_parts rest (in_part parts (a ∷ digits) (acc ++ us))
split_parts-unit [] acc rest a digits parts h = rw append-nil refl
split_parts-unit (u ∷ us) acc rest a digits parts (hu, h) =
    split_parts-taken u (us ++ rest) _ _ (take_char-unit u a digits acc parts hu)
    ∙ split_parts-unit us (acc ++ (u ∷ [])) rest a digits parts h
    ∙ rw append_assoc refl

-- Digits and a unit, neither of them empty.
abbrev IsNumber : Bytes → Type 0
IsNumber [] = ⊥
IsNumber (d ∷ ds) = All (λ c. is_digit c ≡ true) (d ∷ ds)

abbrev IsUnit : Bytes → Type 0
IsUnit [] = ⊥
IsUnit (u ∷ us) = All (λ c. is_unit c ≡ true) (u ∷ us)

abbrev pub IsPart : Bytes × Bytes → Type 0
IsPart p = IsNumber p.0 × IsUnit p.1

-- Parts written one behind the other.
pub written_out : List (Bytes × Bytes) → Bytes
written_out [] = []
written_out (p ∷ ps) = p.0 ++ (p.1 ++ written_out ps)

split_parts-end :
    (a : ℕ) (digits unit : Bytes) (parts : List (Bytes × Bytes))
    → split_parts [] (in_part parts (a ∷ digits) unit) ≡ some (parts ++ ((a ∷ digits, unit) ∷ []))
unfolding split_parts char_loop
split_parts-end a digits unit parts = refl

-- From the middle of a part on.
split_parts-from :
    (ps : List (Bytes × Bytes)) (a u : ℕ) (digits unit : Bytes) (parts : List (Bytes × Bytes))
    → All IsPart ps
    → split_parts (written_out ps) (in_part parts (a ∷ digits) (u ∷ unit))
      ≡ some (parts ++ ((a ∷ digits, u ∷ unit) ∷ ps))
unfolding written_out
split_parts-from [] a u digits unit parts h = split_parts-end a digits (u ∷ unit) parts
split_parts-from (([], _) ∷ ps) a u digits unit parts h = absurd h.0.0
split_parts-from ((b ∷ ds, []) ∷ ps) a u digits unit parts h = absurd h.0.1
split_parts-from ((b ∷ ds, v ∷ us) ∷ ps) a u digits unit parts (((hb, hd), hu), h) =
    let before = parts ++ ((a ∷ digits, u ∷ unit) ∷ []) in
    split_parts-taken b (ds ++ ((v ∷ us) ++ written_out ps)) _ _
      (take_char-next b a u digits unit parts hb)
    ∙ split_parts-digits ds (b ∷ []) ((v ∷ us) ++ written_out ps) before hd
    ∙ split_parts-unit (v ∷ us) [] (written_out ps) b ds before hu
    ∙ split_parts-from ps b v ds us before h
    ∙ rw append_assoc refl

-- Parts that are written one behind the other are split into those parts again.
pub duration_from_string-parts :
    (to_ulonglong : Bytes → Option ℕ) (p : Bytes × Bytes) (ps : List (Bytes × Bytes))
    → All IsPart (p ∷ ps)
    → duration_from_string to_ulonglong (written_out (p ∷ ps)) ≡ sum_parts to_ulonglong (p ∷ ps) 0
unfolding duration_from_string written_out
duration_from_string-parts to_ulonglong ([], _) ps h = absurd h.0.0
duration_from_string-parts to_ulonglong (b ∷ ds, []) ps h = absurd h.0.1
duration_from_string-parts to_ulonglong (b ∷ ds, v ∷ us) ps ((hd, hu), h) =
    let run =
      split_parts-digits (b ∷ ds) [] ((v ∷ us) ++ written_out ps) [] hd
      ∙ split_parts-unit (v ∷ us) [] (written_out ps) b ds [] hu
      ∙ split_parts-from ps b v ds us [] h in
    ap (sum_split to_ulonglong) run

-- Characters that are neither digits nor letters of a unit, such as blanks, are left out.
abbrev pub relevant : Bytes → Bytes
relevant [] = []
relevant (c ∷ str) = if is_digit c || is_unit c then c ∷ relevant str else relevant str

take_char-skipped : (c : ℕ) (s : Parts) → (is_digit c || is_unit c) ≡ false → take_char c s ≡ some s
unfolding take_char
take_char-skipped c s h = ground arith

unless_broken-same :
    (z : Option Parts) (f g : Parts → Option Parts)
    → ((s : Parts) → f s ≡ g s)
    → unless_broken z f ≡ unless_broken z g
unless_broken-same none f g h = refl
unless_broken-same (some s) f g h = h s

char_loop-relevant : (str : Bytes) (s : Parts) → char_loop (relevant str) s ≡ char_loop str s
unfolding char_loop
char_loop-relevant [] s = refl
char_loop-relevant (c ∷ str) s = elim (Bool-cases (is_digit c || is_unit c)) [
  | inl kept ↦ rw kept (unless_broken-same (take_char c s) _ _ (char_loop-relevant str))
  | inr skipped ↦
      rw skipped
        (char_loop-relevant str s ∙ sym (char_loop-taken c str s s (take_char-skipped c s skipped)))
]

-- A duration is the same without the characters that are neither digits nor letters of a unit.
duration_from_string-relevant :
    (to_ulonglong : Bytes → Option ℕ) (str : Bytes)
    → duration_from_string to_ulonglong (relevant str) ≡ duration_from_string to_ulonglong str
unfolding duration_from_string split_parts
duration_from_string-relevant to_ulonglong str =
    ap (λ z. sum_split to_ulonglong (close_all z)) (char_loop-relevant str _)
