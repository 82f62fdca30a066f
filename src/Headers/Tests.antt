-- ===== src/Headers/Tests.antt =====
-- Headers of Cutelyst/headers.cpp, set and read.
use cutelyst.Common.{
  ltb, if◌then◌else◌, ◌+◌, ◌-◌, ◌≡◌, ◌≢◌, refl, Bytes, [], ◌∷◌, map, codes, All, arith,
}
use cutelyst.Headers.{Headers}
use cutelyst.Headers.Authorization.{
  IsLatin1, authorization_basic_object, set_authorization_basic,
  authorization_basic_object-set_authorization_basic,
}

abbrev two_headers : Headers
two_headers = (codes "Host", codes "a") ∷ (codes "HOST", codes "b") ∷ []

-- A stand-in for base64 that writes no comma.
abbrev shifted : Bytes → Bytes
shifted s = map (λ c. c + 0x2d) s

abbrev shifted_back : Bytes → Bytes
shifted_back s = map (λ c. c - 0x2d) s

shifted_back-shifted : (s : Bytes) → shifted_back (shifted s) ≡ s
shifted_back-shifted [] = refl
shifted_back-shifted (c ∷ s) = ground (arith, shifted_back-shifted s)

shifted-All : (s : Bytes) → All (λ c. c ≢ 0x2c) (shifted s)
shifted-All [] = tt
shifted-All (c ∷ s) = (omega arith, shifted-All s)

-- QString::toLatin1, with a question mark for what Latin-1 has not.
question_marked : Bytes → Bytes
question_marked [] = []
question_marked (c ∷ s) = (if ltb c 256 then c else 0x3f) ∷ question_marked s

question_marked_lem : (s : Bytes) → IsLatin1 s → question_marked s ≡ s
unfolding question_marked
question_marked_lem [] h = refl
question_marked_lem (c ∷ s) h = ground (arith, question_marked_lem s)

authorization_basic_object-set_authorization_basic_example :
    authorization_basic_object shifted shifted_back question_marked
      (λ s. s)
      (set_authorization_basic shifted shifted_back question_marked
        (λ s. s)
        (codes "me")
        (codes "a:b")
        two_headers).0
    ≡ record { user = codes "me"; password = codes "a:b" }
authorization_basic_object-set_authorization_basic_example =
    authorization_basic_object-set_authorization_basic shifted shifted_back question_marked (λ s. s)
      (codes "me") (codes "a:b") two_headers (λ s h. shifted_back-shifted s) (λ s h. shifted-All s)
      question_marked_lem (λ s h. refl) (omega arith, (omega arith, tt))
      (omega arith, (omega arith, (omega arith, tt))) refl
