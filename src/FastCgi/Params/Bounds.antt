-- ===== src/FastCgi/Params/Bounds.antt =====
-- What parseHeaders of Cutelyst/Server/protocolfastcgi.cpp reads of any record stays inside of it.
use cutelyst.Common.{
  ℕ, zero, suc, ◌+◌, ◌%◌, ◌<◌, ◌≤◌, Bytes, some, Bool-cases, Option-cases, inl, inr, ltb, ◌≡◌, ◌≢◌,
  refl, arith,
}
use cutelyst.FastCgi.Params.{
  Readers, Params, take_length, refused, out_of_fuel, Taken, taken, bad, take_pair, params_loop,
  parse_headers,
}

take_length-lt :
    (buf : Bytes) (len j n next : ℕ)
    → take_length buf len j ≡ some (n, next)
    → (j < next) × (next < len)
unfolding take_length
take_length-lt buf len j n next h = ground arith

-- The sum is computed in 32 bits, and what wraps around is refused by the tests behind it.
take_pair-le :
    (qt : Readers) (buffer_size : ℕ) (buf : Bytes) (len j keylen vallen next : ℕ) (p q : Params)
    → len < 0x10000
    → j < len
    → take_pair qt buffer_size buf len j keylen vallen p ≡ taken next q
    → (next ≡ j + (keylen + vallen)) × (next ≤ len)
unfolding take_pair
take_pair-le qt buffer_size buf len j keylen vallen next p q short inside h =
    let sum = (j + (keylen + vallen)) % 0x100000000 in
    elim (Bool-cases (ltb len sum)) [
      | inl e ↦ ground arith
      | inr e ↦ elim (Bool-cases (ltb 0xffff keylen)) [
        | inl e1 ↦ ground arith
        | inr e1 ↦ elim (Bool-cases (ltb 0xffff vallen)) [
          | inl e2 ↦ ground arith
          | inr e2 ↦ ground arith
        ]
      ]
    ]

module _ (qt : Readers) (buffer_size : ℕ) (buf : Bytes) (len : ℕ) (short : len < 0x10000) where
  abbrev Ends : ℕ → Type 0
  Ends fuel =
      (j : ℕ) (p : Params)
      → len < j + fuel
      → 0 < fuel
      → params_loop fuel qt buffer_size buf len j p ≢ out_of_fuel

  params_loop-taken :
      (fuel start j keylen vallen : ℕ) (p : Params) (t : Taken)
      → Ends fuel
      → take_pair qt buffer_size buf len j keylen vallen p ≡ t
      → start < j
      → j < len
      → len < start + suc fuel
      → elim t [ bad q ↦ refused q | taken next q ↦ params_loop fuel qt buffer_size buf len next q ]
        ≢ out_of_fuel
  params_loop-taken fuel start j keylen vallen p (bad q) ih e above inside enough = λ h. cc
  params_loop-taken fuel start j keylen vallen p (taken next q) ih e above inside enough =
      let (at, fits) =
        take_pair-le qt buffer_size buf len j keylen vallen next p q short inside e in
      ih next q (omega arith) (omega arith)

  params_loop-ne : (fuel : ℕ) → Ends fuel
  unfolding params_loop
  params_loop-ne zero j p enough some_fuel = absurd (omega arith)
  params_loop-ne (suc fuel) j p enough some_fuel = elim (Bool-cases (ltb j len)) [
    | inr e ↦ ground arith
    | inl e ↦ elim (Option-cases (take_length buf len j)) [
      | inl n ↦ ground arith
      | inr ((keylen, j1), one) ↦
          let (above1, inside1) = take_length-lt buf len j keylen j1 one in
          elim (Option-cases (take_length buf len j1)) [
            | inl n ↦ ground arith
            | inr ((vallen, j2), two) ↦
                let (above2, inside2) = take_length-lt buf len j1 vallen j2 two in
                rw (e, one, two, params_loop)
                  (params_loop-taken fuel j j2 keylen vallen p
                    (take_pair qt buffer_size buf len j2 keylen vallen p) (params_loop-ne fuel) refl
                    (omega arith) inside2 (omega arith))
          ]
    ]
  ]

-- parseHeaders ends on every record.
parse_headers-ne-out_of_fuel :
    (qt : Readers) (buffer_size : ℕ) (buf : Bytes) (len : ℕ) (p : Params)
    → len < 0x10000
    → parse_headers qt buffer_size buf len p ≢ out_of_fuel
unfolding parse_headers
parse_headers-ne-out_of_fuel qt buffer_size buf len p short =
    params_loop-ne qt buffer_size buf len short (suc len) 0 p (omega arith) (omega arith)
