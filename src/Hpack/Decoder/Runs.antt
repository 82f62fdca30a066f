-- ===== src/Hpack/Decoder/Runs.antt =====
-- A run of HPack::decode (Cutelyst/Server/hpack.cpp) as a sequence of steps; its end.
use cutelyst.Common.{
  ◌∙◌, subst, ℕ, zero, suc, ◌≤◌, ◌≡◌, ◌≢◌, ◌⊎◌, inl, inr, refl, Bytes, [], ◌∷◌, length, Bool, true,
  false, arith,
}
use cutelyst.Hpack.Table.{HPack}
use cutelyst.Hpack.Decoder.{
  Host, Decoding, Round, next, return, returned, out_of_fuel, indexed_round, update_round,
  literal_name, literal_round, literal_value, decode_round, complete, decode_loop, decode, H2Stream,
  start_decoding,
}
use cutelyst.Hpack.Decoder.Steps.{Reach, here, then_step, decode_round-Advances}

module _ (host : Host) where
  Round-cases :
      (r : Round)
      → ((d : Decoding) × (rest : Bytes) × (r ≡ next d rest))
        ⊎ (((code : ℕ) × (r ≡ return code)) ⊎ (r ≡ Round.fault))
  Round-cases (next d rest) = inl (d, rest, refl)
  Round-cases (return code) = inr (inl (code, refl))
  Round-cases Round.fault = inr (inr refl)

  decode_loop-ne-out_of_fuel :
      (fuel : ℕ) (it : Bytes) (d : Decoding)
      → length it ≤ fuel
      → decode_loop host fuel it d ≢ out_of_fuel
  unfolding decode_loop complete
  decode_loop-ne-out_of_fuel fuel [] d h = ground arith
  decode_loop-ne-out_of_fuel zero (b ∷ bs) d h = absurd (omega arith)
  decode_loop-ne-out_of_fuel (suc fuel) (b ∷ bs) d h =
      elim (Round-cases (decode_round host b bs d)) [
        | inl (d', rest, e) ↦
            rw (e, decode_loop)
              (decode_loop-ne-out_of_fuel fuel rest d'
                (omega (arith, (decode_round-Advances host b bs d d' rest e).1)))
        | inr (inl (code, e)) ↦ rw (e, decode_loop) (λ p. cc)
        | inr (inr e) ↦ rw (e, decode_loop) (λ p. cc)
      ]

  -- Whatever the block, HPack::decode ends: its loop takes at least one byte a round.
  pub decode-ne-out_of_fuel :
      (it : Bytes) (h : HPack) (stream : H2Stream) → decode host it h stream ≢ out_of_fuel
  unfolding decode
  decode-ne-out_of_fuel it h stream = decode_loop-ne-out_of_fuel (length it) it _ (omega arith)

  -- What a run that returns has done: steps, and, where it returns 0, the test at its end.
  pub record Ran (d : Decoding) (code : ℕ) (d' : Decoding) : Type 0 where
    pub steps : Reach host d d'
    pub checked_end : code ≡ 0 → complete d' ≡ returned 0 d'

  returned_injective :
      {c c' : ℕ} {d d' : Decoding} → returned c d ≡ returned c' d' → (c ≡ c') × (d ≡ d')
  returned_injective e = (cc, cc)

  indexed_round-ne-zero :
      (it : Bytes) (d : Decoding) (c : ℕ) → indexed_round host it d ≡ return c → c ≢ 0
  unfolding indexed_round
  indexed_round-ne-zero it d c e = ground arith

  update_round-ne-zero : (it : Bytes) (d : Decoding) (c : ℕ) → update_round it d ≡ return c → c ≢ 0
  unfolding update_round
  update_round-ne-zero it d c e = ground arith

  literal_value-ne-zero :
      (add : Bool) (d : Decoding) (key it : Bytes) (c : ℕ)
      → literal_value host add d key it ≡ return c
      → c ≢ 0
  unfolding literal_value
  literal_value-ne-zero add d key it c e = ground arith

  literal_name-ne-zero :
      (add : Bool) (i : ℕ) (it : Bytes) (d : Decoding) (go : Bytes → Bytes → Round) (c : ℕ)
      → ((key buf : Bytes) → go key buf ≡ return c → c ≢ 0)
      → literal_name host add i it d go ≡ return c
      → c ≢ 0
  unfolding literal_name
  literal_name-ne-zero add i it d go c h e = grind (arith, h)

  literal_round-ne-zero :
      (add : Bool) (it : Bytes) (bits : ℕ) (d : Decoding) (c : ℕ)
      → literal_round host add it bits d ≡ return c
      → c ≢ 0
  unfolding literal_round
  literal_round-ne-zero add it bits d c e = grind (
    arith,
    λ (i : ℕ) (rest : Bytes).
        literal_name-ne-zero add i rest d (literal_value host add d) c
          (λ key buf. literal_value-ne-zero add d key buf c),
  )

  decode_round-ne-zero :
      (b : ℕ) (bs : Bytes) (d : Decoding) (c : ℕ) → decode_round host b bs d ≡ return c → c ≢ 0
  unfolding decode_round
  decode_round-ne-zero b bs d c e = ground (
    arith,
    indexed_round-ne-zero (b ∷ bs) d c,
    update_round-ne-zero (b ∷ bs) d c,
    literal_round-ne-zero true (b ∷ bs) 6 d c,
    literal_round-ne-zero false (b ∷ bs) 4 d c,
  )

  complete-returned :
      (d d' : Decoding) (code : ℕ)
      → complete d ≡ returned code d'
      → (d ≡ d') × (code ≡ 0 → complete d' ≡ returned 0 d')
  unfolding complete
  complete-returned d d' code e = ground arith

  decode_loop-Ran :
      (fuel : ℕ) (it : Bytes) (start d d' : Decoding) (code : ℕ)
      → Reach host start d
      → decode_loop host fuel it d ≡ returned code d'
      → Ran start code d'
  unfolding decode_loop
  decode_loop-Ran fuel [] start d d' code r e =
      let (same_d, ends) = complete-returned d d' code e in
      record { steps = subst (λ x. Reach host start x) same_d r; checked_end = ends }
  decode_loop-Ran zero (b ∷ bs) start d d' code r e = cc
  decode_loop-Ran (suc fuel) (b ∷ bs) start d d' code r e =
      elim (Round-cases (decode_round host b bs d)) [
        | inl (d₁, rest, n) ↦
            decode_loop-Ran fuel rest start d₁ d' code
              (then_step r (decode_round-Advances host b bs d d₁ rest n).0)
              (rw (n, decode_loop) at e)
        | inr (inl (c, n)) ↦
            let (same_code, same_d) = returned_injective (rw (n, decode_loop) at e) in
            record {
              steps = subst (λ x. Reach host start x) same_d r;
              checked_end = λ z. absurd (decode_round-ne-zero b bs d c n (same_code ∙ z));
            }
        | inr (inr n) ↦ cc (rw (n, decode_loop) at e)
      ]

  -- A run of HPack::decode that returns.
  pub decode-Ran :
      (it : Bytes) (h : HPack) (stream : H2Stream) (code : ℕ) (d' : Decoding)
      → decode host it h stream ≡ returned code d'
      → Ran (start_decoding h stream) code d'
  unfolding decode
  decode-Ran it h stream code d' e = decode_loop-Ran (length it) it _ _ d' code here e
