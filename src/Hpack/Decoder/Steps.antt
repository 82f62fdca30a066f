-- ===== src/Hpack/Decoder/Steps.antt =====
-- HPack::decode (Cutelyst/Server/hpack.cpp) against a relation on its variables: one step for each
-- kind of round, and a run of the function as a sequence of steps.
use cutelyst.Common.{
  ◌/◌, ◌%◌, not, ◌||◌, subst, ℕ, ◌≤◌, ◌<◌, ◌≡◌, inl, inr, refl, Bytes, ◌∷◌, length, Bool, true,
  false, Option, none, some, Bool-cases, ltb, ◌==◌, arith, get_elem?,
}
use cutelyst.Hpack.Integer.{Read, decode_uint}
use cutelyst.Hpack.Integer.Laws.{decode_uint-shorter}
use cutelyst.Hpack.Strings.{parse_string, parse_string_key}
use cutelyst.Hpack.Strings.Laws.{parse_string-shorter, parse_string_key-shorter}
use cutelyst.Hpack.Table.{update_size, add_entry}
use cutelyst.Hpack.Tables.{static_headers}
use cutelyst.Hpack.Decoder.{
  Host, Decoding, Round, next, checked, found, take_field, dynamic_field, indexed_field,
  indexed_round, update_round, literal_name, literal_round, literal_value, decode_round,
}

module _ (host : Host) where
  -- What one round does to the variables.
  pub data Step (d : Decoding) : Decoding → Type 0 where
    field :
        (key value : Bytes) (d' : Decoding)
        → take_field host key value d ≡ some d'
        → Step d (record d' { allowed_to_update = false })
    inserted :
        (key value : Bytes) (d' : Decoding)
        → take_field host key value d ≡ some d'
        → Step d (record d' {
          allowed_to_update = false;
          hpack = add_entry (record { key = key; value = value }) d'.hpack;
        })
    resized :
        (limit : ℕ)
        → limit ≤ d.hpack.max_table_size
        → d.allowed_to_update ≡ true
        → Step d (record d { hpack = update_size limit d.hpack })

  pub data Reach (d : Decoding) : Decoding → Type 0 where
    here : Reach d d
    then_step : {e f : Decoding} → Reach d e → Step e f → Reach d f

checked-eq-next {ℓ} :
    {A : Type ℓ} (m : Read A) (code : ℕ) (f : A → Bytes → Round) {d : Decoding} {rest : Bytes}
    → checked m code f ≡ next d rest
    → (a : A) × (buf : Bytes) × (m ≡ Read.read a buf) × (f a buf ≡ next d rest)
checked-eq-next (Read.read a buf) code f e = (a, buf, refl, e)
checked-eq-next Read.failed code f e = cc
checked-eq-next Read.undefined code f e = cc

found-eq-next {ℓ} :
    {A : Type ℓ} (m : Option A) (code : ℕ) (f : A → Round) {d : Decoding} {rest : Bytes}
    → found m code f ≡ next d rest
    → (a : A) × (m ≡ some a) × (f a ≡ next d rest)
found-eq-next (some a) code f e = (a, refl, e)
found-eq-next none code f e = cc

next_injective :
    {d d' : Decoding} {buf rest : Bytes} → next d buf ≡ next d' rest → (d ≡ d') × (buf ≡ rest)
next_injective e = (cc, cc)

module _ (host : Host) where
  -- A round that goes on makes a step and takes a byte at least.
  abbrev pub Advances : Bytes → Decoding → Bytes → Decoding → Type 0
  Advances it d rest d' = Step host d d' × (length rest < length it)

  Advances-by :
      (it : Bytes) {buf rest : Bytes} {d e d' : Decoding}
      → next e buf ≡ next d' rest
      → Step host d e
      → length buf < length it
      → Advances it d rest d'
  Advances-by it {d} p step lt =
      let (same, left) = next_injective p in
      (subst (λ x. Step host d x) same step, subst (λ r. length r < length it) left lt)

  indexed_round-Advances :
      (it : Bytes) (d d' : Decoding) (rest : Bytes)
      → indexed_round host it d ≡ next d' rest
      → Advances it d rest d'
  unfolding indexed_round
  indexed_round-Advances it d d' rest e =
      let (i, buf, taken, e₁) = checked-eq-next (decode_uint it 7) _ _ e in
      elim (Bool-cases (i == 0)) [
        | inl z ↦ cc (rw z at e₁)
        | inr nz ↦
            let (f, _, e₂) = found-eq-next (indexed_field i d.hpack) _ _ (rw nz at e₁) in
            let (d₁, accepted, e₃) = found-eq-next (take_field host f.0 f.1 d) _ _ e₂ in
            Advances-by it e₃ (field f.0 f.1 d₁ accepted)
              (decode_uint-shorter it 7 i buf (omega arith) taken).1
      ]

  update_round-Advances :
      (it : Bytes) (d d' : Decoding) (rest : Bytes)
      → update_round it d ≡ next d' rest
      → Advances it d rest d'
  unfolding update_round
  update_round-Advances it d d' rest e =
      let (limit, buf, taken, e₁) = checked-eq-next (decode_uint it 5) _ _ e in
      elim (Bool-cases (ltb d.hpack.max_table_size limit || not d.allowed_to_update)) [
        | inl refused ↦ cc (rw refused at e₁)
        | inr passed ↦
            Advances-by it (rw passed at e₁) (resized limit (ground arith) (ground arith))
              (decode_uint-shorter it 5 limit buf (omega arith) taken).1
      ]

  literal_name-eq-next :
      (add : Bool) (i : ℕ) (it : Bytes) (d : Decoding) (go : Bytes → Bytes → Round) {d' : Decoding}
      {rest : Bytes}
      → literal_name host add i it d go ≡ next d' rest
      → (key buf : Bytes) × (go key buf ≡ next d' rest) × (length buf ≤ length it)
  unfolding literal_name
  literal_name-eq-next add i it d go e = elim (Bool-cases (ltb 61 i)) [
    | inl dynamic ↦ elim (Bool-cases add) [
      | inl indexing ↦
          let (f, _, e₁) =
            found-eq-next (dynamic_field i d.hpack) _ _ (rw (dynamic, indexing) at e) in
          (f.0, it, e₁, omega arith)
      | inr plain ↦ cc (rw (dynamic, plain) at e)
    ]
    | inr static ↦ elim (Bool-cases (i == 0)) [
      | inl literal ↦
          let (key, buf, taken, e₁) =
            checked-eq-next (parse_string_key host.table it) _ _ (rw (static, literal) at e) in
          (key, buf, e₁, omega (arith, parse_string_key-shorter host.table it key buf taken))
      | inr named ↦
          let (f, _, e₁) =
            found-eq-next (get_elem? static_headers i) _ _ (rw (static, named) at e) in
          (f.0, it, e₁, omega arith)
    ]
  ]

  literal_value-Advances :
      (add : Bool) (d : Decoding) (key it : Bytes) (d' : Decoding) (rest : Bytes)
      → literal_value host add d key it ≡ next d' rest
      → Advances it d rest d'
  unfolding literal_value
  literal_value-Advances true d key it d' rest e =
      let (value, buf, parsed, e₁) = checked-eq-next (parse_string host.table it) _ _ e in
      let (d₁, accepted, e₂) = found-eq-next (take_field host key value d) _ _ e₁ in
      Advances-by it e₂ (inserted key value d₁ accepted)
        (parse_string-shorter host.table it value buf parsed)
  literal_value-Advances false d key it d' rest e =
      let (value, buf, parsed, e₁) = checked-eq-next (parse_string host.table it) _ _ e in
      let (d₁, accepted, e₂) = found-eq-next (take_field host key value d) _ _ e₁ in
      Advances-by it e₂ (field key value d₁ accepted)
        (parse_string-shorter host.table it value buf parsed)

  literal_round-Advances :
      (add : Bool) (it : Bytes) (bits : ℕ) (d d' : Decoding) (rest : Bytes)
      → bits ≤ 8
      → literal_round host add it bits d ≡ next d' rest
      → Advances it d rest d'
  unfolding literal_round
  literal_round-Advances add it bits d d' rest hb e =
      let (i, buf, taken, e₁) = checked-eq-next (decode_uint it bits) _ _ e in
      let (key, buf', e₂, le) = literal_name-eq-next add i buf d (literal_value host add d) e₁ in
      let (step, lt) = literal_value-Advances add d key buf' d' rest e₂ in
      (step, omega (arith, (decode_uint-shorter it bits i buf hb taken).1))

  pub decode_round-Advances :
      (b : ℕ) (bs : Bytes) (d d' : Decoding) (rest : Bytes)
      → decode_round host b bs d ≡ next d' rest
      → Advances (b ∷ bs) d rest d'
  unfolding decode_round
  decode_round-Advances b bs d d' rest e = elim (Bool-cases (b / 128 % 2 == 1)) [
    | inl indexed ↦ indexed_round-Advances (b ∷ bs) d d' rest (rw indexed at e)
    | inr n₁ ↦ elim (Bool-cases (b / 64 % 2 == 1)) [
      | inl indexing ↦
          literal_round-Advances true (b ∷ bs) 6 d d' rest (omega arith) (rw (n₁, indexing) at e)
      | inr n₂ ↦ elim (Bool-cases (b / 32 % 2 == 1)) [
        | inl update ↦ update_round-Advances (b ∷ bs) d d' rest (rw (n₁, n₂, update) at e)
        | inr n₃ ↦
            literal_round-Advances false (b ∷ bs) 4 d d' rest (omega arith) (rw (n₁, n₂, n₃) at e)
      ]
    ]
  ]
