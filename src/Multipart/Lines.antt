-- ===== src/Multipart/Lines.antt =====
-- The boundary, the header lines and the blank line of a part, as the rounds of
-- Cutelyst/multipartformdataparser.cpp take them.
use cutelyst.Common.{
  ℕ, suc, ◌+◌, Bytes, List, [], ◌∷◌, ◌++◌, some, length, drop, All, ◌≡◌, ◌≢◌, refl, ap, arith,
  length-append, drop-length-append, take-length-append,
}
use cutelyst.Headers.{Headers, set_header}
use cutelyst.Multipart.{
  find_boundary, end_boundary_cr, start_headers, finish_header, start_data, Parser, goes, step_in,
  start_headers_round, finish_line, Scanned,
}
use cutelyst.Multipart.Boundary.{index_in, trimmed}
use cutelyst.Multipart.Runs.{Runs, more}
use cutelyst.Multipart.Fields.{
  field_line, name_of-field_line, value_of-field_line, index_in_self, index_of-append,
}

abbrev pub crlf : Bytes → Bytes
crlf rest = 0xd ∷ 0xa ∷ rest

-- The header lines of a part and the blank line, in front of `rest`.
abbrev pub field_lines : List (Bytes × Bytes) → Bytes → Bytes
field_lines [] rest = crlf rest
field_lines ((key, value) ∷ fields) rest = field_line key value ++ crlf (field_lines fields rest)

abbrev pub IsField : Bytes × Bytes → Type 0
IsField (key, value) =
    All (λ c. c ≢ 0x3a) key × All (λ c. c ≢ 0xd) (field_line key value) × (trimmed value ≡ value)

abbrev pub headers_of : List (Bytes × Bytes) → Headers → Headers
headers_of [] h = h
headers_of ((key, value) ∷ fields) h = headers_of fields (set_header key value h)

-- A line is taken up to its carriage return.
start_headers_round-line :
    (p : Parser) (c : ℕ) (cs rest : Bytes)
    → All (λ x. x ≢ 0xd) (c ∷ cs)
    → start_headers_round
        (c ∷ (cs ++ crlf rest))
        (record p { header_line = []; state = start_headers })
      ≡ goes (length (c ∷ cs)) (record p { header_line = c ∷ cs; state = finish_header })
unfolding start_headers_round
start_headers_round-line p c cs rest (hc, h) =
    let found = index_of-append 0xd (c ∷ cs) (0xa ∷ rest) (hc, h) in
    let line = take-length-append (c ∷ cs) (crlf rest) in ground (arith, found, line)

module _ (boundary window : Bytes) (base : ℕ) where
  pub run_boundary :
      (p : Parser) {r : Scanned} (i x : ℕ) (xs rest : Bytes)
      → boundary ≡ x ∷ xs
      → Runs boundary window base
          (i + length boundary)
          rest
          (record p { state = end_boundary_cr })
          r
      → Runs boundary window base i (boundary ++ rest) (record p { state = find_boundary }) r
  unfolding step_in
  run_boundary p i x xs rest e w =
      let found : index_in boundary (x ∷ (xs ++ rest)) ≡ some 0 =
        rw e (index_in_self (x ∷ xs) rest) in
      let size : length boundary ≡ suc (length xs) = ap (length {A = ℕ}) e in
      let at : boundary ++ rest ≡ x ∷ (xs ++ rest) = rw e refl in
      rw at (
        more {k = length xs} (ground (arith, found, size)) (omega arith)
          (drop-length-append xs rest) w)

  pub run_crlf :
      (p : Parser) {r : Scanned} (i : ℕ) (rest : Bytes)
      → Runs boundary window base (i + 2) rest (record p { state = start_headers }) r
      → Runs boundary window base i (crlf rest) (record p { state = end_boundary_cr }) r
  unfolding step_in
  run_crlf p i rest w = more {j = i + 1} refl (omega arith) refl (more refl (omega arith) refl w)

  run_blank :
      (p : Parser) {r : Scanned} (i : ℕ) (rest : Bytes)
      → Runs boundary window base (i + 2) rest (record p { state = start_data; header_line = [] }) r
      → Runs boundary window base i
          (crlf rest)
          (record p { state = start_headers; header_line = [] })
          r
  unfolding step_in start_headers_round
  run_blank p i rest w = more {j = i + 1} refl (omega arith) refl (more refl (omega arith) refl w)

  run_line :
      (p : Parser) {r : Scanned} (i c : ℕ) (cs rest : Bytes)
      → All (λ x. x ≢ 0xd) (c ∷ cs)
      → Runs boundary window base
          (i + length (c ∷ cs) + 2)
          rest
          (finish_line (record p { header_line = c ∷ cs }))
          r
      → Runs boundary window base i
          (c ∷ (cs ++ crlf rest))
          (record p { state = start_headers; header_line = [] })
          r
  unfolding step_in
  run_line p i c cs rest h w =
      more {j = i + length (c ∷ cs) + 1} {k = length (c ∷ cs)} {rest = 0xa ∷ rest}
        {q = record p { state = finish_header; header_line = c ∷ cs }}
        (start_headers_round-line p c cs rest h) (omega arith) (behind cs)
        (more refl (omega arith) refl w)
    where
      behind : (ds : Bytes) → drop (suc (length ds)) (ds ++ crlf rest) ≡ 0xa ∷ rest
      behind [] = refl
      behind (d ∷ ds) = behind ds

  -- A header line of a part is read into its field.
  run_field :
      (p : Parser) {r : Scanned} (i : ℕ) (key value rest : Bytes)
      → IsField (key, value)
      → Runs boundary window base
          (i + length (field_line key value) + 2)
          rest
          (record p {
            headers = set_header key value p.headers;
            header_line = [];
            state = start_headers;
          })
          r
      → Runs boundary window base i
          (field_line key value ++ crlf rest)
          (record p { state = start_headers; header_line = [] })
          r
  run_field p i [] value rest (nk, nl, t) w =
      run_line p i 0x3a (0x20 ∷ value) rest nl
        (rw (name_of-field_line [] value nk, value_of-field_line [] value nk, t) w)
  run_field p i (x ∷ key) value rest (nk, nl, t) w =
      run_line p i x (field_line key value) rest nl
        (rw (name_of-field_line (x ∷ key) value nk, value_of-field_line (x ∷ key) value nk, t) w)

  pub run_fields :
      (fields : List (Bytes × Bytes)) (p : Parser) {r : Scanned} (i : ℕ) (rest : Bytes)
      → All IsField fields
      → Runs boundary window base
          (i + length (field_lines fields []))
          rest
          (record p { headers = headers_of fields p.headers; header_line = []; state = start_data })
          r
      → Runs boundary window base i
          (field_lines fields rest)
          (record p { state = start_headers; header_line = [] })
          r
  run_fields [] p i rest h w = run_blank p i rest w
  run_fields ((key, value) ∷ fields) p i rest (hf, h) w =
      let q : Parser = record p { headers = set_header key value p.headers } in
      run_field p i key value (field_lines fields rest) hf (
        run_fields fields q (i + length (field_line key value) + 2) rest h
          (rw (size key value fields i) w))
    where
      size :
          (k v : Bytes) (fs : List (Bytes × Bytes)) (n : ℕ)
          → n + length (field_line k v) + 2 + length (field_lines fs [])
            ≡ n + length (field_line k v ++ crlf (field_lines fs []))
      size k v fs n = omega (arith, length-append {0} (field_line k v) (crlf (field_lines fs [])))
