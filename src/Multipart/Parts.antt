-- ===== src/Multipart/Parts.antt =====
-- A multipart body that a client writes, and what Cutelyst/multipartformdataparser.cpp reads of it.
use cutelyst.Common.{
  ℕ, suc, ◌+◌, ◌<◌, ◌-◌, Bytes, List, [], ◌∷◌, ◌++◌, append_assoc, append-nil, some, length, codes,
  All, ◌≡◌, ◌≢◌, ◌∙◌, refl, ap, arith, length-append, drop-length-append, Option-cases, inl, inr,
  Bool-cases,
}
use cutelyst.Common.Int.{pos, sub_ℕ}
use cutelyst.Multipart.{
  end_boundary_cr, start_data, end_data, Upload, Parser, step_in, add_upload, end_data_round,
  Scanned, returned, new_parser, Device, read_loop, execute, scan_window, go_on,
}
use cutelyst.Multipart.Boundary.{is_prefix, index_in}
use cutelyst.Multipart.Runs.{Runs, more, leave, Runs→scan}
use cutelyst.Multipart.Fields.{index_in-append}
use cutelyst.Multipart.Lines.{
  crlf, field_lines, IsField, headers_of, run_boundary, run_crlf, run_fields,
}

pub record Part : Type 0 where
  pub fields : List (Bytes × Bytes)
  pub contents : Bytes

-- Behind a boundary: the parts, each up to its own boundary, and the two dashes.
abbrev pub parts_text : Bytes → List Part → Bytes → Bytes
parts_text boundary [] epilogue = codes "--" ++ epilogue
parts_text boundary (part ∷ parts) epilogue = crlf (
    field_lines part.fields
      (part.contents ++ crlf (boundary ++ parts_text boundary parts epilogue)))

abbrev pub body_text : Bytes → List Part → Bytes → Bytes
body_text boundary parts epilogue = boundary ++ parts_text boundary parts epilogue

-- Fields that can be read back, and contents whose first boundary is the one that ends them.
abbrev pub IsPart : Bytes → Part → Type 0
IsPart boundary part =
    All IsField part.fields
    × (index_in boundary (part.contents ++ crlf boundary) ≡ some (length part.contents + 2))

-- Where the contents of a part lie whose boundary ends at `offset`.
abbrev pub contents_at : ℕ → Part → ℕ
contents_at offset part = offset + 2 + length (field_lines part.fields [])

abbrev pub upload_of : ℕ → Part → Upload
upload_of offset part = record {
  headers = headers_of part.fields [];
  start_offset = contents_at offset part;
  end_offset = pos (contents_at offset part + length part.contents);
}

abbrev pub uploads_of : Bytes → ℕ → List Part → List Upload
uploads_of boundary offset [] = []
uploads_of boundary offset (part ∷ parts) =
    upload_of offset part
    ∷ uploads_of boundary (contents_at offset part + length part.contents + 2 + length boundary)
        parts

index_in-tail :
    (pre : Bytes) (c : ℕ) (cs : Bytes) (m : ℕ)
    → index_in pre (c ∷ cs) ≡ some (suc m)
    → index_in pre cs ≡ some m
unfolding index_in
index_in-tail pre c cs m h = elim (Bool-cases (is_prefix pre (c ∷ cs))) [
  | inl e ↦ ground arith
  | inr e ↦ elim (Option-cases (index_in pre cs)) [
    | inl n ↦ ground arith
    | inr (i, n) ↦ ground arith
  ]
]

module _ (boundary window : Bytes) (base : ℕ) where
  -- From its second byte on the contents are searched for the boundary.
  run_bytes :
      (p : Parser) {r : Scanned} (i c d : ℕ) (ds rest : Bytes) (m : ℕ)
      → index_in boundary (c ∷ d ∷ ds) ≡ some (suc m)
      → suc m + length boundary ≡ length (c ∷ d ∷ ds)
      → 0 < length boundary
      → Runs boundary window base
          (i + length (c ∷ d ∷ ds))
          rest
          (add_upload boundary
            (base + (i + m + length boundary))
            (record p { start_offset = base + i }))
          r
      → Runs boundary window base i (c ∷ d ∷ (ds ++ rest)) (record p { state = start_data }) r
  unfolding step_in end_data_round
  run_bytes p i c d ds rest m found size ne w =
      let later : index_in boundary (d ∷ (ds ++ rest)) ≡ some m =
        index_in-append boundary (d ∷ ds) rest m (index_in-tail boundary c (d ∷ ds) m found) in
      let last : m + length boundary - 1 ≡ length ds = omega arith in
      let at : i + 1 + length ds ≡ i + m + length boundary = omega arith in
      more {j = i + 1} refl (omega arith) refl (
        more {k = length ds}
          {q = add_upload boundary (base + (i + m + length boundary))
            (record p { start_offset = base + i; state = end_data })}
          (ground (arith, later, last, at)) (omega arith) (drop-length-append ds rest) w)

  run_text :
      (p : Parser) {r : Scanned} (i : ℕ) (text rest : Bytes) (m : ℕ)
      → index_in boundary text ≡ some (suc m)
      → suc m + length boundary ≡ length text
      → 0 < length boundary
      → Runs boundary window base
          (i + length text)
          rest
          (add_upload boundary
            (base + (i + m + length boundary))
            (record p { start_offset = base + i }))
          r
      → Runs boundary window base i (text ++ rest) (record p { state = start_data }) r
  run_text p i [] rest m found size ne w = absurd (omega arith)
  run_text p i (c ∷ []) rest m found size ne w = absurd (omega arith)
  run_text p i (c ∷ d ∷ ds) rest m found size ne w = run_bytes p i c d ds rest m found size ne w

  -- A part is read into its upload.
  run_part :
      (ret : List Upload) (start : ℕ) {r : Scanned} (i : ℕ) (part : Part) (rest : Bytes)
      → IsPart boundary part
      → 0 < length boundary
      → ((start' : ℕ)
          → Runs boundary window base
              (contents_at i part + length part.contents + 2 + length boundary)
              rest
              (record new_parser {
                ret = ret ++ (upload_of (base + i) part ∷ []);
                start_offset = start';
                state = end_boundary_cr;
              })
              r)
      → Runs boundary window base i
          (crlf (field_lines part.fields (part.contents ++ crlf (boundary ++ rest))))
          (record new_parser { ret = ret; start_offset = start; state = end_boundary_cr })
          r
  run_part ret start i part rest (hf, hc) ne w =
      let p : Parser = record new_parser { ret = ret; start_offset = start } in
      let text = part.contents ++ crlf boundary in
      let split : text ++ rest ≡ part.contents ++ crlf (boundary ++ rest) =
        append_assoc part.contents (crlf boundary) rest in
      let size : length text ≡ length part.contents + (2 + length boundary) =
        omega (arith, length-append {0} part.contents (crlf boundary)) in
      let at = contents_at i part in
      let on : at + length text ≡ at + length part.contents + 2 + length boundary =
        omega (arith, size) in
      let start_is : base + at ≡ contents_at (base + i) part = omega arith in
      let end_is : sub_ℕ (base + (at + (length part.contents + 1) + length boundary))
            (length boundary + 1)
          ≡ pos (contents_at (base + i) part + length part.contents) =
        ground arith in
      run_crlf boundary window base p i _ (
        run_fields boundary window base part.fields p (i + 2) _ hf (
          rw (← split) (
            run_text (record p { headers = headers_of part.fields [] }) at text rest
              (length part.contents + 1) (hc ∙ ap some (omega arith)) (omega (arith, size)) ne
              (rw (on, end_is, start_is) (w (contents_at (base + i) part))))))

  run_parts :
      (parts : List Part) (ret : List Upload) (start i : ℕ) (epilogue : Bytes)
      → All (IsPart boundary) parts
      → 0 < length boundary
      → Runs boundary window base i
          (parts_text boundary parts epilogue)
          (record new_parser { ret = ret; start_offset = start; state = end_boundary_cr })
          (returned (ret ++ uploads_of boundary (base + i) parts))
  unfolding step_in
  run_parts [] ret start i epilogue h ne = rw append-nil (leave refl)
  run_parts (part ∷ parts) ret start i epilogue (hp, h) ne =
      let next = contents_at i part + length part.contents + 2 + length boundary in
      let at : contents_at (base + i) part + length part.contents + 2 + length boundary
          ≡ base + next =
        omega arith in
      let behind = uploads_of boundary (base + next) parts in
      run_part ret start i part (parts_text boundary parts epilogue) hp ne λ start'.
        rw (at, ← append_assoc ret (upload_of (base + i) part ∷ []) behind)
          (run_parts parts (ret ++ (upload_of (base + i) part ∷ [])) start' next epilogue h ne)

-- A body that comes in one read gives the uploads of its parts: for each its headers, and the offsets
-- between which its contents lie in the body. What stands behind the closing boundary is not read.
pub execute-parts :
    (boundary : Bytes) (parts : List Part) (epilogue : Bytes) (body : Device) (fuel buffer_size : ℕ)
    → boundary ≢ []
    → All (IsPart boundary) parts
    → body.size ≡ length (body_text boundary parts epilogue)
    → body.read 0 (pos buffer_size) ≡ some (body_text boundary parts epilogue)
    → execute (suc fuel) body buffer_size boundary
      ≡ returned (uploads_of boundary (length boundary) parts)
unfolding execute read_loop scan_window go_on
execute-parts [] parts epilogue body fuel buffer_size ne h size got = absurd (ne refl)
execute-parts (x ∷ xs) parts epilogue body fuel buffer_size ne h size got =
    let text = body_text (x ∷ xs) parts epilogue in
    let runs =
      run_boundary (x ∷ xs) text 0 new_parser 0 x xs (parts_text (x ∷ xs) parts epilogue) refl
        (run_parts (x ∷ xs) text 0 parts [] 0 (0 + length (x ∷ xs)) epilogue h (omega arith)) in
    let scanned = Runs→scan (suc (length text)) runs (omega arith) in
    ground (arith, scanned, size, got)
