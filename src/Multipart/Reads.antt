-- ===== src/Multipart/Reads.antt =====
-- The reads of Cutelyst/multipartformdataparser.cpp: what is kept of a window for the next one.
use cutelyst.Common.{
  ℕ, zero, suc, ◌+◌, ◌<◌, ◌≤◌, ◌-◌, Bytes, List, [], ◌∷◌, ◌++◌, some, none, length, All, ◌≡◌, ◌≢◌,
  ◌∙◌, refl, ap, arith, length-drop, Option-cases, inl, inr, Bool-cases, ltb,
}
use cutelyst.Common.Int.{pos, sub_ℕ}
use cutelyst.Multipart.{
  ParserState, find_boundary, end_boundary_cr, end_boundary_lf, start_headers, finish_header,
  end_headers, start_data, end_data, Parser, Move, goes, leaves, overruns, step_in,
  start_headers_round, end_data_round, Scanned, through, returned, overrun, out_of_fuel, new_parser,
  Device, read_loop, execute, scan_window, go_on,
}
use cutelyst.Multipart.Boundary.{index_in}
use cutelyst.Multipart.Runs.{Runs, done, more, leave, breaks, Runs→scan, scan-Runs, scan_window-ne}
use cutelyst.Multipart.Fields.{index_in-le}
use cutelyst.Multipart.Lines.{
  crlf, field_lines, IsField, headers_of, run_boundary, run_crlf, run_fields,
}

-- A round keeps less than a boundary.
abbrev Carries : Bytes → Move → Type 0
Carries boundary (goes k q) = length q.carried ≤ length boundary - 1
Carries boundary (leaves ret) = Unit {0}
Carries boundary overruns = Unit {0}

step_in-Carries :
    (s : ParserState) (boundary window : Bytes) (base i : ℕ) (unread : Bytes) (p : Parser)
    → length p.carried ≤ length boundary - 1
    → Carries boundary (step_in s boundary window base i unread p)
unfolding step_in start_headers_round end_data_round
step_in-Carries find_boundary boundary window base i unread p h = ground arith
step_in-Carries end_boundary_cr boundary window base i unread p h = ground arith
step_in-Carries end_boundary_lf boundary window base i unread p h = ground arith
step_in-Carries start_headers boundary window base i unread p h = ground arith
step_in-Carries finish_header boundary window base i unread p h = ground arith
step_in-Carries end_headers boundary window base i unread p h = ground arith
step_in-Carries start_data boundary window base i unread p h = ground arith
step_in-Carries end_data boundary window base i unread p h =
    ground (arith, length-drop {0} (length window - (length boundary - 1)) window)

abbrev Keeps : Bytes → Scanned → Type 0
Keeps boundary (through q) = length q.carried ≤ length boundary - 1
Keeps boundary _ = Unit {0}

Runs-Keeps :
    {boundary window : Bytes} {base i : ℕ} {unread : Bytes} {p : Parser} {r : Scanned}
    → Runs boundary window base i unread p r
    → length p.carried ≤ length boundary - 1
    → Keeps boundary r
Runs-Keeps done h = h
Runs-Keeps {boundary} {window} {base} (more {i} {c} {cs} {p} s e d w) h =
    Runs-Keeps w (rw s at (step_in-Carries p.state boundary window base i (c ∷ cs) p h))
Runs-Keeps (leave s) h = tt
Runs-Keeps (breaks s) h = tt

scan_window-Keeps :
    (boundary : Bytes) (base : ℕ) (window : Bytes) (p : Parser)
    → Keeps boundary (scan_window boundary base window p)
unfolding scan_window
scan_window-Keeps boundary base window p =
    let start : Parser = record p { carried = [] } in
    let (r, w) =
      scan-Runs boundary window base (suc (length window)) 0 window start (omega arith) in
    rw (Runs→scan (suc (length window)) w (omega arith)) (Runs-Keeps w (omega arith))

-- Before the end of the body, a read of a byte or more that does not fail gives a byte at least.
abbrev pub IsReadable : Device → Type 0
IsReadable body =
    (position n : ℕ) (chunk : Bytes)
    → position < body.size
    → body.read position (pos (suc n)) ≡ some chunk
    → 0 < length chunk

room : (size skip : ℕ) → skip < size → sub_ℕ size skip ≡ pos (suc (size - skip - 1))
room size skip h = ground arith

go_on-ne :
    (boundary : Bytes) (next : Parser → Scanned) (s : Scanned)
    → s ≢ out_of_fuel
    → Keeps boundary s
    → ((q : Parser) → length q.carried ≤ length boundary - 1 → next q ≢ out_of_fuel)
    → go_on next s ≢ out_of_fuel
unfolding go_on
go_on-ne boundary next (through q) ne kept ih = ih q kept
go_on-ne boundary next (returned ret) ne kept ih = ne
go_on-ne boundary next overrun ne kept ih = ne
go_on-ne boundary next out_of_fuel ne kept ih = ne

module _ (body : Device) (buffer_size : ℕ) (boundary : Bytes)
    (fits : length boundary - 1 < buffer_size) where
  read_loop-ne :
      (fuel position : ℕ) (p : Parser)
      → IsReadable body
      → length p.carried ≤ length boundary - 1
      → body.size < position + fuel
      → 0 < fuel
      → read_loop fuel body buffer_size boundary position p ≢ out_of_fuel
  unfolding read_loop
  read_loop-ne zero position p reads kept enough some_fuel = absurd (omega arith)
  read_loop-ne (suc fuel) position p reads kept enough some_fuel =
      elim (Bool-cases (ltb position body.size)) [
        | inr e ↦ ground arith
        | inl e ↦
            let asked = room buffer_size (length p.carried) (omega arith) in
            elim (Option-cases (body.read position (sub_ℕ buffer_size (length p.carried)))) [
              | inl n ↦ ground arith
              | inr (chunk, got) ↦
                  let some_bytes : 0 < length chunk =
                    reads position (buffer_size - length p.carried - 1) chunk (ground arith)
                      (rw asked at got) in
                  let base = position - length p.carried in
                  let window = p.carried ++ chunk in
                  rw (e, got, read_loop)
                    (go_on-ne boundary
                      (λ q. read_loop fuel body buffer_size boundary (position + length chunk) q)
                      (scan_window boundary base window p) (scan_window-ne boundary base window p)
                      (scan_window-Keeps boundary base window p)
                      (λ q keeps.
                        read_loop-ne fuel (position + length chunk) q reads keeps (omega arith)
                          (ground arith)))
            ]
      ]

-- `execute` ends on every body whose reads give a byte at least, where the buffer has room for the
-- boundary.
pub execute-ne-out_of_fuel :
    (body : Device) (buffer_size : ℕ) (boundary : Bytes)
    → length boundary ≤ buffer_size
    → 0 < buffer_size
    → IsReadable body
    → execute (suc body.size) body buffer_size boundary ≢ out_of_fuel
unfolding execute
execute-ne-out_of_fuel body buffer_size boundary fits some_room reads =
    read_loop-ne body buffer_size boundary (omega arith) (suc body.size) 0 new_parser reads
      (omega arith) (omega arith) (omega arith)

index_in-none : (pre text : Bytes) → length text < length pre → index_in pre text ≡ none
index_in-none pre text h = elim (Option-cases (index_in pre text)) [
  | inl n ↦ n
  | inr (k, e) ↦ absurd (omega (arith, index_in-le pre text k e))
]

-- The first read of a part: up to the first byte of its contents.
abbrev pub first_read : Bytes → List (Bytes × Bytes) → ℕ → Bytes
first_read boundary fields c = boundary ++ crlf (field_lines fields (c ∷ []))

at_contents : Bytes → List (Bytes × Bytes) → Parser
at_contents boundary fields = record new_parser {
  headers = headers_of fields [];
  start_offset = length boundary + 2 + length (field_lines fields []);
  state = end_data;
}

scan_window-first_read :
    (boundary : Bytes) (fields : List (Bytes × Bytes)) (c : ℕ)
    → boundary ≢ []
    → All IsField fields
    → scan_window boundary 0 (first_read boundary fields c) new_parser
      ≡ through (at_contents boundary fields)
unfolding scan_window at_contents step_in
scan_window-first_read [] fields c ne h = absurd (ne refl)
scan_window-first_read (x ∷ xs) fields c ne h =
    let boundary = x ∷ xs in
    let window = first_read boundary fields c in
    let i = 0 + length boundary in
    let start : 0 + (i + 2 + length (field_lines fields []))
        ≡ length boundary + 2 + length (field_lines fields []) =
      omega arith in
    Runs→scan (suc (length window))
      (run_boundary boundary window 0 new_parser 0 x xs (crlf (field_lines fields (c ∷ []))) refl (
        run_crlf boundary window 0 new_parser i (field_lines fields (c ∷ [])) (
          run_fields boundary window 0 fields new_parser (i + 2) (c ∷ []) h (
            more
              (ap
                (λ (o : ℕ). goes 0 (record new_parser {
                  headers = headers_of fields [];
                  start_offset = o;
                  state = end_data;
                }))
                start)
              refl refl done))))
      (omega arith)

scan_window-short :
    (boundary : Bytes) (fields : List (Bytes × Bytes)) (base d : ℕ) (tail : Bytes)
    → length (d ∷ tail) < length boundary - 1
    → scan_window boundary base (d ∷ tail) (at_contents boundary fields) ≡ overrun
unfolding scan_window at_contents step_in end_data_round
scan_window-short boundary fields base d tail short =
    let absent = index_in-none boundary (d ∷ tail) (omega arith) in
    Runs→scan (suc (length (d ∷ tail))) (breaks (ground (arith, absent))) (omega arith)

read_loop-step :
    (body : Device) (fuel buffer_size position : ℕ) (boundary chunk : Bytes) (p : Parser)
    → p.carried ≡ []
    → position < body.size
    → body.read position (pos buffer_size) ≡ some chunk
    → read_loop (suc fuel) body buffer_size boundary position p
      ≡ go_on
          (λ q. read_loop fuel body buffer_size boundary (position + length chunk) q)
          (scan_window boundary position chunk p)
unfolding read_loop
read_loop-step body fuel buffer_size position boundary chunk p fresh inside got =
    let asked : sub_ℕ buffer_size 0 ≡ pos buffer_size = ground arith in
    let at : position - 0 ≡ position = omega arith in ground (arith, fresh, got, asked, at)

-- Where the first read of a body, with a boundary that is not empty and well-formed header fields,
-- ends exactly behind the first byte of the contents of its first part, and the second brings all of
-- the rest, at least a byte of it and fewer than the boundary has less one, `execute` copies from in
-- front of its buffer.
pub execute-overrun :
    (boundary : Bytes) (fields : List (Bytes × Bytes)) (c d : ℕ) (tail : Bytes) (body : Device)
    (fuel buffer_size : ℕ)
    → boundary ≢ []
    → All IsField fields
    → length (d ∷ tail) < length boundary - 1
    → body.size ≡ length (first_read boundary fields c) + length (d ∷ tail)
    → body.read 0 (pos buffer_size) ≡ some (first_read boundary fields c)
    → body.read (length (first_read boundary fields c)) (pos buffer_size) ≡ some (d ∷ tail)
    → execute (suc (suc fuel)) body buffer_size boundary ≡ overrun
unfolding execute go_on at_contents
execute-overrun boundary fields c d tail body fuel buffer_size ne h short size first second =
    let window = first_read boundary fields c in
    let p = at_contents boundary fields in
    let one =
      read_loop-step body (suc fuel) buffer_size 0 boundary window new_parser refl (omega arith)
        first in
    let on : 0 + length window ≡ length window = omega arith in
    let two =
      read_loop-step body fuel buffer_size (0 + length window) boundary (d ∷ tail) p refl
        (omega arith) (rw on second) in
    one
    ∙ rw (scan_window-first_read boundary fields c ne h)
        (two ∙ rw (scan_window-short boundary fields (0 + length window) d tail short) refl)
