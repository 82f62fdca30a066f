-- ===== src/Multipart.antt =====
-- The parser of multipart/form-data bodies: MultiPartFormDataParserPrivate::execute and findBoundary
-- of Cutelyst/multipartformdataparser.cpp.
pub mod Boundary
pub mod Runs
mod Fields
pub mod Lines
pub mod Parts
pub mod Reads
mod Tests
use cutelyst.Common.{
  ℕ, zero, suc, ◌+◌, ◌-◌, Bytes, List, [], ◌∷◌, ◌++◌, Bool, true, false, ◌&&◌, if◌then◌else◌, ltb,
  Option, none, some, length, take, drop, is_empty, index_of, starts_with_byte,
}
use cutelyst.Common.Int.{ℤ, sub_ℕ}
use cutelyst.Headers.{Headers, set_header}
use cutelyst.Multipart.Boundary.{index_in, trimmed, boundary_of}

pub data ParserState : Type 0 where
  find_boundary end_boundary_cr end_boundary_lf start_headers : ParserState
  finish_header end_headers start_data end_data : ParserState

-- An UploadPrivate: the headers of the part, and where its bytes lie in the body.
pub record Upload : Type 0 where
  pub headers : Headers
  pub start_offset : ℕ
  pub end_offset : ℤ

-- The variables of `execute`; `carried` is the `bufferSkip` bytes at the front of the buffer.
pub record Parser : Type 0 where
  pub ret : List Upload
  pub header_line : Bytes
  pub headers : Headers
  pub start_offset : ℕ
  pub state : ParserState
  pub carried : Bytes

-- What a round of the loop over the window does: `i` grows by `k + 1`, `execute` returns, or the
-- `memmove` starts in front of the buffer.
pub data Move : Type 0 where
  goes : ℕ → Parser → Move
  leaves : List Upload → Move
  overruns : Move

-- `headerLine.left(dotdot)` and the trimmed bytes behind; a line without a colon has `dotdot` -1.
pub name_of : Bytes → Bytes
name_of line = elim (index_of 0x3a line) [ none ↦ [] | some dotdot ↦ take dotdot line ]

pub value_of : Bytes → Bytes
value_of line = elim (index_of 0x3a line) [
  | none ↦ trimmed line
  | some dotdot ↦ trimmed (drop (suc dotdot) line)
]

-- `case StartHeaders`; `unread` is the window from `buffer + i` on.
pub start_headers_round : Bytes → Parser → Move
start_headers_round unread p =
    if is_empty p.header_line && starts_with_byte 0xd unread
    then goes 0 (record p { state = end_headers })
    else elim (index_of 0xd unread) [
      | none ↦ goes (length unread) (record p { header_line = p.header_line ++ unread })
      | some k ↦
          goes k (record p { header_line = p.header_line ++ take k unread; state = finish_header })
    ]

abbrev finish_line : Parser → Parser
finish_line p = record p {
  headers = set_header (name_of p.header_line) (value_of p.header_line) p.headers;
  header_line = [];
  state = start_headers;
}

-- The upload at a boundary whose last byte is at offset `last` of the body.
abbrev add_upload : Bytes → ℕ → Parser → Parser
add_upload boundary last p = record p {
  ret =
      p.ret
      ++ (record {
        headers = p.headers;
        start_offset = p.start_offset;
        end_offset = sub_ℕ last (length boundary + 1);
      }
          ∷ []);
  headers = [];
  state = end_boundary_cr;
}

-- `case EndData`: the end of the window is moved to the front of the buffer where there is no boundary.
pub end_data_round : Bytes → Bytes → ℕ → ℕ → Bytes → Parser → Move
end_data_round boundary window base i unread p =
    let skip = length boundary - 1 in
    elim (index_in boundary unread) [
      | some k ↦
          let on = k + length boundary - 1 in goes on (add_upload boundary (base + (i + on)) p)
      | none ↦
          if ltb (length window) skip
          then overruns
          else goes (length unread) (record p { carried = drop (length window - skip) window })
    ]

-- The switch. `base` is `pos - len`, the offset of the window in the body.
pub step_in : ParserState → Bytes → Bytes → ℕ → ℕ → Bytes → Parser → Move
step_in find_boundary boundary window base i unread p = elim (index_in boundary unread) [
  | none ↦ goes (length unread) p
  | some k ↦ goes (k + length boundary - 1) (record p { state = end_boundary_cr })
]
step_in end_boundary_cr boundary window base i unread p =
    if starts_with_byte 0xd unread
    then goes 0 (record p { state = end_boundary_lf })
    else leaves p.ret
step_in end_boundary_lf boundary window base i unread p =
    if starts_with_byte 0xa unread
    then goes 0 (record p { state = start_headers })
    else leaves p.ret
step_in start_headers boundary window base i unread p = start_headers_round unread p
step_in finish_header boundary window base i unread p =
    if starts_with_byte 0xa unread then goes 0 (finish_line p) else leaves p.ret
step_in end_headers boundary window base i unread p =
    if starts_with_byte 0xa unread then goes 0 (record p { state = start_data }) else leaves p.ret
step_in start_data boundary window base i unread p =
    goes 0 (record p { start_offset = base + i; state = end_data })
step_in end_data boundary window base i unread p = end_data_round boundary window base i unread p

-- How the loop over a window ends.
pub data Scanned : Type 0 where
  through : Parser → Scanned
  returned : List Upload → Scanned
  overrun : Scanned
  out_of_fuel : Scanned

-- `while (i < len)`.
pub scan : ℕ → Bytes → Bytes → ℕ → ℕ → Bytes → Parser → Scanned
scan zero boundary window base i unread p = out_of_fuel
scan (suc fuel) boundary window base i [] p = through p
scan (suc fuel) boundary window base i (c ∷ cs) p =
    elim (step_in p.state boundary window base i (c ∷ cs) p) [
      | goes k q ↦ scan fuel boundary window base (i + k + 1) (drop k cs) q
      | leaves ret ↦ returned ret
      | overruns ↦ overrun
    ]

pub scan_window : Bytes → ℕ → Bytes → Parser → Scanned
scan_window boundary base window p =
    scan (suc (length window)) boundary window base 0 window (record p { carried = [] })

-- A device: whether it can seek, its size, and what `read` puts into the buffer at a position for a number of
-- bytes at most; `none` is a negative result.
pub record Device : Type 0 where
  pub is_sequential : Bool
  pub size : ℕ
  pub read : ℕ → ℤ → Option Bytes

-- After a window, what `next` does with the rest of the body.
pub go_on : (Parser → Scanned) → Scanned → Scanned
go_on next (through p) = next p
go_on next (returned ret) = returned ret
go_on next overrun = overrun
go_on next out_of_fuel = out_of_fuel

-- `while (pos < contentLength)`.
pub read_loop : ℕ → Device → ℕ → Bytes → ℕ → Parser → Scanned
read_loop zero body buffer_size boundary position p = out_of_fuel
read_loop (suc fuel) body buffer_size boundary position p = elim (ltb position body.size) [
  | false ↦ returned p.ret
  | true ↦ elim (body.read position (sub_ℕ buffer_size (length p.carried))) [
    | none ↦ returned p.ret
    | some chunk ↦
        go_on (λ q. read_loop fuel body buffer_size boundary (position + length chunk) q)
          (scan_window boundary (position - length p.carried) (p.carried ++ chunk) p)
  ]
]

abbrev pub new_parser : Parser
new_parser = record {
  ret = [];
  header_line = [];
  headers = [];
  start_offset = 0;
  state = find_boundary;
  carried = [];
}

pub execute : ℕ → Device → ℕ → Bytes → Scanned
execute fuel body buffer_size boundary = read_loop fuel body buffer_size boundary 0 new_parser

-- MultiPartFormDataParser::parse.
pub parse : ℕ → Device → Bytes → ℕ → Scanned
parse fuel body content_type buffer_size =
    if body.is_sequential then returned [] else elim (boundary_of content_type) [
      | none ↦ returned []
      | some boundary ↦
          execute fuel body (if ltb buffer_size 1024 then 1024 else buffer_size) boundary
    ]
