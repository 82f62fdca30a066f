-- ===== src/Http/Responses/Laws.antt =====
-- The head of a response is its status line, its fields in their order, a line on the connection and
-- a date where no field gives them, and a blank line.
use cutelyst.Common.{
  ℕ, ◌==◌, if◌then◌else◌, Bytes, List, [], ◌∷◌, ◌++◌, map, Bool, true, false, not, ◌&&◌, ◌||◌, some,
  codes, bytes_eq, bytes_eq→eq, same_key, lower, ◌≡◌, refl, sym, ap, ◌∙◌, append_assoc, arith,
}
use cutelyst.Headers.{Headers}
use cutelyst.Http.Lines.Laws.{crlf}
use cutelyst.Http.Requests.{HeaderConnection, not_set, keep, close, upgrade, is_not_set}
use cutelyst.Http.Responses.{
  HeadState, http11_status_message, add_line, connection_of, write_field, write_fields, is_keep,
  is_close, write_connection, write_date, write_headers,
}

-- Lines, each with its end, a blank line, and what follows.
abbrev pub lines_text : List Bytes → Bytes → Bytes
lines_text [] rest = crlf rest
lines_text (line ∷ lines) rest = line ++ crlf (lines_text lines rest)

abbrev pub field_lines : Headers → List Bytes
field_lines [] = []
field_lines ((key, value) ∷ headers) = (key ++ (0x3a ∷ 0x20 ∷ value)) ∷ field_lines headers

abbrev pub has_key : Bytes → Headers → Bool
has_key name [] = false
has_key name ((key, value) ∷ headers) = same_key key name || has_key name headers

-- What the first Connection field says.
abbrev pub asked : Headers → HeaderConnection
asked [] = not_set
asked ((key, value) ∷ headers) =
    if same_key key (codes "Connection") then connection_of value else asked headers

-- The connection where no field says anything: what the request asked for, else as in HTTP/1.1.
abbrev pub stays : HeaderConnection → Bytes → Bool
stays fallback protocol =
    is_keep fallback || not (is_close fallback) && bytes_eq protocol (codes "HTTP/1.1")

abbrev pub connection_lines : Headers → HeaderConnection → Bytes → List Bytes
connection_lines headers fallback protocol =
    if has_key (codes "Connection") headers
    then []
    else if stays fallback protocol
    then codes "Connection: keep-alive" ∷ []
    else codes "Connection: close" ∷ []

abbrev pub date_lines : Headers → Bytes → List Bytes
date_lines headers date =
    if has_key (codes "Date") headers then [] else (codes "Date: " ++ date) ∷ []

abbrev added : Bytes → List Bytes → Bytes
added text [] = text
added text (line ∷ lines) = added (add_line text line) lines

-- A name is not both.
date_other :
    (key : Bytes) → same_key key (codes "Connection") ≡ true → same_key key (codes "Date") ≡ false
date_other key c =
    let lowered = bytes_eq→eq (map lower key) (map lower (codes "Connection")) c in
    ap (λ (s : Bytes). bytes_eq s (map lower (codes "Date"))) lowered

abbrev first_of : HeaderConnection → HeaderConnection → HeaderConnection
first_of not_set later = later
first_of keep later = keep
first_of close later = close
first_of upgrade later = upgrade

write_field_lem :
    (key value : Bytes) (s : HeadState)
    → ((write_field key value s).text ≡ add_line s.text (key ++ (0x3a ∷ 0x20 ∷ value)))
      × ((write_field key value s).has_date ≡ (s.has_date || same_key key (codes "Date")))
      × ((write_field key value s).connection
          ≡ first_of s.connection
              (if same_key key (codes "Connection") then connection_of value else not_set))
unfolding write_field
write_field_lem key value s = ground (arith, date_other key)

asked-has_key :
    (headers : Headers) → is_not_set (asked headers) ≡ not (has_key (codes "Connection") headers)
asked-has_key [] = refl
asked-has_key ((key, value) ∷ headers) = ground (arith, asked-has_key headers)

write_fields_lem :
    (headers : Headers) (s : HeadState)
    → ((write_fields headers s).text ≡ added s.text (field_lines headers))
      × ((write_fields headers s).has_date ≡ (s.has_date || has_key (codes "Date") headers))
      × ((write_fields headers s).connection ≡ first_of s.connection (asked headers))
unfolding write_fields
write_fields_lem [] s = ground arith
write_fields_lem ((key, value) ∷ headers) s =
    let (text, date, connection) = write_field_lem key value s in
    let (text', date', connection') = write_fields_lem headers (write_field key value s) in
    (text' ∙ ap (λ (t : Bytes). added t (field_lines headers)) text, ground arith, ground arith)

added-append :
    (text : Bytes) (xs ys : List Bytes) → added text (xs ++ ys) ≡ added (added text xs) ys
added-append text [] ys = refl
added-append text (x ∷ xs) ys = added-append (add_line text x) xs ys

added-lines_text :
    (text : Bytes) (lines : List Bytes) (rest : Bytes)
    → added text lines ++ crlf (crlf rest) ≡ lines_text (text ∷ lines) rest
added-lines_text text [] rest = refl
added-lines_text text (line ∷ lines) rest =
    added-lines_text (add_line text line) lines rest
    ∙ append_assoc text (crlf line) (crlf (lines_text lines rest))

-- The connection behind the head.
abbrev pub connection_behind : Headers → HeaderConnection → Bytes → HeaderConnection
connection_behind headers fallback protocol =
    if has_key (codes "Connection") headers
    then asked headers
    else if stays fallback protocol
    then keep
    else close

write_connection_lem :
    (headers : Headers) (fallback : HeaderConnection) (protocol : Bytes) (s : HeadState)
    → s.connection ≡ asked headers
    → ((write_connection fallback protocol s).text
        ≡ added s.text (connection_lines headers fallback protocol))
      × ((write_connection fallback protocol s).has_date ≡ s.has_date)
      × ((write_connection fallback protocol s).connection
          ≡ connection_behind headers fallback protocol)
unfolding write_connection
write_connection_lem headers fallback protocol s e = ground (arith, asked-has_key headers)

write_date_lem :
    (headers : Headers) (date : Bytes) (s : HeadState)
    → s.has_date ≡ has_key (codes "Date") headers
    → ((write_date date s).text ≡ added s.text (date_lines headers date))
      × ((write_date date s).connection ≡ s.connection)
unfolding write_date
write_date_lem headers date s e = ground arith

-- Unless it refuses, writeHeaders writes the status line, every field in its order, a line on the
-- connection if no field is a Connection, and a date if no field is a Date, each with a line end, and
-- a blank line. The first Connection field decides what happens to the connection; without one the
-- request and the protocol do.
pub write_headers-lines :
    (websocket_upgraded : Bool) (status : ℕ) (headers : Headers) (fallback : HeaderConnection)
    (protocol date rest : Bytes)
    → (websocket_upgraded && not (status == 101)) ≡ false
    → (text : Bytes) × (write_headers websocket_upgraded status headers fallback protocol date
        ≡ some (text, connection_behind headers fallback protocol))
      × (text ++ rest
          ≡ lines_text
              (http11_status_message status
                ∷ (field_lines headers
                    ++ (connection_lines headers fallback protocol ++ date_lines headers date)))
              rest)
unfolding write_headers
write_headers-lines websocket_upgraded status headers fallback protocol date rest accepted =
    let message = http11_status_message status in
    let start : HeadState = record { text = message; connection = not_set; has_date = false } in
    let s = write_fields headers start in
    let s' = write_connection fallback protocol s in
    let (text, dated, connection) = write_fields_lem headers start in
    let (text', dated', connection') =
      write_connection_lem headers fallback protocol s connection in
    let (text'', connection'') = write_date_lem headers date s' (dated' ∙ dated) in
    let fields = field_lines headers in
    let more = connection_lines headers fallback protocol in
    let whole : (write_date date s').text
        ≡ added message (fields ++ (more ++ date_lines headers date)) =
      text''
      ∙ ap (λ (t : Bytes). added t (date_lines headers date))
          (text' ∙ ap (λ (t : Bytes). added t more) text)
      ∙ sym (
          added-append message fields (more ++ date_lines headers date)
          ∙ added-append (added message fields) more (date_lines headers date)) in
    (
      (write_date date s').text ++ crlf (crlf []),
      rw accepted (
          ap (λ (c : HeaderConnection). some ((write_date date s').text ++ crlf (crlf []), c))
            (connection'' ∙ connection')),
      append_assoc (write_date date s').text (crlf (crlf [])) rest
          ∙ ap (λ (t : Bytes). t ++ crlf (crlf rest)) whole
          ∙ added-lines_text message (fields ++ (more ++ date_lines headers date)) rest,
    )
