-- ===== src/Http/Parse/Laws.antt =====
-- The read loop of HTTP/1 (ProtocolHttp::parse) ends.
use cutelyst.Common.{
  ℕ, zero, suc, ◌+◌, ◌-◌, min, refl, ◌++◌, ◌≤◌, ◌<◌, ltb, if◌then◌else◌, Bytes, [], ◌∷◌, length,
  drop, take, Bool, true, false, not, is_empty, Option, none, some, ◌≢◌, arith, length-drop,
  Bool-cases, Option-cases, inl, inr,
}
use cutelyst.Common.Int.{ℤ, pos, negsuc}
use cutelyst.Http.Lines.{crlf_index_in}
use cutelyst.Http.Lines.Laws.{crlf_index_in-bounds}
use cutelyst.Http.Parse.{
  ParserState, method_line, header_line, content_body, Connection, Server, Answer, finished, later,
  upgraded, Turn, go_on, leave, endless, leave_with, loop_if, body_loop, body_read, parse_body,
  connection_close, reset_data, processing_finished, answered, process_request, start_body,
  end_of_head, take_line, round, line_loop, parse, fill, emit,
}

-- The bytes that are not looked at yet.
abbrev pub unseen : Connection → ℕ
unseen c = length c.buffer - c.last

module _ (server : Server) where
  processing_finished-unseen :
      (connected : Bool) (c : Connection)
      → unseen (processing_finished server connected c) ≤ unseen c
  unfolding processing_finished reset_data
  processing_finished-unseen connected c = ground (arith, length-drop {0} c.last c.buffer)

  answered-unseen : (a : Answer) (c : Connection) → unseen (answered server a c).0 ≤ unseen c
  answered-unseen (finished connection connected) c =
      processing_finished-unseen connected
        (record c { request = record c.request { header_connection = connection } })
  answered-unseen later c = omega arith
  answered-unseen upgraded c = omega arith

  pub process_request-unseen : (c : Connection) → unseen (process_request server c).0 ≤ unseen c
  unfolding process_request
  process_request-unseen c = elim (Bool-cases (server.upgrade_h2c c.request)) [
    | inl yes_h2c ↦ rw yes_h2c (omega arith)
    | inr no_h2c ↦ rw no_h2c (answered-unseen (server.answer c.request c.body) _)
  ]

  -- What a round that goes on leaves unseen.
  abbrev Within : Turn → ℕ → Type 0
  Within (go_on c) n = unseen c ≤ n
  Within (leave c) n = Unit
  Within endless n = ⊥

  loop_if-Within : (r : Connection × Bool) (n : ℕ) → unseen r.0 ≤ n → Within (loop_if r) n
  loop_if-Within (c, true) n h = h
  loop_if-Within (c, false) n h = tt

  processed-Within : (c : Connection) → Within (loop_if (process_request server c)) (unseen c)
  processed-Within c =
      loop_if-Within (process_request server c) (unseen c) (process_request-unseen c)

  Within-mono : (t : Turn) (m n : ℕ) → m ≤ n → Within t m → Within t n
  Within-mono (go_on c) m n h w = omega arith
  Within-mono (leave c) m n h w = tt
  Within-mono endless m n h w = w

  Within-if :
      (b : Bool) (t u : Turn) (n : ℕ) → Within t n → Within u n → Within (if b then t else u) n
  Within-if true t u n h k = h
  Within-if false t u n h k = k

  turn-ne-none :
      (t : Turn) (loop : Connection → Option Connection) (n : ℕ)
      → Within t n
      → ((c : Connection) → unseen c ≤ n → loop c ≢ none)
      → elim t as (λ _. Option Connection) [ go_on c ↦ loop c | leave c ↦ some c | endless ↦ none ]
        ≢ none
  turn-ne-none (go_on c) loop n w h = h c w
  turn-ne-none (leave c) loop n w h = λ e. cc
  turn-ne-none endless loop n w h = absurd w

module _ (server : Server) (takes : 0 < server.post_buffer_size) where
  -- A round of the loop over a body that goes on takes a byte at least from the socket.
  body_loop-ne-none :
      (fuel content_length : ℕ) (body io : Bytes)
      → length io < fuel
      → body_loop server fuel content_length body io ≢ none
  unfolding body_loop
  body_loop-ne-none zero content_length body io h = absurd (omega arith)
  body_loop-ne-none (suc fuel) content_length body io h =
      let remaining = content_length - length body in
      let len = min server.post_buffer_size remaining in
      ground (
        arith,
        length-drop {0} len io,
        body_loop-ne-none fuel content_length (body ++ take len io) (drop len io),
      )

  body_read-ne-none :
      (c : Connection) (o : Option (Bytes × Bytes × Bool)) → o ≢ none → body_read server c o ≢ none
  unfolding body_read
  body_read-ne-none c none h = λ e. h refl
  body_read-ne-none c (some r) h = λ e. cc

  parse_body-ne-none : (c : Connection) → parse_body server c ≢ none
  unfolding parse_body
  parse_body-ne-none c = elim (Bool-cases server.read_fails) [
    | inl fails ↦ rw fails (λ e. cc)
    | inr reads ↦
        rw reads
          (body_read-ne-none c _ (body_loop-ne-none (suc (length c.io)) _ _ c.io (omega arith)))
  ]

  leave_with-Within : (o : Option Connection) (n : ℕ) → o ≢ none → Within server (leave_with o) n
  leave_with-Within none n h = absurd (h refl)
  leave_with-Within (some c) n h = tt

  read-ne-none : (b : Bool) (c : Connection) → (if b then some c else parse_body server c) ≢ none
  read-ne-none true c = λ e. cc
  read-ne-none false c = parse_body-ne-none c

  start_body-Within :
      (content_length : ℕ) (c : Connection)
      → Within server (start_body server content_length c) (unseen c)
  unfolding start_body
  start_body-Within content_length c =
      let body = take content_length (drop c.last c.buffer) in
      let c' = record c {
        conn_state = content_body;
        body = some body;
        last = c.last + length body;
      } in
      let once = loop_if (process_request server c') in
      let read : Option Connection = if is_empty c'.io then some c' else parse_body server c' in
      let more : Turn = leave_with read in
      Within-if server (not (server.can_create_body content_length))
        (leave (emit connection_close (record c { conn_state = content_body; body = none })))
        (if ltb (length body) content_length then more else once) (unseen c) tt
        (Within-if server (ltb (length body) content_length) more once (unseen c)
          (leave_with-Within read (unseen c) (read-ne-none (is_empty c'.io) c'))
          (Within-mono server once (unseen c') (unseen c) (omega arith)
            (processed-Within server c')))

  end_of_head-Within : (z : ℤ) (c : Connection) → Within server (end_of_head server z c) (unseen c)
  unfolding end_of_head
  end_of_head-Within (pos (suc n)) c = start_body-Within (suc n) c
  end_of_head-Within (pos zero) c = processed-Within server c
  end_of_head-Within (negsuc n) c = processed-Within server c

  take_line-Within :
      (s : ParserState) (line : Bytes) (c : Connection)
      → Within server (take_line server s line c) (unseen c)
  unfolding take_line
  take_line-Within method_line line c = omega arith
  take_line-Within header_line [] c = end_of_head-Within c.request.content_length c
  take_line-Within header_line (x ∷ line) c = omega arith
  take_line-Within content_body line c = omega arith

  round-Within :
      (c : Connection)
      → c.last < length c.buffer
      → Within server (round server (crlf_index_in c.buffer c.last) c) (unseen c - 1)
  unfolding round
  round-Within c h = elim (Option-cases (crlf_index_in c.buffer c.last)) [
    | inl e ↦ rw (e, round) (omega arith)
    | inr (ix, e) ↦
        rw (e, round)
          (let line = take (ix - c.begin_line) (drop c.begin_line c.buffer) in
            let c' = record c { begin_line = ix + 2; last = ix + 2 } in
            Within-mono server (take_line server c.conn_state line c') (unseen c') (unseen c - 1)
              (omega (arith, crlf_index_in-bounds c.buffer c.last ix h e))
              (take_line-Within c.conn_state line c'))
  ]

  line_loop-ne-none : (fuel : ℕ) (c : Connection) → unseen c < fuel → line_loop server fuel c ≢ none
  unfolding line_loop
  line_loop-ne-none zero c h = absurd (omega arith)
  line_loop-ne-none (suc fuel) c h = elim (Bool-cases (ltb c.last (length c.buffer))) [
    | inl more ↦
        let lt : c.last < length c.buffer = ground arith in
        rw more (
          turn-ne-none server (round server (crlf_index_in c.buffer c.last) c)
            (line_loop server fuel) (unseen c - 1) (round-Within c lt)
            (λ c' k. line_loop-ne-none fuel c' (omega arith)))
    | inr done ↦ rw done (λ e. cc)
  ]

  -- ProtocolHttp::parse ends if the buffer for bodies has room for a byte: every round of the loop
  -- over the lines looks at a byte more at least, and every round of the loop over a body, but the
  -- last, takes one from the socket.
  pub parse-ne-none : (c : Connection) → parse server c ≢ none
  unfolding parse
  parse-ne-none c = ground (
    arith,
    parse_body-ne-none c,
    line_loop-ne-none (suc (length (fill server c).buffer)) (fill server c),
  )
