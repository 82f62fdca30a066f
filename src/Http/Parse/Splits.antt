-- ===== src/Http/Parse/Splits.antt =====
-- How the bytes of a line may be split over the reads of ProtocolHttp::parse.
use cutelyst.Common.{
  ℕ, suc, ◌+◌, ◌-◌, ◌≤◌, ◌<◌, ltb, Bytes, [], ◌∷◌, ◌++◌, length, drop, take, append_assoc, true,
  false, Option, none, some, ◌≡◌, refl, sym, ◌∙◌, ap, arith, length-append, take-of-le, drop-of-le,
  ap₂, All-append, Bool-cases, inl, inr,
}
use cutelyst.Http.Lines.{crlf_index_in}
use cutelyst.Http.Lines.Laws.{
  IsLine, crlf, crlf_index_in-line, crlf_index_in-none, crlf_index_in-append, crlf_from-cut,
}
use cutelyst.Http.Parse.{
  Connection, Server, Turn, go_on, leave, endless, is_body, take_line, round, line_loop, parse,
  fill,
}

-- The socket gets more bytes.
abbrev pub arrive : Bytes → Connection → Connection
arrive s c = record c { io = c.io ++ s }

-- Waiting for the rest of a line, with all of the buffer looked at.
pub record IsWaiting (c : Connection) : Type 0 where
  pub nothing_to_read : c.io ≡ []
  pub all_seen : c.last ≡ length c.buffer
  pub not_async : c.async ≡ false
  pub not_body : is_body c.conn_state ≡ false

-- Waiting with more bytes behind.
abbrev pub waiting : Connection → Bytes → Connection
waiting c a = record c { buffer = c.buffer ++ a; io = []; last = length (c.buffer ++ a) }

module _ (server : Server) where
  -- The loop behind a round.
  abbrev pub proceed : ℕ → Turn → Option Connection
  proceed fuel (go_on c) = line_loop server fuel c
  proceed fuel (leave c) = some c
  proceed fuel endless = none

  line_loop-suc :
      (fuel : ℕ) (c : Connection)
      → c.last < length c.buffer
      → line_loop server (suc fuel) c
        ≡ proceed fuel (round server (crlf_index_in c.buffer c.last) c)
  unfolding line_loop
  line_loop-suc fuel c h =
      let more : ltb c.last (length c.buffer) ≡ true = ground arith in
      rw more (proceed_lem (round server (crlf_index_in c.buffer c.last) c))
    where
      proceed_lem :
          (t : Turn)
          → elim t as (λ _. Option Connection) [
            | go_on c' ↦ line_loop server fuel c'
            | leave c' ↦ some c'
            | endless ↦ none
          ]
            ≡ proceed fuel t
      proceed_lem (go_on c') = refl
      proceed_lem (leave c') = refl
      proceed_lem endless = refl

  pub line_loop-done :
      (fuel : ℕ) (c : Connection)
      → length c.buffer ≤ c.last
      → line_loop server (suc fuel) c ≡ some c
  unfolding line_loop
  line_loop-done fuel c h = ground arith

  -- The loop where no line ends.
  line_loop-none :
      (fuel : ℕ) (c : Connection)
      → c.last ≤ length c.buffer
      → crlf_index_in c.buffer c.last ≡ none
      → length c.buffer ≤ fuel
      → line_loop server (suc fuel) c ≡ some (record c { last = length c.buffer })
  unfolding round
  line_loop-none fuel c h e f = elim (Bool-cases (ltb c.last (length c.buffer))) [
    | inl more ↦
        let lt : c.last < length c.buffer = ground arith in
        let k : fuel ≡ suc (fuel - 1) = omega arith in
        line_loop-suc fuel c lt
        ∙ ap (λ (r : Option ℕ). proceed fuel (round server r c)) e
        ∙ ap (λ n. line_loop server n (record c { last = length c.buffer })) k
        ∙ line_loop-done (fuel - 1) (record c { last = length c.buffer }) (omega arith)
    | inr done ↦
        let all : c.last ≡ length c.buffer = ground arith in
        line_loop-done fuel c (omega arith) ∙ ap (λ n. some (record c { last = n })) all
  ]

  -- The loop where a line ends.
  pub line_loop-line :
      (fuel : ℕ) (c : Connection) (ix : ℕ)
      → c.last < length c.buffer
      → crlf_index_in c.buffer c.last ≡ some ix
      → line_loop server (suc fuel) c
        ≡ proceed fuel (
            take_line server c.conn_state
              (take (ix - c.begin_line) (drop c.begin_line c.buffer))
              (record c { begin_line = ix + 2; last = ix + 2 }))
  unfolding round
  line_loop-line fuel c ix h e =
      line_loop-suc fuel c h ∙ ap (λ (r : Option ℕ). proceed fuel (round server r c)) e

  pub fill-io :
      (c : Connection) (s : Bytes)
      → length c.buffer + length s ≤ server.buffer_size
      → fill server (record c { io = s }) ≡ record c { buffer = c.buffer ++ s; io = [] }
  fill-io c s room =
      let n : ℕ = server.buffer_size - length c.buffer in
      ap₂ (λ (x y : Bytes). record c { buffer = c.buffer ++ x; io = y })
        (take-of-le n s (omega arith)) (drop-of-le n s (omega arith))

  pub parse-ready :
      (c : Connection)
      → server.read_fails ≡ false
      → c.async ≡ false
      → is_body c.conn_state ≡ false
      → parse server c ≡ line_loop server (suc (length (fill server c).buffer)) (fill server c)
  unfolding parse
  parse-ready c reads sync no_body = rw (reads, no_body) (rw sync)

  module _ (c : Connection) (waits : IsWaiting c) (reads : server.read_fails ≡ false) where
    -- What is read is put behind what is in the buffer.
    parse-arrive :
        (s : Bytes)
        → length c.buffer + length s ≤ server.buffer_size
        → parse server (arrive s c)
          ≡ line_loop server
              (suc (length (c.buffer ++ s)))
              (record c { buffer = c.buffer ++ s; io = [] })
    parse-arrive s room =
        parse-ready (arrive s c) reads waits.not_async waits.not_body
        ∙ ap (λ d. line_loop server (suc (length d.buffer)) d)
            (ap (λ (i : Bytes). fill server (record c { io = i ++ s })) waits.nothing_to_read
              ∙ fill-io c s room)

    -- A read with no line end in it leaves all of it in the buffer, looked at.
    parse-part :
        (s : Bytes)
        → crlf_index_in (c.buffer ++ s) (length c.buffer) ≡ none
        → length c.buffer + length s ≤ server.buffer_size
        → parse server (arrive s c)
          ≡ some (record c { buffer = c.buffer ++ s; io = []; last = length (c.buffer ++ s) })
    parse-part s unfinished room =
        parse-arrive s room
        ∙ line_loop-none (length (c.buffer ++ s)) (record c { buffer = c.buffer ++ s; io = [] })
            (omega (arith, waits.all_seen, length-append {0} c.buffer s))
            (ap (crlf_index_in (c.buffer ++ s)) waits.all_seen ∙ unfinished) (omega arith)

    -- What follows a line end at `ix`.
    abbrev after_line : Bytes → ℕ → Option Connection
    after_line whole ix = proceed (length whole) (
        take_line server c.conn_state (take (ix - c.begin_line) (drop c.begin_line whole))
          (record c { buffer = whole; io = []; begin_line = ix + 2; last = ix + 2 }))

    -- A read with a line end in it.
    parse-line :
        (line rest : Bytes)
        → IsLine line
        → length c.buffer + length (line ++ crlf rest) ≤ server.buffer_size
        → parse server (arrive (line ++ crlf rest) c)
          ≡ after_line (c.buffer ++ (line ++ crlf rest)) (length c.buffer + length line)
    parse-line line rest h room =
        let whole = c.buffer ++ (line ++ crlf rest) in
        parse-arrive (line ++ crlf rest) room
        ∙ line_loop-line (length whole) (record c { buffer = whole; io = [] })
            (length c.buffer + length line)
            (omega (
              arith,
              waits.all_seen,
              length-append {0} c.buffer (line ++ crlf rest),
              length-append {0} line (crlf rest),
            ))
            (ap (crlf_index_in whole) waits.all_seen ∙ crlf_index_in-line c.buffer line rest h)

  module _ (c : Connection) (waits : IsWaiting c) (reads : server.read_fails ≡ false) where
    waiting-IsWaiting : (a : Bytes) → IsWaiting (waiting c a)
    waiting-IsWaiting a = record {
      nothing_to_read = refl;
      all_seen = refl;
      not_async = waits.not_async;
      not_body = waits.not_body;
    }

    -- The bytes of a line and its end may come in two reads, split inside the line.
    pub parse_split :
        (a b rest : Bytes)
        → IsLine a
        → IsLine b
        → length c.buffer + length (a ++ (b ++ crlf rest)) ≤ server.buffer_size
        → (c' : Connection) × (parse server (arrive a c) ≡ some c')
          × (parse server (arrive (b ++ crlf rest) c')
              ≡ parse server (arrive (a ++ (b ++ crlf rest)) c))
    parse_split a b rest ha hb room =
        let size = length-append {0} a (b ++ crlf rest) in
        let front = length-append {0} c.buffer a in
        (
          waiting c a,
          parse-part c waits reads a (crlf_index_in-none c.buffer a ha) (omega arith),
          parse-line (waiting c a) (waiting-IsWaiting a) reads b rest hb (omega arith)
              ∙ ap₂ (after_line c waits reads)
                  (append_assoc c.buffer a (b ++ crlf rest)
                    ∙ ap (λ (t : Bytes). c.buffer ++ t) (sym (append_assoc a b (crlf rest))))
                  (omega (arith, length-append {0} a b))
              ∙ sym (
                  parse-line c waits reads (a ++ b) rest (All-append _ a b ha hb)
                    (omega (arith, ap (λ (t : Bytes). length t) (append_assoc a b (crlf rest)))))
              ∙ ap (λ (t : Bytes). parse server (arrive t c)) (append_assoc a b (crlf rest)),
        )

    -- A line end that is split between two reads is not seen.
    pub parse_split_crlf :
        (a rest : Bytes)
        → IsLine a
        → IsLine rest
        → length c.buffer + length (a ++ crlf rest) ≤ server.buffer_size
        → (parse server (arrive (a ++ 0xd ∷ []) c) ≡ some (waiting c (a ++ 0xd ∷ [])))
          × (parse server (arrive (0xa ∷ rest) (waiting c (a ++ 0xd ∷ [])))
              ≡ some (waiting c (a ++ crlf rest)))
    parse_split_crlf a rest ha hr room =
        let cut = a ++ 0xd ∷ [] in
        let joined : ◌≡◌ {A = Bytes} ((c.buffer ++ cut) ++ 0xa ∷ rest)
            (c.buffer ++ (a ++ crlf rest)) =
          append_assoc c.buffer cut (0xa ∷ rest)
          ∙ ap (λ (t : Bytes). c.buffer ++ t) (append_assoc a (0xd ∷ []) (0xa ∷ rest)) in
        let front = length-append {0} c.buffer cut in
        let size = length-append {0} a (crlf rest) in
        let cut_size = length-append {0} a (0xd ∷ []) in
        (
          parse-part c waits reads cut
              (crlf_index_in-append c.buffer cut ∙ crlf_from-cut a (length c.buffer) ha)
              (omega arith),
          parse-part (waiting c cut) (waiting-IsWaiting cut) reads (0xa ∷ rest)
                (crlf_index_in-none (c.buffer ++ cut) (0xa ∷ rest) (omega arith, hr)) (omega arith)
              ∙ ap (λ (t : Bytes). some (record c { buffer = t; io = []; last = length t })) joined,
        )
