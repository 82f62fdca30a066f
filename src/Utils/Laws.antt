-- ===== src/Utils/Laws.antt =====
-- What the decoders of Cutelyst/utils.cpp make of text that was encoded.
use cutelyst.Common.{
  ℕ, ◌/◌, ◌%◌, ◌<◌, ◌==◌, if◌then◌else◌, Bytes, List, [], ◌∷◌, ◌++◌, map, true, false, All, ◌≡◌,
  ◌≢◌, refl, ap, ◌∙◌, arith, append_assoc, append-nil,
}
use cutelyst.EngineRequest.Paths.{hex_upper, escape_value}
use cutelyst.Utils.{
  Decoded, put, put_plain, percent_loop, nothing_decoded, decode_percent_encoding,
  decode_percent_string, Query, process_key_pair, query_plain, query_loop, decode_query,
}

-- Every byte as an escape.
pub escape_all : Bytes → Bytes
escape_all [] = []
escape_all (b ∷ bs) = 0x25 ∷ hex_upper (b / 16) ∷ hex_upper (b % 16) ∷ escape_all bs

percent_loop-escape_all :
    (bs out : Bytes)
    → All (λ b. b < 256) bs
    → percent_loop (escape_all bs) (record { out = out; skip_utf8 = false })
      ≡ record { out = out ++ bs; skip_utf8 = false }
unfolding percent_loop escape_all
percent_loop-escape_all [] out h = rw append-nil refl
percent_loop-escape_all (b ∷ bs) out (hb, h) =
    rw (escape_value b hb).0 (percent_loop-escape_all bs (out ++ (b ∷ [])) h ∙ rw append_assoc refl)

-- Pairs as a form sends them, every byte of the names and values an escape.
pub encode_pair : Bytes × Bytes → Bytes
encode_pair p = escape_all p.0 ++ (0x3d ∷ escape_all p.1)

pub encode_pairs : List (Bytes × Bytes) → Bytes
encode_pairs [] = []
encode_pairs (p ∷ []) = encode_pair p
encode_pairs (p ∷ q ∷ ps) = encode_pair p ++ (0x26 ∷ encode_pairs (q ∷ ps))

-- Neither the name nor the value is empty.
abbrev IsPart : Bytes → Type 0
IsPart [] = ⊥
IsPart (b ∷ bs) = All (λ x. x < 256) (b ∷ bs)

abbrev pub IsPair : Bytes × Bytes → Type 0
IsPair p = IsPart p.0 × IsPart p.1

module _ (from_utf8 : Bytes → Bytes) where
  -- Bytes that were all written as escapes are read back as UTF-8.
  decode_percent_encoding-escape_all :
      (b : ℕ) (bs : Bytes)
      → All (λ x. x < 256) (b ∷ bs)
      → decode_percent_encoding from_utf8 (escape_all (b ∷ bs)) ≡ from_utf8 (b ∷ bs)
  unfolding decode_percent_encoding escape_all percent_loop
  decode_percent_encoding-escape_all b bs (hb, h) =
      rw (escape_value b hb).0 (rw (percent_loop-escape_all bs (b ∷ []) h) refl)

  -- The escapes are added to the part that is being read, whatever follows them.
  query_loop-escaped :
      (bs out rest : Bytes) (s : Query)
      → All (λ x. x < 256) bs
      → query_loop from_utf8
          (escape_all bs ++ rest)
          (record s { part = record { out = out; skip_utf8 = false } })
        ≡ query_loop from_utf8 rest
            (record s { part = record { out = out ++ bs; skip_utf8 = false } })
  unfolding query_loop escape_all
  query_loop-escaped [] out rest s h = rw append-nil refl
  query_loop-escaped (b ∷ bs) out rest s (hb, h) =
      rw (escape_value b hb).0
        (query_loop-escaped bs (out ++ (b ∷ [])) rest s h ∙ rw append_assoc refl)

  -- The same at the beginning of a part.
  query_loop-part :
      (b : ℕ) (bs rest : Bytes) (s : Query)
      → All (λ x. x < 256) (b ∷ bs)
      → query_loop from_utf8 (escape_all (b ∷ bs) ++ rest) (record s { part = nothing_decoded })
        ≡ query_loop from_utf8 rest (record s { part = record { out = b ∷ bs; skip_utf8 = false } })
  unfolding query_loop escape_all
  query_loop-part b bs rest s (hb, h) =
      rw (escape_value b hb).0 (query_loop-escaped bs (b ∷ []) rest s h)

  -- A byte that starts no escape is a round of its own.
  query_loop-plain :
      (c : ℕ) (rest : Bytes) (s : Query)
      → c ≢ 0x25
      → query_loop from_utf8 (c ∷ rest) s ≡ query_loop from_utf8 rest (query_plain from_utf8 c s)
  unfolding query_loop
  query_loop-plain c [] s h = refl
  query_loop-plain c (a ∷ []) s h = refl
  query_loop-plain c (a ∷ b ∷ rest) s h = ground arith

  -- Before a pair.
  abbrev at_pair : List (Bytes × Bytes) → Query
  at_pair params = record { params = params; key = []; has_key = false; part = nothing_decoded }

  -- Behind a pair, before it is inserted.
  abbrev behind_pair : List (Bytes × Bytes) → Bytes → Bytes → Query
  behind_pair params k v = record {
    params = params;
    key = from_utf8 k;
    has_key = true;
    part = record { out = v; skip_utf8 = false };
  }

  equals_sign :
      (s : Query) (k rest : Bytes)
      → query_loop from_utf8
          (0x3d ∷ rest)
          (record s { part = record { out = k; skip_utf8 = false } })
        ≡ query_loop from_utf8 rest
            (record s { key = from_utf8 k; has_key = true; part = nothing_decoded })
  unfolding query_plain
  equals_sign s k rest = query_loop-plain 0x3d rest _ (omega arith)

  query_loop-pair :
      (params : List (Bytes × Bytes)) (b c : ℕ) (k v rest : Bytes)
      → All (λ x. x < 256) (b ∷ k)
      → All (λ x. x < 256) (c ∷ v)
      → query_loop from_utf8 (encode_pair (b ∷ k, c ∷ v) ++ rest) (at_pair params)
        ≡ query_loop from_utf8 rest (behind_pair params (b ∷ k) (c ∷ v))
  unfolding encode_pair
  query_loop-pair params b c k v rest hk hv = rw append_assoc (
      query_loop-part b k (0x3d ∷ (escape_all (c ∷ v) ++ rest)) (at_pair params) hk
      ∙ equals_sign (at_pair params) (b ∷ k) (escape_all (c ∷ v) ++ rest)
      ∙ query_loop-part c v rest (behind_pair params (b ∷ k) []) hv)

  ampersand :
      (params : List (Bytes × Bytes)) (k : Bytes) (c : ℕ) (v rest : Bytes)
      → query_loop from_utf8 (0x26 ∷ rest) (behind_pair params k (c ∷ v))
        ≡ query_loop from_utf8 rest (at_pair (params ++ ((from_utf8 k, from_utf8 (c ∷ v)) ∷ [])))
  unfolding query_plain process_key_pair
  ampersand params k c v rest = query_loop-plain 0x26 rest _ (omega arith)

  abbrev pub both_texts : Bytes × Bytes → Bytes × Bytes
  both_texts p = (from_utf8 p.0, from_utf8 p.1)

  pairs_read_back :
      (params ps : List (Bytes × Bytes))
      → All IsPair ps
      → (process_key_pair from_utf8
          (query_loop from_utf8 (encode_pairs ps) (at_pair params))).params
        ≡ params ++ map both_texts ps
  unfolding encode_pairs process_key_pair query_loop
  pairs_read_back params [] h = rw append-nil refl
  pairs_read_back params (([], v) ∷ ps) h = absurd h.0.0
  pairs_read_back params ((b ∷ k, []) ∷ ps) h = absurd h.0.1
  pairs_read_back params ((b ∷ k, c ∷ v) ∷ []) ((hk, hv), h) =
      let run = query_loop-pair params b c k v [] hk hv in rw (rw append-nil at run) refl
  pairs_read_back params ((b ∷ k, c ∷ v) ∷ q ∷ ps) ((hk, hv), h) =
      rw (query_loop-pair params b c k v (0x26 ∷ encode_pairs (q ∷ ps)) hk hv) (
        rw (ampersand params (b ∷ k) c v (encode_pairs (q ∷ ps))) (
          pairs_read_back (params ++ (both_texts (b ∷ k, c ∷ v) ∷ [])) (q ∷ ps) h
          ∙ rw append_assoc refl))

  -- A query of pairs whose names and values are not empty, every byte of them an escape, is read
  -- back: the pairs are inserted in their order, each name and value as the UTF-8 that it was.
  pub decode_query-encode_pairs :
      (ps : List (Bytes × Bytes))
      → All IsPair ps
      → decode_query from_utf8 (encode_pairs ps) ≡ map both_texts ps
  unfolding decode_query
  decode_query-encode_pairs ps h = pairs_read_back [] ps h

  -- A second equals sign takes the name's place: of `k=v=w`, all three not empty and every byte of
  -- them an escape, the pair of v and w is inserted, and k is lost.
  decode_query-second_equals :
      (b c d : ℕ) (k v w : Bytes)
      → All (λ x. x < 256) (b ∷ k)
      → All (λ x. x < 256) (c ∷ v)
      → All (λ x. x < 256) (d ∷ w)
      → decode_query from_utf8 (encode_pair (b ∷ k, c ∷ v) ++ (0x3d ∷ (escape_all (d ∷ w) ++ [])))
        ≡ (from_utf8 (c ∷ v), from_utf8 (d ∷ w)) ∷ []
  unfolding decode_query process_key_pair query_loop encode_pair escape_all
  decode_query-second_equals b c d k v w hk hv hw =
      rw (query_loop-pair [] b c k v (0x3d ∷ (escape_all (d ∷ w) ++ [])) hk hv) (
        rw (equals_sign (behind_pair [] (b ∷ k) []) (c ∷ v) (escape_all (d ∷ w) ++ []))
          (rw (query_loop-part d w [] (behind_pair [] (c ∷ v) []) hw) refl))

-- What a byte that is not part of an escape becomes.
abbrev pub blank_plus : ℕ → ℕ
blank_plus c = if c == 0x2b then 0x20 else c

abbrev put_blanked : Bytes → Decoded → Decoded
put_blanked bs s = record s { out = s.out ++ map blank_plus bs }

put_plain-blank : (c : ℕ) (s : Decoded) → put_plain c s ≡ put (blank_plus c) s
put_plain-blank c s = ground arith

percent_loop-unescaped :
    (bs : Bytes) (s : Decoded) → All (λ c. c ≢ 0x25) bs → percent_loop bs s ≡ put_blanked bs s
unfolding percent_loop
percent_loop-unescaped [] s h = rw append-nil refl
percent_loop-unescaped (c ∷ []) s h = put_plain-blank c s
percent_loop-unescaped (c ∷ a ∷ []) s h =
    put_plain-blank a (put_plain c s)
    ∙ ap (put (blank_plus a)) (put_plain-blank c s)
    ∙ rw append_assoc refl
percent_loop-unescaped (c ∷ a ∷ b ∷ rest) s (hc, h) =
    let plain : (c == 0x25) ≡ false = ground arith in
    rw plain (
      percent_loop-unescaped (a ∷ b ∷ rest) (put_plain c s) h
      ∙ ap (put_blanked (a ∷ b ∷ rest)) (put_plain-blank c s)
      ∙ rw append_assoc refl)

-- Without a percent sign, the overload for bytes turns plus signs into blanks, and the overload for
-- a string, whose Latin-1 bytes these are, gives the string back with its plus signs.
decode_percent_string-unescaped :
    (from_utf8 to_latin1 : Bytes → Bytes) (c : ℕ) (s : Bytes)
    → All (λ x. x ≢ 0x25) (c ∷ s)
    → to_latin1 (c ∷ s) ≡ c ∷ s
    → (decode_percent_encoding from_utf8 (c ∷ s) ≡ map blank_plus (c ∷ s))
      × (decode_percent_string from_utf8 to_latin1 (c ∷ s) ≡ c ∷ s)
unfolding decode_percent_encoding decode_percent_string
decode_percent_string-unescaped from_utf8 to_latin1 c s h e =
    let run = percent_loop-unescaped (c ∷ s) nothing_decoded h in (rw run refl, rw e (rw run refl))
