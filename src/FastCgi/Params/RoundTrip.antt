-- ===== src/FastCgi/Params/RoundTrip.antt =====
-- The pairs of a PARAMS record, read by parseHeaders of Cutelyst/Server/protocolfastcgi.cpp.
use cutelyst.Common.{
  ℕ, zero, suc, ◌+◌, ◌<◌, ◌≤◌, Bytes, List, [], ◌∷◌, ◌++◌, length, drop, All, ◌≡◌, refl, ◌∙◌, arith,
  take-length-append,
}
use cutelyst.FastCgi.Params.{
  Readers, Params, note_param, add_header, parsed, taken, take_pair, params_loop, parse_headers,
}
use cutelyst.FastCgi.Params.Lengths.{
  encode_length, length_size, length-encode_length, take_length-encode_length,
}
use cutelyst.FastCgi.Params.Laws.{IsKey, note_param-append}

abbrev pub encode_pair : Bytes → Bytes → Bytes → Bytes
encode_pair key value rest =
    encode_length (length key) ++ (encode_length (length value) ++ (key ++ (value ++ rest)))

abbrev pub encode_pairs : List (Bytes × Bytes) → Bytes → Bytes
encode_pairs [] rest = rest
encode_pairs ((key, value) ∷ pairs) rest = encode_pair key value (encode_pairs pairs rest)

-- What the code counts for the pairs.
abbrev pub cost : List (Bytes × Bytes) → ℕ
cost [] = 0
cost ((key, value) ∷ pairs) = length key + length value + 4 + cost pairs

abbrev pub size_of : List (Bytes × Bytes) → ℕ
size_of [] = 0
size_of ((key, value) ∷ pairs) =
    length_size (length key)
    + length_size (length value)
    + length key
    + length value
    + size_of pairs

-- A pair with something in it, under a key that is looked up whole.
abbrev pub IsPair : Bytes × Bytes → Type 0
IsPair (key, value) = IsKey key × (0 < length key + length value)

abbrev pub note_pairs : Readers → List (Bytes × Bytes) → Params → Params
note_pairs qt [] p = p
note_pairs qt ((key, value) ∷ pairs) p = note_pairs qt pairs (record {
  head = note_param qt key (length key) value p.head;
  pktsize = p.pktsize + (length key + length value + 4);
})

drop-zero : (j : ℕ) (buf rest : Bytes) → drop j buf ≡ rest → drop (j + 0) buf ≡ rest
drop-zero j buf rest h = let e : j + 0 ≡ j = omega arith in rw e h

drop-behind :
    (xs buf rest : Bytes) (j : ℕ) → drop j buf ≡ xs ++ rest → drop (j + length xs) buf ≡ rest
drop-behind [] buf rest j h = drop-zero j buf rest h
drop-behind (x ∷ xs) buf rest j h =
    let e : j + length (x ∷ xs) ≡ suc j + length xs = omega arith in
    rw e (drop-behind xs buf rest (suc j) (tail j buf h))
  where
    tail : (k : ℕ) (bs : Bytes) → drop k bs ≡ x ∷ (xs ++ rest) → drop (suc k) bs ≡ xs ++ rest
    tail zero [] g = cc
    tail zero (b ∷ bs) g = cc
    tail (suc k) [] g = cc
    tail (suc k) (b ∷ bs) g = tail k bs g

drop-pair :
    (key value buf rest : Bytes) (j : ℕ)
    → drop j buf ≡ encode_pair key value rest
    → drop
        (j + length_size (length key) + length_size (length value) + (length key + length value))
        buf
      ≡ rest
drop-pair key value buf rest j at =
    let k = length key in
    let v = length value in
    let j1 = j + length_size k in
    let j2 = j1 + length_size v in
    let at1 : drop j1 buf ≡ encode_length v ++ (key ++ (value ++ rest)) =
      rw (← length-encode_length k) (drop-behind (encode_length k) buf _ j at) in
    let at2 : drop j2 buf ≡ key ++ (value ++ rest) =
      rw (← length-encode_length v) (drop-behind (encode_length v) buf _ j1 at1) in
    let e : j2 + (k + v) ≡ j2 + k + v = omega arith in
    rw e (drop-behind value buf rest (j2 + k) (drop-behind key buf (value ++ rest) j2 at2))

-- The state behind a pair.
abbrev noted : Readers → Bytes → Bytes → Params → Params
noted qt key value p = record {
  head = note_param qt key (length key) value p.head;
  pktsize = p.pktsize + (length key + length value + 4);
}

module _ (qt : Readers) (buffer_size : ℕ) (buf : Bytes) (len : ℕ) where
  add_header-pair :
      (key value rest : Bytes) (p : Params)
      → IsKey key
      → p.pktsize + (length key + length value + 4) < buffer_size
      → length key + length value + 4 < 0x10000
      → add_header qt buffer_size
          (key ++ (value ++ rest))
          (length key)
          (value ++ rest)
          (length value)
          p
        ≡ (
          length key + length value + 4,
          record p { head = note_param qt key (length key) value p.head },
        )
  unfolding add_header
  add_header-pair key value rest p hk room small =
      let taken_value = take-length-append value rest in
      let same = note_param-append qt key (value ++ rest) value p.head hk in
      rw (taken_value) (rw same (ground arith))

  take_pair-pair :
      (key value rest : Bytes) (j : ℕ) (p : Params)
      → IsKey key
      → drop j buf ≡ key ++ (value ++ rest)
      → j + (length key + length value) ≤ len
      → len < 0x10000
      → p.pktsize + (length key + length value + 4) < buffer_size
      → p.pktsize + (length key + length value + 4) < 0x10000
      → take_pair qt buffer_size buf len j (length key) (length value) p
        ≡ taken (j + (length key + length value)) (noted qt key value p)
  unfolding take_pair
  take_pair-pair key value rest j p hk at fits short room small =
      let behind = drop-behind key buf (value ++ rest) j at in
      let added = add_header-pair key value rest p hk room (omega arith) in
      rw (at, behind, added) (ground arith)

  params_loop-pair :
      (fuel : ℕ) (key value rest : Bytes) (j : ℕ) (p : Params)
      → IsPair (key, value)
      → drop j buf ≡ encode_pair key value rest
      → j + (length_size (length key) + length_size (length value) + length key + length value)
        ≤ len
      → len < 0x10000
      → p.pktsize + (length key + length value + 4) < buffer_size
      → p.pktsize + (length key + length value + 4) < 0x10000
      → params_loop (suc fuel) qt buffer_size buf len j p
        ≡ params_loop fuel qt buffer_size buf len
            (j
              + length_size (length key)
              + length_size (length value)
              + (length key + length value))
            (noted qt key value p)
  unfolding params_loop
  params_loop-pair fuel key value rest j p (hk, some_byte) at fits short room small =
      let k = length key in
      let v = length value in
      let j1 = j + length_size k in
      let j2 = j1 + length_size v in
      let body = key ++ (value ++ rest) in
      let at1 : drop j1 buf ≡ encode_length v ++ body =
        rw (← length-encode_length k)
          (drop-behind (encode_length k) buf (encode_length v ++ body) j at) in
      let at2 : drop j2 buf ≡ body =
        rw (← length-encode_length v) (drop-behind (encode_length v) buf body j1 at1) in
      let one =
        take_length-encode_length buf (encode_length v ++ body) len j k (omega arith) at
          (ground arith) in
      let two = take_length-encode_length buf body len j1 v (omega arith) at1 (ground arith) in
      let three = take_pair-pair key value rest j2 p hk at2 (omega arith) short room small in
      ground (arith, one, two, three)

  params_loop-pairs :
      (fuel : ℕ) (pairs : List (Bytes × Bytes)) (rest : Bytes) (j : ℕ) (p : Params)
      → All IsPair pairs
      → drop j buf ≡ encode_pairs pairs rest
      → j + size_of pairs ≡ len
      → len < 0x10000
      → p.pktsize + cost pairs < buffer_size
      → p.pktsize + cost pairs < 0x10000
      → size_of pairs < fuel
      → params_loop fuel qt buffer_size buf len j p ≡ parsed (note_pairs qt pairs p)
  params_loop-pairs zero pairs rest j p h at whole short room small enough = absurd (omega arith)
  params_loop-pairs (suc fuel) [] rest j p h at whole short room small enough =
      unfold params_loop in ground arith
  params_loop-pairs (suc fuel) ((key, value) ∷ pairs) rest j p (hp, h) at whole short room small
        enough =
      let k = length key in
      let v = length value in
      let size = length_size k + length_size v + k + v in
      let one =
        params_loop-pair fuel key value (encode_pairs pairs rest) j p hp at (omega arith) short
          (omega arith) (omega arith) in
      let q = noted qt key value p in
      let next = j + length_size k + length_size v + (k + v) in
      one
      ∙ params_loop-pairs fuel pairs rest next q h
          (drop-pair key value buf (encode_pairs pairs rest) j at) (omega arith) short (omega arith)
          (omega arith) (omega (arith, hp.1))

-- parseHeaders reads the pairs of a PARAMS record as the web server wrote them, each of them once
-- and in their order, and counts their sizes in `pktsize`.
pub parse_headers-encode_pairs :
    (qt : Readers) (buffer_size : ℕ) (pairs : List (Bytes × Bytes)) (rest : Bytes) (p : Params)
    → All IsPair pairs
    → size_of pairs < 0x10000
    → p.pktsize + cost pairs < buffer_size
    → p.pktsize + cost pairs < 0x10000
    → parse_headers qt buffer_size (encode_pairs pairs rest) (size_of pairs) p
      ≡ parsed (note_pairs qt pairs p)
unfolding parse_headers
parse_headers-encode_pairs qt buffer_size pairs rest p h short room small =
    params_loop-pairs qt buffer_size (encode_pairs pairs rest) (size_of pairs) (suc (size_of pairs))
      pairs rest 0 p h refl (omega arith) short room small (omega arith)
