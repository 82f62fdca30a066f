-- ===== src/FastCgi/Records/Laws.antt =====
-- What a web server reads of the records that Cutelyst/Server/protocolfastcgi.cpp writes.
use cutelyst.Common.{
  ℕ, zero, suc, ◌+◌, ◌-◌, ◌*◌, ◌/◌, ◌%◌, ◌<◌, ◌≤◌, ◌==◌, Bytes, [], ◌∷◌, ◌++◌, true, false, ◌&&◌,
  if◌then◌else◌, ltb, leb, Option, none, some, take, drop, length, ◌≡◌, refl, ap, ◌∙◌, arith,
  append_assoc, append-nil, length-append, length-take, length-drop, take-of-le, take-length-append,
  drop-length-append, Bool-cases, inl, inr,
}
use cutelyst.FastCgi.Records.{
  padding_of, zeros, stdout_header, Takes, io_write, wrote, Writing, open_record, write_content,
  goes, stops, after_header, after_content, write_loop, do_write,
}

abbrev prepend : Bytes → Option Bytes → Option Bytes
prepend content none = none
prepend content (some text) = some (content ++ text)

-- Behind a record's header.
abbrev read_content : (Bytes → Option Bytes) → ℕ → ℕ → Bytes → Option Bytes
read_content next len pad rest =
    if leb (len + pad) (length rest)
    then prepend (take len rest) (next (drop (len + pad) rest))
    else none

-- The content of the STDOUT records of a request, after the FastCGI specification; `none` where a
-- record is cut off or is of another kind.
pub read_stdout : ℕ → ℕ → Bytes → Option Bytes
read_stdout fuel stream_id [] = some []
read_stdout (suc fuel) stream_id
      (version ∷ type_ ∷ req1 ∷ req0 ∷ cl1 ∷ cl0 ∷ pad ∷ reserved ∷ rest) =
    if version == 1 && type_ == 6 && (req1 * 0x100 + req0) == stream_id
    then read_content (λ more. read_stdout fuel stream_id more) (cl1 * 0x100 + cl0) pad rest
    else none
read_stdout _ stream_id _ = none

-- A socket that takes every write whole.
abbrev pub TakesAll : Takes → Type 0
TakesAll takes = (out bytes : Bytes) → takes out bytes ≡ some (length bytes)

pub length-zeros : (n : ℕ) → length (zeros n) ≡ n
length-zeros zero = refl
length-zeros (suc n) = omega (arith, length-zeros n)

padding_of-lt : (n : ℕ) → n < 0x10000 → padding_of n < 8
unfolding padding_of
padding_of-lt n h = ground arith

abbrev record_text : ℕ → Bytes → Bytes → Bytes
record_text stream_id content more =
    stdout_header stream_id (length content)
    ++ (content ++ (zeros (padding_of (length content)) ++ more))

read_stdout-nil : (fuel stream_id : ℕ) → read_stdout fuel stream_id [] ≡ some []
unfolding read_stdout
read_stdout-nil zero stream_id = refl
read_stdout-nil (suc fuel) stream_id = refl

take-append-drop : (n : ℕ) (xs : Bytes) → take n xs ++ drop n xs ≡ xs
take-append-drop zero xs = refl
take-append-drop (suc n) [] = refl
take-append-drop (suc n) (x ∷ xs) = ap (λ (t : Bytes). x ∷ t) (take-append-drop n xs)

drop-sum : (m n : ℕ) (xs : Bytes) → drop (m + n) xs ≡ drop n (drop m xs)
drop-sum zero n xs = let e : 0 + n ≡ n = omega arith in rw e refl
drop-sum (suc m) zero [] = let e : suc m + 0 ≡ suc m = omega arith in rw e refl
drop-sum (suc m) (suc n) [] = let e : suc m + suc n ≡ suc (m + suc n) = omega arith in rw e refl
drop-sum (suc m) n (x ∷ xs) =
    let e : suc m + n ≡ suc (m + n) = omega arith in rw e (drop-sum m n xs)

read_content-record :
    (next : Bytes → Option Bytes) (content more text : Bytes) (pad : ℕ)
    → next more ≡ some text
    → read_content next (length content) pad (content ++ (zeros pad ++ more))
      ≡ some (content ++ text)
read_content-record next content more text pad h =
    let filled = zeros pad ++ more in
    let n = length content in
    let size : leb (n + pad) (length (content ++ filled)) ≡ true =
      ground
        (arith, length-append content filled, length-append (zeros pad) more, length-zeros pad) in
    let behind : drop (n + pad) (content ++ filled) ≡ more =
      drop-sum n pad (content ++ filled)
      ∙ ap (λ (t : Bytes). drop pad t) (drop-length-append content filled)
      ∙ rw (length-zeros pad) at (drop-length-append (zeros pad) more) in
    rw (size, behind, take-length-append content filled, h) refl

read_stdout-record :
    (fuel stream_id : ℕ) (content more text : Bytes)
    → stream_id < 0x10000
    → length content < 0x10000
    → read_stdout fuel stream_id more ≡ some text
    → read_stdout (suc fuel) stream_id (record_text stream_id content more) ≡ some (content ++ text)
unfolding stdout_header read_stdout
read_stdout-record fuel stream_id content more text hs hc h =
    let n = length content in
    let len : n / 0x100 % 0x100 * 0x100 + n % 0x100 ≡ n = omega arith in
    let id : stream_id / 0x100 % 0x100 * 0x100 + stream_id % 0x100 ≡ stream_id = omega arith in
    let same : (stream_id == stream_id) ≡ true = ground arith in
    rw (len, id, same)
      (read_content-record (λ t. read_stdout fuel stream_id t) content more text (padding_of n) h)

io_write-all :
    (takes : Takes) (out bytes : Bytes)
    → TakesAll takes
    → io_write takes out bytes ≡ (out ++ bytes, some (length bytes))
io_write-all takes out bytes h =
    rw (h out bytes, io_write) (rw (take-of-le (length bytes) bytes (omega arith)) refl)

-- The bytes of the next record.
abbrev record_size : Bytes → ℕ
record_size rest = if ltb (length rest) 0xffff then length rest else 0xffff

abbrev writing : Bytes → Bytes → ℕ → Writing
writing out rest write_pos = record { out = out; rest = rest; write_pos = write_pos; status = 0 }

module _ (takes : Takes) (stream_id : ℕ) (all : TakesAll takes) where
  open_record-all :
      (out rest : Bytes) (write_pos : ℕ)
      → open_record takes stream_id (writing out rest write_pos) ≡ (
        record (writing (out ++ stdout_header stream_id (record_size rest)) rest write_pos) {
          status = record_size rest;
        },
        padding_of (record_size rest),
        true,
      )
  unfolding open_record
  open_record-all out rest write_pos =
      rw (io_write-all takes out (stdout_header stream_id (record_size rest)) all) refl

  write_content-all :
      (pad : ℕ) (w : Writing)
      → write_content takes pad w ≡ (
        record w { out = w.out ++ (take w.status w.rest ++ zeros pad) },
        some (length (take w.status w.rest)),
      )
  unfolding write_content
  write_content-all zero w =
      rw (io_write-all takes w.out (take w.status w.rest) all, append-nil) refl
  write_content-all (suc pad) w = rw (io_write-all takes w.out (take w.status w.rest) all) (
      rw (io_write-all takes (w.out ++ take w.status w.rest) (zeros (suc pad)) all)
        (rw (append_assoc w.out (take w.status w.rest) (zeros (suc pad))) (ground arith)))

  -- A round writes a record.
  round-record :
      (out rest : Bytes) (write_pos m : ℕ)
      → record_size rest ≡ suc m
      → let content = take (suc m) rest in
        let out' =
          out ++ (stdout_header stream_id (suc m) ++ (content ++ zeros (padding_of (suc m)))) in
        after_header takes (open_record takes stream_id (writing out rest write_pos)) ≡ (
          if length (drop (suc m) rest) == 0
          then stops (wrote out' (write_pos + suc m))
          else goes (writing out' (drop (suc m) rest) (write_pos + suc m)))
  unfolding after_header after_content
  round-record out rest write_pos m n =
      let size : length (take (suc m) rest) ≡ suc m = ground (arith, length-take (suc m) rest) in
      let left : suc m - suc m ≡ 0 = omega arith in
      let opened = open_record-all out rest write_pos in
      let w = record (writing (out ++ stdout_header stream_id (suc m)) rest write_pos) {
        status = suc m;
      } in
      let written = write_content-all (padding_of (suc m)) w in
      let join =
        append_assoc out (stdout_header stream_id (suc m))
          (take (suc m) rest ++ zeros (padding_of (suc m))) in
      rw (opened) (rw (n) (rw (written) (rw (size) (rw (join, left) refl))))

  abbrev Reads : ℕ → Bytes → Bytes → ℕ → Type 0
  Reads fuel out rest write_pos =
      (text : Bytes) × (write_loop fuel takes stream_id (writing out rest write_pos)
        ≡ wrote (out ++ text) (write_pos + length rest))
      × (read_stdout fuel stream_id text ≡ some rest)

  record_size-take :
      (rest : Bytes) (m : ℕ) → record_size rest ≡ suc m → length (take (suc m) rest) ≡ suc m
  record_size-take rest m n = ground (arith, length-take (suc m) rest)

  write_loop-last :
      (fuel : ℕ) (out rest : Bytes) (write_pos m : ℕ)
      → stream_id < 0x10000
      → record_size rest ≡ suc m
      → (length (drop (suc m) rest) == 0) ≡ true
      → Reads (suc fuel) out rest write_pos
  unfolding write_loop
  write_loop-last fuel out rest write_pos m hs n e =
      let text = record_text stream_id rest [] in
      let size : length rest ≡ suc m =
        ground (arith, length-drop (suc m) rest, record_size-take rest m n) in
      let same : take (suc m) rest ≡ rest = take-of-le (suc m) rest (omega arith) in
      let round = round-record out rest write_pos m n in
      (
        text,
        rw (round, write_loop) (rw (e) (rw (same, size, append-nil) refl)),
        read_stdout-record fuel stream_id rest [] [] hs (ground arith)
              (read_stdout-nil fuel stream_id)
            ∙ ap some (append-nil rest),
      )

  write_loop-more :
      (fuel : ℕ) (out rest : Bytes) (write_pos m : ℕ)
      → stream_id < 0x10000
      → record_size rest ≡ suc m
      → (length (drop (suc m) rest) == 0) ≡ false
      → ((out' : Bytes) → Reads fuel out' (drop (suc m) rest) (write_pos + suc m))
      → Reads (suc fuel) out rest write_pos
  unfolding write_loop
  write_loop-more fuel out rest write_pos m hs n e ih =
      let content = take (suc m) rest in
      let record_of = stdout_header stream_id (suc m) ++ (content ++ zeros (padding_of (suc m))) in
      let (more, written, read_back) = ih (out ++ record_of) in
      let size = record_size-take rest m n in
      let round = round-record out rest write_pos m n in
      let count : write_pos + suc m + length (drop (suc m) rest) ≡ write_pos + length rest =
        ground (arith, length-drop (suc m) rest, size) in
      let text = record_text stream_id content more in
      let joined : record_of ++ more ≡ text = rw size (
        append_assoc (stdout_header stream_id (suc m)) (content ++ zeros (padding_of (suc m))) more
        ∙ ap (λ (t : Bytes). stdout_header stream_id (suc m) ++ t)
            (append_assoc content (zeros (padding_of (suc m))) more)) in
      (
        text,
        rw (round, write_loop)
            (rw (e) (written ∙ rw (count, append_assoc out record_of more) (rw joined refl))),
        read_stdout-record fuel stream_id content more (drop (suc m) rest) hs (ground (arith, size))
              read_back
            ∙ ap some (take-append-drop (suc m) rest),
      )

  write_loop-Reads :
      (fuel : ℕ) (out rest : Bytes) (write_pos : ℕ)
      → stream_id < 0x10000
      → 0 < length rest
      → length rest ≤ fuel
      → Reads fuel out rest write_pos
  write_loop-Reads zero out rest write_pos hs some_byte enough = absurd (omega arith)
  write_loop-Reads (suc fuel) out rest write_pos hs some_byte enough =
      let m = record_size rest - 1 in
      let n : record_size rest ≡ suc m = ground arith in
      elim (Bool-cases (length (drop (suc m) rest) == 0)) [
        | inl e ↦ write_loop-last fuel out rest write_pos m hs n e
        | inr e ↦ write_loop-more fuel out rest write_pos m hs n e λ out'.
            write_loop-Reads fuel out' (drop (suc m) rest) (write_pos + suc m) hs (ground arith)
              (omega (arith, length-drop {0} (suc m) rest))
      ]

-- On a socket that takes every write whole, doWrite writes all of its bytes, however many there are,
-- as records from which a reader of the FastCGI specification gets these bytes for this request.
pub do_write-reads_back :
    (takes : Takes) (stream_id : ℕ) (bytes out : Bytes)
    → TakesAll takes
    → stream_id < 0x10000
    → 0 < length bytes
    → (text : Bytes) × (do_write takes stream_id bytes out ≡ wrote (out ++ text) (length bytes))
      × (read_stdout (suc (length bytes)) stream_id text ≡ some bytes)
unfolding do_write
do_write-reads_back takes stream_id bytes out all hs some_byte =
    let e : 0 + length bytes ≡ length bytes = omega arith in
    let (text, written, read_back) =
      write_loop-Reads takes stream_id all (suc (length bytes)) out bytes 0 hs some_byte
        (omega arith) in
    (text, rw e at written, read_back)
