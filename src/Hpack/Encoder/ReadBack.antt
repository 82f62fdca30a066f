-- ===== src/Hpack/Encoder/ReadBack.antt =====
-- What HPack::encodeHeaders (Cutelyst/Server/hpack.cpp) writes, read as RFC 7541 section 6 says.
use cutelyst.Common.{
  ℕ, suc, ◌+◌, ◌/◌, ◌%◌, ◌^◌, ◌<◌, ltb, ◌==◌, if◌then◌else◌, Bytes, List, [], ◌∷◌, ◌++◌, map,
  length, Bool, true, false, ◌&&◌, Option, none, some, bytes_eq, bytes_eq→eq, get_elem?, ◌≡◌, refl,
  ap, ◌∙◌, arith, append_assoc, inl, inr, Bool-cases,
}
use cutelyst.Hpack.Integer.{Read, read, failed, then_read, decode_uint, encode_uint}
use cutelyst.Hpack.Strings.{HuffDecode, parse_string}
use cutelyst.Hpack.Strings.Laws.{parse_string-plain}
use cutelyst.Hpack.Tables.{static_headers, static_headers_code}
use cutelyst.Hpack.Encoder.{h2case, encode_h2case_header, find_code}

-- The static table by index, kept shut.
unfoldable pub static_entry : ℕ → Option (Bytes × Bytes)
static_entry i = get_elem? static_headers i

module _ (table : ℕ → ℕ → HuffDecode) where
  -- A field as section 6 lays it out, over the static table only: an index of seven bits (6.1),
  -- or a literal without indexing, with an index of four bits or a name (6.2.2).
  abbrev with_value : Bytes → Bytes → Read (Bytes × Bytes)
  with_value key it = then_read (parse_string table it) λ value rest. read (key, value) rest

  abbrev static_field : ℕ → (Bytes × Bytes → Read (Bytes × Bytes)) → Read (Bytes × Bytes)
  static_field i go = elim (static_entry i) [ none ↦ failed | some f ↦ go f ]

  abbrev literal_field : ℕ → Bytes → Read (Bytes × Bytes)
  literal_field i it =
      if i == 0
      then then_read (parse_string table it) with_value
      else static_field i (λ f. with_value f.0 it)

  unfoldable pub read_field : Bytes → Read (Bytes × Bytes)
  read_field [] = failed
  read_field (b ∷ it) =
      if b / 128 % 2 == 1
      then then_read (decode_uint (b ∷ it) 7) (λ i rest. static_field i (λ f. read f rest))
      else then_read (decode_uint (b ∷ it) 4) literal_field

length-map : (f : ℕ → ℕ) (xs : Bytes) → length (map f xs) ≡ length xs
length-map f [] = refl
length-map f (x ∷ xs) = ap suc (length-map f xs)

-- Each code of the static table stands for the name that its key becomes.
names_code : Bytes → ℕ → Bool
names_code key code = elim (static_entry (15 + code)) [
  | none ↦ false
  | some f ↦ ltb code 128 && bytes_eq f.0 (map h2case key)
]

all_codes : (Bytes → ℕ → Bool) → List (Bytes × ℕ) → Bool
all_codes p [] = true
all_codes p ((k, c) ∷ t) = p k c && all_codes p t

static_codes : all_codes names_code static_headers_code ≡ true
unfolding all_codes names_code h2case static_entry
static_codes = refl

find_code-all :
    (p : Bytes → ℕ → Bool) (key : Bytes) (t : List (Bytes × ℕ)) (code : ℕ)
    → all_codes p t ≡ true
    → find_code key t ≡ some code
    → p key code ≡ true
unfolding all_codes find_code
find_code-all p key [] code h e = cc
find_code-all p key ((k, c) ∷ t) code h e = elim (Bool-cases (bytes_eq key k)) [
  | inl same ↦ rw (bytes_eq→eq key k same) (ground arith)
  | inr other ↦ find_code-all p key t code (ground arith) (ground arith)
]

code_name :
    (key : Bytes) (code : ℕ)
    → find_code key static_headers_code ≡ some code
    → (v : Bytes) × (static_entry (15 + code) ≡ some (map h2case key, v)) × (code < 128)
unfolding names_code
code_name key code e =
    from (static_entry (15 + code)) refl
      (find_code-all names_code key static_headers_code code static_codes e)
  where
    from :
        (o : Option (Bytes × Bytes))
        → static_entry (15 + code) ≡ o
        → names_code key code ≡ true
        → (v : Bytes) × (static_entry (15 + code) ≡ some (map h2case key, v)) × (code < 128)
    from none p h = cc (rw (p, names_code) at h)
    from (some f) p h =
        let parts = rw (p, names_code) at h in
        let named : bytes_eq f.0 (map h2case key) ≡ true = ground arith in
        (
          f.1,
          p ∙ ap (λ (k : Bytes). some (k, f.1)) (bytes_eq→eq f.0 (map h2case key) named),
          ground arith,
        )

module _ (table : ℕ → ℕ → HuffDecode) where
  -- A literal without indexing whose name is given by its code.
  pub coded_field :
      (name v value rest : Bytes) (code : ℕ)
      → static_entry (15 + code) ≡ some (name, v)
      → code < 128
      → length value < 2 ^ 16
      → read_field table (0x0f ∷ code ∷ (encode_uint (length value) 7 ++ (value ++ rest)))
        ≡ read (name, value) rest
  unfolding read_field decode_uint
  coded_field name v value rest code named small hv =
      ground (arith, named, parse_string-plain table value rest hv)

  pub named_field :
      (key value rest : Bytes) (code : ℕ)
      → find_code key static_headers_code ≡ some code
      → length value < 2 ^ 16
      → read_field table (0x0f ∷ code ∷ (encode_uint (length value) 7 ++ (value ++ rest)))
        ≡ read (map h2case key, value) rest
  named_field key value rest code e hv =
      let (v, named, small) = code_name key code e in
      coded_field (map h2case key) v value rest code named small hv

  -- A literal without indexing whose name is spelled.
  pub spelled_field :
      (key value rest : Bytes)
      → length key < 2 ^ 16
      → length value < 2 ^ 16
      → read_field table
          (0 ∷ (encode_h2case_header key ++ (encode_uint (length value) 7 ++ (value ++ rest))))
        ≡ read (map h2case key, value) rest
  unfolding read_field decode_uint encode_h2case_header
  spelled_field key value rest hk hv =
      let tail = encode_uint (length value) 7 ++ (value ++ rest) in
      let name = parse_string-plain table (map h2case key) tail (rw length-map hk) in
      let name' = rw length-map at name in
      ground (
        arith,
        name',
        append_assoc (encode_uint (length key) 7) (map h2case key) tail,
        parse_string-plain table value rest hv,
      )
