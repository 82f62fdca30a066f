-- ===== src/Hpack/Decoder/PseudoHeaders.antt =====
-- HPack::decode (Cutelyst/Server/hpack.cpp) writes each of `:method`, `:scheme` and `:path` once.
use cutelyst.Common.{ℕ, ◌≡◌, ◌≢◌, inl, inr, refl, sym, ◌∙◌, Bytes, [], true, some, arith, subst}
use cutelyst.Hpack.Table.{HPack}
use cutelyst.Hpack.Decoder.{
  Host, Decoding, H2Stream, returned, take_field, valid_pseudo_header, consume_header, store_path,
  decode,
}
use cutelyst.Hpack.Decoder.Steps.{field, inserted, resized, Reach, here, then_step}
use cutelyst.Hpack.Decoder.Runs.{decode-Ran}
use cutelyst.Hpack.Decoder.Invariants.{take_field-cases}

-- What was received stays: a method, a scheme, and a path with its query.
pub record Keeps (s s' : H2Stream) : Type 0 where
  pub method_kept : s.method ≢ [] → s'.method ≡ s.method
  pub scheme_kept : s.scheme ≢ [] → s'.scheme ≡ s.scheme
  pub got_kept : s.got_path ≡ true → s'.got_path ≡ true
  pub path_kept : s.got_path ≡ true → s'.path ≡ s.path
  pub query_kept : s.got_path ≡ true → s'.query ≡ s.query

Keeps-refl : (s : H2Stream) → Keeps s s
Keeps-refl s = record {
  method_kept = λ _. refl;
  scheme_kept = λ _. refl;
  got_kept = λ g. g;
  path_kept = λ _. refl;
  query_kept = λ _. refl;
}

Keeps-trans : (s t u : H2Stream) → Keeps s t → Keeps t u → Keeps s u
Keeps-trans s t u a b = record {
  method_kept =
      λ m. b.method_kept (subst (λ x. x ≢ []) (sym (a.method_kept m)) m) ∙ a.method_kept m;
  scheme_kept =
      λ m. b.scheme_kept (subst (λ x. x ≢ []) (sym (a.scheme_kept m)) m) ∙ a.scheme_kept m;
  got_kept = λ g. b.got_kept (a.got_kept g);
  path_kept = λ g. b.path_kept (a.got_kept g) ∙ a.path_kept g;
  query_kept = λ g. b.query_kept (a.got_kept g) ∙ a.query_kept g;
}

module _ (host : Host) where
  store_path-Keeps :
      (v : Bytes) (s : H2Stream)
      → (((store_path host v s).method ≡ s.method) × ((store_path host v s).scheme ≡ s.scheme))
  unfolding store_path
  store_path-Keeps v s = ground arith

  valid_pseudo_header-Keeps :
      (k v : Bytes) (s s' : H2Stream) → valid_pseudo_header host k v s ≡ some s' → Keeps s s'
  unfolding valid_pseudo_header
  valid_pseudo_header-Keeps k v s s' e = record {
    method_kept = λ m. ground (arith, store_path-Keeps v s);
    scheme_kept = λ m. ground (arith, store_path-Keeps v s);
    got_kept = λ g. ground arith;
    path_kept = λ g. ground arith;
    query_kept = λ g. ground arith;
  }

  consume_header-Keeps : (k v : Bytes) (s : H2Stream) → Keeps s (consume_header host k v s)
  unfolding consume_header
  consume_header-Keeps k v s = record {
    method_kept = λ m. ground arith;
    scheme_kept = λ m. ground arith;
    got_kept = λ g. ground arith;
    path_kept = λ g. ground arith;
    query_kept = λ g. ground arith;
  }

  take_field-Keeps :
      (k v : Bytes) (d d' : Decoding) → take_field host k v d ≡ some d' → Keeps d.stream d'.stream
  take_field-Keeps k v d d' e = elim (take_field-cases host k v d d' e) [
    | inl (_, p) ↦ valid_pseudo_header-Keeps k v d.stream d'.stream p
    | inr (_, _, stored) ↦
        let c = consume_header-Keeps k v d.stream in
        subst (λ s. Keeps d.stream s) (sym stored)
          (record {
            method_kept = c.method_kept;
            scheme_kept = c.scheme_kept;
            got_kept = c.got_kept;
            path_kept = c.path_kept;
            query_kept = c.query_kept;
          })
  ]

  Reach-Keeps : {d d' : Decoding} → Reach host d d' → Keeps d.stream d'.stream
  Reach-Keeps {d} here = Keeps-refl d.stream
  Reach-Keeps {d} (then_step {e} r (field k v d₁ p)) =
      Keeps-trans d.stream e.stream d₁.stream (Reach-Keeps r) (take_field-Keeps k v e d₁ p)
  Reach-Keeps {d} (then_step {e} r (inserted k v d₁ p)) =
      Keeps-trans d.stream e.stream d₁.stream (Reach-Keeps r) (take_field-Keeps k v e d₁ p)
  Reach-Keeps (then_step r (resized limit _ _)) = Reach-Keeps r

  -- A header block never replaces what the stream has: after a run of HPack::decode that returns,
  -- with an error or not, a method and a scheme that were there, and a path and a query that were
  -- received, are the same.
  pub decode-Keeps :
      (it : Bytes) (h : HPack) (stream : H2Stream) (code : ℕ) (d : Decoding)
      → decode host it h stream ≡ returned code d
      → Keeps stream d.stream
  decode-Keeps it h stream code d e = Reach-Keeps (decode-Ran host it h stream code d e).steps
