-- ===== src/Hpack/Decoder/Invariants.antt =====
-- What every run of HPack::decode (Cutelyst/Server/hpack.cpp) keeps, by induction on its steps.
use cutelyst.Common.{
  ℕ, ◌≡◌, ◌≢◌, refl, sym, ◌∙◌, Bytes, [], ◌∷◌, ◌++◌, true, false, some, Bool-cases, Option-cases,
  arith, All, All-append, codes, bytes_eq, bytes_eq→eq, subst, bytes_eq_refl, starts_with_byte, inl,
  inr, index_of, drop, take, ◌-◌, ◌⊎◌,
}
use cutelyst.EngineRequest.Paths.{Leads, Leads-set_path}
use cutelyst.Hpack.Table.{HPack}
use cutelyst.Hpack.Table.Laws.{IsValid, update_size-IsValid, add_entry-IsValid}
use cutelyst.Hpack.Decoder.{
  Host, Decoding, H2Stream, returned, take_field, valid_pseudo_header, consume_header, valid_header,
  store_path, leading_slashes, complete, decode,
}
use cutelyst.Hpack.Decoder.Steps.{Step, field, inserted, resized, Reach, here, then_step}
use cutelyst.Hpack.Decoder.Runs.{decode-Ran}

-- A regular field as RFC 7540 section 8.1.2 lets it pass: no pseudo-header, no connection
-- header, and `te` with the value "trailers" only.
pub record IsRegular (f : Bytes × Bytes) : Type 0 where
  pub no_pseudo : (k : Bytes) → f.0 ≢ b':' ∷ k
  pub no_connection : f.0 ≢ codes "connection"
  pub te_trailers : f.0 ≡ codes "te" → f.1 ≡ codes "trailers"

-- What the fields of a stream satisfy after any number of steps.
pub record IsSound (s : H2Stream) : Type 0 where
  pub regular : All IsRegular s.headers
  pub path_leads : s.got_path ≡ true → Leads s.path

-- What a request that HPack::decode accepts is guaranteed to be.
pub record IsRequest (s : H2Stream) : Type 0 where
  pub sound : IsSound s
  pub leads : Leads s.path
  pub method_given : s.method ≢ []
  pub scheme_given : s.scheme ≢ []

module _ (host : Host) where
  take_field-hpack :
      (k v : Bytes) (d d' : Decoding) → take_field host k v d ≡ some d' → d'.hpack ≡ d.hpack
  unfolding take_field
  take_field-hpack k v d d' e = ground arith

  Step-IsValid : {d d' : Decoding} → Step host d d' → IsValid d.hpack → IsValid d'.hpack
  Step-IsValid {d} (field k v d₁ e) h = subst IsValid (sym (take_field-hpack k v d d₁ e)) h
  Step-IsValid {d} (inserted k v d₁ e) h =
      add_entry-IsValid _ d₁.hpack (subst IsValid (sym (take_field-hpack k v d d₁ e)) h)
  Step-IsValid {d} (resized limit le _) h = update_size-IsValid limit d.hpack le h

  Reach-IsValid : {d d' : Decoding} → IsValid d.hpack → Reach host d d' → IsValid d'.hpack
  Reach-IsValid h here = h
  Reach-IsValid h (then_step r s) = Step-IsValid s (Reach-IsValid h r)

  -- Whatever HPack::decode returns, an error included, a valid dynamic table stays valid: the
  -- size counted is that of the entries, within the limit in force, within the one agreed on.
  pub decode-IsValid :
      (it : Bytes) (h : HPack) (stream : H2Stream) (code : ℕ) (d : Decoding)
      → IsValid h
      → decode host it h stream ≡ returned code d
      → IsValid d.hpack
  decode-IsValid it h stream code d v e =
      Reach-IsValid v (decode-Ran host it h stream code d e).steps

  valid_header-IsRegular :
      (k v : Bytes) → starts_with_byte 0x3a k ≡ false → valid_header k v ≡ true → IsRegular (k, v)
  unfolding valid_header
  valid_header-IsRegular k v p h = record {
    no_pseudo = λ t e. ground arith;
    no_connection = λ e. ground (arith, bytes_eq_refl (codes "connection"));
    te_trailers = λ e. ground (arith, bytes_eq_refl (codes "te"), bytes_eq→eq v (codes "trailers"));
  }

  store_path-IsSound : (v : Bytes) (s : H2Stream) → IsSound s → IsSound (store_path host v s)
  unfolding store_path
  store_path-IsSound v s h = elim (Option-cases (index_of 0x3f v)) [
    | inl e ↦
        rw (e, store_path)
          (record {
            regular = h.regular;
            path_leads = λ _. Leads-set_path host.from_utf8 (drop (leading_slashes v) v);
          })
    | inr (i, e) ↦
        rw (e, store_path)
          (record {
            regular = h.regular;
            path_leads = λ _.
                Leads-set_path host.from_utf8
                  (take (i - leading_slashes v) (drop (leading_slashes v) v));
          })
  ]

  -- An accepted pseudo-header stores the path, or leaves path and headers as they are.
  valid_pseudo_header-cases :
      (k v : Bytes) (s s' : H2Stream)
      → valid_pseudo_header host k v s ≡ some s'
      → ((s.got_path ≡ false) × (s' ≡ store_path host v s))
        ⊎ ((s'.headers ≡ s.headers) × (s'.path ≡ s.path) × (s'.got_path ≡ s.got_path))
  unfolding valid_pseudo_header
  valid_pseudo_header-cases k v s s' e = ground arith

  valid_pseudo_header-IsSound :
      (k v : Bytes) (s s' : H2Stream)
      → valid_pseudo_header host k v s ≡ some s'
      → IsSound s
      → IsSound s'
  valid_pseudo_header-IsSound k v s s' e h = elim (valid_pseudo_header-cases k v s s' e) [
    | inl (_, stored) ↦ subst IsSound (sym stored) (store_path-IsSound v s h)
    | inr (same, path, got) ↦ record {
      regular = subst (All IsRegular) (sym same) h.regular;
      path_leads = λ p. subst Leads (sym path) (h.path_leads (sym got ∙ p));
    }
  ]

  -- An accepted field is a pseudo-header, or is appended to the headers.
  pub take_field-cases :
      (k v : Bytes) (d d' : Decoding)
      → take_field host k v d ≡ some d'
      → ((d.pseudo_headers_allowed ≡ true)
          × (valid_pseudo_header host k v d.stream ≡ some d'.stream))
        ⊎ ((starts_with_byte 0x3a k ≡ false)
            × (valid_header k v ≡ true)
            × (d'.stream ≡ record (consume_header host k v d.stream) {
              headers = (consume_header host k v d.stream).headers ++ ((k, v) ∷ []);
            }))
  unfolding take_field
  take_field-cases k v d d' e = ground arith

  consume_header-IsSound :
      (k v : Bytes) (s : H2Stream) → IsSound s → IsSound (consume_header host k v s)
  unfolding consume_header
  consume_header-IsSound k v s h = elim (Bool-cases (bytes_eq k (codes "content-length"))) [
    | inl e ↦ rw (e, consume_header) (record { regular = h.regular; path_leads = h.path_leads })
    | inr e ↦ rw (e, consume_header) h
  ]

  take_field-IsSound :
      (k v : Bytes) (d d' : Decoding)
      → take_field host k v d ≡ some d'
      → IsSound d.stream
      → IsSound d'.stream
  take_field-IsSound k v d d' e h = elim (take_field-cases k v d d' e) [
    | inl (_, p) ↦ valid_pseudo_header-IsSound k v d.stream d'.stream p h
    | inr (plain, valid, stored) ↦
        let c = consume_header-IsSound k v d.stream h in
        subst IsSound (sym stored) (record {
          regular =
              All-append IsRegular _ ((k, v) ∷ []) c.regular
                (valid_header-IsRegular k v plain valid, tt);
          path_leads = c.path_leads;
        })
  ]

  Reach-IsSound : {d d' : Decoding} → IsSound d.stream → Reach host d d' → IsSound d'.stream
  Reach-IsSound h here = h
  Reach-IsSound h (then_step {e} r (field k v d₁ p)) =
      take_field-IsSound k v e d₁ p (Reach-IsSound h r)
  Reach-IsSound h (then_step {e} r (inserted k v d₁ p)) =
      take_field-IsSound k v e d₁ p (Reach-IsSound h r)
  Reach-IsSound h (then_step r (resized limit _ _)) = Reach-IsSound h r

  -- The fields that a stream has got are sound whatever HPack::decode returns.
  pub decode-IsSound :
      (it : Bytes) (h : HPack) (stream : H2Stream) (code : ℕ) (d : Decoding)
      → IsSound stream
      → decode host it h stream ≡ returned code d
      → IsSound d.stream
  decode-IsSound it h stream code d s e =
      Reach-IsSound s (decode-Ran host it h stream code d e).steps

  complete-IsRequest :
      (d : Decoding) → complete d ≡ returned 0 d → IsSound d.stream → IsRequest d.stream
  unfolding complete
  complete-IsRequest d e h = record {
    sound = h;
    leads = h.path_leads (ground arith);
    method_given = ground arith;
    scheme_given = ground arith;
  }

  -- Where HPack::decode returns 0 for a stream that was sound, as a fresh one is, the stream has a
  -- path that starts with a slash, a method and a scheme, and its headers are regular fields: no
  -- pseudo-header among them, no `connection`, and `te` with "trailers" only.
  pub decode-IsRequest :
      (it : Bytes) (h : HPack) (stream : H2Stream) (d : Decoding)
      → IsSound stream
      → decode host it h stream ≡ returned 0 d
      → IsRequest d.stream
  decode-IsRequest it h stream d s e =
      let ran = decode-Ran host it h stream 0 d e in
      complete-IsRequest d (ran.checked_end refl) (Reach-IsSound s ran.steps)
