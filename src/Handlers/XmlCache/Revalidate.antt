-- ===== src/Handlers/XmlCache/Revalidate.antt =====
-- A client that sends back an ETag (internal/server/handlers/cache.go).
use blogflow.Base.{
  suc, zero, list_beq, Bool, true, false, ◌||◌, if◌then◌else◌, Option, All-append, take, Bool-cases,
  inl, inr, append_assoc, append-nil, ℕ, ◌/◌, ◌%◌, ◌<◌, ◌≡◌, refl, ◌∙◌, sym, ap, false, [], ◌∷◌,
  ◌++◌, list_eq, nat_eq, ◌==◌, arith, All,
}
use blogflow.Base.Text.{
  codes, is_empty, split, cut_prefix, Text, is_space, split_from, trim_space, trim_left, trim_right,
}
use blogflow.Handlers.XmlCache.{trim_weak, etag_matches, etag_of, not_modified, write_xml_cached}
use blogflow.Webhook.Signature.{hex_digit, hex_encode}

-- What hex digits are not.
abbrev IsPlain : ℕ → Type 0
IsPlain c = ((c == b',') ≡ false) × (is_space c ≡ false)

hex_digit-IsPlain : (n : ℕ) → n < 16 → IsPlain (hex_digit n)
unfolding hex_digit is_space
hex_digit-IsPlain n h = (ground arith, ground arith)

hex_encode-IsPlain : (s : Text) → All (λ c. c < 256) s → All IsPlain (hex_encode s)
unfolding hex_encode
hex_encode-IsPlain [] h = tt
hex_encode-IsPlain (c ∷ s) (byte, h) = (
  hex_digit-IsPlain (c / 16) (omega arith),
  (hex_digit-IsPlain (c % 16) (omega arith), hex_encode-IsPlain s h),
)

split_from-IsPlain : (cur s : Text) → All IsPlain s → split_from b',' cur s ≡ (cur ++ s) ∷ []
unfolding split_from
split_from-IsPlain cur [] h = ap (λ x. x ∷ []) (sym (append-nil cur))
split_from-IsPlain cur (c ∷ s) ((comma, _), h) =
    rw comma
      (split_from-IsPlain (cur ++ c ∷ []) s h ∙ ap (λ x. x ∷ []) (append_assoc cur (c ∷ []) s))

trim_right-IsPlain : (s : Text) → All IsPlain s → trim_right s ≡ s
unfolding trim_right
trim_right-IsPlain [] h = refl
trim_right-IsPlain (c ∷ s) ((_, space), h) = rw (trim_right-IsPlain s h) (ground (arith, space))

trim_space-IsPlain : (s : Text) → All IsPlain s → trim_space s ≡ s
unfolding trim_space trim_left
trim_space-IsPlain [] h = unfold trim_right in refl
trim_space-IsPlain (c ∷ s) ((comma, space), h) =
    rw space (trim_right-IsPlain (c ∷ s) ((comma, space), h))

or_false : (b : Bool) → (b || false) ≡ b
or_false b = ground arith

take-All {κ} : (P : ℕ → Type κ) (n : ℕ) (s : Text) → All P s → All P (take n s)
take-All P zero s h = tt
take-All P (suc n) [] h = tt
take-All P (suc n) (c ∷ s) (p, h) = (p, take-All P n s h)

-- The header with one ETag, as the server sent it or marked weak.
abbrev pub one_etag : Bool → Text → Text
one_etag weak etag = if weak then codes "W/" ++ etag else etag

module _ (sha256 : Text → Text) (parse_time : Text → Option ℕ) where
  etag_of-IsPlain :
      (body : Text)
      → All (λ c. c < 256) (sha256 body)
      → All IsPlain (etag_of sha256 parse_time body)
  unfolding etag_of is_space
  etag_of-IsPlain body bytes = (
    (refl, refl),
    All-append IsPlain (hex_encode (take 8 (sha256 body))) (b'"' ∷ [])
        (hex_encode-IsPlain (take 8 (sha256 body)) (take-All (λ c. c < 256) 8 (sha256 body) bytes))
        ((refl, refl), tt),
  )

  one_etag-IsPlain :
      (weak : Bool) (body : Text)
      → All (λ c. c < 256) (sha256 body)
      → All IsPlain (one_etag weak (etag_of sha256 parse_time body))
  unfolding is_space
  one_etag-IsPlain true body bytes = ((refl, refl), ((refl, refl), etag_of-IsPlain body bytes))
  one_etag-IsPlain false body bytes = etag_of-IsPlain body bytes

  trim_weak-one_etag :
      (weak : Bool) (body : Text)
      → trim_weak (one_etag weak (etag_of sha256 parse_time body)) ≡ etag_of sha256 parse_time body
  unfolding trim_weak etag_of cut_prefix
  trim_weak-one_etag true body = refl
  trim_weak-one_etag false body = refl

  not_star :
      (weak : Bool) (body : Text)
      → ((one_etag weak (etag_of sha256 parse_time body) == codes "*") ≡ false)
        × (is_empty (one_etag weak (etag_of sha256 parse_time body)) ≡ false)
  unfolding etag_of list_beq
  not_star true body = (refl, refl)
  not_star false body = (refl, refl)

  etag_matches-one_etag :
      (weak : Bool) (old body : Text)
      → All (λ c. c < 256) (sha256 old)
      → etag_matches
          (one_etag weak (etag_of sha256 parse_time old))
          (etag_of sha256 parse_time body)
        ≡ (etag_of sha256 parse_time old == etag_of sha256 parse_time body)
  unfolding etag_matches split
  etag_matches-one_etag weak old body bytes =
      let plain = one_etag-IsPlain weak old bytes in
      rw
        (
          trim_space-IsPlain _ plain,
          (not_star weak old).0,
          split_from-IsPlain [] _ plain,
          trim_space-IsPlain _ plain,
          trim_weak-one_etag weak old,
        )
        (or_false (etag_of sha256 parse_time old == etag_of sha256 parse_time body))

  -- A client that sends back the ETag of an earlier body, strong or weak, gets 304 and no body if the
  -- ETag of the new body is the same, and else the new body with 200, whatever If-Modified-Since says;
  -- for digests that are bytes.
  pub write_xml_cached-revalidates :
      (weak : Bool) (old body since : Text) (last_mod : Option ℕ)
      → All (λ c. c < 256) (sha256 old)
      → write_xml_cached sha256 parse_time
          (record {
            if_none_match = one_etag weak (etag_of sha256 parse_time old);
            if_modified_since = since;
          })
          body
          last_mod
        ≡ (if etag_of sha256 parse_time old == etag_of sha256 parse_time body
            then record {
              status = 304;
              etag = etag_of sha256 parse_time body;
              last_modified = last_mod;
              body = [];
            }
            else record {
              status = 200;
              etag = etag_of sha256 parse_time body;
              last_modified = last_mod;
              body = body;
            })
  unfolding write_xml_cached not_modified
  write_xml_cached-revalidates weak old body since last_mod bytes =
      elim (Bool-cases (etag_of sha256 parse_time old == etag_of sha256 parse_time body)) [
        | inl same ↦
            rw ((not_star weak old).1, etag_matches-one_etag weak old body bytes, same) refl
        | inr differ ↦
            rw ((not_star weak old).1, etag_matches-one_etag weak old body bytes, differ) refl
      ]
