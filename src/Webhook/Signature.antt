-- ===== src/Webhook/Signature.antt =====
-- The signature of a delivery (`signatureWellFormed` and `verifySignature` of
-- internal/gitops/webhook.go), with `hex.DecodeString` of the standard library. Headers and bodies
-- are bytes.
use blogflow.Base.{
  eq_of_beq, ℕ, ◌+◌, ◌-◌, ◌*◌, ◌/◌, ◌%◌, ◌<◌, ◌≡◌, refl, ap, Bool, true, false, ◌&&◌, not, [], ◌∷◌,
  ◌++◌, length, leb, ltb, if◌then◌else◌, list_eq, nat_eq, ◌==◌, Option, none, some, arith, All,
  eq_refl, Option-cases, inl, inr,
}
use blogflow.Base.Text.{Text, codes, cut_prefix, is_some}

-- The value of a hex digit.
unfoldable pub hex_value : ℕ → Option ℕ
hex_value c =
    if leb b'0' c && leb c b'9'
    then some (c - b'0')
    else if leb b'a' c && leb c b'f'
    then some (c - b'a' + 10)
    else if leb b'A' c && leb c b'F'
    then some (c - b'A' + 10)
    else none

-- `hex.DecodeString`; `none` is its error.
unfoldable pub hex_decode : Text → Option Text
unfolding hex_value
hex_decode [] = some []
hex_decode (c ∷ []) = none
hex_decode (c ∷ d ∷ s) =
    let rest = hex_decode s in
    elim (hex_value c) [
      | none ↦ none
      | some high ↦ elim (hex_value d) [
        | none ↦ none
        | some low ↦ elim rest [ none ↦ none | some bytes ↦ some ((high * 16 + low) ∷ bytes) ]
      ]
    ]

unfoldable pub signature_well_formed : Text → Bool
unfolding hex_decode
signature_well_formed sig_header = elim (cut_prefix sig_header (codes "sha256=")) [
  | none ↦ false
  | some sig ↦ if not (length sig == 64) then false else is_some (hex_decode sig)
]

-- `hex.EncodeToString`
unfoldable pub hex_digit : ℕ → ℕ
hex_digit n = if ltb n 10 then b'0' + n else b'a' + (n - 10)

unfoldable pub hex_encode : Text → Text
hex_encode [] = []
hex_encode (c ∷ s) = hex_digit (c / 16) ∷ hex_digit (c % 16) ∷ hex_encode s

hex_decode-length : (s bytes : Text) → hex_decode s ≡ some bytes → length s ≡ 2 * length bytes
unfolding hex_decode
hex_decode-length [] bytes h = ground arith
hex_decode-length (c ∷ []) bytes h = absurd (cc)
hex_decode-length (c ∷ d ∷ s) bytes h = elim (Option-cases (hex_decode s)) [
  | inl e ↦ absurd (ground arith)
  | inr (rest, e) ↦ ground (arith, hex_decode-length s rest e)
]

hex_value-hex_digit : (n : ℕ) → n < 16 → hex_value (hex_digit n) ≡ some n
unfolding hex_value hex_digit
hex_value-hex_digit n h = ground arith

hex_decode-hex_encode : (s : Text) → All (λ c. c < 256) s → hex_decode (hex_encode s) ≡ some s
unfolding hex_decode hex_encode
hex_decode-hex_encode [] h = refl
hex_decode-hex_encode (c ∷ s) (byte, h) =
    rw
      (
        hex_value-hex_digit (c / 16) (omega arith),
        hex_value-hex_digit (c % 16) (omega arith),
        hex_decode-hex_encode s h,
        hex_decode,
      )
      (ap (λ x. some (x ∷ s)) (omega arith))

-- The HMAC-SHA256 of the standard library: key, then message.
module _ (hmac : Text → Text → Text) where
  unfoldable pub verify_signature : Text → Text → Text → Bool
  unfolding hex_decode
  verify_signature secret payload sig_header = elim (cut_prefix sig_header (codes "sha256=")) [
    | none ↦ false
    | some sig ↦ elim (hex_decode sig) [
      | none ↦ false
      | some decoded ↦ decoded == hmac secret payload
    ]
  ]

  -- The check of the header's shape, which runs before the body is read, turns away no header that
  -- the real check would accept, for digests of 32 bytes.
  pub verify_signature-well_formed :
      (secret payload sig_header : Text)
      → length (hmac secret payload) ≡ 32
      → verify_signature secret payload sig_header ≡ true
      → signature_well_formed sig_header ≡ true
  unfolding verify_signature signature_well_formed
  verify_signature-well_formed secret payload sig_header size ok =
      elim (Option-cases (cut_prefix sig_header (codes "sha256="))) [
        | inl e ↦ absurd (ground arith)
        | inr (sig, e) ↦ elim (Option-cases (hex_decode sig)) [
          | inl f ↦ absurd (ground arith)
          | inr (bytes, f) ↦
              let same =
                eq_of_beq bytes (hmac secret payload) (rw (e, f, verify_signature) at ok) in
              let full : length sig ≡ 64 =
                omega (arith, hex_decode-length sig bytes f, ap length same, size) in
              rw (e, f, full, signature_well_formed) refl
        ]
      ]

  signed :
      (secret payload : Text)
      → All (λ c. c < 256) (hmac secret payload)
      → verify_signature secret payload (codes "sha256=" ++ hex_encode (hmac secret payload)) ≡ true
  unfolding verify_signature cut_prefix
  signed secret payload bytes =
      rw (hex_decode-hex_encode (hmac secret payload) bytes, verify_signature)
        (eq_refl (hmac secret payload))

  -- The header that a sender builds, "sha256=" and the digest's bytes in hex, passes both checks, for
  -- digests of 32 bytes.
  pub verify_signature-hex_encode :
      (secret payload : Text)
      → length (hmac secret payload) ≡ 32
      → All (λ c. c < 256) (hmac secret payload)
      → (verify_signature secret payload (codes "sha256=" ++ hex_encode (hmac secret payload))
          ≡ true)
        × (signature_well_formed (codes "sha256=" ++ hex_encode (hmac secret payload)) ≡ true)
  verify_signature-hex_encode secret payload size bytes =
      let passes = signed secret payload bytes in
      (passes, verify_signature-well_formed secret payload _ size passes)
