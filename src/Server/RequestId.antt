-- ===== src/Server/RequestId.antt =====
-- Request identifiers (internal/server/requestid.go). Text is bytes.
use blogflow.Base.{
  ◌*◌, ℕ, suc, ◌+◌, ◌/◌, ◌%◌, ◌≤◌, ◌<◌, ◌≡◌, refl, Bool, true, false, ◌||◌, not, [], ◌∷◌, ◌++◌,
  length, ltb, if◌then◌else◌, nat_eq, ◌==◌, Option, none, some, arith, All, Bool-cases, inl, inr,
}
use blogflow.Base.Text.{Text, is_empty}
use blogflow.Webhook.Signature.{hex_digit, hex_encode}

abbrev pub printable : ℕ → Bool
printable c = not (ltb c 33 || ltb 126 c)

-- The loop of `isValidRequestID`.
unfoldable pub all_printable : Text → Bool
all_printable [] = true
all_printable (c ∷ s) = if printable c then all_printable s else false

unfoldable pub is_valid_request_id : Text → Bool
unfolding all_printable
is_valid_request_id id = if is_empty id || ltb 128 (length id) then false else all_printable id

-- `uuid[6] = (uuid[6] & 0x0f) | 0x40` and `uuid[8] = (uuid[8] & 0x3f) | 0x80`, at the index of a byte.
abbrev pub stamp : ℕ → ℕ → ℕ
stamp i u = if i == 6 then u % 16 + 64 else if i == 8 then u % 64 + 128 else u

-- The bytes in hex, with a dash behind those of index 3, 5, 7 and 9.
unfoldable pub format_from : ℕ → Text → Text
format_from i [] = []
format_from i (u ∷ bytes) =
    let digits = hex_encode (stamp i u ∷ []) in
    let rest = format_from (suc i) bytes in
    if i == 3 || i == 5 || i == 7 || i == 9 then digits ++ b'-' ∷ rest else digits ++ rest

-- `generateUUID`, from what `rand.Read` gives.
unfoldable pub generate_uuid : Option Text → Option Text
unfolding format_from
generate_uuid none = none
generate_uuid (some bytes) = some (format_from 0 bytes)

-- The identifier that `requestIDMiddleware` gives a request; without one it answers 500.
unfoldable pub request_id : Text → Option Text → Option Text
unfolding is_valid_request_id generate_uuid
request_id header random = if is_valid_request_id header then some header else generate_uuid random

all_printable-append :
    (s t : Text) → all_printable s ≡ true → all_printable t ≡ true → all_printable (s ++ t) ≡ true
unfolding all_printable
all_printable-append [] t hs ht = ht
all_printable-append (c ∷ s) t hs ht = ground (arith, all_printable-append s t)

hex_digit-printable : (n : ℕ) → n < 16 → printable (hex_digit n) ≡ true
unfolding hex_digit
hex_digit-printable n h = ground arith

stamp_byte : (i u : ℕ) → u < 256 → stamp i u < 256
stamp_byte i u h = ground arith

digits_printable : (u : ℕ) → u < 256 → all_printable (hex_encode (u ∷ [])) ≡ true
unfolding all_printable hex_encode
digits_printable u h =
    rw (hex_digit-printable (u / 16) (omega arith), hex_digit-printable (u % 16) (omega arith)) refl

format_from-printable :
    (i : ℕ) (bytes : Text) → All (λ u. u < 256) bytes → all_printable (format_from i bytes) ≡ true
unfolding format_from
format_from-printable i [] h = unfold all_printable in refl
format_from-printable i (u ∷ bytes) (byte, h) =
    let digits = digits_printable (stamp i u) (stamp_byte i u byte) in
    let rest = format_from-printable (suc i) bytes h in
    elim (Bool-cases (i == 3 || i == 5 || i == 7 || i == 9)) [
      | inl dash ↦ rw dash (
          all_printable-append (hex_encode (stamp i u ∷ [])) _ digits
            (all_printable-append (b'-' ∷ []) _ (unfold all_printable in refl) rest))
      | inr plain ↦ rw plain (all_printable-append (hex_encode (stamp i u ∷ [])) _ digits rest)
    ]

length-format_from :
    (i : ℕ) (bytes : Text)
    → (length (format_from i bytes) ≤ 3 * length bytes)
      × (is_empty bytes ≡ false → is_empty (format_from i bytes) ≡ false)
unfolding format_from hex_encode
length-format_from i [] = (omega arith, λ h. h)
length-format_from i (u ∷ bytes) =
    let (short, _) = length-format_from (suc i) bytes in
    elim (Bool-cases (i == 3 || i == 5 || i == 7 || i == 9)) [
      | inl dash ↦ rw dash (omega (arith, short), λ _. refl)
      | inr plain ↦ rw plain (omega (arith, short), λ _. refl)
    ]

format_from-valid :
    (bytes : Text)
    → length bytes ≡ 16
    → All (λ u. u < 256) bytes
    → is_valid_request_id (format_from 0 bytes) ≡ true
unfolding is_valid_request_id
format_from-valid bytes size byte =
    let (short, some_left) = length-format_from 0 bytes in
    let full : is_empty bytes ≡ false = not_empty bytes size in
    let fits : ltb 128 (length (format_from 0 bytes)) ≡ false =
      at_most _ (omega (arith, short, size)) in
    rw (some_left full, fits, is_valid_request_id) (format_from-printable 0 bytes byte)
  where
    not_empty : (s : Text) → length s ≡ 16 → is_empty s ≡ false
    not_empty [] h = absurd (omega arith)
    not_empty (c ∷ s) h = refl

    at_most : (n : ℕ) → n ≤ 128 → ltb 128 n ≡ false
    at_most n h = ground arith

-- With sixteen random bytes at hand the middleware gives every request an identifier, and it is valid
-- whether it is the one of the header or a new one: from 1 to 128 printable ASCII characters.
pub request_id-valid :
    (header bytes : Text)
    → length bytes ≡ 16
    → All (λ u. u < 256) bytes
    → (made : Text) × (request_id header (some bytes) ≡ some made)
      × (is_valid_request_id made ≡ true)
unfolding request_id
request_id-valid header bytes size byte = elim (Bool-cases (is_valid_request_id header)) [
  | inl valid ↦ (header, rw (valid, request_id) refl, valid)
  | inr bad ↦ (format_from 0 bytes, rw (bad, request_id) refl, format_from-valid bytes size byte)
]
