-- ===== src/Gitops/Credentials/Redacted.antt =====
-- internal/gitops/redact.go: what a redacted text says of the credentials that were in it.
use blogflow.Base.{
  ℕ, zero, suc, ◌+◌, true, false, ◌&&◌, [], ◌∷◌, ◌++◌, ◌==◌, nat_eq, all, length, none, some, ◌≡◌,
  refl, sym, ap, ◌∙◌, inl, inr, All, All-append, Bool-cases, arith, append_assoc, length-append,
}
use blogflow.Base.Text.{Text, codes, cut_prefix}
use blogflow.Gitops.Credentials.{
  valid_scheme, match_at, is_letter, redact_credentials, is_scheme_char, scheme_tail, is_stop,
  userinfo_end, redact_from,
}

-- A text without a colon.
abbrev pub NoColon : Text → Type 0
NoColon s = All (λ c. (c == b':') ≡ false) s

-- Credentials that hold no slash, line break, quote or backslash.
abbrev pub IsPlain : Text → Type 0
IsPlain s = All (λ c. (is_stop c ≡ false) × ((c == 92) ≡ false)) s

scheme_char-NoColon : (s : Text) → all is_scheme_char s ≡ true → NoColon s
scheme_char-NoColon [] h = tt
scheme_char-NoColon (c ∷ s) h = (ground arith, scheme_char-NoColon s (ground arith))

scheme_tail-through :
    (u t : Text)
    → all is_scheme_char u ≡ true
    → scheme_tail (u ++ (codes "://" ++ t)) ≡ some (u ++ codes "://", t)
unfolding scheme_tail cut_prefix
scheme_tail-through [] t h = refl
scheme_tail-through (c ∷ u) t h =
    let colon : (c == b':') ≡ false = ground arith in
    let is_char : is_scheme_char c ≡ true = ground arith in
    rw (colon, is_char, scheme_tail-through u t (ground arith), scheme_tail, cut_prefix) refl

scheme_tail-none :
    (u t : Text) → NoColon u → all is_scheme_char u ≡ false → scheme_tail (u ++ t) ≡ none
unfolding scheme_tail cut_prefix
scheme_tail-none [] t n h = absurd (cc)
scheme_tail-none (c ∷ u) t (n, ns) h = elim (Bool-cases (is_scheme_char c)) [
  | inl is_char ↦
      rw (n, is_char, scheme_tail-none u t ns (ground arith), scheme_tail, cut_prefix) refl
  | inr not_char ↦ rw (n, not_char, scheme_tail, cut_prefix) refl
]

-- How far the userinfo goes from an `@` on.
abbrev from_at : Text → ℕ
from_at t = elim (userinfo_end false t) [ none ↦ 1 | some n ↦ suc n ]

userinfo_end-plain :
    (secret t : Text)
    → IsPlain secret
    → userinfo_end false (secret ++ b'@' ∷ t) ≡ some (length secret + from_at t)
unfolding userinfo_end
userinfo_end-plain [] t h = ap some (omega arith)
userinfo_end-plain (c ∷ secret) t ((plain, other), h) = elim (Bool-cases (c == b'@')) [
  | inl at ↦ rw (other, at, userinfo_end-plain secret t h, userinfo_end) (ap some (omega arith))
  | inr apart ↦
      rw (other, apart, plain, userinfo_end-plain secret t h, userinfo_end) (ap some (omega arith))
]

redact_from-skip :
    (s t : Text) (k n : ℕ) → n ≡ length s + k → redact_from n (s ++ t) ≡ redact_from k t
unfolding redact_from
redact_from-skip [] t k n e = ap (λ m. redact_from m t) (omega (arith, e))
redact_from-skip (c ∷ s) t k zero e = absurd (omega (arith, e))
redact_from-skip (c ∷ s) t k (suc n) e = redact_from-skip s t k n (omega (arith, e))

-- Credentials in a URL, behind its scheme.
abbrev around : Text → Text → Text
around t secret = codes "://" ++ (secret ++ b'@' ∷ t)

-- What a match turns into, with what follows.
abbrev hidden : ℕ → Text → Text → Text
hidden c u t = (c ∷ (u ++ codes "://")) ++ codes "[REDACTED]@" ++ redact_from (from_at t) (b'@' ∷ t)

redact_from-match :
    (c : ℕ) (u t secret : Text)
    → is_letter c ≡ true
    → all is_scheme_char u ≡ true
    → IsPlain secret
    → redact_from zero (c ∷ (u ++ around t secret)) ≡ hidden c u t
unfolding redact_from match_at
redact_from-match c u t secret letter chars plain =
    rw
      (
        letter,
        scheme_tail-through u (secret ++ b'@' ∷ t) chars,
        userinfo_end-plain secret t plain,
        redact_from,
        match_at,
      )
      (ap (λ r. (c ∷ (u ++ codes "://")) ++ codes "[REDACTED]@" ++ r)
        (redact_from-skip u (around t secret) (3 + (length secret + from_at t))
            (length (u ++ codes "://") + (length secret + from_at t))
            (omega (arith, length-append u (codes "://")))
          ∙ redact_from-skip (codes "://") (secret ++ b'@' ∷ t) (length secret + from_at t)
              (3 + (length secret + from_at t)) refl
          ∙ redact_from-skip secret (b'@' ∷ t) (from_at t) (length secret + from_at t) refl))

match_at-none :
    (c : ℕ) (u t : Text)
    → NoColon u
    → (is_letter c && all is_scheme_char u) ≡ false
    → redact_from zero (c ∷ (u ++ t)) ≡ c ∷ redact_from zero (u ++ t)
unfolding redact_from match_at
match_at-none c u t n h = elim (Bool-cases (is_letter c)) [
  | inl letter ↦ rw (letter, scheme_tail-none u t n (ground (arith, h)), redact_from, match_at) refl
  | inr other ↦ rw (other, redact_from, match_at) refl
]

independent :
    (pre : Text) (c : ℕ) (u t secret other : Text)
    → NoColon pre
    → is_letter c ≡ true
    → all is_scheme_char u ≡ true
    → IsPlain secret
    → IsPlain other
    → redact_from zero (pre ++ (c ∷ u ++ around t secret))
      ≡ redact_from zero (pre ++ (c ∷ u ++ around t other))
independent [] c u t secret other n letter chars plain plain' =
    redact_from-match c u t secret letter chars plain
    ∙ sym (redact_from-match c u t other letter chars plain')
independent (d ∷ pre) c u t secret other (n, ns) letter chars plain plain' =
    let v = pre ++ c ∷ u in
    let joined : (s : Text) → (pre ++ c ∷ u) ++ around t s ≡ pre ++ (c ∷ u ++ around t s) =
      λ s. append_assoc pre (c ∷ u) (around t s) in
    let no_colon : NoColon v =
      All-append (λ x. (x == b':') ≡ false) pre (c ∷ u) ns
        (ground arith, scheme_char-NoColon u chars) in
    elim (Bool-cases (is_letter d && all is_scheme_char v)) [
      | inl starts ↦
          ap (λ s. redact_from zero (d ∷ s)) (sym (joined secret))
          ∙ redact_from-match d v t secret (ground arith) (ground arith) plain
          ∙ sym (redact_from-match d v t other (ground arith) (ground arith) plain')
          ∙ ap (λ s. redact_from zero (d ∷ s)) (joined other)
      | inr not_here ↦
          ap (λ s. redact_from zero (d ∷ s)) (sym (joined secret))
          ∙ match_at-none d v (around t secret) no_colon not_here
          ∙ ap (λ s. d ∷ redact_from zero s) (joined secret)
          ∙ ap (◌∷◌ d) (independent pre c u t secret other ns letter chars plain plain')
          ∙ ap (λ s. d ∷ redact_from zero s) (sym (joined other))
          ∙ sym (match_at-none d v (around t other) no_colon not_here)
          ∙ ap (λ s. redact_from zero (d ∷ s)) (joined other)
    ]

-- In a text that holds a URL with credentials behind a valid scheme, and no colon before it, the redacted text does
-- not depend on the credentials: any two that hold no slash, line break, quote or backslash give the same one.
pub redact_credentials-independent :
    (pre scheme t secret other : Text)
    → NoColon pre
    → valid_scheme scheme ≡ true
    → IsPlain secret
    → IsPlain other
    → redact_credentials (pre ++ (scheme ++ (codes "://" ++ (secret ++ b'@' ∷ t))))
      ≡ redact_credentials (pre ++ (scheme ++ (codes "://" ++ (other ++ b'@' ∷ t))))
unfolding redact_credentials valid_scheme
redact_credentials-independent pre [] t secret other n valid plain plain' = absurd (cc)
redact_credentials-independent pre (c ∷ u) t secret other n valid plain plain' =
    independent pre c u t secret other n (ground arith) (ground arith) plain plain'
