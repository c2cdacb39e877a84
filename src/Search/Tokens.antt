-- ===== src/Search/Tokens.antt =====
-- Tokenization (internal/search/tokenizer.go).
use blogflow.Base.{
  ℕ, ◌≡◌, refl, subst, Bool, true, false, ◌||◌, List, [], ◌∷◌, ◌++◌, append_assoc, if◌then◌else◌,
  All, All-append, Bool-cases, inl, inr,
}
use blogflow.Base.Text.{Text, is_empty}

-- `unicode.IsLetter` and `unicode.IsDigit`.
module _ (is_letter is_digit : ℕ → Bool) where
  unfoldable pub is_token_rune : ℕ → Bool
  is_token_rune r = is_letter r || is_digit r

  -- The loop of `tokenizeInto`. `token` is the text from `start` on, and is empty where `start` is -1.
  unfoldable pub tokens_from : Text → Text → List Text
  tokens_from token [] = if is_empty token then [] else token ∷ []
  tokens_from token (r ∷ s) =
      let longer = tokens_from (token ++ r ∷ []) s in
      let closed = tokens_from [] s in
      if is_token_rune r then longer else if is_empty token then closed else token ∷ closed

  unfoldable pub tokenize_into : List Text → Text → List Text
  unfolding tokens_from
  tokenize_into dst normalized = dst ++ tokens_from [] normalized

  -- A text begins with no token rune.
  abbrev pub Closed : Text → Type 0
  Closed [] = Unit
  Closed (r ∷ s) = is_token_rune r ≡ false

  -- The tokens of a text are its maximal runs of token runes, in order.
  pub data Splits : Text → List Text → Type 0 where
    end : Splits [] []
    skip :
        {s : Text} {ts : List Text} (r : ℕ)
        → is_token_rune r ≡ false
        → Splits s ts
        → Splits (r ∷ s) ts
    token :
        {s : Text} {ts : List Text} (t : Text)
        → is_empty t ≡ false
        → All (λ r. is_token_rune r ≡ true) t
        → Closed s
        → Splits s ts
        → Splits (t ++ s) (t ∷ ts)

  snoc_not_empty : (t : Text) (r : ℕ) → is_empty (t ++ r ∷ []) ≡ false
  snoc_not_empty [] r = refl
  snoc_not_empty (x ∷ t) r = refl

  tokens_from-Splits :
      (t s : Text) → All (λ r. is_token_rune r ≡ true) t → Splits (t ++ s) (tokens_from t s)
  unfolding tokens_from
  tokens_from-Splits [] [] h = end
  tokens_from-Splits (x ∷ t) [] h = token (x ∷ t) refl h tt end
  tokens_from-Splits t (r ∷ s) h = elim (Bool-cases (is_token_rune r)) [
    | inl e ↦ rw e (
        subst (λ u. Splits u (tokens_from (t ++ r ∷ []) s)) (append_assoc t (r ∷ []) s)
          (tokens_from-Splits (t ++ r ∷ []) s
            (All-append (λ x. is_token_rune x ≡ true) t (r ∷ []) h (e, tt))))
    | inr e ↦ rw e (closing t r s h e (tokens_from-Splits [] s tt))
  ]
    where
      closing :
          (t : Text) (r : ℕ) (s : Text)
          → All (λ x. is_token_rune x ≡ true) t
          → is_token_rune r ≡ false
          → Splits s (tokens_from [] s)
          → Splits (t ++ r ∷ s) (if is_empty t then tokens_from [] s else t ∷ tokens_from [] s)
      closing [] r s h e rest = skip r e rest
      closing (x ∷ t) r s h e rest = token (x ∷ t) refl h e (skip r e rest)

  -- Tokenization appends to the given tokens the maximal runs of letters and digits of the text, in
  -- order: each is not empty, holds token runes only, and ends at the end of the text or before a
  -- rune of another kind, and what lies between them has no token rune.
  pub tokenize_into-Splits :
      (dst : List Text) (normalized : Text)
      → (ts : List Text) × (tokenize_into dst normalized ≡ dst ++ ts) × Splits normalized ts
  unfolding tokenize_into
  tokenize_into-Splits dst normalized =
      (tokens_from [] normalized, refl, tokens_from-Splits [] normalized tt)
