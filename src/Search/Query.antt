-- ===== src/Search/Query.antt =====
-- The terms of a query (`normalize`, `tokenize`, `parseQueryTerms`, `NormalizeQuery` of
-- internal/search/tokenizer.go).
use blogflow.Base.{
  ℕ, ◌≡◌, refl, ◌∙◌, Bool, true, false, ◌||◌, List, [], ◌∷◌, any, length, if◌then◌else◌, arith,
  Bool-cases, inl, inr, list_eq, nat_eq, ◌==◌, list_beq_iff,
}
use blogflow.Base.Text.{Text, trim_space, text_lt, text_lt_total}
use blogflow.Search.Tokens.{tokenize_into}

abbrev pub has : Text → List Text → Bool
has t ts = any (λ u. u == t) ts

-- The loop that keeps the first of equal terms; `seen` are the terms kept so far.
unfoldable pub unique_terms : List Text → List Text → List Text
unique_terms seen [] = []
unique_terms seen (t ∷ raw) =
    let again = unique_terms seen raw in
    let kept = unique_terms (t ∷ seen) raw in if has t seen then again else t ∷ kept

-- `sort.Strings`
unfoldable pub insert_text : Text → List Text → List Text
insert_text t [] = t ∷ []
insert_text t (u ∷ l) = if text_lt u t then u ∷ insert_text t l else t ∷ u ∷ l

unfoldable pub sort_texts : List Text → List Text
unfolding insert_text
sort_texts [] = []
sort_texts (t ∷ l) = insert_text t (sort_texts l)

abbrev pub IsRising : List Text → Type 0
IsRising [] = Unit
IsRising (t ∷ []) = Unit
IsRising (t ∷ u ∷ l) = (text_lt t u ≡ true) × IsRising (u ∷ l)

has-unique_terms :
    (q : Text) (seen raw : List Text)
    → has q (unique_terms seen raw) ≡ (if has q seen then false else has q raw)
unfolding unique_terms
has-unique_terms q seen [] = ground arith
has-unique_terms q seen (t ∷ raw) =
    ground (arith, has-unique_terms q seen raw, has-unique_terms q (t ∷ seen) raw, list_beq_iff t q)

abbrev IsUnique : List Text → Type 0
IsUnique [] = Unit
IsUnique (t ∷ l) = (has t l ≡ false) × IsUnique l

unique_terms-IsUnique : (seen raw : List Text) → IsUnique (unique_terms seen raw)
unfolding unique_terms
unique_terms-IsUnique seen [] = tt
unique_terms-IsUnique seen (t ∷ raw) = elim (Bool-cases (has t seen)) [
  | inl old ↦ rw old (unique_terms-IsUnique seen raw)
  | inr new ↦ rw new (
    ground (arith, has-unique_terms t (t ∷ seen) raw, list_beq_iff t t),
    unique_terms-IsUnique (t ∷ seen) raw,
  )
]

has-insert_text : (q t : Text) (l : List Text) → has q (insert_text t l) ≡ (t == q || has q l)
unfolding insert_text
has-insert_text q t [] = refl
has-insert_text q t (u ∷ l) = ground (arith, has-insert_text q t l)

has-sort_texts : (q : Text) (l : List Text) → has q (sort_texts l) ≡ has q l
unfolding sort_texts
has-sort_texts q [] = refl
has-sort_texts q (t ∷ l) = ground (arith, has-insert_text q t (sort_texts l), has-sort_texts q l)

insert_text-IsRising :
    (t : Text) (l : List Text) → has t l ≡ false → IsRising l → IsRising (insert_text t l)
unfolding insert_text
insert_text-IsRising t [] fresh h = tt
insert_text-IsRising t (u ∷ []) fresh h = ground (arith, text_lt_total u t)
insert_text-IsRising t (u ∷ v ∷ l) fresh (lt, h) =
    ground (arith, text_lt_total u t, text_lt_total v t, insert_text-IsRising t (v ∷ l))

sort_texts-IsRising : (l : List Text) → IsUnique l → IsRising (sort_texts l)
unfolding sort_texts
sort_texts-IsRising [] h = tt
sort_texts-IsRising (t ∷ l) (fresh, h) =
    insert_text-IsRising t (sort_texts l) (has-sort_texts t l ∙ fresh) (sort_texts-IsRising l h)

-- `norm.NFC.String` and `strings.ToLower`.
module _ (is_letter is_digit : ℕ → Bool) (nfc to_lower : Text → Text) where
  unfoldable pub normalize : Text → Text
  normalize s = to_lower (nfc s)

  unfoldable pub tokenize : Text → List Text
  unfolding normalize
  tokenize s = tokenize_into is_letter is_digit [] (normalize s)

  unfoldable pub parse_query_terms : Text → List Text
  unfolding tokenize unique_terms sort_texts
  parse_query_terms q = sort_texts (unique_terms [] (tokenize q))

  unfoldable pub normalize_query : Text → Text
  unfolding normalize trim_space
  normalize_query raw = normalize (trim_space raw)

  unfoldable pub count_query_terms : Text → ℕ
  count_query_terms q = length (parse_query_terms q)

  -- The terms of a query are in strictly rising order, so none is there twice, and they are the
  -- tokens of the query.
  pub parse_query_terms-IsRising :
      (q : Text)
      → IsRising (parse_query_terms q)
        × ((t : Text) → has t (parse_query_terms q) ≡ has t (tokenize q))
  unfolding parse_query_terms
  parse_query_terms-IsRising q = (
    sort_texts-IsRising (unique_terms [] (tokenize q)) (unique_terms-IsUnique [] (tokenize q)),
    λ t. has-sort_texts t (unique_terms [] (tokenize q)) ∙ has-unique_terms t [] (tokenize q),
  )
