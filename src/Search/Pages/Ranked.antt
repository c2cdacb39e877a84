-- ===== src/Search/Pages/Ranked.antt =====
-- Which documents a ranking holds (`rank` of internal/search/search.go).
use blogflow.Base.{
  ℕ, ◌≡◌, refl, ◌∙◌, ap, Bool, false, ◌||◌, List, [], ◌∷◌, length, arith, any, Bool-cases, inl, inr,
  nat_eq, list_eq, ◌==◌,
}
use blogflow.Base.Text.{Text, is_some}
use blogflow.Base.Assoc.{lookup, insert, lookup-insert, Distinct, insert-Distinct}
use blogflow.Search.Index.{Field, Posting, SearchIndex, postings_of, count_of}
use blogflow.Search.Pages.{
  Scored, before, add_scores, score_terms, score_of, insert_scored, sort_scores, rank,
}

abbrev pub is_ranked : {F : Type 0} → ℕ → List (Scored F) → Bool
is_ranked id l = any (λ s. s.doc_id == id) l

abbrev pub UniqueIds : {F : Type 0} → List (Scored F) → Type 0
UniqueIds [] = Unit
UniqueIds (s ∷ l) = (is_ranked s.doc_id l ≡ false) × UniqueIds l

abbrev pub has_posting : ℕ → List Posting → Bool
has_posting id ps = any (λ p. p.doc_id == id) ps

abbrev pub matches : SearchIndex → ℕ → List Text → Bool
matches si id terms = any (λ t. has_posting id (postings_of t si.postings)) terms

or_assoc : (a b c : Bool) → ((a || b) || c) ≡ (a || (b || c))
or_assoc a b c = ground arith

or_swap : (a b c : Bool) → (a || (b || c)) ≡ (b || (a || c))
or_swap a b c = ground arith

module _ {F : Type 0} (zero_score : F) (add : F → F → F) (contribution : ℕ → ℕ → Field → ℕ → F)
    (quantize : F → F) (above differs : F → F → Bool) where
  scored : ℕ → ℕ → Posting → List (ℕ × F) → F
  scored n df p scores =
      add (score_of zero_score add contribution quantize above differs p.doc_id scores)
        (contribution n df p.field p.tf)

  add_scores-keys :
      (n df id : ℕ) (ps : List Posting) (scores : List (ℕ × F))
      → is_some
          (lookup id (add_scores zero_score add contribution quantize above differs n df ps scores))
        ≡ (is_some (lookup id scores) || has_posting id ps)
  unfolding add_scores scored
  add_scores-keys n df id [] scores = ground arith
  add_scores-keys n df id (p ∷ ps) scores =
      add_scores-keys n df id ps (insert p.doc_id (scored n df p scores) scores)
      ∙ ground (arith, lookup-insert p.doc_id id (scored n df p scores) scores)

  add_scores-Distinct :
      (n df : ℕ) (ps : List Posting) (scores : List (ℕ × F))
      → Distinct scores
      → Distinct (add_scores zero_score add contribution quantize above differs n df ps scores)
  unfolding add_scores scored
  add_scores-Distinct n df [] scores h = h
  add_scores-Distinct n df (p ∷ ps) scores h =
      add_scores-Distinct n df ps (insert p.doc_id (scored n df p scores) scores)
        (insert-Distinct p.doc_id (scored n df p scores) scores h)

  score_terms-keys :
      (si : SearchIndex) (id : ℕ) (terms : List Text) (scores : List (ℕ × F))
      → is_some (
          lookup id
            (score_terms zero_score add contribution quantize above differs si terms scores))
        ≡ (is_some (lookup id scores) || matches si id terms)
  unfolding score_terms
  score_terms-keys si id [] scores = ground arith
  score_terms-keys si id (t ∷ terms) scores =
      let next =
        add_scores zero_score add contribution quantize above differs (length si.docs)
          (count_of t si.doc_freq) (postings_of t si.postings) scores in
      score_terms-keys si id terms next
      ∙ ap (λ b. b || matches si id terms)
          (add_scores-keys (length si.docs) (count_of t si.doc_freq) id (postings_of t si.postings)
            scores)
      ∙ or_assoc (is_some (lookup id scores)) (has_posting id (postings_of t si.postings))
          (matches si id terms)

  score_terms-Distinct :
      (si : SearchIndex) (terms : List Text) (scores : List (ℕ × F))
      → Distinct scores
      → Distinct (score_terms zero_score add contribution quantize above differs si terms scores)
  unfolding score_terms
  score_terms-Distinct si [] scores h = h
  score_terms-Distinct si (t ∷ terms) scores h = score_terms-Distinct si terms _ (
      add_scores-Distinct (length si.docs) (count_of t si.doc_freq) (postings_of t si.postings)
        scores h)

  is_ranked-insert_scored :
      (si : SearchIndex) (id : ℕ) (a : Scored F) (l : List (Scored F))
      → is_ranked id (insert_scored zero_score add contribution quantize above differs si a l)
        ≡ (a.doc_id == id || is_ranked id l)
  unfolding insert_scored
  is_ranked-insert_scored si id a [] = refl
  is_ranked-insert_scored si id a (b ∷ l) =
      elim (Bool-cases (before zero_score add contribution quantize above differs si b a)) [
        | inl e ↦ rw e (
            ap (λ x. b.doc_id == id || x) (is_ranked-insert_scored si id a l)
            ∙ or_swap (b.doc_id == id) (a.doc_id == id) (is_ranked id l))
        | inr e ↦ rw e refl
      ]

  insert_scored-UniqueIds :
      (si : SearchIndex) (a : Scored F) (l : List (Scored F))
      → is_ranked a.doc_id l ≡ false
      → UniqueIds l
      → UniqueIds (insert_scored zero_score add contribution quantize above differs si a l)
  unfolding insert_scored
  insert_scored-UniqueIds si a [] fresh h = (refl, tt)
  insert_scored-UniqueIds si a (b ∷ l) fresh (first, h) =
      elim (Bool-cases (before zero_score add contribution quantize above differs si b a)) [
        | inl e ↦ rw e (
          is_ranked-insert_scored si b.doc_id a l ∙ ground (arith, fresh, first),
          insert_scored-UniqueIds si a l (ground (arith, fresh)) h,
        )
        | inr e ↦ rw e (fresh, (first, h))
      ]

  is_ranked-sort_scores :
      (si : SearchIndex) (id : ℕ) (scores : List (ℕ × F))
      → is_ranked id (sort_scores zero_score add contribution quantize above differs si scores)
        ≡ is_some (lookup id scores)
  unfolding sort_scores lookup
  is_ranked-sort_scores si id [] = refl
  is_ranked-sort_scores si id ((k, s) ∷ scores) =
      is_ranked-insert_scored si id (record { doc_id = k; quantized = quantize s })
        (sort_scores zero_score add contribution quantize above differs si scores)
      ∙ ground (arith, is_ranked-sort_scores si id scores)

  sort_scores-UniqueIds :
      (si : SearchIndex) (scores : List (ℕ × F))
      → Distinct scores
      → UniqueIds (sort_scores zero_score add contribution quantize above differs si scores)
  unfolding sort_scores
  sort_scores-UniqueIds si [] h = tt
  sort_scores-UniqueIds si ((k, s) ∷ scores) (fresh, h) =
      insert_scored-UniqueIds si (record { doc_id = k; quantized = quantize s })
        (sort_scores zero_score add contribution quantize above differs si scores)
        (is_ranked-sort_scores si k scores ∙ ap is_some fresh) (sort_scores-UniqueIds si scores h)

  nothing_scored : (id : ℕ) → is_some (lookup {V = F} id []) ≡ false
  unfolding lookup
  nothing_scored id = refl

  -- A ranking holds each document once, and exactly the documents that have a posting for a term.
  pub rank-UniqueIds :
      (si : SearchIndex) (terms : List Text)
      → UniqueIds (rank zero_score add contribution quantize above differs si terms)
        × ((id : ℕ)
            → is_ranked id (rank zero_score add contribution quantize above differs si terms)
              ≡ matches si id terms)
  unfolding rank
  rank-UniqueIds si [] = (tt, λ id. refl)
  rank-UniqueIds si (t ∷ terms) = (
    sort_scores-UniqueIds si _ (score_terms-Distinct si (t ∷ terms) [] tt),
    λ id.
        is_ranked-sort_scores si id _
        ∙ score_terms-keys si id (t ∷ terms) []
        ∙ ap (λ x. x || matches si id (t ∷ terms)) (nothing_scored id),
  )
