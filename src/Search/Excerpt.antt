-- ===== src/Search/Excerpt.antt =====
-- Excerpts (`makeExcerpt`, `firstMatchRuneIndex`, `collapseWhitespace` of internal/search/search.go).
use blogflow.Base.{
  ℕ, zero, suc, ◌+◌, ◌-◌, ◌/◌, ◌≤◌, ◌<◌, ◌≡◌, refl, Bool, false, List, [], ◌∷◌, ◌++◌, length, take,
  drop, ltb, if◌then◌else◌, arith, Bool-cases, Option-cases, inl, inr, ◌⊎◌, Option, none, some,
}
use blogflow.Base.Text.{Text, is_empty, is_space}
use blogflow.Base.Int.{ℤ, pos, negsuc}
use blogflow.Search.Tokens.{is_token_rune}
use blogflow.Search.Query.{has}

-- `strings.Fields`; `word` is the text from the start of the current field.
unfoldable pub fields_from : Text → Text → List Text
fields_from word [] = if is_empty word then [] else word ∷ []
fields_from word (r ∷ s) =
    let longer = fields_from (word ++ r ∷ []) s in
    let closed = fields_from [] s in
    if is_space r then (if is_empty word then closed else word ∷ closed) else longer

-- `strings.Join` with a space.
unfoldable pub join_spaces : List Text → Text
join_spaces [] = []
join_spaces (w ∷ []) = w
join_spaces (w ∷ v ∷ ws) = w ++ b' ' ∷ join_spaces (v ∷ ws)

unfoldable pub collapse_whitespace : Text → Text
unfolding fields_from join_spaces
collapse_whitespace s = join_spaces (fields_from [] s)

-- `startRune` and `endRune`, for a positive length.
unfoldable pub excerpt_window : Option ℕ → ℕ → ℕ → ℕ × ℕ
excerpt_window match_rune length total =
    let start : ℕ = elim match_rune [
      | none ↦ 0
      | some i ↦ if ltb i (length / 2) then 0 else i - length / 2
    ] in
    if ltb total (start + length)
    then (
      if ltb total (start + length)
          then (if ltb total length then 0 else total - length)
          else start,
      total,
    )
    else (start, start + length)

abbrev pub ellipsis : Text
ellipsis = 8230 ∷ []

excerpt_window-IsWindow :
    (match_rune : Option ℕ) (n total : ℕ)
    → 1 ≤ n
    → let (start, end) = excerpt_window match_rune n total in
      (start ≤ end)
      × (end ≤ total)
      × (end ≤ start + n)
      × ((end ≡ start + n) ⊎ ((start ≡ 0) × (end ≡ total)))
unfolding excerpt_window
excerpt_window-IsWindow none n total positive = ground arith
excerpt_window-IsWindow (some i) n total positive = ground arith

excerpt_window-match :
    (i n total : ℕ)
    → 1 ≤ n
    → i < total
    → ((excerpt_window (some i) n total).0 ≤ i) × (i < (excerpt_window (some i) n total).1)
unfolding excerpt_window
excerpt_window-match i n total positive inside = ground arith

-- Where a match lies in the window.
abbrev pub Holds : Option ℕ → ℕ → ℕ → Type 0
Holds none start end = start ≡ 0
Holds (some i) start end = (start ≤ i) × (i < end)

module _ (is_letter is_digit : ℕ → Bool) (nfc to_lower : Text → Text) where
  -- The loop of `firstMatchRuneIndex` at index `i`; `token` is the text from `start` on, and is empty
  -- where `start` is -1.
  unfoldable pub match_from : List Text → ℕ → Text → ℕ → Text → Option ℕ
  match_from term_set start token i [] =
      if is_empty token then none else if has (to_lower token) term_set then some start else none
  match_from term_set start token i (r ∷ runes) =
      let longer =
        match_from term_set (if is_empty token then i else start) (token ++ r ∷ []) (suc i) runes in
      let next = match_from term_set 0 [] (suc i) runes in
      if is_token_rune is_letter is_digit r
      then longer
      else if is_empty token
      then next
      else if has (to_lower token) term_set
      then some start
      else next

  unfoldable pub first_match_rune_index : Text → List Text → Option ℕ
  unfolding match_from
  first_match_rune_index runes term_set =
      if is_empty term_set then none else match_from term_set 0 [] 0 runes

  unfoldable pub cut_excerpt : ℕ → Text → List Text → Text
  unfolding first_match_rune_index excerpt_window
  cut_excerpt n runes term_set =
      let (start, end) = excerpt_window (first_match_rune_index runes term_set) n (length runes) in
      (if ltb 0 start then ellipsis else [])
      ++ take (end - start) (drop start runes)
      ++ (if ltb end (length runes) then ellipsis else [])

  unfoldable pub make_excerpt : Text → List Text → ℤ → Text
  unfolding cut_excerpt collapse_whitespace
  make_excerpt plain term_set (negsuc n) = []
  make_excerpt plain term_set (pos zero) = []
  make_excerpt plain term_set (pos (suc n)) =
      let display = collapse_whitespace (nfc plain) in
      if is_empty display then [] else cut_excerpt (suc n) display term_set

  match_from-bound :
      (term_set : List Text) (start : ℕ) (token : Text) (i : ℕ) (s : Text) (k : ℕ)
      → (is_empty token ≡ false → start < i)
      → match_from term_set start token i s ≡ some k
      → k < i + length s
  unfolding match_from
  match_from-bound term_set start token i [] k before e = ground (arith, e)
  match_from-bound term_set start token i (r ∷ s) k before e =
      elim (Bool-cases (is_token_rune is_letter is_digit r)) [
        | inl run ↦
            let h =
              match_from-bound term_set (if is_empty token then i else start) (token ++ r ∷ [])
                (suc i) s k
                (λ _. elim (Bool-cases (is_empty token)) [
                  | inl nil ↦ rw nil (omega arith)
                  | inr some_left ↦ rw some_left (omega (arith, before some_left))
                ])
                (rw (run, match_from) at e) in
            omega (arith, h)
        | inr stop ↦
            let next : match_from term_set 0 [] (suc i) s ≡ some k → k < i + length (r ∷ s) = λ f.
              let h = match_from-bound term_set 0 [] (suc i) s k (λ d. absurd (cc d)) f in
              omega (arith, h) in
            elim (Bool-cases (is_empty token)) [
              | inl nil ↦ next (rw (stop, nil, match_from) at e)
              | inr some_left ↦ elim (Bool-cases (has (to_lower token) term_set)) [
                | inr other ↦ next (rw (stop, some_left, other, match_from) at e)
                | inl match ↦
                    let same : some start ≡ some k = rw (stop, some_left, match, match_from) at e in
                    ground (arith, same, before some_left)
              ]
            ]
      ]

  first_match_rune_index-bound :
      (runes : Text) (term_set : List Text) (k : ℕ)
      → first_match_rune_index runes term_set ≡ some k
      → k < length runes
  unfolding first_match_rune_index
  first_match_rune_index-bound runes term_set k e = elim (Bool-cases (is_empty term_set)) [
    | inl nil ↦ absurd (ground arith)
    | inr terms ↦
        let h =
          match_from-bound term_set 0 [] 0 runes k (λ d. absurd (cc d))
            (rw (terms, first_match_rune_index) at e) in
        omega (arith, h)
  ]

  window-Holds :
      (n : ℕ) (runes : Text) (term_set : List Text)
      → 1 ≤ n
      → Holds
          (first_match_rune_index runes term_set)
          (excerpt_window (first_match_rune_index runes term_set) n (length runes)).0
          (excerpt_window (first_match_rune_index runes term_set) n (length runes)).1
  window-Holds n runes term_set positive =
      elim (Option-cases (first_match_rune_index runes term_set)) [
        | inl e ↦ rw e (unfold excerpt_window in ground arith)
        | inr (k, e) ↦ rw e (
            excerpt_window-match k n (length runes) positive
              (first_match_rune_index-bound runes term_set k e))
      ]

  -- What an excerpt of a text is: a window of it with an ellipsis where text is cut off.
  pub record IsExcerpt (n : ℕ) (runes : Text) (term_set : List Text) (excerpt : Text) : Type 0 where
    pub start : ℕ
    pub end : ℕ
    pub shown :
        excerpt
        ≡ (if ltb 0 start then ellipsis else [])
          ++ take (end - start) (drop start runes)
          ++ (if ltb end (length runes) then ellipsis else [])
    pub ordered : start ≤ end
    pub inside : end ≤ length runes
    pub short : end ≤ start + n
    pub full : (end ≡ start + n) ⊎ ((start ≡ 0) × (end ≡ length runes))
    pub holds : Holds (first_match_rune_index runes term_set) start end

  -- For a positive length, the excerpt of a text that is not blank is a window of the collapsed text,
  -- with an ellipsis on each side that is cut. The window is as long as the length says, or is the
  -- whole text if that is shorter; the first match begins in it, and without a match it begins at the
  -- start of the text.
  pub make_excerpt-IsExcerpt :
      (n : ℕ) (plain : Text) (term_set : List Text)
      → is_empty (collapse_whitespace (nfc plain)) ≡ false
      → IsExcerpt
          (suc n)
          (collapse_whitespace (nfc plain))
          term_set
          (make_excerpt plain term_set (pos (suc n)))
  unfolding make_excerpt cut_excerpt
  make_excerpt-IsExcerpt n plain term_set text =
      let display = collapse_whitespace (nfc plain) in
      let (ordered, inside, short, full) =
        excerpt_window-IsWindow (first_match_rune_index display term_set) (suc n) (length display)
          (omega arith) in
      record {
        start =
            (excerpt_window (first_match_rune_index display term_set) (suc n) (length display)).0;
        end = (excerpt_window (first_match_rune_index display term_set) (suc n) (length display)).1;
        shown = rw text refl;
        ordered = ordered;
        inside = inside;
        short = short;
        full = full;
        holds = window-Holds (suc n) display term_set (omega arith);
      }
