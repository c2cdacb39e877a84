-- ===== src/Search/Pages/Cover.antt =====
-- The pages of a ranking cover it (internal/search/search.go).
use blogflow.Base.{
  ◌%◌, ℕ, zero, suc, ◌+◌, ◌*◌, ◌-◌, ◌/◌, ◌≤◌, ◌≡◌, ◌∙◌, sym, ap, List, [], ◌++◌, length, take, drop,
  take-append-drop, length-drop, ltb, arith, Bool-cases, inl, inr, nat_eq, list_eq,
}
use native.Mathlib.Omega.{div_fact, mod_fact}
use blogflow.Base.{take_all, drop_all, drop-drop}
use blogflow.Search.Pages.{page_of, total_pages}

-- The first `n` pages, one after the other.
abbrev pub pages {ℓ} : {A : Type ℓ} → ℕ → ℕ → ℕ → List A → List A
pages zero offset limit l = []
pages (suc n) offset limit l = page_of offset limit l ++ pages n (offset + limit) limit l

page_of-take {ℓ} :
    {A : Type ℓ} (offset limit : ℕ) (l : List A)
    → page_of offset limit l ≡ take limit (drop offset l)
unfolding page_of
page_of-take offset limit l = elim (Bool-cases (ltb offset (length l))) [
  | inr past ↦
      let nil : drop offset l ≡ [] = drop_all offset l (ground arith) in
      rw (past, nil) (sym (take_all limit [] (omega arith)))
  | inl inside ↦ elim (Bool-cases (ltb (length l) (offset + limit))) [
    | inl last ↦
        rw (inside, last)
          (take_all (length l - offset) (drop offset l) (omega (arith, length-drop offset l))
            ∙ sym (take_all limit (drop offset l) (ground (arith, length-drop offset l))))
    | inr more ↦ rw (inside, more) (ap (λ k. take k (drop offset l)) (omega arith))
  ]
]

pub pages-drop {ℓ} :
    {A : Type ℓ} (n offset limit : ℕ) (l : List A)
    → length l ≤ offset + limit * n
    → pages n offset limit l ≡ drop offset l
pages-drop zero offset limit l h = sym (drop_all offset l (omega arith))
pages-drop (suc n) offset limit l h =
    ap (λ p. p ++ pages n (offset + limit) limit l) (page_of-take offset limit l)
    ∙ ap (λ p. take limit (drop offset l) ++ p)
        (pages-drop n (offset + limit) limit l (omega arith) ∙ sym (drop-drop limit offset l))
    ∙ take-append-drop limit (drop offset l)

pub total_pages-enough : (total n : ℕ) → total ≤ suc n * total_pages total (suc n)
unfolding total_pages
total_pages-enough total n =
    let d = div_fact (total + suc n - 1) n in
    let m = mod_fact (total + suc n - 1) n in
    elim (Bool-cases (ltb ((total + suc n - 1) / suc n) 1)) [
      | inl small ↦
          let none_yet : (total + suc n - 1) / suc n ≡ 0 = ground (arith, small) in
          let few : suc n * 0 + (total + suc n - 1) % suc n ≡ total + suc n - 1 =
            rw none_yet at d in
          rw small (omega (arith, few, m))
      | inr some_pages ↦ rw some_pages (omega (arith, d, m))
    ]

-- The pages of a ranking, as many as the response says there are, are together the whole ranking, in
-- order, with no result on two pages; for a limit of at least one.
pub pages_cover {ℓ} :
    {A : Type ℓ} (limit : ℕ) (ranked : List A)
    → 1 ≤ limit
    → pages (total_pages (length ranked) limit) 0 limit ranked ≡ ranked
pages_cover zero ranked positive = absurd (omega arith)
pages_cover (suc n) ranked positive =
    pages-drop (total_pages (length ranked) (suc n)) 0 (suc n) ranked
      (omega (arith, total_pages-enough (length ranked) n))
