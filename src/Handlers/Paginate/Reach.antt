-- ===== src/Handlers/Paginate/Reach.antt =====
-- The pages of a list reach every post (internal/server/handlers/handlers.go).
use native.Mathlib.Omega.{div_fact, mod_fact}
use blogflow.Base.{
  subst, ◌%◌, ℕ, zero, suc, ◌+◌, ◌-◌, ◌*◌, ◌/◌, ◌≤◌, ◌≡◌, ◌∙◌, sym, ap, true, false, List, [], ◌++◌,
  length, take, drop, length-drop, take-append-drop, take_all, drop_all, drop-drop, ltb,
  if◌then◌else◌, arith, Bool-cases, inl, inr, ◌↔◌,
}
use blogflow.Base.Int.{ℤ, pos, negsuc}
use blogflow.Handlers.Paginate.{page_count, clamp, paginate_by, paginate, valid_page}

-- `posts[start:end]`, with `end` cut to the length.
slice {ℓ} :
    {A : Type ℓ} (start size : ℕ) (l : List A)
    → take
        ((if ltb (length l) (start + size) then length l else start + size) - start)
        (drop start l)
      ≡ take size (drop start l)
slice start size l = elim (Bool-cases (ltb (length l) (start + size))) [
  | inl last ↦ rw last (
      take_all (length l - start) (drop start l) (omega (arith, length-drop start l))
      ∙ sym (take_all size (drop start l) (ground (arith, length-drop start l))))
  | inr more ↦ rw more (ap (λ k. take k (drop start l)) (omega arith))
]

page_count-enough : (total n : ℕ) → total ≤ suc n * page_count total n
unfolding page_count
page_count-enough total n =
    let d = div_fact (total + n) n in
    let m = mod_fact (total + n) n in
    elim (Bool-cases (ltb ((total + n) / suc n) 1)) [
      | inl small ↦
          let none_yet : (total + n) / suc n ≡ 0 = ground (arith, small) in
          let few : suc n * 0 + (total + n) % suc n ≡ total + n = rw none_yet at d in
          rw small (omega (arith, few, m))
      | inr some_pages ↦ rw some_pages (omega (arith, d, m))
    ]

page_count_positive : (total n : ℕ) → 1 ≤ page_count total n
unfolding page_count
page_count_positive total n = ground arith

paginate_by-slice {ℓ} :
    {A : Type ℓ} (n k : ℕ) (posts : List A)
    → suc k ≤ page_count (length posts) n
    → (paginate_by n posts (pos (suc k))).0 ≡ take (suc n) (drop (k * suc n) posts)
unfolding paginate_by clamp
paginate_by-slice n k posts h =
    let inside : ltb (page_count (length posts) n) (suc k) ≡ false = ground (arith, h) in
    let back : suc k - 1 ≡ k = omega arith in rw (inside, back) (slice (k * suc n) (suc n) posts)

-- The posts of `count` pages, from page `k + 1` on, as the handlers list them.
abbrev pub listed {ℓ} : {A : Type ℓ} → ℕ → ℕ → ℤ → List A → List A
listed zero k per_page posts = []
listed (suc count) k per_page posts =
    (paginate posts (pos (suc k)) per_page).0 ++ listed count (suc k) per_page posts

listed-drop {ℓ} :
    {A : Type ℓ} (n count k : ℕ) (posts : List A)
    → k + count ≡ page_count (length posts) n
    → listed count k (pos (suc n)) posts ≡ drop (k * suc n) posts
unfolding paginate
listed-drop n zero k posts h = sym (drop_all (k * suc n) posts enough)
  where
    last : page_count (length posts) n ≡ k
    last = omega (arith, h)

    enough : length posts ≤ k * suc n
    enough =
        let e = subst (λ j. length posts ≤ suc n * j) last (page_count-enough (length posts) n) in
        omega (arith, e)
listed-drop n (suc count) k posts h =
    ap (λ p. p ++ listed count (suc k) (pos (suc n)) posts)
      (paginate_by-slice n k posts (omega arith))
    ∙ ap (λ p. take (suc n) (drop (k * suc n) posts) ++ p)
        (listed-drop n count (suc k) posts (omega arith)
          ∙ ap (λ j. drop j posts) (omega arith)
          ∙ sym (drop-drop (suc n) (k * suc n) posts))
    ∙ take-append-drop (suc n) (drop (k * suc n) posts)

-- The pages of a list, from the first to the last that its pagination names, are together all of the
-- list, in order, with nothing twice; for a page size of at least one.
pub paginate-listed {ℓ} :
    {A : Type ℓ} (n : ℕ) (posts : List A) (page : ℤ)
    → listed (paginate posts page (pos (suc n))).1.total_pages 0 (pos (suc n)) posts ≡ posts
unfolding paginate paginate_by
paginate-listed n posts page =
    let start : 0 * suc n ≡ 0 = omega arith in
    listed-drop n (page_count (length posts) n) 0 posts (omega arith) ∙ ap (λ j. drop j posts) start

-- A page number is valid exactly if the pagination shows that very page, and does not cut the number
-- to the first or the last page; for a page size that is not negative.
pub valid_page-paginate {ℓ} :
    {A : Type ℓ} (posts : List A) (page : ℤ) (n : ℕ)
    → (valid_page (length posts) page (pos n) ≡ true)
      ↔ (pos (paginate posts page (pos n)).1.current_page ≡ page)
unfolding paginate paginate_by valid_page clamp
valid_page-paginate posts (negsuc k) zero = ground arith
valid_page-paginate posts (pos zero) zero = ground arith
valid_page-paginate posts (pos (suc k)) zero = ground arith
valid_page-paginate posts (negsuc k) (suc n) = ground arith
valid_page-paginate posts (pos zero) (suc n) = ground arith
valid_page-paginate posts (pos (suc k)) (suc n) =
    ground (arith, page_count_positive (length posts) n)
