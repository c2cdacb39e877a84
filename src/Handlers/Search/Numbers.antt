-- ===== src/Handlers/Search/Numbers.antt =====
-- internal/server/handlers/search.go: the numbers of pages.
use native.Mathlib.Nat.{mul-div_cancel}
use blogflow.Base.{
  ℕ, zero, suc, ◌+◌, ◌*◌, ◌-◌, ◌/◌, ◌≤◌, ◌<◌, ◌≡◌, Bool, true, false, ltb, if◌then◌else◌, Option,
  none, some, inl, inr, Bool-cases, arith, refl, ap, ◌∙◌,
}
use blogflow.Base.Int.{ℤ, pos, negsuc}
use blogflow.Base.Text.{Text, is_empty}
use blogflow.Search.Pages.{page_limit, page_offset, total_pages}
use blogflow.Handlers.Search.{parse_search_page, max_search_page, search_limit}

pub chosen_first : {A : Type 0} (b : Bool) (x y z : A) → b ≡ true → (if b then x else y) ≡ z → x ≡ z
chosen_first true x y z e h = h
chosen_first false x y z e h = absurd (cc)

pub chosen_second :
    {A : Type 0} (b : Bool) (x y z : A) → b ≡ false → (if b then x else y) ≡ z → y ≡ z
chosen_second true x y z e h = absurd (cc)
chosen_second false x y z e h = h

pub parse_search_page-bounds :
    (atoi : Text → Option ℤ) (p : Text)
    → (1 ≤ parse_search_page atoi p) × (parse_search_page atoi p ≤ max_search_page)
unfolding parse_search_page
parse_search_page-bounds atoi p = elim (Bool-cases (is_empty p)) [
  | inl empty ↦ rw empty (ground arith, ground arith)
  | inr given ↦ rw given (number (atoi p))
]
  where
    number :
        (n : Option ℤ)
        → let page = elim n as (λ x. ℕ) [
          | none ↦ 1
          | some (pos (suc n)) ↦ if ltb max_search_page (suc n) then max_search_page else suc n
          | some (pos zero) ↦ 1
          | some (negsuc _) ↦ 1
        ] in
          (1 ≤ page) × (page ≤ max_search_page)
    number none = (ground arith, ground arith)
    number (some (pos (suc n))) = (ground arith, ground arith)
    number (some (pos zero)) = (ground arith, ground arith)
    number (some (negsuc n)) = (ground arith, ground arith)

pub search_limit-positive : (n : ℤ) → zero < search_limit n
unfolding search_limit
search_limit-positive (pos (suc n)) = omega arith
search_limit-positive (pos zero) = omega arith
search_limit-positive (negsuc n) = omega arith

page_limit-positive : (n : ℕ) (d : ℤ) → zero < n → page_limit (pos n) d ≡ n
unfolding page_limit
page_limit-positive zero d h = absurd (omega (arith, h))
page_limit-positive (suc n) d h = refl

pub total_pages-positive : (total limit : ℕ) → 1 ≤ total_pages total limit
unfolding total_pages
total_pages-positive total zero = omega arith
total_pages-positive total (suc n) = ground arith

-- The page that an offset belongs to is the one that it was computed from.
pub page_number :
    (page limit : ℕ) (d : ℤ)
    → 1 ≤ page
    → zero < limit
    → page_offset (pos ((page - 1) * limit)) / page_limit (pos limit) d + 1 ≡ page
page_number page limit d first positive =
    ap (λ n. (page - 1) * limit / n + 1) (page_limit-positive limit d positive)
    ∙ ap (λ n. n + 1) (mul-div_cancel (page - 1) positive)
    ∙ omega (arith, first)
