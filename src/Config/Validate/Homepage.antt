-- ===== src/Config/Validate/Homepage.antt =====
-- internal/config/loader.go: the home pages that `Validate` accepts.
use blogflow.Base.{
  ◌≡◌, ◌≢◌, ◌⊎◌, ◌↔◌, inl, inr, true, List, [], ◌∷◌, ◌++◌, ◌==◌, list_eq, nat_eq, list_beq_iff,
  arith, Bool-cases, Option-cases, refl,
}
use blogflow.Base.Text.{cut_prefix_iff, Text, codes, is_empty, cut_prefix}
use blogflow.Config.Rules.{report, validate_homepage, static_rules, valid_static}
use blogflow.Config.Validate.Sections.{empty_iff}

-- The three forms of a home page, or none.
pub data Homepage (hp : Text) : Type 0 where
  standard : hp ≡ [] → Homepage hp
  post_list : hp ≡ codes "post_list" → Homepage hp
  page : (slug : Text) → hp ≡ codes "page:" ++ slug → slug ≢ [] → Homepage hp
  static : (p : Text) → hp ≡ codes "static:" ++ p → p ≢ [] → valid_static p ≡ true → Homepage hp

list_cases {ℓ} : {A : Type ℓ} (xs : List A) → (xs ≡ []) ⊎ (xs ≢ [])
list_cases [] = inl refl
list_cases (x ∷ xs) = inr (ground arith)

-- The rules for a text that is no page.
static_iff :
    (hp : Text)
    → (static_rules hp ≡ [])
      ↔ ((p : Text) × (hp ≡ codes "static:" ++ p) × (p ≢ []) × (valid_static p ≡ true))
unfolding static_rules report
static_iff hp = (sound, complete)
  where
    sound :
        static_rules hp ≡ []
        → (p : Text) × (hp ≡ codes "static:" ++ p) × (p ≢ []) × (valid_static p ≡ true)
    sound h = elim (Option-cases (cut_prefix hp (codes "static:"))) [
      | inl e ↦ absurd (ground arith)
      | inr ([], e) ↦ absurd (ground arith)
      | inr (c ∷ sp, e) ↦
          (c ∷ sp, (cut_prefix_iff hp (codes "static:") (c ∷ sp)).0 e, ground arith, ground arith)
    ]

    complete :
        ((p : Text) × (hp ≡ codes "static:" ++ p) × (p ≢ []) × (valid_static p ≡ true))
        → static_rules hp ≡ []
    complete ([], e, filled, ok) = absurd (filled refl)
    complete (c ∷ sp, e, filled, ok) =
        let cut = (cut_prefix_iff hp (codes "static:") (c ∷ sp)).1 e in ground arith

from_static : {hp : Text} → static_rules hp ≡ [] → Homepage hp
from_static h = let (p, e, filled, ok) = (static_iff _).0 h in static p e filled ok

pub validate_homepage-Homepage : (hp : Text) → (validate_homepage hp ≡ []) ↔ Homepage hp
unfolding validate_homepage
validate_homepage-Homepage hp = (sound, complete)
  where
    sound : validate_homepage hp ≡ [] → Homepage hp
    sound h = elim (Bool-cases (is_empty hp)) [
      | inl e ↦ standard (ground (arith, empty_iff hp))
      | inr filled ↦ elim (Bool-cases (hp == codes "post_list")) [
        | inl e ↦ post_list ((list_beq_iff hp (codes "post_list")).0 e)
        | inr other ↦ elim (Option-cases (cut_prefix hp (codes "page:"))) [
          | inr (c ∷ slug, e) ↦
              page (c ∷ slug) ((cut_prefix_iff hp (codes "page:") (c ∷ slug)).0 e) (ground arith)
          | inr ([], e) ↦ from_static (ground arith)
          | inl e ↦ from_static (ground arith)
        ]
      ]
    ]

    complete : Homepage hp → validate_homepage hp ≡ []
    complete (standard e) = rw e refl
    complete (post_list e) = let same = (list_beq_iff hp (codes "post_list")).1 e in ground arith
    complete (page [] e filled) = absurd (filled refl)
    complete (page (c ∷ slug) e filled) =
        let cut = (cut_prefix_iff hp (codes "page:") (c ∷ slug)).1 e in ground arith
    complete (static p e filled ok) =
        let none_wrong = (static_iff hp).1 (p, e, filled, ok) in ground arith
