-- ===== src/Base/Sort.antt =====
-- A stable sort, which gives what Go's `sort.SliceStable` gives where the test is a strict weak order.
use mathlib.Core.Path.{◌≡◌}
use mathlib.Core.Logic.{inl, inr}
use mathlib.Core.Bool.{Bool, true, false}
use mathlib.Core.List.{List, [], ◌∷◌}
use blogflow.Base.Tests.{if◌then◌else◌, Bool-cases}
use blogflow.Base.Lists.{All, All-map}

module _ {ℓ} {A : Type ℓ} (less : A → A → Bool) where
  -- An element goes in front of those that are equal to it.
  unfoldable pub insert_stable : A → List A → List A
  insert_stable x [] = x ∷ []
  insert_stable x (y ∷ ys) =
      let rest = insert_stable x ys in if less y x then y ∷ rest else x ∷ y ∷ ys

  unfoldable pub sort_stable : List A → List A
  unfolding insert_stable
  sort_stable [] = []
  sort_stable (x ∷ xs) = insert_stable x (sort_stable xs)

  -- No element is less than one before it.
  abbrev pub IsOrdered : List A → Type ℓ
  IsOrdered [] = Unit
  IsOrdered (x ∷ xs) = All (λ y. less y x ≡ false) xs × IsOrdered xs

  insert_stable-All {κ} :
      (P : A → Type κ) (x : A) (xs : List A) → P x → All P xs → All P (insert_stable x xs)
  unfolding insert_stable
  insert_stable-All P x [] p h = (p, tt)
  insert_stable-All P x (y ∷ ys) p (q, h) = elim (Bool-cases (less y x)) [
    | inl e ↦ rw e (q, insert_stable-All P x ys p h)
    | inr e ↦ rw e (p, (q, h))
  ]

  pub sort_stable-All {κ} : (P : A → Type κ) (xs : List A) → All P xs → All P (sort_stable xs)
  unfolding sort_stable
  sort_stable-All P [] h = tt
  sort_stable-All P (x ∷ xs) (p, h) =
      insert_stable-All P x (sort_stable xs) p (sort_stable-All P xs h)

  module _ (asymmetric : (x y : A) → less x y ≡ true → less y x ≡ false)
      (transitive : (x y z : A) → less y x ≡ false → less z y ≡ false → less z x ≡ false) where
    insert_stable-IsOrdered : (x : A) (xs : List A) → IsOrdered xs → IsOrdered (insert_stable x xs)
    unfolding insert_stable
    insert_stable-IsOrdered x [] h = (tt, tt)
    insert_stable-IsOrdered x (y ∷ ys) (above, h) = elim (Bool-cases (less y x)) [
      | inl e ↦ rw e (
        insert_stable-All (λ z. less z y ≡ false) x ys (asymmetric y x e) above,
        insert_stable-IsOrdered x ys h,
      )
      | inr e ↦ rw e ((e, All-map (λ z. transitive x y z e) ys above), (above, h))
    ]

    pub sort_stable-IsOrdered : (xs : List A) → IsOrdered (sort_stable xs)
    unfolding sort_stable
    sort_stable-IsOrdered [] = tt
    sort_stable-IsOrdered (x ∷ xs) =
        insert_stable-IsOrdered x (sort_stable xs) (sort_stable-IsOrdered xs)
