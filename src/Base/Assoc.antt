-- ===== src/Base/Assoc.antt =====
-- Go's maps as association lists, over keys with an equality test.
use Prim.Native.Nat.{suc, ◌+◌, ◌≤◌}
use mathlib.Core.Path.{◌≡◌, refl}
use mathlib.Core.List.{List, [], ◌∷◌, ◌++◌}
use mathlib.Core.Logic.{inl, inr}
use blogflow.Base.Lists.{All}
use blogflow.Base.Tests.{Bool-cases}
use mathlib.Core.Path.{subst}
use mathlib.Core.Option.{Option, none, some}
use native.Mathlib.Omega.{arith}
use blogflow.Base.Tests.{Eq, ◌==◌, if◌then◌else◌}
use blogflow.Base.Lists.{length}

module _ {ℓ κ} {K : Type ℓ} {V : Type κ} ⦃e : Eq K⦄ where
  -- `v, ok := m[k]`
  unfoldable pub lookup : K → List (K × V) → Option V
  lookup k [] = none
  lookup k ((j, v) ∷ m) = if j == k then some v else lookup k m

  -- `m[k] = v`
  unfoldable pub insert : K → V → List (K × V) → List (K × V)
  insert key new [] = (key, new) ∷ []
  insert key new ((j, old) ∷ rest) =
      if j == key then (key, new) ∷ rest else (j, old) ∷ insert key new rest

  -- `delete(m, k)`
  unfoldable pub erase : K → List (K × V) → List (K × V)
  erase k [] = []
  erase k ((j, w) ∷ m) = if j == k then erase k m else (j, w) ∷ erase k m

  pub lookup-insert :
      (k q : K) (new : V) (m : List (K × V))
      → lookup q (insert k new m) ≡ (if k == q then some new else lookup q m)
  unfolding lookup insert
  lookup-insert k q new [] = refl
  lookup-insert k q new ((i, old) ∷ m) =
      ground (arith, lookup-insert k q new m, e.beq_iff i q, e.beq_iff i k, e.beq_iff k q)

  pub lookup-erase :
      (k j : K) (m : List (K × V)) → lookup j (erase k m) ≡ (if k == j then none else lookup j m)
  unfolding lookup erase
  lookup-erase k j [] = ground arith
  lookup-erase k j ((i, w) ∷ m) =
      ground (arith, e.beq_iff k j, e.beq_iff i k, e.beq_iff i j, lookup-erase k j m)

  pub length-erase-le : (k : K) (m : List (K × V)) → length (erase k m) ≤ length m
  unfolding erase
  length-erase-le k [] = omega arith
  length-erase-le k ((i, w) ∷ m) = ground (arith, length-erase-le k m)

  -- Erasing a key that is present shortens the map.
  pub length-erase-lt :
      (k : K) (v : V) (m : List (K × V)) → lookup k m ≡ some v → suc (length (erase k m)) ≤ length m
  unfolding lookup erase
  length-erase-lt k v [] h = ground arith
  length-erase-lt k v ((i, w) ∷ m) h = ground (arith, length-erase-lt k v m, length-erase-le k m)

  pub length-insert_new :
      (k : K) (v : V) (m : List (K × V)) → lookup k m ≡ none → length (insert k v m) ≡ length m + 1
  unfolding lookup insert
  length-insert_new k v [] h = omega arith
  length-insert_new k v ((i, w) ∷ m) h = ground (arith, length-insert_new k v m)

  pub length-insert_old :
      (k : K) (v w : V) (m : List (K × V)) → lookup k m ≡ some w → length (insert k v m) ≡ length m
  unfolding lookup insert
  length-insert_old k v w [] h = ground arith
  length-insert_old k v w ((i, u) ∷ m) h = ground (arith, length-insert_old k v w m)

  pub erase_absent : (k : K) (m : List (K × V)) → lookup k m ≡ none → erase k m ≡ m
  unfolding lookup erase
  erase_absent k [] h = refl
  erase_absent k ((i, w) ∷ m) h = ground (arith, erase_absent k m)

  -- No key occurs twice.
  abbrev pub Distinct : List (K × V) → Type κ
  Distinct [] = Unit
  Distinct ((k, v) ∷ m) = (lookup k m ≡ none) × Distinct m

  pub erase-Distinct : (k : K) (m : List (K × V)) → Distinct m → Distinct (erase k m)
  unfolding erase
  erase-Distinct k [] h = tt
  erase-Distinct k ((i, w) ∷ m) (fresh, h) =
      ground (arith, erase-Distinct k m h, lookup-erase k i m, e.beq_iff k i, e.beq_iff i k)

  pub insert-Distinct : (k : K) (v : V) (m : List (K × V)) → Distinct m → Distinct (insert k v m)
  unfolding lookup insert
  insert-Distinct k v [] h = (refl, tt)
  insert-Distinct k v ((i, w) ∷ m) (fresh, h) =
      ground (arith, insert-Distinct k v m h, lookup-insert k i v m, e.beq_iff k i, e.beq_iff i k)

  pub length-erase_present :
      (k : K) (v : V) (m : List (K × V))
      → Distinct m
      → lookup k m ≡ some v
      → length (erase k m) + 1 ≡ length m
  unfolding lookup erase
  length-erase_present k v [] d h = ground arith
  length-erase_present k v ((i, w) ∷ m) (fresh, d) h =
      ground (arith, length-erase_present k v m d, erase_absent k m, e.beq_iff i k)

  pub lookup-append :
      (k : K) (m n : List (K × V))
      → lookup k (m ++ n) ≡ elim (lookup k m) [ some v ↦ some v | none ↦ lookup k n ]
  unfolding lookup
  lookup-append k [] n = refl
  lookup-append k ((i, w) ∷ m) n = ground (arith, lookup-append k m n)

  pub Distinct-append_left : (m n : List (K × V)) → Distinct (m ++ n) → Distinct m
  Distinct-append_left [] n h = tt
  Distinct-append_left ((i, w) ∷ m) n (fresh, h) =
      let rest = Distinct-append_left m n h in (ground (arith, lookup-append i m n), rest)

  -- What holds of every value of the map holds of the value found.
  pub All-lookup {ρ} :
      (P : V → Type ρ) (k : K) (v : V) (m : List (K × V))
      → All (λ x. P x.1) m
      → lookup k m ≡ some v
      → P v
  unfolding lookup
  All-lookup P k v [] h e = absurd (cc)
  All-lookup P k v ((i, w) ∷ m) (p, h) e = elim (Bool-cases (i == k)) [
    | inl same ↦ let found : w ≡ v = ground arith in subst P found p
    | inr differ ↦ All-lookup P k v m h (ground arith)
  ]

  pub All-erase {ρ} : (P : K × V → Type ρ) (k : K) (m : List (K × V)) → All P m → All P (erase k m)
  unfolding erase
  All-erase P k [] h = tt
  All-erase P k ((i, w) ∷ m) (p, h) = elim (Bool-cases (i == k)) [
    | inl same ↦ rw same (All-erase P k m h)
    | inr differ ↦ rw differ (p, All-erase P k m h)
  ]

  pub All-insert {ρ} :
      (P : K × V → Type ρ) (k : K) (v : V) (m : List (K × V))
      → All P m
      → P (k, v)
      → All P (insert k v m)
  unfolding insert
  All-insert P k v [] h new = (new, tt)
  All-insert P k v ((i, w) ∷ m) (p, h) new = elim (Bool-cases (i == k)) [
    | inl same ↦ rw same (new, h)
    | inr differ ↦ rw differ (p, All-insert P k v m h new)
  ]

  pub length-insert-le : (k : K) (v : V) (m : List (K × V)) → length (insert k v m) ≤ length m + 1
  unfolding insert
  length-insert-le k v [] = omega arith
  length-insert-le k v ((i, w) ∷ m) = ground (arith, length-insert-le k v m)
