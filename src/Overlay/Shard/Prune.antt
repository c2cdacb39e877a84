-- ===== src/Overlay/Shard/Prune.antt =====
-- What the loop of `InvalidateLayer` and `ReplaceLayer` does to a shard: it removes exactly the
-- entries whose first candidate layer is the given one or a later one.
use blogflow.Base.{
  ℕ, ◌≤◌, ◌≡◌, refl, inl, inr, List, [], ◌∷◌, if◌then◌else◌, nat_eq, list_eq, list_beq_iff, ◌==◌,
  some, none, length, arith, Option-cases, Option, Bool-cases,
}
use blogflow.Base.Text.{Text, is_some}
use blogflow.Base.Assoc.{lookup}
use blogflow.Base.Int.{ℤ, pos, leb_ℤ}
use blogflow.Overlay.Shard.{Counted, remove_element, prune_key, prune_keys, prune_shard}
use blogflow.Overlay.Shard.Laws.{
  Keeps, cached, remove_element-Keeps, cached-remove_element, length-remove_element,
}

-- What is left of an entry.
abbrev pub survive : ℤ → Option ℕ → Option ℕ
survive layer none = none
survive layer (some first) = if leb_ℤ layer (pos first) then none else some first

prune_key_cases {ℓ} :
    (P : Counted → Type ℓ) (layer : ℤ) (key : Text) (c : Counted)
    → (survive layer (cached key c.shard) ≡ cached key c.shard → P c)
    → ((v : ℕ)
        → cached key c.shard ≡ some v
        → survive layer (some v) ≡ none
        → P (remove_element key c))
    → P (prune_key layer key c)
unfolding prune_key
prune_key_cases P layer key c same gone = elim (Option-cases (lookup key c.shard.lru)) [
  | inl e ↦ rw (e, prune_key) (same (rw e))
  | inr (v, e) ↦ elim (Bool-cases (leb_ℤ layer (pos v))) [
    | inl late ↦ rw (e, prune_key, late) (gone v e (rw late))
    | inr early ↦ rw (e, prune_key, early) (same (rw (e, early)))
  ]
]

cached-prune_key :
    (layer : ℤ) (key q : Text) (c : Counted)
    → cached q (prune_key layer key c).shard
      ≡ (if key == q then survive layer (cached q c.shard) else cached q c.shard)
cached-prune_key layer key q c =
    prune_key_cases
      (λ d.
        cached q d.shard
        ≡ (if key == q then survive layer (cached q c.shard) else cached q c.shard))
      layer key c (λ same. ground (arith, list_beq_iff key q))
      λ v here late. ground (arith, cached-remove_element key q c, list_beq_iff key q)

prune_key-Keeps :
    (layer : ℤ) (key : Text) (others : ℕ) (c : Counted)
    → Keeps others c
    → Keeps others (prune_key layer key c)
prune_key-Keeps layer key others c k =
    prune_key_cases (Keeps others) layer key c (λ _. k)
      λ v here _. remove_element-Keeps key v others c here k

length-prune_key :
    (layer : ℤ) (key : Text) (others : ℕ) (c : Counted)
    → Keeps others c
    → length (prune_key layer key c).shard.lru ≤ length c.shard.lru
length-prune_key layer key others c k =
    prune_key_cases (λ d. length d.shard.lru ≤ length c.shard.lru) layer key c (λ _. omega arith)
      λ v here _. omega (arith, length-remove_element key v c here k.valid)

prune_keys-Keeps :
    (layer : ℤ) (keys : List (Text × Unit {0})) (others : ℕ) (c : Counted)
    → Keeps others c
    → Keeps others (prune_keys layer keys c)
      × (length (prune_keys layer keys c).shard.lru ≤ length c.shard.lru)
unfolding prune_keys
prune_keys-Keeps layer [] others c k = (k, omega arith)
prune_keys-Keeps layer ((key, _) ∷ keys) others c k =
    let c' = prune_key layer key c in
    let (k', le) = prune_keys-Keeps layer keys others c' (prune_key-Keeps layer key others c k) in
    (k', omega (arith, length-prune_key layer key others c k))

survive_twice : (layer : ℤ) (o : Option ℕ) → survive layer (survive layer o) ≡ survive layer o
survive_twice layer none = refl
survive_twice layer (some first) = ground arith

cached-prune_keys :
    (layer : ℤ) (keys : List (Text × Unit {0})) (q : Text) (c : Counted)
    → cached q (prune_keys layer keys c).shard
      ≡ (if is_some (lookup q keys) then survive layer (cached q c.shard) else cached q c.shard)
unfolding prune_keys lookup
cached-prune_keys layer [] q c = refl
cached-prune_keys layer ((key, _) ∷ keys) q c = ground (
  arith,
  cached-prune_keys layer keys q (prune_key layer key c),
  cached-prune_key layer key q c,
  survive_twice layer (cached q c.shard),
)

module _ (layer : ℤ) (others : ℕ) (c : Counted) (k : Keeps others c) where
  pub prune_shard-Keeps : Keeps others (prune_shard layer c)
  unfolding prune_shard
  prune_shard-Keeps = (prune_keys-Keeps layer c.shard.m others c k).0

  pub length-prune_shard : length (prune_shard layer c).shard.lru ≤ length c.shard.lru
  unfolding prune_shard
  length-prune_shard = (prune_keys-Keeps layer c.shard.m others c k).1

  -- Exactly the entries below the layer are left.
  pub cached-prune_shard :
      (q : Text) → cached q (prune_shard layer c).shard ≡ survive layer (cached q c.shard)
  unfolding prune_shard
  cached-prune_shard q = ground (arith, cached-prune_keys layer c.shard.m q c, k.valid.same_keys q)
