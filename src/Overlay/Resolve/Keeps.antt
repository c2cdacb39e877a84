-- ===== src/Overlay/Resolve/Keeps.antt =====
-- A resolver keeps the cache's invariant and its soundness, whatever happened to the overlay since
-- the resolver took its snapshot.
use blogflow.Base.{
  ℕ, ◌≡◌, refl, ◌∙◌, sym, ap, true, ltb, nat_eq, ◌==◌, subst, Option, length, arith, List, drop,
  Bool-cases, inl, inr, ◌&&◌,
}
use blogflow.Base.Text.{Text}
use blogflow.Overlay.Layers.{Layer}
use blogflow.Overlay.Cache.{Overlay, neg_cache_lookup}
use blogflow.Overlay.Cache.Invariant.{IsConsistent}
use blogflow.Overlay.Cache.Steps.{neg_cache_lookup-IsConsistent, neg_cache_store-IsConsistent}
use blogflow.Overlay.Cache.Sound.{Lacks, IsSound, neg_cache_lookup-IsSound, neg_cache_store-IsSound}
use blogflow.Overlay.Resolve.{
  Attempt, Outcome, hit, fault, scan, start_layer, is_news, record_hit, Snapshot, resolve_from,
}
use blogflow.Overlay.Resolve.Transparent.{Faithful, scan-drop, scan-Lacks, start-Lacks}

module _ {ℓ} {A : Type ℓ} (name : Text) (entry : Option ℕ) (gen : ℕ) where
  record_hit-IsConsistent :
      (end : Outcome A) (o : Overlay)
      → IsConsistent o
      → IsConsistent (record_hit name entry gen end o)
  unfolding record_hit
  record_hit-IsConsistent (fault e) o c = c
  record_hit-IsConsistent (hit i a) o c = elim (Bool-cases (ltb 0 i && is_news entry i)) [
    | inl new ↦ rw (new, record_hit) (neg_cache_store-IsConsistent name i gen o c)
    | inr old ↦ rw (old, record_hit) c
  ]

  record_hit-IsSound :
      (end : Outcome A) (o : Overlay)
      → IsConsistent o
      → IsSound o
      → ((i : ℕ) (a : A) → end ≡ hit i a → (o.gen == gen) ≡ true → Lacks name i o.layers)
      → IsSound (record_hit name entry gen end o)
  unfolding record_hit
  record_hit-IsSound (fault e) o c h truth = h
  record_hit-IsSound (hit i a) o c h truth = elim (Bool-cases (ltb 0 i && is_news entry i)) [
    | inl new ↦ rw (new, record_hit) (neg_cache_store-IsSound name i gen o c (truth i a refl) h)
    | inr old ↦ rw (old, record_hit) h
  ]

-- Where the scan that the cache shortened found the path, no layer above has it.
hit-Lacks {ℓ} :
    {A : Type ℓ} (attempt : ℕ → Layer → Attempt A) (name : Text) (start i : ℕ) (a : A)
    (ls : List Layer)
    → Faithful attempt name 0 ls
    → Lacks name start ls
    → scan attempt start (drop start ls) ≡ hit i a
    → Lacks name i ls
hit-Lacks attempt name start i a ls f skipped e =
    let whole : scan attempt 0 ls ≡ hit i a =
      sym (scan-drop attempt name start 0 ls f skipped)
      ∙ ap (λ k. scan attempt k (drop start ls)) (omega arith)
      ∙ e in
    let (n, at, lacks) = scan-Lacks attempt name 0 i a ls f whole in
    subst (λ k. Lacks name k ls) (omega arith) lacks

module _ {ℓ} {A : Type ℓ} (attempt : ℕ → Layer → Attempt A) (name : Text) (snap : Snapshot)
    (o : Overlay) where
  pub resolve_from-IsConsistent : IsConsistent o → IsConsistent (resolve_from attempt name snap o).1
  unfolding resolve_from
  resolve_from-IsConsistent c =
      let entry = (neg_cache_lookup name o).0 in
      let start = start_layer entry (length snap.layers) in
      record_hit-IsConsistent name entry snap.gen (scan attempt start (drop start snap.layers))
        (neg_cache_lookup name o).1 (neg_cache_lookup-IsConsistent name o c)

  -- If the generation is still the snapshot's, then the layers are.
  pub resolve_from-IsSound :
      IsConsistent o
      → IsSound o
      → Faithful attempt name 0 snap.layers
      → ((o.gen == snap.gen) ≡ true → o.layers ≡ snap.layers)
      → IsSound (resolve_from attempt name snap o).1
  unfolding resolve_from neg_cache_lookup
  resolve_from-IsSound c h f current =
      record_hit-IsSound name _ snap.gen _ (neg_cache_lookup name o).1
        (neg_cache_lookup-IsConsistent name o c) (neg_cache_lookup-IsSound name o h)
        λ i a found fresh.
          let same = current fresh in
          let start = start_layer (neg_cache_lookup name o).0 in
          subst (Lacks name i) (sym same) (
            hit-Lacks attempt name (start (length snap.layers)) i a snap.layers f
              (subst (λ ls. Lacks name (start (length ls)) ls) same
                (start-Lacks attempt name o c h))
              found)
