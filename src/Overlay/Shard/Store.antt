-- ===== src/Overlay/Shard/Store.antt =====
-- What `negCacheStoreWithGeneration` does to a shard: the stored path is remembered, one entry at
-- most is evicted for it, and the shard stays within its capacity.
use blogflow.Base.{
  ℕ, ◌+◌, ◌≤◌, ◌<◌, ◌≡◌, refl, ◌∙◌, ◌⊎◌, inl, inr, false, if◌then◌else◌, nat_eq, list_eq, ◌==◌,
  some, none, length, arith, Option-cases, eq_refl,
}
use blogflow.Base.Text.{Text}
use blogflow.Base.Assoc.{lookup, length-erase_present}
use blogflow.Overlay.Shard.{Counted, move_to_front, push_front, make_room, shard_store}
use blogflow.Overlay.Shard.Laws.{
  Keeps, cached, move_to_front-IsValid, cached-move_to_front, remove_element-Keeps,
  cached-remove_element, length-remove_element, push_front-Keeps, make_room_cases,
}

cached-push_front :
    (name k : Text) (v : ℕ) (c : Counted)
    → cached k (push_front name v c).shard ≡ (if name == k then some v else cached k c.shard)
unfolding push_front lookup
cached-push_front name k v c = refl

length-push_front :
    (name : Text) (v : ℕ) (c : Counted)
    → length (push_front name v c).shard.lru ≡ length c.shard.lru + 1
unfolding push_front
length-push_front name v c = omega arith

module _ (capacity others : ℕ) (c : Counted) (k : Keeps others c) where
  make_room-Keeps : Keeps others (make_room capacity c)
  make_room-Keeps =
      make_room_cases capacity others c k (Keeps others) (λ _. k) (λ _. k)
        λ e here. remove_element-Keeps e.0 e.1 others c here k

  length-make_room :
      0 < capacity
      → length c.shard.lru ≤ capacity
      → length (make_room capacity c).shard.lru < capacity
  length-make_room positive fits =
      make_room_cases capacity others c k (λ d. length d.shard.lru < capacity) (λ small. small)
        (λ nil. rw nil positive)
        λ e here. omega (arith, length-remove_element e.0 e.1 c here k.valid)

  -- Making room adds no entry and changes none.
  cached-make_room :
      (q : Text)
      → (cached q (make_room capacity c).shard ≡ none)
        ⊎ (cached q (make_room capacity c).shard ≡ cached q c.shard)
  cached-make_room q =
      make_room_cases capacity others c k
        (λ d. (cached q d.shard ≡ none) ⊎ (cached q d.shard ≡ cached q c.shard)) (λ _. inr refl)
        (λ _. inr refl) λ e here. ground (arith, cached-remove_element e.0 q c)

  module _ (name : Text) (v : ℕ) where
    -- The two ways a store can go.
    shard_store_cases {ℓ} :
        (P : Counted → Type ℓ)
        → ((w : ℕ)
            → cached name c.shard ≡ some w
            → P (record c { shard = move_to_front name v c.shard }))
        → (cached name c.shard ≡ none → P (push_front name v (make_room capacity c)))
        → P (shard_store capacity name v c)
    unfolding shard_store
    shard_store_cases P old new = elim (Option-cases (lookup name c.shard.m)) [
      | inr (_, hit) ↦ elim (Option-cases (lookup name c.shard.lru)) [
        | inl gone ↦ absurd (ground (arith, k.valid.same_keys name))
        | inr (w, found) ↦ rw (hit, shard_store) (old w found)
      ]
      | inl miss ↦ rw (miss, shard_store) (new (ground (arith, k.valid.same_keys name)))
    ]

    pub shard_store-Keeps : Keeps others (shard_store capacity name v c)
    shard_store-Keeps =
        shard_store_cases (Keeps others)
          (λ w here. record {
            valid = move_to_front-IsValid name v w c.shard here k.valid;
            total = unfold move_to_front in k.total;
          })
          λ fresh.
            push_front-Keeps name v others (make_room capacity c) (still_fresh fresh)
              make_room-Keeps
      where
        still_fresh : cached name c.shard ≡ none → cached name (make_room capacity c).shard ≡ none
        still_fresh fresh = elim (cached-make_room name) [ inl e ↦ e | inr e ↦ e ∙ fresh ]

    -- The stored path is remembered with its value.
    pub cached-shard_store_self : cached name (shard_store capacity name v c).shard ≡ some v
    cached-shard_store_self =
        shard_store_cases (λ d. cached name d.shard ≡ some v)
          (λ w here. cached-move_to_front name name v c.shard ∙ rw (eq_refl name))
          λ fresh. cached-push_front name name v (make_room capacity c) ∙ rw (eq_refl name)

    -- Of any other path, the shard remembers what it did, or nothing.
    pub cached-shard_store_other :
        (q : Text)
        → (name == q) ≡ false
        → (cached q (shard_store capacity name v c).shard ≡ none)
          ⊎ (cached q (shard_store capacity name v c).shard ≡ cached q c.shard)
    cached-shard_store_other q differ =
        shard_store_cases (λ d. (cached q d.shard ≡ none) ⊎ (cached q d.shard ≡ cached q c.shard))
          (λ w here. inr (cached-move_to_front name q v c.shard ∙ rw differ))
          λ fresh.
            ground (arith, cached-push_front name q v (make_room capacity c), cached-make_room q)

    pub length-shard_store :
        0 < capacity
        → length c.shard.lru ≤ capacity
        → length (shard_store capacity name v c).shard.lru ≤ capacity
    length-shard_store positive fits =
        shard_store_cases (λ d. length d.shard.lru ≤ capacity)
          (λ w here.
            unfold move_to_front in
            omega (arith, length-erase_present name w c.shard.lru k.valid.list_distinct here))
          λ fresh.
            omega (
              arith,
              length-push_front name v (make_room capacity c),
              length-make_room positive fits,
            )
