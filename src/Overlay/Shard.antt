-- ===== src/Overlay/Shard.antt =====
-- One shard of the negative cache (negCacheShard): a map from paths to elements of a list that is
-- ordered from the most to the least recently used. An element is named by the path that it holds,
-- so the map keeps the paths alone. A nil map and a nil list read as empty ones.
pub mod Laws
pub mod Store
pub mod Prune
use blogflow.Base.{
  ℕ, ◌≤◌, Bool, true, false, List, [], ◌∷◌, leb, if◌then◌else◌, nat_eq, list_eq, Option, none, some,
  length,
}
use blogflow.Base.Text.{Text}
use blogflow.Base.Assoc.{lookup, insert, erase}
use blogflow.Base.Int.{ℤ, pos, ◌+ℤ◌, ◌-ℤ◌, leb_ℤ}

-- `value` of the source's list entries is the first layer that may hold the path.
pub record Shard : Type 0 where
  pub m : List (Text × Unit {0})
  pub lru : List (Text × ℕ)

-- A shard with the counter `negCacheSize`, which the operations on it change.
pub record Counted : Type 0 where
  pub shard : Shard
  pub size : ℤ

abbrev pub empty_shard : Shard
empty_shard = record { m = []; lru = [] }

-- `lru.MoveToFront(elem)`, with the element's value written.
unfoldable pub move_to_front : Text → ℕ → Shard → Shard
move_to_front name value s = record s { lru = (name, value) ∷ erase name s.lru }

-- The body of `negCacheLookup`.
unfoldable pub shard_lookup : Text → Shard → Option ℕ × Shard
unfolding move_to_front
shard_lookup name s = elim (lookup name s.m) [
  | none ↦ (none, s)
  | some _ ↦ elim (lookup name s.lru) [
    | none ↦ (none, s)
    | some value ↦ (some value, move_to_front name value s)
  ]
]

-- `removeNegCacheElementLocked`
unfoldable pub remove_element : Text → Counted → Counted
remove_element key c =
    let s = c.shard in
    record { shard = record { m = erase key s.m; lru = erase key s.lru }; size = c.size -ℤ pos 1 }

-- `lru.Back()`
unfoldable pub back : List (Text × ℕ) → Option (Text × ℕ)
back [] = none
back (e ∷ []) = some e
back (e ∷ f ∷ l) = back (f ∷ l)

unfoldable pub push_front : Text → ℕ → Counted → Counted
push_front name value c =
    let s = c.shard in
    record {
      shard = record { m = insert name tt s.m; lru = (name, value) ∷ s.lru };
      size = c.size +ℤ pos 1;
    }

unfoldable pub make_room : ℕ → Counted → Counted
unfolding back
make_room capacity c =
    if leb capacity (length c.shard.lru)
    then elim (back c.shard.lru) [ none ↦ c | some oldest ↦ remove_element oldest.0 c ]
    else c

-- `negCacheStoreWithGeneration` from the place where the generation was found to be current.
unfoldable pub shard_store : ℕ → Text → ℕ → Counted → Counted
unfolding move_to_front
shard_store capacity name value c = elim (lookup name c.shard.m) [
  | some _ ↦ record c { shard = move_to_front name value c.shard }
  | none ↦ push_front name value (make_room capacity c)
]

-- One round of the loop of `InvalidateLayer` and `ReplaceLayer`.
unfoldable pub prune_key : ℤ → Text → Counted → Counted
prune_key layer_index key c = elim (lookup key c.shard.lru) [
  | none ↦ c
  | some first ↦ if leb_ℤ layer_index (pos first) then remove_element key c else c
]

-- That loop, over the keys of a shard's map.
unfoldable pub prune_keys : ℤ → List (Text × Unit {0}) → Counted → Counted
prune_keys layer_index [] c = c
prune_keys layer_index ((key, _) ∷ keys) c =
    prune_keys layer_index keys (prune_key layer_index key c)

unfoldable pub prune_shard : ℤ → Counted → Counted
unfolding prune_keys
prune_shard layer_index c = prune_keys layer_index c.shard.m c
