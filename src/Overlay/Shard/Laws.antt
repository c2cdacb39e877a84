-- ===== src/Overlay/Shard/Laws.antt =====
-- The shard's invariant, and what each operation does to the entries.
use blogflow.Base.{
  ap, ℕ, ◌+◌, ◌<◌, ◌≡◌, refl, ◌∙◌, inl, inr, List, [], ◌∷◌, leb, if◌then◌else◌, nat_eq, list_eq,
  list_beq_iff, ◌==◌, Option, none, some, length, arith, Bool-cases, Option-cases, eq_refl,
}
use blogflow.Base.Text.{Text, is_some}
use blogflow.Base.Assoc.{
  lookup, insert, erase, Distinct, lookup-insert, lookup-erase, erase-Distinct, insert-Distinct,
  length-erase_present, length-insert_new,
}
use blogflow.Base.Int.{pos, ◌+ℤ◌, ◌-ℤ◌}
use blogflow.Overlay.Shard.{
  Shard, Counted, move_to_front, shard_lookup, remove_element, back, push_front, make_room,
}

-- The map and the list hold the same paths, each once.
pub record IsValid (s : Shard) : Type 0 where
  pub map_distinct : Distinct s.m
  pub list_distinct : Distinct s.lru
  pub same_length : length s.m ≡ length s.lru
  pub same_keys : (k : Text) → is_some (lookup k s.m) ≡ is_some (lookup k s.lru)

-- What the shard remembers of a path.
abbrev pub cached : Text → Shard → Option ℕ
cached name s = lookup name s.lru

pub move_to_front-IsValid :
    (name : Text) (v w : ℕ) (s : Shard)
    → cached name s ≡ some w
    → IsValid s
    → IsValid (move_to_front name v s)
unfolding move_to_front lookup
move_to_front-IsValid name v w s here h = record {
  map_distinct = h.map_distinct;
  list_distinct = (rw (lookup-erase, eq_refl name), erase-Distinct name s.lru h.list_distinct);
  same_length =
      omega (arith, h.same_length, length-erase_present name w s.lru h.list_distinct here);
  same_keys = λ k. ground (arith, h.same_keys k, lookup-erase name k s.lru, list_beq_iff name k);
}

pub cached-move_to_front :
    (name k : Text) (v : ℕ) (s : Shard)
    → cached k (move_to_front name v s) ≡ (if name == k then some v else cached k s)
unfolding move_to_front lookup
cached-move_to_front name k v s = ground (arith, lookup-erase name k s.lru)

-- The three ways a lookup can go, for a property of the shard that it leaves.
shard_lookup_cases {ℓ} :
    (P : Shard → Type ℓ) (name : Text) (s : Shard)
    → P s
    → ((v : ℕ) → cached name s ≡ some v → P (move_to_front name v s))
    → P (shard_lookup name s).1
unfolding shard_lookup
shard_lookup_cases P name s same moved = elim (Option-cases (lookup name s.m)) [
  | inl miss ↦ rw (miss, shard_lookup) same
  | inr (_, hit) ↦ elim (Option-cases (lookup name s.lru)) [
    | inl gone ↦ rw (hit, gone, shard_lookup) same
    | inr (v, found) ↦ rw (hit, found, shard_lookup) (moved v found)
  ]
]

pub shard_lookup-IsValid : (name : Text) (s : Shard) → IsValid s → IsValid (shard_lookup name s).1
shard_lookup-IsValid name s h =
    shard_lookup_cases IsValid name s h (λ v here. move_to_front-IsValid name v v s here h)

-- A lookup answers what the list holds.
pub shard_lookup-cached :
    (name : Text) (s : Shard) → IsValid s → (shard_lookup name s).0 ≡ cached name s
unfolding shard_lookup
shard_lookup-cached name s h = ground (arith, h.same_keys name)

pub cached-shard_lookup :
    (name k : Text) (s : Shard) → cached k (shard_lookup name s).1 ≡ cached k s
cached-shard_lookup name k s =
    shard_lookup_cases (λ t. cached k t ≡ cached k s) name s refl
      λ v here. cached-move_to_front name k v s ∙ ground (arith, list_beq_iff name k)

pub length-shard_lookup :
    (name : Text) (s : Shard) → IsValid s → length (shard_lookup name s).1.lru ≡ length s.lru
length-shard_lookup name s h =
    shard_lookup_cases (λ t. length t.lru ≡ length s.lru) name s refl
      λ v here.
        unfold move_to_front in
        omega (arith, length-erase_present name v s.lru h.list_distinct here)

pub shard_lookup-m : (name : Text) (s : Shard) → (shard_lookup name s).1.m ≡ s.m
unfolding move_to_front
shard_lookup-m name s = shard_lookup_cases (λ t. t.m ≡ s.m) name s refl (λ v here. refl)

-- A path of the list is a key of the map.
in_map :
    (key : Text) (v : ℕ) (s : Shard) → IsValid s → cached key s ≡ some v → lookup key s.m ≡ some tt
in_map key v s h here = ground (arith, h.same_keys key)

-- Removing an element that is there.
module _ (key : Text) (v : ℕ) (c : Counted) (here : cached key c.shard ≡ some v)
    (h : IsValid c.shard) where
  length-remove_element_m : length (remove_element key c).shard.m + 1 ≡ length c.shard.m
  unfolding remove_element
  length-remove_element_m =
      length-erase_present key tt c.shard.m h.map_distinct (in_map key v c.shard h here)

  pub length-remove_element : length (remove_element key c).shard.lru + 1 ≡ length c.shard.lru
  unfolding remove_element
  length-remove_element = length-erase_present key v c.shard.lru h.list_distinct here

  pub remove_element-IsValid : IsValid (remove_element key c).shard
  unfolding remove_element
  remove_element-IsValid = record {
    map_distinct = erase-Distinct key _ h.map_distinct;
    list_distinct = erase-Distinct key _ h.list_distinct;
    same_length = omega (arith, length-remove_element_m, length-remove_element, h.same_length);
    same_keys = λ k. ground (
      arith,
      h.same_keys k,
      lookup-erase key k c.shard.lru,
      lookup-erase key k c.shard.m,
      list_beq_iff key k,
    );
  }

pub cached-remove_element :
    (key k : Text) (c : Counted)
    → cached k (remove_element key c).shard ≡ (if key == k then none else cached k c.shard)
unfolding remove_element
cached-remove_element key k c = lookup-erase key k c.shard.lru

-- What an operation on a shard keeps: validity, and the entries of the other shards in the count.
pub record Keeps (others : ℕ) (c : Counted) : Type 0 where
  pub valid : IsValid c.shard
  pub total : c.size ≡ pos (length c.shard.m + others)

count_down : (a b o : ℕ) → b + 1 ≡ a → pos (a + o) -ℤ pos 1 ≡ pos (b + o)
unfolding ◌-ℤ◌
count_down a b o h = ground arith

count_up : (a b o : ℕ) → b ≡ a + 1 → pos (a + o) +ℤ pos 1 ≡ pos (b + o)
unfolding ◌+ℤ◌
count_up a b o h = ground arith

pub remove_element-Keeps :
    (key : Text) (v others : ℕ) (c : Counted)
    → cached key c.shard ≡ some v
    → Keeps others c
    → Keeps others (remove_element key c)
unfolding remove_element
remove_element-Keeps key v others c here k = record {
  valid = remove_element-IsValid key v c here k.valid;
  total = ap (λ z. z -ℤ pos 1) k.total ∙ count_down _ _ others erased;
}
  where
    erased : length (erase key c.shard.m) + 1 ≡ length c.shard.m
    erased = length-remove_element_m key v c here k.valid

pub push_front-Keeps :
    (name : Text) (v others : ℕ) (c : Counted)
    → cached name c.shard ≡ none
    → Keeps others c
    → Keeps others (push_front name v c)
unfolding push_front lookup
push_front-Keeps name v others c fresh k = record {
  valid = record {
    map_distinct = insert-Distinct name tt _ k.valid.map_distinct;
    list_distinct = (fresh, k.valid.list_distinct);
    same_length = omega (arith, added, k.valid.same_length);
    same_keys = λ q. ground (arith, k.valid.same_keys q, lookup-insert name q tt c.shard.m);
  };
  total = ap (λ z. z +ℤ pos 1) k.total ∙ count_up _ _ others added;
}
  where
    absent : lookup name c.shard.m ≡ none
    absent = ground (arith, k.valid.same_keys name)

    added : length (insert name tt c.shard.m) ≡ length c.shard.m + 1
    added = length-insert_new name tt c.shard.m absent

-- The element at the back is in the list.
pub back-cached :
    (l : List (Text × ℕ)) (e : Text × ℕ) → Distinct l → back l ≡ some e → lookup e.0 l ≡ some e.1
unfolding back lookup
back-cached [] e d h = ground arith
back-cached (f ∷ []) e d h = ground (arith, eq_refl e.0)
back-cached (f ∷ g ∷ l) e (fresh, d) h =
    ground (arith, back-cached (g ∷ l) e d h, list_beq_iff f.0 e.0)

module _ (capacity others : ℕ) (c : Counted) (k : Keeps others c) where
  -- Either there was room, or the entry at the back was removed.
  pub make_room_cases {ℓ} :
      (P : Counted → Type ℓ)
      → (length c.shard.lru < capacity → P c)
      → (c.shard.lru ≡ [] → P c)
      → ((e : Text × ℕ) → cached e.0 c.shard ≡ some e.1 → P (remove_element e.0 c))
      → P (make_room capacity c)
  unfolding make_room
  make_room_cases P room nil evict = elim (Bool-cases (leb capacity (length c.shard.lru))) [
    | inr small ↦ rw (small, make_room) (room (ground arith))
    | inl full ↦ elim (Option-cases (back c.shard.lru)) [
      | inl gone ↦ rw (full, gone, make_room) (nil (back-none c.shard.lru gone))
      | inr (e, last) ↦
          rw (full, last, make_room)
            (evict e (back-cached c.shard.lru e k.valid.list_distinct last))
    ]
  ]
    where
      back-none : (l : List (Text × ℕ)) → back l ≡ none → l ≡ []
      back-none [] h = refl
      back-none (e ∷ []) h = cc
      back-none (e ∷ f ∷ l) h = absurd (cc (back-none (f ∷ l) h))
