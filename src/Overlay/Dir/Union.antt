-- ===== src/Overlay/Dir/Union.antt =====
-- `ReadDir` lists the union of the layers: of each name the entry of the first layer that lists it,
-- never .git, in strictly rising order.
use blogflow.Base.{
  subst, ◌⊎◌, ℕ, suc, ◌≡◌, refl, ◌∙◌, sym, ap, true, false, List, [], ◌∷◌, if◌then◌else◌, nat_eq,
  list_eq, ◌==◌, Option, none, some, arith, list_beq_iff, Bool-cases, inl, inr, All,
}
use blogflow.Base.Text.{Text, text_lt, text_lt_total}
use blogflow.Base.Assoc.{lookup, insert, lookup-insert, Distinct, insert-Distinct}
use blogflow.Overlay.Paths.{is_git}
use blogflow.Overlay.Layers.{FsError, Result-cases, Result, ok, err, DirEntry, Layer, LayerMeta}
use blogflow.Overlay.Cache.{Overlay}
use blogflow.Overlay.Dir.{
  add_entries, Merge, merge_layer, merge_layers, insert_sorted, sort_entries, read_dir,
}

-- The entry of a list for a name; of several, the last.
abbrev pub last_named : Text → List DirEntry → Option DirEntry
last_named q [] = none
last_named q (e ∷ es) = elim (last_named q es) [
  | some f ↦ some f
  | none ↦ if e.name == q then some e else none
]

-- The entry of the first layer that lists the name in the directory.
abbrev pub top_entry : Text → Text → List Layer → Option DirEntry
top_entry name q [] = none
top_entry name q (l ∷ ls) = elim (l.read_dir name) [
  | err _ ↦ top_entry name q ls
  | ok es ↦ elim (last_named q es) [ some e ↦ some e | none ↦ top_entry name q ls ]
]

-- What a listing says of a name.
abbrev pub find_entry : Text → List DirEntry → Option DirEntry
find_entry q [] = none
find_entry q (e ∷ es) = if e.name == q then some e else find_entry q es

abbrev hidden : Text → Option DirEntry → Option DirEntry
hidden q o = if is_git q then none else o

abbrev over : Option DirEntry → Option DirEntry → Option DirEntry
over (some e) below = some e
over none below = below

-- One entry, put on top of what is merged.
abbrev added : DirEntry → List (Text × DirEntry) → List (Text × DirEntry)
added e m = if is_git e.name then m else insert e.name e m

lookup-added_git :
    (q : Text) (e : DirEntry) (m : List (Text × DirEntry))
    → is_git q ≡ true
    → lookup q m ≡ none
    → lookup q (added e m) ≡ none
lookup-added_git q e m git h = ground (arith, lookup-insert e.name q e m, list_beq_iff e.name q)

lookup-added :
    (q : Text) (e : DirEntry) (m : List (Text × DirEntry))
    → is_git q ≡ false
    → lookup q (added e m) ≡ (if e.name == q then some e else lookup q m)
lookup-added q e m plain = ground (arith, lookup-insert e.name q e m, list_beq_iff e.name q)

lookup-add_entries_git :
    (q : Text) (es : List DirEntry) (m : List (Text × DirEntry))
    → is_git q ≡ true
    → lookup q m ≡ none
    → lookup q (add_entries es m) ≡ none
unfolding add_entries
lookup-add_entries_git q [] m git h = h
lookup-add_entries_git q (e ∷ es) m git h =
    lookup-add_entries_git q es (added e m) git (lookup-added_git q e m git h)

lookup-add_entries :
    (q : Text) (es : List DirEntry) (m : List (Text × DirEntry))
    → is_git q ≡ false
    → lookup q (add_entries es m) ≡ over (last_named q es) (lookup q m)
unfolding add_entries
lookup-add_entries q [] m plain = refl
lookup-add_entries q (e ∷ es) m plain =
    lookup-add_entries q es (added e m) plain ∙ ground (arith, lookup-added q e m plain)

add_entries-Distinct :
    (es : List DirEntry) (m : List (Text × DirEntry)) → Distinct m → Distinct (add_entries es m)
unfolding add_entries
add_entries-Distinct [] m d = d
add_entries-Distinct (e ∷ es) m d = elim (Bool-cases (is_git e.name)) [
  | inl git ↦ rw (git, add_entries) (add_entries-Distinct es m d)
  | inr plain ↦
      rw (plain, add_entries)
        (add_entries-Distinct es (insert e.name e m) (insert-Distinct e.name e m d))
]

-- Every entry stands under its own name.
abbrev Named : Text × DirEntry → Type 0
Named p = p.0 ≡ p.1.name

insert-Named :
    (e : DirEntry) (m : List (Text × DirEntry)) → All Named m → All Named (insert e.name e m)
unfolding insert
insert-Named e [] h = (refl, tt)
insert-Named e ((k, f) ∷ m) (p, h) = ground (arith, insert-Named e m h)

add_entries-Named :
    (es : List DirEntry) (m : List (Text × DirEntry)) → All Named m → All Named (add_entries es m)
unfolding add_entries
add_entries-Named [] m h = h
add_entries-Named (e ∷ es) m h = elim (Bool-cases (is_git e.name)) [
  | inl git ↦ rw (git, add_entries) (add_entries-Named es m h)
  | inr plain ↦
      rw (plain, add_entries) (add_entries-Named es (insert e.name e m) (insert-Named e m h))
]

-- What the loop over the layers keeps.
record IsMerge (name : Text) (ls : List Layer) (m : List (Text × DirEntry)) : Type 0 where
  distinct : Distinct m
  named : All Named m
  union : (q : Text) → lookup q m ≡ hidden q (top_entry name q ls)

module _ (eval_symlinks : Text → Result Text) (metas : List LayerMeta) (name : Text) where
  -- A layer is passed over, or its entries are put on top.
  merge_layer_cases :
      (i : ℕ) (l : Layer) (m m' : Merge)
      → merge_layer eval_symlinks metas name i l m ≡ ok m'
      → ((e : FsError) × (l.read_dir name ≡ err e) × (m' ≡ m))
        ⊎ ((es : List DirEntry) × (l.read_dir name ≡ ok es)
            × (m' ≡ record { found = true; merged = add_entries es m.merged }))
  unfolding merge_layer
  merge_layer_cases i l m m' h = elim (Result-cases (l.read_dir name)) [
    | inl (es, e) ↦ inr (es, e, ground arith)
    | inr (x, e) ↦ inl (x, e, ground arith)
  ]

  merge_layer-IsMerge :
      (i : ℕ) (l : Layer) (ls : List Layer) (m m' : Merge)
      → IsMerge name ls m.merged
      → merge_layer eval_symlinks metas name i l m ≡ ok m'
      → IsMerge name (l ∷ ls) m'.merged
  merge_layer-IsMerge i l ls m m' h e = elim (merge_layer_cases i l m m' e) [
    | inl (x, absent, same) ↦
        rw same
          (record { distinct = h.distinct; named = h.named; union = λ q. h.union q ∙ ground arith })
    | inr (es, listed, same) ↦ rw same (record {
      distinct = add_entries-Distinct es m.merged h.distinct;
      named = add_entries-Named es m.merged h.named;
      union = λ q. elim (Bool-cases (is_git q)) [
        | inl git ↦ lookup-add_entries_git q es m.merged git (h.union q ∙ rw git) ∙ rw git
        | inr plain ↦ lookup-add_entries q es m.merged plain ∙ ground (arith, h.union q)
      ];
    })
  ]

  merge_layers-IsMerge :
      (i : ℕ) (ls : List Layer) (m : Merge)
      → merge_layers eval_symlinks metas name i ls ≡ ok m
      → IsMerge name ls m.merged
  unfolding merge_layers
  merge_layers-IsMerge i [] m e =
      let nil : m.merged ≡ [] = ground arith in
      rw nil (record { distinct = tt; named = tt; union = λ q. unfold lookup in ground arith })
  merge_layers-IsMerge i (l ∷ ls) m e =
      elim (Result-cases (merge_layers eval_symlinks metas name (suc i) ls)) [
        | inl (below, done) ↦
            merge_layer-IsMerge i l ls below m (merge_layers-IsMerge (suc i) ls below done)
              (rw (done, merge_layers) at e)
        | inr (x, failed) ↦ absurd (cc (rw (failed, merge_layers) at e))
      ]

-- The order of the listing: each entry's name is below those behind it.
abbrev pub IsRising : List DirEntry → Type 0
IsRising [] = Unit
IsRising (e ∷ []) = Unit
IsRising (e ∷ f ∷ l) = (text_lt e.name f.name ≡ true) × IsRising (f ∷ l)

insert_sorted-IsRising :
    (e : DirEntry) (l : List DirEntry)
    → find_entry e.name l ≡ none
    → IsRising l
    → IsRising (insert_sorted e l)
unfolding insert_sorted
insert_sorted-IsRising e [] fresh h = tt
insert_sorted-IsRising e (f ∷ []) fresh h =
    ground
      (arith, text_lt_total e.name f.name, list_beq_iff e.name f.name, list_beq_iff f.name e.name)
insert_sorted-IsRising e (f ∷ g ∷ l) fresh (lt, h) = ground (
  arith,
  text_lt_total e.name f.name,
  list_beq_iff e.name f.name,
  list_beq_iff f.name e.name,
  insert_sorted-IsRising e (g ∷ l),
)

find_entry-insert_sorted :
    (q : Text) (e : DirEntry) (l : List DirEntry)
    → find_entry e.name l ≡ none
    → find_entry q (insert_sorted e l) ≡ (if e.name == q then some e else find_entry q l)
unfolding insert_sorted
find_entry-insert_sorted q e [] fresh = refl
find_entry-insert_sorted q e (f ∷ l) fresh = ground (
  arith,
  find_entry-insert_sorted q e l,
  list_beq_iff f.name q,
  list_beq_iff e.name q,
  list_beq_iff f.name e.name,
)

find_entry-sort_entries :
    (q : Text) (m : List (Text × DirEntry))
    → Distinct m
    → All Named m
    → find_entry q (sort_entries m) ≡ lookup q m
unfolding sort_entries lookup
find_entry-sort_entries q [] d n = refl
find_entry-sort_entries q ((k, e) ∷ m) (fresh, d) (named, n) = ground (
  arith,
  find_entry-sort_entries q m d n,
  find_entry-sort_entries k m d n,
  find_entry-insert_sorted q e (sort_entries m),
)

sort_entries-IsRising :
    (m : List (Text × DirEntry)) → Distinct m → All Named m → IsRising (sort_entries m)
unfolding sort_entries
sort_entries-IsRising [] d n = tt
sort_entries-IsRising ((k, e) ∷ m) (fresh, d) (named, n) =
    insert_sorted-IsRising e (sort_entries m)
      (ap (λ j. find_entry j (sort_entries m)) (sym named)
        ∙ find_entry-sort_entries k m d n
        ∙ fresh)
      (sort_entries-IsRising m d n)

-- A listing that `ReadDir` returns names each name once, in strictly rising order. For a name other than .git it has the
-- entry of the first layer that lists the name, or none if no layer does; for .git, in any case of
-- its letters, it has none.
pub read_dir-union :
    (eval_symlinks : Text → Result Text) (name : Text) (o : Overlay) (r : List DirEntry)
    → read_dir eval_symlinks name o ≡ ok r
    → IsRising r
      × ((q : Text) → find_entry q r ≡ (if is_git q then none else top_entry name q o.layers))
unfolding read_dir
read_dir-union eval_symlinks name o r h =
    elim (Result-cases (merge_layers eval_symlinks o.metas name 0 o.layers)) [
      | inl (m, done) ↦
          let p = merge_layers-IsMerge eval_symlinks o.metas name 0 o.layers m done in
          let sorted : sort_entries m.merged ≡ r = ground arith in
          (
            subst IsRising sorted (sort_entries-IsRising m.merged p.distinct p.named),
            λ q.
                ap (find_entry q) (sym sorted)
                ∙ find_entry-sort_entries q m.merged p.distinct p.named
                ∙ p.union q,
          )
      | inr (x, failed) ↦ absurd (ground arith)
    ]
