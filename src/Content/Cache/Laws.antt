-- ===== src/Content/Cache/Laws.antt =====
-- What the cache of internal/content/cache.go promises.
use blogflow.Base.{
  eq_of_beq, leb→le, eq_refl, ℕ, suc, ◌+◌, ◌≤◌, ◌≡◌, refl, ◌∙◌, sym, ap, subst, List, [], ◌∷◌,
  length, ltb, leb, if◌then◌else◌, list_eq, nat_eq, ◌==◌, none, some, arith, All, Bool-cases,
  Option-cases, inl, inr, ◌⊎◌,
}
use blogflow.Base.Text.{Text}
use blogflow.Base.Assoc.{
  lookup, insert, erase, lookup-insert, lookup-erase, length-erase-lt, length-insert-le,
  length-insert_old,
}
use blogflow.Content.Cache.{CacheEntry, Cache, expired, get, pick_victim, entry_of, evict, store}

-- The visit of a map meets entries of the map, and meets one unless the map is empty.
pub record IsVisit (visit : List (Text × CacheEntry) → List (Text × CacheEntry))
    (m : List (Text × CacheEntry)) : Type 0 where
  pub met : All (λ e. lookup e.0 m ≡ some e.1) (visit m)
  pub complete : length (visit m) ≡ length m

-- The victim is an entry that was visited.
pick_victim-met :
    (now : ℕ) (v k : Text) (e : CacheEntry) (l m : List (Text × CacheEntry))
    → All (λ x. lookup x.0 m ≡ some x.1) ((k, e) ∷ l)
    → (w : CacheEntry) × (lookup (pick_victim now v ((k, e) ∷ l)) m ≡ some w)
unfolding pick_victim
pick_victim-met now v k e [] m (here, h) = (e, ground arith)
pick_victim-met now v k e ((k', e') ∷ l) m (here, h) = elim (Bool-cases (expired now e)) [
  | inl old ↦ (e, rw old here)
  | inr live ↦ let (w, found) = pick_victim-met now k k' e' l m h in (w, rw live found)
]

length-erase_victim :
    (now : ℕ) (l m : List (Text × CacheEntry))
    → All (λ x. lookup x.0 m ≡ some x.1) l
    → length l ≡ length m
    → 1 ≤ length m
    → suc (length (erase (pick_victim now [] l) m)) ≤ length m
length-erase_victim now [] m h same some_left = absurd (omega arith)
length-erase_victim now ((k, e) ∷ l) m h same some_left =
    let (w, found) = pick_victim-met now [] k e l m h in
    length-erase-lt (pick_victim now [] ((k, e) ∷ l)) w m found

get-same :
    (q : Text) (now : ℕ) (c c' : Cache)
    → lookup q c.entries ≡ lookup q c'.entries
    → get q now c ≡ get q now c'
unfolding get
get-same q now c c' e =
    ap (λ o. elim o [ none ↦ none | some e ↦ if expired now e then none else some e.html ]) e

module _ (sha256 : Text → Text) (visit : List (Text × CacheEntry) → List (Text × CacheEntry)) where
  length-evict :
      (now : ℕ) (c : Cache)
      → IsVisit visit c.entries
      → 1 ≤ c.max_entries
      → length c.entries ≤ c.max_entries
      → length (evict sha256 visit now c) + 1 ≤ c.max_entries
  unfolding evict
  length-evict now c h positive fits = elim (Bool-cases (leb c.max_entries (length c.entries))) [
    | inr roomy ↦ rw (roomy, evict) (ground (arith, roomy))
    | inl full ↦
        let at_least : c.max_entries ≤ length c.entries = leb→le _ _ full in
        let fewer =
          length-erase_victim now (visit c.entries) c.entries h.met h.complete
            (omega (arith, at_least, positive)) in
        rw (full, evict) (omega (arith, fewer, fits))
  ]

  -- What the new entry is put into.
  abbrev base : Text → ℕ → Cache → List (Text × CacheEntry)
  base key now c = elim (lookup key c.entries) [
    | some _ ↦ c.entries
    | none ↦ evict sha256 visit now c
  ]

  store-base :
      (key html : Text) (now : ℕ) (c : Cache)
      → (store sha256 visit key html now c).entries
        ≡ insert key (entry_of sha256 visit html now c.ttl) (base key now c)
  unfolding store
  store-base key html now c = elim (Option-cases (lookup key c.entries)) [
    | inl e ↦ rw (e, store, base) refl
    | inr (w, e) ↦ rw (e, store, base) refl
  ]

  lookup-base :
      (key q : Text) (now : ℕ) (c : Cache)
      → (lookup q (base key now c) ≡ lookup q c.entries) ⊎ (lookup q (base key now c) ≡ none)
  unfolding evict
  lookup-base key q now c = elim (Option-cases (lookup key c.entries)) [
    | inr (w, e) ↦ inl (rw (e, base) refl)
    | inl e ↦
        rw (e, base)
          (elim (Bool-cases (leb c.max_entries (length c.entries))) [
            | inr roomy ↦ inl (rw (roomy, evict) refl)
            | inl full ↦
                rw (full, evict)
                  (ground (arith, lookup-erase (pick_victim now [] (visit c.entries)) q c.entries))
          ])
  ]

  -- A cache keeps within its bound, which is at least one: storing a page, whichever entry the map's
  -- iteration makes the victim, leaves no more entries than the maximum.
  pub length-store :
      (key html : Text) (now : ℕ) (c : Cache)
      → IsVisit visit c.entries
      → 1 ≤ c.max_entries
      → length c.entries ≤ c.max_entries
      → length (store sha256 visit key html now c).entries ≤ c.max_entries
  length-store key html now c h positive fits =
      subst (λ m. length m ≤ c.max_entries) (sym (store-base key html now c))
        (elim (Option-cases (lookup key c.entries)) [
          | inr (w, old) ↦
              rw (old, base)
                (omega (
                  arith,
                  length-insert_old key (entry_of sha256 visit html now c.ttl) w c.entries old,
                  fits,
                ))
          | inl new ↦
              rw (new, base)
                (omega (
                  arith,
                  length-insert-le key (entry_of sha256 visit html now c.ttl)
                      (evict sha256 visit now c),
                  length-evict now c h positive fits,
                ))
        ])

  -- A page that was stored is served until its time to live is over, and not after; a page under
  -- another key is served as before or, if it was evicted, not at all.
  pub get-store :
      (key q html : Text) (now later : ℕ) (c : Cache)
      → (get key later (store sha256 visit key html now c)
          ≡ (if ltb (now + c.ttl) later then none else some html))
        × ((key ≡ q)
            ⊎ ((get q later (store sha256 visit key html now c) ≡ get q later c)
                ⊎ (get q later (store sha256 visit key html now c) ≡ none)))
  unfolding get
  get-store key q html now later c =
      let ent = entry_of sha256 visit html now c.ttl in
      let found : lookup key (store sha256 visit key html now c).entries ≡ some ent =
        ap (lookup key) (store-base key html now c)
        ∙ lookup-insert key key ent (base key now c)
        ∙ rw (eq_refl key) refl in
      (
        rw (found, get) refl,
        elim (Bool-cases (key == q)) [
          | inl same ↦ inl (eq_of_beq key q same)
          | inr differ ↦ inr (
              let at_q : lookup q (store sha256 visit key html now c).entries
                  ≡ lookup q (base key now c) =
                ap (lookup q) (store-base key html now c)
                ∙ lookup-insert key q ent (base key now c)
                ∙ rw differ refl in
              elim (lookup-base key q now c) [
                | inl kept ↦
                    inl (get-same q later (store sha256 visit key html now c) c (at_q ∙ kept))
                | inr gone ↦ inr (rw (at_q ∙ gone, get) refl)
              ])
        ],
      )
