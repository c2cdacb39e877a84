-- ===== src/Webhook/Limiter/Window.antt =====
-- What the limiter keeps of its clients: their timestamps are in order, and evictions drop only the
-- back of the list.
use blogflow.Base.{
  ◌-◌, ℕ, zero, suc, ◌+◌, ◌≤◌, ◌≡◌, refl, ◌∙◌, sym, ap, false, List, [], ◌∷◌, ◌++◌, leb, arith,
  length, filter, filter-All, All, All-append, list_eq, nat_eq, Bool-cases, inl, inr, append-nil,
}
use blogflow.Base.{append_assoc}
use blogflow.Base.Text.{Text, is_empty}
use blogflow.Webhook.Limiter.{is_recent, is_live, evict_expired, evict_oldest, make_space}

abbrev pub IsSorted : List ℕ → Type 0
IsSorted [] = Unit
IsSorted (t ∷ ts) = All (λ u. t ≤ u) ts × IsSorted ts

pub filter-IsSorted :
    (w now : ℕ) (ts : List ℕ) → IsSorted ts → IsSorted (filter (is_recent w now) ts)
filter-IsSorted w now [] h = tt
filter-IsSorted w now (t ∷ ts) (low, h) = elim (Bool-cases (is_recent w now t)) [
  | inl e ↦ rw e (filter-All (λ u. t ≤ u) (is_recent w now) ts low, filter-IsSorted w now ts h)
  | inr e ↦ rw e (filter-IsSorted w now ts h)
]

pub append-IsSorted :
    (now : ℕ) (ts : List ℕ) → IsSorted ts → All (λ t. t ≤ now) ts → IsSorted (ts ++ now ∷ [])
append-IsSorted now [] h b = (tt, tt)
append-IsSorted now (t ∷ ts) (low, h) (le, b) =
    (All-append (λ u. t ≤ u) ts (now ∷ []) low (le, tt), append-IsSorted now ts h b)

-- Of sorted timestamps none is recent if the last is not, nor will one be.
pub dead-none :
    (w now later : ℕ) (ts : List ℕ)
    → now ≤ later
    → IsSorted ts
    → is_live w now ts ≡ false
    → filter (is_recent w later) ts ≡ []
unfolding is_live
dead-none w now later [] le h d = refl
dead-none w now later (t ∷ []) le h d = ground arith
dead-none w now later (t ∷ u ∷ ts) le ((low, _), h) d =
    let rest = dead-none w now later (u ∷ ts) le h d in ground (arith, rest)

-- What `evictExpired` drops: a tail of dead entries.
pub evict_expired-tail :
    (w now : ℕ) (l : List (Text × List ℕ))
    → (dropped : List (Text × List ℕ)) × (evict_expired w now l ++ dropped ≡ l)
      × All (λ e. is_live w now e.1 ≡ false) dropped
unfolding evict_expired
evict_expired-tail w now [] = ([], refl, tt)
evict_expired-tail w now ((ip, ts) ∷ l) =
    let (dropped, e, dead) = evict_expired-tail w now l in
    elim (Bool-cases (is_empty (evict_expired w now l))) [
      | inr kept ↦ (dropped, rw kept (ap (◌∷◌ (ip, ts)) e), dead)
      | inl gone ↦ elim (Bool-cases (is_live w now ts)) [
        | inl live ↦ (dropped, rw (gone, live) (ap (◌∷◌ (ip, ts)) e), dead)
        | inr over ↦
            let nil : evict_expired w now l ≡ [] = ground arith in
            (
              (ip, ts) ∷ dropped,
              rw (gone, over) (ap (◌∷◌ (ip, ts)) (sym (ap (λ k. k ++ dropped) nil) ∙ e)),
              (over, dead),
            )
      ]
    ]

pub evict_oldest-tail :
    (l : List (Text × List ℕ)) → (dropped : List (Text × List ℕ)) × (evict_oldest l ++ dropped ≡ l)
unfolding evict_oldest
evict_oldest-tail [] = ([], refl)
evict_oldest-tail (e ∷ []) = (e ∷ [], refl)
evict_oldest-tail (e ∷ f ∷ l) =
    let (dropped, same) = evict_oldest-tail (f ∷ l) in (dropped, ap (◌∷◌ e) same)

length-evict_oldest : (l : List (Text × List ℕ)) → length (evict_oldest l) ≡ length l - 1
unfolding evict_oldest
length-evict_oldest [] = refl
length-evict_oldest (e ∷ []) = refl
length-evict_oldest (e ∷ f ∷ l) = omega (arith, length-evict_oldest (f ∷ l))

pub make_space-tail :
    (fuel max_size : ℕ) (l : List (Text × List ℕ))
    → (dropped : List (Text × List ℕ)) × (make_space fuel max_size l ++ dropped ≡ l)
unfolding make_space
make_space-tail zero max_size l = ([], append-nil l)
make_space-tail (suc fuel) max_size l = elim (Bool-cases (leb max_size (length l))) [
  | inr roomy ↦ ([], rw roomy (append-nil l))
  | inl full ↦
      let (first, e) = evict_oldest-tail l in
      let (more, e') = make_space-tail fuel max_size (evict_oldest l) in
      (more ++ first, rw full (sym (append_assoc _ more first) ∙ ap (λ k. k ++ first) e' ∙ e))
]

-- As many rounds as there are entries are enough.
pub make_space-ends :
    (fuel max_size : ℕ) (l : List (Text × List ℕ))
    → 1 ≤ max_size
    → length l ≤ fuel
    → length (make_space fuel max_size l) + 1 ≤ max_size
unfolding make_space
make_space-ends zero max_size l h enough = omega arith
make_space-ends (suc fuel) max_size l h enough = elim (Bool-cases (leb max_size (length l))) [
  | inr roomy ↦ rw roomy (ground arith)
  | inl full ↦
      rw full
        (make_space-ends fuel max_size (evict_oldest l) h (omega (arith, length-evict_oldest l)))
]

-- Where there is room, nothing is dropped.
pub make_space-roomy :
    (fuel max_size : ℕ) (l : List (Text × List ℕ))
    → length l + 1 ≤ max_size
    → make_space fuel max_size l ≡ l
unfolding make_space
make_space-roomy zero max_size l h = refl
make_space-roomy (suc fuel) max_size l h = ground arith
