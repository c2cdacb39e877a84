-- ===== src/Content/Scanner/Gains.antt =====
-- internal/content/scanner.go: what the visited files give to the index.
use blogflow.Base.{
  ◌≡◌, ◌⊎◌, ◌∙◌, inl, inr, refl, sym, ap, subst, Bool, true, false, List, [], ◌∷◌, ◌++◌, none, some,
  arith, Bool-cases, All, All-append, All-map, list_eq, nat_eq, list_beq_iff, ◌==◌, if◌then◌else◌,
}
use blogflow.Base.Text.{Text, has_suffix, codes}
use blogflow.Base.Assoc.{lookup, insert, lookup-insert}
use blogflow.Content.Scanner.{Post, Scanner, Prepared, ignored, rejected, ready, prepare}
use blogflow.Content.Scanner.Scan.{
  ScanError, collect, Index, Visit, failed, directory, file, slugs, add,
}
use blogflow.Content.Scanner.Walked.{In, In-append_left}

-- The posts or the pages of an index.
abbrev pub listed : Bool → Index → List Post
listed true idx = idx.pages
listed false idx = idx.posts

module _ (sc : Scanner) (is_page : Bool) where
  abbrev pub post_of : Prepared → List Post
  post_of ignored = []
  post_of rejected = []
  post_of (ready p) = p ∷ []

  -- What the visited files give: those that end in .md and are read, published, dated and named without fault.
  -- A file that does not exist ends the walk.
  abbrev pub visited : List Visit → List Post
  visited [] = []
  visited (failed path true ∷ vs) = []
  visited (failed path false ∷ vs) = visited vs
  visited (directory path ∷ vs) = visited vs
  visited (file path source ∷ vs) =
      (if has_suffix path (codes ".md") then post_of (prepare sc is_page path source) else [])
      ++ visited vs

-- The slug leads to the post; with best effort it may lead to one that was there before.
abbrev pub IsKept : Bool → List (Text × Post) → Post → Type 0
IsKept best_effort m p =
    (lookup p.slug m ≡ some p) ⊎ ((best_effort ≡ true) × (q : Post) × (lookup p.slug m ≡ some q))

-- What is filed stays filed.
abbrev Grows : List (Text × Post) → List (Text × Post) → Type 0
Grows m m' = (k : Text) (q : Post) → lookup k m ≡ some q → lookup k m' ≡ some q

Grows-IsKept :
    (best_effort : Bool) (m m' : List (Text × Post)) (p : Post)
    → Grows m m'
    → IsKept best_effort m p
    → IsKept best_effort m' p
Grows-IsKept best_effort m m' p g (inl e) = inl (g p.slug p e)
Grows-IsKept best_effort m m' p g (inr (b, q, e)) = inr (b, q, g p.slug q e)

insert-Grows :
    (p : Post) (m : List (Text × Post)) → lookup p.slug m ≡ none → Grows m (insert p.slug p m)
insert-Grows p m fresh k q h = elim (Bool-cases (p.slug == k)) [
  | inl same ↦
      let here : p.slug ≡ k = (list_beq_iff p.slug k).0 same in
      absurd (cc (fresh, h, ap (λ s. lookup s m) here))
  | inr other ↦ ground (arith, lookup-insert p.slug k p m, other, h)
]

insert_self : (p : Post) (m : List (Text × Post)) → lookup p.slug (insert p.slug p m) ≡ some p
insert_self p m = ground (arith, lookup-insert p.slug p.slug p m, list_beq_iff p.slug p.slug)

pub slugs-add :
    (is_page : Bool) (p : Post) (idx : Index)
    → slugs is_page (add is_page p idx) ≡ insert p.slug p (slugs is_page idx)
slugs-add true p idx = refl
slugs-add false p idx = refl

pub listed-add :
    (is_page : Bool) (p : Post) (idx : Index)
    → listed is_page (add is_page p idx) ≡ listed is_page idx ++ p ∷ []
listed-add true p idx = refl
listed-add false p idx = refl

pub slugs-collect :
    (is_page : Bool) (e : ScanError) (idx : Index)
    → slugs is_page (collect e idx) ≡ slugs is_page idx
slugs-collect true e idx = refl
slugs-collect false e idx = refl

pub listed-collect :
    (is_page : Bool) (e : ScanError) (idx : Index)
    → listed is_page (collect e idx) ≡ listed is_page idx
listed-collect true e idx = refl
listed-collect false e idx = refl

pub In-append_right : (a : Post) (xs ys : List Post) → In a ys → In a (xs ++ ys)
In-append_right a [] ys h = h
In-append_right a (x ∷ xs) ys h = inr (In-append_right a xs ys h)

pub In-append : (a : Post) (xs ys : List Post) → In a (xs ++ ys) → In a xs ⊎ In a ys
In-append a [] ys h = inr h
In-append a (x ∷ xs) ys (inl e) = inl (inl e)
In-append a (x ∷ xs) ys (inr h) = elim (In-append a xs ys h) [ inl l ↦ inl (inr l) | inr r ↦ inr r ]

pub All-In : (xs : List Post) → All (λ q. In q xs) xs
All-In [] = tt
All-In (x ∷ xs) = (inl refl, All-map (λ q h. inr h) xs (All-In xs))

-- What the index of a walk gains from these posts.
pub record Gains (is_page best_effort : Bool) (ps : List Post) (a b : Index) : Type 0 where
  pub grows :
      (k : Text) (q : Post)
      → lookup k (slugs is_page a) ≡ some q
      → lookup k (slugs is_page b) ≡ some q
  pub kept : All (IsKept best_effort (slugs is_page b)) ps
  pub only : (q : Post) → In q (listed is_page b) → In q (listed is_page a) ⊎ In q ps

module _ (is_page best_effort : Bool) where
  pub Gains-nothing :
      (a b : Index)
      → slugs is_page b ≡ slugs is_page a
      → listed is_page b ≡ listed is_page a
      → Gains is_page best_effort [] a b
  Gains-nothing a b same_slugs same_list = record {
    grows = λ k q h. ap (lookup k) same_slugs ∙ h;
    kept = tt;
    only = λ q h. inl (subst (In q) same_list h);
  }

  pub Gains-then :
      (ps qs : List Post) (a b c : Index)
      → Gains is_page best_effort ps a b
      → Gains is_page best_effort qs b c
      → Gains is_page best_effort (ps ++ qs) a c
  Gains-then ps qs a b c g h = record {
    grows = λ k q e. h.grows k q (g.grows k q e);
    kept =
        All-append (IsKept best_effort (slugs is_page c)) ps qs
          (All-map (λ p. Grows-IsKept best_effort (slugs is_page b) (slugs is_page c) p h.grows) ps
            g.kept)
          h.kept;
    only = λ q e. elim (h.only q e) [
      | inr later ↦ inr (In-append_right q ps qs later)
      | inl before ↦ elim (g.only q before) [
        | inl old ↦ inl old
        | inr new ↦ inr (In-append_left q ps qs new)
      ]
    ];
  }

  pub Gains-add :
      (p : Post) (a : Index)
      → lookup p.slug (slugs is_page a) ≡ none
      → Gains is_page best_effort (p ∷ []) a (add is_page p a)
  Gains-add p a fresh = record {
    grows =
        subst (Grows (slugs is_page a)) (sym (slugs-add is_page p a))
          (insert-Grows p (slugs is_page a) fresh);
    kept = (inl (ap (lookup p.slug) (slugs-add is_page p a) ∙ insert_self p (slugs is_page a)), tt);
    only = λ q h. In-append q (listed is_page a) (p ∷ []) (subst (In q) (listed-add is_page p a) h);
  }

  pub Gains-collect : (e : ScanError) (a : Index) → Gains is_page best_effort [] a (collect e a)
  Gains-collect e a =
      Gains-nothing a (collect e a) (slugs-collect is_page e a) (listed-collect is_page e a)
