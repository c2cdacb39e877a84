-- ===== src/Search/Index/Postings.antt =====
-- What admission keeps of the postings (internal/search/index.go): they are counted, and those of a
-- term are in the order of their documents.
use blogflow.Base.{
  ℕ, suc, ◌+◌, ◌≤◌, ◌≡◌, refl, ◌∙◌, sym, ap, subst, List, [], ◌∷◌, ◌++◌, map, length, length-append,
  arith, All, All-append, Option-cases, inl, inr, list_eq, nat_eq,
}
use blogflow.Base.Text.{Text}
use blogflow.Base.Assoc.{lookup, insert, All-lookup, All-insert}
use blogflow.Search.Query.{sort_texts, insert_text}
use blogflow.Search.Index.{
  count_of, Posting, Field, Post, SearchDoc, SearchIndex, DocBuild, postings_of, append_postings,
  add_postings, posting_count, admit,
}

abbrev pub total_postings : List (Text × List Posting) → ℕ
total_postings [] = 0
total_postings ((t, ps) ∷ m) = length ps + total_postings m

total_postings-insert :
    (t : Text) (ps : List Posting) (m : List (Text × List Posting))
    → total_postings (insert t ps m) + length (postings_of t m) ≡ total_postings m + length ps
unfolding insert lookup
total_postings-insert t ps [] = omega arith
total_postings-insert t ps ((u, qs) ∷ m) = ground (arith, total_postings-insert t ps m)

-- In the order of the documents, none after the given one.
abbrev pub Ascending : List Posting → Type 0
Ascending [] = Unit
Ascending (p ∷ ps) = All (λ q. p.doc_id ≤ q.doc_id) ps × Ascending ps

abbrev pub Upto : ℕ → Text × List Posting → Type 0
Upto id e = Ascending e.1 × All (λ p. p.doc_id ≤ id) e.1

append-Ascending :
    (p : Posting) (ps : List Posting)
    → Ascending ps
    → All (λ q. q.doc_id ≤ p.doc_id) ps
    → Ascending (ps ++ p ∷ [])
append-Ascending p [] h le = (tt, tt)
append-Ascending p (q ∷ ps) (low, h) (le, below) =
    (All-append (λ x. q.doc_id ≤ x.doc_id) ps (p ∷ []) low (le, tt), append-Ascending p ps h below)

postings_of-Upto :
    (id : ℕ) (t : Text) (m : List (Text × List Posting))
    → All (Upto id) m
    → Upto id (t, postings_of t m)
postings_of-Upto id t m h = elim (Option-cases (lookup t m)) [
  | inl e ↦
      let nil : postings_of t m ≡ [] = rw (e, postings_of) refl in
      subst (λ x. Upto id (t, x)) (sym nil) (tt, tt)
  | inr (ps, e) ↦
      let same : postings_of t m ≡ ps = rw (e, postings_of) refl in
      subst (λ x. Upto id (t, x)) (sym same)
        (All-lookup (λ x. Ascending x × All (λ p. p.doc_id ≤ id) x) t ps m h e)
]

-- What one field of a document adds.
record Appended (id n : ℕ) (si si' : SearchIndex) : Type 0 where
  counted : si'.token_count ≡ si.token_count + n
  total : total_postings si'.postings ≡ total_postings si.postings + n
  upto : All (Upto id) si.postings → All (Upto id) si'.postings
  docs : si'.docs ≡ si.docs
  bytes : si'.logical_bytes ≡ si.logical_bytes
  cfg : si'.cfg ≡ si.cfg
  truncated : si'.truncated ≡ si.truncated
  reason : si'.reason ≡ si.reason

append_postings-Appended :
    (id : ℕ) (tf : List (Text × ℕ)) (field : Field) (terms : List Text) (si : SearchIndex)
    → Appended id (length terms) si (append_postings id tf field terms si)
unfolding append_postings
append_postings-Appended id tf field [] si = record {
  counted = omega arith;
  total = omega arith;
  upto = λ h. h;
  docs = refl;
  bytes = refl;
  cfg = refl;
  truncated = refl;
  reason = refl;
}
append_postings-Appended id tf field (t ∷ terms) si =
    let p : Posting = record { doc_id = id; tf = count_of t tf; field = field } in
    let ps = postings_of t si.postings in
    let a = append_postings-Appended id tf field terms (record si {
      postings = insert t (ps ++ p ∷ []) si.postings;
      token_count = si.token_count + 1;
    }) in
    record {
      counted = omega (arith, a.counted);
      total = omega (
        arith,
        a.total,
        total_postings-insert t (ps ++ p ∷ []) si.postings,
        length-append ps (p ∷ []),
      );
      upto = λ h.
          let (asc, low) = postings_of-Upto id t si.postings h in
          a.upto (
            All-insert (Upto id) t (ps ++ p ∷ []) si.postings h (
              append-Ascending p ps asc low,
              All-append (λ q. q.doc_id ≤ id) ps (p ∷ []) low (omega arith, tt),
            ));
      docs = a.docs;
      bytes = a.bytes;
      cfg = a.cfg;
      truncated = a.truncated;
      reason = a.reason;
    }

length-insert_text : (t : Text) (l : List Text) → length (insert_text t l) ≡ suc (length l)
unfolding insert_text
length-insert_text t [] = refl
length-insert_text t (u ∷ l) = ground (arith, length-insert_text t l)

length-sorted_keys : (tf : List (Text × ℕ)) → length (sort_texts (map (λ e. e.0) tf)) ≡ length tf
unfolding sort_texts
length-sorted_keys [] = refl
length-sorted_keys ((t, n) ∷ tf) =
    length-insert_text t (sort_texts (map (λ e. e.0) tf)) ∙ ap suc (length-sorted_keys tf)

add_postings-Appended :
    (id : ℕ) (tf : List (Text × ℕ)) (field : Field) (si : SearchIndex)
    → Appended id (length tf) si (add_postings id tf field si)
unfolding add_postings
add_postings-Appended id tf field si =
    subst (λ n. Appended id n si (add_postings id tf field si)) (length-sorted_keys tf)
      (append_postings-Appended id tf field (sort_texts (map (λ e. e.0) tf)) si)

Appended-trans :
    (id m n : ℕ) (a b c : SearchIndex)
    → Appended id m a b
    → Appended id n b c
    → Appended id (m + n) a c
Appended-trans id m n a b c h k = record {
  counted = omega (arith, h.counted, k.counted);
  total = omega (arith, h.total, k.total);
  upto = λ u. k.upto (h.upto u);
  docs = k.docs ∙ h.docs;
  bytes = k.bytes ∙ h.bytes;
  cfg = k.cfg ∙ h.cfg;
  truncated = k.truncated ∙ h.truncated;
  reason = k.reason ∙ h.reason;
}

-- The document that `admit` appends.
abbrev pub doc_of : ℕ → Post → SearchDoc
doc_of id post = record {
  id = id;
  slug = post.slug;
  title = post.title;
  tags = post.tags;
  date = post.date;
}

pub record Admitted (post : Post) (cand : DocBuild) (delta : ℕ) (si si' : SearchIndex)
    : Type 0 where
  pub counted : si'.token_count ≡ si.token_count + posting_count cand
  pub total : total_postings si'.postings ≡ total_postings si.postings + posting_count cand
  pub upto : All (Upto (length si.docs)) si.postings → All (Upto (length si.docs)) si'.postings
  pub docs : si'.docs ≡ si.docs ++ doc_of (length si.docs) post ∷ []
  pub bytes : si'.logical_bytes ≡ si.logical_bytes + delta
  pub same_cfg : si'.cfg ≡ si.cfg
  pub same_truncated : si'.truncated ≡ si.truncated
  pub same_reason : si'.reason ≡ si.reason

pub admit-Admitted :
    (post : Post) (cand : DocBuild) (delta : ℕ) (si : SearchIndex)
    → Admitted post cand delta si (admit post cand delta si)
unfolding admit
admit-Admitted post cand delta si =
    let id = length si.docs in
    let s0 : SearchIndex = record si { docs = si.docs ++ doc_of id post ∷ [] } in
    let s1 = add_postings id cand.title_tf Field.title s0 in
    let s2 = add_postings id cand.tag_tf Field.tag s1 in
    let s3 = add_postings id cand.body_tf Field.body s2 in
    let a =
      Appended-trans id (length cand.title_tf + length cand.tag_tf) (length cand.body_tf) s0 s2 s3
        (Appended-trans id (length cand.title_tf) (length cand.tag_tf) s0 s1 s2
          (add_postings-Appended id cand.title_tf Field.title s0)
          (add_postings-Appended id cand.tag_tf Field.tag s1))
        (add_postings-Appended id cand.body_tf Field.body s2) in
    record {
      counted = a.counted;
      total = a.total;
      upto = a.upto;
      docs = a.docs;
      bytes = ap (λ n. n + delta) a.bytes;
      same_cfg = a.cfg;
      same_truncated = a.truncated;
      same_reason = a.reason;
    }
