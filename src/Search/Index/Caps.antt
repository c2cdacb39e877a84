-- ===== src/Search/Index/Caps.antt =====
-- What a built index promises (internal/search/index.go).
use blogflow.Base.{
  ℕ, suc, ◌+◌, ◌≤◌, ◌≡◌, ◌∙◌, sym, ap, subst, false, ◌&&◌, List, [], ◌∷◌, ◌++◌, length,
  length-append, append_assoc, Option, none, some, arith, All, All-map,
}
use blogflow.Base.Int.{ℤ, pos, ltb_ℤ, leb_ℤ}
use blogflow.Search.Index.{
  Post, SearchDoc, SearchIndex, DocBuild, posting_count, admit, is_positive, TruncationReason,
  mark_truncated,
}
use blogflow.Search.Index.Postings.{total_postings, Upto, doc_of, admit-Admitted}

-- A cap that is not positive is no cap.
abbrev pub Within : ℤ → ℕ → Type 0
Within cap n = (is_positive cap && ltb_ℤ cap (pos n)) ≡ false

-- The documents of the posts, numbered from `id` on.
abbrev pub docs_of : ℕ → List Post → List SearchDoc
docs_of id [] = []
docs_of id (p ∷ ps) = doc_of id p ∷ docs_of (suc id) ps

-- The posts that are not nil.
abbrev pub present : List (Option Post) → List Post
present [] = []
present (none ∷ ps) = present ps
present (some p ∷ ps) = p ∷ present ps

pub record IsIndex (si : SearchIndex) : Type 0 where
  pub docs_capped : Within si.cfg.max_docs (length si.docs)
  pub tokens_capped : Within si.cfg.max_tokens si.token_count
  pub bytes_capped : Within si.cfg.max_index_bytes si.logical_bytes
  pub counted : si.token_count ≡ total_postings si.postings
  pub ordered : All (Upto (length si.docs)) si.postings

Upto-later :
    (m n : ℕ) (si : SearchIndex) → m ≤ n → All (Upto m) si.postings → All (Upto n) si.postings
Upto-later m n si le h =
    All-map (λ e (asc, low). (asc, All-map (λ p q. omega (arith, q, le)) e.1 low)) si.postings h

Within-suc : (cap : ℤ) (n : ℕ) → (is_positive cap && leb_ℤ cap (pos n)) ≡ false → Within cap (n + 1)
Within-suc cap n h = ground arith

pub admit-IsIndex :
    (post : Post) (cand : DocBuild) (delta : ℕ) (si : SearchIndex)
    → (is_positive si.cfg.max_docs && leb_ℤ si.cfg.max_docs (pos (length si.docs))) ≡ false
    → Within si.cfg.max_tokens (si.token_count + posting_count cand)
    → Within si.cfg.max_index_bytes (si.logical_bytes + delta)
    → IsIndex si
    → IsIndex (admit post cand delta si)
admit-IsIndex post cand delta si docs tokens bytes h =
    let a = admit-Admitted post cand delta si in
    let more : length (admit post cand delta si).docs ≡ length si.docs + 1 =
      ap length a.docs ∙ length-append si.docs (doc_of (length si.docs) post ∷ []) in
    record {
      docs_capped =
          subst (λ c. Within c.max_docs (length (admit post cand delta si).docs)) (sym a.same_cfg)
            (subst (Within si.cfg.max_docs) (sym more)
              (Within-suc si.cfg.max_docs (length si.docs) docs));
      tokens_capped =
          subst (λ c. Within c.max_tokens (admit post cand delta si).token_count) (sym a.same_cfg)
            (subst (Within si.cfg.max_tokens) (sym a.counted) tokens);
      bytes_capped =
          subst (λ c. Within c.max_index_bytes (admit post cand delta si).logical_bytes)
            (sym a.same_cfg) (subst (Within si.cfg.max_index_bytes) (sym a.bytes) bytes);
      counted = omega (arith, a.counted, a.total, h.counted);
      ordered =
          Upto-later (length si.docs) (length (admit post cand delta si).docs)
            (admit post cand delta si) (omega (arith, more)) (a.upto h.ordered);
    }

pub mark_truncated-IsIndex :
    (reason : TruncationReason) (si : SearchIndex) → IsIndex si → IsIndex (mark_truncated reason si)
unfolding mark_truncated
mark_truncated-IsIndex reason si h = record {
  docs_capped = h.docs_capped;
  tokens_capped = h.tokens_capped;
  bytes_capped = h.bytes_capped;
  counted = h.counted;
  ordered = h.ordered;
}

pub docs_of-append :
    (id : ℕ) (p : Post) (ps : List Post) (ds : List SearchDoc)
    → (ds ++ doc_of id p ∷ []) ++ docs_of (suc id) ps ≡ ds ++ docs_of id (p ∷ ps)
docs_of-append id p ps ds = append_assoc ds (doc_of id p ∷ []) (docs_of (suc id) ps)

pub Within-zero : (cap : ℤ) → Within cap 0
Within-zero cap = ground arith
