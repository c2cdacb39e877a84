-- ===== src/Search/Index/Ends.antt =====
-- How a build of the index ends (internal/search/index.go).
use blogflow.Base.{
  ◌<◌, take, get_elem?, ℕ, ◌+◌, ◌≡◌, Bool, true, false, List, ◌++◌, length, Option, some,
}
use blogflow.Base.Text.{Text}
use blogflow.Base.Int.{ℤ, pos, ltb_ℤ}
use blogflow.Search.Index.{
  Post, SearchIndex, build_doc, candidate_bytes, posting_count, is_positive, TruncationReason,
  max_docs, max_tokens, max_index_bytes, complete,
}
use blogflow.Search.Index.Caps.{docs_of, present, IsIndex}

-- The index is full for a post: with it, it would be over this cap.
abbrev pub Over : ℤ → ℕ → Type 0
Over cap n = (is_positive cap ≡ true) × (ltb_ℤ cap (pos n) ≡ true)

abbrev pub IsFull : (Text → List Text) → Post → TruncationReason → SearchIndex → Type 0
IsFull tokens p max_docs si = Over si.cfg.max_docs (length si.docs + 1)
IsFull tokens p max_tokens si =
    Over si.cfg.max_tokens (si.token_count + posting_count (build_doc tokens p))
IsFull tokens p max_index_bytes si =
    Over si.cfg.max_index_bytes (si.logical_bytes + candidate_bytes si p (build_doc tokens p))
IsFull tokens p complete si = ⊥

module _ (tokens : Text → List Text) (cancelled : ℕ → Bool) where
  -- Why a build that stands at `i` when it begins ends after `steps` posts: there are no more, or the
  -- context is cancelled there, or the index is full for the next one, and then the index says so.
  pub data Ended (i steps : ℕ) (posts : List (Option Post)) (si si' : SearchIndex) : Type 0 where
    finished :
        steps ≡ length posts
        → si'.truncated ≡ si.truncated
        → si'.reason ≡ si.reason
        → Ended i steps posts si si'
    stopped :
        steps < length posts
        → cancelled (i + steps) ≡ true
        → si'.truncated ≡ si.truncated
        → si'.reason ≡ si.reason
        → Ended i steps posts si si'
    full :
        (p : Post) (reason : TruncationReason)
        → get_elem? posts steps ≡ some (some p)
        → cancelled (i + steps) ≡ false
        → IsFull tokens p reason si'
        → si'.truncated ≡ true
        → (si.reason ≡ complete → si'.reason ≡ reason)
        → Ended i steps posts si si'

  -- A build: the posts before its end are in the index, whole and in order.
  pub record Built (i : ℕ) (posts : List (Option Post)) (si si' : SearchIndex) : Type 0 where
    pub steps : ℕ
    pub docs : si'.docs ≡ si.docs ++ docs_of (length si.docs) (present (take steps posts))
    pub index : IsIndex si'
    pub went_on : (j : ℕ) → j < steps → cancelled (i + j) ≡ false
    pub end : Ended i steps posts si si'
