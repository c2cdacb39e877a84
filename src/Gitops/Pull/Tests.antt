-- ===== src/Gitops/Pull/Tests.antt =====
-- Runs of the model of internal/gitops/pull.go and poll.go, and its theorem at a small input.
use blogflow.Base.{
  Option, none, false, ℕ, Bool, true, [], ◌∷◌, List, ◌≡◌, refl, Bool-cases, arith, some,
  if◌then◌else◌, ◌==◌, nat_eq, list_beq, inl, inr,
}
use blogflow.Base.Text.{Text, codes}
use blogflow.Gitops.Url.{ParsedUrl, check_repo_url}
use blogflow.Gitops.Sparse.{validate_sparse_dirs}
use blogflow.Gitops.Pull.{
  pull_or_clone, after_pull, Checkout, updated, already_up_to_date, Git, Server, tick,
  clone_or_pull, pull, reset_to_remote, finish_pull, clean_non_sparse_paths,
}
use blogflow.Gitops.Pull.Arrives.{IsAnswer, Works}
use blogflow.Gitops.Pull.Converge.{InStep, tick-InStep}

-- A repository whose branch is at `r`, and whose resets succeed or not.
abbrev git_at : Bool → ℕ → Git
git_at resets r = record {
  plain_clone = λ c. (record { present = true; head = r; tracking = r; top_level = [] }, true);
  sparse_checkout = λ dirs c. (c, true);
  opens = λ c. c.present;
  has_head = λ c. c.present;
  fetch = λ c.
      if c.tracking == r then (c, already_up_to_date) else (record c { tracking = r }, updated);
  remove_all = λ c. (record c { present = false }, true);
  remote_ref = λ c. some c.tracking;
  has_worktree = λ c. c.present;
  reset = λ t c. if resets then (record c { head = t }, true) else (c, false);
  lists = λ c. c.present;
  remove_entry = λ name. true;
}

fetch_at-IsAnswer :
    (r : ℕ) (c : Checkout)
    → c.present ≡ true
    → IsAnswer r c ((git_at true r).fetch c).0 ((git_at true r).fetch c).1
fetch_at-IsAnswer r c here = elim (Bool-cases (c.tracking == r)) [
  | inl same ↦ rw same (refl, ground arith)
  | inr other ↦ rw other (here, refl, refl)
]

git_at-Works : (r : ℕ) → Works (git_at true r) r
git_at-Works r = record {
  opened = λ c here. here;
  headed = λ c here. here;
  worktree = λ c here. here;
  fetched = fetch_at-IsAnswer r;
  refs = λ c here. refl;
  resets = λ c here. (record { here = here; head_at = refl; tracking_at = refl }, refl);
  removes = λ c. (refl, refl);
  clones = λ c gone. (record { here = refl; head_at = refl; tracking_at = refl }, refl);
  checks_out = λ dirs c at. (at, refl);
  listed = λ c here. here;
  removes_entry = λ name. refl;
}

abbrev two_dirs : List Text
two_dirs = codes "posts/drafts" ∷ codes "pages/" ∷ []

abbrev repo_url : Text
repo_url = codes "https://host/blog.git"

abbrev parse_repo : Text → Option ParsedUrl
parse_repo s = some (record { url_scheme = codes "https"; user = none; without_user = s })

abbrev polled : Server
polled = record {
  checkout = record {
    present = true;
    head = 4;
    tracking = 4;
    top_level = codes ".git" ∷ codes "posts" ∷ codes "docs" ∷ [];
  };
  sparse_dirs = two_dirs;
  served = 4;
}

abbrev tick_at : Bool → Server → Server
tick_at resets s = tick parse_repo (git_at resets 5) repo_url true s

follows : (tick_at true polled).checkout ≡ record {
  present = true;
  head = 5;
  tracking = 5;
  top_level = codes ".git" ∷ codes "posts" ∷ [];
}
unfolding tick after_pull clone_or_pull check_repo_url validate_sparse_dirs pull_or_clone pull
    reset_to_remote finish_pull clean_non_sparse_paths list_beq
follows = refl

-- A reset that fails once: the next fetch brings nothing, and the server stays behind.
left_behind : (tick_at true (tick_at false polled)).served ≡ 4
unfolding tick after_pull clone_or_pull check_repo_url validate_sparse_dirs pull_or_clone pull
    reset_to_remote finish_pull clean_non_sparse_paths list_beq
left_behind = refl

tick-InStep_example : ((tick_at true polled).served ≡ 5) × InStep (tick_at true polled)
unfolding check_repo_url validate_sparse_dirs list_beq
tick-InStep_example =
    tick-InStep parse_repo (git_at true 5) repo_url 5 (git_at-Works 5)
      (codes "posts/drafts" ∷ codes "pages" ∷ []) polled refl refl
      (record { level = λ here. refl; serves_head = λ here. refl })
