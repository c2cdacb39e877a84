-- ===== src/Gitops/Pull/Converge.antt =====
-- internal/gitops/pull.go and poll.go: a server that polls and is in step with its checkout serves the
-- remote's revision after each round in which no call of git fails for good.
use blogflow.Base.{
  Option, subst, inr, inl, ℕ, Bool, true, false, List, ◌≡◌, ◌∙◌, sym, refl, nat_eq, Bool-cases,
  list_eq, if◌then◌else◌,
}
use blogflow.Base.Text.{Text}
use blogflow.Gitops.Url.{ParsedUrl, check_repo_url}
use blogflow.Gitops.Sparse.{validate_sparse_dirs, validated}
use blogflow.Gitops.Pull.{
  pull_or_clone, after_pull, failed, Checkout, Git, Pulled, pulled, clone, pull, clone_or_pull,
  Server, tick,
}
use blogflow.Gitops.Pull.Arrives.{Works, Arrives, clone-Arrives, pull-Arrives}

-- A server that serves its checkout's HEAD, which is the remote's branch as last fetched; or has no clone yet.
pub record InStep (s : Server) : Type 0 where
  pub level : s.checkout.present ≡ true → s.checkout.head ≡ s.checkout.tracking
  pub serves_head : s.checkout.present ≡ true → s.served ≡ s.checkout.head

pull_or_clone-Arrives :
    (git : Git) (dirs : List Text) (r : ℕ) (works : Works git r) (s : Server)
    → InStep s
    → Arrives r s.served (pull_or_clone git dirs s.checkout)
unfolding pull_or_clone
pull_or_clone-Arrives git dirs r works s step =
    let both = λ (b : Bool). if b then pull git dirs s.checkout else clone git dirs s.checkout in
    elim (Bool-cases s.checkout.present) [
      | inl here ↦
          subst (λ b. Arrives r s.served (both b)) (sym here)
            (subst (λ h. Arrives r h (pull git dirs s.checkout)) (sym (step.serves_head here))
              (pull-Arrives git dirs r works s.checkout here (step.level here)))
      | inr gone ↦
          subst (λ b. Arrives r s.served (both b)) (sym gone)
            (clone-Arrives git dirs r works s.served s.checkout gone)
    ]

after_pull-InStep :
    (dirs : List Text) (r : ℕ) (s : Server) (p : Checkout × Pulled)
    → Arrives r s.served p
    → let s' = after_pull true (record s { checkout = p.0; sparse_dirs = dirs }, p.1) in
      (s'.served ≡ r) × InStep s'
unfolding after_pull
after_pull-InStep dirs r s (c, failed e) arrives = absurd (cc (arrives.success))
after_pull-InStep dirs r s (c, pulled true) arrives =
    let at = arrives.arrived in
    (
      at.head_at,
      record { level = λ here. at.head_at ∙ sym at.tracking_at; serves_head = λ here. refl },
    )
after_pull-InStep dirs r s (c, pulled false) arrives =
    let at = arrives.arrived in
    let kept = arrives.honest (told arrives.changed arrives.success) in
    (
      kept,
      record {
        level = λ here. at.head_at ∙ sym at.tracking_at;
        serves_head = λ here. kept ∙ sym at.head_at;
      },
    )
  where
    told : (b : Bool) → pulled false ≡ pulled b → b ≡ false
    told b e = cc

module _ (parse : Text → Option ParsedUrl) (git : Git) (repo_url : Text) where
  clone_or_pull-checked :
      (dirs : List Text) (s : Server)
      → check_repo_url parse repo_url ≡ true
      → validate_sparse_dirs s.sparse_dirs ≡ validated dirs
      → let p = pull_or_clone git dirs s.checkout in
        clone_or_pull parse git repo_url s ≡ (record s { checkout = p.0; sparse_dirs = dirs }, p.1)
  unfolding clone_or_pull
  clone_or_pull-checked dirs s sound valid = rw (sound, valid, clone_or_pull) refl

  -- A server in step with its checkout, whose remote's branch is at r, serves r after a round of polling in
  -- which the calls of git and the reload succeed, whatever it served before, also when the fetch breaks and
  -- the clone is made again; and it is in step again. The repository's URL and the sparse directories are ones
  -- that pass their checks.
  pub tick-InStep :
      (r : ℕ) (works : Works git r) (dirs : List Text) (s : Server)
      → check_repo_url parse repo_url ≡ true
      → validate_sparse_dirs s.sparse_dirs ≡ validated dirs
      → InStep s
      → ((tick parse git repo_url true s).served ≡ r) × InStep (tick parse git repo_url true s)
  unfolding tick
  tick-InStep r works dirs s sound valid step =
      subst (λ p. ((after_pull true p).served ≡ r) × InStep (after_pull true p))
        (sym (clone_or_pull-checked dirs s sound valid))
        (after_pull-InStep dirs r s (pull_or_clone git dirs s.checkout)
          (pull_or_clone-Arrives git dirs r works s step))
