-- ===== src/Gitops/Pull/Arrives.antt =====
-- internal/gitops/pull.go: what a pull comes to when no call of git fails for good.
use blogflow.Base.{
  subst, inr, inl, ℕ, Bool, true, false, List, [], ◌∷◌, ◌==◌, ◌≡◌, ◌∙◌, refl, nat_eq, some,
  Bool-cases, arith, any, ◌||◌, list_eq, map,
}
use blogflow.Base.Text.{Text, codes, is_empty}
use blogflow.Gitops.Pull.{
  Checkout, Fetched, updated, already_up_to_date, fetch_failed, Git, Pulled, pulled, clean_entries,
  clean_non_sparse_paths, finish_clone, clone, finish_pull, reset_to_remote, clone_again, pull,
  top_component,
}

-- A clone whose HEAD and remote branch are this revision.
pub record At (r : ℕ) (c : Checkout) : Type 0 where
  pub here : c.present ≡ true
  pub head_at : c.head ≡ r
  pub tracking_at : c.tracking ≡ r

-- What a fetch may answer when the remote's branch is `r`. It may also break, as shallow clones do.
abbrev pub IsAnswer : ℕ → Checkout → Checkout → Fetched → Type 0
IsAnswer r c c' updated = (c'.present ≡ true) × (c'.tracking ≡ r) × (c'.head ≡ c.head)
IsAnswer r c c' already_up_to_date = (c' ≡ c) × (c.tracking ≡ r)
IsAnswer r c c' fetch_failed = Unit

-- What is documented of git's calls when they succeed and the remote's branch is `r`.
pub record Works (git : Git) (r : ℕ) : Type 0 where
  pub opened : (c : Checkout) → c.present ≡ true → git.opens c ≡ true
  pub headed : (c : Checkout) → c.present ≡ true → git.has_head c ≡ true
  pub worktree : (c : Checkout) → c.present ≡ true → git.has_worktree c ≡ true
  pub fetched : (c : Checkout) → c.present ≡ true → IsAnswer r c (git.fetch c).0 (git.fetch c).1
  pub refs : (c : Checkout) → c.present ≡ true → git.remote_ref c ≡ some c.tracking
  pub resets :
      (c : Checkout)
      → c.present ≡ true
      → At c.tracking (git.reset c.tracking c).0 × ((git.reset c.tracking c).1 ≡ true)
  pub removes :
      (c : Checkout) → ((git.remove_all c).0.present ≡ false) × ((git.remove_all c).1 ≡ true)
  pub clones :
      (c : Checkout)
      → c.present ≡ false
      → At r (git.plain_clone c).0 × ((git.plain_clone c).1 ≡ true)
  pub checks_out :
      (dirs : List Text) (c : Checkout)
      → At r c
      → At r (git.sparse_checkout dirs c).0 × ((git.sparse_checkout dirs c).1 ≡ true)
  pub listed : (c : Checkout) → c.present ≡ true → git.lists c ≡ true
  pub removes_entry : (name : Text) → git.remove_entry name ≡ true

-- A pull that succeeded and came to `r`, and said so if it moved HEAD.
pub record Arrives (r before : ℕ) (p : Checkout × Pulled) : Type 0 where
  pub changed : Bool
  pub success : p.1 ≡ pulled changed
  pub arrived : At r p.0
  pub honest : changed ≡ false → before ≡ r

clean_entries-done :
    (remove : Text → Bool) (allowed l : List Text)
    → ((name : Text) → remove name ≡ true)
    → (clean_entries remove allowed l).1 ≡ true
unfolding clean_entries
clean_entries-done remove allowed [] h = refl
clean_entries-done remove allowed (name ∷ l) h =
    elim (Bool-cases (name == codes ".git" || any (λ a. a == name) allowed)) [
      | inl e ↦ rw e (clean_entries-done remove allowed l h)
      | inr e ↦ rw (e, h name) (clean_entries-done remove allowed l h)
    ]

module _ (git : Git) (sparse_dirs : List Text) (r : ℕ) (works : Works git r) where
  pub clone-Arrives :
      (before : ℕ) (c : Checkout) → c.present ≡ false → Arrives r before (clone git sparse_dirs c)
  unfolding clone finish_clone
  clone-Arrives before c gone =
      let (at, done) = works.clones c gone in
      let (at', done') = works.checks_out sparse_dirs (git.plain_clone c).0 at in
      elim (Bool-cases (is_empty sparse_dirs)) [
        | inl e ↦
            rw (done, e)
              (record { changed = true; success = refl; arrived = at; honest = λ n. absurd (cc) })
        | inr e ↦
            rw (done, e, works.worktree (git.plain_clone c).0 at.here, done')
              (record { changed = true; success = refl; arrived = at'; honest = λ n. absurd (cc) })
      ]

  clone_again-Arrives :
      (before : ℕ) (c : Checkout) → Arrives r before (clone_again git sparse_dirs c)
  unfolding clone_again
  clone_again-Arrives before c =
      let (gone, removed) = works.removes c in
      rw (removed, clone_again) (clone-Arrives before (git.remove_all c).0 gone)

  finish_pull-Arrives :
      (before : ℕ) (c : Checkout) → At r c → Arrives r before (finish_pull git sparse_dirs before c)
  unfolding finish_pull clean_non_sparse_paths top_component
  finish_pull-Arrives before c at = elim (Bool-cases (before == c.head)) [
    | inl e ↦
        let head_is = at.head_at in
        let same : before ≡ r = ground arith in
        rw (works.headed c at.here, e)
          (record { changed = false; success = refl; arrived = at; honest = λ n. same })
    | inr e ↦ elim (Bool-cases (is_empty sparse_dirs)) [
      | inl whole ↦
          rw (works.headed c at.here, e, whole)
            (record { changed = true; success = refl; arrived = at; honest = λ n. absurd (cc) })
      | inr sparse ↦
          rw
            (
              works.headed c at.here,
              e,
              sparse,
              works.listed c at.here,
              clean_entries-done git.remove_entry (map top_component sparse_dirs) c.top_level
                  works.removes_entry,
            )
            (record {
              changed = true;
              success = refl;
              arrived = record {
                here = at.here;
                head_at = at.head_at;
                tracking_at = at.tracking_at;
              };
              honest = λ n. absurd (cc);
            })
    ]
  ]

  reset_to_remote-Arrives :
      (before : ℕ) (c : Checkout)
      → c.present ≡ true
      → c.tracking ≡ r
      → Arrives r before (reset_to_remote git sparse_dirs before c)
  unfolding reset_to_remote
  reset_to_remote-Arrives before c here follows =
      let (at, done) = works.resets c here in
      rw (works.refs c here, works.worktree c here, done, reset_to_remote)
        (finish_pull-Arrives before (git.reset c.tracking c).0
          (subst (λ t. At t (git.reset c.tracking c).0) follows at))

  pub pull-Arrives :
      (c : Checkout)
      → c.present ≡ true
      → c.head ≡ c.tracking
      → Arrives r c.head (pull git sparse_dirs c)
  unfolding pull
  pull-Arrives c here level =
      rw (works.opened c here, works.headed c here)
        (after (git.fetch c).0 (git.fetch c).1 (works.fetched c here))
    where
      after :
          (c' : Checkout) (f : Fetched)
          → IsAnswer r c c' f
          → Arrives r c.head (elim f as (λ x. Checkout × Pulled) [
            | updated ↦ reset_to_remote git sparse_dirs c.head c'
            | already_up_to_date ↦ (c', pulled false)
            | fetch_failed ↦ clone_again git sparse_dirs c'
          ])
      after c' updated (here', follows, kept) = reset_to_remote-Arrives c.head c' here' follows
      after c' already_up_to_date (same, follows) = record {
        changed = false;
        success = refl;
        arrived =
            rw same (record { here = here; head_at = level ∙ follows; tracking_at = follows });
        honest = λ n. level ∙ follows;
      }
      after c' fetch_failed tt = clone_again-Arrives c.head c'
