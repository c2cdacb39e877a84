-- ===== src/Overlay/Dir/Hidden.antt =====
-- The handle that hides .git (gitHidingDir in internal/overlayfs/overlayfs.go).
use blogflow.Base.{
  ℕ, zero, suc, ◌+◌, ◌<◌, ◌≡◌, refl, ◌∙◌, true, false, List, [], ◌∷◌, ◌++◌, Option, none, some,
  length, take, drop, length-drop, arith, Bool-cases, inl, inr, All, ap, append-nil,
}
use blogflow.Base.Text.{is_empty}
use blogflow.Base.Int.{ℤ, pos, negsuc}
use blogflow.Overlay.Paths.{is_git}
use blogflow.Overlay.Layers.{FsError, end_of_file, DirEntry}
use blogflow.Overlay.Dir.{raw_read_dir, without_git, hiding_rounds, hiding_read_dir, positive}

without_git-take-drop :
    (n : ℕ) (es : List DirEntry)
    → without_git (take n es) ++ without_git (drop n es) ≡ without_git es
unfolding without_git
without_git-take-drop zero es = refl
without_git-take-drop (suc n) [] = refl
without_git-take-drop (suc n) (e ∷ es) = ground (arith, without_git-take-drop n es)

-- What a batch is: the entries that are not .git, in order, and the ones still to come; an empty
-- batch of a bounded read carries the end.
pub record IsBatch (n : ℤ) (es kept : List DirEntry) (e : Option FsError) (rest : List DirEntry)
    : Type 0 where
  pub no_loss : kept ++ without_git rest ≡ without_git es
  pub signalled : positive n ≡ true → kept ≡ [] → e ≡ some end_of_file

without_git_plain : (es : List DirEntry) → All (λ e. is_git e.name ≡ false) (without_git es)
unfolding without_git
without_git_plain [] = tt
without_git_plain (e ∷ es) = elim (Bool-cases (is_git e.name)) [
  | inl git ↦ rw (git, without_git) (without_git_plain es)
  | inr plain ↦ rw (plain, without_git) (plain, without_git_plain es)
]

-- The read that has no bound.
whole : (n : ℤ) (es : List DirEntry) → positive n ≡ false → IsBatch n es (without_git es) none []
unfolding without_git
whole n es unbounded = record {
  no_loss = append-nil _;
  signalled = λ bounded _. absurd (cc unbounded);
}

hiding_rounds-IsBatch :
    (fuel : ℕ) (n : ℤ) (es : List DirEntry)
    → length es < fuel
    → (kept : List DirEntry) × (e : Option FsError) × (rest : List DirEntry) × (hiding_rounds fuel n
          es
        ≡ some (kept, e, rest))
      × IsBatch n es kept e rest
      × All (λ x. is_git x.name ≡ false) kept
unfolding hiding_rounds raw_read_dir
hiding_rounds-IsBatch zero n es h = absurd (omega arith)
hiding_rounds-IsBatch (suc fuel) (negsuc n) es h =
    (without_git es, none, [], refl, whole (negsuc n) es refl, without_git_plain es)
hiding_rounds-IsBatch (suc fuel) (pos zero) es h =
    (without_git es, none, [], refl, whole (pos 0) es refl, without_git_plain es)
hiding_rounds-IsBatch (suc fuel) (pos (suc n)) [] h =
    ([], some end_of_file, [], refl, record { no_loss = refl; signalled = λ _ _. refl }, tt)
hiding_rounds-IsBatch (suc fuel) (pos (suc n)) (e ∷ es) h =
    let rest = drop n es in
    let kept = without_git (take (suc n) (e ∷ es)) in
    elim (Bool-cases (is_empty kept)) [
      | inr some_left ↦ (
        kept,
        none,
        rest,
        rw some_left,
        record {
          no_loss = without_git-take-drop (suc n) (e ∷ es);
          signalled = λ _ gone. absurd (cc (ap is_empty gone));
        },
        without_git_plain (take (suc n) (e ∷ es)),
      )
      | inl gone ↦
          let (kept', e', rest', done, batch, plain) =
            hiding_rounds-IsBatch fuel (pos (suc n)) rest (omega (arith, length-drop n es)) in
          (
            kept',
            e',
            rest',
            rw (gone, done),
            record {
              no_loss = batch.no_loss ∙ ground (arith, without_git-take-drop (suc n) (e ∷ es));
              signalled = batch.signalled;
            },
            plain,
          )
    ]

-- Whatever the bound, a read through the handle ends with a batch. It holds no .git entry and loses
-- no other: it and the entries still to come are the directory's without .git, in order. If the
-- bound is positive and the batch is empty, it comes with the end of the directory.
pub hiding_read_dir-IsBatch :
    (n : ℤ) (es : List DirEntry)
    → (kept : List DirEntry) × (e : Option FsError) × (rest : List DirEntry) × (hiding_read_dir n es
        ≡ some (kept, e, rest))
      × IsBatch n es kept e rest
      × All (λ x. is_git x.name ≡ false) kept
unfolding hiding_read_dir
hiding_read_dir-IsBatch n es = hiding_rounds-IsBatch (length es + 1) n es (omega arith)
