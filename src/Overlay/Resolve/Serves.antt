-- ===== src/Overlay/Resolve/Serves.antt =====
-- What `Open`, `ReadFile` and `Stat` answer, without the cache: the file of the first layer that has
-- the path.
use blogflow.Base.{
  ℕ, zero, suc, ◌+◌, ◌≡◌, refl, ◌∙◌, sym, ap, true, false, some, none, arith, List, [], ◌∷◌,
  get_elem?, inl, inr, ◌↔◌, subst,
}
use blogflow.Base.Text.{Text}
use blogflow.Overlay.Paths.{valid_path, has_git_component}
use blogflow.Overlay.Layers.{
  Result-cases, not_exist, Result, ok, err, File, Layer, LayerMeta, check_layer, Handle, read_all,
}
use blogflow.Overlay.Cache.{Overlay}
use blogflow.Overlay.Cache.Invariant.{IsConsistent}
use blogflow.Overlay.Cache.Sound.{Lacks, IsSound}
use blogflow.Overlay.Resolve.{
  Attempt, found, missing, Outcome, hit, fault, scan, outcome, open_attempt, guarded, open_path,
  read_file, handle_of, snapshot, resolve_from,
}
use blogflow.Overlay.Resolve.Transparent.{Faithful, Attempt-cases, resolve_from-scan}

-- Layer `layer` is the first that has the path, and the round there finds `a`.
pub record Finds {ℓ} {A : Type ℓ} (attempt : ℕ → Layer → Attempt A) (name : Text) (i k : ℕ) (a : A)
    (ls : List Layer) : Type ℓ where
  pub depth : ℕ
  pub fs : Layer
  pub layer : k ≡ i + depth
  pub at : get_elem? ls depth ≡ some fs
  pub above : Lacks name depth ls
  pub finds : attempt k fs ≡ found a

module _ {ℓ} {A : Type ℓ} (attempt : ℕ → Layer → Attempt A) (name : Text) where
  scan-Finds :
      (i k : ℕ) (a : A) (ls : List Layer)
      → Faithful attempt name i ls
      → scan attempt i ls ≡ hit k a
      → Finds attempt name i k a ls
  unfolding scan
  scan-Finds i k a [] f h = absurd (cc)
  scan-Finds i k a (l ∷ ls) (here, f) h = elim (Attempt-cases (attempt i l)) [
    | inl (b, e) ↦
        let same : hit i b ≡ hit k a = rw (e, scan) at h in
        record {
          depth = 0;
          fs = l;
          layer = ground arith;
          at = refl;
          above = tt;
          finds = subst (λ j. attempt j l ≡ found a) (ground arith) (e ∙ ground arith);
        }
    | inr (inl e) ↦
        let r = scan-Finds (suc i) k a ls f (rw (e, scan) at h) in
        record {
          depth = suc r.depth;
          fs = r.fs;
          layer = omega (arith, r.layer);
          at = r.at;
          above = (here.0 e, r.above);
          finds = r.finds;
        }
    | inr (inr (b, e)) ↦ absurd (cc (rw (e, scan) at h))
  ]

  pub Finds-scan :
      (i n k : ℕ) (a : A) (fs : Layer) (ls : List Layer)
      → Faithful attempt name i ls
      → k ≡ i + n
      → get_elem? ls n ≡ some fs
      → Lacks name n ls
      → attempt k fs ≡ found a
      → scan attempt i ls ≡ hit k a
  unfolding scan
  Finds-scan i n k a fs [] f e at above finds = absurd (cc)
  Finds-scan i zero k a fs (l ∷ ls) f e at above finds =
      let at_k : k ≡ i = omega arith in
      let same : attempt i l ≡ found a = cc in rw (same, scan) (ground arith)
  Finds-scan i (suc n) k a fs (l ∷ ls) (here, f) e at (absent, above) finds =
      rw (here.1 absent, scan) (Finds-scan (suc i) n k a fs ls f (omega arith) at above finds)

module _ {ℓ} {A : Type ℓ} (eval_symlinks : Text → Result Text) (use_file : ℕ → File → Result A)
    (metas : List LayerMeta) (name : Text) where
  open_attempt-missing :
      (i : ℕ) (l : Layer)
      → (open_attempt eval_symlinks use_file metas name i l ≡ missing)
        ↔ (l.open_file name ≡ err not_exist)
  unfolding open_attempt
  open_attempt-missing i l = ground arith

  pub open_attempt-Faithful :
      (i : ℕ) (ls : List Layer)
      → Faithful (open_attempt eval_symlinks use_file metas name) name i ls
  open_attempt-Faithful i [] = tt
  open_attempt-Faithful i (l ∷ ls) = (open_attempt-missing i l, open_attempt-Faithful (suc i) ls)

  -- Layer `layer` is the first that has the path; its file passes the symlink check and gives `a`.
  pub record Serves (ls : List Layer) (a : A) : Type ℓ where
    pub layer : ℕ
    pub fs : Layer
    pub file : File
    pub at : get_elem? ls layer ≡ some fs
    pub above : Lacks name layer ls
    pub opened : fs.open_file name ≡ ok file
    pub checked : check_layer eval_symlinks metas layer name ≡ none
    pub used : use_file layer file ≡ ok a

  open_attempt-found :
      (i : ℕ) (l : Layer) (a : A)
      → open_attempt eval_symlinks use_file metas name i l ≡ found a
      → (f : File) × (l.open_file name ≡ ok f)
        × (check_layer eval_symlinks metas i name ≡ none)
        × (use_file i f ≡ ok a)
  unfolding open_attempt
  open_attempt-found i l a h = elim (Result-cases (l.open_file name)) [
    | inl (f, e) ↦ (f, e, ground arith, ground arith)
    | inr (x, e) ↦ absurd (ground arith)
  ]

  pub found-open_attempt :
      (i : ℕ) (l : Layer) (a : A) (f : File)
      → l.open_file name ≡ ok f
      → check_layer eval_symlinks metas i name ≡ none
      → use_file i f ≡ ok a
      → open_attempt eval_symlinks use_file metas name i l ≡ found a
  unfolding open_attempt
  found-open_attempt i l a f opened checked used = ground arith

  outcome_hit : (end : Outcome A) (a : A) → outcome end ≡ ok a → (k : ℕ) × (end ≡ hit k a)
  outcome_hit (hit k b) a h = (k, ground arith)
  outcome_hit (fault e) a h = absurd (cc)

  pub resolve_from-Serves :
      (o : Overlay) (a : A)
      → IsConsistent o
      → IsSound o
      → ((resolve_from (open_attempt eval_symlinks use_file metas name) name (snapshot o) o).0
          ≡ ok a)
        ↔ Serves o.layers a
  resolve_from-Serves o a c h = (to, from)
    where
      attempt : ℕ → Layer → Attempt A
      attempt = open_attempt eval_symlinks use_file metas name

      f : Faithful attempt name 0 o.layers
      f = open_attempt-Faithful 0 o.layers

      to : (resolve_from attempt name (snapshot o) o).0 ≡ ok a → Serves o.layers a
      to e =
          let (k, end) = outcome_hit _ a (sym (resolve_from-scan attempt name o c h f) ∙ e) in
          let r = scan-Finds attempt name 0 k a o.layers f end in
          let (file, opened, checked, used) = open_attempt-found k r.fs a r.finds in
          record {
            layer = k;
            fs = r.fs;
            file = file;
            at = subst (λ n. get_elem? o.layers n ≡ some r.fs) (omega (arith, r.layer)) r.at;
            above = subst (λ n. Lacks name n o.layers) (omega (arith, r.layer)) r.above;
            opened = opened;
            checked = checked;
            used = used;
          }

      from : Serves o.layers a → (resolve_from attempt name (snapshot o) o).0 ≡ ok a
      from s =
          resolve_from-scan attempt name o c h f
          ∙ ap outcome (
              Finds-scan attempt name 0 s.layer s.layer a s.fs o.layers f (omega arith) s.at s.above
                (found-open_attempt s.layer s.fs a s.file s.opened s.checked s.used))

module _ (eval_symlinks : Text → Result Text) (name : Text) (o : Overlay) (c : IsConsistent o)
    (h : IsSound o) (valid : valid_path name ≡ true) (plain : has_git_component name ≡ false) where
  -- For a valid name without a .git component, in an overlay whose cache is consistent and sound,
  -- `Open` returns a handle exactly if the first layer that has the path serves that handle: its
  -- file passes the symlink check. So no entry of the cache hides a file or brings a shadowed one to
  -- light.
  pub open_path-Serves :
      (a : Handle)
      → ((open_path eval_symlinks name o).0 ≡ ok a)
        ↔ Serves eval_symlinks (handle_of o.metas) o.metas name o.layers a
  unfolding open_path guarded
  open_path-Serves a =
      rw (valid, plain) (resolve_from-Serves eval_symlinks (handle_of o.metas) o.metas name o a c h)

  -- For a valid name without a .git component, in an overlay whose cache is consistent and sound,
  -- `ReadFile` returns bytes exactly if they are what reading the file of the first layer that has
  -- the path gives, and that file passes the symlink check.
  pub read_file-Serves :
      (a : Text)
      → ((read_file eval_symlinks name o).0 ≡ ok a)
        ↔ Serves eval_symlinks (λ _ f. read_all f) o.metas name o.layers a
  unfolding read_file guarded
  read_file-Serves a =
      rw (valid, plain) (resolve_from-Serves eval_symlinks (λ _ f. read_all f) o.metas name o a c h)

-- A name that `Open` accepts passes the tests on names.
pub accepted :
    (eval_symlinks : Text → Result Text) (name : Text) (o : Overlay) (a : Handle)
    → (open_path eval_symlinks name o).0 ≡ ok a
    → (valid_path name ≡ true) × (has_git_component name ≡ false)
unfolding open_path guarded
accepted eval_symlinks name o a e = ground arith
