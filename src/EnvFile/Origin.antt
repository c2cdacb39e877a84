-- ===== src/EnvFile/Origin.antt =====
-- internal/envfile/envfile.go: where a secret comes from.
use blogflow.Base.{
  subst, sym, refl, ◌∙◌, ◌≡◌, ◌++◌, ◌≤◌, true, false, Option, none, some, arith, Option-cases, inl,
  inr,
}
use blogflow.Base.Text.{Text, codes, byte_len, trim_space}
use blogflow.EnvFile.{
  SecretInfo, SecretFile, Secret, unset, found, failed, max_secret_size, read_secret, read_regular,
  read_secret_file, non_empty, trimmed, read_env_or_file,
}

-- A regular file of bounded size that was read to its end, with its text.
pub record IsSecretFile (f : SecretFile) : Type 0 where
  pub stated : SecretInfo
  pub told : f.secret_info ≡ some stated
  pub regular : stated.is_regular ≡ true
  pub size_fits : stated.file_size ≤ max_secret_size
  pub text_fits : byte_len f.text ≤ max_secret_size
  pub sound : f.faulty ≡ false

read_regular-found :
    (info : SecretInfo) (f : SecretFile) (v : Text)
    → (read_regular info f).1 ≡ found v
    → (info.is_regular ≡ true)
      × (info.file_size ≤ max_secret_size)
      × (byte_len f.text ≤ max_secret_size)
      × (f.faulty ≡ false)
      × (f.text ≡ v)
unfolding read_regular read_secret
read_regular-found info f v h = ground arith

read_regular-IsSecretFile :
    (info : SecretInfo) (f : SecretFile)
    → info.is_regular ≡ true
    → info.file_size ≤ max_secret_size
    → byte_len f.text ≤ max_secret_size
    → f.faulty ≡ false
    → (read_regular info f).1 ≡ found f.text
unfolding read_regular read_secret
read_regular-IsSecretFile info f regular size text sound = ground arith

trimmed-found :
    (s : Secret) (v : Text) → trimmed s ≡ found v → (t : Text) × (s ≡ found t) × (trim_space t ≡ v)
trimmed-found unset v h = absurd (cc)
trimmed-found (found t) v h = (t, refl, cc)
trimmed-found (failed e) v h = absurd (cc)

module _ (open_file : Text → Option SecretFile) (lookup_env : Text → Option Text) (key : Text) where
  -- The _FILE variant wins where it is set.
  pub data Origin : Text → Type 0 where
    from_file :
        {path : Text} {f : SecretFile}
        → non_empty (lookup_env (key ++ codes "_FILE")) ≡ some path
        → open_file path ≡ some f
        → IsSecretFile f
        → Origin (trim_space f.text)
    from_env :
        {v : Text}
        → non_empty (lookup_env (key ++ codes "_FILE")) ≡ none
        → non_empty (lookup_env key) ≡ some v
        → Origin v

  read_secret_file-IsSecretFile :
      (path : Text) (f : SecretFile)
      → open_file path ≡ some f
      → IsSecretFile f
      → (read_secret_file open_file path).1 ≡ found f.text
  unfolding read_secret_file
  read_secret_file-IsSecretFile path f opened s =
      rw (opened, s.told, read_secret_file)
        (read_regular-IsSecretFile s.stated f s.regular s.size_fits s.text_fits s.sound)

  read_secret_file-found :
      (path t : Text)
      → (read_secret_file open_file path).1 ≡ found t
      → (f : SecretFile) × (open_file path ≡ some f) × IsSecretFile f × (f.text ≡ t)
  unfolding read_secret_file
  read_secret_file-found path t h = elim (Option-cases (open_file path)) [
    | inl e ↦ absurd (ground arith)
    | inr (f, e) ↦ elim (Option-cases f.secret_info) [
      | inl e2 ↦ absurd (ground arith)
      | inr (info, e2) ↦
          let (regular, size, text, sound, same) = read_regular-found info f t (ground arith) in
          (
            f,
            e,
            record {
              stated = info;
              told = e2;
              regular = regular;
              size_fits = size;
              text_fits = text;
              sound = sound;
            },
            same,
          )
    ]
  ]

  answers_file :
      (path : Text)
      → non_empty (lookup_env (key ++ codes "_FILE")) ≡ some path
      → (read_env_or_file open_file lookup_env key).1 ≡ trimmed (read_secret_file open_file path).1
  unfolding read_env_or_file
  answers_file path named = elim (Option-cases (non_empty (lookup_env key))) [
    | inl e ↦ rw (named, e, read_env_or_file)
    | inr (plain, e) ↦ rw (named, e, read_env_or_file)
  ]

  answers_plain :
      non_empty (lookup_env (key ++ codes "_FILE")) ≡ none
      → (v : Text) → non_empty (lookup_env key) ≡ some v
      → (read_env_or_file open_file lookup_env key).1 ≡ found v
  unfolding read_env_or_file
  answers_plain unnamed v e = rw (unnamed, e, read_env_or_file) refl

  found-Origin : (v : Text) → (read_env_or_file open_file lookup_env key).1 ≡ found v → Origin v
  unfolding read_env_or_file
  found-Origin v h = elim (Option-cases (non_empty (lookup_env (key ++ codes "_FILE")))) [
    | inl unnamed ↦ elim (Option-cases (non_empty (lookup_env key))) [
      | inl unset_plain ↦ absurd (ground arith)
      | inr (w, e) ↦ from_env unnamed (ground arith)
    ]
    | inr (path, named) ↦
        let (t, read, e) = trimmed-found _ v (sym (answers_file path named) ∙ h) in
        let (f, opened, whole, same) = read_secret_file-found path t read in
        subst Origin (cc) (from_file named opened whole)
  ]

  Origin-found : {v : Text} → Origin v → (read_env_or_file open_file lookup_env key).1 ≡ found v
  Origin-found (from_file named opened whole) =
      answers_file _ named ∙ rw (read_secret_file-IsSecretFile _ _ opened whole) refl
  Origin-found (from_env unnamed e) = answers_plain unnamed _ e

  -- `ReadEnvOrFile` returns a value if and only if it is the value of the variable, not empty, and the
  -- _FILE variant is unset or empty, or it is the trimmed text of the file that the _FILE variant
  -- names: a regular file within the limit and read to its end. So no fault of that file makes it fall
  -- back to the variable.
  pub read_env_or_file-Origin :
      (v : Text)
      → ((read_env_or_file open_file lookup_env key).1 ≡ found v → Origin v)
        × (Origin v → (read_env_or_file open_file lookup_env key).1 ≡ found v)
  read_env_or_file-Origin v = (found-Origin v, Origin-found)
