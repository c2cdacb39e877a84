-- ===== src/EnvFile.antt =====
-- internal/envfile/envfile.go: a secret from an environment variable, or from the file that its _FILE
-- variant names. The environment and the file system are arguments; a file holds UTF-8 text.
pub mod Origin
mod Tests
use blogflow.Base.{
  nat_eq, ◌==◌, ℕ, ◌+◌, ◌*◌, ◌/◌, ◌%◌, Bool, true, false, List, [], ◌∷◌, ◌++◌, ltb, if◌then◌else◌,
  not, ◌&&◌, Option, none, some,
}
use blogflow.Base.Text.{byte_len, Text, codes, is_empty, trim_space}

-- What `Fstat` tells.
pub record SecretInfo : Type 0 where
  pub is_regular : Bool
  pub permissions : ℕ
  pub file_size : ℕ

-- An open file: its text up to the end or a fault of the reader.
pub record SecretFile : Type 0 where
  pub secret_info : Option SecretInfo
  pub text : Text
  pub faulty : Bool

pub data SecretError : Type 0 where
  open_failed : SecretError
  stat_failed : SecretError
  not_regular : SecretError
  file_too_large : SecretError
  read_failed : SecretError

pub data Warning : Type 0 where
  both_set : Warning
  world_readable : Warning

-- ("", false, nil), (value, true, nil) and ("", false, err).
pub data Secret : Type 0 where
  unset : Secret
  found : Text → Secret
  failed : SecretError → Secret

abbrev pub max_secret_size : ℕ
max_secret_size = 1_048_576

abbrev pub readable_by_others : SecretInfo → Bool
readable_by_others info = (info.permissions / 4) % 2 == 1

-- The end of `readSecretFile`: the bounded read. A fault behind the limit is not met.
unfoldable pub read_secret : SecretFile → Secret
read_secret f =
    if ltb max_secret_size (byte_len f.text)
    then failed file_too_large
    else if f.faulty
    then failed read_failed
    else found f.text

-- `readSecretFile` behind `Fstat`.
unfoldable pub read_regular : SecretInfo → SecretFile → List Warning × Secret
read_regular info f =
    if not info.is_regular
    then ([], failed not_regular)
    else let warnings = if readable_by_others info then world_readable ∷ [] else [] in
      if ltb max_secret_size info.file_size
      then (warnings, failed file_too_large)
      else (warnings, read_secret f)

-- `set && value != ""` on a variable.
abbrev pub non_empty : Option Text → Option Text
non_empty none = none
non_empty (some v) = if is_empty v then none else some v

abbrev pub trimmed : Secret → Secret
trimmed unset = unset
trimmed (found v) = found (trim_space v)
trimmed (failed e) = failed e

module _ (open_file : Text → Option SecretFile) where
  unfoldable pub read_secret_file : Text → List Warning × Secret
  read_secret_file path = elim (open_file path) [
    | none ↦ ([], failed open_failed)
    | some f ↦ elim f.secret_info [
      | none ↦ ([], failed stat_failed)
      | some info ↦ read_regular info f
    ]
  ]

  -- `ReadEnvOrFile`, with the warnings it logs.
  unfoldable pub read_env_or_file : (Text → Option Text) → Text → List Warning × Secret
  read_env_or_file lookup_env key = elim (non_empty (lookup_env (key ++ codes "_FILE"))) [
    | none ↦ elim (non_empty (lookup_env key)) [ none ↦ ([], unset) | some v ↦ ([], found v) ]
    | some path ↦
        let (warnings, secret) = read_secret_file path in
        elim (non_empty (lookup_env key)) [
          | none ↦ (warnings, trimmed secret)
          | some _ ↦ (both_set ∷ warnings, trimmed secret)
        ]
  ]
