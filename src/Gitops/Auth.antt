-- ===== src/Gitops/Auth.antt =====
-- internal/gitops/auth.go: the credentials for git that the environment gives. `os.Stat` is an argument, as
-- the permission bits that it tells.
pub mod Usable
mod Tests
use blogflow.Base.{
  ℕ, ◌%◌, Bool, true, false, not, List, [], ◌∷◌, ◌&&◌, if◌then◌else◌, ◌==◌, nat_eq, Option, none,
  some,
}
use blogflow.Base.Text.{Text, codes, is_empty}
use blogflow.EnvFile.{Secret, unset, found, failed, SecretError, SecretFile, read_env_or_file}

pub data AuthMethod : Type 0 where
  auth_none auth_ssh auth_token : AuthMethod

pub record AuthConfig : Type 0 where
  pub method : AuthMethod
  pub ssh_key_path : Text
  pub token : Text

pub data AuthError : Type 0 where
  empty_path key_not_accessible unsafe_permissions empty_token : AuthError
  reading_token : SecretError → AuthError

pub data LoadedAuth : Type 0 where
  usable : AuthConfig → LoadedAuth
  unusable : AuthError → LoadedAuth

-- Some of the bits 0o077.
abbrev pub is_open_to_others : ℕ → Bool
is_open_to_others permissions = not (permissions % 64 == 0)

-- `os.Getenv`
abbrev pub getenv : (Text → Option Text) → Text → Text
getenv lookup_env name = elim (lookup_env name) [ none ↦ [] | some v ↦ v ]

abbrev pub no_auth : AuthConfig
no_auth = record { method = auth_none; ssh_key_path = []; token = [] }

module _ (stat : Text → Option ℕ) where
  unfoldable pub validate_key : Text → Option AuthError
  validate_key path = if is_empty path then some empty_path else elim (stat path) [
    | none ↦ some key_not_accessible
    | some permissions ↦ if is_open_to_others permissions then some unsafe_permissions else none
  ]

  -- `Validate`
  unfoldable pub validate : AuthConfig → Option AuthError
  unfolding validate_key
  validate a = elim a.method [
    | auth_ssh ↦ validate_key a.ssh_key_path
    | auth_token ↦ if is_empty a.token then some empty_token else none
    | auth_none ↦ none
  ]

  -- The result of `LoadAuthFromEnv` for a configuration with credentials.
  unfoldable pub checked : AuthConfig → LoadedAuth
  unfolding validate
  checked a = elim (validate a) [ none ↦ usable a | some e ↦ unusable e ]

  -- The token, when no key is named.
  unfoldable pub load_token : Secret → LoadedAuth
  unfolding checked
  load_token (failed e) = unusable (reading_token e)
  load_token unset = usable no_auth
  load_token (found t) =
      if is_empty t
      then usable no_auth
      else checked (record { method = auth_token; ssh_key_path = []; token = t })

  module _ (open_file : Text → Option SecretFile) (lookup_env : Text → Option Text) where
    -- `LoadAuthFromEnv`
    unfoldable pub load_auth_from_env : LoadedAuth
    unfolding load_token checked
    load_auth_from_env =
        let path = getenv lookup_env (codes "BLOGFLOW_GIT_SSH_KEY") in
        if is_empty path
        then load_token (read_env_or_file open_file lookup_env (codes "BLOGFLOW_GIT_TOKEN")).1
        else checked (record { method = auth_ssh; ssh_key_path = path; token = [] })
