-- ===== src/Gitops/Auth/Tests.antt =====
-- Runs of `LoadAuthFromEnv` (internal/gitops/auth.go), and its theorem at a small input.
use blogflow.Base.{
  false, true, ◌≡◌, refl, ℕ, [], ◌==◌, list_eq, nat_eq, list_beq, Option, none, some, if◌then◌else◌,
}
use blogflow.Base.Text.{trim_space, Text, codes}
use blogflow.EnvFile.{SecretFile, read_env_or_file, read_secret_file, read_regular, read_secret}
use blogflow.Gitops.Auth.{
  AuthConfig, auth_none, auth_ssh, usable, unusable, unsafe_permissions, validate, no_auth, getenv,
  load_auth_from_env,
}
use blogflow.Gitops.Auth.Usable.{IsBlank, load_auth_from_env-usable}

abbrev key_only : Text → Option ℕ
key_only path = if path == codes "/key" then some 384 else some 420

abbrev empty_file : Text → Option SecretFile
empty_file path = some (record {
  secret_info = some (record { is_regular = true; permissions = 384; file_size = 0 });
  text = [];
  faulty = false;
})

abbrev with_key : Text → Option Text
with_key name = if name == codes "BLOGFLOW_GIT_SSH_KEY" then some (codes "/key") else none

abbrev with_open_key : Text → Option Text
with_open_key name = if name == codes "BLOGFLOW_GIT_SSH_KEY" then some (codes "/open") else none

-- The file that should hold the token is empty.
abbrev with_empty_token : Text → Option Text
with_empty_token name =
    if name == codes "BLOGFLOW_GIT_TOKEN_FILE" then some (codes "/token") else none

abbrev key_auth : AuthConfig
key_auth = record { method = auth_ssh; ssh_key_path = codes "/key"; token = [] }

loads_key : load_auth_from_env key_only empty_file with_key ≡ usable key_auth
unfolding load_auth_from_env list_beq
loads_key = refl

refuses_open_key :
    load_auth_from_env key_only empty_file with_open_key ≡ unusable unsafe_permissions
unfolding load_auth_from_env list_beq
refuses_open_key = refl

empty_token_is_no_error : load_auth_from_env key_only empty_file with_empty_token ≡ usable no_auth
unfolding load_auth_from_env list_beq read_env_or_file read_secret_file read_regular read_secret
    trim_space
empty_token_is_no_error = refl

load_auth_from_env-usable_example :
    (validate key_only key_auth ≡ none)
    × (key_auth.method ≡ auth_none
        → (getenv with_key (codes "BLOGFLOW_GIT_SSH_KEY") ≡ [])
          × IsBlank (read_env_or_file empty_file with_key (codes "BLOGFLOW_GIT_TOKEN")).1)
load_auth_from_env-usable_example =
    load_auth_from_env-usable key_only empty_file with_key key_auth loads_key
