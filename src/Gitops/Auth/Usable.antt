-- ===== src/Gitops/Auth/Usable.antt =====
-- internal/gitops/auth.go: what `LoadAuthFromEnv` returns can be used.
use blogflow.Base.{
  Bool-cases, false, true, refl, ◌∷◌, if◌then◌else◌, subst, ℕ, [], Option, none, ◌≡◌, inl, inr,
  Option-cases, arith,
}
use blogflow.Base.Text.{codes, is_empty, Text}
use blogflow.EnvFile.{read_env_or_file, SecretFile, Secret, unset, found, failed}
use blogflow.Gitops.Auth.{
  auth_ssh, getenv, auth_token, auth_none, load_auth_from_env, load_token, LoadedAuth, no_auth,
  AuthConfig, usable, validate, checked,
}

-- No secret, or an empty one.
abbrev pub IsBlank : Secret → Type 0
IsBlank unset = Unit {0}
IsBlank (found t) = t ≡ []
IsBlank (failed e) = ⊥

usable_unique : (a b : AuthConfig) → usable a ≡ usable b → a ≡ b
usable_unique a b h = cc

without :
    (path : Text) (l m n : LoadedAuth)
    → is_empty path ≡ true
    → (if is_empty path then l else m) ≡ n
    → l ≡ n
without path l m n e h = ground (arith, e, h)

with_key :
    (path : Text) (l m n : LoadedAuth)
    → is_empty path ≡ false
    → (if is_empty path then l else m) ≡ n
    → m ≡ n
with_key path l m n e h = ground (arith, e, h)

module _ (stat : Text → Option ℕ) where
  checked-usable :
      (a b : AuthConfig)
      → checked stat a ≡ usable b
      → (validate stat b ≡ none) × (b.method ≡ a.method)
  unfolding checked
  checked-usable a b h = elim (Option-cases (validate stat a)) [
    | inl e ↦ (ground arith, ground arith)
    | inr (e, f) ↦ absurd (ground arith)
  ]

  nothing_to_check : validate stat no_auth ≡ none
  unfolding validate
  nothing_to_check = refl

  load_token-usable :
      (secret : Secret) (a : AuthConfig)
      → load_token stat secret ≡ usable a
      → (validate stat a ≡ none) × (a.method ≡ auth_none → IsBlank secret)
  unfolding load_token
  load_token-usable (failed e) a h = absurd (cc)
  load_token-usable unset a h =
      subst (λ b. (validate stat b ≡ none) × (b.method ≡ auth_none → Unit {0}))
        (usable_unique no_auth a h) (nothing_to_check, λ n. tt)
  load_token-usable (found []) a h =
      subst (λ b. (validate stat b ≡ none) × (b.method ≡ auth_none → IsBlank (found [])))
        (usable_unique no_auth a h) (nothing_to_check, λ n. refl)
  load_token-usable (found (c ∷ t)) a h =
      let (valid, same) =
        checked-usable (record { method = auth_token; ssh_key_path = []; token = c ∷ t }) a h in
      (valid, λ n. absurd (cc (n, same)))

  module _ (open_file : Text → Option SecretFile) (lookup_env : Text → Option Text) where
    -- When LoadAuthFromEnv succeeds, what it returns passes Validate, and it is without credentials only
    -- when no SSH key is named and no token is set or the token is empty.
    pub load_auth_from_env-usable :
        (a : AuthConfig)
        → load_auth_from_env stat open_file lookup_env ≡ usable a
        → (validate stat a ≡ none)
          × (a.method ≡ auth_none
              → (getenv lookup_env (codes "BLOGFLOW_GIT_SSH_KEY") ≡ [])
                × IsBlank (read_env_or_file open_file lookup_env (codes "BLOGFLOW_GIT_TOKEN")).1)
    unfolding load_auth_from_env
    load_auth_from_env-usable a h =
        let path = getenv lookup_env (codes "BLOGFLOW_GIT_SSH_KEY") in
        elim (Bool-cases (is_empty path)) [
          | inl unnamed ↦
              let (valid, blank) =
                load_token-usable
                  (read_env_or_file open_file lookup_env (codes "BLOGFLOW_GIT_TOKEN")).1 a
                  (without path _ _ (usable a) unnamed h) in
              (valid, λ n. (ground (arith, unnamed), blank n))
          | inr named ↦
              let (valid, same) =
                checked-usable (record { method = auth_ssh; ssh_key_path = path; token = [] }) a
                  (with_key path _ _ (usable a) named h) in
              (valid, λ n. absurd (cc (n, same)))
        ]
