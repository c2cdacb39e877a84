-- ===== src/Gitops/Url.antt =====
-- internal/gitops/pull.go and redact.go: the URLs of repositories, and the credentials in them. `url.Parse`
-- is an argument.
pub mod Scrubbed
mod Tests
use blogflow.Base.{
  Bool, true, false, ◌&&◌, ◌||◌, not, List, [], ◌∷◌, ◌++◌, if◌then◌else◌, ◌==◌, nat_eq, list_eq,
  any, map, Option, none, some,
}
use blogflow.Base.Text.{Text, codes, is_empty, cut_prefix, is_some, trim_space, to_lower_ascii}
use blogflow.Gitops.Credentials.{valid_scheme, redact_credentials}

-- What is used of a `url.URL`: `String` after `User` is set to nil is `without_user`.
pub record ParsedUrl : Type 0 where
  pub url_scheme : Text
  pub user : Option (Text × Text)
  pub without_user : Text

-- `transport.AuthMethod`: the keys of a file, or a user's name and password.
pub data Auth : Type 0 where
  public_keys : Text → Auth
  basic_auth : Text × Text → Auth

-- `strings.Cut`
unfoldable pub cut : Text → Text → Option (Text × Text)
unfolding cut_prefix
cut [] sep = if is_empty sep then some ([], []) else none
cut (c ∷ s) sep = elim (cut_prefix (c ∷ s) sep) [
  | some rest ↦ some ([], rest)
  | none ↦ elim (cut s sep) [ none ↦ none | some (before, after) ↦ some (c ∷ before, after) ]
]

-- The text from the first of "/", "?" and "#", if there is one.
unfoldable pub after_authority : Text → Text
after_authority [] = []
after_authority (c ∷ s) = if c == b'/' || c == b'?' || c == b'#' then c ∷ s else after_authority s

abbrev pub is_http : Text → Bool
is_http scheme = (let s = map to_lower_ascii scheme in s == codes "http" || s == codes "https")

module _ (parse : Text → Option ParsedUrl) where
  -- `ambiguousSchemeURL`
  unfoldable pub ambiguous_scheme_url : Text → Option Text
  unfolding cut after_authority trim_space valid_scheme
  ambiguous_scheme_url raw = elim (cut (trim_space raw) (codes "://")) [
    | none ↦ none
    | some (scheme, rest) ↦
        if not (valid_scheme scheme)
        then none
        else if not (is_some (parse (trim_space raw)))
        then some scheme
        else if any (λ c. c == b'@') (after_authority rest)
        then some scheme
        else none
  ]

  -- `checkRepoURL`: whether it gives no error.
  unfoldable pub check_repo_url : Text → Bool
  unfolding ambiguous_scheme_url
  check_repo_url raw = not (is_some (ambiguous_scheme_url raw))

  -- `SanitizeURL`
  unfoldable pub sanitize_url : Text → Text
  unfolding ambiguous_scheme_url redact_credentials
  sanitize_url raw = elim (ambiguous_scheme_url raw) [
    | some scheme ↦ scheme ++ codes "://[unparseable URL redacted]"
    | none ↦ elim (parse raw) [
      | none ↦ redact_credentials raw
      | some u ↦ if is_some u.user then u.without_user else raw
    ]
  ]

  -- `splitHTTPCredentials`
  unfoldable pub split_http_credentials : Text → Text × Option Auth
  split_http_credentials raw = elim (parse raw) [
    | none ↦ (raw, none)
    | some u ↦ elim u.user [
      | none ↦ (raw, none)
      | some named ↦
          if is_http u.url_scheme then (u.without_user, some (basic_auth named)) else (raw, none)
    ]
  ]

  -- `resolveRemote`
  unfoldable pub resolve_remote : Option Auth → Text → Text × Option Auth
  unfolding split_http_credentials
  resolve_remote configured raw =
      let (clean_url, url_auth) = split_http_credentials raw in
      if is_some configured || not (is_some url_auth)
      then (clean_url, configured)
      else (clean_url, url_auth)

  -- The loops of `scrubRemoteCredentials`, and whether they changed a URL.
  unfoldable pub scrub_urls : List Text → List Text × Bool
  unfolding split_http_credentials
  scrub_urls [] = ([], false)
  scrub_urls (u ∷ urls) =
      let (scrubbed, changed) = scrub_urls urls in
      let (clean_url, url_auth) = split_http_credentials u in
      if is_some url_auth then (clean_url ∷ scrubbed, true) else (u ∷ scrubbed, changed)

  unfoldable pub scrub_remotes : List (List Text) → List (List Text) × Bool
  unfolding scrub_urls
  scrub_remotes [] = ([], false)
  scrub_remotes (urls ∷ remotes) =
      let (left, changed) = scrub_remotes remotes in
      let (scrubbed, some_changed) = scrub_urls urls in (scrubbed ∷ left, some_changed || changed)

  -- `scrubRemoteCredentials`, for a configuration that is read and stored without a fault.
  unfoldable pub scrub_remote_credentials : List (List Text) → List (List Text) × Bool
  unfolding scrub_remotes
  scrub_remote_credentials remotes =
      let (scrubbed, changed) = scrub_remotes remotes in
      if changed then (scrubbed, true) else (remotes, false)

  -- `hasPersistedCredentials`
  unfoldable pub has_persisted_credentials : List (List Text) → Bool
  unfolding split_http_credentials
  has_persisted_credentials remotes =
      any (λ urls. any (λ u. is_some (split_http_credentials u).1) urls) remotes
