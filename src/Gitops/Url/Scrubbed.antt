-- ===== src/Gitops/Url/Scrubbed.antt =====
-- internal/gitops/redact.go: what is left in the configuration of a repository after a scrub.
use blogflow.Base.{
  Bool, true, false, List, [], ◌∷◌, any, Option, none, some, ◌≡◌, refl, Bool-cases, Option-cases,
  inl, inr, arith, subst, sym,
}
use blogflow.Base.Text.{Text, is_some}
use blogflow.Gitops.Url.{
  ParsedUrl, split_http_credentials, scrub_urls, scrub_remotes, scrub_remote_credentials,
  has_persisted_credentials, is_http,
}

-- What is documented of `URL.String`: without a `User`, what it gives has none.
abbrev pub DropsUser : (Text → Option ParsedUrl) → Type 0
DropsUser parse =
    (raw : Text) (u v : ParsedUrl)
    → parse raw ≡ some u
    → parse u.without_user ≡ some v
    → v.user ≡ none

module _ (parse : Text → Option ParsedUrl) (drops : DropsUser parse) where
  abbrev holds : Text → Bool
  holds u = is_some (split_http_credentials parse u).1

  split_http_credentials-bare :
      (u : ParsedUrl)
      → ((v : ParsedUrl) → parse u.without_user ≡ some v → v.user ≡ none)
      → holds u.without_user ≡ false
  unfolding split_http_credentials
  split_http_credentials-bare u h = elim (Option-cases (parse u.without_user)) [
    | inl e ↦ rw (e, split_http_credentials) refl
    | inr (v, e) ↦ rw (e, h v e, split_http_credentials) refl
  ]

  unparsed : (raw : Text) → parse raw ≡ none → holds raw ≡ false
  unfolding split_http_credentials
  unparsed raw e = rw (e, split_http_credentials) refl

  -- Credentials are only found in a URL that goes on without its user.
  taken :
      (raw : Text) (u : ParsedUrl)
      → parse raw ≡ some u
      → holds raw ≡ true
      → (split_http_credentials parse raw).0 ≡ u.without_user
  unfolding split_http_credentials
  taken raw u e h = elim (Option-cases u.user) [
    | inl f ↦ absurd (ground arith)
    | inr (named, f) ↦ elim (Bool-cases (is_http u.url_scheme)) [
      | inl http ↦ rw (e, f, http, split_http_credentials) refl
      | inr other ↦ absurd (ground arith)
    ]
  ]

  split_http_credentials-clean :
      (raw : Text) → holds raw ≡ true → holds (split_http_credentials parse raw).0 ≡ false
  split_http_credentials-clean raw h = elim (Option-cases (parse raw)) [
    | inl e ↦ absurd (ground (arith, unparsed raw e))
    | inr (u, e) ↦
        subst (λ t. holds t ≡ false) (sym (taken raw u e h))
          (split_http_credentials-bare u (λ v f. drops raw u v e f))
  ]

  scrub_urls-clean :
      (urls : List Text)
      → (any holds (scrub_urls parse urls).0 ≡ false) × ((scrub_urls parse urls).1 ≡ any holds urls)
  unfolding scrub_urls
  scrub_urls-clean [] = (refl, refl)
  scrub_urls-clean (u ∷ urls) =
      let (clean, told) = scrub_urls-clean urls in
      elim (Bool-cases (holds u)) [
        | inl named ↦ rw (named, scrub_urls) (rw (split_http_credentials-clean u named) clean, refl)
        | inr bare ↦ rw (bare, scrub_urls) (rw bare clean, told)
      ]

  scrub_remotes-clean :
      (remotes : List (List Text))
      → (any (any holds) (scrub_remotes parse remotes).0 ≡ false)
        × ((scrub_remotes parse remotes).1 ≡ any (any holds) remotes)
  unfolding scrub_remotes
  scrub_remotes-clean [] = (refl, refl)
  scrub_remotes-clean (urls ∷ remotes) =
      let (clean, told) = scrub_urls-clean urls in
      let (cleans, tolds) = scrub_remotes-clean remotes in (ground arith, ground arith)

  -- After scrubRemoteCredentials no remote of the repository has an http URL with credentials, and its
  -- result tells whether one had them; url.URL.String of a URL without a user is taken to have none.
  pub scrub_remote_credentials-clean :
      (remotes : List (List Text))
      → (has_persisted_credentials parse (scrub_remote_credentials parse remotes).0 ≡ false)
        × ((scrub_remote_credentials parse remotes).1 ≡ has_persisted_credentials parse remotes)
  unfolding scrub_remote_credentials has_persisted_credentials
  scrub_remote_credentials-clean remotes =
      let (clean, told) = scrub_remotes-clean remotes in
      elim (Bool-cases (scrub_remotes parse remotes).1) [
        | inl changed ↦ rw (changed, scrub_remote_credentials) (clean, ground arith)
        | inr same ↦ rw (same, scrub_remote_credentials) (ground arith, ground arith)
      ]
