-- ===== src/Gitops/Url/Tests.antt =====
-- Runs of the functions on URLs of internal/gitops.
use blogflow.Base.{
  ◌≡◌, refl, [], ◌∷◌, ◌==◌, list_eq, nat_eq, Option, none, some, if◌then◌else◌, true, false,
  list_beq,
}
use blogflow.Base.Text.{Text, codes}
use blogflow.Gitops.Url.{
  ParsedUrl, check_repo_url, sanitize_url, resolve_remote, public_keys, basic_auth,
  scrub_remote_credentials,
}

abbrev with_user : Text
with_user = codes "https://u:p@h/r"

abbrev bare : Text
bare = codes "https://h/r"

abbrev parse_small : Text → Option ParsedUrl
parse_small s =
    if s == with_user
    then some (record {
      url_scheme = codes "HTTPS";
      user = some (codes "u", codes "p");
      without_user = bare;
    })
    else some (record { url_scheme = codes "https"; user = none; without_user = s })

secret_in_path : check_repo_url parse_small (codes " https://u:12/SECRET@host") ≡ false
unfolding check_repo_url list_beq
secret_in_path = refl

scp_style : check_repo_url parse_small (codes "git@host:org/repo") ≡ true
unfolding check_repo_url list_beq
scp_style = refl

sanitized : sanitize_url parse_small with_user ≡ bare
unfolding sanitize_url list_beq
sanitized = refl

embedded :
    resolve_remote parse_small none with_user ≡ (bare, some (basic_auth (codes "u", codes "p")))
unfolding resolve_remote list_beq
embedded = refl

configured_wins :
    resolve_remote parse_small (some (public_keys (codes "k"))) with_user
    ≡ (bare, some (public_keys (codes "k")))
unfolding resolve_remote list_beq
configured_wins = refl

scrubs :
    scrub_remote_credentials parse_small ((bare ∷ with_user ∷ []) ∷ [])
    ≡ ((bare ∷ bare ∷ []) ∷ [], true)
unfolding scrub_remote_credentials list_beq
scrubs = refl
