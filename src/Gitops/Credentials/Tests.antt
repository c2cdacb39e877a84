-- ===== src/Gitops/Credentials/Tests.antt =====
-- Runs of the redaction of internal/gitops/redact.go, and its theorem at a small input.
use blogflow.Base.{◌≡◌, refl, ◌∷◌, ◌++◌}
use blogflow.Base.Text.{codes}
use blogflow.Gitops.Credentials.{redact_credentials, valid_scheme}
use blogflow.Gitops.Credentials.Redacted.{redact_credentials-independent}

at_in_password :
    redact_credentials (codes "https://u:p@ss w@host/x") ≡ codes "https://[REDACTED]@host/x"
unfolding redact_credentials
at_in_password = refl

slash_first :
    redact_credentials (codes "https://host/a@b ssh://k@h")
    ≡ codes "https://host/a@b ssh://[REDACTED]@h"
unfolding redact_credentials
slash_first = refl

escaped_quote : redact_credentials (codes "s://a\\\"b@h") ≡ codes "s://[REDACTED]@h"
unfolding redact_credentials
escaped_quote = refl

redact_credentials-independent_example :
    redact_credentials (
      codes "Get "
      ++ (codes "https" ++ (codes "://" ++ (codes "u:s3cret" ++ b'@' ∷ codes "host/x"))))
    ≡ redact_credentials (
        codes "Get "
        ++ (codes "https" ++ (codes "://" ++ (codes "anyone" ++ b'@' ∷ codes "host/x"))))
unfolding valid_scheme
redact_credentials-independent_example =
    redact_credentials-independent (codes "Get ") (codes "https") (codes "host/x")
      (codes "u:s3cret") (codes "anyone") (refl, (refl, (refl, (refl, tt)))) refl
      (
        (refl, refl),
        (
          (refl, refl),
          (
            (refl, refl),
            ((refl, refl), ((refl, refl), ((refl, refl), ((refl, refl), ((refl, refl), tt))))),
          ),
        ),
      )
      (
        (refl, refl),
        ((refl, refl), ((refl, refl), ((refl, refl), ((refl, refl), ((refl, refl), tt))))),
      )
