-- ===== src/Config/Scan/Patterns.antt =====
-- internal/config/loader.go: a text that `scanForSecrets` passes matches none of the patterns.
use blogflow.Base.{◌≡◌, false, suc, ℕ, Bool, List, [], ◌∷◌, none, inl, inr, All, Bool-cases}
use blogflow.Base.Text.{Text}
use blogflow.Config.Scan.{secret_patterns, first_match, scan_for_secrets}

-- None of the patterns for secrets matches.
abbrev pub HasNoSecret : Text → Type 0
HasNoSecret s = All (λ matches. matches s ≡ false) secret_patterns

first_match-none :
    (ps : List (Text → Bool)) (i : ℕ) (s : Text)
    → first_match ps i s ≡ none
    → All (λ matches. matches s ≡ false) ps
unfolding first_match
first_match-none [] i s h = tt
first_match-none (p ∷ ps) i s h = elim (Bool-cases (p s)) [
  | inl found ↦ absurd (cc (rw found at h))
  | inr other ↦ (other, first_match-none ps (suc i) s (rw other at h))
]

pub scan_for_secrets-HasNoSecret : (s : Text) → scan_for_secrets s ≡ none → HasNoSecret s
unfolding scan_for_secrets
scan_for_secrets-HasNoSecret s h = first_match-none secret_patterns 0 s h
