-- ===== src/Gitops/Credentials.antt =====
-- internal/gitops/redact.go, and the tests of URLs in pull.go: how the credentials in the URL of a
-- repository are kept out of logs and errors. `url.Parse` is an argument.
pub mod Redacted
mod Tests
use blogflow.Base.{
  ℕ, zero, suc, ◌+◌, Bool, true, false, ◌&&◌, ◌||◌, not, List, [], ◌∷◌, ◌++◌, leb, if◌then◌else◌,
  ◌==◌, nat_eq, list_eq, any, all, length, map, Option, none, some,
}
use mathlib.Core.Option
use blogflow.Base.Text.{Text, codes, is_empty, cut_prefix, is_some, trim_space, to_lower_ascii}

abbrev pub is_letter : ℕ → Bool
is_letter c = leb b'a' c && leb c b'z' || leb b'A' c && leb c b'Z'

abbrev pub is_scheme_char : ℕ → Bool
is_scheme_char c = is_letter c || leb b'0' c && leb c b'9' || c == b'+' || c == b'-' || c == b'.'

-- `validScheme`
unfoldable pub valid_scheme : Text → Bool
valid_scheme [] = false
valid_scheme (c ∷ s) = is_letter c && all is_scheme_char s

-- The first group of `userinfoPattern` after its first letter, with what follows it.
unfoldable pub scheme_tail : Text → Option (Text × Text)
unfolding cut_prefix
scheme_tail [] = none
scheme_tail (c ∷ s) = elim (cut_prefix (c ∷ s) (codes "://")) [
  | some rest ↦ some (codes "://", rest)
  | none ↦ if is_scheme_char c then Option.map (λ m. (c ∷ m.0, m.1)) (scheme_tail s) else none
]

-- What ends the userinfo: a slash, the end of a line or a quote.
abbrev pub is_stop : ℕ → Bool
is_stop c = c == b'/' || c == 13 || c == 10 || c == b'"'

-- The rest of the match of `userinfoPattern`, to the last `@` that it can reach, as a number of
-- characters. The flag tells that a backslash stands before.
unfoldable pub userinfo_end : Bool → Text → Option ℕ
userinfo_end escaped [] = none
userinfo_end true (c ∷ s) = if c == 10 then none else Option.map suc (userinfo_end false s)
userinfo_end false (c ∷ s) = elim (c == 92) [
  | true ↦ Option.map suc (userinfo_end true s)
  | false ↦
      let further = userinfo_end false s in
      if c == b'@'
      then some (elim further [ none ↦ 1 | some n ↦ suc n ])
      else if is_stop c
      then none
      else Option.map suc further
]

-- A match of `userinfoPattern` at the start: the text of its group, and how much else it takes.
unfoldable pub match_at : Text → Option (Text × ℕ)
unfolding scheme_tail userinfo_end
match_at [] = none
match_at (c ∷ s) =
    if is_letter c
    then elim (scheme_tail s) [
      | none ↦ none
      | some (group, rest) ↦
          Option.map (λ n. (c ∷ group, length group + n)) (userinfo_end false rest)
    ]
    else none

-- `ReplaceAllString`; the number tells how much of the text the last match has still to take.
unfoldable pub redact_from : ℕ → Text → Text
unfolding match_at
redact_from k [] = []
redact_from (suc k) (c ∷ s) = redact_from k s
redact_from zero (c ∷ s) = elim (match_at (c ∷ s)) [
  | none ↦ c ∷ redact_from 0 s
  | some (group, n) ↦ group ++ codes "[REDACTED]@" ++ redact_from n s
]

-- `redactCredentials`
unfoldable pub redact_credentials : Text → Text
unfolding redact_from
redact_credentials s = redact_from 0 s
