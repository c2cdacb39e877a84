-- ===== src/Config/Scan.antt =====
-- internal/config/loader.go: the scans of the raw YAML before it is parsed. A regular expression of
-- `secretPatterns` is a function that tells whether it matches.
pub mod Anchors
pub mod Patterns
use blogflow.Base.{
  ℕ, zero, suc, ◌-◌, Bool, true, false, ◌&&◌, ◌||◌, not, List, [], ◌∷◌, ◌++◌, leb, if◌then◌else◌,
  ◌==◌, list_eq, nat_eq, any, map, Option, none, some,
}
use blogflow.Base.Text.{
  Text, codes, is_empty, cut_prefix, has_prefix, contains, split, trim_space, to_lower_ascii,
}

-- `isWordChar`, and the class `\w`.
unfoldable pub is_word_char : ℕ → Bool
is_word_char c =
    (leb b'a' c && leb c b'z')
    || (leb b'A' c && leb c b'Z')
    || (leb b'0' c && leb c b'9')
    || c == b'_'

alphanumeric : ℕ → Bool
alphanumeric c =
    (leb b'a' c && leb c b'z') || (leb b'A' c && leb c b'Z') || (leb b'0' c && leb c b'9')

upper_or_digit : ℕ → Bool
upper_or_digit c = (leb b'A' c && leb c b'Z') || (leb b'0' c && leb c b'9')

-- The class `\s`, and `\w` where the expression folds case: two letters beyond ASCII fold to s and k.
pattern_space : ℕ → Bool
pattern_space c = c == 9 || c == 10 || c == 12 || c == 13 || c == 32

folded_word : ℕ → Bool
unfolding is_word_char
folded_word c = is_word_char c || c == 383 || c == 8490

fold : ℕ → ℕ
fold c = if c == 383 then b's' else if c == 8490 then b'k' else to_lower_ascii c

-- The text starts with `n` characters of the class.
begins_with : ℕ → (ℕ → Bool) → Text → Bool
begins_with zero class s = true
begins_with (suc n) class [] = false
begins_with (suc n) class (c ∷ s) = class c && begins_with n class s

-- The prefix of the text in the class, and the rest.
span : (ℕ → Bool) → Text → Text × Text
span class [] = ([], [])
span class (c ∷ s) =
    let (front, rest) = span class s in if class c then (c ∷ front, rest) else ([], c ∷ s)

-- An expression matches if it matches at some place.
somewhere : (Text → Bool) → Text → Bool
somewhere here [] = here []
somewhere here (c ∷ s) = here (c ∷ s) || somewhere here s

-- A literal, then at least `n` characters of a class.
literal_token : Text → ℕ → (ℕ → Bool) → Text → Bool
unfolding somewhere cut_prefix begins_with
literal_token literal n class =
    somewhere
      λ s. elim (cut_prefix s literal) [ none ↦ false | some rest ↦ begins_with n class rest ]

-- `.*` stops at the end of a line.
on_this_line : (Text → Bool) → Text → Bool
on_this_line here [] = here []
on_this_line here (c ∷ s) = here (c ∷ s) || (not (c == 10) && on_this_line here s)

private_key : Text → Bool
unfolding somewhere cut_prefix on_this_line has_prefix
private_key = somewhere λ s. elim (cut_prefix s (codes "-----BEGIN")) [
  | none ↦ false
  | some rest ↦ on_this_line (λ t. has_prefix t (codes "PRIVATE KEY-----")) rest
]

placeholder : Text → Bool
unfolding somewhere cut_prefix span is_word_char has_prefix
placeholder = somewhere λ s. elim (cut_prefix s (codes "${BLOGFLOW_")) [
  | none ↦ false
  | some rest ↦
      let (name, after) = span is_word_char rest in
      not (is_empty name) && has_prefix after (codes "}")
]

keywords : List Text
keywords =
    codes "password"
    ∷ codes "secret"
    ∷ codes "token"
    ∷ codes "credential"
    ∷ codes "apikey"
    ∷ codes "api_key"
    ∷ []

-- At the start of a line: spaces, a word with a keyword in it, a colon and a value.
sensitive_here : Text → Bool
unfolding span pattern_space folded_word fold contains keywords has_prefix
sensitive_here s =
    let (_, at_word) = span pattern_space s in
    let (word, after) = span folded_word at_word in
    let (_, at_colon) = span pattern_space after in
    any (λ k. contains (map fold word) k) keywords && elim (cut_prefix at_colon (codes ":")) [
      | none ↦ false
      | some value ↦ let (_, rest) = span pattern_space value in not (is_empty rest)
    ]

sensitive_from : Bool → Text → Bool
unfolding sensitive_here
sensitive_from at_start [] = false
sensitive_from at_start (c ∷ s) = (at_start && sensitive_here (c ∷ s)) || sensitive_from (c == 10) s

-- `secretPatterns`
abbrev pub secret_patterns : List (Text → Bool)
unfolding literal_token private_key placeholder contains sensitive_from alphanumeric upper_or_digit
secret_patterns =
    literal_token (codes "ghp_") 36 alphanumeric
    ∷ literal_token (codes "gho_") 1 alphanumeric
    ∷ literal_token (codes "ghu_") 1 alphanumeric
    ∷ literal_token (codes "ghs_") 1 alphanumeric
    ∷ literal_token (codes "ghr_") 1 alphanumeric
    ∷ literal_token (codes "github_pat_") 1 alphanumeric
    ∷ literal_token (codes "glpat-") 1 alphanumeric
    ∷ literal_token (codes "xoxb-") 1 alphanumeric
    ∷ literal_token (codes "xoxp-") 1 alphanumeric
    ∷ literal_token (codes "sk-") 20 alphanumeric
    ∷ private_key
    ∷ literal_token (codes "AKIA") 16 upper_or_digit
    ∷ placeholder
    ∷ (λ s. contains s (codes "dsn://"))
    ∷ (λ s. contains s (codes "postgres://"))
    ∷ (λ s. contains s (codes "mysql://"))
    ∷ (λ s. contains s (codes "redis://"))
    ∷ sensitive_from true
    ∷ []

first_match : List (Text → Bool) → ℕ → Text → Option ℕ
first_match [] i s = none
first_match (p ∷ ps) i s = let later = first_match ps (suc i) s in if p s then some i else later

-- `scanForSecrets`: the number of the first expression that matches.
unfoldable pub scan_for_secrets : Text → Option ℕ
unfolding first_match secret_patterns
scan_for_secrets = first_match secret_patterns 0

pub data Marker : Type 0 where
  anchor alias : Marker

-- Inside which quotes the walk stands.
pub data Quote : Type 0 where
  bare single double : Quote

abbrev pub may_precede : Option ℕ → Bool
may_precede none = true
may_precede (some c) = c == b' ' || c == 9 || c == b':'

abbrev pub may_follow : Text → Bool
unfolding is_word_char
may_follow [] = false
may_follow (c ∷ s) = is_word_char c

-- The two toggles of the walk, by the character.
abbrev pub turn : Quote → ℕ → Quote
turn bare c = if c == 39 then single else if c == 34 then double else bare
turn single c = if c == 39 then bare else single
turn double c = if c == 34 then bare else double

abbrev pub is_bare : Quote → Bool
is_bare bare = true
is_bare _ = false

-- The walk through a line: the state of the quotes, the character before, and what is to come.
unfoldable pub walk_line : Quote → Option ℕ → Text → Option Marker
unfolding may_follow
walk_line q prev [] = none
walk_line q prev (c ∷ s) =
    let onward = walk_line (turn q c) (some c) s in
    if is_bare q && (c == b'&' || c == b'*') && may_precede prev && may_follow s
    then some (if c == b'*' then alias else anchor)
    else onward

unfoldable pub is_skipped : Text → Bool
is_skipped [] = true
is_skipped (c ∷ s) = c == b'#'

unfoldable pub scan_lines : List Text → Option Marker
unfolding walk_line is_skipped
scan_lines [] = none
scan_lines (line ∷ lines) =
    let later = scan_lines lines in
    let stripped = trim_space line in
    if is_skipped stripped
    then later
    else elim (walk_line bare none stripped) [ some m ↦ some m | none ↦ later ]

-- `scanForAnchorsAliases`
unfoldable pub scan_for_anchors_aliases : Text → Option Marker
unfolding scan_lines
scan_for_anchors_aliases s = scan_lines (split s 10)
