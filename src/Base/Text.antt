-- ===== src/Base/Text.antt =====
-- Text as a list of numbers, and the functions of Go's `strings` package that the program calls.
-- A number is a byte or a code point, as the module that uses it says.
use Prim.Native.Nat.{ℕ, suc, ◌+◌}
use Prim.Native.Char.{code}
use Prim.Native.String.{String}
use mathlib.Core.Bool.{Bool, true, false, ◌&&◌, ◌||◌}
use mathlib.Core.List.{List, [], ◌∷◌, ◌++◌}
use mathlib.Core.Option.{Option, none, some}
use mathlib.Core.Option
use mathlib.Core.Path.{◌≡◌, refl}
use mathlib.Core.Logic.{◌↔◌}
use native.Mathlib.Omega.{arith}
use blogflow.Base.Tests.{list_beq, list_eq, ltb, leb, nat_eq, ◌==◌, if◌then◌else◌}

abbrev pub Text : Type 0
Text = List ℕ

-- A literal of the source, as its code points.
abbrev pub codes : String → Text
codes String.[] = []
codes (String.◌∷◌ letter more) = code letter ∷ codes more

abbrev pub is_empty {ℓ} : {A : Type ℓ} → List A → Bool
is_empty [] = true
is_empty (_ ∷ _) = false

-- `strings.CutPrefix`, and with it `HasPrefix` and `TrimPrefix`.
unfoldable pub cut_prefix : Text → Text → Option Text
cut_prefix s [] = some s
cut_prefix [] (p ∷ ps) = none
cut_prefix (c ∷ s) (p ∷ ps) = if c == p then cut_prefix s ps else none

pub cut_prefix_iff : (s p r : Text) → (cut_prefix s p ≡ some r) ↔ (s ≡ p ++ r)
unfolding cut_prefix
cut_prefix_iff s [] r = ground arith
cut_prefix_iff [] (c ∷ p) r = ground arith
cut_prefix_iff (d ∷ s) (c ∷ p) r = ground (arith, cut_prefix_iff s p r)

abbrev pub is_some {ℓ} : {A : Type ℓ} → Option A → Bool
is_some none = false
is_some (some _) = true

unfoldable pub has_prefix : Text → Text → Bool
unfolding cut_prefix
has_prefix s p = is_some (cut_prefix s p)

-- `strings.Index`
unfoldable pub index : Text → Text → Option ℕ
unfolding has_prefix
index [] p = if is_empty p then some 0 else none
index (c ∷ s) p = if has_prefix (c ∷ s) p then some 0 else Option.map suc (index s p)

unfoldable pub contains : Text → Text → Bool
unfolding index
contains s p = is_some (index s p)

-- `strings.Split` at one byte: there is always at least one part.
unfoldable pub split_from : ℕ → Text → Text → List Text
split_from sep cur [] = cur ∷ []
split_from sep cur (c ∷ s) =
    let closed = cur ∷ split_from sep [] s in
    let longer = split_from sep (cur ++ c ∷ []) s in if c == sep then closed else longer

unfoldable pub split : Text → ℕ → List Text
unfolding split_from
split s sep = split_from sep [] s

-- `strings.ToLower` on ASCII letters.
abbrev pub to_lower_ascii : ℕ → ℕ
to_lower_ascii c = if leb b'A' c && leb c b'Z' then c + 32 else c

-- `unicode.IsSpace`, on code points.
unfoldable pub is_space : ℕ → Bool
is_space c =
    (leb 9 c && leb c 13)
    || c == 32
    || c == 133
    || c == 160
    || c == 5760
    || (leb 8192 c && leb c 8202)
    || c == 8232
    || c == 8233
    || c == 8239
    || c == 8287
    || c == 12288

unfoldable pub trim_left : Text → Text
unfolding is_space
trim_left [] = []
trim_left (c ∷ s) = if is_space c then trim_left s else c ∷ s

unfoldable pub trim_right : Text → Text
unfolding is_space
trim_right [] = []
trim_right (c ∷ s) = let rest = trim_right s in if is_empty rest && is_space c then [] else c ∷ rest

-- `strings.TrimSpace`
unfoldable pub trim_space : Text → Text
unfolding trim_left trim_right
trim_space s = trim_right (trim_left s)

-- `<` on Go strings: the order of their bytes, and with it the order of the code points.
unfoldable pub text_lt : Text → Text → Bool
text_lt s [] = false
text_lt [] (d ∷ t) = true
text_lt (c ∷ s) (d ∷ t) = if ltb c d then true else if c == d then text_lt s t else false

pub text_lt_total : (s t : Text) → (s == t) ≡ false → text_lt s t ≡ false → text_lt t s ≡ true
unfolding text_lt list_beq
text_lt_total [] [] differ h = cc
text_lt_total [] (d ∷ t) differ h = absurd (cc)
text_lt_total (c ∷ s) [] differ h = refl
text_lt_total (c ∷ s) (d ∷ t) differ h = ground (arith, text_lt_total s t)

text_lt_nil : (s : Text) → text_lt s [] ≡ false
unfolding text_lt
text_lt_nil [] = refl
text_lt_nil (c ∷ s) = refl

pub text_lt_asymmetric : (s t : Text) → text_lt s t ≡ true → text_lt t s ≡ false
unfolding text_lt
text_lt_asymmetric s [] h = absurd (cc)
text_lt_asymmetric [] (d ∷ t) h = refl
text_lt_asymmetric (c ∷ s) (d ∷ t) h = ground (arith, text_lt_asymmetric s t)

-- A text that is not before a second one, which is not before a third, is not before the third.
pub text_lt_transitive :
    (s t u : Text) → text_lt t s ≡ false → text_lt u t ≡ false → text_lt u s ≡ false
unfolding text_lt
text_lt_transitive [] t u h k = text_lt_nil u
text_lt_transitive (c ∷ s) [] u h k = absurd (cc)
text_lt_transitive (c ∷ s) (d ∷ t) [] h k = absurd (cc)
text_lt_transitive (c ∷ s) (d ∷ t) (e ∷ u) h k = ground (arith, text_lt_transitive s t u)

-- `len` of a Go string, in UTF-8.
abbrev pub rune_len : ℕ → ℕ
rune_len r = if ltb r 128 then 1 else if ltb r 2048 then 2 else if ltb r 65_536 then 3 else 4

abbrev pub byte_len : Text → ℕ
byte_len [] = 0
byte_len (r ∷ s) = rune_len r + byte_len s

-- `unicode.ToLower` where a text is compared with one in ASCII: two code points beyond ASCII have an
-- ASCII letter for their lower case.
abbrev pub to_lower_name : ℕ → ℕ
to_lower_name c = if c == 304 then b'i' else if c == 8490 then b'k' else to_lower_ascii c

unfoldable pub has_suffix : Text → Text → Bool
has_suffix [] p = is_empty p
has_suffix (c ∷ s) p = list_beq (c ∷ s) p || has_suffix s p
