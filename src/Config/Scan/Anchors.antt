-- ===== src/Config/Scan/Anchors.antt =====
-- internal/config/loader.go: what a text that passes `scanForAnchorsAliases` does not hold.
use blogflow.Base.{
  ◌≡◌, ◌⊎◌, ◌∙◌, inl, inr, sym, ap, ℕ, true, List, [], ◌∷◌, ◌++◌, Option, none, some, arith, All,
  Bool-cases, Option-cases, nat_eq,
}
use blogflow.Base.Text.{Text, split, trim_space}
use blogflow.Config.Scan.{
  Quote, bare, turn, is_bare, may_precede, may_follow, walk_line, is_skipped, scan_lines,
  scan_for_anchors_aliases,
}

-- The state of the quotes after a text, and the character before what follows it.
abbrev pub turns : Quote → Text → Quote
turns q [] = q
turns q (c ∷ s) = turns (turn q c) s

abbrev pub last : Option ℕ → Text → Option ℕ
last prev [] = prev
last prev (c ∷ s) = last (some c) s

-- An anchor or an alias outside quotes in a line.
pub record Exposes (q : Quote) (prev : Option ℕ) (line : Text) : Type 0 where
  pub before : Text
  pub marker : ℕ
  pub after : Text
  pub placed : line ≡ before ++ marker ∷ after
  pub kind : (marker ≡ b'&') ⊎ (marker ≡ b'*')
  pub unquoted : is_bare (turns q before) ≡ true
  pub preceded : may_precede (last prev before) ≡ true
  pub followed : may_follow after ≡ true

no_marker :
    (q : Quote) (prev : Option ℕ) (before : Text) (c : ℕ) (after : Text)
    → walk_line q prev (before ++ c ∷ after) ≡ none
    → (c ≡ b'&') ⊎ (c ≡ b'*')
    → is_bare (turns q before) ≡ true
    → may_precede (last prev before) ≡ true
    → may_follow after ≡ true
    → ⊥
unfolding walk_line
no_marker q prev [] c after h k u p f = ground arith
no_marker q prev (d ∷ before) c after h k u p f =
    no_marker (turn q d) (some d) before c after (ground arith) k u p f

-- A comment, an empty line, or a line without such a marker.
abbrev pub IsPlainLine : Text → Type 0
IsPlainLine line = (is_skipped (trim_space line) ≡ true) ⊎ (Exposes bare none (trim_space line) → ⊥)

walk_line-Exposes : (line : Text) → walk_line bare none line ≡ none → Exposes bare none line → ⊥
walk_line-Exposes line h x =
    no_marker bare none x.before x.marker x.after (ap (walk_line bare none) (sym x.placed) ∙ h)
      x.kind x.unquoted x.preceded x.followed

scan_lines-IsPlainLine : (lines : List Text) → scan_lines lines ≡ none → All IsPlainLine lines
unfolding scan_lines
scan_lines-IsPlainLine [] h = tt
scan_lines-IsPlainLine (line ∷ lines) h = elim (Bool-cases (is_skipped (trim_space line))) [
  | inl e ↦ (inl e, scan_lines-IsPlainLine lines (rw (e, scan_lines) at h))
  | inr e ↦ elim (Option-cases (walk_line bare none (trim_space line))) [
    | inr (m, d) ↦ absurd (cc (rw (e, d, scan_lines) at h))
    | inl d ↦ (
      inr (walk_line-Exposes (trim_space line) d),
      scan_lines-IsPlainLine lines (rw (e, d, scan_lines) at h),
    )
  ]
]

pub scan_for_anchors_aliases-IsPlainLine :
    (s : Text) → scan_for_anchors_aliases s ≡ none → All IsPlainLine (split s 10)
unfolding scan_for_anchors_aliases
scan_for_anchors_aliases-IsPlainLine s h = scan_lines-IsPlainLine (split s 10) h
