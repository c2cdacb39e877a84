-- ===== src/Config/Env/Order.antt =====
-- internal/config/loader.go: the overrides do not depend on the order in which Go visits the map.
use mathlib.Core.Option
use blogflow.Base.{
  ◌≡◌, refl, sym, ap, ◌∙◌, false, List, [], ◌∷◌, ◌++◌, Option, none, some, ◌⊎◌, inl, inr,
}
use blogflow.Base.Int.{ℤ, pos}
use blogflow.Base.Text.{Text}
use blogflow.EnvFile.{SecretFile, Secret, unset, found, failed}
use blogflow.Config.{Config}
use blogflow.Config.Env.{
  unparsable, EnvVar, text_var, number_var, duration_var, flag_var, list_var, set_text, set_number,
  set_duration, set_flag, set_list, parse_bool, entries, setter, env_value, Applied, applied,
  rejected, EnvError, Round, skip, change, stop, round, round_of, apply_from, apply_env_overrides,
}
use blogflow.Config.Env.Commute.{put, put-put}

abbrev pub text_of : Secret → Text
text_of (found v) = v
text_of _ = []

abbrev pub get_or {ℓ} : {A : Type ℓ} → A → Option A → A
get_or d none = d
get_or d (some a) = a

map_cases {ℓ κ} :
    {A : Type ℓ} {B : Type κ} (f : A → B) (d : A) (o : Option A)
    → (Option.map f o ≡ none) ⊎ (Option.map f o ≡ some (f (get_or d o)))
map_cases f d none = inl refl
map_cases f d (some a) = inr refl

pub Round-cases :
    (r : Round)
    → (r ≡ skip) ⊎ ((f : Config → Config) × (r ≡ change f)) ⊎ ((e : EnvError) × (r ≡ stop e))
Round-cases skip = inl refl
Round-cases (change f) = inr (inl (f, refl))
Round-cases (stop e) = inr (inr (e, refl))

-- The configuration that the loop ends with, if it meets no error.
abbrev pub outcome : Applied → Option Config
outcome (applied c names) = some c
outcome (rejected e) = none

-- One order is the other with neighbours exchanged, any number of times.
pub data Shuffle : List EnvVar → List EnvVar → Type 0 where
  same : (l : List EnvVar) → Shuffle l l
  keep : (x : EnvVar) (l m : List EnvVar) → Shuffle l m → Shuffle (x ∷ l) (x ∷ m)
  swap : (x y : EnvVar) (l : List EnvVar) → Shuffle (x ∷ y ∷ l) (y ∷ x ∷ l)
  then_also : {l m n : List EnvVar} → Shuffle l m → Shuffle m n → Shuffle l n

module _ (parse_int : Text → Option ℤ) (parse_duration : Text → Option ℤ) where
  -- The setter of a variable where its value can be parsed.
  set_of : EnvVar → Text → Config → Config
  set_of (text_var x) v = set_text x v
  set_of (number_var x) v = set_number x (get_or (pos 0) (parse_int v))
  set_of (duration_var x) v = set_duration x (get_or (pos 0) (parse_duration v))
  set_of (flag_var x) v = set_flag x (get_or false (parse_bool v))
  set_of (list_var x) v = set_list x (entries v)

  abbrev SetterIs : EnvVar → Text → Type 0
  SetterIs x v =
      (setter parse_int parse_duration x v ≡ none)
      ⊎ (setter parse_int parse_duration x v ≡ some (set_of x v))

  setter-set_of : (x : EnvVar) (v : Text) → SetterIs x v
  unfolding setter set_of
  setter-set_of (text_var x) v = inr refl
  setter-set_of (number_var x) v = map_cases (set_number x) (pos 0) (parse_int v)
  setter-set_of (duration_var x) v = map_cases (set_duration x) (pos 0) (parse_duration v)
  setter-set_of (flag_var x) v = map_cases (set_flag x) false (parse_bool v)
  setter-set_of (list_var x) v = inr refl

  changed : Round → Config → Config
  changed (change f) = f
  changed skip = λ c. c
  changed (stop e) = λ c. c

  round_of-set_of :
      (x : EnvVar) (s : Secret) (f : Config → Config)
      → round_of parse_int parse_duration x s ≡ change f
      → set_of x (text_of s) ≡ f
  unfolding round_of changed
  round_of-set_of x unset f h = absurd (cc)
  round_of-set_of x (failed e) f h = absurd (cc)
  round_of-set_of x (found v) f h = elim (setter-set_of x v) [
    | inl e ↦
        let stopped : round_of parse_int parse_duration x (found v) ≡ stop (unparsable x) =
          rw (e, round_of) refl in
        absurd (cc)
    | inr e ↦
        let moved : round_of parse_int parse_duration x (found v) ≡ change (set_of x v) =
          rw (e, round_of) refl in
        ap changed (sym moved ∙ h)
  ]

  module _ (open_file : Text → Option SecretFile) (lookup_env : Text → Option Text) where
    unfoldable pub value_of : EnvVar → Text
    value_of x = text_of (env_value open_file lookup_env x)

    abbrev pub assigned : EnvVar → Config → Config
    assigned =
        put (λ x. value_of (text_var x)) (λ x. get_or (pos 0) (parse_int (value_of (number_var x))))
          (λ x. get_or (pos 0) (parse_duration (value_of (duration_var x))))
          (λ x. get_or false (parse_bool (value_of (flag_var x))))
          (λ x. entries (value_of (list_var x)))

    set_of-assigned : (x : EnvVar) (c : Config) → set_of x (value_of x) c ≡ assigned x c
    unfolding set_of
    set_of-assigned (text_var x) c = refl
    set_of-assigned (number_var x) c = refl
    set_of-assigned (duration_var x) c = refl
    set_of-assigned (flag_var x) c = refl
    set_of-assigned (list_var x) c = refl

    pub changes :
        (x : EnvVar) (f : Config → Config)
        → round parse_int parse_duration open_file lookup_env x ≡ change f
        → (c : Config) → f c ≡ assigned x c
    unfolding round value_of
    changes x f h c =
        ap (λ (g : Config → Config). g c)
          (sym (round_of-set_of x (env_value open_file lookup_env x) f h))
        ∙ set_of-assigned x c

    commute :
        (x y : EnvVar) (f g : Config → Config)
        → round parse_int parse_duration open_file lookup_env x ≡ change f
        → round parse_int parse_duration open_file lookup_env y ≡ change g
        → (c : Config) → g (f c) ≡ f (g c)
    commute x y f g hx hy c =
        changes y g hy (f c)
        ∙ ap (assigned y) (changes x f hx c)
        ∙ put-put _ _ _ _ _ y x c
        ∙ sym (changes x f hx (g c) ∙ ap (assigned x) (changes y g hy c))

    -- The loop without its list of names.
    outcome_of : List EnvVar → Config → Option Config
    outcome_of [] c = some c
    outcome_of (x ∷ order) c = elim (round parse_int parse_duration open_file lookup_env x) [
      | skip ↦ outcome_of order c
      | change f ↦ outcome_of order (f c)
      | stop e ↦ none
    ]

    outcome-apply_from :
        (order : List EnvVar) (c : Config) (names : List EnvVar)
        → outcome (apply_from parse_int parse_duration open_file lookup_env order c names)
          ≡ outcome_of order c
    unfolding apply_from outcome_of
    outcome-apply_from [] c names = refl
    outcome-apply_from (x ∷ order) c names =
        elim (Round-cases (round parse_int parse_duration open_file lookup_env x)) [
          | inl e ↦ rw (e, apply_from, outcome_of) (outcome-apply_from order c names)
          | inr (inl (f, e)) ↦
              rw (e, apply_from, outcome_of) (outcome-apply_from order (f c) (names ++ x ∷ []))
          | inr (inr (s, e)) ↦ rw (e, apply_from, outcome_of) refl
        ]

    abbrev round_here : EnvVar → Round
    round_here = round parse_int parse_duration open_file lookup_env

    after_skipping :
        (x : EnvVar) (l : List EnvVar) (c : Config)
        → round_here x ≡ skip
        → outcome_of (x ∷ l) c ≡ outcome_of l c
    unfolding outcome_of
    after_skipping x l c e = rw (e, outcome_of) refl

    after_stopping :
        (x : EnvVar) (s : EnvError) (l : List EnvVar) (c : Config)
        → round_here x ≡ stop s
        → outcome_of (x ∷ l) c ≡ none
    unfolding outcome_of
    after_stopping x s l c e = rw (e, outcome_of) refl

    after_changing :
        (x : EnvVar) (f : Config → Config) (l : List EnvVar) (c : Config)
        → round_here x ≡ change f
        → outcome_of (x ∷ l) c ≡ outcome_of l (f c)
    unfolding outcome_of
    after_changing x f l c e = rw (e, outcome_of) refl

    -- A round without a change commutes with any other.
    swap_with_skip :
        (x y : EnvVar) (l : List EnvVar) (c : Config)
        → round_here x ≡ skip
        → outcome_of (x ∷ y ∷ l) c ≡ outcome_of (y ∷ x ∷ l) c
    swap_with_skip x y l c e = elim (Round-cases (round_here y)) [
      | inl d ↦ cc (
        after_skipping x (y ∷ l) c e,
        after_skipping y l c d,
        after_skipping y (x ∷ l) c d,
        after_skipping x l c e,
      )
      | inr (inl (g, d)) ↦ cc (
        after_skipping x (y ∷ l) c e,
        after_changing y g l c d,
        after_changing y g (x ∷ l) c d,
        after_skipping x l (g c) e,
      )
      | inr (inr (t, d)) ↦
          cc
            (after_skipping x (y ∷ l) c e, after_stopping y t l c d, after_stopping y t (x ∷ l) c d)
    ]

    outcome_of_swap :
        (x y : EnvVar) (l : List EnvVar) (c : Config)
        → outcome_of (x ∷ y ∷ l) c ≡ outcome_of (y ∷ x ∷ l) c
    outcome_of_swap x y l c = elim (Round-cases (round_here x)) [
      | inl e ↦ swap_with_skip x y l c e
      | inr (inr (s, e)) ↦ elim (Round-cases (round_here y)) [
        | inl d ↦ sym (swap_with_skip y x l c d)
        | inr (inl (g, d)) ↦ cc (
          after_stopping x s (y ∷ l) c e,
          after_changing y g (x ∷ l) c d,
          after_stopping x s l (g c) e,
        )
        | inr (inr (t, d)) ↦ cc (after_stopping x s (y ∷ l) c e, after_stopping y t (x ∷ l) c d)
      ]
      | inr (inl (f, e)) ↦ elim (Round-cases (round_here y)) [
        | inl d ↦ sym (swap_with_skip y x l c d)
        | inr (inl (g, d)) ↦ cc (
          after_changing x f (y ∷ l) c e,
          after_changing y g l (f c) d,
          after_changing y g (x ∷ l) c d,
          after_changing x f l (g c) e,
          commute x y f g e d c,
        )
        | inr (inr (t, d)) ↦ cc (
          after_changing x f (y ∷ l) c e,
          after_stopping y t l (f c) d,
          after_stopping y t (x ∷ l) c d,
        )
      ]
    ]

    outcome_of-Shuffle :
        {l m : List EnvVar} → Shuffle l m → (c : Config) → outcome_of l c ≡ outcome_of m c
    outcome_of-Shuffle (same l) c = refl
    outcome_of-Shuffle (swap x y l) c = outcome_of_swap x y l c
    outcome_of-Shuffle (then_also p q) c = outcome_of-Shuffle p c ∙ outcome_of-Shuffle q c
    outcome_of-Shuffle (keep x l m p) c = elim (Round-cases (round_here x)) [
      | inl e ↦ cc (after_skipping x l c e, after_skipping x m c e, outcome_of-Shuffle p c)
      | inr (inl (f, e)) ↦
          cc (after_changing x f l c e, after_changing x f m c e, outcome_of-Shuffle p (f c))
      | inr (inr (s, e)) ↦ cc (after_stopping x s l c e, after_stopping x s m c e)
    ]

    -- Whatever the order in which Go visits the setters of the environment variables, the overrides
    -- fail for all orders or for none, and the configuration they give is the same.
    pub apply_env_overrides-Shuffle :
        (l m : List EnvVar) (c : Config)
        → Shuffle l m
        → outcome (apply_env_overrides parse_int parse_duration open_file lookup_env l c)
          ≡ outcome (apply_env_overrides parse_int parse_duration open_file lookup_env m c)
    unfolding apply_env_overrides
    apply_env_overrides-Shuffle l m c p =
        outcome-apply_from l c [] ∙ outcome_of-Shuffle p c ∙ sym (outcome-apply_from m c [])
