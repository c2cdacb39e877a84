-- ===== src/Config/Loader/Origin.antt =====
-- internal/config/loader.go: where the webhook's secret comes from.
use blogflow.Base.{
  subst, ◌≡◌, ◌⊎◌, ◌∙◌, inl, inr, refl, sym, ap, Bool, List, [], ◌∷◌, ◌++◌, Option, arith,
}
use blogflow.Base.Int.{ℤ}
use blogflow.Base.Text.{Text}
use blogflow.EnvFile.{SecretFile, Secret, unset, found, failed, read_env_or_file}
use blogflow.Config.{Config}
use blogflow.Config.Env.{
  TextVar, NumberVar, DurationVar, FlagVar, ListVar, EnvVar, text_var, number_var, duration_var,
  flag_var, list_var, webhook_secret, set_text, set_number, set_duration, set_flag, set_list,
  text_name, env_value, applied, Round, change, round, round_of, apply_from,
}
use blogflow.Config.Env.Order.{changes, value_of, Round-cases, text_of}

abbrev pub secret_of : Config → Text
secret_of c = c.sync.webhook.secret

kept_text :
    (x : TextVar) (v : Text) (c : Config)
    → (x ≡ webhook_secret) ⊎ (secret_of (set_text x v c) ≡ secret_of c)
unfolding set_text
kept_text x v c = ground arith

kept_number : (x : NumberVar) (v : ℤ) (c : Config) → secret_of (set_number x v c) ≡ secret_of c
unfolding set_number
kept_number x v c = ground arith

kept_duration :
    (x : DurationVar) (v : ℤ) (c : Config) → secret_of (set_duration x v c) ≡ secret_of c
unfolding set_duration
kept_duration x v c = ground arith

kept_flag : (x : FlagVar) (v : Bool) (c : Config) → secret_of (set_flag x v c) ≡ secret_of c
unfolding set_flag
kept_flag x v c = ground arith

kept_list : (x : ListVar) (v : List Text) (c : Config) → secret_of (set_list x v c) ≡ secret_of c
unfolding set_list
kept_list x v c = ground arith

module _ (open_file : Text → Option SecretFile) (lookup_env : Text → Option Text) where
  -- The value of BLOGFLOW_WEBHOOK_SECRET or the text of the file that its _FILE variant names.
  abbrev pub FromEnvironment : Text → Type 0
  FromEnvironment s = (read_env_or_file open_file lookup_env (text_name webhook_secret)).1 ≡ found s

  module _ (parse_int : Text → Option ℤ) (parse_duration : Text → Option ℤ) where
    abbrev round_here : EnvVar → Round
    round_here = round parse_int parse_duration open_file lookup_env

    round_of-found :
        (x : EnvVar) (s : Secret) (f : Config → Config)
        → round_of parse_int parse_duration x s ≡ change f
        → s ≡ found (text_of s)
    unfolding round_of
    round_of-found x unset f h = absurd (cc)
    round_of-found x (failed e) f h = absurd (cc)
    round_of-found x (found v) f h = refl

    secret_read :
        (f : Config → Config) (c : Config)
        → round_here (text_var webhook_secret) ≡ change f
        → FromEnvironment (secret_of (f c))
    unfolding round value_of env_value set_text
    secret_read f c h =
        round_of-found (text_var webhook_secret) _ f h
        ∙ ap found (
            sym (
              ap secret_of (
                changes parse_int parse_duration open_file lookup_env (text_var webhook_secret) f h
                  c)))

    change-secret :
        (x : EnvVar) (f : Config → Config) (c : Config)
        → round_here x ≡ change f
        → (secret_of (f c) ≡ secret_of c) ⊎ FromEnvironment (secret_of (f c))
    change-secret (number_var x) f c h = inl (
        ap secret_of (changes parse_int parse_duration open_file lookup_env (number_var x) f h c)
        ∙ kept_number x _ c)
    change-secret (duration_var x) f c h = inl (
        ap secret_of (changes parse_int parse_duration open_file lookup_env (duration_var x) f h c)
        ∙ kept_duration x _ c)
    change-secret (flag_var x) f c h = inl (
        ap secret_of (changes parse_int parse_duration open_file lookup_env (flag_var x) f h c)
        ∙ kept_flag x _ c)
    change-secret (list_var x) f c h = inl (
        ap secret_of (changes parse_int parse_duration open_file lookup_env (list_var x) f h c)
        ∙ kept_list x _ c)
    change-secret (text_var x) f c h = elim (kept_text x _ c) [
      | inr same ↦ inl (
          ap secret_of (changes parse_int parse_duration open_file lookup_env (text_var x) f h c)
          ∙ same)
      | inl e ↦ inr (secret_read f c (subst (λ y. round_here (text_var y) ≡ change f) e h))
    ]

    abbrev pub Unwritten : Config → Type 0
    Unwritten c = (secret_of c ≡ []) ⊎ FromEnvironment (secret_of c)

    change-Unwritten :
        (x : EnvVar) (f : Config → Config) (c : Config)
        → round_here x ≡ change f
        → Unwritten c
        → Unwritten (f c)
    change-Unwritten x f c h o = elim (change-secret x f c h) [
      | inl kept ↦ subst (λ (s : Text). (s ≡ []) ⊎ FromEnvironment s) (sym kept) o
      | inr new ↦ inr new
    ]

    pub apply_from-Unwritten :
        (order : List EnvVar) (c c' : Config) (names more : List EnvVar)
        → Unwritten c
        → apply_from parse_int parse_duration open_file lookup_env order c names ≡ applied c' more
        → Unwritten c'
    unfolding apply_from
    apply_from-Unwritten [] c c' names more o h = let e : c ≡ c' = cc in subst Unwritten e o
    apply_from-Unwritten (x ∷ order) c c' names more o h = elim (Round-cases (round_here x)) [
      | inl e ↦ apply_from-Unwritten order c c' names more o (rw (e, apply_from) at h)
      | inr (inl (f, e)) ↦
          apply_from-Unwritten order (f c) c' (names ++ x ∷ []) more (change-Unwritten x f c e o)
            (rw (e, apply_from) at h)
      | inr (inr (s, e)) ↦ absurd (cc (rw (e, apply_from) at h))
    ]
