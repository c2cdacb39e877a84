-- ===== src/Config/Env/Commute.antt =====
-- internal/config/loader.go: two setters of `envMap` commute.
use blogflow.Base.{◌≡◌, sym, Bool, List, arith}
use blogflow.Base.Int.{ℤ}
use blogflow.Base.Text.{Text}
use blogflow.Config.{Config}
use blogflow.Config.Env.{
  list_var, flag_var, duration_var, number_var, text_var, TextVar, NumberVar, DurationVar, FlagVar,
  ListVar, EnvVar, set_text, set_number, set_duration, set_flag, set_list,
}

-- Assignments to variables commute, when each variable has one value.
module _ (t : TextVar → Text) (n : NumberVar → ℤ) (d : DurationVar → ℤ) (b : FlagVar → Bool)
    (l : ListVar → List Text) where
  abbrev pub put : EnvVar → Config → Config
  put (text_var x) = set_text x (t x)
  put (number_var x) = set_number x (n x)
  put (duration_var x) = set_duration x (d x)
  put (flag_var x) = set_flag x (b x)
  put (list_var x) = set_list x (l x)

  text_text :
      (x : TextVar) (y : TextVar) (c : Config)
      → set_text x (t x) (set_text y (t y) c) ≡ set_text y (t y) (set_text x (t x) c)
  unfolding set_text
  text_text x y c = ground arith

  text_number :
      (x : TextVar) (y : NumberVar) (c : Config)
      → set_text x (t x) (set_number y (n y) c) ≡ set_number y (n y) (set_text x (t x) c)
  unfolding set_text set_number
  text_number x y c = ground arith

  text_duration :
      (x : TextVar) (y : DurationVar) (c : Config)
      → set_text x (t x) (set_duration y (d y) c) ≡ set_duration y (d y) (set_text x (t x) c)
  unfolding set_text set_duration
  text_duration x y c = ground arith

  text_flag :
      (x : TextVar) (y : FlagVar) (c : Config)
      → set_text x (t x) (set_flag y (b y) c) ≡ set_flag y (b y) (set_text x (t x) c)
  unfolding set_text set_flag
  text_flag x y c = ground arith

  text_list :
      (x : TextVar) (y : ListVar) (c : Config)
      → set_text x (t x) (set_list y (l y) c) ≡ set_list y (l y) (set_text x (t x) c)
  unfolding set_text set_list
  text_list x y c = ground arith

  number_number :
      (x : NumberVar) (y : NumberVar) (c : Config)
      → set_number x (n x) (set_number y (n y) c) ≡ set_number y (n y) (set_number x (n x) c)
  unfolding set_number
  number_number x y c = ground arith

  number_duration :
      (x : NumberVar) (y : DurationVar) (c : Config)
      → set_number x (n x) (set_duration y (d y) c) ≡ set_duration y (d y) (set_number x (n x) c)
  unfolding set_number set_duration
  number_duration x y c = ground arith

  number_flag :
      (x : NumberVar) (y : FlagVar) (c : Config)
      → set_number x (n x) (set_flag y (b y) c) ≡ set_flag y (b y) (set_number x (n x) c)
  unfolding set_number set_flag
  number_flag x y c = ground arith

  number_list :
      (x : NumberVar) (y : ListVar) (c : Config)
      → set_number x (n x) (set_list y (l y) c) ≡ set_list y (l y) (set_number x (n x) c)
  unfolding set_number set_list
  number_list x y c = ground arith

  duration_duration :
      (x : DurationVar) (y : DurationVar) (c : Config)
      → set_duration x (d x) (set_duration y (d y) c)
        ≡ set_duration y (d y) (set_duration x (d x) c)
  unfolding set_duration
  duration_duration x y c = ground arith

  duration_flag :
      (x : DurationVar) (y : FlagVar) (c : Config)
      → set_duration x (d x) (set_flag y (b y) c) ≡ set_flag y (b y) (set_duration x (d x) c)
  unfolding set_duration set_flag
  duration_flag x y c = ground arith

  duration_list :
      (x : DurationVar) (y : ListVar) (c : Config)
      → set_duration x (d x) (set_list y (l y) c) ≡ set_list y (l y) (set_duration x (d x) c)
  unfolding set_duration set_list
  duration_list x y c = ground arith

  flag_flag :
      (x : FlagVar) (y : FlagVar) (c : Config)
      → set_flag x (b x) (set_flag y (b y) c) ≡ set_flag y (b y) (set_flag x (b x) c)
  unfolding set_flag
  flag_flag x y c = ground arith

  flag_list :
      (x : FlagVar) (y : ListVar) (c : Config)
      → set_flag x (b x) (set_list y (l y) c) ≡ set_list y (l y) (set_flag x (b x) c)
  unfolding set_flag set_list
  flag_list x y c = ground arith

  list_list :
      (x : ListVar) (y : ListVar) (c : Config)
      → set_list x (l x) (set_list y (l y) c) ≡ set_list y (l y) (set_list x (l x) c)
  unfolding set_list
  list_list x y c = ground arith

  pub put-put : (x y : EnvVar) (c : Config) → put x (put y c) ≡ put y (put x c)
  put-put (text_var x) (text_var y) c = text_text x y c
  put-put (text_var x) (number_var y) c = text_number x y c
  put-put (text_var x) (duration_var y) c = text_duration x y c
  put-put (text_var x) (flag_var y) c = text_flag x y c
  put-put (text_var x) (list_var y) c = text_list x y c
  put-put (number_var x) (text_var y) c = sym (text_number y x c)
  put-put (number_var x) (number_var y) c = number_number x y c
  put-put (number_var x) (duration_var y) c = number_duration x y c
  put-put (number_var x) (flag_var y) c = number_flag x y c
  put-put (number_var x) (list_var y) c = number_list x y c
  put-put (duration_var x) (text_var y) c = sym (text_duration y x c)
  put-put (duration_var x) (number_var y) c = sym (number_duration y x c)
  put-put (duration_var x) (duration_var y) c = duration_duration x y c
  put-put (duration_var x) (flag_var y) c = duration_flag x y c
  put-put (duration_var x) (list_var y) c = duration_list x y c
  put-put (flag_var x) (text_var y) c = sym (text_flag y x c)
  put-put (flag_var x) (number_var y) c = sym (number_flag y x c)
  put-put (flag_var x) (duration_var y) c = sym (duration_flag y x c)
  put-put (flag_var x) (flag_var y) c = flag_flag x y c
  put-put (flag_var x) (list_var y) c = flag_list x y c
  put-put (list_var x) (text_var y) c = sym (text_list y x c)
  put-put (list_var x) (number_var y) c = sym (number_list y x c)
  put-put (list_var x) (duration_var y) c = sym (duration_list y x c)
  put-put (list_var x) (flag_var y) c = sym (flag_list y x c)
  put-put (list_var x) (list_var y) c = list_list x y c
