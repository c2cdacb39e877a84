-- ===== src/Config/Loader.antt =====
-- internal/config/loader.go and reload.go: the loader, whose current configuration is replaced only by
-- one that was read, overridden and validated. `reloadMu` makes `Reload` one step.
pub mod Origin
pub mod Clean
pub mod Trusted
use blogflow.Base.{
  ℕ, ◌+◌, ◌*◌, Bool, true, false, List, [], ◌∷◌, ◌++◌, ltb, if◌then◌else◌, ◌==◌, nat_eq, map,
  Option, none, some, ◌&&◌, not,
}
use blogflow.Base.Int.{ℤ, pos}
use blogflow.Base.Text.{Text, is_empty, trim_space, byte_len}
use blogflow.EnvFile.{SecretFile}
use blogflow.Config.{Config, default, is_zero}
use blogflow.Config.Rules.{FieldError, Url}
use blogflow.Config.Validate.{validate}
use blogflow.Config.Env.{EnvVar, EnvError, applied, rejected, apply_env_overrides}
use blogflow.Config.Scan.{Marker, scan_for_secrets, scan_for_anchors_aliases}

-- What opening site.yaml gives: nothing, an error, or a text up to its end or a fault of the reader.
pub data SiteFile : Type 0 where
  absent : SiteFile
  closed : SiteFile
  opened : Text → Bool → SiteFile

pub data LoadError : Type 0 where
  unreadable too_large bad_yaml : LoadError
  secret_in_yaml : ℕ → LoadError
  marker_in_yaml : Marker → LoadError
  bad_environment : EnvError → LoadError
  invalid : List FieldError → LoadError

pub data Loaded : Type 0 where
  ok : Config → Loaded
  err : LoadError → Loaded

-- A change in the `Loader`: what is current, the callbacks by number, and what they were called with.
pub record Loader : Type 0 where
  pub current : Config
  pub callbacks : List ℕ
  pub calls : List (ℕ × Config)

-- `NewLoader`, which stores the defaults.
unfoldable pub new_loader : Loader
new_loader = record { current = default; callbacks = []; calls = [] }

-- `OnChange`
unfoldable pub on_change : ℕ → Loader → Loader
on_change f l = record l { callbacks = l.callbacks ++ f ∷ [] }

-- `fireCallbacks`
unfoldable pub fire_callbacks : Config → Loader → Loader
fire_callbacks cfg l = record l { calls = l.calls ++ map (λ f. (f, cfg)) l.callbacks }

-- `Reload` after `Load`.
unfoldable pub fire_loaded : Loaded × Loader → Loaded × Loader
unfolding fire_callbacks
fire_loaded (err e, l) = (err e, l)
fire_loaded (ok cfg, l) = (ok cfg, fire_callbacks cfg l)

abbrev pub max_config_file_size : ℕ
max_config_file_size = 1_048_576

-- The world at the moment of a load.
pub record World : Type 0 where
  pub site_file : SiteFile
  pub open_file : Text → Option SecretFile
  pub lookup_env : Text → Option Text
  pub order : List EnvVar

-- What the loader takes from the standard library and from the YAML decoder, which writes into a
-- configuration.
pub record Library : Type 0 where
  pub parse_ip : Text → Option Text
  pub parse_cidr : Text → Option (Text → Bool)
  pub parse_url : Text → Option Url
  pub parse_duration : Text → Option ℤ
  pub parse_int : Text → Option ℤ
  pub decode : Text → Config → Option Config

abbrev pub and_then : Loaded → (Config → Loaded) → Loaded
and_then (ok cfg) k = k cfg
and_then (err e) k = err e

module _ (lib : Library) where
  abbrev pub errors_of : Config → List FieldError
  errors_of = validate lib.parse_ip lib.parse_cidr lib.parse_duration lib.parse_url

  -- The scans and the decoder.
  unfoldable pub parse_site : Text → Config → Loaded
  parse_site s cfg = elim (scan_for_secrets s) [
    | some i ↦ err (secret_in_yaml i)
    | none ↦ elim (scan_for_anchors_aliases s) [
      | some m ↦ err (marker_in_yaml m)
      | none ↦
          if is_empty (trim_space s)
          then ok cfg
          else elim (lib.decode s cfg) [ none ↦ err bad_yaml | some cfg' ↦ ok cfg' ]
    ]
  ]

  -- The bounded read of site.yaml. A fault behind the limit is not met.
  unfoldable pub read_site : SiteFile → Config → Loaded
  unfolding parse_site
  read_site absent cfg = ok cfg
  read_site closed cfg = err unreadable
  read_site (opened s faulty) cfg =
      if ltb max_config_file_size (byte_len s)
      then err too_large
      else if faulty
      then err unreadable
      else parse_site s cfg

  unfoldable pub override : World → Config → Loaded
  override w cfg =
      elim (apply_env_overrides lib.parse_int lib.parse_duration w.open_file w.lookup_env w.order
        cfg) [ rejected e ↦ err (bad_environment e) | applied cfg' names ↦ ok cfg' ]

  unfoldable pub check_valid : Config → Loaded
  check_valid cfg =
      let errors = errors_of cfg in if is_empty errors then ok cfg else err (invalid errors)

  -- What `Load` computes before it stores.
  unfoldable pub loaded : World → Loaded
  unfolding read_site override check_valid
  loaded w =
      and_then (read_site w.site_file default)
        λ cfg. and_then (override w cfg) λ cfg'. check_valid cfg'

  -- `Load`
  unfoldable pub load : World → Loader → Loaded × Loader
  unfolding loaded
  load w l = elim (loaded w) [ err e ↦ (err e, l) | ok cfg ↦ (ok cfg, record l { current = cfg }) ]

  -- `Reload`
  unfoldable pub reload : World → Loader → Loaded × Loader
  unfolding load fire_loaded
  reload w l = fire_loaded (load w l)

  -- What can happen to a loader: loads, reloads and registrations in any order, with the worlds that it
  -- has loaded in, the last one first.
  pub data Reach : List World → Loader → Type 0 where
    start : Reach [] new_loader
    load_next :
        {ws : List World} {l : Loader} (w : World) → Reach ws l → Reach (w ∷ ws) (load w l).1
    reload_next :
        {ws : List World} {l : Loader} (w : World) → Reach ws l → Reach (w ∷ ws) (reload w l).1
    register_next : {ws : List World} {l : Loader} (f : ℕ) → Reach ws l → Reach ws (on_change f l)
