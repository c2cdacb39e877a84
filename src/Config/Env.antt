-- ===== src/Config/Env.antt =====
-- internal/config/loader.go: the overrides from environment variables. `strconv.Atoi` and
-- `time.ParseDuration` are arguments, and so are the environment, the files that hold secrets and the
-- order in which Go visits the map of the setters.
pub mod Commute
pub mod Order
use mathlib.Core.Option
use blogflow.Base.{
  ℕ, zero, suc, Bool, true, false, List, [], ◌∷◌, ◌++◌, if◌then◌else◌, ◌==◌, list_eq, nat_eq,
  filter, not, map, Option, none, some,
}
use blogflow.Base.Int.{ℤ}
use blogflow.Base.Text.{Text, codes, is_empty, split, trim_space}
use blogflow.EnvFile.{SecretFile, Secret, SecretError, unset, found, failed, read_env_or_file}
use blogflow.Config.{Config}
use blogflow.Config.Rules.{is_one_of}

pub data TextVar : Type 0 where
  site_title site_description site_base_url sync_strategy sync_repo sync_branch : TextVar
  webhook_secret sync_poll_interval feed_type site_homepage : TextVar
  content_posts_dir content_pages_dir : TextVar

pub data NumberVar : Type 0 where
  server_port webhook_rate_limit sync_clone_depth server_hsts_max_age : NumberVar
  server_ops_port server_metrics_port : NumberVar

pub data DurationVar : Type 0 where
  server_read_timeout server_write_timeout server_idle_timeout : DurationVar

pub data FlagVar : Type 0 where
  cache_enabled server_tls_terminated server_private_health : FlagVar

pub data ListVar : Type 0 where
  webhook_allowed_ips sync_sparse_dirs : ListVar

-- The keys of `envMap`.
pub data EnvVar : Type 0 where
  text_var : TextVar → EnvVar
  number_var : NumberVar → EnvVar
  duration_var : DurationVar → EnvVar
  flag_var : FlagVar → EnvVar
  list_var : ListVar → EnvVar

unfoldable pub text_name : TextVar → Text
text_name site_title = codes "BLOGFLOW_SITE_TITLE"
text_name site_description = codes "BLOGFLOW_SITE_DESCRIPTION"
text_name site_base_url = codes "BLOGFLOW_SITE_BASE_URL"
text_name sync_strategy = codes "BLOGFLOW_SYNC_STRATEGY"
text_name sync_repo = codes "BLOGFLOW_SYNC_REPO"
text_name sync_branch = codes "BLOGFLOW_SYNC_BRANCH"
text_name webhook_secret = codes "BLOGFLOW_WEBHOOK_SECRET"
text_name sync_poll_interval = codes "BLOGFLOW_SYNC_POLL_INTERVAL"
text_name feed_type = codes "BLOGFLOW_FEED_TYPE"
text_name site_homepage = codes "BLOGFLOW_SITE_HOMEPAGE"
text_name content_posts_dir = codes "BLOGFLOW_CONTENT_POSTS_DIR"
text_name content_pages_dir = codes "BLOGFLOW_CONTENT_PAGES_DIR"

unfoldable pub env_name : EnvVar → Text
unfolding text_name
env_name (text_var v) = text_name v
env_name (number_var server_port) = codes "BLOGFLOW_SERVER_PORT"
env_name (number_var webhook_rate_limit) = codes "BLOGFLOW_SYNC_WEBHOOK_RATE_LIMIT"
env_name (number_var sync_clone_depth) = codes "BLOGFLOW_SYNC_CLONE_DEPTH"
env_name (number_var server_hsts_max_age) = codes "BLOGFLOW_SERVER_HSTS_MAX_AGE"
env_name (number_var server_ops_port) = codes "BLOGFLOW_SERVER_OPS_PORT"
env_name (number_var server_metrics_port) = codes "BLOGFLOW_SERVER_METRICS_PORT"
env_name (duration_var server_read_timeout) = codes "BLOGFLOW_SERVER_READ_TIMEOUT"
env_name (duration_var server_write_timeout) = codes "BLOGFLOW_SERVER_WRITE_TIMEOUT"
env_name (duration_var server_idle_timeout) = codes "BLOGFLOW_SERVER_IDLE_TIMEOUT"
env_name (flag_var cache_enabled) = codes "BLOGFLOW_CACHE_ENABLED"
env_name (flag_var server_tls_terminated) = codes "BLOGFLOW_SERVER_TLS_TERMINATED"
env_name (flag_var server_private_health) = codes "BLOGFLOW_SERVER_PRIVATE_HEALTH"
env_name (list_var webhook_allowed_ips) = codes "BLOGFLOW_SYNC_WEBHOOK_ALLOWED_IPS"
env_name (list_var sync_sparse_dirs) = codes "BLOGFLOW_SYNC_SPARSE_DIRS"

unfoldable pub set_text : TextVar → Text → Config → Config
set_text site_title v c = record c { site = record c.site { title = v } }
set_text site_description v c = record c { site = record c.site { description = v } }
set_text site_base_url v c = record c { site = record c.site { base_url = v } }
set_text sync_strategy v c = record c { sync = record c.sync { strategy = v } }
set_text sync_repo v c = record c { sync = record c.sync { repo = v } }
set_text sync_branch v c = record c { sync = record c.sync { branch = v } }
set_text webhook_secret v c = record c {
  sync = record c.sync { webhook = record c.sync.webhook { secret = v } };
}
set_text sync_poll_interval v c = record c { sync = record c.sync { poll_interval = v } }
set_text feed_type v c = record c { feed = record c.feed { feed_type = v } }
set_text site_homepage v c = record c { site = record c.site { homepage = v } }
set_text content_posts_dir v c = record c { content = record c.content { posts_dir = v } }
set_text content_pages_dir v c = record c { content = record c.content { pages_dir = v } }

unfoldable pub set_number : NumberVar → ℤ → Config → Config
set_number server_port n c = record c { server = record c.server { port = n } }
set_number webhook_rate_limit n c = record c {
  sync = record c.sync { webhook = record c.sync.webhook { rate_limit = n } };
}
set_number sync_clone_depth n c = record c { sync = record c.sync { clone_depth = n } }
set_number server_hsts_max_age n c = record c { server = record c.server { hsts_max_age = n } }
set_number server_ops_port n c = record c { server = record c.server { ops_port = n } }
set_number server_metrics_port n c = record c { server = record c.server { metrics_port = n } }

unfoldable pub set_duration : DurationVar → ℤ → Config → Config
set_duration server_read_timeout d c = record c { server = record c.server { read_timeout = d } }
set_duration server_write_timeout d c = record c { server = record c.server { write_timeout = d } }
set_duration server_idle_timeout d c = record c { server = record c.server { idle_timeout = d } }

unfoldable pub set_flag : FlagVar → Bool → Config → Config
set_flag cache_enabled b c = record c { cache = record c.cache { cache_enabled = b } }
set_flag server_tls_terminated b c = record c { server = record c.server { tls_terminated = b } }
set_flag server_private_health b c = record c { server = record c.server { private_health = b } }

unfoldable pub set_list : ListVar → List Text → Config → Config
set_list webhook_allowed_ips l c = record c {
  sync = record c.sync { webhook = record c.sync.webhook { allowed_ips = l } };
}
set_list sync_sparse_dirs l c = record c { sync = record c.sync { sparse_dirs = l } }

-- A list of entries between commas, trimmed, the empty ones left out.
unfoldable pub entries : Text → List Text
entries v =
    if is_empty v then [] else filter (λ s. not (is_empty s)) (map trim_space (split v b','))

-- `strconv.ParseBool`
unfoldable pub parse_bool : Text → Option Bool
unfolding is_one_of
parse_bool v =
    if is_one_of
      (codes "1" ∷ codes "t" ∷ codes "T" ∷ codes "TRUE" ∷ codes "true" ∷ codes "True" ∷ []) v
    then some true
    else if is_one_of
        (codes "0" ∷ codes "f" ∷ codes "F" ∷ codes "FALSE" ∷ codes "false" ∷ codes "False" ∷ []) v
    then some false
    else none

pub data EnvError : Type 0 where
  unreadable : SecretError → EnvError
  unparsable : EnvVar → EnvError

pub data Applied : Type 0 where
  applied : Config → List EnvVar → Applied
  rejected : EnvError → Applied

module _ (open_file : Text → Option SecretFile) (lookup_env : Text → Option Text) where
  -- The value of a variable; only the webhook's secret may come from a file.
  unfoldable pub env_value : EnvVar → Secret
  env_value (text_var webhook_secret) =
      (read_env_or_file open_file lookup_env (text_name webhook_secret)).1
  env_value x = elim (lookup_env (env_name x)) [ none ↦ unset | some v ↦ found v ]

-- What one round of the loop does, whatever the configuration: nothing, a change, or an error.
pub data Round : Type 0 where
  skip : Round
  change : (Config → Config) → Round
  stop : EnvError → Round

module _ (parse_int : Text → Option ℤ) (parse_duration : Text → Option ℤ) where
  -- The setter of a variable, as a change of the configuration.
  unfoldable pub setter : EnvVar → Text → Option (Config → Config)
  setter (text_var x) v = some (set_text x v)
  setter (number_var x) v = Option.map (set_number x) (parse_int v)
  setter (duration_var x) v = Option.map (set_duration x) (parse_duration v)
  setter (flag_var x) v = Option.map (set_flag x) (parse_bool v)
  setter (list_var x) v = some (set_list x (entries v))

  unfoldable pub round_of : EnvVar → Secret → Round
  unfolding setter
  round_of x unset = skip
  round_of x (failed e) = stop (unreadable e)
  round_of x (found v) = elim (setter x v) [ none ↦ stop (unparsable x) | some f ↦ change f ]

  module _ (open_file : Text → Option SecretFile) (lookup_env : Text → Option Text) where
    unfoldable pub round : EnvVar → Round
    unfolding round_of env_value
    round x = round_of x (env_value open_file lookup_env x)

    -- The loop of `applyEnvOverrides`, over the variables in the order of the map.
    unfoldable pub apply_from : List EnvVar → Config → List EnvVar → Applied
    apply_from [] c names = applied c names
    apply_from (x ∷ order) c names = elim (round x) [
      | skip ↦ apply_from order c names
      | change f ↦ apply_from order (f c) (names ++ x ∷ [])
      | stop e ↦ rejected e
    ]

    -- `applyEnvOverrides`
    unfoldable pub apply_env_overrides : List EnvVar → Config → Applied
    unfolding apply_from round
    apply_env_overrides order c = apply_from order c []
