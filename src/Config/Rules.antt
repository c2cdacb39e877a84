-- ===== src/Config/Rules.antt =====
-- internal/config/loader.go: the errors of `Validate`, and its rules up to the poll interval. An error
-- is its field and its message; its value is that of the field.
use blogflow.Base.{
  ℕ, ◌*◌, Bool, true, ◌&&◌, ◌||◌, not, List, [], ◌∷◌, ◌++◌, if◌then◌else◌, ◌==◌, list_eq, nat_eq,
  any, all, Option, none, some,
}
use blogflow.Base.Int.{◌=ℤ◌, ℤ, pos, ltb_ℤ, leb_ℤ}
use blogflow.Base.Text.{Text, codes, is_empty, cut_prefix, has_prefix, contains, split}
use blogflow.Overlay.Paths.{valid_element}
use blogflow.Config.{
  ContentConfig, ThemeConfig, ServerConfig, CacheConfig, effective_ops_port, is_zero, second,
}

pub data ConfigField : Type 0 where
  server_port server_ops_port server_metrics_port server_private_health : ConfigField
  server_read_timeout server_write_timeout server_idle_timeout : ConfigField
  site_base_url site_homepage : ConfigField
  content_posts_dir content_pages_dir content_media_dir : ConfigField
  content_posts_per_page content_date_format content_summary_length : ConfigField
  field_theme_path cache_max_entries cache_ttl : ConfigField
  sync_strategy sync_poll_interval sync_clone_depth : ConfigField
  webhook_secret webhook_allowed_events webhook_path webhook_rate_limit : ConfigField
  webhook_max_body_size : ConfigField
  webhook_allowed_ips : ℕ → ConfigField
  server_hsts_max_age : ConfigField
  server_trusted_proxy_cidrs : ℕ → ConfigField
  field_feed_type feed_items : ConfigField
  search_max_results search_min_query_length search_max_query_length : ConfigField
  search_max_query_terms search_excerpt_length search_max_docs search_max_tokens : ConfigField
  search_max_index_bytes : ConfigField

pub data Message : Type 0 where
  out_of_range same_as_port conflicting requires_ops_port not_positive bad_url : Message
  empty_static bad_static bad_homepage absolute traversal empty unknown : Message
  bad_duration too_often missing too_short below_minimum no_slash bad_address : Message

pub record FieldError : Type 0 where
  pub field : ConfigField
  pub message : Message

-- A statement `if bad { errs = append(errs, FieldError{…}) }`.
pub record Check : Type 0 where
  pub bad : Bool
  pub error : FieldError

abbrev pub check : Bool → ConfigField → Message → Check
check b f m = record { bad = b; error = record { field = f; message = m } }

-- Such statements in a row.
unfoldable pub report : List Check → List FieldError
report [] = []
report (c ∷ l) = let rest = report l in if c.bad then c.error ∷ rest else rest

abbrev pub outside : ℕ → ℕ → ℤ → Bool
outside lo hi z = ltb_ℤ z (pos lo) || ltb_ℤ (pos hi) z

unfoldable pub validate_server : ServerConfig → List FieldError
validate_server s =
    let ops = effective_ops_port s in
    let ops_field =
      (if is_zero s.ops_port && not (is_zero s.metrics_port)
        then server_metrics_port
        else server_ops_port) in
    report (
      check (outside 1 65_535 s.port) server_port out_of_range
      ∷ check (not (is_zero ops) && outside 1 65_535 ops) ops_field out_of_range
      ∷ check (not (is_zero ops) && ops =ℤ s.port) ops_field same_as_port
      ∷ check
          (not (is_zero s.ops_port)
            && not (is_zero s.metrics_port)
            && not (s.ops_port =ℤ s.metrics_port))
          server_metrics_port conflicting
      ∷ check (s.private_health && is_zero ops) server_private_health requires_ops_port
      ∷ check (leb_ℤ s.read_timeout (pos 0)) server_read_timeout not_positive
      ∷ check (leb_ℤ s.write_timeout (pos 0)) server_write_timeout not_positive
      ∷ check (leb_ℤ s.idle_timeout (pos 0)) server_idle_timeout not_positive
      ∷ [])

-- The host of a URL that `url.Parse` takes apart.
pub record Url : Type 0 where
  pub scheme : Text
  pub host : Text

unfoldable pub bad_base_url : (Text → Option Url) → Text → Bool
bad_base_url parse_url s = elim (parse_url s) [
  | none ↦ true
  | some u ↦ (not (u.scheme == codes "http") && not (u.scheme == codes "https")) || is_empty u.host
]

-- `fs.ValidPath` on code points.
unfoldable pub valid_static : Text → Bool
valid_static p = p == codes "." || all valid_element (split p b'/')

-- The cases of the `switch` behind the first.
unfoldable pub static_rules : Text → List FieldError
static_rules hp = elim (cut_prefix hp (codes "static:")) [
  | some [] ↦ report (check true site_homepage empty_static ∷ [])
  | some (c ∷ sp) ↦ report (check (not (valid_static (c ∷ sp))) site_homepage bad_static ∷ [])
  | none ↦ report (check true site_homepage bad_homepage ∷ [])
]

unfoldable pub validate_homepage : Text → List FieldError
validate_homepage hp =
    if is_empty hp || hp == codes "post_list" then [] else elim (cut_prefix hp (codes "page:")) [
      | some (c ∷ slug) ↦ []
      | some [] ↦ static_rules hp
      | none ↦ static_rules hp
    ]

-- The loop's body for a directory, on Unix.
unfoldable pub validate_dir : ConfigField → Text → List FieldError
unfolding has_prefix contains
validate_dir f value = report (
    check (has_prefix value (codes "/")) f absolute
    ∷ check (contains value (codes "..")) f traversal
    ∷ [])

unfoldable pub validate_content : ContentConfig → List FieldError
unfolding validate_dir
validate_content c =
    validate_dir content_posts_dir c.posts_dir
    ++ validate_dir content_pages_dir c.pages_dir
    ++ validate_dir content_media_dir c.media_dir
    ++ report (
        check (outside 1 100 c.posts_per_page) content_posts_per_page out_of_range
        ∷ check (is_empty c.date_format) content_date_format empty
        ∷ check (outside 50 1000 c.summary_length) content_summary_length out_of_range
        ∷ [])

unfoldable pub validate_theme : ThemeConfig → List FieldError
unfolding validate_dir
validate_theme t = if is_empty t.theme_path then [] else validate_dir field_theme_path t.theme_path

unfoldable pub validate_cache : CacheConfig → List FieldError
validate_cache c = report (
    check (outside 0 100_000 c.max_entries) cache_max_entries out_of_range
    ∷ check (c.cache_enabled && outside 1 (86_400 * second) c.ttl) cache_ttl out_of_range
    ∷ [])

abbrev pub valid_strategies : List Text
valid_strategies = codes "watch" ∷ codes "webhook" ∷ codes "sidecar" ∷ codes "poll" ∷ []

abbrev pub valid_events : List Text
valid_events =
    codes "push"
    ∷ codes "ping"
    ∷ codes "pull_request"
    ∷ codes "release"
    ∷ codes "workflow_dispatch"
    ∷ []

unfoldable pub is_one_of : List Text → Text → Bool
is_one_of l s = any (λ t. t == s) l

unfoldable pub validate_poll_interval : (Text → Option ℤ) → Text → List FieldError
validate_poll_interval parse_duration s = if is_empty s then [] else elim (parse_duration s) [
  | none ↦ report (check true sync_poll_interval bad_duration ∷ [])
  | some d ↦ report (check (ltb_ℤ d (pos (30 * second))) sync_poll_interval too_often ∷ [])
]
