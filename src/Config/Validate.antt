-- ===== src/Config/Validate.antt =====
-- internal/config/loader.go: `Validate`, which collects one error for each rule that a configuration
-- breaks.
pub mod Server
pub mod Sections
pub mod Homepage
pub mod Sync
pub mod Sound
use blogflow.Base.{
  ℕ, zero, suc, ◌+◌, ◌*◌, Bool, true, false, ◌&&◌, ◌||◌, not, List, [], ◌∷◌, ◌++◌, ltb,
  if◌then◌else◌, ◌==◌, list_eq, nat_eq, Option, none, some,
}
use blogflow.Base.Int.{ℤ, pos, ltb_ℤ, leb_ℤ}
use blogflow.Base.Text.{Text, codes, is_empty, has_prefix, trim_space, byte_len}
use blogflow.Webhook.Handler.{WebhookConfig}
use blogflow.Search.Index.{SearchConfig}
use blogflow.Config.{Config, SyncConfig, FeedConfig, SiteConfig}
use blogflow.Config.Rules.{
  search_max_index_bytes, search_max_tokens, search_max_docs, webhook_allowed_ips,
  search_excerpt_length, not_positive, search_max_query_terms, webhook_max_body_size,
  sync_clone_depth, below_minimum, webhook_rate_limit, no_slash, search_max_query_length, missing,
  feed_items, sync_poll_interval, server_trusted_proxy_cidrs, search_min_query_length, webhook_path,
  unknown, too_short, out_of_range, bad_url, bad_address, site_base_url, webhook_allowed_events,
  search_max_results, sync_strategy, server_hsts_max_age, empty, webhook_secret, field_feed_type,
  ConfigField, Message, FieldError, report, check, outside, validate_server, Url, bad_base_url,
  validate_homepage, validate_content, validate_theme, validate_cache, valid_strategies,
  valid_events, is_one_of, validate_poll_interval,
}

-- The loop over the events.
unfoldable pub validate_events : List Text → List FieldError
unfolding is_one_of
validate_events [] = []
validate_events (ev ∷ l) =
    report (check (not (is_one_of valid_events ev)) webhook_allowed_events unknown ∷ [])
    ++ validate_events l

unfoldable pub validate_search : SearchConfig → List FieldError
validate_search c = report (
    check (outside 1 100 c.max_results) search_max_results out_of_range
    ∷ check (outside 1 16 c.min_query_length) search_min_query_length out_of_range
    ∷ check (outside 8 1024 c.max_query_length) search_max_query_length out_of_range
    ∷ check (ltb_ℤ c.max_query_length c.min_query_length) search_max_query_length below_minimum
    ∷ check (outside 1 128 c.max_query_terms) search_max_query_terms out_of_range
    ∷ check (outside 50 1000 c.excerpt_length) search_excerpt_length out_of_range
    ∷ check (outside 1 1_000_000 c.max_docs) search_max_docs out_of_range
    ∷ check (ltb_ℤ c.max_tokens (pos 1)) search_max_tokens not_positive
    ∷ check (ltb_ℤ c.max_index_bytes (pos 1_048_576)) search_max_index_bytes out_of_range
    ∷ [])

unfoldable pub validate_feed : FeedConfig → List FieldError
unfolding is_one_of
validate_feed f =
    if f.feed_enabled
    then report (
        check (not (is_one_of (codes "atom" ∷ codes "rss" ∷ []) f.feed_type)) field_feed_type
          unknown
        ∷ check (outside 1 100 f.items) feed_items out_of_range
        ∷ [])
    else []

-- `net.ParseIP` and `net.ParseCIDR`, as `NewClientIPResolver` uses them.
module _ (parse_ip : Text → Option Text) (parse_cidr : Text → Option (Text → Bool)) where
  -- `validateCIDROrIP`
  unfoldable pub validate_cidr_or_ip : Text → Option Message
  validate_cidr_or_ip s =
      if is_empty (trim_space s) then some empty else elim (parse_cidr (trim_space s)) [
        | some _ ↦ none
        | none ↦ elim (parse_ip (trim_space s)) [ some _ ↦ none | none ↦ some bad_address ]
      ]

  -- The loops over addresses, which number them.
  unfoldable pub validate_addresses : (ℕ → ConfigField) → ℕ → List Text → List FieldError
  validate_addresses f i [] = []
  validate_addresses f i (s ∷ l) =
      let rest = validate_addresses f (i + 1) l in
      elim (validate_cidr_or_ip s) [
        | none ↦ rest
        | some m ↦ record { field = f i; message = m } ∷ rest
      ]

  unfoldable pub validate_webhook : WebhookConfig → List FieldError
  unfolding validate_events validate_addresses has_prefix
  validate_webhook w =
      report (
        check (ltb (byte_len w.secret) 32) webhook_secret too_short
        ∷ check (is_empty w.allowed_events) webhook_allowed_events empty
        ∷ [])
      ++ validate_events w.allowed_events
      ++ report (
          check (not (has_prefix w.path (codes "/"))) webhook_path no_slash
          ∷ check (outside 1 100 w.rate_limit) webhook_rate_limit out_of_range
          ∷ check (outside 0 10_485_760 w.max_body_size) webhook_max_body_size out_of_range
          ∷ [])
      ++ validate_addresses webhook_allowed_ips 0 w.allowed_ips

  module _ (parse_duration : Text → Option ℤ) where
    unfoldable pub validate_sync : SyncConfig → List FieldError
    unfolding is_one_of validate_poll_interval validate_webhook
    validate_sync s =
        report (check (not (is_one_of valid_strategies s.strategy)) sync_strategy unknown ∷ [])
        ++ validate_poll_interval parse_duration s.poll_interval
        ++ report (
            check (s.strategy == codes "poll" && is_empty s.poll_interval) sync_poll_interval
              missing
            ∷ check (ltb_ℤ s.clone_depth (pos 1)) sync_clone_depth not_positive
            ∷ [])
        ++ (if s.strategy == codes "webhook" then validate_webhook s.webhook else [])

    module _ (parse_url : Text → Option Url) where
      unfoldable pub validate_site : SiteConfig → List FieldError
      unfolding bad_base_url validate_homepage
      validate_site s =
          report (check (bad_base_url parse_url s.base_url) site_base_url bad_url ∷ [])
          ++ validate_homepage s.homepage

      -- `Validate`
      unfoldable pub validate : Config → List FieldError
      unfolding validate_server validate_site validate_content validate_theme validate_cache
          validate_sync validate_addresses validate_feed validate_search
      validate cfg =
          validate_server cfg.server
          ++ validate_site cfg.site
          ++ validate_content cfg.content
          ++ validate_theme cfg.theme
          ++ validate_cache cfg.cache
          ++ validate_sync cfg.sync
          ++ report (
              check (outside 0 63_072_000 cfg.server.hsts_max_age) server_hsts_max_age out_of_range
              ∷ [])
          ++ validate_addresses server_trusted_proxy_cidrs 0 cfg.server.trusted_proxy_cidrs
          ++ validate_feed cfg.feed
          ++ validate_search cfg.search_config
