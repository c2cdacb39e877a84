-- ===== src/Config/Validate/Sound.antt =====
-- internal/config/loader.go: what `Validate` accepts as a whole.
use blogflow.Base.{
  Bool, ◌≡◌, ◌≢◌, ◌⊎◌, ◌↔◌, inl, inr, true, false, List, [], ◌++◌, list_eq, nat_eq, list_beq_iff,
  Option, some, arith, Option-cases, All,
}
use blogflow.Base.Int.{ℤ}
use blogflow.Base.Text.{Text, codes}
use blogflow.Config.{Config}
use blogflow.Config.Rules.{server_trusted_proxy_cidrs, Url, bad_base_url}
use blogflow.Config.Validate.{validate, validate_site}
use blogflow.Config.Validate.Server.{
  InRange, report-Passes, append_nil_iff, outside_iff, ServerIsValid, validate_server-ServerIsValid,
}
use blogflow.Config.Validate.Sections.{
  empty_iff, ContentIsValid, ThemeIsValid, CacheIsValid, FeedIsValid, SearchIsValid,
  validate_content-ContentIsValid, validate_theme-ThemeIsValid, validate_cache-CacheIsValid,
  validate_feed-FeedIsValid, validate_search-SearchIsValid,
}
use blogflow.Config.Validate.Homepage.{Homepage, validate_homepage-Homepage}
use blogflow.Config.Validate.Sync.{
  IsAddress, SyncIsValid, validate_addresses-IsAddress, validate_sync-SyncIsValid,
}

joined {ℓ} : {A : Type ℓ} {xs ys : List A} → xs ≡ [] → ys ≡ [] → xs ++ ys ≡ []
joined p q = (append_nil_iff _ _).1 (p, q)

module _ (parse_ip : Text → Option Text) (parse_cidr : Text → Option (Text → Bool))
    (parse_duration : Text → Option ℤ) (parse_url : Text → Option Url) where
  -- An absolute URL of the web.
  pub record IsBaseUrl (s : Text) : Type 0 where
    pub url : Url
    pub parsed : parse_url s ≡ some url
    pub web : (url.scheme ≡ codes "http") ⊎ (url.scheme ≡ codes "https")
    pub hosted : url.host ≢ []

  bad_base_url-IsBaseUrl : (s : Text) → (bad_base_url parse_url s ≡ false) ↔ IsBaseUrl s
  unfolding bad_base_url
  bad_base_url-IsBaseUrl s = (sound, complete)
    where
      sound : bad_base_url parse_url s ≡ false → IsBaseUrl s
      sound h = elim (Option-cases (parse_url s)) [
        | inl e ↦ absurd (ground arith)
        | inr (u, e) ↦ record {
          url = u;
          parsed = e;
          web =
              ground (
                arith,
                list_beq_iff u.scheme (codes "http"),
                list_beq_iff u.scheme (codes "https"),
              );
          hosted = ground (arith, empty_iff u.host);
        }
      ]

      complete : IsBaseUrl s → bad_base_url parse_url s ≡ false
      complete v = ground (
        arith,
        v.parsed,
        v.web,
        v.hosted,
        list_beq_iff v.url.scheme (codes "http"),
        list_beq_iff v.url.scheme (codes "https"),
        empty_iff v.url.host,
      )

  -- What every rule of `Validate` together ask for.
  pub record IsValid (cfg : Config) : Type 0 where
    pub server_valid : ServerIsValid cfg.server
    pub reachable : IsBaseUrl cfg.site.base_url
    pub home : Homepage cfg.site.homepage
    pub content_valid : ContentIsValid cfg.content
    pub theme_valid : ThemeIsValid cfg.theme
    pub cache_valid : CacheIsValid cfg.cache
    pub sync_valid : SyncIsValid parse_ip parse_cidr parse_duration cfg.sync
    pub hsts : InRange 0 63_072_000 cfg.server.hsts_max_age
    pub proxies : All (IsAddress parse_ip parse_cidr) cfg.server.trusted_proxy_cidrs
    pub feed_valid : cfg.feed.feed_enabled ≡ true → FeedIsValid cfg.feed
    pub search_valid : SearchIsValid cfg.search_config

  pub validate-IsValid :
      (cfg : Config)
      → (validate parse_ip parse_cidr parse_duration parse_url cfg ≡ []) ↔ IsValid cfg
  unfolding validate validate_site
  validate-IsValid cfg = (sound, complete)
    where
      sound : validate parse_ip parse_cidr parse_duration parse_url cfg ≡ [] → IsValid cfg
      sound h =
          let (h8, search) = (append_nil_iff _ _).0 h in
          let (h7, feed) = (append_nil_iff _ _).0 h8 in
          let (h6, proxies) = (append_nil_iff _ _).0 h7 in
          let (h5, hsts) = (append_nil_iff _ _).0 h6 in
          let (h4, sync) = (append_nil_iff _ _).0 h5 in
          let (h3, cache) = (append_nil_iff _ _).0 h4 in
          let (h2, theme) = (append_nil_iff _ _).0 h3 in
          let (h1, content) = (append_nil_iff _ _).0 h2 in
          let (server, site) = (append_nil_iff _ _).0 h1 in
          let (base, home) = (append_nil_iff _ _).0 site in
          record {
            server_valid = (validate_server-ServerIsValid cfg.server).0 server;
            reachable = (bad_base_url-IsBaseUrl cfg.site.base_url).0 ((report-Passes _).0 base).0;
            home = (validate_homepage-Homepage cfg.site.homepage).0 home;
            content_valid = (validate_content-ContentIsValid cfg.content).0 content;
            theme_valid = (validate_theme-ThemeIsValid cfg.theme).0 theme;
            cache_valid = (validate_cache-CacheIsValid cfg.cache).0 cache;
            sync_valid =
                (validate_sync-SyncIsValid parse_ip parse_cidr parse_duration cfg.sync).0 sync;
            hsts =
                (outside_iff 0 63_072_000 cfg.server.hsts_max_age).0 ((report-Passes _).0 hsts).0;
            proxies =
                (validate_addresses-IsAddress parse_ip parse_cidr server_trusted_proxy_cidrs 0
                    cfg.server.trusted_proxy_cidrs).0
                  proxies;
            feed_valid = (validate_feed-FeedIsValid cfg.feed).0 feed;
            search_valid = (validate_search-SearchIsValid cfg.search_config).0 search;
          }

      complete : IsValid cfg → validate parse_ip parse_cidr parse_duration parse_url cfg ≡ []
      complete v =
          joined
            (joined
              (joined
                (joined
                  (joined
                    (joined
                      (joined
                        (joined
                          (joined ((validate_server-ServerIsValid cfg.server).1 v.server_valid) (
                            joined
                              ((report-Passes _).1
                                ((bad_base_url-IsBaseUrl cfg.site.base_url).1 v.reachable, tt))
                              ((validate_homepage-Homepage cfg.site.homepage).1 v.home)))
                          ((validate_content-ContentIsValid cfg.content).1 v.content_valid))
                        ((validate_theme-ThemeIsValid cfg.theme).1 v.theme_valid))
                      ((validate_cache-CacheIsValid cfg.cache).1 v.cache_valid))
                    ((validate_sync-SyncIsValid parse_ip parse_cidr parse_duration cfg.sync).1
                      v.sync_valid))
                  ((report-Passes _).1
                    ((outside_iff 0 63_072_000 cfg.server.hsts_max_age).1 v.hsts, tt)))
                ((validate_addresses-IsAddress parse_ip parse_cidr server_trusted_proxy_cidrs 0
                    cfg.server.trusted_proxy_cidrs).1
                  v.proxies))
              ((validate_feed-FeedIsValid cfg.feed).1 v.feed_valid))
            ((validate_search-SearchIsValid cfg.search_config).1 v.search_valid)
