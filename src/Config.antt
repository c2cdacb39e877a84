-- ===== src/Config.antt =====
-- internal/config: the configuration, its defaults (config.go) and, in the modules below, how it is read
-- and checked. Text is code points; a duration is its number of nanoseconds.
pub mod Rules
pub mod Validate
pub mod Env
pub mod Scan
pub mod Loader
mod Tests
use blogflow.Base.{Bool, true, false, List, [], ◌∷◌, ◌*◌, ℕ, zero, if◌then◌else◌, list_eq, nat_eq}
use blogflow.Base.Int.{ℤ, pos}
use blogflow.Base.Text.{Text, codes}
use blogflow.Webhook.Handler.{WebhookConfig}
use blogflow.Search.Index.{SearchConfig}

pub record AuthorConfig : Type 0 where
  pub author_name : Text
  pub email : Text

pub record SiteConfig : Type 0 where
  pub title : Text
  pub description : Text
  pub base_url : Text
  pub language : Text
  pub author : AuthorConfig
  pub homepage : Text
  pub twitter : Text

pub record ContentConfig : Type 0 where
  pub posts_dir : Text
  pub pages_dir : Text
  pub media_dir : Text
  pub posts_per_page : ℤ
  pub date_format : Text
  pub summary_length : ℤ

pub record ThemeConfig : Type 0 where
  pub theme_name : Text
  pub theme_path : Text

pub record ServerConfig : Type 0 where
  pub port : ℤ
  pub ops_port : ℤ
  pub metrics_port : ℤ
  pub private_health : Bool
  pub read_timeout : ℤ
  pub write_timeout : ℤ
  pub idle_timeout : ℤ
  pub tls_terminated : Bool
  pub hsts_max_age : ℤ
  pub trusted_proxy_cidrs : List Text

pub record CacheConfig : Type 0 where
  pub cache_enabled : Bool
  pub ttl : ℤ
  pub max_entries : ℤ

pub record SyncConfig : Type 0 where
  pub strategy : Text
  pub repo : Text
  pub branch : Text
  pub clone_depth : ℤ
  pub poll_interval : Text
  pub sparse_dirs : List Text
  pub webhook : WebhookConfig

pub record FeedConfig : Type 0 where
  pub feed_enabled : Bool
  pub feed_type : Text
  pub items : ℤ

pub record Config : Type 0 where
  pub site : SiteConfig
  pub content : ContentConfig
  pub theme : ThemeConfig
  pub server : ServerConfig
  pub cache : CacheConfig
  pub sync : SyncConfig
  pub feed : FeedConfig
  pub search_config : SearchConfig

abbrev pub is_zero : ℤ → Bool
is_zero (pos zero) = true
is_zero _ = false

-- `EffectiveOpsPort`
unfoldable pub effective_ops_port : ServerConfig → ℤ
effective_ops_port s = if is_zero s.ops_port then s.metrics_port else s.ops_port

abbrev pub second : ℕ
second = 1_000_000_000

-- `Default`, with the secret that YAML cannot set.
abbrev pub default : Config
default = record {
  site = record {
    title = codes "My Blog";
    description = codes "A blog powered by BlogFlow";
    base_url = codes "http://localhost:8080";
    language = codes "en";
    author = record { author_name = []; email = [] };
    homepage = codes "post_list";
    twitter = [];
  };
  content = record {
    posts_dir = codes "posts";
    pages_dir = codes "pages";
    media_dir = codes "media";
    posts_per_page = pos 10;
    date_format = codes "January 2, 2006";
    summary_length = pos 200;
  };
  theme = record { theme_name = codes "default"; theme_path = [] };
  server = record {
    port = pos 8080;
    ops_port = pos 0;
    metrics_port = pos 0;
    private_health = false;
    read_timeout = pos (5 * second);
    write_timeout = pos (10 * second);
    idle_timeout = pos (120 * second);
    tls_terminated = false;
    hsts_max_age = pos 63_072_000;
    trusted_proxy_cidrs = [];
  };
  cache = record { cache_enabled = true; ttl = pos (3600 * second); max_entries = pos 1000 };
  sync = record {
    strategy = codes "watch";
    repo = [];
    branch = codes "main";
    clone_depth = pos 1;
    poll_interval = [];
    sparse_dirs = [];
    webhook = record {
      path = codes "/api/webhook";
      secret = [];
      allowed_events = codes "push" ∷ [];
      allowed_ips = [];
      branch_filter = codes "main";
      rate_limit = pos 10;
      max_body_size = pos 0;
    };
  };
  feed = record { feed_enabled = true; feed_type = codes "atom"; items = pos 20 };
  search_config = record {
    enabled = false;
    max_results = pos 20;
    max_query_length = pos 128;
    min_query_length = pos 2;
    max_query_terms = pos 32;
    excerpt_length = pos 200;
    max_docs = pos 10_000;
    max_tokens = pos 2_000_000;
    max_index_bytes = pos 67_108_864;
  };
}
