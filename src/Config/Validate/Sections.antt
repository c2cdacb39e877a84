-- ===== src/Config/Validate/Sections.antt =====
-- internal/config/loader.go: what `Validate` accepts in each section, described without its tests.
use blogflow.Base.{
  ◌*◌, ◌≡◌, ◌≢◌, ◌⊎◌, ◌↔◌, true, false, List, [], ◌∷◌, list_eq, nat_eq, list_beq_iff, arith,
}
use blogflow.Base.Int.{ℤ, pos, negsuc, ltb_ℤ, ◌≤ℤ◌}
use blogflow.Base.Text.{Text, codes, is_empty, has_prefix, contains}
use blogflow.Config.{ContentConfig, ThemeConfig, CacheConfig, FeedConfig, second}
use blogflow.Search.Index.{SearchConfig}
use blogflow.Config.Rules.{
  content_media_dir, content_pages_dir, field_theme_path, content_posts_dir, ConfigField, report,
  validate_dir, validate_content, validate_theme, validate_cache, is_one_of,
}
use blogflow.Config.Validate.{validate_search, validate_feed}
use blogflow.Config.Validate.Server.{InRange, AtLeast, report-Passes, outside_iff, below_iff}

-- Not absolute, and without "..".
abbrev pub IsRelative : Text → Type 0
IsRelative s = (has_prefix s (codes "/") ≡ false) × (contains s (codes "..") ≡ false)

validate_dir-IsRelative : (f : ConfigField) (s : Text) → (validate_dir f s ≡ []) ↔ IsRelative s
unfolding validate_dir report
validate_dir-IsRelative f s = ground arith

pub empty_iff {ℓ} : {A : Type ℓ} (xs : List A) → (is_empty xs ≡ false) ↔ (xs ≢ [])
empty_iff [] = ground arith
empty_iff (x ∷ xs) = ground arith

pub record ContentIsValid (c : ContentConfig) : Type 0 where
  pub posts : IsRelative c.posts_dir
  pub pages : IsRelative c.pages_dir
  pub media : IsRelative c.media_dir
  pub per_page : InRange 1 100 c.posts_per_page
  pub dated : c.date_format ≢ []
  pub summary : InRange 50 1000 c.summary_length

pub validate_content-ContentIsValid :
    (c : ContentConfig) → (validate_content c ≡ []) ↔ ContentIsValid c
unfolding validate_content report
validate_content-ContentIsValid c = ground (
  arith,
  validate_dir-IsRelative content_posts_dir c.posts_dir,
  validate_dir-IsRelative content_pages_dir c.pages_dir,
  validate_dir-IsRelative content_media_dir c.media_dir,
  outside_iff 1 100 c.posts_per_page,
  empty_iff c.date_format,
  outside_iff 50 1000 c.summary_length,
)

abbrev pub ThemeIsValid : ThemeConfig → Type 0
ThemeIsValid t = (t.theme_path ≡ []) ⊎ IsRelative t.theme_path

pub validate_theme-ThemeIsValid : (t : ThemeConfig) → (validate_theme t ≡ []) ↔ ThemeIsValid t
unfolding validate_theme
validate_theme-ThemeIsValid t =
    ground (arith, validate_dir-IsRelative field_theme_path t.theme_path, empty_iff t.theme_path)

pub record CacheIsValid (c : CacheConfig) : Type 0 where
  pub entries : InRange 0 100_000 c.max_entries
  pub lifetime : c.cache_enabled ≡ true → InRange 1 (86_400 * second) c.ttl

pub validate_cache-CacheIsValid : (c : CacheConfig) → (validate_cache c ≡ []) ↔ CacheIsValid c
unfolding validate_cache report
validate_cache-CacheIsValid c =
    ground (arith, outside_iff 0 100_000 c.max_entries, outside_iff 1 (86_400 * second) c.ttl)

abbrev pub OneOf : List Text → Text → Type 0
OneOf [] s = ⊥
OneOf (t ∷ l) s = (t ≡ s) ⊎ OneOf l s

pub is_one_of_iff : (l : List Text) (s : Text) → (is_one_of l s ≡ true) ↔ OneOf l s
unfolding is_one_of
is_one_of_iff [] s = ground arith
is_one_of_iff (t ∷ l) s = ground (arith, list_beq_iff t s, is_one_of_iff l s)

pub record FeedIsValid (f : FeedConfig) : Type 0 where
  pub kind : OneOf (codes "atom" ∷ codes "rss" ∷ []) f.feed_type
  pub size : InRange 1 100 f.items

pub validate_feed-FeedIsValid :
    (f : FeedConfig) → (validate_feed f ≡ []) ↔ (f.feed_enabled ≡ true → FeedIsValid f)
unfolding validate_feed report
validate_feed-FeedIsValid f =
    ground (
      arith,
      is_one_of_iff (codes "atom" ∷ codes "rss" ∷ []) f.feed_type,
      outside_iff 1 100 f.items,
    )

order_iff : (a b : ℤ) → (ltb_ℤ a b ≡ false) ↔ (b ≤ℤ a)
order_iff (pos a) (pos b) = ground arith
order_iff (pos a) (negsuc b) = ground arith
order_iff (negsuc a) (pos b) = ground arith
order_iff (negsuc a) (negsuc b) = ground arith

pub record SearchIsValid (c : SearchConfig) : Type 0 where
  pub results : InRange 1 100 c.max_results
  pub shortest : InRange 1 16 c.min_query_length
  pub longest : InRange 8 1024 c.max_query_length
  pub ordered : c.min_query_length ≤ℤ c.max_query_length
  pub terms : InRange 1 128 c.max_query_terms
  pub excerpt : InRange 50 1000 c.excerpt_length
  pub documents : InRange 1 1_000_000 c.max_docs
  pub tokens : AtLeast 1 c.max_tokens
  pub bytes : AtLeast 1_048_576 c.max_index_bytes

pub validate_search-SearchIsValid : (c : SearchConfig) → (validate_search c ≡ []) ↔ SearchIsValid c
unfolding validate_search
validate_search-SearchIsValid c = (sound, complete)
  where
    sound : validate_search c ≡ [] → SearchIsValid c
    sound h =
        let (
          results,
          (shortest, (longest, (order, (terms, (excerpt, (docs, (tokens, (bytes, _)))))))),
        ) =
          (report-Passes _).0 h in
        record {
          results = (outside_iff 1 100 c.max_results).0 results;
          shortest = (outside_iff 1 16 c.min_query_length).0 shortest;
          longest = (outside_iff 8 1024 c.max_query_length).0 longest;
          ordered = (order_iff c.max_query_length c.min_query_length).0 order;
          terms = (outside_iff 1 128 c.max_query_terms).0 terms;
          excerpt = (outside_iff 50 1000 c.excerpt_length).0 excerpt;
          documents = (outside_iff 1 1_000_000 c.max_docs).0 docs;
          tokens = (below_iff 1 c.max_tokens).0 tokens;
          bytes = (below_iff 1_048_576 c.max_index_bytes).0 bytes;
        }

    complete : SearchIsValid c → validate_search c ≡ []
    complete v = (report-Passes _).1 (
      (outside_iff 1 100 c.max_results).1 v.results,
      (
        (outside_iff 1 16 c.min_query_length).1 v.shortest,
        (
          (outside_iff 8 1024 c.max_query_length).1 v.longest,
          (
            (order_iff c.max_query_length c.min_query_length).1 v.ordered,
            (
              (outside_iff 1 128 c.max_query_terms).1 v.terms,
              (
                (outside_iff 50 1000 c.excerpt_length).1 v.excerpt,
                (
                  (outside_iff 1 1_000_000 c.max_docs).1 v.documents,
                  (
                    (below_iff 1 c.max_tokens).1 v.tokens,
                    ((below_iff 1_048_576 c.max_index_bytes).1 v.bytes, tt),
                  ),
                ),
              ),
            ),
          ),
        ),
      ),
    )
