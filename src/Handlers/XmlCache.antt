-- ===== src/Handlers/XmlCache.antt =====
-- Conditional requests (`writeXMLCached` and `etagMatches` of internal/server/handlers/cache.go), from
-- the encoded body on. Times are seconds; `none` is the zero time. Text is
-- code points.
pub mod Revalidate
use blogflow.Base.{
  ℕ, zero, suc, Bool, true, false, ◌&&◌, ◌||◌, not, List, [], ◌∷◌, ◌++◌, any, take, leb,
  if◌then◌else◌, list_eq, nat_eq, ◌==◌, Option, none, some,
}
use blogflow.Base.Text.{Text, codes, is_empty, cut_prefix, split, trim_space}
use blogflow.Webhook.Signature.{hex_encode}

-- `strings.TrimPrefix(field, "W/")`
unfoldable pub trim_weak : Text → Text
trim_weak field = elim (cut_prefix field (codes "W/")) [ none ↦ field | some rest ↦ rest ]

unfoldable pub etag_matches : Text → Text → Bool
unfolding trim_weak
etag_matches inm_header etag =
    trim_space inm_header == codes "*"
    || any (λ field. trim_weak (trim_space field) == etag) (split inm_header b',')

-- The headers of the request that are read.
pub record Conditions : Type 0 where
  pub if_none_match : Text
  pub if_modified_since : Text

pub record XmlResponse : Type 0 where
  pub status : ℕ
  pub etag : Text
  pub last_modified : Option ℕ
  pub body : Text

-- The SHA-256 of the standard library, and `http.ParseTime`, whose error is `none`.
module _ (sha256 : Text → Text) (parse_time : Text → Option ℕ) where
  unfoldable pub etag_of : Text → Text
  etag_of body = b'"' ∷ hex_encode (take 8 (sha256 body)) ++ b'"' ∷ []

  -- Whether the response is 304.
  unfoldable pub not_modified : Conditions → Text → Option ℕ → Bool
  unfolding etag_matches
  not_modified r etag last_mod =
      if not (is_empty r.if_none_match) then etag_matches r.if_none_match etag else elim last_mod [
        | none ↦ false
        | some m ↦
            if is_empty r.if_modified_since
            then false
            else elim (parse_time r.if_modified_since) [ none ↦ false | some t ↦ leb m t ]
      ]

  unfoldable pub write_xml_cached : Conditions → Text → Option ℕ → XmlResponse
  unfolding etag_of not_modified
  write_xml_cached r body last_mod =
      let fresh : Bool = not_modified r (etag_of body) last_mod in
      record {
        status = if fresh then 304 else 200;
        etag = etag_of body;
        last_modified = last_mod;
        body = if fresh then [] else body;
      }
