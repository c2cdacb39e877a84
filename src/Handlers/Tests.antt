-- ===== src/Handlers/Tests.antt =====
-- The handlers' theorems at a small list and a small feed.
use blogflow.Base.{ℕ, ◌≡◌, refl, true, List, [], ◌∷◌, length, ◌↔◌}
use blogflow.Base.{All, ◌<◌, Option, none, if◌then◌else◌, ◌==◌, list_eq, nat_eq, arith}
use blogflow.Base.Text.{Text, codes}
use blogflow.Handlers.XmlCache.{write_xml_cached, etag_of}
use blogflow.Handlers.XmlCache.Revalidate.{one_etag, write_xml_cached-revalidates}
use blogflow.Base.Int.{pos}
use blogflow.Handlers.Paginate.{paginate, valid_page}
use blogflow.Handlers.Paginate.Reach.{listed, paginate-listed, valid_page-paginate}

abbrev posts : List ℕ
posts = 5 ∷ 6 ∷ 7 ∷ []

last_page : (paginate posts (pos 9) (pos 2)).0 ≡ 7 ∷ []
unfolding paginate
last_page = refl

paginate-listed_example :
    listed (paginate posts (pos 1) (pos 2)).1.total_pages 0 (pos 2) posts ≡ posts
paginate-listed_example = paginate-listed 1 posts (pos 1)

page_shown :
    (valid_page (length posts) (pos 3) (pos 2) ≡ true)
    ↔ (pos (paginate posts (pos 3) (pos 2)).1.current_page ≡ pos 3)
page_shown = valid_page-paginate posts (pos 3) 2

abbrev same : Text → Text
same s = s

abbrev no_time : Text → Option ℕ
no_time s = none

feed_bytes : All (λ c. c < 256) (same (codes "feed"))
feed_bytes = ground arith

write_xml_cached-revalidates_example :
    write_xml_cached same no_time
      (record {
        if_none_match = one_etag true (etag_of same no_time (codes "feed"));
        if_modified_since = [];
      })
      (codes "feed")
      none
    ≡ (if etag_of same no_time (codes "feed") == etag_of same no_time (codes "feed")
        then record {
          status = 304;
          etag = etag_of same no_time (codes "feed");
          last_modified = none;
          body = [];
        }
        else record {
          status = 200;
          etag = etag_of same no_time (codes "feed");
          last_modified = none;
          body = codes "feed";
        })
write_xml_cached-revalidates_example =
    write_xml_cached-revalidates same no_time true (codes "feed") (codes "feed") [] none feed_bytes
