-- ===== src/Handlers.antt =====
-- What the handlers share (internal/server/handlers): the pages of a list of posts, and the conditional
-- requests of feed and sitemap.
pub mod Paginate
pub mod XmlCache
pub mod Search
mod Tests
