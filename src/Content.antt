-- ===== src/Content.antt =====
-- The content pipeline (internal/content): the cache of rendered pages, the front matter and the scanner.
pub mod Cache
pub mod FrontMatter
pub mod Scanner
mod Tests
