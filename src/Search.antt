-- ===== src/Search.antt =====
-- The full-text search (internal/search): tokens, queries, the index and its caps, the ranking, the
-- pages of results and the excerpts. Text is code points, of valid UTF-8. The Unicode tables behind
-- letters, digits and lower case, and the NFC normalization of golang.org/x/text, are arguments.
pub mod Tokens
pub mod Query
pub mod Excerpt
pub mod Index
pub mod Pages
mod Tests
