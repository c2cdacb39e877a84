-- ===== src/Gitops.antt =====
-- internal/gitops: how changed content reaches the server without a webhook.
pub mod Paths
pub mod Debounce
pub mod Watch
pub mod Pull
pub mod Sparse
pub mod Credentials
pub mod Url
pub mod Auth
mod Tests
