-- ===== src/Lib.antt =====
-- Verification library of BlogFlow, a blog engine in Go that serves Markdown from a stack of file
-- systems. The modules model the program's own logic as functions that run, and prove what makes it
-- correct; a definition is translated from the Go function that the comment before it names.
--
-- The parts, and how they work together:
--
-- - Base: lists, numbers, signed integers, text and association lists (Go's slices, ints, strings
--   and maps) over the native numbers, file names, and Go's stable sort.
-- - Overlay (internal/overlayfs/overlayfs.go): the layered file system through which the server
--   reads themes, content and configuration. Paths: names and .git; Layers: the file systems below,
--   errors, the symlink check (checkSymlinkSafe), bounded reads (readAll); Shard: a shard of the
--   negative cache with its LRU list; Cache: the state of OverlayFS, store, lookup, InvalidateLayer,
--   InvalidateAll, ReplaceLayer; Resolve: Open, ReadFile, Stat; Dir: ReadDir and the handle that
--   hides .git; Info: Resolve; New: NewOverlayFS, WithLayerNames, NewFromPaths, with New/Assembled on
--   the layers that it makes; Limits: what it refuses; Bounds: how much the negative cache holds. The negative cache is consistent (Cache/Invariant) and sound (Cache/Sound)
--   before and after every operation; the resolvers are transparent with respect to it.
-- - Webhook (internal/gitops/webhook.go): what makes the server reload. Limiter: the sliding window
--   (rateLimiter), against a reference that remembers every delivery; Signature: the two checks of
--   the signature; Handler: the function that buildHandler returns, with its two budgets.
-- - Search (internal/search): Tokens, Query, Index (Index/Ends says how a build ends), Pages (Search
--   and its ranking) and Excerpt.
-- - Content (internal/content): Cache (cache.go), FrontMatter (frontmatter.go, and isSafeURL of
--   sanitize.go; FrontMatter/Plain says what names and addresses pass) and Scanner (scanner.go). Scanner.Scan is the visit of a file by the two walks,
--   with the slugs and paths; Scanner.Build the conflicts, the sorts and the indexes that end a
--   scan; Scanner/Given says which posts the visited files give.
-- - Config (internal/config): Config is the configuration with its defaults; Rules and Validate are
--   Validate and its checks (config.go); Env is applyEnvOverrides with every BLOGFLOW_ variable,
--   Scan the search for secrets, anchors and aliases, and Loader is Load, Reload, OnChange
--   (loader.go, reload.go); Loader/Clean says what a configuration that loads has been through.
-- - Gitops (internal/gitops): Paths are the tests on names, Debounce the event loops and Watch the
--   directories of watch.go and sidecar.go. Sparse is validateSparseDirs with path.Clean,
--   Credentials the redaction of redact.go with its pattern as functions, Url the checks, the split
--   and the scrub of URLs; Pull is CloneOrPull (pull.go) and the tick of poll.go; Auth is
--   LoadAuthFromEnv (auth.go).
-- - Server (internal/server): ClientIp (clientip.go), the address that the webhook's limiter and
--   allowlist go by, and RequestId (requestid.go).
-- - Handlers (internal/server/handlers): Paginate (handlers.go), the pages of a list of posts, and
--   XmlCache (cache.go), the conditional requests of feed and sitemap; Search (search.go) is the
--   handler of searches, which runs the search of Search.Pages on the index of the site's snapshot.
-- - EnvFile (internal/envfile): a secret from a variable or from the file it names.
--
-- How code is rendered. A struct is a record, an enumeration a data type, a map an association list,
-- an error a value. A mutex makes the operation that holds it one step; Overlay/Resolve/Race puts
-- any number of steps of other goroutines between a resolver's snapshot and its store. Overlay
-- paths, and the bodies, signatures, refs and secret of the webhook, are bytes; other text is code points. Go's int is ℤ where it
-- may be negative and ℕ elsewhere; the generation of the cache wraps at 2^64 and its hash at 2^32.
-- The clock's reading is an argument of the operation that reads it.
--
-- Parameters stand for what the repository does not contain: the operating system (EvalSymlinks,
-- Stat, DirFS), HMAC and SHA-256, the parsers of addresses, URLs, durations and numbers, the JSON
-- and YAML decoders, the Markdown renderer, html.UnescapeString, fsnotify's events and the walks of
-- directories, the git client, Unicode tables and NFC, float64 in the ranking, the order in which Go
-- visits a map. Where a theorem relies on one, the hypothesis says what is documented of it, and a
-- witness in the module's Tests shows that it can hold.
--
-- Bounds and fuel. The rounds of gitHidingDir.ReadDir get one more than the directory has entries
-- (Overlay/Dir/Hidden proves that this is enough); the eviction loop of the limiter gets one for
-- each entry (Webhook/Limiter/Window). All other loops are structural.
--
-- Not modelled: logging, metrics and tracing; Markdown rendering and templates; the HTTP server and
-- its other handlers; the choice of the strategy; the command line.
pub mod Base
pub mod Overlay
pub mod Webhook
pub mod Search
pub mod Content
pub mod Server
pub mod Handlers
pub mod EnvFile
pub mod Config
pub mod Gitops
