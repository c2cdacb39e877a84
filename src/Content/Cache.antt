-- ===== src/Content/Cache.antt =====
-- The cache of rendered HTML (internal/content/cache.go). A lock makes each operation one step. Times
-- are numbers of nanoseconds; the clock's reading is an argument.
pub mod Laws
use blogflow.Base.{
  ℕ, zero, suc, ◌+◌, ◌*◌, Bool, true, false, List, [], ◌∷◌, ◌++◌, length, take, ltb, leb,
  if◌then◌else◌, list_eq, nat_eq, Option, none, some,
}
use blogflow.Base.Text.{Text, codes}
use blogflow.Base.Int.{ℤ, pos, negsuc}
use blogflow.Base.Assoc.{lookup, insert, erase}
use blogflow.Webhook.Signature.{hex_encode}

pub record CacheEntry : Type 0 where
  pub html : Text
  pub etag : Text
  pub modified : ℕ
  pub expiry : ℕ

pub record Cache : Type 0 where
  pub entries : List (Text × CacheEntry)
  pub max_entries : ℕ
  pub ttl : ℕ

abbrev pub expired : ℕ → CacheEntry → Bool
expired now e = ltb e.expiry now

-- A setting that is not positive takes its default.
abbrev pub or_default : ℕ → ℤ → ℕ
or_default default (pos (suc n)) = suc n
or_default default _ = default

unfoldable pub new_cache : ℤ → ℤ → Cache
new_cache max_entries ttl = record {
  entries = [];
  max_entries = or_default 1000 max_entries;
  ttl = or_default (3600 * 1_000_000_000) ttl;
}

-- `GetEntry`
unfoldable pub get_entry : Text → ℕ → Cache → Option CacheEntry
get_entry key now c = elim (lookup key c.entries) [
  | none ↦ none
  | some e ↦ if expired now e then none else some e
]

-- `Get`
unfoldable pub get : Text → ℕ → Cache → Option Text
get key now c = elim (lookup key c.entries) [
  | none ↦ none
  | some e ↦ if expired now e then none else some e.html
]

-- The loop that picks the victim: the first expired entry that the map's iteration meets, or else the
-- last entry.
unfoldable pub pick_victim : ℕ → Text → List (Text × CacheEntry) → Text
pick_victim now victim [] = victim
pick_victim now victim ((k, e) ∷ l) =
    let next = pick_victim now k l in if expired now e then k else next

-- The SHA-256 of the standard library, and the order in which `range` visits a map.
module _ (sha256 : Text → Text) (visit : List (Text × CacheEntry) → List (Text × CacheEntry)) where
  abbrev pub entry_of : Text → ℕ → ℕ → CacheEntry
  entry_of html now ttl = record {
    html = html;
    etag = b'"' ∷ hex_encode (take 16 (sha256 html)) ++ b'"' ∷ [];
    modified = now;
    expiry = now + ttl;
  }

  -- The eviction of `Set`, for a key that is new.
  unfoldable pub evict : ℕ → Cache → List (Text × CacheEntry)
  unfolding pick_victim
  evict now c =
      if leb c.max_entries (length c.entries)
      then erase (pick_victim now [] (visit c.entries)) c.entries
      else c.entries

  -- `Set`
  unfoldable pub store : Text → Text → ℕ → Cache → Cache
  unfolding evict
  store key html now c = elim (lookup key c.entries) [
    | some _ ↦ record c { entries = insert key (entry_of html now c.ttl) c.entries }
    | none ↦ record c { entries = insert key (entry_of html now c.ttl) (evict now c) }
  ]

unfoldable pub invalidate : Text → Cache → Cache
invalidate key c = record c { entries = erase key c.entries }

unfoldable pub invalidate_all : Cache → Cache
invalidate_all c = record c { entries = [] }
