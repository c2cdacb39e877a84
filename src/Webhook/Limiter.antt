-- ===== src/Webhook/Limiter.antt =====
-- The sliding-window rate limiter (rateLimiter of internal/gitops/webhook.go). Times are numbers of
-- nanoseconds of one clock; the clock's reading is an argument of the operation that reads it.
pub mod Window
pub mod Log
pub mod Step
pub mod History
use blogflow.Base.{
  ℕ, zero, suc, ◌+◌, ◌*◌, Bool, true, false, ◌&&◌, not, List, [], ◌∷◌, ◌++◌, ltb, leb,
  if◌then◌else◌, Option, none, some, length, filter, list_eq, nat_eq,
}
use blogflow.Base.Text.{Text, is_empty}
use blogflow.Base.Int.{ℤ, pos, negsuc}
use blogflow.Base.Assoc.{lookup, erase}

-- `lru` holds the entries from the most to the least recently seen client. The source's map
-- `entries` has exactly the elements of the list, since every insertion and removal changes both, so
-- the list, read as an association list, stands for both.
pub record Limiter : Type 0 where
  pub limit : ℕ
  pub window : ℕ
  pub max_size : ℕ
  pub lru : List (Text × List ℕ)

abbrev pub default_max_clients : ℕ
default_max_clients = 10_000

abbrev pub minute : ℕ
minute = 60 * 1_000_000_000

-- `newRateLimiter`; `none` is the nil limiter, which allows everything.
unfoldable pub new_rate_limiter : ℤ → Option Limiter
new_rate_limiter (negsuc n) = none
new_rate_limiter (pos zero) = none
new_rate_limiter (pos (suc n)) =
    some (record { limit = suc n; window = minute; max_size = default_max_clients; lru = [] })

-- `ts.After(now.Add(-window))`
abbrev pub is_recent : ℕ → ℕ → ℕ → Bool
is_recent window now ts = ltb now (ts + window)

-- `len(timestamps) > 0 && timestamps[len(timestamps)-1].After(cutoff)`
unfoldable pub is_live : ℕ → ℕ → List ℕ → Bool
is_live window now [] = false
is_live window now (ts ∷ []) = is_recent window now ts
is_live window now (ts ∷ us ∷ l) = is_live window now (us ∷ l)

-- `evictExpired`: the loop drops elements from the back until it meets a live one, so an element is
-- dropped if all behind it are and it is not live itself.
unfoldable pub evict_expired : ℕ → ℕ → List (Text × List ℕ) → List (Text × List ℕ)
unfolding is_live
evict_expired window now [] = []
evict_expired window now ((ip, timestamps) ∷ l) =
    let behind = evict_expired window now l in
    if is_empty behind && not (is_live window now timestamps) then [] else (ip, timestamps) ∷ behind

-- `evictOldest`
unfoldable pub evict_oldest : List (Text × List ℕ) → List (Text × List ℕ)
evict_oldest [] = []
evict_oldest (e ∷ []) = []
evict_oldest (e ∷ f ∷ l) = e ∷ evict_oldest (f ∷ l)

-- `for len(rl.entries) >= rl.maxSize`. A round removes an entry, so as many rounds as there are
-- entries end the loop, if the maximum is positive (`make_space-ends` in Window).
unfoldable pub make_space : ℕ → ℕ → List (Text × List ℕ) → List (Text × List ℕ)
unfolding evict_oldest
make_space zero max_size l = l
make_space (suc fuel) max_size l =
    let again = make_space fuel max_size (evict_oldest l) in
    if leb max_size (length l) then again else l

unfoldable pub allow : Text → ℕ → Limiter → Bool × Limiter
unfolding evict_expired make_space
allow ip now rl =
    let live = evict_expired rl.window now rl.lru in
    elim (lookup ip live) [
      | some timestamps ↦
          let valid = filter (is_recent rl.window now) timestamps in
          let rest = erase ip live in
          if leb rl.limit (length valid)
          then (false, record rl { lru = (ip, valid) ∷ rest })
          else (true, record rl { lru = (ip, valid ++ now ∷ []) ∷ rest })
      | none ↦
          let room = make_space (length live) rl.max_size live in
          (true, record rl { lru = (ip, now ∷ []) ∷ room })
    ]
