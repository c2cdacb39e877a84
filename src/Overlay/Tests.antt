-- ===== src/Overlay/Tests.antt =====
-- Runs of the overlay model, and its theorems at a small overlay: a theme on disk above a content
-- directory above the embedded defaults.
use blogflow.Overlay.Shard.{make_room, shard_lookup, push_front, shard_store}
use blogflow.Base.Assoc.{insert, lookup}
use blogflow.Base.{
  get_elem?, length, list_beq, inl, inr, ℕ, ◌+◌, ◌≤◌, ◌≡◌, refl, true, false, if◌then◌else◌, nat_eq,
  list_eq, ◌==◌, Option, none, some, List, [], ◌∷◌, ◌↔◌, arith, set, All,
}
use blogflow.Base.Text.{split, Text, codes}
use blogflow.Base.Int.{pos}
use blogflow.Overlay.Paths.{valid_path, has_git_component, is_git}
use blogflow.Overlay.Layers.{
  read_up_to, hide_git_in_dir, check_symlink_safe, FsError, invalid, permission, not_exist, Result,
  ok, err, File, DirEntry, FileInfo, Layer, Handle, read_all, max_read_size,
}
use blogflow.Overlay.Cache.{
  neg_cache_lookup, with_shard, Overlay, shard_index, neg_cache_store, replace_layer,
  invalidate_layer, neg_cache_len, shard_capacity,
}
use blogflow.Overlay.Cache.Invariant.{IsConsistent}
use blogflow.Overlay.Cache.Steps.{remembers, neg_cache_store-IsConsistent}
use blogflow.Overlay.Cache.Sound.{
  Lacks, IsSound, neg_cache_store-IsSound, replace_layer-IsSound, invalidate_layer-IsSound,
}
use blogflow.Overlay.Resolve.{
  Attempt, open_path, read_file, stat, handle_of, open_attempt, resolve_from, snapshot,
}
use blogflow.Overlay.Resolve.Serves.{
  read_file-Serves, Serves, open_path-Serves, open_attempt-Faithful,
}
use blogflow.Overlay.Resolve.Race.{store, here, next, resolve_from-IsSound_after-Steps}
use blogflow.Overlay.Dir.{read_dir, hiding_read_dir}
use blogflow.Overlay.Dir.Union.{IsRising, find_entry, top_entry, read_dir-union}
use blogflow.Overlay.Dir.Hidden.{IsBatch, hiding_read_dir-IsBatch}
use blogflow.Overlay.Info.{layer_name, resolve_info, resolve_info-open_path}
use blogflow.Overlay.New.{new_from_paths, new_overlay, DiskLayer}
use blogflow.Overlay.New.Assembled.{Found, IsMade, new_from_paths-IsMade}
use blogflow.Overlay.Bounds.{neg_cache_len-bound}
use blogflow.Overlay.Limits.{ConfinedTo, git_refused, read_all_whole, open_path-Confined}

abbrev file : Text → File
file bytes = record {
  bytes = bytes;
  fault = none;
  info = ok (record { size = 1; is_dir = false });
  entries = none;
}

abbrev entry : Text → DirEntry
entry name = record { name = name; is_dir = false }

-- A layer with one file, listed at the root beside a .git directory.
abbrev one_file : Text → Text → Layer
one_file name bytes = record {
  open_file = λ n. if n == name then ok (file bytes) else err not_exist;
  read_dir =
      λ n. if n == codes "." then ok (entry name ∷ entry (codes ".GIT") ∷ []) else err not_exist;
  stat = none;
}

abbrev post : Text
post = codes "a.md"

-- Every path resolves to itself.
abbrev no_links : Text → Result Text
no_links path = ok path

abbrev directory : Text → Result FileInfo
directory path = ok (record { size = 0; is_dir = true })

abbrev dir_fs : Text → Layer
dir_fs path =
    if path == codes "/theme"
    then one_file (codes "b.css") (codes "x")
    else one_file post (codes "hi")

abbrev digits : ℕ → Text
digits n = (b'0' + n) ∷ []

abbrev made : Result Overlay
made =
    new_from_paths no_links directory dir_fs digits (codes "/theme") (codes "/content") []
      (some (one_file post (codes "old")))

abbrev fresh : Overlay
fresh = record {
  layers = dir_fs (codes "/theme") ∷ dir_fs (codes "/content") ∷ one_file post (codes "old") ∷ [];
  layer_names = codes "theme" ∷ codes "content" ∷ codes "defaults" ∷ [];
  metas =
      record { root_path = codes "/theme"; is_disk = true }
      ∷ record { root_path = codes "/content"; is_disk = true }
      ∷ record { root_path = []; is_disk = false }
      ∷ [];
  shards = λ _. record { m = []; lru = [] };
  gen = 0;
  size = pos 0;
  max_entries = 100_000;
}

made-fresh : made ≡ ok fresh
unfolding new_from_paths
made-fresh = refl

new_from_paths-IsMade_example :
    (dirs : List DiskLayer) × Found no_links directory
      ((codes "/theme", codes "theme")
        ∷ (codes "/content", codes "content")
        ∷ ([], codes "config")
        ∷ [])
      dirs
    × IsMade dir_fs dirs (some (one_file post (codes "old"))) fresh
new_from_paths-IsMade_example =
    new_from_paths-IsMade no_links directory dir_fs digits (codes "/theme") (codes "/content") []
      (some (one_file post (codes "old"))) fresh made-fresh

fresh-IsConsistent : IsConsistent fresh
fresh-IsConsistent = new_from_paths-IsMade_example.2.consistent

-- The overlay that remembers that the theme lacks the post.
abbrev warm : Overlay
warm = neg_cache_store post 1 0 fresh

warm-IsConsistent : IsConsistent warm
warm-IsConsistent = neg_cache_store-IsConsistent post 1 0 fresh fresh-IsConsistent

warm-IsSound : IsSound warm
warm-IsSound =
    neg_cache_store-IsSound post 1 0 fresh fresh-IsConsistent (λ _. (unfold list_beq in refl, tt))
      new_from_paths-IsMade_example.2.sound

warm-remembers : remembers post warm ≡ some 1
unfolding neg_cache_store list_beq lookup with_shard shard_index shard_store push_front
warm-remembers = refl

abbrev served : Handle
served = record { file = file (codes "hi"); hides_git = false }

post_valid : valid_path post ≡ true
unfolding valid_path list_beq split
post_valid = refl

post_plain : has_git_component post ≡ false
unfolding has_git_component split list_beq
post_plain = refl

open_path-Serves_example :
    ((open_path no_links post warm).0 ≡ ok served)
    ↔ Serves no_links (handle_of warm.metas) warm.metas post warm.layers served
open_path-Serves_example =
    open_path-Serves no_links post warm warm-IsConsistent warm-IsSound post_valid post_plain served

read_file-Serves_example :
    ((read_file no_links post warm).0 ≡ ok (codes "hi"))
    ↔ Serves no_links (λ _ f. read_all f) warm.metas post warm.layers (codes "hi")
read_file-Serves_example =
    read_file-Serves no_links post warm warm-IsConsistent warm-IsSound post_valid post_plain
      (codes "hi")

warm_opens : (open_path no_links post warm).0 ≡ ok served
unfolding open_path neg_cache_store list_beq valid_path split has_git_component neg_cache_lookup
    shard_lookup lookup with_shard shard_index shard_store push_front insert make_room
    shard_capacity check_symlink_safe hide_git_in_dir
warm_opens = refl

abbrev attempt : ℕ → Layer → Attempt Handle
attempt = open_attempt no_links (handle_of fresh.metas) fresh.metas post

resolve_from-IsSound_after-Steps_example :
    IsConsistent (resolve_from attempt post (snapshot fresh) warm).1
    × IsSound (resolve_from attempt post (snapshot fresh) warm).1
resolve_from-IsSound_after-Steps_example =
    resolve_from-IsSound_after-Steps attempt post fresh warm 1 (omega arith) (omega arith)
      (next here (store post 1 0 (λ _. (unfold list_beq in refl, tt)) refl))
      (open_attempt-Faithful no_links (handle_of fresh.metas) fresh.metas post 0 fresh.layers)
      fresh-IsConsistent new_from_paths-IsMade_example.2.sound

abbrev draft : Layer
draft = one_file (codes "c.md") (codes "new")

after_invalidation :
    IsSound (invalidate_layer (pos 0) (record warm { layers = set warm.layers 0 draft }))
after_invalidation = invalidate_layer-IsSound 0 draft warm warm-IsConsistent warm-IsSound

abbrev replaced : Overlay
replaced = elim (replace_layer (pos 0) draft warm) [ none ↦ warm | some o ↦ o ]

replaced_lem : replace_layer (pos 0) draft warm ≡ some replaced
unfolding replace_layer neg_cache_store with_shard
replaced_lem = refl

replace_layer-IsSound_example : IsSound replaced
replace_layer-IsSound_example =
    replace_layer-IsSound (pos 0) draft warm replaced replaced_lem warm-IsConsistent warm-IsSound

abbrev listing : List DirEntry
listing = entry post ∷ entry (codes "b.css") ∷ []

listing_lem : read_dir no_links (codes ".") fresh ≡ ok listing
unfolding read_dir list_beq valid_path has_git_component split check_symlink_safe insert
listing_lem = refl

read_dir-union_example :
    IsRising listing
    × ((q : Text)
        → find_entry q listing ≡ (if is_git q then none else top_entry (codes ".") q fresh.layers))
read_dir-union_example = read_dir-union no_links (codes ".") fresh listing listing_lem

abbrev batched : List DirEntry
batched = entry (codes ".git") ∷ entry post ∷ entry (codes ".Git") ∷ []

hiding_read_dir-IsBatch_example :
    (kept : List DirEntry) × (e : Option FsError) × (rest : List DirEntry) × (hiding_read_dir
        (pos 1)
        batched
      ≡ some (kept, e, rest))
    × IsBatch (pos 1) batched kept e rest
    × All (λ x. is_git x.name ≡ false) kept
hiding_read_dir-IsBatch_example = hiding_read_dir-IsBatch (pos 1) batched

-- An overlay of one layer that has stored one entry.
abbrev small : Overlay
small = new_overlay digits (some (one_file post (codes "hi")) ∷ [])

abbrev small_warm : Overlay
small_warm = neg_cache_store (codes "b.md") 1 0 small

small_lacks : Lacks (codes "b.md") 1 small.layers
unfolding new_overlay list_beq
small_lacks = (refl, tt)

neg_cache_len-bound_example :
    (small_warm.size ≡ pos (neg_cache_len small_warm)) × (neg_cache_len small_warm ≤ 100_000)
neg_cache_len-bound_example =
    neg_cache_len-bound digits (some (one_file post (codes "hi")) ∷ []) 1 small_warm
      (next here (store (codes "b.md") 1 0 (λ _. small_lacks) refl))

abbrev git_config : Text
git_config = codes "a/.GiT/config"

git_refused_example :
    (e : FsError) × (e ≡ (if valid_path git_config then permission else invalid))
    × (open_path no_links git_config warm ≡ (err e, warm))
    × (read_file no_links git_config warm ≡ (err e, warm))
    × (stat no_links git_config warm ≡ (err e, warm))
    × (read_dir no_links git_config warm ≡ err e)
unfolding split
git_refused_example =
    git_refused no_links git_config warm (codes "a" ∷ []) (codes "config" ∷ []) (codes ".GiT") refl
      (b'G', b'i', b'T', refl, inr refl, inl refl, inr refl)

open_path-Confined_example :
    (s : Serves no_links (handle_of warm.metas) warm.metas post warm.layers served) × ConfinedTo
      no_links post
      (get_elem? warm.metas s.layer)
open_path-Confined_example =
    open_path-Confined no_links post warm served warm-IsConsistent warm-IsSound
      (λ i m l f a b c d e. absurd (cc)) warm_opens

resolve_info-open_path_example :
    (s : Serves no_links (handle_of warm.metas) warm.metas post warm.layers served) × (resolve_info
        digits no_links post warm
      ≡ ok (record {
        path = post;
        layer_index = s.layer;
        layer_name = layer_name digits no_links warm.layer_names s.layer;
      }))
resolve_info-open_path_example =
    resolve_info-open_path digits no_links post warm served warm-IsConsistent warm-IsSound
      warm_opens

greeting_read : read_all (file (codes "hi")) ≡ ok (codes "hi")
unfolding read_all read_up_to
greeting_read = refl

whole_greeting :
    (codes "hi" ≡ (file (codes "hi")).bytes)
    × ((file (codes "hi")).fault ≡ none)
    × (length (codes "hi") ≤ max_read_size)
whole_greeting = read_all_whole (file (codes "hi")) (codes "hi") greeting_read
