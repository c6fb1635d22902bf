-- ===== src/Worker/Cache.antt =====
-- worker/data_plane.py: prune_cache. A directory listing is a list of files; `path` is the rank of a
-- file's path among all paths.
pub mod Bytes
pub mod Fits
pub mod Kept
use computecluster.Prelude.{
  ℕ, ◌+◌, ◌-◌, Bool, true, false, List, [], ◌∷◌, not, ◌&&◌, ◌||◌, ltb, leb, ◌==◌, if◌then◌else◌,
  any, length, filter_by, sort_by,
}

-- What the code reads of a file: its name, its stat, and whether `protected` holds its path.
pub record CacheFile : Type 0 where
  pub path : ℕ
  pub is_part : Bool
  pub mtime_ns : ℕ
  pub size : ℕ
  pub nlink : ℕ
  pub is_protected : Bool

pub data DatasetPolicyError : Type 0 where
  required_too_large cache_full : DatasetPolicyError

pub data Pruned : Type 0 where
  removed : ℕ → ℕ → Pruned
  raises : DatasetPolicyError → Pruned

abbrev pub stale_partial_download_ns : ℕ
stale_partial_download_ns = 600000000000

-- A `.part` file that no download writes any more.
abbrev pub is_stale : ℕ → CacheFile → Bool
is_stale now f = f.is_part && ltb f.mtime_ns (now - stale_partial_download_ns)

abbrev pub is_pinned : CacheFile → Bool
is_pinned f = not f.is_part && (f.is_protected || ltb 1 f.nlink)

abbrev pub is_evictable : CacheFile → Bool
is_evictable f = not f.is_part && not (f.is_protected || ltb 1 f.nlink)

abbrev pub is_entry : CacheFile → Bool
is_entry f = not f.is_part

abbrev pub has_path : ℕ → CacheFile → Bool
has_path p f = f.path == p

unfoldable pub bytes : (CacheFile → Bool) → List CacheFile → ℕ
bytes p [] = 0
bytes p (f ∷ fs) = let rest = bytes p fs in if p f then f.size + rest else rest

unfoldable pub unlink : ℕ → List CacheFile → List CacheFile
unlink p files = filter_by (λ f. not (has_path p f)) files

-- sorted(entries): by time of last use, then by path
unfoldable pub used_before : CacheFile → CacheFile → Bool
used_before f g = ltb f.mtime_ns g.mtime_ns || (f.mtime_ns == g.mtime_ns && ltb f.path g.path)

-- The state of the eviction loop.
pub record CacheState : Type 0 where
  pub files : List CacheFile
  pub total : ℕ
  pub removed_files : ℕ
  pub removed_bytes : ℕ

unfoldable pub evict : CacheFile → CacheState → CacheState
unfolding unlink
evict e s = record {
  files = unlink e.path s.files;
  total = s.total - e.size;
  removed_files = s.removed_files + 1;
  removed_bytes = s.removed_bytes + e.size;
}

unfoldable pub evict_until : ℕ → ℕ → List CacheFile → CacheState → CacheState
unfolding evict
evict_until limit required [] s = s
evict_until limit required (e ∷ es) s =
    let rest = evict_until limit required es (evict e s) in
    if leb (s.total + required) limit then s else rest

-- The scan of the directories: stale partial downloads go, the rest is counted.
unfoldable pub scan : ℕ → List CacheFile → CacheState
unfolding bytes
scan now files = record {
  files = filter_by (λ f. not (is_stale now f)) files;
  total = bytes is_entry files;
  removed_files = length (filter_by (is_stale now) files);
  removed_bytes = bytes (is_stale now) files;
}

unfoldable pub prune_cache : ℕ → ℕ → ℕ → List CacheFile → List CacheFile × Pruned
unfolding scan evict_until used_before
prune_cache limit required now files =
    let s =
      evict_until limit required (sort_by used_before (filter_by is_evictable files))
        (scan now files) in
    if ltb limit required
    then (files, raises required_too_large)
    else if ltb limit (s.total + required)
    then (s.files, raises cache_full)
    else (s.files, removed s.removed_files s.removed_bytes)
