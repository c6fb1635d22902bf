-- ===== src/Worker/Cache/Fits.antt =====
-- What the eviction leaves.
use mathlib.Core.List.{Memᴰ}
use computecluster.Prelude.Sorted.{All-Memᴰ, All-filter_by}
use computecluster.Prelude.{
  ℕ, ◌+◌, ◌-◌, ◌≤◌, ◌<◌, Bool, true, false, List, [], ◌∷◌, not, ◌&&◌, ltb, leb, ◌==◌, ◌≡◌, ◌⊎◌, inl,
  inr, refl, sym, ◌∙◌, arith, All, All-map_where, All-sort_by, filter_by, sort_by, count_by,
  count_by-sort_by, count_by-filter_by, Bool-cases, ==_refl,
}
use computecluster.Worker.Cache.{
  CacheFile, CacheState, removed, raises, cache_full, bytes, has_path, unlink, evict, evict_until,
  scan, prune_cache, used_before, is_entry, is_evictable, is_pinned, is_stale,
}
use computecluster.Worker.Cache.Kept.{IsInUse, used_left, left_own}
use computecluster.Worker.Cache.Bytes.{
  bytes_at, bytes-unlink, bytes_at-unlink, bytes_at-member, bytes_split, bytes-sort_by,
  bytes-filter_by, bytes_cong,
}

-- What a file among the entries still to be evicted is: alone at its path, and counted.
record IsCounted (files : List CacheFile) (e : CacheFile) : Type 0 where
  entry : bytes_at is_entry e.path files ≡ e.size
  pinned : bytes_at is_pinned e.path files ≡ 0

-- The loop's invariant: the total is the size of the entries, and those to be evicted are counted.
record IsReady (pinned_bytes : ℕ) (s : CacheState) (es : List CacheFile) : Type 0 where
  total : s.total ≡ bytes is_entry s.files
  kept : bytes is_pinned s.files ≡ pinned_bytes
  counted : All (IsCounted s.files) es
  distinct : (p : ℕ) → count_by (has_path p) es ≤ 1

other_path :
    (e : CacheFile) (es : List CacheFile)
    → count_by (has_path e.path) es ≡ 0
    → All (λ d. (d.path == e.path) ≡ false) es
unfolding count_by
other_path e [] h = tt
other_path e (d ∷ ds) h = (ground arith, other_path e ds (ground arith))

evict-IsCounted :
    (e d : CacheFile) (files : List CacheFile)
    → (d.path == e.path) ≡ false
    → IsCounted files d
    → IsCounted (unlink e.path files) d
evict-IsCounted e d files n c = record {
  entry = bytes_at-unlink is_entry d.path e.path files n ∙ c.entry;
  pinned = bytes_at-unlink is_pinned d.path e.path files n ∙ c.pinned;
}

All-IsCounted :
    (e : CacheFile) (files es : List CacheFile)
    → All (λ d. (d.path == e.path) ≡ false) es
    → All (IsCounted files) es
    → All (IsCounted (unlink e.path files)) es
All-IsCounted e files [] n c = tt
All-IsCounted e files (d ∷ ds) n c =
    (evict-IsCounted e d files n.0 c.0, All-IsCounted e files ds n.1 c.1)

evict-IsReady :
    (k : ℕ) (s : CacheState) (e : CacheFile) (es : List CacheFile)
    → IsReady k s (e ∷ es)
    → IsReady k (evict e s) es
unfolding evict count_by
evict-IsReady k s e es r = record {
  total = omega (arith, r.total, bytes-unlink is_entry e.path s.files, r.counted.0.entry);
  kept = omega (arith, r.kept, bytes-unlink is_pinned e.path s.files, r.counted.0.pinned);
  counted =
      All-IsCounted e s.files es
        (other_path e es (ground (arith, r.distinct e.path, ==_refl e.path))) r.counted.1;
  distinct = λ p. ground (arith, r.distinct p);
}

-- After the loop the total is right and the pinned files are there, and either what is required fits
-- or every entry was evicted.
abbrev Left : ℕ → ℕ → ℕ → CacheState → List CacheFile → CacheState → Type 0
Left k limit required s es t =
    (t.total ≡ bytes is_entry t.files)
    × (bytes is_pinned t.files ≡ k)
    × ((t.total + required ≤ limit) ⊎ (t.total + bytes (λ e. true) es ≡ s.total))

evict_until-Left :
    (k limit required : ℕ) (s : CacheState) (es : List CacheFile)
    → IsReady k s es
    → Left k limit required s es (evict_until limit required es s)
unfolding evict_until bytes
evict_until-Left k limit required s [] r = (r.total, r.kept, inr (omega arith))
evict_until-Left k limit required s (e ∷ es) r =
    elim (Bool-cases (leb (s.total + required) limit)) [
      | inl y ↦ rw (y) (r.total, r.kept, inl (ground arith))
      | inr n ↦
          let (total, kept, left) =
            evict_until-Left k limit required (evict e s) es (evict-IsReady k s e es r) in
          rw (n) (
            total,
            kept,
            unfold evict in
                elim left [
                  | inl y ↦ inl y
                  | inr q ↦ inr (
                      omega (
                        arith,
                        q,
                        r.total,
                        bytes-unlink is_entry e.path s.files,
                        r.counted.0.entry,
                      ))
                ],
          )
    ]

-- The cache makes room exactly when the files that may not go leave it, and then what stays and
-- what is required are within the limit; otherwise it is reported as full.
abbrev pub MakesRoom : ℕ → ℕ → ℕ → List CacheFile → Type 0
MakesRoom limit required now files =
    ((bytes is_pinned files + required ≤ limit)
      × (n : ℕ) × (b : ℕ) × ((prune_cache limit required now files).1 ≡ removed n b)
      × (bytes is_entry (prune_cache limit required now files).0 + required ≤ limit))
    ⊎ ((limit < bytes is_pinned files + required)
        × ((prune_cache limit required now files).1 ≡ raises cache_full))

-- Every file in use stays; what stays was there, and no stale partial download does.
abbrev pub KeepsUsed : ℕ → ℕ → ℕ → List CacheFile → Type 0
KeepsUsed limit required now files =
    (f : CacheFile)
    → (Memᴰ f files → IsInUse now f → Memᴰ f (prune_cache limit required now files).0)
      × (Memᴰ f (prune_cache limit required now files).0
          → Memᴰ f files × (f.is_part ≡ true → now - 600000000000 ≤ f.mtime_ns))

module _ (now : ℕ) (files : List CacheFile)
    (unique : (p : ℕ) → count_by (has_path p) files ≤ 1) where
  abbrev entries : List CacheFile
  entries = sort_by used_before (filter_by is_evictable files)

  bytes-scan :
      (p : CacheFile → Bool)
      → ((f : CacheFile) → (p f && not (is_stale now f)) ≡ p f)
      → bytes p (scan now files).files ≡ bytes p files
  unfolding scan
  bytes-scan p h =
      bytes-filter_by p (λ f. not (is_stale now f)) files
      ∙ bytes_cong (λ f. p f && not (is_stale now f)) p files h

  Memᴰ-IsCounted :
      (e : CacheFile) → Memᴰ e files → is_evictable e ≡ true → IsCounted (scan now files).files e
  Memᴰ-IsCounted e m v = record {
    entry =
        bytes-scan (λ f. is_entry f && has_path e.path f) (λ f. ground arith)
        ∙ bytes_at-member is_entry e files m (unique e.path)
        ∙ ground arith;
    pinned =
        bytes-scan (λ f. is_pinned f && has_path e.path f) (λ f. ground arith)
        ∙ bytes_at-member is_pinned e files m (unique e.path)
        ∙ ground arith;
  }

  scan-IsReady : IsReady (bytes is_pinned files) (scan now files) entries
  unfolding scan
  scan-IsReady = record {
    total = sym (bytes-scan is_entry (λ f. ground arith));
    kept = bytes-scan is_pinned (λ f. ground arith);
    counted =
        All-sort_by (IsCounted (scan now files).files) used_before (filter_by is_evictable files) (
          All-map_where _ _ (filter_by is_evictable files) (λ e h. h.0 h.1)
            (All-filter_by (λ e. is_evictable e ≡ true → IsCounted (scan now files).files e)
              is_evictable files (All-Memᴰ _ files Memᴰ-IsCounted)));
    distinct = λ p. omega (
      arith,
      unique p,
      count_by-sort_by (has_path p) used_before (filter_by is_evictable files),
      count_by-filter_by (has_path p) is_evictable files,
    );
  }

  module _ (limit required : ℕ) (allowed : required ≤ limit) where
    abbrev after : CacheState
    after = evict_until limit required entries (scan now files)

    entry_bytes : bytes (λ e. true) entries ≡ bytes is_evictable files
    entry_bytes =
        bytes-sort_by (λ e. true) used_before (filter_by is_evictable files)
        ∙ bytes-filter_by (λ e. true) is_evictable files

    result : Left (bytes is_pinned files) limit required (scan now files) entries after
    result =
        evict_until-Left (bytes is_pinned files) limit required (scan now files) entries
          scan-IsReady

    full_total : limit < after.total + required → after.total ≡ bytes is_pinned files
    unfolding scan
    full_total h = elim (result.2) [
      | inl y ↦ absurd (omega (arith, h, y))
      | inr q ↦ omega (arith, q, entry_bytes, bytes_split files)
    ]

    -- Where each file has a path of its own and what is required is within the limit: the cache makes
    -- room exactly when the entries that are protected or linked leave it, and then the entries that
    -- stay and what is required are within the limit; otherwise it is reported as full. In both cases
    -- every protected or linked entry, and every partial download written in the last ten minutes,
    -- stays, nothing is left that was not there, and no older partial download is left.
    pub prune_cache-fits : MakesRoom limit required now files × KeepsUsed limit required now files
    unfolding prune_cache
    prune_cache-fits =
        let low : ltb limit required ≡ false = ground arith in
        let used : (f : CacheFile) → _ = λ f. (
          used_left now limit required files unique f,
          left_own now limit required files unique f,
        ) in
        elim (Bool-cases (ltb limit (after.total + required))) [
          | inl full ↦
              let over : limit < after.total + required = ground arith in
              rw (low, full) (inr (omega (arith, over, full_total over), refl), used)
          | inr room ↦
              let fit : after.total + required ≤ limit = ground arith in
              rw (low, room)
                (
                  inl (
                    omega (arith, fit, result.0, result.1, bytes_split after.files),
                    after.removed_files,
                    after.removed_bytes,
                    refl,
                    omega (arith, fit, result.0),
                  ),
                  used,
                )
        ]
