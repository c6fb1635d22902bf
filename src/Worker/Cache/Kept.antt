-- ===== src/Worker/Cache/Kept.antt =====
-- Which files the scan and the eviction leave.
use mathlib.Core.List.{Memᴰ}
use mathlib.Core.Path.{subst, sym}
use computecluster.Prelude.Sorted.{All-Memᴰ, All-filter_by}
use computecluster.Prelude.{
  ℕ, ◌-◌, ◌≤◌, ◌<◌, Bool, true, false, List, [], ◌∷◌, leb, ◌+◌, ◌==◌, ◌≡◌, ◌⊎◌, inl, inr, ◌∙◌, ap,
  arith, All, All-map_where, All-sort_by, filter_by, sort_by, count_by, Bool-cases, ==_refl,
}
use computecluster.Worker.Cache.{
  CacheFile, CacheState, has_path, unlink, evict, evict_until, scan, used_before, is_evictable,
  is_stale,
}
use computecluster.Worker.Cache.Bytes.{member_counted}

-- A file in use: a partial download that was written in the last ten minutes, or an entry that is
-- protected or linked from a workspace.
abbrev pub IsInUse : ℕ → CacheFile → Type 0
IsInUse now f =
    ((f.is_part ≡ true) × (now - 600000000000 ≤ f.mtime_ns))
    ⊎ ((f.is_part ≡ false) × ((f.is_protected ≡ true) ⊎ (1 < f.nlink)))

used_not_stale : (now : ℕ) (f : CacheFile) → IsInUse now f → is_stale now f ≡ false
used_not_stale now f u = ground arith

used_not_evictable : (now : ℕ) (f : CacheFile) → IsInUse now f → is_evictable f ≡ false
used_not_evictable now f u = ground arith

kept-filter :
    (p : CacheFile → Bool) (f : CacheFile) (files : List CacheFile)
    → Memᴰ f files
    → p f ≡ true
    → Memᴰ f (filter_by p files)
unfolding filter_by
kept-filter p f [] m h = elim m [ ]
kept-filter p f (g ∷ gs) (Memᴰ.head same) h =
    let t : p g ≡ true = ap p (sym same) ∙ h in rw (t) (Memᴰ.head same)
kept-filter p f (g ∷ gs) (Memᴰ.tail m) h = elim (Bool-cases (p g)) [
  | inl t ↦ rw (t) (Memᴰ.tail (kept-filter p f gs m h))
  | inr n ↦ rw (n) (kept-filter p f gs m h)
]

own_head :
    (p : CacheFile → Bool) (f g : CacheFile) (gs kept : List CacheFile)
    → p g ≡ true
    → (Memᴰ f kept → Memᴰ f gs × (p f ≡ true))
    → Memᴰ f (g ∷ kept)
    → Memᴰ f (g ∷ gs) × (p f ≡ true)
own_head p f g gs kept t h (Memᴰ.head same) = (Memᴰ.head same, ap p same ∙ t)
own_head p f g gs kept t h (Memᴰ.tail m) = (Memᴰ.tail (h m).0, (h m).1)

own-filter :
    (p : CacheFile → Bool) (f : CacheFile) (files : List CacheFile)
    → Memᴰ f (filter_by p files)
    → Memᴰ f files × (p f ≡ true)
unfolding filter_by
own-filter p f [] m = elim m [ ]
own-filter p f (g ∷ gs) m = elim (Bool-cases (p g)) [
  | inl t ↦ own_head p f g gs (filter_by p gs) t (own-filter p f gs) (rw (t) at m)
  | inr n ↦ let (k, h) = own-filter p f gs (rw (n) at m) in (Memᴰ.tail k, h)
]

-- A file whose path is none of those to be evicted stays.
evict_until-keeps :
    (limit required : ℕ) (s : CacheState) (es : List CacheFile) (f : CacheFile)
    → All (λ e. (f.path == e.path) ≡ false) es
    → Memᴰ f s.files
    → Memᴰ f (evict_until limit required es s).files
unfolding evict_until
evict_until-keeps limit required s [] f a m = m
evict_until-keeps limit required s (e ∷ es) f a m =
    elim (Bool-cases (leb (s.total + required) limit)) [
      | inl y ↦ rw (y) m
      | inr n ↦ rw (n) (
          evict_until-keeps limit required (evict e s) es f a.1
            (unfold evict unlink in kept-filter _ f s.files m (ground (arith, a.0))))
    ]

evict_until-own :
    (limit required : ℕ) (s : CacheState) (es : List CacheFile) (f : CacheFile)
    → Memᴰ f (evict_until limit required es s).files
    → Memᴰ f s.files
unfolding evict_until
evict_until-own limit required s [] f m = m
evict_until-own limit required s (e ∷ es) f m = elim (Bool-cases (leb (s.total + required) limit)) [
  | inl y ↦ rw (y) at m
  | inr n ↦
      let left = evict_until-own limit required (evict e s) es f (rw (n) at m) in
      (own-filter _ f s.files (unfold evict unlink in left)).0
]

-- Where a path is the path of one file, a file at it is that file.
same_file :
    (e f : CacheFile) (files : List CacheFile)
    → Memᴰ e files
    → Memᴰ f files
    → f.path ≡ e.path
    → count_by (has_path e.path) files ≤ 1
    → f ≡ e
unfolding count_by
same_file e f [] m k p u = elim m [ ]
same_file e f (g ∷ gs) (Memᴰ.head s) (Memᴰ.head t) p u = t ∙ sym s
same_file e f (g ∷ gs) (Memᴰ.head s) (Memᴰ.tail k) p u =
    let here : g.path ≡ e.path = ap (λ z. z.path) (sym s) in
    let hit : (g.path == e.path) ≡ true = ground (arith, here, ==_refl e.path) in
    let more : 1 ≤ count_by (has_path e.path) gs =
      subst (λ q. 1 ≤ count_by (has_path q) gs) p (member_counted f gs k) in
    absurd (ground (arith, hit, more))
same_file e f (g ∷ gs) (Memᴰ.tail m) (Memᴰ.head t) p u =
    let here : g.path ≡ e.path = ap (λ z. z.path) (sym t) ∙ p in
    let hit : (g.path == e.path) ≡ true = ground (arith, here, ==_refl e.path) in
    absurd (ground (arith, hit, member_counted e gs m))
same_file e f (g ∷ gs) (Memᴰ.tail m) (Memᴰ.tail k) p u = same_file e f gs m k p (ground arith)

module _ (now limit required : ℕ) (files : List CacheFile)
    (unique : (p : ℕ) → count_by (has_path p) files ≤ 1) where
  apart :
      (f e : CacheFile)
      → Memᴰ f files
      → IsInUse now f
      → Memᴰ e files
      → is_evictable e ≡ true
      → (f.path == e.path) ≡ false
  apart f e m u k v = elim (Bool-cases (f.path == e.path)) [
    | inr n ↦ n
    | inl t ↦
        let same : f ≡ e = same_file e f files k m (ground (arith, t)) (unique e.path) in
        absurd (cc (ap is_evictable same, v, used_not_evictable now f u))
  ]

  -- Every file in use is left.
  pub used_left :
      (f : CacheFile)
      → Memᴰ f files
      → IsInUse now f
      → Memᴰ f
          (evict_until limit required
            (sort_by used_before (filter_by is_evictable files))
            (scan now files)).files
  unfolding scan
  used_left f m u =
      evict_until-keeps limit required (scan now files)
        (sort_by used_before (filter_by is_evictable files)) f
        (All-sort_by (λ e. (f.path == e.path) ≡ false) used_before (filter_by is_evictable files)
          (All-map_where _ _ (filter_by is_evictable files) (λ e h. h.0 h.1)
            (All-filter_by (λ e. is_evictable e ≡ true → (f.path == e.path) ≡ false) is_evictable
              files (All-Memᴰ _ files (λ e k v. apart f e m u k v)))))
        (kept-filter _ f files m (ground (arith, used_not_stale now f u)))

  -- What is left was there, and no stale partial download is left.
  pub left_own :
      (f : CacheFile)
      → Memᴰ f
          (evict_until limit required
            (sort_by used_before (filter_by is_evictable files))
            (scan now files)).files
      → Memᴰ f files × (f.is_part ≡ true → now - 600000000000 ≤ f.mtime_ns)
  unfolding scan
  left_own f m =
      let (k, h) = own-filter _ f files (
        evict_until-own limit required (scan now files)
          (sort_by used_before (filter_by is_evictable files)) f m) in
      (k, λ part. ground arith)
