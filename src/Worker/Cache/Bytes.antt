-- ===== src/Worker/Cache/Bytes.antt =====
-- Sums of file sizes.
use mathlib.Core.List.{Memᴰ}
use mathlib.Core.Path.{subst, sym}
use computecluster.Prelude.{
  ℕ, ◌+◌, ◌≤◌, Bool, true, false, List, [], ◌∷◌, ◌&&◌, ◌==◌, ◌≡◌, refl, arith, if◌then◌else◌,
  filter_by, insert_by, sort_by, count_by, ==_refl,
}
use computecluster.Worker.Cache.{
  CacheFile, bytes, has_path, unlink, is_entry, is_evictable, is_pinned,
}

-- The bytes of the files of one path that meet a test.
abbrev pub bytes_at : (CacheFile → Bool) → ℕ → List CacheFile → ℕ
bytes_at p path files = bytes (λ f. p f && has_path path f) files

pub bytes-unlink :
    (p : CacheFile → Bool) (path : ℕ) (files : List CacheFile)
    → bytes p (unlink path files) + bytes_at p path files ≡ bytes p files
unfolding bytes unlink filter_by
bytes-unlink p path [] = omega arith
bytes-unlink p path (f ∷ fs) = ground (arith, bytes-unlink p path fs)

pub bytes_at-unlink :
    (p : CacheFile → Bool) (other path : ℕ) (files : List CacheFile)
    → (other == path) ≡ false
    → bytes_at p other (unlink path files) ≡ bytes_at p other files
unfolding bytes unlink filter_by
bytes_at-unlink p other path [] n = refl
bytes_at-unlink p other path (f ∷ fs) n = ground (arith, bytes_at-unlink p other path fs)

pub bytes_at_none :
    (p : CacheFile → Bool) (path : ℕ) (files : List CacheFile)
    → count_by (has_path path) files ≡ 0
    → bytes_at p path files ≡ 0
unfolding bytes count_by
bytes_at_none p path [] h = refl
bytes_at_none p path (f ∷ fs) h = ground (arith, bytes_at_none p path fs)

pub member_counted :
    (e : CacheFile) (files : List CacheFile) → Memᴰ e files → 1 ≤ count_by (has_path e.path) files
unfolding count_by
member_counted e [] x = elim x [ ]
member_counted e (f ∷ fs) (Memᴰ.head same) =
    subst (λ z. 1 ≤ count_by (has_path z.path) (f ∷ fs)) (sym same)
      (let here : (f.path == f.path) ≡ true = ==_refl f.path in rw (here, count_by) (omega arith))
member_counted e (f ∷ fs) (Memᴰ.tail m) = ground (arith, member_counted e fs m)

at_head :
    (p : CacheFile → Bool) (f : CacheFile) (fs : List CacheFile)
    → count_by (has_path f.path) (f ∷ fs) ≤ 1
    → bytes_at p f.path (f ∷ fs) ≡ (if p f then f.size else 0)
unfolding bytes count_by
at_head p f fs h = ground (arith, ==_refl f.path, bytes_at_none p f.path fs)

-- Where the path of a file is its own, the bytes at that path are the file's.
pub bytes_at-member :
    (p : CacheFile → Bool) (e : CacheFile) (files : List CacheFile)
    → Memᴰ e files
    → count_by (has_path e.path) files ≤ 1
    → bytes_at p e.path files ≡ (if p e then e.size else 0)
unfolding bytes count_by
bytes_at-member p e [] x h = elim x [ ]
bytes_at-member p e (f ∷ fs) (Memᴰ.head same) h =
    subst
      (λ z.
        count_by (has_path z.path) (f ∷ fs) ≤ 1
        → bytes_at p z.path (f ∷ fs) ≡ (if p z then z.size else 0))
      (sym same) (at_head p f fs) h
bytes_at-member p e (f ∷ fs) (Memᴰ.tail m) h =
    ground (arith, member_counted e fs m, bytes_at-member p e fs m)

-- Evictable and pinned files are the entries, and no partial download is one.
pub bytes_split :
    (files : List CacheFile)
    → bytes is_entry files ≡ bytes is_evictable files + bytes is_pinned files
unfolding bytes
bytes_split [] = refl
bytes_split (f ∷ fs) = ground (arith, bytes_split fs)

bytes-insert_by :
    (p : CacheFile → Bool) (before : CacheFile → CacheFile → Bool) (x : CacheFile)
    (xs : List CacheFile)
    → bytes p (insert_by before x xs) ≡ bytes p (x ∷ xs)
unfolding bytes insert_by
bytes-insert_by p before x [] = refl
bytes-insert_by p before x (y ∷ ys) = ground (arith, bytes-insert_by p before x ys)

pub bytes-sort_by :
    (p : CacheFile → Bool) (before : CacheFile → CacheFile → Bool) (xs : List CacheFile)
    → bytes p (sort_by before xs) ≡ bytes p xs
unfolding bytes sort_by
bytes-sort_by p before [] = refl
bytes-sort_by p before (x ∷ xs) =
    ground (arith, bytes-insert_by p before x (sort_by before xs), bytes-sort_by p before xs)

pub bytes-filter_by :
    (p q : CacheFile → Bool) (files : List CacheFile)
    → bytes p (filter_by q files) ≡ bytes (λ f. p f && q f) files
unfolding bytes filter_by
bytes-filter_by p q [] = refl
bytes-filter_by p q (f ∷ fs) = ground (arith, bytes-filter_by p q fs)

pub bytes_cong :
    (p q : CacheFile → Bool) (files : List CacheFile)
    → ((f : CacheFile) → p f ≡ q f)
    → bytes p files ≡ bytes q files
unfolding bytes
bytes_cong p q [] h = refl
bytes_cong p q (f ∷ fs) h = ground (arith, h f, bytes_cong p q fs h)
