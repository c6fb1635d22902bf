-- ===== src/Batch/Archive.antt =====
-- Which project archives are accepted.
use computecluster.Prelude.{
  ℕ, ◌+◌, ◌≤◌, Bool, false, none, some, List, [], ◌∷◌, not, ◌&&◌, ◌≡◌, ◌↔◌, refl, arith, length,
  any,
}
use computecluster.Batch.{
  ZipInfo, is_encrypted, is_symlink, has_safe_path, entries_error, validate_project_archive,
}

abbrev pub is_allowed : ZipInfo → Bool
is_allowed e = has_safe_path e && not (is_encrypted e) && not (is_symlink e)

abbrev pub expanded_bytes : List ZipInfo → ℕ
expanded_bytes [] = 0
expanded_bytes (e ∷ es) = e.file_size + expanded_bytes es

accepts :
    (n : ℕ) (es : List ZipInfo)
    → entries_error n es ≡ none
    → n ≤ 104857600
    → (any (λ e. not (is_allowed e)) es ≡ false) × (n + expanded_bytes es ≤ 104857600)
unfolding entries_error any
accepts n [] h b = (refl, ground arith)
accepts n (e ∷ es) h b = ground (arith, accepts (n + e.file_size) es)

allows :
    (n : ℕ) (es : List ZipInfo)
    → any (λ e. not (is_allowed e)) es ≡ false
    → n + expanded_bytes es ≤ 104857600
    → entries_error n es ≡ none
unfolding entries_error any
allows n [] a b = refl
allows n (e ∷ es) a b = ground (arith, allows (n + e.file_size) es)

-- An archive is accepted exactly when it is a ZIP file of 1 to 1000 entries whose sizes add up to at
-- most 100 MiB, and each entry has a portable path and is neither encrypted nor a symbolic link.
pub validate_project_archive_iff :
    (entries : List ZipInfo)
    → (validate_project_archive (some entries) ≡ none) ↔ (
        (1 ≤ length entries)
        × (length entries ≤ 1000)
        × (any (λ e. not (is_allowed e)) entries ≡ false)
        × (expanded_bytes entries ≤ 104857600))
unfolding validate_project_archive
validate_project_archive_iff [] = ground arith
validate_project_archive_iff (e ∷ es) =
    (λ h. ground (arith, accepts 0 (e ∷ es)), λ h. ground (arith, allows 0 (e ∷ es)))
