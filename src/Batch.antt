-- ===== src/Batch.antt =====
-- app/batch_script.py: the limits of a project archive.
pub mod Archive
pub mod Decimal
pub mod Integers
pub mod Array
pub mod Expansion
pub mod TimeLimit
pub mod Script
use computecluster.Prelude.{
  ℕ, ◌+◌, ◌/◌, ◌%◌, Bool, true, false, Option, none, some, List, [], ◌∷◌, not, ltb, ◌==◌,
  if◌then◌else◌, is_none, length,
}
use computecluster.Paths.{portable_relative_path}

pub data BatchScriptError : Type 0 where
  not_a_zip : BatchScriptError
  empty_archive : BatchScriptError
  too_many_entries : BatchScriptError
  unsafe_path : List ℕ → BatchScriptError
  encrypted_entry : BatchScriptError
  symlink_entry : BatchScriptError
  expanded_too_large : BatchScriptError

-- What the code reads of a zipfile.ZipInfo.
pub record ZipInfo : Type 0 where
  pub filename : List ℕ
  pub flag_bits : ℕ
  pub external_attr : ℕ
  pub file_size : ℕ

abbrev pub max_project_files : ℕ
max_project_files = 1000

abbrev pub max_expanded_project_bytes : ℕ
max_expanded_project_bytes = 104857600

-- flag_bits & 0x1
abbrev pub is_encrypted : ZipInfo → Bool
is_encrypted e = e.flag_bits % 2 == 1

-- (external_attr >> 16) & 0o170000 == 0o120000: the four bits of the file type
abbrev pub is_symlink : ZipInfo → Bool
is_symlink e = e.external_attr / 268435456 % 16 == 10

abbrev pub has_safe_path : ZipInfo → Bool
has_safe_path e = not (is_none (portable_relative_path e.filename))

-- The loop over the entries, from the bytes that it has counted: its error, or nothing.
unfoldable pub entries_error : ℕ → List ZipInfo → Option BatchScriptError
entries_error expanded [] = none
entries_error expanded (e ∷ es) =
    let rest = entries_error (expanded + e.file_size) es in
    if not (has_safe_path e)
    then some (BatchScriptError.unsafe_path e.filename)
    else if is_encrypted e
    then some BatchScriptError.encrypted_entry
    else if is_symlink e
    then some BatchScriptError.symlink_entry
    else if ltb max_expanded_project_bytes (expanded + e.file_size)
    then some BatchScriptError.expanded_too_large
    else rest

abbrev is_empty_archive : List ZipInfo → Bool
is_empty_archive [] = true
is_empty_archive (e ∷ es) = false

-- `archive` is nothing where zipfile.ZipFile raises BadZipFile.
unfoldable pub validate_project_archive : Option (List ZipInfo) → Option BatchScriptError
unfolding entries_error
validate_project_archive none = some BatchScriptError.not_a_zip
validate_project_archive (some entries) =
    if is_empty_archive entries
    then some BatchScriptError.empty_archive
    else if ltb max_project_files (length entries)
    then some BatchScriptError.too_many_entries
    else entries_error 0 entries
