-- ===== src/Deployments/Previews.antt =====
-- app/app_deployments.py: previews_to_evict.
use computecluster.Prelude.{
  ℕ, zero, suc, ◌-◌, Bool, true, false, none, some, List, [], ◌∷◌, ◌++◌, map, ◌&&◌, ◌||◌, ◌==◌, not,
  is_none, length, filter_by, if◌then◌else◌,
}
use computecluster.Deployments.Tables.{PreviewRow, PreviewState, Tables, idle}
use computecluster.Deployments.Approval.{change_of, installed_of, is_rejected, pending_change}

abbrev is_retired : PreviewState → Bool
is_retired PreviewState.retired = true
is_retired _ = false

abbrev has_failed : PreviewState → Bool
has_failed PreviewState.failed = true
has_failed _ = false

abbrev is_installing : PreviewState → Bool
is_installing PreviewState.installing = true
is_installing _ = false

abbrev runs_release : PreviewRow → Tables → Bool
runs_release p db = elim (installed_of p.app_id 0 db) [
  | none ↦ false
  | some current ↦ current.selection.manifest_sha256 == p.manifest_sha256
]

-- No card can still offer the preview, or its own application replaces it.
unfoldable is_spent : ℕ → ℕ → Tables → PreviewRow → Bool
unfolding pending_change
is_spent app digest db p =
    is_rejected p.app_id p.manifest_sha256 db
    || ((p.app_id == app && (not (p.manifest_sha256 == digest) || has_failed p.state))
        || (runs_release p db && is_none (change_of p.app_id db)))

-- The oldest previews of idle applications, while there are too many.
unfoldable evict_idle : Tables → ℕ → List PreviewRow → List ℕ
evict_idle db zero ps = []
evict_idle db (suc excess) [] = []
evict_idle db (suc excess) (p ∷ ps) =
    let fewer = evict_idle db excess ps in
    let same = evict_idle db (suc excess) ps in
    if not (is_installing p.state) && idle p.app_id db then p.attempt_id ∷ fewer else same

abbrev preview_slots : ℕ
preview_slots = 2

unfoldable pub previews_to_evict : ℕ → ℕ → Tables → List ℕ
unfolding is_spent evict_idle
previews_to_evict app digest db =
    let shown = filter_by (λ p. not (is_retired p.state)) db.previews in
    let others = filter_by (λ p. not (is_spent app digest db p) && not (p.app_id == app)) shown in
    map (λ p. p.attempt_id) (filter_by (is_spent app digest db) shown)
    ++ evict_idle db (length others - (preview_slots - 1)) others
