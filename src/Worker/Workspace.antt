-- ===== src/Worker/Workspace.antt =====
-- worker/main.py: the run and output directories on the worker, JobScratch and the cleaning at startup.
use computecluster.Prelude.{
  ℕ, zero, suc, ◌-◌, Bool, ◌||◌, Option, none, some, List, [], ◌∷◌, not, ltb, ◌==◌, if◌then◌else◌,
  length, filter_by, sort_by,
}

-- An output directory: the job, and the time of its last change.
pub record OutputDirectory : Type 0 where
  pub job_id : ℕ
  pub mtime_ns : ℕ

pub record Workspace : Type 0 where
  pub runs : List ℕ
  pub artifacts : List OutputDirectory

abbrev pub max_unpublished_outputs : ℕ
max_unpublished_outputs = 5

-- What shutil.rmtree(ignore_errors=True) leaves: the run directories that it could not remove, and
-- for the output directories that it could not, the time of their last change from then on.
pub record Removals : Type 0 where
  pub run_stays : ℕ → Bool
  pub output_stays : ℕ → Option ℕ

-- The removal of one output directory from a listing.
unfoldable pub rmtree : Removals → OutputDirectory → List OutputDirectory → List OutputDirectory
rmtree r a rest = elim (r.output_stays a.job_id) [
  | none ↦ rest
  | some t ↦ record a { mtime_ns = t } ∷ rest
]

-- The removal of the first directories of a listing.
unfoldable pub remove_first : Removals → ℕ → List OutputDirectory → List OutputDirectory
unfolding rmtree
remove_first r zero xs = xs
remove_first r (suc n) [] = []
remove_first r (suc n) (x ∷ xs) = rmtree r x (remove_first r n xs)

-- The removal of the directory of one job.
unfoldable pub remove_job : Removals → ℕ → List OutputDirectory → List OutputDirectory
unfolding rmtree
remove_job r job_id [] = []
remove_job r job_id (x ∷ xs) =
    let rest = remove_job r job_id xs in if x.job_id == job_id then rmtree r x rest else x ∷ rest

abbrev pub changed_before : OutputDirectory → OutputDirectory → Bool
changed_before a b = ltb a.mtime_ns b.mtime_ns

-- _trim_unpublished_outputs: outputs[:-5] of the sorted directories are removed.
unfoldable pub trim_unpublished_outputs : Removals → Workspace → Workspace
unfolding remove_first
trim_unpublished_outputs r w = record w {
  artifacts =
      remove_first r (length w.artifacts - max_unpublished_outputs)
        (sort_by changed_before w.artifacts);
}

-- reconcile_workspace, behind the removal of containers
unfoldable pub reconcile_workspace : Removals → Workspace → Workspace
unfolding trim_unpublished_outputs
reconcile_workspace r w =
    trim_unpublished_outputs r (record w { runs = filter_by r.run_stays w.runs })

-- JobScratch.__exit__
unfoldable pub scratch_exit : Removals → ℕ → Bool → Workspace → Workspace
unfolding trim_unpublished_outputs remove_job
scratch_exit r job_id keep_outputs w =
    let cleared = record w { runs = filter_by (λ i. not (i == job_id) || r.run_stays i) w.runs } in
    if keep_outputs
    then trim_unpublished_outputs r cleared
    else record cleared { artifacts = remove_job r job_id w.artifacts }
