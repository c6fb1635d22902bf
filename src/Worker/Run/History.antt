-- ===== src/Worker/Run/History.antt =====
-- The directories of a worker over its runs: main of worker/main.py from reconcile_workspace on.
use computecluster.Prelude.{
  ℕ, zero, suc, ◌-◌, ◌≤◌, Bool, true, false, none, some, List, [], ◌∷◌, not, ◌||◌, ◌==◌, ◌≡◌, refl,
  ap, sym, ◌∙◌, All, All-if, All-map_where, arith, length, filter_by, sort_by, count_by, is_none,
  Option-cases, Bool-cases, inl, inr, count_by-filter_by, All-Unit, insert_by,
}
use mathlib.Core.Path.{subst}
use computecluster.Prelude.Sorted.{All-filter_by}
use computecluster.Models.Records.{JobRead}
use computecluster.Worker.Keeper.{lease_length}
use computecluster.Worker.Workspace.{
  OutputDirectory, Workspace, Removals, max_unpublished_outputs, changed_before, rmtree,
  remove_first, remove_job, trim_unpublished_outputs, reconcile_workspace, scratch_exit,
}
use computecluster.Worker.Run.{Surroundings, run_job, run_once}

abbrev pub runs_of_others : ℕ → Workspace → List ℕ
runs_of_others job_id w = filter_by (λ i. not (i == job_id)) w.runs

abbrev pub outputs_of_others : ℕ → Workspace → List OutputDirectory
outputs_of_others job_id w = filter_by (λ a. not (a.job_id == job_id)) w.artifacts

-- The jobs whose run or output directory some removal fails on.
pub record Stuck : Type 0 where
  pub run : ℕ → Bool
  pub output : ℕ → Bool

-- The removals fail on no other directories.
pub record IsWithin (stuck : Stuck) (r : Removals) : Type 0 where
  pub runs : (i : ℕ) → r.run_stays i ≡ true → stuck.run i ≡ true
  pub outputs : (i : ℕ) → stuck.output i ≡ false → r.output_stays i ≡ none

-- The workspaces that a worker reaches: started on any, then runs of claimed jobs. An execution
-- touches the directories of its own job only.
pub data WorkerHistory (stuck : Stuck) : Workspace → Type 0 where
  begun :
      (r : Removals)
      → IsWithin stuck r
      → (w : Workspace) → WorkerHistory stuck (reconcile_workspace r w)
  ran :
      {w : Workspace} (left : Workspace) (job : JobRead) (s : Surroundings) (r : Removals)
      → IsWithin stuck r
      → WorkerHistory stuck w
      → is_none job.lease_token ≡ false
      → runs_of_others job.id left ≡ runs_of_others job.id w
      → outputs_of_others job.id left ≡ outputs_of_others job.id w
      → WorkerHistory stuck (run_once (some job) s r left).1

length-insert :
    {A : Type 0} (before : A → A → Bool) (x : A) (xs : List A)
    → length (insert_by before x xs) ≡ suc (length xs)
unfolding insert_by
length-insert before x [] = refl
length-insert before x (y ∷ ys) = ground (arith, length-insert before x ys)

length-sort_by :
    {A : Type 0} (before : A → A → Bool) (xs : List A) → length (sort_by before xs) ≡ length xs
unfolding sort_by
length-sort_by before [] = refl
length-sort_by before (x ∷ xs) =
    length-insert before x (sort_by before xs) ∙ ap suc (length-sort_by before xs)

module _ (stuck : Stuck) where
  abbrev is_free : OutputDirectory → Bool
  is_free a = not (stuck.output a.job_id)

  -- Every run directory is one that some removal fails on, and so are all output directories but
  -- five.
  abbrev pub IsBounded : Workspace → Type 0
  IsBounded w = All (λ i. stuck.run i ≡ true) w.runs × (count_by is_free w.artifacts ≤ 5)

  module _ (r : Removals) (within : IsWithin stuck r) where
    -- A removal leaves no free directory.
    free-rmtree :
        (a : OutputDirectory) (rest : List OutputDirectory)
        → count_by is_free (rmtree r a rest) ≡ count_by is_free rest
    unfolding rmtree count_by
    free-rmtree a rest = elim (Option-cases (r.output_stays a.job_id)) [
      | inl n ↦ rw (rmtree, n) refl
      | inr (t, e) ↦ elim (Bool-cases (stuck.output a.job_id)) [
        | inl y ↦ rw (rmtree, e) (rw (y) refl)
        | inr n ↦ let gone = within.outputs a.job_id n in absurd (ground arith)
      ]
    ]

    free-remove_first :
        (n : ℕ) (xs : List OutputDirectory) → count_by is_free (remove_first r n xs) ≤ length xs - n
    unfolding remove_first count_by
    free-remove_first zero [] = omega arith
    free-remove_first zero (x ∷ xs) = ground (arith, free-remove_first zero xs)
    free-remove_first (suc n) [] = omega arith
    free-remove_first (suc n) (x ∷ xs) =
        omega (arith, free-rmtree x (remove_first r n xs), free-remove_first n xs)

    free-remove_job :
        (job_id : ℕ) (xs : List OutputDirectory)
        → count_by is_free (remove_job r job_id xs)
          ≤ count_by is_free (filter_by (λ a. not (a.job_id == job_id)) xs)
    unfolding remove_job filter_by count_by
    free-remove_job job_id [] = omega arith
    free-remove_job job_id (x ∷ xs) = elim (Bool-cases (x.job_id == job_id)) [
      | inl t ↦
          rw (t) (omega (arith, free-rmtree x (remove_job r job_id xs), free-remove_job job_id xs))
      | inr n ↦ rw (n) (ground (arith, free-remove_job job_id xs))
    ]

    trim_bound : (w : Workspace) → count_by is_free (trim_unpublished_outputs r w).artifacts ≤ 5
    unfolding trim_unpublished_outputs
    trim_bound w =
        let cut =
          free-remove_first (length w.artifacts - max_unpublished_outputs)
            (sort_by changed_before w.artifacts) in
        omega (arith, cut, length-sort_by changed_before w.artifacts)

    runs_left :
        (job_id : ℕ) (runs : List ℕ)
        → All (λ i. stuck.run i ≡ true) (filter_by (λ i. not (i == job_id)) runs)
        → All (λ i. stuck.run i ≡ true) (filter_by (λ i. not (i == job_id) || r.run_stays i) runs)
    unfolding filter_by
    runs_left job_id [] h = tt
    runs_left job_id (i ∷ is) h = elim (Bool-cases (i == job_id)) [
      | inr n ↦ let a = rw (n) at h in rw (n) (a.0, runs_left job_id is a.1)
      | inl t ↦
          let a = rw (t) at h in
          elim (Bool-cases (r.run_stays i)) [
            | inl s ↦ rw (t, s) (within.runs i s, runs_left job_id is a)
            | inr s ↦ rw (t, s) (runs_left job_id is a)
          ]
    ]

    scratch_exit-IsBounded :
        (job_id : ℕ) (keep : Bool) (w : Workspace)
        → All (λ i. stuck.run i ≡ true) (runs_of_others job_id w)
        → count_by is_free (outputs_of_others job_id w) ≤ 5
        → IsBounded (scratch_exit r job_id keep w)
    unfolding scratch_exit trim_unpublished_outputs
    scratch_exit-IsBounded job_id keep w gone few =
        All-if IsBounded keep _ _ (λ k. (runs_left job_id w.runs gone, trim_bound w))
          (λ n.
            (runs_left job_id w.runs gone, omega (arith, few, free-remove_job job_id w.artifacts)))

  -- Removals may fail, and leave what they should remove. Whatever the worker found at its start and
  -- however its runs end, after each of them every run directory that is left is one that some
  -- removal fails on, and at most five output directories are left beside such ones; where no removal
  -- fails, no run directory is left and at most five output directories are.
  pub WorkerHistory-bounded :
      {w : Workspace}
      → WorkerHistory stuck w
      → All (λ i. stuck.run i ≡ true) w.runs
        × (count_by (λ a. not (stuck.output a.job_id)) w.artifacts ≤ 5)
  unfolding reconcile_workspace run_once trim_unpublished_outputs
  WorkerHistory-bounded (begun r within w) = (
    All-map_where _ _ (filter_by r.run_stays w.runs) (λ i h. within.runs i h.1)
        (All-filter_by (λ i. Unit) r.run_stays w.runs (All-Unit w.runs)),
    trim_bound r within (record w { runs = [] }),
  )
  WorkerHistory-bounded (ran {w} left job s r within h token runs outputs) =
      let before = WorkerHistory-bounded h in
      let none_left : All (λ i. stuck.run i ≡ true) (runs_of_others job.id left) =
        subst (All (λ i. stuck.run i ≡ true)) (sym runs) (
          All-map_where _ _ (runs_of_others job.id w) (λ i k. k.0)
            (All-filter_by _ (λ i. not (i == job.id)) w.runs before.0)) in
      let fewer = count_by-filter_by is_free (λ a. not (a.job_id == job.id)) w.artifacts in
      let few : count_by is_free (outputs_of_others job.id left) ≤ 5 =
        omega (arith, fewer, before.1, ap (count_by is_free) outputs) in
      rw token (elim (Option-cases (lease_length job)) [
        | inl absent ↦ rw absent (scratch_exit-IsBounded r within job.id false left none_left few)
        | inr (lease, given) ↦
            rw given (scratch_exit-IsBounded r within job.id (run_job lease s).1 left none_left few)
      ])
