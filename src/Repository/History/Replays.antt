-- ===== src/Repository/History/Replays.antt =====
-- A submission repeated under one key, at any later time, is stored once.
use mathlib.Core.Path.{subst}
use computecluster.Prelude.{
  ℕ, String, true, false, some, List, [], ◌∷◌, ◌≡◌, arith, find, ◌∙◌, Bool-cases, inl, inr, refl,
}
use computecluster.Models.Records.{JobRead}
use computecluster.Repository.Tables.{JobRow, Database, row_to_job}
use computecluster.Repository.Submit.{stored, keyed, add}
use computecluster.Repository.Submit.Idempotent.{SameJob, FoundAs, add-FoundAs, replayed}
use computecluster.Repository.History.{History, History-Grows}
use computecluster.Repository.History.Growth.{Evolves, Grows}

keyed-Evolves :
    (key : String) (owner : ℕ) (x y : JobRow)
    → Evolves x y
    → keyed owner (some key) y ≡ keyed owner (some key) x
keyed-Evolves key owner x y g = rw (g.owner, g.key)

-- The first row of a key is still the first, as it has become.
find-Grows :
    (key : String) (owner : ℕ) (xs ys : List JobRow) (x : JobRow)
    → Grows xs ys
    → find (keyed owner (some key)) xs ≡ some x
    → (y : JobRow) × (find (keyed owner (some key)) ys ≡ some y) × Evolves x y
unfolding find
find-Grows key owner [] ys x g e = cc
find-Grows key owner (a ∷ rest) [] x g e = absurd g
find-Grows key owner (a ∷ rest) (b ∷ bs) x g e = elim (Bool-cases (keyed owner (some key) a)) [
  | inl t ↦
      let found : keyed owner (some key) b ≡ true = keyed-Evolves key owner a b g.0 ∙ t in
      let same : a ≡ x = ground arith in (b, rw (found) refl, subst (λ z. Evolves z b) same g.0)
  | inr f ↦
      let passed : keyed owner (some key) b ≡ false = keyed-Evolves key owner a b g.0 ∙ f in
      let (y, s, k) = find-Grows key owner rest bs x g.1 (rw (f) at e) in (y, rw (passed) s, k)
]

SameJob-Evolves :
    (x y : JobRow) (job : JobRead)
    → SameJob (row_to_job x) job
    → Evolves x y
    → SameJob (row_to_job y) job
unfolding row_to_job
SameJob-Evolves x y job s g = record {
  id = g.id ∙ s.id;
  name = g.name ∙ s.name;
  type = g.type ∙ s.type;
  parameters = g.parameters ∙ s.parameters;
  target = g.target ∙ s.target;
  group = g.group ∙ s.group;
  task_id = g.task_id ∙ s.task_id;
  task_index = g.task_index ∙ s.task_index;
  created = g.created ∙ s.created;
  max_attempts = g.max_attempts ∙ s.max_attempts;
}

-- Once a submission of an owner under a key is stored, then whatever happens to the tables
-- afterwards, a further submission of that owner under that key, of whatever request, changes
-- nothing and returns the job that was stored: its identity, name, type, parameters, target, group,
-- task, creation time and attempts allowed are those of the first answer.
pub add_again :
    (key : String) (owner : ℕ) (job : JobRead) (before db later : Database) (result : JobRead)
    → add job (some key) owner before ≡ stored db result
    → History db later
    → (again : JobRead)
    → (y : JobRead) × (add again (some key) owner later ≡ stored later y) × SameJob y result
add_again key owner job before db later result e h again =
    let (old, s, same) = subst (FoundAs key owner) e (add-FoundAs key owner job before) in
    let (now, t, kept) = find-Grows key owner db.jobs later.jobs old (History-Grows h) s in
    (row_to_job now, replayed key owner again later now t, SameJob-Evolves old now result same kept)
