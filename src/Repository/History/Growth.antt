-- ===== src/Repository/History/Growth.antt =====
-- How the jobs table may change: rows stay, in their places, with what was submitted; a job that
-- has ended never changes again.
use computecluster.Prelude.{
  ◌≤◌, Bool, true, false, List, [], ◌∷◌, ◌++◌, ◌≡◌, ◌∙◌, arith, map, update_where, Bool-cases, inl,
  inr,
}
use computecluster.Models.Enums.{JobStatus}
use computecluster.Repository.Tables.{JobRow}

abbrev pub is_terminal : JobStatus → Bool
is_terminal JobStatus.completed = true
is_terminal JobStatus.failed = true
is_terminal _ = false

pub record Evolves (x y : JobRow) : Type 0 where
  pub id : y.id ≡ x.id
  pub owner : y.owner_user_id ≡ x.owner_user_id
  pub type : y.type ≡ x.type
  pub parameters : y.parameters ≡ x.parameters
  pub name : y.name ≡ x.name
  pub target : y.target_worker_id ≡ x.target_worker_id
  pub created : y.created_at ≡ x.created_at
  pub max_attempts : y.max_attempts ≡ x.max_attempts
  pub key : y.idempotency_key ≡ x.idempotency_key
  pub group : y.group_id ≡ x.group_id
  pub task_id : y.task_id ≡ x.task_id
  pub task_index : y.task_index ≡ x.task_index
  -- attempts are never taken back, and neither is a request to cancel
  pub attempts : x.attempt ≤ y.attempt
  pub cancellation : x.cancellation_requested ≡ true → y.cancellation_requested ≡ true
  -- a job that has ended keeps its whole row
  pub ended : is_terminal x.status ≡ true → y ≡ x

abbrev pub Grows : List JobRow → List JobRow → Type 0
Grows [] ys = Unit
Grows (x ∷ xs) [] = ⊥
Grows (x ∷ xs) (y ∷ ys) = Evolves x y × Grows xs ys

pub Evolves-refl : (x : JobRow) → Evolves x x
Evolves-refl x = ground arith

Evolves-trans : (x y z : JobRow) → Evolves x y → Evolves y z → Evolves x z
Evolves-trans x y z p q = record {
  id = q.id ∙ p.id;
  owner = q.owner ∙ p.owner;
  type = q.type ∙ p.type;
  parameters = q.parameters ∙ p.parameters;
  name = q.name ∙ p.name;
  target = q.target ∙ p.target;
  created = q.created ∙ p.created;
  max_attempts = q.max_attempts ∙ p.max_attempts;
  key = q.key ∙ p.key;
  group = q.group ∙ p.group;
  task_id = q.task_id ∙ p.task_id;
  task_index = q.task_index ∙ p.task_index;
  attempts = omega (arith, p.attempts, q.attempts);
  cancellation = λ c. q.cancellation (p.cancellation c);
  ended = λ t. let e : y ≡ x = p.ended t in q.ended (rw e t) ∙ e;
}

pub Grows-refl : (xs : List JobRow) → Grows xs xs
Grows-refl [] = tt
Grows-refl (x ∷ xs) = (Evolves-refl x, Grows-refl xs)

pub Grows-trans : (xs ys zs : List JobRow) → Grows xs ys → Grows ys zs → Grows xs zs
Grows-trans [] ys zs p q = tt
Grows-trans (x ∷ xs) [] zs p q = absurd p
Grows-trans (x ∷ xs) (y ∷ ys) [] p q = absurd q
Grows-trans (x ∷ xs) (y ∷ ys) (z ∷ zs) p q =
    (Evolves-trans x y z p.0 q.0, Grows-trans xs ys zs p.1 q.1)

pub Grows-append : (xs ys : List JobRow) → Grows xs (xs ++ ys)
Grows-append [] ys = tt
Grows-append (x ∷ xs) ys = (Evolves-refl x, Grows-append xs ys)

pub Grows-map :
    (f : JobRow → JobRow) (xs : List JobRow)
    → ((x : JobRow) → Evolves x (f x))
    → Grows xs (map f xs)
Grows-map f [] h = tt
Grows-map f (x ∷ xs) h = (h x, Grows-map f xs h)

pub Grows-update_where :
    (p : JobRow → Bool) (f : JobRow → JobRow) (xs : List JobRow)
    → ((x : JobRow) → p x ≡ true → Evolves x (f x))
    → Grows xs (update_where p f xs)
unfolding update_where
Grows-update_where p f [] h = tt
Grows-update_where p f (x ∷ xs) h = (
  elim (Bool-cases (p x)) [ inl e ↦ rw e (h x e) | inr e ↦ rw e (Evolves-refl x) ],
  Grows-update_where p f xs h,
)
