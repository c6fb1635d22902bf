-- ===== src/Deployments/Consistency/Append.antt =====
-- An accepted generation for an active operation, and the end of that operation.
use computecluster.Prelude.{
  ℕ, suc, ◌+◌, ◌≤◌, Bool, true, false, some, List, [], ◌∷◌, ◌++◌, ◌==◌, ◌≡◌, refl, sym, ap, ◌∙◌,
  arith, find, filter_by, count_by, update_where, length, All, All-update_where, Bool-cases, inl,
  inr, if◌then◌else◌, find-All,
}
use computecluster.Deployments.Contracts.{Selection}
use computecluster.Deployments.Tables.{
  OperationRow, HistoryRow, Tables, is_active, of_installation, generation_of,
}
use computecluster.Deployments.Authority.{has_operation_id}
use computecluster.Deployments.Requests.{holds_active}
use computecluster.Deployments.Generations.{IsNumbered, rows_of, IsNumbered-snoc}
use computecluster.Deployments.Consistency.{
  IsCurrent, IsSoundBut, IsSoundDeployments, IsClosing, written-IsCurrent, update-IsSoundBut,
}

module _ {A : Type 0} where
  All-zip_with :
      (P Q R : A → Type 0) (xs : List A)
      → ((x : A) → P x → Q x → R x)
      → All P xs
      → All Q xs
      → All R xs
  All-zip_with P Q R [] h a b = tt
  All-zip_with P Q R (x ∷ xs) h a b = (h x a.0 b.0, All-zip_with P Q R xs h a.1 b.1)

  none_left :
      (p q : A → Bool) (xs : List A) → count_by q xs ≡ 0 → All (λ y. q y ≡ true → p y ≡ true) xs
  unfolding count_by
  none_left p q [] h = tt
  none_left p q (y ∷ ys) h = ((λ t. absurd (ground arith)), none_left p q ys (ground arith))

  found_counts :
      (p q : A → Bool) (xs : List A) (x : A) → find p xs ≡ some x → q x ≡ true → 1 ≤ count_by q xs
  unfolding find count_by
  found_counts p q [] x e t = cc
  found_counts p q (y ∷ ys) x e t = elim (Bool-cases (p y)) [
    | inl h ↦ let same : y ≡ x = ground arith in ground (arith, ap q same)
    | inr n ↦ ground (arith, found_counts p q ys x (rw n at e) t)
  ]

  -- The one match of q is the first match of p, where that matches q.
  sole_match :
      (p q : A → Bool) (xs : List A) (x : A)
      → find p xs ≡ some x
      → q x ≡ true
      → count_by q xs ≤ 1
      → All (λ y. q y ≡ true → p y ≡ true) xs
  unfolding find count_by
  sole_match p q [] x e t c = tt
  sole_match p q (y ∷ ys) x e t c = elim (Bool-cases (p y)) [
    | inl h ↦
        let same : y ≡ x = ground arith in ((λ _. h), none_left p q ys (ground (arith, ap q same)))
    | inr n ↦
        let later = rw n at e in
        (
          (λ h. absurd (ground (arith, found_counts p q ys x later t))),
          sole_match p q ys x later t (ground arith),
        )
  ]

filter_by-snoc :
    {A : Type 0} (p : A → Bool) (xs : List A) (y : A)
    → filter_by p (xs ++ y ∷ []) ≡ filter_by p xs ++ (if p y then y ∷ [] else [])
unfolding filter_by
filter_by-snoc p [] y = refl
filter_by-snoc p (x ∷ xs) y = elim (Bool-cases (p x)) [
  | inl h ↦ rw h (ap (λ zs. x ∷ zs) (filter_by-snoc p xs y))
  | inr n ↦ rw n (filter_by-snoc p xs y)
]

append-nil : {A : Type 0} (xs : List A) → xs ++ [] ≡ xs
append-nil [] = refl
append-nil (x ∷ xs) = ap (λ zs. x ∷ zs) (append-nil xs)

-- The rows of an installation behind a new row.
rows_there :
    (app e : ℕ) (rs : List HistoryRow) (r : HistoryRow)
    → of_installation app e r ≡ true
    → filter_by (of_installation app e) (rs ++ r ∷ [])
      ≡ filter_by (of_installation app e) rs ++ r ∷ []
rows_there app e rs r h = filter_by-snoc (of_installation app e) rs r ∙ rw h refl

rows_elsewhere :
    (app e : ℕ) (rs : List HistoryRow) (r : HistoryRow)
    → of_installation app e r ≡ false
    → filter_by (of_installation app e) (rs ++ r ∷ []) ≡ filter_by (of_installation app e) rs
rows_elsewhere app e rs r n =
    filter_by-snoc (of_installation app e) rs r
    ∙ rw n (append-nil (filter_by (of_installation app e) rs))

abbrev pub with_history : List HistoryRow → Tables → Tables
with_history rs db = record db { history = rs }

-- A row that follows the selection of an operation.
pub record IsNext (selection : Selection) (r : HistoryRow) : Type 0 where
  pub app : r.app_id ≡ selection.app_id
  pub place : r.environment ≡ selection.environment
  pub generation : r.generation ≡ suc selection.generation
  pub snapshot : generation_of r.snapshot ≡ suc selection.generation

module _ (db : Tables) (s : IsSoundDeployments db) (o : OperationRow)
    (known : find (has_operation_id o.operation.operation_id) db.operations ≡ some o)
    (ready : is_active o.state ≡ true) where
  abbrev exempt : ℕ → Bool
  exempt id = id == o.operation.operation_id

  abbrev selected : Selection
  selected = o.operation.approval.selection

  own : IsCurrent (λ id. false) db.history o
  own =
      find-All (IsCurrent (λ id. false) db.history) (has_operation_id o.operation.operation_id)
        db.operations s.current known

  module _ (r : HistoryRow) (n : IsNext selected r) where
    number_rows :
        (app e : ℕ) → IsNumbered 0 (filter_by (of_installation app e) (db.history ++ r ∷ []))
    number_rows app e = elim (Bool-cases (of_installation app e r)) [
      | inl here ↦
          let a : app ≡ selected.app_id = ground (arith, n.app) in
          let b : e ≡ selected.environment = ground (arith, n.place) in
          let counted : selected.generation ≡ length (rows_of app e db) =
            rw (a, b) (own.generation refl ready) in
          let latest : r.generation ≡ suc (0 + length (rows_of app e db)) =
            omega (arith, n.generation, counted) in
          let shown : generation_of r.snapshot ≡ suc (0 + length (rows_of app e db)) =
            omega (arith, n.snapshot, counted) in
          rw (rows_there app e db.history r here)
            (IsNumbered-snoc 0 (rows_of app e db) r (s.numbered app e) latest shown)
      | inr there ↦ rw (rows_elsewhere app e db.history r there) (s.numbered app e)
    ]

    Appended-IsCurrent :
        (x : OperationRow)
        → IsCurrent (λ id. false) db.history x
        → (holds_active selected.app_id selected.environment x ≡ true
            → has_operation_id o.operation.operation_id x ≡ true)
        → IsCurrent exempt (db.history ++ r ∷ []) x
    Appended-IsCurrent x c sole = record {
      app = c.app;
      place = c.place;
      generation = λ f a.
          elim (Bool-cases (
            of_installation x.operation.approval.selection.app_id
              x.operation.approval.selection.environment r)) [
                | inl here ↦
                    let own_id = sole (ground (arith, c.app, c.place, n.app, n.place)) in
                    absurd (ground arith)
                | inr there ↦
                    c.generation refl a ∙ ap length (sym (rows_elsewhere _ _ db.history r there))
              ];
    }

    pub append-IsSoundBut : IsSoundBut exempt (with_history (db.history ++ r ∷ []) db)
    append-IsSoundBut = record {
      ids = s.ids;
      active = s.active;
      current = All-zip_with _ _ _ db.operations Appended-IsCurrent s.current (
          sole_match (has_operation_id o.operation.operation_id)
            (holds_active selected.app_id selected.environment) db.operations o known
            (ground (arith, own.app, own.place)) (s.active selected.app_id selected.environment));
      numbered = number_rows;
    }

  -- Once the operation is closed, every active operation is current.
  pub close-IsSoundDeployments :
      (after : Tables) (f : OperationRow → OperationRow)
      → IsSoundBut exempt after
      → IsClosing (has_operation_id o.operation.operation_id) f
      → ((x : OperationRow) → is_active (f x).state ≡ false)
      → IsSoundDeployments (record after {
        operations = update_where (has_operation_id o.operation.operation_id) f after.operations;
      })
  close-IsSoundDeployments after f b c final =
      let kept = update-IsSoundBut exempt after (has_operation_id o.operation.operation_id) f c b in
      record {
        ids = kept.ids;
        active = kept.active;
        current =
            All-update_where (IsCurrent exempt after.history)
              (IsCurrent (λ id. false) after.history) (has_operation_id o.operation.operation_id) f
              after.operations
              (λ x t h.
                let w =
                  written-IsCurrent exempt after (has_operation_id o.operation.operation_id) f c b x
                    t h in
                record {
                  app = w.app;
                  place = w.place;
                  generation = λ n a. absurd (ground (arith, final x, a));
                })
              (λ x n h. record {
                app = h.app;
                place = h.place;
                generation = λ q a. h.generation n a;
              })
              b.current;
        numbered = kept.numbered;
      }
