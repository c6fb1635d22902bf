-- ===== src/Deployments/Consistency.antt =====
-- The operations and the history of installations stay consistent under each transaction.
pub mod Append
pub mod Settled
pub mod Requested
use mathlib.Core.Path.{subst}
use computecluster.Prelude.{
  ℕ, suc, ◌+◌, ◌≤◌, Bool, true, false, Option, none, some, List, [], ◌∷◌, ◌++◌, ◌&&◌, ◌||◌, ◌==◌,
  ◌≡◌, refl, sym, ap, ◌∙◌, arith, not, any, find, filter_by, count_by, update_where, length, All,
  All-if, All-append, All-map_where, All-update_where, count_by-snoc, any_none_mono,
  count_by-update_where_le, Bool-cases, Option-cases, inl, inr, ==→≡, ==_refl,
}
use computecluster.Deployments.Contracts.{
  Checked, ok, Kind, Selection, Operation, AcceptedSnapshot, running, Receipt, ReceiptState,
}
use computecluster.Deployments.Checked.{Holds, Holds-value, Holds-guard}
use computecluster.Deployments.Tables.{
  OperationRow, OperationState, HistoryRow, Tables, is_active, is_blocked, of_installation,
  generation_of, environment_of,
}
use computecluster.Deployments.Authority.{has_operation_id}
use computecluster.Deployments.Requests.{holds_active, conflicts, queued_row, insert_operation}
use computecluster.Deployments.Generations.{IsNumbered, rows_of, IsNumbered-snoc}

abbrev pub installation_rows : List HistoryRow → Operation → List HistoryRow
installation_rows history o =
    filter_by (of_installation o.approval.selection.app_id o.approval.selection.environment) history

-- A row of app_operations belongs to the application and the environment of its selection; while it
-- is active, its selection was made on the latest generation, unless it is exempt.
pub record IsCurrent (exempt : ℕ → Bool) (history : List HistoryRow) (o : OperationRow)
    : Type 0 where
  pub app : o.app_id ≡ o.operation.approval.selection.app_id
  pub place : o.environment ≡ o.operation.approval.selection.environment
  pub generation :
      exempt o.operation.operation_id ≡ false
      → is_active o.state ≡ true
      → o.operation.approval.selection.generation ≡ length (installation_rows history o.operation)

pub record IsSoundBut (exempt : ℕ → Bool) (db : Tables) : Type 0 where
  pub ids : (i : ℕ) → count_by (has_operation_id i) db.operations ≤ 1
  pub active : (app e : ℕ) → count_by (holds_active app e) db.operations ≤ 1
  pub current : All (IsCurrent exempt db.history) db.operations
  pub numbered : (app e : ℕ) → IsNumbered 0 (rows_of app e db)

-- Operations have ids of their own; an installation has at most one active operation, which was
-- approved for the latest generation; and its accepted rows are numbered from 1 on without a gap.
abbrev pub IsSoundDeployments : Tables → Type 0
IsSoundDeployments = IsSoundBut (λ id. false)

-- An UPDATE that makes no operation active and keeps what it was approved for.
pub record IsClosing (p : OperationRow → Bool) (f : OperationRow → OperationRow) : Type 0 where
  pub operation : (o : OperationRow) → (f o).operation ≡ o.operation
  pub app : (o : OperationRow) → (f o).app_id ≡ o.app_id
  pub place : (o : OperationRow) → (f o).environment ≡ o.environment
  pub state :
      (o : OperationRow) → p o ≡ true → is_active (f o).state ≡ true → is_active o.state ≡ true

module _ (exempt : ℕ → Bool) (db : Tables) (p : OperationRow → Bool)
    (f : OperationRow → OperationRow) (c : IsClosing p f) (s : IsSoundBut exempt db) where
  abbrev pub written : Tables
  written = record db { operations = update_where p f db.operations }

  pub written-IsCurrent :
      (o : OperationRow)
      → p o ≡ true
      → IsCurrent exempt db.history o
      → IsCurrent exempt db.history (f o)
  written-IsCurrent o t h = record {
    app = c.app o ∙ h.app ∙ ap (λ z. z.approval.selection.app_id) (sym (c.operation o));
    place = c.place o ∙ h.place ∙ ap (λ z. z.approval.selection.environment) (sym (c.operation o));
    generation = λ n a.
        ap (λ z. z.approval.selection.generation) (c.operation o)
        ∙ h.generation (ap (λ z. exempt z.operation_id) (sym (c.operation o)) ∙ n) (c.state o t a)
        ∙ ap (λ z. length (installation_rows db.history z)) (sym (c.operation o));
  }

  pub update-IsSoundBut : IsSoundBut exempt written
  update-IsSoundBut = record {
    ids = λ i. omega (
      arith,
      s.ids i,
      count_by-update_where_le (IsCurrent exempt db.history) (has_operation_id i) p f db.operations
          (λ o t h q. ap (λ z. z.operation_id == i) (sym (c.operation o)) ∙ q) s.current,
    );
    active = λ app e. omega (
      arith,
      s.active app e,
      count_by-update_where_le (IsCurrent exempt db.history) (holds_active app e) p f db.operations
          (λ o t h q. ground (arith, c.app o, c.place o, c.state o t)) s.current,
    );
    current =
        All-update_where (IsCurrent exempt db.history) (IsCurrent exempt db.history) p f
          db.operations written-IsCurrent (λ o n h. h) s.current;
    numbered = s.numbered;
  }

-- The new operation was approved for the latest generation.
pub insert-IsSoundDeployments :
    (o : Operation) (db : Tables)
    → IsSoundDeployments db
    → o.approval.selection.generation ≡ length (installation_rows db.history o)
    → Holds IsSoundDeployments (insert_operation o db)
unfolding insert_operation
insert-IsSoundDeployments o db s g = Holds-guard _ _ _ _ (λ free. Holds-value _ _ (record {
  ids = λ i. count_by-snoc (has_operation_id i) db.operations (queued_row o) (s.ids i) (λ t.
      any_none_mono (has_operation_id i) (conflicts o) db.operations (λ x h. ground arith) free);
  active = λ app e.
      count_by-snoc (holds_active app e) db.operations (queued_row o) (s.active app e) (λ t.
        any_none_mono (holds_active app e) (conflicts o) db.operations (λ x h. ground arith) free);
  current =
      All-append (IsCurrent (λ id. false) db.history) db.operations (queued_row o ∷ []) s.current
        (record { app = refl; place = refl; generation = λ n a. g }, tt);
  numbered = s.numbered;
}))
