-- ===== src/Deployments/Consistency/Settled.antt =====
-- The last transaction of reconcile_operation keeps the deployments consistent.
use computecluster.Prelude.{
  ℕ, suc, Bool, true, false, Option, none, some, ◌&&◌, ◌==◌, ◌≡◌, refl, ap, ◌∙◌, arith, not, find,
  All-if, All-map_where,
}
use computecluster.Deployments.Contracts.{
  Checked, ok, contract_error, Kind, Operation, AcceptedSnapshot, running, Receipt, ReceiptState,
  same_kind, Registration, same_registration,
}
use computecluster.Deployments.Checked.{
  Holds, Holds-value, Holds-if, Holds-bind, Holds-then, Holds-guard, Holds-or_raise,
}
use computecluster.Deployments.Tables.{
  OperationRow, OperationState, HistoryRow, Tables, is_active, generation_of,
}
use computecluster.Deployments.Approval.{Verifier}
use computecluster.Deployments.Authority.{Authority, has_operation_id, read_authority}
use computecluster.Deployments.Reconcile.{
  is_succeeded, is_snapshot_of, is_retirement_of, appends_nothing, state_of, with_state,
  snapshot_of, retired_of, accepted_row, state_at,
}
use computecluster.Deployments.Settle.{
  replace_registration, history_row, insert_history, follow_registration, append_snapshot,
  close_operation, resolve_blocked, resolved, with_receipt, confirmed, appended_by, settle_active,
  settle, unless_lost,
}
use computecluster.Deployments.Consistency.{
  IsSoundBut, IsSoundDeployments, IsClosing, update-IsSoundBut,
}
use computecluster.Deployments.Consistency.Append.{
  IsNext, append-IsSoundBut, close-IsSoundDeployments,
}

-- The snapshot that a receipt appends has the generation behind the selection's.
abbrev Follows : Receipt → Option AcceptedSnapshot → Type 0
Follows receipt none = Unit
Follows receipt (some s) = generation_of s ≡ suc receipt.selection.generation

module _ (v : Verifier) where
  snapshot_of-Follows :
      (o : Operation) (receipt : Receipt)
      → Holds (λ s. s.generation ≡ suc receipt.selection.generation) (snapshot_of v o receipt)
  unfolding snapshot_of
  snapshot_of-Follows o receipt = Holds-or_raise _ _ _ _ (λ s e.
      Holds-guard _ (not (is_snapshot_of v o receipt s)) _ _ (λ f. Holds-value _ s (ground arith)))

  retired_of-Follows :
      (o : Operation) (receipt : Receipt) (db : Tables)
      → Holds (λ s. s.generation ≡ suc receipt.selection.generation) (retired_of v o receipt db)
  unfolding retired_of
  retired_of-Follows o receipt db = Holds-or_raise _ _ _ _ (λ s e.
      Holds-guard _ (not (is_retirement_of v o receipt db s)) _ _
        (λ f. Holds-value _ s (ground arith)))

  accepted_row-Follows :
      (o : Operation) (receipt : Receipt) (db : Tables)
      → Holds (Follows receipt) (accepted_row v o receipt db)
  unfolding accepted_row
  accepted_row-Follows o receipt db =
      Holds-if _ (appends_nothing v o receipt) _ _ (λ y. Holds-value _ none tt)
        (λ n.
          Holds-if _ (same_kind o.kind Kind.retire) _ _
            (λ y. Holds-then _ _ _ _ (retired_of-Follows o receipt db) (λ s e. Holds-value _ _ e))
            (λ m. Holds-then _ _ _ _ (snapshot_of-Follows o receipt) (λ s e. Holds-value _ _ e)))

  appended_by-Follows :
      (o : Operation) (receipt : Receipt) (db : Tables)
      → Holds (Follows receipt) (appended_by v o receipt db)
  unfolding appended_by
  appended_by-Follows o receipt db =
      Holds-if _ (is_succeeded receipt.state) _ _ (λ y. accepted_row-Follows o receipt db)
        (λ n. Holds-value _ none tt)

weaken-IsSoundBut : (exempt : ℕ → Bool) (db : Tables) → IsSoundDeployments db → IsSoundBut exempt db
weaken-IsSoundBut exempt db s = record {
  ids = s.ids;
  active = s.active;
  current =
      All-map_where _ _ db.operations
        (λ x c. record { app = c.app; place = c.place; generation = λ n a. c.generation refl a })
        s.current;
  numbered = s.numbered;
}

-- Other columns do not matter.
replace-IsSoundBut :
    (exempt : ℕ → Bool) (r : Registration) (db : Tables)
    → IsSoundBut exempt db
    → IsSoundBut exempt (replace_registration r db)
unfolding replace_registration
replace-IsSoundBut exempt r db s = record {
  ids = s.ids;
  active = s.active;
  current = s.current;
  numbered = s.numbered;
}

follow-IsSoundBut :
    (exempt : ℕ → Bool) (s : AcceptedSnapshot) (db : Tables)
    → IsSoundBut exempt db
    → Holds (IsSoundBut exempt) (follow_registration s db)
unfolding follow_registration
follow-IsSoundBut exempt (AcceptedSnapshot.retired s) db b = Holds-value _ _ b
follow-IsSoundBut exempt (running s) db b = Holds-bind _ _ _ (λ current e. Holds-value _ _ (
    All-if (IsSoundBut exempt) (same_registration current s.registration) db _ (λ y. b)
      (λ n. replace-IsSoundBut exempt s.registration db b)))

with_state-IsClosing :
    (id : ℕ) (s : OperationState)
    → is_active s ≡ false
    → IsClosing (has_operation_id id) (with_state s)
with_state-IsClosing id s h = record {
  operation = λ o. refl;
  app = λ o. refl;
  place = λ o. refl;
  state = λ o t a. absurd (ground (arith, h, a));
}

resolved-final : (receipt : Receipt) (db : Tables) → is_active (resolved receipt db) ≡ false
resolved-final receipt db = ground arith

resolve-IsSoundBut :
    (exempt : ℕ → Bool) (o : Operation) (receipt : Receipt) (db : Tables)
    → IsSoundBut exempt db
    → Holds (IsSoundBut exempt) (resolve_blocked o receipt db)
unfolding resolve_blocked
resolve-IsSoundBut exempt o receipt db b =
    Holds-if _ (same_kind o.kind Kind.recover) _ _
      (λ y. Holds-bind _ _ _ (λ blocked e. Holds-guard _ _ _ _ (λ f. Holds-value _ _ (
        All-if (IsSoundBut exempt) (is_succeeded receipt.state) _ db
          (λ t.
            update-IsSoundBut exempt db (has_operation_id blocked.operation_id)
              (with_state (resolved receipt db))
              (with_state-IsClosing blocked.operation_id (resolved receipt db)
                (resolved-final receipt db))
              b)
          (λ n. b)))))
      (λ n. Holds-value _ _ b)

unless_lost-selection :
    (o : Operation) (receipt : Receipt) (m : Checked Authority)
    → (unless_lost o receipt m).selection ≡ receipt.selection
unless_lost-selection o receipt (ok a) = refl
unless_lost-selection o receipt (contract_error m) = refl

state_of-final : (s : ReceiptState) → is_active (state_of s) ≡ false
state_of-final ReceiptState.succeeded = refl
state_of-final ReceiptState.failed = refl
state_of-final ReceiptState.recovered = refl
state_of-final ReceiptState.blocked = refl

module _ (v : Verifier) (db : Tables) (s : IsSoundDeployments db) (o : OperationRow)
    (known : find (has_operation_id o.operation.operation_id) db.operations ≡ some o)
    (ready : is_active o.state ≡ true) where
  abbrev but : ℕ → Bool
  but id = id == o.operation.operation_id

  IsNext-row :
      (receipt : Receipt) (a : AcceptedSnapshot)
      → receipt.selection ≡ o.operation.approval.selection
      → generation_of a ≡ suc receipt.selection.generation
      → IsNext o.operation.approval.selection (history_row receipt.selection a)
  IsNext-row receipt a e h = record {
    app = ap (λ z. z.app_id) e;
    place = ap (λ z. z.environment) e;
    generation = h ∙ ap (λ z. suc z.generation) e;
    snapshot = h ∙ ap (λ z. suc z.generation) e;
  }

  insert-IsSoundBut :
      (r : HistoryRow)
      → IsNext o.operation.approval.selection r
      → Holds (IsSoundBut but) (insert_history r db)
  unfolding insert_history
  insert-IsSoundBut r n =
      Holds-guard _ _ _ _ (λ f. Holds-value _ _ (append-IsSoundBut db s o known ready r n))

  append_snapshot-IsSoundBut :
      (receipt : Receipt) (appended : Option AcceptedSnapshot)
      → receipt.selection ≡ o.operation.approval.selection
      → Follows receipt appended
      → Holds (IsSoundBut but) (append_snapshot receipt.selection appended db)
  unfolding append_snapshot
  append_snapshot-IsSoundBut receipt none e h = Holds-value _ _ (weaken-IsSoundBut but db s)
  append_snapshot-IsSoundBut receipt (some a) e h =
      Holds-then _ _ _ _
        (insert-IsSoundBut (history_row receipt.selection a) (IsNext-row receipt a e h))
        (λ inserted b. follow-IsSoundBut but a inserted b)

  close_operation-IsSound :
      (receipt : Receipt) (after : Tables)
      → IsSoundBut but after
      → Holds IsSoundDeployments (close_operation o.operation receipt after)
  unfolding close_operation
  close_operation-IsSound receipt after b = Holds-guard _ _ _ _ (λ f. Holds-value _ _ (
      close-IsSoundDeployments db s o known ready after (with_receipt receipt) b
        (record {
          operation = λ x. refl;
          app = λ x. refl;
          place = λ x. refl;
          state = λ x t a. absurd (ground (arith, state_of-final receipt.state, a));
        })
        (λ x. state_of-final receipt.state)))

  confirmed-selection :
      (policy : ℕ) (receipt : Receipt)
      → (confirmed v o.operation policy receipt db).selection ≡ receipt.selection
  unfolding confirmed
  confirmed-selection policy receipt =
      All-if {A = Receipt} (λ z. z.selection ≡ receipt.selection)
        (is_succeeded receipt.state && same_kind o.operation.kind Kind.rehearse) _ _
        (λ y.
          unless_lost-selection o.operation receipt
            (read_authority v o.operation.operation_id policy db))
        (λ n. refl)

  settle_active-IsSound :
      (policy : ℕ) (receipt : Receipt) (state : OperationState)
      → receipt.selection ≡ o.operation.approval.selection
      → Holds IsSoundDeployments (settle_active v o.operation policy receipt state db)
  unfolding settle_active
  settle_active-IsSound policy given state e =
      let receipt = confirmed v o.operation policy given db in
      let same = confirmed-selection policy given ∙ e in
      Holds-guard _ _ _ _ (λ f.
        Holds-then _ _ _ _ (appended_by-Follows v o.operation receipt db) (λ appended h.
          Holds-then _ _ _ _ (append_snapshot-IsSoundBut receipt appended same h) (λ recorded b.
            Holds-then _ _ _ _ (resolve-IsSoundBut but o.operation receipt recorded b)
              (λ released c.
                Holds-guard _ _ _ _ (λ g. close_operation-IsSound receipt released c)))))

-- Settling an operation of the tables with a receipt for its selection keeps the deployments
-- consistent.
pub settle-IsSoundDeployments :
    (v : Verifier) (db : Tables) (o : OperationRow) (policy : ℕ) (receipt : Receipt)
    → IsSoundDeployments db
    → find (has_operation_id o.operation.operation_id) db.operations ≡ some o
    → receipt.selection ≡ o.operation.approval.selection
    → Holds IsSoundDeployments (settle v o.operation policy receipt db)
unfolding settle
settle-IsSoundDeployments v db o policy receipt s known e = Holds-or_raise _ _ _ _ (λ state h.
    Holds-if _ (is_active state) _ _
      (λ ready.
        let here : o.state ≡ state = let seen = rw (known, state_at) at h in ground arith in
        settle_active-IsSound v db s o known (rw here ready) policy receipt state e)
      (λ n. Holds-value _ _ s))
