-- ===== src/Deployments/Reconciliation/Steps.antt =====
-- What reconcile_operation does is a sequence of the transactions of a history.
use mathlib.Core.Path.{subst}
use computecluster.Prelude.{
  ℕ, String, Bool, true, false, Option, none, some, List, [], ◌∷◌, not, ◌&&◌, ◌==◌, ◌≡◌, refl, sym,
  ap, ◌∙◌, arith, find, update_where, All-if, Bool-cases, inl, inr,
}
use computecluster.Deployments.Contracts.{
  Checked, ok, contract_error, Kind, Operation, same_kind, Receipt, InstalledSnapshot,
  same_selection, same_selection→≡,
}
use computecluster.Deployments.Checked.{
  Holds, Holds-value, Holds-each, Holds-given, Holds-if, Holds-bind, Holds-guard,
}
use computecluster.Deployments.Tables.{OperationRow, OperationState, Tables}
use computecluster.Deployments.Approval.{VerifiedRelease, Verifier}
use computecluster.Deployments.Authority.{has_operation_id}
use computecluster.Deployments.Reconcile.{is_succeeded, admit_switch, with_state}
use computecluster.Deployments.Settle.{settle}
use computecluster.Deployments.History.{DeploymentHistory, admitted, settled, elsewhere}
use computecluster.Deployments.Keeps.{Keeps}
use computecluster.Deployments.Reconciliation.{
  SpoolFile, absent, unreadable, present, Spool, ReconcileEnd, read_switch, recorded,
  record_installed, record_release, or_before, install_and_settle, after_release, after_check,
  read_receipt, after_switch, reconcile_operation,
}

-- The operation stands in the tables.
abbrev Knows : Operation → Tables → Type 0
Knows o db =
    (r : OperationRow) × (find (has_operation_id o.operation_id) db.operations ≡ some r)
    × (r.operation ≡ o)

find-with_state :
    (i : ℕ) (p : OperationRow → Bool) (s : OperationState) (os : List OperationRow)
    (r : OperationRow)
    → find (has_operation_id i) os ≡ some r
    → (q : OperationRow) × (find (has_operation_id i) (update_where p (with_state s) os) ≡ some q)
      × (q.operation ≡ r.operation)
unfolding find update_where
find-with_state i p s [] r e = cc
find-with_state i p s (x ∷ xs) r e = elim (Bool-cases (has_operation_id i x)) [
  | inl h ↦
      let same : x ≡ r = ground arith in
      elim (Bool-cases (p x)) [
        | inl t ↦ rw (t, h) (with_state s x, refl, ap (λ z. z.operation) same)
        | inr f ↦ rw (f, h) (x, refl, ap (λ z. z.operation) same)
      ]
  | inr n ↦
      let rest = find-with_state i p s xs r (rw n at e) in
      elim (Bool-cases (p x)) [ inl t ↦ rw (t, n) rest | inr f ↦ rw (f, n) rest ]
]

module _ (v : Verifier) (o : Operation) where
  abbrev Past : Tables → Type 0
  Past db = DeploymentHistory v db × Knows o db

  admit-Knows : (hint : ℕ) (db : Tables) → Knows o db → Holds (Knows o) (admit_switch o hint db)
  unfolding admit_switch
  admit-Knows hint db (r, e, same) = Holds-guard _ _ _ _ (λ f. Holds-value _ _ (
      let (q, found, kept) =
        find-with_state o.operation_id _ OperationState.switching db.operations r e in
      (q, found, kept ∙ same)))

  switch-Past : (file : SpoolFile ℕ) (db : Tables) → Past db → Holds Past (read_switch o file db)
  unfolding read_switch
  switch-Past absent db past = Holds-value _ _ past
  switch-Past (unreadable m) db past = unfold Holds in tt
  switch-Past (present hint) db past =
      Holds-each Past (admit_switch o hint db)
        (λ after e. (admitted db o hint past.0 e, Holds-given _ _ _ (admit-Knows hint db past.1) e))

  or_before-History :
      (db : Tables) (end : ReconcileEnd) (m : Checked Tables)
      → DeploymentHistory v db
      → ((after : Tables) → m ≡ ok after → DeploymentHistory v after)
      → DeploymentHistory v (or_before v db end m).0
  or_before-History db end (ok after) past h = h after refl
  or_before-History db end (contract_error m) past h = past

  settle-History :
      (policy : ℕ) (receipt : Receipt) (install : Option String) (db : Tables)
      → Past db
      → receipt.selection ≡ o.approval.selection
      → DeploymentHistory v (install_and_settle v o policy receipt install db).0
  unfolding install_and_settle
  settle-History policy receipt none db past same =
      let (r, e, same_operation) = past.1 in
      let known : find (has_operation_id r.operation.operation_id) db.operations ≡ some r =
        subst (λ z. find (has_operation_id z.operation_id) db.operations ≡ some r)
          (sym same_operation) e in
      subst
        (λ z.
          DeploymentHistory v (or_before v db ReconcileEnd.closed (settle v z policy receipt db)).0)
        same_operation
        (or_before-History db ReconcileEnd.closed (settle v r.operation policy receipt db) past.0
          (λ after f.
            settled db r policy receipt past.0 known
              (same ∙ ap (λ z. z.approval.selection) (sym same_operation)) f))
  settle-History policy receipt (some m) db past same = past.0

  recorded-Keeps :
      (receipt : Receipt) (release : VerifiedRelease) (db : Tables)
      → Keeps db (recorded v receipt release db)
  recorded-Keeps receipt release db =
      All-if {A = Tables} (Keeps db) _ _ _ (λ y. (refl, refl)) (λ n. (refl, refl))

  record-Keeps :
      (receipt : Receipt) (snapshot : Option InstalledSnapshot) (db : Tables)
      → Holds (Keeps db) (record_installed v o receipt snapshot db)
  unfolding record_installed
  record-Keeps receipt none db = Holds-value _ _ (refl, refl)
  record-Keeps receipt (some s) db =
      Holds-if _ (is_succeeded receipt.state && not (same_kind o.kind Kind.rehearse)) _ _
        (λ y. Holds-bind _ _ _ (λ release e.
          Holds-value _ (recorded v receipt release db) (recorded-Keeps receipt release db)))
        (λ n. Holds-value _ db (refl, refl))

  release-Past :
      (receipt : Receipt) (db : Tables) → Past db → Holds Past (record_release v o receipt db)
  unfolding record_release
  release-Past receipt db past =
      Holds-each Past (record_installed v o receipt receipt.installed db) (λ after e.
        let kept = Holds-given _ _ _ (record-Keeps receipt receipt.installed db) e in
        (
          elsewhere db past.0 kept,
          (
            past.1.0,
            subst (λ ops. find (has_operation_id o.operation_id) ops ≡ some past.1.0) (sym kept.0)
                past.1.1,
            past.1.2,
          ),
        ))

  release-History :
      (policy : ℕ) (receipt : Receipt) (install : Option String) (db : Tables) (m : Checked Tables)
      → receipt.selection ≡ o.approval.selection
      → Past db
      → Holds Past m
      → DeploymentHistory v (after_release v o policy receipt install db m).0
  unfolding after_release
  release-History policy receipt install db (contract_error m) same past h = past.0
  release-History policy receipt install db (ok after) same past h =
      settle-History policy receipt _ after (unfold Holds in h) same

  check-History :
      (policy : ℕ) (receipt : Receipt) (install : Option String) (db : Tables) (m : Checked Bool)
      → receipt.selection ≡ o.approval.selection
      → Past db
      → DeploymentHistory v (after_check v o policy receipt install db m).0
  unfolding after_check
  check-History policy receipt install db (contract_error m) same past = past.0
  check-History policy receipt install db (ok false) same past = past.0
  check-History policy receipt install db (ok true) same past =
      release-History policy receipt install db _ same past (release-Past receipt db past)

  receipt-History :
      (policy : ℕ) (install : Option String) (file : SpoolFile Receipt) (db : Tables)
      → Past db
      → DeploymentHistory v (read_receipt v o policy install file db).0
  unfolding read_receipt
  receipt-History policy install absent db past = past.0
  receipt-History policy install (unreadable m) db past = past.0
  receipt-History policy install (present receipt) db past =
      All-if {A = Tables × Checked ReconcileEnd} (λ z. DeploymentHistory v (z.0))
        (receipt.operation_id == o.operation_id
          && same_selection receipt.selection o.approval.selection)
        _ _
        (λ y.
          check-History policy receipt install db _
            (same_selection→≡ receipt.selection o.approval.selection (ground arith)) past)
        (λ n. past.0)

  switch-History :
      (policy : ℕ) (spool : Spool) (db : Tables) (m : Checked Tables)
      → Past db
      → Holds Past m
      → DeploymentHistory v (after_switch v o policy spool db m).0
  unfolding after_switch
  switch-History policy spool db (contract_error m) past h = past.0
  switch-History policy spool db (ok after) past h =
      receipt-History policy spool.install_error spool.receipt after (unfold Holds in h)

  -- Reconciling an operation of the tables, whatever the spool holds and wherever it fails, does no
  -- more than transactions of a history: from tables of a history it leads to tables of one.
  pub reconcile_operation-DeploymentHistory :
      (policy : ℕ) (spool : Spool) (db : Tables) (r : OperationRow)
      → DeploymentHistory v db
      → find (has_operation_id o.operation_id) db.operations ≡ some r
      → r.operation ≡ o
      → DeploymentHistory v (reconcile_operation v o policy spool db).0
  unfolding reconcile_operation
  reconcile_operation-DeploymentHistory policy spool db r past known same =
      switch-History policy spool db _ (past, (r, known, same))
        (switch-Past spool.switch db (past, (r, known, same)))
