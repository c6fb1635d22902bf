-- ===== src/Deployments/Authority/Approved.antt =====
-- What an authority was checked for.
use computecluster.Prelude.{ℕ, true, false, some, ◌≡◌, refl, ap, ◌∙◌, arith, any, find}
use mathlib.Core.Path.{subst}
use computecluster.Deployments.Contracts.{ok, Kind, Selection, Operation, same_selection→≡}
use computecluster.Deployments.Checked.{
  Holds, Holds-value, Holds-given, Holds-test, Holds-bind, Holds-next, Holds-then, Holds-guard,
  Holds-or_raise,
}
use computecluster.Deployments.Tables.{OperationRow, PreviewResult, Tables, accepted, is_authority}
use computecluster.Deployments.Approval.{
  VerifiedRelease, Verifier, latest_generation, is_rejected, ready_result, checks_passed,
  preview_checks, kind_checks, selection_for,
}
use computecluster.Deployments.Authority.{
  Authority, is_active_operation, rehearsed, rehearsal_checks, target_checks, read_authority,
}

-- The release is not rejected, and a preview of it that is ready passed every check.
abbrev pub IsReviewed : ℕ → ℕ → ℕ → Tables → Type 0
IsReviewed app digest preview db =
    (is_rejected app digest db ≡ false)
    × (p : PreviewResult) × (ready_result preview db ≡ some p)
    × (p.app_id ≡ app)
    × (p.manifest_sha256 ≡ digest)
    × (checks_passed p.checks ≡ true)

-- A deployment may go ahead: its operation is active, it was approved for the latest generation by an
-- administrator whose session is still good, its release was reviewed, and a rehearsal of the very
-- same selection succeeded.
pub record IsDeployable (db : Tables) (operation_id : ℕ) (o : Operation) : Type 0 where
  pub active :
      (r : OperationRow) × (find (is_active_operation operation_id) db.operations ≡ some r)
      × (o ≡ r.operation)
  pub administrator :
      any (is_authority o.approval.administrator_id o.approval.session_version) db.users ≡ true
  pub current :
      o.approval.selection.generation
      ≡ latest_generation
          (accepted o.approval.selection.app_id o.approval.selection.environment 0 db)
  pub reviewed :
      IsReviewed o.approval.selection.app_id o.approval.selection.manifest_sha256
        o.approval.selection.preview_id db
  pub rehearsal : rehearsed o.approval.rehearsal_id db ≡ some o.approval.selection

-- What an authority says of the tables that it was read from.
record IsApproved (db : Tables) (operation_id : ℕ) (a : Authority) : Type 0 where
  pub active :
      (o : OperationRow) × (find (is_active_operation operation_id) db.operations ≡ some o)
      × (a.operation ≡ o.operation)
  pub administrator :
      any
        (is_authority a.operation.approval.administrator_id a.operation.approval.session_version)
        db.users
      ≡ true
  pub current :
      a.operation.approval.selection.generation
      ≡ latest_generation (
          accepted a.operation.approval.selection.app_id a.operation.approval.selection.environment
            0 db)
  pub reviewed :
      a.operation.kind ≡ Kind.deploy
      → IsReviewed a.operation.approval.selection.app_id
          a.operation.approval.selection.manifest_sha256 a.operation.approval.selection.preview_id
          db
  pub rehearsal :
      a.operation.kind ≡ Kind.deploy
      → rehearsed a.operation.approval.rehearsal_id db ≡ some a.operation.approval.selection

module _ (v : Verifier) where
  preview_checks-IsReviewed :
      (app digest preview : ℕ) (release : VerifiedRelease) (db : Tables)
      → Holds
          (λ b. IsReviewed app digest preview db)
          (preview_checks v app digest preview release db)
  unfolding preview_checks
  preview_checks-IsReviewed app digest preview release db = Holds-guard _ _ _ _ (λ kept.
      Holds-or_raise _ _ _ _ (λ p found.
        Holds-test _ _ _ (λ fits. (kept, p, found, ground arith, ground arith, ground arith))))

  kind_checks-IsReviewed :
      (kind : Kind) (app environment digest preview : ℕ) (release : VerifiedRelease) (db : Tables)
      → kind ≡ Kind.deploy
      → Holds
          (λ b. IsReviewed app digest preview db)
          (kind_checks v kind app environment digest preview release db)
  unfolding kind_checks
  kind_checks-IsReviewed Kind.deploy app e digest preview release db k =
      preview_checks-IsReviewed app digest preview release db
  kind_checks-IsReviewed Kind.rehearse app e digest preview release db k =
      preview_checks-IsReviewed app digest preview release db
  kind_checks-IsReviewed Kind.rollback app e digest preview release db k = absurd (ground arith)
  kind_checks-IsReviewed Kind.recover app e digest preview release db k = absurd (ground arith)
  kind_checks-IsReviewed Kind.retire app e digest preview release db k = absurd (ground arith)

  rehearsal_checks-rehearsed :
      (o : Operation) (db : Tables)
      → Holds
          (λ b. rehearsed o.approval.rehearsal_id db ≡ some o.approval.selection)
          (rehearsal_checks o db)
  unfolding rehearsal_checks
  rehearsal_checks-rehearsed o db = Holds-or_raise _ _ _ _ (λ s found.
      Holds-test _ _ _
        (λ same. found ∙ ap (λ z. some z) (same_selection→≡ s o.approval.selection (ground arith))))

  target_checks-rehearsed :
      (o : Operation) (db : Tables)
      → o.kind ≡ Kind.deploy
      → Holds
          (λ b. rehearsed o.approval.rehearsal_id db ≡ some o.approval.selection)
          (target_checks o db)
  unfolding target_checks
  target_checks-rehearsed o db k = rw k (rehearsal_checks-rehearsed o db)

  -- What a selection was checked for.
  abbrev IsSelected : ℕ → ℕ → ℕ → Kind → Tables → Selection → Type 0
  IsSelected app digest preview kind db s =
      (s.generation ≡ latest_generation (accepted s.app_id s.environment 0 db))
      × (kind ≡ Kind.deploy → IsReviewed app digest preview db)

  selection_for-IsSelected :
      (app digest preview policy : ℕ) (kind : Kind) (db : Tables)
      → Holds
          (IsSelected app digest preview kind db)
          (selection_for v app digest preview policy kind db)
  unfolding selection_for
  selection_for-IsSelected app digest preview policy kind db = Holds-bind _ _ _ (λ registration e.
      Holds-bind _ _ _ (λ released f. Holds-bind _ _ _ (λ release g.
        Holds-or_raise _ _ _ _ (λ active h. Holds-next _ _ _ (λ checked c. Holds-value _ _ (
          refl,
          λ k.
              Holds-given _ _ _
                (kind_checks-IsReviewed kind app active.0.environment digest preview release db k)
                c,
        ))))))

  read_authority-IsApproved :
      (operation_id policy : ℕ) (db : Tables)
      → Holds (IsApproved db operation_id) (read_authority v operation_id policy db)
  unfolding read_authority
  read_authority-IsApproved operation_id policy db = Holds-or_raise _ _ _ _ (λ row found.
      Holds-guard _ _ _ _ (λ trusted.
        Holds-then _ _ _ _
          (selection_for-IsSelected row.operation.approval.selection.app_id
            row.operation.approval.selection.manifest_sha256
            row.operation.approval.selection.preview_id policy row.operation.kind db)
          (λ fresh selected. Holds-guard _ _ _ _ (λ same. Holds-next _ _ _ (λ target checked.
            let equal = same_selection→≡ fresh row.operation.approval.selection (ground arith) in
            Holds-bind _ _ _ (λ registration e. Holds-bind _ _ _ (λ released f.
              Holds-bind _ _ _ (λ release g. Holds-or_raise _ _ _ _ (λ credential h.
                Holds-or_raise _ _ _ _ (λ instance i. Holds-value _ _ (record {
                  active = (row, found, refl);
                  administrator = ground arith;
                  current =
                      subst
                        (λ s.
                          s.generation ≡ latest_generation (accepted s.app_id s.environment 0 db))
                        equal selected.0;
                  reviewed = selected.1;
                  rehearsal =
                      λ k. Holds-given _ _ _ (target_checks-rehearsed row.operation db k) checked;
                })))))))))))

  -- The authority for a deployment is read only where the operation is queued or switching, its
  -- administrator is enabled and has the session version of the approval, its selection was made on
  -- the latest generation, its release is not rejected and has a ready preview that passed every
  -- check, and the rehearsal that it names succeeded with the same selection.
  pub read_authority-IsDeployable :
      (operation_id policy : ℕ) (db : Tables) (a : Authority)
      → read_authority v operation_id policy db ≡ ok a
      → a.operation.kind ≡ Kind.deploy
      → IsDeployable db operation_id a.operation
  read_authority-IsDeployable operation_id policy db a e k =
      let h = Holds-given _ _ a (read_authority-IsApproved operation_id policy db) e in
      record {
        active = h.active;
        administrator = h.administrator;
        current = h.current;
        reviewed = h.reviewed k;
        rehearsal = h.rehearsal k;
      }
