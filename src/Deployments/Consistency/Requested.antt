-- ===== src/Deployments/Consistency/Requested.antt =====
-- A new request keeps the deployments consistent, and what it was checked for.
use computecluster.Prelude.{ℕ, false, Option, none, some, List, ◌≡◌, refl, ◌∙◌, arith}
use computecluster.Deployments.Contracts.{Kind, Operation}
use computecluster.Deployments.Checked.{
  Holds, Holds-value, Holds-bind, Holds-next, Holds-then, Holds-guard, Holds-or_raise,
}
use computecluster.Deployments.Tables.{OperationRow, OperationState, Tables, accepted}
use computecluster.Deployments.Approval.{Verifier, selection_for, latest_generation}
use computecluster.Deployments.Reconcile.{admit_switch, with_state}
use computecluster.Deployments.Requests.{
  OperationRequest, new_operation, new_request, answer_request, request_checked,
}
use computecluster.Deployments.Generations.{latest_generation-accepted}
use computecluster.Deployments.Consistency.{
  IsSoundDeployments, update-IsSoundBut, insert-IsSoundDeployments,
}

module _ (v : Verifier) where
  selection_for-latest :
      (app digest preview policy : ℕ) (kind : Kind) (db : Tables)
      → Holds
          (λ s. s.generation ≡ latest_generation (accepted s.app_id s.environment 0 db))
          (selection_for v app digest preview policy kind db)
  unfolding selection_for
  selection_for-latest app digest preview policy kind db = Holds-bind _ _ _ (λ registration e.
      Holds-bind _ _ _ (λ released f. Holds-bind _ _ _ (λ release g.
        Holds-or_raise _ _ _ _ (λ active h. Holds-next _ _ _ (λ checked k. Holds-value _ _ refl)))))

  abbrev Sound : {A : Type 0} → Tables × A → Type 0
  Sound r = IsSoundDeployments (r.0)

  new_request-IsSound :
      (q : OperationRequest) (policy operation_id : ℕ) (db : Tables)
      → IsSoundDeployments db
      → Holds Sound (new_request v q policy operation_id db)
  unfolding new_request
  new_request-IsSound q policy operation_id db s = Holds-bind _ _ _ (λ blocked e.
      Holds-or_raise _ _ _ _ (λ preview f. Holds-guard _ _ _ _ (λ g.
        Holds-then _ _ _ _ (selection_for-latest q.app_id q.digest preview policy q.kind db)
          (λ selected latest. Holds-bind _ _ _ (λ shown h. Holds-guard _ _ _ _ (λ i.
            Holds-next _ _ _ (λ idle j.
              Holds-then _ _ _ _
                (insert-IsSoundDeployments (new_operation v q operation_id blocked selected) db s (
                  latest
                  ∙ latest_generation-accepted selected.app_id selected.environment db
                      (s.numbered selected.app_id selected.environment)))
                (λ after sound. Holds-next _ _ _ (λ authority k. Holds-value _ _ sound)))))))))

  answer_request-IsSound :
      (q : OperationRequest) (policy operation_id : ℕ) (db : Tables) (prior : Option OperationRow)
      → IsSoundDeployments db
      → Holds Sound (answer_request v q policy operation_id db prior)
  unfolding answer_request
  answer_request-IsSound q policy operation_id db none s =
      new_request-IsSound q policy operation_id db s
  answer_request-IsSound q policy operation_id db (some prior) s =
      Holds-bind _ _ _ (λ operation e. Holds-value _ _ s)

  pub request_checked-IsSound :
      (q : OperationRequest) (kinds : List Kind) (policy operation_id : ℕ) (db : Tables)
      → IsSoundDeployments db
      → Holds Sound (request_checked v q kinds policy operation_id db)
  unfolding request_checked
  request_checked-IsSound q kinds policy operation_id db s =
      Holds-guard _ _ _ _ (λ f. answer_request-IsSound q policy operation_id db _ s)

pub admit_switch-IsSound :
    (o : Operation) (hint : ℕ) (db : Tables)
    → IsSoundDeployments db
    → Holds IsSoundDeployments (admit_switch o hint db)
unfolding admit_switch
admit_switch-IsSound o hint db s = Holds-guard _ _ _ _ (λ f. Holds-value _ _ (
    update-IsSoundBut (λ id. false) db _ (with_state OperationState.switching)
      (record {
        operation = λ x. refl;
        app = λ x. refl;
        place = λ x. refl;
        state = λ x t a. ground arith;
      })
      s))
