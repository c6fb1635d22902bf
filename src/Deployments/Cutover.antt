-- ===== src/Deployments/Cutover.antt =====
-- app/app_deployments.py: the cutover of a legacy application, and its way back.
use computecluster.Prelude.{
  ℕ, Bool, true, false, Option, none, some, ◌&&◌, ◌==◌, not, is_some, update_where, if◌then◌else◌,
}
use computecluster.Deployments.Contracts.{
  Checked, ok, raise_if, or_raise, committed, ◌>>=◌, ◌>>◌, Access, Registration, same_registration,
}
use computecluster.Deployments.Tables.{
  CredentialRow, Tables, accepted, environment_of, require_idle, registered, managed, legacy,
}
use computecluster.Deployments.Approval.{Verifier}
use computecluster.Deployments.Settle.{replace_registration}
use computecluster.Deployments.Registrations.{RegistrationOutcome}

unfoldable require_unaccepted : ℕ → Tables → Checked ℕ
unfolding require_idle accepted
require_unaccepted app db = do
  environment ← or_raise (environment_of db) "Application instance is not configured"
  require_idle app false db
  raise_if (is_some (accepted app environment 0 db))
      "Accepted installation history refuses a legacy cutover"
  ok environment

abbrev same_access : Access → Access → Bool
same_access Access.linked_user Access.linked_user = true
same_access Access.administrator Access.administrator = true
same_access _ _ = false

abbrev keeps_directory : Option ℕ → Option ℕ → Bool
keeps_directory none new = true
keeps_directory (some old) none = false
keeps_directory (some old) (some new) = old == new

unfoldable require_cutover_pair : Registration → Registration → Checked Bool
require_cutover_pair legacy_side managed_side = do
  raise_if (not (legacy legacy_side)) "A legacy-scripts definition is required"
  raise_if (not (managed managed_side)) "A published managed definition is required"
  raise_if (not (legacy_side.route == managed_side.route)) "Legacy cutover cannot change the route"
  raise_if (not (same_access legacy_side.definition.access managed_side.definition.access))
      "Legacy cutover cannot change access"
  raise_if
      (not (
        keeps_directory legacy_side.definition.bindings.state_directory
          managed_side.definition.bindings.state_directory))
      "Legacy cutover cannot change the state directory"

abbrev revoke : CredentialRow → CredentialRow
revoke c = record c { revoked = true }

unfoldable pub revoke_credentials : ℕ → ℕ → Tables → Tables
revoke_credentials app environment db = record db {
  credentials =
      update_where (λ c. c.app_id == app && (c.environment == environment && not c.revoked)) revoke
        db.credentials;
}

module _ (v : Verifier) where
  unfoldable pub replace_legacy :
      Registration → Registration → ℕ → Tables → Checked (Tables × RegistrationOutcome)
  unfolding require_cutover_pair replace_registration
  replace_legacy current proposed expected db = do
    require_cutover_pair current proposed
    raise_if (not (v.fingerprint current == expected))
        "Legacy registration fingerprint does not match"
    ok (replace_registration proposed db, RegistrationOutcome.updated)

  unfoldable pub provision_checked :
      Registration → ℕ → Tables → Checked (Tables × RegistrationOutcome)
  unfolding require_unaccepted registered same_registration replace_legacy
  provision_checked proposed expected db = do
    raise_if (not (managed proposed)) "A published managed definition is required"
    require_unaccepted proposed.app_id db
    current ← registered proposed.app_id db
    (if same_registration current proposed
        then ok (db, RegistrationOutcome.unchanged)
        else replace_legacy current proposed expected db)

  unfoldable pub provision_legacy : Registration → ℕ → Tables → Tables × Checked RegistrationOutcome
  unfolding provision_checked
  provision_legacy proposed expected db = committed db (provision_checked proposed expected db)

  -- The registration of the way back, before the credentials are revoked.
  unfoldable pub restore_registration :
      Registration → Registration → ℕ → Tables → Checked (Tables × RegistrationOutcome)
  unfolding require_cutover_pair same_registration replace_registration
  restore_registration current old expected db =
      if same_registration current old then ok (db, RegistrationOutcome.unchanged) else (do
        require_cutover_pair old current
        raise_if (not (v.fingerprint current == expected))
            "Managed registration fingerprint does not match"
        ok (replace_registration old db, RegistrationOutcome.updated))

  unfoldable pub restore_checked :
      Registration → ℕ → ℕ → Tables → Checked (Tables × RegistrationOutcome)
  unfolding require_unaccepted registered restore_registration revoke_credentials
  restore_checked old expected_legacy expected_managed db = do
    raise_if (not (legacy old)) "A legacy-scripts definition is required"
    raise_if (not (v.fingerprint old == expected_legacy))
        "Legacy registration fingerprint does not match"
    environment ← require_unaccepted old.app_id db
    current ← registered old.app_id db
    restored ← restore_registration current old expected_managed db
    ok (revoke_credentials old.app_id environment restored.0, restored.1)

  unfoldable pub restore_unaccepted_legacy :
      Registration → ℕ → ℕ → Tables → Tables × Checked RegistrationOutcome
  unfolding restore_checked
  restore_unaccepted_legacy old expected_legacy expected_managed db =
      committed db (restore_checked old expected_legacy expected_managed db)
