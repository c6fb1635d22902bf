-- ===== src/Deployments/Keeps.antt =====
-- The transactions of registrations write neither an operation nor an installation.
use computecluster.Prelude.{ℕ, Option, none, some, ◌≡◌, refl, All-if}
use computecluster.Deployments.Contracts.{Registration, InstalledSnapshot, same_registration}
use computecluster.Deployments.Checked.{
  Holds, Holds-value, Holds-bind, Holds-next, Holds-then, Holds-if, Holds-guard,
}
use computecluster.Deployments.Tables.{Tables}
use computecluster.Deployments.Approval.{Verifier, RegistrationProposal, change_of}
use computecluster.Deployments.Settle.{replace_registration}
use computecluster.Deployments.Cutover.{
  provision_checked, restore_checked, replace_legacy, restore_registration, revoke_credentials,
}
use computecluster.Deployments.Registrations.{
  update_checked, propose_change, change_registration, propose, RegistrationOutcome, note_change,
  reject_checked,
}

-- The same operations and the same history of installations.
abbrev pub Keeps : Tables → Tables → Type 0
Keeps db after = (after.operations ≡ db.operations) × (after.history ≡ db.history)

module _ (v : Verifier) where
  propose_change-Keeps :
      (r : Registration) (environment : ℕ) (current : InstalledSnapshot) (db : Tables)
      → Holds (λ z. Keeps db (z.0)) (propose_change v r environment current db)
  unfolding propose_change propose
  propose_change-Keeps r environment current db = Holds-guard _ _ _ _ (λ f.
      Holds-next _ _ _ (λ idle g. Holds-next _ _ _ (λ release h. Holds-value _ _ (
        All-if {A = Tables × RegistrationOutcome} (λ z. Keeps db (z.0)) _ _ _ (λ y. (refl, refl))
          (λ n. (refl, refl))))))

  change_registration-Keeps :
      (r : Registration) (current : Option (ℕ × InstalledSnapshot)) (db : Tables)
      → Holds (λ z. Keeps db (z.0)) (change_registration v r current db)
  unfolding change_registration replace_registration
  change_registration-Keeps r none db = Holds-value _ _ (refl, refl)
  change_registration-Keeps r (some (environment, current)) db =
      propose_change-Keeps r environment current db

  pub update_checked-Keeps :
      (r : Registration) (db : Tables) → Holds (λ z. Keeps db (z.0)) (update_checked v r db)
  unfolding update_checked
  update_checked-Keeps r db = Holds-bind _ _ _ (λ old e.
      Holds-guard _ _ _ _ (λ f. Holds-guard _ _ _ _ (λ g. change_registration-Keeps _ _ db)))

  note_change-Keeps :
      (administrator : ℕ) (change : Option RegistrationProposal) (db : Tables)
      → Keeps db (note_change v administrator change db)
  note_change-Keeps administrator none db = (refl, refl)
  note_change-Keeps administrator (some c) db = (refl, refl)

  pub reject_checked-Keeps :
      (app digest administrator version : ℕ) (shown : Option ℕ) (db : Tables)
      → Holds (λ z. Keeps db (z.0)) (reject_checked v app digest administrator version shown db)
  unfolding reject_checked
  reject_checked-Keeps app digest administrator version shown db = Holds-guard _ _ _ _ (λ a.
      Holds-bind _ _ _ (λ registration b. Holds-next _ _ _ (λ release c. Holds-next _ _ _ (λ idle d.
        Holds-guard _ _ _ _ (λ e. Holds-guard _ _ _ _ (λ f. Holds-value _ _ (
          All-if {A = Tables} (Keeps db) _ _ _
            (λ y. note_change-Keeps administrator (change_of app db) db)
            (λ n. note_change-Keeps administrator (change_of app db) db))))))))

  replace_legacy-Keeps :
      (current proposed : Registration) (expected : ℕ) (db : Tables)
      → Holds (λ z. Keeps db (z.0)) (replace_legacy v current proposed expected db)
  unfolding replace_legacy replace_registration
  replace_legacy-Keeps current proposed expected db =
      Holds-next _ _ _ (λ pair e. Holds-guard _ _ _ _ (λ f. Holds-value _ _ (refl, refl)))

  pub provision_checked-Keeps :
      (proposed : Registration) (expected : ℕ) (db : Tables)
      → Holds (λ z. Keeps db (z.0)) (provision_checked v proposed expected db)
  unfolding provision_checked
  provision_checked-Keeps proposed expected db = Holds-guard _ _ _ _ (λ f.
      Holds-next _ _ _ (λ environment e. Holds-bind _ _ _ (λ current g.
        Holds-if _ (same_registration current proposed) _ _ (λ y. Holds-value _ _ (refl, refl))
          (λ n. replace_legacy-Keeps current proposed expected db))))

  restore_registration-Keeps :
      (current old : Registration) (expected : ℕ) (db : Tables)
      → Holds (λ z. Keeps db (z.0)) (restore_registration v current old expected db)
  unfolding restore_registration replace_registration
  restore_registration-Keeps current old expected db =
      Holds-if _ (same_registration current old) _ _
        (λ y. Holds-value _ (db, RegistrationOutcome.unchanged) (refl, refl))
        (λ n. Holds-next _ _ _ (λ pair e. Holds-guard _ _ _ _ (λ f. Holds-value _ _ (refl, refl))))

  pub restore_checked-Keeps :
      (old : Registration) (expected_legacy expected_managed : ℕ) (db : Tables)
      → Holds (λ z. Keeps db (z.0)) (restore_checked v old expected_legacy expected_managed db)
  unfolding restore_checked revoke_credentials
  restore_checked-Keeps old expected_legacy expected_managed db = Holds-guard _ _ _ _ (λ f.
      Holds-guard _ _ _ _ (λ g. Holds-bind _ _ _ (λ environment e. Holds-bind _ _ _ (λ current h.
        Holds-then _ _ _ _ (restore_registration-Keeps current old expected_managed db)
          (λ done kept. Holds-value _ _ kept)))))
