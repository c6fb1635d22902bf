-- ===== src/Deployments/Registrations.antt =====
-- app/app_deployments.py: changes of registrations, and AppsService.reject.
use computecluster.Prelude.{
  ℕ, suc, Bool, true, false, Option, none, some, List, [], ◌∷◌, ◌++◌, ◌&&◌, ◌||◌, ◌==◌, ltb, leb,
  any, filter_by, sort_by, not, is_none, is_some, if◌then◌else◌,
}
use computecluster.Deployments.Contracts.{
  Checked, ok, raise_if, or_raise, committed, ◌>>=◌, ◌>>◌, PublishedSource, published,
  legacy_source, Access, Setting, Definition, Registration, InstalledSnapshot, same_registration,
}
use computecluster.Deployments.Tables.{
  ProposalRow, Tables, installed, retirement, environment_of, require_idle, registration_for,
  is_authority,
}
use computecluster.Deployments.Approval.{
  Verifier, RegistrationProposal, eligible, proposed_registration, pending_change, change_of,
  installed_of, is_rejected, published_source,
}
use computecluster.Deployments.Requests.{same_column}
use computecluster.Deployments.Settle.{replace_registration}

pub data RegistrationOutcome : Type 0 where
  updated proposed withdrawn unchanged : RegistrationOutcome

abbrev with_definition : (Definition → Definition) → Registration → Registration
with_definition f r = record r { definition = f r.definition }

-- Names of settings are unique in a registration.
abbrev merged_settings : List Setting → List Setting → List Setting
merged_settings old new =
    sort_by (λ a b. ltb a.name b.name)
      (filter_by (λ s. not (any (λ t. t.name == s.name) new)) old ++ new)

abbrev with_settings : List Setting → Definition → Definition
with_settings settings d = record d { bindings = record d.bindings { settings = settings } }

abbrev pub merged : Registration → Registration → Registration
merged old new =
    with_definition
      (with_settings
        (merged_settings old.definition.bindings.settings new.definition.bindings.settings))
      new

-- installed_identity: everything but the presentation and the bindings, with the state directory.
abbrev identity_part : Registration → Registration
identity_part = with_definition (λ d. record d {
  presentation = 0;
  bindings = record { settings = []; state_directory = d.bindings.state_directory; others = 0 };
})

unfoldable same_identity : Registration → Registration → Bool
unfolding same_registration
same_identity a b = same_registration (identity_part a) (identity_part b)

-- proposed.route == old.route and proposed.installation == old.installation
abbrev only_hosted : Registration → Registration
only_hosted r = record r {
  app_id = 0;
  definition = record {
    source = legacy_source;
    access = Access.linked_user;
    capabilities = 0;
    presentation = 0;
    bindings = record { settings = []; state_directory = none; others = 0 };
    installation = r.definition.installation;
  };
}

unfoldable same_host : Registration → Registration → Bool
unfolding same_registration
same_host a b = same_registration (only_hosted a) (only_hosted b)

-- INTEGER PRIMARY KEY: one more than the largest.
unfoldable next_proposal : List ProposalRow → ℕ
next_proposal [] = 1
next_proposal (p ∷ ps) =
    let n = next_proposal ps in if leb n p.proposal_id then suc p.proposal_id else n

unfoldable pub propose : Registration → ℕ → ℕ → Tables → Tables
unfolding next_proposal
propose r environment generation db = record db {
  proposals =
      db.proposals
      ++ record {
        proposal_id = next_proposal db.proposals;
        app_id = r.app_id;
        environment = environment;
        base_generation = generation;
        definition = r.definition;
      }
        ∷ [];
}

abbrev changed_or : Option RegistrationProposal → Registration → Registration
changed_or none r = r
changed_or (some c) r = c.registration

abbrev pub retired_now : ℕ → Tables → Bool
retired_now app db = elim (environment_of db) [
  | none ↦ false
  | some environment ↦ is_some (retirement app environment db)
]

module _ (v : Verifier) where
  -- The change of an installed application.
  unfoldable pub propose_change :
      Registration → ℕ → InstalledSnapshot → Tables → Checked (Tables × RegistrationOutcome)
  unfolding same_identity require_idle eligible pending_change same_registration propose
  propose_change merged environment current db = do
    raise_if (not (same_identity merged current.registration))
        "An installed application can change only its operator bindings and presentation"
    require_idle merged.app_id false db
    eligible v merged current.selection.manifest_sha256 db
    let change = pending_change merged.app_id environment db
    ok (
        if same_registration merged (changed_or change current.registration)
        then (db, RegistrationOutcome.unchanged)
        else (
          propose merged environment current.generation db,
          if same_registration merged current.registration
              then RegistrationOutcome.withdrawn
              else RegistrationOutcome.proposed,
        ))

  abbrev pub current_installation : ℕ → Tables → Option (ℕ × InstalledSnapshot)
  current_installation app db = elim (environment_of db) [
    | none ↦ none
    | some environment ↦ elim (installed app environment 0 db) [
      | none ↦ none
      | some current ↦ some (environment, current)
    ]
  ]

  unfoldable pub change_registration :
      Registration
      → Option (ℕ × InstalledSnapshot)
      → Tables
      → Checked (Tables × RegistrationOutcome)
  unfolding replace_registration propose_change
  change_registration merged none db =
      ok (replace_registration merged db, RegistrationOutcome.updated)
  change_registration merged (some (environment, current)) db =
      propose_change merged environment current db

  unfoldable pub update_checked : Registration → Tables → Checked (Tables × RegistrationOutcome)
  unfolding registration_for same_host retirement installed change_registration
  update_checked new db = do
    old ← registration_for new.app_id db
    raise_if (not (same_host new old)) "Route and installation changes require host reprovisioning"
    raise_if (retired_now old.app_id db) "Restore the app before changing its registration"
    change_registration (merged old new) (current_installation old.app_id db) db

  unfoldable pub update_registration : Registration → Tables → Tables × Checked RegistrationOutcome
  unfolding update_checked
  update_registration new db = committed db (update_checked new db)

  -- reject
  abbrev is_installed : ℕ → ℕ → Tables → Bool
  is_installed app digest db = elim (installed_of app 0 db) [
    | none ↦ false
    | some current ↦ current.selection.manifest_sha256 == digest
  ]

  abbrev pub note_change : ℕ → Option RegistrationProposal → Tables → Tables
  note_change administrator none db = db
  note_change administrator (some c) db = record db {
    proposal_rejections = db.proposal_rejections ++ (c.proposal_id, administrator) ∷ [];
  }

  abbrev fingerprint_of : Option RegistrationProposal → Option ℕ
  fingerprint_of none = none
  fingerprint_of (some c) = some (v.fingerprint c.registration)

  unfoldable pub reject_checked : ℕ → ℕ → ℕ → ℕ → Option ℕ → Tables → Checked (Tables × Bool)
  unfolding eligible proposed_registration require_idle installed pending_change
  reject_checked app digest administrator version shown db = do
    raise_if (not (any (is_authority administrator version) db.users))
        "Administrator authority changed"
    registration ← proposed_registration app db
    eligible v registration digest db
    require_idle app false db
    let change = change_of app db
    raise_if (not (same_column (fingerprint_of change) shown)) "The settings change was replaced"
    let running_here = is_installed app digest db
    raise_if (running_here && is_none change) "The installed release cannot be rejected"
    ok (
      if running_here || is_rejected app digest db
          then note_change administrator change db
          else record (note_change administrator change db) {
            rejections =
                db.rejections
                ++ record {
                  app_id = app;
                  manifest_sha256 = digest;
                  administrator_id = administrator;
                }
                  ∷ [];
          },
      true,
    )

  unfoldable pub reject : ℕ → ℕ → ℕ → ℕ → Option ℕ → Tables → Tables × Checked Bool
  unfolding reject_checked
  reject app digest administrator version shown db =
      committed db (reject_checked app digest administrator version shown db)

-- What app_github proves of a renamed repository.
pub record RenamedRepository : Type 0 where
  pub repository : ℕ
  pub manifest_sha256 : ℕ

abbrev with_source : PublishedSource → Registration → Registration
with_source s = with_definition (λ d. record d { source = published s })

-- `default_image` is "ghcr.io/" with the lower case of the repository.
unfoldable pub rename_checked :
    (ℕ → ℕ) → ℕ → RenamedRepository → Option ℕ → Tables → Checked (Tables × RegistrationOutcome)
unfolding registration_for retirement installed require_idle pending_change same_registration
    propose
rename_checked default_image app proof image db = do
  registration_for app db
  raise_if (retired_now app db) "Restore the app before changing its registration"
  environment ← or_raise (environment_of db) "Only an installed app's source is renamed"
  current ← or_raise (installed app environment 0 db) "Only an installed app's source is renamed"
  raise_if (not (current.selection.manifest_sha256 == proof.manifest_sha256))
      "The installed release changed after the proof"
  require_idle app false db
  source ← or_raise (published_source current.registration) "AssertionError"
  raise_if (proof.repository == source.repository) "The installed source is already that"
  let base = changed_or (pending_change app environment db) current.registration
  let result =
      with_source
        (record source {
          repository = proof.repository;
          image_repository = elim image [ none ↦ default_image proof.repository | some i ↦ i ];
        })
        base
  ok (
      if same_registration result base
      then (db, RegistrationOutcome.unchanged)
      else (propose result environment current.generation db, RegistrationOutcome.proposed))

unfoldable pub propose_source_rename :
    (ℕ → ℕ) → ℕ → RenamedRepository → Option ℕ → Tables → Tables × Checked RegistrationOutcome
unfolding rename_checked
propose_source_rename default_image app proof image db =
    committed db (rename_checked default_image app proof image db)
