-- ===== src/Deployments/Contracts.antt =====
-- The documents of app/app_deployment_contracts.py, and app/app_contracts.py as far as they hold them.
-- A text, a digest or an id is a number: this code only tests it for equality, and sorts the names of
-- settings.
use native.Mathlib.Decide.{ℕ_discrete}
use mathlib.Core.Bool.{decide}
use computecluster.Prelude.{ℕ, String, Bool, true, false, Option, none, some, List, ◌≡◌, arith}

-- A value, or an exception with its message: a ContractError, or an error of Python or of the database.
pub data Checked {ℓ} (A : Type ℓ) : Type ℓ where
  ok : A → Checked A
  contract_error : String → Checked A

infixl 10 ◌>>=◌
unfoldable pub ◌>>=◌ {ℓ κ} : {A : Type ℓ} {B : Type κ} → Checked A → (A → Checked B) → Checked B
ok a >>= f = f a
contract_error m >>= f = contract_error m

infixl 10 ◌>>◌
unfoldable pub ◌>>◌ {ℓ κ} : {A : Type ℓ} {B : Type κ} → Checked A → Checked B → Checked B
unfolding ◌>>=◌
a >> b = a >>= λ _. b

unfoldable pub raise_if : Bool → String → Checked Bool
raise_if true message = contract_error message
raise_if false message = ok true

unfoldable pub or_raise {ℓ} : {A : Type ℓ} → Option A → String → Checked A
or_raise none message = contract_error message
or_raise (some a) message = ok a

-- A transaction that raises is rolled back.
abbrev pub committed : {S A : Type 0} → S → Checked (S × A) → S × Checked A
committed s (ok done) = (done.0, ok done.1)
committed s (contract_error m) = (s, contract_error m)

pub record PublishedSource : Type 0 where
  pub repository : ℕ
  pub branch : ℕ
  pub workflow : ℕ
  pub image_repository : ℕ

pub data Source : Type 0 where
  published : PublishedSource → Source
  legacy_source : Source

-- A host port and a probe.
pub data Installation : Type 0 where
  legacy_installed managed_installed : ℕ → ℕ → Installation

pub data Access : Type 0 where
  linked_user administrator : Access

pub record Setting : Type 0 where
  pub name : ℕ
  pub value : ℕ

-- `others` are the secret files, the backup directory, the integrations and the resources.
pub record OperatorBindings : Type 0 where
  pub settings : List Setting
  pub state_directory : Option ℕ
  pub others : ℕ

-- definition_of: the registration without its app and its route.
pub record Definition : Type 0 where
  pub source : Source
  pub access : Access
  pub capabilities : ℕ
  pub presentation : ℕ
  pub bindings : OperatorBindings
  pub installation : Option Installation

pub record Registration : Type 0 where
  pub app_id : ℕ
  pub route : ℕ
  pub definition : Definition

pub data Kind : Type 0 where
  rehearse deploy rollback recover retire : Kind

pub record Selection : Type 0 where
  pub app_id : ℕ
  pub environment : ℕ
  pub manifest_sha256 : ℕ
  pub archive_sha256 : ℕ
  pub registration_sha256 : ℕ
  pub policy_sha256 : ℕ
  pub credential_id : ℕ
  pub generation : ℕ
  pub preview_id : ℕ

pub record Approval : Type 0 where
  pub selection : Selection
  pub administrator_id : ℕ
  pub session_version : ℕ
  pub rehearsal_id : Option ℕ

pub record Operation : Type 0 where
  pub operation_id : ℕ
  pub request_id : ℕ
  pub kind : Kind
  pub approval : Approval
  pub recovers : Option ℕ

-- REHEARSAL_CHECKS by number: startup 0, previous_reads_current 1, semantic_records 2, restore 3.
pub record RehearsalCheck : Type 0 where
  pub name : ℕ
  pub outcome : Option Bool

pub record Rehearsal : Type 0 where
  pub selection : Selection
  pub image_id : ℕ
  pub previous_image_id : Option ℕ
  pub backup_sha256 : Option ℕ
  pub checks : List RehearsalCheck

pub record InstalledSnapshot : Type 0 where
  pub operation_id : ℕ
  pub generation : ℕ
  pub selection : Selection
  pub registration : Registration
  pub image : ℕ
  pub image_id : ℕ

-- `archive` is the archive record as a text.
pub record RetiredSnapshot : Type 0 where
  pub operation_id : ℕ
  pub generation : ℕ
  pub selection : Selection
  pub registration : Registration
  pub last_installed : InstalledSnapshot
  pub archive : Option ℕ

pub data AcceptedSnapshot : Type 0 where
  running : InstalledSnapshot → AcceptedSnapshot
  retired : RetiredSnapshot → AcceptedSnapshot

pub data ReceiptState : Type 0 where
  succeeded failed recovered blocked : ReceiptState

pub data ReceiptError : Type 0 where
  authority_changed policy_refused compatibility_failed records_changed installation_failed
        recovery_required backup_failed state_missing state_changed :
      ReceiptError

pub record Receipt : Type 0 where
  pub operation_id : ℕ
  pub selection : Selection
  pub state : ReceiptState
  pub rehearsal : Option Rehearsal
  pub installed : Option InstalledSnapshot
  pub retired : Option RetiredSnapshot
  pub authorization_committed : Bool
  pub error : Option ReceiptError

Selection-discrete : Discrete Selection
Selection-discrete = hlevel ℕ_discrete

Registration-discrete : Discrete Registration
Registration-discrete = hlevel ℕ_discrete

InstalledSnapshot-discrete : Discrete InstalledSnapshot
InstalledSnapshot-discrete = hlevel ℕ_discrete

Kind-discrete : Discrete Kind
Kind-discrete = hlevel ℕ_discrete

unfoldable pub same_selection : Selection → Selection → Bool
unfolding Selection-discrete
same_selection a b = decide (Selection-discrete a b)

unfoldable pub same_registration : Registration → Registration → Bool
unfolding Registration-discrete
same_registration a b = decide (Registration-discrete a b)

unfoldable pub same_installed : InstalledSnapshot → InstalledSnapshot → Bool
unfolding InstalledSnapshot-discrete
same_installed a b = decide (InstalledSnapshot-discrete a b)

unfoldable pub same_kind : Kind → Kind → Bool
unfolding Kind-discrete
same_kind a b = decide (Kind-discrete a b)

decide→≡ : {A : Type 0} {a b : A} (d : Dec (a ≡ b)) → decide d ≡ true → a ≡ b
unfolding decide
decide→≡ (yes e) h = e
decide→≡ (no n) h = absurd (ground arith)

-- The equality that the code tests is that of the values.
pub same_selection→≡ : (a b : Selection) → same_selection a b ≡ true → a ≡ b
unfolding same_selection
same_selection→≡ a b h = decide→≡ (Selection-discrete a b) h

pub same_registration→≡ : (a b : Registration) → same_registration a b ≡ true → a ≡ b
unfolding same_registration
same_registration→≡ a b h = decide→≡ (Registration-discrete a b) h
