-- ===== src/Accounts/Authority.antt =====
-- app/dashboard_auth.py: who is calling a dashboard route, and the answers where it may not.
use computecluster.Prelude.{
  ℕ, Bool, true, false, Option, none, some, List, [], ◌∷◌, not, ◌&&◌, ◌||◌, ◌==◌, if◌then◌else◌,
  is_some, any,
}
use computecluster.Paths.{same_points}
use computecluster.Accounts.Tables.{AccountTables, SessionIdentity, is_admin}
use computecluster.Accounts.{get_identity}
use computecluster.Accounts.Identities.{normalized, strip}
use computecluster.Accounts.Sessions.{SessionCodec, decode_session}

pub data HttpError : Type 0 where
  login_required admin_required member_required invalid_token not_configured not_provisioned :
      HttpError

pub data Response (A : Type 0) : Type 0 where
  allowed : A → Response A
  denied : HttpError → Response A

module _ (codec : SessionCodec) where
  unfoldable pub session_claims : Option (List ℕ) → List ℕ → ℕ → Option (ℕ × ℕ)
  unfolding decode_session
  session_claims none secret now = none
  session_claims (some supplied) secret now = decode_session codec supplied secret now

  unfoldable pub session_identity :
      Option (List ℕ) → List ℕ → ℕ → AccountTables → Option SessionIdentity
  unfolding session_claims get_identity
  session_identity supplied secret now db = elim (session_claims supplied secret now) [
    | none ↦ none
    | some (user_id, version) ↦ get_identity user_id (some version) db
  ]

  unfoldable pub require_dashboard_session :
      Option (List ℕ) → List ℕ → ℕ → AccountTables → Response SessionIdentity
  unfolding session_identity
  require_dashboard_session supplied secret now db =
      elim (session_identity supplied secret now db) [
        | none ↦ denied login_required
        | some identity ↦ allowed identity
      ]

unfoldable pub require_admin_session : Response SessionIdentity → Response SessionIdentity
require_admin_session (denied e) = denied e
require_admin_session (allowed identity) =
    if is_admin identity then allowed identity else denied admin_required

unfoldable pub require_member_session : Response SessionIdentity → Response SessionIdentity
require_member_session (denied e) = denied e
require_member_session (allowed identity) =
    if is_admin identity then denied member_required else allowed identity

-- `supplied is None or not compare_digest(supplied, expected)`
abbrev is_wrong : Option (List ℕ) → List ℕ → Bool
is_wrong none expected = true
is_wrong (some supplied) expected = not (same_points supplied expected)

-- A platform without an API token lets every call pass.
unfoldable pub require_api_token : Option (List ℕ) → Option (List ℕ) → Response Unit
require_api_token none supplied = allowed tt
require_api_token (some expected) supplied =
    if is_wrong supplied expected then denied invalid_token else allowed tt

unfoldable pub require_service_identity_token : Option (List ℕ) → Option (List ℕ) → Response Unit
require_service_identity_token none supplied = denied not_configured
require_service_identity_token (some expected) supplied =
    if is_wrong supplied expected then denied invalid_token else allowed tt

-- The user that a query is restricted to; an administrator's is not.
unfoldable pub owner_scope : SessionIdentity → Option ℕ
owner_scope identity = if is_admin identity then none else some identity.id

abbrev is_only : List (List ℕ) → List ℕ → Bool
is_only [] expected = false
is_only (o ∷ []) expected = same_points o expected
is_only (o ∷ p ∷ ps) expected = false

-- The Origin headers of the request against the configured origin.
unfoldable pub same_origin : Option (List ℕ) → List (List ℕ) → Bool
same_origin none origins = false
same_origin (some expected) origins = is_only origins expected

-- `display_name or login`
abbrev shown_name : List ℕ → Option (List ℕ) → List ℕ
shown_name login none = login
shown_name login (some []) = login
shown_name login (some (c ∷ cs)) = c ∷ cs

unfoldable pub tailscale_request_identity :
    Bool → Option (List ℕ) → Option (List ℕ) → Option (List ℕ × List ℕ)
unfolding normalized strip
tailscale_request_identity https none display_name = none
tailscale_request_identity https (some login) display_name =
    if not https then none else elim (normalized login) [
      | [] ↦ none
      | c ∷ cs ↦ some (c ∷ cs, strip (shown_name login display_name))
    ]

-- What the settings provision for members.
pub record MemberSettings : Type 0 where
  pub member_storage_enabled : Bool
  pub member_storage_user_ids : List ℕ
  pub workspace_directory : Option (List ℕ)
  pub member_workspace_enabled : Bool
  pub member_workspace_user_ids : List ℕ

unfoldable pub member_storage_available : MemberSettings → SessionIdentity → Bool
member_storage_available settings identity =
    settings.member_storage_enabled || any (λ i. identity.id == i) settings.member_storage_user_ids

unfoldable pub require_member_storage : MemberSettings → SessionIdentity → Response Unit
unfolding member_storage_available
require_member_storage settings identity =
    if member_storage_available settings identity then allowed tt else denied not_provisioned

unfoldable pub member_workspace_available : MemberSettings → SessionIdentity → Bool
member_workspace_available settings identity =
    is_some settings.workspace_directory
    && (settings.member_workspace_enabled
        || any (λ i. identity.id == i) settings.member_workspace_user_ids)

-- cast(Path, settings.workspace_directory), behind the test
unfoldable pub require_member_workspace :
    MemberSettings → SessionIdentity → Response (Option (List ℕ))
unfolding member_workspace_available
require_member_workspace settings identity =
    if member_workspace_available settings identity
    then allowed settings.workspace_directory
    else denied not_provisioned

unfoldable pub require_administrator_workspace : MemberSettings → Response (List ℕ)
require_administrator_workspace settings = elim settings.workspace_directory [
  | none ↦ denied not_provisioned
  | some root ↦ allowed root
]
