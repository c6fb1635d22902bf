-- ===== src/Accounts/Identities.antt =====
-- app/accounts.py: external identities. A provider, a subject and a display name are lists of code
-- points; strip() and lower() are those of ASCII.
use computecluster.Prelude.{
  ℕ, ◌+◌, Bool, false, Option, none, some, List, [], ◌∷◌, ◌++◌, not, ◌&&◌, ◌||◌, leb, ltb, ◌==◌,
  if◌then◌else◌, find, any, map, length, update_where, filter_by,
}
use computecluster.Paths.{same_points}
use computecluster.Accounts.Tables.{
  ExternalIdentityRow, AccountTables, SessionIdentity, row_to_identity,
}
use computecluster.Accounts.{
  Outcome, done, raises, value_error, external_identity_conflict, integrity_error, has_user_id,
}

abbrev is_space : ℕ → Bool
is_space c = c == 32 || (leb 9 c && leb c 13) || (leb 28 c && leb c 31)

abbrev lower_letter : ℕ → ℕ
lower_letter c = if leb 65 c && leb c 90 then c + 32 else c

unfoldable pub strip_left : List ℕ → List ℕ
strip_left [] = []
strip_left (c ∷ cs) = let rest = strip_left cs in if is_space c then rest else c ∷ cs

-- Drops the whitespace behind the last other character.
unfoldable pub strip_right : List ℕ → List ℕ
strip_right [] = []
strip_right (c ∷ cs) = elim (strip_right cs) [
  | [] ↦ if is_space c then [] else c ∷ []
  | d ∷ ds ↦ c ∷ d ∷ ds
]

unfoldable pub strip : List ℕ → List ℕ
unfolding strip_left strip_right
strip text = strip_right (strip_left text)

unfoldable pub normalized : List ℕ → List ℕ
unfolding strip
normalized text = map lower_letter (strip text)

-- "tailscale"
abbrev pub tailscale : List ℕ
tailscale = 116 ∷ 97 ∷ 105 ∷ 108 ∷ 115 ∷ 99 ∷ 97 ∷ 108 ∷ 101 ∷ []

-- normalize_external_provider, whose one value is "tailscale": whether it returns
unfoldable pub is_supported : List ℕ → Bool
unfolding normalized
is_supported provider = same_points (normalized provider) tailscale

unfoldable pub normalize_external_subject : List ℕ → Option (List ℕ)
unfolding normalized
normalize_external_subject subject =
    let text = normalized subject in
    if length text == 0 || ltb 320 (length text) then none else some text

abbrev pub is_subject : List ℕ → ExternalIdentityRow → Bool
is_subject subject r = same_points r.subject subject

abbrev pub is_user : ℕ → ExternalIdentityRow → Bool
is_user user_id r = r.user_id == user_id

-- The subject belongs to another user, or the user has another subject.
unfoldable pub conflicts : ℕ → List ℕ → List ExternalIdentityRow → Bool
conflicts user_id subject rows =
    (elim (find (is_subject subject) rows) [ none ↦ false | some r ↦ not (r.user_id == user_id) ])
    || (elim (find (is_user user_id) rows) [
      | none ↦ false
      | some r ↦ not (same_points r.subject subject)
    ])

unfoldable pub rename : List ℕ → ExternalIdentityRow → ExternalIdentityRow
rename display_name r = record r { display_name = display_name }

abbrev new_identity : ℕ → List ℕ → List ℕ → ℕ → ExternalIdentityRow
new_identity user_id subject display_name now = record {
  subject = subject;
  user_id = user_id;
  display_name = display_name;
  linked_at = now;
}

-- INSERT ... ON CONFLICT(provider, subject) DO UPDATE: the stored row is renamed, or a new row must
-- keep UNIQUE (user_id, provider) and its user must exist.
unfoldable pub upsert :
    ℕ → List ℕ → List ℕ → ℕ → AccountTables → AccountTables × Outcome ExternalIdentityRow
unfolding rename
upsert user_id subject display_name now db =
    let row = new_identity user_id subject display_name now in
    elim (find (is_subject subject) db.identities) [
      | some old ↦ (
        record db {
          identities = update_where (is_subject subject) (rename display_name) db.identities;
        },
        done (rename display_name old),
      )
      | none ↦
          if any (is_user user_id) db.identities || not (any (has_user_id user_id) db.users)
          then (db, raises integrity_error)
          else (record db { identities = db.identities ++ row ∷ [] }, done row)
    ]

unfoldable pub link_external_identity :
    ℕ → List ℕ → List ℕ → List ℕ → ℕ → AccountTables → AccountTables × Outcome ExternalIdentityRow
unfolding normalize_external_subject is_supported conflicts upsert strip
link_external_identity user_id provider subject display_name now db =
    elim (normalize_external_subject subject) [
      | none ↦ (db, raises value_error)
      | some s ↦
          if not (is_supported provider)
          then (db, raises value_error)
          else if conflicts user_id s db.identities
          then (db, raises external_identity_conflict)
          else upsert user_id s (strip display_name) now db
    ]

unfoldable pub external_identity : ℕ → List ℕ → AccountTables → Outcome (Option ExternalIdentityRow)
unfolding is_supported
external_identity user_id provider db =
    if is_supported provider
    then done (find (is_user user_id) db.identities)
    else raises value_error

-- The rows of one user and the one provider: `rowcount == 1` of the DELETE.
unfoldable pub unlink_external_identity : ℕ → List ℕ → AccountTables → AccountTables × Outcome Bool
unfolding is_supported
unlink_external_identity user_id provider db =
    if is_supported provider
    then (
      record db { identities = filter_by (λ r. not (is_user user_id r)) db.identities },
      done (length (filter_by (is_user user_id) db.identities) == 1),
    )
    else (db, raises value_error)

-- The JOIN: the user of the identity, where there is one that is not disabled.
unfoldable pub resolve_external_identity :
    List ℕ → List ℕ → AccountTables → Outcome (Option SessionIdentity)
unfolding is_supported normalize_external_subject row_to_identity
resolve_external_identity provider subject db = elim (normalize_external_subject subject) [
  | none ↦ raises value_error
  | some s ↦
      if not (is_supported provider)
      then raises value_error
      else elim (find (is_subject s) db.identities) [
        | none ↦ done none
        | some r ↦ elim (find (λ u. has_user_id r.user_id u && not u.disabled) db.users) [
          | none ↦ done none
          | some u ↦ done (some (row_to_identity u))
        ]
      ]
]
