-- ===== src/Accounts/Sessions.antt =====
-- app/accounts.py: signed browser sessions. A text is the list of its code points, or of its bytes.
use computecluster.Prelude.{
  ℕ, zero, suc, ◌-◌, ◌%◌, Option, none, some, List, [], ◌∷◌, ◌++◌, ltb, ◌==◌, if◌then◌else◌, length,
}
use computecluster.Paths.{same_points}
use computecluster.Accounts.Tables.{SessionIdentity}

-- The JSON object of a session. A session of before the column has no version.
pub record SessionPayload : Type 0 where
  pub user_id : ℕ
  pub expires_at : ℕ
  pub session_version : Option ℕ

-- What the code uses of json, base64 and hmac: json.dumps and json.loads of a payload,
-- urlsafe_b64encode and urlsafe_b64decode, and hmac.new(secret, text, sha256).digest().
pub record SessionCodec : Type 0 where
  pub dumps : SessionPayload → List ℕ
  pub loads : List ℕ → Option SessionPayload
  pub b64encode : List ℕ → List ℕ
  pub b64decode : List ℕ → Option (List ℕ)
  pub sign : List ℕ → List ℕ → List ℕ

abbrev pub equals : ℕ
equals = 61

abbrev pub full_stop : ℕ
full_stop = 46

-- text.rstrip(b"=")
unfoldable pub strip_padding : List ℕ → List ℕ
strip_padding [] = []
strip_padding (c ∷ cs) = elim (strip_padding cs) [
  | [] ↦ if c == equals then [] else c ∷ []
  | d ∷ ds ↦ c ∷ d ∷ ds
]

abbrev pub padding : ℕ → List ℕ
padding zero = []
padding (suc n) = equals ∷ padding n

-- "=" * (-len(encoded) % 4)
unfoldable pub padding_of : List ℕ → List ℕ
padding_of encoded = padding ((4 - length encoded % 4) % 4)

-- value.split(".", 1)
unfoldable pub split_session : List ℕ → Option (List ℕ × List ℕ)
split_session [] = none
split_session (c ∷ cs) =
    let rest = split_session cs in
    if c == full_stop
    then some ([], cs)
    else elim rest [ none ↦ none | some (a, b) ↦ some (c ∷ a, b) ]

module _ (codec : SessionCodec) where
  unfoldable pub encode_session : SessionIdentity → List ℕ → ℕ → ℕ → List ℕ
  unfolding strip_padding
  encode_session identity secret expires_at session_version =
      let payload = codec.dumps (record {
        user_id = identity.id;
        expires_at = expires_at;
        session_version = some session_version;
      }) in
      let encoded = strip_padding (codec.b64encode payload) in
      encoded ++ full_stop ∷ codec.b64encode (codec.sign secret encoded)

  -- int(payload.get("session_version", 1))
  abbrev version_of : SessionPayload → ℕ
  version_of p = elim p.session_version [ none ↦ 1 | some v ↦ v ]

  -- From the payload's text on.
  unfoldable pub read_payload : List ℕ → ℕ → Option (ℕ × ℕ)
  unfolding padding_of
  read_payload encoded now = elim (codec.b64decode (encoded ++ padding_of encoded)) [
    | none ↦ none
    | some text ↦ elim (codec.loads text) [
      | none ↦ none
      | some p ↦ if ltb p.expires_at now then none else some (p.user_id, version_of p)
    ]
  ]

  unfoldable pub decode_session : List ℕ → List ℕ → ℕ → Option (ℕ × ℕ)
  unfolding split_session read_payload
  decode_session value secret now = elim (split_session value) [
    | none ↦ none
    | some (encoded, signature_text) ↦ elim (codec.b64decode signature_text) [
      | none ↦ none
      | some supplied ↦
          if same_points supplied (codec.sign secret encoded)
          then read_payload encoded now
          else none
    ]
  ]
