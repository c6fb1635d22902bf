-- ===== src/Accounts/Cookies.antt =====
-- Session cookies: what is encoded is decoded, until it expires, and nothing else is.
use computecluster.Prelude.{
  ℕ, zero, suc, ◌+◌, ◌-◌, ◌%◌, ◌≤◌, false, none, some, List, [], ◌∷◌, ◌++◌, ltb, ◌==◌, ◌≡◌, refl,
  sym, ap, ◌∙◌, arith, any, length, Bool-cases, Option-cases, inl, inr,
}
use computecluster.Paths.{same_points}
use computecluster.Accounts.Tables.{SessionIdentity}
use computecluster.Accounts.Sessions.{
  SessionPayload, SessionCodec, equals, full_stop, strip_padding, padding, padding_of,
  split_session, encode_session, read_payload, decode_session,
}
use computecluster.Paths.Points.{same_points-eq, same_points_refl}

-- What json and base64 document: a payload is read back, a text is decoded from its encoding, which
-- has no full stop, at most two "=" at its end and none before, and a length divisible by four.
pub record CodecLaws (codec : SessionCodec) : Type 0 where
  pub loads-dumps : (p : SessionPayload) → codec.loads (codec.dumps p) ≡ some p
  pub decode-encode : (t : List ℕ) → codec.b64decode (codec.b64encode t) ≡ some t
  pub body : List ℕ → List ℕ
  pub pad : List ℕ → ℕ
  pub padded : (t : List ℕ) → codec.b64encode t ≡ body t ++ padding (pad t)
  pub no_equals : (t : List ℕ) → any (λ c. c == equals) (body t) ≡ false
  pub no_full_stop : (t : List ℕ) → any (λ c. c == full_stop) (body t) ≡ false
  pub short : (t : List ℕ) → pad t ≤ 2
  pub whole : (t : List ℕ) → (length (body t) + pad t) % 4 ≡ 0

strip_padding_all : (n : ℕ) → strip_padding (padding n) ≡ []
unfolding strip_padding
strip_padding_all zero = refl
strip_padding_all (suc n) = rw (strip_padding_all n, strip_padding) refl

strip_padding-append :
    (body : List ℕ) (n : ℕ)
    → any (λ c. c == equals) body ≡ false
    → strip_padding (body ++ padding n) ≡ body
unfolding strip_padding any
strip_padding-append [] n h = strip_padding_all n
strip_padding-append (c ∷ []) n h =
    let other : (c == equals) ≡ false = ground arith in
    rw (strip_padding_all n, strip_padding, other) refl
strip_padding-append (c ∷ d ∷ ds) n h =
    rw (strip_padding-append (d ∷ ds) n (ground arith), strip_padding) refl

split_session-append :
    (encoded signature : List ℕ)
    → any (λ c. c == full_stop) encoded ≡ false
    → split_session (encoded ++ full_stop ∷ signature) ≡ some (encoded, signature)
unfolding split_session any
split_session-append [] signature h = refl
split_session-append (c ∷ cs) signature h =
    let other : (c == full_stop) ≡ false = ground arith in
    rw (other, split_session-append cs signature (ground arith), split_session) refl

padding_of_body :
    (body : List ℕ) (n : ℕ) → n ≤ 2 → (length body + n) % 4 ≡ 0 → padding_of body ≡ padding n
unfolding padding_of
padding_of_body body n h w = let e : (4 - length body % 4) % 4 ≡ n = omega arith in rw (e) refl

module _ (codec : SessionCodec) (laws : CodecLaws codec) where
  read-body :
      (p : SessionPayload) (now : ℕ)
      → ltb p.expires_at now ≡ false
      → read_payload codec (laws.body (codec.dumps p)) now
        ≡ some (p.user_id, elim p.session_version [ none ↦ 1 | some v ↦ v ])
  unfolding read_payload
  read-body p now live =
      let t = codec.dumps p in
      let whole : laws.body t ++ padding_of (laws.body t) ≡ codec.b64encode t =
        rw (padding_of_body (laws.body t) (laws.pad t) (laws.short t) (laws.whole t))
          (sym (laws.padded t)) in
      let read : codec.b64decode (laws.body t ++ padding_of (laws.body t)) ≡ some t =
        rw (whole) (laws.decode-encode t) in
      rw (read_payload, read, laws.loads-dumps p, live) refl

  module _ (identity : SessionIdentity) (secret : List ℕ) (expires_at version : ℕ) where
    abbrev payload : SessionPayload
    payload = record {
      user_id = identity.id;
      expires_at = expires_at;
      session_version = some version;
    }

    abbrev text : List ℕ
    text = laws.body (codec.dumps payload)

    encoded_text :
        encode_session codec identity secret expires_at version
        ≡ text ++ full_stop ∷ codec.b64encode (codec.sign secret text)
    unfolding encode_session
    encoded_text =
        let stripped : strip_padding (codec.b64encode (codec.dumps payload)) ≡ text =
          rw (laws.padded (codec.dumps payload)) (
            strip_padding-append text (laws.pad (codec.dumps payload))
              (laws.no_equals (codec.dumps payload))) in
        ap (λ t. t ++ full_stop ∷ codec.b64encode (codec.sign secret t)) stripped

    -- With a codec that keeps the laws of json and base64, a session that was encoded is decoded to
    -- its user and version under the same secret, up to and including the second in which it expires.
    pub encode-decode :
        (now : ℕ)
        → now ≤ expires_at
        → decode_session codec (encode_session codec identity secret expires_at version) secret now
          ≡ some (identity.id, version)
    unfolding decode_session
    encode-decode now live =
        let signature = codec.b64encode (codec.sign secret text) in
        rw
          (
            encoded_text,
            decode_session,
            split_session-append text signature (laws.no_full_stop (codec.dumps payload)),
            laws.decode-encode (codec.sign secret text),
            same_points_refl (codec.sign secret text),
          )
          (read-body payload now (ground arith))

-- What a session is decoded from: a signed text, padded and decoded to json, which is read as a
-- payload that has not expired; the claims are its user and its version, which is 1 where it is
-- missing.
abbrev pub IsSession : SessionCodec → List ℕ → List ℕ → ℕ → ℕ × ℕ → Type 0
IsSession codec value secret now claims =
    (encoded : List ℕ) × (signature : List ℕ) × (text : List ℕ) × (p : SessionPayload)
    × (split_session value ≡ some (encoded, signature))
    × (codec.b64decode signature ≡ some (codec.sign secret encoded))
    × (codec.b64decode (encoded ++ padding_of encoded) ≡ some text)
    × (codec.loads text ≡ some p)
    × (now ≤ p.expires_at)
    × (claims ≡ (p.user_id, elim p.session_version [ none ↦ 1 | some v ↦ v ]))

payload_read :
    (codec : SessionCodec) (encoded : List ℕ) (now : ℕ) (claims : ℕ × ℕ)
    → read_payload codec encoded now ≡ some claims
    → (text : List ℕ) × (p : SessionPayload) × (codec.b64decode (encoded ++ padding_of encoded)
        ≡ some text)
      × (codec.loads text ≡ some p)
      × (now ≤ p.expires_at)
      × (claims ≡ (p.user_id, elim p.session_version [ none ↦ 1 | some v ↦ v ]))
unfolding read_payload
payload_read codec encoded now claims e =
    elim (Option-cases (codec.b64decode (encoded ++ padding_of encoded))) [
      | inl n ↦ let refused = rw (n, read_payload) at e in absurd (ground arith)
      | inr (text, f) ↦ elim (Option-cases (codec.loads text)) [
        | inl n ↦ let refused = rw (f, read_payload, n) at e in absurd (ground arith)
        | inr (p, g) ↦ elim (Bool-cases (ltb p.expires_at now)) [
          | inl late ↦ let refused = rw (f, read_payload, g, late) at e in absurd (ground arith)
          | inr live ↦
              let read = rw (f, read_payload, g, live) at e in
              (text, p, f, g, ground arith, cc read)
        ]
      ]
    ]

-- Whatever value is decoded is signed and live: its text before the first full stop carries behind it
-- the signature of that text under the secret; that text, padded, is the base64 of a json payload
-- that has not expired, and the claims are the user and the version of that payload.
pub decode_session-signed :
    (codec : SessionCodec) (value secret : List ℕ) (now : ℕ) (claims : ℕ × ℕ)
    → decode_session codec value secret now ≡ some claims
    → IsSession codec value secret now claims
unfolding decode_session read_payload
decode_session-signed codec value secret now claims e = elim (Option-cases (split_session value)) [
  | inl n ↦ let refused = rw (n, decode_session) at e in absurd (ground arith)
  | inr ((encoded, signature), f) ↦ elim (Option-cases (codec.b64decode signature)) [
    | inl n ↦ let refused = rw (f, decode_session, n) at e in absurd (ground arith)
    | inr (supplied, g) ↦ elim (Bool-cases (same_points supplied (codec.sign secret encoded))) [
      | inr other ↦ let refused = rw (f, decode_session, g, other) at e in absurd (ground arith)
      | inl same ↦
          let read = rw (f, decode_session, g, same) at e in
          let (text, p, decoded, loaded, live, who) = payload_read codec encoded now claims read in
          (
            encoded,
            signature,
            text,
            p,
            f,
            g ∙ ap some (same_points-eq supplied (codec.sign secret encoded) same),
            decoded,
            loaded,
            live,
            who,
          )
    ]
  ]
]
