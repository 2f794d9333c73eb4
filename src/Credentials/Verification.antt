-- ===== src/Credentials/Verification.antt =====
-- The checks of a credential: server/app/services/credential_verification.py, with
-- `encode_credential_message` of server/app/schemas/credential.py.
use crypto_campus.Prelude.{
  ℕ, ◌≡◌, ap, Bool, true, false, ◌&&◌, not, Option, none, some, List, ◌++◌, Bytes, Text, arith,
  length, bytes_eq, ◌==◌, if◌then◌else◌, select_first, is_some, Bool-cases, Option-cases, inl, inr,
}
use crypto_campus.Crypto.{Runtime}
use crypto_campus.Action.{Result, ok, err}
use crypto_campus.Action.Laws.{value_cases}
use crypto_campus.Codes.{ascii}
use crypto_campus.Quota.{day_of}
use crypto_campus.Revocation.{RevocationLog}
use crypto_campus.Votes.Rows.{ConsumedSn}

pub record CredentialProof : Type 0 where
  pub sn : Text
  pub service : Text
  pub period : Text
  pub signature : Text

pub record VerifiedCredential : Type 0 where
  pub sn_bytes : Bytes
  pub signature_bytes : Bytes
  pub normalized_sn : Text
  pub service : Text
  pub period : Text

pub record CredentialVerification : Type 0 where
  pub valid : Bool
  pub service : Text
  pub period : Text
  pub consumed : Bool
  pub revoked : Bool

-- The codes of the two services, and an exception that passes through.
pub data VerificationError : Type 0 where
  invalid_service invalid_period invalid_signature : VerificationError
  engine_unavailable credential_revoked uncaught : VerificationError

-- What the checks take from outside; `err true` is a bridge error that says that the provider is
-- unavailable, `err false` any other exception.
pub record VerificationTools : Type 0 where
  pub fromhex : Text → Option Bytes
  pub b64decode : Text → Option Bytes
  pub signer_public_key : Text → Option Bytes
  pub blind_verify : Bytes → Bytes → Bytes → Result Bool Bool

pub record VerificationTables : Type 0 where
  pub consumed : List ConsumedSn
  pub revoked : List RevocationLog

abbrev pub is_revoked : Bytes → VerificationTables → Bool
is_revoked sn s = is_some (select_first (λ (l : RevocationLog). bytes_eq l.sn sn) s.revoked)

abbrev pub is_consumed : Bytes → Text → VerificationTables → Bool
is_consumed sn service s =
    is_some
      (select_first (λ (c : ConsumedSn). bytes_eq c.sn sn && bytes_eq c.service service) s.consumed)

module _ (rt : Runtime) (tools : VerificationTools) where
  -- `encode_credential_message`; `none` is the exception of a text that is not ASCII or not hexadecimal.
  unfoldable pub encode_credential_message : CredentialProof → Option Bytes
  encode_credential_message c = elim (tools.fromhex c.sn) [
    | none ↦ none
    | some sn ↦ elim (ascii c.service) [
      | none ↦ none
      | some service ↦ elim (ascii c.period) [
        | none ↦ none
        | some period ↦ some (sn ++ (service ++ period))
      ]
    ]
  ]

  -- Whether the signature is that of the signer, in either service.
  unfoldable pub check_signature : CredentialProof → Bytes → Result VerificationError Bool
  unfolding encode_credential_message
  check_signature c signature = elim (tools.signer_public_key c.service) [
    | none ↦ err engine_unavailable
    | some key ↦
        if not (length key == 65)
        then err engine_unavailable
        else elim (encode_credential_message c) [
          | none ↦ err uncaught
          | some message ↦ elim (tools.blind_verify message signature key) [
            | ok valid ↦ ok valid
            | err lost ↦ if lost then err engine_unavailable else ok false
          ]
        ]
  ]

  -- `verify_consumption_credential`
  unfoldable pub verify_consumption_credential :
      CredentialProof
      → Text
      → ℕ
      → Bool
      → VerificationTables
      → Result VerificationError VerifiedCredential
  unfolding check_signature
  verify_consumption_credential c expected_service now check_revocation s =
      if not (bytes_eq c.service expected_service)
      then err invalid_service
      else if not (bytes_eq c.period (rt.isodate (day_of now)))
      then err invalid_period
      else elim (tools.fromhex c.sn) [
        | none ↦ err uncaught
        | some sn ↦ elim (tools.b64decode c.signature) [
          | none ↦ err invalid_signature
          | some signature ↦
              if not (length signature == 64)
              then err invalid_signature
              else elim (check_signature c signature) [
                | err x ↦ err x
                | ok valid ↦
                    if not valid
                    then err invalid_signature
                    else if check_revocation && is_revoked sn s
                    then err credential_revoked
                    else ok (record {
                      sn_bytes = sn;
                      signature_bytes = signature;
                      normalized_sn = rt.lower c.sn;
                      service = c.service;
                      period = c.period;
                    })
              ]
        ]
      ]

  -- `CredentialVerificationService.verify`
  unfoldable pub verify :
      CredentialProof → VerificationTables → Result VerificationError CredentialVerification
  unfolding check_signature
  verify c s = elim (tools.fromhex c.sn) [
    | none ↦ err uncaught
    | some sn ↦ elim (tools.b64decode c.signature) [
      | none ↦ ok (record {
        valid = false;
        service = c.service;
        period = c.period;
        consumed = false;
        revoked = false;
      })
      | some signature ↦ elim (check_signature c signature) [
        | err x ↦ err x
        | ok valid ↦ ok (record {
          valid = valid;
          service = c.service;
          period = c.period;
          consumed = is_consumed sn c.service s;
          revoked = is_revoked sn s;
        })
      ]
    ]
  ]

  -- A credential that may be consumed, with the check of the revocations, is for the expected service and
  -- for the day, and `verify` answers that it is valid and not revoked, and whether its serial number is
  -- consumed.
  pub verify_consumption-verify :
      (c : CredentialProof) (expected : Text) (now : ℕ) (s : VerificationTables)
      (v : VerifiedCredential)
      → verify_consumption_credential c expected now true s ≡ ok v
      → (bytes_eq c.service expected ≡ true)
        × (bytes_eq c.period (rt.isodate (day_of now)) ≡ true)
        × (verify c s
            ≡ ok (record {
              valid = true;
              service = c.service;
              period = c.period;
              consumed = is_consumed v.sn_bytes c.service s;
              revoked = false;
            }))
  unfolding verify_consumption_credential verify
  verify_consumption-verify c expected now s v h = elim (Bool-cases (bytes_eq c.service expected)) [
    | inr other ↦ absurd (ground (arith, h, other))
    | inl mine ↦ elim (Bool-cases (bytes_eq c.period (rt.isodate (day_of now)))) [
      | inr late ↦ absurd (ground (arith, h, mine, late))
      | inl current ↦ elim (Option-cases (tools.fromhex c.sn)) [
        | inl missing ↦ absurd (ground (arith, h, mine, current, missing))
        | inr (sn, read) ↦ elim (Option-cases (tools.b64decode c.signature)) [
          | inl missing ↦ absurd (ground (arith, h, mine, current, read, missing))
          | inr (signature, decoded) ↦ elim (value_cases (check_signature c signature)) [
            | inl (x, failed) ↦ absurd (ground (arith, h, mine, current, read, decoded, failed))
            | inr (valid, checked) ↦ elim (Bool-cases valid) [
              | inr bad ↦ absurd (ground (arith, h, mine, current, read, decoded, checked, bad))
              | inl good ↦ elim (Bool-cases (is_revoked sn s)) [
                | inl gone ↦
                    absurd (ground (arith, h, mine, current, read, decoded, checked, good, gone))
                | inr kept ↦
                    let same : sn ≡ v.sn_bytes =
                      ground (arith, h, mine, current, read, decoded, checked, good, kept) in
                    (
                      mine,
                      current,
                      ground (
                        arith,
                        read,
                        decoded,
                        checked,
                        good,
                        kept,
                        ap (λ z. is_consumed z c.service s) same,
                      ),
                    )
              ]
            ]
          ]
        ]
      ]
    ]
  ]
