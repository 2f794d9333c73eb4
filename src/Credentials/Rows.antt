-- ===== src/Credentials/Rows.antt =====
-- The rows and error codes of server/app/services/credential_issuance.py, with
-- `CredentialIssueIdempotency` of server/app/models/credential.py.
use crypto_campus.Prelude.{ℕ, Bool, Option, List, Bytes, Text}
use crypto_campus.Models.{User}
use crypto_campus.Action.{Result, Action}
use crypto_campus.Quota.Rows.{CredentialLedger}
use crypto_campus.Commitments.{Store}

pub record CredentialIssueIdempotency : Type 0 where
  pub user_id : ℕ
  pub service : Text
  pub period : Text
  pub key_hash : Bytes
  pub request_hash : Bytes
  pub blind_signature : Bytes
  pub created_at : ℕ

-- A row of `audit_log`, without its generated key.
pub record IssueLog : Type 0 where
  pub actor : ℕ
  pub action : Text
  pub target : Text
  pub detail_hash : Bytes
  pub ts : ℕ

pub record IssuerTables : Type 0 where
  pub users : List User
  pub ledger : List CredentialLedger
  pub issues : List CredentialIssueIdempotency
  pub log : List IssueLog

-- The tables, and the commitments, which are in memory: no rollback reaches them.
pub record IssuerState : Type 0 where
  pub tables : IssuerTables
  pub store : Store

-- The codes, with the `IntegrityError` of a unique key, and any other exception that passes through.
pub data IssueError : Type 0 where
  user_inactive invalid_service invalid_period invalid_idempotency_key : IssueError
  invalid_blinded_message idempotency_conflict invalid_commitment : IssueError
  quota_exhausted internal_error engine_unavailable : IssueError
  not_unique uncaught : IssueError

abbrev pub IssueAction : Type 0 → Type 0
IssueAction A = Action IssuerState IssueError A

-- The arguments of `issue`.
pub record IssueRequest : Type 0 where
  pub user_id : ℕ
  pub service : Text
  pub period : Text
  pub blinded_message_b64 : Text
  pub idempotency_key : Text
  pub now : ℕ

-- What `issue` takes from outside: `base64.b64decode(.., validate=True)`, the identifier that sixteen
-- bytes write, the key files of the signer, and `blind_sign`, where `err true` is a bridge error.
pub record IssueTools : Type 0 where
  pub b64decode : Text → Option Bytes
  pub commitment_id : Bytes → ℕ
  pub signer_private_key : Text → Option Bytes
  pub blind_sign : Bytes → Bytes → Option Bytes → Result Bool Bytes
