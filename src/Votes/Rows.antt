-- ===== src/Votes/Rows.antt =====
-- The rows of server/app/models/vote.py and of `ConsumedSN` of models/credential.py, and the error
-- codes of the vote services.
use crypto_campus.Prelude.{ℕ, Bool, true, false, Option, List, Bytes, Text}
use crypto_campus.Action.{Result, Action}

pub data VoteScope : Type 0 where
  public class_scope group_scope : VoteScope

-- `open`, `closed` and `published`.
pub data VoteStatus : Type 0 where
  still_open closed published : VoteStatus

pub record VoteRecord : Type 0 where
  pub id : ℕ
  pub scope : VoteScope
  pub scope_id : Option ℕ
  pub closes_at : ℕ
  pub status : VoteStatus
  pub settled_at : Option ℕ
  pub final_snapshot_id : Option ℕ

pub record VoteOption : Type 0 where
  pub id : ℕ
  pub vote_id : ℕ
  pub position : ℕ

pub record AnonymousBallot : Type 0 where
  pub id : ℕ
  pub vote_id : ℕ
  pub option_id : ℕ
  pub credential_sn : Bytes
  pub credential_service : Text
  pub credential_period : Text
  pub credential_signature : Bytes
  pub created_at : ℕ

pub record ConsumedSn : Type 0 where
  pub sn : Bytes
  pub service : Text
  pub consumed_at : ℕ

pub record BallotIdempotency : Type 0 where
  pub id : ℕ
  pub key_hash : Bytes
  pub request_hash : Bytes
  pub ballot_id : ℕ
  pub created_at : ℕ

-- `counts` is the object of `counts_json`, in its order.
pub record VoteResultSnapshot : Type 0 where
  pub id : ℕ
  pub vote_id : ℕ
  pub version : ℕ
  pub counts : List (ℕ × ℕ)
  pub total : ℕ
  pub result_digest : Bytes
  pub signature : Bytes
  pub signer_certificate : Bytes
  pub signer_public_key : Bytes
  pub published_at : ℕ
  pub is_final : Bool

-- A row of `audit_log`, without its generated key.
pub record VoteLog : Type 0 where
  pub actor : ℕ
  pub action : Text
  pub target : Text
  pub detail_hash : Bytes
  pub ts : ℕ

pub record VoteTables : Type 0 where
  pub votes : List VoteRecord
  pub options : List VoteOption
  pub ballots : List AnonymousBallot
  pub consumed : List ConsumedSn
  pub idempotencies : List BallotIdempotency
  pub snapshots : List VoteResultSnapshot
  pub log : List VoteLog

-- The codes that the services raise, with the `IntegrityError` of a unique column, and any other
-- exception that they let through.
pub data VoteError : Type 0 where
  invalid_idempotency_key invalid_payload idempotency_conflict : VoteError
  vote_not_found option_not_found vote_closed vote_not_closed result_not_found : VoteError
  invalid_service invalid_period invalid_signature credential_consumed : VoteError
  engine_unavailable signature_self_verify_failed conflict : VoteError
  not_unique uncaught : VoteError

abbrev pub VoteAction : Type 0 → Type 0
VoteAction A = Action VoteTables VoteError A

-- `VoteTallyMaterial` of vote_tally_provider.py.
pub record VoteTallyMaterial : Type 0 where
  pub system_user_id : ℕ
  pub certificate_der : Bytes
  pub public_key : Bytes
  pub private_key : Bytes

-- What the vote services take from outside beside the engine: `uuid.UUID(..).bytes` of an identifier,
-- `bytes.fromhex`, `base64.b64decode(.., validate=True)`, the key files, and the two operations of the
-- engine that only they use. `err true` is a bridge error that says that the provider is unavailable.
pub record VoteTools : Type 0 where
  pub id_bytes : ℕ → Bytes
  pub fromhex : Text → Option Bytes
  pub b64decode : Text → Option Bytes
  pub signer_public_key : ℕ → Option Bytes
  pub blind_verify : Bytes → Bytes → Bytes → Result Bool Bool
  pub sm2_sign : Bytes → Bytes → Option Bytes
  pub tally_material : Option VoteTallyMaterial

abbrev pub is_public : VoteScope → Bool
is_public VoteScope.public = true
is_public _ = false

abbrev pub is_open : VoteStatus → Bool
is_open VoteStatus.still_open = true
is_open _ = false

abbrev pub is_published : VoteStatus → Bool
is_published VoteStatus.published = true
is_published _ = false
