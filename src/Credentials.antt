-- ===== src/Credentials.antt =====
-- The issuance of anonymous credentials: `CredentialIssuanceService` of
-- server/app/services/credential_issuance.py, over the commitments and the quota.
pub mod Rows
pub mod Paid
pub mod Again
pub mod Verification
mod Tests
use crypto_campus.Prelude.{
  ℕ, Bool, true, false, ◌&&◌, ◌||◌, not, Option, none, some, List, [], ◌∷◌, ◌++◌, Bytes, Text,
  length, take, bytes_eq, ◌==◌, between, if◌then◌else◌, get, select_first, is_some,
}
use crypto_campus.Text.{codes}
use crypto_campus.Models.{User, is_active}
use crypto_campus.Crypto.{CryptoEngine, Runtime}
use crypto_campus.Action.{
  Result, ok, err, Action, pure, raise, raise_if, gets, or_raise, modify, ◌>>=◌, ◌>>◌,
  transaction_by,
}
use crypto_campus.Quota.Rows.{
  CredentialLedger, QuotaError, Resource, exhausted, hole_credential, interaction_credential,
}
use crypto_campus.Quota.{Outcome, reserved, refused, reserve, day_of}
use crypto_campus.Commitments
use crypto_campus.Commitments.{BlindCommitmentRecord, Store}
use crypto_campus.Credentials.Rows.{
  CredentialIssueIdempotency, IssueLog, IssuerTables, IssuerState, IssueError, IssueAction,
  IssueRequest, IssueTools, user_inactive, invalid_service, invalid_period, invalid_idempotency_key,
  invalid_blinded_message, idempotency_conflict, invalid_commitment, quota_exhausted,
  internal_error, engine_unavailable, not_unique, uncaught,
}

-- `CREDENTIAL_QUOTA_RESOURCE`
abbrev pub quota_resource : Text → Option Resource
quota_resource service =
    if bytes_eq service (codes "hole_post")
    then some Resource.hole_credential
    else if bytes_eq service (codes "hole_comment") || bytes_eq service (codes "hole_like")
    then some Resource.interaction_credential
    else none

abbrev pub quota_error : QuotaError → IssueError
quota_error exhausted = quota_exhausted
quota_error _ = internal_error

-- The unique key of the issues.
abbrev pub is_issue : IssueRequest → Bytes → CredentialIssueIdempotency → Bool
is_issue r key_hash i =
    i.user_id == r.user_id
    && (bytes_eq i.service r.service
        && (bytes_eq i.period r.period && bytes_eq i.key_hash key_hash))

abbrev pub is_not_unique : IssueError → Bool
is_not_unique not_unique = true
is_not_unique _ = false

-- A rollback restores the tables, and not the commitments.
abbrev pub rollback : IssuerState → IssuerState → IssuerState
rollback before after = record after { tables = before.tables }

abbrev pub with_ledger : List CredentialLedger → IssuerState → IssuerState
with_ledger rows s = record s { tables = record s.tables { ledger = rows } }

-- `session.add` of the row, refused where its key is there.
unfoldable pub add_issue : IssueRequest → CredentialIssueIdempotency → IssueAction (Unit {0})
add_issue r i s =
    if is_some (select_first (is_issue r i.key_hash) s.tables.issues)
    then (err not_unique, s)
    else (ok tt, record s { tables = record s.tables { issues = s.tables.issues ++ i ∷ [] } })

unfoldable pub add_log : IssueLog → IssuerState → IssuerState
add_log l s = record s { tables = record s.tables { log = s.tables.log ++ l ∷ [] } }

module _ (e : CryptoEngine) (rt : Runtime) (tools : IssueTools) where
  -- Steps 1 to 5: the resource of the service, and the blinded message.
  unfoldable pub check_request : IssueRequest → IssuerTables → Result IssueError (Resource × Bytes)
  check_request r t = elim (get (λ (u : User). u.id) r.user_id t.users) [
    | none ↦ err user_inactive
    | some u ↦
        if not (is_active u.status) then err user_inactive else elim (quota_resource r.service) [
          | none ↦ err invalid_service
          | some resource ↦
              if not (bytes_eq r.period (rt.isodate (day_of r.now)))
              then err invalid_period
              else if not (between 16 128 (length r.idempotency_key))
              then err invalid_idempotency_key
              else if length r.blinded_message_b64 == 0
              then err invalid_blinded_message
              else elim (tools.b64decode r.blinded_message_b64) [
                | none ↦ err invalid_blinded_message
                | some blinded ↦
                    if length blinded == 0
                    then err invalid_blinded_message
                    else ok (resource, blinded)
              ]
        ]
  ]

  -- The first sixteen bytes of a message of the two-round protocol.
  unfoldable pub commitment_of : Bytes → Option ℕ
  commitment_of blinded =
      if length blinded == 48 then some (tools.commitment_id (take 16 blinded)) else none

  unfoldable pub key_hash_of : IssueRequest → Bytes
  key_hash_of r = e.sm3_digest (rt.utf8 r.idempotency_key)

  unfoldable pub request_hash_of : IssueRequest → Bytes
  request_hash_of r =
      e.sm3_digest
        (rt.utf8 (r.service ++ (codes "|" ++ (r.period ++ (codes "|" ++ r.blinded_message_b64)))))

  -- Step 7, and the check after a race: the stored signature, or a conflict.
  unfoldable pub replay : IssueRequest → IssuerState → Option (Result IssueError Bytes)
  unfolding key_hash_of request_hash_of
  replay r s = elim (select_first (is_issue r (key_hash_of r)) s.tables.issues) [
    | none ↦ none
    | some i ↦ some (
        if e.constant_time_equal i.request_hash (request_hash_of r)
        then ok i.blind_signature
        else err idempotency_conflict)
  ]

  -- Step 8.0: the secret of the commitment.
  unfoldable pub take_commitment : IssueRequest → Option ℕ → IssueAction (Option Bytes)
  unfolding Commitments.consume
  take_commitment r none s = (ok none, s)
  take_commitment r (some k) s =
      let (answer, store) = Commitments.consume k r.user_id r.service r.period r.now s.store in
      elim answer [
        | Commitments.ok c ↦ (ok (some c.secret_k), record s { store = store })
        | Commitments.err x ↦ (err invalid_commitment, record s { store = store })
      ]

  -- Step 8.1.
  unfoldable pub charge : IssueRequest → Resource → IssueAction (Unit {0})
  unfolding reserve
  charge r resource s =
      elim (reserve rt (λ rows. rows) r.user_id resource r.now none s.tables.ledger) [
        | reserved rows ↦ (ok tt, with_ledger rows s)
        | refused x ↦ (err (quota_error x), s)
      ]

  -- Steps 8.2 and 8.3.
  unfoldable pub blind_signature : IssueRequest → Bytes → Option Bytes → Result IssueError Bytes
  blind_signature r blinded secret_k = elim (tools.signer_private_key r.service) [
    | none ↦ err engine_unavailable
    | some key ↦
        if not (length key == 32)
        then err engine_unavailable
        else elim (tools.blind_sign blinded key secret_k) [
          | ok signature ↦ ok signature
          | err bridge ↦ err (if bridge then engine_unavailable else uncaught)
        ]
  ]

  unfoldable pub new_issue : IssueRequest → Bytes → CredentialIssueIdempotency
  unfolding key_hash_of request_hash_of
  new_issue r signature = record {
    user_id = r.user_id;
    service = r.service;
    period = r.period;
    key_hash = key_hash_of r;
    request_hash = request_hash_of r;
    blind_signature = signature;
    created_at = r.now;
  }

  -- Step 8.5.
  unfoldable pub issue_log : IssueRequest → IssueLog
  unfolding key_hash_of
  issue_log r = record {
    actor = r.user_id;
    action = codes "credential.issue";
    target = codes "user:" ++ rt.id_text r.user_id;
    detail_hash = e.sm3_digest (
        rt.utf8 (
          codes "credential.issue|"
          ++ (r.service ++ (codes "|" ++ (r.period ++ (codes "|" ++ rt.hex (key_hash_of r)))))));
    ts = r.now;
  }

  -- Step 8.
  unfoldable pub issue_block : IssueRequest → Resource → Bytes → IssueAction Bytes
  unfolding commitment_of take_commitment charge blind_signature add_issue add_log new_issue
      issue_log
  issue_block r resource blinded = do
    secret_k ← take_commitment r (commitment_of blinded)
    charge r resource
    signature ← λ s. (blind_signature r blinded secret_k, s)
    add_issue r (new_issue r signature)
    modify (add_log (issue_log r))
    pure signature

  -- Step 8 with its handlers.
  unfoldable pub issue_new : IssueRequest → Resource → Bytes → IssueAction Bytes
  unfolding replay issue_block transaction_by
  issue_new r resource blinded s =
      let (answer, s') = transaction_by rollback (issue_block r resource blinded) s in
      elim answer [
        | ok signature ↦ (ok signature, s')
        | err x ↦
            if is_not_unique x
            then (elim (replay r s') [ none ↦ err internal_error | some known ↦ known ], s')
            else (err x, s')
      ]

  -- `issue`; `others` is what other processes commit between the check of the key and the transaction.
  unfoldable pub issue : IssueRequest → (IssuerState → IssuerState) → IssueAction Bytes
  unfolding check_request replay issue_new
  issue r others = do
    (resource, blinded) ← λ s. (check_request r s.tables, s)
    λ s. elim (replay r s) [
      | some answer ↦ (answer, s)
      | none ↦ issue_new r resource blinded (others s)
    ]
