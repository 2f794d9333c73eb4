-- ===== src/Quota/Rows.antt =====
-- The ledger of issued resources (`CredentialLedger` of server/app/models/credential.py), and the
-- resource names and error codes of server/app/services/quota.py.
use crypto_campus.Prelude.{ℕ, Text}

pub data QuotaError : Type 0 where
  resource_invalid period_invalid exhausted : QuotaError
  idempotency_invalid not_found pending_deletion conflict internal : QuotaError

-- The keys of `RESOURCE_LIMITS`; `other` is any other string.
pub data Resource : Type 0 where
  hole_credential interaction_credential drop vote_ballot : Resource
  other : Text → Resource

pub record CredentialLedger : Type 0 where
  pub user_id : ℕ
  pub service : Resource
  pub period : Text
  pub issued_count : ℕ
