-- ===== src/Drop/State.antt =====
-- The tables that the drop services share, the exceptions that they raise, and the actions on them.
-- The state comes back after an exception too, since what was committed stays written.
use crypto_campus.Prelude.{ℕ, Bool, Option, none, some, List, if◌then◌else◌}
use crypto_campus.Models.{User, CertificateRecord, AuditLog}
use crypto_campus.Quota.Rows.{CredentialLedger, QuotaError}
use crypto_campus.Drop.Rows.{Drop, DropIdempotency, DropExtractIdempotency, Notification}

pub data InspectOperation : Type 0 where
  envelope_create envelope_open destroy : InspectOperation

-- An inspection record, without its redacted step values.
pub record InspectRecord : Type 0 where
  pub id : ℕ
  pub operation : InspectOperation
  pub owner_user_id : ℕ
  pub occurred_at : ℕ

pub record Db : Type 0 where
  pub users : List User
  pub certificates : List CertificateRecord
  pub ledger : List CredentialLedger
  pub drops : List Drop
  pub drop_idempotency : List DropIdempotency
  pub extract_idempotency : List DropExtractIdempotency
  pub audit_log : List AuditLog
  pub inspections : List InspectRecord
  pub notifications : List Notification

-- The codes of `DropServiceError`, a bridge error that passes through, and any other exception.
pub data DropError : Type 0 where
  invalid_content content_too_long payload_too_large invalid_file : DropError
  invalid_idempotency_key invalid_ttl_policy invalid_access_password unauthorized : DropError
  key_not_unlocked sender_certificate_invalid idempotency_conflict : DropError
  recipient_resolution_failed code_collision quota_exhausted not_found cooling_down : DropError
  password_required kdf_failed unsupported_envelope_version invalid_envelope : DropError
  key_unavailable certificate_invalid signature_invalid unseal_failed : DropError
  quota : QuotaError → DropError
  bridge crash : DropError

pub data Result (A : Type 0) : Type 0 where
  ok : A → Result A
  err : DropError → Result A

abbrev pub Action : Type 0 → Type 0
Action A = Db → Result A × Db

module _ {A : Type 0} where
  abbrev pub pure : A → Action A
  pure a s = (ok a, s)

  abbrev pub raise : DropError → Action A
  raise e s = (err e, s)

  abbrev pub gets : (Db → A) → Action A
  gets f s = (ok (f s), s)

  abbrev pub or_raise : Option A → DropError → Action A
  or_raise none e = raise e
  or_raise (some a) e = pure a

infixl 5 ◌>>=◌ ◌>>◌
abbrev pub ◌>>=◌ : {A B : Type 0} → Action A → (A → Action B) → Action B
◌>>=◌ m f s = let (r, s') = m s in elim r [ ok a ↦ f a s' | err e ↦ raise e s' ]

abbrev pub ◌>>◌ : {A B : Type 0} → Action A → Action B → Action B
m >> k = m >>= λ _. k

abbrev pub raise_if : Bool → DropError → Action (Unit {0})
raise_if c e s = (if c then err e else ok tt, s)

abbrev pub modify : (Db → Db) → Action (Unit {0})
modify f s = (ok tt, f s)

-- `with self._transaction()`: an exception undoes the block.
unfoldable pub transaction : {A : Type 0} → Action A → Action A
transaction m s = let (r, s') = m s in elim r [ ok a ↦ (ok a, s') | err e ↦ (err e, s) ]
