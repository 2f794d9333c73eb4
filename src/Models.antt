-- ===== src/Models.antt =====
-- The rows of the database tables (server/app/models). Identifiers are the UUID strings, which the
-- code only compares: natural numbers here. Instants are microseconds of UTC, so that the code's
-- `_utc` normalisation of a `datetime` is the identity. A column over a fixed set of strings is an
-- enumeration.
use crypto_campus.Prelude.{ℕ, Bool, true, false, Option, Bytes, Text}

pub data Role : Type 0 where
  student admin teacher system : Role

pub data UserStatus : Type 0 where
  active frozen pending_deletion : UserStatus

-- `User` of models/user.py: the columns that the modelled services read or write.
pub record User : Type 0 where
  pub id : ℕ
  pub email : Option Text
  pub role : Role
  pub status : UserStatus
  pub salt_a : Bytes
  pub auth_hash : Bytes
  pub salt_k : Bytes
  pub enc_sk : Bytes
  pub pubkey : Option Bytes
  pub cert_serial : Option Text
  pub pqc_pubkey : Option Bytes
  pub failed_login_count : ℕ
  pub locked_until : Option ℕ
  pub created_at : ℕ

abbrev pub is_active : UserStatus → Bool
is_active UserStatus.active = true
is_active _ = false

abbrev pub is_pending_deletion : UserStatus → Bool
is_pending_deletion UserStatus.pending_deletion = true
is_pending_deletion _ = false

-- `role in HTTP_ROLES` of security/auth_dependencies.py.
abbrev pub in_http_roles : Role → Bool
in_http_roles Role.system = false
in_http_roles _ = true

-- `AuditLog` of models/audit.py, without its generated key.
pub data AuditAction : Type 0 where
  drop_create drop_extract drop_destroy quota_reset : AuditAction

pub record AuditLog : Type 0 where
  pub actor : ℕ
  pub action : AuditAction
  pub target : ℕ
  pub detail_hash : Bytes
  pub ts : ℕ

-- `CertificateRecord` of models/certificate.py: the columns that `_create_drop` reads. `identity` is
-- `kind == "user_identity"`, and `active` is `status == "active"`.
pub record CertificateRecord : Type 0 where
  pub serial : Text
  pub subject_user_id : ℕ
  pub identity : Bool
  pub active : Bool
  pub certificate_der : Bytes
