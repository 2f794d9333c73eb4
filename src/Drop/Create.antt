-- ===== src/Drop/Create.antt =====
-- Creating a drop: `_create_drop` of
-- server/app/services/drop.py.
pub mod Atomic
pub mod Codes
pub mod Entry
pub mod Stored
use crypto_campus.Prelude.{
  ℕ, zero, suc, ◌+◌, ◌*◌, Bool, true, false, ◌&&◌, not, Option, none, some, List, [], ◌∷◌, ◌++◌,
  Bytes, Text, length, take, bytes_eq, ◌==◌, ltb, between, if◌then◌else◌, get, select_first,
  is_some,
}
use crypto_campus.Models.{User, CertificateRecord, drop_create, is_active, in_http_roles}
use crypto_campus.Crypto.{CryptoEngine, Runtime, EnvelopeArtifact}
use crypto_campus.Text.{codes}
use crypto_campus.Quota.Rows.{Resource, exhausted}
use crypto_campus.Quota.{reserved, refused, reserve}
use crypto_campus.Drop.Rows.{
  Drop, DropStatus, DropKind, text, file, TtlPolicy, burn_after_read, hours_24, days_7, Operation,
  create_text, create_file, same_operation, DropIdempotency,
}
use crypto_campus.Drop.State.{
  Db, Action, ok, err, pure, raise_if, gets, or_raise, modify, ◌>>=◌, ◌>>◌, transaction,
  envelope_create, quota, bridge, quota_exhausted, invalid_idempotency_key, invalid_ttl_policy,
  invalid_access_password, unauthorized, key_not_unlocked, sender_certificate_invalid,
  idempotency_conflict, recipient_resolution_failed, code_collision, invalid_content,
  content_too_long, payload_too_large, invalid_file,
}
use crypto_campus.Drop.Services.{Collaborators, ResolvedRecipient}
use crypto_campus.Drop.Requests.{
  max_drop_content_size, Fresh, CreateRequest, CreateDropResponse, is_key_length, is_password,
  expires_at_of, burns, policy_text, bool_text, kind_text, operation_text, bars,
}

-- A user in good standing, with a role of the HTTP interface.
pub find_sender : ℕ → List User → Option User
find_sender sender_id users = elim (get (λ u. u.id) sender_id users) [
  | none ↦ none
  | some u ↦ if is_active u.status && in_http_roles u.role then some u else none
]

-- `if sender.cert_serial: query.filter(serial == ..)`
serial_matches : Option Text → Text → Bool
serial_matches none serial = true
serial_matches (some []) serial = true
serial_matches (some (c ∷ cs)) serial = bytes_eq serial (c ∷ cs)

pub find_certificate : User → List CertificateRecord → Option CertificateRecord
unfolding serial_matches
find_certificate sender = select_first λ c.
    c.subject_user_id == sender.id
    && (c.active && (c.identity && serial_matches sender.cert_serial c.serial))

-- The record of an earlier request with this key.
abbrev pub is_repeat : ℕ → Operation → Bytes → DropIdempotency → Bool
is_repeat owner operation key_hash r =
    r.owner_user_id == owner
    && (same_operation r.operation operation && bytes_eq r.key_hash key_hash)

module _ (e : CryptoEngine) (rt : Runtime) (sv : Collaborators) where
  -- `_generate_link_code`, with the rounds left and the number of the draw.
  unfoldable pub generate_link_code : ℕ → ℕ → (ℕ → Text) → List Drop → Option Text
  generate_link_code zero i draw drops = none
  generate_link_code (suc n) i draw drops =
      let again = generate_link_code n (i + 1) draw drops in
      if is_some
        (select_first (λ d. bytes_eq d.link_code_hash (e.sm3_digest (rt.utf8 (draw i)))) drops)
      then again
      else some (draw i)

  -- Salt and factor of the optional password.
  pub password_factor : Option Text → Bytes → Action (Option Bytes × Option Bytes)
  password_factor none salt = pure (none, none)
  password_factor (some p) salt = do
    factor ← or_raise (e.hkdf_sm3 (rt.utf8 p) salt (codes "drop-access-factor") 32) bridge
    pure (some salt, some factor)

  pub reserve_quota : ℕ → ℕ → Action (Unit {0})
  reserve_quota sender_id now s =
      elim (reserve rt (λ rows. rows) sender_id Resource.drop now none s.ledger) [
        | reserved rows ↦ (ok tt, record s { ledger = rows })
        | refused exhausted ↦ (err quota_exhausted, s)
        | refused code ↦ (err (quota code), s)
      ]

  pub new_drop :
      CreateRequest
      → Fresh
      → TtlPolicy
      → CertificateRecord
      → ResolvedRecipient
      → Text
      → Option Bytes
      → EnvelopeArtifact
      → Drop
  new_drop r f policy cert to link_code salt a = record {
    id = f.drop_id;
    owner_user_id = r.sender_id;
    recipient_user_id = to.recipient_user_id;
    link_code_hash = e.sm3_digest (rt.utf8 link_code);
    kind = r.kind;
    envelope_version = 1;
    ciphertext = some a.ciphertext;
    nonce = some a.nonce;
    tag = some a.tag;
    enc_key_sm2 = some a.enc_key_sm2;
    enc_key_mlkem = a.enc_key_mlkem;
    sender_signature = some a.sender_signature;
    sender_certificate_der = some a.sender_certificate;
    sender_cert_serial = cert.serial;
    recipient_sm2_fingerprint = to.sm2_fingerprint;
    recipient_mlkem_fingerprint = to.mlkem_fingerprint;
    access_code_hash = e.sm3_digest (rt.utf8 f.access_code);
    access_factor_salt = salt;
    ttl_policy = policy;
    burn_after_read = burns policy;
    expires_at = expires_at_of policy r.now;
    filename = r.filename;
    content_size = length r.plaintext;
    pqc_mode = r.pqc_mode;
    status = DropStatus.available;
    failed_attempts = 0;
    cooldown_until = none;
    created_at = r.now;
  }

  -- The rows that the transaction of `_create_drop` adds. The audit entry takes its time from the
  -- default of the column, the clock: here it is `now`.
  pub insert_drop :
      CreateRequest → Fresh → TtlPolicy → CertificateRecord → ResolvedRecipient → Drop → Db → Db
  unfolding bars policy_text bool_text kind_text operation_text
  insert_drop r f policy cert to d s = record s {
    drops = s.drops ++ d ∷ [];
    drop_idempotency =
        s.drop_idempotency
        ++ record {
          owner_user_id = r.sender_id;
          operation = r.operation;
          key_hash = e.sm3_digest (rt.utf8 r.idempotency_key);
          request_hash = e.sm3_digest (
              rt.utf8 (
                bars (
                  operation_text r.operation
                  ∷ rt.nat_text (length r.plaintext)
                  ∷ policy_text policy
                  ∷ bool_text r.pqc_mode
                  ∷ rt.hex to.sm2_fingerprint
                  ∷ [])));
          drop_id = f.drop_id;
          created_at = r.now;
        }
          ∷ [];
    audit_log =
        s.audit_log
        ++ record {
          actor = r.sender_id;
          action = drop_create;
          target = f.drop_id;
          detail_hash = e.sm3_digest (
              rt.utf8 (
                bars (
                  codes "drop.create"
                  ∷ kind_text r.kind
                  ∷ rt.nat_text (length r.plaintext)
                  ∷ policy_text policy
                  ∷ bool_text r.pqc_mode
                  ∷ cert.serial
                  ∷ [])));
          ts = r.now;
        }
          ∷ [];
    inspections =
        s.inspections
        ++ record {
          id = f.inspect_id;
          operation = envelope_create;
          owner_user_id = r.sender_id;
          occurred_at = r.now;
        }
          ∷ [];
  }

  -- The quota, the envelope and the rows, in one transaction.
  pub store_drop :
      CreateRequest
      → Fresh
      → TtlPolicy
      → Bytes
      → CertificateRecord
      → ResolvedRecipient
      → Text
      → Option Bytes × Option Bytes
      → Action (Unit {0})
  unfolding reserve_quota new_drop insert_drop transaction
  store_drop r f policy key cert to link_code (salt, factor) = transaction (do
    reserve_quota r.sender_id r.now
    artifact ←
        or_raise
          (e.envelope_seal (record {
            plaintext = r.plaintext;
            recipient_sm2_public_key = to.sm2_public_key;
            pqc_mode = r.pqc_mode;
            recipient_mlkem_public_key = to.mlkem_public_key;
            sender_private_key = key;
            sender_certificate_der = cert.certificate_der;
            access_factor = factor;
          }))
          bridge
    modify (insert_drop r f policy cert to (new_drop r f policy cert to link_code salt artifact)))

  -- `_create_drop`
  unfoldable pub create_drop : CreateRequest → Fresh → Action CreateDropResponse
  unfolding find_sender find_certificate generate_link_code password_factor store_drop
  create_drop r f = do
    raise_if (not (is_key_length r.idempotency_key)) invalid_idempotency_key
    policy ← or_raise r.ttl_policy invalid_ttl_policy
    raise_if (not (is_password r.access_password)) invalid_access_password
    sender ← λ s. or_raise (find_sender r.sender_id s.users) unauthorized s
    key ← or_raise (sv.cached_key r.sender_id r.now) key_not_unlocked
    cert ← λ s. or_raise (find_certificate sender s.certificates) sender_certificate_invalid s
    repeated ← gets λ s. is_some (
        select_first (is_repeat r.sender_id r.operation (e.sm3_digest (rt.utf8 r.idempotency_key)))
          s.drop_idempotency)
    raise_if repeated idempotency_conflict
    to ← λ s.
        or_raise (sv.resolve_for_create s.users r.sender_id r.pqc_mode) recipient_resolution_failed
          s
    code ← λ s. or_raise (generate_link_code 5 0 f.link_code s.drops) code_collision s
    factor ← password_factor r.access_password f.salt
    store_drop r f policy key cert to code factor
    pure (record {
      id = f.drop_id;
      code = code;
      access_code = f.access_code;
      expires_at = expires_at_of policy r.now;
      pqc_mode = r.pqc_mode;
    })
