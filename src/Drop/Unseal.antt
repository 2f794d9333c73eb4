-- ===== src/Drop/Unseal.antt =====
-- Unsealing a drop: steps 4 to 10 of `extract_drop` of server/app/services/drop.py, none of which
-- writes.
pub mod Checks
pub mod Soundness
use crypto_campus.Prelude.{
  ℕ, ◌+◌, Bool, true, false, ◌&&◌, ◌||◌, not, Option, none, some, List, [], ◌∷◌, ◌++◌, Bytes, Text,
  length, bytes_eq, ◌==◌, ltb, leb, between, if◌then◌else◌, get, select_first, is_some,
}
use crypto_campus.Models.{User, AuditLog, drop_extract, is_active, is_pending_deletion}
use crypto_campus.Crypto.{CryptoEngine, Runtime, EnvelopeArtifact, OpenKeys}
use crypto_campus.Text.{codes}
use crypto_campus.Drop.Rows.{
  Drop, DropStatus, DropKind, text, file, is_available, is_cooling_down, DropExtractIdempotency,
  Notification,
}
use crypto_campus.Drop.State.{
  Db, DropError, Action, Result, ok, err, pure, raise, raise_if, gets, or_raise, modify, ◌>>=◌,
  ◌>>◌, transaction, InspectOperation, envelope_open, bridge, crash, not_found, cooling_down,
  idempotency_conflict, password_required, kdf_failed, unsupported_envelope_version,
  invalid_envelope, key_unavailable, certificate_invalid, signature_invalid, unseal_failed,
  payload_too_large, invalid_idempotency_key,
}
use crypto_campus.Drop.Update.{get_drop, due}
use crypto_campus.Drop.Cooldown.{before_attempt, record_failure, record_success}
use crypto_campus.Drop.Destruction.{destroy_single_expired, destroy_after_success}
use crypto_campus.Drop.Services.{Collaborators, sized, sm2_public_key_size}
use crypto_campus.Drop.Requests.{max_drop_content_size, is_key_length, bars, bool_text, kind_text}
use crypto_campus.Drop.Lookup.{ExtractRequest}

-- The parts of the envelope that step 5 has checked.
pub record Parts : Type 0 where
  pub nonce : Bytes
  pub tag : Bytes
  pub enc_key_sm2 : Bytes
  pub sender_signature : Bytes
  pub sender_certificate_der : Bytes

-- A column that must not be NULL where the code calls `len` on it: else a `TypeError`.
abbrev column : Option Bytes → Action Bytes
column o = or_raise o crash

abbrev nonempty : Option Bytes → DropError → Action Bytes
nonempty none e = raise e
nonempty (some []) e = raise e
nonempty (some (b ∷ bs)) e = pure (b ∷ bs)

module _ (e : CryptoEngine) (rt : Runtime) (sv : Collaborators) where
  -- Step 4: `not access_password or not (1 <= len(access_password) <= 128)`.
  unfoldable pub derive_factor : ExtractRequest → Drop → Action (Option Bytes)
  derive_factor r d = elim d.access_factor_salt [
    | none ↦ pure none
    | some salt ↦ elim r.access_password [
      | none ↦ raise password_required
      | some p ↦ (do
        raise_if (not (between 1 128 (length p))) password_required
        factor ← or_raise (e.hkdf_sm3 (rt.utf8 p) salt (codes "drop-access-factor") 32) kdf_failed
        pure (some factor))
    ]
  ]

  abbrev mlkem_key_present : Option Bytes → Bool
  mlkem_key_present none = false
  mlkem_key_present (some k) = length k == 1088

  abbrev mlkem_fingerprint_present : Option Bytes → Bool
  mlkem_fingerprint_present none = false
  mlkem_fingerprint_present (some k) = length k == 32

  -- Step 5: the sizes of the parts (GCM_NONCE_SIZE, GCM_TAG_SIZE, MAX_SM2_ENC_KEY_SIZE,
  -- SM2_SIGNATURE_SIZE, MAX_DER_CERTIFICATE_SIZE, MLKEM_ENC_KEY_SIZE).
  unfoldable pub check_envelope : Drop → Action Parts
  check_envelope d = do
    raise_if (not (d.envelope_version == 1)) unsupported_envelope_version
    nonce ← column d.nonce
    raise_if (not (length nonce == 12)) invalid_envelope
    tag ← column d.tag
    raise_if (not (length tag == 16)) invalid_envelope
    key ← nonempty d.enc_key_sm2 invalid_envelope
    raise_if (ltb 512 (length key)) invalid_envelope
    signature ← column d.sender_signature
    raise_if (not (length signature == 64)) invalid_envelope
    certificate ← nonempty d.sender_certificate_der invalid_envelope
    raise_if (ltb 65536 (length certificate)) invalid_envelope
    raise_if
        (not
          (if d.pqc_mode then mlkem_key_present d.enc_key_mlkem else not (is_some d.enc_key_mlkem)))
        invalid_envelope
    raise_if (d.pqc_mode && not (mlkem_fingerprint_present d.recipient_mlkem_fingerprint))
        invalid_envelope
    pure (record {
      nonce = nonce;
      tag = tag;
      enc_key_sm2 = key;
      sender_signature = signature;
      sender_certificate_der = certificate;
    })

  -- The second key of PQC mode; the fingerprint is there by step 5.
  unfoldable pub pqc_private_key : ExtractRequest → Drop → Action (Option Bytes)
  pqc_private_key r d =
      if d.pqc_mode
      then (do
        fingerprint ← column d.recipient_mlkem_fingerprint
        key ←
            or_raise
              (sized 2400 (sv.get_unlocked_private_key d.recipient_user_id fingerprint r.now))
              key_unavailable
        pure (some key))
      else pure none

  abbrev pub is_active_user : Option User → Bool
  is_active_user none = false
  is_active_user (some u) = is_active u.status

  -- Steps 6 and 7: the recipient, and the unlocked private keys.
  unfoldable pub recipient_keys : ExtractRequest → Drop → Action (Bytes × Option Bytes)
  unfolding pqc_private_key
  recipient_keys r d = do
    active ← gets λ s. is_active_user (get (λ u. u.id) d.recipient_user_id s.users)
    raise_if (not active) key_unavailable
    key ←
        or_raise
          (sized 32
            (sv.get_unlocked_private_key d.recipient_user_id d.recipient_sm2_fingerprint r.now))
          key_unavailable
    pqc ← pqc_private_key r d
    pure (key, pqc)

  abbrev pub public_key_of : Option User → Option Bytes
  public_key_of none = none
  public_key_of (some u) = sized sm2_public_key_size u.pubkey

  -- Steps 8 and 9: the certificate and the signature of the sender; then the envelope is put together.
  unfoldable pub verify_sender : ExtractRequest → Drop → Parts → Action EnvelopeArtifact
  verify_sender r d a = do
    raise_if (not (sv.verify_certificate a.sender_certificate_der r.now)) certificate_invalid
    owner ← gets λ s. public_key_of (get (λ u. u.id) d.owner_user_id s.users)
    key ← or_raise owner certificate_invalid
    ciphertext ← column d.ciphertext
    valid ← or_raise (e.sm2_verify key (e.sm3_digest ciphertext) a.sender_signature) bridge
    raise_if (not valid) signature_invalid
    pure (record {
      ciphertext = ciphertext;
      nonce = a.nonce;
      tag = a.tag;
      enc_key_sm2 = a.enc_key_sm2;
      enc_key_mlkem = d.enc_key_mlkem;
      sender_signature = a.sender_signature;
      sender_certificate = a.sender_certificate_der;
    })

  -- Step 10.
  unfoldable pub open_envelope :
      Drop → EnvelopeArtifact → Bytes × Option Bytes → Option Bytes → Action Bytes
  open_envelope d a (key, pqc) factor = do
    plaintext ←
        or_raise
          (e.envelope_open a (record {
            recipient_sm2_private_key = key;
            pqc_mode = d.pqc_mode;
            recipient_mlkem_private_key = pqc;
            access_factor = factor;
          }))
          unseal_failed
    raise_if (length plaintext == 0 || ltb max_drop_content_size (length plaintext))
        payload_too_large
    pure plaintext

  -- Steps 4 to 10, which write nothing.
  unfoldable pub unseal : ExtractRequest → Drop → Action Bytes
  unseal r d = do
    factor ← derive_factor r d
    parts ← check_envelope d
    keys ← recipient_keys r d
    artifact ← verify_sender r d parts
    open_envelope d artifact keys factor
