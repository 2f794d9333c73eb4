-- ===== src/Drop/Extract.antt =====
-- `extract_drop` of server/app/services/drop.py: the replay check, the access code, and the commit.
pub mod Outcome
pub mod Failure
pub mod Sound
pub mod Burn
use crypto_campus.Prelude.{
  ℕ, ◌+◌, Bool, true, false, ◌&&◌, ◌||◌, not, Option, none, some, List, [], ◌∷◌, ◌++◌, Bytes, Text,
  length, bytes_eq, ◌==◌, ltb, leb, between, if◌then◌else◌, get, select_first, is_some,
}
use crypto_campus.Models.{User, AuditLog, drop_extract, is_active, is_pending_deletion}
use crypto_campus.Crypto.{CryptoEngine, Runtime, EnvelopeArtifact, OpenKeys}
use crypto_campus.Text.{codes}
use crypto_campus.Drop.Rows.{
  Drop, DropStatus, DropKind, text, file, is_available, is_cooling_down, DropExtractIdempotency,
  Notification,
}
use crypto_campus.Drop.State.{
  Db, DropError, Action, Result, ok, err, pure, raise, raise_if, gets, or_raise, modify, ◌>>=◌,
  ◌>>◌, transaction, InspectOperation, envelope_open, bridge, crash, not_found, cooling_down,
  idempotency_conflict, password_required, kdf_failed, unsupported_envelope_version,
  invalid_envelope, key_unavailable, certificate_invalid, signature_invalid, unseal_failed,
  payload_too_large, invalid_idempotency_key,
}
use crypto_campus.Drop.Update.{get_drop, due}
use crypto_campus.Drop.Cooldown.{before_attempt, record_failure, record_success}
use crypto_campus.Drop.Destruction.{destroy_single_expired, destroy_after_success}
use crypto_campus.Drop.Services.{Collaborators, sized, sm2_public_key_size}
use crypto_campus.Drop.Requests.{max_drop_content_size, is_key_length, bars, bool_text, kind_text}
use crypto_campus.Drop.Lookup.{ExtractRequest, is_access_code, open_attempt}
use crypto_campus.Drop.Unseal.{unseal}

-- The `uuid4` values: of the inspection records of the extraction and of the destruction, and of the
-- idempotency record.
pub record ExtractFresh : Type 0 where
  pub inspect_id : ℕ
  pub destroy_id : ℕ
  pub idemp_id : ℕ

-- `ExtractedDropResponse` with the bytes of a file.
pub data Extracted : Type 0 where
  text_content : Text → ℕ → Extracted
  file_content : Option Text → ℕ → Bytes → Extracted

module _ (e : CryptoEngine) (rt : Runtime) (sv : Collaborators) where
  abbrev access_code_digest : Text → Bytes
  access_code_digest code = e.sm3_digest (rt.utf8 code)

  -- `if access_password: ..hex()`
  password_digest : Option Text → Text
  password_digest none = []
  password_digest (some []) = []
  password_digest (some (c ∷ cs)) = rt.hex (e.sm3_digest (rt.utf8 (c ∷ cs)))

  pub extract_request_hash : ExtractRequest → Drop → Bytes
  unfolding bars password_digest
  extract_request_hash r d = e.sm3_digest (
      rt.utf8 (
        bars (
          codes "extract"
          ∷ rt.id_text d.id
          ∷ rt.hex (access_code_digest r.access_code)
          ∷ password_digest r.access_password
          ∷ [])))

  abbrev pub earlier_extract : ExtractRequest → Drop → Db → Option DropExtractIdempotency
  earlier_extract r d s =
      select_first
        (λ x. x.drop_id == d.id && bytes_eq x.key_hash (e.sm3_digest (rt.utf8 r.idempotency_key)))
        s.extract_idempotency

  -- Step 2: an earlier request with this key must have been the same request.
  unfoldable pub check_replay : ExtractRequest → Drop → Action (Option DropExtractIdempotency)
  check_replay r d s = elim (earlier_extract r d s) [
    | none ↦ (ok none, s)
    | some x ↦
        if bytes_eq x.request_hash (extract_request_hash r d)
        then (ok (some x), s)
        else (err idempotency_conflict, s)
  ]

  -- The access code has the form of one, and the digest of the drop's.
  abbrev pub is_right_code : ExtractRequest → Drop → Bool
  is_right_code r d =
      is_access_code r.access_code
      && e.constant_time_equal (access_code_digest r.access_code) d.access_code_hash

  -- Step 3: a wrong access code is counted, and reported as `not_found`.
  unfoldable pub check_access_code : ExtractRequest → Drop → Action (Unit {0})
  check_access_code r d =
      if is_right_code r d then pure tt else record_failure d.id r.now >> raise not_found

  -- `create_drop_extracted` of services/notification.py.
  unfoldable pub notify_owner : Drop → ℕ → ℕ → Action (Unit {0})
  notify_owner d event now s = elim (get (λ u. u.id) d.owner_user_id s.users) [
    | none ↦ (ok tt, s)
    | some u ↦
        if is_pending_deletion u.status
          || is_some (select_first (λ n. n.source_event_id == event) s.notifications)
        then (ok tt, s)
        else (
          ok tt,
          record s {
            notifications =
                s.notifications
                ++ record {
                  user_id = d.owner_user_id;
                  related_resource_id = d.id;
                  source_event_id = event;
                  created_at = now;
                }
                  ∷ [];
          },
        )
  ]

  -- The rows of a first extraction; a replay adds none.
  unfoldable pub record_extraction :
      ExtractRequest → ExtractFresh → Drop → Bytes → Action (Unit {0})
  unfolding bars bool_text kind_text notify_owner
  record_extraction r f d plaintext =
      modify (λ s. record s {
        inspections =
            s.inspections
            ++ record {
              id = f.inspect_id;
              operation = envelope_open;
              owner_user_id = d.recipient_user_id;
              occurred_at = r.now;
            }
              ∷ [];
        audit_log =
            s.audit_log
            ++ record {
              actor = d.recipient_user_id;
              action = drop_extract;
              target = d.id;
              detail_hash = e.sm3_digest (
                  rt.utf8 (
                    bars (
                      codes "drop.extract"
                      ∷ kind_text d.kind
                      ∷ rt.nat_text (length plaintext)
                      ∷ bool_text d.pqc_mode
                      ∷ d.sender_cert_serial
                      ∷ [])));
              ts = r.now;
            }
              ∷ [];
        extract_idempotency =
            s.extract_idempotency
            ++ record {
              id = f.idemp_id;
              drop_id = d.id;
              key_hash = e.sm3_digest (rt.utf8 r.idempotency_key);
              request_hash = extract_request_hash r d;
              inspect_record_id = f.inspect_id;
              created_at = r.now;
            }
              ∷ [];
      })
      >> notify_owner d f.idemp_id r.now

  unfoldable pub burn_if_asked : ExtractRequest → ExtractFresh → Drop → Action (Unit {0})
  burn_if_asked r f d =
      if d.burn_after_read
      then destroy_after_success e rt d.id r.now (some d.recipient_user_id) f.destroy_id
      else pure tt

  unfoldable pub record_if_first :
      ExtractRequest → ExtractFresh → Drop → Bytes → Option DropExtractIdempotency → Action ℕ
  record_if_first r f d plaintext none = do record_extraction r f d plaintext; pure f.inspect_id
  record_if_first r f d plaintext (some x) = pure x.inspect_record_id

  -- The block of step 11.
  unfoldable pub extraction_block :
      ExtractRequest → ExtractFresh → Drop → Bytes → Option DropExtractIdempotency → Action ℕ
  unfolding burn_if_asked record_if_first
  extraction_block r f d plaintext replay = do
    burn_if_asked r f d
    inspect_record_id ← record_if_first r f d plaintext replay
    record_success d.id
    pure inspect_record_id

  -- Step 11: the transaction.
  unfoldable pub commit_extraction :
      ExtractRequest → ExtractFresh → Drop → Bytes → Option DropExtractIdempotency → Action ℕ
  unfolding extraction_block
  commit_extraction r f d plaintext replay = transaction (extraction_block r f d plaintext replay)

  -- A text that does not decode is a `UnicodeDecodeError`, after the commit.
  unfoldable pub respond : Drop → Bytes → ℕ → Action Extracted
  respond d plaintext inspect_record_id = elim d.kind [
    | text ↦ (do
      content ← or_raise (rt.from_utf8 plaintext) crash
      pure (text_content content inspect_record_id))
    | file ↦ pure (file_content d.filename inspect_record_id plaintext)
  ]

  unfoldable pub extract_drop : ExtractRequest → ExtractFresh → Action Extracted
  extract_drop r f = do
    d ← open_attempt e rt r f.destroy_id
    replay ← check_replay r d
    check_access_code r d
    plaintext ← unseal e rt sv r d
    inspect_record_id ← commit_extraction r f d plaintext replay
    respond d plaintext inspect_record_id
