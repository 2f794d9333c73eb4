-- ===== src/Drop/Lookup.antt =====
-- Finding a drop by its link code: `get_drop_metadata`, and the first steps of `extract_drop`, of
-- server/app/services/drop.py.
pub mod Attempt
pub mod Metadata
use crypto_campus.Prelude.{
  ℕ, ◌+◌, Bool, true, false, ◌&&◌, ◌||◌, not, Option, none, some, List, [], ◌∷◌, ◌++◌, Bytes, Text,
  length, bytes_eq, ◌==◌, ltb, leb, between, if◌then◌else◌, get, select_first, is_some,
}
use crypto_campus.Models.{User, AuditLog, drop_extract, is_active, is_pending_deletion}
use crypto_campus.Crypto.{CryptoEngine, Runtime, EnvelopeArtifact, OpenKeys}
use crypto_campus.Text.{codes}
use crypto_campus.Drop.Rows.{
  Drop, DropStatus, DropKind, text, file, is_available, is_cooling_down, DropExtractIdempotency,
  Notification,
}
use crypto_campus.Drop.State.{
  Db, DropError, Action, Result, ok, err, pure, raise, raise_if, gets, or_raise, modify, ◌>>=◌,
  ◌>>◌, transaction, InspectOperation, envelope_open, bridge, crash, not_found, cooling_down,
  idempotency_conflict, password_required, kdf_failed, unsupported_envelope_version,
  invalid_envelope, key_unavailable, certificate_invalid, signature_invalid, unseal_failed,
  payload_too_large, invalid_idempotency_key,
}
use crypto_campus.Drop.Update.{get_drop, due}
use crypto_campus.Drop.Cooldown.{before_attempt, record_failure, record_success}
use crypto_campus.Drop.Destruction.{destroy_single_expired, destroy_after_success}
use crypto_campus.Drop.Services.{Collaborators, sized, sm2_public_key_size}
use crypto_campus.Drop.Requests.{max_drop_content_size, is_key_length, bars, bool_text, kind_text}

-- The arguments of `extract_drop`.
pub record ExtractRequest : Type 0 where
  pub code : Text
  pub access_code : Text
  pub access_password : Option Text
  pub idempotency_key : Text
  pub now : ℕ

pub record DropMetadata : Type 0 where
  pub code : Text
  pub kind : DropKind
  pub status : DropStatus
  pub requires_password : Bool
  pub burn_after_read : Bool
  pub filename : Option Text
  pub size : ℕ
  pub expires_at : Option ℕ

abbrev is_letter_or_digit : ℕ → Bool
is_letter_or_digit c = between b'A' b'Z' c || (between b'a' b'z' c || between b'0' b'9' c)

abbrev is_access_char : ℕ → Bool
is_access_char c = between b'A' b'Z' c || (between b'0' b'9' c || c == b'-')

all_chars : (ℕ → Bool) → Text → Bool
all_chars p [] = true
all_chars p (c ∷ cs) = p c && all_chars p cs

-- `^[A-Za-z0-9]{11,32}$` and `^[A-Z0-9-]{8,32}$`
unfoldable pub is_link_code : Text → Bool
unfolding all_chars
is_link_code code = between 11 32 (length code) && all_chars is_letter_or_digit code

unfoldable pub is_access_code : Text → Bool
unfolding all_chars
is_access_code code = between 8 32 (length code) && all_chars is_access_char code

module _ (e : CryptoEngine) (rt : Runtime) where
  abbrev pub by_link_code : Text → Db → Option Drop
  by_link_code code s =
      select_first (λ d. bytes_eq d.link_code_hash (e.sm3_digest (rt.utf8 code))) s.drops

  -- The link code, and the drop that it names.
  unfoldable pub find_drop : Text → Action Drop
  find_drop code = do
    raise_if (not (is_link_code code)) not_found
    λ s. or_raise (by_link_code code s) not_found s

  -- A drop whose expiry has come is destroyed, and not found.
  unfoldable pub refuse_expired : Drop → ℕ → ℕ → Action (Unit {0})
  unfolding transaction
  refuse_expired d now fresh =
      if due now d.expires_at
      then transaction (destroy_single_expired e rt d.id now none fresh) >> raise not_found
      else pure tt

  -- Any refusal of the cooldown is reported as `not_found`.
  hide_cooldown : Drop → ℕ → Action Drop
  hide_cooldown d now s =
      if is_cooling_down d.status
      then (let (r, s') = before_attempt d now s in
          elim r [ ok d' ↦ (ok d', s') | err x ↦ (err not_found, s') ])
      else (ok d, s)

  unfoldable pub get_drop_metadata : Text → ℕ → ℕ → Action DropMetadata
  unfolding find_drop refuse_expired hide_cooldown
  get_drop_metadata code now fresh = do
    loaded ← find_drop code
    refuse_expired loaded now fresh
    d ← hide_cooldown loaded now
    raise_if (not (is_available d.status)) not_found
    pure (record {
      code = code;
      kind = d.kind;
      status = d.status;
      requires_password = is_some d.access_factor_salt;
      burn_after_read = d.burn_after_read;
      filename = d.filename;
      size = d.content_size;
      expires_at = d.expires_at;
    })

  -- Steps 1 to 1.2: the drop, open for an attempt.
  unfoldable pub open_attempt : ExtractRequest → ℕ → Action Drop
  unfolding find_drop refuse_expired
  open_attempt r fresh = do
    raise_if (not (is_key_length r.idempotency_key)) invalid_idempotency_key
    loaded ← find_drop r.code
    refuse_expired loaded r.now fresh
    d ← before_attempt loaded r.now
    raise_if (not (is_available d.status)) not_found
    pure d
