-- ===== src/Drop/Rows.antt =====
-- The rows that the drop services keep (server/app/models/drop.py, models/notification.py).
use crypto_campus.Prelude.{ℕ, Bool, true, false, Option, Bytes, Text}

pub data DropStatus : Type 0 where
  available consumed expired destroyed cooling_down : DropStatus

pub data DropKind : Type 0 where
  text file : DropKind

pub data TtlPolicy : Type 0 where
  burn_after_read hours_24 days_7 : TtlPolicy

pub record Drop : Type 0 where
  pub id : ℕ
  pub owner_user_id : ℕ
  pub recipient_user_id : ℕ
  pub link_code_hash : Bytes
  pub kind : DropKind
  pub envelope_version : ℕ
  pub ciphertext : Option Bytes
  pub nonce : Option Bytes
  pub tag : Option Bytes
  pub enc_key_sm2 : Option Bytes
  pub enc_key_mlkem : Option Bytes
  pub sender_signature : Option Bytes
  pub sender_certificate_der : Option Bytes
  pub sender_cert_serial : Text
  pub recipient_sm2_fingerprint : Bytes
  pub recipient_mlkem_fingerprint : Option Bytes
  pub access_code_hash : Bytes
  pub access_factor_salt : Option Bytes
  pub ttl_policy : TtlPolicy
  pub burn_after_read : Bool
  pub expires_at : Option ℕ
  pub filename : Option Text
  pub content_size : ℕ
  pub pqc_mode : Bool
  pub status : DropStatus
  pub failed_attempts : ℕ
  pub cooldown_until : Option ℕ
  pub created_at : ℕ

pub data Operation : Type 0 where
  create_text create_file : Operation

pub record DropIdempotency : Type 0 where
  pub owner_user_id : ℕ
  pub operation : Operation
  pub key_hash : Bytes
  pub request_hash : Bytes
  pub drop_id : ℕ
  pub created_at : ℕ

pub record DropExtractIdempotency : Type 0 where
  pub id : ℕ
  pub drop_id : ℕ
  pub key_hash : Bytes
  pub request_hash : Bytes
  pub inspect_record_id : ℕ
  pub created_at : ℕ

pub record Notification : Type 0 where
  pub user_id : ℕ
  pub related_resource_id : ℕ
  pub source_event_id : ℕ
  pub created_at : ℕ

abbrev pub is_available : DropStatus → Bool
is_available DropStatus.available = true
is_available _ = false

abbrev pub is_cooling_down : DropStatus → Bool
is_cooling_down DropStatus.cooling_down = true
is_cooling_down _ = false

-- `status in ("available", "cooling_down")`
abbrev pub is_live : DropStatus → Bool
is_live DropStatus.available = true
is_live DropStatus.cooling_down = true
is_live _ = false

abbrev pub same_operation : Operation → Operation → Bool
same_operation create_text create_text = true
same_operation create_file create_file = true
same_operation _ _ = false
