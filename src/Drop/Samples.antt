-- ===== src/Drop/Samples.antt =====
-- Concrete tables, requests and collaborators on which the theorems are run.
use crypto_campus.Prelude.{ℕ, zero, suc, true, false, none, some, [], ◌∷◌, Bytes, bytes_eq, ◌==◌}
use crypto_campus.Models.{User, Role, UserStatus}
use crypto_campus.Crypto.{CryptoEngine, Runtime}
use crypto_campus.Drop.Rows.{Drop, DropStatus, DropKind, TtlPolicy, hours_24, create_text}
use crypto_campus.Drop.State.{Db}
use crypto_campus.Drop.Services.{Collaborators}
use crypto_campus.Drop.Requests.{Fresh, CreateRequest, CreateDropResponse}
use crypto_campus.Drop.Lookup.{ExtractRequest}
use crypto_campus.Drop.Extract.{ExtractFresh}

abbrev pub ones : ℕ → Bytes
ones zero = []
ones (suc n) = 65 ∷ ones n

-- An engine whose digest is the input itself, and whose envelope is not encrypted.
abbrev pub engine : CryptoEngine
engine = record {
  sm3_digest = λ b. b;
  constant_time_equal = bytes_eq;
  hkdf_sm3 = λ key salt info n. some key;
  sm2_verify = λ key digest signature. some true;
  sm3_hash_password = λ p salt. some p;
  sm4_gcm_decrypt = λ key nonce c aad tag. some c;
  envelope_seal = λ r. some (record {
    ciphertext = r.plaintext;
    nonce = ones 12;
    tag = ones 16;
    enc_key_sm2 = ones 1;
    enc_key_mlkem = none;
    sender_signature = ones 64;
    sender_certificate = r.sender_certificate_der;
  });
  envelope_open = λ a keys. some a.ciphertext;
}

abbrev pub runtime : Runtime
runtime = record {
  utf8 = λ t. t;
  from_utf8 = λ b. some b;
  hex = λ b. b;
  id_text = λ n. n ∷ [];
  nat_text = λ n. n ∷ [];
  isoformat = λ n. n ∷ [];
  isodate = λ n. n ∷ [];
  strip = λ t. t;
  basename = λ t. t;
  strftime = λ n. n ∷ [];
  base64 = λ b. b;
  lower = λ t. t;
  is_space = λ c. c == 32;
}

abbrev pub services : Collaborators
services = record {
  cached_key = λ user now. some (ones 32);
  resolve_for_create = λ users sender pqc. none;
  get_unlocked_private_key = λ user fingerprint now. some (ones 32);
  verify_certificate = λ certificate now. true;
}

abbrev pub user : ℕ → User
user n = record {
  id = n;
  email = none;
  role = Role.student;
  status = UserStatus.active;
  salt_a = [];
  auth_hash = [];
  salt_k = [];
  enc_sk = [];
  pubkey = some (ones 65);
  cert_serial = none;
  pqc_pubkey = none;
  failed_login_count = 0;
  locked_until = none;
  created_at = 0;
}

-- A drop to burn after reading, without a password.
abbrev pub parcel : Drop
parcel = record {
  id = 7;
  owner_user_id = 1;
  recipient_user_id = 2;
  link_code_hash = ones 11;
  kind = DropKind.text;
  envelope_version = 1;
  ciphertext = some (72 ∷ 105 ∷ []);
  nonce = some (ones 12);
  tag = some (ones 16);
  enc_key_sm2 = some (ones 1);
  enc_key_mlkem = none;
  sender_signature = some (ones 64);
  sender_certificate_der = some (ones 1);
  sender_cert_serial = [];
  recipient_sm2_fingerprint = [];
  recipient_mlkem_fingerprint = none;
  access_code_hash = ones 8;
  access_factor_salt = none;
  ttl_policy = TtlPolicy.burn_after_read;
  burn_after_read = true;
  expires_at = none;
  filename = none;
  content_size = 2;
  pqc_mode = false;
  status = DropStatus.available;
  failed_attempts = 4;
  cooldown_until = none;
  created_at = 0;
}

-- The same drop after a fifth wrong code at the instant 0.
abbrev pub locked_parcel : Drop
locked_parcel = record parcel {
  status = DropStatus.cooling_down;
  failed_attempts = 5;
  cooldown_until = some 600000000;
}

abbrev pub db_with : Drop → Db
db_with d = record {
  users = user 1 ∷ user 2 ∷ [];
  certificates = [];
  ledger = [];
  drops = d ∷ [];
  drop_idempotency = [];
  extract_idempotency = [];
  audit_log = [];
  inspections = [];
  notifications = [];
}

abbrev pub db : Db
db = db_with parcel

abbrev pub request : ExtractRequest
request = record {
  code = ones 11;
  access_code = ones 8;
  access_password = none;
  idempotency_key = ones 16;
  now = 10;
}

abbrev pub wrong_request : ExtractRequest
wrong_request = record request { access_code = ones 9 }

abbrev pub fresh : ExtractFresh
fresh = record { inspect_id = 100; destroy_id = 101; idemp_id = 102 }

abbrev pub create_request : CreateRequest
create_request = record {
  sender_id = 1;
  plaintext = ones 3;
  kind = DropKind.text;
  filename = none;
  ttl_policy = some hours_24;
  pqc_mode = false;
  access_password = none;
  idempotency_key = ones 16;
  operation = create_text;
  now = 10;
}

abbrev pub create_fresh : Fresh
create_fresh = record {
  drop_id = 8;
  inspect_id = 9;
  link_code = λ i. 65 ∷ ones 11;
  access_code = ones 19;
  salt = ones 16;
}

-- A sender with a certificate, and a recipient that resolves.
abbrev pub sending : Collaborators
sending = record services {
  resolve_for_create = λ users sender pqc. some (record {
    recipient_user_id = 2;
    sm2_public_key = ones 65;
    mlkem_public_key = none;
    sm2_fingerprint = ones 32;
    mlkem_fingerprint = none;
  });
}

abbrev pub certified_db : Db
certified_db = record db {
  certificates =
      record {
        serial = ones 4;
        subject_user_id = 1;
        identity = true;
        active = true;
        certificate_der = ones 9;
      }
      ∷ [];
}

abbrev pub created : CreateDropResponse
created = record {
  id = 8;
  code = 65 ∷ ones 11;
  access_code = ones 19;
  expires_at = some 86400000010;
  pqc_mode = false;
}
